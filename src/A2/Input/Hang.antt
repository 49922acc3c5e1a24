-- ===== src/A2/Input/Hang.antt =====
-- `parseInput` of a2/shell.c on a semicolon behind a space.
use ecse_427_simple_shell_cr.Base.{
  ℕ, zero, suc, ◌+◌, ◌≤◌, ◌<◌, ◌≡◌, refl, ◌∙◌, Bool, true, false, not, ◌&&◌, List, [], ◌∷◌, ◌++◌,
  Str, ltb, ◌==◌, length, space, newline, semicolon, ℤ, arith,
}
use ecse_427_simple_shell_cr.A2.State.{Kernel, no_fuel, Cmd}
use ecse_427_simple_shell_cr.A2.Input.{
  ends_word, read_word, skip_spaces, skip_all_spaces, put_word, parse_loop, parse_input,
}

-- no byte of the text ends a word
unfoldable pub plain : Str → Bool
plain [] = true
plain (c ∷ s) = not (ends_word c) && plain s

plain-cons : (c : ℕ) (s : Str) → plain (c ∷ s) ≡ true → (ends_word c ≡ false) × (plain s ≡ true)
unfolding plain
plain-cons c s p = ground arith

read_word-stop :
    (a c : ℕ) (s : Str)
    → ends_word c ≡ true
    → read_word a (c ∷ s) ≡ record { text = []; stop = a; rest = c ∷ s }
unfolding read_word
read_word-stop a c s e = ground arith

read_word-more :
    (a c : ℕ) (s : Str)
    → ends_word c ≡ false
    → a < 1000
    → read_word a (c ∷ s) ≡ record (read_word (a + 1) s) { text = c ∷ (read_word (a + 1) s).text }
unfolding read_word
read_word-more a c s e lt = ground arith

read_word-plain :
    (w : Str) (a b c : ℕ) (s : Str)
    → plain w ≡ true
    → ends_word c ≡ true
    → a + length w ≡ b
    → b ≤ 1000
    → read_word a (w ++ c ∷ s) ≡ record { text = w; stop = b; rest = c ∷ s }
read_word-plain [] a b c s p e q lt =
    let same : a ≡ b = omega arith in rw same (read_word-stop b c s e)
read_word-plain (d ∷ w) a b c s p e q lt =
    read_word-more a d (w ++ c ∷ s) (plain-cons d w p).0 (omega arith)
    ∙ rw (read_word-plain w (a + 1) b c s (plain-cons d w p).1 e (omega arith) lt)

ends_word-space : (c : ℕ) → ends_word c ≡ false → (c == space) ≡ false
unfolding ends_word
ends_word-space c e = ground arith

ends_word-newline : (c : ℕ) → ends_word c ≡ false → (c == newline) ≡ false
unfolding ends_word
ends_word-newline c e = ground arith

skip_all_spaces-none :
    (a c : ℕ) (s : Str) → (c == space) ≡ false → skip_all_spaces a (c ∷ s) ≡ (a, c ∷ s)
unfolding skip_all_spaces
skip_all_spaces-none a c s e = rw (skip_all_spaces, e)

skip_spaces-none : (a c : ℕ) (s : Str) → (c == space) ≡ false → skip_spaces a (c ∷ s) ≡ (a, c ∷ s)
unfolding skip_spaces
skip_spaces-none a c s e = rw (skip_spaces, e)

module _ {W : Type 0} (interpreter : List Str → ℕ → Cmd W ℤ) where
  -- With a semicolon where a word should begin, a turn of the loop changes nothing.
  parse_loop-semicolon :
      (fuel a : ℕ) (s : Str) (words : List Str) (w : ℕ) (k : Kernel W)
      → a < 1000
      → parse_loop interpreter fuel a (semicolon ∷ s) words w k ≡ no_fuel
  unfolding parse_loop skip_all_spaces read_word ends_word
  parse_loop-semicolon zero a s words w k lt = refl
  parse_loop-semicolon (suc fuel) a s words w k lt =
      let t : ltb a 1000 ≡ true = ground arith in rw t (parse_loop-semicolon fuel a s words w k lt)

  parse_loop-zero :
      (a : ℕ) (ui : Str) (words : List Str) (w : ℕ) (k : Kernel W)
      → parse_loop interpreter zero a ui words w k ≡ no_fuel
  unfolding parse_loop
  parse_loop-zero a ui words w k = refl

  -- A word that opens the line and is followed by a space takes one turn.
  parse_loop-word :
      (fuel c : ℕ) (w s : Str) (k : Kernel W)
      → plain (c ∷ w) ≡ true
      → length (c ∷ w) < 200
      → parse_loop interpreter (suc fuel) 0 ((c ∷ w) ++ space ∷ s) [] 0 k
        ≡ parse_loop interpreter fuel (length (c ∷ w) + 1) s ((c ∷ w) ∷ []) 1 k
  unfolding parse_loop put_word ends_word
  parse_loop-word fuel c w s k p lt =
      let e = (plain-cons c w p).0 in
      let r : read_word 0 (c ∷ (w ++ space ∷ s))
          ≡ record { text = c ∷ w; stop = length (c ∷ w); rest = space ∷ s } =
        read_word-plain (c ∷ w) 0 (length (c ∷ w)) space s p refl (omega arith) (omega arith) in
      let short : ltb (length (c ∷ w)) 200 ≡ true = ground arith in
      let full : (length (c ∷ w) == 0) ≡ false = ground arith in
      let sk = skip_all_spaces-none 0 c (w ++ space ∷ s) (ends_word-space c e) in
      rw (ends_word-newline c e, sk, sk, r, short, sk, r, full, sk, r, sk, r)

  -- A line of one plain word, then a space and a semicolon, never leaves `parseInput`: whatever the
  -- fuel, it runs out, and the interpreter is not called.
  pub parse_input_hangs :
      (fuel c : ℕ) (w s : Str) (k : Kernel W)
      → plain (c ∷ w) ≡ true
      → length (c ∷ w) < 200
      → parse_input interpreter fuel ((c ∷ w) ++ space ∷ semicolon ∷ s) k ≡ no_fuel
  unfolding parse_input
  parse_input_hangs fuel c w s k p lt =
      rw
        (skip_spaces-none 0 c (w ++ space ∷ semicolon ∷ s) (ends_word-space c (plain-cons c w p).0))
        (spin fuel)
    where
      spin :
          (n : ℕ) → parse_loop interpreter n 0 ((c ∷ w) ++ space ∷ semicolon ∷ s) [] 0 k ≡ no_fuel
      spin zero = parse_loop-zero 0 ((c ∷ w) ++ space ∷ semicolon ∷ s) [] 0 k
      spin (suc n) =
          parse_loop-word n c w (semicolon ∷ s) k p lt
          ∙ parse_loop-semicolon n (length (c ∷ w) + 1) s ((c ∷ w) ∷ []) 1 k (omega arith)

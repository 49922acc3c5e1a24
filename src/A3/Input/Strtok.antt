-- ===== src/A3/Input/Strtok.antt =====
-- The text that `strtok` goes on from, which all calls of `parseInput` share.
use ecse_427_simple_shell_cr.Base.{
  ℕ, zero, suc, ◌<◌, ◌≤◌, ◌≡◌, ◌≢◌, ◌⊎◌, refl, sym, ◌∙◌, inl, inr, true, false, Option, none, some,
  List, [], ◌∷◌, ◌++◌, Str, ltb, ◌==◌, length, semicolon, ℤ, pos, eq_ℤ, minus_one, arith,
  Bool-cases,
}
use ecse_427_simple_shell_cr.A3.LinkedList.{Result, ok, ◌>>=◌ as bind, exit_99, fault, no_fuel}
use ecse_427_simple_shell_cr.A3.State.{Kernel, Cmd}
use ecse_427_simple_shell_cr.A3.Input.{
  max_user_input, max_words, skip_semicolons, cut, strtok, words_of, strtok_start, strtok_next,
  run_piece, parse_loop, parse_input,
}

-- no semicolon in the text
abbrev pub NoSemicolon : Str → Type 0
NoSemicolon [] = Unit {0}
NoSemicolon (c ∷ s) = ((c == semicolon) ≡ false) × NoSemicolon s

-- A call that came to a result, behind another: the first has a result.
ok_of_bind :
    {A B : Type 0} (r : Result A) (f : A → Result B) (b : B)
    → bind r f ≡ ok b
    → (a : A) × (r ≡ ok a) × (f a ≡ ok b)
ok_of_bind (ok a) f b h = (a, refl, h)
ok_of_bind exit_99 f b h = cc
ok_of_bind fault f b h = cc
ok_of_bind no_fuel f b h = cc

cut-piece : (p s : Str) → NoSemicolon p → cut (p ++ semicolon ∷ s) ≡ (p, s)
unfolding cut
cut-piece [] s h = refl
cut-piece (c ∷ p) s h = rw (h.0, cut, cut-piece p s h.1)

cut-all : (p : Str) → NoSemicolon p → cut p ≡ (p, [])
unfolding cut
cut-all [] h = refl
cut-all (c ∷ p) h = rw (h.0, cut, cut-all p h.1)

-- A piece that a semicolon ends is the first token.
pub strtok-piece : (p s : Str) → p ≢ [] → NoSemicolon p → strtok (p ++ semicolon ∷ s) ≡ (some p, s)
unfolding strtok skip_semicolons
strtok-piece [] s n h = absurd (n refl)
strtok-piece (c ∷ p) s n h = rw (h.0, skip_semicolons, strtok, cut-piece (c ∷ p) s h)

pub strtok-last : (p : Str) → p ≢ [] → NoSemicolon p → strtok p ≡ (some p, [])
unfolding strtok skip_semicolons
strtok-last [] n h = absurd (n refl)
strtok-last (c ∷ p) n h = rw (h.0, skip_semicolons, strtok, cut-all (c ∷ p) h)

List-cases : {A : Type 0} (xs : List A) → (xs ≡ []) ⊎ ((x : A) × (t : List A) × (xs ≡ x ∷ t))
List-cases [] = inl refl
List-cases (x ∷ xs) = inr (x, xs, refl)

-- Without a token, nothing is left.
pub strtok-none : (s : Str) → (strtok s).0 ≡ none → (strtok s).1 ≡ []
unfolding strtok
strtok-none s h = elim (List-cases (skip_semicolons s)) [
  | inl e ↦ rw (e, strtok)
  | inr (c, t, e) ↦ let found = rw (e, strtok) at h in cc
]

-- the state in which the first command of a line runs: `strtok` would go on from the rest of the line
abbrev pub behind_first : {W : Type 0} → Kernel W → Str → Kernel W
behind_first k rest = record k { strtok_rest = rest }

module _ {W : Type 0} (interpreter : List Str → Cmd W ℤ) where
  parse_loop-step :
      (fuel : ℕ) (ret code : ℤ) (piece : Str) (k k' : Kernel W)
      → run_piece interpreter piece k ≡ ok (code, k')
      → eq_ℤ code minus_one ≡ false
      → parse_loop interpreter (suc fuel) ret (some piece) k
        ≡ parse_loop interpreter fuel code
            (strtok k'.strtok_rest).0
            (record k' { strtok_rest = (strtok k'.strtok_rest).1 })
  unfolding parse_loop strtok_next strtok_start
  parse_loop-step fuel ret code piece k k' e go = rw (e, go)

  parse_loop-stop :
      (fuel : ℕ) (ret code : ℤ) (piece : Str) (k k' : Kernel W)
      → run_piece interpreter piece k ≡ ok (code, k')
      → eq_ℤ code minus_one ≡ true
      → parse_loop interpreter (suc fuel) ret (some piece) k
        ≡ ok (code, record k' { strtok_rest = (strtok k'.strtok_rest).1 })
  unfolding parse_loop strtok_next strtok_start
  parse_loop-stop fuel ret code piece k k' e stop = rw (e, stop)

  run_piece-of_loop :
      (fuel : ℕ) (ret : ℤ) (piece : Str) (k : Kernel W) (r : ℤ × Kernel W)
      → parse_loop interpreter (suc fuel) ret (some piece) k ≡ ok r
      → (a : ℤ × Kernel W) × (run_piece interpreter piece k ≡ ok a)
  unfolding parse_loop
  run_piece-of_loop fuel ret piece k r h = let (a, e, _) = ok_of_bind _ _ r h in (a, e)

  parse_loop_rest :
      (fuel : ℕ) (ret : ℤ) (tokens : Option Str) (k k' : Kernel W) (code : ℤ)
      → (tokens ≡ none → k.strtok_rest ≡ [])
      → parse_loop interpreter fuel ret tokens k ≡ ok (code, k')
      → eq_ℤ code minus_one ≡ false
      → k'.strtok_rest ≡ []
  unfolding parse_loop
  parse_loop_rest zero ret tokens k k' code start h go = cc
  parse_loop_rest (suc fuel) ret none k k' code start h go = let e = start refl in cc
  parse_loop_rest (suc fuel) ret (some piece) k k' code start h go =
      let ((c, k1), e) = run_piece-of_loop fuel ret piece k (code, k') h in
      elim (Bool-cases (eq_ℤ c minus_one)) [
        | inl stop ↦ let r = parse_loop-stop fuel ret c piece k k1 e stop in cc
        | inr more ↦
            parse_loop_rest fuel c _ _ k' code (strtok-none k1.strtok_rest)
              (sym (parse_loop-step fuel ret c piece k k1 e more) ∙ h) go
      ]

  -- `parseInput` that returns anything but -1 leaves nothing for
  -- the next `strtok(NULL, ";")`.
  parse_input_rest :
      (fuel : ℕ) (ui : Str) (k k' : Kernel W) (code : ℤ)
      → parse_input interpreter fuel ui k ≡ ok (code, k')
      → eq_ℤ code minus_one ≡ false
      → k'.strtok_rest ≡ []
  unfolding parse_input strtok_start
  parse_input_rest fuel ui k k' code h go =
      parse_loop_rest fuel (pos 0) _ _ k' code (strtok-none ui) h go

  pub run_piece_fits :
      (piece : Str) (k : Kernel W)
      → length piece < max_user_input
      → length (words_of piece) ≤ max_words
      → run_piece interpreter piece k ≡ interpreter (words_of piece) k
  unfolding run_piece
  run_piece_fits piece k short few =
      let t : ltb (length piece) max_user_input ≡ true = ground arith in
      let u : ltb max_words (length (words_of piece)) ≡ false = ground arith in rw (t, run_piece, u)

  parse_loop-empty :
      (fuel : ℕ) (code : ℤ) (k : Kernel W) (rest : Str)
      → rest ≡ []
      → parse_loop interpreter
          (suc fuel)
          code
          (strtok rest).0
          (record k { strtok_rest = (strtok rest).1 })
        ≡ ok (code, record k { strtok_rest = rest })
  unfolding parse_loop strtok skip_semicolons
  parse_loop-empty fuel code k rest e = rw e refl

  -- A first command that leaves nothing for `strtok` is the only one that runs.
  parse_input_drops :
      (fuel : ℕ) (piece rest : Str) (k k' : Kernel W) (code : ℤ)
      → piece ≢ []
      → NoSemicolon piece
      → length piece < max_user_input
      → length (words_of piece) ≤ max_words
      → interpreter (words_of piece) (behind_first k rest) ≡ ok (code, k')
      → k'.strtok_rest ≡ []
      → eq_ℤ code minus_one ≡ false
      → parse_input interpreter (suc (suc fuel)) (piece ++ semicolon ∷ rest) k ≡ ok (code, k')
  unfolding parse_input strtok_start
  parse_input_drops fuel piece rest k k' code n h short few e empty go =
      rw (strtok-piece piece rest n h) (
        parse_loop-step (suc fuel) (pos 0) code piece _ k'
          (run_piece_fits piece (behind_first k rest) short few ∙ e) go
        ∙ parse_loop-empty fuel code k' k'.strtok_rest empty)

  -- a line of one command
  pub parse_input_one :
      (fuel : ℕ) (piece : Str) (k k' : Kernel W) (code : ℤ)
      → piece ≢ []
      → NoSemicolon piece
      → length piece < max_user_input
      → length (words_of piece) ≤ max_words
      → interpreter (words_of piece) (behind_first k []) ≡ ok (code, k')
      → k'.strtok_rest ≡ []
      → eq_ℤ code minus_one ≡ false
      → parse_input interpreter (suc (suc fuel)) piece k ≡ ok (code, k')
  unfolding parse_input strtok_start
  parse_input_one fuel piece k k' code n h short few e empty go = rw (strtok-last piece n h) (
      parse_loop-step (suc fuel) (pos 0) code piece _ k'
        (run_piece_fits piece (behind_first k []) short few ∙ e) go
      ∙ parse_loop-empty fuel code k' k'.strtok_rest empty)

module _ {W : Type 0} (interpreter inner : List Str → Cmd W ℤ) where
  -- If the first command of a line has lines of its own parsed, the last of which returned anything but
  -- -1, and does not return -1 itself, then `parseInput` returns what it returned, and the rest of the
  -- line is not run.
  pub parse_input_nested :
      (fuel g : ℕ) (piece rest ui : Str) (k k' j j' : Kernel W) (code last : ℤ)
      → piece ≢ []
      → NoSemicolon piece
      → length piece < max_user_input
      → length (words_of piece) ≤ max_words
      → parse_input inner g ui j ≡ ok (last, j')
      → eq_ℤ last minus_one ≡ false
      → interpreter (words_of piece) (behind_first k rest) ≡ ok (code, k')
      → k'.strtok_rest ≡ j'.strtok_rest
      → eq_ℤ code minus_one ≡ false
      → parse_input interpreter (suc (suc fuel)) (piece ++ semicolon ∷ rest) k ≡ ok (code, k')
  parse_input_nested fuel g piece rest ui k k' j j' code last n h short few nested more e same go =
      parse_input_drops interpreter fuel piece rest k k' code n h short few e
        (same ∙ parse_input_rest inner g ui j j' last nested more) go

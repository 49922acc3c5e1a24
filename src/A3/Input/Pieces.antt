-- ===== src/A3/Input/Pieces.antt =====
-- The commands of a line of a3/shell.c, between semicolons.
use ecse_427_simple_shell_cr.Base.{
  ℕ, suc, ◌<◌, ◌≤◌, ◌≡◌, ◌≢◌, refl, inl, inr, some, List, [], ◌∷◌, ◌++◌, Str, if◌then◌else◌, length,
  semicolon, ℤ, pos, eq_ℤ, minus_one, Bool-cases,
}
use ecse_427_simple_shell_cr.A3.LinkedList.{Result, ok, ◌>>=◌ as bind, exit_99, fault, no_fuel}
use ecse_427_simple_shell_cr.A3.State.{Kernel, Cmd, ◌>>=◌, pure}
use ecse_427_simple_shell_cr.A3.Input.{
  max_user_input, max_words, skip_semicolons, strtok, words_of, strtok_start, strtok_next,
  parse_loop, parse_input,
}
use ecse_427_simple_shell_cr.A3.Input.Strtok.{
  NoSemicolon, strtok-piece, strtok-last, run_piece_fits,
}

-- the pieces with a semicolon between any two
unfoldable pub join_pieces : List Str → Str
join_pieces [] = []
join_pieces (p ∷ []) = p
join_pieces (p ∷ q ∷ ps) = p ++ semicolon ∷ join_pieces (q ∷ ps)

strtok-join_pieces :
    (p : Str) (ps : List Str)
    → p ≢ []
    → NoSemicolon p
    → strtok (join_pieces (p ∷ ps)) ≡ (some p, join_pieces ps)
unfolding join_pieces
strtok-join_pieces p [] n h = strtok-last p n h
strtok-join_pieces p (q ∷ ps) n h = strtok-piece p (join_pieces (q ∷ ps)) n h

module _ {W : Type 0} where
  abbrev pub with_rest : Str → Result (ℤ × Kernel W) → Result (ℤ × Kernel W)
  with_rest rest r = bind r λ (c, k). ok (c, record k { strtok_rest = rest })

  -- two results that differ at most in what `strtok` goes on from
  abbrev pub SameButRest : Result (ℤ × Kernel W) → Result (ℤ × Kernel W) → Type 0
  SameButRest r s = with_rest [] r ≡ with_rest [] s

  bind-SameButRest :
      (f g : ℤ × Kernel W → Result (ℤ × Kernel W)) (r : Result (ℤ × Kernel W))
      → ((c : ℤ) (k : Kernel W) → SameButRest (f (c, k)) (g (c, k)))
      → SameButRest (bind r f) (bind r g)
  bind-SameButRest f g (ok (c, k)) h = h c k
  bind-SameButRest f g exit_99 h = refl
  bind-SameButRest f g fault h = refl
  bind-SameButRest f g no_fuel h = refl

  bind-with_rest :
      (rest : Str) (f : ℤ × Kernel W → Result (ℤ × Kernel W)) (r : Result (ℤ × Kernel W))
      → bind (with_rest rest r) f ≡ bind r λ (c, k). f (c, record k { strtok_rest = rest })
  bind-with_rest rest f (ok (c, k)) = refl
  bind-with_rest rest f exit_99 = refl
  bind-with_rest rest f fault = refl
  bind-with_rest rest f no_fuel = refl

module _ {W : Type 0} (interpreter : List Str → Cmd W ℤ) where
  -- The commands one by one, up to one that returns -1; the result is that of the last one.
  unfoldable pub run_all : (ret : ℤ) → List Str → Cmd W ℤ
  run_all ret [] = pure ret
  run_all ret (p ∷ ps) = do
    code ← interpreter (words_of p)
    if eq_ℤ code minus_one then pure code else run_all code ps

  -- The command of the piece neither reads nor changes what `strtok` goes on from.
  abbrev pub Oblivious : Str → Type 0
  Oblivious p =
      (k : Kernel W) (rest : Str)
      → interpreter (words_of p) (record k { strtok_rest = rest })
        ≡ with_rest rest (interpreter (words_of p) k)

  pub record IsPiece (p : Str) : Type 0 where
    pub nonempty : p ≢ []
    pub no_semicolon : NoSemicolon p
    pub short : length p < max_user_input
    pub few : length (words_of p) ≤ max_words
    pub oblivious : Oblivious p

  abbrev pub AllPieces : List Str → Type 0
  AllPieces [] = Unit {0}
  AllPieces (p ∷ ps) = IsPiece p × AllPieces ps

  parse_loop-run :
      (fuel : ℕ) (ret : ℤ) (p rest : Str) (k : Kernel W)
      → IsPiece p
      → parse_loop interpreter (suc fuel) ret (some p) (record k { strtok_rest = rest })
        ≡ bind (interpreter (words_of p) k) λ (c, k').
          (if eq_ℤ c minus_one
              then pure {W = W} c
              else parse_loop interpreter fuel c (strtok rest).0)
            (record k' { strtok_rest = (strtok rest).1 })
  unfolding parse_loop strtok_next strtok_start
  parse_loop-run fuel ret p rest k h =
      rw
        (
          run_piece_fits interpreter p (record k { strtok_rest = rest }) h.short h.few,
          h.oblivious k rest,
        )
        (bind-with_rest rest _ (interpreter (words_of p) k))

  loop-run_all :
      (ret : ℤ) (ps : List Str) (k : Kernel W)
      → AllPieces ps
      → SameButRest
          (parse_loop interpreter
            (suc (length ps))
            ret
            (strtok (join_pieces ps)).0
            (record k { strtok_rest = (strtok (join_pieces ps)).1 }))
          (run_all ret ps k)
  unfolding parse_loop run_all join_pieces strtok skip_semicolons
  loop-run_all ret [] k h = refl
  loop-run_all ret (p ∷ ps) k (h, hs) =
      rw
        (
          strtok-join_pieces p ps h.nonempty h.no_semicolon,
          parse_loop-run (suc (length ps)) ret p (join_pieces ps) k h,
        )
        (bind-SameButRest _ _ (interpreter (words_of p) k) λ c k'.
          elim (Bool-cases (eq_ℤ c minus_one)) [
            | inl stop ↦ rw stop refl
            | inr go ↦ rw go (loop-run_all c ps k' hs)
          ])

  -- Of pieces that are not empty, fit the buffers and have commands that do not parse lines themselves,
  -- with a semicolon between any two, `parseInput` runs each in order up to one that returns -1, and
  -- returns what the last of them returned.
  pub parse_input-run_all :
      (ps : List Str) (k : Kernel W)
      → AllPieces ps
      → SameButRest
          (parse_input interpreter (suc (length ps)) (join_pieces ps) k)
          (run_all (pos 0) ps k)
  unfolding parse_input strtok_start
  parse_input-run_all ps k h = loop-run_all (pos 0) ps k h

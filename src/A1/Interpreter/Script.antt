-- ===== src/A1/Interpreter/Script.antt =====
-- `run` of a1/interpreter.c reads a script line by line.
use ecse_427_simple_shell_cr.Base.{
  ℕ, zero, suc, ◌<◌, ◌≡◌, ◌≢◌, refl, ap, sym, ◌∙◌, Bool, true, false, inl, inr, Bool-cases,
  Option-cases, Option, none, some, List, [], ◌∷◌, ◌++◌, Str, length, ◌==◌, if◌then◌else◌, newline,
  fgets, arith, ℤ,
}
use ecse_427_simple_shell_cr.A1.Shell.{Shell, Outcome, done, exited, fault, no_fuel, and_then}
use ecse_427_simple_shell_cr.A1.Interpreter.{run_lines}
use mathlib.Core.Path.{fun_ext}

abbrev cons_head : ℕ → List Str → List Str
cons_head c [] = (c ∷ []) ∷ []
cons_head c (l ∷ ls) = (c ∷ l) ∷ ls

-- The lines of a text, each with its newline; behind the last newline stands one more line, which may
-- be empty.
unfoldable pub file_lines : Str → List Str
file_lines [] = [] ∷ []
file_lines (c ∷ s) = let ls = file_lines s in if c == newline then (c ∷ []) ∷ ls else cons_head c ls

abbrev pub AllShort : ℕ → List Str → Type 0
AllShort n [] = Unit {0}
AllShort n (l ∷ ls) = (length l < n) × AllShort n ls

-- the first line, and the text behind its newline, if it has one
first_line : Str → Str
first_line [] = []
first_line (c ∷ s) = if c == newline then c ∷ [] else c ∷ first_line s

after_line : Str → Option Str
after_line [] = none
after_line (c ∷ s) = if c == newline then some s else after_line s

abbrev lines_behind : Option Str → List Str
lines_behind none = []
lines_behind (some s) = file_lines s

abbrev is_none : Option Str → Bool
is_none none = true
is_none (some s) = false

abbrev text_of : Option Str → Str
text_of none = []
text_of (some s) = s

file_lines-step : (s : Str) → file_lines s ≡ first_line s ∷ lines_behind (after_line s)
unfolding file_lines first_line after_line
file_lines-step [] = refl
file_lines-step (c ∷ s) = ground (arith, file_lines-step s)

fgets-first_line :
    (n : ℕ) (s : Str)
    → length (first_line s) < n
    → fgets n s ≡ record {
      text = first_line s;
      rest = text_of (after_line s);
      at_end = is_none (after_line s);
    }
unfolding fgets first_line after_line
fgets-first_line zero s h = absurd (omega arith)
fgets-first_line (suc n) [] h = refl
fgets-first_line (suc n) (c ∷ s) h = ground (arith, fgets-first_line n s)

length-after_line : (s r : Str) → after_line s ≡ some r → length r < length s
unfolding after_line
length-after_line [] r h = cc
length-after_line (c ∷ s) r h = ground (arith, length-after_line s r)

module _ {W : Type 0} where
  -- Each line goes to `parse`, in order, and the last one's code is the result.
  unfoldable pub run_all : (Str → Shell W → Outcome W) → List Str → Shell W → Outcome W
  run_all parse [] s = fault
  run_all parse (l ∷ []) s = parse l s
  run_all parse (l ∷ (m ∷ ls)) s = and_then (parse l s) λ _ s'. run_all parse (m ∷ ls) s'

  and_then-done : (o : Outcome W) → and_then o done ≡ o
  and_then-done (done c s) = refl
  and_then-done (exited s) = refl
  and_then-done fault = refl
  and_then-done no_fuel = refl

  run_all-file_lines :
      (parse : Str → Shell W → Outcome W) (l r : Str) (s : Shell W)
      → run_all parse (l ∷ file_lines r) s
        ≡ and_then (parse l s) (λ _ s'. run_all parse (file_lines r) s')
  unfolding run_all
  run_all-file_lines parse l r s = rw (file_lines-step r)

  run_lines-step :
      (fuel : ℕ) (parse : Str → Shell W → Outcome W) (text : Str) (s : Shell W) (o : Option Str)
      → length (first_line text) < 998
      → after_line text ≡ o
      → run_lines (suc fuel) parse text s
        ≡ and_then
            (parse (first_line text) s)
            (λ code s'. elim o [ none ↦ done code s' | some r ↦ run_lines fuel parse r s' ])
  unfolding run_lines
  run_lines-step fuel parse text s none h e = rw (fgets-first_line 998 text h, e)
  run_lines-step fuel parse text s (some r) h e = simp (fgets-first_line 998 text h, e)

  pub run_lines-run_all :
      (fuel : ℕ) (parse : Str → Shell W → Outcome W) (text : Str) (s : Shell W)
      → length text < fuel
      → AllShort 998 (file_lines text)
      → run_lines fuel parse text s ≡ run_all parse (file_lines text) s
  unfolding run_all
  run_lines-run_all zero parse text s h short = absurd (omega arith)
  run_lines-run_all (suc fuel) parse text s h short =
      let lines = rw (file_lines-step text) at short in
      elim (Option-cases (after_line text)) [
        | inl e ↦
            run_lines-step fuel parse text s none lines.0 e
            ∙ and_then-done (parse (first_line text) s)
            ∙ rw (file_lines-step text, e, run_all)
        | inr (r, e) ↦
            let rest = rw e at lines.1 in
            run_lines-step fuel parse text s (some r) lines.0 e
            ∙ ap (and_then (parse (first_line text) s)) (
                fun_ext λ code. fun_ext λ s'.
                  run_lines-run_all fuel parse r s' (omega (arith, length-after_line text r e))
                    rest)
            ∙ sym (run_all-file_lines parse (first_line text) r s)
            ∙ rw (file_lines-step text, e)
      ]

  pub run_all-append :
      (parse : Str → Shell W → Outcome W) (l : Str) (ls : List Str) (m : Str) (s : Shell W)
      → run_all parse ((l ∷ ls) ++ m ∷ []) s
        ≡ and_then (run_all parse (l ∷ ls) s) (λ _ s'. parse m s')
  unfolding run_all
  run_all-append parse l [] m s = refl
  run_all-append parse l (k ∷ ls) m s =
      ap (and_then (parse l s)) (fun_ext λ code. fun_ext λ s'. run_all-append parse k ls m s')
      ∙ and_then-assoc (parse l s) (λ _ s'. run_all parse (k ∷ ls) s') (λ _ s'. parse m s')
    where
      and_then-assoc :
          (o : Outcome W) (f g : ℤ → Shell W → Outcome W)
          → and_then o (λ c s'. and_then (f c s') g) ≡ and_then (and_then o f) g
      and_then-assoc (done c s) f g = refl
      and_then-assoc (exited s) f g = refl
      and_then-assoc fault f g = refl
      and_then-assoc no_fuel f g = refl

-- the lines of a text, the last one with a newline too
unfoldable pub terminated : List Str → List Str
terminated [] = []
terminated (l ∷ []) = (l ++ newline ∷ []) ∷ []
terminated (l ∷ (m ∷ ls)) = l ∷ terminated (m ∷ ls)

terminated-newline :
    (c : ℕ) (ls : List Str)
    → ls ≢ []
    → (c ∷ []) ∷ (terminated ls ++ [] ∷ []) ≡ terminated ((c ∷ []) ∷ ls) ++ [] ∷ []
unfolding terminated
terminated-newline c [] n = absurd (n refl)
terminated-newline c (l ∷ ls) n = refl

terminated-cons_head :
    (c : ℕ) (ls : List Str)
    → ls ≢ []
    → cons_head c (terminated ls ++ [] ∷ []) ≡ terminated (cons_head c ls) ++ [] ∷ []
unfolding terminated
terminated-cons_head c [] n = absurd (n refl)
terminated-cons_head c (l ∷ []) n = refl
terminated-cons_head c (l ∷ (m ∷ ls)) n = refl

pub file_lines-ne-nil : (t : Str) → file_lines t ≢ []
file_lines-ne-nil t e = cc (file_lines-step t)

file_lines-cons :
    (c : ℕ) (t : Str)
    → file_lines (c ∷ t)
      ≡ (if c == newline then (c ∷ []) ∷ file_lines t else cons_head c (file_lines t))
unfolding file_lines
file_lines-cons c t = refl

pub file_lines-newline :
    (t : Str) → file_lines (t ++ newline ∷ []) ≡ terminated (file_lines t) ++ [] ∷ []
unfolding file_lines terminated
file_lines-newline [] = refl
file_lines-newline (c ∷ t) =
    file_lines-cons c (t ++ newline ∷ [])
    ∙ rw (file_lines-newline t) (elim (Bool-cases (c == newline)) [
      | inl e ↦ rw e (terminated-newline c (file_lines t) (file_lines-ne-nil t))
      | inr e ↦ rw e (terminated-cons_head c (file_lines t) (file_lines-ne-nil t))
    ])

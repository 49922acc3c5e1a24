-- ===== src/A1/Interpreter/Conditional.antt =====
-- `if a op b then c1 else c2 fi` of a1/interpreter.c against its meaning.
use ecse_427_simple_shell_cr.Base.{
  ℕ, zero, suc, ◌+◌, ◌≡◌, ◌≢◌, refl, ap, sym, ◌∙◌, Bool, true, false, not, List, [], ◌∷◌, ◌++◌, Str,
  codes, str_eq, str_eq_refl, ◌==◌, if◌then◌else◌, length, length-append, take, drop, append_assoc,
  arith,
}
use ecse_427_simple_shell_cr.A1.Shell.{Shell, Outcome}
use ecse_427_simple_shell_cr.A1.Interpreter.{
  find_else, identifier, branch_words, run_branch, is_last, if_cmd,
}

abbrev pub else_word : Str
else_word = codes "else"

abbrev pub fi_word : Str
fi_word = codes "fi"

abbrev pub NoElse : List Str → Type 0
NoElse [] = Unit {0}
NoElse (w ∷ ws) = (str_eq w else_word ≡ false) × NoElse ws

-- what follows `then`
abbrev pub branches : List Str → List Str → List Str
branches c1 c2 = c1 ++ else_word ∷ (c2 ++ fi_word ∷ [])

find_else-step :
    (i : ℕ) (w : Str) (ws : List Str)
    → ws ≢ []
    → find_else i (w ∷ ws) ≡ (if str_eq w else_word then i else find_else (i + 1) ws)
unfolding find_else
find_else-step i w [] n = absurd (n refl)
find_else-step i w (x ∷ ws) n = refl

append-ne-nil : (c : List Str) (w : Str) (ws : List Str) → c ++ w ∷ ws ≢ []
append-ne-nil [] w ws e = cc
append-ne-nil (x ∷ c) w ws e = cc

find_else-branches :
    (i : ℕ) (c1 c2 : List Str) → NoElse c1 → find_else i (branches c1 c2) ≡ i + length c1
find_else-branches i [] c2 n =
    find_else-step i else_word _ (append-ne-nil c2 fi_word [])
    ∙ rw (str_eq_refl else_word) (omega arith)
find_else-branches i (w ∷ c1) c2 n =
    find_else-step i w _ (append-ne-nil c1 else_word _)
    ∙ rw n.0 (find_else-branches (i + 1) c1 c2 n.1 ∙ omega arith)

is_last-append : (v : Str) (ws : List Str) → is_last v (ws ++ v ∷ []) ≡ true
unfolding is_last
is_last-append v [] = str_eq_refl v
is_last-append v (w ∷ []) = str_eq_refl v
is_last-append v (w ∷ (x ∷ ws)) = is_last-append v (x ∷ ws)

is_last-branches : (w : Str) (c1 c2 : List Str) → is_last fi_word (w ∷ branches c1 c2) ≡ true
is_last-branches w c1 c2 =
    ap (is_last fi_word) (sym (append_assoc (w ∷ c1) (else_word ∷ c2) (fi_word ∷ [])))
    ∙ is_last-append fi_word ((w ∷ c1) ++ else_word ∷ c2)

take-length : (xs ys : List Str) (n : ℕ) → n ≡ length xs → take n (xs ++ ys) ≡ xs
take-length [] ys zero e = refl
take-length [] ys (suc n) e = absurd (omega arith)
take-length (x ∷ xs) ys zero e = absurd (omega arith)
take-length (x ∷ xs) ys (suc n) e = ap (◌∷◌ x) (take-length xs ys n (omega arith))

drop-length : (xs ys : List Str) (n : ℕ) → n ≡ length xs → drop n (xs ++ ys) ≡ ys
drop-length [] ys zero e = refl
drop-length [] ys (suc n) e = absurd (omega arith)
drop-length (x ∷ xs) ys zero e = absurd (omega arith)
drop-length (x ∷ xs) ys (suc n) e = drop-length xs ys n (omega arith)

-- the words of a conditional, `op` being "==" or "!="
abbrev pub conditional : Str → Str → Str → List Str → List Str → List Str
conditional op a b c1 c2 = codes "if" ∷ (a ∷ (op ∷ (b ∷ (codes "then" ∷ branches c1 c2))))

branch_words-then :
    (op a b : Str) (c1 c2 : List Str)
    → branch_words true (5 + length c1) (conditional op a b c1 c2) ≡ c1
unfolding branch_words
branch_words-then op a b c1 c2 = take-length c1 _ _ (omega arith)

branch_words-else :
    (op a b : Str) (c1 c2 : List Str)
    → branch_words false (5 + length c1) (conditional op a b c1 c2) ≡ c2
unfolding branch_words
branch_words-else op a b c1 c2 =
    ap (take _) (
      ap (drop _) (sym (append_assoc front (else_word ∷ []) (c2 ++ fi_word ∷ [])))
      ∙ drop-length (front ++ else_word ∷ []) (c2 ++ fi_word ∷ []) _
          (omega (arith, length-append front (else_word ∷ []))))
    ∙ take-length c2 (fi_word ∷ []) _ (
        omega (
          arith,
          length-append c1 (else_word ∷ (c2 ++ fi_word ∷ [])),
          length-append c2 (fi_word ∷ []),
        ))
  where
    front : List Str
    front = codes "if" ∷ (a ∷ (op ∷ (b ∷ (codes "then" ∷ c1))))

-- the two operators; `true` is "=="
abbrev pub op_word : Bool → Str
op_word true = codes "=="
op_word false = codes "!="

abbrev pub holds : Bool → Bool → Bool
holds true same = same
holds false same = not same

module _ {W : Type 0} (rec : List Str → Shell W → Outcome W) where
  run_branch-cons : (c : List Str) (s : Shell W) → c ≢ [] → run_branch rec c s ≡ rec c s
  unfolding run_branch
  run_branch-cons [] s n = absurd (n refl)
  run_branch-cons (w ∷ ws) s n = refl

  run_branch-branch_words :
      (t : Bool) (op a b : Str) (c1 c2 : List Str) (s : Shell W)
      → c1 ≢ []
      → c2 ≢ []
      → run_branch rec (branch_words t (5 + length c1) (conditional op a b c1 c2)) s
        ≡ rec (if t then c1 else c2) s
  run_branch-branch_words true op a b c1 c2 s n1 n2 =
      rw (branch_words-then op a b c1 c2) (run_branch-cons c1 s n1)
  run_branch-branch_words false op a b c1 c2 s n1 n2 =
      rw (branch_words-else op a b c1 c2) (run_branch-cons c2 s n2)

  -- The conditional with "==" or "!=" as its operator, and two commands that are not empty, the first
  -- of which has no word "else", runs the first command if the comparison of the identifiers'
  -- values holds and else the second, and does nothing else. Nothing is refused: a variable that is not
  -- set has the value that `mem_get_value` gives for it, "Variable does not exist".
  pub if_cmd-branches :
      (equal : Bool) (a b : Str) (c1 c2 : List Str) (s : Shell W)
      → NoElse c1
      → c1 ≢ []
      → c2 ≢ []
      → if_cmd rec (conditional (op_word equal) a b c1 c2) s
        ≡ rec (if holds equal (str_eq (identifier a s) (identifier b s)) then c1 else c2) s
  unfolding if_cmd str_eq
  if_cmd-branches true a b c1 c2 s ne n1 n2 =
      let nz : (5 + length c1 == 0) ≡ false = ground arith in
      rw (is_last-branches (codes "then") c1 c2, find_else-branches 5 c1 c2 ne, nz)
        (run_branch-branch_words (str_eq (identifier a s) (identifier b s)) (op_word true) a b c1 c2
          s n1 n2)
  if_cmd-branches false a b c1 c2 s ne n1 n2 =
      let nz : (5 + length c1 == 0) ≡ false = ground arith in
      rw (is_last-branches (codes "then") c1 c2, find_else-branches 5 c1 c2 ne, nz)
        (run_branch-branch_words (not (str_eq (identifier a s) (identifier b s))) (op_word false) a
          b c1 c2 s n1 n2)

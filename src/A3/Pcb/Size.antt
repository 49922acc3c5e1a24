-- ===== src/A3/Pcb/Size.antt =====
-- The page table of a3/pcb.c against the number of lines.
use ecse_427_simple_shell_cr.Base.{
  ℕ, suc, ◌+◌, ◌*◌, ◌≤◌, ◌<◌, ◌≡◌, refl, false, append_assoc, length, ap, ◌∙◌, List, [], ◌∷◌, ◌++◌,
  Str, ◌==◌, newline, arith,
}
use ecse_427_simple_shell_cr.A3.Pcb.{page_table_size, newlines, count_lines}

-- The pages of three lines hold every line, and not one page is without a line.
pub page_table_size_lem : (n : ℕ) → (n ≤ page_table_size n * 3) × (page_table_size n * 3 < n + 3)
unfolding page_table_size
page_table_size_lem n = (ground arith, ground arith)

-- a line of some bytes, none of which is a newline, and the newline behind it
abbrev pub IsLine : Str → Type 0
IsLine [] = ⊥
IsLine (c ∷ []) = c == newline ≡ false
IsLine (c ∷ (d ∷ s)) = (c == newline ≡ false) × IsLine (d ∷ s)

abbrev pub AllLines : List Str → Type 0
AllLines [] = Unit {0}
AllLines (l ∷ ls) = IsLine l × AllLines ls

-- the text with a newline behind each line
abbrev pub text_of : List Str → Str
text_of [] = []
text_of (l ∷ ls) = l ++ newline ∷ text_of ls

-- no byte is a newline
abbrev pub NoNewline : Str → Type 0
NoNewline [] = Unit {0}
NoNewline (c ∷ s) = (c == newline ≡ false) × NoNewline s

newlines-other :
    (last c : ℕ) (s : Str) → c == newline ≡ false → newlines last (c ∷ s) ≡ newlines c s
unfolding newlines
newlines-other last c s e = rw (e, newlines)

newlines-newline :
    (last : ℕ) (s : Str)
    → last == newline ≡ false
    → newlines last (newline ∷ s) ≡ suc (newlines newline s)
unfolding newlines
newlines-newline last s e = rw (e, newlines)

newlines-line :
    (last : ℕ) (l s : Str) → IsLine l → newlines last (l ++ newline ∷ s) ≡ suc (newlines newline s)
newlines-line last [] s h = absurd h
newlines-line last (c ∷ []) s h = newlines-other last c (newline ∷ s) h ∙ newlines-newline c s h
newlines-line last (c ∷ (d ∷ l)) s h =
    newlines-other last c (d ∷ (l ++ newline ∷ s)) h.0 ∙ newlines-line c (d ∷ l) s h.1

newlines-nil : (a : ℕ) → newlines a [] ≡ 0
unfolding newlines
newlines-nil a = refl

newlines-none : (last : ℕ) (s : Str) → NoNewline s → newlines last s ≡ 0
newlines-none last [] h = newlines-nil last
newlines-none last (c ∷ s) h = newlines-other last c s h.0 ∙ newlines-none c s h.1

newlines-text_of :
    (ls : List Str) (l : Str)
    → AllLines ls
    → NoNewline l
    → newlines newline (text_of ls ++ l) ≡ length ls
newlines-text_of [] l h n = newlines-none newline l n
newlines-text_of (k ∷ ls) l h n =
    ap (newlines newline) (append_assoc k (newline ∷ text_of ls) l)
    ∙ newlines-line newline k (text_of ls ++ l) h.0
    ∙ ap suc (newlines-text_of ls l h.1 n)

-- Of a text of lines that are not empty, each with its newline, and a last piece without a newline,
-- empty or not, the count is the number of the lines and one.
pub count_lines-text_of :
    (ls : List Str) (l : Str)
    → AllLines ls
    → NoNewline l
    → count_lines (text_of ls ++ l) ≡ length ls + 1
unfolding count_lines
count_lines-text_of ls l h n = rw (newlines-text_of ls l h n)

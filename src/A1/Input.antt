-- ===== src/A1/Input.antt =====
-- a1/shell.c: `parseInput`, which splits a line into words and calls the interpreter.
pub mod RoundTrip
use ecse_427_simple_shell_cr.Base.{
  ℕ, zero, suc, ◌+◌, Bool, true, false, not, ◌&&◌, ◌||◌, Option, none, some, List, [], ◌∷◌, ◌++◌,
  Str, codes, ◌==◌, ltb, leb, if◌then◌else◌, length, space, newline, semicolon, refl, ◌≡◌,
}

-- the buffer of a line, of a word, and the array of words
abbrev pub max_user_input : ℕ
max_user_input = 1000

abbrev pub max_word : ℕ
max_word = 200

abbrev pub max_words : ℕ
max_words = 100

-- `for (a = 0; ui[a] == ' ' && a < 1000; a++);`, with `a` and the text from there on
unfoldable pub skip_spaces : ℕ → Str → ℕ × Str
skip_spaces a [] = (a, [])
skip_spaces a (c ∷ s) = elim (c == space && ltb a max_user_input) [
  | true ↦ skip_spaces (a + 1) s
  | false ↦ (a, c ∷ s)
]

unfoldable pub ends_word : ℕ → Bool
ends_word c = c == semicolon || c == newline || c == space

-- The two loops of `parseInput`: `none` is the head of the outer one, `some tmp` is inside a word.
-- The end of the list is the closing zero. The buffers `tmp` and `words` are tested in `parse_input`, by
-- `fits`.
unfoldable pub split_words : ℕ → Option Str → Str → List Str
unfolding ends_word
split_words a none [] = []
split_words a (some tmp) [] = tmp ∷ []
split_words a none (c ∷ s) = elim (not (c == newline) && ltb a max_user_input) [
  | false ↦ []
  | true ↦ elim (ends_word c) [
    | true ↦ [] ∷ split_words (a + 1) none s
    | false ↦ split_words (a + 1) (some (c ∷ [])) s
  ]
]
split_words a (some tmp) (c ∷ s) = elim (not (ends_word c) && ltb a max_user_input) [
  | false ↦ tmp ∷ split_words (a + 1) none s
  | true ↦ split_words (a + 1) (some (tmp ++ c ∷ [])) s
]

unfoldable pub words_of : Str → List Str
words_of ui = let (a, s) = skip_spaces 0 ui in split_words a none s

unfoldable pub all_short : List Str → Bool
all_short [] = true
all_short (w ∷ ws) = ltb (length w) max_word && all_short ws

-- Each word with its zero fits `tmp`, and the words fit `words`.
unfoldable pub fits : List Str → Bool
unfolding all_short
fits ws = leb (length ws) max_words && all_short ws

-- `none` where the line overruns a buffer
unfoldable pub parse_input {ℓ} : {R : Type ℓ} → (List Str → R) → Str → Option R
parse_input interpreter ui = if fits (words_of ui) then some (interpreter (words_of ui)) else none

words_test :
    words_of (codes "  set x  1;echo $x\n")
    ≡ codes "set" ∷ codes "x" ∷ [] ∷ codes "1" ∷ codes "echo" ∷ codes "$x" ∷ []
unfolding words_of skip_spaces split_words
words_test = refl

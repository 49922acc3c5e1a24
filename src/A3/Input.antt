-- ===== src/A3/Input.antt =====
-- a3/shell.c: `parseInput`, which splits a line at the semicolons by `strtok`, and each piece at spaces.
pub mod Strtok
pub mod Pieces
use ecse_427_simple_shell_cr.Base.{
  ℕ, zero, suc, Bool, true, false, not, Option, none, some, List, [], ◌∷◌, ◌++◌, Str, codes, ltb,
  ◌==◌, if◌then◌else◌, length, space, semicolon, ℤ, pos, eq_ℤ, minus_one, refl, ◌≡◌,
}
use ecse_427_simple_shell_cr.A3.LinkedList.{ok, fault, no_fuel}
use ecse_427_simple_shell_cr.A3.State.{Kernel, Cmd, ◌>>=◌, ◌>>◌, pure}

-- the buffer of a piece, and the array of words
abbrev pub max_user_input : ℕ
max_user_input = 1000

abbrev pub max_words : ℕ
max_words = 100

-- `s + strspn(s, ";")`
unfoldable pub skip_semicolons : Str → Str
skip_semicolons [] = []
skip_semicolons (c ∷ s) = elim (c == semicolon) [ true ↦ skip_semicolons s | false ↦ c ∷ s ]

-- the text before the first semicolon, and the text behind it
unfoldable pub cut : Str → Str × Str
cut [] = ([], [])
cut (c ∷ s) = elim (c == semicolon) [
  | true ↦ ([], s)
  | false ↦ let (piece, rest) = cut s in (c ∷ piece, rest)
]

-- `strtok(s, ";")`: the piece, if there is one, and the text that the next call goes on from
unfoldable pub strtok : Str → Option Str × Str
strtok s = elim (skip_semicolons s) [
  | [] ↦ (none, [])
  | c ∷ t ↦ let (piece, rest) = cut (c ∷ t) in (some piece, rest)
]

-- `for (a = 0; token[a] == ' '; a++);`
unfoldable pub skip_spaces : Str → Str
skip_spaces [] = []
skip_spaces (c ∷ s) = elim (c == space) [ true ↦ skip_spaces s | false ↦ c ∷ s ]

-- The two loops over a piece: `none` is the head of the outer one, `some tmp` is inside a word. The end
-- of the list is the closing zero, which stands before the thousandth byte.
unfoldable pub split_words : Option Str → Str → List Str
split_words none [] = []
split_words (some tmp) [] = tmp ∷ []
split_words none (c ∷ s) = elim (c == space) [
  | true ↦ [] ∷ split_words none s
  | false ↦ split_words (some (c ∷ [])) s
]
split_words (some tmp) (c ∷ s) = elim (c == space) [
  | true ↦ tmp ∷ split_words none s
  | false ↦ split_words (some (tmp ++ c ∷ [])) s
]

unfoldable pub words_of : Str → List Str
words_of piece = split_words none (skip_spaces piece)

module _ {W : Type 0} where
  -- `strtok(ui, ";")`
  unfoldable pub strtok_start : Str → Cmd W (Option Str)
  strtok_start ui k = let (piece, rest) = strtok ui in ok (piece, record k { strtok_rest = rest })

  -- `strtok(NULL, ";")`
  unfoldable pub strtok_next : Cmd W (Option Str)
  strtok_next k = strtok_start k.strtok_rest k

module _ {W : Type 0} (interpreter : List Str → Cmd W ℤ) where
  -- One turn of the loop up to the call of `interpreter`: a piece or an array of words that is too long
  -- overruns a buffer.
  unfoldable pub run_piece : Str → Cmd W ℤ
  run_piece piece =
      if not (ltb (length piece) max_user_input)
      then (λ _. fault)
      else if ltb max_words (length (words_of piece))
      then (λ _. fault)
      else interpreter (words_of piece)

  -- The loop on fuel, a round for each piece; `ret` is what the last command returned.
  unfoldable pub parse_loop : ℕ → (ret : ℤ) → (tokens : Option Str) → Cmd W ℤ
  parse_loop zero ret tokens = λ _. no_fuel
  parse_loop (suc fuel) ret none = pure ret
  parse_loop (suc fuel) ret (some piece) = do
    code ← run_piece piece
    tokens ← strtok_next
    if eq_ℤ code minus_one then pure code else parse_loop fuel code tokens

  -- `parseInput`
  unfoldable pub parse_input : ℕ → Str → Cmd W ℤ
  parse_input fuel ui = do tokens ← strtok_start ui; parse_loop fuel (pos 0) tokens

words_test : words_of (codes "  set x  1\n") ≡ codes "set" ∷ codes "x" ∷ [] ∷ codes "1\n" ∷ []
unfolding words_of split_words skip_spaces
words_test = refl

-- ===== src/A2/Input.antt =====
-- a2/shell.c: `parseInput`, which gives each command of a line to the interpreter.
pub mod Hang
use ecse_427_simple_shell_cr.Base.{
  ℕ, zero, suc, ◌+◌, Bool, true, false, not, ◌&&◌, ◌||◌, Option, none, some, List, [], ◌∷◌, ◌++◌,
  Str, ltb, ◌==◌, if◌then◌else◌, length, set, space, newline, semicolon, strip_newline, ℤ, eq_ℤ,
  minus_one,
}
use ecse_427_simple_shell_cr.A2.State.{
  Kernel, Result, ok, fault, no_fuel, Cmd, and_then, ◌>>=◌, pure,
}

-- `for(; ui[a]==' ' && a<1000; a++);`: the index and the text from there on
unfoldable pub skip_spaces : ℕ → Str → ℕ × Str
skip_spaces a [] = (a, [])
skip_spaces a (c ∷ s) = elim (c == space && ltb a 1000) [
  | true ↦ skip_spaces (a + 1) s
  | false ↦ (a, c ∷ s)
]

-- `while(ui[a]==' ') a++;`
unfoldable pub skip_all_spaces : ℕ → Str → ℕ × Str
skip_all_spaces a [] = (a, [])
skip_all_spaces a (c ∷ s) = elim (c == space) [
  | true ↦ skip_all_spaces (a + 1) s
  | false ↦ (a, c ∷ s)
]

unfoldable pub ends_word : ℕ → Bool
ends_word c = c == semicolon || c == newline || c == space

-- A word, and the index and text where it stops.
pub record Word : Type 0 where
  pub text : Str
  pub stop : ℕ
  pub rest : Str

unfoldable pub read_word : ℕ → Str → Word
unfolding ends_word
read_word a [] = record { text = []; stop = a; rest = [] }
read_word a (c ∷ s) = elim (not (ends_word c) && ltb a 1000) [
  | false ↦ record { text = []; stop = a; rest = c ∷ s }
  | true ↦ let w = read_word (a + 1) s in record w { text = c ∷ w.text }
]

-- `words[w] = ...`: the words from an earlier command of the line stay behind the new ones.
unfoldable pub put_word : ℕ → Str → List Str → List Str
put_word w t words = if ltb w (length words) then set words w t else words ++ t ∷ []

-- What `interpreter` does to the first words of its array: the text behind a line's end is cut off.
unfoldable pub strip_words : ℕ → List Str → List Str
strip_words zero ws = ws
strip_words (suc n) [] = []
strip_words (suc n) (w ∷ ws) = strip_newline w ∷ strip_words n ws

-- the array after a call of `interpreter` with so many words
unfoldable pub after_command : ℕ → List Str → List Str
unfolding strip_words
after_command size ws = if ltb 7 size then ws else strip_words size ws

abbrev starts_with : ℕ → Str → Bool
starts_with d [] = false
starts_with d (c ∷ s) = c == d

abbrev behind : Str → Str
behind [] = []
behind (c ∷ s) = s

module _ {W : Type 0} (interpreter : List Str → ℕ → Cmd W ℤ) where
  -- The outer loop on fuel, a round for each turn of it: `a` and the text from there, the array `words`
  -- and `w`. A word of 200 bytes, or a word behind the hundredth, overruns a buffer.
  unfoldable pub parse_loop : ℕ → ℕ → Str → List Str → ℕ → Cmd W ℤ
  parse_loop zero a ui words w = λ _. no_fuel
  parse_loop (suc fuel) a [] words w = interpreter words w
  parse_loop (suc fuel) a (c ∷ s) words w =
      if c == newline || not (ltb a 1000)
      then interpreter words w
      else let (a1, ui1) = skip_all_spaces a (c ∷ s) in
        let word = read_word a1 ui1 in
        elim ui1 [
          | [] ↦ interpreter words w
          | _ ∷ _ ↦ elim (ltb (length word.text) 200) [
            | false ↦ (λ _. fault)
            | true ↦ elim (length word.text == 0) [
              | true ↦ parse_loop fuel word.stop word.rest words w
              | false ↦ elim (ltb w 100) [
                | false ↦ (λ _. fault)
                | true ↦
                    let words' = put_word w word.text words in
                    elim (starts_with semicolon word.rest) [
                      | true ↦ do
                        code ← interpreter words' (w + 1)
                        let (a2, ui2) = skip_spaces (word.stop + 1) (behind word.rest)
                        if eq_ℤ code minus_one
                            then pure code
                            else parse_loop fuel a2 ui2 (after_command (w + 1) words') 0
                      | false ↦ parse_loop fuel (word.stop + 1) (behind word.rest) words' (w + 1)
                    ]
              ]
            ]
          ]
        ]

  -- `parseInput`
  unfoldable pub parse_input : ℕ → Str → Cmd W ℤ
  unfolding skip_spaces skip_all_spaces read_word put_word after_command parse_loop
  parse_input fuel ui = let (a, s) = skip_spaces 0 ui in parse_loop fuel a s [] 0

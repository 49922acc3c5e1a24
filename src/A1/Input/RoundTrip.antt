-- ===== src/A1/Input/RoundTrip.antt =====
-- The splitter of a1/shell.c on words written with single spaces between them and a newline behind.
use ecse_427_simple_shell_cr.Base.{
  if◌then◌else◌, ap, ◌∙◌, some, none, true, ℕ, ◌+◌, ◌≤◌, ◌<◌, ◌≡◌, ◌≢◌, refl, Bool, false, not,
  ◌&&◌, List, [], ◌∷◌, ◌++◌, Str, ltb, ◌==◌, length, length-append, append_assoc, append-nil, space,
  newline, join_words, arith,
}
use ecse_427_simple_shell_cr.A1.Input.{
  parse_input, fits, max_user_input, ends_word, skip_spaces, split_words, words_of,
}

-- no byte of the text ends a word
unfoldable pub plain : Str → Bool
plain [] = true
plain (c ∷ s) = not (ends_word c) && plain s

abbrev pub AllTokens : List Str → Type 0
AllTokens [] = Unit {0}
AllTokens (w ∷ ws) = (w ≢ []) × (plain w ≡ true) × AllTokens ws

split_words-end :
    (a : ℕ) (tmp : Str) (c : ℕ) (s : Str)
    → ends_word c ≡ true
    → split_words a (some tmp) (c ∷ s) ≡ tmp ∷ split_words (a + 1) none s
unfolding split_words
split_words-end a tmp c s e = rw (e, split_words)

split_words-more :
    (a : ℕ) (tmp : Str) (c : ℕ) (s : Str)
    → ends_word c ≡ false
    → a < max_user_input
    → split_words a (some tmp) (c ∷ s) ≡ split_words (a + 1) (some (tmp ++ c ∷ [])) s
unfolding split_words
split_words-more a tmp c s e lt =
    let t : ltb a max_user_input ≡ true = ground arith in rw (e, t, split_words)

ends_word-newline : (c : ℕ) → ends_word c ≡ false → (c == newline) ≡ false
unfolding ends_word
ends_word-newline c e = ground arith

split_words-first :
    (a c : ℕ) (s : Str)
    → ends_word c ≡ false
    → a < max_user_input
    → split_words a none (c ∷ s) ≡ split_words (a + 1) (some (c ∷ [])) s
unfolding split_words
split_words-first a c s e lt =
    let t : ltb a max_user_input ≡ true = ground arith in
    rw (ends_word-newline c e, t, e, split_words)

plain-cons : (c : ℕ) (s : Str) → plain (c ∷ s) ≡ true → (ends_word c ≡ false) × (plain s ≡ true)
unfolding plain
plain-cons c s p = ground arith

split_words-word :
    (a : ℕ) (tmp w : Str) (c : ℕ) (s : Str)
    → plain w ≡ true
    → ends_word c ≡ true
    → a + length w ≤ max_user_input
    → split_words a (some tmp) (w ++ c ∷ s) ≡ (tmp ++ w) ∷ split_words (a + length w + 1) none s
split_words-word a tmp [] c s p e le =
    split_words-end a tmp c s e ∙ rw append-nil (ap (λ k. tmp ∷ split_words k none s) (omega arith))
split_words-word a tmp (d ∷ w) c s p e le =
    split_words-more a tmp d _ (plain-cons d w p).0 (omega arith)
    ∙ split_words-word (a + 1) (tmp ++ d ∷ []) w c s (plain-cons d w p).1 e (omega arith)
    ∙ rw append_assoc (ap (λ k. (tmp ++ d ∷ w) ∷ split_words k none s) (omega arith))

split_words-token :
    (a : ℕ) (w : Str) (c : ℕ) (s : Str)
    → w ≢ []
    → plain w ≡ true
    → ends_word c ≡ true
    → a + length w ≤ max_user_input
    → split_words a none (w ++ c ∷ s) ≡ w ∷ split_words (a + length w + 1) none s
split_words-token a [] c s n p e le = absurd (n refl)
split_words-token a (d ∷ w) c s n p e le =
    split_words-first a d _ (plain-cons d w p).0 (omega arith)
    ∙ split_words-word (a + 1) (d ∷ []) w c s (plain-cons d w p).1 e (omega arith)
    ∙ ap (λ k. (d ∷ w) ∷ split_words k none s) (omega arith)

split_words-newline : (a : ℕ) → split_words a none (newline ∷ []) ≡ []
unfolding split_words
split_words-newline a = refl

split_words-nil : (a : ℕ) → split_words a none [] ≡ []
unfolding split_words
split_words-nil a = refl

ends_word-newline_self : ends_word newline ≡ true
unfolding ends_word
ends_word-newline_self = refl

ends_word-space : ends_word space ≡ true
unfolding ends_word
ends_word-space = refl

split_words-tokens :
    (ws : List Str) (a : ℕ)
    → AllTokens ws
    → a + length (join_words ws) < max_user_input
    → split_words a none (join_words ws ++ newline ∷ []) ≡ ws
unfolding join_words
split_words-tokens [] a t lt = split_words-newline a
split_words-tokens (w ∷ []) a t lt =
    split_words-token a w newline [] t.0 t.1 ends_word-newline_self (omega arith)
    ∙ ap (◌∷◌ w) (split_words-nil _)
split_words-tokens (w ∷ (x ∷ ws)) a t lt =
    let total = length-append w (space ∷ join_words (x ∷ ws)) in
    ap (split_words a none) (append_assoc w _ _)
    ∙ split_words-token a w space _ t.0 t.1 ends_word-space (omega (arith, total))
    ∙ ap (◌∷◌ w) (split_words-tokens (x ∷ ws) (a + length w + 1) t.2 (omega (arith, total)))

skip_spaces-token : (w s : Str) → w ≢ [] → plain w ≡ true → skip_spaces 0 (w ++ s) ≡ (0, w ++ s)
unfolding skip_spaces plain ends_word
skip_spaces-token [] s n p = absurd (n refl)
skip_spaces-token (d ∷ w) s n p = ground arith

skip_spaces-newline : (s : Str) → skip_spaces 0 (newline ∷ s) ≡ (0, newline ∷ s)
unfolding skip_spaces
skip_spaces-newline s = refl

skip_spaces-join_words :
    (ws : List Str) (s : Str)
    → AllTokens ws
    → skip_spaces 0 (join_words ws ++ newline ∷ s) ≡ (0, join_words ws ++ newline ∷ s)
unfolding join_words
skip_spaces-join_words [] s t = skip_spaces-newline s
skip_spaces-join_words (w ∷ []) s t = skip_spaces-token w _ t.0 t.1
skip_spaces-join_words (w ∷ (x ∷ ws)) s t = rw append_assoc (skip_spaces-token w _ t.0 t.1)

words_of-join_words :
    (ws : List Str)
    → AllTokens ws
    → length (join_words ws) < max_user_input
    → words_of (join_words ws ++ newline ∷ []) ≡ ws
unfolding words_of
words_of-join_words ws t lt =
    rw (skip_spaces-join_words ws [] t, words_of) (split_words-tokens ws 0 t (omega arith))

-- Of at most a hundred words that are not empty, have less than 200 bytes and no space, semicolon or
-- newline, joined by single spaces to less than the buffer and closed by a newline, `parseInput` overruns
-- no buffer and gives just these words to the interpreter.
pub parse_input-join_words {ℓ} :
    {R : Type ℓ} (interpreter : List Str → R) (ws : List Str)
    → AllTokens ws
    → fits ws ≡ true
    → length (join_words ws) < max_user_input
    → parse_input interpreter (join_words ws ++ newline ∷ []) ≡ some (interpreter ws)
unfolding parse_input
parse_input-join_words interpreter ws t f lt =
    ap (λ l. if fits l then some (interpreter l) else none) (words_of-join_words ws t lt)
    ∙ ap (λ b. if b then some (interpreter ws) else none) f

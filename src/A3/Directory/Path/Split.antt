-- ===== src/A3/Directory/Path/Split.antt =====
-- What `split_path_filename` gives for a path that is made of names, and how long its two results are.
use ecse_427_simple_shell_cr.Base.{
  ℕ, ◌+◌, ◌≤◌, ◌≡◌, refl, ap, ◌∙◌, Bool, true, false, Option, none, some, List, [], ◌∷◌, ◌++◌, Str,
  ◌==◌, length, length-append, append-nil, append_assoc, arith, inl, inr, Bool-cases,
}
use ecse_427_simple_shell_cr.A3.Directory.Path.{
  slash, tokens_from, tokens, split_loop, root_prefix, split_path_filename,
}

abbrev pub NoSlash : Str → Type 0
NoSlash [] = Unit {0}
NoSlash (c ∷ s) = ((c == slash) ≡ false) × NoSlash s

-- a name in a path
abbrev pub IsName : Str → Type 0
IsName [] = ⊥
IsName (c ∷ s) = NoSlash (c ∷ s)

abbrev pub AllNames : List Str → Type 0
AllNames [] = Unit {0}
AllNames (n ∷ ns) = IsName n × AllNames ns

-- each name with a slash behind it
abbrev pub join : List Str → Str
join [] = []
join (n ∷ ns) = n ++ (slash ∷ join ns)

tokens_from-word :
    (c : ℕ) (s : Str)
    → (c == slash) ≡ false
    → tokens_from none (c ∷ s) ≡ tokens_from (some (c ∷ [])) s
unfolding tokens_from
tokens_from-word c s h = rw (h, tokens_from)

tokens_from-skip :
    (c : ℕ) (s : Str) → (c == slash) ≡ true → tokens_from none (c ∷ s) ≡ tokens_from none s
unfolding tokens_from
tokens_from-skip c s h = rw (h, tokens_from)

tokens_from-slash :
    (word w s : Str)
    → NoSlash w
    → tokens_from (some word) (w ++ (slash ∷ s)) ≡ (word ++ w) ∷ tokens_from none s
unfolding tokens_from
tokens_from-slash word [] s h = rw (append-nil word)
tokens_from-slash word (c ∷ w) s h =
    rw (h.0, tokens_from, tokens_from-slash (word ++ c ∷ []) w s h.1, append_assoc word (c ∷ []) w)

tokens_from-last : (word w : Str) → NoSlash w → tokens_from (some word) w ≡ (word ++ w) ∷ []
unfolding tokens_from
tokens_from-last word [] h = rw (append-nil word)
tokens_from-last word (c ∷ w) h =
    rw (h.0, tokens_from, tokens_from-last (word ++ c ∷ []) w h.1, append_assoc word (c ∷ []) w)

tokens_from-join :
    (ns : List Str) (name : Str)
    → AllNames ns
    → IsName name
    → tokens_from none (join ns ++ name) ≡ ns ++ name ∷ []
unfolding tokens_from
tokens_from-join [] [] hs h = absurd h
tokens_from-join [] (c ∷ s) hs h = rw (h.0, tokens_from, tokens_from-last (c ∷ []) s h.1)
tokens_from-join ([] ∷ ns) name hs h = absurd hs.0
tokens_from-join ((c ∷ s) ∷ ns) name hs h =
    ap (tokens_from none) (append_assoc (c ∷ s) (slash ∷ join ns) name)
    ∙ tokens_from-word c (s ++ (slash ∷ (join ns ++ name))) hs.0.0
    ∙ tokens_from-slash (c ∷ []) s (join ns ++ name) hs.0.1
    ∙ ap (◌∷◌ (c ∷ s)) (tokens_from-join ns name hs.1 h)

regroup : (d w rest : Str) → (d ++ w ++ slash ∷ []) ++ rest ≡ d ++ (w ++ (slash ∷ rest))
regroup d w rest = append_assoc (d ++ w) (slash ∷ []) rest ∙ append_assoc d w (slash ∷ rest)

split_loop-join :
    (directory last : Str) (ns : List Str) (name : Str)
    → IsName last
    → AllNames ns
    → split_loop directory last (ns ++ name ∷ []) ≡ (directory ++ join (last ∷ ns), name)
unfolding split_loop
split_loop-join directory [] ns name h hs = absurd h
split_loop-join directory (c ∷ t) [] name h hs = rw (append_assoc directory (c ∷ t) (slash ∷ []))
split_loop-join directory (c ∷ t) (n ∷ ns) name h hs =
    split_loop-join (directory ++ (c ∷ t) ++ slash ∷ []) n ns name hs.0 hs.1
    ∙ ap (λ x. (x, name)) (regroup directory (c ∷ t) (join (n ∷ ns)))

-- the beginning of a path from the root
abbrev pub from_root : Bool → Str
from_root true = slash ∷ []
from_root false = []

root_prefix-join :
    (ns : List Str) (name : Str) → AllNames ns → IsName name → root_prefix (join ns ++ name) ≡ []
unfolding root_prefix
root_prefix-join [] [] hs h = absurd h
root_prefix-join [] (c ∷ s) hs h = rw (h.0)
root_prefix-join ([] ∷ ns) name hs h = absurd hs.0
root_prefix-join ((c ∷ s) ∷ ns) name hs h = rw (hs.0.0)

-- A path of names with a slash between any two, and a slash in front or none, is split in front of
-- its last name.
pub split_path_filename-join :
    (absolute : Bool) (ns : List Str) (name : Str)
    → AllNames ns
    → IsName name
    → split_path_filename (from_root absolute ++ (join ns ++ name))
      ≡ (from_root absolute ++ join ns, name)
unfolding split_path_filename tokens tokens_from split_loop root_prefix
split_path_filename-join true [] name hs h = rw (tokens_from-join [] name hs h)
split_path_filename-join true (n ∷ ns) name hs h =
    rw (tokens_from-join (n ∷ ns) name hs h) (split_loop-join (slash ∷ []) n ns name hs.0 hs.1)
split_path_filename-join false [] name hs h =
    rw (root_prefix-join [] name hs h, tokens_from-join [] name hs h)
split_path_filename-join false (n ∷ ns) name hs h =
    rw (root_prefix-join (n ∷ ns) name hs h, tokens_from-join (n ∷ ns) name hs h)
      (split_loop-join [] n ns name hs.0 hs.1)

-- the room that tokens take with a byte behind each
weight : List Str → ℕ
weight [] = 0
weight (t ∷ ts) = length t + 1 + weight ts

word_weight : Option Str → ℕ
word_weight none = 0
word_weight (some w) = length w

no_word : word_weight none ≡ 0
unfolding word_weight
no_word = refl

tokens_from-weight :
    (word : Option Str) (s : Str) → weight (tokens_from word s) ≤ word_weight word + length s + 1
unfolding tokens_from weight word_weight
tokens_from-weight none [] = omega arith
tokens_from-weight (some w) [] = omega arith
tokens_from-weight none (c ∷ s) = elim (Bool-cases (c == slash)) [
  | inl t ↦ let rest = tokens_from-weight none s in rw (t, tokens_from) (ground arith)
  | inr f ↦ let rest = tokens_from-weight (some (c ∷ [])) s in rw (f, tokens_from) (ground arith)
]
tokens_from-weight (some w) (c ∷ s) = elim (Bool-cases (c == slash)) [
  | inl t ↦ let rest = tokens_from-weight none s in rw (t, tokens_from) (ground arith)
  | inr f ↦
      let rest = tokens_from-weight (some (w ++ c ∷ [])) s in
      let longer = length-append w (c ∷ []) in rw (f, tokens_from) (ground arith)
]

split_loop-weight :
    (directory last : Str) (ts : List Str)
    → length (split_loop directory last ts).0 + length (split_loop directory last ts).1 + 1
      ≤ length directory + weight (last ∷ ts)
unfolding split_loop weight
split_loop-weight directory last [] = omega arith
split_loop-weight directory [] (t ∷ ts) =
    let rest = split_loop-weight directory t ts in ground arith
split_loop-weight directory (c ∷ w) (t ∷ ts) =
    let rest = split_loop-weight (directory ++ (c ∷ w) ++ slash ∷ []) t ts in
    let longer = length-append (directory ++ (c ∷ w)) (slash ∷ []) in
    let long = length-append directory (c ∷ w) in ground arith

split_tokens-weight :
    (directory : Str) (ts : List Str) (n : ℕ)
    → weight ts + length directory ≤ n + 1
    → length directory ≤ n
    → length (split_loop directory [] ts).0 + length (split_loop directory [] ts).1 ≤ n
unfolding split_loop weight
split_tokens-weight directory [] n le d = omega arith
split_tokens-weight directory (t ∷ ts) n le d =
    let rest = split_loop-weight directory t ts in ground arith

root_weight : (path : Str) → weight (tokens path) + length (root_prefix path) ≤ length path + 1
unfolding root_prefix tokens
root_weight [] =
    let rest = tokens_from-weight none [] in
    let none_yet : word_weight none ≡ 0 = no_word in omega arith
root_weight (c ∷ s) = elim (Bool-cases (c == slash)) [
  | inl t ↦
      let rest = tokens_from-weight none s in
      let none_yet : word_weight none ≡ 0 = no_word in rw (t, tokens_from-skip c s t) (omega arith)
  | inr f ↦
      let rest = tokens_from-weight none (c ∷ s) in
      let none_yet : word_weight none ≡ 0 = no_word in rw f (omega arith)
]

root_prefix_short : (path : Str) → length (root_prefix path) ≤ length path
unfolding root_prefix
root_prefix_short [] = omega arith
root_prefix_short (c ∷ s) = ground arith

-- Of any path, the directory and the file name together are not longer than the path, so that a
-- buffer of one byte more than the path has holds either of them with its closing zero.
pub split_path_filename-length :
    (path : Str)
    → length (split_path_filename path).0 + length (split_path_filename path).1 ≤ length path
unfolding split_path_filename
split_path_filename-length path =
    split_tokens-weight (root_prefix path) (tokens path) (length path) (root_weight path)
      (root_prefix_short path)

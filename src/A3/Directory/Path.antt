-- ===== src/A3/Directory/Path.antt =====
-- `split_path_filename` of a3/fs/directory.c.
pub mod Split
use ecse_427_simple_shell_cr.Base.{
  ℕ, zero, suc, Bool, true, false, Option, none, some, List, [], ◌∷◌, ◌++◌, Str, ◌==◌,
  if◌then◌else◌,
}

abbrev pub slash : ℕ
slash = 47

-- The characters that `strtok_r(s, "/", &p)` skips, and the tokens in their order: `word` is the token that
-- the text goes on with, if it is inside one.
unfoldable pub tokens_from : Option Str → Str → List Str
tokens_from none [] = []
tokens_from (some word) [] = word ∷ []
tokens_from none (c ∷ s) = elim (c == slash) [
  | true ↦ tokens_from none s
  | false ↦ tokens_from (some (c ∷ [])) s
]
tokens_from (some word) (c ∷ s) = elim (c == slash) [
  | true ↦ word ∷ tokens_from none s
  | false ↦ tokens_from (some (word ++ c ∷ [])) s
]

-- all tokens of a path
unfoldable pub tokens : Str → List Str
tokens path = tokens_from none path

-- The loop: `directory` so far, and `last_token`, which goes to the directory when another token follows.
unfoldable pub split_loop : (directory last_token : Str) → List Str → Str × Str
split_loop directory last_token [] = (directory, last_token)
split_loop directory last_token (token ∷ rest) = elim last_token [
  | [] ↦ split_loop directory token rest
  | c ∷ t ↦ split_loop (directory ++ (c ∷ t) ++ slash ∷ []) token rest
]

unfoldable pub root_prefix : Str → Str
root_prefix [] = []
root_prefix (c ∷ s) = if c == slash then slash ∷ [] else []

-- `split_path_filename`: the directory and the file name
unfoldable pub split_path_filename : Str → Str × Str
split_path_filename path = split_loop (root_prefix path) [] (tokens path)

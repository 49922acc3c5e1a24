-- ===== src/A3/FsUtil/Tests.antt =====
-- Runs of the functions of fsutil2.c.
use ecse_427_simple_shell_cr.Base.{ℕ, ◌≡◌, refl, true, some, [], ◌∷◌, Str, take, arith}
use ecse_427_simple_shell_cr.A3.FsUtil.{distance, is_file_fragmented, remove_nulls}
use ecse_427_simple_shell_cr.A3.FsUtil.Nulls.{nonzero, remove_nulls-nonzero}

far_apart : is_file_fragmented (7 ∷ 8 ∷ 2 ∷ []) ≡ true
unfolding is_file_fragmented distance
far_apart = refl

-- a buffer with zeros behind both of its letters
remove_nulls-nonzero_example :
    (s' : Str) × (len' : ℕ) × (remove_nulls (97 ∷ 0 ∷ 98 ∷ 0 ∷ []) 4 ≡ some (s', len'))
    × (take len' s' ≡ 97 ∷ 98 ∷ [])
unfolding nonzero
remove_nulls-nonzero_example = remove_nulls-nonzero (97 ∷ 0 ∷ 98 ∷ 0 ∷ []) 4 (omega arith)

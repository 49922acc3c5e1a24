-- ===== src/A3/FsUtil.antt =====
-- a3/fs/fsutil2.c: copying between the two file systems, fragmentation, and the cleaning of a recovered
-- sector, over the operations of the file system.
pub mod Nulls
mod Tests
use ecse_427_simple_shell_cr.Base.{
  ℕ, zero, suc, ◌+◌, ◌-◌, ◌<◌, Bool, true, false, ◌&&◌, ◌||◌, Option, none, some, List, [], ◌∷◌,
  ◌++◌, Str, codes, decimal, ltb, leb, ◌==◌, if◌then◌else◌, length, take, drop, c_string, ℤ, pos,
  minus_one, Os,
}
use mathlib.Core.Option
use ecse_427_simple_shell_cr.A3.LinkedList.{ok, fault}
use ecse_427_simple_shell_cr.A3.State.{Cmd, ◌>>=◌, ◌>>◌, pure, printf, gets, line}
use ecse_427_simple_shell_cr.A3.FileSystem.{FileSystem, fs_call}

-- `abs(b - a)` of two sectors
unfoldable pub distance : ℕ → ℕ → ℕ
distance a b = (a - b) + (b - a)

-- `is_file_fragmented` of a list of sectors that is not empty
unfoldable pub is_file_fragmented : List ℕ → Bool
unfolding distance
is_file_fragmented [] = false
is_file_fragmented (a ∷ []) = false
is_file_fragmented (a ∷ b ∷ sectors) = leb 6 (distance a b) || is_file_fragmented (b ∷ sectors)

module _ {W : Type 0} (os : Os W) (fs : FileSystem W) where
  -- the warning of `copy_in`
  unfoldable pub partial_warning : (written size : ℕ) → Str
  partial_warning written size =
      codes "Warning: could only write "
      ++ decimal written
      ++ codes " out of "
      ++ decimal size
      ++ codes " bytes (reached end of file)"

  -- `copy_in`: the free space is a number of sectors, the size one of bytes. For a file that is not
  -- there, the size is read from a `struct stat` that was never set.
  unfoldable pub copy_in : Str → Cmd W ℤ
  unfolding partial_warning
  copy_in name k = elim (os.read_file name k.world) [
    | none ↦ fault
    | some content ↦
        (do
          let size = length content
          let buffer = content ++ 0 ∷ []
          shell_space ← fs_call fs.freespace
          if shell_space == 0
              then (do printf (line (codes "No space left on the shell hard drive")); pure (pos 1))
              else if ltb shell_space (size + 1)
              then (do
                fs_call (fs.create name (pos shell_space))
                fs_call (fs.write name (take shell_space buffer))
                printf (partial_warning shell_space size)
                pure (pos 0))
              else (do
                fs_call (fs.create name (pos (size + 1)))
                fs_call (fs.write name buffer)
                pure (pos 0)))
          k
  ]

  -- The end of `copy_out`: the text up to the first zero goes to the file.
  unfoldable pub save_text : Str → Str → Cmd W ℤ
  save_text name text k = elim (os.write_file name text k.world) [
    | none ↦ ok (pos 0, k)
    | some w ↦ ok (pos 0, record k { world = w })
  ]

  -- `copy_out`: a file that is not there has the size -1, and the text comes from a buffer of no bytes.
  unfoldable pub copy_out : Str → Cmd W ℤ
  unfolding save_text
  copy_out name = do
    found ← fs_call (fs.size name)
    elim found [
      | none ↦ (λ _. fault)
      | some size ↦ (do
        bytes ← fs_call (fs.read name (pos size))
        elim bytes [ none ↦ save_text name [] | some s ↦ save_text name (c_string s) ])
    ]

-- `memchr(buf, '\0', len)`, as an index
unfoldable pub find_null : ℕ → Str → Option ℕ
find_null zero s = none
find_null (suc n) [] = none
find_null (suc n) (c ∷ s) = if c == 0 then some 0 else Option.map suc (find_null n s)

-- `memmove(null_pos, null_pos + 1, shift_len)`
unfoldable pub shift_out : (null_pos shift_len : ℕ) → Str → Str
shift_out null_pos shift_len buf =
    take null_pos buf
    ++ (take shift_len (drop (null_pos + 1) buf) ++ drop (null_pos + shift_len) buf)

-- The loop of `remove_nulls` on fuel: the buffer and `*len`. A round removes a byte, so that a round more
-- than there are bytes is enough.
unfoldable pub remove_loop : ℕ → Str → ℕ → Option (Str × ℕ)
unfolding shift_out
remove_loop zero buf len = none
remove_loop (suc fuel) buf len = elim (find_null len buf) [
  | none ↦ some (buf, len)
  | some p ↦ remove_loop fuel (shift_out p (len - p - 1) buf) (len - 1)
]

-- `remove_nulls`
unfoldable pub remove_nulls : Str → ℕ → Option (Str × ℕ)
unfolding remove_loop
remove_nulls buf len = remove_loop (len + 1) buf len

-- `remove_first_n_chars` of a number that is not negative
unfoldable pub remove_first_n_chars : Str → ℕ → Str
remove_first_n_chars s n = drop n s

-- ===== src/A3/Files.antt =====
-- a3/fs/file.c: the table of open files, and a file with its position, over the calls of inode.c.
pub mod Overwrites
pub mod Position
pub mod Table
mod Tests
use ecse_427_simple_shell_cr.Base.{
  ℕ, zero, suc, ◌+◌, ◌-◌, Bool, true, false, Option, none, some, List, [], ◌∷◌, ◌++◌, Str, str_eq,
  ltb, ◌==◌, if◌then◌else◌, length, take, ℤ, pos, negsuc,
}
use ecse_427_simple_shell_cr.A3.InodeStore.{Call, ◌>>=◌, ◌>>◌, pure, panic, InodeStore}
use ecse_427_simple_shell_cr.A3.FsState.{
  File, FileTableEntry, Fs, on_inodes, new_file, get_file, put_file, get_table, set_table,
}

-- the search of `get_file_by_fname`
unfoldable pub find_file_by_fname : Str → List FileTableEntry → Option ℕ
find_file_by_fname fname [] = none
find_file_by_fname fname (e ∷ es) =
    if str_eq e.fname fname then some e.f else find_file_by_fname fname es

-- The loop of `remove_from_file_table`: the file of the first entry with the name, and the other entries.
unfoldable pub take_from_table : Str → List FileTableEntry → Option (ℕ × List FileTableEntry)
take_from_table fname [] = none
take_from_table fname (e ∷ es) = elim (str_eq e.fname fname) [
  | true ↦ some (e.f, es)
  | false ↦ elim (take_from_table fname es) [ none ↦ none | some r ↦ some (r.0, e ∷ r.1) ]
]

-- `file->pos` as an offset: with a position below 0 the code works out an address outside its sector.
abbrev pub at_pos : {S A : Type 0} → ℤ → (ℕ → Call S A) → Call S A
at_pos (pos n) f = f n
at_pos (negsuc n) f = panic

-- `file->pos += bytes_written - 2`
unfoldable pub pos_after_write : ℕ → ℕ → ℤ
pos_after_write p written =
    if ltb (p + written) 2 then negsuc (1 - (p + written)) else pos (p + written - 2)

module _ {S : Type 0} (store : InodeStore S) where
  -- `get_file_by_fname`
  unfoldable pub get_file_by_fname : Str → Call (Fs S) (Option ℕ)
  unfolding find_file_by_fname
  get_file_by_fname fname = do table ← get_table; pure (find_file_by_fname fname table)

  -- `add_to_file_table`
  unfoldable pub add_to_file_table : (file : ℕ) → Str → Call (Fs S) (Unit {0})
  unfolding get_file_by_fname
  add_to_file_table file fname = do
    found ← get_file_by_fname fname
    table ← get_table
    elim found [
      | some f ↦ pure tt
      | none ↦ set_table (table ++ record { fname = fname; f = file } ∷ [])
    ]

  -- `file_open` of an inode
  unfoldable pub file_open : ℕ → Call (Fs S) ℕ
  file_open inode = new_file (record { inode = inode; pos = pos 0; deny_write = false })

  -- `file_reopen`
  unfoldable pub file_reopen : ℕ → Call (Fs S) ℕ
  unfolding file_open
  file_reopen file = do f ← get_file file; file_open f.inode

  -- `file_deny_write` and `file_allow_write`
  unfoldable pub file_deny_write : ℕ → Call (Fs S) (Unit {0})
  file_deny_write file = do
    f ← get_file file
    if f.deny_write then pure tt else (do
      put_file file (some (record f { deny_write = true }))
      on_inodes (store.inode_deny_write f.inode))

  unfoldable pub file_allow_write : ℕ → Call (Fs S) (Unit {0})
  file_allow_write file = do
    f ← get_file file
    if f.deny_write
        then (do
          put_file file (some (record f { deny_write = false }))
          on_inodes (store.inode_allow_write f.inode))
        else pure tt

  -- `file_close`
  unfoldable pub file_close : ℕ → Call (Fs S) (Unit {0})
  unfolding file_allow_write
  file_close file = do
    file_allow_write file
    f ← get_file file
    on_inodes (store.inode_close f.inode)
    put_file file none

  -- `remove_from_file_table`
  unfoldable pub remove_from_file_table : Str → Call (Fs S) Bool
  unfolding take_from_table file_close
  remove_from_file_table fname = do
    table ← get_table
    elim (take_from_table fname table) [
      | none ↦ pure false
      | some r ↦ (do file_close r.0; set_table r.1; pure true)
    ]

  -- The loop of `free_file_table`: each entry is popped, and its file closed.
  unfoldable pub close_entries : List FileTableEntry → Call (Fs S) (Unit {0})
  unfolding file_close
  close_entries [] = pure tt
  close_entries (e ∷ es) = do set_table es; file_close e.f; close_entries es

  unfoldable pub free_file_table : Call (Fs S) (Unit {0})
  unfolding close_entries
  free_file_table = do table ← get_table; close_entries table

  -- `file_read`: the bytes that were read
  unfoldable pub file_read : (file : ℕ) (size : ℤ) → Call (Fs S) (List ℕ)
  file_read file size = do
    f ← get_file file
    at_pos f.pos λ p. (do
      bytes ← on_inodes (store.inode_read_at f.inode size p)
      put_file file (some (record f { pos = pos (p + length bytes) }))
      pure bytes)

  -- `file_read_at`
  unfoldable pub file_read_at : (file : ℕ) (size : ℤ) (file_ofs : ℕ) → Call (Fs S) (List ℕ)
  file_read_at file size file_ofs = do
    f ← get_file file
    on_inodes (store.inode_read_at f.inode size file_ofs)

  -- `file_write` of the first `size` bytes of a buffer, the last of which is set to 0: how many are written.
  -- With no byte, the zero is put in front of the buffer.
  unfoldable pub file_write : (file : ℕ) (buffer : List ℕ) (size : ℕ) → Call (Fs S) ℕ
  unfolding pos_after_write
  file_write file buffer zero = panic
  file_write file buffer (suc size) = do
    f ← get_file file
    at_pos f.pos λ p. (do
      written ← on_inodes (store.inode_write_at f.inode (take size buffer ++ 0 ∷ []) p)
      put_file file (some (record f { pos = pos_after_write p written }))
      pure written)

  -- `file_write_at`
  unfoldable pub file_write_at : (file : ℕ) (buffer : List ℕ) (size file_ofs : ℕ) → Call (Fs S) ℕ
  file_write_at file buffer size file_ofs = do
    f ← get_file file
    on_inodes (store.inode_write_at f.inode (take size buffer) file_ofs)

  -- `file_length`
  unfoldable pub file_length : (file : ℕ) → Call (Fs S) ℕ
  file_length file = do f ← get_file file; on_inodes (store.inode_length f.inode)

  -- `file_seek`, which asserts that the position is not negative
  unfoldable pub file_seek : (file : ℕ) → ℤ → Call (Fs S) (Unit {0})
  file_seek file new_pos = do
    f ← get_file file
    at_pos new_pos λ n. put_file file (some (record f { pos = pos n }))

  -- `file_tell`
  unfoldable pub file_tell : (file : ℕ) → Call (Fs S) ℤ
  file_tell file = do f ← get_file file; pure f.pos

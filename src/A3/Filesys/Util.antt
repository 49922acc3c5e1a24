-- ===== src/A3/Filesys/Util.antt =====
-- a3/fs/fsutil.c: what the shell's commands do with files, by name.
use ecse_427_simple_shell_cr.Base.{
  ℕ, zero, suc, Bool, true, false, ◌||◌, Option, none, some, List, ◌++◌, Str, codes, leb, ◌==◌,
  if◌then◌else◌, length, c_string, ℤ, pos, decimal, negsuc,
}
use ecse_427_simple_shell_cr.A3.InodeStore.{Call, ◌>>=◌, ◌>>◌, pure, InodeStore}
use ecse_427_simple_shell_cr.A3.FsState.{Fs, on_inodes, printf}
use ecse_427_simple_shell_cr.A3.Directory.Open.{dir_open_root, dir_close, dir_readdir}
use ecse_427_simple_shell_cr.A3.Files.{
  get_file_by_fname, add_to_file_table, remove_from_file_table, file_read, file_write, file_length,
  file_seek, file_tell, at_pos,
}
use ecse_427_simple_shell_cr.A3.Filesys.{filesys_create, filesys_open, filesys_remove}

module _ {S : Type 0} (store : InodeStore S) where
  -- `while (dir_readdir(dir, name)) printf("%s\n", name);` on fuel
  unfoldable pub list_names : (fuel dir : ℕ) → Call (Fs S) (Unit {0})
  unfolding dir_readdir
  list_names zero dir = λ _. none
  list_names (suc fuel) dir = do
    name ← dir_readdir store dir
    elim name [ none ↦ pure tt | some bytes ↦ (do printf (c_string bytes); list_names fuel dir) ]

  -- `fsutil_ls`
  unfoldable pub fsutil_ls : (fuel : ℕ) → Call (Fs S) ℤ
  unfolding dir_open_root list_names dir_close
  fsutil_ls fuel = do
    printf (codes "Files in the root directory:")
    dir ← dir_open_root store
    list_names fuel dir
    dir_close store dir
    printf (codes "End of listing.")
    pure (pos 0)

  -- The beginning of most of these functions: the file in the table, or else opened and put into the table,
  -- and whether it was opened
  unfoldable pub opened_file : Str → Call (Fs S) (Option (ℕ × Bool))
  unfolding get_file_by_fname filesys_open add_to_file_table
  opened_file file_name = do
    found ← get_file_by_fname store file_name
    elim found [
      | some file ↦ pure (some (file, false))
      | none ↦ (do
        file ← filesys_open store file_name
        elim file [
          | none ↦ pure none
          | some f ↦ (do add_to_file_table store f file_name; pure (some (f, true)))
        ])
    ]

  -- The loop of `fsutil_cat` on fuel. `hex_dump` of debug.c prints some lines for the bytes at a position.
  unfoldable pub cat_loop :
      (hex_dump : ℕ → List ℕ → Str) (fuel file file_size : ℕ) → Call (Fs S) (Unit {0})
  unfolding file_tell file_read
  cat_loop hex_dump zero file file_size = λ _. none
  cat_loop hex_dump (suc fuel) file file_size = do
    p ← file_tell store file
    bytes ← file_read store file (pos file_size)
    if length bytes == 0
        then pure tt
        else at_pos p λ n. (do printf (hex_dump n bytes); cat_loop hex_dump fuel file file_size)

  -- `fsutil_cat`: the first round reads the whole file, so that the second is the last.
  unfoldable pub fsutil_cat : (hex_dump : ℕ → List ℕ → Str) → Str → Call (Fs S) ℤ
  unfolding opened_file file_seek file_tell file_length cat_loop remove_from_file_table
  fsutil_cat hex_dump file_name = do
    printf (codes "Printing <" ++ file_name ++ codes "> to the console...")
    found ← opened_file file_name
    elim found [
      | none ↦ (do printf (codes "Error"); pure (negsuc 0))
      | some r ↦ (do
        cur_offset ← file_tell store r.0
        file_seek store r.0 (pos 0)
        file_size ← file_length store r.0
        cat_loop hex_dump 2 r.0 file_size
        file_seek store r.0 cur_offset
        (if r.1 then (do remove_from_file_table store file_name; pure tt) else pure tt)
        printf (codes "Done printing")
        pure (pos 0))
    ]

  -- `fsutil_rm`
  unfoldable pub fsutil_rm : Str → Call (Fs S) Bool
  unfolding remove_from_file_table filesys_remove
  fsutil_rm file_name = do remove_from_file_table store file_name; filesys_remove store file_name

  -- `fsutil_create`
  unfoldable pub fsutil_create : (unset : Str) → Str → (isize : ℕ) → Call (Fs S) Bool
  unfolding filesys_create
  fsutil_create unset fname isize =
      if (length fname == 0) || leb 255 (length fname)
      then (do printf (codes "Error with filename: " ++ decimal (length fname)); pure false)
      else filesys_create store unset fname isize false

  -- `fsutil_write`, `fsutil_read`, `fsutil_size` and `fsutil_seek`: `none` is -1
  unfoldable pub fsutil_write : Str → (buffer : List ℕ) (size : ℕ) → Call (Fs S) (Option ℕ)
  unfolding opened_file file_write
  fsutil_write file_name buffer size = do
    found ← opened_file file_name
    elim found [
      | none ↦ pure none
      | some r ↦ (do written ← file_write store r.0 buffer size; pure (some written))
    ]

  unfoldable pub fsutil_read : Str → (size : ℤ) → Call (Fs S) (Option (List ℕ))
  unfolding opened_file file_read
  fsutil_read file_name size = do
    found ← opened_file file_name
    elim found [
      | none ↦ pure none
      | some r ↦ (do bytes ← file_read store r.0 size; pure (some bytes))
    ]

  unfoldable pub fsutil_size : Str → Call (Fs S) (Option ℕ)
  unfolding opened_file file_length file_seek file_tell
  fsutil_size file_name = do
    found ← opened_file file_name
    elim found [
      | none ↦ pure none
      | some r ↦ (do
        cur_offset ← file_tell store r.0
        length ← file_length store r.0
        file_seek store r.0 cur_offset
        pure (some length))
    ]

  unfoldable pub fsutil_seek : Str → (offset : ℤ) → Call (Fs S) Bool
  unfolding opened_file file_seek
  fsutil_seek file_name offset = do
    found ← opened_file file_name
    elim found [ none ↦ pure false | some r ↦ (do file_seek store r.0 offset; pure true) ]

  -- `fsutil_close`
  unfoldable pub fsutil_close : Str → Call (Fs S) (Unit {0})
  unfolding remove_from_file_table
  fsutil_close file_name = do remove_from_file_table store file_name; pure tt

  -- `fsutil_freespace`
  unfoldable pub fsutil_freespace : Call (Fs S) ℕ
  fsutil_freespace = on_inodes store.num_free_sectors

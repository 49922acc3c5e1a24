-- ===== src/A3/Filesys.antt =====
-- a3/fs/filesys.c: creating, opening and removing a file by its path, and changing the directory. The arrays
-- that `filesys_create` and `filesys_remove` split a path into have one byte less than a path of one name
-- needs; the model takes that byte for a free one.
pub mod Util
pub mod Cwd
pub mod Chdir
pub mod Listed
pub mod Listing
pub mod Cat
mod Tests
use ecse_427_simple_shell_cr.Base.{
  ℕ, Bool, true, false, not, ◌&&◌, Option, none, some, List, [], ◌∷◌, Str, ◌==◌, if◌then◌else◌,
}
use ecse_427_simple_shell_cr.A3.InodeStore.{Call, ◌>>=◌, ◌>>◌, pure, InodeStore}
use ecse_427_simple_shell_cr.A3.FsState.{Fs, on_inodes, get_cwd, set_cwd, get_dir}
use ecse_427_simple_shell_cr.A3.Directory.{dir_lookup}
use ecse_427_simple_shell_cr.A3.Directory.Path.{split_path_filename}
use ecse_427_simple_shell_cr.A3.Directory.Open.{dir_open_root, dir_open_path, dir_close}
use ecse_427_simple_shell_cr.A3.Directory.Update.{dir_add, dir_remove}
use ecse_427_simple_shell_cr.A3.Files.{file_open}

module _ {S : Type 0} (store : InodeStore S) where
  -- The part of `filesys_create` under `if (free_map_allocate(1, &inode_sector))`
  unfoldable pub create_in :
      (unset : Str) (dir : ℕ)
      → Str
      → (initial_size inode_sector : ℕ) (is_dir : Bool) → Call (Fs S) Bool
  unfolding dir_add
  create_in unset dir file_name initial_size inode_sector is_dir = do
    created ← on_inodes (store.inode_create inode_sector initial_size is_dir)
    if created then dir_add store unset dir file_name inode_sector is_dir else pure false

  -- `filesys_create`: the directory of the path is not used. A sector 0 is not released.
  unfoldable pub filesys_create :
      (unset : Str) → Str → (initial_size : ℕ) (is_dir : Bool) → Call (Fs S) Bool
  unfolding split_path_filename dir_open_root create_in dir_close
  filesys_create unset path initial_size is_dir = do
    let file_name = (split_path_filename path).1
    dir ← dir_open_root store
    sector ← on_inodes store.free_map_allocate
    elim sector [
      | none ↦ (do dir_close store dir; pure false)
      | some inode_sector ↦ (do
        success ← create_in unset dir file_name initial_size inode_sector is_dir
        (if not success && not (inode_sector == 0)
            then on_inodes (store.free_map_release inode_sector)
            else pure tt)
        dir_close store dir
        pure success)
    ]

  -- the inode that `filesys_open` opens: with an empty name the one of the directory, which stays open
  unfoldable pub find_inode : (dir : ℕ) → Str → Call (Fs S) (Option ℕ)
  unfolding dir_lookup dir_close
  find_inode dir file_name = do
    d ← get_dir dir
    elim file_name [
      | [] ↦ pure (some d.inode)
      | c ∷ s ↦ (do
        found ← on_inodes (dir_lookup store d.inode (c ∷ s))
        dir_close store dir
        pure found)
    ]

  -- `filesys_open`: the address of the file
  unfoldable pub filesys_open : Str → Call (Fs S) (Option ℕ)
  unfolding split_path_filename dir_open_root find_inode file_open
  filesys_open [] = pure none
  filesys_open (c ∷ s) = do
    let file_name = (split_path_filename (c ∷ s)).1
    dir ← dir_open_root store
    found ← find_inode dir file_name
    elim found [
      | none ↦ pure none
      | some inode ↦ (do
        removed ← on_inodes (store.inode_is_removed inode)
        if removed then pure none else (do file ← file_open store inode; pure (some file)))
    ]

  -- `filesys_remove`
  unfoldable pub filesys_remove : Str → Call (Fs S) Bool
  unfolding split_path_filename dir_open_path dir_remove dir_close
  filesys_remove path = do
    let (directory, file_name) = split_path_filename path
    opened ← dir_open_path store directory
    elim opened [
      | none ↦ pure false
      | some dir ↦ (do success ← dir_remove store dir file_name; dir_close store dir; pure success)
    ]

  -- `filesys_chdir`
  unfoldable pub filesys_chdir : Str → Call (Fs S) Bool
  unfolding dir_open_path dir_close
  filesys_chdir name = do
    opened ← dir_open_path store name
    elim opened [
      | none ↦ pure false
      | some dir ↦ (do
        cwd ← get_cwd
        elim cwd [ none ↦ pure tt | some p ↦ dir_close store p ]
        set_cwd (some dir)
        pure true)
    ]

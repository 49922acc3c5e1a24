-- ===== src/A3/Directory/Update.antt =====
-- The functions of a3/fs/directory.c that change a directory.
use ecse_427_simple_shell_cr.Base.{
  ℕ, ◌*◌, Bool, true, false, ◌||◌, none, some, Str, ltb, ◌==◌, if◌then◌else◌, length, replicate,
}
use ecse_427_simple_shell_cr.A3.InodeStore.{Call, ◌>>=◌, ◌>>◌, pure, InodeStore}
use ecse_427_simple_shell_cr.A3.FsState.{Fs, on_inodes, get_dir}
use ecse_427_simple_shell_cr.A3.Directory.{
  name_max, entry_size, DirEntry, parent_entry, write_entry, lookup, dir_is_empty, add_entry,
}
use ecse_427_simple_shell_cr.A3.Directory.Open.{dir_open, dir_close}

module _ {S : Type 0} (store : InodeStore S) where
  -- A new directory object for the inode in a sector, its parent entry written, and closed again
  unfoldable pub write_parent : (sector : ℕ) → DirEntry → Call (Fs S) Bool
  unfolding dir_open dir_close write_entry
  write_parent sector e = do
    inode ← on_inodes (store.inode_open sector)
    dir ← dir_open store inode
    written ← on_inodes (write_entry store inode e 0)
    dir_close store dir
    pure written

  -- `dir_create`: the parent entry is the directory itself
  unfoldable pub dir_create : (sector entry_cnt : ℕ) → Call (Fs S) Bool
  unfolding write_parent
  dir_create sector entry_cnt = do
    success ← on_inodes (store.inode_create sector (entry_cnt * entry_size) true)
    if success then write_parent sector (parent_entry sector (replicate 31 0)) else pure false

  -- `dir_add`; the name of a parent entry is what the variable held before, which is a parameter
  unfoldable pub dir_add :
      (unset : Str) (dir : ℕ) → Str → (inode_sector : ℕ) (is_dir : Bool) → Call (Fs S) Bool
  unfolding lookup write_parent add_entry
  dir_add unset dir name inode_sector is_dir =
      if (length name == 0) || ltb name_max (length name) then pure false else (do
        d ← get_dir dir
        used ← on_inodes (lookup store d.inode name)
        elim used [
          | some r ↦ pure false
          | none ↦
              if is_dir
              then (do
                parent ← on_inodes (store.inode_get_inumber d.inode)
                written ← write_parent inode_sector (parent_entry parent unset)
                if written
                    then on_inodes (add_entry store d.inode name inode_sector)
                    else pure false)
              else on_inodes (add_entry store d.inode name inode_sector)
        ])

  -- the part of `dir_remove` from the entry on: it is written back as free, and its inode marked
  unfoldable pub erase_entry : (dir inode : ℕ) → DirEntry → (ofs : ℕ) → Call (Fs S) Bool
  unfolding write_entry
  erase_entry dir inode e ofs = do
    written ← on_inodes (write_entry store dir (record e { in_use = false }) ofs)
    if written then (do on_inodes (store.inode_remove inode); pure true) else pure false

  -- whether `dir_remove` may remove the inode; the directory object for it is closed with the inode
  unfoldable pub may_remove : (inode : ℕ) → Call (Fs S) Bool
  unfolding dir_open dir_close dir_is_empty
  may_remove inode = do
    is_directory ← on_inodes (store.inode_is_directory inode)
    if is_directory
        then (do
          target ← dir_open store inode
          is_empty ← on_inodes (dir_is_empty store inode)
          dir_close store target
          pure is_empty)
        else pure true

  -- `dir_remove`
  unfoldable pub dir_remove : (dir : ℕ) → Str → Call (Fs S) Bool
  unfolding lookup may_remove erase_entry
  dir_remove dir name = do
    d ← get_dir dir
    found ← on_inodes (lookup store d.inode name)
    elim found [
      | none ↦ pure false
      | some r ↦ (do
        inode ← on_inodes (store.inode_open r.0.inode_sector)
        allowed ← may_remove inode
        success ← (if allowed then erase_entry d.inode inode r.0 r.1 else pure false)
        on_inodes (store.inode_close inode)
        pure success)
    ]

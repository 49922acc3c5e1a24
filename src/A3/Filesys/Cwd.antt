-- ===== src/A3/Filesys/Cwd.antt =====
-- The pointer `cwd` under the functions of a3/fs/filesys.c.
use mathlib.Core.Path.{subst}
use ecse_427_simple_shell_cr.Base.{
  ℕ, ◌≡◌, Bool, false, not, ◌&&◌, Option, none, some, [], ◌∷◌, Str, ◌==◌, if◌then◌else◌,
}
use ecse_427_simple_shell_cr.A3.InodeStore.{Call, pure, InodeStore}
use ecse_427_simple_shell_cr.A3.FsState.{Fs, on_inodes, get_dir}
use ecse_427_simple_shell_cr.A3.Directory.{dir_lookup}
use ecse_427_simple_shell_cr.A3.Directory.Path.{split_path_filename}
use ecse_427_simple_shell_cr.A3.Directory.Open.{dir_open_root, dir_open_path, dir_close}
use ecse_427_simple_shell_cr.A3.Directory.Update.{dir_remove}
use ecse_427_simple_shell_cr.A3.Directory.Keeps.{
  CwdLive, Fine, Keeps, bind-Keeps, option-Keeps, pure-Keeps, if-Keeps, on_inodes-Keeps,
  get_dir-Keeps,
}
use ecse_427_simple_shell_cr.A3.Directory.Cwd.{
  dir_open_root-Keeps, dir_open_path-Keeps, dir_close-Keeps, dir_add-Keeps, dir_remove-Keeps,
}
use ecse_427_simple_shell_cr.A3.Files.{file_open}
use ecse_427_simple_shell_cr.A3.Filesys.{
  create_in, filesys_create, find_inode, filesys_open, filesys_remove,
}

module _ {S : Type 0} (store : InodeStore S) where
  create_in-Keeps :
      (unset : Str) (dir : ℕ) (file_name : Str) (initial_size inode_sector : ℕ) (is_dir : Bool)
      → Keeps (create_in store unset dir file_name initial_size inode_sector is_dir)
  unfolding create_in
  create_in-Keeps unset dir file_name initial_size inode_sector is_dir =
      bind-Keeps (on_inodes (store.inode_create inode_sector initial_size is_dir)) _
        (on_inodes-Keeps _)
        λ created.
          if-Keeps created _ _ (dir_add-Keeps store unset dir file_name inode_sector is_dir)
            (pure-Keeps false)

  filesys_create-Keeps :
      (unset path : Str) (initial_size : ℕ) (is_dir : Bool)
      → Keeps (filesys_create store unset path initial_size is_dir)
  unfolding filesys_create
  filesys_create-Keeps unset path initial_size is_dir =
      bind-Keeps (dir_open_root store) _ (dir_open_root-Keeps store) λ dir.
        bind-Keeps (on_inodes store.free_map_allocate) _ (on_inodes-Keeps store.free_map_allocate)
          λ sector.
            option-Keeps sector _ _
              (bind-Keeps (dir_close store dir) _ (dir_close-Keeps store dir) λ _. pure-Keeps false)
              λ inode_sector.
                bind-Keeps
                  (create_in store unset dir (split_path_filename path).1 initial_size inode_sector
                    is_dir)
                  _
                  (create_in-Keeps unset dir (split_path_filename path).1 initial_size inode_sector
                    is_dir)
                  λ success.
                    bind-Keeps
                      (if not success && not (inode_sector == 0)
                        then on_inodes (store.free_map_release inode_sector)
                        else pure tt)
                      _
                      (if-Keeps (not success && not (inode_sector == 0)) _ _
                        (on_inodes-Keeps (store.free_map_release inode_sector)) (pure-Keeps tt))
                      λ _.
                        bind-Keeps (dir_close store dir) _ (dir_close-Keeps store dir)
                          λ _. pure-Keeps success

  find_inode-Keeps : (dir : ℕ) (file_name : Str) → Keeps (find_inode store dir file_name)
  unfolding find_inode
  find_inode-Keeps dir [] =
      bind-Keeps (get_dir dir) _ (get_dir-Keeps dir) λ d. pure-Keeps (some d.inode)
  find_inode-Keeps dir (c ∷ s) = bind-Keeps (get_dir dir) _ (get_dir-Keeps dir) λ d.
      bind-Keeps (on_inodes (dir_lookup store d.inode (c ∷ s))) _
        (on_inodes-Keeps (dir_lookup store d.inode (c ∷ s)))
        λ found.
          bind-Keeps (dir_close store dir) _ (dir_close-Keeps store dir) λ _. pure-Keeps found

  file_open-Keeps : (inode : ℕ) → Keeps (file_open store inode)
  unfolding file_open
  file_open-Keeps inode = record { at = λ s live. live }

  filesys_open-Keeps : (name : Str) → Keeps (filesys_open store name)
  unfolding filesys_open
  filesys_open-Keeps [] = pure-Keeps {A = Option ℕ} none
  filesys_open-Keeps (c ∷ s) = bind-Keeps (dir_open_root store) _ (dir_open_root-Keeps store) λ dir.
      bind-Keeps (find_inode store dir (split_path_filename (c ∷ s)).1) _
        (find_inode-Keeps dir (split_path_filename (c ∷ s)).1)
        λ found. option-Keeps found _ _ (pure-Keeps {A = Option ℕ} none) λ inode.
          bind-Keeps (on_inodes (store.inode_is_removed inode)) _
            (on_inodes-Keeps (store.inode_is_removed inode))
            λ removed. if-Keeps removed _ _ (pure-Keeps {A = Option ℕ} none) (
              bind-Keeps (file_open store inode) _ (file_open-Keeps inode)
                λ file. pure-Keeps (some file))

  filesys_remove-Keeps : (name : Str) → Keeps (filesys_remove store name)
  unfolding filesys_remove
  filesys_remove-Keeps name =
      bind-Keeps (dir_open_path store (split_path_filename name).0) _
        (dir_open_path-Keeps store (split_path_filename name).0)
        λ opened. option-Keeps opened _ _ (pure-Keeps false) λ dir.
          bind-Keeps (dir_remove store dir (split_path_filename name).1) _
            (dir_remove-Keeps store dir (split_path_filename name).1)
            λ success.
              bind-Keeps (dir_close store dir) _ (dir_close-Keeps store dir) λ _. pure-Keeps success

-- A change of the file system by a call of `filesys_create`, `filesys_open` or `filesys_remove`.
pub data Step {S : Type 0} (store : InodeStore S) (s s' : Fs S) : Type 0 where
  created :
      (unset path : Str) (initial_size : ℕ) (is_dir done : Bool)
      → filesys_create store unset path initial_size is_dir s ≡ some (done, s')
      → Step store s s'
  opened :
      (name : Str) (file : Option ℕ) → filesys_open store name s ≡ some (file, s') → Step store s s'
  removed :
      (name : Str) (done : Bool) → filesys_remove store name s ≡ some (done, s') → Step store s s'

-- so many calls, one after another
pub data Reach {S : Type 0} (store : InodeStore S) (s : Fs S) : Fs S → Type 0 where
  here : Reach store s s
  next : {t u : Fs S} → Reach store s t → Step store t u → Reach store s u

module _ {S : Type 0} (store : InodeStore S) where
  Fine-of_some :
      {A : Type 0} (f : Call (Fs S) A) (s s' : Fs S) (a : A)
      → Keeps f
      → f s ≡ some (a, s')
      → CwdLive s
      → CwdLive s'
  Fine-of_some f s s' a k e live = subst Fine e (k.at s live)

  Step-CwdLive : (s s' : Fs S) → Step store s s' → CwdLive s → CwdLive s'
  Step-CwdLive s s' (created unset path size is_dir done e) live =
      Fine-of_some _ s s' done (filesys_create-Keeps store unset path size is_dir) e live
  Step-CwdLive s s' (opened name file e) live =
      Fine-of_some _ s s' file (filesys_open-Keeps store name) e live
  Step-CwdLive s s' (removed name done e) live =
      Fine-of_some _ s s' done (filesys_remove-Keeps store name) e live

  -- Through any number of calls of `filesys_create`, `filesys_open` and `filesys_remove` that return, in
  -- any order, `cwd` stays unset or a directory that is open.
  pub Reach-CwdLive : {s s' : Fs S} → Reach store s s' → CwdLive s → CwdLive s'
  Reach-CwdLive here live = live
  Reach-CwdLive (next {t = t} {u = u} r st) live = Step-CwdLive t u st (Reach-CwdLive r live)

-- ===== src/A3/Directory/Cwd.antt =====
-- The pointer `cwd` of a3/fs/directory.c, under the functions that open, close and change directories.
use ecse_427_simple_shell_cr.Base.{
  ℕ, ◌+◌, ◌-◌, ◌≡◌, refl, Bool, true, false, Option, none, some, List, [], ◌∷◌, ◌||◌, Str, ◌==◌,
  if◌then◌else◌, ltb, length, arith, inl, inr, Bool-cases,
}
use ecse_427_simple_shell_cr.A3.InodeStore.{Call, ◌>>=◌, ◌>>◌, pure, InodeStore}
use ecse_427_simple_shell_cr.A3.FsState.{Dir, Fs, on_inodes, get_cwd, set_cwd, get_dir, put_dir}
use ecse_427_simple_shell_cr.A3.Directory.{
  DirEntry, parent_entry, dir_lookup, lookup, write_entry, add_entry,
}
use ecse_427_simple_shell_cr.A3.Directory.Path.{slash}
use ecse_427_simple_shell_cr.A3.Directory.Open.{
  dir_open, dir_open_root, dir_reopen, dir_close, walk_path, dir_open_start, dir_open_path,
}
use ecse_427_simple_shell_cr.A3.Directory.Update.{
  write_parent, dir_add, erase_entry, may_remove, dir_remove,
}
use ecse_427_simple_shell_cr.A3.Directory.Keeps.{
  bind-Keeps, option-Keeps, pure-Keeps, if-Keeps, on_inodes-Keeps, clear-Keeps, get_cwd-Keeps,
  get_dir-Keeps, put_dir-Keeps, new_dir-Keeps, Keeps,
}

module _ {S : Type 0} (store : InodeStore S) where
  pub dir_open-Keeps : (inode : ℕ) → Keeps (dir_open store inode)
  unfolding dir_open
  dir_open-Keeps inode = new_dir-Keeps _ (omega arith)

  -- A new directory becomes `cwd`.
  open_cwd-Keeps :
      (inode : ℕ) → Keeps (dir_open store inode >>= λ dir. (set_cwd (some dir) >> pure dir))
  unfolding dir_open
  open_cwd-Keeps inode = record {
    at = λ s live q e.
        let same : q ≡ s.next_dir = cc in
        let t : (q == s.next_dir) ≡ true = ground arith in
        (record { inode = inode; pos = 36; open_cnt = 1 }, rw t refl, omega arith);
  }

  pub dir_open_root-Keeps : Keeps (dir_open_root store)
  unfolding dir_open_root
  dir_open_root-Keeps = bind-Keeps get_cwd _ get_cwd-Keeps λ c.
      option-Keeps c _ _
        (bind-Keeps (on_inodes (store.inode_open 1)) _ (on_inodes-Keeps _) open_cwd-Keeps)
        λ p. bind-Keeps (get_dir p) _ (get_dir-Keeps p) λ d.
          bind-Keeps (put_dir p (some (record d { open_cnt = d.open_cnt + 1 }))) (λ _. pure p)
            (put_dir-Keeps p (record d { open_cnt = d.open_cnt + 1 }) (omega arith))
            λ _. pure-Keeps p

  pub dir_reopen-Keeps : (dir : ℕ) → Keeps (dir_reopen store dir)
  unfolding dir_reopen
  dir_reopen-Keeps dir = bind-Keeps (get_dir dir) _ (get_dir-Keeps dir) λ d. dir_open-Keeps d.inode

  close-Keeps :
      (dir : ℕ) (d : Dir)
      → Keeps (
          if d.open_cnt - 1 == 0
          then (on_inodes (store.inode_close d.inode) >> (put_dir dir none >> set_cwd none))
          else put_dir dir (some (record d { open_cnt = d.open_cnt - 1 })))
  close-Keeps dir d = elim (Bool-cases (d.open_cnt - 1 == 0)) [
    | inl t ↦ rw t (
        bind-Keeps (on_inodes (store.inode_close d.inode)) (λ _. (put_dir dir none >> set_cwd none))
          (on_inodes-Keeps _) λ _. clear-Keeps (put_dir dir none))
    | inr f ↦ rw f (put_dir-Keeps dir (record d { open_cnt = d.open_cnt - 1 }) (ground arith))
  ]

  pub dir_close-Keeps : (dir : ℕ) → Keeps (dir_close store dir)
  unfolding dir_close
  dir_close-Keeps dir = bind-Keeps (get_dir dir) _ (get_dir-Keeps dir) λ d. close-Keeps dir d

  pub walk_path-Keeps : (curr : ℕ) (tokens : List Str) → Keeps (walk_path store curr tokens)
  unfolding walk_path
  walk_path-Keeps curr [] = pure-Keeps (some curr)
  walk_path-Keeps curr (token ∷ rest) = bind-Keeps (get_dir curr) _ (get_dir-Keeps curr) λ d.
      bind-Keeps (on_inodes (dir_lookup store d.inode token)) _ (on_inodes-Keeps _) λ found.
        option-Keeps found _ _
          (bind-Keeps (dir_close store curr) _ (dir_close-Keeps curr)
            λ _. pure-Keeps {A = Option ℕ} none)
          λ inode. bind-Keeps (dir_open store inode) _ (dir_open-Keeps inode) λ next.
            bind-Keeps (dir_close store curr) _ (dir_close-Keeps curr)
              λ _. walk_path-Keeps next rest

  from_cwd-Keeps :
      (cwd : Option ℕ)
      → Keeps (elim cwd as (λ _. Call (Fs S) ℕ) [
        | none ↦ dir_open_root store
        | some p ↦ dir_reopen store p
      ])
  from_cwd-Keeps cwd = option-Keeps cwd _ _ dir_open_root-Keeps dir_reopen-Keeps

  dir_open_start-Keeps : (path : Str) → Keeps (dir_open_start store path)
  unfolding dir_open_start
  dir_open_start-Keeps [] = bind-Keeps get_cwd _ get_cwd-Keeps from_cwd-Keeps
  dir_open_start-Keeps (c ∷ s) =
      bind-Keeps get_cwd _ get_cwd-Keeps
        λ cwd. if-Keeps (c == slash) _ _ dir_open_root-Keeps (from_cwd-Keeps cwd)

  pub dir_open_path-Keeps : (path : Str) → Keeps (dir_open_path store path)
  unfolding dir_open_path
  dir_open_path-Keeps path =
      bind-Keeps (dir_open_start store path) _ (dir_open_start-Keeps path) λ start.
        bind-Keeps (walk_path store start _) _ (walk_path-Keeps start _) λ end.
          option-Keeps end _ _ (pure-Keeps none) λ curr.
            bind-Keeps (get_dir curr) _ (get_dir-Keeps curr) λ d.
              bind-Keeps (on_inodes (store.inode_is_removed d.inode)) _ (on_inodes-Keeps _)
                λ removed.
                  if-Keeps removed _ _
                    (bind-Keeps (dir_close store curr) _ (dir_close-Keeps curr)
                      λ _. pure-Keeps {A = Option ℕ} none)
                    (pure-Keeps (some curr))

  write_parent-Keeps : (sector : ℕ) (e : DirEntry) → Keeps (write_parent store sector e)
  unfolding write_parent
  write_parent-Keeps sector e =
      bind-Keeps (on_inodes (store.inode_open sector)) _ (on_inodes-Keeps _) λ inode.
        bind-Keeps (dir_open store inode) _ (dir_open-Keeps inode) λ dir.
          bind-Keeps (on_inodes (write_entry store inode e 0))
            (λ w. (dir_close store dir >> pure w)) (on_inodes-Keeps _)
            λ written.
              bind-Keeps (dir_close store dir) (λ _. pure written) (dir_close-Keeps dir)
                λ _. pure-Keeps written

  pub dir_add-Keeps :
      (unset : Str) (dir : ℕ) (name : Str) (sector : ℕ) (is_dir : Bool)
      → Keeps (dir_add store unset dir name sector is_dir)
  unfolding dir_add
  dir_add-Keeps unset dir name sector is_dir =
      if-Keeps ((length name == 0) || ltb 30 (length name)) _ _ (pure-Keeps false) (
        bind-Keeps (get_dir dir) _ (get_dir-Keeps dir) λ d.
          bind-Keeps (on_inodes (lookup store d.inode name)) _ (on_inodes-Keeps _) λ used.
            option-Keeps used _ _
              (if-Keeps is_dir _ _
                (bind-Keeps (on_inodes (store.inode_get_inumber d.inode)) _ (on_inodes-Keeps _)
                  λ parent.
                    bind-Keeps (write_parent store sector (parent_entry parent unset)) _
                      (write_parent-Keeps sector (parent_entry parent unset))
                      λ written.
                        if-Keeps written _ _ (on_inodes-Keeps (add_entry store d.inode name sector))
                          (pure-Keeps false))
                (on_inodes-Keeps (add_entry store d.inode name sector)))
              λ r. pure-Keeps false)

  may_remove-Keeps : (inode : ℕ) → Keeps (may_remove store inode)
  unfolding may_remove
  may_remove-Keeps inode =
      bind-Keeps (on_inodes (store.inode_is_directory inode)) _ (on_inodes-Keeps _) λ is_directory.
        if-Keeps is_directory _ _
          (bind-Keeps (dir_open store inode) _ (dir_open-Keeps inode) λ target.
            bind-Keeps (on_inodes _) _ (on_inodes-Keeps _) λ is_empty.
              bind-Keeps (dir_close store target) _ (dir_close-Keeps target)
                λ _. pure-Keeps is_empty)
          (pure-Keeps true)

  erase_entry-Keeps :
      (dir inode : ℕ) (e : DirEntry) (ofs : ℕ) → Keeps (erase_entry store dir inode e ofs)
  unfolding erase_entry
  erase_entry-Keeps dir inode e ofs = bind-Keeps (on_inodes _) _ (on_inodes-Keeps _) λ written.
      if-Keeps written _ _
        (bind-Keeps (on_inodes (store.inode_remove inode)) _ (on_inodes-Keeps _)
          λ _. pure-Keeps true)
        (pure-Keeps false)

  pub dir_remove-Keeps : (dir : ℕ) (name : Str) → Keeps (dir_remove store dir name)
  unfolding dir_remove
  dir_remove-Keeps dir name = bind-Keeps (get_dir dir) _ (get_dir-Keeps dir) λ d.
      bind-Keeps (on_inodes (lookup store d.inode name)) _ (on_inodes-Keeps _) λ found.
        option-Keeps found _ _ (pure-Keeps false) λ r.
          bind-Keeps (on_inodes (store.inode_open r.0.inode_sector)) _ (on_inodes-Keeps _) λ inode.
            bind-Keeps (may_remove store inode) _ (may_remove-Keeps inode) λ allowed.
              bind-Keeps (if allowed then _ else _) _
                (if-Keeps allowed _ _ (erase_entry-Keeps d.inode inode r.0 r.1) (pure-Keeps false))
                λ success.
                  bind-Keeps (on_inodes (store.inode_close inode)) _ (on_inodes-Keeps _)
                    λ _. pure-Keeps success

-- ===== src/A3/Filesys/Chdir.antt =====
-- `filesys_chdir` of a3/fs/filesys.c where no directory is set yet.
use ecse_427_simple_shell_cr.Base.{
  ℕ, ◌+◌, ◌-◌, ◌≡◌, refl, ◌∙◌, true, false, Option, none, some, [], ◌∷◌, Str, ◌==◌, arith, inl, inr,
  Bool-cases,
}
use ecse_427_simple_shell_cr.A3.InodeStore.{Call, ◌>>=◌, ◌>>◌, pure, InodeStore}
use ecse_427_simple_shell_cr.A3.FsState.{Dir, Fs, put, on_inodes, set_cwd, get_dir, put_dir}
use ecse_427_simple_shell_cr.A3.FsState.Steps.{bind_of_some, on_inodes_of_some, get_dir_of_some}
use ecse_427_simple_shell_cr.A3.Directory.Path.{slash, tokens}
use ecse_427_simple_shell_cr.A3.Directory.Open.{
  dir_open, dir_open_root, dir_reopen, dir_open_path, dir_open_start, walk_path, dir_close,
}
use ecse_427_simple_shell_cr.A3.Filesys.{filesys_chdir}

pub put_self : {A : Type 0} (heap : ℕ → Option A) (p : ℕ) (x : Option A) → put heap p x p ≡ x
put_self heap p x = let same : (p == p) ≡ true = ground arith in rw same refl

module _ {S : Type 0} (store : InodeStore S) where
  from_cwd :
      (c : Option ℕ) (s : Fs S)
      → c ≡ none
      → elim c as (λ _. Call (Fs S) ℕ) [ none ↦ dir_open_root store | some p ↦ dir_reopen store p ]
          s
        ≡ dir_open_root store s
  from_cwd none s e = refl
  from_cwd (some p) s e = cc

  dir_open_start-root :
      (path : Str) (s : Fs S) → s.cwd ≡ none → dir_open_start store path s ≡ dir_open_root store s
  unfolding dir_open_start
  dir_open_start-root [] s e = from_cwd s.cwd s e
  dir_open_start-root (c ∷ t) s e = elim (Bool-cases (c == slash)) [
    | inl y ↦ rw (y, dir_open_start) refl
    | inr n ↦ rw (n, dir_open_start) (from_cwd s.cwd s e)
  ]

  -- the root directory as it is opened first
  abbrev root_dir : ℕ → Dir
  root_dir inode = record { inode = inode; pos = 36; open_cnt = 1 }

  abbrev root_opened : Fs S → ℕ → S → Fs S
  root_opened s inode s1 = record s {
    inodes = s1;
    dirs = put s.dirs s.next_dir (some (root_dir inode));
    next_dir = s.next_dir + 1;
    cwd = some s.next_dir;
  }

  root_opens :
      (c : Option ℕ) (s : Fs S) (inode : ℕ) (s1 : S)
      → c ≡ none
      → store.inode_open 1 s.inodes ≡ some (inode, s1)
      → elim c as (λ _. Call (Fs S) ℕ) [
        | none ↦ (do
          i ← on_inodes (store.inode_open 1)
          dir ← dir_open store i
          set_cwd (some dir)
          pure dir)
        | some p ↦ (do
          d ← get_dir p
          put_dir p (some (record d { open_cnt = d.open_cnt + 1 }))
          pure p)
      ]
          s
        ≡ some (s.next_dir, root_opened s inode s1)
  unfolding dir_open
  root_opens none s inode s1 e o =
      bind_of_some (on_inodes (store.inode_open 1)) _ s inode (record s { inodes = s1 })
        (on_inodes_of_some (store.inode_open 1) s inode s1 o)
  root_opens (some p) s inode s1 e o = cc

  pub dir_open_root-first :
      (s : Fs S) (inode : ℕ) (s1 : S)
      → s.cwd ≡ none
      → store.inode_open 1 s.inodes ≡ some (inode, s1)
      → dir_open_root store s ≡ some (s.next_dir, root_opened s inode s1)
  unfolding dir_open_root
  dir_open_root-first s inode s1 e o = root_opens s.cwd s inode s1 e o

  pub dir_close-last :
      (dir : ℕ) (s : Fs S) (d : Dir) (s1 : S)
      → s.dirs dir ≡ some d
      → d.open_cnt ≡ 1
      → store.inode_close d.inode s.inodes ≡ some (tt, s1)
      → dir_close store dir s
        ≡ some (tt, record s { inodes = s1; dirs = put s.dirs dir none; cwd = none })
  unfolding dir_close
  dir_close-last dir s d s1 e one c =
      let last : (d.open_cnt - 1 == 0) ≡ true = ground arith in
      bind_of_some (get_dir dir) _ s d s (get_dir_of_some dir s d e)
      ∙ rw last (
          bind_of_some (on_inodes (store.inode_close d.inode)) _ s tt _
            (on_inodes_of_some (store.inode_close d.inode) s tt s1 c))

  dir_open_path-root :
      (path : Str) (s : Fs S) (inode : ℕ) (s1 s2 : S)
      → s.cwd ≡ none
      → tokens path ≡ []
      → store.inode_open 1 s.inodes ≡ some (inode, s1)
      → store.inode_is_removed inode s1 ≡ some (false, s2)
      → dir_open_path store path s ≡ some (some s.next_dir, root_opened s inode s2)
  unfolding dir_open_path walk_path
  dir_open_path-root path s inode s1 s2 e t o r =
      bind_of_some (dir_open_start store path) _ s s.next_dir (root_opened s inode s1)
        (dir_open_start-root path s e ∙ dir_open_root-first s inode s1 e o)
      ∙ rw t (
          bind_of_some (get_dir s.next_dir) _ (root_opened s inode s1) (root_dir inode)
            (root_opened s inode s1)
            (get_dir_of_some s.next_dir (root_opened s inode s1) (root_dir inode)
              (put_self s.dirs s.next_dir (some (root_dir inode))))
          ∙ bind_of_some (on_inodes (store.inode_is_removed inode)) _ (root_opened s inode s1) false
              (root_opened s inode s2)
              (on_inodes_of_some (store.inode_is_removed inode) (root_opened s inode s1) false s2
                r))

  -- With no directory set, a change to a path that names none, such as "/", returns true and leaves
  -- `cwd` at a directory that was freed.
  pub filesys_chdir-freed :
      (path : Str) (s : Fs S) (inode : ℕ) (s1 s2 s3 : S)
      → s.cwd ≡ none
      → tokens path ≡ []
      → store.inode_open 1 s.inodes ≡ some (inode, s1)
      → store.inode_is_removed inode s1 ≡ some (false, s2)
      → store.inode_close inode s2 ≡ some (tt, s3)
      → (s' : Fs S) × (p : ℕ) × (filesys_chdir store path s ≡ some (true, s'))
        × (s'.cwd ≡ some p)
        × (s'.dirs p ≡ none)
  unfolding filesys_chdir
  filesys_chdir-freed path s inode s1 s2 s3 e t o r c =
      let open_state = root_opened s inode s2 in
      (
        record s {
          inodes = s3;
          dirs = put open_state.dirs s.next_dir none;
          next_dir = s.next_dir + 1;
          cwd = some s.next_dir;
        },
        s.next_dir,
        bind_of_some (dir_open_path store path) _ s (some s.next_dir) open_state
              (dir_open_path-root path s inode s1 s2 e t o r)
            ∙ bind_of_some (dir_close store s.next_dir) _ open_state tt _ (
                dir_close-last s.next_dir open_state (root_dir inode) s3
                  (put_self s.dirs s.next_dir (some (root_dir inode))) refl c),
        refl,
        put_self open_state.dirs s.next_dir none,
      )

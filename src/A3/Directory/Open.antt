-- ===== src/A3/Directory/Open.antt =====
-- Opening and closing a directory, going along a path, and listing the entries, in a3/fs/directory.c.
use ecse_427_simple_shell_cr.Base.{
  ℕ, zero, suc, ◌+◌, ◌-◌, true, false, Option, none, some, List, [], ◌∷◌, Str, ◌==◌, if◌then◌else◌,
}
use ecse_427_simple_shell_cr.A3.Inode.{no_sector}
use ecse_427_simple_shell_cr.A3.InodeStore.{Call, ◌>>=◌, ◌>>◌, pure, InodeStore}
use ecse_427_simple_shell_cr.A3.FsState.{Fs, on_inodes, get_cwd, set_cwd, new_dir, get_dir, put_dir}
use ecse_427_simple_shell_cr.A3.Directory.{
  entry_size, root_dir_sector, DirEntry, read_entry, rounds, dir_lookup,
}
use ecse_427_simple_shell_cr.A3.Directory.Path.{slash, tokens}

module _ {S : Type 0} (store : InodeStore S) where
  -- `dir_open` of an inode: position 0 has the parent entry
  unfoldable pub dir_open : ℕ → Call (Fs S) ℕ
  dir_open inode = new_dir (record { inode = inode; pos = entry_size; open_cnt = 1 })

  -- `dir_open_root`: with `cwd` set, it is `cwd` that is opened once more, whichever directory that is
  unfoldable pub dir_open_root : Call (Fs S) ℕ
  unfolding dir_open
  dir_open_root = do
    cwd ← get_cwd
    elim cwd [
      | none ↦ (do
        inode ← on_inodes (store.inode_open root_dir_sector)
        dir ← dir_open inode
        set_cwd (some dir)
        pure dir)
      | some p ↦ (do
        d ← get_dir p
        put_dir p (some (record d { open_cnt = d.open_cnt + 1 }))
        pure p)
    ]

  -- `dir_reopen`: a directory of its own for the same inode
  unfoldable pub dir_reopen : ℕ → Call (Fs S) ℕ
  unfolding dir_open
  dir_reopen dir = do d ← get_dir dir; dir_open d.inode

  -- `dir_close`: the last close of any directory clears `cwd`
  unfoldable pub dir_close : ℕ → Call (Fs S) (Unit {0})
  dir_close dir = do
    d ← get_dir dir
    if d.open_cnt - 1 == 0
        then (do on_inodes (store.inode_close d.inode); put_dir dir none; set_cwd none)
        else put_dir dir (some (record d { open_cnt = d.open_cnt - 1 }))

  -- The loop of `dir_open_path` over the tokens
  unfoldable pub walk_path : (curr : ℕ) → List Str → Call (Fs S) (Option ℕ)
  unfolding dir_close dir_open dir_lookup
  walk_path curr [] = pure (some curr)
  walk_path curr (token ∷ rest) = do
    d ← get_dir curr
    found ← on_inodes (dir_lookup store d.inode token)
    elim found [
      | none ↦ (do dir_close curr; pure none)
      | some inode ↦ (do next ← dir_open inode; dir_close curr; walk_path next rest)
    ]

  -- the directory that `dir_open_path` begins at
  unfoldable pub dir_open_start : Str → Call (Fs S) ℕ
  unfolding dir_open_root dir_reopen
  dir_open_start path = do
    cwd ← get_cwd
    elim path [
      | [] ↦ elim cwd [ none ↦ dir_open_root | some p ↦ dir_reopen p ]
      | c ∷ s ↦
          if c == slash
          then dir_open_root
          else elim cwd [ none ↦ dir_open_root | some p ↦ dir_reopen p ]
    ]

  -- `dir_open_path`
  unfoldable pub dir_open_path : Str → Call (Fs S) (Option ℕ)
  unfolding dir_open_start walk_path tokens dir_close
  dir_open_path path = do
    start ← dir_open_start path
    end ← walk_path start (tokens path)
    elim end [
      | none ↦ pure none
      | some curr ↦ (do
        d ← get_dir curr
        removed ← on_inodes (store.inode_is_removed d.inode)
        if removed then (do dir_close curr; pure none) else pure (some curr))
    ]

  -- The loop of `dir_readdir` and `dir_readdir_inode` on fuel, a round for each entry: the next entry in
  -- use. The position goes behind each entry that was read.
  unfoldable pub readdir_loop : (fuel dir : ℕ) → Call (Fs S) (Option DirEntry)
  unfolding read_entry
  readdir_loop zero dir = λ _. none
  readdir_loop (suc fuel) dir = do
    d ← get_dir dir
    found ← on_inodes (read_entry store d.inode d.pos)
    elim found [
      | none ↦ pure none
      | some e ↦ (do
        put_dir dir (some (record d { pos = d.pos + entry_size }))
        elim e.in_use [ true ↦ pure (some e) | false ↦ readdir_loop fuel dir ])
    ]

  unfoldable pub next_entry : (dir : ℕ) → Call (Fs S) (Option DirEntry)
  unfolding readdir_loop rounds
  next_entry dir = do
    d ← get_dir dir
    fuel ← on_inodes (rounds store d.inode)
    readdir_loop fuel dir

  -- `dir_readdir`: the bytes of the name
  unfoldable pub dir_readdir : (dir : ℕ) → Call (Fs S) (Option (List ℕ))
  unfolding next_entry
  dir_readdir dir = do
    found ← next_entry dir
    pure (elim found [ none ↦ none | some e ↦ some e.name ])

  -- `dir_readdir_inode`: the bytes of the name, and the sector, which is -1 without an entry
  unfoldable pub dir_readdir_inode : (dir : ℕ) → Call (Fs S) (Option (List ℕ) × ℕ)
  unfolding next_entry
  dir_readdir_inode dir = do
    found ← next_entry dir
    pure (elim found [ none ↦ (none, no_sector) | some e ↦ (some e.name, e.inode_sector) ])

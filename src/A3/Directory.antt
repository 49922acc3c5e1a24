-- ===== src/A3/Directory.antt =====
-- a3/fs/directory.c: the entries of a directory, read and written one at a time, over the calls of inode.c.
-- A name is the list of its bytes without the closing zero. A function that uses a directory for its inode
-- alone takes the inode.
pub mod Path
pub mod Entries
pub mod Search
pub mod Find
pub mod Add
pub mod Open
pub mod Update
pub mod Keeps
pub mod Cwd
pub mod Tests
use ecse_427_simple_shell_cr.Base.{
  ℕ, zero, suc, ◌+◌, ◌-◌, ◌*◌, ◌/◌, ◌%◌, Bool, true, false, not, ◌&&◌, ◌||◌, Option, none, some,
  List, [], ◌∷◌, ◌++◌, Str, codes, str_eq, ltb, ◌==◌, if◌then◌else◌, length, take, drop, replicate,
  c_string, ℤ, pos,
}
use ecse_427_simple_shell_cr.A3.Inode.{entry, word_at}
use ecse_427_simple_shell_cr.A3.InodeStore.{Call, ◌>>=◌, ◌>>◌, pure, InodeStore}

abbrev pub name_max : ℕ
name_max = 30

-- `sizeof(struct dir_entry)`
abbrev pub entry_size : ℕ
entry_size = 36

abbrev pub root_dir_sector : ℕ
root_dir_sector = 1

-- `struct dir_entry`: `name` is its array of 31 bytes
pub record DirEntry : Type 0 where
  pub inode_sector : ℕ
  pub name : List ℕ
  pub in_use : Bool

-- a `block_sector_t` in memory, the least byte first
unfoldable pub bytes_of_word : ℕ → List ℕ
bytes_of_word n = n % 256 ∷ n / 256 % 256 ∷ n / 65536 % 256 ∷ n / 16777216 % 256 ∷ []

-- an entry in memory, and the entry that 36 bytes are
unfoldable pub bytes_of_entry : DirEntry → List ℕ
unfolding bytes_of_word
bytes_of_entry e = bytes_of_word e.inode_sector ++ (e.name ++ (if e.in_use then 1 else 0) ∷ [])

unfoldable pub entry_of_bytes : List ℕ → DirEntry
unfolding word_at entry
entry_of_bytes b = record {
  inode_sector = word_at b 0;
  name = take 31 (drop 4 b);
  in_use = not (entry b 35 == 0);
}

-- `strncpy(e.name, name, sizeof e.name)`
unfoldable pub name_bytes : Str → List ℕ
name_bytes name = take 31 (name ++ replicate 31 0)

-- `e.in_use && !strcmp(name, e.name)`
unfoldable pub is_named : Str → DirEntry → Bool
is_named name e = e.in_use && str_eq name (c_string e.name)

-- `dir_create` writes a parent entry of zeros but for these two fields; `dir_add` writes one whose name was
-- never set, which nothing reads.
abbrev pub parent_entry : ℕ → List ℕ → DirEntry
parent_entry sector name = record { inode_sector = sector; name = name; in_use = true }

module _ {S : Type 0} (store : InodeStore S) where
  -- `inode_read_at(dir->inode, &e, sizeof e, ofs) == sizeof e`: the entry, if all of it was read
  unfoldable pub read_entry : (dir ofs : ℕ) → Call S (Option DirEntry)
  unfolding entry_of_bytes
  read_entry dir ofs = do
    bytes ← store.inode_read_at dir (pos entry_size) ofs
    pure (if length bytes == entry_size then some (entry_of_bytes bytes) else none)

  -- `inode_write_at(dir->inode, &e, sizeof e, ofs) == sizeof e`
  unfoldable pub write_entry : (dir : ℕ) → DirEntry → (ofs : ℕ) → Call S Bool
  unfolding bytes_of_entry
  write_entry dir e ofs = do
    written ← store.inode_write_at dir (bytes_of_entry e) ofs
    pure (written == entry_size)

  -- The loops over the entries are on fuel, a round for each entry that the file has room for and one more.
  unfoldable pub rounds : (dir : ℕ) → Call S ℕ
  rounds dir = do bytes ← store.inode_length dir; pure (bytes / entry_size + 1)

  -- `for (ofs = ...; read; ofs += sizeof e) if (test(e)) ...`: the first such entry with its offset, or the
  -- offset behind the last entry
  unfoldable pub search_loop : (DirEntry → Bool) → (fuel dir ofs : ℕ) → Call S (Option DirEntry × ℕ)
  unfolding read_entry
  search_loop test zero dir ofs = λ _. none
  search_loop test (suc fuel) dir ofs = do
    found ← read_entry dir ofs
    elim found [
      | none ↦ pure (none, ofs)
      | some e ↦ elim (test e) [
        | true ↦ pure (some e, ofs)
        | false ↦ search_loop test fuel dir (ofs + entry_size)
      ]
    ]

  -- `lookup`: the entry and its offset
  unfoldable pub lookup : (dir : ℕ) → Str → Call S (Option (DirEntry × ℕ))
  unfolding rounds search_loop is_named
  lookup dir name = do
    fuel ← rounds dir
    found ← search_loop (is_named name) fuel dir entry_size
    pure (elim found.0 [ none ↦ none | some e ↦ some (e, found.1) ])

  -- `dir_is_empty`
  unfoldable pub dir_is_empty : (dir : ℕ) → Call S Bool
  unfolding rounds search_loop
  dir_is_empty dir = do
    fuel ← rounds dir
    found ← search_loop (λ e. e.in_use) fuel dir entry_size
    pure (elim found.0 [ none ↦ true | some e ↦ false ])

  -- `dir_lookup`: the address of the inode. A parent entry that is not there whole is read from a variable
  -- that was never set.
  unfoldable pub dir_lookup : (dir : ℕ) → Str → Call S (Option ℕ)
  unfolding read_entry lookup
  dir_lookup dir name =
      if str_eq name (codes ".")
      then pure (some dir)
      else if str_eq name (codes "..")
      then (do
        parent ← read_entry dir 0
        elim parent [
          | none ↦ (λ _. none)
          | some e ↦ (do inode ← store.inode_open e.inode_sector; pure (some inode))
        ])
      else (do
        found ← lookup dir name
        elim found [
          | none ↦ pure none
          | some r ↦ (do inode ← store.inode_open r.0.inode_sector; pure (some inode))
        ])

  -- the part of `dir_add` from the free slot on: its loop begins at the parent entry
  unfoldable pub add_entry : (dir : ℕ) → Str → ℕ → Call S Bool
  unfolding rounds search_loop write_entry name_bytes
  add_entry dir name inode_sector = do
    fuel ← rounds dir
    slot ← search_loop (λ e. not e.in_use) fuel dir 0
    write_entry dir (record { inode_sector = inode_sector; name = name_bytes name; in_use = true })
        slot.1

-- ===== src/A3/Inode/Open.antt =====
-- The open inodes of a3/fs/inode.c, and the functions that take one. An inode that was freed is not in
-- the heap.
use ecse_427_simple_shell_cr.Base.{
  ℕ, ◌+◌, ◌-◌, Bool, true, false, not, ◌&&◌, Option, none, some, List, [], ◌∷◌, ◌++◌, leb, ltb,
  ◌==◌, if◌then◌else◌, length, replicate, ℤ, pos, negsuc,
}
use ecse_427_simple_shell_cr.A3.Cache.{Block, buffer_cache_read}
use ecse_427_simple_shell_cr.A3.InodeStore.{Call, ◌>>=◌, ◌>>◌, pure, panic, InodeStore}
use ecse_427_simple_shell_cr.A3.Directory.{bytes_of_word}
use ecse_427_simple_shell_cr.A3.FsState.{put}
use ecse_427_simple_shell_cr.A3.FreeMap.{
  Bitmap, Inode, Disk, on_cache, free_map_allocate, free_map_release, num_free_sectors,
}
use ecse_427_simple_shell_cr.A3.Inode.{
  InodeDisk, direct_blocks_count, no_sector, byte_to_sector, word_at, entry, collect, inode_read_at,
}
use ecse_427_simple_shell_cr.A3.Inode.Write.{write_sector, write_loop}
use ecse_427_simple_shell_cr.A3.Inode.Reserve.{bytes_of_blocks, inode_reserve, inode_deallocate}

-- `struct inode_disk` as the bytes of a sector: three bytes of padding stand behind `is_dir`
unfoldable pub bytes_of_inode_disk : InodeDisk → Block
unfolding bytes_of_blocks bytes_of_word
bytes_of_inode_disk d =
    bytes_of_blocks d.direct_blocks
    ++ bytes_of_word d.indirect_block
    ++ bytes_of_word d.doubly_indirect_block
    ++ (if d.is_dir then 1 else 0) ∷ 0 ∷ 0 ∷ 0 ∷ []
    ++ bytes_of_word d.length
    ++ bytes_of_word d.magic

unfoldable pub inode_disk_of_bytes : Block → InodeDisk
unfolding word_at collect entry
inode_disk_of_bytes b = record {
  direct_blocks = collect (word_at b) direct_blocks_count 0;
  indirect_block = word_at b 123;
  doubly_indirect_block = word_at b 124;
  is_dir = not (entry b 500 == 0);
  length = word_at b 126;
  magic = word_at b 127;
}

abbrev inode_magic : ℕ
inode_magic = 1229868868

-- The loop of `inode_open` over the open inodes
unfoldable pub find_open : (ℕ → Option Inode) → (sector : ℕ) → List ℕ → Option ℕ
find_open inodes sector [] = none
find_open inodes sector (p ∷ ps) = elim (inodes p) [
  | none ↦ find_open inodes sector ps
  | some i ↦ if i.sector == sector then some p else find_open inodes sector ps
]

-- `list_remove`
unfoldable pub without : ℕ → List ℕ → List ℕ
without p [] = []
without p (q ∷ qs) = if q == p then qs else q ∷ without p qs

-- the offset of the last byte of a write, which is in front of the file where nothing is written at 0
unfoldable pub last_byte : (offset size : ℕ) → ℤ
last_byte offset size = if offset + size == 0 then negsuc 0 else pos (offset + size - 1)

module _ {B : Type 0} where
  abbrev pub get_inode : ℕ → Call (Disk B) Inode
  get_inode p s = elim (s.inodes p) [ none ↦ none | some i ↦ some (i, s) ]

  abbrev pub put_inode : ℕ → Option Inode → Call (Disk B) (Unit {0})
  put_inode p i s = some (tt, record s { inodes = put s.inodes p i })

  abbrev pub new_inode : Inode → Call (Disk B) ℕ
  new_inode i s = some (
    s.next_inode,
    record s {
      inodes = put s.inodes s.next_inode (some i);
      next_inode = s.next_inode + 1;
      open_inodes = s.next_inode ∷ s.open_inodes;
    },
  )

  abbrev pub unlink_inode : ℕ → Call (Disk B) (Unit {0})
  unlink_inode p s = some (tt, record s { open_inodes = without p s.open_inodes })

  abbrev pub search_open : ℕ → Call (Disk B) (Option ℕ)
  search_open sector s = some (find_open s.inodes sector s.open_inodes, s)

module _ {B : Type 0} (lib : Bitmap B) where
  -- `inode_create`
  unfoldable pub inode_create : (sector length : ℕ) → Bool → Call (Disk B) Bool
  unfolding inode_reserve bytes_of_inode_disk
  inode_create sector length is_dir = do
    let blank : InodeDisk = record {
      direct_blocks = replicate direct_blocks_count 0;
      indirect_block = 0;
      doubly_indirect_block = 0;
      is_dir = is_dir;
      length = length;
      magic = inode_magic;
    }
    r ← inode_reserve lib blank (pos length)
    if r.0
        then (do on_cache (write_sector sector (bytes_of_inode_disk r.1)); pure true)
        else pure false

  -- the part of `inode_open` for an inode that is not open
  unfoldable pub open_new : ℕ → Call (Disk B) ℕ
  unfolding inode_disk_of_bytes
  open_new sector = do
    block ← on_cache (buffer_cache_read sector)
    new_inode (record {
      sector = sector;
      open_cnt = 1;
      removed = false;
      deny_write_cnt = 0;
      disk = inode_disk_of_bytes block;
    })

  -- `inode_open`: `inode_reopen` of an inode that is open counts no opener.
  unfoldable pub inode_open : ℕ → Call (Disk B) ℕ
  unfolding find_open open_new
  inode_open sector = do
    found ← search_open sector
    elim found [ some p ↦ pure p | none ↦ open_new sector ]

  -- `inode_close`
  unfoldable pub inode_close : ℕ → Call (Disk B) (Unit {0})
  unfolding without inode_deallocate free_map_release
  inode_close p = do
    i ← get_inode p
    if i.open_cnt - 1 == 0
        then (do
          unlink_inode p
          (if i.removed
              then (do free_map_release lib i.sector; inode_deallocate lib i.disk)
              else pure tt)
          put_inode p none)
        else put_inode p (some (record i { open_cnt = i.open_cnt - 1 }))

  -- `inode_remove`
  unfoldable pub inode_remove : ℕ → Call (Disk B) (Unit {0})
  inode_remove p = do i ← get_inode p; put_inode p (some (record i { removed = true }))

  -- `inode_read_at` of an open inode
  unfoldable pub read_at : ℕ → (size : ℤ) → (offset : ℕ) → Call (Disk B) (List ℕ)
  unfolding inode_read_at
  read_at p size offset = do i ← get_inode p; on_cache (inode_read_at i.disk size offset)

  -- The part of `inode_write_at` for a write behind the end: the inode with its new sectors, or none where
  -- there are not enough. The sectors that were found stay in the inode.
  unfoldable pub extend : ℕ → (length : ℕ) → Call (Disk B) Bool
  unfolding inode_reserve bytes_of_inode_disk
  extend p length = do
    i ← get_inode p
    r ← inode_reserve lib i.disk (pos length)
    if r.0
        then (do
          let grown = record r.1 { length = length }
          put_inode p (some (record i { disk = grown }))
          on_cache (write_sector i.sector (bytes_of_inode_disk grown))
          pure true)
        else (do put_inode p (some (record i { disk = r.1 })); pure false)

  -- `inode_write_at` of all bytes of a buffer
  unfoldable pub inode_write_at : ℕ → (buffer : List ℕ) → (offset : ℕ) → Call (Disk B) ℕ
  unfolding byte_to_sector last_byte extend write_loop
  inode_write_at p buffer offset = do
    i ← get_inode p
    if ltb 0 i.deny_write_cnt then pure 0 else (do
      last ← on_cache (byte_to_sector i.disk (last_byte offset (length buffer)))
      ready ← (if last == no_sector then extend p (offset + length buffer) else pure true)
      if ready
          then (do
            now ← get_inode p
            on_cache (write_loop now.disk (length buffer + 1) (length buffer) offset buffer))
          else pure 0)

  -- `inode_deny_write` and `inode_allow_write` with their assertions
  unfoldable pub inode_deny_write : ℕ → Call (Disk B) (Unit {0})
  inode_deny_write p = do
    i ← get_inode p
    if leb (i.deny_write_cnt + 1) i.open_cnt
        then put_inode p (some (record i { deny_write_cnt = i.deny_write_cnt + 1 }))
        else panic

  unfoldable pub inode_allow_write : ℕ → Call (Disk B) (Unit {0})
  inode_allow_write p = do
    i ← get_inode p
    if ltb 0 i.deny_write_cnt && leb i.deny_write_cnt i.open_cnt
        then put_inode p (some (record i { deny_write_cnt = i.deny_write_cnt - 1 }))
        else panic

  -- the inode store of a3: `inode_get_inumber`, `inode_length`, `inode_is_directory` and
  -- `inode_is_removed` read a field
  unfoldable pub disk_store : InodeStore (Disk B)
  unfolding inode_create inode_open inode_close inode_remove read_at inode_write_at inode_deny_write
      inode_allow_write free_map_allocate free_map_release num_free_sectors
  disk_store = record {
    inode_create = inode_create;
    inode_open = inode_open;
    inode_close = inode_close;
    inode_remove = inode_remove;
    inode_read_at = read_at;
    inode_write_at = inode_write_at;
    inode_deny_write = inode_deny_write;
    inode_allow_write = inode_allow_write;
    inode_get_inumber = λ p. (do i ← get_inode p; pure i.sector);
    inode_length = λ p. (do i ← get_inode p; pure i.disk.length);
    inode_is_directory = λ p. (do i ← get_inode p; pure i.disk.is_dir);
    inode_is_removed = λ p. (do i ← get_inode p; pure i.removed);
    free_map_allocate = free_map_allocate lib;
    free_map_release = free_map_release lib;
    num_free_sectors = num_free_sectors lib;
  }

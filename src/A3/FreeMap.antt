-- ===== src/A3/FreeMap.antt =====
-- a3/fs/free-map.c, and the state of a3/fs below its files: the buffer cache, the free map, and the open
-- inodes. The bitmap of the Pintos library is a parameter.
use ecse_427_simple_shell_cr.Base.{ℕ, Bool, true, false, Option, none, some, List, if◌then◌else◌}
use ecse_427_simple_shell_cr.A3.Cache.{Cache}
use ecse_427_simple_shell_cr.A3.Inode.{Sectors, InodeDisk}
use ecse_427_simple_shell_cr.A3.InodeStore.{Call, ◌>>=◌, ◌>>◌, pure, panic}

-- The calls of bitmap.c: `none` is BITMAP_ERROR. `bitmap_write` writes the bits to the free map's file, which
-- goes through the buffer cache.
pub record Bitmap (B : Type 0) : Type 0 where
  pub bitmap_scan_and_flip : B → (start cnt : ℕ) → Bool → Option ℕ × B
  pub bitmap_set_multiple : B → (start cnt : ℕ) → Bool → B
  pub bitmap_all : B → (start cnt : ℕ) → Bool
  pub bitmap_count : B → (start cnt : ℕ) → Bool → ℕ
  pub bitmap_size : B → ℕ
  pub bitmap_write : B → Sectors Bool

-- `struct inode`
pub record Inode : Type 0 where
  pub sector : ℕ
  pub open_cnt : ℕ
  pub removed : Bool
  pub deny_write_cnt : ℕ
  pub disk : InodeDisk

-- `free_map_file` is set where `has_file` is; inodes are at addresses in the heap.
pub record Disk (B : Type 0) : Type 0 where
  pub cache : Cache
  pub free_map : B
  pub has_file : Bool
  pub inodes : ℕ → Option Inode
  pub next_inode : ℕ
  pub open_inodes : List ℕ

module _ {B : Type 0} where
  abbrev pub on_cache : {A : Type 0} → Sectors A → Call (Disk B) A
  on_cache f s = elim (f s.cache) [ none ↦ none | some r ↦ some (r.0, record s { cache = r.1 }) ]

  abbrev pub get_map : Call (Disk B) B
  get_map s = some (s.free_map, s)

  abbrev pub set_map : B → Call (Disk B) (Unit {0})
  set_map b s = some (tt, record s { free_map = b })

  abbrev pub has_map_file : Call (Disk B) Bool
  has_map_file s = some (s.has_file, s)

module _ {B : Type 0} (lib : Bitmap B) where
  -- `num_free_sectors`
  unfoldable pub num_free_sectors : Call (Disk B) ℕ
  num_free_sectors = do b ← get_map; pure (lib.bitmap_count b 0 (lib.bitmap_size b) false)

  -- `bitmap_write(free_map, free_map_file)`, where there is a file; else the test before it fails
  unfoldable pub save_map : Call (Disk B) Bool
  save_map = do
    open_file ← has_map_file
    b ← get_map
    if open_file then on_cache (lib.bitmap_write b) else pure true

  -- `free_map_allocate(1, sectorp)`: the sector, if there is one
  unfoldable pub free_map_allocate : Call (Disk B) (Option ℕ)
  unfolding save_map
  free_map_allocate = do
    b ← get_map
    let (found, flipped) = lib.bitmap_scan_and_flip b 0 1 false
    set_map flipped
    elim found [
      | none ↦ pure none
      | some sector ↦ (do
        saved ← save_map
        if saved then pure (some sector) else (do
          now ← get_map
          set_map (lib.bitmap_set_multiple now sector 1 false)
          pure none))
    ]

  -- `free_map_release(sector, 1)`; without a file, the write goes through a null pointer
  unfoldable pub free_map_release : ℕ → Call (Disk B) (Unit {0})
  free_map_release sector = do
    b ← get_map
    if lib.bitmap_all b sector 1
        then (do
          set_map (lib.bitmap_set_multiple b sector 1 false)
          open_file ← has_map_file
          now ← get_map
          if open_file then (do on_cache (lib.bitmap_write now); pure tt) else panic)
        else panic

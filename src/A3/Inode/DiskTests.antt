-- ===== src/A3/Inode/DiskTests.antt =====
-- Runs over a disk with a bitmap of booleans and one open inode.
use ecse_427_simple_shell_cr.Base.{
  ℕ, zero, suc, ◌≡◌, refl, Bool, true, false, Option, none, some, List, [], ◌∷◌, ◌==◌,
  if◌then◌else◌, take, drop, replicate, length-replicate, pos, arith,
}
use ecse_427_simple_shell_cr.A3.Cache.{
  Block, buffer_cache_size, buffer_cache_init, buffer_cache_read, slot_of, buffer_cache_lookup,
  lookup_from, buffer_cache_evict, run_clock,
}
use ecse_427_simple_shell_cr.A3.Cache.Close.{buffer_cache_init-Represents}
use ecse_427_simple_shell_cr.A3.InodeStore.Laws.{View, Gives, set_view, overwrite}
use ecse_427_simple_shell_cr.A3.FreeMap.{Inode, Disk}
use ecse_427_simple_shell_cr.A3.Inode.Marked.{Grows}
use ecse_427_simple_shell_cr.A3.Inode.Lawful.{Holds, write_at-Holds}
use ecse_427_simple_shell_cr.A3.Inode.Sample.{
  sample, sample_view, sample-Holds, marked, bits, bits-IsBitmap, blank, raw,
}
use ecse_427_simple_shell_cr.A3.Inode.Grows.{inode_write_at-Grows}
use ecse_427_simple_shell_cr.A3.Inode.Open.{
  find_open, open_new, inode_open, read_at, inode_write_at,
}
use ecse_427_simple_shell_cr.A3.Inode.Store.{
  file_bytes, Shows, read_at-Shows, inode_open-inode_open,
}

inode_write_at-Grows_example : Grows marked (inode_write_at bits 0 (1 ∷ 2 ∷ []) 700)
inode_write_at-Grows_example = inode_write_at-Grows bits marked bits-IsBitmap 0 (1 ∷ 2 ∷ []) 700

-- every byte of a sector is the number of the sector
abbrev sectors : ℕ → Block
sectors s = replicate 512 s

abbrev file : Inode
file = record {
  sector = 3;
  open_cnt = 1;
  removed = false;
  deny_write_cnt = 0;
  disk = record {
    direct_blocks = 7 ∷ 9 ∷ replicate 121 0;
    indirect_block = 0;
    doubly_indirect_block = 0;
    is_dir = false;
    length = 600;
    magic = 1229868868;
  };
}

abbrev disk : Disk (List Bool)
disk = record {
  cache = buffer_cache_init (raw sectors);
  free_map = true ∷ true ∷ false ∷ [];
  has_file = true;
  inodes = λ p. if p == 0 then some file else none;
  next_inode = 1;
  open_inodes = 0 ∷ [];
}

abbrev one_file : View
one_file zero = some (file_bytes sectors file.disk)
one_file (suc p) = none

one_file-bytes :
    (p : ℕ) (bytes : List ℕ)
    → one_file p ≡ some bytes
    → (i : Inode) × (disk.inodes p ≡ some i) × (bytes ≡ file_bytes sectors i.disk)
one_file-bytes zero bytes e =
    let same : file_bytes sectors file.disk ≡ bytes = cc in (file, refl, cc)
one_file-bytes (suc p) bytes e = cc

disk-Shows : Shows disk one_file
disk-Shows = record {
  contents = sectors;
  sized = λ s. length-replicate 512 s;
  represents =
      buffer_cache_init-Represents (raw sectors) (length-replicate buffer_cache_size blank)
        (omega arith);
  files = one_file-bytes;
}

read_at-Shows_example :
    Gives Shows
      (read_at bits 0 (pos 5) 510)
      disk
      one_file
      (take 5 (drop 510 (file_bytes sectors file.disk)))
read_at-Shows_example =
    read_at-Shows bits 0 5 510 (file_bytes sectors file.disk) disk one_file disk-Shows refl

-- the inode of a sector that is not open
abbrev after_open : Option (ℕ × Disk (List Bool))
after_open = inode_open bits 9 disk

abbrev opened : Disk (List Bool)
opened = elim after_open [ none ↦ disk | some r ↦ r.1 ]

opens : inode_open bits 9 disk ≡ some (1, opened)
unfolding inode_open open_new find_open buffer_cache_read slot_of buffer_cache_lookup lookup_from
    buffer_cache_init buffer_cache_evict run_clock
opens = refl

inode_open-inode_open_example : inode_open bits 9 opened ≡ some (1, opened)
inode_open-inode_open_example = inode_open-inode_open bits 9 1 disk opened opens

abbrev digits : List ℕ
digits = 1 ∷ 2 ∷ 3 ∷ 4 ∷ []

write_at-Holds_example :
    Gives Holds
      (inode_write_at bits 5 (8 ∷ 9 ∷ []) 1)
      (sample 5 digits)
      (set_view (sample_view 5 digits) 5 (overwrite digits 1 (8 ∷ 9 ∷ [])))
      2
write_at-Holds_example =
    write_at-Holds bits 5 1 (8 ∷ 9 ∷ []) digits (sample 5 digits) (sample_view 5 digits)
      (sample-Holds 5 digits (omega arith)) refl (omega arith) (omega arith)

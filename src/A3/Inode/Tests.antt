-- ===== src/A3/Inode/Tests.antt =====
-- Runs over a file of two sectors.
use ecse_427_simple_shell_cr.Base.{
  ℕ, zero, suc, ◌/◌, ◌<◌, ◌≤◌, ◌≡◌, ◌⊎◌, refl, false, [], ◌∷◌, replicate, length-replicate, pos,
  arith,
}
use ecse_427_simple_shell_cr.A3.Cache.{Block, Entry, Cache, buffer_cache_size, buffer_cache_init}
use ecse_427_simple_shell_cr.A3.Cache.Represents.{Represents}
use ecse_427_simple_shell_cr.A3.Cache.Close.{buffer_cache_init-Represents}
use ecse_427_simple_shell_cr.A3.Inode.{
  InodeDisk, ◌>>=◌, entry, bytes_to_sectors, index_to_sector, collect, get_inode_data_sectors,
  inode_read_at,
}
use ecse_427_simple_shell_cr.A3.Inode.Sectors.{Gives, sector_at}
use ecse_427_simple_shell_cr.A3.Inode.DataSectors.{get_inode_data_sectors-index_to_sector}
use ecse_427_simple_shell_cr.A3.Inode.Write.{write_loop}
use ecse_427_simple_shell_cr.A3.Inode.WriteBack.{Layout}
use ecse_427_simple_shell_cr.A3.Inode.RoundTrip.{
  direct-Laid, direct-Layout, inode_read_at-write_loop,
}
use ecse_427_simple_shell_cr.A3.Inode.Read.{file_byte, inode_read_at-file_byte}

-- every byte of a sector is the number of the sector
abbrev disk : ℕ → Block
disk s = replicate 512 s

abbrev blank : Entry
blank = record { occupied = false; disk_sector = 0; buffer = []; dirty = false; access = false }

abbrev raw : Cache
raw = record { entries = replicate buffer_cache_size blank; clock = 0; device = disk }

started-Represents : Represents (buffer_cache_init raw) disk
started-Represents =
    buffer_cache_init-Represents raw (length-replicate buffer_cache_size blank) (omega arith)

abbrev file : InodeDisk
file = record {
  direct_blocks = 7 ∷ 9 ∷ replicate 121 0;
  indirect_block = 0;
  doubly_indirect_block = 0;
  is_dir = false;
  length = 600;
  magic = 1229868868;
}

two_sectors : bytes_to_sectors 600 ≤ 16635
unfolding bytes_to_sectors
two_sectors = omega arith

get_inode_data_sectors-index_to_sector_example :
    Gives
      (get_inode_data_sectors file)
      (buffer_cache_init raw)
      disk
      (collect (sector_at disk file) (bytes_to_sectors 600) 0)
    × ((i : ℕ)
        → Gives (index_to_sector file i) (buffer_cache_init raw) disk (sector_at disk file i))
get_inode_data_sectors-index_to_sector_example =
    get_inode_data_sectors-index_to_sector disk file (buffer_cache_init raw) started-Represents
      two_sectors

-- five bytes over the end of the first sector
inode_read_at-file_byte_example :
    Gives
      (inode_read_at file (pos 5) 510)
      (buffer_cache_init raw)
      disk
      (collect (file_byte disk file) 5 510)
inode_read_at-file_byte_example =
    inode_read_at-file_byte disk file (λ s. length-replicate 512 s) 5 510 (buffer_cache_init raw)
      started-Represents

-- the sectors of the file are apart
file_apart :
    (i j : ℕ) → i < 2 → j < 2 → entry file.direct_blocks i ≡ entry file.direct_blocks j → i ≡ j
unfolding entry
file_apart zero zero hi hj e = refl
file_apart zero (suc zero) hi hj e = absurd (omega arith)
file_apart zero (suc (suc j)) hi hj e = absurd (omega arith)
file_apart (suc zero) zero hi hj e = absurd (omega arith)
file_apart (suc zero) (suc zero) hi hj e = refl
file_apart (suc zero) (suc (suc j)) hi hj e = absurd (omega arith)
file_apart (suc (suc i)) j hi hj e = absurd (omega arith)

file-Layout : Layout file (entry file.direct_blocks)
file-Layout =
    direct-Layout file (omega arith)
      (λ p q lp lq e. file_apart (p / 512) (q / 512) (omega arith) (omega arith) e)

-- three bytes over the end of the first sector
inode_read_at-write_loop_example :
    (m' : ℕ → Block) × Gives
      (write_loop file 4 3 510 (1 ∷ 2 ∷ 3 ∷ []) >>= λ n. inode_read_at file (pos n) 510)
      (buffer_cache_init raw)
      m'
      (1 ∷ 2 ∷ 3 ∷ [])
    × ((p : ℕ) → p < 600 → (p < 510) ⊎ (513 ≤ p) → file_byte m' file p ≡ file_byte disk file p)
inode_read_at-write_loop_example =
    inode_read_at-write_loop file (entry file.direct_blocks) file-Layout 3 510 (1 ∷ 2 ∷ 3 ∷ []) disk
      (buffer_cache_init raw) (omega arith) (omega arith)
      (direct-Laid file (omega arith) disk (λ s. length-replicate 512 s)) started-Represents

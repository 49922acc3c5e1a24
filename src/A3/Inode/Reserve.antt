-- ===== src/A3/Inode/Reserve.antt =====
-- The sectors that a3/fs/inode.c takes from the free map and gives back to it.
use ecse_427_simple_shell_cr.Base.{
  ℕ, zero, suc, ◌+◌, ◌-◌, ◌*◌, ◌/◌, Bool, true, false, none, some, List, [], ◌∷◌, ◌++◌, ◌==◌,
  if◌then◌else◌, replicate, ℤ, pos, negsuc,
}
use ecse_427_simple_shell_cr.A3.Cache.{Block, buffer_cache_read}
use ecse_427_simple_shell_cr.A3.InodeStore.{Call, ◌>>=◌, ◌>>◌, pure, panic}
use ecse_427_simple_shell_cr.A3.Directory.{bytes_of_word}
use ecse_427_simple_shell_cr.A3.FreeMap.{
  Bitmap, Disk, on_cache, free_map_allocate, free_map_release,
}
use ecse_427_simple_shell_cr.A3.Inode.{
  InodeDisk, direct_blocks_count, indirect_blocks_per_sector, block_sector_size, word_at,
  bytes_to_sectors, min, collect,
}
use ecse_427_simple_shell_cr.A3.Inode.Write.{write_sector}

abbrev pub zeros : Block
zeros = replicate block_sector_size 0

-- `struct inode_indirect_block_sector` as its 128 numbers, and as the bytes of a sector
unfoldable pub blocks_of : Block → List ℕ
unfolding word_at collect
blocks_of b = collect (word_at b) indirect_blocks_per_sector 0

unfoldable pub bytes_of_blocks : List ℕ → Block
unfolding bytes_of_word
bytes_of_blocks [] = []
bytes_of_blocks (x ∷ xs) = bytes_of_word x ++ bytes_of_blocks xs

-- `level == 1 ? 1 : INDIRECT_BLOCKS_PER_SECTOR`
abbrev pub unit_at : ℕ → ℕ
unit_at level = if level == 1 then 1 else indirect_blocks_per_sector

unfoldable pub div_round_up : ℕ → ℕ → ℕ
div_round_up x step = (x + (step - 1)) / step

-- a number in an array of entries, set by the call, and whether the call went well
abbrev pub Filled : Type 0 → Type 0
Filled A = Bool × A

-- The loop of `inode_reserve_indirect` over the entries of a block, a round for each of the first ones.
-- After a call that fails, the loop ends.
unfoldable pub reserve_loop :
    {S : Type 0}
    → (ℕ → ℕ → Call S (Filled ℕ))
    → (unit rounds num_sectors : ℕ) → List ℕ
    → Call S (Filled (List ℕ))
reserve_loop reserve unit zero num_sectors blocks =
    if num_sectors == 0 then pure (true, blocks) else panic
reserve_loop reserve unit (suc n) num_sectors [] = panic
reserve_loop reserve unit (suc n) num_sectors (entry ∷ blocks) = do
  let subsize = min num_sectors unit
  r ← reserve entry subsize
  if r.0
      then (do
        rest ← reserve_loop reserve unit n (num_sectors - subsize) blocks
        pure (rest.0, r.1 ∷ rest.1))
      else pure (false, r.1 ∷ blocks)

unfoldable pub deallocate_loop :
    {S : Type 0}
    → (ℕ → ℕ → Call S (Unit {0}))
    → (unit rounds num_sectors : ℕ) → List ℕ
    → Call S (Unit {0})
deallocate_loop deallocate unit zero num_sectors blocks =
    if num_sectors == 0 then pure tt else panic
deallocate_loop deallocate unit (suc n) num_sectors [] = panic
deallocate_loop deallocate unit (suc n) num_sectors (entry ∷ blocks) = do
  let subsize = min num_sectors unit
  deallocate entry subsize
  deallocate_loop deallocate unit n (num_sectors - subsize) blocks

module _ {B : Type 0} (lib : Bitmap B) where
  -- `if (*p_entry == 0) { allocate it and fill it with zeros }`: whether it has a sector, and the entry
  unfoldable pub reserve_entry : ℕ → Call (Disk B) (Filled ℕ)
  unfolding free_map_allocate
  reserve_entry entry =
      if entry == 0
      then (do
        found ← free_map_allocate lib
        elim found [
          | none ↦ pure (false, 0)
          | some sector ↦ (do on_cache (write_sector sector zeros); pure (true, sector))
        ])
      else pure (true, entry)

  -- The same for an index block, where a sector that was not found is not noticed: the zeros go to sector 0.
  unfoldable pub reserve_index : ℕ → Call (Disk B) ℕ
  unfolding free_map_allocate
  reserve_index entry =
      if entry == 0
      then (do
        found ← free_map_allocate lib
        let sector : ℕ = elim found [ none ↦ 0 | some x ↦ x ]
        on_cache (write_sector sector zeros)
        pure sector)
      else pure entry

  -- `inode_reserve_indirect`, by the level
  unfoldable pub inode_reserve_indirect : (level entry num_sectors : ℕ) → Call (Disk B) (Filled ℕ)
  unfolding reserve_entry reserve_index reserve_loop blocks_of bytes_of_blocks div_round_up
  inode_reserve_indirect zero entry num_sectors = reserve_entry entry
  inode_reserve_indirect (suc level) entry num_sectors = do
    sector ← reserve_index entry
    block ← on_cache (buffer_cache_read sector)
    let unit = unit_at (suc level)
    r ←
        reserve_loop (inode_reserve_indirect level) unit (div_round_up num_sectors unit) num_sectors
          (blocks_of block)
    if r.0
        then (do on_cache (write_sector sector (bytes_of_blocks r.1)); pure (true, sector))
        else pure (false, sector)

  -- the loop of `inode_reserve` over the direct blocks
  unfoldable pub reserve_direct : (count : ℕ) → List ℕ → Call (Disk B) (Filled (List ℕ))
  unfolding reserve_entry
  reserve_direct zero blocks = pure (true, blocks)
  reserve_direct (suc n) [] = panic
  reserve_direct (suc n) (entry ∷ blocks) = do
    r ← reserve_entry entry
    if r.0
        then (do rest ← reserve_direct n blocks; pure (rest.0, r.1 ∷ rest.1))
        else pure (false, r.1 ∷ blocks)

  -- the parts (2) and (3) of `inode_reserve`
  unfoldable pub reserve_doubly : InodeDisk → (num_sectors : ℕ) → Call (Disk B) (Filled InodeDisk)
  unfolding inode_reserve_indirect
  reserve_doubly idisk num_sectors = do
    let l = min num_sectors (indirect_blocks_per_sector * indirect_blocks_per_sector)
    r ← inode_reserve_indirect 2 idisk.doubly_indirect_block l
    let idisk' = record idisk { doubly_indirect_block = r.1 }
    if r.0
        then (if num_sectors - l == 0 then pure (true, idisk') else panic)
        else pure (false, idisk')

  unfoldable pub reserve_indirect : InodeDisk → (num_sectors : ℕ) → Call (Disk B) (Filled InodeDisk)
  unfolding inode_reserve_indirect reserve_doubly
  reserve_indirect idisk num_sectors = do
    let l = min num_sectors indirect_blocks_per_sector
    r ← inode_reserve_indirect 1 idisk.indirect_block l
    let idisk' = record idisk { indirect_block = r.1 }
    if r.0
        then (if num_sectors - l == 0
            then pure (true, idisk')
            else reserve_doubly idisk' (num_sectors - l))
        else pure (false, idisk')

  -- `inode_reserve`: whether it went well, and the inode with its new sectors
  unfoldable pub inode_reserve : InodeDisk → (length : ℤ) → Call (Disk B) (Filled InodeDisk)
  unfolding bytes_to_sectors reserve_direct reserve_indirect
  inode_reserve idisk (negsuc n) = pure (false, idisk)
  inode_reserve idisk (pos length) = do
    let num_sectors = bytes_to_sectors length
    let l = min num_sectors direct_blocks_count
    r ← reserve_direct l idisk.direct_blocks
    let idisk' = record idisk { direct_blocks = r.1 }
    if r.0
        then (if num_sectors - l == 0
            then pure (true, idisk')
            else reserve_indirect idisk' (num_sectors - l))
        else pure (false, idisk')

  -- `inode_deallocate_indirect`, by the level
  unfoldable pub inode_deallocate_indirect :
      (level entry num_sectors : ℕ) → Call (Disk B) (Unit {0})
  unfolding free_map_release deallocate_loop blocks_of div_round_up
  inode_deallocate_indirect zero entry num_sectors = free_map_release lib entry
  inode_deallocate_indirect (suc level) entry num_sectors = do
    block ← on_cache (buffer_cache_read entry)
    let unit = unit_at (suc level)
    deallocate_loop (inode_deallocate_indirect level) unit (div_round_up num_sectors unit)
        num_sectors (blocks_of block)
    free_map_release lib entry

  -- the loop of `inode_deallocate` over the direct blocks
  unfoldable pub release_direct : (count : ℕ) → List ℕ → Call (Disk B) (Unit {0})
  unfolding free_map_release
  release_direct zero blocks = pure tt
  release_direct (suc n) [] = panic
  release_direct (suc n) (entry ∷ blocks) = do free_map_release lib entry; release_direct n blocks

  -- `inode_deallocate` of a length that is not negative
  unfoldable pub inode_deallocate : InodeDisk → Call (Disk B) (Unit {0})
  unfolding bytes_to_sectors release_direct inode_deallocate_indirect
  inode_deallocate idisk = do
    let n = bytes_to_sectors idisk.length
    let l1 = min n direct_blocks_count
    let n1 = n - l1
    let l2 = min n1 indirect_blocks_per_sector
    let n2 = n1 - l2
    let l3 = min n2 (indirect_blocks_per_sector * indirect_blocks_per_sector)
    release_direct l1 idisk.direct_blocks
    (if l2 == 0 then pure tt else inode_deallocate_indirect 1 idisk.indirect_block l2)
    (if l3 == 0 then pure tt else inode_deallocate_indirect 2 idisk.doubly_indirect_block l3)
    if n2 - l3 == 0 then pure tt else panic

-- ===== src/A3/Inode.antt =====
-- a3/fs/inode.c: the sectors of a file, and the reading of its bytes, over the buffer cache. Array indices
-- that the code keeps in range are read by `entry`, which is 0 out of range.
pub mod Sectors
pub mod DataSectors
pub mod Read
pub mod Write
pub mod Overlay
pub mod Chunks
pub mod WriteBack
pub mod RoundTrip
pub mod Reserve
pub mod Open
pub mod Store
pub mod Written
pub mod Lawful
pub mod Sample
pub mod Marked
pub mod Reserved
pub mod Grows
mod Tests
mod DiskTests
use ecse_427_simple_shell_cr.Base.{
  ℕ, zero, suc, ◌+◌, ◌-◌, ◌*◌, ◌/◌, ◌%◌, Bool, true, false, Option, none, some, List, [], ◌∷◌, ◌++◌,
  ltb, ◌==◌, if◌then◌else◌, take, drop, ℤ, pos, negsuc,
}
use ecse_427_simple_shell_cr.A3.Cache.{Block, Cache, buffer_cache_read}

-- A call over the cache; `none` is a panic, or no fuel.
abbrev pub Sectors : Type 0 → Type 0
Sectors A = Cache → Option (A × Cache)

module _ {A B : Type 0} where
  infixl 5 ◌>>=◌
  abbrev pub ◌>>=◌ : Sectors A → (A → Sectors B) → Sectors B
  m >>= f = λ c. elim (m c) [ none ↦ none | some r ↦ f r.0 r.1 ]

abbrev pub pure : {A : Type 0} → A → Sectors A
pure a c = some (a, c)

abbrev pub direct_blocks_count : ℕ
direct_blocks_count = 123

abbrev pub indirect_blocks_per_sector : ℕ
indirect_blocks_per_sector = 128

abbrev pub block_sector_size : ℕ
block_sector_size = 512

-- `struct inode_disk`; its length is not negative, and `direct_blocks` has 123 entries.
pub record InodeDisk : Type 0 where
  pub direct_blocks : List ℕ
  pub indirect_block : ℕ
  pub doubly_indirect_block : ℕ
  pub is_dir : Bool
  pub length : ℕ
  pub magic : ℕ

unfoldable pub entry : List ℕ → ℕ → ℕ
entry [] i = 0
entry (x ∷ xs) zero = x
entry (x ∷ xs) (suc i) = entry xs i

-- `blocks[i]` of a sector of numbers of four bytes, the least first
unfoldable pub word_at : Block → ℕ → ℕ
word_at b i =
    entry b (i * 4)
    + 256 * entry b (i * 4 + 1)
    + 65536 * entry b (i * 4 + 2)
    + 16777216 * entry b (i * 4 + 3)

-- `bytes_to_sectors` of a size that is not negative
unfoldable pub bytes_to_sectors : ℕ → ℕ
bytes_to_sectors size = (size + (block_sector_size - 1)) / block_sector_size

abbrev pub min : ℕ → ℕ → ℕ
min a b = if ltb a b then a else b

-- -1 as a `block_sector_t`
abbrev pub no_sector : ℕ
no_sector = 4294967295

-- `index_to_sector`
unfoldable pub index_to_sector : InodeDisk → ℕ → Sectors ℕ
index_to_sector idisk index =
    if ltb index direct_blocks_count
    then pure (entry idisk.direct_blocks index)
    else if ltb index (direct_blocks_count + indirect_blocks_per_sector)
    then (do
      blocks ← buffer_cache_read idisk.indirect_block
      pure (word_at blocks (index - direct_blocks_count)))
    else if ltb index (
        direct_blocks_count
        + indirect_blocks_per_sector
        + indirect_blocks_per_sector * indirect_blocks_per_sector)
    then (do
      let rest = index - (direct_blocks_count + indirect_blocks_per_sector)
      first ← buffer_cache_read idisk.doubly_indirect_block
      second ← buffer_cache_read (word_at first (rest / indirect_blocks_per_sector))
      pure (word_at second (rest % indirect_blocks_per_sector)))
    else pure no_sector

-- `byte_to_sector`
unfoldable pub byte_to_sector : InodeDisk → ℤ → Sectors ℕ
byte_to_sector idisk (negsuc n) = pure no_sector
byte_to_sector idisk (pos n) =
    if ltb n idisk.length then index_to_sector idisk (n / block_sector_size) else pure no_sector

-- `for (i = ...; ...; ++i) sectors[cur_i++] = f(i);`, so many rounds
unfoldable pub collect : (ℕ → ℕ) → (count i : ℕ) → List ℕ
collect f zero i = []
collect f (suc n) i = f i ∷ collect f n (i + 1)

-- The outer loop over the doubly indirect block, from the round `i` on; `num` is `num_sectors2`.
unfoldable pub doubly_from : Block → (rounds i num : ℕ) → Sectors (List ℕ)
unfolding collect
doubly_from blocks zero i num = pure []
doubly_from blocks (suc n) i num = do
  let subsize = min num indirect_blocks_per_sector
  second ← buffer_cache_read (word_at blocks i)
  rest ← doubly_from blocks n (i + 1) (num - subsize)
  pure (collect (word_at second) subsize 0 ++ rest)

-- parts (2) and (3) of `get_inode_data_sectors`, which are left out where no sector is left
unfoldable pub indirect_sectors : InodeDisk → ℕ → Sectors (List ℕ)
unfolding collect
indirect_sectors idisk l =
    if l == 0
    then pure []
    else (do blocks ← buffer_cache_read idisk.indirect_block; pure (collect (word_at blocks) l 0))

unfoldable pub doubly_sectors : InodeDisk → ℕ → Sectors (List ℕ)
unfolding doubly_from
doubly_sectors idisk l = if l == 0 then pure [] else (do
  blocks ← buffer_cache_read idisk.doubly_indirect_block
  doubly_from blocks ((l + (indirect_blocks_per_sector - 1)) / indirect_blocks_per_sector) 0 l)

-- `get_inode_data_sectors`: a file with more sectors than an inode can have fails the last assertion.
unfoldable pub get_inode_data_sectors : InodeDisk → Sectors (List ℕ)
unfolding collect indirect_sectors doubly_sectors
get_inode_data_sectors idisk = do
  let n = bytes_to_sectors idisk.length
  let l1 = min n direct_blocks_count
  let n1 = n - l1
  let l2 = min n1 indirect_blocks_per_sector
  let n2 = n1 - l2
  let l3 = min n2 (indirect_blocks_per_sector * indirect_blocks_per_sector)
  indirect ← indirect_sectors idisk l2
  doubly ← doubly_sectors idisk l3
  if n2 - l3 == 0
      then pure (collect (entry idisk.direct_blocks) l1 0 ++ (indirect ++ doubly))
      else (λ _. none)

-- The loop of `inode_read_at` on fuel, a round for each chunk: the bytes that go to the buffer. The test
-- `sector_idx < 0` of an unsigned number is false. A whole sector is read to the buffer directly, which
-- gives the same bytes.
unfoldable pub read_loop : InodeDisk → (fuel size offset : ℕ) → Sectors (List ℕ)
read_loop idisk zero size offset = λ _. none
read_loop idisk (suc fuel) size offset =
    let sector_ofs = offset % block_sector_size in
    let min_left = min (idisk.length - offset) (block_sector_size - sector_ofs) in
    let chunk_size = min size min_left in
    elim (size == 0) [
      | true ↦ pure []
      | false ↦ (do
        sector_idx ← byte_to_sector idisk (pos offset)
        elim (chunk_size == 0) [
          | true ↦ pure []
          | false ↦ (do
            bounce ← buffer_cache_read sector_idx
            rest ← read_loop idisk fuel (size - chunk_size) (offset + chunk_size)
            pure (take chunk_size (drop sector_ofs bounce) ++ rest))
        ])
    ]

-- `inode_read_at` of an offset that is not negative: a size that is not positive reads nothing.
unfoldable pub inode_read_at : InodeDisk → (size : ℤ) → (offset : ℕ) → Sectors (List ℕ)
inode_read_at idisk (negsuc n) offset = pure []
inode_read_at idisk (pos size) offset = read_loop idisk (size + 1) size offset

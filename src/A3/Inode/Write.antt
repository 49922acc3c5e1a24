-- ===== src/A3/Inode/Write.antt =====
-- The writing of bytes that a file has already, in `inode_write_at` of a3/fs/inode.c.
use ecse_427_simple_shell_cr.Base.{
  ℕ, zero, suc, ◌+◌, ◌-◌, ◌%◌, true, false, ◌&&◌, ◌||◌, none, some, List, ◌++◌, ltb, ◌==◌,
  if◌then◌else◌, take, drop, replicate, pos,
}
use ecse_427_simple_shell_cr.A3.Cache.{Block, buffer_cache_read, buffer_cache_write}
use ecse_427_simple_shell_cr.A3.Inode.{
  Sectors, ◌>>=◌, pure, min, block_sector_size, InodeDisk, byte_to_sector,
}

unfoldable pub write_sector : ℕ → Block → Sectors (Unit {0})
write_sector sector source c = elim (buffer_cache_write sector source c) [
  | none ↦ none
  | some c' ↦ some (tt, c')
]

-- `memcpy(bounce + sector_ofs, buffer, chunk_size)`
unfoldable pub overlay : (sector_ofs chunk_size : ℕ) → (bounce buffer : List ℕ) → Block
overlay sector_ofs chunk_size bounce buffer =
    take sector_ofs bounce ++ (take chunk_size buffer ++ drop (sector_ofs + chunk_size) bounce)

-- A chunk goes to its sector, a whole sector directly.
unfoldable pub write_chunk : (sector sector_ofs chunk_size : ℕ) → List ℕ → Sectors (Unit {0})
unfolding write_sector overlay
write_chunk sector sector_ofs chunk_size buffer =
    if (sector_ofs == 0) && (chunk_size == block_sector_size)
    then write_sector sector (take block_sector_size buffer)
    else (do
      bounce ←
          (if ltb 0 sector_ofs || ltb chunk_size (block_sector_size - sector_ofs)
            then buffer_cache_read sector
            else pure (replicate block_sector_size 0))
      write_sector sector (overlay sector_ofs chunk_size bounce buffer))

-- The loop on fuel, a round for each chunk: how many bytes are written. `buffer` is what is left of it.
unfoldable pub write_loop : InodeDisk → (fuel size offset : ℕ) → (buffer : List ℕ) → Sectors ℕ
unfolding write_chunk
write_loop idisk zero size offset buffer = λ _. none
write_loop idisk (suc fuel) size offset buffer =
    let sector_ofs = offset % block_sector_size in
    let min_left = min (idisk.length - offset) (block_sector_size - sector_ofs) in
    let chunk_size = min size min_left in
    elim (size == 0) [
      | true ↦ pure 0
      | false ↦ (do
        sector_idx ← byte_to_sector idisk (pos offset)
        elim (chunk_size == 0) [
          | true ↦ pure 0
          | false ↦ (do
            _ ← write_chunk sector_idx sector_ofs chunk_size buffer
            rest ←
                write_loop idisk fuel (size - chunk_size) (offset + chunk_size)
                  (drop chunk_size buffer)
            pure (chunk_size + rest))
        ])
    ]

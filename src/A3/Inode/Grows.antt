-- ===== src/A3/Inode/Grows.antt =====
-- The free map of a3/fs under the functions of inode.c that take sectors from it.
use ecse_427_simple_shell_cr.Base.{
  ℕ, ◌+◌, ◌-◌, ◌*◌, Bool, true, false, Option, none, some, List, ◌==◌, if◌then◌else◌, ltb, length,
  ℤ, pos, negsuc,
}
use ecse_427_simple_shell_cr.A3.InodeStore.{pure}
use ecse_427_simple_shell_cr.A3.FreeMap.{Bitmap, Inode, Disk, on_cache}
use ecse_427_simple_shell_cr.A3.Inode.{
  InodeDisk, min, direct_blocks_count, indirect_blocks_per_sector, bytes_to_sectors, byte_to_sector,
  no_sector,
}
use ecse_427_simple_shell_cr.A3.Inode.Write.{write_sector, write_loop}
use ecse_427_simple_shell_cr.A3.Inode.Reserve.{
  inode_reserve_indirect, reserve_direct, reserve_doubly, reserve_indirect, inode_reserve,
}
use ecse_427_simple_shell_cr.A3.Inode.Open.{
  get_inode, put_inode, bytes_of_inode_disk, last_byte, extend, inode_write_at,
}
use ecse_427_simple_shell_cr.A3.Inode.Reserved.{inode_reserve_indirect-Grows, reserve_direct-Grows}
use ecse_427_simple_shell_cr.A3.Inode.Marked.{
  IsBitmap, Grown, Grows, bind-Grows, pure-Grows, panic-Grows, if-Grows, on_cache-Grows,
}

module _ {B : Type 0} (lib : Bitmap B) (marked : B → ℕ → Bool) (laws : IsBitmap lib marked) where
  reserve_doubly-Grows : (idisk : InodeDisk) (n : ℕ) → Grows marked (reserve_doubly lib idisk n)
  unfolding reserve_doubly
  reserve_doubly-Grows idisk n =
      let l = min n (indirect_blocks_per_sector * indirect_blocks_per_sector) in
      bind-Grows marked (inode_reserve_indirect lib 2 idisk.doubly_indirect_block l) _
        (inode_reserve_indirect-Grows lib marked laws 2 idisk.doubly_indirect_block l)
        λ r.
          if-Grows marked r.0 _ _
            (if-Grows marked (n - l == 0) _ _
              (pure-Grows marked (true, record idisk { doubly_indirect_block = r.1 }))
              (panic-Grows marked))
            (pure-Grows marked (false, record idisk { doubly_indirect_block = r.1 }))

  reserve_indirect-Grows : (idisk : InodeDisk) (n : ℕ) → Grows marked (reserve_indirect lib idisk n)
  unfolding reserve_indirect
  reserve_indirect-Grows idisk n =
      let l = min n indirect_blocks_per_sector in
      bind-Grows marked (inode_reserve_indirect lib 1 idisk.indirect_block l) _
        (inode_reserve_indirect-Grows lib marked laws 1 idisk.indirect_block l)
        λ r.
          if-Grows marked r.0 _ _
            (if-Grows marked (n - l == 0) _ _
              (pure-Grows marked (true, record idisk { indirect_block = r.1 }))
              (reserve_doubly-Grows (record idisk { indirect_block = r.1 }) (n - l)))
            (pure-Grows marked (false, record idisk { indirect_block = r.1 }))

  inode_reserve-Grows :
      (idisk : InodeDisk) (length : ℤ) → Grows marked (inode_reserve lib idisk length)
  unfolding inode_reserve
  inode_reserve-Grows idisk (negsuc n) = pure-Grows marked (false, idisk)
  inode_reserve-Grows idisk (pos n) =
      let l = min (bytes_to_sectors n) direct_blocks_count in
      bind-Grows marked (reserve_direct lib l idisk.direct_blocks) _
        (reserve_direct-Grows lib marked laws l idisk.direct_blocks)
        λ r.
          if-Grows marked r.0 _ _
            (if-Grows marked (bytes_to_sectors n - l == 0) _ _
              (pure-Grows marked (true, record idisk { direct_blocks = r.1 }))
              (reserve_indirect-Grows (record idisk { direct_blocks = r.1 })
                (bytes_to_sectors n - l)))
            (pure-Grows marked (false, record idisk { direct_blocks = r.1 }))

  get_inode-Grown :
      (s : Disk B) (r : Option Inode)
      → Grown marked s
          (elim r as (λ _. Option (Inode × Disk B)) [ none ↦ none | some i ↦ some (i, s) ])
  get_inode-Grown s none = tt
  get_inode-Grown s (some i) = λ j t. t

  get_inode-Grows : (p : ℕ) → Grows marked (get_inode p)
  get_inode-Grows p = record { at = λ s. get_inode-Grown s (s.inodes p) }

  put_inode-Grows : (p : ℕ) (i : Option Inode) → Grows marked (put_inode p i)
  put_inode-Grows p i = record { at = λ s j t. t }

  extend-Grows : (p length : ℕ) → Grows marked (extend lib p length)
  unfolding extend
  extend-Grows p n = bind-Grows marked (get_inode p) _ (get_inode-Grows p) λ i.
      bind-Grows marked (inode_reserve lib i.disk (pos n)) _ (inode_reserve-Grows i.disk (pos n))
        λ r.
          if-Grows marked r.0 _ _
            (let grown : InodeDisk = record r.1 { length = n } in
              bind-Grows marked (put_inode p (some (record i { disk = grown }))) _
                (put_inode-Grows p (some (record i { disk = grown })))
                λ _.
                  bind-Grows marked (on_cache (write_sector i.sector (bytes_of_inode_disk grown))) _
                    (on_cache-Grows marked (write_sector i.sector (bytes_of_inode_disk grown)))
                    λ _. pure-Grows marked true)
            (bind-Grows marked (put_inode p (some (record i { disk = r.1 }))) _
              (put_inode-Grows p (some (record i { disk = r.1 }))) λ _. pure-Grows marked false)

  -- With a bitmap as it is documented, `inode_write_at` of an open inode, whether it has to extend the
  -- file or not, leaves every sector marked that was marked before, where it returns.
  pub inode_write_at-Grows :
      (p : ℕ) (buffer : List ℕ) (offset : ℕ) → Grows marked (inode_write_at lib p buffer offset)
  unfolding inode_write_at
  inode_write_at-Grows p buffer offset = bind-Grows marked (get_inode p) _ (get_inode-Grows p) λ i.
      if-Grows marked (ltb 0 i.deny_write_cnt) _ _ (pure-Grows marked 0) (
        bind-Grows marked (on_cache (byte_to_sector i.disk (last_byte offset (length buffer)))) _
          (on_cache-Grows marked (byte_to_sector i.disk (last_byte offset (length buffer))))
          λ last.
            bind-Grows marked
              (if last == no_sector then extend lib p (offset + length buffer) else pure true) _
              (if-Grows marked (last == no_sector) _ _ (extend-Grows p (offset + length buffer))
                (pure-Grows marked true))
              λ ready.
                if-Grows marked ready _ _
                  (bind-Grows marked (get_inode p) _ (get_inode-Grows p) λ now.
                    on_cache-Grows marked
                      (write_loop now.disk (length buffer + 1) (length buffer) offset buffer))
                  (pure-Grows marked 0))

-- ===== src/A3/Inode/Reserved.antt =====
-- The free map of a3/fs under the functions of inode.c that reserve sectors one by one.
use ecse_427_simple_shell_cr.Base.{
  ℕ, zero, suc, ◌-◌, ◌≡◌, refl, ap, ◌∙◌, Bool, true, false, Option, none, some, List, [], ◌∷◌, ◌==◌,
  if◌then◌else◌,
}
use ecse_427_simple_shell_cr.A3.Cache.{Cache, buffer_cache_read}
use ecse_427_simple_shell_cr.A3.InodeStore.{Call, ◌>>=◌, ◌>>◌, pure}
use ecse_427_simple_shell_cr.A3.FreeMap.{
  Bitmap, Disk, on_cache, get_map, set_map, save_map, free_map_allocate,
}
use ecse_427_simple_shell_cr.A3.Inode.{min}
use ecse_427_simple_shell_cr.A3.Inode.Write.{write_sector}
use ecse_427_simple_shell_cr.A3.Inode.Reserve.{
  Filled, zeros, blocks_of, bytes_of_blocks, unit_at, div_round_up, reserve_loop, reserve_entry,
  reserve_index, inode_reserve_indirect, reserve_direct,
}
use ecse_427_simple_shell_cr.A3.Inode.Marked.{
  IsBitmap, Grown, Grows, bind-Grows, option-Grows, pure-Grows, panic-Grows, if-Grows,
  on_cache-Grows,
}

module _ {B : Type 0} (lib : Bitmap B) (marked : B → ℕ → Bool) (laws : IsBitmap lib marked) where
  -- a result that leaves the free map as it was
  abbrev Same : Disk B → Option (Bool × Disk B) → Type 0
  Same s none = Unit {0}
  Same s (some q) = q.1.free_map ≡ s.free_map

  cache-Same :
      (s : Disk B) (r : Option (Bool × Cache))
      → Same s (elim r as (λ _. Option (Bool × Disk B)) [
        | none ↦ none
        | some p ↦ some (p.0, record s { cache = p.1 })
      ])
  cache-Same s none = tt
  cache-Same s (some p) = refl

  choice-Same :
      (c : Bool) (f : Cache → Option (Bool × Cache)) (s : Disk B)
      → Same s ((if c then on_cache f else pure true) s)
  choice-Same true f s = cache-Same s (f s.cache)
  choice-Same false f s = refl

  save_map-Same : (s : Disk B) → Same s (save_map lib s)
  unfolding save_map
  save_map-Same s = choice-Same s.has_file (lib.bitmap_write s.free_map) s

  -- the end of `free_map_allocate` for a sector that was found
  saved-Grown :
      (sector : ℕ) (s s1 : Disk B) (r : Option (Bool × Disk B))
      → Same s1 r
      → marked s.free_map sector ≡ false
      → ((j : ℕ) → marked s.free_map j ≡ true → marked s1.free_map j ≡ true)
      → Grown marked s (elim r as (λ _. Option (Option ℕ × Disk B)) [
        | none ↦ none
        | some q ↦
            (if q.0 then pure (some sector) else (do
              now ← get_map
              set_map (lib.bitmap_set_multiple now sector 1 false)
              pure none))
              q.1
      ])
  saved-Grown sector s s1 none same free h = tt
  saved-Grown sector s s1 (some (true, s2)) same free h = λ j t. ap (λ b. marked b j) same ∙ h j t
  saved-Grown sector s s1 (some (false, s2)) same free h = λ j t.
      laws.cleared s2.free_map sector j (λ e. let x = rw e at t in cc)
      ∙ ap (λ b. marked b j) same
      ∙ h j t

  allocated-Grown :
      (s : Disk B) (x : Option ℕ) (b' : B)
      → ((i : ℕ) → x ≡ some i → marked s.free_map i ≡ false)
      → ((j : ℕ) → marked s.free_map j ≡ true → marked b' j ≡ true)
      → Grown marked s (
          elim x as (λ _. Call (Disk B) (Option ℕ)) [
            | none ↦ pure none
            | some sector ↦ (do
              saved ← save_map lib
              if saved then pure (some sector) else (do
                now ← get_map
                set_map (lib.bitmap_set_multiple now sector 1 false)
                pure none))
          ]
            (record s { free_map = b' }))
  allocated-Grown s none b' free h = h
  allocated-Grown s (some i) b' free h =
      saved-Grown i s (record s { free_map = b' }) (save_map lib (record s { free_map = b' }))
        (save_map-Same (record s { free_map = b' })) (free i refl) h

  free_map_allocate-Grows : Grows marked (free_map_allocate lib)
  unfolding free_map_allocate
  free_map_allocate-Grows = record {
    at = λ s.
        allocated-Grown s (lib.bitmap_scan_and_flip s.free_map 0 1 false).0
          (lib.bitmap_scan_and_flip s.free_map 0 1 false).1 (laws.found s.free_map)
          (laws.flipped s.free_map);
  }

  reserve_entry-Grows : (entry : ℕ) → Grows marked (reserve_entry lib entry)
  unfolding reserve_entry
  reserve_entry-Grows entry =
      if-Grows marked (entry == 0) _ _
        (bind-Grows marked (free_map_allocate lib) _ free_map_allocate-Grows λ found.
          option-Grows marked found _ _ (pure-Grows marked (false, 0)) λ sector.
            bind-Grows marked (on_cache (write_sector sector zeros)) _
              (on_cache-Grows marked (write_sector sector zeros))
              λ _. pure-Grows marked (true, sector))
        (pure-Grows marked (true, entry))

  reserve_index-Grows : (entry : ℕ) → Grows marked (reserve_index lib entry)
  unfolding reserve_index
  reserve_index-Grows entry =
      if-Grows marked (entry == 0) _ _
        (bind-Grows marked (free_map_allocate lib) _ free_map_allocate-Grows λ found.
          bind-Grows marked
            (on_cache (write_sector (elim found as (λ _. ℕ) [ none ↦ 0 | some x ↦ x ]) zeros)) _
            (on_cache-Grows marked
              (write_sector (elim found as (λ _. ℕ) [ none ↦ 0 | some x ↦ x ]) zeros))
            λ _. pure-Grows marked (elim found as (λ _. ℕ) [ none ↦ 0 | some x ↦ x ]))
        (pure-Grows marked entry)

  reserve_loop-Grows :
      (reserve : ℕ → ℕ → Call (Disk B) (Filled ℕ)) (unit rounds num : ℕ) (blocks : List ℕ)
      → ((e n : ℕ) → Grows marked (reserve e n))
      → Grows marked (reserve_loop reserve unit rounds num blocks)
  unfolding reserve_loop
  reserve_loop-Grows reserve unit zero num blocks k =
      if-Grows marked (num == 0) _ _ (pure-Grows marked (true, blocks)) (panic-Grows marked)
  reserve_loop-Grows reserve unit (suc n) num [] k = panic-Grows marked
  reserve_loop-Grows reserve unit (suc n) num (entry ∷ blocks) k =
      bind-Grows marked (reserve entry (min num unit)) _ (k entry (min num unit)) λ r.
        if-Grows marked r.0 _ _
          (bind-Grows marked (reserve_loop reserve unit n (num - min num unit) blocks) _
            (reserve_loop-Grows reserve unit n (num - min num unit) blocks k)
            λ rest. pure-Grows marked (rest.0, r.1 ∷ rest.1))
          (pure-Grows marked (false, r.1 ∷ blocks))

  pub inode_reserve_indirect-Grows :
      (level entry num : ℕ) → Grows marked (inode_reserve_indirect lib level entry num)
  unfolding inode_reserve_indirect
  inode_reserve_indirect-Grows zero entry num = reserve_entry-Grows entry
  inode_reserve_indirect-Grows (suc level) entry num =
      bind-Grows marked (reserve_index lib entry) _ (reserve_index-Grows entry) λ sector.
        bind-Grows marked (on_cache (buffer_cache_read sector)) _
          (on_cache-Grows marked (buffer_cache_read sector))
          λ block.
            bind-Grows marked
              (reserve_loop (inode_reserve_indirect lib level) (unit_at (suc level))
                (div_round_up num (unit_at (suc level))) num (blocks_of block))
              _
              (reserve_loop-Grows (inode_reserve_indirect lib level) (unit_at (suc level))
                (div_round_up num (unit_at (suc level))) num (blocks_of block)
                (inode_reserve_indirect-Grows level))
              λ r.
                if-Grows marked r.0 _ _
                  (bind-Grows marked (on_cache (write_sector sector (bytes_of_blocks r.1))) _
                    (on_cache-Grows marked (write_sector sector (bytes_of_blocks r.1)))
                    λ _. pure-Grows marked (true, sector))
                  (pure-Grows marked (false, sector))

  pub reserve_direct-Grows : (n : ℕ) (blocks : List ℕ) → Grows marked (reserve_direct lib n blocks)
  unfolding reserve_direct
  reserve_direct-Grows zero blocks = pure-Grows marked (true, blocks)
  reserve_direct-Grows (suc n) [] = panic-Grows marked
  reserve_direct-Grows (suc n) (entry ∷ blocks) =
      bind-Grows marked (reserve_entry lib entry) _ (reserve_entry-Grows entry) λ r.
        if-Grows marked r.0 _ _
          (bind-Grows marked (reserve_direct lib n blocks) _ (reserve_direct-Grows n blocks)
            λ rest. pure-Grows marked (rest.0, r.1 ∷ rest.1))
          (pure-Grows marked (false, r.1 ∷ blocks))

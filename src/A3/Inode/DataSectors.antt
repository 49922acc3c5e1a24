-- ===== src/A3/Inode/DataSectors.antt =====
-- The list of all sectors of a file of a3/fs/inode.c.
use ecse_427_simple_shell_cr.Base.{
  ℕ, zero, suc, ◌+◌, ◌-◌, ◌*◌, ◌/◌, ◌%◌, ◌<◌, ◌≤◌, ◌≡◌, refl, sym, ap, ◌∙◌, inl, inr, true, false,
  some, [], ◌++◌, ltb, ◌==◌, arith, Bool-cases,
}
use ecse_427_simple_shell_cr.A3.Cache.{Block, Cache, buffer_cache_read}
use ecse_427_simple_shell_cr.A3.Cache.Represents.{Represents}
use ecse_427_simple_shell_cr.A3.Inode.{
  min, InodeDisk, entry, word_at, bytes_to_sectors, index_to_sector, collect, doubly_from,
  indirect_sectors, doubly_sectors, get_inode_data_sectors,
}
use ecse_427_simple_shell_cr.A3.Inode.Sectors.{
  Gives, bind-Gives, pure-Gives, read-Gives, sector_at, index_to_sector-Gives, collect-cong,
  collect-add,
}

-- the numbers behind a doubly indirect block
abbrev pub doubly_at : (ℕ → Block) → Block → ℕ → ℕ
doubly_at m blocks j = word_at (m (word_at blocks (j / 128))) (j % 128)

collect-doubly :
    (m : ℕ → Block) (blocks : Block) (n i : ℕ)
    → n ≤ 128
    → collect (word_at (m (word_at blocks i))) n 0 ≡ collect (doubly_at m blocks) n (128 * i)
collect-doubly m blocks n i le = collect-cong _ _ n 0 (128 * i) λ j lt.
    let first : (128 * i + j) / 128 ≡ i = omega arith in
    let second : (128 * i + j) % 128 ≡ 0 + j = omega arith in rw (first, second) refl

-- the place where the rest of a block begins
rest_from :
    (f : ℕ → ℕ) (num i : ℕ)
    → collect f (num - min num 128) (128 * (i + 1))
      ≡ collect f (num - min num 128) (128 * i + min num 128)
unfolding collect
rest_from f num i = elim (Bool-cases (ltb num 128)) [
  | inl t ↦ let nothing : num - min num 128 ≡ 0 = ground arith in rw nothing refl
  | inr t ↦ rw t (ap (collect f (num - 128)) (omega arith))
]

module _ (m : ℕ → Block) (idisk : InodeDisk) where
  -- The outer loop gives the numbers of a doubly indirect block in order.
  doubly_from-Gives :
      (blocks : Block) (rounds i num : ℕ) (c : Cache)
      → rounds ≡ (num + 127) / 128
      → Represents c m
      → Gives (doubly_from blocks rounds i num) c m (collect (doubly_at m blocks) num (128 * i))
  unfolding doubly_from collect
  doubly_from-Gives blocks zero i num c e r =
      let nothing : num ≡ 0 = omega arith in rw nothing (pure-Gives m [] c r)
  doubly_from-Gives blocks (suc n) i num c e r =
      let sub = min num 128 in
      let bounded : sub ≤ 128 = ground arith in
      let part : sub + (num - sub) ≡ num = ground arith in
      let rounds : n ≡ (num - sub + 127) / 128 = ground arith in
      let rest : collect (doubly_at m blocks) (num - sub) (128 * (i + 1))
          ≡ collect (doubly_at m blocks) (num - sub) (128 * i + sub) =
        rest_from (doubly_at m blocks) num i in
      let all : collect (word_at (m (word_at blocks i))) sub 0
            ++ collect (doubly_at m blocks) (num - sub) (128 * (i + 1))
          ≡ collect (doubly_at m blocks) num (128 * i) =
        rw (collect-doubly m blocks sub i bounded, rest)
          (sym (collect-add (doubly_at m blocks) sub (num - sub) (128 * i))
            ∙ ap (λ k. collect (doubly_at m blocks) k (128 * i)) part) in
      bind-Gives m (buffer_cache_read (word_at blocks i)) _ c _ _
        (read-Gives m (word_at blocks i) c r)
        λ c1 r1.
          bind-Gives m (doubly_from blocks n (i + 1) (num - sub)) _ c1 _ _
            (doubly_from-Gives blocks n (i + 1) (num - sub) c1 rounds r1)
            λ c2 r2. (c2, ap (λ l. some (l, c2)) all, r2)

  pub sector_at-direct : (i : ℕ) → i < 123 → entry idisk.direct_blocks i ≡ sector_at m idisk i
  unfolding sector_at
  sector_at-direct i lt = let t : ltb i 123 ≡ true = ground arith in rw t

  sector_at-indirect :
      (i : ℕ) → i < 128 → word_at (m idisk.indirect_block) i ≡ sector_at m idisk (123 + i)
  unfolding sector_at
  sector_at-indirect i lt =
      let f : ltb (123 + i) 123 ≡ false = ground arith in
      let t : ltb (123 + i) 251 ≡ true = ground arith in
      let back : 123 + i - 123 ≡ i = omega arith in rw (f, t, back)

  sector_at-doubly :
      (i : ℕ)
      → i < 16384
      → doubly_at m (m idisk.doubly_indirect_block) i ≡ sector_at m idisk (251 + i)
  unfolding sector_at
  sector_at-doubly i lt =
      let f : ltb (251 + i) 123 ≡ false = ground arith in
      let g : ltb (251 + i) 251 ≡ false = ground arith in
      let t : ltb (251 + i) 16635 ≡ true = ground arith in
      let back : 251 + i - 251 ≡ i = omega arith in rw (f, g, t, back)

  indirect_sectors-Gives :
      (l : ℕ) (c : Cache)
      → Represents c m
      → Gives (indirect_sectors idisk l) c m (collect (word_at (m idisk.indirect_block)) l 0)
  unfolding indirect_sectors collect
  indirect_sectors-Gives zero c r = pure-Gives m [] c r
  indirect_sectors-Gives (suc l) c r =
      let f : (suc l == 0) ≡ false = ground arith in
      rw f (
        bind-Gives m (buffer_cache_read idisk.indirect_block) _ c _ _
          (read-Gives m idisk.indirect_block c r) (λ c1 r1. pure-Gives m _ c1 r1))

  doubly_sectors-Gives :
      (l : ℕ) (c : Cache)
      → Represents c m
      → Gives
          (doubly_sectors idisk l)
          c
          m
          (collect (doubly_at m (m idisk.doubly_indirect_block)) l 0)
  unfolding doubly_sectors collect
  doubly_sectors-Gives zero c r = pure-Gives m [] c r
  doubly_sectors-Gives (suc l) c r =
      let f : (suc l == 0) ≡ false = ground arith in
      rw f (
        bind-Gives m (buffer_cache_read idisk.doubly_indirect_block) _ c _ _
          (read-Gives m idisk.doubly_indirect_block c r)
          λ c1 r1. doubly_from-Gives _ ((suc l + 127) / 128) 0 (suc l) c1 refl r1)

  -- The three parts of the list, in the order of the indices.
  parts-sector_at :
      (a b d : ℕ)
      → a ≤ 123
      → b ≤ 128
      → d ≤ 16384
      → (0 < b → a ≡ 123)
      → (0 < d → (a ≡ 123) × (b ≡ 128))
      → collect (entry idisk.direct_blocks) a 0
          ++ (collect (word_at (m idisk.indirect_block)) b 0
              ++ collect (doubly_at m (m idisk.doubly_indirect_block)) d 0)
        ≡ collect (sector_at m idisk) (a + (b + d)) 0
  parts-sector_at a b d la lb ld hb hd =
      let f = sector_at m idisk in
      let p1 : collect (entry idisk.direct_blocks) a 0 ≡ collect f a 0 =
        collect-cong _ f a 0 0 (λ j lt. sector_at-direct (0 + j) (omega arith)) in
      let p2 : collect (word_at (m idisk.indirect_block)) b 0 ≡ collect f b (0 + a) =
        collect-cong _ f b 0 (0 + a) λ j lt.
          let at = hb (omega arith) in
          ap (word_at (m idisk.indirect_block)) (omega arith)
          ∙ sector_at-indirect j (omega arith)
          ∙ ap f (omega arith) in
      let p3 : collect (doubly_at m (m idisk.doubly_indirect_block)) d 0 ≡ collect f d (0 + a + b) =
        collect-cong _ f d 0 (0 + a + b) λ j lt.
          let at = hd (omega arith) in
          ap (doubly_at m (m idisk.doubly_indirect_block)) (omega arith)
          ∙ sector_at-doubly j (omega arith)
          ∙ ap f (omega arith) in
      rw (p1, p2, p3)
        (ap (◌++◌ (collect f a 0)) (sym (collect-add f b d (0 + a)))
          ∙ sym (collect-add f a (b + d) 0))

  -- On a cache that holds some contents, of a file of no more sectors than an inode can have,
  -- `get_inode_data_sectors` gives for every index of the file in order the sector that `index_to_sector`
  -- gives, and both leave the contents as they are.
  pub get_inode_data_sectors-index_to_sector :
      (c : Cache)
      → Represents c m
      → bytes_to_sectors idisk.length ≤ 16635
      → Gives
          (get_inode_data_sectors idisk)
          c
          m
          (collect (sector_at m idisk) (bytes_to_sectors idisk.length) 0)
        × ((i : ℕ) → Gives (index_to_sector idisk i) c m (sector_at m idisk i))
  unfolding get_inode_data_sectors
  get_inode_data_sectors-index_to_sector c r le =
      let n = bytes_to_sectors idisk.length in
      let l1 = min n 123 in
      let l2 = min (n - l1) 128 in
      let l3 = min (n - l1 - l2) 16384 in
      let none_left : (n - l1 - l2 - l3 == 0) ≡ true = ground arith in
      let total : l1 + (l2 + l3) ≡ n = ground arith in
      let b1 : l1 ≤ 123 = ground arith in
      let b2 : l2 ≤ 128 = ground arith in
      let b3 : l3 ≤ 16384 = ground arith in
      let h2 : 0 < l2 → l1 ≡ 123 = λ h. ground arith in
      let h3 : 0 < l3 → (l1 ≡ 123) × (l2 ≡ 128) = λ h. (ground arith, ground arith) in
      let all =
        parts-sector_at l1 l2 l3 b1 b2 b3 h2 h3 ∙ ap (λ k. collect (sector_at m idisk) k 0) total in
      (
        bind-Gives m (indirect_sectors idisk l2) _ c _ _ (indirect_sectors-Gives l2 c r) λ c1 r1.
            bind-Gives m (doubly_sectors idisk l3) _ c1 _ _ (doubly_sectors-Gives l3 c1 r1)
              λ c2 r2. rw none_left (c2, ap (λ l. some (l, c2)) all, r2),
        λ i. index_to_sector-Gives m idisk i c r,
      )

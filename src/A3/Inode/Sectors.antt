-- ===== src/A3/Inode/Sectors.antt =====
-- The index arithmetic of a3/fs/inode.c over a cache that holds some contents.
use ecse_427_simple_shell_cr.Base.{
  ℕ, zero, suc, ◌+◌, ◌-◌, ◌/◌, ◌%◌, ◌<◌, ◌≡◌, refl, ap, ◌∙◌, inl, inr, Option, none, some, ◌∷◌,
  ◌++◌, ltb, if◌then◌else◌, arith, Bool-cases,
}
use ecse_427_simple_shell_cr.A3.Cache.{Block, Cache, buffer_cache_read}
use ecse_427_simple_shell_cr.A3.Cache.Represents.{Represents}
use ecse_427_simple_shell_cr.A3.Cache.Refine.{buffer_cache_read-Represents}
use ecse_427_simple_shell_cr.A3.Inode.{
  Sectors, ◌>>=◌, pure, InodeDisk, entry, word_at, no_sector, index_to_sector, collect,
}

-- The call returns the value, and the cache holds the contents after it.
abbrev pub Gives : {A : Type 0} → Sectors A → Cache → (ℕ → Block) → A → Type 0
Gives {A} f c m a = (c' : Cache) × (f c ≡ some (a, c')) × Represents c' m

module _ {A B : Type 0} where
  pub bind_of_some :
      (f : Sectors A) (g : A → Sectors B) (c : Cache) (a : A) (c' : Cache)
      → f c ≡ some (a, c')
      → (f >>= g) c ≡ g a c'
  bind_of_some f g c a c' e =
      ap (λ x. elim x as (λ _. Option (B × Cache)) [ none ↦ none | some p ↦ g p.0 p.1 ]) e

module _ {A B : Type 0} (m : ℕ → Block) where
  pub bind-Gives :
      {m' : ℕ → Block} (f : Sectors A) (g : A → Sectors B) (c : Cache) (a : A) (b : B)
      → Gives f c m a
      → ((c' : Cache) → Represents c' m → Gives (g a) c' m' b)
      → Gives (f >>= g) c m' b
  bind-Gives f g c a b (c1, e, r) h =
      let (c2, e2, r2) = h c1 r in (c2, bind_of_some f g c a c1 e ∙ e2, r2)

pub pure-Gives :
    {A : Type 0} (m : ℕ → Block) (a : A) (c : Cache) → Represents c m → Gives (pure a) c m a
pure-Gives m a c r = (c, refl, r)

pub read-Gives :
    (m : ℕ → Block) (s : ℕ) (c : Cache) → Represents c m → Gives (buffer_cache_read s) c m (m s)
read-Gives m s c r = buffer_cache_read-Represents s c m r

-- The sector with an index by the contents alone.
unfoldable pub sector_at : (ℕ → Block) → InodeDisk → ℕ → ℕ
sector_at m idisk i =
    if ltb i 123
    then entry idisk.direct_blocks i
    else if ltb i 251
    then word_at (m idisk.indirect_block) (i - 123)
    else if ltb i 16635
    then word_at (m (word_at (m idisk.doubly_indirect_block) ((i - 251) / 128))) ((i - 251) % 128)
    else no_sector

-- `index_to_sector` finds the sector by the contents.
pub index_to_sector-Gives :
    (m : ℕ → Block) (idisk : InodeDisk) (i : ℕ) (c : Cache)
    → Represents c m
    → Gives (index_to_sector idisk i) c m (sector_at m idisk i)
unfolding index_to_sector sector_at
index_to_sector-Gives m idisk i c r = elim (Bool-cases (ltb i 123)) [
  | inl t ↦ rw t (pure-Gives m (entry idisk.direct_blocks i) c r)
  | inr f ↦ rw f (elim (Bool-cases (ltb i 251)) [
    | inl t ↦ rw t (
        bind-Gives m (buffer_cache_read idisk.indirect_block) _ c _ _
          (read-Gives m idisk.indirect_block c r) (λ c' r'. pure-Gives m _ c' r'))
    | inr g ↦ rw g (elim (Bool-cases (ltb i 16635)) [
      | inl t ↦ rw t (
          bind-Gives m (buffer_cache_read idisk.doubly_indirect_block) _ c _ _
            (read-Gives m idisk.doubly_indirect_block c r)
            λ c1 r1.
              bind-Gives m (buffer_cache_read _) _ c1 _ _ (read-Gives m _ c1 r1)
                λ c2 r2. pure-Gives m _ c2 r2)
      | inr h ↦ rw h (pure-Gives m no_sector c r)
    ])
  ])
]

-- Lists made by a loop.
pub collect-cong :
    (f g : ℕ → ℕ) (n i k : ℕ)
    → ((j : ℕ) → j < n → f (i + j) ≡ g (k + j))
    → collect f n i ≡ collect g n k
unfolding collect
collect-cong f g zero i k h = refl
collect-cong f g (suc n) i k h =
    let first : f i ≡ g k = ap f (omega arith) ∙ h 0 (omega arith) ∙ ap g (omega arith) in
    let rest =
      collect-cong f g n (i + 1) (k + 1)
        (λ j lt. ap f (omega arith) ∙ h (j + 1) (omega arith) ∙ ap g (omega arith)) in
    rw (first, rest)

pub collect-add :
    (f : ℕ → ℕ) (a b i : ℕ) → collect f (a + b) i ≡ collect f a i ++ collect f b (i + a)
unfolding collect
collect-add f zero b i =
    let none_left : 0 + b ≡ b = omega arith in
    let same : i + 0 ≡ i = omega arith in rw (none_left, same) refl
collect-add f (suc a) b i =
    let more : suc a + b ≡ suc (a + b) = omega arith in
    let on : i + suc a ≡ (i + 1) + a = omega arith in
    rw (more, on) (ap (◌∷◌ (f i)) (collect-add f a b (i + 1)))

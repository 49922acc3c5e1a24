-- ===== src/A3/Cache/Represents.antt =====
-- What the buffer cache of a3/fs/cache.c and its device hold together, and the steps that keep it.
use ecse_427_simple_shell_cr.Base.{
  ℕ, zero, suc, ◌<◌, ◌≡◌, ◌≢◌, ◌⊎◌, inl, inr, refl, sym, ap, ◌∙◌, Bool, true, false, some, List, [],
  ◌∷◌, ◌==◌, if◌then◌else◌, get_elem?, set, length, arith, Bool-cases, ℕ_discrete,
  get_elem?-set_self, get_elem?-set_ne, lt-length_of_get_elem?,
}
use ecse_427_simple_shell_cr.A3.Cache.{
  Block, Device, block_write, Entry, Cache, buffer_cache_size, buffer_cache_flush,
}

-- what stands in an array after a write
pub get_elem?-set_cases {ℓ} :
    {A : Type ℓ} (xs : List A) (i j : ℕ) (v a : A)
    → get_elem? (set xs i v) j ≡ some a
    → ((j ≡ i) × (a ≡ v)) ⊎ ((j ≢ i) × (get_elem? xs j ≡ some a))
get_elem?-set_cases [] i j v a h = let lt = lt-length_of_get_elem? [] j a h in absurd (omega arith)
get_elem?-set_cases (x ∷ xs) zero zero v a h = inl (refl, cc)
get_elem?-set_cases (x ∷ xs) zero (suc j) v a h = inr ((λ e. omega arith), h)
get_elem?-set_cases (x ∷ xs) (suc i) zero v a h = inr ((λ e. omega arith), h)
get_elem?-set_cases (x ∷ xs) (suc i) (suc j) v a h = elim (get_elem?-set_cases xs i j v a h) [
  | inl (e, q) ↦ inl (ap suc e, q)
  | inr (n, q) ↦ inr ((λ e. n (omega arith)), q)
]

-- no occupied entry that is dirty has the sector
abbrev pub NotDirty : List Entry → ℕ → Type 0
NotDirty es s =
    (i : ℕ) (e : Entry)
    → get_elem? es i ≡ some e
    → e.occupied ≡ true
    → e.dirty ≡ true
    → e.disk_sector ≢ s

-- The entries and the device hold the contents `m` together: an occupied entry has the contents of its
-- sector, a sector that no dirty entry holds is right on the device, and no two entries have one sector.
pub record Holds (es : List Entry) (d : Device) (m : ℕ → Block) : Type 0 where
  pub buffered :
      (i : ℕ) (e : Entry) → get_elem? es i ≡ some e → e.occupied ≡ true → e.buffer ≡ m e.disk_sector
  pub written : (s : ℕ) → NotDirty es s → d s ≡ m s
  pub distinct :
      (i j : ℕ) (e f : Entry)
      → get_elem? es i ≡ some e
      → get_elem? es j ≡ some f
      → e.occupied ≡ true
      → f.occupied ≡ true
      → e.disk_sector ≡ f.disk_sector
      → i ≡ j

-- The cache holds the contents, and its clock points into its array.
pub record Represents (c : Cache) (m : ℕ → Block) : Type 0 where
  pub holds : Holds c.entries c.device m
  pub full : length c.entries ≡ buffer_cache_size
  pub clock_in : c.clock < buffer_cache_size

pub block_write_same : (s : ℕ) (b : Block) (d : Device) → block_write s b d s ≡ b
unfolding block_write
block_write_same s b d = let t : (s == s) ≡ true = ground arith in rw t

pub block_write_other : (s t : ℕ) (b : Block) (d : Device) → s ≢ t → block_write s b d t ≡ d t
unfolding block_write
block_write_other s t b d n = let f : (t == s) ≡ false = ground arith in rw f

module _ (es : List Entry) (i : ℕ) (e : Entry) (at : get_elem? es i ≡ some e) (v : Entry) where
  here : get_elem? (set es i v) i ≡ some v
  here = get_elem?-set_self es i v (lt-length_of_get_elem? es i e at)

  there : (j : ℕ) (f : Entry) → j ≢ i → get_elem? es j ≡ some f → get_elem? (set es i v) j ≡ some f
  there j f n g = get_elem?-set_ne es i j v (λ q. n (sym q)) ∙ g

  same_entry : (j : ℕ) (f : Entry) → j ≡ i → get_elem? es j ≡ some f → f ≡ e
  same_entry j f p g = let q : get_elem? es i ≡ some f = rw (← p) g in cc

  NotDirty-set :
      (s : ℕ)
      → (e.occupied ≡ true → e.dirty ≡ true → e.disk_sector ≢ s)
      → NotDirty (set es i v) s
      → NotDirty es s
  NotDirty-set s here_not new j f g occ dirty = elim (ℕ_discrete j i) [
    | yes p ↦ let q = same_entry j f p g in rw q (here_not (rw (← q) occ) (rw (← q) dirty))
    | no n ↦ new j f (there j f n g) occ dirty
  ]

module _ (es : List Entry) (d : Device) (m : ℕ → Block) (h : Holds es d m) (i : ℕ) (e : Entry)
    (at : get_elem? es i ≡ some e) where
  others :
      e.occupied ≡ true
      → (j : ℕ) (f : Entry) → j ≢ i
      → get_elem? es j ≡ some f
      → f.occupied ≡ true
      → f.disk_sector ≢ e.disk_sector
  others occ j f n g occ' q = n (h.distinct j i f e g at occ' occ q)

  -- A write of an entry keeps what the array holds, if the entry is right and no other has its sector.
  set-Holds :
      (v : Entry) (d' : Device) (m' : ℕ → Block)
      → (v.occupied ≡ true → v.buffer ≡ m' v.disk_sector)
      → ((j : ℕ) (f : Entry)
          → j ≢ i
          → get_elem? es j ≡ some f
          → f.occupied ≡ true
          → (v.occupied ≡ true → f.disk_sector ≢ v.disk_sector)
            × (m f.disk_sector ≡ m' f.disk_sector))
      → ((s : ℕ) → NotDirty (set es i v) s → d' s ≡ m' s)
      → Holds (set es i v) d' m'
  set-Holds v d' m' own other dev = record {
    buffered = λ j f g occ. elim (get_elem?-set_cases es i j v f g) [
      | inl (_, q) ↦ rw q (own (rw (← q) occ))
      | inr (n, q) ↦ h.buffered j f q occ ∙ (other j f n q occ).1
    ];
    written = dev;
    distinct = λ j k f g fj gk focc gocc same. elim (get_elem?-set_cases es i j v f fj) [
      | inl (p, q) ↦ elim (get_elem?-set_cases es i k v g gk) [
        | inl (p', q') ↦ p ∙ sym p'
        | inr (n, q') ↦
            absurd ((other k g n q' gocc).0 (rw (← q) focc) (sym same ∙ ap (λ x. x.disk_sector) q))
      ]
      | inr (n, q) ↦ elim (get_elem?-set_cases es i k v g gk) [
        | inl (p', q') ↦
            absurd ((other j f n q focc).0 (rw (← q') gocc) (same ∙ ap (λ x. x.disk_sector) q'))
        | inr (n', q') ↦ h.distinct j k f g q q' focc gocc same
      ]
    ];
  }

  -- Another access bit changes nothing.
  pub set_access-Holds : (b : Bool) → Holds (set es i (record e { access = b })) d m
  set_access-Holds b =
      set-Holds (record e { access = b }) d m (h.buffered i e at)
        (λ j f n g occ. ((λ own. others own j f n g occ), refl))
        (λ s none. h.written s (NotDirty-set es i e at _ s (none i _ (here es i e at _)) none))

  -- An entry that is written back and given up.
  pub vacate-Holds :
      e.occupied ≡ true
      → let (e', d') = buffer_cache_flush e d in
        Holds (set es i (record e' { occupied = false })) d' m
  unfolding buffer_cache_flush
  vacate-Holds occ = elim (Bool-cases e.dirty) [
    | inl dirty ↦ rw dirty (
        set-Holds _ _ m (λ own. cc) (λ j f n g occ'. ((λ own. cc), refl))
          λ s none. elim (ℕ_discrete e.disk_sector s) [
            | yes p ↦ rw (← p) (block_write_same e.disk_sector e.buffer d ∙ h.buffered i e at occ)
            | no n ↦
                block_write_other e.disk_sector s e.buffer d n
                ∙ h.written s (NotDirty-set es i e at _ s (λ _ _. n) none)
          ])
    | inr clean ↦ rw clean (
        set-Holds _ _ m (λ own. cc) (λ j f n g occ'. ((λ own. cc), refl))
          λ s none. h.written s (NotDirty-set es i e at _ s (λ _ dirty. cc) none))
  ]

  -- A free entry that is filled from the device with a sector that no entry holds.
  pub fill-Holds :
      (s : ℕ)
      → e.occupied ≡ false
      → ((j : ℕ) (f : Entry) → get_elem? es j ≡ some f → f.occupied ≡ true → f.disk_sector ≢ s)
      → Holds
          (set es i (record e { occupied = true; disk_sector = s; dirty = false; buffer = d s }))
          d
          m
  fill-Holds s free absent =
      set-Holds _ d m (λ own. h.written s (λ j f g occ _. absent j f g occ))
        (λ j f n g occ. ((λ own. absent j f g occ), refl))
        (λ t none. h.written t (NotDirty-set es i e at _ t (λ occ _. cc) none))

  -- An entry that gets other bytes, and is dirty then.
  pub overwrite-Holds :
      (source : Block)
      → e.occupied ≡ true
      → Holds
          (set es i (record e { access = true; dirty = true; buffer = source }))
          d
          (λ t. if t == e.disk_sector then source else m t)
  overwrite-Holds source occ =
      let v : Entry = record e { access = true; dirty = true; buffer = source } in
      set-Holds v d _
        (λ own. let t : (e.disk_sector == e.disk_sector) ≡ true = ground arith in rw t)
        (λ j f n g occ'.
          let differ = others occ j f n g occ' in
          let t : (f.disk_sector == e.disk_sector) ≡ false = ground arith in
          ((λ own. differ), rw t))
        (λ s none.
          let differ = none i v (here es i e at v) occ refl in
          let t : (s == e.disk_sector) ≡ false = ground arith in
          rw t (h.written s (NotDirty-set es i e at v s (λ _ _. differ) none)))

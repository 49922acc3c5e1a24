-- ===== src/A3/Cache/Refine.antt =====
-- Reads and writes of the buffer cache of a3/fs/cache.c as those of a map from sectors to blocks.
use ecse_427_simple_shell_cr.Base.{
  ℕ, zero, suc, ◌+◌, ◌≡◌, ◌⊎◌, inl, inr, refl, ap, ◌∙◌, true, false, none, some, List, [], ◌∷◌,
  ◌==◌, if◌then◌else◌, get_elem?, set, length-set, get_elem?-set_self, lt-length_of_get_elem?,
  arith, Bool-cases,
}
use mathlib.Core.Path.{subst}
use ecse_427_simple_shell_cr.A3.Cache.{
  Block, Entry, Cache, lookup_from, buffer_cache_lookup, buffer_cache_evict, slot_of,
  buffer_cache_read, buffer_cache_write,
}
use ecse_427_simple_shell_cr.A3.Cache.Represents.{
  Holds, Represents, set_access-Holds, fill-Holds, overwrite-Holds,
}
use ecse_427_simple_shell_cr.A3.Cache.Clock.{Absent, buffer_cache_evict-Evicts}

-- an occupied entry with the sector, and its index
abbrev pub Found : ℕ → List Entry → ℕ → Type 0
Found s es i = (e : Entry) × (get_elem? es i ≡ some e) × (e.occupied ≡ true) × (e.disk_sector ≡ s)

lookup_from-skip :
    (i s : ℕ) (e : Entry) (es : List Entry)
    → (e.occupied ≡ false) ⊎ ((e.disk_sector == s) ≡ false)
    → lookup_from i s (e ∷ es) ≡ lookup_from (suc i) s es
unfolding lookup_from
lookup_from-skip i s e es (inl o) = simp o
lookup_from-skip i s e es (inr n) = elim (Bool-cases e.occupied) [
  | inl o ↦ simp (o, n)
  | inr o ↦ simp o
]

lookup_from-hit :
    (i s : ℕ) (e : Entry) (es : List Entry)
    → e.occupied ≡ true
    → (e.disk_sector == s) ≡ true
    → lookup_from i s (e ∷ es) ≡ some i
unfolding lookup_from
lookup_from-hit i s e es o t = simp (o, t)

lookup_from-nil : (i s : ℕ) → lookup_from i s [] ≡ none
unfolding lookup_from
lookup_from-nil i s = refl

nil-Absent : (s : ℕ) → Absent [] s
nil-Absent s j f g = let lt = lt-length_of_get_elem? [] j f g in absurd (omega arith)

Absent-cons :
    (e : Entry) (es : List Entry) (s : ℕ)
    → (e.occupied ≡ false) ⊎ ((e.disk_sector == s) ≡ false)
    → Absent es s
    → Absent (e ∷ es) s
Absent-cons e es s r h (suc j) f g occ = h j f g occ
Absent-cons e es s (inl o) h zero f g occ = let q : e ≡ f = cc in λ same. cc
Absent-cons e es s (inr n) h zero f g occ =
    let q : e.disk_sector ≡ f.disk_sector = cc in λ same. ground arith

-- A lookup gives an entry that has the sector, or none has it.
lookup_from-cases :
    (i s : ℕ) (es : List Entry)
    → ((j : ℕ) × (lookup_from i s es ≡ some (i + j)) × Found s es j)
      ⊎ ((lookup_from i s es ≡ none) × Absent es s)
lookup_from-cases i s [] = inr (lookup_from-nil i s, nil-Absent s)
lookup_from-cases i s (e ∷ es) =
    let skip : (e.occupied ≡ false) ⊎ ((e.disk_sector == s) ≡ false)
        → ((j : ℕ) × (lookup_from i s (e ∷ es) ≡ some (i + j)) × Found s (e ∷ es) j)
          ⊎ ((lookup_from i s (e ∷ es) ≡ none) × Absent (e ∷ es) s) =
      λ r. elim (lookup_from-cases (suc i) s es) [
        | inl (j, q, f) ↦ inl (suc j, lookup_from-skip i s e es r ∙ q ∙ ap some (omega arith), f)
        | inr (q, absent) ↦ inr (lookup_from-skip i s e es r ∙ q, Absent-cons e es s r absent)
      ] in
    elim (Bool-cases e.occupied) [
      | inr o ↦ skip (inl o)
      | inl o ↦ elim (Bool-cases (e.disk_sector == s)) [
        | inr n ↦ skip (inr n)
        | inl t ↦
            let same : e.disk_sector ≡ s = ground arith in
            inl (0, lookup_from-hit i s e es o t ∙ ap some (omega arith), (e, refl, o, same))
      ]
    ]

slot_of-hit :
    (s i : ℕ) (c : Cache) → lookup_from 0 s c.entries ≡ some (0 + i) → slot_of s c ≡ some (i, c)
unfolding slot_of buffer_cache_lookup
slot_of-hit s i c q =
    let r : lookup_from 0 s c.entries ≡ some i = q ∙ ap some (omega arith) in rw (r, slot_of)

slot_of-miss :
    (s i : ℕ) (c c' : Cache) (e : Entry)
    → lookup_from 0 s c.entries ≡ none
    → buffer_cache_evict c ≡ some (i, c')
    → get_elem? c'.entries i ≡ some e
    → slot_of s c
      ≡ some (
        i,
        record c' {
          entries =
              set c'.entries i (record e {
                occupied = true;
                disk_sector = s;
                dirty = false;
                buffer = c'.device s;
              });
        },
      )
unfolding slot_of buffer_cache_lookup
slot_of-miss s i c c' e q v at = rw (q, slot_of, v, at)

module _ (m : ℕ → Block) (s : ℕ) where
  -- What `slot_of` comes to: an entry that has the sector.
  pub record Slots (c : Cache) : Type 0 where
    pub slot : ℕ
    pub cache : Cache
    pub entry : Entry
    pub returns : slot_of s c ≡ some (slot, cache)
    pub represents : Represents cache m
    pub at : get_elem? cache.entries slot ≡ some entry
    pub occupied : entry.occupied ≡ true
    pub sector : entry.disk_sector ≡ s

  slot_of-Slots : (c : Cache) → Represents c m → Slots c
  slot_of-Slots c r = elim (lookup_from-cases 0 s c.entries) [
    | inl (j, q, (e, at, o, same)) ↦ record {
      slot = j;
      cache = c;
      entry = e;
      returns = slot_of-hit s j c q;
      represents = r;
      at = at;
      occupied = o;
      sector = same;
    }
    | inr (q, absent) ↦
        let v = buffer_cache_evict-Evicts m s c r absent in
        let filled : Entry = record v.entry {
          occupied = true;
          disk_sector = s;
          dirty = false;
          buffer = v.cache.device s;
        } in
        record {
          slot = v.slot;
          cache = record v.cache { entries = set v.cache.entries v.slot filled };
          entry = filled;
          returns = slot_of-miss s v.slot c v.cache v.entry q v.returns v.at;
          represents = record {
            holds =
                fill-Holds v.cache.entries v.cache.device m v.represents.holds v.slot v.entry v.at s
                  v.free v.absent;
            full = length-set v.cache.entries v.slot filled ∙ v.represents.full;
            clock_in = v.represents.clock_in;
          };
          at =
              get_elem?-set_self v.cache.entries v.slot filled
                (lt-length_of_get_elem? v.cache.entries v.slot v.entry v.at);
          occupied = refl;
          sector = refl;
        }
  ]

-- On a cache that holds some contents, a read of a sector returns what the sector holds, and the
-- contents stay.
pub buffer_cache_read-Represents :
    (s : ℕ) (c : Cache) (m : ℕ → Block)
    → Represents c m
    → (c' : Cache) × (buffer_cache_read s c ≡ some (m s, c')) × Represents c' m
unfolding buffer_cache_read
buffer_cache_read-Represents s c m r =
    let t = slot_of-Slots m s c r in
    let es = set t.cache.entries t.slot (record t.entry { access = true }) in
    let held = t.represents.holds.buffered t.slot t.entry t.at t.occupied ∙ ap m t.sector in
    (
      record t.cache { entries = es },
      rw (t.returns, buffer_cache_read, t.at)
          (ap (λ b. some (b, record t.cache { entries = es })) held),
      record {
        holds =
            set_access-Holds t.cache.entries t.cache.device m t.represents.holds t.slot t.entry t.at
              true;
        full = length-set t.cache.entries t.slot _ ∙ t.represents.full;
        clock_in = t.represents.clock_in;
      },
    )

-- On a cache that holds some contents, a write of a sector returns, and the contents are the same but for
-- the sector, which holds what was written.
pub buffer_cache_write-Represents :
    (s : ℕ) (source : Block) (c : Cache) (m : ℕ → Block)
    → Represents c m
    → (c' : Cache) × (buffer_cache_write s source c ≡ some c')
      × Represents c' (λ t. if t == s then source else m t)
unfolding buffer_cache_write
buffer_cache_write-Represents s source c m r =
    let t = slot_of-Slots m s c r in
    let new : Entry = record t.entry { access = true; dirty = true; buffer = source } in
    let es = set t.cache.entries t.slot new in
    (
      record t.cache { entries = es },
      rw (t.returns, buffer_cache_write, t.at) refl,
      record {
        holds =
            subst (λ x. Holds es t.cache.device (λ u. if u == x then source else m u)) t.sector
              (overwrite-Holds t.cache.entries t.cache.device m t.represents.holds t.slot t.entry
                t.at source t.occupied);
        full = length-set t.cache.entries t.slot new ∙ t.represents.full;
        clock_in = t.represents.clock_in;
      },
    )

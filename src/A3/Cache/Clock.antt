-- ===== src/A3/Cache/Clock.antt =====
-- The clock of a3/fs/cache.c: it stops at an entry, and the entry is given up.
use ecse_427_simple_shell_cr.Base.{
  ℕ, zero, suc, ◌+◌, ◌%◌, ◌<◌, ◌≤◌, ◌≡◌, ◌≢◌, ◌⊎◌, inl, inr, refl, ◌∙◌, true, false, some, List, [],
  ◌∷◌, if◌then◌else◌, get_elem?, set, length, length-set, get_elem?-set_self,
  lt-length_of_get_elem?, arith, Bool-cases,
}
use ecse_427_simple_shell_cr.A3.Cache.{
  Block, Device, Entry, Cache, buffer_cache_size, buffer_cache_flush, second_chance, run_clock,
  buffer_cache_evict,
}
use ecse_427_simple_shell_cr.A3.Cache.Represents.{
  Holds, Represents, set_access-Holds, vacate-Holds, get_elem?-set_cases,
}

-- the access bits that are set
abbrev pub chances : List Entry → ℕ
chances [] = 0
chances (e ∷ es) = (if e.access then 1 else 0) + chances es

-- no occupied entry has the sector
abbrev pub Absent : List Entry → ℕ → Type 0
Absent es s = (j : ℕ) (f : Entry) → get_elem? es j ≡ some f → f.occupied ≡ true → f.disk_sector ≢ s

chances-le : (es : List Entry) → chances es ≤ length es
chances-le [] = omega arith
chances-le (e ∷ es) = ground (arith, chances-le es)

chances-clear :
    (es : List Entry) (i : ℕ) (e : Entry)
    → get_elem? es i ≡ some e
    → e.access ≡ true
    → chances (set es i (record e { access = false })) + 1 ≡ chances es
chances-clear [] i e h t = cc
chances-clear (x ∷ es) zero e h t = let q : x.access ≡ true = cc in rw q (omega arith)
chances-clear (x ∷ es) (suc i) e h t = omega (arith, chances-clear es i e h t)

entry_at : (es : List Entry) (i : ℕ) → i < length es → (e : Entry) × (get_elem? es i ≡ some e)
entry_at [] i h = absurd (omega arith)
entry_at (e ∷ es) zero h = (e, refl)
entry_at (e ∷ es) (suc i) h = entry_at es i (omega arith)

-- A write of an entry that is free, or has the sector that it had, brings in no sector.
set-Absent :
    (es : List Entry) (i : ℕ) (v : Entry) (s : ℕ)
    → Absent es s
    → (v.occupied ≡ true → v.disk_sector ≢ s)
    → Absent (set es i v) s
set-Absent es i v s h own j f g occ = elim (get_elem?-set_cases es i j v f g) [
  | inl (_, q) ↦ rw q (own (rw (← q) occ))
  | inr (_, q) ↦ h j f q occ
]

module _ (fuel size clock : ℕ) (es : List Entry) (e : Entry)
    (at : get_elem? es clock ≡ some e) where
  run_clock-stop :
      (e.occupied ≡ false) ⊎ (e.access ≡ false)
      → run_clock (suc fuel) size es clock ≡ some (es, clock)
  unfolding run_clock
  run_clock-stop (inl o) = rw (at, run_clock, o)
  run_clock-stop (inr a) = elim (Bool-cases e.occupied) [
    | inl o ↦ rw (at, run_clock, o, a)
    | inr o ↦ rw (at, run_clock, o)
  ]

  run_clock-go :
      e.occupied ≡ true
      → e.access ≡ true
      → run_clock (suc fuel) size es clock
        ≡ run_clock fuel size (set es clock (second_chance e)) ((clock + 1) % size)
  unfolding run_clock
  run_clock-go o a = rw (at, run_clock) (simp (o, a))

module _ (d : Device) (m : ℕ → Block) (s : ℕ) where
  -- The entries and the place where the clock stops.
  pub record Stops (fuel : ℕ) (es : List Entry) (clock : ℕ) : Type 0 where
    pub entries : List Entry
    pub place : ℕ
    pub entry : Entry
    pub returns : run_clock fuel buffer_cache_size es clock ≡ some (entries, place)
    pub holds : Holds entries d m
    pub full : length entries ≡ buffer_cache_size
    pub within : place < buffer_cache_size
    pub absent : Absent entries s
    pub at : get_elem? entries place ≡ some entry

  -- With a round more than there are chances, the clock stops.
  run_clock-Stops :
      (fuel : ℕ) (es : List Entry) (clock : ℕ)
      → Holds es d m
      → length es ≡ buffer_cache_size
      → clock < buffer_cache_size
      → chances es < fuel
      → Absent es s
      → Stops fuel es clock
  unfolding second_chance
  run_clock-Stops zero es clock h full within enough absent = absurd (omega arith)
  run_clock-Stops (suc fuel) es clock h full within enough absent =
      let (e, at) = entry_at es clock (omega arith) in
      let stopped : (e.occupied ≡ false) ⊎ (e.access ≡ false) → Stops (suc fuel) es clock = λ r.
        record {
          entries = es;
          place = clock;
          entry = e;
          returns = run_clock-stop fuel buffer_cache_size clock es e at r;
          holds = h;
          full = full;
          within = within;
          absent = absent;
          at = at;
        } in
      elim (Bool-cases e.occupied) [
        | inr free ↦ stopped (inl free)
        | inl occ ↦ elim (Bool-cases e.access) [
          | inr used ↦ stopped (inr used)
          | inl access ↦
              let less = chances-clear es clock e at access in
              let rest =
                run_clock-Stops fuel (set es clock (record e { access = false }))
                  ((clock + 1) % buffer_cache_size) (set_access-Holds es d m h clock e at false)
                  (length-set es clock _ ∙ full) (omega arith) (omega arith)
                  (set-Absent es clock (record e { access = false }) s absent
                    (absent clock e at)) in
              record {
                entries = rest.entries;
                place = rest.place;
                entry = rest.entry;
                holds = rest.holds;
                full = rest.full;
                within = rest.within;
                absent = rest.absent;
                at = rest.at;
                returns =
                    run_clock-go fuel buffer_cache_size clock es e at occ access ∙ rest.returns;
              }
        ]
      ]

  -- What `buffer_cache_evict` comes to: a slot that is free.
  pub record Evicts (c : Cache) : Type 0 where
    pub slot : ℕ
    pub cache : Cache
    pub entry : Entry
    pub returns : buffer_cache_evict c ≡ some (slot, cache)
    pub represents : Represents cache m
    pub absent : Absent cache.entries s
    pub at : get_elem? cache.entries slot ≡ some entry
    pub free : entry.occupied ≡ false

  evict-free :
      (c : Cache) (t : Stops (buffer_cache_size + 1) c.entries c.clock)
      → t.entry.occupied ≡ false
      → buffer_cache_evict c ≡ some (t.place, record c { entries = t.entries; clock = t.place })
  unfolding buffer_cache_evict
  evict-free c t free = rw (t.returns, buffer_cache_evict, t.at, free)

  evict-vacate :
      (c : Cache) (t : Stops (buffer_cache_size + 1) c.entries c.clock)
      → t.entry.occupied ≡ true
      → let (e', d') = buffer_cache_flush t.entry c.device in
        buffer_cache_evict c
        ≡ some (
          t.place,
          record {
            entries = set t.entries t.place (record e' { occupied = false });
            clock = t.place;
            device = d';
          },
        )
  unfolding buffer_cache_evict
  evict-vacate c t occ = rw (t.returns, buffer_cache_evict, t.at) (simp occ)

module _ (m : ℕ → Block) (s : ℕ) where
  -- With a clock inside its array, an eviction gives a free slot and loses nothing.
  pub buffer_cache_evict-Evicts :
      (c : Cache) → Represents c m → Absent c.entries s → Evicts c.device m s c
  buffer_cache_evict-Evicts c r absent =
      let t =
        run_clock-Stops c.device m s (buffer_cache_size + 1) c.entries c.clock r.holds r.full
          r.clock_in (omega (arith, chances-le c.entries, r.full)) absent in
      elim (Bool-cases t.entry.occupied) [
        | inr free ↦ record {
          slot = t.place;
          cache = record c { entries = t.entries; clock = t.place };
          entry = t.entry;
          returns = evict-free c.device m s c t free;
          represents = record { holds = t.holds; full = t.full; clock_in = t.within };
          absent = t.absent;
          at = t.at;
          free = free;
        }
        | inl occ ↦
            let (e', d') = buffer_cache_flush t.entry c.device in
            let given = record e' { occupied = false } in
            record {
              slot = t.place;
              cache = record {
                entries = set t.entries t.place given;
                clock = t.place;
                device = d';
              };
              entry = given;
              returns = evict-vacate c.device m s c t occ;
              represents = record {
                holds = vacate-Holds t.entries c.device m t.holds t.place t.entry t.at occ;
                full = length-set t.entries t.place _ ∙ t.full;
                clock_in = t.within;
              };
              absent = set-Absent t.entries t.place given s t.absent (λ own. cc);
              at =
                  get_elem?-set_self t.entries t.place given
                    (lt-length_of_get_elem? t.entries t.place t.entry t.at);
              free = refl;
            }
      ]

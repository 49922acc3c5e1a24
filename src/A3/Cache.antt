-- ===== src/A3/Cache.antt =====
-- a3/fs/cache.c: the buffer cache of sectors, with the clock algorithm. The block device is its contents
-- by sector; a block is the bytes of one sector.
pub mod Represents
pub mod Clock
pub mod Refine
pub mod Close
mod Tests
use ecse_427_simple_shell_cr.Base.{
  ℕ, zero, suc, ◌+◌, ◌*◌, ◌%◌, Bool, true, false, Option, none, some, List, [], ◌∷◌, ◌==◌,
  if◌then◌else◌, get_elem?, set,
}

abbrev pub Block : Type 0
Block = List ℕ

-- the contents of the device by sector
abbrev pub Device : Type 0
Device = ℕ → Block

-- `block_write(fs_device, sector, buffer)`
unfoldable pub block_write : ℕ → Block → Device → Device
block_write sector buffer d s = if s == sector then buffer else d s

-- `struct buffer_cache_entry_t`
pub record Entry : Type 0 where
  pub occupied : Bool
  pub disk_sector : ℕ
  pub buffer : Block
  pub dirty : Bool
  pub access : Bool

-- the array `cache`, the static variable `clock`, and the device
pub record Cache : Type 0 where
  pub entries : List Entry
  pub clock : ℕ
  pub device : Device

abbrev pub buffer_cache_size : ℕ
buffer_cache_size = 64

-- the loop of `buffer_cache_init`
unfoldable pub clear_entries : List Entry → List Entry
clear_entries [] = []
clear_entries (e ∷ es) = record e { occupied = false; dirty = false } ∷ clear_entries es

unfoldable pub buffer_cache_init : Cache → Cache
unfolding clear_entries
buffer_cache_init c = record c { entries = clear_entries c.entries }

-- `buffer_cache_flush`: the entry and the device
unfoldable pub buffer_cache_flush : Entry → Device → Entry × Device
buffer_cache_flush e d =
    if e.dirty then (record e { dirty = false }, block_write e.disk_sector e.buffer d) else (e, d)

-- the loop of `buffer_cache_close`
unfoldable pub flush_all : List Entry → Device → List Entry × Device
flush_all [] d = ([], d)
flush_all (e ∷ es) d = elim e.occupied [
  | false ↦ let (es', d') = flush_all es d in (e ∷ es', d')
  | true ↦
      let (e', d1) = buffer_cache_flush e d in let (es', d') = flush_all es d1 in (e' ∷ es', d')
]

unfoldable pub buffer_cache_close : Cache → Cache
buffer_cache_close c =
    let (es, d) = flush_all c.entries c.device in record c { entries = es; device = d }

-- `buffer_cache_lookup`: the index of the entry
unfoldable pub lookup_from : (i : ℕ) → ℕ → List Entry → Option ℕ
lookup_from i sector [] = none
lookup_from i sector (e ∷ es) = elim e.occupied [
  | false ↦ lookup_from (suc i) sector es
  | true ↦ elim (e.disk_sector == sector) [ true ↦ some i | false ↦ lookup_from (suc i) sector es ]
]

unfoldable pub buffer_cache_lookup : ℕ → List Entry → Option ℕ
buffer_cache_lookup sector es = lookup_from 0 sector es

-- an entry whose access bit was used up
unfoldable pub second_chance : Entry → Entry
second_chance e = record e { access = false }

-- The loop of the clock on fuel, and where it stops: the second chance of an entry is its access bit.
-- `none` is no fuel, or a clock behind the array.
unfoldable pub run_clock : (fuel size : ℕ) → List Entry → ℕ → Option (List Entry × ℕ)
run_clock zero size es clock = none
run_clock (suc fuel) size es clock = elim (get_elem? es clock) [
  | none ↦ none
  | some e ↦ elim e.occupied [
    | false ↦ some (es, clock)
    | true ↦ elim e.access [
      | false ↦ some (es, clock)
      | true ↦ run_clock fuel size (set es clock (second_chance e)) ((clock + 1) % size)
    ]
  ]
]

-- `buffer_cache_evict`: the index of a slot that is free then, and the cache. No entry is passed
-- twice, so that a round more than the array has entries is enough fuel.
unfoldable pub buffer_cache_evict : Cache → Option (ℕ × Cache)
buffer_cache_evict c =
    elim (run_clock (buffer_cache_size + 1) buffer_cache_size c.entries c.clock) [
      | none ↦ none
      | some (es, clock) ↦ elim (get_elem? es clock) [
        | none ↦ none
        | some e ↦ elim e.occupied [
          | false ↦ some (clock, record c { entries = es; clock = clock })
          | true ↦
              let (e', d) = buffer_cache_flush e c.device in
              some (
                clock,
                record {
                  entries = set es clock (record e' { occupied = false });
                  clock = clock;
                  device = d;
                },
              )
        ]
      ]
    ]

-- The entry of a sector, which is filled from the device at a miss: its index and the cache.
unfoldable pub slot_of : ℕ → Cache → Option (ℕ × Cache)
slot_of sector c = elim (buffer_cache_lookup sector c.entries) [
  | some i ↦ some (i, c)
  | none ↦ elim (buffer_cache_evict c) [
    | none ↦ none
    | some (i, c') ↦ elim (get_elem? c'.entries i) [
      | none ↦ none
      | some e ↦ some (
        i,
        record c' {
          entries = set c'.entries i (record e {
            occupied = true;
            disk_sector = sector;
            dirty = false;
            buffer = c'.device sector;
          });
        },
      )
    ]
  ]
]

-- `buffer_cache_read`: the bytes that go to `target`
unfoldable pub buffer_cache_read : ℕ → Cache → Option (Block × Cache)
buffer_cache_read sector c = elim (slot_of sector c) [
  | none ↦ none
  | some (i, c') ↦ elim (get_elem? c'.entries i) [
    | none ↦ none
    | some e ↦
        some (e.buffer, record c' { entries = set c'.entries i (record e { access = true }) })
  ]
]

-- `buffer_cache_write`
unfoldable pub buffer_cache_write : ℕ → Block → Cache → Option Cache
buffer_cache_write sector source c = elim (slot_of sector c) [
  | none ↦ none
  | some (i, c') ↦ elim (get_elem? c'.entries i) [
    | none ↦ none
    | some e ↦ some (record c' {
      entries = set c'.entries i (record e { access = true; dirty = true; buffer = source });
    })
  ]
]

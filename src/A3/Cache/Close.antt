-- ===== src/A3/Cache/Close.antt =====
-- The start and the end of the buffer cache of a3/fs/cache.c.
use ecse_427_simple_shell_cr.Base.{
  ℕ, zero, suc, ◌<◌, ◌≡◌, ◌≢◌, inl, inr, refl, ap, ◌∙◌, Bool, true, false, some, List, [], ◌∷◌,
  get_elem?, length, lt-length_of_get_elem?, arith, Bool-cases, ℕ_discrete,
}
use ecse_427_simple_shell_cr.A3.Cache.{
  Block, Device, block_write, Entry, Cache, buffer_cache_size, clear_entries, buffer_cache_init,
  buffer_cache_flush, flush_all, buffer_cache_close,
}
use ecse_427_simple_shell_cr.A3.Cache.Represents.{
  NotDirty, Represents, block_write_same, block_write_other,
}

flush_all-free :
    (e : Entry) (es : List Entry) (d : Device)
    → e.occupied ≡ false
    → (flush_all (e ∷ es) d).1 ≡ (flush_all es d).1
unfolding flush_all
flush_all-free e es d o = rw o

flush_all-clean :
    (e : Entry) (es : List Entry) (d : Device)
    → e.occupied ≡ true
    → e.dirty ≡ false
    → (flush_all (e ∷ es) d).1 ≡ (flush_all es d).1
unfolding flush_all buffer_cache_flush
flush_all-clean e es d o c = simp (o, c)

flush_all-dirty :
    (e : Entry) (es : List Entry) (d : Device)
    → e.occupied ≡ true
    → e.dirty ≡ true
    → (flush_all (e ∷ es) d).1 ≡ (flush_all es (block_write e.disk_sector e.buffer d)).1
unfolding flush_all buffer_cache_flush
flush_all-dirty e es d o t = simp (o, t)

flush_all-nil : {m : Block} {s : ℕ} (d : Device) → d s ≡ m → (flush_all [] d).1 s ≡ m
unfolding flush_all
flush_all-nil d h = h

nil-NotDirty : (s : ℕ) → NotDirty [] s
nil-NotDirty s j f g = let lt = lt-length_of_get_elem? [] j f g in absurd (omega arith)

NotDirty-cons :
    (e : Entry) (es : List Entry) (s : ℕ)
    → (e.occupied ≡ true → e.dirty ≡ true → e.disk_sector ≢ s)
    → NotDirty es s
    → NotDirty (e ∷ es) s
NotDirty-cons e es s own h (suc j) f g occ dirty = h j f g occ dirty
NotDirty-cons e es s own h zero f g occ dirty =
    let q : f ≡ e = cc in rw q (own (rw (← q) occ) (rw (← q) dirty))

module _ (m : ℕ → Block) (s : ℕ) where
  -- A sector that is right on the device unless a dirty entry holds it is right after the flush.
  flush_all-device :
      (es : List Entry) (d : Device)
      → ((i : ℕ) (e : Entry)
          → get_elem? es i ≡ some e
          → e.occupied ≡ true
          → e.buffer ≡ m e.disk_sector)
      → (NotDirty es s → d s ≡ m s)
      → (flush_all es d).1 s ≡ m s
  flush_all-device [] d right h = flush_all-nil d (h (nil-NotDirty s))
  flush_all-device (e ∷ es) d right h =
      let rest : (d' : Device) → (NotDirty es s → d' s ≡ m s) → (flush_all es d').1 s ≡ m s =
        λ d'. flush_all-device es d' (λ i f. right (suc i) f) in
      elim (Bool-cases e.occupied) [
        | inr o ↦
            rw (flush_all-free e es d o) (rest d (λ n. h (NotDirty-cons e es s (λ occ _. cc) n)))
        | inl o ↦ elim (Bool-cases e.dirty) [
          | inr c ↦
              rw (flush_all-clean e es d o c)
                (rest d (λ n. h (NotDirty-cons e es s (λ _ dirty. cc) n)))
          | inl t ↦ rw (flush_all-dirty e es d o t) (
              rest _ λ n. elim (ℕ_discrete e.disk_sector s) [
                | yes p ↦ rw (← p) (block_write_same e.disk_sector e.buffer d ∙ right 0 e refl o)
                | no p ↦
                    block_write_other e.disk_sector s e.buffer d p
                    ∙ h (NotDirty-cons e es s (λ _ _. p) n)
              ])
        ]
      ]

true_ne_false : {b : Bool} → b ≡ true → ¬ (b ≡ false)
true_ne_false h g = cc

clear_entries-Free :
    (es : List Entry) (i : ℕ) (e : Entry)
    → get_elem? (clear_entries es) i ≡ some e
    → e.occupied ≡ false
unfolding clear_entries
clear_entries-Free [] i e g = cc
clear_entries-Free (x ∷ es) zero e g = cc
clear_entries-Free (x ∷ es) (suc i) e g = clear_entries-Free es i e g

length-clear_entries : (es : List Entry) → length (clear_entries es) ≡ length es
unfolding clear_entries
length-clear_entries [] = refl
length-clear_entries (e ∷ es) = ap suc (length-clear_entries es)

-- A cache of 64 entries with its clock inside holds, once initialised, what is on the device.
pub buffer_cache_init-Represents :
    (c : Cache)
    → length c.entries ≡ buffer_cache_size
    → c.clock < buffer_cache_size
    → Represents (buffer_cache_init c) c.device
unfolding buffer_cache_init
buffer_cache_init-Represents c full within =
    let free = clear_entries-Free c.entries in
    record {
      holds = record {
        buffered = λ i e g occ. let o = free i e g in absurd (true_ne_false occ o);
        written = λ s n. refl;
        distinct = λ i j e f g g' occ occ' same. absurd (true_ne_false occ (free i e g));
      };
      full = length-clear_entries c.entries ∙ full;
      clock_in = within;
    }

-- On a cache that holds some contents, `buffer_cache_close` leaves all of them on the device.
pub buffer_cache_close-device :
    (c : Cache) (m : ℕ → Block) → Represents c m → (s : ℕ) → (buffer_cache_close c).device s ≡ m s
unfolding buffer_cache_close
buffer_cache_close-device c m r s =
    flush_all-device m s c.entries c.device r.holds.buffered (r.holds.written s)

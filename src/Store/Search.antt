-- ===== src/Store/Search.antt =====
-- What the search loop of shellmemory.c finds, and how a write of one slot changes what it finds.
use ecse_427_simple_shell_cr.Base.{
  ℕ, zero, suc, ◌≤◌, ◌<◌, ◌≡◌, refl, ap, ◌∙◌, Bool, true, inl, inr, Bool-cases, Option, none, some,
  List, [], ◌∷◌, arith, get_elem?, set, length,
}
use ecse_427_simple_shell_cr.Store.{Slot, find_from}
use mathlib.Core.Option

Option-map_inv :
    (o : Option ℕ) (i : ℕ) → Option.map suc o ≡ some i → (j : ℕ) × (o ≡ some j) × (i ≡ suc j)
Option-map_inv none i h = cc
Option-map_inv (some j) i h = (j, refl, cc)

-- The index that is found is in the range, and its slot passes the test.
pub find_from-some :
    (test : Slot → Bool) (start : ℕ) (m : List Slot) (i : ℕ)
    → find_from test start m ≡ some i
    → (s : Slot) × (get_elem? m i ≡ some s) × (test s ≡ true) × (start ≤ i)
unfolding find_from
find_from-some test start [] i h = cc
find_from-some test (suc n) (s ∷ m) i h =
    let (j, e, q) = Option-map_inv (find_from test n m) i h in
    let (t, g, p, le) = find_from-some test n m j e in
    (t, ap (get_elem? (s ∷ m)) q ∙ g, p, omega arith)
find_from-some test zero (s ∷ m) i h = elim (Bool-cases (test s)) [
  | inl hit ↦ (s, ground arith, hit, omega arith)
  | inr miss ↦
      let (j, e, q) = Option-map_inv (find_from test zero m) i (rw miss at h) in
      let (t, g, p, le) = find_from-some test zero m j e in
      (t, ap (get_elem? (s ∷ m)) q ∙ g, p, omega arith)
]

-- A write that does not change the outcome of the test is not noticed.
pub find_from-set_same :
    (test : Slot → Bool) (start : ℕ) (m : List Slot) (i : ℕ) (s t : Slot)
    → get_elem? m i ≡ some s
    → test t ≡ test s
    → find_from test start (set m i t) ≡ find_from test start m
unfolding find_from
find_from-set_same test start [] i s t h e = refl
find_from-set_same test zero (x ∷ m) zero s t h e = ground arith
find_from-set_same test zero (x ∷ m) (suc i) s t h e = rw (find_from-set_same test zero m i s t h e)
find_from-set_same test (suc n) (x ∷ m) zero s t h e = refl
find_from-set_same test (suc n) (x ∷ m) (suc i) s t h e = rw (find_from-set_same test n m i s t h e)

-- Where nothing passes, a slot that is written so that it passes is the one found.
pub find_from-set_new :
    (test : Slot → Bool) (start : ℕ) (m : List Slot) (i : ℕ) (t : Slot)
    → find_from test start m ≡ none
    → start ≤ i
    → i < length m
    → test t ≡ true
    → find_from test start (set m i t) ≡ some i
unfolding find_from
find_from-set_new test start [] i t h le lt e = absurd (omega arith)
find_from-set_new test zero (x ∷ m) zero t h le lt e = rw e
find_from-set_new test zero (x ∷ m) (suc i) t h le lt e =
    ground (arith, find_from-set_new test zero m i t)
find_from-set_new test (suc n) (x ∷ m) zero t h le lt e = absurd (omega arith)
find_from-set_new test (suc n) (x ∷ m) (suc i) t h le lt e =
    ground (arith, find_from-set_new test n m i t)

-- ===== src/A3/FsUtil/Nulls.antt =====
-- `remove_nulls` of a3/fs/fsutil2.c.
use ecse_427_simple_shell_cr.Base.{
  ℕ, zero, suc, ◌+◌, ◌-◌, ◌<◌, ◌≤◌, ◌≡◌, refl, sym, ap, ◌∙◌, inl, inr, true, false, Option, none,
  some, [], ◌∷◌, ◌++◌, Str, ◌==◌, if◌then◌else◌, length, take, drop, arith, Bool-cases,
  Option-cases,
}
use mathlib.Core.Option
use ecse_427_simple_shell_cr.A3.FsUtil.{find_null, shift_out, remove_loop, remove_nulls}

-- the bytes that are not zero
unfoldable pub nonzero : Str → Str
nonzero [] = []
nonzero (c ∷ s) = if c == 0 then nonzero s else c ∷ nonzero s

map-none : (o : Option ℕ) → Option.map suc o ≡ none → o ≡ none
map-none none h = refl
map-none (some q) h = cc

none_ne_some : (p : ℕ) → ¬ (none ≡ some p)
none_ne_some p h = cc

map-some : (o : Option ℕ) (p : ℕ) → Option.map suc o ≡ some p → (q : ℕ) × (o ≡ some q) × (p ≡ suc q)
map-some none p h = cc
map-some (some q) p h = (q, refl, cc)

-- The part of a buffer without zeros.
find_null-none : (len : ℕ) (s : Str) → find_null len s ≡ none → nonzero (take len s) ≡ take len s
unfolding find_null nonzero
find_null-none zero s h = refl
find_null-none (suc n) [] h = refl
find_null-none (suc n) (c ∷ s) h = elim (Bool-cases (c == 0)) [
  | inl t ↦ let found : ◌≡◌ {A = Option ℕ} (some 0) none = rw t at h in cc
  | inr f ↦
      let rest : Option.map suc (find_null n s) ≡ none = rw f at h in
      rw f (ap (◌∷◌ c) (find_null-none n s (map-none (find_null n s) rest)))
]

take-append : (n : ℕ) (s t : Str) → n ≤ length s → take n (take n s ++ t) ≡ take n s
take-append zero s t le = refl
take-append (suc n) [] t le = absurd (omega arith)
take-append (suc n) (c ∷ s) t le = ap (◌∷◌ c) (take-append n s t (omega arith))

le-take_append : (n : ℕ) (s t : Str) → n ≤ length s → n ≤ length (take n s ++ t)
le-take_append zero s t le = omega arith
le-take_append (suc n) [] t le = absurd (omega arith)
le-take_append (suc n) (c ∷ s) t le = omega (arith, le-take_append n s t (omega arith))

shift_out-first : (n c : ℕ) (s : Str) → shift_out 0 n (c ∷ s) ≡ take n s ++ drop n (c ∷ s)
unfolding shift_out
shift_out-first n c s = let e : 0 + n ≡ n = omega arith in rw e refl

shift_out-cons : (p k c : ℕ) (s : Str) → shift_out (suc p) k (c ∷ s) ≡ c ∷ shift_out p k s
unfolding shift_out
shift_out-cons p k c s =
    let e : suc p + 1 ≡ suc (p + 1) = omega arith in
    let e' : suc p + k ≡ suc (p + k) = omega arith in rw (e, e') refl

-- what a round leaves of the first bytes of a buffer
abbrev Removed : (n p : ℕ) → Str → Type 0
Removed n p s =
    (p ≤ n)
    × (nonzero (take n (shift_out p (n - p) s)) ≡ nonzero (take (suc n) s))
    × (n ≤ length (shift_out p (n - p) s))

Removed-first : (n c : ℕ) (s : Str) → (c == 0) ≡ true → n ≤ length s → Removed n 0 (c ∷ s)
unfolding nonzero
Removed-first n c s t le =
    let e : n - 0 ≡ n = omega arith in
    (
      omega arith,
      rw (e, shift_out-first n c s, take-append n s (drop n (c ∷ s)) le, t) refl,
      rw (e, shift_out-first n c s) (le-take_append n s (drop n (c ∷ s)) le),
    )

Removed-cons :
    (n q c : ℕ) (s : Str) → (c == 0) ≡ false → Removed n q s → Removed (suc n) (suc q) (c ∷ s)
unfolding nonzero
Removed-cons n q c s f (le, kept, fits) =
    let e : suc n - suc q ≡ n - q = omega arith in
    (
      omega arith,
      rw (e, shift_out-cons q (n - q) c s, f) (ap (◌∷◌ c) kept),
      rw (e, shift_out-cons q (n - q) c s) (omega arith),
    )

-- A round removes the first zero.
find_null-Removed :
    (n p : ℕ) (s : Str) → suc n ≤ length s → find_null (suc n) s ≡ some p → Removed n p s
unfolding find_null
find_null-Removed n p [] le h = absurd (omega arith)
find_null-Removed zero p (c ∷ s) le h = elim (Bool-cases (c == 0)) [
  | inl t ↦
      let found : some 0 ≡ some p = rw t at h in
      let q : p ≡ 0 = cc in rw q (Removed-first 0 c s t (omega arith))
  | inr f ↦ let found : none ≡ some p = rw f at h in absurd (none_ne_some p found)
]
find_null-Removed (suc n) p (c ∷ s) le h = elim (Bool-cases (c == 0)) [
  | inl t ↦
      let found : some 0 ≡ some p = rw t at h in
      let q : p ≡ 0 = cc in rw q (Removed-first (suc n) c s t (omega arith))
  | inr f ↦
      let rest : Option.map suc (find_null (suc n) s) ≡ some p = rw f at h in
      let (q, e, e') = map-some (find_null (suc n) s) p rest in
      rw e' (Removed-cons n q c s f (find_null-Removed n q s (omega arith) e))
]

remove_loop-step :
    (fuel n p : ℕ) (s : Str)
    → p ≤ n
    → find_null (suc n) s ≡ some p
    → remove_loop (suc fuel) s (suc n) ≡ remove_loop fuel (shift_out p (n - p) s) n
unfolding remove_loop
remove_loop-step fuel n p s le e =
    let k : suc n - p - 1 ≡ n - p = omega arith in
    let k' : suc n - 1 ≡ n = omega arith in rw (e, remove_loop, k, k') refl

remove_loop-nonzero :
    (fuel : ℕ) (s : Str) (len : ℕ)
    → len < fuel
    → len ≤ length s
    → (s' : Str) × (len' : ℕ) × (remove_loop fuel s len ≡ some (s', len'))
      × (take len' s' ≡ nonzero (take len s))
unfolding remove_loop find_null nonzero
remove_loop-nonzero zero s len lt le = absurd (omega arith)
remove_loop-nonzero (suc fuel) s zero lt le = (s, 0, refl, refl)
remove_loop-nonzero (suc fuel) s (suc n) lt le = elim (Option-cases (find_null (suc n) s)) [
  | inl e ↦ (s, suc n, rw (e, remove_loop), sym (find_null-none (suc n) s e))
  | inr (p, e) ↦
      let (inside, kept, fits) = find_null-Removed n p s le e in
      let (s', len', q, r) =
        remove_loop-nonzero fuel (shift_out p (n - p) s) n (omega arith) fits in
      (s', len', remove_loop-step fuel n p s inside e ∙ q, r ∙ kept)
]

-- `remove_nulls` of a part of a buffer ends, and what it leaves in front, up to the new length, is the part
-- without its zeros.
pub remove_nulls-nonzero :
    (s : Str) (len : ℕ)
    → len ≤ length s
    → (s' : Str) × (len' : ℕ) × (remove_nulls s len ≡ some (s', len'))
      × (take len' s' ≡ nonzero (take len s))
unfolding remove_nulls
remove_nulls-nonzero s len le = remove_loop-nonzero (len + 1) s len (omega arith) le

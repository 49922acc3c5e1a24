-- ===== src/A3/Memory/Frame.antt =====
-- What `frame_alloc` of a3/shellmemory.c does to the memory.
use ecse_427_simple_shell_cr.Base.{
  ℕ, ◌+◌, ◌<◌, ◌≡◌, ◌≢◌, ◌∙◌, sym, ap, ◌⊎◌, inl, inr, true, none, some, List, Str, arith, get_elem?,
  set, Option-cases, get_elem?-set_ne, get_elem?-set_self, lt-length_of_get_elem?,
}
use ecse_427_simple_shell_cr.Store.{Slot, slot, get_value}
use ecse_427_simple_shell_cr.Store.Below.{get_value-set_below}
use ecse_427_simple_shell_cr.A3.Memory.{is_free, frame_from, mark, frame_alloc}
use ecse_427_simple_shell_cr.A3.Memory.Alloc.{Frees, NoFrame, frame_from_lem}

-- a slot with the key `pid` and the value that the slot of the first memory has
abbrev pub Marked : Str → ℕ → List Slot → List Slot → Type 0
Marked pid k m m' =
    (s : Slot) × (get_elem? m k ≡ some s) × (get_elem? m' k ≡ some (slot pid s.value))

mark-some :
    (pid : Str) (k : ℕ) (m : List Slot) (s : Slot)
    → get_elem? m k ≡ some s
    → mark pid k m ≡ set m k (slot pid s.value)
unfolding mark
mark-some pid k m s e = rw (e, mark)

mark-none : (pid : Str) (k : ℕ) (m : List Slot) → get_elem? m k ≡ none → mark pid k m ≡ m
unfolding mark
mark-none pid k m e = rw (e, mark)

get_elem?-mark_ne :
    (pid : Str) (k : ℕ) (m : List Slot) (j : ℕ) → j ≢ k → get_elem? (mark pid k m) j ≡ get_elem? m j
get_elem?-mark_ne pid k m j ne = elim (Option-cases (get_elem? m k)) [
  | inl e ↦ ap (λ x. get_elem? x j) (mark-none pid k m e)
  | inr (s, e) ↦
      ap (λ x. get_elem? x j) (mark-some pid k m s e)
      ∙ get_elem?-set_ne m k j (slot pid s.value) (λ q. ne (sym q))
]

get_value-mark :
    (border : ℕ) (x : Str) (pid : Str) (k : ℕ) (m : List Slot)
    → k < border
    → get_value border x (mark pid k m) ≡ get_value border x m
get_value-mark border x pid k m lt = elim (Option-cases (get_elem? m k)) [
  | inl e ↦ ap (get_value border x) (mark-none pid k m e)
  | inr (s, e) ↦
      ap (get_value border x) (mark-some pid k m s e)
      ∙ get_value-set_below border x k m (slot pid s.value) lt
]

is_free-some : (m : List Slot) (k : ℕ) → is_free m k ≡ true → (s : Slot) × (get_elem? m k ≡ some s)
unfolding is_free
is_free-some m k f = elim (Option-cases (get_elem? m k)) [
  | inl e ↦ let g = rw (is_free, e) at f in cc
  | inr e ↦ e
]

get_elem?-mark_self :
    (pid : Str) (k : ℕ) (m : List Slot) (s : Slot)
    → get_elem? m k ≡ some s
    → get_elem? (mark pid k m) k ≡ some (slot pid s.value)
get_elem?-mark_self pid k m s e =
    ap (λ x. get_elem? x k) (mark-some pid k m s e)
    ∙ get_elem?-set_self m k (slot pid s.value) (lt-length_of_get_elem? m k s e)

module _ (border : ℕ) (pid : Str) (m : List Slot) where
  abbrev marked : ℕ → List Slot
  marked i = mark pid (i + 2) (mark pid (i + 1) (mark pid i m))

  marked-other : (i j : ℕ) → j ≢ i → j ≢ i + 1 → j ≢ i + 2 → get_elem? (marked i) j ≡ get_elem? m j
  marked-other i j n0 n1 n2 =
      get_elem?-mark_ne pid (i + 2) (mark pid (i + 1) (mark pid i m)) j n2
      ∙ get_elem?-mark_ne pid (i + 1) (mark pid i m) j n1
      ∙ get_elem?-mark_ne pid i m j n0

  -- The three slots of the frame from `i` on belong to the process, no other slot and no variable has
  -- changed.
  pub record Allocated (i : ℕ) (m' : List Slot) : Type 0 where
    pub first : Marked pid i m m'
    pub second : Marked pid (i + 1) m m'
    pub third : Marked pid (i + 2) m m'
    pub other : (j : ℕ) → j ≢ i → j ≢ i + 1 → j ≢ i + 2 → get_elem? m' j ≡ get_elem? m j
    pub variables : (x : Str) → get_value border x m' ≡ get_value border x m

  marked-Allocated : (i : ℕ) → Frees border m 3 i → Allocated i (marked i)
  marked-Allocated i (l0, f0, (l1, f1, (l2, f2, u))) =
      let m1 = mark pid i m in
      let m2 = mark pid (i + 1) m1 in
      let (s0, e0) = is_free-some m i f0 in
      let (s1, e1) = is_free-some m (i + 1) f1 in
      let same : i + 1 + 1 ≡ i + 2 = omega arith in
      let (s2, e2) = is_free-some m (i + 2) (rw same at f2) in
      record {
        first = (
          s0,
          e0,
          get_elem?-mark_ne pid (i + 2) m2 i (λ e. omega arith)
              ∙ get_elem?-mark_ne pid (i + 1) m1 i (λ e. omega arith)
              ∙ get_elem?-mark_self pid i m s0 e0,
        );
        second = (
          s1,
          e1,
          get_elem?-mark_ne pid (i + 2) m2 (i + 1) (λ e. omega arith)
              ∙ get_elem?-mark_self pid (i + 1) m1 s1
                  (get_elem?-mark_ne pid i m (i + 1) (λ e. omega arith) ∙ e1),
        );
        third = (
          s2,
          e2,
          get_elem?-mark_self pid (i + 2) m2 s2 (
              get_elem?-mark_ne pid (i + 1) m1 (i + 2) (λ e. omega arith)
              ∙ get_elem?-mark_ne pid i m (i + 2) (λ e. omega arith)
              ∙ e2),
        );
        other = marked-other i;
        variables = λ x.
            get_value-mark border x pid (i + 2) m2 (omega arith)
            ∙ get_value-mark border x pid (i + 1) m1 l1
            ∙ get_value-mark border x pid i m l0;
      }

  frame_alloc-some :
      (i : ℕ)
      → frame_from border m border 0 ≡ some i
      → frame_alloc border pid m ≡ some (i, marked i)
  unfolding frame_alloc
  frame_alloc-some i e = rw (e, frame_alloc)

  frame_alloc-none : frame_from border m border 0 ≡ none → frame_alloc border pid m ≡ none
  unfolding frame_alloc
  frame_alloc-none e = rw (e, frame_alloc)

  -- Either the first three free slots in a row below the border are given to the process, with no change
  -- to any other slot or to a variable, or there are no such slots and the call fails.
  pub frame_alloc_lem :
      ((i : ℕ) × (m' : List Slot) × (frame_alloc border pid m ≡ some (i, m'))
        × Frees border m 3 i
        × NoFrame border m 0 i
        × Allocated i m')
      ⊎ ((frame_alloc border pid m ≡ none) × ((i : ℕ) → ¬ Frees border m 3 i))
  frame_alloc_lem = elim (frame_from_lem border m border 0) [
    | inl (i, e, f, h) ↦ inl (i, marked i, frame_alloc-some i e, f, h, marked-Allocated i f)
    | inr (e, h) ↦ inr (frame_alloc-none e, λ i f. h i (omega arith) (omega (arith, f.0)) f)
  ]

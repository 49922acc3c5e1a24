-- ===== src/Store/Update.antt =====
-- What a read of the store returns after a write, for `set_value` and `get_value`.
use ecse_427_simple_shell_cr.Base.{
  ℕ, ◌≤◌, ◌<◌, ◌≡◌, ◌≢◌, refl, sym, ◌∙◌, true, false, inl, inr, ◌⊎◌, Option-cases, none, some, List,
  arith, get_elem?, set, length, Str, str_eq, str_eq_refl, eq_of_str_eq, str_eq_ne, length-set,
  get_elem?-set_self, get_elem?-set_ne, lt-length_of_get_elem?,
}
use ecse_427_simple_shell_cr.Store.{Slot, slot, none_str, has_var, find_from, set_value, get_value}
use ecse_427_simple_shell_cr.Store.Search.{find_from-some, find_from-set_same, find_from-set_new}

-- The three outcomes of a write.
data Written (start : ℕ) (k v : Str) (m : List Slot) : List Slot → Type 0 where
  replaced :
      (i : ℕ) (s : Slot)
      → find_from (has_var k) start m ≡ some i
      → get_elem? m i ≡ some s
      → str_eq s.var k ≡ true
      → start ≤ i
      → Written start k v m (set m i (slot s.var v))
  added :
      (i : ℕ) (s : Slot)
      → find_from (has_var k) start m ≡ none
      → find_from (has_var none_str) start m ≡ some i
      → get_elem? m i ≡ some s
      → str_eq s.var none_str ≡ true
      → start ≤ i
      → Written start k v m (set m i (slot k v))
  dropped :
      find_from (has_var k) start m ≡ none
      → find_from (has_var none_str) start m ≡ none
      → Written start k v m m

set_value-Written :
    (start : ℕ) (k v : Str) (m : List Slot) → Written start k v m (set_value start k v m)
unfolding set_value
set_value-Written start k v m = elim (Option-cases (find_from (has_var k) start m)) [
  | inr (i, e) ↦
      let (s, g, t, le) = find_from-some (has_var k) start m i e in
      rw (e, set_value, g) (replaced i s e g t le)
  | inl e ↦
      rw (e, set_value)
        (elim (Option-cases (find_from (has_var none_str) start m)) [
          | inr (i, f) ↦
              let (s, g, t, le) = find_from-some (has_var none_str) start m i f in
              rw (f, set_value) (added i s e f g t le)
          | inl f ↦ rw (f, set_value) (dropped e f)
        ])
]

-- The store has room for a key that is in it, and for any key while a slot is free.
abbrev pub HasRoom : ℕ → Str → List Slot → Type 0
HasRoom start k m =
    (find_from (has_var k) start m ≢ none) ⊎ (find_from (has_var none_str) start m ≢ none)

get_value-at :
    (start : ℕ) (k : Str) (m : List Slot) (i : ℕ) (s : Slot)
    → find_from (has_var k) start m ≡ some i
    → get_elem? m i ≡ some s
    → get_value start k m ≡ some s.value
unfolding get_value
get_value-at start k m i s e g = rw (e, get_value, g)

get_value-Written :
    (start : ℕ) (k v : Str) (m m' : List Slot)
    → Written start k v m m'
    → HasRoom start k m
    → get_value start k m' ≡ some v
get_value-Written start k v m _ (replaced i s e g t le) r =
    get_value-at start k _ i (slot s.var v)
      (find_from-set_same (has_var k) start m i s (slot s.var v) g refl ∙ e)
      (get_elem?-set_self m i _ (lt-length_of_get_elem? m i s g))
get_value-Written start k v m _ (added i s e f g t le) r =
    get_value-at start k _ i (slot k v)
      (find_from-set_new (has_var k) start m i (slot k v) e le (lt-length_of_get_elem? m i s g)
        (str_eq_refl k))
      (get_elem?-set_self m i _ (lt-length_of_get_elem? m i s g))
get_value-Written start k v m _ (dropped e f) (inl r) = absurd (r e)
get_value-Written start k v m _ (dropped e f) (inr r) = absurd (r f)

-- With room for the key, a value that was set is the one that is read.
pub get_value-set_value :
    (start : ℕ) (k v : Str) (m : List Slot)
    → HasRoom start k m
    → get_value start k (set_value start k v m) ≡ some v
get_value-set_value start k v m =
    get_value-Written start k v m (set_value start k v m) (set_value-Written start k v m)

-- A slot whose key is not `j`, before and after, can be written without a reader of `j` noticing.
get_value-set_other :
    (start : ℕ) (j : Str) (m : List Slot) (i : ℕ) (s t : Slot)
    → get_elem? m i ≡ some s
    → str_eq s.var j ≡ false
    → str_eq t.var j ≡ false
    → get_value start j (set m i t) ≡ get_value start j m
unfolding get_value
get_value-set_other start j m i s t g p q =
    let same = find_from-set_same (has_var j) start m i s t g (q ∙ sym p) in
    elim (Option-cases (find_from (has_var j) start m)) [
      | inl e ↦ rw (same, e, get_value)
      | inr (n, e) ↦
          let (u, h, hit, le) = find_from-some (has_var j) start m n e in
          rw (same, e, get_value, get_elem?-set_ne m i n t (λ x. cc))
    ]

get_value-Written_ne :
    (start : ℕ) (k v j : Str) (m m' : List Slot)
    → Written start k v m m'
    → j ≢ k
    → j ≢ none_str
    → get_value start j m' ≡ get_value start j m
get_value-Written_ne start k v j m _ (replaced i s e g t le) ne nn =
    get_value-set_other start j m i s (slot s.var v) g
      (ground (arith, eq_of_str_eq s.var k, eq_of_str_eq s.var j))
      (ground (arith, eq_of_str_eq s.var k, eq_of_str_eq s.var j))
get_value-Written_ne start k v j m _ (added i s e f g t le) ne nn =
    get_value-set_other start j m i s (slot k v) g
      (ground (arith, eq_of_str_eq s.var none_str, eq_of_str_eq s.var j))
      (str_eq_ne k j (λ x. ne (sym x)))
get_value-Written_ne start k v j m _ (dropped e f) ne nn = refl

-- A write of a key leaves the value of every other key but "none" as it is, or absent.
pub get_value-set_value_ne :
    (start : ℕ) (k v j : Str) (m : List Slot)
    → j ≢ k
    → j ≢ none_str
    → get_value start j (set_value start k v m) ≡ get_value start j m
get_value-set_value_ne start k v j m =
    get_value-Written_ne start k v j m (set_value start k v m) (set_value-Written start k v m)

-- The slots below `start` keep their contents, and no slot comes or goes.
pub set_value_frame :
    (start : ℕ) (k v : Str) (m : List Slot) (i : ℕ)
    → i < start
    → (length (set_value start k v m) ≡ length m)
      × (get_elem? (set_value start k v m) i ≡ get_elem? m i)
set_value_frame start k v m j lt = frame (set_value start k v m) (set_value-Written start k v m)
  where
    frame :
        (m' : List Slot)
        → Written start k v m m'
        → (length m' ≡ length m) × (get_elem? m' j ≡ get_elem? m j)
    frame _ (replaced i s e g t le) = (length-set m i _, get_elem?-set_ne m i j _ (omega arith))
    frame _ (added i s e f g t le) = (length-set m i _, get_elem?-set_ne m i j _ (omega arith))
    frame _ (dropped e f) = (refl, refl)

-- With no slot for the key and none free, the write is lost.
pub set_value_full :
    (start : ℕ) (k v : Str) (m : List Slot) → ¬ HasRoom start k m → set_value start k v m ≡ m
set_value_full start k v m full = lost (set_value start k v m) (set_value-Written start k v m)
  where
    lost : (m' : List Slot) → Written start k v m m' → m' ≡ m
    lost _ (replaced i s e g t le) = absurd (full (inl (λ x. cc)))
    lost _ (added i s e f g t le) = absurd (full (inr (λ x. cc)))
    lost _ (dropped e f) = refl

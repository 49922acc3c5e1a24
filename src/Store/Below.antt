-- ===== src/Store/Below.antt =====
-- Writes to slots below the start of a variable store.
use ecse_427_simple_shell_cr.Base.{
  ℕ, zero, suc, ◌<◌, ◌≡◌, refl, ◌∙◌, ap, inl, inr, Bool, none, some, List, [], ◌∷◌, Str, sym, arith,
  get_elem?, set, get_elem?-set_ne, Option-cases,
}
use ecse_427_simple_shell_cr.Store.{Slot, has_var, find_from, get_value}
use ecse_427_simple_shell_cr.Store.Search.{find_from-some}
use mathlib.Core.Option

find_from-set_below :
    (test : Slot → Bool) (start i : ℕ) (m : List Slot) (t : Slot)
    → i < start
    → find_from test start (set m i t) ≡ find_from test start m
unfolding find_from
find_from-set_below test zero i m t lt = absurd (omega arith)
find_from-set_below test (suc n) i [] t lt = refl
find_from-set_below test (suc n) zero (s ∷ m) t lt = refl
find_from-set_below test (suc n) (suc i) (s ∷ m) t lt =
    rw (find_from-set_below test n i m t (omega arith))

pub get_value-none :
    (start : ℕ) (k : Str) (m : List Slot)
    → find_from (has_var k) start m ≡ none
    → get_value start k m ≡ none
unfolding get_value
get_value-none start k m e = rw (e, get_value)

get_value-some :
    (start i : ℕ) (k : Str) (m : List Slot)
    → find_from (has_var k) start m ≡ some i
    → get_value start k m ≡ Option.map (λ s. s.value) (get_elem? m i)
unfolding get_value
get_value-some start i k m e = rw (e, get_value)

-- A write below the start leaves every variable's value as it is.
pub get_value-set_below :
    (start : ℕ) (k : Str) (i : ℕ) (m : List Slot) (t : Slot)
    → i < start
    → get_value start k (set m i t) ≡ get_value start k m
get_value-set_below start k i m t lt = elim (Option-cases (find_from (has_var k) start m)) [
  | inl e ↦
      get_value-none start k (set m i t) (find_from-set_below (has_var k) start i m t lt ∙ e)
      ∙ sym (get_value-none start k m e)
  | inr (j, e) ↦
      let (s, g, p, le) = find_from-some (has_var k) start m j e in
      get_value-some start j k (set m i t) (find_from-set_below (has_var k) start i m t lt ∙ e)
      ∙ ap (Option.map (λ x. x.value)) (get_elem?-set_ne m i j t (omega arith))
      ∙ sym (get_value-some start j k m e)
]

-- ===== src/Store.antt =====
-- The array of key and value pairs that shellmemory.c keeps in each of the three shells, and the
-- loops over it that the three copies share. A shell gives the index at which its loop starts.
pub mod Search
pub mod Below
pub mod Update
mod Tests
use ecse_427_simple_shell_cr.Base.{
  ℕ, zero, suc, Bool, Option, none, some, List, [], ◌∷◌, Str, codes, str_eq, if◌then◌else◌,
  get_elem?, set, replicate,
}
use mathlib.Core.Option

-- `struct memory_struct`; a slot whose `var` is "none" is free
pub record Slot : Type 0 where
  pub var : Str
  pub value : Str

abbrev pub slot : Str → Str → Slot
slot k v = record { var = k; value = v }

abbrev pub none_str : Str
none_str = codes "none"

abbrev pub free_slot : Slot
free_slot = slot none_str none_str

abbrev pub has_var : Str → Slot → Bool
has_var k s = str_eq s.var k

-- `for (i = start; i < size; i++) if (test(shellmemory[i])) return i;`
unfoldable pub find_from : (Slot → Bool) → ℕ → List Slot → Option ℕ
find_from test start [] = none
find_from test (suc n) (s ∷ m) = Option.map suc (find_from test n m)
find_from test zero (s ∷ m) = if test s then some 0 else Option.map suc (find_from test zero m)

-- `mem_init` at a given size
unfoldable pub init : ℕ → List Slot
init size = replicate size free_slot

-- A key that is there has its value replaced; a new key takes the first free slot from `start` on;
-- with neither, nothing is written.
unfoldable pub set_value : ℕ → Str → Str → List Slot → List Slot
set_value start k v m = elim (find_from (has_var k) start m) [
  | some i ↦ elim (get_elem? m i) [ some s ↦ set m i (slot s.var v) | none ↦ m ]
  | none ↦ elim (find_from (has_var none_str) start m) [ some i ↦ set m i (slot k v) | none ↦ m ]
]

unfoldable pub get_value : ℕ → Str → List Slot → Option Str
get_value start k m = elim (find_from (has_var k) start m) [
  | some i ↦ Option.map (λ s. s.value) (get_elem? m i)
  | none ↦ none
]

-- ===== src/A3/Memory.antt =====
-- a3/shellmemory.c: the memory of frames and variables, with the border between them.
pub mod Alloc
pub mod Frame
use ecse_427_simple_shell_cr.Base.{
  ℕ, zero, suc, ◌+◌, Bool, true, false, not, Option, none, some, List, [], ◌∷◌, Str, codes, str_eq,
  ltb, ◌==◌, if◌then◌else◌, get_elem?, set, length,
}
use ecse_427_simple_shell_cr.Store.{
  Slot, slot, none_str, free_slot, has_var, init, set_value, get_value,
}
use mathlib.Core.Option

unfoldable pub mem_init : (frame_size var_size : ℕ) → List Slot
mem_init frame_size var_size = init (frame_size + var_size)

-- `mem_free_at`; `none` is a write behind the array.
unfoldable pub mem_free_at : ℕ → List Slot → Option (List Slot)
mem_free_at i m = if ltb i (length m) then some (set m i free_slot) else none

-- `clear_frame`
unfoldable pub clear_frame : ℕ → List Slot → Option (List Slot)
clear_frame start m = elim (mem_free_at start m) [
  | none ↦ none
  | some m1 ↦ elim (mem_free_at (start + 1) m1) [
    | none ↦ none
    | some m2 ↦ mem_free_at (start + 2) m2
  ]
]

unfoldable pub is_free : List Slot → ℕ → Bool
is_free m i = elim (get_elem? m i) [ none ↦ false | some s ↦ has_var none_str s ]

-- The inner loop of `frame_alloc`: where it stops, with at most so many steps from `j` on.
unfoldable pub run_end : (border : ℕ) → List Slot → ℕ → ℕ → ℕ
run_end border m zero j = j
run_end border m (suc n) j = elim (ltb j border) [
  | false ↦ j
  | true ↦ elim (is_free m j) [ false ↦ j | true ↦ run_end border m n (j + 1) ]
]

-- The outer loop from `i` on, with so many rounds left.
unfoldable pub frame_from : (border : ℕ) → List Slot → ℕ → ℕ → Option ℕ
frame_from border m zero i = none
frame_from border m (suc n) i = elim (run_end border m 3 i == i + 3) [
  | true ↦ some i
  | false ↦ frame_from border m n (i + 1)
]

-- `shellmemory[k].var = strdup(pid)`, which leaves the value
unfoldable pub mark : Str → ℕ → List Slot → List Slot
mark pid k m = elim (get_elem? m k) [ none ↦ m | some s ↦ set m k (slot pid s.value) ]

-- `frame_alloc`: the start of the frame and the memory; `none` is its return value 1. The indices of
-- the page are then the start and the two numbers behind it, its valid bits 0.
unfoldable pub frame_alloc : (border : ℕ) → Str → List Slot → Option (ℕ × List Slot)
frame_alloc border pid m = elim (frame_from border m border 0) [
  | none ↦ none
  | some i ↦ some (i, mark pid (i + 2) (mark pid (i + 1) (mark pid i m)))
]

unfoldable pub mem_set_value_at : ℕ → Str → Str → List Slot → Option (List Slot)
mem_set_value_at i pid value m = if ltb i (length m) then some (set m i (slot pid value)) else none

unfoldable pub mem_get_value_at : ℕ → List Slot → Option Str
mem_get_value_at i m = Option.map (λ s. s.value) (get_elem? m i)

unfoldable pub mem_set_value : (border : ℕ) → Str → Str → List Slot → List Slot
mem_set_value border var value m = set_value border var value m

-- `mem_get_value`; `true` for the caller 'p'
unfoldable pub mem_get_value : (border : ℕ) → Str → Bool → List Slot → Str
mem_get_value border var for_print m = elim (get_value border var m) [
  | some v ↦ v
  | none ↦ if for_print then codes "Variable does not exist" else []
]

-- `reset_var_zone`
unfoldable pub reset_var_zone : (border : ℕ) → List Slot → List Slot
reset_var_zone border [] = []
reset_var_zone zero (s ∷ m) = free_slot ∷ reset_var_zone zero m
reset_var_zone (suc n) (s ∷ m) = s ∷ reset_var_zone n m

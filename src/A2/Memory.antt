-- ===== src/A2/Memory.antt =====
-- a2/shellmemory.c: the frame store, the variable store and the LRU queue of pages.
pub mod Frames
pub mod Variables
use ecse_427_simple_shell_cr.Base.{
  ℕ, zero, suc, ◌+◌, Bool, true, false, not, Option, none, some, List, [], ◌∷◌, ◌++◌, Str, codes,
  str_eq, ltb, leb, ◌==◌, if◌then◌else◌, get_elem?, set, length, decimal, ℤ, pos, negsuc,
}
use ecse_427_simple_shell_cr.Store.{
  Slot, slot, none_str, free_slot, has_var, find_from, init, set_value, get_value,
}
use ecse_427_simple_shell_cr.A2.State.{
  Page, Pcb, Kernel, Print, raw, line, Result, ok, fault, Cmd, and_then, ◌>>=◌, ◌>>◌, pure,
  or_fault, printf,
}
use mathlib.Core.Option

-- `for (i = 0; i < n; i++) if (test(shellmemory[i])) return i;`
unfoldable pub find_below : (Slot → Bool) → ℕ → List Slot → Option ℕ
find_below test zero m = none
find_below test (suc n) [] = none
find_below test (suc n) (s ∷ m) = if test s then some 0 else Option.map suc (find_below test n m)

unfoldable pub clear_from : ℕ → List Slot → List Slot
clear_from n [] = []
clear_from zero (s ∷ m) = free_slot ∷ clear_from zero m
clear_from (suc n) (s ∷ m) = s ∷ clear_from n m

-- `mem_free_line` of a slot in the array. A slot whose key is "none" holds literals, which must not
-- go to `free`.
unfoldable pub mem_free_line : ℤ → List Slot → Option (List Slot)
mem_free_line (negsuc i) m = none
mem_free_line (pos i) m = elim (get_elem? m i) [
  | none ↦ none
  | some s ↦ if str_eq s.var none_str then none else some (set m i free_slot)
]

-- The index test lets the size itself pass: `some none` is a null pointer, `none` a read behind the
-- array.
unfoldable pub mem_get_value_at_line : ℤ → List Slot → Option (Option Str)
mem_get_value_at_line (negsuc i) m = some none
mem_get_value_at_line (pos i) m =
    if ltb (length m) i
    then some none
    else elim (get_elem? m i) [ none ↦ none | some s ↦ some (some s.value) ]

module _ {W : Type 0} where
  -- `mem_init`, at the two sizes that the build fixes
  unfoldable pub mem_init : (frame_size var_size : ℕ) → Cmd W (Unit {0})
  mem_init frame_size var_size k = ok tt (record k { mem = init (frame_size + var_size) })

  unfoldable pub lru_queue_add_to_tail : ℕ → Cmd W (Unit {0})
  lru_queue_add_to_tail page k = ok tt (record k { lru = k.lru ++ page ∷ [] })

  unfoldable pub lru_queue_pop_head : Cmd W (Option ℕ)
  lru_queue_pop_head k = elim k.lru [
    | [] ↦ ok none k
    | page ∷ rest ↦ ok (some page) (record k { lru = rest })
  ]

  unfoldable pub get_page : ℕ → Cmd W Page
  get_page page k = or_fault (get_elem? k.pages page) k

  -- One round of the loop over the victim's three lines.
  unfoldable pub free_victim_line : ℤ → Cmd W (Unit {0})
  free_victim_line (negsuc i) k = fault
  free_victim_line (pos i) k = elim (get_elem? k.mem i) [
    | none ↦ fault
    | some s ↦ elim (mem_free_line (pos i) k.mem) [
      | none ↦ fault
      | some m ↦ ok tt (record k { mem = m; out = k.out ++ raw s.value ∷ [] })
    ]
  ]

  unfoldable pub write_frame : ℕ → Str → ℕ → Cmd W (Unit {0})
  write_frame i value pid k = ok tt (record k { mem = set k.mem i (slot (decimal pid) value) })

  -- The head of the LRU queue gives up its three lines, and the first of them is used.
  unfoldable pub evict : Str → ℕ → Cmd W ℕ
  evict value pid = do
    node ← lru_queue_pop_head
    page ← or_fault node
    victim ← get_page page
    printf (line (codes "Page fault! Victim page contents:"))
    i0 ← or_fault (get_elem? victim.index 0)
    free_victim_line i0
    i1 ← or_fault (get_elem? victim.index 1)
    free_victim_line i1
    i2 ← or_fault (get_elem? victim.index 2)
    free_victim_line i2
    printf (line (codes "End of victim page contents."))
    new_index ← or_fault (elim i0 [ pos i ↦ some i | negsuc i ↦ none ])
    write_frame new_index value pid
    pure new_index

  -- `threshold` is the number of frame lines. The process is known by its id. The digits of the id and
  -- their closing zero do not fit `pid_string`, which has one byte: the bytes behind it are taken for free
  -- ones.
  unfoldable pub allocate_frame : (threshold : ℕ) → Str → ℕ → Cmd W ℕ
  allocate_frame threshold value pid k = elim (find_below (has_var none_str) threshold k.mem) [
    | some i ↦ (do write_frame i value pid; pure i) k
    | none ↦ evict value pid k
  ]

  unfoldable pub mem_set_value : (threshold : ℕ) → Str → Str → Cmd W (Unit {0})
  mem_set_value threshold var value k =
      ok tt (record k { mem = set_value threshold var value k.mem })

  unfoldable pub mem_get_value : (threshold : ℕ) → Str → Cmd W (Option Str)
  mem_get_value threshold var k = ok (get_value threshold var k.mem) k

  unfoldable pub clear_variable_store : (threshold : ℕ) → Cmd W (Unit {0})
  clear_variable_store threshold k = ok tt (record k { mem = clear_from threshold k.mem })

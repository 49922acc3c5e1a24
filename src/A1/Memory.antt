-- ===== src/A1/Memory.antt =====
-- a1/shellmemory.c: the variables of the first shell, in an array of 1000 pairs.
use ecse_427_simple_shell_cr.Base.{
  ℕ, ◌+◌, Option, none, some, List, [], ◌∷◌, Str, codes, ◌==◌, if◌then◌else◌,
}
use ecse_427_simple_shell_cr.Store.{Slot, init, set_value, get_value}

abbrev pub mem_size : ℕ
mem_size = 1000

unfoldable pub mem_init : List Slot
mem_init = init mem_size

unfoldable pub mem_set_value : Str → Str → List Slot → List Slot
mem_set_value k v m = set_value 0 k v m

abbrev pub no_variable : Str
no_variable = codes "Variable does not exist"

unfoldable pub mem_get_value : Str → List Slot → Str
mem_get_value k m = elim (get_value 0 k m) [ some v ↦ v | none ↦ no_variable ]

-- `extract`: what stands behind the first `=`
pub extract : Str → Str
extract [] = []
extract (c ∷ s) = if c == b'=' then s else extract s

-- `match`: the loop over `var`; the byte behind the end of `model` is its zero, and what stands
-- behind that is not `model`'s (`none`).
match_loop : Str → Str → ℕ → Option ℕ
match_loop model [] count = some count
match_loop [] (v ∷ []) count = some count
match_loop [] (v ∷ (w ∷ var)) count = none
match_loop (c ∷ model) (v ∷ var) count = match_loop model var (if c == v then count + 1 else count)

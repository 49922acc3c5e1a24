-- ===== src/A2/Interpreter/Reset.antt =====
-- `resetmem` of a2/interpreter.c, and what `print` then finds.
use ecse_427_simple_shell_cr.Base.{
  ℕ, zero, suc, ◌<◌, ◌≡◌, ◌≢◌, refl, sym, false, none, List, [], ◌∷◌, ◌++◌, Str, str_eq, str_eq_ne,
  pos, newline, arith, get_elem?,
}
use ecse_427_simple_shell_cr.Store.{Slot, none_str, has_var, find_from, get_value}
use ecse_427_simple_shell_cr.Store.Below.{get_value-none}
use ecse_427_simple_shell_cr.A2.State.{Kernel, ok, line, ◌>>◌}
use ecse_427_simple_shell_cr.A2.Memory.{clear_from, clear_variable_store, mem_get_value}
use ecse_427_simple_shell_cr.A2.Interpreter.{print_cmd}

get_elem?-clear_from :
    (n i : ℕ) (m : List Slot) → i < n → get_elem? (clear_from n m) i ≡ get_elem? m i
unfolding clear_from
get_elem?-clear_from zero i m lt = absurd (omega arith)
get_elem?-clear_from (suc n) i [] lt = refl
get_elem?-clear_from (suc n) zero (s ∷ m) lt = refl
get_elem?-clear_from (suc n) (suc i) (s ∷ m) lt = get_elem?-clear_from n i m (omega arith)

find_from-clear_from :
    (k : Str) (n : ℕ) (m : List Slot)
    → str_eq none_str k ≡ false
    → find_from (has_var k) n (clear_from n m) ≡ none
unfolding find_from clear_from
find_from-clear_from k zero [] ne = refl
find_from-clear_from k (suc n) [] ne = refl
find_from-clear_from k zero (s ∷ m) ne = rw (ne, find_from-clear_from k zero m ne)
find_from-clear_from k (suc n) (s ∷ m) ne = rw (find_from-clear_from k n m ne)

module _ {W : Type 0} (threshold : ℕ) where
  print_cmd-none :
      (k : Str) (s : Kernel W)
      → get_value threshold k s.mem ≡ none
      → print_cmd threshold k s ≡ ok (pos 0) (record s { out = s.out ++ line (newline ∷ []) ∷ [] })
  unfolding print_cmd mem_get_value
  print_cmd-none k s e = rw e

  -- After the variable store was cleared, `print` of every name but "none" prints the text for a
  -- missing variable and returns 0; every line of the frame store is as before.
  pub clear_variable_store-print_cmd :
      (x : Str) (k : Kernel W) (i : ℕ)
      → x ≢ none_str
      → i < threshold
      → ((clear_variable_store threshold >> print_cmd threshold x) k
          ≡ ok (pos 0) (record k {
            mem = clear_from threshold k.mem;
            out = k.out ++ line (newline ∷ []) ∷ [];
          }))
        × (get_elem? (clear_from threshold k.mem) i ≡ get_elem? k.mem i)
  unfolding clear_variable_store
  clear_variable_store-print_cmd x k i ne lt = (
    print_cmd-none x (record k { mem = clear_from threshold k.mem })
        (get_value-none threshold x (clear_from threshold k.mem)
          (find_from-clear_from x threshold k.mem (str_eq_ne none_str x (λ e. ne (sym e))))),
    get_elem?-clear_from threshold i k.mem lt,
  )

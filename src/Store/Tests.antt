-- ===== src/Store/Tests.antt =====
-- Runs of the variable store.
use ecse_427_simple_shell_cr.Base.{◌≡◌, inl, inr, refl, some, List, [], ◌∷◌, codes, str_eq}
use ecse_427_simple_shell_cr.Store.{Slot, slot, none_str, find_from, init, set_value, get_value}
use ecse_427_simple_shell_cr.Store.Update.{HasRoom, get_value-set_value}

-- two frames, then a variable
abbrev full_store : List Slot
full_store =
    slot (codes "1") (codes "quit") ∷ (slot none_str none_str ∷ (slot (codes "y") (codes "7") ∷ []))

init-HasRoom : HasRoom 1 (codes "x") (init 3)
unfolding init find_from str_eq
init-HasRoom = inr (λ e. cc)

full_store-no_room : ¬ HasRoom 2 (codes "x") full_store
unfolding find_from str_eq
full_store-no_room h = elim h [ inl n ↦ n refl | inr n ↦ n refl ]

get_value-set_value_example :
    get_value 1 (codes "x") (set_value 1 (codes "x") (codes "5") (init 3)) ≡ some (codes "5")
get_value-set_value_example = get_value-set_value 1 (codes "x") (codes "5") (init 3) init-HasRoom

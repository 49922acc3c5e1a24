-- ===== src/A3/LinkedList/Init.antt =====
-- `list_init` and `list_clear` of a3/linked_list.c.
use ecse_427_simple_shell_cr.Base.{ℕ, ◌+◌, refl, some, List, [], ◌∷◌, ◌++◌, arith}
use ecse_427_simple_shell_cr.A3.LinkedList.{Heap, LinkedList, list_init, list_clear}
use ecse_427_simple_shell_cr.A3.LinkedList.Chain.{update_same, Out-append_r}
use ecse_427_simple_shell_cr.A3.LinkedList.Removal.{AllBelow}
use ecse_427_simple_shell_cr.A3.LinkedList.Refine.{IsList}

AllBelow-append_r : (m : ℕ) (ns ms : List ℕ) → AllBelow m (ns ++ ms) → AllBelow m ms
AllBelow-append_r m [] ms h = h
AllBelow-append_r m (n ∷ ns) ms h = AllBelow-append_r m ns ms h.1

module _ {ℓ} {A : Type ℓ} where
  -- On every heap, `list_init` makes an empty list.
  pub list_init-IsList : (h : Heap A) → IsList (list_init h).1 (list_init h).0 []
  unfolding list_init
  list_init-IsList h = (
    [],
    record {
      nexts = update_same _ h.fresh (some (h.fresh + 1));
      prevs = update_same h.prev (h.fresh + 1) (some h.fresh);
      distinct = (((λ e. omega arith), tt), (tt, tt));
      below = (omega arith, (omega arith, tt));
      holds = tt;
      counted = refl;
    },
  )

  -- On a heap that holds a list, `list_clear` leaves the empty list.
  pub list_clear-IsList :
      (l : LinkedList) (h : Heap A) (xs : List A)
      → IsList l h xs
      → IsList (list_clear l h).1 (list_clear l h).0 []
  unfolding list_clear
  list_clear-IsList l h xs (ns, r) = (
    [],
    record {
      nexts = update_same h.next l.dummy_head (some l.dummy_tail);
      prevs = update_same h.prev l.dummy_tail (some l.dummy_head);
      distinct = (Out-append_r l.dummy_head ns (l.dummy_tail ∷ []) r.distinct.0, (tt, tt));
      below = (r.below.0, AllBelow-append_r h.fresh ns (l.dummy_tail ∷ []) r.below.1);
      holds = tt;
      counted = refl;
    },
  )

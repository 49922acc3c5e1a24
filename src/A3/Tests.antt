-- ===== src/A3/Tests.antt =====
-- Runs of the third shell.
use ecse_427_simple_shell_cr.Base.{
  ℕ, ◌≡◌, refl, ◌⊎◌, none, some, List, [], ◌∷◌, codes, ◌==◌, if◌then◌else◌, arith,
}
use ecse_427_simple_shell_cr.Store.{Slot, slot, init}
use ecse_427_simple_shell_cr.A3.LinkedList.{
  Heap, LinkedList, ok, pop_head, get_by_value, remove_elem,
}
use ecse_427_simple_shell_cr.A3.LinkedList.Refine.{IsList}
use ecse_427_simple_shell_cr.A3.LinkedList.Take.{Removes}
use ecse_427_simple_shell_cr.A3.LinkedList.Pop.{Pops, pop_head-Pops, remove_elem-Removes}
use ecse_427_simple_shell_cr.A3.Pcb.Size.{AllLines}
use ecse_427_simple_shell_cr.A3.Memory.{frame_alloc}
use ecse_427_simple_shell_cr.A3.Memory.Alloc.{Frees, NoFrame}
use ecse_427_simple_shell_cr.A3.Memory.Frame.{Allocated, frame_alloc_lem}

-- dummy nodes 0 and 1, and the nodes 2 and 3 between them, which hold 7 and 8
abbrev two_heap : Heap ℕ
two_heap = record {
  fresh = 4;
  contents = λ a. if a == 2 then some 7 else if a == 3 then some 8 else none;
  next = λ a. if a == 0 then some 2 else if a == 2 then some 3 else if a == 3 then some 1 else none;
  prev = λ a. if a == 1 then some 3 else if a == 3 then some 2 else if a == 2 then some 0 else none;
}

abbrev two_list : LinkedList
two_list = record { size = 2; dummy_head = 0; dummy_tail = 1 }

two_list-IsList : IsList two_list two_heap (7 ∷ (8 ∷ []))
two_list-IsList = (
  2 ∷ (3 ∷ []),
  record {
    nexts = (refl, (refl, refl));
    prevs = (refl, (refl, refl));
    distinct = (
      ((λ e. omega arith), ((λ e. omega arith), ((λ e. omega arith), tt))),
      (((λ e. omega arith), ((λ e. omega arith), tt)), (((λ e. omega arith), tt), (tt, tt))),
    );
    below = (omega arith, (omega arith, (omega arith, (omega arith, tt))));
    holds = (refl, (refl, tt));
    counted = refl;
  },
)

pop_head-Pops_example : Pops (pop_head two_list two_heap) (7 ∷ (8 ∷ []))
pop_head-Pops_example = pop_head-Pops two_list two_heap (7 ∷ (8 ∷ [])) two_list-IsList

remove_elem-Removes_example :
    (get_by_value (λ x. x == 8) two_list two_heap ≡ ok 8)
    × Removes (remove_elem (λ x. x == 8) two_list two_heap) 8 (7 ∷ [])
remove_elem-Removes_example =
    remove_elem-Removes (λ x. x == 8) two_list two_heap (7 ∷ []) 8 [] two_list-IsList (refl, tt)
      refl

-- a used slot, then free ones
abbrev memory : List Slot
memory = slot (codes "1") (codes "quit") ∷ init 5

frame_alloc_lem_example :
    ((i : ℕ) × (m' : List Slot) × (frame_alloc 5 (codes "2") memory ≡ some (i, m'))
      × Frees 5 memory 3 i
      × NoFrame 5 memory 0 i
      × Allocated 5 (codes "2") memory i m')
    ⊎ ((frame_alloc 5 (codes "2") memory ≡ none) × ((i : ℕ) → ¬ Frees 5 memory 3 i))
frame_alloc_lem_example = frame_alloc_lem 5 (codes "2") memory

two_lines-AllLines : AllLines (codes "set x 1" ∷ (codes "quit" ∷ []))
two_lines-AllLines =
    ((refl, (refl, (refl, (refl, (refl, (refl, refl)))))), ((refl, (refl, (refl, refl))), tt))

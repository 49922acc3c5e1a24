-- ===== src/A2/Queue.antt =====
-- a2/ready_queue.c. The nodes behind `head` are distinct, so a pointer to one is its position in the
-- list of them; an operation that follows a null pointer is `none`.
pub mod Sort
pub mod Order
pub mod Shortest
use ecse_427_simple_shell_cr.Base.{
  ℕ, zero, suc, ◌+◌, ◌-◌, Bool, true, false, not, ◌&&◌, Option, none, some, List, [], ◌∷◌, map, ltb,
  ◌==◌, if◌then◌else◌, length, get_elem?,
}
use ecse_427_simple_shell_cr.A2.State.{Pcb}
use mathlib.Core.Option

-- `MAX_INT`
abbrev pub max_int : ℕ
max_int = 2147483646

unfoldable pub add_to_tail : Pcb → List Pcb → List Pcb
add_to_tail p [] = p ∷ []
add_to_tail p (q ∷ qs) = q ∷ add_to_tail p qs

unfoldable pub add_to_head : Pcb → List Pcb → List Pcb
add_to_head p qs = p ∷ qs

unfoldable pub is_ready_empty : List Pcb → Bool
is_ready_empty [] = true
is_ready_empty (p ∷ ps) = false

unfoldable pub pop_head : List Pcb → Option Pcb × List Pcb
pop_head [] = (none, [])
pop_head (p ∷ ps) = (some p, ps)

unfoldable pub decrement_job_length_score : List Pcb → List Pcb
decrement_job_length_score [] = []
decrement_job_length_score (p ∷ ps) =
    (if ltb 0 p.job_length_score then record p { job_length_score = p.job_length_score - 1 } else p)
    ∷ decrement_job_length_score ps

-- `ready_queue_swap_with_next` of the node at a position
unfoldable pub swap_with_next : ℕ → List Pcb → Option (List Pcb)
swap_with_next i [] = none
swap_with_next zero (p ∷ []) = none
swap_with_next zero (p ∷ (q ∷ qs)) = some (q ∷ (p ∷ qs))
swap_with_next (suc i) (p ∷ ps) = Option.map (◌∷◌ p) (swap_with_next i ps)

-- `swap_needed` behind its test for a next node
unfoldable pub swap_needed : Pcb → Pcb → Bool
swap_needed cur next =
    if cur.priority && next.priority
    then ltb next.job_length_score cur.job_length_score
    else if cur.priority && not next.priority
    then false
    else if not cur.priority && next.priority
    then true
    else ltb next.job_length_score cur.job_length_score

-- The variables of `sort_ready_queue`: the position of `cur`, and `sorted`.
pub record Sorting : Type 0 where
  pub queue : List Pcb
  pub cur : ℕ
  pub sorted : Bool

-- `while(cur->next!=NULL)` on fuel
unfoldable pub sort_pass : ℕ → Sorting → Option Sorting
sort_pass zero s = none
sort_pass (suc fuel) s = elim (get_elem? s.queue (s.cur + 1)) [
  | none ↦ some s
  | some next ↦ elim (get_elem? s.queue s.cur) [
    | none ↦ none
    | some p ↦ elim (swap_needed p next) [
      | true ↦ elim (swap_with_next s.cur s.queue) [
        | none ↦ none
        | some q ↦ sort_pass fuel (record { queue = q; cur = s.cur + 1; sorted = false })
      ]
      | false ↦ sort_pass fuel (record s { cur = s.cur + 1 })
    ]
  ]
]

-- `while(!sorted)` on fuel; `cur` is not set back between two passes.
unfoldable pub sort_passes : ℕ → Sorting → Option (List Pcb)
sort_passes zero s = none
sort_passes (suc fuel) s = elim (sort_pass (suc (length s.queue)) (record s { sorted = true })) [
  | none ↦ none
  | some s' ↦ elim s'.sorted [ true ↦ some s'.queue | false ↦ sort_passes fuel s' ]
]

-- `sort_ready_queue`
unfoldable pub sort_ready_queue : List Pcb → Option (List Pcb)
sort_ready_queue [] = some []
sort_ready_queue (p ∷ ps) = sort_passes 2 (record { queue = p ∷ ps; cur = 0; sorted = false })

unfoldable pub pop_shortest_job : List Pcb → Option (Option Pcb × List Pcb)
pop_shortest_job ps = Option.map pop_head (sort_ready_queue ps)

unfoldable pub shortest_from : ℕ → List Pcb → ℕ
shortest_from shortest [] = shortest
shortest_from shortest (p ∷ ps) =
    shortest_from (if ltb p.job_length_score shortest then p.job_length_score else shortest) ps

-- `ready_queue_get_shortest_job_score`
unfoldable pub get_shortest_job_score : List Pcb → ℕ
unfolding shortest_from
get_shortest_job_score ps = shortest_from max_int ps

-- the first node with the score, and the list without it
unfoldable pub unlink : ℕ → List Pcb → Option (Pcb × List Pcb)
unlink score [] = none
unlink score (p ∷ ps) =
    if p.job_length_score == score
    then some (p, ps)
    else Option.map (λ (q, qs). (q, p ∷ qs)) (unlink score ps)

-- `ready_queue_promote`
unfoldable pub promote : ℕ → List Pcb → Option (List Pcb)
promote score [] = none
promote score (p ∷ ps) =
    if p.job_length_score == score
    then some (p ∷ ps)
    else elim (unlink score ps) [ none ↦ some (p ∷ ps) | some (q, qs) ↦ some (q ∷ (p ∷ qs)) ]

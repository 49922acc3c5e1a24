-- ===== src/A2/Queue/Order.antt =====
-- The order in which `sort_ready_queue` of a2/ready_queue.c leaves the nodes.
use ecse_427_simple_shell_cr.Base.{
  ◌<◌, ◌≡◌, refl, ap, true, false, some, List, [], ◌∷◌, ◌++◌, arith, Bool-cases, inl, inr,
}
use ecse_427_simple_shell_cr.A2.State.{Pcb}
use ecse_427_simple_shell_cr.A2.Queue.{swap_needed, sort_ready_queue, pop_shortest_job, pop_head}
use ecse_427_simple_shell_cr.A2.Queue.Sort.{bubble, bubble_pass, sort_ready_queue-bubble_pass}
use mathlib.Core.List.{Perm}
use mathlib.Core.List.Perm

bubble-perm : (p : Pcb) (ps : List Pcb) → Perm (bubble p ps) (p ∷ ps)
unfolding bubble
bubble-perm p [] = Perm.refl (p ∷ [])
bubble-perm p (q ∷ qs) = elim (Bool-cases (swap_needed p q)) [
  | inl t ↦ rw t (Perm.trans (Perm.cons q (bubble-perm p qs)) (Perm.swap p q qs))
  | inr t ↦ rw t (Perm.cons p (bubble-perm q qs))
]

-- `p` may stand before `q`
abbrev pub Before : Pcb → Pcb → Type 0
Before p q = swap_needed p q ≡ false

pub Before-refl : (p : Pcb) → Before p p
unfolding swap_needed
Before-refl p = ground arith

pub Before-trans : (p q r : Pcb) → Before p q → Before q r → Before p r
unfolding swap_needed
Before-trans p q r h k = ground arith

pub Before-of_swap_needed : (p q : Pcb) → swap_needed p q ≡ true → Before q p
unfolding swap_needed
Before-of_swap_needed p q h = ground arith

abbrev pub AllBefore : List Pcb → Pcb → Type 0
AllBefore [] z = Unit {0}
AllBefore (p ∷ ps) z = Before p z × AllBefore ps z

-- The last node of the list is one that every node of it may stand before.
abbrev pub EndsWithLast : List Pcb → Type 0
EndsWithLast ps = (front : List Pcb) × (z : Pcb) × (ps ≡ front ++ z ∷ []) × AllBefore ps z

bubble-EndsWithLast : (p : Pcb) (ps : List Pcb) → (r : EndsWithLast (bubble p ps)) × Before p r.1
unfolding bubble
bubble-EndsWithLast p [] = (([], p, refl, (Before-refl p, tt)), Before-refl p)
bubble-EndsWithLast p (q ∷ qs) = elim (Bool-cases (swap_needed p q)) [
  | inl t ↦
      let ((front, z, e, all), b) = bubble-EndsWithLast p qs in
      rw t
        ((q ∷ front, z, ap (◌∷◌ q) e, (Before-trans q p z (Before-of_swap_needed p q t) b, all)), b)
  | inr t ↦
      let ((front, z, e, all), b) = bubble-EndsWithLast q qs in
      rw t ((p ∷ front, z, ap (◌∷◌ p) e, (Before-trans p q z t b, all)), Before-trans p q z t b)
]

-- The sort loses and makes up no node, and it brings to the end of a queue that is not empty a node
-- that every other may stand before.
pub sort_ready_queue-Perm :
    (p : Pcb) (ps : List Pcb)
    → (qs : List Pcb) × (sort_ready_queue (p ∷ ps) ≡ some qs) × Perm qs (p ∷ ps) × EndsWithLast qs
unfolding bubble_pass
sort_ready_queue-Perm p ps = (
  bubble p ps,
  sort_ready_queue-bubble_pass (p ∷ ps),
  bubble-perm p ps,
  (bubble-EndsWithLast p ps).0,
)

-- Whenever three processes of no priority wait in falling order of their scores, the process that is
-- popped as the shortest job is the second, though the third has a smaller score.
pub pop_shortest_job_not_shortest :
    (a b c : Pcb)
    → a.priority ≡ false
    → b.priority ≡ false
    → c.priority ≡ false
    → b.job_length_score < a.job_length_score
    → c.job_length_score < b.job_length_score
    → pop_shortest_job (a ∷ (b ∷ (c ∷ []))) ≡ some (some b, c ∷ (a ∷ []))
unfolding pop_shortest_job pop_head bubble_pass bubble swap_needed
pop_shortest_job_not_shortest a b c pa pb pc h k =
    rw (sort_ready_queue-bubble_pass (a ∷ (b ∷ (c ∷ [])))) (ground arith)

-- ===== src/A2/Queue/Shortest.antt =====
-- The smallest score, and the promotion of its process, of a2/ready_queue.c.
use ecse_427_simple_shell_cr.Base.{
  ℕ, ◌≤◌, ◌<◌, ◌≡◌, ◌≢◌, refl, sym, ◌⊎◌, false, none, some, List, [], ◌∷◌, ◌++◌, ltb, ◌==◌,
  if◌then◌else◌, arith, Bool-cases, inl, inr,
}
use ecse_427_simple_shell_cr.A2.State.{Pcb}
use ecse_427_simple_shell_cr.A2.Queue.{
  max_int, shortest_from, get_shortest_job_score, unlink, promote,
}

abbrev pub AllAtLeast : ℕ → List Pcb → Type 0
AllAtLeast n [] = Unit {0}
AllAtLeast n (p ∷ ps) = (n ≤ p.job_length_score) × AllAtLeast n ps

-- the score stands in the list
abbrev pub HasScore : ℕ → List Pcb → Type 0
HasScore n [] = ⊥
HasScore n (p ∷ ps) = (p.job_length_score ≡ n) ⊎ HasScore n ps

-- `r` is the least of `n` and the scores.
abbrev IsLeast : ℕ → List Pcb → ℕ → Type 0
IsLeast n ps r = (r ≤ n) × AllAtLeast r ps × ((r ≡ n) ⊎ HasScore r ps)

IsLeast-cons :
    (n r : ℕ) (p : Pcb) (ps : List Pcb)
    → IsLeast (if ltb p.job_length_score n then p.job_length_score else n) ps r
    → IsLeast n (p ∷ ps) r
IsLeast-cons n r p ps h = elim (Bool-cases (ltb p.job_length_score n)) [
  | inl t ↦
      let (le, all, at) = rw t at h in
      (ground arith, (le, all), elim at [ inl e ↦ inr (inl (sym e)) | inr g ↦ inr (inr g) ])
  | inr t ↦
      let (le, all, at) = rw t at h in
      (le, (ground arith, all), elim at [ inl e ↦ inl e | inr g ↦ inr (inr g) ])
]

shortest_from-IsLeast : (n : ℕ) (ps : List Pcb) → IsLeast n ps (shortest_from n ps)
unfolding shortest_from
shortest_from-IsLeast n [] = (omega arith, tt, inl refl)
shortest_from-IsLeast n (p ∷ ps) =
    IsLeast-cons n _ p ps
      (shortest_from-IsLeast (if ltb p.job_length_score n then p.job_length_score else n) ps)

AllAtLeast-append :
    (n : ℕ) (qs : List Pcb) (p : Pcb) (ps : List Pcb)
    → AllAtLeast n (qs ++ p ∷ ps)
    → n ≤ p.job_length_score
AllAtLeast-append n [] p ps h = h.0
AllAtLeast-append n (q ∷ qs) p ps h = AllAtLeast-append n qs p ps h.1

-- Of a queue with a score below MAX_INT the result is a score that stands in the queue, and no score
-- there is smaller.
pub get_shortest_job_score_least :
    (p : Pcb) (ps qs : List Pcb)
    → p.job_length_score < max_int
    → (HasScore (get_shortest_job_score (qs ++ p ∷ ps)) (qs ++ p ∷ ps))
      × AllAtLeast (get_shortest_job_score (qs ++ p ∷ ps)) (qs ++ p ∷ ps)
unfolding get_shortest_job_score
get_shortest_job_score_least p ps qs h =
    let (le, all, at) = shortest_from-IsLeast max_int (qs ++ p ∷ ps) in
    (elim at [ inl e ↦ absurd (omega (arith, AllAtLeast-append _ qs p ps all)) | inr s ↦ s ], all)

-- no process of the list has the score
abbrev pub NoScore : ℕ → List Pcb → Type 0
NoScore n [] = Unit {0}
NoScore n (p ∷ ps) = (p.job_length_score ≢ n) × NoScore n ps

unlink-append :
    (n : ℕ) (front : List Pcb) (q : Pcb) (back : List Pcb)
    → NoScore n front
    → q.job_length_score ≡ n
    → unlink n (front ++ q ∷ back) ≡ some (q, front ++ back)
unfolding unlink
unlink-append n [] q back f e = ground arith
unlink-append n (p ∷ front) q back f e =
    let other : (p.job_length_score == n) ≡ false = ground arith in
    rw (other, unlink-append n front q back f.1 e)

unlink-NoScore : (n : ℕ) (ps : List Pcb) → NoScore n ps → unlink n ps ≡ none
unfolding unlink
unlink-NoScore n [] f = refl
unlink-NoScore n (p ∷ ps) f =
    let other : (p.job_length_score == n) ≡ false = ground arith in
    rw (other, unlink-NoScore n ps f.1)

-- The first process with the score comes to the front and the others keep their order; with no such
-- process the queue stays as it is.
pub promote_lem :
    (n : ℕ) (p : Pcb) (front : List Pcb) (q : Pcb) (back : List Pcb)
    → NoScore n (p ∷ front)
    → q.job_length_score ≡ n
    → (promote n (p ∷ front) ≡ some (p ∷ front))
      × (promote n (p ∷ (front ++ q ∷ back)) ≡ some (q ∷ (p ∷ (front ++ back))))
unfolding promote
promote_lem n p front q back f e =
    let other : (p.job_length_score == n) ≡ false = ground arith in
    (
      rw (other, unlink-NoScore n front f.1, promote),
      rw (other, unlink-append n front q back f.1 e, promote),
    )

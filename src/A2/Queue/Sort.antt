-- ===== src/A2/Queue/Sort.antt =====
-- `sort_ready_queue` of a2/ready_queue.c against one pass of bubble sort.
use ecse_427_simple_shell_cr.Base.{
  ℕ, zero, suc, ◌+◌, ◌≤◌, ◌<◌, ◌≡◌, refl, ap, sym, ◌∙◌, Bool, true, false, ◌&&◌, none, some, List,
  [], ◌∷◌, ◌++◌, if◌then◌else◌, length, length-append, append_assoc, get_elem?, arith, Bool-cases,
  inl, inr,
}
use ecse_427_simple_shell_cr.A2.State.{Pcb}
use ecse_427_simple_shell_cr.A2.Queue.{
  swap_with_next, swap_needed, Sorting, sort_pass, sort_passes, sort_ready_queue,
}

-- The queue from the current node on after one pass: a node moves back past each next one that must
-- come first, and stays before the others.
unfoldable pub bubble : Pcb → List Pcb → List Pcb
bubble p [] = p ∷ []
bubble p (q ∷ qs) = if swap_needed p q then q ∷ bubble p qs else p ∷ bubble q qs

unfoldable pub bubble_pass : List Pcb → List Pcb
bubble_pass [] = []
bubble_pass (p ∷ ps) = bubble p ps

-- whether the pass swaps nothing
unfoldable pub keeps : Pcb → List Pcb → Bool
keeps p [] = true
keeps p (q ∷ qs) = if swap_needed p q then false else keeps q qs

get_elem?-append :
    (pre : List Pcb) (i : ℕ) (p : Pcb) (ps : List Pcb)
    → i ≡ length pre
    → get_elem? (pre ++ p ∷ ps) i ≡ some p
get_elem?-append [] zero p ps e = refl
get_elem?-append [] (suc i) p ps e = absurd (omega arith)
get_elem?-append (x ∷ pre) zero p ps e = absurd (omega arith)
get_elem?-append (x ∷ pre) (suc i) p ps e = get_elem?-append pre i p ps (omega arith)

get_elem?-next :
    (pre : List Pcb) (j : ℕ) (p : Pcb) (qs : List Pcb)
    → j ≡ suc (length pre)
    → get_elem? (pre ++ p ∷ qs) j ≡ get_elem? qs 0
get_elem?-next pre zero p qs e = absurd (omega arith)
get_elem?-next [] (suc zero) p qs e = refl
get_elem?-next [] (suc (suc j)) p qs e = absurd (omega arith)
get_elem?-next (x ∷ pre) (suc j) p qs e = get_elem?-next pre j p qs (omega arith)

swap_with_next-append :
    (pre : List Pcb) (i : ℕ) (p q : Pcb) (qs : List Pcb)
    → i ≡ length pre
    → swap_with_next i (pre ++ p ∷ (q ∷ qs)) ≡ some (pre ++ q ∷ (p ∷ qs))
unfolding swap_with_next
swap_with_next-append [] zero p q qs e = refl
swap_with_next-append [] (suc i) p q qs e = absurd (omega arith)
swap_with_next-append (x ∷ pre) zero p q qs e = absurd (omega arith)
swap_with_next-append (x ∷ pre) (suc i) p q qs e =
    rw (swap_with_next-append pre i p q qs (omega arith))

abbrev sorting : List Pcb → ℕ → Bool → Sorting
sorting q i b = record { queue = q; cur = i; sorted = b }

module _ (fuel : ℕ) (queue : List Pcb) (i : ℕ) (b : Bool) where
  sort_pass-stop :
      get_elem? queue (i + 1) ≡ none
      → sort_pass (suc fuel) (sorting queue i b) ≡ some (sorting queue i b)
  unfolding sort_pass
  sort_pass-stop e = rw e

  sort_pass-swap :
      (p next : Pcb) (swapped : List Pcb)
      → get_elem? queue (i + 1) ≡ some next
      → get_elem? queue i ≡ some p
      → swap_needed p next ≡ true
      → swap_with_next i queue ≡ some swapped
      → sort_pass (suc fuel) (sorting queue i b) ≡ sort_pass fuel (sorting swapped (i + 1) false)
  unfolding sort_pass
  sort_pass-swap p next swapped e f t g = rw (e, sort_pass, f, t, g)

  sort_pass-keep :
      (p next : Pcb)
      → get_elem? queue (i + 1) ≡ some next
      → get_elem? queue i ≡ some p
      → swap_needed p next ≡ false
      → sort_pass (suc fuel) (sorting queue i b) ≡ sort_pass fuel (sorting queue (i + 1) b)
  unfolding sort_pass
  sort_pass-keep p next e f t = rw (e, sort_pass, f, t)

and_false : (b : Bool) → (b && false) ≡ false
and_false true = refl
and_false false = refl

and_true : (b : Bool) → (b && true) ≡ b
and_true true = refl
and_true false = refl

-- From the node behind `pre` the pass ends at the last node, with the bubbled queue.
sort_pass-bubble :
    (fuel : ℕ) (pre : List Pcb) (i : ℕ) (p : Pcb) (ps : List Pcb) (b : Bool)
    → i ≡ length pre
    → length ps < fuel
    → sort_pass fuel (sorting (pre ++ p ∷ ps) i b)
      ≡ some (sorting (pre ++ bubble p ps) (i + length ps) (b && keeps p ps))
unfolding bubble keeps
sort_pass-bubble zero pre i p ps b e lt = absurd (omega arith)
sort_pass-bubble (suc fuel) pre i p [] b e lt =
    sort_pass-stop fuel _ i b (get_elem?-next pre (i + 1) p [] (omega arith))
    ∙ (let same : i ≡ i + 0 = omega arith in
        rw (and_true b) (ap (λ k. some (sorting (pre ++ p ∷ []) k b)) same))
sort_pass-bubble (suc fuel) pre i p (q ∷ qs) b e lt =
    let same : i + 1 + length qs ≡ i + suc (length qs) = omega arith in
    let next = get_elem?-next pre (i + 1) p (q ∷ qs) (omega arith) in
    let here = get_elem?-append pre i p (q ∷ qs) e in
    elim (Bool-cases (swap_needed p q)) [
      | inl t ↦
          sort_pass-swap fuel _ i b p q _ next here t (swap_with_next-append pre i p q qs e)
          ∙ ap (λ l. sort_pass fuel (sorting l (i + 1) false))
              (sym (append_assoc pre (q ∷ []) (p ∷ qs)))
          ∙ sort_pass-bubble fuel (pre ++ q ∷ []) (i + 1) p qs false
              (omega (arith, length-append pre (q ∷ []))) (omega arith)
          ∙ rw (t, and_false b, append_assoc)
              (ap (λ k. some (sorting (pre ++ q ∷ bubble p qs) k false)) same)
      | inr t ↦
          sort_pass-keep fuel _ i b p q next here t
          ∙ ap (λ l. sort_pass fuel (sorting l (i + 1) b))
              (sym (append_assoc pre (p ∷ []) (q ∷ qs)))
          ∙ sort_pass-bubble fuel (pre ++ p ∷ []) (i + 1) q qs b
              (omega (arith, length-append pre (p ∷ []))) (omega arith)
          ∙ rw (t, append_assoc)
              (ap (λ k. some (sorting (pre ++ p ∷ bubble q qs) k (b && keeps q qs))) same)
    ]

-- A pass that begins at the last node changes nothing.
sort_pass-end :
    (fuel : ℕ) (q : List Pcb) (i : ℕ) (b : Bool)
    → get_elem? q (i + 1) ≡ none
    → sort_pass (suc fuel) (sorting q i b) ≡ some (sorting q i b)
sort_pass-end fuel q i b e = sort_pass-stop fuel q i b e

length-bubble : (p : Pcb) (ps : List Pcb) → length (bubble p ps) ≡ suc (length ps)
unfolding bubble
length-bubble p [] = refl
length-bubble p (q ∷ qs) = ground (arith, length-bubble p qs, length-bubble q qs)

get_elem?-length : (q : List Pcb) (i : ℕ) → length q ≤ i → get_elem? q i ≡ none
get_elem?-length [] i h = refl
get_elem?-length (x ∷ q) zero h = absurd (omega arith)
get_elem?-length (x ∷ q) (suc i) h = get_elem?-length q i (omega arith)

module _ (fuel : ℕ) (q : List Pcb) (i : ℕ) (b : Bool) (q' : List Pcb) (j : ℕ) where
  sort_passes-sorted :
      sort_pass (suc (length q)) (sorting q i true) ≡ some (sorting q' j true)
      → sort_passes (suc fuel) (sorting q i b) ≡ some q'
  unfolding sort_passes
  sort_passes-sorted e = rw (e, sort_passes)

  sort_passes-again :
      sort_pass (suc (length q)) (sorting q i true) ≡ some (sorting q' j false)
      → sort_passes (suc fuel) (sorting q i b) ≡ sort_passes fuel (sorting q' j false)
  unfolding sort_passes
  sort_passes-again e = rw (e, sort_passes)

-- `sort_ready_queue` returns, follows no null pointer, and leaves the queue as one pass of bubble sort
-- does: the second round of the outer loop begins where the first one ended.
pub sort_ready_queue-bubble_pass : (ps : List Pcb) → sort_ready_queue ps ≡ some (bubble_pass ps)
unfolding sort_ready_queue bubble_pass
sort_ready_queue-bubble_pass [] = refl
sort_ready_queue-bubble_pass (p ∷ ps) =
    let last : length (bubble p ps) ≤ 0 + length ps + 1 = omega (arith, length-bubble p ps) in
    let pass = sort_pass-bubble (suc (suc (length ps))) [] 0 p ps true refl (omega arith) in
    elim (Bool-cases (keeps p ps)) [
      | inl k ↦ sort_passes-sorted 1 (p ∷ ps) 0 false (bubble p ps) _ (rw k at pass)
      | inr k ↦
          sort_passes-again 1 (p ∷ ps) 0 false (bubble p ps) _ (rw k at pass)
          ∙ sort_passes-sorted 0 (bubble p ps) (0 + length ps) false (bubble p ps) _ (
              sort_pass-end (length (bubble p ps)) (bubble p ps) (0 + length ps) true
                (get_elem?-length (bubble p ps) (0 + length ps + 1) last))
    ]

-- ===== src/A3/LinkedList/Pop.antt =====
-- `pop_head`, `pop_tail`, `remove_elem` and `get_by_value` of a3/linked_list.c against plain lists.
use ecse_427_simple_shell_cr.Base.{
  ℕ, zero, suc, ◌+◌, ◌<◌, ◌≡◌, refl, ap, ◌∙◌, Bool, true, false, Option, some, List, [], ◌∷◌, ◌++◌,
  append-nil, length, length-append, arith,
}
use ecse_427_simple_shell_cr.A3.LinkedList.{
  Result, ok, exit_99, Heap, LinkedList, take_out, pop_head, pop_tail, find_node, get_node_by_value,
  get_by_value, remove_elem,
}
use ecse_427_simple_shell_cr.A3.LinkedList.Chain.{
  Nexts, first_of, last_of, Nexts-first_of, Prevs-last_of,
}
use ecse_427_simple_shell_cr.A3.LinkedList.Refine.{Holds, IsList}
use ecse_427_simple_shell_cr.A3.LinkedList.Take.{
  Removes, take_out-list, pop_head-step, pop_tail-step,
}

last_of-snoc : (a : ℕ) (ns : List ℕ) (d : ℕ) → last_of a (ns ++ d ∷ []) ≡ d
last_of-snoc a [] d = refl
last_of-snoc a (n ∷ ns) d = last_of-snoc n ns d

module _ {ℓ} {A : Type ℓ} where
  Holds-nil : (c : ℕ → Option A) (ns : List ℕ) → Holds c ns [] → ns ≡ []
  Holds-nil c [] h = refl
  Holds-nil c (n ∷ ns) h = absurd h.0

  -- What `pop_head` comes to, by the list that the heap holds.
  abbrev pub Pops : Result (A × (Heap A × LinkedList)) → List A → Type ℓ
  Pops r [] = r ≡ exit_99
  Pops r (x ∷ xs) = Removes r x xs

  pop_head-empty : (l : LinkedList) (h : Heap A) → l.size ≡ 0 → pop_head l h ≡ exit_99
  unfolding pop_head
  pop_head-empty l h e = rw e

  -- On a heap that holds a list, `pop_head` exits with 99 if the list is empty, and else returns its
  -- first value and leaves the others.
  pub pop_head-Pops :
      (l : LinkedList) (h : Heap A) (xs : List A) → IsList l h xs → Pops (pop_head l h) xs
  pop_head-Pops l h [] (ns, r) =
      pop_head-empty l h (r.counted ∙ ap length (Holds-nil h.contents ns r.holds))
  pop_head-Pops l h (x ∷ xs) (ns, r) =
      let (front, d, back, e, p, g, q, t) = take_out-list l h ns [] x xs r in
      let at_front : ns ≡ d ∷ back = e ∙ ap (λ f. f ++ d ∷ back) (Holds-nil h.contents front p) in
      let r' = rw at_front at r in
      rw (pop_head-step l h (length back) d r'.counted (Nexts-first_of _ _ (d ∷ back) _ r'.nexts)) t

  -- On a heap that holds a list that ends in a value, `pop_tail` returns the value and leaves the others.
  pub pop_tail-Removes :
      (l : LinkedList) (h : Heap A) (xs : List A) (x : A)
      → IsList l h (xs ++ x ∷ [])
      → Removes (pop_tail l h) x xs
  pop_tail-Removes l h xs x (ns, r) =
      let (front, d, back, e, p, g, q, t) = take_out-list l h ns xs x [] r in
      let at_end : ns ≡ front ++ d ∷ [] =
        e ∙ ap (λ b. front ++ d ∷ b) (Holds-nil h.contents back q) in
      let r' = rw at_end at r in
      let t' = rw (append-nil xs) at t in
      rw
        (pop_tail-step l h (length front) d
          (omega (arith, r'.counted, length-append front (d ∷ [])))
          (Prevs-last_of _ l.dummy_head (front ++ d ∷ []) _ r'.prevs
            ∙ ap some (last_of-snoc l.dummy_head front d)))
        t'

  -- the test fails on every value
  abbrev pub AllFail : (A → Bool) → List A → Type 0
  AllFail equal [] = Unit {0}
  AllFail equal (x ∷ xs) = (equal x ≡ false) × AllFail equal xs

  find_node-hit :
      (fuel : ℕ) (equal : A → Bool) (d : ℕ) (h : Heap A) (x : A)
      → h.contents d ≡ some x
      → equal x ≡ true
      → find_node (suc fuel) equal d h ≡ ok d
  unfolding find_node
  find_node-hit fuel equal d h x g e = rw (g, e)

  find_node-miss :
      (fuel : ℕ) (equal : A → Bool) (n m : ℕ) (h : Heap A) (x : A)
      → h.contents n ≡ some x
      → equal x ≡ false
      → h.next n ≡ some m
      → find_node (suc fuel) equal n h ≡ find_node fuel equal m h
  unfolding find_node
  find_node-miss fuel equal n m h x g e s = rw (g, e, s)

  find_node-first :
      (fuel : ℕ) (equal : A → Bool) (h : Heap A) (a : ℕ) (front : List ℕ) (d : ℕ) (back : List ℕ)
      (b : ℕ) (xs : List A) (x : A)
      → length front < fuel
      → Nexts h.next a (front ++ d ∷ back) b
      → Holds h.contents front xs
      → h.contents d ≡ some x
      → AllFail equal xs
      → equal x ≡ true
      → find_node fuel equal (first_of (front ++ d ∷ back) b) h ≡ ok d
  find_node-first zero equal h a front d back b xs x lt n p g f e = absurd (omega arith)
  find_node-first (suc fuel) equal h a [] d back b xs x lt n p g f e =
      find_node-hit fuel equal d h x g e
  find_node-first (suc fuel) equal h a (m ∷ front) d back b [] x lt n p g f e = absurd p.0
  find_node-first (suc fuel) equal h a (m ∷ front) d back b (y ∷ xs) x lt n p g f e =
      find_node-miss fuel equal m (first_of (front ++ d ∷ back) b) h y p.0 f.0
        (Nexts-first_of h.next m (front ++ d ∷ back) b n.1)
      ∙ find_node-first fuel equal h m front d back b xs x (omega arith) n.1 p.1 g f.1 e

  get_node_by_value-step :
      (equal : A → Bool) (l : LinkedList) (h : Heap A) (first : ℕ)
      → h.next l.dummy_head ≡ some first
      → get_node_by_value equal l h ≡ find_node (l.size + 1) equal first h
  unfolding get_node_by_value
  get_node_by_value-step equal l h first e = rw e

  remove_elem-step :
      (equal : A → Bool) (l : LinkedList) (h : Heap A) (d : ℕ)
      → get_node_by_value equal l h ≡ ok d
      → remove_elem equal l h ≡ take_out d l h
  unfolding remove_elem
  remove_elem-step equal l h d e = rw e

  get_by_value-step :
      (equal : A → Bool) (l : LinkedList) (h : Heap A) (d : ℕ) (x : A)
      → get_node_by_value equal l h ≡ ok d
      → h.contents d ≡ some x
      → get_by_value equal l h ≡ ok x
  unfolding get_by_value
  get_by_value-step equal l h d x e g = rw (e, g)

  -- On a heap that holds a list with a value that the test accepts, `get_by_value` returns the first
  -- such value, and `remove_elem` returns it and leaves the others in their order.
  pub remove_elem-Removes :
      (equal : A → Bool) (l : LinkedList) (h : Heap A) (xs : List A) (x : A) (ys : List A)
      → IsList l h (xs ++ x ∷ ys)
      → AllFail equal xs
      → equal x ≡ true
      → (get_by_value equal l h ≡ ok x) × Removes (remove_elem equal l h) x (xs ++ ys)
  remove_elem-Removes equal l h xs x ys (ns, r) fails holds =
      let (front, d, back, e, p, g, q, t) = take_out-list l h ns xs x ys r in
      let r' = rw e at r in
      let found : get_node_by_value equal l h ≡ ok d =
        get_node_by_value-step equal l h _ (Nexts-first_of _ _ (front ++ d ∷ back) _ r'.nexts)
        ∙ find_node-first (l.size + 1) equal h l.dummy_head front d back l.dummy_tail xs x
            (omega (arith, r'.counted, length-append front (d ∷ back))) r'.nexts p g fails holds in
      (get_by_value-step equal l h d x found g, rw (remove_elem-step equal l h d found) t)

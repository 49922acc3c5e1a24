-- ===== src/A3/LinkedList/Take.antt =====
-- Removal from the linked lists of a3/linked_list.c against plain lists.
use ecse_427_simple_shell_cr.Base.{
  ℕ, suc, ◌≡◌, ◌≢◌, refl, sym, ◌∙◌, false, some, List, [], ◌∷◌, ◌++◌, append_assoc, length,
  length-append, arith, ◌==◌,
}
use ecse_427_simple_shell_cr.A3.LinkedList.{
  Result, ok, update, Heap, LinkedList, unlink_node, take_out, pop_head, pop_tail,
}
use ecse_427_simple_shell_cr.A3.LinkedList.Chain.{
  Distinct, first_of, last_of, Out-append_l, update_ne,
}
use ecse_427_simple_shell_cr.A3.LinkedList.Removal.{
  Nexts-middle, Prevs-middle, Nexts-remove, Prevs-remove, Distinct-remove, AllBelow-remove,
}
use ecse_427_simple_shell_cr.A3.LinkedList.Refine.{
  Holds, Holds-append, Holds-split, Rep, IsList, Distinct-front,
}

Distinct-last_of :
    (a : ℕ) (front : List ℕ) (d : ℕ) (rest : List ℕ)
    → Distinct (a ∷ (front ++ d ∷ rest))
    → d ≢ last_of a front
Distinct-last_of a [] d rest o = λ e. o.0.0 (sym e)
Distinct-last_of a (n ∷ front) d rest o = Distinct-last_of n front d rest o.1

module _ {ℓ} {A : Type ℓ} where
  -- the call returns the value, and its list is the given one
  abbrev pub Removes : Result (A × (Heap A × LinkedList)) → A → List A → Type ℓ
  Removes r x xs = (h : Heap A) × (l : LinkedList) × (r ≡ ok (x, (h, l))) × IsList l h xs

  take_out-step :
      (d : ℕ) (l : LinkedList) (h : Heap A) (p n : ℕ) (x : A) (m : ℕ)
      → h.prev d ≡ some p
      → update h.next p (h.next d) d ≡ some n
      → h.contents d ≡ some x
      → l.size ≡ suc m
      → take_out d l h
        ≡ ok (
          x,
          (
            record h { next = update h.next p (h.next d); prev = update h.prev n (h.prev d) },
            record l { size = m },
          ),
        )
  unfolding take_out unlink_node
  take_out-step d l h p n x m e f g s = rw (e, f, g, s)

  -- The node `d` of a list taken out.
  take_out-Removes :
      (l : LinkedList) (h : Heap A) (front : List ℕ) (d : ℕ) (back : List ℕ) (xs : List A) (x : A)
      (ys : List A)
      → Rep l h (front ++ d ∷ back) (xs ++ x ∷ ys)
      → Holds h.contents front xs
      → h.contents d ≡ some x
      → Holds h.contents back ys
      → Removes (take_out d l h) x (xs ++ ys)
  take_out-Removes l h front d back xs x ys r p g q =
      let apart : Distinct (l.dummy_head ∷ (front ++ d ∷ back)) = (
        Out-append_l l.dummy_head (front ++ d ∷ back) (l.dummy_tail ∷ []) r.distinct.0,
        Distinct-front (front ++ d ∷ back) l.dummy_tail r.distinct.1,
      ) in
      let assoc = append_assoc front (d ∷ back) (l.dummy_tail ∷ []) in
      (
        _,
        _,
        take_out-step d l h (last_of l.dummy_head front) (first_of back l.dummy_tail) x
            (length (front ++ back))
            (Prevs-middle h.prev l.dummy_head front d back l.dummy_tail r.prevs)
            (update_ne h.next (last_of l.dummy_head front) (h.next d) d
                (Distinct-last_of l.dummy_head front d back apart)
              ∙ Nexts-middle h.next l.dummy_head front d back l.dummy_tail r.nexts)
            g (omega (arith, r.counted, length-append front (d ∷ back), length-append front back)),
        (
          front ++ back,
          record {
            nexts = Nexts-remove h.next l.dummy_head front d back l.dummy_tail apart r.nexts;
            prevs = Prevs-remove h.prev l.dummy_head front d back l.dummy_tail r.distinct.1 r.prevs;
            distinct = rw (append_assoc front back (l.dummy_tail ∷ [])) (
                Distinct-remove (l.dummy_head ∷ front) d (back ++ l.dummy_tail ∷ [])
                  (rw assoc at r.distinct));
            below = rw (append_assoc front back (l.dummy_tail ∷ [])) (
                AllBelow-remove h.fresh (l.dummy_head ∷ front) d (back ++ l.dummy_tail ∷ [])
                  (rw assoc at r.below));
            holds = Holds-append h.contents front back xs ys p q;
            counted = refl;
          },
        ),
      )

  -- Every value of a list stands in a node that can be taken out.
  pub take_out-list :
      (l : LinkedList) (h : Heap A) (ns : List ℕ) (xs : List A) (x : A) (ys : List A)
      → Rep l h ns (xs ++ x ∷ ys)
      → (front : List ℕ) × (d : ℕ) × (back : List ℕ) × (ns ≡ front ++ d ∷ back)
        × Holds h.contents front xs
        × (h.contents d ≡ some x)
        × Holds h.contents back ys
        × Removes (take_out d l h) x (xs ++ ys)
  take_out-list l h ns xs x ys r =
      let (front, d, back, e, p, g, q) = Holds-split h.contents ns xs x ys r.holds in
      (front, d, back, e, p, g, q, take_out-Removes l h front d back xs x ys (rw e at r) p g q)

  pub pop_head-step :
      (l : LinkedList) (h : Heap A) (m d : ℕ)
      → l.size ≡ suc m
      → h.next l.dummy_head ≡ some d
      → pop_head l h ≡ take_out d l h
  unfolding pop_head
  pop_head-step l h m d s e = let nz : (l.size == 0) ≡ false = ground arith in rw (nz, e)

  pub pop_tail-step :
      (l : LinkedList) (h : Heap A) (m d : ℕ)
      → l.size ≡ suc m
      → h.prev l.dummy_tail ≡ some d
      → pop_tail l h ≡ take_out d l h
  unfolding pop_tail
  pop_tail-step l h m d s e = let nz : (l.size == 0) ≡ false = ground arith in rw (nz, e)

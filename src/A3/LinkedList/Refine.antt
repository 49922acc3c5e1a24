-- ===== src/A3/LinkedList/Refine.antt =====
-- The linked lists of a3/linked_list.c against plain lists.
use ecse_427_simple_shell_cr.Base.{
  ℕ, ◌+◌, ◌≡◌, ◌≢◌, refl, sym, ap, ◌∙◌, Option, some, List, [], ◌∷◌, ◌++◌, append_assoc, length,
  length-append, arith,
}
use ecse_427_simple_shell_cr.A3.LinkedList.{
  Result, ok, update, Heap, LinkedList, add_tail, add_head,
}
use ecse_427_simple_shell_cr.A3.LinkedList.Chain.{
  update_same, update_ne, Out, Distinct, Nexts, Prevs, first_of, last_of, Out-append_l,
  Nexts-first_of, Prevs-last_of, Nexts-update, Prevs-update, Nexts-start, Prevs-start, Nexts-snoc,
  Prevs-snoc,
}
use ecse_427_simple_shell_cr.A3.LinkedList.Removal.{
  Distinct-insert, AllBelow, AllBelow-Out, AllBelow-suc, AllBelow-insert,
}

pub Distinct-front : (ns : List ℕ) (b : ℕ) → Distinct (ns ++ b ∷ []) → Distinct ns
Distinct-front [] b d = tt
Distinct-front (n ∷ ns) b d = (Out-append_l n ns _ d.0, Distinct-front ns b d.1)

Distinct-Out : (ns : List ℕ) (b : ℕ) → Distinct (ns ++ b ∷ []) → Out b ns
Distinct-Out [] b d = tt
Distinct-Out (n ∷ ns) b d = ((λ e. Out-final n ns b d.0 (sym e)), Distinct-Out ns b d.1)
  where
    Out-final : (c : ℕ) (ms : List ℕ) (e : ℕ) → Out c (ms ++ e ∷ []) → c ≢ e
    Out-final c [] e o = o.0
    Out-final c (m ∷ ms) e o = Out-final c ms e o.1

module _ {ℓ} {A : Type ℓ} where
  -- the nodes hold the values, in order
  abbrev pub Holds : (ℕ → Option A) → List ℕ → List A → Type ℓ
  Holds c [] [] = Unit {ℓ}
  Holds c [] (x ∷ xs) = ⊥ × Unit {ℓ}
  Holds c (n ∷ ns) [] = ⊥ × Unit {ℓ}
  Holds c (n ∷ ns) (x ∷ xs) = (c n ≡ some x) × Holds c ns xs

  Holds-update :
      (c : ℕ → Option A) (new : ℕ) (v : Option A) (ns : List ℕ) (xs : List A)
      → Out new ns
      → Holds c ns xs
      → Holds (update c new v) ns xs
  Holds-update c new v [] [] o h = h
  Holds-update c new v [] (x ∷ xs) o h = h
  Holds-update c new v (n ∷ ns) [] o h = h
  Holds-update c new v (n ∷ ns) (x ∷ xs) o h =
      (update_ne c new v n (λ e. o.0 (sym e)) ∙ h.0, Holds-update c new v ns xs o.1 h.1)

  pub Holds-append :
      (c : ℕ → Option A) (ns ms : List ℕ) (xs ys : List A)
      → Holds c ns xs
      → Holds c ms ys
      → Holds c (ns ++ ms) (xs ++ ys)
  Holds-append c [] ms [] ys h k = k
  Holds-append c [] ms (x ∷ xs) ys h k = absurd h.0
  Holds-append c (n ∷ ns) ms [] ys h k = absurd h.0
  Holds-append c (n ∷ ns) ms (x ∷ xs) ys h k = (h.0, Holds-append c ns ms xs ys h.1 k)

  pub Holds-split :
      (c : ℕ → Option A) (ns : List ℕ) (xs : List A) (x : A) (ys : List A)
      → Holds c ns (xs ++ x ∷ ys)
      → (front : List ℕ) × (d : ℕ) × (back : List ℕ) × (ns ≡ front ++ d ∷ back)
        × Holds c front xs
        × (c d ≡ some x)
        × Holds c back ys
  Holds-split c [] [] x ys h = absurd h.0
  Holds-split c [] (y ∷ xs) x ys h = absurd h.0
  Holds-split c (n ∷ ns) [] x ys h = ([], n, ns, refl, tt, h.0, h.1)
  Holds-split c (n ∷ ns) (y ∷ xs) x ys h =
      let (front, d, back, e, p, q, r) = Holds-split c ns xs x ys h.1 in
      (n ∷ front, d, back, ap (◌∷◌ n) e, (h.0, p), q, r)

  -- The heap holds the list: its nodes are distinct and linked in both directions, hold the values, and
  -- are counted by the size.
  pub record Rep (l : LinkedList) (h : Heap A) (ns : List ℕ) (xs : List A) : Type ℓ where
    pub nexts : Nexts h.next l.dummy_head ns l.dummy_tail
    pub prevs : Prevs h.prev l.dummy_head ns l.dummy_tail
    pub distinct : Distinct (l.dummy_head ∷ (ns ++ l.dummy_tail ∷ []))
    pub below : AllBelow h.fresh (l.dummy_head ∷ (ns ++ l.dummy_tail ∷ []))
    pub holds : Holds h.contents ns xs
    pub counted : l.size ≡ length ns

  -- some nodes hold the list
  abbrev pub IsList : LinkedList → Heap A → List A → Type ℓ
  IsList l h xs = (ns : List ℕ) × Rep l h ns xs

  -- the call returns and its list is the given one
  abbrev pub Yields : Result (Heap A × LinkedList) → List A → Type ℓ
  Yields r xs = (h : Heap A) × (l : LinkedList) × (r ≡ ok (h, l)) × IsList l h xs

  add_head-step :
      (x : A) (l : LinkedList) (h : Heap A) (o : ℕ)
      → h.next l.dummy_head ≡ some o
      → add_head x l h
        ≡ ok (
          record {
            fresh = h.fresh + 1;
            contents = update h.contents h.fresh (some x);
            next = update (update h.next h.fresh (some o)) l.dummy_head (some h.fresh);
            prev = update (update h.prev o (some h.fresh)) h.fresh (some l.dummy_head);
          },
          record l { size = l.size + 1 },
        )
  unfolding add_head
  add_head-step x l h o e = rw e

  add_tail-step :
      (x : A) (l : LinkedList) (h : Heap A) (o : ℕ)
      → h.prev l.dummy_tail ≡ some o
      → add_tail x l h
        ≡ ok (
          record {
            fresh = h.fresh + 1;
            contents = update h.contents h.fresh (some x);
            next = update (update h.next o (some h.fresh)) h.fresh (some l.dummy_tail);
            prev = update (update h.prev h.fresh (some o)) l.dummy_tail (some h.fresh);
          },
          record l { size = l.size + 1 },
        )
  unfolding add_tail
  add_tail-step x l h o e = rw e

  Rep-fresh :
      (l : LinkedList) (h : Heap A) (ns : List ℕ) (xs : List A)
      → Rep l h ns xs
      → Out h.fresh (l.dummy_head ∷ (ns ++ l.dummy_tail ∷ []))
  Rep-fresh l h ns xs r = AllBelow-Out h.fresh (l.dummy_head ∷ (ns ++ l.dummy_tail ∷ [])) r.below

  -- On a heap that holds a list, `add_head` returns and its list has the value in front.
  pub add_head-Yields :
      (x : A) (l : LinkedList) (h : Heap A) (xs : List A)
      → IsList l h xs
      → Yields (add_head x l h) (x ∷ xs)
  add_head-Yields x l h xs (ns, r) =
      let new = Rep-fresh l h ns xs r in
      (
        _,
        _,
        add_head-step x l h (first_of ns l.dummy_tail) (Nexts-first_of _ _ ns _ r.nexts),
        (
          h.fresh ∷ ns,
          record {
            nexts = (
              update_same _ l.dummy_head (some h.fresh),
              Nexts-update _ l.dummy_head _ h.fresh ns _
                  ((λ e. new.0 (sym e)), Out-append_l _ ns _ r.distinct.0)
                  (Nexts-start _ l.dummy_head h.fresh ns _
                    (update_same h.next h.fresh _
                      ∙ sym (
                          update_ne h.next h.fresh _ l.dummy_head (λ e. new.0 (sym e))
                          ∙ Nexts-first_of _ _ ns _ r.nexts))
                    (Nexts-update h.next h.fresh _ l.dummy_head ns _
                      (new.0, Out-append_l _ ns _ new.1) r.nexts)),
            );
            prevs = (
              update_same _ h.fresh (some l.dummy_head),
              Prevs-update _ h.fresh _ h.fresh ns _ new.1
                  (Prevs-start h.prev l.dummy_head h.fresh ns _ r.distinct.1 r.prevs),
            );
            distinct = (((λ e. new.0 (sym e)), r.distinct.0), (new.1, r.distinct.1));
            below = (omega (arith, r.below.0), (omega arith, AllBelow-suc _ _ r.below.1));
            holds = (
              update_same h.contents h.fresh (some x),
              Holds-update h.contents h.fresh _ ns xs (Out-append_l _ ns _ new.1) r.holds,
            );
            counted = omega (arith, r.counted);
          },
        ),
      )

  -- On a heap that holds a list, `add_tail` returns and its list has the value at the end.
  pub add_tail-Yields :
      (x : A) (l : LinkedList) (h : Heap A) (xs : List A)
      → IsList l h xs
      → Yields (add_tail x l h) (xs ++ x ∷ [])
  add_tail-Yields x l h xs (ns, r) =
      let new = Rep-fresh l h ns xs r in
      (
        _,
        _,
        add_tail-step x l h (last_of l.dummy_head ns) (Prevs-last_of _ _ ns _ r.prevs),
        (
          ns ++ h.fresh ∷ [],
          record {
            nexts =
                Nexts-snoc h.next h.fresh l.dummy_head ns l.dummy_tail
                  (Out-append_l _ ns _ r.distinct.0, Distinct-front ns l.dummy_tail r.distinct.1)
                  (new.0, Out-append_l _ ns _ new.1) r.nexts;
            prevs =
                Prevs-snoc h.prev h.fresh l.dummy_head ns l.dummy_tail
                  (Distinct-Out ns l.dummy_tail r.distinct.1) new.1 r.prevs;
            distinct =
                rw (append_assoc ns (h.fresh ∷ []) (l.dummy_tail ∷ []))
                  (Distinct-insert (l.dummy_head ∷ ns) h.fresh (l.dummy_tail ∷ []) new r.distinct);
            below = rw (append_assoc ns (h.fresh ∷ []) (l.dummy_tail ∷ [])) (
                AllBelow-insert (h.fresh + 1) (l.dummy_head ∷ ns) h.fresh (l.dummy_tail ∷ [])
                  (omega arith)
                  (AllBelow-suc h.fresh (l.dummy_head ∷ (ns ++ l.dummy_tail ∷ [])) r.below));
            holds =
                Holds-append _ ns (h.fresh ∷ []) xs (x ∷ [])
                  (Holds-update h.contents h.fresh _ ns xs (Out-append_l _ ns _ new.1) r.holds)
                  (update_same h.contents h.fresh (some x), tt);
            counted = omega (arith, r.counted, length-append ns (h.fresh ∷ []));
          },
        ),
      )

-- ===== src/A3/LinkedList/Removal.antt =====
-- A node taken out of a chain.
use ecse_427_simple_shell_cr.Base.{
  ℕ, ◌+◌, ◌<◌, ◌≡◌, ◌≢◌, sym, ◌∙◌, Option, some, List, [], ◌∷◌, ◌++◌, arith,
}
use ecse_427_simple_shell_cr.A3.LinkedList.{update}
use ecse_427_simple_shell_cr.A3.LinkedList.Chain.{
  update_same, update_ne, Out, Distinct, Nexts, Prevs, first_of, last_of, Out-append_l, Out-last_of,
  Nexts-first_of, Nexts-update, Nexts-start, Prevs-start,
}

-- The neighbours of a node.
pub Nexts-middle :
    (f : ℕ → Option ℕ) (a : ℕ) (front : List ℕ) (d : ℕ) (back : List ℕ) (b : ℕ)
    → Nexts f a (front ++ d ∷ back) b
    → f d ≡ some (first_of back b)
Nexts-middle f a [] d back b h = Nexts-first_of f d back b h.1
Nexts-middle f a (n ∷ front) d back b h = Nexts-middle f n front d back b h.1

pub Prevs-middle :
    (g : ℕ → Option ℕ) (a : ℕ) (front : List ℕ) (d : ℕ) (back : List ℕ) (b : ℕ)
    → Prevs g a (front ++ d ∷ back) b
    → g d ≡ some (last_of a front)
Prevs-middle g a [] d back b h = h.0
Prevs-middle g a (n ∷ front) d back b h = Prevs-middle g n front d back b h.1

Out-first_of :
    (c : ℕ) (front : List ℕ) (d : ℕ) (back : List ℕ) (b : ℕ)
    → Out c ((front ++ d ∷ back) ++ b ∷ [])
    → c ≢ first_of back b
Out-first_of c [] d [] b o = o.1.0
Out-first_of c [] d (m ∷ back) b o = o.1.0
Out-first_of c (n ∷ front) d back b o = Out-first_of c front d back b o.1

pub Nexts-remove :
    (f : ℕ → Option ℕ) (a : ℕ) (front : List ℕ) (d : ℕ) (back : List ℕ) (b : ℕ)
    → Distinct (a ∷ (front ++ d ∷ back))
    → Nexts f a (front ++ d ∷ back) b
    → Nexts (update f (last_of a front) (f d)) a (front ++ back) b
Nexts-remove f a [] d back b o h =
    Nexts-start (update f a (f d)) d a back b
      (update_same f a (f d) ∙ sym (update_ne f a (f d) d (λ e. o.0.0 (sym e))))
      (Nexts-update f a (f d) d back b o.0 h.1)
Nexts-remove f a (n ∷ front) d back b o h = (
  update_ne f (last_of n front) (f d) a
        (Out-last_of a n front (Out-append_l a (n ∷ front) (d ∷ back) o.0))
      ∙ h.0,
  Nexts-remove f n front d back b o.1 h.1,
)

pub Prevs-remove :
    (g : ℕ → Option ℕ) (a : ℕ) (front : List ℕ) (d : ℕ) (back : List ℕ) (b : ℕ)
    → Distinct ((front ++ d ∷ back) ++ b ∷ [])
    → Prevs g a (front ++ d ∷ back) b
    → Prevs (update g (first_of back b) (g d)) a (front ++ back) b
Prevs-remove g a [] d back b o h = rw h.0 (Prevs-start g d a back b o.1 h.1)
Prevs-remove g a (n ∷ front) d back b o h = (
  update_ne g (first_of back b) (g d) n (Out-first_of n front d back b o.0) ∙ h.0,
  Prevs-remove g n front d back b o.1 h.1,
)

-- What is left is distinct, and nothing new is in it.
pub Out-remove :
    (c : ℕ) (front : List ℕ) (d : ℕ) (rest : List ℕ)
    → Out c (front ++ d ∷ rest)
    → Out c (front ++ rest)
Out-remove c [] d rest o = o.1
Out-remove c (n ∷ front) d rest o = (o.0, Out-remove c front d rest o.1)

pub Distinct-remove :
    (front : List ℕ) (d : ℕ) (rest : List ℕ)
    → Distinct (front ++ d ∷ rest)
    → Distinct (front ++ rest)
Distinct-remove [] d rest o = o.1
Distinct-remove (n ∷ front) d rest o =
    (Out-remove n front d rest o.0, Distinct-remove front d rest o.1)

pub Out-insert :
    (c : ℕ) (front : List ℕ) (d : ℕ) (rest : List ℕ)
    → c ≢ d
    → Out c (front ++ rest)
    → Out c (front ++ d ∷ rest)
Out-insert c [] d rest ne o = (ne, o)
Out-insert c (n ∷ front) d rest ne o = (o.0, Out-insert c front d rest ne o.1)

pub Distinct-insert :
    (front : List ℕ) (d : ℕ) (rest : List ℕ)
    → Out d (front ++ rest)
    → Distinct (front ++ rest)
    → Distinct (front ++ d ∷ rest)
Distinct-insert [] d rest q o = (q, o)
Distinct-insert (n ∷ front) d rest q o =
    (Out-insert n front d rest (λ e. q.0 (sym e)) o.0, Distinct-insert front d rest q.1 o.1)

-- every address is below the bound
abbrev pub AllBelow : ℕ → List ℕ → Type 0
AllBelow m [] = Unit {0}
AllBelow m (n ∷ ns) = (n < m) × AllBelow m ns

pub AllBelow-Out : (m : ℕ) (ns : List ℕ) → AllBelow m ns → Out m ns
AllBelow-Out m [] h = tt
AllBelow-Out m (n ∷ ns) h = ((λ e. omega arith), AllBelow-Out m ns h.1)

pub AllBelow-suc : (m : ℕ) (ns : List ℕ) → AllBelow m ns → AllBelow (m + 1) ns
AllBelow-suc m [] h = tt
AllBelow-suc m (n ∷ ns) h = (omega arith, AllBelow-suc m ns h.1)

pub AllBelow-remove :
    (m : ℕ) (front : List ℕ) (d : ℕ) (rest : List ℕ)
    → AllBelow m (front ++ d ∷ rest)
    → AllBelow m (front ++ rest)
AllBelow-remove m [] d rest h = h.1
AllBelow-remove m (n ∷ front) d rest h = (h.0, AllBelow-remove m front d rest h.1)

pub AllBelow-insert :
    (m : ℕ) (front : List ℕ) (d : ℕ) (rest : List ℕ)
    → d < m
    → AllBelow m (front ++ rest)
    → AllBelow m (front ++ d ∷ rest)
AllBelow-insert m [] d rest lt h = (lt, h)
AllBelow-insert m (n ∷ front) d rest lt h = (h.0, AllBelow-insert m front d rest lt h.1)

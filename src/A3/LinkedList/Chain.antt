-- ===== src/A3/LinkedList/Chain.antt =====
-- The chain of nodes that a list's pointers form, and how a write of a pointer changes it.
use ecse_427_simple_shell_cr.Base.{
  ℕ, ◌≡◌, ◌≢◌, sym, ◌∙◌, true, false, Option, some, List, [], ◌∷◌, ◌++◌, ◌==◌, arith,
}
use ecse_427_simple_shell_cr.A3.LinkedList.{update}

module _ {ℓ} {A : Type ℓ} where
  pub update_same : (f : ℕ → A) (a : ℕ) (v : A) → update f a v a ≡ v
  unfolding update
  update_same f a v = let same : (a == a) ≡ true = ground arith in rw same

  pub update_ne : (f : ℕ → A) (a : ℕ) (v : A) (x : ℕ) → x ≢ a → update f a v x ≡ f x
  unfolding update
  update_ne f a v x ne = let other : (x == a) ≡ false = ground arith in rw other

-- the address is not in the list
abbrev pub Out : ℕ → List ℕ → Type 0
Out c [] = Unit {0}
Out c (n ∷ ns) = (c ≢ n) × Out c ns

abbrev pub Distinct : List ℕ → Type 0
Distinct [] = Unit {0}
Distinct (n ∷ ns) = Out n ns × Distinct ns

-- From `a` the `next` pointers lead through the nodes to `b`.
abbrev pub Nexts : (ℕ → Option ℕ) → ℕ → List ℕ → ℕ → Type 0
Nexts f a [] b = f a ≡ some b
Nexts f a (n ∷ ns) b = (f a ≡ some n) × Nexts f n ns b

-- From `b` the `prev` pointers lead back through the nodes to `a`.
abbrev pub Prevs : (ℕ → Option ℕ) → ℕ → List ℕ → ℕ → Type 0
Prevs g a [] b = g b ≡ some a
Prevs g a (n ∷ ns) b = (g n ≡ some a) × Prevs g n ns b

-- the first node of the chain behind `a`, and the last one before `b`
abbrev pub first_of : List ℕ → ℕ → ℕ
first_of [] b = b
first_of (n ∷ ns) b = n

abbrev pub last_of : ℕ → List ℕ → ℕ
last_of a [] = a
last_of a (n ∷ ns) = last_of n ns

pub Nexts-first_of :
    (f : ℕ → Option ℕ) (a : ℕ) (ns : List ℕ) (b : ℕ) → Nexts f a ns b → f a ≡ some (first_of ns b)
Nexts-first_of f a [] b h = h
Nexts-first_of f a (n ∷ ns) b h = h.0

pub Prevs-last_of :
    (g : ℕ → Option ℕ) (a : ℕ) (ns : List ℕ) (b : ℕ) → Prevs g a ns b → g b ≡ some (last_of a ns)
Prevs-last_of g a [] b h = h
Prevs-last_of g a (n ∷ ns) b h = Prevs-last_of g n ns b h.1

pub Out-append_l : (c : ℕ) (ns ms : List ℕ) → Out c (ns ++ ms) → Out c ns
Out-append_l c [] ms o = tt
Out-append_l c (n ∷ ns) ms o = (o.0, Out-append_l c ns ms o.1)

pub Out-append_r : (c : ℕ) (ns ms : List ℕ) → Out c (ns ++ ms) → Out c ms
Out-append_r c [] ms o = o
Out-append_r c (n ∷ ns) ms o = Out-append_r c ns ms o.1

pub Out-last_of : (c n : ℕ) (ns : List ℕ) → Out c (n ∷ ns) → c ≢ last_of n ns
Out-last_of c n [] o = o.0
Out-last_of c n (m ∷ ns) o = Out-last_of c m ns o.1

-- A write at an address that no pointer of the chain starts from changes nothing.
pub Nexts-update :
    (f : ℕ → Option ℕ) (c : ℕ) (v : Option ℕ) (a : ℕ) (ns : List ℕ) (b : ℕ)
    → Out c (a ∷ ns)
    → Nexts f a ns b
    → Nexts (update f c v) a ns b
Nexts-update f c v a [] b o h = update_ne f c v a (λ e. o.0 (sym e)) ∙ h
Nexts-update f c v a (n ∷ ns) b o h =
    (update_ne f c v a (λ e. o.0 (sym e)) ∙ h.0, Nexts-update f c v n ns b o.1 h.1)

pub Prevs-update :
    (g : ℕ → Option ℕ) (c : ℕ) (v : Option ℕ) (a : ℕ) (ns : List ℕ) (b : ℕ)
    → Out c (ns ++ b ∷ [])
    → Prevs g a ns b
    → Prevs (update g c v) a ns b
Prevs-update g c v a [] b o h = update_ne g c v b (λ e. o.0 (sym e)) ∙ h
Prevs-update g c v a (n ∷ ns) b o h =
    (update_ne g c v n (λ e. o.0 (sym e)) ∙ h.0, Prevs-update g c v n ns b o.1 h.1)

-- The chain with another first pointer.
pub Nexts-start :
    (f : ℕ → Option ℕ) (a c : ℕ) (ns : List ℕ) (b : ℕ) → f c ≡ f a → Nexts f a ns b → Nexts f c ns b
Nexts-start f a c [] b e h = e ∙ h
Nexts-start f a c (n ∷ ns) b e h = (e ∙ h.0, h.1)

pub Prevs-start :
    (g : ℕ → Option ℕ) (a c : ℕ) (ns : List ℕ) (b : ℕ)
    → Distinct (ns ++ b ∷ [])
    → Prevs g a ns b
    → Prevs (update g (first_of ns b) (some c)) c ns b
Prevs-start g a c [] b d h = update_same g b (some c)
Prevs-start g a c (n ∷ ns) b d h =
    (update_same g n (some c), Prevs-update g n (some c) n ns b d.0 h.1)

-- A node `new` behind the last one.
pub Nexts-snoc :
    (f : ℕ → Option ℕ) (new a : ℕ) (ns : List ℕ) (b : ℕ)
    → Distinct (a ∷ ns)
    → Out new (a ∷ ns)
    → Nexts f a ns b
    → Nexts (update (update f (last_of a ns) (some new)) new (some b)) a (ns ++ new ∷ []) b
Nexts-snoc f new a [] b d o h = (
  update_ne _ new (some b) a (λ e. o.0 (sym e)) ∙ update_same f a (some new),
  update_same (update f a (some new)) new (some b),
)
Nexts-snoc f new a (n ∷ ns) b d o h = (
  update_ne _ new (some b) a (λ e. o.0 (sym e))
      ∙ update_ne f (last_of n ns) (some new) a (Out-last_of a n ns d.0)
      ∙ h.0,
  Nexts-snoc f new n ns b d.1 o.1 h.1,
)

pub Prevs-snoc :
    (g : ℕ → Option ℕ) (new a : ℕ) (ns : List ℕ) (b : ℕ)
    → Out b ns
    → Out new (ns ++ b ∷ [])
    → Prevs g a ns b
    → Prevs (update (update g new (some (last_of a ns))) b (some new)) a (ns ++ new ∷ []) b
Prevs-snoc g new a [] b o q h = (
  update_ne _ b (some new) new q.0 ∙ update_same g new (some a),
  update_same (update g new (some a)) b (some new),
)
Prevs-snoc g new a (n ∷ ns) b o q h = (
  update_ne _ b (some new) n (λ e. o.0 (sym e))
      ∙ update_ne g new (some (last_of n ns)) n (λ e. q.0 (sym e))
      ∙ h.0,
  Prevs-snoc g new n ns b o.1 q.1 h.1,
)

-- ===== src/A3/LinkedList.antt =====
-- a3/linked_list.c: doubly linked lists with a dummy node at each end, on a heap of nodes.
pub mod Chain
pub mod Removal
pub mod Refine
pub mod Take
pub mod Pop
pub mod Init
use ecse_427_simple_shell_cr.Base.{
  ℕ, zero, suc, ◌+◌, Bool, true, false, Option, none, some, ◌==◌, ltb, if◌then◌else◌,
}

-- What a call comes to: a value and the new heap, `exit(99)`, undefined behaviour, or no fuel.
pub data Result {ℓ} (A : Type ℓ) : Type ℓ where
  ok : A → Result A
  exit_99 : Result A
  fault : Result A
  no_fuel : Result A

module _ {ℓ ℓ'} {A : Type ℓ} {B : Type ℓ'} where
  infixl 5 ◌>>=◌
  abbrev pub ◌>>=◌ : Result A → (A → Result B) → Result B
  ok a >>= f = f a
  exit_99 >>= f = exit_99
  fault >>= f = fault
  no_fuel >>= f = no_fuel

module _ {ℓ} {A : Type ℓ} where
  -- a pointer or a value that is read: `none` is a null pointer or has no value yet
  abbrev pub deref : Option A → Result A
  deref none = fault
  deref (some a) = ok a

  unfoldable pub update : (ℕ → A) → ℕ → A → ℕ → A
  update f a v x = if x == a then v else f x

-- The fields of every node by its address; `fresh` is the next address that `malloc` gives.
pub record Heap {ℓ} (A : Type ℓ) : Type ℓ where
  pub fresh : ℕ
  pub contents : ℕ → Option A
  pub next : ℕ → Option ℕ
  pub prev : ℕ → Option ℕ

-- `LINKED_LIST`, without `equal`, which is an argument of the functions that call it
pub record LinkedList : Type 0 where
  pub size : ℕ
  pub dummy_head : ℕ
  pub dummy_tail : ℕ

module _ {ℓ} {A : Type ℓ} where
  unfoldable pub list_init : Heap A → Heap A × LinkedList
  list_init h =
      let head = h.fresh in
      let tail = h.fresh + 1 in
      (
        record h {
          fresh = h.fresh + 2;
          next = update (update h.next tail none) head (some tail);
          prev = update h.prev tail (some head);
        },
        record { size = 0; dummy_head = head; dummy_tail = tail },
      )

  unfoldable pub list_clear : LinkedList → Heap A → Heap A × LinkedList
  list_clear l h = (
    record h {
      next = update h.next l.dummy_head (some l.dummy_tail);
      prev = update h.prev l.dummy_tail (some l.dummy_head);
    },
    record l { size = 0 },
  )

  unfoldable pub add_tail : A → LinkedList → Heap A → Result (Heap A × LinkedList)
  add_tail x l h = do
    let new = h.fresh
    old_tail ← deref (h.prev l.dummy_tail)
    ok (
      record {
        fresh = h.fresh + 1;
        contents = update h.contents new (some x);
        next = update (update h.next old_tail (some new)) new (some l.dummy_tail);
        prev = update (update h.prev new (some old_tail)) l.dummy_tail (some new);
      },
      record l { size = l.size + 1 },
    )

  unfoldable pub add_head : A → LinkedList → Heap A → Result (Heap A × LinkedList)
  add_head x l h = do
    let new = h.fresh
    old_head ← deref (h.next l.dummy_head)
    ok (
      record {
        fresh = h.fresh + 1;
        contents = update h.contents new (some x);
        next = update (update h.next new (some old_head)) l.dummy_head (some new);
        prev = update (update h.prev old_head (some new)) new (some l.dummy_head);
      },
      record l { size = l.size + 1 },
    )

  -- `d->prev->next = d->next; d->next->prev = d->prev;`
  unfoldable pub unlink_node : ℕ → Heap A → Result (Heap A)
  unlink_node d h = do
    before ← deref (h.prev d)
    let next' = update h.next before (h.next d)
    behind ← deref (next' d)
    ok (record h { next = next'; prev = update h.prev behind (h.prev d) })

  -- The node is unlinked, the size counted down and the data returned. A size below 0 is not modelled:
  -- `fault`.
  unfoldable pub take_out : ℕ → LinkedList → Heap A → Result (A × (Heap A × LinkedList))
  take_out d l h = do
    h' ← unlink_node d h
    x ← deref (h'.contents d)
    elim l.size [ zero ↦ fault | suc n ↦ ok (x, (h', record l { size = n })) ]

  unfoldable pub pop_head : LinkedList → Heap A → Result (A × (Heap A × LinkedList))
  pop_head l h =
      if l.size == 0 then exit_99 else (do first ← deref (h.next l.dummy_head); take_out first l h)

  unfoldable pub pop_tail : LinkedList → Heap A → Result (A × (Heap A × LinkedList))
  pop_tail l h =
      if l.size == 0 then exit_99 else (do final ← deref (h.prev l.dummy_tail); take_out final l h)

  -- `while (i < index) curr = curr->next`
  unfoldable pub walk : ℕ → ℕ → Heap A → Result ℕ
  walk zero curr h = ok curr
  walk (suc n) curr h = do behind ← deref (h.next curr); walk n behind h

  -- `get_node_by_index` of an index that is not negative; `none` is its null pointer.
  unfoldable pub get_node_by_index : LinkedList → ℕ → Heap A → Result (Option ℕ)
  get_node_by_index l index h =
      if ltb index l.size
      then (do first ← deref (h.next l.dummy_head); node ← walk index first h; ok (some node))
      else ok none

  unfoldable pub get_by_index : LinkedList → ℕ → Heap A → Result A
  get_by_index l index h = do
    found ← get_node_by_index l index h
    node ← deref found
    deref (h.contents node)

  -- The loop of `get_node_by_value` from a node on, on fuel, of which it gets a round more than nodes. The data of a dummy node has no value, so
  -- the test on the one at the end is undefined behaviour.
  unfoldable pub find_node : ℕ → (A → Bool) → ℕ → Heap A → Result ℕ
  find_node zero equal curr h = no_fuel
  find_node (suc fuel) equal curr h = do
    x ← deref (h.contents curr)
    if equal x then ok curr else (do behind ← deref (h.next curr); find_node fuel equal behind h)

  unfoldable pub get_node_by_value : (A → Bool) → LinkedList → Heap A → Result ℕ
  get_node_by_value equal l h = do
    first ← deref (h.next l.dummy_head)
    find_node (l.size + 1) equal first h

  unfoldable pub get_by_value : (A → Bool) → LinkedList → Heap A → Result A
  get_by_value equal l h = do node ← get_node_by_value equal l h; deref (h.contents node)

  unfoldable pub remove_elem : (A → Bool) → LinkedList → Heap A → Result (A × (Heap A × LinkedList))
  remove_elem equal l h = do node ← get_node_by_value equal l h; take_out node l h

  unfoldable pub swap : ℕ → ℕ → Heap A → Heap A
  swap node1 node2 h = record h {
    contents = update (update h.contents node1 (h.contents node2)) node2 (h.contents node1);
  }

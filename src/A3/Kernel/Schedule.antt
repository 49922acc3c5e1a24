-- ===== src/A3/Kernel/Schedule.antt =====
-- The two schedulers of a3/kernel.c, on fuel.
use ecse_427_simple_shell_cr.Base.{
  ℕ, zero, suc, ◌+◌, Bool, true, false, Option, none, some, List, [], ◌∷◌, Str, ltb, ◌==◌,
  if◌then◌else◌, get_elem?, take, ℤ, pos, negsuc, eq_ℤ,
}
use mathlib.Core.Option
use ecse_427_simple_shell_cr.A3.LinkedList.{ok, fault, no_fuel, list_clear, add_tail, pop_head}
use ecse_427_simple_shell_cr.A3.State.{Cmd, ◌>>=◌, ◌>>◌, pure, or_fault, gets, get_page, get_pcb}
use ecse_427_simple_shell_cr.A3.Pcb.{all_three, free_pcb}
use ecse_427_simple_shell_cr.A3.Kernel.{on_queue, on_lru, on_all, take_queue, run_proc}

-- the test `size > n` of an `int`
unfoldable pub exceeds : ℤ → ℕ → Bool
exceeds (pos m) n = ltb n m
exceeds (negsuc m) n = false

-- the first page with a program counter that is not 3; behind the table if there is none
unfoldable pub first_open : List ℕ → ℕ
first_open [] = 0
first_open (n ∷ ns) = if n == 3 then first_open ns + 1 else 0

-- the first line of a page that is loaded
unfoldable pub first_valid : List ℕ → Option ℕ
first_valid [] = none
first_valid (v ∷ vs) = if v == 0 then Option.map suc (first_valid vs) else some 0

module _ {W : Type 0} where
  -- The loop of `queue_done` from a node on, on fuel: a node without a next one is the dummy tail.
  unfoldable pub done_from : ℕ → (node : ℕ) → Cmd W Bool
  done_from zero node k = no_fuel
  done_from (suc fuel) node k = elim (k.heap.next node) [
    | none ↦ ok (true, k)
    | some behind ↦
        (do
          pcb ← or_fault (k.heap.contents node)
          p ← get_pcb pcb
          if all_three (take p.page_table_size p.program_counter)
              then done_from fuel behind
              else pure false)
          k
  ]

  unfoldable pub queue_done : Cmd W Bool
  queue_done k =
      (do first ← or_fault (k.heap.next k.queue.dummy_head); done_from (k.queue.size + 2) first) k

  -- the loop of `free_PCB` over ALL_PCB
  unfoldable pub free_from : ℕ → (node : ℕ) → Cmd W (Unit {0})
  free_from zero node k = no_fuel
  free_from (suc fuel) node k = elim (k.heap.next node) [
    | none ↦ ok (tt, k)
    | some behind ↦
        (do pcb ← or_fault (k.heap.contents node); free_pcb pcb; free_from fuel behind) k
  ]

module _ {W : Type 0} (border : ℕ) (parse : Str → Cmd W ℤ) where
  -- One line of a process: that of the first page whose program counter is not 3.
  unfoldable pub run_line : (pcb : ℕ) → Cmd W ℤ
  run_line pcb = do
    p ← get_pcb pcb
    let i = first_open p.program_counter
    j ← or_fault (get_elem? p.program_counter i)
    run_proc border parse pcb i j

  -- The body of the loop of `run_proc_RR`: two lines of the process, or its last one.
  unfoldable pub run_slice : (pcb : ℕ) → Cmd W (Unit {0})
  run_slice pcb = do
    p ← get_pcb pcb
    if exceeds p.size 1
        then (do
          first ← run_line pcb
          if eq_ℤ first (pos 1) then pure tt else (do
            second ← run_line pcb
            if eq_ℤ second (pos 1) then pure tt else on_queue (add_tail pcb)))
        else if eq_ℤ p.size (pos 1)
        then (do run_line pcb; pure tt)
        else pure tt

  -- `run_proc_RR` on fuel, a round for each process that is taken from the queue
  unfoldable pub run_rounds : ℕ → Cmd W (Unit {0})
  run_rounds zero = λ _. no_fuel
  run_rounds (suc fuel) = do
    finished ← queue_done
    if finished then pure tt else (do pcb ← take_queue pop_head; run_slice pcb; run_rounds fuel)

  unfoldable pub run_proc_rr : (fuel : ℕ) → Cmd W ℤ
  run_proc_rr fuel = do
    run_rounds fuel
    k ← gets (λ k. k)
    first ← or_fault (k.heap.next k.all_pcb.dummy_head)
    free_from (k.all_pcb.size + 2) first
    on_queue (λ l h. ok (list_clear l h))
    on_lru (λ l h. ok (list_clear l h))
    on_all (λ l h. ok (list_clear l h))
    pure (pos 0)

  -- The scan of `run_proc_FIFO` for a line that is loaded, from the page `i` on.
  unfoldable pub find_valid : (i : ℕ) → List ℕ → Cmd W (ℕ × ℕ)
  find_valid i [] = λ _. fault
  find_valid i (page ∷ pages) = do
    p ← get_page page
    elim (first_valid p.valid_bit) [ some j ↦ pure (i, j) | none ↦ find_valid (i + 1) pages ]

  -- `while (!(proc_done(&curr->size)))` on fuel
  unfoldable pub run_whole : ℕ → (pcb : ℕ) → Cmd W (Unit {0})
  run_whole zero pcb = λ _. no_fuel
  run_whole (suc fuel) pcb = do
    p ← get_pcb pcb
    if exceeds p.size 0
        then (do
          (i, j) ← find_valid 0 p.page_table
          run_proc border parse pcb i j
          run_whole fuel pcb)
        else pure tt

  -- `run_proc_FIFO` on fuel, a round for each process, which its loop gets too
  unfoldable pub run_proc_fifo : ℕ → Cmd W ℤ
  run_proc_fifo zero = λ _. no_fuel
  run_proc_fifo (suc fuel) = do
    k ← gets (λ k. k)
    if k.queue.size == 0
        then pure (pos 0)
        else (do pcb ← take_queue pop_head; run_whole fuel pcb; free_pcb pcb; run_proc_fifo fuel)

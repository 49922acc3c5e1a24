-- ===== src/A2/Kernel/Schedule.antt =====
-- a2/kernel.c: `execute_process` and the schedulers. `parse` is `parseInput`, which a line of a process
-- goes to; the schedulers run on fuel, a round for each process that they take from the queue.
use ecse_427_simple_shell_cr.Base.{
  ℕ, zero, suc, Bool, true, false, not, ◌||◌, Option, none, some, List, Str, codes, str_eq, ltb,
  ◌==◌, if◌then◌else◌, get_elem?, ℤ, pos, eq_ℤ, Os,
}
use ecse_427_simple_shell_cr.A2.State.{Pcb, ok, fault, no_fuel, Cmd, ◌>>=◌, ◌>>◌, pure, or_fault}
use ecse_427_simple_shell_cr.A2.Memory.{mem_get_value_at_line, lru_queue_add_to_tail, get_page}
use ecse_427_simple_shell_cr.A2.Pcb.{update_pc}
use ecse_427_simple_shell_cr.A2.Queue.{
  max_int, add_to_tail, add_to_head, is_ready_empty, pop_head, decrement_job_length_score,
  sort_ready_queue, get_shortest_job_score, promote,
}
use ecse_427_simple_shell_cr.A2.Kernel.Load.{load_missing_page_to_mem}

module _ {W : Type 0} where
  abbrev pub set_background : Bool → Cmd W (Unit {0})
  set_background b k = ok tt (record k { in_background = b })

  abbrev pub on_queue : (List Pcb → List Pcb) → Cmd W (Unit {0})
  on_queue f k = ok tt (record k { queue = f k.queue })

  -- The head of the queue. The schedulers ask for it only of a queue that has one; a null pointer
  -- would be read through.
  unfoldable pub pop_process : Cmd W Pcb
  pop_process k = elim (pop_head k.queue).0 [
    | none ↦ fault
    | some p ↦ ok p (record k { queue = (pop_head k.queue).1 })
  ]

  unfoldable pub try_queue : (List Pcb → Option (List Pcb)) → Cmd W (Unit {0})
  try_queue f k = elim (f k.queue) [ none ↦ fault | some q ↦ ok tt (record k { queue = q }) ]

module _ {W : Type 0} (os : Os W) (threshold : ℕ) (parse : Str → Cmd W ℤ) where
  -- the line that the program counters point to, and the place of the frame store that holds it
  unfoldable pub fetch : Pcb → ℕ → Cmd W (ℤ × Str)
  fetch pcb page = do
    (if pcb.pc_line == 0 then lru_queue_add_to_tail page else pure tt)
    p ← get_page page
    index ← or_fault (get_elem? p.index pcb.pc_line)
    value ← (λ k. or_fault (mem_get_value_at_line index k.mem) k)
    text ← or_fault value
    pure (index, text)

  -- `execute_process`: whether the process ended, and the process
  unfoldable pub execute_process : ℕ → Pcb → Cmd W (Bool × Pcb)
  execute_process zero pcb = pure (false, pcb)
  execute_process (suc quanta) pcb = do
    entry ← or_fault (get_elem? pcb.page_table pcb.pc_page)
    elim entry [
      | none ↦ do
        pcb' ← load_missing_page_to_mem os threshold pcb
        set_background false
        pure (false, pcb')
      | some page ↦ do
        (index, text) ← fetch pcb page
        set_background true
        parse text
        set_background false
        let pcb' : Pcb = record pcb { priority = false }
        if eq_ℤ index pcb.last_line_number
            then pure (true, pcb')
            else execute_process quanta (update_pc pcb')
    ]

  -- The tail of each scheduler's round; `active` is false throughout, so an empty queue ends it.
  unfoldable pub scheduler_fcfs : ℕ → Cmd W (Unit {0})
  scheduler_fcfs zero k = no_fuel
  scheduler_fcfs (suc fuel) k =
      if is_ready_empty k.queue
      then ok tt k
      else (do
        cur ← pop_process
        (ended, cur') ← execute_process max_int cur
        (if ended then pure tt else on_queue (add_to_head cur'))
        scheduler_fcfs fuel)
          k

  -- A process that a page fault stops is not put back.
  unfoldable pub scheduler_sjf : ℕ → Cmd W (Unit {0})
  scheduler_sjf zero k = no_fuel
  scheduler_sjf (suc fuel) k =
      if is_ready_empty k.queue
      then ok tt k
      else (do
        try_queue sort_ready_queue
        cur ← pop_process
        (ended, cur') ← execute_process max_int cur
        scheduler_sjf fuel)
          k

  unfoldable pub scheduler_aging_alternative : ℕ → Cmd W (Unit {0})
  scheduler_aging_alternative zero k = no_fuel
  scheduler_aging_alternative (suc fuel) k =
      if is_ready_empty k.queue
      then ok tt k
      else (do
        try_queue sort_ready_queue
        cur ← pop_process
        on_queue decrement_job_length_score
        (ended, cur') ← execute_process 1 cur
        (if ended then pure tt else on_queue (add_to_head cur'))
        scheduler_aging_alternative fuel)
          k

  -- The process that the AGING scheduler runs next, `cur` being the one that it popped.
  unfoldable pub choose_aging : Pcb → Cmd W Pcb
  choose_aging cur k =
      let shortest = get_shortest_job_score k.queue in
      if ltb shortest cur.job_length_score
      then (do try_queue (promote shortest); on_queue (add_to_tail cur); pop_process) k
      else ok cur k

  unfoldable pub aging_loop : ℕ → Cmd W (Unit {0})
  unfolding choose_aging
  aging_loop zero k = no_fuel
  aging_loop (suc fuel) k =
      if is_ready_empty k.queue
      then ok tt k
      else (do
        popped ← pop_process
        cur ← choose_aging popped
        on_queue decrement_job_length_score
        (ended, cur') ← execute_process 1 cur
        (if ended then pure tt else on_queue (add_to_head cur'))
        aging_loop fuel)
          k

  unfoldable pub scheduler_aging : ℕ → Cmd W (Unit {0})
  scheduler_aging fuel = do try_queue sort_ready_queue; aging_loop fuel

  unfoldable pub scheduler_rr : (quanta : ℕ) → ℕ → Cmd W (Unit {0})
  scheduler_rr quanta zero k = no_fuel
  scheduler_rr quanta (suc fuel) k =
      if is_ready_empty k.queue
      then ok tt k
      else (do
        cur ← pop_process
        (ended, cur') ← execute_process quanta cur
        (if ended then pure tt else on_queue (add_to_tail cur'))
        scheduler_rr quanta fuel)
          k

  -- `schedule_by_policy`
  unfoldable pub schedule_by_policy : (fuel : ℕ) → Str → Cmd W ℤ
  schedule_by_policy fuel policy k =
      if not (
        str_eq policy (codes "FCFS")
        || str_eq policy (codes "SJF")
        || str_eq policy (codes "RR")
        || str_eq policy (codes "AGING")
        || str_eq policy (codes "RR30"))
      then ok (pos 5) k
      else if k.in_background
      then ok (pos 0) k
      else if str_eq policy (codes "FCFS")
      then (scheduler_fcfs fuel >> pure (pos 0)) k
      else if str_eq policy (codes "SJF")
      then (scheduler_sjf fuel >> pure (pos 0)) k
      else if str_eq policy (codes "RR")
      then (scheduler_rr 2 fuel >> pure (pos 0)) k
      else if str_eq policy (codes "AGING")
      then (scheduler_aging fuel >> pure (pos 0)) k
      else (scheduler_rr 30 fuel >> pure (pos 0)) k

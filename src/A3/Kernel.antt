-- ===== src/A3/Kernel.antt =====
-- a3/cpu.c and a3/kernel.c: the running of a line of a process. `parse` is `parseInput`, which the line
-- goes to.
pub mod Schedule
use ecse_427_simple_shell_cr.Base.{
  ℕ, zero, suc, ◌+◌, Bool, true, false, Option, none, some, List, [], ◌∷◌, Str, ltb, ◌==◌,
  if◌then◌else◌, get_elem?, set, take, ℤ, pos, negsuc, eq_ℤ, Os,
}
use mathlib.Core.Option
use ecse_427_simple_shell_cr.A3.LinkedList.{
  Result, ok, fault, no_fuel, Heap, LinkedList, ◌>>=◌ as bind, list_init, list_clear, add_head,
  add_tail, pop_head, pop_tail, remove_elem,
}
use ecse_427_simple_shell_cr.A3.Memory.{mem_get_value_at}
use ecse_427_simple_shell_cr.A3.State.{
  Cmd, ◌>>=◌, ◌>>◌, pure, or_fault, gets, get_page, get_pcb, put_pcb,
}
use ecse_427_simple_shell_cr.A3.Pcb.{
  all_three, load_page, page_evict, free_pcb, page_equal, pcb_init,
}

-- `n - 1` of an `int`
unfoldable pub decrement : ℤ → ℤ
decrement (pos zero) = negsuc zero
decrement (pos (suc n)) = pos n
decrement (negsuc n) = negsuc (suc n)

module _ {W : Type 0} where
  -- an operation of linked_list.c on one of the three lists
  unfoldable pub on_queue : (LinkedList → Heap ℕ → Result (Heap ℕ × LinkedList)) → Cmd W (Unit {0})
  on_queue f k = bind (f k.queue k.heap) λ (h, l). ok (tt, record k { heap = h; queue = l })

  unfoldable pub on_lru : (LinkedList → Heap ℕ → Result (Heap ℕ × LinkedList)) → Cmd W (Unit {0})
  on_lru f k = bind (f k.lru_cache k.heap) λ (h, l). ok (tt, record k { heap = h; lru_cache = l })

  unfoldable pub on_all : (LinkedList → Heap ℕ → Result (Heap ℕ × LinkedList)) → Cmd W (Unit {0})
  on_all f k = bind (f k.all_pcb k.heap) λ (h, l). ok (tt, record k { heap = h; all_pcb = l })

  unfoldable pub take_queue : (LinkedList → Heap ℕ → Result (ℕ × (Heap ℕ × LinkedList))) → Cmd W ℕ
  take_queue f k = bind (f k.queue k.heap) λ (x, (h, l)). ok (x, record k { heap = h; queue = l })

  unfoldable pub take_lru : (LinkedList → Heap ℕ → Result (ℕ × (Heap ℕ × LinkedList))) → Cmd W ℕ
  take_lru f k =
      bind (f k.lru_cache k.heap) λ (x, (h, l)). ok (x, record k { heap = h; lru_cache = l })

  -- `kernel_setup`
  unfoldable pub kernel_setup : Cmd W (Unit {0})
  kernel_setup k =
      let (h1, queue) = list_init k.heap in
      let (h2, lru) = list_init h1 in
      let (h3, all) = list_init h2 in
      ok (tt, record k { heap = h3; queue = queue; lru_cache = lru; all_pcb = all })

  -- The loop over ALL_PCB for the process of a page, from a node on, on fuel. It stops at the dummy tail
  -- of QUEUE, which is no node of this list; the data of a dummy node has no value.
  unfoldable pub find_process : ℕ → (pid node : ℕ) → Cmd W ℕ
  find_process zero pid node k = no_fuel
  find_process (suc fuel) pid node k =
      if node == k.queue.dummy_tail
      then fault
      else (do
        pcb ← or_fault (k.heap.contents node)
        p ← get_pcb pcb
        (if p.pid == pid
            then pure pcb
            else (do behind ← or_fault (k.heap.next node); find_process fuel pid behind)))
          k

  -- The end of `run_proc` at a page fault: without a frame the page at the tail of the LRU cache is
  -- evicted, and the load is tried once more.
  unfoldable pub page_fault : (border pcb page_index page : ℕ) → Cmd W ℤ
  unfolding find_process
  page_fault border pcb page_index page = do
    loaded ← load_page border pcb page_index
    (if loaded == 1
        then (do
          victim ← take_lru pop_tail
          v ← get_page victim
          k ← gets (λ k. k)
          first ← or_fault (k.heap.next k.all_pcb.dummy_head)
          owner ← find_process (k.all_pcb.size + 1) v.page_pid first
          page_evict owner v.page_index
          load_page border pcb page_index)
        else pure 0)
    on_lru (add_head page)
    on_queue (add_tail pcb)
    pure (pos 1)

module _ {W : Type 0} (border : ℕ) (parse : Str → Cmd W ℤ) where
  -- `cpu_run` of the line `j` of a page
  unfoldable pub cpu_run : (pcb page_index page j : ℕ) → Cmd W ℤ
  unfolding decrement
  cpu_run pcb page_index page j = do
    p ← get_page page
    valid ← or_fault (get_elem? p.valid_bit j)
    at ← or_fault (get_elem? p.index j)
    if valid == 0 then pure (pos 1) else (do
      text ← (λ k. or_fault (mem_get_value_at at k.mem) k)
      code ← parse text
      q ← get_pcb pcb
      n ← or_fault (get_elem? q.program_counter page_index)
      put_pcb pcb (record q {
        program_counter = set q.program_counter page_index (n + 1);
        size = decrement q.size;
      })
      pure code)

  -- `run_proc` of the line `j` of the page `page_index`
  unfoldable pub run_proc : (pcb page_index j : ℕ) → Cmd W ℤ
  run_proc pcb page_index j = do
    p ← get_pcb pcb
    page ← or_fault (get_elem? p.page_table page_index)
    code ← cpu_run pcb page_index page j
    if eq_ℤ code (pos 1) then page_fault border pcb page_index page else (do
      k ← gets (λ k. k)
      found ← take_lru (remove_elem (page_equal k page))
      on_lru (add_head found)
      pure (pos 0))

module _ {W : Type 0} where
  -- The pages of a new process that go to the LRU cache, each to its head.
  unfoldable pub cache_pages : List ℕ → Cmd W (Unit {0})
  cache_pages [] = pure tt
  cache_pages (page ∷ pages) = do on_lru (add_head page); cache_pages pages

module _ {W : Type 0} (os : Os W) (border : ℕ) where
  -- `new_proc`
  unfoldable pub new_proc : Str → Cmd W ℤ
  new_proc script = do
    pid ← gets (λ k. k.pid_counter)
    (λ k. ok (tt, record k { pid_counter = k.pid_counter + 1 }))
    pcb ← pcb_init os border pid script
    on_all (add_tail pcb)
    on_queue (add_tail pcb)
    p ← get_pcb pcb
    cache_pages (take 2 p.page_table)
    pure (pos 0)

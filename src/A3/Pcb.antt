-- ===== src/A3/Pcb.antt =====
-- a3/pcb.c: processes and their pages.
pub mod Size
use ecse_427_simple_shell_cr.Base.{
  ℕ, zero, suc, ◌+◌, ◌-◌, ◌/◌, ◌%◌, Bool, true, false, not, ◌&&◌, Option, none, some, List, [], ◌∷◌,
  ◌++◌, Str, codes, decimal, ltb, ◌==◌, if◌then◌else◌, get_elem?, set, take, length, replicate,
  newline, fgets, ℤ, pos, Os,
}
use ecse_427_simple_shell_cr.A3.LinkedList.{Result, ok, exit_99, fault}
use ecse_427_simple_shell_cr.A3.Memory.{
  mem_free_at, clear_frame, frame_alloc, mem_set_value_at, mem_get_value_at,
}
use ecse_427_simple_shell_cr.A3.State.{
  Page, Pcb, Kernel, Cmd, ◌>>=◌, ◌>>◌, pure, or_fault, printf, gets, on_memory, get_page, put_page,
  get_pcb, put_pcb,
}

-- `count_lines` of an open file: the newlines behind another byte, and one. `last` is the byte before.
unfoldable pub newlines : (last : ℕ) → Str → ℕ
newlines last [] = 0
newlines last (c ∷ s) =
    if c == newline && not (last == newline) then suc (newlines c s) else newlines c s

unfoldable pub count_lines : Str → ℕ
unfolding newlines
count_lines s = newlines newline s + 1

-- `PAGE_table_size` of a number that is not negative
unfoldable pub page_table_size : ℕ → ℕ
page_table_size lines = if lines % 3 == 0 then lines / 3 else lines / 3 + 1

-- `PCB_done`: every program counter is 3
unfoldable pub all_three : List ℕ → Bool
all_three [] = true
all_three (n ∷ ns) = n == 3 && all_three ns

-- the numbers from `i` on, so many of them
unfoldable pub numbers : ℕ → ℕ → List ℕ
numbers zero i = []
numbers (suc n) i = i ∷ numbers n (i + 1)

module _ {W : Type 0} where
  -- `PAGE_init`: a new address
  unfoldable pub page_init : ℕ → ℕ → Cmd W ℕ
  page_init page_pid page_table_index k = ok (
    length k.pages,
    record k {
      pages =
          k.pages
          ++ record {
            index = replicate 3 1000;
            valid_bit = replicate 3 0;
            page_index = page_table_index;
            page_pid = page_pid;
          }
            ∷ [];
    },
  )

  -- the loop over a new page table
  unfoldable pub init_pages : ℕ → List ℕ → Cmd W (List ℕ)
  init_pages pid [] = pure []
  init_pages pid (i ∷ is) = do page ← page_init pid i; rest ← init_pages pid is; pure (page ∷ rest)

  -- `frame_alloc` for a page; whether it went well
  unfoldable pub alloc_page : (border pid page : ℕ) → Cmd W Bool
  alloc_page border pid page k = elim (frame_alloc border (decimal pid) k.mem) [
    | none ↦ ok (false, k)
    | some (i, m) ↦
        (do
          p ← get_page page
          put_page page (record p { index = numbers 3 i; valid_bit = replicate 3 0 })
          pure true)
          (record k { mem = m })
  ]

  -- The lines `j` to 2 of a page from the text; what is left of it is the result.
  unfoldable pub fill_page : ℕ → (j pid page : ℕ) → Str → Cmd W Str
  fill_page zero j pid page text = pure text
  fill_page (suc left) j pid page [] = pure []
  fill_page (suc left) j pid page (c ∷ text) = do
    let l = fgets 998 (c ∷ text)
    p ← get_page page
    i ← or_fault (get_elem? p.index j)
    on_memory (mem_set_value_at i (decimal pid) l.text)
    put_page page (record p { valid_bit = set p.valid_bit j 1 })
    fill_page left (j + 1) pid page l.rest

  -- The loop over the first pages of a new process: without a frame the shell exits.
  unfoldable pub load_first : (border pid : ℕ) → List ℕ → Str → Cmd W Str
  load_first border pid [] text = pure text
  load_first border pid (page ∷ pages) text = do
    given ← alloc_page border pid page
    (if given
        then (do rest ← fill_page 3 0 pid page text; load_first border pid pages rest)
        else (λ _. exit_99))

  -- `load_PAGE`: 1 if there is no frame, and 0
  unfoldable pub load_page : (border pcb page_index : ℕ) → Cmd W ℕ
  load_page border pcb page_index = do
    p ← get_pcb pcb
    page ← or_fault (get_elem? p.page_table page_index)
    given ← alloc_page border p.pid page
    (if given
        then (do
          rest ← fill_page 3 0 p.pid page p.source_file
          put_pcb pcb (record p { source_file = rest })
          pure 0)
        else pure 1)

  -- One line of the victim is printed and freed.
  unfoldable pub evict_line : (page i : ℕ) → Cmd W (Unit {0})
  evict_line page i = do
    p ← get_page page
    at ← or_fault (get_elem? p.index i)
    value ← (λ k. or_fault (mem_get_value_at at k.mem) k)
    printf value
    on_memory (mem_free_at at)
    put_page page (record p { index = set p.index i 0; valid_bit = set p.valid_bit i 0 })

  -- `PAGE_evict`
  unfoldable pub page_evict : (pcb page_index : ℕ) → Cmd W (Unit {0})
  unfolding evict_line
  page_evict pcb page_index = do
    printf (codes "Page fault! Victim page contents:\n")
    p ← get_pcb pcb
    page ← or_fault (get_elem? p.page_table page_index)
    evict_line page 0
    evict_line page 1
    evict_line page 2
    printf (codes "End of victim page contents.\n")

  -- the inner loop of `free_PCB`, over the indices of a page
  unfoldable pub clear_frames : List ℕ → Cmd W (Unit {0})
  clear_frames [] = pure tt
  clear_frames (i ∷ is) = do on_memory (clear_frame i); clear_frames is

  -- `free_PCB`, of the pages of a process
  unfoldable pub free_pages : List ℕ → Cmd W (Unit {0})
  free_pages [] = pure tt
  free_pages (page ∷ pages) = do p ← get_page page; clear_frames p.index; free_pages pages

  unfoldable pub free_pcb : ℕ → Cmd W (Unit {0})
  free_pcb pcb = do p ← get_pcb pcb; free_pages p.page_table

  -- `PCB_equal` and `PAGE_equal`, of two addresses
  unfoldable pub pcb_equal : Kernel W → ℕ → ℕ → Bool
  pcb_equal k a b = elim (get_elem? k.pcbs a) [
    | none ↦ false
    | some p ↦ elim (get_elem? k.pcbs b) [ none ↦ false | some q ↦ p.pid == q.pid ]
  ]

  unfoldable pub page_equal : Kernel W → ℕ → ℕ → Bool
  page_equal k a b = elim (get_elem? k.pages a) [
    | none ↦ false
    | some p ↦ elim (get_elem? k.pages b) [
      | none ↦ false
      | some q ↦ elim (get_elem? p.index 0) [
        | none ↦ false
        | some i ↦ elim (get_elem? q.index 0) [ none ↦ false | some j ↦ i == j ]
      ]
    ]
  ]

module _ {W : Type 0} (os : Os W) where
  -- `PCB_init`: a new address. A script that does not open ends the shell.
  unfoldable pub pcb_init : (border pid : ℕ) → Str → Cmd W ℕ
  unfolding count_lines
  pcb_init border pid script k = elim (os.read_file script k.world) [
    | none ↦ exit_99
    | some text ↦
        (do
          let lines = count_lines text
          let size = page_table_size lines
          table ← init_pages pid (numbers size 0)
          rest ← load_first border pid (take 2 table) text
          (λ k'. ok (
            length k'.pcbs,
            record k' {
              pcbs =
                  k'.pcbs
                  ++ record {
                    pid = pid;
                    size = pos lines;
                    program_counter = replicate size 0;
                    page_table = table;
                    page_table_size = size;
                    source_file = rest;
                  }
                    ∷ [];
            },
          )))
          k
  ]

-- ===== src/A2/Kernel/Load.antt =====
-- a2/kernel.c: a script's first two pages go to the frame store when its process is made, and one more
-- page at each page fault. `threshold` is the number of frame lines.
use ecse_427_simple_shell_cr.Base.{
  ℕ, zero, suc, ◌+◌, ◌-◌, ◌/◌, ◌%◌, Bool, false, ◌&&◌, Option, none, some, List, [], ◌∷◌, ◌++◌, Str,
  codes, ltb, ◌==◌, if◌then◌else◌, get_elem?, set, length, newline, Line, fgets, ℤ, pos, minus_one,
  Os,
}
use ecse_427_simple_shell_cr.A2.State.{Pcb, ok, fault, no_fuel, Cmd, ◌>>=◌, ◌>>◌, pure, or_fault}
use ecse_427_simple_shell_cr.A2.Memory.{allocate_frame}
use ecse_427_simple_shell_cr.A2.Pcb.{page_table_init, make_pcb, make_page, set_page_line}
use ecse_427_simple_shell_cr.A2.Queue.{add_to_tail}

-- `count_lines`: the newlines and one
unfoldable pub count_lines : Str → ℕ
count_lines [] = 1
count_lines (c ∷ s) = if c == newline then suc (count_lines s) else count_lines s

-- The variables of the two loading loops: the rest of the file, `feof`, the buffer `command` (`none`
-- while it has no value), and the line and page that are being filled.
pub record Loading : Type 0 where
  pub rest : Str
  pub at_end : Bool
  pub command : Option Str
  pub line_count : ℕ
  pub page_index : ℕ
  pub line_index : ℕ
  pub page : Option ℕ
  pub table : List (Option ℕ)
  pub location : ℕ

-- A failing `fgets` leaves the buffer as it is.
abbrev pub read_command : Loading → Line → Option Str
read_command l r = if r.at_end && length r.text == 0 then l.command else some r.text

pub start_loading : Str → ℕ → List (Option ℕ) → Loading
start_loading text line_count table = record {
  rest = text;
  at_end = false;
  command = none;
  line_count = line_count;
  page_index = 0;
  line_index = 0;
  page = none;
  table = table;
  location = 0;
}

-- what the end of the file, if it was reached, and the count of lines set in the process
unfoldable pub loaded : Loading → Pcb → Pcb
loaded l pcb =
    let p : Pcb = record pcb { page_table = l.table; line_loaded = l.line_count } in
    if l.at_end
    then record p { last_line_number = pos l.location; last_page_number = pos l.page_index }
    else p

-- `for(int i=0; i < lineCount; i++) fgets(...)`
unfoldable pub skip_lines : ℕ → Loading → Loading
skip_lines zero l = l
skip_lines (suc n) l =
    let r = fgets 99 l.rest in
    skip_lines n (record l { rest = r.rest; at_end = r.at_end; command = read_command l r })

module _ {W : Type 0} (threshold : ℕ) where
  -- The page for a line: a new one at a page's first line. A write behind the table is a fault.
  unfoldable pub page_for : ℕ → ℕ → ℕ → Loading → Cmd W Loading
  page_for page_pid page_index line_index l =
      if line_index == 0
      then (do
        page ← make_page page_index page_pid
        entry ← or_fault (get_elem? l.table page_index)
        pure (record l { page = some page; table = set l.table page_index (some page) }))
      else pure l

  -- The body of both loops, once `page_index` is known.
  unfoldable pub load_line : (page_pid pid page_index : ℕ) → Loading → Cmd W Loading
  unfolding page_for
  load_line page_pid pid page_index l = do
    let line_index = l.line_count % 3
    let r = fgets 99 l.rest
    l' ← page_for page_pid page_index line_index l
    page ← or_fault l'.page
    command ← or_fault (read_command l r)
    location ← allocate_frame threshold command pid
    set_page_line page line_index (pos location) 1
    pure (record l' {
      rest = r.rest;
      at_end = r.at_end;
      command = some command;
      line_count = l.line_count + 1;
      page_index = page_index;
      line_index = line_index;
      location = location;
    })

  -- `while(!feof(fp))` of `load_pages_to_memory`: at most seven rounds, the last for its `break`
  unfoldable pub load_loop : ℕ → (page_pid pid : ℕ) → Loading → Cmd W Loading
  load_loop zero page_pid pid l = λ _. no_fuel
  load_loop (suc rounds) page_pid pid l =
      if l.at_end
      then pure l
      else if l.line_count / 3 == 2
      then pure (record l { page_index = 2 })
      else (do l' ← load_line page_pid pid (l.line_count / 3) l; load_loop rounds page_pid pid l')

  -- `while (line_index_in_page < 2)`: a line is allocated for each place of the page that is left,
  -- and -1 is put down for it.
  unfoldable pub fill_lines : ℕ → ℕ → (pid : ℕ) → Loading → Cmd W (Unit {0})
  fill_lines zero line_index pid l = pure tt
  fill_lines (suc left) line_index pid l = do
    command ← or_fault l.command
    page ← or_fault l.page
    location ← allocate_frame threshold command pid
    set_page_line page (line_index + 1) minus_one 0
    fill_lines left (line_index + 1) pid l

  unfoldable pub load_pages_to_memory : Str → (page_pid : ℕ) → Pcb → Cmd W Pcb
  unfolding load_line load_loop fill_lines loaded start_loading
  load_pages_to_memory text page_pid pcb = do
    l ← load_loop 7 page_pid pcb.pid (start_loading text 0 pcb.page_table)
    fill_lines (2 - l.line_index) l.line_index pcb.pid l
    pure (loaded l pcb)

  -- `while(!feof(fp) && counter < 3)`
  unfoldable pub missing_loop : ℕ → (pid page_index : ℕ) → Loading → Cmd W Loading
  missing_loop zero pid page_index l = pure l
  missing_loop (suc left) pid page_index l =
      if l.at_end
      then pure l
      else (do l' ← load_line pid pid page_index l; missing_loop left pid page_index l')

  -- the places that are left get an empty line each
  unfoldable pub fill_empty : ℕ → ℕ → (pid : ℕ) → Loading → Cmd W (Unit {0})
  fill_empty zero line_index pid l = pure tt
  fill_empty (suc left) line_index pid l = do
    location ← allocate_frame threshold [] pid
    page ← or_fault l.page
    set_page_line page (line_index + 1) (pos location) 0
    fill_empty left (line_index + 1) pid l

module _ {W : Type 0} (os : Os W) (threshold : ℕ) where
  -- `load_missing_page_to_mem`; a file that does not open is a null pointer that is read through.
  unfoldable pub load_missing_page_to_mem : Pcb → Cmd W Pcb
  unfolding start_loading skip_lines missing_loop fill_empty loaded load_line
  load_missing_page_to_mem pcb k =
      (do
        text ← or_fault (os.read_file pcb.filename k.world)
        let page_index = pcb.line_loaded / 3
        let fresh : Loading = start_loading text pcb.line_loaded pcb.page_table
        let skipped : Loading = skip_lines pcb.line_loaded fresh
        l ← missing_loop threshold 3 pcb.pid page_index (record skipped { page_index = page_index })
        fill_empty threshold (2 - l.line_index) l.line_index pcb.pid l
        pure (loaded l pcb))
        k

  -- the commands that `copy_to_backing_store` starts and the name that `process_initialize` opens, in
  -- buffers of 100 bytes
  unfoldable pub backing_name : Str → Str
  backing_name filename = codes "./backing_store/" ++ filename

  unfoldable pub copy_to_backing_store : Str → Cmd W (Unit {0})
  copy_to_backing_store filename k =
      let command = codes "cp " ++ (filename ++ codes " ./backing_store") in
      let (status, w) = os.system command k.world in
      if ltb (length command) 100 then ok tt (record k { world = w }) else fault

  -- `process_initialize`, with the value that the unset score of the new process has
  unfoldable pub process_initialize : (unset_score : ℕ) → Str → (page_pid : ℕ) → Cmd W ℤ
  unfolding copy_to_backing_store
  process_initialize unset_score filename page_pid = do
    copy_to_backing_store filename
    opened ← (λ k. ok (os.read_file (backing_name filename) k.world) k)
    elim opened [
      | none ↦ pure (pos 1)
      | some text ↦ do
        let table = page_table_init (count_lines text / 3 + 1)
        pcb ← make_pcb unset_score table (backing_name filename)
        pcb' ← load_pages_to_memory threshold text page_pid pcb
        (λ k. ok (pos 0) (record k { queue = add_to_tail pcb' k.queue }))
    ]

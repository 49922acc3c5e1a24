-- ===== src/A3/Interpreter/Remove.antt =====
-- The command `rm` of a3/interpreter.c as a line of a process.
use ecse_427_simple_shell_cr.Base.{
  ℕ, suc, ◌+◌, ◌<◌, ◌≤◌, ◌≡◌, ◌≢◌, refl, ◌∙◌, true, false, ◌||◌, none, some, List, [], ◌∷◌, ◌++◌,
  Str, codes, str_eq, ◌==◌, length, length-append, append_assoc, get_elem?, set, arith, semicolon,
  space, newline, strip_newline, pos, ℤ, Os,
}
use ecse_427_simple_shell_cr.A3.LinkedList.{ok}
use ecse_427_simple_shell_cr.A3.Memory.{mem_get_value_at}
use ecse_427_simple_shell_cr.A3.State.{Page, Pcb, Kernel, Cmd, get_page, get_pcb, put_pcb}
use ecse_427_simple_shell_cr.A3.FileSystem.{FileSystem, fs_call}
use ecse_427_simple_shell_cr.A3.Kernel.{decrement, cpu_run, run_proc, page_fault}
use ecse_427_simple_shell_cr.A3.Input.{max_words, skip_spaces, split_words, words_of}
use ecse_427_simple_shell_cr.A3.Input.Strtok.{NoSemicolon, parse_input_one}
use ecse_427_simple_shell_cr.A3.Commands.Files.{rm_cmd}
use ecse_427_simple_shell_cr.A3.Interpreter.{
  Command, command_of, command_in, exactly, count_error, dispatch, interpreter, parse,
}
use ecse_427_simple_shell_cr.A3.Interpreter.Variables.{interpreter-dispatch}

-- no byte of the text ends a word, a command or a line
abbrev pub Plain : Str → Type 0
Plain [] = Unit {0}
Plain (c ∷ s) =
    ((c == semicolon) ≡ false)
    × ((c == space) ≡ false)
    × ((c == 13 || c == newline) ≡ false)
    × Plain s

-- the line `rm` of a file
abbrev pub rm_line : Str → Str
rm_line name = codes "rm " ++ (name ++ newline ∷ [])

Plain-NoSemicolon : (s : Str) → Plain s → NoSemicolon (s ++ newline ∷ [])
Plain-NoSemicolon [] h = (refl, tt)
Plain-NoSemicolon (c ∷ s) h = (h.0, Plain-NoSemicolon s h.3)

strip_newline-Plain : (s : Str) → Plain s → strip_newline (s ++ newline ∷ []) ≡ s
unfolding strip_newline
strip_newline-Plain [] h = refl
strip_newline-Plain (c ∷ s) h = rw (h.2, strip_newline, strip_newline-Plain s h.3)

split_words-rest :
    (tmp s : Str)
    → Plain s
    → split_words (some tmp) (s ++ newline ∷ []) ≡ (tmp ++ (s ++ newline ∷ [])) ∷ []
unfolding split_words
split_words-rest tmp [] h = refl
split_words-rest tmp (c ∷ s) h =
    rw (h.1, split_words, split_words-rest (tmp ++ c ∷ []) s h.3, append_assoc)

words_of-rm_line :
    (name : Str)
    → name ≢ []
    → Plain name
    → words_of (rm_line name) ≡ codes "rm" ∷ (name ++ newline ∷ []) ∷ []
unfolding words_of split_words skip_spaces
words_of-rm_line [] n h = absurd (n refl)
words_of-rm_line (c ∷ s) n h = rw (h.1, split_words, split_words-rest (c ∷ []) s h.3)

rm-command : command_of (strip_newline (codes "rm")) ≡ Command.rm
unfolding command_of command_in strip_newline str_eq
rm-command = refl

rm-count_error : count_error Command.rm 2 ≡ none
unfolding count_error exactly
rm-count_error = refl

module _ {W : Type 0} where
  -- the state behind the removal of a file
  abbrev pub removed : Kernel W → List Str → W → Kernel W
  removed k printed w = record k { out = k.out ++ printed; world = w; strtok_rest = [] }

  -- The line `j` of a page of a process is loaded, and its text is in the memory.
  pub record AtLine (k : Kernel W) (pcb page_index j : ℕ) (text : Str) : Type 0 where
    pub process : Pcb
    pub page : ℕ
    pub entry : Page
    pub at : ℕ
    pub counter : ℕ
    pub is_process : get_elem? k.pcbs pcb ≡ some process
    pub is_page : get_elem? process.page_table page_index ≡ some page
    pub is_entry : get_elem? k.pages page ≡ some entry
    pub is_valid : get_elem? entry.valid_bit j ≡ some 1
    pub is_at : get_elem? entry.index j ≡ some at
    pub is_text : mem_get_value_at at k.mem ≡ some text
    pub is_counter : get_elem? process.program_counter page_index ≡ some counter

  -- the line counted as run
  abbrev pub counted : (k : Kernel W) (pcb page_index : ℕ) → Pcb → (counter : ℕ) → Kernel W
  counted k pcb page_index p counter = record k {
    pcbs = set k.pcbs pcb (record p {
      program_counter = set p.program_counter page_index (counter + 1);
      size = decrement p.size;
    });
  }

module _ {W : Type 0} (os : Os W) (fs : FileSystem W) (border : ℕ) (cwd : Str) where
  interpreter-rm :
      (fuel : ℕ) (name : Str) (k : Kernel W) (printed : List Str) (w : W)
      → Plain name
      → fs.rm name k.world ≡ ok (true, (printed, w))
      → interpreter os fs border cwd (suc fuel) (codes "rm" ∷ (name ++ newline ∷ []) ∷ []) k
        ≡ ok (pos 1, record k { out = k.out ++ printed; world = w })
  unfolding dispatch rm_cmd fs_call
  interpreter-rm fuel name k printed w h e =
      interpreter-dispatch os fs border cwd fuel Command.rm (codes "rm")
        ((name ++ newline ∷ []) ∷ []) k rm-command rm-count_error
      ∙ rw (strip_newline-Plain name h, e)

  parse-rm_line :
      (fuel : ℕ) (name : Str) (k : Kernel W) (printed : List Str) (w : W)
      → name ≢ []
      → Plain name
      → length name < 996
      → fs.rm name k.world ≡ ok (true, (printed, w))
      → parse os fs border cwd (suc (suc fuel)) (rm_line name) k ≡ ok (pos 1, removed k printed w)
  unfolding parse
  parse-rm_line fuel name k printed w n h short e =
      let words = words_of-rm_line name n h in
      let len = length-append name (newline ∷ []) in
      let few : length (words_of (rm_line name)) ≤ max_words = rw words (omega arith) in
      parse_input_one (interpreter os fs border cwd (suc (suc fuel))) fuel (rm_line name) k
        (removed k printed w) (pos 1) (λ e. cc) (refl, (refl, (refl, Plain-NoSemicolon name h)))
        (omega arith) few (rw words (interpreter-rm (suc fuel) name _ printed w h e)) refl refl

module _ {W : Type 0} (border : ℕ) (parse : Str → Cmd W ℤ) where
  -- A line whose command returns 1, and leaves the processes as they are, counts as a page fault.
  run_proc-one :
      (k : Kernel W) (printed : List Str) (w : W) (pcb page_index j : ℕ) (text : Str)
      (l : AtLine k pcb page_index j text)
      → parse text k ≡ ok (pos 1, removed k printed w)
      → run_proc border parse pcb page_index j k
        ≡ page_fault border pcb page_index l.page
            (counted (removed k printed w) pcb page_index l.process l.counter)
  unfolding run_proc cpu_run get_page get_pcb put_pcb
  run_proc-one k printed w pcb page_index j text l e = rw (
    l.is_process, l.is_page, l.is_entry, l.is_valid, l.is_at, l.is_text, e, l.is_process,
    l.is_counter,
  )

module _ {W : Type 0} (os : Os W) (fs : FileSystem W) (border : ℕ) (cwd : Str) where
  -- A loaded line of a process that removes a file, and does so, is taken for a page fault: the file is
  -- gone and the line is counted, and then `run_proc` loads a page and puts the process to the end of the
  -- queue.
  pub run_proc-rm_line :
      (fuel : ℕ) (name : Str) (k : Kernel W) (printed : List Str) (w : W) (pcb page_index j : ℕ)
      (l : AtLine k pcb page_index j (rm_line name))
      → name ≢ []
      → Plain name
      → length name < 996
      → fs.rm name k.world ≡ ok (true, (printed, w))
      → run_proc border (parse os fs border cwd (suc (suc fuel))) pcb page_index j k
        ≡ page_fault border pcb page_index l.page
            (counted (removed k printed w) pcb page_index l.process l.counter)
  run_proc-rm_line fuel name k printed w pcb page_index j l n h short e =
      run_proc-one border (parse os fs border cwd (suc (suc fuel))) k printed w pcb page_index j
        (rm_line name) l (parse-rm_line os fs border cwd fuel name k printed w n h short e)

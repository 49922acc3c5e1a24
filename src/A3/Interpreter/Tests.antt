-- ===== src/A3/Interpreter/Tests.antt =====
-- Runs of the commands of the third shell.
use ecse_427_simple_shell_cr.Base.{
  ℕ, ℤ, ◌≤◌, length, ◌≡◌, refl, inr, true, false, none, List, [], ◌∷◌, Str, codes, str_eq, ◌==◌,
  arith, semicolon, join_words, pos, Os, isalnum, isdigit,
}
use ecse_427_simple_shell_cr.Store.{slot, init, find_from}
use ecse_427_simple_shell_cr.A3.LinkedList.{LinkedList, ok}
use ecse_427_simple_shell_cr.A3.Memory.{mem_set_value, mem_get_value_at}
use ecse_427_simple_shell_cr.A3.State.{Page, Pcb, Kernel, Cmd, ◌>>◌, pure, printf, line}
use ecse_427_simple_shell_cr.A3.FileSystem.{FileSystem}
use ecse_427_simple_shell_cr.A3.Kernel.{run_proc, page_fault}
use ecse_427_simple_shell_cr.A3.Input.{
  parse_input, parse_loop, strtok, strtok_start, strtok_next, cut, skip_semicolons, run_piece,
  words_of, split_words, skip_spaces, max_words,
}
use ecse_427_simple_shell_cr.A3.Input.Strtok.{parse_input_nested}
use ecse_427_simple_shell_cr.A3.Input.Pieces.{
  join_pieces, SameButRest, run_all, IsPiece, parse_input-run_all,
}
use ecse_427_simple_shell_cr.A3.Interpreter.{interpreter, parse}
use ecse_427_simple_shell_cr.A3.Interpreter.Variables.{AllAlnum, echo_of_set}
use ecse_427_simple_shell_cr.A3.Commands.{all_alnum, is_alpha_num_str}
use ecse_427_simple_shell_cr.Store.Update.{HasRoom}
use ecse_427_simple_shell_cr.A3.Interpreter.Remove.{
  rm_line, AtLine, removed, counted, run_proc-rm_line,
}

-- a machine that does nothing, with a file system on which every call goes well
abbrev os : Os (Unit {0})
os = record {
  system = λ s w. (pos 0, w);
  mkdir = λ s w. (pos 0, w);
  chdir = λ s w. (pos 0, w);
  is_dir = λ s w. false;
  read_file = λ s w. none;
  write_file = λ s t w. none;
}

abbrev files : FileSystem (Unit {0})
files = record {
  ls = λ w. ok (pos 0, ([], w));
  cat = λ s w. ok (pos 0, ([], w));
  copy_in = λ s w. ok (pos 0, ([], w));
  copy_out = λ s w. ok (pos 0, ([], w));
  rm = λ s w. ok (true, ([], w));
  create = λ s n w. ok (true, ([], w));
  write = λ s t w. ok (none, ([], w));
  read = λ s n w. ok (none, ([], w));
  size = λ s w. ok (none, ([], w));
  seek = λ s n w. ok (true, ([], w));
  freespace = λ w. ok (0, ([], w));
  find_file = λ s w. ok (tt, ([], w));
  fragmentation_degree = λ w. ok (tt, ([], w));
  defragment = λ w. ok (tt, ([], w));
  recover = λ n w. ok (tt, ([], w));
  done = λ w. ok (tt, ([], w));
}

abbrev no_list : LinkedList
no_list = record { size = 0; dummy_head = 0; dummy_tail = 1 }

abbrev process : Pcb
process = record {
  pid = 1;
  size = pos 1;
  program_counter = 0 ∷ [];
  page_table = 0 ∷ [];
  page_table_size = 1;
  source_file = [];
}

abbrev page : Page
page = record { index = 0 ∷ 1 ∷ 2 ∷ []; valid_bit = 1 ∷ 0 ∷ 0 ∷ []; page_index = 0; page_pid = 1 }

-- a process whose line removes the file f, and free variables from 3 on
abbrev kernel : Kernel (Unit {0})
kernel = record {
  mem = slot (codes "1") (rm_line (codes "f")) ∷ init 5;
  heap = record { fresh = 2; contents = λ a. none; next = λ a. none; prev = λ a. none };
  queue = no_list;
  lru_cache = no_list;
  all_pcb = no_list;
  pages = page ∷ [];
  pcbs = process ∷ [];
  pid_counter = 2;
  new_name_count = 1;
  strtok_rest = [];
  out = [];
  world = tt;
}

kernel-AtLine : AtLine kernel 0 0 0 (rm_line (codes "f"))
unfolding mem_get_value_at
kernel-AtLine = record {
  process = process;
  page = 0;
  entry = page;
  at = 0;
  counter = 0;
  is_process = refl;
  is_page = refl;
  is_entry = refl;
  is_valid = refl;
  is_at = refl;
  is_text = refl;
  is_counter = refl;
}

run_proc-rm_line_example :
    run_proc 3 (parse os files 3 (codes "/") 2) 0 0 0 kernel
    ≡ page_fault 3 0 0 0 (counted (removed kernel [] tt) 0 0 process 0)
unfolding kernel-AtLine
run_proc-rm_line_example =
    run_proc-rm_line os files 3 (codes "/") 0 (codes "f") kernel [] tt 0 0 0 kernel-AtLine (λ e. cc)
      (refl, refl, refl, tt) (omega arith) refl

abbrev two_words : List Str
two_words = codes "b" ∷ codes "c" ∷ []

three-AllAlnum : AllAlnum (codes "x" ∷ two_words)
unfolding is_alpha_num_str all_alnum isalnum isdigit
three-AllAlnum = (refl, (refl, (refl, tt)))

kernel-HasRoom : HasRoom 3 (codes "x") kernel.mem
unfolding init find_from str_eq
kernel-HasRoom = inr (λ e. cc)

echo_of_set_example :
    (interpreter os files 3 (codes "/") 1 (codes "set" ∷ codes "x" ∷ two_words) kernel
      ≡ ok (pos 0, record kernel { mem = mem_set_value 3 (codes "x") (codes "b c") kernel.mem }))
    × (interpreter os files 3
          (codes "/")
          1
          (codes "echo" ∷ codes "$x" ∷ [])
          (record kernel { mem = mem_set_value 3 (codes "x") (codes "b c") kernel.mem })
        ≡ ok (
          pos 0,
          record kernel {
            mem = mem_set_value 3 (codes "x") (codes "b c") kernel.mem;
            out = line (codes "b c") ∷ [];
          },
        ))
unfolding join_words
echo_of_set_example =
    echo_of_set os files 3 (codes "/") 0 0 (codes "x") (codes "b") (codes "c" ∷ []) kernel
      three-AllAlnum (omega arith) (omega arith) kernel-HasRoom

-- a command that prints its words, and one that has a line parsed
abbrev say : List Str → Cmd (Unit {0}) ℤ
say ws = do printf (join_words ws); pure (pos 0)

abbrev script : List Str → Cmd (Unit {0}) ℤ
script ws = parse_input say 2 (codes "a")

abbrev said : Kernel (Unit {0})
said = record kernel { out = codes "a" ∷ [] }

one_word :
    (length (words_of (codes "a")) ≤ max_words)
    × (length (words_of (codes "b")) ≤ max_words)
    × (length (words_of (codes "s")) ≤ max_words)
unfolding words_of split_words skip_spaces
one_word = (omega arith, omega arith, omega arith)

say-parsed : parse_input say 2 (codes "a") kernel ≡ ok (pos 0, said)
unfolding parse_input parse_loop strtok strtok_start strtok_next cut skip_semicolons run_piece
    words_of split_words skip_spaces join_words
say-parsed = refl

parse_input_nested_example : parse_input script 2 (codes "s;t") kernel ≡ ok (pos 0, said)
unfolding parse_input strtok_start
parse_input_nested_example =
    parse_input_nested script say 0 2 (codes "s") (codes "t") (codes "a") kernel said kernel said
      (pos 0) (pos 0) (λ e. cc) (refl, tt) (omega arith) one_word.2 say-parsed refl say-parsed refl
      refl

say-IsPiece :
    (c : ℕ)
    → (c == semicolon) ≡ false
    → length (words_of (c ∷ [])) ≤ max_words
    → IsPiece say (c ∷ [])
say-IsPiece c h h' = record {
  nonempty = λ e. cc;
  no_semicolon = (h, tt);
  short = omega arith;
  few = h';
  oblivious = λ k rest. refl;
}

parse_input-run_all_example :
    SameButRest
      (parse_input say 3 (join_pieces (codes "a" ∷ codes "b" ∷ [])) kernel)
      (run_all say (pos 0) (codes "a" ∷ codes "b" ∷ []) kernel)
parse_input-run_all_example =
    parse_input-run_all say (codes "a" ∷ codes "b" ∷ []) kernel
      (say-IsPiece b'a' refl one_word.0, (say-IsPiece b'b' refl one_word.1, tt))

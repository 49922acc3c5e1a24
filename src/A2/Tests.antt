-- ===== src/A2/Tests.antt =====
-- Runs of the second shell.
use ecse_427_simple_shell_cr.Base.{
  ℕ, ◌≡◌, refl, true, false, none, some, List, [], ◌∷◌, ◌++◌, Str, codes, str_eq, decimal, ℤ, pos,
  minus_one, get_elem?, set, replicate, space, semicolon, arith,
}
use ecse_427_simple_shell_cr.Store.{Slot, slot, none_str, free_slot, has_var}
use ecse_427_simple_shell_cr.A2.State.{Page, Pcb, Kernel, Cmd, ok, no_fuel, line, raw}
use ecse_427_simple_shell_cr.A2.Memory.{find_below, allocate_frame}
use ecse_427_simple_shell_cr.A2.Memory.Frames.{HasFreeLine, Lines, allocate_frame_evict}
use ecse_427_simple_shell_cr.A2.Queue.{sort_ready_queue}
use ecse_427_simple_shell_cr.A2.Queue.Sort.{bubble_pass, sort_ready_queue-bubble_pass}
use ecse_427_simple_shell_cr.A2.Queue.Order.{EndsWithLast, sort_ready_queue-Perm}
use ecse_427_simple_shell_cr.A2.Input.{ends_word, parse_input}
use ecse_427_simple_shell_cr.A2.Input.Hang.{plain, parse_input_hangs}
use ecse_427_simple_shell_cr.Base.{Os, inr}
use ecse_427_simple_shell_cr.A2.Memory.Variables.{Given, Evictable, allocate_frame-get_value}
use mathlib.Core.List.{Perm}

abbrev process : ℕ → Pcb
process score = record {
  priority = false;
  filename = codes "f";
  pid = score;
  pc_page = 0;
  pc_line = 0;
  job_length_score = score;
  last_line_number = minus_one;
  last_page_number = minus_one;
  line_loaded = 0;
  page_table = [];
}

abbrev page_0 : Page
page_0 = record {
  index = pos 0 ∷ (pos 1 ∷ (pos 2 ∷ []));
  valid_bits = replicate 3 1;
  page_index = 0;
  page_pid = 7;
}

abbrev kernel : List Slot → Kernel (Unit {0})
kernel mem = record {
  mem = mem;
  pages = page_0 ∷ [];
  lru = 0 ∷ [];
  queue = [];
  pid_counter = 8;
  in_background = false;
  out = [];
  world = tt;
}

abbrev used : Str → Slot
used text = slot (codes "7") text

abbrev full_frames : List Slot
full_frames = used (codes "a") ∷ (used (codes "b") ∷ (used (codes "c") ∷ (free_slot ∷ [])))

abbrev free_frames : List Slot
free_frames = used (codes "a") ∷ (free_slot ∷ (used (codes "c") ∷ (free_slot ∷ [])))

free_frames-HasFreeLine : HasFreeLine 3 (codes "echo hi") 7 (kernel free_frames)
unfolding find_below str_eq
free_frames-HasFreeLine = λ e. cc

full_frames-Lines :
    Lines 3
      (codes "echo hi")
      8
      (kernel full_frames)
      0
      1
      2
      (used (codes "a"))
      (used (codes "b"))
      (used (codes "c"))
unfolding str_eq
full_frames-Lines = record {
  at_a = refl;
  at_b = refl;
  at_c = refl;
  used_a = refl;
  used_b = refl;
  used_c = refl;
  a_b = λ e. cc;
  a_c = λ e. cc;
  b_c = λ e. cc;
}

full_frames-full : find_below (has_var none_str) 3 full_frames ≡ none
unfolding find_below str_eq
full_frames-full = refl

page_0-get_elem? : get_elem? (page_0 ∷ []) 0 ≡ some page_0
page_0-get_elem? = refl

allocate_frame_evict_example :
    allocate_frame 3 (codes "echo hi") 8 (kernel full_frames)
    ≡ ok 0 (record (kernel full_frames) {
      mem =
          set
            (set (set (set full_frames 0 free_slot) 1 free_slot) 2 free_slot)
            0
            (slot (decimal 8) (codes "echo hi"));
      lru = [];
      out =
          line (codes "Page fault! Victim page contents:")
          ∷ (raw (codes "a")
              ∷ (raw (codes "b")
                  ∷ (raw (codes "c") ∷ (line (codes "End of victim page contents.") ∷ []))));
    })
allocate_frame_evict_example =
    allocate_frame_evict 3 (codes "echo hi") 8 (kernel full_frames) 0 [] page_0 0 1 2
      (used (codes "a")) (used (codes "b")) (used (codes "c")) full_frames-full refl
      page_0-get_elem? refl full_frames-Lines

sort_ready_queue-bubble_pass_example :
    sort_ready_queue (process 3 ∷ (process 1 ∷ (process 2 ∷ [])))
    ≡ some (bubble_pass (process 3 ∷ (process 1 ∷ (process 2 ∷ []))))
sort_ready_queue-bubble_pass_example =
    sort_ready_queue-bubble_pass (process 3 ∷ (process 1 ∷ (process 2 ∷ [])))

sort_ready_queue-Perm_example :
    (qs : List Pcb) × (sort_ready_queue (process 3 ∷ (process 1 ∷ [])) ≡ some qs)
    × Perm qs (process 3 ∷ (process 1 ∷ []))
    × EndsWithLast qs
sort_ready_queue-Perm_example = sort_ready_queue-Perm (process 3) (process 1 ∷ [])

abbrev no_interpreter : List Str → ℕ → Cmd (Unit {0}) ℤ
no_interpreter words n k = ok (pos 0) k

help-plain : plain (codes "help") ≡ true
unfolding plain ends_word
help-plain = refl

parse_input_hangs_example :
    parse_input no_interpreter 50 (codes "help" ++ space ∷ (semicolon ∷ codes "quit")) (kernel [])
    ≡ no_fuel
parse_input_hangs_example =
    parse_input_hangs no_interpreter 50 b'h' (codes "elp") (codes "quit") (kernel []) help-plain
      (ground arith)

full_frames-Evictable : Evictable 3 (codes "echo hi") 8 (kernel full_frames)
full_frames-Evictable = record {
  page = 0;
  rest = [];
  victim = page_0;
  first = 0;
  second = 1;
  third = 2;
  in_first = used (codes "a");
  in_second = used (codes "b");
  in_third = used (codes "c");
  full = full_frames-full;
  head = refl;
  at_page = page_0-get_elem?;
  index = refl;
  lines = full_frames-Lines;
  first_frame = omega arith;
  second_frame = omega arith;
  third_frame = omega arith;
}

allocate_frame-get_value_example :
    (i : ℕ) × (k' : Kernel (Unit {0})) × Given 3 (codes "echo hi") 8 (kernel full_frames) i k'
allocate_frame-get_value_example =
    allocate_frame-get_value 3 (codes "echo hi") 8 (kernel full_frames) (inr full_frames-Evictable)

abbrev two_pages : Pcb
two_pages = record (process 1) { last_page_number = pos 1 }

abbrev test_os : Os (Unit {0})
test_os = record {
  system = λ c w. (pos 0, w);
  mkdir = λ d w. (pos 0, w);
  chdir = λ d w. (pos 0, w);
  is_dir = λ d w. true;
  read_file = λ f w. none;
  write_file = λ f t w. some w;
}

-- ===== src/A2/Pcb.antt =====
-- a2/pcb.c: process and page records.
pub mod Counter
use ecse_427_simple_shell_cr.Base.{
  ℕ, ◌+◌, Bool, false, ◌||◌, Option, none, some, List, [], ◌∷◌, ◌++◌, Str, ltb, if◌then◌else◌,
  get_elem?, set, length, replicate, ℤ, pos, negsuc, minus_one, eq_ℤ,
}
use ecse_427_simple_shell_cr.A2.State.{Page, Pcb, ok, fault, Cmd}

-- `n < m`, of a number that is not negative and one that may be
unfoldable pub below_page : ℕ → ℤ → Bool
below_page n (pos m) = ltb n m
below_page n (negsuc m) = false

-- `updatePC`
unfoldable pub update_pc : Pcb → Pcb
unfolding below_page
update_pc p =
    if ltb p.pc_line 2
    then record p { pc_line = p.pc_line + 1 }
    else if eq_ℤ p.last_page_number minus_one || below_page p.pc_page p.last_page_number
    then record p { pc_page = p.pc_page + 1; pc_line = 0 }
    else p

-- `page_table_init`
unfoldable pub page_table_init : ℕ → List (Option ℕ)
page_table_init n = replicate n none

module _ {W : Type 0} where
  pub generate_pid : Cmd W ℕ
  generate_pid k = ok k.pid_counter (record k { pid_counter = k.pid_counter + 1 })

  -- `makePCB`. The fields that it leaves unset have a value that the caller gives: nothing reads them
  -- before they are set, but for `job_length_score`.
  unfoldable pub make_pcb : (unset_score : ℕ) → List (Option ℕ) → Str → Cmd W Pcb
  unfolding generate_pid
  make_pcb unset_score table filename k =
      ok
        (record {
          priority = false;
          filename = filename;
          pid = k.pid_counter;
          pc_page = 0;
          pc_line = 0;
          job_length_score = unset_score;
          last_line_number = minus_one;
          last_page_number = minus_one;
          line_loaded = 0;
          page_table = table;
        })
        (record k { pid_counter = k.pid_counter + 1 })

  -- `makePAGE`: a new address. The lines of a new page have no value; 0 stands for each.
  unfoldable pub make_page : ℕ → ℕ → Cmd W ℕ
  make_page page_index pid k = ok (length k.pages) (record k { pages = k.pages ++ new ∷ [] })
    where
      new : Page
      new = record {
        index = replicate 3 (pos 0);
        valid_bits = replicate 3 0;
        page_index = page_index;
        page_pid = pid;
      }

  -- `set_page_index` and `set_page_valid_bits` at one line
  unfoldable pub set_page_line : ℕ → ℕ → ℤ → ℕ → Cmd W (Unit {0})
  set_page_line page i index valid k = elim (get_elem? k.pages page) [
    | none ↦ fault
    | some p ↦ ok tt (record k {
      pages =
          set k.pages page
            (record p { index = set p.index i index; valid_bits = set p.valid_bits i valid });
    })
  ]

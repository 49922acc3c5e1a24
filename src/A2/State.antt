-- ===== src/A2/State.antt =====
-- The state of the second shell (the globals of a2/shellmemory.c, a2/ready_queue.c, a2/pcb.c and
-- a2/kernel.c) and what a call comes to.
use ecse_427_simple_shell_cr.Base.{ℕ, ℤ, Bool, Option, none, some, List, [], ◌∷◌, ◌++◌, Str}
use ecse_427_simple_shell_cr.Store.{Slot}

-- `PAGE`
pub record Page : Type 0 where
  pub index : List ℤ
  pub valid_bits : List ℕ
  pub page_index : ℕ
  pub page_pid : ℕ

-- `PCB`; a page of the table is an address in `pages`. The two program counters are `PC[0]` and
-- `PC[1]`.
pub record Pcb : Type 0 where
  pub priority : Bool
  pub filename : Str
  pub pid : ℕ
  pub pc_page : ℕ
  pub pc_line : ℕ
  pub job_length_score : ℕ
  pub last_line_number : ℤ
  pub last_page_number : ℤ
  pub line_loaded : ℕ
  pub page_table : List (Option ℕ)

-- One call of `printf`: `"%s\n"`, `"%s"`, or the text of `help`.
pub data Print : Type 0 where
  line : Str → Print
  raw : Str → Print
  help_screen : Print

-- `pages` holds every `PAGE` that was made, by address; `lru` and `queue` are the linked lists behind
-- `LRU_head` and `head`.
pub record Kernel (W : Type 0) : Type 0 where
  pub mem : List Slot
  pub pages : List Page
  pub lru : List ℕ
  pub queue : List Pcb
  pub pid_counter : ℕ
  pub in_background : Bool
  pub out : List Print
  pub world : W

-- `fault` is undefined behaviour of the C code, `exited` a call of `exit(0)`.
pub data Result (W : Type 0) (A : Type 0) : Type 0 where
  ok : A → Kernel W → Result W A
  exited : Kernel W → Result W A
  fault : Result W A
  no_fuel : Result W A

abbrev pub Cmd : Type 0 → Type 0 → Type 0
Cmd W A = Kernel W → Result W A

module _ {W A B : Type 0} where
  abbrev pub and_then : Result W A → (A → Cmd W B) → Result W B
  and_then (ok a k) f = f a k
  and_then (exited k) f = exited k
  and_then fault f = fault
  and_then no_fuel f = no_fuel

  infixl 5 ◌>>=◌ ◌>>◌
  abbrev pub ◌>>=◌ : Cmd W A → (A → Cmd W B) → Cmd W B
  m >>= f = λ k. and_then (m k) f

  abbrev pub ◌>>◌ : Cmd W A → Cmd W B → Cmd W B
  m >> n = m >>= λ _. n

module _ {W : Type 0} where
  abbrev pub pure : {A : Type 0} → A → Cmd W A
  pure a k = ok a k

  abbrev pub or_fault : {A : Type 0} → Option A → Cmd W A
  or_fault none k = fault
  or_fault (some a) k = ok a k

  abbrev pub printf : Print → Cmd W (Unit {0})
  printf p k = ok tt (record k { out = k.out ++ p ∷ [] })

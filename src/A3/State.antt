-- ===== src/A3/State.antt =====
-- The state of the third shell's kernel (the globals of a3/kernel.c and a3/shellmemory.c, and what
-- a3/pcb.c allocates).
use ecse_427_simple_shell_cr.Base.{
  ℕ, ℤ, Option, none, some, List, [], ◌∷◌, ◌++◌, Str, get_elem?, set, newline,
}
use ecse_427_simple_shell_cr.Store.{Slot}
use ecse_427_simple_shell_cr.A3.LinkedList.{Result, ok, fault, ◌>>=◌ as bind, Heap, LinkedList}

-- `struct PAGE`
pub record Page : Type 0 where
  pub index : List ℕ
  pub valid_bit : List ℕ
  pub page_index : ℕ
  pub page_pid : ℕ

-- `struct PCB`: `page_table` holds addresses in `pages`, and `source_file` is the text that is not read yet.
pub record Pcb : Type 0 where
  pub pid : ℕ
  pub size : ℤ
  pub program_counter : List ℕ
  pub page_table : List ℕ
  pub page_table_size : ℕ
  pub source_file : Str

-- `pages` and `pcbs` hold every `PAGE` and `PCB` that was made, by address; the nodes of the three lists
-- are on one heap, with such an address as their data. `new_name_count` is that of interpreter.c,
-- `strtok_rest` the text that `strtok` goes on from.
pub record Kernel (W : Type 0) : Type 0 where
  pub mem : List Slot
  pub heap : Heap ℕ
  pub queue : LinkedList
  pub lru_cache : LinkedList
  pub all_pcb : LinkedList
  pub pages : List Page
  pub pcbs : List Pcb
  pub pid_counter : ℕ
  pub new_name_count : ℕ
  pub strtok_rest : Str
  pub out : List Str
  pub world : W

-- a text that is printed with a newline
abbrev pub line : Str → Str
line s = s ++ newline ∷ []

abbrev pub Cmd : Type 0 → Type 0 → Type 0
Cmd W A = Kernel W → Result (A × Kernel W)

module _ {W A B : Type 0} where
  infixl 5 ◌>>=◌ ◌>>◌
  abbrev pub ◌>>=◌ : Cmd W A → (A → Cmd W B) → Cmd W B
  m >>= f = λ k. bind (m k) (λ (a, k'). f a k')

  abbrev pub ◌>>◌ : Cmd W A → Cmd W B → Cmd W B
  m >> n = m >>= λ _. n

module _ {W : Type 0} where
  abbrev pub pure : {A : Type 0} → A → Cmd W A
  pure a k = ok (a, k)

  abbrev pub or_fault : {A : Type 0} → Option A → Cmd W A
  or_fault none k = fault
  or_fault (some a) k = ok (a, k)

  abbrev pub printf : Str → Cmd W (Unit {0})
  printf s k = ok (tt, record k { out = k.out ++ s ∷ [] })

  abbrev pub gets : {A : Type 0} → (Kernel W → A) → Cmd W A
  gets f k = ok (f k, k)

  abbrev pub on_memory : (List Slot → Option (List Slot)) → Cmd W (Unit {0})
  on_memory f k = elim (f k.mem) [ none ↦ fault | some m ↦ ok (tt, record k { mem = m }) ]

  unfoldable pub get_page : ℕ → Cmd W Page
  get_page page k = or_fault (get_elem? k.pages page) k

  unfoldable pub put_page : ℕ → Page → Cmd W (Unit {0})
  put_page page p k = ok (tt, record k { pages = set k.pages page p })

  unfoldable pub get_pcb : ℕ → Cmd W Pcb
  get_pcb pcb k = or_fault (get_elem? k.pcbs pcb) k

  unfoldable pub put_pcb : ℕ → Pcb → Cmd W (Unit {0})
  put_pcb pcb p k = ok (tt, record k { pcbs = set k.pcbs pcb p })

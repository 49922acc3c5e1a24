-- ===== src/A3/FsState.antt =====
-- The state of a3/fs over the inodes: the directories and files in the heap, `cwd` of directory.c, and
-- `file_table` of file.c. An address that is not in use is freed or was never given out.
pub mod Steps
use ecse_427_simple_shell_cr.Base.{
  ℕ, zero, suc, ◌+◌, Bool, Option, none, some, List, [], ◌∷◌, ◌++◌, Str, ◌==◌, if◌then◌else◌, ℤ,
}
use ecse_427_simple_shell_cr.A3.InodeStore.{Call}

-- `struct dir`, with its inode by address
pub record Dir : Type 0 where
  pub inode : ℕ
  pub pos : ℕ
  pub open_cnt : ℕ

-- `struct file`: `file_write` can set the position below 0
pub record File : Type 0 where
  pub inode : ℕ
  pub pos : ℤ
  pub deny_write : Bool

-- `struct file_table_entry`, with its file by address
pub record FileTableEntry : Type 0 where
  pub fname : Str
  pub f : ℕ

pub record Fs (S : Type 0) : Type 0 where
  pub inodes : S
  pub dirs : ℕ → Option Dir
  pub next_dir : ℕ
  pub cwd : Option ℕ
  pub files : ℕ → Option File
  pub next_file : ℕ
  pub file_table : List FileTableEntry
  -- the lines that were printed
  pub out : List Str

-- `malloc`, a change of what an address points to, and `free`
abbrev pub put : {A : Type 0} → (ℕ → Option A) → ℕ → Option A → ℕ → Option A
put heap p value q = if q == p then value else heap q

module _ {S : Type 0} where
  abbrev pub on_inodes : {A : Type 0} → Call S A → Call (Fs S) A
  on_inodes f s = elim (f s.inodes) [ none ↦ none | some r ↦ some (r.0, record s { inodes = r.1 }) ]

  abbrev pub printf : Str → Call (Fs S) (Unit {0})
  printf text s = some (tt, record s { out = s.out ++ text ∷ [] })

  abbrev pub get_cwd : Call (Fs S) (Option ℕ)
  get_cwd s = some (s.cwd, s)

  abbrev pub set_cwd : Option ℕ → Call (Fs S) (Unit {0})
  set_cwd p s = some (tt, record s { cwd = p })

  abbrev pub new_dir : Dir → Call (Fs S) ℕ
  new_dir d s =
      some
        (s.next_dir, record s { dirs = put s.dirs s.next_dir (some d); next_dir = s.next_dir + 1 })

  abbrev pub get_dir : ℕ → Call (Fs S) Dir
  get_dir p s = elim (s.dirs p) [ none ↦ none | some d ↦ some (d, s) ]

  abbrev pub put_dir : ℕ → Option Dir → Call (Fs S) (Unit {0})
  put_dir p d s = some (tt, record s { dirs = put s.dirs p d })

  abbrev pub new_file : File → Call (Fs S) ℕ
  new_file f s = some (
    s.next_file,
    record s { files = put s.files s.next_file (some f); next_file = s.next_file + 1 },
  )

  abbrev pub get_file : ℕ → Call (Fs S) File
  get_file p s = elim (s.files p) [ none ↦ none | some f ↦ some (f, s) ]

  abbrev pub put_file : ℕ → Option File → Call (Fs S) (Unit {0})
  put_file p f s = some (tt, record s { files = put s.files p f })

  abbrev pub get_table : Call (Fs S) (List FileTableEntry)
  get_table s = some (s.file_table, s)

  abbrev pub set_table : List FileTableEntry → Call (Fs S) (Unit {0})
  set_table t s = some (tt, record s { file_table = t })

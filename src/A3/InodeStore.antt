-- ===== src/A3/InodeStore.antt =====
-- What directory.c, file.c and filesys.c of a3/fs call of inode.c and free-map.c, as an interface over a
-- state `S` of the inodes and the disk. An inode that is open is known by the address of its
-- `struct inode`; allocation in the heap does not fail.
pub mod Laws
use ecse_427_simple_shell_cr.Base.{ℕ, Bool, Option, none, some, List, ℤ}

-- A call over a state; `none` is a failed ASSERT, a PANIC, no fuel, or the use of freed memory.
abbrev pub Call : Type 0 → Type 0 → Type 0
Call S A = S → Option (A × S)

module _ {S A B : Type 0} where
  infixl 5 ◌>>=◌
  abbrev pub ◌>>=◌ : Call S A → (A → Call S B) → Call S B
  m >>= f = λ s. elim (m s) [ none ↦ none | some r ↦ f r.0 r.1 ]

  infixl 5 ◌>>◌
  abbrev pub ◌>>◌ : Call S A → Call S B → Call S B
  m >> f = m >>= λ _. f

abbrev pub pure : {S A : Type 0} → A → Call S A
pure a s = some (a, s)

abbrev pub panic : {S A : Type 0} → Call S A
panic s = none

pub record InodeStore (S : Type 0) : Type 0 where
  -- the sector of the new inode, its length, and whether it is a directory
  pub inode_create : ℕ → ℕ → Bool → Call S Bool
  -- the inode in a sector
  pub inode_open : ℕ → Call S ℕ
  pub inode_close : ℕ → Call S (Unit {0})
  pub inode_remove : ℕ → Call S (Unit {0})
  -- the bytes that a read of a size at an offset puts into the buffer; their number is its result
  pub inode_read_at : ℕ → ℤ → ℕ → Call S (List ℕ)
  -- how many bytes are written
  pub inode_write_at : ℕ → List ℕ → ℕ → Call S ℕ
  pub inode_deny_write : ℕ → Call S (Unit {0})
  pub inode_allow_write : ℕ → Call S (Unit {0})
  pub inode_get_inumber : ℕ → Call S ℕ
  pub inode_length : ℕ → Call S ℕ
  pub inode_is_directory : ℕ → Call S Bool
  pub inode_is_removed : ℕ → Call S Bool
  -- one sector, if one is free
  pub free_map_allocate : Call S (Option ℕ)
  pub free_map_release : ℕ → Call S (Unit {0})
  pub num_free_sectors : Call S ℕ

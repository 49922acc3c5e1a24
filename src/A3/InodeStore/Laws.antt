-- ===== src/A3/InodeStore/Laws.antt =====
-- What the clients of inode.c rely on: the bytes of the open inodes, as they are read and overwritten.
use ecse_427_simple_shell_cr.Base.{
  ℕ, ◌+◌, ◌≤◌, ◌≡◌, refl, Option, some, List, ◌++◌, ◌==◌, if◌then◌else◌, length, take, drop, pos,
  true, arith,
}
use ecse_427_simple_shell_cr.A3.InodeStore.{Call, InodeStore}

-- The bytes of each inode that is open.
abbrev pub View : Type 0
View = ℕ → Option (List ℕ)

abbrev pub set_view : View → ℕ → List ℕ → View
set_view v p bytes q = if q == p then some bytes else v q

pub set_view_self : (v : View) (p : ℕ) (bytes : List ℕ) → set_view v p bytes p ≡ some bytes
set_view_self v p bytes = let same : (p == p) ≡ true = ground arith in rw same refl

-- bytes after an overwrite of those from an offset on
unfoldable pub overwrite : List ℕ → ℕ → List ℕ → List ℕ
overwrite bytes offset new = take offset bytes ++ (new ++ drop (offset + length new) bytes)

-- The call returns the value, and the state has the view after it.
abbrev pub Gives : {S A : Type 0} → (S → View → Type 0) → Call S A → S → View → A → Type 0
Gives {S} Shows f s v a = (s' : S) × (f s ≡ some (a, s')) × Shows s' v

pub record IsLawful {S : Type 0} (store : InodeStore S) (Shows : S → View → Type 0) : Type 0 where
  -- A read stops at the end of the file, and changes no byte.
  pub reads :
      (p size offset : ℕ) (bytes : List ℕ) (s : S) (v : View)
      → Shows s v
      → v p ≡ some bytes
      → Gives Shows (store.inode_read_at p (pos size) offset) s v (take size (drop offset bytes))
  -- A write of a byte or more inside the file writes all of the buffer. Of no byte at all, the write of
  -- inode.c at offset 0 cuts the file.
  pub writes :
      (p offset : ℕ) (buffer bytes : List ℕ) (s : S) (v : View)
      → Shows s v
      → v p ≡ some bytes
      → 1 ≤ length buffer
      → offset + length buffer ≤ length bytes
      → Gives Shows
          (store.inode_write_at p buffer offset)
          s
          (set_view v p (overwrite bytes offset buffer))
          (length buffer)
  pub lengths :
      (p : ℕ) (bytes : List ℕ) (s : S) (v : View)
      → Shows s v
      → v p ≡ some bytes
      → Gives Shows (store.inode_length p) s v (length bytes)

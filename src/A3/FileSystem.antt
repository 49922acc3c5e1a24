-- ===== src/A3/FileSystem.antt =====
-- What the commands of a3/interpreter.c call of the file system (a3/fs/fsutil.h, a3/fs/fsutil2.h,
-- a3/fs/filesys.h), as an interface over a state `W` of the machine outside the shell.
use ecse_427_simple_shell_cr.Base.{ℕ, Bool, Option, List, ◌++◌, Str, ℤ}
use ecse_427_simple_shell_cr.A3.LinkedList.{Result, ok, ◌>>=◌ as bind}
use ecse_427_simple_shell_cr.A3.State.{Cmd}

-- A call's result, the lines it prints and the new state, or no result where it panics.
abbrev pub FsCall : Type 0 → Type 0 → Type 0
FsCall W A = W → Result (A × (List Str × W))

pub record FileSystem (W : Type 0) : Type 0 where
  -- the status of `fsutil_ls`, `fsutil_cat`, `copy_in` and `copy_out`
  pub ls : FsCall W ℤ
  pub cat : Str → FsCall W ℤ
  pub copy_in : Str → FsCall W ℤ
  pub copy_out : Str → FsCall W ℤ
  -- `fsutil_rm` and `fsutil_create` return 0 or 1
  pub rm : Str → FsCall W Bool
  pub create : Str → ℤ → FsCall W Bool
  -- the bytes written; `none` is -1, where the file does not open
  pub write : Str → Str → FsCall W (Option ℕ)
  -- the bytes read; `none` is -1
  pub read : Str → ℤ → FsCall W (Option Str)
  -- the length; `none` is -1
  pub size : Str → FsCall W (Option ℕ)
  -- whether the file opens
  pub seek : Str → ℤ → FsCall W Bool
  pub freespace : FsCall W ℕ
  pub find_file : Str → FsCall W (Unit {0})
  pub fragmentation_degree : FsCall W (Unit {0})
  pub defragment : FsCall W (Unit {0})
  pub recover : ℤ → FsCall W (Unit {0})
  -- `filesys_done`
  pub done : FsCall W (Unit {0})

module _ {W : Type 0} where
  unfoldable pub fs_call : {A : Type 0} → FsCall W A → Cmd W A
  fs_call f k =
      bind (f k.world) λ (a, (printed, w)). ok (a, record k { out = k.out ++ printed; world = w })

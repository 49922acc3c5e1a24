-- ===== src/Base/System.antt =====
-- The operating system's calls that the three shells make, as an interface over a state `W` of the
-- machine outside the shell: files, directories and the commands that `system` starts.
use mathlib.Core.Bool.{Bool}
use mathlib.Core.Option.{Option}
use ecse_427_simple_shell_cr.Base.Text.{Str}
use ecse_427_simple_shell_cr.Base.Int.{ℤ}

pub record Os (W : Type 0) : Type 0 where
  -- `system(command)`
  pub system : Str → W → ℤ × W
  -- `mkdir(dir, 0777)` and `chdir(dir)`
  pub mkdir : Str → W → ℤ × W
  pub chdir : Str → W → ℤ × W
  -- `stat(name)` succeeds and `S_ISDIR`
  pub is_dir : Str → W → Bool
  -- the contents of a file that `fopen(name, "r")` opens
  pub read_file : Str → W → Option Str
  -- `fopen(name, "w")`, the bytes written, `fclose`; `none` where the file does not open
  pub write_file : Str → Str → W → Option W

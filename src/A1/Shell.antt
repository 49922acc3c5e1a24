-- ===== src/A1/Shell.antt =====
-- The state of the first shell and what a command of a1/interpreter.c comes to.
use ecse_427_simple_shell_cr.Base.{ℤ, List, [], ◌∷◌, ◌++◌, Str, codes, pos, Option, none, some}
use ecse_427_simple_shell_cr.Store.{Slot}

-- One call of `printf`: `"%s\n"`, another format, or the text of `help`.
pub data Print : Type 0 where
  line : Str → Print
  raw : Str → Print
  help_screen : Print

-- The array `shellmemory`, what was printed, and the machine outside.
pub record Shell (W : Type 0) : Type 0 where
  pub mem : List Slot
  pub out : List Print
  pub world : W

-- `fault` is undefined behaviour of the C code, `exited` a call of `exit(0)`.
pub data Outcome (W : Type 0) : Type 0 where
  done : ℤ → Shell W → Outcome W
  exited : Shell W → Outcome W
  fault : Outcome W
  no_fuel : Outcome W

module _ {W : Type 0} where
  abbrev pub and_then : Outcome W → (ℤ → Shell W → Outcome W) → Outcome W
  and_then (done c s) k = k c s
  and_then (exited s) k = exited s
  and_then fault k = fault
  and_then no_fuel k = no_fuel

  abbrev pub or_fault : Option (Outcome W) → Outcome W
  or_fault none = fault
  or_fault (some o) = o

  abbrev pub printf : Print → Shell W → Shell W
  printf p s = record s { out = s.out ++ p ∷ [] }

  unfoldable pub badcommand : Shell W → Outcome W
  badcommand s = done (pos 1) (printf (line (codes "Unknown Command")) s)

  unfoldable pub badcommand_specific : Str → Shell W → Outcome W
  badcommand_specific command s = done (pos 1) (printf (line (codes "Bad command: " ++ command)) s)

  unfoldable pub badcommand_file_does_not_exist : Shell W → Outcome W
  badcommand_file_does_not_exist s =
      done (pos 3) (printf (line (codes "Bad command: File not found")) s)

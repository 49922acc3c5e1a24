-- ===== src/A3/Interpreter.antt =====
-- a3/interpreter.c: `interpreter`, which tests the number of words of a command and runs it, and the
-- recursion through a3/shell.c and the schedulers.
pub mod Variables
pub mod Remove
mod Tests
use ecse_427_simple_shell_cr.Base.{
  ℕ, zero, suc, Bool, true, false, Option, none, some, List, [], ◌∷◌, map, Str, codes, str_eq, ltb,
  ◌==◌, not, if◌then◌else◌, length, strip_newline, ℤ, pos, Os,
}
use ecse_427_simple_shell_cr.A3.LinkedList.{ok, fault, no_fuel}
use ecse_427_simple_shell_cr.A3.Memory.{reset_var_zone}
use ecse_427_simple_shell_cr.A3.State.{Kernel, Cmd, ◌>>=◌, ◌>>◌, pure, printf, line}
use ecse_427_simple_shell_cr.A3.FileSystem.{FileSystem, fs_call}
use ecse_427_simple_shell_cr.A3.Commands.{
  Error, too_many_tokens, too_few_tokens, bad_command, handle_error, set_cmd, print_cmd, echo_cmd,
}
use ecse_427_simple_shell_cr.A3.Commands.Scripts.{quit_cmd, run_cmd, exec_cmd}
use ecse_427_simple_shell_cr.A3.Commands.Files.{
  ls_cmd, cat_cmd, rm_cmd, create_cmd, write_cmd, find_file_cmd, read_cmd, copy_in_cmd,
  copy_out_cmd, size_cmd, seek_cmd, freespace_cmd, recover_cmd,
}
use ecse_427_simple_shell_cr.A3.Input.{parse_input}

-- the names that `interpreter` compares its first word with
pub data Command : Type 0 where
  help quit set print run echo exec resetmem : Command
  ls cat rm create write find_file read copy_in copy_out : Command
  size seek freespace fragmentation_degree defragment recover : Command
  unknown : Command

-- the comparisons in their order
abbrev pub command_names : List (Str × Command)
command_names =
    (codes "help", help)
    ∷ (codes "quit", quit)
    ∷ (codes "exit", quit)
    ∷ (codes "set", set)
    ∷ (codes "print", print)
    ∷ (codes "run", run)
    ∷ (codes "echo", echo)
    ∷ (codes "exec", exec)
    ∷ (codes "resetmem", resetmem)
    ∷ (codes "ls", ls)
    ∷ (codes "cat", cat)
    ∷ (codes "rm", rm)
    ∷ (codes "create", create)
    ∷ (codes "write", write)
    ∷ (codes "find_file", find_file)
    ∷ (codes "read", read)
    ∷ (codes "copy_in", copy_in)
    ∷ (codes "copy_out", copy_out)
    ∷ (codes "size", size)
    ∷ (codes "seek", seek)
    ∷ (codes "freespace", freespace)
    ∷ (codes "fragmentation_degree", fragmentation_degree)
    ∷ (codes "defragment", defragment)
    ∷ (codes "recover", recover)
    ∷ []

unfoldable pub command_in : List (Str × Command) → Str → Command
command_in [] w = unknown
command_in ((name, command) ∷ names) w = elim (str_eq w name) [
  | true ↦ command
  | false ↦ command_in names w
]

unfoldable pub command_of : Str → Command
unfolding command_in
command_of w = command_in command_names w

-- the tests on the number of words
unfoldable pub at_most : ℕ → ℕ → Option Error
at_most n args_size = if ltb n args_size then some too_many_tokens else none

unfoldable pub at_least : ℕ → ℕ → Option Error
at_least n args_size = if ltb args_size n then some too_few_tokens else none

unfoldable pub between : ℕ → ℕ → ℕ → Option Error
between m n args_size =
    if ltb args_size m
    then some too_few_tokens
    else if ltb n args_size
    then some too_many_tokens
    else none

unfoldable pub exactly : ℕ → ℕ → Option Error
exactly n args_size = if not (args_size == n) then some too_many_tokens else none

-- the error of a command with so many words, its name counted
unfoldable pub count_error : Command → ℕ → Option Error
unfolding at_most at_least between exactly
count_error help n = at_most 1 n
count_error quit n = at_most 1 n
count_error set n = at_least 3 n
count_error print n = between 2 2 n
count_error run n = between 2 2 n
count_error echo n = at_most 2 n
count_error exec n = between 2 5 n
count_error resetmem n = none
count_error ls n = at_most 1 n
count_error cat n = exactly 2 n
count_error rm n = exactly 2 n
count_error create n = exactly 3 n
count_error write n = at_least 3 n
count_error find_file n = at_least 2 n
count_error read n = exactly 3 n
count_error copy_in n = exactly 2 n
count_error copy_out n = exactly 2 n
count_error size n = exactly 2 n
count_error seek n = exactly 3 n
count_error freespace n = exactly 1 n
count_error fragmentation_degree n = exactly 1 n
count_error defragment n = exactly 1 n
count_error recover n = exactly 2 n
count_error unknown n = none

abbrev pub help_string : Str
help_string =
    codes
      "COMMAND\t\t\tDESCRIPTION\n help\t\t\t      Displays all the commands\n quit\t\t\t      Exits / terminates the shell with “Bye!”\n set VAR STRING\t\t      Assigns a value to shell memory\n print VAR\t\t      Displays the STRING assigned to VAR\n echo VAR                     Displays VAR if VAR doesn't begin with '$', otherwise displays the value assigned to VAR\n ls                        Displays the folders and files in the current directory in ascending order according to ASCII values \n run SCRIPT.TXT\t\t      Executes the file SCRIPT.TXT\n exec [SCRIPT.TXT]     Executes up to 3 files using the round-robin scheduling policy\n resetmem                     Deletes the content of the variable store\n"

module _ {W : Type 0} (os : Os W) (fs : FileSystem W) (border : ℕ) (cwd : Str) where
  -- A command, once the number of words was found right, and the words behind its name. Behind the words
  -- of a line the array has no value: `echo` alone reads a wild pointer.
  unfoldable pub dispatch : ℕ → (Str → Cmd W ℤ) → Command → List Str → Cmd W ℤ
  dispatch fuel parse help args = do printf (line help_string); pure (pos 0)
  dispatch fuel parse quit args = quit_cmd os fs cwd
  dispatch fuel parse set (var ∷ values) = set_cmd border var values
  dispatch fuel parse print (var ∷ args) = print_cmd border var
  dispatch fuel parse run (script ∷ args) = run_cmd os border cwd fuel parse script
  dispatch fuel parse echo (var ∷ args) = echo_cmd border var
  dispatch fuel parse exec args = exec_cmd os border cwd fuel parse args
  dispatch fuel parse resetmem args =
      λ k. ok (pos 0, record k { mem = reset_var_zone border k.mem })
  dispatch fuel parse ls args = ls_cmd fs
  dispatch fuel parse cat (name ∷ args) = cat_cmd fs name
  dispatch fuel parse rm (name ∷ args) = rm_cmd fs name
  dispatch fuel parse create (name ∷ n ∷ args) = create_cmd fs name n
  dispatch fuel parse write (name ∷ words) = write_cmd fs name words
  dispatch fuel parse find_file args = find_file_cmd fs args
  dispatch fuel parse read (name ∷ n ∷ args) = read_cmd fs name n
  dispatch fuel parse copy_in (name ∷ args) = copy_in_cmd fs name
  dispatch fuel parse copy_out (name ∷ args) = copy_out_cmd fs name
  dispatch fuel parse size (name ∷ args) = size_cmd fs name
  dispatch fuel parse seek (name ∷ n ∷ args) = seek_cmd fs name n
  dispatch fuel parse freespace args = freespace_cmd fs
  dispatch fuel parse fragmentation_degree args = do fs_call fs.fragmentation_degree; pure (pos 0)
  dispatch fuel parse defragment args = do fs_call fs.defragment; pure (pos 0)
  dispatch fuel parse recover (flag ∷ args) = recover_cmd fs flag
  dispatch fuel parse unknown args = handle_error bad_command
  dispatch fuel parse _ _ = λ _. fault

  unfoldable pub checked : ℕ → (Str → Cmd W ℤ) → Command → List Str → Cmd W ℤ
  checked fuel parse command args = elim (count_error command (suc (length args))) [
    | some e ↦ handle_error e
    | none ↦ dispatch fuel parse command args
  ]

  unfoldable pub interpreter_with : ℕ → (Str → Cmd W ℤ) → List Str → Cmd W ℤ
  interpreter_with fuel parse [] = handle_error too_few_tokens
  interpreter_with fuel parse (name ∷ args) =
      checked fuel parse (command_of (strip_newline name)) (map strip_newline args)

  -- `interpreter` on fuel: a round for each line inside another; the loop of `parseInput` and the
  -- schedulers get what is left.
  unfoldable pub interpreter : ℕ → List Str → Cmd W ℤ
  interpreter zero args = λ _. no_fuel
  interpreter (suc fuel) args = interpreter_with fuel (parse_input (interpreter fuel) fuel) args

  -- `parseInput` and `interpreter` together
  unfoldable pub parse : ℕ → Str → Cmd W ℤ
  parse fuel text = parse_input (interpreter fuel) fuel text

-- ===== src/A2/Interpreter.antt =====
-- a2/interpreter.c: the commands of the second shell.
pub mod Reset
use ecse_427_simple_shell_cr.Base.{
  ℕ, zero, suc, ◌+◌, ◌-◌, Bool, true, false, not, ◌&&◌, ◌||◌, Option, none, some, List, [], ◌∷◌,
  ◌++◌, map, Str, codes, str_eq, ◌==◌, ltb, leb, if◌then◌else◌, length, get_elem?, take, drop,
  dollar, space, newline, join_words, ℤ, pos, negsuc, eq_ℤ, Os,
}
use ecse_427_simple_shell_cr.A2.State.{
  Kernel, line, help_screen, Result, ok, exited, fault, no_fuel, Cmd, and_then, ◌>>=◌, ◌>>◌, pure,
  or_fault, printf,
}
use ecse_427_simple_shell_cr.A2.Memory.{mem_set_value, mem_get_value, clear_variable_store}
use ecse_427_simple_shell_cr.A2.Input.{strip_words, parse_input}
use ecse_427_simple_shell_cr.A2.Kernel.Load.{process_initialize}
use ecse_427_simple_shell_cr.A2.Kernel.Schedule.{schedule_by_policy}

-- `enum Error`, without the first, which is no error
pub data Error : Type 0 where
  file_does_not_exist file_error no_mem_space ready_queue_full scheduling_error : Error
  too_many_tokens too_few_tokens non_alphanumeric_token bad_command error_cd error_mkdir : Error

unfoldable pub error_code : Error → ℕ
error_code file_does_not_exist = 1
error_code file_error = 2
error_code no_mem_space = 3
error_code ready_queue_full = 4
error_code scheduling_error = 5
error_code too_many_tokens = 6
error_code too_few_tokens = 7
error_code non_alphanumeric_token = 8
error_code bad_command = 9
error_code error_cd = 10
error_code error_mkdir = 11

-- `error_msgs`
abbrev pub error_msgs : List Str
error_msgs =
    codes "no error"
    ∷ (codes "file does not exist"
        ∷ (codes "file could not be loaded"
            ∷ (codes "no space left in shell memory"
                ∷ (codes "ready queue is full"
                    ∷ (codes "scheduling policy error"
                        ∷ (codes "too many tokens"
                            ∷ (codes "too few tokens"
                                ∷ (codes "non-alphanumeric token"
                                    ∷ (codes "unknown name"
                                        ∷ (codes "cd" ∷ (codes "mkdir" ∷ [])))))))))))

-- the names that `interpreter` compares its first word with, in its order
pub data Command : Type 0 where
  help quit set print run echo my_ls my_mkdir my_touch my_cd exec resetmem : Command
  unknown : Command

unfoldable pub command_of : Str → Command
command_of w =
    if str_eq w (codes "help")
    then help
    else if str_eq w (codes "quit") || str_eq w (codes "exit")
    then quit
    else if str_eq w (codes "set")
    then set
    else if str_eq w (codes "print")
    then print
    else if str_eq w (codes "run")
    then run
    else if str_eq w (codes "echo")
    then echo
    else if str_eq w (codes "my_ls")
    then my_ls
    else if str_eq w (codes "my_mkdir")
    then my_mkdir
    else if str_eq w (codes "my_touch")
    then my_touch
    else if str_eq w (codes "my_cd")
    then my_cd
    else if str_eq w (codes "exec")
    then exec
    else if str_eq w (codes "resetmem")
    then resetmem
    else unknown

-- `strchr(s, c) != NULL` of a byte that is not zero
unfoldable pub has_char : ℕ → Str → Bool
has_char d [] = false
has_char d (c ∷ s) = c == d || has_char d s

module _ {W : Type 0} where
  -- `handle_error` of the code of an error
  unfoldable pub handle_error : ℕ → Cmd W ℤ
  handle_error code = do
    message ← or_fault (get_elem? error_msgs code)
    printf (line (codes "Bad command: " ++ message))
    pure (pos code)

  -- `command_args[i]`; past the words that were ever set, it is a null pointer.
  unfoldable pub arg : ℕ → List Str → Cmd W Str
  arg i args = or_fault (get_elem? args i)

module _ {W : Type 0} (threshold : ℕ) where
  -- `set`, with its buffer of 1000 bytes
  unfoldable pub set_cmd : Str → Str → Cmd W ℤ
  set_cmd var value =
      if ltb (length var + 1 + length value) 1000
      then (do mem_set_value threshold var value; pure (pos 0))
      else (λ _. fault)

  unfoldable pub print_cmd : Str → Cmd W ℤ
  print_cmd var = do
    value ← mem_get_value threshold var
    printf (line (elim value [ none ↦ newline ∷ [] | some v ↦ v ]))
    pure (pos 0)

  unfoldable pub echo_cmd : Str → Cmd W ℤ
  echo_cmd [] = do printf (line []); pure (pos 0)
  echo_cmd (c ∷ var) =
      if c == dollar then print_cmd var else (do printf (line (c ∷ var)); pure (pos 0))

  -- the directory that `my_mkdir` makes, if its argument gives one
  unfoldable pub mkdir_name : Str → Cmd W (Option Str)
  mkdir_name [] = pure (some [])
  mkdir_name (c ∷ dirname) =
      if c == dollar
      then (do
        value ← mem_get_value threshold dirname
        pure (elim value [ none ↦ none | some v ↦ if has_char space v then none else some v ]))
      else pure (some (c ∷ dirname))

module _ {W : Type 0} (os : Os W) where
  unfoldable pub system : Str → Cmd W ℤ
  system command k =
      let (status, w) = os.system command k.world in ok status (record k { world = w })

  unfoldable pub quit_cmd : Cmd W ℤ
  quit_cmd = do
    printf (line (codes "Bye!"))
    (λ k. ok tt (record k { queue = [] }))
    system (codes "rm -rf ./backing_store")
    exited

  unfoldable pub my_mkdir_cmd : (threshold : ℕ) → Str → Cmd W ℤ
  my_mkdir_cmd threshold dirname = do
    name ← mkdir_name threshold dirname
    elim name [
      | none ↦ handle_error (error_code error_mkdir)
      | some dir ↦ system (codes "mkdir " ++ dir)
    ]

  unfoldable pub my_cd_cmd : Str → Cmd W ℤ
  my_cd_cmd dirname k =
      let (status, w) = os.chdir dirname k.world in
      if os.is_dir dirname k.world
      then ok status (record k { world = w })
      else handle_error (error_code error_cd) k

  -- The calls of `process_initialize` in `exec`, with the page ids 0, 1 and 2; the first error ends them.
  unfoldable pub initialize_all : (threshold unset_score page_pid : ℕ) → List Str → Cmd W ℤ
  initialize_all threshold unset_score page_pid [] = pure (pos 0)
  initialize_all threshold unset_score page_pid (name ∷ names) = do
    code ← process_initialize os threshold unset_score name page_pid
    if eq_ℤ code (pos 0)
        then initialize_all threshold unset_score (page_pid + 1) names
        else pure code

-- `unset_score` is the value of the score that `makePCB` leaves unset, `no_result` what a caller finds as
-- the result of `exec`, which ends without a `return` when all went well.
module _ {W : Type 0} (os : Os W) (threshold unset_score : ℕ) (no_result : ℤ) where
  -- an error code other than 0 goes to `handle_error`
  unfoldable pub check_error : ℤ → Cmd W ℤ → Cmd W ℤ
  check_error (pos zero) rest = rest
  check_error (pos (suc code)) rest = handle_error (suc code)
  check_error (negsuc code) rest = λ _. fault

  unfoldable pub run_cmd : ℕ → (Str → Cmd W ℤ) → Str → Cmd W ℤ
  run_cmd fuel parse script = do
    code ← process_initialize os threshold unset_score script 0
    if eq_ℤ code (pos 11)
        then handle_error 11
        else (do schedule_by_policy os threshold parse fuel (codes "FCFS"); pure code)

  unfoldable pub exec_cmd : ℕ → (Str → Cmd W ℤ) → List Str → Cmd W ℤ
  unfolding check_error
  exec_cmd fuel parse names = do
    code ← initialize_all os threshold unset_score 0 names
    check_error code (do
      scheduled ← schedule_by_policy os threshold parse fuel (codes "RR")
      check_error scheduled (pure no_result))

  -- `if (args_size < n) return handle_error(TOO_FEW_TOKENS);`
  unfoldable pub at_least : (n args_size : ℕ) → Cmd W ℤ → Cmd W ℤ
  at_least n args_size rest =
      if ltb args_size n then handle_error (error_code too_few_tokens) else rest

  -- `if (args_size > n) return handle_error(TOO_MANY_TOKENS);`
  unfoldable pub at_most : (n args_size : ℕ) → Cmd W ℤ → Cmd W ℤ
  at_most n args_size rest =
      if ltb n args_size then handle_error (error_code too_many_tokens) else rest

  -- The command of a word, with its tests on the number of words.
  unfoldable pub dispatch :
      ℕ → (Str → Cmd W ℤ) → Command → (args : List Str) → (args_size : ℕ) → Cmd W ℤ
  unfolding at_least at_most
  dispatch fuel parse help args args_size =
      at_most 1 args_size (do printf help_screen; pure (pos 0))
  dispatch fuel parse quit args args_size = at_most 1 args_size (quit_cmd os)
  dispatch fuel parse set args args_size =
      at_least 3 args_size (do
        var ← arg 1 args
        set_cmd threshold var (join_words (take (args_size - 2) (drop 2 args))))
  dispatch fuel parse print args args_size =
      at_least 2 args_size (at_most 2 args_size (do var ← arg 1 args; print_cmd threshold var))
  dispatch fuel parse run args args_size =
      at_least 2 args_size (at_most 2 args_size (do script ← arg 1 args; run_cmd fuel parse script))
  dispatch fuel parse echo args args_size =
      at_most 2 args_size (do var ← arg 1 args; echo_cmd threshold var)
  dispatch fuel parse my_ls args args_size = at_most 1 args_size (system os (codes "ls | sort"))
  dispatch fuel parse my_mkdir args args_size =
      at_most 2 args_size (do dir ← arg 1 args; my_mkdir_cmd os threshold dir)
  dispatch fuel parse my_touch args args_size =
      at_most 2 args_size (do name ← arg 1 args; system os (codes "touch " ++ name))
  dispatch fuel parse my_cd args args_size =
      at_most 2 args_size (do dir ← arg 1 args; my_cd_cmd os dir)
  dispatch fuel parse exec args args_size = at_least 2 args_size (
      at_most 5 args_size (
        if args_size == 5
        then handle_error (error_code bad_command)
        else exec_cmd fuel parse (take (args_size - 1) (drop 1 args))))
  dispatch fuel parse resetmem args args_size =
      at_most 1 args_size (do clear_variable_store threshold; pure (pos 0))
  dispatch fuel parse unknown args args_size = handle_error (error_code bad_command)

  -- `interpreter` on fuel: a round for each script inside another; the schedulers and the loop of
  -- `parseInput` get what is left.
  unfoldable pub interpreter : ℕ → (args : List Str) → (args_size : ℕ) → Cmd W ℤ
  unfolding strip_words
  interpreter zero args args_size = λ _. no_fuel
  interpreter (suc fuel) args args_size =
      if ltb args_size 1
      then handle_error (error_code too_few_tokens)
      else if ltb 7 args_size
      then handle_error (error_code too_many_tokens)
      else (do
        let words = strip_words args_size args
        name ← arg 0 words
        dispatch fuel (parse_input (interpreter fuel) fuel) (command_of name) words args_size)

  -- `parseInput` and the interpreter together
  unfoldable pub parse : ℕ → Str → Cmd W ℤ
  parse fuel text = parse_input (interpreter fuel) fuel text

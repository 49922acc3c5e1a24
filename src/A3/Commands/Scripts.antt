-- ===== src/A3/Commands/Scripts.antt =====
-- The commands of a3/interpreter.c on scripts: `run` and `exec`, and `quit`. `parse` is `parseInput`, and
-- `fuel` goes to the scheduler.
use ecse_427_simple_shell_cr.Base.{
  ℕ, ◌+◌, List, [], ◌∷◌, ◌++◌, Str, codes, str_eq, ltb, if◌then◌else◌, length, take, replicate,
  space, ℤ, pos, eq_ℤ, minus_one, Os,
}
use ecse_427_simple_shell_cr.A3.LinkedList.{ok, fault}
use ecse_427_simple_shell_cr.A3.State.{Cmd, ◌>>=◌, ◌>>◌, pure, printf, gets, line}
use ecse_427_simple_shell_cr.A3.FileSystem.{FileSystem, fs_call}
use ecse_427_simple_shell_cr.A3.Kernel.{new_proc}
use ecse_427_simple_shell_cr.A3.Kernel.Schedule.{run_proc_rr, run_proc_fifo}

-- `new_name`: the copy in the backing store, its name with as many letters a as scripts were copied
unfoldable pub copy_name : Str → ℕ → Str
copy_name script count = codes "./backing_store/" ++ script ++ replicate count b'a'

-- `snprintf(command, 1069, "<before>%s/backing_store", cwd)`
unfoldable pub store_command : Str → Str → Str
store_command before cwd = take 1068 (before ++ cwd ++ codes "/backing_store")

module _ {W : Type 0} (os : Os W) where
  unfoldable pub system : Str → Cmd W ℤ
  system command k =
      let (status, w) = os.system command k.world in ok (status, record k { world = w })

  -- The copying of a script. Of the three buffers of 100 bytes the one of `cmd` holds the longest text.
  unfoldable pub copy_script : Str → Cmd W Str
  copy_script script = do
    count ← gets (λ k. k.new_name_count)
    let name = copy_name script count
    let cmd = codes "cp ./" ++ script ++ space ∷ name
    if ltb (length cmd) 100
        then (do
          system cmd
          (λ k. ok (tt, record k { new_name_count = k.new_name_count + 1 }))
          pure name)
        else (λ _. fault)

  unfoldable pub copy_scripts : List Str → Cmd W (List Str)
  copy_scripts [] = pure []
  copy_scripts (script ∷ scripts) = do
    name ← copy_script script
    names ← copy_scripts scripts
    pure (name ∷ names)

  -- the backing store is deleted and made again
  unfoldable pub empty_backing_store : Str → Cmd W (Unit {0})
  empty_backing_store cwd = do
    system (store_command (codes "rm -rf ") cwd)
    system (store_command (codes "mkdir ") cwd)
    pure tt

  -- the commands `quit` and `exit`
  unfoldable pub quit_cmd : FileSystem W → Str → Cmd W ℤ
  quit_cmd fs cwd = do
    system (store_command (codes "rm -rf ") cwd)
    fs_call fs.done
    printf (line (codes "Bye!"))
    pure minus_one

module _ {W : Type 0} (os : Os W) (border : ℕ) (cwd : Str) (fuel : ℕ) (parse : Str → Cmd W ℤ) where
  -- `run`
  unfoldable pub run : Str → Cmd W ℤ
  run script = do
    code ← new_proc os border script
    if eq_ℤ code (pos 0) then run_proc_rr border parse fuel else pure (pos 1)

  unfoldable pub run_cmd : Str → Cmd W ℤ
  unfolding run
  run_cmd script = do
    name ← copy_script os script
    ret ← run name
    empty_backing_store os cwd
    pure ret

  -- The loop of `exec` that makes the processes, and the scheduling behind it.
  unfoldable pub exec_all : (policy : Str) → List Str → Cmd W ℤ
  exec_all policy [] =
      if str_eq policy (codes "FIFO")
      then run_proc_fifo border parse fuel
      else if str_eq policy (codes "RR")
      then run_proc_rr border parse fuel
      else pure (pos 0)
  exec_all policy (script ∷ scripts) = do
    code ← new_proc os border script
    if eq_ℤ code (pos 0) then exec_all policy scripts else pure (pos 1)

  -- `exec`
  unfoldable pub exec : List Str → (policy : Str) → Cmd W ℤ
  unfolding exec_all
  exec scripts policy =
      if ltb 3 (length scripts)
      then (do printf (codes "exec can only take between 1 to 3 scripts\n"); pure (pos 1))
      else exec_all policy scripts

  unfoldable pub exec_cmd : List Str → Cmd W ℤ
  unfolding exec
  exec_cmd scripts = do
    names ← copy_scripts os scripts
    ret ← exec names (codes "RR")
    empty_backing_store os cwd
    pure ret

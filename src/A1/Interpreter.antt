-- ===== src/A1/Interpreter.antt =====
-- a1/interpreter.c: the commands of the first shell.
pub mod Conditional
pub mod Variables
pub mod Script
pub mod Run
use ecse_427_simple_shell_cr.Base.{
  ℕ, zero, suc, ◌+◌, ◌-◌, Bool, true, false, not, ◌&&◌, ◌||◌, Option, none, some, List, [], ◌∷◌,
  ◌++◌, map, Str, codes, str_eq, ◌==◌, ltb, leb, if◌then◌else◌, length, get_elem?, take, drop,
  dollar, space, strip_newline, fgets, ℤ, pos, negsuc, minus_one, eq_ℤ, Os,
}
use ecse_427_simple_shell_cr.A1.Memory.{mem_set_value, mem_get_value}
use ecse_427_simple_shell_cr.A1.Input.{parse_input}
use ecse_427_simple_shell_cr.A1.Shell.{
  Shell, Print, line, raw, help_screen, Outcome, done, exited, fault, no_fuel, and_then, or_fault,
  printf, badcommand, badcommand_specific, badcommand_file_does_not_exist,
}

abbrev pub max_args_size : ℕ
max_args_size = 20

-- the names that `interpreter` compares its first word with, in its order
pub data Command : Type 0 where
  help quit set print run my_ls my_touch echo my_mkdir my_cd my_cat my_cp if_statement : Command
  unknown : Command

unfoldable pub command_of : Str → Command
unfolding str_eq
command_of w =
    if str_eq w (codes "help")
    then help
    else if str_eq w (codes "quit")
    then quit
    else if str_eq w (codes "set")
    then set
    else if str_eq w (codes "print")
    then print
    else if str_eq w (codes "run")
    then run
    else if str_eq w (codes "my_ls")
    then my_ls
    else if str_eq w (codes "my_touch")
    then my_touch
    else if str_eq w (codes "echo")
    then echo
    else if str_eq w (codes "my_mkdir")
    then my_mkdir
    else if str_eq w (codes "my_cd")
    then my_cd
    else if str_eq w (codes "my_cat")
    then my_cat
    else if str_eq w (codes "my_cp")
    then my_cp
    else if str_eq w (codes "if")
    then if_statement
    else unknown

-- `set`: the loop of `strcat` over the arguments behind the third
unfoldable pub append_args : Str → List Str → Str
append_args value [] = value
append_args value (a ∷ as') = append_args (value ++ space ∷ a) as'

abbrev pub max_value : ℕ
max_value = 504

-- the text behind a `$` is a variable's name
abbrev pub starts_dollar : Str → Bool
starts_dollar [] = false
starts_dollar (c ∷ s) = c == dollar

abbrev pub tail : Str → Str
tail [] = []
tail (c ∷ s) = s

-- `ifStatement`: the first "else" from index `i` on, short of the last word; 0 if there is none
unfoldable pub find_else : ℕ → List Str → ℕ
find_else i [] = 0
find_else i (w ∷ []) = 0
find_else i (w ∷ (x ∷ ws)) = if str_eq w (codes "else") then i else find_else (i + 1) (x ∷ ws)

-- the command that the condition chooses
unfoldable pub branch_words : Bool → ℕ → List Str → List Str
branch_words true else_index args = take (else_index - 5) (drop 5 args)
branch_words false else_index args =
    take (length args - else_index - 2) (drop (else_index + 1) args)

unfoldable pub is_last : Str → List Str → Bool
is_last w [] = false
is_last w (x ∷ []) = str_eq x w
is_last w (x ∷ (y ∷ ws)) = is_last w (y ∷ ws)

first_word : List Str → Str
first_word [] = []
first_word (w ∷ ws) = w

module _ {W : Type 0} where
  unfoldable pub set_cmd : List Str → Shell W → Outcome W
  set_cmd (_ ∷ (var ∷ (first ∷ others))) s =
      let value = append_args first others in
      if ltb (length value) max_value
      then done (pos 0) (record s { mem = mem_set_value var value s.mem })
      else fault
  set_cmd _ s = fault

  -- `mem_get_value` is never null here, so the branch of `echo` for a null value is never taken.
  unfoldable pub echo_cmd : Str → Shell W → Outcome W
  echo_cmd var s =
      if starts_dollar var
      then done (pos 0) (printf (line (mem_get_value (tail var) s.mem)) s)
      else done (pos 0) (printf (line var) s)

  print_cmd : Str → Shell W → Outcome W
  print_cmd var s = done (pos 0) (printf (line (mem_get_value var s.mem)) s)

  -- An identifier of `ifStatement`: a variable's value, or the word itself.
  unfoldable pub identifier : Str → Shell W → Str
  identifier w s = if starts_dollar w then mem_get_value (tail w) s.mem else w

  empty_if : Shell W → Outcome W
  empty_if s = done (pos 1) (printf (line (codes "Empty if clause")) s)

  unfoldable pub run_branch : (List Str → Shell W → Outcome W) → List Str → Shell W → Outcome W
  run_branch interpreter [] s = badcommand_specific (codes "my_if") s
  run_branch interpreter (w ∷ ws) s = interpreter (w ∷ ws) s

  unfoldable pub if_cmd : (List Str → Shell W → Outcome W) → List Str → Shell W → Outcome W
  unfolding empty_if is_last branch_words run_branch identifier
  if_cmd interpreter (kw ∷ (id1 ∷ (op ∷ rest))) s =
      if not (str_eq op (codes "==") || str_eq op (codes "!=")) then empty_if s else elim rest [
        | id2 ∷ (kw_then ∷ others) ↦
            let args = kw ∷ (id1 ∷ (op ∷ (id2 ∷ (kw_then ∷ others)))) in
            let else_index = find_else 5 others in
            let same = str_eq (identifier id1 s) (identifier id2 s) in
            let holds = if str_eq op (codes "==") then same else not same in
            if not (str_eq kw_then (codes "then")) || not (is_last (codes "fi") (kw_then ∷ others))
            then empty_if s
            else if else_index == 0
            then empty_if s
            else run_branch interpreter (branch_words holds else_index args) s
        | _ ↦ fault
      ]
  if_cmd interpreter _ s = fault

  -- The loop of `run` behind the opened file, on fuel: a round reads a line and interprets it.
  unfoldable pub run_lines : ℕ → (Str → Shell W → Outcome W) → Str → Shell W → Outcome W
  run_lines zero parse text s = no_fuel
  run_lines (suc fuel) parse text s =
      let l = fgets 998 text in
      and_then (parse l.text s)
        λ code s'. elim l.at_end [ true ↦ done code s' | false ↦ run_lines fuel parse l.rest s' ]

  -- Of an empty file the first `fgets` leaves `line` as it is, with no value yet.
  unfoldable pub run_text : (Str → Shell W → Outcome W) → Str → Shell W → Outcome W
  run_text parse [] s = fault
  run_text parse (c ∷ text) s = run_lines (suc (suc (length text))) parse (c ∷ text) s

module _ {W : Type 0} (os : Os W) where
  my_ls_cmd : Shell W → Outcome W
  my_ls_cmd s = let (r, w) = os.system (codes "ls") s.world in done (pos 0) (record s { world = w })

  my_mkdir_cmd : Str → Shell W → Outcome W
  my_mkdir_cmd dir s =
      let (status, w) = os.mkdir dir s.world in
      let s' : Shell W = record s { world = w } in
      if ltb 100 (length dir)
      then done (pos 1) (printf (line (codes "Directory name is too long.")) s)
      else if eq_ℤ status minus_one
      then done (pos 1) (printf (line (codes "Directory already exists")) s')
      else done (pos 0) s'

  my_cd_cmd : Str → Shell W → Outcome W
  my_cd_cmd dirname s =
      let (status, w) = os.chdir dirname s.world in
      let s' : Shell W = record s { world = w } in
      if eq_ℤ status (pos 0) then done (pos 0) s' else badcommand_specific (codes "my_cd") s'

  my_touch_cmd : Str → Shell W → Outcome W
  my_touch_cmd filename s =
      if ltb 100 (length filename)
      then done (pos 1) (printf (line (codes "File name is too long.")) s)
      else elim (os.write_file filename [] s.world) [
        | none ↦ fault
        | some w ↦ done (pos 0) (record s { world = w })
      ]

  my_cat_cmd : Str → Shell W → Outcome W
  my_cat_cmd filename s = elim (os.read_file filename s.world) [
    | none ↦ badcommand_specific (codes "my_cat") s
    | some text ↦ done (pos 0) (printf (raw text) s)
  ]

  my_cp_cmd : Str → Str → Shell W → Outcome W
  my_cp_cmd src dest s = elim (os.read_file src s.world) [
    | none ↦ badcommand_specific (codes "my_cp") s
    | some text ↦ elim (os.write_file dest text s.world) [
      | none ↦ fault
      | some w ↦ done (pos 0) (record s { world = w })
    ]
  ]

  unfoldable pub run_cmd : (Str → Shell W → Outcome W) → Str → Shell W → Outcome W
  run_cmd parse script s = elim (os.read_file script s.world) [
    | none ↦ badcommand_file_does_not_exist s
    | some text ↦ run_text parse text s
  ]

  -- One call of `interpreter` behind its first tests, with the calls that it makes of itself and
  -- of `parseInput` as functions.
  unfoldable pub dispatch :
      (List Str → Shell W → Outcome W)
      → (Str → Shell W → Outcome W)
      → Command
      → List Str
      → Shell W
      → Outcome W
  unfolding print_cmd my_ls_cmd my_mkdir_cmd my_cd_cmd my_touch_cmd my_cat_cmd my_cp_cmd
  dispatch interpreter parse help (w ∷ []) s = done (pos 0) (printf help_screen s)
  dispatch interpreter parse quit (w ∷ []) s = exited (printf (line (codes "Bye!")) s)
  dispatch interpreter parse set args s =
      if ltb (length args) 3 || ltb 7 (length args)
      then badcommand_specific (codes "set") s
      else set_cmd args s
  dispatch interpreter parse print (w ∷ (var ∷ [])) s = print_cmd var s
  dispatch interpreter parse run (w ∷ (script ∷ [])) s = run_cmd parse script s
  dispatch interpreter parse my_ls (w ∷ []) s = my_ls_cmd s
  dispatch interpreter parse my_touch (w ∷ (name ∷ [])) s = my_touch_cmd name s
  dispatch interpreter parse echo (w ∷ (var ∷ [])) s = echo_cmd var s
  dispatch interpreter parse my_mkdir (w ∷ (dir ∷ [])) s = my_mkdir_cmd dir s
  dispatch interpreter parse my_cd args s = elim args [
    | w ∷ (dir ∷ []) ↦ my_cd_cmd dir s
    | _ ↦ badcommand_specific (codes "my_cd") s
  ]
  dispatch interpreter parse my_cat args s = elim args [
    | w ∷ (name ∷ []) ↦ my_cat_cmd name s
    | _ ↦ badcommand_specific (codes "my_cat") s
  ]
  dispatch interpreter parse my_cp (w ∷ (src ∷ (dest ∷ []))) s = my_cp_cmd src dest s
  dispatch interpreter parse if_statement args s = if_cmd interpreter args s
  dispatch interpreter parse _ args s = badcommand s

  -- `interpreter` on fuel: a round for each `if` and each `run` inside another.
  unfoldable pub interpreter : ℕ → List Str → Shell W → Outcome W
  unfolding first_word
  interpreter zero args s = no_fuel
  interpreter (suc fuel) args s =
      let words = map strip_newline args in
      if ltb (length args) 1 || ltb max_args_size (length args)
      then badcommand s
      else dispatch (interpreter fuel)
          (λ text s'. or_fault (parse_input (λ ws. interpreter fuel ws s') text))
          (command_of (first_word words)) words s

  -- `parseInput` and the interpreter together
  unfoldable pub parse : ℕ → Str → Shell W → Outcome W
  parse fuel text s = or_fault (parse_input (λ ws. interpreter fuel ws s) text)

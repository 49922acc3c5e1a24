-- ===== src/A3/Interpreter/Variables.antt =====
-- `set` and `echo` of a3/interpreter.c through the memory.
use ecse_427_simple_shell_cr.Base.{
  ℕ, suc, ◌+◌, ◌<◌, ◌≡◌, refl, ap, ◌∙◌, true, false, ◌||◌, none, some, List, [], ◌∷◌, ◌++◌, map,
  Str, codes, ltb, ◌==◌, length, length-append, append_assoc, append-nil, arith, pos, Os,
  join_words, strip_newline, space, newline, dollar, isdigit, isalnum, str_eq, ℤ,
}
use ecse_427_simple_shell_cr.Store.{Slot}
use ecse_427_simple_shell_cr.A3.Input.{parse_input}
use ecse_427_simple_shell_cr.Store.Update.{HasRoom, get_value-set_value}
use ecse_427_simple_shell_cr.A3.LinkedList.{ok}
use ecse_427_simple_shell_cr.A3.Memory.{mem_set_value, mem_get_value}
use ecse_427_simple_shell_cr.A3.State.{Kernel, Cmd, line}
use ecse_427_simple_shell_cr.A3.FileSystem.{FileSystem}
use ecse_427_simple_shell_cr.A3.Commands.{
  all_alnum, is_alpha_num_str, all_alpha_num, value_buffer, set_buffer, append_values, set_value,
  set_cmd, echo_variable, echo_cmd,
}
use ecse_427_simple_shell_cr.A3.Interpreter.{
  Command, command_of, command_in, at_least, count_error, dispatch, checked, interpreter_with,
  interpreter,
}

abbrev pub AllAlnum : List Str → Type 0
AllAlnum [] = Unit {0}
AllAlnum (w ∷ ws) = (is_alpha_num_str w ≡ true) × AllAlnum ws

strip-all_alnum : (s : Str) → all_alnum s ≡ true → strip_newline s ≡ s
unfolding all_alnum strip_newline isalnum isdigit
strip-all_alnum [] h = refl
strip-all_alnum (c ∷ s) h =
    let other : (c == 13 || c == newline) ≡ false = ground arith in
    let rest : all_alnum s ≡ true = ground arith in
    rw (other, strip_newline, strip-all_alnum s rest)

alnum_of_str : (s : Str) → is_alpha_num_str s ≡ true → all_alnum s ≡ true
unfolding is_alpha_num_str
alnum_of_str [] h = cc
alnum_of_str (c ∷ s) h = h

pub strip-alnum : (s : Str) → is_alpha_num_str s ≡ true → strip_newline s ≡ s
strip-alnum s h = strip-all_alnum s (alnum_of_str s h)

all_alpha_num-alnum : (s : Str) → all_alnum s ≡ true → all_alpha_num s ≡ true
unfolding all_alnum all_alpha_num is_alpha_num_str
all_alpha_num-alnum [] h = refl
all_alpha_num-alnum (c ∷ s) h =
    let rest : all_alnum s ≡ true = ground arith in ground (arith, all_alpha_num-alnum s rest)

map-strip-alnum : (ws : List Str) → AllAlnum ws → map strip_newline ws ≡ ws
map-strip-alnum [] h = refl
map-strip-alnum (w ∷ ws) h = rw (strip-alnum w h.0, map-strip-alnum ws h.1)

strip-dollar : (x : Str) → strip_newline x ≡ x → strip_newline (dollar ∷ x) ≡ dollar ∷ x
unfolding strip_newline
strip-dollar x e = ap (◌∷◌ dollar) e

set-command : command_of (strip_newline (codes "set")) ≡ Command.set
unfolding command_of command_in strip_newline str_eq
set-command = refl

echo-command : command_of (strip_newline (codes "echo")) ≡ Command.echo
unfolding command_of command_in strip_newline str_eq
echo-command = refl

set-count_error : (n : ℕ) → count_error Command.set (suc (suc (suc n))) ≡ none
unfolding count_error
set-count_error n = let t : ltb (suc (suc (suc n))) 3 ≡ false = ground arith in rw (t, at_least)

echo-count_error : count_error Command.echo 2 ≡ none
unfolding count_error
echo-count_error = refl

module _ {W : Type 0} where
  append_values-one :
      (buffer v : Str) (k : Kernel W)
      → is_alpha_num_str v ≡ true
      → length (buffer ++ v) < value_buffer
      → append_values buffer (v ∷ []) k ≡ ok (some (buffer ++ v), k)
  unfolding append_values
  append_values-one buffer v k h lt =
      let t : ltb (length (buffer ++ v)) value_buffer ≡ true = ground arith in
      rw (h, append_values, append-nil, t, append-nil)

  append_values-more :
      (buffer v w : Str) (vs : List Str) (k : Kernel W)
      → is_alpha_num_str v ≡ true
      → length (buffer ++ v ++ space ∷ []) < value_buffer
      → append_values buffer (v ∷ w ∷ vs) k ≡ append_values (buffer ++ v ++ space ∷ []) (w ∷ vs) k
  unfolding append_values
  append_values-more buffer v w vs k h lt =
      let t : ltb (length (buffer ++ v ++ space ∷ [])) value_buffer ≡ true = ground arith in
      rw (h, append_values, t)

  -- The values are joined by single spaces.
  append_values-join_words :
      (buffer : Str) (v : Str) (vs : List Str) (k : Kernel W)
      → AllAlnum (v ∷ vs)
      → length (buffer ++ join_words (v ∷ vs)) < value_buffer
      → append_values buffer (v ∷ vs) k ≡ ok (some (buffer ++ join_words (v ∷ vs)), k)
  unfolding join_words
  append_values-join_words buffer v [] k h lt = append_values-one buffer v k h.0 lt
  append_values-join_words buffer v (w ∷ vs) k h lt =
      let rest = join_words (w ∷ vs) in
      let joined : (buffer ++ v ++ space ∷ []) ++ rest ≡ buffer ++ (v ++ space ∷ rest) =
        append_assoc (buffer ++ v) (space ∷ []) rest ∙ append_assoc buffer v (space ∷ rest) in
      let parts = length-append (buffer ++ v ++ space ∷ []) rest in
      let fits : length ((buffer ++ v ++ space ∷ []) ++ rest) < value_buffer = rw joined lt in
      append_values-more buffer v w vs k h.0 (omega arith)
      ∙ append_values-join_words (buffer ++ v ++ space ∷ []) w vs k h.1 fits
      ∙ ap (λ r. ok (some r, k)) joined

mem_get_value-mem_set_value :
    (border : ℕ) (x v : Str) (m : List Slot)
    → HasRoom border x m
    → mem_get_value border x false (mem_set_value border x v m) ≡ v
unfolding mem_get_value mem_set_value
mem_get_value-mem_set_value border x v m room =
    rw (get_value-set_value border x v m room, mem_get_value)

module _ {W : Type 0} (os : Os W) (fs : FileSystem W) (border : ℕ) (cwd : Str) where
  checked-dispatch :
      (fuel : ℕ) (parse : Str → Cmd W ℤ) (c : Command) (args : List Str) (k : Kernel W)
      → count_error c (suc (length args)) ≡ none
      → checked os fs border cwd fuel parse c args k ≡ dispatch os fs border cwd fuel parse c args k
  unfolding checked
  checked-dispatch fuel parse c args k n = rw (n, checked)

  -- A command whose number of words is right is run on its words without their line ends.
  pub interpreter-dispatch :
      (fuel : ℕ) (c : Command) (name : Str) (args : List Str) (k : Kernel W)
      → command_of (strip_newline name) ≡ c
      → count_error c (suc (length (map strip_newline args))) ≡ none
      → interpreter os fs border cwd (suc fuel) (name ∷ args) k
        ≡ dispatch os fs border cwd fuel
            (parse_input (interpreter os fs border cwd fuel) fuel)
            c
            (map strip_newline args)
            k
  unfolding interpreter interpreter_with
  interpreter-dispatch fuel c name args k e n = rw e (checked-dispatch fuel _ c _ k n)

  set_cmd-alnum :
      (x v : Str) (vs : List Str) (k : Kernel W)
      → AllAlnum (x ∷ v ∷ vs)
      → length (join_words (v ∷ vs)) < value_buffer
      → length x + 1 + length (join_words (v ∷ vs)) < set_buffer
      → set_cmd border x (v ∷ vs) k
        ≡ ok (pos 0, record k { mem = mem_set_value border x (join_words (v ∷ vs)) k.mem })
  unfolding set_cmd set_value
  set_cmd-alnum x v vs k h lt fits =
      let t : ltb (length x + 1 + length (join_words (v ∷ vs))) set_buffer ≡ true = ground arith in
      rw (h.0, append_values-join_words [] v vs k h.1 lt, t)

  interpreter-set :
      (fuel : ℕ) (x v : Str) (vs : List Str) (k : Kernel W)
      → AllAlnum (x ∷ v ∷ vs)
      → length (join_words (v ∷ vs)) < value_buffer
      → length x + 1 + length (join_words (v ∷ vs)) < set_buffer
      → interpreter os fs border cwd (suc fuel) (codes "set" ∷ x ∷ v ∷ vs) k
        ≡ ok (pos 0, record k { mem = mem_set_value border x (join_words (v ∷ vs)) k.mem })
  unfolding dispatch
  interpreter-set fuel x v vs k h lt fits =
      interpreter-dispatch fuel Command.set (codes "set") (x ∷ v ∷ vs) k set-command
        (set-count_error _)
      ∙ rw (strip-alnum x h.0, strip-alnum v h.1.0, map-strip-alnum vs h.1.1)
          (set_cmd-alnum x v vs k h lt fits)

  interpreter-echo :
      (fuel : ℕ) (x : Str) (k : Kernel W)
      → is_alpha_num_str x ≡ true
      → interpreter os fs border cwd (suc fuel) (codes "echo" ∷ (dollar ∷ x) ∷ []) k
        ≡ ok (pos 0, record k { out = k.out ++ line (mem_get_value border x false k.mem) ∷ [] })
  unfolding dispatch echo_cmd echo_variable
  interpreter-echo fuel x k h =
      interpreter-dispatch fuel Command.echo (codes "echo") ((dollar ∷ x) ∷ []) k echo-command
        echo-count_error
      ∙ rw (strip-dollar x (strip-alnum x h), all_alpha_num-alnum x (alnum_of_str x h))

  -- With an alphanumeric name, one or more alphanumeric values that join to less than the buffers, and
  -- room in the memory, `set x v...` returns 0 and changes the memory alone; after it, `echo $x` returns
  -- 0 and prints the values joined by single spaces.
  pub echo_of_set :
      (f g : ℕ) (x v : Str) (vs : List Str) (k : Kernel W)
      → AllAlnum (x ∷ v ∷ vs)
      → length (join_words (v ∷ vs)) < value_buffer
      → length x + 1 + length (join_words (v ∷ vs)) < set_buffer
      → HasRoom border x k.mem
      → let value = join_words (v ∷ vs) in
        let k' : Kernel W = record k { mem = mem_set_value border x value k.mem } in
        (interpreter os fs border cwd (suc f) (codes "set" ∷ x ∷ v ∷ vs) k ≡ ok (pos 0, k'))
        × (interpreter os fs border cwd (suc g) (codes "echo" ∷ (dollar ∷ x) ∷ []) k'
            ≡ ok (pos 0, record k' { out = k.out ++ line value ∷ [] }))
  echo_of_set f g x v vs k h lt fits room = (
    interpreter-set f x v vs k h lt fits,
    interpreter-echo g x _ h.0
        ∙ rw (mem_get_value-mem_set_value border x (join_words (v ∷ vs)) k.mem room),
  )

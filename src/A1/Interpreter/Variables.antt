-- ===== src/A1/Interpreter/Variables.antt =====
-- `set` and `echo` of a1/interpreter.c through the store.
use ecse_427_simple_shell_cr.Base.{
  ℕ, suc, ◌<◌, ◌≡◌, refl, ap, ◌∙◌, true, false, List, [], ◌∷◌, ◌++◌, map, Str, codes, ltb, length,
  append_assoc, arith, pos, Os, join_words, strip_newline, space, dollar,
}
use ecse_427_simple_shell_cr.Store.Update.{HasRoom, get_value-set_value}
use ecse_427_simple_shell_cr.A1.Memory.{mem_set_value, mem_get_value}
use ecse_427_simple_shell_cr.A1.Input.{parse_input}
use ecse_427_simple_shell_cr.A1.Shell.{Shell, done, line, printf, or_fault}
use ecse_427_simple_shell_cr.A1.Interpreter.{
  Command, append_args, max_value, max_args_size, set_cmd, echo_cmd, dispatch, command_of,
  interpreter,
}

-- `set` joins its arguments with single spaces.
append_args-join_words : (v : Str) (vs : List Str) → append_args v vs ≡ join_words (v ∷ vs)
unfolding append_args join_words
append_args-join_words v [] = refl
append_args-join_words v (w ∷ vs) = append_args-join_words (v ++ space ∷ w) vs ∙ shift v w vs
  where
    shift :
        (v w : Str) (vs : List Str)
        → join_words ((v ++ space ∷ w) ∷ vs) ≡ v ++ space ∷ join_words (w ∷ vs)
    shift v w [] = refl
    shift v w (x ∷ vs) = append_assoc v (space ∷ w) _

pub mem_get_value-mem_set_value :
    (k v : Str) (m : List _) → HasRoom 0 k m → mem_get_value k (mem_set_value k v m) ≡ v
unfolding mem_get_value mem_set_value
mem_get_value-mem_set_value k v m r = rw (get_value-set_value 0 k v m r, mem_get_value)

abbrev pub AllStripped : List Str → Type 0
AllStripped [] = Unit {0}
AllStripped (w ∷ ws) = (strip_newline w ≡ w) × AllStripped ws

map-strip_newline : (ws : List Str) → AllStripped ws → map strip_newline ws ≡ ws
map-strip_newline [] h = refl
map-strip_newline (w ∷ ws) h = rw (h.0, map-strip_newline ws h.1)

set-command : command_of (strip_newline (codes "set")) ≡ Command.set
unfolding command_of strip_newline
set-command = refl

echo-command : command_of (strip_newline (codes "echo")) ≡ Command.echo
unfolding command_of strip_newline
echo-command = refl

set-strip : strip_newline (codes "set") ≡ codes "set"
unfolding strip_newline
set-strip = refl

echo-strip : strip_newline (codes "echo") ≡ codes "echo"
unfolding strip_newline
echo-strip = refl

strip-dollar : (x : Str) → strip_newline x ≡ x → strip_newline (dollar ∷ x) ≡ dollar ∷ x
unfolding strip_newline
strip-dollar x e = ap (◌∷◌ dollar) e

module _ {W : Type 0} (os : Os W) where
  interpreter-command :
      (f : ℕ) (c : Command) (w : Str) (ws : List Str) (s : Shell W)
      → command_of (strip_newline w) ≡ c
      → strip_newline w ≡ w
      → AllStripped ws
      → length ws < max_args_size
      → interpreter os (suc f) (w ∷ ws) s
        ≡ dispatch os
            (interpreter os f)
            (λ text s'. or_fault (parse_input (λ us. interpreter os f us s') text))
            c
            (w ∷ ws)
            s
  unfolding interpreter
  interpreter-command f c w ws s e strip st len =
      let few : ltb max_args_size (suc (length ws)) ≡ false = ground arith in
      let some_words : ltb (suc (length ws)) 1 ≡ false = ground arith in
      rw (few, some_words, e, strip, map-strip_newline ws st)

  interpreter-set :
      (f : ℕ) (x v : Str) (vs : List Str) (s : Shell W)
      → AllStripped (x ∷ (v ∷ vs))
      → length vs < 5
      → length (join_words (v ∷ vs)) < max_value
      → interpreter os (suc f) (codes "set" ∷ (x ∷ (v ∷ vs))) s
        ≡ done (pos 0) (record s { mem = mem_set_value x (join_words (v ∷ vs)) s.mem })
  unfolding dispatch set_cmd
  interpreter-set f x v vs s st len fits =
      let short : ltb (length (join_words (v ∷ vs))) max_value ≡ true = ground arith in
      let at_least : ltb (suc (suc (suc (length vs)))) 3 ≡ false = ground arith in
      let at_most : ltb 7 (suc (suc (suc (length vs)))) ≡ false = ground arith in
      interpreter-command f Command.set (codes "set") (x ∷ (v ∷ vs)) s set-command set-strip st
        (omega arith)
      ∙ rw (at_least, at_most, append_args-join_words v vs, short)

  interpreter-echo :
      (f : ℕ) (x : Str) (s : Shell W)
      → strip_newline x ≡ x
      → interpreter os (suc f) (codes "echo" ∷ ((dollar ∷ x) ∷ [])) s
        ≡ done (pos 0) (printf (line (mem_get_value x s.mem)) s)
  unfolding dispatch echo_cmd
  interpreter-echo f x s st =
      interpreter-command f Command.echo (codes "echo") ((dollar ∷ x) ∷ []) s echo-command
        echo-strip (strip-dollar x st, tt) (omega arith)

  -- With one to five values that have no newline and join to less than the buffer, and room in the
  -- store, `set x v...` returns 0 and changes the store alone; after it, `echo $x` returns 0 and
  -- prints the values joined by single spaces.
  pub echo-set :
      (f g : ℕ) (x v : Str) (vs : List Str) (s : Shell W)
      → AllStripped (x ∷ (v ∷ vs))
      → length vs < 5
      → length (join_words (v ∷ vs)) < max_value
      → HasRoom 0 x s.mem
      → let value = join_words (v ∷ vs) in
        let s' : Shell W = record s { mem = mem_set_value x value s.mem } in
        (interpreter os (suc f) (codes "set" ∷ (x ∷ (v ∷ vs))) s ≡ done (pos 0) s')
        × (interpreter os (suc g) (codes "echo" ∷ ((dollar ∷ x) ∷ [])) s'
            ≡ done (pos 0) (printf (line value) s'))
  echo-set f g x v vs s st len fits room = (
    interpreter-set f x v vs s st len fits,
    interpreter-echo g x _ st.0
        ∙ rw (mem_get_value-mem_set_value x (join_words (v ∷ vs)) s.mem room),
  )

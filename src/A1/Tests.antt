-- ===== src/A1/Tests.antt =====
-- Runs of the first shell.
use ecse_427_simple_shell_cr.Base.{
  length, ◌≡◌, refl, true, some, List, [], ◌∷◌, ◌++◌, Str, codes, str_eq, pos, Os, if◌then◌else◌,
  join_words, strip_newline, newline, inr, arith,
}
use ecse_427_simple_shell_cr.Store.{init, find_from}
use ecse_427_simple_shell_cr.Store.Update.{HasRoom}
use ecse_427_simple_shell_cr.A1.Memory.{mem_set_value}
use ecse_427_simple_shell_cr.A1.Shell.{Shell, Outcome, done, printf, line}
use ecse_427_simple_shell_cr.A1.Input.{fits, all_short, parse_input, ends_word}
use ecse_427_simple_shell_cr.A1.Input.RoundTrip.{plain, AllTokens, parse_input-join_words}
use ecse_427_simple_shell_cr.A1.Interpreter.{if_cmd, interpreter, parse, run_cmd, identifier}
use ecse_427_simple_shell_cr.A1.Interpreter.Conditional.{
  conditional, op_word, holds, if_cmd-branches,
}
use ecse_427_simple_shell_cr.A1.Interpreter.Variables.{AllStripped, echo-set}
use ecse_427_simple_shell_cr.A1.Interpreter.Script.{file_lines, AllShort, run_all}
use ecse_427_simple_shell_cr.A1.Interpreter.Run.{run_cmd-run_all}

-- a machine with two scripts
abbrev test_os : Os (Unit {0})
test_os = record {
  system = λ c w. (pos 0, w);
  mkdir = λ d w. (pos 0, w);
  chdir = λ d w. (pos 0, w);
  is_dir = λ d w. true;
  read_file =
      λ f w. some (if str_eq f (codes "a") then codes "set x 1\necho $x" else codes "echo hi\n");
  write_file = λ f t w. some w;
}

abbrev start : Shell (Unit {0})
start = record { mem = init 3; out = []; world = tt }

abbrev set_x : List Str
set_x = codes "set" ∷ (codes "x" ∷ (codes "12" ∷ []))

set_x-AllTokens : AllTokens set_x
unfolding plain ends_word
set_x-AllTokens = ((λ e. cc), refl, ((λ e. cc), refl, ((λ e. cc), refl, tt)))

set_x-fits : fits set_x ≡ true
unfolding fits all_short
set_x-fits = refl

parse_input-join_words_example :
    parse_input (λ ws. length ws) (join_words set_x ++ newline ∷ []) ≡ some (length set_x)
unfolding join_words
parse_input-join_words_example =
    parse_input-join_words (λ ws. length ws) set_x set_x-AllTokens set_x-fits (ground arith)

-- a recorder in place of the interpreter
abbrev tell : List Str → Shell (Unit {0}) → Outcome (Unit {0})
tell ws s = done (pos 0) (printf (line (join_words ws)) s)

if_cmd-branches_example :
    if_cmd tell
      (conditional (op_word true) (codes "$x") (codes "7") set_x (codes "quit" ∷ []))
      start
    ≡ tell
        (if holds true (str_eq (identifier (codes "$x") start) (identifier (codes "7") start))
          then set_x
          else codes "quit" ∷ [])
        start
unfolding str_eq
if_cmd-branches_example =
    if_cmd-branches tell true (codes "$x") (codes "7") set_x (codes "quit" ∷ []) start
      (refl, (refl, (refl, tt))) (λ e. cc) (λ e. cc)

start-HasRoom : HasRoom 0 (codes "x") start.mem
unfolding init find_from str_eq
start-HasRoom = inr (λ e. cc)

values-AllStripped : AllStripped (codes "x" ∷ (codes "a" ∷ (codes "b" ∷ [])))
unfolding strip_newline
values-AllStripped = (refl, (refl, (refl, tt)))

abbrev after_set : Shell (Unit {0})
after_set = record start {
  mem = mem_set_value (codes "x") (join_words (codes "a" ∷ (codes "b" ∷ []))) start.mem;
}

echo-set_example :
    (interpreter test_os 1 (codes "set" ∷ (codes "x" ∷ (codes "a" ∷ (codes "b" ∷ [])))) start
      ≡ done (pos 0) after_set)
    × (interpreter test_os 1 (codes "echo" ∷ (codes "$x" ∷ [])) after_set
        ≡ done (pos 0) (printf (line (join_words (codes "a" ∷ (codes "b" ∷ [])))) after_set))
unfolding join_words
echo-set_example =
    echo-set test_os 0 0 (codes "x") (codes "a") (codes "b" ∷ []) start values-AllStripped
      (ground arith) (ground arith) start-HasRoom

script-AllShort : AllShort 998 (file_lines (codes "set x 1\necho $x"))
unfolding file_lines
script-AllShort = (ground arith, (ground arith, tt))

hi-AllShort : AllShort 998 (file_lines (codes "echo hi\n"))
unfolding file_lines
hi-AllShort = (ground arith, (ground arith, tt))

run_cmd-run_all_example :
    run_cmd test_os (parse test_os 2) (codes "a") start
    ≡ run_all (parse test_os 2) (file_lines (codes "set x 1\necho $x")) start
unfolding str_eq
run_cmd-run_all_example =
    run_cmd-run_all test_os (parse test_os 2) (codes "a") (codes "set x 1\necho $x") start refl
      (λ e. cc) script-AllShort

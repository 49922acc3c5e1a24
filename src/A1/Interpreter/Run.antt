-- ===== src/A1/Interpreter/Run.antt =====
-- `run` of a1/interpreter.c against the list of a script's lines.
use ecse_427_simple_shell_cr.Base.{
  ℕ, suc, ◌≡◌, ◌≢◌, refl, ap, ◌∙◌, some, List, [], ◌∷◌, ◌++◌, Str, newline, Os, arith,
}
use ecse_427_simple_shell_cr.A1.Shell.{Shell, Outcome, and_then, badcommand}
use ecse_427_simple_shell_cr.A1.Input.{parse_input, words_of, fits, skip_spaces, split_words}
use ecse_427_simple_shell_cr.A1.Interpreter.{run_text, run_cmd, interpreter, parse}
use ecse_427_simple_shell_cr.A1.Interpreter.Script.{
  file_lines, AllShort, run_all, run_lines-run_all, run_all-append, terminated, file_lines-newline,
  file_lines-ne-nil,
}
use mathlib.Core.Path.{fun_ext}

module _ {W : Type 0} (os : Os W) where
  run_text-run_all :
      (parse_line : Str → Shell W → Outcome W) (text : Str) (s : Shell W)
      → text ≢ []
      → AllShort 998 (file_lines text)
      → run_text parse_line text s ≡ run_all parse_line (file_lines text) s
  unfolding run_text
  run_text-run_all parse_line [] s n short = absurd (n refl)
  run_text-run_all parse_line (c ∷ text) s n short =
      run_lines-run_all _ parse_line (c ∷ text) s (omega arith) short

  -- Of a script that can be read, is not empty and has no line of 998 bytes or more, `run` gives every
  -- line in order to the parser, and then the text behind the last newline as a line too, which is empty
  -- where the script ends in a newline, and returns what this last one returns.
  pub run_cmd-run_all :
      (parse_line : Str → Shell W → Outcome W) (script text : Str) (s : Shell W)
      → os.read_file script s.world ≡ some text
      → text ≢ []
      → AllShort 998 (file_lines text)
      → run_cmd os parse_line script s ≡ run_all parse_line (file_lines text) s
  unfolding run_cmd
  run_cmd-run_all parse_line script text s e n short =
      rw (e, run_cmd) (run_text-run_all parse_line text s n short)

  parse-nil : (f : ℕ) (s : Shell W) → parse os (suc f) [] s ≡ badcommand s
  unfolding parse parse_input words_of fits skip_spaces split_words interpreter
  parse-nil f s = refl

  append-newline-ne-nil : (t : Str) → t ++ newline ∷ [] ≢ []
  append-newline-ne-nil [] e = cc
  append-newline-ne-nil (c ∷ t) e = cc

  run_all-terminated :
      (parse_line : Str → Shell W → Outcome W) (ls : List Str) (m : Str) (s : Shell W)
      → ls ≢ []
      → run_all parse_line (terminated ls ++ m ∷ []) s
        ≡ and_then (run_all parse_line (terminated ls) s) (λ _ s'. parse_line m s')
  unfolding terminated
  run_all-terminated parse_line [] m s n = absurd (n refl)
  run_all-terminated parse_line (l ∷ []) m s n = run_all-append parse_line _ [] m s
  run_all-terminated parse_line (l ∷ (k ∷ ls)) m s n = run_all-append parse_line l _ m s

  -- A script that ends in a newline is run line by line, and then, unless it left the shell, an empty
  -- command is interpreted: "Unknown Command" is printed and `run` returns 1.
  pub run_cmd-trailing_newline :
      (f : ℕ) (script t : Str) (s : Shell W)
      → os.read_file script s.world ≡ some (t ++ newline ∷ [])
      → AllShort 998 (file_lines (t ++ newline ∷ []))
      → run_cmd os (parse os (suc f)) script s
        ≡ and_then
            (run_all (parse os (suc f)) (terminated (file_lines t)) s)
            (λ _ s'. badcommand s')
  run_cmd-trailing_newline f script t s e short =
      run_cmd-run_all (parse os (suc f)) script _ s e (append-newline-ne-nil t) short
      ∙ ap (λ ls. run_all (parse os (suc f)) ls s) (file_lines-newline t)
      ∙ run_all-terminated (parse os (suc f)) (file_lines t) [] s (file_lines-ne-nil t)
      ∙ ap (and_then (run_all (parse os (suc f)) (terminated (file_lines t)) s))
          (fun_ext λ code. fun_ext λ s'. parse-nil f s')

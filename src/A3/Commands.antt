-- ===== src/A3/Commands.antt =====
-- a3/interpreter.c: its errors, and the commands on variables. `border` is the first index of the
-- variables in the memory.
pub mod Scripts
pub mod Files
use ecse_427_simple_shell_cr.Base.{
  ℕ, ◌+◌, Bool, true, false, not, ◌&&◌, Option, none, some, List, [], ◌∷◌, ◌++◌, Str, codes, ltb,
  ◌==◌, if◌then◌else◌, length, get_elem?, dollar, space, isalnum, ℤ, pos, negsuc,
}
use ecse_427_simple_shell_cr.A3.LinkedList.{ok, fault}
use ecse_427_simple_shell_cr.A3.Memory.{mem_set_value, mem_get_value}
use ecse_427_simple_shell_cr.A3.State.{Kernel, Cmd, ◌>>=◌, ◌>>◌, pure, or_fault, printf, gets, line}

-- `enum Error`
pub data Error : Type 0 where
  file_does_not_exist no_mem_space ready_queue_full scheduling_error : Error
  too_many_tokens too_few_tokens non_alphanumeric_token bad_command : Error
  error_rm file_creation_error filesystem_error file_write_error file_read_error : Error

unfoldable pub error_code : Error → ℕ
error_code file_does_not_exist = 0
error_code no_mem_space = 1
error_code ready_queue_full = 2
error_code scheduling_error = 3
error_code too_many_tokens = 4
error_code too_few_tokens = 5
error_code non_alphanumeric_token = 6
error_code bad_command = 7
error_code error_rm = 8
error_code file_creation_error = 9
error_code filesystem_error = 10
error_code file_write_error = 11
error_code file_read_error = 12

-- `error_msgs`
abbrev pub error_msgs : List Str
error_msgs =
    codes "file does not exist"
    ∷ codes "no space left in shell memory"
    ∷ codes "ready queue is full"
    ∷ codes "scheduling policy error"
    ∷ codes "too many tokens"
    ∷ codes "too few tokens"
    ∷ codes "non-alphanumeric token"
    ∷ codes "unknown name"
    ∷ codes "rm"
    ∷ codes "file could not be created"
    ∷ codes "bad filesystem"
    ∷ codes "file could not be written (maybe no space?)"
    ∷ codes "file could not be read"
    ∷ []

-- `isAlphaNumStr`
unfoldable pub all_alnum : Str → Bool
all_alnum [] = true
all_alnum (c ∷ s) = isalnum c && all_alnum s

unfoldable pub is_alpha_num_str : Str → Bool
unfolding all_alnum
is_alpha_num_str [] = false
is_alpha_num_str (c ∷ s) = all_alnum (c ∷ s)

-- the loop of `echo`, which tests every text that is left
unfoldable pub all_alpha_num : Str → Bool
all_alpha_num [] = true
all_alpha_num (c ∷ s) = is_alpha_num_str (c ∷ s) && all_alpha_num s

-- the buffer of `set` for the values, and the one for all of it
abbrev pub value_buffer : ℕ
value_buffer = 505

abbrev pub set_buffer : ℕ
set_buffer = 1000

module _ {W : Type 0} where
  -- `handle_error` of a code, and of a status
  unfoldable pub handle_code : ℕ → Cmd W ℤ
  handle_code code = do
    message ← or_fault (get_elem? error_msgs code)
    printf (line (codes "Bad command: " ++ message))
    pure (pos code)

  unfoldable pub handle_error : Error → Cmd W ℤ
  handle_error e = handle_code (error_code e)

  unfoldable pub handle_status : ℤ → Cmd W ℤ
  handle_status (pos code) = handle_code code
  handle_status (negsuc n) = λ _. fault

  -- The loop of the command `set` over the values: `none` if one of them is not alphanumeric.
  unfoldable pub append_values : Str → List Str → Cmd W (Option Str)
  append_values buffer [] = pure (some buffer)
  append_values buffer (v ∷ vs) = elim (is_alpha_num_str v) [
    | false ↦ pure none
    | true ↦
        let buffer' = buffer ++ v ++ elim vs [ [] ↦ [] | _ ∷ _ ↦ space ∷ [] ] in
        elim (ltb (length buffer') value_buffer) [
          | false ↦ (λ _. fault)
          | true ↦ append_values buffer' vs
        ]
  ]

module _ {W : Type 0} (border : ℕ) where
  -- `set`
  unfoldable pub set_value : Str → Str → Cmd W ℤ
  set_value var value =
      if ltb (length var + 1 + length value) set_buffer
      then (λ k. ok (pos 0, record k { mem = mem_set_value border var value k.mem }))
      else (λ _. fault)

  -- the command `set` of the words behind its name
  unfoldable pub set_cmd : Str → List Str → Cmd W ℤ
  set_cmd var values =
      if not (is_alpha_num_str var) then handle_error non_alphanumeric_token else (do
        buffer ← append_values [] values
        elim buffer [
          | none ↦ handle_error non_alphanumeric_token
          | some value ↦ set_value var value
        ])

  -- `print`
  unfoldable pub print_cmd : Str → Cmd W ℤ
  print_cmd var = do
    value ← gets (λ k. mem_get_value border var true k.mem)
    printf (line value)
    pure (pos 0)

  -- the part of `echo` behind a dollar
  unfoldable pub echo_variable : Str → Cmd W ℤ
  echo_variable var = if not (all_alpha_num var) then handle_error non_alphanumeric_token else (do
    value ← gets (λ k. mem_get_value border var false k.mem)
    printf (line value)
    pure (pos 0))

  -- `echo`
  unfoldable pub echo_cmd : Str → Cmd W ℤ
  unfolding echo_variable
  echo_cmd [] = handle_error non_alphanumeric_token
  echo_cmd (c ∷ var) =
      if c == dollar
      then echo_variable var
      else if not (is_alpha_num_str (c ∷ var))
      then handle_error non_alphanumeric_token
      else (do printf (line (c ∷ var)); pure (pos 0))

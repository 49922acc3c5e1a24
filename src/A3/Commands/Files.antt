-- ===== src/A3/Commands/Files.antt =====
-- The commands of a3/interpreter.c on files, over the file system's operations.
use ecse_427_simple_shell_cr.Base.{
  ℕ, zero, suc, ◌*◌, none, some, List, [], ◌∷◌, ◌++◌, Str, codes, decimal, ◌==◌, if◌then◌else◌,
  length, join_words, atoi, c_string, ℤ, pos, negsuc, eq_ℤ,
}
use ecse_427_simple_shell_cr.A3.LinkedList.{fault}
use ecse_427_simple_shell_cr.A3.State.{Cmd, ◌>>=◌, ◌>>◌, pure, printf, line}
use ecse_427_simple_shell_cr.A3.FileSystem.{FileSystem, fs_call}
use ecse_427_simple_shell_cr.A3.Commands.{
  file_does_not_exist, error_rm, file_creation_error, filesystem_error, file_write_error,
  file_read_error, handle_error, handle_status,
}

module _ {W : Type 0} (fs : FileSystem W) where
  unfoldable pub ls_cmd : Cmd W ℤ
  ls_cmd = do
    status ← fs_call fs.ls
    if eq_ℤ status (pos 1) then handle_error filesystem_error else pure (pos 0)

  unfoldable pub cat_cmd : Str → Cmd W ℤ
  cat_cmd name = do
    status ← fs_call (fs.cat name)
    if eq_ℤ status (pos 1) then handle_error file_does_not_exist else pure (pos 0)

  -- `status` is 0 or 1, and returned
  unfoldable pub rm_cmd : Str → Cmd W ℤ
  rm_cmd name = do
    removed ← fs_call (fs.rm name)
    if removed then pure (pos 1) else handle_error error_rm

  unfoldable pub create_cmd : Str → Str → Cmd W ℤ
  create_cmd name size_arg = do
    created ← fs_call (fs.create name (atoi size_arg))
    if created then pure (pos 0) else handle_error file_creation_error

  -- `buf`: the words, a space between any two, and two zeros; `size` is its length.
  unfoldable pub write_buffer : List Str → List ℕ
  write_buffer words = join_words words ++ 0 ∷ 0 ∷ []

  unfoldable pub write_warning : (bytes_written size : ℕ) → Str
  write_warning bytes_written size =
      codes "Warning: could only write "
      ++ decimal bytes_written
      ++ codes " out of "
      ++ decimal size
      ++ codes " bytes (reached end of file)"

  unfoldable pub write_cmd : Str → List Str → Cmd W ℤ
  unfolding write_buffer write_warning
  write_cmd name words = do
    let buf = write_buffer words
    written ← fs_call (fs.write name buf)
    elim written [
      | none ↦ handle_error file_write_error
      | some n ↦
          if n == length buf
          then pure (pos 0)
          else (do printf (line (write_warning n (length buf))); pure (pos 0))
    ]

  unfoldable pub find_file_cmd : List Str → Cmd W ℤ
  find_file_cmd words = do fs_call (fs.find_file (join_words words)); pure (pos 0)

  -- `return bytes_read == size`
  unfoldable pub read_result : ℤ → Str → Cmd W ℤ
  read_result (negsuc n) bytes = λ _. fault
  read_result (pos n) bytes = do
    printf (line (c_string bytes))
    pure (if length bytes == n then pos 1 else pos 0)

  unfoldable pub read_checked : Str → ℤ → Cmd W ℤ
  unfolding read_result
  read_checked name n = do
    bytes ← fs_call (fs.read name n)
    elim bytes [ none ↦ handle_error file_read_error | some s ↦ read_result n s ]

  -- A negative size but -1 writes through the null pointer that `malloc` returns; with -1 the buffer is
  -- empty, and printing it reads past its end.
  unfoldable pub read_cmd : Str → Str → Cmd W ℤ
  unfolding read_checked
  read_cmd name size_arg = elim (atoi size_arg) [
    | negsuc (suc n) ↦ (λ _. fault)
    | negsuc zero ↦ read_checked name (negsuc zero)
    | pos n ↦ read_checked name (pos n)
  ]

  -- `copy_in` and `copy_out`: a status that is not 0 goes to `handle_error`.
  unfoldable pub check_status : ℤ → Cmd W ℤ
  check_status status = if eq_ℤ status (pos 0) then pure (pos 0) else handle_status status

  unfoldable pub copy_in_cmd : Str → Cmd W ℤ
  unfolding check_status
  copy_in_cmd name = do status ← fs_call (fs.copy_in name); check_status status

  unfoldable pub copy_out_cmd : Str → Cmd W ℤ
  unfolding check_status
  copy_out_cmd name = do status ← fs_call (fs.copy_out name); check_status status

  unfoldable pub size_cmd : Str → Cmd W ℤ
  size_cmd name = do
    found ← fs_call (fs.size name)
    elim found [
      | none ↦ handle_error file_does_not_exist
      | some n ↦ (do printf (line (codes "File length: " ++ decimal n)); pure (pos 0))
    ]

  unfoldable pub seek_cmd : Str → Str → Cmd W ℤ
  seek_cmd name offset = do
    opened ← fs_call (fs.seek name (atoi offset))
    if opened then pure (pos 0) else handle_error file_does_not_exist

  unfoldable pub freespace_cmd : Cmd W ℤ
  freespace_cmd = do
    n ← fs_call fs.freespace
    printf (
        line (
          codes "Num free sectors: "
          ++ decimal n
          ++ codes " ("
          ++ decimal (n * 512)
          ++ codes " total bytes)"))
    pure (pos 0)

  unfoldable pub recover_cmd : Str → Cmd W ℤ
  recover_cmd flag = do fs_call (fs.recover (atoi flag)); pure (pos 0)

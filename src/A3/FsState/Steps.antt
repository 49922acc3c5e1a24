-- ===== src/A3/FsState/Steps.antt =====
-- The steps of calls over the state of a3/fs.
use ecse_427_simple_shell_cr.Base.{ℕ, ◌≡◌, ap, Option, none, some}
use ecse_427_simple_shell_cr.A3.InodeStore.{Call, ◌>>=◌}
use ecse_427_simple_shell_cr.A3.FsState.{Dir, File, Fs, on_inodes, get_dir, get_file}

module _ {S A B : Type 0} where
  pub bind_of_some :
      (f : Call S A) (g : A → Call S B) (s : S) (a : A) (s' : S)
      → f s ≡ some (a, s')
      → (f >>= g) s ≡ g a s'
  bind_of_some f g s a s' e =
      ap (λ x. elim x as (λ _. Option (B × S)) [ none ↦ none | some p ↦ g p.0 p.1 ]) e

module _ {S : Type 0} where
  pub on_inodes_of_some :
      {A : Type 0} (f : Call S A) (s : Fs S) (a : A) (s1 : S)
      → f s.inodes ≡ some (a, s1)
      → on_inodes f s ≡ some (a, record s { inodes = s1 })
  on_inodes_of_some {A} f s a s1 e =
      ap
        (λ x. elim x as (λ _. Option (A × Fs S)) [
          | none ↦ none
          | some r ↦ some (r.0, record s { inodes = r.1 })
        ])
        e

  pub get_dir_of_some : (p : ℕ) (s : Fs S) (d : Dir) → s.dirs p ≡ some d → get_dir p s ≡ some (d, s)
  get_dir_of_some p s d e =
      ap (λ x. elim x as (λ _. Option (Dir × Fs S)) [ none ↦ none | some y ↦ some (y, s) ]) e

  pub get_file_of_some :
      (p : ℕ) (s : Fs S) (f : File) → s.files p ≡ some f → get_file p s ≡ some (f, s)
  get_file_of_some p s f e =
      ap (λ x. elim x as (λ _. Option (File × Fs S)) [ none ↦ none | some y ↦ some (y, s) ]) e

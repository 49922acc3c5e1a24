-- ===== src/A3/Directory/Keeps.antt =====
-- Calls that leave the pointer `cwd` of a3/fs/directory.c at an open directory: how they compose.
use ecse_427_simple_shell_cr.Base.{
  ℕ, ◌≤◌, ◌≡◌, refl, Bool, true, false, Option, none, some, ◌==◌, if◌then◌else◌, inl, inr,
  Bool-cases,
}
use ecse_427_simple_shell_cr.A3.InodeStore.{Call, ◌>>=◌, ◌>>◌, pure}
use ecse_427_simple_shell_cr.A3.FsState.{
  Dir, Fs, put, on_inodes, get_cwd, set_cwd, new_dir, get_dir, put_dir,
}

-- `cwd`, where it is set, is a directory that is open.
abbrev pub CwdLive : {S : Type 0} → Fs S → Type 0
CwdLive s = (p : ℕ) → s.cwd ≡ some p → (d : Dir) × (s.dirs p ≡ some d) × (1 ≤ d.open_cnt)

-- A result that is none, or a state that is so.
abbrev pub Fine : {S A : Type 0} → Option (A × Fs S) → Type 0
Fine none = Unit {0}
Fine (some r) = CwdLive r.1

-- A call that leaves `cwd` so, where it ends well.
pub record Keeps {S A : Type 0} (f : Call (Fs S) A) : Type 0 where
  pub at : (s : Fs S) → CwdLive s → Fine (f s)

-- the write of a directory that is open
put-live :
    (dirs : ℕ → Option Dir) (p q : ℕ) (new : Dir)
    → 1 ≤ new.open_cnt
    → (d : Dir) × (dirs q ≡ some d) × (1 ≤ d.open_cnt)
    → (d : Dir) × (put dirs p (some new) q ≡ some d) × (1 ≤ d.open_cnt)
put-live dirs p q new one (d, e, le) = elim (Bool-cases (q == p)) [
  | inl t ↦ (new, rw t refl, one)
  | inr f ↦ (d, rw f e, le)
]

cleared-Fine :
    {S A : Type 0} (r : Option (A × Fs S))
    → Fine (elim r as (λ _. Option (Unit {0} × Fs S)) [ none ↦ none | some p ↦ set_cwd none p.1 ])
cleared-Fine none = tt
cleared-Fine (some (a, s1)) = λ p e. cc

module _ {S A B : Type 0} where
  bind-Fine :
      (r : Option (A × Fs S)) (g : A → Call (Fs S) B)
      → Fine r
      → ((a : A) → Keeps (g a))
      → Fine (elim r as (λ _. Option (B × Fs S)) [ none ↦ none | some p ↦ g p.0 p.1 ])
  bind-Fine none g h k = tt
  bind-Fine (some (a, s1)) g h k = (k a).at s1 h

  pub bind-Keeps :
      (f : Call (Fs S) A) (g : A → Call (Fs S) B)
      → Keeps f
      → ((a : A) → Keeps (g a))
      → Keeps (f >>= g)
  bind-Keeps f g kf kg = record { at = λ s live. bind-Fine (f s) g (kf.at s live) kg }

  pub option-Keeps :
      (x : Option A) (f : Call (Fs S) B) (g : A → Call (Fs S) B)
      → Keeps f
      → ((a : A) → Keeps (g a))
      → Keeps (elim x as (λ _. Call (Fs S) B) [ none ↦ f | some a ↦ g a ])
  option-Keeps none f g kf kg = kf
  option-Keeps (some a) f g kf kg = kg a

module _ {S A : Type 0} where
  pub pure-Keeps : (a : A) → Keeps (pure {S = Fs S} a)
  pure-Keeps a = record { at = λ s live. live }

  pub if-Keeps : (c : Bool) (f g : Call (Fs S) A) → Keeps f → Keeps g → Keeps (if c then f else g)
  if-Keeps true f g kf kg = kf
  if-Keeps false f g kf kg = kg

  on_inodes-Fine :
      (r : Option (A × S)) (s : Fs S)
      → CwdLive s
      → Fine (elim r as (λ _. Option (A × Fs S)) [
        | none ↦ none
        | some p ↦ some (p.0, record s { inodes = p.1 })
      ])
  on_inodes-Fine none s live = tt
  on_inodes-Fine (some p) s live = live

  pub on_inodes-Keeps : (f : Call S A) → Keeps (on_inodes f)
  on_inodes-Keeps f = record { at = λ s live. on_inodes-Fine (f s.inodes) s live }

module _ {S : Type 0} where
  -- a call after which `cwd` is cleared
  pub clear-Keeps : {A : Type 0} (f : Call (Fs S) A) → Keeps (f >> set_cwd none)
  clear-Keeps f = record { at = λ s live. cleared-Fine (f s) }

module _ {S : Type 0} where
  get_dir-Fine :
      (r : Option Dir) (s : Fs S)
      → CwdLive s
      → Fine (elim r as (λ _. Option (Dir × Fs S)) [ none ↦ none | some d ↦ some (d, s) ])
  get_dir-Fine none s live = tt
  get_dir-Fine (some d) s live = live

  pub get_cwd-Keeps : Keeps (get_cwd {S = S})
  get_cwd-Keeps = record { at = λ s live. live }

  pub get_dir-Keeps : (p : ℕ) → Keeps (get_dir {S = S} p)
  get_dir-Keeps p = record { at = λ s live. get_dir-Fine (s.dirs p) s live }

  pub put_dir-Keeps : (p : ℕ) (new : Dir) → 1 ≤ new.open_cnt → Keeps (put_dir {S = S} p (some new))
  put_dir-Keeps p new one = record { at = λ s live q e. put-live s.dirs p q new one (live q e) }

  pub new_dir-Keeps : (new : Dir) → 1 ≤ new.open_cnt → Keeps (new_dir {S = S} new)
  new_dir-Keeps new one = record {
    at = λ s live q e. put-live s.dirs s.next_dir q new one (live q e);
  }

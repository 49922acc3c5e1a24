-- ===== src/A3/Inode/Marked.antt =====
-- What the bitmap of the free map does, and calls of a3/fs that clear no bit of it.
use ecse_427_simple_shell_cr.Base.{
  ℕ, ◌≡◌, ◌≢◌, Bool, true, false, Option, none, some, if◌then◌else◌,
}
use ecse_427_simple_shell_cr.A3.Cache.{Cache}
use ecse_427_simple_shell_cr.A3.InodeStore.{Call, ◌>>=◌, pure, panic}
use ecse_427_simple_shell_cr.A3.FreeMap.{Bitmap, Disk, on_cache}

-- What bitmap.c documents of a search for one clear bit and of a change of one bit.
pub record IsBitmap {B : Type 0} (lib : Bitmap B) (marked : B → ℕ → Bool) : Type 0 where
  pub found :
      (b : B) (i : ℕ) → (lib.bitmap_scan_and_flip b 0 1 false).0 ≡ some i → marked b i ≡ false
  pub flipped :
      (b : B) (j : ℕ) → marked b j ≡ true → marked (lib.bitmap_scan_and_flip b 0 1 false).1 j ≡ true
  pub cleared :
      (b : B) (i j : ℕ) → j ≢ i → marked (lib.bitmap_set_multiple b i 1 false) j ≡ marked b j

module _ {B : Type 0} (marked : B → ℕ → Bool) where
  -- Every sector that is marked before is marked after the call, if it returns.
  abbrev pub Grown : {A : Type 0} → Disk B → Option (A × Disk B) → Type 0
  Grown s none = Unit {0}
  Grown s (some r) = (j : ℕ) → marked s.free_map j ≡ true → marked r.1.free_map j ≡ true

  pub record Grows {A : Type 0} (f : Call (Disk B) A) : Type 0 where
    pub at : (s : Disk B) → Grown s (f s)

module _ {B A C : Type 0} (marked : B → ℕ → Bool) where
  bind-Grown :
      (s : Disk B) (r : Option (A × Disk B)) (g : A → Call (Disk B) C)
      → Grown marked s r
      → ((a : A) → Grows marked (g a))
      → Grown marked s (elim r as (λ _. Option (C × Disk B)) [ none ↦ none | some p ↦ g p.0 p.1 ])
  bind-Grown s none g h k = tt
  bind-Grown s (some (a, s1)) g h k = chain s s1 (g a s1) h ((k a).at s1)
    where
      chain :
          (s s1 : Disk B) (r : Option (C × Disk B))
          → ((j : ℕ) → marked s.free_map j ≡ true → marked s1.free_map j ≡ true)
          → Grown marked s1 r
          → Grown marked s r
      chain s s1 none h k = tt
      chain s s1 (some p) h k = λ j t. k j (h j t)

  pub bind-Grows :
      (f : Call (Disk B) A) (g : A → Call (Disk B) C)
      → Grows marked f
      → ((a : A) → Grows marked (g a))
      → Grows marked (f >>= g)
  bind-Grows f g kf kg = record { at = λ s. bind-Grown s (f s) g (kf.at s) kg }

  pub option-Grows :
      (x : Option A) (f : Call (Disk B) C) (g : A → Call (Disk B) C)
      → Grows marked f
      → ((a : A) → Grows marked (g a))
      → Grows marked (elim x as (λ _. Call (Disk B) C) [ none ↦ f | some a ↦ g a ])
  option-Grows none f g kf kg = kf
  option-Grows (some a) f g kf kg = kg a

module _ {B A : Type 0} (marked : B → ℕ → Bool) where
  pub pure-Grows : (a : A) → Grows marked (pure {S = Disk B} a)
  pure-Grows a = record { at = λ s j t. t }

  pub panic-Grows : Grows marked (panic {S = Disk B} {A = A})
  panic-Grows = record { at = λ s. tt }

  pub if-Grows :
      (c : Bool) (f g : Call (Disk B) A)
      → Grows marked f
      → Grows marked g
      → Grows marked (if c then f else g)
  if-Grows true f g kf kg = kf
  if-Grows false f g kf kg = kg

  on_cache-Grown :
      (s : Disk B) (r : Option (A × Cache))
      → Grown marked s (elim r as (λ _. Option (A × Disk B)) [
        | none ↦ none
        | some p ↦ some (p.0, record s { cache = p.1 })
      ])
  on_cache-Grown s none = tt
  on_cache-Grown s (some p) = λ j t. t

  pub on_cache-Grows : (f : Cache → Option (A × Cache)) → Grows marked (on_cache f)
  on_cache-Grows f = record { at = λ s. on_cache-Grown s (f s.cache) }

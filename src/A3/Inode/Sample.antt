-- ===== src/A3/Inode/Sample.antt =====
-- A disk with one open inode, for runs of a3/fs: a bitmap of booleans, and a file of at most a sector.
use ecse_427_simple_shell_cr.A3.Inode.Lawful.{Holds, IsPlain}
use ecse_427_simple_shell_cr.A3.Inode.Sectors.{collect-cong}
use ecse_427_simple_shell_cr.A3.Inode.{entry}
use ecse_427_simple_shell_cr.A3.Inode.RoundTrip.{direct-Laid, file_byte-byte_in}
use ecse_427_simple_shell_cr.A3.Inode.Overlay.{entry-append_lt}
use ecse_427_simple_shell_cr.A3.Inode.Written.{whole_buffer}
use ecse_427_simple_shell_cr.A3.Inode.Read.{file_byte}
use ecse_427_simple_shell_cr.Base.{
  ℕ, zero, suc, ◌≡◌, ◌+◌, ◌-◌, ◌++◌, ◌%◌, ◌/◌, ◌<◌, ◌≤◌, sym, ◌∙◌, inl, inr, Bool-cases,
  length-append, ◌≢◌, refl, ap, Bool, true, false, Option, none, some, List, [], ◌∷◌, ◌==◌,
  if◌then◌else◌, length, replicate, length-replicate, arith,
}
use ecse_427_simple_shell_cr.A3.Cache.{Block, Entry, Cache, buffer_cache_size, buffer_cache_init}
use ecse_427_simple_shell_cr.A3.Cache.Close.{buffer_cache_init-Represents}
use ecse_427_simple_shell_cr.A3.InodeStore.Laws.{View}
use ecse_427_simple_shell_cr.A3.FreeMap.{Bitmap, Inode, Disk}
use ecse_427_simple_shell_cr.A3.Inode.Marked.{IsBitmap}
use mathlib.Core.Path.{subst}
use ecse_427_simple_shell_cr.A3.Inode.Store.{file_bytes}

abbrev pub marked : List Bool → ℕ → Bool
marked [] j = false
marked (b ∷ bs) zero = b
marked (b ∷ bs) (suc j) = marked bs j

abbrev next_index : Option ℕ → Option ℕ
next_index none = none
next_index (some i) = some (suc i)

-- the first bit that is clear, and the bits with it set
abbrev flip_first : List Bool → Option ℕ × List Bool
flip_first [] = (none, [])
flip_first (false ∷ bs) = (some 0, true ∷ bs)
flip_first (true ∷ bs) = (next_index (flip_first bs).0, true ∷ (flip_first bs).1)

abbrev clear : List Bool → ℕ → List Bool
clear [] i = []
clear (b ∷ bs) zero = false ∷ bs
clear (b ∷ bs) (suc i) = b ∷ clear bs i

abbrev pub bits : Bitmap (List Bool)
bits = record {
  bitmap_scan_and_flip = λ b start cnt value. flip_first b;
  bitmap_set_multiple = λ b start cnt value. clear b start;
  bitmap_all = λ b start cnt. marked b start;
  bitmap_count = λ b start cnt value. 0;
  bitmap_size = λ b. length b;
  bitmap_write = λ b c. some (true, c);
}

next_index-clear :
    (bs : List Bool) (x : Option ℕ)
    → ((i : ℕ) → x ≡ some i → marked bs i ≡ false)
    → (i : ℕ) → next_index x ≡ some i
    → marked (true ∷ bs) i ≡ false
next_index-clear bs none h i e = cc
next_index-clear bs (some k) h zero e = let same : suc k ≡ 0 = cc in absurd (omega arith)
next_index-clear bs (some k) h (suc i) e =
    let same : suc k ≡ suc i = cc in h i (ap some (omega arith))

flip_first-found : (bs : List Bool) (i : ℕ) → (flip_first bs).0 ≡ some i → marked bs i ≡ false
flip_first-found [] i e = refl
flip_first-found (false ∷ bs) zero e = refl
flip_first-found (false ∷ bs) (suc i) e = let same : 0 ≡ suc i = cc in absurd (omega arith)
flip_first-found (true ∷ bs) i e = next_index-clear bs (flip_first bs).0 (flip_first-found bs) i e

flip_first-flipped :
    (bs : List Bool) (j : ℕ) → marked bs j ≡ true → marked (flip_first bs).1 j ≡ true
flip_first-flipped [] j e = e
flip_first-flipped (false ∷ bs) zero e = refl
flip_first-flipped (false ∷ bs) (suc j) e = e
flip_first-flipped (true ∷ bs) zero e = refl
flip_first-flipped (true ∷ bs) (suc j) e = flip_first-flipped bs j e

clear-other : (bs : List Bool) (i j : ℕ) → j ≢ i → marked (clear bs i) j ≡ marked bs j
clear-other [] i j n = refl
clear-other (b ∷ bs) zero zero n = absurd (n refl)
clear-other (b ∷ bs) zero (suc j) n = refl
clear-other (b ∷ bs) (suc i) zero n = refl
clear-other (b ∷ bs) (suc i) (suc j) n = clear-other bs i j (λ e. n (ap suc e))

pub bits-IsBitmap : IsBitmap bits marked
bits-IsBitmap = record {
  found = flip_first-found;
  flipped = flip_first-flipped;
  cleared = clear-other;
}

abbrev pub blank : Entry
blank = record { occupied = false; disk_sector = 0; buffer = []; dirty = false; access = false }

-- the state at the start, over a device
abbrev pub raw : (ℕ → Block) → Cache
raw blocks = record { entries = replicate buffer_cache_size blank; clock = 0; device = blocks }

module _ (p : ℕ) (bytes : List ℕ) where
  -- the file is in sector 7
  abbrev pub sample_blocks : ℕ → Block
  sample_blocks s = if s == 7 then bytes ++ replicate (512 - length bytes) 0 else replicate 512 0

  abbrev pub sample_inode : Inode
  sample_inode = record {
    sector = p;
    open_cnt = 1;
    removed = false;
    deny_write_cnt = 0;
    disk = record {
      direct_blocks = 7 ∷ replicate 122 0;
      indirect_block = 0;
      doubly_indirect_block = 0;
      is_dir = false;
      length = length bytes;
      magic = 1229868868;
    };
  }

  abbrev pub sample : Disk (List Bool)
  sample = record {
    cache = buffer_cache_init (raw sample_blocks);
    free_map = true ∷ true ∷ false ∷ [];
    has_file = true;
    inodes = λ q. if q == p then some sample_inode else none;
    next_inode = p + 1;
    open_inodes = p ∷ [];
  }

  abbrev pub sample_view : View
  sample_view q = if q == p then some bytes else none

  found_sample :
      {A : Type 0} (q : ℕ) (x y : A)
      → (if q == p then some x else none) ≡ some y
      → (q ≡ p) × (x ≡ y)
  found_sample q x y e = elim (Bool-cases (q == p)) [
    | inl t ↦
        let known : some x ≡ some y = ap (λ b. if b then some x else none) (sym t) ∙ e in
        (ground arith, cc)
    | inr f ↦ let known : none ≡ some y = ap (λ b. if b then some x else none) (sym f) ∙ e in cc
  ]

  module _ (fits : length bytes ≤ 512) where
    sized : (s : ℕ) → length (sample_blocks s) ≡ 512
    sized s = elim (Bool-cases (s == 7)) [
      | inl t ↦ rw t (
          length-append bytes (replicate (512 - length bytes) 0)
          ∙ omega (arith, length-replicate {A = ℕ} (512 - length bytes) 0))
      | inr f ↦ rw f (length-replicate {A = ℕ} 512 0)
    ]

    sample-bytes : bytes ≡ file_bytes sample_blocks sample_inode.disk
    unfolding entry
    sample-bytes =
        let d = sample_inode.disk in
        whole_buffer bytes
        ∙ collect-cong (entry bytes) (file_byte sample_blocks d) (length bytes) 0 0 λ j' lt'.
          let j = 0 + j' in
          let lt : j < length bytes = omega arith in
          let first : j / 512 ≡ 0 = omega arith in
          let place : j % 512 ≡ j = omega arith in
          sym (
            file_byte-byte_in d (entry d.direct_blocks) sample_blocks j
              (direct-Laid d (omega arith) sample_blocks sized) lt
            ∙ rw (first, place) (entry-append_lt bytes (replicate (512 - length bytes) 0) j lt))

    sample-IsPlain : IsPlain sample_inode
    unfolding entry
    sample-IsPlain = record {
      writable = refl;
      direct = omega arith;
      numbered = λ a lt. let first : a / 512 ≡ 0 = omega arith in rw first (omega arith);
    }

    pub sample-Holds : Holds sample sample_view
    sample-Holds = record {
      contents = sample_blocks;
      sized = sized;
      represents =
          buffer_cache_init-Represents (raw sample_blocks)
            (length-replicate buffer_cache_size blank) (omega arith);
      inodes = record {
        plain = λ q i e. subst IsPlain (found_sample q sample_inode i e).1 sample-IsPlain;
        apart = λ q r i j a b e e' lt lt' same.
            let (here, same1) = found_sample q sample_inode i e in
            let (here', same2) = found_sample r sample_inode j e' in
            let l1 = ap (λ x. x.disk.length) same1 in
            let l2 = ap (λ x. x.disk.length) same2 in (omega arith, omega arith);
      };
      files = λ q bs e.
          let (here, same) = found_sample q bytes bs e in
          let found : (q == p) ≡ true = ground arith in
          (sample_inode, rw found refl, sym same ∙ sample-bytes);
    }

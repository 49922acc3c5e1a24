-- ===== src/A3/Inode/Overlay.antt =====
-- The bytes of a sector into which `inode_write_at` of a3/fs/inode.c has put a chunk.
use ecse_427_simple_shell_cr.Base.{
  ℕ, zero, suc, ◌+◌, ◌-◌, ◌<◌, ◌≤◌, ◌≡◌, refl, sym, ap, ◌∙◌, inl, inr, true, ◌&&◌, ◌||◌, List, [],
  ◌∷◌, ◌++◌, ltb, ◌==◌, if◌then◌else◌, length, length-append, append-nil, take, drop, arith,
  Bool-cases,
}
use mathlib.Core.Path.{subst}
use ecse_427_simple_shell_cr.A3.Cache.{Block, Cache, buffer_cache_read}
use ecse_427_simple_shell_cr.A3.Cache.Represents.{Represents}
use ecse_427_simple_shell_cr.A3.Cache.Refine.{buffer_cache_write-Represents}
use ecse_427_simple_shell_cr.A3.Inode.{entry}
use ecse_427_simple_shell_cr.A3.Inode.Sectors.{Gives, bind-Gives, read-Gives}
use ecse_427_simple_shell_cr.A3.Inode.Write.{write_sector, overlay, write_chunk}

pub entry-append_lt : (a b : List ℕ) (j : ℕ) → j < length a → entry (a ++ b) j ≡ entry a j
unfolding entry
entry-append_lt [] b j lt = absurd (omega arith)
entry-append_lt (x ∷ a) b zero lt = refl
entry-append_lt (x ∷ a) b (suc j) lt = entry-append_lt a b j (omega arith)

entry-append_ge : (a b : List ℕ) (j : ℕ) → length a ≤ j → entry (a ++ b) j ≡ entry b (j - length a)
unfolding entry
entry-append_ge [] b j le = ap (entry b) (omega arith)
entry-append_ge (x ∷ a) b zero le = absurd (omega arith)
entry-append_ge (x ∷ a) b (suc j) le =
    entry-append_ge a b j (omega arith) ∙ ap (entry b) (omega arith)

entry-take : (k j : ℕ) (b : List ℕ) → j < k → entry (take k b) j ≡ entry b j
unfolding entry
entry-take zero j b lt = absurd (omega arith)
entry-take (suc k) j [] lt = refl
entry-take (suc k) zero (x ∷ b) lt = refl
entry-take (suc k) (suc j) (x ∷ b) lt = entry-take k j b (omega arith)

pub entry-drop : (k j : ℕ) (b : List ℕ) → entry (drop k b) j ≡ entry b (k + j)
unfolding entry
entry-drop zero j b = ap (entry b) (omega arith)
entry-drop (suc k) j [] = refl
entry-drop (suc k) j (x ∷ b) =
    let next : suc k + j ≡ suc (k + j) = omega arith in rw next (entry-drop k j b)

length-take : (k : ℕ) (b : List ℕ) → k ≤ length b → length (take k b) ≡ k
length-take zero b le = refl
length-take (suc k) [] le = absurd (omega arith)
length-take (suc k) (x ∷ b) le = ap suc (length-take k b (omega arith))

pub length-drop : (k : ℕ) (b : List ℕ) → length (drop k b) ≡ length b - k
length-drop zero b = omega arith
length-drop (suc k) [] = omega arith
length-drop (suc k) (x ∷ b) = length-drop k b ∙ omega arith

drop-all : (k : ℕ) (b : List ℕ) → length b ≡ k → drop k b ≡ []
drop-all zero [] e = refl
drop-all zero (x ∷ b) e = absurd (omega arith)
drop-all (suc k) [] e = refl
drop-all (suc k) (x ∷ b) e = drop-all k b (omega arith)

-- The bytes of the chunk stand in their place, and the others are as they were.
pub entry-overlay :
    (k n j : ℕ) (b u : List ℕ)
    → k + n ≤ length b
    → n ≤ length u
    → entry (overlay k n b u) j
      ≡ (if ltb j k then entry b j else if ltb j (k + n) then entry u (j - k) else entry b j)
unfolding overlay
entry-overlay k n j b u le le' =
    let rest = take n u ++ drop (k + n) b in
    let len = length-take k b (omega arith) in
    let len' = length-take n u le' in
    elim (Bool-cases (ltb j k)) [
      | inl t ↦
          let lt : j < k = ground arith in
          rw t (entry-append_lt (take k b) rest j (omega arith) ∙ entry-take k j b lt)
      | inr f ↦
          let ge : k ≤ j = ground arith in
          let place : j - length (take k b) ≡ j - k = omega arith in
          rw f (
            entry-append_ge (take k b) rest j (omega arith)
            ∙ ap (entry rest) place
            ∙ elim (Bool-cases (ltb j (k + n))) [
              | inl t ↦
                  let lt : j - k < n = ground arith in
                  rw t (
                    entry-append_lt (take n u) (drop (k + n) b) (j - k) (omega arith)
                    ∙ entry-take n (j - k) u lt)
              | inr g ↦
                  let behind : k + n ≤ j = ground arith in
                  let back : k + n + (j - k - length (take n u)) ≡ j = omega arith in
                  rw g (
                    entry-append_ge (take n u) (drop (k + n) b) (j - k) (omega arith)
                    ∙ entry-drop (k + n) _ b
                    ∙ ap (entry b) back)
            ])
    ]

pub length-overlay :
    (k n : ℕ) (b u : List ℕ) → k + n ≤ length b → n ≤ length u → length (overlay k n b u) ≡ length b
unfolding overlay
length-overlay k n b u le le' =
    length-append (take k b) (take n u ++ drop (k + n) b)
    ∙ omega (
      arith,
      length-append (take n u) (drop (k + n) b),
      length-take k b,
      length-take n u le',
      length-drop (k + n) b,
    )

-- the contents with another block in one sector
abbrev pub updated : (ℕ → Block) → ℕ → Block → ℕ → Block
updated m s b t = if t == s then b else m t

write_sector-Gives :
    (m : ℕ → Block) (s : ℕ) (b : Block) (c : Cache)
    → Represents c m
    → Gives (write_sector s b) c (updated m s b) tt
unfolding write_sector
write_sector-Gives m s b c r =
    let (c', e, r') = buffer_cache_write-Represents s b c m r in (c', rw (e, write_sector) refl, r')

overlay-whole : (b u : List ℕ) → length b ≡ 512 → overlay 0 512 b u ≡ take 512 u
unfolding overlay
overlay-whole b u e = ap (◌++◌ (take 512 u)) (drop-all 512 b e) ∙ append-nil _

-- A chunk inside a sector is put over the block of the sector.
pub write_chunk-Gives :
    (m : ℕ → Block) (s k n : ℕ) (buffer : List ℕ) (c : Cache)
    → length (m s) ≡ 512
    → k + n ≤ 512
    → n ≤ length buffer
    → Represents c m
    → Gives (write_chunk s k n buffer) c (updated m s (overlay k n (m s) buffer)) tt
unfolding write_chunk
write_chunk-Gives m s k n buffer c sized le le' r = elim (Bool-cases ((k == 0) && (n == 512))) [
  | inl t ↦
      let at_start : k ≡ 0 = ground arith in
      let whole : n ≡ 512 = ground arith in
      rw (at_start, whole)
        (subst (λ b. Gives (write_sector s (take 512 buffer)) c (updated m s b) tt)
          (sym (overlay-whole (m s) buffer sized)) (write_sector-Gives m s (take 512 buffer) c r))
  | inr f ↦
      let part : (ltb 0 k || ltb n (512 - k)) ≡ true = ground arith in
      rw (f, part)
        (bind-Gives m (buffer_cache_read s) _ c (m s) tt (read-Gives m s c r)
          λ c1 r1. write_sector-Gives m s (overlay k n (m s) buffer) c1 r1)
]

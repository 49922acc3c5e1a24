-- ===== src/A3/Inode/Written.antt =====
-- The bytes of a file of a3/fs/inode.c as a list, after a write inside it.
use ecse_427_simple_shell_cr.Base.{
  ℕ, zero, suc, [], ◌∷◌, ◌+◌, ◌-◌, ◌<◌, ◌≤◌, ◌≡◌, refl, sym, ap, ◌∙◌, true, false, ◌&&◌, List, ◌++◌,
  ltb, leb, length, take, drop, arith,
}
use ecse_427_simple_shell_cr.A3.InodeStore.Laws.{overwrite}
use ecse_427_simple_shell_cr.A3.Inode.{entry, collect}
use ecse_427_simple_shell_cr.A3.Inode.Sectors.{collect-cong, collect-add}
use ecse_427_simple_shell_cr.A3.Inode.Read
use ecse_427_simple_shell_cr.A3.Inode.Chunks.{after_write}
use ecse_427_simple_shell_cr.A3.Inode.Store.{drop-collect, take-collect}

pub length-collect : (f : ℕ → ℕ) (n i : ℕ) → length (collect f n i) ≡ n
unfolding collect
length-collect f zero i = refl
length-collect f (suc n) i = ap suc (length-collect f n (i + 1))

all_taken : (xs : List ℕ) → take (length xs) xs ≡ xs
all_taken [] = refl
all_taken (x ∷ xs) = ap (◌∷◌ x) (all_taken xs)

pub whole_buffer : (buffer : List ℕ) → buffer ≡ collect (entry buffer) (length buffer) 0
whole_buffer buffer =
    sym (all_taken buffer) ∙ Read.take-collect (length buffer) buffer (omega arith)

-- A list of bytes, of which those of a buffer were written over some, is the list overwritten.
pub collect-overwrite :
    (old new : ℕ → ℕ) (n offset : ℕ) (buffer : List ℕ)
    → offset + length buffer ≤ n
    → ((p : ℕ) → p < n → new p ≡ after_write offset (length buffer) buffer old p)
    → collect new n 0 ≡ overwrite (collect old n 0) offset buffer
unfolding overwrite
collect-overwrite old new n offset buffer fits h =
    let k = length buffer in
    let rest = n - (offset + k) in
    let whole : n ≡ offset + (k + rest) = omega arith in
    let front : collect new offset 0 ≡ take offset (collect old n 0) =
      collect-cong new old offset 0 0 (λ j lt.
        let out : (leb offset (0 + j) && ltb (0 + j) (offset + k)) ≡ false = ground arith in
        h (0 + j) (omega arith) ∙ rw out refl)
      ∙ ap (λ l. collect old l 0) (ground arith)
      ∙ sym (take-collect old offset n 0) in
    let middle : collect new k (0 + offset) ≡ buffer =
      collect-cong new (entry buffer) k (0 + offset) 0 (λ j lt.
        let inside : (leb offset (0 + offset + j) && ltb (0 + offset + j) (offset + k)) ≡ true =
          ground arith in
        let place : 0 + offset + j - offset ≡ 0 + j = omega arith in
        h (0 + offset + j) (omega arith) ∙ rw inside (ap (entry buffer) place))
      ∙ sym (whole_buffer buffer) in
    let back : collect new rest (0 + offset + k) ≡ drop (offset + k) (collect old n 0) =
      collect-cong new old rest (0 + offset + k) (0 + (offset + k)) (λ j lt.
        let out : (leb offset (0 + offset + k + j) && ltb (0 + offset + k + j) (offset + k))
            ≡ false =
          ground arith in
        let place : 0 + offset + k + j ≡ 0 + (offset + k) + j = omega arith in
        h (0 + offset + k + j) (omega arith) ∙ rw out (ap old place))
      ∙ sym (drop-collect old (offset + k) n 0) in
    ap (λ l. collect new l 0) whole
    ∙ collect-add new offset (k + rest) 0
    ∙ ap (λ r. collect new offset 0 ++ r) (collect-add new k rest (0 + offset))
    ∙ rw (front, middle, back) refl

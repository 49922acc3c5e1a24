-- ===== src/A3/Files/Overwrites.antt =====
-- Bytes written over bytes that were written before, for the writes of a3/fs/file.c.
use ecse_427_simple_shell_cr.Base.{
  ℕ, zero, suc, ◌+◌, ◌-◌, ◌≤◌, ◌≡◌, refl, sym, ap, ◌∙◌, List, [], ◌∷◌, ◌++◌, length, drop, arith,
  drop-drop, drop-append_le,
}
use ecse_427_simple_shell_cr.A3.InodeStore.Laws.{overwrite}

overwrite-suc :
    (x : ℕ) (xs new : List ℕ) (k : ℕ) → overwrite (x ∷ xs) (suc k) new ≡ x ∷ overwrite xs k new
unfolding overwrite
overwrite-suc x xs new k =
    let s : suc k + length new ≡ suc (k + length new) = omega arith in rw s refl

overwrite_cons :
    (x : ℕ) (new xs : List ℕ) → overwrite xs 0 (x ∷ new) ≡ x ∷ overwrite (drop 1 xs) 0 new
unfolding overwrite
overwrite_cons x new xs =
    ap (λ r. x ∷ (new ++ r))
      (ap (λ k. drop k xs) {y = 1 + (0 + length new)} (omega arith)
        ∙ sym (drop-drop (0 + length new) 1 xs))

-- bytes that are written over the end of others
overwrite_first :
    (a b c xs : List ℕ)
    → length b ≤ length c
    → overwrite (overwrite xs 0 (a ++ b)) (length a) c ≡ overwrite xs 0 (a ++ c)
unfolding overwrite
overwrite_first [] b c xs le =
    ap (λ r. c ++ r)
      (ap (λ k. drop k (b ++ drop (0 + length b) xs)) {y = length c} (omega arith)
        ∙ drop-append_le (length c) b (drop (0 + length b) xs) le
        ∙ drop-drop (length c - length b) (0 + length b) xs
        ∙ ap (λ k. drop k xs) {y = 0 + length c} (omega arith))
overwrite_first (x ∷ a) b c xs le =
    ap (λ l. overwrite l (suc (length a)) c) (overwrite_cons x (a ++ b) xs)
    ∙ overwrite-suc x (overwrite (drop 1 xs) 0 (a ++ b)) c (length a)
    ∙ ap (◌∷◌ x) (overwrite_first a b c (drop 1 xs) le)
    ∙ sym (overwrite_cons x (a ++ c) xs)

pub overwrite-overwrite :
    (p : ℕ) (a b c xs : List ℕ)
    → length b ≤ length c
    → p ≤ length xs
    → overwrite (overwrite xs p (a ++ b)) (p + length a) c ≡ overwrite xs p (a ++ c)
overwrite-overwrite zero a b c xs le in_xs =
    ap (λ k. overwrite (overwrite xs 0 (a ++ b)) k c) {y = length a} (omega arith)
    ∙ overwrite_first a b c xs le
overwrite-overwrite (suc p) a b c [] le in_xs = absurd (omega arith)
overwrite-overwrite (suc p) a b c (x ∷ xs) le in_xs =
    let s : suc p + length a ≡ suc (p + length a) = omega arith in
    rw (
      overwrite-suc x xs (a ++ b) p,
      s,
      overwrite-suc x (overwrite xs p (a ++ b)) c (p + length a),
      overwrite-suc x xs (a ++ c) p,
      overwrite-overwrite p a b c xs le (omega arith),
    )

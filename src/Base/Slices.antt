-- ===== src/Base/Slices.antt =====
-- Lemmas on the beginning and the end of a list.
use Prim.Native.Nat.{ℕ, zero, suc, ◌+◌, ◌-◌, ◌≤◌}
use mathlib.Core.Path.{◌≡◌, refl, ap, ◌∙◌}
use mathlib.Core.List.{List, [], ◌∷◌, ◌++◌}
use native.Mathlib.Omega.{arith}
use ecse_427_simple_shell_cr.Base.Lists.{length, take, drop}

module _ {A : Type 0} where
  pub length-drop : (n : ℕ) (xs : List A) → length (drop n xs) ≡ length xs - n
  length-drop zero xs = omega arith
  length-drop (suc n) [] = omega arith
  length-drop (suc n) (x ∷ xs) = let rest = length-drop n xs in omega arith

  pub drop-drop : (m n : ℕ) (xs : List A) → drop m (drop n xs) ≡ drop (n + m) xs
  drop-drop m zero xs = ap (λ k. drop k xs) (omega arith)
  drop-drop zero (suc n) [] = let s : suc n + 0 ≡ suc n = omega arith in rw s refl
  drop-drop (suc m) (suc n) [] = let s : suc n + suc m ≡ suc (n + suc m) = omega arith in rw s refl
  drop-drop m (suc n) (x ∷ xs) =
      let s : suc n + m ≡ suc (n + m) = omega arith in rw s (drop-drop m n xs)

  pub take-append : (xs ys : List A) → take (length xs) (xs ++ ys) ≡ xs
  take-append [] ys = refl
  take-append (x ∷ xs) ys = ap (◌∷◌ x) (take-append xs ys)

  pub drop-append : (xs ys : List A) → drop (length xs) (xs ++ ys) ≡ ys
  drop-append [] ys = refl
  drop-append (x ∷ xs) ys = drop-append xs ys

  pub length-take_le : (n : ℕ) (xs : List A) → n ≤ length xs → length (take n xs) ≡ n
  length-take_le zero xs le = refl
  length-take_le (suc n) [] le = absurd (omega arith)
  length-take_le (suc n) (x ∷ xs) le = let rest = length-take_le n xs (omega arith) in omega arith

  pub take-take_add :
      (m n : ℕ) (xs ys : List A) → m + n ≤ length xs → take m (take (m + n) xs ++ ys) ≡ take m xs
  take-take_add zero n xs ys le = refl
  take-take_add (suc m) n [] ys le = absurd (omega arith)
  take-take_add (suc m) n (x ∷ xs) ys le =
      let s : suc m + n ≡ suc (m + n) = omega arith in
      rw s (ap (◌∷◌ x) (take-take_add m n xs ys (omega arith)))

  pub drop-take_add :
      (m n : ℕ) (xs ys : List A)
      → m + n ≤ length xs
      → drop m (take (m + n) xs ++ ys) ≡ take n (drop m xs) ++ ys
  drop-take_add zero n xs ys le = ap (λ k. take k xs ++ ys) (omega arith)
  drop-take_add (suc m) n [] ys le = absurd (omega arith)
  drop-take_add (suc m) n (x ∷ xs) ys le =
      let s : suc m + n ≡ suc (m + n) = omega arith in rw s (drop-take_add m n xs ys (omega arith))

  pub take_short : (n : ℕ) (xs : List A) → length xs ≤ n → take n xs ≡ xs
  take_short zero [] le = refl
  take_short zero (x ∷ xs) le = absurd (omega arith)
  take_short (suc n) [] le = refl
  take_short (suc n) (x ∷ xs) le = ap (◌∷◌ x) (take_short n xs (omega arith))

  pub drop-append_le :
      (m : ℕ) (xs ys : List A) → length xs ≤ m → drop m (xs ++ ys) ≡ drop (m - length xs) ys
  drop-append_le m [] ys le = ap (λ k. drop k ys) (omega arith)
  drop-append_le zero (x ∷ xs) ys le = absurd (omega arith)
  drop-append_le (suc m) (x ∷ xs) ys le =
      drop-append_le m xs ys (omega arith) ∙ ap (λ k. drop k ys) (omega arith)

  -- two pieces, one behind the other
  pub take-add :
      (a b : ℕ) (xs : List A) → take a xs ++ take b (drop (length (take a xs)) xs) ≡ take (a + b) xs
  take-add zero b xs = ap (λ k. take k xs) (omega arith)
  take-add (suc a) zero [] = let s : suc a + 0 ≡ suc a = omega arith in rw s refl
  take-add (suc a) (suc b) [] = let s : suc a + suc b ≡ suc (a + suc b) = omega arith in rw s refl
  take-add (suc a) b (x ∷ xs) =
      let s : suc a + b ≡ suc (a + b) = omega arith in rw s (ap (◌∷◌ x) (take-add a b xs))

-- ===== src/A3/Memory/Alloc.antt =====
-- `frame_alloc` of a3/shellmemory.c: its search for three free slots in a row.
use ecse_427_simple_shell_cr.Base.{
  ℕ, zero, suc, ◌+◌, ◌≤◌, ◌<◌, ◌≡◌, refl, ◌∙◌, ◌⊎◌, inl, inr, true, false, Bool-cases, none, some,
  List, ltb, ◌==◌, arith,
}
use ecse_427_simple_shell_cr.Store.{Slot}
use ecse_427_simple_shell_cr.A3.Memory.{is_free, run_end, frame_from}

-- so many free slots from `j` on, below the border
abbrev pub Frees : (border : ℕ) → List Slot → ℕ → ℕ → Type 0
Frees border m zero j = Unit {0}
Frees border m (suc n) j = (j < border) × (is_free m j ≡ true) × Frees border m n (j + 1)

module _ (border : ℕ) (m : List Slot) where
  run_end-border : (n j : ℕ) → ltb j border ≡ false → run_end border m (suc n) j ≡ j
  unfolding run_end
  run_end-border n j e = rw (e, run_end)

  run_end-used :
      (n j : ℕ) → ltb j border ≡ true → is_free m j ≡ false → run_end border m (suc n) j ≡ j
  unfolding run_end
  run_end-used n j e f = rw (e, f, run_end)

  run_end-free :
      (n j : ℕ)
      → ltb j border ≡ true
      → is_free m j ≡ true
      → run_end border m (suc n) j ≡ run_end border m n (j + 1)
  unfolding run_end
  run_end-free n j e f = rw (e, f, run_end)

  run_end-zero : (j : ℕ) → run_end border m zero j ≡ j
  unfolding run_end
  run_end-zero j = refl

  -- Where the inner loop stops.
  run_end_lem :
      (n j : ℕ)
      → ((run_end border m n j ≡ j + n) × Frees border m n j)
        ⊎ ((run_end border m n j < j + n) × ¬ Frees border m n j)
  run_end_lem zero j = inl (run_end-zero j ∙ omega arith, tt)
  run_end_lem (suc n) j = elim (Bool-cases (ltb j border)) [
    | inr e ↦ inr (rw (run_end-border n j e) (omega arith), λ f. ground arith)
    | inl e ↦ elim (Bool-cases (is_free m j)) [
      | inr u ↦ inr (rw (run_end-used n j e u) (omega arith), λ f. cc)
      | inl u ↦ elim (run_end_lem n (j + 1)) [
        | inl (q, f) ↦ inl (run_end-free n j e u ∙ q ∙ omega arith, (ground arith, u, f))
        | inr (q, f) ↦ inr (rw (run_end-free n j e u) (omega arith), λ g. f g.2)
      ]
    ]
  ]

  frame_from-hit :
      (n i : ℕ) → (run_end border m 3 i == i + 3) ≡ true → frame_from border m (suc n) i ≡ some i
  unfolding frame_from
  frame_from-hit n i e = rw (e, frame_from)

  frame_from-miss :
      (n i : ℕ)
      → (run_end border m 3 i == i + 3) ≡ false
      → frame_from border m (suc n) i ≡ frame_from border m n (i + 1)
  unfolding frame_from
  frame_from-miss n i e = rw (e, frame_from)

  frame_from-zero : (i : ℕ) → frame_from border m zero i ≡ none
  unfolding frame_from
  frame_from-zero i = refl

  -- no frame starts in the range
  abbrev pub NoFrame : ℕ → ℕ → Type 0
  NoFrame i k = (j : ℕ) → i ≤ j → j < k → ¬ Frees border m 3 j

  NoFrame-cons : (i k : ℕ) → ¬ Frees border m 3 i → NoFrame (i + 1) k → NoFrame i k
  NoFrame-cons i k f h j le lt = elim (Bool-cases (i == j)) [
    | inl b ↦ let e : i ≡ j = ground arith in rw e at f
    | inr b ↦ h j (ground arith) lt
  ]

  -- The outer loop finds the first frame in its range.
  pub frame_from_lem :
      (n i : ℕ)
      → ((k : ℕ) × (frame_from border m n i ≡ some k) × Frees border m 3 k × NoFrame i k)
        ⊎ ((frame_from border m n i ≡ none) × NoFrame i (i + n))
  frame_from_lem zero i = inr (frame_from-zero i, λ j le lt. absurd (omega arith))
  frame_from_lem (suc n) i = elim (run_end_lem 3 i) [
    | inl (q, f) ↦
        let hit : (run_end border m 3 i == i + 3) ≡ true = ground arith in
        inl (i, frame_from-hit n i hit, f, λ j le lt. absurd (omega arith))
    | inr (q, f) ↦
        let miss : (run_end border m 3 i == i + 3) ≡ false = ground arith in
        elim (frame_from_lem n (i + 1)) [
          | inl (k, e, g, h) ↦ inl (k, frame_from-miss n i miss ∙ e, g, NoFrame-cons i k f h)
          | inr (e, h) ↦ inr (
            frame_from-miss n i miss ∙ e,
            NoFrame-cons i (i + suc n) f (λ j le lt. h j le (omega arith)),
          )
        ]
  ]

-- ===== src/A2/Pcb/Counter.antt =====
-- The program counters of a process of a2/pcb.c, as the number of a line.
use ecse_427_simple_shell_cr.Base.{
  ℕ, zero, suc, ◌+◌, ◌*◌, ◌≤◌, ◌≡◌, refl, ◌∙◌, ap, Bool, true, false, ◌||◌, inl, inr, Bool-cases,
  ltb, if◌then◌else◌, ℤ, pos, minus_one, eq_ℤ, arith,
}
use ecse_427_simple_shell_cr.A2.State.{Pcb}
use ecse_427_simple_shell_cr.A2.Pcb.{update_pc, below_page}

-- the number of the line that the counters stand for, with three lines to a page
abbrev pub line_number : Pcb → ℕ
line_number p = p.pc_page * 3 + p.pc_line

-- after that many calls of `updatePC`
abbrev pub updated : ℕ → Pcb → Pcb
updated zero p = p
updated (suc n) p = updated n (update_pc p)

-- the test for another page
abbrev more_pages : ℕ → ℤ → Bool
more_pages n last = eq_ℤ last minus_one || below_page n last

more_pages-pos : (n m : ℕ) → more_pages n (pos m) ≡ ltb n m
unfolding below_page
more_pages-pos n m = refl

more_pages-minus_one : (n : ℕ) → more_pages n minus_one ≡ true
more_pages-minus_one n = refl

update_pc-line :
    (p : Pcb) → ltb p.pc_line 2 ≡ true → update_pc p ≡ record p { pc_line = p.pc_line + 1 }
unfolding update_pc
update_pc-line p t = rw (update_pc, t)

update_pc-page :
    (p : Pcb)
    → ltb p.pc_line 2 ≡ false
    → more_pages p.pc_page p.last_page_number ≡ true
    → update_pc p ≡ record p { pc_page = p.pc_page + 1; pc_line = 0 }
unfolding update_pc
update_pc-page p t m = rw (t, m)

update_pc-end :
    (p : Pcb)
    → ltb p.pc_line 2 ≡ false
    → more_pages p.pc_page p.last_page_number ≡ false
    → update_pc p ≡ p
unfolding update_pc
update_pc-end p t m = rw (t, m)

-- One call while the last page is not known.
update_pc-open :
    (p : Pcb)
    → p.last_page_number ≡ minus_one
    → p.pc_line ≤ 2
    → (line_number (update_pc p) ≡ suc (line_number p))
      × ((update_pc p).pc_line ≤ 2)
      × ((update_pc p).last_page_number ≡ minus_one)
update_pc-open p e le = elim (Bool-cases (ltb p.pc_line 2)) [
  | inl t ↦ simp (update_pc-line p t) (omega arith, ground arith, e)
  | inr t ↦
      let m : more_pages p.pc_page p.last_page_number ≡ true =
        ap (more_pages p.pc_page) e ∙ more_pages-minus_one p.pc_page in
      simp (update_pc-page p t m) (ground arith, omega arith, e)
]

-- While the last page is not known, each call goes on to the next line: after `n` calls the counters
-- stand `n` lines on.
pub updated-line_number :
    (n : ℕ) (p : Pcb)
    → p.last_page_number ≡ minus_one
    → p.pc_line ≤ 2
    → (line_number (updated n p) ≡ line_number p + n) × ((updated n p).pc_line ≤ 2)
updated-line_number zero p e le = (omega arith, le)
updated-line_number (suc n) p e le =
    let (s, le', e') = update_pc-open p e le in
    let (q, r) = updated-line_number n (update_pc p) e' le' in (omega arith, r)

-- One call when the last page is known.
update_pc-closed :
    (m : ℕ) (p : Pcb)
    → p.last_page_number ≡ pos m
    → p.pc_line ≤ 2
    → p.pc_page ≤ m
    → (line_number (update_pc p)
        ≡ (if ltb (line_number p) (m * 3 + 2) then suc (line_number p) else line_number p))
      × ((update_pc p).pc_line ≤ 2)
      × ((update_pc p).pc_page ≤ m)
      × ((update_pc p).last_page_number ≡ pos m)
update_pc-closed m p e le lp = elim (Bool-cases (ltb p.pc_line 2)) [
  | inl t ↦ simp (update_pc-line p t) (ground arith, ground arith, lp, e)
  | inr t ↦
      let more : more_pages p.pc_page p.last_page_number ≡ ltb p.pc_page m =
        ap (more_pages p.pc_page) e ∙ more_pages-pos p.pc_page m in
      elim (Bool-cases (ltb p.pc_page m)) [
        | inl u ↦ simp (update_pc-page p t (more ∙ u)) (ground arith, omega arith, ground arith, e)
        | inr u ↦ simp (update_pc-end p t (more ∙ u)) (ground arith, le, lp, e)
      ]
]

-- Once the last page is known, each call goes on to the next line, and from the last line of the last
-- page on the counters stay.
pub updated-last_page_number :
    (n m : ℕ) (p : Pcb)
    → p.last_page_number ≡ pos m
    → p.pc_line ≤ 2
    → p.pc_page ≤ m
    → line_number (updated n p)
      ≡ (if ltb (line_number p + n) (m * 3 + 2) then line_number p + n else m * 3 + 2)
updated-last_page_number zero m p e le lp = ground arith
updated-last_page_number (suc n) m p e le lp =
    let (s, le', lp', e') = update_pc-closed m p e le lp in
    let q = updated-last_page_number n m (update_pc p) e' le' lp' in ground arith

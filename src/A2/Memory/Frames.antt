-- ===== src/A2/Memory/Frames.antt =====
-- `allocate_frame` of a2/shellmemory.c: which line it gives out, and what it leaves alone.
use ecse_427_simple_shell_cr.Base.{
  ℕ, zero, suc, ◌<◌, ◌≡◌, ◌≢◌, refl, ap, ◌∙◌, Bool, true, false, inl, inr, Bool-cases, Option-cases,
  Option, none, some, List, [], ◌∷◌, ◌++◌, Str, codes, str_eq, arith, get_elem?, set,
  get_elem?-set_ne, decimal, pos,
}
use ecse_427_simple_shell_cr.Store.{Slot, slot, none_str, free_slot, has_var}
use ecse_427_simple_shell_cr.A2.State.{Page, Kernel, raw, line, ok}
use ecse_427_simple_shell_cr.A2.Memory.{
  find_below, mem_free_line, lru_queue_pop_head, get_page, free_victim_line, write_frame, evict,
  allocate_frame,
}
use mathlib.Core.Option

Option-map_inv :
    (o : Option ℕ) (i : ℕ) → Option.map suc o ≡ some i → (j : ℕ) × (o ≡ some j) × (i ≡ suc j)
Option-map_inv none i h = cc
Option-map_inv (some j) i h = (j, refl, cc)

find_below-some :
    (test : Slot → Bool) (n : ℕ) (m : List Slot) (i : ℕ)
    → find_below test n m ≡ some i
    → (s : Slot) × (get_elem? m i ≡ some s) × (test s ≡ true) × (i < n)
unfolding find_below
find_below-some test zero m i h = cc
find_below-some test (suc n) [] i h = cc
find_below-some test (suc n) (s ∷ m) i h = elim (Bool-cases (test s)) [
  | inl hit ↦ (s, ground arith, hit, ground arith)
  | inr miss ↦
      let (j, e, q) = Option-map_inv (find_below test n m) i (rw miss at h) in
      let (t, g, p, lt) = find_below-some test n m j e in
      (t, ap (get_elem? (s ∷ m)) q ∙ g, p, omega arith)
]

mem_free_line-used :
    (i : ℕ) (s : Slot) (m : List Slot)
    → get_elem? m i ≡ some s
    → str_eq s.var none_str ≡ false
    → mem_free_line (pos i) m ≡ some (set m i free_slot)
unfolding mem_free_line
mem_free_line-used i s m e u = rw (e, mem_free_line, u)

module _ {W : Type 0} (threshold : ℕ) (value : Str) (pid : ℕ) (k : Kernel W) where
  -- The frame store has a free line.
  abbrev pub HasFreeLine : Type 0
  HasFreeLine = find_below (has_var none_str) threshold k.mem ≢ none

  -- While a line of the frame store is free, one of them is given out: its slot gets the process id
  -- and the text, no other slot changes, and the LRU queue, the pages and the output stay.
  pub allocate_frame_free :
      HasFreeLine
      → (i : ℕ) × (s : Slot) × (i < threshold)
        × (get_elem? k.mem i ≡ some s)
        × (str_eq s.var none_str ≡ true)
        × (allocate_frame threshold value pid k
            ≡ ok i (record k { mem = set k.mem i (slot (decimal pid) value) }))
  unfolding allocate_frame write_frame
  allocate_frame_free free = elim (Option-cases (find_below (has_var none_str) threshold k.mem)) [
    | inl e ↦ absurd (free e)
    | inr (i, e) ↦
        let (s, g, t, lt) = find_below-some (has_var none_str) threshold k.mem i e in
        (i, s, lt, g, t, rw (e, allocate_frame))
  ]

  -- Three lines of the memory that are not free, and differ.
  pub record Lines (a b c : ℕ) (x y z : Slot) : Type 0 where
    pub at_a : get_elem? k.mem a ≡ some x
    pub at_b : get_elem? k.mem b ≡ some y
    pub at_c : get_elem? k.mem c ≡ some z
    pub used_a : str_eq x.var none_str ≡ false
    pub used_b : str_eq y.var none_str ≡ false
    pub used_c : str_eq z.var none_str ≡ false
    pub a_b : a ≢ b
    pub a_c : a ≢ c
    pub b_c : b ≢ c

  free_line :
      (i : ℕ) (s : Slot) (h : Kernel W)
      → get_elem? h.mem i ≡ some s
      → str_eq s.var none_str ≡ false
      → free_victim_line (pos i) h
        ≡ ok tt (record h { mem = set h.mem i free_slot; out = h.out ++ raw s.value ∷ [] })
  unfolding free_victim_line
  free_line i s h e u = rw (e, free_victim_line, mem_free_line-used i s h.mem e u)

  pop_page :
      (page : ℕ) (rest : List ℕ)
      → k.lru ≡ page ∷ rest
      → lru_queue_pop_head k ≡ ok (some page) (record k { lru = rest })
  unfolding lru_queue_pop_head
  pop_page page rest e = rw (e, lru_queue_pop_head)

  get_page_lem :
      (page : ℕ) (victim : Page) (h : Kernel W)
      → get_elem? h.pages page ≡ some victim
      → get_page page h ≡ ok victim h
  unfolding get_page
  get_page_lem page victim h e = rw e

  allocate_frame-evict :
      find_below (has_var none_str) threshold k.mem ≡ none
      → allocate_frame threshold value pid k ≡ evict value pid k
  unfolding allocate_frame
  allocate_frame-evict e = rw (e, allocate_frame)

  -- With no line free, and a page at the head of the LRU queue that has three different lines in use,
  -- that page is the victim: its three lines are printed and freed, the first of them is given out, and
  -- no other slot changes. The bytes behind the buffer of the process's id, which the id's closing zero
  -- overruns, are taken for free ones.
  pub allocate_frame_evict :
      (page : ℕ) (rest : List ℕ) (victim : Page) (a b c : ℕ) (x y z : Slot)
      → find_below (has_var none_str) threshold k.mem ≡ none
      → k.lru ≡ page ∷ rest
      → get_elem? k.pages page ≡ some victim
      → victim.index ≡ pos a ∷ (pos b ∷ (pos c ∷ []))
      → Lines a b c x y z
      → allocate_frame threshold value pid k
        ≡ ok a (record k {
          mem =
              set
                (set (set (set k.mem a free_slot) b free_slot) c free_slot)
                a
                (slot (decimal pid) value);
          lru = rest;
          out =
              ((((k.out ++ line (codes "Page fault! Victim page contents:") ∷ [])
                    ++ raw x.value ∷ [])
                  ++ raw y.value ∷ [])
                ++ raw z.value ∷ [])
              ++ line (codes "End of victim page contents.") ∷ [];
        })
  unfolding evict write_frame
  allocate_frame_evict page rest victim a b c x y z full l p ix ls =
      let k1 : Kernel W = record k {
        lru = rest;
        out = k.out ++ line (codes "Page fault! Victim page contents:") ∷ [];
      } in
      let k2 : Kernel W = record k1 {
        mem = set k.mem a free_slot;
        out = k1.out ++ raw x.value ∷ [];
      } in
      let k3 : Kernel W = record k2 {
        mem = set k2.mem b free_slot;
        out = k2.out ++ raw y.value ∷ [];
      } in
      let e2 = get_elem?-set_ne k.mem a b free_slot ls.a_b ∙ ls.at_b in
      let e3 =
        get_elem?-set_ne k2.mem b c free_slot ls.b_c
        ∙ get_elem?-set_ne k.mem a c free_slot ls.a_c
        ∙ ls.at_c in
      allocate_frame-evict full
      ∙ rw (pop_page page rest l, get_page_lem page victim (record k { lru = rest }) p, ix)
          (rw (
            free_line a x k1 ls.at_a ls.used_a,
            free_line b y k2 e2 ls.used_b,
            free_line c z k3 e3 ls.used_c,
          ))

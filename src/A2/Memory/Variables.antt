-- ===== src/A2/Memory/Variables.antt =====
-- The frame store and the variable store of a2/shellmemory.c, which share an array.
use ecse_427_simple_shell_cr.Base.{
  ℕ, ◌<◌, ◌≡◌, ◌∙◌, ◌⊎◌, inl, inr, none, some, List, [], ◌∷◌, Str, decimal, pos, arith, get_elem?,
  set, length, length-set, get_elem?-set_self, lt-length_of_get_elem?,
}
use ecse_427_simple_shell_cr.Store.{Slot, slot, none_str, free_slot, has_var, get_value}
use ecse_427_simple_shell_cr.Store.Below.{get_value-set_below}
use ecse_427_simple_shell_cr.A2.State.{Page, Kernel, ok}
use ecse_427_simple_shell_cr.A2.Memory.{find_below, allocate_frame}
use ecse_427_simple_shell_cr.A2.Memory.Frames.{
  HasFreeLine, Lines, allocate_frame_free, allocate_frame_evict,
}

module _ {W : Type 0} (threshold : ℕ) (value : Str) (pid : ℕ) (k : Kernel W) where
  -- No line of the frame store is free, and the page at the head of the LRU queue has three lines of
  -- it that are in use.
  pub record Evictable : Type 0 where
    pub page : ℕ
    pub rest : List ℕ
    pub victim : Page
    pub first : ℕ
    pub second : ℕ
    pub third : ℕ
    pub in_first : Slot
    pub in_second : Slot
    pub in_third : Slot
    pub full : find_below (has_var none_str) threshold k.mem ≡ none
    pub head : k.lru ≡ page ∷ rest
    pub at_page : get_elem? k.pages page ≡ some victim
    pub index : victim.index ≡ pos first ∷ (pos second ∷ (pos third ∷ []))
    pub lines : Lines threshold value pid k first second third in_first in_second in_third
    pub first_frame : first < threshold
    pub second_frame : second < threshold
    pub third_frame : third < threshold

  -- The call gives out the frame `i`, which then holds the line, and every variable keeps its value.
  abbrev pub Given : ℕ → Kernel W → Type 0
  Given i k' =
      (allocate_frame threshold value pid k ≡ ok i k')
      × (i < threshold)
      × (get_elem? k'.mem i ≡ some (slot (decimal pid) value))
      × ((j : Str) → get_value threshold j k'.mem ≡ get_value threshold j k.mem)

  Given-free : HasFreeLine threshold value pid k → (i : ℕ) × (k' : Kernel W) × Given i k'
  Given-free free =
      let (i, s, lt, g, u, e) = allocate_frame_free threshold value pid k free in
      (
        i,
        _,
        (
          e,
          lt,
          get_elem?-set_self k.mem i _ (lt-length_of_get_elem? k.mem i s g),
          λ j. get_value-set_below threshold j i k.mem _ lt,
        ),
      )

  Given-evict : Evictable → (i : ℕ) × (k' : Kernel W) × Given i k'
  Given-evict v = (
    v.first,
    _,
    (
      allocate_frame_evict threshold value pid k v.page v.rest v.victim v.first v.second v.third
          v.in_first v.in_second v.in_third v.full v.head v.at_page v.index v.lines,
      v.first_frame,
      get_elem?-set_self _ v.first _
          (omega (arith, lt-length_of_get_elem? k.mem v.first v.in_first v.lines.at_a, lengths)),
      λ j.
          get_value-set_below threshold j v.first _ _ v.first_frame
          ∙ get_value-set_below threshold j v.third _ _ v.third_frame
          ∙ get_value-set_below threshold j v.second _ _ v.second_frame
          ∙ get_value-set_below threshold j v.first _ _ v.first_frame,
    ),
  )
    where
      lengths :
          length (set (set (set k.mem v.first free_slot) v.second free_slot) v.third free_slot)
          ≡ length k.mem
      lengths =
          length-set (set (set k.mem v.first free_slot) v.second free_slot) v.third free_slot
          ∙ length-set (set k.mem v.first free_slot) v.second free_slot
          ∙ length-set k.mem v.first free_slot

  -- Where a line of the frame store is free, or the page at the head of the LRU queue has three different
  -- lines of the frame store in use, `allocate_frame` returns a frame below the threshold that then holds
  -- the line, and every variable keeps its value. The bytes behind the buffer of the process's id, which
  -- the id's closing zero overruns, are taken for free ones.
  pub allocate_frame-get_value :
      HasFreeLine threshold value pid k ⊎ Evictable → (i : ℕ) × (k' : Kernel W) × Given i k'
  allocate_frame-get_value (inl free) = Given-free free
  allocate_frame-get_value (inr v) = Given-evict v

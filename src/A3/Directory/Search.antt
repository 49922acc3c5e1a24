-- ===== src/A3/Directory/Search.antt =====
-- The loops of a3/fs/directory.c over the entries of a directory, on a store whose calls read and write bytes.
use ecse_427_simple_shell_cr.Base.{
  ℕ, zero, suc, ◌+◌, ◌*◌, ◌/◌, ◌<◌, ◌≤◌, ◌≡◌, refl, ap, ◌∙◌, Bool, true, false, not, ◌&&◌, Option,
  none, some, List, [], ◌∷◌, Str, ◌==◌, length, take, drop, arith, inl, inr, Bool-cases,
  length-drop, drop-drop, length-take_le, take_short, pos,
}
use ecse_427_simple_shell_cr.A3.InodeStore.{Call, ◌>>=◌, InodeStore}
use ecse_427_simple_shell_cr.A3.InodeStore.Laws.{View, Gives, IsLawful}
use ecse_427_simple_shell_cr.A3.FsState.Steps.{bind_of_some}
use ecse_427_simple_shell_cr.A3.Directory.{
  DirEntry, entry_of_bytes, is_named, read_entry, rounds, search_loop, lookup, dir_is_empty,
}
use ecse_427_simple_shell_cr.A3.Directory.Entries.{slots, entries, find_entry}

abbrev pub as_found : Option DirEntry × ℕ → Option (DirEntry × ℕ)
as_found found = elim found.0 [ none ↦ none | some e ↦ some (e, found.1) ]

-- what `lookup` finds: the first entry in use that has the name, and its offset
unfoldable pub named : Str → List ℕ → Option (DirEntry × ℕ)
unfolding entries find_entry is_named
named name bytes = as_found (find_entry (is_named name) 36 (entries bytes))

unfoldable pub none_in_use : List DirEntry → Bool
none_in_use [] = true
none_in_use (e ∷ es) = not e.in_use && none_in_use es

find_entry-none_in_use :
    (ofs : ℕ) (es : List DirEntry)
    → elim (find_entry (λ e. e.in_use) ofs es).0 as (λ _. Bool) [ none ↦ true | some e ↦ false ]
      ≡ none_in_use es
unfolding find_entry none_in_use
find_entry-none_in_use ofs [] = refl
find_entry-none_in_use ofs (e ∷ es) = elim (Bool-cases e.in_use) [
  | inl t ↦ rw (t, none_in_use) refl
  | inr f ↦ rw (f, none_in_use) (find_entry-none_in_use (ofs + 36) es)
]

module _ {S A B : Type 0} (Shows : S → View → Type 0) where
  pub bind-Gives :
      (f : Call S A) (g : A → Call S B) (s : S) (v v' : View) (a : A) (b : B)
      → Gives Shows f s v a
      → ((s' : S) → Shows s' v → Gives Shows (g a) s' v' b)
      → Gives Shows (f >>= g) s v' b
  bind-Gives f g s v v' a b (s1, e, r) h =
      let (s2, e2, r2) = h s1 r in (s2, bind_of_some f g s a s1 e ∙ e2, r2)

module _ {S : Type 0} (store : InodeStore S) (Shows : S → View → Type 0)
    (laws : IsLawful store Shows) where
  pub read_entry-inside :
      (dir ofs : ℕ) (bytes : List ℕ) (s : S) (v : View)
      → Shows s v
      → v dir ≡ some bytes
      → 36 ≤ length (drop ofs bytes)
      → Gives Shows
          (read_entry store dir ofs)
          s
          v
          (some (entry_of_bytes (take 36 (drop ofs bytes))))
  unfolding read_entry
  read_entry-inside dir ofs bytes s v r e le =
      let whole : (length (take 36 (drop ofs bytes)) == 36) ≡ true =
        let l = length-take_le 36 (drop ofs bytes) le in ground arith in
      bind-Gives Shows (store.inode_read_at dir (pos 36) ofs) _ s v v _ _
        (laws.reads dir 36 ofs bytes s v r e) λ s' r'. (s', rw whole refl, r')

  pub read_entry-behind :
      (dir ofs : ℕ) (bytes : List ℕ) (s : S) (v : View)
      → Shows s v
      → v dir ≡ some bytes
      → length (drop ofs bytes) < 36
      → Gives Shows (read_entry store dir ofs) s v none
  unfolding read_entry
  read_entry-behind dir ofs bytes s v r e lt =
      let short : (length (take 36 (drop ofs bytes)) == 36) ≡ false =
        let l = ap length (take_short 36 (drop ofs bytes) (omega arith)) in ground arith in
      bind-Gives Shows (store.inode_read_at dir (pos 36) ofs) _ s v v _ _
        (laws.reads dir 36 ofs bytes s v r e) λ s' r'. (s', rw short refl, r')

  -- The loop finds the first entry that passes the test.
  pub search_loop-Gives :
      (test : DirEntry → Bool) (n fuel dir ofs : ℕ) (bytes : List ℕ) (s : S) (v : View)
      → n < fuel
      → 36 * n ≤ length (drop ofs bytes)
      → length (drop ofs bytes) < 36 * n + 36
      → Shows s v
      → v dir ≡ some bytes
      → Gives Shows
          (search_loop store test fuel dir ofs)
          s
          v
          (find_entry test ofs (slots n (drop ofs bytes)))
  unfolding search_loop slots find_entry
  search_loop-Gives test n zero dir ofs bytes s v lt le l r e = absurd (omega arith)
  search_loop-Gives test zero (suc fuel) dir ofs bytes s v lt le l r e =
      bind-Gives Shows (read_entry store dir ofs) _ s v v _ _
        (read_entry-behind dir ofs bytes s v r e (omega arith)) (λ s' r'. (s', refl, r'))
  search_loop-Gives test (suc n) (suc fuel) dir ofs bytes s v lt le l r e =
      let len = length-drop ofs bytes in
      let len' = length-drop (ofs + 36) bytes in
      bind-Gives Shows (read_entry store dir ofs) _ s v v _ _
        (read_entry-inside dir ofs bytes s v r e (omega arith))
        λ s' r'. elim (Bool-cases (test (entry_of_bytes (take 36 (drop ofs bytes))))) [
          | inl t ↦ rw (t, search_loop) (s', refl, r')
          | inr f ↦
              rw (f, drop-drop 36 ofs bytes)
                (search_loop-Gives test n fuel dir (ofs + 36) bytes s' v (omega arith) (omega arith)
                  (omega arith) r' e)
        ]

  pub rounds-Gives :
      (dir : ℕ) (bytes : List ℕ) (s : S) (v : View)
      → Shows s v
      → v dir ≡ some bytes
      → Gives Shows (rounds store dir) s v (length bytes / 36 + 1)
  unfolding rounds
  rounds-Gives dir bytes s v r e =
      bind-Gives Shows (store.inode_length dir) _ s v v _ _ (laws.lengths dir bytes s v r e)
        (λ s' r'. (s', refl, r'))

  -- a loop of the file with its fuel, from an offset to the end, and what follows it
  pub search-Gives :
      {B : Type 0} (test : DirEntry → Bool) (dir ofs : ℕ) (bytes : List ℕ) (s : S) (v v' : View)
      (g : Option DirEntry × ℕ → Call S B) (b : B)
      → Shows s v
      → v dir ≡ some bytes
      → ((s' : S)
          → Shows s' v
          → Gives Shows
              (g (find_entry test ofs (slots (length (drop ofs bytes) / 36) (drop ofs bytes))))
              s'
              v'
              b)
      → Gives Shows
          (rounds store dir >>= λ fuel. (search_loop store test fuel dir ofs >>= g))
          s
          v'
          b
  search-Gives test dir ofs bytes s v v' g b r e rest =
      let len = length-drop ofs bytes in
      bind-Gives Shows (rounds store dir) _ s v v' _ b (rounds-Gives dir bytes s v r e) λ s1 r1.
        bind-Gives Shows (search_loop store test (length bytes / 36 + 1) dir ofs) g s1 v v' _ b
          (search_loop-Gives test (length (drop ofs bytes) / 36) (length bytes / 36 + 1) dir ofs
            bytes s1 v (omega arith) (omega arith) (omega arith) r1 e)
          rest

  -- On a store that shows the bytes of a directory, `lookup` returns the first entry behind the parent
  -- entry that is in use and has the name, with its offset, and no byte changes.
  pub lookup-named :
      (dir : ℕ) (name : Str) (bytes : List ℕ) (s : S) (v : View)
      → Shows s v
      → v dir ≡ some bytes
      → Gives Shows (lookup store dir name) s v (named name bytes)
  unfolding lookup entries named
  lookup-named dir name bytes s v r e =
      search-Gives (is_named name) dir 36 bytes s v v _ _ r e λ s' r'. (s', refl, r')

  -- On a store that shows the bytes of a directory, `dir_is_empty` tells whether no entry behind the
  -- parent entry is in use.
  pub dir_is_empty-Gives :
      (dir : ℕ) (bytes : List ℕ) (s : S) (v : View)
      → Shows s v
      → v dir ≡ some bytes
      → Gives Shows (dir_is_empty store dir) s v (none_in_use (entries bytes))
  unfolding dir_is_empty entries
  dir_is_empty-Gives dir bytes s v r e =
      search-Gives (λ x. x.in_use) dir 36 bytes s v v _ _ r e
        λ s' r'. (s', ap (λ b. some (b, s')) (find_entry-none_in_use 36 _), r')

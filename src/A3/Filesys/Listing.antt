-- ===== src/A3/Filesys/Listing.antt =====
-- The listing of a directory by a3/fs/fsutil.c, on a store whose calls read and write bytes.
use ecse_427_simple_shell_cr.Base.{
  ℕ, zero, suc, ◌+◌, ◌/◌, ◌<◌, ◌≡◌, sym, ap, ◌∙◌, Bool, true, false, Option, none, some, List, [],
  ◌∷◌, ◌++◌, Str, length, take, drop, c_string, arith, inl, inr, Bool-cases, length-drop, drop-drop,
  append-nil, append_assoc,
}
use ecse_427_simple_shell_cr.A3.InodeStore.{Call, pure, InodeStore}
use ecse_427_simple_shell_cr.A3.InodeStore.Laws.{View, IsLawful}
use ecse_427_simple_shell_cr.A3.FsState.{Dir, Fs, put, on_inodes, get_dir}
use ecse_427_simple_shell_cr.A3.FsState.Steps.{bind_of_some, on_inodes_of_some, get_dir_of_some}
use ecse_427_simple_shell_cr.A3.Directory.{DirEntry, entry_of_bytes, read_entry, rounds}
use ecse_427_simple_shell_cr.A3.Directory.Entries.{slots, find_entry}
use ecse_427_simple_shell_cr.A3.Directory.Search.{
  rounds-Gives, read_entry-inside, read_entry-behind,
}
use ecse_427_simple_shell_cr.A3.Directory.Open.{readdir_loop, next_entry, dir_readdir}
use ecse_427_simple_shell_cr.A3.Filesys.Chdir.{put_self}
use ecse_427_simple_shell_cr.A3.Filesys.Util.{list_names}
use ecse_427_simple_shell_cr.A3.Filesys.Listed.{
  listed, Span, in_use_entry, at_offset, behind, Span-next, find-hit, find-miss, find-nil,
  listed-next,
}

module _ {S : Type 0} (store : InodeStore S) (Shows : S → View → Type 0)
    (laws : IsLawful store Shows) where
  -- A directory object at an offset, over bytes that the store shows.
  pub record Reading (s : Fs S) (dir : ℕ) (d : Dir) (ofs : ℕ) (v : View) (out : List Str)
      : Type 0 where
    pub live : s.dirs dir ≡ some (at_offset d ofs)
    pub shows : Shows s.inodes v
    pub printed : s.out ≡ out

  readdir_loop-entry :
      (fuel dir ofs : ℕ) (d : Dir) (e : DirEntry) (s : Fs S) (s1 : S)
      → s.dirs dir ≡ some (at_offset d ofs)
      → read_entry store d.inode ofs s.inodes ≡ some (some e, s1)
      → readdir_loop store (suc fuel) dir s
        ≡ elim e.in_use as (λ _. Call (Fs S) (Option DirEntry)) [
          | true ↦ pure (some e)
          | false ↦ readdir_loop store fuel dir
        ]
            (record s { inodes = s1; dirs = put s.dirs dir (some (at_offset d (ofs + 36))) })
  unfolding readdir_loop
  readdir_loop-entry fuel dir ofs d e s s1 live q =
      bind_of_some (get_dir dir) _ s (at_offset d ofs) s (get_dir_of_some dir s _ live)
      ∙ bind_of_some (on_inodes (read_entry store d.inode ofs)) _ s (some e)
          (record s { inodes = s1 })
          (on_inodes_of_some (read_entry store d.inode ofs) s (some e) s1 q)

  readdir_loop-end :
      (fuel dir ofs : ℕ) (d : Dir) (s : Fs S) (s1 : S)
      → s.dirs dir ≡ some (at_offset d ofs)
      → read_entry store d.inode ofs s.inodes ≡ some (none, s1)
      → readdir_loop store (suc fuel) dir s ≡ some (none, record s { inodes = s1 })
  unfolding readdir_loop
  readdir_loop-end fuel dir ofs d s s1 live q =
      bind_of_some (get_dir dir) _ s (at_offset d ofs) s (get_dir_of_some dir s _ live)
      ∙ bind_of_some (on_inodes (read_entry store d.inode ofs)) _ s none (record s { inodes = s1 })
          (on_inodes_of_some (read_entry store d.inode ofs) s none s1 q)

  -- the entry that is found, and the directory behind it
  abbrev Found : ℕ → ℕ → Dir → List DirEntry → ℕ → View → List Str → Fs S → Type 0
  Found fuel dir d es ofs v out s =
      (s' : Fs S) × (readdir_loop store fuel dir s ≡ some ((find_entry in_use_entry ofs es).0, s'))
      × Reading s' dir d (behind (find_entry in_use_entry ofs es)) v out

  readdir_loop-Reading :
      (n fuel dir ofs : ℕ) (d : Dir) (bytes : List ℕ) (s : Fs S) (v : View) (out : List Str)
      → n < fuel
      → Span n ofs bytes
      → v d.inode ≡ some bytes
      → Reading s dir d ofs v out
      → Found fuel dir d (slots n (drop ofs bytes)) ofs v out s
  unfolding slots
  readdir_loop-Reading n zero dir ofs d bytes s v out lt span h r = absurd (omega arith)
  readdir_loop-Reading zero (suc fuel) dir ofs d bytes s v out lt span h r =
      let (s1, q, r1) =
        read_entry-behind store Shows laws d.inode ofs bytes s.inodes v r.shows h (omega arith) in
      rw (find-nil ofs) (
        record s { inodes = s1 },
        readdir_loop-end fuel dir ofs d s s1 r.live q,
        record { live = r.live; shows = r1; printed = r.printed },
      )
  readdir_loop-Reading (suc n) (suc fuel) dir ofs d bytes s v out lt span h r =
      let e = entry_of_bytes (take 36 (drop ofs bytes)) in
      let rest = slots n (drop 36 (drop ofs bytes)) in
      let on : slots n (drop 36 (drop ofs bytes)) ≡ slots n (drop (ofs + 36) bytes) =
        ap (slots n) (drop-drop 36 ofs bytes) in
      let (s1, q, r1) =
        read_entry-inside store Shows laws d.inode ofs bytes s.inodes v r.shows h (omega arith) in
      let s2 : Fs S = record s {
        inodes = s1;
        dirs = put s.dirs dir (some (at_offset d (ofs + 36)));
      } in
      let r2 : Reading s2 dir d (ofs + 36) v out = record {
        live = put_self s.dirs dir (some (at_offset d (ofs + 36)));
        shows = r1;
        printed = r.printed;
      } in
      let step = readdir_loop-entry fuel dir ofs d e s s1 r.live q in
      let choose : Bool → Call (Fs S) (Option DirEntry) =
        λ b. elim b [ true ↦ pure (some e) | false ↦ readdir_loop store fuel dir ] in
      elim (Bool-cases e.in_use) [
        | inl t ↦ rw (find-hit ofs e rest t) (s2, step ∙ ap (λ b. choose b s2) t, r2)
        | inr f ↦
            rw (find-miss ofs e rest f, on)
              (let (s3, q3, r3) =
                  readdir_loop-Reading n fuel dir (ofs + 36) d bytes s2 v out (omega arith)
                    (Span-next n ofs bytes span) h r2 in
                (s3, step ∙ ap (λ b. choose b s2) f ∙ q3, r3))
      ]

  next_entry-Reading :
      (n dir ofs : ℕ) (d : Dir) (bytes : List ℕ) (s : Fs S) (v : View) (out : List Str)
      → Span n ofs bytes
      → v d.inode ≡ some bytes
      → Reading s dir d ofs v out
      → (s' : Fs S) × (next_entry store dir s
          ≡ some ((find_entry in_use_entry ofs (slots n (drop ofs bytes))).0, s'))
        × Reading s' dir d (behind (find_entry in_use_entry ofs (slots n (drop ofs bytes)))) v out
  unfolding next_entry
  next_entry-Reading n dir ofs d bytes s v out span h r =
      let l = length-drop ofs bytes in
      let (s1, q1, r1) = rounds-Gives store Shows laws d.inode bytes s.inodes v r.shows h in
      let (s2, q2, r2) =
        readdir_loop-Reading n (length bytes / 36 + 1) dir ofs d bytes (record s { inodes = s1 }) v
          out (omega arith) span h (record { live = r.live; shows = r1; printed = r.printed }) in
      (
        s2,
        bind_of_some (get_dir dir) _ s (at_offset d ofs) s (get_dir_of_some dir s _ r.live)
            ∙ bind_of_some (on_inodes (rounds store d.inode)) (λ fuel. readdir_loop store fuel dir)
                s _ _ (on_inodes_of_some (rounds store d.inode) s _ s1 q1)
            ∙ q2,
        r2,
      )

  abbrev name_of : Option DirEntry → Option (List ℕ)
  name_of found = elim found [ none ↦ none | some e ↦ some e.name ]

  dir_readdir-of :
      (dir : ℕ) (s s' : Fs S) (x found : Option DirEntry)
      → next_entry store dir s ≡ some (x, s')
      → x ≡ found
      → dir_readdir store dir s ≡ some (name_of found, s')
  unfolding dir_readdir
  dir_readdir-of dir s s' x found q e =
      bind_of_some (next_entry store dir) _ s x s' q ∙ ap (λ y. some (name_of y, s')) e

  -- On a store that shows the bytes of a directory, the loop of `fsutil_ls` over an open directory whose
  -- position is an entry's ends, with a round more than there are entries from there on, and prints
  -- the names of those of them that are in use, in their order.
  pub list_names-listed :
      (fuel n dir ofs : ℕ) (d : Dir) (bytes : List ℕ) (s : Fs S) (v : View) (out : List Str)
      → n < fuel
      → Span n ofs bytes
      → v d.inode ≡ some bytes
      → Reading s dir d ofs v out
      → (s' : Fs S) × (list_names store fuel dir s ≡ some (tt, s'))
        × (s'.out ≡ out ++ listed (slots n (drop ofs bytes)))
  unfolding list_names
  list_names-listed zero n dir ofs d bytes s v out lt span h r = absurd (omega arith)
  list_names-listed (suc fuel) n dir ofs d bytes s v out lt span h r =
      let (s1, q1, r1) = next_entry-Reading n dir ofs d bytes s v out span h r in
      elim (listed-next n ofs bytes span) [
        | inl (none_left, l) ↦ (
          s1,
          bind_of_some (dir_readdir store dir) _ s none s1
              (dir_readdir-of dir s s1 _ none q1 none_left),
          r1.printed ∙ sym (append-nil out) ∙ ap (λ t. out ++ t) (sym l),
        )
        | inr (e, m, less, found, sp, l) ↦
            let s2 : Fs S = record s1 { out = s1.out ++ c_string e.name ∷ [] } in
            let (s3, q3, o3) =
              list_names-listed fuel m dir _ d bytes s2 v (out ++ c_string e.name ∷ [])
                (omega arith) sp h
                (record {
                  live = r1.live;
                  shows = r1.shows;
                  printed = ap (λ t. t ++ c_string e.name ∷ []) r1.printed;
                }) in
            (
              s3,
              bind_of_some (dir_readdir store dir) _ s (some e.name) s1
                    (dir_readdir-of dir s s1 _ (some e) q1 found)
                  ∙ q3,
              o3 ∙ append_assoc out (c_string e.name ∷ []) _ ∙ ap (λ t. out ++ t) (sym l),
            )
      ]

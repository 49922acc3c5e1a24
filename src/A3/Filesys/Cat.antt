-- ===== src/A3/Filesys/Cat.antt =====
-- `fsutil_cat` of a3/fs/fsutil.c on a file that is open, on a store whose calls read and write bytes.
use ecse_427_simple_shell_cr.Base.{
  ℕ, zero, suc, ◌+◌, ◌≡◌, refl, ap, ◌∙◌, Bool, true, false, Option, none, some, List, [], ◌∷◌, ◌++◌,
  Str, codes, ◌==◌, if◌then◌else◌, length, take, drop, pos, arith, inl, inr, Bool-cases, take_short,
  append-nil,
}
use ecse_427_simple_shell_cr.A3.InodeStore.{Call, ◌>>=◌, ◌>>◌, pure, InodeStore}
use ecse_427_simple_shell_cr.A3.InodeStore.Laws.{View, IsLawful}
use ecse_427_simple_shell_cr.A3.FsState.{File, Fs, put, get_file}
use ecse_427_simple_shell_cr.A3.FsState.Steps.{bind_of_some, on_inodes_of_some, get_file_of_some}
use ecse_427_simple_shell_cr.A3.Files.{
  find_file_by_fname, add_to_file_table, file_read, file_tell, file_seek, file_length,
}
use ecse_427_simple_shell_cr.A3.Files.Position.{put_self, moved, file_read-moved}
use ecse_427_simple_shell_cr.A3.Filesys.{filesys_open}
use ecse_427_simple_shell_cr.A3.Filesys.Util.{opened_file, cat_loop, fsutil_cat}

take_nothing : (n : ℕ) (xs : List ℕ) → xs ≡ [] → length (take n xs) ≡ 0
take_nothing zero xs e = refl
take_nothing (suc n) [] e = refl
take_nothing (suc n) (x ∷ xs) e = cc

drop_all : (xs : List ℕ) → drop (length xs) xs ≡ []
drop_all [] = refl
drop_all (x ∷ xs) = drop_all xs

module _ {S : Type 0} (store : InodeStore S) (Shows : S → View → Type 0)
    (laws : IsLawful store Shows) (hex_dump : ℕ → List ℕ → Str) where
  -- a file at a position, over bytes that the store shows
  pub record Reads (s : Fs S) (file : ℕ) (f : File) (n : ℕ) (v : View) (out : List Str)
      : Type 0 where
    pub live : s.files file ≡ some (record f { pos = pos n })
    pub shows : Shows s.inodes v
    pub printed : s.out ≡ out

  file_tell-of :
      (s : Fs S) (file n : ℕ) (f : File) (v : View) (out : List Str)
      → Reads s file f n v out
      → file_tell store file s ≡ some (pos n, s)
  unfolding file_tell
  file_tell-of s file n f v out r =
      bind_of_some (get_file file) _ s _ s (get_file_of_some file s _ r.live)

  file_seek-of :
      (s : Fs S) (file n m : ℕ) (f : File) (v : View) (out : List Str)
      → Reads s file f n v out
      → (s' : Fs S) × (file_seek store file (pos m) s ≡ some (tt, s')) × Reads s' file f m v out
  unfolding file_seek
  file_seek-of s file n m f v out r = (
    record s { files = put s.files file (some (record f { pos = pos m })) },
    bind_of_some (get_file file) _ s _ s (get_file_of_some file s _ r.live),
    record { live = put_self s.files file _; shows = r.shows; printed = r.printed },
  )

  file_length-of :
      (s : Fs S) (file n : ℕ) (f : File) (bytes : List ℕ) (v : View) (out : List Str)
      → Reads s file f n v out
      → v f.inode ≡ some bytes
      → (s' : Fs S) × (file_length store file s ≡ some (length bytes, s')) × Reads s' file f n v out
  unfolding file_length
  file_length-of s file n f bytes v out r h =
      let (s1, q, r1) = laws.lengths f.inode bytes s.inodes v r.shows h in
      (
        record s { inodes = s1 },
        bind_of_some (get_file file) _ s _ s (get_file_of_some file s _ r.live)
            ∙ on_inodes_of_some (store.inode_length f.inode) s _ s1 q,
        record { live = r.live; shows = r1; printed = r.printed },
      )

  file_read-of :
      (s : Fs S) (file n size : ℕ) (f : File) (bytes : List ℕ) (v : View) (out : List Str)
      → Reads s file f n v out
      → v f.inode ≡ some bytes
      → (s' : Fs S) × (file_read store file (pos size) s ≡ some (take size (drop n bytes), s'))
        × Reads s' file f (n + length (take size (drop n bytes))) v out
  file_read-of s file n size f bytes v out r h =
      let (s1, q, r1) =
        file_read-moved store Shows laws file size n (record f { pos = pos n }) bytes s v r.live
          refl r.shows h in
      (
        moved store Shows laws s file (record f { pos = pos n })
            (pos (n + length (take size (drop n bytes)))) s1,
        q,
        record { live = put_self s.files file _; shows = r1; printed = r.printed },
      )

  -- what is printed of the bytes of a file
  abbrev pub dump : List ℕ → List Str
  dump bytes = if length bytes == 0 then [] else hex_dump 0 bytes ∷ []

  cat_loop-end :
      (fuel : ℕ) (s : Fs S) (file n size : ℕ) (f : File) (bytes : List ℕ) (v : View)
      (out : List Str)
      → Reads s file f n v out
      → v f.inode ≡ some bytes
      → length (take size (drop n bytes)) ≡ 0
      → (s' : Fs S) × (m : ℕ) × (cat_loop store hex_dump (suc fuel) file size s ≡ some (tt, s'))
        × Reads s' file f m v out
  unfolding cat_loop
  cat_loop-end fuel s file n size f bytes v out r h e =
      let (s1, q1, r1) = file_read-of s file n size f bytes v out r h in
      let last : (length (take size (drop n bytes)) == 0) ≡ true = ground arith in
      (
        s1,
        n + length (take size (drop n bytes)),
        bind_of_some (file_tell store file) _ s (pos n) s (file_tell-of s file n f v out r)
            ∙ bind_of_some (file_read store file (pos size)) _ s _ s1 q1
            ∙ rw last refl,
        r1,
      )

  cat_loop-more :
      (fuel : ℕ) (s s' : Fs S) (file n size : ℕ) (f : File) (b : List ℕ) (v : View) (out : List Str)
      → Reads s file f n v out
      → file_read store file (pos size) s ≡ some (b, s')
      → (length b == 0) ≡ false
      → cat_loop store hex_dump (suc fuel) file size s
        ≡ cat_loop store hex_dump fuel file size (record s' { out = s'.out ++ hex_dump n b ∷ [] })
  unfolding cat_loop
  cat_loop-more fuel s s' file n size f b v out r q e =
      bind_of_some (file_tell store file) _ s (pos n) s (file_tell-of s file n f v out r)
      ∙ bind_of_some (file_read store file (pos size)) _ s b s' q
      ∙ rw e refl

  cat_loop-dump :
      (s : Fs S) (file : ℕ) (f : File) (bytes : List ℕ) (v : View) (out : List Str)
      → Reads s file f 0 v out
      → v f.inode ≡ some bytes
      → (s' : Fs S) × (m : ℕ) × (cat_loop store hex_dump 2 file (length bytes) s ≡ some (tt, s'))
        × Reads s' file f m v (out ++ dump bytes)
  cat_loop-dump s file f bytes v out r h = elim (Bool-cases (length bytes == 0)) [
    | inl t ↦
        let nothing : length (take (length bytes) bytes) ≡ 0 =
          let l = ap length (take_short (length bytes) bytes (omega arith)) in ground arith in
        rw (t, append-nil out) (cat_loop-end 1 s file 0 (length bytes) f bytes v out r h nothing)
    | inr n ↦
        let all = take_short (length bytes) bytes (omega arith) in
        let (s1, q1, r1) = file_read-of s file 0 (length bytes) f bytes v out r h in
        let s2 : Fs S = record s1 { out = s1.out ++ hex_dump 0 bytes ∷ [] } in
        let r2 : Reads s2 file f (0 + length (take (length bytes) bytes)) v
            (out ++ hex_dump 0 bytes ∷ []) =
          record {
            live = r1.live;
            shows = r1.shows;
            printed = ap (λ o. o ++ hex_dump 0 bytes ∷ []) r1.printed;
          } in
        let spent : length
              (take (length bytes) (drop (0 + length (take (length bytes) bytes)) bytes))
            ≡ 0 =
          ap (λ k. length (take (length bytes) (drop k bytes))) {y = length bytes}
            (let l = ap length all in omega arith)
          ∙ take_nothing (length bytes) (drop (length bytes) bytes) (drop_all bytes) in
        let (s3, m, q3, r3) = cat_loop-end 0 s2 file _ (length bytes) f bytes v _ r2 h spent in
        rw n (
          s3,
          m,
          cat_loop-more 1 s s1 file 0 (length bytes) f bytes v out r
                (q1 ∙ ap (λ b. some (b, s1)) all) n
              ∙ q3,
          r3,
        )
  ]

  opened_file-found :
      (s : Fs S) (name : Str) (file : ℕ)
      → find_file_by_fname name s.file_table ≡ some file
      → opened_file store name s ≡ some (some (file, false), s)
  unfolding opened_file
  opened_file-found s name file e =
      ap
        (λ x.
          (elim x as (λ _. Call (Fs S) (Option (ℕ × Bool))) [
            | some file ↦ pure (some (file, false))
            | none ↦ (do
              file ← filesys_open store name
              elim file [
                | none ↦ pure none
                | some f ↦ (do add_to_file_table store f name; pure (some (f, true)))
              ])
          ])
            s)
        e

  -- On a store that shows the bytes of a file that is in the table, `fsutil_cat` of its name returns 0 and
  -- prints the dump of all its bytes from position 0, or none for an empty file; the position is the
  -- one that the file had.
  pub fsutil_cat-dump :
      (s : Fs S) (name : Str) (file n : ℕ) (f : File) (bytes : List ℕ) (v : View) (out : List Str)
      → find_file_by_fname name s.file_table ≡ some file
      → Reads s file f n v out
      → v f.inode ≡ some bytes
      → (s' : Fs S) × (fsutil_cat store hex_dump name s ≡ some (pos 0, s'))
        × Reads s' file f n v (
            out
            ++ (codes "Printing <" ++ name ++ codes "> to the console...") ∷ []
            ++ dump bytes
            ++ codes "Done printing" ∷ [])
  unfolding fsutil_cat
  fsutil_cat-dump s name file n f bytes v out e r h =
      let line = codes "Printing <" ++ name ++ codes "> to the console..." in
      let s0 : Fs S = record s { out = s.out ++ line ∷ [] } in
      let r0 : Reads s0 file f n v (out ++ line ∷ []) = record {
        live = r.live;
        shows = r.shows;
        printed = ap (λ o. o ++ line ∷ []) r.printed;
      } in
      let (s1, q1, r1) = file_seek-of s0 file n 0 f v _ r0 in
      let (s2, q2, r2) = file_length-of s1 file 0 f bytes v _ r1 h in
      let (s3, m, q3, r3) = cat_loop-dump s2 file f bytes v _ r2 h in
      let (s4, q4, r4) = file_seek-of s3 file m n f v _ r3 in
      (
        record s4 { out = s4.out ++ codes "Done printing" ∷ [] },
        bind_of_some (opened_file store name) _ s0 (some (file, false)) s0
              (opened_file-found s0 name file e)
            ∙ bind_of_some (file_tell store file) _ s0 (pos n) s0 (file_tell-of s0 file n f v _ r0)
            ∙ bind_of_some (file_seek store file (pos 0)) _ s0 tt s1 q1
            ∙ bind_of_some (file_length store file) _ s1 (length bytes) s2 q2
            ∙ bind_of_some (cat_loop store hex_dump 2 file (length bytes)) _ s2 tt s3 q3
            ∙ bind_of_some (file_seek store file (pos n)) _ s3 tt s4 q4,
        record {
          live = r4.live;
          shows = r4.shows;
          printed = ap (λ o. o ++ codes "Done printing" ∷ []) r4.printed;
        },
      )

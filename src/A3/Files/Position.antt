-- ===== src/A3/Files/Position.antt =====
-- The position of a file in a3/fs/file.c, on a store whose calls read and write bytes.
use ecse_427_simple_shell_cr.Base.{
  ℕ, suc, ◌+◌, ◌≤◌, ◌≡◌, refl, sym, ap, ◌∙◌, true, false, Option, some, List, [], ◌∷◌, ◌++◌, ltb,
  ◌==◌, length, take, drop, ℤ, pos, arith, length-append, take-add, drop-drop,
}
use ecse_427_simple_shell_cr.A3.InodeStore.{Call, ◌>>=◌, pure, InodeStore}
use ecse_427_simple_shell_cr.A3.InodeStore.Laws.{View, set_view, set_view_self, overwrite, IsLawful}
use ecse_427_simple_shell_cr.A3.FsState.{File, Fs, put, on_inodes, get_file}
use ecse_427_simple_shell_cr.A3.FsState.Steps.{bind_of_some, on_inodes_of_some, get_file_of_some}
use ecse_427_simple_shell_cr.A3.Directory.Find.{length-overwrite}
use ecse_427_simple_shell_cr.A3.Files.{at_pos, pos_after_write, file_read, file_write}
use ecse_427_simple_shell_cr.A3.Files.Overwrites.{overwrite-overwrite}

pub put_self : {A : Type 0} (heap : ℕ → Option A) (p : ℕ) (x : Option A) → put heap p x p ≡ x
put_self heap p x = let same : (p == p) ≡ true = ground arith in rw same refl

-- The zero that `file_write` puts at the end is there.
last_zero :
    (text : List ℕ) → take (length text + 1) (text ++ 0 ∷ 0 ∷ []) ++ 0 ∷ [] ≡ text ++ 0 ∷ 0 ∷ []
last_zero [] = refl
last_zero (x ∷ text) =
    let s : suc (length text) + 1 ≡ suc (length text + 1) = omega arith in
    rw s (ap (◌∷◌ x) (last_zero text))

pos_after_write-text : (p n : ℕ) → pos_after_write p (n + 2) ≡ pos (p + n)
unfolding pos_after_write
pos_after_write-text p n =
    let far : ltb (p + (n + 2)) 2 ≡ false = ground arith in rw far (ap pos (omega arith))

module _ {S : Type 0} where
  at_pos_of_pos :
      {A : Type 0} (z : ℤ) (p : ℕ) (f : ℕ → Call S A) (s : S) → z ≡ pos p → at_pos z f s ≡ f p s
  at_pos_of_pos z p f s e = rw e refl

module _ {S : Type 0} (store : InodeStore S) (Shows : S → View → Type 0)
    (laws : IsLawful store Shows) where
  -- the state behind a call on a file that moved its position
  abbrev pub moved : Fs S → ℕ → File → ℤ → S → Fs S
  moved s file f p s1 = record s {
    inodes = s1;
    files = put s.files file (some (record f { pos = p }));
  }

  pub file_read-moved :
      (file n p : ℕ) (f : File) (bytes : List ℕ) (s : Fs S) (v : View)
      → s.files file ≡ some f
      → f.pos ≡ pos p
      → Shows s.inodes v
      → v f.inode ≡ some bytes
      → (s1 : S) × (file_read store file (pos n) s
          ≡ some
              (take n (drop p bytes), moved s file f (pos (p + length (take n (drop p bytes)))) s1))
        × Shows s1 v
  unfolding file_read
  file_read-moved file n p f bytes s v live e r h =
      let (s1, q, r1) = laws.reads f.inode n p bytes s.inodes v r h in
      (
        s1,
        bind_of_some (get_file file) _ s f s (get_file_of_some file s f live)
            ∙ at_pos_of_pos f.pos p _ s e
            ∙ bind_of_some (on_inodes (store.inode_read_at f.inode (pos n) p)) _ s _ _
                (on_inodes_of_some (store.inode_read_at f.inode (pos n) p) s _ s1 q),
        r1,
      )

  -- Two reads of an open file one after the other, on a store that shows its bytes, give the bytes that
  -- one read of both sizes gives, and leave the position where that read leaves it.
  pub file_read-twice :
      (file a b p : ℕ) (f : File) (bytes : List ℕ) (s : Fs S) (v : View)
      → s.files file ≡ some f
      → f.pos ≡ pos p
      → Shows s.inodes v
      → v f.inode ≡ some bytes
      → (s1 : Fs S) × (s2 : Fs S) × (both : List ℕ) × ((file_read store file (pos a) >>= λ x.
              (file_read store file (pos b) >>= λ y. pure (x ++ y)))
            s
          ≡ some (both, s1))
        × (file_read store file (pos (a + b)) s ≡ some (both, s2))
        × (s1.files file ≡ s2.files file)
  file_read-twice file a b p f bytes s v live e r h =
      let x = take a (drop p bytes) in
      let (s1, q1, r1) = file_read-moved file a p f bytes s v live e r h in
      let f1 = record f { pos = pos (p + length x) } in
      let (s2, q2, r2) =
        file_read-moved file b (p + length x) f1 bytes (moved s file f f1.pos s1) v
          (put_self s.files file (some f1)) refl r1 h in
      let (s3, q3, r3) = file_read-moved file (a + b) p f bytes s v live e r h in
      let whole : x ++ take b (drop (p + length x) bytes) ≡ take (a + b) (drop p bytes) =
        ap (λ d. x ++ take b d) (sym (drop-drop (length x) p bytes))
        ∙ take-add a b (drop p bytes) in
      let y = take b (drop (p + length x) bytes) in
      let long : p + length x + length y ≡ p + length (take (a + b) (drop p bytes)) =
        let l = length-append x y in let m = ap length whole in omega arith in
      (
        moved (moved s file f f1.pos s1) file f1 (pos (p + length x + length y)) s2,
        moved s file f (pos (p + length (take (a + b) (drop p bytes)))) s3,
        take (a + b) (drop p bytes),
        bind_of_some (file_read store file (pos a)) _ s x _ q1
            ∙ bind_of_some (file_read store file (pos b)) (λ y'. pure (x ++ y')) _ y _ q2
            ∙ ap
                (λ l.
                  some (
                    l,
                    moved (moved s file f f1.pos s1) file f1 (pos (p + length x + length y)) s2,
                  ))
                whole,
        q3,
        put_self (moved s file f f1.pos s1).files file
              (some (record f { pos = pos (p + length x + length y) }))
            ∙ ap (λ k. some (record f { pos = pos k })) long
            ∙ sym (
                put_self s.files file
                  (some (record f { pos = pos (p + length (take (a + b) (drop p bytes))) }))),
      )

  file_write-steps :
      (file size n p : ℕ) (f : File) (buffer : List ℕ) (s : Fs S) (s1 : S)
      → s.files file ≡ some f
      → f.pos ≡ pos p
      → store.inode_write_at f.inode (take size buffer ++ 0 ∷ []) p s.inodes ≡ some (n, s1)
      → file_write store file buffer (suc size) s
        ≡ some (n, moved s file f (pos_after_write p n) s1)
  unfolding file_write
  file_write-steps file size n p f buffer s s1 live e q =
      bind_of_some (get_file file) _ s f s (get_file_of_some file s f live)
      ∙ at_pos_of_pos f.pos p _ s e
      ∙ bind_of_some (on_inodes (store.inode_write_at f.inode (take size buffer ++ 0 ∷ []) p)) _ s n
          _
          (on_inodes_of_some (store.inode_write_at f.inode (take size buffer ++ 0 ∷ []) p) s n s1 q)

  -- a write of a text and two zeros: the position goes behind the text
  file_write-moved :
      (file p : ℕ) (f : File) (text bytes : List ℕ) (s : Fs S) (v : View)
      → s.files file ≡ some f
      → f.pos ≡ pos p
      → Shows s.inodes v
      → v f.inode ≡ some bytes
      → p + length text + 2 ≤ length bytes
      → (s1 : S) × (file_write store file (text ++ 0 ∷ 0 ∷ []) (suc (length text + 1)) s
          ≡ some (length text + 2, moved s file f (pos (p + length text)) s1))
        × Shows s1 (set_view v f.inode (overwrite bytes p (text ++ 0 ∷ 0 ∷ [])))
  file_write-moved file p f text bytes s v live e r h fits =
      let new = text ++ 0 ∷ 0 ∷ [] in
      let long : length new ≡ length text + 2 = length-append text (0 ∷ 0 ∷ []) in
      let (s1, q, r1) =
        laws.writes f.inode p new bytes s.inodes v r h (omega arith) (omega arith) in
      (
        s1,
        file_write-steps file (length text + 1) (length text + 2) p f new s s1 live e (
              ap (λ b. store.inode_write_at f.inode b p s.inodes) (last_zero text)
              ∙ q
              ∙ ap (λ n. some (n, s1)) long)
            ∙ ap (λ z. some (length text + 2, moved s file f z s1))
                (pos_after_write-text p (length text)),
        r1,
      )

  -- On a store that shows the bytes of an open file, two writes one after the other, of two texts with
  -- two zeros behind each that fit into the file, return: the bytes are then those after one write of
  -- both texts together and two zeros, and the position is behind the second text, where each write moved
  -- it by two less than the number of bytes.
  pub file_write-twice :
      (file p : ℕ) (f : File) (a b bytes : List ℕ) (s : Fs S) (v : View)
      → s.files file ≡ some f
      → f.pos ≡ pos p
      → Shows s.inodes v
      → v f.inode ≡ some bytes
      → p + length a + length b + 2 ≤ length bytes
      → (s' : Fs S) × ((file_write store file (a ++ 0 ∷ 0 ∷ []) (suc (length a + 1)) >>= λ _.
              file_write store file (b ++ 0 ∷ 0 ∷ []) (suc (length b + 1)))
            s
          ≡ some (length b + 2, s'))
        × (s'.files file ≡ some (record f { pos = pos (p + length a + length b) }))
        × ((v' : View) × Shows s'.inodes v'
            × (v' f.inode ≡ some (overwrite bytes p (a ++ (b ++ 0 ∷ 0 ∷ [])))))
  file_write-twice file p f a b bytes s v live e r h fits =
      let (s1, q1, r1) = file_write-moved file p f a bytes s v live e r h (omega arith) in
      let f1 = record f { pos = pos (p + length a) } in
      let bytes1 = overwrite bytes p (a ++ 0 ∷ 0 ∷ []) in
      let v1 = set_view v f.inode bytes1 in
      let same =
        length-overwrite bytes (a ++ 0 ∷ 0 ∷ []) p
          (let l = length-append a (0 ∷ 0 ∷ []) in omega arith) in
      let (s2, q2, r2) =
        file_write-moved file (p + length a) f1 b bytes1 (moved s file f f1.pos s1) v1
          (put_self s.files file (some f1)) refl r1 (set_view_self v f.inode bytes1)
          (omega arith) in
      let bytes2 = overwrite bytes1 (p + length a) (b ++ 0 ∷ 0 ∷ []) in
      (
        moved (moved s file f f1.pos s1) file f1 (pos (p + length a + length b)) s2,
        bind_of_some (file_write store file (a ++ 0 ∷ 0 ∷ []) (suc (length a + 1))) _ s _ _ q1 ∙ q2,
        put_self (moved s file f f1.pos s1).files file
            (some (record f { pos = pos (p + length a + length b) })),
        (
          set_view v1 f.inode bytes2,
          r2,
          set_view_self v1 f.inode bytes2
              ∙ ap some (
                  overwrite-overwrite p a (0 ∷ 0 ∷ []) (b ++ 0 ∷ 0 ∷ []) bytes
                    (let l = length-append b (0 ∷ 0 ∷ []) in omega arith) (omega arith)),
        ),
      )

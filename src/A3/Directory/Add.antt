-- ===== src/A3/Directory/Add.antt =====
-- `dir_add` of a3/fs/directory.c, on a store whose calls read and write bytes.
use mathlib.Core.Path.{subst}
use ecse_427_simple_shell_cr.Base.{
  ℕ, suc, ◌+◌, ◌*◌, ◌/◌, ◌<◌, ◌≤◌, ◌≡◌, ◌≢◌, refl, ap, ap₂, ◌∙◌, true, false, ◌||◌, Option, none,
  some, List, [], ◌∷◌, Str, ltb, ◌==◌, if◌then◌else◌, length, take, drop, get_elem?, str_eq,
  eq_of_str_eq, arith, inl, inr, Bool-cases, length-drop,
}
use ecse_427_simple_shell_cr.A3.InodeStore.{InodeStore}
use ecse_427_simple_shell_cr.A3.InodeStore.Laws.{
  View, set_view, set_view_self, overwrite, Gives, IsLawful,
}
use ecse_427_simple_shell_cr.A3.FsState.{Dir, Fs, on_inodes, get_dir}
use ecse_427_simple_shell_cr.A3.FsState.Steps.{bind_of_some, on_inodes_of_some, get_dir_of_some}
use ecse_427_simple_shell_cr.A3.Directory.{
  DirEntry, bytes_of_entry, entry_of_bytes, is_named, name_bytes, write_entry, lookup, add_entry,
}
use ecse_427_simple_shell_cr.A3.Directory.Entries.{
  slots, entries, find_entry, NoZero, length-bytes_of_entry, entry_of_bytes-bytes_of_entry,
}
use ecse_427_simple_shell_cr.A3.Directory.Search.{named, bind-Gives, search-Gives, lookup-named}
use ecse_427_simple_shell_cr.A3.Directory.Find.{
  free_entry, find_entry-found, inside-entries, named-overwrite, named-overwrite_found,
  c_string-name_bytes, length-name_bytes,
}
use ecse_427_simple_shell_cr.A3.Directory.Update.{dir_add}

-- the entry that `dir_add` writes
abbrev pub new_entry : Str → ℕ → DirEntry
new_entry name sector = record { inode_sector = sector; name = name_bytes name; in_use = true }

-- the loop that begins at the parent entry goes on behind it
find_entry-parent :
    (n : ℕ) (bytes : List ℕ)
    → n ≡ suc (length (drop 36 bytes) / 36)
    → (entry_of_bytes (take 36 bytes)).in_use ≡ true
    → find_entry free_entry 0 (slots n bytes) ≡ find_entry free_entry 36 (entries bytes)
unfolding find_entry slots entries
find_entry-parent n bytes e used = rw (e, slots, find_entry, used) refl

entries-short : (bytes : List ℕ) → length bytes < 36 → entries bytes ≡ []
unfolding entries slots
entries-short bytes lt =
    let l = length-drop 36 bytes in
    let none_left : length (drop 36 bytes) / 36 ≡ 0 = omega arith in
    ap (λ n. slots n (drop 36 bytes)) none_left

-- a name in the entry of a name that fits
pub is_named-new :
    (other name : Str) (sector : ℕ)
    → NoZero name
    → length name ≤ 30
    → is_named other (new_entry name sector) ≡ str_eq other name
unfolding is_named
is_named-new other name sector h le = ap (str_eq other) (c_string-name_bytes name h le)

pub is_named-free : (other : Str) (e : DirEntry) → free_entry e ≡ true → is_named other e ≡ false
unfolding is_named
is_named-free other e h = ground arith

pair_of :
    (r : Option DirEntry × ℕ) (f : DirEntry) (o : ℕ) → r.0 ≡ some f → r.1 ≡ o → r ≡ (some f, o)
pair_of r f o p q = ap₂ (λ x y. (x, y)) p q

valid_name :
    (name : Str)
    → name ≢ []
    → length name ≤ 30
    → ((length name == 0) || ltb 30 (length name)) ≡ false
valid_name [] n le = absurd (n refl)
valid_name (c ∷ s) n le = ground arith

-- What names are looked up as once the entry is written.
named-added :
    (other name : Str) (j : ℕ) (bytes : List ℕ) (f : DirEntry) (sector : ℕ)
    → get_elem? (entries bytes) j ≡ some f
    → j < length (entries bytes)
    → free_entry f ≡ true
    → NoZero name
    → length name ≤ 30
    → sector < 4294967296
    → named name bytes ≡ none
    → named other (overwrite bytes (36 + 36 * j) (bytes_of_entry (new_entry name sector)))
      ≡ (if str_eq other name then some (new_entry name sector, 36 + 36 * j) else named other bytes)
named-added other name j bytes f sector g lt t clean short small absent =
    let new = new_entry name sector in
    let l = length-bytes_of_entry new (length-name_bytes name) in
    let back = entry_of_bytes-bytes_of_entry new small (length-name_bytes name) in
    let test = is_named-new other name sector clean short in
    elim (Bool-cases (str_eq other name)) [
      | inl same ↦
          let gone : named other bytes ≡ none =
            ap (λ x. named x bytes) (eq_of_str_eq other name same) ∙ absent in
          rw same (named-overwrite_found other j bytes new gone lt l back (test ∙ same))
      | inr differ ↦ rw differ (
          named-overwrite other j bytes f new g lt l back (is_named-free other f t) (test ∙ differ))
    ]

module _ {S : Type 0} (store : InodeStore S) (Shows : S → View → Type 0)
    (laws : IsLawful store Shows) where
  pub write_entry-Gives :
      (dir ofs : ℕ) (e : DirEntry) (bytes : List ℕ) (s : S) (v : View)
      → Shows s v
      → v dir ≡ some bytes
      → length (bytes_of_entry e) ≡ 36
      → ofs + 36 ≤ length bytes
      → Gives Shows
          (write_entry store dir e ofs)
          s
          (set_view v dir (overwrite bytes ofs (bytes_of_entry e)))
          true
  unfolding write_entry
  write_entry-Gives dir ofs e bytes s v r h l le =
      bind-Gives Shows (store.inode_write_at dir (bytes_of_entry e) ofs) _ s _ _ _ true
        (laws.writes dir ofs (bytes_of_entry e) bytes s v r h (omega arith) (omega arith))
        λ s' r'.
          let whole : (length (bytes_of_entry e) == 36) ≡ true = ground arith in
          (s', rw whole refl, r')

  add_entry-Gives :
      (dir ofs : ℕ) (name : Str) (sector : ℕ) (f : DirEntry) (bytes : List ℕ) (s : S) (v : View)
      → Shows s v
      → v dir ≡ some bytes
      → 36 ≤ length bytes
      → (entry_of_bytes (take 36 bytes)).in_use ≡ true
      → find_entry free_entry 36 (entries bytes) ≡ (some f, ofs)
      → ofs + 36 ≤ length bytes
      → Gives Shows
          (add_entry store dir name sector)
          s
          (set_view v dir (overwrite bytes ofs (bytes_of_entry (new_entry name sector))))
          true
  unfolding add_entry
  add_entry-Gives dir ofs name sector f bytes s v r h long used found le =
      search-Gives store Shows laws free_entry dir 0 bytes s v _
        (λ slot. write_entry store dir (new_entry name sector) slot.1) true r h
        λ s' r'.
          let l = length-drop 36 bytes in
          let at : find_entry free_entry 0 (slots (length bytes / 36) bytes) ≡ (some f, ofs) =
            find_entry-parent (length bytes / 36) bytes (omega arith) used ∙ found in
          let there = ap (λ x. x.1) at in
          rw there (
            write_entry-Gives dir ofs (new_entry name sector) bytes s' v r' h
              (length-bytes_of_entry (new_entry name sector) (length-name_bytes name)) le)

  dir_add-steps :
      (unset : Str) (dir : ℕ) (name : Str) (sector : ℕ) (s : Fs S) (d : Dir) (s1 s2 : S)
      → ((length name == 0) || ltb 30 (length name)) ≡ false
      → s.dirs dir ≡ some d
      → lookup store d.inode name s.inodes ≡ some (none, s1)
      → add_entry store d.inode name sector s1 ≡ some (true, s2)
      → dir_add store unset dir name sector false s ≡ some (true, record s { inodes = s2 })
  unfolding dir_add
  dir_add-steps unset dir name sector s d s1 s2 valid live free added = rw valid (
      bind_of_some (get_dir dir) _ s d s (get_dir_of_some dir s d live)
      ∙ bind_of_some (on_inodes (lookup store d.inode name)) _ s none _
          (on_inodes_of_some (lookup store d.inode name) s none s1 free)
      ∙ on_inodes_of_some (add_entry store d.inode name sector) (record s { inodes = s1 }) true s2
          added)

  -- On a store that shows the bytes of a directory whose parent entry is in use and which has a free
  -- entry, `dir_add` of a file of a valid name that is not in use returns true; after it that name is
  -- looked up as the new entry, every other name as before, and no other inode's bytes have changed.
  pub dir_add-lookup :
      (unset : Str) (dir : ℕ) (name : Str) (sector : ℕ) (f : DirEntry) (d : Dir) (bytes : List ℕ)
      (s : Fs S) (v : View)
      → s.dirs dir ≡ some d
      → Shows s.inodes v
      → v d.inode ≡ some bytes
      → name ≢ []
      → length name ≤ 30
      → NoZero name
      → sector < 4294967296
      → (entry_of_bytes (take 36 bytes)).in_use ≡ true
      → (find_entry free_entry 36 (entries bytes)).0 ≡ some f
      → named name bytes ≡ none
      → (s' : S) × (bytes' : List ℕ) × (ofs : ℕ) × (dir_add store unset dir name sector false s
          ≡ some (true, record s { inodes = s' }))
        × Shows s' (set_view v d.inode bytes')
        × ((other : Str)
            → Gives Shows (lookup store d.inode other) s' (set_view v d.inode bytes') (
                if str_eq other name then some (new_entry name sector, ofs) else named other bytes))
  dir_add-lookup unset dir name sector f d bytes s v live r h n short clean small used free absent =
      let (j, lt, o, g, t) = find_entry-found free_entry 36 (entries bytes) f free in
      let new = new_entry name sector in
      let inside = inside-entries j bytes lt in
      let l = length-bytes_of_entry new (length-name_bytes name) in
      let back = entry_of_bytes-bytes_of_entry new small (length-name_bytes name) in
      let (s1, q1, r1) = lookup-named store Shows laws d.inode name bytes s.inodes v r h in
      let (s2, q2, r2) =
        add_entry-Gives d.inode (36 + 36 * j) name sector f bytes s1 v r1 h (omega arith) used
          (pair_of _ _ _ free o) inside in
      let bytes' = overwrite bytes (36 + 36 * j) (bytes_of_entry new) in
      (
        s2,
        bytes',
        36 + 36 * j,
        dir_add-steps unset dir name sector s d s1 s2 (valid_name name n short) live
            (q1 ∙ ap (λ x. some (x, s1)) absent) q2,
        r2,
        λ other.
            subst (Gives Shows (lookup store d.inode other) s2 (set_view v d.inode bytes'))
              (named-added other name j bytes f sector g lt t clean short small absent)
              (lookup-named store Shows laws d.inode other bytes' s2 _ r2
                (set_view_self v d.inode bytes')),
      )

-- ===== src/A3/Directory/Find.antt =====
-- What a search finds among the entries of a directory after one of them is written, for a3/fs/directory.c.
use ecse_427_simple_shell_cr.Base.{
  ℕ, zero, suc, ◌+◌, ◌*◌, ◌/◌, ◌<◌, ◌≤◌, ◌≡◌, refl, ap, ◌∙◌, Bool, true, false, not, Option, none,
  some, List, [], ◌∷◌, ◌++◌, Str, if◌then◌else◌, length, take, drop, set, get_elem?, replicate,
  c_string, arith, inl, inr, Bool-cases, length-drop, length-append, length-take_le,
  length-replicate,
}
use ecse_427_simple_shell_cr.A3.InodeStore.Laws.{overwrite}
use ecse_427_simple_shell_cr.A3.Directory.{
  DirEntry, bytes_of_entry, entry_of_bytes, is_named, name_bytes,
}
use ecse_427_simple_shell_cr.A3.Directory.Entries.{
  entries, find_entry, length-slots, slots-overwrite, drop-overwrite, NoZero,
}
use ecse_427_simple_shell_cr.A3.Directory.Search.{as_found, named}

none_found : (found : Option DirEntry × ℕ) → as_found found ≡ none → found.0 ≡ none
none_found (none, o) h = refl
none_found (some e, o) h = cc

-- An entry that is found stands at its offset, and passes the test.
pub find_entry-found :
    (test : DirEntry → Bool) (ofs : ℕ) (es : List DirEntry) (f : DirEntry)
    → (find_entry test ofs es).0 ≡ some f
    → (j : ℕ) × (j < length es)
      × ((find_entry test ofs es).1 ≡ ofs + 36 * j)
      × (get_elem? es j ≡ some f)
      × (test f ≡ true)
unfolding find_entry
find_entry-found test ofs [] f h = cc
find_entry-found test ofs (e ∷ es) f h = elim (Bool-cases (test e)) [
  | inl t ↦
      let same : some e ≡ some f = rw (t, find_entry) at h in
      (0, omega arith, rw (t, find_entry) (omega arith), same, cc)
  | inr n ↦
      let later : (find_entry test (ofs + 36) es).0 ≡ some f = rw (n, find_entry) at h in
      let (j, lt, o, g, t) = find_entry-found test (ofs + 36) es f later in
      (suc j, omega arith, rw (n, find_entry) (o ∙ omega arith), g, t)
]

-- A write of an entry that does not pass the test, in place of another, changes nothing for a search.
pub find_entry-set :
    (test : DirEntry → Bool) (ofs : ℕ) (es : List DirEntry) (j : ℕ) (old new : DirEntry)
    → get_elem? es j ≡ some old
    → test old ≡ false
    → test new ≡ false
    → find_entry test ofs (set es j new) ≡ find_entry test ofs es
unfolding find_entry
find_entry-set test ofs [] j old new g o n = cc
find_entry-set test ofs (e ∷ es) zero old new g o n =
    let same : test e ≡ false = cc in rw (n, find_entry, same)
find_entry-set test ofs (e ∷ es) (suc j) old new g o n =
    ap (λ r. if test e then (some e, ofs) else r)
      (find_entry-set test (ofs + 36) es j old new g o n)

-- Where no entry passes the test, one that does is found where it is written.
pub find_entry-set_found :
    (test : DirEntry → Bool) (ofs : ℕ) (es : List DirEntry) (j : ℕ) (new : DirEntry)
    → (find_entry test ofs es).0 ≡ none
    → j < length es
    → test new ≡ true
    → find_entry test ofs (set es j new) ≡ (some new, ofs + 36 * j)
unfolding find_entry
find_entry-set_found test ofs [] j new h lt t = absurd (omega arith)
find_entry-set_found test ofs (e ∷ es) zero new h lt t =
    rw (t, find_entry) (ap (λ o. (some new, o)) (omega arith))
find_entry-set_found test ofs (e ∷ es) (suc j) new h lt t = elim (Bool-cases (test e)) [
  | inl u ↦ let bad : some e ≡ none = rw (u, find_entry) at h in cc
  | inr n ↦
      let later : (find_entry test (ofs + 36) es).0 ≡ none = rw (n, find_entry) at h in
      let there = find_entry-set_found test (ofs + 36) es j new later (omega arith) t in
      rw (n, find_entry, there) (ap (λ o. (some new, o)) (omega arith))
]

pub length-overwrite :
    (bytes new : List ℕ) (k : ℕ)
    → k + length new ≤ length bytes
    → length (overwrite bytes k new) ≡ length bytes
unfolding overwrite
length-overwrite bytes new k le =
    let a = length-append (take k bytes) (new ++ drop (k + length new) bytes) in
    let b = length-append new (drop (k + length new) bytes) in
    let c = length-drop (k + length new) bytes in
    let d = length-take_le k bytes (omega arith) in omega arith

-- Overwriting the bytes of an entry changes that entry.
pub entries-overwrite :
    (j : ℕ) (bytes new : List ℕ)
    → length new ≡ 36
    → j < length (entries bytes)
    → entries (overwrite bytes (36 + 36 * j) new) ≡ set (entries bytes) j (entry_of_bytes new)
unfolding entries
entries-overwrite j bytes new l lt =
    let count = length-slots (length (drop 36 bytes) / 36) (drop 36 bytes) in
    let less = length-drop 36 bytes in
    let same = length-overwrite (drop 36 bytes) new (36 * j) (omega arith) in
    rw (drop-overwrite (36 * j) bytes new (omega arith), same)
      (slots-overwrite (length (drop 36 bytes) / 36) j (drop 36 bytes) new l (omega arith)
        (omega arith))

pub inside-entries :
    (j : ℕ) (bytes : List ℕ) → j < length (entries bytes) → 36 + 36 * j + 36 ≤ length bytes
unfolding entries
inside-entries j bytes lt =
    let count = length-slots (length (drop 36 bytes) / 36) (drop 36 bytes) in
    let less = length-drop 36 bytes in omega arith

c_string-padded :
    (k m : ℕ) (name : Str)
    → NoZero name
    → length name < k
    → c_string (take k (name ++ replicate (suc m) 0)) ≡ name
unfolding c_string
c_string-padded zero m name h lt = absurd (omega arith)
c_string-padded (suc k) m [] h lt = refl
c_string-padded (suc k) m (c ∷ name) h lt =
    rw (h.0, c_string, c_string-padded k m name h.1 (omega arith))

-- A name that fits is the name of its entry.
pub c_string-name_bytes :
    (name : Str) → NoZero name → length name ≤ 30 → c_string (name_bytes name) ≡ name
unfolding name_bytes
c_string-name_bytes name h le = c_string-padded 31 30 name h (omega arith)

pub length-name_bytes : (name : Str) → length (name_bytes name) ≡ 31
unfolding name_bytes
length-name_bytes name =
    let l = length-append name (replicate 31 0) in
    let r = length-replicate {A = ℕ} 31 0 in
    length-take_le 31 (name ++ replicate 31 0) (omega arith)

abbrev pub free_entry : DirEntry → Bool
free_entry e = not e.in_use

written_entries :
    (j : ℕ) (bytes : List ℕ) (new : DirEntry)
    → length (bytes_of_entry new) ≡ 36
    → j < length (entries bytes)
    → entry_of_bytes (bytes_of_entry new) ≡ new
    → entries (overwrite bytes (36 + 36 * j) (bytes_of_entry new)) ≡ set (entries bytes) j new
written_entries j bytes new l lt back =
    entries-overwrite j bytes (bytes_of_entry new) l lt ∙ ap (set (entries bytes) j) back

-- A name is looked up as before after the write of a free entry in place of a free one, or of an entry of
-- another name.
pub named-overwrite :
    (other : Str) (j : ℕ) (bytes : List ℕ) (old new : DirEntry)
    → get_elem? (entries bytes) j ≡ some old
    → j < length (entries bytes)
    → length (bytes_of_entry new) ≡ 36
    → entry_of_bytes (bytes_of_entry new) ≡ new
    → is_named other old ≡ false
    → is_named other new ≡ false
    → named other (overwrite bytes (36 + 36 * j) (bytes_of_entry new)) ≡ named other bytes
unfolding named
named-overwrite other j bytes old new g lt l back o n =
    ap (λ es. as_found (find_entry (is_named other) 36 es)) (written_entries j bytes new l lt back)
    ∙ ap as_found (find_entry-set (is_named other) 36 (entries bytes) j old new g o n)

pub named-overwrite_found :
    (name : Str) (j : ℕ) (bytes : List ℕ) (new : DirEntry)
    → named name bytes ≡ none
    → j < length (entries bytes)
    → length (bytes_of_entry new) ≡ 36
    → entry_of_bytes (bytes_of_entry new) ≡ new
    → is_named name new ≡ true
    → named name (overwrite bytes (36 + 36 * j) (bytes_of_entry new)) ≡ some (new, 36 + 36 * j)
unfolding named
named-overwrite_found name j bytes new absent lt l back t =
    ap (λ es. as_found (find_entry (is_named name) 36 es)) (written_entries j bytes new l lt back)
    ∙ ap as_found
        (find_entry-set_found (is_named name) 36 (entries bytes) j new (none_found _ absent) lt t)

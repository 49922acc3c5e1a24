-- ===== src/A3/Directory/Entries.antt =====
-- The entries that the bytes of a directory are, for a3/fs/directory.c, by the bytes alone.
use mathlib.Core.Path.{subst}
use ecse_427_simple_shell_cr.Base.{
  ℕ, zero, suc, ◌+◌, ◌*◌, ◌/◌, ◌<◌, ◌≤◌, ◌≡◌, refl, sym, ap, ◌∙◌, Bool, true, false, not, Option,
  none, some, List, [], ◌∷◌, ◌++◌, Str, ◌==◌, if◌then◌else◌, length, take, drop, set, length-append,
  arith, take-append, drop-append, length-drop, drop-drop, take-take_add, drop-take_add,
}
use ecse_427_simple_shell_cr.A3.Inode.{entry, word_at}
use ecse_427_simple_shell_cr.A3.InodeStore.Laws.{overwrite}
use ecse_427_simple_shell_cr.A3.Directory.{DirEntry, bytes_of_word, bytes_of_entry, entry_of_bytes}

-- so many entries
unfoldable pub slots : ℕ → List ℕ → List DirEntry
slots zero bytes = []
slots (suc n) bytes = entry_of_bytes (take 36 bytes) ∷ slots n (drop 36 bytes)

-- The entries of a directory behind the parent entry.
unfoldable pub entries : List ℕ → List DirEntry
unfolding slots
entries bytes = slots (length (drop 36 bytes) / 36) (drop 36 bytes)

-- The first entry of a list that passes a test, and its offset, where the list begins at an offset.
unfoldable pub find_entry : (DirEntry → Bool) → ℕ → List DirEntry → Option DirEntry × ℕ
find_entry test ofs [] = (none, ofs)
find_entry test ofs (e ∷ es) = if test e then (some e, ofs) else find_entry test (ofs + 36) es

-- the bytes of an entry as an entry
word_at-bytes_of_word :
    (n : ℕ) (rest : List ℕ) → n < 4294967296 → word_at (bytes_of_word n ++ rest) 0 ≡ n
unfolding word_at bytes_of_word entry
word_at-bytes_of_word n rest lt = omega arith

entry-length :
    (xs : List ℕ) (x : ℕ) (ys : List ℕ) (n : ℕ) → length xs ≡ n → entry (xs ++ (x ∷ ys)) n ≡ x
unfolding entry
entry-length [] x ys n e = rw (sym e) refl
entry-length (y ∷ xs) x ys zero e = absurd (omega arith)
entry-length (y ∷ xs) x ys (suc n) e = entry-length xs x ys n (omega arith)

pub length-bytes_of_entry : (e : DirEntry) → length e.name ≡ 31 → length (bytes_of_entry e) ≡ 36
unfolding bytes_of_entry bytes_of_word
length-bytes_of_entry e h =
    let l = length-append e.name ((if e.in_use then 1 else 0) ∷ []) in omega arith

pub DirEntry-path :
    (a b : DirEntry)
    → a.inode_sector ≡ b.inode_sector
    → a.name ≡ b.name
    → a.in_use ≡ b.in_use
    → a ≡ b
DirEntry-path a b s n u =
    ap (λ x. record { inode_sector = x; name = a.name; in_use = a.in_use }) s
    ∙ ap (λ x. record { inode_sector = b.inode_sector; name = x; in_use = a.in_use }) n
    ∙ ap (λ x. record { inode_sector = b.inode_sector; name = b.name; in_use = x }) u

flag_of : (u : Bool) → not ((if u then 1 else 0) == 0) ≡ u
flag_of true = refl
flag_of false = refl

take_all : (n : ℕ) (xs ys : List ℕ) → length xs ≡ n → take n (xs ++ ys) ≡ xs
take_all n xs ys h = subst (λ k. take k (xs ++ ys) ≡ xs) h (take-append xs ys)

drop_all : (n : ℕ) (xs ys : List ℕ) → length xs ≡ n → drop n (xs ++ ys) ≡ ys
drop_all n xs ys h = subst (λ k. drop k (xs ++ ys) ≡ ys) h (drop-append xs ys)

-- An entry is read back as it was written, if its sector and its name fit.
pub entry_of_bytes-bytes_of_entry :
    (e : DirEntry)
    → e.inode_sector < 4294967296
    → length e.name ≡ 31
    → entry_of_bytes (bytes_of_entry e) ≡ e
unfolding entry_of_bytes bytes_of_entry bytes_of_word
entry_of_bytes-bytes_of_entry e lt h =
    let flag = (if e.in_use then 1 else 0) in
    let four = bytes_of_word e.inode_sector in
    let longer = length-append four e.name in
    DirEntry-path (entry_of_bytes (bytes_of_entry e)) e
      (word_at-bytes_of_word e.inode_sector (e.name ++ flag ∷ []) lt)
      (take_all 31 e.name (flag ∷ []) h)
      (ap (λ x. not (x == 0)) (entry-length (four ++ e.name) flag [] 35 (omega arith))
        ∙ flag_of e.in_use)

-- a name that fits: the bytes up to its end are read back
abbrev pub NoZero : Str → Type 0
NoZero [] = Unit {0}
NoZero (c ∷ s) = ((c == 0) ≡ false) × NoZero s

-- a list of so many entries
pub length-slots : (n : ℕ) (bytes : List ℕ) → length (slots n bytes) ≡ n
unfolding slots
length-slots zero bytes = refl
length-slots (suc n) bytes = let rest = length-slots n (drop 36 bytes) in omega arith

take-overwrite :
    (k : ℕ) (bytes new : List ℕ)
    → 36 + k ≤ length bytes
    → take 36 (overwrite bytes (36 + k) new) ≡ take 36 bytes
unfolding overwrite
take-overwrite k bytes new le = take-take_add 36 k bytes _ le

pub drop-overwrite :
    (k : ℕ) (bytes new : List ℕ)
    → 36 + k ≤ length bytes
    → drop 36 (overwrite bytes (36 + k) new) ≡ overwrite (drop 36 bytes) k new
unfolding overwrite
drop-overwrite k bytes new le =
    drop-take_add 36 k bytes _ le
    ∙ ap (λ r. take k (drop 36 bytes) ++ (new ++ r))
        (ap (λ j. drop j bytes) (omega arith) ∙ sym (drop-drop (k + length new) 36 bytes))

take-overwrite_first :
    (bytes new : List ℕ) → length new ≡ 36 → take 36 (overwrite bytes (36 * 0) new) ≡ new
unfolding overwrite
take-overwrite_first bytes new l = take_all 36 new _ l

drop-overwrite_first :
    (bytes new : List ℕ) → length new ≡ 36 → drop 36 (overwrite bytes (36 * 0) new) ≡ drop 36 bytes
unfolding overwrite
drop-overwrite_first bytes new l =
    drop_all 36 new (drop (0 + length new) bytes) l ∙ ap (λ k. drop k bytes) {y = 36} (omega arith)

-- Overwriting an entry's bytes changes that entry.
pub slots-overwrite :
    (n k : ℕ) (bytes new : List ℕ)
    → length new ≡ 36
    → k < n
    → 36 * n ≤ length bytes
    → slots n (overwrite bytes (36 * k) new) ≡ set (slots n bytes) k (entry_of_bytes new)
unfolding slots
slots-overwrite zero k bytes new l lt le = absurd (omega arith)
slots-overwrite (suc n) zero bytes new l lt le =
    rw (take-overwrite_first bytes new l, drop-overwrite_first bytes new l)
slots-overwrite (suc n) (suc k) bytes new l lt le =
    let place : 36 * suc k ≡ 36 + 36 * k = omega arith in
    let shorter = length-drop 36 bytes in
    rw (
      place,
      take-overwrite (36 * k) bytes new (omega arith),
      drop-overwrite (36 * k) bytes new (omega arith),
      slots-overwrite n k (drop 36 bytes) new l (omega arith) (omega arith),
    )

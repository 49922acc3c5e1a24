-- ===== src/A3/Filesys/Listed.antt =====
-- The names that a listing prints, as a list of the entries of a directory, for `list_names` of
-- a3/fs/fsutil.c.
use ecse_427_simple_shell_cr.Base.{
  ℕ, zero, suc, ◌+◌, ◌*◌, ◌<◌, ◌≤◌, ◌≡◌, refl, ap, Bool, true, false, Option, none, some, List, [],
  ◌∷◌, Str, if◌then◌else◌, length, take, drop, c_string, arith, inl, inr, ◌⊎◌, Bool-cases,
  length-drop, drop-drop,
}
use ecse_427_simple_shell_cr.A3.FsState.{Dir}
use ecse_427_simple_shell_cr.A3.Directory.{DirEntry, entry_of_bytes}
use ecse_427_simple_shell_cr.A3.Directory.Entries.{slots, find_entry}

-- the names of the entries in use, in their order
unfoldable pub listed : List DirEntry → List Str
listed [] = []
listed (e ∷ es) = if e.in_use then c_string e.name ∷ listed es else listed es

-- From an offset on, the bytes have room for so many entries.
abbrev pub Span : ℕ → ℕ → List ℕ → Type 0
Span n ofs bytes = (36 * n ≤ length (drop ofs bytes)) × (length (drop ofs bytes) < 36 * n + 36)

abbrev pub in_use_entry : DirEntry → Bool
in_use_entry e = e.in_use

abbrev pub at_offset : Dir → ℕ → Dir
at_offset d ofs = record d { pos = ofs }

-- the position behind an entry that was found, or at the end
abbrev pub behind : Option DirEntry × ℕ → ℕ
behind (none, ofs) = ofs
behind (some e, ofs) = ofs + 36

pub Span-next : (n ofs : ℕ) (bytes : List ℕ) → Span (suc n) ofs bytes → Span n (ofs + 36) bytes
Span-next n ofs bytes (le, lt) =
    let a = length-drop ofs bytes in
    let b = length-drop (ofs + 36) bytes in (omega arith, omega arith)

find-nothing : (ofs : ℕ) → (find_entry in_use_entry ofs []).0 ≡ none
unfolding find_entry
find-nothing ofs = refl

pub find-hit :
    (ofs : ℕ) (e : DirEntry) (es : List DirEntry)
    → e.in_use ≡ true
    → find_entry in_use_entry ofs (e ∷ es) ≡ (some e, ofs)
unfolding find_entry
find-hit ofs e es t = ap (λ b. if b then (some e, ofs) else find_entry in_use_entry (ofs + 36) es) t

pub find-miss :
    (ofs : ℕ) (e : DirEntry) (es : List DirEntry)
    → e.in_use ≡ false
    → find_entry in_use_entry ofs (e ∷ es) ≡ find_entry in_use_entry (ofs + 36) es
unfolding find_entry
find-miss ofs e es f =
    ap (λ b. if b then (some e, ofs) else find_entry in_use_entry (ofs + 36) es) f

pub find-nil : (ofs : ℕ) → find_entry in_use_entry ofs [] ≡ (none, ofs)
unfolding find_entry
find-nil ofs = refl

listed-nothing : listed [] ≡ []
unfolding listed
listed-nothing = refl

listed-hit :
    (e : DirEntry) (es : List DirEntry)
    → e.in_use ≡ true
    → listed (e ∷ es) ≡ c_string e.name ∷ listed es
unfolding listed
listed-hit e es t = ap (λ b. if b then c_string e.name ∷ listed es else listed es) t

listed-miss : (e : DirEntry) (es : List DirEntry) → e.in_use ≡ false → listed (e ∷ es) ≡ listed es
unfolding listed
listed-miss e es f = ap (λ b. if b then c_string e.name ∷ listed es else listed es) f

-- What a listing goes on with: nothing is left in use, or a name and the entries behind it.
pub listed-next :
    (n ofs : ℕ) (bytes : List ℕ)
    → Span n ofs bytes
    → (let es = slots n (drop ofs bytes) in
        let found = find_entry in_use_entry ofs es in
        ((found.0 ≡ none) × (listed es ≡ []))
        ⊎ ((e : DirEntry) × (m : ℕ) × (m < n)
            × (found.0 ≡ some e)
            × Span m (behind found) bytes
            × (listed es ≡ c_string e.name ∷ listed (slots m (drop (behind found) bytes)))))
unfolding slots
listed-next zero ofs bytes span = inl (find-nothing ofs, listed-nothing)
listed-next (suc n) ofs bytes span =
    let e = entry_of_bytes (take 36 (drop ofs bytes)) in
    let rest = slots n (drop 36 (drop ofs bytes)) in
    let on : slots n (drop 36 (drop ofs bytes)) ≡ slots n (drop (ofs + 36) bytes) =
      ap (slots n) (drop-drop 36 ofs bytes) in
    elim (Bool-cases e.in_use) [
      | inl t ↦
          rw (find-hit ofs e rest t, listed-hit e rest t, on)
            (inr (e, n, omega arith, refl, Span-next n ofs bytes span, refl))
      | inr f ↦
          rw (find-miss ofs e rest f, listed-miss e rest f, on)
            (elim (listed-next n (ofs + 36) bytes (Span-next n ofs bytes span)) [
              | inl done ↦ inl done
              | inr (x, m, lt, q, sp, l) ↦ inr (x, m, omega arith, q, sp, l)
            ])
    ]

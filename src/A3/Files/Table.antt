-- ===== src/A3/Files/Table.antt =====
-- The table of open files of a3/fs/file.c.
use mathlib.Core.Path.{subst}
use ecse_427_simple_shell_cr.Base.{
  ℕ, ◌≡◌, ◌≢◌, refl, sym, ap, ◌∙◌, Bool, true, false, Option, none, some, List, [], ◌∷◌, ◌++◌, Str,
  str_eq, str_eq_refl, str_eq_ne, eq_of_str_eq, ne_of_str_eq, if◌then◌else◌, inl, inr, Option-cases,
  Bool-cases,
}
use ecse_427_simple_shell_cr.A3.InodeStore.{Call, ◌>>◌, pure, InodeStore}
use ecse_427_simple_shell_cr.A3.FsState.{FileTableEntry, Fs, set_table}
use ecse_427_simple_shell_cr.A3.Files.{
  find_file_by_fname, take_from_table, get_file_by_fname, add_to_file_table, file_close,
  remove_from_file_table,
}

-- No name stands in the table twice.
abbrev pub Distinct : List FileTableEntry → Type 0
Distinct [] = Unit {0}
Distinct (e ∷ es) = (find_file_by_fname e.fname es ≡ none) × Distinct es

find-append_none :
    (name : Str) (es fs : List FileTableEntry)
    → find_file_by_fname name es ≡ none
    → find_file_by_fname name (es ++ fs) ≡ find_file_by_fname name fs
unfolding find_file_by_fname
find-append_none name [] fs h = refl
find-append_none name (e ∷ es) fs h = elim (Bool-cases (str_eq e.fname name)) [
  | inl t ↦ let bad : some e.f ≡ none = rw (t, find_file_by_fname) at h in cc
  | inr n ↦
      let rest : find_file_by_fname name es ≡ none = rw (n, find_file_by_fname) at h in
      rw (n, find_file_by_fname) (find-append_none name es fs rest)
]

find-append_ne :
    (name : Str) (es : List FileTableEntry) (new : FileTableEntry)
    → str_eq new.fname name ≡ false
    → find_file_by_fname name (es ++ new ∷ []) ≡ find_file_by_fname name es
unfolding find_file_by_fname
find-append_ne name [] new n = rw n
find-append_ne name (e ∷ es) new n =
    ap (λ r. if str_eq e.fname name then some e.f else r) (find-append_ne name es new n)

append-Distinct :
    (es : List FileTableEntry) (new : FileTableEntry)
    → Distinct es
    → find_file_by_fname new.fname es ≡ none
    → Distinct (es ++ new ∷ [])
unfolding find_file_by_fname
append-Distinct [] new d h = (refl, tt)
append-Distinct (e ∷ es) new (free, d) h = elim (Bool-cases (str_eq e.fname new.fname)) [
  | inl t ↦ let bad : some e.f ≡ none = rw (t, find_file_by_fname) at h in cc
  | inr n ↦
      let rest : find_file_by_fname new.fname es ≡ none = rw (n, find_file_by_fname) at h in
      let other : str_eq new.fname e.fname ≡ false =
        str_eq_ne new.fname e.fname (λ q. ne_of_str_eq e.fname new.fname n (sym q)) in
      (find-append_ne e.fname es new other ∙ free, append-Distinct es new d rest)
]

find_self :
    (name : Str) (file : ℕ)
    → find_file_by_fname name (record { fname = name; f = file } ∷ []) ≡ some file
unfolding find_file_by_fname
find_self name file = rw (str_eq_refl name) refl

-- what it means that a name was taken from a table
abbrev Taken : Str → List FileTableEntry → Option (ℕ × List FileTableEntry) → Type 0
Taken name es none = find_file_by_fname name es ≡ none
Taken name es (some r) =
    Distinct r.1
    × (find_file_by_fname name r.1 ≡ none)
    × ((other : Str) → other ≢ name → find_file_by_fname other r.1 ≡ find_file_by_fname other es)

here-Taken :
    (name : Str) (e : FileTableEntry) (es : List FileTableEntry)
    → str_eq e.fname name ≡ true
    → Distinct (e ∷ es)
    → Taken name (e ∷ es) (some (e.f, es))
unfolding find_file_by_fname
here-Taken name e es t (free, d) =
    let same = eq_of_str_eq e.fname name t in
    (
      d,
      ap (λ x. find_file_by_fname x es) (sym same) ∙ free,
      λ other ne.
          let n : str_eq e.fname other ≡ false = str_eq_ne e.fname other (λ q. ne (sym q ∙ same)) in
          rw (n, find_file_by_fname) refl,
    )

kept-Taken :
    (name : Str) (e : FileTableEntry) (es : List FileTableEntry)
    (r : Option (ℕ × List FileTableEntry))
    → str_eq e.fname name ≡ false
    → Distinct (e ∷ es)
    → Taken name es r
    → Taken name (e ∷ es) (elim r as (λ _. Option (ℕ × List FileTableEntry)) [
      | none ↦ none
      | some x ↦ some (x.0, e ∷ x.1)
    ])
unfolding find_file_by_fname
kept-Taken name e es none n d taken = rw (n, find_file_by_fname) taken
kept-Taken name e es (some x) n (free, d) (d', gone, others) = (
  (others e.fname (ne_of_str_eq e.fname name n) ∙ free, d'),
  rw (n, find_file_by_fname) gone,
  λ other ne. ap (λ r. if str_eq e.fname other then some e.f else r) (others other ne),
)

take_from_table-Taken :
    (name : Str) (es : List FileTableEntry) → Distinct es → Taken name es (take_from_table name es)
unfolding take_from_table find_file_by_fname
take_from_table-Taken name [] d = refl
take_from_table-Taken name (e ∷ es) d = elim (Bool-cases (str_eq e.fname name)) [
  | inl t ↦ rw (t, take_from_table) (here-Taken name e es t d)
  | inr n ↦
      rw (n, take_from_table)
        (kept-Taken name e es (take_from_table name es) n d (take_from_table-Taken name es d.1))
]

module _ {S : Type 0} (store : InodeStore S) where
  -- a result that is none, or a state with the table
  abbrev HasTable : {A : Type 0} → List FileTableEntry → Option (A × Fs S) → Type 0
  HasTable t none = Unit {0}
  HasTable t (some r) = r.1.file_table ≡ t

  stored-HasTable :
      {A : Type 0} (t : List FileTableEntry) (r : Option (A × Fs S))
      → HasTable t (elim r as (λ _. Option (Bool × Fs S)) [
        | none ↦ none
        | some p ↦ (set_table t >> pure true) p.1
      ])
  stored-HasTable t none = tt
  stored-HasTable t (some p) = refl

  after_take :
      (name : Str) (s : Fs S) (r : Option (ℕ × List FileTableEntry))
      → Taken name s.file_table r
      → Distinct s.file_table
      → (t : List FileTableEntry) × Distinct t
        × (find_file_by_fname name t ≡ none)
        × ((other : Str)
            → other ≢ name
            → find_file_by_fname other t ≡ find_file_by_fname other s.file_table)
        × HasTable t (
            elim r as (λ _. Call (Fs S) Bool) [
              | none ↦ pure false
              | some x ↦ (do file_close store x.0; set_table x.1; pure true)
            ]
              s)
  after_take name s none taken d = (s.file_table, d, taken, λ other ne. refl, refl)
  after_take name s (some x) (d', gone, others) d =
      (x.1, d', gone, others, stored-HasTable x.1 (file_close store x.0 s))

  -- From a table in which no name stands twice, `remove_from_file_table`, if it returns, leaves such a
  -- table, in which the name does not stand, and every other name has the file it had.
  pub remove_from_file_table-Distinct :
      (name : Str) (s s' : Fs S) (done : Bool)
      → Distinct s.file_table
      → remove_from_file_table store name s ≡ some (done, s')
      → Distinct s'.file_table
        × (find_file_by_fname name s'.file_table ≡ none)
        × ((other : Str)
            → other ≢ name
            → find_file_by_fname other s'.file_table ≡ find_file_by_fname other s.file_table)
  unfolding remove_from_file_table
  remove_from_file_table-Distinct name s s' done d h =
      let (t, d', gone, others, has) =
        after_take name s (take_from_table name s.file_table)
          (take_from_table-Taken name s.file_table d) d in
      let same : s'.file_table ≡ t = subst (HasTable t) h has in
      (
        subst Distinct (sym same) d',
        ap (find_file_by_fname name) same ∙ gone,
        λ other ne. ap (find_file_by_fname other) same ∙ others other ne,
      )

  -- On a table in which no name stands twice, `add_to_file_table` returns and leaves such a table: the name
  -- has the file that it had, or the new one if it had none, and every other name has the file it had.
  pub add_to_file_table-Distinct :
      (file : ℕ) (name : Str) (s : Fs S)
      → Distinct s.file_table
      → (s' : Fs S) × (add_to_file_table store file name s ≡ some (tt, s'))
        × Distinct s'.file_table
        × (find_file_by_fname name s'.file_table
            ≡ (elim (find_file_by_fname name s.file_table) as (λ _. Option ℕ) [
              | none ↦ some file
              | some f ↦ some f
            ]))
        × ((other : Str)
            → other ≢ name
            → find_file_by_fname other s'.file_table ≡ find_file_by_fname other s.file_table)
  unfolding add_to_file_table get_file_by_fname
  add_to_file_table-Distinct file name s d =
      elim (Option-cases (find_file_by_fname name s.file_table)) [
        | inl e ↦
            let new : FileTableEntry = record { fname = name; f = file } in
            (
              record s { file_table = s.file_table ++ new ∷ [] },
              rw (e, add_to_file_table) refl,
              append-Distinct s.file_table new d e,
              find-append_none name s.file_table (new ∷ []) e ∙ find_self name file ∙ rw e refl,
              λ other ne.
                  find-append_ne other s.file_table new (str_eq_ne name other (λ q. ne (sym q))),
            )
        | inr (f, e) ↦ (s, rw (e, add_to_file_table) refl, d, rw e refl, λ other ne. refl)
      ]

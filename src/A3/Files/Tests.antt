-- ===== src/A3/Files/Tests.antt =====
-- Runs of file.c over a file of eight bytes on a disk.
use ecse_427_simple_shell_cr.Base.{
  ℕ, Bool, ◌≡◌, ◌≢◌, refl, true, false, Option, none, some, List, [], ◌∷◌, ◌++◌, Str, codes, ◌==◌,
  if◌then◌else◌, pos, str_eq, arith,
}
use ecse_427_simple_shell_cr.A3.InodeStore.{◌>>=◌, pure}
use ecse_427_simple_shell_cr.A3.InodeStore.Laws.{View, overwrite}
use ecse_427_simple_shell_cr.A3.FreeMap.{Disk}
use ecse_427_simple_shell_cr.A3.Inode.Open.{disk_store, inode_close, without}
use ecse_427_simple_shell_cr.A3.Inode.Lawful.{Holds, disk_store-IsLawful}
use ecse_427_simple_shell_cr.A3.Inode.Sample.{bits, sample, sample_view, sample-Holds}
use ecse_427_simple_shell_cr.A3.FsState.{put, File, FileTableEntry, Fs}
use ecse_427_simple_shell_cr.A3.Files.{
  find_file_by_fname, take_from_table, file_read, file_write, file_close, file_allow_write,
  add_to_file_table, remove_from_file_table,
}
use ecse_427_simple_shell_cr.A3.Files.Position.{file_read-twice, file_write-twice}
use ecse_427_simple_shell_cr.A3.Files.Table.{
  Distinct, add_to_file_table-Distinct, remove_from_file_table-Distinct,
}

abbrev content : List ℕ
content = 1 ∷ 2 ∷ 3 ∷ 4 ∷ 5 ∷ 6 ∷ 7 ∷ 8 ∷ []

abbrev one_file : View
one_file = sample_view 5 content

content-Holds : Holds (sample 5 content) one_file
content-Holds = sample-Holds 5 content (omega arith)

abbrev opened : File
opened = record { inode = 5; pos = pos 1; deny_write = false }

abbrev table : List FileTableEntry
table = record { fname = codes "a"; f = 0 } ∷ []

abbrev started : Fs (Disk (List Bool))
started = record {
  inodes = sample 5 content;
  dirs = λ p. none;
  next_dir = 0;
  cwd = none;
  files = λ p. if p == 0 then some opened else none;
  next_file = 1;
  file_table = table;
  out = [];
}

file_read-twice_example :
    (s1 : Fs (Disk (List Bool))) × (s2 : Fs (Disk (List Bool))) × (both : List ℕ) × ((file_read
            (disk_store bits)
            0
            (pos 2)
          >>= λ x. (file_read (disk_store bits) 0 (pos 9) >>= λ y. pure (x ++ y)))
        started
      ≡ some (both, s1))
    × (file_read (disk_store bits) 0 (pos 11) started ≡ some (both, s2))
    × (s1.files 0 ≡ s2.files 0)
file_read-twice_example =
    file_read-twice (disk_store bits) Holds (disk_store-IsLawful bits) 0 2 9 1 opened content
      started one_file refl refl content-Holds refl

-- "xy" and "z" behind it
file_write-twice_example :
    (s' : Fs (Disk (List Bool))) × ((file_write (disk_store bits) 0 (codes "xy" ++ 0 ∷ 0 ∷ []) 4
          >>= λ _. file_write (disk_store bits) 0 (codes "z" ++ 0 ∷ 0 ∷ []) 3)
        started
      ≡ some (3, s'))
    × (s'.files 0 ≡ some (record opened { pos = pos 4 }))
    × ((v' : View) × Holds s'.inodes v'
        × (v' 5 ≡ some (overwrite content 1 (codes "xy" ++ (codes "z" ++ 0 ∷ 0 ∷ [])))))
file_write-twice_example =
    file_write-twice (disk_store bits) Holds (disk_store-IsLawful bits) 0 1 opened (codes "xy")
      (codes "z") content started one_file refl refl content-Holds refl (omega arith)

table-Distinct : Distinct table
unfolding find_file_by_fname
table-Distinct = (refl, tt)

add_to_file_table-Distinct_example :
    (s' : Fs (Disk (List Bool))) × (add_to_file_table (disk_store bits) 3 (codes "b") started
      ≡ some (tt, s'))
    × Distinct s'.file_table
    × (find_file_by_fname (codes "b") s'.file_table
        ≡ (elim (find_file_by_fname (codes "b") table) as (λ _. Option ℕ) [
          | none ↦ some 3
          | some f ↦ some f
        ]))
    × ((other : Str)
        → other ≢ codes "b"
        → find_file_by_fname other s'.file_table ≡ find_file_by_fname other table)
add_to_file_table-Distinct_example =
    add_to_file_table-Distinct (disk_store bits) 3 (codes "b") started table-Distinct

abbrev emptied : Fs (Disk (List Bool))
emptied = record started {
  inodes = record (sample 5 content) {
    inodes = put (sample 5 content).inodes 5 none;
    open_inodes = [];
  };
  files = λ q. if q == 0 then none else (if q == 0 then some opened else none);
  file_table = [];
}

removes_a : remove_from_file_table (disk_store bits) (codes "a") started ≡ some (true, emptied)
unfolding remove_from_file_table take_from_table file_close file_allow_write str_eq disk_store
    inode_close without
removes_a = refl

remove_from_file_table-Distinct_example :
    Distinct emptied.file_table
    × (find_file_by_fname (codes "a") emptied.file_table ≡ none)
    × ((other : Str)
        → other ≢ codes "a"
        → find_file_by_fname other emptied.file_table ≡ find_file_by_fname other table)
remove_from_file_table-Distinct_example =
    remove_from_file_table-Distinct (disk_store bits) (codes "a") started emptied true
      table-Distinct removes_a

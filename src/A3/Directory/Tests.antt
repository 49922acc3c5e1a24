-- ===== src/A3/Directory/Tests.antt =====
-- Runs of directory.c over a directory of three entries on a disk.
use ecse_427_simple_shell_cr.Base.{
  ℕ, Bool, ◌+◌, ◌≤◌, ◌≡◌, refl, true, false, none, some, List, [], ◌∷◌, ◌++◌, Str, codes, str_eq,
  ◌==◌, if◌then◌else◌, length, take, replicate, c_string, arith,
}
use ecse_427_simple_shell_cr.A3.Inode.{entry, word_at}
use ecse_427_simple_shell_cr.A3.InodeStore.Laws.{View, set_view, Gives}
use ecse_427_simple_shell_cr.A3.FreeMap.{Disk}
use ecse_427_simple_shell_cr.A3.Inode.Open.{disk_store}
use ecse_427_simple_shell_cr.A3.Inode.Lawful.{Holds, disk_store-IsLawful}
use ecse_427_simple_shell_cr.A3.Inode.Sample.{bits, sample, sample_view, sample-Holds}
use ecse_427_simple_shell_cr.A3.FsState.{Dir, Fs}
use ecse_427_simple_shell_cr.A3.Directory.{DirEntry, entry_of_bytes, is_named, lookup}
use ecse_427_simple_shell_cr.A3.Directory.Path.{split_path_filename}
use ecse_427_simple_shell_cr.A3.Directory.Path.Split.{
  split_path_filename-join, split_path_filename-length,
}
use ecse_427_simple_shell_cr.A3.Directory.Entries.{slots, entries, find_entry}
use ecse_427_simple_shell_cr.A3.Directory.Search.{named, lookup-named}
use ecse_427_simple_shell_cr.A3.Directory.Find.{free_entry}
use ecse_427_simple_shell_cr.A3.Directory.Add.{new_entry, dir_add-lookup}
use ecse_427_simple_shell_cr.A3.Directory.Update.{dir_add}

split_path_filename-join_example :
    split_path_filename (codes "/home/a.txt") ≡ (codes "/home/", codes "a.txt")
split_path_filename-join_example =
    split_path_filename-join true (codes "home" ∷ []) (codes "a.txt")
      ((refl, (refl, (refl, (refl, tt)))), tt) (refl, (refl, (refl, (refl, (refl, tt)))))

split_path_filename-length_example :
    length (split_path_filename (codes "a//b")).0 + length (split_path_filename (codes "a//b")).1
    ≤ 4
split_path_filename-length_example = split_path_filename-length (codes "a//b")

-- a parent entry, a file "a" in sector 258, and a free entry
abbrev file_a : DirEntry
file_a = record { inode_sector = 258; name = 97 ∷ replicate 30 0; in_use = true }

abbrev pub root_bytes : List ℕ
root_bytes =
    (1 ∷ 0 ∷ 0 ∷ 0 ∷ [])
    ++ replicate 31 0
    ++ 1 ∷ []
    ++ (2 ∷ 1 ∷ 0 ∷ 0 ∷ 97 ∷ [])
    ++ replicate 30 0
    ++ 1 ∷ []
    ++ replicate 36 0

abbrev pub root_view : View
root_view = sample_view 1 root_bytes

abbrev pub on_disk : Disk (List Bool)
on_disk = sample 1 root_bytes

pub on_disk-Holds : Holds on_disk root_view
on_disk-Holds = sample-Holds 1 root_bytes (omega arith)

abbrev pub root_dir : Dir
root_dir = record { inode = 1; pos = 36; open_cnt = 1 }

abbrev pub started : Fs (Disk (List Bool))
started = record {
  inodes = on_disk;
  dirs = λ p. if p == 0 then some root_dir else none;
  next_dir = 1;
  cwd = some 0;
  files = λ p. none;
  next_file = 0;
  file_table = [];
  out = [];
}

named_a : named (codes "a") root_bytes ≡ some (file_a, 36)
unfolding named entries slots find_entry is_named entry_of_bytes word_at entry str_eq c_string
named_a = refl

named_b : named (codes "b") root_bytes ≡ none
unfolding named entries slots find_entry is_named entry_of_bytes word_at entry str_eq c_string
named_b = refl

lookup-named_example :
    Gives Holds
      (lookup (disk_store bits) 1 (codes "a"))
      on_disk
      root_view
      (named (codes "a") root_bytes)
lookup-named_example =
    lookup-named (disk_store bits) Holds (disk_store-IsLawful bits) 1 (codes "a") root_bytes on_disk
      root_view on_disk-Holds refl

parent_in_use : (entry_of_bytes (take 36 root_bytes)).in_use ≡ true
unfolding entry_of_bytes entry
parent_in_use = refl

free_last :
    (find_entry free_entry 36 (entries root_bytes)).0
    ≡ some (record { inode_sector = 0; name = replicate 31 0; in_use = false })
unfolding entries slots find_entry entry_of_bytes word_at entry
free_last = refl

-- "b" goes to the free entry
dir_add-lookup_example :
    (s' : (Disk (List Bool))) × (bytes' : List ℕ) × (ofs : ℕ) × (dir_add
        (disk_store bits)
        []
        0
        (codes "b")
        7
        false
        started
      ≡ some (true, record started { inodes = s' }))
    × Holds s' (set_view root_view 1 bytes')
    × ((other : Str)
        → Gives Holds (lookup (disk_store bits) 1 other) s' (set_view root_view 1 bytes') (
            if str_eq other (codes "b")
            then some (new_entry (codes "b") 7, ofs)
            else named other root_bytes))
dir_add-lookup_example =
    dir_add-lookup (disk_store bits) Holds (disk_store-IsLawful bits) [] 0 (codes "b") 7
      (record { inode_sector = 0; name = replicate 31 0; in_use = false }) root_dir root_bytes
      started root_view refl on_disk-Holds refl (λ e. cc) (omega arith) (refl, tt) (omega arith)
      parent_in_use free_last named_b

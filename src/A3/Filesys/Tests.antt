-- ===== src/A3/Filesys/Tests.antt =====
-- Runs of filesys.c and fsutil.c over a disk.
use ecse_427_simple_shell_cr.Base.{
  ℕ, Bool, zero, suc, ◌≡◌, refl, true, false, none, some, List, [], ◌∷◌, ◌++◌, Str, c_string, codes,
  ◌==◌, if◌then◌else◌, drop, pos, str_eq, arith,
}
use ecse_427_simple_shell_cr.A3.FreeMap.{Disk}
use ecse_427_simple_shell_cr.A3.Inode.Open.{disk_store, inode_open, find_open, inode_close, without}
use ecse_427_simple_shell_cr.A3.Inode.Lawful.{Holds, disk_store-IsLawful}
use ecse_427_simple_shell_cr.A3.Inode.Sample.{bits}
use ecse_427_simple_shell_cr.A3.FsState.{put, Fs}
use ecse_427_simple_shell_cr.A3.Directory.Tests.{
  root_bytes, root_view, root_dir, on_disk, on_disk-Holds, started,
}
use ecse_427_simple_shell_cr.A3.Inode.{entry, word_at, read_loop, index_to_sector}
use ecse_427_simple_shell_cr.A3.Cache.{
  buffer_cache_read, slot_of, buffer_cache_lookup, lookup_from, buffer_cache_init,
  buffer_cache_evict, run_clock,
}
use ecse_427_simple_shell_cr.A3.Directory.{
  dir_lookup, lookup, search_loop, rounds, read_entry, is_named, entry_of_bytes,
}
use ecse_427_simple_shell_cr.A3.Directory.Open.{dir_open_root, dir_close}
use ecse_427_simple_shell_cr.A3.Directory.Path.{
  tokens, tokens_from, split_path_filename, split_loop,
}
use ecse_427_simple_shell_cr.A3.Directory.Entries.{slots}
use ecse_427_simple_shell_cr.A3.Directory.Keeps.{CwdLive}
use ecse_427_simple_shell_cr.A3.Files.{find_file_by_fname, file_open}
use ecse_427_simple_shell_cr.A3.Filesys.{filesys_open, filesys_chdir, find_inode}
use ecse_427_simple_shell_cr.A3.Filesys.Util.{list_names, fsutil_cat}
use ecse_427_simple_shell_cr.A3.Filesys.Cwd.{Reach, opened, here, next, Reach-CwdLive}
use ecse_427_simple_shell_cr.A3.Filesys.Chdir.{filesys_chdir-freed}
use ecse_427_simple_shell_cr.A3.Filesys.Listing.{list_names-listed}
use ecse_427_simple_shell_cr.A3.Filesys.Listed.{listed}
use ecse_427_simple_shell_cr.A3.Filesys.Cat.{dump, Reads, fsutil_cat-dump}

started-CwdLive : CwdLive started
started-CwdLive zero e = (root_dir, refl, omega arith)
started-CwdLive (suc p) e = cc

-- "a" is opened
abbrev after_open : Fs (Disk (List Bool))
unfolding filesys_open
after_open = elim (filesys_open (disk_store bits) (codes "a") started) [
  | none ↦ started
  | some r ↦ r.1
]

once : Reach (disk_store bits) started after_open
unfolding filesys_open find_inode dir_open_root dir_close dir_lookup lookup search_loop rounds
    read_entry is_named entry_of_bytes word_at entry c_string str_eq split_path_filename split_loop
    tokens tokens_from file_open disk_store read_loop index_to_sector buffer_cache_read slot_of
    buffer_cache_lookup lookup_from buffer_cache_init buffer_cache_evict run_clock
once = next here (opened (codes "a") (some 0) refl)

Reach-CwdLive_example : CwdLive after_open
Reach-CwdLive_example = Reach-CwdLive (disk_store bits) once started-CwdLive

abbrev no_cwd : Fs (Disk (List Bool))
no_cwd = record started { cwd = none }

only_slash : tokens (codes "/") ≡ []
unfolding tokens tokens_from
only_slash = refl

-- the inode of the root is open, and then closed
abbrev closed : Disk (List Bool)
closed = record on_disk { inodes = put on_disk.inodes 1 none; open_inodes = [] }

opens : (disk_store bits).inode_open 1 on_disk ≡ some (1, on_disk)
unfolding disk_store inode_open find_open
opens = refl

closes : (disk_store bits).inode_close 1 on_disk ≡ some (tt, closed)
unfolding disk_store inode_close without
closes = refl

filesys_chdir-freed_example :
    (s' : Fs (Disk (List Bool))) × (p : ℕ) × (filesys_chdir (disk_store bits) (codes "/") no_cwd
      ≡ some (true, s'))
    × (s'.cwd ≡ some p)
    × (s'.dirs p ≡ none)
unfolding disk_store
filesys_chdir-freed_example =
    filesys_chdir-freed (disk_store bits) (codes "/") no_cwd 1 on_disk on_disk closed refl
      only_slash opens refl closes

list_names-listed_example :
    (s' : Fs (Disk (List Bool))) × (list_names (disk_store bits) 3 0 started ≡ some (tt, s'))
    × (s'.out ≡ [] ++ listed (slots 2 (drop 36 root_bytes)))
list_names-listed_example =
    list_names-listed (disk_store bits) Holds (disk_store-IsLawful bits) 3 2 0 36 root_dir
      root_bytes started root_view [] (omega arith) (omega arith, omega arith) refl
      (record { live = refl; shows = on_disk-Holds; printed = refl })

abbrev hex_dump : ℕ → List ℕ → Str
hex_dump n bytes = bytes

abbrev with_file : Fs (Disk (List Bool))
with_file = record started {
  files =
      λ p. if p == 0 then some (record { inode = 1; pos = pos 5; deny_write = false }) else none;
  file_table = record { fname = codes "root"; f = 0 } ∷ [];
}

in_table : find_file_by_fname (codes "root") with_file.file_table ≡ some 0
unfolding find_file_by_fname str_eq
in_table = refl

fsutil_cat-dump_example :
    (s' : Fs (Disk (List Bool))) × (fsutil_cat (disk_store bits) hex_dump (codes "root") with_file
      ≡ some (pos 0, s'))
    × Reads
        (disk_store bits)
        Holds
        (disk_store-IsLawful bits)
        hex_dump
        s'
        0
        (record { inode = 1; pos = pos 5; deny_write = false })
        5
        root_view
        ([]
          ++ (codes "Printing <" ++ codes "root" ++ codes "> to the console...") ∷ []
          ++ dump (disk_store bits) Holds (disk_store-IsLawful bits) hex_dump root_bytes
          ++ codes "Done printing" ∷ [])
fsutil_cat-dump_example =
    fsutil_cat-dump (disk_store bits) Holds (disk_store-IsLawful bits) hex_dump with_file
      (codes "root") 0 5 (record { inode = 1; pos = pos 5; deny_write = false }) root_bytes
      root_view [] in_table (record { live = refl; shows = on_disk-Holds; printed = refl }) refl

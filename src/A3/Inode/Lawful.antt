-- ===== src/A3/Inode/Lawful.antt =====
-- The open inodes of a3/fs/inode.c keep the laws that the files above inode.c rely on.
use ecse_427_simple_shell_cr.Base.{
  ℕ, ◌+◌, ◌-◌, ◌/◌, ◌%◌, ◌<◌, ◌≤◌, ◌≡◌, ◌≢◌, refl, sym, ap, ◌∙◌, Bool, true, false, Option, some,
  List, ltb, leb, ◌&&◌, ◌==◌, if◌then◌else◌, length, take, drop, pos, arith, inl, inr, Bool-cases,
}
use ecse_427_simple_shell_cr.A3.Cache.{Block, Cache}
use ecse_427_simple_shell_cr.A3.Cache.Represents.{Represents}
use ecse_427_simple_shell_cr.A3.InodeStore.{Call, ◌>>=◌, pure}
use ecse_427_simple_shell_cr.A3.InodeStore.Laws.{View, set_view, overwrite, Gives, IsLawful}
use ecse_427_simple_shell_cr.A3.FsState.Steps.{bind_of_some}
use ecse_427_simple_shell_cr.A3.FreeMap.{Bitmap, Inode, Disk, on_cache}
use ecse_427_simple_shell_cr.A3.Inode.{entry, no_sector, byte_to_sector}
use ecse_427_simple_shell_cr.A3.Inode.Sectors.{sector_at, collect-cong}
use ecse_427_simple_shell_cr.A3.Inode.Read.{file_byte, byte_to_sector-Gives}
use ecse_427_simple_shell_cr.A3.Inode.DataSectors.{sector_at-direct}
use ecse_427_simple_shell_cr.A3.Inode.Write.{write_loop}
use ecse_427_simple_shell_cr.A3.Inode.WriteBack.{byte_in, write_loop-Laid}
use ecse_427_simple_shell_cr.A3.Inode.Chunks.{after_write}
use ecse_427_simple_shell_cr.A3.Inode.RoundTrip.{direct-Laid, direct-Layout, file_byte-byte_in}
use ecse_427_simple_shell_cr.A3.Inode.Open.{
  get_inode, last_byte, extend, read_at, inode_write_at, disk_store,
}
use ecse_427_simple_shell_cr.A3.Inode.Store.{
  file_bytes, on_cache_of_some, get_inode_of_some, read_at-part,
}
use ecse_427_simple_shell_cr.A3.Inode.Written.{length-collect, collect-overwrite}

-- An open inode whose direct blocks hold its file, that takes writes, and whose sectors have numbers.
pub record IsPlain (i : Inode) : Type 0 where
  pub writable : i.deny_write_cnt ≡ 0
  pub direct : i.disk.length ≤ 62976
  pub numbered : (a : ℕ) → a < i.disk.length → entry i.disk.direct_blocks (a / 512) < no_sector

-- The open inodes are plain, and no two places in their files are in one sector, but those of one file
-- that belong there.
pub record IsApart (inodes : ℕ → Option Inode) : Type 0 where
  pub plain : (p : ℕ) (i : Inode) → inodes p ≡ some i → IsPlain i
  pub apart :
      (p q : ℕ) (i j : Inode) (a b : ℕ)
      → inodes p ≡ some i
      → inodes q ≡ some j
      → a < i.disk.length
      → b < j.disk.length
      → entry i.disk.direct_blocks (a / 512) ≡ entry j.disk.direct_blocks (b / 512)
      → (p ≡ q) × (a / 512 ≡ b / 512)

-- The cache holds some contents in blocks of 512 bytes, by which each inode in the view has its bytes, and
-- the open inodes are apart.
pub record Holds {B : Type 0} (s : Disk B) (v : View) : Type 0 where
  pub contents : ℕ → Block
  pub sized : (x : ℕ) → length (contents x) ≡ 512
  pub represents : Represents s.cache contents
  pub inodes : IsApart s.inodes
  pub files :
      (p : ℕ) (bytes : List ℕ)
      → v p ≡ some bytes
      → (i : Inode) × (s.inodes p ≡ some i) × (bytes ≡ file_bytes contents i.disk)

-- the sector of the last byte of a write inside the file
last_sector :
    (i : Inode) (m : ℕ → Block) (n : ℕ)
    → IsPlain i
    → n < i.disk.length
    → ((if ltb n i.disk.length then sector_at m i.disk (n / 512) else no_sector) == no_sector)
      ≡ false
last_sector i m n plain lt =
    let t : ltb n i.disk.length ≡ true = ground arith in
    let le = plain.direct in
    let at = sector_at-direct m i.disk (n / 512) (omega arith) in
    let small = plain.numbered n lt in
    let differ : (sector_at m i.disk (n / 512) == no_sector) ≡ false = ground arith in rw t differ

last_byte-suc : (offset size k : ℕ) → offset + size ≡ k + 1 → last_byte offset size ≡ pos k
unfolding last_byte
last_byte-suc offset size k e =
    let some_byte : (offset + size == 0) ≡ false = ground arith in
    let place : offset + size - 1 ≡ k = omega arith in rw (some_byte, place) refl

if_false :
    {S A : Type 0} (b : Bool) (f g : Call S A) (s : S) (r : Option (A × S))
    → b ≡ false
    → g s ≡ r
    → (if b then f else g) s ≡ r
if_false b f g s r e h = ap (λ x. (if x then f else g) s) e ∙ h

module _ {B : Type 0} (lib : Bitmap B) where
  -- A write of a byte or more inside the file of a plain inode does not extend it.
  write_at-inside :
      (p offset k : ℕ) (buffer : List ℕ) (i : Inode) (s : Disk B) (n : ℕ) (c1 c2 : Cache)
      → s.inodes p ≡ some i
      → IsPlain i
      → offset + length buffer ≡ k + 1
      → byte_to_sector i.disk (pos k) s.cache ≡ some (n, c1)
      → (n == no_sector) ≡ false
      → write_loop i.disk (length buffer + 1) (length buffer) offset buffer c1
        ≡ some (length buffer, c2)
      → inode_write_at lib p buffer offset s ≡ some (length buffer, record s { cache = c2 })
  unfolding inode_write_at
  write_at-inside p offset k buffer i s n c1 c2 live plain e found f wrote =
      let free : ltb 0 i.deny_write_cnt ≡ false = let z = plain.writable in ground arith in
      let s1 : Disk B = record s { cache = c1 } in
      let size = length buffer in
      bind_of_some (get_inode p) _ s i s (get_inode_of_some p s i live)
      ∙ if_false (ltb 0 i.deny_write_cnt) _ _ s _ free (
          bind_of_some (on_cache (byte_to_sector i.disk (last_byte offset size))) _ s n s1 (
            ap (λ z. on_cache (byte_to_sector i.disk z) s) (last_byte-suc offset size k e)
            ∙ on_cache_of_some (byte_to_sector i.disk (pos k)) s n c1 found)
          ∙ bind_of_some (if n == no_sector then extend lib p (offset + size) else pure true)
              (λ ready.
                if ready
                then (get_inode p >>= λ now.
                    on_cache (write_loop now.disk (size + 1) size offset buffer))
                else pure 0)
              s1 true s1
              (if_false (n == no_sector) (extend lib p (offset + size)) (pure true) s1 _ f refl)
          ∙ bind_of_some (get_inode p)
              (λ now. on_cache (write_loop now.disk (size + 1) size offset buffer)) s1 i s1
              (get_inode_of_some p s1 i live)
          ∙ on_cache_of_some (write_loop i.disk (size + 1) size offset buffer) s1 size c2 wrote)

-- The bytes of the file that was written, and those of every other one.
module _ (inodes : ℕ → Option Inode) (places : IsApart inodes) (m m' : ℕ → Block)
    (sized : (x : ℕ) → length (m x) ≡ 512) (sized' : (x : ℕ) → length (m' x) ≡ 512) (p : ℕ)
    (i : Inode) (live : inodes p ≡ some i) where
  bytes_written :
      (offset : ℕ) (buffer : List ℕ)
      → offset + length buffer ≤ i.disk.length
      → ((a : ℕ)
          → a < i.disk.length
          → byte_in (entry i.disk.direct_blocks) m' a
            ≡ after_write offset (length buffer) buffer (byte_in (entry i.disk.direct_blocks) m) a)
      → file_bytes m' i.disk ≡ overwrite (file_bytes m i.disk) offset buffer
  bytes_written offset buffer fits h =
      let at = entry i.disk.direct_blocks in
      let small = (places.plain p i live).direct in
      let laid = direct-Laid i.disk small m sized in
      let laid' = direct-Laid i.disk small m' sized' in
      collect-overwrite (file_byte m i.disk) (file_byte m' i.disk) i.disk.length offset buffer fits
        λ a lt.
          file_byte-byte_in i.disk at m' a laid' lt
          ∙ h a lt
          ∙ ap
              (λ x.
                if leb offset a && ltb a (offset + length buffer)
                then entry buffer (a - offset)
                else x)
              (sym (file_byte-byte_in i.disk at m a laid lt))

  bytes_other :
      (q : ℕ) (j : Inode)
      → inodes q ≡ some j
      → (q == p) ≡ false
      → ((t : ℕ)
          → ((a : ℕ) → a < i.disk.length → t ≢ entry i.disk.direct_blocks (a / 512))
          → m' t ≡ m t)
      → file_bytes m j.disk ≡ file_bytes m' j.disk
  bytes_other q j other differ h =
      let at = entry j.disk.direct_blocks in
      let small = (places.plain q j other).direct in
      collect-cong (file_byte m j.disk) (file_byte m' j.disk) j.disk.length 0 0 λ b' lt'.
        let b = 0 + b' in
        let lt : b < j.disk.length = omega arith in
        let same : m' (at (b / 512)) ≡ m (at (b / 512)) = h (at (b / 512)) λ a inside e.
          let twice = (places.apart q p j i b a other live lt inside e).0 in
          absurd (ground arith) in
        file_byte-byte_in j.disk at m b (direct-Laid j.disk small m sized) lt
        ∙ ap (λ x. entry x (b % 512)) (sym same)
        ∙ sym (file_byte-byte_in j.disk at m' b (direct-Laid j.disk small m' sized') lt)

module _ {B : Type 0} (lib : Bitmap B) where
  read_at-Holds :
      (p size offset : ℕ) (bytes : List ℕ) (s : Disk B) (v : View)
      → Holds s v
      → v p ≡ some bytes
      → Gives Holds (read_at lib p (pos size) offset) s v (take size (drop offset bytes))
  read_at-Holds p size offset bytes s v h e =
      let (i, live, same) = h.files p bytes e in
      let (c, q, r) = read_at-part lib p size offset i h.contents s live h.sized h.represents in
      (
        record s { cache = c },
        rw same q,
        record {
          contents = h.contents;
          sized = h.sized;
          represents = r;
          inodes = h.inodes;
          files = h.files;
        },
      )

  -- Where the cache holds the contents of the files of the open inodes, which their direct blocks hold,
  -- which take writes, and no two of which share a sector, `inode_write_at` of a byte or more inside a
  -- file returns their number: all its bytes are then in their place, every other byte of every open
  -- file is as it was, and the cache still holds such files.
  pub write_at-Holds :
      (p offset : ℕ) (buffer bytes : List ℕ) (s : Disk B) (v : View)
      → Holds s v
      → v p ≡ some bytes
      → 1 ≤ length buffer
      → offset + length buffer ≤ length bytes
      → Gives Holds
          (inode_write_at lib p buffer offset)
          s
          (set_view v p (overwrite bytes offset buffer))
          (length buffer)
  write_at-Holds p offset buffer bytes s v h e one le =
      let (i, live, same) = h.files p bytes e in
      let m = h.contents in
      let plain = h.inodes.plain p i live in
      let small = plain.direct in
      let at = entry i.disk.direct_blocks in
      let size = length buffer in
      let k = offset + size - 1 in
      let fits : offset + size ≤ i.disk.length =
        omega (arith, length-collect (file_byte m i.disk) i.disk.length 0, ap length same) in
      let last : k < i.disk.length = omega arith in
      let (c1, found, r1) = byte_to_sector-Gives m i.disk h.sized k s.cache h.represents in
      let (m', (c2, wrote, r2), laid', written, others) =
        write_loop-Laid i.disk at
          (direct-Layout i.disk small
            λ a b la lb q. (h.inodes.apart p p i i a b live live la lb q).1)
          (size + 1) size offset buffer m c1 (omega arith) fits (omega arith)
          (direct-Laid i.disk small m h.sized) r1 in
      (
        record s { cache = c2 },
        write_at-inside lib p offset k buffer i s _ c1 c2 live plain (omega arith) found
            (last_sector i m k plain last) wrote,
        record {
          contents = m';
          sized = laid'.sized;
          represents = r2;
          inodes = h.inodes;
          files = λ q bytes' e'. elim (Bool-cases (q == p)) [
            | inl t ↦
                let here : q ≡ p = ground arith in
                let new = overwrite bytes offset buffer in
                let known : some new ≡ some bytes' =
                  ap (λ x. if x then some new else v q) (sym t) ∙ e' in
                let result : file_bytes m' i.disk ≡ overwrite (file_bytes m i.disk) offset buffer =
                  bytes_written s.inodes h.inodes m m' h.sized laid'.sized p i live offset buffer
                    fits written in
                let old : overwrite (file_bytes m i.disk) offset buffer ≡ new =
                  ap (λ x. overwrite x offset buffer) (sym same) in
                (i, ap s.inodes here ∙ live, cc)
            | inr f ↦
                let known : v q ≡ some bytes' =
                  ap (λ x. if x then some (overwrite bytes offset buffer) else v q) (sym f) ∙ e' in
                let (j, other, same') = h.files q bytes' known in
                (
                  j,
                  other,
                  same'
                      ∙ bytes_other s.inodes h.inodes m m' h.sized laid'.sized p i live q j other f
                          others,
                )
          ];
        },
      )

  length-Holds :
      (p : ℕ) (bytes : List ℕ) (s : Disk B) (v : View)
      → Holds s v
      → v p ≡ some bytes
      → Gives Holds (get_inode p >>= λ i. pure i.disk.length) s v (length bytes)
  length-Holds p bytes s v h e =
      let (i, live, same) = h.files p bytes e in
      let long : i.disk.length ≡ length bytes =
        sym (length-collect (file_byte h.contents i.disk) i.disk.length 0) ∙ ap length (sym same) in
      (
        s,
        bind_of_some (get_inode p) _ s i s (get_inode_of_some p s i live)
            ∙ ap (λ n. some (n, s)) long,
        h,
      )

  -- the laws, where the open inodes are plain and apart
  pub disk_store-IsLawful : IsLawful (disk_store lib) Holds
  unfolding disk_store
  disk_store-IsLawful = record {
    reads = read_at-Holds;
    writes = write_at-Holds;
    lengths = length-Holds;
  }

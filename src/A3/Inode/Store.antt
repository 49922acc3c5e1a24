-- ===== src/A3/Inode/Store.antt =====
-- The open inodes of a3/fs/inode.c as a store of bytes.
use mathlib.Core.Path.{subst}
use ecse_427_simple_shell_cr.Base.{
  ℕ, zero, suc, ◌+◌, ◌-◌, ◌≡◌, refl, sym, ap, ◌∙◌, true, false, Option, none, some, List, ◌∷◌, ◌==◌,
  if◌then◌else◌, length, take, drop, pos, arith, inl, inr, Option-cases,
}
use ecse_427_simple_shell_cr.A3.Cache.{Block, Cache, buffer_cache_read}
use ecse_427_simple_shell_cr.A3.Cache.Represents.{Represents}
use ecse_427_simple_shell_cr.A3.InodeStore.{Call, pure}
use ecse_427_simple_shell_cr.A3.InodeStore.Laws.{View, Gives}
use ecse_427_simple_shell_cr.A3.FsState.{put}
use ecse_427_simple_shell_cr.A3.FsState.Steps.{bind_of_some}
use ecse_427_simple_shell_cr.A3.FreeMap.{Bitmap, Inode, Disk, on_cache}
use ecse_427_simple_shell_cr.A3.Inode.{InodeDisk, min, collect, inode_read_at}
use ecse_427_simple_shell_cr.A3.Inode.Read.{file_byte, inode_read_at-file_byte}
use ecse_427_simple_shell_cr.A3.Inode.Open.{
  inode_disk_of_bytes, find_open, get_inode, new_inode, open_new, inode_open, read_at,
}

pub drop-collect : (f : ℕ → ℕ) (k n i : ℕ) → drop k (collect f n i) ≡ collect f (n - k) (i + k)
unfolding collect
drop-collect f zero n i =
    let a : n - 0 ≡ n = omega arith in let b : i + 0 ≡ i = omega arith in rw (a, b) refl
drop-collect f (suc k) zero i = let a : 0 - suc k ≡ 0 = omega arith in rw a refl
drop-collect f (suc k) (suc n) i =
    let a : suc n - suc k ≡ n - k = omega arith in
    let b : i + suc k ≡ i + 1 + k = omega arith in rw (a, b) (drop-collect f k n (i + 1))

pub take-collect : (f : ℕ → ℕ) (k n i : ℕ) → take k (collect f n i) ≡ collect f (min k n) i
unfolding collect
take-collect f zero n i = let a : min 0 n ≡ 0 = ground arith in rw a refl
take-collect f (suc k) zero i = let a : min (suc k) 0 ≡ 0 = ground arith in rw a refl
take-collect f (suc k) (suc n) i =
    let a : min (suc k) (suc n) ≡ suc (min k n) = ground arith in
    rw a (ap (◌∷◌ (f i)) (take-collect f k n (i + 1)))

-- The bytes of a file by the contents of the disk.
abbrev pub file_bytes : (ℕ → Block) → InodeDisk → List ℕ
file_bytes m idisk = collect (file_byte m idisk) idisk.length 0

-- The cache holds some contents in blocks of 512 bytes, by which each inode in the view has its bytes.
pub record Shows {B : Type 0} (s : Disk B) (v : View) : Type 0 where
  pub contents : ℕ → Block
  pub sized : (x : ℕ) → length (contents x) ≡ 512
  pub represents : Represents s.cache contents
  pub files :
      (p : ℕ) (bytes : List ℕ)
      → v p ≡ some bytes
      → (i : Inode) × (s.inodes p ≡ some i) × (bytes ≡ file_bytes contents i.disk)

module _ {B : Type 0} where
  pub on_cache_of_some :
      {A : Type 0} (f : Cache → Option (A × Cache)) (s : Disk B) (a : A) (c : Cache)
      → f s.cache ≡ some (a, c)
      → on_cache f s ≡ some (a, record s { cache = c })
  on_cache_of_some {A} f s a c e =
      ap
        (λ x. elim x as (λ _. Option (A × Disk B)) [
          | none ↦ none
          | some r ↦ some (r.0, record s { cache = r.1 })
        ])
        e

  pub get_inode_of_some :
      (p : ℕ) (s : Disk B) (i : Inode) → s.inodes p ≡ some i → get_inode p s ≡ some (i, s)
  get_inode_of_some p s i e =
      ap (λ x. elim x as (λ _. Option (Inode × Disk B)) [ none ↦ none | some y ↦ some (y, s) ]) e

module _ {B : Type 0} (lib : Bitmap B) where
  -- A read of an open inode gives the part of the bytes of its file, and changes the cache alone.
  pub read_at-part :
      (p size offset : ℕ) (i : Inode) (m : ℕ → Block) (s : Disk B)
      → s.inodes p ≡ some i
      → ((x : ℕ) → length (m x) ≡ 512)
      → Represents s.cache m
      → (c : Cache) × (read_at lib p (pos size) offset s
          ≡ some (take size (drop offset (file_bytes m i.disk)), record s { cache = c }))
        × Represents c m
  unfolding read_at
  read_at-part p size offset i m s live sized held =
      let (c, q, r) = inode_read_at-file_byte m i.disk sized size offset s.cache held in
      let f = file_byte m i.disk in
      let part : collect f (min size (i.disk.length - offset)) offset
          ≡ take size (drop offset (file_bytes m i.disk)) =
        sym (take-collect f size (i.disk.length - offset) offset)
        ∙ ap (take size) (
            ap (collect f (i.disk.length - offset)) (omega arith)
            ∙ sym (drop-collect f offset i.disk.length 0)) in
      (
        c,
        bind_of_some (get_inode p) _ s i s (get_inode_of_some p s i live)
            ∙ on_cache_of_some (inode_read_at i.disk (pos size) offset) s _ c q
            ∙ ap (λ b. some (b, record s { cache = c })) part,
        r,
      )

  -- `inode_read_at` of an open inode, on a cache that holds contents by which the inode has some bytes,
  -- returns: it reads so many of those bytes from the offset on as there are, up to the size, and no
  -- inode's bytes change.
  pub read_at-Shows :
      (p size offset : ℕ) (bytes : List ℕ) (s : Disk B) (v : View)
      → Shows s v
      → v p ≡ some bytes
      → Gives Shows (read_at lib p (pos size) offset) s v (take size (drop offset bytes))
  read_at-Shows p size offset bytes s v sh e =
      let (i, live, same) = sh.files p bytes e in
      let (c, q, r) = read_at-part p size offset i sh.contents s live sh.sized sh.represents in
      (
        record s { cache = c },
        rw same q,
        record { contents = sh.contents; sized = sh.sized; represents = r; files = sh.files },
      )

module _ {B : Type 0} (lib : Bitmap B) where
  -- a result of `inode_open` that the next call of it gives again
  abbrev Again : ℕ → Option (ℕ × Disk B) → Type 0
  Again sector none = Unit {0}
  Again sector (some r) = inode_open lib sector r.1 ≡ some r

  open_found :
      (sector p : ℕ) (s : Disk B)
      → find_open s.inodes sector s.open_inodes ≡ some p
      → inode_open lib sector s ≡ some (p, s)
  unfolding inode_open
  open_found sector p s e =
      ap
        (λ x. (elim x as (λ _. Call (Disk B) ℕ) [ some q ↦ pure q | none ↦ open_new lib sector ]) s)
        e

  open_not_found :
      (sector : ℕ) (s : Disk B)
      → find_open s.inodes sector s.open_inodes ≡ none
      → inode_open lib sector s ≡ open_new lib sector s
  unfolding inode_open
  open_not_found sector s e =
      ap
        (λ x. (elim x as (λ _. Call (Disk B) ℕ) [ some q ↦ pure q | none ↦ open_new lib sector ]) s)
        e

  find_open-first :
      (inodes : ℕ → Option Inode) (sector p : ℕ) (i : Inode) (ps : List ℕ)
      → inodes p ≡ some i
      → (i.sector == sector) ≡ true
      → find_open inodes sector (p ∷ ps) ≡ some p
  unfolding find_open
  find_open-first inodes sector p i ps e t =
      ap
        (λ x. elim x as (λ _. Option ℕ) [
          | none ↦ find_open inodes sector ps
          | some y ↦ if y.sector == sector then some p else find_open inodes sector ps
        ])
        e
      ∙ rw t refl

  opened-Again :
      (sector : ℕ) (i : Inode) (s : Disk B) → i.sector ≡ sector → Again sector (new_inode i s)
  opened-Again sector i s e =
      let t : (i.sector == sector) ≡ true = ground arith in
      open_found sector s.next_inode _ (
        find_open-first (put s.inodes s.next_inode (some i)) sector s.next_inode i s.open_inodes
          (let same : (s.next_inode == s.next_inode) ≡ true = ground arith in rw same refl) t)

  -- the copy of the disk is read, and the inode is put first into the list
  read-Again :
      (sector : ℕ) (s : Disk B) (r : Option (Block × Cache))
      → Again sector
          (elim (elim r as (λ _. Option (Block × Disk B)) [
            | none ↦ none
            | some p ↦ some (p.0, record s { cache = p.1 })
          ])
            as (λ _. Option (ℕ × Disk B)) [
              | none ↦ none
              | some q ↦
                  new_inode
                    (record {
                      sector = sector;
                      open_cnt = 1;
                      removed = false;
                      deny_write_cnt = 0;
                      disk = inode_disk_of_bytes q.0;
                    })
                    q.1
            ])
  read-Again sector s none = tt
  read-Again sector s (some (b, c)) =
      opened-Again sector
        (record {
          sector = sector;
          open_cnt = 1;
          removed = false;
          deny_write_cnt = 0;
          disk = inode_disk_of_bytes b;
        })
        (record s { cache = c }) refl

  open_new-Again : (sector : ℕ) (s : Disk B) → Again sector (open_new lib sector s)
  unfolding open_new
  open_new-Again sector s = read-Again sector s (buffer_cache_read sector s.cache)

  -- After `inode_open` of a sector has returned an inode, `inode_open` of that sector returns the same
  -- inode and changes nothing: the number of openers stays as it is, although it now has one more.
  pub inode_open-inode_open :
      (sector p : ℕ) (s s' : Disk B)
      → inode_open lib sector s ≡ some (p, s')
      → inode_open lib sector s' ≡ some (p, s')
  inode_open-inode_open sector p s s' h =
      elim (Option-cases (find_open s.inodes sector s.open_inodes)) [
        | inl e ↦
            subst (Again sector) h
              (subst (Again sector) (sym (open_not_found sector s e)) (open_new-Again sector s))
        | inr (q, e) ↦
            subst (Again sector) (sym (open_found sector q s e) ∙ h) (open_found sector q s e)
      ]

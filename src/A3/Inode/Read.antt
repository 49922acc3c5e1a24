-- ===== src/A3/Inode/Read.antt =====
-- `inode_read_at` of a3/fs/inode.c.
use ecse_427_simple_shell_cr.Base.{
  ℕ, zero, suc, ◌+◌, ◌-◌, ◌/◌, ◌%◌, ◌<◌, ◌≤◌, ◌≡◌, refl, sym, ap, ◌∙◌, inl, inr, true, some, List,
  [], ◌∷◌, ◌++◌, ltb, ◌==◌, if◌then◌else◌, length, take, drop, pos, arith, Bool-cases,
}
use ecse_427_simple_shell_cr.A3.Cache.{Block, Cache, buffer_cache_read}
use ecse_427_simple_shell_cr.A3.Cache.Represents.{Represents}
use ecse_427_simple_shell_cr.A3.Inode.{
  min, InodeDisk, entry, no_sector, byte_to_sector, collect, read_loop, inode_read_at,
}
use ecse_427_simple_shell_cr.A3.Inode.Sectors.{
  Gives, bind-Gives, pure-Gives, read-Gives, sector_at, index_to_sector-Gives, collect-cong,
  collect-add,
}

collect-entry_cons :
    (x : ℕ) (xs : List ℕ) (n k : ℕ) → collect (entry (x ∷ xs)) n (k + 1) ≡ collect (entry xs) n k
unfolding entry
collect-entry_cons x xs n k =
    collect-cong (entry (x ∷ xs)) (entry xs) n (k + 1) k λ j lt. ap (entry (x ∷ xs)) (suc_form k j)
  where
    suc_form : (k j : ℕ) → k + 1 + j ≡ suc (k + j)
    suc_form k j = omega arith

pub take-collect : (n : ℕ) (b : List ℕ) → n ≤ length b → take n b ≡ collect (entry b) n 0
unfolding collect entry
take-collect zero b le = refl
take-collect (suc n) [] le = absurd (omega arith)
take-collect (suc n) (x ∷ b) le =
    ap (◌∷◌ x) (take-collect n b (omega arith) ∙ sym (collect-entry_cons x b n 0))

-- A part of a block is read byte by byte.
take-drop-collect :
    (n k : ℕ) (b : List ℕ) → k + n ≤ length b → take n (drop k b) ≡ collect (entry b) n k
take-drop-collect n zero b le = take-collect n b (omega arith)
take-drop-collect n (suc k) [] le = absurd (omega arith)
take-drop-collect n (suc k) (x ∷ b) le =
    take-drop-collect n k b (omega arith)
    ∙ sym (collect-entry_cons x b n k)
    ∙ ap (collect (entry (x ∷ b)) n) (omega arith)

-- the byte of a file at a position, by the contents alone
unfoldable pub file_byte : (ℕ → Block) → InodeDisk → ℕ → ℕ
file_byte m idisk p = entry (m (sector_at m idisk (p / 512))) (p % 512)

module _ (m : ℕ → Block) (idisk : InodeDisk) (sized : (s : ℕ) → length (m s) ≡ 512) where
  pub byte_to_sector-Gives :
      (n : ℕ) (c : Cache)
      → Represents c m
      → Gives
          (byte_to_sector idisk (pos n))
          c
          m
          (if ltb n idisk.length then sector_at m idisk (n / 512) else no_sector)
  unfolding byte_to_sector
  byte_to_sector-Gives n c r = elim (Bool-cases (ltb n idisk.length)) [
    | inl t ↦ rw t (index_to_sector-Gives m idisk (n / 512) c r)
    | inr f ↦ rw f (pure-Gives m no_sector c r)
  ]

  -- A chunk inside a sector is that part of the file.
  chunk-file_byte :
      (n offset : ℕ)
      → offset % 512 + n ≤ 512
      → take n (drop (offset % 512) (m (sector_at m idisk (offset / 512))))
        ≡ collect (file_byte m idisk) n offset
  unfolding file_byte
  chunk-file_byte n offset le =
      let block = m (sector_at m idisk (offset / 512)) in
      take-drop-collect n (offset % 512) block
        (omega (arith, sized (sector_at m idisk (offset / 512))))
      ∙ collect-cong (entry block) (file_byte m idisk) n (offset % 512) offset λ j lt.
        let same : (offset + j) / 512 ≡ offset / 512 = omega arith in
        let on : (offset + j) % 512 ≡ offset % 512 + j = omega arith in rw (same, on) refl

  -- The bytes of a chunk, then those behind it.
  chunk-rest :
      (size offset : ℕ)
      → let left = idisk.length - offset in
        let chunk = min size (min left (512 - offset % 512)) in
        take chunk (drop (offset % 512) (m (sector_at m idisk (offset / 512))))
          ++ collect
              (file_byte m idisk)
              (min (size - chunk) (idisk.length - (offset + chunk)))
              (offset + chunk)
        ≡ collect (file_byte m idisk) (min size left) offset
  chunk-rest size offset =
      let left = idisk.length - offset in
      let chunk = min size (min left (512 - offset % 512)) in
      let in_sector : offset % 512 < 512 = omega arith in
      let fits : offset % 512 + chunk ≤ 512 = ground arith in
      let total : chunk + min (size - chunk) (idisk.length - (offset + chunk)) ≡ min size left =
        ground arith in
      ap
        (λ l.
          l
          ++ collect (file_byte m idisk) (min (size - chunk) (idisk.length - (offset + chunk)))
              (offset + chunk))
        (chunk-file_byte chunk offset fits)
      ∙ sym (collect-add (file_byte m idisk) chunk _ offset)
      ∙ ap (λ k. collect (file_byte m idisk) k offset) total

  -- With a round more than there are bytes to read, the loop ends.
  read_loop-Gives :
      (fuel size offset : ℕ) (c : Cache)
      → size < fuel
      → Represents c m
      → Gives
          (read_loop idisk fuel size offset)
          c
          m
          (collect (file_byte m idisk) (min size (idisk.length - offset)) offset)
  unfolding read_loop collect
  read_loop-Gives zero size offset c enough r = absurd (omega arith)
  read_loop-Gives (suc fuel) size offset c enough r =
      let left = idisk.length - offset in
      let ofs = offset % 512 in
      let chunk = min size (min left (512 - ofs)) in
      let in_sector : ofs < 512 = omega arith in
      elim (Bool-cases (size == 0)) [
        | inl t ↦
            let nothing : min size left ≡ 0 = ground arith in
            rw (t, read_loop, nothing) (pure-Gives m [] c r)
        | inr f ↦
            rw (f, read_loop)
              (bind-Gives m (byte_to_sector idisk (pos offset)) _ c _ _
                (byte_to_sector-Gives offset c r)
                λ c1 r1. elim (Bool-cases (chunk == 0)) [
                  | inl t ↦
                      let nothing : min size left ≡ 0 = ground arith in
                      rw (t, nothing) (pure-Gives m [] c1 r1)
                  | inr g ↦
                      let inside : ltb offset idisk.length ≡ true = ground arith in
                      let smaller : size - chunk < fuel = ground arith in
                      rw (g, inside)
                        (bind-Gives m (buffer_cache_read (sector_at m idisk (offset / 512))) _ c1 _
                          _ (read-Gives m _ c1 r1)
                          λ c2 r2.
                            bind-Gives m (read_loop idisk fuel (size - chunk) (offset + chunk)) _ c2
                              _ _
                              (read_loop-Gives fuel (size - chunk) (offset + chunk) c2 smaller r2)
                              λ c3 r3. (c3, ap (λ l. some (l, c3)) (chunk-rest size offset), r3))
                ])
      ]

  -- On a cache that holds some contents in blocks of 512 bytes, `inode_read_at` returns: it reads the
  -- bytes of the file from the offset on, as many as were asked for or are left, and leaves the contents
  -- as they are.
  pub inode_read_at-file_byte :
      (size offset : ℕ) (c : Cache)
      → Represents c m
      → Gives
          (inode_read_at idisk (pos size) offset)
          c
          m
          (collect (file_byte m idisk) (min size (idisk.length - offset)) offset)
  unfolding inode_read_at
  inode_read_at-file_byte size offset c r = read_loop-Gives (size + 1) size offset c (omega arith) r

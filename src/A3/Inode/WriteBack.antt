-- ===== src/A3/Inode/WriteBack.antt =====
-- What a file holds after the loop of `inode_write_at` of a3/fs/inode.c.
use mathlib.Core.Path.{subst}
use ecse_427_simple_shell_cr.Base.{
  ℕ, zero, suc, ◌+◌, ◌-◌, ◌/◌, ◌%◌, ◌<◌, ◌≤◌, ◌≡◌, ◌≢◌, refl, ap, ◌∙◌, inl, inr, true, false, ◌&&◌,
  some, List, ltb, leb, ◌==◌, if◌then◌else◌, length, drop, pos, arith, Bool-cases, ℕ_discrete,
}
use ecse_427_simple_shell_cr.A3.Cache.{Block, Cache}
use ecse_427_simple_shell_cr.A3.Cache.Represents.{Represents}
use ecse_427_simple_shell_cr.A3.Inode.{min, InodeDisk, entry, no_sector, byte_to_sector}
use ecse_427_simple_shell_cr.A3.Inode.Sectors.{Gives, sector_at}
use ecse_427_simple_shell_cr.A3.Inode.Read.{byte_to_sector-Gives}
use ecse_427_simple_shell_cr.A3.Inode.Write.{overlay, write_loop}
use ecse_427_simple_shell_cr.A3.Inode.Chunks.{
  after_write, chunk_byte, write_loop-step, write_loop-nothing, after_write-nothing,
  after_write-chunk,
}
use ecse_427_simple_shell_cr.A3.Inode.Overlay.{
  entry-overlay, length-drop, length-overlay, updated, write_chunk-Gives,
}

-- the byte of a position whose sectors are given
abbrev pub byte_in : (ℕ → ℕ) → (ℕ → Block) → ℕ → ℕ
byte_in at m p = entry (m (at (p / 512))) (p % 512)

-- Contents of blocks of 512 bytes in which a file has the given sectors, up to the last byte.
pub record Laid (idisk : InodeDisk) (at : ℕ → ℕ) (m : ℕ → Block) : Type 0 where
  pub sized : (s : ℕ) → length (m s) ≡ 512
  pub sectors : (p : ℕ) → p < idisk.length → sector_at m idisk (p / 512) ≡ at (p / 512)

-- A file with its sectors, for as long as only its own sectors change: no two of them are the same, and
-- none of them is a sector that tells where the others are. A file with a doubly indirect block in use
-- has none, since the contents tell where its index blocks are.
pub record Layout (idisk : InodeDisk) (at : ℕ → ℕ) : Type 0 where
  pub apart :
      (p q : ℕ)
      → p < idisk.length
      → q < idisk.length
      → at (p / 512) ≡ at (q / 512)
      → p / 512 ≡ q / 512
  pub stable :
      (m : ℕ → Block) (p : ℕ) (b : Block)
      → p < idisk.length
      → length b ≡ 512
      → Laid idisk at m
      → Laid idisk at (updated m (at (p / 512)) b)

module _ (idisk : InodeDisk) (at : ℕ → ℕ) (layout : Layout idisk at) where
  -- A chunk changes its own bytes.
  byte_in-chunk :
      (m : ℕ → Block) (offset n : ℕ) (buffer : List ℕ) (p : ℕ)
      → Laid idisk at m
      → offset < idisk.length
      → p < idisk.length
      → offset % 512 + n ≤ 512
      → n ≤ length buffer
      → let s = at (offset / 512) in
        byte_in at (updated m s (overlay (offset % 512) n (m s) buffer)) p
        ≡ after_write offset n buffer (byte_in at m) p
  byte_in-chunk m offset n buffer p laid inside inside' fits enough =
      let s = at (offset / 512) in
      let out =
        entry-overlay (offset % 512) n (p % 512) (m s) buffer (omega (arith, laid.sized s))
          enough in
      elim (ℕ_discrete (at (p / 512)) s) [
        | yes e ↦
            let here : (at (p / 512) == s) ≡ true = ground arith in
            let same = layout.apart p offset inside' inside e in
            rw here (out ∙ chunk_byte offset n p buffer (m s) (m (at (p / 512))) same fits (ap m e))
        | no d ↦
            let elsewhere : (at (p / 512) == s) ≡ false = ground arith in
            let other : p / 512 ≢ offset / 512 = λ q. d (ap at q) in
            let outside : (leb offset p && ltb p (offset + n)) ≡ false = ground arith in
            rw (elsewhere, outside)
      ]

  -- The loop writes all of a buffer inside the file: its bytes stand in their place, the others are as they
  -- were, the file keeps its sectors, and no other sector changes.
  pub write_loop-Laid :
      (fuel size offset : ℕ) (buffer : List ℕ) (m : ℕ → Block) (c : Cache)
      → size < fuel
      → offset + size ≤ idisk.length
      → size ≤ length buffer
      → Laid idisk at m
      → Represents c m
      → (m' : ℕ → Block) × Gives (write_loop idisk fuel size offset buffer) c m' size
        × Laid idisk at m'
        × ((p : ℕ)
            → p < idisk.length
            → byte_in at m' p ≡ after_write offset size buffer (byte_in at m) p)
        × ((t : ℕ) → ((p : ℕ) → p < idisk.length → t ≢ at (p / 512)) → m' t ≡ m t)
  write_loop-Laid zero size offset buffer m c enough fits long laid r = absurd (omega arith)
  write_loop-Laid (suc fuel) size offset buffer m c enough fits long laid r =
      elim (Bool-cases (size == 0)) [
        | inl t ↦
            let nothing : size ≡ 0 = ground arith in
            (
              m,
              (c, write_loop-nothing idisk fuel size offset buffer c nothing, r),
              laid,
              λ p _. after_write-nothing offset size buffer (byte_in at m) p nothing,
              λ t _. refl,
            )
        | inr f ↦
            let chunk = min size (min (idisk.length - offset) (512 - offset % 512)) in
            let in_sector : offset % 512 < 512 = omega arith in
            let some_left : (chunk == 0) ≡ false = ground arith in
            let inside : offset < idisk.length = ground arith in
            let test : ltb offset idisk.length ≡ true = ground arith in
            let fits' : offset % 512 + chunk ≤ 512 = ground arith in
            let enough' : chunk ≤ length buffer = ground arith in
            let s = at (offset / 512) in
            let blk = overlay (offset % 512) chunk (m s) buffer in
            let found : (if ltb offset idisk.length
                  then sector_at m idisk (offset / 512)
                  else no_sector)
                ≡ s =
              rw test (laid.sectors offset inside) in
            let (c1, e1, r1) =
              subst (Gives (byte_to_sector idisk (pos offset)) c m) found
                (byte_to_sector-Gives m idisk laid.sized offset c r) in
            let (c2, e2, r2) =
              write_chunk-Gives m s (offset % 512) chunk buffer c1 (laid.sized s) fits' enough'
                r1 in
            let laid1 =
              layout.stable m offset blk inside
                (length-overlay (offset % 512) chunk (m s) buffer (omega (arith, laid.sized s))
                    enough'
                  ∙ laid.sized s)
                laid in
            let sum : chunk + (size - chunk) ≡ size = ground arith in
            let part : chunk ≤ size = ground arith in
            let (m', (c3, e3, r3), laid', bytes, others) =
              write_loop-Laid fuel (size - chunk) (offset + chunk) (drop chunk buffer)
                (updated m s blk) c2 (ground arith) (ground arith)
                (omega (arith, length-drop chunk buffer)) laid1 r2 in
            (
              m',
              (
                c3,
                write_loop-step idisk fuel size offset buffer s (size - chunk) c c1 c2 c3 f
                      some_left e1 e2 e3
                    ∙ ap (λ k. some (k, c3)) sum,
                r3,
              ),
              laid',
              λ p lt.
                  bytes p lt
                  ∙ after_write-chunk offset size chunk p buffer _ _ part
                      (byte_in-chunk m offset chunk buffer p laid inside lt fits' enough'),
              λ t out.
                  let d = out offset inside in
                  let other : (t == s) ≡ false = ground arith in others t out ∙ rw other refl,
            )
      ]

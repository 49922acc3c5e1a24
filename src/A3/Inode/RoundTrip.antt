-- ===== src/A3/Inode/RoundTrip.antt =====
-- Writing and reading back the bytes of a file of a3/fs/inode.c.
use mathlib.Core.Path.{subst}
use ecse_427_simple_shell_cr.Base.{
  ℕ, ◌+◌, ◌-◌, ◌/◌, ◌%◌, ◌<◌, ◌≤◌, ◌≡◌, ◌⊎◌, sym, ap, ◌∙◌, inl, inr, true, false, ◌&&◌, List, ltb,
  leb, ◌==◌, length, take, pos, arith, Bool-cases,
}
use ecse_427_simple_shell_cr.A3.Cache.{Block, Cache}
use ecse_427_simple_shell_cr.A3.Cache.Represents.{Represents}
use ecse_427_simple_shell_cr.A3.Inode.{◌>>=◌, min, InodeDisk, entry, collect, inode_read_at}
use ecse_427_simple_shell_cr.A3.Inode.Sectors.{Gives, bind-Gives, collect-cong}
use ecse_427_simple_shell_cr.A3.Inode.DataSectors.{sector_at-direct}
use ecse_427_simple_shell_cr.A3.Inode.Read.{file_byte, take-collect, inode_read_at-file_byte}
use ecse_427_simple_shell_cr.A3.Inode.Write.{write_loop}
use ecse_427_simple_shell_cr.A3.Inode.Overlay.{updated}
use ecse_427_simple_shell_cr.A3.Inode.WriteBack.{Laid, Layout, byte_in, write_loop-Laid}

-- A file that its direct blocks hold keeps its sectors.
module _ (idisk : InodeDisk) (small : idisk.length ≤ 62976) where
  pub direct-Laid :
      (m : ℕ → Block) → ((s : ℕ) → length (m s) ≡ 512) → Laid idisk (entry idisk.direct_blocks) m
  direct-Laid m sized = record {
    sized = sized;
    sectors = λ p lt. sym (sector_at-direct m idisk (p / 512) (omega arith));
  }

  updated-sized :
      (m : ℕ → Block) (s t : ℕ) (b : Block)
      → ((u : ℕ) → length (m u) ≡ 512)
      → length b ≡ 512
      → length (updated m s b t) ≡ 512
  updated-sized m s t b sized e = elim (Bool-cases (t == s)) [
    | inl h ↦ rw h e
    | inr h ↦ rw h (sized t)
  ]

  pub direct-Layout :
      ((p q : ℕ)
        → p < idisk.length
        → q < idisk.length
        → entry idisk.direct_blocks (p / 512) ≡ entry idisk.direct_blocks (q / 512)
        → p / 512 ≡ q / 512)
      → Layout idisk (entry idisk.direct_blocks)
  direct-Layout apart = record {
    apart = apart;
    stable = λ m p b lt e laid.
        direct-Laid _ (λ t. updated-sized m (entry idisk.direct_blocks (p / 512)) t b laid.sized e);
  }

pub file_byte-byte_in :
    (idisk : InodeDisk) (at : ℕ → ℕ) (m : ℕ → Block) (p : ℕ)
    → Laid idisk at m
    → p < idisk.length
    → file_byte m idisk p ≡ byte_in at m p
unfolding file_byte
file_byte-byte_in idisk at m p laid lt = ap (λ s. entry (m s) (p % 512)) (laid.sectors p lt)

module _ (idisk : InodeDisk) (at : ℕ → ℕ) (layout : Layout idisk at) where
  -- On a cache that holds a file, whose sectors are apart and tell of no other sector, the loop of
  -- `inode_write_at` writes all of a buffer inside the file, and `inode_read_at` of the place then reads
  -- what was written; every other byte of the file is as it was.
  pub inode_read_at-write_loop :
      (size offset : ℕ) (buffer : List ℕ) (m : ℕ → Block) (c : Cache)
      → offset + size ≤ idisk.length
      → size ≤ length buffer
      → Laid idisk at m
      → Represents c m
      → (m' : ℕ → Block) × Gives
          (write_loop idisk (size + 1) size offset buffer >>= λ n.
            inode_read_at idisk (pos n) offset)
          c
          m'
          (take size buffer)
        × ((p : ℕ)
            → p < idisk.length
            → (p < offset) ⊎ (offset + size ≤ p)
            → file_byte m' idisk p ≡ file_byte m idisk p)
  inode_read_at-write_loop size offset buffer m c fits long laid r =
      let (m', wrote, laid', bytes, others) =
        write_loop-Laid idisk at layout (size + 1) size offset buffer m c (omega arith) fits long
          laid r in
      let all : collect (file_byte m' idisk) (min size (idisk.length - offset)) offset
          ≡ take size buffer =
        ap (λ n. collect (file_byte m' idisk) n offset) (ground arith)
        ∙ collect-cong (file_byte m' idisk) (entry buffer) size offset 0 (λ j lt.
          let inside : (leb offset (offset + j) && ltb (offset + j) (offset + size)) ≡ true =
            ground arith in
          let place : offset + j - offset ≡ 0 + j = omega arith in
          file_byte-byte_in idisk at m' (offset + j) laid' (omega arith)
          ∙ bytes (offset + j) (omega arith)
          ∙ rw inside (ap (entry buffer) place))
        ∙ sym (take-collect size buffer long) in
      (
        m',
        bind-Gives m' (write_loop idisk (size + 1) size offset buffer) _ c size _ wrote λ c1 r1.
            subst (Gives (inode_read_at idisk (pos size) offset) c1 m') all
              (inode_read_at-file_byte m' idisk laid'.sized size offset c1 r1),
        λ p lt out.
            let outside : (leb offset p && ltb p (offset + size)) ≡ false = ground arith in
            file_byte-byte_in idisk at m' p laid' lt
            ∙ bytes p lt
            ∙ rw outside (sym (file_byte-byte_in idisk at m p laid lt)),
      )

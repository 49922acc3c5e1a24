-- ===== src/A3/Inode/Chunks.antt =====
-- One round of the loop of `inode_write_at` of a3/fs/inode.c, and the bytes that it changes.
use ecse_427_simple_shell_cr.Base.{
  ℕ, suc, ◌+◌, ◌-◌, ◌/◌, ◌%◌, ◌≤◌, ◌≡◌, refl, ap, ◌∙◌, inl, inr, true, false, ◌&&◌, some, List, ltb,
  leb, ◌==◌, if◌then◌else◌, drop, pos, arith, Bool-cases,
}
use ecse_427_simple_shell_cr.A3.Cache.{Cache}
use ecse_427_simple_shell_cr.A3.Inode.{min, InodeDisk, entry, byte_to_sector}
use ecse_427_simple_shell_cr.A3.Inode.Sectors.{bind_of_some}
use ecse_427_simple_shell_cr.A3.Inode.Write.{write_chunk, write_loop}
use ecse_427_simple_shell_cr.A3.Inode.Overlay.{entry-drop}

-- the bytes that a write leaves
abbrev pub after_write : (offset size : ℕ) → (buffer : List ℕ) → (ℕ → ℕ) → ℕ → ℕ
after_write offset size buffer old p =
    if leb offset p && ltb p (offset + size) then entry buffer (p - offset) else old p

-- A byte of the sector of a chunk, by its place in the sector and by its place in the file.
pub chunk_byte :
    (offset n p : ℕ) (buffer b b' : List ℕ)
    → p / 512 ≡ offset / 512
    → offset % 512 + n ≤ 512
    → b' ≡ b
    → (if ltb (p % 512) (offset % 512)
        then entry b (p % 512)
        else if ltb (p % 512) (offset % 512 + n)
        then entry buffer (p % 512 - offset % 512)
        else entry b (p % 512))
      ≡ (if leb offset p && ltb p (offset + n)
          then entry buffer (p - offset)
          else entry b' (p % 512))
chunk_byte offset n p buffer b b' same fits e = elim (Bool-cases (ltb (p % 512) (offset % 512))) [
  | inl t ↦
      let outside : (leb offset p && ltb p (offset + n)) ≡ false = ground arith in
      rw (t, outside, e)
  | inr f ↦ elim (Bool-cases (ltb (p % 512) (offset % 512 + n))) [
    | inl t ↦
        let inside : (leb offset p && ltb p (offset + n)) ≡ true = ground arith in
        let place : p % 512 - offset % 512 ≡ p - offset = omega arith in rw (f, t, inside, place)
    | inr g ↦
        let outside : (leb offset p && ltb p (offset + n)) ≡ false = ground arith in
        rw (f, g, outside, e)
  ]
]

pub write_loop-step :
    (idisk : InodeDisk) (fuel size offset : ℕ) (buffer : List ℕ) (s rest : ℕ) (c c1 c2 c3 : Cache)
    → let chunk = min size (min (idisk.length - offset) (512 - offset % 512)) in
      (size == 0) ≡ false
      → (chunk == 0) ≡ false
      → byte_to_sector idisk (pos offset) c ≡ some (s, c1)
      → write_chunk s (offset % 512) chunk buffer c1 ≡ some (tt, c2)
      → write_loop idisk fuel (size - chunk) (offset + chunk) (drop chunk buffer) c2
        ≡ some (rest, c3)
      → write_loop idisk (suc fuel) size offset buffer c ≡ some (chunk + rest, c3)
unfolding write_loop
write_loop-step idisk fuel size offset buffer s rest c c1 c2 c3 f g e1 e2 e3 =
    let chunk = min size (min (idisk.length - offset) (512 - offset % 512)) in
    rw (f, write_loop)
      (bind_of_some (byte_to_sector idisk (pos offset)) _ c s c1 e1
        ∙ rw g (
            bind_of_some (write_chunk s (offset % 512) chunk buffer) _ c1 tt c2 e2
            ∙ bind_of_some
                (write_loop idisk fuel (size - chunk) (offset + chunk) (drop chunk buffer)) _ c2
                rest c3 e3))

pub write_loop-nothing :
    (idisk : InodeDisk) (fuel size offset : ℕ) (buffer : List ℕ) (c : Cache)
    → size ≡ 0
    → write_loop idisk (suc fuel) size offset buffer c ≡ some (size, c)
unfolding write_loop
write_loop-nothing idisk fuel size offset buffer c e = rw e refl

pub after_write-nothing :
    (offset size : ℕ) (buffer : List ℕ) (old : ℕ → ℕ) (p : ℕ)
    → size ≡ 0
    → old p ≡ after_write offset size buffer old p
after_write-nothing offset size buffer old p e =
    let outside : (leb offset p && ltb p (offset + size)) ≡ false = ground arith in rw outside refl

-- A chunk, and then the rest.
pub after_write-chunk :
    (offset size chunk p : ℕ) (buffer : List ℕ) (x y : ℕ)
    → chunk ≤ size
    → x ≡ (if leb offset p && ltb p (offset + chunk) then entry buffer (p - offset) else y)
    → (if leb (offset + chunk) p && ltb p (offset + chunk + (size - chunk))
        then entry (drop chunk buffer) (p - (offset + chunk))
        else x)
      ≡ (if leb offset p && ltb p (offset + size) then entry buffer (p - offset) else y)
after_write-chunk offset size chunk p buffer x y le e =
    elim (Bool-cases (leb offset p && ltb p (offset + chunk))) [
      | inl t ↦
          let behind : (leb (offset + chunk) p && ltb p (offset + chunk + (size - chunk))) ≡ false =
            ground arith in
          let inside : (leb offset p && ltb p (offset + size)) ≡ true = ground arith in
          rw (behind, inside) (e ∙ rw t refl)
      | inr f ↦
          elim (Bool-cases (leb (offset + chunk) p && ltb p (offset + chunk + (size - chunk)))) [
            | inl t ↦
                let inside : (leb offset p && ltb p (offset + size)) ≡ true = ground arith in
                let place : chunk + (p - (offset + chunk)) ≡ p - offset = ground arith in
                rw (t, inside) (entry-drop chunk _ buffer ∙ ap (entry buffer) place)
            | inr g ↦
                let outside : (leb offset p && ltb p (offset + size)) ≡ false = ground arith in
                rw (g, outside) (e ∙ rw f refl)
          ]
    ]

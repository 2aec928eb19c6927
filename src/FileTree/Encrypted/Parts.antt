-- ===== src/FileTree/Encrypted/Parts.antt =====
-- The parts of an encrypted file: its first block, its size, its blocks.
use native.Mathlib.Nat.{div-eq_of_lt}
use gocryptsftp.Base.{
  append-nil, ◌==◌, ℕ, zero, suc, ◌≡◌, ◌≤◌, ap, ◌∙◌, refl, List, [], ◌∷◌, Bytes, length, arith,
  take, length-append, ◌+◌, ◌-◌, ◌*◌, ◌<◌, take-all, Bool, false,
}
use gocryptsftp.Gocrypt.Content.Offsets.{
  u64, Geometry, IntraBlock, next_block, explode_rounds, explode_plain_range,
  joint_ciphertext_range, plain_off_to_block_no, block_cipher_off, block_no_to_cipher_off,
}
use gocryptsftp.Gocrypt.Content.Sizes.{IsGeometry}
use gocryptsftp.Gocrypt.Content.Blocks.{flatten}
use gocryptsftp.Gocrypt.Content.Recover.{AreBlocks, last_block, full_block}
use gocryptsftp.FileTree.Defs.{ContentEnc}
use gocryptsftp.FileTree.Calls.{plain, copy_into, read_file_id, decrypt_from, decrypt_file}
use gocryptsftp.FileTree.Encrypted.{range_offset}

next_block_no : (g : Geometry) (n : ℕ) → IsGeometry g → (next_block g 0 n).block_no ≡ 0
unfolding next_block plain_off_to_block_no
next_block_no g n v = div-eq_of_lt v.some_plain

-- The first of the blocks of a range that begins the file.
pub first_block :
    (g : Geometry) (n : ℕ)
    → IsGeometry g
    → 0 < n
    → (b : IntraBlock) × (bs : List IntraBlock) × (explode_plain_range g 0 n ≡ b ∷ bs)
      × (b.block_no ≡ 0)
unfolding explode_plain_range explode_rounds
first_block g zero v some_n = absurd (omega (arith, some_n))
first_block g (suc n) v some_n =
    let more : (suc n == 0) ≡ false = ground arith in
    let b = next_block g 0 (suc n) in
    (
      b,
      explode_rounds g n (u64 (0 + b.count)) (suc n - b.count),
      rw more refl,
      next_block_no g (suc n) v,
    )

pub offset_first :
    (g : Geometry) (b : IntraBlock) (bs : List IntraBlock)
    → b.block_no ≡ 0
    → range_offset (joint_ciphertext_range g (b ∷ bs)) ≡ 18
unfolding joint_ciphertext_range block_cipher_off block_no_to_cipher_off u64
offset_first g b bs e = ap (λ k. u64 (18 + k * g.cipher_bs)) e ∙ omega arith

pub copy_into-length : (text : Bytes) (n : ℕ) → length text ≡ n → copy_into n text ≡ text
unfolding copy_into
copy_into-length text n e =
    let all : take n text ≡ text = take-all n text (omega (arith, e)) in
    let none_left : n - length text ≡ 0 = omega (arith, e) in rw (all, none_left) (append-nil text)

pub decrypt_file-parts :
    (e : ContentEnc) (big : Bytes → Bool) (f id : Bytes) (n : ℕ) (parts : List e.Block)
    → e.cipher_size_to_plain_size (length f) ≡ n
    → read_file_id e big f ≡ plain id
    → e.explode_plain_range 0 n ≡ parts
    → decrypt_file e big f ≡ decrypt_from e big f n id parts
unfolding decrypt_file
decrypt_file-parts e big f id n parts size read exploded =
    rw (decrypt_file, read)
      (ap (λ m. decrypt_from e big f m id (e.explode_plain_range 0 m)) size
        ∙ ap (decrypt_from e big f n id) exploded)

-- The size of the encrypted file, for a file of `q` full blocks and the part of one that follows.
pub record HasSize (g : Geometry) (ps : List Bytes) : Type 0 where
  pub q : ℕ
  pub r : ℕ
  pub r_less : r < g.plain_bs
  pub blocks : length ps ≡ suc q
  pub bytes : length (flatten ps) ≡ q * g.plain_bs + r + 1

HasSize-cons :
    (g : Geometry) (p : Bytes) (ps : List Bytes)
    → length p ≡ g.plain_bs
    → HasSize g ps
    → HasSize g (p ∷ ps)
HasSize-cons g p ps full s = record {
  q = suc s.q;
  r = s.r;
  r_less = s.r_less;
  blocks = ap suc s.blocks;
  bytes = grind (arith, full, s.bytes, length-append p (flatten ps));
}

HasSize-one : (g : Geometry) (p : Bytes) → 0 < length p → length p ≤ g.plain_bs → HasSize g (p ∷ [])
HasSize-one g p some_p fits = record {
  q = 0;
  r = length p - 1;
  r_less = omega (arith, some_p, fits);
  blocks = refl;
  bytes = omega (arith, some_p, length-append p []);
}

pub HasSize-AreBlocks :
    (g : Geometry) (p : Bytes) (ps : List Bytes)
    → 0 < g.plain_bs
    → AreBlocks g.plain_bs (p ∷ ps)
    → HasSize g (p ∷ ps)
HasSize-AreBlocks g p _ pos (last_block _ some_p fits) = HasSize-one g p some_p fits
HasSize-AreBlocks g p [] pos (full_block _ _ full b) =
    HasSize-one g p (omega (arith, full, pos)) (omega (arith, full))
HasSize-AreBlocks g p (p' ∷ ps) pos (full_block _ _ full b) =
    HasSize-cons g p (p' ∷ ps) full (HasSize-AreBlocks g p' ps pos b)

-- ===== src/FileTree/Encrypted/Whole.antt =====
-- An encrypted file as a whole, and what `decryptFile` makes of it.
use gocryptsftp.Gocrypt.Content.Groups.{either_way}
use gocryptsftp.Base.{
  ℕ, ◌≡◌, ap, sym, ◌∙◌, refl, some, List, ◌∷◌, Bytes, ◌++◌, length, arith, ◌^◌, take, drop,
  length-append, ◌+◌, ◌*◌, ◌<◌, take-append, drop-append, Bool, true, false, leb,
}
use gocryptsftp.Gocrypt.Content.Offsets.{IntraBlock, cipher_size_to_plain_size}
use gocryptsftp.Gocrypt.Content.Sizes.{
  IsGeometry, encrypted_size, cipher_size_to_plain_size-encrypted_size,
}
use gocryptsftp.Gocrypt.Content.Header.{pack, random_header}
use gocryptsftp.Gocrypt.Content.Packing.{
  IsFileId, packed, length-packed, pack_lem, parse_header-packed,
}
use gocryptsftp.Gocrypt.Content.Blocks
use gocryptsftp.Gocrypt.Content.Blocks.{
  BlockError, too_short, zero_nonce, authentication, other_error, decrypted, decrypt_blocks,
  encrypt_blocks, flatten,
}
use gocryptsftp.Gocrypt.Content.Recover.{IsReady, AreBlocks, IsNonce}
use gocryptsftp.Gocrypt.Content.Roundtrip.{
  stored_blocks, length-stored_blocks, encrypt_blocks-stored, decrypt_blocks-stored,
}
use gocryptsftp.FileTree.Calls.{plain, read_file_id, decrypt_from, decrypt_file}
use gocryptsftp.FileTree.Encrypted.{content_enc}
use gocryptsftp.FileTree.Encrypted.Parts.{
  first_block, offset_first, copy_into-length, decrypt_file-parts, HasSize, HasSize-AreBlocks,
}

module _ (e : Blocks.ContentEnc) (r : IsReady e) (v : IsGeometry e.geometry) (nonces : ℕ → Bytes)
    (fresh : (i : ℕ) → IsNonce e.core (nonces i)) (id : Bytes) (i : IsFileId id) where
  abbrev stored_file : List Bytes → Bytes
  stored_file ps = packed id ++ flatten (stored_blocks e r nonces fresh 0 id i.long ps 0)

  length-stored_file :
      (ps : List Bytes) (s : HasSize e.geometry ps)
      → length (stored_file ps) ≡ encrypted_size v s.q s.r
  length-stored_file ps s =
      let c = flatten (stored_blocks e r nonces fresh 0 id i.long ps 0) in
      let blocks = length-stored_blocks e r nonces fresh 0 id i.long ps 0 in
      let all = length-append (packed id) c in
      let many : length ps * (e.core.iv_len + 16)
          ≡ s.q * (e.core.iv_len + 16) + (e.core.iv_len + 16) =
        ap (λ n. n * (e.core.iv_len + 16)) s.blocks ∙ omega arith in
      let wide : s.q * e.geometry.cipher_bs
          ≡ s.q * e.geometry.plain_bs + s.q * (e.core.iv_len + 16) =
        ap (λ n. s.q * n) r.sizes ∙ grind arith in
      omega (arith, blocks, all, many, wide, length-packed id i.long, s.bytes, r.sizes)

  plain_size-stored_file :
      (ps : List Bytes) (s : HasSize e.geometry ps)
      → length (stored_file ps) < 2 ^ 64
      → cipher_size_to_plain_size e.geometry (length (stored_file ps)) ≡ length (flatten ps)
  plain_size-stored_file ps s word =
      let len = length-stored_file ps s in
      ap (cipher_size_to_plain_size e.geometry) len
      ∙ cipher_size_to_plain_size-encrypted_size v s.q s.r s.r_less (omega (arith, word, len))
      ∙ sym s.bytes

  id-stored_file :
      (big : Bytes → Bool) (ps : List Bytes)
      → (s : HasSize e.geometry ps) → read_file_id (content_enc e) big (stored_file ps) ≡ plain id
  unfolding read_file_id random_header
  id-stored_file big ps s =
      let c = flatten (stored_blocks e r nonces fresh 0 id i.long ps 0) in
      let head : take 18 (packed id ++ c) ≡ packed id =
        take-append 18 (packed id) c (sym (length-packed id i.long)) in
      let long : leb (length (stored_file ps)) 18 ≡ false =
        ground (arith, length-stored_file ps s) in
      rw (long, head, parse_header-packed id i) refl

  decrypt_from-stored_file :
      (big : Bytes → Bool) (ps : List Bytes) (b : IntraBlock) (bs : List IntraBlock)
      → AreBlocks e.geometry.plain_bs ps
      → b.block_no ≡ 0
      → decrypt_from (content_enc e) big (stored_file ps) (length (flatten ps)) id (b ∷ bs)
        ≡ plain (flatten ps)
  unfolding decrypt_from
  decrypt_from-stored_file big ps b bs are b0 =
      let c = flatten (stored_blocks e r nonces fresh 0 id i.long ps 0) in
      let tail : drop 18 (packed id ++ c) ≡ c =
        drop-append 18 (packed id) c (sym (length-packed id i.long)) in
      let offset = offset_first e.geometry b bs b0 in
      let long : leb 18 (length (packed id ++ c)) ≡ true =
        ground (arith, length-append (packed id) c, length-packed id i.long) in
      let back = decrypt_blocks-stored e r nonces fresh 0 id i.long ps (omega arith) are in
      let copied = copy_into-length (flatten ps) (length (flatten ps)) refl in
      rw (offset, long, tail, b0, back)
        (ap plain (either_way (big (flatten ps)) (sym copied) ∙ copied))

  decrypt_file-stored_file :
      (big : Bytes → Bool) (ps : List Bytes)
      → AreBlocks e.geometry.plain_bs ps
      → HasSize e.geometry ps
      → 18 + length (flatten ps) + length ps * (e.core.iv_len + 16) < 2 ^ 64
      → decrypt_file (content_enc e) big (stored_file ps) ≡ plain (flatten ps)
  decrypt_file-stored_file big ps are s word =
      let n = length (flatten ps) in
      let c = flatten (stored_blocks e r nonces fresh 0 id i.long ps 0) in
      let len = length-append (packed id) c in
      let size = plain_size-stored_file ps s (
        omega (
          arith,
          word,
          len,
          length-packed id i.long,
          length-stored_blocks e r nonces fresh 0 id i.long ps 0,
        )) in
      let (b, bs, parts, b0) = first_block e.geometry n v (omega (arith, s.bytes)) in
      decrypt_file-parts (content_enc e) big (stored_file ps) id n (b ∷ bs) size
        (id-stored_file big ps s) parts
      ∙ decrypt_from-stored_file big ps b bs are b0

-- A file that is not empty, encrypted in blocks from number 0 on behind a header with its id, is
-- given back by `decryptFile`, byte for byte, if the encrypted file's length fits in 64 bits. The
-- nonces have the cipher's length and are not all 0, and neither is the id.
pub decrypt_file-encrypt_blocks :
    (e : Blocks.ContentEnc) (big : Bytes → Bool) (num_cpu : ℕ) (nonces : ℕ → Bytes) (id p : Bytes)
    (ps : List Bytes)
    → IsReady e
    → IsGeometry e.geometry
    → 0 < num_cpu
    → ((i : ℕ) → IsNonce e.core (nonces i))
    → IsFileId id
    → AreBlocks e.geometry.plain_bs (p ∷ ps)
    → 18 + length (flatten (p ∷ ps)) + length (p ∷ ps) * (e.core.iv_len + 16) < 2 ^ 64
    → (h : Bytes) × (c : Bytes) × (pack (random_header id) ≡ some h)
      × (encrypt_blocks e num_cpu nonces (p ∷ ps) 0 (some id) ≡ some c)
      × (decrypt_file (content_enc e) big (h ++ c) ≡ plain (flatten (p ∷ ps)))
decrypt_file-encrypt_blocks e big num_cpu nonces id p ps r v some_cpu fresh i are word =
    let c = flatten (stored_blocks e r nonces fresh 0 id i.long (p ∷ ps) 0) in
    let written =
      encrypt_blocks-stored e r nonces fresh 0 id i.long num_cpu (p ∷ ps) some_cpu are in
    (
      packed id,
      c,
      pack_lem id i.long,
      written,
      decrypt_file-stored_file e r v nonces fresh id i big (p ∷ ps) are
          (HasSize-AreBlocks e.geometry p ps v.some_plain are) word,
    )

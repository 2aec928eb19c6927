-- ===== src/FileTree/Encrypted.antt =====
-- filetree/decrypt.go on gocrypt/contentenc: `decryptFile` with the package that it calls.
pub mod Parts
pub mod Whole
use native.Mathlib.Nat.{div-eq_of_lt}
use gocryptsftp.Gocrypt.Content.Groups.{either_way}
use gocryptsftp.Base.{
  append-nil, ◌==◌, ℕ, zero, suc, ◌≡◌, ◌≤◌, ap, sym, ◌∙◌, refl, Option, none, some, List, [], ◌∷◌,
  Bytes, ◌++◌, length, arith, ◌^◌, take, drop, length-append, ◌+◌, ◌-◌, ◌*◌, ◌<◌, take-append,
  drop-append, take-all, Bool, true, false, leb,
}
use gocryptsftp.Gocrypt.Content.Offsets.{
  u64, Geometry, IntraBlock, next_block, explode_rounds, explode_plain_range,
  joint_ciphertext_range, cipher_size_to_plain_size, plain_off_to_block_no, block_cipher_off,
  block_no_to_cipher_off,
}
use gocryptsftp.Gocrypt.Content.Sizes.{
  IsGeometry, encrypted_size, cipher_size_to_plain_size-encrypted_size,
}
use gocryptsftp.Gocrypt.Content.Header.{
  HeaderError, invalid_length, invalid_version, zero_id, Parsed, parsed, not_parsed, pack,
  parse_header, random_header,
}
use gocryptsftp.Gocrypt.Content.Packing.{
  IsFileId, packed, length-packed, pack_lem, parse_header-packed,
}
use gocryptsftp.Gocrypt.Content.Blocks
use gocryptsftp.Gocrypt.Content.Blocks.{
  BlockError, too_short, zero_nonce, authentication, other_error, decrypted, decrypt_blocks,
  encrypt_blocks, flatten,
}
use gocryptsftp.Gocrypt.Content.Recover.{IsReady, AreBlocks, last_block, full_block, IsNonce}
use gocryptsftp.Gocrypt.Content.Roundtrip.{
  stored_blocks, length-stored_blocks, encrypt_blocks-stored, decrypt_blocks-stored,
}
use gocryptsftp.FileTree.Defs.{Answer, gives, fails, ContentEnc}
use gocryptsftp.FileTree.Calls.{plain, copy_into, read_file_id, decrypt_from, decrypt_file}

-- The errors get numbers.
abbrev header_error : HeaderError → ℕ
header_error invalid_length = 0
header_error invalid_version = 1
header_error zero_id = 2

abbrev block_error : BlockError → ℕ
block_error too_short = 3
block_error zero_nonce = 4
block_error authentication = 5
block_error other_error = 6

abbrev pub answer_header : Parsed → Answer Bytes
answer_header (parsed h) = gives h.id
answer_header (not_parsed x) = fails (header_error x)

abbrev pub answer_blocks : Blocks.Decrypted → Option (Answer Bytes)
answer_blocks (decrypted text none) = some (gives text)
answer_blocks (decrypted text (some x)) = some (fails (block_error x))
answer_blocks Blocks.panics = none

-- The offset that `decryptFile` takes of `JointCiphertextRange`.
abbrev pub range_offset : Option (ℕ × ℕ) → ℕ
range_offset none = 0
range_offset (some (offset, n)) = offset

abbrev pub content_enc : Blocks.ContentEnc → ContentEnc
content_enc e = record {
  Block = IntraBlock;
  block_no = λ b. b.block_no;
  cipher_size_to_plain_size = cipher_size_to_plain_size e.geometry;
  explode_plain_range = explode_plain_range e.geometry;
  joint_ciphertext_offset = λ bs. range_offset (joint_ciphertext_range e.geometry bs);
  parse_header = λ b. answer_header (parse_header b);
  decrypt_blocks = λ b n id. answer_blocks (decrypt_blocks e b n (some id));
}

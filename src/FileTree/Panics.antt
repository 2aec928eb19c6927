-- ===== src/FileTree/Panics.antt =====
-- filetree/decrypt.go on gocrypt/contentenc: the files that make `decryptFile` panic.
use gocryptsftp.Base.{
  ℕ, ◌≡◌, ◌≢◌, ◌≤◌, ◌↔◌, ap, sym, ◌∙◌, refl, none, some, List, [], ◌∷◌, Bytes, length, arith, take,
  drop, ◌+◌, ◌<◌, Bool, true, leb, inl, inr, Bool-cases,
}
use gocryptsftp.Gocrypt.Content.Offsets.{
  header_len, IntraBlock, explode_rounds, explode_plain_range, cipher_size_to_plain_size,
  block_overhead, Geometry,
}
use gocryptsftp.Gocrypt.Content.Sizes.{
  IsGeometry, cipher_size_to_plain_size-long, cipher_size_to_plain_size-short,
}
use gocryptsftp.Gocrypt.Content.Header.{FileHeader, Parsed, parsed, not_parsed, parse_header}
use gocryptsftp.Gocrypt.Content.Packing.{IsFileId, parse_header-pack}
use gocryptsftp.Gocrypt.Content.Blocks
use gocryptsftp.Gocrypt.Content.Blocks.{decrypted, decrypt_blocks}
use gocryptsftp.Gocrypt.Content.Safety.{IsTagged, decrypt_blocks-safe}
use gocryptsftp.FileTree.Calls.{
  plain, crashed, read_file_id, with_plaintext, decrypt_from, decrypt_file,
}
use gocryptsftp.FileTree.Decryption.{decrypt_file-no_blocks}
use gocryptsftp.FileTree.Encrypted.Parts.{first_block, offset_first, decrypt_file-parts}
use gocryptsftp.FileTree.Encrypted.{content_enc, answer_blocks, answer_header}

module _ (e : Blocks.ContentEnc) (big : Bytes → Bool) where
  with_plaintext-safe :
      (n : ℕ) (d : Blocks.Decrypted)
      → d ≢ Blocks.panics
      → with_plaintext (content_enc e) big n (answer_blocks d) ≢ crashed
  with_plaintext-safe n (decrypted text none) safe = λ h. cc
  with_plaintext-safe n (decrypted text (some x)) safe = λ h. cc
  with_plaintext-safe n Blocks.panics safe = λ h. safe refl

  -- From the first block on, with a file id that was read.
  decrypt_from-safe :
      (f id : Bytes) (n : ℕ) (b : IntraBlock) (bs : List IntraBlock)
      → IsTagged e.core
      → e.geometry.cipher_bs ≡ e.geometry.plain_bs + e.core.iv_len + 16
      → length id ≡ 16
      → 18 < length f
      → b.block_no ≡ 0
      → decrypt_from (content_enc e) big f n id (b ∷ bs) ≢ crashed
  unfolding decrypt_from
  decrypt_from-safe f id n b bs t sizes long some_f b0 =
      let offset = offset_first e.geometry b bs b0 in
      let inside : leb 18 (length f) ≡ true = ground (arith, some_f) in
      rw (offset, inside)
        (with_plaintext-safe n (decrypt_blocks e (drop 18 f) b.block_no (some id))
          (decrypt_blocks-safe e (drop 18 f) b.block_no id t sizes long))

  id_of_header :
      (f : Bytes) (p : Parsed)
      → parse_header (take 18 f) ≡ p
      → 18 < length f
      → decrypt_file (content_enc e) big f ≡ crashed
      → (h : FileHeader) × (parse_header (take 18 f) ≡ parsed h)
  unfolding decrypt_file read_file_id
  id_of_header f (parsed h) x long c = (h, x)
  id_of_header f (not_parsed y) x long c = absurd (ground (arith, x, long, c))

  longer_of_crash : (f : Bytes) → decrypt_file (content_enc e) big f ≡ crashed → 18 < length f
  unfolding decrypt_file read_file_id
  longer_of_crash f c = ground (arith, c)

  read_file_id-parsed :
      (f : Bytes) (h : FileHeader)
      → 18 < length f
      → parse_header (take 18 f) ≡ parsed h
      → read_file_id (content_enc e) big f ≡ plain h.id
  unfolding read_file_id
  read_file_id-parsed f h long x = ground (arith, long, x)

  -- With plaintext to give, there is a block, and its decryption does not panic.
  no_crash :
      (f : Bytes) (h : FileHeader)
      → IsTagged e.core
      → e.geometry.cipher_bs ≡ e.geometry.plain_bs + e.core.iv_len + 16
      → IsGeometry e.geometry
      → 18 < length f
      → parse_header (take 18 f) ≡ parsed h
      → 0 < cipher_size_to_plain_size e.geometry (length f)
      → decrypt_file (content_enc e) big f ≢ crashed
  no_crash f h t sizes v long x some_text c =
      let n = cipher_size_to_plain_size e.geometry (length f) in
      let (b, bs, parts, b0) = first_block e.geometry n v some_text in
      let id : IsFileId h.id = ((parse_header-pack (take 18 f) h).0 x).1 in
      let run =
        decrypt_file-parts (content_enc e) big f h.id n (b ∷ bs) refl
          (read_file_id-parsed f h long x) parts in
      decrypt_from-safe f h.id n b bs t sizes id.long long b0 (sym run ∙ c)

-- The encrypted files that are too short for a byte of plaintext, and whose header is read.
pub record IsHeaderOnly (g : Geometry) (f : Bytes) : Type 0 where
  pub longer : header_len < length f
  pub short : length f ≤ header_len + block_overhead g
  pub header : FileHeader
  pub read : parse_header (take header_len f) ≡ parsed header

crashed-IsHeaderOnly :
    (e : Blocks.ContentEnc) (big : Bytes → Bool) (f : Bytes)
    → IsTagged e.core
    → e.geometry.cipher_bs ≡ e.geometry.plain_bs + e.core.iv_len + 16
    → IsGeometry e.geometry
    → block_overhead e.geometry ≤ e.geometry.plain_bs
    → decrypt_file (content_enc e) big f ≡ crashed
    → IsHeaderOnly e.geometry f
crashed-IsHeaderOnly e big f t sizes v small c =
    let longer = longer_of_crash e big f c in
    let (h, x) = id_of_header e big f (parse_header (take 18 f)) refl longer c in
    elim (Bool-cases (leb (length f) (header_len + block_overhead e.geometry))) [
      | inl s ↦ record { longer = longer; short = ground (arith, s); header = h; read = x }
      | inr s ↦
          let long = cipher_size_to_plain_size-long v (length f) small (ground (arith, s)) in
          absurd (no_crash e big f h t sizes v longer x long c)
    ]

explode_nothing : (g : Geometry) → explode_plain_range g 0 0 ≡ []
unfolding explode_plain_range explode_rounds
explode_nothing g = refl

IsHeaderOnly-crashed :
    (e : Blocks.ContentEnc) (big : Bytes → Bool) (f : Bytes)
    → IsGeometry e.geometry
    → IsHeaderOnly e.geometry f
    → decrypt_file (content_enc e) big f ≡ crashed
IsHeaderOnly-crashed e big f v i =
    decrypt_file-no_blocks (content_enc e) big f i.header.id i.longer (ap answer_header i.read)
      (cipher_size_to_plain_size-short v (length f) i.short) (explode_nothing e.geometry)

-- `decryptFile` panics for just those files that are longer than a header by at most the overhead
-- of a block and begin with a header that is read. Each block has at least as much plaintext as
-- overhead, and the plaintext that the cipher gives is shorter than its input by the tag.
pub decrypt_file-crashed :
    (e : Blocks.ContentEnc) (big : Bytes → Bool) (f : Bytes)
    → IsTagged e.core
    → e.geometry.cipher_bs ≡ e.geometry.plain_bs + e.core.iv_len + 16
    → IsGeometry e.geometry
    → block_overhead e.geometry ≤ e.geometry.plain_bs
    → (decrypt_file (content_enc e) big f ≡ crashed) ↔ IsHeaderOnly e.geometry f
decrypt_file-crashed e big f t sizes v small =
    (crashed-IsHeaderOnly e big f t sizes v small, IsHeaderOnly-crashed e big f v)

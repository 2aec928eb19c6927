-- ===== src/Gocrypt/Content/Offsets.antt =====
-- gocrypt/contentenc/offsets.go and intrablock.go: offsets and sizes, and the parts of blocks that a
-- range of bytes consists of. Numbers are 64 bits wide.
use gocryptsftp.Base.{
  ℕ, zero, suc, ◌+◌, ◌-◌, ◌*◌, ◌/◌, ◌%◌, ◌^◌, Bool, true, false, ◌||◌, Option, none, some, List, [],
  ◌∷◌, Bytes, length, take, drop, if◌then◌else◌, ◌==◌, ltb, leb,
}

unfoldable pub u64 : ℕ → ℕ
u64 n = n % 2 ^ 64

abbrev pub header_len : ℕ
header_len = 18

-- The two block sizes of a `ContentEnc`.
pub record Geometry : Type 0 where
  pub plain_bs : ℕ
  pub cipher_bs : ℕ

pub record IntraBlock : Type 0 where
  pub block_no : ℕ
  pub skip : ℕ
  pub count : ℕ  -- `Length`

unfoldable pub min_uint64 : ℕ → ℕ → ℕ
min_uint64 x y = if ltb x y then x else y

module _ (g : Geometry) where
  unfoldable pub plain_off_to_block_no : ℕ → ℕ
  plain_off_to_block_no plain_offset = plain_offset / g.plain_bs

  -- `none` is a panic: the offset is inside the header.
  unfoldable pub cipher_off_to_block_no : ℕ → Option ℕ
  cipher_off_to_block_no cipher_offset =
      if ltb cipher_offset header_len
      then none
      else some ((cipher_offset - header_len) / g.cipher_bs)

  unfoldable pub block_no_to_cipher_off : ℕ → ℕ
  unfolding u64
  block_no_to_cipher_off block_no = u64 (header_len + block_no * g.cipher_bs)

  unfoldable pub block_no_to_plain_off : ℕ → ℕ
  unfolding u64
  block_no_to_plain_off block_no = u64 (block_no * g.plain_bs)

  unfoldable pub block_overhead : ℕ
  block_overhead = g.cipher_bs - g.plain_bs

  -- Behind the three early returns. A panic of `CipherOffToBlockNo` would show as 0 here.
  unfoldable pub without_overhead : ℕ → Option ℕ → ℕ
  unfolding block_overhead
  without_overhead cipher_size none = 0
  without_overhead cipher_size (some block_no) =
      let overhead = u64 (block_overhead * (block_no + 1) + header_len) in
      if ltb cipher_size overhead then 0 else cipher_size - overhead

  unfoldable pub cipher_size_to_plain_size : ℕ → ℕ
  unfolding without_overhead cipher_off_to_block_no
  cipher_size_to_plain_size cipher_size =
      if cipher_size == 0
      then 0
      else (if cipher_size == header_len
          then 0
          else (if ltb cipher_size header_len
              then 0
              else without_overhead cipher_size (cipher_off_to_block_no (cipher_size - 1))))

  unfoldable pub plain_size_to_cipher_size : ℕ → ℕ
  unfolding plain_off_to_block_no block_overhead
  plain_size_to_cipher_size plain_size =
      let block_count = plain_off_to_block_no (plain_size - 1) + 1 in
      if plain_size == 0 then 0 else u64 (plain_size + (block_overhead * block_count + header_len))

  -- The first block of a range.
  unfoldable pub next_block : ℕ → ℕ → IntraBlock
  unfolding plain_off_to_block_no block_no_to_plain_off min_uint64
  next_block offset n =
      let block_no = plain_off_to_block_no offset in
      let skip = offset - block_no_to_plain_off block_no in
      record { block_no = block_no; skip = skip; count = min_uint64 n (g.plain_bs - skip) }

  -- `for length > 0`. Each round takes at least one byte, so as many rounds as there are bytes are
  -- enough.
  unfoldable pub explode_rounds : ℕ → ℕ → ℕ → List IntraBlock
  explode_rounds zero offset n = []
  explode_rounds (suc rounds) offset n =
      let b = next_block offset n in
      let rest = explode_rounds rounds (u64 (offset + b.count)) (n - b.count) in
      if n == 0 then [] else b ∷ rest

  unfoldable pub explode_plain_range : ℕ → ℕ → List IntraBlock
  unfolding explode_rounds
  explode_plain_range offset n = explode_rounds n offset n

  -- The same on the ciphertext, with `none` for the panic of `CipherOffToBlockNo`.
  unfoldable pub next_cipher_block : ℕ → ℕ → Option IntraBlock
  unfolding cipher_off_to_block_no block_no_to_cipher_off
  next_cipher_block offset n = elim (cipher_off_to_block_no offset) [
    | none ↦ none
    | some block_no ↦
        let skip = offset - block_no_to_cipher_off block_no in
        let max_len = g.cipher_bs - skip in
        some (record {
          block_no = block_no;
          skip = skip;
          count = if ltb n max_len then n else max_len;
        })
  ]

  abbrev pub cons_block : IntraBlock → Option (List IntraBlock) → Option (List IntraBlock)
  cons_block b none = none
  cons_block b (some bs) = some (b ∷ bs)

  unfoldable pub explode_cipher_rounds : ℕ → ℕ → ℕ → Option (List IntraBlock)
  unfolding next_cipher_block
  explode_cipher_rounds zero offset n = some []
  explode_cipher_rounds (suc rounds) offset n = elim (n == 0) [
    | true ↦ some []
    | false ↦ elim (next_cipher_block offset n) [
      | none ↦ none
      | some b ↦ cons_block b (explode_cipher_rounds rounds (u64 (offset + b.count)) (n - b.count))
    ]
  ]

  unfoldable pub explode_cipher_range : ℕ → ℕ → Option (List IntraBlock)
  unfolding explode_cipher_rounds
  explode_cipher_range offset n = explode_cipher_rounds n offset n

  unfoldable pub is_partial : IntraBlock → Bool
  is_partial b = ltb 0 b.skip || ltb b.count g.plain_bs

  unfoldable pub block_cipher_off : IntraBlock → ℕ
  unfolding block_no_to_cipher_off
  block_cipher_off b = block_no_to_cipher_off b.block_no

  unfoldable pub block_plain_off : IntraBlock → ℕ
  unfolding block_no_to_plain_off
  block_plain_off b = block_no_to_plain_off b.block_no

  abbrev pub last_or : IntraBlock → List IntraBlock → IntraBlock
  last_or b [] = b
  last_or b (c ∷ cs) = last_or c cs

  -- Offset and length; `none` is a panic: there is no first block.
  unfoldable pub joint_ciphertext_range : List IntraBlock → Option (ℕ × ℕ)
  unfolding block_cipher_off
  joint_ciphertext_range [] = none
  joint_ciphertext_range (b ∷ bs) =
      let offset = block_cipher_off b in
      some (offset, u64 (block_cipher_off (last_or b bs) + g.cipher_bs + (2 ^ 64 - offset)))

  unfoldable pub joint_plaintext_range : List IntraBlock → Option (ℕ × ℕ)
  unfolding block_plain_off
  joint_plaintext_range [] = none
  joint_plaintext_range (b ∷ bs) =
      let offset = block_plain_off b in
      some (offset, u64 (block_plain_off (last_or b bs) + g.plain_bs + (2 ^ 64 - offset)))

-- `d[low:high]`, where `high` is at most the length; `none` is a panic.
unfoldable pub slice : ℕ → ℕ → Bytes → Option Bytes
slice low high d = if ltb high low then none else some (take (high - low) (drop low d))

-- No slice has `2 ^ 63` bytes; a sum from there on is negative as an `int`, which is no upper bound.
unfoldable pub crop_block : IntraBlock → Bytes → Option Bytes
unfolding slice u64
crop_block b d =
    let want = u64 (b.skip + b.count) in
    if ltb (length d) want
    then (if leb (2 ^ 63) want then none else slice b.skip (length d) d)
    else slice b.skip want d

-- ===== src/Gocrypt/Content/Blocks.antt =====
-- gocrypt/contentenc/content.go: encryption and decryption of blocks. The AEAD cipher is a
-- parameter, and so are the nonces, which the code draws at random.
use gocryptsftp.Base.{
  ◌&&◌, ℕ, zero, suc, ◌+◌, ◌-◌, ◌*◌, ◌/◌, ◌%◌, ◌^◌, Bool, not, Option, none, some, List, [], ◌∷◌,
  ◌++◌, Bytes, bytes_eq, length, take, drop, replicate, if◌then◌else◌, ◌==◌, ltb, leb, true,
}
use gocryptsftp.Gocrypt.Content.Offsets.{u64, Geometry, block_overhead}
use gocryptsftp.Gocrypt.Content.Header.{header_id_len}

-- How `Open` ends: `ErrAuth` is the error of the package stupidgcm, which leaves the plaintext.
pub data Unsealed : Type 0 where
  unsealed : Bytes → Unsealed
  err_auth : Bytes → Unsealed
  unseal_error : Unsealed

-- What of a `CryptoCore` the package uses.
pub record CryptoCore : Type 0 where
  pub iv_len : ℕ
  pub seal : Bytes → Bytes → Bytes → Bytes  -- nonce, plaintext, associated data
  pub unseal : Bytes → Bytes → Bytes → Unsealed

abbrev pub auth_tag_len : ℕ
auth_tag_len = 16

abbrev pub max_kernel_write : ℕ
max_kernel_write = 128 * 1024

pub record ContentEnc : Type 0 where
  pub core : CryptoCore
  pub geometry : Geometry
  pub force_decode : Bool
  pub c_req_size : ℕ
  pub p_req_size : ℕ

-- `New`; `none` is a panic, also of `%` by 0.
unfoldable pub new_content_enc : CryptoCore → ℕ → Bool → Option ContentEnc
unfolding u64
new_content_enc core plain_bs force_decode =
    let cipher_bs = u64 (plain_bs + core.iv_len + auth_tag_len) in
    if plain_bs == 0
    then none
    else (if not (max_kernel_write % plain_bs == 0)
        then none
        else some (record {
          core = core;
          geometry = record { plain_bs = plain_bs; cipher_bs = cipher_bs };
          force_decode = force_decode;
          c_req_size = max_kernel_write / plain_bs * cipher_bs + cipher_bs;
          p_req_size = max_kernel_write + plain_bs;
        }))

-- `binary.BigEndian.PutUint64`
unfoldable pub big_endian : ℕ → ℕ → Bytes
big_endian zero n = []
big_endian (suc k) n = n / 256 ^ k % 256 ∷ big_endian k n

-- The file id is `none` for `nil`; the result is `none` for a panic.
unfoldable pub concat_ad : ℕ → Option Bytes → Option Bytes
concat_ad block_no none = some (big_endian 8 block_no)
concat_ad block_no (some id) =
    if length id == header_id_len then some (big_endian 8 block_no ++ id) else none

pub data BlockError : Type 0 where
  too_short zero_nonce authentication other_error : BlockError

pub data Opened : Type 0 where
  opened : Bytes → Opened
  refused : BlockError → Bytes → Opened
  panicked : Opened

pub data Decrypted : Type 0 where
  decrypted : Bytes → Option BlockError → Decrypted
  panics : Decrypted

unfoldable pub all_zero : ℕ → Bytes → Bool
all_zero n b = bytes_eq b (replicate n 0)

abbrev pub then_cons : Option Bytes → Option (List Bytes) → Option (List Bytes)
then_cons none more = none
then_cons (some b) none = none
then_cons (some b) (some bs) = some (b ∷ bs)

abbrev pub then_append : Option (List Bytes) → Option (List Bytes) → Option (List Bytes)
then_append none more = none
then_append (some a) none = none
then_append (some a) (some b) = some (a ++ b)

abbrev pub encrypt_max_split : ℕ
encrypt_max_split = 2

abbrev pub flatten : List Bytes → Bytes
flatten [] = []
flatten (b ∷ bs) = b ++ flatten bs

-- What `cBlockPool.Put` takes: a buffer of the pool, which did not have to grow. An empty block is
-- the caller's own, which is taken to have another capacity than the buffers of the pool.
abbrev pub all_pooled : ℕ → List Bytes → Bool
all_pooled cipher_bs [] = true
all_pooled cipher_bs (b ∷ bs) =
    ltb 0 (length b) && (leb (length b) cipher_bs && all_pooled cipher_bs bs)

abbrev pub flatten_all : ℕ → Option (List Bytes) → Option Bytes
flatten_all cipher_bs none = none
flatten_all cipher_bs (some bs) = if all_pooled cipher_bs bs then some (flatten bs) else none

module _ (e : ContentEnc) where
  abbrev pub from_unsealed : Unsealed → Opened
  from_unsealed (unsealed p) = opened p
  from_unsealed (err_auth p) =
      if e.force_decode then refused authentication p else refused authentication []
  from_unsealed unseal_error = refused other_error []

  abbrev pub unseal_with : Bytes → Option Bytes → Opened
  unseal_with ciphertext none = panicked
  unseal_with ciphertext (some ad) =
      from_unsealed
        (e.core.unseal (take e.core.iv_len ciphertext) (drop e.core.iv_len ciphertext) ad)

  unfoldable pub decrypt_block : Bytes → ℕ → Option Bytes → Opened
  unfolding concat_ad
  decrypt_block ciphertext block_no file_id =
      if length ciphertext == 0
      then opened ciphertext
      else (if all_zero e.geometry.cipher_bs ciphertext
          then opened (replicate e.geometry.plain_bs 0)
          else (if ltb (length ciphertext) e.core.iv_len
              then refused too_short []
              else (if all_zero e.core.iv_len (take e.core.iv_len ciphertext)
                  then refused zero_nonce []
                  else unseal_with ciphertext (concat_ad block_no file_id))))

  -- After a block. `pBlockPool.Put` panics for a buffer that had to grow.
  abbrev pub next_round : (Bytes → Option BlockError → Decrypted) → Bytes → Opened → Decrypted
  next_round more buf (opened p) =
      if leb (length p) e.geometry.plain_bs then more (buf ++ p) none else panics
  next_round more buf (refused authentication p) =
      if e.force_decode
      then (if leb (length p) e.geometry.plain_bs
          then more (buf ++ p) (some authentication)
          else panics)
      else decrypted buf (some authentication)
  next_round more buf (refused x p) = decrypted buf (some x)
  next_round more buf panicked = panics

  -- `for cBuf.Len() > 0`
  unfoldable pub decrypt_rounds :
      ℕ → Bytes → ℕ → Option Bytes → Bytes → Option BlockError → Decrypted
  decrypt_rounds zero ciphertext block_no file_id buf err = decrypted buf err
  decrypt_rounds (suc rounds) [] block_no file_id buf err = decrypted buf err
  decrypt_rounds (suc rounds) (c ∷ cs) block_no file_id buf err =
      next_round
        (decrypt_rounds rounds (drop e.geometry.cipher_bs (c ∷ cs)) (u64 (block_no + 1)) file_id)
        buf (decrypt_block (take e.geometry.cipher_bs (c ∷ cs)) block_no file_id)

  -- Each round takes at least one byte.
  unfoldable pub decrypt_blocks : Bytes → ℕ → Option Bytes → Decrypted
  unfolding decrypt_rounds
  decrypt_blocks ciphertext first_block_no file_id =
      decrypt_rounds (length ciphertext) ciphertext first_block_no file_id [] none

  abbrev pub sealed_with : Bytes → Bytes → Option Bytes → Option Bytes
  sealed_with plaintext nonce none = none
  sealed_with plaintext nonce (some ad) =
      let ciphertext = nonce ++ e.core.seal nonce plaintext ad in
      if length plaintext + block_overhead e.geometry == length ciphertext
      then some ciphertext
      else none

  -- `none` is a panic.
  unfoldable pub do_encrypt_block : Bytes → ℕ → Option Bytes → Bytes → Option Bytes
  unfolding concat_ad block_overhead
  do_encrypt_block plaintext block_no file_id nonce =
      if length plaintext == 0
      then some plaintext
      else (if length nonce == e.core.iv_len
          then sealed_with plaintext nonce (concat_ad block_no file_id)
          else none)

  -- Block `i` gets the nonce `nonces i`.
  unfoldable pub do_encrypt_blocks :
      (ℕ → Bytes) → List Bytes → ℕ → Option Bytes → ℕ → Option (List Bytes)
  do_encrypt_blocks nonces [] first_block_no file_id i = some []
  do_encrypt_blocks nonces (b ∷ bs) first_block_no file_id i =
      then_cons (do_encrypt_block b (u64 (first_block_no + i)) file_id (nonces i))
        (do_encrypt_blocks nonces bs first_block_no file_id (i + 1))

  -- The goroutines of `EncryptBlocks`, each on a group of blocks of its own; the outputs are
  -- slices of one list, and a panic of one stops the program.
  unfoldable pub encrypt_groups :
      (ℕ → Bytes) → List Bytes → ℕ → Option Bytes → ℕ → ℕ → ℕ → Option (List Bytes)
  encrypt_groups nonces blocks first_block_no file_id group_size zero i = some []
  encrypt_groups nonces blocks first_block_no file_id group_size (suc left) i =
      let low = i * group_size in
      let high = if left == 0 then length blocks else (i + 1) * group_size in
      then_append
        (do_encrypt_blocks (λ j. nonces (low + j)) (take (high - low) (drop low blocks))
          (u64 (first_block_no + low)) file_id 0)
        (encrypt_groups nonces blocks first_block_no file_id group_size left (i + 1))

  unfoldable pub encrypt_blocks : ℕ → (ℕ → Bytes) → List Bytes → ℕ → Option Bytes → Option Bytes
  unfolding encrypt_groups
  encrypt_blocks num_cpu nonces blocks first_block_no file_id =
      let ncpu = if ltb encrypt_max_split num_cpu then encrypt_max_split else num_cpu in
      flatten_all e.geometry.cipher_bs (
        if leb 32 (length blocks)
        then encrypt_groups nonces blocks first_block_no file_id (length blocks / ncpu) ncpu 0
        else do_encrypt_blocks nonces blocks first_block_no file_id 0)

  -- `MergeBlocks`; `none` is a panic. `copy` stops at the end of the shorter slice.
  unfoldable pub merge_blocks : Bytes → Bytes → ℕ → Option Bytes
  merge_blocks old_data new_data offset =
      let n = e.geometry.plain_bs in
      let old = take n old_data ++ replicate (n - length (take n old_data)) 0 in
      let new_len = offset + length new_data in
      let out_len = if ltb (length old_data) new_len then new_len else length old_data in
      let out = take offset old ++ (new_data ++ drop new_len old) in
      let merged =
        if ltb n new_len then none else (if ltb n out_len then none else some (take out_len out)) in
      if length old_data == 0 then (if offset == 0 then some new_data else merged) else merged

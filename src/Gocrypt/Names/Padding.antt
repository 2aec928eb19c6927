-- ===== src/Gocrypt/Names/Padding.antt =====
-- gocrypt/nametransform/pad16.go: PKCS#7 padding to blocks of 16 bytes.
use gocryptsftp.Base.{
  ℕ, Option, none, some, [], ◌∷◌, ◌++◌, Bytes, length, take, drop, replicate, ◌+◌, ◌-◌, ◌%◌, ◌==◌,
  ltb, leb, if◌then◌else◌, not,
}

abbrev pub block_size : ℕ
block_size = 16

-- `none` is a panic.
unfoldable pub pad16 : Bytes → Option Bytes
pad16 orig =
    let d = block_size - length orig % block_size in
    let pad_len = if d == 0 then block_size else d in
    if length orig == 0 then none else some (orig ++ replicate pad_len (pad_len % 256))

pub data PadError : Type 0 where
  empty_input unaligned_size zero_length too_long as_long_as_input : PadError
  invalid_byte : ℕ → PadError

pub data Unpadded : Type 0 where
  unpadded : Bytes → Unpadded
  bad_padding : PadError → Unpadded

abbrev pub last_byte : Bytes → ℕ
last_byte [] = 0
last_byte (b ∷ []) = b
last_byte (b ∷ c ∷ bs) = last_byte (c ∷ bs)

-- The first index, counted from `i`, of a byte that is not the padding byte.
unfoldable pub first_invalid : ℕ → Bytes → ℕ → Option ℕ
first_invalid pad_byte [] i = none
first_invalid pad_byte (b ∷ bs) i =
    if b == pad_byte then first_invalid pad_byte bs (i + 1) else some i

abbrev pub without_padding : Bytes → ℕ → Option ℕ → Unpadded
without_padding padded new_len none = unpadded (take new_len padded)
without_padding padded new_len (some i) = bad_padding (invalid_byte i)

unfoldable pub unpad16 : Bytes → Unpadded
unfolding first_invalid
unpad16 padded =
    let old_len = length padded in
    let pad_len = last_byte padded in
    let new_len = old_len - pad_len in
    if old_len == 0
    then bad_padding empty_input
    else (if not (old_len % block_size == 0)
        then bad_padding unaligned_size
        else (if pad_len == 0
            then bad_padding zero_length
            else (if ltb block_size pad_len
                then bad_padding too_long
                else (if leb old_len pad_len
                    then bad_padding as_long_as_input
                    else without_padding padded new_len
                        (first_invalid pad_len (drop new_len padded) new_len)))))

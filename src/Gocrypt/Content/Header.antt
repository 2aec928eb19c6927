-- ===== src/Gocrypt/Content/Header.antt =====
-- gocrypt/contentenc/file_header.go: the header of an encrypted file, a version and a file id.
use gocryptsftp.Base.{
  ℕ, ◌+◌, ◌*◌, ◌/◌, ◌%◌, not, ◌||◌, Option, none, some, [], ◌∷◌, ◌++◌, Bytes, bytes_eq, length,
  take, drop, replicate, if◌then◌else◌, ◌==◌,
}
use gocryptsftp.Gocrypt.Content.Offsets.{header_len}

abbrev pub current_version : ℕ
current_version = 2

abbrev pub header_id_len : ℕ
header_id_len = 16

pub record FileHeader : Type 0 where
  pub version : ℕ
  pub id : Bytes

pub data HeaderError : Type 0 where
  invalid_length invalid_version zero_id : HeaderError

pub data Parsed : Type 0 where
  parsed : FileHeader → Parsed
  not_parsed : HeaderError → Parsed

-- `binary.BigEndian.PutUint16` and `Uint16`
unfoldable pub put_uint16 : ℕ → Bytes
put_uint16 n = n / 256 % 256 ∷ n % 256 ∷ []

unfoldable pub uint16 : Bytes → ℕ
uint16 (a ∷ b ∷ _) = a * 256 + b
uint16 _ = 0

-- `none` is a panic.
unfoldable pub pack : FileHeader → Option Bytes
unfolding put_uint16
pack h =
    if not (length h.id == header_id_len) || not (h.version == current_version)
    then none
    else some (put_uint16 h.version ++ h.id)

unfoldable pub parse_header : Bytes → Parsed
unfolding uint16
parse_header buf =
    if not (length buf == header_len)
    then not_parsed invalid_length
    else (if not (uint16 (take 2 buf) == current_version)
        then not_parsed invalid_version
        else (if bytes_eq (drop 2 buf) (replicate header_id_len 0)
            then not_parsed zero_id
            else parsed (record { version = uint16 (take 2 buf); id = drop 2 buf })))

-- `RandBytes` gives the id.
unfoldable pub random_header : Bytes → FileHeader
random_header random = record { version = current_version; id = random }

-- ===== src/Gocrypt/Names/Transform.antt =====
-- gocrypt/nametransform/names.go, longnames.go and diriv.go: names of files. The EME cipher, base64
-- and SHA-256 are parameters.
use gocryptsftp.Base.{
  ℕ, Bool, true, false, not, ◌&&◌, ◌||◌, Option, none, some, [], ◌∷◌, ◌++◌, Bytes, codes, bytes_eq,
  length, take, drop, ◌-◌, ◌%◌, ◌==◌, ltb, leb, if◌then◌else◌,
}
use gocryptsftp.FileTree.Paths.{dot, dir}
use gocryptsftp.Gocrypt.Names.Padding.{block_size, pad16, Unpadded, unpadded, bad_padding, unpad16}

-- `EMECipher`: initialisation vector and data; `none` is a panic.
pub record EmeCipher : Type 0 where
  pub encrypt : Bytes → Bytes → Option Bytes
  pub decrypt : Bytes → Bytes → Option Bytes

pub record Encoding : Type 0 where
  pub encode_to_string : Bytes → Bytes
  pub decode_string : Bytes → Option Bytes

-- What the package calls: `base64.URLEncoding`, `base64.RawURLEncoding` and `sha256.Sum256`.
pub record Packages : Type 0 where
  pub url_encoding : Encoding
  pub raw_url_encoding : Encoding
  pub sum256 : Bytes → Bytes

pub record NameTransform : Type 0 where
  pub eme_cipher : EmeCipher
  pub long_names : Bool
  pub b64 : Encoding
  pub sum256 : Bytes → Bytes

abbrev pub name_max : ℕ
name_max = 255

unfoldable pub new_name_transform : Packages → EmeCipher → Bool → Bool → NameTransform
new_name_transform p e long_names raw64 = record {
  eme_cipher = e;
  long_names = long_names;
  b64 = if raw64 then p.raw_url_encoding else p.url_encoding;
  sum256 = p.sum256;
}

pub data NameError : Type 0 where
  decode_error ebadmsg enametoolong not_implemented : NameError

pub data Named : Type 0 where
  named : Bytes → Named
  name_error : NameError → Named
  name_panic : Named

-- `bytes.Contains` of a single byte
unfoldable pub contains : ℕ → Bytes → Bool
contains b [] = false
contains b (x ∷ xs) = x == b || contains b xs

-- Behind `unPad16`
unfoldable pub checked_name : Unpadded → Named
unfolding contains
checked_name (bad_padding x) = name_error ebadmsg
checked_name (unpadded bin) =
    if contains 0 bin || contains b'/' bin
    then name_error ebadmsg
    else (if bytes_eq bin (b'.' ∷ []) || bytes_eq bin (b'.' ∷ b'.' ∷ [])
        then name_error ebadmsg
        else named bin)

abbrev pub decrypted_name : Option Bytes → Named
decrypted_name none = name_panic
decrypted_name (some bin) = checked_name (unpad16 bin)

-- The constants of longnames.go
abbrev pub long_name_suffix : Bytes
long_name_suffix = codes ".name"

abbrev pub long_name_prefix : Bytes
long_name_prefix = codes "gocryptfs.longname."

-- `strings.HasPrefix`, `strings.HasSuffix`
unfoldable pub has_prefix : Bytes → Bytes → Bool
has_prefix s prefix = bytes_eq (take (length prefix) s) prefix

unfoldable pub has_suffix : Bytes → Bytes → Bool
has_suffix s suffix =
    leb (length suffix) (length s) && bytes_eq (drop (length s - length suffix) s) suffix

pub data NameType : Type 0 where
  long_name_content long_name_filename long_name_none : NameType

unfoldable pub name_type : Bytes → NameType
unfolding has_prefix has_suffix
name_type c_name =
    if not (has_prefix c_name long_name_prefix)
    then long_name_none
    else (if has_suffix c_name long_name_suffix then long_name_filename else long_name_content)

unfoldable pub is_long_content : Bytes → Bool
unfolding name_type
is_long_content c_name = elim (name_type c_name) [
  | long_name_content ↦ true
  | long_name_filename ↦ false
  | long_name_none ↦ false
]

-- `none` is a panic: the name is shorter than the suffix.
unfoldable pub remove_long_name_suffix : Bytes → Option Bytes
remove_long_name_suffix c_name =
    if ltb (length c_name) (length long_name_suffix)
    then none
    else some (take (length c_name - length long_name_suffix) c_name)

-- Their code is commented out.
unfoldable pub read_long_name_at : ℕ → Bytes → Named
read_long_name_at dirfd c_name = name_error not_implemented

unfoldable pub delete_long_name_at : ℕ → Bytes → NameError
delete_long_name_at dirfd hash_name = not_implemented

unfoldable pub read_dir_iv_at : ℕ → Named
read_dir_iv_at dirfd = name_error not_implemented

unfoldable pub write_dir_iv_at : ℕ → NameError
write_dir_iv_at dirfd = not_implemented

module _ (n : NameTransform) where
  abbrev pub decoded_name : Bytes → Option Bytes → Named
  decoded_name iv none = name_error decode_error
  decoded_name iv (some bin) =
      if length bin == 0
      then name_error ebadmsg
      else (if not (length bin % block_size == 0)
          then name_error ebadmsg
          else decrypted_name (n.eme_cipher.decrypt iv bin))

  unfoldable pub decrypt_name : Bytes → Bytes → Named
  unfolding checked_name
  decrypt_name cipher_name iv = decoded_name iv (n.b64.decode_string cipher_name)

  abbrev pub encoded : Option Bytes → Option Bytes
  encoded none = none
  encoded (some bin) = some (n.b64.encode_to_string bin)

  abbrev pub encrypted : Bytes → Option Bytes → Option Bytes
  encrypted iv none = none
  encrypted iv (some bin) = encoded (n.eme_cipher.encrypt iv bin)

  -- `none` is a panic.
  unfoldable pub encrypt_name : Bytes → Bytes → Option Bytes
  encrypt_name plain_name iv = encrypted iv (pad16 plain_name)

  unfoldable pub b64_encode_to_string : Bytes → Bytes
  b64_encode_to_string src = n.b64.encode_to_string src

  unfoldable pub b64_decode_string : Bytes → Option Bytes
  b64_decode_string s = n.b64.decode_string s

  unfoldable pub hash_long_name : Bytes → Bytes
  hash_long_name name = long_name_prefix ++ n.b64.encode_to_string (n.sum256 name)

  unfoldable pub write_long_name_at : ℕ → Bytes → Bytes → NameError
  write_long_name_at dirfd hash_name plain_name = not_implemented

  unfoldable pub hashed : Option Bytes → Named
  unfolding hash_long_name
  hashed none = name_panic
  hashed (some c_name) =
      if n.long_names && ltb name_max (length c_name)
      then named (hash_long_name c_name)
      else named c_name

  unfoldable pub encrypt_and_hash_name : Bytes → Bytes → Named
  unfolding encrypt_name hashed
  encrypt_and_hash_name name iv =
      if ltb name_max (length name) then name_error enametoolong else hashed (encrypt_name name iv)

-- `Dir` is like `filepath.Dir`, with "" in place of ".".
unfoldable pub parent_dir : Bytes → Bytes
unfolding dir
parent_dir path = if bytes_eq (dir path) dot then [] else dir path

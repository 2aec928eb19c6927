-- ===== src/Gocrypt/Names/Tests.antt =====
-- The theorems on gocrypt/nametransform at concrete names, with a cipher that hides nothing.
use gocryptsftp.Base.{
  ◌≡◌, ◌↔◌, refl, true, ◌&&◌, none, some, [], ◌∷◌, ◌++◌, Bytes, codes, bytes_eq, length, replicate,
  arith, ◌==◌, leb, if◌then◌else◌, Option,
}
use gocryptsftp.Gocrypt.Names.Padding.{pad16, unpad16, unpadded, first_invalid}
use gocryptsftp.Gocrypt.Names.Unpadding.{unpad16-pad16}
use gocryptsftp.Gocrypt.Names.Transform.{
  NameTransform, named, name_panic, contains, decrypt_name, encrypt_name, checked_name,
}
use gocryptsftp.Gocrypt.Names.Accepted.{
  IsName, IsEncoding, IsEme, CipherPanics, decrypt_name-IsName, decrypt_name-encrypt_name,
  decrypt_name-CipherPanics,
}

abbrev keep : Bytes → Bytes → Option Bytes
keep iv x = if length iv == 16 && leb (length x) 2048 then some x else none

abbrev keeping : NameTransform
keeping = record {
  eme_cipher = record { encrypt = keep; decrypt = keep };
  long_names = true;
  b64 = record { encode_to_string = λ x. x; decode_string = λ x. some x };
  sum256 = λ x. replicate 32 1;
}

keeping-IsEncoding : IsEncoding keeping.b64
keeping-IsEncoding = record { decode-encode = λ x. refl }

keeping-IsEme : IsEme keeping.eme_cipher
keeping-IsEme = record {
  encrypts = λ iv x long whole some_x short.
      let iv_ok : (length iv == 16) ≡ true = ground (arith, long) in
      let fits : leb (length x) 2048 ≡ true = ground (arith, short) in
      (x, rw (iv_ok, fits) refl, refl, rw (iv_ok, fits) refl);
}

abbrev iv : Bytes
iv = replicate 16 4

abbrev name : Bytes
name = codes "a.txt"

name-IsName : IsName name
unfolding contains
name-IsName = record {
  some_byte = omega arith;
  no_nul = refl;
  no_slash = refl;
  no_dot = λ h. cc;
  no_dots = λ h. cc;
}

abbrev padded_name : Bytes
padded_name = name ++ replicate 11 11

unpad16-pad16_example : (unpad16 padded_name ≡ unpadded name) ↔ (pad16 name ≡ some padded_name)
unpad16-pad16_example = unpad16-pad16 name padded_name

decrypt_name-encrypt_name_example :
    (c : Bytes) × (encrypt_name keeping name iv ≡ some c) × (decrypt_name keeping c iv ≡ named name)
decrypt_name-encrypt_name_example =
    decrypt_name-encrypt_name keeping name iv keeping-IsEncoding keeping-IsEme name-IsName
      (omega arith) refl

program : Unit {0}
unfolding decrypt_name unpad16 first_invalid checked_name contains bytes_eq
program = tt

decrypt_name-IsName_example : IsName name
unfolding program
decrypt_name-IsName_example = decrypt_name-IsName keeping padded_name iv name refl

-- An initialisation vector of two bytes
decrypt_name-CipherPanics_example :
    (decrypt_name keeping padded_name (1 ∷ 2 ∷ []) ≡ name_panic)
    ↔ CipherPanics keeping padded_name (1 ∷ 2 ∷ [])
decrypt_name-CipherPanics_example = decrypt_name-CipherPanics keeping padded_name (1 ∷ 2 ∷ [])

panics_for_short_iv : decrypt_name keeping padded_name (1 ∷ 2 ∷ []) ≡ name_panic
unfolding program
panics_for_short_iv = refl

-- 250 bytes, which are 256 with the padding
abbrev long_name : Bytes
long_name = replicate 250 97

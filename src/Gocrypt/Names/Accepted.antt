-- ===== src/Gocrypt/Names/Accepted.antt =====
-- gocrypt/nametransform/names.go: the names that `DecryptName` gives, and that they come back.
use gocryptsftp.Base.{
  ◌≡◌, ◌≢◌, ◌≤◌, ◌<◌, ◌↔◌, refl, ap, sym, ◌∙◌, true, false, Option, none, some, [], ◌∷◌, Bytes,
  bytes_eq, bytes_eq-false, bytes_eq_iff, length, ◌%◌, ◌==◌, arith,
}
use gocryptsftp.Gocrypt.Names.Padding.{Unpadded, unpadded, bad_padding, unpad16}
use gocryptsftp.Gocrypt.Names.Unpadding.{unpad16-pad16, pad16-some, length_of_pad16}
use gocryptsftp.Gocrypt.Names.Transform.{
  EmeCipher, Encoding, NameTransform, named, name_panic, contains, checked_name, decrypted_name,
  decoded_name, decrypt_name, encrypt_name,
}

-- A name that a directory entry can have.
pub record IsName (p : Bytes) : Type 0 where
  pub some_byte : 0 < length p
  pub no_nul : contains 0 p ≡ false
  pub no_slash : contains b'/' p ≡ false
  pub no_dot : p ≢ b'.' ∷ []
  pub no_dots : p ≢ b'.' ∷ b'.' ∷ []

-- What the code relies on: base64 is decoded to what was encoded, and EME works on 1 to 128 blocks
-- with an initialisation vector of 16 bytes, keeps the length and is undone by its inverse.
pub record IsEncoding (b : Encoding) : Type 0 where
  pub decode-encode : (x : Bytes) → b.decode_string (b.encode_to_string x) ≡ some x

pub record IsEme (c : EmeCipher) : Type 0 where
  pub encrypts :
      (iv x : Bytes)
      → length iv ≡ 16
      → length x % 16 ≡ 0
      → 0 < length x
      → length x ≤ 2048
      → (y : Bytes) × (c.encrypt iv x ≡ some y) × (length y ≡ length x) × (c.decrypt iv y ≡ some x)

checked_name_lem : (p : Bytes) → IsName p → checked_name (unpadded p) ≡ named p
unfolding checked_name
checked_name_lem p i =
    let dot : bytes_eq p (b'.' ∷ []) ≡ false = bytes_eq-false p (b'.' ∷ []) i.no_dot in
    let dots : bytes_eq p (b'.' ∷ b'.' ∷ []) ≡ false =
      bytes_eq-false p (b'.' ∷ b'.' ∷ []) i.no_dots in
    rw (i.no_nul, i.no_slash, dot, dots) refl

-- What is behind the decryption.
checked_name_inv :
    (u : Unpadded) (p : Bytes)
    → checked_name u ≡ named p
    → (u ≡ unpadded p)
      × (contains 0 p ≡ false)
      × (contains b'/' p ≡ false)
      × (p ≢ b'.' ∷ [])
      × (p ≢ b'.' ∷ b'.' ∷ [])
unfolding checked_name
checked_name_inv (bad_padding x) p h = cc
checked_name_inv (unpadded q) p h =
    let e : q ≡ p = ground (arith, h) in
    let nul : contains 0 q ≡ false = ground (arith, h) in
    let slash : contains b'/' q ≡ false = ground (arith, h) in
    (
      ap unpadded e,
      ap (contains 0) (sym e) ∙ nul,
      ap (contains b'/') (sym e) ∙ slash,
      λ d. ground (arith, h, e ∙ d, bytes_eq_iff q (b'.' ∷ [])),
      λ d. ground (arith, h, e ∙ d, bytes_eq_iff q (b'.' ∷ b'.' ∷ [])),
    )

decrypted_name_inv :
    (o : Option Bytes) (p : Bytes)
    → decrypted_name o ≡ named p
    → (x : Bytes) × (o ≡ some x) × (checked_name (unpad16 x) ≡ named p)
decrypted_name_inv none p h = cc
decrypted_name_inv (some x) p h = (x, refl, h)

no_panic_checked : (u : Unpadded) → checked_name u ≢ name_panic
unfolding checked_name
no_panic_checked (bad_padding x) h = cc
no_panic_checked (unpadded q) h = ground (arith, h)

none_of_panic : (o : Option Bytes) → decrypted_name o ≡ name_panic → o ≡ none
none_of_panic none h = refl
none_of_panic (some x) h = absurd (no_panic_checked (unpad16 x) h)

module _ (n : NameTransform) where
  -- The name is decoded to whole blocks, on which the cipher panics.
  pub record CipherPanics (cipher_name iv : Bytes) : Type 0 where
    pub bin : Bytes
    pub decoded : n.b64.decode_string cipher_name ≡ some bin
    pub some_byte : 0 < length bin
    pub aligned : length bin % 16 ≡ 0
    pub panics : n.eme_cipher.decrypt iv bin ≡ none

  panic_inv :
      (iv : Bytes) (o : Option Bytes)
      → decoded_name n iv o ≡ name_panic
      → (bin : Bytes) × (o ≡ some bin)
        × (0 < length bin)
        × (length bin % 16 ≡ 0)
        × (decrypted_name (n.eme_cipher.decrypt iv bin) ≡ name_panic)
  panic_inv iv none h = cc
  panic_inv iv (some bin) h = (bin, refl, ground (arith, h), ground (arith, h), ground (arith, h))

  CipherPanics-decrypt_name :
      (cipher_name iv : Bytes)
      → decrypt_name n cipher_name iv ≡ name_panic
      → CipherPanics cipher_name iv
  unfolding decrypt_name
  CipherPanics-decrypt_name cipher_name iv h =
      let (bin, o, pos, whole, d) = panic_inv iv (n.b64.decode_string cipher_name) h in
      record {
        bin = bin;
        decoded = o;
        some_byte = pos;
        aligned = whole;
        panics = none_of_panic (n.eme_cipher.decrypt iv bin) d;
      }

  decrypt_name_of_CipherPanics :
      (cipher_name iv : Bytes)
      → CipherPanics cipher_name iv
      → decrypt_name n cipher_name iv ≡ name_panic
  unfolding decrypt_name
  decrypt_name_of_CipherPanics cipher_name iv c =
      let some_bin : (length c.bin == 0) ≡ false = ground (arith, c.some_byte) in
      let whole : (length c.bin % 16 == 0) ≡ true = ground (arith, c.aligned) in
      rw (c.decoded, some_bin, whole, c.panics) refl

  -- `DecryptName` panics for just those names that are base64 of one block or more on which the
  -- cipher panics: it does not look at the initialisation vector before it hands it to the cipher.
  pub decrypt_name-CipherPanics :
      (cipher_name iv : Bytes)
      → (decrypt_name n cipher_name iv ≡ name_panic) ↔ CipherPanics cipher_name iv
  decrypt_name-CipherPanics cipher_name iv =
      (CipherPanics-decrypt_name cipher_name iv, decrypt_name_of_CipherPanics cipher_name iv)

  decoded_name_inv :
      (iv p : Bytes) (o : Option Bytes)
      → decoded_name n iv o ≡ named p
      → (bin : Bytes) × (o ≡ some bin) × (decrypted_name (n.eme_cipher.decrypt iv bin) ≡ named p)
  decoded_name_inv iv p none h = cc
  decoded_name_inv iv p (some bin) h = (bin, refl, ground (arith, h))

  -- A name that `DecryptName` gives is not empty, has no zero byte and no slash, and is neither "."
  -- nor "..", whatever the encrypted name, the initialisation vector and the ciphers are.
  pub decrypt_name-IsName :
      (cipher_name iv p : Bytes) → decrypt_name n cipher_name iv ≡ named p → IsName p
  unfolding decrypt_name
  decrypt_name-IsName cipher_name iv p h =
      let (bin, o, d) = decoded_name_inv iv p (n.b64.decode_string cipher_name) h in
      let (x, o', c) = decrypted_name_inv (n.eme_cipher.decrypt iv bin) p d in
      let (u, nul, slash, dot, dots) = checked_name_inv (unpad16 x) p c in
      let some_p : 0 < length p = (length_of_pad16 p x ((unpad16-pad16 p x).0 u)).0 in
      record { some_byte = some_p; no_nul = nul; no_slash = slash; no_dot = dot; no_dots = dots }

  -- What `EncryptName` makes of the name of a directory entry, `DecryptName` turns back into the
  -- name, with the same initialisation vector of 16 bytes and a name of at most 2032 bytes.
  pub decrypt_name-encrypt_name :
      (p iv : Bytes)
      → IsEncoding n.b64
      → IsEme n.eme_cipher
      → IsName p
      → length p ≤ 2032
      → length iv ≡ 16
      → (c : Bytes) × (encrypt_name n p iv ≡ some c) × (decrypt_name n c iv ≡ named p)
  unfolding encrypt_name decrypt_name
  decrypt_name-encrypt_name p iv enc eme i short iv_ok =
      let (x, pad) = pad16-some p i.some_byte in
      let (a, b, c, d) = length_of_pad16 p x pad in
      let (y, e, same, back) = eme.encrypts iv x iv_ok b d (omega (arith, c, short)) in
      let some_y : (length y == 0) ≡ false = ground (arith, same, d) in
      let whole : (length y % 16 == 0) ≡ true = ground (arith, same, b) in
      let u : unpad16 x ≡ unpadded p = (unpad16-pad16 p x).1 pad in
      (
        n.b64.encode_to_string y,
        rw (pad, e) refl,
        rw (enc.decode-encode y, some_y, whole, back, u) (checked_name_lem p i),
      )

-- ===== src/Gocrypt/Names/Kinds.antt =====
-- gocrypt/nametransform/longnames.go and diriv.go: the kinds of names that are stored.
use gocryptsftp.Base.{
  ◌⊎◌, ℕ, zero, suc, ◌≡◌, ◌≢◌, ◌≤◌, ◌<◌, refl, ap, sym, ◌∙◌, true, false, ◌&&◌, inl, inr,
  Bool-cases, Option, none, some, [], ◌∷◌, ◌++◌, Bytes, bytes_eq, bytes_eq_refl, bytes_eq-false,
  length, take, drop, length-append, take-append, drop-append, drop-add, ◌+◌, ◌-◌, ltb, leb, arith,
}
use gocryptsftp.Gocrypt.Names.Unpadding.{pad16-some, length_of_pad16}
use gocryptsftp.Gocrypt.Names.Accepted.{IsEme}
use gocryptsftp.Gocrypt.Names.Transform.{
  Encoding, NameTransform, named, name_error, enametoolong, contains, has_prefix, has_suffix,
  long_name_content, long_name_filename, long_name_none, name_type, remove_long_name_suffix,
  long_name_prefix, long_name_suffix, hash_long_name, hashed, encrypt_name, encrypt_and_hash_name,
}

-- base64 has no dot.
pub record HasNoDot (b : Encoding) : Type 0 where
  pub no_dot : (x : Bytes) → contains b'.' (b.encode_to_string x) ≡ false

contains-take : (b n : ℕ) (x : Bytes) → contains b x ≡ false → contains b (take n x) ≡ false
unfolding contains
contains-take b zero x h = refl
contains-take b (suc n) [] h = refl
contains-take b (suc n) (c ∷ x) h = ground (arith, h, contains-take b n x)

contains-drop : (b n : ℕ) (x : Bytes) → contains b x ≡ false → contains b (drop n x) ≡ false
unfolding contains
contains-drop b zero x h = h
contains-drop b (suc n) [] h = refl
contains-drop b (suc n) (c ∷ x) h = contains-drop b n x (ground (arith, h))

true≢false : true ≢ false
true≢false h = cc

-- Neither what begins like a prefix with a dot nor what ends like a suffix with a dot is free of
-- dots.
no_prefix : (s : Bytes) → contains b'.' s ≡ false → has_prefix s long_name_prefix ≡ false
unfolding has_prefix contains
no_prefix s h =
    bytes_eq-false (take 19 s) long_name_prefix
      (λ e. true≢false (sym (ap (contains b'.') e) ∙ contains-take b'.' 19 s h))

has_prefix_append : (x : Bytes) → has_prefix (long_name_prefix ++ x) long_name_prefix ≡ true
unfolding has_prefix bytes_eq
has_prefix_append x = refl

has_suffix_append : (x : Bytes) → has_suffix (x ++ long_name_suffix) long_name_suffix ≡ true
unfolding has_suffix
has_suffix_append x =
    let len : length (x ++ long_name_suffix) ≡ length x + 5 = length-append x long_name_suffix in
    let long : leb 5 (length x + 5) ≡ true = ground arith in
    let cut : length x + 5 - 5 ≡ length x = omega arith in
    rw (len, long, cut, drop-append (length x) x long_name_suffix refl)
      (bytes_eq_refl long_name_suffix)

no_suffix :
    (x : Bytes)
    → 4 < length x
    → contains b'.' x ≡ false
    → has_suffix (long_name_prefix ++ x) long_name_suffix ≡ false
unfolding has_suffix contains
no_suffix x enough h =
    let all = long_name_prefix ++ x in
    let m : ℕ = length x - 5 in
    let long : leb 5 (length all) ≡ true = ground (arith, enough) in
    let cut : length all - 5 ≡ 19 + m = omega (arith, enough) in
    let tail : drop (length all - 5) all ≡ drop m x =
      ap (λ k. drop k all) cut ∙ sym (drop-add 19 m all) in
    let other : bytes_eq (drop (length all - 5) all) long_name_suffix ≡ false =
      bytes_eq-false (drop (length all - 5) all) long_name_suffix
        (λ e. true≢false (sym (ap (contains b'.') (sym tail ∙ e)) ∙ contains-drop b'.' m x h)) in
    rw (long, other) refl

module _ (n : NameTransform) where
  -- An encrypted name without a dot is not taken for a long name; the name of a long name's content
  -- is taken for that; with the suffix it is taken for the name of the file that holds the name, and
  -- without the suffix it is that of the content again. base64 has no dot, and five bytes at least
  -- for a hash.
  pub name_type-kinds :
      (c_name name : Bytes)
      → HasNoDot n.b64
      → 4 < length (n.b64.encode_to_string (n.sum256 name))
      → (name_type (n.b64.encode_to_string c_name) ≡ long_name_none)
        × (name_type (hash_long_name n name) ≡ long_name_content)
        × (name_type (hash_long_name n name ++ long_name_suffix) ≡ long_name_filename)
        × (remove_long_name_suffix (hash_long_name n name ++ long_name_suffix)
            ≡ some (hash_long_name n name))
  unfolding name_type hash_long_name remove_long_name_suffix
  name_type-kinds c_name name b long =
      let h = n.b64.encode_to_string (n.sum256 name) in
      let hash = long_name_prefix ++ h in
      let len : length (hash ++ long_name_suffix) ≡ length hash + 5 =
        length-append hash long_name_suffix in
      let fits : ltb (length hash + 5) 5 ≡ false = ground arith in
      let cut : length hash + 5 - 5 ≡ length hash = omega arith in
      (
        rw (no_prefix (n.b64.encode_to_string c_name) (b.no_dot c_name)) refl,
        rw (has_prefix_append h, no_suffix h long (b.no_dot (n.sum256 name))) refl,
        rw (has_prefix_append (h ++ long_name_suffix), has_suffix_append hash) refl,
        rw (len, fits, cut) (ap some (take-append (length hash) hash long_name_suffix refl)),
      )

  hashed_short :
      (o : Option Bytes) (c : Bytes)
      → n.long_names ≡ true
      → ((x : Bytes) → length (n.b64.encode_to_string (n.sum256 x)) ≤ 236)
      → hashed n o ≡ named c
      → length c ≤ 255
  unfolding hashed hash_long_name
  hashed_short none c long short h = cc
  hashed_short (some x) c long short h = elim (Bool-cases (ltb 255 (length x))) [
    | inl t ↦
        let e : long_name_prefix ++ n.b64.encode_to_string (n.sum256 x) ≡ c =
          ground (arith, t, long, h) in
        omega (arith, ap length e, short x)
    | inr t ↦
        let e : x ≡ c = ground (arith, t, long, h) in
        let small : length x ≤ 255 = ground (arith, t) in omega (arith, ap length e, small)
  ]

  encrypt_name-some :
      (name iv : Bytes)
      → IsEme n.eme_cipher
      → 0 < length name
      → length name ≤ 255
      → length iv ≡ 16
      → (c : Bytes) × (encrypt_name n name iv ≡ some c)
  unfolding encrypt_name
  encrypt_name-some name iv eme some_byte short iv_ok =
      let (x, pad) = pad16-some name some_byte in
      let (a, b, c, d) = length_of_pad16 name x pad in
      let (y, e, same, back) = eme.encrypts iv x iv_ok b d (omega (arith, c, short)) in
      (n.b64.encode_to_string y, rw (pad, e) refl)

  hashed-some : (x : Bytes) → (c : Bytes) × (hashed n (some x) ≡ named c)
  unfolding hashed
  hashed-some x = elim (Bool-cases (n.long_names && ltb 255 (length x))) [
    | inl t ↦ (hash_long_name n x, rw t refl)
    | inr t ↦ (x, rw t refl)
  ]

  -- With long names on, `EncryptAndHashName` refuses a name of more than 255 bytes, and gives for any
  -- other that is not empty one that fits into a directory entry of 255 bytes. The initialisation
  -- vector has 16 bytes, and a hash takes at most 236 bytes of base64.
  pub encrypt_and_hash_name-short :
      (name iv : Bytes)
      → n.long_names ≡ true
      → ((x : Bytes) → length (n.b64.encode_to_string (n.sum256 x)) ≤ 236)
      → IsEme n.eme_cipher
      → 0 < length name
      → length iv ≡ 16
      → ((255 < length name) × (encrypt_and_hash_name n name iv ≡ name_error enametoolong))
        ⊎ ((c : Bytes) × (encrypt_and_hash_name n name iv ≡ named c) × (length c ≤ 255))
  unfolding encrypt_and_hash_name
  encrypt_and_hash_name-short name iv long short eme some_byte iv_ok =
      elim (Bool-cases (ltb 255 (length name))) [
        | inl t ↦ inl (ground (arith, t), rw t refl)
        | inr t ↦
            let (x, e) = encrypt_name-some name iv eme some_byte (ground (arith, t)) iv_ok in
            let (c, h) = hashed-some x in inr (c, rw (t, e) h, hashed_short (some x) c long short h)
      ]

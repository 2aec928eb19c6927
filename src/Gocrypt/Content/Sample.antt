-- ===== src/Gocrypt/Content/Sample.antt =====
-- A cipher that adds a tag and hides nothing, and blocks of 20 bytes, for the tests.
use gocryptsftp.Base.{
  ℕ, ◌≡◌, refl, ap, false, [], ◌∷◌, ◌++◌, Bytes, Bool-cases, inl, inr, length, take, replicate,
  length-append, length-take, take-append, arith, ltb, ◌+◌, ◌-◌, if◌then◌else◌,
}
use gocryptsftp.Gocrypt.Content.Sizes.{IsGeometry}
use gocryptsftp.Gocrypt.Content.Blocks.{CryptoCore, ContentEnc, Unsealed, unsealed, unseal_error}
use gocryptsftp.Gocrypt.Content.Recover.{
  IsCipher, IsReady, IsNonce, AreBlocks, last_block, full_block,
}
use gocryptsftp.Gocrypt.Content.Packing.{IsFileId}
use gocryptsftp.Gocrypt.Content.Safety.{IsTagged}

abbrev pub tag : Bytes
tag = 9 ∷ 9 ∷ 9 ∷ 9 ∷ 9 ∷ 9 ∷ 9 ∷ 9 ∷ 9 ∷ 9 ∷ 9 ∷ 9 ∷ 9 ∷ 9 ∷ 9 ∷ 9 ∷ []

abbrev pub plain_seal : Bytes → Bytes → Bytes → Bytes
plain_seal nonce p ad = p ++ tag

abbrev pub plain_unseal : Bytes → Bytes → Bytes → Unsealed
plain_unseal nonce t ad =
    if ltb (length t) 16 then unseal_error else unsealed (take (length t - 16) t)

abbrev pub plain_core : ℕ → CryptoCore
plain_core iv_len = record { iv_len = iv_len; seal = plain_seal; unseal = plain_unseal }

pub plain_core-IsCipher : (iv_len : ℕ) → IsCipher (plain_core iv_len)
plain_core-IsCipher iv_len = record {
  length-seal = λ nonce p ad. length-append p tag;
  unseal-seal = λ nonce p ad.
      let len : length (p ++ tag) ≡ length p + 16 = length-append p tag in
      let long : ltb (length p + 16) 16 ≡ false = ground arith in
      let cut : length p + 16 - 16 ≡ length p = omega arith in
      rw (len, long, cut) (ap unsealed (take-append (length p) p tag refl));
}

tagged : (t p : Bytes) → plain_unseal [] t [] ≡ unsealed p → length p + 16 ≡ length t
tagged t p h = elim (Bool-cases (ltb (length t) 16)) [
  | inl s ↦ absurd (ground (arith, s, h))
  | inr s ↦
      let e : take (length t - 16) t ≡ p = ground (arith, s, h) in
      let long : ltb (length t) 16 ≡ false = s in
      ground (arith, long, ap length e, length-take (length t - 16) t)
]

pub plain_core-IsTagged : (iv_len : ℕ) → IsTagged (plain_core iv_len)
plain_core-IsTagged iv_len = record {
  length-unsealed = λ nonce t ad p h. tagged t p h;
  length-err_auth = λ nonce t ad p h. ground (arith, h);
}

abbrev pub small_enc : ContentEnc
small_enc = record {
  core = plain_core 2;
  geometry = record { plain_bs = 20; cipher_bs = 38 };
  force_decode = false;
  c_req_size = 0;
  p_req_size = 0;
}

pub small_enc-IsReady : IsReady small_enc
small_enc-IsReady = record {
  cipher = plain_core-IsCipher 2;
  some_plain = omega arith;
  sizes = refl;
}

pub small_enc-IsGeometry : IsGeometry small_enc.geometry
small_enc-IsGeometry = record {
  some_plain = omega arith;
  bigger = omega arith;
  in_word = omega arith;
}

abbrev pub nonces : ℕ → Bytes
nonces i = 1 ∷ 1 ∷ []

pub nonces-IsNonce : (i : ℕ) → IsNonce small_enc.core (nonces i)
nonces-IsNonce i = record { long = refl; not_zero = λ h. cc }

abbrev pub file_id : Bytes
file_id = replicate 16 7

pub file_id-IsFileId : IsFileId file_id
file_id-IsFileId = record { long = refl; not_zero = λ h. cc }

abbrev pub full : Bytes
full = replicate 20 5

abbrev pub last : Bytes
last = 1 ∷ 2 ∷ 3 ∷ []

pub blocks-AreBlocks : AreBlocks 20 (full ∷ last ∷ [])
blocks-AreBlocks = full_block full (last ∷ []) refl (last_block last (omega arith) (omega arith))

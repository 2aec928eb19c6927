-- ===== src/Gocrypt/Core.antt =====
-- gocrypt/cryptocore/cryptocore.go: a `CryptoCore` from a key. The ciphers and HKDF are parameters.
pub mod Made
use gocryptsftp.Base.{
  ℕ, Bool, not, Option, none, some, Bytes, codes, length, ◌/◌, ◌==◌, if◌then◌else◌,
}
use gocryptsftp.Gocrypt.Content.Blocks.{CryptoCore, Unsealed}
use gocryptsftp.Gocrypt.Names.Transform.{EmeCipher}

abbrev pub key_len : ℕ
key_len = 32

pub data AeadType : Type 0 where
  backend_openssl backend_go_gcm backend_aessiv unknown_backend : AeadType

-- `cipher.AEAD`: nonce, then plaintext or ciphertext, then associated data.
pub record Aead : Type 0 where
  pub seal : Bytes → Bytes → Bytes → Bytes
  pub unseal : Bytes → Bytes → Bytes → Unsealed

-- The packages that `New` calls; `none` is an error, on which it panics.
pub record Ciphers : Type 0 where
  pub hkdf_derive : Bytes → Bytes → ℕ → Bytes
  pub new_eme : Bytes → Option EmeCipher  -- `aes.NewCipher` and `eme.New`
  pub new_gcm : Bytes → ℕ → Option Aead  -- `aes.NewCipher` and `cipher.NewGCMWithNonceSize`
  pub new_stupid_gcm : Bytes → Bool → Aead
  pub new_siv : Bytes → Aead
  pub sum512 : Bytes → Bytes

-- What `New` returns.
pub record Core : Type 0 where
  pub eme_cipher : EmeCipher
  pub aead : CryptoCore
  pub aead_backend : AeadType

module _ (c : Ciphers) where
  abbrev pub eme_key : Bytes → Bool → Bytes
  eme_key key use_hkdf =
      if use_hkdf then c.hkdf_derive key (codes "EME filename encryption") key_len else key

  abbrev pub gcm_key : Bytes → Bool → Bytes
  gcm_key key use_hkdf =
      if use_hkdf then c.hkdf_derive key (codes "AES-GCM file content encryption") key_len else key

  abbrev pub siv_key : Bytes → Bool → Bytes
  siv_key key use_hkdf =
      if use_hkdf
      then c.hkdf_derive key (codes "AES-SIV file content encryption") 64
      else c.sum512 key

  unfoldable pub new_aead : Bytes → AeadType → ℕ → Bool → Bool → Option Aead
  new_aead key backend_openssl iv_len use_hkdf force_decode =
      if iv_len == 16 then some (c.new_stupid_gcm (gcm_key key use_hkdf) force_decode) else none
  new_aead key backend_go_gcm iv_len use_hkdf force_decode = c.new_gcm (gcm_key key use_hkdf) iv_len
  new_aead key backend_aessiv iv_len use_hkdf force_decode =
      if iv_len == 16 then some (c.new_siv (siv_key key use_hkdf)) else none
  new_aead key unknown_backend iv_len use_hkdf force_decode = none

  abbrev pub with_ciphers : AeadType → ℕ → Option EmeCipher → Option Aead → Option Core
  with_ciphers backend iv_len none a = none
  with_ciphers backend iv_len (some e) none = none
  with_ciphers backend iv_len (some e) (some a) = some (record {
    eme_cipher = e;
    aead = record { iv_len = iv_len; seal = a.seal; unseal = a.unseal };
    aead_backend = backend;
  })

  -- `New`; `none` is a panic.
  unfoldable pub new_core : Bytes → AeadType → ℕ → Bool → Bool → Option Core
  unfolding new_aead
  new_core key backend iv_bit_len use_hkdf force_decode =
      let iv_len = iv_bit_len / 8 in
      if not (length key == key_len)
      then none
      else with_ciphers backend iv_len (c.new_eme (eme_key key use_hkdf))
          (new_aead key backend iv_len use_hkdf force_decode)

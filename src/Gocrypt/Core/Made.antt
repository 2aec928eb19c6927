-- ===== src/Gocrypt/Core/Made.antt =====
-- gocrypt/cryptocore/cryptocore.go: what `New` makes of a key of 32 bytes.
use gocryptsftp.Base.{ℕ, ◌≡◌, ◌<◌, ◌/◌, ◌==◌, refl, Bool, true, false, some, Bytes, length, arith}
use gocryptsftp.Gocrypt.Content.Recover.{IsCipher}
use gocryptsftp.Gocrypt.Names.Transform.{EmeCipher}
use gocryptsftp.Gocrypt.Core.{
  Ciphers, Core, Aead, backend_go_gcm, new_core, new_aead, eme_key, gcm_key,
}

-- What the code relies on of the ciphers: with a key of 32 bytes there are an EME cipher and, for a
-- nonce that is not empty, a GCM, which opens what it seals and adds a tag; HKDF gives as many bytes
-- as it is asked for.
pub record AreCiphers (c : Ciphers) : Type 0 where
  pub length-hkdf : (key info : Bytes) (n : ℕ) → length (c.hkdf_derive key info n) ≡ n
  pub eme : (key : Bytes) → length key ≡ 32 → (e : EmeCipher) × (c.new_eme key ≡ some e)
  pub gcm :
      (key : Bytes) (iv_len : ℕ)
      → length key ≡ 32
      → 0 < iv_len
      → (a : Aead) × (c.new_gcm key iv_len ≡ some a)
        × IsCipher (record { iv_len = iv_len; seal = a.seal; unseal = a.unseal })

abbrev pub core_with : EmeCipher → Aead → ℕ → Core
core_with e g iv = record {
  eme_cipher = e;
  aead = record { iv_len = iv; seal = g.seal; unseal = g.unseal };
  aead_backend = backend_go_gcm;
}

pub new_core-AreCiphers :
    (c : Ciphers) (key : Bytes) (iv_bits : ℕ) (use_hkdf : Bool)
    → AreCiphers c
    → length key ≡ 32
    → 0 < iv_bits / 8
    → (e : EmeCipher) × (g : Aead) × (new_core c key backend_go_gcm iv_bits use_hkdf false
        ≡ some (core_with e g (iv_bits / 8)))
      × IsCipher (core_with e g (iv_bits / 8)).aead
      × (c.new_eme (eme_key c key use_hkdf) ≡ some e)
      × (c.new_gcm (gcm_key c key use_hkdf) (iv_bits / 8) ≡ some g)
unfolding new_core new_aead
new_core-AreCiphers c key iv_bits true a long some_iv =
    let ok : (length key == 32) ≡ true = ground (arith, long) in
    let (e, e_eq) = a.eme (eme_key c key true) (a.length-hkdf key _ 32) in
    let (g, g_eq, i) = a.gcm (gcm_key c key true) (iv_bits / 8) (a.length-hkdf key _ 32) some_iv in
    (e, g, rw (ok, e_eq, g_eq) refl, i, e_eq, g_eq)
new_core-AreCiphers c key iv_bits false a long some_iv =
    let ok : (length key == 32) ≡ true = ground (arith, long) in
    let (e, e_eq) = a.eme key long in
    let (g, g_eq, i) = a.gcm key (iv_bits / 8) long some_iv in
    (e, g, rw (ok, e_eq, g_eq) refl, i, e_eq, g_eq)

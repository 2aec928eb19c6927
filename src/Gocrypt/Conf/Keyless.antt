-- ===== src/Gocrypt/Conf/Keyless.antt =====
-- gocrypt/configfile/config_file.go on gocrypt/cryptocore: configurations that give no key of 32 bytes.
use gocryptsftp.Base.{
  ℕ, ◌≡◌, ◌≢◌, ◌<◌, refl, ap, ◌∙◌, Bool, false, Option, none, some, [], Bytes, length, arith, ◌==◌,
}
use gocryptsftp.Gocrypt.Content.Blocks.{ContentEnc, decrypt_block, opened}
use gocryptsftp.Gocrypt.Core.{Ciphers, AeadType, new_core}
use gocryptsftp.Gocrypt.Conf.Flags.{is_feature_flag_set, flag_hkdf}
use gocryptsftp.Gocrypt.Conf.Scrypt.{ScryptKdf, derived, derive_key}
use gocryptsftp.Gocrypt.Conf.File.{
  ConfFile, unlocked, opened_key, decrypted_with, unlocked_with, decrypt_master_key, loaded_with,
  load_and_decrypt, gives_key,
}
use gocryptsftp.Gocrypt.Conf.Loading.{IsSupported, loaded_of_IsSupported}
use gocryptsftp.Gocrypt.Core.Made.{AreCiphers}
use gocryptsftp.Gocrypt.Conf.Keys.{get_key_encrypter-IsEncrypter}

-- `cryptocore.New` panics for a key that has not 32 bytes.
new_core-wrong_length :
    (c : Ciphers) (key : Bytes) (b : AeadType) (iv : ℕ) (h f : Bool)
    → length key ≢ 32
    → new_core c key b iv h f ≡ none
unfolding new_core
new_core-wrong_length c key b iv h f wrong =
    let wrong? : (length key == 32) ≡ false = ground (arith, wrong) in rw wrong? refl

decrypt_block-nothing :
    (e : ContentEnc) (at : ℕ) (id : Option Bytes) → decrypt_block e [] at id ≡ opened []
unfolding decrypt_block
decrypt_block-nothing e at id = refl

module _ (c : Ciphers) (scrypt_key : ScryptKdf → Bytes → Option Bytes)
    (unmarshal : Bytes → Option ConfFile) (t : Bytes) (cf : ConfFile) (b : AeadType) (iv : ℕ)
    (h f : Bool) where
  -- For an empty password, `LoadAndDecrypt` reports success for any supported configuration, with no
  -- key; `cryptocore.New`, to which `Init` hands the key, panics on it.
  pub load_and_decrypt-no_password :
      0 < length t
      → unmarshal t ≡ some cf
      → IsSupported cf
      → (load_and_decrypt c scrypt_key unmarshal (some t) [] ≡ gives_key none cf)
        × (new_core c [] b iv h f ≡ none)
  unfolding load_and_decrypt
  load_and_decrypt-no_password some_t u s = (
    ap (loaded_with c scrypt_key []) (loaded_of_IsSupported unmarshal t cf some_t u s),
    new_core-wrong_length c [] b iv h f (λ z. absurd (omega (arith, z))),
  )

  -- A supported configuration whose encrypted key is empty is unlocked by any password that is not
  -- empty, with an empty key, and `cryptocore.New` panics on it.
  pub load_and_decrypt-empty_key :
      (password k : Bytes)
      → 0 < length t
      → unmarshal t ≡ some cf
      → IsSupported cf
      → AreCiphers c
      → cf.encrypted_key ≡ []
      → 0 < length password
      → derive_key scrypt_key cf.scrypt_object password ≡ derived k
      → length k ≡ 32
      → (load_and_decrypt c scrypt_key unmarshal (some t) password ≡ gives_key (some []) cf)
        × (new_core c [] b iv h f ≡ none)
  unfolding load_and_decrypt decrypt_master_key
  load_and_decrypt-empty_key password k some_t u s a empty some_pw d long =
      let e =
        get_key_encrypter-IsEncrypter c k (is_feature_flag_set cf.feature_flags flag_hkdf) a long in
      let given : (length password == 0) ≡ false = ground (arith, some_pw) in
      let unlocks : decrypt_master_key c scrypt_key cf password ≡ unlocked [] =
        ap (unlocked_with c cf) d
        ∙ ap (decrypted_with cf.encrypted_key) e.made
        ∙ ap (λ x. opened_key (decrypt_block e.enc x 0 none)) empty
        ∙ ap opened_key (decrypt_block-nothing e.enc 0 none) in
      (
        ap (loaded_with c scrypt_key password) (loaded_of_IsSupported unmarshal t cf some_t u s)
            ∙ rw (given, unlocks) refl,
        new_core-wrong_length c [] b iv h f (λ z. absurd (omega (arith, z))),
      )

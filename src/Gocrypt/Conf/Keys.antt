-- ===== src/Gocrypt/Conf/Keys.antt =====
-- gocrypt/configfile/config_file.go: a key that is encrypted comes back, and only with a key.
use native.Mathlib.Nat.{pow-le-pow_right}
use gocryptsftp.Base.{
  ℕ, ◌≡◌, ◌≢◌, ◌≤◌, ◌<◌, ◌⊎◌, inl, inr, refl, ap, sym, ◌∙◌, Bool, true, false, Option, none, some,
  Bytes, length, replicate, arith, ◌^◌, ◌==◌, ltb, leb, if◌then◌else◌,
}
use gocryptsftp.Gocrypt.Content.Offsets.{u64}
use gocryptsftp.Gocrypt.Content.Blocks.{ContentEnc, new_content_enc, concat_ad, big_endian}
use gocryptsftp.Gocrypt.Content.Recover.{
  IsCipher, IsReady, IsNonce, sealed_block, do_encrypt_block-sealed_block,
  decrypt_block-sealed_block,
}
use gocryptsftp.Gocrypt.Core.Made.{AreCiphers, core_with, new_core-AreCiphers}
use gocryptsftp.Gocrypt.Core.{Ciphers, Core, new_core, backend_go_gcm}
use gocryptsftp.Gocrypt.Conf.Flags.{is_feature_flag_set, flag_hkdf}
use gocryptsftp.Gocrypt.Conf.Scrypt.{
  ScryptKdf, new_scrypt_kdf, validate_params, shifted_one, derived, derive_key,
}
use gocryptsftp.Gocrypt.Conf.File.{
  ConfFile, unlocked, key_core, get_key_encrypter, decrypt_master_key, encrypt_key, locked_with,
  unlocked_with, encrypted_with, with_encrypted_key, decrypted_with, opened_key,
}

-- scrypt gives as many bytes as it is asked for, 32 with the parameters that `NewScryptKDF` chooses
-- for the default cost or one from 10 to 52, beyond which scrypt refuses `N`.
unfoldable pub IsScrypt : (ScryptKdf → Bytes → Option Bytes) → Type 0
IsScrypt scrypt_key =
    (salt : Bytes) (log_n : ℕ) (password : Bytes)
    → (log_n ≡ 0) ⊎ ((10 ≤ log_n) × (log_n ≤ 52))
    → (k : Bytes) × (scrypt_key (new_scrypt_kdf salt log_n) password ≡ some k) × (length k ≡ 32)

abbrev pub iv_of : Bool → ℕ
iv_of use_hkdf = if use_hkdf then 16 else 12

-- What `getKeyEncrypter` makes: a cipher for blocks of 4096 bytes.
pub record IsEncrypter (o : Option ContentEnc) (iv : ℕ) : Type 0 where
  pub enc : ContentEnc
  pub made : o ≡ some enc
  pub ready : IsReady enc
  pub nonce : enc.core.iv_len ≡ iv

key_core-IsEncrypter :
    (core : Core) (iv : ℕ)
    → core.aead.iv_len ≡ iv
    → iv ≤ 16
    → IsCipher core.aead
    → IsEncrypter (key_core (some core)) iv
unfolding new_content_enc u64
key_core-IsEncrypter core iv e small i = record {
  enc = _;
  made = refl;
  ready = record { cipher = i; some_plain = omega arith; sizes = omega (arith, e, small) };
  nonce = e;
}

core_of_key :
    (c : Ciphers) (key : Bytes) (use_hkdf : Bool)
    → AreCiphers c
    → length key ≡ 32
    → (core : Core) × (new_core c key backend_go_gcm (if use_hkdf then 128 else 96) use_hkdf false
        ≡ some core)
      × (core.aead.iv_len ≡ iv_of use_hkdf)
      × IsCipher core.aead
core_of_key c key true a long =
    let (e, g, made, i, _, _) = new_core-AreCiphers c key 128 true a long (omega arith) in
    (core_with e g 16, made, refl, i)
core_of_key c key false a long =
    let (e, g, made, i, _, _) = new_core-AreCiphers c key 96 false a long (omega arith) in
    (core_with e g 12, made, refl, i)

small_iv : (use_hkdf : Bool) → iv_of use_hkdf ≤ 16
small_iv true = omega arith
small_iv false = omega arith

pub get_key_encrypter-IsEncrypter :
    (c : Ciphers) (key : Bytes) (use_hkdf : Bool)
    → AreCiphers c
    → length key ≡ 32
    → IsEncrypter (get_key_encrypter c key use_hkdf) (iv_of use_hkdf)
unfolding get_key_encrypter
get_key_encrypter-IsEncrypter c key use_hkdf a long =
    let (core, made, iv, i) = core_of_key c key use_hkdf a long in
    rw made (key_core-IsEncrypter core (iv_of use_hkdf) iv (small_iv use_hkdf) i)

-- The parameters of `NewScryptKDF` pass `validateParams`.
valid_kdf :
    (salt : Bytes) (log_n : ℕ)
    → length salt ≡ 32
    → (log_n ≡ 0) ⊎ ((10 ≤ log_n) × (log_n ≤ 52))
    → validate_params (new_scrypt_kdf salt log_n) ≡ true
unfolding validate_params new_scrypt_kdf shifted_one
valid_kdf salt log_n long (inl z) =
    let salt_ok : ltb (length salt) 32 ≡ false = ground (arith, long) in rw (z, salt_ok) refl
valid_kdf salt log_n long (inr (low, high)) =
    let big : 2 ^ 10 ≤ 2 ^ log_n = pow-le-pow_right {n = 2} (omega arith) low in
    let salt_ok : ltb (length salt) 32 ≡ false = ground (arith, long) in
    let given : (log_n == 0) ≡ false = ground (arith, low) in
    let fits : leb log_n 62 ≡ true = ground (arith, high) in
    let enough : ltb (2 ^ log_n) 1024 ≡ false = ground (arith, big) in
    rw (given, fits, enough, salt_ok) refl

concat_ad-none : (at : ℕ) → concat_ad at none ≡ some (big_endian 8 at)
unfolding concat_ad
concat_ad-none at = refl

derive_key-new_scrypt_kdf :
    (scrypt_key : ScryptKdf → Bytes → Option Bytes) (salt : Bytes) (log_n : ℕ) (password : Bytes)
    → IsScrypt scrypt_key
    → length salt ≡ 32
    → (log_n ≡ 0) ⊎ ((10 ≤ log_n) × (log_n ≤ 52))
    → (k : Bytes) × (derive_key scrypt_key (new_scrypt_kdf salt log_n) password ≡ derived k)
      × (length k ≡ 32)
unfolding derive_key IsScrypt
derive_key-new_scrypt_kdf scrypt_key salt log_n password s long cost =
    let (k, e, len) = s salt log_n password cost in
    (k, rw (valid_kdf salt log_n long cost, e) refl, len)

module _ (c : Ciphers) (scrypt_key : ScryptKdf → Bytes → Option Bytes) (a : AreCiphers c) where
  -- Both ways, with what scrypt gives and the cipher that is made of it.
  lock_unlock :
      (cf : ConfFile) (s : ScryptKdf) (k key password nonce : Bytes)
      → derive_key scrypt_key s password ≡ derived k
      → length k ≡ 32
      → 0 < length key
      → length nonce ≡ iv_of (is_feature_flag_set cf.feature_flags flag_hkdf)
      → nonce ≢ replicate (iv_of (is_feature_flag_set cf.feature_flags flag_hkdf)) 0
      → (t : Bytes) × (locked_with c cf key nonce (derive_key scrypt_key s password)
          ≡ some (record cf { encrypted_key = t }))
        × (unlocked_with c (record cf { encrypted_key = t }) (derive_key scrypt_key s password)
            ≡ unlocked key)
  lock_unlock cf s k key password nonce d long some_key nonce_len nonce_ok =
      let hkdf = is_feature_flag_set cf.feature_flags flag_hkdf in
      let e = get_key_encrypter-IsEncrypter c k hkdf a long in
      let n : IsNonce e.enc.core nonce = record {
        long = nonce_len ∙ sym e.nonce;
        not_zero = λ z. nonce_ok (z ∙ ap (λ m. replicate m 0) e.nonce);
      } in
      let ad = big_endian 8 0 in
      let t = sealed_block e.enc key ad nonce in
      (
        t,
        ap (locked_with c cf key nonce) d
            ∙ ap (encrypted_with cf key nonce) e.made
            ∙ ap (with_encrypted_key cf) (
                do_encrypt_block-sealed_block e.enc key 0 none ad nonce e.ready n some_key
                  (concat_ad-none 0)),
        ap (unlocked_with c (record cf { encrypted_key = t })) d
            ∙ ap (decrypted_with t) e.made
            ∙ ap opened_key (
                decrypt_block-sealed_block e.enc key 0 none ad nonce e.ready n some_key
                  (concat_ad-none 0)),
      )

  -- What `EncryptKey` stores for a password, `DecryptMasterKey` turns back into the key with that
  -- password; nothing else of the configuration changes but the scrypt parameters. The cost is the
  -- default or 10 to 52, and the nonce is not all 0 and as long as the flags ask for.
  pub decrypt_master_key-encrypt_key :
      (cf : ConfFile) (key password : Bytes) (log_n : ℕ) (salt nonce : Bytes)
      → IsScrypt scrypt_key
      → 0 < length key
      → length salt ≡ 32
      → (log_n ≡ 0) ⊎ ((10 ≤ log_n) × (log_n ≤ 52))
      → length nonce ≡ (if is_feature_flag_set cf.feature_flags flag_hkdf then 16 else 12)
      → nonce ≢ replicate (if is_feature_flag_set cf.feature_flags flag_hkdf then 16 else 12) 0
      → (t : Bytes) × (encrypt_key c scrypt_key cf key password log_n salt nonce
          ≡ some (record cf { scrypt_object = new_scrypt_kdf salt log_n; encrypted_key = t }))
        × (decrypt_master_key c scrypt_key
              (record cf { scrypt_object = new_scrypt_kdf salt log_n; encrypted_key = t })
              password
            ≡ unlocked key)
  unfolding encrypt_key decrypt_master_key
  decrypt_master_key-encrypt_key cf key password log_n salt nonce s some_key long cost nonce_len
        nonce_ok =
      let kdf = new_scrypt_kdf salt log_n in
      let (k, d, len) = derive_key-new_scrypt_kdf scrypt_key salt log_n password s long cost in
      lock_unlock (record cf { scrypt_object = kdf }) kdf k key password nonce d len some_key
        nonce_len nonce_ok

-- ===== src/Gocrypt/Conf/Created.antt =====
-- gocrypt/configfile/config_file.go: `Create`, then `LoadAndDecrypt`.
use gocryptsftp.Base.{
  ℕ, ◌≡◌, ◌≢◌, ◌≤◌, ◌<◌, ◌⊎◌, refl, ap, sym, ◌∙◌, Bool, true, false, Option, none, some, List, [],
  Bytes, length, replicate, arith, ◌==◌, ltb, if◌then◌else◌, bytes_eq, not,
}
use mathlib.Core.Path.{subst}
use gocryptsftp.Gocrypt.Content.Blocks.{ContentEnc, do_encrypt_block}
use gocryptsftp.Gocrypt.Core.{Ciphers}
use gocryptsftp.Gocrypt.Conf.Flags.{
  known_flags, known_among, is_feature_flag_known, is_feature_flag_set, flag_hkdf, flag_long_names,
  flag_raw64,
}
use gocryptsftp.Gocrypt.Conf.Scrypt.{
  ScryptKdf, new_scrypt_kdf, Derived, derive_key, derived, exits, derive_panics,
}
use gocryptsftp.Gocrypt.Conf.File.{
  ConfFile, loaded, unknown_flag, all_set, required_flags, created_flags, load, loaded_with, create,
  zero_kdf, gives_key, load_and_decrypt, encrypt_key, with_encrypted_key, locked_with,
  get_key_encrypter, encrypted_with,
}
use gocryptsftp.Gocrypt.Core.Made.{AreCiphers}
use gocryptsftp.Gocrypt.Conf.Keys.{IsScrypt, decrypt_master_key-encrypt_key}

-- The text of the configuration that is made is not empty and is read as that configuration.
pub record IsJson (marshal : ConfFile → Bytes) (unmarshal : Bytes → Option ConfFile)
    (made : Option ConfFile) : Type 0 where
  pub some_text : (cf : ConfFile) → made ≡ some cf → 0 < length (marshal cf)
  pub unmarshal-marshal : (cf : ConfFile) → made ≡ some cf → unmarshal (marshal cf) ≡ some cf

record AreGood (flags : List Bytes) : Type 0 where
  known : unknown_flag flags ≡ none
  required : all_set flags (required_flags flags) ≡ true
  hkdf : is_feature_flag_set flags flag_hkdf ≡ true

created_flags-AreGood : (p a t : Bool) → AreGood (created_flags p a t)
unfolding created_flags unknown_flag all_set is_feature_flag_set is_feature_flag_known known_among
    known_flags bytes_eq
created_flags-AreGood false false false = record { known = refl; required = refl; hkdf = refl }
created_flags-AreGood false false true = record { known = refl; required = refl; hkdf = refl }
created_flags-AreGood false true false = record { known = refl; required = refl; hkdf = refl }
created_flags-AreGood false true true = record { known = refl; required = refl; hkdf = refl }
created_flags-AreGood true false false = record { known = refl; required = refl; hkdf = refl }
created_flags-AreGood true false true = record { known = refl; required = refl; hkdf = refl }
created_flags-AreGood true true false = record { known = refl; required = refl; hkdf = refl }
created_flags-AreGood true true true = record { known = refl; required = refl; hkdf = refl }

load_good :
    (marshal : ConfFile → Bytes) (unmarshal : Bytes → Option ConfFile) (cf : ConfFile)
    → 0 < length (marshal cf)
    → unmarshal (marshal cf) ≡ some cf
    → cf.version ≡ 2
    → AreGood cf.feature_flags
    → load unmarshal (some (marshal cf)) ≡ loaded cf
unfolding load
load_good marshal unmarshal cf some_text same v g =
    let text : (length (marshal cf) == 0) ≡ false = ground (arith, some_text) in
    let version : (cf.version == 2) ≡ true = ground (arith, v) in
    rw (text, same, version, g.known, g.required) refl

-- The flags of a configuration that `Create` makes, by its arguments.
pub record HasFlags (plaintext_names : Bool) (flags : List Bytes) : Type 0 where
  pub hkdf : is_feature_flag_set flags flag_hkdf ≡ true
  pub long_names : is_feature_flag_set flags flag_long_names ≡ not plaintext_names
  pub raw64 : is_feature_flag_set flags flag_raw64 ≡ not plaintext_names

created_flags-HasFlags : (p a t : Bool) → HasFlags p (created_flags p a t)
unfolding created_flags is_feature_flag_set known_flags bytes_eq
created_flags-HasFlags false false false = record { hkdf = refl; long_names = refl; raw64 = refl }
created_flags-HasFlags false false true = record { hkdf = refl; long_names = refl; raw64 = refl }
created_flags-HasFlags false true false = record { hkdf = refl; long_names = refl; raw64 = refl }
created_flags-HasFlags false true true = record { hkdf = refl; long_names = refl; raw64 = refl }
created_flags-HasFlags true false false = record { hkdf = refl; long_names = refl; raw64 = refl }
created_flags-HasFlags true false true = record { hkdf = refl; long_names = refl; raw64 = refl }
created_flags-HasFlags true true false = record { hkdf = refl; long_names = refl; raw64 = refl }
created_flags-HasFlags true true true = record { hkdf = refl; long_names = refl; raw64 = refl }

-- Writing the encrypted key leaves the flags.
same_flags :
    (start cf : ConfFile) (text : Option Bytes)
    → with_encrypted_key start text ≡ some cf
    → cf.feature_flags ≡ start.feature_flags
same_flags start cf none h = absurd (cc)
same_flags start cf (some text) h = cc

encrypted_flags :
    (start cf : ConfFile) (key nonce : Bytes) (e : Option ContentEnc)
    → encrypted_with start key nonce e ≡ some cf
    → cf.feature_flags ≡ start.feature_flags
encrypted_flags start cf key nonce none h = absurd (cc)
encrypted_flags start cf key nonce (some e) h =
    same_flags start cf (do_encrypt_block e key 0 none nonce) h

locked_flags :
    (c : Ciphers) (start cf : ConfFile) (key nonce : Bytes) (d : Derived)
    → locked_with c start key nonce d ≡ some cf
    → cf.feature_flags ≡ start.feature_flags
locked_flags c start cf key nonce (derived hash) h =
    encrypted_flags start cf key nonce
      (get_key_encrypter c hash (is_feature_flag_set start.feature_flags flag_hkdf)) h
locked_flags c start cf key nonce exits h = absurd (cc)
locked_flags c start cf key nonce derive_panics h = absurd (cc)

pub create-HasFlags :
    (c : Ciphers) (scrypt_key : ScryptKdf → Bytes → Option Bytes) (password : Bytes)
    (plaintext_names : Bool) (log_n : ℕ) (creator : Bytes) (aessiv : Bool)
    (trezor_payload key salt nonce : Bytes) (cf : ConfFile)
    → create c scrypt_key password plaintext_names log_n creator aessiv trezor_payload key salt
        nonce
      ≡ some cf
    → HasFlags plaintext_names cf.feature_flags
unfolding create encrypt_key
create-HasFlags c scrypt_key password plaintext_names log_n creator aessiv trezor_payload key salt
      nonce cf h =
    let trezor = ltb 0 (length trezor_payload) in
    let start : ConfFile = record {
      creator = creator;
      encrypted_key = [];
      scrypt_object = new_scrypt_kdf salt log_n;
      version = 2;
      feature_flags = created_flags plaintext_names aessiv trezor;
      trezor_payload = trezor_payload;
    } in
    let same =
      locked_flags c start cf key nonce (derive_key scrypt_key (new_scrypt_kdf salt log_n) password)
        h in
    subst (HasFlags plaintext_names) (sym same)
      (created_flags-HasFlags plaintext_names aessiv trezor)

-- A configuration that `Create` makes for a password that is not empty is loaded again, and gives the
-- key with that password. The cost is the default or 10 to 52; salt and key are 32 bytes, the nonce
-- is 16 that are not all 0.
pub load_and_decrypt-create :
    (c : Ciphers) (scrypt_key : ScryptKdf → Bytes → Option Bytes) (marshal : ConfFile → Bytes)
    (unmarshal : Bytes → Option ConfFile) (password : Bytes) (plaintext_names : Bool) (log_n : ℕ)
    (creator : Bytes) (aessiv : Bool) (trezor_payload key salt nonce : Bytes)
    → AreCiphers c
    → IsScrypt scrypt_key
    → IsJson marshal unmarshal (
        create c scrypt_key password plaintext_names log_n creator aessiv trezor_payload key salt
          nonce)
    → 0 < length password
    → (log_n ≡ 0) ⊎ ((10 ≤ log_n) × (log_n ≤ 52))
    → length key ≡ 32
    → length salt ≡ 32
    → length nonce ≡ 16
    → nonce ≢ replicate 16 0
    → (cf : ConfFile) × (create c scrypt_key password plaintext_names log_n creator aessiv
          trezor_payload key salt nonce
        ≡ some cf)
      × (load_and_decrypt c scrypt_key unmarshal (some (marshal cf)) password
          ≡ gives_key (some key) cf)
unfolding create load_and_decrypt
load_and_decrypt-create c scrypt_key marshal unmarshal password plaintext_names log_n creator aessiv
      trezor_payload key salt nonce a s j some_pw cost key_len salt_len nonce_len nonce_ok =
    let flags = created_flags plaintext_names aessiv (ltb 0 (length trezor_payload)) in
    let g = created_flags-AreGood plaintext_names aessiv (ltb 0 (length trezor_payload)) in
    let start : ConfFile = record {
      creator = creator;
      encrypted_key = [];
      scrypt_object = zero_kdf;
      version = 2;
      feature_flags = flags;
      trezor_payload = trezor_payload;
    } in
    let width : 16 ≡ (if is_feature_flag_set flags flag_hkdf then 16 else 12) =
      ap (λ b. if b then 16 else 12) (sym g.hkdf) in
    let (t, made, back) =
      decrypt_master_key-encrypt_key c scrypt_key a start key password log_n salt nonce s
        (omega (arith, key_len)) salt_len cost (nonce_len ∙ width)
        (λ z. nonce_ok (z ∙ ap (λ m. replicate m 0) (sym width))) in
    let cf : ConfFile = record start {
      scrypt_object = new_scrypt_kdf salt log_n;
      encrypted_key = t;
    } in
    let given : (length password == 0) ≡ false = ground (arith, some_pw) in
    (
      cf,
      made,
      ap (loaded_with c scrypt_key password) (
            load_good marshal unmarshal cf (j.some_text cf made) (j.unmarshal-marshal cf made) refl
              g)
          ∙ rw (given, back) refl,
    )

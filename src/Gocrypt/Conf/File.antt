-- ===== src/Gocrypt/Conf/File.antt =====
-- gocrypt/configfile/config_file.go: making, loading and unlocking a configuration. JSON, scrypt, the
-- ciphers and the operating system are parameters.
use gocryptsftp.Base.{
  ℕ, Bool, true, false, not, ◌&&◌, Option, none, some, List, [], ◌∷◌, ◌++◌, Bytes, length, ltb,
  ◌==◌, if◌then◌else◌,
}
use gocryptsftp.Gocrypt.Content.Header.{current_version}
use gocryptsftp.Gocrypt.Content.Blocks.{
  ContentEnc, new_content_enc, Opened, opened, refused, panicked, decrypt_block, do_encrypt_block,
}
use gocryptsftp.Gocrypt.Core.{Ciphers, Core, backend_go_gcm, new_core}
use gocryptsftp.Gocrypt.Conf.Flags.{
  FlagIota, flag_plaintext_names, flag_dir_iv, flag_eme_names, flag_gcm_iv128, flag_long_names,
  flag_aessiv, flag_raw64, flag_hkdf, flag_trezor, known_flags, is_feature_flag_known,
  is_feature_flag_set, required_flags_normal, required_flags_plaintext_names,
}
use gocryptsftp.Gocrypt.Conf.Scrypt.{
  pos, ScryptKdf, new_scrypt_kdf, Derived, derived, exits, derive_panics, derive_key,
}

-- `ConfFile`, without the file's name, which is not part of the JSON text.
pub record ConfFile : Type 0 where
  pub creator : Bytes
  pub encrypted_key : Bytes
  pub scrypt_object : ScryptKdf
  pub version : ℕ
  pub feature_flags : List Bytes
  pub trezor_payload : Bytes

pub data ConfError : Type 0 where
  read_error empty_file unmarshal_error unsupported_format deprecated_fs password_incorrect :
      ConfError
  unsupported_flag : Bytes → ConfError

pub data Loaded : Type 0 where
  loaded : ConfFile → Loaded
  refused_conf : ConfError → Loaded

-- The first of the flags that is not known.
unfoldable pub unknown_flag : List Bytes → Option Bytes
unknown_flag [] = none
unknown_flag (flag ∷ flags) = if is_feature_flag_known flag then unknown_flag flags else some flag

unfoldable pub all_set : List Bytes → List FlagIota → Bool
all_set flags [] = true
all_set flags (f ∷ fs) = is_feature_flag_set flags f && all_set flags fs

abbrev pub required_flags : List Bytes → List FlagIota
required_flags flags =
    if is_feature_flag_set flags flag_plaintext_names
    then required_flags_plaintext_names
    else required_flags_normal

abbrev pub with_known_flags : ConfFile → Option Bytes → Loaded
with_known_flags cf (some flag) = refused_conf (unsupported_flag flag)
with_known_flags cf none =
    if all_set cf.feature_flags (required_flags cf.feature_flags)
    then loaded cf
    else refused_conf deprecated_fs

abbrev pub unmarshalled : Option ConfFile → Loaded
unmarshalled none = refused_conf unmarshal_error
unmarshalled (some cf) =
    if not (cf.version == current_version)
    then refused_conf unsupported_format
    else with_known_flags cf (unknown_flag cf.feature_flags)

-- On what `ioutil.ReadFile` gives; `none` is an error.
unfoldable pub load : (Bytes → Option ConfFile) → Option Bytes → Loaded
load unmarshal none = refused_conf read_error
load unmarshal (some js) =
    if length js == 0 then refused_conf empty_file else unmarshalled (unmarshal js)

-- What happens to a master key.
pub data Key : Type 0 where
  unlocked : Bytes → Key
  no_key : ConfError → Key
  exit_process : Key
  key_panic : Key

abbrev pub key_core : Option Core → Option ContentEnc
key_core none = none
key_core (some core) = new_content_enc core.aead 4096 false

abbrev pub opened_key : Opened → Key
opened_key (opened key) = unlocked key
opened_key (refused x p) = no_key password_incorrect
opened_key panicked = key_panic

abbrev pub decrypted_with : Bytes → Option ContentEnc → Key
decrypted_with encrypted_key none = key_panic
decrypted_with encrypted_key (some ce) = opened_key (decrypt_block ce encrypted_key 0 none)

abbrev pub with_encrypted_key : ConfFile → Option Bytes → Option ConfFile
with_encrypted_key cf none = none
with_encrypted_key cf (some encrypted_key) = some (record cf { encrypted_key = encrypted_key })

abbrev pub encrypted_with : ConfFile → Bytes → Bytes → Option ContentEnc → Option ConfFile
encrypted_with cf key nonce none = none
encrypted_with cf key nonce (some ce) = with_encrypted_key cf (do_encrypt_block ce key 0 none nonce)

-- The flags that `Create` sets; the last argument says whether there is a Trezor payload.
unfoldable pub created_flags : Bool → Bool → Bool → List Bytes
created_flags plaintext_names aessiv trezor =
    let names =
      if plaintext_names
      then known_flags flag_plaintext_names ∷ []
      else known_flags flag_dir_iv
        ∷ known_flags flag_eme_names
        ∷ known_flags flag_long_names
        ∷ known_flags flag_raw64
        ∷ [] in
    let siv = if aessiv then known_flags flag_aessiv ∷ [] else [] in
    known_flags flag_gcm_iv128
    ∷ known_flags flag_hkdf
    ∷ (names ++ (siv ++ (if trezor then known_flags flag_trezor ∷ [] else [])))

-- A key, `none` for `nil`, and the configuration.
pub data Unlocked : Type 0 where
  gives_key : Option Bytes → ConfFile → Unlocked
  load_error : ConfError → Unlocked
  load_exits load_panics : Unlocked

abbrev pub keyed : ConfFile → Key → Unlocked
keyed cf (unlocked key) = gives_key (some key) cf
keyed cf (no_key x) = load_error x
keyed cf exit_process = load_exits
keyed cf key_panic = load_panics

-- The value that Go starts from
abbrev pub zero_kdf : ScryptKdf
zero_kdf = record { salt = []; n = pos 0; r = pos 0; p = pos 0; out_len = pos 0 }

-- `none` is a panic.
unfoldable pub get_key_encrypter : Ciphers → Bytes → Bool → Option ContentEnc
get_key_encrypter c scrypt_hash use_hkdf =
    key_core (new_core c scrypt_hash backend_go_gcm (if use_hkdf then 128 else 96) use_hkdf false)

abbrev pub unlocked_with : Ciphers → ConfFile → Derived → Key
unlocked_with c cf (derived scrypt_hash) =
    decrypted_with cf.encrypted_key
      (get_key_encrypter c scrypt_hash (is_feature_flag_set cf.feature_flags flag_hkdf))
unlocked_with c cf exits = exit_process
unlocked_with c cf derive_panics = key_panic

abbrev pub locked_with : Ciphers → ConfFile → Bytes → Bytes → Derived → Option ConfFile
locked_with c cf key nonce (derived scrypt_hash) =
    encrypted_with cf key nonce
      (get_key_encrypter c scrypt_hash (is_feature_flag_set cf.feature_flags flag_hkdf))
locked_with c cf key nonce exits = none
locked_with c cf key nonce derive_panics = none

module _ (c : Ciphers) (scrypt_key : ScryptKdf → Bytes → Option Bytes) where
  unfoldable pub decrypt_master_key : ConfFile → Bytes → Key
  decrypt_master_key cf password =
      unlocked_with c cf (derive_key scrypt_key cf.scrypt_object password)

  -- The salt and the nonce are drawn at random; `none` ends the program.
  unfoldable pub encrypt_key : ConfFile → Bytes → Bytes → ℕ → Bytes → Bytes → Option ConfFile
  encrypt_key cf key password log_n salt nonce =
      let s = new_scrypt_kdf salt log_n in
      locked_with c (record cf { scrypt_object = s }) key nonce (derive_key scrypt_key s password)

  -- `Create` up to `WriteFile`, with the random key, salt and nonce.
  unfoldable pub create :
      Bytes → Bool → ℕ → Bytes → Bool → Bytes → Bytes → Bytes → Bytes → Option ConfFile
  unfolding created_flags encrypt_key
  create password plaintext_names log_n creator aessiv trezor_payload key salt nonce =
      encrypt_key
        (record {
          creator = creator;
          encrypted_key = [];
          scrypt_object = zero_kdf;
          version = current_version;
          feature_flags = created_flags plaintext_names aessiv (ltb 0 (length trezor_payload));
          trezor_payload = trezor_payload;
        })
        key password log_n salt nonce

  abbrev pub loaded_with : Bytes → Loaded → Unlocked
  loaded_with password (refused_conf x) = load_error x
  loaded_with password (loaded cf) =
      if length password == 0 then gives_key none cf else keyed cf (decrypt_master_key cf password)

  unfoldable pub load_and_decrypt : (Bytes → Option ConfFile) → Option Bytes → Bytes → Unlocked
  load_and_decrypt unmarshal js password = loaded_with password (load unmarshal js)

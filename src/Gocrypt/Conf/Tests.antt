-- ===== src/Gocrypt/Conf/Tests.antt =====
-- The theorems on gocrypt/configfile at a configuration, with ciphers that hide nothing.
use gocryptsftp.Base.{
  zero, suc, ◌≡◌, ◌↔◌, inl, inr, refl, true, false, none, some, [], ◌∷◌, codes, length, replicate,
  arith, ◌<◌, Option, suc,
}
use gocryptsftp.Gocrypt.Core.{backend_go_gcm, new_core}
use gocryptsftp.Gocrypt.Conf.Flags.{known_flags, flag_dir_iv, flag_eme_names, flag_gcm_iv128}
use gocryptsftp.Gocrypt.Conf.File.{ConfFile, loaded, load, load_and_decrypt, gives_key, zero_kdf}
use gocryptsftp.Gocrypt.Conf.Loading.{Has, IsKnown, AllKnown, IsSupported, load-IsSupported}
use gocryptsftp.Gocrypt.Conf.Created.{load_and_decrypt-create}
use gocryptsftp.Gocrypt.Conf.Keyless.{load_and_decrypt-no_password}
use gocryptsftp.Gocrypt.Conf.Sample.{
  ciphers, ciphers-AreCiphers, scrypt, scrypt-IsScrypt, password, key, made, text, made-IsJson,
}

load_and_decrypt-create_example :
    (cf : ConfFile) × (made ≡ some cf)
    × (load_and_decrypt ciphers scrypt (λ t. made) (some text) password ≡ gives_key (some key) cf)
load_and_decrypt-create_example =
    load_and_decrypt-create ciphers scrypt (λ cf. text) (λ t. made) password false 0 (codes "test")
      false [] key (replicate 32 2) (replicate 16 6) ciphers-AreCiphers scrypt-IsScrypt made-IsJson
      (omega arith) (inl refl) refl refl refl (λ h. cc)

abbrev conf : ConfFile
conf = record {
  creator = codes "test";
  encrypted_key = [];
  scrypt_object = zero_kdf;
  version = 2;
  feature_flags =
      known_flags flag_gcm_iv128 ∷ known_flags flag_dir_iv ∷ known_flags flag_eme_names ∷ [];
  trezor_payload = [];
}

conf-IsSupported : IsSupported conf
unfolding Has AllKnown IsKnown
conf-IsSupported = record {
  version_eq = refl;
  known = all_known;
  iv = (0, refl);
  names = inr ((1, refl), (2, refl));
}
  where
    all_known : AllKnown conf.feature_flags
    all_known zero flag h = (flag_gcm_iv128, cc)
    all_known (suc zero) flag h = (flag_dir_iv, cc)
    all_known (suc (suc zero)) flag h = (flag_eme_names, cc)
    all_known (suc (suc (suc i))) flag h = cc

load-IsSupported_example :
    (load (λ t. some conf) (some text) ≡ loaded conf)
    ↔ ((0 < length text) × (◌≡◌ {A = Option ConfFile} (some conf) (some conf)) × IsSupported conf)
load-IsSupported_example = load-IsSupported (λ t. some conf) text conf

load_and_decrypt-no_password_example :
    (load_and_decrypt ciphers scrypt (λ t. some conf) (some text) [] ≡ gives_key none conf)
    × (new_core ciphers [] backend_go_gcm 128 true false ≡ none)
load_and_decrypt-no_password_example =
    load_and_decrypt-no_password ciphers scrypt (λ t. some conf) text conf backend_go_gcm 128 true
      false (omega arith) refl conf-IsSupported

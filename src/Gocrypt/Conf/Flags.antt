-- ===== src/Gocrypt/Conf/Flags.antt =====
-- gocrypt/configfile/feature_flags.go
use gocryptsftp.Base.{Bool, false, ◌||◌, List, [], ◌∷◌, Bytes, codes, bytes_eq}

pub data FlagIota : Type 0 where
  flag_plaintext_names flag_dir_iv flag_eme_names flag_gcm_iv128 flag_long_names flag_aessiv :
      FlagIota
  flag_raw64 flag_hkdf flag_trezor : FlagIota

unfoldable pub known_flags : FlagIota → Bytes
known_flags flag_plaintext_names = codes "PlaintextNames"
known_flags flag_dir_iv = codes "DirIV"
known_flags flag_eme_names = codes "EMENames"
known_flags flag_gcm_iv128 = codes "GCMIV128"
known_flags flag_long_names = codes "LongNames"
known_flags flag_aessiv = codes "AESSIV"
known_flags flag_raw64 = codes "Raw64"
known_flags flag_hkdf = codes "HKDF"
known_flags flag_trezor = codes "Trezor"

-- The keys of the map `knownFlags`.
abbrev pub all_flags : List FlagIota
all_flags =
    flag_plaintext_names ∷ flag_dir_iv ∷ flag_eme_names ∷ flag_gcm_iv128 ∷ flag_long_names
    ∷ flag_aessiv ∷ flag_raw64 ∷ flag_hkdf ∷ flag_trezor ∷ []

abbrev pub required_flags_normal : List FlagIota
required_flags_normal = flag_dir_iv ∷ flag_eme_names ∷ flag_gcm_iv128 ∷ []

abbrev pub required_flags_plaintext_names : List FlagIota
required_flags_plaintext_names = flag_gcm_iv128 ∷ []

unfoldable pub known_among : List FlagIota → Bytes → Bool
known_among [] flag = false
known_among (f ∷ fs) flag = bytes_eq (known_flags f) flag || known_among fs flag

unfoldable pub is_feature_flag_known : Bytes → Bool
unfolding known_among
is_feature_flag_known flag = known_among all_flags flag

-- On the list of flags of a configuration.
unfoldable pub is_feature_flag_set : List Bytes → FlagIota → Bool
is_feature_flag_set [] want = false
is_feature_flag_set (flag ∷ flags) want =
    bytes_eq flag (known_flags want) || is_feature_flag_set flags want

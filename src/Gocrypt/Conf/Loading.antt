-- ===== src/Gocrypt/Conf/Loading.antt =====
-- gocrypt/configfile: the configurations that `Load` accepts.
use mathlib.Core.Path.{subst}
use gocryptsftp.Base.{
  ℕ, zero, suc, ◌≡◌, ◌↔◌, ◌⊎◌, inl, inr, refl, ap, sym, ◌∙◌, true, false, Bool-cases, Option, none,
  some, List, [], ◌∷◌, Bytes, bytes_eq, bytes_eq_iff, length, get_elem?, arith, ◌<◌, ◌==◌,
}
use gocryptsftp.Gocrypt.Conf.Flags.{
  FlagIota, flag_plaintext_names, flag_dir_iv, flag_eme_names, flag_gcm_iv128, flag_long_names,
  flag_aessiv, flag_raw64, flag_hkdf, flag_trezor, known_flags, known_among, all_flags,
  is_feature_flag_known, is_feature_flag_set,
}
use gocryptsftp.Gocrypt.Conf.File.{
  ConfFile, loaded, unknown_flag, all_set, required_flags, with_known_flags, unmarshalled, load,
}

-- A flag is in the list.
unfoldable pub Has : List Bytes → FlagIota → Type 0
Has flags f = (i : ℕ) × (get_elem? flags i ≡ some (known_flags f))

Has_of_set : (flags : List Bytes) (f : FlagIota) → is_feature_flag_set flags f ≡ true → Has flags f
unfolding is_feature_flag_set Has
Has_of_set [] f h = cc
Has_of_set (flag ∷ flags) f h = elim (Bool-cases (bytes_eq flag (known_flags f))) [
  | inl e ↦ (0, ap some ((bytes_eq_iff flag (known_flags f)).0 e))
  | inr e ↦ let (i, q) = Has_of_set flags f (ground (arith, e, h)) in (suc i, q)
]

set_of_Has : (flags : List Bytes) (f : FlagIota) → Has flags f → is_feature_flag_set flags f ≡ true
unfolding is_feature_flag_set Has
set_of_Has [] f (i, q) = cc
set_of_Has (flag ∷ flags) f (zero, q) =
    let e : flag ≡ known_flags f = cc in ground (arith, bytes_eq_iff flag (known_flags f), e)
set_of_Has (flag ∷ flags) f (suc i, q) = ground (arith, set_of_Has flags f (i, q))

unfoldable pub IsKnown : Bytes → Type 0
IsKnown flag = (f : FlagIota) × (known_flags f ≡ flag)

IsKnown-known_among :
    (fs : List FlagIota) (flag : Bytes) → known_among fs flag ≡ true → IsKnown flag
unfolding known_among IsKnown
IsKnown-known_among [] flag h = cc
IsKnown-known_among (f ∷ fs) flag h = elim (Bool-cases (bytes_eq (known_flags f) flag)) [
  | inl e ↦ (f, (bytes_eq_iff (known_flags f) flag).0 e)
  | inr e ↦ IsKnown-known_among fs flag (ground (arith, e, h))
]

known_flag : (f : FlagIota) → is_feature_flag_known (known_flags f) ≡ true
unfolding is_feature_flag_known known_among known_flags bytes_eq
known_flag flag_plaintext_names = refl
known_flag flag_dir_iv = refl
known_flag flag_eme_names = refl
known_flag flag_gcm_iv128 = refl
known_flag flag_long_names = refl
known_flag flag_aessiv = refl
known_flag flag_raw64 = refl
known_flag flag_hkdf = refl
known_flag flag_trezor = refl

unfoldable pub AllKnown : List Bytes → Type 0
AllKnown flags = (i : ℕ) (flag : Bytes) → get_elem? flags i ≡ some flag → IsKnown flag

AllKnown-unknown_flag : (flags : List Bytes) → unknown_flag flags ≡ none → AllKnown flags
unfolding unknown_flag AllKnown is_feature_flag_known
AllKnown-unknown_flag [] h i flag q = cc
AllKnown-unknown_flag (g ∷ flags) h zero flag q =
    let e : g ≡ flag = cc in
    let k : is_feature_flag_known g ≡ true = ground (arith, h) in
    IsKnown-known_among all_flags flag (ap is_feature_flag_known (sym e) ∙ k)
AllKnown-unknown_flag (g ∷ flags) h (suc i) flag q =
    AllKnown-unknown_flag flags (ground (arith, h)) i flag q

none_of_AllKnown : (flags : List Bytes) → AllKnown flags → unknown_flag flags ≡ none
unfolding unknown_flag AllKnown IsKnown
none_of_AllKnown [] a = refl
none_of_AllKnown (g ∷ flags) a =
    let (f, e) = a 0 g refl in
    let k : is_feature_flag_known g ≡ true = ap is_feature_flag_known (sym e) ∙ known_flag f in
    rw k (none_of_AllKnown flags (λ i flag q. a (suc i) flag q))

-- What a configuration has to be: of version 2, with known flags only, and with those that are
-- required, of which two are about names.
pub record IsSupported (cf : ConfFile) : Type 0 where
  pub version_eq : cf.version ≡ 2
  pub known : AllKnown cf.feature_flags
  pub iv : Has cf.feature_flags flag_gcm_iv128
  pub names :
      Has cf.feature_flags flag_plaintext_names
      ⊎ (Has cf.feature_flags flag_dir_iv × Has cf.feature_flags flag_eme_names)

required_set :
    (flags : List Bytes)
    → all_set flags (required_flags flags) ≡ true
    → Has flags flag_gcm_iv128
      × (Has flags flag_plaintext_names ⊎ (Has flags flag_dir_iv × Has flags flag_eme_names))
unfolding all_set
required_set flags h = elim (Bool-cases (is_feature_flag_set flags flag_plaintext_names)) [
  | inl plain ↦ (
    Has_of_set flags flag_gcm_iv128 (ground (arith, plain, h)),
    inl (Has_of_set flags flag_plaintext_names plain),
  )
  | inr named ↦ (
    Has_of_set flags flag_gcm_iv128 (ground (arith, named, h)),
    inr (
      Has_of_set flags flag_dir_iv (ground (arith, named, h)),
      Has_of_set flags flag_eme_names (ground (arith, named, h)),
    ),
  )
]

set_required :
    (flags : List Bytes)
    → Has flags flag_gcm_iv128
    → Has flags flag_plaintext_names ⊎ (Has flags flag_dir_iv × Has flags flag_eme_names)
    → all_set flags (required_flags flags) ≡ true
unfolding all_set
set_required flags iv names =
    let g = set_of_Has flags flag_gcm_iv128 iv in
    elim (Bool-cases (is_feature_flag_set flags flag_plaintext_names)) [
      | inl plain ↦ rw (plain, g) refl
      | inr unset ↦ elim names [
        | inl p ↦ absurd (ground (arith, unset, set_of_Has flags flag_plaintext_names p))
        | inr (d, e) ↦
            rw (unset, set_of_Has flags flag_dir_iv d, set_of_Has flags flag_eme_names e, g) refl
      ]
    ]

with_known_flags_inv :
    (c cf : ConfFile) (o : Option Bytes)
    → with_known_flags c o ≡ loaded cf
    → (o ≡ none) × (all_set c.feature_flags (required_flags c.feature_flags) ≡ true) × (c ≡ cf)
with_known_flags_inv c cf (some flag) h = cc
with_known_flags_inv c cf none h =
    elim (Bool-cases (all_set c.feature_flags (required_flags c.feature_flags))) [
      | inl t ↦ (refl, t, ground (arith, t, h))
      | inr t ↦ absurd (ground (arith, t, h))
    ]

unmarshalled-IsSupported :
    (o : Option ConfFile) (cf : ConfFile)
    → unmarshalled o ≡ loaded cf
    → (o ≡ some cf) × IsSupported cf
unmarshalled-IsSupported none cf h = cc
unmarshalled-IsSupported (some c) cf h =
    let version : c.version ≡ 2 = ground (arith, h) in
    let flags : with_known_flags c (unknown_flag c.feature_flags) ≡ loaded cf = ground (arith, h) in
    let (known, set, e) = with_known_flags_inv c cf (unknown_flag c.feature_flags) flags in
    let (iv, names) = required_set c.feature_flags set in
    let supported : IsSupported c = record {
      version_eq = version;
      known = AllKnown-unknown_flag c.feature_flags known;
      iv = iv;
      names = names;
    } in
    (ap some e, subst IsSupported e supported)

load-IsSupported_to :
    (unmarshal : Bytes → Option ConfFile) (t : Bytes) (cf : ConfFile)
    → load unmarshal (some t) ≡ loaded cf
    → (0 < length t) × (unmarshal t ≡ some cf) × IsSupported cf
unfolding load
load-IsSupported_to unmarshal t cf h =
    let (u, s) = unmarshalled-IsSupported (unmarshal t) cf (ground (arith, h)) in
    (ground (arith, h), u, s)

pub loaded_of_IsSupported :
    (unmarshal : Bytes → Option ConfFile) (t : Bytes) (cf : ConfFile)
    → 0 < length t
    → unmarshal t ≡ some cf
    → IsSupported cf
    → load unmarshal (some t) ≡ loaded cf
unfolding load
loaded_of_IsSupported unmarshal t cf some_t u s =
    let not_empty : (length t == 0) ≡ false = ground (arith, some_t) in
    let version : (cf.version == 2) ≡ true = ground (arith, s.version_eq) in
    rw
      (
        not_empty,
        u,
        version,
        none_of_AllKnown cf.feature_flags s.known,
        set_required cf.feature_flags s.iv s.names,
      )
      refl

-- `Load` gives a configuration just when the file is read and not empty, its text is that
-- configuration, and the configuration is supported: version 2, known flags only, 128-bit nonces,
-- and either plain names or initialisation vectors for directories and EME names.
pub load-IsSupported :
    (unmarshal : Bytes → Option ConfFile) (t : Bytes) (cf : ConfFile)
    → (load unmarshal (some t) ≡ loaded cf)
      ↔ ((0 < length t) × (unmarshal t ≡ some cf) × IsSupported cf)
load-IsSupported unmarshal t cf =
    (load-IsSupported_to unmarshal t cf, λ (a, b, c). loaded_of_IsSupported unmarshal t cf a b c)

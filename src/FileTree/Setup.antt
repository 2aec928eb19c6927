-- ===== src/FileTree/Setup.antt =====
-- filetree/filetree.go: the ciphers that `Init` makes of the key and the configuration.
use gocryptsftp.Base.{
  ℕ, ◌≡◌, refl, ap, false, Option, none, some, Bytes, length, arith, Bool, if◌then◌else◌,
}
use gocryptsftp.Gocrypt.Content.Offsets.{u64}
use gocryptsftp.Gocrypt.Content.Sizes.{IsGeometry}
use gocryptsftp.Gocrypt.Content.Blocks
use gocryptsftp.Gocrypt.Content.Blocks.{new_content_enc}
use gocryptsftp.Gocrypt.Content.Recover.{IsReady}
use gocryptsftp.Gocrypt.Names.Transform.{NameTransform, Packages, new_name_transform, EmeCipher}
use gocryptsftp.Gocrypt.Core.{Ciphers, Core, backend_go_gcm, new_core, eme_key, gcm_key, Aead}
use gocryptsftp.Gocrypt.Conf.Flags.{flag_hkdf, flag_long_names, flag_raw64, is_feature_flag_set}
use gocryptsftp.Gocrypt.Conf.File.{ConfFile}
use gocryptsftp.Gocrypt.Core.Made.{AreCiphers, new_core-AreCiphers}

-- `DefaultBS` and `DefaultIVBits`
abbrev pub default_bs : ℕ
default_bs = 4096

abbrev pub default_iv_bits : ℕ
default_iv_bits = 128

-- `cEnc` and `nTransform`
pub record Crypto : Type 0 where
  pub content_enc : Blocks.ContentEnc
  pub name_transform : NameTransform

module _ (c : Ciphers) (p : Packages) where
  abbrev pub with_enc : Core → ConfFile → Option Blocks.ContentEnc → Option Crypto
  with_enc core conf none = none
  with_enc core conf (some e) = some (record {
    content_enc = e;
    name_transform =
        new_name_transform p core.eme_cipher
          (is_feature_flag_set conf.feature_flags flag_long_names)
          (is_feature_flag_set conf.feature_flags flag_raw64);
  })

  abbrev pub with_core : ConfFile → Option Core → Option Crypto
  with_core conf none = none
  with_core conf (some core) = with_enc core conf (new_content_enc core.aead default_bs false)

  -- `none` is a panic.
  unfoldable pub set_up : Bytes → ConfFile → Option Crypto
  set_up master_key conf = with_core conf (
      new_core c master_key backend_go_gcm default_iv_bits
        (is_feature_flag_set conf.feature_flags flag_hkdf) false)

-- The ciphers are an EME cipher of this key and, with nonces of 16 bytes, a GCM of that one; the names
-- are encoded with padding unless the flag Raw64 is set.
pub record IsKeyed (c : Ciphers) (p : Packages) (name_key content_key : Bytes)
    (long_names raw64 : Bool) (m : Crypto) : Type 0 where
  pub eme : EmeCipher
  pub eme_made : c.new_eme name_key ≡ some eme
  pub gcm : Aead
  pub gcm_made : c.new_gcm content_key 16 ≡ some gcm
  pub contents : m.content_enc.core ≡ record { iv_len = 16; seal = gcm.seal; unseal = gcm.unseal }
  pub names : m.name_transform ≡ record {
    eme_cipher = eme;
    long_names = long_names;
    b64 = if raw64 then p.raw_url_encoding else p.url_encoding;
    sum256 = p.sum256;
  }

-- With a key of 32 bytes `Init` makes ciphers, whatever the configuration's flags are: that of
-- contents opens what it seals, with nonces of 16 bytes, and cuts into blocks of 4096 bytes, which are
-- 4128 when they are encrypted. Its block sizes are as `decryptFile` needs them.
pub set_up-IsReady :
    (c : Ciphers) (p : Packages) (master_key : Bytes) (conf : ConfFile)
    → AreCiphers c
    → length master_key ≡ 32
    → (m : Crypto) × (set_up c p master_key conf ≡ some m)
      × IsReady m.content_enc
      × IsGeometry m.content_enc.geometry
      × (m.content_enc.geometry.plain_bs ≡ 4096)
      × (m.content_enc.geometry.cipher_bs ≡ 4128)
      × IsKeyed c p
          (eme_key c master_key (is_feature_flag_set conf.feature_flags flag_hkdf))
          (gcm_key c master_key (is_feature_flag_set conf.feature_flags flag_hkdf))
          (is_feature_flag_set conf.feature_flags flag_long_names)
          (is_feature_flag_set conf.feature_flags flag_raw64)
          m
unfolding set_up new_content_enc new_name_transform u64
set_up-IsReady c p master_key conf a long =
    let (e, g, made, i, e_eq, g_eq) =
      new_core-AreCiphers c master_key 128 (is_feature_flag_set conf.feature_flags flag_hkdf) a long
        (omega arith) in
    (
      _,
      ap (with_core c p conf) made,
      record { cipher = i; some_plain = omega arith; sizes = refl },
      record { some_plain = omega arith; bigger = omega arith; in_word = omega arith },
      refl,
      refl,
      record { eme = e; eme_made = e_eq; gcm = g; gcm_made = g_eq; contents = refl; names = refl },
    )

-- ===== src/Gocrypt/Conf/Sample.antt =====
-- Ciphers that hide nothing, and a configuration that is made with them, for the tests.
use gocryptsftp.Base.{
  refl, false, some, [], Bytes, codes, length-replicate, replicate, arith, Option,
}
use gocryptsftp.Gocrypt.Content.Sample.{plain_seal, plain_unseal, plain_core-IsCipher}
use gocryptsftp.Gocrypt.Core.{Ciphers}
use gocryptsftp.Gocrypt.Conf.Scrypt.{ScryptKdf}
use gocryptsftp.Gocrypt.Conf.File.{ConfFile, create}
use gocryptsftp.Gocrypt.Core.Made.{AreCiphers}
use gocryptsftp.Gocrypt.Conf.Keys.{IsScrypt}
use gocryptsftp.Gocrypt.Conf.Created.{IsJson}
use gocryptsftp.Gocrypt.Names.Transform.{Encoding, Packages}

abbrev pub ciphers : Ciphers
ciphers = record {
  hkdf_derive = λ key info n. replicate n 1;
  new_eme = λ key. some (record { encrypt = λ iv x. some x; decrypt = λ iv x. some x });
  new_gcm = λ key iv_len. some (record { seal = plain_seal; unseal = plain_unseal });
  new_stupid_gcm = λ key force. record { seal = plain_seal; unseal = plain_unseal };
  new_siv = λ key. record { seal = plain_seal; unseal = plain_unseal };
  sum512 = λ x. x;
}

pub ciphers-AreCiphers : AreCiphers ciphers
ciphers-AreCiphers = record {
  length-hkdf = λ key info n. length-replicate n 1;
  eme = λ key long. (_, refl);
  gcm = λ key iv_len long some_iv. (_, refl, plain_core-IsCipher iv_len);
}

abbrev pub scrypt : ScryptKdf → Bytes → Option Bytes
scrypt s password = some (replicate 32 3)

pub scrypt-IsScrypt : IsScrypt scrypt
unfolding IsScrypt
scrypt-IsScrypt salt log_n password cost = (replicate 32 3, refl, refl)

abbrev pub password : Bytes
password = codes "pw"

abbrev pub key : Bytes
key = replicate 32 8

abbrev pub made : Option ConfFile
made =
    create ciphers scrypt password false 0 (codes "test") false [] key (replicate 32 2)
      (replicate 16 6)

-- A text that stands for the one configuration
abbrev pub text : Bytes
text = codes "{}"

pub made-IsJson : IsJson (λ cf. text) (λ t. made) made
made-IsJson = record { some_text = λ cf h. omega arith; unmarshal-marshal = λ cf h. h }

abbrev pub plain_encoding : Encoding
plain_encoding = record { encode_to_string = λ x. x; decode_string = λ x. some x }

abbrev pub packages : Packages
packages = record {
  url_encoding = plain_encoding;
  raw_url_encoding = plain_encoding;
  sum256 = λ x. x;
}

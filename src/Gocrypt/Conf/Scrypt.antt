-- ===== src/Gocrypt/Conf/Scrypt.antt =====
-- gocrypt/configfile/scrypt.go: a key from a password. scrypt itself is a parameter.
use gocryptsftp.Base.{
  ℕ, Bool, true, false, Option, none, some, Bytes, length, ◌-◌, ◌^◌, ◌==◌, ltb, leb, if◌then◌else◌,
}
use gocryptsftp.Gocrypt.Core.{key_len}

-- A Go `int`: `negsuc n` is `-(n + 1)`.
pub data ℤ : Type 0 where
  pos negsuc : ℕ → ℤ

-- `i < n` for a natural number `n`
abbrev pub below : ℤ → ℕ → Bool
below (pos i) n = ltb i n
below (negsuc i) n = true

-- `1 << k`
unfoldable pub shifted_one : ℕ → ℤ
shifted_one k = if leb k 62 then pos (2 ^ k) else (if k == 63 then negsuc (2 ^ 63 - 1) else pos 0)

pub record ScryptKdf : Type 0 where
  pub salt : Bytes
  pub n : ℤ
  pub r : ℤ
  pub p : ℤ
  pub out_len : ℤ  -- `KeyLen`

-- The salt is `RandBytes(cryptocore.KeyLen)`. A negative `logN` is as 0.
unfoldable pub new_scrypt_kdf : Bytes → ℕ → ScryptKdf
unfolding shifted_one
new_scrypt_kdf salt log_n = record {
  salt = salt;
  n = if log_n == 0 then pos (2 ^ 16) else shifted_one log_n;
  r = pos 8;
  p = pos 1;
  out_len = pos key_len;
}

-- `false` ends the program.
unfoldable pub validate_params : ScryptKdf → Bool
validate_params s =
    if below s.n (2 ^ 10)
    then false
    else (if below s.r 8
        then false
        else (if below s.p 1
            then false
            else (if ltb (length s.salt) 32
                then false
                else (if below s.out_len key_len then false else true))))

pub data Derived : Type 0 where
  derived : Bytes → Derived
  exits : Derived  -- `os.Exit(exitcodes.ScryptParams)`
  derive_panics : Derived

abbrev pub derived_from : Option Bytes → Derived
derived_from none = derive_panics
derived_from (some k) = derived k

-- `scrypt.Key` gives `none` for an error.
unfoldable pub derive_key : (ScryptKdf → Bytes → Option Bytes) → ScryptKdf → Bytes → Derived
unfolding validate_params
derive_key scrypt_key s password =
    if validate_params s then derived_from (scrypt_key s password) else exits

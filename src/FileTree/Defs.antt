-- ===== src/FileTree/Defs.antt =====
-- filetree/filetree.go: the state of a `FileTree`, and the code that it calls. The requester with
-- its backend and the crypto packages under gocrypt/ enter as records of functions.
use gocryptsftp.Base.{ℕ, ◌≡◌, refl, ◌⊎◌, inl, inr, List, Bytes, Option}
use gocryptsftp.FastCache.{FastCache}
use gocryptsftp.Requester.Defs.{FileInfo, ErrorCode}

pub data Answer (A : Type 0) : Type 0 where
  gives : A → Answer A
  fails : ErrorCode → Answer A

pub Answer-cases :
    {A : Type 0} (x : Answer A) → ((c : ErrorCode) × (x ≡ fails c)) ⊎ ((v : A) × (x ≡ gives v))
Answer-cases (gives v) = inr (v, refl)
Answer-cases (fails c) = inl (c, refl)

-- The methods of `reqCacher` and `fsAccessor` that a `FileTree` calls, over a state of theirs. A
-- worker's panic in `DecryptName` ends the process: that answer is `none`.
pub record Remote (S : Type 0) : Type 0 where
  pub read_file : Bytes → S → Answer Bytes × S
  pub read_dir : Bytes → S → Answer (List FileInfo) × S
  pub decrypt_name : Bytes → Bytes → S → Option (Answer Bytes) × S
  pub stat : Bytes → S → Answer FileInfo × S

-- The functions of gocrypt/contentenc that decrypt.go and filetree.go call.
pub record ContentEnc : Type 1 where
  pub Block : Type 0
  pub block_no : Block → ℕ
  pub cipher_size_to_plain_size : ℕ → ℕ
  pub explode_plain_range : ℕ → ℕ → List Block
  pub joint_ciphertext_offset : List Block → ℕ
  pub parse_header : Bytes → Answer Bytes  -- the file id
  pub decrypt_blocks : Bytes → ℕ → Bytes → Option (Answer Bytes)  -- `none` is a panic

-- The errors, by the message that they begin with.
pub data Error : Type 0 where
  remote_error : ErrorCode → Error
  eof : Error
  root_is_directory : Error
  finding_parent : Error → Error
  finding_path : Error → Error
  is_directory : Bytes → Error
  not_a_directory : Bytes → Error
  reading_iv : ErrorCode → Error
  listing_directory : ErrorCode → Error
  iterating : Bytes → Error → Error
  not_found : Bytes → Bytes → Error
  reading_file : Bytes → ErrorCode → Error
  decrypting_file : Bytes → Error → Error
  listing_path : Bytes → Error → Error
  running_stat : ErrorCode → Error
  not_supported : Error

pub record Tree (S : Type 0) : Type 0 where
  pub encrypted_root : Bytes
  pub fast_cache : FastCache
  pub remote : S

-- A call returns a value or an error and the state that it leaves, panics, or runs out of fuel.
pub data Run (S A : Type 0) : Type 0 where
  ok : A → Tree S → Run S A
  err : Error → Tree S → Run S A
  panic : Run S A
  out_of_fuel : Run S A

abbrev pub M : Type 0 → Type 0 → Type 0
M S A = Tree S → Run S A

abbrev pub pure : {S A : Type 0} → A → M S A
pure = ok

abbrev pub throw : {S A : Type 0} → Error → M S A
throw = err

abbrev pub and_then : {S A B : Type 0} → Run S A → (A → M S B) → Run S B
and_then (ok a t) k = k a t
and_then (err e t) k = err e t
and_then panic k = panic
and_then out_of_fuel k = out_of_fuel

infixl 5 ◌>>=◌ ◌>>◌
abbrev pub ◌>>=◌ : {S A B : Type 0} → M S A → (A → M S B) → M S B
m >>= k = λ t. and_then (m t) k

abbrev pub ◌>>◌ : {S B : Type 0} → M S (Unit {0}) → M S B → M S B
m >> k = m >>= λ _. k

-- `return fmt.Errorf("…: %s", err)`
abbrev pub wrap : {S A : Type 0} → (Error → Error) → Run S A → Run S A
wrap f (ok a t) = ok a t
wrap f (err e t) = err (f e) t
wrap f panic = panic
wrap f out_of_fuel = out_of_fuel

-- A request to the remote, which leaves the cache alone.
abbrev pub ask : {S A : Type 0} → (S → Answer A × S) → Tree S → Answer A × Tree S
ask f t = let (a, s) = f t.remote in (a, record t { remote = s })

abbrev pub reply : {S A : Type 0} → (ErrorCode → Error) → Answer A × Tree S → Run S A
reply f (gives a, t) = ok a t
reply f (fails e, t) = err (f e) t

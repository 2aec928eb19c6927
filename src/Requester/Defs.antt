-- ===== src/Requester/Defs.antt =====
-- requester/requester.go: the types. The `interface{}` of an entry holds one of three payloads, and
-- an error of the backend or the decrypter is an opaque code.
use gocryptsftp.Base.{ℕ, Bool, Option, none, some, List, Bytes}

-- What the program uses of `os.FileInfo`; a size is the 64-bit pattern.
pub record FileInfo : Type 0 where
  pub name : Bytes
  pub size : ℕ
  pub is_dir : Bool

pub data Payload : Type 0 where
  file_data : Bytes → Payload
  dir_data : List FileInfo → Payload
  name_data : Bytes → Payload

abbrev pub ErrorCode : Type 0
ErrorCode = ℕ

pub record Entry : Type 0 where
  pub payload : Option Payload
  pub err : Option ErrorCode
  pub locker_num : ℕ

pub data WorkType : Type 0 where
  work_none work_read_file work_read_dir work_decrypt_name : WorkType

-- The response channel is named by a number, fresh for each attempt.
pub record Work : Type 0 where
  pub request_type : WorkType
  pub arg1 : Bytes
  pub arg2 : Bytes
  pub resp_chan : ℕ

abbrev pub cache_err_retry_attempts : ℕ
cache_err_retry_attempts = 3

abbrev pub work_queue_size : ℕ
work_queue_size = 1000

-- `data != nil || err != nil`
unfoldable pub is_done : Entry → Bool
is_done e = elim e.payload [
  | some _ ↦ Bool.true
  | none ↦ elim e.err [ some _ ↦ Bool.true | none ↦ Bool.false ]
]

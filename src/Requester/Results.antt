-- ===== src/Requester/Results.antt =====
-- requester/readfile.go, readdir.go and decryptname.go: the exported calls, which assert the dynamic
-- type of what `makeRequest` returns.
use gocryptsftp.Base.{◌<◌, ◌≢◌, length, ℕ, ◌≡◌, refl, inl, inr, some, List, [], ◌∷◌, Bytes}
use gocryptsftp.Requester.Defs.{
  FileInfo, Payload, file_data, dir_data, name_data, WorkType, work_none, work_read_file,
  work_read_dir, work_decrypt_name,
}
use gocryptsftp.Requester.System.{
  Outcome, ok, Request, done, Answer, System, new_requester, request_key,
}
use gocryptsftp.Requester.Steps.{Action, run}
use gocryptsftp.Requester.Coherence.{Fits, Backed}
use gocryptsftp.Requester.Reach.{result_was_answered}

-- A value, the error of the outcome, or a failed type assertion.
pub data Returned (A : Type 0) : Type 0 where
  value : A → Returned A
  error : Outcome → Returned A
  wrong_type : Returned A

unfoldable pub read_file : Outcome → Returned Bytes
read_file (ok (file_data b)) = value b
read_file (ok _) = wrong_type
read_file x = error x

unfoldable pub read_dir : Outcome → Returned (List FileInfo)
read_dir (ok (dir_data l)) = value l
read_dir (ok _) = wrong_type
read_dir x = error x

unfoldable pub decrypt_name : Outcome → Returned Bytes
decrypt_name (ok (name_data n)) = value n
decrypt_name (ok _) = wrong_type
decrypt_name x = error x

-- The exported call for this type of request gets a value out of the payload.
abbrev pub Delivers : WorkType → Payload → Type 0
Delivers work_none p = ⊥
Delivers work_read_file p = (b : Bytes) × (read_file (ok p) ≡ value b)
Delivers work_read_dir p = (l : List FileInfo) × (read_dir (ok p) ≡ value l)
Delivers work_decrypt_name p = (n : Bytes) × (decrypt_name (ok p) ≡ value n)

Fits-Delivers : (t : WorkType) (p : Payload) → Fits t p → Delivers t p
unfolding read_file read_dir decrypt_name
Fits-Delivers work_read_file (file_data b) h = (b, refl)
Fits-Delivers work_read_dir (dir_data l) h = (l, refl)
Fits-Delivers work_decrypt_name (name_data n) h = (n, refl)
Fits-Delivers work_none p h = absurd h
Fits-Delivers work_read_file (dir_data l) h = absurd h
Fits-Delivers work_read_file (name_data n) h = absurd h
Fits-Delivers work_read_dir (file_data b) h = absurd h
Fits-Delivers work_read_dir (name_data n) h = absurd h
Fits-Delivers work_decrypt_name (file_data b) h = absurd h
Fits-Delivers work_decrypt_name (dir_data l) h = absurd h

-- What an exported call returns: a value with something in it, or the error of the outcome.
abbrev pub Gives : {A : Type 0} → (A → ℕ) → Returned A → Outcome → Type 0
Gives size (value v) o = 0 < size v
Gives size (error x) o = (x ≡ o) × ((p : Payload) → o ≢ ok p)
Gives size wrong_type o = ⊥

-- The exported call for this type of request gives no empty value and does not panic.
abbrev pub GivesNothingEmpty : WorkType → Outcome → Type 0
GivesNothingEmpty work_none o = (p : Payload) → o ≢ ok p
GivesNothingEmpty work_read_file o = Gives length (read_file o) o
GivesNothingEmpty work_read_dir o = Gives length (read_dir o) o
GivesNothingEmpty work_decrypt_name o = Gives length (decrypt_name o) o

module _ (siphash : Bytes → ℕ) where
  Backed-Delivers :
      (log : List Answer) (t : WorkType) (k : Bytes) (p : Payload)
      → Backed siphash log t k p
      → Delivers t p
  Backed-Delivers [] t k p h = absurd h
  Backed-Delivers (a ∷ log) t k p (inl (_, _, _, fits)) = Fits-Delivers t p fits
  Backed-Delivers (a ∷ log) t k p (inr h) = Backed-Delivers log t k p h

  -- In every state that a new requester can reach, a payload that `makeRequest` has returned
  -- passes the type assertion of the exported call: `ReadFile`, `ReadDir` and `DecryptName` do not
  -- panic there.
  pub result-Delivers :
      (num_workers : ℕ) (as' : List Action) {s : System} (c : ℕ) (q : Request) (p : Payload)
      → run siphash as' (new_requester num_workers) ≡ some s
      → s.clients c ≡ done q (ok p)
      → Delivers q.kind p
  result-Delivers num_workers as' {s} c q p e is_done =
      Backed-Delivers s.answers q.kind (request_key siphash q.arg1 q.arg2) p
        (result_was_answered siphash num_workers as' c q p e is_done)

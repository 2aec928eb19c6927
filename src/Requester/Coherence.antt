-- ===== src/Requester/Coherence.antt =====
-- What is cached and what callers receive comes from replies to the same request.
pub mod Points
pub mod Moves
use gocryptsftp.Base.{
  ◌<◌, length, ℕ, ◌≡◌, ◌⊎◌, inl, inr, some, List, [], ◌∷◌, arith, Bytes, ◌==◌, Bool-cases,
  lookup-insert, lookup-delete, bytes_eq_iff, bytes_eq-false, Bytes-cases,
}
use gocryptsftp.Requester.Defs.{
  Payload, file_data, dir_data, name_data, Entry, WorkType, work_none, work_read_file,
  work_read_dir, work_decrypt_name,
}
use gocryptsftp.Requester.SyncCache.{SyncCache, get, put, remove, delete_keys, get-delete_keys}
use gocryptsftp.Requester.Entries.{Each}
use gocryptsftp.Requester.System.{
  Caches, cache_of, set_cache, WorkerPc, setting, ClientPc, seen, done, ok, Answer, System, update,
  request_key, work_key,
}

-- The payload has the dynamic type that the request's caller asserts, and is not empty.
abbrev pub Fits : WorkType → Payload → Type 0
Fits work_read_file (file_data x) = 0 < length x
Fits work_read_dir (dir_data x) = 0 < length x
Fits work_decrypt_name (name_data x) = 0 < length x
Fits _ _ = ⊥

module _ (siphash : Bytes → ℕ) where
  -- A reply to work of this type and key carried this payload.
  abbrev pub Backed : List Answer → WorkType → Bytes → Payload → Type 0
  Backed [] t k p = ⊥
  Backed (a ∷ log) t k p =
      ((a.work.request_type ≡ t)
        × (work_key siphash t a.work.arg1 a.work.arg2 ≡ k)
        × (a.entry.payload ≡ some p)
        × Fits t p)
      ⊎ Backed log t k p

  -- What an entry holds was answered.
  abbrev pub Answered : List Answer → WorkType → Bytes → Entry → Type 0
  Answered log t k e = (p : Payload) → e.payload ≡ some p → Backed log t k p

  abbrev pub WorkerOk : List Answer → WorkerPc → Type 0
  WorkerOk log (setting w e) =
      Answered log w.request_type (work_key siphash w.request_type w.arg1 w.arg2) e
  WorkerOk log _ = Unit

  abbrev pub ClientOk : List Answer → ClientPc → Type 0
  ClientOk log (done q (ok p)) = Backed log q.kind (request_key siphash q.arg1 q.arg2) p
  ClientOk log (seen q n o) =
      (e : Entry) → o ≡ some e → Answered log q.kind (request_key siphash q.arg1 q.arg2) e
  ClientOk log _ = Unit

  pub record Coherent (s : System) : Type 0 where
    pub caches_ok : Each (Answered s.answers) s.caches
    pub workers_ok : (i : ℕ) → WorkerOk s.answers (s.workers i)
    pub clients_ok : (c : ℕ) → ClientOk s.answers (s.clients c)

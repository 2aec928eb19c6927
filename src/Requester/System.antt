-- ===== src/Requester/System.antt =====
-- requester/requester.go: the shared state of a `Requester` with its workers and the goroutines
-- that call it. A goroutine stands at a program point and moves from one shared access to the next.
use mathlib.Core.Path.{subst}
use gocryptsftp.Base.{
  ◌≡◌, refl, Bool-cases, arith, inl, inr, ℕ, Bool, true, false, Option, none, some, List, [], ◌∷◌,
  Bytes, if◌then◌else◌, ◌==◌, length, ltb,
}
use gocryptsftp.Requester.Defs.{
  Payload, file_data, dir_data, name_data, FileInfo, ErrorCode, Entry, WorkType, work_none,
  work_read_file, work_read_dir, work_decrypt_name, Work,
}
use gocryptsftp.Requester.SyncCache.{SyncCache, new_sync_cache}
use gocryptsftp.Requester.Key.{complex_key}

pub record Caches : Type 0 where
  pub file_cache : SyncCache
  pub dir_cache : SyncCache
  pub decrypt_cache : SyncCache

-- The cache of a request type; `makeRequest` panics at `work_none`, and no worker serves it.
unfoldable pub cache_of : WorkType → Caches → SyncCache
cache_of work_none c = []
cache_of work_read_file c = c.file_cache
cache_of work_read_dir c = c.dir_cache
cache_of work_decrypt_name c = c.decrypt_cache

unfoldable pub set_cache : WorkType → SyncCache → Caches → Caches
set_cache work_none m c = c
set_cache work_read_file m c = record c { file_cache = m }
set_cache work_read_dir m c = record c { dir_cache = m }
set_cache work_decrypt_name m c = record c { decrypt_cache = m }

-- What the backend or the decrypter returns.
pub data Reply : Type 0 where
  file_reply : Bytes → Option ErrorCode → Reply
  dir_reply : List FileInfo → Option ErrorCode → Reply
  name_reply : Bytes → Option ErrorCode → Reply

-- `if len(x) > 0 { return x, err }; return nil, err`
abbrev pub present {ℓ} : {A : Type ℓ} → (List A → Payload) → List A → Option Payload
present f [] = none
present f (x ∷ xs) = some (f (x ∷ xs))

-- The entry that a worker stores for a reply, if the reply is one to its request.
unfoldable pub reply_entry : WorkType → Reply → Option Entry
reply_entry work_read_file (file_reply x e) =
    some (record { payload = present file_data x; err = e; locker_num = 0 })
reply_entry work_read_dir (dir_reply x e) =
    some (record { payload = present dir_data x; err = e; locker_num = 0 })
reply_entry work_decrypt_name (name_reply x e) =
    some (record { payload = present name_data x; err = e; locker_num = 0 })
reply_entry _ _ = none

-- Where `worker` and `performRequestAndCache` stand.
pub data WorkerPc : Type 0 where
  absent : WorkerPc  -- before `Start`
  waiting : WorkerPc
  started : Work → WorkerPc  -- before `GetOrInsert`
  offering : Work → WorkerPc  -- before `responseCh <- wt` with its own ticket
  replying : Work → ℕ → WorkerPc  -- before `responseCh <- wt` with another ticket
  locking : Work → WorkerPc  -- before `wt.Lock()`
  requesting : Work → WorkerPc  -- before `request()`
  setting : Work → Entry → WorkerPc  -- before `cache.Set`
  broadcasting : WorkerPc
  unlocking : WorkerPc
  exited : WorkerPc

pub data RetryErr : Type 0 where
  cache_wiped cached_error empty_data entry_deleted data_missing : RetryErr

-- What `makeRequest` returns.
pub data Outcome : Type 0 where
  ok : Payload → Outcome
  request_error : ErrorCode → Outcome
  unresponsive : Outcome
  no_success : List RetryErr → Outcome

pub record Request : Type 0 where
  pub kind : WorkType
  pub arg1 : Bytes
  pub arg2 : Bytes
  pub attempt : ℕ
  pub retry_errs : List RetryErr

-- Where `makeRequest` stands.
pub data ClientPc : Type 0 where
  idle : ClientPc
  checking : Request → ClientPc  -- before the first `cache.Get` of an attempt
  sending : Request → ClientPc  -- before `r.workQueue <- work`
  receiving : Request → ℕ → ClientPc  -- in the `select`, on a channel
  received : Request → Option ℕ → ClientPc  -- with a ticket, or `none` for a closed channel
  locking : Request → ℕ → ClientPc  -- before `ticket.Lock()`, or waking up inside `Wait`
  looking : Request → ℕ → ClientPc  -- inside the loop, with the lock, before `cache.Get`
  seen : Request → ℕ → Option Entry → ClientPc  -- with the lock, and what `cache.Get` returned
  asleep : Request → ℕ → ClientPc  -- inside `ticket.Wait()`, without the lock
  done : Request → Outcome → ClientPc

pub data Owner : Type 0 where
  by_worker by_client : ℕ → Owner

-- A reply that a worker has stored, with the work that it was for.
pub record Answer : Type 0 where
  pub work : Work
  pub entry : Entry

pub record System : Type 0 where
  pub caches : Caches
  pub work_queue : List Work
  pub num_workers : ℕ
  pub is_started : Bool
  pub queue_closed : Bool
  pub next_chan : ℕ
  pub closed : List ℕ  -- the closed channels
  pub lockers : ℕ → Option Owner  -- who holds the mutex of a ticket
  pub workers : ℕ → WorkerPc
  pub clients : ℕ → ClientPc
  pub snapshot : WorkType → List Bytes  -- keys that `ClearCache` has copied
  pub answers : List Answer  -- all replies so far

abbrev pub update {ℓ} : {A : Type ℓ} → (ℕ → A) → ℕ → A → ℕ → A
update f i a j = if i == j then a else f j

pub update-elim {ℓ κ} :
    {A : Type ℓ} (P : ℕ → A → Type κ) (f : ℕ → A) (i : ℕ) (a : A)
    → P i a
    → ((j : ℕ) → (i == j) ≡ false → P j (f j))
    → (j : ℕ) → P j (update f i a j)
update-elim P f i a new old j = elim (Bool-cases (i == j)) [
  | inl t ↦ let same : i ≡ j = ground (arith, t) in rw t (subst (λ x. P x a) same new)
  | inr t ↦ rw t (old j t)
]

pub update-same {ℓ} : {A : Type ℓ} (f : ℕ → A) (i : ℕ) (a : A) → update f i a i ≡ a
update-same f i a = ground arith

-- What does not tell the new value from the old one does not see the change.
pub update_unseen {ℓ κ} :
    {A : Type ℓ} {B : Type κ} (h : A → B) (f : ℕ → A) (i : ℕ) (a : A)
    → h a ≡ h (f i)
    → (j : ℕ) → h (update f i a j) ≡ h (f j)
update_unseen h f i a same = update-elim (λ j x. h x ≡ h (f j)) f i a same (λ j t. refl)

abbrev pub same_type : WorkType → WorkType → Bool
same_type work_none work_none = true
same_type work_read_file work_read_file = true
same_type work_read_dir work_read_dir = true
same_type work_decrypt_name work_decrypt_name = true
same_type _ _ = false

-- `New`
unfoldable pub new_requester : ℕ → System
new_requester num_workers = record {
  num_workers = num_workers;
  is_started = false;
  queue_closed = false;
  caches = record {
    file_cache = new_sync_cache;
    dir_cache = new_sync_cache;
    decrypt_cache = new_sync_cache;
  };
  work_queue = [];
  next_chan = 0;
  closed = [];
  lockers = λ _. none;
  workers = λ _. absent;
  clients = λ _. idle;
  snapshot = λ _. [];
  answers = [];
}

module _ (siphash : Bytes → ℕ) where
  -- The key that `makeRequest` looks up, and the one that a worker stores.
  unfoldable pub request_key : Bytes → Bytes → Bytes
  request_key arg1 arg2 = if ltb 0 (length arg2) then complex_key siphash arg1 arg2 else arg1

  unfoldable pub work_key : WorkType → Bytes → Bytes → Bytes
  work_key work_decrypt_name arg1 arg2 = complex_key siphash arg1 arg2
  work_key _ arg1 arg2 = arg1

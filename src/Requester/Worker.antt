-- ===== src/Requester/Worker.antt =====
-- `worker` and `performRequestAndCache` of requester/requester.go, a shared access at a time. A
-- step is `none` where the worker does not stand at its program point, or has to wait.
pub mod Moves
pub mod Progress
use gocryptsftp.Base.{
  ℕ, Bool, true, false, Option, none, some, List, [], ◌∷◌, ◌++◌, Bytes, if◌then◌else◌, ◌==◌,
}
use gocryptsftp.Requester.Defs.{Entry, WorkType, work_none, Work, is_done}
use gocryptsftp.Requester.SyncCache.{SyncCache, get_or_insert, put}
use gocryptsftp.Requester.System.{
  Reply, reply_entry, WorkerPc, waiting, started, offering, replying, requesting, setting,
  broadcasting, unlocking, ClientPc, asleep, Owner, by_worker, Answer, System, update, cache_of,
  set_cache, work_key, exited,
}

abbrev pub set_worker : System → ℕ → WorkerPc → System
set_worker s i pc = record s { workers = update s.workers i pc }

-- `w, ok := <-r.workQueue`; once the queue is closed and empty, `ok` is false and the worker returns.
take_from : System → ℕ → WorkerPc → List Work → Option System
take_from s i waiting (w ∷ rest) =
    some (record s { work_queue = rest; workers = update s.workers i (started w) })
take_from s i waiting [] = if s.queue_closed then some (set_worker s i exited) else none
take_from s i _ _ = none

unfoldable pub take : System → ℕ → Option System
unfolding take_from
take s i = take_from s i (s.workers i) s.work_queue

module _ (siphash : Bytes → ℕ) where
  -- What follows `GetOrInsert`: the worker has claimed the key, or the entry is done and it closes
  -- the channel, or it passes on the ticket of the entry.
  claimed : System → ℕ → Work → SyncCache × Option Entry → System
  claimed s i w (m, none) = record s {
    caches = set_cache w.request_type m s.caches;
    workers = update s.workers i (offering w);
  }
  claimed s i w (m, some e) =
      if is_done e
      then record s { closed = w.resp_chan ∷ s.closed; workers = update s.workers i waiting }
      else set_worker s i (replying w e.locker_num)

  -- The `switch` on the request type.
  serve : System → ℕ → Work → WorkType → System
  unfolding claimed
  serve s i w work_none = set_worker s i waiting
  serve s i w _ = claimed s i w (
      get_or_insert (cache_of w.request_type s.caches)
        (work_key siphash w.request_type w.arg1 w.arg2)
        (record { payload = none; err = none; locker_num = i }))

  claim_at : System → ℕ → WorkerPc → Option System
  unfolding serve
  claim_at s i (started w) = some (serve s i w w.request_type)
  claim_at s i _ = none

  unfoldable pub claim : System → ℕ → Option System
  unfolding claim_at
  claim s i = claim_at s i (s.workers i)

  set_at : System → ℕ → WorkerPc → Option System
  set_at s i (setting w e) = some (record s {
    caches =
        set_cache w.request_type
          (put (cache_of w.request_type s.caches) (work_key siphash w.request_type w.arg1 w.arg2) e)
          s.caches;
    workers = update s.workers i broadcasting;
  })
  set_at s i _ = none

  -- `cache.Set`
  unfoldable pub set_entry : System → ℕ → Option System
  unfolding set_at
  set_entry s i = set_at s i (s.workers i)

lock_at : System → ℕ → WorkerPc → Option Owner → Option System
lock_at s i (WorkerPc.locking w) none = some (record s {
  lockers = update s.lockers i (some (by_worker i));
  workers = update s.workers i (requesting w);
})
lock_at s i _ _ = none

-- `wt.Lock()`; the worker's ticket has its own number.
unfoldable pub lock : System → ℕ → Option System
unfolding lock_at
lock s i = lock_at s i (s.workers i) (s.lockers i)

request_at : System → ℕ → Reply → WorkerPc → Option System
request_at s i r (requesting w) = elim (reply_entry w.request_type r) [
  | none ↦ none
  | some e ↦ some (record s {
    answers = record { work = w; entry = e } ∷ s.answers;
    workers = update s.workers i (setting w e);
  })
]
request_at s i r _ = none

-- `data, err := request()`, with the reply that the environment chooses.
unfoldable pub request : System → ℕ → Reply → Option System
unfolding request_at
request s i r = request_at s i r (s.workers i)

-- A sleeper on ticket `n` goes on to take the lock again.
unfoldable pub wake : ℕ → ClientPc → ClientPc
wake n (asleep q k) = if n == k then ClientPc.locking q k else asleep q k
wake n pc = pc

broadcast_at : System → ℕ → WorkerPc → Option System
unfolding wake
broadcast_at s i broadcasting =
    some (record s { clients = λ c. wake i (s.clients c); workers = update s.workers i unlocking })
broadcast_at s i _ = none

-- `wt.cv.Broadcast()`
unfoldable pub broadcast : System → ℕ → Option System
unfolding broadcast_at
broadcast s i = broadcast_at s i (s.workers i)

unlock_at : System → ℕ → WorkerPc → Option System
unlock_at s i unlocking =
    some (record s { lockers = update s.lockers i none; workers = update s.workers i waiting })
unlock_at s i _ = none

-- `wt.Unlock()`
unfoldable pub unlock : System → ℕ → Option System
unfolding unlock_at
unlock s i = unlock_at s i (s.workers i)

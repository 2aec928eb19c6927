-- ===== src/Requester/Client.antt =====
-- `makeRequest` of requester/makerequest.go, a shared access at a time.
pub mod Moves
pub mod Progress
use gocryptsftp.Base.{
  ℕ, ◌+◌, Bool, true, false, not, ◌&&◌, ◌||◌, Option, none, some, List, [], ◌∷◌, ◌++◌, Bytes,
  if◌then◌else◌, ◌==◌, ltb, length,
}
use gocryptsftp.Requester.Defs.{
  Payload, ErrorCode, Entry, WorkType, work_none, Work, cache_err_retry_attempts, work_queue_size,
  is_done,
}
use gocryptsftp.Requester.SyncCache.{SyncCache, get, remove}
use gocryptsftp.Requester.System.{
  WorkerPc, waiting, offering, replying, RetryErr, cache_wiped, cached_error, empty_data,
  entry_deleted, data_missing, Outcome, ok, request_error, unresponsive, no_success, Request,
  ClientPc, idle, checking, sending, receiving, received, done, System, update, cache_of, set_cache,
  request_key,
}

abbrev pub set_client : System → ℕ → ClientPc → System
set_client s c pc = record s { clients = update s.clients c pc }

-- `retryErrs = append(retryErrs, e); continue`, with the end of the loop.
unfoldable pub retry : Request → RetryErr → ClientPc
retry q e =
    let errs = q.retry_errs ++ (e ∷ []) in
    let q' = record q { attempt = q.attempt + 1; retry_errs = errs } in
    if ltb (q.attempt + 1) cache_err_retry_attempts then checking q' else done q' (no_success errs)

-- A call of `makeRequest`; a request of no type panics.
begin_at : System → ℕ → WorkType → Bytes → Bytes → ClientPc → Option System
begin_at s c work_none arg1 arg2 _ = none
begin_at s c t arg1 arg2 idle = some (
    set_client s c
      (checking (record { kind = t; arg1 = arg1; arg2 = arg2; attempt = 0; retry_errs = [] })))
begin_at s c t arg1 arg2 _ = none

unfoldable pub begin : System → ℕ → WorkType → Bytes → Bytes → Option System
unfolding begin_at
begin s c t arg1 arg2 = begin_at s c t arg1 arg2 (s.clients c)

-- What an entry holds for the caller, if anything.
abbrev pub payload_of : Option Entry → Option Payload
payload_of none = none
payload_of (some e) = e.payload

module _ (siphash : Bytes → ℕ) where
  abbrev pub cached : System → Request → Option Entry
  cached s q = get (cache_of q.kind s.caches) (request_key siphash q.arg1 q.arg2)

  unfoldable pub checked : Request → Option Entry → ClientPc
  checked q e = elim (payload_of e) [ some d ↦ done q (ok d) | none ↦ sending q ]

  check_at : System → ℕ → ClientPc → Option System
  unfolding checked
  check_at s c (checking q) = some (set_client s c (checked q (cached s q)))
  check_at s c _ = none

  -- The `cache.Get` at the head of an attempt.
  unfoldable pub check : System → ℕ → Option System
  unfolding check_at
  check s c = check_at s c (s.clients c)

  -- After the ticket or the close: what `makeRequest` does with the entry, and whether it deletes it.
  unfoldable pub rechecked : Request → Option ℕ → Option Entry → ClientPc × Bool
  unfolding retry
  rechecked q t none = (retry q cache_wiped, false)
  rechecked q t (some e) = elim e.payload [
    | some d ↦ (done q (ok d), false)
    | none ↦ elim t [
      | some n ↦ (ClientPc.locking q n, false)
      | none ↦ elim e.err [
        | some _ ↦ (retry q cached_error, true)
        | none ↦ (retry q empty_data, true)
      ]
    ]
  ]

  unfoldable pub recheck_with : System → ℕ → Request → ClientPc × Bool → System
  recheck_with s c q (pc, false) = set_client s c pc
  recheck_with s c q (pc, true) = record s {
    caches =
        set_cache q.kind (remove (cache_of q.kind s.caches) (request_key siphash q.arg1 q.arg2))
          s.caches;
    clients = update s.clients c pc;
  }

  recheck_at : System → ℕ → ClientPc → Option System
  unfolding rechecked recheck_with
  recheck_at s c (received q t) = some (recheck_with s c q (rechecked q t (cached s q)))
  recheck_at s c _ = none

  -- The `cache.Get` after the receive, and the `cache.Delete` of an entry with no data.
  unfoldable pub recheck : System → ℕ → Option System
  unfolding recheck_at
  recheck s c = recheck_at s c (s.clients c)

send_at : System → ℕ → ClientPc → Option System
send_at s c (sending q) =
    if not s.queue_closed && ltb (length s.work_queue) work_queue_size
    then some (record s {
      work_queue =
          s.work_queue
          ++ (record {
            request_type = q.kind;
            arg1 = q.arg1;
            arg2 = q.arg2;
            resp_chan = s.next_chan;
          }
              ∷ []);
      next_chan = s.next_chan + 1;
      clients = update s.clients c (receiving q s.next_chan);
    })
    else none
send_at s c _ = none

-- `r.workQueue <- work`, which waits while the queue is full, and panics once it is closed.
unfoldable pub send : System → ℕ → Option System
unfolding send_at
send s c = send_at s c (s.clients c)

unfoldable pub is_closed : ℕ → List ℕ → Bool
is_closed n [] = false
is_closed n (m ∷ ms) = n == m || is_closed n ms

receive_closed_at : System → ℕ → ClientPc → Option System
unfolding is_closed
receive_closed_at s c (receiving q ch) =
    if is_closed ch s.closed then some (set_client s c (received q none)) else none
receive_closed_at s c _ = none

-- The receive on a closed channel.
unfoldable pub receive_closed : System → ℕ → Option System
unfolding receive_closed_at
receive_closed s c = receive_closed_at s c (s.clients c)

hand_over_at : System → ℕ → ℕ → WorkerPc → ClientPc → Option System
hand_over_at s i c (offering w) (receiving q ch) =
    if w.resp_chan == ch
    then some (record s {
      workers = update s.workers i (WorkerPc.locking w);
      clients = update s.clients c (received q (some i));
    })
    else none
hand_over_at s i c (replying w n) (receiving q ch) =
    if w.resp_chan == ch
    then some (record s {
      workers = update s.workers i waiting;
      clients = update s.clients c (received q (some n));
    })
    else none
hand_over_at s i c _ _ = none

-- A send meets a receive on the unbuffered channel: worker `i` hands client `c` a ticket.
unfoldable pub hand_over : System → ℕ → ℕ → Option System
unfolding hand_over_at
hand_over s i c = hand_over_at s i c (s.workers i) (s.clients c)

time_out_at : System → ℕ → ClientPc → Option System
time_out_at s c (receiving q ch) = some (set_client s c (done q unresponsive))
time_out_at s c _ = none

-- `case <-time.After(20 * time.Second)`
unfoldable pub time_out : System → ℕ → Option System
unfolding time_out_at
time_out s c = time_out_at s c (s.clients c)

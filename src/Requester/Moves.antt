-- ===== src/Requester/Moves.antt =====
-- The accesses of requester/requester.go and requester/makerequest.go as a step relation: one
-- constructor for each way in which a goroutine goes on.
pub mod Run
pub mod Cases
pub mod Away
use gocryptsftp.Base.{
  refl, ℕ, ◌+◌, ◌≡◌, ◌≢◌, Bool, true, false, Option, none, some, List, [], ◌∷◌, ◌++◌, ltb, length,
  Bytes,
}
use gocryptsftp.Requester.Defs.{Entry, WorkType, work_none, Work, work_queue_size, is_done}
use gocryptsftp.Requester.SyncCache.{get, put}
use gocryptsftp.Requester.System.{
  Reply, reply_entry, WorkerPc, waiting, started, offering, replying, requesting, setting,
  broadcasting, unlocking, Request, ClientPc, idle, checking, sending, receiving, received, looking,
  seen, done, unresponsive, Owner, by_worker, by_client, System, update, cache_of, set_cache,
  work_key, exited,
}
use gocryptsftp.Requester.Lifecycle.{begun}
use gocryptsftp.Requester.Worker.{set_worker, wake}
use gocryptsftp.Requester.Client.{set_client, cached, checked, rechecked, recheck_with, is_closed}
use gocryptsftp.Requester.Ticket.{after_look}
use gocryptsftp.Requester.Steps.{copy_keys, delete_copied}

-- The entry of work that a worker has begun.
abbrev pub claim_entry : ℕ → Entry
claim_entry i = record { payload = none; err = none; locker_num = i }

-- The first request of a call.
abbrev pub IsFresh : Request → Type 0
IsFresh q = (q.kind ≢ work_none) × (q.attempt ≡ 0) × (q.retry_errs ≡ [])

module _ (siphash : Bytes → ℕ) where
  abbrev pub key_of : Work → Bytes
  key_of w = work_key siphash w.request_type w.arg1 w.arg2

  abbrev pub entry_of : System → Work → Option Entry
  entry_of s w = get (cache_of w.request_type s.caches) (key_of w)

  -- `cache.Set` on the cache and key of the work
  abbrev pub store : System → Work → Entry → System
  store s w e = record s {
    caches =
        set_cache w.request_type (put (cache_of w.request_type s.caches) (key_of w) e) s.caches;
  }

  pub data Move (s : System) : System → Type 0 where
    take :
        (i : ℕ) (w : Work) (rest : List Work)
        → s.workers i ≡ waiting
        → s.work_queue ≡ w ∷ rest
        → Move s (record s { work_queue = rest; workers = update s.workers i (started w) })
    exit : (i : ℕ) → s.workers i ≡ waiting → s.queue_closed ≡ true → Move s (set_worker s i exited)
    drop : (i : ℕ) (w : Work) → s.workers i ≡ started w → Move s (set_worker s i waiting)
    claim :
        (i : ℕ) (w : Work)
        → s.workers i ≡ started w
        → w.request_type ≢ work_none
        → entry_of s w ≡ none
        → Move s (set_worker (store s w (claim_entry i)) i (offering w))
    close :
        (i : ℕ) (w : Work) (e : Entry)
        → s.workers i ≡ started w
        → entry_of s w ≡ some e
        → is_done e ≡ true
        → Move s
            (record s { closed = w.resp_chan ∷ s.closed; workers = update s.workers i waiting })
    pass_on :
        (i : ℕ) (w : Work) (e : Entry)
        → s.workers i ≡ started w
        → entry_of s w ≡ some e
        → is_done e ≡ false
        → Move s (set_worker s i (replying w e.locker_num))
    lock :
        (i : ℕ) (w : Work)
        → s.workers i ≡ WorkerPc.locking w
        → s.lockers i ≡ none
        → Move s (record s {
          lockers = update s.lockers i (some (by_worker i));
          workers = update s.workers i (requesting w);
        })
    request :
        (i : ℕ) (w : Work) (r : Reply) (e : Entry)
        → s.workers i ≡ requesting w
        → reply_entry w.request_type r ≡ some e
        → Move s (record s {
          answers = record { work = w; entry = e } ∷ s.answers;
          workers = update s.workers i (setting w e);
        })
    set :
        (i : ℕ) (w : Work) (e : Entry)
        → s.workers i ≡ setting w e
        → Move s (set_worker (store s w e) i broadcasting)
    broadcast :
        (i : ℕ)
        → s.workers i ≡ broadcasting
        → Move s (record s {
          clients = λ c. wake i (s.clients c);
          workers = update s.workers i unlocking;
        })
    unlock :
        (i : ℕ)
        → s.workers i ≡ unlocking
        → Move s
            (record s { lockers = update s.lockers i none; workers = update s.workers i waiting })
    begin :
        (c : ℕ) (q : Request)
        → s.clients c ≡ idle
        → IsFresh q
        → Move s (set_client s c (checking q))
    check :
        (c : ℕ) (q : Request)
        → s.clients c ≡ checking q
        → Move s (set_client s c (checked siphash q (cached siphash s q)))
    send :
        (c : ℕ) (q : Request)
        → s.clients c ≡ sending q
        → ltb (length s.work_queue) work_queue_size ≡ true
        → Move s (record s {
          work_queue =
              s.work_queue
              ++ (record {
                request_type = q.kind;
                arg1 = q.arg1;
                arg2 = q.arg2;
                resp_chan = s.next_chan;
              }
                  ∷ []);
          next_chan = s.next_chan + 1;
          clients = update s.clients c (receiving q s.next_chan);
        })
    receive_closed :
        (c : ℕ) (q : Request) (ch : ℕ)
        → s.clients c ≡ receiving q ch
        → is_closed ch s.closed ≡ true
        → Move s (set_client s c (received q none))
    recheck :
        (c : ℕ) (q : Request) (t : Option ℕ)
        → s.clients c ≡ received q t
        → Move s (recheck_with siphash s c q (rechecked siphash q t (cached siphash s q)))
    time_out :
        (c : ℕ) (q : Request) (ch : ℕ)
        → s.clients c ≡ receiving q ch
        → Move s (set_client s c (done q unresponsive))
    lock_ticket :
        (c : ℕ) (q : Request) (n : ℕ)
        → s.clients c ≡ ClientPc.locking q n
        → s.lockers n ≡ none
        → Move s (record s {
          lockers = update s.lockers n (some (by_client c));
          clients = update s.clients c (looking q n);
        })
    look :
        (c : ℕ) (q : Request) (n : ℕ)
        → s.clients c ≡ looking q n
        → Move s (set_client s c (seen q n (cached siphash s q)))
    decide :
        (c : ℕ) (q : Request) (n : ℕ) (o : Option Entry)
        → s.clients c ≡ seen q n o
        → Move s (record s {
          lockers = update s.lockers n none;
          clients = update s.clients c (after_look q n o);
        })
    hand_over :
        (i c : ℕ) (w : Work) (q : Request)
        → s.workers i ≡ offering w
        → s.clients c ≡ receiving q w.resp_chan
        → Move s (record s {
          workers = update s.workers i (WorkerPc.locking w);
          clients = update s.clients c (received q (some i));
        })
    reply :
        (i c : ℕ) (w : Work) (n : ℕ) (q : Request)
        → s.workers i ≡ replying w n
        → s.clients c ≡ receiving q w.resp_chan
        → Move s (record s {
          workers = update s.workers i waiting;
          clients = update s.clients c (received q (some n));
        })
    start : s.is_started ≡ false → Move s (begun s)
    stop : Move s (record s { queue_closed = true })
    copy : (t : WorkType) → Move s (copy_keys s t)
    delete : (t : WorkType) → Move s (delete_copied s t)

  pub recheck_with-clients :
      (s : System) (c : ℕ) (q : Request) (r : ClientPc × Bool)
      → (recheck_with siphash s c q r).clients ≡ update s.clients c r.0
  unfolding recheck_with
  recheck_with-clients s c q (pc, false) = refl
  recheck_with-clients s c q (pc, true) = refl

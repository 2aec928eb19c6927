-- ===== src/Requester/Steps.antt =====
-- Schedules: which goroutine makes its next shared access, and what the environment answers.
use gocryptsftp.Base.{ℕ, Option, none, some, List, [], ◌∷◌, Bytes, if◌then◌else◌}
use gocryptsftp.Requester.Defs.{WorkType}
use gocryptsftp.Requester.SyncCache.{keys_to_delete, delete_keys}
use gocryptsftp.Requester.System.{Reply, System, cache_of, set_cache, same_type}
use gocryptsftp.Requester.Lifecycle
use gocryptsftp.Requester.Worker
use gocryptsftp.Requester.Client
use gocryptsftp.Requester.Ticket

pub data Action : Type 0 where
  takes claims locks sets broadcasts unlocks : ℕ → Action  -- of a worker
  requests : ℕ → Reply → Action
  begins : ℕ → WorkType → Bytes → Bytes → Action  -- of a client
  checks sends receives rechecks times_out locks_ticket looks decides : ℕ → Action
  hands_over : ℕ → ℕ → Action  -- of a worker and a client
  starts stops : Action
  copies_keys deletes_keys : WorkType → Action  -- of a `ClearCache`

-- The two critical sections of `ClearCache` on one of the caches.
unfoldable pub copy_keys : System → WorkType → System
copy_keys s t = record s {
  snapshot = λ u. if same_type t u then keys_to_delete (cache_of t s.caches) else s.snapshot u;
}

unfoldable pub delete_copied : System → WorkType → System
delete_copied s t = record s {
  caches = set_cache t (delete_keys (cache_of t s.caches) (s.snapshot t)) s.caches;
}

infixl 5 ◌>>=◌
abbrev pub ◌>>=◌ : Option System → (System → Option System) → Option System
none >>= f = none
some s >>= f = f s

module _ (siphash : Bytes → ℕ) where
  -- One access; `none` if the goroutine is elsewhere or has to wait.
  unfoldable pub step : System → Action → Option System
  unfolding copy_keys delete_copied
  step s (takes i) = Worker.take s i
  step s (claims i) = Worker.claim siphash s i
  step s (locks i) = Worker.lock s i
  step s (requests i r) = Worker.request s i r
  step s (sets i) = Worker.set_entry siphash s i
  step s (broadcasts i) = Worker.broadcast s i
  step s (unlocks i) = Worker.unlock s i
  step s (begins c t arg1 arg2) = Client.begin s c t arg1 arg2
  step s (checks c) = Client.check siphash s c
  step s (sends c) = Client.send s c
  step s (receives c) = Client.receive_closed s c
  step s (rechecks c) = Client.recheck siphash s c
  step s (times_out c) = Client.time_out s c
  step s (locks_ticket c) = Ticket.lock_ticket s c
  step s (looks c) = Ticket.look siphash s c
  step s (decides c) = Ticket.decide s c
  step s (hands_over i c) = Client.hand_over s i c
  step s starts = Lifecycle.start s
  step s stops = Lifecycle.stop s
  step s (copies_keys t) = some (copy_keys s t)
  step s (deletes_keys t) = some (delete_copied s t)

  unfoldable pub run : List Action → System → Option System
  unfolding step
  run [] s = some s
  run (a ∷ as') s = do s' ← step s a; run as' s'

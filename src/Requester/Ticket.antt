-- ===== src/Requester/Ticket.antt =====
-- `makeRequest` of requester/makerequest.go with a ticket: the loop around `ticket.Wait()`, a
-- shared access at a time.
pub mod Moves
pub mod Progress
use gocryptsftp.Base.{
  ℕ, Bool, true, false, not, ◌&&◌, ◌||◌, Option, none, some, Bytes, if◌then◌else◌, ◌==◌,
}
use gocryptsftp.Requester.Defs.{Entry, is_done}
use gocryptsftp.Requester.System.{
  entry_deleted, data_missing, ok, request_error, Request, ClientPc, looking, seen, asleep, done,
  Owner, by_client, System, update,
}
use gocryptsftp.Requester.Client.{retry, set_client, cached}

lock_ticket_at : System → ℕ → ClientPc → Option System
lock_ticket_at s c (ClientPc.locking q n) = elim (s.lockers n) [
  | some _ ↦ none
  | none ↦ some (record s {
    lockers = update s.lockers n (some (by_client c));
    clients = update s.clients c (looking q n);
  })
]
lock_ticket_at s c _ = none

-- `ticket.Lock()`, also at the end of `Wait`
unfoldable pub lock_ticket : System → ℕ → Option System
unfolding lock_ticket_at
lock_ticket s c = lock_ticket_at s c (s.clients c)

-- What follows the loop once it breaks.
unfoldable pub settled : Request → Option Entry → ClientPc
unfolding retry
settled q none = retry q entry_deleted
settled q (some e) = elim e.err [
  | some x ↦ done q (request_error x)
  | none ↦ elim e.payload [ some d ↦ done q (ok d) | none ↦ retry q data_missing ]
]

-- `!found || dataAvailable || wrongLocker`
unfoldable pub breaks : ℕ → Option Entry → Bool
unfolding is_done
breaks n none = true
breaks n (some e) = is_done e || (n == 0 || not (e.locker_num == n))

module _ (siphash : Bytes → ℕ) where
  look_at : System → ℕ → ClientPc → Option System
  look_at s c (looking q n) = some (set_client s c (seen q n (cached siphash s q)))
  look_at s c _ = none

  -- The `cache.Get` under the lock.
  unfoldable pub look : System → ℕ → Option System
  unfolding look_at
  look s c = look_at s c (s.clients c)

-- The loop breaks and the caller unlocks, or it goes to sleep, which unlocks too.
unfoldable pub after_look : Request → ℕ → Option Entry → ClientPc
unfolding settled breaks
after_look q n e = if breaks n e then settled q e else asleep q n

decide_at : System → ℕ → ClientPc → Option System
unfolding after_look
decide_at s c (seen q n e) = some (record s {
  lockers = update s.lockers n none;
  clients = update s.clients c (after_look q n e);
})
decide_at s c _ = none

-- The test of the loop on what `cache.Get` returned.
unfoldable pub decide : System → ℕ → Option System
unfolding decide_at
decide s c = decide_at s c (s.clients c)

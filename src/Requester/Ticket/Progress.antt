-- ===== src/Requester/Ticket/Progress.antt =====
-- Where a caller with a ticket stands, its next access can be made.
use gocryptsftp.Base.{ℕ, ◌≡◌, refl, Option, none, some, Bytes}
use gocryptsftp.Requester.Defs.{Entry}
use gocryptsftp.Requester.System.{Request, ClientPc, looking, seen, by_client, System, update}
use gocryptsftp.Requester.Client.{set_client, cached}
use gocryptsftp.Requester.Ticket.{
  lock_ticket_at, lock_ticket, look_at, look, after_look, decide_at, decide,
}

module _ (s : System) (c : ℕ) (q : Request) (n : ℕ) where
  pub lock_ticket_ready :
      s.clients c ≡ ClientPc.locking q n
      → s.lockers n ≡ none
      → lock_ticket s c
        ≡ some (record s {
          lockers = update s.lockers n (some (by_client c));
          clients = update s.clients c (looking q n);
        })
  unfolding lock_ticket lock_ticket_at
  lock_ticket_ready a b = rw (a, lock_ticket_at, b) refl

  pub look_ready :
      (siphash : Bytes → ℕ)
      → s.clients c ≡ looking q n
      → look siphash s c ≡ some (set_client s c (seen q n (cached siphash s q)))
  unfolding look look_at
  look_ready siphash a = rw a refl

  pub decide_ready :
      (o : Option Entry)
      → s.clients c ≡ seen q n o
      → decide s c
        ≡ some (record s {
          lockers = update s.lockers n none;
          clients = update s.clients c (after_look q n o);
        })
  unfolding decide decide_at
  decide_ready o a = rw a refl

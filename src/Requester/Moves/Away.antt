-- ===== src/Requester/Moves/Away.antt =====
-- Where `makeRequest` of requester/makerequest.go goes when it has no ticket, or is done with it.
use gocryptsftp.Base.{ℕ, ◌≡◌, refl, Bool, true, false, Option, Bytes}
use gocryptsftp.Requester.Moves.Cases.{retry_cases, settled_cases, checked_cases, rechecked_cases}
use gocryptsftp.Requester.Defs.{Entry}
use gocryptsftp.Requester.System.{RetryErr, Request, ClientPc, looking, seen, asleep, receiving}
use gocryptsftp.Requester.Client.{retry, checked, rechecked}
use gocryptsftp.Requester.Ticket.{settled}

-- Neither in the loop of a ticket nor in the `select`.
abbrev pub away : ClientPc → Bool
away (looking q n) = false
away (seen q n o) = false
away (asleep q n) = false
away (receiving q ch) = false
away _ = true

pub away-retry : (q : Request) (e : RetryErr) → away (retry q e) ≡ true
away-retry q e = retry_cases (λ pc. away pc ≡ true) q e (λ t. refl) (λ t. refl)

pub away-settled : (q : Request) (o : Option Entry) → away (settled q o) ≡ true
away-settled q o =
    settled_cases (λ pc. away pc ≡ true) q o (away-retry q) (λ x. refl) (λ e p a b. refl)

module _ (siphash : Bytes → ℕ) where
  pub away-checked : (q : Request) (o : Option Entry) → away (checked siphash q o) ≡ true
  away-checked q o = checked_cases (λ pc. away pc ≡ true) siphash q o refl (λ e p a b. refl)

  pub away-rechecked :
      (q : Request) (t : Option ℕ) (o : Option Entry) → away (rechecked siphash q t o).0 ≡ true
  away-rechecked q t o =
      rechecked_cases (λ pc. away pc ≡ true) siphash q t o (away-retry q) (λ n h. refl)
        (λ e p a b. refl)

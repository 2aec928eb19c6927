-- ===== src/Requester/Liveness/Chain.antt =====
-- From each point of a worker that is to wake a caller, a schedule that lets the caller go on.
use gocryptsftp.Base.{
  ℕ, ◌≡◌, refl, ap, ◌∙◌, inl, inr, true, Option, none, some, List, [], ◌∷◌, arith, Bytes,
  Bool-cases,
}
use gocryptsftp.Requester.Defs.{Entry, Work}
use gocryptsftp.Requester.System.{
  WorkerPc, waiting, requesting, setting, broadcasting, unlocking, Request, ClientPc, looking, seen,
  asleep, System, update-same,
}
use gocryptsftp.Requester.Worker.{wake}
use gocryptsftp.Requester.Client.{cached}
use gocryptsftp.Requester.Ticket.{settled, breaks, after_look}
use gocryptsftp.Requester.Steps.{
  Action, locks, requests, sets, broadcasts, unlocks, locks_ticket, looks, decides, step, run,
}
use gocryptsftp.Requester.Moves.Run.{step-Move}
use gocryptsftp.Requester.Wakeup.{busy, Attended}
use gocryptsftp.Requester.Wakeup.Moves.{move-Attended}
use gocryptsftp.Requester.Worker.Progress.{
  reply_to, lock_ready, request_ready, set_ready, broadcast_ready, unlock_ready,
}
use gocryptsftp.Requester.Ticket.Progress.{lock_ticket_ready, look_ready, decide_ready}

module _ (siphash : Bytes → ℕ) (n c : ℕ) (q : Request) where
  -- A schedule takes the caller out of the loop of its ticket.
  abbrev pub Leaves : System → Type 0
  Leaves s =
      (as' : List Action) × (s' : System) × (o : Option Entry) × (run siphash as' s ≡ some s')
      × (s'.clients c ≡ settled q o)

  pub after :
      (s : System) (a : Action) (s' : System)
      → step siphash s a ≡ some s'
      → Attended siphash s
      → (Attended siphash s' → Leaves s')
      → Leaves s
  unfolding run
  after s a s' e inv then =
      let (as', s'', o, runs, out) =
        then (move-Attended siphash s s' inv (step-Move siphash s a e)) in
      (a ∷ as', s'', o, rw e runs, out)

  stays : (s : System) (o : Option Entry) → s.clients c ≡ settled q o → Leaves s
  unfolding run
  stays s o out = ([], s, o, refl, out)

  -- Nobody serves the entry under the ticket of a worker that waits for work.
  loop_breaks :
      (s : System) (o : Option Entry)
      → Attended siphash s
      → s.workers n ≡ waiting
      → s.clients c ≡ seen q n o
      → breaks n o ≡ true
  loop_breaks s o inv idle sees = elim (Bool-cases (breaks n o)) [
    | inl t ↦ t
    | inr t ↦ let b = (rw sees at (inv.watched c)) t in let f = ap busy idle in cc
  ]

  decide-Leaves :
      (s : System) (o : Option Entry)
      → Attended siphash s
      → s.workers n ≡ waiting
      → s.clients c ≡ seen q n o
      → Leaves s
  unfolding step after_look
  decide-Leaves s o inv idle sees = after s (decides c) _ (decide_ready s c q n o sees) inv (λ _.
      stays _ o
        (update-same s.clients c (after_look q n o) ∙ rw (loop_breaks s o inv idle sees) refl))

  look-Leaves :
      (s : System)
      → Attended siphash s
      → s.workers n ≡ waiting
      → s.clients c ≡ looking q n
      → Leaves s
  unfolding step
  look-Leaves s inv idle looks_at =
      after s (looks c) _ (look_ready s c q n siphash looks_at) inv
        (λ inv'. decide-Leaves _ (cached siphash s q) inv' idle (update-same s.clients c _))

  lock_ticket-Leaves :
      (s : System)
      → Attended siphash s
      → s.workers n ≡ waiting
      → s.lockers n ≡ none
      → s.clients c ≡ ClientPc.locking q n
      → Leaves s
  unfolding step
  lock_ticket-Leaves s inv idle free locks_it =
      after s (locks_ticket c) _ (lock_ticket_ready s c q n locks_it free) inv
        (λ inv'. look-Leaves _ inv' idle (update-same s.clients c _))

  unlock-Leaves :
      (s : System)
      → Attended siphash s
      → s.workers n ≡ unlocking
      → s.clients c ≡ ClientPc.locking q n
      → Leaves s
  unfolding step
  unlock-Leaves s inv at_n locks_it = after s (unlocks n) _ (unlock_ready s n at_n) inv (λ inv'.
      lock_ticket-Leaves _ inv' (update-same s.workers n waiting) (update-same s.lockers n none)
        locks_it)

  wake-asleep : wake n (asleep q n) ≡ ClientPc.locking q n
  unfolding wake
  wake-asleep = ground arith

  pub broadcast-Leaves :
      (s : System)
      → Attended siphash s
      → s.workers n ≡ broadcasting
      → s.clients c ≡ asleep q n
      → Leaves s
  unfolding step
  broadcast-Leaves s inv at_n sleeps =
      after s (broadcasts n) _ (broadcast_ready s n at_n) inv (λ inv'.
        unlock-Leaves _ inv' (update-same s.workers n unlocking) (ap (wake n) sleeps ∙ wake-asleep))

  pub set-Leaves :
      (s : System) (w : Work) (e : Entry)
      → Attended siphash s
      → s.workers n ≡ setting w e
      → s.clients c ≡ asleep q n
      → Leaves s
  unfolding step
  set-Leaves s w e inv at_n sleeps =
      after s (sets n) _ (set_ready s n siphash w e at_n) inv
        (λ inv'. broadcast-Leaves _ inv' (update-same s.workers n broadcasting) sleeps)

  pub request-Leaves :
      (s : System) (w : Work)
      → Attended siphash s
      → s.workers n ≡ requesting w
      → s.clients c ≡ asleep q n
      → Leaves s
  unfolding step
  request-Leaves s w inv at_n sleeps =
      let (r, e, answer) = reply_to w.request_type (rw at_n at (inv.work_ok n)) in
      after s (requests n r) _ (request_ready s n w r e at_n answer) inv
        (λ inv'. set-Leaves _ w e inv' (update-same s.workers n _) sleeps)

  pub lock-Leaves :
      (s : System) (w : Work)
      → Attended siphash s
      → s.workers n ≡ WorkerPc.locking w
      → s.lockers n ≡ none
      → s.clients c ≡ asleep q n
      → Leaves s
  unfolding step
  lock-Leaves s w inv at_n free sleeps =
      after s (locks n) _ (lock_ready s n w at_n free) inv
        (λ inv'. request-Leaves _ w inv' (update-same s.workers n _) sleeps)

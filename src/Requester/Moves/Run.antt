-- ===== src/Requester/Moves/Run.antt =====
-- A property that a new requester has and that moves keep holds after every schedule.
use mathlib.Core.Path.{subst}
use gocryptsftp.Base.{
  ℕ, ◌≡◌, inl, inr, some, List, [], ◌∷◌, arith, Bytes, Option-cases, some_inj, Bool-cases,
}
use gocryptsftp.Requester.System.{System}
use gocryptsftp.Requester.Steps.{
  Action, starts, stops, takes, claims, locks, sets, broadcasts, unlocks, requests, begins, checks,
  sends, receives, rechecks, times_out, locks_ticket, looks, decides, hands_over, copies_keys,
  deletes_keys, step, run,
}
use gocryptsftp.Requester.Moves.{Move}
use gocryptsftp.Requester.Lifecycle
use gocryptsftp.Requester.Worker.Moves as OfWorker
use gocryptsftp.Requester.Client.Moves as OfClient
use gocryptsftp.Requester.Ticket.Moves as OfTicket

module _ (siphash : Bytes → ℕ) where
  start-Move : (s : System) {s' : System} → Lifecycle.start s ≡ some s' → Move siphash s s'
  unfolding Lifecycle.start
  start-Move s e = elim (Bool-cases s.is_started) [
    | inl t ↦ ground (arith, t)
    | inr t ↦ subst (Move siphash s) (some_inj (rw t at e)) (Move.start t)
  ]

  stop-Move : (s : System) {s' : System} → Lifecycle.stop s ≡ some s' → Move siphash s s'
  unfolding Lifecycle.stop
  stop-Move s e = elim (Bool-cases s.queue_closed) [
    | inl t ↦ ground (arith, t)
    | inr t ↦ subst (Move siphash s) (some_inj (rw t at e)) Move.stop
  ]

  -- An access that the executable model makes is a move.
  pub step-Move :
      (s : System) {s' : System} (a : Action) → step siphash s a ≡ some s' → Move siphash s s'
  unfolding step
  step-Move s (takes i) e = OfWorker.take-Move siphash s i e
  step-Move s (claims i) e = OfWorker.claim-Move siphash s i e
  step-Move s (locks i) e = OfWorker.lock-Move siphash s i e
  step-Move s (requests i r) e = OfWorker.request-Move siphash s i r e
  step-Move s (sets i) e = OfWorker.set_entry-Move siphash s i e
  step-Move s (broadcasts i) e = OfWorker.broadcast-Move siphash s i e
  step-Move s (unlocks i) e = OfWorker.unlock-Move siphash s i e
  step-Move s (begins c t x y) e = OfClient.begin-Move siphash s c t x y e
  step-Move s (checks c) e = OfClient.check-Move siphash s c e
  step-Move s (sends c) e = OfClient.send-Move siphash s c e
  step-Move s (receives c) e = OfClient.receive_closed-Move siphash s c e
  step-Move s (rechecks c) e = OfClient.recheck-Move siphash s c e
  step-Move s (times_out c) e = OfClient.time_out-Move siphash s c e
  step-Move s (hands_over i c) e = OfClient.hand_over-Move siphash s c i e
  step-Move s (locks_ticket c) e = OfTicket.lock_ticket-Move siphash s c e
  step-Move s (looks c) e = OfTicket.look-Move siphash s c e
  step-Move s (decides c) e = OfTicket.decide-Move siphash s c e
  step-Move s starts e = start-Move s e
  step-Move s stops e = stop-Move s e
  step-Move s (copies_keys t) e = subst (Move siphash s) (some_inj e) (Move.copy t)
  step-Move s (deletes_keys t) e = subst (Move siphash s) (some_inj e) (Move.delete t)

  module _ (P : System → Type 0) (keep : (s s' : System) → P s → Move siphash s s' → P s') where
    pub run_keeps : (as' : List Action) {s s' : System} → P s → run siphash as' s ≡ some s' → P s'
    unfolding run
    run_keeps [] p e = subst P (some_inj e) p
    run_keeps (a ∷ as') {s} p e = elim (Option-cases (step siphash s a)) [
      | inl t ↦ ground (arith, t)
      | inr (s₁, t) ↦ run_keeps as' (keep s s₁ p (step-Move s a t)) (rw t at e)
    ]

-- ===== src/Requester/Ticket/Moves.antt =====
-- The accesses of a caller that has a ticket are moves.
use mathlib.Core.Path.{subst}
use gocryptsftp.Base.{ℕ, ◌≡◌, refl, inl, inr, some, arith, Bytes, Option-cases, some_inj}
use gocryptsftp.Requester.System.{ClientPc, looking, seen, System}
use gocryptsftp.Requester.Ticket.{lock_ticket_at, lock_ticket, look_at, look, decide_at, decide}
use gocryptsftp.Requester.Moves.{Move}

module _ (siphash : Bytes → ℕ) (s : System) (c : ℕ) where
  abbrev To : System → Type 0
  To = Move siphash s

  lock_ticket_at-Move :
      (pc : ClientPc) {s' : System} → s.clients c ≡ pc → lock_ticket_at s c pc ≡ some s' → To s'
  unfolding lock_ticket_at
  lock_ticket_at-Move (ClientPc.locking q n) at_c e = elim (Option-cases (s.lockers n)) [
    | inl t ↦ subst To (some_inj (rw (t, lock_ticket_at) at e)) (Move.lock_ticket c q n at_c t)
    | inr (o, t) ↦ ground (arith, t)
  ]
  lock_ticket_at-Move _ at_c e = cc

  pub lock_ticket-Move : {s' : System} → lock_ticket s c ≡ some s' → To s'
  unfolding lock_ticket
  lock_ticket-Move e = lock_ticket_at-Move (s.clients c) refl e

  look_at-Move :
      (pc : ClientPc) {s' : System} → s.clients c ≡ pc → look_at siphash s c pc ≡ some s' → To s'
  unfolding look_at
  look_at-Move (looking q n) at_c e = subst To (some_inj e) (Move.look c q n at_c)
  look_at-Move _ at_c e = cc

  pub look-Move : {s' : System} → look siphash s c ≡ some s' → To s'
  unfolding look
  look-Move e = look_at-Move (s.clients c) refl e

  decide_at-Move :
      (pc : ClientPc) {s' : System} → s.clients c ≡ pc → decide_at s c pc ≡ some s' → To s'
  unfolding decide_at
  decide_at-Move (seen q n o) at_c e = subst To (some_inj e) (Move.decide c q n o at_c)
  decide_at-Move _ at_c e = cc

  pub decide-Move : {s' : System} → decide s c ≡ some s' → To s'
  unfolding decide
  decide-Move e = decide_at-Move (s.clients c) refl e

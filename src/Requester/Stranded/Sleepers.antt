-- ===== src/Requester/Stranded/Sleepers.antt =====
-- A worker that nobody hears, and the callers that sleep on its ticket, under every schedule.
use gocryptsftp.Base.{
  ℕ, ◌≡◌, ◌≢◌, refl, sym, ap, ◌∙◌, inl, inr, some, List, arith, Bytes, ◌==◌, Bool-cases,
}
use gocryptsftp.Requester.Defs.{Work}
use gocryptsftp.Requester.System.{
  offering, broadcasting, Request, ClientPc, idle, checking, sending, receiving, received, looking,
  seen, asleep, System, update, new_requester,
}
use gocryptsftp.Requester.Worker.{wake}
use gocryptsftp.Requester.Client.{cached, rechecked}
use gocryptsftp.Requester.Steps.{Action, run, copy_keys, delete_copied}
use gocryptsftp.Requester.Moves.{Move, take, drop, claim, close, pass_on, recheck_with-clients}
use gocryptsftp.Requester.Moves.Run.{run_keeps}
use gocryptsftp.Requester.Channels.{Addressed, OnWork}
use gocryptsftp.Requester.Channels.Moves.{run-ChannelsOk}
use gocryptsftp.Requester.Stranded.{Deaf, Stranded}
use gocryptsftp.Requester.Stranded.Moves.{move-Stranded, update_other}

module _ (siphash : Bytes → ℕ) (i : ℕ) (w : Work) (c : ℕ) (q : Request) where
  module _ (s : System) (sleeps : s.clients c ≡ asleep q i) where
    other_goes :
        (d : ℕ) (u v : ClientPc)
        → s.clients d ≡ u
        → u ≢ asleep q i
        → update s.clients d v c ≡ asleep q i
    other_goes d u v at_d ne = update_other s.clients d u v c (asleep q i) at_d ne sleeps

    not_woken :
        (j : ℕ)
        → s.workers j ≡ broadcasting
        → s.workers i ≡ offering w
        → wake j (s.clients c) ≡ asleep q i
    unfolding wake
    not_woken j at_j at_i = elim (Bool-cases (j == i)) [
      | inl t ↦
          let same : j ≡ i = ground (arith, t) in
          let clash : broadcasting ≡ offering w = (sym at_j ∙ ap s.workers same ∙ at_i) in cc
      | inr t ↦ rw (sleeps, wake, t) refl
    ]

  sleeps_on :
      (s s' : System)
      → Stranded i w s
      → s.clients c ≡ asleep q i
      → Move siphash s s'
      → s'.clients c ≡ asleep q i
  unfolding copy_keys delete_copied
  sleeps_on s _ inv h (take j v rest a b) = h
  sleeps_on s _ inv h (Move.exit j a b) = h
  sleeps_on s _ inv h (Move.start a) = h
  sleeps_on s _ inv h Move.stop = h
  sleeps_on s _ inv h (drop j v a) = h
  sleeps_on s _ inv h (claim j v a b d) = h
  sleeps_on s _ inv h (close j v e a b d) = h
  sleeps_on s _ inv h (pass_on j v e a b d) = h
  sleeps_on s _ inv h (Move.lock j v a b) = h
  sleeps_on s _ inv h (Move.request j v r e a b) = h
  sleeps_on s _ inv h (Move.set j v e a) = h
  sleeps_on s _ inv h (Move.broadcast j a) = not_woken s h j a inv.offers
  sleeps_on s _ inv h (Move.unlock j a) = h
  sleeps_on s _ inv h (Move.begin d p a b) = other_goes s h d idle _ a (λ e. cc)
  sleeps_on s _ inv h (Move.check d p a) = other_goes s h d (checking p) _ a (λ e. cc)
  sleeps_on s _ inv h (Move.send d p a b) = other_goes s h d (sending p) _ a (λ e. cc)
  sleeps_on s _ inv h (Move.receive_closed d p ch a b) =
      other_goes s h d (receiving p ch) _ a (λ e. cc)
  sleeps_on s _ inv h (Move.recheck d p t a) =
      let r = rechecked siphash p t (cached siphash s p) in
      ap (λ cs. cs c) (recheck_with-clients siphash s d p r)
      ∙ other_goes s h d (received p t) r.0 a (λ e. cc)
  sleeps_on s _ inv h (Move.time_out d p ch a) = other_goes s h d (receiving p ch) _ a (λ e. cc)
  sleeps_on s _ inv h (Move.lock_ticket d p n a b) =
      other_goes s h d (ClientPc.locking p n) _ a (λ e. cc)
  sleeps_on s _ inv h (Move.look d p n a) = other_goes s h d (looking p n) _ a (λ e. cc)
  sleeps_on s _ inv h (Move.decide d p n o a) = other_goes s h d (seen p n o) _ a (λ e. cc)
  sleeps_on s _ inv h (Move.hand_over j d v p a b) =
      other_goes s h d (receiving p v.resp_chan) _ b (λ e. cc)
  sleeps_on s _ inv h (Move.reply j d v n p a b) =
      other_goes s h d (receiving p v.resp_chan) _ b (λ e. cc)
  sleeps_on s _ inv h (Move.copy t) = h
  sleeps_on s _ inv h (Move.delete t) = h

  asleep_forever :
      (more : List Action) {s s' : System}
      → Stranded i w s
      → s.clients c ≡ asleep q i
      → run siphash more s ≡ some s'
      → s'.clients c ≡ asleep q i
  asleep_forever more inv h e =
      (run_keeps siphash (λ s. Stranded i w s × (s.clients c ≡ asleep q i))
        (λ s s' both move.
          (move-Stranded siphash i w s s' both.0 move, sleeps_on s s' both.0 both.1 move))
        more (inv, h) e).1

module _ (siphash : Bytes → ℕ) where
  -- In a state that a new requester can reach let worker `i` stand before the send of its own ticket,
  -- on a channel on which no caller receives any more. Then, under every further schedule, it stands
  -- there still, and each caller that sleeps on the worker's ticket sleeps still.
  pub stranded_forever :
      (num_workers : ℕ) (as' more : List Action) {s s' : System} (i : ℕ) (w : Work)
      → run siphash as' (new_requester num_workers) ≡ some s
      → s.workers i ≡ offering w
      → ((c : ℕ) (q : Request) → s.clients c ≢ receiving q w.resp_chan)
      → run siphash more s ≡ some s'
      → (s'.workers i ≡ offering w)
        × ((c : ℕ) (q : Request) → s.clients c ≡ asleep q i → s'.clients c ≡ asleep q i)
  stranded_forever num_workers as' more {s} i w e at_i unheard e' = (
    (run_keeps siphash (Stranded i w) (move-Stranded siphash i w) more inv e').offers,
    λ c q h. asleep_forever siphash i w c q more inv h e',
  )
    where
      deaf : (c : ℕ) (pc : ClientPc) → s.clients c ≡ pc → Deaf w.resp_chan pc
      deaf c (receiving q k) at_c = λ same. unheard c q (rw same at at_c)
      deaf c _ at_c = tt

      issued : OnWork (Addressed s.next_chan s.clients) (offering w)
      issued = rw at_i at ((run-ChannelsOk siphash num_workers as' e).at_work i)

      inv : Stranded i w s
      inv = record { offers = at_i; issued = issued.0; deaf = λ c. deaf c (s.clients c) refl }

-- ===== src/Requester/Channels/Moves.antt =====
-- No access puts a caller's channel on the work of another request.
use mathlib.Core.Path.{subst}
use gocryptsftp.Base.{sym, ℕ, ◌≡◌, refl, ◌⊎◌, inl, inr, Bool, true, false, some, List, ◌∷◌, Bytes}
use gocryptsftp.Requester.Defs.{Work}
use gocryptsftp.Requester.System.{
  waiting, started, offering, replying, Request, ClientPc, receiving, System, new_requester, exited,
}
use gocryptsftp.Requester.Lifecycle.{born_unseen}
use gocryptsftp.Requester.Worker.{wake}
use gocryptsftp.Requester.Client.{cached, rechecked, recheck_with}
use gocryptsftp.Requester.Steps.{Action, run, copy_keys, delete_copied}
use gocryptsftp.Requester.Moves.{Move, take, drop, claim, close, pass_on}
use gocryptsftp.Requester.Moves.Away.{away-checked, away-rechecked}
use gocryptsftp.Requester.Moves.Run.{run_keeps}
use gocryptsftp.Requester.Channels.{IsWorkOf, Addressed, EachWork, ChannelsOk, OnWork}
use gocryptsftp.Requester.Channels.Points.{
  deaf, deaf-away, deaf-after_look, wake-receiving, fewer, client_goes, worker_goes, work_at, sent,
}

module _ (siphash : Bytes → ℕ) where
  recheck_goes :
      (s : System)
      → ChannelsOk s
      → (c : ℕ) (q : Request) (r : ClientPc × Bool) → deaf r.0 ≡ true
      → ChannelsOk (recheck_with siphash s c q r)
  unfolding recheck_with
  recheck_goes s inv c q (pc, false) out = client_goes inv c pc out
  recheck_goes s inv c q (pc, true) out = client_goes inv c pc out

  pub move-ChannelsOk : (s s' : System) → ChannelsOk s → Move siphash s s' → ChannelsOk s'
  unfolding copy_keys delete_copied
  move-ChannelsOk s _ inv (take i w rest a b) =
      let (first, others) : EachWork (Addressed s.next_chan s.clients) (w ∷ rest) =
        rw b at inv.queued in
      worker_goes
        (record {
          queued = others;
          at_work = inv.at_work;
          receivers = inv.receivers;
          own = inv.own;
        })
        i (started w) first
  move-ChannelsOk s _ inv (Move.exit i a b) = worker_goes inv i exited tt
  move-ChannelsOk s _ inv (Move.start a) = record {
    queued = inv.queued;
    at_work = λ j.
        subst (λ X. X)
          (sym (born_unseen (OnWork (Addressed s.next_chan s.clients)) s.num_workers _ _ refl))
          (inv.at_work j);
    receivers = inv.receivers;
    own = inv.own;
  }
  move-ChannelsOk s _ inv Move.stop = inv
  move-ChannelsOk s _ inv (drop i w a) = worker_goes inv i waiting tt
  move-ChannelsOk s _ inv (claim i w a b d) =
      worker_goes inv i (offering w) (work_at inv i (started w) a)
  move-ChannelsOk s _ inv (close i w e a b d) = worker_goes inv i waiting tt
  move-ChannelsOk s _ inv (pass_on i w e a b d) =
      worker_goes inv i (replying w e.locker_num) (work_at inv i (started w) a)
  move-ChannelsOk s _ inv (Move.lock i w a b) = worker_goes inv i _ tt
  move-ChannelsOk s _ inv (Move.request i w r e a b) = worker_goes inv i _ tt
  move-ChannelsOk s _ inv (Move.set i w e a) = worker_goes inv i _ tt
  move-ChannelsOk s _ inv (Move.broadcast i a) =
      worker_goes (fewer inv (λ c. wake i (s.clients c)) (λ c. wake-receiving i (s.clients c))) i _
        tt
  move-ChannelsOk s _ inv (Move.unlock i a) = worker_goes inv i _ tt
  move-ChannelsOk s _ inv (Move.begin c q a b) = client_goes inv c _ refl
  move-ChannelsOk s _ inv (Move.check c q a) =
      client_goes inv c _ (deaf-away _ (away-checked siphash q (cached siphash s q)))
  move-ChannelsOk s _ inv (Move.send c q a b) = sent inv c q _ refl (refl, refl, refl)
  move-ChannelsOk s _ inv (Move.receive_closed c q ch a b) = client_goes inv c _ refl
  move-ChannelsOk s _ inv (Move.recheck c q t a) =
      recheck_goes s inv c q (rechecked siphash q t (cached siphash s q))
        (deaf-away _ (away-rechecked siphash q t (cached siphash s q)))
  move-ChannelsOk s _ inv (Move.time_out c q ch a) = client_goes inv c _ refl
  move-ChannelsOk s _ inv (Move.lock_ticket c q n a b) = client_goes inv c _ refl
  move-ChannelsOk s _ inv (Move.look c q n a) = client_goes inv c _ refl
  move-ChannelsOk s _ inv (Move.decide c q n o a) = client_goes inv c _ (deaf-after_look q n o)
  move-ChannelsOk s _ inv (Move.hand_over i c w q a b) =
      worker_goes (client_goes inv c _ refl) i _ tt
  move-ChannelsOk s _ inv (Move.reply i c w n q a b) = worker_goes (client_goes inv c _ refl) i _ tt
  move-ChannelsOk s _ inv (Move.copy t) = inv
  move-ChannelsOk s _ inv (Move.delete t) = inv

  new-ChannelsOk : (num_workers : ℕ) → ChannelsOk (new_requester num_workers)
  unfolding new_requester
  new-ChannelsOk num_workers = record {
    queued = tt;
    at_work = λ i. tt;
    receivers = λ c. tt;
    own = λ c d q p k a b. cc;
  }

  pub run-ChannelsOk :
      (num_workers : ℕ) (as' : List Action) {s : System}
      → run siphash as' (new_requester num_workers) ≡ some s
      → ChannelsOk s
  run-ChannelsOk num_workers as' e =
      run_keeps siphash ChannelsOk move-ChannelsOk as' (new-ChannelsOk num_workers) e

  -- In every state that a new requester can reach: when a worker sends a ticket to a caller that
  -- receives on the channel, the work that the ticket answers has the type and the arguments of the
  -- request that this caller has made, and no other caller receives on the channel.
  pub ticket_for_own_request :
      (num_workers : ℕ) (as' : List Action) {s : System} (i c n : ℕ) (w : Work) (q : Request)
      → run siphash as' (new_requester num_workers) ≡ some s
      → (s.workers i ≡ offering w) ⊎ (s.workers i ≡ replying w n)
      → s.clients c ≡ receiving q w.resp_chan
      → IsWorkOf q w × ((d : ℕ) (p : Request) → s.clients d ≡ receiving p w.resp_chan → d ≡ c)
  ticket_for_own_request num_workers as' {s} i c n w q e at_i at_c =
      let inv = run-ChannelsOk num_workers as' e in
      (of at_i, λ d p at_d. inv.own d c p q w.resp_chan at_d at_c)
    where
      of : (s.workers i ≡ offering w) ⊎ (s.workers i ≡ replying w n) → IsWorkOf q w
      of (inl a) = (work_at (run-ChannelsOk num_workers as' e) i (offering w) a).1 c q at_c
      of (inr a) = (work_at (run-ChannelsOk num_workers as' e) i (replying w n) a).1 c q at_c

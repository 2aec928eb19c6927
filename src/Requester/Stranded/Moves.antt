-- ===== src/Requester/Stranded/Moves.antt =====
-- No access of any goroutine frees such a worker, or wakes those that sleep on its ticket.
use gocryptsftp.Base.{
  ℕ, ◌≡◌, ◌≢◌, refl, sym, ap, ◌∙◌, inl, inr, Bool, true, false, Option, some, arith, Bytes, ◌==◌,
  Bool-cases,
}
use gocryptsftp.Requester.Moves.Cases.{after_look_cases, wake_cases}
use gocryptsftp.Requester.Defs.{Entry, Work}
use gocryptsftp.Requester.System.{
  WorkerPc, absent, waiting, started, offering, replying, requesting, setting, broadcasting,
  unlocking, Request, ClientPc, receiving, received, System, update, update-elim,
}
use gocryptsftp.Requester.Lifecycle.{born}
use gocryptsftp.Requester.Worker.{wake}
use gocryptsftp.Requester.Client.{cached, rechecked, recheck_with}
use gocryptsftp.Requester.Ticket.{after_look}
use gocryptsftp.Requester.Steps.{copy_keys, delete_copied}
use gocryptsftp.Requester.Moves.{Move, take, drop, claim, close, pass_on}
use gocryptsftp.Requester.Moves.Away.{away, away-checked, away-rechecked, away-settled}
use gocryptsftp.Requester.Stranded.{Deaf, Stranded}

Deaf-away : (ch : ℕ) (pc : ClientPc) → away pc ≡ true → Deaf ch pc
Deaf-away ch (receiving q k) h = cc
Deaf-away ch _ h = tt

Deaf-after_look : (ch : ℕ) (q : Request) (n : ℕ) (o : Option Entry) → Deaf ch (after_look q n o)
Deaf-after_look ch q n o =
    after_look_cases (Deaf ch) q n o (Deaf-away ch _ (away-settled q o)) (λ t. tt)

Deaf-wake : (ch i : ℕ) (pc : ClientPc) → Deaf ch pc → Deaf ch (wake i pc)
Deaf-wake ch i pc h = wake_cases (Deaf ch) i pc h (λ q a. tt)

-- Only the element that a change is at can be another one.
pub update_other {ℓ} :
    {A : Type ℓ} (f : ℕ → A) (j : ℕ) (u v : A) (i : ℕ) (a : A)
    → f j ≡ u
    → u ≢ a
    → f i ≡ a
    → update f j v i ≡ a
update_other f j u v i a at_j ne at_i = elim (Bool-cases (j == i)) [
  | inl t ↦ let same : j ≡ i = ground (arith, t) in absurd (ne (sym at_j ∙ ap f same ∙ at_i))
  | inr t ↦ rw t at_i
]

module _ (siphash : Bytes → ℕ) (i : ℕ) (w : Work) where
  born-offering : (n j : ℕ) (pc : WorkerPc) → pc ≡ offering w → born n j pc ≡ offering w
  unfolding born
  born-offering n j absent h = cc
  born-offering n j _ h = h

  module _ (s : System) (inv : Stranded i w s) where
    open inv use {offers, issued, deaf}

    other_worker :
        (j : ℕ) (u v : WorkerPc)
        → s.workers j ≡ u
        → u ≢ offering w
        → update s.workers j v i ≡ offering w
    other_worker j u v at_j ne = update_other s.workers j u v i (offering w) at_j ne offers

    client_deaf :
        (c : ℕ) (pc : ClientPc)
        → Deaf w.resp_chan pc
        → (d : ℕ) → Deaf w.resp_chan (update s.clients c pc d)
    client_deaf c pc new = update-elim (λ _. Deaf w.resp_chan) s.clients c pc new (λ d _. deaf d)

    worker_goes :
        (j : ℕ) (u v : WorkerPc) {s' : System}
        → s.workers j ≡ u
        → u ≢ offering w
        → s'.workers ≡ update s.workers j v
        → s'.next_chan ≡ s.next_chan
        → ((c : ℕ) → Deaf w.resp_chan (s'.clients c))
        → Stranded i w s'
    worker_goes j u v at_j ne ws ns cs = record {
      offers = rw ws (other_worker j u v at_j ne);
      issued = rw ns issued;
      deaf = cs;
    }

    client_goes :
        (c : ℕ) (pc : ClientPc)
        → Deaf w.resp_chan pc
        → Stranded i w (record s { clients = update s.clients c pc })
    client_goes c pc new = record { offers = offers; issued = issued; deaf = client_deaf c pc new }

    -- The worker that a receiver hears is another one.
    heard :
        (j c : ℕ) (w' : Work) (q : Request)
        → s.clients c ≡ receiving q w'.resp_chan
        → offering w' ≢ offering w
    heard j c w' q at_c same =
        let k : Deaf w.resp_chan (receiving q w'.resp_chan) = rw at_c at (deaf c) in
        k (ap resp same)
      where
        resp : WorkerPc → ℕ
        resp (offering v) = v.resp_chan
        resp _ = 0

    recheck_goes :
        (c : ℕ) (q : Request) (r : ClientPc × Bool)
        → Deaf w.resp_chan r.0
        → Stranded i w (recheck_with siphash s c q r)
    unfolding recheck_with
    recheck_goes c q (pc, false) new = client_goes c pc new
    recheck_goes c q (pc, true) new = record {
      offers = offers;
      issued = issued;
      deaf = client_deaf c pc new;
    }

  pub move-Stranded : (s s' : System) → Stranded i w s → Move siphash s s' → Stranded i w s'
  unfolding copy_keys delete_copied
  move-Stranded s _ inv (take j v rest a b) =
      worker_goes s inv j waiting _ a (λ e. cc) refl refl inv.deaf
  move-Stranded s _ inv (Move.exit j a b) =
      worker_goes s inv j waiting _ a (λ e. cc) refl refl inv.deaf
  move-Stranded s _ inv (Move.start a) = record {
    offers = born-offering s.num_workers i (s.workers i) inv.offers;
    issued = inv.issued;
    deaf = inv.deaf;
  }
  move-Stranded s _ inv Move.stop = record {
    offers = inv.offers;
    issued = inv.issued;
    deaf = inv.deaf;
  }
  move-Stranded s _ inv (drop j v a) =
      worker_goes s inv j (started v) _ a (λ e. cc) refl refl inv.deaf
  move-Stranded s _ inv (claim j v a b d) =
      worker_goes s inv j (started v) _ a (λ e. cc) refl refl inv.deaf
  move-Stranded s _ inv (close j v e a b d) =
      worker_goes s inv j (started v) _ a (λ e. cc) refl refl inv.deaf
  move-Stranded s _ inv (pass_on j v e a b d) =
      worker_goes s inv j (started v) _ a (λ e. cc) refl refl inv.deaf
  move-Stranded s _ inv (Move.lock j v a b) =
      worker_goes s inv j (WorkerPc.locking v) _ a (λ e. cc) refl refl inv.deaf
  move-Stranded s _ inv (Move.request j v r e a b) =
      worker_goes s inv j (requesting v) _ a (λ e. cc) refl refl inv.deaf
  move-Stranded s _ inv (Move.set j v e a) =
      worker_goes s inv j (setting v e) _ a (λ e. cc) refl refl inv.deaf
  move-Stranded s _ inv (Move.broadcast j a) =
      worker_goes s inv j broadcasting _ a (λ e. cc) refl refl
        (λ c. Deaf-wake w.resp_chan j (s.clients c) (inv.deaf c))
  move-Stranded s _ inv (Move.unlock j a) =
      worker_goes s inv j unlocking _ a (λ e. cc) refl refl inv.deaf
  move-Stranded s _ inv (Move.begin c q a b) = client_goes s inv c _ tt
  move-Stranded s _ inv (Move.check c q a) =
      client_goes s inv c _ (Deaf-away w.resp_chan _ (away-checked siphash q (cached siphash s q)))
  move-Stranded s _ inv (Move.send c q a b) = record {
    offers = inv.offers;
    issued = let h = inv.issued in omega arith;
    deaf =
        client_deaf s inv c (receiving q s.next_chan)
          (let h = inv.issued in λ e. omega (arith, h, e));
  }
  move-Stranded s _ inv (Move.receive_closed c q ch a b) = client_goes s inv c _ tt
  move-Stranded s _ inv (Move.recheck c q t a) =
      recheck_goes s inv c q (rechecked siphash q t (cached siphash s q))
        (Deaf-away w.resp_chan _ (away-rechecked siphash q t (cached siphash s q)))
  move-Stranded s _ inv (Move.time_out c q ch a) = client_goes s inv c _ tt
  move-Stranded s _ inv (Move.lock_ticket c q n a b) = record {
    offers = inv.offers;
    issued = inv.issued;
    deaf = client_deaf s inv c _ tt;
  }
  move-Stranded s _ inv (Move.look c q n a) = client_goes s inv c _ tt
  move-Stranded s _ inv (Move.decide c q n o a) = record {
    offers = inv.offers;
    issued = inv.issued;
    deaf = client_deaf s inv c _ (Deaf-after_look w.resp_chan q n o);
  }
  move-Stranded s _ inv (Move.hand_over j c v q a b) =
      worker_goes s inv j (offering v) _ a (heard s inv j c v q b) refl refl
        (client_deaf s inv c (received q (some j)) tt)
  move-Stranded s _ inv (Move.reply j c v n q a b) =
      worker_goes s inv j (replying v n) _ a (λ e. cc) refl refl
        (client_deaf s inv c (received q (some n)) tt)
  move-Stranded s _ inv (Move.copy t) = record {
    offers = inv.offers;
    issued = inv.issued;
    deaf = inv.deaf;
  }
  move-Stranded s _ inv (Move.delete t) = record {
    offers = inv.offers;
    issued = inv.issued;
    deaf = inv.deaf;
  }

-- ===== src/Requester/Mutex/Moves.antt =====
-- No access breaks the mutual exclusion on a ticket.
use gocryptsftp.Base.{ℕ, ◌≡◌, refl, sym, ap, ◌∙◌, Bool, true, false, Option, none, arith, Bytes}
use gocryptsftp.Requester.Moves.Cases.{after_look_cases}
use gocryptsftp.Requester.Defs.{Entry}
use gocryptsftp.Requester.System.{
  WorkerPc, unlocking, Request, ClientPc, looking, seen, asleep, System, update, update_unseen,
  new_requester,
}
use gocryptsftp.Requester.Lifecycle.{born_unseen}
use gocryptsftp.Requester.Worker.{wake}
use gocryptsftp.Requester.Client.{cached, rechecked, recheck_with}
use gocryptsftp.Requester.Ticket.{after_look}
use gocryptsftp.Requester.Steps.{Action, run}
use gocryptsftp.Requester.Moves.{Move, take, drop, claim, close, pass_on}
use gocryptsftp.Requester.Moves.Away.{away, away-checked, away-rechecked, away-settled}
use gocryptsftp.Requester.Mutex.{
  worker_holds, held, Exclusive, same-Exclusive, worker_enters, worker_leaves, client_enters,
  client_leaves,
}

-- In this state the lock of each ticket is held by whoever is in its critical section.
abbrev pub MutexOk : System → Type 0
MutexOk s = Exclusive s.lockers (λ i. worker_holds (s.workers i)) (λ c. held (s.clients c))

-- Outside the loop a caller has no lock.
held-away : (pc : ClientPc) → away pc ≡ true → held pc ≡ none
held-away (looking q n) h = cc
held-away (seen q n o) h = cc
held-away _ h = refl

pub held-after_look : (q : Request) (n : ℕ) (o : Option Entry) → held (after_look q n o) ≡ none
held-after_look q n o =
    after_look_cases (λ pc. held pc ≡ none) q n o (held-away _ (away-settled q o)) (λ t. refl)

held-wake : (i : ℕ) (pc : ClientPc) → held (wake i pc) ≡ held pc
unfolding wake
held-wake i (asleep q k) = ground arith
held-wake i _ = refl

module _ (siphash : Bytes → ℕ) where
  module _ (s : System) (inv : MutexOk s) where
    worker_goes :
        (i : ℕ) (pc : WorkerPc)
        → worker_holds pc ≡ worker_holds (s.workers i)
        → Exclusive s.lockers
            (λ j. worker_holds (update s.workers i pc j))
            (λ c. held (s.clients c))
    worker_goes i pc same =
        same-Exclusive inv _ _ (update_unseen worker_holds s.workers i pc same) (λ c. refl)

    client_goes :
        (c : ℕ) (pc : ClientPc)
        → held pc ≡ held (s.clients c)
        → Exclusive s.lockers
            (λ j. worker_holds (s.workers j))
            (λ d. held (update s.clients c pc d))
    client_goes c pc same =
        same-Exclusive inv _ _ (λ j. refl) (update_unseen held s.clients c pc same)

    both_go :
        (i c : ℕ) (v : WorkerPc) (pc : ClientPc)
        → worker_holds v ≡ worker_holds (s.workers i)
        → held pc ≡ held (s.clients c)
        → Exclusive s.lockers
            (λ j. worker_holds (update s.workers i v j))
            (λ d. held (update s.clients c pc d))
    both_go i c v pc w h =
        same-Exclusive inv _ _ (update_unseen worker_holds s.workers i v w)
          (update_unseen held s.clients c pc h)

    recheck_goes :
        (c : ℕ) (q : Request) (r : ClientPc × Bool)
        → held r.0 ≡ held (s.clients c)
        → MutexOk (recheck_with siphash s c q r)
    unfolding recheck_with
    recheck_goes c q (pc, false) same = client_goes c pc same
    recheck_goes c q (pc, true) same = client_goes c pc same

  pub move-MutexOk : (s s' : System) → MutexOk s → Move siphash s s' → MutexOk s'
  unfolding gocryptsftp.Requester.Steps.copy_keys gocryptsftp.Requester.Steps.delete_copied
  move-MutexOk s _ inv (take i w rest a b) = worker_goes s inv i _ (ap worker_holds (sym a))
  move-MutexOk s _ inv (Move.exit i a b) = worker_goes s inv i _ (ap worker_holds (sym a))
  move-MutexOk s _ inv (Move.start a) =
      same-Exclusive inv _ _ (λ j. born_unseen worker_holds s.num_workers j (s.workers j) refl)
        (λ c. refl)
  move-MutexOk s _ inv Move.stop = inv
  move-MutexOk s _ inv (drop i w a) = worker_goes s inv i _ (ap worker_holds (sym a))
  move-MutexOk s _ inv (claim i w a b d) = worker_goes s inv i _ (ap worker_holds (sym a))
  move-MutexOk s _ inv (close i w e a b d) = worker_goes s inv i _ (ap worker_holds (sym a))
  move-MutexOk s _ inv (pass_on i w e a b d) = worker_goes s inv i _ (ap worker_holds (sym a))
  move-MutexOk s _ inv (Move.lock i w a free) =
      same-Exclusive (worker_enters inv i free) _ _ (λ j. ground arith) (λ c. refl)
  move-MutexOk s _ inv (Move.request i w r e a b) = worker_goes s inv i _ (ap worker_holds (sym a))
  move-MutexOk s _ inv (Move.set i w e a) = worker_goes s inv i _ (ap worker_holds (sym a))
  move-MutexOk s _ inv (Move.broadcast i a) =
      same-Exclusive (worker_goes s inv i unlocking (ap worker_holds (sym a))) _ _ (λ j. refl)
        (λ c. held-wake i (s.clients c))
  move-MutexOk s _ inv (Move.unlock i a) =
      same-Exclusive (worker_leaves inv i (ap worker_holds a)) _ _ (λ j. ground arith) (λ c. refl)
  move-MutexOk s _ inv (Move.begin c q a b) = client_goes s inv c _ (ap held (sym a))
  move-MutexOk s _ inv (Move.check c q a) =
      client_goes s inv c _
        (held-away _ (away-checked siphash q (cached siphash s q)) ∙ ap held (sym a))
  move-MutexOk s _ inv (Move.send c q a b) = client_goes s inv c _ (ap held (sym a))
  move-MutexOk s _ inv (Move.receive_closed c q ch a b) = client_goes s inv c _ (ap held (sym a))
  move-MutexOk s _ inv (Move.recheck c q t a) =
      recheck_goes s inv c q (rechecked siphash q t (cached siphash s q))
        (held-away _ (away-rechecked siphash q t (cached siphash s q)) ∙ ap held (sym a))
  move-MutexOk s _ inv (Move.time_out c q ch a) = client_goes s inv c _ (ap held (sym a))
  move-MutexOk s _ inv (Move.lock_ticket c q n a free) =
      same-Exclusive (client_enters inv c n free (ap held a)) _ _ (λ j. refl) (λ d. ground arith)
  move-MutexOk s _ inv (Move.look c q n a) = client_goes s inv c _ (ap held (sym a))
  move-MutexOk s _ inv (Move.decide c q n o a) =
      same-Exclusive (client_leaves inv c n (ap held a)) _ _ (λ j. refl)
        (λ d. ground (arith, held-after_look q n o))
  move-MutexOk s _ inv (Move.hand_over i c w q a b) =
      both_go s inv i c _ _ (ap worker_holds (sym a)) (ap held (sym b))
  move-MutexOk s _ inv (Move.reply i c w n q a b) =
      both_go s inv i c _ _ (ap worker_holds (sym a)) (ap held (sym b))
  move-MutexOk s _ inv (Move.copy t) = inv
  move-MutexOk s _ inv (Move.delete t) = inv

  pub new-MutexOk : (num_workers : ℕ) → MutexOk (new_requester num_workers)
  unfolding new_requester
  new-MutexOk num_workers = record {
    workers_own = λ i h. cc;
    clients_own = λ c n h. cc;
    owners_hold = λ n o h. cc;
  }

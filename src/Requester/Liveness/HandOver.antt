-- ===== src/Requester/Liveness/HandOver.antt =====
-- From an offer of a ticket, or from a lock that another caller has, a schedule that lets a sleeper
-- go on.
use gocryptsftp.Base.{
  ℕ, ◌≡◌, refl, sym, ap, ◌∙◌, inl, inr, true, false, Option, none, some, arith, Bytes, ◌==◌,
  Bool-cases, Option-cases,
}
use gocryptsftp.Requester.Defs.{Entry, Work}
use gocryptsftp.Requester.System.{
  WorkerPc, offering, requesting, setting, broadcasting, Request, ClientPc, receiving, looking,
  seen, asleep, by_worker, by_client, System, update, update-same,
}
use gocryptsftp.Requester.Client.{cached}
use gocryptsftp.Requester.Steps.{looks, decides, hands_over, step}
use gocryptsftp.Requester.Mutex.{held, worker_holds}
use gocryptsftp.Requester.Wakeup.{busy, Attended}
use gocryptsftp.Requester.Ticket.Progress.{look_ready, decide_ready}
use gocryptsftp.Requester.Client.Progress.{hand_over_ready}
use gocryptsftp.Requester.Liveness.Chain.{
  Leaves, after, lock-Leaves, request-Leaves, set-Leaves, broadcast-Leaves,
}

module _ (siphash : Bytes → ℕ) (n c : ℕ) (q : Request) where
  abbrev Goes : System → Type 0
  Goes = Leaves siphash n c q

  -- Another caller lets go of the ticket first.
  module _ (d : ℕ) (other : (d == c) ≡ false) (p : Request) where
    owner_decides :
        (s : System) (w : Work) (o : Option Entry)
        → Attended siphash s
        → s.workers n ≡ WorkerPc.locking w
        → s.clients d ≡ seen p n o
        → s.clients c ≡ asleep q n
        → Goes s
    unfolding step
    owner_decides s w o inv at_n sees sleeps =
        after siphash n c q s (decides d) _ (decide_ready s d p n o sees) inv (λ inv'.
          lock-Leaves siphash n c q _ w inv' at_n (update-same s.lockers n none) (rw other sleeps))

    owner_looks :
        (s : System) (w : Work)
        → Attended siphash s
        → s.workers n ≡ WorkerPc.locking w
        → s.clients d ≡ looking p n
        → s.clients c ≡ asleep q n
        → Goes s
    unfolding step
    owner_looks s w inv at_n looks_at sleeps =
        after siphash n c q s (looks d) _ (look_ready s d p n siphash looks_at) inv (λ inv'.
          owner_decides _ w (cached siphash s p) inv' at_n (update-same s.clients d _)
            (rw other sleeps))

  owner-Goes :
      (s : System) (w : Work) (d : ℕ) (pc : ClientPc)
      → Attended siphash s
      → s.workers n ≡ WorkerPc.locking w
      → s.clients c ≡ asleep q n
      → s.clients d ≡ pc
      → held pc ≡ some n
      → Goes s
  owner-Goes s w d pc inv at_n sleeps at_d has = elim (Bool-cases (d == c)) [
    | inl t ↦
        let same : d ≡ c = ground (arith, t) in
        let h : held (asleep q n) ≡ some n =
          (ap held (sym sleeps) ∙ ap (λ x. held (s.clients x)) (sym same) ∙ ap held at_d ∙ has) in
        cc
    | inr t ↦ from pc at_d has t
  ]
    where
      from : (pc : ClientPc) → s.clients d ≡ pc → held pc ≡ some n → (d == c) ≡ false → Goes s
      from (looking p m) at_d has t =
          let same : m ≡ n = ground arith in
          owner_looks d t p s w inv at_n (rw (← same) at_d) sleeps
      from (seen p m o) at_d has t =
          let same : m ≡ n = ground arith in
          owner_decides d t p s w o inv at_n (rw (← same) at_d) sleeps
      from _ at_d has t = cc

  locking-Leaves :
      (s : System) (w : Work)
      → Attended siphash s
      → s.workers n ≡ WorkerPc.locking w
      → s.clients c ≡ asleep q n
      → Goes s
  locking-Leaves s w inv at_n sleeps = elim (Option-cases (s.lockers n)) [
    | inl free ↦ lock-Leaves siphash n c q s w inv at_n free sleeps
    | inr (by_client d, taken) ↦
        owner-Goes s w d (s.clients d) inv at_n sleeps refl
          (inv.mutex.owners_hold n (by_client d) taken)
    | inr (by_worker j, taken) ↦
        let (_, h) = inv.mutex.owners_hold n (by_worker j) taken in
        let f = ap worker_holds at_n in cc
  ]

  still_asleep :
      (s : System) (d : ℕ) (p : Request) (ch : ℕ) (pc : ClientPc)
      → s.clients d ≡ receiving p ch
      → s.clients c ≡ asleep q n
      → update s.clients d pc c ≡ asleep q n
  still_asleep s d p ch pc at_d sleeps = elim (Bool-cases (d == c)) [
    | inl t ↦
        let same : d ≡ c = ground (arith, t) in
        let h : receiving p ch ≡ asleep q n = (sym at_d ∙ ap s.clients same ∙ sleeps) in cc
    | inr t ↦ rw t sleeps
  ]

  offering-Leaves :
      (s : System) (w : Work) (d : ℕ) (p : Request)
      → Attended siphash s
      → s.workers n ≡ offering w
      → s.clients d ≡ receiving p w.resp_chan
      → s.clients c ≡ asleep q n
      → Goes s
  unfolding step
  offering-Leaves s w d p inv at_n at_d sleeps =
      after siphash n c q s (hands_over n d) _ (hand_over_ready s n d w p at_n at_d) inv (λ inv'.
        locking-Leaves _ w inv' (update-same s.workers n _)
          (still_asleep s d p w.resp_chan _ at_d sleeps))

  -- The worker has been heard, or will be.
  pub busy-Leaves :
      (s : System) (v : WorkerPc)
      → Attended siphash s
      → s.workers n ≡ v
      → busy v ≡ true
      → ((w : Work)
          → v ≡ offering w
          → (d : ℕ) × (p : Request) × (s.clients d ≡ receiving p w.resp_chan))
      → s.clients c ≡ asleep q n
      → Goes s
  busy-Leaves s (offering w) inv at_n b heard sleeps =
      let (d, p, at_d) = heard w refl in offering-Leaves s w d p inv at_n at_d sleeps
  busy-Leaves s (WorkerPc.locking w) inv at_n b heard sleeps = locking-Leaves s w inv at_n sleeps
  busy-Leaves s (requesting w) inv at_n b heard sleeps =
      request-Leaves siphash n c q s w inv at_n sleeps
  busy-Leaves s (setting w e) inv at_n b heard sleeps =
      set-Leaves siphash n c q s w e inv at_n sleeps
  busy-Leaves s broadcasting inv at_n b heard sleeps =
      broadcast-Leaves siphash n c q s inv at_n sleeps
  busy-Leaves s _ inv at_n b heard sleeps = cc

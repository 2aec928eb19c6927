-- ===== src/Requester/Liveness.antt =====
-- Callers that wait on a ticket of requester/requester.go: nobody sleeps without a worker that is
-- to wake it, and that worker can do so unless it waits for a receiver itself.
mod Chain
mod HandOver
use gocryptsftp.Base.{refl, ℕ, ◌≡◌, ◌≢◌, true, Option, some, List, Bytes, arith}
use gocryptsftp.Requester.Defs.{Entry, Work}
use gocryptsftp.Requester.System.{
  WorkerPc, offering, Request, ClientPc, receiving, asleep, System, new_requester,
}
use gocryptsftp.Requester.Steps.{Action, run}
use gocryptsftp.Requester.Ticket.{settled}
use gocryptsftp.Requester.Mutex.{worker_holds, held}
use gocryptsftp.Requester.Wakeup.{busy}
use gocryptsftp.Requester.Liveness.Chain.{Leaves}
use gocryptsftp.Requester.Liveness.HandOver.{busy-Leaves}
use gocryptsftp.Requester.Wakeup.Moves.{run-Attended}

module _ (siphash : Bytes → ℕ) where
  -- In every state that a new requester can reach, a caller between `ticket.Lock()` and the unlock of
  -- ticket `n` is the only one there, and worker `n` is not between its own `wt.Lock()` and
  -- `wt.Unlock()`.
  pub mutual_exclusion :
      (num_workers : ℕ) (as' : List Action) {s : System} (c n : ℕ)
      → run siphash as' (new_requester num_workers) ≡ some s
      → held (s.clients c) ≡ some n
      → ((d : ℕ) → held (s.clients d) ≡ some n → d ≡ c) × (worker_holds (s.workers n) ≢ true)
  mutual_exclusion num_workers as' c n e mine =
      let inv = (run-Attended siphash num_workers as' e).mutex in
      let owned = inv.clients_own c n mine in
      (
        λ d its. let other = inv.clients_own d n its in ground arith,
        λ its. let other = inv.workers_own n its in ground arith,
      )

  -- In every state that a new requester can reach, a caller that sleeps in `ticket.Wait()` on ticket
  -- `n` sleeps while worker `n` has claimed a key and has still to broadcast.
  pub no_lost_wakeup :
      (num_workers : ℕ) (as' : List Action) {s : System} (c : ℕ) (q : Request) (n : ℕ)
      → run siphash as' (new_requester num_workers) ≡ some s
      → s.clients c ≡ asleep q n
      → busy (s.workers n) ≡ true
  no_lost_wakeup num_workers as' c q n e sleeps =
      rw sleeps at ((run-Attended siphash num_workers as' e).watched c)

  -- From every state that a new requester can reach in which a caller sleeps in `ticket.Wait()` on
  -- ticket `n`, and in which a caller receives what worker `n` sends if it stands before that send,
  -- there is a schedule that takes the sleeper out of its loop, to what follows for some entry.
  pub sleeper_leaves :
      (num_workers : ℕ) (as' : List Action) {s : System} (c : ℕ) (q : Request) (n : ℕ)
      → run siphash as' (new_requester num_workers) ≡ some s
      → s.clients c ≡ asleep q n
      → ((w : Work)
          → s.workers n ≡ offering w
          → (d : ℕ) × (p : Request) × (s.clients d ≡ receiving p w.resp_chan))
      → (more : List Action) × (s' : System) × (o : Option Entry) × (run siphash more s ≡ some s')
        × (s'.clients c ≡ settled q o)
  sleeper_leaves num_workers as' {s} c q n e sleeps heard =
      busy-Leaves siphash n c q s (s.workers n) (run-Attended siphash num_workers as' e) refl
        (no_lost_wakeup num_workers as' c q n e sleeps) heard sleeps

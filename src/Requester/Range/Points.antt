-- ===== src/Requester/Range/Points.antt =====
-- The numbers of tickets at the points that a worker or a caller goes on to.
use gocryptsftp.Base.{ℕ, ◌+◌, ◌<◌, inl, inr, ◌&&◌, Option, arith, Bytes, ltb, Bool-cases}
use gocryptsftp.Requester.Moves.Cases.{
  retry_cases, settled_cases, after_look_cases, wake_cases, checked_cases, rechecked_cases,
}
use gocryptsftp.Requester.Defs.{Entry}
use gocryptsftp.Requester.System.{WorkerPc, absent, RetryErr, Request, ClientPc}
use gocryptsftp.Requester.Lifecycle.{born}
use gocryptsftp.Requester.Worker.{wake}
use gocryptsftp.Requester.Client.{retry, checked, rechecked}
use gocryptsftp.Requester.Ticket.{settled, after_look}
use gocryptsftp.Requester.Range.{WorkerIndexes, TicketIndexes, ClientIndexes}

pub born-WorkerIndexes :
    (n i : ℕ) (pc : WorkerPc) → WorkerIndexes n i pc → WorkerIndexes n i (born n i pc)
unfolding born
born-WorkerIndexes n i absent h = elim (Bool-cases (ltb 0 i && ltb i (n + 1))) [
  | inl t ↦ rw t (ground (arith, t))
  | inr t ↦ rw t tt
]
born-WorkerIndexes n i _ h = h

pub wake-ClientIndexes :
    (n i : ℕ) (pc : ClientPc) → ClientIndexes n pc → ClientIndexes n (wake i pc)
wake-ClientIndexes n i pc h = wake_cases (ClientIndexes n) i pc h (λ q a. rw a at h)

retry-ClientIndexes : (n : ℕ) (q : Request) (e : RetryErr) → ClientIndexes n (retry q e)
retry-ClientIndexes n q e = retry_cases (ClientIndexes n) q e (λ t. tt) (λ t. tt)

settled-ClientIndexes : (n : ℕ) (q : Request) (o : Option Entry) → ClientIndexes n (settled q o)
settled-ClientIndexes n q o =
    settled_cases (ClientIndexes n) q o (retry-ClientIndexes n q) (λ x. tt) (λ e p a b. tt)

pub after_look-ClientIndexes :
    (n : ℕ) (q : Request) (m : ℕ) (o : Option Entry)
    → m < n + 1
    → ClientIndexes n (after_look q m o)
after_look-ClientIndexes n q m o h =
    after_look_cases (ClientIndexes n) q m o (settled-ClientIndexes n q o) (λ t. h)

module _ (siphash : Bytes → ℕ) where
  pub checked-ClientIndexes :
      (n : ℕ) (q : Request) (o : Option Entry) → ClientIndexes n (checked siphash q o)
  checked-ClientIndexes n q o = checked_cases (ClientIndexes n) siphash q o tt (λ e p a b. tt)

  pub rechecked-ClientIndexes :
      (n : ℕ) (q : Request) (t : Option ℕ) (o : Option Entry)
      → TicketIndexes n t
      → ClientIndexes n (rechecked siphash q t o).0
  rechecked-ClientIndexes n q t o h =
      rechecked_cases (ClientIndexes n) siphash q t o (retry-ClientIndexes n q) (λ m a. rw a at h)
        (λ e p a b. tt)

-- ===== src/Requester/Range.antt =====
-- The numbers that index the slice `lockers` of requester/requester.go, which `New` makes with
-- `numWorkers + 1` elements.
mod Points
pub mod Moves
use gocryptsftp.Base.{ℕ, ◌+◌, ◌<◌, ◌≤◌, ◌≡◌, Option, none, some, Bytes, ◌≡◌}
use gocryptsftp.Requester.Defs.{Entry, WorkType, Work}
use gocryptsftp.Requester.System.{
  WorkerPc, absent, replying, setting, ClientPc, received, looking, seen, asleep, System,
}
use gocryptsftp.Requester.Entries.{Each}

-- The worker's own number, and the one of the ticket that it sends.
abbrev pub WorkerIndexes : ℕ → ℕ → WorkerPc → Type 0
WorkerIndexes n i absent = Unit
WorkerIndexes n i (replying w m) = (i < n + 1) × (m < n + 1)
WorkerIndexes n i (setting w e) = (i < n + 1) × (e.locker_num ≡ 0)
WorkerIndexes n i _ = i < n + 1

abbrev pub TicketIndexes : ℕ → Option ℕ → Type 0
TicketIndexes n none = Unit
TicketIndexes n (some m) = m < n + 1

-- The number of the ticket that a caller has.
abbrev pub ClientIndexes : ℕ → ClientPc → Type 0
ClientIndexes n (received q t) = TicketIndexes n t
ClientIndexes n (ClientPc.locking q m) = m < n + 1
ClientIndexes n (looking q m) = m < n + 1
ClientIndexes n (seen q m o) = m < n + 1
ClientIndexes n (asleep q m) = m < n + 1
ClientIndexes n _ = Unit

abbrev pub EntryIndexes : ℕ → WorkType → Bytes → Entry → Type 0
EntryIndexes n t k e = e.locker_num < n + 1

pub record InRange (n : ℕ) (s : System) : Type 0 where
  pub size : s.num_workers ≡ n
  pub workers_in : (i : ℕ) → WorkerIndexes n i (s.workers i)
  pub clients_in : (c : ℕ) → ClientIndexes n (s.clients c)
  pub entries_in : Each (EntryIndexes n) s.caches

-- ===== src/Requester/Wakeup.antt =====
-- The condition variable of a `workTicket` of requester/requester.go: whom a sleeper waits for.
pub mod Points
pub mod Moves
use gocryptsftp.Base.{ℕ, ◌≡◌, ◌≢◌, refl, Bool, true, false, Option, none, some, Bytes}
use gocryptsftp.Requester.Defs.{Entry, WorkType, work_none, Work, is_done}
use gocryptsftp.Requester.System.{
  Caches, WorkerPc, offering, requesting, setting, broadcasting, ClientPc, seen, asleep, System,
}
use gocryptsftp.Requester.Ticket.{breaks}
use gocryptsftp.Requester.Moves.{key_of}
use gocryptsftp.Requester.Entries.{Each}
use gocryptsftp.Requester.Mutex.Moves.{MutexOk}

-- A worker that has claimed a key and has still to broadcast.
abbrev pub busy : WorkerPc → Bool
busy (offering w) = true
busy (WorkerPc.locking w) = true
busy (requesting w) = true
busy (setting w e) = true
busy broadcasting = true
busy _ = false

-- The work that a worker has claimed has a type, and the number of a ticket is not stored with its
-- reply.
abbrev pub WorkOk : WorkerPc → Type 0
WorkOk (offering w) = w.request_type ≢ work_none
WorkOk (WorkerPc.locking w) = w.request_type ≢ work_none
WorkOk (requesting w) = w.request_type ≢ work_none
WorkOk (setting w e) = e.locker_num ≡ 0
WorkOk _ = Unit

-- A caller that sleeps on a ticket, or is about to, has a worker that will broadcast.
abbrev pub Watched : (ℕ → WorkerPc) → ClientPc → Type 0
Watched ws (asleep q n) = busy (ws n) ≡ true
Watched ws (seen q n o) = breaks n o ≡ false → busy (ws n) ≡ true
Watched ws _ = Unit

module _ (siphash : Bytes → ℕ) where
  abbrev pub IsFor : WorkType → Bytes → Work → Type 0
  IsFor t k w = (w.request_type ≡ t) × (key_of siphash w ≡ k)

  -- A worker that has claimed this key and has still to store the reply.
  abbrev pub Serves : WorkType → Bytes → WorkerPc → Type 0
  Serves t k (offering w) = IsFor t k w
  Serves t k (WorkerPc.locking w) = IsFor t k w
  Serves t k (requesting w) = IsFor t k w
  Serves t k (setting w e) = IsFor t k w
  Serves t k _ = ⊥

  -- An entry without data or error that carries a ticket's number has a worker that serves it.
  abbrev pub Pending : (ℕ → WorkerPc) → WorkType → Bytes → Entry → Type 0
  Pending ws t k e = is_done e ≡ false → e.locker_num ≢ 0 → Serves t k (ws e.locker_num)

  pub record Attended (s : System) : Type 0 where
    pub mutex : MutexOk s
    pub pending : Each (Pending s.workers) s.caches
    pub work_ok : (i : ℕ) → WorkOk (s.workers i)
    pub watched : (c : ℕ) → Watched s.workers (s.clients c)

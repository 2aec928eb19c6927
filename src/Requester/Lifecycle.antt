-- ===== src/Requester/Lifecycle.antt =====
-- `Start` and `Stop` of requester/requester.go. A panic ends the program, so that it is no step.
use gocryptsftp.Base.{
  ℕ, ◌+◌, ◌≡◌, refl, inl, inr, true, ◌&&◌, Option, none, some, if◌then◌else◌, ltb, Bool-cases, sym,
}
use gocryptsftp.Requester.System.{WorkerPc, absent, waiting, System}

-- `go r.worker(i)` for the numbers from 1 on
unfoldable pub born : ℕ → ℕ → WorkerPc → WorkerPc
born n i absent = if ltb 0 i && ltb i (n + 1) then waiting else absent
born n i pc = pc

abbrev pub begun : System → System
begun s = record s { is_started = true; workers = λ i. born s.num_workers i (s.workers i) }

-- `FileTree.Init` calls `Start` once, right after `New`.
unfoldable pub start : System → Option System
start s = if s.is_started then none else some (begun s)

-- `close(r.workQueue)`, which panics for a closed channel.
unfoldable pub stop : System → Option System
stop s = if s.queue_closed then none else some (record s { queue_closed = true })

-- What does not tell a worker that waits from one that is not born yet does not see `Start`.
pub born_unseen {ℓ} :
    {B : Type ℓ} (h : WorkerPc → B) (n i : ℕ) (pc : WorkerPc)
    → h absent ≡ h waiting
    → h (born n i pc) ≡ h pc
unfolding born
born_unseen h n i absent same = elim (Bool-cases (ltb 0 i && ltb i (n + 1))) [
  | inl t ↦ rw t (sym same)
  | inr t ↦ rw t refl
]
born_unseen h n i _ same = refl

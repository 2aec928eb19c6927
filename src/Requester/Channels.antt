-- ===== src/Requester/Channels.antt =====
-- The response channels of requester/makerequest.go: which work and which caller have one.
pub mod Points
pub mod Moves
use gocryptsftp.Base.{ℕ, ◌+◌, ◌<◌, ◌≡◌, List, [], ◌∷◌, ◌++◌, Option, some, Bytes, arith}
use gocryptsftp.Requester.Defs.{Work}
use gocryptsftp.Requester.System.{
  WorkerPc, started, offering, replying, ClientPc, receiving, Request, System,
}

abbrev pub IsWorkOf : Request → Work → Type 0
IsWorkOf q w = (w.request_type ≡ q.kind) × (w.arg1 ≡ q.arg1) × (w.arg2 ≡ q.arg2)

-- The work's channel has been made, and whoever receives on it has asked for this work.
abbrev pub Addressed : ℕ → (ℕ → ClientPc) → Work → Type 0
Addressed n cs w =
    (w.resp_chan < n) × ((c : ℕ) (q : Request) → cs c ≡ receiving q w.resp_chan → IsWorkOf q w)

abbrev pub EachWork : (Work → Type 0) → List Work → Type 0
EachWork P [] = Unit
EachWork P (w ∷ ws) = P w × EachWork P ws

-- The work whose answer the worker has still to send.
abbrev pub OnWork : (Work → Type 0) → WorkerPc → Type 0
OnWork P (started w) = P w
OnWork P (offering w) = P w
OnWork P (replying w n) = P w
OnWork P _ = Unit

abbrev pub ReceivesBelow : ℕ → ClientPc → Type 0
ReceivesBelow n (receiving q k) = k < n
ReceivesBelow n _ = Unit

pub record AddressedIn (n : ℕ) (queue : List Work) (ws : ℕ → WorkerPc) (cs : ℕ → ClientPc)
    : Type 0 where
  pub queued : EachWork (Addressed n cs) queue
  pub at_work : (i : ℕ) → OnWork (Addressed n cs) (ws i)
  pub receivers : (c : ℕ) → ReceivesBelow n (cs c)
  pub own : (c d : ℕ) (q p : Request) (k : ℕ) → cs c ≡ receiving q k → cs d ≡ receiving p k → c ≡ d

abbrev pub ChannelsOk : System → Type 0
ChannelsOk s = AddressedIn s.next_chan s.work_queue s.workers s.clients

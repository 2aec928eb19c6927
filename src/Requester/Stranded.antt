-- ===== src/Requester/Stranded.antt =====
-- A worker of requester/requester.go that sends its ticket on a channel with no receiver.
mod Moves
pub mod Sleepers
use gocryptsftp.Base.{ℕ, ◌+◌, ◌<◌, ◌≡◌, ◌≢◌, Option, some, List, [], ◌∷◌, ◌++◌, Bytes, arith}
use gocryptsftp.Requester.Defs.{Work}
use gocryptsftp.Requester.System.{
  WorkerPc, started, offering, replying, ClientPc, receiving, asleep, Request, System,
  new_requester,
}

-- The caller does not receive on this channel.
abbrev pub Deaf : ℕ → ClientPc → Type 0
Deaf ch (receiving q k) = k ≢ ch
Deaf ch _ = Unit

-- Nobody will receive what the worker sends.
pub record Stranded (i : ℕ) (w : Work) (s : System) : Type 0 where
  pub offers : s.workers i ≡ offering w
  pub issued : w.resp_chan < s.next_chan
  pub deaf : (c : ℕ) → Deaf w.resp_chan (s.clients c)

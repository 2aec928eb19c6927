-- ===== src/Requester/Client/Progress.antt =====
-- A ticket that a worker offers can be handed to the caller that receives on its channel.
use gocryptsftp.Base.{ℕ, ◌≡◌, refl, some, true, arith, ◌==◌}
use gocryptsftp.Requester.Defs.{Work}
use gocryptsftp.Requester.System.{WorkerPc, offering, Request, receiving, received, System, update}
use gocryptsftp.Requester.Client.{hand_over_at, hand_over}

pub hand_over_ready :
    (s : System) (i c : ℕ) (w : Work) (q : Request)
    → s.workers i ≡ offering w
    → s.clients c ≡ receiving q w.resp_chan
    → hand_over s i c
      ≡ some (record s {
        workers = update s.workers i (WorkerPc.locking w);
        clients = update s.clients c (received q (some i));
      })
unfolding hand_over hand_over_at
hand_over_ready s i c w q a b =
    let same : (w.resp_chan == w.resp_chan) ≡ true = ground arith in rw (a, b) (rw same refl)

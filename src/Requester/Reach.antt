-- ===== src/Requester/Reach.antt =====
-- Every schedule from a new requester.
use gocryptsftp.Base.{ℕ, ◌≡◌, some, List, [], Bytes}
use gocryptsftp.Requester.Defs.{Payload}
use gocryptsftp.Requester.System.{Request, ok, done, System, new_requester, request_key}
use gocryptsftp.Requester.Coherence.{Backed, Answered, Coherent}
use gocryptsftp.Requester.Entries.{new-Each}
use gocryptsftp.Requester.Steps.{Action, run}
use gocryptsftp.Requester.Moves.Run.{run_keeps}
use gocryptsftp.Requester.Coherence.Moves.{move-Coherent}

module _ (siphash : Bytes → ℕ) where
  new_requester-Coherent : (num_workers : ℕ) → Coherent siphash (new_requester num_workers)
  unfolding new_requester
  new_requester-Coherent num_workers = record {
    caches_ok = new-Each num_workers (Answered siphash []);
    workers_ok = λ i. tt;
    clients_ok = λ c. tt;
  }

  -- In every state that a new requester can reach, whatever the order in which its workers, its
  -- callers and `ClearCache` make their accesses, and whatever the backend and the decrypter
  -- answer: a payload that `makeRequest` returns was in a reply to work of the same type whose
  -- cache key is that of the request, and it has the dynamic type of that request.
  pub result_was_answered :
      (num_workers : ℕ) (as' : List Action) {s : System} (c : ℕ) (q : Request) (p : Payload)
      → run siphash as' (new_requester num_workers) ≡ some s
      → s.clients c ≡ done q (ok p)
      → Backed siphash s.answers q.kind (request_key siphash q.arg1 q.arg2) p
  result_was_answered num_workers as' {s} c q p e is_done = rw is_done at (
      (run_keeps siphash (Coherent siphash) (move-Coherent siphash) as'
          (new_requester-Coherent num_workers) e).clients_ok
        c)

-- ===== src/Requester/Tests.antt =====
-- The requester under concrete schedules.
use gocryptsftp.Base.{
  ℕ, ◌≡◌, refl, Option, none, some, List, [], ◌∷◌, ◌++◌, arith, Bytes, bytes_eq, lookup, insert,
  delete, codes,
}
use mathlib.Core.Option
use gocryptsftp.Requester.Defs.{work_read_file, is_done, file_data}
use gocryptsftp.Requester.Key.{hex_digit, hex_digits, complex_key, complex_key-injective}
use gocryptsftp.Requester.SyncCache.{
  get, put, get_or_insert, remove, keys_to_delete, delete_keys, clear_cache, holds,
}
use gocryptsftp.Requester.System.{
  Request, ok, no_success, data_missing, file_reply, done, System, new_requester, ClientPc,
  cache_of, set_cache, reply_entry, request_key, work_key,
}
use gocryptsftp.Requester.Lifecycle.{born, start, stop}
use gocryptsftp.Requester.Worker.{take, claim, set_entry, lock, request, wake, broadcast, unlock}
use gocryptsftp.Requester.Client.{
  retry, begin, checked, check, rechecked, recheck, send, is_closed, receive_closed, hand_over,
  time_out,
}
use gocryptsftp.Requester.Ticket.{settled, breaks, look, after_look, decide, lock_ticket}
use gocryptsftp.Requester.Reach.{result_was_answered}
use gocryptsftp.Requester.Results.{Delivers, result-Delivers}
use gocryptsftp.Requester.Coherence.{Backed}
use gocryptsftp.Requester.Steps.{
  Action, starts, takes, claims, locks, sets, broadcasts, unlocks, requests, begins, checks, sends,
  rechecks, locks_ticket, looks, decides, hands_over, step, run, copy_keys, delete_copied,
}

program : Unit {0}
unfolding born start stop is_done hex_digit hex_digits complex_key get put get_or_insert remove
    keys_to_delete delete_keys clear_cache holds new_requester cache_of set_cache reply_entry
    request_key work_key take claim set_entry lock request wake broadcast unlock retry begin checked
    check rechecked recheck settled breaks look after_look decide send is_closed receive_closed
    hand_over time_out lock_ticket copy_keys delete_copied step run bytes_eq lookup insert delete
program = tt

abbrev hash : Bytes → ℕ
hash b = 5

abbrev path : Bytes
path = codes "/x"

outcome : List Action → Option ClientPc
unfolding program
outcome as' = Option.map (λ (s : System). s.clients 0) (run hash (starts ∷ as') (new_requester 2))

reads_file :
    outcome (
      begins 0 work_read_file path []
      ∷ checks 0
      ∷ sends 0
      ∷ takes 1
      ∷ claims 1
      ∷ hands_over 1 0
      ∷ rechecks 0
      ∷ locks_ticket 0
      ∷ looks 0
      ∷ decides 0
      ∷ locks 1
      ∷ requests 1 (file_reply (codes "hi") none)
      ∷ sets 1
      ∷ broadcasts 1
      ∷ unlocks 1
      ∷ locks_ticket 0
      ∷ looks 0
      ∷ decides 0
      ∷ [])
    ≡ some (
        done
          (record { kind = work_read_file; arg1 = path; arg2 = []; attempt = 0; retry_errs = [] })
          (ok (file_data (codes "hi"))))
unfolding outcome program
reads_file = refl

-- A file with no bytes. Its reply is stored with neither data nor error, which `makeRequest` takes
-- for work that is still to be done: after three attempts the call fails.

-- Caller 0 and worker 1, undisturbed: the worker serves the request before the caller looks.
abbrev first_attempt : Bytes → List Action
first_attempt path =
    begins 0 work_read_file path []
    ∷ checks 0
    ∷ sends 0
    ∷ takes 1
    ∷ claims 1
    ∷ hands_over 1 0
    ∷ locks 1
    ∷ requests 1 (file_reply [] none)
    ∷ sets 1
    ∷ broadcasts 1
    ∷ unlocks 1
    ∷ rechecks 0
    ∷ locks_ticket 0
    ∷ looks 0
    ∷ decides 0
    ∷ []

-- The entry is there now, so the worker passes on its ticket, number 0.
abbrev later_attempt : List Action
later_attempt =
    checks 0
    ∷ sends 0
    ∷ takes 1
    ∷ claims 1
    ∷ hands_over 1 0
    ∷ rechecks 0
    ∷ locks_ticket 0
    ∷ looks 0
    ∷ decides 0
    ∷ []

empty_file :
    outcome (first_attempt path ++ (later_attempt ++ later_attempt))
    ≡ some (
        done
          (record {
            kind = work_read_file;
            arg1 = path;
            arg2 = [];
            attempt = 3;
            retry_errs = data_missing ∷ data_missing ∷ data_missing ∷ [];
          })
          (no_success (data_missing ∷ data_missing ∷ data_missing ∷ [])))
unfolding outcome program
empty_file = refl

abbrev read_schedule : List Action
read_schedule =
    starts
    ∷ begins 0 work_read_file path []
    ∷ checks 0
    ∷ sends 0
    ∷ takes 1
    ∷ claims 1
    ∷ hands_over 1 0
    ∷ locks 1
    ∷ requests 1 (file_reply (codes "hi") none)
    ∷ sets 1
    ∷ rechecks 0
    ∷ []

abbrev read_request : Request
read_request = record {
  kind = work_read_file;
  arg1 = path;
  arg2 = [];
  attempt = 0;
  retry_errs = [];
}

reached : System
unfolding program
reached = Option.get_or (run hash read_schedule (new_requester 2)) (new_requester 2)

reached-run : run hash read_schedule (new_requester 2) ≡ some reached
unfolding reached program
reached-run = refl

reached_client : reached.clients 0 ≡ done read_request (ok (file_data (codes "hi")))
unfolding reached program
reached_client = refl

result_was_answered_example :
    Backed hash reached.answers work_read_file (request_key hash path []) (file_data (codes "hi"))
result_was_answered_example =
    result_was_answered hash 2 read_schedule 0 read_request (file_data (codes "hi")) reached-run
      reached_client

complex_key-injective_example : (◌≡◌ {A = Bytes} path path) × (hash (1 ∷ []) ≡ hash (2 ∷ []))
unfolding program
complex_key-injective_example =
    complex_key-injective hash path path (1 ∷ []) (2 ∷ []) (omega arith) (omega arith) refl

result-Delivers_example : Delivers work_read_file (file_data (codes "hi"))
result-Delivers_example =
    result-Delivers hash 2 read_schedule 0 read_request (file_data (codes "hi")) reached-run
      reached_client

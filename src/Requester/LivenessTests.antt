-- ===== src/Requester/LivenessTests.antt =====
-- Callers that sleep, and a worker that nobody hears, under concrete schedules.
use gocryptsftp.Base.{
  ℕ, zero, suc, ◌≡◌, ◌≢◌, refl, true, Option, some, List, [], ◌∷◌, ◌++◌, arith, Bytes, bytes_eq,
  lookup, insert, delete, codes, inl,
}
use mathlib.Core.Option
use gocryptsftp.Requester.Defs.{Entry, Work, work_read_file, is_done}
use gocryptsftp.Requester.Key.{hex_digit, hex_digits, complex_key}
use gocryptsftp.Requester.SyncCache.{
  get, put, get_or_insert, remove, keys_to_delete, delete_keys, clear_cache, holds,
}
use gocryptsftp.Requester.System.{
  Request, offering, receiving, asleep, System, new_requester, cache_of, set_cache, reply_entry,
  request_key, work_key,
}
use gocryptsftp.Requester.Lifecycle.{born, start, stop}
use gocryptsftp.Requester.Worker.{take, claim, set_entry, lock, request, wake, broadcast, unlock}
use gocryptsftp.Requester.Client.{
  retry, begin, checked, check, rechecked, recheck, send, is_closed, receive_closed, hand_over,
  time_out,
}
use gocryptsftp.Requester.Ticket.{settled, breaks, look, after_look, decide, lock_ticket}
use gocryptsftp.Requester.Steps.{
  Action, starts, takes, claims, begins, checks, sends, rechecks, times_out, locks_ticket, looks,
  decides, hands_over, step, run, copy_keys, delete_copied,
}
use gocryptsftp.Requester.Wakeup.{busy}
use gocryptsftp.Requester.Mutex.{worker_holds, held}
use gocryptsftp.Requester.Liveness.{mutual_exclusion, no_lost_wakeup, sleeper_leaves}
use gocryptsftp.Requester.Stranded.Sleepers.{stranded_forever}
use gocryptsftp.Requester.Channels.{IsWorkOf}
use gocryptsftp.Requester.Channels.Moves.{ticket_for_own_request}
use gocryptsftp.Requester.Range.{InRange}
use gocryptsftp.Requester.Range.Moves.{tickets-InRange}
use gocryptsftp.Requester.Attempts.{PcCounted, attempts_bounded}

program : Unit {0}
unfolding born start stop is_done hex_digit hex_digits complex_key get put get_or_insert remove
    keys_to_delete delete_keys clear_cache holds new_requester cache_of set_cache reply_entry
    request_key work_key take claim set_entry lock request wake broadcast unlock retry begin checked
    check rechecked recheck settled breaks look after_look decide send is_closed receive_closed
    hand_over time_out lock_ticket copy_keys delete_copied step run bytes_eq lookup insert delete
program = tt

abbrev hash : Bytes → ℕ
hash b = 5

abbrev path : Bytes
path = codes "/x"

abbrev asks : Request
asks = record { kind = work_read_file; arg1 = path; arg2 = []; attempt = 0; retry_errs = [] }

abbrev first_work : Work
first_work = record { request_type = work_read_file; arg1 = path; arg2 = []; resp_chan = 0 }

-- Caller 0 asks, and worker 1 claims the key.
abbrev claiming : List Action
claiming = starts ∷ begins 0 work_read_file path [] ∷ checks 0 ∷ sends 0 ∷ takes 1 ∷ claims 1 ∷ []

-- Caller 1 asks for the same file, gets the ticket of worker 1 from worker 2, and sleeps on it.
abbrev second_sleeps : List Action
second_sleeps =
    begins 1 work_read_file path []
    ∷ checks 1
    ∷ sends 1
    ∷ takes 2
    ∷ claims 2
    ∷ hands_over 2 1
    ∷ rechecks 1
    ∷ locks_ticket 1
    ∷ looks 1
    ∷ decides 1
    ∷ []

-- Caller 0 gives up before worker 1 has sent its ticket.
abbrev deserting : List Action
deserting = claiming ++ (second_sleeps ++ (times_out 0 ∷ []))

abbrev looking_on : List Action
looking_on = claiming ++ (hands_over 1 0 ∷ rechecks 0 ∷ locks_ticket 0 ∷ looks 0 ∷ [])

after : List Action → System
unfolding program
after as' = Option.get_or (run hash as' (new_requester 2)) (new_requester 2)

claiming-run : run hash claiming (new_requester 2) ≡ some (after claiming)
unfolding after program
claiming-run = refl

looking_on-run : run hash looking_on (new_requester 2) ≡ some (after looking_on)
unfolding after program
looking_on-run = refl

second_sleeps-run :
    run hash (claiming ++ second_sleeps) (new_requester 2)
    ≡ some (after (claiming ++ second_sleeps))
unfolding after program
second_sleeps-run = refl

deserting-run : run hash deserting (new_requester 2) ≡ some (after deserting)
unfolding after program
deserting-run = refl

mutual_exclusion_example :
    ((d : ℕ) → held ((after looking_on).clients d) ≡ some 1 → d ≡ 0)
    × (worker_holds ((after looking_on).workers 1) ≢ true)
unfolding after program
mutual_exclusion_example = mutual_exclusion hash 2 looking_on 0 1 looking_on-run refl

no_lost_wakeup_example : busy ((after (claiming ++ second_sleeps)).workers 1) ≡ true
unfolding after program
no_lost_wakeup_example =
    no_lost_wakeup hash 2 (claiming ++ second_sleeps) 1 asks 1 second_sleeps-run refl

first_receives :
    (w : Work)
    → (after (claiming ++ second_sleeps)).workers 1 ≡ offering w
    → (d : ℕ) × (p : Request) × ((after (claiming ++ second_sleeps)).clients d
        ≡ receiving p w.resp_chan)
unfolding after program
first_receives w e = (0, asks, cc)

sleeper_leaves_example :
    (more : List Action) × (s' : System) × (o : Option Entry) × (run hash more
        (after (claiming ++ second_sleeps))
      ≡ some s')
    × (s'.clients 1 ≡ settled asks o)
unfolding after program
sleeper_leaves_example =
    sleeper_leaves hash 2 (claiming ++ second_sleeps) 1 asks 1 second_sleeps-run refl first_receives

nobody_receives :
    (c : ℕ) (q : Request) → (after deserting).clients c ≢ receiving q first_work.resp_chan
unfolding after program
nobody_receives zero q = λ e. cc
nobody_receives (suc zero) q = λ e. cc
nobody_receives (suc (suc c)) q = λ e. ground (arith, e)

further-run :
    run hash (begins 2 work_read_file path [] ∷ []) (after deserting)
    ≡ some (after (deserting ++ (begins 2 work_read_file path [] ∷ [])))
unfolding after program
further-run = refl

stranded_forever_example :
    ((after (deserting ++ (begins 2 work_read_file path [] ∷ []))).workers 1 ≡ offering first_work)
    × ((c : ℕ) (q : Request)
        → (after deserting).clients c ≡ asleep q 1
        → (after (deserting ++ (begins 2 work_read_file path [] ∷ []))).clients c ≡ asleep q 1)
unfolding after program
stranded_forever_example =
    stranded_forever hash 2 deserting (begins 2 work_read_file path [] ∷ []) 1 first_work
      deserting-run refl nobody_receives further-run

ticket_for_own_request_example : IsWorkOf asks first_work
unfolding after program
ticket_for_own_request_example =
    (ticket_for_own_request hash 2 claiming 1 0 0 first_work asks claiming-run (inl refl) refl).0

attempts_bounded_example : PcCounted ((after deserting).clients 1)
attempts_bounded_example = attempts_bounded hash 2 deserting 1 deserting-run

tickets-InRange_example : InRange 2 (after (claiming ++ second_sleeps))
tickets-InRange_example = tickets-InRange hash 2 (claiming ++ second_sleeps) second_sleeps-run

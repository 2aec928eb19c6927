-- ===== src/Requester/Attempts.antt =====
-- The `for` loop of `makeRequest` in requester/makerequest.go, and its `retryErrs`.
use mathlib.Core.Path.{subst}
use gocryptsftp.Base.{
  ℕ, ◌+◌, ◌<◌, ◌≡◌, ◌∙◌, refl, Bool, true, false, Option, some, List, [], ◌∷◌, ◌++◌, arith, Bytes,
  length,
}
use gocryptsftp.Requester.Moves.Cases.{
  retry_cases, settled_cases, after_look_cases, wake_cases, checked_cases, rechecked_cases,
}
use gocryptsftp.Requester.Defs.{Entry, cache_err_retry_attempts}
use gocryptsftp.Requester.System.{
  RetryErr, Outcome, no_success, Request, ClientPc, idle, checking, sending, receiving, received,
  looking, seen, asleep, done, System, update, update-elim, new_requester,
}
use gocryptsftp.Requester.Worker.{wake}
use gocryptsftp.Requester.Client.{retry, cached, checked, rechecked, recheck_with}
use gocryptsftp.Requester.Ticket.{settled, after_look}
use gocryptsftp.Requester.Steps.{Action, run, copy_keys, delete_copied}
use gocryptsftp.Requester.Moves.{Move}
use gocryptsftp.Requester.Moves.Run.{run_keeps}

-- The attempt that the request is in, with one error for each attempt before it.
abbrev pub Counted : Request → Type 0
Counted q = (q.attempt < cache_err_retry_attempts) × (length q.retry_errs ≡ q.attempt)

abbrev pub OutcomeCounted : Request → Outcome → Type 0
OutcomeCounted q (no_success errs) = length errs ≡ cache_err_retry_attempts
OutcomeCounted q _ = Counted q

abbrev pub PcCounted : ClientPc → Type 0
PcCounted idle = Unit
PcCounted (checking q) = Counted q
PcCounted (sending q) = Counted q
PcCounted (receiving q k) = Counted q
PcCounted (received q t) = Counted q
PcCounted (ClientPc.locking q n) = Counted q
PcCounted (looking q n) = Counted q
PcCounted (seen q n o) = Counted q
PcCounted (asleep q n) = Counted q
PcCounted (done q x) = OutcomeCounted q x

length-snoc {ℓ} : {A : Type ℓ} (l : List A) (a : A) → length (l ++ (a ∷ [])) ≡ length l + 1
length-snoc [] a = refl
length-snoc (x ∷ l) a = ground (arith, length-snoc l a)

retry-PcCounted : (q : Request) (e : RetryErr) → Counted q → PcCounted (retry q e)
retry-PcCounted q e (lt, n) =
    retry_cases PcCounted q e
      (λ t. (ground (arith, t), length-snoc q.retry_errs e ∙ omega (arith, n)))
      (λ t. length-snoc q.retry_errs e ∙ ground (arith, n, t, lt))

settled-PcCounted : (q : Request) (o : Option Entry) → Counted q → PcCounted (settled q o)
settled-PcCounted q o h =
    settled_cases PcCounted q o (λ e. retry-PcCounted q e h) (λ x. h) (λ e p a b. h)

after_look-PcCounted :
    (q : Request) (n : ℕ) (o : Option Entry) → Counted q → PcCounted (after_look q n o)
after_look-PcCounted q n o h = after_look_cases PcCounted q n o (settled-PcCounted q o h) (λ t. h)

wake-PcCounted : (i : ℕ) (pc : ClientPc) → PcCounted pc → PcCounted (wake i pc)
wake-PcCounted i pc h = wake_cases PcCounted i pc h (λ q a. rw a at h)

abbrev pub AllCounted : System → Type 0
AllCounted s = (c : ℕ) → PcCounted (s.clients c)

module _ (siphash : Bytes → ℕ) where
  checked-PcCounted : (q : Request) (o : Option Entry) → Counted q → PcCounted (checked siphash q o)
  checked-PcCounted q o h = checked_cases PcCounted siphash q o h (λ e p a b. h)

  rechecked-PcCounted :
      (q : Request) (t : Option ℕ) (o : Option Entry)
      → Counted q
      → PcCounted (rechecked siphash q t o).0
  rechecked-PcCounted q t o h =
      rechecked_cases PcCounted siphash q t o (λ e. retry-PcCounted q e h) (λ n a. h) (λ e p a b. h)

  module _ (s : System) (inv : AllCounted s) where
    goes : (c : ℕ) (pc : ClientPc) → PcCounted pc → (d : ℕ) → PcCounted (update s.clients c pc d)
    goes c pc new = update-elim (λ _. PcCounted) s.clients c pc new (λ d _. inv d)

    at : (c : ℕ) (pc : ClientPc) → s.clients c ≡ pc → PcCounted pc
    at c pc at_c = subst PcCounted at_c (inv c)

    recheck_goes :
        (c : ℕ) (q : Request) (r : ClientPc × Bool)
        → PcCounted r.0
        → AllCounted (recheck_with siphash s c q r)
    unfolding recheck_with
    recheck_goes c q (pc, false) new = goes c pc new
    recheck_goes c q (pc, true) new = goes c pc new

  move-AllCounted : (s s' : System) → AllCounted s → Move siphash s s' → AllCounted s'
  unfolding copy_keys delete_copied
  move-AllCounted s _ inv (Move.take i w rest a b) = inv
  move-AllCounted s _ inv (Move.exit i a b) = inv
  move-AllCounted s _ inv (Move.start a) = inv
  move-AllCounted s _ inv Move.stop = inv
  move-AllCounted s _ inv (Move.drop i w a) = inv
  move-AllCounted s _ inv (Move.claim i w a b d) = inv
  move-AllCounted s _ inv (Move.close i w e a b d) = inv
  move-AllCounted s _ inv (Move.pass_on i w e a b d) = inv
  move-AllCounted s _ inv (Move.lock i w a b) = inv
  move-AllCounted s _ inv (Move.request i w r e a b) = inv
  move-AllCounted s _ inv (Move.set i w e a) = inv
  move-AllCounted s _ inv (Move.broadcast i a) = λ c. wake-PcCounted i (s.clients c) (inv c)
  move-AllCounted s _ inv (Move.unlock i a) = inv
  move-AllCounted s _ inv (Move.begin c q a (_, first, no_errs)) =
      goes s inv c (checking q) (rw first (omega arith), rw (no_errs, first) refl)
  move-AllCounted s _ inv (Move.check c q a) =
      goes s inv c _ (checked-PcCounted q (cached siphash s q) (at s inv c (checking q) a))
  move-AllCounted s _ inv (Move.send c q a b) = goes s inv c _ (at s inv c (sending q) a)
  move-AllCounted s _ inv (Move.receive_closed c q ch a b) =
      goes s inv c _ (at s inv c (receiving q ch) a)
  move-AllCounted s _ inv (Move.recheck c q t a) =
      recheck_goes s inv c q (rechecked siphash q t (cached siphash s q))
        (rechecked-PcCounted q t (cached siphash s q) (at s inv c (received q t) a))
  move-AllCounted s _ inv (Move.time_out c q ch a) = goes s inv c _ (at s inv c (receiving q ch) a)
  move-AllCounted s _ inv (Move.lock_ticket c q n a b) =
      goes s inv c _ (at s inv c (ClientPc.locking q n) a)
  move-AllCounted s _ inv (Move.look c q n a) = goes s inv c _ (at s inv c (looking q n) a)
  move-AllCounted s _ inv (Move.decide c q n o a) =
      goes s inv c _ (after_look-PcCounted q n o (at s inv c (seen q n o) a))
  move-AllCounted s _ inv (Move.hand_over i c w q a b) =
      goes s inv c _ (at s inv c (receiving q w.resp_chan) b)
  move-AllCounted s _ inv (Move.reply i c w n q a b) =
      goes s inv c _ (at s inv c (receiving q w.resp_chan) b)
  move-AllCounted s _ inv (Move.copy t) = inv
  move-AllCounted s _ inv (Move.delete t) = inv

  -- In every state that a new requester can reach: a call of `makeRequest` that still runs, or that
  -- has returned data, the request's error or a timeout, is in one of its three attempts and has
  -- recorded one error for each attempt before it; a call that has given up has recorded exactly
  -- three errors.
  pub attempts_bounded :
      (num_workers : ℕ) (as' : List Action) {s : System} (c : ℕ)
      → run siphash as' (new_requester num_workers) ≡ some s
      → PcCounted (s.clients c)
  unfolding new_requester
  attempts_bounded num_workers as' c e =
      run_keeps siphash AllCounted move-AllCounted as' (λ d. tt) e c

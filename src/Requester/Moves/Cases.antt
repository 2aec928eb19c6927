-- ===== src/Requester/Moves/Cases.antt =====
-- Where `makeRequest` of requester/makerequest.go can go on to, as case analyses: what holds at each
-- of these points holds where the code goes.
use mathlib.Core.Path.{subst}
use gocryptsftp.Base.{
  ℕ, ◌+◌, ◌≡◌, refl, inl, inr, true, false, Option, none, some, [], ◌∷◌, ◌++◌, Bytes, ◌==◌, ltb,
  Bool-cases, Option-cases, arith, ap, sym,
}
use gocryptsftp.Requester.Defs.{Payload, Entry, ErrorCode, cache_err_retry_attempts}
use gocryptsftp.Requester.System.{
  RetryErr, Request, ok, request_error, no_success, ClientPc, checking, sending, asleep, done,
}
use gocryptsftp.Requester.Worker.{wake}
use gocryptsftp.Requester.Client.{retry, checked, rechecked}
use gocryptsftp.Requester.Ticket.{settled, breaks, after_look}

-- The request in its next attempt.
abbrev pub next_attempt : Request → RetryErr → Request
next_attempt q e = record q { attempt = q.attempt + 1; retry_errs = q.retry_errs ++ (e ∷ []) }

module _ (P : ClientPc → Type 0) where
  pub retry_cases :
      (q : Request) (e : RetryErr)
      → (ltb (q.attempt + 1) cache_err_retry_attempts ≡ true → P (checking (next_attempt q e)))
      → (ltb (q.attempt + 1) cache_err_retry_attempts ≡ false
          → P (done (next_attempt q e) (no_success (q.retry_errs ++ (e ∷ [])))))
      → P (retry q e)
  unfolding retry
  retry_cases q e again over = elim (Bool-cases (ltb (q.attempt + 1) cache_err_retry_attempts)) [
    | inl t ↦ rw t (again t)
    | inr t ↦ rw t (over t)
  ]

  -- A payload of the entry that `cache.Get` has returned.
  abbrev pub FromEntry : Request → Option Entry → Type 0
  FromEntry q o = (e : Entry) (p : Payload) → o ≡ some e → e.payload ≡ some p → P (done q (ok p))

  pub settled_cases :
      (q : Request) (o : Option Entry)
      → ((e : RetryErr) → P (retry q e))
      → ((x : ErrorCode) → P (done q (request_error x)))
      → FromEntry q o
      → P (settled q o)
  unfolding settled
  settled_cases q none again fails gives = again _
  settled_cases q (some e) again fails gives = elim (Option-cases e.err) [
    | inr (z, y) ↦ rw (y, settled) (fails z)
    | inl y ↦ elim (Option-cases e.payload) [
      | inl x ↦ rw (y, x, settled) (again _)
      | inr (p, x) ↦ rw (y, x, settled) (gives e p refl x)
    ]
  ]

  pub after_look_cases :
      (q : Request) (n : ℕ) (o : Option Entry)
      → P (settled q o)
      → (breaks n o ≡ false → P (asleep q n))
      → P (after_look q n o)
  unfolding after_look
  after_look_cases q n o out sleeps = elim (Bool-cases (breaks n o)) [
    | inl t ↦ rw t out
    | inr t ↦ rw t (sleeps t)
  ]

  -- A caller that is woken, or not.
  pub wake_cases :
      (i : ℕ) (pc : ClientPc)
      → P pc
      → ((q : Request) → pc ≡ asleep q i → P (ClientPc.locking q i))
      → P (wake i pc)
  unfolding wake
  wake_cases i (asleep q k) same woken = elim (Bool-cases (i == k)) [
    | inl t ↦
        let eq : i ≡ k = ground (arith, t) in
        rw t (subst (λ n. P (ClientPc.locking q n)) eq (woken q (ap (asleep q) (sym eq))))
    | inr t ↦ rw t same
  ]
  wake_cases i _ same woken = same

  module _ (siphash : Bytes → ℕ) where
    pub checked_cases :
        (q : Request) (o : Option Entry) → P (sending q) → FromEntry q o → P (checked siphash q o)
    unfolding checked
    checked_cases q none asks gives = asks
    checked_cases q (some e) asks gives = elim (Option-cases e.payload) [
      | inl t ↦ rw (t, checked) asks
      | inr (p, t) ↦ rw (t, checked) (gives e p refl t)
    ]

    pub rechecked_cases :
        (q : Request) (t : Option ℕ) (o : Option Entry)
        → ((e : RetryErr) → P (retry q e))
        → ((n : ℕ) → t ≡ some n → P (ClientPc.locking q n))
        → FromEntry q o
        → P (rechecked siphash q t o).0
    unfolding rechecked
    rechecked_cases q t none again locks gives = again _
    rechecked_cases q (some n) (some e) again locks gives = elim (Option-cases e.payload) [
      | inl x ↦ rw (x, rechecked) (locks n refl)
      | inr (p, x) ↦ rw (x, rechecked) (gives e p refl x)
    ]
    rechecked_cases q none (some e) again locks gives = elim (Option-cases e.payload) [
      | inr (p, x) ↦ rw (x, rechecked) (gives e p refl x)
      | inl x ↦ elim (Option-cases e.err) [
        | inl y ↦ rw (x, y, rechecked) (again _)
        | inr (z, y) ↦ rw (x, y, rechecked) (again _)
      ]
    ]

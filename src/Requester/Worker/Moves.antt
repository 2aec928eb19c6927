-- ===== src/Requester/Worker/Moves.antt =====
-- The accesses of a worker are moves.
use mathlib.Core.Path.{subst}
use gocryptsftp.Base.{
  sym, ◌∙◌, Bool, if◌then◌else◌, ℕ, ◌≡◌, ◌≢◌, refl, inl, inr, Option, none, some, List, [], ◌∷◌,
  arith, Bytes, Bool-cases, Option-cases, some_inj, true,
}
use gocryptsftp.Requester.Defs.{
  WorkType, work_none, work_read_file, work_read_dir, work_decrypt_name, Work, is_done,
}
use gocryptsftp.Requester.SyncCache.{
  SyncCache, get, put, get_or_insert, get_or_insert-absent, get_or_insert-found,
}
use gocryptsftp.Requester.System.{
  Reply, reply_entry, WorkerPc, waiting, started, requesting, setting, broadcasting, unlocking,
  Owner, System, cache_of,
}
use gocryptsftp.Requester.Worker.{
  take_from, take, claimed, serve, claim_at, claim, set_at, set_entry, lock_at, lock, request_at,
  request, broadcast_at, broadcast, unlock_at, unlock,
}
use gocryptsftp.Requester.Moves.{Move, claim_entry, key_of}

then_branch {ℓ} : {A : Type ℓ} (b : Bool) (x y : A) → b ≡ true → (if b then x else y) ≡ x
then_branch b x y t = rw t refl

module _ (siphash : Bytes → ℕ) (s : System) (i : ℕ) where
  abbrev To : System → Type 0
  To = Move siphash s

  take_from-Move :
      (pc : WorkerPc) (q : List Work) {s' : System}
      → s.workers i ≡ pc
      → s.work_queue ≡ q
      → take_from s i pc q ≡ some s'
      → To s'
  unfolding take_from
  take_from-Move waiting (w ∷ rest) at_i at_q e =
      subst To (some_inj e) (Move.take i w rest at_i at_q)
  take_from-Move waiting [] at_i at_q e = elim (Bool-cases s.queue_closed) [
    | inl t ↦ subst To (some_inj (sym (then_branch s.queue_closed _ _ t) ∙ e)) (Move.exit i at_i t)
    | inr t ↦ ground (arith, t)
  ]
  take_from-Move _ q at_i at_q e = cc

  pub take-Move : {s' : System} → take s i ≡ some s' → To s'
  unfolding take
  take-Move e = take_from-Move (s.workers i) s.work_queue refl refl e

  claimed-Move :
      (w : Work)
      → s.workers i ≡ started w
      → w.request_type ≢ work_none
      → To (
          claimed siphash s i w
            (get_or_insert (cache_of w.request_type s.caches) (key_of siphash w) (claim_entry i)))
  unfolding claimed put
  claimed-Move w at_i ne = elim (Option-cases (get m k)) [
    | inl absent ↦
        rw (get_or_insert-absent m k (claim_entry i) absent) (Move.claim i w at_i ne absent)
    | inr (e, found) ↦
        rw (get_or_insert-found m k (claim_entry i) e found) (elim (Bool-cases (is_done e)) [
          | inl t ↦ rw t (Move.close i w e at_i found t)
          | inr t ↦ rw t (Move.pass_on i w e at_i found t)
        ])
  ]
    where
      m : SyncCache
      m = cache_of w.request_type s.caches

      k : Bytes
      k = key_of siphash w

  serve-Move :
      (w : Work) (t : WorkType)
      → s.workers i ≡ started w
      → w.request_type ≡ t
      → To (serve siphash s i w t)
  unfolding serve
  serve-Move w work_none at_i at_t = Move.drop i w at_i
  serve-Move w work_read_file at_i at_t = claimed-Move w at_i (λ e. cc)
  serve-Move w work_read_dir at_i at_t = claimed-Move w at_i (λ e. cc)
  serve-Move w work_decrypt_name at_i at_t = claimed-Move w at_i (λ e. cc)

  claim_at-Move :
      (pc : WorkerPc) {s' : System} → s.workers i ≡ pc → claim_at siphash s i pc ≡ some s' → To s'
  unfolding claim_at
  claim_at-Move (started w) at_i e = subst To (some_inj e) (serve-Move w w.request_type at_i refl)
  claim_at-Move _ at_i e = cc

  pub claim-Move : {s' : System} → claim siphash s i ≡ some s' → To s'
  unfolding claim
  claim-Move e = claim_at-Move (s.workers i) refl e

  lock_at-Move :
      (pc : WorkerPc) (o : Option Owner) {s' : System}
      → s.workers i ≡ pc
      → s.lockers i ≡ o
      → lock_at s i pc o ≡ some s'
      → To s'
  unfolding lock_at
  lock_at-Move (WorkerPc.locking w) none at_i at_o e =
      subst To (some_inj e) (Move.lock i w at_i at_o)
  lock_at-Move (WorkerPc.locking w) (some _) at_i at_o e = cc
  lock_at-Move _ o at_i at_o e = cc

  pub lock-Move : {s' : System} → lock s i ≡ some s' → To s'
  unfolding lock
  lock-Move e = lock_at-Move (s.workers i) (s.lockers i) refl refl e

  request_at-Move :
      (r : Reply) (pc : WorkerPc) {s' : System}
      → s.workers i ≡ pc
      → request_at s i r pc ≡ some s'
      → To s'
  unfolding request_at
  request_at-Move r (requesting w) at_i e = elim (Option-cases (reply_entry w.request_type r)) [
    | inl bad ↦ ground (arith, bad)
    | inr (x, good) ↦
        subst To (some_inj (rw (good, request_at) at e)) (Move.request i w r x at_i good)
  ]
  request_at-Move r _ at_i e = cc

  pub request-Move : (r : Reply) {s' : System} → request s i r ≡ some s' → To s'
  unfolding request
  request-Move r e = request_at-Move r (s.workers i) refl e

  set_at-Move :
      (pc : WorkerPc) {s' : System} → s.workers i ≡ pc → set_at siphash s i pc ≡ some s' → To s'
  unfolding set_at
  set_at-Move (setting w x) at_i e = subst To (some_inj e) (Move.set i w x at_i)
  set_at-Move _ at_i e = cc

  pub set_entry-Move : {s' : System} → set_entry siphash s i ≡ some s' → To s'
  unfolding set_entry
  set_entry-Move e = set_at-Move (s.workers i) refl e

  broadcast_at-Move :
      (pc : WorkerPc) {s' : System} → s.workers i ≡ pc → broadcast_at s i pc ≡ some s' → To s'
  unfolding broadcast_at
  broadcast_at-Move broadcasting at_i e = subst To (some_inj e) (Move.broadcast i at_i)
  broadcast_at-Move _ at_i e = cc

  pub broadcast-Move : {s' : System} → broadcast s i ≡ some s' → To s'
  unfolding broadcast
  broadcast-Move e = broadcast_at-Move (s.workers i) refl e

  unlock_at-Move :
      (pc : WorkerPc) {s' : System} → s.workers i ≡ pc → unlock_at s i pc ≡ some s' → To s'
  unfolding unlock_at
  unlock_at-Move unlocking at_i e = subst To (some_inj e) (Move.unlock i at_i)
  unlock_at-Move _ at_i e = cc

  pub unlock-Move : {s' : System} → unlock s i ≡ some s' → To s'
  unfolding unlock
  unlock-Move e = unlock_at-Move (s.workers i) refl e

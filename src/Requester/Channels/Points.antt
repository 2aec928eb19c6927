-- ===== src/Requester/Channels/Points.antt =====
-- Callers that turn to a channel, or away from one.
use mathlib.Core.Path.{subst}
use gocryptsftp.Base.{
  ℕ, ◌+◌, ◌<◌, ◌≡◌, refl, sym, ap, inl, inr, Bool, true, false, Option, List, [], ◌∷◌, ◌++◌, arith,
  ◌==◌, Bool-cases,
}
use gocryptsftp.Requester.Moves.Cases.{after_look_cases}
use gocryptsftp.Requester.Defs.{Entry, Work}
use gocryptsftp.Requester.System.{
  WorkerPc, started, offering, replying, Request, ClientPc, receiving, asleep, update, update-elim,
}
use gocryptsftp.Requester.Worker.{wake}
use gocryptsftp.Requester.Ticket.{after_look}
use gocryptsftp.Requester.Moves.Away.{away, away-settled}
use gocryptsftp.Requester.Channels.{
  IsWorkOf, Addressed, EachWork, OnWork, ReceivesBelow, AddressedIn,
}

EachWork-map :
    (P Q : Work → Type 0)
    → ((w : Work) → P w → Q w)
    → (ws : List Work) → EachWork P ws
    → EachWork Q ws
EachWork-map P Q f [] h = tt
EachWork-map P Q f (w ∷ ws) (p, rest) = (f w p, EachWork-map P Q f ws rest)

EachWork-append :
    (P : Work → Type 0) (ws : List Work) (w : Work)
    → EachWork P ws
    → P w
    → EachWork P (ws ++ (w ∷ []))
EachWork-append P [] w h p = (p, tt)
EachWork-append P (v ∷ ws) w (q, rest) p = (q, EachWork-append P ws w rest p)

OnWork-map :
    (P Q : Work → Type 0) → ((w : Work) → P w → Q w) → (pc : WorkerPc) → OnWork P pc → OnWork Q pc
OnWork-map P Q f (started w) h = f w h
OnWork-map P Q f (offering w) h = f w h
OnWork-map P Q f (replying w n) h = f w h
OnWork-map P Q f _ h = tt

-- Not in the `select`.
abbrev pub deaf : ClientPc → Bool
deaf (receiving q k) = false
deaf _ = true

pub deaf-away : (pc : ClientPc) → away pc ≡ true → deaf pc ≡ true
deaf-away (receiving q k) h = cc
deaf-away _ h = refl

pub deaf-after_look : (q : Request) (n : ℕ) (o : Option Entry) → deaf (after_look q n o) ≡ true
deaf-after_look q n o =
    after_look_cases (λ pc. deaf pc ≡ true) q n o (deaf-away _ (away-settled q o)) (λ t. refl)

-- What a woken caller receives on, if anything, it received on before.
pub wake-receiving :
    (i : ℕ) (pc : ClientPc) (q : Request) (k : ℕ) → wake i pc ≡ receiving q k → pc ≡ receiving q k
unfolding wake
wake-receiving i (asleep p n) q k h = ground arith
wake-receiving i _ q k h = h

chan_inj : {q p : Request} {k m : ℕ} → receiving q k ≡ receiving p m → k ≡ m
chan_inj e = cc

ReceivesBelow-suc : (n : ℕ) (pc : ClientPc) → ReceivesBelow n pc → ReceivesBelow (n + 1) pc
ReceivesBelow-suc n (receiving q k) h = omega arith
ReceivesBelow-suc n _ h = tt

module _ {n : ℕ} {queue : List Work} {ws : ℕ → WorkerPc} {cs : ℕ → ClientPc}
    (inv : AddressedIn n queue ws cs) where
  open inv use {queued, at_work, receivers, own}

  -- No caller turns to a channel that it was not on.
  pub fewer :
      (cs' : ℕ → ClientPc)
      → ((c : ℕ) (q : Request) (k : ℕ) → cs' c ≡ receiving q k → cs c ≡ receiving q k)
      → AddressedIn n queue ws cs'
  fewer cs' back = record {
    queued = EachWork-map (Addressed n cs) (Addressed n cs') keeps queue queued;
    at_work = λ i. OnWork-map (Addressed n cs) (Addressed n cs') keeps (ws i) (at_work i);
    receivers = λ c. below c (cs' c) refl;
    own = λ c d q p k a b. own c d q p k (back c q k a) (back d p k b);
  }
    where
      keeps : (w : Work) → Addressed n cs w → Addressed n cs' w
      keeps w (lt, h) = (lt, λ c q a. h c q (back c q w.resp_chan a))

      below : (c : ℕ) (pc : ClientPc) → cs' c ≡ pc → ReceivesBelow n pc
      below c (receiving q k) a =
          let r : ReceivesBelow n (receiving q k) = rw (back c q k a) at (receivers c) in r
      below c _ a = tt

  pub client_goes :
      (c : ℕ) (pc : ClientPc) → deaf pc ≡ true → AddressedIn n queue ws (update cs c pc)
  client_goes c pc out = fewer (update cs c pc) (
      update-elim (λ d x. (q : Request) (k : ℕ) → x ≡ receiving q k → cs d ≡ receiving q k) cs c pc
        (λ q k e. let f = ap deaf e in cc) (λ d _ q k e. e))

  pub worker_goes :
      (i : ℕ) (v : WorkerPc) → OnWork (Addressed n cs) v → AddressedIn n queue (update ws i v) cs
  worker_goes i v new = record {
    queued = queued;
    at_work = update-elim (λ _. OnWork (Addressed n cs)) ws i v new (λ j _. at_work j);
    receivers = receivers;
    own = own;
  }

  pub work_at : (i : ℕ) (u : WorkerPc) → ws i ≡ u → OnWork (Addressed n cs) u
  work_at i u at_i = subst (OnWork (Addressed n cs)) at_i (at_work i)

  chan_below : (d : ℕ) (p : Request) (k : ℕ) → cs d ≡ receiving p k → k < n
  chan_below d p k e = rw e at (receivers d)

  -- Nobody receives on a channel that has not been made.
  unmade {ℓ} : {A : Type ℓ} (d : ℕ) (p : Request) (k : ℕ) → k ≡ n → cs d ≡ receiving p k → A
  unmade d p k same e = absurd (let h = chan_below d p k e in omega arith)

  keeps_sent :
      (c : ℕ) (q : Request) (v : Work)
      → Addressed n cs v
      → Addressed (n + 1) (update cs c (receiving q n)) v
  keeps_sent c q v (lt, h) = (
    omega arith,
    update-elim (λ d x. (p : Request) → x ≡ receiving p v.resp_chan → IsWorkOf p v) cs c
        (receiving q n) (λ p e. let same : n ≡ v.resp_chan = cc in absurd (omega arith))
        (λ d _ p e. h d p e),
  )

  sent_own :
      (c : ℕ) (q : Request) (a b : ℕ) (r p : Request) (k : ℕ)
      → update cs c (receiving q n) a ≡ receiving r k
      → update cs c (receiving q n) b ≡ receiving p k
      → a ≡ b
  sent_own c q a b r p k at_a at_b = elim (Bool-cases (c == a)) [
    | inl t ↦ elim (Bool-cases (c == b)) [
      | inl u ↦ ground (arith, t, u)
      | inr u ↦ let same : n ≡ k = chan_inj (rw t at at_a) in unmade b p k (sym same) (rw u at at_b)
    ]
    | inr t ↦ elim (Bool-cases (c == b)) [
      | inl u ↦ let same : n ≡ k = chan_inj (rw u at at_b) in unmade a r k (sym same) (rw t at at_a)
      | inr u ↦ own a b r p k (rw t at at_a) (rw u at at_b)
    ]
  ]

  -- A caller sends work with a new channel, and receives on that.
  pub sent :
      (c : ℕ) (q : Request) (w : Work)
      → w.resp_chan ≡ n
      → IsWorkOf q w
      → AddressedIn (n + 1) (queue ++ (w ∷ [])) ws (update cs c (receiving q n))
  sent c q w fresh its = record {
    queued = EachWork-append _ queue w (EachWork-map _ _ (keeps_sent c q) queue queued) (
      omega arith,
      update-elim (λ d x. (p : Request) → x ≡ receiving p w.resp_chan → IsWorkOf p w) cs c
          (receiving q n) (λ p e. let same : q ≡ p = cc in rw (← same) its)
          (λ d _ p e. unmade d p w.resp_chan fresh e),
    );
    at_work = λ i. OnWork-map _ _ (keeps_sent c q) (ws i) (at_work i);
    receivers =
        update-elim (λ _. ReceivesBelow (n + 1)) cs c (receiving q n) (omega arith)
          (λ d _. ReceivesBelow-suc n (cs d) (receivers d));
    own = sent_own c q;
  }

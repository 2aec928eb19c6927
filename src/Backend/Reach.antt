-- ===== src/Backend/Reach.antt =====
-- The pool under every schedule.
use gocryptsftp.Base.{
  ℕ, ◌≡◌, refl, inl, inr, none, some, List, [], ◌∷◌, arith, ap, sym, ◌∙◌, ltb, length, Bool-cases,
  some_inj, Option-cases, ltb→lt,
}
use mathlib.Core.Path.{subst}
use gocryptsftp.FileTree.Defs.{Answer, gives, fails}
use gocryptsftp.Backend.{
  Value, Dial, dial_fails, sftp_fails, connects, Operation, read_file, read_dir, stat, Result, Pc,
  idle, getting, using, writing, pinging, putting, closing, done, Provider, new_provider, new_conn,
  get, put, answered, written, pinged, Action, calls, gets, answers, writes, pings, puts, closes,
  step_at, run, ◌>>=◌,
}
use gocryptsftp.Backend.Sound.{
  has, holding, IsSound, move-IsSound, take-IsSound, fresh-IsSound, give_back-IsSound,
  close-IsSound,
}

put-IsSound :
    (s : Provider) (g c : ℕ) (r : Result)
    → holding (s.pcs g) ≡ some c
    → IsSound s
    → IsSound (put s g c r)
unfolding put
put-IsSound s g c r h k = elim (Bool-cases (ltb (length s.conns) s.capacity)) [
  | inl t ↦ rw t (give_back-IsSound s g c r h (ltb→lt (length s.conns) s.capacity t) k)
  | inr t ↦ rw t (close-IsSound s g c r h k)
]

get-IsSound :
    (s : Provider) (g : ℕ) (op : Operation) (dial : Dial) (l : List ℕ)
    → s.conns ≡ l
    → holding (s.pcs g) ≡ none
    → IsSound s
    → IsSound (get s g op dial l)
unfolding get new_conn
get-IsSound s g op dial (c ∷ rest) e h k = take-IsSound s g op c rest e h k
get-IsSound s g op (dial_fails x) [] e h k = move-IsSound s g _ (sym h) k
get-IsSound s g op (sftp_fails x) [] e h k = move-IsSound s g _ (sym h) k
get-IsSound s g op connects [] e h k = fresh-IsSound s g op h k

holding-answered : (op : Operation) (c : ℕ) (x : Answer Value) → holding (answered op c x) ≡ some c
unfolding answered
holding-answered op c (fails e) = refl
holding-answered read_file c (gives v) = refl
holding-answered read_dir c (gives v) = refl
holding-answered stat c (gives v) = refl

step_at-IsSound :
    (s s' : Provider) (g : ℕ) (a : Action) (pc : Pc)
    → s.pcs g ≡ pc
    → IsSound s
    → step_at s g a pc ≡ some s'
    → IsSound s'
unfolding step_at
step_at-IsSound s s' g (calls op) idle p k e =
    subst IsSound (some_inj e) (move-IsSound s g _ (sym (ap holding p)) k)
step_at-IsSound s s' g (calls op) (done r) p k e =
    subst IsSound (some_inj e) (move-IsSound s g _ (sym (ap holding p)) k)
step_at-IsSound s s' g (gets dial) (getting op) p k e =
    subst IsSound (some_inj e) (get-IsSound s g op dial s.conns refl (ap holding p) k)
step_at-IsSound s s' g (answers x) (using op c) p k e =
    subst IsSound (some_inj e) (move-IsSound s g _ (holding-answered op c x ∙ sym (ap holding p)) k)
step_at-IsSound s s' g (writes (gives b)) (writing c) p k e =
    subst IsSound (some_inj e) (move-IsSound s g (written c (gives b)) (sym (ap holding p)) k)
step_at-IsSound s s' g (writes (fails b)) (writing c) p k e =
    subst IsSound (some_inj e) (move-IsSound s g (written c (fails b)) (sym (ap holding p)) k)
step_at-IsSound s s' g (pings none) (pinging c b) p k e =
    subst IsSound (some_inj e) (move-IsSound s g (pinged c b none) (sym (ap holding p)) k)
step_at-IsSound s s' g (pings (some y)) (pinging c b) p k e =
    subst IsSound (some_inj e) (move-IsSound s g (pinged c b (some y)) (sym (ap holding p)) k)
step_at-IsSound s s' g puts (putting c r) p k e =
    subst IsSound (some_inj e) (put-IsSound s g c r (ap holding p) k)
step_at-IsSound s s' g closes (closing c r) p k e =
    subst IsSound (some_inj e) (close-IsSound s g c r (ap holding p) k)
step_at-IsSound s s' g _ _ p k e = cc

run-IsSound :
    (as' : List (ℕ × Action)) (s s' : Provider) → IsSound s → run as' s ≡ some s' → IsSound s'
unfolding run
run-IsSound [] s s' k e = subst IsSound (some_inj e) k
run-IsSound ((g, a) ∷ as') s s' k e = elim (Option-cases (step_at s g a (s.pcs g))) [
  | inl q ↦ absurd (ground (arith, q))
  | inr (t, q) ↦
      run-IsSound as' t s' (step_at-IsSound s t g a (s.pcs g) refl k q)
        (sym (ap (λ o. o >>= run as') q) ∙ e)
]

-- Whatever the calls of the goroutines, their order and the answers of the server: a connection
-- that was ever made is in the pool, once, or closed, or in the hands of a call, and in no two of
-- these places; no two calls hold the same connection; and the pool holds no more than its
-- capacity.
pub run_new-IsSound :
    (as' : List (ℕ × Action)) (s : Provider) → run as' new_provider ≡ some s → IsSound s
unfolding new_provider has
run_new-IsSound as' s e = run-IsSound as' new_provider s start e
  where
    start : IsSound new_provider
    start = record {
      bounded = omega arith;
      distinct = tt;
      free = λ c h. cc;
      held = λ g c h. cc;
      single = λ g h c x y. cc;
      known = λ c h. cc;
      kept = λ c less. absurd (omega (arith, less));
    }

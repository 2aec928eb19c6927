-- ===== src/Backend/Sound.antt =====
-- Every connection is in the pool, closed, or in the hands of exactly one call.
use gocryptsftp.Base.{
  ℕ, ◌+◌, ◌≤◌, ◌<◌, ◌≡◌, refl, ◌⊎◌, inl, inr, Bool, true, false, Option, none, some, List, [], ◌∷◌,
  ◌++◌, arith, ap, ◌==◌, length, length-append, Bool-cases, ◌||◌,
}
use mathlib.Core.Path.{subst}
use gocryptsftp.Backend.{
  Operation, Result, Pc, idle, getting, using, writing, pinging, putting, closing, done, Provider,
  update, move, close,
}

unfoldable pub has : ℕ → List ℕ → Bool
has c [] = false
has c (d ∷ ds) = c == d || has c ds

abbrev pub NoDup : List ℕ → Type 0
NoDup [] = Unit
NoDup (c ∷ cs) = (has c cs ≡ false) × NoDup cs

-- The connection that a goroutine has in its hands.
abbrev pub holding : Pc → Option ℕ
holding idle = none
holding (getting op) = none
holding (using op c) = some c
holding (writing c) = some c
holding (pinging c e) = some c
holding (putting c r) = some c
holding (closing c r) = some c
holding (done r) = none

has-snoc : (c d : ℕ) (cs : List ℕ) → has c (cs ++ (d ∷ [])) ≡ (has c cs || c == d)
unfolding has
has-snoc c d [] = ground arith
has-snoc c d (e ∷ cs) = ground (arith, has-snoc c d cs)

NoDup-snoc : (d : ℕ) (cs : List ℕ) → has d cs ≡ false → NoDup cs → NoDup (cs ++ (d ∷ []))
unfolding has
NoDup-snoc d [] h n = (refl, tt)
NoDup-snoc d (e ∷ cs) h n =
    (ground (arith, has-snoc e d cs, n.0), NoDup-snoc d cs (ground arith) n.1)

pub record IsSound (s : Provider) : Type 0 where
  pub bounded : length s.conns ≤ s.capacity
  pub distinct : NoDup s.conns
  pub free : (c : ℕ) → has c s.conns ≡ true → (c < s.next_conn) × (has c s.closed ≡ false)
  pub held :
      (g c : ℕ)
      → holding (s.pcs g) ≡ some c
      → (c < s.next_conn) × (has c s.conns ≡ false) × (has c s.closed ≡ false)
  pub single : (g h c : ℕ) → holding (s.pcs g) ≡ some c → holding (s.pcs h) ≡ some c → g ≡ h
  pub known : (c : ℕ) → has c s.closed ≡ true → c < s.next_conn
  pub kept :
      (c : ℕ)
      → c < s.next_conn
      → (has c s.conns ≡ true) ⊎ (has c s.closed ≡ true) ⊎ ((g : ℕ) × (holding (s.pcs g) ≡ some c))

-- A goroutine moves on with the same connection, or without one.
pub move-IsSound :
    (s : Provider) (g : ℕ) (pc : Pc)
    → holding pc ≡ holding (s.pcs g)
    → IsSound s
    → IsSound (move s g pc)
move-IsSound s g pc same k = record {
  bounded = k.bounded;
  distinct = k.distinct;
  free = k.free;
  held = λ h c e. k.held h c (was h c e);
  single = λ h i c e e'. k.single h i c (was h c e) (was i c e');
  known = k.known;
  kept = λ c less. elim (k.kept c less) [
    | inl x ↦ inl x
    | inr (inl x) ↦ inr (inl x)
    | inr (inr (h, e)) ↦ inr (inr (h, is h c e))
  ];
}
  where
    was : (h c : ℕ) → holding (update s.pcs g pc h) ≡ some c → holding (s.pcs h) ≡ some c
    was h c e = ground (arith, same)

    is : (h c : ℕ) → holding (s.pcs h) ≡ some c → holding (update s.pcs g pc h) ≡ some c
    is h c e = ground (arith, same)

-- The connection taken from the pool.
pub take-IsSound :
    (s : Provider) (g : ℕ) (op : Operation) (c : ℕ) (rest : List ℕ)
    → s.conns ≡ c ∷ rest
    → holding (s.pcs g) ≡ none
    → IsSound s
    → IsSound (record s { conns = rest; pcs = update s.pcs g (using op c) })
unfolding has
take-IsSound s g op c rest e idle_g k = record {
  bounded = omega (arith, k.bounded, ap length e);
  distinct = all.1;
  free = λ d h. k.free d (in_conns d h);
  held = λ h d x. elim (Bool-cases (g == h)) [
    | inl t ↦ let same : c ≡ d = ground arith in ground (arith, k.free c here, all.0)
    | inr t ↦ ground (arith, k.held h d, in_conns d)
  ];
  single = λ h i d x y. ground (arith, k.single h i d, k.held h c, k.held i c, here);
  known = k.known;
  kept = λ d less. elim (k.kept d less) [
    | inl x ↦ elim (Bool-cases (d == c)) [
      | inl t ↦ inr (inr (g, ground arith))
      | inr t ↦ inl (ground (arith, ap (has d) e))
    ]
    | inr (inl x) ↦ inr (inl x)
    | inr (inr (h, x)) ↦ inr (inr (h, ground (arith, idle_g)))
  ];
}
  where
    all : (has c rest ≡ false) × NoDup rest
    all = subst NoDup e k.distinct

    here : has c s.conns ≡ true
    here = rw e (ground arith)

    in_conns : (d : ℕ) → has d rest ≡ true → has d s.conns ≡ true
    in_conns d h = rw e (ground (arith, h))

-- A new connection.
pub fresh-IsSound :
    (s : Provider) (g : ℕ) (op : Operation)
    → holding (s.pcs g) ≡ none
    → IsSound s
    → IsSound
        (record s { next_conn = s.next_conn + 1; pcs = update s.pcs g (using op s.next_conn) })
fresh-IsSound s g op idle_g k = record {
  bounded = k.bounded;
  distinct = k.distinct;
  free = λ d h. let (less, not_closed) = k.free d h in (omega (arith, less), not_closed);
  held = λ h d x. elim (Bool-cases (g == h)) [
    | inl t ↦ let same : s.next_conn ≡ d = ground arith in ground (arith, k.free d, k.known d)
    | inr t ↦ ground (arith, k.held h d)
  ];
  single = λ h i d x y. ground (arith, k.single h i d, k.held h d, k.held i d);
  known = λ d h. omega (arith, k.known d h);
  kept = λ d less. elim (Bool-cases (d == s.next_conn)) [
    | inl t ↦ inr (inr (g, ground arith))
    | inr t ↦ elim (k.kept d (ground arith)) [
      | inl x ↦ inl x
      | inr (inl x) ↦ inr (inl x)
      | inr (inr (h, x)) ↦ inr (inr (h, ground (arith, idle_g)))
    ]
  ];
}

-- A connection that goes back into the pool.
pub give_back-IsSound :
    (s : Provider) (g c : ℕ) (r : Result)
    → holding (s.pcs g) ≡ some c
    → length s.conns < s.capacity
    → IsSound s
    → IsSound (record s { conns = s.conns ++ (c ∷ []); pcs = update s.pcs g (done r) })
give_back-IsSound s g c r h₀ room k = record {
  bounded = omega (arith, room, length-append s.conns (c ∷ []));
  distinct = NoDup-snoc c s.conns (k.held g c h₀).1 k.distinct;
  free = λ d h. ground (arith, k.free d, k.held g c h₀, has-snoc d c s.conns);
  held = λ h d x. elim (Bool-cases (g == h)) [
    | inl t ↦ ground arith
    | inr t ↦ ground (arith, k.held h d, k.single g h c h₀, has-snoc d c s.conns)
  ];
  single = λ h i d x y. ground (arith, k.single h i d);
  known = k.known;
  kept = λ d less. elim (k.kept d less) [
    | inl x ↦ inl (ground (arith, has-snoc d c s.conns))
    | inr (inl x) ↦ inr (inl x)
    | inr (inr (h, x)) ↦ elim (Bool-cases (g == h)) [
      | inl t ↦ inl (ground (arith, has-snoc d c s.conns))
      | inr t ↦ inr (inr (h, ground arith))
    ]
  ];
}

-- A connection that is closed.
pub close-IsSound :
    (s : Provider) (g c : ℕ) (r : Result)
    → holding (s.pcs g) ≡ some c
    → IsSound s
    → IsSound (close s g c r)
unfolding close has
close-IsSound s g c r h₀ k = record {
  bounded = k.bounded;
  distinct = k.distinct;
  free = λ d h. ground (arith, k.free d, k.held g c h₀);
  held = λ h d x. elim (Bool-cases (g == h)) [
    | inl t ↦ ground arith
    | inr t ↦ ground (arith, k.held h d, k.single g h c h₀)
  ];
  single = λ h i d x y. ground (arith, k.single h i d);
  known = λ d h. ground (arith, k.known d, k.held g c h₀);
  kept = λ d less. elim (k.kept d less) [
    | inl x ↦ inl x
    | inr (inl x) ↦ inr (inl (ground arith))
    | inr (inr (h, x)) ↦ elim (Bool-cases (g == h)) [
      | inl t ↦ inr (inl (ground arith))
      | inr t ↦ inr (inr (h, ground arith))
    ]
  ];
}

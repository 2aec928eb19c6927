-- ===== src/FileTree/Paths/Shorter.antt =====
-- The parent of a clean absolute path is absolute and shorter.
use mathlib.Core.List.{append_assoc}
use gocryptsftp.Base.{
  ℕ, ◌+◌, ◌≤◌, ◌<◌, ◌≡◌, ◌≢◌, refl, inl, inr, Bool, true, false, not, ◌&&◌, List, [], ◌∷◌, ◌++◌,
  arith, Bytes, ◌==◌, if◌then◌else◌, length, length-append, Bool-cases, ap,
}
use gocryptsftp.FileTree.Paths.{
  slash, is_rooted, cons_first, split, is_empty, push, push_all, render, clean, up_to_slash, dir,
}

abbrev NoSlash : Bytes → Type 0
NoSlash [] = Unit
NoSlash (c ∷ cs) = (c ≢ b'/') × NoSlash cs

abbrev AllNoSlash : List Bytes → Type 0
AllNoSlash [] = Unit
AllNoSlash (p ∷ ps) = NoSlash p × AllNoSlash ps

-- The elements of a clean path: not empty, without slashes.
abbrev Elements : List Bytes → Type 0
Elements [] = Unit
Elements (p ∷ ps) = ((is_empty p ≡ false) × NoSlash p) × Elements ps

abbrev weight : List Bytes → ℕ
weight [] = 0
weight (p ∷ ps) = 1 + length p + weight ps

cons_first-AllNoSlash :
    (c : ℕ) (ps : List Bytes) → c ≢ b'/' → AllNoSlash ps → AllNoSlash (cons_first c ps)
cons_first-AllNoSlash c [] ne h = ((ne, tt), tt)
cons_first-AllNoSlash c (p ∷ ps) ne h = ((ne, h.0), h.1)

split-AllNoSlash : (p : Bytes) → AllNoSlash (split p)
unfolding split
split-AllNoSlash [] = (tt, tt)
split-AllNoSlash (c ∷ cs) = elim (Bool-cases (c == b'/')) [
  | inl t ↦ rw t (tt, split-AllNoSlash cs)
  | inr t ↦ rw t (cons_first-AllNoSlash c (split cs) (ground arith) (split-AllNoSlash cs))
]

split-cons : (p : Bytes) → (q : Bytes) × (ps : List Bytes) × (split p ≡ q ∷ ps)
unfolding split
split-cons [] = ([], [], refl)
split-cons (c ∷ cs) = elim (Bool-cases (c == b'/')) [
  | inl t ↦ ([], split cs, rw t)
  | inr t ↦ let (q, ps, e) = split-cons cs in (c ∷ q, ps, rw (t, e))
]

weight-split : (p : Bytes) → weight (split p) ≡ length p + 1
unfolding split
weight-split [] = omega arith
weight-split (c ∷ cs) = elim (Bool-cases (c == b'/')) [
  | inl t ↦ rw t (omega (arith, weight-split cs))
  | inr t ↦
      let (q, ps, e) = split-cons cs in rw (t, e) (omega (arith, weight-split cs, ap weight e))
]

push-Elements :
    (rooted : Bool) (out : List Bytes) (p : Bytes)
    → NoSlash p
    → Elements out
    → Elements (push rooted out p)
unfolding push
push-Elements rooted [] p n h = ground (arith, n)
push-Elements rooted (o ∷ out) p n h = ground (arith, n, h)

push_all-Elements :
    (rooted : Bool) (out ps : List Bytes)
    → AllNoSlash ps
    → Elements out
    → Elements (push_all rooted out ps)
unfolding push_all
push_all-Elements rooted out [] n h = h
push_all-Elements rooted out (p ∷ ps) n h =
    push_all-Elements rooted (push rooted out p) ps n.1 (push-Elements rooted out p n.0 h)

length-render :
    (p : Bytes) (out : List Bytes) → length (render (p ∷ out)) ≡ length (render out) + 1 + length p
unfolding render
length-render p out = omega (arith, length-append (render out) (b'/' ∷ p))

length-push :
    (rooted : Bool) (out : List Bytes) (p : Bytes)
    → length (render (push rooted out p)) ≤ length (render out) + 1 + length p
unfolding push
length-push rooted [] p = ground (arith, length-render p [])
length-push rooted (o ∷ out) p = ground (arith, length-render p (o ∷ out), length-render o out)

length-push_all :
    (rooted : Bool) (out ps : List Bytes)
    → length (render (push_all rooted out ps)) ≤ length (render out) + weight ps
unfolding push_all
length-push_all rooted out [] = omega arith
length-push_all rooted out (p ∷ ps) =
    omega (arith, length-push rooted out p, length-push_all rooted (push rooted out p) ps)

-- The elements of an absolute path.
abbrev pub elements : Bytes → List Bytes
elements p = push_all true [] (split p)

length-elements : (p : Bytes) → is_rooted p ≡ true → length (render (elements p)) ≤ length p
unfolding is_rooted split push_all push render
length-elements [] h = cc
length-elements (c ∷ cs) h =
    rw h (omega (arith, length-push_all true [] (split cs), weight-split cs))

clean_rooted :
    (p : Bytes)
    → is_rooted p ≡ true
    → clean p ≡ (if is_empty (elements p) then slash else render (elements p))
unfolding clean
clean_rooted p h = rw h refl

pub length-clean-le : (p : Bytes) → is_rooted p ≡ true → length (clean p) ≤ length p
unfolding is_rooted
length-clean-le [] h = cc
length-clean-le (c ∷ cs) h =
    rw (clean_rooted (c ∷ cs) h) (ground (arith, length-elements (c ∷ cs) h))

render-is_rooted : (out : List Bytes) (x : Bytes) → is_rooted (render out ++ (b'/' ∷ x)) ≡ true
unfolding render is_rooted
render-is_rooted [] x = refl
render-is_rooted (p ∷ out) x = rw (append_assoc) (render-is_rooted out (p ++ (b'/' ∷ x)))

pub clean-is_rooted : (p : Bytes) → is_rooted p ≡ true → is_rooted (clean p) ≡ true
unfolding render is_rooted
clean-is_rooted p h = rw (clean_rooted p h) (go (elements p))
  where
    go : (out : List Bytes) → is_rooted (if is_empty out then slash else render out) ≡ true
    go [] = refl
    go (q ∷ out) = render-is_rooted out q

up_to_slash-NoSlash : (p : Bytes) → NoSlash p → up_to_slash p ≡ []
unfolding up_to_slash
up_to_slash-NoSlash [] n = refl
up_to_slash-NoSlash (c ∷ cs) n = rw (up_to_slash-NoSlash cs n.1) (ground arith)

up_to_slash-append : (x p : Bytes) → NoSlash p → up_to_slash (x ++ (b'/' ∷ p)) ≡ x ++ slash
unfolding up_to_slash
up_to_slash-append [] p n = rw (up_to_slash-NoSlash p n)
up_to_slash-append (c ∷ cs) p n = rw (up_to_slash-append cs p n) (go cs)
  where
    go :
        (cs : Bytes)
        → (if is_empty (cs ++ slash) && not (c == b'/') then [] else c ∷ (cs ++ slash))
          ≡ c ∷ (cs ++ slash)
    go [] = refl
    go (d ∷ ds) = refl

pos_of_full : (q : Bytes) → is_empty q ≡ false → 0 < length q
pos_of_full [] h = cc
pos_of_full (c ∷ cs) h = omega arith

-- What `findPath` does between two calls: the parent of a clean absolute path that is not the root
-- is absolute and, once cleaned, shorter.
pub parent_shorter :
    (p : Bytes)
    → is_rooted p ≡ true
    → clean p ≢ slash
    → (is_rooted (dir (clean p)) ≡ true) × (length (clean (dir (clean p))) < length (clean p))
unfolding dir render
parent_shorter p h ne = rw (clean_rooted p h) (
    go (elements p) (push_all-Elements true [] (split p) (split-AllNoSlash p) tt)
      (ground (arith, clean_rooted p h)))
  where
    go :
        (out : List Bytes)
        → Elements out
        → is_empty out ≡ false
        → (is_rooted (dir (if is_empty out then slash else render out)) ≡ true)
          × (length (clean (dir (if is_empty out then slash else render out)))
              < length (if is_empty out then slash else render out))
    go [] e ne' = cc
    go (q ∷ out) ((full, n), e) ne' =
        let x = render out ++ slash in
        let up = up_to_slash-append (render out) q n in
        let rooted : is_rooted x ≡ true = render-is_rooted out [] in
        let rooted' = clean-is_rooted x rooted in
        rw up (
          rooted',
          omega (
            arith,
            length-clean-le x rooted,
            length-clean-le (clean x) rooted',
            length-append (render out) slash,
            length-append (render out) (b'/' ∷ q),
            pos_of_full q full,
          ),
        )

-- ===== src/Handlers/Paging.antt =====
-- A listing read in pieces is the listing.
use Prim.Native.Nat.{min}
use gocryptsftp.Base.{
  ℕ, zero, suc, ◌+◌, ◌-◌, ◌≤◌, ◌<◌, ◌≡◌, refl, sym, ◌∙◌, ap, inl, inr, Option, none, some, List,
  ◌++◌, arith, if◌then◌else◌, leb, ltb, length, take, drop, Bool-cases, take-append-drop,
  length-append, length-take, length-drop, drop-all, take-take-append, take-all, drop-add,
}
use gocryptsftp.Handlers.Listerat.{list_at}

abbrev prepend {ℓ} : {A : Type ℓ} → List A → Option (List A) → Option (List A)
prepend xs none = none
prepend xs (some ys) = some (xs ++ ys)

-- A client that asks with one slice, takes the entries that were counted, and stops at the end.
-- `none`: it is not through after `fuel` questions.
unfoldable pub read_pieces {ℓ} : {A : Type ℓ} → ℕ → List A → List A → ℕ → Option (List A)
read_pieces zero f ls offset = none
read_pieces (suc fuel) f ls offset =
    let p = list_at f ls offset in
    let rest = read_pieces fuel f p.slice (offset + p.count) in
    let got = take p.count p.slice in if p.eof then some got else prepend got rest

-- Reading a listing in pieces of any size gives the listing from the offset on, each entry once
-- and in order, and comes to an end.
pub read_pieces-drop {ℓ} :
    {A : Type ℓ} (fuel : ℕ) (f ls : List A) (offset : ℕ)
    → 0 < length ls
    → length f - offset < fuel
    → read_pieces fuel f ls offset ≡ some (drop offset f)
unfolding read_pieces list_at
read_pieces-drop zero f ls offset pos enough = absurd (omega (arith, enough))
read_pieces-drop (suc fuel) f ls offset pos enough = elim (Bool-cases (leb (length f) offset)) [
  | inl t ↦ rw (t, drop-all offset f (ground arith)) refl
  | inr t ↦
      let src = drop offset f in
      let n = min (length ls) (length src) in
      let slice = take n src ++ drop n ls in
      let small : n ≤ length src = omega arith in
      elim (Bool-cases (ltb n (length ls))) [
        | inl u ↦
            rw (t, u, take-take-append n src (drop n ls) small, take-all n src (ground arith)) refl
        | inr u ↦
            let all =
              read_pieces-drop fuel f slice (offset + n)
                (omega (
                  arith,
                  length-append (take n src) (drop n ls),
                  length-take n src,
                  length-drop n ls,
                ))
                (ground arith) in
            rw (t, u, all, take-take-append n src (drop n ls) small)
              (ap some
                (ap (λ x. take n src ++ x) (sym (drop-add offset n f)) ∙ take-append-drop n src))
      ]
]

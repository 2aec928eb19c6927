-- ===== src/Gocrypt/Prefetch/Segments.antt =====
-- No random byte is given out twice.
use gocryptsftp.Base.{
  ℕ, ◌+◌, ◌≤◌, ◌≡◌, refl, sym, ap, ◌∙◌, inl, inr, Bool, true, List, [], ◌∷◌, ◌++◌, Bytes, arith,
  length, drop, map, ◌==◌, Bool-cases, take-append-drop, length-take, append_assoc,
}
use gocryptsftp.Gocrypt.Prefetch.{
  prefetch_n, read_buffer, Read, gives, is_full, refilled, read, all_given, and_then, read_all,
}

abbrev pub flat : List Bytes → Bytes
flat [] = []
flat (b ∷ bs) = b ++ flat bs

-- The outputs are segments of the stream, each behind the one before.
abbrev pub Segments : List Bytes → Bytes → Type 0
Segments [] s = Unit
Segments (out ∷ outs) s = (n : ℕ) × (rest : Bytes) × (drop n s ≡ out ++ rest) × Segments outs rest

abbrev pub AllWithin : List ℕ → Type 0
AllWithin [] = Unit
AllWithin (want ∷ wants) = (want ≤ prefetch_n) × AllWithin wants

abbrev pub AllFull : List Bytes → Type 0
AllFull [] = Unit
AllFull (fresh ∷ more) = (length fresh ≡ prefetch_n) × AllFull more

-- A read that gives as many bytes as are wanted, from the next part of the stream.
pub record Serves (want : ℕ) (refills : List Bytes) (buf : Bytes) (r : Read) : Type 0 where
  pub out : Bytes
  pub rest : Bytes
  pub more : List Bytes
  pub skipped : ℕ
  pub given : r ≡ gives out rest more
  pub wide : length out ≡ want
  pub behind : drop skipped (buf ++ flat refills) ≡ out ++ (rest ++ flat more)
  pub full : AllFull more
  pub enough : length refills ≤ length more + 1

read_buffer-parts :
    (buf : Bytes) (want : ℕ) → (read_buffer buf want).0 ++ (read_buffer buf want).1 ≡ buf
unfolding read_buffer
read_buffer-parts [] want = refl
read_buffer-parts (b ∷ bs) want = take-append-drop want (b ∷ bs)

drop_all {ℓ} : {A : Type ℓ} (xs ys : List A) → drop (length xs) (xs ++ ys) ≡ ys
drop_all [] ys = refl
drop_all (x ∷ xs) ys = drop_all xs ys

-- A refill has enough for every read.
fresh_full :
    (want : ℕ) (fresh : Bytes)
    → want ≤ prefetch_n
    → length fresh ≡ prefetch_n
    → is_full want (read_buffer fresh want) ≡ true
unfolding read_buffer
fresh_full want [] le l = ground arith
fresh_full want (b ∷ bs) le l = ground (arith, length-take want (b ∷ bs))

full_width : (want : ℕ) (r : Bytes × Bytes × Bool) → is_full want r ≡ true → length r.0 ≡ want
full_width want (out, rest, failed) h = ground (arith, h)

-- What is read and what is left, in front of the rest of the stream.
parts_before :
    (buf : Bytes) (want : ℕ) (later : Bytes)
    → buf ++ later ≡ (read_buffer buf want).0 ++ ((read_buffer buf want).1 ++ later)
parts_before buf want later =
    ap (λ b. b ++ later) (sym (read_buffer-parts buf want))
    ∙ append_assoc (read_buffer buf want).0 (read_buffer buf want).1 later

refilled-Serves :
    (want : ℕ) (refills : List Bytes) (buf : Bytes)
    → want ≤ prefetch_n
    → AllFull refills
    → 1 ≤ length refills
    → Serves want refills buf (refilled want refills)
refilled-Serves want [] buf le full some = absurd (omega arith)
refilled-Serves want (fresh ∷ more) buf le (l, full) some =
    let sized : (length fresh == prefetch_n) ≡ true = ground (arith, l) in
    let fits = fresh_full want fresh le l in
    record {
      out = (read_buffer fresh want).0;
      rest = (read_buffer fresh want).1;
      more = more;
      skipped = length buf;
      given = rw (sized, fits) refl;
      wide = full_width want (read_buffer fresh want) fits;
      behind = drop_all buf (fresh ++ flat more) ∙ parts_before fresh want (flat more);
      full = full;
      enough = omega arith;
    }

read-Serves :
    (want : ℕ) (refills : List Bytes) (buf : Bytes)
    → want ≤ prefetch_n
    → AllFull refills
    → 1 ≤ length refills
    → Serves want refills buf (read want refills buf)
unfolding read
read-Serves want refills buf le full some =
    elim (Bool-cases (is_full want (read_buffer buf want))) [
      | inl t ↦ record {
        out = (read_buffer buf want).0;
        rest = (read_buffer buf want).1;
        more = refills;
        skipped = 0;
        given = rw t refl;
        wide = full_width want (read_buffer buf want) t;
        behind = parts_before buf want (flat refills);
        full = full;
        enough = omega arith;
      }
      | inr t ↦ rw t (refilled-Serves want refills buf le full some)
    ]

-- Calls for at most 512 bytes each, with refills of 512 bytes and at least as many of them as there are
-- calls, all return, each with as many bytes as it wants. What they give are segments of the
-- buffer and the refills after it, each behind the one before, so that no random byte is given twice.
pub read_all-Segments :
    (wants : List ℕ) (refills : List Bytes) (buf : Bytes)
    → AllWithin wants
    → AllFull refills
    → length wants ≤ length refills
    → (outs : List Bytes) × (read_all wants refills buf ≡ all_given outs)
      × (map length outs ≡ wants)
      × Segments outs (buf ++ flat refills)
unfolding read_all and_then
read_all-Segments [] refills buf within full enough = ([], refl, refl, tt)
read_all-Segments (want ∷ wants) refills buf (le, within) full enough =
    let v = read-Serves want refills buf le full (omega arith) in
    let kept = v.enough in
    let (outs, given, wide, apart) =
      read_all-Segments wants v.more v.rest within v.full (omega (arith, kept)) in
    (
      v.out ∷ outs,
      rw (v.given, read_all, given) refl,
      rw (v.wide, wide) refl,
      (v.skipped, v.rest ++ flat v.more, v.behind, apart),
    )

-- ===== src/Gocrypt/Names/Unpadding.antt =====
-- gocrypt/nametransform/pad16.go: what `unPad16` accepts.
use gocryptsftp.Base.{
  ℕ, zero, suc, ◌≡◌, ◌↔◌, ◌≤◌, ◌<◌, refl, ap, sym, ◌∙◌, true, false, inl, inr, Bool-cases, Option,
  none, some, [], ◌∷◌, ◌++◌, Bytes, length, take, drop, replicate, length-append, length-replicate,
  length-take, length-drop, take-append-drop, take-append, drop-append, arith, ◌+◌, ◌-◌, ◌%◌, ◌==◌,
  ltb, leb,
}
use gocryptsftp.Gocrypt.Names.Padding.{
  pad16, unpadded, last_byte, first_invalid, without_padding, unpad16,
}

last_byte-replicate : (k b : ℕ) → last_byte (replicate (suc k) b) ≡ b
last_byte-replicate zero b = refl
last_byte-replicate (suc k) b = last_byte-replicate k b

last_byte-append : (o : Bytes) (k b : ℕ) → last_byte (o ++ replicate (suc k) b) ≡ b
last_byte-append [] k b = last_byte-replicate k b
last_byte-append (x ∷ []) k b = last_byte-replicate k b
last_byte-append (x ∷ y ∷ o) k b = last_byte-append (y ∷ o) k b

first_invalid-replicate : (n b i : ℕ) → first_invalid b (replicate n b) i ≡ none
unfolding first_invalid
first_invalid-replicate zero b i = refl
first_invalid-replicate (suc n) b i = ground (arith, first_invalid-replicate n b (i + 1))

replicate_of_valid :
    (b : ℕ) (xs : Bytes) (i : ℕ) → first_invalid b xs i ≡ none → xs ≡ replicate (length xs) b
unfolding first_invalid
replicate_of_valid b [] i h = refl
replicate_of_valid b (x ∷ xs) i h = elim (Bool-cases (x == b)) [
  | inl e ↦
      let x_eq : x ≡ b = ground (arith, e) in
      let rest : first_invalid b xs (i + 1) ≡ none = ground (arith, e, h) in
      ap (λ y. y ∷ xs) x_eq ∙ ap (◌∷◌ b) (replicate_of_valid b xs (i + 1) rest)
  | inr e ↦ absurd (ground (arith, e, h))
]

-- `o`, padded by `k` bytes.
record IsPadded (o p : Bytes) (k : ℕ) : Type 0 where
  bytes : p ≡ o ++ replicate k k
  some_pad : 0 < k
  fits : k ≤ 16
  aligned : length p % 16 ≡ 0
  some_byte : 0 < length o

pad16_lem :
    (o : Bytes)
    → 0 < length o
    → pad16 o ≡ some (o ++ replicate (16 - length o % 16) (16 - length o % 16))
unfolding pad16
pad16_lem o h =
    let k : ℕ = 16 - length o % 16 in
    let d : (k == 0) ≡ false = ground arith in
    let byte : k % 256 ≡ k = omega arith in
    let some_o : (length o == 0) ≡ false = ground (arith, h) in rw (d, some_o, byte) refl

some_byte_of_pad16 : (o p : Bytes) → pad16 o ≡ some p → 0 < length o
unfolding pad16
some_byte_of_pad16 o p h = ground (arith, h)

pad16-IsPadded : (o p : Bytes) → pad16 o ≡ some p → IsPadded o p (16 - length o % 16)
pad16-IsPadded o p h =
    let k : ℕ = 16 - length o % 16 in
    let some_o = some_byte_of_pad16 o p h in
    let both : some p ≡ some (o ++ replicate k k) = sym h ∙ pad16_lem o some_o in
    let b : p ≡ o ++ replicate k k = cc in
    record {
      bytes = b;
      some_pad = omega arith;
      fits = omega arith;
      aligned =
          ap (λ q. length q % 16) b
          ∙ omega (arith, length-append o (replicate k k), length-replicate k k);
      some_byte = some_o;
    }

length_of_IsPadded : (o p : Bytes) (k : ℕ) → IsPadded o p k → length p ≡ length o + k
length_of_IsPadded o p k i =
    ap length i.bytes
    ∙ length-append o (replicate k k)
    ∙ ap (λ n. length o + n) (length-replicate k k)

IsPadded-pad16 : (o p : Bytes) (k : ℕ) → IsPadded o p k → pad16 o ≡ some p
unfolding pad16
IsPadded-pad16 o p k i =
    let len = length_of_IsPadded o p k i in
    let k_eq : 16 - length o % 16 ≡ k = omega (arith, len, i.some_pad, i.fits, i.aligned) in
    let byte : k % 256 ≡ k = omega (arith, i.fits) in
    let d : (k == 0) ≡ false = ground (arith, i.some_pad) in
    let some_o : (length o == 0) ≡ false = ground (arith, i.some_byte) in
    rw (k_eq, d, some_o, byte, sym i.bytes) refl

last_byte_of_IsPadded : (o p : Bytes) (k : ℕ) → IsPadded o p k → last_byte p ≡ k
last_byte_of_IsPadded o p zero i = absurd (omega (arith, i.some_pad))
last_byte_of_IsPadded o p (suc k) i = ap last_byte i.bytes ∙ last_byte-append o k (suc k)

IsPadded-unpad16 : (o p : Bytes) (k : ℕ) → IsPadded o p k → unpad16 p ≡ unpadded o
unfolding unpad16
IsPadded-unpad16 o p k i =
    let len = length_of_IsPadded o p k i in
    let last = last_byte_of_IsPadded o p k i in
    let n_eq : length p - k ≡ length o = omega (arith, len) in
    let some_p : (length p == 0) ≡ false = ground (arith, len, i.some_pad) in
    let whole : (length p % 16 == 0) ≡ true = ground (arith, i.aligned) in
    let some_k : (k == 0) ≡ false = ground (arith, i.some_pad) in
    let fits : ltb 16 k ≡ false = ground (arith, i.fits) in
    let inside : leb (length p) k ≡ false = ground (arith, len, i.some_byte) in
    let tail : drop (length o) p ≡ replicate k k =
      ap (drop (length o)) i.bytes ∙ drop-append (length o) o (replicate k k) refl in
    let head : take (length o) p ≡ o =
      ap (take (length o)) i.bytes ∙ take-append (length o) o (replicate k k) refl in
    let valid : first_invalid k (drop (length o) p) (length o) ≡ none =
      ap (λ b. first_invalid k b (length o)) tail ∙ first_invalid-replicate k k (length o) in
    rw (last, some_p, whole, some_k, fits, inside, n_eq, valid, head) refl

without_padding_lem :
    (p o : Bytes) (n : ℕ) (x : Option ℕ)
    → without_padding p n x ≡ unpadded o
    → (x ≡ none) × (o ≡ take n p)
without_padding_lem p o n none h = (refl, cc)
without_padding_lem p o n (some i) h = cc

-- What `unPad16` has checked before it returns.
record IsChecked (o p : Bytes) : Type 0 where
  aligned : length p % 16 ≡ 0
  some_pad : 0 < last_byte p
  fits : last_byte p ≤ 16
  inside : last_byte p < length p
  result :
      without_padding p
        (length p - last_byte p)
        (first_invalid (last_byte p) (drop (length p - last_byte p) p) (length p - last_byte p))
      ≡ unpadded o

unpad16-IsChecked : (o p : Bytes) → unpad16 p ≡ unpadded o → IsChecked o p
unfolding unpad16
unpad16-IsChecked o p h = record {
  aligned = ground arith;
  some_pad = ground arith;
  fits = ground arith;
  inside = ground arith;
  result = ground arith;
}

unpad16-IsPadded : (o p : Bytes) → unpad16 p ≡ unpadded o → IsPadded o p (last_byte p)
unpad16-IsPadded o p h =
    let c = unpad16-IsChecked o p h in
    let k = last_byte p in
    let n = length p - k in
    let (valid, o_eq) = without_padding_lem p o n (first_invalid k (drop n p) n) c.result in
    let width : length (drop n p) ≡ k = omega (arith, length-drop n p, c.inside) in
    let tail : drop n p ≡ replicate k k =
      replicate_of_valid k (drop n p) n valid ∙ ap (λ m. replicate m k) width in
    record {
      bytes =
          sym (take-append-drop n p)
          ∙ ap (◌++◌ (take n p)) tail
          ∙ ap (λ b. b ++ replicate k k) (sym o_eq);
      some_pad = c.some_pad;
      fits = c.fits;
      aligned = c.aligned;
      some_byte = omega (arith, ap length o_eq, length-take n p, c.inside);
    }

-- `unPad16` gives a string back just when `pad16` makes its input of that string: what it accepts
-- is padded in the one way that `pad16` pads.
pub unpad16-pad16 : (o p : Bytes) → (unpad16 p ≡ unpadded o) ↔ (pad16 o ≡ some p)
unpad16-pad16 o p = (
  λ h. IsPadded-pad16 o p (last_byte p) (unpad16-IsPadded o p h),
  λ h. IsPadded-unpad16 o p (16 - length o % 16) (pad16-IsPadded o p h),
)

pub pad16-some : (o : Bytes) → 0 < length o → (p : Bytes) × (pad16 o ≡ some p)
pad16-some o h = (o ++ replicate (16 - length o % 16) (16 - length o % 16), pad16_lem o h)

pub length_of_pad16 :
    (o p : Bytes)
    → pad16 o ≡ some p
    → (0 < length o) × (length p % 16 ≡ 0) × (length p ≤ length o + 16) × (0 < length p)
length_of_pad16 o p h =
    let i = pad16-IsPadded o p h in
    let len = length_of_IsPadded o p (16 - length o % 16) i in
    (i.some_byte, i.aligned, omega (arith, len), omega (arith, len, i.some_pad))

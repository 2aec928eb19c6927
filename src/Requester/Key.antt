-- ===== src/Requester/Key.antt =====
-- requester/complexkey.go: `fmt.Sprintf("%s+%x", s, siphash.Hash(k1, k2, b))`. The hash with its
-- two keys is a parameter: a function of the bytes.
use mathlib.Core.List.{reverse, reverse-append, reverse-cons, reverse-reverse, append_assoc}
use native.Mathlib.Nat.{pow-suc}
use mathlib.Core.Path.{ap₂}
use gocryptsftp.Base.{
  ℕ, zero, suc, ◌+◌, ◌-◌, ◌/◌, ◌%◌, ◌^◌, ◌<◌, ◌≢◌, [], ◌∷◌, ◌++◌, Bytes, if◌then◌else◌, ltb, ◌==◌,
  ◌≡◌, arith, ap, Bool-cases, false, inl, inr, refl, ◌∙◌, sym,
}

-- A lower-case hexadecimal digit.
unfoldable pub hex_digit : ℕ → ℕ
hex_digit n = if ltb n 10 then b'0' + n else b'a' + n - 10

-- The digits of `%x`, the last one first.
unfoldable pub hex_digits : ℕ → ℕ → Bytes
unfolding hex_digit
hex_digits zero n = []
hex_digits (suc fuel) n =
    let rest = hex_digits fuel (n / 16) in hex_digit (n % 16) ∷ (if n / 16 == 0 then [] else rest)

-- A 64-bit hash has at most 16 digits.
unfoldable pub complex_key : (Bytes → ℕ) → Bytes → Bytes → Bytes
unfolding hex_digits
complex_key siphash s b = s ++ b'+' ∷ reverse (hex_digits 16 (siphash b))

hex_digit-injective : (a b : ℕ) → a < 16 → b < 16 → hex_digit a ≡ hex_digit b → a ≡ b
unfolding hex_digit
hex_digit-injective a b p q e = ground arith

abbrev head_or : ℕ → Bytes → ℕ
head_or d [] = d
head_or d (x ∷ xs) = x

abbrev rest_of : Bytes → Bytes
rest_of [] = []
rest_of (x ∷ xs) = xs

hex_digits-ne-nil : (f n : ℕ) → n < 16 ^ f → (n == 0) ≡ false → hex_digits f n ≢ []
unfolding hex_digits
hex_digits-ne-nil zero n p q e = ground arith
hex_digits-ne-nil (suc f) n p q e = cc

hex_digits-injective :
    (f a b : ℕ) → a < 16 ^ f → b < 16 ^ f → hex_digits f a ≡ hex_digits f b → a ≡ b
unfolding hex_digits
hex_digits-injective zero a b p q e = omega arith
hex_digits-injective (suc f) a b p q e =
    let d : a % 16 ≡ b % 16 =
      hex_digit-injective (a % 16) (b % 16) (omega arith) (omega arith) (ap (head_or 0) e) in
    let r : (if a / 16 == 0 then [] else hex_digits f (a / 16))
        ≡ (if b / 16 == 0 then [] else hex_digits f (b / 16)) =
      ap rest_of e in
    let pa : a / 16 < 16 ^ f = omega (arith, pow-suc 16 f) in
    let pb : b / 16 < 16 ^ f = omega (arith, pow-suc 16 f) in
    let q : a / 16 ≡ b / 16 = ground (
      arith,
      hex_digits-ne-nil f (a / 16) pa,
      hex_digits-ne-nil f (b / 16) pb,
      hex_digits-injective f (a / 16) (b / 16) pa pb,
    ) in
    omega arith

abbrev NoPlus : Bytes → Type 0
NoPlus [] = Unit
NoPlus (x ∷ xs) = (x ≢ b'+') × NoPlus xs

hex_digits-NoPlus : (f n : ℕ) → NoPlus (hex_digits f n)
unfolding hex_digits
hex_digits-NoPlus zero n = tt
hex_digits-NoPlus (suc f) n = (
  ground arith,
  elim (Bool-cases (n / 16 == 0)) [ inl t ↦ rw t tt | inr t ↦ rw t (hex_digits-NoPlus f (n / 16)) ],
)

-- The first plus sign splits a text.
split_unique :
    (u u' v v' : Bytes)
    → NoPlus u
    → NoPlus u'
    → u ++ b'+' ∷ v ≡ u' ++ b'+' ∷ v'
    → (u ≡ u') × (v ≡ v')
split_unique [] [] v v' p p' e = (refl, ap rest_of e)
split_unique [] (x' ∷ u') v v' p p' e = absurd (p'.0 (sym (ap (head_or 0) e)))
split_unique (x ∷ u) [] v v' p p' e = absurd (p.0 (ap (head_or 0) e))
split_unique (x ∷ u) (x' ∷ u') v v' p p' e =
    let (q, r) = split_unique u u' v v' p.1 p'.1 (ap rest_of e) in (ap₂ ◌∷◌ (ap (head_or 0) e) q, r)

reverse-key : (s u : Bytes) → reverse (s ++ b'+' ∷ reverse u) ≡ u ++ b'+' ∷ reverse s
reverse-key s u = simp (reverse-append, reverse-cons, reverse-reverse, append_assoc)

-- Two keys of name decryptions agree only for the same name and the same hash of the
-- initialization vectors, for a hash of 64 bits: the `+` between them is never ambiguous.
pub complex_key-injective :
    (siphash : Bytes → ℕ) (s t b c : Bytes)
    → siphash b < 2 ^ 64
    → siphash c < 2 ^ 64
    → complex_key siphash s b ≡ complex_key siphash t c
    → (s ≡ t) × (siphash b ≡ siphash c)
unfolding complex_key
complex_key-injective siphash s t b c p q e =
    let u = hex_digits 16 (siphash b) in
    let w = hex_digits 16 (siphash c) in
    let e' : u ++ b'+' ∷ reverse s ≡ w ++ b'+' ∷ reverse t =
      sym (reverse-key s u) ∙ ap reverse e ∙ reverse-key t w in
    let (x, y) =
      split_unique u w (reverse s) (reverse t) (hex_digits-NoPlus 16 _) (hex_digits-NoPlus 16 _)
        e' in
    (
      sym (reverse-reverse s) ∙ ap reverse y ∙ reverse-reverse t,
      hex_digits-injective 16 (siphash b) (siphash c) (omega arith) (omega arith) x,
    )

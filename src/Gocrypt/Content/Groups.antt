-- ===== src/Gocrypt/Content/Groups.antt =====
-- gocrypt/contentenc/content.go: the goroutines of `EncryptBlocks` against a single loop.
use mathlib.Core.Path.{ap₂}
use native.Mathlib.Nat.{mul-div-le}
use gocryptsftp.Base.{
  append-nil, ℕ, zero, suc, ◌≡◌, ◌≤◌, ap, sym, ◌∙◌, refl, Bool, true, false, Option, none, some,
  List, [], ◌∷◌, Bytes, ◌++◌, length, arith, take, drop, drop-add, take-all, take-append-drop,
  length-take, length-drop, ◌==◌, ltb, leb, ◌+◌, ◌*◌, ◌-◌, ◌/◌, ◌<◌, if◌then◌else◌,
}
use gocryptsftp.Gocrypt.Content.Offsets.{u64}
use gocryptsftp.Gocrypt.Content.Blocks.{
  ContentEnc, do_encrypt_block, then_cons, do_encrypt_blocks, then_append, encrypt_groups,
  encrypt_max_split, flatten_all, encrypt_blocks,
}

pub u64-u64_add : (a b : ℕ) → u64 (u64 a + b) ≡ u64 (a + b)
unfolding u64
u64-u64_add a b = omega arith

then_append-nil : (x : Option (List Bytes)) → then_append x (some []) ≡ x
then_append-nil none = refl
then_append-nil (some bs) = ap some (append-nil bs)

then_cons-then_append :
    (x : Option Bytes) (a b : Option (List Bytes))
    → then_cons x (then_append a b) ≡ then_append (then_cons x a) b
then_cons-then_append none a b = refl
then_cons-then_append (some x) none b = refl
then_cons-then_append (some x) (some a) none = refl
then_cons-then_append (some x) (some a) (some b) = refl

nil-then_append : (x : Option (List Bytes)) → then_append (some []) x ≡ x
nil-then_append none = refl
nil-then_append (some bs) = refl

module _ (e : ContentEnc) (nonces : ℕ → Bytes) (first : ℕ) (id : Option Bytes) where
  do_encrypt_blocks-append :
      (xs ys : List Bytes) (i : ℕ)
      → do_encrypt_blocks e nonces (xs ++ ys) first id i
        ≡ then_append
            (do_encrypt_blocks e nonces xs first id i)
            (do_encrypt_blocks e nonces ys first id (i + length xs))
  unfolding do_encrypt_blocks
  do_encrypt_blocks-append [] ys i =
      let k : i ≡ i + 0 = omega arith in
      ap (do_encrypt_blocks e nonces ys first id) k ∙ sym (nil-then_append _)
  do_encrypt_blocks-append (x ∷ xs) ys i =
      let k : i + 1 + length xs ≡ i + suc (length xs) = omega arith in
      let b = do_encrypt_block e x (u64 (first + i)) id (nonces i) in
      ap (then_cons b) (do_encrypt_blocks-append xs ys (i + 1))
      ∙ then_cons-then_append b _ _
      ∙ ap
          (λ m.
            then_append (do_encrypt_blocks e nonces (x ∷ xs) first id i)
              (do_encrypt_blocks e nonces ys first id m))
          k

  -- A group that starts at `low` does what the loop over all blocks does there.
  do_encrypt_blocks_shift :
      (low : ℕ) (bs : List Bytes) (i : ℕ)
      → do_encrypt_blocks e (λ j. nonces (low + j)) bs (u64 (first + low)) id i
        ≡ do_encrypt_blocks e nonces bs first id (low + i)
  unfolding do_encrypt_blocks
  do_encrypt_blocks_shift low [] i = refl
  do_encrypt_blocks_shift low (b ∷ bs) i =
      let no : u64 (u64 (first + low) + i) ≡ u64 (first + (low + i)) =
        u64-u64_add (first + low) i ∙ ap u64 (omega arith) in
      let next : low + (i + 1) ≡ low + i + 1 = omega arith in
      ap
        (λ n.
          then_cons (do_encrypt_block e b n id (nonces (low + i)))
            (do_encrypt_blocks e (λ j. nonces (low + j)) bs (u64 (first + low)) id (i + 1)))
        no
      ∙ ap (then_cons (do_encrypt_block e b (u64 (first + (low + i))) id (nonces (low + i)))) (
          do_encrypt_blocks_shift low bs (i + 1) ∙ ap (do_encrypt_blocks e nonces bs first id) next)

  group_lem :
      (bs : List Bytes) (low : ℕ)
      → do_encrypt_blocks e (λ j. nonces (low + j)) bs (u64 (first + low)) id 0
        ≡ do_encrypt_blocks e nonces bs first id low
  group_lem bs low =
      do_encrypt_blocks_shift low bs 0 ∙ ap (do_encrypt_blocks e nonces bs first id) (omega arith)

  abbrev group : ℕ → List Bytes → ℕ → Option (List Bytes)
  group size rest low =
      do_encrypt_blocks e (λ j. nonces (low + j)) (take size rest) (u64 (first + low)) id 0

  -- The groups from `i` on, of which the last takes the left-over blocks.
  encrypt_groups-from :
      (blocks : List Bytes) (size left i : ℕ)
      → (i + suc left) * size ≤ length blocks
      → encrypt_groups e nonces blocks first id size (suc left) i
        ≡ do_encrypt_blocks e nonces (drop (i * size) blocks) first id (i * size)
  unfolding encrypt_groups
  encrypt_groups-from blocks size zero i fits =
      let low = i * size in
      let rest = drop low blocks in
      let all : take (length blocks - low) rest ≡ rest =
        take-all (length blocks - low) rest (omega (arith, length-drop low blocks)) in
      then_append-nil (group (length blocks - low) rest low)
      ∙ ap (λ bs. do_encrypt_blocks e (λ j. nonces (low + j)) bs (u64 (first + low)) id 0) all
      ∙ group_lem (drop low blocks) low
  encrypt_groups-from blocks size (suc left) i fits =
      let low = i * size in
      let rest = drop low blocks in
      let more : (suc left == 0) ≡ false = ground arith in
      let width : (i + 1) * size - low ≡ size = grind arith in
      let all : (i + suc (suc left)) * size ≡ low + size + (left + 1) * size = grind arith in
      let room : size ≤ length rest = omega (arith, length-drop low blocks, all, fits) in
      let begins : length (take size rest) ≡ size = omega (arith, length-take size rest, room) in
      let next : (i + 1) * size ≡ low + length (take size rest) = grind (arith, begins) in
      let there : drop ((i + 1) * size) blocks ≡ drop size rest =
        ap (λ k. drop k blocks) (next ∙ ap (◌+◌ low) begins) ∙ sym (drop-add low size blocks) in
      let others = encrypt_groups e nonces blocks first id size (suc left) (i + 1) in
      let fits_next : (i + 1 + suc left) * size ≤ length blocks =
        let k : i + 1 + suc left ≡ i + suc (suc left) = omega arith in
        omega (arith, fits, ap (λ n. n * size) k) in
      ap
        (λ b.
          then_append (group ((if b then length blocks else (i + 1) * size) - low) rest low) others)
        more
      ∙ ap (λ k. then_append (group k rest low) others) width
      ∙ ap₂ then_append (group_lem (take size rest) low) (
          encrypt_groups-from blocks size left (i + 1) fits_next
          ∙ ap₂ (λ bs k. do_encrypt_blocks e nonces bs first id k) there next)
      ∙ sym (do_encrypt_blocks-append (take size rest) (drop size rest) low)
      ∙ ap (λ bs. do_encrypt_blocks e nonces bs first id low) (take-append-drop size rest)

  all_groups :
      (blocks : List Bytes) (ncpu : ℕ)
      → 0 < ncpu
      → encrypt_groups e nonces blocks first id (length blocks / ncpu) ncpu 0
        ≡ do_encrypt_blocks e nonces blocks first id 0
  all_groups blocks zero h = absurd (omega (arith, h))
  all_groups blocks (suc n) h =
      let size = length blocks / suc n in
      let none_before : 0 * size ≡ 0 = omega arith in
      let fits : (0 + suc n) * size ≤ length blocks =
        omega (arith, mul-div-le (length blocks) (suc n)) in
      encrypt_groups-from blocks size n 0 fits
      ∙ ap (λ k. do_encrypt_blocks e nonces (drop k blocks) first id k) none_before

pub either_way : {A : Type 0} (b : Bool) {x y : A} → x ≡ y → (if b then x else y) ≡ y
either_way true e = e
either_way false e = refl

-- However many processors there are, the blocks are encrypted as one loop over them encrypts them:
-- each with its own number and nonce, in order, with the same panics.
pub encrypt_blocks-do_encrypt_blocks :
    (e : ContentEnc) (num_cpu : ℕ) (nonces : ℕ → Bytes) (blocks : List Bytes) (first : ℕ)
    (id : Option Bytes)
    → 0 < num_cpu
    → encrypt_blocks e num_cpu nonces blocks first id
      ≡ flatten_all e.geometry.cipher_bs (do_encrypt_blocks e nonces blocks first id 0)
unfolding encrypt_blocks
encrypt_blocks-do_encrypt_blocks e num_cpu nonces blocks first id some_cpu =
    let ncpu = if ltb encrypt_max_split num_cpu then encrypt_max_split else num_cpu in
    let some_group : 0 < ncpu = ground (arith, some_cpu) in
    ap (flatten_all e.geometry.cipher_bs)
      (either_way (leb 32 (length blocks)) (all_groups e nonces first id blocks ncpu some_group))

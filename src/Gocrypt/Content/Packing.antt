-- ===== src/Gocrypt/Content/Packing.antt =====
-- gocrypt/contentenc/file_header.go: writing a header and reading it back.
use gocryptsftp.Base.{
  ◌≡◌, ◌≢◌, ◌↔◌, ap, sym, ◌∙◌, refl, true, false, some, [], ◌∷◌, Bytes, bytes_eq, bytes_eq-false,
  bytes_eq_iff, length, arith, take, drop, replicate, ◌==◌, length-drop, ◌-◌, suc,
}
use gocryptsftp.Gocrypt.Content.Header.{
  FileHeader, parsed, pack, parse_header, random_header, put_uint16, uint16,
}

-- What `RandomHeader` leaves to chance: 16 bytes, of which one at least is not 0.
pub record IsFileId (id : Bytes) : Type 0 where
  pub long : length id ≡ 16
  pub not_zero : id ≢ replicate 16 0

pub packed : Bytes → Bytes
packed id = 0 ∷ 2 ∷ id

pub length-packed : (id : Bytes) → length id ≡ 16 → length (packed id) ≡ 18
unfolding packed
length-packed id h = ap (λ n. suc (suc n)) h

pub pack_lem : (id : Bytes) → length id ≡ 16 → pack (random_header id) ≡ some (packed id)
unfolding pack put_uint16 random_header packed
pack_lem id h = let e : (length id == 16) ≡ true = ground arith in rw (e) refl

pub parse_header-packed :
    (id : Bytes) → IsFileId id → parse_header (packed id) ≡ parsed (random_header id)
unfolding parse_header uint16 random_header packed
parse_header-packed id i =
    let zero? : bytes_eq id (replicate 16 0) ≡ false =
      bytes_eq-false id (replicate 16 0) i.not_zero in
    let long : (length (0 ∷ 2 ∷ id) == 18) ≡ true = ground (arith, i.long) in rw (long, zero?) refl

-- What a header that is read passed.
record IsRead (b : Bytes) (h : FileHeader) : Type 0 where
  long : length b ≡ 18
  version_eq : uint16 (take 2 b) ≡ 2
  not_zero : drop 2 b ≢ replicate 16 0
  read : h ≡ record { version = uint16 (take 2 b); id = drop 2 b }

IsRead-parse_header : (b : Bytes) (h : FileHeader) → parse_header b ≡ parsed h → IsRead b h
unfolding parse_header
IsRead-parse_header b h e = record {
  long = ground arith;
  version_eq = ground arith;
  not_zero = λ z. ground (arith, bytes_eq_iff (drop 2 b) (replicate 16 0), z);
  read = ground arith;
}

two_bytes : (b : Bytes) → length b ≡ 18 → uint16 (take 2 b) ≡ 2 → b ≡ packed (drop 2 b)
unfolding uint16 packed
two_bytes [] h v = absurd (omega (arith, h))
two_bytes (x ∷ []) h v = absurd (omega (arith, h))
two_bytes (x ∷ y ∷ id) h v =
    let x0 : x ≡ 0 = omega arith in let y2 : y ≡ 2 = omega arith in rw (x0, y2) refl

parsed_IsRead : (b : Bytes) (h : FileHeader) → IsRead b h → (pack h ≡ some b) × IsFileId h.id
unfolding random_header
parsed_IsRead b h r =
    let long : length (drop 2 b) ≡ 16 = length-drop 2 b ∙ ap (λ n. n - 2) r.long in
    let h_eq : h ≡ random_header (drop 2 b) =
      r.read ∙ ap (λ v. record { version = v; id = drop 2 b }) r.version_eq in
    let made : pack h ≡ some b =
      ap pack h_eq ∙ pack_lem (drop 2 b) long ∙ ap some (sym (two_bytes b r.long r.version_eq)) in
    (
      made,
      record {
        long = ap (λ k. length k.id) h_eq ∙ long;
        not_zero = λ z. r.not_zero (sym (ap (λ k. k.id) h_eq) ∙ z);
      },
    )

version_of_pack : (b : Bytes) (h : FileHeader) → pack h ≡ some b → h.version ≡ 2
unfolding pack
version_of_pack b h e = ground arith

parsed_of_pack :
    (b : Bytes) (h : FileHeader) → pack h ≡ some b → IsFileId h.id → parse_header b ≡ parsed h
unfolding random_header
parsed_of_pack b h e i =
    let h_eq : h ≡ random_header h.id =
      ap (λ v. record { version = v; id = h.id }) (version_of_pack b h e) in
    let b_eq : some b ≡ some (packed h.id) = sym e ∙ ap pack h_eq ∙ pack_lem h.id i.long in
    let b_packed : b ≡ packed h.id = cc in
    ap parse_header b_packed ∙ parse_header-packed h.id i ∙ ap parsed (sym h_eq)

-- A header is read from some bytes just when it would be written as those bytes and its id has 16
-- bytes that are not all 0.
pub parse_header-pack :
    (b : Bytes) (h : FileHeader) → (parse_header b ≡ parsed h) ↔ ((pack h ≡ some b) × IsFileId h.id)
parse_header-pack b h =
    (λ e. parsed_IsRead b h (IsRead-parse_header b h e), λ (e, i). parsed_of_pack b h e i)

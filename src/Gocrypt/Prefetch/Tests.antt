-- ===== src/Gocrypt/Prefetch/Tests.antt =====
-- Two nonces out of a buffer that holds less than one.
use gocryptsftp.Base.{◌≡◌, refl, [], ◌∷◌, List, Bytes, map, length, replicate, arith, ◌++◌}
use gocryptsftp.Gocrypt.Prefetch.{gives, panics, all_given, read_buffer, read, get_nonce, read_all}
use gocryptsftp.Gocrypt.Prefetch.Segments.{Segments, flat, read_all-Segments}

abbrev left : Bytes
left = 7 ∷ 8 ∷ []

abbrev refill : Bytes
refill = replicate 512 5

-- The two bytes that are left are not used.
skips_left : get_nonce 16 (refill ∷ []) left ≡ gives (replicate 16 5) (replicate 496 5) []
unfolding get_nonce read read_buffer
skips_left = refl

too_much_panics : read 513 (refill ∷ []) left ≡ panics
unfolding read read_buffer
too_much_panics = refl

read_all-Segments_example :
    (outs : List Bytes) × (read_all (16 ∷ 16 ∷ []) (refill ∷ refill ∷ []) left ≡ all_given outs)
    × (map length outs ≡ 16 ∷ 16 ∷ [])
    × Segments outs (left ++ flat (refill ∷ refill ∷ []))
read_all-Segments_example =
    read_all-Segments (16 ∷ 16 ∷ []) (refill ∷ refill ∷ []) left (omega arith, (omega arith, tt))
      (refl, (refl, tt)) (omega arith)

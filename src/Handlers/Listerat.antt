-- ===== src/Handlers/Listerat.antt =====
-- handlers/proxy.go: `listerat`, the listing that the sftp server reads in pieces.
use Prim.Native.Nat.{min}
use gocryptsftp.Base.{ℕ, Bool, true, false, List, ◌++◌, if◌then◌else◌, leb, ltb, length, take, drop}

-- What `ListAt` leaves in the caller's slice, the number of entries, and whether it is the end.
pub record Piece {ℓ} (A : Type ℓ) : Type ℓ where
  pub slice : List A
  pub count : ℕ
  pub eof : Bool

-- The offset is not negative. `copy(ls, f[offset:])` leaves the rest of the slice as it was.
unfoldable pub list_at {ℓ} : {A : Type ℓ} → List A → List A → ℕ → Piece A
list_at f ls offset =
    let src = drop offset f in
    let n = min (length ls) (length src) in
    if leb (length f) offset
    then record { slice = ls; count = 0; eof = true }
    else (if ltb n (length ls)
        then record { slice = take n src ++ drop n ls; count = n; eof = true }
        else record { slice = take n src ++ drop n ls; count = n; eof = false })

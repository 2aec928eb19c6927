-- ===== src/Gocrypt/Prefetch.antt =====
-- gocrypt/cryptocore/randprefetch.go and nonce.go: random bytes from a buffer that is refilled. The
-- mutex makes each call one step, and the refills that the worker draws are a list.
pub mod Segments
mod Tests
use gocryptsftp.Base.{
  ℕ, Bool, false, not, ◌&&◌, List, [], ◌∷◌, Bytes, length, take, drop, ◌==◌, ltb, if◌then◌else◌,
}

abbrev pub prefetch_n : ℕ
prefetch_n = 512

-- `bytes.Buffer.Read` into as many bytes: what is read, what is left, and whether there is an error.
unfoldable pub read_buffer : Bytes → ℕ → Bytes × Bytes × Bool
read_buffer [] want = ([], [], ltb 0 want)
read_buffer (b ∷ bs) want = (take want (b ∷ bs), drop want (b ∷ bs), false)

-- The bytes, with the buffer and the refills that are left; or a panic; or no refill has come yet.
pub data Read : Type 0 where
  gives : Bytes → Bytes → List Bytes → Read
  panics waits : Read

-- `have == want && err == nil`
abbrev pub is_full : ℕ → Bytes × Bytes × Bool → Bool
is_full want (out, rest, failed) = (length out == want) && not failed

-- The read after a refill.
abbrev pub second : ℕ → List Bytes → Bytes × Bytes × Bool → Read
second want more r = if is_full want r then gives r.0 r.1 more else panics

abbrev pub refilled : ℕ → List Bytes → Read
refilled want [] = waits
refilled want (fresh ∷ more) =
    if length fresh == prefetch_n then second want more (read_buffer fresh want) else panics

abbrev pub first : ℕ → List Bytes → Bytes × Bytes × Bool → Read
first want refills r = if is_full want r then gives r.0 r.1 refills else refilled want refills

unfoldable pub read : ℕ → List Bytes → Bytes → Read
read want refills buf = first want refills (read_buffer buf want)

-- `nonceGenerator.Get`
unfoldable pub get_nonce : ℕ → List Bytes → Bytes → Read
unfolding read
get_nonce nonce_len refills buf = read nonce_len refills buf

-- What calls one after the other get.
pub data Reads : Type 0 where
  all_given : List Bytes → Reads
  one_panics one_waits : Reads

unfoldable pub and_then : Bytes → Reads → Reads
and_then out (all_given outs) = all_given (out ∷ outs)
and_then out r = r

unfoldable pub read_all : List ℕ → List Bytes → Bytes → Reads
unfolding read and_then
read_all [] refills buf = all_given []
read_all (want ∷ wants) refills buf = elim (read want refills buf) [
  | gives out rest more ↦ and_then out (read_all wants more rest)
  | panics ↦ one_panics
  | waits ↦ one_waits
]

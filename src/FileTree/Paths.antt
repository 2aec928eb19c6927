-- ===== src/FileTree/Paths.antt =====
-- `Clean`, `Dir`, `Base` and `Join` of Go's path/filepath on Unix, on which filetree/filetree.go
-- rests.
pub mod Shorter
use gocryptsftp.Base.{
  ℕ, Bool, true, false, not, ◌&&◌, ◌||◌, List, [], ◌∷◌, ◌++◌, Bytes, ◌==◌, if◌then◌else◌, bytes_eq,
  ltb, length,
}

abbrev pub slash : Bytes
slash = b'/' ∷ []

abbrev pub dot : Bytes
dot = b'.' ∷ []

abbrev pub dot_dot : Bytes
dot_dot = b'.' ∷ b'.' ∷ []

unfoldable pub is_rooted : Bytes → Bool
is_rooted [] = false
is_rooted (c ∷ cs) = c == b'/'

abbrev pub cons_first : ℕ → List Bytes → List Bytes
cons_first c [] = (c ∷ []) ∷ []
cons_first c (p ∷ ps) = (c ∷ p) ∷ ps

-- The texts between the slashes.
unfoldable pub split : Bytes → List Bytes
split [] = [] ∷ []
split (c ∷ cs) = let rest = split cs in if c == b'/' then [] ∷ rest else cons_first c rest

abbrev pub is_empty {ℓ} : {A : Type ℓ} → List A → Bool
is_empty [] = true
is_empty (_ ∷ _) = false

-- One element of a path after the elements `out`, the last one first: an empty element and `.`
-- disappear, and `..` takes back an element, if there is one that is not `..`.
unfoldable pub push : Bool → List Bytes → Bytes → List Bytes
push rooted [] p =
    if is_empty p || bytes_eq p dot
    then []
    else (if bytes_eq p dot_dot && rooted then [] else p ∷ [])
push rooted (o ∷ out) p =
    if is_empty p || bytes_eq p dot
    then o ∷ out
    else (if bytes_eq p dot_dot && not (bytes_eq o dot_dot) then out else p ∷ o ∷ out)

unfoldable pub push_all : Bool → List Bytes → List Bytes → List Bytes
unfolding push
push_all rooted out [] = out
push_all rooted out (p ∷ ps) = push_all rooted (push rooted out p) ps

-- The elements, the last one first, each behind a slash.
unfoldable pub render : List Bytes → Bytes
render [] = []
render (p ∷ out) = render out ++ (b'/' ∷ p)

abbrev pub tail : Bytes → Bytes
tail [] = []
tail (c ∷ cs) = cs

unfoldable pub clean : Bytes → Bytes
unfolding is_rooted split push_all render
clean path =
    let out = push_all (is_rooted path) [] (split path) in
    if is_empty out
    then (if is_rooted path then slash else dot)
    else (if is_rooted path then render out else tail (render out))

-- The path up to its last slash, that slash included, and what stands behind it.
unfoldable pub up_to_slash : Bytes → Bytes
up_to_slash [] = []
up_to_slash (c ∷ cs) =
    let rest = up_to_slash cs in if is_empty rest && not (c == b'/') then [] else c ∷ rest

unfoldable pub behind_slash : Bytes → Bytes
unfolding up_to_slash
behind_slash [] = []
behind_slash (c ∷ cs) =
    let rest = behind_slash cs in
    if is_empty (up_to_slash cs) && not (c == b'/') then c ∷ rest else rest

unfoldable pub dir : Bytes → Bytes
unfolding clean up_to_slash
dir path = clean (up_to_slash path)

unfoldable pub trim_slashes : Bytes → Bytes
trim_slashes [] = []
trim_slashes (c ∷ cs) =
    let rest = trim_slashes cs in if is_empty rest && c == b'/' then [] else c ∷ rest

unfoldable pub base : Bytes → Bytes
unfolding trim_slashes behind_slash
base [] = dot
base (c ∷ cs) =
    let trimmed = trim_slashes (c ∷ cs) in if is_empty trimmed then slash else behind_slash trimmed

unfoldable pub join : Bytes → Bytes → Bytes
unfolding clean
join a b =
    if is_empty a
    then (if is_empty b then [] else clean b)
    else (if is_empty b then clean a else clean (a ++ (b'/' ∷ b)))

-- ===== src/FileTree/Relative.antt =====
-- `findPath` of the relative path ".", which is its own parent.
use gocryptsftp.Base.{ℕ, zero, suc, ◌≡◌, refl, none, Bytes, lookup, bytes_eq}
use gocryptsftp.FastCache.{find}
use gocryptsftp.FileTree.Paths.{
  dot, clean, dir, is_rooted, split, push, push_all, render, up_to_slash,
}
use gocryptsftp.FileTree.Defs.{Remote, Tree, ok, out_of_fuel}
use gocryptsftp.FileTree.Walk.{find_path, cache_find}

cache_find-missing :
    {S : Type 0} (p : Bytes) (t : Tree S)
    → lookup p t.fast_cache.storage ≡ none
    → cache_find p t ≡ ok none t
unfolding cache_find find
cache_find-missing p t missing = rw (missing, find, cache_find) refl

-- `findPath` of "." calls itself on "." again, as long as the cache has no entry for it: however
-- many calls are allowed, they are not enough.
pub find_path-dot :
    {S : Type 0} (r : Remote S) (fuel : ℕ) (t : Tree S)
    → lookup dot t.fast_cache.storage ≡ none
    → find_path r fuel dot t ≡ out_of_fuel
unfolding find_path clean dir is_rooted split push push_all render up_to_slash bytes_eq
find_path-dot r zero t missing = refl
find_path-dot r (suc fuel) t missing =
    rw (cache_find-missing dot t missing) (rw (find_path-dot r fuel t missing) refl)

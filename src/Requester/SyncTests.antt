-- ===== src/Requester/SyncTests.antt =====
-- A cache with two entries, and the theorems on `ClearCache` at it.
use gocryptsftp.Base.{
  ◌≡◌, refl, none, some, [], ◌∷◌, codes, bytes_eq, List, ◌≢◌, lookup, insert, delete,
}
use gocryptsftp.Requester.Defs.{Entry}
use gocryptsftp.Requester.SyncCache.{
  SyncCache, get, put, keys_to_delete, delete_keys, Section, sets, sections, clear_around,
  clear_interleaved, section,
}

program : Unit {0}
unfolding clear_around section sections get put keys_to_delete delete_keys lookup insert delete
    bytes_eq
program = tt

abbrev pending : Entry
pending = record { payload = none; err = none; locker_num = 3 }

abbrev cache : SyncCache
cache = (codes "/a", pending) ∷ (codes "/b", pending) ∷ []

-- A new entry and a new value for an old key.
abbrev between : List Section
between = sets (codes "/c") pending ∷ sets (codes "/a") pending ∷ []

clear_interleaved_example :
    (get cache (codes "/c") ≢ none → get (clear_around cache between) (codes "/c") ≡ none)
    × (get cache (codes "/c") ≡ none
        → get (clear_around cache between) (codes "/c") ≡ get (sections cache between) (codes "/c"))
    × (get (clear_around cache []) (codes "/c") ≡ none)
clear_interleaved_example = clear_interleaved cache between (codes "/c")

keeps_new : get (clear_around cache between) (codes "/c") ≡ some pending
unfolding program
keeps_new = refl

-- ===== src/FileTree/Tests.antt =====
-- A tree with a directory and two files, and the theorems at it.
use gocryptsftp.Base.{
  ℕ, ◌-◌, ◌≡◌, refl, Bool, true, false, Option, none, some, List, [], ◌∷◌, arith, Bytes, codes,
  bytes_eq, ◌==◌, if◌then◌else◌, drop, replicate, lookup, insert, delete,
}
use mathlib.Core.Option
use gocryptsftp.FastCache.{new_fast_cache, load, refresh_node, find, clear, store}
use gocryptsftp.FastCache.Invariant.{mapping}
use gocryptsftp.FastCache.Runs.{new-IsValid}
use gocryptsftp.Requester.Defs.{FileInfo}
use gocryptsftp.FileTree.Paths.{
  dot, is_rooted, split, push, push_all, render, clean, up_to_slash, behind_slash, dir,
  trim_slashes, base, join,
}
use gocryptsftp.FileTree.Defs.{
  gives, fails, Remote, ContentEnc, Error, finding_path, Tree, ok, err, panic, out_of_fuel,
}
use gocryptsftp.FileTree.Walk.{
  cache_find, cache_store, range_loop, range_in_dir, find_in_dir, enter, find_path,
}
use gocryptsftp.FileTree.Calls.{
  plain_file_info, copy_into, read_file_id, decrypt_from, decrypt_file, read_file, read_dir, stat,
}
use gocryptsftp.FileTree.Spec.{Content, Stable, child, at_root}
use gocryptsftp.FileTree.Resolution.{TreeOk, Finds, find_path-Finds}
use gocryptsftp.FileTree.Listing.{ReadsDir, read_dir-ReadsDir, shown}
use gocryptsftp.FileTree.Reading.{Contains, ReadsFile, read_file-ReadsFile}
use gocryptsftp.Handlers.Decrypt.{Request, file_list}
use gocryptsftp.Handlers.Browse.{Browses, file_list-Browses}
use gocryptsftp.FileTree.Relative.{find_path-dot}
use gocryptsftp.FileTree.Stat.{stat-file_fails}

program : Unit {0}
unfolding is_rooted split push push_all render clean up_to_slash behind_slash dir trim_slashes base
    join cache_find cache_store range_loop range_in_dir find_in_dir enter find_path plain_file_info
    copy_into read_file_id decrypt_from decrypt_file read_file read_dir stat child shown load
    refresh_node find clear store new_fast_cache lookup insert delete bytes_eq mapping
program = tt

abbrev root : Bytes
root = codes "R"

abbrev long_file : Bytes
long_file = replicate 53 7

abbrev short_file : Bytes
short_file = replicate 20 7

abbrev entry : Bytes → ℕ → Bool → FileInfo
entry name size is_dir = record { name = name; size = size; is_dir = is_dir }

abbrev content : Content
content = record {
  file = λ p.
      if bytes_eq p (codes "R/gocryptfs.diriv")
      then gives (codes "I")
      else (if bytes_eq p (codes "R/F")
          then gives long_file
          else (if bytes_eq p (codes "R/G") then gives short_file else fails 1));
  listing = λ p.
      if bytes_eq p root
      then gives (
          entry (codes "D") 0 true
          ∷ entry (codes "F") 53 false
          ∷ entry (codes "G") 20 false
          ∷ entry (codes "H") 9 false
          ∷ [])
      else fails 2;
  plain_name = λ n iv.
      if bytes_eq n (codes "D")
      then gives (codes "d")
      else (if bytes_eq n (codes "F")
          then gives (codes "f")
          else (if bytes_eq n (codes "G") then gives (codes "g") else fails 3));
}

abbrev remote : Remote (Unit {0})
remote = record {
  read_file = λ p s. (content.file p, s);
  read_dir = λ p s. (content.listing p, s);
  decrypt_name = λ n iv s. (some (content.plain_name n iv), s);
  stat = λ p s. (gives (entry p 0 true), s);
}

stable : Stable remote content
stable = record { reads = λ p s. refl; lists = λ p s. refl; decrypts = λ n iv s. refl }

-- Blocks of 32 bytes of overhead behind 18 bytes of header.
abbrev exploded : ℕ → List ℕ
exploded n = if n == 0 then [] else 0 ∷ []

abbrev enc : ContentEnc
enc = record {
  Block = ℕ;
  block_no = λ b. b;
  cipher_size_to_plain_size = λ n. n - 50;
  explode_plain_range = λ o n. exploded n;
  joint_ciphertext_offset = λ bs. 18;
  parse_header = λ h. gives (drop 2 h);
  decrypt_blocks = λ b n id. some (gives (drop 32 b));
}

abbrev small : Bytes → Bool
small b = false

abbrev tree : Tree (Unit {0})
tree = record { encrypted_root = root; fast_cache = new_fast_cache 2; remote = tt }

tree-TreeOk : TreeOk content root tree
unfolding program
tree-TreeOk = record {
  valid = new-IsValid 2;
  room = omega arith;
  coherent = λ j v h. cc;
  rooted = refl;
}

file_path : Bytes
unfolding program
file_path = codes "/f"

short_path : Bytes
unfolding program
short_path = codes "/x/../g"

-- The runs themselves.
finds_dir :
    Option.map
      (λ (x : Bytes). x)
      (elim (find_path remote 9 (codes "//d/") tree) as (λ _. Option Bytes) [
        | ok v t ↦ some v
        | _ ↦ none
      ])
    ≡ some (codes "R/D")
unfolding program
finds_dir = refl

reads_file :
    (t : Tree (Unit {0})) × (read_file enc small remote 9 file_path tree ≡ ok (7 ∷ 7 ∷ 7 ∷ []) t)
unfolding program file_path
reads_file = (_, refl)

-- A file of 20 bytes stops the program.
short_file_panics : read_file enc small remote 9 short_path tree ≡ panic
unfolding program short_path
short_file_panics = refl

find_path-Finds_example :
    Finds content root (clean (codes "//d/")) (find_path remote 9 (codes "//d/") tree)
unfolding program
find_path-Finds_example =
    find_path-Finds content root stable 9 (codes "//d/") tree refl (omega arith) tree-TreeOk

read_dir-ReadsDir_example :
    ReadsDir content enc small stable 9 root
      (clean (clean (codes "/")))
      (read_dir enc small remote 9 (codes "/") tree)
unfolding program
read_dir-ReadsDir_example =
    read_dir-ReadsDir content enc small stable 9 root (codes "/") tree refl (omega arith)
      tree-TreeOk

read_file-ReadsFile_example :
    ReadsFile content root enc small (clean file_path) (read_file enc small remote 9 file_path tree)
unfolding program file_path
read_file-ReadsFile_example =
    read_file-ReadsFile content root enc small stable 9 file_path tree refl (omega arith)
      tree-TreeOk

file-Contains : Contains content root (clean (clean file_path)) long_file
unfolding program file_path
file-Contains = record {
  no_root = λ h. cc;
  parent = root;
  parent_found = at_root refl refl;
  info = entry (codes "F") 53 false;
  listed = refl;
  no_dir = refl;
  content = refl;
}

stat-file_fails_example :
    (x : Error) × (t : Tree (Unit {0})) × (stat enc small remote 9 file_path tree
      ≡ err (finding_path x) t)
unfolding program file_path
stat-file_fails_example =
    stat-file_fails content root enc small stable 9 file_path long_file tree refl (omega arith)
      tree-TreeOk file-Contains

-- The same tree behind the handlers.
abbrev list_root : Request
list_root = record { method = codes "List"; filepath = codes "/"; target = [] }

file_list-Browses_example :
    Browses content enc small stable 9 root
      (entry [] 0 false ∷ [])
      (clean (clean (codes "/")))
      (file_list enc small remote 9 list_root tree)
unfolding program
file_list-Browses_example =
    file_list-Browses content enc small stable 9 root (entry [] 0 false ∷ []) list_root tree refl
      refl (omega arith) (omega arith) tree-TreeOk

find_path-dot_example : find_path remote 40 dot tree ≡ out_of_fuel
unfolding program
find_path-dot_example = find_path-dot remote 40 tree refl

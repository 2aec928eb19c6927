-- ===== src/Handlers/Browse.antt =====
-- What a client sees that lists a directory: a request "List", and the listing in pieces.
use gocryptsftp.Base.{
  ℕ, ◌+◌, ◌<◌, ◌≡◌, ◌∙◌, sym, Bool, true, none, List, Bytes, arith, bytes_eq_refl, codes, length,
}
use gocryptsftp.Requester.Defs.{FileInfo}
use gocryptsftp.FileTree.Paths.{is_rooted, clean}
use gocryptsftp.FileTree.Defs.{
  Remote, ContentEnc, Tree, Run, ok, err, panic, out_of_fuel, and_then, pure,
}
use gocryptsftp.FileTree.Calls.{read_dir}
use gocryptsftp.FileTree.Spec.{Content, Stable, Resolves}
use gocryptsftp.FileTree.Resolution.{TreeOk}
use gocryptsftp.FileTree.Listing.{shown, ReadsDir, read_dir-ReadsDir}
use gocryptsftp.Handlers.Decrypt.{Request, Listing, lists, nothing, refuses, file_list}
use gocryptsftp.Handlers.Paging.{read_pieces, read_pieces-drop}

module _ (a : Content) (e : ContentEnc) (big : Bytes → Bool) {S : Type 0} {r : Remote S}
    (st : Stable r a) (fuel : ℕ) (root : Bytes) (slice : List FileInfo) where
  -- Read in pieces with this slice, the listing is the plaintext listing of the directory.
  abbrev pub Browses : Bytes → Run S Listing → Type 0
  Browses q (ok (lists l) t) =
      TreeOk a root t
      × ((v : Bytes) × Resolves a root q v
          × (read_pieces (length l + 1) l slice 0 ≡ shown a e big v))
  Browses q (ok nothing t) = ⊥
  Browses q (ok (refuses x) t) = ⊥
  Browses q (err b t) =
      TreeOk a root t × ((v : Bytes) → Resolves a root q v → shown a e big v ≡ none)
  Browses q panic = ⊥
  Browses q out_of_fuel = ⊥

  listed-Browses :
      (q : Bytes) (x : Run S (List FileInfo))
      → 0 < length slice
      → ReadsDir a e big st fuel root q x
      → Browses q (and_then x (λ l. pure (lists l)))
  listed-Browses q (ok l t) pos (k, (v, res, h)) =
      (k, (v, res, read_pieces-drop (length l + 1) l slice 0 pos (omega arith) ∙ sym h))
  listed-Browses q (err b t) pos h = h
  listed-Browses q panic pos h = h
  listed-Browses q out_of_fuel pos h = h

  -- On a remote that does not change and no name of which makes `DecryptName` panic, a "List"
  -- request for an absolute path is answered with a listing which, read in pieces of any size,
  -- comes to an end and is the plaintext listing of the directory that the path stands for; or with
  -- an error exactly if there is none.
  pub file_list-Browses :
      (req : Request) (t : Tree S)
      → req.method ≡ codes "List"
      → is_rooted req.filepath ≡ true
      → length req.filepath < fuel
      → 0 < length slice
      → TreeOk a root t
      → Browses (clean (clean req.filepath)) (file_list e big r fuel req t)
  unfolding file_list
  file_list-Browses req t list abs enough pos k =
      rw (list, bytes_eq_refl (codes "List"))
        (listed-Browses (clean (clean req.filepath)) (read_dir e big r fuel req.filepath t) pos
          (read_dir-ReadsDir a e big st fuel root req.filepath t abs enough k))

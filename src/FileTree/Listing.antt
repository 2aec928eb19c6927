-- ===== src/FileTree/Listing.antt =====
-- `ReadDir` against the listing of the directory that the path stands for.
use mathlib.Core.List.{append_assoc, append-nil}
use gocryptsftp.Base.{
  ℕ, ◌<◌, ◌≡◌, ◌∙◌, refl, sym, inl, inr, Bool, true, Option, none, some, List, [], ◌∷◌, ◌++◌, arith,
  Bytes, length, ap,
}
use mathlib.Core.Path.{subst}
use gocryptsftp.Requester.Defs.{FileInfo}
use gocryptsftp.FileTree.Paths.{is_rooted, clean, join}
use gocryptsftp.FileTree.Paths.Shorter.{clean-is_rooted, length-clean-le}
use gocryptsftp.FileTree.Defs.{
  Answer, Answer-cases, gives, fails, Remote, ContentEnc, Error, reading_iv, listing_directory,
  listing_path, finding_path, Tree, Run, ok, err, panic, out_of_fuel, and_then, wrap,
}
use gocryptsftp.FileTree.Walk.{iv_name, range_loop, range_in_dir, find_path}
use gocryptsftp.FileTree.Calls.{plain_file_info, append_info, read_dir}
use gocryptsftp.FileTree.Spec.{Content, Stable, Resolves, Resolves-unique}
use gocryptsftp.FileTree.Resolution.{TreeOk, Finds, find_path-Finds, with_remote-TreeOk}

module _ (a : Content) (e : ContentEnc) (big : Bytes → Bool) where
  abbrev kept : FileInfo → Answer Bytes → List FileInfo → List FileInfo
  kept info (fails _) rest = rest
  kept info (gives name) rest =
      record { name = name; size = e.cipher_size_to_plain_size info.size; is_dir = info.is_dir }
      ∷ rest

  -- The entries whose names decrypt, in order, with their plaintext names and sizes.
  abbrev pub plain_infos : Bytes → List FileInfo → List FileInfo
  plain_infos iv [] = []
  plain_infos iv (info ∷ rest) = kept info (a.plain_name info.name iv) (plain_infos iv rest)

  abbrev shown_list : Bytes → Answer (List FileInfo) → Option (List FileInfo)
  shown_list iv (fails _) = none
  shown_list iv (gives l) = some (plain_infos iv l)

  abbrev shown_iv : Bytes → Answer Bytes → Option (List FileInfo)
  shown_iv path (fails _) = none
  shown_iv path (gives iv) = shown_list iv (a.listing path)

  -- The plaintext listing of a ciphertext directory.
  unfoldable pub shown : Bytes → Option (List FileInfo)
  shown path = shown_iv path (a.file (join path iv_name))

  module _ {S : Type 0} {r : Remote S} (st : Stable r a) (fuel : ℕ) where
    range_loop-plain_infos :
        (iv : Bytes) (l acc : List FileInfo) (s : S)
        → (range_loop r iv (append_info e big r fuel) l acc s).0 ≡ some (acc ++ plain_infos iv l)
    unfolding range_loop plain_file_info
    range_loop-plain_infos iv [] acc s = ap some (sym (append-nil acc))
    range_loop-plain_infos iv (info ∷ rest) acc s =
        let s' : S = (r.decrypt_name info.name iv s).1 in
        elim (Answer-cases (a.plain_name info.name iv)) [
          | inl (c, x) ↦
              rw (st.decrypts info.name iv s ∙ ap some x, x, range_loop)
                (range_loop-plain_infos iv rest acc s')
          | inr (name, x) ↦
              let more = acc ++ (plain_file_info e.cipher_size_to_plain_size info name ∷ []) in
              rw (st.decrypts info.name iv s ∙ ap some x, x, range_loop)
                (range_loop-plain_infos iv rest more s'
                  ∙ ap some (
                      append_assoc acc (plain_file_info e.cipher_size_to_plain_size info name ∷ [])
                        (plain_infos iv rest)))
        ]

    abbrev pub Shows : Tree S → Option (List FileInfo) → Run S (List FileInfo) → Type 0
    Shows t (some l) x = (s : S) × (x ≡ ok l (record t { remote = s }))
    Shows t none x = (s : S) × (b : Error) × (x ≡ err b (record t { remote = s }))

    range_in_dir-answers :
        (path : Bytes) (t : Tree S) (x : Answer Bytes)
        → a.file (join path iv_name) ≡ x
        → (y : Answer (List FileInfo)) → a.listing path ≡ y
        → Shows t
            (shown_iv path x)
            (wrap (listing_path path) (range_in_dir r path (append_info e big r fuel) [] t))
    unfolding range_in_dir
    range_in_dir-answers path t (fails b) p y q =
        rw (st.reads (join path iv_name) t.remote ∙ p)
          ((r.read_file (join path iv_name) t.remote).1, listing_path path (reading_iv b), refl)
    range_in_dir-answers path t (gives iv) p (fails b) q =
        let s₁ : S = (r.read_file (join path iv_name) t.remote).1 in
        rw (q, st.reads (join path iv_name) t.remote ∙ p, st.lists path s₁ ∙ q)
          ((r.read_dir path s₁).1, listing_path path (listing_directory b), refl)
    range_in_dir-answers path t (gives iv) p (gives l) q =
        let s₁ : S = (r.read_file (join path iv_name) t.remote).1 in
        let s₂ : S = (r.read_dir path s₁).1 in
        rw
          (
            q,
            st.reads (join path iv_name) t.remote ∙ p,
            st.lists path s₁ ∙ q,
            range_loop-plain_infos iv l [] s₂,
          )
          ((range_loop r iv (append_info e big r fuel) l [] s₂).1, refl)

    module _ (root : Bytes) where
      -- The outcome of listing a clean path.
      abbrev pub ReadsDir : Bytes → Run S (List FileInfo) → Type 0
      ReadsDir q (ok l t) =
          TreeOk a root t × ((v : Bytes) × Resolves a root q v × (shown v ≡ some l))
      ReadsDir q (err b t) = TreeOk a root t × ((v : Bytes) → Resolves a root q v → shown v ≡ none)
      ReadsDir q panic = ⊥
      ReadsDir q out_of_fuel = ⊥

      Shows-ReadsDir :
          (q v : Bytes) (t : Tree S)
          → TreeOk a root t
          → Resolves a root q v
          → (o : Option (List FileInfo)) → shown v ≡ o
          → (x : Run S (List FileInfo)) → Shows t o x
          → ReadsDir q x
      Shows-ReadsDir q v t k res (some l) h x (s, looked) =
          rw looked (with_remote-TreeOk a root t s k, (v, res, h))
      Shows-ReadsDir q v t k res none h x (s, b, looked) = rw looked (
        with_remote-TreeOk a root t s k,
        λ w res'. subst (λ u. shown u ≡ none) (Resolves-unique a res res') h,
      )

      -- On a remote that does not change and no name of which makes `DecryptName` panic, `ReadDir`
      -- of an absolute path returns, with a coherent cache: the entries of the directory that the
      -- path stands for, in order, those whose names decrypt and no others, each with its plaintext
      -- name and size; or an error exactly if the path stands for no directory or for one without
      -- initialization vector or listing.
      pub read_dir-ReadsDir :
          (p : Bytes) (t : Tree S)
          → is_rooted p ≡ true
          → length p < fuel
          → TreeOk a root t
          → ReadsDir (clean (clean p)) (read_dir e big r fuel p t)
      unfolding read_dir shown
      read_dir-ReadsDir p t abs enough k = after (find_path r fuel (clean p) t) (
          find_path-Finds a root st fuel (clean p) t (clean-is_rooted p abs)
            (omega (
              arith,
              enough,
              length-clean-le p abs,
              length-clean-le (clean p) (clean-is_rooted p abs),
            ))
            k)
        where
          after :
              (x : Run S Bytes)
              → Finds a root (clean (clean p)) x
              → ReadsDir (clean (clean p)) (
                  and_then (wrap finding_path x) (λ path. λ u.
                    wrap (listing_path path) (range_in_dir r path (append_info e big r fuel) [] u)))
          after (ok v u) (k', res) =
              Shows-ReadsDir (clean (clean p)) v u k' res (shown v) refl
                (wrap (listing_path v) (range_in_dir r v (append_info e big r fuel) [] u))
                (range_in_dir-answers v u (a.file (join v iv_name)) refl (a.listing v) refl)
          after (err b u) (k', none_here) = (k', λ v res. absurd (none_here v res))
          after panic h = h
          after out_of_fuel h = h

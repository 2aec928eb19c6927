-- ===== src/FileTree/Stat.antt =====
-- `Stat` goes through `findPath`, which finds directories only.
use gocryptsftp.Base.{ℕ, ◌<◌, ◌≡◌, refl, Bool, true, arith, Bytes, length}
use gocryptsftp.FileTree.Paths.{is_rooted, clean, base}
use gocryptsftp.FileTree.Paths.Shorter.{clean-is_rooted, length-clean-le}
use gocryptsftp.FileTree.Defs.{
  Remote, ContentEnc, Error, finding_path, running_stat, Tree, Run, ok, err, panic, out_of_fuel,
  pure, and_then, wrap, reply, ask,
}
use gocryptsftp.FileTree.Walk.{find_path}
use gocryptsftp.FileTree.Calls.{plain_file_info, stat}
use gocryptsftp.FileTree.Spec.{Content, Stable, Resolves, at_root, below, Resolves-unique}
use gocryptsftp.FileTree.Resolution.{TreeOk, Finds, find_path-Finds}
use gocryptsftp.FileTree.Reading.{Contains}

module _ (a : Content) (root : Bytes) where
  -- A path does not stand for a file and for a directory.
  Contains-Resolves : {q b v : Bytes} → Contains a root q b → ¬ Resolves a root q v
  Contains-Resolves y (at_root e x) = y.no_root e
  Contains-Resolves y (below u i ne up c d x) =
      let p : u ≡ y.parent = Resolves-unique a up y.parent_found in
      ground (arith, p, c, d, y.listed, y.no_dir)

  module _ (e : ContentEnc) (big : Bytes → Bool) {S : Type 0} {r : Remote S} (st : Stable r a)
      (fuel : ℕ) where
    -- On a remote that does not change and no name of which makes `DecryptName` panic, `Stat` of an
    -- absolute path that stands for a file fails, before it asks the remote for the attributes.
    pub stat-file_fails :
        (p b : Bytes) (t : Tree S)
        → is_rooted p ≡ true
        → length p < fuel
        → TreeOk a root t
        → Contains a root (clean (clean p)) b
        → (x : Error) × (t' : Tree S) × (stat e big r fuel p t ≡ err (finding_path x) t')
    unfolding stat
    stat-file_fails p b t abs enough k y = after (find_path r fuel (clean p) t) (
        find_path-Finds a root st fuel (clean p) t (clean-is_rooted p abs)
          (omega (
            arith,
            enough,
            length-clean-le p abs,
            length-clean-le (clean p) (clean-is_rooted p abs),
          ))
          k)
      where
        after :
            (x : Run S Bytes)
            → Finds a root (clean (clean p)) x
            → (z : Error) × (t' : Tree S) × (and_then (wrap finding_path x) (λ path. λ u.
                  and_then (reply running_stat (ask (r.stat path) u)) (λ item.
                    pure (plain_file_info e.cipher_size_to_plain_size item (base (clean p)))))
                ≡ err (finding_path z) t')
        after (ok v t') (k', res) = absurd (Contains-Resolves y res)
        after (err z t') h = (z, t', refl)
        after panic h = absurd h
        after out_of_fuel h = absurd h

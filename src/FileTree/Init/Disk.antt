-- ===== src/FileTree/Init/Disk.antt =====
-- What `Init` of filetree/filetree.go leaves on the disk.
use gocryptsftp.Base.{
  ℕ, ◌≡◌, ◌≢◌, refl, Option, none, some, [], arith, Bytes, codes, bytes_eq, lookup, insert,
  lookup-insert, lookup-delete, bytes_eq_iff, false,
}
use gocryptsftp.Requester.Defs.{ErrorCode}
use gocryptsftp.FileTree.Paths.{join}
use gocryptsftp.FileTree.Defs.{Answer, gives, fails}
use gocryptsftp.FileTree.Init.{
  Libraries, Disk, InitResult, init_exits, removing, written, with_temp, with_conf, init,
}

lookup_removed :
    (name j : Bytes) (r : InitResult) (d d' : Disk)
    → lookup name d ≡ none
    → ((i : Bytes) → bytes_eq name i ≡ false → lookup i d' ≡ lookup i d)
    → (removing name (r, d')).0 ≢ init_exits
    → lookup j (removing name (r, d')).1 ≡ lookup j d
unfolding removing
lookup_removed name j init_exits d d' fresh same runs = absurd (runs refl)
lookup_removed name j r d d' fresh same runs =
    ground (arith, lookup-delete name j d', same j, bytes_eq_iff name j, fresh)

lookup_copied :
    (name conf : Bytes) (d : Disk)
    → (i : Bytes) → bytes_eq name i ≡ false
    → lookup i (insert name conf (insert name [] d)) ≡ lookup i d
lookup_copied name conf d i ne =
    ground (arith, lookup-insert name i conf (insert name [] d), lookup-insert name i [] d)

module _ (l : Libraries) (num_workers : ℕ) (root password : Bytes) where
  temp_disk :
      (name conf j : Bytes) (d : Disk) (w c : Option ErrorCode)
      → lookup name d ≡ none
      → l.close_error ≡ c
      → let r =
          removing name (written l num_workers root password w name conf (insert name [] d)) in
        r.0 ≢ init_exits → lookup j r.1 ≡ lookup j d
  temp_disk name conf j d (some e) c fresh q =
      lookup_removed name j _ d (insert name [] d) fresh
        (λ i ne. ground (arith, lookup-insert name i [] d))
  temp_disk name conf j d none (some e) fresh q =
      rw q (lookup_removed name j _ d _ fresh (lookup_copied name conf d))
  temp_disk name conf j d none none fresh q =
      rw q (lookup_removed name j _ d _ fresh (lookup_copied name conf d))

  with_temp-disk :
      (x : Answer Bytes) (conf j : Bytes) (d : Disk)
      → ((name : Bytes) → x ≡ gives name → lookup name d ≡ none)
      → let r = with_temp l num_workers root password x conf d in
        r.0 ≢ init_exits → lookup j r.1 ≡ lookup j d
  with_temp-disk (fails e) conf j d fresh = λ runs. refl
  with_temp-disk (gives name) conf j d fresh =
      temp_disk name conf j d l.write_error l.close_error (fresh name refl) refl

  with_conf-disk :
      (x : Answer Bytes) (j : Bytes) (d : Disk)
      → ((name : Bytes) → l.temp_file ≡ gives name → lookup name d ≡ none)
      → let r = with_conf l num_workers root password x d in
        r.0 ≢ init_exits → lookup j r.1 ≡ lookup j d
  with_conf-disk (fails e) j d fresh = λ runs. refl
  with_conf-disk (gives conf) j d fresh = with_temp-disk l.temp_file conf j d fresh

  -- If the temporary file is new and `Init` does not end the process, then every file of the disk is
  -- as it was before: the copy of the configuration is gone.
  pub init-disk :
      (d : Disk) (j : Bytes)
      → ((name : Bytes) → l.temp_file ≡ gives name → lookup name d ≡ none)
      → (init l num_workers root password d).0 ≢ init_exits
      → lookup j (init l num_workers root password d).1 ≡ lookup j d
  unfolding init
  init-disk d j fresh runs =
      with_conf-disk (l.remote_file (join root (codes "gocryptfs.conf"))) j d fresh runs

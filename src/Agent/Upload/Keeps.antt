-- ===== src/Agent/Upload/Keeps.antt =====
-- internal/agent/engine.go: what the hash pass and the uploads leave alone.
use claude_backup.Prelude.{
  Text, text_eq, ℕ, zero, suc, take, drop, ◌++◌, List, [], ◌∷◌, inl, inr, Bool-cases, Option-cases,
  Sum-cases,
}
use claude_backup.Proto.{ManifestEntry, RunStats}
use claude_backup.Agent.Scan.{PathLib, Context, is_cancelled}
use claude_backup.Agent.Upload.{
  World, Pass, Upload, uploaded, failed, Uploads, note_upload, HashTable, hashes, needs_hash,
  hash_file, hash_entries, upload_file, upload_each, check_batches, check_all_blobs, by_hash,
  final_check, finish_uploads, upload_missing,
}

-- A property of the world that every call of a run keeps, but the commit of a snapshot.
pub record Keeps {W : Type 0} (host : World W) (P : W → Type 0) : Type 0 where
  pub open_file : (path : Text) (w : W) → P w → P (host.open_file path w).1
  pub read : (path : Text) (w : W) → P w → P (host.read path w).1
  pub check_blobs : (hs : List Text) (w : W) → P w → P (host.check_blobs hs w).1
  pub put_blob : (hash path : Text) (w : W) → P w → P (host.put_blob hash path w).1
  pub run_hook : (command : Text) (w : W) → P w → P (host.run_hook command w).1
  pub get_manifest : (id : Text) (w : W) → P w → P (host.get_manifest id w).1
  pub write_manifest : (es : List ManifestEntry) (w : W) → P w → P (host.write_manifest es w).1

note_upload-P :
    {W : Type 0} (P : W → Type 0) (r : Upload) (h : Text) (i : ℕ) (u : Uploads W)
    → P u.world
    → P (note_upload r h i u).world
unfolding note_upload
note_upload-P P (failed e) h i u p = p
note_upload-P P (uploaded n got) h i u p = p

module _ {W : Type 0} (host : World W) (lib : PathLib) (P : W → Type 0) (keeps : Keeps host P) where
  pub hash_entries-P :
      (es : List ManifestEntry) (st : RunStats) (c : Context) (w : W)
      → P w
      → P (hash_entries host lib es st c w).world
  unfolding hash_entries hash_file
  hash_entries-P [] st c w h = h
  hash_entries-P (e ∷ es) st c w h = elim (Bool-cases (needs_hash e)) [
    | inr fine ↦ rw (fine, hash_entries) (hash_entries-P es st c w h)
    | inl due ↦ elim (Bool-cases (is_cancelled c).0) [
      | inl gone ↦ rw (due, gone, hash_entries) h
      | inr ongoing ↦
          let h' = keeps.read (lib.from_slash e.path) w h in
          elim (Option-cases (host.read (lib.from_slash e.path) w).0) [
            | inl lost ↦ rw (due, ongoing, lost, hash_entries) (hash_entries-P es _ _ _ h')
            | inr (b, found) ↦ rw (due, ongoing, found, hash_entries) (hash_entries-P es _ _ _ h')
          ]
    ]
  ]

  upload_file-P :
      (n : ℕ) (path expect : Text) (c : Context) (w : W)
      → P w
      → P (upload_file host lib n path expect c w).1.1
  unfolding upload_file
  upload_file-P zero path expect c w h = h
  upload_file-P (suc n) path expect c w h = elim (Bool-cases (is_cancelled c).0) [
    | inl gone ↦ rw (gone, upload_file) h
    | inr ongoing ↦
        let w1 = (host.open_file path w).1 in
        let h1 = keeps.open_file path w h in
        let h2 = keeps.put_blob expect path w1 h1 in
        let got = host.hash_of (host.put_blob expect path w1).0.1 in
        elim (Bool-cases (host.open_file path w).0) [
          | inr closed ↦ rw (ongoing, closed, upload_file) h1
          | inl opened ↦ elim (Bool-cases (host.put_blob expect path w1).0.0) [
            | inl accepted ↦ rw (ongoing, opened, accepted, upload_file) h2
            | inr refused ↦ elim (Bool-cases (is_cancelled (is_cancelled c).1).0) [
              | inl gone' ↦ rw (ongoing, opened, refused, gone', upload_file) h2
              | inr still ↦ elim (Bool-cases (text_eq got expect)) [
                | inl same ↦ rw (ongoing, opened, refused, still, same, upload_file) h2
                | inr new ↦
                    rw (ongoing, opened, refused, still, new, upload_file)
                      (upload_file-P n path got _ _ h2)
              ]
            ]
          ]
        ]
  ]

  check_batches-P :
      (fuel batch : ℕ) (hs missing : List Text) (w : W)
      → P w
      → P (check_batches host lib fuel batch hs missing w).1
  unfolding check_batches
  check_batches-P fuel batch [] missing w h = h
  check_batches-P zero batch (x ∷ xs) missing w h = h
  check_batches-P (suc fuel) batch (x ∷ xs) missing w h =
      let h' = keeps.check_blobs (take batch (x ∷ xs)) w h in
      elim (Sum-cases (host.check_blobs (take batch (x ∷ xs)) w).0) [
        | inl (e, lost) ↦ rw (lost, check_batches) h'
        | inr (m, got) ↦
            rw (got, check_batches)
              (check_batches-P fuel batch (drop batch (x ∷ xs)) (missing ++ m) _ h')
      ]

  check_all_blobs-P : (hs : List Text) (w : W) → P w → P (check_all_blobs host lib hs w).1
  unfolding check_all_blobs
  check_all_blobs-P hs w h = check_batches-P _ 1000 hs [] w h

  upload_each-P :
      (hs : List Text) (table : HashTable) (u : Uploads W)
      → P u.world
      → P (upload_each host lib hs table u).world
  unfolding upload_each
  upload_each-P [] table u h = h
  upload_each-P (x ∷ hs) table u h = elim (Bool-cases (is_cancelled u.ctx).0) [
    | inl gone ↦ rw (gone, upload_each) h
    | inr ongoing ↦
        rw (ongoing, upload_each)
          (upload_each-P hs table _
            (note_upload-P P _ x _ _ (upload_file-P 2 _ x (is_cancelled u.ctx).1 u.world h)))
  ]

  final_check-P :
      (u : Uploads W) (st : RunStats) (c : Context)
      → P u.world
      → P (final_check host lib u st c).pass.world
  unfolding final_check
  final_check-P u st c h =
      let h' = check_all_blobs-P (hashes (by_hash [] 0 u.entries)) u.world h in
      elim (Option-cases (check_all_blobs host lib (hashes (by_hash [] 0 u.entries)) u.world).0) [
        | inl short ↦ rw (short, final_check) h'
        | inr (inl e, lost) ↦ rw (lost, final_check) h'
        | inr (inr m, got) ↦ rw (got, final_check) h'
      ]

  finish_uploads-P :
      (u : Uploads W) (st : RunStats) → P u.world → P (finish_uploads host lib u st).pass.world
  unfolding finish_uploads
  finish_uploads-P u st h = elim (Option-cases u.first_error) [
    | inr (e, failing) ↦ rw (failing, finish_uploads) h
    | inl none_yet ↦ elim (Bool-cases (is_cancelled u.ctx).0) [
      | inl gone ↦ rw (none_yet, gone, finish_uploads) h
      | inr ongoing ↦ rw (none_yet, ongoing, finish_uploads) (final_check-P u _ _ h)
    ]
  ]

  pub upload_missing-P : (p : Pass W) → P p.world → P (upload_missing host lib p).pass.world
  unfolding upload_missing
  upload_missing-P p h =
      let h' = check_all_blobs-P (hashes (by_hash [] 0 p.kept)) p.world h in
      elim (Option-cases (check_all_blobs host lib (hashes (by_hash [] 0 p.kept)) p.world).0) [
        | inl short ↦ rw (short, upload_missing) h'
        | inr (inl e, lost) ↦ rw (lost, upload_missing) h'
        | inr (inr m, got) ↦
            rw (got, upload_missing) (finish_uploads-P _ p.stats (upload_each-P m _ _ h'))
      ]

-- ===== src/Agent/Upload/Counts.antt =====
-- internal/agent/engine.go: the number of files that a run reports.
use claude_backup.Prelude.{
  Text, text_eq, ℕ, zero, suc, ◌+◌, pos, ◌-ℤ◌, pos_down, ◌≡◌, refl, true, ◌||◌, List, [], ◌∷◌, inl,
  inr, arith, Bool-cases, Option-cases, if◌then◌else◌,
}
use mathlib.Core.Path.{sym, ◌∙◌, ap}
use claude_backup.Proto.{ManifestEntry, RunStats}
use claude_backup.Agent.Scan.{PathLib, Context, is_cancelled, is_regular}
use claude_backup.Agent.Scan.Counts.{count_files}
use claude_backup.Agent.Upload.{
  World, Pass, Uploads, Upload, uploaded, failed, HashTable, hashes, needs_hash, count_dropped,
  count_changed, hash_file, hash_entries, set_hash, note_upload, upload_each, check_all_blobs,
  by_hash, is_unavailable, drop_missing, final_check, finish_uploads, upload_missing,
}

-- `m` files and those of a list are counted.
abbrev pub Counts : ℕ → List ManifestEntry → RunStats → Type 0
Counts m es st = st.files_total ≡ pos (m + count_files es)

dropped-Counts :
    (m : ℕ) (e : ManifestEntry) (es : List ManifestEntry) (st : RunStats)
    → is_regular e ≡ true
    → Counts m (e ∷ es) st
    → Counts m es (count_dropped e st)
unfolding count_files
dropped-Counts m e es st f h =
    let one : m + count_files (e ∷ es) ≡ suc (m + count_files es) = ground arith in
    ap (λ x. x -ℤ pos 1) (h ∙ ap pos one) ∙ pos_down (m + count_files es)

weight : ManifestEntry → ℕ
weight e = if is_regular e then 1 else 0

-- An entry that is passed, and one that is kept.
pass_entry :
    (m : ℕ) (e : ManifestEntry) (es : List ManifestEntry)
    → m + count_files (e ∷ es) ≡ m + weight e + count_files es
unfolding count_files weight
pass_entry m e es = ground arith

set_hash-count_files :
    (i : ℕ) (h : Text) (es : List ManifestEntry) → count_files (set_hash i h es) ≡ count_files es
unfolding set_hash count_files
set_hash-count_files zero h [] = refl
set_hash-count_files (suc i) h [] = refl
set_hash-count_files zero h (e ∷ es) = refl
set_hash-count_files (suc i) h (e ∷ es) = ground (arith, set_hash-count_files i h es)

drop_missing-Counts :
    (missing : List Text) (m : ℕ) (es : List ManifestEntry) (st : RunStats)
    → Counts m es st
    → Counts m (drop_missing missing es st).0 (drop_missing missing es st).1
unfolding drop_missing count_files
drop_missing-Counts missing m [] st h = h
drop_missing-Counts missing m (e ∷ es) st h = elim (Bool-cases (is_unavailable missing e)) [
  | inl gone ↦ rw gone (
      drop_missing-Counts missing m es (count_dropped e st)
        (dropped-Counts m e es st (ground arith) h))
  | inr there ↦ rw there (
      drop_missing-Counts missing (m + weight e) es st (h ∙ ap pos (pass_entry m e es))
      ∙ ap pos (sym (pass_entry m e (drop_missing missing es st).0)))
]

note_upload-count_files :
    {W : Type 0} (r : Upload) (h : Text) (i : ℕ) (u : Uploads W)
    → count_files (note_upload r h i u).entries ≡ count_files u.entries
unfolding note_upload
note_upload-count_files (failed e) h i u = refl
note_upload-count_files (uploaded n got) h i u =
    elim (Bool-cases (text_eq got [] || text_eq got h)) [
      | inl same ↦ rw same refl
      | inr new ↦ rw new (set_hash-count_files i got u.entries)
    ]

module _ {W : Type 0} (host : World W) (lib : PathLib) where
  pub hash_entries-Counts :
      (m : ℕ) (es : List ManifestEntry) (st : RunStats) (c : Context) (w : W)
      → Counts m es st
      → Counts m (hash_entries host lib es st c w).kept (hash_entries host lib es st c w).stats
  unfolding hash_entries hash_file weight count_files
  hash_entries-Counts m [] st c w h = h
  hash_entries-Counts m (e ∷ es) st c w h = elim (Bool-cases (needs_hash e)) [
    | inr fine ↦
        rw (fine, hash_entries)
          (hash_entries-Counts (m + weight e) es st c w (h ∙ ap pos (pass_entry m e es))
            ∙ ap pos (sym (pass_entry m e _)))
    | inl due ↦ elim (Bool-cases (is_cancelled c).0) [
      | inl gone ↦ rw (due, gone, hash_entries) h
      | inr ongoing ↦ elim (Option-cases (host.read (lib.from_slash e.path) w).0) [
        | inl lost ↦
            rw (due, ongoing, lost, hash_entries)
              (hash_entries-Counts m es (count_dropped e st) (is_cancelled c).1 _
                (dropped-Counts m e es st (ground arith) h))
        | inr (b, found) ↦
            rw (due, ongoing, found, hash_entries)
              (hash_entries-Counts (m + weight e) es (count_changed st) (is_cancelled c).1 _
                  (h ∙ ap pos (pass_entry m e es))
                ∙ ap pos (sym (pass_entry m (record e { hash = host.hash_of b }) _)))
      ]
    ]
  ]

  upload_each-count_files :
      (hs : List Text) (table : HashTable) (u : Uploads W)
      → count_files (upload_each host lib hs table u).entries ≡ count_files u.entries
  unfolding upload_each
  upload_each-count_files [] table u = refl
  upload_each-count_files (h ∷ hs) table u = elim (Bool-cases (is_cancelled u.ctx).0) [
    | inl gone ↦ rw (gone, upload_each) refl
    | inr ongoing ↦
        rw (ongoing, upload_each)
          (upload_each-count_files hs table _ ∙ note_upload-count_files _ h _ _)
  ]

  final_check-Counts :
      (u : Uploads W) (st : RunStats) (c : Context)
      → Counts 0 u.entries st
      → Counts 0 (final_check host lib u st c).pass.kept (final_check host lib u st c).pass.stats
  unfolding final_check
  final_check-Counts u st c h =
      elim (Option-cases (check_all_blobs host lib (hashes (by_hash [] 0 u.entries)) u.world).0) [
        | inl short ↦ rw (short, final_check) h
        | inr (inl e, lost) ↦ rw (lost, final_check) h
        | inr (inr m, got) ↦ rw (got, final_check) (drop_missing-Counts m 0 u.entries st h)
      ]

  finish_uploads-Counts :
      (u : Uploads W) (st : RunStats)
      → Counts 0 u.entries st
      → Counts 0 (finish_uploads host lib u st).pass.kept (finish_uploads host lib u st).pass.stats
  unfolding finish_uploads
  finish_uploads-Counts u st h = elim (Option-cases u.first_error) [
    | inr (e, failing) ↦ rw (failing, finish_uploads) h
    | inl none_yet ↦ elim (Bool-cases (is_cancelled u.ctx).0) [
      | inl gone ↦ rw (none_yet, gone, finish_uploads) h
      | inr ongoing ↦ rw (none_yet, ongoing, finish_uploads) (final_check-Counts u _ _ h)
    ]
  ]

  -- The uploads change the count of files as they change the list of them.
  pub upload_missing-Counts :
      (p : Pass W)
      → Counts 0 p.kept p.stats
      → Counts 0 (upload_missing host lib p).pass.kept (upload_missing host lib p).pass.stats
  unfolding upload_missing
  upload_missing-Counts p h =
      elim (Option-cases (check_all_blobs host lib (hashes (by_hash [] 0 p.kept)) p.world).0) [
        | inl short ↦ rw (short, upload_missing) h
        | inr (inl e, lost) ↦ rw (lost, upload_missing) h
        | inr (inr m, got) ↦
            rw (got, upload_missing)
              (finish_uploads-Counts _ p.stats
                (h ∙ ap (λ n. pos (0 + n)) (sym (upload_each-count_files m _ _))))
      ]

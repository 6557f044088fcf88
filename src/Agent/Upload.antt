-- ===== src/Agent/Upload.antt =====
-- internal/agent/engine.go: the hash pass of a scan, and the upload of the blobs that the server does
-- not have. The files and the calls of internal/agent/http.go act on a world that is a parameter.
mod Host
pub mod Batches
pub mod Available
pub mod Hashed
pub mod Counts
pub mod Keeps
pub use Host.*
use claude_backup.Prelude.{
  Text, codes, text_eq, ℕ, zero, suc, ℤ, pos, ◌+ℤ◌, ◌-ℤ◌, int64, contains, length, take, drop,
  get_elem?, Bool, true, false, not, ◌&&◌, ◌||◌, Option, none, some, List, [], ◌∷◌, ◌++◌,
  if◌then◌else◌, map, ◌⊎◌, inl, inr,
}
use claude_backup.Proto.{ManifestEntry, RunStats}
use claude_backup.Storage.{Bytes}
use claude_backup.Agent.Scan.{Context, is_cancelled, PathLib, Roots, is_regular}

-- An entry that the scan has put in `toHash`.
abbrev pub needs_hash : ManifestEntry → Bool
needs_hash e = is_regular e && text_eq e.hash []

-- e.Type == "f" && e.Hash != ""
abbrev pub has_hash : ManifestEntry → Bool
has_hash e = is_regular e && not (text_eq e.hash [])

abbrev pub count_dropped : ManifestEntry → RunStats → RunStats
count_dropped e st = record st {
  files_skipped = st.files_skipped +ℤ pos 1;
  files_total = st.files_total -ℤ pos 1;
  bytes_total = int64 (st.bytes_total -ℤ e.size);
}

abbrev pub count_changed : RunStats → RunStats
count_changed st = record st { files_changed = st.files_changed +ℤ pos 1 }

-- The values that a loop over the entries has changed: the entries that it keeps, and the state.
pub record Pass (W : Type 0) : Type 0 where
  pub kept : List ManifestEntry
  pub stats : RunStats
  pub ctx : Context
  pub world : W

abbrev pub keep : {W : Type 0} → ManifestEntry → Pass W → Pass W
keep e p = record p { kept = e ∷ p.kept }

module _ {W : Type 0} (host : World W) (lib : PathLib) where
  -- openForBackup is part of the read, whose error it is.
  unfoldable pub hash_file : Text → W → Option Text × W
  hash_file path w =
      let (content, w') = host.read (lib.from_slash path) w in
      (elim content [ none ↦ none | some b ↦ some (host.hash_of b) ], w')

  -- From the entry where it finds the run cancelled, the pass keeps the entries as they are.
  unfoldable pub hash_entries : List ManifestEntry → RunStats → Context → W → Pass W
  unfolding hash_file
  hash_entries [] st c w = record { kept = []; stats = st; ctx = c; world = w }
  hash_entries (e ∷ es) st c w = elim (needs_hash e) [
    | false ↦ keep e (hash_entries es st c w)
    | true ↦
        let (gone, c') = is_cancelled c in
        elim gone [
          | true ↦ record { kept = e ∷ es; stats = st; ctx = c'; world = w }
          | false ↦
              let (hash, w') = hash_file e.path w in
              elim hash [
                | none ↦ hash_entries es (count_dropped e st) c' w'
                | some h ↦ keep (record e { hash = h }) (hash_entries es (count_changed st) c' w')
              ]
        ]
  ]

  -- One file, with the attempts that are left.
  unfoldable pub upload_file : ℕ → Text → Text → Context → W → Upload × (Context × W)
  upload_file zero path expect c w = (failed run_failed, (c, w))
  upload_file (suc attempts) path expect c w =
      let (gone, c1) = is_cancelled c in
      elim gone [
        | true ↦ (failed run_cancelled, (c1, w))
        | false ↦
            let (opened, w1) = host.open_file path w in
            elim opened [
              | false ↦ (failed run_failed, (c1, w1))
              | true ↦
                  let (answer, w2) = host.put_blob expect path w1 in
                  let (accepted, content) = answer in
                  let got = host.hash_of content in
                  elim accepted [
                    | true ↦ (uploaded (pos (length content)) got, (c1, w2))
                    | false ↦
                        let (gone', c2) = is_cancelled c1 in
                        elim gone' [
                          | true ↦ (failed run_cancelled, (c2, w2))
                          | false ↦ elim (text_eq got expect) [
                            | true ↦ (failed run_failed, (c2, w2))
                            | false ↦ upload_file attempts path got c2 w2
                          ]
                        ]
                  ]
            ]
      ]

  -- The batches of at most `batch` hashes that are left, on fuel: `none` is too little of it.
  unfoldable pub check_batches :
      ℕ → ℕ → List Text → List Text → W → Option (RunError ⊎ List Text) × W
  check_batches fuel batch [] missing w = (some (inr missing), w)
  check_batches zero batch (h ∷ hs) missing w = (none, w)
  check_batches (suc fuel) batch (h ∷ hs) missing w =
      let (answer, w') = host.check_blobs (take batch (h ∷ hs)) w in
      elim answer [
        | inl e ↦ (some (inl e), w')
        | inr m ↦ check_batches fuel batch (drop batch (h ∷ hs)) (missing ++ m) w'
      ]

  abbrev pub batch_size : ℕ
  batch_size = 1000

  -- No batch is empty, so there are at most as many of them as hashes.
  unfoldable pub check_all_blobs : List Text → W → Option (RunError ⊎ List Text) × W
  unfolding check_batches
  check_all_blobs hashes w = check_batches (length hashes) batch_size hashes [] w

-- A map from hashes to indices.
abbrev pub HashTable : Type 0
HashTable = List (Text × ℕ)

abbrev pub hashes : HashTable → List Text
hashes t = map (λ r. r.0) t

-- The hash of each file, with the index of its first entry; the entries count from an index.
unfoldable pub by_hash : HashTable → ℕ → List ManifestEntry → HashTable
by_hash table i [] = table
by_hash table i (e ∷ es) =
    let added = by_hash (table ++ (e.hash, i) ∷ []) (suc i) es in
    let rest = by_hash table (suc i) es in
    if has_hash e && not (contains (hashes table) e.hash) then added else rest

-- A hash that the map does not have is at index 0.
unfoldable pub index_of : Text → HashTable → ℕ
index_of h [] = 0
index_of h ((k, i) ∷ table) = if text_eq k h then i else index_of h table

unfoldable pub set_hash : ℕ → Text → List ManifestEntry → List ManifestEntry
set_hash i h [] = []
set_hash zero h (e ∷ es) = record e { hash = h } ∷ es
set_hash (suc i) h (e ∷ es) = e ∷ set_hash i h es

abbrev pub path_at : List ManifestEntry → ℕ → Text
path_at es i = elim (get_elem? es i) [ none ↦ [] | some e ↦ e.path ]

-- The variables that the uploads share.
pub record Uploads (W : Type 0) : Type 0 where
  pub entries : List ManifestEntry
  pub bytes : ℤ
  pub first_error : Option RunError
  pub ctx : Context
  pub world : W

unfoldable pub note_upload : {W : Type 0} → Upload → Text → ℕ → Uploads W → Uploads W
unfolding set_hash
note_upload (failed e) h i u = record u {
  first_error = elim u.first_error [ none ↦ some e | some e' ↦ some e' ];
}
note_upload (uploaded n got) h i u = record u {
  entries = if text_eq got [] || text_eq got h then u.entries else set_hash i got u.entries;
  bytes = u.bytes +ℤ n;
}

-- A file whose blob the server does not have, or still misses.
abbrev pub is_unavailable : List Text → ManifestEntry → Bool
is_unavailable missing e = is_regular e && contains missing e.hash

unfoldable pub drop_missing :
    List Text → List ManifestEntry → RunStats → List ManifestEntry × RunStats
drop_missing missing [] st = ([], st)
drop_missing missing (e ∷ es) st =
    let (dropped, st') = drop_missing missing es (count_dropped e st) in
    let (rest, st'') = drop_missing missing es st in
    if is_unavailable missing e then (dropped, st') else (e ∷ rest, st'')

-- What uploadMissing leaves: an error, or none, and the values that it has changed.
pub record Checked (W : Type 0) : Type 0 where
  pub outcome : Option RunError
  pub pass : Pass W

module _ {W : Type 0} (host : World W) (lib : PathLib) where
  -- The uploads run at the same time, four at most; each stands for one step here, in the order in
  -- which they begin.
  unfoldable pub upload_each : List Text → HashTable → Uploads W → Uploads W
  unfolding upload_file note_upload index_of
  upload_each [] table u = u
  upload_each (h ∷ hs) table u =
      let (gone, c) = is_cancelled u.ctx in
      elim gone [
        | true ↦ record u { ctx = c }
        | false ↦
            let i = index_of h table in
            let (result, after) =
              upload_file host lib 2 (lib.from_slash (path_at u.entries i)) h c u.world in
            let (c', w') = after in
            upload_each hs table (note_upload result h i (record u { ctx = c'; world = w' }))
      ]

  -- The consistency check at the end.
  unfoldable pub final_check : Uploads W → RunStats → Context → Checked W
  unfolding check_all_blobs by_hash drop_missing
  final_check u st c =
      let (answer, w) = check_all_blobs host lib (hashes (by_hash [] 0 u.entries)) u.world in
      let as_is : Pass W = record { kept = u.entries; stats = st; ctx = c; world = w } in
      elim answer [
        | none ↦ record { outcome = some run_failed; pass = as_is }
        | some (inl e) ↦ record { outcome = some e; pass = as_is }
        | some (inr missing) ↦
            let (kept, st') = drop_missing missing u.entries st in
            record { outcome = none; pass = record as_is { kept = kept; stats = st' } }
      ]

  unfoldable pub finish_uploads : Uploads W → RunStats → Checked W
  unfolding final_check
  finish_uploads u st =
      let as_is : Pass W = record { kept = u.entries; stats = st; ctx = u.ctx; world = u.world } in
      elim u.first_error [
        | some e ↦ record { outcome = some e; pass = as_is }
        | none ↦
            let st' = record st { bytes_uploaded = u.bytes } in
            let (gone, c) = is_cancelled u.ctx in
            elim gone [
              | true ↦ record {
                outcome = some run_cancelled;
                pass = record as_is { stats = st'; ctx = c };
              }
              | false ↦ final_check u st' c
            ]
      ]

  unfoldable pub upload_missing : Pass W → Checked W
  unfolding check_all_blobs by_hash upload_each finish_uploads
  upload_missing p =
      let table = by_hash [] 0 p.kept in
      let (answer, w) = check_all_blobs host lib (hashes table) p.world in
      let p' = record p { world = w } in
      elim answer [
        | none ↦ record { outcome = some run_failed; pass = p' }
        | some (inl e) ↦ record { outcome = some e; pass = p' }
        | some (inr missing) ↦
            finish_uploads
              (upload_each missing table (record {
                entries = p.kept;
                bytes = pos 0;
                first_error = none;
                ctx = p.ctx;
                world = w;
              }))
              p.stats
      ]

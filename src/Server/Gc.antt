-- ===== src/Server/Gc.antt =====
-- internal/server/gc.go, and eachManifestEntry of internal/server/manifest.go: retention and the
-- collection of blobs that no manifest refers to.
pub mod Marking
pub mod Safety
pub mod Index
pub mod Pruning
pub mod Retention
use claude_backup.Prelude.{
  Text, codes, text_eq, ℕ, zero, suc, ◌+◌, ℤ, pos, ltz, ltb, is_pos, contains, ◌==◌, Bool, true,
  false, not, ◌&&◌, ◌||◌, Option, none, some, List, [], ◌∷◌, if◌then◌else◌,
}
use claude_backup.Proto.{Job, ManifestEntry}
use claude_backup.Store.{Snapshot, JobRow}
use claude_backup.Store.Blobs.{all_blobs, delete_blob}
use claude_backup.Store.Jobs.{list_jobs}
use claude_backup.Store.Snapshots.{list_snapshots}
use claude_backup.Storage.{Bytes, get, remove}
use claude_backup.Storage.Keys.{blob_key}
use claude_backup.Server.{Server, Result, ok, err, storage_error, corrupt_manifest, with_store}
use claude_backup.Server.Snapshots.{delete_snapshot}

-- What the libraries read out of a manifest: the lines that zstd and `bufio.Scanner` yield, with
-- whether they came to the end without an error, and the entry of a line of JSON.
pub record Codec : Type 0 where
  pub lines : Bytes → List Text × Bool
  pub entry : Text → Option ManifestEntry

-- `e.Type == "f" && e.Hash != ""`
unfoldable pub is_file : ManifestEntry → Bool
is_file e = text_eq e.type (codes "f") && not (text_eq e.hash [])

abbrev pub note_entry : List Text → ManifestEntry → List Text
note_entry refs e = if is_file e then e.hash ∷ refs else refs

module _ (codec : Codec) where
  abbrev pub note_line : List Text → Option ManifestEntry → Option (List Text)
  note_line refs none = none
  note_line refs (some e) = some (note_entry refs e)

  -- The hashes of the files of a manifest, added to those seen; `none` is a corrupt manifest.
  unfoldable pub mark_lines : List Text → Bool → List Text → Option (List Text)
  mark_lines [] complete refs = if complete then some refs else none
  mark_lines (line ∷ lines) complete refs =
      let blank = mark_lines lines complete refs in
      if text_eq line [] then blank else elim (codec.entry line) [
        | none ↦ none
        | some e ↦ mark_lines lines complete (note_entry refs e)
      ]

  unfoldable pub mark_manifest : Text → List Text → Server → Option (List Text) × Server
  mark_manifest key refs s =
      let (content, o) = get key s.objects in
      let s' = record s { objects = o } in
      (
        elim content [
          | none ↦ none
          | some b ↦ let (lines, complete) = codec.lines b in mark_lines lines complete refs
        ],
        s',
      )

  -- One unreadable manifest ends the marking.
  unfoldable pub mark : List Snapshot → List Text → Server → Option (List Text) × Server
  mark [] refs s = (some refs, s)
  mark (sn ∷ sns) refs s =
      let (marked, s') = mark_manifest sn.manifest_key refs s in
      elim marked [ none ↦ (none, s') | some refs' ↦ mark sns refs' s' ]

-- `createdAt > graceCutoff`
abbrev pub is_young : ℕ → ℕ → ℕ → Bool
is_young grace now created = ltb now (created + grace)

-- The object first: where it cannot be deleted, the row stays and the sweep ends.
unfoldable pub sweep : ℕ → List Text → List (Text × ℕ) → Server → Result (Unit {0}) × Server
sweep grace refs [] s = (ok tt, s)
sweep grace refs ((hash, created) ∷ rest) s =
    let spared = sweep grace refs rest s in
    if contains refs hash || is_young grace s.now created
    then spared
    else let (removed, o) = remove (blob_key hash) s.objects in
      let s' = record s { objects = o } in
      elim removed [
        | false ↦ (err storage_error, s')
        | true ↦ sweep grace refs rest (with_store (delete_blob s'.backend_key hash s'.store) s')
      ]

-- `grace` is blobGCGrace in seconds.
unfoldable pub gc_blobs : Codec → ℕ → Server → Result (Unit {0}) × Server
gc_blobs codec grace s =
    let (marked, s') = mark codec (list_snapshots s.backend_key [] [] s.store) [] s in
    elim marked [
      | none ↦ (err corrupt_manifest, s')
      | some refs ↦ sweep grace refs (all_blobs s'.backend_key s'.store) s'
    ]

-- Whether retention keeps the i-th newest snapshot of a job.
unfoldable pub is_kept : Job → ℤ → ℕ → Snapshot → Bool
is_kept job cutoff i sn =
    i == 0
    || (is_pos job.keep_last && ltz (pos i) job.keep_last)
    || (is_pos job.keep_days && not (ltz (pos sn.created_at) cutoff))

unfoldable pub prune_snapshots : Job → ℤ → ℕ → List Snapshot → Server → Result (Unit {0}) × Server
prune_snapshots job cutoff i [] s = (ok tt, s)
prune_snapshots job cutoff i (sn ∷ sns) s =
    let kept = prune_snapshots job cutoff (suc i) sns s in
    if is_kept job cutoff i sn
    then kept
    else let (result, s') = delete_snapshot sn.id s in
      elim result [ err e ↦ (err e, s') | ok _ ↦ prune_snapshots job cutoff (suc i) sns s' ]

-- `days_back now n` is the time n days before now by the calendar.
module _ (days_back : ℕ → ℤ → ℤ) where
  unfoldable pub prune_job : Job → Server → Result (Unit {0}) × Server
  unfolding prune_snapshots
  prune_job job s =
      if not (is_pos job.keep_last) && not (is_pos job.keep_days)
      then (ok tt, s)
      else prune_snapshots job (days_back s.now job.keep_days) 0
          (list_snapshots s.backend_key [] job.id s.store) s

  unfoldable pub prune_jobs : List JobRow → Server → Result (Unit {0}) × Server
  prune_jobs [] s = (ok tt, s)
  prune_jobs (row ∷ rows) s =
      let (result, s') = prune_job row.job s in
      elim result [ err e ↦ (err e, s') | ok _ ↦ prune_jobs rows s' ]

  unfoldable pub prune_retention : Server → Result (Unit {0}) × Server
  prune_retention s = prune_jobs (list_jobs [] s.store) s

  unfoldable pub prune_and_gc : Codec → ℕ → Server → Result (Unit {0}) × Server
  prune_and_gc codec grace s =
      let (result, s') = prune_retention s in
      elim result [ err e ↦ (err e, s') | ok _ ↦ gc_blobs codec grace s' ]

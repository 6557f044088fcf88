-- ===== src/Server/Snapshots.antt =====
-- internal/server/api_agent.go and gc.go: the blobs and manifests that agents upload, and the
-- deletion of a snapshot. Compression and SHA-256 are parameters.
pub mod Blobs
pub mod Commit
use claude_backup.Prelude.{
  Text, text_eq, ℕ, ℤ, length, leb, ◌==◌, Bool, true, false, not, ◌&&◌, ◌||◌, Option, none, some,
  List, [], ◌∷◌, if◌then◌else◌,
}
use claude_backup.Store.{Snapshot}
use claude_backup.Store.Blobs.{has_blob, missing_blobs, add_blob}
use claude_backup.Store.Jobs.{get_job}
use claude_backup.Store.Snapshots.{create_snapshot, get_snapshot, delete_snapshot_row}
use claude_backup.Storage.{Bytes, put, get, remove}
use claude_backup.Storage.Keys.{blob_key, manifest_key}
use claude_backup.Server.{
  Server, Result, ok, err, not_found, bad_request, forbidden, database_error, storage_error,
  fresh_id, use_id, with_store,
}
use claude_backup.Server.Transfers.{discard_object}
use claude_backup.Server.Messages.{run_belongs_to}

-- [0-9a-f]
abbrev is_hex_digit : ℕ → Bool
is_hex_digit c = (leb b'0' c && leb c b'9') || (leb b'a' c && leb c b'f')

unfoldable pub all_hex : Text → Bool
all_hex [] = true
all_hex (c ∷ s) = is_hex_digit c && all_hex s

-- hashRe: ^[0-9a-f]{64}$
unfoldable pub is_hash : Text → Bool
unfolding all_hex
is_hash h = length h == 64 && all_hex h

unfoldable pub all_hashes : List Text → Bool
all_hashes [] = true
all_hashes (h ∷ hs) = is_hash h && all_hashes hs

unfoldable pub handle_blob_check : List Text → Server → Result (List Text)
handle_blob_check hashes s =
    if all_hashes hashes then ok (missing_blobs s.backend_key hashes s.store) else err bad_request

module _ (inflate : Bytes → Option Bytes) (sha256_hex : Bytes → Text) where
  -- The object is stored; its content decides whether it stays, and enters the index.
  unfoldable pub accept_blob : Text → ℕ → Bool → Option Bytes → Server → Result (Unit {0}) × Server
  accept_blob hash stored_size true (some raw) s =
      if text_eq (sha256_hex raw) hash
      then (
        ok tt,
        with_store (add_blob s.backend_key hash (length raw) stored_size s.now s.store) s,
      )
      else (err bad_request, discard_object (blob_key hash) s)
  accept_blob hash stored_size _ _ s = (err bad_request, discard_object (blob_key hash) s)

  unfoldable pub handle_blob_put : Text → Bytes → Server → Result (Unit {0}) × Server
  unfolding accept_blob
  handle_blob_put hash body s =
      if not (is_hash hash)
      then (err bad_request, s)
      else if has_blob s.backend_key hash s.store
      then (ok tt, s)
      else let (stored, o) = put (blob_key hash) body s.objects in
        accept_blob hash (length body) stored (inflate body) (record s { objects = o })

unfoldable pub handle_blob_get : Text → Server → Result Bytes × Server
handle_blob_get hash s =
    if not (is_hash hash)
    then (err bad_request, s)
    else let (content, o) = get (blob_key hash) s.objects in
      (elim content [ none ↦ err not_found | some b ↦ ok b ], record s { objects = o })

-- The fields of the request's query.
pub record CommitRequest : Type 0 where
  pub job_id : Text
  pub run_id : Text
  pub mode : Text
  pub files : ℤ
  pub bytes : ℤ

unfoldable pub owns_job : Text → Text → Server → Bool
owns_job job_id agent_id s = elim (get_job job_id s.store) [
  | none ↦ false
  | some row ↦ text_eq row.job.agent_id agent_id
]

abbrev new_snapshot : Text → CommitRequest → Text → Server → Snapshot
new_snapshot id q agent_id s = record {
  id = id;
  backend = s.backend_key;
  job_id = q.job_id;
  agent_id = agent_id;
  run_id = q.run_id;
  mode = q.mode;
  files = q.files;
  bytes = q.bytes;
  created_at = 0;
  manifest_key = manifest_key id;
}

unfoldable pub store_manifest : CommitRequest → Bytes → Text → Server → Result Text × Server
store_manifest q body agent_id s =
    let id = fresh_id s in
    let (stored, o) = put (manifest_key id) body s.objects in
    let s' = use_id (record s { objects = o }) in
    if not stored
    then (err storage_error, s')
    else elim (create_snapshot (new_snapshot id q agent_id s) s'.now s'.store) [
      | none ↦ (err database_error, discard_object (manifest_key id) s')
      | some t ↦ (ok id, with_store t s')
    ]

-- The manifest is the body, compressed as it came.
unfoldable pub handle_snapshot_commit : CommitRequest → Bytes → Text → Server → Result Text × Server
unfolding store_manifest
handle_snapshot_commit q body agent_id s =
    if not (owns_job q.job_id agent_id s)
    then (err forbidden, s)
    else if not (text_eq q.run_id []) && not (run_belongs_to q.run_id agent_id s)
    then (err forbidden, s)
    else store_manifest q body agent_id s

unfoldable pub handle_manifest_get : Text → Text → Server → Result Bytes × Server
handle_manifest_get id agent_id s = elim (get_snapshot id s.store) [
  | none ↦ (err not_found, s)
  | some sn ↦
      if not (text_eq sn.agent_id agent_id)
      then (err not_found, s)
      else let (content, o) = get sn.manifest_key s.objects in
        (elim content [ none ↦ err not_found | some b ↦ ok b ], record s { objects = o })
]

-- The manifest first: where it cannot be deleted the row stays. An unknown snapshot is no error.
unfoldable pub delete_snapshot : Text → Server → Result (Unit {0}) × Server
delete_snapshot id s = elim (get_snapshot id s.store) [
  | none ↦ (ok tt, s)
  | some sn ↦
      let (removed, o) = remove sn.manifest_key s.objects in
      let s' = record s { objects = o } in
      if removed
      then (ok tt, with_store (delete_snapshot_row id s'.store) s')
      else (err storage_error, s')
]

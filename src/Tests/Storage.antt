-- ===== src/Tests/Storage.antt =====
-- The theorems on blobs, snapshots and their collection, at small states.
use claude_backup.Prelude.{
  Text, codes, text_eq, contains, ℕ, ◌≡◌, refl, pos, ℤ, true, none, some, [], ◌∷◌, inl, inr, arith,
}
use claude_backup.Store.{Snapshot}
use claude_backup.Store.Snapshots.{list_snapshots, is_listed, get_snapshot, delete_snapshot_row}
use claude_backup.Storage.{Object, get, remove, put}
use claude_backup.Storage.Keys.{blob_key, manifest_key}
use claude_backup.Server.{Server, ok}
use claude_backup.Server.Snapshots.{handle_blob_put, delete_snapshot}
use claude_backup.Server.Snapshots.Blobs.{AllStored, Stored, handle_blob_put-AllStored}
use claude_backup.Server.Gc.{
  gc_blobs, mark, mark_manifest, mark_lines, sweep, is_file, prune_job, prune_snapshots, is_kept,
}
use claude_backup.Sql.{select, first, delete}
use claude_backup.Sql.Order.{order_by, insert_sorted}
use claude_backup.Store.Blobs.{all_blobs, delete_blob, blob_is, has_blob}
use claude_backup.Server.Gc.Safety.{BlobKept, RefersTo, gc_blobs-BlobKept}
use claude_backup.Server.Gc.Pruning.{SnapshotKept}
use claude_backup.Server.Gc.Retention.{InPolicy, prune_job-SnapshotKept, InPolicy, prune_job_pruned}
use claude_backup.Prelude.{◌++◌}
use claude_backup.Storage.{Bytes}
use claude_backup.Bundle.{append, read, big_endian, enrollment}
use claude_backup.Bundle.Trailer.{read-append}
use claude_backup.Server.Gc.Index.{gc_blobs-AllStored}
use claude_backup.Prelude.{◌⊎◌}
use claude_backup.Server.{err, bad_request}
use claude_backup.Storage.{put}
use claude_backup.Server.Snapshots.{CommitRequest}
use claude_backup.Tests.{server_of, snapshot_of, blob_of, file_of, one_line, documents, store_of}

abbrev hash_a : Text
hash_a = codes "aa11"

abbrev hash_b : Text
hash_b = codes "bb22"

abbrev first_snapshot : Snapshot
first_snapshot = snapshot_of (codes "s1") 1

abbrev manifest_object : Object
manifest_object = record { key = manifest_key (codes "s1"); content = hash_a }

abbrev blob_object : Text → Object
blob_object hash = record { key = blob_key hash; content = hash }

-- Two old blobs, of which the manifest refers to the first.
abbrev collected : Server
collected =
    server_of
      (record (store_of []) {
        snapshots = first_snapshot ∷ [];
        blobs = blob_of hash_a ∷ blob_of hash_b ∷ [];
      })
      [] (manifest_object ∷ blob_object hash_a ∷ blob_object hash_b ∷ [])

refers : RefersTo one_line collected hash_a
unfolding manifest_key blob_key first text_eq is_file
refers = record {
  snapshot = first_snapshot;
  manifest = manifest_object;
  here = refl;
  stored = inl refl;
  found = refl;
  has_file = record {
    line = hash_a;
    entry = file_of hash_a;
    listed = inl refl;
    full = refl;
    decoded = refl;
    file = refl;
    hash = refl;
  };
}

gc_blobs-BlobKept_example : BlobKept hash_a collected (gc_blobs one_line 10 collected).1
gc_blobs-BlobKept_example = gc_blobs-BlobKept one_line 10 collected hash_a refers

-- The collection of that state succeeds and deletes the second blob.
collected_run :
    ((gc_blobs one_line 10 collected).0 ≡ ok tt)
    × ((gc_blobs one_line 10 collected).1.store.blobs ≡ blob_of hash_a ∷ [])
unfolding gc_blobs manifest_key blob_key mark list_snapshots order_by insert_sorted select is_listed
    text_eq mark_manifest get first mark_lines sweep all_blobs contains is_file remove delete_blob
    delete blob_is
collected_run = (refl, refl)

-- Three snapshots of a job that keeps two.
abbrev pruned : Server
pruned =
    server_of
      (record (store_of []) {
        snapshots = first_snapshot ∷ snapshot_of (codes "s2") 2 ∷ snapshot_of (codes "s3") 3 ∷ [];
      })
      [] (manifest_object ∷ [])

abbrev days : ℕ → ℤ → ℤ
days now n = pos 0

prune_job-SnapshotKept_example :
    SnapshotKept (codes "s2") pruned (prune_job days documents.job pruned).1
unfolding manifest_key first text_eq list_snapshots is_listed order_by insert_sorted select
prune_job-SnapshotKept_example =
    prune_job-SnapshotKept days documents.job pruned 1 (snapshot_of (codes "s2") 2)
      (refl, (refl, (refl, tt))) (refl, (refl, (refl, tt))) refl (inr (inl refl))

outside : ¬ InPolicy documents.job (pos 0) 2 first_snapshot
outside p = ground arith

prune_job_pruned_example :
    get_snapshot (codes "s1") (prune_job days documents.job pruned).1.store ≡ none
unfolding manifest_key first text_eq list_snapshots is_listed order_by insert_sorted select
    prune_job prune_snapshots is_kept delete_snapshot get_snapshot remove delete delete_snapshot_row
prune_job_pruned_example =
    prune_job_pruned days documents.job pruned 2 first_snapshot (inl refl) refl refl outside

-- An upload of the second blob, with SHA-256 replaced by the content itself.
abbrev uploaded : Text
uploaded = codes "0123456789abcdef0123456789abcdef0123456789abcdef0123456789abcdef"

abbrev uploading : Server
uploading =
    server_of (record (store_of []) { blobs = blob_of hash_a ∷ [] }) [] (blob_object hash_a ∷ [])

example_blob : Stored some (λ b. b) (blob_object hash_a ∷ []) hash_a
unfolding blob_key first text_eq
example_blob = record {
  object = blob_object hash_a;
  raw = hash_a;
  found = refl;
  inflated = refl;
  hashed = refl;
}

handle_blob_put-AllStored_example :
    let (r, s') = handle_blob_put some (λ b. b) uploaded uploaded uploading in
    AllStored some (λ b. b) s'
    × ((r ≡ err bad_request) ⊎ (r ≡ ok tt) × (has_blob s'.backend_key uploaded s'.store ≡ true))
unfolding select text_eq blob_key first
handle_blob_put-AllStored_example =
    handle_blob_put-AllStored some (λ b. b) uploaded uploaded uploading (example_blob, tt)

-- A commit for the job of alice.
abbrev commit : CommitRequest
commit = record {
  job_id = codes "j1";
  run_id = [];
  mode = codes "full";
  files = pos 1;
  bytes = pos 3;
}

abbrev new_snapshot_id : Text
new_snapshot_id = 0 ∷ 0 ∷ []

indexed : AllStored some (λ b. b) collected
unfolding blob_key first text_eq select manifest_key
indexed = (
  record {
    object = blob_object hash_a;
    raw = hash_a;
    found = refl;
    inflated = refl;
    hashed = refl;
  },
  (
    record {
      object = blob_object hash_b;
      raw = hash_b;
      found = refl;
      inflated = refl;
      hashed = refl;
    },
    tt,
  ),
)

gc_blobs-AllStored_example : AllStored some (λ b. b) (gc_blobs one_line 10 collected).1
gc_blobs-AllStored_example = gc_blobs-AllStored some (λ b. b) one_line 10 collected indexed

-- An agent binary of three bytes, with an enrollment that is its own JSON.
abbrev packed : Bytes
packed =
    1
    ∷ 2
    ∷ 3
    ∷ (codes "{}" ++ (0 ∷ 0 ∷ 0 ∷ 0 ∷ 0 ∷ 0 ∷ 0 ∷ 2 ∷ (codes "CBAGENTCFGv1" ++ 0 ∷ 0 ∷ 0 ∷ 0 ∷ [])))

read-append_example : read (λ b. b) some packed ≡ enrollment (codes "{}")
unfolding append big_endian
read-append_example =
    read-append (λ b. b) some (1 ∷ 2 ∷ 3 ∷ []) (codes "{}") packed refl (omega arith) refl

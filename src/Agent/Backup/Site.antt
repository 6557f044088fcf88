-- ===== src/Agent/Backup/Site.antt =====
-- internal/agent/engine.go and http.go, with internal/server/api_agent.go: a run of an agent whose
-- calls are handled by the server of this model. What else happens is an argument: the files, lost
-- requests and replies, and whatever the server does between two calls of the run.
pub mod Restorable
use claude_backup.Prelude.{
  Text, ℕ, suc, ℤ, Bool, true, false, not, ◌&&◌, ◌||◌, Option, none, some, List, [], ◌∷◌, ◌⊎◌, inl,
  inr, if◌then◌else◌,
}
use claude_backup.Proto.{ManifestEntry}
use claude_backup.Storage.{Bytes}
use claude_backup.Server.{Server, Result, ok, err}
use claude_backup.Server.Snapshots.{
  CommitRequest, handle_blob_check, handle_blob_put, handle_snapshot_commit, handle_manifest_get,
}
use claude_backup.Agent.Scan.{Roots}
use claude_backup.Agent.Upload.{RunError, Commit, World}

-- The server, and the number of calls of the run so far.
pub record Site : Type 0 where
  pub server : Server
  pub calls : ℕ

-- What is around a run, by the number of calls before.
pub record Surroundings : Type 0 where
  pub opens : ℕ → Text → Bool
  pub content : ℕ → Text → Option Bytes
  pub read_for_upload : ℕ → Text → Bytes
  pub hook_passes : ℕ → Text → Bool
  pub roots : ℕ → Roots
  pub cached_manifest : ℕ → Text → Option Bytes
  pub encode : ℕ → List ManifestEntry → Option Bytes
  pub request_lost : ℕ → Bool
  pub reply_lost : ℕ → Bool
  pub failure : ℕ → RunError
  pub error_text : ℕ → Text
  -- What the server does for others before it handles the request.
  pub others : ℕ → Server → Server

abbrev pub next_call : Site → Site
next_call w = record w { calls = suc w.calls }

abbrev pub answer : {A : Type 0} → RunError → Result A → RunError ⊎ A
answer e (ok a) = inr a
answer e (err _) = inl e

module _ (around : Surroundings) (inflate : Bytes → Option Bytes) (deflate : Bytes → Bytes)
    (sha256_hex : Bytes → Text) (agent_id : Text) where
  -- A request to the server: `do` of http.go, around the handler.
  unfoldable pub call : {A : Type 0} → (Server → Result A × Server) → Site → (RunError ⊎ A) × Site
  call handler w =
      let n = w.calls in
      let s = around.others n w.server in
      let (result, s') = handler s in
      if around.request_lost n
      then (inl (around.failure n), record { server = s; calls = suc n })
      else (
        if around.reply_lost n then inl (around.failure n) else answer (around.failure n) result,
        record { server = s'; calls = suc n },
      )

  abbrev pub accepted_by : {A : Type 0} → RunError ⊎ A → Bool
  accepted_by (inl e) = false
  accepted_by (inr a) = true

  abbrev pub content_of : {A : Type 0} → RunError ⊎ A → Option A
  content_of (inl e) = none
  content_of (inr a) = some a

  unfoldable pub put_blob : Text → Text → Site → (Bool × Bytes) × Site
  unfolding call
  put_blob hash path w =
      let content = around.read_for_upload w.calls path in
      let (result, w') = call (handle_blob_put inflate sha256_hex hash (deflate content)) w in
      ((accepted_by result, content), w')

  unfoldable pub commit_snapshot : Commit → Bytes → Site → (RunError ⊎ Text) × Site
  unfolding call
  commit_snapshot request body w =
      let q : CommitRequest = record {
        job_id = request.job_id;
        run_id = request.run_id;
        mode = request.mode;
        files = request.files;
        bytes = request.bytes;
      } in
      call (handle_snapshot_commit q body agent_id) w

  unfoldable pub check_blobs : List Text → Site → (RunError ⊎ List Text) × Site
  unfolding call
  check_blobs hashes w = call (λ s. (handle_blob_check hashes s, s)) w

  unfoldable pub get_manifest : Text → Site → Option Bytes × Site
  unfolding call
  get_manifest id w =
      let (result, w') = call (handle_manifest_get id agent_id) w in (content_of result, w')

  abbrev pub site : World Site
  site = record {
    open_file = λ path w. (around.opens w.calls path, next_call w);
    read = λ path w. (around.content w.calls path, next_call w);
    check_blobs = check_blobs;
    put_blob = put_blob;
    hash_of = sha256_hex;
    run_hook = λ command w. (around.hook_passes w.calls command, next_call w);
    roots = λ w. around.roots w.calls;
    cached_manifest = λ job_id w. around.cached_manifest w.calls job_id;
    get_manifest = get_manifest;
    write_manifest = λ entries w. (around.encode w.calls entries, next_call w);
    commit_snapshot = commit_snapshot;
    cache_manifest = λ job_id body w. next_call w;
    error_text = λ w. around.error_text w.calls;
  }

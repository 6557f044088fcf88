-- ===== src/Server/Snapshots/Commit.antt =====
-- internal/server/api_agent.go: what the commit of a snapshot stores.
use claude_backup.Prelude.{Text, ◌≡◌, ◌≢◌, some}
use claude_backup.Sql.{first}
use claude_backup.Store.{Snapshot}
use claude_backup.Store.Snapshots.{get_snapshot}
use claude_backup.Storage.{Bytes, key_is}
use claude_backup.Storage.Keys.{manifest_key}
use claude_backup.Server.{Server}
use claude_backup.Server.Gc.Safety.{SameObject}
use claude_backup.Server.Snapshots.{CommitRequest}

-- The snapshot is recorded for the agent and the job of the request, its manifest is the body under
-- the key of its id, and no other manifest has changed.
pub record Committed (q : CommitRequest) (body : Bytes) (agent_id id : Text) (s t : Server)
    : Type 0 where
  pub snapshot : Snapshot
  pub row : get_snapshot id t.store ≡ some snapshot
  pub agent : snapshot.agent_id ≡ agent_id
  pub job : snapshot.job_id ≡ q.job_id
  pub backend : snapshot.backend ≡ s.backend_key
  pub key : snapshot.manifest_key ≡ manifest_key id
  pub manifest :
      first (key_is (manifest_key id)) t.objects.items
      ≡ some (record { key = manifest_key id; content = body })
  pub others : (other : Text) → id ≢ other → SameObject (manifest_key other) s t

-- ===== src/Agent/Backup/Site/Restorable.antt =====
-- internal/agent/engine.go and internal/server/api_agent.go: what the server has after a run that
-- ended with a snapshot.
use claude_backup.Prelude.{Text, ℕ, ℤ, pos, ◌≡◌, ◌≢◌, true, false, Option, some, List, [], ◌⊎◌}
use claude_backup.Sql.Keys.{All}
use claude_backup.Proto.{ManifestEntry}
use claude_backup.Storage.{Bytes}
use claude_backup.Store.{Store}
use claude_backup.Store.Blobs.{has_blob}
use claude_backup.Server.{Server}
use claude_backup.Server.Snapshots.{CommitRequest, owns_job}
use claude_backup.Server.Snapshots.Commit.{Committed}
use claude_backup.Agent.Scan.{is_regular}
use claude_backup.Agent.Scan.Counts.{count_files}
use claude_backup.Agent.Backup.{RunBackup}
use claude_backup.Agent.Backup.Site.{Site, Surroundings}

-- The blob is in the index of the active backend.
abbrev pub Indexed : Text → Server → Type 0
Indexed h s = has_blob s.backend_key h s.store ≡ true

-- The blobs and the backend are the same.
abbrev SameBlobs : Server → Server → Type 0
SameBlobs s t = (t.store.blobs ≡ s.store.blobs) × (t.backend_key ≡ s.backend_key)

-- The server `t` has a snapshot that a run of a command committed, from the state `s` before the
-- commit: its manifest is the text of the entries, the blob of each file in it is in the index, and
-- the run reports that number of files.
pub record Restorable (encode : ℕ → List ManifestEntry → Option Bytes) (cmd : RunBackup)
    (agent_id id : Text) (reported : ℤ) (s t : Server) : Type 0 where
  pub entries : List ManifestEntry
  pub body : Bytes
  pub calls : ℕ
  pub encoded : encode calls entries ≡ some body
  pub request : CommitRequest
  pub job : request.job_id ≡ cmd.job.id
  pub run : request.run_id ≡ cmd.run_id
  pub owned : owns_job cmd.job.id agent_id s ≡ true
  pub committed : Committed request body agent_id id s t
  pub blobs : All (λ e. (is_regular e ≡ false) ⊎ Indexed e.hash t) entries
  pub counted : reported ≡ pos (count_files entries)

module _ (around : Surroundings) (inflate : Bytes → Option Bytes) (deflate : Bytes → Bytes)
    (sha256_hex : Bytes → Text) (agent_id : Text) (named : (b : Bytes) → sha256_hex b ≢ [])
    (others_keep : (n : ℕ) (s : Server) (h : Text)
      → Indexed h s
      → Indexed h (around.others n s)) where
  abbrev Held : Text → Site → Type 0
  Held h w = Indexed h w.server

-- ===== src/Agent/Upload/Host.antt =====
-- internal/agent/engine.go and http.go: what a run calls, as a record of functions on a world.
use claude_backup.Prelude.{Text, ℤ, Bool, Option, List, ◌⊎◌}
use claude_backup.Proto.{ManifestEntry}
use claude_backup.Storage.{Bytes}
use claude_backup.Agent.Scan.{Roots}

-- Whether an error is `context.Canceled`.
pub data RunError : Type 0 where
  run_cancelled run_failed : RunError

-- The bytes that were read of a file and their hash, or an error.
pub data Upload : Type 0 where
  uploaded : ℤ → Text → Upload
  failed : RunError → Upload

-- What commitSnapshot sends beside the manifest.
pub record Commit : Type 0 where
  pub job_id : Text
  pub run_id : Text
  pub mode : Text
  pub files : ℤ
  pub bytes : ℤ

-- The files of the agent's system and the server, as one run of the agent meets them: what each call
-- returns, and the world after it.
pub record World (W : Type 0) : Type 0 where
  pub open_file : Text → W → Bool × W  -- openForBackup
  pub read : Text → W → Option Bytes × W  -- the content, or an error on the way
  pub check_blobs : List Text → W → (RunError ⊎ List Text) × W
  -- Whether the server accepts the content of a path under a hash, and what was read of the file
  -- meanwhile.
  pub put_blob : Text → Text → W → (Bool × Bytes) × W
  pub hash_of : Bytes → Text  -- the hex digits of the SHA-256
  pub run_hook : Text → W → Bool × W
  pub roots : W → Roots
  pub cached_manifest : Text → W → Option Bytes  -- by job
  pub get_manifest : Text → W → Option Bytes × W
  -- The lines of JSON, compressed in a temporary file, or an error of that file.
  pub write_manifest : List ManifestEntry → W → Option Bytes × W
  pub commit_snapshot : Commit → Bytes → W → (RunError ⊎ Text) × W
  pub cache_manifest : Text → Bytes → W → W
  pub error_text : W → Text  -- of the last error

-- ===== src/Proto.antt =====
-- internal/proto/proto.go: the messages between the server and its agents. The payload of an
-- envelope is a constructor; its JSON text is not modelled.
use claude_backup.Prelude.{Text, codes, text_eq, ℤ, pos, Bool, List, if◌then◌else◌}

-- Run statuses. `other` holds any other text that an agent sends as a status.
pub data Status : Type 0 where
  queued running success partial error cancelled : Status
  other : Text → Status

unfoldable pub status_of : Text → Status
status_of t =
    if text_eq t (codes "queued")
    then queued
    else if text_eq t (codes "running")
    then running
    else if text_eq t (codes "success")
    then success
    else if text_eq t (codes "partial")
    then partial
    else if text_eq t (codes "error")
    then error
    else if text_eq t (codes "cancelled")
    then cancelled
    else other t

unfoldable pub status_text : Status → Text
status_text queued = codes "queued"
status_text running = codes "running"
status_text success = codes "success"
status_text partial = codes "partial"
status_text error = codes "error"
status_text cancelled = codes "cancelled"
status_text (other t) = t

-- Transfer directions; `unset` is the empty string.
pub data Direction : Type 0 where
  unset push pull : Direction

-- Job origins; `unset_origin` is the empty string.
pub data Origin : Type 0 where
  unset_origin server client : Origin

abbrev pub mode_full : Text
mode_full = codes "full"

abbrev pub mode_incremental : Text
mode_incremental = codes "incremental"

abbrev pub mode_restore : Text
mode_restore = codes "restore"

pub record Job : Type 0 where
  pub id : Text
  pub agent_id : Text
  pub name : Text
  pub paths : List Text
  pub excludes : List Text
  pub schedule : Text
  pub full_every : ℤ
  pub keep_last : ℤ
  pub keep_days : ℤ
  pub pre_hook : Text
  pub post_hook : Text
  pub enabled : Bool
  pub catchup : Bool
  pub origin : Origin
  pub version : ℤ

pub record Hello : Type 0 where
  pub hostname : Text
  pub os : Text
  pub arch : Text
  pub version : Text

pub record RunProgress : Type 0 where
  pub run_id : Text
  pub files_done : ℤ
  pub files_total : ℤ
  pub bytes_done : ℤ
  pub bytes_total : ℤ
  pub phase : Text

pub record RunStats : Type 0 where
  pub files_total : ℤ
  pub files_changed : ℤ
  pub files_skipped : ℤ
  pub bytes_total : ℤ
  pub bytes_uploaded : ℤ
  pub duration_ms : ℤ

-- `RunStats{}`
abbrev pub no_stats : RunStats
no_stats = record {
  files_total = pos 0;
  files_changed = pos 0;
  files_skipped = pos 0;
  bytes_total = pos 0;
  bytes_uploaded = pos 0;
  duration_ms = pos 0;
}

pub record RunDone : Type 0 where
  pub run_id : Text
  pub status : Status
  pub snapshot_id : Text
  pub stats : RunStats
  pub error : Text

pub record TransferDone : Type 0 where
  pub transfer_id : Text
  pub status : Status
  pub path : Text
  pub error : Text

pub record CommandDone : Type 0 where
  pub command_id : Text
  pub exit_code : ℤ
  pub error : Text

-- `CommandCancelled`
abbrev pub command_cancelled : Text
command_cancelled = codes "cancelled"

pub record ManifestEntry : Type 0 where
  pub type : Text
  pub path : Text
  pub size : ℤ
  pub mode : ℤ
  pub mtime : ℤ
  pub hash : Text
  pub target : Text

-- agent -> server. An answer to a request has its id and the rest of its payload as one text.
-- `malformed` is a payload that does not decode, `unknown` another type.
pub data AgentMessage : Type 0 where
  hello : Hello → AgentMessage
  jobs_sync : List Job → AgentMessage
  job_delete : Text → AgentMessage
  run_progress : RunProgress → AgentMessage
  run_log : Text → Text → Text → AgentMessage
  run_done : RunDone → AgentMessage
  transfer_progress : Text → ℤ → AgentMessage
  transfer_done : TransferDone → AgentMessage
  command_output : Text → Text → Text → AgentMessage
  command_done : CommandDone → AgentMessage
  docker_inventory : Text → Text → AgentMessage
  sched_inventory : Text → Text → AgentMessage
  sched_result : Text → Text → AgentMessage
  dir_listing : Text → Text → AgentMessage
  malformed unknown : AgentMessage

-- server -> agent
pub data ServerMessage : Type 0 where
  jobs_update : List Job → ServerMessage
  run_backup : Text → Job → Text → Text → ServerMessage
  restore : Text → Text → List Text → Text → Bool → ServerMessage
  cancel_run : Text → ServerMessage
  push_file : Text → Text → Text → Text → ℤ → ℤ → Bool → ServerMessage
  pull_file : Text → Text → ServerMessage
  cancel_transfer : Text → ServerMessage
  run_command : Text → Text → Text → ServerMessage
  cancel_command : Text → ServerMessage
  discover_docker : Text → ServerMessage
  list_sched : Text → ServerMessage
  sched_action : Text → Text → ServerMessage
  browse_dir : Text → Text → ServerMessage

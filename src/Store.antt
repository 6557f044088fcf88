-- ===== src/Store.antt =====
-- internal/server/store: the tables of the server's database, a list of rows for each, in the order
-- of insertion. The children have the operations. The database itself does not fail: an operation
-- reports `ErrNotFound` or a key that is taken, and no lost connection.
pub mod Runs
pub mod Transfers
pub mod Commands
pub mod Jobs
pub mod Snapshots
pub mod Blobs
pub mod Agents
pub mod Owned
pub mod Users
use claude_backup.Prelude.{Text, ℤ, ℕ, Bool, Option, List, []}
use claude_backup.Proto.{Status, Direction, Job, RunStats, RunProgress}

pub record Agent : Type 0 where
  pub id : Text
  pub secret_hash : Text
  pub name : Text
  pub hostname : Text
  pub os : Text
  pub arch : Text
  pub version : Text
  pub created : ℕ
  pub last_seen : ℕ

pub record EnrollToken : Type 0 where
  pub token : Text  -- the hash of the secret
  pub note : Text
  pub created_at : ℕ
  pub expires_at : ℕ
  pub used_by : Text

-- The columns `id`, `agent_id`, `origin` and `version` repeat fields of `spec`.
pub record JobRow : Type 0 where
  pub job : Job
  pub run_count : ℕ
  pub catchup_pending : Bool
  pub updated_at : ℕ

pub record Run : Type 0 where
  pub id : Text
  pub job_id : Text
  pub agent_id : Text
  pub mode : Text
  pub status : Status
  pub snapshot_id : Text
  pub error : Text
  pub stats : Option RunStats
  pub progress : Option RunProgress
  pub created_at : ℕ
  pub started_at : ℕ
  pub finished_at : ℕ

pub record RunLogLine : Type 0 where
  pub run_id : Text
  pub ts : ℕ
  pub level : Text
  pub message : Text

pub record Snapshot : Type 0 where
  pub id : Text
  pub backend : Text
  pub job_id : Text
  pub agent_id : Text
  pub run_id : Text
  pub mode : Text
  pub files : ℤ
  pub bytes : ℤ
  pub created_at : ℕ
  pub manifest_key : Text

pub record Blob : Type 0 where
  pub backend : Text
  pub hash : Text
  pub size_raw : ℕ
  pub size_stored : ℕ
  pub created_at : ℕ

pub record Transfer : Type 0 where
  pub id : Text
  pub agent_id : Text
  pub direction : Direction
  pub filename : Text
  pub dest_path : Text
  pub source_path : Text
  pub size : ℕ
  pub hash : Text
  pub object_key : Text
  pub mode : ℕ
  pub overwrite : Bool
  pub status : Status
  pub error : Text
  pub written_path : Text
  pub bytes_done : ℤ
  pub created_at : ℕ
  pub started_at : ℕ
  pub finished_at : ℕ

pub record Command : Type 0 where
  pub id : Text
  pub agent_id : Text
  pub shell : Text
  pub command : Text
  pub status : Status
  pub exit_code : ℤ
  pub error : Text
  pub created_at : ℕ
  pub started_at : ℕ
  pub finished_at : ℕ

pub record CommandLine : Type 0 where
  pub command_id : Text
  pub seq : ℕ
  pub stream : Text
  pub line : Text

pub record User : Type 0 where
  pub id : Text
  pub username : Text
  pub password_hash : Text
  pub created_at : ℕ

pub record Session : Type 0 where
  pub token : Text  -- the hash of the secret
  pub user_id : Text
  pub expires_at : ℕ

pub record Setting : Type 0 where
  pub key : Text
  pub value : Text

-- `next_seq` is the counter of AUTOINCREMENT.
pub record Store : Type 0 where
  pub users : List User
  pub sessions : List Session
  pub settings : List Setting
  pub agents : List Agent
  pub enroll_tokens : List EnrollToken
  pub jobs : List JobRow
  pub runs : List Run
  pub run_logs : List RunLogLine
  pub snapshots : List Snapshot
  pub blobs : List Blob
  pub transfers : List Transfer
  pub commands : List Command
  pub command_output : List CommandLine
  pub next_seq : ℕ

abbrev pub empty_store : Store
empty_store = record {
  users = [];
  sessions = [];
  settings = [];
  agents = [];
  enroll_tokens = [];
  jobs = [];
  runs = [];
  run_logs = [];
  snapshots = [];
  blobs = [];
  transfers = [];
  commands = [];
  command_output = [];
  next_seq = 1;
}

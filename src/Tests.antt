-- ===== src/Tests.antt =====
-- Small states of the server, and the theorems at them.
pub mod Storage
pub mod Runs
pub mod Files
pub mod Agents
pub mod Backup
pub mod Operators
use claude_backup.Prelude.{
  Text, codes, ℕ, pos, negsuc, Bool, true, false, none, some, List, [], ◌∷◌,
}
use claude_backup.Proto.{Job, Status, running, queued, client, ManifestEntry}
use claude_backup.Store.{Store, Agent, JobRow, Run, Snapshot, Blob, empty_store}
use claude_backup.Storage.{Bytes, Object}
use claude_backup.Storage.Keys.{blob_key, manifest_key}
use claude_backup.Hub.{Conn}
use claude_backup.Server.{Server}
use claude_backup.Server.Gc.{Codec}

abbrev pub alice : Text
alice = codes "alice"

abbrev pub bob : Text
bob = codes "bob"

abbrev pub job_of : Text → Text → Job
job_of id agent_id = record {
  id = id;
  agent_id = agent_id;
  name = codes "documents";
  paths = codes "/home" ∷ [];
  excludes = [];
  schedule = [];
  full_every = pos 7;
  keep_last = pos 2;
  keep_days = pos 0;
  pre_hook = [];
  post_hook = [];
  enabled = true;
  catchup = false;
  origin = client;
  version = pos 3;
}

abbrev pub documents : JobRow
documents = record {
  job = job_of (codes "j1") alice;
  run_count = 4;
  catchup_pending = false;
  updated_at = 10;
}

abbrev pub run_of : Text → Text → Status → Run
run_of id agent_id status = record {
  id = id;
  job_id = codes "j1";
  agent_id = agent_id;
  mode = codes "full";
  status = status;
  snapshot_id = [];
  error = [];
  stats = none;
  progress = none;
  created_at = 20;
  started_at = 0;
  finished_at = 0;
}

abbrev pub agent_of : Text → Agent
agent_of id = record {
  id = id;
  secret_hash = codes "secret";
  name = id;
  hostname = id;
  os = codes "linux";
  arch = codes "amd64";
  version = codes "1";
  created = 1;
  last_seen = 2;
}

abbrev pub store_of : List Run → Store
store_of rows = record empty_store {
  agents = agent_of alice ∷ agent_of bob ∷ [];
  jobs = documents ∷ [];
  runs = rows;
}

abbrev pub conn_of_alice : Conn
conn_of_alice = record { number = 5; agent_id = alice; queue = []; closed = false }

-- A server with some connections, over a backend without faults.
abbrev pub server_of : Store → List Conn → List Object → Server
server_of t conns items = record {
  store = t;
  hub = record { conns = conns; next_number = 6; choices = [] };
  objects = record { items = items; faults = [] };
  backend_key = codes "local";
  docker = [];
  sched_inventories = [];
  sched_results = [];
  browse = [];
  now = 100;
  new_id = λ n. 0 ∷ n ∷ [];
  ids_used = 0;
}

abbrev pub snapshot_of : Text → ℕ → Snapshot
snapshot_of id created_at = record {
  id = id;
  backend = codes "local";
  job_id = codes "j1";
  agent_id = alice;
  run_id = [];
  mode = codes "full";
  files = pos 1;
  bytes = pos 3;
  created_at = created_at;
  manifest_key = manifest_key id;
}

abbrev pub file_of : Text → ManifestEntry
file_of hash = record {
  type = codes "f";
  path = codes "/home/a";
  size = pos 3;
  mode = pos 420;
  mtime = pos 1;
  hash = hash;
  target = [];
}

-- A manifest of one line, which is the hash of a file.
abbrev pub one_line : Codec
one_line = record { lines = λ b. (b ∷ [], true); entry = λ line. some (file_of line) }

abbrev pub blob_of : Text → Blob
blob_of hash = record {
  backend = codes "local";
  hash = hash;
  size_raw = 3;
  size_stored = 3;
  created_at = 1;
}

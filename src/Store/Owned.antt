-- ===== src/Store/Owned.antt =====
-- The primary keys of the tables, and the part of the database that is not an agent's own.
use claude_backup.Prelude.{Text, ◌≡◌, refl, ◌∙◌, Option, none, some, List, [], ◌∷◌, ℕ}
use claude_backup.Sql.{select}
use claude_backup.Sql.Keys.{Unique, Unique-modify}
use claude_backup.Sql.Owners.{foreign, OwnedBy, foreign-modify}
use claude_backup.Proto.{Hello}
use claude_backup.Store.{
  Store, Run, JobRow, Transfer, Command, Agent, Snapshot, RunLogLine, CommandLine,
}
use claude_backup.Store.Agents.{touch_agent}

-- The primary keys of the tables.
pub record HasKeys (t : Store) : Type 0 where
  pub agent_keys : Unique (λ r. r.id) t.agents
  pub job_keys : Unique (λ r. r.job.id) t.jobs
  pub run_keys : Unique (λ r. r.id) t.runs
  pub snapshot_keys : Unique (λ r. r.id) t.snapshots
  pub transfer_keys : Unique (λ r. r.id) t.transfers
  pub command_keys : Unique (λ r. r.id) t.commands

abbrev pub foreign_agents : Text → List Agent → List Agent
foreign_agents a = select (foreign (λ r. r.id) a)

abbrev pub foreign_jobs : Text → List JobRow → List JobRow
foreign_jobs a = select (foreign (λ r. r.job.agent_id) a)

abbrev pub foreign_runs : Text → List Run → List Run
foreign_runs a = select (foreign (λ r. r.agent_id) a)

abbrev pub foreign_transfers : Text → List Transfer → List Transfer
foreign_transfers a = select (foreign (λ r. r.agent_id) a)

abbrev pub foreign_commands : Text → List Command → List Command
foreign_commands a = select (foreign (λ r. r.agent_id) a)

-- The rows of the agents other than `a` are the same, and so are the tables that no agent owns.
pub record Untouched (a : Text) (s t : Store) : Type 0 where
  pub agents : foreign_agents a t.agents ≡ foreign_agents a s.agents
  pub jobs : foreign_jobs a t.jobs ≡ foreign_jobs a s.jobs
  pub runs : foreign_runs a t.runs ≡ foreign_runs a s.runs
  pub transfers : foreign_transfers a t.transfers ≡ foreign_transfers a s.transfers
  pub commands : foreign_commands a t.commands ≡ foreign_commands a s.commands
  pub snapshots : t.snapshots ≡ s.snapshots
  pub blobs : t.blobs ≡ s.blobs
  pub tokens : t.enroll_tokens ≡ s.enroll_tokens

pub Untouched-refl : (a : Text) (s : Store) → Untouched a s s
Untouched-refl a s = record {
  agents = refl;
  jobs = refl;
  runs = refl;
  transfers = refl;
  commands = refl;
  snapshots = refl;
  blobs = refl;
  tokens = refl;
}

pub Untouched-trans :
    (a : Text) (s t u : Store) → Untouched a s t → Untouched a t u → Untouched a s u
Untouched-trans a s t u p q = record {
  agents = q.agents ∙ p.agents;
  jobs = q.jobs ∙ p.jobs;
  runs = q.runs ∙ p.runs;
  transfers = q.transfers ∙ p.transfers;
  commands = q.commands ∙ p.commands;
  snapshots = q.snapshots ∙ p.snapshots;
  blobs = q.blobs ∙ p.blobs;
  tokens = q.tokens ∙ p.tokens;
}

module _ (a : Text) (t : Store) where
  pub agents-Untouched :
      (rows : List Agent)
      → foreign_agents a rows ≡ foreign_agents a t.agents
      → Untouched a t (record t { agents = rows })
  agents-Untouched rows e = record {
    agents = e;
    jobs = refl;
    runs = refl;
    transfers = refl;
    commands = refl;
    snapshots = refl;
    blobs = refl;
    tokens = refl;
  }

  pub jobs-Untouched :
      (rows : List JobRow)
      → foreign_jobs a rows ≡ foreign_jobs a t.jobs
      → Untouched a t (record t { jobs = rows })
  jobs-Untouched rows e = record {
    agents = refl;
    jobs = e;
    runs = refl;
    transfers = refl;
    commands = refl;
    snapshots = refl;
    blobs = refl;
    tokens = refl;
  }

  pub runs-Untouched :
      (rows : List Run)
      → foreign_runs a rows ≡ foreign_runs a t.runs
      → Untouched a t (record t { runs = rows })
  runs-Untouched rows e = record {
    agents = refl;
    jobs = refl;
    runs = e;
    transfers = refl;
    commands = refl;
    snapshots = refl;
    blobs = refl;
    tokens = refl;
  }

  pub transfers-Untouched :
      (rows : List Transfer)
      → foreign_transfers a rows ≡ foreign_transfers a t.transfers
      → Untouched a t (record t { transfers = rows })
  transfers-Untouched rows e = record {
    agents = refl;
    jobs = refl;
    runs = refl;
    transfers = e;
    commands = refl;
    snapshots = refl;
    blobs = refl;
    tokens = refl;
  }

  pub commands-Untouched :
      (rows : List Command)
      → foreign_commands a rows ≡ foreign_commands a t.commands
      → Untouched a t (record t { commands = rows })
  commands-Untouched rows e = record {
    agents = refl;
    jobs = refl;
    runs = refl;
    transfers = refl;
    commands = e;
    snapshots = refl;
    blobs = refl;
    tokens = refl;
  }

module _ (t : Store) (k : HasKeys t) where
  pub agents-HasKeys :
      (rows : List Agent) → Unique (λ r. r.id) rows → HasKeys (record t { agents = rows })
  agents-HasKeys rows u = record {
    agent_keys = u;
    job_keys = k.job_keys;
    run_keys = k.run_keys;
    snapshot_keys = k.snapshot_keys;
    transfer_keys = k.transfer_keys;
    command_keys = k.command_keys;
  }

  pub jobs-HasKeys :
      (rows : List JobRow) → Unique (λ r. r.job.id) rows → HasKeys (record t { jobs = rows })
  jobs-HasKeys rows u = record {
    agent_keys = k.agent_keys;
    job_keys = u;
    run_keys = k.run_keys;
    snapshot_keys = k.snapshot_keys;
    transfer_keys = k.transfer_keys;
    command_keys = k.command_keys;
  }

  pub runs-HasKeys :
      (rows : List Run) → Unique (λ r. r.id) rows → HasKeys (record t { runs = rows })
  runs-HasKeys rows u = record {
    agent_keys = k.agent_keys;
    job_keys = k.job_keys;
    run_keys = u;
    snapshot_keys = k.snapshot_keys;
    transfer_keys = k.transfer_keys;
    command_keys = k.command_keys;
  }

  pub transfers-HasKeys :
      (rows : List Transfer) → Unique (λ r. r.id) rows → HasKeys (record t { transfers = rows })
  transfers-HasKeys rows u = record {
    agent_keys = k.agent_keys;
    job_keys = k.job_keys;
    run_keys = k.run_keys;
    snapshot_keys = k.snapshot_keys;
    transfer_keys = u;
    command_keys = k.command_keys;
  }

  pub commands-HasKeys :
      (rows : List Command) → Unique (λ r. r.id) rows → HasKeys (record t { commands = rows })
  commands-HasKeys rows u = record {
    agent_keys = k.agent_keys;
    job_keys = k.job_keys;
    run_keys = k.run_keys;
    snapshot_keys = k.snapshot_keys;
    transfer_keys = k.transfer_keys;
    command_keys = u;
  }

  pub snapshots-HasKeys :
      (rows : List Snapshot) → Unique (λ r. r.id) rows → HasKeys (record t { snapshots = rows })
  snapshots-HasKeys rows u = record {
    agent_keys = k.agent_keys;
    job_keys = k.job_keys;
    run_keys = k.run_keys;
    snapshot_keys = u;
    transfer_keys = k.transfer_keys;
    command_keys = k.command_keys;
  }

-- An update of the agent's own row.
own_agent : (a : Text) (rows : List Agent) → OwnedBy (λ r. r.id) (λ r. r.id) a a rows
own_agent a [] = tt
own_agent a (r ∷ rs) = (λ m. m, own_agent a rs)

pub touch_agent-Untouched :
    (a : Text) (h : Option Hello) (now : ℕ) (t : Store) → Untouched a t (touch_agent a h now t)
unfolding touch_agent
touch_agent-Untouched a none now t =
    agents-Untouched a t _ (foreign-modify _ _ a a _ t.agents (λ r. refl) (own_agent a t.agents))
touch_agent-Untouched a (some h) now t =
    agents-Untouched a t _ (foreign-modify _ _ a a _ t.agents (λ r. refl) (own_agent a t.agents))

pub touch_agent-HasKeys :
    (a : Text) (h : Option Hello) (now : ℕ) (t : Store)
    → HasKeys t
    → HasKeys (touch_agent a h now t)
unfolding touch_agent
touch_agent-HasKeys a none now t k =
    agents-HasKeys t k _ (Unique-modify _ _ _ t.agents (λ r _. refl) k.agent_keys)
touch_agent-HasKeys a (some h) now t k =
    agents-HasKeys t k _ (Unique-modify _ _ _ t.agents (λ r _. refl) k.agent_keys)

-- A log line is appended.
pub run_logs-Untouched :
    (a : Text) (t : Store) (lines : List RunLogLine) → Untouched a t (record t { run_logs = lines })
run_logs-Untouched a t lines = record {
  agents = refl;
  jobs = refl;
  runs = refl;
  transfers = refl;
  commands = refl;
  snapshots = refl;
  blobs = refl;
  tokens = refl;
}

pub output-Untouched :
    (a : Text) (t : Store) (lines : List CommandLine) (n : ℕ)
    → Untouched a t (record t { command_output = lines; next_seq = n })
output-Untouched a t lines n = record {
  agents = refl;
  jobs = refl;
  runs = refl;
  transfers = refl;
  commands = refl;
  snapshots = refl;
  blobs = refl;
  tokens = refl;
}

pub run_logs-HasKeys :
    (t : Store) (lines : List RunLogLine) → HasKeys t → HasKeys (record t { run_logs = lines })
run_logs-HasKeys t lines k = record {
  agent_keys = k.agent_keys;
  job_keys = k.job_keys;
  run_keys = k.run_keys;
  snapshot_keys = k.snapshot_keys;
  transfer_keys = k.transfer_keys;
  command_keys = k.command_keys;
}

pub output-HasKeys :
    (t : Store) (lines : List CommandLine) (n : ℕ)
    → HasKeys t
    → HasKeys (record t { command_output = lines; next_seq = n })
output-HasKeys t lines n k = record {
  agent_keys = k.agent_keys;
  job_keys = k.job_keys;
  run_keys = k.run_keys;
  snapshot_keys = k.snapshot_keys;
  transfer_keys = k.transfer_keys;
  command_keys = k.command_keys;
}

-- ===== src/Store/Runs.antt =====
-- internal/server/store/store.go: runs and their logs. `now` is the clock at the call, and `id` is
-- what `NewID` returned.
use claude_backup.Prelude.{
  Text, text_eq, ℕ, Bool, true, false, ◌&&◌, Option, none, some, List, [], ◌∷◌, ◌++◌, reverse, take,
}
use claude_backup.Sql.{select, first, modify, given}
use claude_backup.Sql.Keys.{by}
use claude_backup.Sql.Order.{order_by}
use claude_backup.Proto.{Status, queued, running, error, RunStats, RunProgress}
use claude_backup.Store.{Store, Run, RunLogLine}

abbrev pub is_queued : Status → Bool
is_queued queued = true
is_queued _ = false

abbrev pub is_running : Status → Bool
is_running running = true
is_running _ = false

abbrev pub run_id_is : Text → Run → Bool
run_id_is = by (λ r. r.id)

-- started_at of a row that is created in a status
abbrev pub start_time : Status → ℕ → ℕ
start_time running now = now
start_time _ now = 0

abbrev pub new_run : Text → Text → Text → Text → Status → ℕ → Run
new_run id job_id agent_id mode status now = record {
  id = id;
  job_id = job_id;
  agent_id = agent_id;
  mode = mode;
  status = status;
  snapshot_id = [];
  error = [];
  stats = none;
  progress = none;
  created_at = now;
  started_at = start_time status now;
  finished_at = 0;
}

-- `none` where the key is taken.
unfoldable pub create_run : Text → Text → Text → Text → Status → ℕ → Store → Option Store
create_run id job_id agent_id mode status now s = elim (first (run_id_is id) s.runs) [
  | none ↦ some (record s { runs = s.runs ++ new_run id job_id agent_id mode status now ∷ [] })
  | some _ ↦ none
]

unfoldable pub get_run : Text → Store → Option Run
get_run id s = first (run_id_is id) s.runs

-- Latest first. An empty id stands for no condition.
unfoldable pub list_runs : Text → Text → ℕ → Store → List Run
list_runs agent_id job_id limit s = take limit (
    reverse (
      order_by (λ r. r.created_at)
        (select (λ r. given agent_id r.agent_id && given job_id r.job_id) s.runs)))

unfoldable pub is_queued_for : Text → Run → Bool
is_queued_for agent_id r = text_eq r.agent_id agent_id && is_queued r.status

unfoldable pub queued_runs : Text → Store → List Run
queued_runs agent_id s = order_by (λ r. r.created_at) (select (is_queued_for agent_id) s.runs)

abbrev pub set_started : ℕ → Run → Run
set_started now r = record r { status = running; started_at = now }

unfoldable pub mark_run_started : Text → ℕ → Store → Store
mark_run_started id now s = record s { runs = modify (run_id_is id) (set_started now) s.runs }

unfoldable pub update_run_progress : Text → RunProgress → Store → Store
update_run_progress id p s = record s {
  runs = modify (run_id_is id) (λ r. record r { progress = some p }) s.runs;
}

abbrev pub set_finished : Status → Text → Text → RunStats → ℕ → Run → Run
set_finished status snapshot_id message stats now r = record r {
  status = status;
  snapshot_id = snapshot_id;
  error = message;
  stats = some stats;
  finished_at = now;
}

unfoldable pub finish_run : Text → Status → Text → Text → RunStats → ℕ → Store → Store
finish_run id status snapshot_id message stats now s = record s {
  runs = modify (run_id_is id) (set_finished status snapshot_id message stats now) s.runs;
}

unfoldable pub is_running_for : Text → Run → Bool
is_running_for agent_id r = text_eq r.agent_id agent_id && is_running r.status

abbrev pub set_failed : Text → ℕ → Run → Run
set_failed reason now r = record r { status = error; error = reason; finished_at = now }

-- The in-flight runs of an agent that disconnects; queued ones are kept.
unfoldable pub fail_running_runs : Text → Text → ℕ → Store → Store
fail_running_runs agent_id reason now s = record s {
  runs = modify (is_running_for agent_id) (set_failed reason now) s.runs;
}

-- `ts` counts milliseconds.
unfoldable pub append_run_log : Text → Text → Text → ℕ → Store → Store
append_run_log run_id level message ts s = record s {
  run_logs =
      s.run_logs ++ record { run_id = run_id; ts = ts; level = level; message = message } ∷ [];
}

unfoldable pub list_run_logs : Text → Store → List RunLogLine
list_run_logs run_id s = order_by (λ l. l.ts) (select (λ l. text_eq l.run_id run_id) s.run_logs)

-- ===== src/Server/Jobs.antt =====
-- internal/server/jobs.go: job synchronisation, and the start, dispatch and cancellation of runs.
pub mod Backups
pub mod Dispatch
pub mod Cancel
pub mod CatchUp
pub mod Sync
pub mod Versions
pub mod Stale
use claude_backup.Prelude.{
  Text, codes, text_eq, ℤ, pos, ltz, is_pos, to_ℕ, ◌%◌, ◌==◌, Bool, true, false, not, ◌&&◌, ◌||◌,
  Option, none, some, List, [], ◌∷◌, map, if◌then◌else◌,
}
use claude_backup.Sql.{first}
use claude_backup.Proto.{
  Job, Status, queued, running, error, cancelled, no_stats, client, mode_full, mode_incremental,
  mode_restore, jobs_update, run_backup, restore, cancel_run,
}
use claude_backup.Store.{JobRow, Run, Snapshot}
use claude_backup.Store.Jobs.{
  get_job, list_jobs, save_job, delete_job, increment_run_count, set_catchup_pending,
}
use claude_backup.Store.Runs.{
  is_queued, create_run, get_run, queued_runs, mark_run_started, finish_run,
}
use claude_backup.Store.Snapshots.{latest_snapshot}
use claude_backup.Server.{
  Server, Result, ok, err, job_disabled, agent_offline, not_in_progress, not_found, database_error,
  dispatch_error, fresh_id, use_id, with_store, is_online, send_to, run_not_dispatched,
  cancelled_early, job_gone,
}

-- A send to an agent that is offline, or that fails, is ignored.
unfoldable pub push_jobs : Text → Server → Server
push_jobs agent_id s =
    (send_to agent_id (jobs_update (map (λ r. r.job) (list_jobs agent_id s.store))) s).1

abbrev is_empty : {A : Type 0} → List A → Bool
is_empty [] = true
is_empty (x ∷ xs) = false

-- The cron parser is a library's: `cron_valid` says whether it accepts an expression.
module _ (cron_valid : Text → Bool) where
  unfoldable pub validate_job : Job → Bool
  validate_job j =
      not (is_empty j.name)
      && not (is_empty j.paths)
      && (is_empty j.schedule || cron_valid j.schedule)

-- Whether a job id that an agent sent is known, and its own.
abbrev owned_row : Text → Option JobRow → Option JobRow
owned_row agent_id none = none
owned_row agent_id (some cur) = if text_eq cur.job.agent_id agent_id then some cur else none

-- An edit of a known job: the higher version wins, and the origin never changes.
unfoldable pub edit_job : Job → JobRow → Server → Server
edit_job j cur s =
    if ltz cur.job.version j.version
    then with_store (save_job (record j { origin = cur.job.origin }) s.now s.store) s
    else s

unfoldable pub add_client_job : Job → Server → Server
add_client_job j s =
    let added = record j { id = fresh_id s; origin = client; version = pos 1 } in
    use_id (with_store (save_job added s.now s.store) s)

abbrev owned_edit : Job → Option JobRow → Server → Server
owned_edit j none s = s
owned_edit j (some cur) s = edit_job j cur s

-- One round of the loop of handleJobsSync, on a job that passed validation.
unfoldable pub sync_valid_job : Text → Job → Server → Server
unfolding edit_job add_client_job
sync_valid_job agent_id j s =
    if is_empty j.id
    then add_client_job j s
    else owned_edit j (owned_row agent_id (get_job j.id s.store)) s

module _ (cron_valid : Text → Bool) where
  unfoldable pub sync_job : Text → Job → Server → Server
  unfolding sync_valid_job
  sync_job agent_id j s =
      let mine = record j { agent_id = agent_id } in
      if validate_job cron_valid mine then sync_valid_job agent_id mine s else s

  unfoldable pub sync_jobs : Text → List Job → Server → Server
  sync_jobs agent_id [] s = s
  sync_jobs agent_id (j ∷ js) s = sync_jobs agent_id js (sync_job agent_id j s)

  -- The server's set is always pushed back.
  unfoldable pub handle_jobs_sync : Text → List Job → Server → Server
  handle_jobs_sync agent_id jobs s = push_jobs agent_id (sync_jobs agent_id jobs s)

unfoldable pub handle_agent_job_delete : Text → Text → Server → Server
handle_agent_job_delete agent_id job_id s = elim (owned_row agent_id (get_job job_id s.store)) [
  | none ↦ s
  | some cur ↦ push_jobs agent_id (with_store (delete_job job_id s.store) s)
]

-- Every `full_every`-th automatic run is a full one, and so is the first of a job.
unfoldable pub scheduled_mode : JobRow → Server → Text
scheduled_mode row s = elim (latest_snapshot s.backend_key row.job.id s.store) [
  | none ↦ mode_full
  | some _ ↦
      if is_pos row.job.full_every && (row.run_count % to_ℕ row.job.full_every) == 0
      then mode_full
      else mode_incremental
]

abbrev prev_id : Option Snapshot → Text
prev_id none = []
prev_id (some sn) = sn.id

-- Where the command cannot be sent, the run fails.
unfoldable pub send_run_backup : Text → Job → Text → Server → Server
send_run_backup run_id job mode s =
    let prev = prev_id (latest_snapshot s.backend_key job.id s.store) in
    let (sent, s') = send_to job.agent_id (run_backup run_id job mode prev) s in
    if sent
    then s'
    else with_store (finish_run run_id error [] run_not_dispatched no_stats s'.now s'.store) s'

abbrev pub mode_or : Text → Text → Text
mode_or [] scheduled = scheduled
mode_or (c ∷ cs) scheduled = c ∷ cs

-- The run is created, and sent where its status says that the agent is there.
unfoldable pub create_and_send : JobRow → Text → Status → Server → Result Text × Server
unfolding send_run_backup
create_and_send row mode status s =
    let id = fresh_id s in
    elim (create_run id row.job.id row.job.agent_id mode status s.now s.store) [
      | none ↦ (err database_error, use_id s)
      | some t ↦ (
        ok id,
        let s' = use_id (with_store (increment_run_count row.job.id t) s) in
            if is_queued status then s' else send_run_backup id row.job mode s',
      )
    ]

-- A run of the job that is queued already is taken in place of a second one.
unfoldable pub queue_backup : JobRow → Text → Server → Result Text × Server
unfolding create_and_send
queue_backup row mode s =
    elim (first (λ q. text_eq q.job_id row.job.id) (queued_runs row.job.agent_id s.store)) [
      | none ↦ create_and_send row mode queued s
      | some q ↦ (ok q.id, s)
    ]

unfoldable pub start_backup : JobRow → Text → Bool → Server → Result Text × Server
unfolding create_and_send queue_backup
start_backup row mode queue s =
    let chosen = mode_or mode (scheduled_mode row s) in
    if not row.job.enabled
    then (err job_disabled, s)
    else if is_online row.job.agent_id s
    then create_and_send row chosen running s
    else if queue
    then queue_backup row chosen s
    else (err agent_offline, s)

-- `paths`, `target_dir` and `overwrite` are the operator's.
unfoldable pub start_restore : Snapshot → List Text → Text → Bool → Server → Result Text × Server
start_restore sn paths target_dir overwrite s =
    let id = fresh_id s in
    if not (is_online sn.agent_id s)
    then (err agent_offline, s)
    else elim (create_run id sn.job_id sn.agent_id mode_restore running s.now s.store) [
      | none ↦ (err database_error, use_id s)
      | some t ↦
          let (sent, s') =
            send_to sn.agent_id (restore id sn.id paths target_dir overwrite)
              (use_id (with_store t s)) in
          if sent then (ok id, s') else (
            err dispatch_error,
            with_store (finish_run id error [] run_not_dispatched no_stats s'.now s'.store) s',
          )
    ]

abbrev cancel_by_status : Run → Status → Server → Result (Unit {0}) × Server
cancel_by_status run queued s =
    (ok tt, with_store (finish_run run.id cancelled [] cancelled_early no_stats s.now s.store) s)
cancel_by_status run running s =
    let (sent, s') = send_to run.agent_id (cancel_run run.id) s in
    (if sent then ok tt else err agent_offline, s')
cancel_by_status run _ s = (err not_in_progress, s)

-- A running run is not marked here: the agent reports that it stopped.
unfoldable pub cancel_run_by_id : Text → Server → Result (Unit {0}) × Server
cancel_run_by_id run_id s = elim (get_run run_id s.store) [
  | none ↦ (err not_found, s)
  | some run ↦ cancel_by_status run run.status s
]

unfoldable pub dispatch_run : Run → Server → Server
unfolding send_run_backup
dispatch_run run s = elim (get_job run.job_id s.store) [
  | none ↦ with_store (finish_run run.id error [] job_gone no_stats s.now s.store) s
  | some row ↦
      send_run_backup run.id row.job run.mode (with_store (mark_run_started run.id s.now s.store) s)
]

unfoldable pub dispatch_runs : List Run → Server → Server
dispatch_runs [] s = s
dispatch_runs (r ∷ rs) s = dispatch_runs rs (dispatch_run r s)

unfoldable pub catch_up : JobRow → Server → Server
catch_up row s =
    if row.catchup_pending && row.job.enabled
    then (start_backup row [] false (with_store (set_catchup_pending row.job.id false s.store) s)).1
    else s

unfoldable pub catch_up_all : List JobRow → Server → Server
catch_up_all [] s = s
catch_up_all (r ∷ rs) s = catch_up_all rs (catch_up r s)

-- What dispatchPendingWork does after the transfers.
unfoldable pub dispatch_pending_runs : Text → Server → Server
dispatch_pending_runs agent_id s =
    let s' = dispatch_runs (queued_runs agent_id s.store) s in
    catch_up_all (list_jobs agent_id s'.store) s'

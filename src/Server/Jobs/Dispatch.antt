-- ===== src/Server/Jobs/Dispatch.antt =====
-- internal/server/jobs.go: what the start of a run leaves in the store and in the agent's queue.
use mathlib.Core.Path.{subst}
use claude_backup.Prelude.{
  Text, text_eq_refl, ℕ, ◌≡◌, refl, Bool, true, none, some, [], ◌∷◌, ◌++◌, arith, Bool-cases,
  Option-cases, inl, inr,
}
use claude_backup.Sql.{first}
use claude_backup.Sql.Keys.{first-insert, first-modify}
use claude_backup.Proto.{Job, Status, running, error, no_stats, ServerMessage, run_backup}
use claude_backup.Store.{Store, Run, JobRow}
use claude_backup.Store.Jobs.{get_job, increment_run_count}
use claude_backup.Store.Snapshots.{latest_snapshot}
use claude_backup.Store.Runs.{
  create_run, new_run, finish_run, set_finished, set_started, get_run, run_id_is, mark_run_started,
}
use claude_backup.Hub.{Hub, send}
use claude_backup.Hub.Laws.{Delivery, delivered, undelivered, sent-Queued, lost-conns}
use claude_backup.Server.{
  Server, ok, is_online, fresh_id, use_id, with_store, send_to, run_not_dispatched,
}
use claude_backup.Server.Jobs.{
  start_backup, create_and_send, send_run_backup, scheduled_mode, mode_or, prev_id, dispatch_run,
}

-- The command of a run, based on the job's latest snapshot in the active backend.
abbrev pub command_of : Text → Job → Text → Server → ServerMessage
command_of id job mode s =
    run_backup id job mode (prev_id (latest_snapshot s.backend_key job.id s.store))

-- The run of an id is running, and its command was sent and is the last in the agent's queue; or the
-- run failed as not dispatched, and the command was not sent and is in no queue.
pub record Settled (id agent_id : Text) (m : ServerMessage) (before : Hub) (s : Server)
    : Type 0 where
  pub run : Run
  pub found : get_run id s.store ≡ some run
  pub outcome :
      Delivery agent_id m before s.hub
        (run.status ≡ running)
        ((run.status ≡ error) × (run.error ≡ run_not_dispatched))

get_run-finish_run :
    (id message : Text) (now : ℕ) (t : Store) {r : Run}
    → get_run id t ≡ some r
    → get_run id (finish_run id error [] message no_stats now t)
      ≡ some (set_finished error [] message no_stats now r)
unfolding get_run finish_run
get_run-finish_run id message now t {r} e = ground (
  arith,
  text_eq_refl id,
  first-modify (λ x. x.id) id id (set_finished error [] message no_stats now) t.runs (λ x m. refl),
)

send_run_backup-Settled :
    (id : Text) (job : Job) (mode : Text) (s : Server) {r : Run}
    → get_run id s.store ≡ some r
    → r.status ≡ running
    → Settled id job.agent_id (command_of id job mode s) s.hub (send_run_backup id job mode s)
unfolding send_run_backup send_to
send_run_backup-Settled id job mode s {r} e st =
    let m = command_of id job mode s in
    elim (Bool-cases (send job.agent_id m s.hub).0) [
      | inl t ↦
          rw (t, send_run_backup)
            (record {
              run = r;
              found = e;
              outcome = delivered st t (sent-Queued job.agent_id m s.hub t);
            })
      | inr f ↦
          rw (f, send_run_backup)
            (record {
              run = set_finished error [] run_not_dispatched no_stats s.now r;
              found = get_run-finish_run id run_not_dispatched s.now s.store e;
              outcome = undelivered (refl, refl) f (lost-conns job.agent_id m s.hub f);
            })
    ]

get_run-create_run :
    (id job_id agent_id mode : Text) (status : Status) (now : ℕ) (t : Store)
    → first (run_id_is id) t.runs ≡ none
    → first (run_id_is id) (t.runs ++ new_run id job_id agent_id mode status now ∷ [])
      ≡ some (new_run id job_id agent_id mode status now)
get_run-create_run id job_id agent_id mode status now t e = ground (
  arith,
  text_eq_refl id,
  first-insert (λ x. x.id) id t.runs (new_run id job_id agent_id mode status now) e,
)

abbrev created : Text → JobRow → Text → Server → Store
created id row mode s = increment_run_count row.job.id (record s.store {
  runs = s.store.runs ++ new_run id row.job.id row.job.agent_id mode running s.now ∷ [];
})

create_and_send-Settled :
    (row : JobRow) (mode : Text) (s : Server) (id : Text)
    → (create_and_send row mode running s).0 ≡ ok id
    → Settled id row.job.agent_id
        (command_of id row.job mode s)
        s.hub
        (create_and_send row mode running s).1
unfolding create_and_send create_run get_run increment_run_count latest_snapshot
create_and_send-Settled row mode s id h =
    elim (Option-cases (first (run_id_is (fresh_id s)) s.store.runs)) [
      | inr (r, e) ↦ absurd (ground arith)
      | inl e ↦
          let same : fresh_id s ≡ id = ground arith in
          subst
            (λ i.
              Settled i row.job.agent_id (command_of i row.job mode s) s.hub
                (create_and_send row mode running s).1)
            same
            (rw (e, create_and_send)
              (send_run_backup-Settled (fresh_id s) row.job mode
                (use_id (with_store (created (fresh_id s) row mode s) s))
                {r = new_run (fresh_id s) row.job.id row.job.agent_id mode running s.now}
                (get_run-create_run (fresh_id s) row.job.id row.job.agent_id mode running s.now
                  s.store e)
                refl))
    ]

-- A backup of an enabled job that is started while the agent is online, and that returns a run id,
-- leaves that run running exactly where its command was sent, which then is the last in the agent's
-- queue; else the run has failed as not dispatched, and every queue is as it was.
pub start_backup-Settled :
    (row : JobRow) (mode : Text) (queue : Bool) (s : Server) (id : Text)
    → row.job.enabled ≡ true
    → is_online row.job.agent_id s ≡ true
    → (start_backup row mode queue s).0 ≡ ok id
    → Settled id row.job.agent_id
        (command_of id row.job (mode_or mode (scheduled_mode row s)) s)
        s.hub
        (start_backup row mode queue s).1
unfolding start_backup
start_backup-Settled row mode queue s id enabled on h =
    let chosen = mode_or mode (scheduled_mode row s) in
    let same : start_backup row mode queue s ≡ create_and_send row chosen running s =
      ground arith in
    rw same (create_and_send-Settled row chosen s id (cc))

-- Where the drawn id is another run's, no run is created and nothing is sent.
pub start_backup_taken :
    (row : JobRow) (mode : Text) (queue : Bool) (s : Server) {other : Run}
    → row.job.enabled ≡ true
    → is_online row.job.agent_id s ≡ true
    → get_run (fresh_id s) s.store ≡ some other
    → (start_backup row mode queue s).1 ≡ use_id s
unfolding start_backup create_and_send create_run get_run
start_backup_taken row mode queue s enabled on e = ground arith

-- Where the drawn id is new, a run is created.
pub start_backup_created :
    (row : JobRow) (mode : Text) (queue : Bool) (s : Server)
    → row.job.enabled ≡ true
    → is_online row.job.agent_id s ≡ true
    → get_run (fresh_id s) s.store ≡ none
    → (start_backup row mode queue s).0 ≡ ok (fresh_id s)
unfolding start_backup create_and_send create_run get_run
start_backup_created row mode queue s enabled on e = ground arith

-- A run that is dispatched, and is in the store while its job exists, is left running exactly where
-- its command was sent, which then is the last in the agent's queue; else the run has failed as not
-- dispatched, and every queue is as it was.
pub dispatch_run-Settled :
    (run : Run) (row : JobRow) (s : Server)
    → get_run run.id s.store ≡ some run
    → get_job run.job_id s.store ≡ some row
    → Settled run.id row.job.agent_id
        (command_of run.id row.job run.mode s)
        s.hub
        (dispatch_run run s)
unfolding dispatch_run mark_run_started get_run latest_snapshot
dispatch_run-Settled run row s e j =
    rw (j, dispatch_run)
      (send_run_backup-Settled run.id row.job run.mode
        (with_store (mark_run_started run.id s.now s.store) s) {r = set_started s.now run}
        (ground (
          arith,
          text_eq_refl run.id,
          first-modify (λ x. x.id) run.id run.id (set_started s.now) s.store.runs (λ x m. refl),
        ))
        refl)

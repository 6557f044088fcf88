-- ===== src/Server/Sched/Due.antt =====
-- internal/server/sched.go: what a tick does for a job that is due.
use claude_backup.Prelude.{
  text_eq, text_eq_refl, ℕ, ◌≡◌, refl, true, false, some, [], inl, inr, arith, Bool-cases,
  Option-cases, none,
}
use claude_backup.Sql.Keys.{first-modify}
use mathlib.Core.Path.{◌∙◌}
use claude_backup.Store.{JobRow, Run}
use claude_backup.Store.Runs.{get_run}
use claude_backup.Store.Jobs.{get_job, set_catchup_pending}
use claude_backup.Server.{Server, is_online, with_store, fresh_id, use_id}
use claude_backup.Server.Jobs.{start_backup, scheduled_mode}
use claude_backup.Server.Jobs.Dispatch.{
  Settled, command_of, start_backup-Settled, start_backup_taken, start_backup_created,
}
use claude_backup.Server.Sched.{Cron, is_due, trigger_job, sched_job}

-- The outcome `t` of a trigger of a job that is in the store as `cur`: a run that is running with
-- its command queued, or has failed as not dispatched; no run, as another one has the id that was
-- drawn for it; or, with the agent offline, the catch-up flag or nothing.
pub data Triggered (row cur : JobRow) (s t : Server) : Type 0 where
  started :
      is_online row.job.agent_id s ≡ true
      → get_run (fresh_id s) s.store ≡ none
      → Settled
          (fresh_id s)
          row.job.agent_id
          (command_of (fresh_id s) row.job (scheduled_mode row s) s)
          s.hub
          t
      → Triggered row cur s t
  id_taken :
      (other : Run)
      → is_online row.job.agent_id s ≡ true
      → get_run (fresh_id s) s.store ≡ some other
      → t ≡ use_id s
      → Triggered row cur s t
  to_catch_up :
      is_online row.job.agent_id s ≡ false
      → row.job.catchup ≡ true
      → get_job row.job.id t.store ≡ some (record cur { catchup_pending = true })
      → Triggered row cur s t
  skipped :
      is_online row.job.agent_id s ≡ false → row.job.catchup ≡ false → t ≡ s → Triggered row cur s t

trigger_job-Triggered :
    (row cur : JobRow) (s : Server)
    → row.job.enabled ≡ true
    → get_job row.job.id s.store ≡ some cur
    → Triggered row cur s (trigger_job row s)
unfolding trigger_job get_job set_catchup_pending
trigger_job-Triggered row cur s enabled stored = elim (Bool-cases (is_online row.job.agent_id s)) [
  | inl on ↦
      let same : trigger_job row s ≡ (start_backup row [] false s).1 = ground arith in
      elim (Option-cases (get_run (fresh_id s) s.store)) [
        | inr (other, taken) ↦
            id_taken other on taken (same ∙ start_backup_taken row [] false s enabled on taken)
        | inl new ↦ started on new (
            rw same (
              start_backup-Settled row [] false s (fresh_id s) enabled on
                (start_backup_created row [] false s enabled on new)))
      ]
  | inr off ↦ elim (Bool-cases row.job.catchup) [
    | inl wanted ↦
        let t = with_store (set_catchup_pending row.job.id true s.store) s in
        let same : trigger_job row s ≡ t = ground arith in
        to_catch_up off wanted (
          rw same (
            ground (
              arith,
              text_eq_refl row.job.id,
              first-modify (λ r. r.job.id) row.job.id row.job.id
                  (λ r. record r { catchup_pending = true }) s.store.jobs (λ r m. refl),
            )))
    | inr unwanted ↦ skipped off unwanted (ground arith)
  ]
]

-- A job that is enabled, has a schedule, is due at a tick and is in the store is started where its
-- agent is online: its new run is running where the command was sent and has failed as not dispatched
-- where it was not; only where another run has the drawn id there is no run, and nothing else changes.
-- Where the agent is offline, the job's catch-up flag is set if the job wants that, and nothing
-- changes otherwise.
pub sched_job-Triggered :
    (parse : Cron) (last now : ℕ) (row cur : JobRow) (s : Server)
    → row.job.enabled ≡ true
    → text_eq row.job.schedule [] ≡ false
    → is_due (parse row.job.schedule) last now ≡ true
    → get_job row.job.id s.store ≡ some cur
    → Triggered row cur s (sched_job parse last now row s)
unfolding sched_job
sched_job-Triggered parse last now row cur s enabled scheduled due stored =
    let same : sched_job parse last now row s ≡ trigger_job row s = ground arith in
    rw same (trigger_job-Triggered row cur s enabled stored)

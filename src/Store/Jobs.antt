-- ===== src/Store/Jobs.antt =====
-- internal/server/store/store.go: jobs. `now` is the clock at the call.
use claude_backup.Prelude.{
  Text, ℕ, ◌+◌, Bool, false, Option, none, some, List, [], ◌∷◌, ◌++◌, reverse,
}
use claude_backup.Sql.{select, first, modify, delete, given}
use claude_backup.Sql.Keys.{by}
use claude_backup.Sql.Order.{order_by}
use claude_backup.Proto.{Job}
use claude_backup.Store.{Store, JobRow}

abbrev pub job_id_is : Text → JobRow → Bool
job_id_is = by (λ r. r.job.id)

unfoldable pub get_job : Text → Store → Option JobRow
get_job id s = first (job_id_is id) s.jobs

-- Latest update first. An empty id lists the jobs of all agents.
unfoldable pub list_jobs : Text → Store → List JobRow
list_jobs agent_id s =
    reverse (order_by (λ r. r.updated_at) (select (λ r. given agent_id r.job.agent_id) s.jobs))

abbrev pub new_job : Job → ℕ → JobRow
new_job j now = record { job = j; run_count = 0; catchup_pending = false; updated_at = now }

-- INSERT … ON CONFLICT(id) DO UPDATE, which keeps the run count and the catch-up flag.
unfoldable pub save_job : Job → ℕ → Store → Store
save_job j now s = elim (first (job_id_is j.id) s.jobs) [
  | none ↦ record s { jobs = s.jobs ++ new_job j now ∷ [] }
  | some _ ↦ record s {
    jobs = modify (job_id_is j.id) (λ r. record r { job = j; updated_at = now }) s.jobs;
  }
]

unfoldable pub delete_job : Text → Store → Store
delete_job id s = record s { jobs = delete (job_id_is id) s.jobs }

unfoldable pub increment_run_count : Text → Store → Store
increment_run_count id s = record s {
  jobs = modify (job_id_is id) (λ r. record r { run_count = r.run_count + 1 }) s.jobs;
}

unfoldable pub set_catchup_pending : Text → Bool → Store → Store
set_catchup_pending id pending s = record s {
  jobs = modify (job_id_is id) (λ r. record r { catchup_pending = pending }) s.jobs;
}

-- ===== src/Server/Jobs/CatchUp.antt =====
-- internal/server/jobs.go: a catch-up of a job whose agent has gone again.
use claude_backup.Prelude.{text_eq_refl, ◌≡◌, refl, true, false, some, arith}
use claude_backup.Sql.Keys.{first-modify}
use claude_backup.Store.{JobRow}
use claude_backup.Store.Jobs.{get_job, set_catchup_pending}
use claude_backup.Server.{Server, is_online, with_store}
use claude_backup.Server.Jobs.{start_backup, catch_up}

-- The catch-up of a pending, enabled job whose agent is offline makes no run, and clears the flag of the job.
pub catch_up_offline :
    (row cur : JobRow) (s : Server)
    → row.catchup_pending ≡ true
    → row.job.enabled ≡ true
    → is_online row.job.agent_id s ≡ false
    → get_job row.job.id s.store ≡ some cur
    → ((catch_up row s).store.runs ≡ s.store.runs)
      × (get_job row.job.id (catch_up row s).store ≡ some (record cur { catchup_pending = false }))
unfolding catch_up start_backup set_catchup_pending get_job
catch_up_offline row cur s pending enabled off e =
    let cleared = with_store (set_catchup_pending row.job.id false s.store) s in
    let same : catch_up row s ≡ cleared = ground arith in
    rw same (
      refl,
      ground (
        arith,
        text_eq_refl row.job.id,
        first-modify (λ r. r.job.id) row.job.id row.job.id
            (λ r. record r { catchup_pending = false }) s.store.jobs (λ r m. refl),
      ),
    )

-- ===== src/Server/Sched.antt =====
-- internal/server/sched.go: the ticks that start the jobs that are due, and the daily maintenance.
-- The cron library is a parameter: `parse` yields the next trigger after a time, or no schedule.
pub mod Triggers
pub mod Due
use claude_backup.Prelude.{
  Text, text_eq, ℕ, ℤ, ltb, Bool, true, false, not, ◌||◌, Option, none, some, List, [], ◌∷◌,
  if◌then◌else◌,
}
use claude_backup.Store.{JobRow}
use claude_backup.Store.Jobs.{list_jobs, set_catchup_pending}
use claude_backup.Server.{Server, with_store, is_online}
use claude_backup.Server.Jobs.{start_backup}
use claude_backup.Server.Gc.{Codec, prune_and_gc}

abbrev pub Cron : Type 0
Cron = Text → Option (ℕ → ℕ)

-- Whether a schedule has a trigger after `last` and not after `now`.
unfoldable pub is_due : Option (ℕ → ℕ) → ℕ → ℕ → Bool
is_due none last now = false
is_due (some next) last now = not (ltb now (next last))

unfoldable pub trigger_job : JobRow → Server → Server
trigger_job row s =
    let started = (start_backup row [] false s).1 in
    if is_online row.job.agent_id s
    then started
    else if row.job.catchup
    then with_store (set_catchup_pending row.job.id true s.store) s
    else s

module _ (parse : Cron) where
  unfoldable pub sched_job : ℕ → ℕ → JobRow → Server → Server
  unfolding is_due trigger_job
  sched_job last now row s =
      let triggered = trigger_job row s in
      if not row.job.enabled || text_eq row.job.schedule []
      then s
      else if is_due (parse row.job.schedule) last now
      then triggered
      else s

  unfoldable pub sched_jobs : ℕ → ℕ → List JobRow → Server → Server
  unfolding sched_job
  sched_jobs last now [] s = s
  sched_jobs last now (row ∷ rows) s = sched_jobs last now rows (sched_job last now row s)

  -- One tick at a time, after a tick at an earlier one.
  unfoldable pub tick : ℕ → ℕ → Server → Server
  unfolding sched_jobs
  tick last now s = sched_jobs last now (list_jobs [] s.store) (record s { now = now })

  -- The loop over the ticks.
  unfoldable pub run_scheduler : ℕ → List ℕ → Server → Server
  unfolding tick
  run_scheduler last [] s = s
  run_scheduler last (now ∷ times) s = run_scheduler now times (tick last now s)

-- The rounds of the maintenance at some times; a failed one is followed by the next.
module _ (days_back : ℕ → ℤ → ℤ) (codec : Codec) (grace : ℕ) where
  unfoldable pub run_maintenance : List ℕ → Server → Server
  run_maintenance [] s = s
  run_maintenance (now ∷ times) s =
      run_maintenance times (prune_and_gc days_back codec grace (record s { now = now })).1

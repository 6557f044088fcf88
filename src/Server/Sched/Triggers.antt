-- ===== src/Server/Sched/Triggers.antt =====
-- internal/server/sched.go: the loop over the ticks against the triggers of a schedule.
use mathlib.Core.Path.{◌∙◌, ap}
use claude_backup.Prelude.{
  text_eq, ℕ, ◌≤◌, ◌<◌, ltb, ◌≡◌, refl, true, false, some, List, [], ◌∷◌, ◌++◌, inl, inr, arith,
  Bool-cases, if◌then◌else◌,
}
use claude_backup.Store.{JobRow}
use claude_backup.Store.Jobs.{list_jobs}
use claude_backup.Server.{Server}
use claude_backup.Server.Sched.{
  Cron, is_due, trigger_job, sched_job, sched_jobs, tick, run_scheduler,
}

-- A schedule as a set of times: `next t` is its first one after `t`.
pub record Schedule (Fires : ℕ → Type 0) (next : ℕ → ℕ) : Type 0 where
  pub later : (t : ℕ) → t < next t
  pub fires : (t : ℕ) → Fires (next t)
  pub least : (t u : ℕ) → Fires u → t < u → next t ≤ u

-- The time of the last tick.
unfoldable pub end_of : ℕ → List ℕ → ℕ
end_of last [] = last
end_of last (now ∷ times) = end_of now times

-- The ticks until the first one that is not before `u`.
unfoldable pub ticks_before : ℕ → List ℕ → List ℕ
ticks_before u [] = []
ticks_before u (now ∷ times) =
    let rest = ticks_before u times in if ltb now u then now ∷ rest else []

-- The first tick `to` that is not before `u`, with the ticks after it.
pub record Reached (last : ℕ) (times : List ℕ) (u : ℕ) : Type 0 where
  pub to : ℕ
  pub later : List ℕ
  pub split : times ≡ ticks_before u times ++ to ∷ later
  pub after : end_of last (ticks_before u times) < u
  pub covered : u ≤ to

reached :
    (last : ℕ) (times : List ℕ) (u : ℕ) → last < u → u ≤ end_of last times → Reached last times u
unfolding ticks_before end_of
reached last [] u a b = absurd (omega arith)
reached last (now ∷ times) u a b = elim (Bool-cases (ltb now u)) [
  | inl before ↦
      let r = reached now times u (ground arith) b in
      record {
        to = r.to;
        later = r.later;
        split = rw (before, ticks_before) (ap (λ ts. now ∷ ts) r.split);
        after = rw (before, ticks_before) r.after;
        covered = r.covered;
      }
  | inr here ↦ record {
    to = now;
    later = times;
    split = rw (here, ticks_before) refl;
    after = rw (here, ticks_before) a;
    covered = ground arith;
  }
]

module _ (parse : Cron) where
  -- A run of the scheduler goes on from the time of the last tick of its first part.
  run_scheduler-append :
      (last : ℕ) (times more : List ℕ) (s : Server)
      → run_scheduler parse last (times ++ more) s
        ≡ run_scheduler parse (end_of last times) more (run_scheduler parse last times s)
  unfolding run_scheduler end_of
  run_scheduler-append last [] more s = refl
  run_scheduler-append last (now ∷ times) more s =
      run_scheduler-append now times more (tick parse last now s)

  sched_jobs-append :
      (last now : ℕ) (rows more : List JobRow) (s : Server)
      → sched_jobs parse last now (rows ++ more) s
        ≡ sched_jobs parse last now more (sched_jobs parse last now rows s)
  unfolding sched_jobs
  sched_jobs-append last now [] more s = refl
  sched_jobs-append last now (row ∷ rows) more s =
      sched_jobs-append last now rows more (sched_job parse last now row s)

  sched_job_due :
      (from to : ℕ) (row : JobRow) (s : Server)
      → row.job.enabled ≡ true
      → text_eq row.job.schedule [] ≡ false
      → is_due (parse row.job.schedule) from to ≡ true
      → sched_job parse from to row s ≡ trigger_job row s
  unfolding sched_job
  sched_job_due from to row s enabled scheduled due = ground arith

  tick_rows :
      (pre : List JobRow) (row : JobRow) (post : List JobRow) (from to : ℕ) (s : Server)
      → list_jobs [] s.store ≡ pre ++ row ∷ post
      → row.job.enabled ≡ true
      → text_eq row.job.schedule [] ≡ false
      → is_due (parse row.job.schedule) from to ≡ true
      → tick parse from to s
        ≡ sched_jobs parse from to post
            (trigger_job row (sched_jobs parse from to pre (record s { now = to })))
  unfolding tick sched_jobs
  tick_rows pre row post from to s listed enabled scheduled due =
      ap (λ rows. sched_jobs parse from to rows (record s { now = to })) listed
      ∙ sched_jobs-append from to pre (row ∷ post) (record s { now = to })
      ∙ ap (λ x. sched_jobs parse from to post x)
          (sched_job_due from to row (sched_jobs parse from to pre (record s { now = to })) enabled
            scheduled due)

  -- Where the scheduler stands before the first tick that is not before `u`.
  abbrev pub state_before : ℕ → ℕ → List ℕ → Server → Server
  state_before u last times s = run_scheduler parse last (ticks_before u times) s

  -- At the first tick that is not before `u`, the scheduler triggers the job of the row, after it has
  -- gone through the rows `pre` and before it goes through the rows `post`; then it goes on.
  pub record DueTick (pre : List JobRow) (row : JobRow) (post : List JobRow) (u last : ℕ)
      (times : List ℕ) (s : Server) : Type 0 where
    pub tick_time : Reached last times u
    pub triggered :
        let from = end_of last (ticks_before u times) in
        let to = tick_time.to in
        run_scheduler parse last times s
        ≡ run_scheduler parse to tick_time.later (
            sched_jobs parse from to post (
              trigger_job row
                (sched_jobs parse from to pre (record (state_before u last times s) { now = to }))))

  module _ (Fires : ℕ → Type 0) (next : ℕ → ℕ) (schedule : Schedule Fires next) where
    due_at : (from to u : ℕ) → Fires u → from < u → u ≤ to → is_due (some next) from to ≡ true
    unfolding is_due
    due_at from to u f a b = ground (arith, schedule.least from u f a)

    -- Every trigger of a schedule after the start of the scheduler, and not after its last tick, makes
    -- the scheduler trigger its job at the first tick that is not before it, if the job is then listed,
    -- enabled, and of that schedule: no trigger is lost between two ticks, however far apart they are.
    pub trigger-DueTick :
        (pre : List JobRow) (row : JobRow) (post : List JobRow) (u last : ℕ) (times : List ℕ)
        (s : Server)
        → Fires u
        → last < u
        → u ≤ end_of last times
        → list_jobs [] (state_before u last times s).store ≡ pre ++ row ∷ post
        → row.job.enabled ≡ true
        → text_eq row.job.schedule [] ≡ false
        → parse row.job.schedule ≡ some next
        → DueTick pre row post u last times s
    unfolding run_scheduler
    trigger-DueTick pre row post u last times s f a b listed enabled scheduled parsed =
        let r = reached last times u a b in
        let from = end_of last (ticks_before u times) in
        let st = state_before u last times s in
        let due = due_at from r.to u f r.after r.covered in
        record {
          tick_time = r;
          triggered =
              ap (λ ts. run_scheduler parse last ts s) r.split
              ∙ run_scheduler-append last (ticks_before u times) (r.to ∷ r.later) s
              ∙ ap (λ x. run_scheduler parse r.to r.later x)
                  (tick_rows pre row post from r.to st listed enabled scheduled (rw parsed due));
        }

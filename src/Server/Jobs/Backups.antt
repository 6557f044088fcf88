-- ===== src/Server/Jobs/Backups.antt =====
-- internal/server/jobs.go: the runs that the start of a backup makes.
use claude_backup.Prelude.{
  Text, text_eq, text_eq_iff, ℕ, ◌≤◌, ◌+◌, if◌then◌else◌, ◌≡◌, refl, Bool, false, ◌&&◌, none, List,
  [], ◌∷◌, ◌++◌, length, arith, Bool-cases, Option-cases, inl, inr,
}
use claude_backup.Sql.{select, first, modify}
use claude_backup.Sql.Order.{insert_sorted, order_by}
use claude_backup.Proto.{Job, Status, queued, running, error, no_stats, run_backup}
use claude_backup.Store.{Store, Run, JobRow}
use claude_backup.Store.Jobs.{increment_run_count}
use claude_backup.Store.Runs.{
  is_queued, is_queued_for, create_run, new_run, finish_run, run_id_is, queued_runs,
}
use claude_backup.Store.Snapshots.{latest_snapshot}
use claude_backup.Hub.{send}
use claude_backup.Server.{Server, fresh_id, use_id, with_store, send_to, run_not_dispatched}
use claude_backup.Server.Jobs.{
  start_backup, queue_backup, create_and_send, send_run_backup, scheduled_mode, mode_or, prev_id,
}

-- A queued run of a job, for an agent.
abbrev pub waits : Text → Text → Run → Bool
waits agent_id job_id r = is_queued_for agent_id r && text_eq r.job_id job_id

-- How many runs of the job wait for the agent.
abbrev pub waiting : Text → Text → Store → ℕ
waiting agent_id job_id t = length (select (waits agent_id job_id) t.runs)

module _ {A : Type 0} (column : A → ℕ) where
  first-insert_sorted :
      (p : A → Bool) (x : A) (xs : List A)
      → first p (insert_sorted column x xs) ≡ none
      → (p x ≡ false) × (first p xs ≡ none)
  unfolding first insert_sorted
  first-insert_sorted p x [] h = ground arith
  first-insert_sorted p x (y ∷ ys) h = ground (arith, first-insert_sorted p x ys)

  -- What is not in the ordered rows is not in the rows.
  first-order_by :
      (p : A → Bool) (xs : List A) → first p (order_by column xs) ≡ none → first p xs ≡ none
  unfolding first order_by
  first-order_by p [] h = refl
  first-order_by p (x ∷ xs) h =
      ground (arith, first-insert_sorted p x (order_by column xs) h, first-order_by p xs)

-- No row that passes one test passes the other too.
select-both_none :
    {A : Type 0} (q p : A → Bool) (xs : List A)
    → first p (select q xs) ≡ none
    → select (λ r. q r && p r) xs ≡ []
unfolding first select
select-both_none q p [] h = refl
select-both_none q p (x ∷ xs) h = ground (arith, select-both_none q p xs)

-- A change that makes no row of the selection does not make it longer.
length-select-modify :
    {A : Type 0} (q p : A → Bool) (f : A → A) (xs : List A)
    → ((r : A) → q (f r) ≡ false)
    → length (select q (modify p f xs)) ≤ length (select q xs)
unfolding select modify
length-select-modify q p f [] h = omega arith
length-select-modify q p f (x ∷ xs) h = ground (arith, h x, length-select-modify q p f xs h)

waiting-finish_run :
    (agent_id job_id id message : Text) (now : ℕ) (t : Store)
    → waiting agent_id job_id (finish_run id error [] message no_stats now t)
      ≤ waiting agent_id job_id t
unfolding finish_run is_queued_for
waiting-finish_run agent_id job_id id message now t =
    length-select-modify _ _ _ t.runs (λ r. ground arith)

waiting-send :
    (agent_id job_id run_id : Text) (job : Job) (mode : Text) (s : Server)
    → waiting agent_id job_id (send_run_backup run_id job mode s).store
      ≤ waiting agent_id job_id s.store
unfolding send_run_backup send_to
waiting-send agent_id job_id run_id job mode s =
    let m = run_backup run_id job mode (prev_id (latest_snapshot s.backend_key job.id s.store)) in
    elim (Bool-cases (send job.agent_id m s.hub).0) [
      | inl e ↦ rw (e, send_run_backup) (omega arith)
      | inr e ↦
          rw (e, send_run_backup)
            (waiting-finish_run agent_id job_id run_id run_not_dispatched s.now s.store)
    ]

length-select-append :
    {A : Type 0} (q : A → Bool) (xs : List A) (x : A)
    → length (select q (xs ++ x ∷ [])) ≡ length (select q xs) + (if q x then 1 else 0)
unfolding select
length-select-append q [] x = ground arith
length-select-append q (y ∷ ys) x = ground (arith, length-select-append q ys x)

-- A run that is created adds one to what waits where it is queued for that agent and that job.
waiting-create_and_send :
    (agent_id job_id mode : Text) (row : JobRow) (status : Status) (s : Server)
    → waiting agent_id job_id (create_and_send row mode status s).1.store
      ≤ waiting agent_id job_id s.store
        + (if is_queued status && text_eq row.job.agent_id agent_id && text_eq row.job.id job_id
            then 1
            else 0)
unfolding create_and_send create_run increment_run_count is_queued_for select
waiting-create_and_send agent_id job_id mode row status s =
    elim (Option-cases (first (run_id_is (fresh_id s)) s.store.runs)) [
      | inr (r, e) ↦ rw (e, create_and_send) (omega arith)
      | inl e ↦
          rw (e, create_and_send)
            (let s1 = use_id (
                with_store
                  (increment_run_count row.job.id (record s.store {
                    runs =
                        s.store.runs
                        ++ new_run (fresh_id s) row.job.id row.job.agent_id mode status s.now ∷ [];
                  }))
                  s) in
              ground (
                arith,
                waiting-send agent_id job_id (fresh_id s) row.job mode s1,
                length-select-append (waits agent_id job_id) s.store.runs
                    (new_run (fresh_id s) row.job.id row.job.agent_id mode status s.now),
              ))
    ]

-- The query of the job among the agent's queued runs finds none only where none waits.
waiting-none :
    (agent_id job_id : Text) (t : Store)
    → first (λ q. text_eq q.job_id job_id) (queued_runs agent_id t) ≡ none
    → waiting agent_id job_id t ≡ 0
unfolding queued_runs
waiting-none agent_id job_id t h =
    rw
      (select-both_none (is_queued_for agent_id) (λ q. text_eq q.job_id job_id) t.runs
        (first-order_by (λ r. r.created_at) _ (select (is_queued_for agent_id) t.runs) h))
      refl

-- Where at most one run of a job waits for an agent, that is so after the start of any backup.
pub waiting-start_backup :
    (agent_id job_id : Text) (row : JobRow) (mode : Text) (queue : Bool) (s : Server)
    → waiting agent_id job_id s.store ≤ 1
    → waiting agent_id job_id (start_backup row mode queue s).1.store ≤ 1
unfolding start_backup queue_backup
waiting-start_backup agent_id job_id row mode queue s h =
    let chosen = mode_or mode (scheduled_mode row s) in
    elim (Option-cases
      (first (λ q. text_eq q.job_id row.job.id) (queued_runs row.job.agent_id s.store))) [
        | inl e ↦ ground (
          arith,
          e,
          waiting-none row.job.agent_id row.job.id s.store e,
          text_eq_iff row.job.agent_id agent_id,
          text_eq_iff row.job.id job_id,
          waiting-create_and_send agent_id job_id chosen row queued s,
          waiting-create_and_send agent_id job_id chosen row running s,
        )
        | inr (q, e) ↦
            ground (arith, e, waiting-create_and_send agent_id job_id chosen row running s)
      ]

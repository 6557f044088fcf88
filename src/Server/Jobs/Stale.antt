-- ===== src/Server/Jobs/Stale.antt =====
-- internal/server/api_admin.go and jobs.go: an edit of a job by an operator against the copy that a
-- client still has.
use mathlib.Core.Path.{sym, ap, ◌∙◌}
use claude_backup.Prelude.{
  Text, text_eq, text_eq_refl, text_eq_sound, ℕ, ltz, pos, ◌+ℤ◌, int64, has_next, int64_next, true,
  ◌≡◌, ◌≢◌, refl, Bool, false, Option, none, some, [], ◌∷◌, arith, Bool-cases, Option-cases, inl,
  inr,
}
use claude_backup.Sql.{first}
use claude_backup.Sql.Keys.{first-insert_self, first-modify}
use claude_backup.Proto.{Job}
use claude_backup.Store.{Store, JobRow}
use claude_backup.Store.Agents.{get_agent}
use claude_backup.Store.Jobs.{job_id_is, get_job, save_job, new_job}
use claude_backup.Server.{Server, ok, Answer-cases, send_to}
use claude_backup.Server.Jobs.{
  push_jobs, validate_job, edit_job, sync_valid_job, sync_job, is_empty,
}
use claude_backup.Server.Admin.{job_to_save, handle_job_save}

is_empty_named : (t : Text) → t ≢ [] → is_empty t ≡ false
is_empty_named [] n = absurd (n refl)
is_empty_named (c ∷ t) n = refl

-- The row of a job has it as it is.
pub record Saved (j : Job) (t : Store) : Type 0 where
  pub row : JobRow
  pub found : get_job j.id t ≡ some row
  pub same : row.job ≡ j

save_job-Saved : (j : Job) (now : ℕ) (t : Store) → Saved j (save_job j now t)
unfolding save_job get_job
save_job-Saved j now t = elim (Option-cases (first (job_id_is j.id) t.jobs)) [
  | inl new ↦ record {
    row = new_job j now;
    found = rw (new, save_job) (first-insert_self (λ r. r.job.id) t.jobs (new_job j now) new);
    same = refl;
  }
  | inr (cur, old) ↦ record {
    row = record cur { job = j; updated_at = now };
    found =
        rw (old, save_job)
          (first-modify (λ r. r.job.id) j.id j.id (λ r. record r { job = j; updated_at = now })
              t.jobs (λ r m. sym (text_eq_sound r.job.id j.id m))
            ∙ rw (text_eq_refl j.id, old) refl);
    same = refl;
  }
]

-- A save that succeeds leaves the job stored as it answers.
pub handle_job_save-Saved :
    (cron_valid : Text → Bool) (body : Option Job) (j : Job) (s : Server)
    → (handle_job_save cron_valid body s).0 ≡ ok j
    → Saved j (handle_job_save cron_valid body s).1.store
unfolding handle_job_save push_jobs send_to
handle_job_save-Saved cron_valid none j s h = absurd (ground arith)
handle_job_save-Saved cron_valid (some job) j s h =
    elim (Bool-cases (validate_job cron_valid job)) [
      | inr invalid ↦ absurd (ground arith)
      | inl valid ↦ elim (Option-cases (get_agent job.agent_id s.store)) [
        | inl unknown ↦ absurd (ground arith)
        | inr (a, known) ↦ elim (Answer-cases (job_to_save job s).0) [
          | inl (e, refused) ↦ absurd (ground arith)
          | inr (i, chosen) ↦
              let same : i ≡ j = ground arith in
              rw (valid, known, chosen, handle_job_save, sym same)
                (save_job-Saved i (job_to_save job s).1.now (job_to_save job s).1.store)
        ]
      ]
    ]

-- A client's copy whose version is not higher than that of the job that was saved changes nothing.
sync_job_stale :
    (cron_valid : Text → Bool) (body : Option Job) (j stale : Job) (agent_id : Text) (s : Server)
    → (handle_job_save cron_valid body s).0 ≡ ok j
    → stale.id ≡ j.id
    → stale.id ≢ []
    → ltz j.version stale.version ≡ false
    → sync_job cron_valid agent_id stale (handle_job_save cron_valid body s).1
      ≡ (handle_job_save cron_valid body s).1
unfolding sync_job sync_valid_job edit_job
sync_job_stale cron_valid body j stale agent_id s h same named old =
    let t = (handle_job_save cron_valid body s).1 in
    let saved = handle_job_save-Saved cron_valid body j s h in
    let mine = record stale { agent_id = agent_id } in
    let found : get_job stale.id t.store ≡ some saved.row = rw same saved.found in
    let not_newer : ltz saved.row.job.version stale.version ≡ false = rw saved.same old in
    elim (Bool-cases (validate_job cron_valid mine)) [
      | inr invalid ↦ rw (invalid, sync_job) refl
      | inl valid ↦ elim (Bool-cases (text_eq saved.row.job.agent_id agent_id)) [
        | inr foreign ↦ rw (valid, is_empty_named stale.id named, found, foreign, sync_job) refl
        | inl own ↦ rw (valid, is_empty_named stale.id named, found, own, not_newer, sync_job) refl
      ]
    ]

is_named : (t : Text) → t ≢ [] → text_eq t [] ≡ false
is_named t n = ground (arith, text_eq_sound t [])

-- The edit of a known job gives it the version after the stored one.
handle_job_save-version :
    (cron_valid : Text → Bool) (job j : Job) (cur : JobRow) (s : Server)
    → (handle_job_save cron_valid (some job) s).0 ≡ ok j
    → job.id ≢ []
    → get_job job.id s.store ≡ some cur
    → (j.id ≡ job.id) × (j.version ≡ int64 (cur.job.version +ℤ pos 1))
unfolding handle_job_save job_to_save
handle_job_save-version cron_valid job j cur s h named stored =
    let next : Job = record job {
      origin = cur.job.origin;
      agent_id = cur.job.agent_id;
      version = int64 (cur.job.version +ℤ pos 1);
    } in
    let chosen : job_to_save job s ≡ (ok next, s) =
      rw (is_named job.id named, stored, job_to_save) refl in
    let same : next ≡ j = elim (Bool-cases (validate_job cron_valid job)) [
      | inr invalid ↦ absurd (ground arith)
      | inl valid ↦ elim (Option-cases (get_agent job.agent_id s.store)) [
        | inl unknown ↦ absurd (ground arith)
        | inr (a, known) ↦ ground arith
      ]
    ] in
    (sym (ap (λ i. i.id) same), sym (ap (λ i. i.version) same))

-- After an operator's edit of a known job that succeeds, and whose version has a successor in `int64`,
-- a client's copy whose version is at most that successor changes nothing when it is synchronised.
pub sync_job-handle_job_save :
    (cron_valid : Text → Bool) (job j stale : Job) (cur : JobRow) (agent_id : Text) (s : Server)
    → (handle_job_save cron_valid (some job) s).0 ≡ ok j
    → job.id ≢ []
    → get_job job.id s.store ≡ some cur
    → has_next cur.job.version ≡ true
    → stale.id ≡ job.id
    → ltz (cur.job.version +ℤ pos 1) stale.version ≡ false
    → sync_job cron_valid agent_id stale (handle_job_save cron_valid (some job) s).1
      ≡ (handle_job_save cron_valid (some job) s).1
sync_job-handle_job_save cron_valid job j stale cur agent_id s h named stored next same old =
    let (id, version) = handle_job_save-version cron_valid job j cur s h named stored in
    sync_job_stale cron_valid (some job) j stale agent_id s h (same ∙ sym id) (rw same named)
      (rw (version, int64_next cur.job.version next) old)

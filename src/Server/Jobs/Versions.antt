-- ===== src/Server/Jobs/Versions.antt =====
-- internal/server/jobs.go: what a synchronisation may change of a job that the server has.
use claude_backup.Prelude.{
  Text, text_eq, text_eq_iff, text_eq_refl, text_eq_sound, ℤ, ltz, pos, negsuc, ℕ, if◌then◌else◌,
  ◌≡◌, refl, ◌∙◌, Bool, true, false, none, some, List, [], ◌∷◌, arith, Bool-cases, Option-cases,
  inl, inr,
}
use mathlib.Core.Path.{subst}
use mathlib.Core.Option
use claude_backup.Sql.{first, modify}
use claude_backup.Sql.Keys.{first-insert, first-modify}
use claude_backup.Proto.{Job, client}
use claude_backup.Store.{Store, JobRow}
use claude_backup.Store.Jobs.{job_id_is, get_job, save_job, new_job}
use claude_backup.Store.Owned.{HasKeys}
use claude_backup.Server.{Server, fresh_id, send_to}
use claude_backup.Server.Jobs.{
  push_jobs, edit_job, add_client_job, sync_valid_job, sync_job, sync_jobs, handle_jobs_sync,
  validate_job, is_empty,
}
use claude_backup.Server.Jobs.Sync.{HasFreshIds, sync_job-Keeps}

-- The job under an id is there in both stores. Its origin, its agent, its run count and its catch-up
-- flag are the same, and its version is not lower.
pub record Advances (id : Text) (s t : Store) : Type 0 where
  pub before : JobRow
  pub after : JobRow
  pub found_before : get_job id s ≡ some before
  pub found_after : get_job id t ≡ some after
  pub origin : after.job.origin ≡ before.job.origin
  pub agent : after.job.agent_id ≡ before.job.agent_id
  pub runs : after.run_count ≡ before.run_count
  pub catchup : after.catchup_pending ≡ before.catchup_pending
  pub version : ltz after.job.version before.job.version ≡ false

ltz_irrefl : (a : ℤ) → ltz a a ≡ false
ltz_irrefl (pos a) = ground arith
ltz_irrefl (negsuc a) = ground arith

ltz_asym : (a b : ℤ) → ltz a b ≡ true → ltz b a ≡ false
ltz_asym (pos a) (pos b) h = ground arith
ltz_asym (pos a) (negsuc b) h = cc
ltz_asym (negsuc a) (pos b) h = refl
ltz_asym (negsuc a) (negsuc b) h = ground arith

ltz_trans : (a b c : ℤ) → ltz b a ≡ false → ltz c b ≡ false → ltz c a ≡ false
ltz_trans (pos a) (pos b) (pos c) h k = ground arith
ltz_trans (pos a) (pos b) (negsuc c) h k = cc
ltz_trans (pos a) (negsuc b) c h k = absurd (cc)
ltz_trans (negsuc a) (pos b) (pos c) h k = refl
ltz_trans (negsuc a) (pos b) (negsuc c) h k = absurd (cc)
ltz_trans (negsuc a) (negsuc b) (pos c) h k = refl
ltz_trans (negsuc a) (negsuc b) (negsuc c) h k = ground arith

Advances-refl : (id : Text) (t : Store) {cur : JobRow} → get_job id t ≡ some cur → Advances id t t
Advances-refl id t {cur} e = record {
  before = cur;
  after = cur;
  found_before = e;
  found_after = e;
  origin = refl;
  agent = refl;
  runs = refl;
  catchup = refl;
  version = ltz_irrefl cur.job.version;
}

Advances-trans : (id : Text) (s t u : Store) → Advances id s t → Advances id t u → Advances id s u
Advances-trans id s t u p q =
    let same : p.after ≡ q.before = ground (arith, p.found_after, q.found_before) in
    record {
      before = p.before;
      after = q.after;
      found_before = p.found_before;
      found_after = q.found_after;
      origin = cc (p.origin, q.origin);
      agent = cc (p.agent, q.agent);
      runs = cc (p.runs, q.runs);
      catchup = cc (p.catchup, q.catchup);
      version =
          ltz_trans p.before.job.version p.after.job.version q.after.job.version p.version
            (rw same q.version);
    }

-- A job that is saved under its own id, with the agent, the origin and no lower version.
save_job-Advances :
    (j : Job) (now : ℕ) (t : Store) (id : Text) {old cur : JobRow}
    → get_job id t ≡ some cur
    → get_job j.id t ≡ some old
    → j.agent_id ≡ old.job.agent_id
    → j.origin ≡ old.job.origin
    → ltz j.version old.job.version ≡ false
    → Advances id t (save_job j now t)
unfolding save_job get_job
save_job-Advances j now t id {old} {cur} e o agent origin version =
    elim (Bool-cases (text_eq id j.id)) [
      | inr other ↦
          rw (o, save_job)
            (record {
              before = cur;
              after = cur;
              found_before = e;
              found_after = changed ∙ rw other e;
              origin = refl;
              agent = refl;
              runs = refl;
              catchup = refl;
              version = ltz_irrefl cur.job.version;
            })
      | inl same ↦
          let old_cur : old ≡ cur = ground (
            arith,
            subst (λ i. first (job_id_is i) t.jobs ≡ some cur) (text_eq_sound id j.id same) e,
          ) in
          rw (o, save_job)
            (record {
              before = cur;
              after = record cur { job = j; updated_at = now };
              found_before = e;
              found_after = changed ∙ rw (same, e) refl;
              origin = cc;
              agent = cc;
              runs = refl;
              catchup = refl;
              version = rw⁻¹ old_cur version;
            })
    ]
  where
    written : JobRow → JobRow
    written r = record r { job = j; updated_at = now }

    changed : first (job_id_is id) (modify (job_id_is j.id) written t.jobs) ≡ (
        if text_eq id j.id
        then Option.map written (first (job_id_is id) t.jobs)
        else first (job_id_is id) t.jobs)
    changed =
        first-modify (λ r. r.job.id) id j.id written t.jobs
          (λ r m. ground (arith, text_eq_iff r.job.id j.id))

-- A new job does not replace one that is there.
save_new_job-Advances :
    (j : Job) (now : ℕ) (t : Store) (id : Text) {cur : JobRow}
    → get_job id t ≡ some cur
    → get_job j.id t ≡ none
    → Advances id t (save_job j now t)
unfolding save_job get_job
save_new_job-Advances j now t id {cur} e n =
    rw (n, save_job)
      (record {
        before = cur;
        after = cur;
        found_before = e;
        found_after =
            first-insert (λ r. r.job.id) id t.jobs (new_job j now) n
            ∙ elim (Bool-cases (text_eq j.id id)) [
              | inr d ↦ rw d e
              | inl d ↦ absurd (
                  ground (
                    arith,
                    subst (λ i. first (job_id_is i) t.jobs ≡ none) (text_eq_sound j.id id d) n,
                  ))
            ];
        origin = refl;
        agent = refl;
        runs = refl;
        catchup = refl;
        version = ltz_irrefl cur.job.version;
      })

module _ (a : Text) (j : Job) (s : Server) (id : Text) (cur : JobRow)
    (mine : text_eq j.agent_id a ≡ true) (e : get_job id s.store ≡ some cur) where
  edit_job-Advances :
      (old : JobRow)
      → get_job j.id s.store ≡ some old
      → text_eq old.job.agent_id a ≡ true
      → Advances id s.store (edit_job j old s).store
  unfolding edit_job
  edit_job-Advances old o owner = elim (Bool-cases (ltz old.job.version j.version)) [
    | inr stale ↦ rw stale (Advances-refl id s.store e)
    | inl newer ↦ rw newer (
        save_job-Advances (record j { origin = old.job.origin }) s.now s.store id e o
          (cc (text_eq_sound j.agent_id a mine, text_eq_sound old.job.agent_id a owner)) refl
          (ltz_asym old.job.version j.version newer))
  ]

  sync_valid_job-Advances : HasFreshIds s → Advances id s.store (sync_valid_job a j s).store
  unfolding sync_valid_job add_client_job get_job
  sync_valid_job-Advances ids = elim (Bool-cases (is_empty j.id)) [
    | inl new ↦ rw new (
        save_new_job-Advances (record j { id = fresh_id s; origin = client; version = pos 1 }) s.now
          s.store id e (ids.unused s.ids_used (omega arith)))
    | inr known ↦ rw known (elim (Option-cases (first (job_id_is j.id) s.store.jobs)) [
      | inl n ↦ rw n (Advances-refl id s.store e)
      | inr (old, o) ↦ rw o (elim (Bool-cases (text_eq old.job.agent_id a)) [
        | inl owner ↦ rw owner (edit_job-Advances old o owner)
        | inr owner ↦ rw owner (Advances-refl id s.store e)
      ])
    ])
  ]

module _ (cron_valid : Text → Bool) (a : Text) where
  sync_job-Advances :
      (j : Job) (s : Server) (id : Text) {cur : JobRow}
      → get_job id s.store ≡ some cur
      → HasFreshIds s
      → Advances id s.store (sync_job cron_valid a j s).store
  unfolding sync_job
  sync_job-Advances j s id {cur} e ids =
      elim (Bool-cases (validate_job cron_valid (record j { agent_id = a }))) [
        | inr bad ↦ rw bad (Advances-refl id s.store e)
        | inl good ↦
            rw good (
              sync_valid_job-Advances a (record j { agent_id = a }) s id cur (text_eq_refl a) e ids)
      ]

  sync_jobs-Advances :
      (js : List Job) (s : Server) (id : Text) {cur : JobRow}
      → get_job id s.store ≡ some cur
      → HasKeys s.store
      → HasFreshIds s
      → Advances id s.store (sync_jobs cron_valid a js s).store
  unfolding sync_jobs
  sync_jobs-Advances [] s id e k ids = Advances-refl id s.store e
  sync_jobs-Advances (j ∷ js) s id e k ids =
      let step = sync_job-Advances j s id e ids in
      let kept = sync_job-Keeps cron_valid a j s k ids in
      Advances-trans id s.store (sync_job cron_valid a j s).store _ step
        (sync_jobs-Advances js (sync_job cron_valid a j s) id step.found_after kept.keys kept.ids)

  -- A synchronisation that an agent sends deletes no job and never lowers a job's version. It changes
  -- no job's origin, agent, run count or catch-up flag. Unique keys and unused ids to come are assumed.
  pub handle_jobs_sync-Advances :
      (js : List Job) (s : Server) (id : Text) {cur : JobRow}
      → get_job id s.store ≡ some cur
      → HasKeys s.store
      → HasFreshIds s
      → Advances id s.store (handle_jobs_sync cron_valid a js s).store
  unfolding handle_jobs_sync push_jobs send_to
  handle_jobs_sync-Advances js s id e k ids = sync_jobs-Advances js s id e k ids

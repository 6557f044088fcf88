-- ===== src/Server/Jobs/Sync.antt =====
-- What a job synchronisation does to the jobs table: whose rows it writes, and which keys.
use claude_backup.Prelude.{
  Text, text_eq, text_eq_refl, text_eq_sound, ℕ, ◌≤◌, ◌≡◌, sym, ◌≢◌, ◌∙◌, Bool, true, false, none,
  some, List, [], ◌∷◌, arith, Bool-cases, Option-cases, inl, inr, ltz, pos,
}
use mathlib.Core.Path.{subst}
use claude_backup.Sql.{first}
use claude_backup.Sql.Keys.{
  Unique-modify, Unique-insert, Unique-delete, select-insert, first-insert, first-modify-none,
  first-delete-none,
}
use claude_backup.Sql.Owners.{OwnedBy, first-OwnedBy, foreign-modify_to, foreign-delete}
use claude_backup.Proto.{Job, ServerMessage, client}
use claude_backup.Store.{Store, JobRow}
use claude_backup.Store.Jobs.{job_id_is, get_job, save_job, delete_job, new_job}
use claude_backup.Store.Owned.{
  HasKeys, Untouched, Untouched-refl, Untouched-trans, jobs-Untouched, jobs-HasKeys,
}
use claude_backup.Server.{Server, with_store, fresh_id, send_to}
use claude_backup.Server.Jobs.{
  push_jobs, edit_job, add_client_job, sync_valid_job, sync_job, sync_jobs, handle_jobs_sync,
  handle_agent_job_delete, validate_job, is_empty,
}

-- The ids that are still to come are no job's, and differ from one another.
pub record HasFreshIds (s : Server) : Type 0 where
  pub unused : (n : ℕ) → s.ids_used ≤ n → first (job_id_is (s.new_id n)) s.store.jobs ≡ none
  pub distinct : (m n : ℕ) → m ≢ n → text_eq (s.new_id m) (s.new_id n) ≡ false

module _ (a : Text) (j : Job) (now : ℕ) (t : Store) (mine : text_eq j.agent_id a ≡ true) where
  save_job_new-Untouched : first (job_id_is j.id) t.jobs ≡ none → Untouched a t (save_job j now t)
  unfolding save_job
  save_job_new-Untouched e =
      rw (e, save_job)
        (jobs-Untouched a t _ (select-insert _ t.jobs (new_job j now) (ground arith)))

  save_job_own-Untouched :
      {cur : JobRow}
      → first (job_id_is j.id) t.jobs ≡ some cur
      → OwnedBy (λ r. r.job.id) (λ r. r.job.agent_id) a j.id t.jobs
      → Untouched a t (save_job j now t)
  unfolding save_job
  save_job_own-Untouched e o =
      rw (e, save_job) (jobs-Untouched a t _ (foreign-modify_to _ _ a j.id _ t.jobs (λ r. mine) o))

module _ (j : Job) (now : ℕ) (t : Store) where
  same_id : (r : JobRow) → job_id_is j.id r ≡ true → j.id ≡ r.job.id
  same_id r h = sym (text_eq_sound r.job.id j.id h)

  pub save_job-HasKeys : HasKeys t → HasKeys (save_job j now t)
  unfolding save_job
  save_job-HasKeys k = elim (Option-cases (first (job_id_is j.id) t.jobs)) [
    | inl e ↦
        rw (e, save_job) (jobs-HasKeys t k _ (Unique-insert _ t.jobs (new_job j now) k.job_keys e))
    | inr (cur, e) ↦
        rw (e, save_job) (jobs-HasKeys t k _ (Unique-modify _ _ _ t.jobs same_id k.job_keys))
  ]

  -- No key but the job's own comes in.
  pub save_job_keys :
      (i : Text)
      → text_eq j.id i ≡ false
      → first (job_id_is i) t.jobs ≡ none
      → first (job_id_is i) (save_job j now t).jobs ≡ none
  unfolding save_job
  save_job_keys i d n = elim (Option-cases (first (job_id_is j.id) t.jobs)) [
    | inl e ↦ rw (e, save_job) (first-insert _ i t.jobs (new_job j now) e ∙ ground arith)
    | inr (cur, e) ↦ rw (e, save_job) (first-modify-none _ i _ _ t.jobs same_id n)
  ]

-- The keys, the ids to come and the other agents' rows, after a step from `s` to `s'`.
pub record Keeps (a : Text) (s s' : Server) : Type 0 where
  pub untouched : Untouched a s.store s'.store
  pub keys : HasKeys s'.store
  pub ids : HasFreshIds s'

pub Keeps-refl : (a : Text) (s : Server) → HasKeys s.store → HasFreshIds s → Keeps a s s
Keeps-refl a s k i = record { untouched = Untouched-refl a s.store; keys = k; ids = i }

pub Keeps-trans : (a : Text) (s t u : Server) → Keeps a s t → Keeps a t u → Keeps a s u
Keeps-trans a s t u p q = record {
  untouched = Untouched-trans a s.store t.store u.store p.untouched q.untouched;
  keys = q.keys;
  ids = q.ids;
}

-- A message to an agent changes the hub alone.
pub send_to-Keeps :
    (a b : Text) (m : ServerMessage) (s : Server)
    → HasKeys s.store
    → HasFreshIds s
    → Keeps a s (send_to b m s).1
unfolding send_to
send_to-Keeps a b m s k i = record {
  untouched = Untouched-refl a s.store;
  keys = k;
  ids = record { unused = i.unused; distinct = i.distinct };
}

module _ (a : Text) (j : Job) (s : Server) (mine : text_eq j.agent_id a ≡ true)
    (k : HasKeys s.store) (ids : HasFreshIds s) where
  add_client_job-Keeps : Keeps a s (add_client_job j s)
  unfolding add_client_job
  add_client_job-Keeps = record {
    untouched =
        save_job_new-Untouched a (record j { id = fresh_id s; origin = client; version = pos 1 })
          s.now s.store mine (ids.unused s.ids_used (omega arith));
    keys = save_job-HasKeys _ s.now s.store k;
    ids = record {
      unused = λ n h.
          save_job_keys _ s.now s.store (s.new_id n) (ids.distinct s.ids_used n (λ e. omega arith))
            (ids.unused n (omega arith));
      distinct = ids.distinct;
    };
  }

  edit_job-Keeps :
      (cur : JobRow)
      → first (job_id_is j.id) s.store.jobs ≡ some cur
      → text_eq cur.job.agent_id a ≡ true
      → Keeps a s (edit_job j cur s)
  unfolding edit_job
  edit_job-Keeps cur e o = elim (Bool-cases (ltz cur.job.version j.version)) [
    | inr old ↦ rw old (Keeps-refl a s k ids)
    | inl newer ↦ rw newer (record {
      untouched =
          save_job_own-Untouched a (record j { origin = cur.job.origin }) s.now s.store mine e
            (first-OwnedBy _ _ a j.id s.store.jobs k.job_keys e o);
      keys = save_job-HasKeys _ s.now s.store k;
      ids = record {
        unused = λ n h. save_job_keys _ s.now s.store (s.new_id n) (other n h) (ids.unused n h);
        distinct = ids.distinct;
      };
    })
  ]
    where
      other : (n : ℕ) → s.ids_used ≤ n → text_eq j.id (s.new_id n) ≡ false
      other n h = elim (Bool-cases (text_eq j.id (s.new_id n))) [
        | inr d ↦ d
        | inl d ↦ absurd (
            ground (
              arith,
              subst (λ i. first (job_id_is i) s.store.jobs ≡ some cur) (text_eq_sound _ _ d) e,
              ids.unused n h,
            ))
      ]

  sync_valid_job-Keeps : Keeps a s (sync_valid_job a j s)
  unfolding sync_valid_job get_job
  sync_valid_job-Keeps = elim (Bool-cases (is_empty j.id)) [
    | inl new ↦ rw new add_client_job-Keeps
    | inr old ↦ rw old (elim (Option-cases (first (job_id_is j.id) s.store.jobs)) [
      | inl e ↦ rw e (Keeps-refl a s k ids)
      | inr (cur, e) ↦ rw e (elim (Bool-cases (text_eq cur.job.agent_id a)) [
        | inl o ↦ rw o (edit_job-Keeps cur e o)
        | inr o ↦ rw o (Keeps-refl a s k ids)
      ])
    ])
  ]

module _ (cron_valid : Text → Bool) (a : Text) where
  pub sync_job-Keeps :
      (j : Job) (s : Server)
      → HasKeys s.store
      → HasFreshIds s
      → Keeps a s (sync_job cron_valid a j s)
  unfolding sync_job
  sync_job-Keeps j s k ids =
      elim (Bool-cases (validate_job cron_valid (record j { agent_id = a }))) [
        | inl good ↦
            rw good (sync_valid_job-Keeps a (record j { agent_id = a }) s (text_eq_refl a) k ids)
        | inr bad ↦ rw bad (Keeps-refl a s k ids)
      ]

  sync_jobs-Keeps :
      (js : List Job) (s : Server)
      → HasKeys s.store
      → HasFreshIds s
      → Keeps a s (sync_jobs cron_valid a js s)
  unfolding sync_jobs
  sync_jobs-Keeps [] s k ids = Keeps-refl a s k ids
  sync_jobs-Keeps (j ∷ js) s k ids =
      let step = sync_job-Keeps j s k ids in
      Keeps-trans a s _ _ step (sync_jobs-Keeps js (sync_job cron_valid a j s) step.keys step.ids)

  pub handle_jobs_sync-Keeps :
      (js : List Job) (s : Server)
      → HasKeys s.store
      → HasFreshIds s
      → Keeps a s (handle_jobs_sync cron_valid a js s)
  unfolding handle_jobs_sync push_jobs
  handle_jobs_sync-Keeps js s k ids =
      let step = sync_jobs-Keeps js s k ids in
      Keeps-trans a s _ _ step
        (send_to-Keeps a a _ (sync_jobs cron_valid a js s) step.keys step.ids)

pub handle_agent_job_delete-Keeps :
    (a id : Text) (s : Server)
    → HasKeys s.store
    → HasFreshIds s
    → Keeps a s (handle_agent_job_delete a id s)
unfolding handle_agent_job_delete get_job push_jobs delete_job
handle_agent_job_delete-Keeps a id s k ids =
    elim (Option-cases (first (job_id_is id) s.store.jobs)) [
      | inl e ↦ rw (e, handle_agent_job_delete) (Keeps-refl a s k ids)
      | inr (cur, e) ↦
          rw (e, handle_agent_job_delete)
            (elim (Bool-cases (text_eq cur.job.agent_id a)) [
              | inr o ↦ rw (o, handle_agent_job_delete) (Keeps-refl a s k ids)
              | inl o ↦
                  rw (o, handle_agent_job_delete)
                    (Keeps-trans a s _ _ (deleted cur e o)
                      (send_to-Keeps a a _ _ (deleted cur e o).keys (deleted cur e o).ids))
            ])
    ]
  where
    deleted :
        (cur : JobRow)
        → first (job_id_is id) s.store.jobs ≡ some cur
        → text_eq cur.job.agent_id a ≡ true
        → Keeps a s (with_store (delete_job id s.store) s)
    deleted cur e o = record {
      untouched = jobs-Untouched a s.store _ (
          foreign-delete _ _ a id s.store.jobs
            (first-OwnedBy _ _ a id s.store.jobs k.job_keys e o));
      keys = jobs-HasKeys s.store k _ (Unique-delete _ _ s.store.jobs k.job_keys);
      ids = record {
        unused = λ n h. first-delete-none _ (s.new_id n) _ s.store.jobs (ids.unused n h);
        distinct = ids.distinct;
      };
    }

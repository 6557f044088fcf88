-- ===== src/Agent/Config/Settled.antt =====
-- internal/agent/config.go: what an agent sends after it has taken over the server's jobs.
use mathlib.Core.Path.{ap}
use claude_backup.Prelude.{
  Text, text_eq_refl, text_eq_comm, text_eq_sound, ℤ, pos, negsuc, eqz, ◌≡◌, ◌≢◌, refl, Bool, true,
  false, Option, none, some, List, [], ◌∷◌, map, arith, Bool-cases, inl, inr,
}
use claude_backup.Sql.{first}
use claude_backup.Sql.Keys.{All, All-map, by, Unique}
use claude_backup.Proto.{Job}
use claude_backup.Agent.Config.{
  Changes, YamlJob, LocalConfig, to_proto, yaml_from_proto, texts_eq, bool_eq, job_spec_equal,
  edit_change, job_change, job_changes, text_lt, sync_now, insert_by_name, sort_by_name, jobs_by_id,
  apply_server_jobs, sent_deletes,
}

texts_eq_refl : (ts : List Text) → texts_eq ts ts ≡ true
unfolding texts_eq
texts_eq_refl [] = refl
texts_eq_refl (t ∷ ts) = ground (arith, text_eq_refl t, texts_eq_refl ts)

eqz_refl : (a : ℤ) → eqz a a ≡ true
eqz_refl (pos n) = ground arith
eqz_refl (negsuc n) = ground arith

bool_eq_refl : (b : Bool) → bool_eq b b ≡ true
bool_eq_refl true = refl
bool_eq_refl false = refl

-- A job that is written to the file and read back has the same specification.
pub job_spec_equal_written : (j : Job) → job_spec_equal (to_proto (yaml_from_proto j)) j ≡ true
unfolding job_spec_equal to_proto yaml_from_proto
job_spec_equal_written j = ground (
  arith,
  text_eq_refl j.id,
  text_eq_refl j.name,
  texts_eq_refl j.paths,
  texts_eq_refl j.excludes,
  text_eq_refl j.schedule,
  eqz_refl j.full_every,
  eqz_refl j.keep_last,
  eqz_refl j.keep_days,
  text_eq_refl j.pre_hook,
  text_eq_refl j.post_hook,
  bool_eq_refl j.enabled,
  bool_eq_refl j.catchup,
)

-- The map has a job under its id, which is not empty.
abbrev Known : (Text → Option Job) → Job → Type 0
Known server_jobs j = (server_jobs j.id ≡ some j) × (j.id ≢ [])

edit_change-Known :
    (server_jobs : Text → Option Job) (j : Job) (c : Changes)
    → Known server_jobs j
    → edit_change server_jobs (to_proto (yaml_from_proto j)) c ≡ c
unfolding edit_change to_proto yaml_from_proto
edit_change-Known server_jobs j c k = ground (arith, k.0, job_spec_equal_written j)

job_change-Known :
    (server_jobs : Text → Option Job) (j : Job) (c : Changes)
    → Known server_jobs j
    → job_change server_jobs (yaml_from_proto j) c ≡ c
unfolding job_change to_proto yaml_from_proto
job_change-Known server_jobs j c k =
    ground (arith, edit_change-Known server_jobs j c k, text_eq_sound j.id [])

job_changes-Known :
    (server_jobs : Text → Option Job) (js : List Job)
    → All (Known server_jobs) js
    → job_changes server_jobs (map yaml_from_proto js) ([], []) ≡ ([], [])
unfolding job_changes
job_changes-Known server_jobs [] k = refl
job_changes-Known server_jobs (j ∷ js) k =
    rw (job_changes, job_change-Known server_jobs j ([], []) k.0)
      (job_changes-Known server_jobs js k.1)

module _ (P : Job → Type 0) where
  All-insert_by_name : (j : Job) (js : List Job) → P j → All P js → All P (insert_by_name j js)
  unfolding insert_by_name
  All-insert_by_name j [] p h = (p, tt)
  All-insert_by_name j (k ∷ ks) p h = elim (Bool-cases (text_lt k.name j.name)) [
    | inl before ↦ rw before (h.0, All-insert_by_name j ks p h.1)
    | inr after ↦ rw after (p, h)
  ]

  All-sort_by_name : (js : List Job) → All P js → All P (sort_by_name js)
  unfolding sort_by_name
  All-sort_by_name [] h = tt
  All-sort_by_name (j ∷ js) h = All-insert_by_name j (sort_by_name js) h.0 (All-sort_by_name js h.1)

-- The map from a list has no job under an id that none has.
jobs_by_id-none :
    (id : Text) (js : List Job) → first (by (λ j. j.id) id) js ≡ none → jobs_by_id js id ≡ none
unfolding jobs_by_id first
jobs_by_id-none id [] h = refl
jobs_by_id-none id (j ∷ js) h = ground (arith, jobs_by_id-none id js)

-- Distinct ids lead to their jobs.
All-jobs_by_id : (js : List Job) → Unique (λ j. j.id) js → All (λ j. jobs_by_id js j.id ≡ some j) js
unfolding jobs_by_id
All-jobs_by_id [] u = tt
All-jobs_by_id (j ∷ js) u = (
  rw (jobs_by_id-none j.id js u.0, text_eq_refl j.id) refl,
  All-map js (λ x e. rw e refl) (All-jobs_by_id js u.1),
)

module _ (k : Text) where
  first-insert_by_name-none :
      (j : Job) (js : List Job)
      → by (λ j. j.id) k j ≡ false
      → first (by (λ j. j.id) k) js ≡ none
      → first (by (λ j. j.id) k) (insert_by_name j js) ≡ none
  unfolding first insert_by_name
  first-insert_by_name-none j [] d h = ground arith
  first-insert_by_name-none j (x ∷ xs) d h = ground (arith, first-insert_by_name-none j xs d)

  first-sort_by_name-none :
      (js : List Job)
      → first (by (λ j. j.id) k) js ≡ none
      → first (by (λ j. j.id) k) (sort_by_name js) ≡ none
  unfolding first sort_by_name
  first-sort_by_name-none [] h = refl
  first-sort_by_name-none (j ∷ js) h =
      first-insert_by_name-none j (sort_by_name js) (ground arith)
        (first-sort_by_name-none js (ground arith))

Unique-insert_by_name :
    (j : Job) (js : List Job)
    → first (by (λ j. j.id) j.id) js ≡ none
    → Unique (λ j. j.id) js
    → Unique (λ j. j.id) (insert_by_name j js)
unfolding insert_by_name first
Unique-insert_by_name j [] h u = (refl, tt)
Unique-insert_by_name j (x ∷ xs) h u = elim (Bool-cases (text_lt x.name j.name)) [
  | inl before ↦ rw before (
    first-insert_by_name-none x.id j xs (ground (arith, text_eq_comm j.id x.id)) u.0,
    Unique-insert_by_name j xs (ground arith) u.1,
  )
  | inr after ↦ rw after (h, u)
]

Unique-sort_by_name : (js : List Job) → Unique (λ j. j.id) js → Unique (λ j. j.id) (sort_by_name js)
unfolding sort_by_name
Unique-sort_by_name [] u = tt
Unique-sort_by_name (j ∷ js) u =
    Unique-insert_by_name j (sort_by_name js) (first-sort_by_name-none j.id js u.0)
      (Unique-sort_by_name js u.1)

-- The map that the server's jobs are put into has each of them.
All-Known :
    (server_jobs : Text → Option Job) (js : List Job)
    → All (λ j. server_jobs j.id ≡ some j) js
    → All (λ j. j.id ≢ []) js
    → All (Known server_jobs) js
All-Known server_jobs [] p q = tt
All-Known server_jobs (j ∷ js) p q = ((p.0, q.0), All-Known server_jobs js p.1 q.1)

-- A file whose jobs bring no change, and that asks for no deletion, is not answered.
sync_now-unchanged :
    (online : Bool) (delivered : Text → Bool) (ys : List YamlJob) (server_jobs : Text → Option Job)
    (sent : List Text)
    → job_changes server_jobs ys ([], sent) ≡ ([], sent)
    → let lc : LocalConfig = record {
      file = some (record { jobs = ys; delete = [] });
      server_jobs = server_jobs;
      sent_creates = sent;
    } in
      sync_now online delivered lc ≡ ([], lc)
unfolding sync_now sent_deletes
sync_now-unchanged online delivered ys server_jobs sent same =
    rw (sync_now, same, ap (λ c. c.1) same) refl

-- After the server's jobs have been written to the file, a synchronisation sends nothing, and leaves
-- the state as it is: the two sides do not answer each other for ever. The ids of the jobs are
-- distinct and not empty.
pub sync_now-apply_server_jobs :
    (online : Bool) (delivered : Text → Bool) (jobs : List Job) (lc : LocalConfig)
    → Unique (λ j. j.id) jobs
    → All (λ j. j.id ≢ []) jobs
    → sync_now online delivered (apply_server_jobs true jobs lc)
      ≡ ([], apply_server_jobs true jobs lc)
unfolding apply_server_jobs
sync_now-apply_server_jobs online delivered jobs lc unique named =
    let sorted = sort_by_name jobs in
    sync_now-unchanged online delivered (map yaml_from_proto sorted) (jobs_by_id sorted) [] (
      job_changes-Known (jobs_by_id sorted) sorted (
        All-Known (jobs_by_id sorted) sorted
          (All-jobs_by_id sorted (Unique-sort_by_name jobs unique))
          (All-sort_by_name (λ j. j.id ≢ []) jobs named)))

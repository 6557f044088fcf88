-- ===== src/Agent/Config.antt =====
-- internal/agent/config.go: the jobs in agent.yaml against the set that the server has pushed. The
-- YAML of the file is a parameter of the system: a file is what it holds, or `none` if unreadable.
pub mod Settled
use claude_backup.Prelude.{
  Text, text_eq, ℕ, ltb, ℤ, pos, ◌+ℤ◌, int64, eqz, contains, ◌==◌, Bool, true, false, not, ◌&&◌,
  ◌||◌, Option, none, some, List, [], ◌∷◌, ◌++◌, map, if◌then◌else◌,
}
use claude_backup.Proto.{Job, Origin, unset_origin, AgentMessage, jobs_sync, job_delete}

pub record YamlJob : Type 0 where
  pub id : Text
  pub name : Text
  pub paths : List Text
  pub excludes : List Text
  pub schedule : Text
  pub full_every : ℤ
  pub keep_last : ℤ
  pub keep_days : ℤ
  pub pre_hook : Text
  pub post_hook : Text
  pub enabled : Option Bool
  pub catchup : Option Bool

pub record ConfigFile : Type 0 where
  pub jobs : List YamlJob
  pub delete : List Text

abbrev pub or_true : Option Bool → Bool
or_true none = true
or_true (some b) = b

unfoldable pub to_proto : YamlJob → Job
to_proto y = record {
  id = y.id;
  agent_id = [];
  name = y.name;
  paths = y.paths;
  excludes = y.excludes;
  schedule = y.schedule;
  full_every = y.full_every;
  keep_last = y.keep_last;
  keep_days = y.keep_days;
  pre_hook = y.pre_hook;
  post_hook = y.post_hook;
  enabled = or_true y.enabled;
  catchup = or_true y.catchup;
  origin = unset_origin;
  version = pos 0;
}

unfoldable pub yaml_from_proto : Job → YamlJob
yaml_from_proto j = record {
  id = j.id;
  name = j.name;
  paths = j.paths;
  excludes = j.excludes;
  schedule = j.schedule;
  full_every = j.full_every;
  keep_last = j.keep_last;
  keep_days = j.keep_days;
  pre_hook = j.pre_hook;
  post_hook = j.post_hook;
  enabled = some j.enabled;
  catchup = some j.catchup;
}

unfoldable pub texts_eq : List Text → List Text → Bool
texts_eq [] [] = true
texts_eq [] (t ∷ ts) = false
texts_eq (s ∷ ss) [] = false
texts_eq (s ∷ ss) (t ∷ ts) = text_eq s t && texts_eq ss ts

abbrev pub bool_eq : Bool → Bool → Bool
bool_eq true b = b
bool_eq false b = not b

-- The JSON of two jobs without the agent, the origin and the version is the same where their fields are.
unfoldable pub job_spec_equal : Job → Job → Bool
unfolding texts_eq
job_spec_equal a b =
    text_eq a.id b.id
    && text_eq a.name b.name
    && texts_eq a.paths b.paths
    && texts_eq a.excludes b.excludes
    && text_eq a.schedule b.schedule
    && eqz a.full_every b.full_every
    && eqz a.keep_last b.keep_last
    && eqz a.keep_days b.keep_days
    && text_eq a.pre_hook b.pre_hook
    && text_eq a.post_hook b.post_hook
    && bool_eq a.enabled b.enabled
    && bool_eq a.catchup b.catchup

-- `server_jobs` is the map by id, and `sent_creates` the names of the jobs that wait for an id.
pub record LocalConfig : Type 0 where
  pub file : Option ConfigFile
  pub server_jobs : Text → Option Job
  pub sent_creates : List Text

-- The changes of the file that are to be sent, with the creations that are on their way.
abbrev pub Changes : Type 0
Changes = List Job × List Text

abbrev add_change : Job → Changes → Changes
add_change j (upd, sent) = (upd ++ j ∷ [], sent)

abbrev pub no_paths : List Text → Bool
no_paths [] = true
no_paths (p ∷ ps) = false

module _ (server_jobs : Text → Option Job) where
  unfoldable pub edit_change : Job → Changes → Changes
  edit_change j c = elim (server_jobs j.id) [
    | none ↦ c
    | some cur ↦
        if job_spec_equal j cur
        then c
        else add_change (record j { version = int64 (cur.version +ℤ pos 1) }) c
  ]

  -- One round of the loop over the file's jobs.
  unfoldable pub job_change : YamlJob → Changes → Changes
  unfolding edit_change
  job_change y c =
      let j = to_proto y in
      if text_eq j.name [] || no_paths j.paths
      then c
      else if text_eq j.id []
      then (if contains c.1 j.name then c else (c.0 ++ j ∷ [], j.name ∷ c.1))
      else edit_change j c

  unfoldable pub job_changes : List YamlJob → Changes → Changes
  unfolding job_change
  job_changes [] c = c
  job_changes (y ∷ ys) c = job_changes ys (job_change y c)

unfoldable pub forget : List Job → List Text → List Text
forget upd [] = []
forget upd (name ∷ sent) =
    let rest = forget upd sent in if is_created name upd then rest else name ∷ rest
  where
    is_created : Text → List Job → Bool
    is_created name [] = false
    is_created name (j ∷ js) = (text_eq j.id [] && text_eq j.name name) || is_created name js

unfoldable pub sent_deletes : (Text → Bool) → List Text → List AgentMessage
sent_deletes delivered [] = []
sent_deletes delivered (id ∷ ids) =
    let rest = sent_deletes delivered ids in if delivered id then job_delete id ∷ rest else rest

-- The messages that were sent, where `online` says whether the jobs can be and `delivered` which
-- deletions.
unfoldable pub sync_now : Bool → (Text → Bool) → LocalConfig → List AgentMessage × LocalConfig
unfolding job_changes forget sent_deletes
sync_now online delivered lc = elim lc.file [
  | none ↦ ([], lc)
  | some cf ↦
      let (upd, sent) = job_changes lc.server_jobs cf.jobs ([], lc.sent_creates) in
      let deletes = sent_deletes delivered cf.delete in
      elim upd [
        | [] ↦ (deletes, record lc { sent_creates = sent })
        | j ∷ js ↦
            if online
            then (jobs_sync (j ∷ js) ∷ deletes, record lc { sent_creates = sent })
            else (deletes, record lc { sent_creates = forget (j ∷ js) sent })
      ]
]

-- The order of Go's strings.
unfoldable pub text_lt : Text → Text → Bool
text_lt s [] = false
text_lt [] (d ∷ t) = true
text_lt (c ∷ s) (d ∷ t) = ltb c d || (c == d && text_lt s t)

-- sort.Slice by name; jobs of one name stay in their order here.
unfoldable pub insert_by_name : Job → List Job → List Job
insert_by_name j [] = j ∷ []
insert_by_name j (k ∷ ks) =
    let rest = insert_by_name j ks in if text_lt k.name j.name then k ∷ rest else j ∷ k ∷ ks

unfoldable pub sort_by_name : List Job → List Job
unfolding insert_by_name
sort_by_name [] = []
sort_by_name (j ∷ js) = insert_by_name j (sort_by_name js)

-- `lc.serverJobs[j.ID] = j`, job after job
unfoldable pub jobs_by_id : List Job → Text → Option Job
jobs_by_id [] id = none
jobs_by_id (j ∷ js) id = elim (jobs_by_id js id) [
  | some later ↦ some later
  | none ↦ if text_eq j.id id then some j else none
]

-- Where the file cannot be written, it stays as it is.
unfoldable pub apply_server_jobs : Bool → List Job → LocalConfig → LocalConfig
unfolding jobs_by_id sort_by_name
apply_server_jobs written jobs lc =
    let sorted = sort_by_name jobs in
    record {
      file =
          if written
          then some (record { jobs = map yaml_from_proto sorted; delete = [] })
          else lc.file;
      server_jobs = jobs_by_id sorted;
      sent_creates = [];
    }

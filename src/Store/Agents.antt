-- ===== src/Store/Agents.antt =====
-- internal/server/store/store.go: enrollment tokens and agents. `sha256_hex` is the hash of a
-- secret, and `now` the clock at the call.
use claude_backup.Prelude.{
  Text, codes, text_eq, ℕ, ◌+◌, ltb, Bool, false, ◌&&◌, Option, none, some, [], ◌∷◌, ◌++◌, take,
  contains, map,
}
use claude_backup.Sql.{select, first, modify, delete}
use claude_backup.Sql.Keys.{by}
use claude_backup.Proto.{Hello}
use claude_backup.Store.{Store, Agent, EnrollToken}

abbrev pub agent_id_is : Text → Agent → Bool
agent_id_is = by (λ a. a.id)

-- `EnrollRequest` without its token.
pub record AgentInfo : Type 0 where
  pub name : Text
  pub hostname : Text
  pub os : Text
  pub arch : Text

abbrev pub name_or : Text → Text → Text
name_or [] default = default
name_or (c ∷ cs) default = c ∷ cs

unfoldable pub agent_name : Text → AgentInfo → Text
agent_name id req = name_or (name_or req.name req.hostname) (codes "agent-" ++ take 6 id)

unfoldable pub get_agent : Text → Store → Option Agent
get_agent id s = first (agent_id_is id) s.agents

-- The last two columns are those of TouchAgent: with a hello, or without.
unfoldable pub touch_agent : Text → Option Hello → ℕ → Store → Store
touch_agent id none now s = record s {
  agents = modify (agent_id_is id) (λ a. record a { last_seen = now }) s.agents;
}
touch_agent id (some hello) now s = record s {
  agents =
      modify (agent_id_is id)
        (λ a. record a {
          last_seen = now;
          hostname = hello.hostname;
          os = hello.os;
          arch = hello.arch;
          version = hello.version;
        })
        s.agents;
}

unfoldable pub rename_agent : Text → Text → Store → Store
rename_agent id name s = record s {
  agents = modify (agent_id_is id) (λ a. record a { name = name }) s.agents;
}

-- The seven statements of DeleteAgent in their order: each subquery reads the table as it is when
-- its statement runs.
unfoldable pub delete_agent : Text → Store → Store
delete_agent id s =
    let run_ids = map (λ r. r.id) (select (λ r. text_eq r.agent_id id) s.runs) in
    let command_ids = map (λ c. c.id) (select (λ c. text_eq c.agent_id id) s.commands) in
    record s {
      run_logs = delete (λ l. contains run_ids l.run_id) s.run_logs;
      runs = delete (λ r. text_eq r.agent_id id) s.runs;
      jobs = delete (λ r. text_eq r.job.agent_id id) s.jobs;
      transfers = delete (λ t. text_eq t.agent_id id) s.transfers;
      command_output = delete (λ l. contains command_ids l.command_id) s.command_output;
      commands = delete (λ c. text_eq c.agent_id id) s.commands;
      agents = delete (agent_id_is id) s.agents;
    }

module _ (sha256_hex : Text → Text) where
  -- `none` where the id is taken.
  unfoldable pub create_agent : Text → Text → AgentInfo → ℕ → Store → Option Store
  unfolding agent_name
  create_agent id secret req now s = elim (first (agent_id_is id) s.agents) [
    | none ↦ some (record s {
      agents =
          s.agents
          ++ record {
            id = id;
            secret_hash = sha256_hex secret;
            name = agent_name id req;
            hostname = req.hostname;
            os = req.os;
            arch = req.arch;
            version = [];
            created = now;
            last_seen = 0;
          }
            ∷ [];
    })
    | some _ ↦ none
  ]

  unfoldable pub verify_agent : Text → Text → Store → Bool
  verify_agent id secret s = elim (first (agent_id_is id) s.agents) [
    | none ↦ false
    | some a ↦ text_eq a.secret_hash (sha256_hex secret)
  ]

  -- WHERE token = ? AND used_by = '' AND expires_at > ?
  unfoldable pub is_usable : Text → ℕ → EnrollToken → Bool
  is_usable token now t =
      text_eq t.token (sha256_hex token) && text_eq t.used_by [] && ltb now t.expires_at

  -- `none` is `ErrNotFound`: no row was affected.
  unfoldable pub consume_enroll_token : Text → Text → ℕ → Store → Option Store
  consume_enroll_token token agent_id now s = elim (first (is_usable token now) s.enroll_tokens) [
    | none ↦ none
    | some _ ↦ some (record s {
      enroll_tokens =
          modify (is_usable token now) (λ t. record t { used_by = agent_id }) s.enroll_tokens;
    })
  ]

  unfoldable pub create_enroll_token : Text → Text → ℕ → ℕ → Store → Store
  create_enroll_token token note ttl now s = record s {
    enroll_tokens =
        s.enroll_tokens
        ++ record {
          token = sha256_hex token;
          note = note;
          created_at = now;
          expires_at = now + ttl;
          used_by = [];
        }
          ∷ [];
  }

-- ===== src/Server/Messages/Enroll.antt =====
-- internal/server/api_agent.go and store.go: what an enrollment does to the agents and the tokens.
use claude_backup.Prelude.{
  Text, text_eq_iff, text_eq_refl, ℕ, ◌≤◌, ◌≡◌, ◌≢◌, refl, true, none, some, List, [], ◌∷◌, ◌++◌,
  arith, Option-cases, inl, inr,
}
use mathlib.Core.Path.{subst}
use claude_backup.Sql.{first, modify, delete}
use claude_backup.Store.{Agent, EnrollToken}
use claude_backup.Store.Agents.{
  AgentInfo, agent_id_is, agent_name, create_agent, delete_agent, verify_agent, is_usable,
  consume_enroll_token,
}
use claude_backup.Server.{Server, ok, err, ServerError, fresh_id}
use claude_backup.Server.Messages.{handle_enroll}

-- The row that was added under an unused id is the one that goes.
delete-insert :
    (id : Text) (rows : List Agent) (r : Agent)
    → r.id ≡ id
    → first (agent_id_is id) rows ≡ none
    → delete (agent_id_is id) (rows ++ r ∷ []) ≡ rows
unfolding first delete
delete-insert id [] r e h = ground (arith, text_eq_iff r.id id)
delete-insert id (x ∷ xs) r e h = ground (arith, delete-insert id xs r e)

first-insert_self :
    (id : Text) (rows : List Agent) (r : Agent)
    → r.id ≡ id
    → first (agent_id_is id) rows ≡ none
    → first (agent_id_is id) (rows ++ r ∷ []) ≡ some r
unfolding first
first-insert_self id [] r e h = ground (arith, text_eq_iff r.id id)
first-insert_self id (x ∷ xs) r e h = ground (arith, first-insert_self id xs r e)

abbrev new_agent : (Text → Text) → Text → Text → AgentInfo → ℕ → Agent
new_agent sha256_hex id secret req now = record {
  id = id;
  secret_hash = sha256_hex secret;
  name = agent_name id req;
  hostname = req.hostname;
  os = req.os;
  arch = req.arch;
  version = [];
  created = now;
  last_seen = 0;
}

module _ (sha256_hex : Text → Text) where
  -- A token that is used up, or has expired, is not usable later.
  used_up :
      (token id : Text) (now later : ℕ) (rows : List EnrollToken)
      → id ≢ []
      → now ≤ later
      → first
          (is_usable sha256_hex token later)
          (modify (is_usable sha256_hex token now) (λ t. record t { used_by = id }) rows)
        ≡ none
  unfolding first modify is_usable
  used_up token id now later [] n le = refl
  used_up token id now later (x ∷ xs) n le =
      ground
        (arith, text_eq_iff id [], text_eq_iff x.used_by [], used_up token id now later xs n le)

  -- A refused enrollment leaves the agents and the tokens as they were.
  pub handle_enroll_refused :
      (token secret : Text) (req : AgentInfo) (s : Server) (e : ServerError)
      → (handle_enroll sha256_hex token secret req s).0 ≡ err e
      → let t = (handle_enroll sha256_hex token secret req s).1.store in
        (t.agents ≡ s.store.agents) × (t.enroll_tokens ≡ s.store.enroll_tokens)
  unfolding handle_enroll create_agent delete_agent consume_enroll_token
  handle_enroll_refused token secret req s e h =
      elim (Option-cases (first (agent_id_is (fresh_id s)) s.store.agents)) [
        | inr (a, taken) ↦ rw (taken, handle_enroll) (refl, refl)
        | inl unused ↦
            elim (Option-cases (first (is_usable sha256_hex token s.now) s.store.enroll_tokens)) [
              | inl n ↦
                  rw (unused, n, handle_enroll)
                    (delete-insert (fresh_id s) s.store.agents _ refl unused, refl)
              | inr (t, u) ↦ absurd (ground arith)
            ]
      ]

  -- An accepted enrollment returns the id and the secret that verify the new agent, and its token
  -- is not usable then or later, as long as the new id is not empty.
  pub handle_enroll_accepted :
      (token secret : Text) (req : AgentInfo) (s : Server) (r : Text × Text)
      → (handle_enroll sha256_hex token secret req s).0 ≡ ok r
      → fresh_id s ≢ []
      → (later : ℕ) (other : Text) → s.now ≤ later
      → let t = (handle_enroll sha256_hex token secret req s).1.store in
        (verify_agent sha256_hex r.0 r.1 t ≡ true)
        × (consume_enroll_token sha256_hex token other later t ≡ none)
  unfolding handle_enroll create_agent consume_enroll_token verify_agent
  handle_enroll_accepted token secret req s r h n later other le =
      elim (Option-cases (first (agent_id_is (fresh_id s)) s.store.agents)) [
        | inr (a, taken) ↦ absurd (ground arith)
        | inl unused ↦
            elim (Option-cases (first (is_usable sha256_hex token s.now) s.store.enroll_tokens)) [
              | inl none_usable ↦ absurd (ground arith)
              | inr (t, u) ↦
                  let same : (fresh_id s, secret) ≡ r = ground arith in
                  subst
                    (λ p.
                      let t' = (handle_enroll sha256_hex token secret req s).1.store in
                      (verify_agent sha256_hex p.0 p.1 t' ≡ true)
                      × (consume_enroll_token sha256_hex token other later t' ≡ none))
                    same
                    (rw (unused, u, handle_enroll)
                      (
                        rw
                            (
                              first-insert_self (fresh_id s) s.store.agents
                                  (new_agent sha256_hex (fresh_id s) secret req s.now) refl unused,
                              verify_agent,
                            )
                            (text_eq_refl (sha256_hex secret)),
                        rw
                            (
                              used_up token (fresh_id s) s.now later s.store.enroll_tokens n le,
                              consume_enroll_token,
                            )
                            refl,
                      ))
            ]
      ]

-- ===== src/Tests/Agents.antt =====
-- The isolation of agents, at a message of one on another's run.
use claude_backup.Prelude.{none, codes, text_eq, refl, true, [], ◌∷◌, arith}
use claude_backup.Sql.{first}
use claude_backup.Prelude.{pos, ◌≡◌}
use claude_backup.Store.Jobs.{get_job}
use claude_backup.Store.Agents.{
  AgentInfo, verify_agent, create_agent, is_usable, consume_enroll_token,
}
use claude_backup.Server.Jobs.{handle_jobs_sync}
use claude_backup.Server.Jobs.Versions.{Advances, handle_jobs_sync-Advances}
use claude_backup.Server.Messages.{handle_enroll}
use claude_backup.Server.Messages.Enroll.{handle_enroll_accepted}
use claude_backup.Tests.{job_of, documents}
use claude_backup.Proto.{Job, success, running, run_done, no_stats, AgentMessage}
use claude_backup.Store.Owned.{HasKeys}
use claude_backup.Server.{Server}
use claude_backup.Server.Jobs.Sync.{HasFreshIds, Keeps}
use claude_backup.Server.Messages.{handle_agent_message}
use claude_backup.Server.Messages.Isolation.{handle_agent_message-Keeps}
use claude_backup.Tests.{alice, bob, run_of, conn_of_alice, server_of, store_of}

abbrev connected : Server
connected = server_of (store_of (run_of (codes "r2") alice running ∷ [])) (conn_of_alice ∷ []) []

connected-HasKeys : HasKeys connected.store
unfolding first text_eq
connected-HasKeys = record {
  agent_keys = (refl, (refl, tt));
  job_keys = (refl, tt);
  run_keys = (refl, tt);
  snapshot_keys = tt;
  transfer_keys = tt;
  command_keys = tt;
}

connected-HasFreshIds : HasFreshIds connected
unfolding first text_eq
connected-HasFreshIds = record { unused = λ n h. refl; distinct = λ m n ne. ground arith }

-- The agent bob reports that the run of alice is done.
abbrev forged : AgentMessage
forged = run_done (record {
  run_id = codes "r2";
  status = success;
  snapshot_id = codes "s9";
  stats = no_stats;
  error = [];
})

handle_agent_message-Keeps_example :
    Keeps bob connected (handle_agent_message (λ t. true) bob forged connected)
handle_agent_message-Keeps_example =
    handle_agent_message-Keeps (λ t. true) bob connected connected-HasKeys connected-HasFreshIds
      forged

-- The agent alice edits her job, with a higher version.
abbrev edited : Job
edited = record (job_of (codes "j1") alice) { version = pos 9; name = codes "photos" }

handle_jobs_sync-Advances_example :
    Advances
      (codes "j1")
      connected.store
      (handle_jobs_sync (λ t. true) alice (edited ∷ []) connected).store
unfolding get_job first text_eq
handle_jobs_sync-Advances_example =
    handle_jobs_sync-Advances (λ t. true) alice (edited ∷ []) connected (codes "j1")
      {cur = documents} refl connected-HasKeys connected-HasFreshIds

-- A server with a token, whose hash is the token itself.
abbrev enrolling : Server
enrolling =
    server_of
      (record (store_of []) {
        enroll_tokens =
            record {
              token = codes "token";
              note = [];
              created_at = 1;
              expires_at = 1000;
              used_by = [];
            }
            ∷ [];
      })
      [] []

abbrev carol : AgentInfo
carol = record { name = []; hostname = codes "carol"; os = codes "linux"; arch = codes "amd64" }

handle_enroll_accepted_example :
    let t = (handle_enroll (λ x. x) (codes "token") (codes "key") carol enrolling).1.store in
    (verify_agent (λ x. x) (0 ∷ 0 ∷ []) (codes "key") t ≡ true)
    × (consume_enroll_token (λ x. x) (codes "token") bob 200 t ≡ none)
unfolding handle_enroll create_agent consume_enroll_token is_usable first text_eq
handle_enroll_accepted_example =
    handle_enroll_accepted (λ x. x) (codes "token") (codes "key") carol enrolling
      (0 ∷ 0 ∷ [], codes "key") refl (λ e. cc) 200 bob (omega arith)

-- ===== src/Server/Messages/Isolation.antt =====
-- What an agent's message leaves alone: the rows of every other agent.
use claude_backup.Prelude.{
  Text, ℤ, ◌≡◌, refl, Bool, true, false, if◌then◌else◌, none, some, arith, Bool-cases, Option-cases,
  inl, inr,
}
use claude_backup.Sql.{first, modify}
use claude_backup.Sql.Keys.{Unique-modify}
use claude_backup.Sql.Owners.{OwnedBy, first-OwnedBy, foreign-modify}
use claude_backup.Proto.{
  AgentMessage, hello, jobs_sync, job_delete, run_progress, run_log, run_done, transfer_progress,
  transfer_done, command_output, command_done, docker_inventory, sched_inventory, sched_result,
  dir_listing, malformed, unknown, RunDone, RunProgress, TransferDone, CommandDone, Hello,
}
use claude_backup.Store.{Store, Run, Transfer, Command}
use claude_backup.Store.Agents.{touch_agent}
use claude_backup.Store.Runs.{run_id_is, get_run, update_run_progress, append_run_log, finish_run}
use claude_backup.Store.Transfers.{
  transfer_id_is, get_transfer, update_transfer_progress, finish_transfer,
}
use claude_backup.Store.Commands.{command_id_is, get_command, append_command_output, finish_command}
use claude_backup.Store.Owned.{
  HasKeys, Untouched, Untouched-refl, Untouched-trans, runs-Untouched, runs-HasKeys,
  transfers-Untouched, transfers-HasKeys, commands-Untouched, commands-HasKeys,
  touch_agent-Untouched, touch_agent-HasKeys, run_logs-Untouched, run_logs-HasKeys,
  output-Untouched, output-HasKeys,
}
use claude_backup.Server.{Server, with_store}
use claude_backup.Server.Jobs.{push_jobs}
use claude_backup.Server.Jobs.Sync.{
  HasFreshIds, Keeps, Keeps-refl, Keeps-trans, send_to-Keeps, handle_jobs_sync-Keeps,
  handle_agent_job_delete-Keeps,
}
use claude_backup.Server.Transfers.{transfer_belongs_to}
use claude_backup.Server.Commands.{command_belongs_to}
use claude_backup.Server.Messages.{run_belongs_to, handle_agent_message}

-- A step that writes the store and leaves the jobs.
store_step :
    (a : Text) (s : Server) (t : Store)
    → HasFreshIds s
    → t.jobs ≡ s.store.jobs
    → Untouched a s.store t
    → HasKeys t
    → Keeps a s (with_store t s)
store_step a s t ids same u k = record {
  untouched = u;
  keys = k;
  ids = record { unused = λ n h. rw same (ids.unused n h); distinct = ids.distinct };
}

module _ (id a : Text) (s : Server) where
  run_belongs_to-OwnedBy :
      HasKeys s.store
      → run_belongs_to id a s ≡ true
      → OwnedBy (λ r. r.id) (λ r. r.agent_id) a id s.store.runs
  unfolding run_belongs_to get_run
  run_belongs_to-OwnedBy k b = elim (Option-cases (first (run_id_is id) s.store.runs)) [
    | inl e ↦ absurd (ground arith)
    | inr (r, e) ↦ first-OwnedBy _ _ a id s.store.runs k.run_keys e (ground arith)
  ]

  transfer_belongs_to-OwnedBy :
      HasKeys s.store
      → transfer_belongs_to id a s ≡ true
      → OwnedBy (λ r. r.id) (λ r. r.agent_id) a id s.store.transfers
  unfolding transfer_belongs_to get_transfer
  transfer_belongs_to-OwnedBy k b =
      elim (Option-cases (first (transfer_id_is id) s.store.transfers)) [
        | inl e ↦ absurd (ground arith)
        | inr (r, e) ↦ first-OwnedBy _ _ a id s.store.transfers k.transfer_keys e (ground arith)
      ]

  command_belongs_to-OwnedBy :
      HasKeys s.store
      → command_belongs_to id a s ≡ true
      → OwnedBy (λ r. r.id) (λ r. r.agent_id) a id s.store.commands
  unfolding command_belongs_to get_command
  command_belongs_to-OwnedBy k b = elim (Option-cases (first (command_id_is id) s.store.commands)) [
    | inl e ↦ absurd (ground arith)
    | inr (r, e) ↦ first-OwnedBy _ _ a id s.store.commands k.command_keys e (ground arith)
  ]

-- An update of the agent's own run, transfer or command.
module _ (id a : Text) (t : Store) (k : HasKeys t) where
  own_run :
      (f : Run → Run)
      → ((r : Run) → (f r).agent_id ≡ r.agent_id)
      → ((r : Run) → (f r).id ≡ r.id)
      → OwnedBy (λ r. r.id) (λ r. r.agent_id) a id t.runs
      → Untouched a t (record t { runs = modify (run_id_is id) f t.runs })
        × HasKeys (record t { runs = modify (run_id_is id) f t.runs })
  own_run f same_owner same_id o = (
    runs-Untouched a t _ (foreign-modify _ _ a id f t.runs same_owner o),
    runs-HasKeys t k _ (Unique-modify _ _ f t.runs (λ r _. same_id r) k.run_keys),
  )

  own_transfer :
      (f : Transfer → Transfer)
      → ((r : Transfer) → (f r).agent_id ≡ r.agent_id)
      → ((r : Transfer) → (f r).id ≡ r.id)
      → OwnedBy (λ r. r.id) (λ r. r.agent_id) a id t.transfers
      → Untouched a t (record t { transfers = modify (transfer_id_is id) f t.transfers })
        × HasKeys (record t { transfers = modify (transfer_id_is id) f t.transfers })
  own_transfer f same_owner same_id o = (
    transfers-Untouched a t _ (foreign-modify _ _ a id f t.transfers same_owner o),
    transfers-HasKeys t k _ (Unique-modify _ _ f t.transfers (λ r _. same_id r) k.transfer_keys),
  )

  own_command :
      (f : Command → Command)
      → ((r : Command) → (f r).agent_id ≡ r.agent_id)
      → ((r : Command) → (f r).id ≡ r.id)
      → OwnedBy (λ r. r.id) (λ r. r.agent_id) a id t.commands
      → Untouched a t (record t { commands = modify (command_id_is id) f t.commands })
        × HasKeys (record t { commands = modify (command_id_is id) f t.commands })
  own_command f same_owner same_id o = (
    commands-Untouched a t _ (foreign-modify _ _ a id f t.commands same_owner o),
    commands-HasKeys t k _ (Unique-modify _ _ f t.commands (λ r _. same_id r) k.command_keys),
  )

module _ (cron_valid : Text → Bool) (a : Text) (s : Server) (k : HasKeys s.store)
    (ids : HasFreshIds s) where
  -- After the touch of the agent that comes with the end of its work.
  touch_step :
      (t : Store)
      → t.jobs ≡ s.store.jobs
      → Untouched a (touch_agent a none s.now s.store) t × HasKeys t
      → Keeps a s (with_store t s)
  touch_step t same (u, keys) =
      store_step a s t ids same
        (Untouched-trans a s.store _ t (touch_agent-Untouched a none s.now s.store) u) keys

  touched_keys : HasKeys (touch_agent a none s.now s.store)
  touched_keys = touch_agent-HasKeys a none s.now s.store k

  own_step :
      (t : Store)
      → t.jobs ≡ s.store.jobs
      → Untouched a s.store t × HasKeys t
      → Keeps a s (with_store t s)
  own_step t same (u, keys) = store_step a s t ids same u keys

  run_done-Keeps : (d : RunDone) → Keeps a s (handle_agent_message cron_valid a (run_done d) s)
  unfolding handle_agent_message touch_agent finish_run
  run_done-Keeps d = elim (Bool-cases (run_belongs_to d.run_id a s)) [
    | inr b ↦ rw b (Keeps-refl a s k ids)
    | inl b ↦ rw b (
        touch_step _ refl (
          own_run d.run_id a _ touched_keys _ (λ r. refl) (λ r. refl)
            (run_belongs_to-OwnedBy d.run_id a s k b)))
  ]

  run_progress-Keeps :
      (p : RunProgress) → Keeps a s (handle_agent_message cron_valid a (run_progress p) s)
  unfolding handle_agent_message update_run_progress
  run_progress-Keeps p = elim (Bool-cases (run_belongs_to p.run_id a s)) [
    | inr b ↦ rw b (Keeps-refl a s k ids)
    | inl b ↦ rw b (
        own_step _ refl (
          own_run p.run_id a _ k _ (λ r. refl) (λ r. refl)
            (run_belongs_to-OwnedBy p.run_id a s k b)))
  ]

  transfer_done-Keeps :
      (d : TransferDone) → Keeps a s (handle_agent_message cron_valid a (transfer_done d) s)
  unfolding handle_agent_message touch_agent finish_transfer
  transfer_done-Keeps d = elim (Bool-cases (transfer_belongs_to d.transfer_id a s)) [
    | inr b ↦ rw b (Keeps-refl a s k ids)
    | inl b ↦ rw b (
        touch_step _ refl (
          own_transfer d.transfer_id a _ touched_keys _ (λ r. refl) (λ r. refl)
            (transfer_belongs_to-OwnedBy d.transfer_id a s k b)))
  ]

  transfer_progress-Keeps :
      (id : Text) (done : ℤ)
      → Keeps a s (handle_agent_message cron_valid a (transfer_progress id done) s)
  unfolding handle_agent_message update_transfer_progress
  transfer_progress-Keeps id done = elim (Bool-cases (transfer_belongs_to id a s)) [
    | inr b ↦ rw b (Keeps-refl a s k ids)
    | inl b ↦ rw b (
        own_step _ refl (
          own_transfer id a _ k _ (λ r. refl) (λ r. refl) (transfer_belongs_to-OwnedBy id a s k b)))
  ]

  command_done-Keeps :
      (d : CommandDone) → Keeps a s (handle_agent_message cron_valid a (command_done d) s)
  unfolding handle_agent_message touch_agent finish_command
  command_done-Keeps d = elim (Bool-cases (command_belongs_to d.command_id a s)) [
    | inr b ↦ rw b (Keeps-refl a s k ids)
    | inl b ↦ rw b (
        touch_step _ refl (
          own_command d.command_id a _ touched_keys _ (λ r. refl) (λ r. refl)
            (command_belongs_to-OwnedBy d.command_id a s k b)))
  ]

  -- Output lines and logs stand in tables that `Untouched` does not read.
  lines-Keeps :
      (t : Store) (b : Bool)
      → Untouched a s.store t
      → HasKeys t
      → t.jobs ≡ s.store.jobs
      → Keeps a s (if b then with_store t s else s)
  lines-Keeps t true u keys same = store_step a s t ids same u keys
  lines-Keeps t false u keys same = Keeps-refl a s k ids

  run_log-Keeps :
      (id level message : Text)
      → Keeps a s (handle_agent_message cron_valid a (run_log id level message) s)
  unfolding handle_agent_message append_run_log
  run_log-Keeps id level message =
      lines-Keeps _ (run_belongs_to id a s) (run_logs-Untouched a s.store _)
        (run_logs-HasKeys s.store _ k) refl

  command_output-Keeps :
      (id stream line : Text)
      → Keeps a s (handle_agent_message cron_valid a (command_output id stream line) s)
  unfolding handle_agent_message append_command_output
  command_output-Keeps id stream line =
      lines-Keeps _ (command_belongs_to id a s) (output-Untouched a s.store _ _)
        (output-HasKeys s.store _ _ k) refl

  same_store :
      (t : Server) → t.store ≡ s.store → t.new_id ≡ s.new_id → t.ids_used ≡ s.ids_used → Keeps a s t
  same_store t e f g = record {
    untouched = rw e (Untouched-refl a s.store);
    keys = rw e k;
    ids = record { unused = rw (e, f, g) ids.unused; distinct = rw f ids.distinct };
  }

  hello-Keeps : (h : Hello) → Keeps a s (handle_agent_message cron_valid a (hello h) s)
  unfolding handle_agent_message push_jobs touch_agent
  hello-Keeps h =
      let step = own_step (touch_agent a (some h) s.now s.store) refl (
        touch_agent-Untouched a (some h) s.now s.store,
        touch_agent-HasKeys a (some h) s.now s.store k,
      ) in
      Keeps-trans a s _ _ step (send_to-Keeps a a _ _ step.keys step.ids)

  -- A message of agent `a`, whatever it says, changes no row of another agent's jobs, runs,
  -- transfers, commands or of the agents table, and no snapshot, blob or enrollment token. It keeps
  -- the primary keys of the tables, and the ids to come unused. The keys and the unused ids are
  -- assumed of the state before.
  pub handle_agent_message-Keeps :
      (m : AgentMessage) → Keeps a s (handle_agent_message cron_valid a m s)
  unfolding handle_agent_message
  handle_agent_message-Keeps (hello h) = hello-Keeps h
  handle_agent_message-Keeps (jobs_sync js) = handle_jobs_sync-Keeps cron_valid a js s k ids
  handle_agent_message-Keeps (job_delete id) = handle_agent_job_delete-Keeps a id s k ids
  handle_agent_message-Keeps (run_progress p) = run_progress-Keeps p
  handle_agent_message-Keeps (run_log id level message) = run_log-Keeps id level message
  handle_agent_message-Keeps (run_done d) = run_done-Keeps d
  handle_agent_message-Keeps (transfer_progress id done) = transfer_progress-Keeps id done
  handle_agent_message-Keeps (transfer_done d) = transfer_done-Keeps d
  handle_agent_message-Keeps (command_output id stream line) = command_output-Keeps id stream line
  handle_agent_message-Keeps (command_done d) = command_done-Keeps d
  handle_agent_message-Keeps (docker_inventory id inv) = same_store _ refl refl refl
  handle_agent_message-Keeps (sched_inventory id inv) = same_store _ refl refl refl
  handle_agent_message-Keeps (sched_result id res) = same_store _ refl refl refl
  handle_agent_message-Keeps (dir_listing id l) = same_store _ refl refl refl
  handle_agent_message-Keeps malformed = Keeps-refl a s k ids
  handle_agent_message-Keeps unknown = Keeps-refl a s k ids

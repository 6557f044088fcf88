-- ===== src/Server/Messages.antt =====
-- internal/server/api_agent.go: enrollment, the control channel, and what a message of an agent does.
pub mod Isolation
pub mod Disconnect
pub mod Enroll
use claude_backup.Prelude.{
  Text, text_eq, ℕ, ◌*◌, is_zero, Bool, false, none, some, [], if◌then◌else◌,
}
use claude_backup.Pending.{deliver}
use claude_backup.Proto.{
  AgentMessage, hello, jobs_sync, job_delete, run_progress, run_log, run_done, transfer_progress,
  transfer_done, command_output, command_done, docker_inventory, sched_inventory, sched_result,
  dir_listing, malformed, unknown, Status, success, error, cancelled, CommandDone,
  command_cancelled,
}
use claude_backup.Hub.{register, unregister}
use claude_backup.Store.Agents.{
  AgentInfo, touch_agent, verify_agent, create_agent, delete_agent, consume_enroll_token,
}
use claude_backup.Store.Runs.{
  get_run, update_run_progress, append_run_log, finish_run, fail_running_runs,
}
use claude_backup.Store.Transfers.{
  update_transfer_progress, finish_transfer, fail_running_transfers,
}
use claude_backup.Store.Commands.{append_command_output, finish_command, fail_running_commands}
use claude_backup.Server.{
  Server, Result, ok, err, forbidden, database_error, fresh_id, use_id, with_store,
  agent_disconnected, client_disconnected,
}
use claude_backup.Server.Jobs.{
  push_jobs, handle_jobs_sync, handle_agent_job_delete, dispatch_pending_runs,
}
use claude_backup.Server.Transfers.{transfer_belongs_to, dispatch_pending_transfers}
use claude_backup.Server.Commands.{command_belongs_to}

unfoldable pub run_belongs_to : Text → Text → Server → Bool
run_belongs_to run_id agent_id s = elim (get_run run_id s.store) [
  | none ↦ false
  | some r ↦ text_eq r.agent_id agent_id
]

-- The status of a command that is done.
unfoldable pub command_status : CommandDone → Status
command_status d =
    if text_eq d.error command_cancelled
    then cancelled
    else if text_eq d.error []
    then (if is_zero d.exit_code then success else error)
    else error

module _ (cron_valid : Text → Bool) where
  -- Every error is only logged. What `hello` starts in a goroutine is `dispatch_pending_work`, a
  -- step of its own.
  unfoldable pub handle_agent_message : Text → AgentMessage → Server → Server
  handle_agent_message a (hello h) s =
      push_jobs a (with_store (touch_agent a (some h) s.now s.store) s)
  handle_agent_message a (jobs_sync jobs) s = handle_jobs_sync cron_valid a jobs s
  handle_agent_message a (job_delete id) s = handle_agent_job_delete a id s
  handle_agent_message a (run_progress p) s =
      if run_belongs_to p.run_id a s
      then with_store (update_run_progress p.run_id p s.store) s
      else s
  handle_agent_message a (run_log id level message) s =
      if run_belongs_to id a s
      then with_store (append_run_log id level message (s.now * 1000) s.store) s
      else s
  handle_agent_message a (run_done d) s =
      if run_belongs_to d.run_id a s
      then with_store
          (finish_run d.run_id d.status d.snapshot_id d.error d.stats s.now
            (touch_agent a none s.now s.store))
          s
      else s
  handle_agent_message a (transfer_progress id done) s =
      if transfer_belongs_to id a s
      then with_store (update_transfer_progress id done s.store) s
      else s
  handle_agent_message a (transfer_done d) s =
      if transfer_belongs_to d.transfer_id a s
      then with_store
          (finish_transfer d.transfer_id d.status d.path d.error s.now
            (touch_agent a none s.now s.store))
          s
      else s
  handle_agent_message a (command_output id stream line) s =
      if command_belongs_to id a s
      then with_store (append_command_output id stream line s.store) s
      else s
  handle_agent_message a (command_done d) s =
      if command_belongs_to d.command_id a s
      then with_store
          (finish_command d.command_id (command_status d) d.exit_code d.error s.now
            (touch_agent a none s.now s.store))
          s
      else s
  handle_agent_message a (docker_inventory id inv) s = record s { docker = deliver id inv s.docker }
  handle_agent_message a (sched_inventory id inv) s = record s {
    sched_inventories = deliver id inv s.sched_inventories;
  }
  handle_agent_message a (sched_result id res) s = record s {
    sched_results = deliver id res s.sched_results;
  }
  handle_agent_message a (dir_listing id l) s = record s { browse = deliver id l s.browse }
  handle_agent_message a malformed s = s
  handle_agent_message a unknown s = s

unfoldable pub dispatch_pending_work : Text → Server → Server
dispatch_pending_work agent_id s =
    dispatch_pending_runs agent_id (dispatch_pending_transfers agent_id s)

-- What follows the read loop of a connection, when it ends.
unfoldable pub disconnect : Text → ℕ → Server → Server
disconnect agent_id number s =
    let t1 = fail_running_runs agent_id agent_disconnected s.now s.store in
    let t2 = fail_running_transfers agent_id client_disconnected s.now t1 in
    let t3 = fail_running_commands agent_id client_disconnected s.now t2 in
    record s { hub = unregister agent_id number s.hub; store = t3 }

module _ (sha256_hex : Text → Text) where
  -- The number of the connection, or a refusal.
  unfoldable pub connect : Text → Text → Server → Result ℕ × Server
  connect agent_id key s =
      if text_eq agent_id []
      then (err forbidden, s)
      else if verify_agent sha256_hex agent_id key s.store
      then (let (number, h) = register agent_id s.hub in (ok number, record s { hub = h }))
      else (err forbidden, s)

  -- The agent is created first, and deleted again where the token is not usable. `secret` is what
  -- `NewSecret` returned.
  unfoldable pub handle_enroll : Text → Text → AgentInfo → Server → Result (Text × Text) × Server
  handle_enroll token secret req s =
      let id = fresh_id s in
      elim (create_agent sha256_hex id secret req s.now s.store) [
        | none ↦ (err database_error, use_id s)
        | some t ↦ elim (consume_enroll_token sha256_hex token id s.now t) [
          | none ↦ (err forbidden, use_id (with_store (delete_agent id t) s))
          | some t' ↦ (ok (id, secret), use_id (with_store t' s))
        ]
      ]

-- ===== src/Tests/Runs.antt =====
-- The theorems on runs and on the hub, at small states.
use claude_backup.Prelude.{codes, text_eq, ◌≡◌, ◌≤◌, refl, true, false, some, [], ◌∷◌, arith}
use claude_backup.Sql.{select, first}
use claude_backup.Proto.{running, queued, cancel_run}
use claude_backup.Store.{Run}
use claude_backup.Store.Jobs.{get_job}
use claude_backup.Store.Runs.{get_run, is_queued_for, is_running_for, create_run, set_failed}
use claude_backup.Store.Transfers.{transfer_queued_for}
use claude_backup.Hub.{send, online}
use claude_backup.Hub.Laws.{Queued, send-Queued}
use claude_backup.Server.{Server, agent_disconnected}
use claude_backup.Server.Jobs.{start_backup, scheduled_mode, mode_or, dispatch_run, create_and_send}
use claude_backup.Server.Jobs.Backups.{waiting, waiting-start_backup}
use claude_backup.Server.Jobs.Dispatch.{
  Settled, command_of, start_backup-Settled, dispatch_run-Settled,
}
use claude_backup.Server.Messages.{disconnect}
use claude_backup.Server.Messages.Disconnect.{Idle, disconnect-Idle, disconnect_replaced}
use claude_backup.Store.Owned.{Untouched}
use claude_backup.Prelude.{pos}
use claude_backup.Proto.{pull}
use claude_backup.Store.{Transfer}
use claude_backup.Store.Transfers.{get_transfer}
use claude_backup.Server.Transfers.{dispatch_queued_transfer}
use claude_backup.Server.Transfers.Dispatch
use claude_backup.Server.Transfers.Dispatch.{dispatch_queued_transfer-Settled}
use claude_backup.Prelude.{◌⊎◌, false}
use claude_backup.Store.{JobRow}
use claude_backup.Server.Jobs.{catch_up}
use claude_backup.Server.Jobs.CatchUp.{catch_up_offline}
use claude_backup.Prelude.{none}
use claude_backup.Server.Jobs.{cancel_run_by_id}
use claude_backup.Server.Jobs.Cancel.{Cancelled, cancel_run_by_id-Cancelled}
use claude_backup.Pending.{request_is, begin, end, deliver}
use claude_backup.Pending.Laws.{deliver-begin}
use claude_backup.Tests.{alice, documents, run_of, conn_of_alice, server_of, store_of}

abbrev waiting_run : Run
waiting_run = run_of (codes "r1") alice queued

abbrev running_run : Run
running_run = run_of (codes "r2") alice running

abbrev connected : Server
connected = server_of (store_of (waiting_run ∷ running_run ∷ [])) (conn_of_alice ∷ []) []

abbrev offline : Server
offline = server_of (store_of (waiting_run ∷ [])) [] []

waiting-start_backup_example :
    waiting alice (codes "j1") (start_backup documents [] true offline).1.store ≤ 1
unfolding select text_eq is_queued_for
waiting-start_backup_example =
    waiting-start_backup alice (codes "j1") documents [] true offline (omega arith)

start_backup-Settled_example :
    Settled
      (0 ∷ 0 ∷ [])
      alice
      (command_of
        (0 ∷ 0 ∷ [])
        documents.job
        (mode_or [] (scheduled_mode documents connected))
        connected)
      connected.hub
      (start_backup documents [] true connected).1
unfolding online first text_eq start_backup create_and_send create_run
start_backup-Settled_example =
    start_backup-Settled documents [] true connected (0 ∷ 0 ∷ []) refl refl refl

dispatch_run-Settled_example :
    Settled
      (codes "r1")
      alice
      (command_of (codes "r1") documents.job (codes "full") connected)
      connected.hub
      (dispatch_run waiting_run connected)
unfolding get_run get_job first text_eq
dispatch_run-Settled_example = dispatch_run-Settled waiting_run documents connected refl refl

disconnect-Idle_example :
    Idle alice (disconnect alice 5 connected).store
    × Untouched alice connected.store (disconnect alice 5 connected).store
    × (select (is_queued_for alice) (disconnect alice 5 connected).store.runs
        ≡ select (is_queued_for alice) connected.store.runs)
    × (select (transfer_queued_for alice) (disconnect alice 5 connected).store.transfers
        ≡ select (transfer_queued_for alice) connected.store.transfers)
disconnect-Idle_example = disconnect-Idle alice 5 connected

-- The connection 5 has replaced the connection 4, whose read loop ends now.
disconnect_replaced_example :
    ((disconnect alice 4 connected).hub ≡ connected.hub)
    × (online alice (disconnect alice 4 connected).hub ≡ true)
    × (get_run (codes "r2") (disconnect alice 4 connected).store
        ≡ some (set_failed agent_disconnected 100 running_run))
unfolding get_run first text_eq is_running_for
disconnect_replaced_example =
    disconnect_replaced alice (codes "r2") 4 connected conn_of_alice running_run refl (omega arith)
      refl refl

send-Queued_example :
    let (sent, h') = send alice (cancel_run (codes "r2")) connected.hub in
    ((sent ≡ true) × Queued alice (cancel_run (codes "r2")) h')
    ⊎ ((sent ≡ false) × (h'.conns ≡ connected.hub.conns))
send-Queued_example = send-Queued alice (cancel_run (codes "r2")) connected.hub

abbrev waiting_transfer : Transfer
waiting_transfer = record {
  id = codes "t1";
  agent_id = alice;
  direction = pull;
  filename = codes "a";
  dest_path = [];
  source_path = codes "/home/a";
  size = 0;
  hash = [];
  object_key = codes "transfers/t1.zst";
  mode = 0;
  overwrite = false;
  status = queued;
  error = [];
  written_path = [];
  bytes_done = pos 0;
  created_at = 3;
  started_at = 0;
  finished_at = 0;
}

abbrev transferring : Server
transferring =
    server_of (record (store_of []) { transfers = waiting_transfer ∷ [] }) (conn_of_alice ∷ []) []

dispatch_queued_transfer-Settled_example :
    Dispatch.Settled waiting_transfer transferring.hub
      (dispatch_queued_transfer waiting_transfer transferring)
unfolding get_transfer first text_eq
dispatch_queued_transfer-Settled_example =
    dispatch_queued_transfer-Settled waiting_transfer transferring refl

abbrev pending : JobRow
pending = record documents { catchup_pending = true }

catch_up_offline_example :
    ((catch_up pending offline).store.runs ≡ offline.store.runs)
    × (get_job (codes "j1") (catch_up pending offline).store
        ≡ some (record documents { catchup_pending = false }))
unfolding get_job online first text_eq
catch_up_offline_example = catch_up_offline pending documents offline refl refl refl refl

cancel_run_by_id-Cancelled_example :
    Cancelled waiting_run connected
      (cancel_run_by_id (codes "r1") connected).0
      (cancel_run_by_id (codes "r1") connected).1
unfolding get_run first text_eq
cancel_run_by_id-Cancelled_example = cancel_run_by_id-Cancelled waiting_run connected refl

deliver-begin_example :
    let waiting =
      deliver
        (codes "q1")
        (codes "late")
        (deliver (codes "q1") (codes "answer") (begin (codes "q1") [])) in
    (first (request_is (codes "q1")) waiting
      ≡ some (record { request_id = codes "q1"; slot = some (codes "answer") }))
    × (first
          (request_is (codes "q1"))
          (deliver (codes "q1") (codes "late") (end (codes "q1") waiting))
        ≡ none)
deliver-begin_example = deliver-begin (codes "q1") (codes "answer") (codes "late") []

-- ===== src/Server/Transfers/Dispatch.antt =====
-- internal/server/transfers.go: what the dispatch of a transfer leaves.
use claude_backup.Prelude.{
  Text, text_eq_refl, [], ℕ, pos, ◌≡◌, refl, some, arith, Bool-cases, inl, inr, if◌then◌else◌,
}
use claude_backup.Sql.Keys.{first-modify}
use claude_backup.Proto.{running, error, ServerMessage, pull_file, push_file}
use claude_backup.Store.{Store, Transfer}
use claude_backup.Store.Transfers.{
  get_transfer, finish_transfer, set_transfer_finished, mark_transfer_started,
}
use claude_backup.Hub.{Hub, send}
use claude_backup.Hub.Laws.{Delivery, delivered, undelivered, sent-Queued, lost-conns}
use claude_backup.Server.{Server, with_store, send_to, client_not_reached}
use claude_backup.Server.Transfers.{is_pull, dispatch_transfer, dispatch_queued_transfer}

-- The command of a transfer.
abbrev pub command_of : Transfer → ServerMessage
command_of t =
    if is_pull t.direction
    then pull_file t.id t.source_path
    else push_file t.id t.dest_path t.filename t.hash (pos t.size) (pos t.mode) t.overwrite

-- The transfer is running, and its command was sent and is the last in the agent's queue; or it
-- failed as the client was not reached, and the command was not sent and is in no queue.
pub record Settled (t : Transfer) (before : Hub) (s : Server) : Type 0 where
  pub row : Transfer
  pub found : get_transfer t.id s.store ≡ some row
  pub outcome :
      Delivery t.agent_id
        (command_of t)
        before
        s.hub
        (row.status ≡ running)
        ((row.status ≡ error) × (row.error ≡ client_not_reached))

get_transfer-finish_transfer :
    (id message : Text) (now : ℕ) (t : Store) {r : Transfer}
    → get_transfer id t ≡ some r
    → get_transfer id (finish_transfer id error [] message now t)
      ≡ some (set_transfer_finished error [] message now r)
unfolding get_transfer finish_transfer
get_transfer-finish_transfer id message now t {r} e = ground (
  arith,
  text_eq_refl id,
  first-modify (λ x. x.id) id id (set_transfer_finished error [] message now) t.transfers
      (λ x m. refl),
)

dispatch_transfer-Settled :
    (t : Transfer) (s : Server) {r : Transfer}
    → get_transfer t.id s.store ≡ some r
    → r.status ≡ running
    → Settled t s.hub (dispatch_transfer t s)
unfolding dispatch_transfer send_to
dispatch_transfer-Settled t s {r} e st =
    elim (Bool-cases (send t.agent_id (command_of t) s.hub).0) [
      | inl sent ↦
          rw (sent, dispatch_transfer)
            (record {
              row = r;
              found = e;
              outcome = delivered st sent (sent-Queued t.agent_id (command_of t) s.hub sent);
            })
      | inr lost ↦
          rw (lost, dispatch_transfer)
            (record {
              row = set_transfer_finished error [] client_not_reached s.now r;
              found = get_transfer-finish_transfer t.id client_not_reached s.now s.store e;
              outcome =
                  undelivered (refl, refl) lost (lost-conns t.agent_id (command_of t) s.hub lost);
            })
    ]

-- A queued transfer that is dispatched is left running exactly where its command was sent, which then
-- is the last in the queue of the client's connection; else it has failed as the client was not
-- reached, and every queue is as it was.
pub dispatch_queued_transfer-Settled :
    (t : Transfer) (s : Server)
    → get_transfer t.id s.store ≡ some t
    → Settled t s.hub (dispatch_queued_transfer t s)
unfolding dispatch_queued_transfer mark_transfer_started get_transfer
dispatch_queued_transfer-Settled t s e =
    dispatch_transfer-Settled t (with_store (mark_transfer_started t.id s.now s.store) s)
      {r = record t { status = running; started_at = s.now }}
      (ground (
        arith,
        text_eq_refl t.id,
        first-modify (λ x. x.id) t.id t.id (λ x. record x { status = running; started_at = s.now })
            s.store.transfers (λ x m. refl),
      ))
      refl

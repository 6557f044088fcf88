-- ===== src/Store/Transfers.antt =====
-- internal/server/store/transfers.go: files pushed to a client and pulled from one. `now` is the
-- clock at the call.
use claude_backup.Prelude.{
  Text, text_eq, ℤ, pos, ℕ, Bool, ◌&&◌, not, Option, none, some, List, [], ◌∷◌, ◌++◌, map, reverse,
  take,
}
use claude_backup.Sql.{select, first, modify, delete, given}
use claude_backup.Sql.Keys.{by}
use claude_backup.Sql.Order.{order_by}
use claude_backup.Proto.{Status, running, error, Direction, unset, push, pull}
use claude_backup.Store.{Store, Transfer}
use claude_backup.Store.Runs.{is_queued, is_running, start_time}

abbrev pub transfer_id_is : Text → Transfer → Bool
transfer_id_is = by (λ t. t.id)

abbrev pub direction_or_push : Direction → Direction
direction_or_push unset = push
direction_or_push push = push
direction_or_push pull = pull

-- The row that the INSERT makes of the caller's record: the columns that it does not name take
-- their defaults.
abbrev pub new_transfer : Transfer → ℕ → Transfer
new_transfer t now = record t {
  direction = direction_or_push t.direction;
  error = [];
  written_path = [];
  bytes_done = pos 0;
  created_at = now;
  started_at = start_time t.status now;
  finished_at = 0;
}

unfoldable pub create_transfer : Transfer → ℕ → Store → Option Store
create_transfer t now s = elim (first (transfer_id_is t.id) s.transfers) [
  | none ↦ some (record s { transfers = s.transfers ++ new_transfer t now ∷ [] })
  | some _ ↦ none
]

unfoldable pub set_transfer_payload : Text → Text → ℕ → Store → Store
set_transfer_payload id hash size s = record s {
  transfers = modify (transfer_id_is id) (λ t. record t { hash = hash; size = size }) s.transfers;
}

unfoldable pub get_transfer : Text → Store → Option Transfer
get_transfer id s = first (transfer_id_is id) s.transfers

unfoldable pub list_transfers : Text → ℕ → Store → List Transfer
list_transfers agent_id limit s =
    take limit
      (reverse (order_by (λ t. t.created_at) (select (λ t. given agent_id t.agent_id) s.transfers)))

unfoldable pub transfer_queued_for : Text → Transfer → Bool
transfer_queued_for agent_id t = text_eq t.agent_id agent_id && is_queued t.status

unfoldable pub queued_transfers : Text → Store → List Transfer
queued_transfers agent_id s =
    order_by (λ t. t.created_at) (select (transfer_queued_for agent_id) s.transfers)

unfoldable pub mark_transfer_started : Text → ℕ → Store → Store
mark_transfer_started id now s = record s {
  transfers =
      modify (transfer_id_is id) (λ t. record t { status = running; started_at = now }) s.transfers;
}

unfoldable pub update_transfer_progress : Text → ℤ → Store → Store
update_transfer_progress id done s = record s {
  transfers = modify (transfer_id_is id) (λ t. record t { bytes_done = done }) s.transfers;
}

abbrev pub set_transfer_finished : Status → Text → Text → ℕ → Transfer → Transfer
set_transfer_finished status written message now t = record t {
  status = status;
  written_path = written;
  error = message;
  finished_at = now;
}

unfoldable pub finish_transfer : Text → Status → Text → Text → ℕ → Store → Store
finish_transfer id status written message now s = record s {
  transfers =
      modify (transfer_id_is id) (set_transfer_finished status written message now) s.transfers;
}

unfoldable pub transfer_running_for : Text → Transfer → Bool
transfer_running_for agent_id t = text_eq t.agent_id agent_id && is_running t.status

unfoldable pub fail_running_transfers : Text → Text → ℕ → Store → Store
fail_running_transfers agent_id reason now s = record s {
  transfers =
      modify (transfer_running_for agent_id)
        (λ t. record t { status = error; error = reason; finished_at = now }) s.transfers;
}

-- With the storage key of the payload; `none` is `ErrNotFound`.
unfoldable pub delete_transfer : Text → Store → Option (Text × Store)
unfolding get_transfer
delete_transfer id s = elim (get_transfer id s) [
  | none ↦ none
  | some t ↦ some (t.object_key, record s { transfers = delete (transfer_id_is id) s.transfers })
]

unfoldable pub transfer_keys_for_agent : Text → Store → List Text
transfer_keys_for_agent agent_id s =
    map (λ t. t.object_key)
      (select (λ t. text_eq t.agent_id agent_id && not (text_eq t.object_key [])) s.transfers)

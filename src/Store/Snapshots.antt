-- ===== src/Store/Snapshots.antt =====
-- internal/server/store/store.go: snapshots. `now` is the clock at the call.
use mathlib.Core.List.{head?}
use claude_backup.Prelude.{
  Text, text_eq, ℕ, Bool, ◌&&◌, Option, none, some, List, [], ◌∷◌, ◌++◌, reverse,
}
use claude_backup.Sql.{select, first, delete, given}
use claude_backup.Sql.Keys.{by}
use claude_backup.Sql.Order.{order_by}
use claude_backup.Store.{Store, Snapshot}

abbrev pub snapshot_id_is : Text → Snapshot → Bool
snapshot_id_is = by (λ sn. sn.id)

unfoldable pub create_snapshot : Snapshot → ℕ → Store → Option Store
create_snapshot sn now s = elim (first (snapshot_id_is sn.id) s.snapshots) [
  | none ↦ some (record s { snapshots = s.snapshots ++ record sn { created_at = now } ∷ [] })
  | some _ ↦ none
]

unfoldable pub get_snapshot : Text → Store → Option Snapshot
get_snapshot id s = first (snapshot_id_is id) s.snapshots

unfoldable pub is_listed : Text → Text → Text → Snapshot → Bool
is_listed backend agent_id job_id sn =
    given backend sn.backend && given agent_id sn.agent_id && given job_id sn.job_id

-- ORDER BY created_at DESC, rowid DESC. An empty argument stands for no condition.
unfoldable pub list_snapshots : Text → Text → Text → Store → List Snapshot
list_snapshots backend agent_id job_id s =
    reverse
      (order_by (λ sn. sn.created_at) (select (is_listed backend agent_id job_id) s.snapshots))

-- `none` is `ErrNotFound`.
unfoldable pub latest_snapshot : Text → Text → Store → Option Snapshot
latest_snapshot backend job_id s = head? (
    reverse (
      order_by (λ sn. sn.created_at)
        (select (λ sn. text_eq sn.backend backend && text_eq sn.job_id job_id) s.snapshots)))

unfoldable pub delete_snapshot_row : Text → Store → Store
delete_snapshot_row id s = record s { snapshots = delete (snapshot_id_is id) s.snapshots }

-- ===== src/Server.antt =====
-- internal/server: the state that the handlers share, and their results. The children have the
-- handlers, a module for each source file.
pub mod Jobs
pub mod Transfers
pub mod Commands
pub mod Messages
pub mod Snapshots
pub mod Gc
pub mod Sched
pub mod Admin
use claude_backup.Prelude.{Text, codes, ℕ, suc, Bool, List, ◌≡◌, refl, ◌⊎◌, inl, inr}
use claude_backup.Proto.{ServerMessage}
use claude_backup.Store.{Store}
use claude_backup.Hub.{Hub, send, online}
use claude_backup.Storage.{Objects}
use claude_backup.Pending.{Waiter}

-- `now` is the clock, which stands still during one handler. `new_id n` is the n-th value that
-- `NewID` returns in the life of the server, and `ids_used` counts them.
pub record Server : Type 0 where
  pub store : Store
  pub hub : Hub
  pub objects : Objects
  pub backend_key : Text
  pub docker : List Waiter
  pub sched_inventories : List Waiter
  pub sched_results : List Waiter
  pub browse : List Waiter
  pub now : ℕ
  pub new_id : ℕ → Text
  pub ids_used : ℕ

-- The errors that a handler returns or answers with.
pub data ServerError : Type 0 where
  job_disabled agent_offline not_in_progress not_found : ServerError
  database_error storage_error dispatch_error : ServerError
  forbidden unauthorized bad_request conflict corrupt_manifest : ServerError

pub data Result {ℓ} (A : Type ℓ) : Type ℓ where
  ok : A → Result A
  err : ServerError → Result A

-- Of a call that has no result but its error.
pub Result-cases : (r : Result (Unit {0})) → ((e : ServerError) × (r ≡ err e)) ⊎ (r ≡ ok tt)
Result-cases (ok _) = inr refl
Result-cases (err e) = inl (e, refl)

-- Of any call.
pub Answer-cases :
    {A : Type 0} (r : Result A) → ((e : ServerError) × (r ≡ err e)) ⊎ ((a : A) × (r ≡ ok a))
Answer-cases (ok a) = inr (a, refl)
Answer-cases (err e) = inl (e, refl)

abbrev pub fresh_id : Server → Text
fresh_id s = s.new_id s.ids_used

abbrev pub use_id : Server → Server
use_id s = record s { ids_used = suc s.ids_used }

abbrev pub with_store : Store → Server → Server
with_store t s = record s { store = t }

abbrev pub is_online : Text → Server → Bool
is_online agent_id s = online agent_id s.hub

-- `s.hub.Send`
unfoldable pub send_to : Text → ServerMessage → Server → Bool × Server
send_to agent_id m s = let (sent, h) = send agent_id m s.hub in (sent, record s { hub = h })

abbrev pub run_not_dispatched : Text
run_not_dispatched = codes "failed to dispatch to agent"

abbrev pub client_not_reached : Text
client_not_reached = codes "failed to dispatch to client"

abbrev pub cancelled_early : Text
cancelled_early = codes "cancelled before it started"

abbrev pub job_gone : Text
job_gone = codes "job no longer exists"

abbrev pub agent_disconnected : Text
agent_disconnected = codes "agent disconnected"

abbrev pub client_disconnected : Text
client_disconnected = codes "client disconnected"

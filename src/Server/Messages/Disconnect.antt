-- ===== src/Server/Messages/Disconnect.antt =====
-- internal/server/api_agent.go: what the end of a connection leaves of the agent's work.
use claude_backup.Prelude.{
  Text, ℕ, ==_iff, ◌≡◌, ◌≢◌, refl, Bool, true, false, some, List, [], ◌∷◌, arith,
}
use claude_backup.Sql.{select, first, modify}
use claude_backup.Store.{Store, Run}
use claude_backup.Store.Runs.{
  is_queued_for, is_running_for, fail_running_runs, get_run, run_id_is, set_failed,
}
use claude_backup.Store.Transfers.{
  transfer_queued_for, transfer_running_for, fail_running_transfers,
}
use claude_backup.Store.Commands.{command_running_for, fail_running_commands}
use claude_backup.Store.Owned.{Untouched}
use claude_backup.Hub.{Conn, conn_of, unregister, online}
use claude_backup.Server.{Server, agent_disconnected}
use claude_backup.Server.Messages.{disconnect}

module _ {ℓ} {A : Type ℓ} where
  -- No row that a change is for is left, where the change makes no such row.
  select-modify_all :
      (p : A → Bool) (f : A → A) (rows : List A)
      → ((r : A) → p (f r) ≡ false)
      → select p (modify p f rows) ≡ []
  unfolding select modify
  select-modify_all p f [] h = refl
  select-modify_all p f (x ∷ xs) h = ground (arith, h x, select-modify_all p f xs h)

  select-modify_disjoint :
      (q p : A → Bool) (f : A → A) (rows : List A)
      → ((r : A) → p r ≡ true → (q r ≡ false) × (q (f r) ≡ false))
      → select q (modify p f rows) ≡ select q rows
  unfolding select modify
  select-modify_disjoint q p f [] h = refl
  select-modify_disjoint q p f (x ∷ xs) h = ground (arith, h x, select-modify_disjoint q p f xs h)

-- Nothing of the agent's is in flight.
pub record Idle (agent_id : Text) (t : Store) : Type 0 where
  pub runs : select (is_running_for agent_id) t.runs ≡ []
  pub transfers : select (transfer_running_for agent_id) t.transfers ≡ []
  pub commands : select (command_running_for agent_id) t.commands ≡ []

-- The end of a connection leaves nothing of the agent in flight. It keeps what is queued for the
-- agent, and every row of the other agents.
pub disconnect-Idle :
    (agent_id : Text) (number : ℕ) (s : Server)
    → let t = (disconnect agent_id number s).store in
      Idle agent_id t
      × Untouched agent_id s.store t
      × (select (is_queued_for agent_id) t.runs ≡ select (is_queued_for agent_id) s.store.runs)
      × (select (transfer_queued_for agent_id) t.transfers
          ≡ select (transfer_queued_for agent_id) s.store.transfers)
unfolding disconnect fail_running_runs fail_running_transfers fail_running_commands is_queued_for
    is_running_for transfer_queued_for transfer_running_for command_running_for
disconnect-Idle agent_id number s = (
  record {
    runs = select-modify_all _ _ s.store.runs (λ r. ground arith);
    transfers = select-modify_all _ _ s.store.transfers (λ r. ground arith);
    commands = select-modify_all _ _ s.store.commands (λ r. ground arith);
  },
  record {
    agents = refl;
    jobs = refl;
    runs = select-modify_disjoint _ _ _ s.store.runs (λ r e. ground arith);
    transfers = select-modify_disjoint _ _ _ s.store.transfers (λ r e. ground arith);
    commands = select-modify_disjoint _ _ _ s.store.commands (λ r e. ground arith);
    snapshots = refl;
    blobs = refl;
    tokens = refl;
  },
  select-modify_disjoint _ _ _ s.store.runs (λ r e. ground arith),
  select-modify_disjoint _ _ _ s.store.transfers (λ r e. ground arith),
)

-- The run with an id after a change of some runs that keeps their ids.
first-modify_by :
    (id : Text) (p : Run → Bool) (f : Run → Run) (rows : List Run) {r : Run}
    → ((x : Run) → (f x).id ≡ x.id)
    → first (run_id_is id) rows ≡ some r
    → p r ≡ true
    → first (run_id_is id) (modify p f rows) ≡ some (f r)
unfolding first modify
first-modify_by id p f [] same h m = ground arith
first-modify_by id p f (x ∷ xs) {r} same h m =
    ground (arith, same x, first-modify_by id p f xs {r = r} same)

-- The end of a connection that another one has replaced leaves the agent online, but fails every
-- run that the agent has in flight, on the new connection too.
pub disconnect_replaced :
    (agent_id id : Text) (number : ℕ) (s : Server) (c : Conn) (r : Run)
    → first (conn_of agent_id) s.hub.conns ≡ some c
    → c.number ≢ number
    → get_run id s.store ≡ some r
    → is_running_for agent_id r ≡ true
    → let s' = disconnect agent_id number s in
      (s'.hub ≡ s.hub)
      × (online agent_id s'.hub ≡ true)
      × (get_run id s'.store ≡ some (set_failed agent_disconnected s.now r))
unfolding disconnect unregister online get_run fail_running_runs fail_running_transfers
    fail_running_commands
disconnect_replaced agent_id id number s c r found other row running_row =
    rw (found, unregister)
      (
        ground (arith, ==_iff c.number number),
        ground (arith, ==_iff c.number number),
        first-modify_by id (is_running_for agent_id) (set_failed agent_disconnected s.now)
            s.store.runs {r = r} (λ x. refl) row running_row,
      )

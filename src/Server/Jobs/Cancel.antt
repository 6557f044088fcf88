-- ===== src/Server/Jobs/Cancel.antt =====
-- internal/server/jobs.go: the cancellation of a run, by its status.
use claude_backup.Prelude.{
  text_eq_refl, ◌≡◌, ◌≢◌, refl, false, some, [], arith, Bool-cases, inl, inr,
}
use claude_backup.Sql.Keys.{first-modify}
use claude_backup.Proto.{
  Status, queued, running, success, partial, error, cancelled, other, no_stats, cancel_run,
}
use claude_backup.Store.{Run}
use claude_backup.Store.Runs.{get_run, finish_run, set_finished}
use claude_backup.Hub.{send}
use claude_backup.Hub.Laws.{Queued, sent-Queued, lost-conns}
use claude_backup.Server.{
  Server, Result, ok, err, agent_offline, not_in_progress, send_to, cancelled_early,
}
use claude_backup.Server.Jobs.{cancel_by_status, cancel_run_by_id}

-- What a cancellation does to a run: a queued one is marked cancelled and nobody is told; a running
-- one is left to its agent, which is told or cannot be reached; a run that is neither is left as it
-- is.
pub data Cancelled (run : Run) (s : Server) (r : Result (Unit {0})) (t : Server) : Type 0 where
  marked :
      run.status ≡ queued
      → r ≡ ok tt
      → get_run run.id t.store ≡ some (set_finished cancelled [] cancelled_early no_stats s.now run)
      → t.hub ≡ s.hub
      → Cancelled run s r t
  told :
      run.status ≡ running
      → r ≡ ok tt
      → t.store ≡ s.store
      → Queued run.agent_id (cancel_run run.id) t.hub
      → Cancelled run s r t
  unreachable :
      run.status ≡ running
      → r ≡ err agent_offline
      → t.store ≡ s.store
      → (send run.agent_id (cancel_run run.id) s.hub).0 ≡ false
      → t.hub.conns ≡ s.hub.conns
      → Cancelled run s r t
  over :
      run.status ≢ queued
      → run.status ≢ running
      → r ≡ err not_in_progress
      → t ≡ s
      → Cancelled run s r t

cancel_by_status-Cancelled :
    (run : Run) (st : Status) (s : Server)
    → get_run run.id s.store ≡ some run
    → run.status ≡ st
    → Cancelled run s (cancel_by_status run st s).0 (cancel_by_status run st s).1
unfolding get_run finish_run send_to
cancel_by_status-Cancelled run queued s e h =
    marked h refl
      (ground (
        arith,
        text_eq_refl run.id,
        first-modify (λ x. x.id) run.id run.id
            (set_finished cancelled [] cancelled_early no_stats s.now) s.store.runs (λ x m. refl),
      ))
      refl
cancel_by_status-Cancelled run running s e h =
    elim (Bool-cases (send run.agent_id (cancel_run run.id) s.hub).0) [
      | inl t ↦ rw t (told h refl refl (sent-Queued run.agent_id (cancel_run run.id) s.hub t))
      | inr f ↦
          rw f (unreachable h refl refl f (lost-conns run.agent_id (cancel_run run.id) s.hub f))
    ]
cancel_by_status-Cancelled run success s e h = over (λ q. cc (h, q)) (λ q. cc (h, q)) refl refl
cancel_by_status-Cancelled run partial s e h = over (λ q. cc (h, q)) (λ q. cc (h, q)) refl refl
cancel_by_status-Cancelled run error s e h = over (λ q. cc (h, q)) (λ q. cc (h, q)) refl refl
cancel_by_status-Cancelled run cancelled s e h = over (λ q. cc (h, q)) (λ q. cc (h, q)) refl refl
cancel_by_status-Cancelled run (other x) s e h = over (λ q. cc (h, q)) (λ q. cc (h, q)) refl refl

-- The cancellation of a run that is in the store: a queued run is marked as cancelled and nobody is
-- told; a running one is left as it is, and its agent is told, or the message cannot be sent and every
-- queue is as it was; a run that is neither queued nor running is refused and nothing changes.
pub cancel_run_by_id-Cancelled :
    (run : Run) (s : Server)
    → get_run run.id s.store ≡ some run
    → Cancelled run s (cancel_run_by_id run.id s).0 (cancel_run_by_id run.id s).1
unfolding cancel_run_by_id
cancel_run_by_id-Cancelled run s e =
    rw (e, cancel_run_by_id) (cancel_by_status-Cancelled run run.status s e refl)

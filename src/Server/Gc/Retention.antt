-- ===== src/Server/Gc/Retention.antt =====
-- internal/server/gc.go: the retention policy of a job.
use native.Mathlib.Nat.{zero-add}
use claude_backup.Prelude.{
  ℕ, ℤ, pos, ltz, is_pos, ◌⊎◌, ◌≡◌, Bool, not, ◌&&◌, true, false, none, some, List, [], get_elem?,
  arith, Bool-cases, inl, inr,
}
use claude_backup.Sql.Keys.{Unique}
use claude_backup.Sql.Sorted.{Unique-select, Unique-order_by, Unique-reverse}
use claude_backup.Proto.{Job}
use claude_backup.Store.{Snapshot}
use claude_backup.Store.Snapshots.{get_snapshot, list_snapshots}
use claude_backup.Server.{Server, ok}
use claude_backup.Server.Gc.{is_kept, prune_job}
use claude_backup.Server.Gc.Pruning.{
  WellKeyed, SnapshotKept, SnapshotKept-refl, prune_kept, prune_pruned,
}

-- The policy as the documentation has it: the newest snapshot, the `keep_last` newest, and all that
-- are not older than `keep_days`.
abbrev pub InPolicy : Job → ℤ → ℕ → Snapshot → Type 0
InPolicy job cutoff n sn =
    (n ≡ 0)
    ⊎ (ltz (pos n) job.keep_last ≡ true)
    ⊎ (ltz (pos 0) job.keep_days ≡ true) × (ltz (pos sn.created_at) cutoff ≡ false)

abbrev has_no_policy : Job → Bool
has_no_policy job = not (is_pos job.keep_last) && not (is_pos job.keep_days)

InPolicy-is_kept :
    (job : Job) (cutoff : ℤ) (n : ℕ) (sn : Snapshot)
    → InPolicy job cutoff n sn
    → is_kept job cutoff n sn ≡ true
unfolding is_kept
InPolicy-is_kept job cutoff n sn p = ground arith

is_kept-InPolicy :
    (job : Job) (cutoff : ℤ) (n : ℕ) (sn : Snapshot)
    → is_kept job cutoff n sn ≡ true
    → InPolicy job cutoff n sn
unfolding is_kept
is_kept-InPolicy job cutoff n sn p = ground arith

module _ (days_back : ℕ → ℤ → ℤ) (job : Job) (s : Server) where
  -- The snapshots of the job in the active backend, the newest first.
  abbrev pub history : List Snapshot
  history = list_snapshots s.backend_key [] job.id s.store

  abbrev pub cutoff_of : ℤ
  cutoff_of = days_back s.now job.keep_days

  history-Unique : Unique (λ r. r.id) s.store.snapshots → Unique (λ r. r.id) history
  unfolding list_snapshots
  history-Unique u =
      Unique-reverse _ _ (Unique-order_by _ _ _ (Unique-select _ _ s.store.snapshots u))

  -- Retention keeps the row and the manifest of every snapshot of the job that is in the policy: the
  -- newest, the `keep_last` newest, and those not older than `keep_days`. This holds also where it
  -- fails midway. It is assumed that ids are unique and each manifest stands under the key of its id.
  pub prune_job-SnapshotKept :
      (n : ℕ) (sn : Snapshot)
      → Unique (λ r. r.id) s.store.snapshots
      → WellKeyed s.store.snapshots
      → get_elem? history n ≡ some sn
      → InPolicy job cutoff_of n sn
      → SnapshotKept sn.id s (prune_job days_back job s).1
  unfolding prune_job
  prune_job-SnapshotKept n sn u w e p = elim (Bool-cases (has_no_policy job)) [
    | inl t ↦ rw t (SnapshotKept-refl sn.id s)
    | inr f ↦ rw f (
        prune_kept job cutoff_of history 0 n s sn (history-Unique u) w e
          (rw zero-add (InPolicy-is_kept job cutoff_of n sn p)))
  ]

  -- Where retention of a job with a policy reports success, every snapshot of the job's history that is
  -- outside of the policy is gone.
  pub prune_job_pruned :
      (n : ℕ) (sn : Snapshot)
      → (ltz (pos 0) job.keep_last ≡ true) ⊎ (ltz (pos 0) job.keep_days ≡ true)
      → (prune_job days_back job s).0 ≡ ok tt
      → get_elem? history n ≡ some sn
      → ¬ InPolicy job cutoff_of n sn
      → get_snapshot sn.id (prune_job days_back job s).1.store ≡ none
  unfolding prune_job get_snapshot
  prune_job_pruned n sn has done e out =
      let f : has_no_policy job ≡ false = ground arith in
      rw f (
        prune_pruned job cutoff_of history 0 n s sn (rw f at done) e (
          rw zero-add (elim (Bool-cases (is_kept job cutoff_of n sn)) [
            | inl t ↦ absurd (out (is_kept-InPolicy job cutoff_of n sn t))
            | inr k ↦ k
          ])))

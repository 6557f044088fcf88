-- ===== src/Server/Gc/Pruning.antt =====
-- internal/server/gc.go: the loop of pruneRetention over the snapshots of a job.
use mathlib.Core.Path.{subst}
use native.Mathlib.Nat.{add-zero}
use claude_backup.Prelude.{
  Text, text_eq, text_eq_refl, text_eq_iff, text_eq_comm, ℕ, zero, suc, ◌+◌, ℤ, ◌≡◌, refl, sym, ◌∙◌,
  true, false, none, some, List, [], ◌∷◌, get_elem?, arith, Bool-cases, Option-cases, inl, inr,
}
use claude_backup.Sql.{first, delete}
use claude_backup.Sql.Keys.{All, Unique, first-delete, first-delete-none}
use claude_backup.Proto.{Job}
use claude_backup.Store.{Snapshot}
use claude_backup.Store.Snapshots.{snapshot_id_is, get_snapshot, delete_snapshot_row}
use claude_backup.Storage.{remove}
use claude_backup.Storage.Laws.{remove_other}
use claude_backup.Storage.Keys.{manifest_key, manifest_key-injective}
use claude_backup.Server.{Server, ok, Result-cases}
use claude_backup.Server.Snapshots.{delete_snapshot}
use claude_backup.Server.Gc.{is_kept, prune_snapshots}
use claude_backup.Server.Gc.Safety.{SameObject}

-- Every manifest stands under the key of its snapshot.
abbrev pub WellKeyed : List Snapshot → Type 0
WellKeyed = All (λ r. r.manifest_key ≡ manifest_key r.id)

-- The row and the manifest of a snapshot are the same in both states.
pub record SnapshotKept (id : Text) (s t : Server) : Type 0 where
  pub row : get_snapshot id t.store ≡ get_snapshot id s.store
  pub manifest : SameObject (manifest_key id) s t

pub SnapshotKept-refl : (id : Text) (s : Server) → SnapshotKept id s s
SnapshotKept-refl id s = record { row = refl; manifest = refl }

SnapshotKept-trans :
    (id : Text) (s t u : Server) → SnapshotKept id s t → SnapshotKept id t u → SnapshotKept id s u
SnapshotKept-trans id s t u p q = record { row = q.row ∙ p.row; manifest = q.manifest ∙ p.manifest }

first-WellKeyed :
    (id : Text) (rows : List Snapshot) {r : Snapshot}
    → WellKeyed rows
    → first (snapshot_id_is id) rows ≡ some r
    → r.manifest_key ≡ manifest_key id
unfolding first
first-WellKeyed id [] w e = cc
first-WellKeyed id (x ∷ xs) {r} w e = elim (Bool-cases (text_eq x.id id)) [
  | inl m ↦ ground (arith, text_eq_iff x.id id)
  | inr m ↦ first-WellKeyed id xs {r = r} w.1 (ground arith)
]

delete-WellKeyed :
    (id : Text) (rows : List Snapshot)
    → WellKeyed rows
    → WellKeyed (delete (snapshot_id_is id) rows)
unfolding delete
delete-WellKeyed id [] w = tt
delete-WellKeyed id (x ∷ xs) w = elim (Bool-cases (text_eq x.id id)) [
  | inl m ↦ rw m (delete-WellKeyed id xs w.1)
  | inr m ↦ rw m (w.0, delete-WellKeyed id xs w.1)
]

module _ (id : Text) (s : Server) where
  delete_snapshot-WellKeyed :
      WellKeyed s.store.snapshots → WellKeyed (delete_snapshot id s).1.store.snapshots
  unfolding delete_snapshot get_snapshot delete_snapshot_row
  delete_snapshot-WellKeyed w = elim (Option-cases (first (snapshot_id_is id) s.store.snapshots)) [
    | inl e ↦ rw (e, delete_snapshot) w
    | inr (r, e) ↦ elim (Bool-cases (remove r.manifest_key s.objects).0) [
      | inl d ↦ rw (e, d, delete_snapshot) (delete-WellKeyed id s.store.snapshots w)
      | inr d ↦ rw (e, d, delete_snapshot) w
    ]
  ]

  -- The deletion of one snapshot leaves the others.
  delete_snapshot_other :
      (k : Text)
      → WellKeyed s.store.snapshots
      → text_eq k id ≡ false
      → SnapshotKept k s (delete_snapshot id s).1
  unfolding delete_snapshot get_snapshot delete_snapshot_row
  delete_snapshot_other k w ne = elim (Option-cases (first (snapshot_id_is id) s.store.snapshots)) [
    | inl e ↦ rw (e, delete_snapshot) (SnapshotKept-refl k s)
    | inr (r, e) ↦
        let other = remove_other r.manifest_key (manifest_key k) s.objects (λ q. ground (
          arith,
          text_eq_iff k id,
          manifest_key-injective id k (sym (first-WellKeyed id s.store.snapshots w e) ∙ q),
        )) in
        elim (Bool-cases (remove r.manifest_key s.objects).0) [
          | inl d ↦
              rw (e, d, delete_snapshot)
                (record {
                  row = rw (first-delete (λ x. x.id) k id s.store.snapshots, ne) refl;
                  manifest = other;
                })
          | inr d ↦ rw (e, d, delete_snapshot) (record { row = refl; manifest = other })
        ]
  ]

  -- Where it succeeds, the snapshot is gone.
  delete_snapshot_gone :
      (delete_snapshot id s).0 ≡ ok tt
      → first (snapshot_id_is id) (delete_snapshot id s).1.store.snapshots ≡ none
  unfolding delete_snapshot get_snapshot delete_snapshot_row
  delete_snapshot_gone h =
      ground (arith, first-delete (λ x. x.id) id id s.store.snapshots, text_eq_refl id)

  -- A snapshot that is gone stays so.
  delete_snapshot_still_gone :
      (k : Text)
      → first (snapshot_id_is k) s.store.snapshots ≡ none
      → first (snapshot_id_is k) (delete_snapshot id s).1.store.snapshots ≡ none
  unfolding delete_snapshot get_snapshot delete_snapshot_row
  delete_snapshot_still_gone k h =
      ground (arith, first-delete-none (λ x. x.id) k (snapshot_id_is id) s.store.snapshots)

-- A row that stands in a list under a key is not another row's.
get_elem?_other :
    (x : Snapshot) (xs : List Snapshot) (n : ℕ) {sn : Snapshot}
    → first (snapshot_id_is x.id) xs ≡ none
    → get_elem? xs n ≡ some sn
    → text_eq sn.id x.id ≡ false
unfolding first
get_elem?_other x [] n h e = cc
get_elem?_other x (y ∷ ys) zero h e = ground arith
get_elem?_other x (y ∷ ys) (suc n) {sn} h e = get_elem?_other x ys n {sn = sn} (ground arith) e

other_keys :
    (k : Text) (rows : List Snapshot)
    → first (snapshot_id_is k) rows ≡ none
    → All (λ r. text_eq k r.id ≡ false) rows
unfolding first
other_keys k [] h = tt
other_keys k (x ∷ xs) h = (ground (arith, text_eq_comm k x.id), other_keys k xs (ground arith))

module _ (job : Job) (cutoff : ℤ) where
  -- Pruning other snapshots leaves one alone.
  prune_others :
      (k : Text) (i : ℕ) (sns : List Snapshot) (s : Server)
      → All (λ r. text_eq k r.id ≡ false) sns
      → WellKeyed s.store.snapshots
      → SnapshotKept k s (prune_snapshots job cutoff i sns s).1
  unfolding prune_snapshots
  prune_others k i [] s o w = SnapshotKept-refl k s
  prune_others k i (x ∷ xs) s o w = elim (Bool-cases (is_kept job cutoff i x)) [
    | inl t ↦ rw t (prune_others k (suc i) xs s o.1 w)
    | inr f ↦
        let step = delete_snapshot_other x.id s k w o.0 in
        elim (Result-cases (delete_snapshot x.id s).0) [
          | inl (e, failed) ↦ rw (f, failed, prune_snapshots) step
          | inr done ↦
              rw (f, done, prune_snapshots)
                (SnapshotKept-trans k s _ _ step (
                  prune_others k (suc i) xs (delete_snapshot x.id s).1 o.1
                    (delete_snapshot-WellKeyed x.id s w)))
        ]
  ]

  pub prune_kept :
      (sns : List Snapshot) (i n : ℕ) (s : Server) (sn : Snapshot)
      → Unique (λ r. r.id) sns
      → WellKeyed s.store.snapshots
      → get_elem? sns n ≡ some sn
      → is_kept job cutoff (i + n) sn ≡ true
      → SnapshotKept sn.id s (prune_snapshots job cutoff i sns s).1
  unfolding prune_snapshots
  prune_kept [] i n s sn u w e h = absurd (ground arith)
  prune_kept (x ∷ xs) i zero s sn u w e h =
      let same : x ≡ sn = ground arith in
      let here : is_kept job cutoff i x ≡ true =
        rw same (subst (λ m. is_kept job cutoff m sn ≡ true) (add-zero i) h) in
      rw here (
        prune_others sn.id (suc i) xs s
          (other_keys sn.id xs (subst (λ y. first (snapshot_id_is y.id) xs ≡ none) same u.0)) w)
  prune_kept (x ∷ xs) i (suc n) s sn u w e h =
      let later : is_kept job cutoff (suc i + n) sn ≡ true =
        subst (λ m. is_kept job cutoff m sn ≡ true) (omega arith) h in
      elim (Bool-cases (is_kept job cutoff i x)) [
        | inl t ↦ rw t (prune_kept xs (suc i) n s sn u.1 w e later)
        | inr f ↦
            let step = delete_snapshot_other x.id s sn.id w (get_elem?_other x xs n u.0 e) in
            elim (Result-cases (delete_snapshot x.id s).0) [
              | inl (_, failed) ↦ rw (f, failed, prune_snapshots) step
              | inr done ↦
                  rw (f, done, prune_snapshots)
                    (SnapshotKept-trans sn.id s _ _ step (
                      prune_kept xs (suc i) n (delete_snapshot x.id s).1 sn u.1
                        (delete_snapshot-WellKeyed x.id s w) e later))
            ]
      ]

  -- What is gone stays gone.
  prune_gone :
      (k : Text) (i : ℕ) (sns : List Snapshot) (s : Server)
      → first (snapshot_id_is k) s.store.snapshots ≡ none
      → first (snapshot_id_is k) (prune_snapshots job cutoff i sns s).1.store.snapshots ≡ none
  unfolding prune_snapshots
  prune_gone k i [] s h = h
  prune_gone k i (x ∷ xs) s h = elim (Bool-cases (is_kept job cutoff i x)) [
    | inl t ↦ rw t (prune_gone k (suc i) xs s h)
    | inr f ↦ elim (Result-cases (delete_snapshot x.id s).0) [
      | inl (e, failed) ↦ rw (f, failed, prune_snapshots) (delete_snapshot_still_gone x.id s k h)
      | inr done ↦
          rw (f, done, prune_snapshots)
            (prune_gone k (suc i) xs (delete_snapshot x.id s).1
              (delete_snapshot_still_gone x.id s k h))
    ]
  ]

  pub prune_pruned :
      (sns : List Snapshot) (i n : ℕ) (s : Server) (sn : Snapshot)
      → (prune_snapshots job cutoff i sns s).0 ≡ ok tt
      → get_elem? sns n ≡ some sn
      → is_kept job cutoff (i + n) sn ≡ false
      → first (snapshot_id_is sn.id) (prune_snapshots job cutoff i sns s).1.store.snapshots ≡ none
  unfolding prune_snapshots
  prune_pruned [] i n s sn r e h = absurd (ground arith)
  prune_pruned (x ∷ xs) i zero s sn r e h =
      let same : x ≡ sn = ground arith in
      let here : is_kept job cutoff i x ≡ false =
        rw same (subst (λ m. is_kept job cutoff m sn ≡ false) (add-zero i) h) in
      elim (Result-cases (delete_snapshot x.id s).0) [
        | inl (c, failed) ↦ absurd (ground arith)
        | inr done ↦
            rw (here, done, prune_snapshots)
              (prune_gone sn.id (suc i) xs (delete_snapshot x.id s).1 (
                subst
                  (λ y.
                    first (snapshot_id_is y.id) (delete_snapshot x.id s).1.store.snapshots ≡ none)
                  same (delete_snapshot_gone x.id s done)))
      ]
  prune_pruned (x ∷ xs) i (suc n) s sn r e h =
      let later : is_kept job cutoff (suc i + n) sn ≡ false =
        subst (λ m. is_kept job cutoff m sn ≡ false) (omega arith) h in
      elim (Bool-cases (is_kept job cutoff i x)) [
        | inl t ↦ rw t (prune_pruned xs (suc i) n s sn (ground arith) e later)
        | inr f ↦ elim (Result-cases (delete_snapshot x.id s).0) [
          | inl (c, failed) ↦ absurd (ground arith)
          | inr done ↦
              rw (f, done, prune_snapshots)
                (prune_pruned xs (suc i) n (delete_snapshot x.id s).1 sn (ground arith) e later)
        ]
      ]

-- ===== src/Server/Admin/AgentDelete.antt =====
-- internal/server/api_admin.go: the deletion of a client with everything that belongs to it.
use mathlib.Core.Path.{sym, ◌∙◌, ap}
use claude_backup.Prelude.{
  Text, text_eq, text_eq_refl, text_eq_comm, contains, ◌≡◌, refl, Bool, true, false, ◌||◌, none,
  List, [], ◌∷◌, map, arith, Bool-cases, Option-cases, inl, inr,
}
use claude_backup.Sql.{select, first, delete, given}
use claude_backup.Sql.Keys.{first-delete_all}
use claude_backup.Sql.Members.{In, In-select, In-order_by, In-reverse}
use claude_backup.Store.{Store, Snapshot}
use claude_backup.Store.Agents.{agent_id_is, get_agent, delete_agent}
use claude_backup.Store.Snapshots.{
  snapshot_id_is, get_snapshot, list_snapshots, is_listed, delete_snapshot_row,
}
use claude_backup.Store.Transfers.{transfer_keys_for_agent}
use claude_backup.Storage.{remove}
use claude_backup.Server.{Server, ok, Result-cases}
use claude_backup.Server.Transfers.{discard_object}
use claude_backup.Server.Snapshots.{delete_snapshot}
use claude_backup.Server.Admin.{delete_snapshots, discard_objects, handle_agent_delete}

-- No row of any table belongs to the agent, and the agent is not known.
pub record NothingOf (id : Text) (t : Store) : Type 0 where
  pub agent : get_agent id t ≡ none
  pub jobs : select (λ r. text_eq r.job.agent_id id) t.jobs ≡ []
  pub runs : select (λ r. text_eq r.agent_id id) t.runs ≡ []
  pub transfers : select (λ r. text_eq r.agent_id id) t.transfers ≡ []
  pub commands : select (λ r. text_eq r.agent_id id) t.commands ≡ []
  pub snapshots : select (λ sn. text_eq sn.agent_id id) t.snapshots ≡ []

module _ {A : Type 0} where
  -- A query for rows that a DELETE has matched.
  select-delete_all :
      (p q : A → Bool) (rows : List A)
      → ((r : A) → In r rows → p r ≡ true → q r ≡ true)
      → select p (delete q rows) ≡ []
  unfolding select delete
  select-delete_all p q [] h = refl
  select-delete_all p q (x ∷ xs) h =
      let rest = select-delete_all p q xs (λ r i. h r (inr i)) in
      elim (Bool-cases (q x)) [
        | inl gone ↦ rw gone rest
        | inr kept ↦ elim (Bool-cases (p x)) [
          | inl chosen ↦ absurd (ground (arith, h x (inl refl) chosen))
          | inr other ↦ rw (kept, other, select) rest
        ]
      ]

  delete-first-none : (p : A → Bool) (rows : List A) → first p rows ≡ none → delete p rows ≡ rows
  unfolding first delete
  delete-first-none p [] h = refl
  delete-first-none p (x ∷ xs) h = ground (arith, delete-first-none p xs)

  delete-delete :
      (p q : A → Bool) (rows : List A) → delete p (delete q rows) ≡ delete (λ r. q r || p r) rows
  unfolding delete
  delete-delete p q [] = refl
  delete-delete p q (x ∷ xs) = ground (arith, delete-delete p q xs)

  delete_congruence :
      (p q : A → Bool) (rows : List A) → ((r : A) → p r ≡ q r) → delete p rows ≡ delete q rows
  unfolding delete
  delete_congruence p q [] h = refl
  delete_congruence p q (x ∷ xs) h = ground (arith, h x, delete_congruence p q xs h)

  delete-false : (rows : List A) → delete (λ r. false) rows ≡ rows
  unfolding delete
  delete-false [] = refl
  delete-false (x ∷ xs) = ap (λ l. x ∷ l) (delete-false xs)

-- The rows after a deletion that succeeds.
delete_snapshot-snapshots :
    (id : Text) (s : Server)
    → (delete_snapshot id s).0 ≡ ok tt
    → (delete_snapshot id s).1.store.snapshots ≡ delete (snapshot_id_is id) s.store.snapshots
unfolding delete_snapshot get_snapshot delete_snapshot_row
delete_snapshot-snapshots id s h =
    elim (Option-cases (first (snapshot_id_is id) s.store.snapshots)) [
      | inl absent ↦
          rw (absent, delete_snapshot)
            (sym (delete-first-none (snapshot_id_is id) s.store.snapshots absent))
      | inr (sn, found) ↦ elim (Bool-cases (remove sn.manifest_key s.objects).0) [
        | inl removed ↦ rw (found, removed, delete_snapshot) refl
        | inr kept ↦ absurd (ground arith)
      ]
    ]

abbrev ids_of : List Snapshot → List Text
ids_of sns = map (λ sn. sn.id) sns

delete_snapshots-snapshots :
    (sns : List Snapshot) (s : Server)
    → (delete_snapshots sns s).0 ≡ ok tt
    → (delete_snapshots sns s).1.store.snapshots
      ≡ delete (λ r. contains (ids_of sns) r.id) s.store.snapshots
unfolding delete_snapshots contains
delete_snapshots-snapshots [] s h = sym (delete-false s.store.snapshots)
delete_snapshots-snapshots (sn ∷ sns) s h = elim (Result-cases (delete_snapshot sn.id s).0) [
  | inl (e, failed) ↦ absurd (ground arith)
  | inr done ↦
      let s' = (delete_snapshot sn.id s).1 in
      rw (done, delete_snapshots)
        (delete_snapshots-snapshots sns s' (rw (done, delete_snapshots) at h)
          ∙ ap (delete (λ r. contains (ids_of sns) r.id)) (delete_snapshot-snapshots sn.id s done)
          ∙ delete-delete (λ r. contains (ids_of sns) r.id) (snapshot_id_is sn.id) s.store.snapshots
          ∙ delete_congruence _ _ s.store.snapshots
              (λ r. ap (λ b. b || contains (ids_of sns) r.id) (text_eq_comm r.id sn.id)))
]

discard_objects-store : (keys : List Text) (s : Server) → (discard_objects keys s).store ≡ s.store
unfolding discard_objects discard_object
discard_objects-store [] s = refl
discard_objects-store (key ∷ keys) s = discard_objects-store keys (discard_object key s)

In-contains : (sn : Snapshot) (sns : List Snapshot) → In sn sns → contains (ids_of sns) sn.id ≡ true
unfolding contains
In-contains sn [] i = absurd i
In-contains sn (x ∷ xs) (inl same) = rw (sym same) (rw (text_eq_refl sn.id) refl)
In-contains sn (x ∷ xs) (inr i) = ground (arith, In-contains sn xs i)

given_own : (id owner : Text) → text_eq owner id ≡ true → given id owner ≡ true
unfolding text_eq
given_own [] owner h = refl
given_own (c ∷ id) owner h = h

In-listed :
    (id : Text) (s : Store) (sn : Snapshot)
    → In sn s.snapshots
    → text_eq sn.agent_id id ≡ true
    → In sn (list_snapshots [] id [] s)
unfolding list_snapshots is_listed
In-listed id s sn i own =
    In-reverse sn _
      (In-order_by _ sn _ (In-select _ sn s.snapshots (rw (given_own id sn.agent_id own) refl) i))

delete_agent-NothingOf :
    (id : Text) (t : Store)
    → select (λ sn. text_eq sn.agent_id id) t.snapshots ≡ []
    → NothingOf id (delete_agent id t)
unfolding delete_agent get_agent
delete_agent-NothingOf id t gone = record {
  agent = first-delete_all (agent_id_is id) (agent_id_is id) t.agents (λ r h. h);
  jobs = select-delete_all _ _ t.jobs (λ r i e. e);
  runs = select-delete_all _ _ t.runs (λ r i e. e);
  transfers = select-delete_all _ _ t.transfers (λ r i e. e);
  commands = select-delete_all _ _ t.commands (λ r i e. e);
  snapshots = gone;
}

-- After a deletion that reports success, the client is not known and no job, run, transfer, command or
-- snapshot of it is left in the store, in whichever backend.
pub handle_agent_delete-NothingOf :
    (id : Text) (s : Server)
    → (handle_agent_delete id s).0 ≡ ok tt
    → NothingOf id (handle_agent_delete id s).1.store
unfolding handle_agent_delete
handle_agent_delete-NothingOf id s h =
    let listed = list_snapshots [] id [] s.store in
    let s1 = (delete_snapshots listed s).1 in
    let keys = transfer_keys_for_agent id s1.store in
    elim (Result-cases (delete_snapshots listed s).0) [
      | inl (e, failed) ↦ absurd (ground arith)
      | inr done ↦
          rw (done, handle_agent_delete, discard_objects-store keys s1)
            (delete_agent-NothingOf id s1.store (
              ap (select (λ sn. text_eq sn.agent_id id)) (delete_snapshots-snapshots listed s done)
              ∙ select-delete_all _ _ s.store.snapshots
                  (λ sn i own. In-contains sn listed (In-listed id s.store sn i own))))
    ]

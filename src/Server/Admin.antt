-- ===== src/Server/Admin.antt =====
-- internal/server/api_admin.go: the sessions of the operators, and the handlers that change state.
-- bcrypt, SHA-256 and the cron parser are parameters, and `secret` is what `NewSecret` returns. The
-- listings and the JSON are not modelled: the body of a request is its fields, or `none`.
pub mod Sessions
pub mod AgentDelete
use claude_backup.Prelude.{
  Text, codes, text_eq, ℕ, ◌*◌, ltb, ◌==◌, ℤ, pos, ◌+ℤ◌, int64, length, trim_space, Bool, true,
  false, not, ◌&&◌, ◌||◌, Option, none, some, List, [], ◌∷◌, if◌then◌else◌,
}
use claude_backup.Proto.{Job, Origin, server, mode_full, mode_incremental}
use claude_backup.Store.{User, Snapshot, JobRow}
use claude_backup.Store.Users.{
  count_users, create_user, authenticate, set_password, create_session, session_user,
  delete_session,
}
use claude_backup.Store.Agents.{get_agent, rename_agent, delete_agent, create_enroll_token}
use claude_backup.Store.Jobs.{get_job, save_job, delete_job}
use claude_backup.Store.Snapshots.{get_snapshot, list_snapshots}
use claude_backup.Store.Transfers.{transfer_keys_for_agent}
use claude_backup.Server.{
  Server, Result, ok, err, forbidden, unauthorized, bad_request, not_found, conflict,
  database_error, storage_error, fresh_id, use_id, with_store, is_online,
}
use claude_backup.Server.Jobs.{
  validate_job, push_jobs, start_backup, start_restore, cancel_run_by_id,
}
use claude_backup.Server.Transfers.{discard_object}
use claude_backup.Server.Snapshots.{delete_snapshot}
use claude_backup.Server.Gc.{Codec, prune_and_gc}

-- What the guard reads of a request.
pub record Request : Type 0 where
  pub cookie : Option Text
  pub is_get : Bool
  pub requested_with : Text

-- 7 * 24 * time.Hour, in seconds
abbrev pub session_ttl : ℕ
session_ttl = 604800

-- 24 * time.Hour
abbrev pub token_ttl : ℕ
token_ttl = 86400

module _ (sha256_hex : Text → Text) where
  unfoldable pub session_of : Request → Server → Option User
  session_of r s = elim r.cookie [
    | none ↦ none
    | some token ↦ session_user sha256_hex token s.now s.store
  ]

  -- The handler runs behind the guard.
  unfoldable pub admin_auth :
      {A : Type 0} → Request → (Server → Result A × Server) → Server → Result A × Server
  unfolding session_of
  admin_auth r handler s = elim (session_of r s) [
    | none ↦ (err unauthorized, s)
    | some u ↦
        if not r.is_get && not (text_eq r.requested_with (codes "fetch"))
        then (err forbidden, s)
        else handler s
  ]

  -- No session is deleted without a cookie.
  unfoldable pub handle_logout : Request → Server → Result (Unit {0}) × Server
  handle_logout r s = elim r.cookie [
    | none ↦ (ok tt, s)
    | some token ↦ (ok tt, with_store (delete_session sha256_hex token s.store) s)
  ]

  unfoldable pub handle_token_create : Text → Text → Server → Result Text × Server
  handle_token_create secret note s =
      (ok secret, with_store (create_enroll_token sha256_hex secret note token_ttl s.now s.store) s)

-- The comparison of a hash with a password, and the hash of a password.
module _ (sha256_hex : Text → Text) (matches : Text → Text → Bool)
    (bcrypt_hash : Text → Option Text) where
  -- The result is the cookie.
  unfoldable pub issue_session : Text → Text → Text → Server → Result Text × Server
  issue_session secret username password s = elim (authenticate matches username password s.store) [
    | none ↦ (err unauthorized, s)
    | some u ↦ elim (create_session sha256_hex secret u.id session_ttl s.now s.store) [
      | none ↦ (err database_error, s)
      | some t ↦ (ok secret, with_store t s)
    ]
  ]

  unfoldable pub create_first_user : Text → Text → Text → Server → Result Text × Server
  unfolding issue_session
  create_first_user secret username password s =
      elim (create_user bcrypt_hash (fresh_id s) username password s.now s.store) [
        | none ↦ (err database_error, use_id s)
        | some t ↦ issue_session secret username password (use_id (with_store t s))
      ]

  unfoldable pub handle_setup : Text → Option (Text × Text) → Server → Result Text × Server
  unfolding create_first_user
  handle_setup secret none s =
      if count_users s.store == 0 then (err bad_request, s) else (err forbidden, s)
  handle_setup secret (some (username, password)) s =
      let created = create_first_user secret username password s in
      if not (count_users s.store == 0)
      then (err forbidden, s)
      else if text_eq username [] || ltb (length password) 8
      then (err bad_request, s)
      else created

  unfoldable pub handle_login : Text → Option (Text × Text) → Server → Result Text × Server
  unfolding issue_session
  handle_login secret none s = (err bad_request, s)
  handle_login secret (some (username, password)) s = issue_session secret username password s

  unfoldable pub change_password : User → Text → Text → Server → Result (Unit {0}) × Server
  change_password u old new s = elim (authenticate matches u.username old s.store) [
    | none ↦ (err forbidden, s)
    | some _ ↦ elim (set_password bcrypt_hash u.id new s.store) [
      | none ↦ (err database_error, s)
      | some t ↦ (ok tt, with_store t s)
    ]
  ]

  -- Behind the guard there is a user.
  unfoldable pub handle_password :
      Request → Option (Text × Text) → Server → Result (Unit {0}) × Server
  unfolding session_of change_password
  handle_password r none s = (err bad_request, s)
  handle_password r (some (old, new)) s =
      if ltb (length new) 8 then (err bad_request, s) else elim (session_of sha256_hex r s) [
        | none ↦ (err unauthorized, s)
        | some u ↦ change_password u old new s
      ]

unfoldable pub handle_agent_rename : Text → Option Text → Server → Result (Unit {0}) × Server
handle_agent_rename id none s = (err bad_request, s)
handle_agent_rename id (some name) s =
    if text_eq (trim_space name) []
    then (err bad_request, s)
    else (ok tt, with_store (rename_agent id (trim_space name) s.store) s)

-- The first snapshot that cannot be deleted ends the loop.
unfoldable pub delete_snapshots : List Snapshot → Server → Result (Unit {0}) × Server
delete_snapshots [] s = (ok tt, s)
delete_snapshots (sn ∷ sns) s =
    let (deleted, s') = delete_snapshot sn.id s in
    elim deleted [ err e ↦ (err e, s') | ok _ ↦ delete_snapshots sns s' ]

unfoldable pub discard_objects : List Text → Server → Server
unfolding discard_object
discard_objects [] s = s
discard_objects (key ∷ keys) s = discard_objects keys (discard_object key s)

-- Snapshots of every backend, then the payloads of transfers, then the rows.
unfoldable pub handle_agent_delete : Text → Server → Result (Unit {0}) × Server
unfolding delete_snapshots discard_objects
handle_agent_delete id s =
    let (deleted, s1) = delete_snapshots (list_snapshots [] id [] s.store) s in
    let s2 = discard_objects (transfer_keys_for_agent id s1.store) s1 in
    elim deleted [ err e ↦ (err e, s1) | ok _ ↦ (ok tt, with_store (delete_agent id s2.store) s2) ]

-- A new job gets an id, or a known one the version after its current one.
unfoldable pub job_to_save : Job → Server → Result Job × Server
job_to_save job s =
    let added = record job { id = fresh_id s; origin = server; version = pos 1 } in
    if text_eq job.id [] then (ok added, use_id s) else elim (get_job job.id s.store) [
      | none ↦ (err not_found, s)
      | some cur ↦ (
        ok (record job {
          origin = cur.job.origin;
          agent_id = cur.job.agent_id;
          version = int64 (cur.job.version +ℤ pos 1);
        }),
        s,
      )
    ]

unfoldable pub handle_job_save : (Text → Bool) → Option Job → Server → Result Job × Server
unfolding job_to_save
handle_job_save cron_valid none s = (err bad_request, s)
handle_job_save cron_valid (some job) s =
    let (chosen, s1) = job_to_save job s in
    if not (validate_job cron_valid job)
    then (err bad_request, s)
    else elim (get_agent job.agent_id s.store) [
      | none ↦ (err bad_request, s)
      | some _ ↦ elim chosen [
        | err e ↦ (err e, s1)
        | ok j ↦ (ok j, push_jobs j.agent_id (with_store (save_job j s1.now s1.store) s1))
      ]
    ]

unfoldable pub handle_job_delete : Text → Server → Result (Unit {0}) × Server
handle_job_delete id s = elim (get_job id s.store) [
  | none ↦ (err not_found, s)
  | some row ↦ (ok tt, push_jobs row.job.agent_id (with_store (delete_job row.job.id s.store) s))
]

-- The result is the run, and whether it waits for its agent.
unfoldable pub handle_job_run : Text → Text → Bool → Server → Result (Text × Bool) × Server
handle_job_run id mode queue s =
    if not (text_eq mode []) && not (text_eq mode mode_full) && not (text_eq mode mode_incremental)
    then (err bad_request, s)
    else elim (get_job id s.store) [
      | none ↦ (err not_found, s)
      | some row ↦
          let (started, s') = start_backup row mode queue s in
          elim started [
            | err e ↦ (err conflict, s')
            | ok run_id ↦ (ok (run_id, not (is_online row.job.agent_id s')), s')
          ]
    ]

unfoldable pub handle_run_cancel : Text → Server → Result (Unit {0}) × Server
handle_run_cancel id s =
    let (cancelled, s') = cancel_run_by_id id s in
    (elim cancelled [ err e ↦ err conflict | ok _ ↦ ok tt ], s')

unfoldable pub handle_snapshot_restore :
    Text → Option (List Text × (Text × Bool)) → Server → Result Text × Server
handle_snapshot_restore id body s = elim (get_snapshot id s.store) [
  | none ↦ (err not_found, s)
  | some sn ↦ elim body [
    | none ↦ (err bad_request, s)
    | some (paths, rest) ↦
        let (started, s') = start_restore sn paths rest.0 rest.1 s in
        (elim started [ err e ↦ err conflict | ok run_id ↦ ok run_id ], s')
  ]
]

unfoldable pub handle_snapshot_delete : Text → Server → Result (Unit {0}) × Server
handle_snapshot_delete id s = delete_snapshot id s

unfoldable pub handle_gc : (ℕ → ℤ → ℤ) → Codec → ℕ → Server → Result (Unit {0}) × Server
handle_gc days_back codec grace s = prune_and_gc days_back codec grace s

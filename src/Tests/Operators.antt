-- ===== src/Tests/Operators.antt =====
-- The theorems on the scheduler, the settings and the administration, at small states.
use claude_backup.Prelude.{
  Text, codes, text_eq, text_eq_iff, ℕ, suc, ◌+◌, ◌<◌, ltb, pos, ◌≡◌, refl, true, false, Option,
  none, some, [], ◌∷◌, arith, if◌then◌else◌,
}
use claude_backup.Hub
use claude_backup.Sql.{first, select}
use claude_backup.Sql.Order.{order_by}
use claude_backup.Storage.{remove}
use claude_backup.Store.Snapshots.{list_snapshots, is_listed, get_snapshot}
use claude_backup.Store.Agents.{get_agent}
use claude_backup.Server.Snapshots.{delete_snapshot}
use claude_backup.Sql.Keys.{by}
use claude_backup.Proto.{Job}
use claude_backup.Store.{User, JobRow, empty_store}
use claude_backup.Store.Jobs.{get_job, list_jobs}
use claude_backup.Store.Users.{
  set_password, set_setting, authenticate, session_user, create_session, create_user, user_named,
  count_users,
}
use claude_backup.Store.Users.Laws.{settings_of, update, settings_of-set_setting}
use claude_backup.Server.{Server, err, forbidden, unauthorized}
use claude_backup.Server.Jobs.{sync_job, validate_job}
use claude_backup.Server.Jobs.Stale.{sync_job-handle_job_save}
use claude_backup.Server.Sched.{sched_job, is_due, run_scheduler, tick, sched_jobs, trigger_job}
use claude_backup.Server.Sched.Triggers.{Schedule, DueTick, end_of, ticks_before, trigger-DueTick}
use claude_backup.Server.Sched.Due.{Triggered, sched_job-Triggered}
use claude_backup.Server.Admin.{
  Request, session_ttl, admin_auth, handle_logout, issue_session, handle_setup, handle_password,
  handle_agent_delete, handle_job_save, job_to_save,
}
use claude_backup.Server.Admin.Sessions.{
  admin_auth-handle_logout, issue_session-session_user, handle_setup-handle_setup,
  authenticate-handle_password,
}
use claude_backup.Server.Admin.AgentDelete.{NothingOf, handle_agent_delete-NothingOf}
use claude_backup.Tests.{alice, documents, job_of, store_of, server_of, conn_of_alice, snapshot_of}

-- A schedule that has a trigger at every time but 0.
each_second : Schedule (λ u. 0 < u) suc
each_second = record {
  later = λ t. omega arith;
  fires = λ t. omega arith;
  least = λ t u f h. omega (arith, h);
}

abbrev scheduled : JobRow
scheduled = record documents {
  job = record (job_of (codes "j1") alice) { schedule = codes "* * * * *" };
}

abbrev online : Server
online = server_of (record (store_of []) { jobs = scheduled ∷ [] }) (conn_of_alice ∷ []) []

-- Its agent is offline at the tick of 40, and the trigger of 50 comes before the tick of 70.
abbrev waiting_for_agent : Server
waiting_for_agent = server_of (record (store_of []) { jobs = scheduled ∷ [] }) [] []

trigger-DueTick_example :
    DueTick (λ spec. some suc) [] scheduled [] 50 10 (40 ∷ 70 ∷ 100 ∷ []) waiting_for_agent
unfolding end_of ticks_before run_scheduler tick sched_jobs sched_job trigger_job list_jobs text_eq
    first select order_by is_due Hub.online
trigger-DueTick_example =
    trigger-DueTick (λ spec. some suc) (λ u. 0 < u) suc each_second [] scheduled [] 50 10
      (40 ∷ 70 ∷ 100 ∷ []) waiting_for_agent (omega arith) (omega arith) (omega arith) refl refl
      refl refl

sched_job-Triggered_example :
    Triggered scheduled scheduled online (sched_job (λ spec. some suc) 10 40 scheduled online)
unfolding text_eq is_due get_job first
sched_job-Triggered_example =
    sched_job-Triggered (λ spec. some suc) 10 40 scheduled scheduled online refl refl refl refl

settings_of-set_setting_example :
    settings_of (set_setting (codes "base") (codes "https") empty_store) (codes "base")
    ≡ update (settings_of empty_store) (codes "base") (codes "https") (codes "base")
settings_of-set_setting_example =
    settings_of-set_setting (codes "base") (codes "https") empty_store (codes "base")

abbrev admin : User
admin = record {
  id = codes "u1";
  username = codes "admin";
  password_hash = codes "password";
  created_at = 1;
}

-- An operator who is signed in, on a server without jobs.
abbrev signed_in : Server
signed_in =
    server_of
      (record (store_of []) {
        users = admin ∷ [];
        sessions = record { token = codes "t"; user_id = codes "u1"; expires_at = 500 } ∷ [];
      })
      [] []

abbrev request : Request
request = record { cookie = some (codes "t"); is_get = false; requested_with = codes "fetch" }

admin_auth-handle_logout_example :
    admin_auth
      (λ t. t)
      request
      (handle_agent_delete alice)
      (handle_logout (λ t. t) request signed_in).1
    ≡ (err unauthorized, (handle_logout (λ t. t) request signed_in).1)
admin_auth-handle_logout_example =
    admin_auth-handle_logout (λ t. t) request (handle_agent_delete alice) signed_in

issue_session-session_user_example :
    (u : User) × (authenticate text_eq (codes "admin") (codes "password") signed_in.store ≡ some u)
    × ((t : ℕ)
        → session_user
            (λ t. t)
            (codes "new")
            t
            (issue_session
              (λ t. t)
              text_eq
              some
              (codes "new")
              (codes "admin")
              (codes "password")
              signed_in).1.store
          ≡ (if ltb t (100 + session_ttl) then first (by (λ x. x.id) u.id) (admin ∷ []) else none))
unfolding issue_session authenticate user_named first text_eq create_session
issue_session-session_user_example =
    issue_session-session_user (λ t. t) text_eq some (codes "new") (codes "admin")
      (codes "password") (codes "new") signed_in refl

abbrev fresh : Server
fresh = server_of (store_of []) [] []

abbrev first_operator : Option (Text × Text)
first_operator = some (codes "admin", codes "password")

handle_setup-handle_setup_example :
    handle_setup
      (λ t. t)
      text_eq
      some
      (codes "other")
      first_operator
      (handle_setup (λ t. t) text_eq some (codes "new") first_operator fresh).1
    ≡ (err forbidden, (handle_setup (λ t. t) text_eq some (codes "new") first_operator fresh).1)
unfolding handle_setup count_users text_eq create_user first authenticate user_named create_session
handle_setup-handle_setup_example =
    handle_setup-handle_setup (λ t. t) text_eq some (codes "new") (codes "other") (codes "new")
      first_operator first_operator fresh refl

authenticate-handle_password_example :
    (hash : Text) × (authenticate text_eq
        (codes "admin")
        (codes "longer password")
        (handle_password
          (λ t. t)
          text_eq
          some
          request
          (some (codes "password", codes "longer password"))
          signed_in).1.store
      ≡ some (record admin { password_hash = hash }))
unfolding handle_password authenticate user_named first text_eq session_user set_password
authenticate-handle_password_example =
    authenticate-handle_password (λ t. t) text_eq some request (codes "password")
      (codes "longer password") admin signed_in (λ p h e. ground (arith, text_eq_iff h p)) refl refl
      refl

-- The operator's edit of the job of version 3, sent with the version 1 in its body, and a client's copy
-- of version 4.
abbrev edited : Job
edited = record (job_of (codes "j1") alice) { version = pos 1; name = codes "papers" }

abbrev stored : Server
stored =
    server_of
      (record (store_of []) {
        jobs = record scheduled { job = record scheduled.job { version = pos 3 } } ∷ [];
      })
      (conn_of_alice ∷ []) []

abbrev copy : Job
copy = record (job_of (codes "j1") alice) { version = pos 4 }

sync_job-handle_job_save_example :
    sync_job (λ spec. true) alice copy (handle_job_save (λ spec. true) (some edited) stored).1
    ≡ (handle_job_save (λ spec. true) (some edited) stored).1
unfolding handle_job_save job_to_save get_job first text_eq validate_job get_agent
sync_job-handle_job_save_example =
    sync_job-handle_job_save (λ spec. true) edited
      (record edited { origin = scheduled.job.origin; version = pos 4 }) copy
      (record scheduled { job = record scheduled.job { version = pos 3 } }) alice stored refl
      (λ e. cc) refl refl refl refl

handle_agent_delete-NothingOf_example :
    NothingOf alice
      (handle_agent_delete alice (
        server_of
          (record (store_of []) { snapshots = snapshot_of (codes "s1") 1 ∷ [] })
          []
          [])).1.store
unfolding handle_agent_delete first text_eq list_snapshots order_by select is_listed delete_snapshot
    get_snapshot remove
handle_agent_delete-NothingOf_example =
    handle_agent_delete-NothingOf alice
      (server_of (record (store_of []) { snapshots = snapshot_of (codes "s1") 1 ∷ [] }) [] []) refl

-- ===== src/Server/Admin/Sessions.antt =====
-- internal/server/api_admin.go: how sessions begin and end, and the change of a password.
use mathlib.Core.Option
use mathlib.Core.Path.{sym}
use claude_backup.Prelude.{
  Text, text_eq_refl, ℕ, ◌+◌, ltb, ◌==◌, length-append, ◌≡◌, refl, Bool, true, false, Option, none,
  some, List, [], ◌∷◌, ◌++◌, arith, Bool-cases, Option-cases, inl, inr, if◌then◌else◌,
}
use claude_backup.Sql.{first, modify}
use claude_backup.Sql.Keys.{by}
use claude_backup.Store.{Store, User, Session}
use claude_backup.Store.Users.{
  count_users, create_user, user_conflicts, user_named, authenticate, set_password, is_live,
  create_session, session_user, delete_session,
}
use claude_backup.Store.Users.Laws.{session_user-delete_session}
use claude_backup.Server.{
  Server, Result, ok, err, forbidden, unauthorized, fresh_id, use_id, with_store,
}
use claude_backup.Server.Admin.{
  Request, session_ttl, session_of, admin_auth, handle_logout, issue_session, create_first_user,
  handle_setup, handle_password, change_password,
}

-- An update of rows that a query also reads.
first-modify-map :
    {A : Type 0} (p q : A → Bool) (f : A → A) (rows : List A)
    → ((r : A) → p (f r) ≡ p r)
    → first p (modify q f rows) ≡ Option.map (λ r. if q r then f r else r) (first p rows)
unfolding first modify
first-modify-map p q f [] same = refl
first-modify-map p q f (x ∷ xs) same = ground (arith, same x, first-modify-map p q f xs same)

-- The session of a token that no row had.
live_session :
    (sha256_hex : Text → Text) (token : Text) (t : ℕ) (x : Session) (rows : List Session)
    → first (by (λ r. r.token) (sha256_hex token)) rows ≡ none
    → x.token ≡ sha256_hex token
    → first (is_live sha256_hex token t) (rows ++ x ∷ [])
      ≡ (if ltb t x.expires_at then some x else none)
unfolding first is_live
live_session sha256_hex token t x [] h e = rw (e, text_eq_refl (sha256_hex token)) (ground arith)
live_session sha256_hex token t x (y ∷ ys) h e =
    ground (arith, live_session sha256_hex token t x ys, e)

module _ (sha256_hex : Text → Text) where
  session_of-handle_logout :
      (r : Request) (s : Server) → session_of sha256_hex r (handle_logout sha256_hex r s).1 ≡ none
  unfolding handle_logout session_of
  session_of-handle_logout r s = elim (Option-cases r.cookie) [
    | inl absent ↦ rw (absent, session_of) refl
    | inr (token, sent) ↦
        let out : (handle_logout sha256_hex r s).1
            ≡ with_store (delete_session sha256_hex token s.store) s =
          rw (sent, handle_logout) refl in
        rw out (rw (sent, session_of) (session_user-delete_session sha256_hex token s.now s.store))
  ]

  -- A request that has signed out is refused as unauthorized, by every guarded handler, and changes
  -- nothing.
  pub admin_auth-handle_logout :
      {A : Type 0} (r : Request) (handler : Server → Result A × Server) (s : Server)
      → admin_auth sha256_hex r handler (handle_logout sha256_hex r s).1
        ≡ (err unauthorized, (handle_logout sha256_hex r s).1)
  unfolding admin_auth
  admin_auth-handle_logout r handler s = rw (session_of-handle_logout r s, admin_auth) refl

module _ (sha256_hex : Text → Text) (matches : Text → Text → Bool)
    (bcrypt_hash : Text → Option Text) where
  -- A session that is issued is that of the user who authenticated, for as long as its time to live and
  -- no longer.
  pub issue_session-session_user :
      (secret username password cookie : Text) (s : Server)
      → (issue_session sha256_hex matches bcrypt_hash secret username password s).0 ≡ ok cookie
      → (u : User) × (authenticate matches username password s.store ≡ some u)
        × ((t : ℕ)
            → session_user sha256_hex cookie t
                (issue_session sha256_hex matches bcrypt_hash secret username password s).1.store
              ≡ (if ltb t (s.now + session_ttl)
                  then first (by (λ x. x.id) u.id) s.store.users
                  else none))
  unfolding issue_session create_session session_user
  issue_session-session_user secret username password cookie s h =
      elim (Option-cases (authenticate matches username password s.store)) [
        | inl unknown ↦ absurd (ground arith)
        | inr (u, known) ↦
            elim (Option-cases (first (by (λ x. x.token) (sha256_hex secret)) s.store.sessions)) [
              | inr (x, taken) ↦ absurd (ground arith)
              | inl unused ↦
                  let same : secret ≡ cookie = ground arith in
                  let x : Session = record {
                    token = sha256_hex secret;
                    user_id = u.id;
                    expires_at = s.now + session_ttl;
                  } in
                  (
                    u,
                    known,
                    λ t. rw (sym same) (
                        rw (known, unused, issue_session)
                          (rw
                            (
                              live_session sha256_hex secret t x s.store.sessions unused refl,
                              session_user,
                            )
                            (elim (Bool-cases (ltb t (s.now + session_ttl))) [
                              | inl live ↦ rw live refl
                              | inr over ↦ rw over refl
                            ]))),
                  )
            ]
      ]

  issue_session-users :
      (secret username password : Text) (s : Server)
      → (issue_session sha256_hex matches bcrypt_hash secret username password s).1.store.users
        ≡ s.store.users
  unfolding issue_session create_session
  issue_session-users secret username password s =
      elim (Option-cases (authenticate matches username password s.store)) [
        | inl unknown ↦ rw (unknown, issue_session) refl
        | inr (u, known) ↦
            elim (Option-cases (first (by (λ x. x.token) (sha256_hex secret)) s.store.sessions)) [
              | inr (x, taken) ↦ rw (known, taken, issue_session) refl
              | inl unused ↦ rw (known, unused, issue_session) refl
            ]
      ]

  create_user-count_users :
      (id username password : Text) (now : ℕ) (s t : Store)
      → create_user bcrypt_hash id username password now s ≡ some t
      → (count_users t == 0) ≡ false
  unfolding create_user count_users
  create_user-count_users id username password now s t h =
      elim (Option-cases (bcrypt_hash password)) [
        | inl too_long ↦ absurd (ground arith)
        | inr (hash, hashed) ↦ elim (Option-cases (first (user_conflicts id username) s.users)) [
          | inr (u, taken) ↦ absurd (ground arith)
          | inl free ↦
              let u : User = record {
                id = id;
                username = username;
                password_hash = hash;
                created_at = now;
              } in
              let added : s.users ++ u ∷ [] ≡ t.users = ground arith in
              rw (sym added) (ground (arith, length-append s.users (u ∷ [])))
        ]
      ]

  create_first_user-count_users :
      (secret username password cookie : Text) (s : Server)
      → (create_first_user sha256_hex matches bcrypt_hash secret username password s).0 ≡ ok cookie
      → (count_users
            (create_first_user sha256_hex matches bcrypt_hash secret username password s).1.store
          == 0)
        ≡ false
  unfolding create_first_user count_users
  create_first_user-count_users secret username password cookie s h =
      elim (Option-cases (create_user bcrypt_hash (fresh_id s) username password s.now s.store)) [
        | inl refused ↦ absurd (ground arith)
        | inr (t, made) ↦
            rw (made, create_first_user)
              (rw (issue_session-users secret username password (use_id (with_store t s)))
                (create_user-count_users (fresh_id s) username password s.now s.store t made))
      ]

  handle_setup-count_users :
      (secret cookie : Text) (body : Option (Text × Text)) (s : Server)
      → (handle_setup sha256_hex matches bcrypt_hash secret body s).0 ≡ ok cookie
      → (count_users (handle_setup sha256_hex matches bcrypt_hash secret body s).1.store == 0)
        ≡ false
  unfolding handle_setup
  handle_setup-count_users secret cookie none s h = absurd (ground arith)
  handle_setup-count_users secret cookie (some (username, password)) s h =
      let same : handle_setup sha256_hex matches bcrypt_hash secret (some (username, password)) s
          ≡ create_first_user sha256_hex matches bcrypt_hash secret username password s =
        ground arith in
      rw same (create_first_user-count_users secret username password cookie s (rw same at h))

  -- Once a setup has succeeded, every further one is refused and changes nothing.
  pub handle_setup-handle_setup :
      (secret secret' cookie : Text) (body body' : Option (Text × Text)) (s : Server)
      → (handle_setup sha256_hex matches bcrypt_hash secret body s).0 ≡ ok cookie
      → handle_setup sha256_hex matches bcrypt_hash secret' body'
          (handle_setup sha256_hex matches bcrypt_hash secret body s).1
        ≡ (err forbidden, (handle_setup sha256_hex matches bcrypt_hash secret body s).1)
  unfolding handle_setup
  handle_setup-handle_setup secret secret' cookie body body' s h =
      let t = (handle_setup sha256_hex matches bcrypt_hash secret body s).1 in
      let taken = handle_setup-count_users secret cookie body s h in
      elim (Option-cases body') [
        | inl undecodable ↦ rw (undecodable, taken, handle_setup) refl
        | inr (pair, sent) ↦ rw (sent, taken, handle_setup) refl
      ]

  new_password :
      (new hash : Text) (u : User) (s : Store)
      → ((p h : Text) → bcrypt_hash p ≡ some h → matches h p ≡ true)
      → user_named u.username s ≡ some u
      → bcrypt_hash new ≡ some hash
      → authenticate matches u.username new (record s {
        users = modify (by (λ x. x.id) u.id) (λ x. record x { password_hash = hash }) s.users;
      })
        ≡ some (record u { password_hash = hash })
  unfolding authenticate user_named
  new_password new hash u s law named hashed =
      let updated =
        first-modify-map (by (λ x. x.username) u.username) (by (λ x. x.id) u.id)
          (λ x. record x { password_hash = hash }) s.users (λ x. refl) in
      rw (updated, named, text_eq_refl u.id, law new hash hashed, authenticate) refl

  -- After a change of the password, the new password authenticates the user of the session, where
  -- the user's name is that user's alone and a hash matches the password that it was made of.
  pub authenticate-handle_password :
      (r : Request) (old new : Text) (u : User) (s : Server)
      → ((password hash : Text) → bcrypt_hash password ≡ some hash → matches hash password ≡ true)
      → session_of sha256_hex r s ≡ some u
      → user_named u.username s.store ≡ some u
      → (handle_password sha256_hex matches bcrypt_hash r (some (old, new)) s).0 ≡ ok tt
      → (hash : Text) × (authenticate matches u.username new
            (handle_password sha256_hex matches bcrypt_hash r (some (old, new)) s).1.store
          ≡ some (record u { password_hash = hash }))
  unfolding handle_password authenticate user_named set_password
  authenticate-handle_password r old new u s law session named h =
      let same : handle_password sha256_hex matches bcrypt_hash r (some (old, new)) s
          ≡ change_password sha256_hex matches bcrypt_hash u old new s =
        ground arith in
      let changed = rw same at h in
      elim (Option-cases (authenticate matches u.username old s.store)) [
        | inl wrong ↦ absurd (ground arith)
        | inr (v, right) ↦ elim (Option-cases (bcrypt_hash new)) [
          | inl too_long ↦ absurd (ground arith)
          | inr (hash, hashed) ↦ (
            hash,
            rw same (
                rw (right, hashed, change_password)
                  (new_password new hash u s.store law named hashed)),
          )
        ]
      ]

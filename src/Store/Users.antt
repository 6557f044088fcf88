-- ===== src/Store/Users.antt =====
-- internal/server/store/store.go: users, sessions, settings and the statistics of a backend. bcrypt
-- and SHA-256 are parameters: `bcrypt_hash` fails for a password that is too long.
pub mod Laws
use claude_backup.Prelude.{
  Text, text_eq, ℕ, ◌+◌, ltb, length, Bool, true, false, ◌&&◌, Option, none, some, List, [], ◌∷◌,
  ◌++◌, if◌then◌else◌,
}
use claude_backup.Sql.{select, first, modify, delete}
use claude_backup.Sql.Keys.{by}
use claude_backup.Store.{Store, User, Session, Setting, Blob}

unfoldable pub count_users : Store → ℕ
count_users s = length s.users

-- PRIMARY KEY and UNIQUE
unfoldable pub user_conflicts : Text → Text → User → Bool
user_conflicts id username u = if text_eq u.id id then true else text_eq u.username username

-- `none` where the password has no hash, or the id or the name is taken.
unfoldable pub create_user : (Text → Option Text) → Text → Text → Text → ℕ → Store → Option Store
create_user bcrypt_hash id username password now s = elim (bcrypt_hash password) [
  | none ↦ none
  | some hash ↦ elim (first (user_conflicts id username) s.users) [
    | some _ ↦ none
    | none ↦ some (record s {
      users =
          s.users
          ++ record { id = id; username = username; password_hash = hash; created_at = now } ∷ [];
    })
  ]
]

unfoldable pub user_named : Text → Store → Option User
user_named username s = first (by (λ u. u.username) username) s.users

-- `matches hash password` is the comparison of bcrypt.
unfoldable pub authenticate : (Text → Text → Bool) → Text → Text → Store → Option User
unfolding user_named
authenticate matches username password s = elim (user_named username s) [
  | none ↦ none
  | some u ↦ if matches u.password_hash password then some u else none
]

unfoldable pub set_password : (Text → Option Text) → Text → Text → Store → Option Store
set_password bcrypt_hash user_id password s = elim (bcrypt_hash password) [
  | none ↦ none
  | some hash ↦ some (record s {
    users = modify (by (λ u. u.id) user_id) (λ u. record u { password_hash = hash }) s.users;
  })
]

module _ (sha256_hex : Text → Text) where
  -- `none` where the token is taken.
  unfoldable pub create_session : Text → Text → ℕ → ℕ → Store → Option Store
  create_session token user_id ttl now s =
      elim (first (by (λ x. x.token) (sha256_hex token)) s.sessions) [
        | some _ ↦ none
        | none ↦ some (record s {
          sessions =
              s.sessions
              ++ record { token = sha256_hex token; user_id = user_id; expires_at = now + ttl }
                ∷ [];
        })
      ]

  unfoldable pub is_live : Text → ℕ → Session → Bool
  is_live token now x = text_eq x.token (sha256_hex token) && ltb now x.expires_at

  -- The token is the key, so the join has the user of one session at most.
  unfoldable pub session_user : Text → ℕ → Store → Option User
  unfolding is_live
  session_user token now s = elim (first (is_live token now) s.sessions) [
    | none ↦ none
    | some x ↦ first (by (λ u. u.id) x.user_id) s.users
  ]

  unfoldable pub delete_session : Text → Store → Store
  delete_session token s = record s {
    sessions = delete (by (λ x. x.token) (sha256_hex token)) s.sessions;
  }

-- The empty text where it is unset.
unfoldable pub get_setting : Text → Store → Text
get_setting key s = elim (first (by (λ x. x.key) key) s.settings) [ none ↦ [] | some x ↦ x.value ]

unfoldable pub replace_setting : Text → Text → Store → Store
replace_setting key value s = elim (first (by (λ x. x.key) key) s.settings) [
  | none ↦ record s { settings = s.settings ++ record { key = key; value = value } ∷ [] }
  | some _ ↦ record s {
    settings = modify (by (λ x. x.key) key) (λ x. record x { value = value }) s.settings;
  }
]

-- An empty value deletes the key.
unfoldable pub set_setting : Text → Text → Store → Store
unfolding replace_setting
set_setting key [] s = record s { settings = delete (by (λ x. x.key) key) s.settings }
set_setting key (c ∷ cs) s = replace_setting key (c ∷ cs) s

pub record StorageStats : Type 0 where
  pub blobs : ℕ
  pub size_raw : ℕ
  pub size_stored : ℕ
  pub snapshots : ℕ

unfoldable pub sum_by : (Blob → ℕ) → List Blob → ℕ
sum_by f [] = 0
sum_by f (b ∷ bs) = f b + sum_by f bs

unfoldable pub stats : Text → Store → StorageStats
unfolding sum_by
stats backend s =
    let rows = select (λ b. text_eq b.backend backend) s.blobs in
    record {
      blobs = length rows;
      size_raw = sum_by (λ b. b.size_raw) rows;
      size_stored = sum_by (λ b. b.size_stored) rows;
      snapshots = length (select (λ sn. text_eq sn.backend backend) s.snapshots);
    }

-- ===== src/Store/Users/Laws.antt =====
-- internal/server/store/store.go: what the statements on settings, users and sessions yield together.
use claude_backup.Prelude.{
  Text, text_eq, text_eq_comm, text_eq_sound, ℕ, ◌≡◌, refl, none, [], ◌∷◌, arith, Bool-cases,
  Option-cases, inl, inr, if◌then◌else◌,
}
use claude_backup.Sql.{first}
use claude_backup.Sql.Keys.{by, first-modify, first-insert, first-delete, first-delete_all}
use claude_backup.Store.{Store, Setting}
use claude_backup.Store.Users.{
  get_setting, set_setting, replace_setting, is_live, session_user, delete_session,
}

-- The table of settings as what it stands for: a text for each key.
abbrev pub settings_of : Store → Text → Text
settings_of s key = get_setting key s

abbrev pub update : (Text → Text) → Text → Text → (Text → Text)
update f key value j = if text_eq j key then value else f j

-- SetSetting is an update of the function from keys to values that GetSetting reads, whatever the
-- table holds: the key reads as the value that was set, also an empty one, and the other keys as
-- before.
pub settings_of-set_setting :
    (key value : Text) (s : Store) (j : Text)
    → settings_of (set_setting key value s) j ≡ update (settings_of s) key value j
unfolding get_setting set_setting replace_setting
settings_of-set_setting key [] s j = elim (Bool-cases (text_eq j key)) [
  | inl same ↦ ground (arith, first-delete (λ x. x.key) j key s.settings)
  | inr other ↦ ground (arith, first-delete (λ x. x.key) j key s.settings)
]
settings_of-set_setting key (c ∷ cs) s j =
    let value : Setting = record { key = key; value = c ∷ cs } in
    elim (Option-cases (first (by (λ x. x.key) key) s.settings)) [
      | inl new ↦
          ground (arith, text_eq_comm j key, first-insert (λ x. x.key) j s.settings value new)
      | inr (x, old) ↦ elim (Bool-cases (text_eq j key)) [
        | inl same ↦ ground (
          arith,
          text_eq_sound j key same,
          old,
          first-modify (λ x. x.key) j key (λ x. record x { value = c ∷ cs }) s.settings
              (λ r m. refl),
        )
        | inr other ↦ ground (
          arith,
          first-modify (λ x. x.key) j key (λ x. record x { value = c ∷ cs }) s.settings
              (λ r m. refl),
        )
      ]
    ]

-- After its deletion a session has no user, whatever the clock.
pub session_user-delete_session :
    (sha256_hex : Text → Text) (token : Text) (now : ℕ) (s : Store)
    → session_user sha256_hex token now (delete_session sha256_hex token s) ≡ none
unfolding session_user delete_session is_live
session_user-delete_session sha256_hex token now s =
    rw
      (
        first-delete_all (by (λ x. x.token) (sha256_hex token)) (is_live sha256_hex token now)
            s.sessions (λ x h. ground arith),
        session_user,
      )
      refl

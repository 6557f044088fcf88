-- ===== src/Agent/Restore.antt =====
-- internal/agent/restore.go: which entries of a manifest a restore writes, and where; with
-- underPrefix of internal/server/manifest.go, which the agent's filter follows.
pub mod Paths
use claude_backup.Prelude.{
  Text, codes, text_eq, ℕ, ◌==◌, Bool, true, false, not, ◌&&◌, ◌||◌, Option, none, some, List, [],
  ◌∷◌, ◌++◌, map, has_prefix, trim_left_slash, trim_slash, trim_space, remove_byte, if◌then◌else◌,
}

-- Whether a path is a prefix, or below it.
abbrev pub is_under : Text → Text → Bool
is_under p pre = text_eq pre [] || text_eq p pre || has_prefix p (pre ++ codes "/")

unfoldable pub any_prefix : Text → List Text → Bool
any_prefix p [] = false
any_prefix p (pre ∷ prefixes) = is_under p (trim_slash pre) || any_prefix p prefixes

-- No prefix stands for all.
unfoldable pub under_prefix : Text → List Text → Bool
under_prefix path [] = true
under_prefix path (pre ∷ prefixes) = any_prefix (trim_left_slash path) (pre ∷ prefixes)

unfoldable pub any_trimmed_prefix : Text → List Text → Bool
any_trimmed_prefix p [] = false
any_trimmed_prefix p (pre ∷ prefixes) =
    is_under p (trim_slash (trim_space pre)) || any_trimmed_prefix p prefixes

unfoldable pub restore_match : Text → List Text → Bool
restore_match path [] = true
restore_match path (pre ∷ prefixes) = any_trimmed_prefix (trim_left_slash path) (pre ∷ prefixes)

-- strings.Contains(s, "..")
unfoldable pub has_dots : Text → Bool
has_dots [] = false
has_dots (c ∷ []) = false
has_dots (c ∷ d ∷ s) = (c == b'.' && d == b'.') || has_dots (d ∷ s)

-- filepath.FromSlash and filepath.Join are those of the system.
module _ (from_slash : Text → Text) (join : Text → Text → Text) where
  -- `none` is an unsafe path.
  unfoldable pub restore_target : Text → Text → Option Text
  restore_target manifest_path [] = some (from_slash manifest_path)
  restore_target manifest_path (c ∷ target_dir) =
      let rel = remove_byte b':' (trim_left_slash manifest_path) in
      if text_eq rel [] || has_dots rel then none else some (join (c ∷ target_dir) (from_slash rel))

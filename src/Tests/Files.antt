-- ===== src/Tests/Files.antt =====
-- The theorems on the paths of a restore, at small paths.
use claude_backup.Prelude.{
  Text, codes, text_eq, ◌≡◌, refl, [], ◌∷◌, ◌++◌, map, remove_byte, trim_left_slash, trim_space,
  drop_while,
}
use claude_backup.Agent.Restore.{restore_match, under_prefix, restore_target, has_dots}
use claude_backup.Agent.Restore.Paths.{Below, restore_match-under_prefix, restore_target-Below}

restore_match-under_prefix_example :
    restore_match (codes "/home/a/b") (codes " home/a " ∷ [])
    ≡ under_prefix (codes "/home/a/b") (map trim_space (codes " home/a " ∷ []))
restore_match-under_prefix_example =
    restore_match-under_prefix (codes "/home/a/b") (codes " home/a " ∷ [])

-- filepath.Join and filepath.FromSlash on Linux, for clean paths
abbrev join : Text → Text → Text
join dir rel = dir ++ (codes "/" ++ rel)

restore_target-Below_example : Below (λ p. p) join (codes "/restored") (codes "/restored/C/a")
unfolding restore_target has_dots text_eq remove_byte trim_left_slash drop_while
restore_target-Below_example =
    restore_target-Below (λ p. p) join (codes "C:/a") (codes "/restored") (codes "/restored/C/a")
      (λ e. cc) refl

-- ===== src/Agent/Scan/Rule.antt =====
-- internal/agent/engine.go: what holds of a scan at each step of the walk holds at its end.
use claude_backup.Prelude.{
  Text, text_eq, ◌≡◌, ◌⊎◌, refl, not, ◌&&◌, List, [], ◌∷◌, inl, inr, Bool-cases, Option-cases,
}
use claude_backup.Agent.Scan.{
  PathLib, Context, is_cancelled, FileInfo, DirEntry, Tree, leaf, node, Scan, Signal, proceed,
  skip_dir, skip_all, count_skipped, Previous, Roots, Step, descend, next, leave, stop, excluded,
  is_pseudo_fs, info_is_dir, visit_info, visit_kind, visit_error, visit, enter, walk, walk_backup,
  scan_paths,
}

Signal-cases : (x : Signal) → (x ≡ proceed) ⊎ ((x ≡ skip_dir) ⊎ (x ≡ skip_all))
Signal-cases proceed = inl refl
Signal-cases skip_dir = inr (inl refl)
Signal-cases skip_all = inr (inr refl)

Step-cases : (x : Step) → ((x ≡ descend) ⊎ (x ≡ next)) ⊎ ((x ≡ leave) ⊎ (x ≡ stop))
Step-cases descend = inl (inl refl)
Step-cases next = inl (inr refl)
Step-cases leave = inr (inl refl)
Step-cases stop = inr (inr refl)

-- A property of what the walk has collected, kept by its three kinds of steps: a look at the context, a
-- path that is skipped with a warning, and an entry that is visited.
pub record ScanRule (lib : PathLib) (excludes : List Text) (prev : Previous) (Inv : Scan → Type 0)
    : Type 0 where
  pub looked : (c : Context) (s : Scan) → Inv s → Inv (record s { ctx = c })
  pub skipped : (s : Scan) → Inv s → Inv (count_skipped s)
  pub visited :
      (path : Text) (i : FileInfo) (s : Scan)
      → Inv s
      → Inv (visit_kind lib excludes prev path i i.kind s)

module _ (lib : PathLib) (excludes : List Text) (prev : Previous) (Inv : Scan → Type 0)
    (rule : ScanRule lib excludes prev Inv) where
  visit_error-Inv : (s : Scan) → Inv s → Inv (visit_error lib excludes prev s).1
  unfolding visit_error
  visit_error-Inv s h = elim (Bool-cases (is_cancelled s.ctx).0) [
    | inl gone ↦ rw (gone, visit_error) (rule.looked _ s h)
    | inr ongoing ↦ rw (ongoing, visit_error) (rule.skipped _ (rule.looked _ s h))
  ]

  visit_info-Inv :
      (root : Text) (e : DirEntry) (i : FileInfo) (s : Scan)
      → Inv s
      → Inv (visit_info lib excludes prev root e i s).1
  visit_info-Inv root e i s h =
      elim (Bool-cases (not (text_eq e.path root) && excluded lib excludes root e.path)) [
        | inl out ↦ rw out h
        | inr within ↦
            elim (Bool-cases
              (info_is_dir lib excludes prev i && not (text_eq e.path root) && is_pseudo_fs e)) [
                | inl pseudo ↦ rw (within, pseudo) h
                | inr real ↦ rw (within, real) (rule.visited e.path i s h)
              ]
      ]

  visit-Inv :
      (root : Text) (e : DirEntry) (s : Scan) → Inv s → Inv (visit lib excludes prev root e s).1
  unfolding visit
  visit-Inv root e s h = elim (Option-cases e.info) [
    | inl failed ↦ rw (failed, visit) (visit_error-Inv s h)
    | inr (i, found) ↦ elim (Bool-cases (is_cancelled s.ctx).0) [
      | inl gone ↦ rw (found, gone, visit) (rule.looked _ s h)
      | inr ongoing ↦ rw (found, ongoing, visit) (visit_info-Inv root e i _ (rule.looked _ s h))
    ]
  ]

  enter-Inv :
      (root : Text) (e : DirEntry) (s : Scan) → Inv s → Inv (enter lib excludes prev root e s).1
  unfolding enter is_pseudo_fs
  enter-Inv root e s h =
      let h' = visit-Inv root e s h in
      elim (Signal-cases (visit lib excludes prev root e s).0) [
        | inr (inr over) ↦ rw (over, enter) h'
        | inr (inl skipped) ↦ rw (skipped, enter) h'
        | inl on ↦ elim (Bool-cases e.is_dir) [
          | inr file ↦ rw (on, file, enter) h'
          | inl dir ↦ elim (Bool-cases e.listed) [
            | inl listed ↦ rw (on, dir, listed, enter) h'
            | inr unread ↦ rw (on, dir, unread, enter) (visit_error-Inv _ h')
          ]
        ]
      ]

  walk-Inv : (root : Text) (t : Tree) (s : Scan) → Inv s → Inv (walk lib excludes prev root t s).1
  unfolding walk
  walk-Inv root leaf s h = h
  walk-Inv root (node e below rest) s h =
      let h' = enter-Inv root e s h in
      let s' = (enter lib excludes prev root e s).1 in
      elim (Step-cases (enter lib excludes prev root e s).0) [
        | inr (inr over) ↦ rw (over, walk) h'
        | inr (inl left) ↦ rw (left, walk) h'
        | inl (inr passed) ↦ rw (passed, walk) (walk-Inv root rest s' h')
        | inl (inl down) ↦
            let h'' = walk-Inv root below s' h' in
            elim (Bool-cases (walk lib excludes prev root below s').0) [
              | inl ended ↦ rw (down, ended, walk) h''
              | inr on ↦ rw (down, on, walk) (walk-Inv root rest _ h'')
            ]
      ]

  walk_backup-Inv :
      (roots : Roots) (root : Text) (s : Scan)
      → Inv s
      → Inv (walk_backup lib excludes prev roots root s)
  unfolding walk_backup
  walk_backup-Inv roots root s h = elim (Option-cases (roots root)) [
    | inl absent ↦ rw (absent, walk_backup) (visit_error-Inv s h)
    | inr (found, there) ↦ rw (there, walk_backup) (walk-Inv root (node found.0 found.1 leaf) s h)
  ]

  -- What a scan is started with, and each step keeps, holds at its end.
  pub scan_paths-Inv :
      (roots : Roots) (paths : List Text) (s : Scan)
      → Inv s
      → Inv (scan_paths lib excludes prev roots paths s)
  unfolding scan_paths
  scan_paths-Inv roots [] s h = h
  scan_paths-Inv roots (path ∷ paths) s h =
      let h' = rule.looked (is_cancelled s.ctx).1 s h in
      elim (Bool-cases (is_cancelled s.ctx).0) [
        | inl gone ↦ rw (gone, scan_paths) h'
        | inr ongoing ↦
            rw (ongoing, scan_paths)
              (scan_paths-Inv roots paths _ (walk_backup-Inv roots (lib.clean path) _ h'))
      ]

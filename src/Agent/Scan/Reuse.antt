-- ===== src/Agent/Scan/Reuse.antt =====
-- internal/agent/engine.go: the hashes that an incremental scan takes over without reading the file.
use claude_backup.Prelude.{
  Text, eqz, eqz_sound, ◌&&◌, ◌≡◌, refl, none, some, List, [], ◌⊎◌, inl, inr, arith, Bool-cases,
  Option-cases,
}
use claude_backup.Sql.Keys.{All, All-snoc}
use claude_backup.Proto.{ManifestEntry}
use claude_backup.Agent.Scan.{
  PathLib, FileInfo, FileKind, symlink, directory, regular, special, Scan, Previous, Roots,
  reused_hash, regular_entry, visit_kind, scan_paths,
}
use claude_backup.Agent.Scan.Rule.{scan_paths-Inv}

-- The entry of the previous manifest at the same path has the size, the time and the hash.
pub record Same (prev : Previous) (e : ManifestEntry) : Type 0 where
  pub earlier : ManifestEntry
  pub found : prev e.path ≡ some earlier
  pub size : earlier.size ≡ e.size
  pub mtime : earlier.mtime ≡ e.mtime
  pub hash : earlier.hash ≡ e.hash

-- An entry has no hash yet, or that of the previous manifest.
abbrev pub Reused : Previous → ManifestEntry → Type 0
Reused prev e = (e.hash ≡ []) ⊎ Same prev e

module _ (lib : PathLib) (excludes : List Text) (prev : Previous) where
  regular_entry-Reused :
      (path : Text) (i : FileInfo) → Reused prev (regular_entry lib excludes prev path i)
  unfolding regular_entry reused_hash
  regular_entry-Reused path i = elim (Option-cases (prev (lib.to_slash path))) [
    | inl new ↦ rw new (inl refl)
    | inr (p, found) ↦ elim (Bool-cases (eqz p.size i.size && eqz p.mtime i.mtime)) [
      | inr changed ↦ rw (found, changed, regular_entry) (inl refl)
      | inl same ↦ inr (record {
        earlier = p;
        found = found;
        size = eqz_sound p.size i.size (ground arith);
        mtime = eqz_sound p.mtime i.mtime (ground arith);
        hash = rw (found, same, regular_entry) refl;
      })
    ]
  ]

  visit_kind-Reused :
      (path : Text) (i : FileInfo) (k : FileKind) (s : Scan)
      → All (Reused prev) s.entries
      → All (Reused prev) (visit_kind lib excludes prev path i k s).entries
  unfolding visit_kind
  visit_kind-Reused path i (symlink none) s h = h
  visit_kind-Reused path i (symlink (some t)) s h = All-snoc (Reused prev) s.entries _ h (inl refl)
  visit_kind-Reused path i directory s h = All-snoc (Reused prev) s.entries _ h (inl refl)
  visit_kind-Reused path i regular s h =
      All-snoc (Reused prev) s.entries _ h (regular_entry-Reused path i)
  visit_kind-Reused path i special s h = h

  -- Whatever the tree of files, an entry that the walk gives a hash has the path, the size, the time and
  -- the hash of an entry of the previous manifest; the others have none.
  pub scan_paths-Reused :
      (roots : Roots) (paths : List Text) (s : Scan)
      → All (Reused prev) s.entries
      → All (Reused prev) (scan_paths lib excludes prev roots paths s).entries
  scan_paths-Reused roots paths s h =
      scan_paths-Inv lib excludes prev (λ s. All (Reused prev) s.entries)
        (record {
          looked = λ c s p. p;
          skipped = λ s p. p;
          visited = λ path i s p. visit_kind-Reused path i i.kind s p;
        })
        roots paths s h

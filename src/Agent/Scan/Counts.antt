-- ===== src/Agent/Scan/Counts.antt =====
-- internal/agent/engine.go: the number of files that a scan reports.
use claude_backup.Prelude.{
  Text, text_eq, ℕ, suc, ◌+◌, ℤ, pos, ◌+ℤ◌, pos_up, ◌≡◌, refl, true, false, none, some, List, [],
  ◌∷◌, ◌++◌, arith, if◌then◌else◌,
}
use claude_backup.Proto.{ManifestEntry}
use claude_backup.Agent.Scan.{
  PathLib, FileInfo, FileKind, symlink, directory, regular, special, Scan, Previous, Roots,
  is_regular, regular_entry, visit_kind, scan_paths,
}
use claude_backup.Agent.Scan.Rule.{scan_paths-Inv}

-- The number of entries of type "f".
unfoldable pub count_files : List ManifestEntry → ℕ
count_files [] = 0
count_files (e ∷ es) = let n = count_files es in if is_regular e then suc n else n

pub count_files-append :
    (xs ys : List ManifestEntry) → count_files (xs ++ ys) ≡ count_files xs + count_files ys
unfolding count_files
count_files-append [] ys = omega arith
count_files-append (x ∷ xs) ys = ground (arith, count_files-append xs ys)

abbrev pub Counted : Scan → Type 0
Counted s = s.stats.files_total ≡ pos (count_files s.entries)

add_file :
    (es : List ManifestEntry) (e : ManifestEntry) (n : ℤ)
    → is_regular e ≡ true
    → n ≡ pos (count_files es)
    → n +ℤ pos 1 ≡ pos (count_files (es ++ e ∷ []))
unfolding count_files
add_file es e n f h = ground (arith, pos_up (count_files es), count_files-append es (e ∷ []))

add_other :
    (es : List ManifestEntry) (e : ManifestEntry) (n : ℤ)
    → is_regular e ≡ false
    → n ≡ pos (count_files es)
    → n ≡ pos (count_files (es ++ e ∷ []))
unfolding count_files
add_other es e n f h = ground (arith, count_files-append es (e ∷ []))

module _ (lib : PathLib) (excludes : List Text) (prev : Previous) where
  visit_kind-Counted :
      (path : Text) (i : FileInfo) (k : FileKind) (s : Scan)
      → Counted s
      → Counted (visit_kind lib excludes prev path i k s)
  unfolding visit_kind regular_entry text_eq
  visit_kind-Counted path i (symlink none) s h = h
  visit_kind-Counted path i (symlink (some t)) s h = add_other s.entries _ _ refl h
  visit_kind-Counted path i directory s h = add_other s.entries _ _ refl h
  visit_kind-Counted path i regular s h = add_file s.entries _ _ refl h
  visit_kind-Counted path i special s h = h

  pub scan_paths-Counted :
      (roots : Roots) (paths : List Text) (s : Scan)
      → Counted s
      → Counted (scan_paths lib excludes prev roots paths s)
  scan_paths-Counted roots paths s h =
      scan_paths-Inv lib excludes prev Counted
        (record {
          looked = λ c s p. p;
          skipped = λ s p. p;
          visited = λ path i s p. visit_kind-Counted path i i.kind s p;
        })
        roots paths s h

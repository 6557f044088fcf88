-- ===== src/Agent/Scan.antt =====
-- internal/agent/engine.go, backup_access_other.go and pseudofs_linux.go: the walk over the paths of
-- a job, and the hash pass. The log and progress messages are not modelled.
pub mod Rule
pub mod Counts
pub mod Reuse
use claude_backup.Prelude.{
  Text, codes, text_eq, ℕ, zero, suc, ℤ, pos, ◌+ℤ◌, ◌-ℤ◌, int64, eqz, ◌==◌, contains, Bool, true,
  false, not, ◌&&◌, ◌||◌, Option, none, some, List, [], ◌∷◌, ◌++◌, trim_space, if◌then◌else◌,
}
use claude_backup.Proto.{ManifestEntry, RunStats, no_stats}
use claude_backup.Storage.{Bytes}

-- What the program uses of `path/filepath`, which is that of the agent's system.
pub record PathLib : Type 0 where
  pub base : Text → Text
  pub rel : Text → Text → Option Text
  pub match : Text → Text → Bool
  pub clean : Text → Text
  pub to_slash : Text → Text
  pub from_slash : Text → Text

-- A context: the number of times that `ctx.Err()` still is nil, or `none` where the run is never
-- cancelled.
abbrev pub Context : Type 0
Context = Option ℕ

-- `ctx.Err() != nil`
unfoldable pub is_cancelled : Context → Bool × Context
is_cancelled none = (false, none)
is_cancelled (some zero) = (true, some zero)
is_cancelled (some (suc n)) = (false, some n)

-- What `info.Mode()` says; `none` is a link that cannot be read.
pub data FileKind : Type 0 where
  symlink : Option Text → FileKind
  directory regular special : FileKind

pub record FileInfo : Type 0 where
  pub kind : FileKind
  pub perm : ℤ
  pub mtime : ℤ
  pub size : ℤ

-- A directory entry as filepath.WalkDir sees it: its path, `d.IsDir()`, the result of `d.Info()`,
-- whether `os.ReadDir` succeeds in it, and the type of the file system that `statfs` reports.
pub record DirEntry : Type 0 where
  pub path : Text
  pub is_dir : Bool
  pub info : Option FileInfo
  pub listed : Bool
  pub fs_type : Option ℕ

-- The entries of one directory in lexical order, each with its own entries.
pub data Tree : Type 0 where
  leaf : Tree
  node : DirEntry → Tree → Tree → Tree

abbrev contains_sep : Text → Bool
contains_sep [] = false
contains_sep (c ∷ s) = (c == b'/' || c == b'\\') || contains_sep s

module _ (lib : PathLib) where
  abbrev pub matches_pattern : Text → Option Text → Text → Bool
  matches_pattern base none pat = not (contains_sep pat) && lib.match pat base
  matches_pattern base (some rel) pat =
      if contains_sep pat
      then not (text_eq (lib.to_slash rel) []) && lib.match (lib.to_slash pat) (lib.to_slash rel)
      else lib.match pat base

  unfoldable pub excluded_by : List Text → Text → Option Text → Bool
  excluded_by [] base rel = false
  excluded_by (pat ∷ pats) base rel =
      (not (text_eq (trim_space pat) []) && matches_pattern base rel (trim_space pat))
      || excluded_by pats base rel

  unfoldable pub excluded : List Text → Text → Text → Bool
  unfolding excluded_by
  excluded patterns root path = excluded_by patterns (lib.base path) (lib.rel root path)

-- pseudoFSMagic
abbrev pub pseudo_fs_magic : List ℕ
pseudo_fs_magic =
    40864 ∷ 1650812274 ∷ 7377 ∷ 2613483 ∷ 1667723888 ∷ 1684170528 ∷ 1953653091 ∷ 1935894131
    ∷ 3405662737 ∷ 427819522 ∷ 1112100429 ∷ 1634035564 ∷ 1853056627 ∷ 40866 ∷ 288389204 ∷ 1819242352
    ∷ []

abbrev pub is_magic : ℕ → List ℕ → Bool
is_magic m [] = false
is_magic m (n ∷ ns) = m == n || is_magic m ns

unfoldable pub is_pseudo_fs : DirEntry → Bool
is_pseudo_fs e = elim e.fs_type [ none ↦ false | some m ↦ is_magic m pseudo_fs_magic ]

-- e.Type == "f"
abbrev pub is_regular : ManifestEntry → Bool
is_regular e = text_eq e.type (codes "f")

-- What the walk collects.
pub record Scan : Type 0 where
  pub entries : List ManifestEntry
  pub stats : RunStats
  pub ctx : Context

-- What the callback returns: nil, fs.SkipDir or filepath.SkipAll.
pub data Signal : Type 0 where
  proceed skip_dir skip_all : Signal

-- What filepath.WalkDir does after an entry: go below it, on to the next, leave the directory, or
-- end.
pub data Step : Type 0 where
  descend next leave stop : Step

abbrev after_listing : Signal → Step
after_listing skip_all = stop
after_listing skip_dir = next
after_listing proceed = descend

abbrev pub count_skipped : Scan → Scan
count_skipped s = record s {
  stats = record s.stats { files_skipped = s.stats.files_skipped +ℤ pos 1 };
}

abbrev pub add_entry : ManifestEntry → Scan → Scan
add_entry e s = record s { entries = s.entries ++ e ∷ [] }

abbrev pub count_file : ℤ → Scan → Scan
count_file size s = record s {
  stats = record s.stats {
    files_total = s.stats.files_total +ℤ pos 1;
    bytes_total = int64 (s.stats.bytes_total +ℤ size);
  };
}

-- The previous manifest, by path.
abbrev pub Previous : Type 0
Previous = Text → Option ManifestEntry

-- The hash of an earlier entry of the same size and time, or the empty text.
unfoldable pub reused_hash : Option ManifestEntry → ℤ → ℤ → Text
reused_hash none size mtime = []
reused_hash (some p) size mtime = if eqz p.size size && eqz p.mtime mtime then p.hash else []

module _ (lib : PathLib) (excludes : List Text) (prev : Previous) where
  abbrev manifest_entry : Text → FileInfo → Text → Text → ManifestEntry
  manifest_entry path i type target = record {
    type = type;
    path = lib.to_slash path;
    size = pos 0;
    mode = i.perm;
    mtime = i.mtime;
    hash = [];
    target = target;
  }

  unfoldable pub regular_entry : Text → FileInfo → ManifestEntry
  regular_entry path i = record (manifest_entry path i (codes "f") []) {
    size = i.size;
    hash = reused_hash (prev (lib.to_slash path)) i.size i.mtime;
  }

  unfoldable pub visit_kind : Text → FileInfo → FileKind → Scan → Scan
  unfolding regular_entry
  visit_kind path i (symlink none) s = count_skipped s
  visit_kind path i (symlink (some target)) s =
      add_entry (manifest_entry path i (codes "l") target) s
  visit_kind path i directory s = add_entry (manifest_entry path i (codes "d") []) s
  visit_kind path i regular s = add_entry (regular_entry path i) (count_file i.size s)
  visit_kind path i special s = s

  abbrev info_is_dir : FileInfo → Bool
  info_is_dir i = elim i.kind [ directory ↦ true | _ ↦ false ]

  abbrev visit_info : Text → DirEntry → FileInfo → Scan → Signal × Scan
  visit_info root e i s =
      let below = not (text_eq e.path root) in
      if below && excluded lib excludes root e.path
      then (if info_is_dir i then skip_dir else proceed, s)
      else if info_is_dir i && below && is_pseudo_fs e
      then (skip_dir, s)
      else (proceed, visit_kind e.path i i.kind s)

  -- The callback, called with an error and no info.
  unfoldable pub visit_error : Scan → Signal × Scan
  visit_error s =
      let (gone, c) = is_cancelled s.ctx in
      let s' = record s { ctx = c } in if gone then (skip_all, s') else (proceed, count_skipped s')

  -- The callback.
  unfoldable pub visit : Text → DirEntry → Scan → Signal × Scan
  unfolding visit_error visit_kind
  visit root e s = elim e.info [
    | none ↦ visit_error s
    | some i ↦
        let (gone, c) = is_cancelled s.ctx in
        let s' = record s { ctx = c } in if gone then (skip_all, s') else visit_info root e i s'
  ]

  unfoldable pub enter : Text → DirEntry → Scan → Step × Scan
  unfolding visit visit_error
  enter root e s =
      let (signal, s') = visit root e s in
      elim signal [
        | skip_all ↦ (stop, s')
        | skip_dir ↦ (if e.is_dir then next else leave, s')
        | proceed ↦
            if not e.is_dir
            then (next, s')
            else if e.listed
            then (descend, s')
            else let (signal', s'') = visit_error s' in (after_listing signal', s'')
      ]

  -- The walk over the entries of one directory, and whether it ended.
  unfoldable pub walk : Text → Tree → Scan → Bool × Scan
  unfolding enter
  walk root leaf s = (false, s)
  walk root (node e below rest) s =
      let (step, s') = enter root e s in
      elim step [
        | stop ↦ (true, s')
        | leave ↦ (false, s')
        | next ↦ walk root rest s'
        | descend ↦
            let (ended, s'') = walk root below s' in
            elim ended [ true ↦ (true, s'') | false ↦ walk root rest s'' ]
      ]

-- Where a job's paths lead: the entry of a path with what is below it, or no entry.
abbrev pub Roots : Type 0
Roots = Text → Option (DirEntry × Tree)

module _ (lib : PathLib) (excludes : List Text) (prev : Previous) (roots : Roots) where
  -- walkBackup, which never fails: the callback returns no other error.
  unfoldable pub walk_backup : Text → Scan → Scan
  unfolding walk visit_error
  walk_backup root s = elim (roots root) [
    | none ↦ (visit_error lib excludes prev s).1
    | some (e, below) ↦ (walk lib excludes prev root (node e below leaf) s).1
  ]

  unfoldable pub scan_paths : List Text → Scan → Scan
  unfolding walk_backup
  scan_paths [] s = s
  scan_paths (path ∷ paths) s =
      let (gone, c) = is_cancelled s.ctx in
      let s' = record s { ctx = c } in
      elim gone [ true ↦ s' | false ↦ scan_paths paths (walk_backup (lib.clean path) s') ]

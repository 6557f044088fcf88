-- ===== src/Agent/Backup.antt =====
-- internal/agent/engine.go: a backup run from the command of the server to its report.
pub mod Committed
pub mod Stopped
pub mod Site
use claude_backup.Prelude.{
  Text, text_eq, ℤ, ◌+ℤ◌, pos, is_pos, Bool, true, false, Option, none, some, List, [], ◌∷◌, ◌⊎◌,
  inl, inr, if◌then◌else◌,
}
use claude_backup.Proto.{
  Job, ManifestEntry, RunStats, RunDone, Status, success, partial, error, cancelled, no_stats,
  mode_incremental,
}
use claude_backup.Storage.{Bytes}
use claude_backup.Server.Gc.{Codec}
use claude_backup.Agent.Scan.{Context, is_cancelled, PathLib, Scan, Previous, scan_paths}
use claude_backup.Agent.Upload.{
  RunError, run_cancelled, run_failed, Commit, World, Pass, Checked, hash_entries, upload_missing,
}

pub record RunBackup : Type 0 where
  pub run_id : Text
  pub job : Job
  pub mode : Text
  pub prev_snapshot_id : Text

-- `out[e.Path] = e`
unfoldable pub put_entry : Option ManifestEntry → Previous → Previous
put_entry none prev path = prev path
put_entry (some e) prev path =
    if text_eq e.path [] then prev path else if text_eq e.path path then some e else prev path

-- What a run returns, with the context and the world after it.
pub record RunEnd (W : Type 0) : Type 0 where
  pub stats : RunStats
  pub result : RunError ⊎ Text
  pub ctx : Context
  pub world : W

module _ (codec : Codec) where
  unfoldable pub read_lines : List Text → Previous → Previous
  unfolding put_entry
  read_lines [] prev = prev
  read_lines (line ∷ lines) prev = read_lines lines (put_entry (codec.entry line) prev)

  -- readManifestStream, which skips a line that does not decode and stops at a read error.
  unfoldable pub read_manifest : Bytes → Previous
  unfolding read_lines
  read_manifest b = read_lines (codec.lines b).0 (λ path. none)

module _ {W : Type 0} (host : World W) (lib : PathLib) (codec : Codec) where
  unfoldable pub load_prev_manifest : Text → Text → W → Previous × W
  unfolding read_manifest
  load_prev_manifest job_id prev_id w = elim (host.cached_manifest job_id w) [
    | some b ↦ (read_manifest codec b, w)
    | none ↦ elim (text_eq prev_id []) [
      | true ↦ ((λ path. none), w)
      | false ↦
          let (content, w') = host.get_manifest prev_id w in
          (elim content [ none ↦ (λ path. none) | some b ↦ read_manifest codec b ], w')
    ]
  ]

  unfoldable pub scan : RunBackup → Previous → Context → W → Pass W
  unfolding scan_paths hash_entries
  scan cmd prev c w =
      let s =
        scan_paths lib cmd.job.excludes prev (host.roots w) cmd.job.paths
          (record { entries = []; stats = no_stats; ctx = c }) in
      hash_entries host lib s.entries s.stats s.ctx w

  -- The manifest is committed with the counts that are given.
  unfoldable pub commit_manifest :
      RunBackup → RunStats → List ManifestEntry → W → (RunError ⊎ Text) × W
  commit_manifest cmd scanned entries w =
      let (body, w1) = host.write_manifest entries w in
      let request : Commit = record {
        job_id = cmd.job.id;
        run_id = cmd.run_id;
        mode = cmd.mode;
        files = scanned.files_total;
        bytes = scanned.bytes_total;
      } in
      elim body [
        | none ↦ (inl run_failed, w1)
        | some b ↦
            let (answer, w2) = host.commit_snapshot request b w1 in
            elim answer [
              | inl e ↦ (inl e, w2)
              | inr id ↦ (inr id, host.cache_manifest cmd.job.id b w2)
            ]
      ]

  abbrev stopped : RunError → Pass W → RunEnd W
  stopped e p = record { stats = p.stats; result = inl e; ctx = p.ctx; world = p.world }

  -- The manifest has the counts of the scan.
  unfoldable pub commit_checked : RunBackup → RunStats → Pass W → RunEnd W
  unfolding commit_manifest
  commit_checked cmd scanned p =
      let (gone, c) = is_cancelled p.ctx in
      elim gone [
        | true ↦ stopped run_cancelled (record p { ctx = c })
        | false ↦
            let (answer, w) = commit_manifest cmd scanned p.kept p.world in
            record { stats = p.stats; result = answer; ctx = c; world = w }
      ]

  unfoldable pub upload_and_commit : RunBackup → Pass W → RunEnd W
  unfolding upload_missing commit_checked
  upload_and_commit cmd p =
      let (gone, c) = is_cancelled p.ctx in
      let p' = record p { ctx = c } in
      elim gone [
        | true ↦ stopped run_cancelled p'
        | false ↦
            let checked = upload_missing host lib p' in
            elim checked.outcome [
              | some e ↦ stopped e checked.pass
              | none ↦ commit_checked cmd p.stats checked.pass
            ]
      ]

  -- Between the hooks.
  unfoldable pub back_up : RunBackup → Context → W → RunEnd W
  unfolding load_prev_manifest scan upload_and_commit
  back_up cmd c w = elim (text_eq cmd.mode mode_incremental) [
    | true ↦
        let (prev, w') = load_prev_manifest cmd.job.id cmd.prev_snapshot_id w in
        upload_and_commit cmd (scan cmd prev c w')
    | false ↦ upload_and_commit cmd (scan cmd (λ path. none) c w)
  ]

  abbrev pub hook : Text → W → Bool × W
  hook [] w = (true, w)
  hook (c ∷ command) w = host.run_hook (c ∷ command) w

  -- The post hook runs where the pre hook did not fail; its own failure changes nothing.
  unfoldable pub do_backup : RunBackup → Context → W → RunEnd W
  unfolding back_up
  do_backup cmd c w =
      let (passed, w1) = hook cmd.job.pre_hook w in
      elim passed [
        | false ↦ record { stats = no_stats; result = inl run_failed; ctx = c; world = w1 }
        | true ↦
            let end = back_up cmd c w1 in
            record end { world = (hook cmd.job.post_hook end.world).1 }
      ]

  abbrev status_of_end : RunError ⊎ Text → RunStats → Status
  status_of_end (inl run_cancelled) st = cancelled
  status_of_end (inl run_failed) st = error
  status_of_end (inr id) st = if is_pos st.files_skipped then partial else success

  abbrev snapshot_of_end : RunError ⊎ Text → Text
  snapshot_of_end (inl e) = []
  snapshot_of_end (inr id) = id

  abbrev error_of_end : RunError ⊎ Text → W → Text
  error_of_end (inl run_cancelled) w = []
  error_of_end (inl run_failed) w = host.error_text w
  error_of_end (inr id) w = []

  -- The report, with the time that the run took.
  unfoldable pub run_backup : RunBackup → ℤ → Context → W → RunDone × W
  unfolding do_backup
  run_backup cmd duration c w =
      let end = do_backup cmd c w in
      (
        record {
          run_id = cmd.run_id;
          status = status_of_end end.result end.stats;
          snapshot_id = snapshot_of_end end.result;
          stats = record end.stats { duration_ms = duration };
          error = error_of_end end.result end.world;
        },
        end.world,
      )

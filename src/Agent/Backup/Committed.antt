-- ===== src/Agent/Backup/Committed.antt =====
-- internal/agent/engine.go: what a run that commits a snapshot has put in it.
use claude_backup.Prelude.{
  Text, text_eq, pos, ◌≡◌, refl, false, none, some, List, [], inl, inr, arith, Bool-cases,
  Option-cases, Sum-cases,
}
use mathlib.Core.Path.{◌∙◌, ap}
use claude_backup.Proto.{ManifestEntry, RunStats, no_stats, mode_incremental}
use claude_backup.Storage.{Bytes}
use claude_backup.Server.Gc.{Codec}
use claude_backup.Agent.Scan.{PathLib, Context, is_cancelled, Previous, scan_paths}
use claude_backup.Agent.Scan.Counts.{count_files, scan_paths-Counted}
use claude_backup.Agent.Upload.{Commit, World, Pass, upload_missing}
use claude_backup.Agent.Upload.Hashed.{Hashed, hash_entries-Hashed}
use claude_backup.Agent.Upload.Counts.{Counts, hash_entries-Counts, upload_missing-Counts}
use claude_backup.Agent.Upload.Available.{BlobLaws, AllHeld, upload_missing-AllHeld}
use claude_backup.Agent.Backup.{
  RunBackup, RunEnd, load_prev_manifest, scan, commit_manifest, commit_checked, upload_and_commit,
  back_up, hook, do_backup,
}

module _ {W : Type 0} (host : World W) (Held : Text → W → Type 0) where
  -- The server accepted, under an id and in the world `before`, a manifest for the job and the run of
  -- a command. It has these entries, of which every file is `Held`; the report counts these files.
  pub record CommittedRun (cmd : RunBackup) (id : Text) (end : RunEnd W) : Type 0 where
    pub entries : List ManifestEntry
    pub before : W
    pub body : Bytes
    pub request : Commit
    pub job : request.job_id ≡ cmd.job.id
    pub run : request.run_id ≡ cmd.run_id
    pub mode : request.mode ≡ cmd.mode
    pub encoded : (host.write_manifest entries before).0 ≡ some body
    pub accepted :
        (host.commit_snapshot request body (host.write_manifest entries before).1).0 ≡ inr id
    pub held : AllHeld Held entries before
    pub counted : end.stats.files_total ≡ pos (count_files entries)
    pub ended :
        end.world
        ≡ host.cache_manifest cmd.job.id body
            (host.commit_snapshot request body (host.write_manifest entries before).1).1

module _ {W : Type 0} (host : World W) (lib : PathLib) (codec : Codec) (Held : Text → W → Type 0)
    (laws : BlobLaws host Held) where
  commit_checked-CommittedRun :
      (cmd : RunBackup) (st : RunStats) (p : Pass W) (id : Text)
      → AllHeld Held p.kept p.world
      → Counts 0 p.kept p.stats
      → (commit_checked host lib codec cmd st p).result ≡ inr id
      → CommittedRun host Held cmd id (commit_checked host lib codec cmd st p)
  unfolding commit_checked commit_manifest count_files
  commit_checked-CommittedRun cmd st p id held counted done =
      elim (Bool-cases (is_cancelled p.ctx).0) [
        | inl gone ↦ absurd (ground arith)
        | inr ongoing ↦ elim (Option-cases (host.write_manifest p.kept p.world).0) [
          | inl lost ↦ absurd (ground arith)
          | inr (b, written) ↦
              let w1 = (host.write_manifest p.kept p.world).1 in
              let request : Commit = record {
                job_id = cmd.job.id;
                run_id = cmd.run_id;
                mode = cmd.mode;
                files = st.files_total;
                bytes = st.bytes_total;
              } in
              elim (Sum-cases (host.commit_snapshot request b w1).0) [
                | inl (e, refused) ↦ absurd (ground arith)
                | inr (i, accepted) ↦
                    let same : i ≡ id = ground arith in
                    record {
                      entries = p.kept;
                      before = p.world;
                      body = b;
                      request = request;
                      job = refl;
                      run = refl;
                      mode = refl;
                      encoded = written;
                      accepted = accepted ∙ ap inr same;
                      held = held;
                      counted = rw (ongoing, commit_checked) (counted ∙ ap pos (omega arith));
                      ended = rw (ongoing, written, accepted, commit_checked, commit_manifest) refl;
                    }
              ]
        ]
      ]

  upload_and_commit-CommittedRun :
      (cmd : RunBackup) (p : Pass W) (id : Text)
      → ((is_cancelled p.ctx).0 ≡ false → Hashed p.kept)
      → Counts 0 p.kept p.stats
      → (upload_and_commit host lib codec cmd p).result ≡ inr id
      → CommittedRun host Held cmd id (upload_and_commit host lib codec cmd p)
  unfolding upload_and_commit
  upload_and_commit-CommittedRun cmd p id hashed counted done =
      elim (Bool-cases (is_cancelled p.ctx).0) [
        | inl gone ↦ absurd (ground arith)
        | inr ongoing ↦
            let p' : Pass W = record p { ctx = (is_cancelled p.ctx).1 } in
            elim (Option-cases (upload_missing host lib p').outcome) [
              | inr (e, lost) ↦ absurd (ground arith)
              | inl fine ↦
                  rw (ongoing, fine, upload_and_commit)
                    (commit_checked-CommittedRun cmd p.stats _ id
                      (upload_missing-AllHeld host lib Held laws p' (hashed ongoing) fine)
                      (upload_missing-Counts host lib p' counted)
                      (rw (ongoing, fine, upload_and_commit) at done))
            ]
      ]

  scan-CommittedRun :
      (cmd : RunBackup) (prev : Previous) (c : Context) (w : W) (id : Text)
      → (upload_and_commit host lib codec cmd (scan host lib codec cmd prev c w)).result ≡ inr id
      → CommittedRun host Held cmd id
          (upload_and_commit host lib codec cmd (scan host lib codec cmd prev c w))
  unfolding scan count_files
  scan-CommittedRun cmd prev c w id =
      let s =
        scan_paths lib cmd.job.excludes prev (host.roots w) cmd.job.paths
          (record { entries = []; stats = no_stats; ctx = c }) in
      upload_and_commit-CommittedRun cmd _ id
        (hash_entries-Hashed host lib laws.hash_named s.entries s.stats s.ctx w)
        (hash_entries-Counts host lib 0 s.entries s.stats s.ctx w (
          scan_paths-Counted lib cmd.job.excludes prev (host.roots w) cmd.job.paths
            (record { entries = []; stats = no_stats; ctx = c }) refl
          ∙ ap pos (omega arith)))

  -- A run that ends with a snapshot has committed a manifest of which the server has the blob of every
  -- file, and reports as many files as that manifest has.
  pub back_up-CommittedRun :
      (cmd : RunBackup) (c : Context) (w : W) (id : Text)
      → (back_up host lib codec cmd c w).result ≡ inr id
      → CommittedRun host Held cmd id (back_up host lib codec cmd c w)
  unfolding back_up
  back_up-CommittedRun cmd c w id done = elim (Bool-cases (text_eq cmd.mode mode_incremental)) [
    | inl incremental ↦
        rw (incremental, back_up)
          (scan-CommittedRun cmd
            (load_prev_manifest host lib codec cmd.job.id cmd.prev_snapshot_id w).0 c _ id
            (rw (incremental, back_up) at done))
    | inr full ↦
        rw (full, back_up)
          (scan-CommittedRun cmd (λ path. none) c w id (rw (full, back_up) at done))
  ]

  -- A run that returns a snapshot id has committed, before its post hook, a manifest for its job and
  -- its run that the server accepted under that id: at the time of the commit the server had the blob of
  -- every file in it, and the run reports as many files as it has. This supposes that the server
  -- answers a check with the hashes of it that it does not have, and keeps a blob through a check, and
  -- that no content has an empty hash.
  pub do_backup-CommittedRun :
      (cmd : RunBackup) (c : Context) (w : W) (id : Text)
      → (do_backup host lib codec cmd c w).result ≡ inr id
      → (end : RunEnd W) × CommittedRun host Held cmd id end
        × ((do_backup host lib codec cmd c w).stats ≡ end.stats)
        × ((do_backup host lib codec cmd c w).world
            ≡ (hook host lib codec cmd.job.post_hook end.world).1)
  unfolding do_backup
  do_backup-CommittedRun cmd c w id done =
      let w1 = (hook host lib codec cmd.job.pre_hook w).1 in
      elim (Bool-cases (hook host lib codec cmd.job.pre_hook w).0) [
        | inr lost ↦ absurd (ground arith)
        | inl passed ↦ (
          back_up host lib codec cmd c w1,
          back_up-CommittedRun cmd c w1 id (rw (passed, do_backup) at done),
          rw (passed, do_backup) refl,
          rw (passed, do_backup) refl,
        )
      ]

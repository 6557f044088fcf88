-- ===== src/Agent/Backup/Stopped.antt =====
-- internal/agent/engine.go: what a run that stops without a snapshot has left alone.
use claude_backup.Prelude.{
  Text, text_eq, ◌≡◌, refl, some, List, [], ◌∷◌, ◌⊎◌, inl, inr, arith, Bool-cases, Option-cases,
  Sum-cases,
}
use mathlib.Core.Path.{◌∙◌, ap}
use claude_backup.Proto.{RunStats, mode_incremental, ManifestEntry}
use claude_backup.Storage.{Bytes}
use claude_backup.Server.Gc.{Codec}
use claude_backup.Agent.Scan.{PathLib, Context, is_cancelled}
use claude_backup.Agent.Upload.Keeps.{Keeps, hash_entries-P, upload_missing-P}
use claude_backup.Agent.Upload.{RunError, Commit, World, Pass, upload_missing}
use claude_backup.Agent.Backup.{
  RunBackup, load_prev_manifest, scan, commit_manifest, commit_checked, upload_and_commit, back_up,
  hook, do_backup,
}

-- The run's own commit was refused with the error: its manifest was written in a world where `P`
-- held, the request was of the run and its job, and what the run has left is what this request and
-- then `rest` have made of that world.
pub record CommitFailed {W : Type 0} (host : World W) (P : W → Type 0) (cmd : RunBackup)
    (e : RunError) (rest : W → W) (final : W) : Type 0 where
  pub request : Commit
  pub of_job : request.job_id ≡ cmd.job.id
  pub of_run : request.run_id ≡ cmd.run_id
  pub of_mode : request.mode ≡ cmd.mode
  pub entries : List ManifestEntry
  pub at : W
  pub body : Bytes
  pub before : W
  pub written : host.write_manifest entries at ≡ (some body, before)
  pub kept : P before
  pub refused : (host.commit_snapshot request body before).0 ≡ inl e
  pub left : final ≡ rest (host.commit_snapshot request body before).1

module _ {W : Type 0} (host : World W) (lib : PathLib) (codec : Codec) (P : W → Type 0)
    (keeps : Keeps host P) where
  hook-P : (command : Text) (w : W) → P w → P (hook host lib codec command w).1
  hook-P [] w h = h
  hook-P (c ∷ command) w h = keeps.run_hook (c ∷ command) w h

  commit_checked-P :
      (cmd : RunBackup) (st : RunStats) (p : Pass W) (e : RunError)
      → P p.world
      → (commit_checked host lib codec cmd st p).result ≡ inl e
      → P (commit_checked host lib codec cmd st p).world
        ⊎ CommitFailed host P cmd e (λ v. v) (commit_checked host lib codec cmd st p).world
  unfolding commit_checked commit_manifest
  commit_checked-P cmd st p e h r = elim (Bool-cases (is_cancelled p.ctx).0) [
    | inl gone ↦ rw (gone, commit_checked) (inl h)
    | inr ongoing ↦
        let h' = keeps.write_manifest p.kept p.world h in
        elim (Option-cases (host.write_manifest p.kept p.world).0) [
          | inl lost ↦ rw (ongoing, lost, commit_checked, commit_manifest) (inl h')
          | inr (b, written) ↦
              let w1 = (host.write_manifest p.kept p.world).1 in
              let request : Commit = record {
                job_id = cmd.job.id;
                run_id = cmd.run_id;
                mode = cmd.mode;
                files = st.files_total;
                bytes = st.bytes_total;
              } in
              elim (Sum-cases (host.commit_snapshot request b w1).0) [
                | inr (id, accepted) ↦ absurd (ground arith)
                | inl (e', refused) ↦
                    let same : e' ≡ e = ground arith in
                    rw (ongoing, written, refused, commit_checked, commit_manifest)
                      (inr (record {
                        request = request;
                        of_job = refl;
                        of_run = refl;
                        of_mode = refl;
                        entries = p.kept;
                        at = p.world;
                        body = b;
                        before = w1;
                        written = ap (λ o. (o, w1)) written;
                        kept = h';
                        refused = refused ∙ ap inl same;
                        left = refl;
                      }))
              ]
        ]
  ]

  upload_and_commit-P :
      (cmd : RunBackup) (p : Pass W) (e : RunError)
      → P p.world
      → (upload_and_commit host lib codec cmd p).result ≡ inl e
      → P (upload_and_commit host lib codec cmd p).world
        ⊎ CommitFailed host P cmd e (λ v. v) (upload_and_commit host lib codec cmd p).world
  unfolding upload_and_commit
  upload_and_commit-P cmd p e h r = elim (Bool-cases (is_cancelled p.ctx).0) [
    | inl gone ↦ rw (gone, upload_and_commit) (inl h)
    | inr ongoing ↦
        let p' : Pass W = record p { ctx = (is_cancelled p.ctx).1 } in
        let h' = upload_missing-P host lib P keeps p' h in
        elim (Option-cases (upload_missing host lib p').outcome) [
          | inr (e', lost) ↦ rw (ongoing, lost, upload_and_commit) (inl h')
          | inl fine ↦
              rw (ongoing, fine, upload_and_commit)
                (commit_checked-P cmd p.stats _ e h' (rw (ongoing, fine, upload_and_commit) at r))
        ]
  ]

  load_prev_manifest-P :
      (job_id prev_id : Text) (w : W)
      → P w
      → P (load_prev_manifest host lib codec job_id prev_id w).1
  unfolding load_prev_manifest
  load_prev_manifest-P job_id prev_id w h = elim (Option-cases (host.cached_manifest job_id w)) [
    | inr (b, cached) ↦ rw (cached, load_prev_manifest) h
    | inl absent ↦ elim (Bool-cases (text_eq prev_id [])) [
      | inl first_run ↦ rw (absent, first_run, load_prev_manifest) h
      | inr known ↦ rw (absent, known, load_prev_manifest) (keeps.get_manifest prev_id w h)
    ]
  ]

  back_up-P :
      (cmd : RunBackup) (c : Context) (w : W) (e : RunError)
      → P w
      → (back_up host lib codec cmd c w).result ≡ inl e
      → P (back_up host lib codec cmd c w).world
        ⊎ CommitFailed host P cmd e (λ v. v) (back_up host lib codec cmd c w).world
  unfolding back_up scan
  back_up-P cmd c w e h r = elim (Bool-cases (text_eq cmd.mode mode_incremental)) [
    | inl incremental ↦
        rw (incremental, back_up)
          (upload_and_commit-P cmd _ e
            (hash_entries-P host lib P keeps _ _ _ _
              (load_prev_manifest-P cmd.job.id cmd.prev_snapshot_id w h))
            (rw (incremental, back_up) at r))
    | inr full ↦
        rw (full, back_up)
          (upload_and_commit-P cmd _ e (hash_entries-P host lib P keeps _ _ _ w h)
            (rw (full, back_up) at r))
  ]

  -- A run that ends with an error, cancelled or not, has kept every property of the world that the
  -- calls other than a commit keep; or its own commit, of its job, run and mode, was refused with that
  -- error in a world that has the property, and what the run leaves is what that one request and the
  -- post hook made of that world.
  pub do_backup-Stopped :
      (cmd : RunBackup) (c : Context) (w : W) (e : RunError)
      → P w
      → (do_backup host lib codec cmd c w).result ≡ inl e
      → P (do_backup host lib codec cmd c w).world
        ⊎ CommitFailed host P cmd e
            (λ v. (hook host lib codec cmd.job.post_hook v).1)
            (do_backup host lib codec cmd c w).world
  unfolding do_backup
  do_backup-Stopped cmd c w e h r =
      let w1 = (hook host lib codec cmd.job.pre_hook w).1 in
      let h1 = hook-P cmd.job.pre_hook w h in
      elim (Bool-cases (hook host lib codec cmd.job.pre_hook w).0) [
        | inr lost ↦ rw (lost, do_backup) (inl h1)
        | inl passed ↦ elim (back_up-P cmd c w1 e h1 (rw (passed, do_backup) at r)) [
          | inl kept ↦ rw (passed, do_backup) (inl (hook-P cmd.job.post_hook _ kept))
          | inr f ↦
              rw (passed, do_backup)
                (inr (record {
                  request = f.request;
                  of_job = f.of_job;
                  of_run = f.of_run;
                  of_mode = f.of_mode;
                  entries = f.entries;
                  at = f.at;
                  body = f.body;
                  before = f.before;
                  written = f.written;
                  kept = f.kept;
                  refused = f.refused;
                  left = ap (λ v. (hook host lib codec cmd.job.post_hook v).1) f.left;
                }))
        ]
      ]

-- ===== src/Tests/Backup.antt =====
-- The theorems on the backup runs of an agent, at a small tree of files.
use claude_backup.Prelude.{
  Text, codes, text_eq, Option, ◌++◌, trim_space, drop_spaces, ℕ, suc, pos, ◌≡◌, refl, Bool, true,
  false, none, some, List, [], ◌∷◌, ◌⊎◌, inl, inr,
}
use claude_backup.Sql.Keys.{All}
use claude_backup.Sql.{select, first}
use claude_backup.Proto.{Job, no_stats}
use claude_backup.Server.{Server}
use claude_backup.Prelude.{contains}
use claude_backup.Agent.Scan.{
  is_cancelled, excluded, reused_hash, PathLib, FileKind, regular, directory, DirEntry, leaf, node,
  Roots, Scan, scan_paths, Previous,
}
use claude_backup.Agent.Scan.Reuse.{Reused, scan_paths-Reused}
use claude_backup.Agent.Upload.{RunError, run_failed, run_cancelled, World, check_all_blobs}
use claude_backup.Agent.Upload.Batches.{check_all_blobs-total, check_all_blobs-check_blobs}
use claude_backup.Agent.Backup.{RunBackup, hook, do_backup}
use claude_backup.Agent.Backup.Site.{
  Site, Surroundings, site, check_blobs, put_blob, commit_snapshot,
}
use claude_backup.Agent.Backup.Site.Restorable.{Restorable}
use claude_backup.Agent.Backup.Stopped.{CommitFailed, do_backup-Stopped}
use claude_backup.Agent.Config.{LocalConfig, yaml_from_proto, sync_now, apply_server_jobs}
use claude_backup.Agent.Config.Settled.{sync_now-apply_server_jobs}
use claude_backup.Agent.SchedTrigger.{
  ScheduleSpec, build_trigger_script, weekly, timed, weekday_list, add_days, look_up, to_lower,
  joined, daily_time, decimal, digits, parse_time_of_day, time_of_day, match, until_colon, atoi,
}
use claude_backup.Agent.SchedTasks.{
  SchedAction, build_action_script, task_script, has_newline, set_schedule, with_trigger, task_ref,
}
use claude_backup.Agent.SchedTasks.Lexer.{start, outside, no_typographic}
use claude_backup.Agent.SchedTasks.Literals.{outside-build_action_script}
use claude_backup.Tests.{alice, job_of, server_of, store_of, one_line, file_of}

-- The functions of `filepath` on Linux, for clean paths and no pattern.
abbrev unix : PathLib
unix = record {
  base = λ p. p;
  rel = λ root p. some p;
  match = text_eq;
  clean = λ p. p;
  to_slash = λ p. p;
  from_slash = λ p. p;
}

abbrev entry_of : Text → FileKind → Bool → DirEntry
entry_of path kind is_dir = record {
  path = path;
  is_dir = is_dir;
  info = some (record { kind = kind; perm = pos 420; mtime = pos 1; size = pos 3 });
  listed = true;
  fs_type = none;
}

-- A directory with one file.
abbrev home : Roots
home path = some (
  entry_of (codes "/home") directory true,
  node (entry_of (codes "/home/a") regular false) leaf leaf,
)

abbrev a_hash : Text
a_hash = codes "aaaaaaaaaaaaaaaaaaaaaaaaaaaaaaaaaaaaaaaaaaaaaaaaaaaaaaaaaaaaaaaa"

-- Nothing is lost, and the server does nothing else.
abbrev calm : Surroundings
calm = record {
  opens = λ n path. true;
  content = λ n path. some (codes "abc");
  read_for_upload = λ n path. codes "abc";
  hook_passes = λ n command. true;
  roots = λ n. home;
  cached_manifest = λ n job_id. none;
  encode = λ n entries. some (codes "m");
  request_lost = λ n. false;
  reply_lost = λ n. false;
  failure = λ n. run_failed;
  error_text = λ n. [];
  others = λ n s. s;
}

abbrev first_backup : RunBackup
first_backup = record {
  run_id = [];
  job = job_of (codes "j1") alice;
  mode = codes "full";
  prev_snapshot_id = [];
}

abbrev before : Site
before = record { server = server_of (store_of []) [] []; calls = 0 }

abbrev around_alice : World Site
around_alice = site calm some (λ b. b) (λ b. a_hash) alice

-- A world that nothing changes, whose server lacks one hash, and whose commits fail.
abbrev lacks_a : Text → Bool
lacks_a h = text_eq h (codes "a")

abbrev still : World ℕ
still = record {
  open_file = λ path w. (true, w);
  read = λ path w. (some path, w);
  check_blobs = λ hs w. (inr (select lacks_a hs), w);
  put_blob = λ hash path w. ((false, path), w);
  hash_of = λ b. codes "h";
  run_hook = λ command w. (true, w);
  roots = λ w. home;
  cached_manifest = λ job_id w. none;
  get_manifest = λ id w. (none, w);
  write_manifest = λ entries w. (none, w);
  commit_snapshot = λ request body w. (inl run_failed, suc w);
  cache_manifest = λ job_id body w. w;
  error_text = λ w. [];
}

check_all_blobs-total_example :
    (r : RunError ⊎ List Text) × ((check_all_blobs around_alice unix
        (a_hash ∷ codes "b" ∷ [])
        before).0
      ≡ some r)
check_all_blobs-total_example =
    check_all_blobs-total around_alice unix (a_hash ∷ codes "b" ∷ []) before

check_all_blobs-check_blobs_example :
    check_all_blobs still unix (codes "a" ∷ codes "b" ∷ []) 7
    ≡ (some (still.check_blobs (codes "a" ∷ codes "b" ∷ []) 7).0, 7)
check_all_blobs-check_blobs_example =
    check_all_blobs-check_blobs still unix lacks_a (λ hs w. refl) (codes "a" ∷ codes "b" ∷ []) 7

-- Its commits succeed, and the world counts them.
abbrev counting : World ℕ
counting = record still {
  write_manifest = λ entries w. (some (codes "m"), w);
  commit_snapshot = λ request body w. (inr (codes "s1"), suc w);
}

do_backup-Stopped_example :
    ((do_backup counting unix one_line first_backup (some 0) 0).world ≡ 0)
    ⊎ CommitFailed counting
        (λ w. w ≡ 0)
        first_backup
        run_cancelled
        (λ v. (hook counting unix one_line first_backup.job.post_hook v).1)
        (do_backup counting unix one_line first_backup (some 0) 0).world
unfolding do_backup text_eq is_cancelled excluded reused_hash contains select
do_backup-Stopped_example =
    do_backup-Stopped counting unix one_line (λ w. w ≡ 0)
      (record {
        open_file = λ path w h. h;
        read = λ path w h. h;
        check_blobs = λ hs w h. h;
        put_blob = λ hash path w h. h;
        run_hook = λ command w h. h;
        get_manifest = λ id w h. h;
        write_manifest = λ es w h. h;
      })
      first_backup (some 0) 0 run_cancelled refl refl

-- The previous manifest has the file, with the same size and time.
abbrev earlier : Previous
earlier path = some (file_of (codes "h"))

abbrev empty_scan : Scan
empty_scan = record { entries = []; stats = no_stats; ctx = some 5 }

scan_paths-Reused_example :
    All (Reused earlier) (scan_paths unix [] earlier home (codes "/home" ∷ []) empty_scan).entries
scan_paths-Reused_example =
    scan_paths-Reused unix [] earlier home (codes "/home" ∷ []) empty_scan tt

-- The file has a job that waits for its id; the server's set has two others.
abbrev configured : LocalConfig
configured = record {
  file = some (record {
    jobs = yaml_from_proto (record (job_of (codes "j3") alice) { id = [] }) ∷ [];
    delete = [];
  });
  server_jobs = λ id. none;
  sent_creates = [];
}

abbrev pushed : List Job
pushed =
    record (job_of (codes "j1") alice) { name = codes "photos" }
    ∷ record (job_of (codes "j2") alice) { name = codes "letters" }
    ∷ []

sync_now-apply_server_jobs_example :
    sync_now true (λ id. true) (apply_server_jobs true pushed configured)
    ≡ ([], apply_server_jobs true pushed configured)
unfolding first text_eq
sync_now-apply_server_jobs_example =
    sync_now-apply_server_jobs true (λ id. true) pushed configured (refl, (refl, tt))
      ((λ e. cc), ((λ e. cc), tt))

abbrev at_nine : Option ScheduleSpec
at_nine = some (record {
  kind = codes "weekly";
  at = codes " 9:30";
  interval = pos 2;
  days_of_week = codes "Mon" ∷ codes "friday" ∷ codes "monday" ∷ [];
})

abbrev task_of : Text → SchedAction
task_of name = record {
  request_id = codes "q1";
  action = codes "set_schedule";
  path = [];
  name = name;
  schedule = at_nine;
}

abbrev script_of : Text → Text
script_of name =
    codes "$ErrorActionPreference='Stop'\n"
    ++ codes "$t = New-ScheduledTaskTrigger -Weekly -At (Get-Date -Hour 9 -Minute 30 -Second 0)"
    ++ codes " -DaysOfWeek Monday,Friday -WeeksInterval 2\nSet-ScheduledTask "
    ++ task_ref name (codes "\\")
    ++ codes " -Trigger $t | Out-Null"

-- One of the two tasks has a name that would end its literal.
outside-build_action_script_example :
    outside start (script_of (codes "x'; calc; '")) ≡ outside start (script_of (codes "Nightly"))
unfolding build_action_script task_script trim_space text_eq has_newline set_schedule with_trigger
    build_trigger_script weekly timed weekday_list add_days look_up joined daily_time decimal
    parse_time_of_day time_of_day match until_colon atoi task_ref digits drop_spaces to_lower
    contains no_typographic
outside-build_action_script_example =
    outside-build_action_script (task_of (codes " x'; calc; '")) (task_of (codes "Nightly")) refl
      refl refl refl refl refl refl refl

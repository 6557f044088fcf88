-- ===== src/Agent/SchedTasks.antt =====
-- internal/agent/schedtask.go: the PowerShell that acts on a scheduled task of the client. An error
-- is `none`.
pub mod Lexer
pub mod Literals
use claude_backup.Prelude.{
  Text, codes, text_eq, ℕ, zero, suc, ◌+◌, ◌/◌, ◌%◌, ltb, leb, ◌==◌, ℤ, pos, negsuc, contains, Bool,
  true, false, not, ◌&&◌, ◌||◌, Option, none, some, List, [], ◌∷◌, ◌++◌, map, trim_space, lower,
  ◌-◌, ◌*◌, if◌then◌else◌,
}
use claude_backup.Agent.SchedTrigger.{ScheduleSpec, quote, build_trigger_script}

pub record SchedAction : Type 0 where
  pub request_id : Text
  pub action : Text
  pub path : Text
  pub name : Text
  pub schedule : Option ScheduleSpec

-- Each single quote is doubled.
unfoldable pub doubled : Text → Text
doubled [] = []
doubled (c ∷ s) = let rest = doubled s in if c == quote then c ∷ c ∷ rest else c ∷ rest

unfoldable pub ps_quote : Text → Text
unfolding doubled
ps_quote s = quote ∷ doubled s ++ quote ∷ []

unfoldable pub has_newline : Text → Bool
has_newline [] = false
has_newline (c ∷ s) = c == 13 || c == 10 || has_newline s

unfoldable pub task_ref : Text → Text → Text
unfolding ps_quote
task_ref name path = codes "-TaskName " ++ ps_quote name ++ codes " -TaskPath " ++ ps_quote path

abbrev pub stop_on_error : Text
stop_on_error = codes "$ErrorActionPreference='Stop'\n"

unfoldable pub run_cmdlet : Text → Text → Text
run_cmdlet cmdlet ref = stop_on_error ++ cmdlet ++ ref ++ codes " | Out-Null"

unfoldable pub with_trigger : Option Text → Text → Option Text
with_trigger none ref = none
with_trigger (some trig) ref = some (
    stop_on_error ++ trig ++ codes "\nSet-ScheduledTask " ++ ref ++ codes " -Trigger $t | Out-Null")

unfoldable pub set_schedule : Option ScheduleSpec → Text → Option Text
unfolding with_trigger build_trigger_script
set_schedule none ref = none
set_schedule (some spec) ref = with_trigger (build_trigger_script spec) ref

-- The script for the trimmed name and the path.
unfoldable pub task_script : Text → Option ScheduleSpec → Text → Text → Option Text
unfolding run_cmdlet task_ref set_schedule
task_script action schedule name path =
    let ref = task_ref name path in
    if text_eq action (codes "run")
    then some (run_cmdlet (codes "Start-ScheduledTask ") ref)
    else if text_eq action (codes "enable")
    then some (run_cmdlet (codes "Enable-ScheduledTask ") ref)
    else if text_eq action (codes "disable")
    then some (run_cmdlet (codes "Disable-ScheduledTask ") ref)
    else if text_eq action (codes "set_schedule")
    then set_schedule schedule ref
    else none

unfoldable pub build_action_script : SchedAction → Option Text
unfolding trim_space has_newline task_script
build_action_script a =
    let name = trim_space a.name in
    let path = if text_eq a.path [] then b'\\' ∷ [] else a.path in
    if text_eq name [] || has_newline (name ++ path)
    then none
    else task_script a.action a.schedule name path

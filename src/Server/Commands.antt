-- ===== src/Server/Commands.antt =====
-- internal/server/commands.go: the remote command console.
use claude_backup.Prelude.{
  Text, codes, text_eq, ℕ, negsuc, Bool, false, not, ◌||◌, Option, none, some, List, [], map,
  trim_space, lower, if◌then◌else◌,
}
use claude_backup.Proto.{error, run_command, cancel_command}
use claude_backup.Store.{Command, CommandLine}
use claude_backup.Store.Agents.{get_agent}
use claude_backup.Store.Commands.{
  create_command, get_command, finish_command, delete_command, command_output_after,
}
use claude_backup.Store.Runs.{is_running}
use claude_backup.Server.{
  Server, Result, ok, err, not_found, bad_request, conflict, database_error, fresh_id, use_id,
  with_store, is_online, send_to, client_not_reached,
}

abbrev pub shell_powershell : Text
shell_powershell = codes "powershell"

abbrev pub shell_cmd : Text
shell_cmd = codes "cmd"

abbrev pub shell_sh : Text
shell_sh = codes "sh"

-- strings.EqualFold, for ASCII
unfoldable pub is_windows : Text → Bool
is_windows os = text_eq (map lower os) (codes "windows")

-- The shell to use, or `none` where the client's system has no such shell.
unfoldable pub shell_for_agent : Text → Text → Option Text
shell_for_agent os shell =
    if text_eq shell []
    then some (if is_windows os then shell_powershell else shell_sh)
    else if text_eq shell shell_powershell || text_eq shell shell_cmd
    then (if is_windows os then some shell else none)
    else if text_eq shell shell_sh
    then (if is_windows os then none else some shell)
    else none

-- The command is recorded as running, and sent; where it cannot be sent it fails with exit code -1.
unfoldable pub create_and_send : Text → Text → Text → Server → Result (Text × Text) × Server
create_and_send agent_id shell command s =
    let id = fresh_id s in
    elim (create_command id agent_id shell command s.now s.store) [
      | none ↦ (err database_error, use_id s)
      | some t ↦
          let (sent, s') =
            send_to agent_id (run_command id shell command) (use_id (with_store t s)) in
          if sent then (ok (id, shell), s') else (
            err conflict,
            with_store (finish_command id error (negsuc 0) client_not_reached s'.now s'.store) s',
          )
    ]

-- `shell` and `command` are the fields of the request's body.
unfoldable pub handle_command_run : Text → Text → Text → Server → Result (Text × Text) × Server
unfolding create_and_send
handle_command_run agent_id shell command s = elim (get_agent agent_id s.store) [
  | none ↦ (err not_found, s)
  | some agent ↦
      if text_eq (trim_space command) []
      then (err bad_request, s)
      else elim (shell_for_agent agent.os shell) [
        | none ↦ (err bad_request, s)
        | some sh ↦
            if is_online agent_id s
            then create_and_send agent_id sh command s
            else (err conflict, s)
      ]
]

abbrev pub max_command_output_poll : ℕ
max_command_output_poll = 2000

unfoldable pub handle_command_get : Text → ℕ → Server → Result (Command × List CommandLine)
handle_command_get id since s = elim (get_command id s.store) [
  | none ↦ err not_found
  | some c ↦ ok (c, command_output_after c.id since max_command_output_poll s.store)
]

-- The agent reports that the command stopped; its row is left.
unfoldable pub handle_command_cancel : Text → Server → Result (Unit {0}) × Server
handle_command_cancel id s = elim (get_command id s.store) [
  | none ↦ (err not_found, s)
  | some c ↦
      if not (is_running c.status)
      then (err conflict, s)
      else let (sent, s') = send_to c.agent_id (cancel_command c.id) s in
        (if sent then ok tt else err conflict, s')
]

unfoldable pub handle_command_delete : Text → Server → Server
handle_command_delete id s = with_store (delete_command id s.store) s

unfoldable pub command_belongs_to : Text → Text → Server → Bool
command_belongs_to id agent_id s = elim (get_command id s.store) [
  | none ↦ false
  | some c ↦ text_eq c.agent_id agent_id
]

-- ===== src/Store/Commands.antt =====
-- internal/server/store/commands.go: remote shell commands and their output lines. `now` is the
-- clock at the call.
use claude_backup.Prelude.{
  Text, text_eq, ℤ, pos, ℕ, ◌+◌, ltb, Bool, ◌&&◌, Option, none, some, List, [], ◌∷◌, ◌++◌, reverse,
  take,
}
use claude_backup.Sql.{select, first, modify, delete, given}
use claude_backup.Sql.Keys.{by}
use claude_backup.Sql.Order.{order_by}
use claude_backup.Proto.{Status, running, error}
use claude_backup.Store.{Store, Command, CommandLine}
use claude_backup.Store.Runs.{is_running}

abbrev pub command_id_is : Text → Command → Bool
command_id_is = by (λ c. c.id)

abbrev pub new_command : Text → Text → Text → Text → ℕ → Command
new_command id agent_id shell command now = record {
  id = id;
  agent_id = agent_id;
  shell = shell;
  command = command;
  status = running;
  exit_code = pos 0;
  error = [];
  created_at = now;
  started_at = now;
  finished_at = 0;
}

unfoldable pub create_command : Text → Text → Text → Text → ℕ → Store → Option Store
create_command id agent_id shell command now s = elim (first (command_id_is id) s.commands) [
  | none ↦
      some (record s { commands = s.commands ++ new_command id agent_id shell command now ∷ [] })
  | some _ ↦ none
]

unfoldable pub get_command : Text → Store → Option Command
get_command id s = first (command_id_is id) s.commands

unfoldable pub list_commands : Text → ℕ → Store → List Command
list_commands agent_id limit s =
    take limit
      (reverse (order_by (λ c. c.created_at) (select (λ c. given agent_id c.agent_id) s.commands)))

-- `seq` is INTEGER PRIMARY KEY AUTOINCREMENT.
unfoldable pub append_command_output : Text → Text → Text → Store → Store
append_command_output command_id stream line s = record s {
  command_output =
      s.command_output
      ++ record { command_id = command_id; seq = s.next_seq; stream = stream; line = line } ∷ [];
  next_seq = s.next_seq + 1;
}

unfoldable pub is_new_line : Text → ℕ → CommandLine → Bool
is_new_line command_id after_seq l = text_eq l.command_id command_id && ltb after_seq l.seq

-- The lines with a seq greater than `after_seq`, oldest first.
unfoldable pub command_output_after : Text → ℕ → ℕ → Store → List CommandLine
command_output_after command_id after_seq limit s =
    take limit (order_by (λ l. l.seq) (select (is_new_line command_id after_seq) s.command_output))

unfoldable pub finish_command : Text → Status → ℤ → Text → ℕ → Store → Store
finish_command id status exit_code message now s = record s {
  commands =
      modify (command_id_is id)
        (λ c. record c {
          status = status;
          exit_code = exit_code;
          error = message;
          finished_at = now;
        })
        s.commands;
}

unfoldable pub command_running_for : Text → Command → Bool
command_running_for agent_id c = text_eq c.agent_id agent_id && is_running c.status

unfoldable pub fail_running_commands : Text → Text → ℕ → Store → Store
fail_running_commands agent_id reason now s = record s {
  commands =
      modify (command_running_for agent_id)
        (λ c. record c { status = error; error = reason; finished_at = now }) s.commands;
}

unfoldable pub delete_command : Text → Store → Store
delete_command id s = record s {
  command_output = delete (λ l. text_eq l.command_id id) s.command_output;
  commands = delete (command_id_is id) s.commands;
}

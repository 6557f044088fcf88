-- ===== src/Hub.antt =====
-- internal/server/hub.go: the live connection of every agent. A connection is known by the number
-- that it is registered under, in place of its pointer.
pub mod Laws
use claude_backup.Prelude.{
  Text, ℕ, ◌+◌, ltb, ◌==◌, Bool, true, false, ◌&&◌, Option, none, some, List, [], ◌∷◌, ◌++◌, length,
  drop, if◌then◌else◌,
}
use claude_backup.Sql.{first, modify, delete}
use claude_backup.Sql.Keys.{by}
use claude_backup.Proto.{ServerMessage}

-- `queue` is the buffered channel `send`, the oldest message first.
pub record Conn : Type 0 where
  pub number : ℕ
  pub agent_id : Text
  pub queue : List ServerMessage
  pub closed : Bool

-- `choices` holds what the scheduler of the goroutines decides where `Send` leaves it open.
pub record Hub : Type 0 where
  pub conns : List Conn
  pub next_number : ℕ
  pub choices : List Bool

abbrev pub queue_capacity : ℕ
queue_capacity = 64

abbrev pub conn_of : Text → Conn → Bool
conn_of = by (λ c. c.agent_id)

unfoldable pub new_hub : Hub
new_hub = record { conns = []; next_number = 0; choices = [] }

-- A connection that it replaces is closed, and no longer in the map.
unfoldable pub register : Text → Hub → ℕ × Hub
register agent_id h = (
  h.next_number,
  record h {
    conns =
        delete (conn_of agent_id) h.conns
        ++ record { number = h.next_number; agent_id = agent_id; queue = []; closed = false } ∷ [];
    next_number = h.next_number + 1;
  },
)

-- Only the current connection of the agent leaves the map.
unfoldable pub unregister : Text → ℕ → Hub → Hub
unregister agent_id number h = elim (first (conn_of agent_id) h.conns) [
  | none ↦ h
  | some c ↦
      if c.number == number then record h { conns = delete (conn_of agent_id) h.conns } else h
]

-- The writer pump closes a connection that a write fails on; it stays in the map.
unfoldable pub write_failed : ℕ → Hub → Hub
write_failed number h = record h {
  conns = modify (λ c. c.number == number) (λ c. record c { closed = true }) h.conns;
}

unfoldable pub online : Text → Hub → Bool
online agent_id h = elim (first (conn_of agent_id) h.conns) [ none ↦ false | some _ ↦ true ]

abbrev pub enqueue : Text → ServerMessage → Hub → Hub
enqueue agent_id m h = record h {
  conns = modify (conn_of agent_id) (λ c. record c { queue = c.queue ++ m ∷ [] }) h.conns;
}

-- The pump takes the oldest message.
abbrev pub pump : Text → Hub → Hub
pump agent_id h = record h {
  conns = modify (conn_of agent_id) (λ c. record c { queue = drop 1 c.queue }) h.conns;
}

abbrev pub choose : Hub → Bool × Hub
choose h = elim h.choices [ [] ↦ (false, h) | b ∷ bs ↦ (b, record h { choices = bs }) ]

-- The `select` of Send. With room and an open connection the message is queued. With room and a
-- closed one, both cases are ready and Go takes either. On a full queue it waits ten seconds: the
-- pump makes room in that time, or it does not.
unfoldable pub send_on : Bool → Bool → Text → ServerMessage → Hub → Bool × Hub
send_on true false agent_id m h = (true, enqueue agent_id m h)
send_on true true agent_id m h =
    let (picked, h') = choose h in if picked then (true, enqueue agent_id m h') else (false, h')
send_on false true agent_id m h = (false, h)
send_on false false agent_id m h =
    let (room, h') = choose h in
    if room then (true, enqueue agent_id m (pump agent_id h')) else (false, h')

unfoldable pub send : Text → ServerMessage → Hub → Bool × Hub
unfolding send_on
send agent_id m h = elim (first (conn_of agent_id) h.conns) [
  | none ↦ (false, h)
  | some c ↦ send_on (ltb (length c.queue) queue_capacity) c.closed agent_id m h
]

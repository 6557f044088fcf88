-- ===== src/Hub/Laws.antt =====
-- internal/server/hub.go: what a Send does to the queue of a connection.
use claude_backup.Prelude.{
  Text, ltb, ◌≡◌, refl, Bool, true, false, some, List, [], ◌∷◌, ◌++◌, length, drop, arith,
  Bool-cases, Option-cases, inl, inr, ◌⊎◌,
}
use claude_backup.Sql.{first, modify}
use claude_backup.Proto.{ServerMessage}
use claude_backup.Hub.{Conn, Hub, conn_of, queue_capacity, enqueue, pump, choose, send_on, send}

-- The connection of the agent has the message last in its queue.
pub record Queued (agent_id : Text) (m : ServerMessage) (h : Hub) : Type 0 where
  pub conn : Conn
  pub earlier : List ServerMessage
  pub found : first (conn_of agent_id) h.conns ≡ some conn
  pub last : conn.queue ≡ earlier ++ m ∷ []

first-modify_self :
    (agent_id : Text) (f : Conn → Conn) (xs : List Conn) {c : Conn}
    → ((x : Conn) → (f x).agent_id ≡ x.agent_id)
    → first (conn_of agent_id) xs ≡ some c
    → first (conn_of agent_id) (modify (conn_of agent_id) f xs) ≡ some (f c)
unfolding first modify
first-modify_self agent_id f [] same h = ground arith
first-modify_self agent_id f (x ∷ xs) {c} same h =
    ground (arith, same x, first-modify_self agent_id f xs {c = c} same)

enqueue-Queued :
    (agent_id : Text) (m : ServerMessage) (h : Hub) {c : Conn}
    → first (conn_of agent_id) h.conns ≡ some c
    → Queued agent_id m (enqueue agent_id m h)
enqueue-Queued agent_id m h {c} e = record {
  conn = record c { queue = c.queue ++ m ∷ [] };
  earlier = c.queue;
  found =
      first-modify_self agent_id (λ x. record x { queue = x.queue ++ m ∷ [] }) h.conns (λ x. refl)
        e;
  last = refl;
}

choose-conns : (h : Hub) → (choose h).1.conns ≡ h.conns
choose-conns h = ground arith

pump-first :
    (agent_id : Text) (h : Hub) {c : Conn}
    → first (conn_of agent_id) h.conns ≡ some c
    → first (conn_of agent_id) (pump agent_id h).conns ≡ some (record c { queue = drop 1 c.queue })
pump-first agent_id h e =
    first-modify_self agent_id (λ x. record x { queue = drop 1 x.queue }) h.conns (λ x. refl) e

send_on-Queued :
    (room closed : Bool) (agent_id : Text) (m : ServerMessage) (h : Hub) {c : Conn}
    → first (conn_of agent_id) h.conns ≡ some c
    → (send_on room closed agent_id m h).0 ≡ true
    → Queued agent_id m (send_on room closed agent_id m h).1
unfolding send_on
send_on-Queued true false agent_id m h e t = enqueue-Queued agent_id m h e
send_on-Queued true true agent_id m h {c} e t = elim (Bool-cases (choose h).0) [
  | inl p ↦ rw p (enqueue-Queued agent_id m (choose h).1 {c = c} (rw (choose-conns h) e))
  | inr p ↦ absurd (ground arith)
]
send_on-Queued false true agent_id m h e t = absurd (cc)
send_on-Queued false false agent_id m h {c} e t = elim (Bool-cases (choose h).0) [
  | inl p ↦ rw p (
      enqueue-Queued agent_id m (pump agent_id (choose h).1)
        (pump-first agent_id (choose h).1 {c = c} (rw (choose-conns h) e)))
  | inr p ↦ absurd (ground arith)
]

send_on-outcome :
    (room closed : Bool) (agent_id : Text) (m : ServerMessage) (h : Hub)
    → (send_on room closed agent_id m h).0 ≡ false
    → (send_on room closed agent_id m h).1.conns ≡ h.conns
unfolding send_on
send_on-outcome room closed agent_id m h e = ground (arith, choose-conns h)

-- Either a Send reports success and leaves the message last in the queue of the agent's connection,
-- or it reports failure and leaves every connection as it was.
pub send-Queued :
    (agent_id : Text) (m : ServerMessage) (h : Hub)
    → let (sent, h') = send agent_id m h in
      ((sent ≡ true) × Queued agent_id m h') ⊎ ((sent ≡ false) × (h'.conns ≡ h.conns))
unfolding send
send-Queued agent_id m h = elim (Option-cases (first (conn_of agent_id) h.conns)) [
  | inl e ↦ rw (e, send) (inr (refl, refl))
  | inr (c, e) ↦
      let room = ltb (length c.queue) queue_capacity in
      rw (e, send)
        (elim (Bool-cases (send_on room c.closed agent_id m h).0) [
          | inl t ↦ inl (t, send_on-Queued room c.closed agent_id m h e t)
          | inr f ↦ inr (f, send_on-outcome room c.closed agent_id m h f)
        ])
]

-- For a message that was sent.
pub sent-Queued :
    (agent_id : Text) (m : ServerMessage) (h : Hub)
    → (send agent_id m h).0 ≡ true
    → Queued agent_id m (send agent_id m h).1
sent-Queued agent_id m h t = elim (send-Queued agent_id m h) [
  | inl (_, q) ↦ q
  | inr (f, _) ↦ absurd (cc (t, f))
]

-- For a message that was not sent.
pub lost-conns :
    (agent_id : Text) (m : ServerMessage) (h : Hub)
    → (send agent_id m h).0 ≡ false
    → (send agent_id m h).1.conns ≡ h.conns
lost-conns agent_id m h f = elim (send-Queued agent_id m h) [
  | inl (t, _) ↦ absurd (cc (t, f))
  | inr (_, same) ↦ same
]

-- What became of a message for an agent: it was sent, and is the last in the queue of the agent's
-- connection; or it was not, and every queue is as it was before.
pub data Delivery (agent_id : Text) (m : ServerMessage) (before after : Hub) (P Q : Type 0)
    : Type 0 where
  delivered :
      P
      → (send agent_id m before).0 ≡ true
      → Queued agent_id m after
      → Delivery agent_id m before after P Q
  undelivered :
      Q
      → (send agent_id m before).0 ≡ false
      → after.conns ≡ before.conns
      → Delivery agent_id m before after P Q

-- ===== src/Pending.antt =====
-- internal/server/docker.go, schedtask.go and browse.go: the requests that wait for an agent's
-- answer, by the id of the request. The four tables of the source are alike.
pub mod Laws
use claude_backup.Prelude.{Text, Bool, Option, none, some, List, [], ◌∷◌, ◌++◌}
use claude_backup.Sql.{modify, delete}
use claude_backup.Sql.Keys.{by}

-- `slot` is the buffered channel, which has room for one answer.
pub record Waiter : Type 0 where
  pub request_id : Text
  pub slot : Option Text

abbrev pub request_is : Text → Waiter → Bool
request_is = by (λ w. w.request_id)

unfoldable pub begin : Text → List Waiter → List Waiter
begin id ws = delete (request_is id) ws ++ record { request_id = id; slot = none } ∷ []

unfoldable pub end : Text → List Waiter → List Waiter
end id ws = delete (request_is id) ws

abbrev fill : Text → Option Text → Option Text
fill answer none = some answer
fill answer (some old) = some old

-- An unknown id is dropped, and so is a second answer.
unfoldable pub deliver : Text → Text → List Waiter → List Waiter
deliver id answer ws = modify (request_is id) (λ w. record w { slot = fill answer w.slot }) ws

-- ===== src/Pending/Laws.antt =====
-- internal/server/docker.go, schedtask.go and browse.go: the answers that reach a request.
use claude_backup.Prelude.{Text, text_eq_iff, text_eq_refl, ◌≡◌, ◌≢◌, refl, none, some, List, arith}
use claude_backup.Sql.{first}
use claude_backup.Sql.Keys.{first-modify, first-modify-none, first-delete, first-insert_self}
use claude_backup.Pending.{Waiter, request_is, fill, begin, end, deliver}

first-begin :
    (id : Text) (ws : List Waiter)
    → first (request_is id) (begin id ws) ≡ some (record { request_id = id; slot = none })
unfolding begin
first-begin id ws =
    first-insert_self (λ w. w.request_id) _ (record { request_id = id; slot = none })
      (rw (first-delete (λ w. w.request_id) id id ws, text_eq_refl id) refl)

first-deliver :
    (id answer : Text) (ws : List Waiter) {w : Waiter}
    → first (request_is id) ws ≡ some w
    → first (request_is id) (deliver id answer ws) ≡ some (record w { slot = fill answer w.slot })
unfolding deliver
first-deliver id answer ws {w} e = ground (
  arith,
  text_eq_refl id,
  first-modify (λ x. x.request_id) id id (λ x. record x { slot = fill answer x.slot }) ws
      (λ x m. refl),
)

first-end :
    (id answer : Text) (ws : List Waiter)
    → first (request_is id) (deliver id answer (end id ws)) ≡ none
unfolding deliver end
first-end id answer ws =
    first-modify-none (λ w. w.request_id) id (request_is id) _ _ (λ x m. refl)
      (rw (first-delete (λ w. w.request_id) id id ws, text_eq_refl id) refl)

-- The first answer to a request is the one that it gets, a second one is dropped, and an answer that
-- comes after its end reaches nobody.
pub deliver-begin :
    (id first_answer second_answer : Text) (ws : List Waiter)
    → let waiting = deliver id second_answer (deliver id first_answer (begin id ws)) in
      (first (request_is id) waiting ≡ some (record { request_id = id; slot = some first_answer }))
      × (first (request_is id) (deliver id second_answer (end id waiting)) ≡ none)
deliver-begin id first_answer second_answer ws =
    let one = first-deliver id first_answer (begin id ws) (first-begin id ws) in
    (
      first-deliver id second_answer (deliver id first_answer (begin id ws)) one,
      first-end id second_answer _,
    )

-- An answer leaves the requests of other ids alone.
pub deliver_other :
    (id other answer : Text) (ws : List Waiter)
    → other ≢ id
    → first (request_is other) (deliver id answer ws) ≡ first (request_is other) ws
unfolding deliver
deliver_other id other answer ws n = ground (
  arith,
  text_eq_iff other id,
  first-modify (λ x. x.request_id) other id (λ x. record x { slot = fill answer x.slot }) ws
      (λ x m. refl),
)

-- ===== src/Storage/Laws.antt =====
-- What the operations of a backend do to the object under each key.
use claude_backup.Prelude.{
  Text, text_eq_iff, ◌≡◌, refl, ◌≢◌, true, some, List, [], ◌∷◌, ◌++◌, arith,
}
use claude_backup.Sql.{first, delete}
use claude_backup.Sql.Keys.{first-delete_other}
use claude_backup.Storage.{Object, Objects, Bytes, key_is, put, remove}

pub remove_other :
    (key k : Text) (o : Objects)
    → key ≢ k
    → first (key_is k) (remove key o).1.items ≡ first (key_is k) o.items
unfolding remove
remove_other key k o ne = ground (
  arith,
  first-delete_other (key_is k) (key_is key) o.items
      (λ x m. ground (arith, text_eq_iff x.key key, text_eq_iff x.key k)),
)

first-append_other :
    (k : Text) (xs : List Object) (x : Object)
    → x.key ≢ k
    → first (key_is k) (xs ++ x ∷ []) ≡ first (key_is k) xs
unfolding first
first-append_other k [] x ne = ground (arith, text_eq_iff x.key k)
first-append_other k (y ∷ ys) x ne = ground (arith, first-append_other k ys x ne)

pub put_other :
    (key k : Text) (content : Bytes) (o : Objects)
    → key ≢ k
    → first (key_is k) (put key content o).1.items ≡ first (key_is k) o.items
unfolding put
put_other key k content o ne = ground (
  arith,
  first-delete_other (key_is k) (key_is key) o.items
      (λ x m. ground (arith, text_eq_iff x.key key, text_eq_iff x.key k)),
  first-append_other k (delete (key_is key) o.items) (record { key = key; content = content }) ne,
)

first-delete_self :
    (key : Text) (xs : List Object) (x : Object)
    → x.key ≡ key
    → first (key_is key) (delete (key_is key) xs ++ x ∷ []) ≡ some x
unfolding first delete
first-delete_self key [] x e = ground (arith, text_eq_iff x.key key)
first-delete_self key (y ∷ ys) x e = ground (arith, first-delete_self key ys x e)

-- A Put that succeeds stores the content.
pub put_self :
    (key : Text) (content : Bytes) (o : Objects)
    → (put key content o).0 ≡ true
    → first (key_is key) (put key content o).1.items
      ≡ some (record { key = key; content = content })
unfolding put
put_self key content o h =
    ground (arith, first-delete_self key o.items (record { key = key; content = content }) refl)

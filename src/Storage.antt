-- ===== src/Storage.antt =====
-- internal/server/storage: the objects of a backend under their keys. The `Backend` interface is
-- the operations below; `Has` is not called by the code that is modelled. Each call may fail, as `faults` says, and then changes nothing.
pub mod Keys
pub mod Laws
use claude_backup.Prelude.{
  Text, ℕ, Bool, true, false, Option, none, some, List, [], ◌∷◌, ◌++◌, length, if◌then◌else◌,
}
use claude_backup.Sql.{first, delete}
use claude_backup.Sql.Keys.{by}

-- An object's content, as bytes.
abbrev pub Bytes : Type 0
Bytes = List ℕ

pub record Object : Type 0 where
  pub key : Text
  pub content : Bytes

-- `faults` says of each coming call whether the medium fails it.
pub record Objects : Type 0 where
  pub items : List Object
  pub faults : List Bool

abbrev pub key_is : Text → Object → Bool
key_is = by (λ o. o.key)

-- Whether this call fails, and the backend after it.
abbrev pub next_fault : Objects → Bool × Objects
next_fault o = elim o.faults [ [] ↦ (false, o) | b ∷ bs ↦ (b, record o { faults = bs }) ]

-- Replaces any object under the key.
unfoldable pub put : Text → Bytes → Objects → Bool × Objects
put key content o =
    let (fails, o') = next_fault o in
    if fails then (false, o') else (
      true,
      record o' {
        items = delete (key_is key) o'.items ++ record { key = key; content = content } ∷ [];
      },
    )

unfoldable pub get : Text → Objects → Option Bytes × Objects
get key o =
    let (fails, o') = next_fault o in
    if fails
    then (none, o')
    else (elim (first (key_is key) o'.items) [ none ↦ none | some x ↦ some x.content ], o')

-- Deleting a missing object is no error.
unfoldable pub remove : Text → Objects → Bool × Objects
remove key o =
    let (fails, o') = next_fault o in
    if fails then (false, o') else (true, record o' { items = delete (key_is key) o'.items })

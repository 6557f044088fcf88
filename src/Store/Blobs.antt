-- ===== src/Store/Blobs.antt =====
-- internal/server/store/store.go: the index of blobs, by backend and content hash.
use claude_backup.Prelude.{
  Text, text_eq, ℕ, Bool, true, false, ◌&&◌, none, some, List, [], ◌∷◌, ◌++◌, map, if◌then◌else◌,
}
use claude_backup.Sql.{select, first, delete}
use claude_backup.Store.{Store, Blob}

unfoldable pub blob_is : Text → Text → Blob → Bool
blob_is backend hash b = text_eq b.backend backend && text_eq b.hash hash

unfoldable pub has_blob : Text → Text → Store → Bool
has_blob backend hash s = elim (first (blob_is backend hash) s.blobs) [
  | none ↦ false
  | some _ ↦ true
]

unfoldable pub missing_blobs : Text → List Text → Store → List Text
missing_blobs backend [] s = []
missing_blobs backend (h ∷ hs) s =
    let rest = missing_blobs backend hs s in if has_blob backend h s then rest else h ∷ rest

-- ON CONFLICT(backend, hash) DO NOTHING
unfoldable pub add_blob : Text → Text → ℕ → ℕ → ℕ → Store → Store
add_blob backend hash size_raw size_stored now s = if has_blob backend hash s then s else record s {
  blobs =
      s.blobs
      ++ record {
        backend = backend;
        hash = hash;
        size_raw = size_raw;
        size_stored = size_stored;
        created_at = now;
      }
        ∷ [];
}

unfoldable pub delete_blob : Text → Text → Store → Store
delete_blob backend hash s = record s { blobs = delete (blob_is backend hash) s.blobs }

-- hash and created_at of the blobs in a backend; a map in the source, whose order is arbitrary.
unfoldable pub all_blobs : Text → Store → List (Text × ℕ)
all_blobs backend s =
    map (λ b. (b.hash, b.created_at)) (select (λ b. text_eq b.backend backend) s.blobs)

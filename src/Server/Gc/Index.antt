-- ===== src/Server/Gc/Index.antt =====
-- internal/server/gc.go: the index of blobs through a collection.
use claude_backup.Prelude.{
  Text, text_eq, contains, ℕ, ◌≡◌, Bool, false, ◌||◌, Option, List, [], ◌∷◌, arith, Bool-cases,
  Option-cases, inl, inr,
}
use claude_backup.Sql.{select, delete}
use claude_backup.Sql.Keys.{All}
use claude_backup.Store.{Blob}
use claude_backup.Store.Blobs.{blob_is, delete_blob}
use claude_backup.Store.Snapshots.{list_snapshots}
use claude_backup.Storage.{Bytes, Objects, remove}
use claude_backup.Storage.Laws.{remove_other}
use claude_backup.Storage.Keys.{blob_key}
use claude_backup.Server.{Server, with_store}
use claude_backup.Server.Snapshots.Blobs.{AllStored, in_backend, keep_rows}
use claude_backup.Server.Gc.{Codec, is_young, mark, sweep, gc_blobs}
use claude_backup.Server.Gc.Marking.{SameData, mark-SameData}

All-select-delete :
    (P : Blob → Type 0) (q p : Blob → Bool) (rows : List Blob)
    → All P (select q rows)
    → All P (select q (delete p rows))
unfolding select delete
All-select-delete P q p [] h = tt
All-select-delete P q p (x ∷ xs) h = elim (Bool-cases (q x)) [
  | inr out ↦ elim (Bool-cases (p x)) [
    | inl gone ↦ rw gone (All-select-delete P q p xs (rw out at h))
    | inr left ↦ rw (left, out) (All-select-delete P q p xs (rw out at h))
  ]
  | inl listed ↦
      let parts = rw listed at h in
      elim (Bool-cases (p x)) [
        | inl gone ↦ rw gone (All-select-delete P q p xs parts.1)
        | inr left ↦ rw (left, listed) (parts.0, All-select-delete P q p xs parts.1)
      ]
]

-- The rows that are left name other hashes.
deleted_hash :
    (backend hash : Text) (rows : List Blob)
    → All
        (λ b. text_eq b.hash hash ≡ false)
        (select (in_backend backend) (delete (blob_is backend hash) rows))
unfolding select delete blob_is
deleted_hash backend hash [] = tt
deleted_hash backend hash (x ∷ xs) = elim (Bool-cases (in_backend backend x)) [
  | inr out ↦ rw out rw out (deleted_hash backend hash xs)
  | inl listed ↦ elim (Bool-cases (text_eq x.hash hash)) [
    | inl same ↦ rw (listed, same) (deleted_hash backend hash xs)
    | inr other ↦ rw (listed, other) rw listed (other, deleted_hash backend hash xs)
  ]
]

remove_failed :
    (key : Text) (o : Objects) → (remove key o).0 ≡ false → (remove key o).1.items ≡ o.items
unfolding remove
remove_failed key o h = ground arith

module _ (inflate : Bytes → Option Bytes) (sha256_hex : Bytes → Text) where
  abbrev Indexed : Server → Type 0
  Indexed s = AllStored inflate sha256_hex s

  -- One blob less: first its object, then its row.
  removed-AllStored :
      (hash : Text) (s : Server)
      → Indexed s
      → Indexed (
          with_store
            (delete_blob s.backend_key hash s.store)
            (record s { objects = (remove (blob_key hash) s.objects).1 }))
  unfolding delete_blob
  removed-AllStored hash s h =
      keep_rows inflate sha256_hex hash s.objects.items (remove (blob_key hash) s.objects).1.items _
        (λ k ne. remove_other (blob_key hash) k s.objects ne)
        (deleted_hash s.backend_key hash s.store.blobs)
        (All-select-delete _ (in_backend s.backend_key) (blob_is s.backend_key hash) s.store.blobs
          h)

  sweep-AllStored :
      (grace : ℕ) (refs : List Text) (rows : List (Text × ℕ)) (s : Server)
      → Indexed s
      → Indexed (sweep grace refs rows s).1
  unfolding sweep
  sweep-AllStored grace refs [] s h = h
  sweep-AllStored grace refs ((hash, created) ∷ rows) s h =
      elim (Bool-cases (contains refs hash || is_young grace s.now created)) [
        | inl spared ↦ rw spared (sweep-AllStored grace refs rows s h)
        | inr swept ↦ elim (Bool-cases (remove (blob_key hash) s.objects).0) [
          | inr failed ↦
              rw (swept, failed, sweep) (rw (remove_failed (blob_key hash) s.objects failed) h)
          | inl done ↦
              rw (swept, done, sweep)
                (sweep-AllStored grace refs rows _ (removed-AllStored hash s h))
        ]
      ]

  mark-AllStored : (s t : Server) → SameData s t → Indexed s → Indexed t
  mark-AllStored s t d h = rw (d.same_store, d.same_items, d.same_backend) h

  -- A collection keeps every blob of the index stored, also where it fails midway: it leaves no row
  -- of the active backend without an object that decompresses to content with its hash.
  pub gc_blobs-AllStored :
      (codec : Codec) (grace : ℕ) (s : Server)
      → AllStored inflate sha256_hex s
      → AllStored inflate sha256_hex (gc_blobs codec grace s).1
  unfolding gc_blobs
  gc_blobs-AllStored codec grace s h =
      let listed = list_snapshots s.backend_key [] [] s.store in
      let marked = mark-AllStored s _ (mark-SameData codec listed [] s) h in
      elim (Option-cases (mark codec listed [] s).0) [
        | inl e ↦ rw (e, gc_blobs) marked
        | inr (refs, e) ↦ rw (e, gc_blobs) (sweep-AllStored grace refs _ _ marked)
      ]

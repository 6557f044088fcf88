-- ===== src/Server/Snapshots/Blobs.antt =====
-- internal/server/api_agent.go: the uploads of blobs, and what the index says of the objects.
use claude_backup.Prelude.{
  Text, text_eq, text_eq_iff, text_eq_refl, text_eq_sound, ℕ, length, ◌≡◌, ◌≢◌, Bool, true, false,
  Option, none, some, List, [], ◌∷◌, ◌++◌, arith, Bool-cases, Option-cases, inl, inr, ◌⊎◌, refl,
}
use claude_backup.Sql.{select, first}
use claude_backup.Sql.Keys.{All, All-snoc, select-append}
use claude_backup.Store.{Blob, Store}
use claude_backup.Store.Blobs.{blob_is, has_blob, add_blob}
use claude_backup.Storage.{Object, Bytes, key_is, put, remove}
use claude_backup.Storage.Laws.{put_other, put_self, remove_other}
use claude_backup.Storage.Keys.{blob_key, blob_key-injective}
use claude_backup.Server.{ok, err, bad_request, Server, ok, with_store}
use claude_backup.Server.Transfers.{discard_object}
use claude_backup.Server.Snapshots.{is_hash, accept_blob, handle_blob_put}

abbrev pub in_backend : Text → Blob → Bool
in_backend backend b = text_eq b.backend backend

-- The row of a hash that is not in the index is no row of it.
no_blob :
    (backend hash : Text) (rows : List Blob)
    → first (blob_is backend hash) rows ≡ none
    → All (λ b. text_eq b.hash hash ≡ false) (select (in_backend backend) rows)
unfolding first select blob_is
no_blob backend hash [] h = tt
no_blob backend hash (x ∷ xs) h = elim (Bool-cases (in_backend backend x)) [
  | inl e ↦ rw e (ground arith, no_blob backend hash xs (ground arith))
  | inr e ↦ rw e (no_blob backend hash xs (ground arith))
]

first-append_self :
    (backend hash : Text) (rows : List Blob) (b : Blob)
    → blob_is backend hash b ≡ true
    → first (blob_is backend hash) (rows ++ b ∷ []) ≢ none
unfolding first
first-append_self backend hash [] b h = ground arith
first-append_self backend hash (x ∷ rows) b h =
    ground (arith, first-append_self backend hash rows b h)

pub has_blob-add_blob :
    (backend hash : Text) (size_raw size_stored now : ℕ) (t : Store)
    → has_blob backend hash (add_blob backend hash size_raw size_stored now t) ≡ true
unfolding has_blob add_blob blob_is
has_blob-add_blob backend hash size_raw size_stored now t = ground (
  arith,
  text_eq_refl backend,
  text_eq_refl hash,
  first-append_self backend hash t.blobs (record {
    backend = backend;
    hash = hash;
    size_raw = size_raw;
    size_stored = size_stored;
    created_at = now;
  }),
)

has_blob-first :
    (backend hash : Text) (t : Store)
    → has_blob backend hash t ≡ false
    → first (blob_is backend hash) t.blobs ≡ none
unfolding has_blob
has_blob-first backend hash t h = ground arith

module _ (inflate : Bytes → Option Bytes) (sha256_hex : Bytes → Text) where
  -- The object of a hash is there, and decompresses to content with that hash.
  pub record Stored (items : List Object) (hash : Text) : Type 0 where
    pub object : Object
    pub raw : Bytes
    pub found : first (key_is (blob_key hash)) items ≡ some object
    pub inflated : inflate object.content ≡ some raw
    pub hashed : sha256_hex raw ≡ hash

  -- So are those of all the blobs that the index has in the active backend.
  abbrev pub AllStored : Server → Type 0
  AllStored s =
      All (λ b. Stored s.objects.items b.hash) (select (in_backend s.backend_key) s.store.blobs)

  Stored-other :
      (h : Text) (items items' : List Object)
      → first (key_is (blob_key h)) items' ≡ first (key_is (blob_key h)) items
      → Stored items h
      → Stored items' h
  Stored-other h items items' e st = record {
    object = st.object;
    raw = st.raw;
    found = rw e st.found;
    inflated = st.inflated;
    hashed = st.hashed;
  }

  -- An operation that touches only the object of a hash out of the index keeps the rest.
  pub keep_rows :
      (hash : Text) (items items' : List Object) (rows : List Blob)
      → ((k : Text) → blob_key hash ≢ k → first (key_is k) items' ≡ first (key_is k) items)
      → All (λ b. text_eq b.hash hash ≡ false) rows
      → All (λ b. Stored items b.hash) rows
      → All (λ b. Stored items' b.hash) rows
  keep_rows hash items items' [] same other h = tt
  keep_rows hash items items' (x ∷ rows) same other h = (
    Stored-other x.hash items items' (same (blob_key x.hash) differs) h.0,
    keep_rows hash items items' rows same other.1 h.1,
  )
    where
      differs : blob_key hash ≢ blob_key x.hash
      differs e = ground (arith, other.0, text_eq_iff x.hash hash, blob_key-injective hash x.hash e)

  -- The object goes again where its upload is refused.
  AllStored-discard :
      (hash : Text) (body : Bytes) (s : Server)
      → first (blob_is s.backend_key hash) s.store.blobs ≡ none
      → AllStored s
      → AllStored (
          discard_object
            (blob_key hash)
            (record s { objects = (put (blob_key hash) body s.objects).1 }))
  unfolding discard_object
  AllStored-discard hash body s fresh h =
      let o = (put (blob_key hash) body s.objects).1 in
      keep_rows hash s.objects.items (remove (blob_key hash) o).1.items _
        (λ k ne.
          cc (remove_other (blob_key hash) k o ne, put_other (blob_key hash) k body s.objects ne))
        (no_blob s.backend_key hash s.store.blobs fresh) h

  AllStored-accept :
      (hash : Text) (body raw : Bytes) (s : Server)
      → first (blob_is s.backend_key hash) s.store.blobs ≡ none
      → (put (blob_key hash) body s.objects).0 ≡ true
      → inflate body ≡ some raw
      → sha256_hex raw ≡ hash
      → AllStored s
      → AllStored (
          with_store
            (add_blob s.backend_key hash (length raw) (length body) s.now s.store)
            (record s { objects = (put (blob_key hash) body s.objects).1 }))
  unfolding add_blob has_blob select
  AllStored-accept hash body raw s fresh stored inflated hashed h =
      rw
        (
          fresh,
          select-append (in_backend s.backend_key) s.store.blobs (new ∷ []),
          select,
          text_eq_refl s.backend_key,
        )
        (All-snoc _ (select (in_backend s.backend_key) s.store.blobs) new
          (keep_rows hash s.objects.items (put (blob_key hash) body s.objects).1.items _
            (λ k ne. put_other (blob_key hash) k body s.objects ne)
            (no_blob s.backend_key hash s.store.blobs fresh) h)
          (record {
            object = record { key = blob_key hash; content = body };
            raw = raw;
            found = put_self (blob_key hash) body s.objects stored;
            inflated = inflated;
            hashed = hashed;
          }))
    where
      new : Blob
      new = record {
        backend = s.backend_key;
        hash = hash;
        size_raw = length raw;
        size_stored = length body;
        created_at = s.now;
      }

  -- An upload keeps every blob of the index stored, whatever its body is and whichever call of
  -- the backend fails, and either it is refused or its
  -- hash is in the index.
  pub handle_blob_put-AllStored :
      (hash : Text) (body : Bytes) (s : Server)
      → AllStored s
      → let (r, s') = handle_blob_put inflate sha256_hex hash body s in
        AllStored s'
        × ((r ≡ err bad_request) ⊎ (r ≡ ok tt) × (has_blob s'.backend_key hash s'.store ≡ true))
  unfolding handle_blob_put accept_blob discard_object
  handle_blob_put-AllStored hash body s h = elim (Bool-cases (is_hash hash)) [
    | inr e ↦ rw e (h, inl refl)
    | inl e ↦ rw e elim (Bool-cases (has_blob s.backend_key hash s.store)) [
      | inl i ↦ rw i (h, inr (refl, i))
      | inr i ↦
          let fresh = has_blob-first s.backend_key hash s.store i in
          rw i elim (Bool-cases (put (blob_key hash) body s.objects).0) [
            | inr p ↦ rw p (AllStored-discard hash body s fresh h, inl refl)
            | inl p ↦ rw p elim (Option-cases (inflate body)) [
              | inl n ↦ rw n (AllStored-discard hash body s fresh h, inl refl)
              | inr (raw, c) ↦ rw c elim (Bool-cases (text_eq (sha256_hex raw) hash)) [
                | inr d ↦ rw d (AllStored-discard hash body s fresh h, inl refl)
                | inl d ↦ rw d (
                  AllStored-accept hash body raw s fresh p c (text_eq_sound _ _ d) h,
                  inr (
                    refl,
                    has_blob-add_blob s.backend_key hash (length raw) (length body) s.now s.store,
                  ),
                )
              ]
            ]
          ]
    ]
  ]

-- ===== src/Server/Gc/Safety.antt =====
-- internal/server/gc.go: what a collection of blobs leaves alone.
use claude_backup.Prelude.{
  Text, text_eq_iff, text_eq_refl, contains, ℕ, ◌≡◌, ◌≢◌, refl, true, false, ◌||◌, ◌∙◌, none, some,
  List, [], ◌∷◌, arith, Bool-cases, Option-cases, inl, inr,
}
use mathlib.Core.Path.{subst}
use claude_backup.Sql.{first, given}
use claude_backup.Sql.Keys.{first-delete_other}
use claude_backup.Sql.Members.{In, In-select, In-order_by, In-reverse}
use claude_backup.Store.{Snapshot}
use claude_backup.Store.Blobs.{blob_is, delete_blob}
use claude_backup.Store.Snapshots.{list_snapshots, is_listed}
use claude_backup.Storage.{Object, key_is, remove}
use claude_backup.Storage.Laws.{remove_other}
use claude_backup.Storage.Keys.{
  blob_key, manifest_key, blob_key-injective, blob_key-ne-manifest_key,
}
use claude_backup.Server.{Server, with_store}
use claude_backup.Server.Gc.{Codec, is_young, mark, sweep, gc_blobs}
use claude_backup.Server.Gc.Marking.{SameData, HasFile, mark-SameData, mark_file}

-- The object under a key is the same in both states.
abbrev pub SameObject : Text → Server → Server → Type 0
SameObject key s t = first (key_is key) t.objects.items ≡ first (key_is key) s.objects.items

-- The row and the object of a blob are the same in both states.
pub record BlobKept (h : Text) (s t : Server) : Type 0 where
  pub row :
      first (blob_is s.backend_key h) t.store.blobs ≡ first (blob_is s.backend_key h) s.store.blobs
  pub object : SameObject (blob_key h) s t

-- What a sweep leaves: the snapshots, the manifests, and the blob of every marked hash.
record SweepKeeps (refs : List Text) (s t : Server) : Type 0 where
  backend : t.backend_key ≡ s.backend_key
  snapshots : t.store.snapshots ≡ s.store.snapshots
  manifests : (id : Text) → SameObject (manifest_key id) s t
  blobs : (h : Text) → contains refs h ≡ true → BlobKept h s t

SweepKeeps-refl : (refs : List Text) (s : Server) → SweepKeeps refs s s
SweepKeeps-refl refs s = record {
  backend = refl;
  snapshots = refl;
  manifests = λ id. refl;
  blobs = λ h c. record { row = refl; object = refl };
}

SweepKeeps-trans :
    (refs : List Text) (s t u : Server)
    → SweepKeeps refs s t
    → SweepKeeps refs t u
    → SweepKeeps refs s u
SweepKeeps-trans refs s t u p q = record {
  backend = q.backend ∙ p.backend;
  snapshots = q.snapshots ∙ p.snapshots;
  manifests = λ id. q.manifests id ∙ p.manifests id;
  blobs = λ h c. record {
    row =
        subst (λ b. first (blob_is b h) u.store.blobs ≡ first (blob_is b h) t.store.blobs) p.backend
          (q.blobs h c).row
        ∙ (p.blobs h c).row;
    object = (q.blobs h c).object ∙ (p.blobs h c).object;
  };
}

after_remove : Text → Server → Server
after_remove hash s = record s { objects = (remove (blob_key hash) s.objects).1 }

module _ (refs : List Text) (hash : Text) (s : Server) (unmarked : contains refs hash ≡ false) where
  other_hash : (h : Text) → contains refs h ≡ true → hash ≢ h
  other_hash h c e = cc

  removed-SweepKeeps : SweepKeeps refs s (after_remove hash s)
  unfolding after_remove
  removed-SweepKeeps = record {
    backend = refl;
    snapshots = refl;
    manifests = λ id.
        remove_other (blob_key hash) (manifest_key id) s.objects (blob_key-ne-manifest_key hash id);
    blobs = λ h c. record {
      row = refl;
      object =
          remove_other (blob_key hash) (blob_key h) s.objects
            (λ e. other_hash h c (blob_key-injective hash h e));
    };
  }

  deleted-SweepKeeps : SweepKeeps refs s (with_store (delete_blob s.backend_key hash s.store) s)
  unfolding delete_blob blob_is
  deleted-SweepKeeps = record {
    backend = refl;
    snapshots = refl;
    manifests = λ id. refl;
    blobs = λ h c. record {
      row =
          first-delete_other (blob_is s.backend_key h) (blob_is s.backend_key hash) s.store.blobs
            (λ r m. ground (arith, text_eq_iff r.hash hash, text_eq_iff r.hash h, other_hash h c));
      object = refl;
    };
  }

-- A sweep spares every marked blob, wherever it ends.
sweep-SweepKeeps :
    (grace : ℕ) (refs : List Text) (rows : List (Text × ℕ)) (s : Server)
    → SweepKeeps refs s (sweep grace refs rows s).1
unfolding sweep after_remove
sweep-SweepKeeps grace refs [] s = SweepKeeps-refl refs s
sweep-SweepKeeps grace refs ((hash, created) ∷ rows) s =
    elim (Bool-cases (contains refs hash || is_young grace s.now created)) [
      | inl spared ↦ rw spared (sweep-SweepKeeps grace refs rows s)
      | inr swept ↦
          let unmarked : contains refs hash ≡ false = ground arith in
          elim (Bool-cases (remove (blob_key hash) s.objects).0) [
            | inr failed ↦ rw (swept, failed, sweep) (removed-SweepKeeps refs hash s unmarked)
            | inl done ↦
                rw (swept, done, sweep)
                  (SweepKeeps-trans refs s _ _ (removed-SweepKeeps refs hash s unmarked) (
                    SweepKeeps-trans refs (after_remove hash s) _ _
                      (deleted-SweepKeeps refs hash (after_remove hash s) unmarked)
                      (sweep-SweepKeeps grace refs rows _)))
          ]
    ]

SameData-BlobKept : (h : Text) (s t : Server) → SameData s t → BlobKept h s t
SameData-BlobKept h s t d = record { row = rw d.same_store refl; object = rw d.same_items refl }

SameData-SweepKeeps : (refs : List Text) (s t : Server) → SameData s t → SweepKeeps refs s t
SameData-SweepKeeps refs s t d = record {
  backend = d.same_backend;
  snapshots = rw d.same_store refl;
  manifests = λ id. rw d.same_items refl;
  blobs = λ h c. SameData-BlobKept h s t d;
}

-- A snapshot of the active backend whose manifest has a file of this hash.
pub record RefersTo (codec : Codec) (s : Server) (h : Text) : Type 0 where
  pub snapshot : Snapshot
  pub manifest : Object
  pub stored : In snapshot s.store.snapshots
  pub here : snapshot.backend ≡ s.backend_key
  pub found : first (key_is snapshot.manifest_key) s.objects.items ≡ some manifest
  pub has_file : HasFile codec manifest h

given_self : (b : Text) → given b b ≡ true
given_self [] = refl
given_self (c ∷ t) = text_eq_refl (c ∷ t)

-- The marking lists every snapshot of the active backend.
In-list_snapshots :
    (s : Server) (sn : Snapshot)
    → sn.backend ≡ s.backend_key
    → In sn s.store.snapshots
    → In sn (list_snapshots s.backend_key [] [] s.store)
unfolding list_snapshots is_listed
In-list_snapshots s sn e i =
    In-reverse sn _
      (In-order_by _ sn _ (In-select _ sn s.store.snapshots (rw e (rw given_self refl)) i))

module _ (codec : Codec) (grace : ℕ) (s : Server) where
  abbrev listed : List Snapshot
  listed = list_snapshots s.backend_key [] [] s.store

  gc_blobs_marked :
      {refs : List Text}
      → (mark codec listed [] s).0 ≡ some refs
      → SweepKeeps refs s (gc_blobs codec grace s).1
  unfolding gc_blobs
  gc_blobs_marked {refs} e =
      rw (e, gc_blobs)
        (SweepKeeps-trans refs s _ _
          (SameData-SweepKeeps refs s _ (mark-SameData codec listed [] s))
          (sweep-SweepKeeps grace refs _ _))

  gc_blobs_unmarked : (mark codec listed [] s).0 ≡ none → SweepKeeps [] s (gc_blobs codec grace s).1
  unfolding gc_blobs
  gc_blobs_unmarked e =
      rw (e, gc_blobs) (SameData-SweepKeeps [] s _ (mark-SameData codec listed [] s))

  -- A collection deletes no snapshot, and the object of no manifest, whatever fails in it.
  pub gc_blobs-SameManifests :
      ((gc_blobs codec grace s).1.store.snapshots ≡ s.store.snapshots)
      × ((id : Text) → SameObject (manifest_key id) s (gc_blobs codec grace s).1)
  gc_blobs-SameManifests = elim (Option-cases (mark codec listed [] s).0) [
    | inl e ↦ ((gc_blobs_unmarked e).snapshots, (gc_blobs_unmarked e).manifests)
    | inr (refs, e) ↦ ((gc_blobs_marked e).snapshots, (gc_blobs_marked e).manifests)
  ]

  -- A blob that a manifest of the active backend refers to keeps its row and its object through a
  -- collection, whether that succeeds or fails midway.
  pub gc_blobs-BlobKept : (h : Text) → RefersTo codec s h → BlobKept h s (gc_blobs codec grace s).1
  unfolding gc_blobs
  gc_blobs-BlobKept h r = elim (Option-cases (mark codec listed [] s).0) [
    | inl e ↦ rw (e, gc_blobs) (SameData-BlobKept h s _ (mark-SameData codec listed [] s))
    | inr (refs, e) ↦ (gc_blobs_marked e).blobs h (
        mark_file codec listed r.snapshot r.manifest h [] s
          (In-list_snapshots s r.snapshot r.here r.stored) r.found r.has_file e)
  ]

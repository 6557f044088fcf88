-- ===== src/Agent/Upload/Available.antt =====
-- internal/agent/engine.go: which blobs the server has when a manifest is committed.
use claude_backup.Prelude.{
  Text, text_eq, ℕ, zero, suc, ◌≡◌, ◌≢◌, refl, sym, contains, contains-append, contains-take-drop,
  take, drop, true, false, not, ◌&&◌, ◌||◌, none, some, List, [], ◌∷◌, ◌++◌, ◌⊎◌, inl, inr, arith,
  Bool-cases, Option-cases, Sum-cases, text_eq_refl,
}
use claude_backup.Sql.Keys.{All, All-map}
use claude_backup.Proto.{ManifestEntry, RunStats}
use claude_backup.Agent.Upload.Hashed.{Hashed, upload_each-Hashed}
use claude_backup.Agent.Scan.{PathLib, Context, is_cancelled, is_regular}
use claude_backup.Agent.Upload.{
  World, Pass, Uploads, HashTable, hashes, needs_hash, has_hash, check_batches, check_all_blobs,
  by_hash, is_unavailable, drop_missing, count_dropped, final_check, finish_uploads, upload_missing,
}

-- What an agent relies on of the server's answers and of the hash: `Held h w` says that the server
-- has the blob `h` in the world `w`.
pub record BlobLaws {W : Type 0} (host : World W) (Held : Text → W → Type 0) : Type 0 where
  pub answered :
      (hs m : List Text) (w : W) (h : Text)
      → (host.check_blobs hs w).0 ≡ inr m
      → contains hs h ≡ true
      → contains m h ≡ false
      → Held h (host.check_blobs hs w).1
  pub kept : (hs : List Text) (w : W) (h : Text) → Held h w → Held h (host.check_blobs hs w).1
  pub hash_named : (b : List ℕ) → host.hash_of b ≢ []

-- The blob of every file is on the server.
abbrev pub AllHeld : {W : Type 0} → (Text → W → Type 0) → List ManifestEntry → W → Type 0
AllHeld Held es w = All (λ e. (is_regular e ≡ false) ⊎ Held e.hash w) es

hashes-snoc :
    (table : HashTable) (h k : Text) (i : ℕ)
    → contains (hashes (table ++ (k, i) ∷ [])) h ≡ contains (hashes table) h || text_eq k h
unfolding contains
hashes-snoc [] h k i = ground arith
hashes-snoc (r ∷ table) h k i = ground (arith, hashes-snoc table h k i)

-- Every hash of the files is a key of the map, or was one before.
by_hash-grows :
    (table : HashTable) (i : ℕ) (es : List ManifestEntry) (h : Text)
    → contains (hashes table) h ≡ true
    → contains (hashes (by_hash table i es)) h ≡ true
unfolding by_hash contains
by_hash-grows table i [] h c = c
by_hash-grows table i (e ∷ es) h c =
    elim (Bool-cases (has_hash e && not (contains (hashes table) e.hash))) [
      | inl new ↦ rw new (
          by_hash-grows (table ++ (e.hash, i) ∷ []) (suc i) es h
            (ground (arith, hashes-snoc table h e.hash i)))
      | inr old ↦ rw old (by_hash-grows table (suc i) es h c)
    ]

by_hash_complete :
    (table t : HashTable) (i : ℕ) (es : List ManifestEntry)
    → by_hash table i es ≡ t
    → All (λ e. has_hash e ≡ true → contains (hashes t) e.hash ≡ true) es
unfolding by_hash contains
by_hash_complete table t i [] q = tt
by_hash_complete table t i (e ∷ es) q =
    elim (Bool-cases (has_hash e && not (contains (hashes table) e.hash))) [
      | inl new ↦
          let rest = rw new at q in
          (
            λ f. rw (sym rest) (
                by_hash-grows (table ++ (e.hash, i) ∷ []) (suc i) es e.hash
                  (ground (arith, hashes-snoc table e.hash e.hash i, text_eq_refl e.hash))),
            by_hash_complete (table ++ (e.hash, i) ∷ []) t (suc i) es rest,
          )
      | inr old ↦
          let rest = rw old at q in
          (
            λ f. rw (sym rest) (by_hash-grows table (suc i) es e.hash (ground arith)),
            by_hash_complete table t (suc i) es rest,
          )
    ]

module _ {W : Type 0} (host : World W) (lib : PathLib) (Held : Text → W → Type 0)
    (laws : BlobLaws host Held) where
  check_batches-kept :
      (fuel batch : ℕ) (hs missing : List Text) (w : W) (h : Text)
      → Held h w
      → Held h (check_batches host lib fuel batch hs missing w).1
  unfolding check_batches
  check_batches-kept fuel batch [] missing w h held = held
  check_batches-kept zero batch (x ∷ xs) missing w h held = held
  check_batches-kept (suc fuel) batch (x ∷ xs) missing w h held =
      let held' = laws.kept (take batch (x ∷ xs)) w h held in
      elim (Sum-cases (host.check_blobs (take batch (x ∷ xs)) w).0) [
        | inl (e, lost) ↦ rw (lost, check_batches) held'
        | inr (m, answered) ↦
            rw (answered, check_batches)
              (check_batches-kept fuel batch (drop batch (x ∷ xs)) (missing ++ m) _ h held')
      ]

  check_batches-grows :
      (fuel batch : ℕ) (hs missing m : List Text) (w : W) (h : Text)
      → (check_batches host lib fuel batch hs missing w).0 ≡ some (inr m)
      → contains missing h ≡ true
      → contains m h ≡ true
  unfolding check_batches
  check_batches-grows fuel batch [] missing m w h r c = ground arith
  check_batches-grows zero batch (x ∷ xs) missing m w h r c = absurd (ground arith)
  check_batches-grows (suc fuel) batch (x ∷ xs) missing m w h r c =
      elim (Sum-cases (host.check_blobs (take batch (x ∷ xs)) w).0) [
        | inl (e, lost) ↦ absurd (ground arith)
        | inr (n, answered) ↦
            check_batches-grows fuel batch (drop batch (x ∷ xs)) (missing ++ n) m _ h
              (rw (answered, check_batches) at r) (ground (arith, contains-append missing n h))
      ]

  check_batches-answered :
      (fuel batch : ℕ) (hs missing m : List Text) (w : W) (h : Text)
      → (check_batches host lib fuel batch hs missing w).0 ≡ some (inr m)
      → contains hs h ≡ true
      → contains m h ≡ false
      → Held h (check_batches host lib fuel batch hs missing w).1
  unfolding check_batches contains
  check_batches-answered fuel batch [] missing m w h r c n = absurd (ground arith)
  check_batches-answered zero batch (x ∷ xs) missing m w h r c n = absurd (ground arith)
  check_batches-answered (suc fuel) batch (x ∷ xs) missing m w h r c n =
      let first = take batch (x ∷ xs) in
      let later = drop batch (x ∷ xs) in
      elim (Sum-cases (host.check_blobs first w).0) [
        | inl (e, lost) ↦ absurd (ground arith)
        | inr (k, got) ↦ elim (Bool-cases (contains later h)) [
          | inl there ↦
              rw (got, check_batches)
                (check_batches-answered fuel batch later (missing ++ k) m _ h
                  (rw (got, check_batches) at r) there n)
          | inr elsewhere ↦
              rw (got, check_batches)
                (check_batches-kept fuel batch later (missing ++ k) _ h (
                  laws.answered first k w h got
                    (ground (arith, contains-take-drop batch (x ∷ xs) h))
                    (ground (
                      arith,
                      contains-append missing k h,
                      check_batches-grows fuel batch later (missing ++ k) m
                          (host.check_blobs first w).1 h (rw (got, check_batches) at r),
                    ))))
        ]
      ]

  drop_missing-kept :
      (missing : List Text) (w : W) (es : List ManifestEntry) (st : RunStats)
      → All (λ e. has_hash e ≡ true → contains missing e.hash ≡ false → Held e.hash w) es
      → All (λ e. needs_hash e ≡ false) es
      → All (λ e. (is_regular e ≡ false) ⊎ Held e.hash w) (drop_missing missing es st).0
  unfolding drop_missing
  drop_missing-kept missing w [] st p q = tt
  drop_missing-kept missing w (e ∷ es) st p q = elim (Bool-cases (is_unavailable missing e)) [
    | inl gone ↦ rw gone (drop_missing-kept missing w es (count_dropped e st) p.1 q.1)
    | inr there ↦ rw there (
      elim (Bool-cases (is_regular e)) [
        | inl file ↦ inr (p.0 (ground (arith, q.0)) (ground arith))
        | inr other ↦ inl other
      ],
      drop_missing-kept missing w es st p.1 q.1,
    )
  ]

  final_check-AllHeld :
      (u : Uploads W) (st : RunStats) (c : Context)
      → Hashed u.entries
      → (final_check host lib u st c).outcome ≡ none
      → AllHeld Held
          (final_check host lib u st c).pass.kept
          (final_check host lib u st c).pass.world
  unfolding final_check check_all_blobs
  final_check-AllHeld u st c p done =
      elim (Option-cases (check_all_blobs host lib (hashes (by_hash [] 0 u.entries)) u.world).0) [
        | inl short ↦ absurd (ground arith)
        | inr (inl e, lost) ↦ absurd (ground arith)
        | inr (inr m, got) ↦
            rw (got, final_check)
              (drop_missing-kept m _ u.entries st
                (All-map u.entries
                  (λ e key f n.
                    check_batches-answered _ 1000 (hashes (by_hash [] 0 u.entries)) [] m u.world
                      e.hash got (key f) n)
                  (by_hash_complete [] _ 0 u.entries refl))
                p)
      ]

  finish_uploads-AllHeld :
      (u : Uploads W) (st : RunStats)
      → Hashed u.entries
      → (finish_uploads host lib u st).outcome ≡ none
      → AllHeld Held
          (finish_uploads host lib u st).pass.kept
          (finish_uploads host lib u st).pass.world
  unfolding finish_uploads
  finish_uploads-AllHeld u st p done = elim (Option-cases u.first_error) [
    | inr (e, failing) ↦ absurd (ground arith)
    | inl none_yet ↦ elim (Bool-cases (is_cancelled u.ctx).0) [
      | inl gone ↦ absurd (ground arith)
      | inr ongoing ↦
          rw (none_yet, ongoing, finish_uploads)
            (final_check-AllHeld u _ _ p (rw (none_yet, ongoing, finish_uploads) at done))
    ]
  ]

  -- Where the uploads end without an error, the server has the blob of every file that is kept.
  pub upload_missing-AllHeld :
      (p : Pass W)
      → Hashed p.kept
      → (upload_missing host lib p).outcome ≡ none
      → AllHeld Held (upload_missing host lib p).pass.kept (upload_missing host lib p).pass.world
  unfolding upload_missing
  upload_missing-AllHeld p hashed done =
      elim (Option-cases (check_all_blobs host lib (hashes (by_hash [] 0 p.kept)) p.world).0) [
        | inl short ↦ absurd (ground arith)
        | inr (inl e, lost) ↦ absurd (ground arith)
        | inr (inr m, got) ↦
            rw (got, upload_missing)
              (finish_uploads-AllHeld _ p.stats
                (upload_each-Hashed host lib laws.hash_named m _ _ hashed)
                (rw (got, upload_missing) at done))
      ]

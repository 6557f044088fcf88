-- ===== src/Agent/Upload/Batches.antt =====
-- internal/agent/engine.go: the batches in which the agent asks for the blobs that are missing.
use claude_backup.Prelude.{
  Text, ℕ, zero, suc, ◌≤◌, ◌≡◌, refl, length, take, drop, Bool, some, List, [], ◌∷◌, ◌++◌, ◌⊎◌, inl,
  inr, arith, Sum-cases,
}
use mathlib.Core.Path.{sym, ap, ◌∙◌}
use mathlib.Core.List.{append-nil, append_assoc}
use claude_backup.Sql.{select}
use claude_backup.Sql.Keys.{select-append}
use claude_backup.Agent.Scan.{PathLib}
use claude_backup.Agent.Upload.{RunError, World, check_batches, check_all_blobs}

take-append-drop : (n : ℕ) (xs : List Text) → take n xs ++ drop n xs ≡ xs
take-append-drop zero xs = refl
take-append-drop (suc n) [] = refl
take-append-drop (suc n) (x ∷ xs) = ap (λ l. x ∷ l) (take-append-drop n xs)

length-drop : (n : ℕ) (x : Text) (xs : List Text) → length (drop (suc n) (x ∷ xs)) ≤ length xs
length-drop zero x xs = omega arith
length-drop (suc n) x [] = omega arith
length-drop (suc n) x (y ∷ ys) = omega (arith, length-drop n y ys)

module _ {W : Type 0} (host : World W) (lib : PathLib) where
  check_batches-total :
      (fuel batch : ℕ) (hs missing : List Text) (w : W)
      → length hs ≤ fuel
      → (r : RunError ⊎ List Text) × ((check_batches host lib fuel (suc batch) hs missing w).0
          ≡ some r)
  unfolding check_batches
  check_batches-total zero batch [] missing w h = (inr missing, refl)
  check_batches-total (suc fuel) batch [] missing w h = (inr missing, refl)
  check_batches-total zero batch (x ∷ xs) missing w h = absurd (omega arith)
  check_batches-total (suc fuel) batch (x ∷ xs) missing w h =
      elim (Sum-cases (host.check_blobs (x ∷ take batch xs) w).0) [
        | inl (e, failed) ↦ rw (failed, check_batches) (inl e, refl)
        | inr (m, answered) ↦
            rw (answered, check_batches)
              (check_batches-total fuel batch (drop batch xs) (missing ++ m)
                (host.check_blobs (x ∷ take batch xs) w).1
                (omega (arith, h, length-drop batch x xs)))
      ]

  -- The loop over the batches ends, for any number of hashes and whatever the server answers: the
  -- check of all blobs returns an error or a list.
  pub check_all_blobs-total :
      (hs : List Text) (w : W)
      → (r : RunError ⊎ List Text) × ((check_all_blobs host lib hs w).0 ≡ some r)
  unfolding check_all_blobs
  check_all_blobs-total hs w = check_batches-total (length hs) 999 hs [] w (omega arith)

-- What the batches return where the server answers each request by the hashes of it that it lacks.
module _ {W : Type 0} (host : World W) (lib : PathLib) (lacks : Text → Bool)
    (answers : (hs : List Text) (w : W) → host.check_blobs hs w ≡ (inr (select lacks hs), w)) where
  check_batches-select :
      (fuel batch : ℕ) (hs missing : List Text) (w : W)
      → length hs ≤ fuel
      → check_batches host lib fuel (suc batch) hs missing w
        ≡ (some (inr (missing ++ select lacks hs)), w)
  unfolding check_batches select
  check_batches-select zero batch [] missing w h =
      ap (λ l. (some (inr l), w)) (sym (append-nil missing))
  check_batches-select (suc fuel) batch [] missing w h =
      ap (λ l. (some (inr l), w)) (sym (append-nil missing))
  check_batches-select zero batch (x ∷ xs) missing w h = absurd (omega arith)
  check_batches-select (suc fuel) batch (x ∷ xs) missing w h =
      rw
        (
          ap (λ r. r.0) (answers (x ∷ take batch xs) w),
          ap (λ r. r.1) (answers (x ∷ take batch xs) w),
          check_batches,
        )
        (check_batches-select fuel batch (drop batch xs)
            (missing ++ select lacks (x ∷ take batch xs)) w
            (omega (arith, h, length-drop batch x xs))
          ∙ ap (λ l. (some (inr l), w))
              (append_assoc missing (select lacks (x ∷ take batch xs))
                  (select lacks (drop batch xs))
                ∙ ap (λ l. missing ++ l)
                    (sym (select-append lacks (x ∷ take batch xs) (drop batch xs))
                      ∙ ap (λ l. select lacks (x ∷ l)) (take-append-drop batch xs))))

  -- Against a server that answers each request by the hashes of it that it lacks, the check in
  -- batches of 1000 returns what one request for all the hashes returns.
  pub check_all_blobs-check_blobs :
      (hs : List Text) (w : W) → check_all_blobs host lib hs w ≡ (some (host.check_blobs hs w).0, w)
  unfolding check_all_blobs
  check_all_blobs-check_blobs hs w =
      rw answers (check_batches-select (length hs) 999 hs [] w (omega arith))

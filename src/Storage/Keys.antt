-- ===== src/Storage/Keys.antt =====
-- internal/server/storage/storage.go: where an object lives in its backend.
use claude_backup.Prelude.{
  Text, codes, ℕ, ◌+◌, ◌≡◌, refl, ap, ◌≢◌, [], ◌∷◌, ◌++◌, take, length, length-append, arith,
}

unfoldable pub blob_key : Text → Text
blob_key hash = codes "blobs/" ++ (take 2 hash ++ (codes "/" ++ (hash ++ codes ".zst")))

unfoldable pub manifest_key : Text → Text
manifest_key snapshot_id = codes "manifests/" ++ (snapshot_id ++ codes ".jsonl.zst")

unfoldable pub transfer_key : Text → Text
transfer_key transfer_id = codes "transfers/" ++ (transfer_id ++ codes ".zst")

append_cancel :
    (xs ys us vs : Text) → length xs ≡ length ys → xs ++ us ≡ ys ++ vs → (xs ≡ ys) × (us ≡ vs)
append_cancel [] [] us vs l e = (refl, e)
append_cancel [] (y ∷ ys) us vs l e = absurd (omega arith)
append_cancel (x ∷ xs) [] us vs l e = absurd (omega arith)
append_cancel (x ∷ xs) (y ∷ ys) us vs l e =
    let rest = append_cancel xs ys us vs (omega arith) (cc) in (cc rest.0, rest.1)

take_two_mono :
    (h k : Text) → length h + length (take 2 h) ≡ length k + length (take 2 k) → length h ≡ length k
take_two_mono [] [] e = refl
take_two_mono [] (d ∷ []) e = absurd (omega arith)
take_two_mono [] (d ∷ d' ∷ k) e = absurd (omega arith)
take_two_mono (c ∷ []) [] e = absurd (omega arith)
take_two_mono (c ∷ []) (d ∷ []) e = refl
take_two_mono (c ∷ []) (d ∷ d' ∷ k) e = absurd (omega arith)
take_two_mono (c ∷ c' ∷ h) [] e = absurd (omega arith)
take_two_mono (c ∷ c' ∷ h) (d ∷ []) e = absurd (omega arith)
take_two_mono (c ∷ c' ∷ h) (d ∷ d' ∷ k) e = omega arith

length-blob_key : (h : Text) → length (blob_key h) ≡ length h + length (take 2 h) + 11
unfolding blob_key
length-blob_key h = omega (
  arith,
  length-append (take 2 h) (codes "/" ++ (h ++ codes ".zst")),
  length-append h (codes ".zst"),
)

-- Blobs of different hashes have different keys.
pub blob_key-injective : (h k : Text) → blob_key h ≡ blob_key k → h ≡ k
unfolding blob_key
blob_key-injective h k e =
    (append_cancel h k _ _ same (append_cancel slash slash _ _ refl tails).1).0
  where
    slash : Text
    slash = codes "/"

    sizes : length h + length (take 2 h) ≡ length k + length (take 2 k)
    sizes = omega (arith, ap length e, length-blob_key h, length-blob_key k)

    same : length h ≡ length k
    same = take_two_mono h k sizes

    tails : slash ++ (h ++ codes ".zst") ≡ slash ++ (k ++ codes ".zst")
    tails =
        (append_cancel (take 2 h) (take 2 k) _ _ (omega (arith, sizes, same))
          (append_cancel (codes "blobs/") (codes "blobs/") _ _ refl e).1).1

abbrev first_byte : Text → ℕ
first_byte [] = 0
first_byte (c ∷ t) = c

-- A blob never has the key of a manifest.
pub blob_key-ne-manifest_key : (h id : Text) → blob_key h ≢ manifest_key id
unfolding blob_key manifest_key
blob_key-ne-manifest_key h id e = absurd (omega (arith, ap first_byte e))

-- Manifests of different snapshots have different keys.
pub manifest_key-injective : (i j : Text) → manifest_key i ≡ manifest_key j → i ≡ j
unfolding manifest_key
manifest_key-injective i j e =
    (append_cancel i j _ _
      (omega (
        arith,
        ap length e,
        length-append i (codes ".jsonl.zst"),
        length-append j (codes ".jsonl.zst"),
      ))
      (append_cancel (codes "manifests/") (codes "manifests/") _ _ refl e).1).0

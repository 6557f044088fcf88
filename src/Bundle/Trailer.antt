-- ===== src/Bundle/Trailer.antt =====
-- internal/bundle/bundle.go: the round trip of the appended enrollment.
use native.Mathlib.Nat.{pow-succ'}
use claude_backup.Prelude.{
  text_eq_refl, ℕ, zero, suc, ◌+◌, ◌-◌, ◌*◌, ◌/◌, ◌%◌, ◌^◌, ◌<◌, ltb, ◌≡◌, refl, ap, ◌∙◌, false,
  Option, some, List, [], ◌∷◌, ◌++◌, length, length-append, take, drop, arith,
}
use claude_backup.Storage.{Bytes}
use claude_backup.Bundle.{magic, max_len, big_endian, from_big_endian, enrollment, append, read}

length-big_endian : (k n : ℕ) → length (big_endian k n) ≡ k
unfolding big_endian
length-big_endian zero n = refl
length-big_endian (suc k) n =
    omega (
      arith,
      length-append (big_endian k (n / 256)) ((n % 256) ∷ []),
      length-big_endian k (n / 256),
    )

from_big_endian-append :
    (acc c : ℕ) (xs : Bytes) → from_big_endian acc (xs ++ c ∷ []) ≡ from_big_endian acc xs * 256 + c
unfolding from_big_endian
from_big_endian-append acc c [] = refl
from_big_endian-append acc c (x ∷ xs) = from_big_endian-append (acc * 256 + x) c xs

-- A number that fits in k bytes is read back from them.
pub from_big_endian-big_endian : (k n : ℕ) → n < 256 ^ k → from_big_endian 0 (big_endian k n) ≡ n
unfolding big_endian from_big_endian
from_big_endian-big_endian zero n h = omega arith
from_big_endian-big_endian (suc k) n h =
    let power : 256 ^ suc k ≡ 256 * 256 ^ k = pow-succ' 256 k in
    omega (
      arith,
      power,
      from_big_endian-append 0 (n % 256) (big_endian k (n / 256)),
      from_big_endian-big_endian k (n / 256) (omega (arith, power)),
    )

drop-append : {A : Type 0} (xs ys : List A) → drop (length xs) (xs ++ ys) ≡ ys
drop-append [] ys = refl
drop-append (x ∷ xs) ys = drop-append xs ys

take-append : {A : Type 0} (xs ys : List A) → take (length xs) (xs ++ ys) ≡ xs
take-append [] ys = refl
take-append (x ∷ xs) ys = ap (λ l. x ∷ l) (take-append xs ys)

append_assoc : (xs ys zs : Bytes) → xs ++ (ys ++ zs) ≡ (xs ++ ys) ++ zs
append_assoc [] ys zs = refl
append_assoc (x ∷ xs) ys zs = ap (λ l. x ∷ l) (append_assoc xs ys zs)

module _ {E : Type 0} (marshal : E → Bytes) (unmarshal : Bytes → Option E) (exe : Bytes)
    (e : E) where
  abbrev blob : Bytes
  blob = marshal e

  abbrev footer : Bytes
  footer = big_endian 8 (length blob) ++ magic

  abbrev bundled : Bytes
  bundled = exe ++ (blob ++ footer)

  length-footer : length footer ≡ 24
  unfolding big_endian
  length-footer =
      omega
        (arith, length-append (big_endian 8 (length blob)) magic, length-big_endian 8 (length blob))

  length-bundled : length bundled ≡ length exe + length blob + 24
  length-bundled =
      omega (arith, length-append exe (blob ++ footer), length-append blob footer, length-footer)

  footer_at : drop (length bundled - 24) bundled ≡ footer
  footer_at =
      let at : length bundled - 24 ≡ length (exe ++ blob) =
        omega (arith, length-bundled, length-append exe blob) in
      rw (at, append_assoc exe blob footer) (drop-append (exe ++ blob) footer)

  take-footer : take 24 footer ≡ footer
  unfolding big_endian
  take-footer = refl

  size_at : take 8 footer ≡ big_endian 8 (length blob)
  unfolding big_endian
  size_at = refl

  magic_at : drop 8 footer ≡ magic
  unfolding big_endian
  magic_at = refl

  blob_at : take (length blob) (drop (length bundled - 24 - length blob) bundled) ≡ blob
  blob_at =
      let at : length bundled - 24 - length blob ≡ length exe = omega (arith, length-bundled) in
      rw at (ap (take (length blob)) (drop-append exe (blob ++ footer)) ∙ take-append blob footer)

  -- What is appended to a binary is read back from it, where the JSON of the enrollment is not empty
  -- and decodes to it. (`append` refuses JSON of more than 1 MiB.)
  pub read-append :
      (file : Bytes)
      → append marshal unmarshal exe e ≡ some file
      → 0 < length (marshal e)
      → unmarshal (marshal e) ≡ some e
      → read marshal unmarshal file ≡ enrollment e
  unfolding append read
  read-append file h nonempty json =
      let n = length (marshal e) in
      let small : ltb max_len n ≡ false = ground arith in
      let same : bundled ≡ file = ground arith in
      let size : from_big_endian 0 (take 8 footer) ≡ n =
        rw size_at (from_big_endian-big_endian 8 n (ground arith)) in
      rw⁻¹ same (
        rw (footer_at, take-footer, magic_at, size, text_eq_refl magic, blob_at, json)
          (ground (arith, length-bundled)))

-- ===== src/Bundle.antt =====
-- internal/bundle/bundle.go: the enrollment that is appended to an agent binary, and its footer. A
-- file is its bytes, and reading or writing it does not fail. JSON is a parameter.
pub mod Trailer
use claude_backup.Prelude.{
  codes, text_eq, ℕ, zero, suc, ◌+◌, ◌-◌, ◌*◌, ◌/◌, ◌%◌, ltb, ◌==◌, Bool, true, false, not, ◌||◌,
  Option, none, some, List, [], ◌∷◌, ◌++◌, length, take, drop, if◌then◌else◌,
}
use claude_backup.Storage.{Bytes}

abbrev pub magic : Bytes
magic = codes "CBAGENTCFGv1" ++ 0 ∷ 0 ∷ 0 ∷ 0 ∷ []

abbrev pub footer_len : ℕ
footer_len = 24

abbrev pub max_len : ℕ
max_len = 1048576

-- binary.BigEndian, for a number of some bytes
unfoldable pub big_endian : ℕ → ℕ → Bytes
big_endian zero n = []
big_endian (suc k) n = big_endian k (n / 256) ++ (n % 256) ∷ []

unfoldable pub from_big_endian : ℕ → Bytes → ℕ
from_big_endian acc [] = acc
from_big_endian acc (c ∷ cs) = from_big_endian (acc * 256 + c) cs

-- What `Read` finds: nothing appended, an enrollment, or one of its two errors.
pub data Found (E : Type 0) : Type 0 where
  absent implausible_length invalid_json : Found E
  enrollment : E → Found E

module _ {E : Type 0} (marshal : E → Bytes) (unmarshal : Bytes → Option E) where
  -- `none` where the blob is too large.
  unfoldable pub append : Bytes → E → Option Bytes
  append exe e =
      let blob = marshal e in
      if ltb max_len (length blob)
      then none
      else some (exe ++ (blob ++ (big_endian 8 (length blob) ++ magic)))

  abbrev pub decoded : Option E → Found E
  decoded none = invalid_json
  decoded (some e) = enrollment e

  -- A length of 2 ^ 63 or more is negative as an int64 in the source, and refused there too.
  unfoldable pub read : Bytes → Found E
  read file =
      let footer = take footer_len (drop (length file - footer_len) file) in
      let n = from_big_endian 0 (take 8 footer) in
      if ltb (length file) footer_len
      then absent
      else if not (text_eq (drop 8 footer) magic)
      then absent
      else if n == 0 || ltb max_len n || ltb (length file - footer_len) n
      then implausible_length
      else decoded (unmarshal (take n (drop (length file - footer_len - n) file)))

-- ===== src/Agent/Upload/Hashed.antt =====
-- internal/agent/engine.go: the files that have a hash after the hash pass and after the uploads.
use claude_backup.Prelude.{
  Text, text_eq, ℕ, zero, suc, ◌≡◌, ◌≢◌, true, false, none, some, List, [], ◌∷◌, inl, inr, arith,
  Bool-cases, Option-cases, text_eq_iff,
}
use mathlib.Core.Bool.{true≢false}
use mathlib.Core.Path.{sym, ◌∙◌}
use claude_backup.Sql.Keys.{All}
use claude_backup.Proto.{ManifestEntry, RunStats}
use claude_backup.Agent.Scan.{PathLib, Context, is_cancelled}
use claude_backup.Agent.Upload.{
  World, Uploads, Upload, uploaded, failed, HashTable, needs_hash, count_dropped, count_changed,
  hash_file, hash_entries, set_hash, note_upload, upload_each,
}

-- No file of a list is without its hash.
abbrev pub Hashed : List ManifestEntry → Type 0
Hashed = All (λ e. needs_hash e ≡ false)

named_hash : (e : ManifestEntry) (h : Text) → h ≢ [] → needs_hash (record e { hash = h }) ≡ false
named_hash e h n = elim (Bool-cases (text_eq h [])) [
  | inl empty ↦ absurd (n ((text_eq_iff h []).0 empty))
  | inr named ↦ rw named (ground arith)
]

set_hash-Hashed :
    (i : ℕ) (h : Text) (es : List ManifestEntry)
    → text_eq h [] ≡ false
    → Hashed es
    → Hashed (set_hash i h es)
unfolding set_hash
set_hash-Hashed zero h [] n p = tt
set_hash-Hashed (suc i) h [] n p = tt
set_hash-Hashed zero h (e ∷ es) n p = (ground (arith, n), p.1)
set_hash-Hashed (suc i) h (e ∷ es) n p = (p.0, set_hash-Hashed i h es n p.1)

note_upload-Hashed :
    {W : Type 0} (r : Upload) (h : Text) (i : ℕ) (u : Uploads W)
    → Hashed u.entries
    → Hashed (note_upload r h i u).entries
unfolding note_upload
note_upload-Hashed (failed e) h i u p = p
note_upload-Hashed (uploaded n got) h i u p = elim (Bool-cases (text_eq got [])) [
  | inl empty ↦ rw empty p
  | inr named ↦ elim (Bool-cases (text_eq got h)) [
    | inl same ↦ rw (named, same) p
    | inr new ↦ rw (named, new) (set_hash-Hashed i got u.entries named p)
  ]
]

-- A cancelled context stays cancelled.
pub is_cancelled_again :
    (c : Context) → (is_cancelled c).0 ≡ true → (is_cancelled (is_cancelled c).1).0 ≡ true
unfolding is_cancelled
is_cancelled_again none h = h
is_cancelled_again (some zero) h = h
is_cancelled_again (some (suc n)) h = absurd (ground arith)

module _ {W : Type 0} (host : World W) (lib : PathLib)
    (hash_named : (b : List ℕ) → host.hash_of b ≢ []) where
  -- Where the context is not cancelled after the hash pass, every file that the pass keeps has a hash.
  pub hash_entries-Hashed :
      (es : List ManifestEntry) (st : RunStats) (c : Context) (w : W)
      → (is_cancelled (hash_entries host lib es st c w).ctx).0 ≡ false
      → Hashed (hash_entries host lib es st c w).kept
  unfolding hash_entries hash_file is_cancelled
  hash_entries-Hashed [] st c w live = tt
  hash_entries-Hashed (e ∷ es) st c w live = elim (Bool-cases (needs_hash e)) [
    | inr fine ↦
        rw (fine, hash_entries)
          (fine, hash_entries-Hashed es st c w (rw (fine, hash_entries) at live))
    | inl due ↦ elim (Bool-cases (is_cancelled c).0) [
      | inl gone ↦
          absurd
            (true≢false (sym (is_cancelled_again c gone) ∙ rw (due, gone, hash_entries) at live))
      | inr ongoing ↦ elim (Option-cases (host.read (lib.from_slash e.path) w).0) [
        | inl lost ↦
            rw (due, ongoing, lost, hash_entries)
              (hash_entries-Hashed es (count_dropped e st) (is_cancelled c).1 _
                (rw (due, ongoing, lost, hash_entries) at live))
        | inr (b, found) ↦
            rw (due, ongoing, found, hash_entries)
              (
                named_hash e (host.hash_of b) (hash_named b),
                hash_entries-Hashed es (count_changed st) (is_cancelled c).1 _
                    (rw (due, ongoing, found, hash_entries) at live),
              )
      ]
    ]
  ]

  pub upload_each-Hashed :
      (hs : List Text) (table : HashTable) (u : Uploads W)
      → Hashed u.entries
      → Hashed (upload_each host lib hs table u).entries
  unfolding upload_each
  upload_each-Hashed [] table u p = p
  upload_each-Hashed (h ∷ hs) table u p = elim (Bool-cases (is_cancelled u.ctx).0) [
    | inl gone ↦ rw (gone, upload_each) p
    | inr ongoing ↦
        rw (ongoing, upload_each) (upload_each-Hashed hs table _ (note_upload-Hashed _ h _ _ p))
  ]

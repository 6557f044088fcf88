-- ===== src/Server/Gc/Marking.antt =====
-- internal/server/gc.go and manifest.go: the marking phase of a collection.
use mathlib.Core.Path.{subst}
use claude_backup.Prelude.{
  Text, text_eq, text_eq_refl, contains, ◌≡◌, refl, ◌∙◌, Bool, true, false, some, List, [], ◌∷◌,
  arith, Bool-cases, Option-cases, inl, inr,
}
use claude_backup.Sql.{first}
use claude_backup.Sql.Members.{In}
use claude_backup.Proto.{ManifestEntry}
use claude_backup.Store.{Snapshot}
use claude_backup.Storage.{Object, Objects, Bytes, key_is, get}
use claude_backup.Server.{Server}
use claude_backup.Server.Gc.{Codec, is_file, note_entry, mark_lines, mark_manifest, mark}

-- The rows, the objects and the clock are those of before.
pub record SameData (s t : Server) : Type 0 where
  pub same_store : t.store ≡ s.store
  pub same_items : t.objects.items ≡ s.objects.items
  pub same_backend : t.backend_key ≡ s.backend_key

pub SameData-trans : (s t u : Server) → SameData s t → SameData t u → SameData s u
SameData-trans s t u p q = record {
  same_store = q.same_store ∙ p.same_store;
  same_items = q.same_items ∙ p.same_items;
  same_backend = q.same_backend ∙ p.same_backend;
}

get-items : (key : Text) (o : Objects) → (get key o).1.items ≡ o.items
unfolding get
get-items key o = ground arith

-- What a call of Get returns is the object under the key, or a failure.
get-content :
    (key : Text) (o : Objects) (x : Object) (b : Bytes)
    → first (key_is key) o.items ≡ some x
    → (get key o).0 ≡ some b
    → b ≡ x.content
unfolding get
get-content key o x b f g = ground arith

module _ (codec : Codec) where
  mark_manifest-SameData :
      (key : Text) (refs : List Text) (s : Server) → SameData s (mark_manifest codec key refs s).1
  unfolding mark_manifest
  mark_manifest-SameData key refs s = record {
    same_store = refl;
    same_items = get-items key s.objects;
    same_backend = refl;
  }

  note_entry-contains :
      (h : Text) (refs : List Text) (e : ManifestEntry)
      → contains refs h ≡ true
      → contains (note_entry refs e) h ≡ true
  unfolding contains
  note_entry-contains h refs e c = ground arith

  note_entry_self :
      (refs : List Text) (e : ManifestEntry)
      → is_file e ≡ true
      → contains (note_entry refs e) e.hash ≡ true
  unfolding contains
  note_entry_self refs e f = ground (arith, text_eq_refl e.hash)

  -- A hash that was seen stays seen.
  mark_lines-contains :
      (lines : List Text) (complete : Bool) (h : Text) (refs : List Text) {found : List Text}
      → contains refs h ≡ true
      → mark_lines codec lines complete refs ≡ some found
      → contains found h ≡ true
  unfolding mark_lines
  mark_lines-contains [] complete h refs c m = ground arith
  mark_lines-contains (line ∷ lines) complete h refs {found} c m =
      elim (Bool-cases (text_eq line [])) [
        | inl blank ↦ mark_lines-contains lines complete h refs c (rw blank at m)
        | inr full ↦ elim (Option-cases (codec.entry line)) [
          | inl bad ↦ absurd (ground arith)
          | inr (e, good) ↦
              mark_lines-contains lines complete h (note_entry refs e)
                (note_entry-contains h refs e c) (ground arith)
        ]
      ]

  -- A file whose line stands in the manifest is seen.
  mark_lines_file :
      (lines : List Text) (complete : Bool) (line : Text) (e : ManifestEntry) (refs : List Text)
      {found : List Text}
      → In line lines
      → text_eq line [] ≡ false
      → codec.entry line ≡ some e
      → is_file e ≡ true
      → mark_lines codec lines complete refs ≡ some found
      → contains found e.hash ≡ true
  unfolding mark_lines
  mark_lines_file [] complete line e refs h full good f m = absurd h
  mark_lines_file (x ∷ lines) complete line e refs {found} (inl same) full good f m =
      mark_lines-contains lines complete e.hash (note_entry refs e) (note_entry_self refs e f)
        (ground arith)
  mark_lines_file (x ∷ lines) complete line e refs {found} (inr h) full good f m =
      elim (Bool-cases (text_eq x [])) [
        | inl blank ↦ mark_lines_file lines complete line e refs h full good f (rw blank at m)
        | inr other ↦ elim (Option-cases (codec.entry x)) [
          | inl bad ↦ absurd (ground arith)
          | inr (e', good') ↦
              mark_lines_file lines complete line e (note_entry refs e') h full good f
                (ground arith)
        ]
      ]

  mark_manifest-contains :
      (key h : Text) (refs : List Text) (s : Server) {found : List Text}
      → contains refs h ≡ true
      → (mark_manifest codec key refs s).0 ≡ some found
      → contains found h ≡ true
  unfolding mark_manifest
  mark_manifest-contains key h refs s c m = elim (Option-cases (get key s.objects).0) [
    | inl e ↦ absurd (ground arith)
    | inr (b, e) ↦ mark_lines-contains (codec.lines b).0 (codec.lines b).1 h refs c (ground arith)
  ]

  -- A file entry of the manifest that an object holds.
  pub record HasFile (x : Object) (h : Text) : Type 0 where
    pub line : Text
    pub entry : ManifestEntry
    pub listed : In line (codec.lines x.content).0
    pub full : text_eq line [] ≡ false
    pub decoded : codec.entry line ≡ some entry
    pub file : is_file entry ≡ true
    pub hash : entry.hash ≡ h

  mark_manifest_file :
      (key h : Text) (refs : List Text) (s : Server) (x : Object) {found : List Text}
      → first (key_is key) s.objects.items ≡ some x
      → HasFile x h
      → (mark_manifest codec key refs s).0 ≡ some found
      → contains found h ≡ true
  unfolding mark_manifest
  mark_manifest_file key h refs s x {found} f has m = elim (Option-cases (get key s.objects).0) [
    | inl e ↦ absurd (ground arith)
    | inr (b, e) ↦
        subst (λ k. contains found k ≡ true) has.hash
          (mark_lines_file (codec.lines b).0 (codec.lines b).1 has.line has.entry refs
            (rw (get-content key s.objects x b f e) has.listed) has.full has.decoded has.file
            (ground arith))
  ]

  mark-contains :
      (sns : List Snapshot) (h : Text) (refs : List Text) (s : Server) {found : List Text}
      → contains refs h ≡ true
      → (mark codec sns refs s).0 ≡ some found
      → contains found h ≡ true
  unfolding mark
  mark-contains [] h refs s c m = ground arith
  mark-contains (sn ∷ sns) h refs s c m =
      elim (Option-cases (mark_manifest codec sn.manifest_key refs s).0) [
        | inl e ↦ absurd (ground arith)
        | inr (refs', e) ↦
            mark-contains sns h refs' (mark_manifest codec sn.manifest_key refs s).1
              (mark_manifest-contains sn.manifest_key h refs s c e) (ground arith)
      ]

  pub mark-SameData :
      (sns : List Snapshot) (refs : List Text) (s : Server) → SameData s (mark codec sns refs s).1
  unfolding mark
  mark-SameData [] refs s = record { same_store = refl; same_items = refl; same_backend = refl }
  mark-SameData (sn ∷ sns) refs s =
      elim (Option-cases (mark_manifest codec sn.manifest_key refs s).0) [
        | inl e ↦ rw (e, mark) (mark_manifest-SameData sn.manifest_key refs s)
        | inr (refs', e) ↦
            rw (e, mark)
              (SameData-trans s _ _ (mark_manifest-SameData sn.manifest_key refs s)
                (mark-SameData sns refs' (mark_manifest codec sn.manifest_key refs s).1))
      ]

  -- Marking that comes to its end has seen every file of the listed snapshots.
  pub mark_file :
      (sns : List Snapshot) (sn : Snapshot) (x : Object) (h : Text) (refs : List Text) (s : Server)
      {found : List Text}
      → In sn sns
      → first (key_is sn.manifest_key) s.objects.items ≡ some x
      → HasFile x h
      → (mark codec sns refs s).0 ≡ some found
      → contains found h ≡ true
  unfolding mark
  mark_file [] sn x h refs s i f has m = absurd i
  mark_file (y ∷ sns) sn x h refs s (inl same) f has m =
      elim (Option-cases (mark_manifest codec y.manifest_key refs s).0) [
        | inl e ↦ absurd (ground arith)
        | inr (refs', e) ↦
            mark-contains sns h refs' (mark_manifest codec y.manifest_key refs s).1
              (mark_manifest_file y.manifest_key h refs s x
                (subst (λ z. first (key_is z.manifest_key) s.objects.items ≡ some x) same f) has e)
              (ground arith)
      ]
  mark_file (y ∷ sns) sn x h refs s (inr i) f has m =
      elim (Option-cases (mark_manifest codec y.manifest_key refs s).0) [
        | inl e ↦ absurd (ground arith)
        | inr (refs', e) ↦
            mark_file sns sn x h refs' (mark_manifest codec y.manifest_key refs s).1 i
              (rw (mark_manifest-SameData y.manifest_key refs s).same_items f) has (ground arith)
      ]

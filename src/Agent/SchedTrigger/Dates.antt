-- ===== src/Agent/SchedTrigger/Dates.antt =====
-- internal/agent/schedtask.go: what is matched at the front of a date has no quote in it.
use claude_backup.Prelude.{
  leb, ltb, Text, codes, ℕ, ◌==◌, ◌≡◌, refl, Bool, true, false, ◌&&◌, Option, none, some, List, [],
  ◌∷◌, ◌++◌, arith, Bool-cases, inl, inr,
}
use claude_backup.Agent.SchedTrigger.{
  ScheduleSpec, quote, match, is, groups, date_of, minute_classes, once_at, labelled, date_labels,
  once, date_groups, after_colon, early, late,
}
use claude_backup.Agent.SchedTrigger.Plain.{
  no_quotes, no_quotes-append, all_plain, plain, plain_list, all_plain-append, no_quotes-labelled,
}

-- The classes of a list are of ASCII, and have no quote.
unfoldable excludes_quote : List (ℕ × ℕ) → Bool
excludes_quote [] = true
excludes_quote (p ∷ ps) = ltb quote p.0 && ltb p.1 128 && excludes_quote ps

-- What a function found, if it found anything.
unfoldable plain_found : Option (Text × Text) → Bool
unfolding no_quotes
plain_found none = true
plain_found (some (found, after)) = no_quotes found

plain_found-match :
    (ps : List (ℕ × ℕ)) (s : Text) → excludes_quote ps ≡ true → plain_found (match ps s) ≡ true
unfolding match plain_found no_quotes excludes_quote
plain_found-match [] s h = refl
plain_found-match (p ∷ ps) [] h = refl
plain_found-match (p ∷ ps) (c ∷ s) h = elim (Bool-cases (leb p.0 c && leb c p.1)) [
  | inr out ↦ rw out refl
  | inl within ↦
      rw within
        (go (match ps s) (plain_found-match ps s (ground arith)) (ground arith) (ground arith))
]
  where
    go :
        (rest : Option (Text × Text))
        → plain_found rest ≡ true
        → c == quote ≡ false
        → ltb c 128 ≡ true
        → plain_found (elim rest [ none ↦ none | some (found, after) ↦ some (c ∷ found, after) ])
          ≡ true
    go none r q a = refl
    go (some (found, after)) r q a = ground arith

unfoldable excludes_quotes : List (List (ℕ × ℕ) × ℕ) → Bool
unfolding excludes_quote
excludes_quotes [] = true
excludes_quotes ((p, mark) ∷ ps) = excludes_quote p && excludes_quotes ps

unfoldable plain_groups : Option (List Text × Text) → Bool
unfolding all_plain
plain_groups none = true
plain_groups (some (gs, after)) = all_plain gs

plain_groups-groups :
    (ps : List (List (ℕ × ℕ) × ℕ)) (s : Text)
    → excludes_quotes ps ≡ true
    → plain_groups (groups ps s) ≡ true
unfolding groups plain_groups plain_found all_plain excludes_quotes
plain_groups-groups [] s h = refl
plain_groups-groups ((p, mark) ∷ ps) s h =
    found (λ t. plain_groups-groups ps t (ground arith)) (match p s)
      (plain_found-match p s (ground arith))
  where
    ended :
        (g : Text)
        → no_quotes g ≡ true
        → (r : Option (List Text × Text)) → plain_groups r ≡ true
        → plain_groups (elim r [ none ↦ none | some (gs, end) ↦ some (g ∷ gs, end) ]) ≡ true
    ended g h none k = refl
    ended g h (some (gs, end)) k = ground arith

    marked :
        ((t : Text) → plain_groups (groups ps t) ≡ true)
        → (g : Text) → no_quotes g ≡ true
        → (r : Option (Text × Text))
        → plain_groups (elim r [
          | none ↦ none
          | some (m, rest) ↦ elim (groups ps rest) [
            | none ↦ none
            | some (gs, end) ↦ some (g ∷ gs, end)
          ]
        ])
          ≡ true
    marked rest g h none = refl
    marked rest g h (some (m, t)) = ended g h (groups ps t) (rest t)

    found :
        ((t : Text) → plain_groups (groups ps t) ≡ true)
        → (r : Option (Text × Text)) → plain_found r ≡ true
        → plain_groups (elim r [
          | none ↦ none
          | some (g, after) ↦ elim (match (is mark ∷ []) after) [
            | none ↦ none
            | some (m, rest) ↦ elim (groups ps rest) [
              | none ↦ none
              | some (gs, end) ↦ some (g ∷ gs, end)
            ]
          ]
        ])
          ≡ true
    found rest none k = refl
    found rest (some (g, after)) k = marked rest g k (match (is mark ∷ []) after)

module _ (gs : List Text) (plain_gs : all_plain gs ≡ true) (m : Text)
    (plain_m : no_quotes m ≡ true) where
  plain_list-seconds :
      (r : Option (Text × Text))
      → plain_found r ≡ true
      → plain_list (elim r [
        | none ↦ some (gs ++ m ∷ (b'0' ∷ []) ∷ [])
        | some (sec, end) ↦ some (gs ++ m ∷ sec ∷ [])
      ])
        ≡ true
  unfolding plain_list plain_found all_plain no_quotes
  plain_list-seconds none k = all_plain-append gs _ plain_gs (ground (arith, plain_m))
  plain_list-seconds (some (sec, end)) k = all_plain-append gs _ plain_gs (ground (arith, plain_m))

plain_list-minute :
    (gs : List Text)
    → all_plain gs ≡ true
    → (r : Option (Text × Text)) → plain_found r ≡ true
    → plain_list (elim r [
      | none ↦ none
      | some (m, rest) ↦ elim (match minute_classes (after_colon rest)) [
        | none ↦ some (gs ++ m ∷ (b'0' ∷ []) ∷ [])
        | some (sec, end) ↦ some (gs ++ m ∷ sec ∷ [])
      ]
    ])
      ≡ true
unfolding plain_list plain_found excludes_quote
plain_list-minute gs h none k = refl
plain_list-minute gs h (some (m, rest)) k =
    plain_list-seconds gs h m k (match minute_classes (after_colon rest))
      (plain_found-match minute_classes (after_colon rest) refl)

plain_list-date_of :
    (hour : List (ℕ × ℕ)) (s : Text)
    → excludes_quote hour ≡ true
    → plain_list (date_of hour s) ≡ true
unfolding date_of plain_list plain_groups excludes_quotes excludes_quote
plain_list-date_of hour s h =
    go (groups (date_groups hour) s) (plain_groups-groups (date_groups hour) s (ground arith))
  where
    go :
        (r : Option (List Text × Text))
        → plain_groups r ≡ true
        → plain_list (elim r [
          | none ↦ none
          | some (gs, after) ↦ elim (match minute_classes after) [
            | none ↦ none
            | some (m, rest) ↦ elim (match minute_classes (after_colon rest)) [
              | none ↦ some (gs ++ m ∷ (b'0' ∷ []) ∷ [])
              | some (sec, end) ↦ some (gs ++ m ∷ sec ∷ [])
            ]
          ]
        ])
          ≡ true
    go none k = refl
    go (some (gs, after)) k =
        plain_list-minute gs k (match minute_classes after)
          (plain_found-match minute_classes after refl)

plain_list-once_at : (s : Text) → plain_list (once_at s) ≡ true
unfolding once_at plain_list excludes_quote
plain_list-once_at s =
    go (date_of early s) (plain_list-date_of early s refl) (plain_list-date_of late s refl)
  where
    go :
        (found : Option (List Text))
        → plain_list found ≡ true
        → plain_list (date_of late s) ≡ true
        → plain_list (elim found [ some gs ↦ some gs | none ↦ date_of late s ]) ≡ true
    go none h k = k
    go (some gs) h k = h

pub plain-once : (spec : ScheduleSpec) → plain (once spec) ≡ true
unfolding once plain plain_list no_quotes all_plain
plain-once spec = go (once_at spec.at) (plain_list-once_at spec.at)
  where
    head : Text
    head = codes "$t = New-ScheduledTaskTrigger -Once -At (Get-Date"

    go :
        (date : Option (List Text))
        → plain_list date ≡ true
        → plain (elim date [
          | none ↦ none
          | some gs ↦ some (head ++ labelled date_labels gs ++ codes ")")
        ])
          ≡ true
    go none h = refl
    go (some gs) h =
        no_quotes-append (head ++ labelled date_labels gs) (codes ")")
          (no_quotes-append head (labelled date_labels gs) refl
            (no_quotes-labelled date_labels gs refl h))
          refl

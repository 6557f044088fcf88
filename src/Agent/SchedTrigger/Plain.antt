-- ===== src/Agent/SchedTrigger/Plain.antt =====
-- internal/agent/schedtask.go: texts without quotes, and the names of the days.
use claude_backup.Prelude.{
  Text, ℕ, zero, suc, ◌+◌, ◌==◌, ltb, ◌/◌, ◌%◌, ℤ, pos, negsuc, ◌≡◌, refl, Bool, true, not, ◌&&◌,
  Option, none, some, List, [], ◌∷◌, ◌++◌, map, contains, trim_space, arith, Bool-cases, inl, inr,
  if◌then◌else◌,
}
use claude_backup.Agent.SchedTrigger.{
  to_lower, quote, digits, decimal, day_names, look_up, add_days, joined, weekday_list, labelled,
}

-- ASCII, and no quote in it.
unfoldable pub no_quotes : Text → Bool
no_quotes [] = true
no_quotes (c ∷ s) = not (c == quote) && ltb c 128 && no_quotes s

pub no_quotes-append :
    (s t : Text) → no_quotes s ≡ true → no_quotes t ≡ true → no_quotes (s ++ t) ≡ true
unfolding no_quotes
no_quotes-append [] t h k = k
no_quotes-append (c ∷ s) t h k = ground (arith, no_quotes-append s t)

no_quotes-digits : (fuel n : ℕ) → no_quotes (digits fuel n) ≡ true
unfolding no_quotes digits
no_quotes-digits zero n = ground arith
no_quotes-digits (suc fuel) n = elim (Bool-cases (ltb n 10)) [
  | inl e ↦ rw e (ground arith)
  | inr e ↦ rw e (
      no_quotes-append (digits fuel (n / 10)) ((48 + n % 10) ∷ []) (no_quotes-digits fuel (n / 10))
        (ground arith))
]

pub no_quotes-decimal : (n : ℤ) → no_quotes (decimal n) ≡ true
unfolding no_quotes decimal
no_quotes-decimal (pos n) = no_quotes-digits n n
no_quotes-decimal (negsuc n) = no_quotes-digits (suc n) (suc n)

-- The texts of a list, and the text or the texts that a function returned, if any.
unfoldable pub all_plain : List Text → Bool
unfolding no_quotes
all_plain [] = true
all_plain (t ∷ ts) = no_quotes t && all_plain ts

unfoldable pub plain : Option Text → Bool
unfolding no_quotes
plain none = true
plain (some t) = no_quotes t

unfoldable pub plain_list : Option (List Text) → Bool
unfolding all_plain
plain_list none = true
plain_list (some ts) = all_plain ts

pub all_plain-append :
    (ss ts : List Text) → all_plain ss ≡ true → all_plain ts ≡ true → all_plain (ss ++ ts) ≡ true
unfolding all_plain
all_plain-append [] ts h k = k
all_plain-append (s ∷ ss) ts h k = ground (arith, all_plain-append ss ts)

plain-look_up :
    (names : List (Text × Text)) (d : Text)
    → all_plain (map (λ n. n.1) names) ≡ true
    → plain (look_up names d) ≡ true
unfolding look_up plain all_plain
plain-look_up [] d h = refl
plain-look_up ((key, n) ∷ names) d h = ground (arith, plain-look_up names d)

plain_list-add_days :
    (out ds : List Text) → all_plain out ≡ true → plain_list (add_days out ds) ≡ true
unfolding add_days plain_list plain all_plain no_quotes
plain_list-add_days out [] h = h
plain_list-add_days out (d ∷ ds) h =
    go (λ o k. plain_list-add_days o ds k) (look_up day_names (to_lower (trim_space d)))
      (plain-look_up day_names (to_lower (trim_space d)) known_days)
  where
    known_days : all_plain (map (λ n. n.1) day_names) ≡ true
    known_days = refl

    go :
        ((o : List Text) → all_plain o ≡ true → plain_list (add_days o ds) ≡ true)
        → (found : Option Text) → plain found ≡ true
        → plain_list (elim found [
          | none ↦ none
          | some name ↦ add_days (if contains out name then out else out ++ name ∷ []) ds
        ])
          ≡ true
    go rest none p = refl
    go rest (some name) p = elim (Bool-cases (contains out name)) [
      | inl old ↦ rw old (rest out h)
      | inr new ↦
          rw new (rest (out ++ name ∷ []) (all_plain-append out (name ∷ []) h (ground arith)))
    ]

no_quotes-joined : (ds : List Text) → all_plain ds ≡ true → no_quotes (joined ds) ≡ true
unfolding joined all_plain no_quotes
no_quotes-joined [] h = refl
no_quotes-joined (d ∷ []) h = ground arith
no_quotes-joined (d ∷ e ∷ ds) h =
    no_quotes-append d (44 ∷ joined (e ∷ ds)) (ground arith)
      (ground (arith, no_quotes-joined (e ∷ ds)))

pub plain-weekday_list : (ds : List Text) → plain (weekday_list ds) ≡ true
unfolding weekday_list plain plain_list all_plain
plain-weekday_list [] = refl
plain-weekday_list (d ∷ ds) = go (add_days [] (d ∷ ds)) (plain_list-add_days [] (d ∷ ds) refl)
  where
    go :
        (out : Option (List Text))
        → plain_list out ≡ true
        → plain (elim out [ none ↦ none | some out ↦ some (joined out) ]) ≡ true
    go none h = refl
    go (some out) h = no_quotes-joined out h

pub no_quotes-labelled :
    (ls gs : List Text)
    → all_plain ls ≡ true
    → all_plain gs ≡ true
    → no_quotes (labelled ls gs) ≡ true
unfolding labelled all_plain no_quotes
no_quotes-labelled [] gs h k = refl
no_quotes-labelled (l ∷ ls) [] h k = refl
no_quotes-labelled (l ∷ ls) (g ∷ gs) h k =
    no_quotes-append (l ++ g) (labelled ls gs) (no_quotes-append l g (ground arith) (ground arith))
      (no_quotes-labelled ls gs (ground arith) (ground arith))

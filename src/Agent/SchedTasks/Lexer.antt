-- ===== src/Agent/SchedTasks/Lexer.antt =====
-- internal/agent/schedtask.go: the single-quoted literals that psQuote writes, as PowerShell reads them.
use mathlib.Core.Path.{subst}
use claude_backup.Prelude.{
  ◌&&◌, leb, ◌||◌, Text, ℕ, ◌==◌, ◌≡◌, refl, ap, ◌∙◌, Bool, true, false, not, [], ◌∷◌, ◌++◌, arith,
  Bool-cases, inl, inr, if◌then◌else◌,
}
use claude_backup.Agent.SchedTrigger.{quote}
use claude_backup.Agent.SchedTasks.{doubled}

-- PowerShell takes the ASCII quote and the characters U+2018 to U+201B for single quotes. In UTF-8 the
-- latter are the bytes 0xE2 0x80 and one from 0x98 to 0x9B: `seen` is how many of these two are seen.
abbrev pub seen_after : ℕ → ℕ → ℕ
seen_after seen c = if c == 0xE2 then 1 else if seen == 1 && c == 0x80 then 2 else 0

abbrev pub ends_typographic : ℕ → ℕ → Bool
ends_typographic seen c = seen == 2 && leb 0x98 c && leb c 0x9B

-- Whether a literal is open, and the bytes seen.
abbrev pub Lexer : Type 0
Lexer = Bool × ℕ

abbrev pub is_quote : ℕ → ℕ → Bool
is_quote seen c = c == quote || ends_typographic seen c

abbrev pub step : Lexer → ℕ → Lexer
step st c = (if is_quote st.1 c then not st.0 else st.0, seen_after st.1 c)

abbrev pub start : Lexer
start = (false, 0)

-- What stands outside of single-quoted literals. A quote opens or closes a literal; two in a literal
-- close it and open it again, and so belong to it.
unfoldable pub outside : Lexer → Text → Text
outside st [] = []
outside st (c ∷ s) =
    let rest = outside (step st c) s in if is_quote st.1 c || st.0 then rest else c ∷ rest

unfoldable pub lexed : Lexer → Text → Lexer
lexed st [] = st
lexed st (c ∷ s) = lexed (step st c) s

-- No typographic quote is in a text.
unfoldable pub no_typographic : ℕ → Text → Bool
no_typographic seen [] = true
no_typographic seen (c ∷ s) = not (ends_typographic seen c) && no_typographic (seen_after seen c) s

pub outside-append :
    (st : Lexer) (s t : Text) → outside st (s ++ t) ≡ outside st s ++ outside (lexed st s) t
unfolding outside lexed
outside-append st [] t = refl
outside-append st (c ∷ s) t = elim (Bool-cases (is_quote st.1 c || st.0)) [
  | inl within ↦ rw within (outside-append (step st c) s t)
  | inr out ↦ rw out (ap (λ r. c ∷ r) (outside-append (step st c) s t))
]

pub lexed-append : (st : Lexer) (s t : Text) → lexed st (s ++ t) ≡ lexed (lexed st s) t
unfolding lexed
lexed-append st [] t = refl
lexed-append st (c ∷ s) t = lexed-append (step st c) s t

-- Two quotes in a literal belong to it.
step-quote : (quoted : Bool) (seen : ℕ) → step (quoted, seen) quote ≡ (not quoted, 0)
step-quote quoted seen = ground arith

step-text :
    (seen c : ℕ)
    → c == quote ≡ false
    → ends_typographic seen c ≡ false
    → step (true, seen) c ≡ (true, seen_after seen c)
step-text seen c h k = ground arith

outside-step :
    (st : Lexer) (c : ℕ) (s : Text)
    → is_quote st.1 c || st.0 ≡ true
    → outside st (c ∷ s) ≡ outside (step st c) s
unfolding outside
outside-step st c s h = rw h refl

outside_doubled_quote :
    (seen : ℕ) (s : Text) → outside (true, seen) (quote ∷ quote ∷ s) ≡ outside (true, 0) s
outside_doubled_quote seen s =
    outside-step (true, seen) quote (quote ∷ s) refl
    ∙ ap (λ st. outside st (quote ∷ s)) (step-quote true seen)
    ∙ outside-step (false, 0) quote s refl

lexed_doubled_quote :
    (seen : ℕ) (s : Text) → lexed (true, seen) (quote ∷ quote ∷ s) ≡ lexed (true, 0) s
unfolding lexed
lexed_doubled_quote seen s = ap (λ st. lexed (step st quote) s) (step-quote true seen)

-- A literal's text is in it to the end, and the quote behind it closes it.
pub outside-doubled :
    (seen : ℕ) (s : Text)
    → no_typographic seen s ≡ true
    → outside (true, seen) (doubled s ++ quote ∷ []) ≡ []
unfolding doubled no_typographic outside
outside-doubled seen [] h = outside-step (true, seen) quote [] refl
outside-doubled seen (c ∷ s) h = elim (Bool-cases (c == quote)) [
  | inl e ↦
      let same : quote ≡ c = ground arith in
      rw e (
        subst (λ d. outside (true, seen) (d ∷ d ∷ (doubled s ++ quote ∷ [])) ≡ []) same
          (outside_doubled_quote seen (doubled s ++ quote ∷ [])
            ∙ outside-doubled 0 s (ground arith)))
  | inr e ↦ rw e (
      outside-step (true, seen) c (doubled s ++ quote ∷ []) (ground arith)
      ∙ ap (λ st. outside st (doubled s ++ quote ∷ [])) (step-text seen c e (ground arith))
      ∙ outside-doubled (seen_after seen c) s (ground arith))
]

pub lexed-doubled :
    (seen : ℕ) (s : Text)
    → no_typographic seen s ≡ true
    → lexed (true, seen) (doubled s ++ quote ∷ []) ≡ start
unfolding lexed doubled no_typographic
lexed-doubled seen [] h = step-quote true seen
lexed-doubled seen (c ∷ s) h = elim (Bool-cases (c == quote)) [
  | inl e ↦
      let same : quote ≡ c = ground arith in
      rw e (
        subst (λ d. lexed (true, seen) (d ∷ d ∷ (doubled s ++ quote ∷ [])) ≡ start) same
          (lexed_doubled_quote seen (doubled s ++ quote ∷ []) ∙ lexed-doubled 0 s (ground arith)))
  | inr e ↦ rw e (
      ap (λ st. lexed st (doubled s ++ quote ∷ [])) (step-text seen c e (ground arith))
      ∙ lexed-doubled (seen_after seen c) s (ground arith))
]

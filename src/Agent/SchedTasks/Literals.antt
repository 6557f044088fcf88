-- ===== src/Agent/SchedTasks/Literals.antt =====
-- internal/agent/schedtask.go: what of a script stands outside its single-quoted literals.
use claude_backup.Prelude.{
  ◌||◌, trim_space, Text, codes, text_eq, ◌≡◌, refl, ap, ◌∙◌, sym, Bool, true, false, Option, none,
  some, [], ◌∷◌, ◌++◌, arith, Bool-cases, inl, inr, if◌then◌else◌,
}
use claude_backup.Agent.SchedTrigger.Plain.{no_quotes, plain}
use claude_backup.Agent.SchedTrigger.Quotes.{plain-build_trigger_script}
use claude_backup.Agent.SchedTrigger.{ScheduleSpec, build_trigger_script}
use claude_backup.Agent.SchedTasks.Lexer.{
  start, step, outside, lexed, no_typographic, outside-append, lexed-append, outside-doubled,
  lexed-doubled,
}
use claude_backup.Agent.SchedTasks.{
  SchedAction, ps_quote, task_ref, stop_on_error, run_cmdlet, with_trigger, set_schedule,
  task_script, build_action_script, has_newline,
}

-- Two texts with the same outside, which leave no literal open.
record Same (s t : Text) : Type 0 where
  outsides : outside start s ≡ outside start t
  closed : lexed start s ≡ start
  other_closed : lexed start t ≡ start

Same-append : {s t u v : Text} → Same s t → Same u v → Same (s ++ u) (t ++ v)
Same-append {s} {t} {u} {v} a b = record {
  outsides =
      rw
        (
          outside-append start s u,
          outside-append start t v,
          a.closed,
          a.other_closed,
          a.outsides,
          b.outsides,
        )
        refl;
  closed = rw (lexed-append start s u, a.closed) b.closed;
  other_closed = rw (lexed-append start t v, a.other_closed) b.other_closed;
}

unchanged : (s : Text) → lexed start s ≡ start → Same s s
unchanged s closed = record { outsides = refl; closed = closed; other_closed = closed }

abbrev Clean : Text → Type 0
Clean s = no_typographic 0 s ≡ true

Same-ps_quote : (s t : Text) → Clean s → Clean t → Same (ps_quote s) (ps_quote t)
unfolding ps_quote outside lexed
Same-ps_quote s t h k = record {
  outsides = outside-doubled 0 s h ∙ sym (outside-doubled 0 t k);
  closed = lexed-doubled 0 s h;
  other_closed = lexed-doubled 0 t k;
}

Same-task_ref :
    (n p m q : Text) → Clean n → Clean p → Clean m → Clean q → Same (task_ref n p) (task_ref m q)
unfolding task_ref lexed
Same-task_ref n p m q cn cp cm cq =
    Same-append
      (Same-append (Same-append (unchanged (codes "-TaskName ") refl) (Same-ps_quote n m cn cm))
        (unchanged (codes " -TaskPath ") refl))
      (Same-ps_quote p q cp cq)

Same-run_cmdlet :
    (cmdlet r s : Text)
    → lexed start cmdlet ≡ start
    → Same r s
    → Same (run_cmdlet cmdlet r) (run_cmdlet cmdlet s)
unfolding run_cmdlet lexed
Same-run_cmdlet cmdlet r s closed same =
    Same-append
      (Same-append (Same-append (unchanged stop_on_error refl) (unchanged cmdlet closed)) same)
      (unchanged (codes " | Out-Null") refl)

-- An ASCII text without a quote leaves a literal as it is, open or not.
lexed-no_quotes :
    (quoted : Bool) (s : Text) → no_quotes s ≡ true → lexed (quoted, 0) s ≡ (quoted, 0)
unfolding lexed no_quotes
lexed-no_quotes quoted [] h = refl
lexed-no_quotes quoted (c ∷ s) h =
    let same : step (quoted, 0) c ≡ (quoted, 0) = ground arith in
    ap (λ st. lexed st s) same ∙ lexed-no_quotes quoted s (ground arith)

Same-trigger :
    (trig r s : Text)
    → no_quotes trig ≡ true
    → Same r s
    → Same
        (stop_on_error
          ++ trig
          ++ codes "\nSet-ScheduledTask "
          ++ r
          ++ codes " -Trigger $t | Out-Null")
        (stop_on_error
          ++ trig
          ++ codes "\nSet-ScheduledTask "
          ++ s
          ++ codes " -Trigger $t | Out-Null")
unfolding lexed
Same-trigger trig r s plain_trig same =
    Same-append
      (Same-append
        (Same-append
          (Same-append (unchanged stop_on_error refl)
            (unchanged trig (lexed-no_quotes false trig plain_trig)))
          (unchanged (codes "\nSet-ScheduledTask ") refl))
        same)
      (unchanged (codes " -Trigger $t | Out-Null") refl)

-- The outside of a script, where there is one.
unfoldable pub outside_of : Option Text → Option Text
unfolding outside
outside_of none = none
outside_of (some script) = some (outside start script)

record SameScript (r s : Option Text) : Type 0 where
  same : outside_of r ≡ outside_of s

SameScript-if :
    (b : Bool) {r s t u : Option Text}
    → SameScript r t
    → SameScript s u
    → SameScript (if b then r else s) (if b then t else u)
SameScript-if true p q = p
SameScript-if false p q = q

SameScript-run_cmdlet :
    (cmdlet r s : Text)
    → lexed start cmdlet ≡ start
    → Same r s
    → SameScript (some (run_cmdlet cmdlet r)) (some (run_cmdlet cmdlet s))
unfolding outside_of
SameScript-run_cmdlet cmdlet r s closed a = record {
  same = ap some (Same-run_cmdlet cmdlet r s closed a).outsides;
}

SameScript-set_schedule :
    (schedule : Option ScheduleSpec) (r s : Text)
    → Same r s
    → SameScript (set_schedule schedule r) (set_schedule schedule s)
unfolding set_schedule outside_of plain
SameScript-set_schedule none r s a = record { same = refl }
SameScript-set_schedule (some spec) r s a =
    go (build_trigger_script spec) (plain-build_trigger_script spec)
  where
    go : (t : Option Text) → plain t ≡ true → SameScript (with_trigger t r) (with_trigger t s)
    go none h = record { same = refl }
    go (some trig) h = record { same = ap some (Same-trigger trig r s h a).outsides }

SameScript-task_script :
    (action : Text) (schedule : Option ScheduleSpec) (n p m q : Text)
    → Clean n
    → Clean p
    → Clean m
    → Clean q
    → SameScript (task_script action schedule n p) (task_script action schedule m q)
unfolding task_script lexed
SameScript-task_script action schedule n p m q cn cp cm cq =
    let r = task_ref n p in
    let s = task_ref m q in
    let a = Same-task_ref n p m q cn cp cm cq in
    SameScript-if (text_eq action (codes "run"))
      (SameScript-run_cmdlet (codes "Start-ScheduledTask ") r s refl a)
      (SameScript-if (text_eq action (codes "enable"))
        (SameScript-run_cmdlet (codes "Enable-ScheduledTask ") r s refl a)
        (SameScript-if (text_eq action (codes "disable"))
          (SameScript-run_cmdlet (codes "Disable-ScheduledTask ") r s refl a)
          (SameScript-if (text_eq action (codes "set_schedule"))
            (SameScript-set_schedule schedule r s a) (record { same = refl }))))

abbrev path_of : SchedAction → Text
path_of a = if text_eq a.path [] then b'\\' ∷ [] else a.path

-- The script of an action that is not refused is that of its trimmed name and its path.
task_script-build_action_script :
    (a : SchedAction) {s : Text}
    → build_action_script a ≡ some s
    → task_script a.action a.schedule (trim_space a.name) (path_of a) ≡ some s
unfolding build_action_script
task_script-build_action_script a h =
    go (text_eq (trim_space a.name) [] || has_newline (trim_space a.name ++ path_of a)) h
  where
    go :
        {r : Option Text} {s : Text} (refused : Bool)
        → (if refused then none else r) ≡ some s
        → r ≡ some s
    go true h = absurd (ground arith)
    go false h = h

Clean-path_of : (a : SchedAction) → Clean a.path → Clean (path_of a)
unfolding no_typographic
Clean-path_of a h = elim (Bool-cases (text_eq a.path [])) [ inl e ↦ rw e refl | inr e ↦ rw e h ]

-- What stands outside of the literals of a script depends only on the action and on the schedule:
-- whatever else the names and the paths of two tasks are, if no typographic quote is in them, nothing
-- of them is read as code.
pub outside-build_action_script :
    (a b : SchedAction) {s t : Text}
    → a.action ≡ b.action
    → a.schedule ≡ b.schedule
    → no_typographic 0 (trim_space a.name) ≡ true
    → no_typographic 0 a.path ≡ true
    → no_typographic 0 (trim_space b.name) ≡ true
    → no_typographic 0 b.path ≡ true
    → build_action_script a ≡ some s
    → build_action_script b ≡ some t
    → outside start s ≡ outside start t
unfolding outside_of
outside-build_action_script a b {s} {t} action schedule an apath bn bp h k =
    let e = task_script-build_action_script a h in
    let f = task_script-build_action_script b k in
    let f' : task_script a.action a.schedule (trim_space b.name) (path_of b) ≡ some t =
      rw (action, schedule) f in
    let g : some (outside start s) ≡ some (outside start t) =
      sym (ap outside_of e)
      ∙ (SameScript-task_script a.action a.schedule (trim_space a.name) (path_of a)
          (trim_space b.name) (path_of b) an (Clean-path_of a apath) bn (Clean-path_of b bp)).same
      ∙ ap outside_of f' in
    cc

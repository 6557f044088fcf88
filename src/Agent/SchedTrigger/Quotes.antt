-- ===== src/Agent/SchedTrigger/Quotes.antt =====
-- internal/agent/schedtask.go: no trigger's text has a quote in it.
use claude_backup.Prelude.{
  Text, codes, text_eq, ℕ, ℤ, pos, ◌≡◌, refl, Bool, true, false, Option, none, some, ◌++◌,
  Bool-cases, inl, inr, if◌then◌else◌,
}
use claude_backup.Agent.SchedTrigger.{
  ScheduleSpec, decimal, weekday_list, is_between, daily_time, timed, repeated, weekly, once,
  build_trigger_script, parse_time_of_day,
}
use claude_backup.Agent.SchedTrigger.Plain.{
  no_quotes, no_quotes-append, plain, plain-weekday_list, no_quotes-decimal,
}
use claude_backup.Agent.SchedTrigger.Dates.{plain-once}

record Quoteless (s : Text) : Type 0 where
  none_in : no_quotes s ≡ true

Quoteless-append : {s t : Text} → Quoteless s → Quoteless t → Quoteless (s ++ t)
Quoteless-append {s} {t} a b = record { none_in = no_quotes-append s t a.none_in b.none_in }

as_is : (s : Text) → no_quotes s ≡ true → Quoteless s
as_is s h = record { none_in = h }

Quoteless-decimal : (n : ℤ) → Quoteless (decimal n)
Quoteless-decimal n = record { none_in = no_quotes-decimal n }

Quoteless-daily_time : (h min : ℕ) → Quoteless (daily_time h min)
unfolding daily_time no_quotes
Quoteless-daily_time h min =
    Quoteless-append
      (Quoteless-append
        (Quoteless-append
          (Quoteless-append (as_is (codes " -At (Get-Date -Hour ") refl)
            (Quoteless-decimal (pos h)))
          (as_is (codes " -Minute ") refl))
        (Quoteless-decimal (pos min)))
      (as_is (codes " -Second 0)") refl)

plain-timed :
    (head : Text) (spec : ScheduleSpec) (most : ℕ) (tail : Text)
    → no_quotes head ≡ true
    → Quoteless tail
    → plain (timed head spec most tail) ≡ true
unfolding timed plain
plain-timed head spec most tail h k = go (parse_time_of_day spec.at)
  where
    go :
        (time : Option (ℕ × ℕ))
        → plain (elim time [
          | none ↦ none
          | some (h, min) ↦
              if is_between spec.interval most
              then some (head ++ daily_time h min ++ tail)
              else none
        ])
          ≡ true
    go none = refl
    go (some (hh, min)) = elim (Bool-cases (is_between spec.interval most)) [
      | inl e ↦
          rw e
            (Quoteless-append (Quoteless-append (as_is head h) (Quoteless-daily_time hh min))
              k).none_in
      | inr e ↦ rw e refl
    ]

plain-repeated :
    (unit : Text) (most : ℕ) (spec : ScheduleSpec)
    → no_quotes unit ≡ true
    → plain (repeated unit most spec) ≡ true
unfolding repeated no_quotes
plain-repeated unit most spec h =
    plain-timed (codes "$t = New-ScheduledTaskTrigger -Once") spec most _ refl (
      Quoteless-append
        (Quoteless-append
          (Quoteless-append
            (Quoteless-append (as_is (codes " -RepetitionInterval (New-TimeSpan -") refl)
              (as_is unit h))
            (as_is (codes " ") refl))
          (Quoteless-decimal spec.interval))
        (as_is (codes ") -RepetitionDuration (New-TimeSpan -Days 3650)") refl))

plain-daily :
    (spec : ScheduleSpec)
    → plain (
        timed
          (codes "$t = New-ScheduledTaskTrigger -Daily")
          spec
          365
          (codes " -DaysInterval " ++ decimal spec.interval))
      ≡ true
unfolding no_quotes
plain-daily spec =
    plain-timed _ spec 365 _ refl
      (Quoteless-append (as_is (codes " -DaysInterval ") refl) (Quoteless-decimal spec.interval))

plain-weekly : (spec : ScheduleSpec) → plain (weekly spec) ≡ true
unfolding weekly plain no_quotes
plain-weekly spec = go (weekday_list spec.days_of_week) (plain-weekday_list spec.days_of_week)
  where
    go :
        (list : Option Text)
        → plain list ≡ true
        → plain (elim list [
          | none ↦ none
          | some days ↦
              timed
                (codes "$t = New-ScheduledTaskTrigger -Weekly")
                spec
                52
                (codes " -DaysOfWeek " ++ days ++ codes " -WeeksInterval " ++ decimal spec.interval)
        ])
          ≡ true
    go none h = refl
    go (some days) h = plain-timed (codes "$t = New-ScheduledTaskTrigger -Weekly") spec 52 _ refl (
        Quoteless-append
          (Quoteless-append (Quoteless-append (as_is (codes " -DaysOfWeek ") refl) (as_is days h))
            (as_is (codes " -WeeksInterval ") refl))
          (Quoteless-decimal spec.interval))

record PlainScript (r : Option Text) : Type 0 where
  is_plain : plain r ≡ true

PlainScript-if :
    (b : Bool) {r s : Option Text}
    → PlainScript r
    → PlainScript s
    → PlainScript (if b then r else s)
PlainScript-if true p q = p
PlainScript-if false p q = q

script : (r : Option Text) → plain r ≡ true → PlainScript r
script r h = record { is_plain = h }

PlainScript-build_trigger_script : (spec : ScheduleSpec) → PlainScript (build_trigger_script spec)
unfolding build_trigger_script plain no_quotes
PlainScript-build_trigger_script spec =
    PlainScript-if (text_eq spec.kind (codes "onstart")) (script (some _) refl) (
      PlainScript-if (text_eq spec.kind (codes "onlogon")) (script (some _) refl) (
        PlainScript-if (text_eq spec.kind (codes "once")) (script (once spec) (plain-once spec)) (
          PlainScript-if (text_eq spec.kind (codes "minutes"))
            (script _ (plain-repeated (codes "Minutes") 1440 spec refl))
            (PlainScript-if (text_eq spec.kind (codes "hourly"))
              (script _ (plain-repeated (codes "Hours") 24 spec refl))
              (PlainScript-if (text_eq spec.kind (codes "daily")) (script _ (plain-daily spec)) (
                PlainScript-if (text_eq spec.kind (codes "weekly"))
                  (script (weekly spec) (plain-weekly spec)) (script none refl)))))))

pub plain-build_trigger_script : (spec : ScheduleSpec) → plain (build_trigger_script spec) ≡ true
plain-build_trigger_script spec = (PlainScript-build_trigger_script spec).is_plain

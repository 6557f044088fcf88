-- ===== src/Agent/SchedTrigger.antt =====
-- internal/agent/schedtask.go: the PowerShell for the trigger of a scheduled task. An error is `none`.
pub mod Plain
pub mod Dates
pub mod Quotes
use claude_backup.Prelude.{
  Text, codes, text_eq, ℕ, zero, suc, ◌+◌, ◌/◌, ◌%◌, ltb, leb, ◌==◌, ℤ, pos, negsuc, contains, Bool,
  true, false, not, ◌&&◌, ◌||◌, Option, none, some, List, [], ◌∷◌, ◌++◌, map, trim_space, lower,
  ◌-◌, ◌*◌, if◌then◌else◌,
}

pub record ScheduleSpec : Type 0 where
  pub kind : Text
  pub at : Text
  pub interval : ℤ
  pub days_of_week : List Text

abbrev pub quote : ℕ
quote = b'\''

-- What a list of character classes matches at the front of a text, and what follows. A class is the
-- bytes from one to another.
unfoldable pub match : List (ℕ × ℕ) → Text → Option (Text × Text)
match [] s = some ([], s)
match (p ∷ ps) [] = none
match (p ∷ ps) (c ∷ s) =
    let rest = match ps s in
    if leb p.0 c && leb c p.1
    then elim rest [ none ↦ none | some (found, after) ↦ some (c ∷ found, after) ]
    else none

abbrev pub is : ℕ → ℕ × ℕ
is d = (d, d)

abbrev pub to : ℕ → ℕ × ℕ
to last = (b'0', last)

-- %d of a number that is not negative; the number is enough fuel.
unfoldable pub digits : ℕ → ℕ → Text
digits zero n = (b'0' + n % 10) ∷ []
digits (suc fuel) n =
    let front = digits fuel (n / 10) in
    if ltb n 10 then (b'0' + n % 10) ∷ [] else front ++ (b'0' + n % 10) ∷ []

unfoldable pub decimal : ℤ → Text
unfolding digits
decimal (pos n) = digits n n
decimal (negsuc n) = b'-' ∷ digits (suc n) (suc n)

unfoldable pub atoi : ℕ → Text → ℕ
atoi n [] = n
atoi n (c ∷ s) = atoi (n * 10 + (c - b'0')) s

abbrev hour_classes : List (List (ℕ × ℕ))
hour_classes =
    (to b'1' ∷ to b'9' ∷ is b':' ∷ [])
    ∷ (to b'9' ∷ is b':' ∷ [])
    ∷ (is b'2' ∷ to b'3' ∷ is b':' ∷ [])
    ∷ []

abbrev pub minute_classes : List (ℕ × ℕ)
minute_classes = to b'5' ∷ to b'9' ∷ []

-- The digits before the colon.
unfoldable pub until_colon : Text → Text
until_colon [] = []
until_colon (c ∷ s) = let rest = until_colon s in if c == b':' then [] else c ∷ rest

-- timeOfDayRe, an alternative for the hour after the other
unfoldable pub time_of_day : List (List (ℕ × ℕ)) → Text → Option (ℕ × ℕ)
unfolding match until_colon atoi
time_of_day [] s = none
time_of_day (hour ∷ alternatives) s =
    let rest = time_of_day alternatives s in
    elim (match hour s) [
      | none ↦ rest
      | some (h, after) ↦ elim (match minute_classes after) [
        | none ↦ rest
        | some (m, []) ↦ some (atoi 0 (until_colon h), atoi 0 m)
        | some (m, c ∷ t) ↦ rest
      ]
    ]

unfoldable pub parse_time_of_day : Text → Option (ℕ × ℕ)
unfolding trim_space time_of_day
parse_time_of_day s = time_of_day hour_classes (trim_space s)

abbrev pub day_names : List (Text × Text)
day_names =
    (codes "sun", codes "Sunday")
    ∷ (codes "sunday", codes "Sunday")
    ∷ (codes "mon", codes "Monday")
    ∷ (codes "monday", codes "Monday")
    ∷ (codes "tue", codes "Tuesday")
    ∷ (codes "tues", codes "Tuesday")
    ∷ (codes "tuesday", codes "Tuesday")
    ∷ (codes "wed", codes "Wednesday")
    ∷ (codes "weds", codes "Wednesday")
    ∷ (codes "wednesday", codes "Wednesday")
    ∷ (codes "thu", codes "Thursday")
    ∷ (codes "thur", codes "Thursday")
    ∷ (codes "thurs", codes "Thursday")
    ∷ (codes "thursday", codes "Thursday")
    ∷ (codes "fri", codes "Friday")
    ∷ (codes "friday", codes "Friday")
    ∷ (codes "sat", codes "Saturday")
    ∷ (codes "saturday", codes "Saturday")
    ∷ []

unfoldable pub look_up : List (Text × Text) → Text → Option Text
look_up [] d = none
look_up ((key, name) ∷ names) d = if text_eq key d then some name else look_up names d

-- strings.ToLower, as far as it leads to ASCII letters of a day's name: U+0130, which is the bytes 0xC4
-- 0xB0, becomes an i.
unfoldable pub to_lower : Text → Text
to_lower [] = []
to_lower (c ∷ []) = lower c ∷ []
to_lower (c ∷ d ∷ s) = elim (c == 0xC4 && d == 0xB0) [
  | true ↦ b'i' ∷ to_lower s
  | false ↦ lower c ∷ to_lower (d ∷ s)
]

-- The loop of weekdayList, given the names it has.
unfoldable pub add_days : List Text → List Text → Option (List Text)
unfolding look_up to_lower
add_days out [] = some out
add_days out (d ∷ ds) = elim (look_up day_names (to_lower (trim_space d))) [
  | none ↦ none
  | some name ↦ add_days (if contains out name then out else out ++ name ∷ []) ds
]

unfoldable pub joined : List Text → Text
joined [] = []
joined (d ∷ []) = d
joined (d ∷ e ∷ ds) = d ++ b',' ∷ joined (e ∷ ds)

unfoldable pub weekday_list : List Text → Option Text
unfolding add_days joined
weekday_list [] = none
weekday_list (d ∷ ds) = elim (add_days [] (d ∷ ds)) [ none ↦ none | some out ↦ some (joined out) ]

abbrev pub two_digits : List (ℕ × ℕ)
two_digits = to b'9' ∷ to b'9' ∷ []

-- Groups of onceAtRe, each with the byte that ends it, and what follows them.
unfoldable pub groups : List (List (ℕ × ℕ) × ℕ) → Text → Option (List Text × Text)
unfolding match
groups [] s = some ([], s)
groups ((p, mark) ∷ ps) s = elim (match p s) [
  | none ↦ none
  | some (found, after) ↦ elim (match (is mark ∷ []) after) [
    | none ↦ none
    | some (m, rest) ↦ elim (groups ps rest) [
      | none ↦ none
      | some (gs, end) ↦ some (found ∷ gs, end)
    ]
  ]
]

abbrev pub date_groups : List (ℕ × ℕ) → List (List (ℕ × ℕ) × ℕ)
date_groups hour =
    (to b'9' ∷ to b'9' ∷ two_digits, b'-')
    ∷ (two_digits, b'-')
    ∷ (two_digits, b'T')
    ∷ (hour, b':')
    ∷ []

unfoldable pub after_colon : Text → Text
after_colon [] = []
after_colon (c ∷ s) = if c == b':' then s else []

-- The groups, where the hour is of these classes; the seconds are "0" if there are none.
unfoldable pub date_of : List (ℕ × ℕ) → Text → Option (List Text)
unfolding groups match after_colon
date_of hour s = elim (groups (date_groups hour) s) [
  | none ↦ none
  | some (gs, after) ↦ elim (match minute_classes after) [
    | none ↦ none
    | some (m, rest) ↦ elim (match minute_classes (after_colon rest)) [
      | none ↦ some (gs ++ m ∷ (b'0' ∷ []) ∷ [])
      | some (sec, end) ↦ some (gs ++ m ∷ sec ∷ [])
    ]
  ]
]

abbrev pub early : List (ℕ × ℕ)
early = to b'1' ∷ to b'9' ∷ []

abbrev pub late : List (ℕ × ℕ)
late = is b'2' ∷ to b'3' ∷ []

unfoldable pub once_at : Text → Option (List Text)
unfolding date_of
once_at s = elim (date_of early s) [ some gs ↦ some gs | none ↦ date_of late s ]

abbrev pub date_labels : List Text
date_labels =
    codes " -Year "
    ∷ codes " -Month "
    ∷ codes " -Day "
    ∷ codes " -Hour "
    ∷ codes " -Minute "
    ∷ codes " -Second "
    ∷ []

unfoldable pub labelled : List Text → List Text → Text
labelled [] gs = []
labelled (l ∷ ls) [] = []
labelled (l ∷ ls) (g ∷ gs) = l ++ g ++ labelled ls gs

abbrev pub is_between : ℤ → ℕ → Bool
is_between (pos n) most = leb 1 n && leb n most
is_between (negsuc n) most = false

-- The time of day as arguments of Get-Date.
unfoldable pub daily_time : ℕ → ℕ → Text
unfolding decimal
daily_time h min =
    codes " -At (Get-Date -Hour "
    ++ decimal (pos h)
    ++ codes " -Minute "
    ++ decimal (pos min)
    ++ codes " -Second 0)"

-- A trigger at a time of day, `head` in front of the time and `tail` behind it.
unfoldable pub timed : Text → ScheduleSpec → ℕ → Text → Option Text
unfolding parse_time_of_day daily_time
timed head spec most tail = elim (parse_time_of_day spec.at) [
  | none ↦ none
  | some (h, min) ↦
      if is_between spec.interval most then some (head ++ daily_time h min ++ tail) else none
]

unfoldable pub repeated : Text → ℕ → ScheduleSpec → Option Text
unfolding timed decimal
repeated unit most spec = timed (codes "$t = New-ScheduledTaskTrigger -Once") spec most (
    codes " -RepetitionInterval (New-TimeSpan -"
    ++ unit
    ++ codes " "
    ++ decimal spec.interval
    ++ codes ") -RepetitionDuration (New-TimeSpan -Days 3650)")

unfoldable pub weekly : ScheduleSpec → Option Text
unfolding timed decimal weekday_list
weekly spec = elim (weekday_list spec.days_of_week) [
  | none ↦ none
  | some days ↦
      timed (codes "$t = New-ScheduledTaskTrigger -Weekly") spec 52
        (codes " -DaysOfWeek " ++ days ++ codes " -WeeksInterval " ++ decimal spec.interval)
]

unfoldable pub once : ScheduleSpec → Option Text
unfolding once_at labelled
once spec = elim (once_at spec.at) [
  | none ↦ none
  | some gs ↦ some (
      codes "$t = New-ScheduledTaskTrigger -Once -At (Get-Date"
      ++ labelled date_labels gs
      ++ codes ")")
]

unfoldable pub build_trigger_script : ScheduleSpec → Option Text
unfolding once repeated timed weekly decimal
build_trigger_script spec =
    if text_eq spec.kind (codes "onstart")
    then some (codes "$t = New-ScheduledTaskTrigger -AtStartup")
    else if text_eq spec.kind (codes "onlogon")
    then some (codes "$t = New-ScheduledTaskTrigger -AtLogOn")
    else if text_eq spec.kind (codes "once")
    then once spec
    else if text_eq spec.kind (codes "minutes")
    then repeated (codes "Minutes") 1440 spec
    else if text_eq spec.kind (codes "hourly")
    then repeated (codes "Hours") 24 spec
    else if text_eq spec.kind (codes "daily")
    then timed (codes "$t = New-ScheduledTaskTrigger -Daily") spec 365
        (codes " -DaysInterval " ++ decimal spec.interval)
    else if text_eq spec.kind (codes "weekly")
    then weekly spec
    else none

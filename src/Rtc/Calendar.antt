-- ===== src/Rtc/Calendar.antt =====
-- The Gregorian calendar, day by day.
use nos.Prelude.{ℕ, zero, suc, ◌+◌, ◌%◌, ltb, Bool, ◌||◌, if◌then◌else◌, ◌==◌}

pub record Date : Type 0 where
  pub year : ℕ
  pub month : ℕ
  pub day : ℕ

abbrev pub is_leap : ℕ → Bool
is_leap y = if y % 100 == 0 then y % 400 == 0 else y % 4 == 0

abbrev pub month_length : ℕ → ℕ → ℕ
month_length y m =
    if m == 2
    then (if is_leap y then 29 else 28)
    else if m == 4 || (m == 6 || (m == 9 || m == 11))
    then 30
    else 31

abbrev pub tomorrow : Date → Date
tomorrow t =
    if ltb t.day (month_length t.year t.month)
    then record t { day = t.day + 1 }
    else if ltb t.month 12
    then record t { month = t.month + 1; day = 1 }
    else record { year = t.year + 1; month = 1; day = 1 }

-- The date n days after the first of January 1970.
unfoldable pub civil : ℕ → Date
civil zero = record { year = 1970; month = 1; day = 1 }
civil (suc n) = tomorrow (civil n)

-- ===== src/Rtc/Days.antt =====
-- `days_from_civil` counts the days of the calendar.
use nos.Prelude.{
  ℕ, zero, suc, ◌+◌, ◌-◌, ◌*◌, ◌/◌, ◌%◌, ◌^◌, ◌≤◌, ◌<◌, ◌≡◌, refl, ap, ◌∙◌, ltb, leb, if◌then◌else◌,
  inl, inr, Bool-cases, add32, sub32, arith,
}
use nos.Rtc.{days_from_civil}
use nos.Rtc.Calendar.{Date, month_length, tomorrow, civil}

abbrev days : Date → ℕ
days t = days_from_civil t.year t.month t.day

pub record IsDate (t : Date) : Type 0 where
  pub from : 1970 ≤ t.year
  pub upto : t.year < 2 ^ 21
  pub month_low : 1 ≤ t.month
  pub month_high : t.month ≤ 12
  pub day_low : 1 ≤ t.day
  pub day_high : t.day ≤ month_length t.year t.month

-- The year in which March is the first month.
abbrev pub year_days : ℕ → ℕ
year_days y = y * 365 + y / 4 - y / 100 + y / 400

year_days-era :
    (y : ℕ)
    → y / 400 * 146097
        + (((y - y / 400 * 400) * 365 + (y - y / 400 * 400) / 4) - (y - y / 400 * 400) / 100)
      ≡ year_days y
year_days-era y = omega arith

-- The two tests of the month decided, and the year counted from March on.
abbrev closed : ℕ → ℕ → ℕ → ℕ
closed y k d =
    sub32
      (add32 (y / 400 * 146097 % 2 ^ 32) (
        add32
          (sub32 (add32 (sub32 y (y / 400 * 400) * 365) (sub32 y (y / 400 * 400) / 4))
            (sub32 y (y / 400 * 400) / 100))
          (sub32 (add32 (add32 (153 * k % 2 ^ 32) 2 / 5) d) 1)))
      719468

days-closed :
    (y m d z k : ℕ)
    → sub32 y (if leb m 2 then 1 else 0) ≡ z
    → (if ltb 2 m then sub32 m 3 else add32 m 9) ≡ k
    → days_from_civil y m d ≡ closed z k d
unfolding days_from_civil
days-closed y m d z k e f =
    ap (λ a. closed a (if ltb 2 m then sub32 m 3 else add32 m 9) d) e ∙ ap (λ a. closed z a d) f

closed-days :
    (y k d : ℕ)
    → 719469 ≤ year_days y + ((153 * k + 2) / 5 + d)
    → y < 2 ^ 21 + 2
    → k ≤ 11
    → 1 ≤ d
    → d ≤ 32
    → closed y k d + 719469 ≡ year_days y + ((153 * k + 2) / 5 + d)
closed-days y k d a b c e f = omega (arith, year_days-era y)

-- From March on, and in January and February, which belong to the year before.
pub days-late :
    (y m d : ℕ)
    → 1970 ≤ y
    → y < 2 ^ 21 + 2
    → 2 < m
    → m ≤ 12
    → 1 ≤ d
    → d ≤ 32
    → days_from_civil y m d + 719469 ≡ year_days y + ((153 * (m - 3) + 2) / 5 + d)
days-late y m d lo hi a b e f =
    ap (λ t. t + 719469) (days-closed y m d y (m - 3) (ground arith) (ground arith))
    ∙ closed-days y (m - 3) d (omega arith) hi (omega arith) e f

pub days-early :
    (y m d : ℕ)
    → 1970 ≤ y
    → y < 2 ^ 21 + 2
    → 1 ≤ m
    → m ≤ 2
    → 1 ≤ d
    → d ≤ 32
    → days_from_civil y m d + 719469 ≡ year_days (y - 1) + ((153 * (m + 9) + 2) / 5 + d)
days-early y m d lo hi a b e f =
    ap (λ t. t + 719469) (days-closed y m d (y - 1) (m + 9) (ground arith) (ground arith))
    ∙ closed-days (y - 1) (m + 9) d (omega arith) (omega arith) (omega arith) e f

step_day :
    (y m d : ℕ)
    → 1970 ≤ y
    → y < 2 ^ 21 + 2
    → 1 ≤ m
    → m ≤ 12
    → 1 ≤ d
    → d ≤ 31
    → days_from_civil y m (d + 1) ≡ suc (days_from_civil y m d)
step_day y m d lo hi a b e f = elim (Bool-cases (ltb 2 m)) [
  | inl h ↦ omega (
    arith,
    days-late y m d lo hi (ground arith) b e (omega arith),
    days-late y m (d + 1) lo hi (ground arith) b (omega arith) (omega arith),
  )
  | inr h ↦ omega (
    arith,
    days-early y m d lo hi a (ground arith) e (omega arith),
    days-early y m (d + 1) lo hi a (ground arith) (omega arith) (omega arith),
  )
]

month_offset :
    (y m : ℕ)
    → 2 < m
    → m < 12
    → (153 * (m + 1 - 3) + 2) / 5 + 1 ≡ (153 * (m - 3) + 2) / 5 + month_length y m + 1
month_offset y m a b = ground arith

leap_offset : (y : ℕ) → 0 < y → year_days y ≡ year_days (y - 1) + 337 + month_length y 2
leap_offset y a = ground arith

pub month_length-bounds : (y m : ℕ) → (28 ≤ month_length y m) × (month_length y m ≤ 31)
month_length-bounds y m = ground arith

step_late :
    (y m : ℕ)
    → 1970 ≤ y
    → y < 2 ^ 21 + 2
    → 2 < m
    → m < 12
    → days_from_civil y (m + 1) 1 ≡ suc (days_from_civil y m (month_length y m))
step_late y m lo hi a b =
    let (l, u) = month_length-bounds y m in
    omega (
      arith,
      days-late y (m + 1) 1 lo hi (omega arith) (omega arith) (omega arith) (omega arith),
      days-late y m (month_length y m) lo hi a (omega arith) (omega arith) (omega arith),
      month_offset y m a b,
    )

step_february :
    (y : ℕ)
    → 1970 ≤ y
    → y < 2 ^ 21 + 2
    → days_from_civil y 3 1 ≡ suc (days_from_civil y 2 (month_length y 2))
step_february y lo hi =
    let (l, u) = month_length-bounds y 2 in
    omega (
      arith,
      days-late y 3 1 lo hi (omega arith) (omega arith) (omega arith) (omega arith),
      days-early y 2 (month_length y 2) lo hi (omega arith) (omega arith) (omega arith)
          (omega arith),
      leap_offset y (omega arith),
    )

step_january :
    (y : ℕ) → 1970 ≤ y → y < 2 ^ 21 + 2 → days_from_civil y 2 1 ≡ suc (days_from_civil y 1 31)
step_january y lo hi = omega (
  arith,
  days-early y 2 1 lo hi (omega arith) (omega arith) (omega arith) (omega arith),
  days-early y 1 31 lo hi (omega arith) (omega arith) (omega arith) (omega arith),
)

step_month :
    (y m : ℕ)
    → 1970 ≤ y
    → y < 2 ^ 21 + 2
    → 1 ≤ m
    → m < 12
    → days_from_civil y (m + 1) 1 ≡ suc (days_from_civil y m (month_length y m))
step_month y zero lo hi a b = absurd (omega arith)
step_month y (suc zero) lo hi a b = step_january y lo hi
step_month y (suc (suc zero)) lo hi a b = step_february y lo hi
step_month y (suc (suc (suc m))) lo hi a b = step_late y (suc (suc (suc m))) lo hi (omega arith) b

step_year :
    (y : ℕ)
    → 1970 ≤ y
    → y < 2 ^ 21 + 1
    → days_from_civil (y + 1) 1 1 ≡ suc (days_from_civil y 12 31)
step_year y lo hi = omega (
  arith,
  days-early (y + 1) 1 1 (omega arith) (omega arith) (omega arith) (omega arith) (omega arith)
      (omega arith),
  days-late y 12 31 lo (omega arith) (omega arith) (omega arith) (omega arith) (omega arith),
)

days-tomorrow : (t : Date) → IsDate t → days (tomorrow t) ≡ suc (days t)
days-tomorrow t v =
    let (l, u) = month_length-bounds t.year t.month in
    elim (Bool-cases (ltb t.day (month_length t.year t.month))) [
      | inl e ↦ rw e (
          step_day t.year t.month t.day v.from (ground arith) v.month_low v.month_high v.day_low
            (ground arith))
      | inr e ↦ elim (Bool-cases (ltb t.month 12)) [
        | inl h ↦
            let last : month_length t.year t.month ≡ t.day = ground arith in
            rw (e, h)
              (step_month t.year t.month v.from (ground arith) v.month_low (ground arith)
                ∙ ap (λ d. suc (days_from_civil t.year t.month d)) last)
        | inr h ↦
            let month : 12 ≡ t.month = ground arith in
            let last : 31 ≡ t.day = ground arith in
            rw (e, h)
              (step_year t.year v.from (ground arith)
                ∙ ap (λ d. suc (days_from_civil t.year 12 d)) last
                ∙ ap (λ m. suc (days_from_civil t.year m t.day)) month)
      ]
    ]

tomorrow-IsDate : (t : Date) → IsDate t → t.year + 1 < 2 ^ 21 → IsDate (tomorrow t)
tomorrow-IsDate t v h = ground arith

tomorrow-year : (t : Date) → (tomorrow t).year ≤ t.year + 1
tomorrow-year t = ground arith

pub civil-IsDate : (n : ℕ) → n < 2 ^ 20 → IsDate (civil n) × ((civil n).year ≤ 1970 + n)
unfolding civil
civil-IsDate zero h = (
  record {
    from = omega arith;
    upto = omega arith;
    month_low = omega arith;
    month_high = omega arith;
    day_low = omega arith;
    day_high = omega arith;
  },
  omega arith,
)
civil-IsDate (suc n) h =
    let (v, b) = civil-IsDate n (omega arith) in
    (tomorrow-IsDate (civil n) v (omega arith), omega (arith, tomorrow-year (civil n)))

epoch : days_from_civil 1970 1 1 ≡ 0
unfolding days_from_civil
epoch = refl

-- For each n below 2 ^ 20, days_from_civil of the date n days after the first of January 1970 in
-- the Gregorian calendar is n.
pub days-civil :
    (n : ℕ) → n < 2 ^ 20 → days_from_civil (civil n).year (civil n).month (civil n).day ≡ n
unfolding civil
days-civil zero h = epoch
days-civil (suc n) h =
    days-tomorrow (civil n) (civil-IsDate n (omega arith)).0 ∙ ap suc (days-civil n (omega arith))

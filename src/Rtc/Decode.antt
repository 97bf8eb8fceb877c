-- ===== src/Rtc/Decode.antt =====
-- What `rtc_init` makes of a clock that shows a time, in each of its four formats.
use nos.Prelude.{
  ℕ, ◌+◌, ◌-◌, ◌*◌, ◌/◌, ◌%◌, ◌^◌, ◌≤◌, ◌<◌, ◌≡◌, refl, ap, ◌∙◌, ltb, Bool, true, false, ◌&&◌,
  if◌then◌else◌, ◌==◌, ==_iff, inl, inr, Bool-cases, add32, passes_below, passes_below_lem, arith,
}
use nos.Rtc.Calendar.{civil}
use nos.Rtc.Days.{days-civil, days-late, days-early, civil-IsDate, month_length-bounds}
use nos.Rtc.{
  Reading, from_bcd, hour_from_bcd, decode_bcd, hour_of_day, plausible, rtc_set, days_from_civil,
}

-- How the chip shows a number, and the hour of the day.
abbrev pub shown : Bool → ℕ → ℕ
shown bcd n = if bcd then n / 10 * 16 + n % 10 else n

abbrev pub shown_hour : Bool → Bool → ℕ → ℕ
shown_hour bcd twelve h =
    if twelve
    then shown bcd (if h % 12 == 0 then 12 else h % 12) + (if ltb h 12 then 0 else 128)
    else shown bcd h

-- Status register B: bit 2 for binary numbers, bit 1 for 24 hours.
abbrev pub status : Bool → Bool → ℕ
status bcd twelve = (if bcd then 0 else 4) + (if twelve then 0 else 2)

abbrev pub shown_date : Bool → Bool → Reading → Reading
shown_date bcd twelve t = record {
  sec = shown bcd t.sec;
  min = shown bcd t.min;
  hour = shown_hour bcd twelve t.hour;
  day = shown bcd t.day;
  month = shown bcd t.month;
  year = shown bcd t.year;
}

bcd_table : passes_below (λ n. from_bcd (n / 10 * 16 + n % 10) == n) 100 ≡ true
unfolding passes_below from_bcd
bcd_table = refl

abbrev hour_read : Bool → Bool → ℕ → ℕ
hour_read bcd twelve h =
    hour_of_day (status bcd twelve)
      (if bcd then hour_from_bcd (shown_hour bcd twelve h) else shown_hour bcd twelve h)

hour_table :
    passes_below
      (λ h.
        (hour_read true true h == h)
        && ((hour_read true false h == h)
            && ((hour_read false true h == h) && (hour_read false false h == h))))
      24
    ≡ true
unfolding passes_below hour_of_day hour_from_bcd
hour_table = refl

module _ (bcd twelve : Bool) where
  decode_bcd-shown : (n : ℕ) → n < 100 → (if bcd then from_bcd (shown bcd n) else shown bcd n) ≡ n
  decode_bcd-shown n h = elim (Bool-cases bcd) [
    | inl e ↦
        rw e (
          (==_iff _ n).0 (passes_below_lem (λ n. from_bcd (n / 10 * 16 + n % 10) == n) bcd_table h))
    | inr e ↦ rw e refl
  ]

  hour_read-shown : (h : ℕ) → h < 24 → hour_read bcd twelve h ≡ h
  hour_read-shown h small =
      let table =
        passes_below_lem
          (λ h.
            (hour_read true true h == h)
            && ((hour_read true false h == h)
                && ((hour_read false true h == h) && (hour_read false false h == h))))
          hour_table small in
      (==_iff _ h).0 (pick bcd twelve table)
    where
      pick :
          (b t : Bool)
          → ((hour_read true true h == h)
              && ((hour_read true false h == h)
                  && ((hour_read false true h == h) && (hour_read false false h == h))))
            ≡ true
          → (hour_read b t h == h) ≡ true
      pick true true e = ground arith
      pick true false e = ground arith
      pick false true e = ground arith
      pick false false e = ground arith

-- A time that the clock can show.
pub record IsTime (t : Reading) : Type 0 where
  pub year_high : t.year < 100
  pub month_low : 1 ≤ t.month
  pub month_high : t.month ≤ 12
  pub day_low : 1 ≤ t.day
  pub day_high : t.day ≤ 31
  pub hour_high : t.hour < 24
  pub min_high : t.min < 60
  pub sec_high : t.sec < 60

abbrev decoded : ℕ → Reading → Reading
decoded status_b raw =
    let r = decode_bcd status_b raw in record r { hour = hour_of_day status_b r.hour }

fields-path :
    {a b : Reading}
    → a.sec ≡ b.sec
    → a.min ≡ b.min
    → a.hour ≡ b.hour
    → a.day ≡ b.day
    → a.month ≡ b.month
    → a.year ≡ b.year
    → a ≡ b
fields-path sec min hour day month year = λ i. record {
  sec = sec i;
  min = min i;
  hour = hour i;
  day = day i;
  month = month i;
  year = year i;
}

-- Each register shows its number again.
module _ (bcd twelve : Bool) (t : Reading) (v : IsTime t) where
  abbrev read_back : Reading
  read_back = record {
    sec = if bcd then from_bcd (shown bcd t.sec) else shown bcd t.sec;
    min = if bcd then from_bcd (shown bcd t.min) else shown bcd t.min;
    hour = hour_read bcd twelve t.hour;
    day = if bcd then from_bcd (shown bcd t.day) else shown bcd t.day;
    month = if bcd then from_bcd (shown bcd t.month) else shown bcd t.month;
    year = if bcd then from_bcd (shown bcd t.year) else shown bcd t.year;
  }

  read_back-same : read_back ≡ t
  read_back-same =
      fields-path (decode_bcd-shown bcd twelve t.sec (omega (arith, v.sec_high)))
        (decode_bcd-shown bcd twelve t.min (omega (arith, v.min_high)))
        (hour_read-shown bcd twelve t.hour v.hour_high)
        (decode_bcd-shown bcd twelve t.day (omega (arith, v.day_high)))
        (decode_bcd-shown bcd twelve t.month (omega (arith, v.month_high)))
        (decode_bcd-shown bcd twelve t.year v.year_high)

decoded-shown :
    (bcd twelve : Bool) (t : Reading)
    → IsTime t
    → decoded (status bcd twelve) (shown_date bcd twelve t) ≡ t
unfolding decode_bcd
decoded-shown true true t v = read_back-same true true t v
decoded-shown true false t v = read_back-same true false t v
decoded-shown false true t v = read_back-same false true t v
decoded-shown false false t v = read_back-same false false t v

-- The seconds of a time of day on the n-th day.
abbrev pub unix : ℕ → Reading → ℕ
unix n t = n * 86400 + (t.hour * 3600 + (t.min * 60 + t.sec))

plausible-IsTime : (t : Reading) → IsTime t → plausible t ≡ true
plausible-IsTime t v = ground arith

rtc_set-decoded :
    (old status_b : ℕ) (raw : Reading)
    → plausible (decoded status_b raw) ≡ true
    → let t = decoded status_b raw in
      rtc_set old status_b raw
      ≡ add32
          (add32
            (add32 (days_from_civil (2000 + t.year) t.month t.day * 86400 % 2 ^ 32) (t.hour * 3600))
            (t.min * 60))
          t.sec
unfolding rtc_set
rtc_set-decoded old status_b raw e = rw e refl

-- The time h:mi:s on the n-th day, of a year from 2000 on.
abbrev pub reading : ℕ → ℕ → ℕ → ℕ → Reading
reading n h mi s = record {
  sec = s;
  min = mi;
  hour = h;
  day = (civil n).day;
  month = (civil n).month;
  year = (civil n).year - 2000;
}

days-bound :
    (y m d : ℕ)
    → 2000 ≤ y
    → y < 2100
    → 1 ≤ m
    → m ≤ 12
    → 1 ≤ d
    → d ≤ 31
    → days_from_civil y m d < 47500
days-bound y m d lo hi a b e f = elim (Bool-cases (ltb 2 m)) [
  | inl h ↦
      omega (arith, days-late y m d (omega arith) (omega arith) (ground arith) b e (omega arith))
  | inr h ↦
      omega (arith, days-early y m d (omega arith) (omega arith) a (ground arith) e (omega arith))
]

-- Where the registers show a time of the years 2000 to 2099, in BCD or binary and with 12 or 24
-- hours as the status says, the value that rtc_init computes is the number of seconds from the
-- start of 1970 to that time.
pub rtc_set-unix :
    (n h mi s old : ℕ) (bcd twelve : Bool)
    → n < 2 ^ 20
    → 2000 ≤ (civil n).year
    → (civil n).year < 2100
    → h < 24
    → mi < 60
    → s < 60
    → rtc_set old (status bcd twelve) (shown_date bcd twelve (reading n h mi s))
      ≡ n * 86400 + (h * 3600 + (mi * 60 + s))
rtc_set-unix n h mi s old bcd twelve small lo hi a b c =
    let t = reading n h mi s in
    let v = (civil-IsDate n small).0 in
    let (l, u) = month_length-bounds (civil n).year (civil n).month in
    let valid : IsTime t = record {
      year_high = omega arith;
      month_low = v.month_low;
      month_high = v.month_high;
      day_low = v.day_low;
      day_high = omega (arith, v.day_high);
      hour_high = a;
      min_high = b;
      sec_high = c;
    } in
    let same = decoded-shown bcd twelve t valid in
    let year : 2000 + ((civil n).year - 2000) ≡ (civil n).year = omega arith in
    let number =
      ap (λ y. days_from_civil y (civil n).month (civil n).day) year ∙ days-civil n small in
    let bound =
      days-bound (civil n).year (civil n).month (civil n).day lo hi v.month_low v.month_high
        v.day_low (omega (arith, v.day_high)) in
    rtc_set-decoded old (status bcd twelve) (shown_date bcd twelve t)
      (ap plausible same ∙ plausible-IsTime t valid)
    ∙ ap
        (λ r.
          add32
            (add32
              (add32 (days_from_civil (2000 + r.year) r.month r.day * 86400 % 2 ^ 32)
                (r.hour * 3600))
              (r.min * 60))
            r.sec)
        same
    ∙ omega (arith, number, days-civil n small, bound)

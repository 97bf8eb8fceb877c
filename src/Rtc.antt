-- ===== src/Rtc.antt =====
-- drivers/rtc.c: the date in the CMOS clock as seconds since 1970. What the ports return is an
-- argument: a reading is the six date registers.
pub mod Calendar
pub mod Days
pub mod Decode
mod Tests
use nos.Prelude.{
  ℕ, ◌+◌, ◌*◌, ◌/◌, ◌%◌, ◌^◌, ltb, leb, List, [], ◌∷◌, Option, none, some, Bool, true, false, not,
  ◌&&◌, ◌||◌, if◌then◌else◌, ◌==◌, add32, sub32, bit_and, bit_or,
}

-- Days since 1970-01-01
unfoldable pub days_from_civil : ℕ → ℕ → ℕ → ℕ
days_from_civil year m d =
    let y = sub32 year (if leb m 2 then 1 else 0) in
    let era = y / 400 in
    let yoe = sub32 y (era * 400) in
    let doy =
      sub32 (add32 (add32 (153 * (if ltb 2 m then sub32 m 3 else add32 m 9) % 2 ^ 32) 2 / 5) d) 1 in
    let doe = add32 (sub32 (add32 (yoe * 365) (yoe / 4)) (yoe / 100)) doy in
    sub32 (add32 (era * 146097 % 2 ^ 32) doe) 719468

-- The registers from seconds to year.
pub record Reading : Type 0 where
  pub sec : ℕ
  pub min : ℕ
  pub hour : ℕ
  pub day : ℕ
  pub month : ℕ
  pub year : ℕ

abbrev pub same_reading : Reading → Reading → Bool
same_reading a b =
    a.sec == b.sec
    && (a.min == b.min
        && (a.hour == b.hour && (a.day == b.day && (a.month == b.month && a.year == b.year))))

-- The loop of `rtc_init` over pairs of readings; `none` where the pairs run out.
unfoldable pub settle : List (Reading × Reading) → Option Reading
settle [] = none
settle ((first, second) ∷ later) = if same_reading first second then some first else settle later

-- From binary-coded decimal; each result is a uint8_t.
unfoldable pub from_bcd : ℕ → ℕ
from_bcd b = (bit_and b 0x0F + b / 16 * 10) % 256

unfoldable pub hour_from_bcd : ℕ → ℕ
hour_from_bcd h = bit_or (bit_and h 0x0F + bit_and h 0x70 / 16 * 10) (bit_and h 0x80) % 256

unfoldable pub decode_bcd : ℕ → Reading → Reading
decode_bcd status_b r =
    if bit_and status_b 0x04 == 0
    then record {
      sec = from_bcd r.sec;
      min = from_bcd r.min;
      hour = hour_from_bcd r.hour;
      day = from_bcd r.day;
      month = from_bcd r.month;
      year = from_bcd r.year;
    }
    else r

-- The hour of the day; bit 7 is PM in the 12-hour mode.
unfoldable pub hour_of_day : ℕ → ℕ → ℕ
hour_of_day status_b hour =
    let h = bit_and hour 0x7F in
    let base = if h == 12 then 0 else h in
    if bit_and status_b 0x02 == 0
    then (if not (bit_and hour 0x80 == 0) then (base + 12) % 256 else base)
    else h

abbrev pub plausible : Reading → Bool
plausible r = not (
    ltb r.month 1
    || (ltb 12 r.month
        || (ltb r.day 1 || (ltb 31 r.day || (ltb 23 r.hour || (ltb 59 r.min || ltb 59 r.sec))))))

-- `rtc_init` from a reading on: the new `boot_unix`, or the old one on an implausible date.
unfoldable pub rtc_set : ℕ → ℕ → Reading → ℕ
rtc_set boot_unix status_b raw =
    let r = decode_bcd status_b raw in
    let t = record r { hour = hour_of_day status_b r.hour } in
    if plausible t
    then add32
        (add32
          (add32 (days_from_civil (2000 + t.year) t.month t.day * 86400 % 2 ^ 32) (t.hour * 3600))
          (t.min * 60))
        t.sec
    else boot_unix

unfoldable pub rtc_init : ℕ → ℕ → List (Reading × Reading) → Option ℕ
rtc_init boot_unix status_b pairs = elim (settle pairs) [
  | none ↦ none
  | some raw ↦ some (rtc_set boot_unix status_b raw)
]

-- `PIT_HZ`
abbrev pub pit_hz : ℕ
pit_hz = 200

unfoldable pub rtc_unix_time : ℕ → ℕ → ℕ
rtc_unix_time timer_ticks boot_unix =
    if boot_unix == 0 then 0 else add32 boot_unix (timer_ticks / pit_hz)

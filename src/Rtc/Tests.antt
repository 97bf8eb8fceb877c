-- ===== src/Rtc/Tests.antt =====
-- 1 March 2024, 23:59:58, as a chip in the 12-hour format with decimal digits shows it.
use nos.Prelude.{◌+◌, ◌*◌, ◌≡◌, refl, true, arith}
use nos.Rtc.{days_from_civil, rtc_set}
use nos.Rtc.Calendar.{civil}
use nos.Rtc.Days.{days-civil}
use nos.Rtc.Decode.{status, shown_date, reading, rtc_set-unix}

days-civil_example : days_from_civil (civil 800).year (civil 800).month (civil 800).day ≡ 800
days-civil_example = days-civil 800 (omega arith)

march_day : civil 11018 ≡ record { year = 2000; month = 3; day = 2 }
unfolding civil
march_day = refl

rtc_set-unix_example :
    rtc_set 0 (status true true) (shown_date true true (reading 11018 23 59 58))
    ≡ 11018 * 86400 + (23 * 3600 + (59 * 60 + 58))
rtc_set-unix_example =
    rtc_set-unix 11018 23 59 58 0 true true (omega arith) (omega (arith, year))
      (omega (arith, year)) (omega arith) (omega arith) (omega arith)
  where
    year : (civil 11018).year ≡ 2000
    year = λ i. (march_day i).year

-- ===== src/Time/Tests.antt =====
-- The clock at dates around a leap day.
use felix.Prelude.{
  ◌≤◌, ◌+◌, ◌*◌, ◌/◌, ◌-◌, ◌≡◌, refl, true, false, none, some, [], arith, if◌then◌else◌, ltb,
}
use felix.Time.{
  Clock, RtcDateTime, is_valid, rtc_to_unix_seconds, read_rtc_once, leap_year, year_days,
  month_days, feb, uptime_ms, saturate, jiffies_inc, realtime_ms, pit_base_frequency, ctime_years,
  ctime, ctime_month,
}
use felix.Time.Calendar.{leaps, year_days_lem}
use felix.Time.Tomorrow.{tomorrow, convert_tomorrow}
use felix.Time.Rtc.{Format, chip, read_rtc_once-chip, read_rtc_once_valid}
use felix.Time.Uptime.{InRange, uptime_ms_exact, uptime_ms_tick, anchored, realtime_ms_elapsed}
use felix.Time.Ctime.{ctime_years_lem}

abbrev leap_eve : RtcDateTime
leap_eve = record { second = 5; minute = 4; hour = 15; day = 28; month = 2; year = 2024 }

leap_eve_seconds : rtc_to_unix_seconds leap_eve ≡ some 1709132645
unfolding rtc_to_unix_seconds year_days month_days feb leap_year
leap_eve_seconds = refl

leap_eve-is_valid : is_valid leap_eve ≡ true
unfolding is_valid
leap_eve-is_valid = refl

convert_tomorrow_example : rtc_to_unix_seconds (tomorrow leap_eve) ≡ some (1709132645 + 86400)
convert_tomorrow_example = convert_tomorrow leap_eve 1709132645 leap_eve-is_valid leap_eve_seconds

year_days_lem_example : year_days 54 + 477 ≡ 365 * 54 + leaps (1969 + 54)
year_days_lem_example = year_days_lem 54

-- In BCD, and with 12 hours.
abbrev pc : Format
pc = record { binary = false; day24 = false }

read_rtc_once-chip_example : read_rtc_once [] (chip pc leap_eve) ≡ some leap_eve
read_rtc_once-chip_example =
    read_rtc_once-chip pc leap_eve leap_eve-is_valid (omega arith) (omega arith)

read_rtc_once_valid_example : (is_valid leap_eve ≡ true) × (1970 ≤ leap_eve.year)
read_rtc_once_valid_example =
    read_rtc_once_valid [] (chip pc leap_eve) leap_eve read_rtc_once-chip_example

abbrev clock : Clock
clock = record { jiffies = 5000; pit_divisor = 11932; rtc_base_epoch = 0; rtc_base_uptime_ms = 0 }

clock-InRange : InRange clock
clock-InRange = record { ticks = omega arith; divisor = omega arith }

uptime_ms_exact_example : uptime_ms clock ≡ 5000 * 11932 * 1000 / pit_base_frequency
uptime_ms_exact_example = uptime_ms_exact clock clock-InRange

uptime_ms_tick_example :
    (uptime_ms clock ≤ uptime_ms (jiffies_inc clock))
    × (uptime_ms (jiffies_inc clock) ≤ uptime_ms clock + 11932 * 1000 / pit_base_frequency + 1)
uptime_ms_tick_example = uptime_ms_tick clock clock-InRange (omega arith)

uptime_fits : uptime_ms clock ≡ 50000
unfolding uptime_ms saturate
uptime_fits = refl

realtime_ms_elapsed_example :
    (realtime_ms clock (some 1709132645) ≡ (1709132645 * 1000, anchored clock 1709132645))
    × (realtime_ms (record (anchored clock 1709132645) { jiffies = 6000 }) none ≡ (
      1709132645 * 1000 + (uptime_ms (record clock { jiffies = 6000 }) - uptime_ms clock),
      record (anchored clock 1709132645) { jiffies = 6000 },
    ))
realtime_ms_elapsed_example =
    realtime_ms_elapsed clock 1709132645 6000 none refl (omega arith) (omega arith)
      (omega (arith, uptime_fits))

-- The last day of 1972.
ctime_years_lem_example :
    ctime_years (2 + 3) 1970 (year_days 2 + 365)
    ≡ (if ltb 365 365 then some (1970 + 2, 365) else none)
ctime_years_lem_example = ctime_years_lem 2 2 365 (unfold leap_year in omega arith)

last_day_of_1972 : ctime 94608000 ≡ none
unfolding ctime ctime_years leap_year
last_day_of_1972 = refl

-- 10 March 2024 in a leap year.
march_2024 :
    ctime 1710028800
    ≡ some (record { wday = 0; month = 2; day = 11; hour = 0; minute = 0; second = 0; year = 2024 })
unfolding ctime ctime_years ctime_month leap_year
march_2024 = refl

-- ===== src/Time.antt =====
-- kernel/src/time.rs: the clock that PIT ticks drive, the reading of the RTC registers, its
-- conversion to Unix seconds, and `ctime`. Ports are not modelled: a reading is a function from
-- CMOS registers to bytes. `usize` has 32 bits, as on the kernel's target.
pub mod Calendar
pub mod Tomorrow
pub mod Rtc
pub mod Uptime
pub mod Ctime
mod Tests
use mathlib.Core.Option
use felix.Prelude.{
  ℕ, zero, suc, ◌+◌, ◌-◌, ◌*◌, ◌/◌, ◌%◌, ◌^◌, min, Bool, true, false, ◌&&◌, ◌||◌, not, Option, none,
  some, List, [], ◌∷◌, ltb, leb, ◌==◌, if◌then◌else◌, get_or,
}

abbrev pub pit_base_frequency : ℕ
pit_base_frequency = 1193182

-- The static variables.
pub record Clock : Type 0 where
  pub jiffies : ℕ
  pub pit_divisor : ℕ
  pub rtc_base_epoch : ℕ
  pub rtc_base_uptime_ms : ℕ

pub set_pit_divisor : Clock → ℕ → Clock
set_pit_divisor c divisor = record c { pit_divisor = divisor }

-- `fetch_add` wraps around.
pub jiffies_inc : Clock → Clock
jiffies_inc c = record c { jiffies = (c.jiffies + 1) % 2 ^ 32 }

pub saturate : ℕ → ℕ
saturate n = min n (2 ^ 64 - 1)

pub uptime_ms : Clock → ℕ
uptime_ms c =
    if c.pit_divisor == 0
    then 0
    else saturate (saturate (c.jiffies * c.pit_divisor) * 1000) / pit_base_frequency

-- Seconds and milliseconds.
pub get_timestamp : Clock → ℕ × ℕ
get_timestamp c = let total_ms = uptime_ms c % 2 ^ 32 in (total_ms / 1000, total_ms % 1000)

pub record RtcDateTime : Type 0 where
  pub second : ℕ
  pub minute : ℕ
  pub hour : ℕ
  pub day : ℕ
  pub month : ℕ
  pub year : ℕ

-- Low and high half of a byte; at most 165, which a byte holds.
pub bcd : ℕ → ℕ
bcd v = v % 16 + v / 16 * 10

abbrev pub bit : ℕ → ℕ → Bool
bit v k = v / 2 ^ k % 2 == 1

pub is_valid : RtcDateTime → Bool
is_valid t =
    leb t.second 59
    && leb t.minute 59
    && leb t.hour 23
    && leb 1 t.day
    && leb t.day 31
    && leb 1 t.month
    && leb t.month 12

-- With the status byte B: bit 2 says that the registers are binary.
abbrev pub unpack : ℕ → ℕ → ℕ
unpack status_b v = if bit status_b 2 then v else bcd v

-- With bit 1 of the status byte down, hours run to 12, and bit 7 of the register is `pm`.
pub hour_of : ℕ → ℕ → ℕ
hour_of status_b raw_hour =
    let hour = unpack status_b (raw_hour % 128) in
    if bit status_b 1 then hour else if bit raw_hour 7 then min (hour % 12 + 12) 255 else hour % 12

pub year_of : ℕ → ℕ
year_of year = if leb 70 year then 1900 + year else 2000 + year

-- The registers as `read_rtc_once` decodes them, once the update flag is down.
pub decode : (ℕ → ℕ) → RtcDateTime
decode reg =
    let status_b = reg 0x0b in
    record {
      second = unpack status_b (reg 0x00);
      minute = unpack status_b (reg 0x02);
      hour = hour_of status_b (reg 0x04);
      day = unpack status_b (reg 0x07);
      month = unpack status_b (reg 0x08);
      year = year_of (unpack status_b (reg 0x09));
    }

-- The answers of `rtc_update_in_progress`, in order, and the registers thereafter. The loop gives
-- up after 100 000 of them.
pub wait_for_rtc : ℕ → List Bool → Bool
wait_for_rtc spins [] = true
wait_for_rtc spins (false ∷ busy) = true
wait_for_rtc spins (true ∷ busy) =
    let rest = wait_for_rtc (suc spins) busy in if ltb 100000 (suc spins) then false else rest

pub read_rtc_once : List Bool → (ℕ → ℕ) → Option RtcDateTime
read_rtc_once busy reg =
    if not (wait_for_rtc 0 busy)
    then none
    else if is_valid (decode reg)
    then some (decode reg)
    else none

pub leap_year : ℕ → Bool
leap_year year = (year % 4 == 0) && (not (year % 100 == 0) || (year % 400 == 0))

abbrev pub month_table : List ℕ
month_table = 31 ∷ 28 ∷ 31 ∷ 30 ∷ 31 ∷ 30 ∷ 31 ∷ 31 ∷ 30 ∷ 31 ∷ 30 ∷ 31 ∷ []

-- `for year in 1970..1970 + n`
pub year_days : ℕ → ℕ
year_days zero = 0
year_days (suc n) = year_days n + (if leap_year (1970 + n) then 366 else 365)

pub feb : ℕ → ℕ → ℕ
feb year month = if (month == 2) && leap_year year then 1 else 0

-- `for month in 1..1 + n`
pub month_days : ℕ → ℕ → ℕ
month_days year zero = 0
month_days year (suc n) = month_days year n + get_or month_table n 0 + feb year (suc n)

abbrev pub max_day : ℕ → ℕ → ℕ
max_day year month = get_or month_table (month - 1) 0 + feb year month

pub rtc_to_unix_seconds : RtcDateTime → Option ℕ
rtc_to_unix_seconds t =
    if ltb t.year 1970
    then none
    else if ltb (max_day t.year t.month) t.day
    then none
    else some (
        (year_days (t.year - 1970) + month_days t.year (t.month - 1) + (t.day - 1)) * 86400
        + t.hour * 3600
        + t.minute * 60
        + t.second)

-- With the result of `read_rtc_stable().and_then(rtc_to_unix_seconds)`. `as usize` keeps 32 bits.
pub realtime_ms : Clock → Option ℕ → ℕ × Clock
realtime_ms c rtc =
    let with_base = λ (d : Clock). d.rtc_base_epoch * 1000 + (uptime_ms d - d.rtc_base_uptime_ms) in
    if not (c.rtc_base_epoch == 0) then (with_base c, c) else elim rtc [
      | none ↦ (uptime_ms c, c)
      | some epoch ↦
          let d = record c {
            rtc_base_uptime_ms = uptime_ms c % 2 ^ 32;
            rtc_base_epoch = epoch % 2 ^ 32;
          } in
          (with_base d, d)
    ]

-- The loop on years of `ctime`, with fuel: `none` is the underflow of its `u32`, a panic. Each
-- round takes at least 365 away.
pub ctime_years : ℕ → ℕ → ℕ → Option (ℕ × ℕ)
ctime_years zero year days = none
ctime_years (suc n) year days =
    let len = if leap_year year then 366 else 365 in
    let rest = ctime_years n (suc year) (days - len) in
    if ltb days 365 then some (year, days) else if ltb days len then none else rest

-- What `ctime` prints: weekday and month by their index, then day, hour, minute, second and year.
pub record BrokenDown : Type 0 where
  pub wday : ℕ
  pub month : ℕ
  pub day : ℕ
  pub hour : ℕ
  pub minute : ℕ
  pub second : ℕ
  pub year : ℕ

-- The loop on months, on what is left of the table; `none` is an index out of bounds.
pub ctime_month : ℕ → List ℕ → ℕ → Option (ℕ × ℕ)
ctime_month month [] day = none
ctime_month month (n ∷ ns) day =
    let rest = ctime_month (suc month) ns (day - n) in if ltb n day then rest else some (month, day)

-- `none` is a panic; the last subtraction cannot underflow, since days are 1-based.
pub ctime : ℕ → Option BrokenDown
ctime timestamp =
    let days = timestamp / 60 / 60 / 24 in
    elim (ctime_years (suc days) 1970 days) [
      | none ↦ none
      | some (year, left) ↦
          Option.map
            (λ (found : ℕ × ℕ). record {
              wday = (4 + days) % 7;
              month = found.0;
              day = if ltb 2 found.0 && leap_year year then found.1 - 1 else found.1;
              hour = timestamp / 60 / 60 % 24;
              minute = timestamp / 60 % 60;
              second = timestamp % 60;
              year = year;
            })
            (ctime_month 0 month_table (left + 1))
    ]

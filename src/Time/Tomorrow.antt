-- ===== src/Time/Tomorrow.antt =====
-- `rtc_to_unix_seconds` on one day and on the next.
use felix.Prelude.{
  ◌||◌, ℕ, zero, suc, ◌+◌, ◌-◌, ◌*◌, ◌/◌, ◌%◌, Bool, ◌≤◌, ◌<◌, ◌≡◌, refl, sym, ap, ◌∙◌, true, some,
  ltb, ◌==◌, if◌then◌else◌, arith, if_intro, ltb→lt, subst, ltb-false, Bool-cases, inl, inr,
}
use mathlib.Core.Option.{some-injective}
use felix.Time.{
  RtcDateTime, is_valid, leap_year, year_days, feb, month_days, max_day, rtc_to_unix_seconds,
}
use felix.Time.Calendar.{month_days-suc, eleven_months, max_day-pos, december}

-- The Gregorian rule: every fourth year, but of the centuries only every fourth.
unfoldable pub gregorian : ℕ → Bool
gregorian year = if year % 100 == 0 then year / 100 % 4 == 0 else year % 4 == 0

gregorian-leap_year : (year : ℕ) → gregorian year ≡ leap_year year
unfolding gregorian leap_year
gregorian-leap_year year = ground arith

-- The length of a month, by the calendar.
unfoldable pub month_length : ℕ → ℕ → ℕ
month_length year month =
    if month == 2
    then (if gregorian year then 29 else 28)
    else if (month == 4) || (month == 6) || (month == 9) || (month == 11)
    then 30
    else 31

-- The day after.
unfoldable pub tomorrow : RtcDateTime → RtcDateTime
tomorrow t =
    if ltb t.day (month_length t.year t.month)
    then record t { day = t.day + 1 }
    else if ltb t.month 12
    then record t { day = 1; month = t.month + 1 }
    else record t { day = 1; month = 1; year = t.year + 1 }

-- With the table of the source.
next_date : RtcDateTime → RtcDateTime
next_date t =
    if ltb t.day (max_day t.year t.month)
    then record t { day = t.day + 1 }
    else if ltb t.month 12
    then record t { day = 1; month = t.month + 1 }
    else record t { day = 1; month = 1; year = t.year + 1 }

month_length-entry : (year i : ℕ) → i < 12 → month_length year (suc i) ≡ max_day year (suc i)
unfolding month_length feb
month_length-entry year zero h = refl
month_length-entry year (suc zero) h =
    rw (gregorian-leap_year year)
      (elim (Bool-cases (leap_year year)) [ inl l ↦ rw l | inr l ↦ rw l ])
month_length-entry year (suc (suc zero)) h = refl
month_length-entry year (suc (suc (suc zero))) h = refl
month_length-entry year (suc (suc (suc (suc zero)))) h = refl
month_length-entry year (suc (suc (suc (suc (suc zero))))) h = refl
month_length-entry year (suc (suc (suc (suc (suc (suc zero)))))) h = refl
month_length-entry year (suc (suc (suc (suc (suc (suc (suc zero))))))) h = refl
month_length-entry year (suc (suc (suc (suc (suc (suc (suc (suc zero)))))))) h = refl
month_length-entry year (suc (suc (suc (suc (suc (suc (suc (suc (suc zero))))))))) h = refl
month_length-entry year (suc (suc (suc (suc (suc (suc (suc (suc (suc (suc zero)))))))))) h = refl
month_length-entry year (suc (suc (suc (suc (suc (suc (suc (suc (suc (suc (suc zero))))))))))) h =
    refl
month_length-entry year (suc (suc (suc (suc (suc (suc (suc (suc (suc (suc (suc (suc i))))))))))))
      h =
    absurd (omega arith)

month_length-max_day : (year m : ℕ) → 1 ≤ m → m ≤ 12 → month_length year m ≡ max_day year m
month_length-max_day year zero h k = absurd (omega arith)
month_length-max_day year (suc i) h k = month_length-entry year i (omega arith)

tomorrow-next_date : (t : RtcDateTime) → 1 ≤ t.month → t.month ≤ 12 → tomorrow t ≡ next_date t
unfolding tomorrow next_date
tomorrow-next_date t h k =
    ap
      (λ len.
        if ltb t.day len
        then record t { day = t.day + 1 }
        else if ltb t.month 12
        then record t { day = 1; month = t.month + 1 }
        else record t { day = 1; month = 1; year = t.year + 1 })
      (month_length-max_day t.year t.month h k)

-- The day that a date names, counted from 1970.
abbrev pub day_number : RtcDateTime → ℕ
day_number t = year_days (t.year - 1970) + month_days t.year (t.month - 1) + (t.day - 1)

abbrev pub seconds : RtcDateTime → ℕ
seconds t = day_number t * 86400 + t.hour * 3600 + t.minute * 60 + t.second

-- A date that the calendar has.
record Exists (t : RtcDateTime) : Type 0 where
  since : 1970 ≤ t.year
  first : 1 ≤ t.day
  last : t.day ≤ max_day t.year t.month
  months : (1 ≤ t.month) × (t.month ≤ 12)

rtc_to_unix_seconds-Exists : (t : RtcDateTime) → Exists t → rtc_to_unix_seconds t ≡ some (seconds t)
unfolding rtc_to_unix_seconds
rtc_to_unix_seconds-Exists t e = ground (arith, e.since, e.last)

month_step :
    (year m : ℕ) → 1 ≤ m → month_days year (m + 1 - 1) ≡ month_days year (m - 1) + max_day year m
month_step year zero h = absurd (omega arith)
month_step year (suc m) h =
    let up : suc m + 1 - 1 ≡ suc m = omega arith in
    let down : suc m - 1 ≡ m = omega arith in
    ap (month_days year) up
    ∙ month_days-suc year m
    ∙ ap (λ k. month_days year k + max_day year (suc m)) (sym down)

year_step :
    (y : ℕ)
    → 1970 ≤ y
    → year_days (y + 1 - 1970) ≡ year_days (y - 1970) + (if leap_year y then 366 else 365)
year_step y h =
    let up : y + 1 - 1970 ≡ suc (y - 1970) = omega arith in
    let at : 1970 + (y - 1970) ≡ y = omega arith in
    ap year_days up
    ∙ (unfold year_days in ap (λ k. year_days (y - 1970) + (if leap_year k then 366 else 365)) at)

-- The last month of the year is full.
december_step :
    (y m : ℕ) → m ≡ 12 → month_days y (m - 1) + max_day y m ≡ (if leap_year y then 366 else 365)
december_step y m h =
    ap (λ k. month_days y (k - 1) + max_day y k) h ∙ ground (arith, eleven_months y, december y)

january : (y : ℕ) → month_days y 0 ≡ 0
unfolding month_days
january y = refl

day_number-next : (t : RtcDateTime) → Exists t → day_number (next_date t) ≡ day_number t + 1
unfolding next_date
day_number-next t e = elim (Bool-cases (ltb t.day (max_day t.year t.month))) [
  | inl h ↦ rw h (omega (arith, e.first))
  | inr h ↦ rw h (elim (Bool-cases (ltb t.month 12)) [
    | inl k ↦
        rw k (
          omega (arith, month_step t.year t.month e.months.0, e.last, ltb-false t.day _ h, e.first))
    | inr k ↦ rw k (
        omega (
          arith,
          year_step t.year e.since,
          december_step t.year t.month (omega (arith, ltb-false t.month 12 k, e.months.1)),
          january (t.year + 1),
          e.last,
          ltb-false t.day _ h,
          e.first,
        ))
  ])
]

next_date-Exists : (t : RtcDateTime) → Exists t → Exists (next_date t)
unfolding next_date
next_date-Exists t e =
    if_intro Exists (ltb t.day (max_day t.year t.month)) (record t { day = t.day + 1 }) _
      (λ h. record {
        since = e.since;
        first = omega (arith, e.first);
        last = omega (arith, ltb→lt t.day _ h);
        months = e.months;
      })
      (λ _.
        if_intro Exists (ltb t.month 12) (record t { day = 1; month = t.month + 1 })
          (record t { day = 1; month = 1; year = t.year + 1 })
          (λ k. record {
            since = e.since;
            first = omega arith;
            last = month_start t.year t.month (ltb→lt t.month 12 k);
            months = (omega arith, omega (arith, ltb→lt t.month 12 k));
          })
          (λ _. record {
            since = omega (arith, e.since);
            first = omega arith;
            last = max_day-pos (t.year + 1) 0 (omega arith);
            months = (omega arith, omega arith);
          }))
  where
    month_start : (y m : ℕ) → m < 12 → 1 ≤ max_day y (m + 1)
    month_start y m h =
        let p = max_day-pos y m h in
        let q : suc m ≡ m + 1 = omega arith in subst (λ k. 1 ≤ max_day y k) q p

next_date_time :
    (t : RtcDateTime)
    → ((next_date t).hour ≡ t.hour)
      × ((next_date t).minute ≡ t.minute)
      × ((next_date t).second ≡ t.second)
unfolding next_date
next_date_time t = ground arith

seconds-next : (t : RtcDateTime) → Exists t → seconds (next_date t) ≡ seconds t + 86400
seconds-next t e = let (h, m, s) = next_date_time t in omega (arith, day_number-next t e, h, m, s)

converts-Exists :
    (t : RtcDateTime) (s : ℕ)
    → is_valid t ≡ true
    → rtc_to_unix_seconds t ≡ some s
    → Exists t × (s ≡ seconds t)
unfolding is_valid rtc_to_unix_seconds
converts-Exists t s v h =
    let e : Exists t = record {
      since = ground (arith, h);
      first = ground (arith, v);
      last = ground (arith, h);
      months = (ground (arith, v), ground (arith, v));
    } in
    (e, some-injective s (seconds t) (sym h ∙ rtc_to_unix_seconds-Exists t e))

-- The time of day is kept, and only the date goes on: where a valid RTC reading converts to a
-- number of seconds, the same time on the next day of the Gregorian calendar converts to 86 400
-- more.
pub convert_tomorrow :
    (t : RtcDateTime) (s : ℕ)
    → is_valid t ≡ true
    → rtc_to_unix_seconds t ≡ some s
    → rtc_to_unix_seconds (tomorrow t) ≡ some (s + 86400)
convert_tomorrow t s v h =
    let (e, k) = converts-Exists t s v h in
    ap rtc_to_unix_seconds (tomorrow-next_date t e.months.0 e.months.1)
    ∙ rtc_to_unix_seconds-Exists (next_date t) (next_date-Exists t e)
    ∙ ap some (seconds-next t e ∙ ap (λ n. n + 86400) (sym k))

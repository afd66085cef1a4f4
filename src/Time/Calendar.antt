-- ===== src/Time/Calendar.antt =====
-- The calendar: the number of days that the loops of `rtc_to_unix_seconds` count.
use felix.Prelude.{
  ℕ, zero, suc, ◌+◌, ◌-◌, ◌*◌, ◌/◌, ◌≤◌, ◌<◌, ◌≡◌, refl, ap, ◌∙◌, false, List, [], ◌∷◌, ◌==◌,
  if◌then◌else◌, get_or, arith, Bool-cases, inl, inr, length, All,
}
use felix.Time.{leap_year, month_table, year_days, feb, month_days, max_day}

-- The leap years up to a year, by the Gregorian rule.
unfoldable pub leaps : ℕ → ℕ
leaps year = year / 4 + year / 400 - year / 100

leaps-suc : (n : ℕ) → leaps (suc n) ≡ leaps n + (if leap_year (suc n) then 1 else 0)
unfolding leaps leap_year
leaps-suc n = ground arith

leaps-next :
    (n : ℕ) → leaps (1969 + suc n) ≡ leaps (1969 + n) + (if leap_year (1970 + n) then 1 else 0)
leaps-next n =
    ap leaps (omega arith)
    ∙ leaps-suc (1969 + n)
    ∙ ap (λ y. leaps (1969 + n) + (if leap_year y then 1 else 0)) (omega arith)

-- The days that `rtc_to_unix_seconds` counts for whole years are those of the Gregorian calendar:
-- 365 a year, and one for each leap year since 1970 (477 of them lie before).
pub year_days_lem : (n : ℕ) → year_days n + 477 ≡ 365 * n + leaps (1969 + n)
unfolding year_days
year_days_lem zero = unfold leaps in refl
year_days_lem (suc n) = ground (arith, year_days_lem n, leaps-next n)

pub month_days-suc :
    (year m : ℕ) → month_days year (suc m) ≡ month_days year m + max_day year (suc m)
unfolding month_days
month_days-suc year m = let k : suc m - 1 ≡ m = omega arith in rw k (omega arith)

-- The first eleven months.
pub eleven_months : (year : ℕ) → month_days year 11 ≡ 334 + (if leap_year year then 1 else 0)
unfolding month_days feb
eleven_months year = elim (Bool-cases (leap_year year)) [ inl h ↦ rw h | inr h ↦ rw h ]

feb-other : (year m : ℕ) → (m == 2) ≡ false → feb year m ≡ 0
unfolding feb
feb-other year m h = rw h

entry-pos : (xs : List ℕ) (i : ℕ) → All (λ d. 1 ≤ d) xs → i < length xs → 1 ≤ get_or xs i 0
entry-pos [] i a h = elim h [ ]
entry-pos (x ∷ xs) zero a h = a.0
entry-pos (x ∷ xs) (suc i) a h = entry-pos xs i a.1 (omega arith)

months-pos : All (λ d. 1 ≤ d) month_table
months-pos = (
  omega arith,
  (
    omega arith,
    (
      omega arith,
      (
        omega arith,
        (
          omega arith,
          (
            omega arith,
            (
              omega arith,
              (omega arith, (omega arith, (omega arith, (omega arith, (omega arith, tt))))),
            ),
          ),
        ),
      ),
    ),
  ),
)

pub max_day-pos : (year m : ℕ) → m < 12 → 1 ≤ max_day year (suc m)
max_day-pos year m h =
    let entry = entry-pos month_table (suc m - 1) months-pos (omega arith) in omega (arith, entry)

pub december : (year : ℕ) → max_day year 12 ≡ 31
december year = ap (λ f. 31 + f) (feb-other year 12 refl)

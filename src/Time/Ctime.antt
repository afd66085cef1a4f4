-- ===== src/Time/Ctime.antt =====
-- The loop on years of `ctime`.
use felix.Prelude.{
  ℕ, zero, suc, ◌+◌, ◌-◌, ◌≤◌, ◌<◌, ◌≡◌, refl, ap, ◌∙◌, none, some, ltb, if◌then◌else◌, arith,
}
use felix.Time.{leap_year, year_days, ctime_years}

year_days-suc :
    (n : ℕ) → year_days (suc n) ≡ year_days n + (if leap_year (1970 + n) then 366 else 365)
unfolding year_days
year_days-suc n = refl

year_days-le : (k a b : ℕ) → a + k ≡ b → year_days a ≤ year_days b
year_days-le zero a b h = let p : a ≡ b = omega arith in omega (arith, ap year_days p)
year_days-le (suc k) a b h = ground (arith, year_days-le k (suc a) b (omega arith), year_days-suc a)

len : ℕ → ℕ
len year = if leap_year year then 366 else 365

len-pos : (year : ℕ) → 365 ≤ len year
unfolding len
len-pos year = ground arith

round :
    (n year days : ℕ)
    → len year ≤ days
    → ctime_years (suc n) year days ≡ ctime_years n (suc year) (days - len year)
unfolding ctime_years len
round n year days h = ground (arith, h)

-- The rounds for `k` whole years.
rounds :
    (k n a b days d : ℕ)
    → a + k ≡ b
    → days + year_days a ≡ year_days b + d
    → ctime_years (k + n) (1970 + a) days ≡ ctime_years n (1970 + b) d
rounds zero n a b days d h e =
    let p : a ≡ b = omega arith in
    let q : days ≡ d = omega (arith, ap year_days p, e) in
    let r : 0 + n ≡ n = omega arith in λ i. ctime_years (r i) (1970 + p i) (q i)
rounds (suc k) n a b days d h e =
    let p : suc k + n ≡ suc (k + n) = omega arith in
    let q : suc (1970 + a) ≡ 1970 + suc a = omega arith in
    let s : year_days (suc a) ≡ year_days a + len (1970 + a) = unfold len in year_days-suc a in
    let l = year_days-le k (suc a) b (omega arith) in
    ap (λ m. ctime_years m (1970 + a) days) p
    ∙ round (k + n) (1970 + a) days (omega (arith, s, l, e))
    ∙ ap (λ y. ctime_years (k + n) y (days - len (1970 + a))) q
    ∙ rounds k n (suc a) b _ d (omega arith) (omega (arith, s, l, e))

last_round :
    (n k d : ℕ)
    → d < len (1970 + k)
    → ctime_years (suc n) (1970 + k) d ≡ (if ltb d 365 then some (1970 + k, d) else none)
unfolding ctime_years len
last_round n k d h = ground (arith, h)

-- On day `d` (from 0) of any year since 1970, with more fuel than there are years, the loop of
-- `ctime` finds the year and the day, except on day 365, the last of a leap year: there its `u32`
-- underflows.
pub ctime_years_lem :
    (n k d : ℕ)
    → d < (if leap_year (1970 + k) then 366 else 365)
    → ctime_years (k + suc n) 1970 (year_days k + d)
      ≡ (if ltb d 365 then some (1970 + k, d) else none)
ctime_years_lem n k d h =
    rounds k (suc n) 0 k (year_days k + d) d (omega arith) (unfold year_days in omega arith)
    ∙ last_round n k d (unfold len in h)

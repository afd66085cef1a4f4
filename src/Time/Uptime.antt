-- ===== src/Time/Uptime.antt =====
-- The clock: PIT ticks in milliseconds, and the time of day that is anchored at the first reading
-- of the RTC.
use felix.Prelude.{
  ℕ, ◌+◌, ◌-◌, ◌*◌, ◌/◌, ◌%◌, ◌^◌, ◌≤◌, ◌<◌, ◌≡◌, refl, ap, ◌∙◌, true, false, Option, some, ◌==◌,
  arith, ==_iff, Bool-cases, inl, inr,
}
use native.Mathlib.Nat.{mul-le-mul}
use felix.Time.{Clock, pit_base_frequency, jiffies_inc, saturate, uptime_ms, realtime_ms}

-- The values that the variables can hold: the divisor is a 16-bit one of the PIT, or 65536.
pub record InRange (c : Clock) : Type 0 where
  pub ticks : c.jiffies < 2 ^ 32
  pub divisor : c.pit_divisor ≤ 65536

product_bound : (j d : ℕ) → j < 4294967296 → d ≤ 65536 → j * d ≤ 4294967296 * 65536
product_bound j d h k = let le : j ≤ 4294967296 = omega arith in mul-le-mul le k

-- The saturating products of `uptime_ms` never saturate: it is exact.
pub uptime_ms_exact :
    (c : Clock) → InRange c → uptime_ms c ≡ c.jiffies * c.pit_divisor * 1000 / pit_base_frequency
unfolding uptime_ms saturate
uptime_ms_exact c r = elim (Bool-cases (c.pit_divisor == 0)) [
  | inl z ↦ rw z (ground (arith, nothing c.jiffies c.pit_divisor ((==_iff _ 0).0 z)))
  | inr z ↦
      rw z (ap (λ n. n / pit_base_frequency) (omega (arith, product_bound _ _ r.ticks r.divisor)))
]
  where
    nothing : (j d : ℕ) → d ≡ 0 → j * d ≡ 0
    nothing j d h = ap (λ k. j * k) h ∙ omega arith

-- A tick that does not wrap the counter around never turns the clock back, and moves it on by the
-- divisor's share of a second, up to rounding.
pub uptime_ms_tick :
    (c : Clock)
    → InRange c
    → c.jiffies + 1 < 2 ^ 32
    → (uptime_ms c ≤ uptime_ms (jiffies_inc c))
      × (uptime_ms (jiffies_inc c) ≤ uptime_ms c + c.pit_divisor * 1000 / pit_base_frequency + 1)
unfolding jiffies_inc
uptime_ms_tick c r h =
    let next : (c.jiffies + 1) % 2 ^ 32 ≡ c.jiffies + 1 = omega arith in
    let before = uptime_ms_exact c r in
    let after =
      ap (λ j. uptime_ms (record c { jiffies = j })) next
      ∙ uptime_ms_exact (record c { jiffies = c.jiffies + 1 })
          (record { ticks = h; divisor = r.divisor }) in
    let more : (c.jiffies + 1) * c.pit_divisor ≡ c.jiffies * c.pit_divisor + c.pit_divisor =
      omega arith in
    (omega (arith, before, after, more), omega (arith, before, after, more))

-- The clock after the first reading of the RTC.
abbrev pub anchored : Clock → ℕ → Clock
anchored c epoch = record c { rtc_base_uptime_ms = uptime_ms c; rtc_base_epoch = epoch }

realtime_ms-anchored :
    (d : Clock) (rtc : Option ℕ)
    → 0 < d.rtc_base_epoch
    → realtime_ms d rtc ≡ (d.rtc_base_epoch * 1000 + (uptime_ms d - d.rtc_base_uptime_ms), d)
unfolding realtime_ms
realtime_ms-anchored d rtc h = let k : (d.rtc_base_epoch == 0) ≡ false = ground arith in rw k

uptime_ms-base :
    (c : Clock) (a b : ℕ)
    → uptime_ms (record c { rtc_base_uptime_ms = a; rtc_base_epoch = b }) ≡ uptime_ms c
unfolding uptime_ms
uptime_ms-base c a b = refl

start : (e e' u v w : ℕ) → e ≡ e' → u ≡ v → w ≡ v → e * 1000 + (u - w) ≡ e' * 1000
start e e' u v w p q r = omega arith

realtime_ms-first :
    (c : Clock) (epoch : ℕ)
    → c.rtc_base_epoch ≡ 0
    → epoch < 2 ^ 32
    → uptime_ms c < 2 ^ 32
    → realtime_ms c (some epoch) ≡ (epoch * 1000, anchored c epoch)
unfolding realtime_ms
realtime_ms-first c epoch z h u =
    let k : (c.rtc_base_epoch == 0) ≡ true = ground arith in
    let e : epoch % 2 ^ 32 ≡ epoch = omega arith in
    let m : uptime_ms c % 2 ^ 32 ≡ uptime_ms c = omega arith in
    let same = uptime_ms-base c (uptime_ms c % 2 ^ 32) (epoch % 2 ^ 32) in
    rw k (λ i. (
      start (epoch % 2 ^ 32) epoch _ (uptime_ms c) _ e same m i,
      record c { rtc_base_uptime_ms = m i; rtc_base_epoch = e i },
    ))

-- The time of day goes by the clock: at the first reading of the RTC it is the epoch read, and from
-- then on the epoch and the time since, whatever the RTC shows. (The uptime at the first reading
-- has to fit 32 bits.)
pub realtime_ms_elapsed :
    (c : Clock) (epoch now : ℕ) (rtc : Option ℕ)
    → c.rtc_base_epoch ≡ 0
    → 0 < epoch
    → epoch < 2 ^ 32
    → uptime_ms c < 2 ^ 32
    → (realtime_ms c (some epoch) ≡ (epoch * 1000, anchored c epoch))
      × (realtime_ms (record (anchored c epoch) { jiffies = now }) rtc ≡ (
        epoch * 1000 + (uptime_ms (record c { jiffies = now }) - uptime_ms c),
        record (anchored c epoch) { jiffies = now },
      ))
realtime_ms_elapsed c epoch now rtc z p h u = (
  realtime_ms-first c epoch z h u,
  unfold uptime_ms in realtime_ms-anchored (record (anchored c epoch) { jiffies = now }) rtc p,
)

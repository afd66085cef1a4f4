-- ===== src/Time/Rtc.antt =====
-- `read_rtc_once` on the formats of the clock chip.
use felix.Prelude.{
  ℕ, ◌+◌, ◌*◌, ◌/◌, ◌%◌, ◌≤◌, ◌<◌, ◌≡◌, refl, ap, ◌∙◌, Bool, true, false, not, none, some, List, [],
  leb, ◌==◌, if◌then◌else◌, arith, if_intro, subst,
}
use mathlib.Core.Option.{some-injective, none-ne-some}
use felix.Time.{
  RtcDateTime, is_valid, bcd, unpack, hour_of, year_of, decode, wait_for_rtc, read_rtc_once,
}

-- How the chip is set: binary or BCD, 24 or 12 hours.
pub record Format : Type 0 where
  pub binary : Bool
  pub day24 : Bool

abbrev pub encode : Bool → ℕ → ℕ
encode binary v = if binary then v else v / 10 * 16 + v % 10

abbrev pub encode_hour : Bool → Bool → ℕ → ℕ
encode_hour binary day24 h =
    if day24
    then encode binary h
    else encode binary (if h % 12 == 0 then 12 else h % 12) + (if leb 12 h then 128 else 0)

abbrev pub status : Bool → Bool → ℕ
status binary day24 = (if binary then 4 else 0) + (if day24 then 2 else 0)

-- The registers of a chip that shows a date and time.
abbrev pub chip : Format → RtcDateTime → ℕ → ℕ
chip f t reg =
    if reg == 0x00
    then encode f.binary t.second
    else if reg == 0x02
    then encode f.binary t.minute
    else if reg == 0x04
    then encode_hour f.binary f.day24 t.hour
    else if reg == 0x07
    then encode f.binary t.day
    else if reg == 0x08
    then encode f.binary t.month
    else if reg == 0x09
    then encode f.binary (t.year % 100)
    else if reg == 0x0b
    then status f.binary f.day24
    else 0

unpack-encode : (b d : Bool) (v : ℕ) → v < 100 → unpack (status b d) (encode b v) ≡ v
unfolding bcd
unpack-encode true true v h = refl
unpack-encode true false v h = refl
unpack-encode false true v h = omega arith
unpack-encode false false v h = omega arith

hour_of-encode : (b d : Bool) (h : ℕ) → h < 24 → hour_of (status b d) (encode_hour b d h) ≡ h
unfolding bcd hour_of
hour_of-encode true true h k = omega arith
hour_of-encode true false h k = ground arith
hour_of-encode false true h k = omega arith
hour_of-encode false false h k = ground arith

year_of-century : (y : ℕ) → 1970 ≤ y → y < 2070 → year_of (y % 100) ≡ y
unfolding year_of
year_of-century y h k = ground arith

within :
    (t : RtcDateTime)
    → is_valid t ≡ true
    → (t.second < 100) × (t.minute < 100) × (t.hour < 24) × (t.day < 100) × (t.month < 100)
unfolding is_valid
within t v =
    (ground (arith, v), ground (arith, v), ground (arith, v), ground (arith, v), ground (arith, v))

decode-chip :
    (f : Format) (t : RtcDateTime)
    → is_valid t ≡ true
    → 1970 ≤ t.year
    → t.year < 2070
    → decode (chip f t) ≡ t
unfolding decode
decode-chip f t v h k =
    let (s, m, hr, d, mo) = within t v in
    λ i. record {
      second = unpack-encode f.binary f.day24 t.second s i;
      minute = unpack-encode f.binary f.day24 t.minute m i;
      hour = hour_of-encode f.binary f.day24 t.hour hr i;
      day = unpack-encode f.binary f.day24 t.day d i;
      month = unpack-encode f.binary f.day24 t.month mo i;
      year =
          (ap year_of (unpack-encode f.binary f.day24 (t.year % 100) (omega arith))
              ∙ year_of-century t.year h k)
            i;
    }

-- The registers of the chip, in any of its formats, are read back as the date and time they show,
-- from 1970 to 2069.
pub read_rtc_once-chip :
    (f : Format) (t : RtcDateTime)
    → is_valid t ≡ true
    → 1970 ≤ t.year
    → t.year < 2070
    → read_rtc_once [] (chip f t) ≡ some t
unfolding read_rtc_once wait_for_rtc
read_rtc_once-chip f t v h k =
    let same = decode-chip f t v h k in ap (λ r. if is_valid r then some r else none) same ∙ rw v

year_of-since : (y : ℕ) → 1970 ≤ year_of y
unfolding year_of
year_of-since y = ground arith

decode-since : (reg : ℕ → ℕ) → 1970 ≤ (decode reg).year
unfolding decode
decode-since reg = year_of-since _

abbrev Sound : RtcDateTime → Type 0
Sound t = (is_valid t ≡ true) × (1970 ≤ t.year)

-- Whatever the registers hold, a date and time that is read has every field in its range (so that
-- the conversion finds its month in the table), and is not before the epoch.
pub read_rtc_once_valid :
    (busy : List Bool) (reg : ℕ → ℕ) (t : RtcDateTime)
    → read_rtc_once busy reg ≡ some t
    → (is_valid t ≡ true) × (1970 ≤ t.year)
unfolding read_rtc_once
read_rtc_once_valid busy reg t =
    if_intro (λ o. o ≡ some t → Sound t) (not (wait_for_rtc 0 busy)) none _
      (λ _ h. absurd (none-ne-some t h))
      (λ _.
        if_intro (λ o. o ≡ some t → Sound t) (is_valid (decode reg)) (some (decode reg)) none
          (λ v h. subst Sound (some-injective _ _ h) (v, decode-since reg))
          (λ _ h. absurd (none-ne-some t h)))

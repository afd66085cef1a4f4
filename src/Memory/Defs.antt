-- ===== src/Memory/Defs.antt =====
-- kernel/src/memory/resources.rs: kinds, errors and checked arithmetic of the resource tables.
use felix.Prelude.{
  ℕ, zero, suc, ◌+◌, ◌-◌, ◌%◌, ◌^◌, ◌≤◌, ◌<◌, min, ◌≡◌, refl, ◌⊎◌, inl, inr, Bool, false, ◌||◌, not,
  ltb, ◌==◌, if◌then◌else◌, arith,
}
use Prim.Native.String.{String}

pub data ResourceKind : Type 0 where
  free reserved kernel mmio framebuffer dma acpi firmware : ResourceKind

-- The discriminant, by which the derived `==` compares.
abbrev pub tag : ResourceKind → ℕ
tag free = 0
tag reserved = 1
tag kernel = 2
tag mmio = 3
tag framebuffer = 4
tag dma = 5
tag acpi = 6
tag firmware = 7

pub record PhysRange : Type 0 where
  pub start : ℕ
  pub size : ℕ
  pub kind : ResourceKind
  pub owner : String

pub data ResourceError : Type 0 where
  zero_size invalid_alignment overflow address_too_high out_of_memory not_found : ResourceError
  mapping_failed : String → ResourceError
  overlap : PhysRange → PhysRange → ResourceError

pub data Result {ℓ} (A : Type ℓ) : Type ℓ where
  ok : A → Result A
  err : ResourceError → Result A

infixl 5 ◌>>=◌
abbrev pub ◌>>=◌ {ℓ κ} : {A : Type ℓ} {B : Type κ} → Result A → (A → Result B) → Result B
ok a >>= f = f a
err e >>= f = err e

abbrev pub page_size : ℕ
page_size = 4096

-- `a.checked_add(b).ok_or(ResourceError::Overflow)` on a type of `w` bits.
abbrev pub checked_add : ℕ → ℕ → ℕ → Result ℕ
checked_add w a b = if ltb (a + b) (2 ^ w) then ok (a + b) else err overflow

-- `a.saturating_add(b)` on u64.
abbrev pub saturating_add64 : ℕ → ℕ → ℕ
saturating_add64 a b = min (a + b) (2 ^ 64 - 1)

-- `is_power_of_two`: some `2 ^ k` below `2 ^ bound`.
unfoldable pub is_power_of_two : ℕ → ℕ → Bool
is_power_of_two zero n = false
is_power_of_two (suc k) n = (n == 2 ^ k) || is_power_of_two k n

-- `v & !(align - 1)`: for a power of two, the mask clears the remainder.
abbrev pub mask_down : ℕ → ℕ → ℕ
mask_down v align = v - v % align

-- `align_up_u64` and `align_up_u32`.
unfoldable pub align_up : ℕ → ℕ → ℕ → Result ℕ
align_up w value align =
    if (align == 0) || not (is_power_of_two w align)
    then err invalid_alignment
    else (checked_add w value (align - 1) >>= λ v. ok (mask_down v align))

mask_down-mod : (v a : ℕ) → 0 < a → mask_down v a % a ≡ 0
mask_down-mod v a h = grind arith

mask_up_bounds :
    (v a : ℕ) → 0 < a → (v ≤ mask_down (v + (a - 1)) a) × (mask_down (v + (a - 1)) a ≤ v + (a - 1))
mask_up_bounds v a h = grind arith

-- What a successful alignment gives.
pub record AlignedUp (w value align r : ℕ) : Type 0 where
  pub positive : 0 < align
  pub at_least : value ≤ r
  pub close : r ≤ value + (align - 1)
  pub fits : r < 2 ^ w
  pub multiple : r % align ≡ 0

pub align_up-AlignedUp :
    (w value align r : ℕ) → align_up w value align ≡ ok r → AlignedUp w value align r
unfolding align_up
align_up-AlignedUp w value align r h =
    ground (arith, mask_down-mod (value + (align - 1)) align, mask_up_bounds value align)

pub Result-cases {ℓ} :
    {A : Type ℓ} (m : Result A) → ((a : A) × (m ≡ ok a)) ⊎ ((e : ResourceError) × (m ≡ err e))
Result-cases (ok a) = inl (a, refl)
Result-cases (err e) = inr (e, refl)

-- ===== src/Memory/Phys.antt =====
-- kernel/src/memory/resources.rs, `ResourceManager`: the physical ranges that have an owner. The
-- state is the vector `ranges`; a method that changes it returns the new one.
-- `alloc_phys_below` stands on the frame allocator and is not modelled.
pub mod Order
pub mod Scan
pub mod Reserve
pub mod Release
mod Tests
use felix.Prelude.{
  ℕ, zero, suc, ◌+◌, ◌^◌, Bool, true, false, ◌&&◌, ◌||◌, not, Option, none, some, List, [], ◌∷◌,
  ◌++◌, ltb, leb, ◌==◌, if◌then◌else◌, remove_at, get_elem?,
}
use mathlib.Core.Option
use Prim.Native.String.{String}
use text.Mathlib.Text.{◌==◌ as str_eq}
use felix.Memory.Order.{sort}
use felix.Memory.Defs.{
  ResourceKind, tag, PhysRange, ResourceError, zero_size, overflow, overlap, not_found, Result, ok,
  err, ◌>>=◌, checked_add, saturating_add64,
}

abbrev pub Ranges : Type 0
Ranges = List PhysRange

-- `PhysRange::end`
pub range_end : PhysRange → Result ℕ
range_end r = checked_add 64 r.start r.size

-- `start < r_end && r.start < end`
abbrev pub meets : ℕ → ℕ → ℕ → ℕ → Bool
meets start end r_start r_end = ltb start r_end && ltb r_start end

pub any_meets : ℕ → ℕ → Ranges → Bool
any_meets start end [] = false
any_meets start end (r ∷ rs) =
    meets start end r.start (saturating_add64 r.start r.size) || any_meets start end rs

pub is_free : Ranges → ℕ → ℕ → Bool
unfolding any_meets
is_free rs start size = elim (checked_add 64 start size) [
  | err e ↦ false
  | ok end ↦ if size == 0 then false else not (any_meets start end rs)
]

-- The test for an exact repetition of a reservation.
pub is_same : PhysRange → PhysRange → Bool
is_same a b =
    (a.start == b.start)
    && (a.size == b.size)
    && (tag a.kind == tag b.kind)
    && str_eq a.owner b.owner

-- The loop of `reserve_range`: `ok true` is the early `return Ok(())`, `ok false` the end of the
-- loop.
pub scan : PhysRange → ℕ → Ranges → Result Bool
scan requested end [] = ok false
scan requested end (existing ∷ rs) =
    let rest = scan requested end rs in
    range_end existing >>= λ existing_end.
    if meets requested.start end existing.start existing_end
    then (if is_same existing requested then ok true else err (overlap requested existing))
    else rest

abbrev pub start_of : PhysRange → ℕ
start_of r = r.start

abbrev pub size_of : PhysRange → ℕ
size_of r = r.size

pub reserve_range : Ranges → ℕ → ℕ → ResourceKind → String → Result (Unit {0}) × Ranges
reserve_range rs start size kind owner =
    let requested : PhysRange = record { start = start; size = size; kind = kind; owner = owner } in
    let found = (checked_add 64 start size >>= λ end. scan requested end rs) in
    if size == 0 then (err zero_size, rs) else elim found [
      | err e ↦ (err e, rs)
      | ok true ↦ (ok tt, rs)
      | ok false ↦ (ok tt, sort start_of (rs ++ requested ∷ []))
    ]

-- `position(|r| r.start == start && r.size == size)`
pub position : ℕ → ℕ → Ranges → Option ℕ
position start size [] = none
position start size (r ∷ rs) =
    if (r.start == start) && (r.size == size)
    then some 0
    else Option.map suc (position start size rs)

pub release_range : Ranges → ℕ → ℕ → Result PhysRange × Ranges
release_range rs start size = elim (position start size rs) [
  | none ↦ (err not_found, rs)
  | some index ↦ elim (get_elem? rs index) [
    | none ↦ (err not_found, rs)
    | some r ↦ (ok r, remove_at rs index)
  ]
]

-- ===== src/Memory/Virt.antt =====
-- kernel/src/memory/resources.rs, `VirtualRangeAllocator`: first fit in the kernel's MMIO window.
-- `usize` is u32 on i386. A method returns its result and the allocator that it leaves.
pub mod FirstFit
pub mod Inv
pub mod Free
mod Tests
use felix.Prelude.{
  ℕ, zero, suc, ◌+◌, ◌-◌, ◌%◌, ◌^◌, max, Bool, true, false, ◌&&◌, ◌||◌, not, Option, none, some,
  List, [], ◌∷◌, ◌++◌, ltb, leb, ◌==◌, if◌then◌else◌, remove_at,
}
use mathlib.Core.Option
use Prim.Native.String.{String}
use felix.Memory.Order.{sort}
use felix.Memory.Defs.{
  zero_size, overflow, out_of_memory, invalid_alignment, not_found, Result, ok, err, ◌>>=◌,
  checked_add, align_up, is_power_of_two, page_size,
}

pub record VirtualRange : Type 0 where
  pub start : ℕ
  pub size : ℕ
  pub owner : String

pub record Allocator : Type 0 where
  pub base : ℕ
  pub end : ℕ
  pub ranges : List VirtualRange

abbrev pub start_of : VirtualRange → ℕ
start_of r = r.start

abbrev pub size_of : VirtualRange → ℕ
size_of r = r.size

-- Where the loop stops: before a range that leaves room, or past the last one.
pub data Place : Type 0 where
  gap past : ℕ → Place

-- The loop of `alloc_kernel_virtual` over the sorted ranges.
pub first_fit : ℕ → ℕ → ℕ → List VirtualRange → Result Place
first_fit size align cursor [] = ok (past cursor)
first_fit size align cursor (r ∷ rs) = checked_add 32 cursor size >>= λ candidate_end.
    if leb candidate_end r.start
    then ok (gap cursor)
    else (checked_add 32 r.start r.size >>= λ r_end.
        (if ltb cursor r_end then align_up 32 r_end align else ok cursor) >>= λ next.
        first_fit size align next rs)

-- Push the new range, and sort.
abbrev pub take_range : Allocator → ℕ → ℕ → String → Allocator
take_range a cursor size owner = record a {
  ranges = sort start_of (a.ranges ++ record { start = cursor; size = size; owner = owner } ∷ []);
}

-- What follows the loop.
pub finish : Allocator → ℕ → String → Result Place → Result ℕ × Allocator
finish a size owner (err e) = (err e, a)
finish a size owner (ok (gap cursor)) = (ok cursor, take_range a cursor size owner)
finish a size owner (ok (past cursor)) = elim (checked_add 32 cursor size) [
  | err e ↦ (err e, a)
  | ok candidate_end ↦
      if ltb a.end candidate_end
      then (err out_of_memory, a)
      else (ok cursor, take_range a cursor size owner)
]

-- The rounded size and the first candidate, with every check that precedes the loop.
pub prepare : ℕ → ℕ → ℕ → Result (ℕ × ℕ)
prepare base size align =
    if size == 0
    then err zero_size
    else if (align == 0) || not (is_power_of_two 32 align)
    then err invalid_alignment
    else (align_up 64 size page_size >>= λ rounded.
        if ltb (2 ^ 32 - 1) rounded
        then err overflow
        else (align_up 32 base (max align page_size) >>= λ cursor. ok (rounded, cursor)))

pub alloc_kernel_virtual : Allocator → ℕ → ℕ → String → Result ℕ × Allocator
unfolding first_fit finish prepare
alloc_kernel_virtual a size align owner = elim (prepare a.base size align) [
  | err e ↦ (err e, a)
  | ok (rounded, cursor) ↦
      let sorted = sort start_of a.ranges in
      finish (record a { ranges = sorted }) rounded owner
        (first_fit rounded (max align page_size) cursor sorted)
]

pub position : ℕ → ℕ → List VirtualRange → Option ℕ
position start size [] = none
position start size (r ∷ rs) =
    if (r.start == start) && (r.size == size)
    then some 0
    else Option.map suc (position start size rs)

-- The rounded size is cast to u32.
pub free_kernel_virtual : Allocator → ℕ → ℕ → Result (Unit {0}) × Allocator
unfolding position
free_kernel_virtual a start size = elim (align_up 64 size page_size) [
  | err e ↦ (err e, a)
  | ok rounded ↦ elim (position start (rounded % 2 ^ 32) a.ranges) [
    | none ↦ (err not_found, a)
    | some index ↦ (ok tt, record a { ranges = remove_at a.ranges index })
  ]
]

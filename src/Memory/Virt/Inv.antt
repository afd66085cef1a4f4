-- ===== src/Memory/Virt/Inv.antt =====
-- The invariant of the ranges that are handed out of the window.
use felix.Prelude.{
  ℕ, ◌+◌, ◌%◌, ◌^◌, ◌≤◌, ◌<◌, max, ◌≡◌, sym, ap, subst, ◌∙◌, inl, inr, List, [], ◌∷◌, ltb, arith,
  Bool-cases,
}
use Prim.Native.String.{String}
use felix.Memory.Order
use felix.Memory.Order.{insert, sort}
use felix.Memory.Defs.{
  ResourceError, Result, Result-cases, ok, err, align_up, align_up-AlignedUp, page_size, overflow,
  out_of_memory,
}
use felix.Memory.Virt.{
  VirtualRange, Allocator, start_of, size_of, Place, gap, past, first_fit, finish, prepare,
  take_range, alloc_kernel_virtual,
}
use felix.Memory.Virt.FirstFit.{Chain, Fits, Sound, first_fit-Sound}

-- Sorted, not empty, without overlap, from `base` to `end`.
abbrev pub Inv : Allocator → Type 0
Inv a = Chain a.end a.base a.ranges

pub record Prepared (base size align rounded cursor : ℕ) : Type 0 where
  pub rounding : align_up 64 size page_size ≡ ok rounded
  pub some_size : 0 < size
  pub positive : size ≤ rounded
  pub small : rounded < 2 ^ 32
  pub after : base ≤ cursor
  pub aligned : cursor % max align page_size ≡ 0

prepare-Prepared :
    (base size align rounded cursor : ℕ)
    → prepare base size align ≡ ok (rounded, cursor)
    → Prepared base size align rounded cursor
unfolding prepare
prepare-Prepared base size align rounded cursor h =
    elim (Result-cases (align_up 64 size page_size)) [
      | inr (e, k) ↦ absurd (ground (arith, k))
      | inl (r, k) ↦ elim (Result-cases (align_up 32 base (max align page_size))) [
        | inr (e, l) ↦ absurd (ground (arith, k, l))
        | inl (c, l) ↦
            let up = align_up-AlignedUp 64 size page_size r k in
            let to = align_up-AlignedUp 32 base (max align page_size) c l in
            ground (arith, k, l, up, to)
      ]
    ]

-- The new range, where the loop found room for it.
abbrev pub new_range : ℕ → ℕ → String → VirtualRange
new_range at size owner = record { start = at; size = size; owner = owner }

module _ (a : Allocator) (size : ℕ) (owner : String) (v : Inv a) (some_size : 0 < size) where
  pub ranges-take_range :
      (at : ℕ)
      → Order.Clear start_of size_of at (at + size) a.ranges
      → at + size ≤ a.end
      → (take_range a at size owner).ranges ≡ insert start_of (new_range at size owner) a.ranges
  ranges-take_range at f e =
      Order.sort_snoc start_of size_of a.end (new_range at size owner) some_size e a.base a.ranges v
        f

  take_range-Inv :
      (at : ℕ)
      → a.base ≤ at
      → Order.Clear start_of size_of at (at + size) a.ranges
      → at + size ≤ a.end
      → Inv (take_range a at size owner)
  take_range-Inv at b f e = subst (Chain a.end a.base) (sym (ranges-take_range at f e)) (
      Order.insert-Chain start_of size_of a.end (new_range at size owner) some_size e a.base
        a.ranges v b f)

Clear-shrink :
    (from to end : ℕ) (rs : List VirtualRange)
    → to ≤ end
    → Order.Clear start_of size_of from end rs
    → Order.Clear start_of size_of from to rs
Clear-shrink from to end [] h c = tt
Clear-shrink from to end (r ∷ rs) h c = (omega arith, Clear-shrink from to end rs h c.1)

-- What `alloc_kernel_virtual` did, on either outcome.
pub data Outcome (a : Allocator) (size align : ℕ) (owner : String) : Type 0 where
  refused :
      (e : ResourceError)
      → alloc_kernel_virtual a size align owner ≡ (err e, a)
      → Outcome a size align owner
  granted :
      (rounded at : ℕ)
      → align_up 64 size page_size ≡ ok rounded
      → (0 < size) × (size ≤ rounded) × (rounded < 2 ^ 32)
      → Fits a.end rounded (max align page_size) a.base a.ranges at
      → at + rounded ≤ a.end
      → alloc_kernel_virtual a size align owner ≡ (ok at, take_range a at rounded owner)
      → Outcome a size align owner

finish_cases :
    (a : Allocator) (size align : ℕ) (owner : String) (rounded cursor : ℕ)
    → Prepared a.base size align rounded cursor
    → (p : Result Place) → Sound a.end rounded (max align page_size) cursor a.ranges p
    → alloc_kernel_virtual a size align owner ≡ finish a rounded owner p
    → Outcome a size align owner
unfolding finish
finish_cases a size align owner rounded cursor q (err e) s k = refused e k
finish_cases a size align owner rounded cursor q (ok (gap at)) s k =
    granted rounded at q.rounding (q.some_size, q.positive, q.small)
      (record { after = omega (arith, s.0.after); aligned = s.0.aligned; clear = s.0.clear }) s.1 k
finish_cases a size align owner rounded cursor q (ok (past at)) s k =
    elim (Bool-cases (ltb (at + rounded) (2 ^ 32))) [
      | inr over ↦ refused overflow (k ∙ ground (arith, over))
      | inl f ↦ elim (Bool-cases (ltb a.end (at + rounded))) [
        | inl full ↦ refused out_of_memory (k ∙ ground (arith, f, full))
        | inr room ↦
            granted rounded at q.rounding (q.some_size, q.positive, q.small)
              (record { after = omega (arith, s.after); aligned = s.aligned; clear = s.clear })
              (ground arith) (k ∙ ground (arith, f, room))
      ]
    ]

pub alloc_cases :
    (a : Allocator) (size align : ℕ) (owner : String) → Inv a → Outcome a size align owner
unfolding alloc_kernel_virtual
alloc_cases a size align owner v = elim (Result-cases (prepare a.base size align)) [
  | inr (e, k) ↦ refused e (rw (k, alloc_kernel_virtual))
  | inl ((rounded, cursor), k) ↦
      let q = prepare-Prepared a.base size align rounded cursor k in
      let sorted = Order.sort-Chain start_of size_of a.end a.base a.ranges v in
      finish_cases a size align owner rounded cursor q
        (first_fit rounded (max align page_size) cursor a.ranges)
        (first_fit-Sound a.end rounded (max align page_size) a.base cursor a.ranges v q.aligned)
        (rw (k, alloc_kernel_virtual)
          (ap
            (λ rs.
              finish (record a { ranges = rs }) rounded owner
                (first_fit rounded (max align page_size) cursor rs))
            sorted))
]

-- From a window in order, `alloc_kernel_virtual` leaves one, whatever it is asked: the ranges are
-- sorted, not empty, inside the window, and no two of them overlap.
pub alloc-Inv :
    (a : Allocator) (size align : ℕ) (owner : String)
    → Inv a
    → Inv (alloc_kernel_virtual a size align owner).1
alloc-Inv a size align owner v = elim (alloc_cases a size align owner v) [
  | refused e k ↦ rw k v
  | granted rounded at _ (p, q, _) f e k ↦
      rw k (take_range-Inv a rounded owner v (omega arith) at f.after f.clear e)
]

-- The address that `alloc_kernel_virtual` returns from a window in order is a multiple of the
-- alignment (at least a page), lies in the window with `size` bytes behind it, and those bytes
-- belong to no range handed out before.
pub alloc-Fits :
    (a : Allocator) (size align : ℕ) (owner : String) (at : ℕ)
    → Inv a
    → (alloc_kernel_virtual a size align owner).0 ≡ ok at
    → Fits a.end size (max align page_size) a.base a.ranges at × (at + size ≤ a.end)
alloc-Fits a size align owner at v h = elim (alloc_cases a size align owner v) [
  | refused e k ↦ absurd (ground (arith, ap (λ r. r.0) k, h))
  | granted rounded at' _ (p, q, _) f e k ↦
      let same : at' ≡ at = ground (arith, ap (λ r. r.0) k, h) in
      subst (λ x. Fits a.end size (max align page_size) a.base a.ranges x × (x + size ≤ a.end)) same
        (
          record {
            after = f.after;
            aligned = f.aligned;
            clear = Clear-shrink at' (at' + size) (at' + rounded) a.ranges (omega arith) f.clear;
          },
          omega arith,
        )
]

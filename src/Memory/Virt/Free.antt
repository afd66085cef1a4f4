-- ===== src/Memory/Virt/Free.antt =====
-- `free_kernel_virtual` after `alloc_kernel_virtual`.
use felix.Prelude.{
  ℕ, ◌+◌, ◌%◌, ◌^◌, ◌<◌, ◌≡◌, ap, subst, ◌∙◌, inl, inr, ◌&&◌, Option, none, some, List, [], ◌∷◌,
  ◌==◌, if◌then◌else◌, arith, Bool-cases, Option-cases, remove_at,
}
use mathlib.Core.Option
use Prim.Native.String.{String}
use felix.Memory.Order
use felix.Memory.Order.{insert, sort}
use felix.Memory.Defs.{Result-cases, ok, err, align_up, page_size, not_found}
use felix.Memory.Virt.{
  VirtualRange, Allocator, start_of, size_of, take_range, alloc_kernel_virtual, position,
  free_kernel_virtual,
}
use felix.Memory.Virt.FirstFit.{Chain}
use felix.Memory.Virt.Inv.{Inv, refused, granted, alloc_cases, new_range, ranges-take_range}

-- The list without the first range that matches, if one does.
removed : ℕ → ℕ → List VirtualRange → Option (List VirtualRange)
removed start size rs = Option.map (remove_at rs) (position start size rs)

removed_step :
    (start size : ℕ) (x : VirtualRange) (xs : List VirtualRange)
    → removed start size (x ∷ xs) ≡ (
        if (x.start == start) && (x.size == size)
        then some xs
        else Option.map (λ ys. x ∷ ys) (removed start size xs))
unfolding removed position
removed_step start size x xs = ground arith

free_eq :
    (a : Allocator) (start size rounded : ℕ)
    → align_up 64 size page_size ≡ ok rounded
    → free_kernel_virtual a start size ≡ elim (removed start (rounded % 2 ^ 32) a.ranges) [
      | none ↦ (err not_found, a)
      | some rs ↦ (ok tt, record a { ranges = rs })
    ]
unfolding free_kernel_virtual removed
free_eq a start size rounded h = ground (arith, h)

removed-Chain :
    (hi lo start size : ℕ) (rs ys : List VirtualRange)
    → Chain hi lo rs
    → removed start size rs ≡ some ys
    → Chain hi lo ys
removed-Chain hi lo start size [] ys c h = unfold removed position in cc
removed-Chain hi lo start size (x ∷ xs) ys c h =
    elim (Bool-cases ((x.start == start) && (x.size == size))) [
      | inl hit ↦
          let same : xs ≡ ys = ground (arith, removed_step start size x xs, h, hit) in
          subst (Chain hi lo) same
            (Order.Chain-mono start_of size_of hi lo (x.start + x.size) xs (omega arith) c.3)
      | inr miss ↦ elim (Option-cases (removed start size xs)) [
        | inl gone ↦ absurd (ground (arith, removed_step start size x xs, h, miss, gone))
        | inr (zs, e) ↦
            let same : x ∷ zs ≡ ys = ground (arith, removed_step start size x xs, h, miss, e) in
            subst (Chain hi lo) same (
              let tail : Chain hi lo (x ∷ zs) =
                (c.0, c.1, c.2, removed-Chain hi (x.start + x.size) start size xs zs c.3 e) in
              tail)
      ]
    ]

removed-insert :
    (hi lo : ℕ) (r : VirtualRange) (rs : List VirtualRange)
    → Chain hi lo rs
    → 0 < r.size
    → Order.Clear start_of size_of r.start (r.start + r.size) rs
    → removed r.start r.size (insert start_of r rs) ≡ some rs
unfolding insert
removed-insert hi lo r [] c p f = ground (arith, removed_step r.start r.size r [])
removed-insert hi lo r (x ∷ xs) c p f = ground (
  arith,
  removed_step r.start r.size r (x ∷ xs),
  removed_step r.start r.size x (insert start_of r xs),
  removed-insert hi (x.start + x.size) r xs c.3 p,
)

-- From a window in order, `free_kernel_virtual` leaves one, whatever it is asked.
pub free-Inv : (a : Allocator) (start size : ℕ) → Inv a → Inv (free_kernel_virtual a start size).1
free-Inv a start size v = elim (Result-cases (align_up 64 size page_size)) [
  | inr (e, k) ↦ unfold free_kernel_virtual in rw (k, free_kernel_virtual) v
  | inl (rounded, k) ↦ elim (Option-cases (removed start (rounded % 2 ^ 32) a.ranges)) [
    | inl gone ↦ rw (free_eq a start size rounded k) (rw gone v)
    | inr (rs, e) ↦
        rw (free_eq a start size rounded k)
          (rw e (removed-Chain a.end a.base start (rounded % 2 ^ 32) a.ranges rs v e))
  ]
]

-- In a window in order, freeing what was just allocated, with the size it was asked with, succeeds
-- and leaves the window as it was.
pub free-alloc :
    (a : Allocator) (size align : ℕ) (owner : String) (at : ℕ)
    → Inv a
    → (alloc_kernel_virtual a size align owner).0 ≡ ok at
    → free_kernel_virtual (alloc_kernel_virtual a size align owner).1 at size ≡ (ok tt, a)
free-alloc a size align owner at v h = elim (alloc_cases a size align owner v) [
  | refused e k ↦ absurd (ground (arith, ap (λ r. r.0) k, h))
  | granted rounded at' round (p, q, small) f e k ↦
      let same : at' ≡ at = ground (arith, ap (λ r. r.0) k, h) in
      let whole : rounded % 2 ^ 32 ≡ rounded = omega arith in
      let rs = ranges-take_range a rounded owner v (omega arith) at' f.clear e in
      let gone =
        removed-insert a.end a.base (new_range at' rounded owner) a.ranges v (omega arith)
          f.clear in
      rw (k, ← same)
        (free_eq (take_range a at' rounded owner) at' size rounded round ∙ rw (whole, rs, gone))
]

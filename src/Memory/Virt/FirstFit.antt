-- ===== src/Memory/Virt/FirstFit.antt =====
-- The loop of `alloc_kernel_virtual`: the place where it stops.
use felix.Prelude.{
  ℕ, ◌+◌, ◌%◌, ◌^◌, ◌≤◌, ◌<◌, ◌≡◌, inl, inr, List, [], ◌∷◌, ltb, leb, arith, Bool-cases,
}
use felix.Memory.Order
use felix.Memory.Defs.{
  ResourceError, overflow, Result, Result-cases, ok, err, align_up, align_up-AlignedUp,
}
use felix.Memory.Virt.{VirtualRange, start_of, size_of, Place, gap, past, first_fit}

abbrev pub Chain : ℕ → ℕ → List VirtualRange → Type 0
Chain = Order.Chain start_of size_of

-- The candidate stands at or after `from`, on the alignment, and meets no range of the list; in a
-- gap it ends by `hi` too.
pub record Fits (hi size align from : ℕ) (rs : List VirtualRange) (at : ℕ) : Type 0 where
  pub after : from ≤ at
  pub aligned : at % align ≡ 0
  pub clear : Order.Clear start_of size_of at (at + size) rs

abbrev pub Sound : ℕ → ℕ → ℕ → ℕ → List VirtualRange → Result Place → Type 0
Sound hi size align from rs (err e) = Unit {0}
Sound hi size align from rs (ok (gap at)) = Fits hi size align from rs at × (at + size ≤ hi)
Sound hi size align from rs (ok (past at)) = Fits hi size align from rs at

Clear-before :
    (hi lo from to : ℕ) (rs : List VirtualRange)
    → Chain hi lo rs
    → to ≤ lo
    → Order.Clear start_of size_of from to rs
Clear-before hi lo from to [] c h = tt
Clear-before hi lo from to (r ∷ rs) c h =
    (inr (omega arith), Clear-before hi (r.start + r.size) from to rs c.3 (omega arith))

-- One round of the loop.
data Round (size align cursor : ℕ) (r : VirtualRange) (rs : List VirtualRange) : Type 0 where
  fails :
      (e : ResourceError)
      → first_fit size align cursor (r ∷ rs) ≡ err e
      → Round size align cursor r rs
  stops :
      cursor + size ≤ r.start
      → first_fit size align cursor (r ∷ rs) ≡ ok (gap cursor)
      → Round size align cursor r rs
  moves :
      (next : ℕ)
      → (r.start + r.size ≤ next) × (cursor ≤ next) × (next % align ≡ 0)
      → first_fit size align cursor (r ∷ rs) ≡ first_fit size align next rs
      → Round size align cursor r rs

module _ (size align cursor : ℕ) (r : VirtualRange) (rs : List VirtualRange) where
  Round-realign :
      cursor % align ≡ 0
      → cursor + size < 2 ^ 32
      → r.start < cursor + size
      → r.start + r.size < 2 ^ 32
      → cursor < r.start + r.size
      → Round size align cursor r rs
  unfolding first_fit
  Round-realign m f n e b = elim (Result-cases (align_up 32 (r.start + r.size) align)) [
    | inl (next, k) ↦
        let up = align_up-AlignedUp 32 (r.start + r.size) align next k in
        moves next (up.at_least, omega (arith, up.at_least), up.multiple) (ground (arith, k))
    | inr (e', k) ↦ fails e' (ground (arith, k))
  ]

  round : cursor % align ≡ 0 → Round size align cursor r rs
  unfolding first_fit
  round m = elim (Bool-cases (ltb (cursor + size) (2 ^ 32))) [
    | inr over ↦ fails overflow (ground arith)
    | inl f ↦ elim (Bool-cases (leb (cursor + size) r.start)) [
      | inl room ↦ stops (ground arith) (ground arith)
      | inr none_here ↦ elim (Bool-cases (ltb (r.start + r.size) (2 ^ 32))) [
        | inr over ↦ fails overflow (ground arith)
        | inl e ↦ elim (Bool-cases (ltb cursor (r.start + r.size))) [
          | inl before ↦ Round-realign m (ground arith) (ground arith) (ground arith) (ground arith)
          | inr beyond ↦ moves cursor (ground arith, omega arith, m) (ground arith)
        ]
      ]
    ]
  ]

Sound-skip :
    (hi size align cursor next : ℕ) (r : VirtualRange) (rs : List VirtualRange) (p : Result Place)
    → (r.start + r.size ≤ next)
    → (cursor ≤ next)
    → Sound hi size align next rs p
    → Sound hi size align cursor (r ∷ rs) p
Sound-skip hi size align cursor next r rs (err e) h k s = tt
Sound-skip hi size align cursor next r rs (ok (gap at)) h k s = (
  record { after = omega arith; aligned = s.0.aligned; clear = (inl (omega arith), s.0.clear) },
  s.1,
)
Sound-skip hi size align cursor next r rs (ok (past at)) h k s = record {
  after = omega arith;
  aligned = s.aligned;
  clear = (inl (omega arith), s.clear);
}

-- Over a chain that ends by `hi`, wherever the loop stops the candidate is aligned, at or after the
-- first cursor, and meets no range; a candidate in a gap ends by `hi`.
pub first_fit-Sound :
    (hi size align lo cursor : ℕ) (rs : List VirtualRange)
    → Chain hi lo rs
    → cursor % align ≡ 0
    → Sound hi size align cursor rs (first_fit size align cursor rs)
first_fit-Sound hi size align lo cursor [] c m =
    unfold first_fit in record { after = omega arith; aligned = m; clear = tt }
first_fit-Sound hi size align lo cursor (r ∷ rs) c m = elim (round size align cursor r rs m) [
  | fails e k ↦ rw k tt
  | stops room k ↦ rw k (
    record {
      after = omega arith;
      aligned = m;
      clear =
          Clear-before hi r.start cursor (cursor + size) (r ∷ rs) (omega arith, c.1, c.2, c.3) room;
    },
    omega arith,
  )
  | moves next (h, k', m') k ↦ rw k (
      Sound-skip hi size align cursor next r rs _ h k'
        (first_fit-Sound hi size align (r.start + r.size) next rs c.3 m'))
]

-- ===== src/Memory/Phys/Order.antt =====
-- The order of the table of physical ranges.
use felix.Prelude.{ℕ, ◌+◌, ◌-◌, ◌^◌, ◌≤◌, ◌<◌, ◌≡◌, false, [], ◌∷◌, ◌++◌, arith}
use felix.Memory.Defs.{PhysRange}
use felix.Memory.Order
use felix.Memory.Order.{insert, sort}
use felix.Memory.Phys.{Ranges, start_of, size_of, any_meets}

-- From `lo` on, the ranges stand in order, are not empty, do not overlap, and end inside u64.
abbrev pub Chain : ℕ → Ranges → Type 0
Chain = Order.Chain start_of size_of (2 ^ 64 - 1)

-- No range of the list meets `[start, end)`, as the code tests it.
abbrev pub Clear : ℕ → ℕ → Ranges → Type 0
Clear start end rs = any_meets start end rs ≡ false

-- On a chain no end saturates, so the test is the one that it means to be.
Clear-apart :
    (start end lo : ℕ) (rs : Ranges)
    → Chain lo rs
    → Clear start end rs
    → Order.Clear start_of size_of start end rs
unfolding any_meets
Clear-apart start end lo [] c f = tt
Clear-apart start end lo (x ∷ xs) c f =
    (ground arith, Clear-apart start end (x.start + x.size) xs c.3 (ground arith))

module _ (r : PhysRange) (some_size : 0 < r.size) (fits : r.start + r.size < 2 ^ 64) where
  pub insert-Chain :
      (lo : ℕ) (rs : Ranges)
      → Chain lo rs
      → lo ≤ r.start
      → Clear r.start (r.start + r.size) rs
      → Chain lo (insert start_of r rs)
  insert-Chain lo rs c h f =
      Order.insert-Chain start_of size_of (2 ^ 64 - 1) r some_size (omega arith) lo rs c h
        (Clear-apart r.start (r.start + r.size) lo rs c f)

  pub sort_snoc :
      (lo : ℕ) (rs : Ranges)
      → Chain lo rs
      → Clear r.start (r.start + r.size) rs
      → sort start_of (rs ++ r ∷ []) ≡ insert start_of r rs
  sort_snoc lo rs c f =
      Order.sort_snoc start_of size_of (2 ^ 64 - 1) r some_size (omega arith) lo rs c
        (Clear-apart r.start (r.start + r.size) lo rs c f)

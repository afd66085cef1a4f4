-- ===== src/Memory/Refcounts/Tests.antt =====
-- Two pages, the first used twice.
use felix.Prelude.{◌==◌, ◌+◌, ◌-◌, refl, arith, [], ◌∷◌, if◌then◌else◌, total}
use felix.Memory.Refcounts.{Counts, inc, dec}
use felix.Memory.Refcounts.Counts.{Inv, Leaves, uses, inc-Leaves, dec-Leaves}

abbrev two_pages : Counts
two_pages = (4096, 2) ∷ (8192, 1) ∷ []

two_pages-Inv : Inv two_pages
unfolding total
two_pages-Inv = record { used = refl; single = λ addr. ground arith }

inc-Leaves_example :
    Leaves
      (inc two_pages 8192)
      (uses two_pages 8192 == 0)
      (λ b. uses two_pages b + (if 8192 == b then 1 else 0))
unfolding total
inc-Leaves_example = inc-Leaves two_pages 8192 two_pages-Inv (omega arith)

dec-Leaves_example :
    Leaves
      (dec two_pages 8192)
      (uses two_pages 8192 == 1)
      (λ b. uses two_pages b - (if 8192 == b then 1 else 0))
dec-Leaves_example = dec-Leaves two_pages 8192 two_pages-Inv

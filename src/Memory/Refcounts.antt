-- ===== src/Memory/Refcounts.antt =====
-- kernel/src/multitasking/task.rs, `PageRefcounts`: how many allocations of a task use each page.
pub mod Counts
mod Tests
use felix.Prelude.{
  ℕ, zero, suc, ◌+◌, ◌-◌, ◌^◌, Bool, true, false, Option, none, some, List, [], ◌∷◌, ◌++◌, ltb,
  ◌==◌, if◌then◌else◌, set, swap_remove,
}

-- `entries`: an address of a page and its count.
abbrev pub Counts : Type 0
Counts = List (ℕ × ℕ)

-- The first entry of an address, with its index.
pub find_entry : ℕ → Counts → Option (ℕ × ℕ × ℕ)
find_entry addr [] = none
find_entry addr ((a, n) ∷ es) =
    let rest = find_entry addr es in
    if a == addr
    then some (0, a, n)
    else elim rest [ none ↦ none | some (i, b, m) ↦ some (suc i, b, m) ]

-- `none` is the panic of a count that overflows its `u32`; the answer says whether the page is new.
pub inc_found : Counts → ℕ → Option (ℕ × ℕ × ℕ) → Option (Bool × Counts)
inc_found es addr none = some (true, es ++ (addr, 1) ∷ [])
inc_found es addr (some (i, a, n)) =
    if ltb (n + 1) (2 ^ 32) then some (false, set es i (a, n + 1)) else none

pub inc : Counts → ℕ → Option (Bool × Counts)
inc es addr = inc_found es addr (find_entry addr es)

-- `none` is the panic of an underflow; the answer says whether the page is used no more.
pub dec_found : Counts → Option (ℕ × ℕ × ℕ) → Option (Bool × Counts)
dec_found es none = some (false, es)
dec_found es (some (i, a, n)) =
    if n == 0
    then none
    else if n - 1 == 0
    then some (true, swap_remove (set es i (a, n - 1)) i)
    else some (false, set es i (a, n - 1))

pub dec : Counts → ℕ → Option (Bool × Counts)
dec es addr = dec_found es (find_entry addr es)

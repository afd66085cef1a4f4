-- ===== src/Memory/Refcounts/Counts.antt =====
-- The counts of the pages and the multiset of page uses.
use felix.Prelude.{
  ℕ, zero, suc, ◌+◌, ◌-◌, ◌≤◌, ◌<◌, ◌≡◌, ◌^◌, refl, sym, ap, ◌∙◌, Bool, true, false, Option, none,
  some, [], ◌∷◌, ◌++◌, ltb, ◌==◌, if◌then◌else◌, set, swap_remove, total, total-cons, total-append,
  total-single, Holds, here, there, total-Holds, total-set, total-swap_remove, arith, subst, ==_iff,
  Bool-cases, inl, inr,
}
use felix.Memory.Refcounts.{Counts, find_entry, inc_found, inc, dec_found, dec}

abbrev pub held : ℕ → ℕ × ℕ → ℕ
held addr e = if e.0 == addr then e.1 else 0

abbrev pub entries_of : ℕ → ℕ × ℕ → ℕ
entries_of addr e = if e.0 == addr then 1 else 0

abbrev pub idle : ℕ × ℕ → ℕ
idle e = if e.1 == 0 then 1 else 0

-- The uses of a page.
abbrev pub uses : Counts → ℕ → ℕ
uses es addr = total (held addr) es

-- Each page in use has one entry.
pub record Inv (es : Counts) : Type 0 where
  pub used : total idle es ≡ 0
  pub single : (addr : ℕ) → total (entries_of addr) es ≤ 1

data Find (addr : ℕ) (es : Counts) : Option (ℕ × ℕ × ℕ) → Type 0 where
  absent : total (entries_of addr) es ≡ 0 → Find addr es none
  found : (k a n : ℕ) → Holds es k (a, n) → (a == addr) ≡ true → Find addr es (some (k, a, n))

find_entry-Find : (addr : ℕ) (es : Counts) → Find addr es (find_entry addr es)
unfolding find_entry
find_entry-Find addr [] = absent (unfold total in refl)
find_entry-Find addr ((a, n) ∷ es) = elim (Bool-cases (a == addr)) [
  | inl h ↦ rw h (found zero a n here h)
  | inr h ↦ rw h (later (find_entry addr es) (find_entry-Find addr es) h)
]
  where
    later :
        (r : Option (ℕ × ℕ × ℕ))
        → Find addr es r
        → (a == addr) ≡ false
        → Find addr ((a, n) ∷ es) (elim r [ none ↦ none | some (i, b, m) ↦ some (suc i, b, m) ])
    later _ (absent z) h = absent (ground (arith, total-cons (entries_of addr) (a, n) es, h, z))
    later _ (found k b m at e) h = found (suc k) b m (there at) e

held-absent : (addr : ℕ) (es : Counts) → total (entries_of addr) es ≡ 0 → uses es addr ≡ 0
unfolding total
held-absent addr [] h = refl
held-absent addr (e ∷ es) h = ground (arith, h, held-absent addr es (ground (arith, h)))

-- The count of an entry is the number of uses.
held-found :
    (es : Counts) (addr k a n : ℕ)
    → Inv es
    → Holds es k (a, n)
    → (a == addr) ≡ true
    → (uses es addr ≡ n) × (0 < n)
held-found es addr k a n v at h =
    let gone : total (entries_of addr) (swap_remove es k) ≡ 0 =
      ground (arith, h, v.single addr, total-swap_remove (entries_of addr) es k (a, n) at) in
    let rest = held-absent addr (swap_remove es k) gone in
    (
      ground (arith, h, rest, total-swap_remove (held addr) es k (a, n) at),
      ground (arith, v.used, total-Holds idle es k (a, n) at),
    )

Holds-set : (es : Counts) (k : ℕ) (p q : ℕ × ℕ) → Holds es k p → Holds (set es k q) k q
Holds-set [] k p q h = elim h [ ]
Holds-set (e ∷ es) zero p q here = here
Holds-set (e ∷ es) (suc k) p q (there h) = there (Holds-set es k p q h)

-- A call succeeds with an answer, keeps the invariant, and leaves each page these uses.
abbrev pub Leaves : Option (Bool × Counts) → Bool → (ℕ → ℕ) → Type 0
Leaves r answer after =
    (es : Counts) × (r ≡ some (answer, es)) × Inv es × ((addr : ℕ) → uses es addr ≡ after addr)

-- `inc` adds one use of the page and none of another, and answers whether it was the first; it does
-- not panic below the greatest count.
pub inc-Leaves :
    (es : Counts) (addr : ℕ)
    → Inv es
    → uses es addr < 2 ^ 32 - 1
    → Leaves (inc es addr) (uses es addr == 0) (λ b. uses es b + (if addr == b then 1 else 0))
unfolding inc inc_found
inc-Leaves es addr v h = by_entry (find_entry addr es) (find_entry-Find addr es)
  where
    by_entry :
        (r : Option (ℕ × ℕ × ℕ))
        → Find addr es r
        → Leaves
            (inc_found es addr r)
            (uses es addr == 0)
            (λ b. uses es b + (if addr == b then 1 else 0))
    by_entry _ (absent z) =
        let first : (uses es addr == 0) ≡ true = (==_iff _ _).1 (held-absent addr es z) in
        (
          es ++ (addr, 1) ∷ [],
          ap (λ b. some (b, es ++ (addr, 1) ∷ [])) (sym first),
          record {
            used = omega (arith, v.used, pushed idle);
            single = λ b. elim (Bool-cases (addr == b)) [
              | inl k ↦ ground (
                arith,
                k,
                pushed (entries_of b),
                subst (λ c. total (entries_of c) es ≡ 0) ((==_iff addr b).0 k) z,
              )
              | inr k ↦ ground (arith, k, pushed (entries_of b), v.single b)
            ];
          },
          λ b. omega (arith, pushed (held b)),
        )
      where
        pushed : (w : ℕ × ℕ → ℕ) → total w (es ++ (addr, 1) ∷ []) ≡ total w es + w (addr, 1)
        pushed w = omega (arith, total-append w es ((addr, 1) ∷ []), total-single w (addr, 1))
    by_entry _ (found k a n at e) =
        let (count, pos) = held-found es addr k a n v at e in
        let more : (uses es addr == 0) ≡ false = ground arith in
        let fits : ltb (n + 1) (2 ^ 32) ≡ true = ground arith in
        (
          set es k (a, n + 1),
          ap (λ b. if b then some (false, set es k (a, n + 1)) else none) fits
              ∙ ap (λ b. some (b, set es k (a, n + 1))) (sym more),
          record {
            used = ground (arith, v.used, total-set idle es k (a, n) (a, n + 1) at);
            single =
                λ b. ground (arith, v.single b, total-set (entries_of b) es k (a, n) (a, n + 1) at);
          },
          λ b. ground (arith, e, total-set (held b) es k (a, n) (a, n + 1) at),
        )

-- `dec` takes one use of the page away, if there is one, and none of another; it answers whether it
-- was the last, and never panics.
pub dec-Leaves :
    (es : Counts) (addr : ℕ)
    → Inv es
    → Leaves (dec es addr) (uses es addr == 1) (λ b. uses es b - (if addr == b then 1 else 0))
unfolding dec dec_found
dec-Leaves es addr v = by_entry (find_entry addr es) (find_entry-Find addr es)
  where
    After : Option (Bool × Counts) → Type 0
    After r = Leaves r (uses es addr == 1) (λ b. uses es b - (if addr == b then 1 else 0))

    by_entry : (r : Option (ℕ × ℕ × ℕ)) → Find addr es r → After (dec_found es r)
    by_entry _ (absent z) =
        let none_used = held-absent addr es z in
        let no : (uses es addr == 1) ≡ false = ground (arith, none_used) in
        (
          es,
          ap (λ b. some (b, es)) (sym no),
          v,
          λ b. elim (Bool-cases (addr == b)) [
            | inl k ↦ ground (arith, k, subst (λ c. uses es c ≡ 0) ((==_iff addr b).0 k) none_used)
            | inr k ↦ ground (arith, k)
          ],
        )
    by_entry _ (found k a n at e) =
        let (count, pos) = held-found es addr k a n v at e in
        elim (Bool-cases (n - 1 == 0)) [
          | inl z ↦ last_use k a n at e count pos z
          | inr z ↦
              let p : (n == 0) ≡ false = ground (arith, pos) in
              let more : (uses es addr == 1) ≡ false = ground (arith, count, z, pos) in
              rw p (
                rw z (
                  set es k (a, n - 1),
                  ap (λ b. some (b, set es k (a, n - 1))) (sym more),
                  record {
                    used = ground (arith, v.used, z, total-set idle es k (a, n) (a, n - 1) at);
                    single = λ b.
                        ground
                          (arith, v.single b, total-set (entries_of b) es k (a, n) (a, n - 1) at);
                  },
                  λ b. ground (
                    arith,
                    e,
                    pos,
                    total-set (held b) es k (a, n) (a, n - 1) at,
                    total-Holds (held b) es k (a, n) at,
                  ),
                ))
        ]
      where
        last_use :
            (k a n : ℕ)
            → Holds es k (a, n)
            → (a == addr) ≡ true
            → uses es addr ≡ n
            → 0 < n
            → (n - 1 == 0) ≡ true
            → After (dec_found es (some (k, a, n)))
        last_use k a n at e count pos z =
            let p : (n == 0) ≡ false = ground (arith, pos) in
            let one : (uses es addr == 1) ≡ true = ground (arith, count, z, pos) in
            rw p (
              rw z (
                left,
                ap (λ b. some (b, left)) (sym one),
                record {
                  used = ground (arith, v.used, z, removed idle);
                  single = λ b. ground (arith, v.single b, removed (entries_of b));
                },
                λ b. ground (arith, e, z, pos, removed (held b)),
              ))
          where
            left : Counts
            left = swap_remove (set es k (a, n - 1)) k

            removed : (w : ℕ × ℕ → ℕ) → total w left + w (a, n) ≡ total w es
            removed w = omega (
              arith,
              total-set w es k (a, n) (a, n - 1) at,
              total-swap_remove w (set es k (a, n - 1)) k (a, n - 1)
                  (Holds-set es k (a, n) (a, n - 1) at),
            )

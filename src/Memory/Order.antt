-- ===== src/Memory/Order.antt =====
-- kernel/src/memory/resources.rs, `sort_unstable_by_key(|r| r.start)`: both tables keep their ranges
-- sorted by their first address. Here for any entries with a first address and a size.
use felix.Prelude.{
  ℕ, ◌+◌, ◌≤◌, ◌<◌, ◌≡◌, refl, ap, ◌∙◌, inl, inr, ◌⊎◌, List, [], ◌∷◌, ◌++◌, leb, if◌then◌else◌,
  arith, Bool-cases, length,
}

module _ {A : Type 0} (start : A → ℕ) where
  -- The sort of the standard library, as an insertion sort.
  unfoldable pub insert : A → List A → List A
  insert r [] = r ∷ []
  insert r (x ∷ xs) = if leb (start r) (start x) then r ∷ x ∷ xs else x ∷ insert r xs

  unfoldable pub sort : List A → List A
  sort [] = []
  sort (r ∷ rs) = insert r (sort rs)

  pub length-insert : (r : A) (xs : List A) → length (insert r xs) ≡ length xs + 1
  unfolding insert
  length-insert r [] = omega arith
  length-insert r (x ∷ xs) = ground (arith, length-insert r xs)

module _ {A : Type 0} (start size : A → ℕ) where
  -- From `lo` on, the entries stand in order, are not empty, do not overlap, and end by `hi`.
  abbrev pub Chain : ℕ → ℕ → List A → Type 0
  Chain hi lo [] = Unit {0}
  Chain hi lo (r ∷ rs) =
      (lo ≤ start r) × (0 < size r) × (start r + size r ≤ hi) × Chain hi (start r + size r) rs

  -- No entry shares an address with `[from, to)`.
  abbrev pub Clear : ℕ → ℕ → List A → Type 0
  Clear from to [] = Unit {0}
  Clear from to (r ∷ rs) = ((start r + size r ≤ from) ⊎ (to ≤ start r)) × Clear from to rs

  pub Chain-mono : (hi m n : ℕ) (rs : List A) → m ≤ n → Chain hi n rs → Chain hi m rs
  Chain-mono hi m n [] h c = tt
  Chain-mono hi m n (r ∷ rs) h c = (omega arith, c.1, c.2, c.3)

  pub insert_front :
      (hi : ℕ) (r : A) (lo : ℕ) (rs : List A)
      → Chain hi lo rs
      → start r ≤ lo
      → insert start r rs ≡ r ∷ rs
  unfolding insert
  insert_front hi r lo [] c h = refl
  insert_front hi r lo (x ∷ xs) c h = ground arith

  -- A list in order is sorted.
  pub sort-Chain : (hi lo : ℕ) (rs : List A) → Chain hi lo rs → sort start rs ≡ rs
  unfolding sort
  sort-Chain hi lo [] c = refl
  sort-Chain hi lo (x ∷ xs) c =
      ap (insert start x) (sort-Chain hi (start x + size x) xs c.3)
      ∙ insert_front hi x (start x + size x) xs c.3 (omega arith)

  module _ (hi : ℕ) (r : A) (some_size : 0 < size r) (fits : start r + size r ≤ hi) where
    pub insert-Chain :
        (lo : ℕ) (rs : List A)
        → Chain hi lo rs
        → lo ≤ start r
        → Clear (start r) (start r + size r) rs
        → Chain hi lo (insert start r rs)
    unfolding insert
    insert-Chain lo [] c h f = (h, some_size, fits, tt)
    insert-Chain lo (x ∷ xs) c h f = ground (arith, insert-Chain (start x + size x) xs c.3)

    insert_swap :
        (lo : ℕ) (x : A) (xs : List A)
        → Chain hi lo (x ∷ xs)
        → Clear (start r) (start r + size r) (x ∷ xs)
        → insert start x (insert start r xs) ≡ insert start r (x ∷ xs)
    unfolding insert
    insert_swap lo x xs c f = elim (Bool-cases (leb (start r) (start x))) [
      | inl first ↦ ground (
        arith,
        first,
        insert_front hi r (start x + size x) xs c.3,
        insert_front hi x (start x + size x) xs c.3,
      )
      | inr later ↦ ground (
        arith,
        later,
        insert-Chain (start x + size x) xs c.3,
        insert_front hi x (start x + size x) (insert start r xs),
      )
    ]

    -- Appending an entry and sorting puts it in its place.
    pub sort_snoc :
        (lo : ℕ) (rs : List A)
        → Chain hi lo rs
        → Clear (start r) (start r + size r) rs
        → sort start (rs ++ r ∷ []) ≡ insert start r rs
    unfolding sort insert
    sort_snoc lo [] c f = refl
    sort_snoc lo (x ∷ xs) c f =
        ap (insert start x) (sort_snoc (start x + size x) xs c.3 f.1) ∙ insert_swap lo x xs c f

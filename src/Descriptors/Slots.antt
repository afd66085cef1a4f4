-- ===== src/Descriptors/Slots.antt =====
-- The lowest free descriptor, and what its use gives.
use felix.Prelude.{
  ℕ, zero, suc, ◌+◌, ◌-◌, ◌<◌, ◌≤◌, ◌≡◌, ◌≢◌, refl, sym, ap, ◌∙◌, subst, true, false, Option, none,
  some, List, [], ◌∷◌, ◌++◌, ◌==◌, leb, All, if_intro, get_or, length, is_some, get_or-set_self,
  get_or-set_ne, Bool-cases, inl, inr, arith, ==_iff,
}
use mathlib.Core.Bool.{true≢false}
use felix.Descriptors.Defs.{
  FileDescriptor, FileDescriptorTable, OpenFileDescription, first_none, alloc_fd, free_from,
  alloc_fd_from, get, ofd_of, taken, insert, from_descriptor, no_description, description,
  slots_with, holders_with,
}
use felix.Descriptors.Inv.{Inv}
use felix.Descriptors.Sharing.{behind}

-- The answer is the lowest free slot from `low` on, below `top`, and `none` if all are in use.
abbrev pub Lowest : (ℕ → Option FileDescriptor) → ℕ → ℕ → Option ℕ → Type 0
Lowest slots low top none = (j : ℕ) → low ≤ j → j < top → is_some (slots j) ≡ true
Lowest slots low top (some i) =
    (low ≤ i)
    × (i < top)
    × (slots i ≡ none)
    × ((j : ℕ) → low ≤ j → j < i → is_some (slots j) ≡ true)

-- One more slot in use in front.
Lowest-step :
    (slots : ℕ → Option FileDescriptor) (low top : ℕ) (o : Option ℕ)
    → is_some (slots low) ≡ true
    → Lowest slots (suc low) top o
    → Lowest slots low top o
Lowest-step slots low top none h l = λ j p q. elim (Bool-cases (j == low)) [
  | inl e ↦ subst (λ k. is_some (slots k) ≡ true) (sym ((==_iff j low).0 e)) h
  | inr e ↦ l j (ground (arith, p, e)) q
]
Lowest-step slots low top (some i) h l = (
  omega (arith, l.0),
  l.1,
  l.2,
  λ j p q. elim (Bool-cases (j == low)) [
    | inl e ↦ subst (λ k. is_some (slots k) ≡ true) (sym ((==_iff j low).0 e)) h
    | inr e ↦ l.3 j (ground (arith, p, e)) q
  ],
)

free_from-Lowest :
    (t : FileDescriptorTable) (n low : ℕ) → Lowest (get t) low (low + n) (free_from t n low)
unfolding free_from
free_from-Lowest t zero low = λ j p q. absurd (omega (arith, p, q))
free_from-Lowest t (suc n) low =
    if_intro (Lowest (get t) low (low + suc n)) (is_some (get_or t.fds low none))
      (free_from t n (suc low)) (some low)
      (λ h. Lowest-step (get t) low (low + suc n) _ h (
        subst (λ m. Lowest (get t) (suc low) m (free_from t n (suc low))) (omega arith)
          (free_from-Lowest t n (suc low))))
      (λ h. (
        omega arith,
        omega arith,
        empty (get_or t.fds low none) h,
        λ j p q. absurd (omega (arith, p, q)),
      ))
  where
    empty : (o : Option FileDescriptor) → is_some o ≡ false → o ≡ none
    empty none h = refl
    empty (some d) h = absurd (true≢false h)

first_none-Lowest :
    (slots : ℕ → Option FileDescriptor) (k : ℕ) (os : List (Option FileDescriptor))
    → ((i : ℕ) → slots (k + i) ≡ get_or os i none)
    → Lowest slots k (k + length os) (first_none k os)
unfolding first_none
first_none-Lowest slots k [] e = λ j p q. absurd (omega (arith, p, q))
first_none-Lowest slots k (none ∷ os) e =
    (omega arith, omega arith, ap slots (omega arith) ∙ e 0, λ j p q. absurd (omega (arith, p, q)))
first_none-Lowest slots k (some d ∷ os) e =
    Lowest-step slots k (k + suc (length os)) _ (ap is_some (ap slots (omega arith) ∙ e 0)) (
      subst (λ m. Lowest slots (suc k) m (first_none (suc k) os)) (omega arith)
        (first_none-Lowest slots (suc k) os (λ i. ap slots (omega arith) ∙ e (suc i))))

-- `alloc_fd` and `alloc_fd_from` both answer the lowest free descriptor, the latter from its minimum
-- on, and none just if all of these are in use.
pub alloc-Lowest :
    (t : FileDescriptorTable) (low : ℕ)
    → low ≤ length t.fds
    → Lowest (get t) 0 (length t.fds) (alloc_fd t)
      × Lowest (get t) low (length t.fds) (alloc_fd_from t low)
alloc-Lowest t low h = (
  subst (λ m. Lowest (get t) 0 m (alloc_fd t)) (omega arith)
      (first_none-Lowest (get t) 0 t.fds (λ i. ap (get t) (omega arith))),
  subst (λ m. Lowest (get t) low m (alloc_fd_from t low)) (omega (arith, h))
      (free_from-Lowest t (length t.fds - low) low),
)

-- A fresh description at the end of the store.
get_or-snoc :
    (xs : List OpenFileDescription) (x : OpenFileDescription)
    → get_or (xs ++ x ∷ []) (length xs) no_description ≡ x
get_or-snoc [] x = refl
get_or-snoc (y ∷ xs) x = get_or-snoc xs x

get_or-grow :
    (xs : List OpenFileDescription) (x : OpenFileDescription) (i : ℕ)
    → i < length xs
    → get_or (xs ++ x ∷ []) i no_description ≡ get_or xs i no_description
get_or-grow [] x i h = absurd (omega (arith, h))
get_or-grow (y ∷ xs) x zero h = refl
get_or-grow (y ∷ xs) x (suc i) h = get_or-grow xs x i (omega (arith, h))

fresh-slots_with :
    (os : List (Option ℕ)) (n : ℕ)
    → ((i id : ℕ) → get_or os i none ≡ some id → id < n)
    → slots_with n os ≡ 0
unfolding slots_with
fresh-slots_with [] n known = refl
fresh-slots_with (none ∷ os) n known = omega (arith, fresh-slots_with os n (λ i. known (suc i)))
fresh-slots_with (some id ∷ os) n known =
    ground (arith, known 0 id refl, fresh-slots_with os n (λ i. known (suc i)))

fresh-holders_with : (ids : List ℕ) (n : ℕ) → All (λ id. id < n) ids → holders_with n ids ≡ 0
unfolding holders_with
fresh-holders_with [] n held = refl
fresh-holders_with (id ∷ ids) n held = ground (arith, held.0, fresh-holders_with ids n held.1)

-- The slot has a description that no slot of the table before and no one outside has.
abbrev pub FreshAt : FileDescriptorTable → FileDescriptorTable → ℕ → Type 0
FreshAt t t' fd =
    (id : ℕ) × (ofd_of t' fd ≡ some id)
    × (slots_with id t.ofds ≡ 0)
    × (holders_with id t.outside ≡ 0)
    × (holders_with id t'.outside ≡ 0)

-- In a table with the invariant, a descriptor that is put into the slot that `alloc_fd` answers is
-- there, at its initial offset and cookie, with a description that no other slot and no one outside
-- the table has; and every other slot has the descriptor and the description that it had.
pub insert-alloc_fd :
    (t : FileDescriptorTable) (fd k : ℕ) (d : FileDescriptor)
    → Inv t
    → alloc_fd t ≡ some fd
    → k ≢ fd
    → ((insert t fd d).0 ≡ true)
      × (get (insert t fd d).1 fd ≡ some d)
      × (behind (insert t fd d).1 fd ≡ some (from_descriptor d))
      × FreshAt t (insert t fd d).1 fd
      × (get (insert t fd d).1 k ≡ get t k)
      × (ofd_of (insert t fd d).1 k ≡ ofd_of t k)
      × (behind (insert t fd d).1 k ≡ behind t k)
insert-alloc_fd t fd k d v e n =
    let low = subst (Lowest (get t) 0 (length t.fds)) e (alloc-Lowest t 0 (omega arith)).0 in
    let free : taken t fd ≡ false =
      let below : leb (length t.fds) fd ≡ false = ground (arith, low.1) in
      rw below (ap is_some low.2) in
    rw free (
      refl,
      get_or-set_self t.fds fd (some d) none low.1,
      ap at (
            get_or-set_self t.ofds fd (some (length t.store)) none
              (omega (arith, low.1, v.slots, v.entries)))
          ∙ ap some (get_or-snoc t.store (from_descriptor d)),
      (
        length t.store,
        get_or-set_self t.ofds fd (some (length t.store)) none
            (omega (arith, low.1, v.slots, v.entries)),
        fresh-slots_with t.ofds (length t.store) v.known,
        fresh-holders_with t.outside (length t.store) v.held,
        fresh-holders_with t.outside (length t.store) v.held,
      ),
      get_or-set_ne t.fds fd k (some d) none (λ q. n (sym q)),
      get_or-set_ne t.ofds fd k (some (length t.store)) none (λ q. n (sym q)),
      ap at (get_or-set_ne t.ofds fd k (some (length t.store)) none (λ q. n (sym q)))
          ∙ known (ofd_of t k) refl,
    )
  where
    store : List OpenFileDescription
    store = t.store ++ from_descriptor d ∷ []

    at : Option ℕ → Option OpenFileDescription
    at o = elim o [ none ↦ none | some id ↦ some (get_or store id no_description) ]

    known :
        (o : Option ℕ)
        → ofd_of t k ≡ o
        → at o ≡ (elim o as (λ x. Option OpenFileDescription) [
          | none ↦ none
          | some id ↦ some (description t id)
        ])
    known none q = refl
    known (some id) q = ap some (get_or-grow t.store (from_descriptor d) id (v.known k id q))

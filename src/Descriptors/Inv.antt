-- ===== src/Descriptors/Inv.antt =====
-- The invariant of the descriptor table, and its operations.
use felix.Prelude.{
  ℕ, zero, suc, ◌<◌, ◌≤◌, ◌≡◌, refl, sym, ap, ◌∙◌, subst, Bool, true, false, ◌||◌, Option, none,
  some, List, [], ◌∷◌, ◌++◌, ◌==◌, leb, if◌then◌else◌, if_intro, set, get_or, length, is_some,
  get_or-set_self, get_or-set_ne, length-set, length-append, Bool-cases, inl, inr, arith, ==_iff,
  All,
}
use mathlib.Core.Bool.{true≢false}
use mathlib.Core.Option.{some-injective, none-ne-some}
use felix.Descriptors.Defs.{
  FileDescriptor, OpenFileDescription, FileDescriptorTable, max_fds, ofd_of, description, change,
  clone_entry, put, put_new, taken, insert, remove_one, insert_shared, set_fd, set_shared, close_at,
  close, take_from, take_all, share, dup2, get, from_descriptor, holders_with,
}

pub record Inv (t : FileDescriptorTable) : Type 0 where
  pub slots : length t.fds ≡ max_fds
  pub entries : length t.ofds ≡ max_fds
  pub paired : (i : ℕ) → is_some (get_or t.fds i none) ≡ is_some (get_or t.ofds i none)
  pub known : (i id : ℕ) → get_or t.ofds i none ≡ some id → id < length t.store
  pub held : All (λ id. id < length t.store) t.outside

-- What a slot holds after a write into it or another one.
pub get_or-write :
    {A : Type 0} (xs : List (Option A)) (i j : ℕ) (o : Option A)
    → i < length xs
    → get_or (set xs i o) j none ≡ (if j == i then o else get_or xs j none)
get_or-write xs i j o h = elim (Bool-cases (j == i)) [
  | inl e ↦
      rw e (ap (λ k. get_or (set xs i o) k none) ((==_iff j i).0 e) ∙ get_or-set_self xs i o none h)
  | inr e ↦ rw e (get_or-set_ne xs i j o none (λ q. true≢false (sym ((==_iff j i).1 (sym q)) ∙ e)))
]

pub get_or-range :
    {A : Type 0} (xs : List (Option A)) (i : ℕ) (a : A) → get_or xs i none ≡ some a → i < length xs
get_or-range [] i a e = absurd (none-ne-some a e)
get_or-range (x ∷ xs) zero a e = omega arith
get_or-range (x ∷ xs) (suc i) a e = omega (arith, get_or-range xs i a e)

-- A write of a paired entry, or of none, into both lists.
write-Inv :
    (t : FileDescriptorTable) (fd : ℕ) (d : Option FileDescriptor) (o : Option ℕ)
    → fd < max_fds
    → is_some d ≡ is_some o
    → ((id : ℕ) → o ≡ some id → id < length t.store)
    → Inv t
    → Inv (record t { fds = set t.fds fd d; ofds = set t.ofds fd o })
write-Inv t fd d o low same range v = record {
  slots = length-set t.fds fd d ∙ v.slots;
  entries = length-set t.ofds fd o ∙ v.entries;
  paired = λ i.
      ap is_some (get_or-write t.fds fd i d (omega (arith, v.slots)))
      ∙ both i (i == fd)
      ∙ sym (ap is_some (get_or-write t.ofds fd i o (omega (arith, v.entries))));
  known =
      λ i id e. at i id (i == fd) (sym (get_or-write t.ofds fd i o (omega (arith, v.entries))) ∙ e);
  held = v.held;
}
  where
    both :
        (i : ℕ) (b : Bool)
        → is_some (if b then d else get_or t.fds i none)
          ≡ is_some (if b then o else get_or t.ofds i none)
    both i true = same
    both i false = v.paired i

    at :
        (i id : ℕ) (b : Bool)
        → (if b then o else get_or t.ofds i none) ≡ some id
        → id < length t.store
    at i id true e = range id e
    at i id false e = v.known i id e

All-weaken : (m n : ℕ) (xs : List ℕ) → m ≤ n → All (λ id. id < m) xs → All (λ id. id < n) xs
All-weaken m n [] h p = tt
All-weaken m n (x ∷ xs) h p = (omega (arith, p.0), All-weaken m n xs h p.1)

All-remove_one :
    (m id : ℕ) (xs : List ℕ) → All (λ id. id < m) xs → All (λ id. id < m) (remove_one id xs)
All-remove_one m id [] p = tt
All-remove_one m id (x ∷ xs) p =
    if_intro (All (λ id. id < m)) (x == id) xs (x ∷ remove_one id xs) (λ h. p.1)
      (λ h. (p.0, All-remove_one m id xs p.1))

grow-Inv :
    (t : FileDescriptorTable) (o : OpenFileDescription)
    → Inv t
    → Inv (record t { store = t.store ++ o ∷ [] })
grow-Inv t o v =
    let more : length t.store ≤ length (t.store ++ o ∷ []) =
      omega (arith, length-append t.store (o ∷ [])) in
    record {
      slots = v.slots;
      entries = v.entries;
      paired = v.paired;
      known = λ i id e. let was = v.known i id e in omega (arith, was, more);
      held = All-weaken _ _ t.outside more v.held;
    }

put_new-Inv :
    (t : FileDescriptorTable) (fd : ℕ) (d : FileDescriptor)
    → fd < max_fds
    → Inv t
    → Inv (put_new t fd d)
put_new-Inv t fd d low v =
    write-Inv (record t { store = t.store ++ from_descriptor d ∷ [] }) fd (some d)
      (some (length t.store)) low refl
      (λ id e.
        let same = some-injective (length t.store) id e in
        omega (arith, same, length-append t.store (from_descriptor d ∷ [])))
      (grow-Inv t (from_descriptor d) v)

move-Inv :
    (t : FileDescriptorTable) (id : ℕ)
    → Inv t
    → Inv (record t { outside = remove_one id t.outside })
move-Inv t id v = record {
  slots = v.slots;
  entries = v.entries;
  paired = v.paired;
  known = v.known;
  held = All-remove_one (length t.store) id t.outside v.held;
}

change-Inv :
    (t : FileDescriptorTable) (fd : ℕ) (f : OpenFileDescription → OpenFileDescription)
    → Inv t
    → Inv (change t fd f).1
change-Inv t fd f v = by_entry (ofd_of t fd)
  where
    by_entry :
        (o : Option ℕ)
        → Inv
            (elim o as (λ x. Bool × FileDescriptorTable) [
              | none ↦ (false, t)
              | some id ↦ (true, record t { store = set t.store id (f (description t id)) })
            ]).1
    by_entry none = v
    by_entry (some id) =
        let same : length (set t.store id (f (description t id))) ≡ length t.store =
          length-set t.store id _ in
        record {
          slots = v.slots;
          entries = v.entries;
          paired = v.paired;
          known = λ i j e. let was = v.known i j e in omega (arith, was, same);
          held = All-weaken _ _ t.outside (omega (arith, same)) v.held;
        }

close-Inv : (t : FileDescriptorTable) (fd : ℕ) → Inv t → Inv (close t fd).1
close-Inv t fd v = by_slot (get t fd) refl
  where
    by_slot : (d : Option FileDescriptor) → get t fd ≡ d → Inv (close_at t fd d).1
    by_slot none e = v
    by_slot (some d) e =
        write-Inv t fd none none (omega (arith, v.slots, get_or-range t.fds fd d e)) refl
          (λ id q. absurd (none-ne-some id q)) v

take_from-Inv : (n fd : ℕ) (t : FileDescriptorTable) → Inv t → Inv (take_from n fd t).1
unfolding take_from
take_from-Inv zero fd t v = v
take_from-Inv (suc n) fd t v = take_from-Inv n (suc fd) (close t fd).1 (close-Inv t fd v)

holders-known : (m id : ℕ) (xs : List ℕ) → 0 < holders_with id xs → All (λ id. id < m) xs → id < m
unfolding holders_with
holders-known m id [] h p = absurd (omega (arith, h))
holders-known m id (x ∷ xs) h p = elim (Bool-cases (x == id)) [
  | inl e ↦ subst (λ k. k < m) ((==_iff x id).0 e) p.0
  | inr e ↦ holders-known m id xs (ground (arith, h, e)) p.1
]

put-Inv :
    (t : FileDescriptorTable) (fd : ℕ) (d : FileDescriptor) (id : ℕ)
    → fd < max_fds
    → id < length t.store
    → Inv t
    → Inv (put t fd d id)
put-Inv t fd d id low known v =
    write-Inv t fd (some d) (some id) low refl
      (λ k e. subst (λ k. k < length t.store) (some-injective id k e) known) v

untaken-range : (n fd : ℕ) (b : Bool) → n ≡ max_fds → (leb n fd || b) ≡ false → fd < max_fds
untaken-range n fd b l h = ground arith

insert-Inv : (t : FileDescriptorTable) (fd : ℕ) (d : FileDescriptor) → Inv t → Inv (insert t fd d).1
insert-Inv t fd d v =
    if_intro (λ (r : Bool × FileDescriptorTable). Inv r.1) (taken t fd) (false, t)
      (true, put_new t fd d) (λ h. v)
      (λ h.
        put_new-Inv t fd d
          (untaken-range (length t.fds) fd (is_some (get_or t.fds fd none)) v.slots h) v)

pub dup2-Inv : (t : FileDescriptorTable) (old new : ℕ) → Inv t → Inv (dup2 t old new).1
dup2-Inv t old new v =
    if_intro (λ (r : Bool × FileDescriptorTable). Inv r.1)
      (leb (length t.fds) old || leb (length t.fds) new) (false, t)
      (share t old new (get t old) (ofd_of t old)) (λ h. v)
      (λ h. shared (ground (arith, h, v.slots)) (get t old) (ofd_of t old) refl)
  where
    shared :
        new < max_fds
        → (d : Option FileDescriptor) (o : Option ℕ) → ofd_of t old ≡ o
        → Inv (share t old new d o).1
    shared low none o e = v
    shared low (some d) none e = v
    shared low (some d) (some id) e =
        if_intro Inv (old == new) t (put t new d id) (λ h. v)
          (λ h. put-Inv t new d id low (v.known old id e) v)

-- A step of a process on its table. A shared description comes from a clone held outside.
pub data Step (t : FileDescriptorTable) : FileDescriptorTable → Type 0 where
  inserted : (fd : ℕ) (d : FileDescriptor) → Step t (insert t fd d).1
  inserted_shared :
      (fd : ℕ) (d : FileDescriptor) (id : ℕ)
      → 0 < holders_with id t.outside
      → Step t (insert_shared t fd d id).1
  replaced : (fd : ℕ) (d : FileDescriptor) → Step t (set_fd t fd d).1
  replaced_shared :
      (fd : ℕ) (d : FileDescriptor) (id : ℕ)
      → 0 < holders_with id t.outside
      → Step t (set_shared t fd d id).1
  changed : (fd : ℕ) (f : OpenFileDescription → OpenFileDescription) → Step t (change t fd f).1
  cloned : (fd : ℕ) → Step t (clone_entry t fd).1
  duplicated : (old new : ℕ) → Step t (dup2 t old new).1
  closed : (fd : ℕ) → Step t (close t fd).1
  closed_all : Step t (take_all t).1

-- Each step keeps the table's two halves paired, and each slot's and holder's description known: a
-- descriptor never lacks its description, and a free slot has none.
pub Step-Inv : (t u : FileDescriptorTable) → Step t u → Inv t → Inv u
Step-Inv t _ (inserted fd d) v = insert-Inv t fd d v
Step-Inv t _ (inserted_shared fd d id h) v =
    let moved = record t { outside = remove_one id t.outside } in
    if_intro (λ (r : Bool × FileDescriptorTable). Inv r.1) (taken t fd) (false, moved)
      (true, put moved fd d id) (λ k. move-Inv t id v)
      (λ k.
        put-Inv moved fd d id
          (untaken-range (length t.fds) fd (is_some (get_or t.fds fd none)) v.slots k)
          (holders-known (length t.store) id t.outside h v.held) (move-Inv t id v))
Step-Inv t _ (replaced fd d) v =
    if_intro (λ (r : Option FileDescriptor × FileDescriptorTable). Inv r.1) (leb (length t.fds) fd)
      (none, t) (get t fd, put_new t fd d) (λ k. v)
      (λ k. put_new-Inv t fd d (ground (arith, k, v.slots)) v)
Step-Inv t _ (replaced_shared fd d id h) v =
    let moved = record t { outside = remove_one id t.outside } in
    if_intro (λ (r : Option FileDescriptor × FileDescriptorTable). Inv r.1) (leb (length t.fds) fd)
      (none, moved) (get t fd, put moved fd d id) (λ k. move-Inv t id v)
      (λ k.
        put-Inv moved fd d id (ground (arith, k, v.slots))
          (holders-known (length t.store) id t.outside h v.held) (move-Inv t id v))
Step-Inv t _ (changed fd f) v = change-Inv t fd f v
Step-Inv t _ (cloned fd) v = by_slot (get t fd) (ofd_of t fd) refl
  where
    by_slot :
        (d : Option FileDescriptor) (o : Option ℕ)
        → ofd_of t fd ≡ o
        → Inv
            (elim d as (λ x. Option (FileDescriptor × ℕ) × FileDescriptorTable) [
              | none ↦ (none, t)
              | some d ↦ elim o as (λ x. Option (FileDescriptor × ℕ) × FileDescriptorTable) [
                | none ↦ (none, t)
                | some id ↦ (some (d, id), record t { outside = id ∷ t.outside })
              ]
            ]).1
    by_slot none o e = v
    by_slot (some d) none e = v
    by_slot (some d) (some id) e = record {
      slots = v.slots;
      entries = v.entries;
      paired = v.paired;
      known = v.known;
      held = (v.known fd id e, v.held);
    }
Step-Inv t _ (duplicated old new) v = dup2-Inv t old new v
Step-Inv t _ (closed fd) v = close-Inv t fd v
Step-Inv t _ closed_all v = take_from-Inv (length t.fds) 0 t v

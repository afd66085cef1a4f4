-- ===== src/Descriptors/Closing.antt =====
-- `take_all`, on a process's exit.
use felix.Prelude.{
  ℕ, zero, suc, ◌+◌, ◌≤◌, ◌≡◌, refl, sym, ap, ap₂, ◌∙◌, subst, Bool, true, false, ◌&&◌, not, Option,
  none, some, List, [], ◌∷◌, ◌++◌, ◌==◌, if◌then◌else◌, set, get_or, length, replicate, is_some,
  map, Bool-cases, inl, inr, arith, ==_iff,
}
use mathlib.Core.Bool.{true≢false, false≢true}
use felix.Descriptors.Defs.{
  FileDescriptor, OpenFileDescription, FileDescriptorTable, ClosedFileDescriptor, holds, slots_with,
  holders_with, is_last, max_fds, close_at, close, push_closed, take_from, take_all, empty_slot,
}
use felix.Descriptors.Inv.{Inv}

-- No slot of a list and no one outside has the description of a slot.
abbrev pub last_of : List ℕ → List (Option ℕ) → Option ℕ → Bool
last_of out os none = true
last_of out os (some id) = slots_with id os + holders_with id out == 0

-- What the closing of the slots must report: each descriptor with its description, as the last one
-- if no later slot and no one outside has it.
pub trace :
    List ℕ → List (Option FileDescriptor) → List (Option ℕ) → List (Option ℕ × ClosedFileDescriptor)
trace out [] os = []
trace out (d ∷ ds) [] = []
trace out (none ∷ ds) (o ∷ os) = trace out ds os
trace out (some d ∷ ds) (o ∷ os) =
    (o, record { desc = d; last_open_ref = last_of out os o }) ∷ trace out ds os

-- How often a description is reported as released.
pub releases : ℕ → List (Option ℕ × ClosedFileDescriptor) → ℕ
releases id [] = 0
releases id ((o, c) ∷ cs) = (if c.last_open_ref then holds id o else 0) + releases id cs

-- The two halves of a table agree on which slots are free.
Paired : List (Option FileDescriptor) → List (Option ℕ) → Type 0
Paired [] [] = Unit
Paired [] (o ∷ os) = 1 ≤ 0
Paired (d ∷ ds) [] = 1 ≤ 0
Paired (d ∷ ds) (o ∷ os) = (is_some d ≡ is_some o) × Paired ds os

module _ {A : Type 0} where
  no_one : Option A
  no_one = none

  get_or-pad :
      (n : ℕ) (x : Option A) (xs : List (Option A)) → get_or (replicate n none ++ x ∷ xs) n none ≡ x
  get_or-pad zero x xs = refl
  get_or-pad (suc n) x xs = get_or-pad n x xs

  pad-shift :
      (n : ℕ) (xs : List (Option A)) → replicate n none ++ none ∷ xs ≡ replicate (suc n) none ++ xs
  pad-shift zero xs = refl
  pad-shift (suc n) xs = ap (λ l. none ∷ l) (pad-shift n xs)

  set-pad :
      (n : ℕ) (x : Option A) (xs : List (Option A))
      → set (replicate n none ++ x ∷ xs) n none ≡ replicate (suc n) none ++ xs
  set-pad zero x xs = refl
  set-pad (suc n) x xs = ap (λ l. none ∷ l) (set-pad n x xs)

slots_with-pad :
    (id n : ℕ) (os : List (Option ℕ)) → slots_with id (replicate n none ++ os) ≡ slots_with id os
unfolding slots_with
slots_with-pad id zero os = refl
slots_with-pad id (suc n) os = omega (arith, slots_with-pad id n os)

-- A table whose first slots are empty.
abbrev padded :
    ℕ
    → List (Option FileDescriptor)
    → List (Option ℕ)
    → List OpenFileDescription
    → List ℕ
    → FileDescriptorTable
padded n ds os store out = record {
  fds = replicate n none ++ ds;
  ofds = replicate n none ++ os;
  store = store;
  outside = out;
}

module _ (store : List OpenFileDescription) (out : List ℕ) where
  close-free :
      (n : ℕ) (ds : List (Option FileDescriptor)) (os : List (Option ℕ))
      → close (padded n (none ∷ ds) (none ∷ os) store out) n
        ≡ (none, padded (suc n) ds os store out)
  close-free n ds os =
      ap (close_at (padded n (none ∷ ds) (none ∷ os) store out) n) (get_or-pad n none ds)
      ∙ ap₂ (λ fds ofds. (none, record { fds = fds; ofds = ofds; store = store; outside = out }))
          (pad-shift n ds) (pad-shift n os)

  close-used :
      (n : ℕ) (d : FileDescriptor) (o : Option ℕ) (ds : List (Option FileDescriptor))
      (os : List (Option ℕ))
      → close (padded n (some d ∷ ds) (o ∷ os) store out) n ≡ (
        some (record { desc = d; last_open_ref = is_last (padded (suc n) ds os store out) o }),
        padded (suc n) ds os store out,
      )
  close-used n d o ds os =
      ap (close_at (padded n (some d ∷ ds) (o ∷ os) store out) n) (get_or-pad n (some d) ds)
      ∙ ap
          (λ p. (
            some (record {
              desc = d;
              last_open_ref = is_last (empty_slot (padded n (some d ∷ ds) (o ∷ os) store out) n) p;
            }),
            empty_slot (padded n (some d ∷ ds) (o ∷ os) store out) n,
          ))
          (get_or-pad n o os)
      ∙ ap (λ u. (some (record { desc = d; last_open_ref = is_last u o }), u))
          (ap₂ (λ fds ofds. record { fds = fds; ofds = ofds; store = store; outside = out })
            (set-pad n (some d) ds) (set-pad n o os))

  take_from-trace :
      (n : ℕ) (ds : List (Option FileDescriptor)) (os : List (Option ℕ))
      → Paired ds os
      → (take_from (length ds) n (padded n ds os store out)).0 ≡ map (λ c. c.1) (trace out ds os)
  unfolding take_from trace Paired
  take_from-trace n [] os p = refl
  take_from-trace n (d ∷ ds) [] p = absurd (omega (arith, p))
  take_from-trace n (none ∷ ds) (some o ∷ os) p = absurd (false≢true p.0)
  take_from-trace n (none ∷ ds) (none ∷ os) p =
      ap (λ r. push_closed r.0 (take_from (length ds) (suc n) r.1).0) (close-free n ds os)
      ∙ take_from-trace (suc n) ds os p.1
  take_from-trace n (some d ∷ ds) (o ∷ os) p =
      ap (λ r. push_closed r.0 (take_from (length ds) (suc n) r.1).0) (close-used n d o ds os)
      ∙ ap₂ (λ b cs. record { desc = d; last_open_ref = b } ∷ cs) (last_same o)
          (take_from-trace (suc n) ds os p.1)
    where
      last_same : (o : Option ℕ) → is_last (padded (suc n) ds os store out) o ≡ last_of out os o
      last_same none = refl
      last_same (some id) = ap (λ m. m + holders_with id out == 0) (slots_with-pad id (suc n) os)

  -- What the closings leave of the table.
  take_from-table :
      (n : ℕ) (ds : List (Option FileDescriptor)) (os : List (Option ℕ))
      → Paired ds os
      → (take_from (length ds) n (padded n ds os store out)).1
        ≡ padded (n + length ds) [] [] store out
  unfolding take_from Paired
  take_from-table n [] [] p = ap (λ m. padded m [] [] store out) (omega arith)
  take_from-table n [] (o ∷ os) p = absurd (omega (arith, p))
  take_from-table n (d ∷ ds) [] p = absurd (omega (arith, p))
  take_from-table n (none ∷ ds) (some o ∷ os) p = absurd (false≢true p.0)
  take_from-table n (none ∷ ds) (none ∷ os) p =
      ap (λ r. (take_from (length ds) (suc n) r.1).1) (close-free n ds os)
      ∙ take_from-table (suc n) ds os p.1
      ∙ ap (λ m. padded m [] [] store out) (omega arith)
  take_from-table n (some d ∷ ds) (o ∷ os) p =
      ap (λ r. (take_from (length ds) (suc n) r.1).1) (close-used n d o ds os)
      ∙ take_from-table (suc n) ds os p.1
      ∙ ap (λ m. padded m [] [] store out) (omega arith)

-- A description is released by the last of the slots that have it, if no one outside has it.
releases-trace :
    (id : ℕ) (out : List ℕ) (ds : List (Option FileDescriptor)) (os : List (Option ℕ))
    → Paired ds os
    → releases id (trace out ds os)
      ≡ (if holders_with id out == 0 && not (slots_with id os == 0) then 1 else 0)
unfolding releases trace Paired slots_with
releases-trace id out [] [] p = sym (nothing (holders_with id out == 0))
  where
    nothing : (b : Bool) → ◌≡◌ {A = ℕ} (if b && false then 1 else 0) 0
    nothing true = refl
    nothing false = refl
releases-trace id out [] (o ∷ os) p = absurd (omega (arith, p))
releases-trace id out (d ∷ ds) [] p = absurd (omega (arith, p))
releases-trace id out (none ∷ ds) (some o ∷ os) p = absurd (false≢true p.0)
releases-trace id out (none ∷ ds) (none ∷ os) p =
    releases-trace id out ds os p.1
    ∙ ap (λ m. if holders_with id out == 0 && not (m == 0) then 1 else 0) (omega arith)
releases-trace id out (some d ∷ ds) (none ∷ os) p = absurd (true≢false p.0)
releases-trace id out (some d ∷ ds) (some x ∷ os) p = elim (Bool-cases (x == id)) [
  | inl h ↦ rw h (
      subst
        (λ y.
          (if slots_with y os + holders_with y out == 0 then 1 else 0)
            + releases id (trace out ds os)
          ≡ (if holders_with id out == 0 && not (1 + slots_with id os == 0) then 1 else 0))
        (sym ((==_iff x id).0 h)) (ground (arith, releases-trace id out ds os p.1)))
  | inr h ↦ rw h (
      neither (slots_with x os + holders_with x out == 0) (releases id (trace out ds os))
      ∙ releases-trace id out ds os p.1
      ∙ ap (λ m. if holders_with id out == 0 && not (m == 0) then 1 else 0) (omega arith))
]
  where
    neither : (b : Bool) (n : ℕ) → (if b then 0 else 0) + n ≡ n
    neither true n = omega arith
    neither false n = omega arith

-- What the slots that are in use hold, in order.
module _ {A : Type 0} where
  pub in_use : List (Option A) → List (Option A)
  in_use [] = []
  in_use (none ∷ os) = in_use os
  in_use (some a ∷ os) = some a ∷ in_use os

in_use-trace :
    (out : List ℕ) (ds : List (Option FileDescriptor)) (os : List (Option ℕ))
    → Paired ds os
    → map (λ c. c.0) (trace out ds os) ≡ in_use os
unfolding trace Paired in_use
in_use-trace out [] [] p = refl
in_use-trace out [] (o ∷ os) p = absurd (omega (arith, p))
in_use-trace out (d ∷ ds) [] p = absurd (omega (arith, p))
in_use-trace out (none ∷ ds) (some o ∷ os) p = absurd (false≢true p.0)
in_use-trace out (none ∷ ds) (none ∷ os) p = in_use-trace out ds os p.1
in_use-trace out (some d ∷ ds) (none ∷ os) p = absurd (true≢false p.0)
in_use-trace out (some d ∷ ds) (some x ∷ os) p = ap (λ l. some x ∷ l) (in_use-trace out ds os p.1)

descriptors-trace :
    (out : List ℕ) (ds : List (Option FileDescriptor)) (os : List (Option ℕ))
    → Paired ds os
    → map (λ c. some c.1.desc) (trace out ds os) ≡ in_use ds
unfolding trace Paired in_use
descriptors-trace out [] [] p = refl
descriptors-trace out [] (o ∷ os) p = absurd (omega (arith, p))
descriptors-trace out (d ∷ ds) [] p = absurd (omega (arith, p))
descriptors-trace out (none ∷ ds) (o ∷ os) p = descriptors-trace out ds os p.1
descriptors-trace out (some d ∷ ds) (o ∷ os) p =
    ap (λ l. some d ∷ l) (descriptors-trace out ds os p.1)

pair_up :
    (ds : List (Option FileDescriptor)) (os : List (Option ℕ))
    → length ds ≡ length os
    → ((i : ℕ) → is_some (get_or ds i none) ≡ is_some (get_or os i none))
    → Paired ds os
unfolding Paired
pair_up [] [] l p = tt
pair_up [] (o ∷ os) l p = absurd (omega (arith, l))
pair_up (d ∷ ds) [] l p = absurd (omega (arith, l))
pair_up (d ∷ ds) (o ∷ os) l p = (p 0, pair_up ds os (omega (arith, l)) (λ i. p (suc i)))

-- A table with no slot in use, of the same size.
abbrev pub emptied : FileDescriptorTable → FileDescriptorTable
emptied t = record t { fds = replicate max_fds none; ofds = replicate max_fds none }

-- `take_all` as a list of closings, with the description of each, and the table that it leaves.
abbrev pub Closings : FileDescriptorTable → List ClosedFileDescriptor × FileDescriptorTable → Type 0
Closings t r =
    (tr : List (Option ℕ × ClosedFileDescriptor)) × (r.0 ≡ map (λ c. c.1) tr)
    × (map (λ c. some c.1.desc) tr ≡ in_use t.fds)
    × (map (λ c. c.0) tr ≡ in_use t.ofds)
    × ((id : ℕ)
        → releases id tr
          ≡ (if holders_with id t.outside == 0 && not (slots_with id t.ofds == 0) then 1 else 0))
    × (r.1 ≡ emptied t)

-- In a table with the invariant, `take_all` closes every slot in use, in order: it reports their
-- descriptors, and leaves a table with no slot in use. Of the closings that share a description,
-- one reports it as released if no one outside the table has it, and none does if someone has.
pub take_all-Closings : (t : FileDescriptorTable) → Inv t → Closings t (take_all t)
take_all-Closings t v =
    let pairs = pair_up t.fds t.ofds (omega (arith, v.slots, v.entries)) v.paired in
    (
      trace t.outside t.fds t.ofds,
      take_from-trace t.store t.outside 0 t.fds t.ofds pairs,
      descriptors-trace t.outside t.fds t.ofds pairs,
      in_use-trace t.outside t.fds t.ofds pairs,
      λ id. releases-trace id t.outside t.fds t.ofds pairs,
      take_from-table t.store t.outside 0 t.fds t.ofds pairs
          ∙ (let size : 0 + length t.fds ≡ max_fds = omega (arith, v.slots) in
              ap (λ n. padded n [] [] t.store t.outside) size),
    )

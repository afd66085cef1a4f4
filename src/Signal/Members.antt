-- ===== src/Signal/Members.antt =====
-- A loop over the threads of a process, slot by slot.
use felix.Prelude.{
  ℕ, suc, ◌+◌, ◌-◌, ◌≡◌, ◌≢◌, refl, sym, ap, ◌∙◌, Bool, true, false, Option, none, some, [], ◌∷◌,
  ◌==◌, leb, if◌then◌else◌, get_or, is_some, Bool-cases, if_intro, inl, inr, arith,
}
use mathlib.Core.Bool.{true≢false}
use felix.Task.Defs.{Slots, Task}
use felix.Task.Table.{on_task, change_task, filter_slots, slot_is}
use felix.Task.Lookups.{get_or-change_task}
use felix.Signal.Defs.{each, members_do}

abbrev pub led : ℕ → (Task → Task) → Task → Task
led leader f t = if slot_is t.leader_slot leader then f t else t

abbrev where_p : (ℕ → Task → Bool) → (Task → Task) → ℕ → Task → Task
where_p p f j t = if p j t then f t else t

module _ (p : ℕ → Task → Bool) (f : Task → Task) where
  -- The slot `k` is done; the others wait for the rest of the loop.
  shift :
      (k j : ℕ) (u o : Option Task)
      → (j ≢ k → u ≡ o)
      → (j ≡ k → u ≡ on_task (where_p p f j) o)
      → (if leb (suc k) j then on_task (where_p p f j) u else u)
        ≡ (if leb k j then on_task (where_p p f j) o else o)
  shift k j u o other here = elim (Bool-cases (leb (suc k) j)) [
    | inl h ↦
        let low : leb k j ≡ true = ground arith in
        rw h (rw low (ap (on_task (where_p p f j)) (other (λ e. absurd (ground arith)))))
    | inr h ↦ rw h (elim (Bool-cases (leb k j)) [
      | inl l ↦ rw l (here (ground arith))
      | inr l ↦ rw l (other (λ e. absurd (ground arith)))
    ])
  ]

  -- The loop over the slots that a scan from slot `k` on finds.
  each-filter_slots :
      (k j : ℕ) (ts all : Slots)
      → ((i : ℕ) → get_or all (k + i) none ≡ get_or ts i none)
      → get_or (each f (filter_slots p k ts) all) j none
        ≡ (if leb k j then on_task (where_p p f j) (get_or all j none) else get_or all j none)
  unfolding each filter_slots
  each-filter_slots k j [] all e = elim (Bool-cases (leb k j)) [
    | inl h ↦
        rw h
          (past (get_or all j none) (ap (λ i. get_or all i none) (ground (arith, h)) ∙ e (j - k)))
    | inr h ↦ rw h refl
  ]
    where
      past : (o : Option Task) → o ≡ none → o ≡ on_task (where_p p f j) o
      past none q = refl
      past (some t) q = absurd (true≢false (ap is_some q))
  each-filter_slots k j (none ∷ ts) all e =
      each-filter_slots (suc k) j ts all
        (λ i. ap (λ n. get_or all n none) (omega arith) ∙ e (suc i))
      ∙ shift k j (get_or all j none) (get_or all j none) (λ h. refl)
          (λ h.
            let z : get_or all j none ≡ none =
              ap (λ n. get_or all n none) (omega (arith, h)) ∙ e 0 in
            z ∙ sym (ap (on_task (where_p p f j)) z))
  each-filter_slots k j (some t ∷ ts) all e =
      if_intro
        (λ ss.
          get_or (each f ss all) j none
          ≡ (if leb k j then on_task (where_p p f j) (get_or all j none) else get_or all j none))
        (p k t) (k ∷ filter_slots p (suc k) ts) (filter_slots p (suc k) ts)
        (λ h.
          each-filter_slots (suc k) j ts (change_task f k all)
            (λ i. unchanged (suc k + i) (omega arith) ∙ later i)
          ∙ shift k j (get_or (change_task f k all) j none) (get_or all j none) (λ n. unchanged j n)
              (λ n. changed j n h))
        (λ h.
          each-filter_slots (suc k) j ts all later
          ∙ shift k j (get_or all j none) (get_or all j none) (λ n. refl) (λ n. kept j n h))
    where
      later : (i : ℕ) → get_or all (suc k + i) none ≡ get_or ts i none
      later i = ap (λ n. get_or all n none) (omega arith) ∙ e (suc i)

      unchanged : (n : ℕ) → n ≢ k → get_or (change_task f k all) n none ≡ get_or all n none
      unchanged n q =
          let no : (n == k) ≡ false = ground arith in get_or-change_task f k all n ∙ rw no refl

      at : (n : ℕ) → n ≡ k → get_or all n none ≡ some t
      at n q = ap (λ n. get_or all n none) (omega (arith, q)) ∙ e 0

      changed :
          (n : ℕ)
          → n ≡ k
          → p k t ≡ true
          → get_or (change_task f k all) n none ≡ on_task (where_p p f n) (get_or all n none)
      changed n q h =
          let yes : (n == k) ≡ true = ground arith in
          get_or-change_task f k all n
          ∙ rw yes (
              ap (on_task f) (at n q)
              ∙ sym (
                  ap (on_task (where_p p f n)) (at n q)
                  ∙ ap (λ b. some (if b then f t else t)) (ap (λ n. p n t) q ∙ h)))

      kept :
          (n : ℕ)
          → n ≡ k
          → p k t ≡ false
          → get_or all n none ≡ on_task (where_p p f n) (get_or all n none)
      kept n q h =
          at n q
          ∙ sym (
              ap (on_task (where_p p f n)) (at n q)
              ∙ ap (λ b. some (if b then f t else t)) (ap (λ n. p n t) q ∙ h))

pub get_or-members_do :
    (f : Task → Task) (leader : ℕ) (ts : Slots) (j : ℕ)
    → get_or (members_do f leader ts) j none ≡ on_task (led leader f) (get_or ts j none)
get_or-members_do f leader ts j =
    each-filter_slots (λ k t. slot_is t.leader_slot leader) f 0 j ts ts
      (λ i. ap (λ n. get_or ts n none) (omega arith))
    ∙ (let low : leb 0 j ≡ true = ground arith in rw low refl)

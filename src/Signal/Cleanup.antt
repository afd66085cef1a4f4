-- ===== src/Signal/Cleanup.antt =====
-- `drain_deferred_cleanup`: how often it names each slot.
use felix.Prelude.{
  ℕ, zero, suc, ◌+◌, ◌-◌, ◌≡◌, refl, sym, ap, ◌∙◌, Bool, true, false, ◌&&◌, List, [], ◌∷◌, ◌==◌,
  leb, ltb, not, none, if◌then◌else◌, get_or, replicate, ==_iff, Bool-cases, if_intro, inl, inr,
  arith,
}
use felix.Task.Defs.{Slots, max_tasks, no_signals}
use felix.Task.Table.{is_zombie}
use felix.Signal.Defs.{Signals, due, cleanup_from, drain_deferred_cleanup}

-- How often a list of slots has a slot.
unfoldable pub occurrences : ℕ → List ℕ → ℕ
occurrences j [] = 0
occurrences j (k ∷ ks) = (if k == j then 1 else 0) + occurrences j ks

cleanup_from-occurrences :
    (ts : Slots) (j k : ℕ) (bs : List Bool)
    → occurrences j (cleanup_from k bs ts)
      ≡ (if leb k j && (get_or bs (j - k) false && due ts j) then 1 else 0)
unfolding cleanup_from occurrences
cleanup_from-occurrences ts j k [] = elim (Bool-cases (leb k j)) [
  | inl h ↦ rw h refl
  | inr h ↦ rw h refl
]
cleanup_from-occurrences ts j k (b ∷ bs) =
    let rest = cleanup_from (suc k) bs ts in
    let later = cleanup_from-occurrences ts j (suc k) bs in
    with_head rest later (
      if_intro
        (λ l. occurrences j l ≡ (if (b && due ts k) && (k == j) then 1 else 0) + occurrences j rest)
        (b && due ts k) (k ∷ rest) rest (λ h. rw h refl) (λ h. rw h (omega arith)))
  where
    with_head :
        (rest : List ℕ)
        → occurrences j rest
          ≡ (if leb (suc k) j && (get_or bs (j - suc k) false && due ts j) then 1 else 0)
        → occurrences j (if b && due ts k then k ∷ rest else rest)
          ≡ (if (b && due ts k) && (k == j) then 1 else 0) + occurrences j rest
        → occurrences j (if b && due ts k then k ∷ rest else rest)
          ≡ (if leb k j && (get_or (b ∷ bs) (j - k) false && due ts j) then 1 else 0)
    with_head rest later now = elim (Bool-cases (leb (suc k) j)) [
      | inl h ↦
          let from : leb k j ≡ true = ground arith in
          let other : (k == j) ≡ false = ground arith in
          let next : j - k ≡ suc (j - suc k) = ground arith in
          now ∙ rw other (rw from (rw next (no_more (b && due ts k) ∙ later ∙ rw h refl)))
      | inr h ↦ now ∙ elim (Bool-cases (k == j)) [
        | inl e ↦
            let from : leb k j ≡ true = ground arith in
            let here : j - k ≡ 0 = ground arith in
            let same : k ≡ j = (==_iff k j).0 e in
            let none_later : occurrences j rest ≡ 0 = later ∙ rw h refl in
            rw from
              (rw here (rw e (rw none_later (once b (due ts k) (due ts j) (ap (due ts) same)))))
        | inr e ↦
            let before : leb k j ≡ false = ground arith in
            let none_later : occurrences j rest ≡ 0 = later ∙ rw h refl in
            rw before (rw e (rw none_later (no_more (b && due ts k))))
      ]
    ]
      where
        no_more : (c : Bool) {n : ℕ} → (if c && false then 1 else 0) + n ≡ n
        no_more true = omega arith
        no_more false = omega arith

        once :
            (b c d : Bool)
            → c ≡ d
            → (if (b && c) && true then 1 else 0) + 0 ≡ (if b && d then 1 else 0)
        once true true d e = rw (sym e) refl
        once true false d e = rw (sym e) refl
        once false c d e = refl

-- The cleanup names each slot from 1 to 31 once whose bit is set and that holds a zombie, and no
-- other slot; it clears all the bits, so that the next cleanup names none until a process is killed.
pub drain_deferred_cleanup-once :
    (g : Signals) (j : ℕ)
    → (occurrences j (drain_deferred_cleanup g).0 ≡ (
        if get_or g.deferred j false
          && (not (j == 0) && (ltb j max_tasks && is_zombie (get_or g.tasks j none)))
        then 1
        else 0))
      × (occurrences j (drain_deferred_cleanup (drain_deferred_cleanup g).1).0 ≡ 0)
unfolding drain_deferred_cleanup
drain_deferred_cleanup-once g j =
    let low : leb 0 j ≡ true = ground arith in
    let same : j - 0 ≡ j = omega arith in
    (
      cleanup_from-occurrences g.tasks j 0 g.deferred ∙ rw low (rw same refl),
      cleanup_from-occurrences g.tasks j 0 no_signals ∙ rw low (rw (cleared 32 (j - 0)) refl),
    )
  where
    cleared : (n i : ℕ) → get_or (replicate n false) i false ≡ false
    cleared zero i = refl
    cleared (suc n) zero = refl
    cleared (suc n) (suc i) = cleared n i

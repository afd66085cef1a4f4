-- ===== src/Task/Owners.antt =====
-- What a claim does to the owners of the slots, the one that it takes and the others.
use felix.Prelude.{
  ℕ, zero, suc, ◌+◌, ◌%◌, ◌<◌, ◌≡◌, refl, sym, ap, ◌∙◌, subst, ◌&&◌, not, Option, none, some, List,
  ◌==◌, ◌⊎◌, ltb, if◌then◌else◌, set, get_or, is_some, get_or-set_ne, get_or-set_self, ==_iff,
  Bool-cases, if_intro, inl, inr, arith, length, length-set, lt→ltb,
}
use mathlib.Core.Bool.{true≢false}
use felix.Task.Defs.{Slots, max_tasks, ready}
use felix.Task.Claim.{valid_owner, repair, skip_idle, claim_loop}
use felix.Task.Turns.{valid_owner_twice, owner-repair}

abbrev pub mark : ℕ → ℕ → ℕ → Option ℕ → Option ℕ
mark cpu r t o = if t == r && ltb 0 r then some cpu else o

-- The claim of slot `r` leaves slot `t` its owner, or repairs it, but for `r` itself.
abbrev pub Claims : List (Option ℕ) → ℕ → ℕ → ℕ → Option ℕ → Option ℕ → Type 0
Claims on_cpu cpu r t o o' = (o' ≡ mark cpu r t o) ⊎ (o' ≡ mark cpu r t (valid_owner on_cpu t o))

skip_idle-range : (s : ℕ) → s < max_tasks → (0 < skip_idle s) × (skip_idle s < max_tasks)
skip_idle-range s h = ground arith

repair-cases :
    (on_cpu owners : List (Option ℕ)) (s t : ℕ)
    → (get_or (repair on_cpu owners s) t none ≡ get_or owners t none)
      ⊎ (get_or (repair on_cpu owners s) t none ≡ valid_owner on_cpu t (get_or owners t none))
repair-cases on_cpu owners s t = elim (Bool-cases (t == s)) [
  | inl h ↦ inr (owner-repair on_cpu owners s t ∙ rw h refl)
  | inr h ↦ inl (owner-repair on_cpu owners s t ∙ rw h refl)
]

module _ (tasks : Slots) (on_cpu : List (Option ℕ)) (cpu : ℕ) where
  pub claim_loop-Claims :
      (n slot : ℕ) (owners : List (Option ℕ)) (t : ℕ)
      → slot < max_tasks
      → length owners ≡ max_tasks
      → Claims on_cpu cpu
          (claim_loop tasks on_cpu cpu n slot owners).0
          t
          (get_or owners t none)
          (get_or (claim_loop tasks on_cpu cpu n slot owners).1 t none)
  unfolding claim_loop
  claim_loop-Claims zero slot owners t low len =
      inl (elim (Bool-cases (t == 0)) [ inl h ↦ rw h refl | inr h ↦ rw h refl ])
  claim_loop-Claims (suc n) slot owners t low len =
      let s = skip_idle slot in
      let repaired = repair on_cpu owners s in
      let range = skip_idle-range slot low in
      let long : length repaired ≡ max_tasks = length-set owners s _ ∙ len in
      let rest = claim_loop-Claims n ((s + 1) % max_tasks) repaired t (omega arith) long in
      if_intro (λ c. Claims on_cpu cpu c.0 t (get_or owners t none) (get_or c.1 t none))
        (ready (get_or tasks s none) && not (is_some (get_or repaired s none)))
        (s, set repaired s (some cpu))
        (claim_loop tasks on_cpu cpu n ((s + 1) % max_tasks) repaired)
        (λ h. inl (taken s range.0 range.1 long))
        (λ h. unrepair s (claim_loop tasks on_cpu cpu n ((s + 1) % max_tasks) repaired) rest)
    where
      taken :
          (s : ℕ)
          → 0 < s
          → s < max_tasks
          → length (repair on_cpu owners s) ≡ max_tasks
          → get_or (set (repair on_cpu owners s) s (some cpu)) t none
            ≡ mark cpu s t (get_or owners t none)
      taken s pos small long =
          let positive = lt→ltb 0 s pos in
          elim (Bool-cases (t == s)) [
            | inl h ↦ rw h (
                rw positive (
                  subst (λ t. get_or (set (repair on_cpu owners s) s (some cpu)) t none ≡ some cpu)
                    (sym ((==_iff t s).0 h))
                    (get_or-set_self (repair on_cpu owners s) s (some cpu) none
                      (omega (arith, long)))))
            | inr h ↦ rw h (
                get_or-set_ne (repair on_cpu owners s) s t (some cpu) none
                  (λ e. true≢false (sym ((==_iff t s).1 (sym e)) ∙ h))
                ∙ owner-repair on_cpu owners s t
                ∙ ap
                    (λ b.
                      if b
                      then valid_owner on_cpu t (get_or owners t none)
                      else get_or owners t none)
                    h)
          ]

      unrepair :
          (s : ℕ) (c : ℕ × List (Option ℕ))
          → Claims on_cpu cpu c.0 t (get_or (repair on_cpu owners s) t none) (get_or c.1 t none)
          → Claims on_cpu cpu c.0 t (get_or owners t none) (get_or c.1 t none)
      unrepair s c (inl e) = elim (repair-cases on_cpu owners s t) [
        | inl k ↦ inl (e ∙ ap (mark cpu c.0 t) k)
        | inr k ↦ inr (e ∙ ap (mark cpu c.0 t) k)
      ]
      unrepair s c (inr e) = elim (repair-cases on_cpu owners s t) [
        | inl k ↦ inr (e ∙ ap (λ o. mark cpu c.0 t (valid_owner on_cpu t o)) k)
        | inr k ↦ inr (
            e
            ∙ ap (λ o. mark cpu c.0 t (valid_owner on_cpu t o)) k
            ∙ ap (mark cpu c.0 t) (valid_owner_twice on_cpu t (get_or owners t none)))
      ]

  pub claim_loop-length :
      (n slot : ℕ) (owners : List (Option ℕ))
      → length (claim_loop tasks on_cpu cpu n slot owners).1 ≡ length owners
  unfolding claim_loop
  claim_loop-length zero slot owners = refl
  claim_loop-length (suc n) slot owners =
      let s = skip_idle slot in
      let repaired = repair on_cpu owners s in
      let rest = claim_loop tasks on_cpu cpu n ((s + 1) % max_tasks) repaired in
      if_intro (λ c. length c.1 ≡ length owners)
        (ready (get_or tasks s none) && not (is_some (get_or repaired s none)))
        (s, set repaired s (some cpu)) rest
        (λ h. length-set repaired s (some cpu) ∙ length-set owners s _)
        (λ h. claim_loop-length n ((s + 1) % max_tasks) repaired ∙ length-set owners s _)

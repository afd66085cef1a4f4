-- ===== src/Task/Turns.antt =====
-- The scan of `claim_next_task` and the order of the turns, a search without repairs of owners.
use felix.Prelude.{
  ℕ, zero, suc, ◌+◌, ◌-◌, ◌%◌, ◌<◌, ◌≤◌, ◌≡◌, ◌≢◌, refl, sym, ap, ap₂, ◌∙◌, subst, Bool, true,
  false, ◌&&◌, not, Option, none, some, List, [], ◌∷◌, ◌++◌, ◌==◌, ◌⊎◌, append-nil, ltb,
  if◌then◌else◌, set, get_or, is_some, get_or-update, ==_iff, ==_self, Bool-cases, inl, inr, arith,
}
use mathlib.Core.Bool.{true≢false}
use felix.Task.Defs.{Slots, max_tasks, ready}
use felix.Task.Claim.{
  is_slot, valid_owner, repair, skip_idle, claim_loop, first_slot, claim_next_task, available,
}

-- The first element that passes a test, or 0.
pub first : (ℕ → Bool) → List ℕ → ℕ
first p [] = 0
first p (s ∷ ss) = if p s then s else first p ss

pub from : ℕ → ℕ → List ℕ
from s zero = []
from s (suc n) = s ∷ from (suc s) n

-- The order of the turns after slot `a`: the slots above it, and then those from 1 up to it.
pub turns : ℕ → List ℕ
turns a = from (suc a) (max_tasks - 1 - a) ++ from 1 a

-- The slots that the loop looks at.
visits : ℕ → ℕ → List ℕ
visits zero slot = []
visits (suc n) slot = skip_idle slot ∷ visits n ((skip_idle slot + 1) % max_tasks)

pub valid_owner_twice :
    (on_cpu : List (Option ℕ)) (s : ℕ) (o : Option ℕ)
    → valid_owner on_cpu s (valid_owner on_cpu s o) ≡ valid_owner on_cpu s o
valid_owner_twice on_cpu s none = refl
valid_owner_twice on_cpu s (some c) = elim (Bool-cases (is_slot (get_or on_cpu c none) s)) [
  | inl h ↦ rw h (rw h refl)
  | inr h ↦ rw h refl
]

pub owner-repair :
    (on_cpu owners : List (Option ℕ)) (s t : ℕ)
    → get_or (repair on_cpu owners s) t none
      ≡ (if t == s then valid_owner on_cpu t (get_or owners t none) else get_or owners t none)
owner-repair on_cpu owners s t =
    get_or-update (valid_owner on_cpu s) owners s t none refl ∙ at (Bool-cases (t == s))
  where
    at :
        ((t == s) ≡ true) ⊎ ((t == s) ≡ false)
        → (if t == s then valid_owner on_cpu s (get_or owners t none) else get_or owners t none)
          ≡ (if t == s then valid_owner on_cpu t (get_or owners t none) else get_or owners t none)
    at (inl h) =
        rw h (ap (λ u. valid_owner on_cpu u (get_or owners t none)) (sym ((==_iff t s).0 h)))
    at (inr h) = rw h refl

-- A repair changes no slot's availability.
available-repair :
    (tasks : Slots) (on_cpu owners : List (Option ℕ)) (s t : ℕ)
    → available tasks on_cpu (repair on_cpu owners s) t ≡ available tasks on_cpu owners t
available-repair tasks on_cpu owners s t =
    ap (λ o. ready (get_or tasks t none) && not (is_some o))
      (ap (valid_owner on_cpu t) (owner-repair on_cpu owners s t) ∙ at (Bool-cases (t == s)))
  where
    at :
        ((t == s) ≡ true) ⊎ ((t == s) ≡ false)
        → valid_owner on_cpu t
            (if t == s then valid_owner on_cpu t (get_or owners t none) else get_or owners t none)
          ≡ valid_owner on_cpu t (get_or owners t none)
    at (inl h) = rw h (valid_owner_twice on_cpu t (get_or owners t none))
    at (inr h) = rw h refl

first-cong : (p q : ℕ → Bool) (ss : List ℕ) → ((s : ℕ) → p s ≡ q s) → first p ss ≡ first q ss
unfolding first
first-cong p q [] h = refl
first-cong p q (s ∷ ss) h = rw (h s) (ap (λ r. if q s then s else r) (first-cong p q ss h))

claim_loop-first :
    (tasks : Slots) (on_cpu : List (Option ℕ)) (cpu n slot : ℕ) (owners : List (Option ℕ))
    → (claim_loop tasks on_cpu cpu n slot owners).0
      ≡ first (available tasks on_cpu owners) (visits n slot)
unfolding claim_loop first visits
claim_loop-first tasks on_cpu cpu zero slot owners = refl
claim_loop-first tasks on_cpu cpu (suc n) slot owners =
    let s = skip_idle slot in
    let repaired = repair on_cpu owners s in
    let next = (s + 1) % max_tasks in
    let same : get_or repaired s none ≡ valid_owner on_cpu s (get_or owners s none) =
      owner-repair on_cpu owners s s
      ∙ ap (λ b. if b then valid_owner on_cpu s (get_or owners s none) else get_or owners s none)
          (==_self s) in
    let test = ap (λ o. ready (get_or tasks s none) && not (is_some o)) same in
    if_fst (ready (get_or tasks s none) && not (is_some (get_or repaired s none))) s
      (set repaired s (some cpu)) (claim_loop tasks on_cpu cpu n next repaired)
    ∙ rw test (
        ap (λ r. if available tasks on_cpu owners s then s else r)
          (claim_loop-first tasks on_cpu cpu n next repaired
            ∙ first-cong _ _ (visits n next) (available-repair tasks on_cpu owners s)))
  where
    if_fst :
        (b : Bool) (s : ℕ) (o : List (Option ℕ)) (r : ℕ × List (Option ℕ))
        → (if b then (s, o) else r).0 ≡ (if b then s else r.0)
    if_fst true s o r = refl
    if_fst false s o r = refl

-- The slots that the loop looks at are the turns.
skip_idle-pos : (s : ℕ) → 0 < s → skip_idle s ≡ s
skip_idle-pos s h = let no : (s == 0) ≡ false = ground arith in rw no refl

visits-up :
    (n k s : ℕ) → s + n ≡ 32 → 0 < s → visits (n + k) (s % max_tasks) ≡ from s n ++ visits k 0
unfolding visits from
visits-up zero k s e h = let z : s % 32 ≡ 0 = omega arith in ap₂ visits (omega arith) z
visits-up (suc n) k s e h =
    let low : s % 32 ≡ s = omega arith in
    let here : skip_idle (s % max_tasks) ≡ s = ap skip_idle low ∙ skip_idle-pos s h in
    let next : (s + 1) % max_tasks ≡ suc s % max_tasks = omega arith in
    let more : suc n + k ≡ suc (n + k) = omega arith in
    ap (λ m. visits m (s % max_tasks)) more
    ∙ ap₂ (λ a b. a ∷ visits (n + k) b) here (ap (λ a. (a + 1) % max_tasks) here ∙ next)
    ∙ ap (λ l. s ∷ l) (visits-up n k (suc s) (omega arith) (omega arith))

visits-low : (k s : ℕ) → s + k ≤ 32 → 0 < s → visits k s ≡ from s k
unfolding visits from
visits-low zero s e h = refl
visits-low (suc zero) s e h = ap (λ a. a ∷ []) (skip_idle-pos s h)
visits-low (suc (suc k)) s e h =
    let here = skip_idle-pos s h in
    let next : (s + 1) % max_tasks ≡ suc s = omega arith in
    ap (λ a. a ∷ visits (suc k) ((a + 1) % max_tasks)) here
    ∙ ap (λ l. s ∷ l)
        (ap (visits (suc k)) next ∙ visits-low (suc k) (suc s) (omega arith) (omega arith))

-- From slot 0 the scan starts with slot 1.
visits-zero : (k : ℕ) → k ≤ 31 → visits k 0 ≡ from 1 k
unfolding visits from
visits-zero zero h = refl
visits-zero (suc k) h = visits-low (suc k) 1 (omega arith) (omega arith)

-- The slots that the loop looks at are the turns.
visits-turns : (a : ℕ) → a < max_tasks → visits (max_tasks - 1) (first_slot (some a)) ≡ turns a
unfolding turns
visits-turns a h = elim (Bool-cases (ltb a 1)) [
  | inl z ↦ rw z (at_zero a (ground arith))
  | inr p ↦ rw p (above (ground arith))
]
  where
    at_zero : (a : ℕ) → a ≡ 0 → visits 31 1 ≡ from (suc a) (31 - a) ++ from 1 a
    at_zero a e =
        subst (λ a. visits 31 1 ≡ from (suc a) (31 - a) ++ from 1 a) (sym e)
          (visits-low 31 1 (omega arith) (omega arith)
            ∙ sym (unfold from in append-nil (from 1 31)))

    above : 0 < a → visits 31 ((a + 1) % max_tasks) ≡ from (suc a) (31 - a) ++ from 1 a
    above p =
        let all : (31 - a) + a ≡ 31 = omega arith in
        let next : (a + 1) % 32 ≡ suc a % 32 = omega arith in
        sym (ap (λ m. visits m ((a + 1) % 32)) all)
        ∙ ap (visits ((31 - a) + a)) next
        ∙ visits-up (31 - a) a (suc a) (omega arith) (omega arith)
        ∙ ap (λ l. from (suc a) (31 - a) ++ l) (visits-zero a (omega arith))

-- The scan of `claim_next_task` takes the first available slot in the order of the turns after
-- `after`, and answers 0 if none is available, as the search without repairs of owners does.
pub claim_next_task-first :
    (tasks : Slots) (on_cpu owners : List (Option ℕ)) (cpu after : ℕ)
    → after < max_tasks
    → (claim_next_task tasks on_cpu owners cpu (some after)).0
      ≡ first (available tasks on_cpu owners) (turns after)
unfolding claim_next_task
claim_next_task-first tasks on_cpu owners cpu after h =
    claim_loop-first tasks on_cpu cpu 31 (first_slot (some after)) owners
    ∙ ap (first (available tasks on_cpu owners)) (visits-turns after h)

first-in :
    (p : ℕ → Bool) (n s t : ℕ) (ss : List ℕ)
    → s ≤ t
    → t < s + n
    → p t ≡ true
    → (s ≤ first p (from s n ++ ss))
      × (first p (from s n ++ ss) ≤ t)
      × (p (first p (from s n ++ ss)) ≡ true)
unfolding first from
first-in p zero s t ss h k e = absurd (omega arith)
first-in p (suc n) s t ss h k e = elim (Bool-cases (p s)) [
  | inl y ↦ rw y (omega arith, h, y)
  | inr y ↦
      let later : s ≢ t = λ q. true≢false (sym e ∙ ap p (sym q) ∙ y) in
      let rest = first-in p n (suc s) t ss (omega (arith, later)) (omega arith) e in
      rw y (omega (arith, rest.0), rest.1, rest.2)
]

first-past :
    (p : ℕ → Bool) (n s : ℕ) (ss : List ℕ)
    → (first p (from s n ++ ss) ≡ first p ss)
      ⊎ ((s ≤ first p (from s n ++ ss))
          × (first p (from s n ++ ss) < s + n)
          × (p (first p (from s n ++ ss)) ≡ true))
unfolding first from
first-past p zero s ss = inl refl
first-past p (suc n) s ss = elim (Bool-cases (p s)) [
  | inl y ↦ rw y (inr (omega arith, omega arith, y))
  | inr y ↦ rw y (elim (first-past p n (suc s) ss) [
    | inl q ↦ inl q
    | inr r ↦ inr (omega (arith, r.0), omega (arith, r.1), r.2)
  ])
]

-- How many turns after slot `a` a slot has to wait, its own included.
abbrev pub turn_of : ℕ → ℕ → ℕ
turn_of a t = if ltb a t then t - a else t + 31 - a

-- What holds of the slot that a scan after `a` takes while `t` is available.
abbrev pub Served : (ℕ → Bool) → ℕ → ℕ → ℕ → Type 0
Served p a t r = (0 < r) × (r < max_tasks) × (p r ≡ true) × (turn_of a r ≤ turn_of a t)

pub first-Served :
    (p : ℕ → Bool) (a t : ℕ)
    → a < max_tasks
    → 0 < t
    → t < max_tasks
    → p t ≡ true
    → Served p a t (first p (turns a))
unfolding turns
first-Served p a t h pos low e = elim (Bool-cases (ltb a t)) [
  | inl k ↦
      let r = first-in p (31 - a) (suc a) t (from 1 a) (ground arith) (ground arith) e in
      (omega (arith, r.0), omega (arith, r.1), r.2, ground (arith, r.0, r.1))
  | inr k ↦ elim (first-past p (31 - a) (suc a) (from 1 a)) [
    | inl q ↦
        let w = first-in p a 1 t [] (ground arith) (ground arith) e in
        let last = append-nil (from 1 a) in
        let v = subst (λ l. (1 ≤ first p l) × (first p l ≤ t) × (p (first p l) ≡ true)) last w in
        subst (Served p a t) (sym q)
          (omega (arith, v.0), omega (arith, v.1), v.2, ground (arith, v.0, v.1))
    | inr r ↦ (omega (arith, r.0), omega (arith, r.1), r.2, ground (arith, r.0, r.1))
  ]
]

-- The slot that a scan takes was available.
pub first-available :
    (p : ℕ → Bool) (a : ℕ)
    → a < max_tasks
    → (first p (turns a) ≡ 0)
      ⊎ ((0 < first p (turns a)) × (first p (turns a) < max_tasks) × (p (first p (turns a)) ≡ true))
unfolding turns
first-available p a h = elim (first-past p (31 - a) (suc a) (from 1 a)) [
  | inl q ↦
      subst (λ r. (r ≡ 0) ⊎ ((0 < r) × (r < max_tasks) × (p r ≡ true))) (sym q)
        (low (first-past p a 1 []))
  | inr r ↦ inr (omega (arith, r.0), omega (arith, r.1), r.2)
]
  where
    low :
        (first p (from 1 a ++ []) ≡ first p [])
          ⊎ ((1 ≤ first p (from 1 a ++ []))
              × (first p (from 1 a ++ []) < 1 + a)
              × (p (first p (from 1 a ++ [])) ≡ true))
        → (first p (from 1 a) ≡ 0)
          ⊎ ((0 < first p (from 1 a))
              × (first p (from 1 a) < max_tasks)
              × (p (first p (from 1 a)) ≡ true))
    low (inl q) = inl (ap (first p) (sym (append-nil (from 1 a))) ∙ q ∙ unfold first in refl)
    low (inr w) =
        let v =
          subst (λ l. (1 ≤ first p l) × (first p l < 1 + a) × (p (first p l) ≡ true))
            (append-nil (from 1 a)) w in
        inr (omega (arith, v.0), omega (arith, v.1), v.2)

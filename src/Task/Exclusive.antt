-- ===== src/Task/Exclusive.antt =====
-- The owners of the slots that the CPUs run.
use felix.Prelude.{
  ℕ, ◌<◌, ◌≤◌, ◌≡◌, ◌≢◌, refl, sym, ap, ◌∙◌, Bool, true, false, ◌&&◌, not, Option, none, some, List,
  ◌==◌, ◌⊎◌, ltb, if◌then◌else◌, get_or, is_some, ==_iff, ==_self, Bool-cases, inl, inr, arith,
  length, lt→ltb, ltb→lt,
}
use mathlib.Core.Bool.{false≢true}
use felix.Task.Defs.{Slots, max_tasks, ready}
use felix.Task.Claim.{is_slot, valid_owner, first_slot, claim_next_task, available}
use felix.Task.Turns.{first, turns, claim_next_task-first, first-available}
use felix.Task.Owners.{mark, Claims, claim_loop-Claims, claim_loop-length}

abbrev pub max_cpus : ℕ
max_cpus = 64

-- The slots on the CPUs that satisfy a condition are in range and owned by their CPUs.
pub record Owning (cpus : ℕ → Type 0) (owners on_cpu : List (Option ℕ)) : Type 0 where
  pub slots : length owners ≡ max_tasks
  pub count : length on_cpu ≡ max_cpus
  pub range : (c s : ℕ) → get_or on_cpu c none ≡ some s → s < max_tasks
  pub owner :
      (c s : ℕ) → cpus c → 0 < s → get_or on_cpu c none ≡ some s → get_or owners s none ≡ some c

abbrev pub Every : ℕ → Type 0
Every c = Unit

-- All the CPUs but one, which is between two tasks.
abbrev pub Other : ℕ → ℕ → Type 0
Other cpu c = c ≢ cpu

-- What a claim on a CPU gives it, while the other CPUs keep what they own.
pub record Claimed (tasks : Slots) (on_cpu : List (Option ℕ)) (cpu : ℕ)
    (claimed : ℕ × List (Option ℕ)) : Type 0 where
  pub small : claimed.0 < max_tasks
  pub picked : 0 < claimed.0 → ready (get_or tasks claimed.0 none) ≡ true
  pub taken : 0 < claimed.0 → get_or claimed.1 claimed.0 none ≡ some cpu
  pub others : Owning (Other cpu) claimed.1 on_cpu

pub &&-left : (a b : Bool) → (a && b) ≡ true → a ≡ true
&&-left true b h = refl
&&-left false b h = h

&&-right : (a b : Bool) → (a && b) ≡ true → b ≡ true
&&-right true b h = h
&&-right false b h = absurd (false≢true h)

-- A slot on a CPU that owns it keeps that owner through repairs, and is not available.
valid-running :
    (on_cpu : List (Option ℕ)) (c s : ℕ)
    → get_or on_cpu c none ≡ some s
    → valid_owner on_cpu s (some c) ≡ some c
valid-running on_cpu c s e = ap (λ o. if is_slot o s then some c else none) e ∙ rw (==_self s) refl

first_slot-range : (a : Option ℕ) → first_slot a < max_tasks
first_slot-range none = omega arith
first_slot-range (some a) = ground arith

-- A slot that another CPU runs is not available.
running-unavailable :
    {A : Type 0} (tasks : Slots) (on_cpu owners : List (Option ℕ)) (cpu c s : ℕ)
    → Owning (Other cpu) owners on_cpu
    → c ≢ cpu
    → 0 < s
    → get_or on_cpu c none ≡ some s
    → available tasks on_cpu owners s ≡ true
    → A
running-unavailable tasks on_cpu owners cpu c s v ne pos e h =
    let own = ap (valid_owner on_cpu s) (v.owner c s ne pos e) ∙ valid-running on_cpu c s e in
    absurd (
      false≢true (ap (λ o. not (is_some o)) (sym own) ∙ &&-right (ready (get_or tasks s none)) _ h))

mark-taken : (cpu r : ℕ) (o : Option ℕ) → 0 < r → mark cpu r r o ≡ some cpu
mark-taken cpu r o h = rw (==_self r) (rw (lt→ltb 0 r h) refl)

mark-other : (cpu r t : ℕ) (o : Option ℕ) → ((t ≡ r) → 0 < r → 1 ≤ 0) → mark cpu r t o ≡ o
mark-other cpu r t o h = elim (Bool-cases (t == r)) [
  | inl e ↦ elim (Bool-cases (ltb 0 r)) [
    | inl p ↦ absurd (omega (arith, h ((==_iff t r).0 e) (ltb→lt 0 r p)))
    | inr p ↦ rw e (rw p refl)
  ]
  | inr e ↦ rw e refl
]

pub claim-Claimed :
    (tasks : Slots) (on_cpu owners : List (Option ℕ)) (cpu a : ℕ)
    → a < max_tasks
    → Owning (Other cpu) owners on_cpu
    → Claimed tasks on_cpu cpu (claim_next_task tasks on_cpu owners cpu (some a))
claim-Claimed tasks on_cpu owners cpu a low v = by_answer (first-available avail a low)
  where
    avail : ℕ → Bool
    avail = available tasks on_cpu owners

    answer : ℕ
    answer = (claim_next_task tasks on_cpu owners cpu (some a)).0

    owners' : List (Option ℕ)
    owners' = (claim_next_task tasks on_cpu owners cpu (some a)).1

    is_first : answer ≡ first avail (turns a)
    is_first = claim_next_task-first tasks on_cpu owners cpu a low

    claims : (t : ℕ) → Claims on_cpu cpu answer t (get_or owners t none) (get_or owners' t none)
    claims t =
        unfold claim_next_task in
        claim_loop-Claims tasks on_cpu cpu 31 (first_slot (some a)) owners t
          (first_slot-range (some a)) v.slots

    Good : Type 0
    Good = (answer < max_tasks) × (0 < answer → avail answer ≡ true)

    finish : Good → Claimed tasks on_cpu cpu (claim_next_task tasks on_cpu owners cpu (some a))
    finish g = record {
      small = g.0;
      picked = λ p. &&-left _ _ (g.1 p);
      taken = λ p. elim (claims answer) [
        | inl e ↦ e ∙ mark-taken cpu answer _ p
        | inr e ↦ e ∙ mark-taken cpu answer _ p
      ];
      others = record {
        slots =
            unfold claim_next_task in
            claim_loop-length tasks on_cpu cpu 31 (first_slot (some a)) owners ∙ v.slots;
        count = v.count;
        range = v.range;
        owner = λ c s ne pos e.
            let own = v.owner c s ne pos e in
            let apart : (s ≡ answer) → 0 < answer → 1 ≤ 0 = λ q p.
              running-unavailable tasks on_cpu owners cpu c s v ne pos e (ap avail q ∙ g.1 p) in
            elim (claims s) [
              | inl k ↦ k ∙ mark-other cpu answer s _ apart ∙ own
              | inr k ↦
                  k
                  ∙ mark-other cpu answer s _ apart
                  ∙ ap (valid_owner on_cpu s) own
                  ∙ valid-running on_cpu c s e
            ];
      };
    }

    by_answer :
        (first avail (turns a) ≡ 0)
          ⊎ ((0 < first avail (turns a))
              × (first avail (turns a) < max_tasks)
              × (avail (first avail (turns a)) ≡ true))
        → Claimed tasks on_cpu cpu (claim_next_task tasks on_cpu owners cpu (some a))
    by_answer (inl z) =
        finish (omega (arith, is_first, z), λ p. absurd (omega (arith, is_first, z, p)))
    by_answer (inr w) = finish (omega (arith, is_first, w.1), λ p. ap avail is_first ∙ w.2)

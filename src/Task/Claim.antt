-- ===== src/Task/Claim.antt =====
-- `claim_next_task`: the scan of the slots after a given one, which repairs stale owners and takes
-- the first task that is ready and not owned.
use felix.Prelude.{
  ℕ, zero, suc, ◌+◌, ◌-◌, ◌%◌, Bool, false, ◌&&◌, not, Option, none, some, List, ◌==◌, ltb,
  if◌then◌else◌, set, get_or, is_some,
}
use felix.Task.Defs.{Slots, max_tasks, ready}

abbrev pub is_slot : Option ℕ → ℕ → Bool
is_slot none s = false
is_slot (some r) s = r == s

-- An owner is valid while that CPU reports the slot; past the table of CPUs it reports none.
abbrev pub valid_owner : List (Option ℕ) → ℕ → Option ℕ → Option ℕ
valid_owner on_cpu s none = none
valid_owner on_cpu s (some c) = if is_slot (get_or on_cpu c none) s then some c else none

abbrev pub repair : List (Option ℕ) → List (Option ℕ) → ℕ → List (Option ℕ)
repair on_cpu owners s = set owners s (valid_owner on_cpu s (get_or owners s none))

abbrev pub skip_idle : ℕ → ℕ
skip_idle s = if s == 0 then 1 else s

-- The loop, with the turns that are left; slot 0 as the answer means that no task is ready.
unfoldable pub claim_loop :
    Slots → List (Option ℕ) → ℕ → ℕ → ℕ → List (Option ℕ) → ℕ × List (Option ℕ)
claim_loop tasks on_cpu cpu zero slot owners = (0, owners)
claim_loop tasks on_cpu cpu (suc n) slot owners =
    let s = skip_idle slot in
    let repaired = repair on_cpu owners s in
    let rest = claim_loop tasks on_cpu cpu n ((s + 1) % max_tasks) repaired in
    if ready (get_or tasks s none) && not (is_some (get_or repaired s none))
    then (s, set repaired s (some cpu))
    else rest

abbrev pub first_slot : Option ℕ → ℕ
first_slot none = 1
first_slot (some a) = if ltb a 1 then 1 else (a + 1) % max_tasks

unfoldable pub claim_next_task :
    Slots → List (Option ℕ) → List (Option ℕ) → ℕ → Option ℕ → ℕ × List (Option ℕ)
claim_next_task tasks on_cpu owners cpu after =
    claim_loop tasks on_cpu cpu (max_tasks - 1) (first_slot after) owners

-- A slot that the scan can take: its task is ready, and no CPU that still runs it owns it.
abbrev pub available : Slots → List (Option ℕ) → List (Option ℕ) → ℕ → Bool
available tasks on_cpu owners s =
    ready (get_or tasks s none) && not (is_some (valid_owner on_cpu s (get_or owners s none)))

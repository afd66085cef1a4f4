-- ===== src/Task/Tests.antt =====
-- The scheduler on a small system: the idle task, and two tasks that are ready to run.
use felix.Prelude.{
  ◌⊎◌, if◌then◌else◌, ℕ, zero, suc, ◌<◌, ◌≤◌, ◌≡◌, refl, sym, ap, ◌∙◌, true, false, Option, none,
  some, List, ◌∷◌, get_or, replicate, pos, arith,
}
use mathlib.Core.Option.{some-injective, none-ne-some}
use felix.Task.Defs.{ready, Slots, Task, TaskManager, System, child, max_tasks, block}
use felix.Task.Claim.{claim_next_task, claim_loop, available}
use felix.Task.Turns.{first, turns, claim_next_task-first}
use felix.Task.Table.{task_for, alloc_pid, wake_waiters, count_slots, map_tasks}
use felix.Task.Schedule.{schedule}
use felix.Task.Exclusive.{Every}
use felix.Task.Switch.{Inv, Switched, schedule-Switched, Reach, Reach-exclusive}
use felix.Task.Fairness.{Passed, Passed-bound}
use felix.Task.Count.{Counted, occupied}
use felix.Task.Reaping.{Operation, operate, operate-Counted}
use felix.Task.Family.{wake_waiters-lem, waits_for, is_live, after_pids, alloc_pid-after}

abbrev task : ℕ → Task
task s = task_for s (pos s) 4096

abbrev waiting : Task
waiting = record (block child (task 3)) { ppid = pos 2 }

abbrev table : Slots
table = some (task 0) ∷ some (task 1) ∷ some (task 2) ∷ some waiting ∷ replicate 28 none

abbrev manager : TaskManager
manager = record {
  tasks = table;
  task_count = pos 4;
  current_task = some 0;
  first_switch = false;
  next_pid = pos 4;
}

abbrev no_cpu : Option ℕ
no_cpu = none

abbrev cpus : List (Option ℕ)
cpus = some 0 ∷ replicate 63 no_cpu

abbrev owners : List (Option ℕ)
owners = some 0 ∷ replicate 31 no_cpu

abbrev small : System
small = record {
  manager = manager;
  task_owner = owners;
  on_cpu = cpus;
  idle_esp = replicate 64 0;
  eax = λ p. 0;
}

claim_next_task-first_example :
    (claim_next_task table cpus owners 1 (some 1)).0 ≡ first (available table cpus owners) (turns 1)
claim_next_task-first_example = claim_next_task-first table cpus owners 1 1 (omega arith)

after_one : (claim_next_task table cpus owners 1 (some 1)).0 ≡ 2
unfolding claim_next_task claim_loop
after_one = refl

replicate-no : (n c s : ℕ) → get_or (replicate n no_cpu) c none ≡ some s → 1 ≤ 0
replicate-no zero c s e = absurd (none-ne-some s e)
replicate-no (suc n) zero s e = absurd (none-ne-some s e)
replicate-no (suc n) (suc c) s e = replicate-no n c s e

small-Inv : Inv small
small-Inv = record {
  owning = record { slots = refl; count = refl; range = range; owner = owner };
  bsp = refl;
  idle = refl;
}
  where
    range : (c s : ℕ) → get_or cpus c none ≡ some s → s < max_tasks
    range zero s e = omega (arith, some-injective 0 s e)
    range (suc c) s e = absurd (omega (arith, replicate-no 63 c s e))

    owner :
        (c s : ℕ) → Every c → 0 < s → get_or cpus c none ≡ some s → get_or owners s none ≡ some c
    owner zero s u p e = absurd (omega (arith, p, some-injective 0 s e))
    owner (suc c) s u p e = absurd (omega (arith, replicate-no 63 c s e))

schedule-Switched_example : Switched 1 7 (schedule 1 50 7 small)
schedule-Switched_example = schedule-Switched small 1 50 7 (omega arith) small-Inv

system_of : Option (ℕ × System) → System
system_of none = small
system_of (some (p, σ)) = σ

address_of : Option (ℕ × System) → ℕ
address_of none = 0
address_of (some (p, σ)) = p

abbrev one : System
one = system_of (schedule 1 50 7 small)

switch_one : schedule 1 50 7 small ≡ some (address_of (schedule 1 50 7 small), one)
unfolding system_of address_of
switch_one = known (schedule-Switched small 1 50 7 (omega arith) small-Inv)
  where
    known :
        Switched 1 7 (schedule 1 50 7 small)
        → schedule 1 50 7 small ≡ some (address_of (schedule 1 50 7 small), one)
    known (p, τ, e, v, r) = e ∙ sym (ap (λ o. some (address_of o, system_of o)) e)

one_runs : get_or one.on_cpu 1 none ≡ some 1
unfolding system_of schedule claim_next_task claim_loop map_tasks wake_waiters
one_runs = refl

-- The task of slot 2 waits while CPU 1 takes that of slot 1.
passed_one : Passed 1 2 1 one
passed_one =
    Passed.pass small one 50 7 (address_of (schedule 1 50 7 small)) (Passed.begin small) refl
      small-Inv refl (record { is_ready = refl; unclaimed = refl }) switch_one
      (λ e. absurd (omega (arith, some-injective 1 2 (sym one_runs ∙ e))))

Passed-bound_example : 1 < 31
Passed-bound_example = Passed-bound 1 2 1 one (omega arith) (omega arith) (omega arith) passed_one

reach_one : Reach small one
reach_one =
    Reach.switch 1 50 7 (address_of (schedule 1 50 7 small)) Reach.start (omega arith) switch_one

Reach-exclusive_example : (Path ℕ 1 1)
Reach-exclusive_example =
    Reach-exclusive small one 1 1 1 small-Inv reach_one (omega arith) one_runs one_runs

manager-Counted : Counted manager
unfolding occupied
manager-Counted = record { count = refl; idle = refl }

operate-Counted_example : Counted (operate owners (Operation.reap_process 2) manager)
operate-Counted_example = operate-Counted owners (Operation.reap_process 2) manager manager-Counted

wake_waiters-lem_example :
    (count_slots (λ t. waits_for child (some t)) (wake_waiters child table).1 ≡ 0)
    × ((k : ℕ)
        → ready (get_or (wake_waiters child table).1 k none) ≡ (
            if waits_for child (get_or table k none)
            then is_live (get_or table k none)
            else ready (get_or table k none)))
    × ((k : ℕ)
        → (waits_for child (get_or table k none) ≡ true)
          ⊎ (get_or (wake_waiters child table).1 k none ≡ get_or table k none))
wake_waiters-lem_example = wake_waiters-lem child table

alloc_pid-after_example : (alloc_pid (after_pids 5 manager)).0 ≡ pos 9
alloc_pid-after_example = alloc_pid-after manager 3 5 refl (omega arith)

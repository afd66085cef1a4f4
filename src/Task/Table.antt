-- ===== src/Task/Table.antt =====
-- The operations on the task table: lookups, pids, the release of slots and the wake-ups.
use felix.Prelude.{
  ℕ, zero, suc, ◌+◌, ◌-◌, ◌/◌, ◌%◌, ◌^◌, Bool, true, false, ◌&&◌, ◌||◌, not, Option, none, some,
  List, [], ◌∷◌, ◌==◌, ltb, leb, if◌then◌else◌, set, get_or, length, is_some, ℤ, pos, negsuc, eq_ℤ,
  is_pos, is_neg, pred_ℤ, succ_ℤ,
}
use felix.Task.Defs.{
  Slots, Task, TaskManager, WaitReason, blocked_on, poll, timer, futex, socket, wake, new_task,
  init, max_tasks,
}

-- The slots from `k` on whose task passes a test: the first, all, and how many.
unfoldable pub find_slot : (ℕ → Task → Bool) → ℕ → Slots → Option ℕ
find_slot p k [] = none
find_slot p k (none ∷ ts) = find_slot p (suc k) ts
find_slot p k (some t ∷ ts) = if p k t then some k else find_slot p (suc k) ts

unfoldable pub filter_slots : (ℕ → Task → Bool) → ℕ → Slots → List ℕ
filter_slots p k [] = []
filter_slots p k (none ∷ ts) = filter_slots p (suc k) ts
filter_slots p k (some t ∷ ts) =
    let rest = filter_slots p (suc k) ts in if p k t then k ∷ rest else rest

unfoldable pub count_slots : (Task → Bool) → Slots → ℕ
count_slots p [] = 0
count_slots p (none ∷ ts) = count_slots p ts
count_slots p (some t ∷ ts) = (if p t then 1 else 0) + count_slots p ts

abbrev pub slot_is : Option ℕ → ℕ → Bool
slot_is none s = false
slot_is (some r) s = r == s

abbrev pub slot_by_pid : Slots → ℤ → Option ℕ
slot_by_pid tasks pid = find_slot (λ k t. eq_ℤ t.pid pid && slot_is t.leader_slot k) 0 tasks

abbrev pub slot_by_tid : Slots → ℤ → Option ℕ
slot_by_tid tasks tid = find_slot (λ k t. eq_ℤ t.tid tid) 0 tasks

abbrev pub leader_or : ℕ → Option Task → ℕ
leader_or slot none = slot
leader_or slot (some t) = elim t.leader_slot [ none ↦ slot | some l ↦ l ]

abbrev pub process_slot : Slots → ℕ → ℕ
process_slot tasks slot = leader_or slot (get_or tasks slot none)

abbrev pub thread_slots : Slots → ℕ → List ℕ
thread_slots tasks leader = filter_slots (λ k t. slot_is t.leader_slot leader) 0 tasks

abbrev pub live_thread_count : Slots → ℕ → ℕ
live_thread_count tasks leader =
    count_slots (λ t. slot_is t.leader_slot leader && not t.thread_exited) tasks

abbrev pub slots_in_pgid : Slots → ℤ → List ℕ
slots_in_pgid tasks pgid =
    filter_slots (λ k t. eq_ℤ t.pgid pgid && not t.zombie && slot_is t.leader_slot k) 0 tasks

-- `i32::wrapping_add(1)`.
abbrev pub wrapping_inc : ℤ → ℤ
wrapping_inc (pos n) = if n == 2 ^ 31 - 1 then negsuc (2 ^ 31 - 1) else pos (suc n)
wrapping_inc (negsuc n) = succ_ℤ (negsuc n)

abbrev pub at_least_one : ℤ → ℤ
at_least_one a = if is_pos a then a else pos 1

abbrev pub alloc_pid : TaskManager → ℤ × TaskManager
alloc_pid m =
    (at_least_one m.next_pid, record m { next_pid = at_least_one (wrapping_inc m.next_pid) })

unfoldable pub map_tasks : (Task → Task) → Slots → Slots
map_tasks f [] = []
map_tasks f (none ∷ ts) = none ∷ map_tasks f ts
map_tasks f (some t ∷ ts) = some (f t) ∷ map_tasks f ts

abbrev pub on_task : (Task → Task) → Option Task → Option Task
on_task f none = none
on_task f (some t) = some (f t)

abbrev pub change_task : (Task → Task) → ℕ → Slots → Slots
change_task f s tasks = set tasks s (on_task f (get_or tasks s none))

abbrev pub is_zombie : Option Task → Bool
is_zombie none = false
is_zombie (some t) = t.zombie

-- A slot holds a task that is no zombie.
abbrev pub is_alive : Option Task → Bool
is_alive none = false
is_alive (some t) = not t.zombie

abbrev pub live_init : Slots → Option ℕ
live_init tasks = elim (slot_by_pid tasks (pos 1)) [
  | none ↦ none
  | some s ↦ if is_alive (get_or tasks s none) then some s else none
]

abbrev pub adopt : Option ℕ → Task → Task
adopt none t = record t { ppid = pos 0; parent = some 0 }
adopt (some s) t = record t { ppid = pos 1; parent = some s }

unfoldable pub reparent_children_of : Slots → ℤ → Slots
reparent_children_of tasks dead_pid =
    let init_slot = if eq_ℤ dead_pid (pos 1) then none else live_init tasks in
    if is_pos dead_pid
    then map_tasks (λ t. if eq_ℤ t.ppid dead_pid then adopt init_slot t else t) tasks
    else tasks

abbrev pub clear_slot : ℕ → TaskManager → TaskManager
clear_slot id m = record m { tasks = set m.tasks id none; task_count = pred_ℤ m.task_count }

-- `TASK_OWNER` has an owner for the slot.
abbrev pub owned : List (Option ℕ) → ℕ → Bool
owned owners s = is_some (get_or owners s none)

unfoldable pub remove_task : List (Option ℕ) → ℕ → TaskManager → TaskManager
remove_task owners id m =
    if not (id == 0) && ltb id (length m.tasks) && not (owned owners id)
    then elim (get_or m.tasks id none) [
      | none ↦ m
      | some t ↦ clear_slot id (record m { tasks = reparent_children_of m.tasks t.pid })
    ]
    else m

abbrev pub all_free : List (Option ℕ) → List ℕ → Bool
all_free owners [] = true
all_free owners (s ∷ ss) = not (owned owners s) && all_free owners ss

abbrev pub process_quiescent : List (Option ℕ) → Slots → ℕ → Bool
process_quiescent owners tasks leader = all_free owners (thread_slots tasks leader)

abbrev pub all_free_but : List (Option ℕ) → ℕ → List ℕ → Bool
all_free_but owners leader [] = true
all_free_but owners leader (s ∷ ss) =
    (s == leader || not (owned owners s)) && all_free_but owners leader ss

abbrev pub siblings_quiescent : List (Option ℕ) → Slots → ℕ → Bool
siblings_quiescent owners tasks leader = all_free_but owners leader (thread_slots tasks leader)

unfoldable pub clear_members : ℕ → List ℕ → TaskManager → TaskManager
clear_members id [] m = m
clear_members id (s ∷ ss) m = clear_members id ss (if s == id then m else clear_slot s m)

-- The steps of `reap` once the process is known to be a zombie that no CPU runs.
abbrev pub release_process : ℕ → ℤ → TaskManager → TaskManager
release_process id dead_pid m =
    let orphaned = record m { tasks = reparent_children_of m.tasks dead_pid } in
    clear_slot id (clear_members id (thread_slots orphaned.tasks id) orphaned)

unfoldable pub reap : List (Option ℕ) → ℕ → TaskManager → Bool × TaskManager
reap owners id m =
    if id == 0 || leb (length m.tasks) id || not (process_quiescent owners m.tasks id)
    then (false, m)
    else elim (get_or m.tasks id none) [
      | none ↦ (false, m)
      | some t ↦ if t.zombie then (true, release_process id t.pid m) else (false, m)
    ]

abbrev pub is_exited_thread : Option Task → Bool
is_exited_thread none = false
is_exited_thread (some t) = t.is_thread && t.thread_exited

unfoldable pub reap_thread : List (Option ℕ) → ℕ → TaskManager → Bool × TaskManager
reap_thread owners id m =
    if id == 0
      || leb (length m.tasks) id
      || owned owners id
      || not (is_exited_thread (get_or m.tasks id none))
    then (false, m)
    else (true, clear_slot id m)

abbrev pub is_detached : Option Task → Bool
is_detached none = false
is_detached (some t) = t.is_thread && t.thread_exited && t.thread_detached

-- The loop from slot `s` on, over `n` slots.
unfoldable pub reap_detached_from : List (Option ℕ) → ℕ → ℕ → TaskManager → TaskManager
reap_detached_from owners zero s m = m
reap_detached_from owners (suc n) s m = reap_detached_from owners n (suc s) (
    if not (owned owners s) && is_detached (get_or m.tasks s none)
    then (reap_thread owners s m).1
    else m)

abbrev pub reap_detached_threads : List (Option ℕ) → TaskManager → TaskManager
reap_detached_threads owners m = reap_detached_from owners (max_tasks - 1) 1 m

abbrev pub parent_gone : Slots → ℤ → Bool
parent_gone tasks ppid = not (is_pos ppid) || not (is_some (slot_by_pid tasks ppid))

abbrev pub missing_parent : Slots → Option Task → Bool
missing_parent tasks none = false
missing_parent tasks (some t) = not (eq_ℤ t.pid (pos 1)) && parent_gone tasks t.ppid

abbrev pub adopt_lost : Option ℕ → Bool → ℕ → Slots → Slots
adopt_lost none lost i tasks = tasks
adopt_lost (some s) lost i tasks = if lost then change_task (adopt (some s)) i tasks else tasks

-- The loop of `reap_orphans`, which finds the zombies to reap.
unfoldable pub find_orphans : Option ℕ → ℕ → ℕ → Slots → List ℕ × Slots
find_orphans init_slot zero i tasks = ([], tasks)
find_orphans init_slot (suc n) i tasks =
    let lost = missing_parent tasks (get_or tasks i none) in
    let unreapable = lost && not (is_some init_slot) && is_zombie (get_or tasks i none) in
    let rest = find_orphans init_slot n (suc i) (adopt_lost init_slot lost i tasks) in
    (if unreapable then i ∷ rest.0 else rest.0, rest.1)

unfoldable pub reap_all : List (Option ℕ) → List ℕ → TaskManager → TaskManager
reap_all owners [] m = m
reap_all owners (i ∷ is) m = reap_all owners is (reap owners i m).1

unfoldable pub reap_orphans : List (Option ℕ) → TaskManager → TaskManager
reap_orphans owners m =
    let (zombies, tasks) = find_orphans (live_init m.tasks) (max_tasks - 1) 1 m.tasks in
    reap_all owners zombies (record m { tasks = tasks })

-- The first slot without a task.
unfoldable pub first_free : ℕ → Slots → Option ℕ
first_free k [] = none
first_free k (none ∷ ts) = some k
first_free k (some t ∷ ts) = first_free (suc k) ts

abbrev pub get_free_slot : List (Option ℕ) → TaskManager → Option ℕ × TaskManager
get_free_slot owners m =
    let swept = reap_orphans owners (reap_detached_threads owners m) in
    (first_free 0 swept.tasks, swept)

-- `add_task` on the stack that the frame allocator gives the task.
abbrev pub task_for : ℕ → ℤ → ℕ → Task
task_for slot pid stack_base = record (init (new_task stack_base)) {
  pid = pid;
  tid = pid;
  leader_slot = some slot;
  ppid = pos 0;
  pgid = pid;
  sid = pid;
  parent = some 0;
}

abbrev pub place_task : ℕ → Option ℕ → TaskManager → TaskManager
place_task stack_base none m = m
place_task stack_base (some slot) m =
    let (pid, numbered) = alloc_pid m in
    record numbered {
      tasks = set m.tasks slot (some (task_for slot pid stack_base));
      task_count = succ_ℤ m.task_count;
    }

unfoldable pub add_task : List (Option ℕ) → ℕ → TaskManager → TaskManager
add_task owners stack_base m =
    let (slot, swept) = get_free_slot owners m in place_task stack_base slot swept

-- The answer counts the tasks that wake, in a machine word that the table cannot fill.
unfoldable pub wake_waiters : WaitReason → Slots → ℕ × Slots
wake_waiters r tasks = (
  count_slots (λ t. blocked_on r t.state) tasks,
  map_tasks (λ t. if blocked_on r t.state then wake t else t) tasks,
)

unfoldable pub wake_periodic_poll_waiters : Slots → ℕ × Slots
wake_periodic_poll_waiters tasks =
    let due : Task → Bool = λ t. blocked_on poll t.state && t.poll_periodic in
    (count_slots due tasks, map_tasks (λ t. if due t then wake t else t) tasks)

abbrev pub child_at : ℕ → Option Task → Option (ℕ × ℤ × ℤ)
child_at s none = none
child_at s (some t) = some (s, t.pid, t.exit_code)

abbrev pub is_zombie_child : ℤ → ℤ → Task → Bool
is_zombie_child parent_pid want_pid t =
    t.zombie && eq_ℤ t.ppid parent_pid && (is_neg want_pid || eq_ℤ want_pid t.pid)

unfoldable pub find_zombie_child : Slots → ℤ → ℤ → Option (ℕ × ℤ × ℤ)
find_zombie_child tasks parent_pid want_pid =
    elim (find_slot (λ k t. is_zombie_child parent_pid want_pid t) 0 tasks) [
      | none ↦ none
      | some s ↦ child_at s (get_or tasks s none)
    ]

-- Two words have a bit in common, among the lowest `n`.
unfoldable pub share_bit : ℕ → ℕ → ℕ → Bool
share_bit zero a b = false
share_bit (suc n) a b = (a % 2 == 1 && b % 2 == 1) || share_bit n (a / 2) (b / 2)

unfoldable pub any_shared : List ℕ → List ℕ → Bool
any_shared [] ws = false
any_shared (v ∷ vs) [] = false
any_shared (v ∷ vs) (w ∷ ws) = share_bit 32 v w || any_shared vs ws

abbrev pub interested : List ℕ → List ℕ → Task → Bool
interested readable writable t =
    (blocked_on poll t.state || blocked_on socket t.state)
    && (t.network_wait_any
        || (any_shared t.network_wait_read readable || any_shared t.network_wait_write writable))

unfoldable pub wake_network_waiters : List ℕ → List ℕ → Slots → ℕ × Slots
wake_network_waiters readable writable tasks = (
  count_slots (interested readable writable) tasks,
  map_tasks (λ t. if interested readable writable t then wake t else t) tasks,
)

abbrev pub timed_out : WaitReason → ℕ → Task → Bool
timed_out r now t =
    blocked_on r t.state && not (t.wake_deadline_ms == 0) && leb t.wake_deadline_ms now

abbrev pub expire : ℕ → Task → Task
expire now t =
    if blocked_on timer t.state && leb t.wake_deadline_ms now
    then wake (record t { wake_deadline_ms = 0 })
    else (if timed_out poll now t
        then wake t
        else (if timed_out futex now t
            then wake (record t { futex_key = 0; wake_deadline_ms = 0 })
            else t))

-- -ETIMEDOUT in a word.
abbrev pub etimedout : ℕ
etimedout = 2 ^ 32 - 110

-- A waiter on a futex whose time is up finds the error in the word `eax` of its saved state.
abbrev pub expire_eax : ℕ → Task → (ℕ → ℕ) → ℕ → ℕ
expire_eax now t eax p =
    if timed_out futex now t && not (t.cpu_state_ptr == 0) && (p == t.cpu_state_ptr)
    then etimedout
    else eax p

unfoldable pub expired_eax : ℕ → Slots → (ℕ → ℕ) → ℕ → ℕ
expired_eax now [] eax = eax
expired_eax now (none ∷ ts) eax = expired_eax now ts eax
expired_eax now (some t ∷ ts) eax = expired_eax now ts (expire_eax now t eax)

abbrev pub wake_expired_timers : ℕ → Slots → Slots
wake_expired_timers now tasks = map_tasks (expire now) tasks

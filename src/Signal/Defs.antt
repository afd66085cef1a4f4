-- ===== src/Signal/Defs.antt =====
-- The operations on signals. A word of bits is the list of its bits, the lowest first.
use felix.Prelude.{
  ℕ, suc, ◌+◌, ◌-◌, Bool, true, false, ◌&&◌, ◌||◌, not, Option, none, some, List, [], ◌∷◌, ◌==◌,
  ltb, leb, if◌then◌else◌, set, get_or, pos, ℤ,
}
use felix.Task.Defs.{
  Slots, Task, TaskState, new, runnable, running_on, blocked, halted, dead, child, thread, wake,
  no_signals, max_tasks,
}
use felix.Task.Table.{
  change_task, process_slot, thread_slots, reparent_children_of, wake_waiters, is_zombie,
}

abbrev pub sighup : ℕ
sighup = 1

abbrev pub sigint : ℕ
sigint = 2

abbrev pub sigquit : ℕ
sigquit = 3

abbrev pub sigkill : ℕ
sigkill = 9

abbrev pub sigterm : ℕ
sigterm = 15

abbrev pub sigcont : ℕ
sigcont = 18

abbrev pub sigstop : ℕ
sigstop = 19

abbrev pub sigtstp : ℕ
sigtstp = 20

abbrev pub sigttin : ℕ
sigttin = 21

abbrev pub sigttou : ℕ
sigttou = 22

abbrev pub valid_signal : ℕ → Bool
valid_signal sig = not (sig == 0) && leb sig 31

-- `mask | sigbit(sig)`, `mask & !sigbit(sig)` and `mask & sigbit(sig) != 0`; no bit stands for a
-- signal out of range.
abbrev pub raise : ℕ → List Bool → List Bool
raise sig mask = if valid_signal sig then set mask (sig - 1) true else mask

abbrev pub discard : ℕ → List Bool → List Bool
discard sig mask = if valid_signal sig then set mask (sig - 1) false else mask

abbrev pub pends : ℕ → List Bool → Bool
pends sig mask = valid_signal sig && get_or mask (sig - 1) false

unfoldable pub lowest_from : ℕ → List Bool → Option ℕ
lowest_from k [] = none
lowest_from k (true ∷ bs) = some (suc k)
lowest_from k (false ∷ bs) = lowest_from (suc k) bs

-- The number of the lowest signal of a mask.
abbrev pub lowest_sig : List Bool → Option ℕ
lowest_sig mask = lowest_from 0 mask

abbrev pub default_terminate : ℕ → Bool
default_terminate sig =
    sig == sighup || sig == sigint || sig == sigquit || sig == sigkill || sig == sigterm

abbrev pub is_blocked : TaskState → Bool
is_blocked new = false
is_blocked runnable = false
is_blocked (running_on c) = false
is_blocked (blocked r) = true
is_blocked halted = false
is_blocked dead = false

-- A `for` loop over slots that changes the task in each.
unfoldable pub each : (Task → Task) → List ℕ → Slots → Slots
each f [] ts = ts
each f (s ∷ ss) ts = each f ss (change_task f s ts)

abbrev pub members_do : (Task → Task) → ℕ → Slots → Slots
members_do f leader tasks = each f (thread_slots tasks leader) tasks

abbrev pub queue_signal : ℕ → Task → Task
queue_signal sig t =
    let queued = record t { pending_signals = raise sig t.pending_signals } in
    if is_blocked t.state then wake queued else queued

-- A leader that is there and no zombie: the guard that ends most of these operations early.
abbrev pub alive : Option Task → Bool
alive none = false
alive (some t) = not t.zombie

unfoldable pub send_signal : ℕ → ℕ → Slots → Bool × Slots
send_signal slot sig tasks =
    let leader = process_slot tasks slot in
    if not (slot == 0) && valid_signal sig && alive (get_or tasks leader none)
    then (true, change_task (queue_signal sig) leader tasks)
    else (false, tasks)

abbrev pub stop_thread : Task → Task
stop_thread t =
    if t.thread_exited then t else record t { running = false; state = halted; stopped = true }

abbrev pub latch_stop : ℕ → Task → Task
latch_stop sig t = record t {
  stop_signal = sig;
  wait_stopped_pending = true;
  pending_signals = discard sigcont (discard sig t.pending_signals);
}

abbrev pub can_stop : Option Task → Bool
can_stop none = false
can_stop (some t) = not (t.zombie || t.stopped)

abbrev pub wake_children : Slots → Slots
wake_children tasks = (wake_waiters child tasks).1

unfoldable pub stop_task_with_signal : ℕ → ℕ → Slots → Bool × Slots
stop_task_with_signal slot sig tasks =
    let leader = process_slot tasks slot in
    if not (slot == 0) && can_stop (get_or tasks leader none)
    then (
      true,
      wake_children (change_task (latch_stop sig) leader (members_do stop_thread leader tasks)),
    )
    else (false, tasks)

abbrev pub continue_thread : Task → Task
continue_thread t =
    if t.thread_exited then t else record t { stopped = false; running = true; state = runnable }

abbrev pub latch_continue : Bool → Task → Task
latch_continue was_stopped t = record t {
  wait_continued_pending = if was_stopped then true else t.wait_continued_pending;
  pending_signals =
      discard sigcont
        (discard sigstop (discard sigtstp (discard sigttin (discard sigttou t.pending_signals))));
}

abbrev pub is_stopped : Option Task → Bool
is_stopped none = false
is_stopped (some t) = t.stopped

-- The threads are resumed before the guard on the leader is read.
unfoldable pub continue_task : ℕ → Slots → Bool × Slots
continue_task slot tasks =
    let leader = process_slot tasks slot in
    let was_stopped = is_stopped (get_or tasks leader none) in
    let resumed = members_do continue_thread leader tasks in
    if slot == 0
    then (false, tasks)
    else (if alive (get_or resumed leader none)
        then (true, wake_children (change_task (latch_continue was_stopped) leader resumed))
        else (false, resumed))

abbrev pub kill_thread : ℕ → Task → Task
kill_thread sig t = record t {
  pending_signals = no_signals;
  running = false;
  state = dead;
  stopped = false;
  thread_exited = true;
  term_signal = if sig == 0 then sigkill else sig;
  exit_code = pos (128 + (if sig == 0 then sigkill else sig));
}

abbrev pub make_zombie : Task → Task
make_zombie t = record t { zombie = true }

-- The task table and `DEFERRED_KILL_CLEANUP`, with a bit for each slot.
pub record Signals : Type 0 where
  pub tasks : Slots
  pub deferred : List Bool

abbrev pub wake_family : Slots → Slots
wake_family tasks = (wake_waiters thread (wake_waiters child tasks).1).1

abbrev pub kill_process : ℕ → ℕ → ℤ → Slots → Slots
kill_process leader sig dead_pid tasks = wake_family (
    reparent_children_of
      (change_task make_zombie leader (members_do (kill_thread sig) leader tasks)) dead_pid)

abbrev pub kill_leader : ℕ → ℕ → Option Task → Signals → Bool × Signals
kill_leader leader sig none g = (false, g)
kill_leader leader sig (some t) g = if t.zombie then (false, g) else (
  true,
  record { tasks = kill_process leader sig t.pid g.tasks; deferred = set g.deferred leader true },
)

unfoldable pub force_kill : ℕ → ℕ → Signals → Bool × Signals
force_kill slot sig g =
    let leader = process_slot g.tasks slot in
    if slot == 0 then (false, g) else kill_leader leader sig (get_or g.tasks leader none) g

abbrev pub due : Slots → ℕ → Bool
due tasks leader =
    not (leader == 0) && (ltb leader max_tasks && is_zombie (get_or tasks leader none))

-- The leaders whose descriptors and windows `drain_deferred_cleanup` releases, in its order.
unfoldable pub cleanup_from : ℕ → List Bool → Slots → List ℕ
cleanup_from k [] tasks = []
cleanup_from k (b ∷ bs) tasks =
    let rest = cleanup_from (suc k) bs tasks in if b && due tasks k then k ∷ rest else rest

unfoldable pub drain_deferred_cleanup : Signals → List ℕ × Signals
drain_deferred_cleanup g = (cleanup_from 0 g.deferred g.tasks, record g { deferred = no_signals })

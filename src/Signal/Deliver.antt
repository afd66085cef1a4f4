-- ===== src/Signal/Deliver.antt =====
-- `deliver_pending` and `deliver_pending_after_switch`, on the way back to user space. Bit 31 stands for no signal and is never raised.
use felix.Prelude.{
  ℕ, suc, ◌+◌, ◌-◌, ◌%◌, ◌^◌, Bool, true, false, ◌&&◌, ◌||◌, not, Option, none, some, List, [], ◌∷◌,
  ◌==◌, if◌then◌else◌, get_or,
}
use felix.Task.Defs.{Task, System, no_signals}
use felix.Task.Table.{change_task, process_slot}
use felix.Task.Schedule.{schedule, with_tasks}
use felix.Signal.Defs.{force_kill, discard, default_terminate, lowest_from}

-- What `deliver_pending` uses of the saved state, whose address is the stack pointer.
pub record Frame : Type 0 where
  pub cs : ℕ
  pub eip : ℕ
  pub esp : ℕ

-- The kernel on the way back to user space: the saved state at the stack pointer, and the words of
-- the user's memory.
pub record Interrupt : Type 0 where
  pub system : System
  pub deferred : List Bool
  pub frame : Frame
  pub memory : ℕ → ℕ

abbrev pub any_bit : List Bool → Bool
any_bit [] = false
any_bit (b ∷ bs) = b || any_bit bs

abbrev pub bits_and : (ℕ → Bool) → ℕ → List Bool → List Bool
bits_and p k [] = []
bits_and p k (b ∷ bs) = (b && p (suc k)) ∷ bits_and p (suc k) bs

-- The signals of a task that can take them.
abbrev pub deliverable : Option Task → List Bool
deliverable none = []
deliverable (some t) = if t.running && not t.zombie then t.pending_signals else []

abbrev pub handlers_of : Option Task → List ℕ
handlers_of none = []
handlers_of (some t) = t.signal_handlers

abbrev pub clear_signal : ℕ → Task → Task
clear_signal sig t = record t { pending_signals = discard sig t.pending_signals }

abbrev pub drop_signal : ℕ → ℕ → Interrupt → Interrupt
drop_signal slot sig ι = record ι {
  system = with_tasks ι.system (change_task (clear_signal sig) slot ι.system.manager.tasks);
}

-- `wrapping_sub(4)` on a stack pointer.
abbrev pub below : ℕ → ℕ
below p = (p + (2 ^ 32 - 4)) % 2 ^ 32

abbrev pub store : ℕ → ℕ → (ℕ → ℕ) → ℕ → ℕ
store p w memory q = if q == p then w else memory q

-- The call of a handler: the signal and then the return address go on the user's stack.
abbrev pub call_handler : ℕ → ℕ → Interrupt → Interrupt
call_handler sig handler ι =
    let first = below ι.frame.esp in
    let second = below first in
    record ι {
      frame = record ι.frame { esp = second; eip = handler };
      memory = store second ι.frame.eip (store first sig ι.memory);
    }

abbrev pub switched : Interrupt → Option (ℕ × System) → Option (ℕ × Interrupt)
switched ι none = none
switched ι (some (p, σ)) = some (p, record ι { system = σ })

-- The kill of the process, and the switch away from it.
abbrev pub kill_and_switch : ℕ → ℕ → ℕ → ℕ → ℕ → Interrupt → Option (ℕ × Interrupt)
kill_and_switch cpu now esp slot sig ι =
    let killed =
      (force_kill slot sig (record { tasks = ι.system.manager.tasks; deferred = ι.deferred })).1 in
    switched (record ι { deferred = killed.deferred })
      (schedule cpu now esp (with_tasks ι.system killed.tasks))

abbrev pub forget_signals : Task → Task
forget_signals t = record t { pending_signals = no_signals }

abbrev pub after_slot : ℕ → ℕ → ℕ → ℕ → Interrupt → Option (ℕ × Interrupt)
after_slot cpu now esp slot ι =
    let pending = deliverable (get_or ι.system.manager.tasks slot none) in
    if not (any_bit pending)
    then some (esp, ι)
    else elim (lowest_from 0 (bits_and default_terminate 0 pending)) [
      | none ↦ some (
        esp,
        record ι {
          system = with_tasks ι.system (change_task forget_signals slot ι.system.manager.tasks);
        },
      )
      | some sig ↦ kill_and_switch cpu now esp slot sig ι
    ]

-- The slot that a CPU runs, the idle task aside.
abbrev pub busy_slot : Option ℕ → Option ℕ
busy_slot none = none
busy_slot (some s) = if s == 0 then none else some s

abbrev pub deliver_pending_after_switch : ℕ → ℕ → ℕ × Interrupt → Option (ℕ × Interrupt)
deliver_pending_after_switch cpu now (esp, ι) = elim (busy_slot (get_or ι.system.on_cpu cpu none)) [
  | none ↦ some (esp, ι)
  | some s ↦ after_slot cpu now esp (process_slot ι.system.manager.tasks s) ι
]

abbrev pub then_after : ℕ → ℕ → Option (ℕ × Interrupt) → Option (ℕ × Interrupt)
then_after cpu now none = none
then_after cpu now (some r) = deliver_pending_after_switch cpu now r

-- The loop over the pending signals, from the lowest up: `bits` is what remains of them from bit `k`.
unfoldable pub deliver_loop : ℕ → ℕ → ℕ → ℕ → ℕ → List Bool → Interrupt → Option (ℕ × Interrupt)
deliver_loop cpu now esp slot k [] ι = some (esp, ι)
deliver_loop cpu now esp slot k (false ∷ bits) ι = deliver_loop cpu now esp slot (suc k) bits ι
deliver_loop cpu now esp slot k (true ∷ bits) ι =
    let sig = suc k in
    let handler = get_or (handlers_of (get_or ι.system.manager.tasks slot none)) k 0 in
    let dropped = drop_signal slot sig ι in
    let rest = deliver_loop cpu now esp slot (suc k) bits dropped in
    if handler == 1
    then rest
    else (if not (handler == 0)
        then some (esp, call_handler sig handler dropped)
        else (if default_terminate sig
            then then_after cpu now (kill_and_switch cpu now esp slot sig ι)
            else rest))

unfoldable pub deliver_pending : ℕ → ℕ → ℕ → Interrupt → Option (ℕ × Interrupt)
deliver_pending cpu now esp ι =
    if not (ι.frame.cs % 4 == 3)
    then some (esp, ι)
    else elim (busy_slot (get_or ι.system.on_cpu cpu none)) [
      | none ↦ some (esp, ι)
      | some s ↦
          (let slot = process_slot ι.system.manager.tasks s in
            deliver_loop cpu now esp slot 0 (deliverable (get_or ι.system.manager.tasks slot none))
              ι)
    ]

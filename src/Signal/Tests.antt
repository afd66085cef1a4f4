-- ===== src/Signal/Tests.antt =====
-- Signals on a small table: a process of two threads in slots 1 and 2, and its child in slot 3.
use felix.Prelude.{
  ℕ, ◌≡◌, refl, true, false, ◌&&◌, none, some, ◌∷◌, if◌then◌else◌, get_or, replicate, drop, pos,
  arith,
}
use felix.Task.Defs.{Slots, Task, block, child, no_signals}
use felix.Task.Table.{task_for, is_zombie}
use felix.Task.Family.{child_of}
use felix.Signal.Defs.{
  Signals, force_kill, drain_deferred_cleanup, stop_task_with_signal, continue_task, sigint,
  sigtstp, raise,
}
use felix.Signal.InSlot.{InSlot}
use felix.Signal.Deliver.{Interrupt, deliver_pending}
use felix.Signal.First.{with_mask}
use felix.Signal.Delivered.{called_back, deliver_pending-first}
use felix.Signal.Kill.{LedKilled, force_kill-lem}
use felix.Signal.Cleanup.{occurrences, drain_deferred_cleanup-once}
use felix.Signal.Stop.{StopContinue, stop-continue}

abbrev leader_task : Task
leader_task = task_for 1 (pos 1) 4096

abbrev thread_task : Task
thread_task = record (block child (task_for 2 (pos 1) 4096)) {
  leader_slot = some 1;
  is_thread = true;
}

abbrev child_task : Task
child_task = record (task_for 3 (pos 7) 4096) { ppid = pos 1; parent = some 1 }

abbrev table : Slots
table =
    some (task_for 0 (pos 0) 4096)
    ∷ some leader_task
    ∷ some thread_task
    ∷ some child_task
    ∷ replicate 28 none

abbrev signals : Signals
signals = record { tasks = table; deferred = no_signals }

-- The signal reaches the process by the slot of its second thread.
force_kill-lem_example :
    ((force_kill 2 sigint signals).0 ≡ true)
    × ((k : ℕ) → InSlot (LedKilled 1 sigint) (get_or (force_kill 2 sigint signals).1.tasks k none))
    × (is_zombie (get_or (force_kill 2 sigint signals).1.tasks 1 none) ≡ true)
    × (get_or (force_kill 2 sigint signals).1.deferred 1 false ≡ true)
    × ((k : ℕ) → child_of (pos 1) (get_or (force_kill 2 sigint signals).1.tasks k none) ≡ false)
force_kill-lem_example =
    force_kill-lem 2 sigint 1 0 leader_task signals (omega arith) refl refl refl refl (omega arith)

drain_deferred_cleanup-once_example :
    (occurrences 1 (drain_deferred_cleanup (force_kill 2 sigint signals).1).0 ≡ (
      if get_or (force_kill 2 sigint signals).1.deferred 1 false
        && is_zombie (get_or (force_kill 2 sigint signals).1.tasks 1 none)
      then 1
      else 0))
    × (occurrences 1
          (drain_deferred_cleanup (drain_deferred_cleanup (force_kill 2 sigint signals).1).1).0
        ≡ 0)
drain_deferred_cleanup-once_example = drain_deferred_cleanup-once (force_kill 2 sigint signals).1 1

stop-continue_example :
    StopContinue 1 sigtstp 2
      (stop_task_with_signal 1 sigtstp table)
      (continue_task 1 (stop_task_with_signal 1 sigtstp table).1)
stop-continue_example =
    stop-continue 1 sigtstp 2 leader_task thread_task table
      (record {
        started = omega arith;
        here = refl;
        leads = refl;
        live = refl;
        going = refl;
        active = refl;
      })
      (record { here = refl; led_by = refl; active = refl })

-- The leader ignores the signal 1, handles the signal 2, and has both pending, with the signal 15.
abbrev signalled : Task
signalled = record leader_task {
  signal_handlers = 1 ∷ 4096 ∷ replicate 30 0;
  pending_signals = raise 1 (raise 2 (raise 15 no_signals));
}

-- CPU 0 is about to leave for the second thread.
abbrev entered : Interrupt
entered = record {
  system = record {
    manager = record {
      tasks = some (task_for 0 (pos 0) 4096) ∷ some signalled ∷ drop 2 table;
      task_count = pos 4;
      current_task = some 2;
      first_switch = false;
      next_pid = pos 4;
    };
    task_owner = none ∷ none ∷ some 0 ∷ replicate 29 none;
    on_cpu = some 2 ∷ replicate 63 none;
    idle_esp = replicate 64 0;
    eax = λ p. 0;
  };
  deferred = no_signals;
  frame = record { cs = 27; eip = 70000; esp = 90000 };
  memory = λ p. 0;
}

deliver_pending-first_example :
    deliver_pending 0 5 8192 entered
    ≡ some (
      8192,
      called_back 2 4096 (with_mask 1 (false ∷ false ∷ raise 13 (replicate 30 false)) entered),
    )
deliver_pending-first_example =
    deliver_pending-first 0 5 8192 1 2 signalled entered refl refl refl (omega arith) (omega arith)
      refl refl refl refl refl refl

-- ===== src/Task/Schedule.antt =====
-- `schedule` and `schedule_ap`: the switch of a CPU from the task it ran to the one it claims. The
-- FPU image, the kernel stack of the CPU and the page directory are the hardware's side of a switch.
use felix.Prelude.{
  ℕ, Bool, false, not, Option, none, some, ◌==◌, ltb, if◌then◌else◌, set, get_or, is_some,
}
use felix.Task.Defs.{Slots, Task, System, child, thread, runnable, running_on}
use felix.Task.Claim.{claim_next_task}
use felix.Task.Table.{change_task, wake_waiters, wake_expired_timers, expired_eax}

-- The task keeps the address of its saved state, and can be claimed again if it still runs.
abbrev pub save_task : ℕ → Task → Task
save_task esp t =
    if t.running
    then record t { cpu_state_ptr = esp; state = runnable }
    else record t { cpu_state_ptr = esp }

abbrev pub with_tasks : System → Slots → System
with_tasks σ tasks = record σ { manager = record σ.manager { tasks = tasks } }

-- `TASK_OWNER[s].store(-1)` and the wake-up of those that wait for the exit of a child or a thread.
abbrev pub give_up : ℕ → System → System
give_up s σ =
    let freed = record σ { task_owner = set σ.task_owner s none } in
    with_tasks freed (wake_waiters thread (wake_waiters child freed.manager.tasks).1).1

abbrev pub state_ptr : Option Task → Option ℕ
state_ptr none = none
state_ptr (some t) = some t.cpu_state_ptr

-- The switch to a slot: the state to resume, or `none` for the panic of `unwrap`.
abbrev pub resume : ℕ → Option ℕ → System → Option (ℕ × System)
resume cpu none σ = none
resume cpu (some ptr) σ = some (ptr, σ)

abbrev pub run_on : ℕ → ℕ → System → Option (ℕ × System)
run_on cpu s σ =
    let tasks = σ.manager.tasks in
    resume cpu (state_ptr (get_or tasks s none)) (
      with_tasks (record σ { on_cpu = set σ.on_cpu cpu (some s) })
        (change_task (λ t. record t { state = running_on cpu }) s tasks))

abbrev pub runs : Option Task → Bool
runs none = false
runs (some t) = t.running

-- The boot CPU runs the task of slot 0 when it claims none.
abbrev pub run_bsp : ℕ → System → Option (ℕ × System)
run_bsp s σ =
    let m = record σ.manager { current_task = some s } in run_on 0 s (record σ { manager = m })

abbrev pub first_run : System → Option (ℕ × System)
first_run σ =
    let claimed = claim_next_task σ.manager.tasks σ.on_cpu σ.task_owner 0 (some 0) in
    let m = record σ.manager { first_switch = false } in
    run_bsp claimed.0 (record σ { manager = m; task_owner = claimed.1 })

abbrev pub save_bsp : ℕ → Option ℕ → System → System
save_bsp esp none σ = σ
save_bsp esp (some s) σ =
    let saved = with_tasks σ (change_task (save_task esp) s σ.manager.tasks) in
    if ltb 0 s then give_up s saved else saved

abbrev pub next_run : System → Option (ℕ × System)
next_run σ =
    let claimed = claim_next_task σ.manager.tasks σ.on_cpu σ.task_owner 0 σ.manager.current_task in
    let s = claimed.0 in
    run_bsp (if runs (get_or σ.manager.tasks s none) then s else 0)
      (record σ { task_owner = claimed.1 })

abbrev pub schedule_bsp : ℕ → System → Option (ℕ × System)
schedule_bsp esp σ =
    if not (is_some (get_or σ.manager.tasks 0 none))
    then some (esp, σ)
    else (if σ.manager.first_switch
        then first_run σ
        else next_run (save_bsp esp σ.manager.current_task σ))

abbrev pub save_ap : ℕ → ℕ → Option ℕ → System → System
save_ap cpu esp none σ = record σ { idle_esp = set σ.idle_esp cpu esp }
save_ap cpu esp (some s) σ =
    if is_some (get_or σ.manager.tasks s none)
    then give_up s (with_tasks σ (change_task (save_task esp) s σ.manager.tasks))
    else σ

-- An application CPU without a task goes back to its idle loop.
abbrev pub idle_on : ℕ → ℕ → System → Option (ℕ × System)
idle_on cpu esp σ =
    let idle = get_or σ.idle_esp cpu 0 in
    some (if idle == 0 then esp else idle, record σ { on_cpu = set σ.on_cpu cpu none })

abbrev pub claim_on : ℕ → Option ℕ → ℕ → System → Option (ℕ × System)
claim_on cpu previous esp σ =
    let claimed = claim_next_task σ.manager.tasks σ.on_cpu σ.task_owner cpu previous in
    let owned = record σ { task_owner = claimed.1 } in
    if claimed.0 == 0 then idle_on cpu esp owned else run_on cpu claimed.0 owned

abbrev pub schedule_ap : ℕ → ℕ → System → Option (ℕ × System)
schedule_ap cpu esp σ =
    let previous = get_or σ.on_cpu cpu none in
    claim_on cpu previous esp (save_ap cpu esp previous σ)

abbrev pub expire_timers : ℕ → System → System
expire_timers now σ = record (with_tasks σ (wake_expired_timers now σ.manager.tasks)) {
  eax = expired_eax now σ.manager.tasks σ.eax;
}

-- `schedule` on a CPU, at an uptime, with the state that the interrupt saved.
unfoldable pub schedule : ℕ → ℕ → ℕ → System → Option (ℕ × System)
schedule cpu now esp σ =
    let woken = expire_timers now σ in
    if cpu == 0 then schedule_bsp esp woken else schedule_ap cpu esp woken

-- ===== src/Signal/Delivered.antt =====
-- What `deliver_pending` leaves of the interrupted program and of the process, by its first signal that
-- has an effect.
use felix.Prelude.{
  ℕ, suc, ◌+◌, ◌-◌, ◌^◌, ◌%◌, ◌<◌, ◌≡◌, refl, sym, ap, ◌∙◌, subst, Bool, true, false, Option, none,
  some, List, ◌∷◌, ◌==◌, if◌then◌else◌, get_or, length, ==_self, Bool-cases, inl, inr, arith,
}
use felix.Task.Defs.{Task, System, no_signals}
use felix.Task.Table.{on_task, process_slot, leader_or}
use felix.Task.Lookups.{get_or-change_task}
use felix.Task.Schedule.{with_tasks, schedule}
use felix.Signal.Defs.{Signals, force_kill}
use felix.Signal.Kill.{KilledIn, force_kill-KilledIn}
use felix.Signal.Deliver.{
  switched, Interrupt, call_handler, kill_and_switch, busy_slot, then_after, deliver_pending,
}
use felix.Signal.First.{
  first_effective, mask_with, with_mask, from_bit, outcome, deliver_pending-outcome,
}

-- The interrupted program, called back: below its stack pointer stand the signal and then the address
-- at which it was, and it goes on at the handler.
abbrev pub called_back : ℕ → ℕ → Interrupt → Interrupt
called_back sig handler ι =
    let first = (ι.frame.esp + (2 ^ 32 - 4)) % 2 ^ 32 in
    let second = (ι.frame.esp + (2 ^ 32 - 8)) % 2 ^ 32 in
    record ι {
      frame = record { cs = ι.frame.cs; eip = handler; esp = second };
      memory = λ q. if q == second then ι.frame.eip else if q == first then sig else ι.memory q;
    }

call_handler-called_back :
    (sig handler : ℕ) (ι : Interrupt) → call_handler sig handler ι ≡ called_back sig handler ι
call_handler-called_back sig handler ι =
    let first = (ι.frame.esp + (2 ^ 32 - 4)) % 2 ^ 32 in
    ap
      (λ second. record ι {
        frame = record { cs = ι.frame.cs; eip = handler; esp = second };
        memory = λ q. if q == second then ι.frame.eip else if q == first then sig else ι.memory q;
      })
      (omega arith)

-- The process is killed in the system from which the CPU switches, and nothing else has changed but
-- the task table and the published cleanups; the task that the CPU then has is looked at again.
abbrev pub KilledAndLeft : ℕ → ℕ → ℕ → ℕ → ℕ → Interrupt → Option (ℕ × Interrupt) → Type 0
KilledAndLeft cpu now esp slot sig ι r =
    (κ : Interrupt) × KilledIn slot sig
      (record { tasks = κ.system.manager.tasks; deferred = κ.deferred })
    × (κ ≡ record ι { system = with_tasks ι.system κ.system.manager.tasks; deferred = κ.deferred })
    × (r ≡ then_after cpu now (switched κ (schedule cpu now esp κ.system)))

-- What the delivery leaves, by the first signal that has an effect, its bit and the bits above it.
abbrev pub Delivered :
    ℕ → ℕ → ℕ → ℕ → Interrupt → List ℕ → Option (ℕ × List Bool) → Option (ℕ × Interrupt) → Type 0
Delivered cpu now esp slot ι hs none r = r ≡ some (esp, with_mask slot no_signals ι)
Delivered cpu now esp slot ι hs (some (k, bits)) r =
    if get_or hs k 0 == 0
    then KilledAndLeft cpu now esp slot (suc k) ι r
    else r
      ≡ some (esp, called_back (suc k) (get_or hs k 0) (with_mask slot (from_bit (suc k) bits) ι))

module _ (cpu now esp slot : ℕ) (t : Task) (ι : Interrupt) (low : 0 < slot)
    (here : get_or ι.system.manager.tasks slot none ≡ some t) (leads : t.leader_slot ≡ some slot)
    (live : t.zombie ≡ false) (bit : slot < length ι.deferred) where
  module _ (m : List Bool) where
    masked_here : get_or (with_mask slot m ι).system.manager.tasks slot none ≡ some (mask_with m t)
    masked_here =
        get_or-change_task (mask_with m) slot ι.system.manager.tasks slot
        ∙ ap
            (λ b.
              if b
              then on_task (mask_with m) (get_or ι.system.manager.tasks slot none)
              else get_or ι.system.manager.tasks slot none)
            (==_self slot)
        ∙ ap (on_task (mask_with m)) here

    switched-system :
        (κ : Interrupt) (σ : System) (r : Option (ℕ × System))
        → switched (record κ { system = σ }) r ≡ switched κ r
    switched-system κ σ none = refl
    switched-system κ σ (some (p, τ)) = refl

    kill_and_switch-KilledAndLeft :
        (sig : ℕ)
        → KilledAndLeft cpu now esp slot sig ι
            (then_after cpu now (kill_and_switch cpu now esp slot sig (with_mask slot m ι)))
    kill_and_switch-KilledAndLeft sig =
        let μ = with_mask slot m ι in
        let g : Signals = record { tasks = μ.system.manager.tasks; deferred = μ.deferred } in
        let killed = (force_kill slot sig g).1 in
        let κ = record μ { deferred = killed.deferred } in
        let σ = with_tasks μ.system killed.tasks in
        let leader : process_slot μ.system.manager.tasks slot ≡ slot =
          ap (leader_or slot) masked_here ∙ rw leads refl in
        (
          record κ { system = σ },
          force_kill-KilledIn slot sig slot (mask_with m t) g low leader masked_here live bit,
          refl,
          ap (then_after cpu now) (sym (switched-system κ σ (schedule cpu now esp σ))),
        )

  outcome-Delivered :
      (hs : List ℕ) (r : Option (ℕ × List Bool))
      → Delivered cpu now esp slot ι hs r (outcome cpu now esp slot ι hs 32 r)
  outcome-Delivered hs none = refl
  outcome-Delivered hs (some (k, bits)) = elim (Bool-cases (get_or hs k 0 == 0)) [
    | inl h ↦ rw h (kill_and_switch-KilledAndLeft (from_bit k (true ∷ bits)) (suc k))
    | inr h ↦ rw h (
        ap (λ j. some (esp, j))
          (call_handler-called_back (suc k) (get_or hs k 0)
            (with_mask slot (from_bit (suc k) bits) ι)))
  ]

-- On the way back to user mode, where the leader of the process that the CPU runs leads itself, is
-- running and no zombie, has a slot other than 0 with a bit for its cleanup, and 32 bits of pending
-- signals without the bit 31: the lowest signal that has an effect takes it. If the signal has a
-- handler, those up to it are dropped and those above it still pending, and the program goes on at the
-- handler, with the signal and the address at which it was on its stack. If it has none, the process
-- is killed, its cleanup is published, and the CPU switches away by `schedule`, with nothing else
-- changed, to a task that `deliver_pending_after_switch` looks at. If no signal has an effect, all are
-- dropped and the task goes on where it was.
pub deliver_pending-first :
    (cpu now esp slot s : ℕ) (t : Task) (ι : Interrupt)
    → ι.frame.cs % 4 ≡ 3
    → busy_slot (get_or ι.system.on_cpu cpu none) ≡ some s
    → process_slot ι.system.manager.tasks s ≡ slot
    → 0 < slot
    → slot < length ι.deferred
    → get_or ι.system.manager.tasks slot none ≡ some t
    → t.leader_slot ≡ some slot
    → t.running ≡ true
    → t.zombie ≡ false
    → length t.pending_signals ≡ 32
    → get_or t.pending_signals 31 false ≡ false
    → Delivered cpu now esp slot ι t.signal_handlers
        (first_effective t.signal_handlers 0 t.pending_signals)
        (deliver_pending cpu now esp ι)
deliver_pending-first cpu now esp slot s t ι user busy leader low bit here leads runs live word
      last =
    subst
      (Delivered cpu now esp slot ι t.signal_handlers
        (first_effective t.signal_handlers 0 t.pending_signals))
      (sym
        (deliver_pending-outcome cpu now esp slot s t ι user busy leader here runs live word last))
      (outcome-Delivered cpu now esp slot t ι low here leads live bit t.signal_handlers
        (first_effective t.signal_handlers 0 t.pending_signals))

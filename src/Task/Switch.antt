-- ===== src/Task/Switch.antt =====
-- `schedule` on each CPU, against the owners of the slots, and the systems that it can reach.
use felix.Prelude.{
  ℕ, zero, suc, ◌<◌, ◌≡◌, ◌≢◌, refl, sym, ap, ◌∙◌, subst, Bool, true, false, ◌&&◌, not, Option,
  none, some, List, ◌==◌, ltb, if◌then◌else◌, set, get_or, is_some, get_or-set_ne, get_or-set_self,
  ==_iff, ==_self, Bool-cases, Option-cases, if_intro, inl, inr, arith, length-set,
}
use mathlib.Core.Bool.{true≢false, false≢true}
use mathlib.Core.Option.{some-injective, none-ne-some}
use felix.Task.Defs.{
  Slots, Task, TaskState, TaskManager, System, max_tasks, ready, is_runnable, running_on, child,
  thread,
}
use felix.Task.Claim.{claim_next_task}
use felix.Task.Table.{on_task, change_task, wake_waiters}
use felix.Task.Schedule.{
  save_task, with_tasks, give_up, run_on, runs, run_bsp, first_run, save_bsp, next_run,
  schedule_bsp, save_ap, idle_on, claim_on, schedule_ap, expire_timers, schedule,
}
use felix.Task.Exclusive.{max_cpus, Owning, Every, Other, claim-Claimed}
use felix.Task.Lookups.{is_some-map_tasks, is_some-change_task, get_or-change_task}

abbrev pub state_of : Option Task → Option TaskState
state_of none = none
state_of (some t) = some t.state

pub record Inv (σ : System) : Type 0 where
  pub owning : Owning Every σ.task_owner σ.on_cpu
  pub bsp : σ.manager.current_task ≡ get_or σ.on_cpu 0 none
  pub idle : is_some (get_or σ.manager.tasks 0 none) ≡ true

abbrev pub saved_at : Option Task → Option ℕ
saved_at none = none
saved_at (some t) = some t.cpu_state_ptr

-- An address is that of the saved state of what a CPU runs: of the task in its slot, which is in that
-- state, or without a slot that of its idle loop.
abbrev pub RunsIn : ℕ → Slots → ℕ → ℕ → Option ℕ → Type 0
RunsIn idle tasks cpu p none = p ≡ idle
RunsIn idle tasks cpu p (some s) =
    (state_of (get_or tasks s none) ≡ some (running_on cpu))
    × (saved_at (get_or tasks s none) ≡ some p)

-- The idle loop of a CPU is where it was left, and at first the interrupted state.
abbrev pub idle_at : ℕ → ℕ → System → ℕ
idle_at cpu esp τ = if get_or τ.idle_esp cpu 0 == 0 then esp else get_or τ.idle_esp cpu 0

abbrev pub Runs : ℕ → ℕ → ℕ → System → Type 0
Runs cpu esp p τ = RunsIn (idle_at cpu esp τ) τ.manager.tasks cpu p (get_or τ.on_cpu cpu none)

-- A switch returns the state to resume, and leaves a system with the invariant.
abbrev pub Switched : ℕ → ℕ → Option (ℕ × System) → Type 0
Switched cpu esp r = (p : ℕ) × (τ : System) × (r ≡ some (p, τ)) × Inv τ × Runs cpu esp p τ

Owning-put :
    (owners on_cpu : List (Option ℕ)) (cpu : ℕ) (o : Option ℕ)
    → Owning (Other cpu) owners on_cpu
    → cpu < max_cpus
    → ((s : ℕ) → o ≡ some s → (s < max_tasks) × (0 < s → get_or owners s none ≡ some cpu))
    → Owning Every owners (set on_cpu cpu o)
Owning-put owners on_cpu cpu o v low h = record {
  slots = v.slots;
  count = length-set on_cpu cpu o ∙ v.count;
  range = λ c s e. elim (Bool-cases (c == cpu)) [
    | inl k ↦ (h s (here c k s e)).0
    | inr k ↦ v.range c s (other c k ∙ e)
  ];
  owner = λ c s u pos e. elim (Bool-cases (c == cpu)) [
    | inl k ↦ (h s (here c k s e)).1 pos ∙ ap some (sym ((==_iff c cpu).0 k))
    | inr k ↦ v.owner c s (apart c k) pos (other c k ∙ e)
  ];
}
  where
    apart : (c : ℕ) → (c == cpu) ≡ false → c ≢ cpu
    apart c k e = true≢false (sym ((==_iff c cpu).1 e) ∙ k)

    here :
        (c : ℕ)
        → (c == cpu) ≡ true
        → (s : ℕ) → get_or (set on_cpu cpu o) c none ≡ some s
        → o ≡ some s
    here c k s e =
        sym (get_or-set_self on_cpu cpu o none (omega (arith, v.count)))
        ∙ ap (λ d. get_or (set on_cpu cpu o) d none) (sym ((==_iff c cpu).0 k))
        ∙ e

    other : (c : ℕ) → (c == cpu) ≡ false → get_or on_cpu c none ≡ get_or (set on_cpu cpu o) c none
    other c k = sym (get_or-set_ne on_cpu cpu c o none (λ e. apart c k (sym e)))

run_on-Switched :
    (cpu esp s : ℕ) (σ : System)
    → cpu < max_cpus
    → s < max_tasks
    → Owning (Other cpu) σ.task_owner σ.on_cpu
    → (0 < s → get_or σ.task_owner s none ≡ some cpu)
    → σ.manager.current_task ≡ get_or (set σ.on_cpu cpu (some s)) 0 none
    → is_some (get_or σ.manager.tasks 0 none) ≡ true
    → is_some (get_or σ.manager.tasks s none) ≡ true
    → Switched cpu esp (run_on cpu s σ)
run_on-Switched cpu esp s σ low small v own bsp idle full =
    elim (Option-cases (get_or σ.manager.tasks s none)) [
      | inl e ↦ absurd (false≢true (ap is_some (sym e) ∙ full))
      | inr (t, e) ↦ (
        t.cpu_state_ptr,
        after,
        rw e refl,
        record {
          owning = Owning-put σ.task_owner σ.on_cpu cpu (some s) v low (λ r q.
              let same = some-injective s r q in
              (
                subst (λ r. r < max_tasks) same small,
                subst (λ r. 0 < r → get_or σ.task_owner r none ≡ some cpu) same own,
              ));
          bsp = bsp;
          idle =
              is_some-change_task (λ t. record t { state = running_on cpu }) s σ.manager.tasks 0
              ∙ idle;
        },
        subst (RunsIn (idle_at cpu esp after) after.manager.tasks cpu t.cpu_state_ptr)
            (sym (get_or-set_self σ.on_cpu cpu (some s) none (omega (arith, v.count))))
            (runs_there t e, saved_there t e),
      )
    ]
  where
    after : System
    after =
        with_tasks (record σ { on_cpu = set σ.on_cpu cpu (some s) })
          (change_task (λ t. record t { state = running_on cpu }) s σ.manager.tasks)

    runs_there :
        (t : Task)
        → get_or σ.manager.tasks s none ≡ some t
        → state_of (get_or after.manager.tasks s none) ≡ some (running_on cpu)
    runs_there t e =
        let mark : Task → Task = λ t. record t { state = running_on cpu } in
        ap state_of (get_or-change_task mark s σ.manager.tasks s)
        ∙ rw (==_self s) (ap (λ o. state_of (on_task mark o)) e)

    saved_there :
        (t : Task)
        → get_or σ.manager.tasks s none ≡ some t
        → saved_at (get_or after.manager.tasks s none) ≡ some t.cpu_state_ptr
    saved_there t e =
        let mark : Task → Task = λ t. record t { state = running_on cpu } in
        ap saved_at (get_or-change_task mark s σ.manager.tasks s)
        ∙ rw (==_self s) (ap (λ o. saved_at (on_task mark o)) e)

Owning-but :
    (owners on_cpu : List (Option ℕ)) (cpu : ℕ)
    → Owning Every owners on_cpu
    → Owning (Other cpu) owners on_cpu
Owning-but owners on_cpu cpu v = record {
  slots = v.slots;
  count = v.count;
  range = v.range;
  owner = λ c s ne. v.owner c s tt;
}

-- A CPU gives up the slot that it runs.
Owning-give :
    (owners on_cpu : List (Option ℕ)) (cpu s : ℕ)
    → get_or on_cpu cpu none ≡ some s
    → Owning Every owners on_cpu
    → Owning (Other cpu) (set owners s none) on_cpu
Owning-give owners on_cpu cpu s at v = record {
  slots = length-set owners s none ∙ v.slots;
  count = v.count;
  range = v.range;
  owner = λ c r ne pos e.
      let apart : s ≢ r = λ q.
        let mine = v.owner cpu s tt (omega (arith, q)) at in
        let theirs = v.owner c r tt pos e in
        ne (some-injective c cpu (sym theirs ∙ ap (λ k. get_or owners k none) (sym q) ∙ mine)) in
      get_or-set_ne owners s r none none apart ∙ v.owner c r tt pos e;
}

pub runs-ready : (o : Option Task) → ready o ≡ true → runs o ≡ true
runs-ready none h = h
runs-ready (some t) h =
    left t.running (is_runnable t.state) (left _ (not t.zombie) (left _ (not t.thread_exited) h))
  where
    left : (a b : Bool) → (a && b) ≡ true → a ≡ true
    left true b h = refl
    left false b h = h

is_some-ready : (o : Option Task) → ready o ≡ true → is_some o ≡ true
is_some-ready none h = h
is_some-ready (some t) h = refl

-- The choice that the boot CPU makes of a claimed slot is that slot.
pub chosen : (r : ℕ) (b : Bool) → (0 < r → b ≡ true) → (if b then r else 0) ≡ r
chosen r true h = refl
chosen zero false h = refl
chosen (suc r) false h = absurd (false≢true (h (omega arith)))

full_slot :
    (tasks : Slots) (r : ℕ)
    → is_some (get_or tasks 0 none) ≡ true
    → (0 < r → ready (get_or tasks r none) ≡ true)
    → is_some (get_or tasks r none) ≡ true
full_slot tasks zero idle h = idle
full_slot tasks (suc r) idle h = is_some-ready _ (h (omega arith))

module _ (σ : System) (esp : ℕ) where
  -- The boot CPU runs what it claims.
  run_bsp-Switched :
      (a : ℕ)
      → a < max_tasks
      → (m : TaskManager) → m.tasks ≡ σ.manager.tasks
      → Owning (Other 0) σ.task_owner σ.on_cpu
      → is_some (get_or σ.manager.tasks 0 none) ≡ true
      → (s : ℕ) → s ≡ (claim_next_task σ.manager.tasks σ.on_cpu σ.task_owner 0 (some a)).0
      → Switched 0 esp (
          run_bsp s (record σ {
            manager = m;
            task_owner = (claim_next_task σ.manager.tasks σ.on_cpu σ.task_owner 0 (some a)).1;
          }))
  run_bsp-Switched a low m same v idle s is =
      let k = claim-Claimed σ.manager.tasks σ.on_cpu σ.task_owner 0 a low v in
      run_on-Switched 0 esp s _ (omega arith) (omega (arith, is, k.small)) k.others
        (λ p.
          ap
            (λ s.
              get_or (claim_next_task σ.manager.tasks σ.on_cpu σ.task_owner 0 (some a)).1 s none)
            is
          ∙ k.taken (omega (arith, is, p)))
        (sym (get_or-set_self σ.on_cpu 0 (some s) none (omega (arith, v.count))))
        (ap (λ ts. is_some (get_or ts 0 none)) same ∙ idle)
        (ap (λ ts. is_some (get_or ts s none)) same
          ∙ full_slot σ.manager.tasks s idle (λ p.
            ap (λ s. ready (get_or σ.manager.tasks s none)) is ∙ k.picked (omega (arith, is, p))))

-- A system between two tasks of a CPU: what a save leaves of the invariant.
record Saved (cpu : ℕ) (σ : System) : Type 0 where
  owning : Owning (Other cpu) σ.task_owner σ.on_cpu
  bsp : σ.manager.current_task ≡ get_or σ.on_cpu 0 none
  idle : is_some (get_or σ.manager.tasks 0 none) ≡ true

idle-wake :
    (tasks : Slots)
    → is_some (get_or tasks 0 none) ≡ true
    → is_some (get_or (wake_waiters thread (wake_waiters child tasks).1).1 0 none) ≡ true
unfolding wake_waiters
idle-wake tasks h = is_some-map_tasks _ _ 0 ∙ is_some-map_tasks _ tasks 0 ∙ h

idle-save :
    (tasks : Slots) (esp s : ℕ)
    → is_some (get_or tasks 0 none) ≡ true
    → is_some (get_or (change_task (save_task esp) s tasks) 0 none) ≡ true
idle-save tasks esp s h = is_some-change_task (save_task esp) s tasks 0 ∙ h

given-Saved :
    (σ : System) (cpu esp s : ℕ)
    → get_or σ.on_cpu cpu none ≡ some s
    → Inv σ
    → Saved cpu (give_up s (with_tasks σ (change_task (save_task esp) s σ.manager.tasks)))
given-Saved σ cpu esp s at v = record {
  owning = Owning-give σ.task_owner σ.on_cpu cpu s at v.owning;
  bsp = v.bsp;
  idle = idle-wake _ (idle-save σ.manager.tasks esp s v.idle);
}

plain-Saved : (σ : System) (cpu : ℕ) → Inv σ → Saved cpu σ
plain-Saved σ cpu v = record {
  owning = Owning-but σ.task_owner σ.on_cpu cpu v.owning;
  bsp = v.bsp;
  idle = v.idle;
}

save_bsp-Saved :
    (σ : System) (esp : ℕ) (o : Option ℕ)
    → get_or σ.on_cpu 0 none ≡ o
    → Inv σ
    → Saved 0 (save_bsp esp o σ)
save_bsp-Saved σ esp none at v = plain-Saved σ 0 v
save_bsp-Saved σ esp (some s) at v =
    let saved = with_tasks σ (change_task (save_task esp) s σ.manager.tasks) in
    if_intro (Saved 0) (ltb 0 s) (give_up s saved) saved (λ h. given-Saved σ 0 esp s at v)
      (λ h. record {
        owning = Owning-but σ.task_owner σ.on_cpu 0 v.owning;
        bsp = v.bsp;
        idle = idle-save σ.manager.tasks esp s v.idle;
      })

first_run-Switched : (σ : System) (esp : ℕ) → Inv σ → Switched 0 esp (first_run σ)
first_run-Switched σ esp v =
    run_bsp-Switched σ esp 0 (omega arith) (record σ.manager { first_switch = false }) refl
      (Owning-but σ.task_owner σ.on_cpu 0 v.owning) v.idle _ refl

next_run-Switched : (σ : System) (esp : ℕ) → Saved 0 σ → Switched 0 esp (next_run σ)
next_run-Switched σ esp v = after σ.manager.current_task refl
  where
    from_slot :
        (a : ℕ)
        → a < max_tasks
        → (let claimed = claim_next_task σ.manager.tasks σ.on_cpu σ.task_owner 0 (some a) in
            Switched 0 esp (
              run_bsp
                (if runs (get_or σ.manager.tasks claimed.0 none) then claimed.0 else 0)
                (record σ { task_owner = claimed.1 })))
    from_slot a low =
        let claimed = claim_next_task σ.manager.tasks σ.on_cpu σ.task_owner 0 (some a) in
        let k = claim-Claimed σ.manager.tasks σ.on_cpu σ.task_owner 0 a low v.owning in
        run_bsp-Switched σ esp a low σ.manager refl v.owning v.idle _ (
          chosen claimed.0 (runs (get_or σ.manager.tasks claimed.0 none))
            (λ p. runs-ready _ (k.picked p)))

    after :
        (o : Option ℕ)
        → σ.manager.current_task ≡ o
        → (let claimed =
              claim_next_task σ.manager.tasks σ.on_cpu σ.task_owner 0 σ.manager.current_task in
            Switched 0 esp (
              run_bsp
                (if runs (get_or σ.manager.tasks claimed.0 none) then claimed.0 else 0)
                (record σ { task_owner = claimed.1 })))
    after none e = rw e (unfold claim_next_task in from_slot 0 (omega arith))
    after (some a) e = rw e (from_slot a (v.owning.range 0 a (sym v.bsp ∙ e)))

schedule_bsp-Switched : (σ : System) (esp : ℕ) → Inv σ → Switched 0 esp (schedule_bsp esp σ)
schedule_bsp-Switched σ esp v = rw v.idle (
    if_intro (Switched 0 esp) σ.manager.first_switch (first_run σ)
      (next_run (save_bsp esp σ.manager.current_task σ)) (λ h. first_run-Switched σ esp v)
      (λ h.
        next_run-Switched (save_bsp esp σ.manager.current_task σ) esp
          (save_bsp-Saved σ esp σ.manager.current_task (sym v.bsp) v)))

save_ap-Saved :
    (σ : System) (cpu esp : ℕ) (o : Option ℕ)
    → get_or σ.on_cpu cpu none ≡ o
    → Inv σ
    → Saved cpu (save_ap cpu esp o σ)
save_ap-Saved σ cpu esp none at v = record {
  owning = Owning-but σ.task_owner σ.on_cpu cpu v.owning;
  bsp = v.bsp;
  idle = v.idle;
}
save_ap-Saved σ cpu esp (some s) at v =
    if_intro (Saved cpu) (is_some (get_or σ.manager.tasks s none))
      (give_up s (with_tasks σ (change_task (save_task esp) s σ.manager.tasks))) σ
      (λ h. given-Saved σ cpu esp s at v) (λ h. plain-Saved σ cpu v)

-- An application CPU runs what it claims, or idles.
module _ (σ : System) (cpu esp : ℕ) (low : cpu < max_cpus) (ap_cpu : 0 < cpu)
    (v : Saved cpu σ) where
  boot_slot : (o : Option ℕ) → σ.manager.current_task ≡ get_or (set σ.on_cpu cpu o) 0 none
  boot_slot o = v.bsp ∙ sym (get_or-set_ne σ.on_cpu cpu 0 o none (λ e. absurd (omega (arith, e))))

  idle_on-Switched :
      (owners : List (Option ℕ))
      → Owning (Other cpu) owners σ.on_cpu
      → Switched cpu esp (idle_on cpu esp (record σ { task_owner = owners }))
  idle_on-Switched owners w = (
    _,
    _,
    refl,
    record {
      owning = Owning-put owners σ.on_cpu cpu none w low (λ s e. absurd (none-ne-some s e));
      bsp = boot_slot none;
      idle = v.idle;
    },
    subst (RunsIn _ σ.manager.tasks cpu _)
        (sym (get_or-set_self σ.on_cpu cpu none none (omega (arith, w.count)))) refl,
  )

  claim_on-Switched : (a : ℕ) → a < max_tasks → Switched cpu esp (claim_on cpu (some a) esp σ)
  claim_on-Switched a small =
      let claimed = claim_next_task σ.manager.tasks σ.on_cpu σ.task_owner cpu (some a) in
      let k = claim-Claimed σ.manager.tasks σ.on_cpu σ.task_owner cpu a small v.owning in
      let owned = record σ { task_owner = claimed.1 } in
      if_intro (Switched cpu esp) (claimed.0 == 0) (idle_on cpu esp owned)
        (run_on cpu claimed.0 owned) (λ h. idle_on-Switched claimed.1 k.others)
        (λ h.
          run_on-Switched cpu esp claimed.0 owned low k.small k.others k.taken
            (boot_slot (some claimed.0)) v.idle
            (full_slot σ.manager.tasks claimed.0 v.idle k.picked))

  claim_after-Switched :
      (o : Option ℕ) → get_or σ.on_cpu cpu none ≡ o → Switched cpu esp (claim_on cpu o esp σ)
  claim_after-Switched none e = unfold claim_next_task in claim_on-Switched 0 (omega arith)
  claim_after-Switched (some a) e = claim_on-Switched a (v.owning.range cpu a e)

schedule_ap-Switched :
    (σ : System) (cpu esp : ℕ)
    → cpu < max_cpus
    → 0 < cpu
    → Inv σ
    → Switched cpu esp (schedule_ap cpu esp σ)
schedule_ap-Switched σ cpu esp low pos v =
    claim_after-Switched (save_ap cpu esp (get_or σ.on_cpu cpu none) σ) cpu esp low pos
      (save_ap-Saved σ cpu esp _ refl v) (get_or σ.on_cpu cpu none)
      (on_cpu-save (get_or σ.on_cpu cpu none))
  where
    on_cpu-save :
        (o : Option ℕ) → get_or (save_ap cpu esp o σ).on_cpu cpu none ≡ get_or σ.on_cpu cpu none
    on_cpu-save none = refl
    on_cpu-save (some s) =
        if_intro (λ τ. get_or τ.on_cpu cpu none ≡ get_or σ.on_cpu cpu none)
          (is_some (get_or σ.manager.tasks s none))
          (give_up s (with_tasks σ (change_task (save_task esp) s σ.manager.tasks))) σ (λ h. refl)
          (λ h. refl)

-- From a system in which each CPU owns the slot that it runs, `schedule` on a CPU returns the address
-- of the state to resume; the invariant then holds again. If the CPU then has a slot, the task in it is
-- in the state of running there, and the address is that of its saved state; if it has none, the
-- address is where its idle loop was left, or the interrupted state if that was never left.
pub schedule-Switched :
    (σ : System) (cpu now esp : ℕ)
    → cpu < max_cpus
    → Inv σ
    → Switched cpu esp (schedule cpu now esp σ)
unfolding schedule
schedule-Switched σ cpu now esp low v =
    if_intro (Switched cpu esp) (cpu == 0) (schedule_bsp esp (expire_timers now σ))
      (schedule_ap cpu esp (expire_timers now σ))
      (λ h.
        subst (λ c. Switched c esp (schedule_bsp esp (expire_timers now σ)))
          (sym ((==_iff cpu 0).0 h)) (schedule_bsp-Switched (expire_timers now σ) esp woken))
      (λ h. schedule_ap-Switched (expire_timers now σ) cpu esp low (ground (arith, h)) woken)
  where
    woken : Inv (expire_timers now σ)
    woken = record {
      owning = v.owning;
      bsp = v.bsp;
      idle = is_some-map_tasks _ σ.manager.tasks 0 ∙ v.idle;
    }

-- The kernel's other changes of the task table leave slot 0, its slot on the boot CPU and the
-- owners alone; a switch can happen on any CPU, at any time and with any saved state.
pub data Reach (boot : System) : System → Type 0 where
  start : Reach boot boot
  table :
      {σ : System} (m : TaskManager)
      → Reach boot σ
      → m.current_task ≡ σ.manager.current_task
      → is_some (get_or m.tasks 0 none) ≡ true
      → Reach boot (record σ { manager = m })
  switch :
      {σ τ : System} (cpu now esp p : ℕ)
      → Reach boot σ
      → cpu < max_cpus
      → schedule cpu now esp σ ≡ some (p, τ)
      → Reach boot τ

Reach-Inv : (boot σ : System) → Inv boot → Reach boot σ → Inv σ
Reach-Inv boot σ v start = v
Reach-Inv boot _ v (table m r same full) =
    let w = Reach-Inv boot _ v r in record { owning = w.owning; bsp = same ∙ w.bsp; idle = full }
Reach-Inv boot τ v (switch {σ} cpu now esp p r low e) =
    let (q, ρ, f, w, runs) = schedule-Switched σ cpu now esp low (Reach-Inv boot σ v r) in
    subst Inv (ap (λ x. x.1) (some-injective (q, ρ) (p, τ) (sym f ∙ e))) w

-- However switches on all CPUs and changes of the task table interleave, no two CPUs run the task
-- of one slot, slot 0 with the idle task aside.
pub Reach-exclusive :
    (boot σ : System) (c d s : ℕ)
    → Inv boot
    → Reach boot σ
    → 0 < s
    → get_or σ.on_cpu c none ≡ some s
    → get_or σ.on_cpu d none ≡ some s
    → c ≡ d
Reach-exclusive boot σ c d s v r pos p q =
    let w = (Reach-Inv boot σ v r).owning in
    some-injective c d (sym (w.owner c s tt pos p) ∙ w.owner d s tt pos q)

-- ===== src/Task/Fairness.antt =====
-- The order in which the switches of a CPU take the tasks that stay ready.
use felix.Prelude.{
  ℕ, suc, ◌+◌, ◌<◌, ◌≤◌, ◌≡◌, ◌≢◌, refl, sym, ap, ◌∙◌, subst, Bool, true, false, ◌&&◌, not, Option,
  none, some, List, ◌==◌, ◌⊎◌, ltb, leb, if◌then◌else◌, set, get_or, is_some, get_or-set_self,
  get_or-update, ==_iff, Bool-cases, if_intro, inl, inr, arith, length,
}
use mathlib.Core.Bool.{true≢false, false≢true}
use mathlib.Core.Option.{some-injective, none-ne-some}
use felix.Task.Defs.{
  Slots, Task, System, max_tasks, ready, is_runnable, running_on, child, thread, timer, poll, futex,
  WaitReason, runnable, blocked_on, wake,
}
use felix.Task.Claim.{valid_owner, claim_next_task, available}
use felix.Task.Turns.{turn_of, Served, first-Served, claim_next_task-first}
use felix.Task.Table.{on_task, change_task, wake_waiters, expire, timed_out, map_tasks}
use felix.Task.Schedule.{
  save_task, with_tasks, give_up, state_ptr, resume, run_on, runs, run_bsp, first_run, save_bsp,
  next_run, schedule_bsp, save_ap, claim_on, schedule_ap, expire_timers, schedule,
}
use felix.Task.Exclusive.{max_cpus, &&-left}
use felix.Task.Lookups.{is_some-map_tasks, get_or-change_task, get_or-map_tasks}
use felix.Task.Switch.{Inv, runs-ready, chosen}

-- A task that is ready and that no CPU has claimed.
pub record Waits (t : ℕ) (σ : System) : Type 0 where
  pub is_ready : ready (get_or σ.manager.tasks t none) ≡ true
  pub unclaimed : get_or σ.task_owner t none ≡ none

-- The slot that a CPU has run, or 0.
abbrev pub slot_or_idle : Option ℕ → ℕ
slot_or_idle none = 0
slot_or_idle (some s) = s

-- A change of a task that keeps it ready.
Keeps : (Task → Task) → Type 0
Keeps f = (o : Option Task) → ready o ≡ true → ready (on_task f o) ≡ true

ready-wake : (a b c d : Bool) → (a && b && c && d) ≡ true → (true && true && c && d) ≡ true
ready-wake true true c d h = h
ready-wake true false c d h = absurd (false≢true h)
ready-wake false b c d h = absurd (false≢true h)

wake-ready : (t : Task) → ready (some t) ≡ true → ready (some (wake t)) ≡ true
wake-ready t h = ready-wake t.running (is_runnable t.state) (not t.zombie) (not t.thread_exited) h

Keeps-if :
    (b : Task → Bool) (f g : Task → Task)
    → Keeps f
    → Keeps g
    → Keeps (λ t. if b t then f t else g t)
unfolding Keeps
Keeps-if b f g p q none h = h
Keeps-if b f g p q (some t) h =
    if_intro (λ u. ready (some u) ≡ true) (b t) (f t) (g t) (λ k. p (some t) h) (λ k. q (some t) h)

Keeps-wake :
    (f : Task → Task)
    → ((t : Task) → ready (some t) ≡ true → ready (some (f t)) ≡ true)
    → Keeps (λ t. wake (f t))
unfolding Keeps
Keeps-wake f k none h = h
Keeps-wake f k (some t) h = wake-ready (f t) (k t h)

Keeps-same : Keeps (λ t. t)
unfolding Keeps
Keeps-same none h = h
Keeps-same (some t) h = h

Keeps-expire : (now : ℕ) → Keeps (expire now)
Keeps-expire now =
    Keeps-if (λ t. blocked_on timer t.state && leb t.wake_deadline_ms now)
      (λ t. wake (record t { wake_deadline_ms = 0 }))
      (λ t.
        if timed_out poll now t
        then wake t
        else (if timed_out futex now t
            then wake (record t { futex_key = 0; wake_deadline_ms = 0 })
            else t))
      (Keeps-wake (λ t. record t { wake_deadline_ms = 0 }) (λ t h. h))
      (Keeps-if (timed_out poll now) wake
        (λ t.
          if timed_out futex now t
          then wake (record t { futex_key = 0; wake_deadline_ms = 0 })
          else t)
        (Keeps-wake (λ t. t) (λ t h. h))
        (Keeps-if (timed_out futex now)
          (λ t. wake (record t { futex_key = 0; wake_deadline_ms = 0 })) (λ t. t)
          (Keeps-wake (λ t. record t { futex_key = 0; wake_deadline_ms = 0 }) (λ t h. h))
          Keeps-same))

Keeps-save : (esp : ℕ) → Keeps (save_task esp)
unfolding Keeps
Keeps-save esp none h = h
Keeps-save esp (some t) h =
    if_intro (λ u. ready (some u) ≡ true) t.running
      (record t { cpu_state_ptr = esp; state = runnable }) (record t { cpu_state_ptr = esp })
      (λ k.
        rw k (ready-wake t.running (is_runnable t.state) (not t.zombie) (not t.thread_exited) h))
      (λ k. h)

ready-map_tasks :
    (f : Task → Task) (ts : Slots) (k : ℕ)
    → Keeps f
    → ready (get_or ts k none) ≡ true
    → ready (get_or (map_tasks f ts) k none) ≡ true
unfolding Keeps
ready-map_tasks f ts k p h = ap ready (get_or-map_tasks f ts k) ∙ p (get_or ts k none) h

ready-change_task :
    (f : Task → Task) (s : ℕ) (ts : Slots) (k : ℕ)
    → Keeps f
    → ready (get_or ts k none) ≡ true
    → ready (get_or (change_task f s ts) k none) ≡ true
unfolding Keeps
ready-change_task f s ts k p h =
    ap ready (get_or-change_task f s ts k)
    ∙ if_intro (λ o. ready o ≡ true) (k == s) (on_task f (get_or ts k none)) (get_or ts k none)
        (λ e. p (get_or ts k none) h) (λ e. h)

ready-wakes :
    (ts : Slots) (k : ℕ)
    → ready (get_or ts k none) ≡ true
    → ready (get_or (wake_waiters thread (wake_waiters child ts).1).1 k none) ≡ true
unfolding wake_waiters
ready-wakes ts k h =
    ready-map_tasks (woken_by thread) _ k (keep thread)
      (ready-map_tasks (woken_by child) ts k (keep child) h)
  where
    woken_by : WaitReason → Task → Task
    woken_by r t = if blocked_on r t.state then wake t else t

    keep : (r : WaitReason) → Keeps (woken_by r)
    keep r =
        Keeps-if (λ t. blocked_on r t.state) wake (λ t. t) (Keeps-wake (λ t. t) (λ t h. h))
          Keeps-same

-- Where a switch puts its CPU.
Lands : ℕ → Option (ℕ × System) → ℕ → Type 0
Lands cpu r s = (p : ℕ) (ρ : System) → r ≡ some (p, ρ) → get_or ρ.on_cpu cpu none ≡ some s

run_on-Lands : (cpu s : ℕ) (σ : System) → cpu < length σ.on_cpu → Lands cpu (run_on cpu s σ) s
unfolding Lands
run_on-Lands cpu s σ low p ρ e = by_task (get_or σ.manager.tasks s none) e
  where
    after : System
    after =
        with_tasks (record σ { on_cpu = set σ.on_cpu cpu (some s) })
          (change_task (λ t. record t { state = running_on cpu }) s σ.manager.tasks)

    by_task :
        (o : Option Task)
        → resume cpu (state_ptr o) after ≡ some (p, ρ)
        → get_or ρ.on_cpu cpu none ≡ some s
    by_task none e = absurd (none-ne-some (p, ρ) e)
    by_task (some t) e =
        ap (λ τ. get_or τ.on_cpu cpu none)
          (sym (ap (λ x. x.1) (some-injective (t.cpu_state_ptr, after) (p, ρ) e)))
        ∙ get_or-set_self σ.on_cpu cpu (some s) none low

claim-slot_or_idle :
    (tasks : Slots) (on_cpu owners : List (Option ℕ)) (cpu : ℕ) (o : Option ℕ)
    → claim_next_task tasks on_cpu owners cpu o
      ≡ claim_next_task tasks on_cpu owners cpu (some (slot_or_idle o))
unfolding claim_next_task
claim-slot_or_idle tasks on_cpu owners cpu none = refl
claim-slot_or_idle tasks on_cpu owners cpu (some s) = refl

-- The system that claims, for a CPU that has run slot `o`, while slot `t` waits.
record Claiming (cpu t : ℕ) (o : Option ℕ) (σ : System) : Type 0 where
  waits : Waits t σ
  low : cpu < length σ.on_cpu
  small : slot_or_idle o < max_tasks

-- What the CPU claims is a slot whose turn is not after that of `t`.
Turn : ℕ → ℕ → Option ℕ → Option (ℕ × System) → Type 0
Turn cpu t o r =
    (s : ℕ) × Lands cpu r s
    × (0 < s)
    × (s < max_tasks)
    × (turn_of (slot_or_idle o) s ≤ turn_of (slot_or_idle o) t)

module _ (cpu t : ℕ) (o : Option ℕ) (pos : 0 < t) (top : t < max_tasks) (σ : System)
    (c : Claiming cpu t o σ) where
  abbrev avail : ℕ → Bool
  avail = available σ.manager.tasks σ.on_cpu σ.task_owner

  served :
      Served avail
        (slot_or_idle o)
        t
        (claim_next_task σ.manager.tasks σ.on_cpu σ.task_owner cpu o).0
  served =
      subst (Served avail (slot_or_idle o) t)
        (sym (
          ap (λ k. k.0) (claim-slot_or_idle σ.manager.tasks σ.on_cpu σ.task_owner cpu o)
          ∙ claim_next_task-first σ.manager.tasks σ.on_cpu σ.task_owner cpu (slot_or_idle o)
              c.small))
        (first-Served avail (slot_or_idle o) t c.small pos top
          (rw c.waits.unclaimed (rw c.waits.is_ready refl)))

  claim_on-Turn : (esp : ℕ) → Turn cpu t o (claim_on cpu o esp σ)
  unfolding Turn
  claim_on-Turn esp =
      let claimed = claim_next_task σ.manager.tasks σ.on_cpu σ.task_owner cpu o in
      let busy : (claimed.0 == 0) ≡ false = ground (arith, served.0) in
      (
        claimed.0,
        rw busy (run_on-Lands cpu claimed.0 (record σ { task_owner = claimed.1 }) c.low),
        served.0,
        served.1,
        served.3,
      )

next_run-Turn :
    (t : ℕ) (o : Option ℕ) (σ : System)
    → 0 < t
    → t < max_tasks
    → σ.manager.current_task ≡ o
    → Claiming 0 t o σ
    → Turn 0 t o (next_run σ)
unfolding Turn
next_run-Turn t o σ pos top cur c =
    let claimed = claim_next_task σ.manager.tasks σ.on_cpu σ.task_owner 0 o in
    let s = served 0 t o pos top σ c in
    let pick = chosen claimed.0 (runs (get_or σ.manager.tasks claimed.0 none)) (λ p.
      runs-ready (get_or σ.manager.tasks claimed.0 none) (
        &&-left (ready (get_or σ.manager.tasks claimed.0 none))
          (not (is_some (valid_owner σ.on_cpu claimed.0 (get_or σ.task_owner claimed.0 none))))
          s.2)) in
    rw cur (
      claimed.0,
      subst
          (λ r.
            Lands 0
              (run_bsp (if runs (get_or σ.manager.tasks claimed.0 none) then claimed.0 else 0)
                (record σ { task_owner = claimed.1 }))
              r)
          pick (run_on-Lands 0 _ _ c.low),
      s.0,
      s.1,
      s.3,
    )

-- The task still waits when the CPU has saved the one that it ran.
Waits-give :
    (t esp s : ℕ) (σ : System)
    → Waits t σ
    → Waits t (give_up s (with_tasks σ (change_task (save_task esp) s σ.manager.tasks)))
Waits-give t esp s σ w = record {
  is_ready =
      ready-wakes _ t
        (ready-change_task (save_task esp) s σ.manager.tasks t (Keeps-save esp) w.is_ready);
  unclaimed = elim (Bool-cases (t == s)) [
    | inl h ↦ get_or-update (λ o. none) σ.task_owner s t none refl ∙ rw h refl
    | inr h ↦ get_or-update (λ o. none) σ.task_owner s t none refl ∙ rw h w.unclaimed
  ];
}

-- The save on either kind of CPU, which leaves the slots on the CPUs and the current slot alone.
record Ahead (t : ℕ) (σ τ : System) : Type 0 where
  waits : Waits t τ
  cpus : τ.on_cpu ≡ σ.on_cpu
  current : τ.manager.current_task ≡ σ.manager.current_task

give_up-Ahead :
    (t esp s : ℕ) (σ : System)
    → Waits t σ
    → Ahead t σ (give_up s (with_tasks σ (change_task (save_task esp) s σ.manager.tasks)))
give_up-Ahead t esp s σ w = record { waits = Waits-give t esp s σ w; cpus = refl; current = refl }

save_ap-Ahead :
    (cpu t esp : ℕ) (o : Option ℕ) (σ : System) → Waits t σ → Ahead t σ (save_ap cpu esp o σ)
save_ap-Ahead cpu t esp none σ w = record {
  waits = record { is_ready = w.is_ready; unclaimed = w.unclaimed };
  cpus = refl;
  current = refl;
}
save_ap-Ahead cpu t esp (some s) σ w =
    if_intro (Ahead t σ) (is_some (get_or σ.manager.tasks s none))
      (give_up s (with_tasks σ (change_task (save_task esp) s σ.manager.tasks))) σ
      (λ h. give_up-Ahead t esp s σ w) (λ h. record { waits = w; cpus = refl; current = refl })

save_bsp-Ahead : (t esp : ℕ) (o : Option ℕ) (σ : System) → Waits t σ → Ahead t σ (save_bsp esp o σ)
save_bsp-Ahead t esp none σ w = record { waits = w; cpus = refl; current = refl }
save_bsp-Ahead t esp (some s) σ w =
    let saved = with_tasks σ (change_task (save_task esp) s σ.manager.tasks) in
    if_intro (Ahead t σ) (ltb 0 s) (give_up s saved) saved (λ h. give_up-Ahead t esp s σ w)
      (λ h. record {
        waits = record {
          is_ready =
              ready-change_task (save_task esp) s σ.manager.tasks t (Keeps-save esp) w.is_ready;
          unclaimed = w.unclaimed;
        };
        cpus = refl;
        current = refl;
      })

slot_or_idle-range :
    (o : Option ℕ) → ((s : ℕ) → o ≡ some s → s < max_tasks) → slot_or_idle o < max_tasks
slot_or_idle-range none h = omega arith
slot_or_idle-range (some s) h = h s refl

Claiming-Ahead :
    (cpu t : ℕ) (o : Option ℕ) (σ τ : System)
    → cpu < max_cpus
    → Inv σ
    → get_or σ.on_cpu cpu none ≡ o
    → Ahead t σ τ
    → Claiming cpu t o τ
Claiming-Ahead cpu t o σ τ low v at a = record {
  waits = a.waits;
  low = omega (arith, ap length a.cpus, v.owning.count);
  small = slot_or_idle-range o (λ s e. v.owning.range cpu s (at ∙ e));
}

-- A switch while a task waits: the CPU takes a task whose turn is not after that of the waiting one.
schedule-Turn :
    (cpu t now esp : ℕ) (σ : System)
    → 0 < t
    → t < max_tasks
    → cpu < max_cpus
    → Inv σ
    → σ.manager.first_switch ≡ false
    → Waits t σ
    → Turn cpu t (get_or σ.on_cpu cpu none) (schedule cpu now esp σ)
unfolding schedule
schedule-Turn cpu t now esp σ pos top low v later w =
    if_intro (Turn cpu t o) (cpu == 0) (schedule_bsp esp woken) (schedule_ap cpu esp woken)
      (λ h.
        subst (λ c. Turn c t (get_or σ.on_cpu c none) (schedule_bsp esp woken))
          (sym ((==_iff cpu 0).0 h)) bsp)
      (λ h.
        claim_on-Turn cpu t o pos top (save_ap cpu esp o woken)
          (Claiming-Ahead cpu t o woken (save_ap cpu esp o woken) low inv refl
            (save_ap-Ahead cpu t esp o woken waits))
          esp)
  where
    o : Option ℕ
    o = get_or σ.on_cpu cpu none

    woken : System
    woken = expire_timers now σ

    inv : Inv woken
    inv = record {
      owning = v.owning;
      bsp = v.bsp;
      idle = is_some-map_tasks _ σ.manager.tasks 0 ∙ v.idle;
    }

    waits : Waits t woken
    waits = record {
      is_ready = ready-map_tasks (expire now) σ.manager.tasks t (Keeps-expire now) w.is_ready;
      unclaimed = w.unclaimed;
    }

    bsp : Turn 0 t (get_or σ.on_cpu 0 none) (schedule_bsp esp woken)
    bsp =
        let saved = save_bsp esp woken.manager.current_task woken in
        let ahead = save_bsp-Ahead t esp woken.manager.current_task woken waits in
        rw inv.idle (
          if_intro (Turn 0 t (get_or σ.on_cpu 0 none)) woken.manager.first_switch (first_run woken)
            (next_run saved) (λ h. absurd (true≢false (sym h ∙ later)))
            (λ h. next_run-Turn t (get_or σ.on_cpu 0 none) saved pos top (ahead.current ∙ v.bsp) (
              Claiming-Ahead 0 t (get_or σ.on_cpu 0 none) woken saved (omega arith) inv refl
                ahead)))

-- `Passed cpu t n σ`: in its last `n` switches, the CPU has run other tasks while slot `t` was
-- waiting, and σ is the system after the last of them. Between two switches of the CPU the rest of
-- the kernel, the other CPUs included, changes what it likes but for the slot on this CPU.
pub data Passed (cpu t : ℕ) : ℕ → System → Type 0 where
  begin : (σ : System) → Passed cpu t 0 σ
  pass :
      {n : ℕ} {τ : System} (σ ρ : System) (now esp p : ℕ)
      → Passed cpu t n τ
      → get_or σ.on_cpu cpu none ≡ get_or τ.on_cpu cpu none
      → Inv σ
      → σ.manager.first_switch ≡ false
      → Waits t σ
      → schedule cpu now esp σ ≡ some (p, ρ)
      → get_or ρ.on_cpu cpu none ≢ some t
      → Passed cpu t (suc n) ρ

turn_step :
    (a s t : ℕ)
    → a < max_tasks
    → 0 < s
    → s < max_tasks
    → 0 < t
    → t < max_tasks
    → s ≢ t
    → turn_of a s ≤ turn_of a t
    → suc (turn_of s t) ≤ turn_of a t
turn_step a s t p q r u v apart h = ground arith

turn_pos : (s t : ℕ) → s < max_tasks → 0 < t → t < max_tasks → s ≢ t → 0 < turn_of s t
turn_pos s t p pos q apart = ground arith

turn_most : (a t : ℕ) → a < max_tasks → t < max_tasks → turn_of a t ≤ 31
turn_most a t p q = ground arith

-- Each turn passed brings the turn of the waiting task nearer.
Passed-turns :
    (cpu t n : ℕ) (σ : System)
    → 0 < t
    → t < max_tasks
    → cpu < max_cpus
    → Passed cpu t n σ
    → (n ≡ 0)
      ⊎ ((s : ℕ) × (get_or σ.on_cpu cpu none ≡ some s) × (0 < turn_of s t) × (n + turn_of s t ≤ 31))
unfolding Turn Lands
Passed-turns cpu t _ σ pos top low (begin _) = inl refl
Passed-turns cpu t _ _ pos top low (pass {n} {τ} σ ρ now esp p ps at v later w e other) =
    let (s, lands, positive, small, nearer) = schedule-Turn cpu t now esp σ pos top low v later w in
    let on_s = lands p ρ e in
    let apart : s ≢ t = λ q. other (on_s ∙ ap some q) in
    let range : (r : ℕ) → get_or τ.on_cpu cpu none ≡ some r → r < max_tasks =
      λ r here. v.owning.range cpu r (at ∙ here) in
    inr (
      s,
      on_s,
      turn_pos s t small pos top apart,
      by_turn s positive small nearer apart range (Passed-turns cpu t n τ pos top low ps),
    )
  where
    by_turn :
        (s : ℕ)
        → 0 < s
        → s < max_tasks
        → turn_of (slot_or_idle (get_or σ.on_cpu cpu none)) s
          ≤ turn_of (slot_or_idle (get_or σ.on_cpu cpu none)) t
        → s ≢ t
        → ((r : ℕ) → get_or τ.on_cpu cpu none ≡ some r → r < max_tasks)
        → (n ≡ 0)
          ⊎ ((r : ℕ) × (get_or τ.on_cpu cpu none ≡ some r)
              × (0 < turn_of r t)
              × (n + turn_of r t ≤ 31))
        → suc n + turn_of s t ≤ 31
    by_turn s positive small nearer apart range (inl z) =
        let any = slot_or_idle (get_or σ.on_cpu cpu none) in
        let from : any < max_tasks =
          slot_or_idle-range (get_or σ.on_cpu cpu none) (λ r e. v.owning.range cpu r e) in
        let step = turn_step any s t from positive small pos top apart nearer in
        let most = turn_most any t from top in omega (arith, z, step, most)
    by_turn s positive small nearer apart range (inr (r, here, near, sum)) =
        let was = at ∙ here in
        let nearer' =
          subst (λ o. turn_of (slot_or_idle o) s ≤ turn_of (slot_or_idle o) t) was nearer in
        let step = turn_step r s t (range r here) positive small pos top apart nearer' in
        omega (arith, sum, step)

-- While a task stays ready, a CPU that switches 31 times has run it: of 31 switches in a row, in
-- which it waits each time, one is to it.
pub Passed-bound :
    (cpu t n : ℕ) (σ : System) → 0 < t → t < max_tasks → cpu < max_cpus → Passed cpu t n σ → n < 31
Passed-bound cpu t n σ pos top low ps = elim (Passed-turns cpu t n σ pos top low ps) [
  | inl z ↦ omega (arith, z)
  | inr (s, e, near, sum) ↦ omega (arith, near, sum)
]

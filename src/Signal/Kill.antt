-- ===== src/Signal/Kill.antt =====
-- `force_kill`: what it leaves in each slot of the task table.
use felix.Prelude.{
  ℕ, suc, ◌<◌, ◌≤◌, ◌≡◌, refl, sym, ap, ◌∙◌, subst, true, false, Option, none, some, ◌==◌,
  if◌then◌else◌, ◌⊎◌, inl, inr, get_or, length, is_some, ==_self, if_intro, arith, ℤ, pos, eq_ℤ,
  get_or-set_self, set,
}
use mathlib.Core.Bool.{false≢true}
use felix.Task.Defs.{
  Slots, Task, TaskState, WaitReason, dead, child, thread, wake, blocked_on, no_signals,
}
use felix.Task.Table.{
  on_task, change_task, slot_is, process_slot, reparent_children_of, wake_waiters, adopt, is_zombie,
}
use felix.Task.Lookups.{is_some-on_task, is_some-map_tasks, is_some-change_task, get_or-change_task}
use felix.Task.Count.{is_some-reparent}
use felix.Task.Family.{child_of, reparent-orphans}
use felix.Signal.Defs.{
  Signals, members_do, kill_thread, make_zombie, kill_process, force_kill, sigkill,
}
use felix.Signal.InSlot.{InSlot, InSlot-change_task, InSlot-wake, InSlot-reparent}
use felix.Signal.Members.{get_or-members_do, led}

-- A thread of a killed process: no CPU will run it again, and it has the signal.
abbrev pub Killed : ℕ → Task → Type 0
Killed sig t =
    (t.running ≡ false)
    × (t.state ≡ dead)
    × (t.thread_exited ≡ true)
    × (t.pending_signals ≡ no_signals)
    × (t.stopped ≡ false)
    × (t.term_signal ≡ (if sig == 0 then sigkill else sig))

-- The threads that the leader leads are killed.
abbrev pub LedKilled : ℕ → ℕ → Task → Type 0
LedKilled leader sig t = (slot_is t.leader_slot leader ≡ false) ⊎ Killed sig t

dead-blocked : (r : WaitReason) (s : TaskState) → s ≡ dead → blocked_on r s ≡ true → 1 ≤ 0
dead-blocked r s e h = absurd (false≢true (sym (ap (blocked_on r) e) ∙ h))

kill_process-LedKilled :
    (leader sig : ℕ) (pid : ℤ) (ts : Slots) (k : ℕ)
    → InSlot (LedKilled leader sig) (get_or (kill_process leader sig pid ts) k none)
kill_process-LedKilled leader sig pid ts k =
    let killed = members_do (kill_thread sig) leader ts in
    let one =
      subst (InSlot P) (sym (get_or-members_do (kill_thread sig) leader ts k))
        (first (get_or ts k none)) in
    let two = InSlot-change_task P k killed one make_zombie leader (λ t p. p) in
    let three = InSlot-reparent P k (change_task make_zombie leader killed) two pid adopted in
    let four = InSlot-wake P k _ three child (woken child) in
    InSlot-wake P k _ four thread (woken thread)
  where
    P : Task → Type 0
    P = LedKilled leader sig

    first : (o : Option Task) → InSlot P (on_task (led leader (kill_thread sig)) o)
    first none = tt
    first (some t) =
        if_intro P (slot_is t.leader_slot leader) (kill_thread sig t) t
          (λ h. inr (refl, refl, refl, refl, refl, refl)) (λ h. inl h)

    adopted : (o : Option ℕ) (t : Task) → P t → P (adopt o t)
    adopted none t p = p
    adopted (some s) t p = p

    woken : (r : WaitReason) (t : Task) → P t → blocked_on r t.state ≡ true → P (wake t)
    woken r t (inl h) b = inl h
    woken r t (inr k) b = absurd (omega (arith, dead-blocked r t.state k.1 b))

is_some-wake :
    (r : WaitReason) (ts : Slots) (k : ℕ)
    → is_some (get_or (wake_waiters r ts).1 k none) ≡ is_some (get_or ts k none)
unfolding wake_waiters
is_some-wake r ts k = is_some-map_tasks (λ t. if blocked_on r t.state then wake t else t) ts k

is_some-kill_process :
    (leader sig : ℕ) (pid : ℤ) (ts : Slots) (k : ℕ)
    → is_some (get_or (kill_process leader sig pid ts) k none) ≡ is_some (get_or ts k none)
is_some-kill_process leader sig pid ts k =
    let killed = members_do (kill_thread sig) leader ts in
    let orphaned = reparent_children_of (change_task make_zombie leader killed) pid in
    is_some-wake thread (wake_waiters child orphaned).1 k
    ∙ is_some-wake child orphaned k
    ∙ is_some-reparent (change_task make_zombie leader killed) pid k
    ∙ is_some-change_task make_zombie leader killed k
    ∙ ap is_some (get_or-members_do (kill_thread sig) leader ts k)
    ∙ is_some-on_task (led leader (kill_thread sig)) (get_or ts k none)

abbrev pub IsZombie : Task → Type 0
IsZombie t = t.zombie ≡ true

kill_process-zombie :
    (leader sig : ℕ) (pid : ℤ) (ts : Slots)
    → is_some (get_or ts leader none) ≡ true
    → is_zombie (get_or (kill_process leader sig pid ts) leader none) ≡ true
kill_process-zombie leader sig pid ts h =
    let killed = members_do (kill_thread sig) leader ts in
    let one =
      subst (InSlot IsZombie)
        (sym (
          get_or-change_task make_zombie leader killed leader
          ∙ ap
              (λ b.
                if b
                then on_task make_zombie (get_or killed leader none)
                else get_or killed leader none)
              (==_self leader)))
        (marked (get_or killed leader none)) in
    let two =
      InSlot-reparent IsZombie leader (change_task make_zombie leader killed) one pid adopted in
    let three = InSlot-wake IsZombie leader _ two child (λ t p b. p) in
    there (get_or (kill_process leader sig pid ts) leader none)
      (InSlot-wake IsZombie leader _ three thread (λ t p b. p))
      (is_some-kill_process leader sig pid ts leader ∙ h)
  where
    marked : (o : Option Task) → InSlot IsZombie (on_task make_zombie o)
    marked none = tt
    marked (some t) = refl

    adopted : (o : Option ℕ) (t : Task) → IsZombie t → IsZombie (adopt o t)
    adopted none t p = p
    adopted (some s) t p = p

    there : (o : Option Task) → InSlot IsZombie o → is_some o ≡ true → is_zombie o ≡ true
    there none p h = h
    there (some t) p h = p

abbrev NotChild : ℤ → Task → Type 0
NotChild pid t = eq_ℤ t.ppid pid ≡ false

kill_process-orphans :
    (leader sig n : ℕ) (ts : Slots) (k : ℕ)
    → child_of (pos (suc n)) (get_or (kill_process leader sig (pos (suc n)) ts) k none) ≡ false
kill_process-orphans leader sig n ts k =
    let killed = change_task make_zombie leader (members_do (kill_thread sig) leader ts) in
    let P = NotChild (pos (suc n)) in
    let orphaned = reparent_children_of killed (pos (suc n)) in
    let one = into (get_or orphaned k none) (reparent-orphans killed n k) in
    let two = InSlot-wake P k orphaned one child (λ t p b. p) in
    out _ (InSlot-wake P k _ two thread (λ t p b. p))
  where
    into : (o : Option Task) → child_of (pos (suc n)) o ≡ false → InSlot (NotChild (pos (suc n))) o
    into none h = tt
    into (some t) h = h

    out : (o : Option Task) → InSlot (NotChild (pos (suc n))) o → child_of (pos (suc n)) o ≡ false
    out none h = refl
    out (some t) h = h

-- A killed process in the table, and its cleanup published.
pub record KilledIn (leader sig : ℕ) (g : Signals) : Type 0 where
  pub threads : (k : ℕ) → InSlot (LedKilled leader sig) (get_or g.tasks k none)
  pub zombie : is_zombie (get_or g.tasks leader none) ≡ true
  pub published : get_or g.deferred leader false ≡ true

module _ (slot sig leader : ℕ) (t : Task) (g : Signals) (low : 0 < slot)
    (is_leader : process_slot g.tasks slot ≡ leader) (here : get_or g.tasks leader none ≡ some t)
    (live : t.zombie ≡ false) where
  force_kill-run : force_kill slot sig g ≡ (
    true,
    record { tasks = kill_process leader sig t.pid g.tasks; deferred = set g.deferred leader true },
  )
  unfolding force_kill
  force_kill-run =
      let started : (slot == 0) ≡ false = ground arith in
      rw started (rw is_leader (rw here (rw live refl)))

  pub force_kill-KilledIn :
      leader < length g.deferred → KilledIn leader sig (force_kill slot sig g).1
  force_kill-KilledIn bit =
      subst (λ r. KilledIn leader sig r.1) (sym force_kill-run)
        (record {
          threads = kill_process-LedKilled leader sig t.pid g.tasks;
          zombie = kill_process-zombie leader sig t.pid g.tasks (ap is_some here);
          published = get_or-set_self g.deferred leader true false bit;
        })

-- The kill of a live process with a positive pid, by the slot of any of its threads: it succeeds; all
-- its threads are killed, so that no CPU claims one again; its leader is a zombie with its cleanup
-- published; and no task names it as its parent.
pub force_kill-lem :
    (slot sig leader n : ℕ) (t : Task) (g : Signals)
    → 0 < slot
    → process_slot g.tasks slot ≡ leader
    → get_or g.tasks leader none ≡ some t
    → t.zombie ≡ false
    → t.pid ≡ pos (suc n)
    → leader < length g.deferred
    → ((force_kill slot sig g).0 ≡ true)
      × ((k : ℕ) → InSlot (LedKilled leader sig) (get_or (force_kill slot sig g).1.tasks k none))
      × (is_zombie (get_or (force_kill slot sig g).1.tasks leader none) ≡ true)
      × (get_or (force_kill slot sig g).1.deferred leader false ≡ true)
      × ((k : ℕ) → child_of t.pid (get_or (force_kill slot sig g).1.tasks k none) ≡ false)
force_kill-lem slot sig leader n t g low is_leader here live pid bit =
    let run = force_kill-run slot sig leader t g low is_leader here live in
    let killed = force_kill-KilledIn slot sig leader t g low is_leader here live bit in
    (
      ap (λ r. r.0) run,
      killed.threads,
      killed.zombie,
      killed.published,
      λ k.
          ap (λ r. child_of t.pid (get_or r.1.tasks k none)) run
          ∙ subst (λ id. child_of id (get_or (kill_process leader sig id g.tasks) k none) ≡ false)
              (sym pid) (kill_process-orphans leader sig n g.tasks k),
    )

-- ===== src/Task/Family.antt =====
-- `reparent_children_of`, `wake_waiters` and `alloc_pid` on the task table.
use felix.Prelude.{
  ℕ, zero, suc, ◌+◌, ◌%◌, ◌<◌, ◌≡◌, refl, ap, ◌∙◌, Bool, true, false, ◌&&◌, not, Option, none, some,
  [], ◌∷◌, ◌==◌, if◌then◌else◌, get_or, Bool-cases, if_intro, inl, inr, ◌⊎◌, arith, ℤ, pos, eq_ℤ,
}
use felix.Task.Defs.{Slots, Task, TaskManager, WaitReason, blocked_on, wake, ready}
use felix.Task.Table.{
  map_tasks, on_task, reparent_children_of, adopt, live_init, wake_waiters, count_slots, alloc_pid,
  at_least_one, wrapping_inc,
}
use felix.Task.Lookups.{get_or-map_tasks}

-- A task that has a given parent.
abbrev pub child_of : ℤ → Option Task → Bool
child_of pid none = false
child_of pid (some t) = eq_ℤ t.ppid pid

-- After the death of a process no task names it as its parent: its children have pid 1 as theirs if
-- a live process has that pid and it is not the one that died, and else 0.
pub reparent-orphans :
    (ts : Slots) (n k : ℕ)
    → child_of (pos (suc n)) (get_or (reparent_children_of ts (pos (suc n))) k none) ≡ false
unfolding reparent_children_of
reparent-orphans ts n k =
    ap (child_of dead) (get_or-map_tasks moved ts k) ∙ by_task (get_or ts k none)
  where
    dead : ℤ
    dead = pos (suc n)

    init_slot : Option ℕ
    init_slot = if eq_ℤ dead (pos 1) then none else live_init ts

    moved : Task → Task
    moved t = if eq_ℤ t.ppid dead then adopt init_slot t else t

    elsewhere :
        (t : Task) (b : Bool)
        → eq_ℤ dead (pos 1) ≡ b
        → eq_ℤ (adopt (if b then none else live_init ts) t).ppid dead ≡ false
    elsewhere t true e = ground arith
    elsewhere t false e = by_init (live_init ts)
      where
        by_init : (o : Option ℕ) → eq_ℤ (adopt o t).ppid dead ≡ false
        by_init none = ground arith
        by_init (some s) = ground (arith, e)

    by_task : (o : Option Task) → child_of dead (on_task moved o) ≡ false
    by_task none = refl
    by_task (some t) =
        if_intro (λ u. eq_ℤ u.ppid dead ≡ false) (eq_ℤ t.ppid dead) (adopt init_slot t) t
          (λ h. elsewhere t (eq_ℤ dead (pos 1)) refl) (λ h. h)

none_waits :
    (r : WaitReason) (ts : Slots)
    → count_slots (λ t. blocked_on r t.state) (wake_waiters r ts).1 ≡ 0
unfolding count_slots wake_waiters map_tasks
none_waits r [] = refl
none_waits r (none ∷ ts) = none_waits r ts
none_waits r (some t ∷ ts) =
    let awake : blocked_on r (if blocked_on r t.state then wake t else t).state ≡ false =
      if_intro (λ u. blocked_on r u.state ≡ false) (blocked_on r t.state) (wake t) t (λ h. refl)
        (λ h. h) in
    rw awake (omega (arith, none_waits r ts))

abbrev pub is_live : Option Task → Bool
is_live none = false
is_live (some t) = not t.zombie && not t.thread_exited

abbrev pub waits_for : WaitReason → Option Task → Bool
waits_for r none = false
waits_for r (some t) = blocked_on r t.state

-- After a wake-up for a reason no task waits for it, the tasks that waited for it are ready to run
-- unless they are zombies or have exited, and no other task has changed.
pub wake_waiters-lem :
    (r : WaitReason) (ts : Slots)
    → (count_slots (λ t. blocked_on r t.state) (wake_waiters r ts).1 ≡ 0)
      × ((k : ℕ)
          → ready (get_or (wake_waiters r ts).1 k none) ≡ (
              if waits_for r (get_or ts k none)
              then is_live (get_or ts k none)
              else ready (get_or ts k none)))
      × ((k : ℕ)
          → (waits_for r (get_or ts k none) ≡ true)
            ⊎ (get_or (wake_waiters r ts).1 k none ≡ get_or ts k none))
unfolding wake_waiters
wake_waiters-lem r ts = (
  unfold wake_waiters in none_waits r ts,
  λ k. ap ready (get_or-map_tasks woken ts k) ∙ readiness (get_or ts k none),
  λ k. kept k (get_or ts k none) refl,
)
  where
    woken : Task → Task
    woken t = if blocked_on r t.state then wake t else t

    readiness :
        (o : Option Task) → ready (on_task woken o) ≡ (if waits_for r o then is_live o else ready o)
    readiness none = refl
    readiness (some t) = elim (Bool-cases (blocked_on r t.state)) [
      | inl h ↦ rw h refl
      | inr h ↦ rw h refl
    ]

    kept :
        (k : ℕ) (o : Option Task)
        → get_or ts k none ≡ o
        → (waits_for r o ≡ true) ⊎ (get_or (map_tasks woken ts) k none ≡ o)
    kept k none e = inr (get_or-map_tasks woken ts k ∙ ap (on_task woken) e)
    kept k (some t) e = elim (Bool-cases (blocked_on r t.state)) [
      | inl h ↦ inl h
      | inr h ↦ inr (get_or-map_tasks woken ts k ∙ ap (on_task woken) e ∙ rw h refl)
    ]

-- The manager after a number of allocations of pids.
pub after_pids : ℕ → TaskManager → TaskManager
after_pids zero m = m
after_pids (suc k) m = (alloc_pid (after_pids k m)).1

abbrev pub greatest_pid : ℕ
greatest_pid = 2147483647

next_pid-after :
    (m : TaskManager) (n k : ℕ)
    → m.next_pid ≡ pos (suc n)
    → n < greatest_pid
    → (after_pids k m).next_pid ≡ pos (suc ((n + k) % greatest_pid))
unfolding after_pids
next_pid-after m n zero e h = e ∙ ap (λ r. pos (suc r)) (omega arith)
next_pid-after m n (suc k) e h =
    ap (λ a. at_least_one (wrapping_inc a)) (next_pid-after m n k e h)
    ∙ next (n + k) (n + suc k) (omega arith)
  where
    next :
        (a b : ℕ)
        → b ≡ suc a
        → at_least_one (wrapping_inc (pos (suc (a % greatest_pid)))) ≡ pos (suc (b % greatest_pid))
    next a b e = elim (Bool-cases (suc (a % greatest_pid) == 2147483647)) [
      | inl q ↦ rw q (ap (λ r. pos (suc r)) (ground (arith, q)))
      | inr q ↦ rw q (ap (λ r. pos (suc r)) (ground (arith, q)))
    ]

-- From a pid on, the pids that the kernel hands out count up by one, up to the greatest, and begin
-- again with 1; so they are positive, and as many as there are in a row are all different.
pub alloc_pid-after :
    (m : TaskManager) (n k : ℕ)
    → m.next_pid ≡ pos (suc n)
    → n < greatest_pid
    → (alloc_pid (after_pids k m)).0 ≡ pos (suc ((n + k) % greatest_pid))
alloc_pid-after m n k e h = ap at_least_one (next_pid-after m n k e h)

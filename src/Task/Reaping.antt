-- ===== src/Task/Reaping.antt =====
-- `reap`, the sweep of orphans and detached threads, and `add_task`, with the count of the tasks.
use felix.Prelude.{
  ℕ, zero, suc, ◌+◌, ◌-◌, ◌<◌, ◌≤◌, ◌≡◌, ◌≢◌, refl, sym, ap, ◌∙◌, Bool, true, false, ◌&&◌, ◌||◌,
  not, Option, none, some, List, [], ◌∷◌, ◌==◌, leb, if◌then◌else◌, set, get_or, is_some,
  get_or-set_ne, ==_iff, if_intro, arith, length, ℤ, pos, succ_ℤ,
}
use mathlib.Core.Bool.{true≢false, false≢true}
use mathlib.Core.Option.{some-injective, none-ne-some}
use felix.Task.Defs.{Slots, Task, TaskManager}
use felix.Task.Table.{
  filter_slots, reparent_children_of, clear_slot, remove_task, slot_is, clear_members,
  release_process, reap, reap_thread, reap_detached_from, reap_detached_threads, find_orphans,
  adopt_lost, change_task, adopt, reap_all, reap_orphans, first_free, get_free_slot, place_task,
  add_task, thread_slots, is_detached, owned, process_quiescent, task_for, alloc_pid,
  missing_parent,
}
use felix.Task.Count.{
  occupied, leader_of, Counted, clear_slot-Counted, reparent-Counted, is_some-reparent,
  reap_thread-Counted, remove_task-Counted, change_task-Counted, adopt-SameLeader,
}

-- Slots above `k`, in ascending order, that a table fills; none is slot 0.
Filled : (ℕ → Option Task) → ℕ → List ℕ → Type 0
Filled g k [] = Unit
Filled g k (s ∷ ss) = (k ≤ s) × (0 < s) × (is_some (g s) ≡ true) × Filled g (suc s) ss

Filled-change :
    (g h : ℕ → Option Task) (k : ℕ) (ss : List ℕ)
    → ((j : ℕ) → k ≤ j → g j ≡ h j)
    → Filled g k ss
    → Filled h k ss
unfolding Filled
Filled-change g h k [] e f = tt
Filled-change g h k (s ∷ ss) e f = (
  f.0,
  f.1,
  ap is_some (sym (e s f.0)) ∙ f.2,
  Filled-change g h (suc s) ss (λ j l. e j (omega (arith, f.0))) f.3,
)

Filled-low : (g : ℕ → Option Task) (k l : ℕ) (ss : List ℕ) → k ≤ l → Filled g l ss → Filled g k ss
unfolding Filled
Filled-low g k l [] h f = tt
Filled-low g k l (s ∷ ss) h f = (omega (arith, f.0), f.1, f.2, f.3)

filter_slots-Filled :
    (p : ℕ → Task → Bool) (g : ℕ → Option Task) (k : ℕ) (ts : Slots)
    → ((i : ℕ) → g (k + i) ≡ get_or ts i none)
    → ((t : Task) → g 0 ≡ some t → p 0 t ≡ false)
    → Filled g k (filter_slots p k ts)
unfolding Filled filter_slots
filter_slots-Filled p g k [] e z = tt
filter_slots-Filled p g k (none ∷ ts) e z =
    Filled-low g k (suc k) _ (omega arith)
      (filter_slots-Filled p g (suc k) ts (λ i. ap g (omega arith) ∙ e (suc i)) z)
filter_slots-Filled p g k (some t ∷ ts) e z =
    let rest = filter_slots-Filled p g (suc k) ts (λ i. ap g (omega arith) ∙ e (suc i)) z in
    let at : g k ≡ some t = ap g (omega arith) ∙ e 0 in
    if_intro (Filled g k) (p k t) (k ∷ filter_slots p (suc k) ts) (filter_slots p (suc k) ts)
      (λ h. (omega arith, positive k t at h, ap is_some at, rest))
      (λ h. Filled-low g k (suc k) _ (omega arith) rest)
  where
    positive : (k : ℕ) (t : Task) → g k ≡ some t → p k t ≡ true → 0 < k
    positive zero t at h = absurd (false≢true (sym (z t at) ∙ h))
    positive (suc k) t at h = omega arith

-- The members of a process that are cleared leave its leader's slot alone.
clear_members-Counted :
    (id k : ℕ) (ss : List ℕ) (m : TaskManager)
    → Counted m
    → is_some (get_or m.tasks id none) ≡ true
    → Filled (λ j. get_or m.tasks j none) k ss
    → Counted (clear_members id ss m)
      × (is_some (get_or (clear_members id ss m).tasks id none) ≡ true)
unfolding clear_members Filled
clear_members-Counted id k [] m v h f = (v, h)
clear_members-Counted id k (s ∷ ss) m v h f =
    if_intro
      (λ n.
        Counted (clear_members id ss n)
        × (is_some (get_or (clear_members id ss n).tasks id none) ≡ true))
      (s == id) m (clear_slot s m) (λ e. clear_members-Counted id (suc s) ss m v h f.3)
      (λ e.
        let apart : s ≢ id = λ q. true≢false (sym ((==_iff s id).1 q) ∙ e) in
        clear_members-Counted id (suc s) ss (clear_slot s m) (clear_slot-Counted m s f.1 f.2 v)
          (ap is_some (get_or-set_ne m.tasks s id none none apart) ∙ h)
          (Filled-change (λ j. get_or m.tasks j none) _ (suc s) ss
            (λ j l. sym (get_or-set_ne m.tasks s j none none (λ q. absurd (omega (arith, q, l)))))
            f.3))

members-Filled :
    (ts : Slots) (id : ℕ)
    → 0 < id
    → leader_of (get_or ts 0 none) ≡ some 0
    → Filled (λ j. get_or ts j none) 0 (thread_slots ts id)
members-Filled ts id low z =
    filter_slots-Filled (λ k t. slot_is t.leader_slot id) (λ j. get_or ts j none) 0 ts
      (λ i. ap (λ j. get_or ts j none) (omega arith))
      (λ t e.
        let lead : t.leader_slot ≡ some 0 = ap leader_of (sym e) ∙ z in
        let other : (0 == id) ≡ false = ground arith in ap (λ o. slot_is o id) lead ∙ other)

pub release_process-Counted :
    (id : ℕ) (pid : ℤ) (m : TaskManager)
    → 0 < id
    → is_some (get_or m.tasks id none) ≡ true
    → Counted m
    → Counted (release_process id pid m)
release_process-Counted id pid m low h v =
    let orphaned = record m { tasks = reparent_children_of m.tasks pid } in
    let w = reparent-Counted m pid v in
    let (c, full) =
      clear_members-Counted id 0 (thread_slots orphaned.tasks id) orphaned w
        (is_some-reparent m.tasks pid id ∙ h) (members-Filled orphaned.tasks id low w.idle) in
    clear_slot-Counted _ id low full c

pub reap-Counted :
    (owners : List (Option ℕ)) (id : ℕ) (m : TaskManager) → Counted m → Counted (reap owners id m).1
unfolding reap
reap-Counted owners id m v =
    if_intro (λ (r : Bool × TaskManager). Counted r.1)
      (id == 0 || leb (length m.tasks) id || not (process_quiescent owners m.tasks id)) (false, m)
      (reaped (get_or m.tasks id none)) (λ h. v)
      (λ h. by_task (get_or m.tasks id none) refl (ground (arith, h)))
  where
    reaped : Option Task → Bool × TaskManager
    reaped o = elim o [
      | none ↦ (false, m)
      | some t ↦ if t.zombie then (true, release_process id t.pid m) else (false, m)
    ]

    by_task : (o : Option Task) → get_or m.tasks id none ≡ o → 0 < id → Counted (reaped o).1
    by_task none e low = v
    by_task (some t) e low =
        if_intro (λ (r : Bool × TaskManager). Counted r.1) t.zombie
          (true, release_process id t.pid m) (false, m)
          (λ h. release_process-Counted id t.pid m low (ap is_some e) v) (λ h. v)

reap_all-Counted :
    (owners : List (Option ℕ)) (is : List ℕ) (m : TaskManager)
    → Counted m
    → Counted (reap_all owners is m)
unfolding reap_all
reap_all-Counted owners [] m v = v
reap_all-Counted owners (i ∷ is) m v =
    reap_all-Counted owners is (reap owners i m).1 (reap-Counted owners i m v)

reap_detached_from-Counted :
    (owners : List (Option ℕ)) (n s : ℕ) (m : TaskManager)
    → Counted m
    → Counted (reap_detached_from owners n s m)
unfolding reap_detached_from
reap_detached_from-Counted owners zero s m v = v
reap_detached_from-Counted owners (suc n) s m v = reap_detached_from-Counted owners n (suc s) _ (
    if_intro Counted (not (owned owners s) && is_detached (get_or m.tasks s none))
      (reap_thread owners s m).1 m (λ h. reap_thread-Counted owners s m v) (λ h. v))

find_orphans-Counted :
    (init_slot : Option ℕ) (n i : ℕ) (m : TaskManager)
    → Counted m
    → Counted (record m { tasks = (find_orphans init_slot n i m.tasks).1 })
unfolding find_orphans
find_orphans-Counted init_slot zero i m v = v
find_orphans-Counted init_slot (suc n) i m v =
    find_orphans-Counted init_slot n (suc i) _
      (adopted init_slot (missing_parent m.tasks (get_or m.tasks i none)))
  where
    adopted : (o : Option ℕ) (b : Bool) → Counted (record m { tasks = adopt_lost o b i m.tasks })
    adopted none b = v
    adopted (some s) b =
        if_intro (λ ts. Counted (record m { tasks = ts })) b
          (change_task (adopt (some s)) i m.tasks) m.tasks
          (λ h. change_task-Counted (adopt (some s)) i m (adopt-SameLeader (some s)) v) (λ h. v)

pub get_free_slot-Counted :
    (owners : List (Option ℕ)) (m : TaskManager) → Counted m → Counted (get_free_slot owners m).1
unfolding reap_orphans
get_free_slot-Counted owners m v = reap_all-Counted owners _ _ (
    find_orphans-Counted _ 31 1 (reap_detached_threads owners m)
      (reap_detached_from-Counted owners 31 1 m v))

occupied-set :
    (ts : Slots) (k s : ℕ) (t : Task)
    → first_free k ts ≡ some s
    → (occupied (set ts (s - k) (some t)) ≡ suc (occupied ts))
      × (k ≤ s)
      × (get_or ts (s - k) none ≡ none)
unfolding occupied first_free
occupied-set [] k s t e = absurd (none-ne-some s e)
occupied-set (none ∷ ts) k s t e =
    let same : k ≡ s = some-injective k s e in
    let z : s - k ≡ 0 = omega (arith, same) in rw z (refl, omega (arith, same), refl)
occupied-set (some u ∷ ts) k s t e =
    let rest = occupied-set ts (suc k) s t e in
    let next : s - k ≡ suc (s - suc k) = omega (arith, rest.1) in
    rw next (ap suc rest.0, omega (arith, rest.1), rest.2)

place_task-Counted :
    (stack_base : ℕ) (o : Option ℕ) (m : TaskManager)
    → first_free 0 m.tasks ≡ o
    → Counted m
    → Counted (place_task stack_base o m)
place_task-Counted stack_base none m e v = v
place_task-Counted stack_base (some s) m e v =
    let t = task_for s (alloc_pid m).0 stack_base in
    let here = occupied-set m.tasks 0 s t e in
    let same : s - 0 ≡ s = omega arith in
    let apart : s ≢ 0 = λ q. none-ne-some 0 (
      sym (ap leader_of here.2)
      ∙ ap (λ k. leader_of (get_or m.tasks k none)) (same ∙ q)
      ∙ v.idle) in
    record {
      count =
          ap succ_ℤ v.count
          ∙ ap pos (sym here.0)
          ∙ ap (λ k. pos (occupied (set m.tasks k (some t)))) same;
      idle = ap leader_of (get_or-set_ne m.tasks s 0 (some t) none apart) ∙ v.idle;
    }

-- The operations on the task table, with the stack that the frame allocator gives a new task.
pub data Operation : Type 0 where
  add : ℕ → Operation
  remove : ℕ → Operation
  reap_process : ℕ → Operation
  reap_one : ℕ → Operation
  sweep : Operation

unfoldable pub operate : List (Option ℕ) → Operation → TaskManager → TaskManager
operate owners (add stack_base) m = add_task owners stack_base m
operate owners (remove id) m = remove_task owners id m
operate owners (reap_process id) m = (reap owners id m).1
operate owners (reap_one id) m = (reap_thread owners id m).1
operate owners sweep m = (get_free_slot owners m).1

-- After each operation on the task table, whoever owns the slots, `task_count` is the number of
-- occupied slots, and slot 0 still has the idle task, if both held before.
pub operate-Counted :
    (owners : List (Option ℕ)) (op : Operation) (m : TaskManager)
    → Counted m
    → Counted (operate owners op m)
unfolding operate add_task
operate-Counted owners (add stack_base) m v =
    place_task-Counted stack_base _ (get_free_slot owners m).1 refl
      (get_free_slot-Counted owners m v)
operate-Counted owners (remove id) m v = remove_task-Counted owners id m v
operate-Counted owners (reap_process id) m v = reap-Counted owners id m v
operate-Counted owners (reap_one id) m v = reap_thread-Counted owners id m v
operate-Counted owners sweep m v = get_free_slot-Counted owners m v

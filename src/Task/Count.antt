-- ===== src/Task/Count.antt =====
-- `task_count` and the number of occupied slots.
use felix.Prelude.{
  ℕ, zero, suc, ◌<◌, ◌≡◌, refl, sym, ap, ◌∙◌, Bool, true, false, ◌&&◌, ◌||◌, not, Option, none,
  some, List, [], ◌∷◌, ◌==◌, ltb, leb, if◌then◌else◌, set, get_or, is_some, get_or-set_ne, if_intro,
  arith, length, ℤ, pos, eq_ℤ, is_pos, pred_ℤ,
}
use mathlib.Core.Bool.{false≢true}
use felix.Task.Defs.{Slots, Task, TaskManager}
use felix.Task.Table.{
  map_tasks, on_task, reparent_children_of, clear_slot, remove_task, reap_thread, change_task,
  adopt, live_init, is_exited_thread, owned,
}
use felix.Task.Lookups.{is_some-map_tasks, get_or-map_tasks, get_or-change_task}

-- The number of occupied slots.
unfoldable pub occupied : Slots → ℕ
occupied [] = 0
occupied (none ∷ ts) = occupied ts
occupied (some t ∷ ts) = suc (occupied ts)

abbrev pub leader_of : Option Task → Option ℕ
leader_of none = none
leader_of (some t) = t.leader_slot

-- The count is right, and slot 0 has a task that leads itself.
pub record Counted (m : TaskManager) : Type 0 where
  pub count : m.task_count ≡ pos (occupied m.tasks)
  pub idle : leader_of (get_or m.tasks 0 none) ≡ some 0

-- A change of tasks that leaves their leaders alone.
abbrev pub SameLeader : (Task → Task) → Type 0
SameLeader f = (t : Task) → (f t).leader_slot ≡ t.leader_slot

pub leader_of-on_task :
    (f : Task → Task) (o : Option Task) → SameLeader f → leader_of (on_task f o) ≡ leader_of o
leader_of-on_task f none h = refl
leader_of-on_task f (some t) h = h t

pub adopt-SameLeader : (o : Option ℕ) → SameLeader (adopt o)
adopt-SameLeader none t = refl
adopt-SameLeader (some s) t = refl

orphan-SameLeader :
    (pid : ℤ) (o : Option ℕ) → SameLeader (λ t. if eq_ℤ t.ppid pid then adopt o t else t)
orphan-SameLeader pid o t =
    if_intro (λ u. u.leader_slot ≡ t.leader_slot) (eq_ℤ t.ppid pid) (adopt o t) t
      (λ h. adopt-SameLeader o t) (λ h. refl)

occupied-map_tasks : (f : Task → Task) (ts : Slots) → occupied (map_tasks f ts) ≡ occupied ts
unfolding occupied map_tasks
occupied-map_tasks f [] = refl
occupied-map_tasks f (none ∷ ts) = occupied-map_tasks f ts
occupied-map_tasks f (some t ∷ ts) = ap suc (occupied-map_tasks f ts)

occupied-change_task :
    (f : Task → Task) (k : ℕ) (ts : Slots) → occupied (change_task f k ts) ≡ occupied ts
unfolding occupied
occupied-change_task f k [] = refl
occupied-change_task f zero (none ∷ ts) = refl
occupied-change_task f zero (some t ∷ ts) = refl
occupied-change_task f (suc k) (none ∷ ts) = occupied-change_task f k ts
occupied-change_task f (suc k) (some t ∷ ts) = ap suc (occupied-change_task f k ts)

occupied-clear :
    (ts : Slots) (k : ℕ)
    → is_some (get_or ts k none) ≡ true
    → suc (occupied (set ts k none)) ≡ occupied ts
unfolding occupied
occupied-clear [] k h = absurd (false≢true h)
occupied-clear (none ∷ ts) zero h = absurd (false≢true h)
occupied-clear (some t ∷ ts) zero h = refl
occupied-clear (none ∷ ts) (suc k) h = occupied-clear ts k h
occupied-clear (some t ∷ ts) (suc k) h = ap suc (occupied-clear ts k h)

-- The release of an occupied slot, which is not slot 0.
pub clear_slot-Counted :
    (m : TaskManager) (k : ℕ)
    → 0 < k
    → is_some (get_or m.tasks k none) ≡ true
    → Counted m
    → Counted (clear_slot k m)
clear_slot-Counted m k low h v = record {
  count = ap pred_ℤ (v.count ∙ ap pos (sym (occupied-clear m.tasks k h)));
  idle =
      ap leader_of (get_or-set_ne m.tasks k 0 none none (λ e. absurd (omega (arith, e)))) ∙ v.idle;
}

pub map_tasks-Counted :
    (f : Task → Task) (m : TaskManager)
    → SameLeader f
    → Counted m
    → Counted (record m { tasks = map_tasks f m.tasks })
map_tasks-Counted f m h v = record {
  count = v.count ∙ ap pos (sym (occupied-map_tasks f m.tasks));
  idle =
      ap leader_of (get_or-map_tasks f m.tasks 0)
      ∙ leader_of-on_task f (get_or m.tasks 0 none) h
      ∙ v.idle;
}

pub change_task-Counted :
    (f : Task → Task) (k : ℕ) (m : TaskManager)
    → SameLeader f
    → Counted m
    → Counted (record m { tasks = change_task f k m.tasks })
change_task-Counted f k m h v = record {
  count = v.count ∙ ap pos (sym (occupied-change_task f k m.tasks));
  idle =
      ap leader_of (get_or-change_task f k m.tasks 0)
      ∙ if_intro (λ o. leader_of o ≡ leader_of (get_or m.tasks 0 none)) (0 == k)
          (on_task f (get_or m.tasks 0 none)) (get_or m.tasks 0 none)
          (λ e. leader_of-on_task f (get_or m.tasks 0 none) h) (λ e. refl)
      ∙ v.idle;
}

-- A new parent for the children of a process.
pub reparent_children_of-if :
    (P : Slots → Type 0) (ts : Slots) (pid : ℤ)
    → ((f : Task → Task) → SameLeader f → P (map_tasks f ts))
    → P ts
    → P (reparent_children_of ts pid)
unfolding reparent_children_of
reparent_children_of-if P ts pid h k =
    let init_slot = if eq_ℤ pid (pos 1) then none else live_init ts in
    if_intro P (is_pos pid) (map_tasks (λ t. if eq_ℤ t.ppid pid then adopt init_slot t else t) ts)
      ts (λ e. h _ (orphan-SameLeader pid init_slot)) (λ e. k)

pub reparent-Counted :
    (m : TaskManager) (pid : ℤ)
    → Counted m
    → Counted (record m { tasks = reparent_children_of m.tasks pid })
reparent-Counted m pid v =
    reparent_children_of-if (λ ts. Counted (record m { tasks = ts })) m.tasks pid
      (λ f h. map_tasks-Counted f m h v) v

pub is_some-reparent :
    (ts : Slots) (pid : ℤ) (k : ℕ)
    → is_some (get_or (reparent_children_of ts pid) k none) ≡ is_some (get_or ts k none)
is_some-reparent ts pid k =
    reparent_children_of-if (λ us. is_some (get_or us k none) ≡ is_some (get_or ts k none)) ts pid
      (λ f h. is_some-map_tasks f ts k) refl

pub remove_task-Counted :
    (owners : List (Option ℕ)) (id : ℕ) (m : TaskManager)
    → Counted m
    → Counted (remove_task owners id m)
unfolding remove_task
remove_task-Counted owners id m v =
    if_intro Counted (not (id == 0) && ltb id (length m.tasks) && not (owned owners id))
      (elim (get_or m.tasks id none) [
        | none ↦ m
        | some t ↦ clear_slot id (record m { tasks = reparent_children_of m.tasks t.pid })
      ])
      m (λ h. by_task (get_or m.tasks id none) refl (ground (arith, h))) (λ h. v)
  where
    by_task :
        (o : Option Task)
        → get_or m.tasks id none ≡ o
        → 0 < id
        → Counted (elim o [
          | none ↦ m
          | some t ↦ clear_slot id (record m { tasks = reparent_children_of m.tasks t.pid })
        ])
    by_task none e low = v
    by_task (some t) e low =
        clear_slot-Counted _ id low (is_some-reparent m.tasks t.pid id ∙ ap is_some e)
          (reparent-Counted m t.pid v)

pub reap_thread-Counted :
    (owners : List (Option ℕ)) (id : ℕ) (m : TaskManager)
    → Counted m
    → Counted (reap_thread owners id m).1
unfolding reap_thread
reap_thread-Counted owners id m v =
    if_intro (λ (r : Bool × TaskManager). Counted r.1)
      (id == 0
        || leb (length m.tasks) id
        || owned owners id
        || not (is_exited_thread (get_or m.tasks id none)))
      (false, m) (true, clear_slot id m) (λ h. v)
      (λ h.
        clear_slot-Counted m id (ground (arith, h))
          (by_task (get_or m.tasks id none) (ground (arith, h))) v)
  where
    by_task : (o : Option Task) → is_exited_thread o ≡ true → is_some o ≡ true
    by_task none h = h
    by_task (some t) h = refl

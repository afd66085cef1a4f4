-- ===== src/Signal/InSlot.antt =====
-- Predicates of the task in a slot, and the changes of the table that keep them.
use felix.Prelude.{
  ℕ, ◌≡◌, sym, subst, true, Option, none, some, ◌==◌, if◌then◌else◌, get_or, if_intro, ℤ, pos, eq_ℤ,
  is_pos,
}
use felix.Task.Defs.{Slots, Task, WaitReason, wake, blocked_on}
use felix.Task.Table.{
  on_task, change_task, map_tasks, reparent_children_of, wake_waiters, adopt, live_init,
}
use felix.Task.Lookups.{get_or-change_task, get_or-map_tasks}

-- A predicate of the task in a slot, if there is one.
abbrev pub InSlot : (Task → Type 0) → Option Task → Type 0
InSlot P none = Unit
InSlot P (some t) = P t

InSlot-on_task :
    (P : Task → Type 0) (f : Task → Task) (o : Option Task)
    → ((t : Task) → P t → P (f t))
    → InSlot P o
    → InSlot P (on_task f o)
InSlot-on_task P f none h v = tt
InSlot-on_task P f (some t) h v = h t v

module _ (P : Task → Type 0) (k : ℕ) (ts : Slots) (v : InSlot P (get_or ts k none)) where
  InSlot-map_tasks :
      (f : Task → Task) → ((t : Task) → P t → P (f t)) → InSlot P (get_or (map_tasks f ts) k none)
  InSlot-map_tasks f h =
      subst (InSlot P) (sym (get_or-map_tasks f ts k)) (InSlot-on_task P f (get_or ts k none) h v)

  pub InSlot-change_task :
      (f : Task → Task) (s : ℕ)
      → ((t : Task) → P t → P (f t))
      → InSlot P (get_or (change_task f s ts) k none)
  InSlot-change_task f s h = subst (InSlot P) (sym (get_or-change_task f s ts k)) (
      if_intro (InSlot P) (k == s) (on_task f (get_or ts k none)) (get_or ts k none)
        (λ e. InSlot-on_task P f (get_or ts k none) h v) (λ e. v))

  pub InSlot-wake :
      (r : WaitReason)
      → ((t : Task) → P t → blocked_on r t.state ≡ true → P (wake t))
      → InSlot P (get_or (wake_waiters r ts).1 k none)
  unfolding wake_waiters
  InSlot-wake r h =
      InSlot-map_tasks (λ t. if blocked_on r t.state then wake t else t)
        (λ t p. if_intro P (blocked_on r t.state) (wake t) t (λ b. h t p b) (λ b. p))

  pub InSlot-reparent :
      (pid : ℤ)
      → ((o : Option ℕ) (t : Task) → P t → P (adopt o t))
      → InSlot P (get_or (reparent_children_of ts pid) k none)
  unfolding reparent_children_of
  InSlot-reparent pid h =
      if_intro (λ us. InSlot P (get_or us k none)) (is_pos pid)
        (map_tasks (λ t. if eq_ℤ t.ppid pid then adopt init_slot t else t) ts) ts
        (λ e. InSlot-map_tasks _ (λ t p.
          if_intro P (eq_ℤ t.ppid pid) (adopt init_slot t) t (λ b. h init_slot t p) (λ b. p)))
        (λ e. v)
    where
      init_slot : Option ℕ
      init_slot = if eq_ℤ pid (pos 1) then none else live_init ts

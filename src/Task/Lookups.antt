-- ===== src/Task/Lookups.antt =====
-- What the changes of the task table leave in each slot.
use felix.Prelude.{
  ℕ, zero, suc, ◌≡◌, refl, ap, ◌∙◌, Option, none, some, [], ◌∷◌, ◌==◌, if◌then◌else◌, get_or,
  is_some, get_or-update, Bool-cases, inl, inr,
}
use felix.Task.Defs.{Slots, Task}
use felix.Task.Table.{map_tasks, on_task, change_task}

pub get_or-map_tasks :
    (f : Task → Task) (ts : Slots) (k : ℕ)
    → get_or (map_tasks f ts) k none ≡ on_task f (get_or ts k none)
unfolding map_tasks
get_or-map_tasks f [] k = refl
get_or-map_tasks f (none ∷ ts) zero = refl
get_or-map_tasks f (some t ∷ ts) zero = refl
get_or-map_tasks f (none ∷ ts) (suc k) = get_or-map_tasks f ts k
get_or-map_tasks f (some t ∷ ts) (suc k) = get_or-map_tasks f ts k

pub get_or-change_task :
    (f : Task → Task) (s : ℕ) (ts : Slots) (k : ℕ)
    → get_or (change_task f s ts) k none
      ≡ (if k == s then on_task f (get_or ts k none) else get_or ts k none)
get_or-change_task f s ts k = get_or-update (on_task f) ts s k none refl

pub is_some-on_task : (f : Task → Task) (o : Option Task) → is_some (on_task f o) ≡ is_some o
is_some-on_task f none = refl
is_some-on_task f (some t) = refl

-- No change of tasks fills or empties a slot.
pub is_some-map_tasks :
    (f : Task → Task) (ts : Slots) (k : ℕ)
    → is_some (get_or (map_tasks f ts) k none) ≡ is_some (get_or ts k none)
is_some-map_tasks f ts k =
    ap is_some (get_or-map_tasks f ts k) ∙ is_some-on_task f (get_or ts k none)

pub is_some-change_task :
    (f : Task → Task) (s : ℕ) (ts : Slots) (k : ℕ)
    → is_some (get_or (change_task f s ts) k none) ≡ is_some (get_or ts k none)
is_some-change_task f s ts k =
    ap is_some (get_or-change_task f s ts k) ∙ elim (Bool-cases (k == s)) [
      | inl h ↦ rw h (is_some-on_task f (get_or ts k none))
      | inr h ↦ rw h refl
    ]

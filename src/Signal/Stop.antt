-- ===== src/Signal/Stop.antt =====
-- Job control: a process that is stopped and continued.
use felix.Prelude.{
  ℕ, zero, suc, ◌<◌, ◌≡◌, refl, sym, ap, ◌∙◌, subst, Bool, true, false, not, Option, none, some,
  List, [], ◌∷◌, ◌==◌, if◌then◌else◌, get_or, set, ==_self, arith,
}
use mathlib.Core.Bool.{false≢true}
use felix.Task.Defs.{Slots, Task, child, wake, blocked_on, runnable, ready}
use felix.Task.Table.{on_task, change_task, wake_waiters, slot_is, process_slot, leader_or}
use felix.Task.Lookups.{get_or-change_task, get_or-map_tasks}
use felix.Signal.Defs.{
  members_do, wake_children, stop_thread, latch_stop, stop_task_with_signal, continue_thread,
  latch_continue, continue_task, is_stopped, alive, pends, discard, sigcont, sigstop, sigtstp,
  sigttin, sigttou,
}
use felix.Signal.InSlot.{InSlot}
use felix.Signal.Members.{get_or-members_do, led}

abbrev woken_child : Task → Task
woken_child t = if blocked_on child t.state then wake t else t

on_task-twice :
    (f g : Task → Task) (o : Option Task) → on_task f (on_task g o) ≡ on_task (λ t. f (g t)) o
on_task-twice f g none = refl
on_task-twice f g (some t) = refl

-- A loop over the threads, a change of the leader and a wake-up, slot by slot.
module _ (f g : Task → Task) (leader : ℕ) (ts : Slots) where
  changed_at : ℕ → Task → Task
  changed_at k t = woken_child (if k == leader then g (led leader f t) else led leader f t)

  get_or-change_process :
      (k : ℕ)
      → get_or (wake_children (change_task g leader (members_do f leader ts))) k none
        ≡ on_task (changed_at k) (get_or ts k none)
  unfolding wake_waiters changed_at
  get_or-change_process k =
      let members = members_do f leader ts in
      get_or-map_tasks woken_child (change_task g leader members) k
      ∙ ap (on_task woken_child) (
          get_or-change_task g leader members k
          ∙ ap (λ o. if k == leader then on_task g o else o) (get_or-members_do f leader ts k))
      ∙ both (k == leader) (get_or ts k none)
    where
      both :
          (b : Bool) (o : Option Task)
          → on_task woken_child
              (if b then on_task g (on_task (led leader f) o) else on_task (led leader f) o)
            ≡ on_task (λ t. woken_child (if b then g (led leader f t) else led leader f t)) o
      both true none = refl
      both true (some t) = refl
      both false none = refl
      both false (some t) = refl

  -- A thread of the process that the wake-up does not find waiting for a child.
  member_at :
      (k : ℕ) (t : Task)
      → get_or ts k none ≡ some t
      → t.leader_slot ≡ some leader
      → blocked_on child (f t).state ≡ false
      → blocked_on child (g (f t)).state ≡ false
      → get_or (wake_children (change_task g leader (members_do f leader ts))) k none
        ≡ some (if k == leader then g (f t) else f t)
  unfolding changed_at
  member_at k t at lead p q =
      get_or-change_process k ∙ ap (on_task (changed_at k)) at ∙ ap some (by_slot (k == leader))
    where
      mine : slot_is t.leader_slot leader ≡ true
      mine = ap (λ o. slot_is o leader) lead ∙ ==_self leader

      by_slot :
          (b : Bool)
          → woken_child (if b then g (led leader f t) else led leader f t)
            ≡ (if b then g (f t) else f t)
      by_slot true = rw mine (rw q refl)
      by_slot false = rw mine (rw p refl)

-- A live process that is not stopped, by the slot of its leader, whose own thread has not exited.
pub record Going (leader : ℕ) (t : Task) (ts : Slots) : Type 0 where
  pub started : 0 < leader
  pub here : get_or ts leader none ≡ some t
  pub leads : t.leader_slot ≡ some leader
  pub live : t.zombie ≡ false
  pub going : t.stopped ≡ false
  pub active : t.thread_exited ≡ false

-- A thread of the process that has not exited.
pub record Thread (leader : ℕ) (ts : Slots) (k : ℕ) (u : Task) : Type 0 where
  pub here : get_or ts k none ≡ some u
  pub led_by : u.leader_slot ≡ some leader
  pub active : u.thread_exited ≡ false

process_slot-leader :
    (leader : ℕ) (t : Task) (ts : Slots)
    → get_or ts leader none ≡ some t
    → t.leader_slot ≡ some leader
    → process_slot ts leader ≡ leader
process_slot-leader leader t ts here leads = ap (leader_or leader) here ∙ rw leads refl

module _ (leader sig : ℕ) (t : Task) (ts : Slots) (g : Going leader t ts) where
  after_stop : Slots
  after_stop =
      wake_children (change_task (latch_stop sig) leader (members_do stop_thread leader ts))

  stop-run : stop_task_with_signal leader sig ts ≡ (true, after_stop)
  unfolding stop_task_with_signal after_stop
  stop-run =
      let started : (leader == 0) ≡ false = ground (arith, g.started) in
      rw (process_slot-leader leader t ts g.here g.leads)
        (rw started (rw g.here (rw g.live (rw g.going refl))))

  stop-Thread :
      (k : ℕ) (u : Task)
      → Thread leader ts k u
      → get_or after_stop k none
        ≡ some (if k == leader then latch_stop sig (stop_thread u) else stop_thread u)
  unfolding after_stop
  stop-Thread k u v =
      member_at stop_thread (latch_stop sig) leader ts k u v.here v.led_by (rw v.active refl)
        (rw v.active refl)

  leader-Thread : Thread leader ts leader t
  leader-Thread = record { here = g.here; led_by = g.leads; active = g.active }

  stopped_leader : get_or after_stop leader none ≡ some (latch_stop sig (stop_thread t))
  stopped_leader =
      stop-Thread leader t leader-Thread
      ∙ ap (λ b. some (if b then latch_stop sig (stop_thread t) else stop_thread t))
          (==_self leader)

  after_continue : Slots
  after_continue =
      wake_children
        (change_task (latch_continue true) leader (members_do continue_thread leader after_stop))

  stopped_task : Task
  stopped_task = latch_stop sig (stop_thread t)

  stopped_task-flags :
      (stopped_task.leader_slot ≡ some leader)
      × (stopped_task.stopped ≡ true)
      × (stopped_task.zombie ≡ false)
      × (stopped_task.thread_exited ≡ false)
  unfolding stopped_task
  stopped_task-flags = (rw g.active g.leads, rw g.active refl, rw g.active g.live, rw g.active refl)

  was_stopped : is_stopped (get_or after_stop leader none) ≡ true
  was_stopped = ap is_stopped stopped_leader ∙ unfold stopped_task in stopped_task-flags.1

  still_alive : alive (get_or (members_do continue_thread leader after_stop) leader none) ≡ true
  unfolding stopped_task
  still_alive =
      ap alive (
        get_or-members_do continue_thread leader after_stop leader
        ∙ ap (on_task (led leader continue_thread)) stopped_leader)
      ∙ unzombied (slot_is (latch_stop sig (stop_thread t)).leader_slot leader)
    where
      unzombied :
          (b : Bool)
          → not
              (if b
                then continue_thread (latch_stop sig (stop_thread t))
                else latch_stop sig (stop_thread t)).zombie
            ≡ true
      unzombied true = rw g.active (ap not g.live)
      unzombied false = rw g.active (ap not g.live)

  continue-run : continue_task leader after_stop ≡ (true, after_continue)
  unfolding continue_task after_continue
  continue-run =
      let started : (leader == 0) ≡ false = ground (arith, g.started) in
      rw
        (process_slot-leader leader (latch_stop sig (stop_thread t)) after_stop stopped_leader
          (unfold stopped_task in stopped_task-flags.0))
        (rw started (rw still_alive (rw was_stopped refl)))

  stopped-Thread :
      (k : ℕ) (u : Task)
      → Thread leader ts k u
      → Thread leader after_stop k
          (if k == leader then latch_stop sig (stop_thread u) else stop_thread u)
  stopped-Thread k u v = record {
    here = stop-Thread k u v;
    led_by = by_slot (k == leader);
    active = still_active (k == leader);
  }
    where
      by_slot :
          (b : Bool)
          → (if b then latch_stop sig (stop_thread u) else stop_thread u).leader_slot ≡ some leader
      by_slot true = rw v.active v.led_by
      by_slot false = rw v.active v.led_by

      still_active :
          (b : Bool)
          → (if b then latch_stop sig (stop_thread u) else stop_thread u).thread_exited ≡ false
      still_active true = rw v.active refl
      still_active false = rw v.active refl

  -- The thread after both calls.
  continued : ℕ → Task → Task
  continued k u = if k == leader then latch_continue true (continue_thread u) else continue_thread u

  continue-Thread :
      (k : ℕ) (u : Task)
      → Thread leader after_stop k u
      → get_or after_continue k none ≡ some (continued k u)
  unfolding after_continue continued
  continue-Thread k u v =
      member_at continue_thread (latch_continue true) leader after_stop k u v.here v.led_by
        (rw v.active refl) (rw v.active refl)

-- A thread that can be claimed, if its process is no zombie.
abbrev pub Resumed : Task → Type 0
Resumed u = (u.running ≡ true) × (u.state ≡ runnable) × (u.stopped ≡ false)

-- Both transitions of the process wait for its parent.
abbrev pub Reported : ℕ → Task → Type 0
Reported sig u =
    (u.stop_signal ≡ sig)
    × (u.wait_stopped_pending ≡ true)
    × (u.wait_continued_pending ≡ true)
    × (pends sigcont u.pending_signals ≡ false)

-- What a stop and then a continuation leave.
abbrev pub StopContinue : ℕ → ℕ → ℕ → Bool × Slots → Bool × Slots → Type 0
StopContinue leader sig k r q =
    (r.0 ≡ true)
    × (q.0 ≡ true)
    × (ready (get_or r.1 k none) ≡ false)
    × InSlot Resumed (get_or q.1 k none)
    × InSlot (Reported sig) (get_or q.1 leader none)

discarded : (mask : List Bool) (i : ℕ) → get_or (set mask i false) i false ≡ false
discarded [] i = refl
discarded (b ∷ bs) zero = refl
discarded (b ∷ bs) (suc i) = discarded bs i

-- A live process that is not stopped is stopped by a signal and then continued, both by the slot of
-- its leader, where neither the leader nor the thread in slot `k` has exited: both calls succeed; in
-- between the thread is not ready; afterwards it runs again; and the stop is still to be reported to
-- the parent, like the continuation.
pub stop-continue :
    (leader sig k : ℕ) (t u : Task) (ts : Slots)
    → Going leader t ts
    → Thread leader ts k u
    → StopContinue leader sig k
        (stop_task_with_signal leader sig ts)
        (continue_task leader (stop_task_with_signal leader sig ts).1)
stop-continue leader sig k t u ts g v =
    subst (λ r. StopContinue leader sig k r (continue_task leader r.1))
      (sym (stop-run leader sig t ts g))
      (subst (StopContinue leader sig k (true, after_stop leader sig t ts g))
        (sym (continue-run leader sig t ts g))
        (
          refl,
          refl,
          ap ready (stop-Thread leader sig t ts g k u v) ∙ idle (k == leader),
          subst (InSlot Resumed)
              (sym (continue-Thread leader sig t ts g k _ (stopped-Thread leader sig t ts g k u v)))
              (unfold continued in resumed (k == leader)),
          subst (InSlot (Reported sig))
              (sym (
                continue-Thread leader sig t ts g leader _
                  (stopped-Thread leader sig t ts g leader t (leader-Thread leader sig t ts g))))
              (unfold continued in reported (leader == leader) (==_self leader)),
        ))
  where
    idle :
        (b : Bool)
        → ready (some (if b then latch_stop sig (stop_thread u) else stop_thread u)) ≡ false
    idle true = rw v.active refl
    idle false = rw v.active refl

    resumed :
        (b : Bool)
        → (let w = if b then latch_stop sig (stop_thread u) else stop_thread u in
            Resumed (if b then latch_continue true (continue_thread w) else continue_thread w))
    resumed true = rw v.active (refl, refl, refl)
    resumed false = rw v.active (refl, refl, refl)

    reported :
        (b : Bool)
        → b ≡ true
        → (let v = if b then latch_stop sig (stop_thread t) else stop_thread t in
            Reported sig (if b then latch_continue true (continue_thread v) else continue_thread v))
    reported true h =
        let mask = discard sigstop (
          discard sigtstp (
            discard sigttin (discard sigttou (discard sigcont (discard sig t.pending_signals))))) in
        rw g.active (refl, refl, refl, discarded mask 17)
    reported false h = absurd (false≢true h)

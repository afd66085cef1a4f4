-- ===== src/Signal/First.antt =====
-- The loop of `deliver_pending` against a search for the first signal that has an effect.
use felix.Prelude.{
  ℕ, zero, ◌≢◌, suc, ◌+◌, ◌-◌, ◌%◌, ◌<◌, ◌≡◌, refl, sym, ap, ◌∙◌, Bool, true, false, ◌&&◌, ◌||◌,
  not, Option, none, some, List, [], ◌∷◌, ◌++◌, ◌==◌, if◌then◌else◌, get_or, set, set-get_or,
  replicate, length, ==_self, Bool-cases, inl, inr, arith,
}
use mathlib.Core.Bool.{false≢true}
use felix.Task.Defs.{Slots, Task}
use felix.Task.Table.{on_task, change_task, process_slot}
use felix.Task.Lookups.{get_or-change_task}
use felix.Task.Schedule.{with_tasks}
use felix.Signal.Defs.{default_terminate, discard, valid_signal}
use felix.Signal.Deliver.{
  Interrupt, deliverable, handlers_of, drop_signal, clear_signal, call_handler, kill_and_switch,
  busy_slot, then_after, deliver_loop, deliver_pending,
}

-- A signal has an effect if it has a handler, or if it has the default action and that one kills.
abbrev pub effective : ℕ → ℕ → Bool
effective handler sig = not (handler == 1) && (not (handler == 0) || default_terminate sig)

-- The lowest bit from `k` on whose signal has an effect, and the bits above it.
abbrev pub first_effective : List ℕ → ℕ → List Bool → Option (ℕ × List Bool)
first_effective handlers k [] = none
first_effective handlers k (b ∷ bits) =
    if b && effective (get_or handlers k 0) (suc k)
    then some (k, bits)
    else first_effective handlers (suc k) bits

-- The bits from `k` on that are set stand for signals.
abbrev pub OnlySignals : ℕ → List Bool → Type 0
OnlySignals k bits = (i : ℕ) → get_or bits i false ≡ true → k + i < 31

abbrev pub mask_with : List Bool → Task → Task
mask_with m t = record t { pending_signals = m }

in_range : (bits : List Bool) (i : ℕ) → get_or bits i false ≡ true → i < length bits
in_range [] i h = absurd (false≢true h)
in_range (b ∷ bits) zero h = omega arith
in_range (b ∷ bits) (suc i) h = omega (arith, in_range bits i h)

word-OnlySignals :
    (bits : List Bool) → length bits ≡ 32 → get_or bits 31 false ≡ false → OnlySignals 0 bits
word-OnlySignals bits e last i h =
    let low : i < 32 = omega (arith, in_range bits i h, e) in
    let other : i ≢ 31 = λ q. false≢true (sym last ∙ ap (λ j. get_or bits j false) (sym q) ∙ h) in
    omega (arith, low, other)

-- The task in a slot with other pending signals.
abbrev pub with_mask : ℕ → List Bool → Interrupt → Interrupt
with_mask slot m ι = record ι {
  system = with_tasks ι.system (change_task (mask_with m) slot ι.system.manager.tasks);
}

-- The bits below `k` are dropped.
abbrev pub from_bit : ℕ → List Bool → List Bool
from_bit k bits = replicate k false ++ bits

-- What the delivery leaves, by the first signal that has an effect.
abbrev pub outcome :
    ℕ → ℕ → ℕ → ℕ → Interrupt → List ℕ → ℕ → Option (ℕ × List Bool) → Option (ℕ × Interrupt)
outcome cpu now esp slot ι handlers n none = some (esp, with_mask slot (replicate n false) ι)
outcome cpu now esp slot ι handlers n (some (k, bits)) =
    let handler = get_or handlers k 0 in
    if not (handler == 0)
    then some (esp, call_handler (suc k) handler (with_mask slot (from_bit (suc k) bits) ι))
    else then_after cpu now
        (kill_and_switch cpu now esp slot (suc k) (with_mask slot (from_bit k (true ∷ bits)) ι))

change_task-twice :
    (f g : Task → Task) (s : ℕ) (ts : Slots)
    → change_task f s (change_task g s ts) ≡ change_task (λ t. f (g t)) s ts
change_task-twice f g s [] = refl
change_task-twice f g zero (none ∷ ts) = refl
change_task-twice f g zero (some t ∷ ts) = refl
change_task-twice f g (suc s) (o ∷ ts) = ap (λ l. o ∷ l) (change_task-twice f g s ts)

from_bit-false : (k : ℕ) (bits : List Bool) → from_bit k (false ∷ bits) ≡ from_bit (suc k) bits
from_bit-false zero bits = refl
from_bit-false (suc k) bits = ap (λ l. false ∷ l) (from_bit-false k bits)

from_bit-end : (k : ℕ) → from_bit k [] ≡ replicate k false
from_bit-end zero = refl
from_bit-end (suc k) = ap (λ l. false ∷ l) (from_bit-end k)

set-from_bit :
    (k : ℕ) (b : Bool) (bits : List Bool)
    → set (from_bit k (b ∷ bits)) k false ≡ from_bit (suc k) bits
set-from_bit zero b bits = refl
set-from_bit (suc k) b bits = ap (λ l. false ∷ l) (set-from_bit k b bits)

discard-from_bit :
    (k : ℕ) (bits : List Bool)
    → k < 31
    → discard (suc k) (from_bit k (true ∷ bits)) ≡ from_bit (suc k) bits
discard-from_bit k bits h =
    let valid : valid_signal (suc k) ≡ true = ground (arith, h) in
    let same : suc k - 1 ≡ k = omega arith in rw valid (rw same (set-from_bit k true bits))

module _ (cpu now esp slot : ℕ) (ι : Interrupt) where
  handlers : List ℕ
  handlers = handlers_of (get_or ι.system.manager.tasks slot none)

  masked : ℕ → List Bool → Interrupt
  masked k bits = with_mask slot (from_bit k bits) ι

  handlers_of-masked :
      (k : ℕ) (bits : List Bool)
      → handlers_of (get_or (masked k bits).system.manager.tasks slot none) ≡ handlers
  unfolding masked handlers
  handlers_of-masked k bits =
      ap handlers_of (
        get_or-change_task (mask_with (from_bit k bits)) slot ι.system.manager.tasks slot
        ∙ ap
            (λ b.
              if b
              then on_task (mask_with (from_bit k bits)) (get_or ι.system.manager.tasks slot none)
              else get_or ι.system.manager.tasks slot none)
            (==_self slot))
      ∙ same (get_or ι.system.manager.tasks slot none)
    where
      same :
          (o : Option Task) → handlers_of (on_task (mask_with (from_bit k bits)) o) ≡ handlers_of o
      same none = refl
      same (some t) = refl

  masked-false : (k : ℕ) (bits : List Bool) → masked k (false ∷ bits) ≡ masked (suc k) bits
  unfolding masked
  masked-false k bits = ap (λ m. with_mask slot m ι) (from_bit-false k bits)

  drop_signal-masked :
      (k : ℕ) (bits : List Bool)
      → k < 31
      → drop_signal slot (suc k) (masked k (true ∷ bits)) ≡ masked (suc k) bits
  unfolding masked
  drop_signal-masked k bits h =
      ap (λ ts. record ι { system = with_tasks ι.system ts })
        (change_task-twice (clear_signal (suc k)) (mask_with (from_bit k (true ∷ bits))) slot
          ι.system.manager.tasks)
      ∙ ap (λ m. with_mask slot m ι) (discard-from_bit k bits h)

  -- What the loop does at a signal, by its handler and what is left once it is dropped.
  act : ℕ → List Bool → ℕ → Interrupt → Option (ℕ × Interrupt)
  act k bits handler dropped =
      if handler == 1
      then deliver_loop cpu now esp slot (suc k) bits dropped
      else (if not (handler == 0)
          then some (esp, call_handler (suc k) handler dropped)
          else (if default_terminate (suc k)
              then then_after cpu now
                  (kill_and_switch cpu now esp slot (suc k) (masked k (true ∷ bits)))
              else deliver_loop cpu now esp slot (suc k) bits dropped))

  concluded : ℕ → Option (ℕ × List Bool) → Option (ℕ × Interrupt)
  concluded n r = outcome cpu now esp slot ι handlers n r

  -- One signal, by what its handler `h` is.
  by_handler :
      (n k h : ℕ) (bits : List Bool)
      → get_or handlers k 0 ≡ h
      → deliver_loop cpu now esp slot (suc k) bits (masked (suc k) bits)
        ≡ concluded n (first_effective handlers (suc k) bits)
      → act k bits h (masked (suc k) bits)
        ≡ concluded n
            (if effective h (suc k) then some (k, bits) else first_effective handlers (suc k) bits)
  unfolding concluded masked act
  by_handler n k h bits q later = elim (Bool-cases (h == 1)) [
    | inl one ↦ rw one later
    | inr other ↦ rw other (elim (Bool-cases (h == 0)) [
      | inl default ↦ rw default (elim (Bool-cases (default_terminate (suc k))) [
        | inl kills ↦ rw kills (rw q (rw default refl))
        | inr keeps ↦ rw keeps later
      ])
      | inr handled ↦ rw handled (rw q (rw handled refl))
    ])
  ]

  deliver_loop-first :
      (n k : ℕ) (bits : List Bool)
      → OnlySignals k bits
      → k + length bits ≡ n
      → deliver_loop cpu now esp slot k bits (masked k bits)
        ≡ concluded n (first_effective handlers k bits)
  unfolding deliver_loop concluded act
  deliver_loop-first n k [] only e =
      unfold masked in
      ap (λ m. some (esp, with_mask slot m ι))
        (from_bit-end k ∙ ap (λ i. replicate i false) (omega (arith, e)))
  deliver_loop-first n k (false ∷ bits) only e =
      ap (λ j. deliver_loop cpu now esp slot (suc k) bits j) (masked-false k bits)
      ∙ deliver_loop-first n (suc k) bits (λ i h. omega (arith, only (suc i) h)) (omega (arith, e))
  deliver_loop-first n k (true ∷ bits) only e =
      let later =
        deliver_loop-first n (suc k) bits (λ i h. omega (arith, only (suc i) h))
          (omega (arith, e)) in
      let dropped = drop_signal slot (suc k) (masked k (true ∷ bits)) in
      ap (λ hs. act k bits (get_or hs k 0) dropped) (handlers_of-masked k (true ∷ bits))
      ∙ ap (act k bits (get_or handlers k 0))
          (drop_signal-masked k bits (omega (arith, only 0 refl)))
      ∙ by_handler n k (get_or handlers k 0) bits refl later

pub deliver_pending-outcome :
    (cpu now esp slot s : ℕ) (t : Task) (ι : Interrupt)
    → ι.frame.cs % 4 ≡ 3
    → busy_slot (get_or ι.system.on_cpu cpu none) ≡ some s
    → process_slot ι.system.manager.tasks s ≡ slot
    → get_or ι.system.manager.tasks slot none ≡ some t
    → t.running ≡ true
    → t.zombie ≡ false
    → length t.pending_signals ≡ 32
    → get_or t.pending_signals 31 false ≡ false
    → deliver_pending cpu now esp ι
      ≡ outcome cpu now esp slot ι t.signal_handlers 32
          (first_effective t.signal_handlers 0 t.pending_signals)
unfolding deliver_pending masked
deliver_pending-outcome cpu now esp slot s t ι user busy leader here runs lives word last =
    let from_user : (ι.frame.cs % 4 == 3) ≡ true = rw user refl in
    rw from_user (
      rw busy (
        rw leader (
          rw takes (
            ap (deliver_loop cpu now esp slot 0 t.pending_signals) as_masked
            ∙ deliver_loop-first cpu now esp slot ι 32 0 t.pending_signals
                (word-OnlySignals t.pending_signals word last) (omega (arith, word))
            ∙ unfold concluded handlers in
              ap (λ hs. outcome cpu now esp slot ι hs 32 (first_effective hs 0 t.pending_signals))
                (ap handlers_of here)))))
  where
    takes : deliverable (get_or ι.system.manager.tasks slot none) ≡ t.pending_signals
    takes = ap deliverable here ∙ rw runs (rw lives refl)

    as_masked : ι ≡ with_mask slot t.pending_signals ι
    as_masked =
        ap (λ ts. record ι { system = with_tasks ι.system ts })
          (sym (set-get_or ι.system.manager.tasks slot none)
            ∙ ap (λ o. set ι.system.manager.tasks slot o)
                (here ∙ sym (ap (on_task (mask_with t.pending_signals)) here)))

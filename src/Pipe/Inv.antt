-- ===== src/Pipe/Inv.antt =====
-- The invariant of the pipe table, and its operations.
use felix.Prelude.{
  ℕ, ◌+◌, ◌<◌, ◌≡◌, refl, ◌∙◌, inl, inr, Bool, true, false, List, arith, ltb, if◌then◌else◌,
  Option-cases, if_intro, not, some, none, All, All-set, All-get_or, All-replicate, length,
  length-set, length-replicate,
}
use felix.Pipe.{
  Pipe, Pipes, pipe_buf_size, max_pipes, empty, opened, initial, at, first_free, pipe_create,
  pipe_add_reader, pipe_add_writer, maybe_free, drop_reader, drop_writer, pipe_close_reader,
  pipe_close_writer, read_loop, pipe_try_read, write_loop, pipe_try_write, Op, create, add_reader,
  add_writer, close_reader, close_writer, try_read, try_write, step, put_at, added, countable, wake,
  live,
}
use felix.Pipe.Ring.{InRing, SameEnds, read_loop-Took, write_loop-Put}

pub record PipeInv (p : Pipe) : Type 0 where
  pub ring : InRing p
  pub idle : p.in_use ≡ false → p.readers + p.writers ≡ 0
  pub busy : p.in_use ≡ true → 0 < p.readers + p.writers

pub record Inv (s : Pipes) : Type 0 where
  pub slots : length s.pipes ≡ max_pipes
  pub each : All PipeInv s.pipes

empty-InRing : InRing empty
unfolding empty
empty-InRing = record {
  storage = length-replicate {A = ℕ} pipe_buf_size 0;
  head_at = refl;
  tail_in = omega arith;
  len_in = omega arith;
}

pub empty-PipeInv : PipeInv empty
unfolding empty
empty-PipeInv = record { ring = empty-InRing; idle = λ _. refl; busy = λ h. cc }

opened-PipeInv : PipeInv opened
unfolding empty
opened-PipeInv =
    let r = empty-InRing in
    record {
      ring = record {
        storage = r.storage;
        head_at = r.head_at;
        tail_in = r.tail_in;
        len_in = r.len_in;
      };
      idle = λ h. cc;
      busy = λ _. omega arith;
    }

pub initial-Inv : Inv initial
unfolding initial
initial-Inv = record {
  slots = length-replicate max_pipes empty;
  each = All-replicate PipeInv max_pipes empty empty-PipeInv;
}

-- What stands at any index is in order, since a read out of range gives the empty pipe.
pub at-PipeInv : (s : Pipes) (id : ℕ) → Inv s → PipeInv (at s id)
at-PipeInv s id v = All-get_or PipeInv s.pipes id empty v.each empty-PipeInv

put_at-Inv : (s : Pipes) (id : ℕ) (p : Pipe) → Inv s → PipeInv p → Inv (put_at s id p)
put_at-Inv s id p v w = record {
  slots = length-set s.pipes id p ∙ v.slots;
  each = All-set PipeInv s.pipes id p v.each w;
}

-- Moving bytes keeps the ends, so it keeps their part of the invariant.
moved-PipeInv : {p q : Pipe} → PipeInv p → InRing q → SameEnds p q → PipeInv q
moved-PipeInv v r e = ground (arith, v.idle, v.busy)

more_readers-PipeInv :
    (p : Pipe) → PipeInv p → p.in_use ≡ true → PipeInv (record p { readers = p.readers + 1 })
more_readers-PipeInv p v used = ground (arith, v.ring, used)

more_writers-PipeInv :
    (p : Pipe) → PipeInv p → p.in_use ≡ true → PipeInv (record p { writers = p.writers + 1 })
more_writers-PipeInv p v used = ground (arith, v.ring, used)

used_of_live : (s : Pipes) (id : ℕ) → live s id ≡ true → (at s id).in_use ≡ true
used_of_live s id h = ground arith

add_reader-Inv : (s : Pipes) (id : ℕ) → Inv s → Inv (added s (pipe_add_reader s id)).1
unfolding pipe_add_reader
add_reader-Inv s id v =
    if_intro (λ o. Inv (added s o).1) (not (live s id)) (some s) _ (λ _. v)
      (λ h.
        if_intro (λ o. Inv (added s o).1) (countable (at s id).readers) _ none
          (λ _. put_at-Inv s id _ v (
            more_readers-PipeInv (at s id) (at-PipeInv s id v)
              (used_of_live s id (ground (arith, h)))))
          (λ _. v))

add_writer-Inv : (s : Pipes) (id : ℕ) → Inv s → Inv (added s (pipe_add_writer s id)).1
unfolding pipe_add_writer
add_writer-Inv s id v =
    if_intro (λ o. Inv (added s o).1) (not (live s id)) (some s) _ (λ _. v)
      (λ h.
        if_intro (λ o. Inv (added s o).1) (countable (at s id).writers) _ none
          (λ _. put_at-Inv s id _ v (
            more_writers-PipeInv (at s id) (at-PipeInv s id v)
              (used_of_live s id (ground (arith, h)))))
          (λ _. v))

drop_reader-PipeInv : (p : Pipe) → PipeInv p → PipeInv (maybe_free (drop_reader p))
unfolding maybe_free drop_reader
drop_reader-PipeInv p v = ground (arith, v.ring, v.idle, v.busy)

drop_writer-PipeInv : (p : Pipe) → PipeInv p → PipeInv (maybe_free (drop_writer p))
unfolding maybe_free drop_writer
drop_writer-PipeInv p v = ground (arith, v.ring, v.idle, v.busy)

close_reader-Inv : (s : Pipes) (id : ℕ) → Inv s → Inv (pipe_close_reader s id)
unfolding pipe_close_reader
close_reader-Inv s id v =
    if_intro Inv _ _ _
      (λ _.
        let w = put_at-Inv s id _ v (drop_reader-PipeInv (at s id) (at-PipeInv s id v)) in
        record { slots = w.slots; each = w.each })
      (λ _. v)

close_writer-Inv : (s : Pipes) (id : ℕ) → Inv s → Inv (pipe_close_writer s id)
unfolding pipe_close_writer
close_writer-Inv s id v =
    if_intro Inv _ _ _
      (λ _.
        let w = put_at-Inv s id _ v (drop_writer-PipeInv (at s id) (at-PipeInv s id v)) in
        record { slots = w.slots; each = w.each })
      (λ _. v)

create-Inv : (s : Pipes) → Inv s → Inv (pipe_create s).1
unfolding pipe_create
create-Inv s v = elim (Option-cases (first_free s.pipes)) [
  | inl full ↦ rw (full, pipe_create) v
  | inr (i, here) ↦ rw (here, pipe_create) (put_at-Inv s i opened v opened-PipeInv)
]

wake-Inv : (b : Bool) (s : Pipes) → Inv s → Inv (if b then wake s else s)
wake-Inv true s v = record { slots = v.slots; each = v.each }
wake-Inv false s v = v

try_read-Inv : (s : Pipes) (id count : ℕ) → Inv s → Inv (pipe_try_read s id count).2
unfolding pipe_try_read
try_read-Inv s id count v =
    let w = at-PipeInv s id v in
    let t = read_loop-Took count (at s id) w.ring in
    let moved = put_at-Inv s id _ v (moved-PipeInv w t.ring t.ends) in
    ground (arith, moved, wake-Inv (ltb 0 (length (read_loop count (at s id)).0)) _ moved)

try_write-Inv : (s : Pipes) (id : ℕ) (src : List ℕ) → Inv s → Inv (pipe_try_write s id src).1
unfolding pipe_try_write
try_write-Inv s id src v =
    let w = at-PipeInv s id v in
    let t = write_loop-Put (at s id) src 0 w.ring in
    let moved = put_at-Inv s id _ v (moved-PipeInv w t.ring t.ends) in
    ground (arith, moved, wake-Inv (ltb 0 (write_loop (at s id) src 0).0) _ moved)

-- Every operation keeps the table of 16 slots, each ring in order, and each slot in use exactly as
-- long as a reader or a writer is left.
pub step-Inv : (s : Pipes) (op : Op) → Inv s → Inv (step s op).1
unfolding step
step-Inv s create v = create-Inv s v
step-Inv s (add_reader id) v = add_reader-Inv s id v
step-Inv s (add_writer id) v = add_writer-Inv s id v
step-Inv s (close_reader id) v = close_reader-Inv s id v
step-Inv s (close_writer id) v = close_writer-Inv s id v
step-Inv s (try_read id count) v = try_read-Inv s id count v
step-Inv s (try_write id src) v = try_write-Inv s id src v

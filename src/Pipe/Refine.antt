-- ===== src/Pipe/Refine.antt =====
-- The pipe table and the table of channels that its rings hold.
use felix.Prelude.{
  ℕ, suc, ◌+◌, ◌-◌, ◌≡◌, refl, ap, ◌∙◌, inl, inr, Bool, true, false, List, [], ◌∷◌, map, arith, ltb,
  if◌then◌else◌, Option-cases, set, length, set-map, get_or-map, set-get_or, some, none, not, ltb,
}
use mathlib.Core.Option
use felix.Pipe.{
  Pipe, Pipes, empty, opened, at, first_free, pipe_create, pipe_add_reader, pipe_add_writer,
  maybe_free, drop_reader, drop_writer, pipe_close_reader, pipe_close_writer, read_loop,
  pipe_try_read, write_loop, pipe_try_write, Op, create, add_reader, add_writer, close_reader,
  close_writer, try_read, try_write, step, run, put_at, wake, live, silent, added, countable,
  and_then,
}
use felix.Pipe.Ring.{contents, slots, length-slots, SameEnds, read_loop-Took, write_loop-Put}
use felix.Pipe.Inv.{Inv, at-PipeInv, step-Inv}
use felix.Pipe.Channel
use felix.Pipe.Channel.{
  Channel, Channels, closed, fresh, channel, change, add, settle, first_closed,
}

abbrev pub view : Pipe → Channel
view p = record { queue = contents p; readers = p.readers; writers = p.writers; in_use = p.in_use }

abbrev pub views : Pipes → Channels
views s = map view s.pipes

view-empty : view empty ≡ closed
unfolding empty slots
view-empty = refl

view-opened : view opened ≡ fresh
unfolding empty slots
view-opened = refl

channel-views : (s : Pipes) (id : ℕ) → channel (views s) id ≡ view (at s id)
channel-views s id = rw (← view-empty) (get_or-map view s.pipes id empty)

views-put_at : (s : Pipes) (id : ℕ) (p : Pipe) → views (put_at s id p) ≡ set (views s) id (view p)
views-put_at s id p = set-map view s.pipes id p

first_closed-views : (ps : List Pipe) → first_closed (map view ps) ≡ first_free ps
unfolding first_closed first_free
first_closed-views [] = refl
first_closed-views (p ∷ ps) =
    ap (λ r. if p.in_use then Option.map suc r else some 0) (first_closed-views ps)

create_refines :
    (s : Pipes) → let (r, s') = step s create in (r, views s') ≡ Channel.step (views s) create
unfolding step Channel.step pipe_create
create_refines s = elim (Option-cases (first_free s.pipes)) [
  | inl full ↦ ground (arith, full, first_closed-views s.pipes)
  | inr (i, here) ↦
      ground (arith, here, first_closed-views s.pipes, views-put_at s i opened, view-opened)
]

-- A change of a live pipe is a change of its channel.
change_refines :
    (s : Pipes) (id : ℕ) (p : Pipe) (f : Channel → Channel)
    → view p ≡ f (view (at s id))
    → views (if live s id then put_at s id p else s) ≡ change (views s) id f
change_refines s id p f e =
    ground (arith, channel-views s id, views-put_at s id p, ap f (channel-views s id), e)

-- One more end, counted by `count`, in the pipe and in its channel.
added_refines :
    (s : Pipes) (id n : ℕ) (p : Pipe) (count : Channel → ℕ) (f : Channel → Channel)
    → count (view (at s id)) ≡ n
    → view p ≡ f (view (at s id))
    → (let (r, s') = added s (
          if not (live s id) then some s else if countable n then some (put_at s id p) else none) in
        (r, views s'))
      ≡ add (views s) id count f
added_refines s id n p count f counts e = ground (
  arith,
  channel-views s id,
  ap count (channel-views s id),
  counts,
  views-put_at s id p,
  ap f (channel-views s id),
  e,
)

add_reader_refines :
    (s : Pipes) (id : ℕ)
    → let (r, s') = step s (add_reader id) in (r, views s') ≡ Channel.step (views s) (add_reader id)
unfolding step Channel.step pipe_add_reader
add_reader_refines s id =
    added_refines s id _ _ (λ c. c.readers) (λ c. record c { readers = c.readers + 1 }) refl refl

add_writer_refines :
    (s : Pipes) (id : ℕ)
    → let (r, s') = step s (add_writer id) in (r, views s') ≡ Channel.step (views s) (add_writer id)
unfolding step Channel.step pipe_add_writer
add_writer_refines s id =
    added_refines s id _ _ (λ c. c.writers) (λ c. record c { writers = c.writers + 1 }) refl refl

view-drop_reader :
    (p : Pipe)
    → view (maybe_free (drop_reader p)) ≡ settle (record (view p) { readers = p.readers - 1 })
unfolding maybe_free drop_reader
view-drop_reader p = ground arith

view-drop_writer :
    (p : Pipe)
    → view (maybe_free (drop_writer p)) ≡ settle (record (view p) { writers = p.writers - 1 })
unfolding maybe_free drop_writer
view-drop_writer p = ground arith

-- Waking the readers and writers leaves the table alone.
views-if_wake :
    (b : Bool) (s t : Pipes) → views (if b then wake s else t) ≡ views (if b then s else t)
views-if_wake true s t = refl
views-if_wake false s t = refl

close_reader_refines :
    (s : Pipes) (id : ℕ)
    → let (r, s') = step s (close_reader id) in
      (r, views s') ≡ Channel.step (views s) (close_reader id)
unfolding step Channel.step pipe_close_reader
close_reader_refines s id =
    ap (λ t. (silent, t))
      (views-if_wake (live s id) _ s
        ∙ change_refines s id _ (λ c. settle (record c { readers = c.readers - 1 }))
            (view-drop_reader (at s id)))

close_writer_refines :
    (s : Pipes) (id : ℕ)
    → let (r, s') = step s (close_writer id) in
      (r, views s') ≡ Channel.step (views s) (close_writer id)
unfolding step Channel.step pipe_close_writer
close_writer_refines s id =
    ap (λ t. (silent, t))
      (views-if_wake (live s id) _ s
        ∙ change_refines s id _ (λ c. settle (record c { writers = c.writers - 1 }))
            (view-drop_writer (at s id)))

views-wake : (b : Bool) (s : Pipes) → views (if b then wake s else s) ≡ views s
views-wake true s = refl
views-wake false s = refl

-- Putting back what is there changes nothing.
set_same : (s : Pipes) (id : ℕ) → set (views s) id (channel (views s) id) ≡ views s
set_same s id = set-get_or (views s) id closed

-- After the loops, the pipe's view is that of the channel that the specification leaves.
view_moved :
    (p q : Pipe) (xs : List ℕ)
    → SameEnds p q
    → contents q ≡ xs
    → view q ≡ record (view p) { queue = xs }
view_moved p q xs e c = ground (arith, c)

try_read_refines :
    (s : Pipes) (id count : ℕ)
    → Inv s
    → let (r, s') = step s (try_read id count) in
      (r, views s') ≡ Channel.step (views s) (try_read id count)
unfolding step Channel.step pipe_try_read Channel.read
try_read_refines s id count v =
    let p = at s id in
    let t = read_loop-Took count p (at-PipeInv s id v).ring in
    let q = (read_loop count p).1 in
    let seen = view_moved p q _ t.ends t.rest in
    ground (
      arith,
      t.bytes,
      channel-views s id,
      set_same s id,
      length-slots p.buf p.tail p.len,
      views-put_at s id q,
      views-wake (ltb 0 (length (read_loop count p).0)) (put_at s id q),
      seen,
    )

try_write_refines :
    (s : Pipes) (id : ℕ) (src : List ℕ)
    → Inv s
    → let (r, s') = step s (try_write id src) in
      (r, views s') ≡ Channel.step (views s) (try_write id src)
unfolding step Channel.step pipe_try_write Channel.write
try_write_refines s id src v =
    let p = at s id in
    let t = write_loop-Put p src 0 (at-PipeInv s id v).ring in
    let q = (write_loop p src 0).1 in
    let seen = view_moved p q _ t.ends t.bytes in
    ground (
      arith,
      t.count,
      channel-views s id,
      set_same s id,
      length-slots p.buf p.tail p.len,
      views-put_at s id q,
      views-wake (ltb 0 (write_loop p src 0).0) (put_at s id q),
      seen,
    )

-- From a table in order, each operation replies what the table of channels replies, and leaves the
-- rings holding what the channels hold.
pub step_refines :
    (s : Pipes) (op : Op)
    → Inv s
    → let (r, s') = step s op in (r, views s') ≡ Channel.step (views s) op
step_refines s create v = create_refines s
step_refines s (add_reader id) v = add_reader_refines s id
step_refines s (add_writer id) v = add_writer_refines s id
step_refines s (close_reader id) v = close_reader_refines s id
step_refines s (close_writer id) v = close_writer_refines s id
step_refines s (try_read id count) v = try_read_refines s id count v
step_refines s (try_write id src) v = try_write_refines s id src v

-- From a table in order, no sequence of operations tells the pipes from bounded byte queues with
-- counted ends: the replies are the same, byte for byte, up to the end or to the panic of a count of
-- ends that would leave u32, which both have at the same operation.
pub run_refines : (ops : List Op) (s : Pipes) → Inv s → run s ops ≡ Channel.run (views s) ops
unfolding run Channel.run
run_refines [] s v = refl
run_refines (op ∷ ops) s v =
    rw (run_refines ops (step s op).1 (step-Inv s op v))
      (ap (λ r. and_then r.0 (Channel.run r.1 ops)) (step_refines s op v))

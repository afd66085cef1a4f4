-- ===== src/Pipe/Poll.antt =====
-- `pipe_readable` and `pipe_writable`, what poll() reports, against the reads and writes themselves.
use felix.Prelude.{ℕ, ◌<◌, ◌≡◌, ◌≢◌, ◌↔◌, ap, true, List, arith, length, length-take}
use felix.Pipe.{Pipes, usize_max, at, pipe_try_read, pipe_try_write, pipe_readable, pipe_writable}
use felix.Pipe.Ring.{contents, length-slots, read_loop-Took, write_loop-Put}
use felix.Pipe.Inv.{Inv, at-PipeInv}

-- In a table in order, a read of at least one byte would block exactly when the pipe is not reported
-- readable.
pub readable_iff :
    (s : Pipes) (id count : ℕ)
    → Inv s
    → 0 < count
    → (pipe_readable s id ≡ true) ↔ ((pipe_try_read s id count).0 ≢ usize_max)
unfolding pipe_readable pipe_try_read
readable_iff s id count v h =
    let p = at s id in
    let w = at-PipeInv s id v in
    let t = read_loop-Took count p w.ring in
    ground (
      arith,
      w.ring,
      ap length t.bytes,
      length-take count (contents p),
      length-slots p.buf p.tail p.len,
    )

-- In a table in order, a write of at least one byte would block exactly when the pipe is not reported
-- writable.
pub writable_iff :
    (s : Pipes) (id : ℕ) (src : List ℕ)
    → Inv s
    → 0 < length src
    → (pipe_writable s id ≡ true) ↔ ((pipe_try_write s id src).0 ≢ usize_max)
unfolding pipe_writable pipe_try_write
writable_iff s id src v h =
    let p = at s id in
    let w = at-PipeInv s id v in
    let t = write_loop-Put p src 0 w.ring in ground (arith, w.ring, t.count)

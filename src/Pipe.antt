-- ===== src/Pipe.antt =====
-- kernel/src/pipe.rs: the table of anonymous pipes behind shell pipelines.
-- A function that changes the table returns the new one. `TASK_MANAGER.wake_waiters(Input)`, the
-- one call that leaves the file, is counted in `wakes`. The kernel is built with overflow checks,
-- so a reference count that would leave u32 panics, which is `none`.
pub mod Ring
pub mod Inv
pub mod Channel
pub mod Refine
pub mod Poll
mod Tests
use felix.Prelude.{
  ℕ, zero, suc, ◌+◌, ◌-◌, ◌%◌, ◌^◌, Bool, true, false, ◌&&◌, ◌||◌, not, Option, none, some, List,
  [], ◌∷◌, ltb, leb, ◌==◌, if◌then◌else◌, get_or, set, replicate, length,
}
use mathlib.Core.Option

abbrev pub pipe_buf_size : ℕ
pipe_buf_size = 4096

abbrev pub max_pipes : ℕ
max_pipes = 16

-- `usize::MAX` on i386, the reply "would block".
abbrev pub usize_max : ℕ
usize_max = 2 ^ 32 - 1

pub record Pipe : Type 0 where
  pub buf : List ℕ
  pub head : ℕ
  pub tail : ℕ
  pub len : ℕ
  pub readers : ℕ
  pub writers : ℕ
  pub in_use : Bool

pub empty : Pipe
empty = record {
  buf = replicate pipe_buf_size 0;
  head = 0;
  tail = 0;
  len = 0;
  readers = 0;
  writers = 0;
  in_use = false;
}

pub record Pipes : Type 0 where
  pub pipes : List Pipe
  pub wakes : ℕ

-- `PIPES` as the kernel starts.
pub initial : Pipes
initial = record { pipes = replicate max_pipes empty; wakes = 0 }

-- `PIPES[id]`; every use stands behind the test `id < MAX_PIPES`.
abbrev pub at : Pipes → ℕ → Pipe
at s id = get_or s.pipes id empty

abbrev pub put_at : Pipes → ℕ → Pipe → Pipes
put_at s id p = record s { pipes = set s.pipes id p }

abbrev pub wake : Pipes → Pipes
wake s = record s { wakes = s.wakes + 1 }

-- The loop of `pipe_create`: the first slot that is not in use.
pub first_free : List Pipe → Option ℕ
first_free [] = none
first_free (p ∷ ps) = if p.in_use then Option.map suc (first_free ps) else some 0

abbrev pub opened : Pipe
opened = record empty { in_use = true; readers = 1; writers = 1 }

pub pipe_create : Pipes → Option ℕ × Pipes
pipe_create s = elim (first_free s.pipes) [
  | none ↦ (none, s)
  | some i ↦ (some i, put_at s i opened)
]

-- `id < MAX_PIPES && PIPES[id].in_use`
abbrev pub live : Pipes → ℕ → Bool
live s id = ltb id max_pipes && (at s id).in_use

-- `n + 1` fits its `u32`.
abbrev pub countable : ℕ → Bool
countable n = ltb (n + 1) (2 ^ 32)

pub pipe_add_reader : Pipes → ℕ → Option Pipes
pipe_add_reader s id =
    if not (live s id)
    then some s
    else if countable (at s id).readers
    then some (put_at s id (record (at s id) { readers = (at s id).readers + 1 }))
    else none

pub pipe_add_writer : Pipes → ℕ → Option Pipes
pipe_add_writer s id =
    if not (live s id)
    then some s
    else if countable (at s id).writers
    then some (put_at s id (record (at s id) { writers = (at s id).writers + 1 }))
    else none

-- `maybe_free`, on the pipe itself.
pub maybe_free : Pipe → Pipe
maybe_free p = if p.readers == 0 && p.writers == 0 then record p { in_use = false } else p

pub drop_reader : Pipe → Pipe
drop_reader p = if ltb 0 p.readers then record p { readers = p.readers - 1 } else p

pub drop_writer : Pipe → Pipe
drop_writer p = if ltb 0 p.writers then record p { writers = p.writers - 1 } else p

pub pipe_close_reader : Pipes → ℕ → Pipes
pipe_close_reader s id =
    if live s id then wake (put_at s id (maybe_free (drop_reader (at s id)))) else s

pub pipe_close_writer : Pipes → ℕ → Pipes
pipe_close_writer s id =
    if live s id then wake (put_at s id (maybe_free (drop_writer (at s id)))) else s

pub pipe_readable : Pipes → ℕ → Bool
pipe_readable s id = if live s id then ltb 0 (at s id).len || ((at s id).writers == 0) else true

pub pipe_writable : Pipes → ℕ → Bool
pipe_writable s id =
    if live s id then ((at s id).readers == 0) || ltb (at s id).len pipe_buf_size else true

-- One round of the read loop: the byte at `tail`, and the pipe without it.
pub take_byte : Pipe → ℕ × Pipe
take_byte p =
    (get_or p.buf p.tail 0, record p { tail = (p.tail + 1) % pipe_buf_size; len = p.len - 1 })

-- `while read < count && len > 0`; the number is `count - read`, the list what goes to the caller.
pub read_loop : ℕ → Pipe → List ℕ × Pipe
read_loop zero p = ([], p)
read_loop (suc n) p =
    let (byte, q) = take_byte p in
    let (bytes, r) = read_loop n q in if ltb 0 p.len then (byte ∷ bytes, r) else ([], p)

-- The reply, the bytes stored at `buf`, and the table.
pub pipe_try_read : Pipes → ℕ → ℕ → ℕ × List ℕ × Pipes
pipe_try_read s id count =
    let p = at s id in
    let (bytes, q) = read_loop count p in
    if leb max_pipes id || (count == 0)
    then (0, [], s)
    else if not p.in_use
    then (0, [], s)
    else if p.len == 0
    then (if p.writers == 0 then (0, [], s) else (usize_max, [], s))
    else let s' = put_at s id q in
      (length bytes, bytes, (if ltb 0 (length bytes) then wake s' else s'))

-- One round of the write loop: store the byte at `head`.
pub put_byte : Pipe → ℕ → Pipe
put_byte p byte = record p {
  buf = set p.buf p.head byte;
  head = (p.head + 1) % pipe_buf_size;
  len = p.len + 1;
}

-- `while written < count && len < PIPE_BUF_SIZE`, over the bytes of `buf` not yet written.
pub write_loop : Pipe → List ℕ → ℕ → ℕ × Pipe
write_loop p [] written = (written, p)
write_loop p (byte ∷ bytes) written =
    let rest = write_loop (put_byte p byte) bytes (written + 1) in
    if ltb p.len pipe_buf_size then rest else (written, p)

-- The list is the `count` bytes at `buf`.
pub pipe_try_write : Pipes → ℕ → List ℕ → ℕ × Pipes
pipe_try_write s id src =
    let p = at s id in
    let (written, q) = write_loop p src 0 in
    if leb max_pipes id || (length src == 0)
    then (0, s)
    else if not p.in_use
    then (0, s)
    else if p.readers == 0
    then (0, s)
    else if p.len == pipe_buf_size
    then (usize_max, s)
    else let s' = put_at s id q in (written, (if ltb 0 written then wake s' else s'))

-- What the rest of the kernel can ask of the table, and what it is told.
pub data Op : Type 0 where
  create : Op
  add_reader add_writer close_reader close_writer : ℕ → Op
  try_read : ℕ → ℕ → Op
  try_write : ℕ → List ℕ → Op

pub data Reply : Type 0 where
  created : Option ℕ → Reply
  silent : Reply
  panicked : Reply
  got : ℕ → List ℕ → Reply
  wrote : ℕ → Reply

-- The table is not seen again after a panic.
abbrev pub added : Pipes → Option Pipes → Reply × Pipes
added s none = (panicked, s)
added s (some s') = (silent, s')

pub step : Pipes → Op → Reply × Pipes
step s create = let (id, s') = pipe_create s in (created id, s')
step s (add_reader id) = added s (pipe_add_reader s id)
step s (add_writer id) = added s (pipe_add_writer s id)
step s (close_reader id) = (silent, pipe_close_reader s id)
step s (close_writer id) = (silent, pipe_close_writer s id)
step s (try_read id count) = let (n, bytes, s') = pipe_try_read s id count in (got n bytes, s')
step s (try_write id src) = let (n, s') = pipe_try_write s id src in (wrote n, s')

-- Nothing is replied after a panic.
abbrev pub and_then : Reply → List Reply → List Reply
and_then (created id) rest = created id ∷ rest
and_then silent rest = silent ∷ rest
and_then panicked rest = panicked ∷ []
and_then (got n bytes) rest = got n bytes ∷ rest
and_then (wrote n) rest = wrote n ∷ rest

pub run : Pipes → List Op → List Reply
run s [] = []
run s (op ∷ ops) = let (reply, s') = step s op in and_then reply (run s' ops)

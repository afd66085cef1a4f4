-- ===== src/Pipe/Channel.antt =====
-- What the pipe table promises: a fixed number of bounded byte queues with counted ends. A count
-- that would leave u32 is a panic.
use felix.Prelude.{
  ℕ, suc, ◌+◌, ◌-◌, Bool, true, false, ◌&&◌, ◌||◌, not, Option, none, some, List, [], ◌∷◌, ◌++◌,
  ltb, leb, ◌^◌, ◌==◌, if◌then◌else◌, get_or, set, take, drop, length, min,
}
use mathlib.Core.Option
use felix.Pipe.{
  pipe_buf_size, max_pipes, usize_max, Op, create, add_reader, add_writer, close_reader,
  close_writer, try_read, try_write, Reply, created, silent, panicked, and_then, got, wrote,
}

pub record Channel : Type 0 where
  pub queue : List ℕ
  pub readers : ℕ
  pub writers : ℕ
  pub in_use : Bool

abbrev pub closed : Channel
closed = record { queue = []; readers = 0; writers = 0; in_use = false }

abbrev pub fresh : Channel
fresh = record { queue = []; readers = 1; writers = 1; in_use = true }

-- A channel with no end left goes out of use.
abbrev pub settle : Channel → Channel
settle c = if c.readers == 0 && c.writers == 0 then record c { in_use = false } else c

-- An end of file is the reply 0, an empty channel that can still be written blocks.
unfoldable pub read : Channel → ℕ → ℕ × List ℕ × Channel
read c count =
    if (count == 0) || not c.in_use
    then (0, [], c)
    else if length c.queue == 0
    then ((if c.writers == 0 then 0 else usize_max), [], c)
    else let bytes = take count c.queue in
      (length bytes, bytes, record c { queue = drop count c.queue })

-- As many bytes as there is room for go to the end of the queue.
unfoldable pub write : Channel → List ℕ → ℕ × Channel
write c src =
    if (length src == 0) || not c.in_use || (c.readers == 0)
    then (0, c)
    else if length c.queue == pipe_buf_size
    then (usize_max, c)
    else let room = pipe_buf_size - length c.queue in
      (min (length src) room, record c { queue = c.queue ++ take room src })

abbrev pub Channels : Type 0
Channels = List Channel

abbrev pub channel : Channels → ℕ → Channel
channel t id = get_or t id closed

-- A change of one channel that is in use.
abbrev pub change : Channels → ℕ → (Channel → Channel) → Channels
change t id f = if ltb id max_pipes && (channel t id).in_use then set t id (f (channel t id)) else t

-- One end more, by the count of these ends.
abbrev pub add : Channels → ℕ → (Channel → ℕ) → (Channel → Channel) → Reply × Channels
add t id count f =
    if ltb id max_pipes && ((channel t id).in_use && leb (2 ^ 32) (count (channel t id) + 1))
    then (panicked, t)
    else (silent, change t id f)

unfoldable pub first_closed : Channels → Option ℕ
first_closed [] = none
first_closed (c ∷ cs) = if c.in_use then Option.map suc (first_closed cs) else some 0

unfoldable pub step : Channels → Op → Reply × Channels
unfolding first_closed
step t create = elim (first_closed t) [
  | none ↦ (created none, t)
  | some i ↦ (created (some i), set t i fresh)
]
step t (add_reader id) = add t id (λ c. c.readers) (λ c. record c { readers = c.readers + 1 })
step t (add_writer id) = add t id (λ c. c.writers) (λ c. record c { writers = c.writers + 1 })
step t (close_reader id) = (silent, change t id λ c. settle (record c { readers = c.readers - 1 }))
step t (close_writer id) = (silent, change t id λ c. settle (record c { writers = c.writers - 1 }))
step t (try_read id count) =
    let (n, bytes, c) = read (channel t id) count in
    if ltb id max_pipes then (got n bytes, set t id c) else (got 0 [], t)
step t (try_write id src) =
    let (n, c) = write (channel t id) src in
    if ltb id max_pipes then (wrote n, set t id c) else (wrote 0, t)

unfoldable pub run : Channels → List Op → List Reply
run t [] = []
run t (op ∷ ops) = let (reply, t') = step t op in and_then reply (run t' ops)

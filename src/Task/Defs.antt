-- ===== src/Task/Defs.antt =====
-- The task, its states and the operations on one task. The fields are those that scheduling, process
-- and signal code reads or writes; the address space, the FPU image and the descriptors are not here.
use felix.Prelude.{
  ℕ, ◌+◌, ◌-◌, Bool, true, false, not, ◌&&◌, Option, none, some, List, ◌==◌, ℤ, pos, negsuc,
  replicate,
}

pub data WaitReason : Type 0 where
  generic input timer child thread poll socket audio futex : WaitReason

pub data TaskState : Type 0 where
  new : TaskState
  runnable : TaskState
  running_on : ℕ → TaskState
  blocked : WaitReason → TaskState
  halted : TaskState
  dead : TaskState

-- The derived comparison of two reasons is that of their numbers.
abbrev pub number : WaitReason → ℕ
number generic = 0
number input = 1
number timer = 2
number child = 3
number thread = 4
number poll = 5
number socket = 6
number audio = 7
number futex = 8

abbrev pub blocked_on : WaitReason → TaskState → Bool
blocked_on r new = false
blocked_on r runnable = false
blocked_on r (running_on c) = false
blocked_on r (blocked q) = number q == number r
blocked_on r halted = false
blocked_on r dead = false

abbrev pub is_runnable : TaskState → Bool
is_runnable new = false
is_runnable runnable = true
is_runnable (running_on c) = false
is_runnable (blocked q) = false
is_runnable halted = false
is_runnable dead = false

pub record Task : Type 0 where
  pub stack_base : ℕ
  pub cpu_state_ptr : ℕ
  pub running : Bool
  pub state : TaskState
  pub kernel_stack : ℕ
  pub pid : ℤ
  pub ppid : ℤ
  pub pgid : ℤ
  pub sid : ℤ
  pub parent : Option ℕ
  pub zombie : Bool
  pub stopped : Bool
  pub stop_signal : ℕ
  pub wait_stopped_pending : Bool
  pub wait_continued_pending : Bool
  pub term_signal : ℕ
  pub exit_code : ℤ
  pub pending_signals : List Bool
  pub signal_handlers : List ℕ
  pub tid : ℤ
  pub leader_slot : Option ℕ
  pub is_thread : Bool
  pub thread_exited : Bool
  pub thread_detached : Bool
  pub wake_deadline_ms : ℕ
  pub futex_key : ℕ
  pub network_wait_read : List ℕ
  pub network_wait_write : List ℕ
  pub network_wait_any : Bool
  pub poll_periodic : Bool

abbrev pub ready_words : ℕ
ready_words = 4

abbrev pub no_sockets : List ℕ
no_sockets = replicate ready_words 0

-- A mask of signals is the list of the 32 bits of its word, the lowest first.
abbrev pub no_signals : List Bool
no_signals = replicate 32 false

abbrev pub stack_size : ℕ
stack_size = 262144

-- The space above the saved state, and the size of that state, which has 12 words.
abbrev pub headroom : ℕ
headroom = 256

abbrev pub cpu_state_size : ℕ
cpu_state_size = 48

abbrev pub max_tasks : ℕ
max_tasks = 32

-- `Task::new` on the stack that the frame allocator gave it.
abbrev pub new_task : ℕ → Task
new_task stack_base = record {
  stack_base = stack_base;
  cpu_state_ptr = 0;
  running = false;
  state = new;
  kernel_stack = 0;
  pid = negsuc 0;
  ppid = negsuc 0;
  pgid = negsuc 0;
  sid = negsuc 0;
  parent = none;
  zombie = false;
  stopped = false;
  stop_signal = 0;
  wait_stopped_pending = false;
  wait_continued_pending = false;
  term_signal = 0;
  exit_code = pos 0;
  pending_signals = no_signals;
  signal_handlers = replicate 32 0;
  tid = negsuc 0;
  leader_slot = none;
  is_thread = false;
  thread_exited = false;
  thread_detached = false;
  wake_deadline_ms = 0;
  futex_key = 0;
  network_wait_read = no_sockets;
  network_wait_write = no_sockets;
  network_wait_any = false;
  poll_periodic = false;
}

abbrev pub new_thread : ℕ → Task
new_thread stack_base = record (new_task stack_base) { is_thread = true }

abbrev pub forget_sockets : Task → Task
forget_sockets t = record t {
  network_wait_read = no_sockets;
  network_wait_write = no_sockets;
  network_wait_any = false;
  poll_periodic = false;
}

abbrev pub sleep : Task → Task
sleep t = record t { running = false; state = blocked generic }

abbrev pub wake : Task → Task
wake t = forget_sockets (record t { running = true; state = runnable })

-- The sockets that a task waits for are kept only while it waits in `poll` or on a socket.
abbrev pub keep_sockets : WaitReason → Task → Task
keep_sockets generic t = forget_sockets t
keep_sockets input t = forget_sockets t
keep_sockets timer t = forget_sockets t
keep_sockets child t = forget_sockets t
keep_sockets thread t = forget_sockets t
keep_sockets poll t = t
keep_sockets socket t = t
keep_sockets audio t = forget_sockets t
keep_sockets futex t = forget_sockets t

abbrev pub block : WaitReason → Task → Task
block r t = keep_sockets r (record t { running = false; state = blocked r })

abbrev pub stop : Task → Task
stop t = record t { running = false; state = halted }

abbrev pub mark_zombie : Task → Task
mark_zombie t = record t { running = false; state = dead }

-- The scheduling half of `Task::init`: a stack lies below the end of the address space, so that the
-- sum does not wrap.
abbrev pub init : Task → Task
init t = record t {
  running = true;
  state = runnable;
  kernel_stack = t.stack_base + stack_size;
  cpu_state_ptr = t.stack_base + stack_size - headroom - cpu_state_size;
}

abbrev pub Slots : Type 0
Slots = List (Option Task)

pub record TaskManager : Type 0 where
  pub tasks : Slots
  pub task_count : ℤ
  pub current_task : Option ℕ
  pub first_switch : Bool
  pub next_pid : ℤ

-- The manager, `TASK_OWNER` (the CPU that has claimed each slot), `CURRENT_TASK` (the slot on each
-- CPU), `IDLE_ESP`, and the word `eax` of the saved state at each address.
pub record System : Type 0 where
  pub manager : TaskManager
  pub task_owner : List (Option ℕ)
  pub on_cpu : List (Option ℕ)
  pub idle_esp : List ℕ
  pub eax : ℕ → ℕ

-- What makes a task ready to be claimed, its owner left aside.
abbrev pub ready : Option Task → Bool
ready none = false
ready (some t) = t.running && is_runnable t.state && not t.zombie && not t.thread_exited

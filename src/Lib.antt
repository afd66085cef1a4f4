-- ===== src/Lib.antt =====
-- Felix: a verification of parts of the kernel and of the shell.
--
-- Felix is an operating system: a kernel (kernel/src) with memory management, pipes, tasks, file
-- systems and drivers, and programs over its system calls (apps). Each component modelled here is a
-- module with the operations of the source as functions by clauses on explicit state; its children
-- carry the specification and the proofs.
--
-- * Pipe (Pipe.antt) is kernel/src/pipe.rs: the table of 16 pipes, each a ring buffer with the
--   counts of its readers and writers. `pipe_create`, `pipe_try_read`, `pipe_try_write`,
--   `pipe_close_reader` and the others carry their names; the source's indices out of range are
--   tests in the source and here. The system calls make pipes, read and write with them, and ask
--   `pipe_readable` and `pipe_writable` for poll(). Pipe.Channel is the abstract table of byte
--   queues.
-- * Memory.Phys (kernel/src/memory/resources.rs) is `ResourceManager`: who owns which physical
--   range. Memory.Virt is `VirtualRangeAllocator` of the same file, which hands out kernel
--   addresses by first fit. Drivers reserve a range and map it at an address of the allocator.
-- * Memory.Shared (kernel/src/memory/shared.rs) is the cache of file pages that processes map
--   shared. `acquire_file_page` gives its lock up during I/O, so it is `acquire_begin` and
--   `acquire_end` here, and any calls can run in between.
-- * Memory.Refcounts (kernel/src/multitasking/task.rs) is `PageRefcounts`, with which a task knows
--   when a page of its memory is mapped first and used last.
-- * Task (kernel/src/multitasking/task.rs, with CURRENT_TASK of kernel/src/smp.rs) is the table of 32
--   task slots: Task.Defs the task and its state changes, Task.Table `add_task`, `reap`,
--   `wake_waiters` and the other operations of `TaskManager`, Task.Claim `claim_next_task` with the
--   owners of the slots, Task.Schedule `schedule` and `schedule_ap`. The table, the owners and the
--   slots on the CPUs are one record, since all of them change under the kernel lock. A switch
--   returns the address of the state to resume.
-- * Signal (kernel/src/signal.rs) works on that table: `send_signal`, `stop_task_with_signal`,
--   `continue_task` and `force_kill` by the slots of a process, and `deliver_pending`, which kills
--   or calls a handler on the way back to user space and switches with `schedule`.
-- * Descriptors (kernel/src/filesystem/file.rs) is the descriptor table of a process. Open file
--   descriptions are shared between slots and processes; an `Arc` is an index into a store, and
--   its strong count is counted in the slots and among the holders outside the table. The exit of
--   a process closes all its slots, and releases what `last_open_ref` tells it to.
-- * Frames (kernel/src/memory/paging.rs) is the allocator of physical frames in `PageManager`, which
--   asks the task table (`live_kernel_stack_owner`) that no frame is part of a live stack.
-- * Shell.Lexer and Shell.Grammar (apps/shell/src/parser.rs) are `tokenize` and `parse_line`, which
--   make the groups of pipelines that the shell runs. Shell.Editor (apps/shell/src/line_editor.rs)
--   is the line being typed, whose text is given to the parser on return; Shell.Editor.Zipper is
--   its specification.
-- * RamFs (kernel/src/drivers/ramfs.rs) is the file system in memory, a tree of nodes and a map from
--   inodes to paths; RamFs.Inode has the calls that go by inode, RamFs.Rename has `rename`.
-- * Sockets (kernel/src/net/socket.rs) is the table from ids to sockets.
-- * Time (kernel/src/time.rs) is the clock: PIT ticks, the RTC, Unix seconds and `ctime`.
--
-- Numbers are natural numbers. Where an operation of the source can leave its width, its
-- wrap-around, saturation or check is written out; usize has 32 bits, as on the target. The kernel
-- is built by the dev profile, with overflow checks, so an overflow or underflow is a panic, which is
-- `none`.
--
-- Fuel: `tokenize` runs its loop with one unit more than there are characters, and every round
-- takes one; each loop of `delete_prev_word` has one more than the cursor's offset, and every round
-- moves it back; `ctime` has one more than there are days, and every round takes 365 away.
--
-- The loops over the task slots and the descriptors are bounded by the tables' lengths; the scan of
-- `claim_next_task` has its 31 turns.
--
-- Not modelled: hardware access (ports, page tables, PAT, DMA, FPU state, address spaces), the
-- wake-up of waiting tasks by a pipe (it leaves the pipes alone), the traces and the texts of
-- messages, in time.rs the busy waits, in ramfs.rs the listing of a directory, in task.rs the kernel
-- lock itself and its hand-over in assembly, and in file.rs `rewrite_dir_paths`. The other parts of the kernel and the programs are outside this
-- development.
pub mod Prelude
pub mod Pipe
pub mod Descriptors
pub mod Frames
pub mod Memory
pub mod Shell
pub mod Task
pub mod Signal
pub mod Time
pub mod RamFs
pub mod Sockets

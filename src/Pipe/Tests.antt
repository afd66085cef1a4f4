-- ===== src/Pipe/Tests.antt =====
-- Runs of the pipe table, and the theorems about it at concrete tables.
use felix.Prelude.{◌≡◌, ◌≢◌, ◌↔◌, refl, true, List, [], ◌∷◌, some, arith}
use felix.Pipe.{
  Pipes, usize_max, initial, pipe_try_read, pipe_try_write, pipe_readable, pipe_writable, Op,
  create, close_writer, try_read, try_write, step, run, created, silent, got, wrote, pipe_create,
  first_free, empty, read_loop, take_byte,
}
use felix.Pipe.Inv.{Inv, initial-Inv, step-Inv}
use felix.Pipe.Refine.{views, run_refines}
use felix.Pipe.Poll.{readable_iff, writable_iff}
use felix.Pipe.Channel

abbrev script : List Op
script =
    create
    ∷ try_write 0 (10 ∷ 20 ∷ 30 ∷ [])
    ∷ try_read 0 2
    ∷ close_writer 0
    ∷ try_read 0 5
    ∷ try_read 0 5
    ∷ []

script_replies :
    Channel.run (views initial) script
    ≡ created (some 0) ∷ wrote 3 ∷ got 2 (10 ∷ 20 ∷ []) ∷ silent ∷ got 1 (30 ∷ []) ∷ got 0 [] ∷ []
unfolding Channel.run Channel.step Channel.read Channel.write initial empty
script_replies = refl

run_refines_example : run initial script ≡ Channel.run (views initial) script
run_refines_example = run_refines script initial initial-Inv

step-Inv_example : Inv (step initial create).1
step-Inv_example = step-Inv initial create initial-Inv

abbrev one_pipe : Pipes
one_pipe = (step initial create).1

one_pipe-Inv : Inv one_pipe
one_pipe-Inv = step-Inv initial create initial-Inv

-- A new pipe has a writer and no byte, so a read would block.
readable_iff_example :
    (pipe_readable one_pipe 0 ≡ true) ↔ ((pipe_try_read one_pipe 0 4).0 ≢ usize_max)
readable_iff_example = readable_iff one_pipe 0 4 one_pipe-Inv (omega arith)

writable_iff_example :
    (pipe_writable one_pipe 0 ≡ true) ↔ ((pipe_try_write one_pipe 0 (7 ∷ 8 ∷ [])).0 ≢ usize_max)
writable_iff_example = writable_iff one_pipe 0 (7 ∷ 8 ∷ []) one_pipe-Inv (omega arith)

blocks : (pipe_try_read one_pipe 0 4).0 ≡ usize_max
unfolding step pipe_create first_free initial empty pipe_try_read read_loop take_byte
blocks = refl

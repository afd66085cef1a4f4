-- ===== src/Descriptors/Tests.antt =====
-- A table with the standard descriptors and a file that is with_file after them.
use felix.Prelude.{
  if◌then◌else◌, ◌==◌, ◌||◌, ℕ, zero, suc, ◌≤◌, ◌≡◌, refl, true, Option, none, some, [], get_or,
  replicate, is_some, arith,
}
use mathlib.Core.Option.{none-ne-some}
use felix.Descriptors.Defs.{
  FileDescriptor, FileDescriptorTable, read_write, new_file, new_table, with_stdio, insert, dup2,
  take_all, get, get_offset, set_offset, alloc_fd, alloc_fd_from, from_descriptor, first_none,
  ofd_of,
}
use felix.Descriptors.Inv.{Inv, Step, Step-Inv}
use felix.Descriptors.Slots.{FreshAt, Lowest, alloc-Lowest, insert-alloc_fd}
use felix.Descriptors.Sharing.{behind, same_slot, dup2-offset}
use felix.Descriptors.Closing.{Closings, take_all-Closings}

abbrev no_fd : Option FileDescriptor
no_fd = none

abbrev no_ofd : Option ℕ
no_ofd = none

empty-Inv : Inv (new_table [] [])
empty-Inv = record {
  slots = refl;
  entries = refl;
  paired = λ i. same 64 i;
  known = λ i id e. absurd (omega (arith, nothing 64 i id e));
  held = tt;
}
  where
    same :
        (n i : ℕ)
        → is_some (get_or (replicate n no_fd) i none) ≡ is_some (get_or (replicate n no_ofd) i none)
    same zero i = refl
    same (suc n) zero = refl
    same (suc n) (suc i) = same n i

    nothing : (n i id : ℕ) → get_or (replicate n no_ofd) i none ≡ some id → 1 ≤ 0
    nothing zero i id e = absurd (none-ne-some id e)
    nothing (suc n) zero id e = absurd (none-ne-some id e)
    nothing (suc n) (suc i) id e = nothing n i id e

abbrev stdio : FileDescriptorTable
stdio = with_stdio [] []

stdio-Inv : Inv stdio
stdio-Inv = Step-Inv _ _ (Step.inserted 2 FileDescriptor.console_out) (
    Step-Inv _ _ (Step.inserted 1 FileDescriptor.console_out)
      (Step-Inv _ _ (Step.inserted 0 FileDescriptor.console_in) empty-Inv))

next_fd : alloc_fd stdio ≡ some 3
unfolding first_none
next_fd = refl

abbrev with_file : FileDescriptorTable
with_file = (insert stdio 3 (new_file 42 read_write)).1

with_file-Inv : Inv with_file
with_file-Inv = Step-Inv stdio with_file (Step.inserted 3 (new_file 42 read_write)) stdio-Inv

Step-Inv_example : Inv with_file
Step-Inv_example = Step-Inv stdio with_file (Step.inserted 3 (new_file 42 read_write)) stdio-Inv

alloc-Lowest_example :
    Lowest (get with_file) 0 64 (alloc_fd with_file)
    × Lowest (get with_file) 2 64 (alloc_fd_from with_file 2)
alloc-Lowest_example = alloc-Lowest with_file 2 (omega arith)

insert-alloc_fd_example :
    ((insert stdio 3 (new_file 42 read_write)).0 ≡ true)
    × (get with_file 3 ≡ some (new_file 42 read_write))
    × (behind with_file 3 ≡ some (from_descriptor (new_file 42 read_write)))
    × FreshAt stdio with_file 3
    × (get with_file 0 ≡ get stdio 0)
    × (ofd_of with_file 0 ≡ ofd_of stdio 0)
    × (behind with_file 0 ≡ behind stdio 0)
insert-alloc_fd_example =
    insert-alloc_fd stdio 3 0 (new_file 42 read_write) stdio-Inv next_fd
      (λ e. absurd (omega (arith, e)))

-- The file becomes the standard output, as a shell does for a redirection.
dup2-offset_example : get_offset (set_offset (dup2 with_file 3 1).1 1 512).1 3 ≡ (
    if 3 == 1 || same_slot (ofd_of with_file 3) (ofd_of with_file 3)
    then some 512
    else get_offset with_file 3)
dup2-offset_example = dup2-offset with_file 3 1 512 3 with_file-Inv refl

take_all-Closings_example : Closings (dup2 with_file 3 1).1 (take_all (dup2 with_file 3 1).1)
take_all-Closings_example =
    take_all-Closings (dup2 with_file 3 1).1
      (Step-Inv with_file _ (Step.duplicated 3 1) with_file-Inv)

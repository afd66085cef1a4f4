-- ===== src/Frames/Tests.antt =====
-- The allocator with 16 frames of memory above its start, two of which are free again.
use felix.Prelude.{ℕ, ◌*◌, ◌≤◌, ◌<◌, ◌≡◌, ◌⊎◌, List, [], ◌∷◌, total, max, arith}
use felix.Frames.Defs.{
  PageManager, alloc_phys_frame, free_phys_frame, alloc_contiguous, configure_from_ram, mebibyte,
}
use felix.Frames.Partition.{
  Owned, Allocated, alloc_phys_frame-Allocated, free_phys_frame-Owned, give_back, count,
}
use felix.Frames.Contiguous.{Granted, alloc_contiguous-Granted, configure_from_ram-bounds}

abbrev memory : PageManager
memory = record {
  next_free_page = 10244;
  free_frames = 10243 ∷ 10241 ∷ [];
  max_page = 10256;
  tasks = [];
}

-- The frames that are in use.
abbrev in_use : List ℕ
in_use = 10240 ∷ 10242 ∷ []

memory-Owned : Owned memory in_use
unfolding total
memory-Owned = record { low = omega arith; once = λ f. ground arith }

alloc_phys_frame-Allocated_example : Allocated memory in_use (alloc_phys_frame memory)
alloc_phys_frame-Allocated_example = alloc_phys_frame-Allocated memory in_use memory-Owned

free_phys_frame-Owned_example :
    Owned (free_phys_frame 10242 memory) (give_back 10242 in_use)
    × ((0 < count 10242 in_use) ⊎ (free_phys_frame 10242 memory ≡ memory))
free_phys_frame-Owned_example = free_phys_frame-Owned memory in_use 10242 memory-Owned

alloc_contiguous-Granted_example :
    Granted 4 4 10256 memory in_use (alloc_contiguous 4 4 20000 memory)
alloc_contiguous-Granted_example = alloc_contiguous-Granted 4 4 20000 memory in_use memory-Owned

configure_from_ram-bounds_example :
    (64 * mebibyte ≤ (configure_from_ram (130 * mebibyte)).0)
    × ((configure_from_ram (130 * mebibyte)).0 ≤ 1024 * mebibyte)
    × ((configure_from_ram (130 * mebibyte)).1 * (4 * mebibyte)
        ≡ (configure_from_ram (130 * mebibyte)).0)
    × ((configure_from_ram (130 * mebibyte)).0 ≤ max (130 * mebibyte) (64 * mebibyte))
configure_from_ram-bounds_example = configure_from_ram-bounds (130 * mebibyte)

-- ===== src/Frames/Defs.antt =====
-- The frame allocator. A `Vec` grows and shrinks at its end; a panic is `none`.
use felix.Prelude.{
  ℕ, zero, suc, ◌+◌, ◌-◌, ◌*◌, ◌/◌, ◌%◌, ◌^◌, Bool, false, ◌&&◌, ◌||◌, not, Option, none, some,
  List, [], ◌∷◌, ◌++◌, ◌==◌, ltb, leb, if◌then◌else◌, min, max, take, drop, drop_last, final,
}
use felix.Task.Defs.{Slots, Task, stack_size}

abbrev pub kernel_offset : ℕ
kernel_offset = 3221225472

-- The number of the first frame that the allocator hands out: 40 MiB.
abbrev pub first_dynamic : ℕ
first_dynamic = 10240

-- The allocator, with the number of frames of the detected memory and the task table, whose kernel
-- stacks it must not hand out.
pub record PageManager : Type 0 where
  pub next_free_page : ℕ
  pub free_frames : List ℕ
  pub max_page : ℕ
  pub tasks : Slots

abbrev pub has_stack : ℕ → Option Task → Bool
has_stack frame none = false
has_stack frame (some t) =
    let first = (t.stack_base - kernel_offset) / 4096 in
    leb kernel_offset t.stack_base
    && (leb first frame && ltb frame (min (first + stack_size / 4096) (2 ^ 32 - 1)))

-- `live_kernel_stack_owner(frame)` is `Some`.
unfoldable pub live_stack : Slots → ℕ → Bool
live_stack [] frame = false
live_stack (o ∷ os) frame = has_stack frame o || live_stack os frame

unfoldable pub retain_other : ℕ → List ℕ → List ℕ
retain_other f [] = []
retain_other f (x ∷ xs) = if x == f then retain_other f xs else x ∷ retain_other f xs

-- The panic on a frame of a live kernel stack.
abbrev pub publish : ℕ → PageManager → Option (ℕ × PageManager)
publish frame m = if live_stack m.tasks frame then none else some (frame, m)

abbrev pub pop_or_bump : List ℕ → PageManager → Option (ℕ × PageManager)
pop_or_bump [] m =
    if ltb m.next_free_page m.max_page
    then publish m.next_free_page (record m { next_free_page = m.next_free_page + 1 })
    else none
pop_or_bump (x ∷ xs) m =
    let frame = final x xs in
    publish frame (record m { free_frames = retain_other frame (drop_last (x ∷ xs)) })

unfoldable pub alloc_phys_frame : PageManager → Option (ℕ × PageManager)
alloc_phys_frame m = pop_or_bump m.free_frames m

unfoldable pub has_frame : ℕ → List ℕ → Bool
has_frame f [] = false
has_frame f (x ∷ xs) = x == f || has_frame f xs

unfoldable pub free_phys_frame : ℕ → PageManager → PageManager
free_phys_frame frame m =
    if ltb frame first_dynamic || leb m.next_free_page frame || has_frame frame m.free_frames
    then m
    else record m { free_frames = m.free_frames ++ frame ∷ [] }

-- `sort_unstable`, on numbers, and `dedup`.
unfoldable pub insert_sorted : ℕ → List ℕ → List ℕ
insert_sorted x [] = x ∷ []
insert_sorted x (y ∷ ys) = if leb x y then x ∷ y ∷ ys else y ∷ insert_sorted x ys

unfoldable pub sort : List ℕ → List ℕ
sort [] = []
sort (x ∷ xs) = insert_sorted x (sort xs)

unfoldable pub dedup_after : ℕ → List ℕ → List ℕ
dedup_after x [] = []
dedup_after x (y ∷ ys) = if y == x then dedup_after x ys else y ∷ dedup_after y ys

unfoldable pub dedup : List ℕ → List ℕ
dedup [] = []
dedup (x ∷ xs) = x ∷ dedup_after x xs

-- How many frames after `x` go on with it without a gap, and the last of them. The frames are far
-- below the greatest word, so that the successor does not wrap.
unfoldable pub run_of : ℕ → List ℕ → ℕ × ℕ
run_of x [] = (0, x)
run_of x (y ∷ ys) = let rest = run_of y ys in if y == x + 1 then (suc rest.0, rest.1) else (0, x)

-- `checked_add`, rounded down to a multiple of the alignment, which is a power of two.
abbrev pub align_up : ℕ → ℕ → Option ℕ
align_up x align =
    if ltb (x + (align - 1)) (2 ^ 32) then some ((x + (align - 1)) / align * align) else none

abbrev pub checked_add : ℕ → ℕ → Option ℕ
checked_add a b = if ltb (a + b) (2 ^ 32) then some (a + b) else none

-- An aligned range of frames, its end included, or the error of an overflow.
abbrev pub range_at : ℕ → ℕ → ℕ → Option (ℕ × ℕ)
range_at x pages align = elim (align_up x align) [
  | none ↦ none
  | some aligned ↦ elim (checked_add aligned pages) [ none ↦ none | some end ↦ some (aligned, end) ]
]

-- What a search of the free frames ends with.
pub data Search : Type 0 where
  no_run : Search
  overflow : Search
  run_at : (start_index frame : ℕ) → Search

abbrev pub saturating_inc : ℕ → ℕ
saturating_inc x = min (x + 1) (2 ^ 32 - 1)

-- The test of one run, and what to do after it.
abbrev pub test_run : ℕ → ℕ → ℕ → ℕ → Option (ℕ × ℕ) → ℕ → Search → Search
test_run k x last pages none limit rest = overflow
test_run k x last pages (some (aligned, end)) limit rest =
    if leb x aligned && (leb end (saturating_inc last) && leb end limit)
    then run_at (k + (aligned - x)) aligned
    else rest

-- The loop over the runs, from index `k` on; `skip` frames still belong to the run before.
unfoldable pub find_run : ℕ → ℕ → ℕ → ℕ → ℕ → List ℕ → Search
find_run pages align limit skip k [] = no_run
find_run pages align limit (suc skip) k (x ∷ xs) = find_run pages align limit skip (suc k) xs
find_run pages align limit zero k (x ∷ xs) =
    let run = run_of x xs in
    let rest = find_run pages align limit run.0 (suc k) xs in
    test_run k x run.1 pages (range_at x pages align) limit rest

unfoldable pub frames_from : ℕ → ℕ → List ℕ
frames_from x zero = []
frames_from x (suc n) = x ∷ frames_from (suc x) n

unfoldable pub any_live : Slots → List ℕ → Bool
any_live tasks [] = false
any_live tasks (x ∷ xs) = live_stack tasks x || any_live tasks xs

unfoldable pub is_power_of_two : ℕ → ℕ → Bool
is_power_of_two zero n = false
is_power_of_two (suc k) n = n == 1 || (n % 2 == 0 && is_power_of_two k (n / 2))

-- The result of a contiguous allocation.
pub data Outcome : Type 0 where
  failed : PageManager → Outcome
  panicked : Outcome
  granted : ℕ → PageManager → Outcome

abbrev pub drain : List ℕ → ℕ → ℕ → List ℕ
drain xs start count = take start xs ++ drop (start + count) xs

abbrev pub grant : ℕ → ℕ → PageManager → Outcome
grant frame pages m =
    if any_live m.tasks (frames_from frame pages) then panicked else granted frame m

abbrev pub bump_run : ℕ → Option (ℕ × ℕ) → ℕ → PageManager → Outcome
bump_run pages none limit m = failed m
bump_run pages (some (aligned, end)) limit m =
    if ltb limit end
    then failed m
    else grant aligned pages (record m {
      next_free_page = end;
      free_frames = m.free_frames ++ frames_from m.next_free_page (aligned - m.next_free_page);
    })

abbrev pub use_run : Search → ℕ → ℕ → ℕ → PageManager → Outcome
use_run no_run pages align limit m = bump_run pages (range_at m.next_free_page pages align) limit m
use_run overflow pages align limit m = failed m
use_run (run_at start frame) pages align limit m =
    grant frame pages (record m { free_frames = drain m.free_frames start pages })

unfoldable pub alloc_contiguous : ℕ → ℕ → ℕ → PageManager → Outcome
alloc_contiguous pages align max_page_exclusive m =
    let limit = min m.max_page max_page_exclusive in
    let sorted = record m { free_frames = dedup (sort m.free_frames) } in
    if pages == 0
      || (align == 0 || not (is_power_of_two 32 align))
      || (limit == 0 || ltb limit pages)
    then failed m
    else use_run (find_run pages align limit 0 0 sorted.free_frames) pages align limit sorted

-- The detected memory in bytes and the number of large pages.
abbrev pub mebibyte : ℕ
mebibyte = 1048576

abbrev pub clamp_ram : ℕ → ℕ
clamp_ram ram =
    let low = if ltb ram (64 * mebibyte) then 64 * mebibyte else ram in
    let high = if ltb (1024 * mebibyte) low then 1024 * mebibyte else low in
    let aligned = high / (4 * mebibyte) * (4 * mebibyte) in
    if ltb aligned (64 * mebibyte) then 64 * mebibyte else aligned

-- `configure_from_ram`: the memory in bytes, and the large pages that cover it.
unfoldable pub configure_from_ram : ℕ → ℕ × ℕ
configure_from_ram ram_bytes =
    let ram = clamp_ram ram_bytes in (ram, max (min (ram / (4 * mebibyte)) 256) 16)

-- `alloc_contiguous_frames`, which panics where the other reports an error.
abbrev pub granted_or_panic : Outcome → Option (ℕ × PageManager)
granted_or_panic (failed m) = none
granted_or_panic panicked = none
granted_or_panic (granted frame m) = some (frame, m)

abbrev pub alloc_contiguous_frames : ℕ → PageManager → Option (ℕ × PageManager)
alloc_contiguous_frames pages m = granted_or_panic (alloc_contiguous pages 1 m.max_page m)

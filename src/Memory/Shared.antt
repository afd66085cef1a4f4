-- ===== src/Memory/Shared.antt =====
-- kernel/src/memory/shared.rs: the cache of the pages of files that are mapped shared. The file
-- system and the frame allocator are not modelled: the size of the file and the frame that the
-- allocator hands out are arguments, and what is written back or freed is a result.
pub mod Total
pub mod Inv
pub mod Share
mod Tests
use felix.Prelude.{
  total, total-cons, total-append, total-single, total-Holds, total-set, total-swap_remove, Holds,
  here, there, swap_remove, ℕ, zero, suc, ◌+◌, ◌-◌, ◌%◌, ◌^◌, min, Bool, true, false, ◌&&◌, not,
  Option, none, some, List, [], ◌∷◌, ◌++◌, ltb, leb, ◌==◌, if◌then◌else◌, set,
}
use felix.Memory.Defs.{page_size}

pub record SharedPage : Type 0 where
  pub inode : ℕ
  pub offset : ℕ
  pub frame : ℕ
  pub refs : ℕ
  pub write_len : ℕ

abbrev pub Cache : Type 0
Cache = List SharedPage

pub data AcquireError : Type 0 where
  unaligned no_metadata beyond_end : AcquireError

pub data Acquired : Type 0 where
  frame_of : ℕ → Acquired
  failed : AcquireError → Acquired

abbrev pub is_page : ℕ → ℕ → SharedPage → Bool
is_page inode offset page = (page.inode == inode) && (page.offset == offset)

-- `iter_mut().find(…)`, and one reference more for the page that is found.
pub share : ℕ → ℕ → Cache → Option (ℕ × Cache)
share inode offset [] = none
share inode offset (page ∷ pages) =
    let rest = share inode offset pages in
    if is_page inode offset page
    then some (page.frame, record page { refs = min (page.refs + 1) (2 ^ 32 - 1) } ∷ pages)
    else elim rest [ none ↦ none | some (frame, pages') ↦ some (frame, page ∷ pages') ]

-- `acquire_file_page` up to its I/O: an answer, or `none` where the page is to be read first. The
-- lock is given up in between, so that any other call can come then.
pub acquire_begin : Cache → ℕ → ℕ → Option ℕ → Option Acquired × Cache
acquire_begin cache inode offset size =
    if not (offset % page_size == 0)
    then (some (failed unaligned), cache)
    else elim (share inode offset cache) [
      | some (frame, cache') ↦ (some (frame_of frame), cache')
      | none ↦ elim size [
        | none ↦ (some (failed no_metadata), cache)
        | some bytes ↦ if leb bytes offset then (some (failed beyond_end), cache) else (none, cache)
      ]
    ]

-- `(size - offset) as usize`, of 32 bits, and not more than a page.
pub write_len_of : ℕ → ℕ → ℕ
write_len_of size offset = min ((size - offset) % 2 ^ 32) page_size

-- The rest of it, with the frame that was allocated: the frame to map, the one that goes back to
-- the allocator, and the cache.
pub acquire_end : Cache → ℕ → ℕ → ℕ → ℕ → ℕ × Option ℕ × Cache
acquire_end cache inode offset size frame = elim (share inode offset cache) [
  | some (existing, cache') ↦ (existing, some frame, cache')
  | none ↦ (
    frame,
    none,
    cache
        ++ record {
          inode = inode;
          offset = offset;
          frame = frame;
          refs = 1;
          write_len = write_len_of size offset;
        }
          ∷ [],
  )
]

-- The answer of `release_shared_frame`; `last` has what is written back: inode, offset and length.
pub data SharedFrameRelease : Type 0 where
  not_shared retained : SharedFrameRelease
  last : ℕ → ℕ → ℕ → SharedFrameRelease

-- `iter().position(…)` and the page there.
pub find_frame : ℕ → Cache → Option (ℕ × SharedPage)
find_frame frame [] = none
find_frame frame (page ∷ pages) =
    let rest = find_frame frame pages in
    if page.frame == frame
    then some (0, page)
    else elim rest [ none ↦ none | some (i, found) ↦ some (suc i, found) ]

pub release_found : Cache → Option (ℕ × SharedPage) → SharedFrameRelease × Cache
release_found cache none = (not_shared, cache)
release_found cache (some (i, page)) =
    if ltb 1 page.refs
    then (retained, set cache i (record page { refs = page.refs - 1 }))
    else (last page.inode page.offset page.write_len, swap_remove cache i)

pub release_shared_frame : Cache → ℕ → SharedFrameRelease × Cache
release_shared_frame cache frame = release_found cache (find_frame frame cache)

-- Whether `release_user_frame` gives the frame back to the allocator.
pub frees : SharedFrameRelease → Bool
frees retained = false
frees not_shared = true
frees (last inode offset write_len) = true

pub release_user_frame : Cache → ℕ → Bool × Cache
release_user_frame cache frame = let r = release_shared_frame cache frame in (frees r.0, r.1)

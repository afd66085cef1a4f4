-- ===== src/Frames/Contiguous.antt =====
-- `alloc_contiguous`, from the free frames or from the bump, and `configure_from_ram`.
use felix.Prelude.{
  ℕ, zero, suc, ◌+◌, ◌-◌, ◌*◌, ◌%◌, ◌≤◌, ◌<◌, ◌≡◌, inl, inr, refl, sym, ap, ◌∙◌, Bool, true, false,
  leb, ◌&&◌, ==_iff, ◌||◌, not, Option, none, some, List, [], ◌∷◌, ◌++◌, ◌==◌, ltb, if_intro, take,
  drop, total-append, Bool-cases, arith, min, max, take-append-drop,
}
use mathlib.Core.Bool.{false≢true}
use felix.Task.Defs.{Slots}
use felix.Frames.Defs.{
  PageManager, live_stack, sort, dedup, range_at, Search, no_run, overflow, run_at, find_run,
  frames_from, drain, any_live, Outcome, failed, panicked, granted, grant, bump_run, use_run,
  alloc_contiguous, is_power_of_two, configure_from_ram, mebibyte,
}
use felix.Frames.Partition.{is_frame, count, Owned, one_or_none}
use felix.Frames.Runs.{
  sort-count, dedup-same, frames_from-count, Fits, find_run-Fits, Aligned, range_at-Aligned,
}

abbrev pub inside : ℕ → ℕ → ℕ → Bool
inside frame pages k = leb frame k && ltb k (frame + pages)

-- A run of aligned frames below the limit, one of which no caller owns and a live stack is on.
abbrev pub OnStack : ℕ → ℕ → ℕ → PageManager → List ℕ → Type 0
OnStack pages align limit m given =
    (frame f : ℕ) × (frame % align ≡ 0)
    × (frame + pages ≤ limit)
    × (inside frame pages f ≡ true)
    × (count f given ≡ 0)
    × (live_stack m.tasks f ≡ true)

-- What each outcome leaves.
abbrev pub Granted : ℕ → ℕ → ℕ → PageManager → List ℕ → Outcome → Type 0
Granted pages align limit m given (failed m') = Owned m' given
Granted pages align limit m given panicked = OnStack pages align limit m given
Granted pages align limit m given (granted frame m') =
    (frame % align ≡ 0)
    × (frame + pages ≤ limit)
    × Owned m' (frames_from frame pages ++ given)
    × ((k : ℕ) → (inside frame pages k && live_stack m.tasks k) ≡ false)

any_live-frame :
    (tasks : Slots) (frame pages : ℕ)
    → any_live tasks (frames_from frame pages) ≡ true
    → (f : ℕ) × (inside frame pages f ≡ true) × (live_stack tasks f ≡ true)
unfolding any_live frames_from
any_live-frame tasks frame zero h = absurd (false≢true h)
any_live-frame tasks frame (suc n) h = elim (Bool-cases (live_stack tasks frame)) [
  | inl e ↦ (frame, ground arith, e)
  | inr e ↦
      let (f, i, l) =
        any_live-frame tasks (suc frame) n
          (ap (λ b. b || any_live tasks (frames_from (suc frame) n)) (sym e) ∙ h) in
      (f, ground (arith, i), l)
]

none_live-frame :
    (tasks : Slots) (frame pages k : ℕ)
    → any_live tasks (frames_from frame pages) ≡ false
    → (inside frame pages k && live_stack tasks k) ≡ false
unfolding any_live frames_from
none_live-frame tasks frame zero k h =
    let out : inside frame zero k ≡ false = ground arith in rw out refl
none_live-frame tasks frame (suc n) k h = elim (Bool-cases (k == frame)) [
  | inl e ↦
      let here : live_stack tasks k ≡ false =
        ap (live_stack tasks) ((==_iff k frame).0 e) ∙ left (live_stack tasks frame) _ h in
      rw here (no_and (inside frame (suc n) k))
  | inr e ↦
      let same : inside frame (suc n) k ≡ inside (suc frame) n k = ground (arith, e) in
      rw same (none_live-frame tasks (suc frame) n k (right (live_stack tasks frame) _ h))
]
  where
    left : (a b : Bool) → (a || b) ≡ false → a ≡ false
    left false b p = refl
    left true b p = p

    right : (a b : Bool) → (a || b) ≡ false → b ≡ false
    right false b p = p
    right true b p = absurd (false≢true (sym p))

    no_and : (a : Bool) → (a && false) ≡ false
    no_and true = refl
    no_and false = refl

count-append : (f : ℕ) (xs ys : List ℕ) → count f (xs ++ ys) ≡ count f xs + count f ys
count-append f xs ys = total-append (is_frame f) xs ys

grant-Granted :
    (pages align limit frame : ℕ) (m m' : PageManager) (given : List ℕ)
    → m'.tasks ≡ m.tasks
    → frame % align ≡ 0
    → frame + pages ≤ limit
    → Owned m' (frames_from frame pages ++ given)
    → Granted pages align limit m given (grant frame pages m')
grant-Granted pages align limit frame m m' given same fits below v =
    if_intro (Granted pages align limit m given) (any_live m'.tasks (frames_from frame pages))
      panicked (granted frame m')
      (λ h.
        let (f, i, l) =
          any_live-frame m.tasks frame pages
            (ap (λ ts. any_live ts (frames_from frame pages)) (sym same) ∙ h) in
        let split = count-append f (frames_from frame pages) given in
        let run = frames_from-count f frame pages in
        (frame, f, fits, below, i, ground (arith, i, split, run, v.once f, one_or_none m' f), l))
      (λ h. (
        fits,
        below,
        v,
        λ k.
            none_live-frame m.tasks frame pages k
              (ap (λ ts. any_live ts (frames_from frame pages)) (sym same) ∙ h),
      ))

drop-drop : (a b : ℕ) (xs : List ℕ) → drop b (drop a xs) ≡ drop (a + b) xs
drop-drop zero b xs = ap (λ n. drop n xs) (omega arith)
drop-drop (suc a) b [] = drop-nil b ∙ sym (drop-nil (suc a + b))
  where
    drop-nil : (n : ℕ) → drop {A = ℕ} n [] ≡ []
    drop-nil zero = refl
    drop-nil (suc n) = refl
drop-drop (suc a) b (x ∷ xs) =
    let more : suc a + b ≡ suc (a + b) = omega arith in
    drop-drop a b xs ∙ sym (ap (λ n. drop n (x ∷ xs)) more)

-- The frames that are drained and those that stay.
drain-count :
    (f start pages : ℕ) (xs : List ℕ)
    → count f (drain xs start pages) + count f (take pages (drop start xs)) ≡ count f xs
drain-count f start pages xs =
    let whole =
      ap (count f) (sym (take-append-drop start xs))
      ∙ count-append f (take start xs) (drop start xs) in
    let tail =
      ap (count f) (sym (take-append-drop pages (drop start xs)))
      ∙ count-append f (take pages (drop start xs)) (drop pages (drop start xs)) in
    let kept = count-append f (take start xs) (drop (start + pages) xs) in
    let rest = ap (count f) (drop-drop start pages xs) in omega (arith, whole, tail, kept, rest)

module _ (pages align limit : ℕ) (pos : 0 < align) (m : PageManager) (given : List ℕ)
    (v : Owned m given) where
  bump_run-Granted :
      Granted pages align limit m given
        (bump_run pages (range_at m.next_free_page pages align) limit m)
  bump_run-Granted =
      by_range (range_at m.next_free_page pages align)
        (range_at-Aligned m.next_free_page pages align pos)
    where
      by_range :
          (r : Option (ℕ × ℕ))
          → Aligned m.next_free_page pages align r
          → Granted pages align limit m given (bump_run pages r limit m)
      by_range none a = v
      by_range (some (aligned, end)) a =
          let skipped = frames_from m.next_free_page (aligned - m.next_free_page) in
          let bumped = record m { next_free_page = end; free_frames = m.free_frames ++ skipped } in
          if_intro (Granted pages align limit m given) (ltb limit end) (failed m)
            (grant aligned pages bumped) (λ h. v)
            (λ h.
              grant-Granted pages align limit aligned m bumped given refl a.0
                (ground (arith, h, a.1))
                (record {
                  low = omega (arith, v.low, a.1, a.2);
                  once = λ f.
                      let free = count-append f m.free_frames skipped in
                      let used = count-append f (frames_from aligned pages) given in
                      let gap = frames_from-count f m.next_free_page (aligned - m.next_free_page) in
                      let run = frames_from-count f aligned pages in
                      ground (arith, free, used, gap, run, v.once f, v.low, a.1, a.2);
                }))

  use_run-Granted :
      (s : Search)
      → Fits pages align limit 0 m.free_frames s
      → Granted pages align limit m given (use_run s pages align limit m)
  use_run-Granted no_run f = bump_run-Granted
  use_run-Granted overflow f = v
  use_run-Granted (run_at start frame) f =
      grant-Granted pages align limit frame m
        (record m { free_frames = drain m.free_frames start pages }) given refl f.1 f.2
        (record {
          low = v.low;
          once = λ k.
              let used = count-append k (frames_from frame pages) given in
              let split = drain-count k start pages m.free_frames in
              let same : start - 0 ≡ start = omega arith in
              let run =
                ap (λ i. count k (take pages (drop i m.free_frames))) (sym same)
                ∙ ap (count k) f.3 in
              omega (arith, used, split, run, v.once k);
        })

sorted-Owned :
    (m : PageManager) (given : List ℕ)
    → Owned m given
    → Owned (record m { free_frames = dedup (sort m.free_frames) }) given
sorted-Owned m given v =
    let single : (f : ℕ) → count f (sort m.free_frames) ≤ 1 =
      λ f. omega (arith, sort-count f m.free_frames, v.once f, one_or_none m f) in
    record {
      low = v.low;
      once = λ f.
          let same =
            ap (count f) (dedup-same (sort m.free_frames) single) ∙ sort-count f m.free_frames in
          omega (arith, same, v.once f);
    }

-- Where each frame below the bump is free or someone's, once, a contiguous allocation, on every
-- outcome: the frames that it grants are aligned, below the limits, no one else's, and on no live
-- task's stack; a failure leaves everyone's frames as they were; and a panic means that there is an
-- aligned run below the limits with a frame that no one owns, on which a live task has its stack.
pub alloc_contiguous-Granted :
    (pages align max_page_exclusive : ℕ) (m : PageManager) (given : List ℕ)
    → Owned m given
    → Granted pages align
        (min m.max_page max_page_exclusive)
        m
        given
        (alloc_contiguous pages align max_page_exclusive m)
unfolding alloc_contiguous
alloc_contiguous-Granted pages align max_page_exclusive m given v =
    let limit = min m.max_page max_page_exclusive in
    let sorted = record m { free_frames = dedup (sort m.free_frames) } in
    if_intro (Granted pages align limit m given)
      (pages == 0
        || (align == 0 || not (is_power_of_two 32 align))
        || (limit == 0 || ltb limit pages))
      (failed m)
      (use_run (find_run pages align limit 0 0 sorted.free_frames) pages align limit sorted)
      (λ h. v)
      (λ h.
        let pos : 0 < align = ground (arith, h) in
        use_run-Granted pages align limit pos sorted given (sorted-Owned m given v) _
          (find_run-Fits pages align limit 0 0 sorted.free_frames pos))

-- The detected memory is taken as 64 MiB to 1 GiB in whole large pages, which cover it, and at most
-- the greater of what there is and 64 MiB.
pub configure_from_ram-bounds :
    (ram_bytes : ℕ)
    → (64 * mebibyte ≤ (configure_from_ram ram_bytes).0)
      × ((configure_from_ram ram_bytes).0 ≤ 1024 * mebibyte)
      × ((configure_from_ram ram_bytes).1 * (4 * mebibyte) ≡ (configure_from_ram ram_bytes).0)
      × ((configure_from_ram ram_bytes).0 ≤ max ram_bytes (64 * mebibyte))
unfolding configure_from_ram
configure_from_ram-bounds ram_bytes = (ground arith, ground arith, ground arith, ground arith)

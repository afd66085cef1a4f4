-- ===== src/Frames/Runs.antt =====
-- The search of the sorted free frames for an aligned run.
use felix.Prelude.{
  ℕ, zero, suc, ◌+◌, ◌-◌, ◌*◌, ◌/◌, ◌%◌, ◌^◌, ◌≤◌, ◌<◌, ◌≡◌, inl, inr, refl, ap, ap₂, ◌∙◌, false,
  ◌&&◌, Option, none, some, List, [], ◌∷◌, ◌==◌, ltb, leb, if◌then◌else◌, if_intro, take, drop,
  length, total, Bool-cases, arith,
}
use native.Mathlib.Nat.{mul-mod_left, div-add-mod', mod-lt}
use felix.Frames.Defs.{
  insert_sorted, sort, dedup_after, dedup, run_of, checked_add, range_at, Search, no_run, overflow,
  run_at, saturating_inc, test_run, find_run, frames_from,
}
use felix.Frames.Partition.{is_frame, count}

insert_sorted-count :
    (f x : ℕ) (ys : List ℕ) → count f (insert_sorted x ys) ≡ is_frame f x + count f ys
unfolding insert_sorted total
insert_sorted-count f x [] = omega arith
insert_sorted-count f x (y ∷ ys) =
    if_intro (λ l. count f l ≡ is_frame f x + (is_frame f y + count f ys)) (leb x y) (x ∷ y ∷ ys)
      (y ∷ insert_sorted x ys) (λ h. unfold total in refl)
      (λ h. unfold total in omega (arith, insert_sorted-count f x ys))

pub sort-count : (f : ℕ) (xs : List ℕ) → count f (sort xs) ≡ count f xs
unfolding sort total
sort-count f [] = refl
sort-count f (x ∷ xs) =
    unfold total in
    (insert_sorted-count f x (sort xs) ∙ ap (λ n. is_frame f x + n) (sort-count f xs))

-- A list that has each frame once keeps all of them.
dedup_after-same : (x : ℕ) (ys : List ℕ) → ((f : ℕ) → count f (x ∷ ys) ≤ 1) → dedup_after x ys ≡ ys
unfolding dedup_after total
dedup_after-same x [] h = refl
dedup_after-same x (y ∷ ys) h =
    let apart : (y == x) ≡ false = ground (arith, h x) in
    rw apart (ap (λ l. y ∷ l) (dedup_after-same y ys (λ f. omega (arith, h f))))

pub dedup-same : (xs : List ℕ) → ((f : ℕ) → count f xs ≤ 1) → dedup xs ≡ xs
unfolding dedup
dedup-same [] h = refl
dedup-same (x ∷ xs) h = ap (λ l. x ∷ l) (dedup_after-same x xs h)

pub frames_from-count :
    (f x n : ℕ) → count f (frames_from x n) ≡ (if leb x f && ltb f (x + n) then 1 else 0)
unfolding frames_from total
frames_from-count f x zero = ground arith
frames_from-count f x (suc n) = ground (arith, frames_from-count f (suc x) n)

-- A run goes on without gaps up to its last frame.
run_of-frames :
    (x : ℕ) (ys : List ℕ)
    → (take (suc (run_of x ys).0) (x ∷ ys) ≡ frames_from x (suc (run_of x ys).0))
      × ((run_of x ys).1 ≡ x + (run_of x ys).0)
unfolding run_of frames_from
run_of-frames x [] = (refl, omega arith)
run_of-frames x (y ∷ ys) = elim (Bool-cases (y == x + 1)) [
  | inl h ↦
      let rest = run_of-frames y ys in
      let next : y ≡ suc x = ground (arith, h) in
      rw h (
        ap (λ l. x ∷ l) (rest.0 ∙ ap (λ z. frames_from z (suc (run_of y ys).0)) next),
        omega (arith, rest.1, next),
      )
  | inr h ↦ rw h (refl, omega arith)
]

first_or : ℕ → List ℕ → ℕ
first_or d [] = d
first_or d (a ∷ l) = a

rest_of : List ℕ → List ℕ
rest_of [] = []
rest_of (a ∷ l) = l

take-prefix :
    (x p n : ℕ) (ys : List ℕ) → take n ys ≡ frames_from x n → p ≤ n → take p ys ≡ frames_from x p
unfolding frames_from first_or rest_of
take-prefix x zero n ys e h = refl
take-prefix x (suc p) zero ys e h = absurd (omega (arith, h))
take-prefix x (suc p) (suc n) [] e h = absurd (omega (arith, ap length e))
take-prefix x (suc p) (suc n) (y ∷ ys) e h =
    let heads : y ≡ x = ap (first_or x) e in
    let tails : take n ys ≡ frames_from (suc x) n = ap rest_of e in
    ap₂ (λ a l. a ∷ l) heads (take-prefix (suc x) p n ys tails (omega (arith, h)))

drop-frames :
    (x j n m : ℕ) (ys : List ℕ)
    → m ≡ j + n
    → take m ys ≡ frames_from x m
    → take n (drop j ys) ≡ frames_from (x + j) n
unfolding frames_from rest_of
drop-frames x zero n m ys q e =
    ap (λ k. take k ys) (omega (arith, q)) ∙ e ∙ ap₂ frames_from (omega arith) (omega (arith, q))
drop-frames x (suc j) n zero ys q e = absurd (omega (arith, q))
drop-frames x (suc j) n (suc m) [] q e = absurd (omega (arith, ap length e))
drop-frames x (suc j) n (suc m) (y ∷ ys) q e =
    drop-frames (suc x) j n m ys (omega (arith, q)) (ap rest_of e)
    ∙ ap (λ z. frames_from z n) (omega arith)

-- A part of such a run.
sub_run :
    (x j p n : ℕ) (ys : List ℕ)
    → take n ys ≡ frames_from x n
    → j + p ≤ n
    → take p (drop j ys) ≡ frames_from (x + j) p
sub_run x j p n ys e h = drop-frames x j p (j + p) ys refl (take-prefix x (j + p) n ys e h)

-- An aligned range starts at or after a frame.
abbrev pub Aligned : ℕ → ℕ → ℕ → Option (ℕ × ℕ) → Type 0
Aligned x pages align none = Unit
Aligned x pages align (some (aligned, end)) =
    (aligned % align ≡ 0) × (end ≡ aligned + pages) × (x ≤ aligned)

pub range_at-Aligned :
    (x pages align : ℕ) → 0 < align → Aligned x pages align (range_at x pages align)
range_at-Aligned x pages align pos =
    if_intro (λ o. Aligned x pages align (ended o)) (ltb (x + (align - 1)) (2 ^ 32)) (some up) none
      (λ h.
        if_intro (λ o. Aligned x pages align (both o)) (ltb (up + pages) (2 ^ 32))
          (some (up + pages)) none
          (λ k. (mul-mod_left ((x + (align - 1)) / align) align, refl, above)) (λ k. tt))
      (λ h. tt)
  where
    up : ℕ
    up = (x + (align - 1)) / align * align

    both : Option ℕ → Option (ℕ × ℕ)
    both o = elim o [ none ↦ none | some end ↦ some (up, end) ]

    ended : Option ℕ → Option (ℕ × ℕ)
    ended o = elim o [
      | none ↦ none
      | some aligned ↦ elim (checked_add aligned pages) [
        | none ↦ none
        | some end ↦ some (aligned, end)
      ]
    ]

    above : x ≤ up
    above =
        let parts = div-add-mod' (x + (align - 1)) align in
        let small = mod-lt (x + (align - 1)) pos in omega (arith, parts, small)

-- What a search may find: an aligned run of free frames, from an index on, below the limit.
abbrev pub Fits : ℕ → ℕ → ℕ → ℕ → List ℕ → Search → Type 0
Fits pages align limit k xs no_run = Unit
Fits pages align limit k xs overflow = Unit
Fits pages align limit k xs (run_at start frame) =
    (k ≤ start)
    × (frame % align ≡ 0)
    × (frame + pages ≤ limit)
    × (take pages (drop (start - k) xs) ≡ frames_from frame pages)

Fits-next :
    (pages align limit k x : ℕ) (xs : List ℕ) (s : Search)
    → Fits pages align limit (suc k) xs s
    → Fits pages align limit k (x ∷ xs) s
Fits-next pages align limit k x xs no_run f = tt
Fits-next pages align limit k x xs overflow f = tt
Fits-next pages align limit k x xs (run_at start frame) f =
    let next : start - k ≡ suc (start - suc k) = omega (arith, f.0) in
    (omega (arith, f.0), f.1, f.2, rw next f.3)

-- The search finds only runs that fit.
pub find_run-Fits :
    (pages align limit skip k : ℕ) (xs : List ℕ)
    → 0 < align
    → Fits pages align limit k xs (find_run pages align limit skip k xs)
unfolding find_run
find_run-Fits pages align limit skip k [] pos = tt
find_run-Fits pages align limit (suc skip) k (x ∷ xs) pos =
    Fits-next pages align limit k x xs _ (find_run-Fits pages align limit skip (suc k) xs pos)
find_run-Fits pages align limit zero k (x ∷ xs) pos =
    by_range (range_at x pages align) (range_at-Aligned x pages align pos) (
      Fits-next pages align limit k x xs _
        (find_run-Fits pages align limit (run_of x xs).0 (suc k) xs pos))
  where
    rest : Search
    rest = find_run pages align limit (run_of x xs).0 (suc k) xs

    by_range :
        (r : Option (ℕ × ℕ))
        → Aligned x pages align r
        → Fits pages align limit k (x ∷ xs) rest
        → Fits pages align limit k (x ∷ xs) (test_run k x (run_of x xs).1 pages r limit rest)
    by_range none a f = tt
    by_range (some (aligned, end)) a f =
        if_intro (Fits pages align limit k (x ∷ xs))
          (leb x aligned && (leb end (saturating_inc (run_of x xs).1) && leb end limit))
          (run_at (k + (aligned - x)) aligned) rest
          (λ h.
            let run = run_of-frames x xs in
            let from : x + (aligned - x) ≡ aligned = omega (arith, a.2) in
            let index : k + (aligned - x) - k ≡ aligned - x = omega arith in
            (
              omega arith,
              a.0,
              ground (arith, h, a.1),
              rw index (
                  sub_run x (aligned - x) pages (suc (run_of x xs).0) (x ∷ xs) run.0
                    (ground (arith, h, a.1, a.2, run.1))
                  ∙ ap (λ z. frames_from z pages) from),
            ))
          (λ h. f)

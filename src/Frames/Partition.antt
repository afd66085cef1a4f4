-- ===== src/Frames/Partition.antt =====
-- `alloc_phys_frame` and `free_phys_frame`, against the frames that callers own.
use felix.Prelude.{
  ℕ, ◌+◌, ◌≤◌, ◌<◌, ◌≡◌, ◌⊎◌, inl, inr, refl, sym, subst, ap, ◌∙◌, Bool, true, false, ◌&&◌, ◌||◌,
  not, Option, none, some, List, [], ◌∷◌, ◌++◌, ◌==◌, ltb, leb, if◌then◌else◌, if_intro, drop_last,
  final, total, total-cons, total-append, total-single, total-drop_last, Bool-cases, arith, ==_self,
}
use felix.Frames.Defs.{
  PageManager, first_dynamic, live_stack, retain_other, publish, pop_or_bump, alloc_phys_frame,
  has_frame, free_phys_frame,
}

abbrev pub is_frame : ℕ → ℕ → ℕ
is_frame f x = if x == f then 1 else 0

abbrev pub count : ℕ → List ℕ → ℕ
count f xs = total (is_frame f) xs

abbrev pub below_bump : PageManager → ℕ → ℕ
below_bump m f = if leb first_dynamic f && ltb f m.next_free_page then 1 else 0

-- The frames that callers own are those that were handed out and not freed.
pub record Owned (m : PageManager) (given : List ℕ) : Type 0 where
  pub low : first_dynamic ≤ m.next_free_page
  pub once : (f : ℕ) → count f m.free_frames + count f given ≡ below_bump m f

retain-count :
    (f g : ℕ) (xs : List ℕ) → count f (retain_other g xs) ≡ (if f == g then 0 else count f xs)
unfolding retain_other total
retain-count f g [] = elim (Bool-cases (f == g)) [ inl h ↦ rw h refl | inr h ↦ rw h refl ]
retain-count f g (x ∷ xs) = elim (Bool-cases (x == g)) [
  | inl h ↦ rw h (ground (arith, retain-count f g xs, h))
  | inr h ↦ rw h (ground (arith, retain-count f g xs, h))
]

-- What an allocation of a frame leaves: the caller has a frame that no one had, or the kernel has
-- panicked for want of memory or over the stack of a live task.
abbrev pub Allocated : PageManager → List ℕ → Option (ℕ × PageManager) → Type 0
Allocated m given none =
    ((m.free_frames ≡ []) × (m.max_page ≤ m.next_free_page))
    ⊎ ((f : ℕ) × (live_stack m.tasks f ≡ true))
Allocated m given (some (frame, m')) =
    (count frame given ≡ 0) × (live_stack m.tasks frame ≡ false) × Owned m' (frame ∷ given)

publish-Allocated :
    (m m' : PageManager) (given : List ℕ) (frame : ℕ)
    → m'.tasks ≡ m.tasks
    → count frame given ≡ 0
    → Owned m' (frame ∷ given)
    → Allocated m given (publish frame m')
publish-Allocated m m' given frame same new v =
    if_intro (Allocated m given) (live_stack m'.tasks frame) none (some (frame, m'))
      (λ h. inr (frame, ap (λ ts. live_stack ts frame) (sym same) ∙ h))
      (λ h. (new, ap (λ ts. live_stack ts frame) (sym same) ∙ h, v))

count-cons : (f x : ℕ) (xs : List ℕ) → count f (x ∷ xs) ≡ is_frame f x + count f xs
count-cons f x xs = total-cons (is_frame f) x xs

pub one_or_none : (m : PageManager) (f : ℕ) → below_bump m f ≤ 1
one_or_none m f =
    if_intro (λ n. n ≤ 1) (leb first_dynamic f && ltb f m.next_free_page) 1 0 (λ h. omega arith)
      (λ h. omega arith)

same_test : (f g : ℕ) → is_frame f g ≡ (if f == g then 1 else 0)
same_test f g = ground arith

-- One frame moves from the free list to the frames in use.
moved :
    (b : Bool) (one rest free kept given handed bump : ℕ)
    → one ≡ (if b then 1 else 0)
    → kept ≡ (if b then 0 else rest)
    → handed ≡ one + given
    → free + given ≡ bump
    → one + rest ≡ free
    → bump ≤ 1
    → kept + handed ≡ bump
moved true one rest free kept given handed bump e k h o s l = omega (arith, e, k, h, o, s, l)
moved false one rest free kept given handed bump e k h o s l = omega (arith, e, k, h, o, s, l)

-- An allocation gives a frame that was free or new, never one that is in use.
pub alloc_phys_frame-Allocated :
    (m : PageManager) (given : List ℕ) → Owned m given → Allocated m given (alloc_phys_frame m)
unfolding alloc_phys_frame
alloc_phys_frame-Allocated m given v = by_list m.free_frames refl
  where
    by_list : (xs : List ℕ) → m.free_frames ≡ xs → Allocated m given (pop_or_bump xs m)
    by_list [] e =
        if_intro (Allocated m given) (ltb m.next_free_page m.max_page)
          (publish m.next_free_page (record m { next_free_page = m.next_free_page + 1 })) none
          (λ h.
            publish-Allocated m (record m { next_free_page = m.next_free_page + 1 }) given
              m.next_free_page refl (ground (arith, v.once m.next_free_page))
              (record {
                low = omega (arith, v.low);
                once = λ f. ground (arith, v.once f, v.low, count-cons f m.next_free_page given);
              }))
          (λ h. inl (e, ground (arith, h)))
    by_list (x ∷ xs) e =
        let frame = final x xs in
        let rest = drop_last (x ∷ xs) in
        let split : (f : ℕ) → is_frame f frame + count f rest ≡ count f m.free_frames =
          λ f. total-drop_last (is_frame f) x xs ∙ sym (count-cons f x xs) ∙ ap (count f) (sym e) in
        let here : is_frame frame frame ≡ 1 = rw (==_self frame) refl in
        publish-Allocated m (record m { free_frames = retain_other frame rest }) given frame refl
          (ground (arith, v.once frame, split frame, here))
          (record {
            low = v.low;
            once = λ f.
                let kept = retain-count f frame rest in
                let handed = count-cons f frame given in
                moved (f == frame) (is_frame f frame) _ _ _ _ _ _ (same_test f frame) kept handed
                  (v.once f) (split f) (one_or_none m f);
          })

has_frame-count : (f : ℕ) (xs : List ℕ) → has_frame f xs ≡ not (count f xs == 0)
unfolding has_frame total
has_frame-count f [] = refl
has_frame-count f (x ∷ xs) = elim (Bool-cases (x == f)) [
  | inl h ↦ rw h (ground (arith, has_frame-count f xs))
  | inr h ↦ rw h (ground (arith, has_frame-count f xs))
]

-- The frames in use once one of them is given back.
pub give_back : ℕ → List ℕ → List ℕ
give_back f [] = []
give_back f (x ∷ xs) = if x == f then xs else x ∷ give_back f xs

count-give_back :
    (f g : ℕ) (xs : List ℕ) → 0 < count g xs → count f (give_back g xs) + is_frame f g ≡ count f xs
unfolding give_back total
count-give_back f g [] h = absurd (omega (arith, h))
count-give_back f g (x ∷ xs) h = elim (Bool-cases (x == g)) [
  | inl e ↦ rw e (ground (arith, e))
  | inr e ↦ rw e (ground (arith, count-give_back f g xs (ground (arith, h, e))))
]

give_back_absent : (f : ℕ) (xs : List ℕ) → count f xs ≡ 0 → give_back f xs ≡ xs
unfolding give_back total
give_back_absent f [] h = refl
give_back_absent f (x ∷ xs) h =
    let other : (x == f) ≡ false = ground (arith, h) in
    rw other (ap (λ l. x ∷ l) (give_back_absent f xs (ground (arith, h))))

-- A frame that is freed is no longer its owner's, and can be handed out again, once; to free a frame
-- that no one owns, a second time or out of range, changes nothing.
pub free_phys_frame-Owned :
    (m : PageManager) (given : List ℕ) (frame : ℕ)
    → Owned m given
    → Owned (free_phys_frame frame m) (give_back frame given)
      × ((0 < count frame given) ⊎ (free_phys_frame frame m ≡ m))
unfolding free_phys_frame
free_phys_frame-Owned m given frame v = elim (Bool-cases (count frame given == 0)) [
  | inl z ↦
      let absent : count frame given ≡ 0 = ground (arith, z) in
      let yes : guard ≡ true =
        rw (has_frame-count frame m.free_frames) (ground (arith, v.once frame, absent)) in
      (rw yes (subst (Owned m) (sym (give_back_absent frame given absent)) v), inr (rw yes refl))
  | inr p ↦
      let here : 0 < count frame given = ground (arith, p) in
      let no : guard ≡ false =
        rw (has_frame-count frame m.free_frames) (ground (arith, v.once frame, here)) in
      (
        rw no (record {
          low = v.low;
          once = λ f. omega (arith, appended f, count-give_back f frame given here, v.once f);
        }),
        inl here,
      )
]
  where
    guard : Bool
    guard = ltb frame first_dynamic || leb m.next_free_page frame || has_frame frame m.free_frames

    appended :
        (f : ℕ) → count f (m.free_frames ++ frame ∷ []) ≡ count f m.free_frames + is_frame f frame
    appended f =
        total-append (is_frame f) m.free_frames (frame ∷ [])
        ∙ ap (λ n. count f m.free_frames + n) (total-single (is_frame f) frame)

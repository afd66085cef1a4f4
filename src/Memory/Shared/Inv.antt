-- ===== src/Memory/Shared/Inv.antt =====
-- The references of the cache and the mappings that are out, over sequences of the calls.
use felix.Prelude.{
  total, total-append, total-single, total-Holds, total-set, total-swap_remove, Holds, swap_remove,
  ℕ, ◌+◌, ◌-◌, ◌≤◌, ◌<◌, ◌≡◌, ◌^◌, refl, min, true, not, Option, none, some, List, [], ◌∷◌, ◌++◌,
  ltb, leb, ◌==◌, if◌then◌else◌, set, length, arith, if_intro, ◌%◌, ltb→lt, ltb-false, ==_iff,
  subst, Bool-cases, inl, inr,
}
use felix.Memory.Defs.{page_size}
use felix.Memory.Shared.{
  unaligned, no_metadata, beyond_end, SharedPage, Cache, Acquired, frame_of, failed, share,
  acquire_begin, acquire_end, find_frame, release_shared_frame, release_found, SharedFrameRelease,
  write_len_of, is_page,
}
use felix.Memory.Shared.Total.{
  refs_in, pages_in, pages_at, unused, refs_in-absent, Share, missed, shared, share-Share, Find,
  absent, found, find_frame-Find,
}

-- The cache, and the frames that page tables hold of it, one entry for each mapping.
pub record System : Type 0 where
  pub cache : Cache
  pub mapped : List ℕ

-- A call of `acquire_file_page` is two events: other calls run during its I/O.
pub data Event : Type 0 where
  begin : ℕ → ℕ → Option ℕ → Event
  end_io : ℕ → ℕ → ℕ → ℕ → Event
  release : ℕ → Event

unfoldable pub count : ℕ → List ℕ → ℕ
count f [] = 0
count f (g ∷ gs) = (if g == f then 1 else 0) + count f gs

unfoldable pub unmap : ℕ → List ℕ → List ℕ
unmap f [] = []
unmap f (g ∷ gs) = if g == f then gs else g ∷ unmap f gs

abbrev mapped_by : Option Acquired → List ℕ → List ℕ
mapped_by none gs = gs
mapped_by (some (failed e)) gs = gs
mapped_by (some (frame_of f)) gs = f ∷ gs

unfoldable pub event : System → Event → System
event s (begin i o size) =
    let r = acquire_begin s.cache i o size in
    record { cache = r.1; mapped = mapped_by r.0 s.mapped }
event s (end_io i o size frame) =
    let r = acquire_end s.cache i o size frame in record { cache = r.2; mapped = r.0 ∷ s.mapped }
event s (release f) = record {
  cache = (release_shared_frame s.cache f).1;
  mapped = unmap f s.mapped;
}

-- The allocator hands out no frame that the cache holds.
abbrev pub IsFresh : System → Event → Type 0
IsFresh s (begin i o size) = Unit
IsFresh s (end_io i o size frame) = total (pages_in frame) s.cache ≡ 0
IsFresh s (release f) = Unit

-- Each page counts its mappings, has one, and has its frame and its place in the file for itself.
pub record Inv (s : System) : Type 0 where
  pub counted : (f : ℕ) → total (refs_in f) s.cache ≡ count f s.mapped
  pub used : total unused s.cache ≡ 0
  pub frames : (f : ℕ) → total (pages_in f) s.cache ≤ 1
  pub places : (i o : ℕ) → total (pages_at i o) s.cache ≤ 1

count-cons : (f g : ℕ) (gs : List ℕ) → count f (g ∷ gs) ≡ (if g == f then 1 else 0) + count f gs
unfolding count
count-cons f g gs = refl

count-length : (f : ℕ) (gs : List ℕ) → count f gs ≤ length gs
unfolding count
count-length f [] = omega arith
count-length f (g ∷ gs) = ground (arith, count-length f gs)

count-unmap :
    (f g : ℕ) (gs : List ℕ) → count g (unmap f gs) ≡ count g gs - (if f == g then 1 else 0)
unfolding count unmap
count-unmap f g [] = omega arith
count-unmap f g (h ∷ gs) = ground (arith, count-unmap f g gs)

share-Inv :
    (xs : Cache) (gs : List ℕ) (k : ℕ) (p : SharedPage)
    → Inv (record { cache = xs; mapped = gs })
    → length gs < 2 ^ 32 - 1
    → Holds xs k p
    → Inv (record {
      cache = set xs k (record p { refs = min (p.refs + 1) (2 ^ 32 - 1) });
      mapped = p.frame ∷ gs;
    })
share-Inv xs gs k p v h at = record {
  counted = λ f. ground (
    arith,
    v.counted f,
    total-set (refs_in f) xs k p q at,
    total-Holds (refs_in f) xs k p at,
    count-length f gs,
    count-cons f p.frame gs,
  );
  used = ground (arith, v.used, total-set unused xs k p q at);
  frames = λ f. ground (arith, v.frames f, total-set (pages_in f) xs k p q at);
  places = λ i o. ground (arith, v.places i o, total-set (pages_at i o) xs k p q at);
}
  where
    q : SharedPage
    q = record p { refs = min (p.refs + 1) (2 ^ 32 - 1) }

push-Inv :
    (xs : Cache) (gs : List ℕ) (p : SharedPage)
    → Inv (record { cache = xs; mapped = gs })
    → total (pages_in p.frame) xs ≡ 0
    → total (pages_at p.inode p.offset) xs ≡ 0
    → p.refs ≡ 1
    → Inv (record { cache = xs ++ p ∷ []; mapped = p.frame ∷ gs })
push-Inv xs gs p v fresh missing one = record {
  counted = λ f. ground (arith, v.counted f, push (refs_in f), count-cons f p.frame gs, one);
  used = ground (arith, v.used, push unused, one);
  frames = λ f. elim (Bool-cases (p.frame == f)) [
    | inl h ↦ ground (
      arith,
      push (pages_in f),
      h,
      subst (λ g. total (pages_in g) xs ≡ 0) ((==_iff p.frame f).0 h) fresh,
    )
    | inr h ↦ ground (arith, push (pages_in f), h, v.frames f)
  ];
  places = λ i o. elim (Bool-cases (is_page i o p)) [
    | inl h ↦ ground (arith, push (pages_at i o), h, taken i o h)
    | inr h ↦ ground (arith, push (pages_at i o), h, v.places i o)
  ];
}
  where
    push : (w : SharedPage → ℕ) → total w (xs ++ p ∷ []) ≡ total w xs + w p
    push w = omega (arith, total-append w xs (p ∷ []), total-single w p)

    taken : (i o : ℕ) → is_page i o p ≡ true → total (pages_at i o) xs ≡ 0
    taken i o h =
        let a : p.inode ≡ i = ground (arith, h) in
        let b : p.offset ≡ o = ground (arith, h) in
        subst (λ j. total (pages_at j o) xs ≡ 0) a
          (subst (λ q. total (pages_at p.inode q) xs ≡ 0) b missing)

retain-Inv :
    (xs : Cache) (gs : List ℕ) (k : ℕ) (p : SharedPage)
    → Inv (record { cache = xs; mapped = gs })
    → Holds xs k p
    → 1 < p.refs
    → Inv (record { cache = set xs k (record p { refs = p.refs - 1 }); mapped = unmap p.frame gs })
retain-Inv xs gs k p v at h = record {
  counted = λ f. ground (
    arith,
    v.counted f,
    total-set (refs_in f) xs k p q at,
    total-Holds (refs_in f) xs k p at,
    count-unmap p.frame f gs,
  );
  used = ground (arith, v.used, total-set unused xs k p q at);
  frames = λ f. ground (arith, v.frames f, total-set (pages_in f) xs k p q at);
  places = λ i o. ground (arith, v.places i o, total-set (pages_at i o) xs k p q at);
}
  where
    q : SharedPage
    q = record p { refs = p.refs - 1 }

last-Inv :
    (xs : Cache) (gs : List ℕ) (k : ℕ) (p : SharedPage)
    → Inv (record { cache = xs; mapped = gs })
    → Holds xs k p
    → p.refs ≤ 1
    → Inv (record { cache = swap_remove xs k; mapped = unmap p.frame gs })
last-Inv xs gs k p v at h = record {
  counted = λ f. ground (
    arith,
    v.counted f,
    v.used,
    total-Holds unused xs k p at,
    total-swap_remove (refs_in f) xs k p at,
    count-unmap p.frame f gs,
  );
  used = ground (arith, v.used, total-swap_remove unused xs k p at);
  frames = λ f. ground (arith, v.frames f, total-swap_remove (pages_in f) xs k p at);
  places = λ i o. ground (arith, v.places i o, total-swap_remove (pages_at i o) xs k p at);
}

begin-Inv :
    (xs : Cache) (gs : List ℕ) (i o : ℕ) (size : Option ℕ)
    → Inv (record { cache = xs; mapped = gs })
    → length gs < 2 ^ 32 - 1
    → (let r = acquire_begin xs i o size in Inv (record { cache = r.1; mapped = mapped_by r.0 gs }))
unfolding acquire_begin
begin-Inv xs gs i o size v h =
    if_intro After (not (o % page_size == 0)) (some (failed unaligned), xs) _ (λ _. v)
      (λ _. looked_up (share i o xs) (share-Share i o xs) size)
  where
    After : Option Acquired × Cache → Type 0
    After r = Inv (record { cache = r.1; mapped = mapped_by r.0 gs })

    looked_up :
        (r : Option (ℕ × Cache))
        → Share i o xs r
        → (size : Option ℕ)
        → After (elim r [
          | some (frame, cache') ↦ (some (frame_of frame), cache')
          | none ↦ elim size [
            | none ↦ (some (failed no_metadata), xs)
            | some bytes ↦ if leb bytes o then (some (failed beyond_end), xs) else (none, xs)
          ]
        ])
    looked_up _ (shared k p at m) size = share-Inv xs gs k p v h at
    looked_up _ (missed z) none = v
    looked_up _ (missed z) (some bytes) =
        if_intro After (leb bytes o) (some (failed beyond_end), xs) (none, xs) (λ _. v) (λ _. v)

end_io-Inv :
    (xs : Cache) (gs : List ℕ) (i o size frame : ℕ)
    → Inv (record { cache = xs; mapped = gs })
    → length gs < 2 ^ 32 - 1
    → total (pages_in frame) xs ≡ 0
    → (let r = acquire_end xs i o size frame in Inv (record { cache = r.2; mapped = r.0 ∷ gs }))
unfolding acquire_end
end_io-Inv xs gs i o size frame v h fresh = looked_up (share i o xs) (share-Share i o xs)
  where
    page : SharedPage
    page = record {
      inode = i;
      offset = o;
      frame = frame;
      refs = 1;
      write_len = write_len_of size o;
    }

    looked_up :
        (r : Option (ℕ × Cache))
        → Share i o xs r
        → (let r' : ℕ × Option ℕ × Cache = elim r [
          | some (existing, cache') ↦ (existing, some frame, cache')
          | none ↦ (frame, none, xs ++ page ∷ [])
        ] in
            Inv (record { cache = r'.2; mapped = r'.0 ∷ gs }))
    looked_up _ (shared k p at m) = share-Inv xs gs k p v h at
    looked_up _ (missed z) = push-Inv xs gs page v fresh z refl

release-shared-Inv :
    (xs : Cache) (gs : List ℕ) (f : ℕ)
    → Inv (record { cache = xs; mapped = gs })
    → Inv (record { cache = (release_shared_frame xs f).1; mapped = unmap f gs })
unfolding release_shared_frame release_found
release-shared-Inv xs gs f v = looked_up (find_frame f xs) (find_frame-Find f xs)
  where
    After : ℕ → SharedFrameRelease × Cache → Type 0
    After g r = Inv (record { cache = r.1; mapped = unmap g gs })

    looked_up : (r : Option (ℕ × SharedPage)) → Find f xs r → After f (release_found xs r)
    looked_up _ (absent z) = record {
      counted =
          λ g. ground (arith, v.counted g, v.counted f, count-unmap f g gs, refs_in-absent f xs z);
      used = v.used;
      frames = v.frames;
      places = v.places;
    }
    looked_up _ (found k p at e) =
        subst (λ g. After g (release_found xs (some (k, p)))) e
          (if_intro (After p.frame) (ltb 1 p.refs) _ _
            (λ h. retain-Inv xs gs k p v at (ltb→lt 1 p.refs h))
            (λ h. last-Inv xs gs k p v at (ltb-false 1 p.refs h)))

-- No event breaks the invariant, in any interleaving of the calls, as long as there are fewer
-- mappings than a reference count can hold and the allocator hands out frames that are free.
pub event-Inv :
    (s : System) (e : Event) → Inv s → length s.mapped < 2 ^ 32 - 1 → IsFresh s e → Inv (event s e)
unfolding event
event-Inv s (begin i o size) v h _ = begin-Inv s.cache s.mapped i o size v h
event-Inv s (end_io i o size frame) v h fresh = end_io-Inv s.cache s.mapped i o size frame v h fresh
event-Inv s (release f) v h _ = release-shared-Inv s.cache s.mapped f v

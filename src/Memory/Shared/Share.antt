-- ===== src/Memory/Shared/Share.antt =====
-- What the invariant of the cache means for its users.
use felix.Prelude.{
  total, total-cons, total-Holds, total-swap_remove, Holds, here, there, swap_remove, ℕ, zero, suc,
  ◌+◌, ◌-◌, ◌%◌, ◌≤◌, ◌≡◌, ◌^◌, refl, ap, ◌∙◌, min, true, Option, some, [], ◌∷◌, ltb, leb, ◌==◌,
  if_intro, set, arith, ==_iff, ==_self, ltb-false,
}
use mathlib.Core.Bool.{false≢true}
use felix.Memory.Defs.{page_size}
use felix.Memory.Shared.{
  SharedPage, Cache, frame_of, share, acquire_begin, acquire_end, find_frame, release_shared_frame,
  release_found, frees, SharedFrameRelease, last, release_user_frame, is_page,
}
use felix.Memory.Shared.Total.{
  refs_in, pages_in, pages_at, refs_in-absent, Share, missed, shared, share-Share, Find, absent,
  found, find_frame-Find,
}
use felix.Memory.Shared.Inv.{System, Inv, count}

-- A weight of at most one tells pages apart.
same_page :
    (w : SharedPage → ℕ) (xs : Cache) (i j : ℕ) (p q : SharedPage)
    → Holds xs i p
    → Holds xs j q
    → w p ≡ 1
    → w q ≡ 1
    → total w xs ≤ 1
    → p ≡ q
same_page w [] i j p q h k a b t = elim h [ ]
same_page w (x ∷ xs) zero zero _ _ here here a b t = refl
same_page w (x ∷ xs) zero (suc j) _ q here (there k) a b t =
    absurd (omega (arith, total-cons w x xs, total-Holds w xs j q k, a, b, t))
same_page w (x ∷ xs) (suc i) zero p _ (there h) here a b t =
    absurd (omega (arith, total-cons w x xs, total-Holds w xs i p h, a, b, t))
same_page w (x ∷ xs) (suc i) (suc j) p q (there h) (there k) a b t =
    same_page w xs i j p q h k a b (omega (arith, total-cons w x xs, t))

share-held :
    (s : System) (k : ℕ) (p : SharedPage)
    → Inv s
    → Holds s.cache k p
    → (xs : Cache) × (share p.inode p.offset s.cache ≡ some (p.frame, xs))
share-held s k p v at = looked_up (share p.inode p.offset s.cache) (share-Share _ _ _) refl
  where
    here_it_is : is_page p.inode p.offset p ≡ true
    here_it_is = ground (arith, ==_self p.inode, ==_self p.offset)

    looked_up :
        (r : Option (ℕ × Cache))
        → Share p.inode p.offset s.cache r
        → share p.inode p.offset s.cache ≡ r
        → (xs : Cache) × (share p.inode p.offset s.cache ≡ some (p.frame, xs))
    looked_up _ (missed z) e =
        absurd
          (ground (arith, z, here_it_is, total-Holds (pages_at p.inode p.offset) s.cache k p at))
    looked_up _ (shared j q at' m) e =
        let same =
          same_page (pages_at p.inode p.offset) s.cache j k q p at' at (ground (arith, m))
            (ground (arith, here_it_is)) (v.places p.inode p.offset) in
        let xs = set s.cache j (record q { refs = min (q.refs + 1) (2 ^ 32 - 1) }) in
        (xs, e ∙ ap (λ (r : SharedPage). some (r.frame, xs)) same)

-- While a page of a file is in the cache, everyone who maps the same page of the same file gets its
-- frame: at once, and also a caller that found it missing and has read it in the meantime.
pub acquire-same_frame :
    (s : System) (k : ℕ) (p : SharedPage) (size : Option ℕ) (bytes frame : ℕ)
    → Inv s
    → Holds s.cache k p
    → p.offset % page_size ≡ 0
    → ((acquire_begin s.cache p.inode p.offset size).0 ≡ some (frame_of p.frame))
      × ((acquire_end s.cache p.inode p.offset bytes frame).0 ≡ p.frame)
unfolding acquire_begin acquire_end
acquire-same_frame s k p size bytes frame v at aligned =
    let (xs, e) = share-held s k p v at in
    let ok : (p.offset % page_size == 0) ≡ true = (==_iff _ _).1 aligned in
    (rw (ok, e), rw (acquire_end, e))

-- A frame that is released goes back to the allocator just when the mapping was the last one (or
-- when the frame is none of the cache), and the cache has forgotten it then.
pub release_user_frame_lem :
    (s : System) (f : ℕ)
    → Inv s
    → ((release_user_frame s.cache f).0 ≡ leb (count f s.mapped) 1)
      × ((release_user_frame s.cache f).0 ≡ true
          → total (pages_in f) (release_user_frame s.cache f).1 ≡ 0)
unfolding release_user_frame release_shared_frame release_found frees
release_user_frame_lem s f v = looked_up (find_frame f s.cache) (find_frame-Find f s.cache)
  where
    Right : SharedFrameRelease × Cache → Type 0
    Right r =
        (frees r.0 ≡ leb (count f s.mapped) 1) × (frees r.0 ≡ true → total (pages_in f) r.1 ≡ 0)

    looked_up : (r : Option (ℕ × SharedPage)) → Find f s.cache r → Right (release_found s.cache r)
    looked_up _ (absent z) = (ground (arith, v.counted f, refs_in-absent f s.cache z), λ _. z)
    looked_up _ (found k p at e) =
        let mine : (p.frame == f) ≡ true = (==_iff p.frame f).1 e in
        if_intro Right (ltb 1 p.refs) _ _
          (λ h. (
            ground (arith, v.counted f, total-Holds (refs_in f) s.cache k p at, mine, h),
            λ b. absurd (false≢true b),
          ))
          (λ h. last_one k p at mine (ltb-false 1 p.refs h))
      where
        last_one :
            (k : ℕ) (p : SharedPage)
            → Holds s.cache k p
            → (p.frame == f) ≡ true
            → p.refs ≤ 1
            → Right (last p.inode p.offset p.write_len, swap_remove s.cache k)
        last_one k p at mine h =
            let gone : total (pages_in f) (swap_remove s.cache k) ≡ 0 =
              ground (arith, mine, v.frames f, total-swap_remove (pages_in f) s.cache k p at) in
            let none_left = refs_in-absent f (swap_remove s.cache k) gone in
            (
              ground (
                arith,
                v.counted f,
                total-swap_remove (refs_in f) s.cache k p at,
                none_left,
                mine,
                h,
              ),
              λ _. gone,
            )

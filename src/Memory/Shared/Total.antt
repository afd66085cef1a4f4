-- ===== src/Memory/Shared/Total.antt =====
-- Sums over the pages of the cache, and how the operations change them.
use felix.Prelude.{
  total, total-cons, Holds, here, there, ℕ, zero, suc, ◌+◌, ◌-◌, ◌≤◌, ◌≡◌, refl, ◌∙◌, min, Bool,
  true, false, Option, none, some, [], ◌∷◌, ◌==◌, if◌then◌else◌, set, ◌^◌, ==_iff, arith,
  Bool-cases, inl, inr,
}
use felix.Memory.Shared.{SharedPage, Cache, is_page, share, find_frame}

abbrev pub refs_in : ℕ → SharedPage → ℕ
refs_in f p = if p.frame == f then p.refs else 0

abbrev pub pages_in : ℕ → SharedPage → ℕ
pages_in f p = if p.frame == f then 1 else 0

abbrev pub pages_at : ℕ → ℕ → SharedPage → ℕ
pages_at i o p = if is_page i o p then 1 else 0

abbrev pub unused : SharedPage → ℕ
unused p = if p.refs == 0 then 1 else 0

skip : {b : Bool} {n : ℕ} → b ≡ false → n ≡ 0 → (if b then 1 else 0) + n ≡ 0
skip h z = ground (arith, h, z)

pub refs_in-absent : (f : ℕ) (xs : Cache) → total (pages_in f) xs ≡ 0 → total (refs_in f) xs ≡ 0
unfolding total
refs_in-absent f [] h = refl
refs_in-absent f (p ∷ ps) h = ground (arith, h, refs_in-absent f ps (ground (arith, h)))

pub pages_in-refs :
    (f : ℕ) (xs : Cache) → total unused xs ≡ 0 → total (pages_in f) xs ≤ total (refs_in f) xs
unfolding total
pages_in-refs f [] h = omega arith
pages_in-refs f (p ∷ ps) h = ground (arith, h, pages_in-refs f ps (ground (arith, h)))

-- What `share` finds and changes.
pub data Share (i o : ℕ) (xs : Cache) : Option (ℕ × Cache) → Type 0 where
  missed : total (pages_at i o) xs ≡ 0 → Share i o xs none
  shared :
      (k : ℕ) (p : SharedPage)
      → Holds xs k p
      → is_page i o p ≡ true
      → Share i o xs (some (p.frame, set xs k (record p { refs = min (p.refs + 1) (2 ^ 32 - 1) })))

pub share-Share : (i o : ℕ) (xs : Cache) → Share i o xs (share i o xs)
unfolding share
share-Share i o [] = missed (unfold total in refl)
share-Share i o (p ∷ ps) = elim (Bool-cases (is_page i o p)) [
  | inl h ↦ rw h (shared zero p here h)
  | inr h ↦ rw h (later (share i o ps) (share-Share i o ps) h)
]
  where
    later :
        (r : Option (ℕ × Cache))
        → Share i o ps r
        → is_page i o p ≡ false
        → Share i o
            (p ∷ ps)
            (elim r [ none ↦ none | some (frame, pages') ↦ some (frame, p ∷ pages') ])
    later _ (missed z) h = missed (total-cons (pages_at i o) p ps ∙ skip h z)
    later _ (shared k q at m) h = shared (suc k) q (there at) m

-- What `find_frame` finds.
pub data Find (f : ℕ) (xs : Cache) : Option (ℕ × SharedPage) → Type 0 where
  absent : total (pages_in f) xs ≡ 0 → Find f xs none
  found : (k : ℕ) (p : SharedPage) → Holds xs k p → p.frame ≡ f → Find f xs (some (k, p))

pub find_frame-Find : (f : ℕ) (xs : Cache) → Find f xs (find_frame f xs)
unfolding find_frame
find_frame-Find f [] = absent (unfold total in refl)
find_frame-Find f (p ∷ ps) = elim (Bool-cases (p.frame == f)) [
  | inl h ↦ rw h (found zero p here ((==_iff _ _).0 h))
  | inr h ↦ rw h (later (find_frame f ps) (find_frame-Find f ps) h)
]
  where
    later :
        (r : Option (ℕ × SharedPage))
        → Find f ps r
        → (p.frame == f) ≡ false
        → Find f (p ∷ ps) (elim r [ none ↦ none | some (i, q) ↦ some (suc i, q) ])
    later _ (absent z) h = absent (total-cons (pages_in f) p ps ∙ skip h z)
    later _ (found k q at m) h = found (suc k) q (there at) m

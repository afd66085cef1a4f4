-- ===== src/Memory/Phys/Scan.antt =====
-- The loop of `reserve_range` over the ranges.
use felix.Prelude.{
  ℕ, suc, ◌+◌, ◌^◌, ◌<◌, ◌≡◌, refl, ap, ◌∙◌, inl, inr, ◌⊎◌, Bool, true, false, ◌||◌, some, [], ◌∷◌,
  if◌then◌else◌, arith, Bool-cases, get_elem?,
}
use felix.Memory.Defs.{PhysRange, Result, ok, err, overlap}
use felix.Memory.Phys.{Ranges, range_end, meets, any_meets, scan, is_same}
use felix.Memory.Phys.Order.{Chain, Clear}

abbrev pub Inv : Ranges → Type 0
Inv rs = Chain 0 rs

range_end-ok : (r : PhysRange) → r.start + r.size < 2 ^ 64 → range_end r ≡ ok (r.start + r.size)
unfolding range_end
range_end-ok r h = ground arith

-- The reply to a clash with `r`: an exact repetition is accepted.
abbrev pub verdict : PhysRange → PhysRange → Result Bool
verdict requested r = if is_same r requested then ok true else err (overlap requested r)

scan_step :
    (requested : PhysRange) (end : ℕ) (x : PhysRange) (xs : Ranges)
    → x.start + x.size < 2 ^ 64
    → scan requested end (x ∷ xs) ≡ (
        if meets requested.start end x.start (x.start + x.size)
        then verdict requested x
        else scan requested end xs)
unfolding scan
scan_step requested end x xs h = rw (range_end-ok x h)

any_meets_step :
    (start end : ℕ) (x : PhysRange) (xs : Ranges)
    → x.start + x.size < 2 ^ 64
    → any_meets start end (x ∷ xs)
      ≡ (meets start end x.start (x.start + x.size) || any_meets start end xs)
unfolding any_meets
any_meets_step start end x xs h =
    ap (λ e. meets start end x.start e || any_meets start end xs) (omega arith)

-- Some range of the list meets the request, and decides the loop's result.
pub record Clash (requested : PhysRange) (end : ℕ) (rs : Ranges) : Type 0 where
  pub index : ℕ
  pub range : PhysRange
  pub there : get_elem? rs index ≡ some range
  pub touches : meets requested.start end range.start (range.start + range.size) ≡ true
  pub found : any_meets requested.start end rs ≡ true
  pub result : scan requested end rs ≡ verdict requested range

module _ (requested : PhysRange) (end : ℕ) where
  Clash-here :
      (lo : ℕ) (x : PhysRange) (xs : Ranges)
      → Chain lo (x ∷ xs)
      → meets requested.start end x.start (x.start + x.size) ≡ true
      → Clash requested end (x ∷ xs)
  Clash-here lo x xs c h = record {
    index = 0;
    range = x;
    there = refl;
    touches = h;
    found =
        any_meets_step requested.start end x xs (omega arith)
        ∙ ap (λ b. b || any_meets requested.start end xs) h;
    result = scan_step requested end x xs (omega arith) ∙ rw h;
  }

  Clash-later :
      (lo : ℕ) (x : PhysRange) (xs : Ranges)
      → Chain lo (x ∷ xs)
      → meets requested.start end x.start (x.start + x.size) ≡ false
      → Clash requested end xs
      → Clash requested end (x ∷ xs)
  Clash-later lo x xs c h k = record {
    index = suc k.index;
    range = k.range;
    there = k.there;
    touches = k.touches;
    found = any_meets_step requested.start end x xs (omega arith) ∙ rw h k.found;
    result = scan_step requested end x xs (omega arith) ∙ rw h k.result;
  }

  pub scan_cases :
      (lo : ℕ) (rs : Ranges)
      → Chain lo rs
      → (Clear requested.start end rs × (scan requested end rs ≡ ok false)) ⊎ Clash requested end rs
  unfolding scan any_meets
  scan_cases lo [] c = inl (refl, refl)
  scan_cases lo (x ∷ xs) c =
      elim (Bool-cases (meets requested.start end x.start (x.start + x.size))) [
        | inl here ↦ inr (Clash-here lo x xs c here)
        | inr past ↦ elim (scan_cases (x.start + x.size) xs c.3) [
          | inl (clear, done) ↦ inl (
            any_meets_step requested.start end x xs (omega arith) ∙ rw past clear,
            scan_step requested end x xs (omega arith) ∙ rw past done,
          )
          | inr k ↦ inr (Clash-later lo x xs c past k)
        ]
      ]

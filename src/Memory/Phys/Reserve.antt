-- ===== src/Memory/Phys/Reserve.antt =====
-- `reserve_range`, `release_range` and `is_free`: what they do to a table in order.
use felix.Prelude.{
  ℕ, ◌+◌, ◌^◌, ◌≤◌, ◌<◌, ◌≡◌, ◌≢◌, ◌↔◌, ap, subst, ◌∙◌, inl, inr, true, false, some, ltb, ◌==◌,
  if◌then◌else◌, arith, Bool-cases, length, get_elem?,
}
use Prim.Native.String.{String}
use felix.Memory.Defs.{
  PhysRange, ResourceKind, ResourceError, ok, err, overlap, overflow, zero_size,
}
use felix.Memory.Phys.{Ranges, meets, start_of, scan, is_same, reserve_range, is_free}
use felix.Memory.Order.{insert, length-insert}
use felix.Memory.Phys.Order.{Clear, insert-Chain, sort_snoc}
use felix.Memory.Phys.Scan.{Inv, Clash, scan_cases}

abbrev pub request : ℕ → ℕ → ResourceKind → String → PhysRange
request start size kind owner = record { start = start; size = size; kind = kind; owner = owner }

scan-Clear :
    (requested : PhysRange) (end : ℕ) (rs : Ranges)
    → Inv rs
    → Clear requested.start end rs
    → scan requested end rs ≡ ok false
scan-Clear requested end rs v f = elim (scan_cases requested end 0 rs v) [
  | inl (_, done) ↦ done
  | inr k ↦ absurd (ground (arith, k.found, f))
]

module _ (rs : Ranges) (start size : ℕ) (kind : ResourceKind) (owner : String) where
  abbrev asked : PhysRange
  asked = request start size kind owner

  reserve_zero : size ≡ 0 → reserve_range rs start size kind owner ≡ (err zero_size, rs)
  unfolding reserve_range
  reserve_zero h = ground arith

  reserve_overflow :
      size ≢ 0 → 2 ^ 64 ≤ start + size → reserve_range rs start size kind owner ≡ (err overflow, rs)
  unfolding reserve_range
  reserve_overflow h k = ground arith

  pub reserve-Clear :
      Inv rs
      → 0 < size
      → start + size < 2 ^ 64
      → Clear start (start + size) rs
      → reserve_range rs start size kind owner ≡ (ok tt, insert start_of asked rs)
  unfolding reserve_range
  reserve-Clear v p q f =
      ground (arith, scan-Clear asked (start + size) rs v f, sort_snoc asked p q 0 rs v f)

  pub reserve-Clash :
      0 < size
      → start + size < 2 ^ 64
      → (k : Clash asked (start + size) rs)
      → reserve_range rs start size kind owner
        ≡ ((if is_same k.range asked then ok tt else err (overlap asked k.range)), rs)
  unfolding reserve_range
  reserve-Clash p q k = ground (arith, k.result)

  -- From a table in order, `reserve_range` leaves one, whatever it is asked: the ranges are sorted,
  -- not empty, inside u64, and no two of them overlap.
  pub reserve-Inv : Inv rs → Inv (reserve_range rs start size kind owner).1
  reserve-Inv v = elim (Bool-cases (size == 0)) [
    | inl z ↦ rw (reserve_zero (ground arith)) v
    | inr nz ↦ elim (Bool-cases (ltb (start + size) (2 ^ 64))) [
      | inr over ↦ rw (reserve_overflow (ground arith) (ground arith)) v
      | inl fits ↦ elim (scan_cases asked (start + size) 0 rs v) [
        | inl (clear, _) ↦
            rw (reserve-Clear v (ground arith) (ground arith) clear)
              (insert-Chain asked (ground arith) (ground arith) 0 rs v (omega arith) clear)
        | inr k ↦ rw (reserve-Clash (ground arith) (ground arith) k) v
      ]
    ]
  ]

  pub is_free-Clear :
      is_free rs start size ≡ true
      → (0 < size) × (start + size < 2 ^ 64) × Clear start (start + size) rs
  unfolding is_free
  is_free-Clear h = (ground arith, ground arith, ground arith)

  Clear-is_free :
      0 < size
      → start + size < 2 ^ 64
      → Clear start (start + size) rs
      → is_free rs start size ≡ true
  unfolding is_free
  Clear-is_free p q f = ground arith

  -- Either the range is free and goes in, or the table stays as it is.
  pub data Outcome : Type 0 where
    added :
        is_free rs start size ≡ true
        → reserve_range rs start size kind owner ≡ (ok tt, insert start_of asked rs)
        → Outcome
    refused :
        (e : ResourceError)
        → ((a b : PhysRange) → e ≢ overlap a b)
        → reserve_range rs start size kind owner ≡ (err e, rs)
        → Outcome
    clashed : Clash asked (start + size) rs → 0 < size → start + size < 2 ^ 64 → Outcome

  reserve_cases : Inv rs → Outcome
  reserve_cases v = elim (Bool-cases (size == 0)) [
    | inl z ↦ refused zero_size (λ a b h. cc) (reserve_zero (ground arith))
    | inr nz ↦ elim (Bool-cases (ltb (start + size) (2 ^ 64))) [
      | inr over ↦ refused overflow (λ a b h. cc) (reserve_overflow (ground arith) (ground arith))
      | inl fits ↦ elim (scan_cases asked (start + size) 0 rs v) [
        | inl (clear, _) ↦
            added (Clear-is_free (ground arith) (ground arith) clear)
              (reserve-Clear v (ground arith) (ground arith) clear)
        | inr k ↦ clashed k (ground arith) (ground arith)
      ]
    ]
  ]

  -- `is_free` answers for a table in order exactly whether `reserve_range` would add the range.
  pub is_free_iff :
      Inv rs
      → (is_free rs start size ≡ true)
        ↔ (length (reserve_range rs start size kind owner).1 ≡ length rs + 1)
  is_free_iff v = (there, back)
    where
      there :
          is_free rs start size ≡ true
          → length (reserve_range rs start size kind owner).1 ≡ length rs + 1
      there h =
          let (p, q, f) = is_free-Clear h in
          rw (reserve-Clear v p q f) (length-insert start_of asked rs)

      back :
          length (reserve_range rs start size kind owner).1 ≡ length rs + 1
          → is_free rs start size ≡ true
      back h = elim (reserve_cases v) [
        | added f _ ↦ f
        | refused e _ same ↦ absurd (omega (arith, ap (λ r. length r.1) same))
        | clashed k p q ↦ absurd (omega (arith, ap (λ r. length r.1) (reserve-Clash p q k)))
      ]

  -- The range `b` of the table shares an address with the request `a`.
  pub record NamesClash (a b : PhysRange) : Type 0 where
    pub asked_for : a ≡ asked
    pub index : ℕ
    pub there : get_elem? rs index ≡ some b
    pub touches : meets start (start + size) b.start (b.start + b.size) ≡ true
    pub unchanged : (reserve_range rs start size kind owner).1 ≡ rs

  names_clash :
      (a b : PhysRange) (k : Clash asked (start + size) rs)
      → reserve_range rs start size kind owner
        ≡ ((if is_same k.range asked then ok tt else err (overlap asked k.range)), rs)
      → (reserve_range rs start size kind owner).0 ≡ err (overlap a b)
      → NamesClash a b
  names_clash a b k e h =
      let same : k.range ≡ b = ground (arith, ap (λ r. r.0) e, h) in
      record {
        asked_for = ground (arith, ap (λ r. r.0) e, h);
        index = k.index;
        there = k.there ∙ ap some same;
        touches =
            subst (λ r. meets start (start + size) r.start (r.start + r.size) ≡ true) same
              k.touches;
        unchanged = ap (λ r. r.1) e;
      }

  -- An `Overlap` error of a table in order names the request, and a range that stands in the table
  -- and shares an address with it; the table is unchanged.
  pub overlap-NamesClash :
      (a b : PhysRange)
      → Inv rs
      → (reserve_range rs start size kind owner).0 ≡ err (overlap a b)
      → NamesClash a b
  overlap-NamesClash a b v h = elim (reserve_cases v) [
    | added f e ↦ absurd (ground (arith, ap (λ r. r.0) e, h))
    | refused e' other e ↦ absurd (other a b (ground (arith, ap (λ r. r.0) e, h)))
    | clashed k p q ↦ names_clash a b k (reserve-Clash p q k) h
  ]

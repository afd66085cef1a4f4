-- ===== src/Memory/Phys/Release.antt =====
-- `release_range` after `reserve_range`.
use felix.Prelude.{ℕ, ◌+◌, ◌-◌, ◌^◌, ◌<◌, ◌≡◌, true, ◌&&◌, [], ◌∷◌, ◌==◌, if◌then◌else◌, arith}
use Prim.Native.String.{String}
use felix.Memory.Defs.{PhysRange, ResourceKind, ok}
use felix.Memory.Phys.{
  Ranges, any_meets, start_of, size_of, reserve_range, is_free, position, release_range,
}
use felix.Memory.Order
use felix.Memory.Order.{insert}
use felix.Memory.Phys.Order.{Chain, Clear}
use felix.Memory.Phys.Scan.{Inv}
use felix.Memory.Phys.Reserve.{request, reserve-Clear, is_free-Clear}

-- One range at a time: the first that matches goes, the rest stays.
release_step :
    (x : PhysRange) (xs : Ranges) (start size : ℕ)
    → release_range (x ∷ xs) start size ≡ (
        if (x.start == start) && (x.size == size)
        then (ok x, xs)
        else let (r, ys) = release_range xs start size in (r, x ∷ ys))
unfolding release_range position
release_step x xs start size = ground arith

release-Chain :
    (lo : ℕ) (rs : Ranges) (start size : ℕ) → Chain lo rs → Chain lo (release_range rs start size).1
unfolding release_range position
release-Chain lo [] start size c = tt
release-Chain lo (x ∷ xs) start size c = rw (release_step x xs start size) (
    ground (
      arith,
      Order.Chain-mono start_of size_of (2 ^ 64 - 1) lo (x.start + x.size) xs,
      release-Chain (x.start + x.size) xs start size c.3,
    ))

-- From a table in order, `release_range` leaves one.
pub release-Inv : (rs : Ranges) (start size : ℕ) → Inv rs → Inv (release_range rs start size).1
release-Inv rs start size v = release-Chain 0 rs start size v

release-insert :
    (lo : ℕ) (r : PhysRange) (rs : Ranges)
    → Chain lo rs
    → 0 < r.size
    → Clear r.start (r.start + r.size) rs
    → release_range (insert start_of r rs) r.start r.size ≡ (ok r, rs)
unfolding insert any_meets
release-insert lo r [] c p f = ground (arith, release_step r [] r.start r.size)
release-insert lo r (x ∷ xs) c p f = ground (
  arith,
  release_step r (x ∷ xs) r.start r.size,
  release_step x (insert start_of r xs) r.start r.size,
  release-insert (x.start + x.size) r xs c.3 p,
)

-- In a table in order, a free range that is reserved and then released is returned as it was
-- reserved, and leaves the table as it was.
pub release-reserve :
    (rs : Ranges) (start size : ℕ) (kind : ResourceKind) (owner : String)
    → Inv rs
    → is_free rs start size ≡ true
    → release_range (reserve_range rs start size kind owner).1 start size
      ≡ (ok (request start size kind owner), rs)
release-reserve rs start size kind owner v h =
    let (p, q, f) = is_free-Clear rs start size kind owner h in
    rw (reserve-Clear rs start size kind owner v p q f)
      (release-insert 0 (request start size kind owner) rs v p f)

-- ===== src/Sockets/Slots.antt =====
-- Ids and slots: as the kernel uses the table, the socket with an id stands one slot below it.
use felix.Prelude.{
  ℕ, zero, suc, ◌+◌, ◌≤◌, ◌<◌, ◌≡◌, refl, ap, ◌∙◌, true, false, Option, none, some, [], ◌∷◌, ◌++◌,
  ◌==◌, if◌then◌else◌, set, length, replicate, arith,
}
use felix.Sockets.{Socket, Slots, slot, find_id}

-- From slot `k` on, each socket has the id after its slot.
abbrev pub Placed : ℕ → Slots → Type 0
Placed k [] = Unit
Placed k (none ∷ ss) = Placed (suc k) ss
Placed k (some s ∷ ss) = (s.id ≡ suc k) × Placed (suc k) ss

pub find_id-low : (k id : ℕ) (ss : Slots) → Placed k ss → id ≤ k → find_id id ss ≡ none
unfolding find_id
find_id-low k id [] p h = refl
find_id-low k id (none ∷ ss) p h = find_id-low (suc k) id ss p (omega arith)
find_id-low k id (some s ∷ ss) p h =
    let other : (s.id == id) ≡ false = ground (arith, p.0) in
    rw other (find_id-low (suc k) id ss p.1 (omega arith))

-- The search for an id is the look into its slot.
pub find_id-slot :
    (k j id : ℕ) (ss : Slots) → Placed k ss → id ≡ suc (k + j) → find_id id ss ≡ slot ss j
unfolding find_id slot
find_id-slot k j id [] p h = refl
find_id-slot k zero id (none ∷ ss) p h = find_id-low (suc k) id ss p (omega arith)
find_id-slot k (suc j) id (none ∷ ss) p h = find_id-slot (suc k) j id ss p (omega arith)
find_id-slot k zero id (some s ∷ ss) p h =
    let same : (s.id == id) ≡ true = ground (arith, p.0) in rw same
find_id-slot k (suc j) id (some s ∷ ss) p h =
    let other : (s.id == id) ≡ false = ground (arith, p.0) in
    rw other (find_id-slot (suc k) j id ss p.1 (omega arith))

pub slot-set :
    (ss : Slots) (i j : ℕ) (v : Option Socket)
    → i < length ss
    → slot (set ss i v) j ≡ (if j == i then v else slot ss j)
unfolding slot
slot-set [] i j v h = absurd (omega arith)
slot-set (s ∷ ss) zero zero v h = refl
slot-set (s ∷ ss) zero (suc j) v h = rw (suc_ne_zero j)
  where
    suc_ne_zero : (j : ℕ) → (suc j == 0) ≡ false
    suc_ne_zero j = ground arith
slot-set (s ∷ ss) (suc i) zero v h = rw (zero_ne_suc i)
  where
    zero_ne_suc : (i : ℕ) → (0 == suc i) ≡ false
    zero_ne_suc i = ground arith
slot-set (s ∷ ss) (suc i) (suc j) v h =
    slot-set ss i j v (omega arith) ∙ ap (λ b. if b then v else slot ss j) (suc_both i j)
  where
    suc_both : (i j : ℕ) → (j == i) ≡ (suc j == suc i)
    suc_both i j = ground arith

pub slot-pad : (ss : Slots) (n j : ℕ) → slot (ss ++ replicate n none) j ≡ slot ss j
unfolding slot
slot-pad [] zero j = refl
slot-pad [] (suc n) zero = refl
slot-pad [] (suc n) (suc j) = slot-pad [] n j
slot-pad (s ∷ ss) n zero = refl
slot-pad (s ∷ ss) n (suc j) = slot-pad ss n j

pub Placed-pad : (k n : ℕ) (ss : Slots) → Placed k ss → Placed k (ss ++ replicate n none)
Placed-pad k zero [] p = tt
Placed-pad k (suc n) [] p = Placed-pad (suc k) n [] tt
Placed-pad k n (none ∷ ss) p = Placed-pad (suc k) n ss p
Placed-pad k n (some s ∷ ss) p = (p.0, Placed-pad (suc k) n ss p.1)

pub Placed-set :
    (k i : ℕ) (ss : Slots) (s : Socket)
    → Placed k ss
    → s.id ≡ suc (k + i)
    → Placed k (set ss i (some s))
Placed-set k i [] s p h = tt
Placed-set k zero (none ∷ ss) s p h = (omega arith, p)
Placed-set k zero (some r ∷ ss) s p h = (omega arith, p.1)
Placed-set k (suc i) (none ∷ ss) s p h = Placed-set (suc k) i ss s p (omega arith)
Placed-set k (suc i) (some r ∷ ss) s p h = (p.0, Placed-set (suc k) i ss s p.1 (omega arith))

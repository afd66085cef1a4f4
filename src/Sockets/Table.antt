-- ===== src/Sockets/Table.antt =====
-- The socket table as a map from ids to sockets.
use felix.Prelude.{
  ℕ, zero, suc, ◌+◌, ◌-◌, ◌≤◌, ◌<◌, ◌≡◌, refl, sym, ap, ◌∙◌, Bool, true, false, ◌&&◌, not, Option,
  none, some, [], ◌∷◌, ◌==◌, leb, if◌then◌else◌, if_intro, subst, set, length, replicate, is_some,
  arith, Bool-cases, inl, inr, ==_iff, length-append, length-replicate,
}
use felix.Sockets.{
  Socket, Slots, SocketTable, new_socket, slot, grow, insert_with_id, insert_at, find_id, get,
  free_id, free,
}
use felix.Sockets.Slots.{
  Placed, find_id-low, find_id-slot, slot-set, slot-pad, Placed-pad, Placed-set,
}

-- Ids begin with 1, and each socket stands in the slot below its id.
pub record Inv (t : SocketTable) : Type 0 where
  pub placed : Placed 0 t.sockets

length-grow : (ss : Slots) (id : ℕ) → id ≤ length (grow ss id)
unfolding grow
length-grow ss id =
    omega (arith, length-append ss (replicate (id - length ss) none), filled (id - length ss))
  where
    nothing : Option Socket
    nothing = none

    filled : (n : ℕ) → length (replicate n (nothing)) ≡ n
    filled n = length-replicate n nothing

get-slot : (t : SocketTable) (i : ℕ) → Inv t → get t (suc i) ≡ slot t.sockets i
unfolding get
get-slot t i v = find_id-slot 0 i (suc i) t.sockets v.placed (omega arith)

get-zero : (t : SocketTable) → Inv t → get t 0 ≡ none
unfolding get
get-zero t v = find_id-low 0 0 t.sockets v.placed (omega arith)

-- What `insert_with_id` promises: it succeeds just when the id is not 0 and free; then the id has
-- a new socket, and else nothing has changed.
abbrev pub Inserted : SocketTable → ℕ → Socket → Bool × SocketTable → Type 0
Inserted t id s r =
    (r.0 ≡ (not (id == 0) && not (is_some (get t id))))
    × ((k : ℕ) → get r.1 k ≡ (if r.0 && (k == id) then some s else get t k))
    × Inv r.1

-- The sockets that a table has after a change of its slots.
get-change :
    (t t' : SocketTable) (i : ℕ) (o : Option Socket) (b : Bool)
    → Inv t
    → Inv t'
    → ((j : ℕ) → slot t'.sockets j ≡ (if b && (j == i) then o else slot t.sockets j))
    → (k : ℕ) → get t' k ≡ (if b && (k == suc i) then o else get t k)
get-change t t' i o b v v' h zero = get-zero t' v' ∙ sym (zero_case b)
  where
    zero_case : (b : Bool) → (if b && (0 == suc i) then o else get t 0) ≡ none
    zero_case false = get-zero t v
    zero_case true = let n : (0 == suc i) ≡ false = ground arith in rw n (get-zero t v)
get-change t t' i o b v v' h (suc j) =
    get-slot t' j v'
    ∙ h j
    ∙ ap (λ c. if b && c then o else slot t.sockets j) (suc_both j i)
    ∙ ap (λ q. if b && (suc j == suc i) then o else q) (sym (get-slot t j v))
  where
    suc_both : (j i : ℕ) → (j == i) ≡ (suc j == suc i)
    suc_both j i = ground arith

insert_at-Inserted :
    (t : SocketTable) (i : ℕ) (s : Socket)
    → Inv t
    → s.id ≡ suc i
    → Inserted t (suc i) s (insert_at t i s)
unfolding insert_at grow
insert_at-Inserted t i s v e = elim (Bool-cases (is_some (slot grown i))) [
  | inl b ↦ rw b (
    rw (taken true b),
    get-change t (record t { sockets = grown }) i (some s) false v grown-Inv (λ j. same j),
    grown-Inv,
  )
  | inr b ↦ rw b (
    rw (taken false b),
    get-change t _ i (some s) true v set-Inv
        (λ j. slot-set grown i j (some s) room ∙ ap (λ o. if j == i then some s else o) (same j)),
    set-Inv,
  )
]
  where
    grown : Slots
    grown = grow t.sockets s.id

    same : (j : ℕ) → slot grown j ≡ slot t.sockets j
    same j = unfold grow in slot-pad t.sockets _ j

    taken :
        (c : Bool)
        → is_some (slot grown i) ≡ c
        → (not (suc i == 0) && not (is_some (get t (suc i)))) ≡ not c
    taken c h =
        let nz : (suc i == 0) ≡ false = ground arith in
        let held : is_some (get t (suc i)) ≡ c = ap is_some (get-slot t i v ∙ sym (same i)) ∙ h in
        rw (nz, held)

    room : i < length grown
    room = omega (arith, length-grow t.sockets s.id, e)

    grown-Inv : Inv (record t { sockets = grown })
    grown-Inv = record { placed = unfold grow in Placed-pad 0 _ t.sockets v.placed }

    set-Inv : Inv (record {
      sockets = set grown i (some s);
      next_id = if leb t.next_id s.id then s.id + 1 else t.next_id;
    })
    set-Inv = record { placed = Placed-set 0 i grown s grown-Inv.placed (omega (arith, e)) }

-- From an empty table on, with ids given by `insert_with_id` (as the kernel does, which never calls
-- `alloc`): the call succeeds just when the id is not 0 and has no socket; then `get` finds the new
-- socket under the id, and else every id has what it had.
pub insert_with_id-Inserted :
    (t : SocketTable) (id domain ty protocol owner : ℕ)
    → Inv t
    → Inserted t id
        (new_socket id domain ty protocol owner)
        (insert_with_id t id domain ty protocol owner)
unfolding insert_with_id
insert_with_id-Inserted t zero domain ty protocol owner v = (refl, (λ k. refl), v)
insert_with_id-Inserted t (suc i) domain ty protocol owner v =
    let nz : (suc i == 0) ≡ false = ground arith in
    let down : suc i - 1 ≡ i = omega arith in
    let s = new_socket (suc i) domain ty protocol owner in
    let same : insert_with_id t (suc i) domain ty protocol owner ≡ insert_at t i s =
      unfold insert_with_id in rw (nz, down) in
    subst (Inserted t (suc i) s) (sym same) (insert_at-Inserted t i s v refl)

Placed-free_id : (k id : ℕ) (ss : Slots) → Placed k ss → Placed k (free_id id ss)
unfolding free_id
Placed-free_id k id [] p = tt
Placed-free_id k id (none ∷ ss) p = Placed-free_id (suc k) id ss p
Placed-free_id k id (some s ∷ ss) p =
    if_intro (Placed k) (s.id == id) (none ∷ ss) (some s ∷ free_id id ss) (λ _. p.1)
      (λ _. (p.0, Placed-free_id (suc k) id ss p.1))

find_id-free_id : (k id : ℕ) (ss : Slots) → Placed k ss → find_id id (free_id id ss) ≡ none
unfolding free_id find_id
find_id-free_id k id [] p = refl
find_id-free_id k id (none ∷ ss) p = find_id-free_id (suc k) id ss p
find_id-free_id k id (some s ∷ ss) p = elim (Bool-cases (s.id == id)) [
  | inl h ↦
      let low : id ≤ suc k = ground (arith, h, p.0) in rw h (find_id-low (suc k) id ss p.1 low)
  | inr h ↦ rw h (rw h (find_id-free_id (suc k) id ss p.1))
]

find_id-free_other :
    (j id : ℕ) (ss : Slots) → (j == id) ≡ false → find_id j (free_id id ss) ≡ find_id j ss
unfolding free_id find_id
find_id-free_other j id [] n = refl
find_id-free_other j id (none ∷ ss) n = find_id-free_other j id ss n
find_id-free_other j id (some s ∷ ss) n = elim (Bool-cases (s.id == id)) [
  | inl h ↦ let other : (s.id == j) ≡ false = ground (arith, h, n) in rw h (rw other)
  | inr h ↦ rw h (ap (λ o. if s.id == j then some s else o) (find_id-free_other j id ss n))
]

-- `free` leaves its id without a socket, and every other id with the one it had.
pub free-get :
    (t : SocketTable) (id : ℕ)
    → Inv t
    → ((k : ℕ) → get (free t id) k ≡ (if k == id then none else get t k)) × Inv (free t id)
unfolding free get
free-get t id v = (
  λ k. elim (Bool-cases (k == id)) [
    | inl h ↦ rw h (
        ap (λ m. find_id m (free_id id t.sockets)) ((==_iff k id).0 h)
        ∙ find_id-free_id 0 id t.sockets v.placed)
    | inr h ↦ rw h (find_id-free_other k id t.sockets h)
  ],
  record { placed = Placed-free_id 0 id t.sockets v.placed },
)

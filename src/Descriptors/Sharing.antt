-- ===== src/Descriptors/Sharing.antt =====
-- Descriptors that share a description, and the offset behind them.
use felix.Prelude.{
  ℕ, ◌<◌, ◌≡◌, ◌≢◌, refl, sym, ap, ap₂, ◌∙◌, Bool, true, false, ◌||◌, Option, none, some, List,
  ◌==◌, leb, if◌then◌else◌, if_intro, set, get_or, length, is_some, get_or-set_self, get_or-set_ne,
  Bool-cases, inl, inr, arith, ==_iff, ==_self,
}
use mathlib.Core.Bool.{true≢false, false≢true}
use felix.Descriptors.Defs.{
  FileDescriptor, OpenFileDescription, FileDescriptorTable, max_fds, ofd_of, description, change,
  no_description, put, share, dup2, get, get_offset, set_offset,
}
use felix.Descriptors.Inv.{Inv, dup2-Inv, get_or-write}

-- The description behind a descriptor.
abbrev pub behind : FileDescriptorTable → ℕ → Option OpenFileDescription
behind t fd = elim (ofd_of t fd) [ none ↦ none | some id ↦ some (description t id) ]

abbrev pub same_slot : Option ℕ → Option ℕ → Bool
same_slot none o = false
same_slot (some a) none = false
same_slot (some a) (some b) = a == b

abbrev pub on_some :
    (OpenFileDescription → OpenFileDescription)
    → Option OpenFileDescription
    → Option OpenFileDescription
on_some f none = none
on_some f (some o) = some (f o)

-- A change through one descriptor is seen through exactly those that share its description.
pub behind-change :
    (t : FileDescriptorTable) (a b : ℕ) (f : OpenFileDescription → OpenFileDescription)
    → Inv t
    → behind (change t a f).1 b
      ≡ (if same_slot (ofd_of t a) (ofd_of t b) then on_some f (behind t b) else behind t b)
behind-change t a b f v = by_slots (ofd_of t a) (ofd_of t b) refl refl
  where
    changed : Option ℕ → FileDescriptorTable
    changed o =
        (elim o as (λ x. Bool × FileDescriptorTable) [
          | none ↦ (false, t)
          | some id ↦ (true, record t { store = set t.store id (f (description t id)) })
        ]).1

    at : FileDescriptorTable → Option ℕ → Option OpenFileDescription
    at u o = elim o [ none ↦ none | some id ↦ some (description u id) ]

    by_slots :
        (o p : Option ℕ)
        → ofd_of t a ≡ o
        → ofd_of t b ≡ p
        → behind (changed o) b ≡ (if same_slot o p then on_some f (at t p) else at t p)
    by_slots none p e q = ap (at t) q
    by_slots (some i) none e q = ap (at (changed (some i))) q
    by_slots (some i) (some j) e q = ap (at (changed (some i))) q ∙ elim (Bool-cases (i == j)) [
      | inl h ↦ rw h (
          ap some (
            ap (λ k. get_or (set t.store i (f (description t i))) k no_description)
              (sym ((==_iff i j).0 h))
            ∙ get_or-set_self t.store i (f (description t i)) no_description (v.known a i e)
            ∙ ap (λ k. f (description t k)) ((==_iff i j).0 h)))
      | inr h ↦ rw h (
          ap some (
            get_or-set_ne t.store i j (f (description t i)) no_description
              (λ k. true≢false (sym ((==_iff i j).1 k) ∙ h))))
    ]

-- A `dup2` that succeeds: the new descriptor has what the old one has, both have one description,
-- and all other descriptors and all descriptions are as they were.
pub record Duplicated (t u : FileDescriptorTable) (old new : ℕ) : Type 0 where
  pub opened : is_some (ofd_of t old) ≡ true
  pub descriptor : get u new ≡ get t old
  pub shared : ofd_of u new ≡ ofd_of t old
  pub kept : ofd_of u old ≡ ofd_of t old
  pub store : u.store ≡ t.store
  pub others : (k : ℕ) → k ≢ new → (get u k ≡ get t k) × (ofd_of u k ≡ ofd_of t k)

dup2-Duplicated :
    (t : FileDescriptorTable) (old new : ℕ)
    → Inv t
    → (dup2 t old new).0 ≡ true
    → Duplicated t (dup2 t old new).1 old new
dup2-Duplicated t old new v =
    if_intro (λ (r : Bool × FileDescriptorTable). r.0 ≡ true → Duplicated t r.1 old new)
      (leb (length t.fds) old || leb (length t.fds) new) (false, t)
      (share t old new (get t old) (ofd_of t old)) (λ h e. absurd (false≢true e))
      (λ h. by_slot (ground (arith, h, v.slots)) (get t old) (ofd_of t old) refl refl)
  where
    put_lem :
        new < max_fds
        → (d : FileDescriptor) (id : ℕ) → get t old ≡ some d
        → ofd_of t old ≡ some id
        → Duplicated t (put t new d id) old new
    put_lem low d id e q = record {
      opened = ap is_some q;
      descriptor = get_or-set_self t.fds new (some d) none (omega (arith, v.slots)) ∙ sym e;
      shared = get_or-set_self t.ofds new (some id) none (omega (arith, v.entries)) ∙ sym q;
      kept =
          get_or-write t.ofds new old (some id) (omega (arith, v.entries))
          ∙ if_intro (λ o. o ≡ ofd_of t old) (old == new) (some id) (ofd_of t old) (λ h. sym q)
              (λ h. refl);
      store = refl;
      others = λ k n. (
        get_or-set_ne t.fds new k (some d) none (λ h. n (sym h)),
        get_or-set_ne t.ofds new k (some id) none (λ h. n (sym h)),
      );
    }

    by_slot :
        new < max_fds
        → (d : Option FileDescriptor) (o : Option ℕ) → get t old ≡ d
        → ofd_of t old ≡ o
        → (share t old new d o).0 ≡ true
        → Duplicated t (share t old new d o).1 old new
    by_slot low none o e q h = absurd (false≢true h)
    by_slot low (some d) none e q h = absurd (false≢true h)
    by_slot low (some d) (some id) e q h =
        if_intro (λ u. Duplicated t u old new) (old == new) t (put t new d id)
          (λ k.
            let same = (==_iff old new).0 k in
            record {
              opened = ap is_some q;
              descriptor = ap (get t) (sym same);
              shared = ap (ofd_of t) (sym same);
              kept = refl;
              store = refl;
              others = λ k n. (refl, refl);
            })
          (λ k. put_lem low d id e q)

offset_of : Option OpenFileDescription → Option ℕ
offset_of none = none
offset_of (some o) = some o.offset

get_offset-behind : (t : FileDescriptorTable) (fd : ℕ) → get_offset t fd ≡ offset_of (behind t fd)
unfolding offset_of
get_offset-behind t fd = by_slot (ofd_of t fd)
  where
    by_slot :
        (o : Option ℕ)
        → (elim o as (λ x. Option ℕ) [ none ↦ none | some id ↦ some (description t id).offset ])
          ≡ offset_of (elim o as (λ x. Option OpenFileDescription) [
            | none ↦ none
            | some id ↦ some (description t id)
          ])
    by_slot none = refl
    by_slot (some id) = refl

behind-same :
    (t u : FileDescriptorTable) (a b : ℕ)
    → u.store ≡ t.store
    → ofd_of u a ≡ ofd_of t b
    → behind u a ≡ behind t b
behind-same t u a b s e =
    ap₂
      (λ (store : List OpenFileDescription) (o : Option ℕ).
        elim o as (λ x. Option OpenFileDescription) [
          | none ↦ none
          | some id ↦ some (get_or store id no_description)
        ])
      s e

same_slot_self : (o : Option ℕ) → is_some o ≡ true → same_slot o o ≡ true
same_slot_self none h = h
same_slot_self (some id) h = ==_self id

-- After `dup2`, a seek through the new descriptor is seen through it and through exactly those of
-- the other descriptors that share the old one's description, the old one included.
pub dup2-offset :
    (t : FileDescriptorTable) (old new offset k : ℕ)
    → Inv t
    → (dup2 t old new).0 ≡ true
    → get_offset (set_offset (dup2 t old new).1 new offset).1 k
      ≡ (if k == new || same_slot (ofd_of t old) (ofd_of t k) then some offset else get_offset t k)
dup2-offset t old new offset k v h =
    seek (dup2 t old new).1 (dup2-Inv t old new v) (dup2-Duplicated t old new v h)
  where
    move : OpenFileDescription → OpenFileDescription
    move o = record o { offset = offset }

    After : FileDescriptorTable → Type 0
    After u = get_offset (set_offset u new offset).1 k ≡ (
        if k == new || same_slot (ofd_of t old) (ofd_of t k) then some offset else get_offset t k)

    -- Whether the descriptor shares the description, its offset after the seek.
    seen :
        (u : FileDescriptorTable)
        → Inv u
        → get_offset (set_offset u new offset).1 k
          ≡ offset_of (
              if same_slot (ofd_of u new) (ofd_of u k)
              then on_some move (behind u k)
              else behind u k)
    seen u w =
        get_offset-behind (set_offset u new offset).1 k
        ∙ ap offset_of (behind-change u new k move w)

    moved :
        (u : FileDescriptorTable) (a o : Option ℕ)
        → same_slot a o ≡ true
        → offset_of (
            on_some move (elim o as (λ x. Option OpenFileDescription) [
              | none ↦ none
              | some id ↦ some (description u id)
            ]))
          ≡ some offset
    moved u none o e = absurd (false≢true e)
    moved u (some a) none e = absurd (false≢true e)
    moved u (some a) (some id) e = unfold offset_of in refl

    seek : (u : FileDescriptorTable) → Inv u → Duplicated t u old new → After u
    seek u w d = elim (Bool-cases (k == new)) [
      | inl e ↦
          let here = (==_iff k new).0 e in
          let both : same_slot (ofd_of u new) (ofd_of u k) ≡ true =
            ap (λ i. same_slot (ofd_of u new) (ofd_of u i)) here
            ∙ same_slot_self (ofd_of u new) (ap is_some d.shared ∙ d.opened) in
          seen u w ∙ rw both (rw e (moved u (ofd_of u new) (ofd_of u k) both))
      | inr e ↦
          let apart : k ≢ new = λ q. true≢false (sym ((==_iff k new).1 q) ∙ e) in
          let same : same_slot (ofd_of u new) (ofd_of u k) ≡ same_slot (ofd_of t old) (ofd_of t k) =
            ap₂ same_slot d.shared (d.others k apart).1 in
          elim (Bool-cases (same_slot (ofd_of t old) (ofd_of t k))) [
            | inl s ↦
                seen u w
                ∙ rw (same ∙ s) (rw e (rw s (moved u (ofd_of u new) (ofd_of u k) (same ∙ s))))
            | inr s ↦
                seen u w
                ∙ rw (same ∙ s) (
                    rw e (
                      rw s (
                        ap offset_of (behind-same t u k k d.store (d.others k apart).1)
                        ∙ sym (get_offset-behind t k))))
          ]
    ]

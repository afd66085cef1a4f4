-- ===== src/RamFs/Tree.antt =====
-- The tree: maps of names, and replacing a node.
use felix.Prelude.{
  ℕ, ◌≡◌, ◌≢◌, refl, sym, ap, ◌∙◌, Bool, true, false, ◌&&◌, ◌⊎◌, Option, none, some, List, [], ◌∷◌,
  ◌++◌, ◌==◌, if◌then◌else◌, ==_iff, ==_self, Bool-cases, Option-cases, inl, inr, subst,
}
use mathlib.Core.Option.{some-injective, none-ne-some}
use mathlib.Core.Bool.{false≢true}
use felix.RamFs.{
  Text, same_text, Node, file, directory, Entries, no_entries, entry, lookup, put, dir_at, without,
  Inodes, get_node, set_node, make_dirs, register,
}

pub same_text_self : (p : Text) → same_text p p ≡ true
unfolding same_text
same_text_self [] = refl
same_text_self (x ∷ p) = rw (==_self x) (same_text_self p)

pub same_text-eq : (p q : Text) → same_text p q ≡ true → p ≡ q
unfolding same_text
same_text-eq [] [] h = refl
same_text-eq [] (y ∷ q) h = absurd (false≢true h)
same_text-eq (x ∷ p) [] h = absurd (false≢true h)
same_text-eq (x ∷ p) (y ∷ q) h = elim (Bool-cases (x == y)) [
  | inl k ↦
      let e : x ≡ y = (==_iff x y).0 k in
      let t = same_text-eq p q (sym (ap (λ b. b && same_text p q) k) ∙ h) in λ i. e i ∷ t i
  | inr k ↦ absurd (false≢true (sym (ap (λ b. b && same_text p q) k) ∙ h))
]

pub lookup-put : (p : Text) (n : Node) (es : Entries) → lookup p (put p n es) ≡ some n
unfolding lookup put
lookup-put p n no_entries = rw (same_text_self p)
lookup-put p n (entry q m es) = elim (Bool-cases (same_text p q)) [
  | inl h ↦ rw h (unfold lookup in rw (same_text_self p))
  | inr h ↦ rw h (rw h (lookup-put p n es))
]

pub lookup-put_other :
    (p q : Text) (n : Node) (es : Entries)
    → same_text q p ≡ false
    → lookup q (put p n es) ≡ lookup q es
unfolding lookup put
lookup-put_other p q n no_entries d = rw d
lookup-put_other p q n (entry r m es) d = elim (Bool-cases (same_text p r)) [
  | inl h ↦
      let other = subst (λ t. same_text q t ≡ false) (same_text-eq p r h) d in
      rw h (rw other (rw d))
  | inr h ↦ rw h (ap (λ o. if same_text q r then some m else o) (lookup-put_other p q n es d))
]

pub lookup-without : (p : Text) (es : Entries) → lookup p (without p es) ≡ none
unfolding lookup without
lookup-without p no_entries = refl
lookup-without p (entry q m es) = elim (Bool-cases (same_text p q)) [
  | inl h ↦ rw h (lookup-without p es)
  | inr h ↦ rw h (rw h (lookup-without p es))
]

pub lookup-without_other :
    (p q : Text) (es : Entries) → same_text q p ≡ false → lookup q (without p es) ≡ lookup q es
unfolding lookup without
lookup-without_other p q no_entries d = refl
lookup-without_other p q (entry r m es) d = elim (Bool-cases (same_text p r)) [
  | inl h ↦
      let other = subst (λ t. same_text q t ≡ false) (same_text-eq p r h) d in
      rw h (rw other (lookup-without_other p q es d))
  | inr h ↦ rw h (ap (λ o. if same_text q r then some m else o) (lookup-without_other p q es d))
]

-- What is found below an entry.
abbrev pub below : Option Node → List Text → Option Node
below none ps = none
below (some n) ps = get_node n ps

pub get_node-below :
    (p : Text) (ps : List Text) (es : Entries)
    → get_node (directory es) (p ∷ ps) ≡ below (lookup p es) ps
unfolding get_node
get_node-below p ps es = elim (Option-cases (lookup p es)) [
  | inl h ↦ rw (get_node, h)
  | inr (n, h) ↦ rw (get_node, h)
]

pub get_node-nil : (n : Node) → get_node n [] ≡ some n
unfolding get_node
get_node-nil n = refl

-- Every file of the one tree is in the other, with the same contents.
abbrev pub Keeps : Node → Node → Type 0
Keeps m n =
    (ps : List Text) (d : List ℕ) → get_node m ps ≡ some (file d) → get_node n ps ≡ some (file d)

is_file : Option Node → Bool
is_file none = false
is_file (some (file d)) = true
is_file (some (directory es)) = false

pub directory≢file : (es : Entries) (d : List ℕ) → some (directory es) ≢ some (file d)
unfolding is_file
directory≢file es d h = false≢true (ap is_file h)

-- A directory in which one entry is replaced by a node that keeps its files.
pub Keeps-put :
    (p : Text) (n : Node) (es : Entries)
    → ((ps : List Text) (d : List ℕ)
        → below (lookup p es) ps ≡ some (file d)
        → get_node n ps ≡ some (file d))
    → Keeps (directory es) (directory (put p n es))
Keeps-put p n es k [] d h = absurd (directory≢file es d (sym (get_node-nil (directory es)) ∙ h))
Keeps-put p n es k (q ∷ qs) d h =
    get_node-below q qs (put p n es) ∙ elim (Bool-cases (same_text q p)) [
      | inl e ↦
          let same = same_text-eq q p e in
          ap (λ t. below (lookup t (put p n es)) qs) same
          ∙ ap (λ o. below o qs) (lookup-put p n es)
          ∙ k qs d (ap (λ t. below (lookup t es) qs) (sym same) ∙ sym (get_node-below q qs es) ∙ h)
      | inr e ↦
          ap (λ o. below o qs) (lookup-put_other p q n es e) ∙ sym (get_node-below q qs es) ∙ h
    ]

pub set_node-none :
    (p : Text) (ps : List Text) (es : Entries) (n : Node)
    → lookup p es ≡ none
    → set_node (directory es) (p ∷ ps) n ≡ directory es
unfolding set_node
set_node-none p ps es n h = rw (set_node, h)

pub set_node-some :
    (p : Text) (ps : List Text) (es : Entries) (c n : Node)
    → lookup p es ≡ some c
    → set_node (directory es) (p ∷ ps) n ≡ directory (put p (set_node c ps n) es)
unfolding set_node
set_node-some p ps es c n h = rw (set_node, h)

pub get_node-file : (d : List ℕ) (p : Text) (ps : List Text) → get_node (file d) (p ∷ ps) ≡ none
unfolding get_node
get_node-file d p ps = refl

-- Down one entry.
pub into :
    (p : Text) (ps : List Text) (es : Entries) (o r : Option Node)
    → lookup p es ≡ o
    → get_node (directory es) (p ∷ ps) ≡ r
    → below o ps ≡ r
into p ps es o r e h = sym (ap (λ q. below q ps) e) ∙ sym (get_node-below p ps es) ∙ h

pub Keeps-set_node :
    (ps : List Text) (root m n : Node)
    → get_node root ps ≡ some m
    → Keeps m n
    → Keeps root (set_node root ps n)
unfolding set_node
Keeps-set_node [] root m n h k =
    let same = some-injective root m (sym (get_node-nil root) ∙ h) in
    subst (λ r. Keeps r n) (sym same) k
Keeps-set_node (p ∷ ps) (file d) m n h k = λ qs d' e. e
Keeps-set_node (p ∷ ps) (directory es) m n h k = elim (Option-cases (lookup p es)) [
  | inl e ↦ subst (Keeps (directory es)) (sym (set_node-none p ps es n e)) (λ qs d g. g)
  | inr (c, e) ↦ subst (Keeps (directory es)) (sym (set_node-some p ps es c n e)) (
      Keeps-put p (set_node c ps n) es (λ qs d g.
        Keeps-set_node ps c m n (into p ps es (some c) (some m) e h) k qs d
          (sym (ap (λ o. below o qs) e) ∙ g)))
]

pub get_node-set_node :
    (ps : List Text) (root m n : Node)
    → get_node root ps ≡ some m
    → get_node (set_node root ps n) ps ≡ some n
unfolding set_node
get_node-set_node [] root m n h = get_node-nil n
get_node-set_node (p ∷ ps) (file d) m n h = absurd (none-ne-some m (sym (get_node-file d p ps) ∙ h))
get_node-set_node (p ∷ ps) (directory es) m n h = elim (Option-cases (lookup p es)) [
  | inl e ↦ absurd (none-ne-some m (into p ps es none (some m) e h))
  | inr (c, e) ↦
      ap (λ r. get_node r (p ∷ ps)) (set_node-some p ps es c n e)
      ∙ get_node-below p ps (put p (set_node c ps n) es)
      ∙ ap (λ o. below o ps) (lookup-put p (set_node c ps n) es)
      ∙ get_node-set_node ps c m n (into p ps es (some c) (some m) e h)
]

-- Through a node, to what stands below it.
pub get_node-append :
    (ps qs : List Text) (root m : Node)
    → get_node root ps ≡ some m
    → get_node root (ps ++ qs) ≡ get_node m qs
get_node-append [] qs root m h =
    ap (λ r. get_node r qs) (some-injective root m (sym (get_node-nil root) ∙ h))
get_node-append (p ∷ ps) qs (file d) m h = absurd (none-ne-some m (sym (get_node-file d p ps) ∙ h))
get_node-append (p ∷ ps) qs (directory es) m h = elim (Option-cases (lookup p es)) [
  | inl e ↦ absurd (none-ne-some m (into p ps es none (some m) e h))
  | inr (c, e) ↦
      get_node-below p (ps ++ qs) es
      ∙ ap (λ o. below o (ps ++ qs)) e
      ∙ get_node-append ps qs c m (into p ps es (some c) (some m) e h)
]

-- `ensure_dirs` makes directories, and keeps every file.
pub Keeps-make_dirs :
    (ps : List Text) (built : Text) (n : Node) (s : Inodes) → Keeps n (make_dirs built ps n s).1
unfolding make_dirs
Keeps-make_dirs [] built n s = λ qs d h. h
Keeps-make_dirs (p ∷ ps) built (file d) s = λ qs d' h. h
Keeps-make_dirs (p ∷ ps) built (directory es) s =
    Keeps-put p _ es
      (λ qs d g. Keeps-make_dirs ps (built ++ b'/' ∷ p) _ _ qs d (start (lookup p es) qs d g))
  where
    start :
        (o : Option Node) (qs : List Text) (d : List ℕ)
        → below o qs ≡ some (file d)
        → get_node (dir_at o (built ++ b'/' ∷ p) s).0 qs ≡ some (file d)
    start none qs d g = absurd (none-ne-some (file d) g)
    start (some c) qs d g = unfold dir_at in g

put-same : (p : Text) (n : Node) (es : Entries) → lookup p es ≡ some n → put p n es ≡ es
unfolding lookup put
put-same p n no_entries h = absurd (none-ne-some n h)
put-same p n (entry q m es) h = elim (Bool-cases (same_text p q)) [
  | inl e ↦
      let names = same_text-eq p q e in
      let nodes = some-injective n m (sym h ∙ ap (λ b. if b then some m else lookup p es) e) in
      rw e (λ i. entry (names i) (nodes i) es)
  | inr e ↦
      rw e
        (ap (entry q m) (put-same p n es (sym (ap (λ b. if b then some m else lookup p es) e) ∙ h)))
]

-- In an empty directory all is made.
make_dirs-fresh :
    (ps : List Text) (built : Text) (s : Inodes)
    → (let r = make_dirs built ps (directory no_entries) s in
        (r.0 ≡ true) × (get_node r.1 ps ≡ some (directory no_entries)))
unfolding make_dirs dir_at lookup
make_dirs-fresh [] built s = (refl, get_node-nil _)
make_dirs-fresh (p ∷ ps) built s =
    let path = built ++ b'/' ∷ p in
    let (ok, found) = make_dirs-fresh ps path (register path s) in
    (ok, get_node-below p ps _ ∙ ap (λ o. below o ps) (lookup-put p _ no_entries) ∙ found)

-- Either the tree was left alone, or all the directories are there now and the last is empty.
abbrev pub Made : List Text → Text → Node → Inodes → Type 0
Made ps built n s =
    let r = make_dirs built ps n s in
    (r.1 ≡ n) ⊎ ((r.0 ≡ true) × (get_node r.1 ps ≡ some (directory no_entries)))

Made-entry :
    (p : Text) (ps : List Text) (built : Text) (es : Entries) (s : Inodes) (o : Option Node)
    → lookup p es ≡ o
    → ((c : Node) → Made ps (built ++ b'/' ∷ p) c s)
    → (let next = dir_at o (built ++ b'/' ∷ p) s in
        let r = make_dirs (built ++ b'/' ∷ p) ps next.0 next.1 in
        (directory (put p r.1 es) ≡ directory es)
        ⊎ ((r.0 ≡ true)
            × (get_node (directory (put p r.1 es)) (p ∷ ps) ≡ some (directory no_entries))))
unfolding dir_at
Made-entry p ps built es s none e made =
    let (ok, found) = make_dirs-fresh ps (built ++ b'/' ∷ p) (register (built ++ b'/' ∷ p) s) in
    inr (ok, get_node-below p ps _ ∙ ap (λ o. below o ps) (lookup-put p _ es) ∙ found)
Made-entry p ps built es s (some c) e made = elim (made c) [
  | inl same ↦ inl (ap (λ m. directory (put p m es)) same ∙ ap directory (put-same p c es e))
  | inr (ok, found) ↦
      inr (ok, get_node-below p ps _ ∙ ap (λ o. below o ps) (lookup-put p _ es) ∙ found)
]

pub make_dirs-Made : (ps : List Text) (built : Text) (n : Node) (s : Inodes) → Made ps built n s
unfolding make_dirs
make_dirs-Made [] built n s = inl refl
make_dirs-Made (p ∷ ps) built (file d) s = inl refl
make_dirs-Made (p ∷ ps) built (directory es) s =
    Made-entry p ps built es s (lookup p es) refl (λ c. make_dirs-Made ps (built ++ b'/' ∷ p) c s)

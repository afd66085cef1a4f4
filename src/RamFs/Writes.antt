-- ===== src/RamFs/Writes.antt =====
-- `write_file` and `remove_file`: what they do to the files at each path.
use felix.Prelude.{
  ℕ, ◌≡◌, ◌≢◌, refl, sym, ap, ◌∙◌, Bool, true, false, Option, none, some, List, [], ◌∷◌, ◌++◌,
  append-nil, Bool-cases, Option-cases, inl, inr, subst,
}
use mathlib.Core.Option.{some-injective, none-ne-some}
use mathlib.Core.Bool.{false≢true}
use felix.RamFs.{
  Text, RamFs, is_nil, split_path, same_text, Node, file, directory, Entries, lookup, put, without,
  get_node, set_node, parent_and_name, read_file, write_file, remove_file, take_out,
}
use felix.RamFs.Tree.{
  below, get_node-set_node, get_node-append, get_node-below, get_node-nil, get_node-file, into,
  set_node-some, lookup-put, lookup-put_other, lookup-without, lookup-without_other, same_text-eq,
  directory≢file,
}
use felix.RamFs.Files.{contents, read_file-contents, read_to_node, node_to_read, path_parts}

-- Every file but the one at a path is in the other tree as well.
abbrev pub KeepsBut : List Text → Node → Node → Type 0
KeepsBut xs m n =
    (qs : List Text) (d : List ℕ)
    → qs ≢ xs
    → get_node m qs ≡ some (file d)
    → get_node n qs ≡ some (file d)

KeepsBut-put :
    (p : Text) (es : Entries) (c n : Node) (xs : List Text)
    → lookup p es ≡ some c
    → KeepsBut xs c n
    → KeepsBut (p ∷ xs) (directory es) (directory (put p n es))
KeepsBut-put p es c n xs e k [] d ne h =
    absurd (directory≢file es d (sym (get_node-nil (directory es)) ∙ h))
KeepsBut-put p es c n xs e k (q ∷ qs) d ne h =
    get_node-below q qs (put p n es) ∙ elim (Bool-cases (same_text q p)) [
      | inl b ↦
          let same = same_text-eq q p b in
          ap (λ t. below (lookup t (put p n es)) qs) same
          ∙ ap (λ o. below o qs) (lookup-put p n es)
          ∙ k qs d (λ same_qs. ne (λ i. same i ∷ same_qs i))
              (into p qs es (some c) (some (file d)) e
                (ap (λ t. get_node (directory es) (t ∷ qs)) (sym same) ∙ h))
      | inr b ↦
          ap (λ o. below o qs) (lookup-put_other p q n es b) ∙ sym (get_node-below q qs es) ∙ h
    ]

KeepsBut-set_node :
    (ps xs : List Text) (root m n : Node)
    → get_node root ps ≡ some m
    → KeepsBut xs m n
    → KeepsBut (ps ++ xs) root (set_node root ps n)
unfolding set_node
KeepsBut-set_node [] xs root m n h k =
    let same = some-injective root m (sym (get_node-nil root) ∙ h) in
    subst (λ r. KeepsBut xs r n) (sym same) k
KeepsBut-set_node (p ∷ ps) xs (file d) m n h k =
    absurd (none-ne-some m (sym (get_node-file d p ps) ∙ h))
KeepsBut-set_node (p ∷ ps) xs (directory es) m n h k = elim (Option-cases (lookup p es)) [
  | inl e ↦ absurd (none-ne-some m (into p ps es none (some m) e h))
  | inr (c, e) ↦
      subst (KeepsBut (p ∷ (ps ++ xs)) (directory es)) (sym (set_node-some p ps es c n e)) (
        KeepsBut-put p es c (set_node c ps n) (ps ++ xs) e
          (KeepsBut-set_node ps xs c m n (into p ps es (some c) (some m) e h) k))
]

KeepsBut-file : (old new : List ℕ) → KeepsBut [] (file old) (file new)
KeepsBut-file old new [] d ne h = absurd (ne refl)
KeepsBut-file old new (q ∷ qs) d ne h =
    absurd (none-ne-some (file d) (sym (get_node-file old q qs) ∙ h))

file-alone :
    (old : List ℕ) (qs : List Text) (d : List ℕ) → get_node (file old) qs ≡ some (file d) → qs ≡ []
file-alone old [] d h = refl
file-alone old (q ∷ qs) d h = absurd (none-ne-some (file d) (sym (get_node-file old q qs) ∙ h))

KeepsBut-without :
    (name : Text) (es : Entries) (old : List ℕ)
    → lookup name es ≡ some (file old)
    → KeepsBut (name ∷ []) (directory es) (directory (without name es))
KeepsBut-without name es old e [] d ne h =
    absurd (directory≢file es d (sym (get_node-nil (directory es)) ∙ h))
KeepsBut-without name es old e (q ∷ qs) d ne h = elim (Bool-cases (same_text q name)) [
  | inl b ↦
      let same = same_text-eq q name b in
      let here =
        into name qs es (some (file old)) (some (file d)) e
          (ap (λ t. get_node (directory es) (t ∷ qs)) (sym same) ∙ h) in
      let end = file-alone old qs d here in absurd (ne (λ i. same i ∷ end i))
  | inr b ↦
      get_node-below q qs (without name es)
      ∙ ap (λ o. below o qs) (lookup-without_other name q es b)
      ∙ sym (get_node-below q qs es)
      ∙ h
]

-- What a call leaves of the files at other paths.
abbrev pub KeepsOthers : Text → RamFs → RamFs → Type 0
KeepsOthers path fs fs' =
    (q : Text) (d : List ℕ)
    → split_path q ≢ split_path path
    → read_file fs q ≡ some d
    → read_file fs' q ≡ some d

-- When `write_file` succeeds, the file at the path has the new contents, and every file at another
-- path has the old ones.
pub write_file_lem :
    (fs : RamFs) (path : Text) (bytes : List ℕ)
    → (write_file fs path bytes).0 ≡ true
    → (read_file (write_file fs path bytes).1 path ≡ some bytes)
      × KeepsOthers path fs (write_file fs path bytes).1
unfolding write_file
write_file_lem fs path bytes = by_node (get_node fs.root (split_path path)) refl
  where
    Right : Bool × RamFs → Type 0
    Right r = r.0 ≡ true → (read_file r.1 path ≡ some bytes) × KeepsOthers path fs r.1

    by_node :
        (o : Option Node)
        → get_node fs.root (split_path path) ≡ o
        → Right (write_file fs path bytes)
    by_node none e = rw (write_file, e) (λ h. absurd (false≢true h))
    by_node (some (directory es)) e = rw (write_file, e) (λ h. absurd (false≢true h))
    by_node (some (file old)) e =
        rw (write_file, e)
          (λ _. (
            node_to_read _ path bytes (get_node-set_node (split_path path) fs.root _ _ e),
            λ q d ne h. node_to_read _ q d (
                KeepsBut-set_node (split_path path) [] fs.root (file old) (file bytes) e
                  (KeepsBut-file old bytes) (split_path q) d (λ same. ne (same ∙ append-nil _))
                  (read_to_node fs q d h)),
          ))

taken_out :
    (fs : RamFs) (path : Text) (es : Entries) (old : List ℕ)
    → is_nil (split_path path) ≡ false
    → get_node fs.root (split_path (parent_and_name path).0) ≡ some (directory es)
    → lookup (parent_and_name path).1 es ≡ some (file old)
    → (let r = take_out fs path (parent_and_name path).0 (parent_and_name path).1 es in
        (read_file r.1 path ≡ none) × KeepsOthers path fs r.1)
unfolding take_out
taken_out fs path es old named at e = (
  read_file-contents _ path
      ∙ ap contents (
          ap (get_node _) parts
          ∙ get_node-append before (name ∷ []) _ _ (get_node-set_node before fs.root _ _ at)
          ∙ get_node-below name [] (without name es)
          ∙ ap (λ o. below o []) (lookup-without name es))
      ∙ unfold contents in refl,
  λ q d ne h. node_to_read _ q d (
      KeepsBut-set_node before (name ∷ []) fs.root (directory es) (directory (without name es)) at
        (KeepsBut-without name es old e) (split_path q) d (λ same. ne (same ∙ sym parts))
        (read_to_node fs q d h)),
)
  where
    before : List Text
    before = split_path (parent_and_name path).0

    name : Text
    name = (parent_and_name path).1

    parts : split_path path ≡ before ++ name ∷ []
    parts = path_parts path named

-- When `remove_file` succeeds, there is no file at the path, and every file at another path has its
-- contents.
pub remove_file_lem :
    (fs : RamFs) (path : Text)
    → is_nil (split_path path) ≡ false
    → (remove_file fs path).0 ≡ true
    → (read_file (remove_file fs path).1 path ≡ none) × KeepsOthers path fs (remove_file fs path).1
unfolding remove_file
remove_file_lem fs path named = by_node (get_node fs.root (split_path parent)) refl
  where
    parent : Text
    parent = (parent_and_name path).0

    name : Text
    name = (parent_and_name path).1

    Right : Bool × RamFs → Type 0
    Right r = r.0 ≡ true → (read_file r.1 path ≡ none) × KeepsOthers path fs r.1

    by_node :
        (o : Option Node) → get_node fs.root (split_path parent) ≡ o → Right (remove_file fs path)
    by_node none e = rw (remove_file, e) (λ h. absurd (false≢true h))
    by_node (some (file d)) e = rw (remove_file, e) (λ h. absurd (false≢true h))
    by_node (some (directory es)) e = by_entry (lookup name es) refl
      where
        by_entry : (o : Option Node) → lookup name es ≡ o → Right (remove_file fs path)
        by_entry none k = rw (remove_file, e, k) (λ h. absurd (false≢true h))
        by_entry (some (directory sub)) k = rw (remove_file, e, k) (λ h. absurd (false≢true h))
        by_entry (some (file old)) k =
            rw (remove_file, e, k) (λ _. taken_out fs path es old named e k)

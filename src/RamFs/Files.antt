-- ===== src/RamFs/Files.antt =====
-- What the calls of the file system do to the files that can be read.
use felix.Prelude.{
  ℕ, ◌≡◌, ◌≢◌, refl, sym, ap, ◌∙◌, ◌⊎◌, Bool, true, false, ◌||◌, not, Option, none, some, List, [],
  ◌∷◌, ◌++◌, Option-cases, inl, inr, if_intro,
}
use mathlib.Core.Option.{some-injective, none-ne-some}
use mathlib.Core.Bool.{true≢false, false≢true}
use felix.RamFs.{
  Text, RamFs, is_nil, slash, split_path, same_text, Node, file, directory, Entries, no_entries,
  lookup, put, get_node, set_node, register, parent_and_name, last_part, ensure_dirs, add_node,
  create_node, create_file, read_file,
}
use felix.RamFs.Paths.{split_path-parent, parts_before-last_part}
use felix.RamFs.Tree.{
  below, Keeps, Keeps-put, Keeps-set_node, get_node-set_node, get_node-append, get_node-below,
  get_node-nil, Keeps-make_dirs, make_dirs-Made, lookup-put,
}

unfoldable pub contents : Option Node → Option (List ℕ)
contents none = none
contents (some (file d)) = some d
contents (some (directory es)) = none

pub read_file-contents :
    (fs : RamFs) (q : Text) → read_file fs q ≡ contents (get_node fs.root (split_path q))
unfolding read_file contents
read_file-contents fs q = by_node (get_node fs.root (split_path q))
  where
    by_node :
        (o : Option Node)
        → (elim o [ some (file d) ↦ some d | some (directory es) ↦ none | none ↦ none ])
          ≡ contents o
    by_node none = refl
    by_node (some (file d)) = refl
    by_node (some (directory es)) = refl

contents-file : (o : Option Node) (d : List ℕ) → contents o ≡ some d → o ≡ some (file d)
unfolding contents
contents-file none d h = absurd (none-ne-some d h)
contents-file (some (file e)) d h = ap (λ b. some (file b)) (some-injective e d h)
contents-file (some (directory es)) d h = absurd (none-ne-some d h)

pub read_to_node :
    (fs : RamFs) (q : Text) (d : List ℕ)
    → read_file fs q ≡ some d
    → get_node fs.root (split_path q) ≡ some (file d)
read_to_node fs q d h = contents-file _ d (sym (read_file-contents fs q) ∙ h)

pub node_to_read :
    (fs : RamFs) (q : Text) (d : List ℕ)
    → get_node fs.root (split_path q) ≡ some (file d)
    → read_file fs q ≡ some d
node_to_read fs q d h = read_file-contents fs q ∙ ap contents h ∙ unfold contents in refl

ensure_dirs-Keeps : (fs : RamFs) (path : Text) → Keeps fs.root (ensure_dirs fs path).1.root
unfolding ensure_dirs
ensure_dirs-Keeps fs path =
    if_intro (λ (r : Bool × RamFs). Keeps fs.root r.1.root) (same_text path slash) _ _
      (λ _ ps d h. h) (λ _. Keeps-make_dirs (split_path path) [] fs.root fs.inodes)

file-no_directory : (d : List ℕ) → some (file d) ≢ some (directory no_entries)
unfolding contents
file-no_directory d h = none-ne-some d (sym (ap contents h))

entries_of : Option Node → Entries
entries_of none = no_entries
entries_of (some (file d)) = no_entries
entries_of (some (directory es)) = es

has_entry :
    (name : Text) (m : Node) (es : Entries)
    → lookup name es ≡ some m
    → some (directory es) ≢ some (directory no_entries)
unfolding entries_of lookup
has_entry name m es k h = none-ne-some m (sym (ap (λ o. lookup name (entries_of o)) h) ∙ k)

-- The answers of `add_node`.
data Added (fs : RamFs) (path parent name : Text) (n : Node) : Bool × RamFs → Type 0 where
  refused :
      (get_node fs.root (split_path parent) ≢ some (directory no_entries))
      → Added fs path parent name n (false, fs)
  added :
      (es : Entries)
      → get_node fs.root (split_path parent) ≡ some (directory es)
      → lookup name es ≡ none
      → Added fs path parent name n (
        true,
        record {
          root = set_node fs.root (split_path parent) (directory (put name n es));
          inodes = register path fs.inodes;
        },
      )

add_node-Added :
    (fs : RamFs) (path parent name : Text) (n : Node)
    → Added fs path parent name n (add_node fs path parent name n)
unfolding add_node
add_node-Added fs path parent name n = by_node (get_node fs.root (split_path parent)) refl
  where
    by_node :
        (o : Option Node)
        → get_node fs.root (split_path parent) ≡ o
        → Added fs path parent name n (add_node fs path parent name n)
    by_node none e = rw (add_node, e) (refused (λ f. none-ne-some _ (sym e ∙ f)))
    by_node (some (file d)) e = rw (add_node, e) (refused (λ f. file-no_directory d (sym e ∙ f)))
    by_node (some (directory es)) e = elim (Option-cases (lookup name es)) [
      | inl k ↦ rw (add_node, e, k) (added es e k)
      | inr (m, k) ↦ rw (add_node, e, k) (refused (λ f. has_entry name m es k (sym e ∙ f)))
    ]

create_node-Keeps :
    (fs : RamFs) (path : Text) (n : Node) → Keeps fs.root (create_node fs path n).1.root
unfolding create_node
create_node-Keeps fs path n =
    if_intro KeepsAll (same_text path slash || is_nil path) _ _ (λ _ ps d h. h)
      (λ _.
        if_intro KeepsAll (not made.0) _ _ (λ _. keeps)
          (λ _. added_keeps _ (add_node-Added made.1 path parent name n)))
  where
    parent : Text
    parent = (parent_and_name path).0

    name : Text
    name = (parent_and_name path).1

    made : Bool × RamFs
    made = ensure_dirs fs parent

    KeepsAll : Bool × RamFs → Type 0
    KeepsAll r = Keeps fs.root r.1.root

    keeps : Keeps fs.root made.1.root
    keeps = ensure_dirs-Keeps fs parent

    added_keeps : (r : Bool × RamFs) → Added made.1 path parent name n r → KeepsAll r
    added_keeps _ (refused h) = keeps
    added_keeps _ (added es at free) = λ ps d h.
        Keeps-set_node (split_path parent) made.1.root (directory es) _ at
          (Keeps-put name n es
            (λ qs d g. absurd (none-ne-some (file d) (sym (ap (λ o. below o qs) free) ∙ g))))
          ps d (keeps ps d h)

-- No file is lost or overwritten by `create_file` or `mkdir`: whatever could be read before reads
-- the same thereafter, whether the call succeeds or not.
pub create_node-read_file :
    (fs : RamFs) (path q : Text) (n : Node) (d : List ℕ)
    → read_file fs q ≡ some d
    → read_file (create_node fs path n).1 q ≡ some d
create_node-read_file fs path q n d h =
    node_to_read _ q d (create_node-Keeps fs path n _ d (read_to_node fs q d h))

-- The parts of a path are those of its parent and its name.
pub path_parts :
    (path : Text)
    → is_nil (split_path path) ≡ false
    → split_path path ≡ split_path (parent_and_name path).0 ++ (parent_and_name path).1 ∷ []
path_parts path h =
    sym (parts_before-last_part (split_path path) h)
    ∙ ap (λ ps. ps ++ last_part (split_path path) ∷ []) (sym (split_path-parent path))
    ∙ unfold parent_and_name in refl

-- A node that is put into the directory at a path is found below it.
pub found_in :
    (ps : List Text) (root : Node) (name : Text) (n : Node) (es : Entries)
    → get_node root ps ≡ some (directory es)
    → get_node (set_node root ps (directory (put name n es))) (ps ++ name ∷ []) ≡ some n
found_in ps root name n es at =
    get_node-append ps (name ∷ []) _ _ (get_node-set_node ps root _ _ at)
    ∙ get_node-below name [] (put name n es)
    ∙ ap (λ o. below o []) (lookup-put name n es)
    ∙ get_node-nil n

create_node-found :
    (fs : RamFs) (path : Text) (n : Node)
    → is_nil (split_path path) ≡ false
    → (create_node fs path n).0 ≡ true
    → get_node (create_node fs path n).1.root (split_path path) ≡ some n
unfolding create_node
create_node-found fs path n h =
    if_intro Found (same_text path slash || is_nil path) _ _ (λ _ k. absurd (false≢true k))
      (λ _.
        if_intro Found (not made.0) _ _ (λ _ k. absurd (false≢true k))
          (λ _. added_found _ (add_node-Added made.1 path parent name n)))
  where
    parent : Text
    parent = (parent_and_name path).0

    name : Text
    name = (parent_and_name path).1

    made : Bool × RamFs
    made = ensure_dirs fs parent

    Found : Bool × RamFs → Type 0
    Found r = r.0 ≡ true → get_node r.1.root (split_path path) ≡ some n

    added_found : (r : Bool × RamFs) → Added made.1 path parent name n r → Found r
    added_found _ (refused k) = λ e. absurd (false≢true e)
    added_found _ (added es at free) = λ _.
        ap (get_node _) (path_parts path h) ∙ found_in (split_path parent) made.1.root name n es at

-- A file that `create_file` reports as created reads as it was written. The path must have a name
-- in it: for "//" the call makes an entry that no path leads to.
pub create_file-read_file :
    (fs : RamFs) (path : Text) (bytes : List ℕ)
    → is_nil (split_path path) ≡ false
    → (create_file fs path bytes).0 ≡ true
    → read_file (create_file fs path bytes).1 path ≡ some bytes
unfolding create_file
create_file-read_file fs path bytes h k =
    node_to_read _ path bytes (create_node-found fs path (file bytes) h k)

ensure_dirs-Made :
    (fs : RamFs) (path : Text)
    → (let r = ensure_dirs fs path in
        (r.1.root ≡ fs.root)
        ⊎ ((r.0 ≡ true) × (get_node r.1.root (split_path path) ≡ some (directory no_entries))))
unfolding ensure_dirs
ensure_dirs-Made fs path =
    if_intro MadeAll (same_text path slash) _ _ (λ _. inl refl)
      (λ _. make_dirs-Made (split_path path) [] fs.root fs.inodes)
  where
    MadeAll : Bool × RamFs → Type 0
    MadeAll r =
        (r.1.root ≡ fs.root)
        ⊎ ((r.0 ≡ true) × (get_node r.1.root (split_path path) ≡ some (directory no_entries)))

-- Where `create_file` or `mkdir` fails, the tree is as it was: the parents that they make on the
-- way are not left behind.
pub create_node-failed :
    (fs : RamFs) (path : Text) (n : Node)
    → (create_node fs path n).0 ≡ false
    → (create_node fs path n).1.root ≡ fs.root
unfolding create_node
create_node-failed fs path n =
    if_intro Kept (same_text path slash || is_nil path) _ _ (λ _ _. refl)
      (λ _.
        if_intro Kept (not made.0) _ _
          (λ b _. elim (ensure_dirs-Made fs parent) [
            | inl same ↦ same
            | inr (ok, f) ↦ absurd (false≢true (sym (ap not ok) ∙ b))
          ])
          (λ _. kept _ (add_node-Added made.1 path parent name n)))
  where
    parent : Text
    parent = (parent_and_name path).0

    name : Text
    name = (parent_and_name path).1

    made : Bool × RamFs
    made = ensure_dirs fs parent

    Kept : Bool × RamFs → Type 0
    Kept r = r.0 ≡ false → r.1.root ≡ fs.root

    kept : (r : Bool × RamFs) → Added made.1 path parent name n r → Kept r
    kept _ (refused h) =
        λ _. elim (ensure_dirs-Made fs parent) [ inl same ↦ same | inr (ok, f) ↦ absurd (h f) ]
    kept _ (added es at free) = λ e. absurd (true≢false e)

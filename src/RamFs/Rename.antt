-- ===== src/RamFs/Rename.antt =====
-- kernel/src/drivers/ramfs.rs, `rename`.
use felix.Prelude.{
  ℕ, ◌≡◌, refl, sym, ap, ◌∙◌, Bool, true, false, ◌&&◌, ◌||◌, not, Option, none, some, List, [], ◌∷◌,
  ◌++◌, ltb, leb, if◌then◌else◌, if_intro, drop, length, is_some,
}
use mathlib.Core.Option.{some-injective, none-ne-some}
use mathlib.Core.Bool.{true≢false, false≢true}
use felix.RamFs.{
  Text, RamFs, slash, is_nil, Node, file, directory, lookup, put, without, split_path, same_text,
  get_node, set_node, starts_with, trim_end, parent_and_name, last_part,
}
use felix.RamFs.Tree.{below, get_node-append, get_node-below, get_node-nil}
use felix.RamFs.Files.{path_parts, found_in}

-- Where a string of bytes may be cut: at its end, or before a byte that continues no character.
unfoldable pub starts_character : Text → Bool
starts_character [] = true
starts_character (c ∷ cs) = ltb c 0x80 || leb 0xc0 c

-- `&path[n..]`; `none` is a panic.
unfoldable pub suffix : Text → ℕ → Option Text
suffix path n =
    if leb n (length path) && starts_character (drop n path) then some (drop n path) else none

-- The last of the replacements that `rename` pushes for the paths of an inode.
unfoldable pub last_update : Text → Text → Option Text → List Text → Option (Option Text)
last_update old new found [] = some found
last_update old new found (p ∷ ps) =
    let rest = last_update old new found ps in
    if same_text p old || starts_with (trim_end old ++ slash) p
    then elim (suffix p (length old)) [
      | none ↦ none
      | some tail ↦ last_update old new (some (new ++ tail)) ps
    ]
    else rest

-- They all go to the first path, so that the last one stays.
unfoldable pub set_first : Option Text → List Text → List Text
set_first none ps = ps
set_first (some path) [] = []
set_first (some path) (p ∷ ps) = path ∷ ps

unfoldable pub rename_paths : Text → Text → List (ℕ × List Text) → Option (List (ℕ × List Text))
rename_paths old new [] = some []
rename_paths old new ((i, ps) ∷ rest) = elim (last_update old new none ps) [
  | none ↦ none
  | some found ↦ elim (rename_paths old new rest) [
    | none ↦ none
    | some renamed ↦ some ((i, set_first found ps) ∷ renamed)
  ]
]

-- The second half of `rename`: the node has left its parent, and the new parent is looked up. The
-- node is lost where that fails.
unfoldable pub attach : RamFs → Text → Text → Node → Option Node → Option (Bool × RamFs)
attach fs old new n none = some (false, fs)
attach fs old new n (some (file bytes)) = some (false, fs)
attach fs old new n (some (directory es)) =
    if is_some (lookup (parent_and_name new).1 es)
    then some (false, fs)
    else elim (rename_paths old new fs.inodes.paths) [
      | none ↦ none
      | some paths ↦ some (
        true,
        record {
          root =
              set_node fs.root (split_path (parent_and_name new).0)
                (directory (put (parent_and_name new).1 n es));
          inodes = record (fs.inodes) { paths = paths };
        },
      )
    ]

-- The first half, with the old parent.
unfoldable pub detach : RamFs → Text → Text → Option Node → Option (Bool × RamFs)
detach fs old new none = some (false, fs)
detach fs old new (some (file bytes)) = some (false, fs)
detach fs old new (some (directory es)) = elim (lookup (parent_and_name old).1 es) [
  | none ↦ some (false, fs)
  | some n ↦
      let root =
        set_node fs.root (split_path (parent_and_name old).0)
          (directory (without (parent_and_name old).1 es)) in
      attach (record fs { root = root }) old new n
        (get_node root (split_path (parent_and_name new).0))
]

abbrev pub is_directory : Option Node → Bool
is_directory none = false
is_directory (some (file bytes)) = false
is_directory (some (directory es)) = true

unfoldable pub rename : RamFs → Text → Text → Option (Bool × RamFs)
rename fs old new =
    if same_text old slash
      || same_text new slash
      || same_text old new
      || is_some (get_node fs.root (split_path new))
    then some (false, fs)
    else if is_nil (parent_and_name old).1 || is_nil (parent_and_name new).1
    then some (false, fs)
    else if not (is_directory (get_node fs.root (split_path (parent_and_name new).0)))
    then some (false, fs)
    else detach fs old new (get_node fs.root (split_path (parent_and_name old).0))

named : (path : Text) → is_nil (parent_and_name path).1 ≡ false → is_nil (split_path path) ≡ false
unfolding parent_and_name last_part
named path h = by_parts (split_path path) h
  where
    by_parts : (ps : List Text) → is_nil (last_part ps) ≡ false → is_nil ps ≡ false
    by_parts [] k = absurd (true≢false k)
    by_parts (p ∷ ps) k = refl

-- What success means.
abbrev Moved : Text → Node → Option (Bool × RamFs) → Type 0
Moved new n r = (fs' : RamFs) → r ≡ some (true, fs') → get_node fs'.root (split_path new) ≡ some n

not-Moved : (new : Text) (n : Node) (fs : RamFs) → Moved new n (some (false, fs))
not-Moved new n fs fs' e = absurd (false≢true (ap (λ r. r.0) (some-injective _ _ e)))

attach-Moved :
    (fs : RamFs) (old new : Text) (n : Node) (o : Option Node)
    → is_nil (split_path new) ≡ false
    → get_node fs.root (split_path (parent_and_name new).0) ≡ o
    → Moved new n (attach fs old new n o)
unfolding attach
attach-Moved fs old new n none h e = not-Moved new n fs
attach-Moved fs old new n (some (file bytes)) h e = not-Moved new n fs
attach-Moved fs old new n (some (directory es)) h e =
    if_intro (Moved new n) (is_some (lookup (parent_and_name new).1 es)) _ _
      (λ _. not-Moved new n fs) (λ _. by_paths (rename_paths old new fs.inodes.paths))
  where
    by_paths :
        (p : Option (List (ℕ × List Text)))
        → Moved new n (elim p [
          | none ↦ none
          | some paths ↦ some (
            true,
            record {
              root =
                  set_node fs.root
                    (split_path (parent_and_name new).0)
                    (directory (put (parent_and_name new).1 n es));
              inodes = record (fs.inodes) { paths = paths };
            },
          )
        ])
    by_paths none fs' k = absurd (none-ne-some _ k)
    by_paths (some paths) fs' k =
        let same = ap (λ (r : Bool × RamFs). r.1.root) (some-injective _ _ k) in
        ap (λ root. get_node root (split_path new)) (sym same)
        ∙ ap (get_node _) (path_parts new h)
        ∙ found_in (split_path (parent_and_name new).0) fs.root (parent_and_name new).1 n es e

abbrev FromTo : RamFs → Text → Text → Option (Bool × RamFs) → Type 0
FromTo fs old new r =
    (fs' : RamFs)
    → r ≡ some (true, fs')
    → (n : Node) × (get_node fs.root (split_path old) ≡ some n)
      × (get_node fs'.root (split_path new) ≡ some n)

not-FromTo : (fs : RamFs) (old new : Text) → FromTo fs old new (some (false, fs))
not-FromTo fs old new fs' e = absurd (false≢true (ap (λ r. r.0) (some-injective _ _ e)))

detach-FromTo :
    (fs : RamFs) (old new : Text) (o : Option Node)
    → is_nil (split_path old) ≡ false
    → is_nil (split_path new) ≡ false
    → get_node fs.root (split_path (parent_and_name old).0) ≡ o
    → FromTo fs old new (detach fs old new o)
unfolding detach
detach-FromTo fs old new none h k e = not-FromTo fs old new
detach-FromTo fs old new (some (file bytes)) h k e = not-FromTo fs old new
detach-FromTo fs old new (some (directory es)) h k e =
    by_entry (lookup (parent_and_name old).1 es) refl
  where
    name : Text
    name = (parent_and_name old).1

    at_old : (n : Node) → lookup name es ≡ some n → get_node fs.root (split_path old) ≡ some n
    at_old n l =
        ap (get_node fs.root) (path_parts old h)
        ∙ get_node-append (split_path (parent_and_name old).0) (name ∷ []) _ _ e
        ∙ get_node-below name [] es
        ∙ ap (λ o. below o []) l
        ∙ get_node-nil n

    by_entry :
        (o : Option Node)
        → lookup name es ≡ o
        → FromTo fs old new (elim o [
          | none ↦ some (false, fs)
          | some n ↦
              let root =
                set_node fs.root
                  (split_path (parent_and_name old).0)
                  (directory (without (parent_and_name old).1 es)) in
              attach
                (record fs { root = root })
                old
                new
                n
                (get_node root (split_path (parent_and_name new).0))
        ])
    by_entry none l fs' r = not-FromTo fs old new fs' r
    by_entry (some n) l fs' r = (n, at_old n l, attach-Moved _ old new n _ k refl fs' r)

neither : (a b : Bool) → (a || b) ≡ false → (a ≡ false) × (b ≡ false)
neither false b h = (refl, h)
neither true b h = absurd (true≢false h)

rename-FromTo : (fs : RamFs) (old new : Text) → FromTo fs old new (rename fs old new)
unfolding rename
rename-FromTo fs old new =
    if_intro (FromTo fs old new) out_of_place _ _ (λ _. not-FromTo fs old new)
      (λ _.
        if_intro (FromTo fs old new) unnamed _ _ (λ _. not-FromTo fs old new)
          (λ b.
            if_intro (FromTo fs old new) homeless _ _ (λ _. not-FromTo fs old new)
              (λ _.
                detach-FromTo fs old new _ (named old (neither _ _ b).0)
                  (named new (neither _ _ b).1) refl)))
  where
    out_of_place : Bool
    out_of_place =
        same_text old slash
        || same_text new slash
        || same_text old new
        || is_some (get_node fs.root (split_path new))

    homeless : Bool
    homeless = not (is_directory (get_node fs.root (split_path (parent_and_name new).0)))

    unnamed : Bool
    unnamed = is_nil (parent_and_name old).1 || is_nil (parent_and_name new).1

-- When `rename` succeeds, what was at the old path, with all that stood below it, is at the new
-- path.
pub rename_lem :
    (fs fs' : RamFs) (old new : Text) (qs : List Text)
    → rename fs old new ≡ some (true, fs')
    → get_node fs'.root (split_path new ++ qs) ≡ get_node fs.root (split_path old ++ qs)
rename_lem fs fs' old new qs e =
    let (n, from, to) = rename-FromTo fs old new fs' e in
    get_node-append (split_path new) qs fs'.root n to
    ∙ sym (get_node-append (split_path old) qs fs.root n from)

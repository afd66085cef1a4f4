-- ===== src/RamFs.antt =====
-- kernel/src/drivers/ramfs.rs: the file system in memory, a tree of nodes and a map from inodes to
-- paths. A directory's BTreeMap and the inode map are association lists with one entry for a key;
-- what only their order shows, the listing of a directory, is not modelled. Paths and names are
-- lists of bytes.
pub mod Inode
pub mod Paths
pub mod Tree
pub mod Files
pub mod Writes
pub mod Rename
mod Tests
use felix.Prelude.{
  ℕ, zero, suc, ◌+◌, ◌%◌, ◌^◌, Bool, true, false, ◌&&◌, ◌||◌, not, Option, none, some, List, [],
  ◌∷◌, ◌++◌, ◌==◌, if◌then◌else◌,
}

abbrev pub Text : Type 0
Text = List ℕ

pub same_text : Text → Text → Bool
same_text [] [] = true
same_text [] (y ∷ ys) = false
same_text (x ∷ xs) [] = false
same_text (x ∷ xs) (y ∷ ys) = (x == y) && same_text xs ys

mutual
  pub data Node : Type 0 where
    file : List ℕ → Node
    directory : Entries → Node

  pub data Entries : Type 0 where
    no_entries : Entries
    entry : Text → Node → Entries → Entries

-- `BTreeMap::get`, `insert` and `remove`.
pub lookup : Text → Entries → Option Node
lookup p no_entries = none
lookup p (entry q n es) = if same_text p q then some n else lookup p es

pub put : Text → Node → Entries → Entries
put p m no_entries = entry p m no_entries
put p m (entry q n es) = if same_text p q then entry p m es else entry q n (put p m es)

pub without : Text → Entries → Entries
without p no_entries = no_entries
without p (entry q n es) = if same_text p q then without p es else entry q n (without p es)

-- `inode_counter` and `inode_map`.
pub record Inodes : Type 0 where
  pub counter : ℕ
  pub paths : List (ℕ × List Text)

pub record RamFs : Type 0 where
  pub root : Node
  pub inodes : Inodes

pub insert_inode : ℕ → Text → List (ℕ × List Text) → List (ℕ × List Text)
insert_inode inode path [] = (inode, path ∷ []) ∷ []
insert_inode inode path ((i, ps) ∷ rest) =
    if i == inode then (inode, path ∷ []) ∷ rest else (i, ps) ∷ insert_inode inode path rest

-- `allocate_inode` and `register_inode`.
pub register : Text → Inodes → Inodes
register path s = record {
  counter = (s.counter + 1) % 2 ^ 32;
  paths = insert_inode s.counter path s.paths;
}

abbrev pub slash : Text
slash = b'/' ∷ []

pub new : RamFs
new = record {
  root = directory no_entries;
  inodes = record { counter = 2; paths = (1, slash ∷ []) ∷ [] };
}

abbrev pub is_nil {ℓ} : {A : Type ℓ} → List A → Bool
is_nil [] = true
is_nil (x ∷ xs) = false

-- `path.split('/')` without the empty parts, with the part being read.
pub split_from : Text → Text → List Text
split_from cur [] = if is_nil cur then [] else cur ∷ []
split_from cur (c ∷ cs) =
    let rest = split_from [] cs in
    let more = split_from (cur ++ c ∷ []) cs in
    if c == b'/' then (if is_nil cur then rest else cur ∷ rest) else more

pub split_path : Text → List Text
split_path path = split_from [] path

-- `get_node`, on the parts of the path.
pub get_node : Node → List Text → Option Node
get_node n [] = some n
get_node (file bytes) (p ∷ ps) = none
get_node (directory es) (p ∷ ps) = elim (lookup p es) [ none ↦ none | some n ↦ get_node n ps ]

-- An assignment through `get_node_mut`, where there is a node.
pub set_node : Node → List Text → Node → Node
set_node n [] m = m
set_node (file bytes) (p ∷ ps) m = file bytes
set_node (directory es) (p ∷ ps) m = elim (lookup p es) [
  | none ↦ directory es
  | some n ↦ directory (put p (set_node n ps m) es)
]

-- "/a/b" for the parts "a" and "b".
pub join_path : List Text → Text
join_path [] = []
join_path (p ∷ ps) = b'/' ∷ (p ++ join_path ps)

pub parts_before : List Text → List Text
parts_before [] = []
parts_before (p ∷ []) = []
parts_before (p ∷ q ∷ ps) = p ∷ parts_before (q ∷ ps)

pub last_part : List Text → Text
last_part [] = []
last_part (p ∷ []) = p
last_part (p ∷ q ∷ ps) = last_part (q ∷ ps)

pub parent_and_name : Text → Text × Text
parent_and_name path =
    let before = parts_before (split_path path) in
    (if is_nil before then slash else join_path before, last_part (split_path path))

-- The entry that `ensure_dirs` descends into: the one there is, or a directory that it makes.
pub dir_at : Option Node → Text → Inodes → Node × Inodes
dir_at (some n) path s = (n, s)
dir_at none path s = (directory no_entries, register path s)

-- The loop of `ensure_dirs`, with the path built so far.
pub make_dirs : Text → List Text → Node → Inodes → Bool × Node × Inodes
make_dirs built [] n s = (true, n, s)
make_dirs built (p ∷ ps) (file bytes) s = (false, file bytes, s)
make_dirs built (p ∷ ps) (directory es) s =
    let path = built ++ b'/' ∷ p in
    let next = dir_at (lookup p es) path s in
    let r = make_dirs path ps next.0 next.1 in (r.0, directory (put p r.1 es), r.2)

pub ensure_dirs : RamFs → Text → Bool × RamFs
ensure_dirs fs path =
    if same_text path slash
    then (true, fs)
    else (let r = make_dirs [] (split_path path) fs.root fs.inodes in
        (r.0, record { root = r.1; inodes = r.2 }))

pub read_file : RamFs → Text → Option (List ℕ)
read_file fs path = elim (get_node fs.root (split_path path)) [
  | some (file bytes) ↦ some bytes
  | some (directory es) ↦ none
  | none ↦ none
]

pub write_file : RamFs → Text → List ℕ → Bool × RamFs
write_file fs path bytes = elim (get_node fs.root (split_path path)) [
  | some (file old) ↦ (true, record fs { root = set_node fs.root (split_path path) (file bytes) })
  | some (directory es) ↦ (false, fs)
  | none ↦ (false, fs)
]

-- The part after `ensure_dirs` that `create_file` and `mkdir` share.
pub add_node : RamFs → Text → Text → Text → Node → Bool × RamFs
add_node fs path parent name n = elim (get_node fs.root (split_path parent)) [
  | some (directory es) ↦ elim (lookup name es) [
    | some old ↦ (false, fs)
    | none ↦ (
      true,
      record {
        root = set_node fs.root (split_path parent) (directory (put name n es));
        inodes = register path fs.inodes;
      },
    )
  ]
  | some (file bytes) ↦ (false, fs)
  | none ↦ (false, fs)
]

pub create_node : RamFs → Text → Node → Bool × RamFs
create_node fs path n =
    let parent = (parent_and_name path).0 in
    let name = (parent_and_name path).1 in
    let made = ensure_dirs fs parent in
    if same_text path slash || is_nil path
    then (false, fs)
    else if not made.0
    then (false, made.1)
    else add_node made.1 path parent name n

pub create_file : RamFs → Text → List ℕ → Bool × RamFs
create_file fs path bytes = create_node fs path (file bytes)

pub mkdir : RamFs → Text → Bool × RamFs
mkdir fs path = create_node fs path (directory no_entries)

-- `str::starts_with`.
pub starts_with : Text → Text → Bool
starts_with [] path = true
starts_with (c ∷ prefix) [] = false
starts_with (c ∷ prefix) (d ∷ path) = (c == d) && starts_with prefix path

-- `trim_end_matches('/')`.
pub trim_end : Text → Text
trim_end [] = []
trim_end (c ∷ cs) = let rest = trim_end cs in if is_nil rest && (c == b'/') then [] else c ∷ rest

-- The paths of an inode that are neither the one removed nor below it.
pub retain_paths : Text → List Text → List Text
retain_paths path [] = []
retain_paths path (p ∷ ps) =
    if same_text p path || starts_with (trim_end path ++ slash) p
    then retain_paths path ps
    else p ∷ retain_paths path ps

pub unregister_prefix : Text → List (ℕ × List Text) → List (ℕ × List Text)
unregister_prefix path [] = []
unregister_prefix path ((i, ps) ∷ rest) =
    let kept = unregister_prefix path rest in
    let left = retain_paths path ps in if is_nil left then kept else (i, left) ∷ kept

-- The part of `remove_file` and `rmdir` after their tests.
pub take_out : RamFs → Text → Text → Text → Entries → Bool × RamFs
take_out fs path parent name es = (
  true,
  record {
    root = set_node fs.root (split_path parent) (directory (without name es));
    inodes = record (fs.inodes) { paths = unregister_prefix path fs.inodes.paths };
  },
)

pub remove_file : RamFs → Text → Bool × RamFs
remove_file fs path =
    let parent = (parent_and_name path).0 in
    let name = (parent_and_name path).1 in
    elim (get_node fs.root (split_path parent)) [
      | some (directory es) ↦ elim (lookup name es) [
        | some (file bytes) ↦ take_out fs path parent name es
        | some (directory sub) ↦ (false, fs)
        | none ↦ (false, fs)
      ]
      | some (file bytes) ↦ (false, fs)
      | none ↦ (false, fs)
    ]

pub rmdir : RamFs → Text → Bool × RamFs
rmdir fs path =
    let parent = (parent_and_name path).0 in
    let name = (parent_and_name path).1 in
    elim (get_node fs.root (split_path parent)) [
      | some (directory es) ↦ elim (lookup name es) [
        | some (directory no_entries) ↦ take_out fs path parent name es
        | some (directory (entry q n sub)) ↦ (false, fs)
        | some (file bytes) ↦ (false, fs)
        | none ↦ (false, fs)
      ]
      | some (file bytes) ↦ (false, fs)
      | none ↦ (false, fs)
    ]

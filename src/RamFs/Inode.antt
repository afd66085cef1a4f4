-- ===== src/RamFs/Inode.antt =====
-- kernel/src/drivers/ramfs.rs: the calls that go by inode: finding its path, and reading and writing
-- at an offset.
use felix.Prelude.{
  ℕ, zero, ◌/◌, ◌+◌, ◌-◌, ◌%◌, ◌^◌, ◌≤◌, ◌<◌, ◌≡◌, refl, sym, ap, ◌∙◌, min, Bool, false, ◌||◌,
  Option, none, some, List, [], ◌∷◌, ◌++◌, ◌==◌, ltb, leb, if◌then◌else◌, if_intro, take, drop,
  length, replicate, length-append, length-replicate, length-take, arith,
}
use felix.RamFs.{
  Node, Text, RamFs, slash, is_nil, file, directory, split_path, same_text, get_node, set_node,
}
use felix.RamFs.Tree.{get_node-set_node}

pub has_path : Text → List Text → Bool
has_path path [] = false
has_path path (p ∷ ps) = same_text p path || has_path path ps

pub find_path : Text → List (ℕ × List Text) → Option ℕ
find_path path [] = none
find_path path ((i, ps) ∷ rest) = if has_path path ps then some i else find_path path rest

pub inode_for_path : RamFs → Text → Option ℕ
inode_for_path fs path = find_path (if is_nil path then slash else path) fs.inodes.paths

unfoldable pub find_inode : ℕ → List (ℕ × List Text) → Option Text
find_inode inode [] = none
find_inode inode ((i, []) ∷ rest) = if i == inode then none else find_inode inode rest
find_inode inode ((i, p ∷ ps) ∷ rest) = if i == inode then some p else find_inode inode rest

unfoldable pub path_for_inode : RamFs → ℕ → Option Text
path_for_inode fs inode = find_inode inode fs.inodes.paths

pub resolve_path : RamFs → Text → Option ℕ
resolve_path fs path = elim (get_node fs.root (split_path path)) [
  | none ↦ none
  | some n ↦ inode_for_path fs (if is_nil path then slash else path)
]

-- The file that an inode stands for, with its path.
pub file_at : RamFs → ℕ → Option (Text × List ℕ)
file_at fs inode = elim (path_for_inode fs inode) [
  | none ↦ none
  | some path ↦ elim (get_node fs.root (split_path path)) [
    | some (file bytes) ↦ some (path, bytes)
    | some (directory es) ↦ none
    | none ↦ none
  ]
]

-- `offset as usize`.
abbrev pub as_usize : ℕ → ℕ
as_usize n = n % 2 ^ 32

-- What `read_at` copies into a buffer of `count` bytes.
pub read_at : RamFs → ℕ → ℕ → ℕ → List ℕ
read_at fs inode offset count = elim (file_at fs inode) [
  | none ↦ []
  | some (path, bytes) ↦
      if leb (length bytes) (as_usize offset)
      then []
      else take (min count (length bytes - as_usize offset)) (drop (as_usize offset) bytes)
]

-- `data.resize(end, 0)` where the file is shorter, and the bytes in their place.
pub splice : List ℕ → ℕ → List ℕ → List ℕ
splice bytes offset buf =
    let padded =
      if ltb (length bytes) (offset + length buf)
      then bytes ++ replicate (offset + length buf - length bytes) 0
      else bytes in
    take offset padded ++ (buf ++ drop (offset + length buf) padded)

pub write_at : RamFs → ℕ → ℕ → List ℕ → ℕ × RamFs
write_at fs inode offset buf = elim (file_at fs inode) [
  | none ↦ (0, fs)
  | some (path, bytes) ↦ if ltb (2 ^ 32 - 1) (as_usize offset + length buf) then (0, fs) else (
    length buf,
    record fs {
      root = set_node fs.root (split_path path) (file (splice bytes (as_usize offset) buf));
    },
  )
]

-- kernel/src/filesystem/vfs.rs, `Metadata`.
pub record Metadata : Type 0 where
  pub inode : ℕ
  pub mode : ℕ
  pub nlink : ℕ
  pub uid : ℕ
  pub gid : ℕ
  pub rdev : ℕ
  pub size : ℕ
  pub blksize : ℕ
  pub blocks : ℕ
  pub atime : ℕ
  pub mtime : ℕ
  pub ctime : ℕ

-- The fields that a RAM file system knows; the others have their defaults.
abbrev pub metadata_of : ℕ → ℕ → ℕ → ℕ → Metadata
metadata_of inode mode size nlink = record {
  inode = inode;
  mode = mode;
  nlink = nlink;
  uid = 0;
  gid = 0;
  rdev = 0;
  size = size;
  blksize = 4096;
  blocks = (size + 511) / 512;
  atime = 0;
  mtime = 0;
  ctime = 0;
}

pub node_metadata : ℕ → Node → Metadata
node_metadata inode (file bytes) = metadata_of inode 0o100666 (length bytes) 1
node_metadata inode (directory es) = metadata_of inode 0o040755 0 2

pub metadata : RamFs → Text → Option Metadata
metadata fs path = elim (get_node fs.root (split_path path)) [
  | none ↦ none
  | some n ↦ elim (inode_for_path fs (if is_nil path then slash else path)) [
    | none ↦ none
    | some inode ↦ some (node_metadata inode n)
  ]
]

pub metadata_inode : RamFs → ℕ → Option Metadata
metadata_inode fs inode = elim (path_for_inode fs inode) [
  | none ↦ none
  | some path ↦ elim (metadata fs path) [
    | none ↦ none
    | some meta ↦ some (record meta { inode = inode })
  ]
]

take-append_exact : (xs ys : List ℕ) → take (length xs) (xs ++ ys) ≡ xs
take-append_exact [] ys = refl
take-append_exact (x ∷ xs) ys = ap (λ t. x ∷ t) (take-append_exact xs ys)

drop-append_exact : (xs ys : List ℕ) → drop (length xs) (xs ++ ys) ≡ ys
drop-append_exact [] ys = refl
drop-append_exact (x ∷ xs) ys = drop-append_exact xs ys

-- The bytes written are found at their offset, and the file reaches at least to their end.
splice_lem :
    (bytes : List ℕ) (offset : ℕ) (buf : List ℕ)
    → (take (length buf) (drop offset (splice bytes offset buf)) ≡ buf)
      × (offset + length buf ≤ length (splice bytes offset buf))
unfolding splice
splice_lem bytes offset buf =
    if_intro Right (ltb (length bytes) (offset + length buf)) _ _
      (λ h. placed _ (
        omega (
          arith,
          length-append bytes (replicate (offset + length buf - length bytes) 0),
          zeros (offset + length buf - length bytes),
        )))
      (λ h. placed bytes (ground (arith, h)))
  where
    zeros : (n : ℕ) → length (replicate n (zero)) ≡ n
    zeros n = length-replicate n (zero)

    Right : List ℕ → Type 0
    Right padded =
        (take (length buf)
            (drop offset (take offset padded ++ (buf ++ drop (offset + length buf) padded)))
          ≡ buf)
        × (offset + length buf
            ≤ length (take offset padded ++ (buf ++ drop (offset + length buf) padded)))

    placed : (padded : List ℕ) → offset + length buf ≤ length padded → Right padded
    placed padded h =
        let front : length (take offset padded) ≡ offset =
          omega (arith, length-take offset padded) in
        let rest = drop (offset + length buf) padded in
        (
          ap (λ n. take (length buf) (drop n (take offset padded ++ (buf ++ rest)))) (sym front)
              ∙ ap (take (length buf)) (drop-append_exact (take offset padded) (buf ++ rest))
              ∙ take-append_exact buf rest,
          omega (
            arith,
            front,
            length-append (take offset padded) (buf ++ rest),
            length-append buf rest,
          ),
        )

read_placed :
    (bytes : List ℕ) (offset : ℕ) (buf : List ℕ)
    → take (length buf) (drop offset bytes) ≡ buf
    → offset + length buf ≤ length bytes
    → (if leb (length bytes) offset
        then []
        else take (min (length buf) (length bytes - offset)) (drop offset bytes))
      ≡ buf
read_placed bytes offset [] t h =
    let none_left : min 0 (length bytes - offset) ≡ 0 = omega arith in
    if_intro (λ r. r ≡ []) (leb (length bytes) offset) _ _ (λ _. refl)
      (λ _. ap (λ n. take n (drop offset bytes)) none_left)
read_placed bytes offset (c ∷ buf) t h =
    let long : leb (length bytes) offset ≡ false = ground arith in
    let all : min (length (c ∷ buf)) (length bytes - offset) ≡ length (c ∷ buf) = omega arith in
    rw long (ap (λ n. take n (drop offset bytes)) all ∙ t)

file_at-found :
    (fs : RamFs) (inode : ℕ) (path : Text) (bytes : List ℕ)
    → path_for_inode fs inode ≡ some path
    → get_node fs.root (split_path path) ≡ some (file bytes)
    → file_at fs inode ≡ some (path, bytes)
unfolding file_at
file_at-found fs inode path bytes p g = rw (file_at, p, g)

-- Where an inode stands for a file and the end of the write fits a `usize`, all bytes are written,
-- and a read of as many at the same offset returns them.
pub write_at-read_at :
    (fs : RamFs) (inode offset : ℕ) (buf : List ℕ) (path : Text) (bytes : List ℕ)
    → path_for_inode fs inode ≡ some path
    → get_node fs.root (split_path path) ≡ some (file bytes)
    → as_usize offset + length buf < 2 ^ 32
    → ((write_at fs inode offset buf).0 ≡ length buf)
      × (read_at (write_at fs inode offset buf).1 inode offset (length buf) ≡ buf)
unfolding write_at read_at path_for_inode
write_at-read_at fs inode offset buf path bytes p g h =
    let found = file_at-found fs inode path bytes p g in
    let fits : ltb (2 ^ 32 - 1) (as_usize offset + length buf) ≡ false = ground arith in
    let placed = splice_lem bytes (as_usize offset) buf in
    let again =
      file_at-found (written bytes) inode path (splice bytes (as_usize offset) buf) p
        (get_node-set_node (split_path path) fs.root (file bytes) _ g) in
    (
      rw (write_at, found, fits),
      rw (write_at, found, fits)
          (rw (read_at, again)
            (read_placed (splice bytes (as_usize offset) buf) (as_usize offset) buf placed.0
              placed.1)),
    )
  where
    written : List ℕ → RamFs
    written bs = record fs {
      root = set_node fs.root (split_path path) (file (splice bs (as_usize offset) buf));
    }

-- ===== src/Descriptors/Defs.antt =====
-- The types and the operations. An `Arc` is the index of its open file description in a store that
-- only grows; its strong count is the number of slots and of holders outside the table with the index.
use felix.Prelude.{
  ℕ, zero, suc, ◌+◌, ◌-◌, ◌*◌, ◌/◌, ◌%◌, ◌^◌, Bool, true, false, ◌||◌, Option, none, some, List, [],
  ◌∷◌, ◌++◌, ◌==◌, leb, if◌then◌else◌, set, get_or, length, replicate, is_some, min,
}

pub data FileMode : Type 0 where
  read_only write_only read_write : FileMode

pub data PipeEnd : Type 0 where
  read_end write_end : PipeEnd

pub data PtySide : Type 0 where
  master slave : PtySide

pub data DeviceKind : Type 0 where
  block_device char_device : DeviceKind

-- A directory has the 96 bytes of its path, their length in use and a cookie.
pub data FileDescriptor : Type 0 where
  console_in : FileDescriptor
  console_out : FileDescriptor
  file : (inode offset : ℕ) → FileMode → FileDescriptor
  socket : (socket_id : ℕ) → FileDescriptor
  pipe : (pipe_id : ℕ) → PipeEnd → FileDescriptor
  pty : (pty_id : ℕ) → PtySide → FileDescriptor
  device : (inode offset : ℕ) → FileMode → DeviceKind → FileDescriptor
  dir : List ℕ → (path_len cookie : ℕ) → FileDescriptor

abbrev pub new_file : ℕ → FileMode → FileDescriptor
new_file inode mode = file inode 0 mode

abbrev pub initial_offset : FileDescriptor → ℕ
initial_offset console_in = 0
initial_offset console_out = 0
initial_offset (file inode offset mode) = offset
initial_offset (socket id) = 0
initial_offset (pipe id end) = 0
initial_offset (pty id side) = 0
initial_offset (device inode offset mode kind) = offset
initial_offset (dir path path_len cookie) = 0

abbrev pub initial_cookie : FileDescriptor → ℕ
initial_cookie console_in = 0
initial_cookie console_out = 0
initial_cookie (file inode offset mode) = 0
initial_cookie (socket id) = 0
initial_cookie (pipe id end) = 0
initial_cookie (pty id side) = 0
initial_cookie (device inode offset mode kind) = 0
initial_cookie (dir path path_len cookie) = cookie

-- O_APPEND is bit 10 and O_NONBLOCK is bit 11; the mask keeps these two.
abbrev pub status_bits : ℕ → ℕ
status_bits flags = flags / 1024 % 4 * 1024

pub record OpenFileDescription : Type 0 where
  pub offset : ℕ
  pub dir_cookie : ℕ
  pub status_flags : ℕ

abbrev pub from_descriptor : FileDescriptor → OpenFileDescription
from_descriptor d = record {
  offset = initial_offset d;
  dir_cookie = initial_cookie d;
  status_flags = 0;
}

pub record ClosedFileDescriptor : Type 0 where
  pub desc : FileDescriptor
  pub last_open_ref : Bool

-- The table, the store of descriptions, and the `Arc`s that are held elsewhere.
pub record FileDescriptorTable : Type 0 where
  pub fds : List (Option FileDescriptor)
  pub ofds : List (Option ℕ)
  pub store : List OpenFileDescription
  pub outside : List ℕ

abbrev pub max_fds : ℕ
max_fds = 64

abbrev pub new_table : List OpenFileDescription → List ℕ → FileDescriptorTable
new_table store outside = record {
  fds = replicate max_fds none;
  ofds = replicate max_fds none;
  store = store;
  outside = outside;
}

abbrev pub no_description : OpenFileDescription
no_description = record { offset = 0; dir_cookie = 0; status_flags = 0 }

abbrev pub description : FileDescriptorTable → ℕ → OpenFileDescription
description t id = get_or t.store id no_description

abbrev pub ofd_of : FileDescriptorTable → ℕ → Option ℕ
ofd_of t fd = get_or t.ofds fd none

abbrev pub get_flags : FileDescriptorTable → ℕ → ℕ
get_flags t fd = elim (ofd_of t fd) [ none ↦ 0 | some id ↦ (description t id).status_flags ]

-- A change of the description behind a descriptor, seen through every descriptor that shares it.
abbrev pub change :
    FileDescriptorTable
    → ℕ
    → (OpenFileDescription → OpenFileDescription)
    → Bool × FileDescriptorTable
change t fd f = elim (ofd_of t fd) [
  | none ↦ (false, t)
  | some id ↦ (true, record t { store = set t.store id (f (description t id)) })
]

abbrev pub set_flags : FileDescriptorTable → ℕ → ℕ → Bool × FileDescriptorTable
set_flags t fd flags = change t fd λ o. record o { status_flags = status_bits flags }

abbrev pub is_nonblock : FileDescriptorTable → ℕ → Bool
is_nonblock t fd = get_flags t fd / 2048 % 2 == 1

abbrev pub get_offset : FileDescriptorTable → ℕ → Option ℕ
get_offset t fd = elim (ofd_of t fd) [ none ↦ none | some id ↦ some (description t id).offset ]

abbrev pub set_offset : FileDescriptorTable → ℕ → ℕ → Bool × FileDescriptorTable
set_offset t fd offset = change t fd λ o. record o { offset = offset }

-- The sum saturates at the greatest 64-bit number.
abbrev pub saturating_add : ℕ → ℕ → ℕ
saturating_add a b = min (a + b) (2 ^ 64 - 1)

abbrev pub advance_offset : FileDescriptorTable → ℕ → ℕ → Option ℕ × FileDescriptorTable
advance_offset t fd amount =
    let r = change t fd λ o. record o { offset = saturating_add o.offset amount } in
    (get_offset r.1 fd, r.1)

abbrev pub get_cookie : FileDescriptorTable → ℕ → Option ℕ
get_cookie t fd = elim (ofd_of t fd) [ none ↦ none | some id ↦ some (description t id).dir_cookie ]

abbrev pub set_cookie : FileDescriptorTable → ℕ → ℕ → Bool × FileDescriptorTable
set_cookie t fd cookie = change t fd λ o. record o { dir_cookie = cookie }

-- The first free slot of a list, counted from `k`.
unfoldable pub first_none : ℕ → List (Option FileDescriptor) → Option ℕ
first_none k [] = none
first_none k (none ∷ os) = some k
first_none k (some d ∷ os) = first_none (suc k) os

abbrev pub alloc_fd : FileDescriptorTable → Option ℕ
alloc_fd t = first_none 0 t.fds

-- The loop over `n` slots from `fd` on.
unfoldable pub free_from : FileDescriptorTable → ℕ → ℕ → Option ℕ
free_from t zero fd = none
free_from t (suc n) fd =
    let rest = free_from t n (suc fd) in if is_some (get_or t.fds fd none) then rest else some fd

abbrev pub alloc_fd_from : FileDescriptorTable → ℕ → Option ℕ
alloc_fd_from t low = free_from t (length t.fds - low) low

abbrev pub get : FileDescriptorTable → ℕ → Option FileDescriptor
get t fd = get_or t.fds fd none

-- The clone of the `Arc` is held outside the table.
abbrev pub clone_entry : FileDescriptorTable → ℕ → Option (FileDescriptor × ℕ) × FileDescriptorTable
clone_entry t fd = elim (get t fd) [
  | none ↦ (none, t)
  | some d ↦ elim (ofd_of t fd) [
    | none ↦ (none, t)
    | some id ↦ (some (d, id), record t { outside = id ∷ t.outside })
  ]
]

abbrev pub put : FileDescriptorTable → ℕ → FileDescriptor → ℕ → FileDescriptorTable
put t fd d id = record t { fds = set t.fds fd (some d); ofds = set t.ofds fd (some id) }

-- `new_ofd`: a description that no one else has.
abbrev pub put_new : FileDescriptorTable → ℕ → FileDescriptor → FileDescriptorTable
put_new t fd d = put (record t { store = t.store ++ from_descriptor d ∷ [] }) fd d (length t.store)

abbrev pub taken : FileDescriptorTable → ℕ → Bool
taken t fd = leb (length t.fds) fd || is_some (get_or t.fds fd none)

abbrev pub insert : FileDescriptorTable → ℕ → FileDescriptor → Bool × FileDescriptorTable
insert t fd d = if taken t fd then (false, t) else (true, put_new t fd d)

-- The table takes over an `Arc` that was held outside.
abbrev pub remove_one : ℕ → List ℕ → List ℕ
remove_one id [] = []
remove_one id (x ∷ xs) = if x == id then xs else x ∷ remove_one id xs

abbrev pub insert_shared : FileDescriptorTable → ℕ → FileDescriptor → ℕ → Bool × FileDescriptorTable
insert_shared t fd d id =
    let moved = record t { outside = remove_one id t.outside } in
    if taken t fd then (false, moved) else (true, put moved fd d id)

abbrev pub set_fd :
    FileDescriptorTable → ℕ → FileDescriptor → Option FileDescriptor × FileDescriptorTable
set_fd t fd d = if leb (length t.fds) fd then (none, t) else (get t fd, put_new t fd d)

abbrev pub set_shared :
    FileDescriptorTable → ℕ → FileDescriptor → ℕ → Option FileDescriptor × FileDescriptorTable
set_shared t fd d id =
    let moved = record t { outside = remove_one id t.outside } in
    if leb (length t.fds) fd then (none, moved) else (get t fd, put moved fd d id)

-- How many slots, or holders, have a description.
abbrev pub holds : ℕ → Option ℕ → ℕ
holds id none = 0
holds id (some x) = if x == id then 1 else 0

unfoldable pub slots_with : ℕ → List (Option ℕ) → ℕ
slots_with id [] = 0
slots_with id (o ∷ os) = holds id o + slots_with id os

unfoldable pub holders_with : ℕ → List ℕ → ℕ
holders_with id [] = 0
holders_with id (x ∷ xs) = (if x == id then 1 else 0) + holders_with id xs

abbrev pub empty_slot : FileDescriptorTable → ℕ → FileDescriptorTable
empty_slot t fd = record t { fds = set t.fds fd none; ofds = set t.ofds fd none }

-- `Arc::strong_count(o) == 1` for the `Arc` that was taken out of its slot.
abbrev pub is_last : FileDescriptorTable → Option ℕ → Bool
is_last t none = true
is_last t (some id) = slots_with id t.ofds + holders_with id t.outside == 0

abbrev pub close_at :
    FileDescriptorTable
    → ℕ
    → Option FileDescriptor
    → Option ClosedFileDescriptor × FileDescriptorTable
close_at t fd none = (none, t)
close_at t fd (some d) =
    let emptied = empty_slot t fd in
    (some (record { desc = d; last_open_ref = is_last emptied (ofd_of t fd) }), emptied)

abbrev pub close : FileDescriptorTable → ℕ → Option ClosedFileDescriptor × FileDescriptorTable
close t fd = close_at t fd (get t fd)

abbrev pub push_closed :
    Option ClosedFileDescriptor → List ClosedFileDescriptor → List ClosedFileDescriptor
push_closed none cs = cs
push_closed (some c) cs = c ∷ cs

-- The loop over `n` slots from `fd` on.
unfoldable pub take_from :
    ℕ → ℕ → FileDescriptorTable → List ClosedFileDescriptor × FileDescriptorTable
take_from zero fd t = ([], t)
take_from (suc n) fd t =
    let rest = take_from n (suc fd) (close t fd).1 in (push_closed (close t fd).0 rest.0, rest.1)

abbrev pub take_all : FileDescriptorTable → List ClosedFileDescriptor × FileDescriptorTable
take_all t = take_from (length t.fds) 0 t

abbrev pub share :
    FileDescriptorTable → ℕ → ℕ → Option FileDescriptor → Option ℕ → Bool × FileDescriptorTable
share t old new none o = (false, t)
share t old new (some d) none = (false, t)
share t old new (some d) (some id) = (true, if old == new then t else put t new d id)

abbrev pub dup2 : FileDescriptorTable → ℕ → ℕ → Bool × FileDescriptorTable
dup2 t old new =
    if leb (length t.fds) old || leb (length t.fds) new
    then (false, t)
    else share t old new (get t old) (ofd_of t old)

abbrev pub with_stdio : List OpenFileDescription → List ℕ → FileDescriptorTable
with_stdio store outside =
    (insert (insert (insert (new_table store outside) 0 console_in).1 1 console_out).1 2
      console_out).1

-- ===== src/Sockets.antt =====
-- kernel/src/net/socket.rs: the table of sockets that descriptors refer to by id. The addresses are
-- those of kernel/src/net/types.rs.
pub mod Slots
pub mod Table
mod Tests
use felix.Prelude.{
  ℕ, zero, suc, ◌+◌, ◌-◌, ◌%◌, ◌^◌, Bool, true, false, Option, none, some, List, [], ◌∷◌, ◌++◌,
  ◌==◌, leb, if◌then◌else◌, set, length, replicate, is_some,
}

pub data SocketState : Type 0 where
  closed created bound listening connecting connected : SocketState

pub record SockAddrIn : Type 0 where
  pub sin_family : ℕ
  pub sin_port : ℕ
  pub sin_addr : ℕ
  pub sin_zero : List ℕ

pub record Socket : Type 0 where
  pub id : ℕ
  pub domain : ℕ
  pub ty : ℕ
  pub protocol : ℕ
  pub state : SocketState
  pub local_addr : Option SockAddrIn
  pub peer_addr : Option SockAddrIn
  pub backlog : ℕ
  pub accept_queue : List ℕ
  pub rx_buf : List ℕ
  pub tx_buf : List ℕ
  pub owner : ℕ

abbrev pub new_socket : ℕ → ℕ → ℕ → ℕ → ℕ → Socket
new_socket id domain ty protocol owner = record {
  id = id;
  domain = domain;
  ty = ty;
  protocol = protocol;
  state = created;
  local_addr = none;
  peer_addr = none;
  backlog = 0;
  accept_queue = [];
  rx_buf = [];
  tx_buf = [];
  owner = owner;
}

abbrev pub Slots : Type 0
Slots = List (Option Socket)

pub record SocketTable : Type 0 where
  pub sockets : Slots
  pub next_id : ℕ

abbrev pub no_sockets : SocketTable
no_sockets = record { sockets = []; next_id = 1 }

-- `position(|s| s.is_none())`
pub free_slot : Slots → Option ℕ
free_slot [] = none
free_slot (none ∷ ss) = some 0
free_slot (some s ∷ ss) = elim (free_slot ss) [ none ↦ none | some i ↦ some (suc i) ]

pub alloc : SocketTable → ℕ → ℕ → ℕ → ℕ → ℕ × SocketTable
alloc t domain ty protocol owner =
    let socket = some (new_socket t.next_id domain ty protocol owner) in
    let next = (t.next_id + 1) % 2 ^ 32 in
    elim (free_slot t.sockets) [
      | some i ↦ (t.next_id, record { sockets = set t.sockets i socket; next_id = next })
      | none ↦ (t.next_id, record { sockets = t.sockets ++ socket ∷ []; next_id = next })
    ]

-- What an index holds.
pub slot : Slots → ℕ → Option Socket
slot [] i = none
slot (s ∷ ss) zero = s
slot (s ∷ ss) (suc i) = slot ss i

-- `while self.sockets.len() < id { self.sockets.push(None) }`
pub grow : Slots → ℕ → Slots
grow ss id = ss ++ replicate (id - length ss) none

-- `insert_with_id` for the index below the socket's id. `id + 1` does not overflow: the slots below
-- `id` are in memory.
pub insert_at : SocketTable → ℕ → Socket → Bool × SocketTable
insert_at t i s =
    let grown = grow t.sockets s.id in
    if is_some (slot grown i) then (false, record t { sockets = grown }) else (
      true,
      record {
        sockets = set grown i (some s);
        next_id = if leb t.next_id s.id then s.id + 1 else t.next_id;
      },
    )

pub insert_with_id : SocketTable → ℕ → ℕ → ℕ → ℕ → ℕ → Bool × SocketTable
insert_with_id t id domain ty protocol owner =
    if id == 0 then (false, t) else insert_at t (id - 1) (new_socket id domain ty protocol owner)

-- `get` and `get_mut`.
pub find_id : ℕ → Slots → Option Socket
find_id id [] = none
find_id id (none ∷ ss) = find_id id ss
find_id id (some s ∷ ss) = if s.id == id then some s else find_id id ss

pub get : SocketTable → ℕ → Option Socket
get t id = find_id id t.sockets

pub free_id : ℕ → Slots → Slots
free_id id [] = []
free_id id (none ∷ ss) = none ∷ free_id id ss
free_id id (some s ∷ ss) = if s.id == id then none ∷ ss else some s ∷ free_id id ss

pub free : SocketTable → ℕ → SocketTable
free t id = record t { sockets = free_id id t.sockets }

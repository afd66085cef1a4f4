-- ===== src/Sockets/Tests.antt =====
-- Sockets 1 and 3, with the slot between them free.
use felix.Prelude.{ℕ, ◌≡◌, refl, none, some, [], ◌∷◌, ◌==◌, if◌then◌else◌}
use felix.Sockets.{
  Socket, SocketTable, new_socket, insert_with_id, insert_at, grow, get, free, free_id, slot, alloc,
  free_slot, no_sockets,
}
use felix.Sockets.Table.{Inv, Inserted, insert_with_id-Inserted, free-get}

abbrev one : Socket
one = new_socket 1 2 1 6 4

abbrev three : Socket
three = new_socket 3 2 2 17 4

abbrev two_sockets : SocketTable
two_sockets = record { sockets = some one ∷ none ∷ some three ∷ []; next_id = 4 }

two_sockets-Inv : Inv two_sockets
two_sockets-Inv = record { placed = (refl, (refl, tt)) }

insert_with_id-Inserted_example :
    Inserted two_sockets 2 (new_socket 2 2 1 6 5) (insert_with_id two_sockets 2 2 1 6 5)
insert_with_id-Inserted_example = insert_with_id-Inserted two_sockets 2 2 1 6 5 two_sockets-Inv

free-get_example :
    ((k : ℕ) → get (free two_sockets 3) k ≡ (if k == 3 then none else get two_sockets k))
    × Inv (free two_sockets 3)
free-get_example = free-get two_sockets 3 two_sockets-Inv

-- With `alloc` in between, two sockets can come to have one id: ids 1, 2, and 3 in the slot that 1
-- left; the slot of 3 is free, and `insert_with_id` takes it too.
abbrev mixed : SocketTable
mixed =
    (insert_with_id (alloc (free (alloc (alloc no_sockets 2 1 6 0).1 2 1 6 0).1 1) 2 1 6 0).1 3 2 1
      6 0).1

twice :
    mixed.sockets
    ≡ some (new_socket 3 2 1 6 0) ∷ some (new_socket 2 2 1 6 0) ∷ some (new_socket 3 2 1 6 0) ∷ []
unfolding insert_with_id insert_at alloc free free_id free_slot grow slot
twice = refl

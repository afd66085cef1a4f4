-- ===== src/Memory/Shared/Tests.antt =====
-- Two pages of one file, the first mapped twice.
use felix.Prelude.{total, here, ◌≡◌, ◌+◌, refl, arith, true, none, some, [], ◌∷◌, leb}
use felix.Memory.Shared.{
  SharedPage, frame_of, acquire_begin, acquire_end, release_user_frame, write_len_of,
}
use felix.Memory.Shared.Total.{pages_in}
use felix.Memory.Shared.Inv.{System, Inv, event, end_io, event-Inv, count}
use felix.Memory.Shared.Share.{acquire-same_frame, release_user_frame_lem}

abbrev first_page : SharedPage
first_page = record { inode = 7; offset = 0; frame = 100; refs = 2; write_len = 4096 }

abbrev second_page : SharedPage
second_page = record { inode = 7; offset = 4096; frame = 101; refs = 1; write_len = 904 }

abbrev two_pages : System
two_pages = record { cache = first_page ∷ second_page ∷ []; mapped = 100 ∷ 101 ∷ 100 ∷ [] }

two_pages-Inv : Inv two_pages
unfolding total count
two_pages-Inv = record {
  counted = λ f. ground arith;
  used = refl;
  frames = λ f. ground arith;
  places = λ i o. ground arith;
}

event-Inv_example : Inv (event two_pages (end_io 7 8192 9000 102))
event-Inv_example =
    event-Inv two_pages (end_io 7 8192 9000 102) two_pages-Inv (omega arith) (unfold total in refl)

acquire-same_frame_example :
    ((acquire_begin (first_page ∷ second_page ∷ []) 7 0 none).0 ≡ some (frame_of 100))
    × ((acquire_end (first_page ∷ second_page ∷ []) 7 0 5000 102).0 ≡ 100)
acquire-same_frame_example =
    acquire-same_frame two_pages 0 first_page none 5000 102 two_pages-Inv here refl

release_user_frame_lem_example :
    ((release_user_frame (first_page ∷ second_page ∷ []) 101).0
      ≡ leb (count 101 (100 ∷ 101 ∷ 100 ∷ [])) 1)
    × ((release_user_frame (first_page ∷ second_page ∷ []) 101).0 ≡ true
        → total (pages_in 101) (release_user_frame (first_page ∷ second_page ∷ []) 101).1 ≡ 0)
release_user_frame_lem_example = release_user_frame_lem two_pages 101 two_pages-Inv

-- A file that goes on for 4 GiB from the page: the length does not fit `usize`, and nothing of the
-- page will be written back.
nothing_back : write_len_of (4096 + 4294967296) 4096 ≡ 0
unfolding write_len_of
nothing_back = refl

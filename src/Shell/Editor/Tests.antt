-- ===== src/Shell/Editor/Tests.antt =====
-- The line editor on a line with a two-byte and a four-byte character.
use felix.Prelude.{◌≡◌, refl, min, some, List, [], ◌∷◌}
use felix.Shell.Syntax.{Text}
use felix.Shell.Editor.{
  Key, insert_key, backspace_key, left_key, end_key, delete_prev_word_key, set_with_cursor, back_up,
  bytes, len_utf8, split, run,
}
use felix.Shell.Editor.Zipper.{Zipper, press_all}
use felix.Shell.Editor.Refine.{shows, run-press_all}
use felix.Shell.Editor.Boundary.{Greatest, set_with_cursor_lem, set_with_cursor-shows}

-- `é` and an emoji, with the cursor behind both.
abbrev wide : Zipper
wide = record { left = 0x1f600 ∷ 0xe9 ∷ []; right = b'x' ∷ [] }

abbrev keys : List Key
keys = left_key ∷ backspace_key ∷ insert_key b' ' ∷ end_key ∷ delete_prev_word_key ∷ []

run-press_all_example : run (shows wide) keys ≡ some (shows (press_all wide keys))
run-press_all_example = run-press_all wide keys

abbrev line : Text
line = 0xe9 ∷ 0x1f600 ∷ []

inside : (set_with_cursor line 4).cursor ≡ 2
unfolding set_with_cursor back_up bytes len_utf8 split
inside = refl

set_with_cursor_lem_example : Greatest line (min 4 (bytes line)) (set_with_cursor line 4).cursor
set_with_cursor_lem_example = set_with_cursor_lem line 4

set_with_cursor-shows_example : (z : Zipper) × (set_with_cursor line 4 ≡ shows z)
set_with_cursor-shows_example = set_with_cursor-shows line 4

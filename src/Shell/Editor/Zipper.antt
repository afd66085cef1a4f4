-- ===== src/Shell/Editor/Zipper.antt =====
-- What the line editor promises: a cursor between the characters of a line. `left` is what stands
-- before it, nearest character first.
use felix.Prelude.{Bool, true, false, List, [], ◌∷◌, if◌then◌else◌}
use felix.Shell.Syntax.{Text, is_whitespace}
use felix.Shell.Editor.{
  Key, insert_key, backspace_key, delete_key, left_key, right_key, home_key, end_key,
  kill_before_key, kill_after_key, delete_prev_word_key,
}

pub record Zipper : Type 0 where
  pub left : Text
  pub right : Text

-- The characters of `l`, in reading order, in front of `r`.
unfoldable pub unwind : Text → Text → Text
unwind [] r = r
unwind (c ∷ l) r = unwind l (c ∷ r)

-- The other way round: `r` goes to the left.
unfoldable pub rewind : Text → Text → Text
rewind l [] = l
rewind l (c ∷ r) = rewind (c ∷ l) r

-- Without the whitespace nearest to the cursor, or without the word.
unfoldable pub drop_while : Bool → Text → Text
drop_while space [] = []
drop_while space (c ∷ l) =
    if is_whitespace c
    then (if space then drop_while space l else c ∷ l)
    else if space
    then c ∷ l
    else drop_while space l

abbrev pub some_left : Text → Bool
some_left [] = false
some_left (c ∷ l) = true

-- The new line, and whether the key did something.
unfoldable pub press : Text → Text → Key → Zipper × Bool
press l r (insert_key ch) = (record { left = ch ∷ l; right = r }, true)
press [] r backspace_key = (record { left = []; right = r }, false)
press (c ∷ l) r backspace_key = (record { left = l; right = r }, true)
press l [] delete_key = (record { left = l; right = [] }, false)
press l (c ∷ r) delete_key = (record { left = l; right = r }, true)
press [] r left_key = (record { left = []; right = r }, false)
press (c ∷ l) r left_key = (record { left = l; right = c ∷ r }, true)
press l [] right_key = (record { left = l; right = [] }, false)
press l (c ∷ r) right_key = (record { left = c ∷ l; right = r }, true)
press l r home_key = (record { left = []; right = unwind l r }, some_left l)
press l r end_key = (record { left = rewind l r; right = [] }, some_left r)
press l r kill_before_key = (record { left = []; right = r }, some_left l)
press l r kill_after_key = (record { left = l; right = [] }, some_left r)
press l r delete_prev_word_key =
    (record { left = drop_while false (drop_while true l); right = r }, some_left l)

unfoldable pub press_all : Zipper → List Key → Zipper
press_all z [] = z
press_all z (k ∷ ks) = press_all (press z.left z.right k).0 ks

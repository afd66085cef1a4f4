-- ===== src/Shell/Editor/Refine.antt =====
-- The operations of the line editor on byte offsets against those of the zipper.
use felix.Prelude.{
  ℕ, suc, ◌+◌, ◌≡◌, refl, sym, ap, ◌∙◌, Bool, true, not, false, Option, some, List, [], ◌∷◌, ◌++◌,
  ◌==◌, arith, append_assoc,
}
use felix.Shell.Syntax.{Text}
use felix.Shell.Editor.{
  Editor, Key, insert_key, backspace_key, delete_key, left_key, right_key, home_key, end_key,
  kill_before_key, kill_after_key, delete_prev_word_key, len_utf8, bytes, drain, insert, backspace,
  delete, left, right, home, to_end, kill_before, kill_after, back_while, delete_prev_word, step,
  run,
}
use felix.Shell.Editor.Zipper.{Zipper, unwind, rewind, drop_while, press, press_all, some_left}
use felix.Shell.Editor.Bytes.{
  at, len_utf8-pos, bytes-unwind, bytes-rewind, bytes-cons, bytes-pos, bytes-nil, unwind-rewind,
  unwind-append, split-at, prev_boundary-at, next_boundary-at, drain-unwind, back_while-at,
  drop_while-suffix, drain-between, unwind-append_left,
}

-- The editor that shows a zipper.
abbrev pub shows : Zipper → Editor
shows z = at z.left z.right

-- The operation succeeds, and shows what the key makes of the zipper.
abbrev pub Refines : Text → Text → Key → Type 0
Refines l r k = step (at l r) k ≡ some (shows (press l r k).0, (press l r k).1)

abbrev shown : Text → ℕ → Bool → Option (Editor × Bool)
shown t n b = some (record { text = t; cursor = n }, b)

-- Editors with the same text and cursor, and the same answer.
same : {s t : Text} {m n : ℕ} (b : Bool) → s ≡ t → m ≡ n → shown s m b ≡ shown t n b
same b p q i = shown (p i) (q i) b

-- Cutting out the character behind the cursor.
drain-next :
    (l r : Text) (c : ℕ)
    → drain (unwind l (c ∷ r)) (bytes l) (bytes l + len_utf8 c) ≡ some (unwind l r)
drain-next l r c =
    drain-unwind l (c ∷ []) r (bytes l + len_utf8 c) (omega (arith, bytes-cons c [], bytes-nil))

insert-Refines : (l r : Text) (ch : ℕ) → Refines l r (insert_key ch)
unfolding step insert press
insert-Refines l r ch =
    rw (split-at l r)
      (same true (unfold unwind in unwind-append l [] (ch ∷ r)) (omega (arith, bytes-cons ch l)))

backspace-Refines : (l r : Text) → Refines l r backspace_key
unfolding step backspace press
backspace-Refines [] r = rw (prev_boundary-at [] r)
backspace-Refines (c ∷ l) r = rw (prev_boundary-at (c ∷ l) r) (rw (drain-between (c ∷ []) l r))

delete-Refines : (l r : Text) → Refines l r delete_key
unfolding step delete press
delete-Refines [] [] = rw (next_boundary-at [] [])
delete-Refines (d ∷ l) [] = rw (next_boundary-at (d ∷ l) [])
delete-Refines [] (c ∷ r) = rw (next_boundary-at [] (c ∷ r)) (rw (drain-next [] r c))
delete-Refines (d ∷ l) (c ∷ r) = rw (next_boundary-at (d ∷ l) (c ∷ r)) (rw (drain-next (d ∷ l) r c))

left-Refines : (l r : Text) → Refines l r left_key
unfolding step left press unwind
left-Refines [] r = rw (prev_boundary-at [] r)
left-Refines (c ∷ l) r = rw (prev_boundary-at (c ∷ l) r)

right-Refines : (l r : Text) → Refines l r right_key
unfolding step right press
right-Refines [] [] = rw (next_boundary-at [] [])
right-Refines (d ∷ l) [] = rw (next_boundary-at (d ∷ l) [])
right-Refines [] (c ∷ r) =
    rw (next_boundary-at [] (c ∷ r))
      (same true (unfold unwind in refl) (omega (arith, bytes-cons c [])))
right-Refines (d ∷ l) (c ∷ r) =
    rw (next_boundary-at (d ∷ l) (c ∷ r))
      (same true (unfold unwind in refl) (omega (arith, bytes-cons c (d ∷ l))))

home-Refines : (l r : Text) → Refines l r home_key
unfolding step home press
home-Refines [] r = unfold bytes unwind in refl
home-Refines (c ∷ l) r = rw (bytes-pos c l) (same true (unfold unwind in refl) (sym bytes-nil))

at_end : (l r : Text) → (bytes l == bytes (unwind l r)) ≡ not (some_left r)
at_end l [] = ground (arith, bytes-unwind l [], bytes-nil)
at_end l (c ∷ r) = ground (arith, bytes-unwind l (c ∷ r), bytes-cons c r, len_utf8-pos c)

end-Refines : (l r : Text) → Refines l r end_key
unfolding step to_end press
end-Refines l [] =
    rw (at_end l [])
      (same false (sym (unfold rewind in unwind-rewind l [])) (unfold rewind in refl))
end-Refines l (c ∷ r) = rw (at_end l (c ∷ r)) (
    same true (sym (unwind-rewind l (c ∷ r)))
      (bytes-unwind l (c ∷ r) ∙ sym (bytes-rewind l (c ∷ r))))

cut_before : (l r : Text) → drain (unwind l r) 0 (bytes l) ≡ some r
cut_before l r =
    ap (λ t. drain t 0 (bytes l)) (sym (unwind-append l [] r))
    ∙ ap (λ n. drain (unwind l [] ++ r) n (bytes l)) (sym bytes-nil)
    ∙ unfold unwind in
      drain-unwind [] (unwind l []) r (bytes l) (omega (arith, bytes-unwind l [], bytes-nil))

kill_before-Refines : (l r : Text) → Refines l r kill_before_key
unfolding step kill_before press
kill_before-Refines [] r = unfold bytes in refl
kill_before-Refines (c ∷ l) r =
    rw (bytes-pos c l)
      (rw (cut_before (c ∷ l) r) (same true (unfold unwind in refl) (sym bytes-nil)))

kill_after-Refines : (l r : Text) → Refines l r kill_after_key
unfolding step kill_after press
kill_after-Refines l [] = rw (at_end l [])
kill_after-Refines l (c ∷ r) = rw (at_end l (c ∷ r)) (rw (split-at l (c ∷ r)))

-- The second loop of `delete_prev_word` starts where the first has stopped.
second_loop :
    (x d r : Text)
    → back_while false (suc (bytes d)) (record { text = unwind (x ++ d) r; cursor = bytes d })
      ≡ some (record { text = unwind (x ++ d) r; cursor = bytes (drop_while false d) })
second_loop x d r =
    rw (unwind-append_left x d r) (back_while-at false (suc (bytes d)) d (unwind x r) (omega arith))

second_loop_at :
    (l d x r : Text)
    → l ≡ x ++ d
    → back_while false (suc (bytes d)) (record { text = unwind l r; cursor = bytes d })
      ≡ some (record { text = unwind l r; cursor = bytes (drop_while false d) })
second_loop_at l d x r h = rw h (second_loop x d r)

cut_word :
    (l d x r : Text) → l ≡ x ++ d → drain (unwind l r) (bytes d) (bytes l) ≡ some (unwind d r)
cut_word l d x r h = rw h (drain-between x d r)

-- The two loops together leave the end of the line that they are given.
word-suffix : (l : Text) → (x : Text) × (l ≡ x ++ drop_while false (drop_while true l))
word-suffix l =
    let (x, p) = drop_while-suffix true l in
    let (y, q) = drop_while-suffix false (drop_while true l) in
    (x ++ y, p ∙ ap (λ t. x ++ t) q ∙ sym (append_assoc x y _))

delete_prev_word-Refines : (l r : Text) → Refines l r delete_prev_word_key
unfolding step delete_prev_word press
delete_prev_word-Refines [] r = unfold bytes drop_while in refl
delete_prev_word-Refines (c ∷ l) r =
    let (x, p) = drop_while-suffix true (c ∷ l) in
    let (y, q) = word-suffix (c ∷ l) in
    rw (bytes-pos c l) (
      rw (back_while-at true (suc (bytes (c ∷ l))) (c ∷ l) r (omega arith)) (
        rw (second_loop_at (c ∷ l) _ x r p)
          (rw (cut_word (c ∷ l) (drop_while false (drop_while true (c ∷ l))) y r q))))

-- On a cursor between the characters `l` and `r`, every key has the effect that the zipper
-- prescribes, and none panics.
pub editor_step-Refines : (l r : Text) (k : Key) → Refines l r k
editor_step-Refines l r (insert_key ch) = insert-Refines l r ch
editor_step-Refines l r backspace_key = backspace-Refines l r
editor_step-Refines l r delete_key = delete-Refines l r
editor_step-Refines l r left_key = left-Refines l r
editor_step-Refines l r right_key = right-Refines l r
editor_step-Refines l r home_key = home-Refines l r
editor_step-Refines l r end_key = end-Refines l r
editor_step-Refines l r kill_before_key = kill_before-Refines l r
editor_step-Refines l r kill_after_key = kill_after-Refines l r
editor_step-Refines l r delete_prev_word_key = delete_prev_word-Refines l r

-- From an editor that shows a zipper, any keys are handled without a panic of the byte-indexed
-- string operations (a cursor never falls inside a character), and the editor ends up showing what
-- the keys make of the zipper.
pub run-press_all : (z : Zipper) (ks : List Key) → run (shows z) ks ≡ some (shows (press_all z ks))
unfolding run press_all
run-press_all z [] = refl
run-press_all z (k ∷ ks) =
    rw (editor_step-Refines z.left z.right k) (run-press_all (press z.left z.right k).0 ks)

-- ===== src/Shell/Editor/Boundary.antt =====
-- `set_with_cursor`: the cursor it picks.
use felix.Prelude.{
  ℕ, zero, suc, ◌-◌, ◌≤◌, min, ◌≡◌, ◌⊎◌, refl, sym, ap, ◌∙◌, inl, inr, true, false, Option, none,
  some, [], ◌∷◌, ◌++◌, leb, ◌==◌, arith, is_some, if_intro, ==_iff, leb→le,
}
use mathlib.Core.Bool.{true≢false, false≢true}
use mathlib.Core.Option
use felix.Shell.Syntax.{Text}
use felix.Shell.Editor.{len_utf8, bytes, split, is_char_boundary, back_up, set_with_cursor}
use felix.Shell.Editor.Zipper.{Zipper, unwind, rewind}
use felix.Shell.Editor.Bytes.{
  split_zero, bytes-rewind, bytes-nil, bytes-cons, unwind-append, unwind-rewind,
}
use felix.Shell.Editor.Refine.{shows}

-- The greatest boundary up to an offset.
abbrev pub Greatest : Text → ℕ → ℕ → Type 0
Greatest s n c =
    (is_char_boundary s c ≡ true)
    × (c ≤ n)
    × ((k : ℕ) → k ≤ n → is_char_boundary s k ≡ true → k ≤ c)

Greatest-suc :
    (s : Text) (n c : ℕ)
    → Greatest s n c
    → is_char_boundary s (suc n) ≡ false
    → Greatest s (suc n) c
Greatest-suc s n c (rest, below, greatest) b = (
  rest,
  omega arith,
  λ k h e. elim (below_suc k n h) [
    | inl q ↦ greatest k q e
    | inr q ↦ absurd (true≢false (sym e ∙ ap (is_char_boundary s) q ∙ b))
  ],
)
  where
    below_suc : (k n : ℕ) → k ≤ suc n → (k ≤ n) ⊎ (k ≡ suc n)
    below_suc k n h = ground arith

back_up-Greatest : (s : Text) (n : ℕ) → Greatest s n (back_up s n)
unfolding back_up
back_up-Greatest s zero = (rw (split_zero s), omega arith, λ k h b. h)
back_up-Greatest s (suc n) =
    if_intro (Greatest s (suc n)) (is_char_boundary s (suc n)) _ _
      (λ b. (b, omega arith, λ k h _. h)) (λ b. Greatest-suc s n _ (back_up-Greatest s n) b)

-- What stands before an offset and behind it.
abbrev Cut : Text → ℕ → Type 0
Cut s n = (x : Text) × (y : Text) × (x ++ y ≡ s) × (bytes x ≡ n)

is_some-map : {A B : Type 0} (f : A → B) (o : Option A) → is_some (Option.map f o) ≡ is_some o
is_some-map f none = refl
is_some-map f (some a) = refl

Cut-at : (s : Text) (n : ℕ) → is_char_boundary s n ≡ true → Cut s n
unfolding split
Cut-at [] n =
    if_intro (λ (o : Option (Text × Text)). is_some o ≡ true → Cut [] n) (n == 0) _ _
      (λ z _. ([], [], refl, bytes-nil ∙ sym ((==_iff n 0).0 z))) (λ _ h. absurd (false≢true h))
Cut-at (c ∷ s) n =
    if_intro (λ (o : Option (Text × Text)). is_some o ≡ true → Cut (c ∷ s) n) (n == 0) _ _
      (λ z _. ([], c ∷ s, refl, bytes-nil ∙ sym ((==_iff n 0).0 z)))
      (λ _.
        if_intro (λ (o : Option (Text × Text)). is_some o ≡ true → Cut (c ∷ s) n)
          (leb (len_utf8 c) n) _ _
          (λ w h.
            let (x, y, e, k) = Cut-at s (n - len_utf8 c) (sym (is_some-map _ _) ∙ h) in
            (
              c ∷ x,
              y,
              ap (λ t. c ∷ t) e,
              omega (arith, k, bytes-cons c x, leb→le (len_utf8 c) n w),
            ))
          (λ _ h. absurd (false≢true h)))

unwind-rewind_nil : (x y : Text) → unwind (rewind [] x) y ≡ x ++ y
unwind-rewind_nil x y =
    sym (unwind-append (rewind [] x) [] y) ∙ ap (λ t. t ++ y) (unfold unwind in unwind-rewind [] x)

-- `set_with_cursor` puts the cursor on the last character boundary that is neither behind the
-- offset asked for nor behind the end.
pub set_with_cursor_lem :
    (s : Text) (n : ℕ) → Greatest s (min n (bytes s)) (set_with_cursor s n).cursor
unfolding set_with_cursor
set_with_cursor_lem s n = back_up-Greatest s (min n (bytes s))

-- An editor opened on any text with any offset shows a zipper, so that no key panics in it.
pub set_with_cursor-shows : (s : Text) (n : ℕ) → (z : Zipper) × (set_with_cursor s n ≡ shows z)
unfolding set_with_cursor
set_with_cursor-shows s n =
    let (x, y, e, k) = Cut-at s _ (set_with_cursor_lem s n).0 in
    let offset : bytes (rewind [] x) ≡ back_up s (min n (bytes s)) =
      omega (arith, bytes-rewind [] x, bytes-nil, k) in
    (
      record { left = rewind [] x; right = y },
      λ i. record { text = (sym e ∙ sym (unwind-rewind_nil x y)) i; cursor = sym offset i },
    )

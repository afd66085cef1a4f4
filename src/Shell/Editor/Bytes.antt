-- ===== src/Shell/Editor/Bytes.antt =====
-- Byte offsets of a line that is split at its cursor.
use felix.Prelude.{
  ℕ, zero, suc, ◌+◌, ◌-◌, ◌<◌, ◌≡◌, refl, sym, ap, ◌∙◌, inl, inr, Bool, true, false, Option, none,
  some, [], ◌∷◌, ◌++◌, ◌==◌, if◌then◌else◌, arith, Bool-cases,
}
use felix.Shell.Syntax.{Text, is_whitespace}
use felix.Shell.Editor.{
  Editor, len_utf8, bytes, split, last_index, prev_boundary, next_boundary, drain, back_while,
}
use felix.Shell.Editor.Zipper.{unwind, rewind, drop_while}

pub len_utf8-pos : (c : ℕ) → 0 < len_utf8 c
unfolding len_utf8
len_utf8-pos c = ground arith

-- The editor with its cursor between `l` and `r`.
abbrev pub at : Text → Text → Editor
at l r = record { text = unwind l r; cursor = bytes l }

pub bytes-unwind : (l r : Text) → bytes (unwind l r) ≡ bytes l + bytes r
unfolding unwind bytes
bytes-unwind [] r = omega arith
bytes-unwind (c ∷ l) r = omega (arith, bytes-unwind l (c ∷ r))

pub bytes-rewind : (l r : Text) → bytes (rewind l r) ≡ bytes l + bytes r
unfolding rewind bytes
bytes-rewind l [] = omega arith
bytes-rewind l (c ∷ r) = omega (arith, bytes-rewind (c ∷ l) r)

pub unwind-rewind : (l r : Text) → unwind (rewind l r) [] ≡ unwind l r
unfolding rewind unwind
unwind-rewind l [] = refl
unwind-rewind l (c ∷ r) = unwind-rewind (c ∷ l) r

pub unwind-append : (l x r : Text) → unwind l x ++ r ≡ unwind l (x ++ r)
unfolding unwind
unwind-append [] x r = refl
unwind-append (c ∷ l) x r = unwind-append l (c ∷ x) r

pub split_zero : (r : Text) → split r 0 ≡ some ([], r)
unfolding split
split_zero [] = refl
split_zero (c ∷ r) = refl

split-cons :
    (c : ℕ) (r x y : Text) (n : ℕ)
    → split r n ≡ some (x, y)
    → split (c ∷ r) (len_utf8 c + n) ≡ some (c ∷ x, y)
unfolding split
split-cons c r x y n h =
    let back : len_utf8 c + n - len_utf8 c ≡ n = omega arith in
    rw (back, h) (ground (arith, len_utf8-pos c))

-- A split of the rest is a split of the whole line.
pub split-unwind :
    (l r x y : Text) (n : ℕ)
    → split r n ≡ some (x, y)
    → split (unwind l r) (bytes l + n) ≡ some (unwind l x, y)
unfolding unwind bytes
split-unwind [] r x y n h = ap (split r) (omega arith) ∙ h
split-unwind (c ∷ l) r x y n h =
    ap (split (unwind l (c ∷ r))) (omega arith)
    ∙ split-unwind l (c ∷ r) (c ∷ x) y (len_utf8 c + n) (split-cons c r x y n h)

-- At the cursor.
pub split-at : (l r : Text) → split (unwind l r) (bytes l) ≡ some (unwind l [], r)
split-at l r = ap (split (unwind l r)) (omega arith) ∙ split-unwind l r [] r 0 (split_zero r)

last_index-unwind :
    (l : Text) (d : ℕ) (ds : Text) (i : ℕ)
    → last_index (d ∷ ds) ≡ some i
    → last_index (unwind l (d ∷ ds)) ≡ some (bytes l + i)
unfolding unwind bytes
last_index-unwind [] d ds i h = h ∙ ap some (omega arith)
last_index-unwind (c ∷ l) d ds i h =
    last_index-unwind l c (d ∷ ds) (len_utf8 c + i) (unfold last_index in rw h)
    ∙ ap some (omega arith)

last_index-at : (c : ℕ) (l : Text) → last_index (unwind (c ∷ l) []) ≡ some (bytes l)
unfolding unwind
last_index-at c l = last_index-unwind l c [] 0 (unfold last_index in refl) ∙ ap some (omega arith)

pub bytes-pos : (c : ℕ) (l : Text) → (bytes (c ∷ l) == 0) ≡ false
unfolding bytes
bytes-pos c l = ground (arith, len_utf8-pos c)

-- Where the character before the cursor begins.
abbrev pub before : Text → Option ℕ
before [] = none
before (c ∷ l) = some (bytes l)

pub prev_boundary-at : (l r : Text) → prev_boundary (at l r) ≡ some (before l)
unfolding prev_boundary
prev_boundary-at [] r = unfold bytes in refl
prev_boundary-at (c ∷ l) r = rw (bytes-pos c l) (rw (split-at (c ∷ l) r) (rw (last_index-at c l)))

-- Where the character behind the cursor ends.
abbrev pub behind : Text → Text → Option ℕ
behind l [] = none
behind l (c ∷ r) = some (bytes l + len_utf8 c)

pub bytes-nil : bytes [] ≡ 0
unfolding bytes
bytes-nil = refl

pub bytes-cons : (c : ℕ) (r : Text) → bytes (c ∷ r) ≡ len_utf8 c + bytes r
unfolding bytes
bytes-cons c r = refl

pub next_boundary-at : (l r : Text) → next_boundary (at l r) ≡ some (behind l r)
unfolding next_boundary
next_boundary-at l [] = ground (arith, bytes-unwind l [], bytes-nil)
next_boundary-at l (c ∷ r) =
    ground (arith, bytes-unwind l (c ∷ r), bytes-cons c r, len_utf8-pos c, split-at l (c ∷ r))

split_word : (x r : Text) → split (x ++ r) (bytes x) ≡ some (x, r)
unfolding bytes
split_word [] r = split_zero r
split_word (c ∷ x) r = split-cons c (x ++ r) x r (bytes x) (split_word x r)

-- Cutting out what stands between two cursors of one line.
pub drain-unwind :
    (l x r : Text) (n : ℕ)
    → n ≡ bytes l + bytes x
    → drain (unwind l (x ++ r)) (bytes l) n ≡ some (unwind l r)
unfolding drain
drain-unwind l x r n h =
    rw (h, split-unwind l (x ++ r) x r (bytes x) (split_word x r))
      (rw (split-at l x) (rw (unwind-append l [] r)))

-- The two loops of `delete_prev_word` stop where the specification does.
first-at : (c : ℕ) (l : Text) → split (unwind (c ∷ l) []) (bytes l) ≡ some (unwind l [], c ∷ [])
unfolding unwind
first-at c l = split-at l (c ∷ [])

back_while_round :
    (space : Bool) (n c : ℕ) (l r : Text)
    → back_while space (suc n) (at (c ∷ l) r) ≡ (
        let rest = back_while space n (record { text = unwind (c ∷ l) r; cursor = bytes l }) in
        if is_whitespace c
        then (if space then rest else some (at (c ∷ l) r))
        else if space
        then some (at (c ∷ l) r)
        else rest)
unfolding back_while
back_while_round space n c l r =
    rw (prev_boundary-at (c ∷ l) r) (rw (split-at (c ∷ l) r) (rw (first-at c l)))

back_while_start :
    (space : Bool) (n : ℕ) (r : Text) → back_while space (suc n) (at [] r) ≡ some (at [] r)
unfolding back_while
back_while_start space n r = rw (prev_boundary-at [] r)

stop_or_go :
    (space : Bool) (c : ℕ) (l r : Text) (rest : Option Editor)
    → rest ≡ some (record { text = unwind (c ∷ l) r; cursor = bytes (drop_while space l) })
    → (if is_whitespace c
        then (if space then rest else some (at (c ∷ l) r))
        else if space
        then some (at (c ∷ l) r)
        else rest)
      ≡ some (record { text = unwind (c ∷ l) r; cursor = bytes (drop_while space (c ∷ l)) })
unfolding drop_while
stop_or_go true c l r rest h = elim (Bool-cases (is_whitespace c)) [ inl w ↦ rw w h | inr w ↦ rw w ]
stop_or_go false c l r rest h = elim (Bool-cases (is_whitespace c)) [
  | inl w ↦ rw w
  | inr w ↦ rw w h
]

-- With more fuel than there are bytes before the cursor, each loop of `delete_prev_word` ends, and
-- leaves the line as it is and the cursor where the specification has it.
pub back_while-at :
    (space : Bool) (n : ℕ) (l r : Text)
    → bytes l < n
    → back_while space n (at l r)
      ≡ some (record { text = unwind l r; cursor = bytes (drop_while space l) })
unfolding unwind
back_while-at space zero l r h = absurd (omega arith)
back_while-at space (suc n) [] r h = unfold drop_while in back_while_start space n r
back_while-at space (suc n) (c ∷ l) r h =
    back_while_round space n c l r
    ∙ stop_or_go space c l r _
        (back_while-at space n l (c ∷ r) (omega (arith, bytes-cons c l, len_utf8-pos c)))

-- What `drop_while` leaves is the end of what it was given.
pub drop_while-suffix : (space : Bool) (l : Text) → (x : Text) × (l ≡ x ++ drop_while space l)
unfolding drop_while
drop_while-suffix space [] = ([], refl)
drop_while-suffix space (c ∷ l) = suffix space c l (drop_while-suffix space l)
  where
    suffix :
        (b : Bool) (d : ℕ) (k : Text)
        → ((x : Text) × (k ≡ x ++ drop_while b k))
        → (x : Text) × (d ∷ k ≡ x ++ drop_while b (d ∷ k))
    suffix true d k (x, e) = elim (Bool-cases (is_whitespace d)) [
      | inl w ↦ (d ∷ x, rw w (ap (λ t. d ∷ t) e))
      | inr w ↦ ([], rw w)
    ]
    suffix false d k (x, e) = elim (Bool-cases (is_whitespace d)) [
      | inl w ↦ ([], rw w)
      | inr w ↦ (d ∷ x, rw w (ap (λ t. d ∷ t) e))
    ]

pub unwind-append_left : (x l r : Text) → unwind (x ++ l) r ≡ unwind l (unwind x r)
unfolding unwind
unwind-append_left [] l r = refl
unwind-append_left (c ∷ x) l r = unwind-append_left x l (c ∷ r)

pub bytes-append : (x l : Text) → bytes (x ++ l) ≡ bytes x + bytes l
unfolding bytes
bytes-append [] l = omega arith
bytes-append (c ∷ x) l = omega (arith, bytes-append x l)

-- Cutting out what stands between a cursor and an earlier one.
pub drain-between :
    (x l r : Text) → drain (unwind (x ++ l) r) (bytes l) (bytes (x ++ l)) ≡ some (unwind l r)
drain-between x l r =
    rw (unwind-append_left x l r, unwind_split x r)
      (drain-unwind l (unwind x []) r _
        (omega (arith, bytes-append x l, bytes-unwind x [], bytes-nil)))
  where
    unwind_split : (y s : Text) → unwind y s ≡ unwind y [] ++ s
    unwind_split y s = sym (unwind-append y [] s)

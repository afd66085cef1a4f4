-- ===== src/Shell/Editor.antt =====
-- apps/shell/src/line_editor.rs: the command line being edited. `text` is the list of its code
-- points and `cursor` a byte offset, as in the source; the string operations of the standard
-- library panic where an offset is no character boundary, here `none`.
pub mod Zipper
pub mod Bytes
pub mod Refine
pub mod Boundary
mod Tests
use felix.Prelude.{
  ℕ, zero, suc, ◌+◌, ◌-◌, min, Bool, true, false, ◌&&◌, not, Option, none, some, List, [], ◌∷◌,
  ◌++◌, ltb, leb, ◌==◌, if◌then◌else◌, is_some,
}
use mathlib.Core.Option
use felix.Shell.Syntax.{Text, is_whitespace}

pub record Editor : Type 0 where
  pub text : Text
  pub cursor : ℕ

infixl 5 ◌>>=◌
abbrev pub ◌>>=◌ {ℓ κ} : {A : Type ℓ} {B : Type κ} → Option A → (A → Option B) → Option B
none >>= f = none
some a >>= f = f a

-- `char::len_utf8`
pub len_utf8 : ℕ → ℕ
len_utf8 c = if ltb c 0x80 then 1 else if ltb c 0x800 then 2 else if ltb c 0x10000 then 3 else 4

-- `String::len`
pub bytes : Text → ℕ
bytes [] = 0
bytes (c ∷ cs) = len_utf8 c + bytes cs

-- The text before and behind a byte offset; `none` is the panic of a slice inside a character or
-- past the end.
pub split : Text → ℕ → Option (Text × Text)
split [] n = if n == 0 then some ([], []) else none
split (c ∷ cs) n =
    let rest = Option.map (λ (p : Text × Text). (c ∷ p.0, p.1)) (split cs (n - len_utf8 c)) in
    if n == 0 then some ([], c ∷ cs) else if leb (len_utf8 c) n then rest else none

-- `char_indices().next_back().map(|(i, _)| i)`
pub last_index : Text → Option ℕ
last_index [] = none
last_index (c ∷ []) = some 0
last_index (c ∷ d ∷ cs) = Option.map (λ i. len_utf8 c + i) (last_index (d ∷ cs))

pub new : Editor
new = record { text = []; cursor = 0 }

pub set : Text → Editor
set s = record { text = s; cursor = bytes s }

-- `str::is_char_boundary`
abbrev pub is_char_boundary : Text → ℕ → Bool
is_char_boundary s n = is_some (split s n)

-- `while cursor > 0 && !is_char_boundary(cursor) { cursor -= 1 }`
pub back_up : Text → ℕ → ℕ
back_up s zero = zero
back_up s (suc n) = let rest = back_up s n in if is_char_boundary s (suc n) then suc n else rest

pub set_with_cursor : Text → ℕ → Editor
set_with_cursor s n = record { text = s; cursor = back_up s (min n (bytes s)) }

pub clear : Editor → Editor
clear e = record { text = []; cursor = 0 }

-- `take` returns the text and leaves the default.
pub take : Editor → Text × Editor
take e = (e.text, record { text = []; cursor = 0 })

pub insert : Editor → ℕ → Option Editor
insert e ch = split e.text e.cursor >>= λ p.
    some (record { text = p.0 ++ ch ∷ p.1; cursor = e.cursor + len_utf8 ch })

-- The outer option is a panic, the inner one the result.
pub prev_boundary : Editor → Option (Option ℕ)
prev_boundary e =
    if e.cursor == 0 then some none else (split e.text e.cursor >>= λ p. some (last_index p.0))

-- `chars().next()?` on the rest, plus the width of the character.
after_first : ℕ → Text → Option ℕ
after_first n [] = none
after_first n (c ∷ cs) = some (n + len_utf8 c)

pub next_boundary : Editor → Option (Option ℕ)
unfolding after_first
next_boundary e =
    if leb (bytes e.text) e.cursor
    then some none
    else (split e.text e.cursor >>= λ p. some (after_first e.cursor p.1))

-- `text.drain(from..to)`
pub drain : Text → ℕ → ℕ → Option Text
drain s from to = do p ← split s to; q ← split p.0 from; some (q.0 ++ p.1)

pub backspace : Editor → Option (Editor × Bool)
backspace e = prev_boundary e >>= λ b. elim b [
  | none ↦ some (e, false)
  | some prev ↦ do t ← drain e.text prev e.cursor; some (record { text = t; cursor = prev }, true)
]

pub delete : Editor → Option (Editor × Bool)
delete e = next_boundary e >>= λ b. elim b [
  | none ↦ some (e, false)
  | some next ↦ do t ← drain e.text e.cursor next; some (record e { text = t }, true)
]

pub left : Editor → Option (Editor × Bool)
left e = prev_boundary e >>= λ b. elim b [
  | none ↦ some (e, false)
  | some prev ↦ some (record e { cursor = prev }, true)
]

pub right : Editor → Option (Editor × Bool)
right e = next_boundary e >>= λ b. elim b [
  | none ↦ some (e, false)
  | some next ↦ some (record e { cursor = next }, true)
]

pub home : Editor → Editor × Bool
home e = if e.cursor == 0 then (e, false) else (record e { cursor = 0 }, true)

pub to_end : Editor → Editor × Bool
to_end e =
    if e.cursor == bytes e.text then (e, false) else (record e { cursor = bytes e.text }, true)

pub kill_before : Editor → Option (Editor × Bool)
kill_before e =
    if e.cursor == 0
    then some (e, false)
    else (drain e.text 0 e.cursor >>= λ t. some (record { text = t; cursor = 0 }, true))

pub kill_after : Editor → Option (Editor × Bool)
kill_after e =
    if e.cursor == bytes e.text
    then some (e, false)
    else (split e.text e.cursor >>= λ p. some (record e { text = p.0 }, true))

-- Characters before and behind the cursor.
pub count_chars : Text → ℕ
count_chars [] = 0
count_chars (c ∷ cs) = suc (count_chars cs)

pub cursor_chars : Editor → Option ℕ
cursor_chars e = split e.text e.cursor >>= λ p. some (count_chars p.0)

pub chars_after_cursor : Editor → Option ℕ
chars_after_cursor e = split e.text e.cursor >>= λ p. some (count_chars p.1)

first_or_space : Text → ℕ
first_or_space [] = b' '
first_or_space (c ∷ cs) = c

-- One of the two loops of `delete_prev_word`, with fuel: go back while the character before the
-- cursor is whitespace, or while it is not. Each round moves the cursor back, so `cursor` rounds
-- and one for the test are enough; `none` also stands for the end of the fuel.
pub back_while : Bool → ℕ → Editor → Option Editor
unfolding first_or_space
back_while space zero e = none
back_while space (suc n) e = prev_boundary e >>= λ b. elim b [
  | none ↦ some e
  | some prev ↦ do
    p ← split e.text e.cursor
    q ← split p.0 prev
    (let rest = back_while space n (record e { cursor = prev }) in
        if is_whitespace (first_or_space q.1)
        then (if space then rest else some e)
        else if space
        then some e
        else rest)
]

pub delete_prev_word : Editor → Option (Editor × Bool)
delete_prev_word e = if e.cursor == 0 then some (e, false) else (do
  a ← back_while true (suc e.cursor) e
  b ← back_while false (suc a.cursor) a
  t ← drain b.text b.cursor e.cursor
  some (record { text = t; cursor = b.cursor }, true))

-- What the shell does on a key.
pub data Key : Type 0 where
  insert_key : ℕ → Key
  backspace_key delete_key left_key right_key home_key end_key : Key
  kill_before_key kill_after_key delete_prev_word_key : Key

pub step : Editor → Key → Option (Editor × Bool)
step e (insert_key ch) = insert e ch >>= λ e'. some (e', true)
step e backspace_key = backspace e
step e delete_key = delete e
step e left_key = left e
step e right_key = right e
step e home_key = some (home e)
step e end_key = some (to_end e)
step e kill_before_key = kill_before e
step e kill_after_key = kill_after e
step e delete_prev_word_key = delete_prev_word e

pub run : Editor → List Key → Option Editor
run e [] = some e
run e (k ∷ ks) = step e k >>= λ r. run r.0 ks

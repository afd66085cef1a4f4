-- ===== src/Shell/Syntax.antt =====
-- apps/shell/src/parser.rs: tokens, commands and errors. A `String` is the list of its code points,
-- an error message is a constructor.
use felix.Prelude.{ℕ, List, Bool, ◌||◌, ◌&&◌, leb, ◌==◌}

abbrev pub Text : Type 0
Text = List ℕ

-- `PROTECTED`
abbrev pub protected_mark : ℕ
protected_mark = 0x1f

pub data RedirKind : Type 0 where
  in_file out_file append : RedirKind

pub data RedirTarget : Type 0 where
  path : Text → RedirTarget
  fd_of : ℕ → RedirTarget

pub record Redir : Type 0 where
  pub fd : ℕ
  pub kind : RedirKind
  pub target : RedirTarget

pub record SimpleCmd : Type 0 where
  pub args : List Text
  pub redirs : List Redir

pub data Connector : Type 0 where
  always and_then or_else : Connector

pub record CommandGroup : Type 0 where
  pub pipeline : List SimpleCmd
  pub background : Bool
  pub next : Connector

pub data Token : Type 0 where
  word : Text → Token
  pipe semi and_if or_if amp : Token
  redir : ℕ → RedirKind → Token
  dup : ℕ → ℕ → Token

pub data ParseError : Type 0 where
  bad_fd unfinished_escape unfinished_escape_quoted expected_fd bad_target : ParseError
  open_single open_double : ParseError
  empty_command no_command expected_path operator_needs_command : ParseError
  out_of_fuel : ParseError

pub data Parsed {ℓ} (A : Type ℓ) : Type ℓ where
  ok : A → Parsed A
  err : ParseError → Parsed A

infixl 5 ◌>>=◌
abbrev pub ◌>>=◌ {ℓ κ} : {A : Type ℓ} {B : Type κ} → Parsed A → (A → Parsed B) → Parsed B
ok a >>= f = f a
err e >>= f = err e

-- `char::is_ascii_digit`
abbrev pub is_digit : ℕ → Bool
is_digit c = leb b'0' c && leb c b'9'

-- `char::is_whitespace`: the code points with the Unicode property White_Space.
unfoldable pub is_whitespace : ℕ → Bool
is_whitespace c =
    (leb 9 c && leb c 13)
    || (c == 0x20)
    || (c == 0x85)
    || (c == 0xa0)
    || (c == 0x1680)
    || (leb 0x2000 c && leb c 0x200a)
    || (c == 0x2028)
    || (c == 0x2029)
    || (c == 0x202f)
    || (c == 0x205f)
    || (c == 0x3000)

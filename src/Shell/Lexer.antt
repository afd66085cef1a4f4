-- ===== src/Shell/Lexer.antt =====
-- apps/shell/src/parser.rs, `tokenize`. The iterator is the list of the characters left; one round
-- of the `while let` loop is `step`, which may take more than one character.
pub mod Fuel
pub mod Quote
pub mod RoundTrip
use felix.Prelude.{
  ℕ, zero, suc, ◌+◌, ◌-◌, ◌*◌, List, [], ◌∷◌, ◌++◌, Bool, true, false, ◌&&◌, ◌||◌, not, leb, ◌==◌,
  if◌then◌else◌, length,
}
use felix.Shell.Syntax.{
  Text, protected_mark, RedirKind, in_file, out_file, append, Token, word, pipe, semi, and_if,
  or_if, amp, redir, dup, bad_fd, unfinished_escape, unfinished_escape_quoted, expected_fd,
  bad_target, open_single, open_double, out_of_fuel, Parsed, ok, err, ◌>>=◌, is_digit,
  is_whitespace,
}

-- The variables of `tokenize`, but for the iterator.
pub record Lex : Type 0 where
  pub out : List Token
  pub cur : Text
  pub started : Bool
  pub single : Bool
  pub double : Bool

abbrev pub start : Lex
start = record { out = []; cur = []; started = false; single = false; double = false }

abbrev pub push : Lex → ℕ → Lex
push s c = record s { cur = s.cur ++ c ∷ [] }

abbrev pub emit : Lex → Token → Lex
emit s t = record s { out = s.out ++ t ∷ [] }

-- What `push_protected` appends.
unfoldable pub protected : ℕ → Text
protected c =
    if (c == b'$') || (c == b'~') || (c == protected_mark) then protected_mark ∷ c ∷ [] else c ∷ []

unfoldable pub push_protected : Lex → ℕ → Lex
push_protected s c = record s { cur = s.cur ++ protected c }

unfoldable pub flush_word : Lex → Lex
flush_word s =
    if s.started then record s { out = s.out ++ word s.cur ∷ []; cur = []; started = false } else s

abbrev pub all_digits : Text → Bool
all_digits [] = true
all_digits (c ∷ cs) = is_digit c && all_digits cs

unfoldable pub value : ℕ → Text → ℕ
value acc [] = acc
value acc (c ∷ cs) = value (acc * 10 + (c - b'0')) cs

-- `parse::<u8>()` of a text of digits.
unfoldable pub parse_u8 : Text → Bool × ℕ
parse_u8 cs = let n = value 0 cs in (leb n 255, n)

unfoldable pub take_fd_prefix : Lex → ℕ → Parsed (ℕ × Lex)
take_fd_prefix s default =
    if s.started && not (length s.cur == 0) && all_digits s.cur
    then (let (fits, fd) = parse_u8 s.cur in
        if fits then ok (fd, record s { cur = []; started = false }) else err bad_fd)
    else ok (default, flush_word s)

-- The digits that the iterator gives next, and what follows them.
unfoldable pub span_digits : Text → Text × Text
span_digits [] = ([], [])
span_digits (c ∷ cs) =
    let (ds, rest) = span_digits cs in if is_digit c then (c ∷ ds, rest) else ([], c ∷ cs)

-- `it.peek() == Some(&c)`
abbrev pub peeks : Text → ℕ → Bool
peeks [] c = false
peeks (d ∷ ds) c = d == c

abbrev pub tail : Text → Text
tail [] = []
tail (d ∷ ds) = ds

-- The two branches of `match` that follow `n>&`.
unfoldable pub step_dup : Lex → ℕ → Text → Parsed (Lex × Text)
step_dup s fd rest =
    let (digits, rest') = span_digits rest in
    let (fits, target) = parse_u8 digits in
    if length digits == 0
    then err expected_fd
    else if fits
    then ok (emit s (dup fd target), rest')
    else err bad_target

-- `<` and `>`, once the descriptor is known.
unfoldable pub step_redir_fd : ℕ → Text → ℕ → Lex → Parsed (Lex × Text)
step_redir_fd ch rest fd s =
    if ch == b'<'
    then ok (emit s (redir fd in_file), rest)
    else if peeks rest b'>'
    then ok (emit s (redir fd append), tail rest)
    else if peeks rest b'&'
    then step_dup s fd (tail rest)
    else ok (emit s (redir fd out_file), rest)

-- `<` and `>`.
unfoldable pub step_redir : Lex → ℕ → Text → Parsed (Lex × Text)
step_redir s ch rest =
    take_fd_prefix s (if ch == b'<' then 0 else 1) >>= λ r. step_redir_fd ch rest r.0 r.1

-- Outside quotes.
unfoldable pub step_plain : Lex → ℕ → Text → Parsed (Lex × Text)
step_plain s ch rest =
    if ch == b'\''
    then ok (record s { single = true; started = true }, rest)
    else if ch == b'"'
    then ok (record s { double = true; started = true }, rest)
    else if ch == b'\\'
    then elim rest [
      | [] ↦ err unfinished_escape
      | next ∷ rest' ↦ ok (push_protected (record s { started = true }) next, rest')
    ]
    else if is_whitespace ch
    then ok (flush_word s, rest)
    else if ch == b';'
    then ok (emit (flush_word s) semi, rest)
    else if ch == b'|'
    then (if peeks rest b'|'
        then ok (emit (flush_word s) or_if, tail rest)
        else ok (emit (flush_word s) pipe, rest))
    else if ch == b'&'
    then (if peeks rest b'&'
        then ok (emit (flush_word s) and_if, tail rest)
        else ok (emit (flush_word s) amp, rest))
    else if (ch == b'<') || (ch == b'>')
    then step_redir s ch rest
    else ok (push (record s { started = true }) ch, rest)

-- Inside double quotes.
unfoldable pub step_double : Lex → ℕ → Text → Parsed (Lex × Text)
step_double s ch rest =
    if ch == b'"'
    then ok (record s { double = false }, rest)
    else if ch == b'\\'
    then elim rest [
      | [] ↦ err unfinished_escape_quoted
      | next ∷ rest' ↦ ok (push_protected s next, rest')
    ]
    else ok (push (record s { started = true }) ch, rest)

unfoldable pub step : Lex → ℕ → Text → Parsed (Lex × Text)
step s ch rest =
    if s.single
    then (if ch == b'\''
        then ok (record s { single = false }, rest)
        else ok (push_protected s ch, rest))
    else if s.double
    then step_double s ch rest
    else step_plain s ch rest

-- What follows the loop.
unfoldable pub finish : Lex → Parsed (List Token)
finish s =
    if s.single
    then err open_single
    else if s.double
    then err open_double
    else ok (flush_word s).out

-- The loop, with fuel.
unfoldable pub lex : ℕ → Lex → Text → Parsed (List Token)
lex zero s cs = err out_of_fuel
lex (suc n) s [] = finish s
lex (suc n) s (c ∷ cs) = step s c cs >>= λ r. lex n r.0 r.1

-- Each round takes a character, so the fuel is more than enough.
unfoldable pub tokenize : Text → Parsed (List Token)
tokenize line = lex (suc (length line)) start line

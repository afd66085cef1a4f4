-- ===== src/Shell/Lexer/Quote.antt =====
-- A way to write tokens, and what `tokenize` does with them. Words stand in single
-- quotes, descriptors as three digits, and a space follows each token.
use felix.Prelude.{
  ℕ, ◌+◌, ◌/◌, ◌%◌, ◌≤◌, ◌<◌, ◌≡◌, ◌≢◌, refl, sym, ap, ◌∙◌, List, [], ◌∷◌, ◌++◌, append_assoc,
  append-nil, Bool, true, false, arith, All,
}
use felix.Shell.Syntax.{
  Text, in_file, out_file, append, Token, word, pipe, semi, and_if, or_if, amp, redir, dup, ok,
  is_whitespace,
}
use felix.Shell.Lexer.{
  Lex, protected, push_protected, step, step_plain, step_redir, step_redir_fd, step_dup,
  take_fd_prefix, flush_word, parse_u8, value, all_digits, span_digits,
}
use felix.Shell.Lexer.Fuel.{lexed, lexed-cons}

unfoldable pub protect : Text → Text
protect [] = []
protect (c ∷ cs) = protected c ++ protect cs

abbrev pub digits : ℕ → Text
digits n = (48 + n / 100) ∷ (48 + n / 10 % 10) ∷ (48 + n % 10) ∷ []

-- The token as text, in front of `rest`.
unfoldable pub print_token : Token → Text → Text
print_token (word w) rest = b'\'' ∷ (w ++ b'\'' ∷ b' ' ∷ rest)
print_token pipe rest = b'|' ∷ b' ' ∷ rest
print_token semi rest = b';' ∷ b' ' ∷ rest
print_token and_if rest = b'&' ∷ b'&' ∷ b' ' ∷ rest
print_token or_if rest = b'|' ∷ b'|' ∷ b' ' ∷ rest
print_token amp rest = b'&' ∷ b' ' ∷ rest
print_token (redir fd in_file) rest = digits fd ++ b'<' ∷ b' ' ∷ rest
print_token (redir fd out_file) rest = digits fd ++ b'>' ∷ b' ' ∷ rest
print_token (redir fd append) rest = digits fd ++ b'>' ∷ b'>' ∷ b' ' ∷ rest
print_token (dup fd target) rest = digits fd ++ b'>' ∷ b'&' ∷ (digits target ++ b' ' ∷ rest)

unfoldable pub print_tokens : List Token → Text
unfolding print_token
print_tokens [] = []
print_tokens (t ∷ ts) = print_token t (print_tokens ts)

-- A word without a single quote, descriptors that are bytes.
abbrev pub IsPrintable : Token → Type 0
IsPrintable (word w) = All (λ c. c ≢ b'\'') w
IsPrintable (redir fd kind) = fd < 256
IsPrintable (dup fd target) = (fd < 256) × (target < 256)
IsPrintable t = Unit {0}

-- The token read back: in a quoted word, what would be expanded is marked.
unfoldable pub read_back : Token → Token
read_back (word w) = word (protect w)
read_back t = t

abbrev pub idle : List Token → Lex
idle out = record { out = out; cur = []; started = false; single = false; double = false }

abbrev pub in_word : List Token → Text → Lex
in_word out cur = record { out = out; cur = cur; started = true; single = false; double = false }

abbrev pub in_quote : List Token → Text → Lex
in_quote out cur = record { out = out; cur = cur; started = true; single = true; double = false }

step_quoted :
    (out : List Token) (cur : Text) (c : ℕ) (rest : Text)
    → c ≢ b'\''
    → step (in_quote out cur) c rest ≡ ok (in_quote out (cur ++ protected c), rest)
unfolding step push_protected
step_quoted out cur c rest h = ground arith

pub lexed_quoted :
    (out : List Token) (cur w rest : Text)
    → All (λ c. c ≢ b'\'') w
    → lexed (in_quote out cur) (w ++ b'\'' ∷ rest) ≡ lexed (in_word out (cur ++ protect w)) rest
unfolding protect step
lexed_quoted out cur [] rest h =
    lexed-cons _ _ b'\'' rest rest refl
    ∙ ap (λ x. lexed (in_word out x) rest) (sym (append-nil cur))
lexed_quoted out cur (c ∷ w) rest h =
    lexed-cons _ _ c _ _ (step_quoted out cur c (w ++ b'\'' ∷ rest) h.0)
    ∙ lexed_quoted out (cur ++ protected c) w rest h.1
    ∙ ap (λ x. lexed (in_word out x) rest) (append_assoc cur (protected c) (protect w))

-- The space after a token ends the word before it.
pub lexed_space_word :
    (out : List Token) (cur rest : Text)
    → lexed (in_word out cur) (b' ' ∷ rest) ≡ lexed (idle (out ++ word cur ∷ [])) rest
unfolding step step_plain is_whitespace flush_word
lexed_space_word out cur rest = lexed-cons _ _ b' ' rest rest refl

pub lexed_space :
    (out : List Token) (rest : Text) → lexed (idle out) (b' ' ∷ rest) ≡ lexed (idle out) rest
unfolding step step_plain is_whitespace flush_word
lexed_space out rest = lexed-cons _ _ b' ' rest rest refl

step_digit :
    (out : List Token) (cur : Text) (b : Bool) (c : ℕ) (rest : Text)
    → 48 ≤ c
    → c ≤ 57
    → step (record (idle out) { cur = cur; started = b }) c rest
      ≡ ok (in_word out (cur ++ c ∷ []), rest)
unfolding step step_plain is_whitespace
step_digit out cur b c rest h k = ground arith

pub lexed-digits :
    (out : List Token) (n : ℕ) (rest : Text)
    → n < 256
    → lexed (idle out) (digits n ++ rest) ≡ lexed (in_word out (digits n)) rest
lexed-digits out n rest h =
    lexed-cons _ _ _ _ _ (step_digit out [] false (48 + n / 100) _ (omega arith) (omega arith))
    ∙ lexed-cons _ _ _ _ _ (step_digit out _ true (48 + n / 10 % 10) _ (omega arith) (omega arith))
    ∙ lexed-cons _ _ _ _ _ (step_digit out _ true (48 + n % 10) rest (omega arith) (omega arith))

value-digits : (n : ℕ) → n < 256 → value 0 (digits n) ≡ n
unfolding value
value-digits n h = omega arith

all_digits-digits : (n : ℕ) → n < 256 → all_digits (digits n) ≡ true
all_digits-digits n h = ground arith

take_fd-digits :
    (out : List Token) (n default : ℕ)
    → n < 256
    → take_fd_prefix (in_word out (digits n)) default ≡ ok (n, idle out)
unfolding take_fd_prefix parse_u8
take_fd-digits out n default h = ground (arith, value-digits n h, all_digits-digits n h)

span_digits-digits :
    (n : ℕ) (rest : Text)
    → n < 256
    → span_digits (digits n ++ b' ' ∷ rest) ≡ (digits n, b' ' ∷ rest)
unfolding span_digits
span_digits-digits n rest h = ground (arith, all_digits-digits n h)

pub step_in :
    (out : List Token) (fd : ℕ) (rest : Text)
    → fd < 256
    → step (in_word out (digits fd)) b'<' (b' ' ∷ rest)
      ≡ ok (idle (out ++ redir fd in_file ∷ []), b' ' ∷ rest)
unfolding step step_plain is_whitespace step_redir step_redir_fd
step_in out fd rest h = rw (take_fd-digits out fd 0 h)

pub step_out :
    (out : List Token) (fd : ℕ) (rest : Text)
    → fd < 256
    → step (in_word out (digits fd)) b'>' (b' ' ∷ rest)
      ≡ ok (idle (out ++ redir fd out_file ∷ []), b' ' ∷ rest)
unfolding step step_plain is_whitespace step_redir step_redir_fd
step_out out fd rest h = rw (take_fd-digits out fd 1 h)

pub step_append :
    (out : List Token) (fd : ℕ) (rest : Text)
    → fd < 256
    → step (in_word out (digits fd)) b'>' (b'>' ∷ b' ' ∷ rest)
      ≡ ok (idle (out ++ redir fd append ∷ []), b' ' ∷ rest)
unfolding step step_plain is_whitespace step_redir step_redir_fd
step_append out fd rest h = rw (take_fd-digits out fd 1 h)

step_dup-digits :
    (s : Lex) (fd target : ℕ) (rest : Text)
    → target < 256
    → step_dup s fd (digits target ++ b' ' ∷ rest)
      ≡ ok (record s { out = s.out ++ dup fd target ∷ [] }, b' ' ∷ rest)
unfolding step_dup parse_u8
step_dup-digits s fd target rest h =
    ground (arith, span_digits-digits target rest h, value-digits target h)

pub step_dup_mark :
    (out : List Token) (fd target : ℕ) (rest : Text)
    → fd < 256
    → target < 256
    → step (in_word out (digits fd)) b'>' (b'&' ∷ (digits target ++ b' ' ∷ rest))
      ≡ ok (idle (out ++ dup fd target ∷ []), b' ' ∷ rest)
unfolding step step_plain is_whitespace step_redir step_redir_fd
step_dup_mark out fd target rest h k =
    rw (take_fd-digits out fd 1 h) (step_dup-digits (idle out) fd target rest k)

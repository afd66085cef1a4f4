-- ===== src/Shell/Grammar.antt =====
-- apps/shell/src/parser.rs, `parse_line`: from tokens to groups of pipelines. The index into the
-- tokens is the list of the tokens left.
pub mod WellFormed
pub mod Print
pub mod RoundTrip
mod Tests
use felix.Prelude.{List, [], ◌∷◌, ◌++◌, Bool, true, false, ◌&&◌, ◌||◌, not, if◌then◌else◌}
use felix.Shell.Syntax.{
  Text, RedirKind, out_file, path, fd_of, Redir, SimpleCmd, Connector, always, and_then, or_else,
  CommandGroup, Token, word, pipe, semi, and_if, or_if, amp, redir, dup, empty_command, no_command,
  expected_path, operator_needs_command, Parsed, ok, err, ◌>>=◌,
}
use felix.Shell.Lexer.{tokenize}

abbrev pub is_empty {ℓ} : {A : Type ℓ} → List A → Bool
is_empty [] = true
is_empty (x ∷ xs) = false

-- `SimpleCmd::default()`
abbrev pub no_cmd : SimpleCmd
no_cmd = record { args = []; redirs = [] }

-- The variables of `parse_line`.
pub record Parse : Type 0 where
  pub groups : List CommandGroup
  pub pipeline : List SimpleCmd
  pub cmd : SimpleCmd

abbrev pub begin : Parse
begin = record { groups = []; pipeline = []; cmd = no_cmd }

abbrev pub add_arg : Parse → Text → Parse
add_arg s w = record s { cmd = record { args = s.cmd.args ++ w ∷ []; redirs = s.cmd.redirs } }

abbrev pub add_redir : Parse → Redir → Parse
add_redir s r = record s { cmd = record { args = s.cmd.args; redirs = s.cmd.redirs ++ r ∷ [] } }

pub finish_cmd : Parse → Parsed Parse
finish_cmd s =
    if is_empty s.cmd.args && is_empty s.cmd.redirs
    then err empty_command
    else if is_empty s.cmd.args
    then err no_command
    else ok (record s { pipeline = s.pipeline ++ s.cmd ∷ []; cmd = no_cmd })

abbrev pub close_group : Parse → Bool → Connector → Parse
close_group s background next = record s {
  groups = s.groups ++ record { pipeline = s.pipeline; background = background; next = next } ∷ [];
  pipeline = [];
}

pub finish_group : Parse → Bool → Connector → Parsed Parse
finish_group s background next = finish_cmd s >>= λ s'. ok (close_group s' background next)

-- The `while` loop; a redirection takes the token behind it too.
pub parse_loop : Parse → List Token → Parsed Parse
parse_loop s [] = ok s
parse_loop s (word w ∷ ts) = parse_loop (add_arg s w) ts
parse_loop s (redir fd kind ∷ word file ∷ ts) =
    parse_loop (add_redir s (record { fd = fd; kind = kind; target = path file })) ts
parse_loop s (redir fd kind ∷ ts) = err expected_path
parse_loop s (dup fd target ∷ ts) =
    parse_loop (add_redir s (record { fd = fd; kind = out_file; target = fd_of target })) ts
parse_loop s (pipe ∷ ts) = finish_cmd s >>= λ s'. parse_loop s' ts
parse_loop s (semi ∷ ts) = finish_group s false always >>= λ s'. parse_loop s' ts
parse_loop s (and_if ∷ ts) = finish_group s false and_then >>= λ s'. parse_loop s' ts
parse_loop s (or_if ∷ ts) = finish_group s false or_else >>= λ s'. parse_loop s' ts
parse_loop s (amp ∷ ts) = finish_group s true always >>= λ s'. parse_loop s' ts

abbrev pub is_operator : Token → Bool
is_operator pipe = true
is_operator and_if = true
is_operator or_if = true
is_operator t = false

-- `matches!(tokens.last(), Some(Pipe | AndIf | OrIf))`
pub ends_in_operator : List Token → Bool
ends_in_operator [] = false
ends_in_operator (t ∷ []) = is_operator t
ends_in_operator (t ∷ u ∷ ts) = ends_in_operator (u ∷ ts)

-- After the loop, the group that the end of the line closes.
pub close_last : List Token → Parse → Parsed Parse
close_last tokens s =
    if not (is_empty s.cmd.args) || not (is_empty s.cmd.redirs) || not (is_empty s.pipeline)
    then finish_group s false always
    else if ends_in_operator tokens
    then err operator_needs_command
    else ok s

-- The second test for a trailing operator.
pub parse_end : List Token → Parse → Parsed (List CommandGroup)
parse_end tokens s = close_last tokens s >>= λ s'.
    if ends_in_operator tokens then err operator_needs_command else ok s'.groups

-- `parse_line` behind `tokenize`.
pub parse_tokens : List Token → Parsed (List CommandGroup)
parse_tokens [] = ok []
parse_tokens (t ∷ ts) = parse_loop begin (t ∷ ts) >>= λ s. parse_end (t ∷ ts) s

pub parse_line : Text → Parsed (List CommandGroup)
parse_line line = tokenize line >>= parse_tokens

-- ===== src/Shell/Grammar/Tests.antt =====
-- Lines that the shell parses, and the theorems about its parser at them.
use felix.Prelude.{◌≡◌, refl, List, [], ◌∷◌, true, false, All}
use Prim.Native.String.{String}
use Prim.Native.Char.{code}
use felix.Shell.Syntax.{
  Text, out_file, append, path, fd_of, SimpleCmd, always, and_then, CommandGroup, Token, word,
  and_if, redir, dup, ok, err, is_whitespace, open_single,
}
use felix.Shell.Lexer.{
  tokenize, lex, step, step_plain, step_redir, step_redir_fd, step_dup, take_fd_prefix, span_digits,
  flush_word, finish, parse_u8, value, push_protected, protected,
}
use felix.Shell.Grammar.{
  parse_line, parse_tokens, parse_loop, finish_cmd, finish_group, close_last, parse_end,
  ends_in_operator,
}
use felix.Shell.Grammar.WellFormed.{GroupOk, parse_line-GroupOk}
use felix.Shell.Grammar.Print.{print_groups}
use felix.Shell.Grammar.RoundTrip.{parse_tokens-print_groups}

abbrev codes : String → Text
codes String.[] = []
codes (String.◌∷◌ c s) = code c ∷ codes s

abbrev cmd : List Text → SimpleCmd
cmd ws = record { args = ws; redirs = [] }

abbrev make_all : CommandGroup
make_all = record {
  pipeline =
      cmd (codes "make" ∷ [])
      ∷ record {
        args = codes "tee" ∷ codes "log" ∷ [];
        redirs =
            record { fd = 2; kind = out_file; target = fd_of 1 }
            ∷ record { fd = 1; kind = append; target = path (codes "out") }
            ∷ [];
      }
      ∷ [];
  background = false;
  next = and_then;
}

abbrev later : CommandGroup
later = record { pipeline = cmd (codes "sleep" ∷ []) ∷ []; background = true; next = always }

abbrev line : Text
line = codes "make | tee log 2>&1 >>out && sleep &"

line_parses : parse_line line ≡ ok (make_all ∷ later ∷ [])
unfolding parse_line tokenize lex step step_plain step_redir step_redir_fd step_dup take_fd_prefix
    span_digits flush_word finish parse_u8 value is_whitespace parse_tokens parse_loop finish_cmd
    finish_group close_last parse_end ends_in_operator
line_parses = refl

parse_line-GroupOk_example : All GroupOk (make_all ∷ later ∷ [])
parse_line-GroupOk_example = parse_line-GroupOk line (make_all ∷ later ∷ []) line_parses

make_all-GroupOk : All GroupOk (make_all ∷ later ∷ [])
make_all-GroupOk = parse_line-GroupOk line (make_all ∷ later ∷ []) line_parses

parse_tokens-print_groups_example :
    parse_tokens (print_groups (make_all ∷ later ∷ [])) ≡ ok (make_all ∷ later ∷ [])
parse_tokens-print_groups_example =
    parse_tokens-print_groups (make_all ∷ later ∷ []) make_all-GroupOk refl

abbrev some_tokens : List Token
some_tokens = word (codes "a $b") ∷ redir 2 append ∷ word (codes "x") ∷ dup 12 200 ∷ and_if ∷ []

unterminated : tokenize (codes "echo 'open") ≡ err open_single
unfolding tokenize lex step step_plain is_whitespace flush_word push_protected protected finish
unterminated = refl

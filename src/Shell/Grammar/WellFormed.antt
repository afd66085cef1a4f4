-- ===== src/Shell/Grammar/WellFormed.antt =====
-- What `parse_line` returns: its groups, pipelines and commands.
use felix.Prelude.{◌≡◌, refl, subst, List, [], ◌∷◌, ◌++◌, Bool, true, false, arith, All, All-append}
use felix.Shell.Syntax.{
  Text, out_file, path, fd_of, Redir, SimpleCmd, Connector, always, and_then, or_else, CommandGroup,
  Token, word, pipe, semi, and_if, or_if, amp, redir, dup, Parsed, ok, err, ◌>>=◌,
}
use felix.Shell.Lexer.{tokenize}
use felix.Shell.Grammar.{
  is_empty, Parse, begin, add_arg, add_redir, finish_cmd, finish_group, parse_loop, close_last,
  parse_end, parse_tokens, parse_line,
}

-- A descriptor is duplicated only by `n>&m`.
abbrev pub RedirOk : Redir → Type 0
RedirOk r = elim r.target [ path p ↦ Unit {0} | fd_of t ↦ r.kind ≡ out_file ]

pub record CmdOk (c : SimpleCmd) : Type 0 where
  pub named : is_empty c.args ≡ false
  pub redirections : All RedirOk c.redirs

-- Only a group that `;` or the end of the line closes, or one in the background, goes on always.
pub record GroupOk (g : CommandGroup) : Type 0 where
  pub runs : is_empty g.pipeline ≡ false
  pub commands : All CmdOk g.pipeline
  pub background_goes_on : g.background ≡ true → g.next ≡ always

record ParseOk (s : Parse) : Type 0 where
  closed : All GroupOk s.groups
  piped : All CmdOk s.pipeline
  current : All RedirOk s.cmd.redirs

abbrev Keeps {ℓ κ} : {A : Type ℓ} → (A → Type κ) → Parsed A → Type κ
Keeps P (ok a) = P a
Keeps P (err e) = Unit

bind-Keeps {ℓ κ μ ν} :
    {A : Type ℓ} {B : Type κ} (P : A → Type μ) (Q : B → Type ν) (m : Parsed A) (f : A → Parsed B)
    → Keeps P m
    → ((a : A) → P a → Keeps Q (f a))
    → Keeps Q (m >>= f)
bind-Keeps P Q (ok a) f p q = q a p
bind-Keeps P Q (err e) f p q = tt

any-Keeps {ℓ} : {A : Type ℓ} (m : Parsed A) → Keeps (λ _. Unit {0}) m
any-Keeps (ok a) = tt
any-Keeps (err e) = tt

-- A finished command leaves a pipeline with a command in it.
record Closed (s : Parse) : Type 0 where
  parse_ok : ParseOk s
  runs : is_empty s.pipeline ≡ false

is_empty-snoc {ℓ} : {A : Type ℓ} (xs : List A) (x : A) → is_empty (xs ++ x ∷ []) ≡ false
is_empty-snoc [] x = refl
is_empty-snoc (y ∷ xs) x = refl

finish_cmd-Closed : (s : Parse) → ParseOk s → Keeps Closed (finish_cmd s)
unfolding finish_cmd
finish_cmd-Closed s p = ground (
  arith,
  p.closed,
  All-append CmdOk s.pipeline (s.cmd ∷ []) p.piped,
  p.current,
  is_empty-snoc s.pipeline s.cmd,
)

finish_group-ParseOk :
    (s : Parse) (background : Bool) (next : Connector)
    → ParseOk s
    → (background ≡ true → next ≡ always)
    → Keeps ParseOk (finish_group s background next)
unfolding finish_group
finish_group-ParseOk s background next p h =
    bind-Keeps Closed ParseOk (finish_cmd s) _ (finish_cmd-Closed s p) λ t c. record {
      closed =
          All-append GroupOk t.groups _ c.parse_ok.closed
            (record { runs = c.runs; commands = c.parse_ok.piped; background_goes_on = h }, tt);
      piped = tt;
      current = c.parse_ok.current;
    }

parse_loop-ParseOk : (s : Parse) (ts : List Token) → ParseOk s → Keeps ParseOk (parse_loop s ts)
unfolding parse_loop
parse_loop-ParseOk s [] p = p
parse_loop-ParseOk s (word w ∷ ts) p =
    parse_loop-ParseOk (add_arg s w) ts
      (record { closed = p.closed; piped = p.piped; current = p.current })
parse_loop-ParseOk s (redir fd kind ∷ []) p = tt
parse_loop-ParseOk s (redir fd kind ∷ word file ∷ ts) p =
    parse_loop-ParseOk (add_redir s (record { fd = fd; kind = kind; target = path file })) ts
      (record {
        closed = p.closed;
        piped = p.piped;
        current = All-append RedirOk s.cmd.redirs _ p.current (tt, tt);
      })
parse_loop-ParseOk s (redir fd kind ∷ _ ∷ ts) p = tt
parse_loop-ParseOk s (dup fd target ∷ ts) p =
    parse_loop-ParseOk (add_redir s (record { fd = fd; kind = out_file; target = fd_of target })) ts
      (record {
        closed = p.closed;
        piped = p.piped;
        current = All-append RedirOk s.cmd.redirs _ p.current (refl, tt);
      })
parse_loop-ParseOk s (pipe ∷ ts) p =
    bind-Keeps Closed ParseOk (finish_cmd s) _ (finish_cmd-Closed s p)
      (λ t c. parse_loop-ParseOk t ts c.parse_ok)
parse_loop-ParseOk s (semi ∷ ts) p =
    bind-Keeps ParseOk ParseOk (finish_group s false always) _
      (finish_group-ParseOk s false always p (λ h. refl)) (λ t c. parse_loop-ParseOk t ts c)
parse_loop-ParseOk s (and_if ∷ ts) p =
    bind-Keeps ParseOk ParseOk (finish_group s false and_then) _
      (finish_group-ParseOk s false and_then p (λ h. cc)) (λ t c. parse_loop-ParseOk t ts c)
parse_loop-ParseOk s (or_if ∷ ts) p =
    bind-Keeps ParseOk ParseOk (finish_group s false or_else) _
      (finish_group-ParseOk s false or_else p (λ h. cc)) (λ t c. parse_loop-ParseOk t ts c)
parse_loop-ParseOk s (amp ∷ ts) p =
    bind-Keeps ParseOk ParseOk (finish_group s true always) _
      (finish_group-ParseOk s true always p (λ h. refl)) (λ t c. parse_loop-ParseOk t ts c)

close_last-ParseOk :
    (tokens : List Token) (s : Parse) → ParseOk s → Keeps ParseOk (close_last tokens s)
unfolding close_last
close_last-ParseOk tokens s p = ground (arith, p, finish_group-ParseOk s false always p (λ h. refl))

parse_end-GroupOk :
    (tokens : List Token) (s : Parse) → ParseOk s → Keeps (All GroupOk) (parse_end tokens s)
unfolding parse_end
parse_end-GroupOk tokens s p =
    bind-Keeps ParseOk (All GroupOk) (close_last tokens s) _ (close_last-ParseOk tokens s p)
      (λ t c. ground (arith, c.closed))

parse_tokens-GroupOk : (ts : List Token) → Keeps (All GroupOk) (parse_tokens ts)
unfolding parse_tokens
parse_tokens-GroupOk [] = tt
parse_tokens-GroupOk (t ∷ ts) =
    bind-Keeps ParseOk (All GroupOk) _ _
      (parse_loop-ParseOk begin (t ∷ ts) (record { closed = tt; piped = tt; current = tt }))
      (λ s p. parse_end-GroupOk (t ∷ ts) s p)

-- Whatever line `parse_line` accepts, each group it returns has a command in its pipeline, each
-- command has a name, each duplicated descriptor is an output, and a group in the background is
-- followed by the next one whatever happens.
pub parse_line-GroupOk :
    (line : Text) (gs : List CommandGroup) → parse_line line ≡ ok gs → All GroupOk gs
unfolding parse_line
parse_line-GroupOk line gs h = subst (Keeps (All GroupOk)) h (
    bind-Keeps (λ _. Unit {0}) (All GroupOk) (tokenize line) parse_tokens
      (any-Keeps (tokenize line)) (λ ts _. parse_tokens-GroupOk ts))

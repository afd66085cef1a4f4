-- ===== src/Shell/Grammar/RoundTrip.antt =====
-- The parser on command groups that are written as tokens.
use felix.Prelude.{ℕ, ◌≡◌, refl, ◌∙◌, List, [], ◌∷◌, Bool, true, false, All}
use felix.Shell.Syntax.{
  Text, RedirKind, RedirTarget, path, fd_of, Redir, SimpleCmd, always, CommandGroup, Token, word,
  pipe, redir, dup, ok, ◌>>=◌,
}
use felix.Shell.Grammar.{
  is_empty, no_cmd, begin, parse_loop, ends_in_operator, close_last, parse_end, parse_tokens,
}
use felix.Shell.Grammar.WellFormed.{GroupOk}
use felix.Shell.Grammar.Print.{
  print_args, print_redir, print_redirs, print_cmd, print_pipeline, closer, print_groups, at_cmd,
  loop_groups,
}

-- Behind another token, the last token is the same.
ends_skip :
    (t : Token) (ts : List Token)
    → is_empty ts ≡ false
    → ends_in_operator (t ∷ ts) ≡ ends_in_operator ts
unfolding ends_in_operator
ends_skip t [] h = absurd (cc)
ends_skip t (u ∷ ts) h = refl

-- `ts` in front of something else: it does not change how the line ends.
record Leads (ts rest : List Token) : Type 0 where
  some_token : is_empty ts ≡ false
  ends : ends_in_operator ts ≡ ends_in_operator rest

Leads-refl : (rest : List Token) → is_empty rest ≡ false → Leads rest rest
Leads-refl rest h = record { some_token = h; ends = refl }

Leads-cons : (t : Token) (ts rest : List Token) → Leads ts rest → Leads (t ∷ ts) rest
Leads-cons t ts rest l = record { some_token = refl; ends = ends_skip t ts l.some_token ∙ l.ends }

args-Leads : (ws : List Text) (ts rest : List Token) → Leads ts rest → Leads (print_args ws ts) rest
unfolding print_args
args-Leads [] ts rest l = l
args-Leads (w ∷ ws) ts rest l = Leads-cons (word w) _ rest (args-Leads ws ts rest l)

redir-Leads :
    (fd : ℕ) (kind : RedirKind) (t : RedirTarget) (ts rest : List Token)
    → Leads ts rest
    → Leads (print_redir fd kind t ts) rest
unfolding print_redir
redir-Leads fd kind (path file) ts rest l =
    Leads-cons (redir fd kind) _ rest (Leads-cons (word file) ts rest l)
redir-Leads fd kind (fd_of n) ts rest l = Leads-cons (dup fd n) ts rest l

redirs-Leads :
    (rs : List Redir) (ts rest : List Token) → Leads ts rest → Leads (print_redirs rs ts) rest
unfolding print_redirs
redirs-Leads [] ts rest l = l
redirs-Leads (r ∷ rs) ts rest l =
    redir-Leads r.fd r.kind r.target _ rest (redirs-Leads rs ts rest l)

pipeline-Leads :
    (cs : List SimpleCmd) (ts rest : List Token) → Leads ts rest → Leads (print_pipeline cs ts) rest
unfolding print_pipeline print_cmd
pipeline-Leads [] ts rest l = l
pipeline-Leads (c ∷ []) ts rest l = args-Leads c.args _ rest (redirs-Leads c.redirs ts rest l)
pipeline-Leads (c ∷ d ∷ cs) ts rest l =
    args-Leads c.args _ rest
      (redirs-Leads c.redirs _ rest (Leads-cons pipe _ rest (pipeline-Leads (d ∷ cs) ts rest l)))

-- The line does not end in `&&` or `||`.
abbrev pub EndsWell : List CommandGroup → Type 0
EndsWell [] = Unit {0}
EndsWell (g ∷ []) = g.next ≡ always
EndsWell (g ∷ h ∷ gs) = EndsWell (h ∷ gs)

closer_ends : (b : Bool) → ends_in_operator (closer b always ∷ []) ≡ false
unfolding closer ends_in_operator
closer_ends true = refl
closer_ends false = refl

print_groups-some :
    (g : CommandGroup) (gs : List CommandGroup) → is_empty (print_groups (g ∷ gs)) ≡ false
unfolding print_groups
print_groups-some g gs =
    (pipeline-Leads g.pipeline _ _
      (Leads-refl (closer g.background g.next ∷ print_groups gs) refl)).some_token

groups_end : (gs : List CommandGroup) → EndsWell gs → ends_in_operator (print_groups gs) ≡ false
unfolding print_groups ends_in_operator
groups_end [] h = refl
groups_end (g ∷ []) h =
    let l = pipeline-Leads g.pipeline _ _ (Leads-refl (closer g.background g.next ∷ []) refl) in
    l.ends ∙ rw h (closer_ends g.background)
groups_end (g ∷ k ∷ gs) h =
    let l =
      pipeline-Leads g.pipeline _ _
        (Leads-refl (closer g.background g.next ∷ print_groups (k ∷ gs)) refl) in
    l.ends
    ∙ ends_skip (closer g.background g.next) (print_groups (k ∷ gs)) (print_groups-some k gs)
    ∙ groups_end (k ∷ gs) h

parse_end-ok :
    (ts : List Token) (gs : List CommandGroup)
    → ends_in_operator ts ≡ false
    → parse_end ts (at_cmd gs [] no_cmd) ≡ ok gs
unfolding parse_end close_last
parse_end-ok ts gs h = rw h

parse_tokens-eq :
    (ts : List Token)
    → is_empty ts ≡ false
    → parse_tokens ts ≡ (parse_loop begin ts >>= λ s. parse_end ts s)
unfolding parse_tokens
parse_tokens-eq [] h = absurd (cc)
parse_tokens-eq (t ∷ ts) h = refl

-- The parser reads back any list of command groups that `parse_line` could have returned and that
-- does not end in `&&` or `||`: written as tokens, with each command's redirections behind its
-- arguments, it parses to the same groups.
pub parse_tokens-print_groups :
    (gs : List CommandGroup) → All GroupOk gs → EndsWell gs → parse_tokens (print_groups gs) ≡ ok gs
parse_tokens-print_groups [] h e = unfold parse_tokens print_groups in refl
parse_tokens-print_groups (g ∷ gs) h e =
    parse_tokens-eq (print_groups (g ∷ gs)) (print_groups-some g gs)
    ∙ rw (loop_groups [] (g ∷ gs) h)
        (parse_end-ok (print_groups (g ∷ gs)) (g ∷ gs) (groups_end (g ∷ gs) e))

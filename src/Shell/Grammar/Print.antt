-- ===== src/Shell/Grammar/Print.antt =====
-- A way to write command groups as tokens, and what the parser's loop makes of them.
use felix.Prelude.{
  ℕ, ◌≡◌, refl, sym, ap, ◌∙◌, List, [], ◌∷◌, ◌++◌, append_assoc, append-nil, Bool, true, false,
  arith, All,
}
use felix.Shell.Syntax.{
  Text, RedirKind, RedirTarget, path, fd_of, Redir, SimpleCmd, Connector, always, and_then, or_else,
  CommandGroup, Token, word, pipe, semi, and_if, or_if, amp, redir, dup, ok,
}
use felix.Shell.Grammar.{
  is_empty, no_cmd, Parse, add_arg, add_redir, finish_cmd, finish_group, parse_loop,
}
use felix.Shell.Grammar.WellFormed.{RedirOk, CmdOk, GroupOk}

unfoldable pub print_args : List Text → List Token → List Token
print_args [] rest = rest
print_args (w ∷ ws) rest = word w ∷ print_args ws rest

unfoldable pub print_redir : ℕ → RedirKind → RedirTarget → List Token → List Token
print_redir fd kind (path file) rest = redir fd kind ∷ word file ∷ rest
print_redir fd kind (fd_of target) rest = dup fd target ∷ rest

unfoldable pub print_redirs : List Redir → List Token → List Token
print_redirs [] rest = rest
print_redirs (r ∷ rs) rest = print_redir r.fd r.kind r.target (print_redirs rs rest)

unfoldable pub print_cmd : SimpleCmd → List Token → List Token
print_cmd c rest = print_args c.args (print_redirs c.redirs rest)

-- The commands of a pipeline, `|` between them.
unfoldable pub print_pipeline : List SimpleCmd → List Token → List Token
print_pipeline [] rest = rest
print_pipeline (c ∷ []) rest = print_cmd c rest
print_pipeline (c ∷ d ∷ cs) rest = print_cmd c (pipe ∷ print_pipeline (d ∷ cs) rest)

-- The token that closes a group.
unfoldable pub closer : Bool → Connector → Token
closer true next = amp
closer false always = semi
closer false and_then = and_if
closer false or_else = or_if

unfoldable pub print_groups : List CommandGroup → List Token
print_groups [] = []
print_groups (g ∷ gs) = print_pipeline g.pipeline (closer g.background g.next ∷ print_groups gs)

loop_args :
    (s : Parse) (ws : List Text) (rest : List Token)
    → parse_loop s (print_args ws rest)
      ≡ parse_loop
          (record s { cmd = record { args = s.cmd.args ++ ws; redirs = s.cmd.redirs } })
          rest
unfolding print_args parse_loop
loop_args s [] rest =
    ap (λ xs. parse_loop (record s { cmd = record { args = xs; redirs = s.cmd.redirs } }) rest)
      (sym (append-nil s.cmd.args))
loop_args s (w ∷ ws) rest =
    loop_args (add_arg s w) ws rest
    ∙ ap (λ xs. parse_loop (record s { cmd = record { args = xs; redirs = s.cmd.redirs } }) rest)
        (append_assoc s.cmd.args (w ∷ []) ws)

-- A redirection is read back as it was, if only an output is duplicated.
loop_redir :
    (s : Parse) (fd : ℕ) (kind : RedirKind) (target : RedirTarget) (rest : List Token)
    → RedirOk (record { fd = fd; kind = kind; target = target })
    → parse_loop s (print_redir fd kind target rest)
      ≡ parse_loop (add_redir s (record { fd = fd; kind = kind; target = target })) rest
unfolding print_redir parse_loop
loop_redir s fd kind (path file) rest h = refl
loop_redir s fd kind (fd_of n) rest h =
    ap (λ k. parse_loop (add_redir s (record { fd = fd; kind = k; target = fd_of n })) rest) (sym h)

loop_redirs :
    (s : Parse) (rs : List Redir) (rest : List Token)
    → All RedirOk rs
    → parse_loop s (print_redirs rs rest)
      ≡ parse_loop
          (record s { cmd = record { args = s.cmd.args; redirs = s.cmd.redirs ++ rs } })
          rest
unfolding print_redirs
loop_redirs s [] rest h =
    ap (λ xs. parse_loop (record s { cmd = record { args = s.cmd.args; redirs = xs } }) rest)
      (sym (append-nil s.cmd.redirs))
loop_redirs s (r ∷ rs) rest h =
    loop_redir s r.fd r.kind r.target (print_redirs rs rest) h.0
    ∙ loop_redirs (add_redir s r) rs rest h.1
    ∙ ap (λ xs. parse_loop (record s { cmd = record { args = s.cmd.args; redirs = xs } }) rest)
        (append_assoc s.cmd.redirs (r ∷ []) rs)

abbrev pub at_cmd : List CommandGroup → List SimpleCmd → SimpleCmd → Parse
at_cmd gs cs c = record { groups = gs; pipeline = cs; cmd = c }

loop_cmd :
    (gs : List CommandGroup) (cs : List SimpleCmd) (c : SimpleCmd) (rest : List Token)
    → CmdOk c
    → parse_loop (at_cmd gs cs no_cmd) (print_cmd c rest) ≡ parse_loop (at_cmd gs cs c) rest
unfolding print_cmd
loop_cmd gs cs c rest h =
    loop_args (at_cmd gs cs no_cmd) c.args (print_redirs c.redirs rest)
    ∙ loop_redirs (at_cmd gs cs (record { args = c.args; redirs = [] })) c.redirs rest
        h.redirections

finish_cmd-ok :
    (gs : List CommandGroup) (cs : List SimpleCmd) (c : SimpleCmd)
    → CmdOk c
    → finish_cmd (at_cmd gs cs c) ≡ ok (at_cmd gs (cs ++ c ∷ []) no_cmd)
unfolding finish_cmd
finish_cmd-ok gs cs c h = ground (arith, h.named)

finish_group-ok :
    (gs : List CommandGroup) (cs : List SimpleCmd) (c : SimpleCmd) (b : Bool) (next : Connector)
    → CmdOk c
    → finish_group (at_cmd gs cs c) b next
      ≡ ok (
          at_cmd
            (gs ++ record { pipeline = cs ++ c ∷ []; background = b; next = next } ∷ [])
            []
            no_cmd)
unfolding finish_group
finish_group-ok gs cs c b next h = rw (finish_cmd-ok gs cs c h)

loop_closer :
    (gs : List CommandGroup) (cs : List SimpleCmd) (c : SimpleCmd) (b : Bool) (next : Connector)
    (rest : List Token)
    → CmdOk c
    → (b ≡ true → next ≡ always)
    → parse_loop (at_cmd gs cs c) (closer b next ∷ rest)
      ≡ parse_loop
          (at_cmd
            (gs ++ record { pipeline = cs ++ c ∷ []; background = b; next = next } ∷ [])
            []
            no_cmd)
          rest
unfolding parse_loop closer
loop_closer gs cs c true next rest h k = rw (k refl, finish_group-ok gs cs c true always h)
loop_closer gs cs c false always rest h k = rw (finish_group-ok gs cs c false always h)
loop_closer gs cs c false and_then rest h k = rw (finish_group-ok gs cs c false and_then h)
loop_closer gs cs c false or_else rest h k = rw (finish_group-ok gs cs c false or_else h)

loop_pipeline :
    (gs : List CommandGroup) (done cs : List SimpleCmd) (b : Bool) (next : Connector)
    (rest : List Token)
    → is_empty cs ≡ false
    → All CmdOk cs
    → (b ≡ true → next ≡ always)
    → parse_loop (at_cmd gs done no_cmd) (print_pipeline cs (closer b next ∷ rest))
      ≡ parse_loop
          (at_cmd
            (gs ++ record { pipeline = done ++ cs; background = b; next = next } ∷ [])
            []
            no_cmd)
          rest
unfolding print_pipeline parse_loop
loop_pipeline gs done [] b next rest n h k = absurd (cc)
loop_pipeline gs done (c ∷ []) b next rest n h k =
    loop_cmd gs done c (closer b next ∷ rest) h.0 ∙ loop_closer gs done c b next rest h.0 k
loop_pipeline gs done (c ∷ d ∷ cs) b next rest n h k =
    loop_cmd gs done c (pipe ∷ print_pipeline (d ∷ cs) (closer b next ∷ rest)) h.0
    ∙ rw (finish_cmd-ok gs done c h.0) (
        loop_pipeline gs (done ++ c ∷ []) (d ∷ cs) b next rest refl h.1 k
        ∙ ap
            (λ xs.
              parse_loop
                (at_cmd (gs ++ record { pipeline = xs; background = b; next = next } ∷ []) []
                  no_cmd)
                rest)
            (append_assoc done (c ∷ []) (d ∷ cs)))

pub loop_groups :
    (gs hs : List CommandGroup)
    → All GroupOk hs
    → parse_loop (at_cmd gs [] no_cmd) (print_groups hs) ≡ ok (at_cmd (gs ++ hs) [] no_cmd)
unfolding print_groups
loop_groups gs [] h = unfold parse_loop in rw (append-nil)
loop_groups gs (g ∷ hs) h =
    loop_pipeline gs [] g.pipeline g.background g.next (print_groups hs) h.0.runs h.0.commands
      h.0.background_goes_on
    ∙ loop_groups (gs ++ g ∷ []) hs h.1
    ∙ ap (λ xs. ok (at_cmd xs [] no_cmd)) (append_assoc gs (g ∷ []) hs)

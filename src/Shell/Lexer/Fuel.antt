-- ===== src/Shell/Lexer/Fuel.antt =====
-- The fuel of `tokenize`: how many characters each round of its loop takes.
use felix.Prelude.{
  ℕ, zero, suc, ◌≤◌, ◌<◌, ◌≡◌, ◌≢◌, refl, subst, List, [], ◌∷◌, ◌==◌, if◌then◌else◌, length, arith,
}
use felix.Shell.Syntax.{Text, Token, ParseError, out_of_fuel, Parsed, ok, err, ◌>>=◌}
use felix.Shell.Lexer.{
  Lex, start, step, step_plain, step_double, step_redir, step_redir_fd, step_dup, take_fd_prefix,
  span_digits, finish, lex, tokenize, tail,
}

-- A round takes nothing back, and does not report the end of the fuel.
abbrev pub Takes : Text → Parsed (Lex × Text) → Type 0
Takes cs (ok (s, rest)) = length rest ≤ length cs
Takes cs (err e) = e ≢ out_of_fuel

span_digits-le : (cs : Text) → length (span_digits cs).1 ≤ length cs
unfolding span_digits
span_digits-le [] = omega arith
span_digits-le (c ∷ cs) = ground (arith, span_digits-le cs)

length-tail : (cs : Text) → length (tail cs) ≤ length cs
length-tail [] = omega arith
length-tail (c ∷ cs) = omega arith

step_dup-Takes :
    (s : Lex) (fd : ℕ) (cs rest : Text) → length rest ≤ length cs → Takes cs (step_dup s fd rest)
unfolding step_dup
step_dup-Takes s fd cs rest h = ground (arith, span_digits-le rest)

step_redir_fd-Takes : (ch : ℕ) (cs : Text) (fd : ℕ) (s : Lex) → Takes cs (step_redir_fd ch cs fd s)
unfolding step_redir_fd
step_redir_fd-Takes ch cs fd s =
    ground (arith, length-tail cs, step_dup-Takes s fd cs (tail cs) (length-tail cs))

fd_error :
    (s : Lex) (default : ℕ) (e : ParseError) → take_fd_prefix s default ≡ err e → e ≢ out_of_fuel
unfolding take_fd_prefix
fd_error s default e h = ground arith

step_redir-Takes : (s : Lex) (ch : ℕ) (cs : Text) → Takes cs (step_redir s ch cs)
unfolding step_redir
step_redir-Takes s ch cs = go (take_fd_prefix s (if ch == b'<' then 0 else 1)) refl
  where
    go :
        (r : Parsed (ℕ × Lex))
        → take_fd_prefix s (if ch == b'<' then 0 else 1) ≡ r
        → Takes cs (r >>= λ x. step_redir_fd ch cs x.0 x.1)
    go (ok (fd, s')) h = step_redir_fd-Takes ch cs fd s'
    go (err e) h = fd_error s (if ch == b'<' then 0 else 1) e h

step_double-Takes : (s : Lex) (ch : ℕ) (cs : Text) → Takes cs (step_double s ch cs)
unfolding step_double
step_double-Takes s ch [] = ground arith
step_double-Takes s ch (c ∷ cs) = ground arith

step_plain-Takes : (s : Lex) (ch : ℕ) (cs : Text) → Takes cs (step_plain s ch cs)
unfolding step_plain
step_plain-Takes s ch [] = ground (arith, step_redir-Takes s ch [])
step_plain-Takes s ch (c ∷ cs) = ground (arith, step_redir-Takes s ch (c ∷ cs))

step-Takes : (s : Lex) (ch : ℕ) (cs : Text) → Takes cs (step s ch cs)
unfolding step
step-Takes s ch cs = ground (arith, step_double-Takes s ch cs, step_plain-Takes s ch cs)

finish_error : (s : Lex) → finish s ≢ err out_of_fuel
unfolding finish
finish_error s = ground arith

-- With fuel beyond the length of the text, the loop does not run out of it.
lex-ne-out_of_fuel : (n : ℕ) (s : Lex) (cs : Text) → length cs < n → lex n s cs ≢ err out_of_fuel
unfolding lex
lex-ne-out_of_fuel zero s cs h = absurd (omega arith)
lex-ne-out_of_fuel (suc n) s [] h = finish_error s
lex-ne-out_of_fuel (suc n) s (c ∷ cs) h =
    go (step s c cs) (step-Takes s c cs) (λ s' rest. lex-ne-out_of_fuel n s' rest)
  where
    go :
        (r : Parsed (Lex × Text))
        → Takes cs r
        → ((s' : Lex) (rest : Text) → length rest < n → lex n s' rest ≢ err out_of_fuel)
        → (r >>= λ x. lex n x.0 x.1) ≢ err out_of_fuel
    go (ok (s', rest)) t ih = ih s' rest (omega arith)
    go (err e) t ih = λ k. t (cc)

-- `tokenize` always ends by reading the whole line or by a syntax error of its own: it never runs
-- out of the model's fuel.
tokenize_total : (line : Text) → tokenize line ≢ err out_of_fuel
unfolding tokenize
tokenize_total line = lex-ne-out_of_fuel (suc (length line)) start line (omega arith)

-- Any two amounts of fuel that suffice give the same.
pub lex_fuel :
    (n m : ℕ) (s : Lex) (cs : Text) → length cs < n → length cs < m → lex n s cs ≡ lex m s cs
unfolding lex
lex_fuel zero m s cs h k = absurd (omega arith)
lex_fuel (suc n) zero s cs h k = absurd (omega arith)
lex_fuel (suc n) (suc m) s [] h k = refl
lex_fuel (suc n) (suc m) s (c ∷ cs) h k =
    go (step s c cs) (step-Takes s c cs) (λ s' rest. lex_fuel n m s' rest)
  where
    go :
        (r : Parsed (Lex × Text))
        → Takes cs r
        → ((s' : Lex) (rest : Text)
            → length rest < n
            → length rest < m
            → lex n s' rest ≡ lex m s' rest)
        → (r >>= λ x. lex n x.0 x.1) ≡ (r >>= λ x. lex m x.0 x.1)
    go (ok (s', rest)) t ih = ih s' rest (omega arith) (omega arith)
    go (err e) t ih = refl

-- The loop with just enough fuel, and its rounds.
pub lexed : Lex → Text → Parsed (List Token)
lexed s cs = lex (suc (length cs)) s cs

pub lexed-nil : (s : Lex) → lexed s [] ≡ finish s
unfolding lexed lex
lexed-nil s = refl

pub lexed-cons :
    (s s' : Lex) (c : ℕ) (cs rest : Text)
    → step s c cs ≡ ok (s', rest)
    → lexed s (c ∷ cs) ≡ lexed s' rest
unfolding lexed lex
lexed-cons s s' c cs rest h =
    rw h
      (lex_fuel (suc (length cs)) (suc (length rest)) s' rest (omega (arith, taken)) (omega arith))
  where
    taken : length rest ≤ length cs
    taken = subst (Takes cs) h (step-Takes s c cs)

pub tokenize-eq : (line : Text) → tokenize line ≡ lexed start line
unfolding tokenize lexed
tokenize-eq line = refl

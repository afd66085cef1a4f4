-- ===== src/Pipe/Ring.antt =====
-- The ring buffer of one pipe: the bytes that it holds, and what its two loops do to them.
use felix.Prelude.{
  ℕ, zero, suc, ◌+◌, ◌-◌, ◌%◌, ◌≤◌, ◌<◌, min, ◌≡◌, refl, ap, ap₂, ◌∙◌, inl, inr, List, [], ◌∷◌,
  ◌++◌, append_assoc, append-nil, arith, ltb, Bool-cases, ltb→lt, ltb-false, get_or, set, take,
  drop, length, length-set, get_or-set_self, get_or-set_ne,
}
use felix.Pipe.{Pipe, pipe_buf_size, take_byte, read_loop, put_byte, write_loop}

-- The `n` bytes from index `t` on, round the end of the buffer.
unfoldable pub slots : List ℕ → ℕ → ℕ → List ℕ
slots buf t zero = []
slots buf t (suc n) = get_or buf t 0 ∷ slots buf ((t + 1) % pipe_buf_size) n

-- Oldest first.
abbrev pub contents : Pipe → List ℕ
contents p = slots p.buf p.tail p.len

pub record InRing (p : Pipe) : Type 0 where
  pub storage : length p.buf ≡ pipe_buf_size
  pub head_at : p.head ≡ (p.tail + p.len) % pipe_buf_size
  pub tail_in : p.tail < pipe_buf_size
  pub len_in : p.len ≤ pipe_buf_size

-- The loops move bytes and leave the pipe's ends alone.
pub record SameEnds (p q : Pipe) : Type 0 where
  pub readers : q.readers ≡ p.readers
  pub writers : q.writers ≡ p.writers
  pub in_use : q.in_use ≡ p.in_use

SameEnds-trans : {p q r : Pipe} → SameEnds p q → SameEnds q r → SameEnds p r
SameEnds-trans a b = record {
  readers = b.readers ∙ a.readers;
  writers = b.writers ∙ a.writers;
  in_use = b.in_use ∙ a.in_use;
}

pub length-slots : (buf : List ℕ) (t n : ℕ) → length (slots buf t n) ≡ n
unfolding slots
length-slots buf t zero = refl
length-slots buf t (suc n) = ap suc (length-slots buf ((t + 1) % pipe_buf_size) n)

slots-pos :
    (buf : List ℕ) (t n : ℕ)
    → 0 < n
    → slots buf t n ≡ get_or buf t 0 ∷ slots buf ((t + 1) % pipe_buf_size) (n - 1)
unfolding slots
slots-pos buf t zero h = absurd (omega arith)
slots-pos buf t (suc n) h = ap (λ k. slots buf t (suc k)) (omega arith)

-- A byte written just behind the stored ones is stored last.
slots-set :
    (buf : List ℕ) (n t i byte : ℕ)
    → length buf ≡ pipe_buf_size
    → n < pipe_buf_size
    → t < pipe_buf_size
    → i ≡ (t + n) % pipe_buf_size
    → slots (set buf i byte) t (suc n) ≡ slots buf t n ++ byte ∷ []
unfolding slots
slots-set buf zero t i byte l n_lt t_lt e =
    let here : i ≡ t = omega arith in rw here (rw (get_or-set_self buf t byte 0 (omega arith)))
slots-set buf (suc n) t i byte l n_lt t_lt e =
    ap₂ ◌∷◌ (get_or-set_ne buf i t byte 0 (omega arith))
      (slots-set buf n ((t + 1) % pipe_buf_size) i byte l (omega arith) (omega arith) (omega arith))

pub put_byte-InRing :
    (p : Pipe) (byte : ℕ) → InRing p → p.len < pipe_buf_size → InRing (put_byte p byte)
unfolding put_byte
put_byte-InRing p byte v room = record {
  storage = length-set p.buf p.head byte ∙ v.storage;
  head_at = omega arith;
  tail_in = v.tail_in;
  len_in = omega arith;
}

contents-put_byte :
    (p : Pipe) (byte : ℕ)
    → InRing p
    → p.len < pipe_buf_size
    → contents (put_byte p byte) ≡ contents p ++ byte ∷ []
unfolding put_byte
contents-put_byte p byte v room =
    let one : p.len + 1 ≡ suc p.len = omega arith in
    rw one (slots-set p.buf p.len p.tail p.head byte v.storage room v.tail_in v.head_at)

take_byte-InRing : (p : Pipe) → InRing p → 0 < p.len → InRing (take_byte p).1
unfolding take_byte
take_byte-InRing p v some_left = record {
  storage = v.storage;
  head_at = omega arith;
  tail_in = omega arith;
  len_in = omega arith;
}

contents-take_byte :
    (p : Pipe) → 0 < p.len → contents p ≡ (take_byte p).0 ∷ contents (take_byte p).1
unfolding take_byte
contents-take_byte p h = slots-pos p.buf p.tail p.len h

take_byte_ends : (p : Pipe) → SameEnds p (take_byte p).1
unfolding take_byte
take_byte_ends p = record { readers = refl; writers = refl; in_use = refl }

put_byte_ends : (p : Pipe) (byte : ℕ) → SameEnds p (put_byte p byte)
unfolding put_byte
put_byte_ends p byte = record { readers = refl; writers = refl; in_use = refl }

contents_nil : (p : Pipe) → p.len ≤ 0 → contents p ≡ []
unfolding slots
contents_nil p h = let none_left : p.len ≡ 0 = omega arith in ap (slots p.buf p.tail) none_left

-- What a run of the read loop leaves.
pub record Took (p : Pipe) (n : ℕ) (out : List ℕ × Pipe) : Type 0 where
  pub ring : InRing out.1
  pub ends : SameEnds p out.1
  pub bytes : out.0 ≡ take n (contents p)
  pub rest : contents out.1 ≡ drop n (contents p)

pub read_loop-Took : (n : ℕ) (p : Pipe) → InRing p → Took p n (read_loop n p)
unfolding read_loop
read_loop-Took zero p v = record {
  ring = v;
  ends = record { readers = refl; writers = refl; in_use = refl };
  bytes = refl;
  rest = refl;
}
read_loop-Took (suc n) p v = elim (Bool-cases (ltb 0 p.len)) [
  | inl more ↦
      let here = contents-take_byte p (ltb→lt 0 p.len more) in
      let ih = read_loop-Took n (take_byte p).1 (take_byte-InRing p v (ltb→lt 0 p.len more)) in
      rw more (record {
        ring = ih.ring;
        ends = SameEnds-trans (take_byte_ends p) ih.ends;
        bytes = rw here (ap (λ l. (take_byte p).0 ∷ l) ih.bytes);
        rest = rw here ih.rest;
      })
  | inr stop ↦
      let nil = contents_nil p (ltb-false 0 p.len stop) in
      rw stop (record {
        ring = v;
        ends = record { readers = refl; writers = refl; in_use = refl };
        bytes = rw nil;
        rest = rw nil;
      })
]

-- What a run of the write loop leaves.
pub record Put (p : Pipe) (src : List ℕ) (written : ℕ) (out : ℕ × Pipe) : Type 0 where
  pub ring : InRing out.1
  pub ends : SameEnds p out.1
  pub count : out.0 ≡ written + min (length src) (pipe_buf_size - p.len)
  pub bytes : contents out.1 ≡ contents p ++ take (pipe_buf_size - p.len) src

take-cons : (n x : ℕ) (xs : List ℕ) → 0 < n → take n (x ∷ xs) ≡ x ∷ take (n - 1) xs
take-cons zero x xs h = absurd (omega arith)
take-cons (suc n) x xs h = ap (λ k. x ∷ take k xs) (omega arith)

take-nil : (n : ℕ) → take {A = ℕ} n [] ≡ []
take-nil zero = refl
take-nil (suc n) = refl

len-put_byte : (p : Pipe) (byte : ℕ) → (put_byte p byte).len ≡ p.len + 1
unfolding put_byte
len-put_byte p byte = refl

Put-more :
    (p : Pipe) (byte : ℕ) (src : List ℕ) (written : ℕ) (out : ℕ × Pipe)
    → InRing p
    → p.len < pipe_buf_size
    → Put (put_byte p byte) src (written + 1) out
    → Put p (byte ∷ src) written out
Put-more p byte src written out v room ih = record {
  ring = ih.ring;
  ends = SameEnds-trans (put_byte_ends p byte) ih.ends;
  count = omega (arith, ih.count, len-put_byte p byte);
  bytes = rw (take-cons (pipe_buf_size - p.len) byte src (omega arith)) (
      ih.bytes
      ∙ ap₂ ◌++◌ (contents-put_byte p byte v room)
          (ap (λ k. take k src) (omega (arith, len-put_byte p byte)))
      ∙ append_assoc (contents p) (byte ∷ []) (take (pipe_buf_size - p.len - 1) src));
}

pub write_loop-Put :
    (p : Pipe) (src : List ℕ) (written : ℕ)
    → InRing p
    → Put p src written (write_loop p src written)
unfolding write_loop
write_loop-Put p [] written v = record {
  ring = v;
  ends = record { readers = refl; writers = refl; in_use = refl };
  count = omega arith;
  bytes = rw (take-nil, append-nil);
}
write_loop-Put p (byte ∷ src) written v = elim (Bool-cases (ltb p.len pipe_buf_size)) [
  | inl room ↦
      let fits = ltb→lt p.len pipe_buf_size room in
      rw room (
        Put-more p byte src written _ v fits
          (write_loop-Put (put_byte p byte) src (written + 1) (put_byte-InRing p byte v fits)))
  | inr full ↦
      let none_left : pipe_buf_size - p.len ≡ 0 =
        omega (arith, ltb-false p.len pipe_buf_size full) in
      rw full (record {
        ring = v;
        ends = record { readers = refl; writers = refl; in_use = refl };
        count = omega (arith, none_left);
        bytes = rw (none_left, append-nil);
      })
]

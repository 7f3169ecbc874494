-- ===== src/Lexer/Next.antt =====
-- `Next` of lexer/lexer.go on the states it meets: it skips white space and returns the token that
-- `Lexer.Scan` finds in the bytes that are left.
use lugo.Base.{
  ℕ, suc, ◌+◌, ◌≤◌, ◌≡◌, refl, Bool, true, false, ◌||◌, [], ◌∷◌, Bytes, drop, head_or, arith, ◌==◌,
  if◌then◌else◌, Bool-cases, inl, inr, drop-drop_to, ==_iff,
}
use lugo.Token.{Kind, Token}
use lugo.Lexer.Chars.{has_prop_meaning, is_letter, is_digit}
use lugo.Lexer.Machine.{Lexer, advance}
use lugo.Lexer.Readers.{
  emit, read_number, read_comment, read_string, read_backtick_string, read_long_string,
}
use lugo.Lexer.Scanner.{pair, next_less, next_greater, next_dot, next_word, dispatch, next}
use lugo.Lexer.State.{
  state, ahead, Suffix, Suffix-tail, Suffix-drop, Suffix-ahead, advance-cons, advance-state,
  ahead-head,
}
use lugo.Lexer.Spec.{string_len, through_len, bracket_scan, comment_len}
use lugo.Lexer.Scan.{
  numeral_len, spaces, choose, word_scan, less_scan, greater_scan, dot_scan, scan_after, scan,
}
use lugo.Lexer.Reads.{
  taken, emit-taken, skip_whitespace-state, read_string-state, read_backtick_string-state,
  read_long_string-state,
}
use lugo.Lexer.Bounds.{spaces-le}
use lugo.Lexer.Words.{read_ident-state, read_number-state, read_comment-state}

-- `x` is the answer of a reader that takes `r` of the bytes `cs` left at `i`.
record Answers (src : Bytes) (i : ℕ) (cs : Bytes) (start : ℕ) (r : Kind × ℕ) (x : Token × Lexer)
    : Type 0 where
  same : x ≡ taken src i cs start r

-- A test of the code answers as the same test of the description.
Answers-if :
    {src : Bytes} {i : ℕ} {cs : Bytes} {start : ℕ} (b : Bool) {x y : Token × Lexer} {u v : Kind × ℕ}
    → (b ≡ true → Answers src i cs start u x)
    → (b ≡ false → Answers src i cs start v y)
    → Answers src i cs start (if b then u else v) (if b then x else y)
Answers-if true f g = f refl
Answers-if false f g = g refl

infix 1 test◌yes◌no◌
-- The same, where the branches need no hypothesis.
test◌yes◌no◌ :
    {src : Bytes} {i : ℕ} {cs : Bytes} {start : ℕ} (b : Bool) {x y : Token × Lexer} {u v : Kind × ℕ}
    → Answers src i cs start u x
    → Answers src i cs start v y
    → Answers src i cs start (if b then u else v) (if b then x else y)
test b yes p no q = Answers-if b (λ _. p) λ _. q

-- In this section the first byte `c` of the token is at `i` and has been read.
module _ (src : Bytes) (i c : ℕ) (cs : Bytes) (s : Suffix src i (c ∷ cs)) where
  abbrev behind : Lexer
  behind = state src (i + 1) cs

  abbrev Answer : Kind × ℕ → Token × Lexer → Type 0
  Answer = Answers src (i + 1) cs i

  rest : Suffix src (i + 1) cs
  rest = Suffix-tail src i c cs s

  whole : (k : Kind) → Answer (k, 0) (emit k i behind)
  whole k = record { same = emit-taken src (i + 1) cs i k 0 (omega arith) refl }

  -- One more byte belongs to the token.
  longer :
      (k : Kind) (b : ℕ)
      → 1 ≤ b
      → (head_or 0 cs == b) ≡ true
      → Answer (k, 1) (emit k i (advance behind))
  longer k b h e = record { same = rw (advance-state src (i + 1) cs rest, ahead-head cs b h e) }

  pair-state :
      (b : ℕ) (k j : Kind) → 1 ≤ b → Answer (choose (head_or 0 cs == b) k j) (pair b k j i behind)
  unfolding pair
  pair-state b k j h = Answers-if (head_or 0 cs == b) (longer k b h) (λ _. whole j)

  next_less-state : Answer (less_scan (head_or 0 cs)) (next_less i behind)
  unfolding next_less less_scan
  next_less-state = Answers-if (head_or 0 cs == b'=') (longer Kind.less_eq b'=' (omega arith)) λ _.
      Answers-if (head_or 0 cs == b'<') (longer Kind.shift_left b'<' (omega arith))
        λ _. whole Kind.less

  next_greater-state : Answer (greater_scan (head_or 0 cs)) (next_greater i behind)
  unfolding next_greater greater_scan
  next_greater-state =
      Answers-if (head_or 0 cs == b'=') (longer Kind.greater_eq b'=' (omega arith)) λ _.
        Answers-if (head_or 0 cs == b'>') (longer Kind.shift_right b'>' (omega arith))
          λ _. whole Kind.greater

  number-state : Answer (Kind.number, numeral_len c cs) (read_number i behind)
  number-state = record { same = read_number-state src i c cs s }

  next_word-state : Answer (word_scan c cs) (next_word c i behind)
  unfolding next_word word_scan
  next_word-state =
      let (letter, digit, _, _) = has_prop_meaning c in
      rw (letter, digit)
        (Answers-if (is_letter c) (λ _. record { same = read_ident-state src i c cs s })
          λ _. Answers-if (is_digit c) (λ _. number-state) λ _. whole Kind.illegal)

  next_dot-state : c ≡ b'.' → Answer (dot_scan cs) (next_dot i behind)
  unfolding next_dot dot_scan
  next_dot-state e = rw (advance-state src (i + 1) cs rest) (
      Answers-if (head_or 0 cs == b'.')
        (λ d.
          let one = ahead-head cs b'.' (omega arith) d in
          Answers-if (head_or 0 (drop 1 cs) == b'.')
            (λ d'. record { same = dots one (ahead-head (drop 1 cs) b'.' (omega arith) d') })
            (λ _. record {
              same = emit-taken src (i + 1) cs i Kind.concat 1 (omega (arith, one)) refl;
            }))
        λ _. Answers-if (is_digit (head_or 0 cs)) (λ _. rw e at number-state) λ _. whole Kind.dot)
    where
      dots :
          ahead cs ≡ 1
          → ahead (drop 1 cs) ≡ 1
          → emit Kind.vararg i (advance (state src (i + 1 + ahead cs) (drop 1 cs)))
            ≡ taken src (i + 1) cs i (Kind.vararg, 2)
      dots one one' =
          rw (advance-state src (i + 1 + ahead cs) (drop 1 cs) (Suffix-ahead src (i + 1) cs rest)) (
            emit-taken src (i + 1) cs i Kind.vararg 2 (omega (arith, one, one'))
              (drop-drop_to 1 1 2 cs (omega arith)))

  comment-state :
      (head_or 0 cs == b'-') ≡ true → Answer (Kind.comment, comment_len cs) (read_comment i behind)
  comment-state e = record { same = comment_at cs rest e }
    where
      comment_at :
          (ds : Bytes)
          → Suffix src (i + 1) ds
          → (head_or 0 ds == b'-') ≡ true
          → read_comment i (state src (i + 1) ds)
            ≡ taken src (i + 1) ds i (Kind.comment, comment_len ds)
      comment_at [] h e = cc
      comment_at (d ∷ body) h e = read_comment-state src i (i + 1) d body h

  quoted-state : Answer (Kind.string, string_len c cs) (read_string i c behind)
  quoted-state = record { same = read_string-state src (i + 1) cs rest i c }

  backtick-state :
      Answer (Kind.backtick_string, through_len b'`' cs) (read_backtick_string i behind)
  backtick-state = record { same = read_backtick_string-state src (i + 1) cs rest i }

  bracket-state : Answer (bracket_scan cs) (read_long_string i behind)
  bracket-state = record { same = read_long_string-state src (i + 1) cs rest i }

  minus-state :
      Answer
        (if head_or 0 cs == b'-' then (Kind.comment, comment_len cs) else (Kind.minus, 0))
        (if head_or 0 cs == b'-' then read_comment i behind else emit Kind.minus i behind)
  minus-state = Answers-if (head_or 0 cs == b'-') comment-state λ _. whole Kind.minus

  dispatch-state : Answer (scan_after c cs) (dispatch c i behind)
  unfolding dispatch scan_after
  dispatch-state =
      test c == b'+'
      yes whole Kind.plus
      no test c == b'*'
      yes whole Kind.asterisk
      no test c == b'%'
      yes whole Kind.modulo
      no test c == b'^'
      yes whole Kind.caret
      no test c == b'&'
      yes whole Kind.bit_and
      no test c == b'|'
      yes whole Kind.bit_or
      no test c == b'#'
      yes whole Kind.hash
      no test c == b'('
      yes whole Kind.l_paren
      no test c == b')'
      yes whole Kind.r_paren
      no test c == b'{'
      yes whole Kind.l_brace
      no test c == b'}'
      yes whole Kind.r_brace
      no test c == b']'
      yes whole Kind.r_brack
      no test c == b';'
      yes whole Kind.semicolon
      no test c == b','
      yes whole Kind.comma
      no test c == b'-'
      yes minus-state
      no test c == b'/'
      yes pair-state b'/' Kind.floor_slash Kind.slash (omega arith)
      no test c == b'='
      yes pair-state b'=' Kind.eq Kind.assign (omega arith)
      no test c == b'~'
      yes pair-state b'=' Kind.not_eq Kind.bit_xor (omega arith)
      no test c == b'<'
      yes next_less-state
      no test c == b'>'
      yes next_greater-state
      no test c == b':'
      yes pair-state b':' Kind.double_colon Kind.colon (omega arith)
      no Answers-if (c == b'.') (λ e. next_dot-state ((==_iff c b'.').0 e))
          (λ _.
            test c == b'\'' || c == b'"'
            yes quoted-state
            no test c == b'`'
            yes backtick-state
            no test c == b'['
            yes (test head_or 0 cs == b'[' || head_or 0 cs == b'='
                yes bracket-state
                no whole Kind.l_brack)
            no next_word-state)

taken-suc :
    (src : Bytes) (i c : ℕ) (cs : Bytes) (r : Kind × ℕ)
    → taken src (i + 1) cs i r ≡ taken src i (c ∷ cs) i (r.0, suc r.1)
taken-suc src i c cs r = let e : i + 1 + r.1 ≡ i + suc r.1 = omega arith in rw e

-- What `Next` does behind the white space.
from_here : Lexer → Token × Lexer
from_here m =
    if m.ch == 0
    then (record { kind = Kind.eof; start = m.cursor; end = m.cursor }, m)
    else dispatch m.ch m.cursor (advance m)

from_here-state :
    (src : Bytes) (i : ℕ) (rest : Bytes)
    → Suffix src i rest
    → from_here (state src i rest) ≡ taken src i rest i (scan rest)
unfolding from_here scan
from_here-state src i [] s = emit-taken src i [] i Kind.eof 0 (omega arith) refl
from_here-state src i (c ∷ cs) s = elim (Bool-cases (c == 0)) [
  | inl e ↦ rw e (emit-taken src i (c ∷ cs) i Kind.eof 0 (omega arith) refl)
  | inr e ↦
      rw (e, advance-cons src i c cs s, (dispatch-state src i c cs s).same)
        (taken-suc src i c cs (scan_after c cs))
]

-- `Next`, with the bytes `rest` left at the cursor of a source below 2 ^ 32 bytes, skips the white
-- space in front of them, returns the token that `scan` finds in what follows, and moves to its end.
pub next-state :
    (src : Bytes) (i : ℕ) (rest : Bytes)
    → Suffix src i rest
    → let w = spaces rest in
      next (state src i rest) ≡ taken src (i + w) (drop w rest) (i + w) (scan (drop w rest))
unfolding next from_here
next-state src i rest s = rw (skip_whitespace-state src i rest s) (
    from_here-state src (i + spaces rest) (drop (spaces rest) rest)
      (Suffix-drop src i rest (spaces rest) s (spaces-le rest)))

-- ===== src/Lexer/Brackets.antt =====
-- How `Next` of lexer/lexer.go reads long strings and comments.
use lugo.Base.{
  ℕ, zero, suc, ◌+◌, ◌*◌, ◌≡◌, ◌≢◌, ◌⊎◌, ◌||◌, ◌&&◌, not, refl, ap, sym, ◌∙◌, Bool, true, false, [],
  ◌∷◌, ◌++◌, Bytes, length, drop, head_or, replicate, length-replicate, drop-append, arith, ◌==◌,
  inl, inr,
}
use lugo.Token.{Kind}
use lugo.Lexer.Machine.{Lexer}
use lugo.Lexer.Scanner.{next}
use lugo.Lexer.Spec.{span_len, closes, long_len, bracket_scan, before_len, comment_len}
use lugo.Lexer.Scan.{scan}
use lugo.Lexer.Tokens.{AllBytes}
use lugo.Lexer.Valid.{IsValid, left_of}
use lugo.Lexer.Literals.{token_at, next-scan, next-rest, span_len-append}

-- `[==[` and `]==]` without the first byte, with `n` signs `=`
abbrev pub opening : ℕ → Bytes → Bytes
opening n cs = replicate n b'=' ++ (b'[' ∷ cs)

abbrev pub closing : ℕ → Bytes → Bytes
closing n cs = replicate n b'=' ++ (b']' ∷ cs)

-- No closing bracket of level `n` begins in `body`, read with `tail` behind it, and no byte of it
-- is NUL.
abbrev pub StaysOpen : ℕ → Bytes → Bytes → Type 0
StaysOpen n tail [] = Unit {0}
StaysOpen n tail (c ∷ cs) =
    (c ≢ 0) × ((c == b']' && closes n (cs ++ tail)) ≡ false) × StaysOpen n tail cs

AllBytes-replicate : (n : ℕ) → AllBytes (λ c. c == b'=') (replicate n b'=')
AllBytes-replicate zero = tt
AllBytes-replicate (suc n) = (refl, AllBytes-replicate n)

-- A run of `n` signs `=` that ends at another byte.
signs :
    (n : ℕ) (rest : Bytes)
    → (head_or 0 rest == b'=') ≡ false
    → (span_len (λ c. c == b'=') (replicate n b'=' ++ rest) ≡ n)
      × (drop n (replicate n b'=' ++ rest) ≡ rest)
signs n rest stop = (
  (span_len-append _ (replicate n b'=') rest (AllBytes-replicate n) stop).0
      ∙ length-replicate n b'=',
  ap (λ k. drop k (replicate n b'=' ++ rest)) (sym (length-replicate n b'='))
      ∙ drop-append (replicate n b'=') rest,
)

closes-closing : (n : ℕ) (rest : Bytes) → closes n (closing n rest) ≡ true
closes-closing n rest =
    let (run, left) = signs n (b']' ∷ rest) refl in rw (run, left) (ground arith)

long_len-body :
    (n : ℕ) (body rest : Bytes)
    → StaysOpen n (b']' ∷ closing n rest) body
    → long_len n (body ++ (b']' ∷ closing n rest)) ≡ length body + (n + 2)
unfolding long_len
long_len-body n [] rest o = rw (closes-closing n rest) (omega arith)
long_len-body n (c ∷ cs) rest (nonzero, open_still, o) =
    ground (arith, nonzero, open_still, long_len-body n cs rest o)

body_left : (n : ℕ) (cs : Bytes) → drop (suc n) (opening n cs) ≡ cs
body_left zero cs = refl
body_left (suc n) cs = body_left n cs

bracket_scan-opening :
    (n : ℕ) (cs : Bytes) → bracket_scan (opening n cs) ≡ (Kind.string, suc (n + long_len n cs))
unfolding bracket_scan
bracket_scan-opening n cs =
    let (run, left) = signs n (b'[' ∷ cs) refl in
    let body : drop (suc n) (opening n cs) ≡ cs = body_left n cs in rw (run, left, body)

head-opening :
    (n : ℕ) (cs : Bytes)
    → (head_or 0 (opening n cs) == b'[' || head_or 0 (opening n cs) == b'=') ≡ true
head-opening zero cs = refl
head-opening (suc n) cs = refl

scan-bracket :
    (n : ℕ) (cs : Bytes) → scan (b'[' ∷ opening n cs) ≡ (Kind.string, suc (suc (n + long_len n cs)))
unfolding scan
scan-bracket n cs = rw (head-opening n cs, bracket_scan-opening n cs)

-- A long string of any level that stands at the cursor of a valid state is one token, up to the
-- first closing bracket of its level, for every body that holds no such bracket and no NUL byte.
pub next_long_string :
    (l : Lexer) (n : ℕ) (body rest : Bytes)
    → IsValid l
    → left_of l ≡ b'[' ∷ opening n (body ++ (b']' ∷ closing n rest))
    → StaysOpen n (b']' ∷ closing n rest) body
    → (next l).0 ≡ token_at l Kind.string (length body + 2 * (n + 2))
next_long_string l n body rest v e o =
    let width : suc (suc (n + (length body + (n + 2)))) ≡ length body + 2 * (n + 2) = omega arith in
    next-scan l (b'[' ∷ opening n (body ++ (b']' ∷ closing n rest))) v e refl
    ∙ rw (scan-bracket n (body ++ (b']' ∷ closing n rest)), long_len-body n body rest o, width)

scan-comment :
    (cs : Bytes) → scan (b'-' ∷ b'-' ∷ cs) ≡ (Kind.comment, suc (comment_len (b'-' ∷ cs)))
unfolding scan
scan-comment cs = refl

comment_len-bracket :
    (cs : Bytes)
    → (head_or 0 cs == b'[' || head_or 0 cs == b'=') ≡ true
    → comment_len (b'-' ∷ b'[' ∷ cs) ≡ suc (suc (bracket_scan cs).1)
unfolding comment_len
comment_len-bracket cs h = rw h

-- A long comment of any level that stands at the cursor of a valid state ends behind the first
-- closing bracket of its level, for every body that holds no such bracket and no NUL byte.
pub next_long_comment :
    (l : Lexer) (n : ℕ) (body rest : Bytes)
    → IsValid l
    → left_of l ≡ b'-' ∷ b'-' ∷ b'[' ∷ opening n (body ++ (b']' ∷ closing n rest))
    → StaysOpen n (b']' ∷ closing n rest) body
    → (next l).0 ≡ token_at l Kind.comment (length body + 2 * (n + 3))
next_long_comment l n body rest v e o =
    let inner = body ++ (b']' ∷ closing n rest) in
    let width : suc (suc (suc (suc (n + (length body + (n + 2)))))) ≡ length body + 2 * (n + 3) =
      omega arith in
    next-scan l (b'-' ∷ b'-' ∷ b'[' ∷ opening n inner) v e refl
    ∙ rw (
      scan-comment (b'[' ∷ opening n inner),
      comment_len-bracket (opening n inner) (head-opening n inner),
      bracket_scan-opening n inner,
      long_len-body n body rest o,
      width,
    )

-- The text of a comment is not read as the opening of a long bracket.
abbrev pub is_line : Bytes → Bool
is_line cs =
    not (head_or 0 cs == b'[' && (head_or 0 (drop 1 cs) == b'[' || head_or 0 (drop 1 cs) == b'='))

comment_len-line :
    (cs : Bytes) → is_line cs ≡ true → comment_len (b'-' ∷ cs) ≡ suc (before_len b'\n' cs)
unfolding comment_len
comment_len-line cs h = ground arith

span_len-all : (p : ℕ → Bool) (cs : Bytes) → AllBytes p cs → span_len p (cs ++ []) ≡ length cs
unfolding span_len
span_len-all p [] all = refl
span_len-all p (c ∷ cs) all = rw all.0 (ap suc (span_len-all p cs all.1))

-- A comment at the cursor of a valid state that does not begin like a long bracket, by `[[` or `[=`,
-- goes up to the line end, which is no part of it, or to the end of the source.
pub next_line_comment :
    (l : Lexer) (body rest : Bytes)
    → IsValid l
    → left_of l ≡ b'-' ∷ b'-' ∷ (body ++ rest)
    → is_line (body ++ rest) ≡ true
    → AllBytes (λ c. not (c == b'\n')) body
    → (rest ≡ []) ⊎ (head_or 0 rest ≡ b'\n')
    → (next l).0 ≡ token_at l Kind.comment (length body + 2)
unfolding before_len
next_line_comment l body rest v e line all end =
    let width : suc (suc (length body)) ≡ length body + 2 = omega arith in
    let run : span_len (λ c. not (c == b'\n')) (body ++ rest) ≡ length body = elim end [
      | inl nothing ↦ rw nothing (span_len-all _ body all)
      | inr newline ↦ (span_len-append _ body rest all (ground arith)).0
    ] in
    next-scan l (b'-' ∷ b'-' ∷ (body ++ rest)) v e refl
    ∙ rw (scan-comment (body ++ rest), comment_len-line (body ++ rest) line, run, width)

bracket_scan-false :
    (n : ℕ) (rest : Bytes)
    → let text = replicate n b'=' ++ rest in
      span_len (λ c. c == b'=') text ≡ n
      → drop n text ≡ rest
      → (head_or 0 rest == b'[') ≡ false
      → (bracket_scan text).1 ≡ n
unfolding bracket_scan
bracket_scan-false n rest run left other = rw (run, left, other)

-- A comment at the cursor of a valid state that begins with `[` and one or more signs `=`, but has
-- no second `[` behind them, ends behind the signs:
-- what follows them on the line is left to be read as code.
pub next_unopened_bracket :
    (l : Lexer) (n : ℕ) (rest : Bytes)
    → IsValid l
    → left_of l ≡ b'-' ∷ b'-' ∷ b'[' ∷ (replicate (suc n) b'=' ++ rest)
    → (head_or 0 rest == b'=' || head_or 0 rest == b'[') ≡ false
    → ((next l).0 ≡ token_at l Kind.comment (n + 4)) × (left_of (next l).1 ≡ rest)
next_unopened_bracket l n rest v e other =
    let text = replicate (suc n) b'=' ++ rest in
    let (run, left) = signs (suc n) rest (ground arith) in
    let width : suc (suc (suc (suc n))) ≡ n + 4 = omega arith in
    let found : scan (b'-' ∷ b'-' ∷ b'[' ∷ text) ≡ (Kind.comment, suc (suc (suc (suc n)))) =
      scan-comment (b'[' ∷ text)
      ∙ rw (
        comment_len-bracket text refl,
        bracket_scan-false (suc n) rest run left (ground arith),
      ) in
    (
      next-scan l (b'-' ∷ b'-' ∷ b'[' ∷ text) v e refl ∙ rw (found, width),
      next-rest l (b'-' ∷ b'-' ∷ b'[' ∷ text) v e refl ∙ rw found left,
    )

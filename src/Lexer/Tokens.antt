-- ===== src/Lexer/Tokens.antt =====
-- What `Next` of lexer/lexer.go promises of the token that it returns: its place in the source, the
-- white space in front of it, and when it is the end.
use lugo.Base.{
  ℕ, ◌+◌, ◌-◌, ◌≤◌, ◌<◌, ◌≡◌, ◌≢◌, refl, Bool, true, false, [], ◌∷◌, Bytes, length, take, drop,
  slice, head_or, drop-drop, arith, Bool-cases, inl, inr,
}
use lugo.Token.{Kind}
use lugo.Lexer.Machine.{Lexer}
use lugo.Lexer.Readers.{is_space}
use lugo.Lexer.Scanner.{next}
use lugo.Lexer.Bounds.{scan_bounds}
use lugo.Lexer.Spec.{span_len}
use lugo.Lexer.Scan.{spaces}
use lugo.Lexer.Valid.{IsValid, left_of, next-left, next-Suffix}

-- From a valid state, the token of `Next` lies in the source, behind the cursor; the scanner stands at its end over the
-- same source; only the end of the tokens is empty.
pub next_bounds :
    (l : Lexer)
    → IsValid l
    → let (t, m) = next l in
      (l.cursor ≤ t.start)
      × (t.start ≤ t.end)
      × (t.end ≤ length l.source)
      × (m.cursor ≡ t.end)
      × (m.source ≡ l.source)
      × (t.kind ≢ Kind.eof → t.start < t.end)
next_bounds l v =
    let w = spaces (left_of l) in
    let r = drop w (left_of l) in
    let inside = (next-Suffix l v).total in
    let some_byte = (scan_bounds r).1 in
    rw (next-left l v)
      (omega arith, omega arith, omega arith, refl, refl, λ h. let one = some_byte h in omega arith)

-- Every byte passes the test.
abbrev pub AllBytes : (ℕ → Bool) → Bytes → Type 0
AllBytes p [] = Unit {0}
AllBytes p (c ∷ cs) = (p c ≡ true) × AllBytes p cs

pub span_len-AllBytes : (p : ℕ → Bool) (cs : Bytes) → AllBytes p (take (span_len p cs) cs)
unfolding span_len
span_len-AllBytes p [] = tt
span_len-AllBytes p (c ∷ cs) = elim (Bool-cases (p c)) [
  | inl e ↦ rw e (e, span_len-AllBytes p cs)
  | inr e ↦ rw e tt
]

-- The run stops at a byte that fails the test, or at the end.
pub span_len_stop :
    (p : ℕ → Bool) (cs : Bytes) → p 0 ≡ false → p (head_or 0 (drop (span_len p cs) cs)) ≡ false
unfolding span_len
span_len_stop p [] h = h
span_len_stop p (c ∷ cs) h = elim (Bool-cases (p c)) [
  | inl e ↦ rw e (span_len_stop p cs h)
  | inr e ↦ rw e e
]

-- From a valid state, all bytes between the cursor and the token of `Next` are white space, and the byte that is left
-- at the token is none.
pub next_gap :
    (l : Lexer)
    → IsValid l
    → let t = (next l).0 in
      AllBytes is_space (slice l.cursor t.start l.source)
      × (is_space (head_or 0 (drop t.start l.source)) ≡ false)
unfolding spaces
next_gap l v =
    let n = span_len is_space (left_of l) in
    let width : l.cursor + n - l.cursor ≡ n = omega arith in
    rw (next-left l v, width, ← (drop-drop n l.cursor l.source))
      (span_len-AllBytes is_space (left_of l), span_len_stop is_space (left_of l) refl)

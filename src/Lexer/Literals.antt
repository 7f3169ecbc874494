-- ===== src/Lexer/Literals.antt =====
-- How `Next` of lexer/lexer.go reads words and quoted strings.
use lugo.Base.{
  ℕ, suc, ◌+◌, ◌≡◌, ◌≢◌, ◌||◌, refl, ap, ◌∙◌, Bool, true, false, [], ◌∷◌, ◌++◌, Bytes, length, take,
  drop, head_or, arith, ◌==◌, if◌then◌else◌, Bool-cases, inl, inr,
}
use lugo.Token.{Kind, Token}
use lugo.Lexer.Chars.{is_letter, is_ident}
use lugo.Lexer.Machine.{Lexer}
use lugo.Lexer.Readers.{is_space, keywords, find_kind}
use lugo.Lexer.Scanner.{next}
use lugo.Lexer.Spec.{span_len, string_len}
use lugo.Lexer.Scan.{spaces, word_scan, scan}
use lugo.Lexer.Tokens.{AllBytes}
use lugo.Lexer.Keywords.{IsKindOf, find_kind-IsKindOf}
use lugo.Lexer.Valid.{IsValid, left_of, next-left, next-Suffix}

abbrev pub token_at : Lexer → Kind → ℕ → Token
token_at l k n = record { kind = k; start = l.cursor; end = l.cursor + n }

spaces-zero : (cs : Bytes) → is_space (head_or 0 cs) ≡ false → spaces cs ≡ 0
unfolding spaces
spaces-zero [] h = refl
spaces-zero (c ∷ cs) h = rw h

-- With no white space in front, the token is the one that `scan` finds at the cursor.
pub next-scan :
    (l : Lexer) (cs : Bytes)
    → IsValid l
    → left_of l ≡ cs
    → is_space (head_or 0 cs) ≡ false
    → (next l).0 ≡ token_at l (scan cs).0 (scan cs).1
next-scan l cs v e h =
    let none = spaces-zero cs h in
    let same : l.cursor + 0 ≡ l.cursor = omega arith in rw (next-left l v, e, none, same)

-- What `Next` leaves then.
pub next-rest :
    (l : Lexer) (cs : Bytes)
    → IsValid l
    → left_of l ≡ cs
    → is_space (head_or 0 cs) ≡ false
    → left_of (next l).1 ≡ drop (scan cs).1 cs
next-rest l cs v e h =
    let none = spaces-zero cs h in rw (next-left l v) ((next-Suffix l v).left ∙ rw (e, none))

-- A run ends where the test first fails.
pub span_len-append :
    (p : ℕ → Bool) (cs rest : Bytes)
    → AllBytes p cs
    → p (head_or 0 rest) ≡ false
    → (span_len p (cs ++ rest) ≡ length cs) × (take (span_len p (cs ++ rest)) (cs ++ rest) ≡ cs)
unfolding span_len
span_len-append p [] [] all stop = (refl, refl)
span_len-append p [] (r ∷ rest) all stop = rw stop (refl, refl)
span_len-append p (c ∷ cs) rest all stop =
    let (n, t) = span_len-append p cs rest all.1 stop in rw all.0 (ap suc n, ap (◌∷◌ c) t)

scan-letter :
    (c : ℕ) (cs : Bytes)
    → is_letter c ≡ true
    → scan (c ∷ cs) ≡ (let n = span_len is_ident cs in (find_kind (c ∷ take n cs) keywords, suc n))
unfolding scan word_scan
scan-letter c cs h = ground arith

-- A word at the cursor of a valid state, that is a letter or `_` followed by all the letters,
-- digits and `_` there are, is one token: the keyword of Lua that is spelled like it, and an
-- identifier if there is none.
pub next_maximal_word :
    (l : Lexer) (c : ℕ) (cs rest : Bytes)
    → IsValid l
    → left_of l ≡ c ∷ (cs ++ rest)
    → is_letter c ≡ true
    → AllBytes is_ident cs
    → is_ident (head_or 0 rest) ≡ false
    → (k : Kind) × IsKindOf (c ∷ cs) k × ((next l).0 ≡ token_at l k (suc (length cs)))
next_maximal_word l c cs rest v e first others stop =
    let (n, t) = span_len-append is_ident cs rest others stop in
    (
      find_kind (c ∷ cs) keywords,
      find_kind-IsKindOf (c ∷ cs),
      next-scan l (c ∷ (cs ++ rest)) v e (ground arith)
          ∙ rw (scan-letter c (cs ++ rest) first, t, n),
    )

-- The text of a quoted string for any bytes: a backslash stands before each quote, backslash and
-- line end.
abbrev pub escape : ℕ → Bytes → Bytes
escape q [] = []
escape q (c ∷ cs) =
    if c == b'\\' || c == q || c == b'\n' then b'\\' ∷ c ∷ escape q cs else c ∷ escape q cs

string_len-plain :
    (q c : ℕ) (cs : Bytes)
    → (c == b'\\' || c == q || c == b'\n') ≡ false
    → string_len q (c ∷ cs) ≡ suc (string_len q cs)
unfolding string_len
string_len-plain q c [] h = ground arith
string_len-plain q c (d ∷ cs) h = ground arith

string_len-close : (q : ℕ) (cs : Bytes) → q ≢ b'\\' → string_len q (q ∷ cs) ≡ 1
unfolding string_len
string_len-close q [] h = ground arith
string_len-close q (d ∷ cs) h = ground arith

string_len-escaped :
    (q c : ℕ) (cs : Bytes) → string_len q (b'\\' ∷ c ∷ cs) ≡ suc (suc (string_len q cs))
unfolding string_len
string_len-escaped q c cs = refl

string_len-escape :
    (q : ℕ) (body rest : Bytes)
    → q ≢ b'\\'
    → string_len q (escape q body ++ (q ∷ rest)) ≡ suc (length (escape q body))
string_len-escape q [] rest h = string_len-close q rest h
string_len-escape q (c ∷ cs) rest h =
    let ih = string_len-escape q cs rest h in
    elim (Bool-cases (c == b'\\' || c == q || c == b'\n')) [
      | inl e ↦ rw (e, string_len-escaped) (ap suc (ap suc ih))
      | inr e ↦ rw (e, string_len-plain q c (escape q cs ++ (q ∷ rest)) e) (ap suc ih)
    ]

scan-quote :
    (q : ℕ) (cs : Bytes)
    → (q == b'\'' || q == b'"') ≡ true
    → scan (q ∷ cs) ≡ (Kind.string, suc (string_len q cs))
unfolding scan
scan-quote q cs h = ground arith

-- A quoted string at the cursor of a valid state, of any bytes with a backslash before each quote,
-- backslash and line end, is one token up to its closing quote.
pub next_quoted :
    (l : Lexer) (q : ℕ) (body rest : Bytes)
    → IsValid l
    → (q == b'\'' || q == b'"') ≡ true
    → left_of l ≡ q ∷ (escape q body ++ (q ∷ rest))
    → (next l).0 ≡ token_at l Kind.string (suc (suc (length (escape q body))))
next_quoted l q body rest v h e =
    next-scan l (q ∷ (escape q body ++ (q ∷ rest))) v e (ground arith)
    ∙ rw
        (scan-quote q (escape q body ++ (q ∷ rest)) h, string_len-escape q body rest (ground arith))

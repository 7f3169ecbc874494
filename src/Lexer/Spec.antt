-- ===== src/Lexer/Spec.antt =====
-- What the readers of lexer/lexer.go consume, as functions of the bytes that are left: no cursor,
-- no state and no fuel. Each `…_len` is a number of bytes.
use lugo.Base.{
  ℕ, suc, ◌+◌, Bool, not, ◌&&◌, ◌||◌, [], ◌∷◌, Bytes, drop, head_or, ◌==◌, if◌then◌else◌,
}
use lugo.Token.{Kind}
use lugo.Lexer.Chars.{is_digit, is_hex}

-- Leading bytes that pass a test.
unfoldable pub span_len : (ℕ → Bool) → Bytes → ℕ
span_len p [] = 0
span_len p (c ∷ cs) = if p c then suc (span_len p cs) else 0

-- A numeral goes on with digits and dots, and with an exponent mark that takes a sign along.
abbrev pub is_mark : Bool → ℕ → Bool
is_mark hex c = if hex then c == b'p' || c == b'P' else c == b'e' || c == b'E'

abbrev pub is_sign : ℕ → Bool
is_sign c = c == b'+' || c == b'-'

abbrev pub in_numeral : Bool → ℕ → Bool
in_numeral hex c = (if hex then is_hex c else is_digit c) || c == b'.'

unfoldable pub number_len : Bool → Bytes → ℕ
number_len hex [] = 0
number_len hex (c ∷ []) = if in_numeral hex c || is_mark hex c then 1 else 0
number_len hex (c ∷ d ∷ cs) =
    let plain = suc (number_len hex (d ∷ cs)) in
    let signed = suc (suc (number_len hex cs)) in
    if in_numeral hex c
    then plain
    else if is_mark hex c
    then if is_sign d then signed else plain
    else 0

-- A quoted string, from behind its opening quote: up to the first quote, or before the first line
-- end, that no backslash stands in front of.
unfoldable pub string_len : ℕ → Bytes → ℕ
string_len quote [] = 0
string_len quote (c ∷ []) = if c == b'\\' || c == quote || not (c == b'\n') then 1 else 0
string_len quote (c ∷ d ∷ cs) =
    let escaped = suc (suc (string_len quote cs)) in
    let plain = suc (string_len quote (d ∷ cs)) in
    if c == b'\\' then escaped else if c == quote then 1 else if c == b'\n' then 0 else plain

-- Up to and with the first byte `b`, or to the end.
unfoldable pub through_len : ℕ → Bytes → ℕ
through_len b [] = 0
through_len b (c ∷ cs) = if c == b then 1 else suc (through_len b cs)

-- Up to the first byte `b`, or to the end.
unfoldable pub before_len : ℕ → Bytes → ℕ
before_len b cs = span_len (λ c. not (c == b)) cs

-- The bytes begin with `level` signs `=` and a bracket `]`.
abbrev pub closes : ℕ → Bytes → Bool
closes level cs =
    let n = span_len (λ c. c == b'=') cs in n == level && head_or 0 (drop n cs) == b']'

-- A long string, from behind its opening bracket: up to and with the first closing bracket of the
-- level, or to the end or a NUL byte.
unfoldable pub long_len : ℕ → Bytes → ℕ
long_len level [] = 0
long_len level (c ∷ cs) =
    let onward = suc (long_len level cs) in
    if c == 0 then 0 else if c == b']' && closes level cs then suc (suc level) else onward

-- The opening bracket behind its first `[`, and the string; the kind says whether there is one.
unfoldable pub bracket_scan : Bytes → Kind × ℕ
bracket_scan cs =
    let level = span_len (λ c. c == b'=') cs in
    if head_or 0 (drop level cs) == b'['
    then (Kind.string, suc (level + long_len level (drop (suc level) cs)))
    else (Kind.illegal, level)

-- A comment behind its first `-`.
unfoldable pub comment_len : Bytes → ℕ
comment_len cs =
    let body = drop 1 cs in
    let mark = head_or 0 (drop 1 body) in
    if head_or 0 body == b'[' && (mark == b'[' || mark == b'=')
    then suc (suc (bracket_scan (drop 1 body)).1)
    else suc (before_len b'\n' body)

-- ===== src/Lexer/Scan.antt =====
-- The token at the front of the bytes that are left, as `Next` of lexer/lexer.go reads it: its
-- kind and the number of its bytes. No cursor and no state.
use lugo.Base.{
  ℕ, suc, Bool, true, false, ◌&&◌, ◌||◌, [], ◌∷◌, Bytes, take, drop, head_or, ◌==◌, if◌then◌else◌,
}
use lugo.Token.{Kind}
use lugo.Lexer.Chars.{is_letter, is_digit, is_ident}
use lugo.Lexer.Readers.{is_space, keywords, find_kind}
use lugo.Lexer.Spec.{span_len, number_len, string_len, through_len, bracket_scan, comment_len}

abbrev pub choose : Bool → Kind → Kind → Kind × ℕ
choose longer k j = if longer then (k, 1) else (j, 0)

-- A numeral behind its first byte `c`; a `0x` makes it hexadecimal.
unfoldable pub numeral_len : ℕ → Bytes → ℕ
numeral_len c cs =
    if c == b'0' && (head_or 0 cs == b'x' || head_or 0 cs == b'X')
    then suc (number_len true (drop 1 cs))
    else number_len false cs

unfoldable pub word_scan : ℕ → Bytes → Kind × ℕ
word_scan c cs =
    if is_letter c
    then (let n = span_len is_ident cs in (find_kind (c ∷ take n cs) keywords, n))
    else if is_digit c
    then (Kind.number, numeral_len c cs)
    else (Kind.illegal, 0)

unfoldable pub less_scan : ℕ → Kind × ℕ
less_scan d =
    if d == b'='
    then (Kind.less_eq, 1)
    else if d == b'<'
    then (Kind.shift_left, 1)
    else (Kind.less, 0)

unfoldable pub greater_scan : ℕ → Kind × ℕ
greater_scan d =
    if d == b'='
    then (Kind.greater_eq, 1)
    else if d == b'>'
    then (Kind.shift_right, 1)
    else (Kind.greater, 0)

unfoldable pub dot_scan : Bytes → Kind × ℕ
dot_scan cs =
    if head_or 0 cs == b'.'
    then if head_or 0 (drop 1 cs) == b'.' then (Kind.vararg, 2) else (Kind.concat, 1)
    else if is_digit (head_or 0 cs)
    then (Kind.number, numeral_len b'.' cs)
    else (Kind.dot, 0)

-- The token that begins with byte `c`, with the number of its further bytes, out of `cs`.
unfoldable pub scan_after : ℕ → Bytes → Kind × ℕ
unfolding word_scan less_scan greater_scan dot_scan
scan_after c cs =
    let d = head_or 0 cs in
    if c == b'+'
    then (Kind.plus, 0)
    else if c == b'*'
    then (Kind.asterisk, 0)
    else if c == b'%'
    then (Kind.modulo, 0)
    else if c == b'^'
    then (Kind.caret, 0)
    else if c == b'&'
    then (Kind.bit_and, 0)
    else if c == b'|'
    then (Kind.bit_or, 0)
    else if c == b'#'
    then (Kind.hash, 0)
    else if c == b'('
    then (Kind.l_paren, 0)
    else if c == b')'
    then (Kind.r_paren, 0)
    else if c == b'{'
    then (Kind.l_brace, 0)
    else if c == b'}'
    then (Kind.r_brace, 0)
    else if c == b']'
    then (Kind.r_brack, 0)
    else if c == b';'
    then (Kind.semicolon, 0)
    else if c == b','
    then (Kind.comma, 0)
    else if c == b'-'
    then if d == b'-' then (Kind.comment, comment_len cs) else (Kind.minus, 0)
    else if c == b'/'
    then choose (d == b'/') Kind.floor_slash Kind.slash
    else if c == b'='
    then choose (d == b'=') Kind.eq Kind.assign
    else if c == b'~'
    then choose (d == b'=') Kind.not_eq Kind.bit_xor
    else if c == b'<'
    then less_scan d
    else if c == b'>'
    then greater_scan d
    else if c == b':'
    then choose (d == b':') Kind.double_colon Kind.colon
    else if c == b'.'
    then dot_scan cs
    else if c == b'\'' || c == b'"'
    then (Kind.string, string_len c cs)
    else if c == b'`'
    then (Kind.backtick_string, through_len b'`' cs)
    else if c == b'['
    then if d == b'[' || d == b'=' then bracket_scan cs else (Kind.l_brack, 0)
    else word_scan c cs

-- The end of the source and a NUL byte end the tokens.
unfoldable pub scan : Bytes → Kind × ℕ
unfolding scan_after
scan [] = (Kind.eof, 0)
scan (c ∷ cs) =
    let (k, n) = scan_after c cs in
    let token : Kind × ℕ = (k, suc n) in if c == 0 then (Kind.eof, 0) else token

-- White space in front of the token.
unfoldable pub spaces : Bytes → ℕ
unfolding span_len
spaces = span_len is_space

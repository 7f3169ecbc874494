-- ===== src/Lexer/Scanner.antt =====
-- `Next` of lexer/lexer.go.
use lugo.Base.{ℕ, ◌||◌, ◌==◌, if◌then◌else◌, within}
use lugo.Token.{Kind, Token}
use lugo.Lexer.Chars.{has_prop, prop_letter, prop_digit}
use lugo.Lexer.Machine.{Lexer, advance}
use lugo.Lexer.Readers.{
  emit, skip_whitespace, read_ident, read_number, read_string, read_backtick_string,
  read_long_string, read_comment,
}

-- `if l.ch == c { l.advance(); return longer }; return shorter`
unfoldable pub pair : ℕ → Kind → Kind → ℕ → Lexer → Token × Lexer
pair c longer shorter start l =
    if l.ch == c then emit longer start (advance l) else emit shorter start l

-- The arms of the `switch` on one byte.
unfoldable pub next_less : ℕ → Lexer → Token × Lexer
next_less start l =
    if l.ch == b'='
    then emit Kind.less_eq start (advance l)
    else if l.ch == b'<'
    then emit Kind.shift_left start (advance l)
    else emit Kind.less start l

unfoldable pub next_greater : ℕ → Lexer → Token × Lexer
next_greater start l =
    if l.ch == b'='
    then emit Kind.greater_eq start (advance l)
    else if l.ch == b'>'
    then emit Kind.shift_right start (advance l)
    else emit Kind.greater start l

unfoldable pub next_dot : ℕ → Lexer → Token × Lexer
next_dot start l =
    let m = advance l in
    if l.ch == b'.'
    then if m.ch == b'.' then emit Kind.vararg start (advance m) else emit Kind.concat start m
    else if within b'0' b'9' l.ch
    then read_number start l
    else emit Kind.dot start l

-- What stands behind the `switch`.
unfoldable pub next_word : ℕ → ℕ → Lexer → Token × Lexer
next_word ch start l =
    if has_prop prop_letter ch
    then read_ident start l
    else if has_prop prop_digit ch
    then read_number start l
    else emit Kind.illegal start l

-- The `switch`, with the byte that was read and the state behind it.
unfoldable pub dispatch : ℕ → ℕ → Lexer → Token × Lexer
dispatch ch start l =
    if ch == b'+'
    then emit Kind.plus start l
    else if ch == b'*'
    then emit Kind.asterisk start l
    else if ch == b'%'
    then emit Kind.modulo start l
    else if ch == b'^'
    then emit Kind.caret start l
    else if ch == b'&'
    then emit Kind.bit_and start l
    else if ch == b'|'
    then emit Kind.bit_or start l
    else if ch == b'#'
    then emit Kind.hash start l
    else if ch == b'('
    then emit Kind.l_paren start l
    else if ch == b')'
    then emit Kind.r_paren start l
    else if ch == b'{'
    then emit Kind.l_brace start l
    else if ch == b'}'
    then emit Kind.r_brace start l
    else if ch == b']'
    then emit Kind.r_brack start l
    else if ch == b';'
    then emit Kind.semicolon start l
    else if ch == b','
    then emit Kind.comma start l
    else if ch == b'-'
    then if l.ch == b'-' then read_comment start l else emit Kind.minus start l
    else if ch == b'/'
    then pair b'/' Kind.floor_slash Kind.slash start l
    else if ch == b'='
    then pair b'=' Kind.eq Kind.assign start l
    else if ch == b'~'
    then pair b'=' Kind.not_eq Kind.bit_xor start l
    else if ch == b'<'
    then next_less start l
    else if ch == b'>'
    then next_greater start l
    else if ch == b':'
    then pair b':' Kind.double_colon Kind.colon start l
    else if ch == b'.'
    then next_dot start l
    else if ch == b'\'' || ch == b'"'
    then read_string start ch l
    else if ch == b'`'
    then read_backtick_string start l
    else if ch == b'['
    then if l.ch == b'[' || l.ch == b'='
      then read_long_string start l
      else emit Kind.l_brack start l
    else next_word ch start l

unfoldable pub next : Lexer → Token × Lexer
next l =
    let m = skip_whitespace l in
    if m.ch == 0
    then (record { kind = Kind.eof; start = m.cursor; end = m.cursor }, m)
    else dispatch m.ch m.cursor (advance m)

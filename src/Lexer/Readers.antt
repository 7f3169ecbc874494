-- ===== src/Lexer/Readers.antt =====
-- The readers of lexer/lexer.go: one for each kind of token that is more than an operator.
-- A loop over `src[i]` recurs on the rest of the source; a loop over `l.ch` takes fuel, for which
-- the length of the source is enough, since each round consumes a byte.
use Prim.Native.Char.{code}
use Prim.Native.String.{String}
use lugo.Base.{
  ℕ, zero, suc, ◌+◌, ◌-◌, Bool, not, ◌&&◌, ◌||◌, List, [], ◌∷◌, Option, none, some, Bytes, length,
  get_or, drop, slice, equal, ltb, leb, ◌==◌, if◌then◌else◌, u32,
}
use lugo.Token.{Kind, Token}
use lugo.Lexer.Chars.{has_prop, prop_ident, prop_digit, prop_hex}
use lugo.Lexer.Machine.{Lexer, advance, peek, seek}

-- The bytes of an ASCII text.
abbrev pub codes : String → Bytes
codes String.[] = []
codes (String.◌∷◌ c s) = code c ∷ codes s

abbrev pub emit : Kind → ℕ → Lexer → Token × Lexer
emit k start l = (record { kind = k; start = start; end = l.cursor }, l)

abbrev pub is_space : ℕ → Bool
is_space c = c == b' ' || c == b'\t' || c == b'\n' || c == b'\r'

unfoldable pub space_loop : Bytes → ℕ → ℕ
space_loop [] i = i
space_loop (c ∷ cs) i = if is_space c then space_loop cs (i + 1) else i

unfoldable pub skip_whitespace : Lexer → Lexer
skip_whitespace l =
    if is_space l.ch then seek l (space_loop (drop l.cursor l.source) l.cursor) else l

abbrev pub keywords : List (Bytes × Kind)
keywords =
    (codes "and", Kind.and_kw)
    ∷ (codes "break", Kind.break_kw)
    ∷ (codes "do", Kind.do_kw)
    ∷ (codes "else", Kind.else_kw)
    ∷ (codes "elseif", Kind.else_if_kw)
    ∷ (codes "end", Kind.end_kw)
    ∷ (codes "false", Kind.false_kw)
    ∷ (codes "for", Kind.for_kw)
    ∷ (codes "function", Kind.function_kw)
    ∷ (codes "goto", Kind.goto_kw)
    ∷ (codes "if", Kind.if_kw)
    ∷ (codes "in", Kind.in_kw)
    ∷ (codes "local", Kind.local_kw)
    ∷ (codes "nil", Kind.nil_kw)
    ∷ (codes "not", Kind.not_kw)
    ∷ (codes "or", Kind.or_kw)
    ∷ (codes "repeat", Kind.repeat_kw)
    ∷ (codes "return", Kind.return_kw)
    ∷ (codes "then", Kind.then_kw)
    ∷ (codes "true", Kind.true_kw)
    ∷ (codes "until", Kind.until_kw)
    ∷ (codes "while", Kind.while_kw)
    ∷ []

-- The `switch` of `readIdent`.
unfoldable pub find_kind : Bytes → List (Bytes × Kind) → Kind
unfolding equal
find_kind s [] = Kind.ident
find_kind s ((w, k) ∷ ws) = if equal s w then k else find_kind s ws

unfoldable pub ident_loop : Bytes → ℕ → ℕ
ident_loop [] i = i
ident_loop (c ∷ cs) i = if has_prop prop_ident c then ident_loop cs (i + 1) else i

unfoldable pub read_ident : ℕ → Lexer → Token × Lexer
read_ident start l =
    let i = ident_loop (drop l.cursor l.source) l.cursor in
    let kind =
      if leb start i && leb i (length l.source)
      then find_kind (slice start i l.source) keywords
      else Kind.ident in
    emit kind start (seek l i)

-- `if l.ch == '+' || l.ch == '-' { l.advance() }`
unfoldable pub skip_sign : Lexer → Lexer
skip_sign l = if l.ch == b'+' || l.ch == b'-' then advance l else l

-- One round of the loop of `readNumber`; `none` is its `break` or its end.
unfoldable pub number_step : Bool → Lexer → Option Lexer
number_step hex l =
    if l.ch == 0
    then none
    else if hex && (has_prop prop_hex l.ch || l.ch == b'.')
    then some (advance l)
    else if not hex && (has_prop prop_digit l.ch || l.ch == b'.')
    then some (advance l)
    else if hex && (l.ch == b'p' || l.ch == b'P')
    then some (skip_sign (advance l))
    else if not hex && (l.ch == b'e' || l.ch == b'E')
    then some (skip_sign (advance l))
    else none

unfoldable pub number_loop : ℕ → Bool → Lexer → Lexer
number_loop zero hex l = l
number_loop (suc f) hex l = elim (number_step hex l) [ none ↦ l | some m ↦ number_loop f hex m ]

unfoldable pub read_number : ℕ → Lexer → Token × Lexer
read_number start l =
    let hex = get_or l.source start 0 == b'0' && (l.ch == b'x' || l.ch == b'X') in
    let begun = if hex then advance l else l in
    emit Kind.number start (number_loop (length l.source) hex begun)

-- A backslash skips the byte behind it, if there is one.
unfoldable pub string_loop : ℕ → Bytes → ℕ → ℕ
string_loop quote [] i = i
string_loop quote (c ∷ []) i =
    if c == b'\\' then i + 1 else if c == quote then i + 1 else if c == b'\n' then i else i + 1
string_loop quote (c ∷ d ∷ cs) i =
    let escaped = string_loop quote cs (i + 2) in
    let later = string_loop quote (d ∷ cs) (i + 1) in
    if c == b'\\' then escaped else if c == quote then i + 1 else if c == b'\n' then i else later

unfoldable pub read_string : ℕ → ℕ → Lexer → Token × Lexer
read_string start quote l =
    emit Kind.string start (seek l (string_loop quote (drop l.cursor l.source) l.cursor))

unfoldable pub backtick_loop : Bytes → ℕ → ℕ
backtick_loop [] i = i
backtick_loop (c ∷ cs) i = if c == b'`' then i + 1 else backtick_loop cs (i + 1)

unfoldable pub read_backtick_string : ℕ → Lexer → Token × Lexer
read_backtick_string start l =
    emit Kind.backtick_string start (seek l (backtick_loop (drop l.cursor l.source) l.cursor))

-- `for l.ch == '=' { n++; l.advance() }`
unfoldable pub equals_loop : ℕ → ℕ → Lexer → ℕ × Lexer
equals_loop zero n l = (n, l)
equals_loop (suc f) n l =
    let rest = equals_loop f (n + 1) (advance l) in if l.ch == b'=' then rest else (n, l)

-- The search for the closing bracket with `level` signs `=`.
unfoldable pub long_loop : ℕ → ℕ → Lexer → Lexer
long_loop zero level l = l
long_loop (suc f) level l =
    let (n, m) = equals_loop (length l.source) 0 (advance l) in
    let onward = long_loop f level m in
    let bracket = if m.ch == b']' && n == level then advance m else onward in
    let other = long_loop f level (advance l) in
    if l.ch == 0 then l else if l.ch == b']' then bracket else other

unfoldable pub read_long_string : ℕ → Lexer → Token × Lexer
read_long_string start l =
    let (level, m) = equals_loop (length l.source) 0 l in
    if m.ch == b'['
    then emit Kind.string start (long_loop (length l.source) level (advance m))
    else emit Kind.illegal start m

-- `bytes.IndexByte`
unfoldable pub index_byte : ℕ → Bytes → Option ℕ
index_byte b [] = none
index_byte b (c ∷ cs) =
    if c == b then some 0 else elim (index_byte b cs) [ none ↦ none | some i ↦ some (i + 1) ]

-- The place of the next newline, or of the end.
unfoldable pub line_end : Lexer → ℕ
unfolding index_byte
line_end l = elim (index_byte b'\n' (drop l.cursor l.source)) [
  | none ↦ u32 (length l.source)
  | some idx ↦ u32 (l.cursor + u32 idx)
]

-- The assignments at the end of `readComment`.
unfoldable pub place : Lexer → ℕ → Lexer
place l read =
    if ltb read (u32 (length l.source))
    then record l { cursor = read; ch = get_or l.source read 0; read = u32 (read + 1) }
    else record l { cursor = read; ch = 0; read = read }

-- The end of `readComment`: on to the next newline.
unfoldable pub read_line_comment : ℕ → Lexer → Token × Lexer
read_line_comment start l = emit Kind.comment start (place l (line_end l))

unfoldable pub read_comment : ℕ → Lexer → Token × Lexer
read_comment start l =
    let m = advance l in
    let p = advance m in
    let long =
      let (tok, q) = read_long_string (u32 (p.cursor + 4294967296 - 1)) p in
      let comment : Token = record tok { kind = Kind.comment; start = start } in
      let answer : Token × Lexer = (comment, q) in answer in
    if m.ch == b'[' && (peek m == b'[' || peek m == b'=') then long else read_line_comment start m

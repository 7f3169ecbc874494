-- ===== src/Parser/Tables.antt =====
-- Expression lists and table constructors of parser/parser.go. The methods that call
-- `parseExpression` or `parseBlock` take these two as an argument; Parser.Program ties them
-- together.
pub mod Total
use lugo.Base.{
  ℕ, zero, suc, ◌-◌, Bool, true, false, ◌&&◌, ◌||◌, [], ◌∷◌, length, ◌==◌, if◌then◌else◌,
}
use lugo.Token.{Kind}
use lugo.Token.Set.{TokenSet, new_token_set}
use lugo.Lexer.Readers.{codes}
use lugo.Ast.Kinds.{NodeKind}
use lugo.Parser.{is_kind, is_ident_or_keyword}
use lugo.Parser.Action.{
  Action, pure, fail, ◌>>=◌, ◌>>◌, gets, at_kind, advance, report, expect, node, add, push, mark,
  flush, append_list, rounds, leaf,
}

-- `parseExpression` and `parseBlock`.
pub record Parsers : Type 0 where
  pub expression : ℕ → Action ℕ
  pub block : TokenSet → Action ℕ

-- The levels `Lowest` to `CallIndex`; tokens that are no operator have none, that is `Lowest`.
unfoldable pub precedence : Kind → ℕ
precedence Kind.or_kw = 1
precedence Kind.and_kw = 2
precedence Kind.less = 3
precedence Kind.less_eq = 3
precedence Kind.greater = 3
precedence Kind.greater_eq = 3
precedence Kind.eq = 3
precedence Kind.not_eq = 3
precedence Kind.bit_or = 4
precedence Kind.bit_xor = 5
precedence Kind.bit_and = 6
precedence Kind.shift_left = 7
precedence Kind.shift_right = 7
precedence Kind.concat = 8
precedence Kind.plus = 9
precedence Kind.minus = 9
precedence Kind.asterisk = 10
precedence Kind.slash = 10
precedence Kind.floor_slash = 10
precedence Kind.modulo = 10
precedence Kind.caret = 12
precedence Kind.l_paren = 13
precedence Kind.l_brack = 13
precedence Kind.dot = 13
precedence Kind.string = 13
precedence Kind.backtick_string = 13
precedence Kind.l_brace = 13
precedence Kind.colon = 13
precedence _ = 0

abbrev pub lowest : ℕ
lowest = 0

abbrev pub unary : ℕ
unary = 11

abbrev pub stop_block_end : TokenSet
stop_block_end = new_token_set (Kind.end_kw ∷ [])

-- `if id != ast.InvalidNode { push }`
abbrev pub push_valid : ℕ → Action (Unit {0})
push_valid id = if id == 0 then pure tt else push id

unfoldable pub expr_list_loop : ℕ → Parsers → Action (Unit {0})
expr_list_loop zero r = fail
expr_list_loop (suc f) r = do
  e ← r.expression lowest
  push_valid e
  more ← at_kind Kind.comma
  if more then (advance >> expr_list_loop f r) else pure tt

unfoldable pub add_expr_list : ℕ → ℕ → Action ℕ
add_expr_list start stack_start = do
  (e, c) ← append_list stack_start
  end ← gets λ p. p.prev.end
  add (record (node NodeKind.expr_list start end) { extra = e; count = c })

unfoldable pub parse_expr_list : Parsers → Action ℕ
parse_expr_list r = do
  start ← gets λ p. p.curr.start
  stack_start ← mark
  f ← rounds
  expr_list_loop f r
  count ← gets λ p. length p.list_stack - stack_start
  if count == 0 then pure 0 else add_expr_list start stack_start

-- `[key] = value` in a table
unfoldable pub index_field : Parsers → Action ℕ
index_field r = do
  start ← gets λ p. p.curr.start
  advance
  key ← r.expression lowest
  expect Kind.r_brack (codes "expected ']'")
  expect Kind.assign (codes "expected '='")
  value ← r.expression lowest
  end ← gets λ p. p.prev.end
  add (record (node NodeKind.index_field start end) { left = key; right = value })

-- `key = value` in a table
unfoldable pub record_field : Parsers → Action ℕ
record_field r = do
  start ← gets λ p. p.curr.start
  key ← leaf NodeKind.ident
  advance
  value ← r.expression lowest
  end ← gets λ p. p.prev.end
  add (record (node NodeKind.record_field start end) { left = key; right = value })

abbrev pub table_field : Parsers → Bool → Bool → Action ℕ
table_field r bracket named =
    if bracket then index_field r else if named then record_field r else r.expression lowest

-- Without a separator, a token is skipped if the field has read none.
abbrev pub no_separator : ℕ → Action Bool
no_separator field =
    report (codes "expected ',' or ';' in table")
    >> (if field == 0 then (advance >> pure true) else pure true)

abbrev pub separate : ℕ → Bool → Bool → Action Bool
separate field separator closing =
    if separator then (advance >> pure true) else if closing then pure false else no_separator field

-- What stands behind a field; `false` ends the table.
unfoldable pub after_field : ℕ → Action Bool
after_field field = do
  separator ← gets λ p. is_kind p.curr.kind Kind.comma || is_kind p.curr.kind Kind.semicolon
  closing ← gets λ p. is_kind p.curr.kind Kind.r_brace || is_kind p.curr.kind Kind.eof
  separate field separator closing

-- A round of the loop over the fields.
unfoldable pub table_round : Parsers → Action Bool
table_round r = do
  bracket ← at_kind Kind.l_brack
  named ← gets λ p. is_ident_or_keyword p && is_kind p.peek.kind Kind.assign
  field ← table_field r bracket named
  push field
  after_field field

unfoldable pub table_loop : ℕ → Parsers → Action (Unit {0})
table_loop zero r = fail
table_loop (suc f) r = do
  done ← gets λ p. is_kind p.curr.kind Kind.r_brace || is_kind p.curr.kind Kind.eof
  more ← if done then pure false else table_round r
  if more then table_loop f r else pure tt

unfoldable pub parse_table_constructor : Parsers → Action ℕ
parse_table_constructor r = do
  start ← gets λ p. p.curr.start
  advance
  stack_start ← mark
  f ← rounds
  table_loop f r
  end ← gets λ p. p.curr.end
  expect Kind.r_brace (codes "expected '}'")
  (e, c) ← flush stack_start
  add (record (node NodeKind.table_expr start end) { extra = e; count = c })

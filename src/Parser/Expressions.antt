-- ===== src/Parser/Expressions.antt =====
-- Operators and operands of parser/parser.go: `parsePrefix`, `parseInfix` and `parseExpression`.
pub mod Cases
pub mod Prefix
pub mod Infix
pub mod Total
use lugo.Base.{ℕ, zero, suc, ◌+◌, ◌-◌, ◌||◌, List, [], ◌∷◌, ltb, ◌==◌, if◌then◌else◌}
use lugo.Token.{Kind}
use lugo.Token.Codes.{kind_code}
use lugo.Lexer.Readers.{codes}
use lugo.Ast.Kinds.{NodeKind}
use lugo.Ast.{Node}
use lugo.Parser.{is_kind, is_one_of, is_ident_or_keyword}
use lugo.Parser.Action.{
  Action, pure, fail, ◌>>=◌, ◌>>◌, gets, modify, at_kind, advance, report, expect, node, add,
  node_of, update, rounds, leaf,
}
use lugo.Parser.Tables.{Parsers, precedence, lowest, unary, parse_table_constructor}
use lugo.Parser.Calls.{parse_call_args, parse_function_body}

unfoldable pub parse_unary : Parsers → Action ℕ
parse_unary r = do
  start ← gets λ p. p.curr.start
  advance
  right ← r.expression unary
  end ← gets λ p. p.prev.end
  add (record (node NodeKind.unary_expr start end) { right = right })

unfoldable pub parse_paren : Parsers → Action ℕ
parse_paren r = do
  start ← gets λ p. p.curr.start
  advance
  id ← r.expression lowest
  end ← gets λ p. p.curr.end
  expect Kind.r_paren (codes "expected closing ')'")
  add (record (node NodeKind.paren_expr start end) { left = id })

unfoldable pub parse_function_expr : Parsers → Action ℕ
parse_function_expr r = do start ← gets λ p. p.curr.start; advance; parse_function_body r start

-- The `switch` of `parsePrefix`.
abbrev pub prefix_cases : Parsers → Kind → Action ℕ
prefix_cases r k =
    if is_kind k Kind.ident
    then leaf NodeKind.ident
    else if is_kind k Kind.number
    then leaf NodeKind.number
    else if is_kind k Kind.string
    then leaf NodeKind.string
    else if is_kind k Kind.backtick_string
    then leaf NodeKind.hashed_string
    else if is_kind k Kind.nil_kw
    then leaf NodeKind.nil
    else if is_kind k Kind.true_kw
    then leaf NodeKind.true_expr
    else if is_kind k Kind.false_kw
    then leaf NodeKind.false_expr
    else if is_kind k Kind.vararg
    then leaf NodeKind.vararg
    else if is_kind k Kind.l_brace
    then parse_table_constructor r
    else if is_kind k Kind.function_kw
    then parse_function_expr r
    else if is_one_of (Kind.minus ∷ Kind.not_kw ∷ Kind.hash ∷ Kind.bit_xor ∷ []) k
    then parse_unary r
    else if is_kind k Kind.l_paren
    then parse_paren r
    else (report (codes "expected expression") >> pure 0)

unfoldable pub parse_prefix : Parsers → Action ℕ
parse_prefix r = do k ← gets λ p. p.curr.kind; prefix_cases r k

abbrev pub binary_kinds : List Kind
binary_kinds =
    Kind.plus ∷ Kind.minus ∷ Kind.asterisk ∷ Kind.slash ∷ Kind.floor_slash ∷ Kind.modulo
    ∷ Kind.caret ∷ Kind.concat ∷ Kind.eq ∷ Kind.not_eq ∷ Kind.less ∷ Kind.less_eq ∷ Kind.greater
    ∷ Kind.greater_eq ∷ Kind.and_kw ∷ Kind.or_kw ∷ Kind.bit_and ∷ Kind.bit_or ∷ Kind.bit_xor
    ∷ Kind.shift_left ∷ Kind.shift_right ∷ []

-- The level at which the right operand is read; `^` and `..` are right associative.
abbrev pub right_level : Kind → ℕ
right_level k =
    if is_kind k Kind.caret || is_kind k Kind.concat then precedence k - 1 else precedence k

unfoldable pub infix_binary : Parsers → ℕ → ℕ → Kind → Action ℕ
infix_binary r left start k = do
  advance
  right ← r.expression (right_level k)
  end ← gets λ p. p.prev.end
  add (record (node NodeKind.binary_expr start end) {
    left = left;
    right = right;
    extra = kind_code k;
  })

unfoldable pub member_name : ℕ → ℕ → Action ℕ
member_name left start = do
  right ← leaf NodeKind.ident
  end ← gets λ p. p.prev.end
  add (record (node NodeKind.member_expr start end) { left = left; right = right })

unfoldable pub infix_dot : ℕ → ℕ → Action ℕ
infix_dot left start = do
  advance
  named ← gets is_ident_or_keyword
  if named
      then member_name left start
      else (report (codes "expected identifier after '.'") >> pure left)

unfoldable pub infix_index : Parsers → ℕ → ℕ → Action ℕ
infix_index r left start = do
  advance
  right ← r.expression lowest
  closed ← at_kind Kind.r_brack
  if closed then pure tt else report (codes "expected ']'")
  end ← gets λ p. p.curr.end
  closed' ← at_kind Kind.r_brack
  if closed' then advance else pure tt
  add (record (node NodeKind.index_expr start end) { left = left; right = right })

-- A call made into a method call of `left`.
unfoldable pub method_call : Parsers → ℕ → ℕ → ℕ → Kind → Action ℕ
method_call r left start name k = do
  call ← parse_call_args r name k
  update call (λ (n : Node). record n {
    kind = NodeKind.method_call;
    left = left;
    right = name;
    start = start;
  })
  if left == 0 then pure tt else update left (λ (n : Node). record n { parent = call })
  pure call

abbrev pub call_kinds : List Kind
call_kinds = Kind.l_paren ∷ Kind.string ∷ Kind.backtick_string ∷ Kind.l_brace ∷ []

unfoldable pub method_name : Parsers → ℕ → ℕ → Action ℕ
method_name r left start = do
  name ← leaf NodeKind.ident
  k ← gets λ p. p.curr.kind
  if is_one_of call_kinds k
      then method_call r left start name k
      else (report (codes "expected function arguments") >> pure left)

unfoldable pub infix_colon : Parsers → ℕ → ℕ → Action ℕ
infix_colon r left start = do
  advance
  named ← gets is_ident_or_keyword
  if named then method_name r left start else (report (codes "expected method name") >> pure left)

-- The `switch` of `parseInfix`.
abbrev pub infix_cases : Parsers → ℕ → ℕ → Kind → Action ℕ
infix_cases r left start k =
    if is_one_of binary_kinds k
    then infix_binary r left start k
    else if is_kind k Kind.dot
    then infix_dot left start
    else if is_kind k Kind.l_brack
    then infix_index r left start
    else if is_one_of call_kinds k
    then parse_call_args r left k
    else if is_kind k Kind.colon
    then infix_colon r left start
    else pure left

unfoldable pub parse_infix : Parsers → ℕ → Action ℕ
parse_infix r left = do k ← gets λ p. p.curr.kind; l ← node_of left; infix_cases r left l.start k

unfoldable pub infix_loop : ℕ → Parsers → ℕ → ℕ → Action ℕ
infix_loop zero r level left = fail
infix_loop (suc f) r level left = do
  k ← gets λ p. p.curr.kind
  if ltb level (precedence k) then (parse_infix r left >>= infix_loop f r level) else pure left

abbrev pub leave : Action (Unit {0})
leave = modify λ p. record p { depth = p.depth - 1 }

unfoldable pub too_deep : ℕ → Action ℕ
too_deep depth = do
  if depth == 201
      then report (codes "expression nesting too deep (possible cyclic/malicious code)")
      else pure tt
  leave
  pure 0

unfoldable pub operators : Parsers → ℕ → ℕ → Action ℕ
operators r level left = do f ← rounds; id ← infix_loop f r level left; leave; pure id

unfoldable pub operand : Parsers → ℕ → Action ℕ
operand r level = do
  left ← parse_prefix r
  if left == 0 then (leave >> pure 0) else operators r level left

unfoldable pub parse_expression : Parsers → ℕ → Action ℕ
parse_expression r level = do
  modify λ p. record p { depth = p.depth + 1 }
  depth ← gets λ p. p.depth
  if ltb 200 depth then too_deep depth else operand r level

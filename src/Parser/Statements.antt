-- ===== src/Parser/Statements.antt =====
-- The statements of parser/parser.go without names to declare: assignments and calls, `if`, loops,
-- `return` and the like.
pub mod Assign
pub mod Total
pub mod If
pub mod Small
use lugo.Base.{ℕ, zero, suc, ◌+◌, ◌-◌, Bool, ◌||◌, List, [], ◌∷◌, Bytes, ◌==◌, u32, if◌then◌else◌}
use lugo.Token.{Kind}
use lugo.Token.Set.{TokenSet, new_token_set}
use lugo.Lexer.Readers.{codes}
use lugo.Ast.Kinds.{NodeKind}
use lugo.Ast.{Node}
use lugo.Ast
use lugo.Parser.{is_one_of}
use lugo.Parser.Action.{
  Action, pure, fail, ◌>>=◌, ◌>>◌, gets, modify, at_kind, advance, report, report_at, expect, node,
  add, node_of, extra_of, push, mark, flush, rounds, leaf,
}
use lugo.Parser.Tables.{Parsers, lowest, stop_block_end, parse_expr_list}

abbrev pub stop_block_if : TokenSet
stop_block_if = new_token_set (Kind.else_if_kw ∷ Kind.else_kw ∷ Kind.end_kw ∷ [])

abbrev pub stop_block_until : TokenSet
stop_block_until = new_token_set (Kind.until_kw ∷ [])

abbrev pub is_target : NodeKind → Bool
is_target k =
    Ast.is_kind k NodeKind.ident
    || Ast.is_kind k NodeKind.index_expr
    || Ast.is_kind k NodeKind.member_expr

-- The loop of `validateLHS`: `k` rounds from `i` on.
unfoldable pub validate_loop : ℕ → ℕ → ℕ → Action (Unit {0})
validate_loop extra zero i = pure tt
validate_loop extra (suc k) i = do
  id ← extra_of (u32 (extra + i))
  n ← node_of id
  if is_target n.kind
      then pure tt
      else report_at n.start n.end (codes "syntax error: cannot assign to expression")
  validate_loop extra k (i + 1)

unfoldable pub validate_targets : ℕ → Action (Unit {0})
validate_targets list_node = do n ← node_of list_node; validate_loop n.extra n.count 0

unfoldable pub validate_lhs : ℕ → Action (Unit {0})
validate_lhs list_node = if list_node == 0 then pure tt else validate_targets list_node

unfoldable pub assignment : Parsers → ℕ → ℕ → Action ℕ
assignment r start targets = do
  advance
  validate_lhs targets
  values ← parse_expr_list r
  end ← gets λ p. p.prev.end
  add (record (node NodeKind.assign start end) { left = targets; right = values })

unfoldable pub not_a_call : ℕ → Action ℕ
not_a_call list_node = do
  n ← node_of list_node
  report_at n.start n.end
      (codes "syntax error: unexpected symbol (expected assignment or function call)")
  pure 0

unfoldable pub single_call : ℕ → Node → Action ℕ
single_call list_node n = do
  first ← extra_of n.extra
  m ← node_of first
  if Ast.is_kind m.kind NodeKind.call_expr || Ast.is_kind m.kind NodeKind.method_call
      then pure first
      else not_a_call list_node

unfoldable pub call_statement : ℕ → Action ℕ
call_statement list_node = do
  n ← node_of list_node
  if n.count == 1 then single_call list_node n else not_a_call list_node

abbrev pub assignment_or_call : Parsers → ℕ → ℕ → Bool → Action ℕ
assignment_or_call r start targets assigns =
    if targets == 0
    then pure 0
    else if assigns
    then assignment r start targets
    else call_statement targets

unfoldable pub parse_assignment_or_call : Parsers → Action ℕ
parse_assignment_or_call r = do
  start ← gets λ p. p.curr.start
  targets ← parse_expr_list r
  assigns ← at_kind Kind.assign
  assignment_or_call r start targets assigns

unfoldable pub parse_else_if : Parsers → Action (Unit {0})
parse_else_if r = do
  start ← gets λ p. p.curr.start
  advance
  condition ← r.expression lowest
  expect Kind.then_kw (codes "expected 'then'")
  block ← r.block stop_block_if
  end ← gets λ p. p.prev.end
  id ← add (record (node NodeKind.else_if start end) { left = condition; right = block })
  push id

unfoldable pub else_if_loop : ℕ → Parsers → Action (Unit {0})
else_if_loop zero r = fail
else_if_loop (suc f) r = do
  more ← at_kind Kind.else_if_kw
  if more then (parse_else_if r >> else_if_loop f r) else pure tt

unfoldable pub parse_else : Parsers → Action ℕ
parse_else r = do
  start ← gets λ p. p.curr.start
  advance
  block ← r.block stop_block_end
  end ← gets λ p. p.prev.end
  add (record (node NodeKind.else_stmt start end) { left = block })

-- What follows the first block of an `if`.
unfoldable pub if_tail : Parsers → ℕ → ℕ → ℕ → Action ℕ
if_tail r start condition block = do
  stack_start ← mark
  f ← rounds
  else_if_loop f r
  has_else ← at_kind Kind.else_kw
  otherwise ← if has_else then parse_else r else pure 0
  expect Kind.end_kw (codes "expected 'end'")
  if otherwise == 0 then pure tt else push otherwise
  (e, c) ← flush stack_start
  end ← gets λ p. p.prev.end
  add (record (node NodeKind.if_stmt start end) {
    left = condition;
    right = block;
    extra = e;
    count = c;
  })

unfoldable pub parse_if : Parsers → Action ℕ
parse_if r = do
  start ← gets λ p. p.curr.start
  advance
  condition ← r.expression lowest
  expect Kind.then_kw (codes "expected 'then'")
  block ← r.block stop_block_if
  if_tail r start condition block

abbrev pub ends_return : List Kind
ends_return =
    Kind.end_kw ∷ Kind.else_if_kw ∷ Kind.else_kw ∷ Kind.until_kw ∷ Kind.eof ∷ Kind.semicolon ∷ []

unfoldable pub parse_return : Parsers → Action ℕ
parse_return r = do
  start ← gets λ p. p.curr.start
  advance
  empty ← gets λ p. is_one_of ends_return p.curr.kind
  values ← if empty then pure 0 else parse_expr_list r
  semicolon ← at_kind Kind.semicolon
  if semicolon then advance else pure tt
  end ← gets λ p. p.prev.end
  add (record (node NodeKind.return_stmt start end) { left = values })

-- A block inside a loop.
unfoldable pub loop_block : Parsers → TokenSet → Action ℕ
loop_block r stop = do
  modify λ p. record p { loop_depth = p.loop_depth + 1 }
  block ← r.block stop
  modify λ p. record p { loop_depth = p.loop_depth - 1 }
  pure block

unfoldable pub parse_while : Parsers → Action ℕ
parse_while r = do
  start ← gets λ p. p.curr.start
  advance
  condition ← r.expression lowest
  expect Kind.do_kw (codes "expected 'do'")
  block ← loop_block r stop_block_end
  end ← gets λ p. p.curr.end
  expect Kind.end_kw (codes "expected 'end'")
  add (record (node NodeKind.while_stmt start end) { left = condition; right = block })

unfoldable pub parse_repeat : Parsers → Action ℕ
parse_repeat r = do
  start ← gets λ p. p.curr.start
  advance
  block ← loop_block r stop_block_until
  expect Kind.until_kw (codes "expected 'until'")
  condition ← r.expression lowest
  end ← gets λ p. p.prev.end
  add (record (node NodeKind.repeat start end) { left = block; right = condition })

unfoldable pub parse_do : Parsers → Action ℕ
parse_do r = do
  start ← gets λ p. p.curr.start
  advance
  block ← r.block stop_block_end
  end ← gets λ p. p.curr.end
  expect Kind.end_kw (codes "expected 'end'")
  add (record (node NodeKind.do_stmt start end) { left = block })

unfoldable pub parse_break : Action ℕ
parse_break = do
  t ← gets λ p. p.curr
  outside ← gets λ p. p.loop_depth == 0
  if outside then report (codes "syntax error: <break> not inside a loop") else pure tt
  advance
  add (node NodeKind.break_stmt t.start t.end)

-- A name, or the error that it is missing.
unfoldable pub optional_name : Bytes → Action ℕ
optional_name message = do
  named ← at_kind Kind.ident
  if named then leaf NodeKind.ident else (report message >> pure 0)

unfoldable pub parse_goto : Action ℕ
parse_goto = do
  start ← gets λ p. p.curr.start
  advance
  label ← optional_name (codes "expected label name after 'goto'")
  end ← gets λ p. p.prev.end
  add (record (node NodeKind.goto start end) { left = label })

unfoldable pub parse_label : Action ℕ
parse_label = do
  start ← gets λ p. p.curr.start
  advance
  name ← optional_name (codes "expected label name")
  expect Kind.double_colon (codes "expected '::'")
  end ← gets λ p. p.prev.end
  add (record (node NodeKind.label start end) { left = name })

-- ===== src/Parser/Calls.antt =====
-- Call arguments and function bodies of parser/parser.go.
pub mod Total
use lugo.Base.{ℕ, zero, suc, Bool, true, false, ◌&&◌, ◌||◌, if◌then◌else◌}
use lugo.Token.{Kind}
use lugo.Lexer.Readers.{codes}
use lugo.Ast.Kinds.{NodeKind}
use lugo.Ast.{Node}
use lugo.Parser.{is_kind}
use lugo.Parser.Action.{
  Action, pure, fail, ◌>>=◌, ◌>>◌, gets, at_kind, advance, report, expect, node, add, node_of,
  update, push, mark, flush, rounds, add_here,
}
use lugo.Parser.Tables.{Parsers, lowest, stop_block_end, push_valid, parse_table_constructor}

-- A round of the loop over the arguments; `false` ends them.
unfoldable pub args_round : Parsers → Action Bool
args_round r = do
  arg ← r.expression lowest
  push_valid arg
  comma ← at_kind Kind.comma
  if comma then (advance >> pure true) else pure false

unfoldable pub args_loop : ℕ → Parsers → Action (Unit {0})
args_loop zero r = fail
args_loop (suc f) r = do
  done ← gets λ p. is_kind p.curr.kind Kind.r_paren || is_kind p.curr.kind Kind.eof
  more ← if done then pure false else args_round r
  if more then args_loop f r else pure tt

-- The arguments in parentheses; the value is where they end.
unfoldable pub call_parens : Parsers → Action ℕ
call_parens r = do
  advance
  f ← rounds
  args_loop f r
  end ← gets λ p. p.curr.end
  expect Kind.r_paren (codes "expected ')'")
  pure end

unfoldable pub call_string : NodeKind → Action ℕ
call_string kind = do arg ← add_here kind; push arg; end ← gets λ p. p.curr.end; advance; pure end

unfoldable pub call_table : Parsers → Action ℕ
call_table r = do arg ← parse_table_constructor r; push arg; n ← node_of arg; pure n.end

abbrev pub call_end : Parsers → Kind → Action ℕ
call_end r k =
    if is_kind k Kind.l_paren
    then call_parens r
    else if is_kind k Kind.string
    then call_string NodeKind.string
    else if is_kind k Kind.backtick_string
    then call_string NodeKind.hashed_string
    else if is_kind k Kind.l_brace
    then call_table r
    else (advance >> pure 0)

unfoldable pub parse_call_args : Parsers → ℕ → Kind → Action ℕ
parse_call_args r left call_token = do
  l ← node_of left
  stack_start ← mark
  end ← call_end r call_token
  (e, c) ← flush stack_start
  add (record (node NodeKind.call_expr l.start end) { left = left; extra = e; count = c })

-- A parameter; `false` ends the list.
unfoldable pub parameter : Action Bool
parameter = do
  param ← add_here NodeKind.ident
  vararg ← at_kind Kind.vararg
  if vararg then update param (λ (n : Node). record n { kind = NodeKind.vararg }) else pure tt
  push param
  advance
  comma ← at_kind Kind.comma
  if vararg && comma
      then report (codes "syntax error: vararg '...' must be the last parameter")
      else pure tt
  if comma then (advance >> pure true) else pure false

abbrev pub parameter_or_error : Bool → Action Bool
parameter_or_error named =
    if named
    then parameter
    else (report (codes "expected identifier or '...' in parameters") >> pure false)

unfoldable pub params_loop : ℕ → Action (Unit {0})
params_loop zero = fail
params_loop (suc f) = do
  done ← gets λ p. is_kind p.curr.kind Kind.r_paren || is_kind p.curr.kind Kind.eof
  named ← gets λ p. is_kind p.curr.kind Kind.ident || is_kind p.curr.kind Kind.vararg
  more ← if done then pure false else parameter_or_error named
  if more then params_loop f else pure tt

unfoldable pub parse_function_body : Parsers → ℕ → Action ℕ
parse_function_body r start = do
  expect Kind.l_paren (codes "expected '(' for function parameters")
  stack_start ← mark
  f ← rounds
  params_loop f
  expect Kind.r_paren (codes "expected ')'")
  block ← r.block stop_block_end
  end ← gets λ p. p.curr.end
  expect Kind.end_kw (codes "expected 'end'")
  (e, c) ← flush stack_start
  add (record (node NodeKind.function_expr start end) { right = block; extra = e; count = c })

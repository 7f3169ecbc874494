-- ===== src/Parser/Program.antt =====
-- Blocks of parser/parser.go, and `Parse`. Methods that call one another in a circle are tied here:
-- each round of `parsers` lets `parseExpression` and `parseBlock` call what the round before gives.
pub mod Statement
pub mod Blocks
pub mod Total
pub mod Infix
pub mod Parse
mod Tests
use lugo.Base.{
  ℕ, zero, suc, ◌+◌, ◌-◌, Bool, not, ◌&&◌, ◌||◌, [], ◌∷◌, length, leb, ltb, ◌==◌, u32,
  if◌then◌else◌,
}
use lugo.Token.{Kind}
use lugo.Token.Set.{TokenSet, new_token_set}
use lugo.Lexer.Readers.{codes}
use lugo.Ast.Kinds.{NodeKind}
use lugo.Ast.{Node}
use lugo.Ast
use lugo.Parser.{is_kind, is_at, sync}
use lugo.Parser.Action.{
  Action, pure, fail, ◌>>=◌, ◌>>◌, gets, modify, advance, report, node, add, node_of, extra_of,
  push, mark, flush, rounds,
}
use lugo.Parser.Tables.{Parsers}
use lugo.Parser.Expressions.{parse_expression}
use lugo.Parser.Statements.{
  parse_assignment_or_call, parse_if, parse_return, parse_while, parse_repeat, parse_do,
  parse_break, parse_goto, parse_label,
}
use lugo.Parser.Declarations.{parse_local, parse_for, parse_function_stmt}

-- The `switch` of `parseStatement`.
abbrev pub statement_cases : Parsers → Kind → Action ℕ
statement_cases r k =
    if is_kind k Kind.local_kw
    then parse_local r
    else if is_kind k Kind.if_kw
    then parse_if r
    else if is_kind k Kind.return_kw
    then parse_return r
    else if is_kind k Kind.while_kw
    then parse_while r
    else if is_kind k Kind.repeat_kw
    then parse_repeat r
    else if is_kind k Kind.for_kw
    then parse_for r
    else if is_kind k Kind.do_kw
    then parse_do r
    else if is_kind k Kind.break_kw
    then parse_break
    else if is_kind k Kind.goto_kw
    then parse_goto
    else if is_kind k Kind.double_colon
    then parse_label
    else if is_kind k Kind.function_kw
    then parse_function_stmt r
    else parse_assignment_or_call r

unfoldable pub parse_statement : Parsers → Action ℕ
parse_statement r = do k ← gets λ p. p.curr.kind; statement_cases r k

-- `p.curr.Kind == token.EOF || p.isAt(stopTokens)`
abbrev pub at_stop : TokenSet → Action Bool
at_stop stop = gets λ p. is_kind p.curr.kind Kind.eof || is_at p stop

unfoldable pub check_return : TokenSet → ℕ → Action (Unit {0})
check_return stop id = do
  n ← node_of id
  done ← at_stop stop
  if Ast.is_kind n.kind NodeKind.return_stmt && not done
      then report (codes "syntax error: statements are not allowed after a 'return'")
      else pure tt

unfoldable pub take_statement : TokenSet → ℕ → Action (Unit {0})
take_statement stop id = do push id; check_return stop id

unfoldable pub block_statement : Parsers → TokenSet → Action (Unit {0})
block_statement r stop = do
  id ← parse_statement r
  if id == 0 then modify sync else take_statement stop id

abbrev pub block_round : Parsers → TokenSet → Bool → Action (Unit {0})
block_round r stop semicolon = if semicolon then advance else block_statement r stop

unfoldable pub block_loop : ℕ → Parsers → TokenSet → Action (Unit {0})
block_loop zero r stop = fail
block_loop (suc f) r stop = do
  done ← at_stop stop
  semicolon ← gets λ p. is_kind p.curr.kind Kind.semicolon
  if done then pure tt else (block_round r stop semicolon >> block_loop f r stop)

-- A block that is nested too deep is skipped.
unfoldable pub skip_loop : ℕ → TokenSet → Action (Unit {0})
skip_loop zero stop = fail
skip_loop (suc f) stop = do
  done ← at_stop stop
  if done then pure tt else (advance >> skip_loop f stop)

unfoldable pub too_nested : TokenSet → ℕ → Action ℕ
too_nested stop start = do
  report (codes "block nesting too deep (possible cyclic/malicious code)")
  f ← rounds
  skip_loop f stop
  add (node NodeKind.block start start)

-- Where the last of the children ends.
unfoldable pub last_end : ℕ → ℕ → Action ℕ
last_end e c = do last ← extra_of (u32 (e + (c - 1))); n ← node_of last; pure n.end

unfoldable pub statements : Parsers → TokenSet → ℕ → Action ℕ
statements r stop start = do
  modify λ p. record p { block_depth = p.block_depth + 1 }
  stack_start ← mark
  f ← rounds
  block_loop f r stop
  (e, c) ← flush stack_start
  end ← if ltb 0 c then last_end e c else pure start
  id ← add (record (node NodeKind.block start end) { extra = e; count = c })
  modify λ p. record p { block_depth = p.block_depth - 1 }
  pure id

unfoldable pub parse_block : Parsers → TokenSet → Action ℕ
parse_block r stop = do
  start ← gets λ p. p.curr.start
  depth ← gets λ p. p.block_depth
  if leb 200 depth then too_nested stop start else statements r stop start

-- The methods, where calls are nested at most so many rounds deep. A statement begins with an
-- expression at the same token, so `parseBlock` calls the `parseExpression` of its own round.
unfoldable pub parsers : ℕ → Parsers
parsers zero = record { expression = λ level. fail; block = λ stop. fail }
parsers (suc f) =
    let below = parsers f in
    let expression = parse_expression below in
    record {
      expression = expression;
      block = parse_block (record below { expression = expression });
    }

abbrev pub stop_block_eof : TokenSet
stop_block_eof = new_token_set (Kind.eof ∷ [])

unfoldable pub parse_with : Parsers → Action ℕ
parse_with r = do
  block ← r.block stop_block_eof
  end ← gets λ p. u32 (length p.tree.source)
  root ← add (record (node NodeKind.file 0 end) { left = block })
  modify λ p. record p { tree = record p.tree { root = root } }
  pure root

-- `Parse`. Each round of `parsers` reads a token at least.
unfoldable pub parse : Action ℕ
parse p = parse_with (parsers (length p.lex.source + 3)) p

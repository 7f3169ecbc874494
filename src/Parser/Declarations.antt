-- ===== src/Parser/Declarations.antt =====
-- The statements of parser/parser.go that declare names: `local`, `for` and `function`.
pub mod Functions
pub mod Local
pub mod For
use lugo.Base.{
  ℕ, zero, suc, ◌+◌, ◌-◌, Bool, true, false, ◌&&◌, none, some, Bytes, equal, ◌==◌, u32,
  if◌then◌else◌,
}
use lugo.Token.{Kind, text}
use lugo.Lexer.Readers.{codes}
use lugo.Ast.Kinds.{NodeKind}
use lugo.Ast.{Node}
use lugo.Parser.{is_kind, is_ident_or_keyword}
use lugo.Parser.Action.{
  Action, returning, pure, fail, ◌>>=◌, ◌>>◌, gets, at_kind, advance, report, expect, node, add,
  node_of, extra_of, update, push, mark, flush, append_list, rounds, add_here, add_missing, leaf,
}
use lugo.Parser.Tables.{Parsers, lowest, stop_block_end, parse_expr_list}
use lugo.Parser.Calls.{parse_function_body}
use lugo.Parser.Statements.{loop_block}

unfoldable pub function_name : Action ℕ
function_name = do
  named ← at_kind Kind.ident
  if named then leaf NodeKind.ident else (report (codes "expected function name") >> add_missing)

unfoldable pub local_function : Parsers → ℕ → Action ℕ
local_function r start = do
  advance
  name ← function_name
  body ← parse_function_body r start
  n ← node_of body
  add (record (node NodeKind.local_function start n.end) { left = name; right = body })

-- `AttrNone`, `AttrConst` and `AttrClose`
abbrev pub attribute_code : Bytes → ℕ
attribute_code name =
    if equal name (codes "const") then 1 else if equal name (codes "close") then 2 else 0

-- `p.curr.Text(p.tree.Source)`
unfoldable pub curr_text : Action Bytes
curr_text p = returning (λ name. (name, p)) (text p.curr p.tree.source)

unfoldable pub read_attribute : Action ℕ
read_attribute = do
  advance
  name ← curr_text
  advance
  closed ← at_kind Kind.greater
  if closed then advance else pure tt
  pure (attribute_code name)

-- A name with its attribute.
unfoldable pub local_name : Action Bool
local_name = do
  ident ← leaf NodeKind.ident
  marked ← gets λ p. is_kind p.curr.kind Kind.less && is_kind p.peek.kind Kind.ident
  attr ← if marked then read_attribute else pure 0
  update ident (λ (n : Node). record n { extra = attr })
  push ident
  comma ← at_kind Kind.comma
  if comma then (advance >> pure true) else pure false

unfoldable pub local_loop : ℕ → Action (Unit {0})
local_loop zero = fail
local_loop (suc f) = do
  named ← at_kind Kind.ident
  more ← if named then local_name else (report (codes "expected identifier") >> pure false)
  if more then local_loop f else pure tt

-- Where the names begin and end.
unfoldable pub list_span : ℕ → ℕ → Action (ℕ × ℕ)
list_span e c = do
  first ← extra_of e
  last ← extra_of (u32 (e + (c - 1)))
  m ← node_of first
  n ← node_of last
  pure (m.start, n.end)

abbrev pub names_span : ℕ → ℕ → Action (ℕ × ℕ)
names_span e c = if c == 0 then gets (λ p. (p.curr.start, p.curr.start)) else list_span e c

unfoldable pub local_names : Action ℕ
local_names = do
  stack_start ← mark
  f ← rounds
  local_loop f
  (e, c) ← flush stack_start
  (start, end) ← names_span e c
  add (record (node NodeKind.name_list start end) { extra = e; count = c })

unfoldable pub local_assign : Parsers → ℕ → Action ℕ
local_assign r start = do
  names ← local_names
  assigns ← at_kind Kind.assign
  values ← if assigns then (advance >> parse_expr_list r) else pure 0
  end ← gets λ p. p.prev.end
  add (record (node NodeKind.local_assign start end) { left = names; right = values })

unfoldable pub parse_local : Parsers → Action ℕ
parse_local r = do
  start ← gets λ p. p.curr.start
  advance
  function ← at_kind Kind.function_kw
  if function then local_function r start else local_assign r start

-- `do`, the block of a loop and `end`; the value is the block with the end of the loop.
unfoldable pub for_block : Parsers → Action (ℕ × ℕ)
for_block r = do
  expect Kind.do_kw (codes "expected 'do'")
  block ← loop_block r stop_block_end
  end ← gets λ p. p.curr.end
  expect Kind.end_kw (codes "expected 'end'")
  pure (block, end)

-- A number of a numeric loop.
unfoldable pub for_item : Parsers → Action (Unit {0})
for_item r = do id ← r.expression lowest; push id

-- The step of a numeric loop.
unfoldable pub for_step : Parsers → Action (Unit {0})
for_step r = do advance; for_item r

unfoldable pub for_numeric : Parsers → ℕ → ℕ → Action ℕ
for_numeric r start name = do
  advance
  stack_start ← mark
  for_item r
  expect Kind.comma (codes "expected ','")
  for_item r
  comma ← at_kind Kind.comma
  if comma then for_step r else pure tt
  (block, end) ← for_block r
  (e, c) ← flush stack_start
  add (record (node NodeKind.for_num start end) {
    left = name;
    right = block;
    extra = e;
    count = c;
  })

-- A name behind a comma; `false` ends the names.
unfoldable pub for_name : Action Bool
for_name = do ident ← add_here NodeKind.ident; push ident; advance; pure true

unfoldable pub for_next : Action Bool
for_next = do
  advance
  named ← at_kind Kind.ident
  if named then for_name else (report (codes "expected identifier") >> pure false)

unfoldable pub for_names_loop : ℕ → Action (Unit {0})
for_names_loop zero = fail
for_names_loop (suc f) = do
  comma ← at_kind Kind.comma
  more ← if comma then for_next else pure false
  if more then for_names_loop f else pure tt

unfoldable pub for_names : ℕ → Action ℕ
for_names first = do
  stack_start ← mark
  push first
  f ← rounds
  for_names_loop f
  (e, c) ← append_list stack_start
  n ← node_of first
  end ← gets λ p. p.prev.end
  add (record (node NodeKind.name_list n.start end) { extra = e; count = c })

unfoldable pub for_generic : Parsers → ℕ → ℕ → Action ℕ
for_generic r start first = do
  names ← for_names first
  expect Kind.in_kw (codes "expected 'in'")
  values ← parse_expr_list r
  (block, end) ← for_block r
  add (record (node NodeKind.for_in start end) { left = names; right = block; extra = values })

unfoldable pub for_loop : Parsers → ℕ → Action ℕ
for_loop r start = do
  first ← leaf NodeKind.ident
  numeric ← at_kind Kind.assign
  if numeric then for_numeric r start first else for_generic r start first

unfoldable pub parse_for : Parsers → Action ℕ
parse_for r = do
  start ← gets λ p. p.curr.start
  advance
  named ← at_kind Kind.ident
  if named then for_loop r start else (report (codes "expected identifier after 'for'") >> pure 0)

-- `left.name` or `left:name`, a node of the given kind.
unfoldable pub qualify : NodeKind → ℕ → Action ℕ
qualify kind left = do
  right ← leaf NodeKind.ident
  n ← node_of left
  end ← gets λ p. p.prev.end
  add (record (node kind n.start end) { left = left; right = right })

-- The loop over the names behind dots.
unfoldable pub dotted : ℕ → ℕ → Action ℕ
dotted zero name = fail
dotted (suc f) name = do
  dot ← at_kind Kind.dot
  if dot then advance else pure tt
  named ← gets is_ident_or_keyword
  if dot
      then (if named
          then (qualify NodeKind.member_expr name >>= dotted f)
          else (report (codes "expected identifier") >> pure name))
      else pure name

unfoldable pub method_part : ℕ → Action ℕ
method_part name = do
  advance
  named ← gets is_ident_or_keyword
  if named
      then qualify NodeKind.method_name name
      else (report (codes "expected identifier") >> pure name)

unfoldable pub parse_function_stmt : Parsers → Action ℕ
parse_function_stmt r = do
  start ← gets λ p. p.curr.start
  advance
  first ← function_name
  f ← rounds
  name ← dotted f first
  colon ← at_kind Kind.colon
  full_name ← if colon then method_part name else pure name
  body ← parse_function_body r start
  n ← node_of body
  add (record (node NodeKind.function_stmt start n.end) { left = full_name; right = body })

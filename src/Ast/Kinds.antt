-- ===== src/Ast/Kinds.antt =====
-- `NodeKind` of ast/ast.go and the codes of its `iota` block. Kinds that are keywords of this
-- language end in `_stmt` or `_expr`.
use lugo.Base.{ℕ}

pub data NodeKind : Type 0 where
  invalid file block local_assign assign ident number string hashed_string : NodeKind
  binary_expr unary_expr paren_expr nil true_expr false_expr vararg function_expr : NodeKind
  table_expr index_expr member_expr call_expr record_field index_field method_call : NodeKind
  method_name expr_list name_list break_stmt return_stmt label goto do_stmt : NodeKind
  while_stmt repeat if_stmt else_if else_stmt for_num for_in local_function : NodeKind
  function_stmt : NodeKind

unfoldable pub node_kind_code : NodeKind → ℕ
node_kind_code NodeKind.invalid = 0
node_kind_code NodeKind.file = 1
node_kind_code NodeKind.block = 2
node_kind_code NodeKind.local_assign = 3
node_kind_code NodeKind.assign = 4
node_kind_code NodeKind.ident = 5
node_kind_code NodeKind.number = 6
node_kind_code NodeKind.string = 7
node_kind_code NodeKind.hashed_string = 8
node_kind_code NodeKind.binary_expr = 9
node_kind_code NodeKind.unary_expr = 10
node_kind_code NodeKind.paren_expr = 11
node_kind_code NodeKind.nil = 12
node_kind_code NodeKind.true_expr = 13
node_kind_code NodeKind.false_expr = 14
node_kind_code NodeKind.vararg = 15
node_kind_code NodeKind.function_expr = 16
node_kind_code NodeKind.table_expr = 17
node_kind_code NodeKind.index_expr = 18
node_kind_code NodeKind.member_expr = 19
node_kind_code NodeKind.call_expr = 20
node_kind_code NodeKind.record_field = 21
node_kind_code NodeKind.index_field = 22
node_kind_code NodeKind.method_call = 23
node_kind_code NodeKind.method_name = 24
node_kind_code NodeKind.expr_list = 25
node_kind_code NodeKind.name_list = 26
node_kind_code NodeKind.break_stmt = 27
node_kind_code NodeKind.return_stmt = 28
node_kind_code NodeKind.label = 29
node_kind_code NodeKind.goto = 30
node_kind_code NodeKind.do_stmt = 31
node_kind_code NodeKind.while_stmt = 32
node_kind_code NodeKind.repeat = 33
node_kind_code NodeKind.if_stmt = 34
node_kind_code NodeKind.else_if = 35
node_kind_code NodeKind.else_stmt = 36
node_kind_code NodeKind.for_num = 37
node_kind_code NodeKind.for_in = 38
node_kind_code NodeKind.local_function = 39
node_kind_code NodeKind.function_stmt = 40

-- ===== src/Parser/Samples.antt =====
-- The parser of parser/parser.go on small sources.
use lugo.Base.{◌∷◌, ℕ, ◌≡◌, refl, some, none, Option, List, [], Bytes, map}
use lugo.Base.{equal, modify_at}
use lugo.Lexer.Chars.{has_prop}
use lugo.Lexer.Machine.{new, reset, advance, peek, seek, has_bom}
use lugo.Lexer.Readers.{
  codes, space_loop, skip_whitespace, find_kind, ident_loop, read_ident, skip_sign, number_step,
  number_loop, read_number, string_loop, read_string, backtick_loop, read_backtick_string,
  equals_loop, long_loop, read_long_string, line_end, place, read_line_comment, read_comment,
}
use lugo.Lexer.Scanner.{pair, next_less, next_greater, next_dot, next_word, dispatch, next}
use lugo.Token.Set.{contains, new_token_set}
use lugo.Token.Codes.{kind_code}
use lugo.Token.{text}
use lugo.Ast.Kinds.{NodeKind, node_kind_code}
use lugo.Ast.Lines.{line_loop, compute_line_offsets}
use lugo.Ast.{new_tree, link, link_extras, add_node}
use lugo.Parser.{
  Parser, comment_loop, next_token, is_at, error_at, error, sync_loop, sync, flush_list_stack,
  is_ident_or_keyword,
}
use lugo.Parser
use lugo.Parser.Action.{
  pure, fail, ◌>>=◌, gets, modify, expect, add, node_of, update, extra_of, flush, append_list,
  add_here, add_missing, leaf,
}
use lugo.Parser.Tables.{
  precedence, expr_list_loop, add_expr_list, parse_expr_list, index_field, record_field,
  after_field, table_round, table_loop, parse_table_constructor,
}
use lugo.Parser.Calls.{
  args_round, args_loop, call_parens, call_string, call_table, parse_call_args, parameter,
  params_loop, parse_function_body,
}
use lugo.Parser.Expressions.{
  parse_unary, parse_paren, parse_function_expr, parse_prefix, infix_binary, member_name, infix_dot,
  infix_index, method_call, method_name, infix_colon, parse_infix, infix_loop, too_deep, operators,
  operand, parse_expression,
}
use lugo.Parser.Statements.{
  validate_loop, validate_targets, validate_lhs, assignment, not_a_call, single_call,
  call_statement, parse_assignment_or_call, parse_else_if, else_if_loop, parse_else, if_tail,
  parse_if, parse_return, loop_block, parse_while, parse_repeat, parse_do, parse_break,
  optional_name, parse_goto, parse_label,
}
use lugo.Parser.Declarations.{
  function_name, local_function, curr_text, read_attribute, local_name, local_loop, list_span,
  local_names, local_assign, parse_local, for_block, for_item, for_step, for_numeric, for_name,
  for_next, for_names_loop, for_names, for_generic, for_loop, parse_for, qualify, dotted,
  method_part, parse_function_stmt,
}
use lugo.Parser.Program.{
  parse_statement, check_return, take_statement, block_statement, block_loop, skip_loop, too_nested,
  last_end, statements, parse_block, parsers, parse_with, parse,
}

kinds_of : Option (ℕ × Parser) → List NodeKind
kinds_of none = []
kinds_of (some (root, p)) = map (λ n. n.kind) p.tree.nodes

parse_kinds : Bytes → List NodeKind
unfolding Parser.new modify_at new reset advance peek seek has_bom has_prop equal space_loop
    skip_whitespace find_kind ident_loop read_ident skip_sign number_step number_loop read_number
    string_loop read_string backtick_loop read_backtick_string equals_loop long_loop
    read_long_string line_end place read_line_comment read_comment pair next_less next_greater
    next_dot next_word dispatch next contains new_token_set kind_code text node_kind_code line_loop
    compute_line_offsets new_tree link link_extras add_node comment_loop next_token is_at error_at
    error sync_loop sync flush_list_stack is_ident_or_keyword pure fail ◌>>=◌ gets modify expect add
    node_of update extra_of flush append_list add_here add_missing leaf precedence expr_list_loop
    add_expr_list parse_expr_list index_field record_field after_field table_round table_loop
    parse_table_constructor args_round args_loop call_parens call_string call_table parse_call_args
    parameter params_loop parse_function_body parse_unary parse_paren parse_function_expr
    parse_prefix infix_binary member_name infix_dot infix_index method_call method_name infix_colon
    parse_infix infix_loop too_deep operators operand parse_expression validate_loop
    validate_targets validate_lhs assignment not_a_call single_call call_statement
    parse_assignment_or_call parse_else_if else_if_loop parse_else if_tail parse_if parse_return
    loop_block parse_while parse_repeat parse_do parse_break optional_name parse_goto parse_label
    function_name local_function curr_text read_attribute local_name local_loop list_span
    local_names local_assign parse_local for_block for_item for_step for_numeric for_name for_next
    for_names_loop for_names for_generic for_loop parse_for qualify dotted method_part
    parse_function_stmt parse_statement check_return take_statement block_statement block_loop
    skip_loop too_nested last_end statements parse_block parsers parse_with parse
parse_kinds src = kinds_of (parse (Parser.new src (new_tree src) 0))

run_local :
    parse_kinds (codes "local x = 1")
    ≡ NodeKind.invalid ∷ NodeKind.ident ∷ NodeKind.name_list ∷ NodeKind.number ∷ NodeKind.expr_list
      ∷ NodeKind.local_assign ∷ NodeKind.block ∷ NodeKind.file ∷ []
unfolding parse_kinds kinds_of
run_local = refl

-- `^` binds closer than the minus sign, which binds closer than `..`.
run_call :
    parse_kinds (codes "f{1}:g'a' return -x^2 .. y")
    ≡ NodeKind.invalid ∷ NodeKind.ident ∷ NodeKind.number ∷ NodeKind.table_expr ∷ NodeKind.call_expr
      ∷ NodeKind.ident ∷ NodeKind.string ∷ NodeKind.method_call ∷ NodeKind.expr_list
      ∷ NodeKind.ident ∷ NodeKind.number ∷ NodeKind.binary_expr ∷ NodeKind.unary_expr
      ∷ NodeKind.ident ∷ NodeKind.binary_expr ∷ NodeKind.expr_list ∷ NodeKind.return_stmt
      ∷ NodeKind.block ∷ NodeKind.file ∷ []
unfolding parse_kinds kinds_of
run_call = refl

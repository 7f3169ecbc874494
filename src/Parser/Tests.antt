-- ===== src/Parser/Tests.antt =====
-- Small parsers of parser/parser.go, and the theorems about them.
use lugo.Base.{◌≡◌, true, false, List, [], ◌∷◌, Bytes, arith}
use lugo.Token.{Kind, Token}
use lugo.Lexer.Machine.{Lexer}
use lugo.Lexer.Machine
use lugo.Lexer.Readers.{codes}
use lugo.Lexer.Valid.{IsValid, new-IsValid}
use lugo.Ast.{new_tree}
use lugo.Parser.{Parser, is_kind, zero_token, new, reset, next_token, sync, flush_list_stack}
use lugo.Parser.Stream.{Run, gather, live, next_token_lem}
use lugo.Parser.Start.{ready, new_lem, reset_lem}
use lugo.Parser.Recovery.{Moved, is_boundary, sync_lem}
use lugo.Parser.Stack.{Flushed, flush_list_stack_lem}

abbrev code : Bytes
code = codes "= -- c\n 1 x"

abbrev begun : Parser
begun = record {
  lex = Machine.new code;
  tree = new_tree code;
  errors = [];
  max_errors = 0;
  prev = zero_token;
  curr = zero_token;
  peek = zero_token;
  loop_depth = 0;
  depth = 0;
  block_depth = 0;
  list_stack = 4 ∷ 7 ∷ 9 ∷ [];
}

begun-IsValid : IsValid (Machine.new code)
begun-IsValid = (new-IsValid code (omega arith)).0

next_token_lem_example :
    (cs : List Token) × (t : Token) × (m : Lexer) × Run (Machine.new code) cs t m
    × (next_token begun ≡ gather (record begun { prev = zero_token; curr = zero_token }) cs t m)
    × IsValid m
    × (is_kind t.kind Kind.comment ≡ false)
next_token_lem_example = next_token_lem begun begun-IsValid

sync_lem_example : Moved (live zero_token) begun (sync begun) × (is_boundary (sync begun) ≡ true)
sync_lem_example = sync_lem begun begun-IsValid

flush_list_stack_lem_example : Flushed begun 1 (flush_list_stack begun 1)
unfolding new_tree
flush_list_stack_lem_example = flush_list_stack_lem begun 1 (omega arith) (omega arith)

new_lem_example :
    (cs : List Token) × (ds : List Token) × (t : Token) × (u : Token) × (m : Lexer) × (n : Lexer)
    × Run (Machine.new code) cs t m
    × Run m ds u n
    × (new code (new_tree code) 3 ≡ ready n (new_tree code) 3 cs ds t u)
new_lem_example = new_lem code (new_tree code) 3 (omega arith)

reset_lem_example :
    reset begun code (new_tree code) ≡ record (new code (new_tree code) 0) { prev = zero_token }
reset_lem_example = reset_lem begun code (new_tree code)

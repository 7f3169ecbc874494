-- ===== src/Parser/Program/Tests.antt =====
-- The theorems about `Parse` of parser/parser.go on a small source.
use mathlib.Core.Path.{subst}
use mathlib.Core.Option.{some-injective}
use lugo.Base.{
  ◌∷◌, [], ◌∙◌, sym, ap, ◌<◌, ◌+◌, ◌*◌, ◌≤◌, ◌≡◌, refl, ℕ, some, Bytes, length, get_elem?, arith,
}
use lugo.Token.{Kind}
use lugo.Lexer.Readers.{codes}
use lugo.Ast.Kinds.{NodeKind, node_kind_code}
use lugo.Ast.{Node, Tree, invalid_node, new_tree, add_node, link, link_extras}
use lugo.Ast.Find.{node_at}
use lugo.Ast.Shape.{IsTree, new_tree-IsTree, add_node-IsTree}
use lugo.Ast.Innermost.{IsInnermost}
use lugo.Parser.{Parser, new}
use lugo.Parser.Good.{Good}
use lugo.Parser.Tables.{precedence}
use lugo.Parser.Expressions.{parse_infix}
use lugo.Parser.Program.Infix.{parse_infix_lem}
use lugo.Parser.Sound.{rest}
use lugo.Parser.Program.{parsers, parse}
use lugo.Parser.Program.Total.{IsFile, parsers-Good}
use lugo.Parser.Program.Parse.{
  Fits, new-Inv, parse_lem, parse_at_end, parse_balanced, parse_size, parse-node_at,
}

abbrev code : Bytes
code = codes "local t <const> = { x = f(1, ...), [2] = a.b:c'd' }; return function(v) end"

code-Fits : Fits code (new_tree code)
unfolding new_tree
code-Fits = record { same = refl; shape = new_tree-IsTree code; room = omega arith }

parse_lem_example :
    (root : ℕ) × (q : Parser) × (parse (new code (new_tree code) 0) ≡ some (root, q))
    × IsTree q.tree
    × (q.tree.source ≡ code)
    × (q.tree.root ≡ root)
    × (m : Node) × (get_elem? q.tree.nodes root ≡ some m)
    × IsFile code m
parse_lem_example = parse_lem code (new_tree code) 0 code-Fits

parse_at_end_example :
    (root : ℕ) × (q : Parser) × (parse (new code (new_tree code) 0) ≡ some (root, q))
    × (q.curr.kind ≡ Kind.eof)
parse_at_end_example = parse_at_end code (new_tree code) 0 code-Fits

parse_balanced_example :
    (root : ℕ) × (q : Parser) × (parse (new code (new_tree code) 0) ≡ some (root, q))
    × (q.depth ≡ 0)
    × (q.loop_depth ≡ 0)
    × (q.block_depth ≡ 0)
    × (length q.list_stack ≡ 0)
parse_balanced_example = parse_balanced code (new_tree code) 0 code-Fits

parse_size_example :
    (root : ℕ) × (q : Parser) × (parse (new code (new_tree code) 0) ≡ some (root, q))
    × (length q.tree.nodes + length q.tree.extra_list
        ≤ length (new_tree code).nodes + length (new_tree code).extra_list + 8 * length code + 2)
parse_size_example = parse_size code (new_tree code) 0 code-Fits

parse-node_at_example :
    (root : ℕ) × (q : Parser) × (parse (new code (new_tree code) 0) ≡ some (root, q))
    × (id : ℕ) × (node_at q.tree 20 ≡ some (some id))
    × IsInnermost q.tree 20 root id
parse-node_at_example = parse-node_at code (new_tree code) 0 code-Fits 20 (omega arith)

parsers-Good_example : Good (parsers 70) 70 70
parsers-Good_example = parsers-Good 70

abbrev name_node : Node
name_node = record invalid_node { kind = NodeKind.ident }

-- A tree that has a node, before a source that begins with an operator.
abbrev operand_tree : Tree
operand_tree = record (new_tree (codes ":b()")) { nodes = invalid_node ∷ name_node ∷ [] }

operand_tree-IsTree : IsTree operand_tree
unfolding new_tree add_node link link_extras node_kind_code
operand_tree-IsTree =
    let (_, done, _, shape) =
      add_node-IsTree (new_tree (codes ":b()")) name_node (new_tree-IsTree (codes ":b()"))
        (omega arith)
        (record {
          left_below = omega arith;
          right_below = omega arith;
          third_below = λ e. omega arith;
          extras_below = λ i h. absurd (omega arith);
          fits = omega arith;
        }) in
    let made : add_node (new_tree (codes ":b()")) name_node ≡ some (operand_tree, 1) = refl in
    subst IsTree (ap (λ (r : Tree × ℕ). r.0) (some-injective _ _ (sym done ∙ made))) shape

operand-Fits : Fits (codes ":b()") operand_tree
unfolding new_tree
operand-Fits = record { same = refl; shape = operand_tree-IsTree; room = omega arith }

parse_infix_lem_example :
    let p = new (codes ":b()") operand_tree 0 in
    (id : ℕ) × (s : Parser) × (parse_infix (parsers 4) 1 p ≡ some (id, s))
    × (precedence p.curr.kind ≡ 0 → (id ≡ 1) × (s ≡ p))
    × (0 < precedence p.curr.kind → (rest s < rest p) × (0 < id) × (id < length s.tree.nodes))
unfolding new_tree
parse_infix_lem_example =
    let (inv, room, left, nodes) = new-Inv (codes ":b()") operand_tree 0 operand-Fits in
    parse_infix_lem 4 (new (codes ":b()") operand_tree 0) 1 inv room (omega arith) (omega arith)
      (omega arith)

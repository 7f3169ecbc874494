-- ===== src/Parser/Declarations/Functions.antt =====
-- The statements of parser/parser.go that declare functions do not panic and come to an end.
use lugo.Base.{ℕ, zero, suc, ◌+◌, ◌≤◌, ◌<◌, ◌≡◌, refl, false, length, arith}
use lugo.Token.{Kind}
use lugo.Token.Codes.{kind_code}
use lugo.Ast.Kinds.{NodeKind, node_kind_code}
use lugo.Ast.{Node}
use lugo.Ast
use lugo.Parser.{Parser, is_kind, is_ident_or_keyword}
use lugo.Parser.Stream.{live}
use lugo.Parser.Sound.{rest, weight, Room, To}
use lugo.Parser.Rules.{Runs, Runs-pure, Runs-bind, Runs-if, Runs-gets, Runs-map}
use lugo.Parser.Steps.{Move, live-name, rest-rounds, stay, Runs-advance, Runs-report, Runs-add}
use lugo.Parser.Nodes.{pair-IsPlaced, Runs-leaf, Runs-node_of, Runs-add_missing}
use lugo.Parser.Good.{Good, Stmt}
use lugo.Parser.Tables.{Parsers}
use lugo.Parser.Calls.Total.{parse_function_body-Runs}
use lugo.Parser.Declarations.{
  function_name, local_function, qualify, dotted, method_part, parse_function_stmt,
}

-- A name, of which at most one entry is not paid for
abbrev Name : Parser → Parser → ℕ → Parser → Type 0
Name b q id s = Move b q 0 1 0 s × (id < length s.tree.nodes)

function_name-Runs :
    {b q : Parser} → To b q → weight q + 1 < 4294967296 → Runs function_name q (Name b q)
unfolding function_name node_kind_code kind_code
function_name-Runs {b} {q} t room = Runs-gets _ _ (
    Runs-if (is_kind q.curr.kind Kind.ident)
      (λ e.
        Runs-map (Runs-leaf t NodeKind.ident refl room)
          λ id s ((t1, g1, r1, w1, l1), (_, _, new)). ((t1, g1, omega arith, omega arith, l1), new))
      (λ _. Runs-bind (Runs-report t _) λ _ s1 (t1, g1, r1, w1, l1, _).
        Runs-map (Runs-add_missing t1 (omega arith)) λ id s2 ((t2, g2, r2, w2, l2, _), (_, _, new)).
          ((t2, omega arith, omega arith, omega arith, omega arith), new)))

pub local_function-Runs :
    (r : Parsers) {m n : ℕ}
    → Good r m n
    → (start : ℕ) {b q : Parser} → To b q
    → Room q
    → rest q ≤ n
    → live q.curr ≡ 1
    → Runs (local_function r start) q (Stmt b q)
unfolding local_function node_kind_code
local_function-Runs r good start {b} {q} t room hn alive =
    Runs-bind (Runs-advance t) λ _ s1 (t1, g1, r1, w1, l1).
      Runs-bind (function_name-Runs t1 (omega arith)) λ name s2 ((t2, g2, r2, w2, l2), low2).
        Runs-bind (parse_function_body-Runs r good start t2 (omega arith) (omega arith))
          λ body s3 ((t3, g3, r3, w3, l3), _, low3). Runs-node_of _ body low3 λ k _.
            Runs-map
              (Runs-add t3 _ (omega arith) (
                pair-IsPlaced NodeKind.local_function start _ name body 0 refl (omega arith) low3
                  (omega arith)))
              λ id s4 ((t4, g4, r4, w4, l4, _), (_, _, new)). (
                (t4, omega arith, omega arith, omega arith, omega arith),
                new,
                (λ _. (omega arith, omega arith)),
              )

-- A name behind a dot or a colon pays for itself.
abbrev Longer : Parser → Parser → ℕ → Parser → Type 0
Longer b q id s = Move b q 0 0 0 s × (rest s + 1 ≤ rest q) × (id < length s.tree.nodes)

qualify-Runs :
    (kind : NodeKind)
    → Ast.is_kind kind NodeKind.for_in ≡ false
    → {b q : Parser} → To b q
    → Room q
    → (left : ℕ) → left < length q.tree.nodes
    → live q.curr ≡ 1
    → Runs (qualify kind left) q (Longer b q)
unfolding qualify node_kind_code
qualify-Runs kind plain {b} {q} t room left low alive =
    Runs-bind (Runs-leaf t NodeKind.ident refl (omega arith))
      λ right s1 ((t1, g1, r1, w1, l1), (_, _, low1)). Runs-node_of _ left (omega arith) λ k _.
        Runs-gets _ _ (
          Runs-map
            (Runs-add t1 _ (omega arith)
              (pair-IsPlaced kind _ _ left right 0 plain (omega arith) low1 (omega arith)))
            λ id s2 ((t2, g2, r2, w2, l2, _), (_, _, new)).
              ((t2, omega arith, omega arith, omega arith, omega arith), omega arith, new))

method_part-Runs :
    {b q : Parser}
    → To b q
    → Room q
    → (left : ℕ) → left < length q.tree.nodes
    → Runs (method_part left) q (λ id s. Move b q 0 0 0 s × (id < length s.tree.nodes))
unfolding method_part node_kind_code
method_part-Runs t room left low = Runs-bind (Runs-advance t) λ _ s1 (t1, g1, r1, w1, l1).
    Runs-gets _ _ (
      Runs-if (is_ident_or_keyword s1)
        (λ e.
          Runs-map
            (qualify-Runs NodeKind.method_name refl t1 (omega arith) left (omega arith)
              (live-name s1 e))
            λ id s2 ((t2, g2, r2, w2, l2), _, new).
              ((t2, omega arith, omega arith, omega arith, omega arith), new))
        (λ _. Runs-bind (Runs-report t1 _) λ _ s2 (t2, g2, r2, w2, l2, _).
          Runs-pure left ((t2, omega arith, omega arith, omega arith, omega arith), omega arith)))

dotted-Runs :
    (f name : ℕ) {b q : Parser}
    → To b q
    → Room q
    → rest q < f
    → name < length q.tree.nodes
    → Runs (dotted f name) q (λ id s. Move b q 0 0 0 s × (id < length s.tree.nodes))
unfolding dotted node_kind_code
dotted-Runs zero name t room h low = absurd (omega arith)
dotted-Runs (suc f) name {b} {q} t room h low = Runs-gets _ _ (
    Runs-bind {R = λ _ s. Move b q 0 0 0 s}
      (Runs-if (is_kind q.curr.kind Kind.dot)
        (λ _.
          Runs-map (Runs-advance t)
            λ _ s (t1, g1, r1, w1, l1). (t1, g1, omega arith, omega arith, l1))
        (λ _. Runs-pure tt (stay t)))
      λ _ s1 (t1, g1, r1, w1, l1). Runs-gets _ _ (
        Runs-if (is_kind q.curr.kind Kind.dot)
          (λ _.
            Runs-if (is_ident_or_keyword s1)
              (λ e.
                Runs-bind
                  (qualify-Runs NodeKind.member_expr refl t1 (omega arith) name (omega arith)
                    (live-name s1 e))
                  λ id s2 ((t2, g2, r2, w2, l2), less, new).
                    Runs-map (dotted-Runs f id t2 (omega arith) (omega arith) new)
                      λ id' s3 ((t3, g3, r3, w3, l3), new3).
                        ((t3, omega arith, omega arith, omega arith, omega arith), new3))
              (λ _. Runs-bind (Runs-report t1 _) λ _ s2 (t2, g2, r2, w2, l2, _).
                Runs-pure name
                  ((t2, omega arith, omega arith, omega arith, omega arith), omega arith)))
          (λ _. Runs-pure name ((t1, g1, r1, w1, l1), omega arith))))

pub parse_function_stmt-Runs :
    (r : Parsers) {m n : ℕ}
    → Good r m n
    → {b q : Parser} → To b q
    → Room q
    → rest q ≤ n
    → live q.curr ≡ 1
    → Runs (parse_function_stmt r) q (Stmt b q)
unfolding parse_function_stmt node_kind_code
parse_function_stmt-Runs r good {b} {q} t room hn alive = Runs-gets _ _ (
    Runs-bind (Runs-advance t) λ _ s1 (t1, g1, r1, w1, l1).
      Runs-bind (function_name-Runs t1 (omega arith)) λ first s2 ((t2, g2, r2, w2, l2), low2).
        Runs-gets _ _ (
          Runs-bind
            (dotted-Runs (length s2.lex.source + 3) first t2 (omega arith) (rest-rounds t2) low2)
            λ name s3 ((t3, g3, r3, w3, l3), low3). Runs-gets _ _ (
              Runs-bind {R = λ id s. Move b s3 0 0 0 s × (id < length s.tree.nodes)}
                (Runs-if (is_kind s3.curr.kind Kind.colon)
                  (λ _. method_part-Runs t3 (omega arith) name low3)
                  (λ _. Runs-pure name (stay t3, low3)))
                λ full_name s4 ((t4, g4, r4, w4, l4), low4).
                  Runs-bind
                    (parse_function_body-Runs r good q.curr.start t4 (omega arith) (omega arith))
                    λ body s5 ((t5, g5, r5, w5, l5), _, low5). Runs-node_of _ body low5 λ k _.
                      Runs-map
                        (Runs-add t5 _ (omega arith) (
                          pair-IsPlaced NodeKind.function_stmt _ _ full_name body 0 refl
                            (omega arith) low5 (omega arith)))
                        λ id s6 ((t6, g6, r6, w6, l6, _), (_, _, new)). (
                          (t6, omega arith, omega arith, omega arith, omega arith),
                          new,
                          (λ _. (omega arith, omega arith)),
                        ))))

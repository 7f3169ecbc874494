-- ===== src/Parser/Statements/Small.antt =====
-- `break`, `goto` and labels of parser/parser.go do not panic and come to an end.
use lugo.Base.{◌<◌, ◌≡◌, refl, Bytes, length, ◌==◌, arith}
use lugo.Token.{Kind}
use lugo.Token.Codes.{kind_code}
use lugo.Ast.Kinds.{NodeKind, node_kind_code}
use lugo.Parser.{Parser, is_kind}
use lugo.Parser.Stream.{live}
use lugo.Parser.Sound.{Room, To}
use lugo.Parser.Rules.{Runs, Runs-pure, Runs-bind, Runs-if, Runs-gets, Runs-map}
use lugo.Parser.Steps.{Move, live-kind, Runs-advance, Runs-report, Runs-expect, Runs-add}
use lugo.Parser.Nodes.{pair-IsPlaced, Runs-leaf, Runs-add_plain}
use lugo.Parser.Good.{Stmt}
use lugo.Parser.Statements.{parse_break, optional_name, parse_goto, parse_label}

optional_name-Runs :
    (message : Bytes) {b q : Parser}
    → To b q
    → Room q
    → Runs (optional_name message) q (λ id s. Move b q 0 0 0 s × (id < length s.tree.nodes))
unfolding optional_name node_kind_code kind_code
optional_name-Runs message {b} {q} t room = Runs-gets _ _ (
    Runs-if (is_kind q.curr.kind Kind.ident)
      (λ e.
        let one = live-kind q.curr Kind.ident e refl in
        Runs-map (Runs-leaf t NodeKind.ident refl (omega arith))
          λ id s ((t1, g1, r1, w1, l1), (_, _, new)). ((t1, g1, omega arith, omega arith, l1), new))
      (λ _. Runs-bind (Runs-report t message) λ _ s (t1, g1, r1, w1, l1, _).
        Runs-pure 0 ((t1, g1, omega arith, omega arith, l1), t1.inv.shape.nonempty)))

module _ {b q : Parser} (t : To b q) (room : Room q) (alive : live q.curr ≡ 1) where
  pub parse_break-Runs : Runs parse_break q (Stmt b q)
  unfolding parse_break node_kind_code
  parse_break-Runs = Runs-gets _ _ (
      Runs-gets _ _ (
        Runs-bind
          (Runs-if (q.loop_depth == 0) (λ _. Runs-report t _)
            (λ _. Runs-pure tt (t, omega arith, refl, omega arith, omega arith, refl)))
          λ _ s1 (t1, g1, r1, w1, l1, live1).
            Runs-bind (Runs-advance t1) λ _ s2 (t2, g2, r2, w2, l2).
              Runs-map (Runs-add_plain t2 NodeKind.break_stmt _ _ refl (omega arith))
                λ id s3 ((t3, g3, r3, w3, l3, _), (_, _, new)). (
                  (t3, omega arith, omega arith, omega arith, omega arith),
                  new,
                  (λ _. (omega arith, omega arith)),
                )))

  pub parse_goto-Runs : Runs parse_goto q (Stmt b q)
  unfolding parse_goto node_kind_code
  parse_goto-Runs = Runs-gets _ _ (
      Runs-bind (Runs-advance t) λ _ s1 (t1, g1, r1, w1, l1).
        Runs-bind (optional_name-Runs _ t1 (omega arith)) λ label s2 ((t2, g2, r2, w2, l2), low2).
          Runs-gets _ _ (
            Runs-map
              (Runs-add t2 _ (omega arith) (
                pair-IsPlaced NodeKind.goto _ _ label 0 0 refl low2 t2.inv.shape.nonempty
                  (omega arith)))
              λ id s3 ((t3, g3, r3, w3, l3, _), (_, _, new)). (
                (t3, omega arith, omega arith, omega arith, omega arith),
                new,
                (λ _. (omega arith, omega arith)),
              )))

  pub parse_label-Runs : Runs parse_label q (Stmt b q)
  unfolding parse_label node_kind_code
  parse_label-Runs = Runs-gets _ _ (
      Runs-bind (Runs-advance t) λ _ s1 (t1, g1, r1, w1, l1).
        Runs-bind (optional_name-Runs _ t1 (omega arith)) λ name s2 ((t2, g2, r2, w2, l2), low2).
          Runs-bind (Runs-expect t2 Kind.double_colon _) λ _ s3 (t3, g3, r3, w3, l3).
            Runs-gets _ _ (
              Runs-map
                (Runs-add t3 _ (omega arith) (
                  pair-IsPlaced NodeKind.label _ _ name 0 0 refl (omega arith) t3.inv.shape.nonempty
                    (omega arith)))
                λ id s4 ((t4, g4, r4, w4, l4, _), (_, _, new)). (
                  (t4, omega arith, omega arith, omega arith, omega arith),
                  new,
                  (λ _. (omega arith, omega arith)),
                )))

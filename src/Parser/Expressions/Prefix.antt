-- ===== src/Parser/Expressions/Prefix.antt =====
-- The operands of parser/parser.go do not panic and come to an end.
use lugo.Base.{ℕ, ◌≤◌, ◌≡◌, refl, false, [], ◌∷◌, if◌then◌else◌, arith}
use lugo.Token.{Kind}
use lugo.Token.Codes.{kind_code}
use lugo.Ast.Kinds.{NodeKind, node_kind_code}
use lugo.Ast.{Node}
use lugo.Ast
use lugo.Parser.{Parser, is_kind, is_one_of}
use lugo.Parser.Stream.{live}
use lugo.Parser.Sound.{rest, Room, To}
use lugo.Parser.Rules.{Runs, Runs-pure, Runs-bind, Runs-if, Runs-gets, Runs-map}
use lugo.Parser.Steps.{live-kind, Runs-advance, Runs-report, Runs-expect, Runs-add}
use lugo.Parser.Nodes.{pair-IsPlaced, Runs-leaf}
use lugo.Parser.Good.{Expr, Good}
use lugo.Parser.Action.{Action, leaf}
use lugo.Parser.Tables.{Parsers, lowest, unary}
use lugo.Parser.Tables.Total.{parse_table_constructor-Runs}
use lugo.Parser.Calls.Total.{parse_function_body-Runs}
use lugo.Parser.Expressions.{parse_unary, parse_paren, parse_function_expr, parse_prefix}

module _ {b q : Parser} (t : To b q) (room : Room q) where
  leaf-Expr :
      (kind : NodeKind)
      → Ast.is_kind kind NodeKind.for_in ≡ false
      → live q.curr ≡ 1
      → Runs (leaf kind) q (Expr b q)
  leaf-Expr kind plain alive =
      Runs-map (Runs-leaf t kind plain (omega arith)) λ id s ((t1, g1, r1, w1, l1), (_, _, new)).
        ((t1, g1, omega arith, omega arith, l1), new, (λ _. (omega arith, omega arith)))

module _ (r : Parsers) {m : ℕ} (good : Good r m m) {b q : Parser} (t : To b q) (room : Room q)
    (h : rest q ≤ m) where
  parse_unary-Runs : live q.curr ≡ 1 → Runs (parse_unary r) q (Expr b q)
  unfolding parse_unary node_kind_code
  parse_unary-Runs alive = Runs-gets _ _ (
      Runs-bind (Runs-advance t) λ _ s1 (t1, g1, r1, w1, l1).
        Runs-bind (good.expression unary t1 (omega arith) (omega arith))
          λ right s2 ((t2, g2, r2, w2, l2), low, _). Runs-gets _ _ (
            Runs-map
              (Runs-add t2 _ (omega arith) (
                pair-IsPlaced NodeKind.unary_expr _ _ 0 right 0 refl
                  (omega (arith, t2.inv.shape.nonempty)) low (omega arith)))
              λ id s3 ((t3, g3, r3, w3, l3, _), (_, _, new)). (
                (t3, omega arith, omega arith, omega arith, omega arith),
                new,
                (λ _. (omega arith, omega arith)),
              )))

  parse_paren-Runs : live q.curr ≡ 1 → Runs (parse_paren r) q (Expr b q)
  unfolding parse_paren node_kind_code
  parse_paren-Runs alive = Runs-gets _ _ (
      Runs-bind (Runs-advance t) λ _ s1 (t1, g1, r1, w1, l1).
        Runs-bind (good.expression lowest t1 (omega arith) (omega arith))
          λ id s2 ((t2, g2, r2, w2, l2), low, _). Runs-gets _ _ (
            Runs-bind (Runs-expect t2 Kind.r_paren _) λ _ s3 (t3, g3, r3, w3, l3).
              Runs-map
                (Runs-add t3 _ (omega arith) (
                  pair-IsPlaced NodeKind.paren_expr _ _ id 0 0 refl (omega arith)
                    (omega (arith, t3.inv.shape.nonempty)) (omega arith)))
                λ id' s4 ((t4, g4, r4, w4, l4, _), (_, _, new)). (
                  (t4, omega arith, omega arith, omega arith, omega arith),
                  new,
                  (λ _. (omega arith, omega arith)),
                )))

  parse_function_expr-Runs : live q.curr ≡ 1 → Runs (parse_function_expr r) q (Expr b q)
  unfolding parse_function_expr
  parse_function_expr-Runs alive = Runs-gets _ _ (
      Runs-bind (Runs-advance t) λ _ s1 (t1, g1, r1, w1, l1).
        Runs-map (parse_function_body-Runs r good q.curr.start t1 (omega arith) (omega arith))
          λ id s2 ((t2, g2, r2, w2, l2), _, new). (
            (t2, omega arith, omega arith, omega arith, omega arith),
            new,
            (λ _. (omega arith, omega arith)),
          ))

  infixr 1 leaf_at◌makes◌by◌otherwise◌
  leaf_at◌makes◌by◌otherwise◌ :
      {n : Action ℕ} (k : Kind) (kind : NodeKind)
      → (Ast.is_kind kind NodeKind.for_in ≡ false) × (is_kind k Kind.eof ≡ false)
      → Runs n q (Expr b q)
      → Runs (if is_kind q.curr.kind k then leaf kind else n) q (Expr b q)
  leaf_at k makes kind by (plain, alive) otherwise other =
      Runs-if (is_kind q.curr.kind k)
        (λ e. leaf-Expr t room kind plain (live-kind q.curr k e alive)) (λ _. other)

  pub parse_prefix-Runs : Runs (parse_prefix r) q (Expr b q)
  unfolding parse_prefix node_kind_code kind_code
  parse_prefix-Runs = Runs-gets _ _ (
      leaf_at Kind.ident
      makes NodeKind.ident
      by (refl, refl)
      otherwise leaf_at Kind.number
      makes NodeKind.number
      by (refl, refl)
      otherwise leaf_at Kind.string
      makes NodeKind.string
      by (refl, refl)
      otherwise leaf_at Kind.backtick_string
      makes NodeKind.hashed_string
      by (refl, refl)
      otherwise leaf_at Kind.nil_kw
      makes NodeKind.nil
      by (refl, refl)
      otherwise leaf_at Kind.true_kw
      makes NodeKind.true_expr
      by (refl, refl)
      otherwise leaf_at Kind.false_kw
      makes NodeKind.false_expr
      by (refl, refl)
      otherwise leaf_at Kind.vararg
      makes NodeKind.vararg
      by (refl, refl)
      otherwise (Runs-if (is_kind q.curr.kind Kind.l_brace)
          (λ e.
            Runs-map
              (parse_table_constructor-Runs r good t room (live-kind q.curr Kind.l_brace e refl) h)
              λ id s (x, _, _). x)
          (λ _.
            Runs-if (is_kind q.curr.kind Kind.function_kw)
              (λ e. parse_function_expr-Runs (live-kind q.curr Kind.function_kw e refl))
              (λ _.
                Runs-if
                  (is_one_of (Kind.minus ∷ Kind.not_kw ∷ Kind.hash ∷ Kind.bit_xor ∷ []) q.curr.kind)
                  (λ e. parse_unary-Runs (ground arith))
                  (λ _.
                    Runs-if (is_kind q.curr.kind Kind.l_paren)
                      (λ e. parse_paren-Runs (live-kind q.curr Kind.l_paren e refl))
                      (λ _. Runs-bind (Runs-report t _) λ _ s (t1, g1, r1, w1, l1, _). Runs-pure 0 (
                        (t1, g1, omega arith, omega arith, l1),
                        omega (arith, t1.inv.shape.nonempty),
                        (λ ne. absurd (ne refl)),
                      )))))))

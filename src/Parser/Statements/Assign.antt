-- ===== src/Parser/Statements/Assign.antt =====
-- Assignments and calls of parser/parser.go do not panic and come to an end.
use lugo.Base.{ℕ, zero, suc, ◌+◌, ◌<◌, ◌≡◌, refl, ◌||◌, some, length, get_elem?, ◌==◌, u32, arith}
use lugo.Token.{Kind}
use lugo.Token.Codes.{kind_code}
use lugo.Ast.Kinds.{NodeKind, node_kind_code}
use lugo.Ast.{Node}
use lugo.Ast
use lugo.Parser.{Parser, is_kind}
use lugo.Parser.Stream.{live}
use lugo.Parser.Sound.{rest, Room, To}
use lugo.Parser.Rules.{Runs, Runs-pure, Runs-bind, Runs-if, Runs-gets, Runs-map}
use lugo.Parser.Steps.{Move, Keep, live-kind, Runs-advance, Runs-report_at, Runs-add}
use lugo.Parser.Nodes.{pair-IsPlaced, IsPiece, Runs-node_of, Runs-extra_of}
use lugo.Parser.Good.{Stmt, Good}
use lugo.Parser.Tables.{Parsers}
use lugo.Parser.Tables.Total.{parse_expr_list-Runs}
use lugo.Parser.Statements.{
  is_target, validate_loop, validate_targets, validate_lhs, assignment, not_a_call, single_call,
  call_statement, parse_assignment_or_call,
}

-- The children of a node in the tree are in the tree.
child-IsPiece :
    {b q : Parser} (t : To b q) (id : ℕ) (n : Node)
    → id < length q.tree.nodes
    → get_elem? q.tree.nodes id ≡ some n
    → IsPiece q.tree.extra_list (length q.tree.nodes) n.extra n.count
child-IsPiece t id n low e =
    let p = t.inv.shape.placed id n e in
    let some_node = t.inv.shape.nonempty in
    ((λ i h. let (c, found, below) = p.extras_below i h in (c, found, omega arith)), p.fits)

validate_loop-Runs :
    (extra n k i : ℕ) {b q : Parser}
    → To b q
    → i + k ≡ n
    → IsPiece q.tree.extra_list (length q.tree.nodes) extra n
    → Runs (validate_loop extra k i) q (λ _ s. Keep b q 0 0 s)
unfolding validate_loop
validate_loop-Runs extra n zero i t sum h =
    Runs-pure tt (t, omega arith, refl, omega arith, omega arith, refl)
validate_loop-Runs extra n (suc k) i {b} {q} t sum (children, fits) =
    let (c, found, below) = children i (omega arith) in
    let exact : u32 (extra + i) ≡ extra + i = omega arith in
    Runs-extra_of _ (u32 (extra + i)) c (rw exact found) (
      Runs-node_of _ c below λ m _.
        Runs-bind {R = λ _ s. Keep b q 0 0 s × (s.tree ≡ q.tree)}
          (Runs-if (is_target m.kind)
            (λ _. Runs-pure tt ((t, omega arith, refl, omega arith, omega arith, refl), refl))
            (λ _. Runs-report_at t m.start m.end _))
          λ _ s1 ((t1, g1, r1, w1, l1, live1), same).
            Runs-map
              (validate_loop-Runs extra n k (i + 1) t1 (omega arith) (rw same (children, fits)))
              λ _ s2 (t2, g2, r2, w2, l2, live2).
                (t2, omega arith, omega arith, omega arith, omega arith, omega arith))

validate_lhs-Runs :
    (id : ℕ) {b q : Parser}
    → To b q
    → id < length q.tree.nodes
    → Runs (validate_lhs id) q (λ _ s. Keep b q 0 0 s)
unfolding validate_lhs validate_targets
validate_lhs-Runs id {b} {q} t low =
    Runs-if (id == 0) (λ _. Runs-pure tt (t, omega arith, refl, omega arith, omega arith, refl))
      (λ _. Runs-node_of _ id low λ n e.
        validate_loop-Runs n.extra n.count n.count 0 t (omega arith) (child-IsPiece t id n low e))

module _ {b q : Parser} (t : To b q) (id : ℕ) (low : id < length q.tree.nodes) where
  not_a_call-Runs : Runs (not_a_call id) q (λ a s. Keep b q 0 0 s × (a < length s.tree.nodes))
  unfolding not_a_call
  not_a_call-Runs = Runs-node_of _ id low λ n _.
      Runs-bind (Runs-report_at t n.start n.end _) λ _ s ((t1, g1, r1, w1, l1, live1), _).
        Runs-pure 0 ((t1, g1, r1, w1, l1, live1), t1.inv.shape.nonempty)

  -- The value is 0 or the only child of the list.
  call_statement-Runs :
      Runs (call_statement id) q (λ a s. Keep b q 0 0 s × (a < length s.tree.nodes))
  unfolding call_statement single_call
  call_statement-Runs = Runs-node_of _ id low λ n e.
      Runs-if (n.count == 1)
        (λ single.
          let (children, _) = child-IsPiece t id n low e in
          let (c, found, below) = children 0 (ground arith) in
          let first : n.extra + 0 ≡ n.extra = omega arith in
          Runs-extra_of _ n.extra c (rw first at found) (
            Runs-node_of _ c below λ m _.
              Runs-if
                (Ast.is_kind m.kind NodeKind.call_expr || Ast.is_kind m.kind NodeKind.method_call)
                (λ _. Runs-pure c ((t, omega arith, refl, omega arith, omega arith, refl), below))
                (λ _. not_a_call-Runs)))
        (λ _. not_a_call-Runs)

module _ (r : Parsers) {m n : ℕ} (good : Good r m n) where
  assignment-Runs :
      (start targets : ℕ) {b q : Parser}
      → To b q
      → Room q
      → rest q < m
      → live q.curr ≡ 1
      → targets < length q.tree.nodes
      → Runs (assignment r start targets) q (λ a s. Move b q 0 0 0 s × (a < length s.tree.nodes))
  unfolding assignment node_kind_code
  assignment-Runs start targets t room h alive low =
      Runs-bind (Runs-advance t) λ _ s1 (t1, g1, r1, w1, l1).
        Runs-bind (validate_lhs-Runs targets t1 (omega arith)) λ _ s2 (t2, g2, r2, w2, l2, _).
          Runs-bind (parse_expr_list-Runs r good t2 (omega arith) (omega arith))
            λ values s3 ((t3, g3, r3, w3, l3), low3, _). Runs-gets _ _ (
              Runs-map
                (Runs-add t3 _ (omega arith) (
                  pair-IsPlaced NodeKind.assign start _ targets values 0 refl (omega arith) low3
                    (omega arith)))
                λ id s4 ((t4, g4, r4, w4, l4, _), (_, _, new)).
                  ((t4, omega arith, omega arith, omega arith, omega arith), new))

  -- `parseAssignmentOrCall`
  pub parse_assignment_or_call-Runs :
      {b q : Parser} → To b q → Room q → rest q < m → Runs (parse_assignment_or_call r) q (Stmt b q)
  unfolding parse_assignment_or_call kind_code
  parse_assignment_or_call-Runs {b} {q} t room h = Runs-gets _ _ (
      Runs-bind (parse_expr_list-Runs r good t room h)
        λ targets s1 ((t1, g1, r1, w1, l1), low1, paid). Runs-gets _ _ (
          Runs-if (targets == 0)
            (λ _. Runs-pure 0 ((t1, g1, r1, w1, l1), omega arith, (λ ne. absurd (ne refl))))
            (λ valid.
              let (one, two) = paid (ground arith) in
              Runs-if (is_kind s1.curr.kind Kind.assign)
                (λ e.
                  Runs-map
                    (assignment-Runs q.curr.start targets t1 (omega arith) (omega arith)
                      (live-kind s1.curr Kind.assign e refl) low1)
                    λ a s2 ((t2, g2, r2, w2, l2), low2). (
                      (t2, omega arith, omega arith, omega arith, omega arith),
                      low2,
                      (λ _. (omega arith, omega arith)),
                    ))
                (λ _.
                  Runs-map (call_statement-Runs t1 targets low1)
                    λ a s2 ((t2, g2, r2, w2, l2, _), low2). (
                      (t2, omega arith, omega arith, omega arith, omega arith),
                      low2,
                      (λ _. (omega arith, omega arith)),
                    )))))

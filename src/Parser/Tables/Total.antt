-- ===== src/Parser/Tables/Total.antt =====
-- Expression lists and table constructors of parser/parser.go do not panic and come to an end.
use lugo.Base.{
  ℕ, zero, suc, ◌+◌, ◌-◌, ◌≤◌, ◌<◌, ◌≡◌, refl, inl, inr, true, false, ◌&&◌, ◌||◌, length, ◌==◌,
  arith, Bool-cases,
}
use lugo.Token.{Kind}
use lugo.Token.Codes.{kind_code}
use lugo.Ast.Kinds.{NodeKind, node_kind_code}
use lugo.Parser.{Parser, is_kind, is_ident_or_keyword}
use lugo.Parser.Stream.{live}
use lugo.Parser.Sound.{rest, weight, Room, To}
use lugo.Parser.Rules.{Runs, Runs-pure, Runs-bind, Runs-if, Runs-gets, Runs-map}
use lugo.Parser.Steps.{
  Move, live-kind, live-name, live-either, live-open, rest-rounds, stay, Runs-advance, Runs-report,
  Runs-expect, Runs-push, Runs-add,
}
use lugo.Parser.Nodes.{pair-IsPlaced, list-IsPlaced, Runs-leaf, Runs-flush, Runs-append_list}
use lugo.Parser.Good.{Expr, ExprList, Good, Listed, Runs-push_valid}
use lugo.Parser.Tables.{
  Parsers, lowest, expr_list_loop, add_expr_list, parse_expr_list, index_field, record_field,
  table_field, after_field, table_round, table_loop, parse_table_constructor,
}

expr_list_loop-Runs :
    (f : ℕ) (r : Parsers) {b q : Parser} {m n : ℕ}
    → Good r m n
    → To b q
    → Room q
    → rest q < f
    → rest q < m
    → Runs (expr_list_loop f r) q (λ _ s. Listed b q s)
unfolding expr_list_loop kind_code
expr_list_loop-Runs zero r good t room h hm = absurd (omega arith)
expr_list_loop-Runs (suc f) r {b} {q} good t room h hm =
    Runs-bind (good.expression lowest t room hm) λ e s1 (m1, low, paid).
      Runs-bind (Runs-push_valid m1.0 q e m1 low paid) λ _ s2 (t2, g2, r2, w2, l2). Runs-gets _ _ (
        Runs-if (is_kind s2.curr.kind Kind.comma)
          (λ comma. Runs-bind (Runs-advance t2) λ _ s3 (t3, g3, r3, w3, l3).
            let one = live-kind s2.curr Kind.comma comma refl in
            Runs-map (expr_list_loop-Runs f r good t3 (omega arith) (omega arith) (omega arith))
              λ _ s4 (t4, g4, r4, w4, l4). (t4, omega arith, omega arith, omega arith, omega arith))
          (λ _. Runs-pure tt (t2, g2, r2, w2, l2)))

-- The list ends, and its children were paid for.
add_expr_list-Runs :
    (start : ℕ) {b q : Parser} (m : ℕ)
    → To b q
    → length b.list_stack ≤ m
    → m + 1 ≤ length q.list_stack
    → weight q + 16 < 4294967296
    → Runs (add_expr_list start m) q (λ id s.
      To b s
      × (length q.tree.nodes ≤ length s.tree.nodes)
      × (rest s ≤ rest q)
      × (weight s ≤ weight q + 1)
      × (length s.list_stack ≡ m)
      × (id < length s.tree.nodes))
unfolding add_expr_list node_kind_code
add_expr_list-Runs start m t h h' room =
    Runs-bind (Runs-append_list t m h (omega arith) (omega arith))
      λ (e, c) s1 (t1, g1, r1, w1, l1, _, piece). Runs-gets _ _ (
        Runs-map
          (Runs-add t1 _ (omega arith) (
            list-IsPlaced NodeKind.expr_list start _ 0 0 e c refl
              (omega (arith, t1.inv.shape.nonempty)) (omega (arith, t1.inv.shape.nonempty)) piece))
          λ id s2 ((t2, g2, r2, w2, l2, _), (_, _, new)).
            (t2, omega arith, omega arith, omega arith, omega arith, new))

module _ (r : Parsers) {m n : ℕ} (good : Good r m n) {b q : Parser} (t : To b q)
    (room : Room q) where
  -- `parseExprList`
  pub parse_expr_list-Runs : rest q < m → Runs (parse_expr_list r) q (ExprList b q)
  unfolding parse_expr_list
  parse_expr_list-Runs hm = Runs-gets _ _ (
      Runs-gets _ _ (
        Runs-gets _ _ (
          Runs-bind (expr_list_loop-Runs (length q.lex.source + 3) r good t room (rest-rounds t) hm)
            λ _ s1 (t1, g1, r1, w1, l1). Runs-gets _ _ (
              Runs-if (length s1.list_stack - length q.list_stack == 0)
                (λ e.
                  let same : length s1.list_stack ≡ length q.list_stack = ground arith in
                  Runs-pure 0 (
                    (t1, g1, omega arith, omega arith, omega arith),
                    omega (arith, t1.inv.shape.nonempty),
                    (λ ne. absurd (ne refl)),
                  ))
                (λ e.
                  let more : length q.list_stack + 1 ≤ length s1.list_stack = ground arith in
                  Runs-map
                    (add_expr_list-Runs q.curr.start (length q.list_stack) t1 t.grown more
                      (omega arith))
                    λ id s2 (t2, g2, r2, w2, l2, new). (
                      (t2, omega arith, omega arith, omega arith, omega arith),
                      new,
                      (λ _. (omega arith, omega arith)),
                    ))))))

  -- `[key] = value`
  index_field-Runs : live q.curr ≡ 1 → rest q ≤ m → Runs (index_field r) q (Expr b q)
  unfolding index_field node_kind_code
  index_field-Runs alive hm = Runs-gets _ _ (
      Runs-bind (Runs-advance t) λ _ s1 (t1, g1, r1, w1, l1).
        Runs-bind (good.expression lowest t1 (omega arith) (omega arith))
          λ key s2 ((t2, g2, r2, w2, l2), low2, _).
            Runs-bind (Runs-expect t2 Kind.r_brack _) λ _ s3 (t3, g3, r3, w3, l3).
              Runs-bind (Runs-expect t3 Kind.assign _) λ _ s4 (t4, g4, r4, w4, l4).
                Runs-bind (good.expression lowest t4 (omega arith) (omega arith))
                  λ value s5 ((t5, g5, r5, w5, l5), low5, _). Runs-gets _ _ (
                    Runs-map
                      (Runs-add t5 _ (omega arith) (
                        pair-IsPlaced NodeKind.index_field _ _ key value 0 refl (omega arith) low5
                          (omega arith)))
                      λ id s6 ((t6, g6, r6, w6, l6, _), (_, _, new)). (
                        (t6, omega arith, omega arith, omega arith, omega arith),
                        new,
                        (λ _. (omega arith, omega arith)),
                      )))

  -- `key = value`
  record_field-Runs : live q.curr ≡ 1 → rest q ≤ m → Runs (record_field r) q (Expr b q)
  unfolding record_field node_kind_code
  record_field-Runs alive hm = Runs-gets _ _ (
      Runs-bind (Runs-leaf t NodeKind.ident refl (omega arith))
        λ key s1 ((t1, g1, r1, w1, l1), (_, _, low1)).
          Runs-bind (Runs-advance t1) λ _ s2 (t2, g2, r2, w2, l2).
            Runs-bind (good.expression lowest t2 (omega arith) (omega arith))
              λ value s3 ((t3, g3, r3, w3, l3), low3, _). Runs-gets _ _ (
                Runs-map
                  (Runs-add t3 _ (omega arith) (
                    pair-IsPlaced NodeKind.record_field _ _ key value 0 refl (omega arith) low3
                      (omega arith)))
                  λ id s4 ((t4, g4, r4, w4, l4, _), (_, _, new)). (
                    (t4, omega arith, omega arith, omega arith, omega arith),
                    new,
                    (λ _. (omega arith, omega arith)),
                  )))

-- What stands behind a field: the table goes on behind a separator, or if the field or what follows
-- it was read.
after_field-Runs :
    (field : ℕ) {b q : Parser}
    → To b q
    → Runs (after_field field) q (λ more s.
      Move b q 0 0 0 s
      × (more ≡ true → field ≡ 0 → (rest s + 1 ≤ rest q) × (weight s + 8 ≤ weight q)))
unfolding after_field kind_code
after_field-Runs field {b} {q} t = Runs-gets _ _ (
    Runs-gets _ _ (
      Runs-if (is_kind q.curr.kind Kind.comma || is_kind q.curr.kind Kind.semicolon)
        (λ e. Runs-bind (Runs-advance t) λ _ s (t1, g1, r1, w1, l1).
          let one = live-either q.curr Kind.comma Kind.semicolon e refl refl in
          Runs-pure true
            ((t1, g1, omega arith, omega arith, l1), (λ _ _. (omega arith, omega arith))))
        (λ _.
          Runs-if (is_kind q.curr.kind Kind.r_brace || is_kind q.curr.kind Kind.eof)
            (λ _. Runs-pure false (stay t, (λ e. absurd (ground arith))))
            (λ left_open. Runs-bind (Runs-report t _) λ _ s1 (t1, g1, r1, w1, l1, live1).
              let one = live-open q.curr Kind.r_brace left_open in
              Runs-if (field == 0)
                (λ _. Runs-bind (Runs-advance t1) λ _ s2 (t2, g2, r2, w2, l2). Runs-pure true (
                  (t2, omega arith, omega arith, omega arith, omega arith),
                  (λ _ _. (omega arith, omega arith)),
                ))
                (λ e.
                  Runs-pure true
                    ((t1, g1, omega arith, omega arith, l1), (λ _ none. absurd (ground arith))))))))

module _ (r : Parsers) {m n : ℕ} (good : Good r m n) {b q : Parser} (t : To b q)
    (room : Room q) where
  table_field-Runs :
      rest q < m
      → Runs
          (table_field r
            (is_kind q.curr.kind Kind.l_brack)
            (is_ident_or_keyword q && is_kind q.peek.kind Kind.assign))
          q
          (Expr b q)
  unfolding kind_code
  table_field-Runs hm =
      Runs-if (is_kind q.curr.kind Kind.l_brack)
        (λ e. index_field-Runs r good t room (live-kind q.curr Kind.l_brack e refl) (omega arith))
        (λ _.
          Runs-if (is_ident_or_keyword q && is_kind q.peek.kind Kind.assign)
            (λ e. record_field-Runs r good t room (live-name q (ground arith)) (omega arith))
            (λ _. good.expression lowest t room hm))

  -- If the table goes on, a token was read.
  table_round-Runs :
      rest q < m
      → Runs (table_round r) q (λ more s.
        To b s
        × (length q.tree.nodes ≤ length s.tree.nodes)
        × (rest s ≤ rest q)
        × (weight s ≤ weight q + 1)
        × (length q.list_stack ≤ length s.list_stack)
        × (more ≡ true → (rest s + 1 ≤ rest q) × (weight s ≤ weight q)))
  unfolding table_round
  table_round-Runs hm = Runs-gets _ _ (
      Runs-gets _ _ (
        Runs-bind (table_field-Runs hm) λ field s1 ((t1, g1, r1, w1, l1), low, paid).
          Runs-bind (Runs-push t1 field low) λ _ s2 (t2, g2, r2, w2, l2, _).
            Runs-map (after_field-Runs field t2) λ more s3 ((t3, g3, r3, w3, l3), on). (
              t3,
              omega arith,
              omega arith,
              omega arith,
              omega arith,
              (λ e. elim (Bool-cases (field == 0)) [
                | inl z ↦ let (one, eight) = on e (ground arith) in (omega arith, omega arith)
                | inr ne ↦ let (one, four) = paid (ground arith) in (omega arith, omega arith)
              ]),
            )))

table_loop-Runs :
    (f : ℕ) (r : Parsers) {b q : Parser} {m n : ℕ}
    → Good r m n
    → To b q
    → Room q
    → rest q < f
    → rest q < m
    → Runs (table_loop f r) q (λ _ s.
      To b s
      × (length q.tree.nodes ≤ length s.tree.nodes)
      × (rest s ≤ rest q)
      × (weight s ≤ weight q + 1)
      × (length q.list_stack ≤ length s.list_stack))
unfolding table_loop
table_loop-Runs zero r good t room h hm = absurd (omega arith)
table_loop-Runs (suc f) r {b} {q} good t room h hm = Runs-gets _ _ (
    Runs-bind
      (Runs-if (is_kind q.curr.kind Kind.r_brace || is_kind q.curr.kind Kind.eof)
        (λ _.
          Runs-pure false
            (t, omega arith, omega arith, omega arith, omega arith, (λ e. absurd (ground arith))))
        (λ _. table_round-Runs r good t room hm))
      λ more s1 (t1, g1, r1, w1, l1, on).
        Runs-if more
          (λ e.
            let (less, kept) = on e in
            Runs-map (table_loop-Runs f r good t1 (omega arith) (omega arith) (omega arith))
              λ _ s2 (t2, g2, r2, w2, l2). (t2, omega arith, omega arith, omega arith, omega arith))
          (λ _. Runs-pure tt (t1, g1, r1, w1, l1)))

-- `parseTableConstructor`, at its brace
pub parse_table_constructor-Runs :
    (r : Parsers) {m n : ℕ}
    → Good r m n
    → {b q : Parser} → To b q
    → Room q
    → live q.curr ≡ 1
    → rest q ≤ m
    → Runs
        (parse_table_constructor r)
        q
        (λ id s. Expr b q id s × (rest s + 1 ≤ rest q) × (weight s + 6 ≤ weight q))
unfolding parse_table_constructor node_kind_code
parse_table_constructor-Runs r good {b} {q} t room alive hm = Runs-gets _ _ (
    Runs-bind (Runs-advance t) λ _ s1 (t1, g1, r1, w1, l1). Runs-gets _ _ (
      Runs-gets _ _ (
        Runs-bind
          (table_loop-Runs (length s1.lex.source + 3) r good t1 (omega arith) (rest-rounds t1)
            (omega arith))
          λ _ s2 (t2, g2, r2, w2, l2). Runs-gets _ _ (
            Runs-bind (Runs-expect t2 Kind.r_brace _) λ _ s3 (t3, g3, r3, w3, l3).
              Runs-bind (Runs-flush t3 (length s1.list_stack) t1.grown (omega arith) (omega arith))
                λ (e, c) s4 (t4, g4, r4, w4, l4, _, piece).
                  Runs-map
                    (Runs-add t4 _ (omega arith) (
                      list-IsPlaced NodeKind.table_expr _ _ 0 0 e c refl
                        (omega (arith, t4.inv.shape.nonempty))
                        (omega (arith, t4.inv.shape.nonempty)) piece))
                    λ id s5 ((t5, g5, r5, w5, l5, _), (_, _, new)). (
                      (
                        (t5, omega arith, omega arith, omega arith, omega arith),
                        new,
                        (λ _. (omega arith, omega arith)),
                      ),
                      omega arith,
                      omega arith,
                    )))))

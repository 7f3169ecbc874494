-- ===== src/Parser/Declarations/For.antt =====
-- `for` of parser/parser.go does not panic and comes to an end.
use lugo.Base.{ℕ, zero, suc, ◌+◌, ◌≤◌, ◌<◌, ◌≡◌, refl, true, false, List, length, arith}
use lugo.Token.{Kind}
use lugo.Token.Codes.{kind_code}
use lugo.Ast.Kinds.{NodeKind, node_kind_code}
use lugo.Parser.{Parser, is_kind}
use lugo.Parser.Stream.{live}
use lugo.Parser.Sound.{rest, weight, Room, To}
use lugo.Parser.Rules.{Runs, Runs-pure, Runs-bind, Runs-if, Runs-gets, Runs-map}
use lugo.Parser.Steps.{
  Move, live-kind, rest-rounds, Runs-advance, Runs-report, Runs-expect, Runs-push, Runs-add,
}
use lugo.Parser.Nodes.{
  list-IsPlaced, Runs-leaf, Runs-node_of, Runs-flush, Runs-append_list, Runs-add_here,
}
use lugo.Parser.Good.{Good, Stmt}
use lugo.Parser.Action.{node}
use lugo.Parser.Tables.{Parsers, lowest, stop_block_end}
use lugo.Parser.Tables.Total.{parse_expr_list-Runs}
use lugo.Parser.Statements.Total.{loop_block-Runs}
use lugo.Ast.Parents.{IsPlaced}
use lugo.Parser.Tables.Total.{parse_expr_list-Runs}
use lugo.Parser.Declarations.{
  for_block, for_item, for_step, for_numeric, for_name, for_next, for_names_loop, for_names,
  for_generic, for_loop, parse_for,
}

-- A node that is not yet paid for
abbrev Owed : ℕ → Parser → Parser → ℕ → Parser → Type 0
Owed c b q id s = Move b q 0 c 0 s × (id < length s.tree.nodes)

-- Names wait; what was read pays for them.
abbrev Names : Parser → Parser → Parser → Type 0
Names b q s =
    To b s
    × (length q.tree.nodes ≤ length s.tree.nodes)
    × (rest s ≤ rest q)
    × (weight s ≤ weight q)
    × (length q.list_stack ≤ length s.list_stack)

-- A generic loop has its list of values in `Extra`, as a third child.
generic-IsPlaced :
    {extras : List ℕ} {b : ℕ} (start end l r x : ℕ)
    → l < b
    → r < b
    → x < b
    → b < 4294967296
    → IsPlaced extras b (record (node NodeKind.for_in start end) { left = l; right = r; extra = x })
generic-IsPlaced start end l r x hl hr hx h = record {
  left_below = hl;
  right_below = hr;
  third_below = λ _. hx;
  extras_below = λ i e. absurd (omega arith);
  fits = omega arith;
}

for_next-Runs :
    {b q : Parser}
    → To b q
    → Room q
    → live q.curr ≡ 1
    → Runs for_next q (λ _ s. Names b q s × (rest s + 1 ≤ rest q))
unfolding for_next for_name node_kind_code
for_next-Runs {b} {q} t room alive = Runs-bind (Runs-advance t) λ _ s1 (t1, g1, r1, w1, l1).
    Runs-gets _ _ (
      Runs-if (is_kind s1.curr.kind Kind.ident)
        (λ _.
          Runs-bind (Runs-add_here t1 NodeKind.ident refl (omega arith))
            λ id s2 ((t2, g2, r2, w2, l2, _), (_, _, new)).
              Runs-bind (Runs-push t2 id new) λ _ s3 (t3, g3, r3, w3, l3, _).
                Runs-bind (Runs-advance t3) λ _ s4 (t4, g4, r4, w4, l4).
                  Runs-pure true
                    ((t4, omega arith, omega arith, omega arith, omega arith), omega arith))
        (λ _. Runs-bind (Runs-report t1 _) λ _ s2 (t2, g2, r2, w2, l2, _).
          Runs-pure false ((t2, omega arith, omega arith, omega arith, omega arith), omega arith)))

for_names_loop-Runs :
    (f : ℕ) {b q : Parser}
    → To b q
    → Room q
    → rest q < f
    → Runs (for_names_loop f) q (λ _ s. Names b q s)
unfolding for_names_loop kind_code
for_names_loop-Runs zero t room h = absurd (omega arith)
for_names_loop-Runs (suc f) {b} {q} t room h = Runs-gets _ _ (
    Runs-bind {R = λ more s. Names b q s × (more ≡ true → rest s + 1 ≤ rest q)}
      (Runs-if (is_kind q.curr.kind Kind.comma)
        (λ e.
          Runs-map (for_next-Runs t room (live-kind q.curr Kind.comma e refl))
            λ _ s (x, less). (x, (λ _. less)))
        (λ _.
          Runs-pure false (
            (t, omega arith, omega arith, omega arith, omega arith),
            (λ e. absurd (ground arith)),
          )))
      λ more s1 ((t1, g1, r1, w1, l1), on).
        Runs-if more
          (λ e.
            let less = on e in
            Runs-map (for_names_loop-Runs f t1 (omega arith) (omega arith))
              λ _ s2 (t2, g2, r2, w2, l2). (t2, omega arith, omega arith, omega arith, omega arith))
          (λ _. Runs-pure tt (t1, g1, r1, w1, l1)))

for_names-Runs :
    (first : ℕ) {b q : Parser}
    → To b q
    → weight q + 20 < 4294967296
    → first < length q.tree.nodes
    → Runs (for_names first) q (Owed 2 b q)
unfolding for_names node_kind_code
for_names-Runs first {b} {q} t room low = Runs-gets _ _ (
    Runs-bind (Runs-push t first low) λ _ s1 (t1, g1, r1, w1, l1, _). Runs-gets _ _ (
      Runs-bind (for_names_loop-Runs (length s1.lex.source + 3) t1 (omega arith) (rest-rounds t1))
        λ _ s2 (t2, g2, r2, w2, l2).
          Runs-bind (Runs-append_list t2 (length q.list_stack) t.grown (omega arith) (omega arith))
            λ (e, c) s3 (t3, g3, r3, w3, l3, _, piece). Runs-node_of _ first (omega arith) λ k _.
              Runs-gets _ _ (
                Runs-map
                  (Runs-add t3 _ (omega arith) (
                    list-IsPlaced NodeKind.name_list _ _ 0 0 e c refl t3.inv.shape.nonempty
                      t3.inv.shape.nonempty piece))
                  λ id s4 ((t4, g4, r4, w4, l4, _), (_, _, new)).
                    ((t4, omega arith, omega arith, omega arith, omega arith), new))))

module _ (r : Parsers) {m n : ℕ} (good : Good r m n) where
  for_block-Runs :
      {b q : Parser} → To b q → Room q → rest q < n → Runs (for_block r) q (λ v s. Owed 1 b q v.0 s)
  unfolding for_block
  for_block-Runs t room hn = Runs-bind (Runs-expect t Kind.do_kw _) λ _ s1 (t1, g1, r1, w1, l1).
      Runs-bind (loop_block-Runs r good stop_block_end t1 (omega arith) (omega arith))
        λ block s2 ((t2, g2, r2, w2, l2), low2). Runs-gets _ _ (
          Runs-bind (Runs-expect t2 Kind.end_kw _) λ _ s3 (t3, g3, r3, w3, l3).
            Runs-pure _ ((t3, omega arith, omega arith, omega arith, omega arith), omega arith))

  -- An expression that waits, node 0 too
  for_item-Runs :
      {b q : Parser} → To b q → Room q → rest q < m → Runs (for_item r) q (λ _ s. Move b q 0 1 1 s)
  unfolding for_item
  for_item-Runs t room hm =
      Runs-bind (good.expression lowest t room hm) λ id s1 ((t1, g1, r1, w1, l1), low1, _).
        Runs-map (Runs-push t1 id low1)
          λ _ s2 (t2, g2, r2, w2, l2, _). (t2, omega arith, omega arith, omega arith, omega arith)

  -- Behind the name: the numbers
  for_numeric-Runs :
      (start name : ℕ) {b q : Parser}
      → To b q
      → Room q
      → rest q ≤ m
      → rest q ≤ n
      → live q.curr ≡ 1
      → name < length q.tree.nodes
      → Runs (for_numeric r start name) q (Owed 0 b q)
  unfolding for_numeric for_step node_kind_code kind_code
  for_numeric-Runs start name {b} {q} t room hm hn alive low =
      Runs-bind (Runs-advance t) λ _ s1 (t1, g1, r1, w1, l1). Runs-gets _ _ (
        Runs-bind (for_item-Runs t1 (omega arith) (omega arith)) λ _ s2 (t2, g2, r2, w2, l2).
          Runs-bind (Runs-expect t2 Kind.comma _) λ _ s3 (t3, g3, r3, w3, l3).
            Runs-bind (for_item-Runs t3 (omega arith) (omega arith)) λ _ s4 (t4, g4, r4, w4, l4).
              Runs-gets _ _ (
                Runs-bind
                  {R = λ _ s.
                    To b s
                    × (length s4.tree.nodes ≤ length s.tree.nodes)
                    × (rest s ≤ rest s4)
                    × (weight s ≤ weight s4)
                    × (length s4.list_stack ≤ length s.list_stack)}
                  (Runs-if (is_kind s4.curr.kind Kind.comma)
                    (λ e. Runs-bind (Runs-advance t4) λ _ s (t5, g5, r5, w5, l5).
                      let one = live-kind s4.curr Kind.comma e refl in
                      Runs-map (for_item-Runs t5 (omega arith) (omega arith))
                        λ _ s' (t6, g6, r6, w6, l6).
                          (t6, omega arith, omega arith, omega arith, omega arith))
                    (λ _. Runs-pure tt (t4, omega arith, omega arith, omega arith, omega arith)))
                  λ _ s5 (t5, g5, r5, w5, l5).
                    Runs-bind (for_block-Runs t5 (omega arith) (omega arith))
                      λ (block, end) s6 ((t6, g6, r6, w6, l6), low6).
                        Runs-bind
                          (Runs-flush t6 (length s1.list_stack) t1.grown (omega arith)
                            (omega arith))
                          λ (e, c) s7 (t7, g7, r7, w7, l7, _, piece).
                            Runs-map
                              (Runs-add t7 _ (omega arith) (
                                list-IsPlaced NodeKind.for_num start end name block e c refl
                                  (omega arith) (omega arith) piece))
                              λ id s8 ((t8, g8, r8, w8, l8, _), (_, _, new)).
                                ((t8, omega arith, omega arith, omega arith, omega arith), new)))

  -- Behind the first name: more names and the list
  for_generic-Runs :
      (start first : ℕ) {b q : Parser}
      → To b q
      → weight q + 20 < 4294967296
      → rest q < m
      → rest q < n
      → first < length q.tree.nodes
      → Runs (for_generic r start first) q (Owed 4 b q)
  unfolding for_generic
  for_generic-Runs start first t room hm hn low =
      Runs-bind (for_names-Runs first t room low) λ names s1 ((t1, g1, r1, w1, l1), low1).
        Runs-bind (Runs-expect t1 Kind.in_kw _) λ _ s2 (t2, g2, r2, w2, l2).
          Runs-bind (parse_expr_list-Runs r good t2 (omega arith) (omega arith))
            λ values s3 ((t3, g3, r3, w3, l3), low3, _).
              Runs-bind (for_block-Runs t3 (omega arith) (omega arith))
                λ (block, end) s4 ((t4, g4, r4, w4, l4), low4).
                  Runs-map
                    (Runs-add t4 _ (omega arith) (
                      generic-IsPlaced start end names block values (omega arith) low4 (omega arith)
                        t4.inv.shape.fits))
                    λ id s5 ((t5, g5, r5, w5, l5, _), (_, _, new)).
                      ((t5, omega arith, omega arith, omega arith, omega arith), new)

  for_loop-Runs :
      (start : ℕ) {b q : Parser}
      → To b q
      → Room q
      → rest q < m
      → rest q ≤ n
      → live q.curr ≡ 1
      → Runs (for_loop r start) q (Owed 0 b q)
  unfolding for_loop node_kind_code kind_code
  for_loop-Runs start {b} {q} t room hm hn alive =
      Runs-bind (Runs-leaf t NodeKind.ident refl (omega arith))
        λ first s1 ((t1, g1, r1, w1, l1), (_, _, low1)). Runs-gets _ _ (
          Runs-if (is_kind s1.curr.kind Kind.assign)
            (λ e.
              Runs-map
                (for_numeric-Runs start first t1 (omega arith) (omega arith) (omega arith)
                  (live-kind s1.curr Kind.assign e refl) low1)
                λ id s2 ((t2, g2, r2, w2, l2), new).
                  ((t2, omega arith, omega arith, omega arith, omega arith), new))
            (λ _.
              Runs-map
                (for_generic-Runs start first t1 (omega arith) (omega arith) (omega arith) low1)
                λ id s2 ((t2, g2, r2, w2, l2), new).
                  ((t2, omega arith, omega arith, omega arith, omega arith), new)))

  pub parse_for-Runs :
      {b q : Parser}
      → To b q
      → Room q
      → rest q < m
      → rest q ≤ n
      → live q.curr ≡ 1
      → Runs (parse_for r) q (Stmt b q)
  unfolding parse_for kind_code
  parse_for-Runs {b} {q} t room hm hn alive = Runs-gets _ _ (
      Runs-bind (Runs-advance t) λ _ s1 (t1, g1, r1, w1, l1). Runs-gets _ _ (
        Runs-if (is_kind s1.curr.kind Kind.ident)
          (λ e.
            Runs-map
              (for_loop-Runs q.curr.start t1 (omega arith) (omega arith) (omega arith)
                (live-kind s1.curr Kind.ident e refl))
              λ id s2 ((t2, g2, r2, w2, l2), new). (
                (t2, omega arith, omega arith, omega arith, omega arith),
                new,
                (λ _. (omega arith, omega arith)),
              ))
          (λ _. Runs-bind (Runs-report t1 _) λ _ s2 (t2, g2, r2, w2, l2, _). Runs-pure 0 (
            (t2, omega arith, omega arith, omega arith, omega arith),
            t2.inv.shape.nonempty,
            (λ ne. absurd (ne refl)),
          ))))

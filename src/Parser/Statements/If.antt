-- ===== src/Parser/Statements/If.antt =====
-- `if` of parser/parser.go does not panic and comes to an end.
use lugo.Base.{ℕ, zero, suc, ◌+◌, ◌≤◌, ◌<◌, ◌≡◌, ◌≢◌, refl, length, ◌==◌, arith}
use lugo.Token.{Kind}
use lugo.Token.Codes.{kind_code}
use lugo.Ast.Kinds.{NodeKind, node_kind_code}
use lugo.Parser.{Parser, is_kind}
use lugo.Parser.Stream.{live}
use lugo.Parser.Sound.{rest, weight, Room, To}
use lugo.Parser.Rules.{Runs, Runs-pure, Runs-bind, Runs-if, Runs-gets, Runs-map}
use lugo.Parser.Steps.{
  Move, live-kind, rest-rounds, stay, Runs-advance, Runs-expect, Runs-push, Runs-add,
}
use lugo.Parser.Nodes.{pair-IsPlaced, list-IsPlaced, Runs-flush}
use lugo.Parser.Good.{Good, Stmt}
use lugo.Parser.Tables.{Parsers, lowest, stop_block_end}
use lugo.Parser.Statements.{
  stop_block_if, parse_else_if, else_if_loop, parse_else, if_tail, parse_if,
}

module _ (r : Parsers) {m n : ℕ} (good : Good r m n) where
  parse_else_if-Runs :
      {b q : Parser}
      → To b q
      → Room q
      → rest q < m
      → rest q ≤ n
      → live q.curr ≡ 1
      → Runs (parse_else_if r) q (λ _ s.
        To b s
        × (length q.tree.nodes ≤ length s.tree.nodes)
        × (rest s + 1 ≤ rest q)
        × (weight s ≤ weight q)
        × (length q.list_stack ≤ length s.list_stack))
  unfolding parse_else_if node_kind_code
  parse_else_if-Runs t room hm hn alive = Runs-gets _ _ (
      Runs-bind (Runs-advance t) λ _ s1 (t1, g1, r1, w1, l1).
        Runs-bind (good.expression lowest t1 (omega arith) (omega arith))
          λ condition s2 ((t2, g2, r2, w2, l2), low2, _).
            Runs-bind (Runs-expect t2 Kind.then_kw _) λ _ s3 (t3, g3, r3, w3, l3).
              Runs-bind (good.block stop_block_if t3 (omega arith) (omega arith))
                λ block s4 ((t4, g4, r4, w4, l4), low4). Runs-gets _ _ (
                  Runs-bind
                    (Runs-add t4 _ (omega arith) (
                      pair-IsPlaced NodeKind.else_if _ _ condition block 0 refl (omega arith) low4
                        (omega arith)))
                    λ id s5 ((t5, g5, r5, w5, l5, _), (_, _, new)).
                      Runs-map (Runs-push t5 id new) λ _ s6 (t6, g6, r6, w6, l6, _).
                        (t6, omega arith, omega arith, omega arith, omega arith)))

  else_if_loop-Runs :
      (f : ℕ) {b q : Parser}
      → To b q
      → Room q
      → rest q < f
      → rest q < m
      → rest q ≤ n
      → Runs (else_if_loop f r) q (λ _ s.
        To b s
        × (length q.tree.nodes ≤ length s.tree.nodes)
        × (rest s ≤ rest q)
        × (weight s ≤ weight q)
        × (length q.list_stack ≤ length s.list_stack))
  unfolding else_if_loop kind_code
  else_if_loop-Runs zero t room h hm hn = absurd (omega arith)
  else_if_loop-Runs (suc f) {b} {q} t room h hm hn = Runs-gets _ _ (
      Runs-if (is_kind q.curr.kind Kind.else_if_kw)
        (λ e.
          Runs-bind (parse_else_if-Runs t room hm hn (live-kind q.curr Kind.else_if_kw e refl))
            λ _ s1 (t1, g1, r1, w1, l1).
              Runs-map
                (else_if_loop-Runs f t1 (omega arith) (omega arith) (omega arith) (omega arith))
                λ _ s2 (t2, g2, r2, w2, l2).
                  (t2, omega arith, omega arith, omega arith, omega arith))
        (λ _. Runs-pure tt (t, omega arith, omega arith, omega arith, omega arith)))

  parse_else-Runs :
      {b q : Parser}
      → To b q
      → Room q
      → rest q ≤ n
      → live q.curr ≡ 1
      → Runs
          (parse_else r)
          q
          (λ id s. Move b q 0 0 0 s × (id < length s.tree.nodes) × (weight s + 1 ≤ weight q))
  unfolding parse_else node_kind_code
  parse_else-Runs t room hn alive = Runs-gets _ _ (
      Runs-bind (Runs-advance t) λ _ s1 (t1, g1, r1, w1, l1).
        Runs-bind (good.block stop_block_end t1 (omega arith) (omega arith))
          λ block s2 ((t2, g2, r2, w2, l2), low2). Runs-gets _ _ (
            Runs-map
              (Runs-add t2 _ (omega arith) (
                pair-IsPlaced NodeKind.else_stmt _ _ block 0 0 refl low2 t2.inv.shape.nonempty
                  (omega arith)))
              λ id s3 ((t3, g3, r3, w3, l3, _), (_, _, new)).
                ((t3, omega arith, omega arith, omega arith, omega arith), new, omega arith)))

  -- The `else` part with its place on the stack
  abbrev Otherwise : Parser → Parser → ℕ → Parser → Type 0
  Otherwise b q id s =
      Move b q 0 0 0 s × (id < length s.tree.nodes) × (id ≢ 0 → weight s + 1 ≤ weight q)

  -- Behind the first block
  if_tail-Runs :
      (start condition block : ℕ) {b q : Parser}
      → To b q
      → Room q
      → rest q < m
      → rest q ≤ n
      → condition < length q.tree.nodes
      → block < length q.tree.nodes
      → Runs
          (if_tail r start condition block)
          q
          (λ id s. Move b q 0 1 0 s × (id < length s.tree.nodes))
  unfolding if_tail node_kind_code kind_code
  if_tail-Runs start condition block {b} {q} t room hm hn low low' = Runs-gets _ _ (
      Runs-gets _ _ (
        Runs-bind (else_if_loop-Runs (length q.lex.source + 3) t room (rest-rounds t) hm hn)
          λ _ s1 (t1, g1, r1, w1, l1). Runs-gets _ _ (
            Runs-bind {R = Otherwise b s1}
              (Runs-if (is_kind s1.curr.kind Kind.else_kw)
                (λ e.
                  Runs-map
                    (parse_else-Runs t1 (omega arith) (omega arith)
                      (live-kind s1.curr Kind.else_kw e refl))
                    λ id s (x, new, less). (x, new, (λ _. less)))
                (λ _. Runs-pure 0 (stay t1, t1.inv.shape.nonempty, (λ ne. absurd (ne refl)))))
              λ otherwise s2 ((t2, g2, r2, w2, l2), low2, paid).
                Runs-bind (Runs-expect t2 Kind.end_kw _) λ _ s3 (t3, g3, r3, w3, l3).
                  Runs-bind
                    {R = λ _ s.
                      To b s
                      × (length s3.tree.nodes ≤ length s.tree.nodes)
                      × (rest s ≤ rest s3)
                      × (weight s ≤ weight s1)
                      × (length s3.list_stack ≤ length s.list_stack)}
                    (Runs-if (otherwise == 0)
                      (λ _. Runs-pure tt (t3, omega arith, omega arith, omega arith, omega arith))
                      (λ valid.
                        let one = paid (ground arith) in
                        Runs-map (Runs-push t3 otherwise (omega arith))
                          λ _ s (t4, g4, r4, w4, l4, _).
                            (t4, g4, omega arith, omega arith, omega arith)))
                    λ _ s4 (t4, g4, r4, w4, l4).
                      Runs-bind
                        (Runs-flush t4 (length q.list_stack) t.grown (omega arith) (omega arith))
                        λ (e, c) s5 (t5, g5, r5, w5, l5, _, piece). Runs-gets _ _ (
                          Runs-map
                            (Runs-add t5 _ (omega arith) (
                              list-IsPlaced NodeKind.if_stmt start _ condition block e c refl
                                (omega arith) (omega arith) piece))
                            λ id s6 ((t6, g6, r6, w6, l6, _), (_, _, new)).
                              ((t6, omega arith, omega arith, omega arith, omega arith), new)))))

module _ (r : Parsers) {m n : ℕ} (good : Good r m n) {b q : Parser} (t : To b q) (room : Room q)
    (hm : rest q < m) (hn : rest q ≤ n) (alive : live q.curr ≡ 1) where
  pub parse_if-Runs : Runs (parse_if r) q (Stmt b q)
  unfolding parse_if
  parse_if-Runs = Runs-gets _ _ (
      Runs-bind (Runs-advance t) λ _ s1 (t1, g1, r1, w1, l1).
        Runs-bind (good.expression lowest t1 (omega arith) (omega arith))
          λ condition s2 ((t2, g2, r2, w2, l2), low2, _).
            Runs-bind (Runs-expect t2 Kind.then_kw _) λ _ s3 (t3, g3, r3, w3, l3).
              Runs-bind (good.block stop_block_if t3 (omega arith) (omega arith))
                λ block s4 ((t4, g4, r4, w4, l4), low4).
                  Runs-map
                    (if_tail-Runs r good q.curr.start condition block t4 (omega arith) (omega arith)
                      (omega arith) (omega arith) low4)
                    λ id s5 ((t5, g5, r5, w5, l5), new). (
                      (t5, omega arith, omega arith, omega arith, omega arith),
                      new,
                      (λ _. (omega arith, omega arith)),
                    ))

-- ===== src/Parser/Statements/Total.antt =====
-- `if`, the loops and the other statements of parser/parser.go that declare no names do not panic
-- and come to an end.
use lugo.Base.{ℕ, ◌+◌, ◌-◌, ◌≤◌, ◌<◌, ◌≡◌, refl, length, arith}
use lugo.Token.{Kind}
use lugo.Token.Set.{TokenSet}
use lugo.Ast.Kinds.{NodeKind, node_kind_code}
use lugo.Parser.{Parser, is_kind, is_one_of}
use lugo.Parser.Stream.{live}
use lugo.Parser.Sound.{rest, Room, To}
use lugo.Parser.Depths.{Inner, enter, Back, back}
use lugo.Parser.Rules.{Runs, Runs-pure, Runs-bind, Runs-if, Runs-gets, Runs-map, Runs-modify}
use lugo.Parser.Steps.{Move, stay, Runs-advance, Runs-expect, Runs-add}
use lugo.Parser.Nodes.{pair-IsPlaced}
use lugo.Parser.Good.{Block, Good, Stmt}
use lugo.Parser.Tables.{Parsers, lowest, stop_block_end}
use lugo.Parser.Tables.Total.{parse_expr_list-Runs}
use lugo.Parser.Statements.{
  stop_block_until, ends_return, parse_return, loop_block, parse_while, parse_repeat, parse_do,
}

-- A block inside a loop, where the loop depth is one greater
pub loop_block-Runs :
    (r : Parsers) {m n : ℕ}
    → Good r m n
    → (stop : TokenSet) {b q : Parser} → To b q
    → Room q
    → rest q < n
    → Runs (loop_block r stop) q (Block b q)
unfolding loop_block
loop_block-Runs r good stop {b} {q} t room h =
    let inner : Parser = record q { loop_depth = q.loop_depth + 1 } in
    let (t0, r0, w0, g0, l0) : Inner q inner =
      enter q.depth (q.loop_depth + 1) q.block_depth t.inv in
    Runs-bind {R = λ _ s. s ≡ inner} (Runs-modify _ refl) λ _ s e. rw e (
      Runs-bind (good.block stop t0 (omega arith) (omega arith))
        λ block s1 ((t1, g1, r1, w1, l1), low).
          Runs-bind {R = λ _ u. Back b q s1 u}
            (Runs-modify _ (
              back q.depth (q.loop_depth + 1) q.block_depth s1.depth (s1.loop_depth - 1)
                s1.block_depth t t1 t1.depth (omega (arith, t1.loop_depth)) t1.block_depth))
            λ _ s2 (t2, g2, n2, r2, w2, l2).
              Runs-pure block ((t2, g2, omega arith, omega arith, omega arith), omega arith))

module _ (r : Parsers) {m n : ℕ} (good : Good r m n) {b q : Parser} (t : To b q) (room : Room q)
    (hm : rest q < m) (hn : rest q ≤ n) (alive : live q.curr ≡ 1) where
  pub parse_return-Runs : Runs (parse_return r) q (Stmt b q)
  unfolding parse_return node_kind_code
  parse_return-Runs = Runs-gets _ _ (
      Runs-bind (Runs-advance t) λ _ s1 (t1, g1, r1, w1, l1). Runs-gets _ _ (
        Runs-bind {R = λ id s. Move b s1 0 0 0 s × (id < length s.tree.nodes)}
          (Runs-if (is_one_of ends_return s1.curr.kind)
            (λ _. Runs-pure 0 (stay t1, t1.inv.shape.nonempty))
            (λ _.
              Runs-map (parse_expr_list-Runs r good t1 (omega arith) (omega arith))
                λ id s (x, low, _). (x, low)))
          λ values s2 ((t2, g2, r2, w2, l2), low2). Runs-gets _ _ (
            Runs-bind {R = λ _ s. Move b s2 0 0 0 s}
              (Runs-if (is_kind s2.curr.kind Kind.semicolon)
                (λ _.
                  Runs-map (Runs-advance t2)
                    λ _ s (t3, g3, r3, w3, l3). (t3, g3, omega arith, omega arith, l3))
                (λ _. Runs-pure tt (stay t2)))
              λ _ s3 (t3, g3, r3, w3, l3). Runs-gets _ _ (
                Runs-map
                  (Runs-add t3 _ (omega arith) (
                    pair-IsPlaced NodeKind.return_stmt _ _ values 0 0 refl (omega arith)
                      t3.inv.shape.nonempty (omega arith)))
                  λ id s4 ((t4, g4, r4, w4, l4, _), (_, _, new)). (
                    (t4, omega arith, omega arith, omega arith, omega arith),
                    new,
                    (λ _. (omega arith, omega arith)),
                  )))))

  pub parse_while-Runs : Runs (parse_while r) q (Stmt b q)
  unfolding parse_while node_kind_code
  parse_while-Runs = Runs-gets _ _ (
      Runs-bind (Runs-advance t) λ _ s1 (t1, g1, r1, w1, l1).
        Runs-bind (good.expression lowest t1 (omega arith) (omega arith))
          λ condition s2 ((t2, g2, r2, w2, l2), low2, _).
            Runs-bind (Runs-expect t2 Kind.do_kw _) λ _ s3 (t3, g3, r3, w3, l3).
              Runs-bind (loop_block-Runs r good stop_block_end t3 (omega arith) (omega arith))
                λ block s4 ((t4, g4, r4, w4, l4), low4). Runs-gets _ _ (
                  Runs-bind (Runs-expect t4 Kind.end_kw _) λ _ s5 (t5, g5, r5, w5, l5).
                    Runs-map
                      (Runs-add t5 _ (omega arith) (
                        pair-IsPlaced NodeKind.while_stmt _ _ condition block 0 refl (omega arith)
                          (omega arith) (omega arith)))
                      λ id s6 ((t6, g6, r6, w6, l6, _), (_, _, new)). (
                        (t6, omega arith, omega arith, omega arith, omega arith),
                        new,
                        (λ _. (omega arith, omega arith)),
                      )))

  pub parse_repeat-Runs : Runs (parse_repeat r) q (Stmt b q)
  unfolding parse_repeat node_kind_code
  parse_repeat-Runs = Runs-gets _ _ (
      Runs-bind (Runs-advance t) λ _ s1 (t1, g1, r1, w1, l1).
        Runs-bind (loop_block-Runs r good stop_block_until t1 (omega arith) (omega arith))
          λ block s2 ((t2, g2, r2, w2, l2), low2).
            Runs-bind (Runs-expect t2 Kind.until_kw _) λ _ s3 (t3, g3, r3, w3, l3).
              Runs-bind (good.expression lowest t3 (omega arith) (omega arith))
                λ condition s4 ((t4, g4, r4, w4, l4), low4, _). Runs-gets _ _ (
                  Runs-map
                    (Runs-add t4 _ (omega arith) (
                      pair-IsPlaced NodeKind.repeat _ _ block condition 0 refl (omega arith) low4
                        (omega arith)))
                    λ id s5 ((t5, g5, r5, w5, l5, _), (_, _, new)). (
                      (t5, omega arith, omega arith, omega arith, omega arith),
                      new,
                      (λ _. (omega arith, omega arith)),
                    )))

  pub parse_do-Runs : Runs (parse_do r) q (Stmt b q)
  unfolding parse_do node_kind_code
  parse_do-Runs = Runs-gets _ _ (
      Runs-bind (Runs-advance t) λ _ s1 (t1, g1, r1, w1, l1).
        Runs-bind (good.block stop_block_end t1 (omega arith) (omega arith))
          λ block s2 ((t2, g2, r2, w2, l2), low2). Runs-gets _ _ (
            Runs-bind (Runs-expect t2 Kind.end_kw _) λ _ s3 (t3, g3, r3, w3, l3).
              Runs-map
                (Runs-add t3 _ (omega arith) (
                  pair-IsPlaced NodeKind.do_stmt _ _ block 0 0 refl (omega arith)
                    t3.inv.shape.nonempty (omega arith)))
                λ id s4 ((t4, g4, r4, w4, l4, _), (_, _, new)). (
                  (t4, omega arith, omega arith, omega arith, omega arith),
                  new,
                  (λ _. (omega arith, omega arith)),
                )))

-- ===== src/Parser/Program/Blocks.antt =====
-- `parseBlock` of parser/parser.go does not panic, comes to an end, and stops where it should.
use lugo.Base.{
  ℕ, zero, suc, ◌+◌, ◌-◌, ◌≤◌, ◌<◌, ◌≡◌, refl, true, false, not, ◌&&◌, ◌||◌, length, leb, ltb, ◌==◌,
  u32, arith,
}
use lugo.Token.{Kind}
use lugo.Token.Set.{TokenSet}
use lugo.Ast.Kinds.{NodeKind, node_kind_code}
use lugo.Ast.{Node}
use lugo.Ast
use lugo.Parser.{Parser, is_kind, is_at}
use lugo.Parser.Stream.{live}
use lugo.Parser.Sound.{rest, weight, Room, To, To-trans, To-refl}
use lugo.Parser.Depths.{Inner, enter, Back, back}
use lugo.Parser.Rules.{Runs, Runs-pure, Runs-bind, Runs-if, Runs-gets, Runs-map, Runs-modify}
use lugo.Parser.Steps.{
  Move, Keep, rest-rounds, stay, Runs-advance, Runs-report, Runs-push, Runs-add, Runs-sync,
}
use lugo.Parser.Nodes.{
  list-IsPlaced, IsPiece, Runs-node_of, Runs-extra_of, Runs-flush, Runs-add_plain,
}
use lugo.Parser.Good.{Block, Good}
use lugo.Parser.Tables.{Parsers}
use lugo.Parser.Program.{
  check_return, take_statement, block_statement, block_loop, skip_loop, too_nested, last_end,
  statements, parse_block,
}
use lugo.Parser.Program.Statement.{parse_statement-Runs}

-- The loop over the statements stops here.
abbrev pub Stopped : TokenSet → Parser → Type 0
Stopped stop s = is_kind s.curr.kind Kind.eof || is_at s stop ≡ true

live-going :
    (q : Parser) (stop : TokenSet)
    → is_kind q.curr.kind Kind.eof || is_at q stop ≡ false
    → live q.curr ≡ 1
live-going q stop e = ground arith

-- A round of the loop reads something, and pays for what it stores.
abbrev Round : Parser → Parser → Parser → Type 0
Round b q s =
    To b s
    × (length q.tree.nodes ≤ length s.tree.nodes)
    × (rest s + 1 ≤ rest q)
    × (weight s ≤ weight q)
    × (length q.list_stack ≤ length s.list_stack)

take_statement-Runs :
    (stop : TokenSet) (id : ℕ) {b q : Parser}
    → To b q
    → id < length q.tree.nodes
    → Runs (take_statement stop id) q (λ _ s. Keep b q 1 1 s)
unfolding take_statement check_return
take_statement-Runs stop id t low =
    Runs-bind (Runs-push t id low) λ _ s1 (t1, g1, r1, w1, l1, live1).
      Runs-node_of _ id (omega arith) λ n _. Runs-gets _ _ (
        Runs-if
          (Ast.is_kind n.kind NodeKind.return_stmt
            && not (is_kind s1.curr.kind Kind.eof || is_at s1 stop))
          (λ _. Runs-map (Runs-report t1 _) λ _ s2 (t2, g2, r2, w2, l2, live2).
            (t2, omega arith, omega arith, omega arith, omega arith, omega arith))
          (λ _. Runs-pure tt (t1, g1, r1, w1, l1, live1)))

module _ (r : Parsers) {m n : ℕ} (good : Good r m n) (stop : TokenSet) where
  block_statement-Runs :
      {b q : Parser}
      → To b q
      → Room q
      → rest q < m
      → rest q ≤ n
      → live q.curr ≡ 1
      → Runs (block_statement r stop) q (λ _ s. Round b q s)
  unfolding block_statement
  block_statement-Runs {b} {q} t room hm hn alive =
      Runs-bind (parse_statement-Runs r good (To-refl t.inv) room hm hn)
        λ id s1 ((t1, g1, r1, w1, l1), low, paid).
          let t1' : To b s1 = To-trans t t1 in
          let before = t1.ahead in
          Runs-if (id == 0)
            (λ _. Runs-map (Runs-sync t1') λ _ s2 (t2, g2, r2, w2, l2).
              (t2, omega arith, omega (arith, before), omega arith, omega arith))
            (λ valid.
              let (one, paid_one) = paid (ground arith) in
              Runs-map (take_statement-Runs stop id t1' low) λ _ s2 (t2, g2, r2, w2, l2, _).
                (t2, omega arith, omega arith, omega arith, omega arith))

  block_loop-Runs :
      (f : ℕ) {b q : Parser}
      → To b q
      → Room q
      → rest q < f
      → rest q < m
      → rest q ≤ n
      → Runs (block_loop f r stop) q (λ _ s.
        To b s
        × (length q.tree.nodes ≤ length s.tree.nodes)
        × (rest s ≤ rest q)
        × (weight s ≤ weight q)
        × (length q.list_stack ≤ length s.list_stack)
        × Stopped stop s)
  unfolding block_loop
  block_loop-Runs zero t room h hm hn = absurd (omega arith)
  block_loop-Runs (suc f) {b} {q} t room h hm hn = Runs-gets _ _ (
      Runs-gets _ _ (
        Runs-if (is_kind q.curr.kind Kind.eof || is_at q stop)
          (λ e. Runs-pure tt (t, omega arith, omega arith, omega arith, omega arith, e))
          (λ going.
            let alive = live-going q stop going in
            Runs-bind {R = λ _ s. Round b q s}
              (Runs-if (is_kind q.curr.kind Kind.semicolon)
                (λ _.
                  Runs-map (Runs-advance t)
                    λ _ s1 (t1, g1, r1, w1, l1). (t1, g1, omega arith, omega arith, omega arith))
                (λ _. block_statement-Runs t room hm hn alive))
              λ _ s1 (t1, g1, r1, w1, l1).
                Runs-map
                  (block_loop-Runs f t1 (omega arith) (omega arith) (omega arith) (omega arith))
                  λ _ s2 (t2, g2, r2, w2, l2, e2).
                    (t2, omega arith, omega arith, omega arith, omega arith, e2))))

skip_loop-Runs :
    (f : ℕ) (stop : TokenSet) {b q : Parser}
    → To b q
    → rest q < f
    → Runs (skip_loop f stop) q (λ _ s. Move b q 0 0 0 s × Stopped stop s)
unfolding skip_loop
skip_loop-Runs zero stop t h = absurd (omega arith)
skip_loop-Runs (suc f) stop {b} {q} t h = Runs-gets _ _ (
    Runs-if (is_kind q.curr.kind Kind.eof || is_at q stop) (λ e. Runs-pure tt (stay t, e))
      (λ going.
        let alive = live-going q stop going in
        Runs-bind (Runs-advance t) λ _ s1 (t1, g1, r1, w1, l1).
          Runs-map (skip_loop-Runs f stop t1 (omega arith)) λ _ s2 ((t2, g2, r2, w2, l2), e2).
            ((t2, omega arith, omega arith, omega arith, omega arith), e2)))

-- If the loop stops at the end only, the block ends there.
abbrev pub AtEnd : TokenSet → Parser → Type 0
AtEnd stop s = ((u : Parser) → Stopped stop u → live u.curr ≡ 0) → live s.curr ≡ 0

too_nested-Runs :
    (stop : TokenSet) (start : ℕ) {b q : Parser}
    → To b q
    → Room q
    → Runs (too_nested stop start) q (λ id s. Block b q id s × AtEnd stop s)
unfolding too_nested node_kind_code
too_nested-Runs stop start t room = Runs-bind (Runs-report t _) λ _ s1 (t1, g1, r1, w1, l1, _).
    Runs-gets _ _ (
      Runs-bind (skip_loop-Runs (length s1.lex.source + 3) stop t1 (rest-rounds t1))
        λ _ s2 ((t2, g2, r2, w2, l2), e2).
          Runs-map (Runs-add_plain t2 NodeKind.block start start refl (omega arith))
            λ id s3 ((t3, g3, r3, w3, l3, live3), (_, _, new)). (
              ((t3, omega arith, omega arith, omega arith, omega arith), new),
              (λ ends. let none = ends s2 e2 in omega arith),
            ))

-- Where the last child ends is only read.
last_end-Runs :
    (e c : ℕ) (q : Parser)
    → 0 < c
    → IsPiece q.tree.extra_list (length q.tree.nodes) e c
    → Runs (last_end e c) q (λ _ s. s ≡ q)
unfolding last_end
last_end-Runs e c q some_child (children, fits) =
    let (last, found, below) = children (c - 1) (omega arith) in
    let exact : u32 (e + (c - 1)) ≡ e + (c - 1) = omega arith in
    Runs-extra_of _ (u32 (e + (c - 1))) last (rw exact found)
      (Runs-node_of _ last below λ k _. Runs-pure _ refl)

module _ (r : Parsers) {m n : ℕ} (good : Good r m n) (stop : TokenSet) {b q : Parser} (t : To b q)
    (room : Room q) (hm : rest q < m) (hn : rest q ≤ n) where
  abbrev inner : Parser
  inner = record q { block_depth = q.block_depth + 1 }

  statements-Runs :
      (start : ℕ) → Runs (statements r stop start) q (λ id s. Block b q id s × AtEnd stop s)
  unfolding statements node_kind_code
  statements-Runs start =
      let (t0, r0, w0, g0, l0) : Inner q inner =
        enter q.depth q.loop_depth (q.block_depth + 1) t.inv in
      Runs-bind {R = λ _ s. s ≡ inner} (Runs-modify _ refl) λ _ s e. rw e (
        Runs-gets _ _ (
          Runs-gets _ _ (
            Runs-bind
              (block_loop-Runs r good stop (length q.lex.source + 3) t0 (omega arith)
                (rest-rounds t0) (omega arith) (omega arith))
              λ _ s1 (t1, g1, r1, w1, l1, e1).
                Runs-bind
                  (Runs-flush t1 (length q.list_stack) (omega arith) (omega arith) (omega arith))
                  λ (x, c) s2 (t2, g2, r2, w2, l2, (_, live2), piece).
                    Runs-bind {R = λ _ s. s ≡ s2}
                      (Runs-if (ltb 0 c) (λ some_child. last_end-Runs x c s2 (ground arith) piece)
                        (λ _. Runs-pure start refl))
                      λ end s3 same. rw same (
                        Runs-bind
                          (Runs-add t2 _ (omega arith) (
                            list-IsPlaced NodeKind.block start end 0 0 x c refl
                              t2.inv.shape.nonempty t2.inv.shape.nonempty piece))
                          λ id s4 ((t4, g4, r4, w4, l4, live4), (_, _, new)).
                            Runs-bind {R = λ _ u. Back b q s4 u × (live u.curr ≡ live s4.curr)}
                              (Runs-modify _ (
                                back q.depth q.loop_depth (q.block_depth + 1) s4.depth s4.loop_depth
                                    (s4.block_depth - 1) t t4 t4.depth t4.loop_depth
                                    (omega (arith, t4.block_depth)),
                                refl,
                              ))
                              λ _ s5 ((t5, g5, n5, r5, w5, l5), live5). Runs-pure id (
                                ((t5, g5, omega arith, omega arith, omega arith), omega arith),
                                (λ ends. let none = ends s1 e1 in omega arith),
                              )))))

  -- `parseBlock`
  pub parse_block-Runs : Runs (parse_block r stop) q (λ id s. Block b q id s × AtEnd stop s)
  unfolding parse_block
  parse_block-Runs = Runs-gets _ _ (
      Runs-gets _ _ (
        Runs-if (leb 200 q.block_depth) (λ _. too_nested-Runs stop q.curr.start t room)
          (λ _. statements-Runs q.curr.start)))

-- ===== src/Parser/Calls/Total.antt =====
-- Call arguments and function bodies of parser/parser.go do not panic and come to an end.
use lugo.Base.{ℕ, zero, suc, ◌+◌, ◌≤◌, ◌<◌, ◌≡◌, refl, true, false, ◌&&◌, ◌||◌, List, length, arith}
use lugo.Token.{Kind}
use lugo.Token.Codes.{kind_code}
use lugo.Ast.Kinds.{NodeKind, node_kind_code}
use lugo.Ast.{Node}
use lugo.Ast
use lugo.Ast.Parents.{IsPlaced}
use lugo.Parser.{Parser, is_kind}
use lugo.Parser.Stream.{live}
use lugo.Parser.Sound.{rest, weight, Room, To}
use lugo.Parser.Rules.{Runs, Runs-pure, Runs-bind, Runs-if, Runs-gets, Runs-map}
use lugo.Parser.Steps.{
  Move, New, live-kind, live-either, rest-rounds, Runs-advance, Runs-report, Runs-expect, Runs-push,
  Runs-add,
}
use lugo.Parser.Nodes.{list-IsPlaced, Runs-add_here, Runs-node_of, Runs-update, Runs-flush}
use lugo.Parser.Good.{Expr, Good, Listed, Runs-push_valid}
use lugo.Parser.Tables.{Parsers, lowest, stop_block_end}
use lugo.Parser.Tables.Total.{parse_table_constructor-Runs}
use lugo.Parser.Calls.{
  args_round, args_loop, call_parens, call_string, call_table, call_end, parse_call_args, parameter,
  params_loop, parse_function_body,
}

args_round-Runs :
    (r : Parsers) {m n : ℕ}
    → Good r m n
    → {b q : Parser} → To b q
    → Room q
    → rest q < m
    → Runs
        (args_round r)
        q
        (λ more s. Listed b q s × (more ≡ true → rest s + 1 ≤ rest q × weight s ≤ weight q))
unfolding args_round kind_code
args_round-Runs r good {b} {q} t room hm =
    Runs-bind (good.expression lowest t room hm) λ arg s1 (m1, low, paid).
      Runs-bind (Runs-push_valid m1.0 q arg m1 low paid) λ _ s2 (t2, g2, r2, w2, l2).
        Runs-gets _ _ (
          Runs-if (is_kind s2.curr.kind Kind.comma)
            (λ comma. Runs-bind (Runs-advance t2) λ _ s3 (t3, g3, r3, w3, l3).
              let one = live-kind s2.curr Kind.comma comma refl in
              Runs-pure true (
                (t3, omega arith, omega arith, omega arith, omega arith),
                (λ _. (omega arith, omega arith)),
              ))
            (λ _. Runs-pure false ((t2, g2, r2, w2, l2), (λ e. absurd (ground arith)))))

args_loop-Runs :
    (f : ℕ) (r : Parsers) {m n : ℕ}
    → Good r m n
    → {b q : Parser} → To b q
    → Room q
    → rest q < f
    → rest q < m
    → Runs (args_loop f r) q (λ _ s. Listed b q s)
unfolding args_loop
args_loop-Runs zero r good t room h hm = absurd (omega arith)
args_loop-Runs (suc f) r good {b} {q} t room h hm = Runs-gets _ _ (
    Runs-bind
      (Runs-if (is_kind q.curr.kind Kind.r_paren || is_kind q.curr.kind Kind.eof)
        (λ _.
          Runs-pure false
            ((t, omega arith, omega arith, omega arith, omega arith), (λ e. absurd (ground arith))))
        (λ _. args_round-Runs r good t room hm))
      λ more s1 ((t1, g1, r1, w1, l1), on).
        Runs-if more
          (λ e.
            let (less, kept) = on e in
            Runs-map (args_loop-Runs f r good t1 (omega arith) (omega arith) (omega arith))
              λ _ s2 (t2, g2, r2, w2, l2). (t2, omega arith, omega arith, omega arith, omega arith))
          (λ _. Runs-pure tt (t1, g1, r1, w1, l1)))

-- The arguments of a call were pushed, and what was read pays for the call.
abbrev Args : Parser → Parser → Parser → Type 0
Args b q s =
    To b s
    × (length q.tree.nodes ≤ length s.tree.nodes)
    × (rest s + 1 ≤ rest q)
    × (weight s + 5 ≤ weight q)
    × (length q.list_stack ≤ length s.list_stack)

module _ (r : Parsers) {m n : ℕ} (good : Good r m n) {b q : Parser} (t : To b q) (room : Room q)
    (alive : live q.curr ≡ 1) where
  call_parens-Runs : rest q ≤ m → Runs (call_parens r) q (λ _ s. Args b q s)
  unfolding call_parens
  call_parens-Runs hm = Runs-bind (Runs-advance t) λ _ s1 (t1, g1, r1, w1, l1). Runs-gets _ _ (
      Runs-bind
        (args_loop-Runs (length s1.lex.source + 3) r good t1 (omega arith) (rest-rounds t1)
          (omega arith))
        λ _ s2 (t2, g2, r2, w2, l2). Runs-gets _ _ (
          Runs-bind (Runs-expect t2 Kind.r_paren _) λ _ s3 (t3, g3, r3, w3, l3).
            Runs-pure _ (t3, omega arith, omega arith, omega arith, omega arith)))

  call_string-Runs :
      (kind : NodeKind)
      → Ast.is_kind kind NodeKind.for_in ≡ false
      → Runs (call_string kind) q (λ _ s. Args b q s)
  unfolding call_string
  call_string-Runs kind plain =
      Runs-bind (Runs-add_here t kind plain (omega arith))
        λ arg s1 ((t1, g1, r1, w1, l1, live1), (_, _, low)).
          Runs-bind (Runs-push t1 arg low) λ _ s2 (t2, g2, r2, w2, l2, live2). Runs-gets _ _ (
            Runs-bind (Runs-advance t2) λ _ s3 (t3, g3, r3, w3, l3).
              Runs-pure _ (t3, omega arith, omega arith, omega arith, omega arith))

  call_table-Runs : rest q ≤ m → Runs (call_table r) q (λ _ s. Args b q s)
  unfolding call_table
  call_table-Runs hm =
      Runs-bind (parse_table_constructor-Runs r good t room alive hm)
        λ arg s1 (((t1, g1, r1, w1, l1), low, paid), less, six).
          Runs-bind (Runs-push t1 arg low) λ _ s2 (t2, g2, r2, w2, l2, live2).
            Runs-node_of _ arg (omega arith)
              λ k e. Runs-pure _ (t2, omega arith, omega arith, omega arith, omega arith)

  call_end-Runs : (k : Kind) → rest q ≤ m → Runs (call_end r k) q (λ _ s. Args b q s)
  unfolding node_kind_code
  call_end-Runs k hm =
      Runs-if (is_kind k Kind.l_paren) (λ _. call_parens-Runs hm)
        (λ _.
          Runs-if (is_kind k Kind.string) (λ _. call_string-Runs NodeKind.string refl)
            (λ _.
              Runs-if (is_kind k Kind.backtick_string)
                (λ _. call_string-Runs NodeKind.hashed_string refl)
                (λ _.
                  Runs-if (is_kind k Kind.l_brace) (λ _. call_table-Runs hm)
                    (λ _. Runs-bind (Runs-advance t) λ _ s1 (t1, g1, r1, w1, l1).
                      Runs-pure 0 (t1, omega arith, omega arith, omega arith, omega arith)))))

  -- `parseCallArgs` makes a call of any node.
  pub parse_call_args-Runs :
      (left : ℕ) (k : Kind)
      → rest q ≤ m
      → left < length q.tree.nodes
      → Runs (parse_call_args r left k) q (λ id s. Expr b q id s × New q id s)
  unfolding parse_call_args node_kind_code
  parse_call_args-Runs left k hm low = Runs-node_of _ left low λ l e. Runs-gets _ _ (
      Runs-bind (call_end-Runs k hm) λ end s1 (t1, g1, r1, w1, l1).
        Runs-bind (Runs-flush t1 (length q.list_stack) t.grown l1 (omega arith))
          λ (x, c) s2 (t2, g2, r2, w2, l2, _, piece).
            Runs-map
              (Runs-add t2 _ (omega arith) (
                list-IsPlaced NodeKind.call_expr _ _ left 0 x c refl (omega arith)
                  (omega (arith, t2.inv.shape.nonempty)) piece))
              λ id s3 ((t3, g3, r3, w3, l3, _), (pos, fresh, new)). (
                (
                  (t3, omega arith, omega arith, omega arith, omega arith),
                  new,
                  (λ _. (omega arith, omega arith)),
                ),
                (pos, omega arith, new),
              ))

-- A parameter was read and waits.
abbrev Named : Parser → Parser → Parser → Type 0
Named b q s =
    To b s
    × (length q.tree.nodes ≤ length s.tree.nodes)
    × (rest s + 1 ≤ rest q)
    × (weight s ≤ weight q)
    × (length q.list_stack ≤ length s.list_stack)

-- A parameter stays placed when it becomes a vararg.
vararg-IsPlaced :
    {extras : List ℕ} {b : ℕ} (m : Node)
    → IsPlaced extras b m
    → IsPlaced extras b (record m { kind = NodeKind.vararg })
unfolding node_kind_code
vararg-IsPlaced m p = record {
  left_below = p.left_below;
  right_below = p.right_below;
  third_below = λ e. absurd (ground arith);
  extras_below = p.extras_below;
  fits = p.fits;
}

parameter-Runs :
    {b q : Parser} → To b q → Room q → live q.curr ≡ 1 → Runs parameter q (λ _ s. Named b q s)
unfolding parameter node_kind_code
parameter-Runs {b} {q} t room alive =
    Runs-bind (Runs-add_here t NodeKind.ident refl (omega arith))
      λ param s1 ((t1, g1, r1, w1, l1, live1), (_, _, low)). Runs-gets _ _ (
        Runs-bind
          (Runs-if (is_kind s1.curr.kind Kind.vararg)
            (λ _. Runs-update t1 param _ low λ m _ placed. vararg-IsPlaced m placed)
            (λ _. Runs-pure tt (t1, omega arith, refl, omega arith, omega arith, refl)))
          λ _ s2 (t2, g2, r2, w2, l2, live2).
            Runs-bind (Runs-push t2 param (omega arith)) λ _ s3 (t3, g3, r3, w3, l3, live3).
              Runs-bind (Runs-advance t3) λ _ s4 (t4, g4, r4, w4, l4). Runs-gets _ _ (
                Runs-bind
                  (Runs-if (is_kind s1.curr.kind Kind.vararg && is_kind s4.curr.kind Kind.comma)
                    (λ _. Runs-report t4 _)
                    (λ _. Runs-pure tt (t4, omega arith, refl, omega arith, omega arith, refl)))
                  λ _ s5 (t5, g5, r5, w5, l5, live5).
                    Runs-if (is_kind s4.curr.kind Kind.comma)
                      (λ _. Runs-bind (Runs-advance t5) λ _ s6 (t6, g6, r6, w6, l6).
                        Runs-pure true (t6, omega arith, omega arith, omega arith, omega arith))
                      (λ _.
                        Runs-pure false (t5, omega arith, omega arith, omega arith, omega arith))))

-- The parameters wait; what was read pays for them.
abbrev Params : Parser → Parser → Parser → Type 0
Params b q s =
    To b s
    × (length q.tree.nodes ≤ length s.tree.nodes)
    × (rest s ≤ rest q)
    × (weight s ≤ weight q)
    × (length q.list_stack ≤ length s.list_stack)

params_loop-Runs :
    (f : ℕ) {b q : Parser}
    → To b q
    → Room q
    → rest q < f
    → Runs (params_loop f) q (λ _ s. Params b q s)
unfolding params_loop kind_code
params_loop-Runs zero t room h = absurd (omega arith)
params_loop-Runs (suc f) {b} {q} t room h = Runs-gets _ _ (
    Runs-gets _ _ (
      Runs-bind {R = λ more s. Params b q s × (more ≡ true → rest s + 1 ≤ rest q)}
        (Runs-if (is_kind q.curr.kind Kind.r_paren || is_kind q.curr.kind Kind.eof)
          (λ _.
            Runs-pure false (
              (t, omega arith, omega arith, omega arith, omega arith),
              (λ e. absurd (ground arith)),
            ))
          (λ _.
            Runs-if (is_kind q.curr.kind Kind.ident || is_kind q.curr.kind Kind.vararg)
              (λ e.
                let alive = live-either q.curr Kind.ident Kind.vararg e refl refl in
                Runs-map (parameter-Runs t room alive)
                  λ _ s (t1, g1, r1, w1, l1). ((t1, g1, omega arith, w1, l1), (λ _. r1)))
              (λ _. Runs-bind (Runs-report t _) λ _ s (t1, g1, r1, w1, l1, _).
                Runs-pure false
                  ((t1, g1, omega arith, omega arith, omega arith), (λ e. absurd (ground arith))))))
        λ more s1 ((t1, g1, r1, w1, l1), on).
          Runs-if more
            (λ e.
              let less = on e in
              Runs-map (params_loop-Runs f t1 (omega arith) (omega arith))
                λ _ s2 (t2, g2, r2, w2, l2).
                  (t2, omega arith, omega arith, omega arith, omega arith))
            (λ _. Runs-pure tt (t1, g1, r1, w1, l1))))

-- `parseFunctionBody`: a node, with its block not yet paid for.
pub parse_function_body-Runs :
    (r : Parsers) {m n : ℕ}
    → Good r m n
    → (start : ℕ) {b q : Parser} → To b q
    → Room q
    → rest q < n
    → Runs
        (parse_function_body r start)
        q
        (λ id s. Move b q 0 2 0 s × (0 < id) × (id < length s.tree.nodes))
unfolding parse_function_body node_kind_code
parse_function_body-Runs r good start {b} {q} t room hn =
    Runs-bind (Runs-expect t Kind.l_paren _) λ _ s1 (t1, g1, r1, w1, l1). Runs-gets _ _ (
      Runs-gets _ _ (
        Runs-bind (params_loop-Runs (length s1.lex.source + 3) t1 (omega arith) (rest-rounds t1))
          λ _ s2 (t2, g2, r2, w2, l2).
            Runs-bind (Runs-expect t2 Kind.r_paren _) λ _ s3 (t3, g3, r3, w3, l3).
              Runs-bind (good.block stop_block_end t3 (omega arith) (omega arith))
                λ block s4 ((t4, g4, r4, w4, l4), low). Runs-gets _ _ (
                  Runs-bind (Runs-expect t4 Kind.end_kw _) λ _ s5 (t5, g5, r5, w5, l5).
                    Runs-bind
                      (Runs-flush t5 (length s1.list_stack) t1.grown (omega arith) (omega arith))
                      λ (e, c) s6 (t6, g6, r6, w6, l6, _, piece).
                        Runs-map
                          (Runs-add t6 _ (omega arith) (
                            list-IsPlaced NodeKind.function_expr start _ 0 block e c refl
                              (omega (arith, t6.inv.shape.nonempty)) (omega arith) piece))
                          λ id s7 ((t7, g7, r7, w7, l7, _), (pos, _, new)).
                            ((t7, omega arith, omega arith, omega arith, omega arith), pos, new))))

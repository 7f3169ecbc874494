-- ===== src/Parser/Expressions/Total.antt =====
-- `parseExpression` of parser/parser.go does not panic and comes to an end.
use lugo.Base.{
  ℕ, zero, suc, ◌+◌, ◌-◌, ◌≤◌, ◌<◌, ◌≡◌, refl, sym, ◌∙◌, true, false, length, ltb, ◌==◌, arith,
}
use lugo.Token.{Kind, Token}
use lugo.Token.Codes.{kind_code, kind_code_lt}
use lugo.Ast.Kinds.{NodeKind, node_kind_code}
use lugo.Parser.{Parser, is_kind, is_one_of, is_ident_or_keyword}
use lugo.Parser.Stream.{live}
use lugo.Parser.Sound.{rest, weight, Room, To}
use lugo.Parser.Rules.{Runs, Runs-pure, Runs-bind, Runs-if, Runs-gets, Runs-map, Runs-modify}
use lugo.Parser.Steps.{live-name, rest-rounds, Runs-advance, Runs-report}
use lugo.Parser.Nodes.{Runs-leaf, Runs-node_of}
use lugo.Parser.Depths.{Inner, enter, Back, back}
use lugo.Parser.Good.{Expr, Good}
use lugo.Parser.Tables.{Parsers, precedence}
use lugo.Parser.Calls.Total.{parse_call_args-Runs}
use lugo.Parser.Expressions.{
  binary_kinds, call_kinds, method_name, infix_colon, parse_infix, infix_loop, leave, too_deep,
  operators, operand, parse_expression,
}
use lugo.Parser.Expressions.Cases.{has_case, precedence_iff}
use lugo.Parser.Expressions.Infix.{
  Infix, infix_binary-Runs, infix_dot-Runs, infix_index-Runs, method_call-Runs,
}
use lugo.Parser.Expressions.Prefix.{parse_prefix-Runs}

live-call : (t : Token) → is_one_of call_kinds t.kind ≡ true → live t ≡ 1
unfolding kind_code
live-call t e = ground arith

live-precedence : (t : Token) (level : ℕ) → ltb level (precedence t.kind) ≡ true → live t ≡ 1
unfolding kind_code
live-precedence t level e =
    let above : ltb 0 (precedence t.kind) ≡ true = ground arith in
    let known : has_case t.kind ≡ true = sym (precedence_iff t.kind) ∙ above in ground arith

method_name-Runs :
    (r : Parsers) {m : ℕ}
    → Good r m m
    → {b q : Parser} → To b q
    → Room q
    → rest q ≤ m
    → live q.curr ≡ 1
    → (left start : ℕ) → 0 < left
    → left < length q.tree.nodes
    → Runs (method_name r left start) q (Infix b q)
unfolding method_name node_kind_code
method_name-Runs r good {b} {q} t room h alive left start pos low =
    Runs-bind (Runs-leaf t NodeKind.ident refl (omega arith))
      λ name s1 ((t1, g1, r1, w1, l1), (_, _, low1)). Runs-gets _ _ (
        Runs-if (is_one_of call_kinds s1.curr.kind)
          (λ e.
            Runs-map
              (method_call-Runs r good t1 (omega arith) (omega arith) (live-call s1.curr e) left
                start pos (omega arith) name s1.curr.kind low1)
              λ id s2 (t2, g2, r2, w2, l2, pos2, new2).
                (t2, omega arith, omega arith, omega arith, omega arith, pos2, new2))
          (λ _. Runs-bind (Runs-report t1 _) λ _ s2 (t2, g2, r2, w2, l2, _).
            Runs-pure left
              (t2, omega arith, omega arith, omega arith, omega arith, pos, omega arith)))

module _ (r : Parsers) {m : ℕ} (good : Good r m m) {b q : Parser} (t : To b q) (room : Room q)
    (h : rest q ≤ m) (left : ℕ) (pos : 0 < left) (low : left < length q.tree.nodes) where
  infix_colon-Runs : (start : ℕ) → live q.curr ≡ 1 → Runs (infix_colon r left start) q (Infix b q)
  unfolding infix_colon
  infix_colon-Runs start alive = Runs-bind (Runs-advance t) λ _ s1 (t1, g1, r1, w1, l1).
      Runs-gets _ _ (
        Runs-if (is_ident_or_keyword s1)
          (λ e.
            Runs-map
              (method_name-Runs r good t1 (omega arith) (omega arith) (live-name s1 e) left start
                pos (omega arith))
              λ id s2 (t2, g2, r2, w2, l2, pos2, new2).
                (t2, omega arith, omega arith, omega arith, omega arith, pos2, new2))
          (λ _. Runs-bind (Runs-report t1 _) λ _ s2 (t2, g2, r2, w2, l2, _).
            Runs-pure left
              (t2, omega arith, omega arith, omega arith, omega arith, pos, omega arith)))

  -- `parseInfix`, where the current token has a precedence
  pub parse_infix-Runs :
      (level : ℕ)
      → ltb level (precedence q.curr.kind) ≡ true
      → Runs (parse_infix r left) q (Infix b q)
  unfolding parse_infix
  parse_infix-Runs level e =
      let alive = live-precedence q.curr level e in
      let k = q.curr.kind in
      let small : kind_code k < 4294967296 = omega (arith, kind_code_lt k) in
      let above : ltb 0 (precedence k) ≡ true = ground arith in
      let known : has_case k ≡ true = sym (precedence_iff k) ∙ above in
      Runs-gets _ _ (
        Runs-node_of _ left low λ l _.
          Runs-if (is_one_of binary_kinds k)
            (λ _. infix_binary-Runs r good t room h alive left l.start pos low k small)
            (λ no_binary.
              Runs-if (is_kind k Kind.dot)
                (λ _. infix_dot-Runs r good t room h alive left l.start pos low)
                (λ no_dot.
                  Runs-if (is_kind k Kind.l_brack)
                    (λ _. infix_index-Runs r good t room h alive left l.start pos low)
                    (λ no_index.
                      Runs-if (is_one_of call_kinds k)
                        (λ _.
                          Runs-map (parse_call_args-Runs r good t room alive left k h low)
                            λ id s (((t1, g1, r1, w1, l1), new, paid), (pos1, _, _)).
                              let (one, four) = paid (λ z. absurd (omega arith)) in
                              (t1, g1, one, omega arith, omega arith, pos1, new))
                        (λ no_call.
                          Runs-if (is_kind k Kind.colon) (λ _. infix_colon-Runs l.start alive)
                            (λ no_colon.
                              let no_case : has_case k ≡ false =
                                rw (no_binary, no_dot, no_index, no_call, no_colon) refl in
                              absurd (ground arith)))))))

-- `parseInfix` where the current token has none: no case takes it.
pub parse_infix-Stays :
    (r : Parsers) (q : Parser) (left : ℕ)
    → left < length q.tree.nodes
    → ltb 0 (precedence q.curr.kind) ≡ false
    → Runs (parse_infix r left) q (λ id s. (id ≡ left) × (s ≡ q))
unfolding parse_infix
parse_infix-Stays r q left low none_above =
    let k = q.curr.kind in
    let no_case : has_case k ≡ false = sym (precedence_iff k) ∙ none_above in
    Runs-gets _ _ (
      Runs-node_of _ left low λ l _.
        Runs-if (is_one_of binary_kinds k) (λ e. absurd (ground arith))
          (λ _.
            Runs-if (is_kind k Kind.dot) (λ e. absurd (ground arith))
              (λ _.
                Runs-if (is_kind k Kind.l_brack) (λ e. absurd (ground arith))
                  (λ _.
                    Runs-if (is_one_of call_kinds k) (λ e. absurd (ground arith))
                      (λ _.
                        Runs-if (is_kind k Kind.colon) (λ e. absurd (ground arith))
                          (λ _. Runs-pure left (refl, refl)))))))

infix_loop-Runs :
    (f : ℕ) (r : Parsers) {m : ℕ}
    → Good r m m
    → (level left : ℕ) {b q : Parser} → To b q
    → Room q
    → rest q < f
    → rest q ≤ m
    → 0 < left
    → left < length q.tree.nodes
    → Runs (infix_loop f r level left) q (λ id s.
      To b s
      × (length q.tree.nodes ≤ length s.tree.nodes)
      × (rest s ≤ rest q)
      × (weight s ≤ weight q)
      × (length s.list_stack ≡ length q.list_stack)
      × (0 < id)
      × (id < length s.tree.nodes))
unfolding infix_loop
infix_loop-Runs zero r good level left t room h hm pos low = absurd (omega arith)
infix_loop-Runs (suc f) r good level left {b} {q} t room h hm pos low = Runs-gets _ _ (
    Runs-if (ltb level (precedence q.curr.kind))
      (λ e.
        Runs-bind (parse_infix-Runs r good t room hm left pos low level e)
          λ id s1 (t1, g1, r1, w1, l1, pos1, new1).
            Runs-map
              (infix_loop-Runs f r good level id t1 (omega arith) (omega arith) (omega arith) pos1
                new1)
              λ id' s2 (t2, g2, r2, w2, l2, pos2, new2).
                (t2, omega arith, omega arith, omega arith, omega arith, pos2, new2))
      (λ _. Runs-pure left (t, omega arith, omega arith, omega arith, omega arith, pos, low)))

-- Between the two ends of `parseExpression` the depth is one greater.
module _ {b q s : Parser} (t : To b q) (t' : To (record q { depth = q.depth + 1 }) s) where
  Runs-leave : Runs leave s (λ _ u. Back b q s u)
  Runs-leave = Runs-modify _ (
      back (q.depth + 1) q.loop_depth q.block_depth (s.depth - 1) s.loop_depth s.block_depth t t'
        (omega (arith, t'.depth)) t'.loop_depth t'.block_depth)

module _ (r : Parsers) {m : ℕ} (good : Good r m m) {b q : Parser} (t : To b q) (room : Room q)
    (h : rest q ≤ m) where
  abbrev inner : Parser
  inner = record q { depth = q.depth + 1 }

  inside : Inner q inner
  inside = enter (q.depth + 1) q.loop_depth q.block_depth t.inv

  too_deep-Runs : (depth : ℕ) → Runs (too_deep depth) inner (Expr b q)
  unfolding too_deep
  too_deep-Runs depth =
      Runs-bind
        (Runs-if (depth == 201) (λ _. Runs-report inside.0 _)
          (λ _. Runs-pure tt (inside.0, omega arith, refl, omega arith, omega arith, refl)))
        λ _ s1 (t1, g1, r1, w1, l1, _). Runs-bind (Runs-leave t t1) λ _ s2 (t2, g2, n2, r2, w2, l2).
          Runs-pure 0 (
            (t2, omega arith, omega (arith, inside.1), omega (arith, inside.2), omega arith),
            omega (arith, t2.inv.shape.nonempty),
            (λ ne. absurd (ne refl)),
          )

  operand-Runs : (level : ℕ) → Runs (operand r level) inner (Expr b q)
  unfolding operand operators
  operand-Runs level =
      Runs-bind
        (parse_prefix-Runs r good inside.0 (omega (arith, inside.2)) (omega (arith, inside.1)))
        λ left s1 ((t1, g1, r1, w1, l1), low, paid).
          Runs-if (left == 0)
            (λ _. Runs-bind (Runs-leave t t1) λ _ s2 (t2, g2, n2, r2, w2, l2). Runs-pure 0 (
              (t2, omega arith, omega (arith, inside.1), omega (arith, inside.2), omega arith),
              omega (arith, t2.inv.shape.nonempty),
              (λ ne. absurd (ne refl)),
            ))
            (λ valid.
              let (one, four) = paid (ground arith) in
              Runs-gets _ _ (
                Runs-bind
                  (infix_loop-Runs (length s1.lex.source + 3) r good level left t1
                    (omega (arith, inside.2)) (rest-rounds t1) (omega (arith, inside.1))
                    (ground arith) low)
                  λ id s2 (t2, g2, r2, w2, l2, pos, new).
                    Runs-bind (Runs-leave t t2) λ _ s3 (t3, g3, n3, r3, w3, l3). Runs-pure id (
                      (
                        t3,
                        omega arith,
                        omega (arith, inside.1),
                        omega (arith, inside.2),
                        omega arith,
                      ),
                      omega arith,
                      (λ _. (omega (arith, inside.1), omega (arith, inside.2))),
                    )))

  -- `parseExpression`
  pub parse_expression-Runs : (level : ℕ) → Runs (parse_expression r level) q (Expr b q)
  unfolding parse_expression
  parse_expression-Runs level = Runs-bind {R = λ _ s. s ≡ inner} (Runs-modify _ refl) λ _ s e.
      rw e (
        Runs-gets _ _ (
          Runs-if (ltb 200 (q.depth + 1)) (λ _. too_deep-Runs (q.depth + 1))
            (λ _. operand-Runs level)))

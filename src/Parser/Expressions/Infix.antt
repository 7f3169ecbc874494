-- ===== src/Parser/Expressions/Infix.antt =====
-- The operators of parser/parser.go do not panic and come to an end.
use lugo.Base.{ℕ, ◌+◌, ◌≤◌, ◌<◌, ◌≡◌, refl, List, length, ◌==◌, arith}
use lugo.Token.{Kind}
use lugo.Token.Codes.{kind_code}
use lugo.Ast.Kinds.{NodeKind, node_kind_code}
use lugo.Ast.{Node}
use lugo.Ast.Parents.{IsPlaced}
use lugo.Parser.{Parser, is_kind, is_ident_or_keyword}
use lugo.Parser.Stream.{live}
use lugo.Parser.Sound.{rest, weight, Room, To}
use lugo.Parser.Rules.{Runs, Runs-pure, Runs-bind, Runs-if, Runs-gets, Runs-map}
use lugo.Parser.Steps.{Move, live-name, stay, Runs-advance, Runs-report, Runs-add}
use lugo.Parser.Nodes.{pair-IsPlaced, Runs-leaf, Runs-update}
use lugo.Parser.Good.{Good}
use lugo.Parser.Tables.{Parsers, lowest}
use lugo.Parser.Calls.Total.{parse_call_args-Runs}
use lugo.Parser.Expressions.{
  right_level, infix_binary, member_name, infix_dot, infix_index, method_call,
}

-- An operand with what follows it: a node, with something read.
abbrev pub Infix : Parser → Parser → ℕ → Parser → Type 0
Infix b q a s =
    To b s
    × (length q.tree.nodes ≤ length s.tree.nodes)
    × (rest s + 1 ≤ rest q)
    × (weight s ≤ weight q)
    × (length s.list_stack ≡ length q.list_stack)
    × (0 < a)
    × (a < length s.tree.nodes)

-- A call stays placed when it becomes a method call.
method-IsPlaced :
    {extras : List ℕ} {b : ℕ} (left name start : ℕ) (m : Node)
    → left < b
    → name < b
    → IsPlaced extras b m
    → IsPlaced extras b
        (record m { kind = NodeKind.method_call; left = left; right = name; start = start })
unfolding node_kind_code
method-IsPlaced left name start m hl hn p = record {
  left_below = hl;
  right_below = hn;
  third_below = λ e. absurd (ground arith);
  extras_below = p.extras_below;
  fits = p.fits;
}

-- A node stays placed when its parent changes.
parent-IsPlaced :
    {extras : List ℕ} {b : ℕ} (parent : ℕ) (m : Node)
    → IsPlaced extras b m
    → IsPlaced extras b (record m { parent = parent })
parent-IsPlaced parent m p = record {
  left_below = p.left_below;
  right_below = p.right_below;
  third_below = p.third_below;
  extras_below = p.extras_below;
  fits = p.fits;
}

member_name-Runs :
    (left start : ℕ) {b q : Parser}
    → To b q
    → Room q
    → live q.curr ≡ 1
    → left < length q.tree.nodes
    → Runs (member_name left start) q (Infix b q)
unfolding member_name node_kind_code
member_name-Runs left start t room alive low =
    Runs-bind (Runs-leaf t NodeKind.ident refl (omega arith))
      λ right s1 ((t1, g1, r1, w1, l1), (_, _, low1)). Runs-gets _ _ (
        Runs-map
          (Runs-add t1 _ (omega arith) (
            pair-IsPlaced NodeKind.member_expr start _ left right 0 refl (omega arith) low1
              (omega arith)))
          λ id s2 ((t2, g2, r2, w2, l2, _), (pos, _, new)).
            (t2, omega arith, omega arith, omega arith, omega arith, pos, new))

module _ (r : Parsers) {m : ℕ} (good : Good r m m) {b q : Parser} (t : To b q) (room : Room q)
    (h : rest q ≤ m) (alive : live q.curr ≡ 1) (left start : ℕ) (pos : 0 < left)
    (low : left < length q.tree.nodes) where
  pub infix_binary-Runs :
      (k : Kind) → kind_code k < 4294967296 → Runs (infix_binary r left start k) q (Infix b q)
  unfolding infix_binary node_kind_code
  infix_binary-Runs k small = Runs-bind (Runs-advance t) λ _ s1 (t1, g1, r1, w1, l1).
      Runs-bind (good.expression (right_level k) t1 (omega arith) (omega arith))
        λ right s2 ((t2, g2, r2, w2, l2), low2, _). Runs-gets _ _ (
          Runs-map
            (Runs-add t2 _ (omega arith) (
              pair-IsPlaced NodeKind.binary_expr start _ left right (kind_code k) refl (omega arith)
                low2 small))
            λ id s3 ((t3, g3, r3, w3, l3, _), (pos3, _, new)).
              (t3, omega arith, omega arith, omega arith, omega arith, pos3, new))

  pub infix_dot-Runs : Runs (infix_dot left start) q (Infix b q)
  unfolding infix_dot
  infix_dot-Runs = Runs-bind (Runs-advance t) λ _ s1 (t1, g1, r1, w1, l1). Runs-gets _ _ (
      Runs-if (is_ident_or_keyword s1)
        (λ e.
          Runs-map (member_name-Runs left start t1 (omega arith) (live-name s1 e) (omega arith))
            λ id s2 (t2, g2, r2, w2, l2, pos2, new2).
              (t2, omega arith, omega arith, omega arith, omega arith, pos2, new2))
        (λ _. Runs-bind (Runs-report t1 _) λ _ s2 (t2, g2, r2, w2, l2, _).
          Runs-pure left
            (t2, omega arith, omega arith, omega arith, omega arith, pos, omega arith)))

  pub infix_index-Runs : Runs (infix_index r left start) q (Infix b q)
  unfolding infix_index node_kind_code
  infix_index-Runs = Runs-bind (Runs-advance t) λ _ s1 (t1, g1, r1, w1, l1).
      Runs-bind (good.expression lowest t1 (omega arith) (omega arith))
        λ right s2 ((t2, g2, r2, w2, l2), low2, _). Runs-gets _ _ (
          Runs-bind
            (Runs-if (is_kind s2.curr.kind Kind.r_brack)
              (λ _. Runs-pure tt (t2, omega arith, refl, omega arith, omega arith, refl))
              (λ _. Runs-report t2 _))
            λ _ s3 (t3, g3, r3, w3, l3, _). Runs-gets _ _ (
              Runs-gets _ _ (
                Runs-bind {R = λ _ s. Move b s3 0 0 0 s}
                  (Runs-if (is_kind s3.curr.kind Kind.r_brack)
                    (λ _.
                      Runs-map (Runs-advance t3)
                        λ _ s (t4, g4, r4, w4, l4). (t4, g4, omega arith, omega arith, l4))
                    (λ _. Runs-pure tt (stay t3)))
                  λ _ s4 (t4, g4, r4, w4, l4).
                    Runs-map
                      (Runs-add t4 _ (omega arith) (
                        pair-IsPlaced NodeKind.index_expr start _ left right 0 refl (omega arith)
                          (omega arith) (omega arith)))
                      λ id s5 ((t5, g5, r5, w5, l5, _), (pos5, _, new)).
                        (t5, omega arith, omega arith, omega arith, omega arith, pos5, new))))

  -- `name` is the method, and the current token begins the arguments.
  pub method_call-Runs :
      (name : ℕ) (k : Kind)
      → name < length q.tree.nodes
      → Runs (method_call r left start name k) q (Infix b q)
  unfolding method_call
  method_call-Runs name k low_name =
      Runs-bind (parse_call_args-Runs r good t room alive name k h low_name)
        λ call s1 (((t1, g1, r1, w1, l1), _, paid), (pos1, fresh, new)).
          let (one, four) = paid (λ z. absurd (omega arith)) in
          Runs-bind
            (Runs-update t1 call _ new
              λ n _ placed. method-IsPlaced left name start n (omega arith) (omega arith) placed)
            λ _ s2 (t2, g2, r2, w2, l2, _).
              Runs-bind
                (Runs-if (left == 0)
                  (λ _. Runs-pure tt (t2, omega arith, refl, omega arith, omega arith, refl))
                  (λ _.
                    Runs-update t2 left _ (omega arith)
                      λ n _ placed. parent-IsPlaced call n placed))
                λ _ s3 (t3, g3, r3, w3, l3, _).
                  Runs-pure call
                    (t3, omega arith, omega arith, omega arith, omega arith, pos1, omega arith)

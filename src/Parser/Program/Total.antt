-- ===== src/Parser/Program/Total.antt =====
-- `Parse` of parser/parser.go on every source: no panic, an end, and the shape of the tree.
use lugo.Base.{
  ℕ, zero, suc, ◌+◌, ◌≤◌, ◌<◌, ◌≡◌, refl, sym, ap, ◌∙◌, [], ◌∷◌, inl, inr, Bool-cases, some, Bytes,
  length, get_elem?, u32, arith,
}
use lugo.Token.{Kind}
use lugo.Token.Codes.{kind_code}
use lugo.Token.Set.{TokenSet, contains, contains-new_token_set}
use lugo.Ast.Kinds.{NodeKind, node_kind_code}
use lugo.Ast.{Node}
use lugo.Parser.{Parser, is_at, new}
use lugo.Parser.Stream.{live}
use lugo.Parser.Sound.{Inv, rest, weight, Room, To, To-refl}
use lugo.Parser.Rules.{Runs, Runs-pure, Runs-bind, Runs-gets, Runs-map, Runs-modify}
use lugo.Parser.Steps.{rest-rounds, Runs-add_exact}
use lugo.Parser.Nodes.{pair-IsPlaced}
use lugo.Parser.Good.{Block, Good}
use lugo.Parser.Action.{node}
use lugo.Parser.Tables.{Parsers}
use lugo.Parser.Expressions.Total.{parse_expression-Runs}
use lugo.Parser.Program.{parsers, stop_block_eof, parse_with, parse}
use lugo.Parser.Program.Blocks.{Stopped, AtEnd, parse_block-Runs}

-- In the round `suc f`, `parseBlock` calls the `parseExpression` of its round and the `parseBlock`
-- of the round before.
same_round : ℕ → Parsers
same_round f = record (parsers f) { expression = (parsers (suc f)).expression }

same_round-Good : (f : ℕ) → Good (parsers f) f f → Good (same_round f) (suc f) f
unfolding parsers same_round
same_round-Good f below = record {
  expression = λ level t room h. parse_expression-Runs (parsers f) below t room (omega arith) level;
  block = below.block;
}

-- With `f` rounds, `parseExpression` and `parseBlock` keep the contract that they have for each
-- other: from every parser that keeps its invariant and has room below 2 ^ 32, where fewer than `f`
-- tokens and bytes are left, they return without a panic and keep the invariant and the three
-- depths. What they return is a node of the tree, or 0; for an expression that is not 0 something
-- was read, and all that was stored is paid for, at eight entries for each token.
pub parsers-Good : (f : ℕ) → Good (parsers f) f f
unfolding parsers same_round
parsers-Good zero = record {
  expression = λ level t room h. absurd (omega arith);
  block = λ stop t room h. absurd (omega arith);
}
parsers-Good (suc f) =
    let both = same_round-Good f (parsers-Good f) in
    record {
      expression = both.expression;
      block = λ stop t room h.
          Runs-map (parse_block-Runs (same_round f) both stop t room h (omega arith))
            λ id s (x, _). x;
    }

top_block-Runs :
    (f : ℕ) (stop : TokenSet) {b q : Parser}
    → To b q
    → Room q
    → rest q < f
    → Runs ((parsers f).block stop) q (λ id s. Block b q id s × AtEnd stop s)
unfolding parsers same_round
top_block-Runs zero stop t room h = absurd (omega arith)
top_block-Runs (suc f) stop t room h =
    parse_block-Runs (same_round f) (same_round-Good f (parsers-Good f)) stop t room h (omega arith)

-- The file ends where nothing is left to read.
eof-AtEnd : (u : Parser) → Stopped stop_block_eof u → live u.curr ≡ 0
unfolding is_at kind_code
eof-AtEnd u e = elim (Bool-cases (contains stop_block_eof u.curr.kind)) [
  | inl in_set ↦ elim ((contains-new_token_set (Kind.eof ∷ []) u.curr.kind).0 in_set) [
    | inl same ↦ rw same refl
    | inr none ↦ elim none [ ]
  ]
  | inr out ↦ ground arith
]

-- The node of a file reaches from its first byte to its end.
abbrev pub IsFile : Bytes → Node → Type 0
IsFile source m = (m.kind ≡ NodeKind.file) × (m.start ≡ 0) × (m.end ≡ u32 (length source))

-- What `Parse` leaves behind: the root is a node of the tree, and nothing waits.
pub record Parsed (p : Parser) (root : ℕ) (q : Parser) : Type 0 where
  pub to : To p q
  pub root_is : q.tree.root ≡ root
  pub root_positive : 0 < root
  pub root_inside : root < length q.tree.nodes
  pub file : (m : Node) → get_elem? q.tree.nodes root ≡ some m → IsFile q.tree.source m
  pub at_end : live q.curr ≡ 0
  pub level : length q.list_stack ≡ length p.list_stack
  pub weight_le : weight q ≤ weight p + 2

root-To :
    {p q : Parser} (root : ℕ) → To p q → To p (record q { tree = record q.tree { root = root } })
unfolding rest
root-To root t = record {
  inv = record {
    valid = t.inv.valid;
    source = t.inv.source;
    curr = t.inv.curr;
    peek = t.inv.peek;
    shape = record {
      nonempty = t.inv.shape.nonempty;
      fits = t.inv.shape.fits;
      placed = t.inv.shape.placed;
    };
    stack = t.inv.stack;
  };
  same = t.same;
  less = t.less;
  ahead = t.ahead;
  nodes = t.nodes;
  grown = t.grown;
  depth = t.depth;
  loop_depth = t.loop_depth;
  block_depth = t.block_depth;
}

root-weight :
    (q : Parser) (root : ℕ) → weight (record q { tree = record q.tree { root = root } }) ≡ weight q
unfolding weight rest
root-weight q root = refl

pub parse-Runs : (p : Parser) → Inv p → Room p → Runs parse p (Parsed p)
unfolding parse parse_with node_kind_code
parse-Runs p i room =
    let t : To p p = To-refl i in
    from_with (
      Runs-bind (top_block-Runs (length p.lex.source + 3) stop_block_eof t room (rest-rounds t))
        λ block s1 (((t1, g1, r1, w1, l1), low1), ends). Runs-gets _ _ (
          Runs-bind
            (Runs-add_exact t1
              (record (node NodeKind.file 0 (u32 (length s1.tree.source))) { left = block })
              (omega arith)
              (pair-IsPlaced NodeKind.file 0 _ block 0 0 refl low1 t1.inv.shape.nonempty
                (omega arith)))
            λ root s2 (((t2, g2, r2, w2, l2, live2), (pos, _, new)), made).
              let none = ends eof-AtEnd in
              Runs-bind {R = λ _ s. Parsed p root s}
                (Runs-modify _ (record {
                  to = root-To root t2;
                  root_is = refl;
                  root_positive = pos;
                  root_inside = new;
                  file = λ m e.
                      let alike = made m e in
                      let same : s2.tree.source ≡ s1.tree.source =
                        t2.inv.source ∙ (t2.same ∙ (sym t1.same ∙ sym t1.inv.source)) in
                      (
                        ap (λ (k : Node). k.kind) alike,
                        ap (λ (k : Node). k.start) alike,
                        ap (λ (k : Node). k.end) alike
                            ∙ ap (λ (cs : Bytes). u32 (length cs)) (sym same),
                      );
                  at_end = omega arith;
                  level = omega arith;
                  weight_le = omega (arith, root-weight s2 root);
                }))
                λ _ s3 h. Runs-pure root h))
  where
    from_with :
        Runs (parse_with (parsers (length p.lex.source + 3))) p (Parsed p) → Runs parse p (Parsed p)
    from_with x = record { value = x.value; after = x.after; done = x.done; holds = x.holds }

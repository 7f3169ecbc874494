-- ===== src/Parser/Declarations/Local.antt =====
-- `local` of parser/parser.go does not panic and comes to an end.
use lugo.Base.{
  ℕ, zero, suc, ◌+◌, ◌-◌, ◌≤◌, ◌<◌, ◌≡◌, refl, ap, ◌∙◌, true, false, List, Bytes, some, slice, u32,
  leb, ◌&&◌, length, ◌==◌, arith,
}
use lugo.Token.{Kind, text}
use lugo.Token.Codes.{kind_code}
use lugo.Ast.Kinds.{NodeKind, node_kind_code}
use lugo.Ast.{Node}
use lugo.Ast
use lugo.Parser.{Parser, is_kind}
use lugo.Parser.Stream.{live}
use lugo.Parser.Sound.{rest, weight, Room, To}
use lugo.Parser.Rules.{
  Runs, Runs-pure, Runs-bind, Runs-if, Runs-gets, Runs-read, Runs-value, Runs-map,
}
use lugo.Parser.Steps.{
  Move, live-kind, Runs-advance_nodes, rest-rounds, stay, Runs-advance, Runs-report, Runs-push,
  Runs-add,
}
use lugo.Parser.Nodes.{
  pair-IsPlaced, list-IsPlaced, Runs-leaf_exact, Runs-node_of, Runs-extra_of, Runs-update,
  Runs-flush, IsPiece,
}
use lugo.Parser.Good.{Good, Stmt}
use lugo.Parser.Tables.{Parsers}
use lugo.Parser.Tables.Total.{parse_expr_list-Runs}
use lugo.Ast.Parents.{IsPlaced}
use lugo.Parser.Tables.Total.{parse_expr_list-Runs}
use lugo.Parser.Declarations.{
  attribute_code, curr_text, read_attribute, local_name, local_loop, list_span, names_span,
  local_names, local_assign, parse_local,
}
use lugo.Parser.Declarations.Functions.{local_function-Runs}

attribute_code-le : (name : Bytes) → attribute_code name ≤ 2
attribute_code-le name = ground arith

curr_text_eq :
    {b q : Parser} → To b q → curr_text q ≡ some (slice q.curr.start q.curr.end q.tree.source, q)
unfolding curr_text text
curr_text_eq {b} {q} t =
    let (ordered, inside) = t.inv.curr in
    let source = t.inv.source in
    let e1 : leb q.curr.start q.curr.end ≡ true = ground arith in
    let e2 : leb q.curr.end (length q.tree.source) ≡ true = ground (arith, ap length source) in
    rw (e1, e2) refl

-- The attribute of a name is read; the nodes stay.
read_attribute-Runs :
    {b q : Parser}
    → To b q
    → Runs read_attribute q
        (λ a s. (Move b q 0 0 0 s × (s.tree.nodes ≡ q.tree.nodes)) × (a < 4294967296))
unfolding read_attribute
read_attribute-Runs {b} {q} t = Runs-bind (Runs-advance_nodes t) λ _ s1 ((t1, g1, r1, w1, l1), e1).
    Runs-read _ _ (slice s1.curr.start s1.curr.end s1.tree.source) (curr_text_eq t1) (
      Runs-bind (Runs-advance_nodes t1) λ _ s2 ((t2, g2, r2, w2, l2), e2). Runs-gets _ _ (
        Runs-bind {R = λ _ s. Move b s2 0 0 0 s × (s.tree.nodes ≡ s2.tree.nodes)}
          (Runs-if (is_kind s2.curr.kind Kind.greater)
            (λ _.
              Runs-map (Runs-advance_nodes t2)
                λ _ s ((t3, g3, r3, w3, l3), e3). ((t3, g3, omega arith, omega arith, l3), e3))
            (λ _. Runs-pure tt (stay t2, refl)))
          λ _ s3 ((t3, g3, r3, w3, l3), e3).
            let name = slice s1.curr.start s1.curr.end s1.tree.source in
            Runs-pure (attribute_code name) (
              ((t3, omega arith, omega arith, omega arith, omega arith), e3 ∙ (e2 ∙ e1)),
              omega (arith, attribute_code-le name),
            )))

-- A node without a list of children stays placed when its `Extra` is set.
extra-IsPlaced :
    {extras : List ℕ} {b : ℕ} (x : ℕ) (m : Node)
    → x < 4294967296
    → m.count ≡ 0
    → Ast.is_kind m.kind NodeKind.for_in ≡ false
    → IsPlaced extras b m
    → IsPlaced extras b (record m { extra = x })
extra-IsPlaced x m small none plain p = record {
  left_below = p.left_below;
  right_below = p.right_below;
  third_below = λ e. absurd (ground arith);
  extras_below = λ i h. absurd (omega arith);
  fits = omega arith;
}

-- A list of names waits; what was read pays for it.
abbrev Names : Parser → Parser → Parser → Type 0
Names b q s =
    To b s
    × (length q.tree.nodes ≤ length s.tree.nodes)
    × (rest s ≤ rest q)
    × (weight s ≤ weight q)
    × (length q.list_stack ≤ length s.list_stack)

local_name-Runs :
    {b q : Parser}
    → To b q
    → Room q
    → live q.curr ≡ 1
    → Runs local_name q (λ _ s. Names b q s × (rest s + 1 ≤ rest q))
unfolding local_name node_kind_code
local_name-Runs {b} {q} t room alive =
    Runs-bind (Runs-leaf_exact t NodeKind.ident refl (omega arith))
      λ ident s1 (((t1, g1, r1, w1, l1), (_, _, low1)), made). Runs-gets _ _ (
        Runs-bind
          {R = λ a s. (Move b s1 0 0 0 s × (s.tree.nodes ≡ s1.tree.nodes)) × (a < 4294967296)}
          (Runs-if (is_kind s1.curr.kind Kind.less && is_kind s1.peek.kind Kind.ident)
            (λ _. read_attribute-Runs t1) (λ _. Runs-pure 0 ((stay t1, refl), omega arith)))
          λ attr s2 (((t2, g2, r2, w2, l2), same), small).
            Runs-bind
              (Runs-update t2 ident _ (omega arith) λ m e placed.
                let alike = made m (rw same at e) in
                extra-IsPlaced attr m small (ap (λ (k : Node). k.count) alike)
                  (ap (λ (k : Node). Ast.is_kind k.kind NodeKind.for_in) alike) placed)
              λ _ s3 (t3, g3, r3, w3, l3, _).
                Runs-bind (Runs-push t3 ident (omega arith)) λ _ s4 (t4, g4, r4, w4, l4, _).
                  Runs-gets _ _ (
                    Runs-if (is_kind s4.curr.kind Kind.comma)
                      (λ _. Runs-bind (Runs-advance t4) λ _ s5 (t5, g5, r5, w5, l5).
                        Runs-pure true
                          ((t5, omega arith, omega arith, omega arith, omega arith), omega arith))
                      (λ _.
                        Runs-pure false
                          ((t4, omega arith, omega arith, omega arith, omega arith), omega arith))))

local_loop-Runs :
    (f : ℕ) {b q : Parser}
    → To b q
    → Room q
    → rest q < f
    → Runs (local_loop f) q (λ _ s. Names b q s)
unfolding local_loop kind_code
local_loop-Runs zero t room h = absurd (omega arith)
local_loop-Runs (suc f) {b} {q} t room h = Runs-gets _ _ (
    Runs-bind {R = λ more s. Names b q s × (more ≡ true → rest s + 1 ≤ rest q)}
      (Runs-if (is_kind q.curr.kind Kind.ident)
        (λ e.
          Runs-map (local_name-Runs t room (live-kind q.curr Kind.ident e refl))
            λ _ s (x, less). (x, (λ _. less)))
        (λ _. Runs-bind (Runs-report t _) λ _ s (t1, g1, r1, w1, l1, _).
          Runs-pure false
            ((t1, g1, omega arith, omega arith, omega arith), (λ e. absurd (ground arith)))))
      λ more s1 ((t1, g1, r1, w1, l1), on).
        Runs-if more
          (λ e.
            let less = on e in
            Runs-map (local_loop-Runs f t1 (omega arith) (omega arith))
              λ _ s2 (t2, g2, r2, w2, l2). (t2, omega arith, omega arith, omega arith, omega arith))
          (λ _. Runs-pure tt (t1, g1, r1, w1, l1)))

-- Where the names stand is only read.
names_span-Runs :
    {b q : Parser} (t : To b q) (e c : ℕ)
    → IsPiece q.tree.extra_list (length q.tree.nodes) e c
    → Runs (names_span e c) q (λ _ s. s ≡ q)
unfolding list_span
names_span-Runs {b} {q} t e c (children, fits) =
    Runs-if (c == 0) (λ _. Runs-value _ refl)
      (λ some_name.
        let (first, found, below) = children 0 (ground arith) in
        let (last, found', below') = children (c - 1) (ground arith) in
        let at_first : e + 0 ≡ e = omega arith in
        let exact : u32 (e + (c - 1)) ≡ e + (c - 1) = omega arith in
        Runs-extra_of _ e first (rw at_first at found) (
          Runs-extra_of _ (u32 (e + (c - 1))) last (rw exact found')
            (Runs-node_of _ first below λ m _. Runs-node_of _ last below' λ n _. Runs-pure _ refl)))

local_names-Runs :
    {b q : Parser}
    → To b q
    → Room q
    → Runs local_names q (λ id s. Move b q 0 1 0 s × (id < length s.tree.nodes))
unfolding local_names node_kind_code
local_names-Runs {b} {q} t room = Runs-gets _ _ (
    Runs-gets _ _ (
      Runs-bind (local_loop-Runs (length q.lex.source + 3) t room (rest-rounds t))
        λ _ s1 (t1, g1, r1, w1, l1).
          Runs-bind (Runs-flush t1 (length q.list_stack) t.grown l1 (omega arith))
            λ (e, c) s2 (t2, g2, r2, w2, l2, _, piece).
              Runs-bind (names_span-Runs t2 e c piece) λ (start, end) s3 same. rw same (
                Runs-map
                  (Runs-add t2 _ (omega arith) (
                    list-IsPlaced NodeKind.name_list start end 0 0 e c refl t2.inv.shape.nonempty
                      t2.inv.shape.nonempty piece))
                  λ id s4 ((t4, g4, r4, w4, l4, _), (_, _, new)).
                    ((t4, omega arith, omega arith, omega arith, omega arith), new))))

module _ (r : Parsers) {m n : ℕ} (good : Good r m n) where
  -- The `local` was read and pays for the lists.
  local_assign-Runs :
      (start : ℕ) {b q : Parser}
      → To b q
      → Room q
      → rest q < m
      → Runs (local_assign r start) q (λ id s. Move b q 0 2 0 s × (id < length s.tree.nodes))
  unfolding local_assign node_kind_code kind_code
  local_assign-Runs start {b} {q} t room hm =
      Runs-bind (local_names-Runs t room) λ names s1 ((t1, g1, r1, w1, l1), low1). Runs-gets _ _ (
        Runs-bind {R = λ id s. Move b s1 0 0 0 s × (id < length s.tree.nodes)}
          (Runs-if (is_kind s1.curr.kind Kind.assign)
            (λ e. Runs-bind (Runs-advance t1) λ _ s2 (t2, g2, r2, w2, l2).
              let one = live-kind s1.curr Kind.assign e refl in
              Runs-map (parse_expr_list-Runs r good t2 (omega arith) (omega arith))
                λ id s3 ((t3, g3, r3, w3, l3), low3, _).
                  ((t3, omega arith, omega arith, omega arith, omega arith), low3))
            (λ _. Runs-pure 0 (stay t1, t1.inv.shape.nonempty)))
          λ values s2 ((t2, g2, r2, w2, l2), low2). Runs-gets _ _ (
            Runs-map
              (Runs-add t2 _ (omega arith) (
                pair-IsPlaced NodeKind.local_assign start _ names values 0 refl (omega arith) low2
                  (omega arith)))
              λ id s3 ((t3, g3, r3, w3, l3, _), (_, _, new)).
                ((t3, omega arith, omega arith, omega arith, omega arith), new)))

  pub parse_local-Runs :
      {b q : Parser}
      → To b q
      → Room q
      → rest q < m
      → rest q ≤ n
      → live q.curr ≡ 1
      → Runs (parse_local r) q (Stmt b q)
  unfolding parse_local kind_code
  parse_local-Runs {b} {q} t room hm hn alive = Runs-gets _ _ (
      Runs-bind (Runs-advance t) λ _ s1 (t1, g1, r1, w1, l1). Runs-gets _ _ (
        Runs-if (is_kind s1.curr.kind Kind.function_kw)
          (λ e.
            Runs-map
              (local_function-Runs r good q.curr.start t1 (omega arith) (omega arith)
                (live-kind s1.curr Kind.function_kw e refl))
              λ id s2 ((t2, g2, r2, w2, l2), new, _). (
                (t2, omega arith, omega arith, omega arith, omega arith),
                new,
                (λ _. (omega arith, omega arith)),
              ))
          (λ _.
            Runs-map (local_assign-Runs q.curr.start t1 (omega arith) (omega arith))
              λ id s2 ((t2, g2, r2, w2, l2), new). (
                (t2, omega arith, omega arith, omega arith, omega arith),
                new,
                (λ _. (omega arith, omega arith)),
              ))))

-- ===== src/Parser/Nodes.antt =====
-- The steps of Parser.Action that read, change or make nodes: they do not panic, and they keep the
-- invariant of the parser.
use lugo.Base.{
  ℕ, zero, suc, ◌+◌, ◌-◌, ◌≤◌, ◌<◌, ◌≡◌, refl, ap, sym, ◌∙◌, inl, inr, false, ◌⊎◌, List, [], ◌∷◌,
  some, max, length, get_elem?, get_elem?-some, modify_at, arith, u32,
}
use mathlib.Core.Option.{some-injective}
use lugo.Ast.Kinds.{NodeKind, node_kind_code}
use lugo.Ast.{Node, Tree}
use lugo.Ast
use lugo.Ast.Parents.{IsPlaced}
use lugo.Parser.{Parser, flush_list_stack}
use lugo.Parser.Stream.{live}
use lugo.Parser.Sound.{rest, weight, To, To-trans}
use lugo.Parser.Flush.{Takes, flush-Takes, append_list-Takes}
use lugo.Parser.Rules.{Runs, Runs-pure, Runs-map, Runs-bind, Runs-read, Runs-gets}
use lugo.Parser.Steps.{Move, Keep, New, MadeOf, Runs-advance_nodes, Runs-add_exact, Runs-add}
use lugo.Parser.Action.{
  Action, returning, ◌>>=◌, node, add, node_of, update, extra_of, flush, append_list, add_here,
  add_missing, leaf,
}

-- A node without a list of children is placed if its two children are below it.
pub pair-IsPlaced :
    {extras : List ℕ} {b : ℕ} (kind : NodeKind) (start end l r x : ℕ)
    → Ast.is_kind kind NodeKind.for_in ≡ false
    → l < b
    → r < b
    → x < 4294967296
    → IsPlaced extras b (record (node kind start end) { left = l; right = r; extra = x })
pair-IsPlaced kind start end l r x plain hl hr hx = record {
  left_below = hl;
  right_below = hr;
  third_below = λ e. absurd (ground (arith, plain, e));
  extras_below = λ i h. absurd (omega arith);
  fits = omega arith;
}

-- The `c` entries of the extra list from `e` on are nodes below `b`.
abbrev pub IsPiece : List ℕ → ℕ → ℕ → ℕ → Type 0
IsPiece extras b e c =
    ((i : ℕ) → i < c → (k : ℕ) × (get_elem? extras (e + i) ≡ some k) × (k < b))
    × (e + c < 4294967296)

-- A node with a list of children is placed if these are below it.
pub list-IsPlaced :
    {extras : List ℕ} {b : ℕ} (kind : NodeKind) (start end l r e c : ℕ)
    → Ast.is_kind kind NodeKind.for_in ≡ false
    → l < b
    → r < b
    → IsPiece extras b e c
    → IsPlaced extras b (record (node kind start end) { left = l; right = r; extra = e; count = c })
list-IsPlaced kind start end l r e c plain hl hr (children, fits) = record {
  left_below = hl;
  right_below = hr;
  third_below = λ q. absurd (ground (arith, plain, q));
  extras_below = children;
  fits = fits;
}

-- Entry `i` is changed by `f`, all others stay.
modify_at_lem :
    (i : ℕ) (f : Node → Node) (xs : List Node)
    → i < length xs
    → (ys : List Node) × (modify_at i f xs ≡ some ys)
      × (length ys ≡ length xs)
      × ((j : ℕ) (m : Node)
          → get_elem? ys j ≡ some m
          → (get_elem? xs j ≡ some m)
            ⊎ ((j ≡ i) × (m' : Node) × (get_elem? xs j ≡ some m') × (m ≡ f m')))
unfolding modify_at
modify_at_lem i f [] h = elim h [ ]
modify_at_lem zero f (x ∷ xs) h = (f x ∷ xs, refl, refl, at)
  where
    at :
        (j : ℕ) (m : Node)
        → get_elem? (f x ∷ xs) j ≡ some m
        → (get_elem? (x ∷ xs) j ≡ some m)
          ⊎ ((j ≡ 0) × (m' : Node) × (get_elem? (x ∷ xs) j ≡ some m') × (m ≡ f m'))
    at zero m e = inr (refl, x, refl, sym (some-injective _ _ e))
    at (suc j) m e = inl e
modify_at_lem (suc i) f (x ∷ xs) h =
    let (ys, done, size, at) = modify_at_lem i f xs (omega arith) in
    (x ∷ ys, rw done refl, ap suc size, later ys at)
  where
    later :
        (ys : List Node)
        → ((j : ℕ) (m : Node)
            → get_elem? ys j ≡ some m
            → (get_elem? xs j ≡ some m)
              ⊎ ((j ≡ i) × (m' : Node) × (get_elem? xs j ≡ some m') × (m ≡ f m')))
        → (j : ℕ) (m : Node) → get_elem? (x ∷ ys) j ≡ some m
        → (get_elem? (x ∷ xs) j ≡ some m)
          ⊎ ((j ≡ suc i) × (m' : Node) × (get_elem? (x ∷ xs) j ≡ some m') × (m ≡ f m'))
    later ys at zero m e = inl e
    later ys at (suc j) m e = elim (at j m e) [
      | inl same ↦ inl same
      | inr (here, m', old, new) ↦ inr (ap suc here, m', old, new)
    ]

update_eq :
    (id : ℕ) (f : Node → Node) (q : Parser) (nodes : List Node)
    → modify_at id f q.tree.nodes ≡ some nodes
    → update id f q ≡ some (tt, record q { tree = record q.tree { nodes = nodes } })
unfolding update
update_eq id f q nodes e =
    ap (returning (λ ns. (tt, record q { tree = record q.tree { nodes = ns } }))) e

node_of_eq :
    (id : ℕ) (q : Parser) (n : Node)
    → get_elem? q.tree.nodes id ≡ some n
    → node_of id q ≡ some (n, q)
unfolding node_of
node_of_eq id q n e = ap (returning (λ m. (m, q))) e

extra_of_eq :
    (i : ℕ) (q : Parser) (c : ℕ)
    → get_elem? q.tree.extra_list i ≡ some c
    → extra_of i q ≡ some (c, q)
unfolding extra_of
extra_of_eq i q c e = ap (returning (λ m. (m, q))) e

module _ {b q : Parser} (t : To b q) where
  -- A change of a node that keeps its children below it.
  pub Runs-update :
      (id : ℕ) (f : Node → Node)
      → id < length q.tree.nodes
      → ((m : Node)
          → get_elem? q.tree.nodes id ≡ some m
          → IsPlaced q.tree.extra_list (max 1 id) m
          → IsPlaced q.tree.extra_list (max 1 id) (f m))
      → Runs (update id f) q (λ _ s. Keep b q 0 0 s)
  unfolding rest weight
  Runs-update id f h keeps =
      let (ys, done, size, at) = modify_at_lem id f q.tree.nodes h in
      let i = t.inv in
      record {
        value = tt;
        after = record q { tree = record q.tree { nodes = ys } };
        done = update_eq id f q ys done;
        holds = (
          To-trans t (record {
            inv = record {
              valid = i.valid;
              source = i.source;
              curr = i.curr;
              peek = i.peek;
              shape = record {
                nonempty = omega (arith, size, i.shape.nonempty);
                fits = omega (arith, size, i.shape.fits);
                placed = λ j m e. elim (at j m e) [
                  | inl old ↦ i.shape.placed j m old
                  | inr (here, m', old, new) ↦
                      let old' : get_elem? q.tree.nodes id ≡ some m' = rw here at old in
                      rw (here, new) (keeps m' old' (i.shape.placed id m' old'))
                ];
              };
              stack = λ j c e. let low = i.stack j c e in omega (arith, size);
            };
            same = refl;
            less = omega arith;
            ahead = omega arith;
            nodes = omega (arith, size);
            grown = omega arith;
            depth = refl;
            loop_depth = refl;
            block_depth = refl;
          }),
          omega (arith, size),
          refl,
          omega (arith, size),
          omega arith,
          refl,
        );
      }

  -- The value of a step that ends a list: the piece of what waited since `m` entries did.
  abbrev pub Popped : ℕ → ℕ × ℕ → Parser → Type 0
  Popped m r s =
      To b s
      × (length s.tree.nodes ≡ length q.tree.nodes)
      × (rest s ≡ rest q)
      × (weight s ≡ weight q)
      × (length s.list_stack ≡ m)
      × ((r.1 ≡ length q.list_stack - m) × (live s.curr ≡ live q.curr))
      × IsPiece s.tree.extra_list (length s.tree.nodes) r.0 r.1

  Takes-Popped :
      {m e c : ℕ} {s : Parser} → length b.list_stack ≤ m → Takes m q s e c → Popped m (e, c) s
  Takes-Popped h x = (
    record {
      inv = x.inv;
      same = x.same ∙ t.same;
      less = omega (arith, x.rest_is, t.less);
      ahead = omega (arith, x.rest_is, t.ahead, ap live x.curr);
      nodes = omega (arith, x.nodes, t.nodes);
      grown = omega (arith, x.level);
      depth = x.depth ∙ t.depth;
      loop_depth = x.loop_depth ∙ t.loop_depth;
      block_depth = x.block_depth ∙ t.block_depth;
    },
    x.nodes,
    x.rest_is,
    x.weight_is,
    x.level,
    (x.count, ap live x.curr),
    (x.children, x.fits),
  )

  pub Runs-flush :
      (m : ℕ)
      → length b.list_stack ≤ m
      → m ≤ length q.list_stack
      → weight q < 4294967296
      → Runs (flush m) q (Popped m)
  unfolding flush
  Runs-flush m h h' fits = record {
    value = (flush_list_stack q m).1;
    after = (flush_list_stack q m).0;
    done = refl;
    holds = Takes-Popped h (flush-Takes q m h' t.inv fits);
  }

  pub Runs-append_list :
      (m : ℕ)
      → length b.list_stack ≤ m
      → m ≤ length q.list_stack
      → weight q < 4294967296
      → Runs (append_list m) q (Popped m)
  unfolding append_list
  Runs-append_list m h h' fits = record {
    value = (u32 (length q.tree.extra_list), u32 (length q.list_stack - m));
    after = _;
    done = refl;
    holds = Takes-Popped h (append_list-Takes q m h' t.inv fits);
  }

  -- A node without children is added.
  pub Runs-add_plain :
      (kind : NodeKind) (start end : ℕ)
      → Ast.is_kind kind NodeKind.for_in ≡ false
      → weight q + 1 < 4294967296
      → Runs (add (node kind start end)) q (λ id s. Keep b q 1 0 s × New q id s)
  Runs-add_plain kind start end plain fits =
      let some_node = t.inv.shape.nonempty in
      Runs-add t _ fits (pair-IsPlaced kind start end 0 0 0 plain some_node some_node (omega arith))

  pub Runs-add_here :
      (kind : NodeKind)
      → Ast.is_kind kind NodeKind.for_in ≡ false
      → weight q + 1 < 4294967296
      → Runs (add_here kind) q (λ id s. Keep b q 1 0 s × New q id s)
  unfolding add_here
  Runs-add_here kind plain fits = Runs-gets _ _ (Runs-add_plain kind _ _ plain fits)

  pub Runs-add_missing :
      weight q + 1 < 4294967296 → Runs add_missing q (λ id s. Keep b q 1 0 s × New q id s)
  unfolding add_missing node_kind_code
  Runs-add_missing fits = Runs-gets _ _ (Runs-add_plain NodeKind.ident _ _ refl fits)

pub Runs-node_of :
    {B : Type 0} (k : Node → Action B) {q : Parser} {Q : B → Parser → Type 0} (id : ℕ)
    → id < length q.tree.nodes
    → ((n : Node) → get_elem? q.tree.nodes id ≡ some n → Runs (k n) q Q)
    → Runs (node_of id >>= k) q Q
Runs-node_of k {q} id h f =
    let (n, e) = get_elem?-some q.tree.nodes id h in Runs-read _ k n (node_of_eq id q n e) (f n e)

pub Runs-extra_of :
    {B : Type 0} (k : ℕ → Action B) {q : Parser} {Q : B → Parser → Type 0} (i c : ℕ)
    → get_elem? q.tree.extra_list i ≡ some c
    → Runs (k c) q Q
    → Runs (extra_of i >>= k) q Q
Runs-extra_of k {q} i c e x = Runs-read _ k c (extra_of_eq i q c e) x

-- A node at the current token, which is read; its list of children is empty.
pub Runs-leaf_exact :
    {b q : Parser} (t : To b q) (kind : NodeKind)
    → Ast.is_kind kind NodeKind.for_in ≡ false
    → weight q + 1 < 4294967296
    → Runs (leaf kind) q (λ id s.
      (Move b q (live q.curr) 1 0 s × New q id s) × MadeOf (node kind q.curr.start q.curr.end) id s)
unfolding leaf add_here
Runs-leaf_exact {b} {q} t kind plain fits =
    let some_node = t.inv.shape.nonempty in
    let n = node kind q.curr.start q.curr.end in
    Runs-bind {R = λ id s. (Keep b q 1 0 s × New q id s) × MadeOf n id s}
      (Runs-gets _ _ (
        Runs-add_exact t n fits (
          pair-IsPlaced kind q.curr.start q.curr.end 0 0 0 plain some_node some_node
            (omega arith))))
      λ id s (((t1, g1, r1, w1, l1, live1), (low, fresh, new)), count).
        Runs-bind (Runs-advance_nodes t1) λ _ u ((t2, g2, r2, w2, l2), same). Runs-pure id (
          ((t2, omega arith, omega arith, omega arith, omega arith), (low, fresh, omega arith)),
          (λ m e. count m (rw same at e)),
        )

pub Runs-leaf :
    {b q : Parser} (t : To b q) (kind : NodeKind)
    → Ast.is_kind kind NodeKind.for_in ≡ false
    → weight q + 1 < 4294967296
    → Runs (leaf kind) q (λ id s. Move b q (live q.curr) 1 0 s × New q id s)
Runs-leaf t kind plain fits = Runs-map (Runs-leaf_exact t kind plain fits) λ id s (x, _). x

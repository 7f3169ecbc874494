-- ===== src/Parser/Flush.antt =====
-- What the end of a list in parser/parser.go does to the invariant of the parser: what waits on the
-- stack moves to the tree's extra list.
use lugo.Base.{
  ℕ, zero, suc, ◌+◌, ◌-◌, ◌≤◌, ◌<◌, ◌≡◌, refl, ap, sym, inl, inr, true, false, List, [], ◌∷◌, ◌++◌,
  some, max, length, take, drop, get_elem?, get_elem?-lt, get_elem?-some, get_elem?-append,
  length-append, length-drop, ltb, u32, ◌==◌, arith, Bool-cases,
}
use lugo.Ast.{Node, Tree}
use lugo.Ast.Parents.{IsPlaced}
use lugo.Ast.Shape.{IsTree}
use lugo.Parser.{Parser, flush_list_stack}
use lugo.Parser.Stack.{flushed, flush_none, flush_some}
use lugo.Parser.Sound.{Inv, rest, weight}

IsPlaced-extras :
    (extras more : List ℕ) (b : ℕ) (m : Node) → IsPlaced extras b m → IsPlaced (extras ++ more) b m
IsPlaced-extras extras more b m p = record {
  left_below = p.left_below;
  right_below = p.right_below;
  third_below = p.third_below;
  extras_below = λ i h.
      let (c, found, below) = p.extras_below i h in
      let low = get_elem?-lt extras (m.extra + i) found in
      let old : ltb (m.extra + i) (length extras) ≡ true = ground arith in
      (c, rw (get_elem?-append extras more (m.extra + i), old) found, below);
  fits = p.fits;
}

extras-IsTree :
    (t : Tree) (more : List ℕ) → IsTree t → IsTree (record t { extra_list = t.extra_list ++ more })
extras-IsTree t more shape = record {
  nonempty = shape.nonempty;
  fits = shape.fits;
  placed = λ id m e. IsPlaced-extras t.extra_list more (max 1 id) m (shape.placed id m e);
}

-- What waited on the stack from `s` on is the piece of `c` entries from `e` on, all of them nodes.
pub record Takes (s : ℕ) (p q : Parser) (e c : ℕ) : Type 0 where
  pub inv : Inv q
  pub same : q.lex.source ≡ p.lex.source
  pub curr : q.curr ≡ p.curr
  pub rest_is : rest q ≡ rest p
  pub weight_is : weight q ≡ weight p
  pub nodes : length q.tree.nodes ≡ length p.tree.nodes
  pub level : length q.list_stack ≡ s
  pub count : c ≡ length p.list_stack - s
  pub children :
      (i : ℕ)
      → i < c
      → (k : ℕ) × (get_elem? q.tree.extra_list (e + i) ≡ some k) × (k < length q.tree.nodes)
  pub fits : e + c < 4294967296
  pub depth : q.depth ≡ p.depth
  pub loop_depth : q.loop_depth ≡ p.loop_depth
  pub block_depth : q.block_depth ≡ p.block_depth

get_drop : (s : ℕ) (xs : List ℕ) (i : ℕ) → get_elem? (drop s xs) i ≡ get_elem? xs (s + i)
get_drop zero xs i = ap (get_elem? xs) (omega arith)
get_drop (suc s) [] i = refl
get_drop (suc s) (x ∷ xs) i =
    let e : suc s + i ≡ suc (s + i) = omega arith in rw e (get_drop s xs i)

get_elem?-take :
    (s : ℕ) (xs : List ℕ) (i k : ℕ) → get_elem? (take s xs) i ≡ some k → get_elem? xs i ≡ some k
get_elem?-take zero xs i k e = cc
get_elem?-take (suc s) [] i k e = e
get_elem?-take (suc s) (x ∷ xs) zero k e = e
get_elem?-take (suc s) (x ∷ xs) (suc i) k e = get_elem?-take s xs i k e

length-take-le : (s : ℕ) (xs : List ℕ) → s ≤ length xs → length (take s xs) ≡ s
length-take-le zero xs h = refl
length-take-le (suc s) [] h = absurd (omega arith)
length-take-le (suc s) (x ∷ xs) h = let ih = length-take-le s xs (omega arith) in omega arith

module _ (p : Parser) (s : ℕ) (h : s ≤ length p.list_stack) (i : Inv p)
    (fits : weight p < 4294967296) where
  same-Takes : s ≡ length p.list_stack → Takes s p p 0 0
  same-Takes e = record {
    inv = i;
    same = refl;
    curr = refl;
    rest_is = refl;
    weight_is = refl;
    nodes = refl;
    level = sym e;
    count = omega arith;
    children = λ j q. absurd (omega arith);
    fits = omega arith;
    depth = refl;
    loop_depth = refl;
    block_depth = refl;
  }

  flushed-Takes :
      (r : length p.tree.extra_list + length p.list_stack < 4294967296)
      → Takes s p (flushed p s h r) (length p.tree.extra_list) (length p.list_stack - s)
  unfolding weight rest
  flushed-Takes r =
      let size = length-append p.tree.extra_list (drop s p.list_stack) in
      let size' = length-drop s p.list_stack in
      let size'' = length-take-le s p.list_stack h in
      record {
        inv = record {
          valid = i.valid;
          source = i.source;
          curr = i.curr;
          peek = i.peek;
          shape = extras-IsTree p.tree (drop s p.list_stack) i.shape;
          stack = λ j c e. i.stack j c (get_elem?-take s p.list_stack j c e);
        };
        same = refl;
        curr = refl;
        rest_is = refl;
        weight_is = omega (arith, size, size', size'');
        nodes = refl;
        level = size'';
        count = refl;
        children = λ j q.
            let (k, found) = get_elem?-some p.list_stack (s + j) (omega arith) in
            let new : ltb (length p.tree.extra_list + j) (length p.tree.extra_list) ≡ false =
              ground arith in
            let at : (length p.tree.extra_list + j) - length p.tree.extra_list ≡ j = omega arith in
            (
              k,
              rw
                  (
                    get_elem?-append p.tree.extra_list (drop s p.list_stack)
                        (length p.tree.extra_list + j),
                    new,
                    at,
                    get_drop s p.list_stack j,
                  )
                  found,
              i.stack (s + j) k found,
            );
        fits = omega arith;
        depth = refl;
        loop_depth = refl;
        block_depth = refl;
      }

  -- `flushListStack` does so.
  pub flush-Takes : let (q, (e, c)) = flush_list_stack p s in Takes s p q e c
  unfolding weight
  flush-Takes =
      let r : length p.tree.extra_list + length p.list_stack < 4294967296 = omega arith in
      elim (Bool-cases (s == length p.list_stack)) [
        | inl e ↦ rw (flush_none p s h r (ground arith)) (same-Takes (ground arith))
        | inr e ↦ rw (flush_some p s h r (ground arith)) (flushed-Takes r)
      ]

  -- So does what is written out in its place.
  pub append_list-Takes :
      Takes s p
        (record p {
          tree = record p.tree { extra_list = p.tree.extra_list ++ drop s p.list_stack };
          list_stack = take s p.list_stack;
        })
        (u32 (length p.tree.extra_list))
        (u32 (length p.list_stack - s))
  unfolding weight
  append_list-Takes =
      let r : length p.tree.extra_list + length p.list_stack < 4294967296 = omega arith in
      let exact : u32 (length p.list_stack - s) ≡ length p.list_stack - s = omega arith in
      let exact' : u32 (length p.tree.extra_list) ≡ length p.tree.extra_list = omega arith in
      rw (exact, exact') (flushed-Takes r)

-- ===== src/Parser/Stores.antt =====
-- What the steps of Parser.Action that store something do to the invariant of the parser.
use lugo.Base.{
  ℕ, zero, suc, ◌-◌, ◌<◌, ◌≡◌, refl, ◌∙◌, inl, inr, ◌&&◌, List, [], ◌∷◌, ◌++◌, some, length,
  get_elem?, get_elem?-append, length-append, ltb, leb, arith, Bool-cases,
}
use mathlib.Core.Option.{some-injective}
use lugo.Ast.{Node, Tree}
use lugo.Ast.Links.{Added}
use lugo.Ast.Shape.{IsTree}
use lugo.Parser.{ParseError, Parser, error, error_at}
use lugo.Parser.Sound.{Inv, rest, weight, To-refl, Stores}

-- The errors are no part of the invariant.
errors-Stores :
    (p : Parser) (es : List ParseError) → Inv p → Stores 0 0 p (record p { errors = es })
unfolding weight rest
errors-Stores p es i = record {
  to = record {
    inv = record {
      valid = i.valid;
      source = i.source;
      curr = i.curr;
      peek = i.peek;
      shape = i.shape;
      stack = i.stack;
    };
    same = refl;
    less = omega arith;
    ahead = omega arith;
    nodes = omega arith;
    grown = omega arith;
    depth = refl;
    loop_depth = refl;
    block_depth = refl;
  };
  rest_is = refl;
  weight_is = omega arith;
  level = omega arith;
  curr = refl;
}

none-Stores : (p : Parser) → Inv p → Stores 0 0 p p
none-Stores p i = record {
  to = To-refl i;
  rest_is = refl;
  weight_is = omega arith;
  level = omega arith;
  curr = refl;
}

-- An error is stored, or not, and nothing else changes.
pub error-Stores : (p : Parser) (message : List ℕ) → Inv p → Stores 0 0 p (error p message)
unfolding error
error-Stores p message i =
    elim (Bool-cases (ltb 0 p.max_errors && leb p.max_errors (length p.errors))) [
      | inl e ↦ rw e (none-Stores p i)
      | inr e ↦ rw e (errors-Stores p _ i)
    ]

pub error_at-Stores :
    (p : Parser) (start end : ℕ) (message : List ℕ)
    → Inv p
    → Stores 0 0 p (error_at p start end message)
unfolding error_at
error_at-Stores p start end message i =
    elim (Bool-cases (ltb 0 p.max_errors && leb p.max_errors (length p.errors))) [
      | inl e ↦ rw e (none-Stores p i)
      | inr e ↦ rw e (errors-Stores p _ i)
    ]

-- A node is added.
pub tree-Stores :
    (p : Parser) (n : Node) (t : Tree)
    → Inv p
    → IsTree t
    → Added p.tree n (t, length p.tree.nodes)
    → Stores 1 0 p (record p { tree = t })
unfolding weight rest
tree-Stores p n t i shape a =
    let size = a.size in
    let extras : length t.extra_list ≡ length p.tree.extra_list = rw a.same_extras refl in
    record {
      to = record {
        inv = record {
          valid = i.valid;
          source = a.same_source ∙ i.source;
          curr = i.curr;
          peek = i.peek;
          shape = shape;
          stack = λ j c e. let low = i.stack j c e in omega (arith, size);
        };
        same = refl;
        less = omega arith;
        ahead = omega arith;
        nodes = omega (arith, size);
        grown = omega arith;
        depth = refl;
        loop_depth = refl;
        block_depth = refl;
      };
      rest_is = refl;
      weight_is = omega (arith, size, extras);
      level = omega arith;
      curr = refl;
    }

-- A child waits.
pub push-Stores :
    (p : Parser) (id : ℕ)
    → Inv p
    → id < length p.tree.nodes
    → Stores 1 1 p (record p { list_stack = p.list_stack ++ (id ∷ []) })
unfolding weight rest
push-Stores p id i h =
    let size = length-append p.list_stack (id ∷ []) in
    record {
      to = record {
        inv = record {
          valid = i.valid;
          source = i.source;
          curr = i.curr;
          peek = i.peek;
          shape = i.shape;
          stack = λ j c e.
              let e' = rw (get_elem?-append p.list_stack (id ∷ []) j) at e in
              elim (Bool-cases (ltb j (length p.list_stack))) [
                | inl old ↦ i.stack j c (rw old at e')
                | inr new ↦ at_end (j - length p.list_stack) c (rw new at e')
              ];
        };
        same = refl;
        less = omega arith;
        ahead = omega arith;
        nodes = omega arith;
        grown = omega (arith, size);
        depth = refl;
        loop_depth = refl;
        block_depth = refl;
      };
      rest_is = refl;
      weight_is = omega (arith, size);
      level = omega (arith, size);
      curr = refl;
    }
  where
    at_end : (k c : ℕ) → get_elem? (id ∷ []) k ≡ some c → c < length p.tree.nodes
    at_end zero c e = let same = some-injective id c e in omega (arith, h)
    at_end (suc k) c e = cc

-- ===== src/Ast/Renew.antt =====
-- `Reset` of ast/ast.go compared with `NewTree`.
use lugo.Base.{
  ℕ, suc, ◌/◌, ◌≡◌, refl, inl, inr, true, List, ◌∷◌, Bytes, length, ltb, arith, Bool-cases,
}
use lugo.Ast.{Node, Tree, invalid_node, new_tree, reset}

-- The tree of `NewTree` with the root and the encoding of another tree.
abbrev pub renewed : Tree → Bytes → Tree
renewed t source = record (new_tree source) {
  root = t.root;
  position_encoding = t.position_encoding;
}

-- `Reset` of a tree that begins with the reserved node and the line at 0, as all trees of `NewTree`
-- do, makes the tree of `NewTree`, whatever capacity its arrays have, except that the root and the
-- position encoding stay.
pub reset-new_tree :
    (capacity : ℕ) (t : Tree) (source : Bytes) (nodes : List Node) (lines : List ℕ)
    → t.nodes ≡ invalid_node ∷ nodes
    → t.line_offsets ≡ 0 ∷ lines
    → reset capacity t source ≡ renewed t source
unfolding reset new_tree
reset-new_tree capacity t source nodes lines e e' =
    let some_lines : ltb 0 (suc (length lines)) ≡ true = ground arith in
    let some_nodes : ltb 0 (suc (length nodes)) ≡ true = ground arith in
    elim (Bool-cases (ltb capacity (length source / 10))) [
      | inl small ↦ rw (small, e', some_lines) refl
      | inr large ↦ rw (large, e, e', some_lines, some_nodes) refl
    ]

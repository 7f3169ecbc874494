-- ===== src/Ast/Shape.antt =====
-- The shape of the tree that `AddNode` of ast/ast.go builds: every child is below its parent.
use lugo.Base.{
  ℕ, zero, suc, ◌+◌, ◌-◌, ◌≤◌, ◌<◌, ◌≡◌, inl, inr, refl, sym, ◌∙◌, Bool, true, false, List, [], ◌∷◌,
  ◌++◌, max, Option, none, some, Bytes, length, get_elem?, get_elem?-append, ltb, arith, Bool-cases,
}
use mathlib.Core.Path.{subst}
use mathlib.Core.Option.{some-injective}
use lugo.Ast.{Node, Tree, invalid_node, new_tree, add_node}
use lugo.Ast.Parents.{reparent, is_child, IsPlaced}
use lugo.Ast.Links.{Added, add_node_lem}

-- There is a node 0, and the children of every node are 0 or below it.
pub record IsTree (t : Tree) : Type 0 where
  pub nonempty : 0 < length t.nodes
  pub fits : length t.nodes < 4294967296
  pub placed :
      (id : ℕ) (m : Node) → get_elem? t.nodes id ≡ some m → IsPlaced t.extra_list (max 1 id) m

-- The place of a node does not depend on its parent, and a greater bound is met too.
IsPlaced-parent :
    (extras : List ℕ) (b b' parent : ℕ) (m : Node)
    → b ≤ b'
    → IsPlaced extras b m
    → IsPlaced extras b' (record m { parent = parent })
IsPlaced-parent extras b b' parent m h p = record {
  left_below = omega (arith, p.left_below);
  right_below = omega (arith, p.right_below);
  third_below = λ e. let q = p.third_below e in omega arith;
  extras_below = λ i q. let (c, found, below) = p.extras_below i q in (c, found, omega arith);
  fits = p.fits;
}

IsPlaced-reparent :
    (extras : List ℕ) (b id : ℕ) (p : Bool) (o : Option Node) (m : Node)
    → reparent p id o ≡ some m
    → ((m' : Node) → o ≡ some m' → IsPlaced extras b m')
    → IsPlaced extras b m
IsPlaced-reparent extras b id p none m e h = cc
IsPlaced-reparent extras b id true (some m') m e h =
    subst (IsPlaced extras b) (some-injective _ _ e)
      (IsPlaced-parent extras b b id m' (omega arith) (h m' refl))
IsPlaced-reparent extras b id false (some m') m e h =
    subst (IsPlaced extras b) (some-injective _ _ e) (h m' refl)

-- A new tree has that shape.
pub new_tree-IsTree : (source : Bytes) → IsTree (new_tree source)
unfolding new_tree
new_tree-IsTree source = record { nonempty = omega arith; fits = omega arith; placed = placed }
  where
    placed :
        (id : ℕ) (m : Node) → get_elem? (invalid_node ∷ []) id ≡ some m → IsPlaced [] (max 1 id) m
    placed zero m e = subst (IsPlaced [] 1) (some-injective _ _ e) (record {
      left_below = omega arith;
      right_below = omega arith;
      third_below = λ h. omega arith;
      extras_below = λ i h. absurd (omega arith);
      fits = omega arith;
    })
    placed (suc id) m e = cc

IsPlaced-append :
    (t : Tree) (n : Node) (id : ℕ) (m : Node)
    → IsTree t
    → IsPlaced t.extra_list (length t.nodes) n
    → get_elem? (t.nodes ++ (record n { parent = 0 } ∷ [])) id ≡ some m
    → IsPlaced t.extra_list (max 1 id) m
IsPlaced-append t n id m shape p e =
    let e' = rw (get_elem?-append t.nodes (record n { parent = 0 } ∷ []) id) at e in
    elim (Bool-cases (ltb id (length t.nodes))) [
      | inl old ↦ shape.placed id m (rw old at e')
      | inr new ↦ at_end (ground arith) (id - length t.nodes) (rw new at e')
    ]
  where
    at_end :
        length t.nodes ≤ id
        → (k : ℕ) → get_elem? (record n { parent = 0 } ∷ []) k ≡ some m
        → IsPlaced t.extra_list (max 1 id) m
    at_end h zero f =
        subst (IsPlaced t.extra_list (max 1 id)) (some-injective _ _ f)
          (IsPlaced-parent t.extra_list (length t.nodes) (max 1 id) 0 n (omega arith) p)
    at_end h (suc k) f = cc

-- In a tree whose children are below their parents, with room for one more node below 2 ^ 32,
-- `AddNode` of a node whose children are in the tree does not panic, adds it at the end, makes it
-- the parent of exactly its children and keeps the shape.
pub add_node-IsTree :
    (t : Tree) (n : Node)
    → IsTree t
    → length t.nodes + 1 < 4294967296
    → IsPlaced t.extra_list (length t.nodes) n
    → (r : Tree × ℕ) × (add_node t n ≡ some r) × Added t n r × IsTree r.0
add_node-IsTree t n shape fits p =
    let (r, done, a) = add_node_lem t n shape.fits p in
    (
      r,
      done,
      a,
      record {
        nonempty = omega (arith, a.size);
        fits = omega (arith, a.size);
        placed = λ id m e. rw a.same_extras (
            IsPlaced-reparent t.extra_list (max 1 id) (length t.nodes) (is_child t.extra_list n id)
              _ m (sym (a.linked id) ∙ e) (λ m' e'. IsPlaced-append t n id m' shape p e'));
      },
    )

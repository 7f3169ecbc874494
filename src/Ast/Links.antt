-- ===== src/Ast/Links.antt =====
-- What `AddNode` of ast/ast.go returns.
use lugo.Base.{
  ℕ, ◌+◌, ◌<◌, ◌≡◌, refl, List, [], ◌∷◌, ◌++◌, some, length, get_elem?, length-append,
  if◌then◌else◌, u32, arith,
}
use lugo.Ast.Kinds.{NodeKind}
use lugo.Ast.{Node, Tree, is_kind, link, link_extras, add_node}
use lugo.Ast.Parents.{
  reparent, is_child, IsPlaced, Relinked-trans, link_lem, third_lem, link_extras_lem,
}

-- What `AddNode` returns for a node whose children are in the tree: the index is the old number of
-- nodes, the new node is the last, its children have it for their parent, no other node changes,
-- and neither do the other parts of the tree.
pub record Added (t : Tree) (n : Node) (r : Tree × ℕ) : Type 0 where
  pub index : r.1 ≡ length t.nodes
  pub size : length r.0.nodes ≡ length t.nodes + 1
  pub linked :
      (j : ℕ)
      → get_elem? r.0.nodes j
        ≡ reparent
            (is_child t.extra_list n j)
            (length t.nodes)
            (get_elem? (t.nodes ++ (record n { parent = 0 } ∷ [])) j)
  pub same_extras : r.0.extra_list ≡ t.extra_list
  pub same_source : r.0.source ≡ t.source

add_node_steps :
    (t : Tree) (n : Node) (first second third last : List Node)
    → length t.nodes < 4294967296
    → let id = length t.nodes in
      link id n.left (t.nodes ++ (record n { parent = 0 } ∷ [])) ≡ some first
      → link id n.right first ≡ some second
      → (if is_kind n.kind NodeKind.for_in then link id n.extra second else some second)
        ≡ some third
      → link_extras t.extra_list id n.extra n.count 0 third ≡ some last
      → add_node t n ≡ some (record t { nodes = last }, id)
unfolding add_node
add_node_steps t n first second third last fits d1 d2 d3 d4 =
    let exact : u32 (length t.nodes) ≡ length t.nodes = omega arith in rw (exact, d1, d2, d3, d4)

pub add_node_lem :
    (t : Tree) (n : Node)
    → length t.nodes < 4294967296
    → IsPlaced t.extra_list (length t.nodes) n
    → (r : Tree × ℕ) × (add_node t n ≡ some r) × Added t n r
add_node_lem t n fits p =
    let id = length t.nodes in
    let start = t.nodes ++ (record n { parent = 0 } ∷ []) in
    let room = length-append t.nodes (record n { parent = 0 } ∷ []) in
    let (first, done1, r1) = link_lem id n.left start (omega (arith, room, p.left_below)) in
    let (second, done2, r2) =
      link_lem id n.right first (omega (arith, room, r1.size, p.right_below)) in
    let (third, done3, r3) =
      third_lem id n second
        (λ e. let q = p.third_below e in omega (arith, room, r1.size, r2.size)) in
    let (last, done4, r4) =
      link_extras_lem t.extra_list id n.extra id n.count 0 third
        (λ m _ q. p.extras_below m (omega arith)) (omega (arith, p.fits))
        (omega (arith, room, r1.size, r2.size, r3.size)) in
    let all = Relinked-trans r1 (Relinked-trans r2 (Relinked-trans r3 r4)) in
    (
      (record t { nodes = last }, id),
      add_node_steps t n first second third last fits done1 done2 done3 done4,
      record {
        index = refl;
        size = omega (arith, all.size, room);
        linked = λ j. all.at j;
        same_extras = refl;
        same_source = refl;
      },
    )

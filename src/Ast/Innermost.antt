-- ===== src/Ast/Innermost.antt =====
-- Which node `NodeAt` of ast/ast.go returns.
use lugo.Base.{
  ℕ, zero, suc, ◌≤◌, ◌<◌, ◌≡◌, ◌≢◌, ◌⊎◌, inl, inr, refl, ap, ◌∙◌, true, false, max, some, length,
  get_elem?, get_elem?-some, get_elem?-lt, ltb, leb, ◌||◌, arith, Bool-cases, ==_iff, ◌==◌,
}
use lugo.Ast.{Node, Tree}
use lugo.Ast.Parents.{is_child}
use lugo.Ast.Shape.{IsTree}
use lugo.Ast.Find.{holds, next_child, descend, node_at}
use lugo.Ast.Reached.{Holds, Misses}
use lugo.Ast.Descend.{NoChild, next_child-Found}

-- The way from a node down to another over children that hold the offset.
pub data Leads (t : Tree) (offset : ℕ) : ℕ → ℕ → Type 0 where
  here : (id : ℕ) → Leads t offset id id
  down :
      (id c last : ℕ) (m : Node)
      → get_elem? t.nodes id ≡ some m
      → is_child t.extra_list m c ≡ true
      → Holds t.nodes offset c
      → Leads t offset c last
      → Leads t offset id last

-- `last` is a node on such a way from `id`, and no child of it holds the offset.
pub record IsInnermost (t : Tree) (offset id last : ℕ) : Type 0 where
  pub way : Leads t offset id last
  pub node : Node
  pub at : get_elem? t.nodes last ≡ some node
  pub holding : holds offset node ≡ true
  pub no_child : NoChild t offset node

module _ (t : Tree) (offset : ℕ) (shape : IsTree t) where
  descend_stop :
      (f id : ℕ) (m : Node)
      → id < length t.nodes
      → get_elem? t.nodes id ≡ some m
      → next_child t offset m ≡ some 0
      → descend (suc f) t offset id ≡ some (some id)
  unfolding descend
  descend_stop f id m h at stop =
      let test : leb (length t.nodes) id ≡ false = ground arith in rw (test, at, stop) refl

  descend_step :
      (f id c last : ℕ) (m : Node)
      → id < length t.nodes
      → get_elem? t.nodes id ≡ some m
      → next_child t offset m ≡ some c
      → c ≢ 0
      → descend f t offset c ≡ some (some last)
      → descend (suc f) t offset id ≡ some (some last)
  unfolding descend
  descend_step f id c last m h at go ne rest =
      let test : leb (length t.nodes) id ≡ false = ground arith in
      let found : (c == 0) ≡ false = ground arith in rw (test, at, go, found) rest

  descend_lem :
      (f id : ℕ)
      → id < f
      → id ≢ 0
      → Holds t.nodes offset id
      → (last : ℕ) × (descend f t offset id ≡ some (some last)) × IsInnermost t offset id last
  descend_lem zero id h ne held = absurd (omega arith)
  descend_lem (suc f) id h ne (m, at, inside) =
      let size = get_elem?-lt t.nodes id at in
      let x =
        next_child-Found t offset (max 1 id) m (omega arith) (omega arith) (shape.placed id m at) in
      elim (Bool-cases (x.r == 0)) [
        | inl e ↦
            let stop : x.r ≡ 0 = (==_iff x.r 0).0 e in
            (
              id,
              descend_stop f id m size at (x.done ∙ ap some stop),
              record {
                way = Leads.here id;
                node = m;
                at = at;
                holding = inside;
                no_child = x.missed stop;
              },
            )
        | inr e ↦
            let go : x.r ≢ 0 = ground arith in
            let (smaller, child) = x.below in
            let (last, done, i) = descend_lem f x.r (omega arith) go (x.found go) in
            (
              last,
              descend_step f id x.r last m size at x.done go done,
              record {
                way = Leads.down id x.r last m at (child go) (x.found go) i.way;
                node = i.node;
                at = i.at;
                holding = i.holding;
                no_child = i.no_child;
              },
            )
      ]

-- The root is no node, or does not hold the offset.
abbrev pub RootMisses : Tree → ℕ → Type 0
RootMisses t offset = (length t.nodes ≤ t.root) ⊎ Misses t.nodes offset t.root

root_outside : (t : Tree) (offset : ℕ) → length t.nodes ≤ t.root → node_at t offset ≡ some (some 0)
unfolding node_at
root_outside t offset h =
    let test : leb (length t.nodes) t.root ≡ true = ground arith in rw test refl

root_misses :
    (t : Tree) (offset : ℕ) (m : Node)
    → t.root < length t.nodes
    → get_elem? t.nodes t.root ≡ some m
    → (t.root == 0 || ltb offset m.start || ltb m.end offset) ≡ true
    → node_at t offset ≡ some (some 0)
unfolding node_at
root_misses t offset m h at e =
    let test : leb (length t.nodes) t.root ≡ false = ground arith in rw (test, at, e) refl

root-Misses :
    (t : Tree) (offset : ℕ) (m : Node)
    → get_elem? t.nodes t.root ≡ some m
    → (t.root == 0 || ltb offset m.start || ltb m.end offset) ≡ true
    → Misses t.nodes offset t.root
root-Misses t offset m at e = elim (Bool-cases (t.root == 0)) [
  | inl z ↦ inl (ground arith)
  | inr z ↦ inr (m, at, ground arith)
]

root_holds :
    (t : Tree) (offset last : ℕ) (m : Node)
    → t.root < length t.nodes
    → get_elem? t.nodes t.root ≡ some m
    → (t.root == 0 || ltb offset m.start || ltb m.end offset) ≡ false
    → descend (length t.nodes) t offset t.root ≡ some (some last)
    → node_at t offset ≡ some (some last)
unfolding node_at
root_holds t offset last m h at e done =
    let test : leb (length t.nodes) t.root ≡ false = ground arith in rw (test, at, e) done

-- In a tree whose children are below their parents, `NodeAt` comes to an end without a panic. It
-- returns 0 if the root is no node or does not hold the offset; otherwise it returns a node that
-- is reached from the root over children that all hold the offset, and that has no child that
-- holds it, where the children of a block or file count if they stand in order.
pub node_at_lem :
    (t : Tree) (offset : ℕ)
    → IsTree t
    → (id : ℕ) × (node_at t offset ≡ some (some id))
      × ((RootMisses t offset × (id ≡ 0)) ⊎ IsInnermost t offset t.root id)
node_at_lem t offset shape = elim (Bool-cases (ltb t.root (length t.nodes))) [
  | inr e ↦
      let outside : length t.nodes ≤ t.root = ground arith in
      (0, root_outside t offset outside, inl (inl outside, refl))
  | inl e ↦
      let inside : t.root < length t.nodes = ground arith in
      let (m, at) = get_elem?-some t.nodes t.root inside in
      elim (Bool-cases (t.root == 0 || ltb offset m.start || ltb m.end offset)) [
        | inl miss ↦ (
          0,
          root_misses t offset m inside at miss,
          inl (inr (root-Misses t offset m at miss), refl),
        )
        | inr hit ↦
            let (last, done, i) =
              descend_lem t offset shape (length t.nodes) t.root inside (ground arith)
                (m, at, ground arith) in
            (last, root_holds t offset last m inside at hit done, inr i)
      ]
]

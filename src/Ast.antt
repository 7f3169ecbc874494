-- ===== src/Ast.antt =====
-- ast/ast.go: nodes in a flat array, the tree that holds them, `AddNode` and `IndexOfExtra`;
-- `NodeAt` is in Find.antt. A node is named by its index; index 0 is no node. An index out of range
-- is a run-time panic, which is `none` here.
pub mod Kinds
pub mod Hash
pub mod Lines
pub mod Parents
pub mod Links
pub mod Shape
pub mod Find
pub mod Reached
pub mod Sorted
pub mod Descend
pub mod Innermost
pub mod Index
pub mod Renew
pub mod Position
pub mod Offset
pub mod Runes
pub mod RoundTrip
pub mod LineOf
pub mod LineOrder
mod Tests
mod OffsetTests
use lugo.Base.{
  ℕ, zero, suc, ◌+◌, ◌-◌, ◌/◌, ◌≤◌, ◌≡◌, Bool, true, false, not, ◌&&◌, ◌||◌, List, [], ◌∷◌, ◌++◌,
  Option, none, some, ◌>>=◌, Bytes, length, get_elem?, take, modify_at, equal, ltb, leb, ◌==◌,
  if◌then◌else◌, u32,
}
use lugo.Token.{Token}
use lugo.Lexer.Readers.{codes}
use lugo.Ast.Kinds.{NodeKind, node_kind_code}
use lugo.Ast.Lines.{compute_line_offsets}

-- `start` and `end` are byte offsets; `extra` and `count` name a piece of the tree's extra list.
pub record Node : Type 0 where
  pub kind : NodeKind
  pub start : ℕ
  pub end : ℕ
  pub parent : ℕ
  pub left : ℕ
  pub right : ℕ
  pub extra : ℕ
  pub count : ℕ
  pub flags : ℕ

pub record Tree : Type 0 where
  pub source : Bytes
  pub root : ℕ
  pub position_encoding : Bytes
  pub nodes : List Node
  pub comments : List Token
  pub extra_list : List ℕ
  pub line_offsets : List ℕ

abbrev pub invalid_node : Node
invalid_node = record {
  kind = NodeKind.invalid;
  start = 0xFFFFFFFF;
  end = 0xFFFFFFFF;
  parent = 0;
  left = 0;
  right = 0;
  extra = 0;
  count = 0;
  flags = 0;
}

abbrev pub is_kind : NodeKind → NodeKind → Bool
is_kind k j = node_kind_code k == node_kind_code j

unfoldable pub new_tree : Bytes → Tree
new_tree source = record {
  source = source;
  root = 0;
  position_encoding = codes "utf-16";
  nodes = invalid_node ∷ [];
  comments = [];
  extra_list = [];
  line_offsets = compute_line_offsets source (0 ∷ []);
}

unfoldable pub set_position_encoding : Tree → Bytes → Tree
set_position_encoding t encoding =
    if equal encoding (codes "utf-8")
      || equal encoding (codes "utf-16")
      || equal encoding (codes "utf-32")
    then record t { position_encoding = encoding }
    else record t { position_encoding = codes "utf-16" }

-- `Reset`, where `capacity` is the capacity of the array behind `t.Nodes`. The root and the
-- encoding stay.
unfoldable pub reset : ℕ → Tree → Bytes → Tree
reset capacity t source =
    let lines = if ltb 0 (length t.line_offsets) then take 1 t.line_offsets else t.line_offsets in
    let cleared : Tree =
      if ltb capacity (length source / 10)
      then record t { nodes = invalid_node ∷ []; extra_list = [] }
      else if ltb 0 (length t.nodes)
      then record t { nodes = take 1 t.nodes; extra_list = [] }
      else t in
    record cleared {
      source = source;
      comments = [];
      line_offsets = compute_line_offsets source lines;
    }

-- `if c != InvalidNode { t.Nodes[c].Parent = id }`
unfoldable pub link : ℕ → ℕ → List Node → Option (List Node)
link id c nodes =
    if c == 0 then some nodes else modify_at c (λ (m : Node). record m { parent = id }) nodes

-- The loop over the extra children: `k` rounds from `i` on.
unfoldable pub link_extras : List ℕ → ℕ → ℕ → ℕ → ℕ → List Node → Option (List Node)
unfolding link
link_extras extras id extra zero i nodes = some nodes
link_extras extras id extra (suc k) i nodes = do
  c ← get_elem? extras (u32 (extra + i))
  linked ← link id c nodes
  link_extras extras id extra k (i + 1) linked

unfoldable pub add_node : Tree → Node → Option (Tree × ℕ)
add_node t n = do
  let id = u32 (length t.nodes)
  first ← link id n.left (t.nodes ++ (record n { parent = 0 } ∷ []))
  second ← link id n.right first
  third ← if is_kind n.kind NodeKind.for_in then link id n.extra second else some second
  last ← link_extras t.extra_list id n.extra n.count 0 third
  some (record t { nodes = last }, id)

-- The loop of `IndexOfExtra`: `k` rounds from `i` on. Inside, `none` is -1; outside, a panic.
unfoldable pub index_loop : List ℕ → ℕ → ℕ → ℕ → ℕ → Option (Option ℕ)
index_loop extras target extra zero i = some none
index_loop extras target extra (suc k) i = do
  c ← get_elem? extras (u32 (extra + i))
  let rest = index_loop extras target extra k (i + 1)
  if c == target then some (some i) else rest

unfoldable pub index_of_extra : Tree → ℕ → ℕ → Option (Option ℕ)
index_of_extra t list_node target =
    if list_node == 0 || leb (length t.nodes) list_node then some none else do
      node ← get_elem? t.nodes list_node
      index_loop t.extra_list target node.extra node.count 0

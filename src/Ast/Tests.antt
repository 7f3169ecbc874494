-- ===== src/Ast/Tests.antt =====
-- Small trees and sources of ast/ast.go, and the theorems about them.
use lugo.Base.{equal, ◌≤◌, min, u32, length, slice}
use lugo.Base.{
  ℕ, zero, suc, ◌+◌, ◌<◌, ◌≡◌, ◌⊎◌, refl, false, max, [], ◌∷◌, ◌++◌, Option, some, get_elem?, arith,
}
use mathlib.Core.Path.{subst}
use mathlib.Core.Option.{some-injective}
use lugo.Lexer.Readers.{codes, index_byte}
use lugo.Ast.Kinds.{NodeKind, node_kind_code}
use lugo.Ast.Hash.{hash_bytes, hash_bytes_concat, hash_bytes_concat-eq-hash_bytes}
use lugo.Ast.Lines.{line_loop, line_starts, compute_line_offsets, compute_line_offsets_lem}
use lugo.Ast.{Node, Tree, invalid_node, is_kind, new_tree, add_node, index_of_extra, reset}
use lugo.Ast.Parents.{IsPlaced}
use lugo.Ast.Links.{Added}
use lugo.Ast.Shape.{IsTree, new_tree-IsTree, add_node-IsTree}
use lugo.Ast.Find.{check, check_extras, search_extras, next_child, descend, node_at}
use lugo.Ast.Position.{decode_rune, search_line, has_non_ascii, column_loop, column, position}
use lugo.Ast.LineOf.{After, column-column_loop, position_lem}
use lugo.Ast.LineOrder.{new_tree-Rising}
use lugo.Ast.Renew.{renewed, reset-new_tree}
use lugo.Ast.Index.{IsFirst, index_of_extra_lem}
use lugo.Ast.Innermost.{RootMisses, IsInnermost, node_at_lem}

compute_line_offsets_example :
    compute_line_offsets (codes "a\n\nb") (0 ∷ []) ≡ (0 ∷ []) ++ line_starts 0 (codes "a\n\nb")
compute_line_offsets_example = compute_line_offsets_lem (codes "a\n\nb") (omega arith) (0 ∷ [])

-- The hash of "a" that FNV-1a gives.
hash_a : hash_bytes (codes "a") ≡ 0xaf63dc4c8601ec8c
unfolding hash_bytes
hash_a = refl

hash_bytes_concat_example :
    hash_bytes_concat (codes "a") (codes ".") (codes "b")
    ≡ hash_bytes (codes "a" ++ (codes "." ++ codes "b"))
hash_bytes_concat_example = hash_bytes_concat-eq-hash_bytes (codes "a") (codes ".") (codes "b")

abbrev leaf : Node
leaf = record invalid_node { kind = NodeKind.ident; start = 0; end = 1 }

abbrev small : Tree
small = new_tree (codes "x")

add_node-IsTree_example :
    (r : Tree × ℕ) × (add_node small leaf ≡ some r) × Added small leaf r × IsTree r.0
unfolding new_tree node_kind_code
add_node-IsTree_example =
    add_node-IsTree small leaf (new_tree-IsTree (codes "x")) (omega arith) (record {
      left_below = omega arith;
      right_below = omega arith;
      third_below = λ e. omega arith;
      extras_below = λ i h. absurd (omega arith);
      fits = omega arith;
    })

-- A file with one statement.
abbrev top : Node
top = record invalid_node { kind = NodeKind.file; start = 0; end = 3; extra = 0; count = 1 }

abbrev file : Tree
file = record small { root = 2; nodes = invalid_node ∷ leaf ∷ top ∷ []; extra_list = 1 ∷ [] }

no_children :
    (b : ℕ) (n : Node)
    → 0 < b
    → n.left ≡ 0
    → n.right ≡ 0
    → is_kind n.kind NodeKind.for_in ≡ false
    → n.count ≡ 0
    → n.extra ≡ 0
    → IsPlaced (1 ∷ []) b n
no_children b n h l r k c x = record {
  left_below = omega (arith, l);
  right_below = omega (arith, r);
  third_below = λ e. cc;
  extras_below = λ i q. absurd (omega (arith, c));
  fits = omega (arith, c, x);
}

top-IsPlaced : IsPlaced (1 ∷ []) 2 top
unfolding node_kind_code
top-IsPlaced = record {
  left_below = omega arith;
  right_below = omega arith;
  third_below = λ e. cc;
  extras_below = extra_child;
  fits = omega arith;
}
  where
    extra_child : (i : ℕ) → i < 1 → (c : ℕ) × (get_elem? (1 ∷ []) (0 + i) ≡ some c) × (c < 2)
    extra_child zero h = (1, refl, omega arith)
    extra_child (suc i) h = absurd (omega arith)

file-IsTree : IsTree file
unfolding node_kind_code
file-IsTree = record { nonempty = omega arith; fits = omega arith; placed = placed }
  where
    placed :
        (id : ℕ) (m : Node)
        → get_elem? (invalid_node ∷ leaf ∷ top ∷ []) id ≡ some m
        → IsPlaced (1 ∷ []) (max 1 id) m
    placed zero m e =
        subst (IsPlaced (1 ∷ []) 1) (some-injective _ _ e)
          (no_children 1 invalid_node (omega arith) refl refl refl refl refl)
    placed (suc zero) m e =
        subst (IsPlaced (1 ∷ []) 1) (some-injective _ _ e)
          (no_children 1 leaf (omega arith) refl refl refl refl refl)
    placed (suc (suc zero)) m e = subst (IsPlaced (1 ∷ []) 2) (some-injective _ _ e) top-IsPlaced
    placed (suc (suc (suc id))) m e = cc

-- The statement is found at the offsets from 0 to 1, the file at 2 and 3, and nothing at 4.
node_at_runs :
    (node_at file 1 ≡ some (some 1))
    × (node_at file 3 ≡ some (some 2))
    × (node_at file 4 ≡ some (some 0))
unfolding new_tree node_kind_code node_at descend next_child search_extras check check_extras
node_at_runs = (refl, refl, refl)

node_at_lem_example :
    (id : ℕ) × (node_at file 1 ≡ some (some id))
    × ((RootMisses file 1 × (id ≡ 0)) ⊎ IsInnermost file 1 2 id)
node_at_lem_example = node_at_lem file 1 file-IsTree

index_of_extra_lem_example :
    (r : Option ℕ) × (index_of_extra file 2 1 ≡ some r) × IsFirst (1 ∷ []) 1 0 0 1 r
index_of_extra_lem_example = index_of_extra_lem file 2 1 top file-IsTree (omega arith) refl

reset-new_tree_example : reset 3 file (codes "a\nb") ≡ renewed file (codes "a\nb")
unfolding new_tree compute_line_offsets line_loop index_byte
reset-new_tree_example = reset-new_tree 3 file (codes "a\nb") (leaf ∷ top ∷ []) [] refl refl

-- Two lines, the second with a rune of three bytes and one of four.
abbrev two_lines : Tree
two_lines = new_tree (b'a' ∷ b'\n' ∷ 0xE2 ∷ 0x82 ∷ 0xAC ∷ 0xF0 ∷ 0x9F ∷ 0x98 ∷ 0x80 ∷ b'b' ∷ [])

position_runs : (position two_lines 1 ≡ some (0, 1)) × (position two_lines 9 ≡ some (1, 3))
unfolding new_tree compute_line_offsets line_loop index_byte position search_line column
    has_non_ascii column_loop decode_rune equal
position_runs = (refl, refl)

position_lem_example :
    let t = new_tree (codes "ab\nc") in
    (line : ℕ) × (start : ℕ) × (get_elem? t.line_offsets line ≡ some start)
    × (start ≤ 4)
    × After t.line_offsets 4 (line + 1)
    × (let safe = min 4 (u32 (length t.source)) in
        position t 4
        ≡ some (line, column t.position_encoding (slice (min start safe) safe t.source)))
position_lem_example =
    position_lem (new_tree (codes "ab\nc")) 4 (line_starts 0 (codes "ab\nc"))
      (new_tree-Rising (codes "ab\nc") (omega arith)).0
      (new_tree-Rising (codes "ab\nc") (omega arith)).1
      (new_tree-Rising (codes "ab\nc") (omega arith)).2

column-column_loop_example :
    column (codes "utf-16") (codes "abc") ≡ column_loop 3 (codes "utf-16") (codes "abc") 0
unfolding equal
column-column_loop_example = column-column_loop (codes "utf-16") (codes "abc") refl (omega arith)

-- ===== src/Ast/OffsetTests.antt =====
-- `Offset` and `Position` of ast/ast.go on a small source with runes of several bytes.
use lugo.Base.{
  ℕ, zero, suc, ◌+◌, ◌≡◌, inl, inr, refl, [], ◌∷◌, some, Bytes, equal, get_elem?, drop, slice,
  arith,
}
use mathlib.Core.Path.{subst}
use mathlib.Core.Option.{some-injective}
use lugo.Lexer.Readers.{index_byte}
use lugo.Ast.{Tree, new_tree}
use lugo.Ast.Lines.{line_loop, line_starts, compute_line_offsets}
use lugo.Ast.LineOf.{After}
use lugo.Ast.LineOrder.{new_tree-Rising}
use lugo.Ast.Position.{decode_rune, position}
use lugo.Ast.Offset.{rune_width, offset_loop, line_offset, offset}
use lugo.Ast.Runes.{Runes}
use lugo.Ast.RoundTrip.{offset-position}

-- Two lines, the second with a rune of three bytes and one of four.
abbrev text : Bytes
text = b'a' ∷ b'\n' ∷ 0xE2 ∷ 0x82 ∷ 0xAC ∷ 0xF0 ∷ 0x9F ∷ 0x98 ∷ 0x80 ∷ b'b' ∷ []

abbrev tree : Tree
tree = new_tree text

-- The end of the second rune, a column inside of it, one behind the line, and a missing line.
offset_runs :
    (offset tree 1 3 ≡ some 9)
    × (offset tree 1 2 ≡ some 9)
    × (offset tree 0 7 ≡ some 1)
    × (offset tree 2 0 ≡ some 10)
unfolding new_tree compute_line_offsets line_loop index_byte offset line_offset offset_loop
    rune_width decode_rune equal
offset_runs = (refl, refl, refl, refl)

tree_lines : tree.line_offsets ≡ 0 ∷ 2 ∷ []
unfolding new_tree compute_line_offsets line_loop index_byte
tree_lines = refl

tree_source : tree.source ≡ text
unfolding new_tree
tree_source = refl

second_line : Runes (b'b' ∷ []) (0xE2 ∷ 0x82 ∷ 0xAC ∷ 0xF0 ∷ 0x9F ∷ 0x98 ∷ 0x80 ∷ [])
unfolding decode_rune
second_line =
    Runes.rune 0xE2 (0x82 ∷ 0xAC ∷ 0xF0 ∷ 0x9F ∷ 0x98 ∷ 0x80 ∷ []) 0x20AC 3 (omega arith) refl refl
      (omega arith) (omega arith)
      (Runes.rune 0xF0 (0x9F ∷ 0x98 ∷ 0x80 ∷ []) 0x1F600 4 (omega arith) refl refl (omega arith)
        (omega arith) Runes.nothing)

line-Runes :
    (line start : ℕ)
    → get_elem? (0 ∷ 2 ∷ []) line ≡ some start
    → After (0 ∷ 2 ∷ []) 9 (line + 1)
    → Runes (drop 9 text) (slice start 9 text)
line-Runes zero start at after = absurd (omega (arith, after 1 2 (omega arith) refl))
line-Runes (suc zero) start at after =
    subst (λ s. Runes (drop 9 text) (slice s 9 text)) (some-injective _ _ at) second_line
line-Runes (suc (suc line)) start at after = cc

offset-position_example :
    (line : ℕ) × (col : ℕ) × (position tree 9 ≡ some (line, col)) × (offset tree line col ≡ some 9)
unfolding new_tree
offset-position_example =
    offset-position tree 9 (omega arith) (omega arith) (inr (inl refl)) (line_starts 0 text)
      (new_tree-Rising text (omega arith)).0 (new_tree-Rising text (omega arith)).1
      (new_tree-Rising text (omega arith)).2
      (λ line start at below after.
        line-Runes line start (rw tree_lines at at) (rw tree_lines at after))

-- ===== src/Ast/Offset.antt =====
-- `Offset` of ast/ast.go: from a line and a column to a byte offset. `none` is a run-time panic.
use lugo.Base.{
  ℕ, zero, suc, ◌+◌, ◌∷◌, [], Option, none, some, ◌>>=◌, Bytes, length, get_elem?, drop, equal, ltb,
  leb, ◌==◌, if◌then◌else◌, u32,
}
use lugo.Lexer.Readers.{codes}
use lugo.Ast.{Tree}
use lugo.Ast.Position.{decode_rune}

-- The columns that a rune of `size` bytes takes.
unfoldable pub rune_width : Bytes → ℕ → ℕ → ℕ
rune_width encoding r size =
    if equal encoding (codes "utf-8")
    then size
    else if equal encoding (codes "utf-32")
    then 1
    else if equal encoding (codes "utf-16")
    then (if ltb 0xFFFF r then 2 else 1)
    else 1

-- The loop over the runes of the line: the bytes that are passed until `col` is reached. Each round
-- takes a byte at least, so the number of bytes is enough fuel.
unfoldable pub offset_loop : ℕ → Bytes → Bytes → ℕ → ℕ → ℕ
offset_loop zero encoding cs col current = 0
offset_loop (suc f) encoding [] col current = 0
offset_loop (suc f) encoding (c ∷ cs) col current =
    let (r, size) = decode_rune (c ∷ cs) in
    let one_byte = 1 + offset_loop f encoding cs col (u32 (current + 1)) in
    let rune =
      size
      + offset_loop f encoding (drop size (c ∷ cs)) col
          (u32 (current + rune_width encoding r size)) in
    if ltb current col then (if c == b'\n' then 0 else if ltb c 0x80 then one_byte else rune) else 0

-- The end of the source, where the line ends behind it.
abbrev clamp : ℕ → ℕ → ℕ
clamp offset size = if ltb size offset then size else offset

unfoldable pub line_offset : Tree → ℕ → ℕ → Option ℕ
line_offset t start col =
    let cs = drop start t.source in
    let i = offset_loop (length cs) t.position_encoding cs col 0 in
    if leb start (length t.source)
    then some (clamp (u32 (start + u32 i)) (u32 (length t.source)))
    else none

unfoldable pub offset : Tree → ℕ → ℕ → Option ℕ
offset t line col =
    let found = (do start ← get_elem? t.line_offsets line; line_offset t start col) in
    if ltb line (length t.line_offsets) then found else some (u32 (length t.source))

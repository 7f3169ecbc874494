-- ===== src/Ast/Position.antt =====
-- `Position` of ast/ast.go: from a byte offset to a line and a column. `utf8.DecodeRune` of Go's
-- library is written out. `none` is a run-time panic.
use lugo.Base.{
  ℕ, zero, suc, ◌+◌, ◌*◌, ◌/◌, ◌%◌, min, Bool, false, not, ◌&&◌, ◌||◌, List, [], ◌∷◌, Option, none,
  some, ◌>>=◌, Bytes, length, get_elem?, drop, slice, equal, ltb, leb, within, ◌==◌, if◌then◌else◌,
  u32,
}
use lugo.Lexer.Readers.{codes}
use lugo.Ast.{Tree}

abbrev is_continuation : ℕ → Bool
is_continuation = within 0x80 0xBF

-- `utf8.RuneError` with a width of one byte.
abbrev invalid_rune : ℕ × ℕ
invalid_rune = (0xFFFD, 1)

-- The bounds of the second byte behind a first byte.
abbrev second_fits : ℕ → ℕ → Bool
second_fits c d =
    if c == 0xE0
    then within 0xA0 0xBF d
    else if c == 0xED
    then within 0x80 0x9F d
    else if c == 0xF0
    then within 0x90 0xBF d
    else if c == 0xF4
    then within 0x80 0x8F d
    else is_continuation d

-- `utf8.DecodeRune`: the rune and its width.
unfoldable pub decode_rune : Bytes → ℕ × ℕ
decode_rune [] = (0xFFFD, 0)
decode_rune (c ∷ cs) =
    let d = elim cs as (λ _. ℕ) [ [] ↦ 0 | x ∷ _ ↦ x ] in
    let e = elim (drop 1 cs) as (λ _. ℕ) [ [] ↦ 0 | x ∷ _ ↦ x ] in
    let f = elim (drop 2 cs) as (λ _. ℕ) [ [] ↦ 0 | x ∷ _ ↦ x ] in
    if ltb c 0x80
    then (c, 1)
    else if within 0xC2 0xDF c && is_continuation d
    then (c % 32 * 64 + d % 64, 2)
    else if within 0xE0 0xEF c && second_fits c d && is_continuation e
    then ((c % 16 * 64 + d % 64) * 64 + e % 64, 3)
    else if within 0xF0 0xF4 c && second_fits c d && is_continuation e && is_continuation f
    then (((c % 8 * 64 + d % 64) * 64 + e % 64) * 64 + f % 64, 4)
    else invalid_rune

-- The binary search for the first line that begins behind the offset, on fuel.
unfoldable pub search_line : ℕ → List ℕ → ℕ → ℕ → ℕ → Option ℕ
search_line zero lines offset low high = some low
search_line (suc f) lines offset low high =
    let mid = (low + high) / 2 in
    let right = search_line f lines offset (mid + 1) high in
    let left = search_line f lines offset low mid in
    let round = (do start ← get_elem? lines mid; if leb start offset then right else left) in
    if ltb low high then round else some low

unfoldable pub has_non_ascii : Bytes → Bool
has_non_ascii [] = false
has_non_ascii (c ∷ cs) = leb 0x80 c || has_non_ascii cs

-- The loop over the runes of the line. Each round takes a byte at least, so the number of bytes is
-- enough fuel.
unfoldable pub column_loop : ℕ → Bytes → Bytes → ℕ → ℕ
column_loop zero encoding cs col = col
column_loop (suc f) encoding [] col = col
column_loop (suc f) encoding (c ∷ cs) col =
    let (r, size) = decode_rune (c ∷ cs) in
    let width = if equal encoding (codes "utf-32") then 1 else if ltb 0xFFFF r then 2 else 1 in
    let one_byte = column_loop f encoding cs (u32 (col + 1)) in
    let rune = column_loop f encoding (drop size (c ∷ cs)) (u32 (col + width)) in
    if ltb c 0x80 then one_byte else rune

unfoldable pub column : Bytes → Bytes → ℕ
column encoding col_bytes =
    if equal encoding (codes "utf-8") || not (has_non_ascii col_bytes)
    then u32 (length col_bytes)
    else column_loop (length col_bytes) encoding col_bytes 0

-- `uint32(low - 1)` is 2 ^ 32 - 1 where `low` is 0.
unfoldable pub position : Tree → ℕ → Option (ℕ × ℕ)
position t offset = do
  low ← search_line (length t.line_offsets) t.line_offsets offset 0 (length t.line_offsets)
  let line = u32 (low + 4294967295)
  let safe_offset = min offset (u32 (length t.source))
  let found : Option (ℕ × ℕ) = elim (get_elem? t.line_offsets line) [
    | none ↦ none
    | some start ↦
        some (line, column t.position_encoding (slice (min start safe_offset) safe_offset t.source))
  ]
  if ltb line (length t.line_offsets) then found else some (0, 0)

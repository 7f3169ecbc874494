-- ===== src/Ast/RoundTrip.antt =====
-- `Offset` of ast/ast.go goes back from the line and column of `Position`.
use lugo.Base.{
  ℕ, ◌+◌, ◌-◌, ◌*◌, ◌≤◌, ◌<◌, ◌≡◌, refl, sym, ap, ◌∙◌, true, false, List, ◌∷◌, ◌++◌, some, Bytes,
  length, length-append, length-drop, take, drop, drop-drop_to, slice, min, get_elem?, get_elem?-lt,
  take-append-drop, ltb, leb, u32, arith,
}
use lugo.Ast.{Tree}
use lugo.Ast.Position.{position}
use lugo.Ast.LineOf.{Rising, After, position_lem}
use lugo.Ast.Offset.{offset_loop, line_offset, offset}
use lugo.Ast.Runes.{Runes, Known, columns, offset_loop-Runes, column-columns, columns-le}

length-take : (n : ℕ) (xs : Bytes) → n ≤ length xs → length (take n xs) ≡ n
length-take n xs h =
    let both = length-append (take n xs) (drop n xs) in
    let sum = ap length (take-append-drop n xs) in
    let behind = length-drop n xs in omega (arith, both, sum, behind)

length-slice : (i j : ℕ) (xs : Bytes) → j ≤ length xs → i ≤ j → length (slice i j xs) ≡ j - i
length-slice i j xs h h' =
    let size = length-drop i xs in length-take (j - i) (drop i xs) (omega arith)

slice-drop : (i j : ℕ) (xs : Bytes) → i ≤ j → slice i j xs ++ drop j xs ≡ drop i xs
slice-drop i j xs h =
    let behind = drop-drop_to (j - i) i j xs (omega arith) in
    ap (◌++◌ (slice i j xs)) (sym behind) ∙ take-append-drop (j - i) (drop i xs)

module _ (t : Tree) (o : ℕ) (inside : o ≤ length t.source) (fits : 2 * length t.source < 4294967296)
    (known : Known t.position_encoding) where
  -- From the start of a line, whole runes lead back to the offset.
  line_offset-Runes :
      (start : ℕ)
      → start ≤ o
      → (runes : Runes (drop o t.source) (slice start o t.source))
      → line_offset t start (columns t.position_encoding runes) ≡ some o
  unfolding line_offset
  line_offset-Runes start below runes =
      let cs = drop start t.source in
      let piece = slice start o t.source in
      let encoding = t.position_encoding in
      let size : length piece ≡ o - start = length-slice start o t.source inside below in
      let whole : piece ++ drop o t.source ≡ cs = slice-drop start o t.source below in
      let size' = length-drop start t.source in
      let narrow = columns-le encoding (drop o t.source) piece runes in
      let zero_add : 0 + columns encoding runes ≡ columns encoding runes = omega arith in
      let passed : offset_loop (length cs) encoding cs (columns encoding runes) 0 ≡ length piece =
        rw whole at (
          rw zero_add at (
            offset_loop-Runes encoding (drop o t.source) (length cs) piece runes 0 (omega arith)
              (omega arith))) in
      let exact : u32 (o - start) ≡ o - start = omega arith in
      let exact' : u32 (length t.source) ≡ length t.source = omega arith in
      let back : start + (o - start) ≡ o = omega arith in
      let exact'' : u32 o ≡ o = omega arith in
      let low : leb start (length t.source) ≡ true = ground arith in
      let in_source : ltb (length t.source) o ≡ false = ground arith in
      rw (low, passed, size, exact, exact', back, exact'', in_source) refl

  line_offset-offset :
      (line start col : ℕ)
      → get_elem? t.line_offsets line ≡ some start
      → offset t line col ≡ line_offset t start col
  unfolding offset
  line_offset-offset line start col at =
      let low = get_elem?-lt t.line_offsets line at in
      let inside_lines : ltb line (length t.line_offsets) ≡ true = ground arith in
      rw (inside_lines, at) refl

  -- In a tree whose first line begins at 0 and whose lines stand in order and are fewer than
  -- 2 ^ 32, with a source below 2 ^ 31 bytes and an encoding that `SetPositionEncoding` sets:
  -- `Offset` takes the line and column that `Position` gives for an offset back to this offset, if
  -- the bytes between the start of the line and the offset are whole runes.
  pub offset-position :
      (others : List ℕ)
      → t.line_offsets ≡ 0 ∷ others
      → Rising t.line_offsets
      → length t.line_offsets < 4294967296
      → ((line start : ℕ)
          → get_elem? t.line_offsets line ≡ some start
          → start ≤ o
          → After t.line_offsets o (line + 1)
          → Runes (drop o t.source) (slice start o t.source))
      → (line : ℕ) × (col : ℕ) × (position t o ≡ some (line, col)) × (offset t line col ≡ some o)
  offset-position others first rising few whole =
      let (line, start, at, below, after, done) = position_lem t o others first rising few in
      let runes = whole line start at below after in
      let exact : u32 (length t.source) ≡ length t.source = omega arith in
      let safe : min o (length t.source) ≡ o = omega arith in
      let begins : min start o ≡ start = omega arith in
      let done' = rw (exact, safe, begins) at done in
      let size = length-slice start o t.source inside below in
      let narrow =
        columns-le t.position_encoding (drop o t.source) (slice start o t.source) runes in
      let counted =
        column-columns (drop o t.source) (slice start o t.source) runes (omega arith)
          t.position_encoding known (omega arith) in
      (
        line,
        columns t.position_encoding runes,
        rw counted at done',
        line_offset-offset line start (columns t.position_encoding runes) at
            ∙ line_offset-Runes start below runes,
      )

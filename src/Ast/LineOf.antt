-- ===== src/Ast/LineOf.antt =====
-- Which line `Position` of ast/ast.go finds, and that its shortcut for ASCII is right.
use lugo.Base.{
  ℕ, zero, suc, ◌+◌, ◌-◌, ◌/◌, ◌≤◌, ◌<◌, ◌≡◌, refl, sym, ap, ◌∙◌, inl, inr, true, false, min, List,
  [], ◌∷◌, Option, some, Bytes, length, get_elem?, get_elem?-some, get_elem?-lt, slice, equal, ltb,
  leb, ◌==◌, if◌then◌else◌, u32, arith, Bool-cases, ==_iff,
}
use mathlib.Core.Option.{some-injective}
use lugo.Lexer.Readers.{codes}
use lugo.Ast.{Tree}
use lugo.Ast.Position.{search_line, has_non_ascii, column_loop, column, position}

module _ (lines : List ℕ) (offset : ℕ) where
  -- The lines in front of `k` begin at the offset or in front of it.
  abbrev pub Before : ℕ → Type 0
  Before k = (i a : ℕ) → i < k → get_elem? lines i ≡ some a → a ≤ offset

  -- The lines from `k` on begin behind the offset.
  abbrev pub After : ℕ → Type 0
  After k = (j b : ℕ) → k ≤ j → get_elem? lines j ≡ some b → offset < b

-- The lines stand in the order of their starts.
abbrev pub Rising : List ℕ → Type 0
Rising lines =
    (i j a b : ℕ) → i < j → get_elem? lines i ≡ some a → get_elem? lines j ≡ some b → a ≤ b

module _ (lines : List ℕ) (offset : ℕ) (rising : Rising lines) where
  same_place :
      (i j a b : ℕ) → i ≡ j → get_elem? lines i ≡ some a → get_elem? lines j ≡ some b → a ≡ b
  same_place i j a b e p q = some-injective a b (sym p ∙ (rw e q))

  Before-suc :
      (mid s : ℕ) → get_elem? lines mid ≡ some s → s ≤ offset → Before lines offset (mid + 1)
  Before-suc mid s at h i a low p = elim (Bool-cases (i == mid)) [
    | inl e ↦ let same = same_place i mid a s ((==_iff i mid).0 e) p at in omega arith
    | inr e ↦ let less = rising i mid a s (ground arith) p at in omega arith
  ]

  After-here : (mid s : ℕ) → get_elem? lines mid ≡ some s → offset < s → After lines offset mid
  After-here mid s at h j b low p = elim (Bool-cases (j == mid)) [
    | inl e ↦ let same = same_place j mid b s ((==_iff j mid).0 e) p at in omega arith
    | inr e ↦ let less = rising mid j s b (ground arith) at p in omega arith
  ]

  search_line_step :
      (f low high mid s : ℕ) (o : Option ℕ)
      → mid ≡ (low + high) / 2
      → low < high
      → get_elem? lines mid ≡ some s
      → (if leb s offset
          then search_line f lines offset (mid + 1) high
          else search_line f lines offset low mid)
        ≡ o
      → search_line (suc f) lines offset low high ≡ o
  unfolding search_line
  search_line_step f low high mid s o half h at rest =
      let test : ltb low high ≡ true = ground arith in rw (test, sym half, at) rest

  search_line_end : (f low high : ℕ) → high ≤ low → search_line f lines offset low high ≡ some low
  unfolding search_line
  search_line_end zero low high h = refl
  search_line_end (suc f) low high h =
      let test : ltb low high ≡ false = ground arith in rw test refl

  search_line_lem :
      (f low high : ℕ)
      → high - low ≤ f
      → low ≤ high
      → high ≤ length lines
      → Before lines offset low
      → After lines offset high
      → (r : ℕ) × (search_line f lines offset low high ≡ some r)
        × (r ≤ length lines)
        × Before lines offset r
        × After lines offset r
  search_line_lem zero low high h order top before after = (
    low,
    search_line_end zero low high (omega arith),
    omega arith,
    before,
    λ j b p. after j b (omega arith),
  )
  search_line_lem (suc f) low high h order top before after = elim (Bool-cases (ltb low high)) [
    | inr e ↦
        let stop : high ≤ low = ground arith in
        (
          low,
          search_line_end (suc f) low high stop,
          omega arith,
          before,
          λ j b p. after j b (omega arith),
        )
    | inl e ↦
        let mid = (low + high) / 2 in
        let less : low < high = ground arith in
        let (s, at) = get_elem?-some lines mid (omega arith) in
        elim (Bool-cases (leb s offset)) [
          | inl q ↦
              let (r, done, inside, front, behind) =
                search_line_lem f (mid + 1) high (omega arith) (omega arith) top
                  (Before-suc mid s at (ground arith)) after in
              (
                r,
                search_line_step f low high mid s (some r) refl less at (rw q done),
                inside,
                front,
                behind,
              )
          | inr q ↦
              let (r, done, inside, front, behind) =
                search_line_lem f low mid (omega arith) (omega arith) (omega arith) before
                  (After-here mid s at (ground arith)) in
              (
                r,
                search_line_step f low high mid s (some r) refl less at (rw q done),
                inside,
                front,
                behind,
              )
        ]
  ]

column_loop-ascii :
    (f : ℕ) (encoding cs : Bytes) (col : ℕ)
    → length cs ≤ f
    → has_non_ascii cs ≡ false
    → col + length cs < 4294967296
    → column_loop f encoding cs col ≡ col + length cs
unfolding column_loop has_non_ascii
column_loop-ascii zero encoding [] col h ascii fits = omega arith
column_loop-ascii zero encoding (c ∷ cs) col h ascii fits = absurd (omega arith)
column_loop-ascii (suc f) encoding [] col h ascii fits = omega arith
column_loop-ascii (suc f) encoding (c ∷ cs) col h ascii fits =
    let one : ltb c 0x80 ≡ true = ground arith in
    let others : has_non_ascii cs ≡ false = ground arith in
    let exact : u32 (col + 1) ≡ col + 1 = omega arith in
    rw (one, exact)
      (column_loop-ascii f encoding cs (col + 1) (omega arith) others (omega arith) ∙ omega arith)

-- The shortcut of `Position` for lines of ASCII does not change the column: outside of UTF-8, the
-- column of a piece below 2 ^ 32 bytes is what the loop over its runes counts.
pub column-column_loop :
    (encoding cs : Bytes)
    → equal encoding (codes "utf-8") ≡ false
    → length cs < 4294967296
    → column encoding cs ≡ column_loop (length cs) encoding cs 0
unfolding column
column-column_loop encoding cs e fits = elim (Bool-cases (has_non_ascii cs)) [
  | inl some_rune ↦ rw (e, some_rune) refl
  | inr ascii ↦
      let exact : u32 (length cs) ≡ length cs = omega arith in
      rw (e, ascii, exact)
        (omega
          (arith, column_loop-ascii (length cs) encoding cs 0 (omega arith) ascii (omega arith)))
]

position-steps :
    (t : Tree) (offset low line start : ℕ)
    → search_line (length t.line_offsets) t.line_offsets offset 0 (length t.line_offsets) ≡ some low
    → line ≡ u32 (low + 4294967295)
    → line < length t.line_offsets
    → get_elem? t.line_offsets line ≡ some start
    → let safe = min offset (u32 (length t.source)) in
      position t offset
      ≡ some (line, column t.position_encoding (slice (min start safe) safe t.source))
unfolding position
position-steps t offset low line start done e inside at =
    let test : ltb line (length t.line_offsets) ≡ true = ground arith in
    let safe = min offset (u32 (length t.source)) in
    let col = column t.position_encoding (slice (min start safe) safe t.source) in
    rw (done, sym e, at, test) (ap (λ (x : ℕ). some (x, col)) (sym e))

-- `Position` in a tree whose first line begins at 0, whose lines stand in order and are fewer than
-- 2 ^ 32, does not panic. It returns the last line that begins at the offset or in front of it,
-- and the column of the bytes from there to the offset, or to the end of the source.
pub position_lem :
    (t : Tree) (offset : ℕ) (others : List ℕ)
    → t.line_offsets ≡ 0 ∷ others
    → Rising t.line_offsets
    → length t.line_offsets < 4294967296
    → (line : ℕ) × (start : ℕ) × (get_elem? t.line_offsets line ≡ some start)
      × (start ≤ offset)
      × After t.line_offsets offset (line + 1)
      × (let safe = min offset (u32 (length t.source)) in
          position t offset
          ≡ some (line, column t.position_encoding (slice (min start safe) safe t.source)))
position_lem t offset others first rising fits =
    let lines = t.line_offsets in
    let head : get_elem? lines 0 ≡ some 0 = rw first refl in
    let (low, done, inside, front, behind) =
      search_line_lem lines offset rising (length lines) 0 (length lines) (omega arith)
        (omega arith) (omega arith) (λ i a p. absurd (omega arith))
        (λ j b p q. absurd (omega (arith, get_elem?-lt lines j q))) in
    let positive : 1 ≤ low = elim (Bool-cases (low == 0)) [
      | inl z ↦ let less = behind 0 0 (ground arith) head in absurd (omega arith)
      | inr nz ↦ ground arith
    ] in
    let line = low - 1 in
    let (start, at) = get_elem?-some lines line (omega arith) in
    let exact : line ≡ u32 (low + 4294967295) = omega arith in
    (
      line,
      start,
      at,
      front line start (omega arith) at,
      λ j b p. behind j b (omega arith),
      position-steps t offset low line start done exact (omega arith) at,
    )

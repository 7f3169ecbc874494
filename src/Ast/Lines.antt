-- ===== src/Ast/Lines.antt =====
-- `computeLineOffsets` of ast/ast.go: where the lines of a source begin.
use lugo.Base.{
  ℕ, zero, suc, ◌+◌, ◌-◌, ◌≤◌, ◌<◌, ◌≡◌, inl, inr, refl, sym, ◌∙◌, List, [], ◌∷◌, ◌++◌, Option,
  none, some, Bytes, length, drop, length-drop, drop-end, drop-drop, Option-cases, arith, ltb, ◌==◌,
  if◌then◌else◌, u32, Bool-cases,
}
use mathlib.Core.List.{append_assoc, append-nil}
use lugo.Lexer.Readers.{index_byte}

-- The loop: `bytes.IndexByte` from `offset` on, until there is no newline or no source left. Each
-- round passes at least one byte, so the length of the source is enough fuel.
unfoldable pub line_loop : ℕ → Bytes → ℕ → List ℕ → List ℕ
line_loop zero source offset lines = lines
line_loop (suc f) source offset lines =
    let found : List ℕ = elim (index_byte b'\n' (drop offset source)) [
      | none ↦ lines
      | some idx ↦
          line_loop f source (offset + (idx + 1)) (lines ++ (u32 (offset + (idx + 1)) ∷ []))
    ] in
    if ltb offset (length source) then found else lines

unfoldable pub compute_line_offsets : Bytes → List ℕ → List ℕ
compute_line_offsets source lines = line_loop (length source) source 0 lines

-- The positions behind the newlines of `cs`, where `cs` begins at `i`.
abbrev pub line_starts : ℕ → Bytes → List ℕ
line_starts i [] = []
line_starts i (c ∷ cs) =
    if c == b'\n' then suc i ∷ line_starts (suc i) cs else line_starts (suc i) cs

-- The line starts of `cs` by the place of its first newline.
abbrev after_newline : ℕ → Bytes → Option ℕ → List ℕ
after_newline i cs none = []
after_newline i cs (some k) = (i + (k + 1)) ∷ line_starts (i + (k + 1)) (drop (k + 1) cs)

after_newline-cons :
    (i c : ℕ) (cs : Bytes) (o : Option ℕ)
    → after_newline (suc i) cs o
      ≡ after_newline i (c ∷ cs) (elim o [ none ↦ none | some k ↦ some (k + 1) ])
after_newline-cons i c cs none = refl
after_newline-cons i c cs (some k) =
    let e : suc i + (k + 1) ≡ i + (k + 1 + 1) = omega arith in
    let e' : k + 1 + 1 ≡ suc (k + 1) = omega arith in rw (e, e')

line_starts-index_byte :
    (i : ℕ) (cs : Bytes) → line_starts i cs ≡ after_newline i cs (index_byte b'\n' cs)
unfolding index_byte
line_starts-index_byte i [] = refl
line_starts-index_byte i (c ∷ cs) = elim (Bool-cases (c == b'\n')) [
  | inl e ↦ let e' : suc i ≡ i + 1 = omega arith in rw (e, e') refl
  | inr e ↦
      rw e (line_starts-index_byte (suc i) cs ∙ after_newline-cons i c cs (index_byte b'\n' cs))
]

index_byte-lt : (b : ℕ) (cs : Bytes) (k : ℕ) → index_byte b cs ≡ some k → k < length cs
unfolding index_byte
index_byte-lt b [] k e = cc
index_byte-lt b (c ∷ cs) k e = elim (Option-cases (index_byte b cs)) [
  | inl n ↦ ground (arith, n)
  | inr (j, n) ↦ let below = index_byte-lt b cs j n in ground (arith, n)
]

module _ (source : Bytes) (fits : length source < 4294967296) where
  line_loop_lem :
      (f offset : ℕ) (lines : List ℕ)
      → length source - offset ≤ f
      → line_loop f source offset lines ≡ lines ++ line_starts offset (drop offset source)
  unfolding line_loop
  line_loop_lem zero offset lines h =
      rw (drop-end offset source (omega arith)) (sym (append-nil lines))
  line_loop_lem (suc f) offset lines h = elim (Bool-cases (ltb offset (length source))) [
    | inr e ↦ rw (e, drop-end offset source (ground arith)) (sym (append-nil lines))
    | inl e ↦ rw e (elim (Option-cases (index_byte b'\n' (drop offset source))) [
      | inl n ↦
          rw (n, line_starts-index_byte offset (drop offset source), n) (sym (append-nil lines))
      | inr (k, n) ↦
          let next = offset + (k + 1) in
          let inside = index_byte-lt b'\n' (drop offset source) k n in
          let exact : u32 next ≡ next = omega (arith, length-drop offset source) in
          rw (
            n,
            line_starts-index_byte offset (drop offset source),
            n,
            exact,
            line_loop_lem f next (lines ++ (next ∷ [])) (omega arith),
            append_assoc,
            drop-drop (k + 1) offset source,
          )
    ])
  ]

  -- For a source below 2 ^ 32 bytes, the line offsets that `computeLineOffsets` adds to a list are
  -- the positions behind the newlines of the source, in order.
  pub compute_line_offsets_lem :
      (lines : List ℕ) → compute_line_offsets source lines ≡ lines ++ line_starts 0 source
  unfolding compute_line_offsets
  compute_line_offsets_lem lines = line_loop_lem (length source) 0 lines (omega arith)

-- ===== src/Ast/Runes.antt =====
-- The columns that `Position` counts and `Offset` passes, of ast/ast.go, for whole runes.
use lugo.Base.{
  ℕ, zero, suc, ◌+◌, ◌*◌, ◌≤◌, ◌<◌, ◌≡◌, ◌≢◌, refl, sym, ap, ◌∙◌, inl, inr, ◌⊎◌, true, false, [],
  ◌∷◌, ◌++◌, Bytes, length, length-drop, drop, equal, ltb, ◌==◌, if◌then◌else◌, u32, arith,
  Bool-cases,
}
use lugo.Lexer.Readers.{codes}
use lugo.Ast.Position.{decode_rune, has_non_ascii, column_loop, column}
use lugo.Ast.Offset.{rune_width, offset_loop}

-- The bytes are whole runes in front of `rest`, none of them a newline; each is the same rune
-- whether or not the bytes in `rest` are read with it.
pub data Runes (rest : Bytes) : Bytes → Type 0 where
  nothing : Runes rest []
  ascii : (c : ℕ) (cs : Bytes) → c < 0x80 → c ≢ 10 → Runes rest cs → Runes rest (c ∷ cs)
  rune :
      (c : ℕ) (cs : Bytes) (r size : ℕ)
      → 0x80 ≤ c
      → decode_rune (c ∷ cs) ≡ (r, size)
      → decode_rune ((c ∷ cs) ++ rest) ≡ (r, size)
      → 1 ≤ size
      → size ≤ length (c ∷ cs)
      → Runes rest (drop size (c ∷ cs))
      → Runes rest (c ∷ cs)

-- The columns of the runes.
abbrev pub columns : {rest cs : Bytes} → Bytes → Runes rest cs → ℕ
columns encoding Runes.nothing = 0
columns encoding (Runes.ascii c cs _ _ runes) = 1 + columns encoding runes
columns encoding (Runes.rune c cs r size _ _ _ _ _ runes) =
    rune_width encoding r size + columns encoding runes

drop-append-le : (n : ℕ) (xs ys : Bytes) → n ≤ length xs → drop n (xs ++ ys) ≡ drop n xs ++ ys
drop-append-le zero xs ys h = refl
drop-append-le (suc n) [] ys h = absurd (omega arith)
drop-append-le (suc n) (x ∷ xs) ys h = drop-append-le n xs ys (omega arith)

rune_width-positive : (encoding : Bytes) (r size : ℕ) → 1 ≤ size → 1 ≤ rune_width encoding r size
unfolding rune_width
rune_width-positive encoding r size h = ground arith

module _ (encoding rest : Bytes) where
  -- The loop at its column stands still.
  offset_loop-here : (f : ℕ) (cs : Bytes) (col : ℕ) → offset_loop f encoding cs col col ≡ 0
  unfolding offset_loop
  offset_loop-here zero cs col = refl
  offset_loop-here (suc f) [] col = refl
  offset_loop-here (suc f) (c ∷ cs) col =
      let still : ltb col col ≡ false = ground arith in rw still refl

  offset_loop-ascii :
      (f c : ℕ) (cs : Bytes) (col current : ℕ)
      → c < 0x80
      → c ≢ 10
      → current < col
      → col < 4294967296
      → offset_loop (suc f) encoding (c ∷ cs) col current
        ≡ 1 + offset_loop f encoding cs col (current + 1)
  unfolding offset_loop
  offset_loop-ascii f c cs col current low no_newline less small =
      let before : ltb current col ≡ true = ground arith in
      let other : (c == 10) ≡ false = ground arith in
      let one : ltb c 0x80 ≡ true = ground arith in
      let exact : u32 (current + 1) ≡ current + 1 = omega arith in
      rw (before, other, one, exact) refl

  offset_loop-rune :
      (f c : ℕ) (cs : Bytes) (r size col current : ℕ)
      → 0x80 ≤ c
      → decode_rune (c ∷ cs) ≡ (r, size)
      → current + rune_width encoding r size ≤ col
      → current < col
      → col < 4294967296
      → offset_loop (suc f) encoding (c ∷ cs) col current
        ≡ size
          + offset_loop f encoding (drop size (c ∷ cs)) col (current + rune_width encoding r size)
  unfolding offset_loop
  offset_loop-rune f c cs r size col current high e less less' small =
      let before : ltb current col ≡ true = ground arith in
      let other : (c == 10) ≡ false = ground arith in
      let more : ltb c 0x80 ≡ false = ground arith in
      let exact : u32 (current + rune_width encoding r size)
          ≡ current + rune_width encoding r size =
        omega arith in
      rw (before, other, more, e) (rw exact refl)

  -- The loop passes just the runes whose columns it is given.
  pub offset_loop-Runes :
      (f : ℕ) (cs : Bytes) (runes : Runes rest cs) (current : ℕ)
      → length cs ≤ f
      → current + columns encoding runes < 4294967296
      → offset_loop f encoding (cs ++ rest) (current + columns encoding runes) current ≡ length cs
  offset_loop-Runes f _ Runes.nothing current h small =
      let same : current + 0 ≡ current = omega arith in rw same (offset_loop-here f rest current)
  offset_loop-Runes zero _ (Runes.ascii c cs _ _ runes) current h small = absurd (omega arith)
  offset_loop-Runes zero _ (Runes.rune c cs r size _ _ _ _ _ runes) current h small =
      absurd (omega arith)
  offset_loop-Runes (suc f) _ (Runes.ascii c cs low no_newline runes) current h small =
      let n = columns encoding runes in
      let sum : current + (1 + n) ≡ (current + 1) + n = omega arith in
      offset_loop-ascii f c (cs ++ rest) (current + (1 + n)) current low no_newline (omega arith)
        small
      ∙ rw sum (
          ap (◌+◌ 1) (offset_loop-Runes f cs runes (current + 1) (omega arith) (omega arith))
          ∙ omega arith)
  offset_loop-Runes (suc f) _ (Runes.rune c cs r size high _ e one le runes) current h small =
      let n = columns encoding runes in
      let w = rune_width encoding r size in
      let wide = rune_width-positive encoding r size one in
      let sum : current + (w + n) ≡ (current + w) + n = omega arith in
      let cut = drop-append-le size (c ∷ cs) rest le in
      let size_left = length-drop size (c ∷ cs) in
      offset_loop-rune f c (cs ++ rest) r size (current + (w + n)) current high e (omega arith)
        (omega arith) small
      ∙ rw (sum, cut)
          (ap (◌+◌ size) (
              offset_loop-Runes f (drop size (c ∷ cs)) runes (current + w)
                (omega (arith, size_left)) (omega arith))
            ∙ omega (arith, size_left))

-- One of the encodings that `SetPositionEncoding` sets.
abbrev pub Known : Bytes → Type 0
Known encoding =
    (encoding ≡ codes "utf-8") ⊎ ((encoding ≡ codes "utf-16") ⊎ (encoding ≡ codes "utf-32"))

columns-utf_8 :
    (rest cs : Bytes) (runes : Runes rest cs) → columns (codes "utf-8") runes ≡ length cs
unfolding rune_width equal
columns-utf_8 rest _ Runes.nothing = refl
columns-utf_8 rest _ (Runes.ascii c cs _ _ runes) =
    let ih = columns-utf_8 rest cs runes in omega arith
columns-utf_8 rest _ (Runes.rune c cs r size _ _ _ _ le runes) =
    let ih = columns-utf_8 rest (drop size (c ∷ cs)) runes in
    omega (arith, length-drop size (c ∷ cs))

columns-ascii :
    (encoding rest cs : Bytes) (runes : Runes rest cs)
    → has_non_ascii cs ≡ false
    → columns encoding runes ≡ length cs
unfolding has_non_ascii
columns-ascii encoding rest _ Runes.nothing e = refl
columns-ascii encoding rest _ (Runes.ascii c cs _ _ runes) e =
    let ih = columns-ascii encoding rest cs runes (ground arith) in omega arith
columns-ascii encoding rest _ (Runes.rune c cs r size high _ _ _ _ _) e = absurd (ground arith)

-- A rune is as wide for `Position` as for `Offset`.
abbrev SameWidth : Bytes → Type 0
SameWidth encoding =
    (r size : ℕ)
    → (if equal encoding (codes "utf-32") then 1 else if ltb 0xFFFF r then 2 else 1)
      ≡ rune_width encoding r size

utf_16-SameWidth : SameWidth (codes "utf-16")
unfolding rune_width equal
utf_16-SameWidth r size = refl

utf_32-SameWidth : SameWidth (codes "utf-32")
unfolding rune_width equal
utf_32-SameWidth r size = refl

-- The loop of `Position` adds up the columns.
column_loop-columns :
    (encoding rest : Bytes)
    → SameWidth encoding
    → (f : ℕ) (cs : Bytes) (runes : Runes rest cs) (current : ℕ) → length cs ≤ f
    → current + columns encoding runes < 4294967296
    → column_loop f encoding cs current ≡ current + columns encoding runes
unfolding column_loop
column_loop-columns encoding rest same zero _ Runes.nothing current h small = omega arith
column_loop-columns encoding rest same (suc f) _ Runes.nothing current h small = omega arith
column_loop-columns encoding rest same zero _ (Runes.ascii c cs _ _ runes) current h small =
    absurd (omega arith)
column_loop-columns encoding rest same zero _ (Runes.rune c cs r size _ _ _ _ _ runes) current h
      small =
    absurd (omega arith)
column_loop-columns encoding rest same (suc f) _ (Runes.ascii c cs low _ runes) current h small =
    let one : ltb c 0x80 ≡ true = ground arith in
    let exact : u32 (current + 1) ≡ current + 1 = omega arith in
    let ih =
      column_loop-columns encoding rest same f cs runes (current + 1) (omega arith) (omega arith) in
    rw (one, exact) (ih ∙ omega arith)
column_loop-columns encoding rest same (suc f) _ (Runes.rune c cs r size high e _ one le runes)
      current h small =
    let more : ltb c 0x80 ≡ false = ground arith in
    let w = rune_width encoding r size in
    let exact : u32 (current + w) ≡ current + w = omega arith in
    let size_left = length-drop size (c ∷ cs) in
    let ih =
      column_loop-columns encoding rest same f (drop size (c ∷ cs)) runes (current + w)
        (omega (arith, size_left)) (omega arith) in
    rw (more, e) (rw (same r size, exact) (ih ∙ omega arith))

module _ (rest cs : Bytes) (runes : Runes rest cs) (fits : length cs < 4294967296) where
  column-utf_8 : column (codes "utf-8") cs ≡ columns (codes "utf-8") runes
  unfolding column equal
  column-utf_8 =
      let exact : u32 (length cs) ≡ length cs = omega arith in
      exact ∙ sym (columns-utf_8 rest cs runes)

  column-utf_16 :
      has_non_ascii cs ≡ true
      → columns (codes "utf-16") runes < 4294967296
      → column (codes "utf-16") cs ≡ columns (codes "utf-16") runes
  unfolding column equal
  column-utf_16 wide small = rw wide (
      column_loop-columns (codes "utf-16") rest utf_16-SameWidth (length cs) cs runes 0
        (omega arith) (omega arith)
      ∙ omega arith)

  column-utf_32 :
      has_non_ascii cs ≡ true
      → columns (codes "utf-32") runes < 4294967296
      → column (codes "utf-32") cs ≡ columns (codes "utf-32") runes
  unfolding column equal
  column-utf_32 wide small = rw wide (
      column_loop-columns (codes "utf-32") rest utf_32-SameWidth (length cs) cs runes 0
        (omega arith) (omega arith)
      ∙ omega arith)

  column-plain :
      (encoding : Bytes) → has_non_ascii cs ≡ false → column encoding cs ≡ columns encoding runes
  unfolding column
  column-plain encoding plain =
      let exact : u32 (length cs) ≡ length cs = omega arith in
      let all = columns-ascii encoding rest cs runes plain in rw plain (ground (arith, exact, all))

  -- The columns that `Position` counts.
  pub column-columns :
      (encoding : Bytes)
      → Known encoding
      → columns encoding runes < 4294967296
      → column encoding cs ≡ columns encoding runes
  column-columns encoding known small = elim (Bool-cases (has_non_ascii cs)) [
    | inr plain ↦ column-plain encoding plain
    | inl wide ↦ elim known [
      | inl e ↦ rw e column-utf_8
      | inr (inl e) ↦ rw e (column-utf_16 wide (rw e at small))
      | inr (inr e) ↦ rw e (column-utf_32 wide (rw e at small))
    ]
  ]

-- A rune takes no more columns than twice its bytes.
pub columns-le :
    (encoding rest cs : Bytes) (runes : Runes rest cs) → columns encoding runes ≤ 2 * length cs
unfolding rune_width
columns-le encoding rest _ Runes.nothing = omega arith
columns-le encoding rest _ (Runes.ascii c cs _ _ runes) =
    let ih = columns-le encoding rest cs runes in omega arith
columns-le encoding rest _ (Runes.rune c cs r size _ _ _ one le runes) =
    let ih = columns-le encoding rest (drop size (c ∷ cs)) runes in
    let narrow : rune_width encoding r size ≤ 2 * size = ground arith in
    omega (arith, length-drop size (c ∷ cs), narrow)

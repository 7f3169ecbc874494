-- ===== src/Lexer/State.antt =====
-- The states that the scanner is ever in: each is fixed by the source and the cursor. The moves of
-- `Lexer.Machine` on such states.
use lugo.Base.{
  ℕ, zero, suc, ◌+◌, ◌≤◌, ◌<◌, ◌≡◌, refl, ap, ◌∙◌, sym, [], ◌∷◌, Bytes, length, get_or, drop,
  head_or, length-drop, drop-drop, u32, arith, ◌==◌, true,
}
use lugo.Lexer.Machine.{Lexer, advance, peek, seek}

-- 1 if there is a byte to read
abbrev pub ahead : Bytes → ℕ
ahead [] = 0
ahead (c ∷ cs) = 1

-- The state with the cursor at `i`, where `rest` is what is left of the source.
abbrev pub state : Bytes → ℕ → Bytes → Lexer
state src i rest = record {
  source = src;
  size = u32 (length src);
  cursor = i;
  read = i + ahead rest;
  ch = head_or 0 rest;
}

-- `rest` is what is left of `src` from `i` on, and positions of `src` fit in a `uint32`.
pub record Suffix (src : Bytes) (i : ℕ) (rest : Bytes) : Type 0 where
  pub left : drop i src ≡ rest
  pub total : i + length rest ≡ length src
  pub fits : length src < 4294967296

get_or-drop : (i : ℕ) (src : Bytes) {c : ℕ} {cs : Bytes} → drop i src ≡ c ∷ cs → get_or src i 0 ≡ c
get_or-drop zero [] h = cc
get_or-drop (suc i) [] h = cc
get_or-drop zero (x ∷ xs) h = ground arith
get_or-drop (suc i) (x ∷ xs) h = get_or-drop i xs h

pub Suffix-start : (src : Bytes) → length src < 4294967296 → Suffix src 0 src
Suffix-start src h = record { left = refl; total = omega arith; fits = h }

pub Suffix-drop :
    (src : Bytes) (i : ℕ) (rest : Bytes) (k : ℕ)
    → Suffix src i rest
    → k ≤ length rest
    → Suffix src (i + k) (drop k rest)
Suffix-drop src i rest k s h = record {
  left = sym (drop-drop k i src) ∙ ap (drop k) s.left;
  total = omega (arith, length-drop k rest, s.total);
  fits = s.fits;
}

module _ (src : Bytes) (i : ℕ) where
  pub Suffix-tail : (c : ℕ) (cs : Bytes) → Suffix src i (c ∷ cs) → Suffix src (i + 1) cs
  Suffix-tail c cs s = Suffix-drop src i (c ∷ cs) 1 s (omega arith)

  pub get_or-Suffix : (c : ℕ) (cs : Bytes) → Suffix src i (c ∷ cs) → get_or src i 0 ≡ c
  get_or-Suffix c cs s = get_or-drop i src s.left

  -- Reading on is dropping a byte.
  pub advance-cons :
      (c : ℕ) (cs : Bytes)
      → Suffix src i (c ∷ cs)
      → advance (state src i (c ∷ cs)) ≡ state src (i + 1) cs
  unfolding advance
  advance-cons c [] s = ground (arith, s.total, s.fits)
  advance-cons c (d ∷ ds) s =
      let next = Suffix-tail c (d ∷ ds) s in
      ground (arith, s.total, s.fits, get_or-drop (i + 1) src next.left)

  pub advance-nil : Suffix src i [] → advance (state src i []) ≡ state src i []
  unfolding advance
  advance-nil s = ground (arith, s.total, s.fits)

  pub peek-cons :
      (c : ℕ) (cs : Bytes) → Suffix src i (c ∷ cs) → peek (state src i (c ∷ cs)) ≡ head_or 0 cs
  unfolding peek
  peek-cons c [] s = ground (arith, s.total)
  peek-cons c (d ∷ ds) s =
      let next = Suffix-tail c (d ∷ ds) s in
      ground (arith, s.total, get_or-drop (i + 1) src next.left)

  -- A jump lands in the state of the position that it is given.
  pub seek-state :
      (rest : Bytes) (j : ℕ) (later : Bytes)
      → Suffix src j later
      → seek (state src i rest) j ≡ state src j later
  unfolding seek
  seek-state rest j [] s = ground (arith, s.total, s.fits)
  seek-state rest j (c ∷ cs) s = ground (arith, s.total, s.fits, get_or-drop j src s.left)

  pub advance-state :
      (rest : Bytes)
      → Suffix src i rest
      → advance (state src i rest) ≡ state src (i + ahead rest) (drop 1 rest)
  advance-state [] s = advance-nil s ∙ ap (λ j. state src j []) (omega arith)
  advance-state (c ∷ cs) s = advance-cons c cs s

  pub Suffix-ahead : (rest : Bytes) → Suffix src i rest → Suffix src (i + ahead rest) (drop 1 rest)
  Suffix-ahead [] s = Suffix-drop src i [] 0 s (omega arith)
  Suffix-ahead (c ∷ cs) s = Suffix-tail c cs s

-- A byte that is tested for is there.
pub ahead-head : (rest : Bytes) (b : ℕ) → 1 ≤ b → (head_or 0 rest == b) ≡ true → ahead rest ≡ 1
ahead-head [] b h e = ground arith
ahead-head (c ∷ cs) b h e = refl

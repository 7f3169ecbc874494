-- ===== src/Lexer/Valid.antt =====
-- The invariant of the scanner in lexer/lexer.go.
use lugo.Base.{
  ℕ, zero, suc, ◌+◌, ◌≤◌, ◌<◌, ◌≡◌, refl, ap, sym, ◌∙◌, true, [], ◌∷◌, Bytes, length, get_or, drop,
  head_or, length-drop, u32, arith, ltb, if◌then◌else◌, Bool-cases, inl, inr,
}
use lugo.Lexer.Machine.{Lexer, advance, has_bom, reset, new}
use lugo.Lexer.Scanner.{next}
use lugo.Lexer.State.{state, ahead, Suffix, Suffix-drop}
use lugo.Lexer.Bounds.{spaces-le, scan_bounds}
use lugo.Lexer.Scan.{spaces, scan}
use lugo.Lexer.Reads.{taken}
use lugo.Lexer.Next.{next-state}

-- The cursor is in the source or at its end; `ch` is the byte there, or 0, and `read` is the
-- position behind it.
pub record IsValid (l : Lexer) : Type 0 where
  pub size_is : l.size ≡ u32 (length l.source)
  pub fits : length l.source < 4294967296
  pub inside : l.cursor ≤ length l.source
  pub ahead_read : l.cursor < length l.source → l.read ≡ l.cursor + 1
  pub end_read : length l.source ≤ l.cursor → l.read ≡ l.cursor
  pub current : l.ch ≡ get_or l.source l.cursor 0

-- What is left of the source.
abbrev pub left_of : Lexer → Bytes
left_of l = drop l.cursor l.source

head_or-drop : (i : ℕ) (cs : Bytes) → head_or 0 (drop i cs) ≡ get_or cs i 0
head_or-drop zero [] = refl
head_or-drop (suc i) [] = refl
head_or-drop zero (c ∷ cs) = refl
head_or-drop (suc i) (c ∷ cs) = head_or-drop i cs

get_or_end : (cs : Bytes) (i : ℕ) → length cs ≤ i → get_or cs i 0 ≡ 0
get_or_end [] i h = refl
get_or_end (c ∷ cs) zero h = absurd (omega arith)
get_or_end (c ∷ cs) (suc i) h = get_or_end cs i (omega arith)

ahead-length : (cs : Bytes) → (1 ≤ length cs → ahead cs ≡ 1) × (length cs ≡ 0 → ahead cs ≡ 0)
ahead-length [] = (λ h. elim h [ ], λ h. refl)
ahead-length (c ∷ cs) = (λ h. refl, λ h. absurd (omega arith))

pub state-IsValid :
    (src : Bytes) (i : ℕ) (rest : Bytes) → Suffix src i rest → IsValid (state src i rest)
state-IsValid src i rest s = record {
  size_is = refl;
  fits = s.fits;
  inside = omega (arith, s.total);
  ahead_read = λ h. omega (arith, (ahead-length rest).0 (omega (arith, s.total)));
  end_read = λ h. omega (arith, (ahead-length rest).1 (omega (arith, s.total)));
  current = ap (head_or 0) (sym s.left) ∙ head_or-drop i src;
}

pub IsValid-Suffix : (l : Lexer) → IsValid l → Suffix l.source l.cursor (left_of l)
IsValid-Suffix l v = record {
  left = refl;
  total = omega (arith, length-drop l.cursor l.source, v.inside);
  fits = v.fits;
}

-- A valid state is fixed by its source and its cursor.
pub IsValid-state : (l : Lexer) → IsValid l → l ≡ state l.source l.cursor (left_of l)
IsValid-state l v = λ i. record {
  source = l.source;
  size = v.size_is i;
  cursor = l.cursor;
  read = read_is i;
  ch = (v.current ∙ sym (head_or-drop l.cursor l.source)) i;
}
  where
    read_is : l.read ≡ l.cursor + ahead (left_of l)
    read_is = ground (
      arith,
      v.ahead_read,
      v.end_read,
      v.inside,
      ahead-length (left_of l),
      length-drop l.cursor l.source,
    )

has_bom-length : (src : Bytes) → has_bom src ≡ true → 3 ≤ length src
unfolding has_bom
has_bom-length src e = ground arith

-- `advance` from a cleared state with `read` at `k`.
started :
    (src : Bytes) (k : ℕ)
    → length src < 4294967296
    → k ≤ length src
    → let l =
        advance (record { source = src; size = u32 (length src); cursor = 0; read = k; ch = 0 }) in
      IsValid l × (l.cursor ≡ k) × (l.source ≡ src)
unfolding advance
started src k h g = elim (Bool-cases (ltb k (length src))) [
  | inl e ↦ rw e (
    record {
      size_is = refl;
      fits = h;
      inside = omega arith;
      ahead_read = λ p. omega arith;
      end_read = λ p. ground arith;
      current = ap (λ n. get_or src n 0) (ground arith);
    },
    ground arith,
    refl,
  )
  | inr e ↦ rw e (
    record {
      size_is = refl;
      fits = h;
      inside = g;
      ahead_read = λ p. ground arith;
      end_read = λ p. refl;
      current = sym (get_or_end src k (ground arith));
    },
    refl,
    refl,
  )
]

-- `New` on a source below 2 ^ 32 bytes starts in a valid state over this source, at its first byte,
-- or behind a byte order mark if it begins with one.
pub new-IsValid :
    (src : Bytes)
    → length src < 4294967296
    → IsValid (new src)
      × ((new src).cursor ≡ (if has_bom src then 3 else 0))
      × ((new src).source ≡ src)
unfolding new reset
new-IsValid src h = elim (Bool-cases (has_bom src)) [
  | inl e ↦ rw e (started src 3 h (has_bom-length src e))
  | inr e ↦ rw e (started src 0 h (omega arith))
]

-- The token and the state that `Next` gives from a valid state, by the bytes that are left.
pub next-left :
    (l : Lexer)
    → IsValid l
    → let w = spaces (left_of l) in
      next l
      ≡ taken l.source
          (l.cursor + w)
          (drop w (left_of l))
          (l.cursor + w)
          (scan (drop w (left_of l)))
next-left l v =
    ap next (IsValid-state l v) ∙ next-state l.source l.cursor (left_of l) (IsValid-Suffix l v)

-- What is left behind the token of `Next`.
pub next-Suffix :
    (l : Lexer) (v : IsValid l)
    → let w = spaces (left_of l) in
      let n = (scan (drop w (left_of l))).1 in
      Suffix l.source (l.cursor + w + n) (drop n (drop w (left_of l)))
next-Suffix l v =
    let w = spaces (left_of l) in
    let r = drop w (left_of l) in
    Suffix-drop l.source (l.cursor + w) r (scan r).1
      (Suffix-drop l.source l.cursor (left_of l) w (IsValid-Suffix l v) (spaces-le (left_of l)))
      (scan_bounds r).0

-- `Next` keeps the state valid.
pub next-IsValid : (l : Lexer) → IsValid l → IsValid (next l).1
next-IsValid l v = rw (next-left l v) (state-IsValid _ _ _ (next-Suffix l v))

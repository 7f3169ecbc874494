-- ===== src/Lexer/Loops.antt =====
-- The loops of `readNumber` and `readLongString` consume what `Lexer.Spec` says.
use lugo.Base.{
  ℕ, zero, suc, ◌+◌, ◌≤◌, ◌≡◌, refl, Bool, true, false, [], ◌∷◌, Option, none, some, Bytes, length,
  drop, head_or, arith, ◌==◌, if◌then◌else◌, length-drop, drop-drop,
}
use lugo.Lexer.Chars.{has_prop_meaning}
use lugo.Lexer.Machine.{Lexer}
use lugo.Lexer.Readers.{skip_sign, number_step, number_loop, long_loop}
use lugo.Lexer.State.{
  state, Suffix, Suffix-tail, Suffix-drop, advance-cons, advance-state, ahead-head,
}
use lugo.Lexer.Spec.{span_len, number_len, long_len, in_numeral, is_mark, is_sign}
use lugo.Lexer.Bounds.{span_len-le}
use lugo.Lexer.Consume.{equals_loop_lem}

number_len-cons :
    (hex : Bool) (c d : ℕ) (cs : Bytes)
    → number_len hex (c ∷ d ∷ cs) ≡ (
        if in_numeral hex c
        then suc (number_len hex (d ∷ cs))
        else if is_mark hex c
        then if is_sign d then suc (suc (number_len hex cs)) else suc (number_len hex (d ∷ cs))
        else 0)
unfolding number_len
number_len-cons hex c d cs = refl

module _ (src : Bytes) where
  skip_sign_lem :
      (i : ℕ) (cs : Bytes)
      → Suffix src i cs
      → skip_sign (state src i cs)
        ≡ (if is_sign (head_or 0 cs) then state src (i + 1) (drop 1 cs) else state src i cs)
  unfolding skip_sign
  skip_sign_lem i [] s = refl
  skip_sign_lem i (c ∷ cs) s = rw (advance-cons src i c cs s) (ground arith)

  number_step-nil : (hex : Bool) (i : ℕ) → number_step hex (state src i []) ≡ none
  unfolding number_step
  number_step-nil hex i = refl

  number_step-cons :
      (hex : Bool) (i c : ℕ) (cs : Bytes)
      → Suffix src i (c ∷ cs)
      → number_step hex (state src i (c ∷ cs)) ≡ (
          if in_numeral hex c
          then some (state src (i + 1) cs)
          else if is_mark hex c
          then some (skip_sign (state src (i + 1) cs))
          else none)
  unfolding number_step
  number_step-cons true i c cs s =
      let (_, digit, _, hexadecimal) = has_prop_meaning c in
      rw (advance-cons src i c cs s) (ground (arith, digit, hexadecimal))
  number_step-cons false i c cs s =
      let (_, digit, _, hexadecimal) = has_prop_meaning c in
      rw (advance-cons src i c cs s) (ground (arith, digit, hexadecimal))

  -- What the loop makes of a round.
  abbrev after_round : ℕ → Bool → Lexer → Option Lexer → Lexer
  after_round f hex l none = l
  after_round f hex l (some m) = number_loop f hex m

  number_loop-zero : (hex : Bool) (l : Lexer) → number_loop zero hex l ≡ l
  unfolding number_loop
  number_loop-zero hex l = refl

  number_loop_round :
      (f : ℕ) (hex : Bool) (l : Lexer)
      → number_loop (suc f) hex l ≡ after_round f hex l (number_step hex l)
  unfolding number_loop
  number_loop_round f hex l = ground arith

  -- The loop stands where the numeral ends.
  abbrev pub NumberRead : ℕ → Bool → ℕ → Bytes → Type 0
  NumberRead f hex i rest =
      number_loop f hex (state src i rest)
      ≡ state src (i + number_len hex rest) (drop (number_len hex rest) rest)

  NumberRead-nil : (f : ℕ) (hex : Bool) (i : ℕ) → NumberRead f hex i []
  unfolding number_len
  NumberRead-nil zero hex i = rw number_loop-zero (ground arith)
  NumberRead-nil (suc f) hex i = rw (number_loop_round, number_step-nil hex i) (ground arith)

  NumberRead-last :
      (f : ℕ) (hex : Bool) (i c : ℕ)
      → Suffix src i (c ∷ [])
      → NumberRead f hex (i + 1) []
      → NumberRead (suc f) hex i (c ∷ [])
  unfolding number_len
  NumberRead-last f hex i c s ih =
      rw
        (
          number_loop_round,
          number_step-cons hex i c [] s,
          skip_sign_lem (i + 1) [] (Suffix-tail src i c [] s),
        )
        (ground arith)

  NumberRead-cons :
      (f : ℕ) (hex : Bool) (i c d : ℕ) (cs : Bytes)
      → Suffix src i (c ∷ d ∷ cs)
      → NumberRead f hex (i + 1) (d ∷ cs)
      → NumberRead f hex (i + 1 + 1) cs
      → NumberRead (suc f) hex i (c ∷ d ∷ cs)
  NumberRead-cons f hex i c d cs s ih ih' =
      rw
        (
          number_loop_round,
          number_step-cons hex i c (d ∷ cs) s,
          skip_sign_lem (i + 1) (d ∷ cs) (Suffix-tail src i c (d ∷ cs) s),
        )
        (rw (number_len-cons hex c d cs) (ground arith))

  pub number_loop_lem :
      (f : ℕ) (hex : Bool) (i : ℕ) (rest : Bytes)
      → Suffix src i rest
      → length rest ≤ f
      → NumberRead f hex i rest
  number_loop_lem f hex i [] s h = NumberRead-nil f hex i
  number_loop_lem zero hex i (c ∷ cs) s h = absurd (omega arith)
  number_loop_lem (suc f) hex i (c ∷ []) s h =
      NumberRead-last f hex i c s (NumberRead-nil f hex (i + 1))
  number_loop_lem (suc f) hex i (c ∷ d ∷ cs) s h =
      let s' = Suffix-tail src i c (d ∷ cs) s in
      let s'' = Suffix-tail src (i + 1) d cs s' in
      NumberRead-cons f hex i c d cs s (number_loop_lem f hex (i + 1) (d ∷ cs) s' (omega arith))
        (number_loop_lem f hex (i + 1 + 1) cs s'' (omega arith))

-- Signs `=` close nothing, so a search goes on behind them.
long_len_skip :
    (level : ℕ) (cs : Bytes)
    → let n = span_len (λ c. c == b'=') cs in long_len level cs ≡ n + long_len level (drop n cs)
unfolding long_len span_len
long_len_skip level [] = omega arith
long_len_skip level (c ∷ cs) = ground (arith, long_len_skip level cs)

module _ (src : Bytes) (level : ℕ) where
  -- The loop stands where the long string ends.
  abbrev pub LongRead : ℕ → ℕ → Bytes → Type 0
  LongRead f i rest =
      long_loop f level (state src i rest)
      ≡ state src (i + long_len level rest) (drop (long_len level rest) rest)

  LongRead-nil : (f i : ℕ) → LongRead f i []
  unfolding long_loop long_len
  LongRead-nil zero i = ground arith
  LongRead-nil (suc f) i = ground arith

  LongRead-cons :
      (f i c : ℕ) (cs : Bytes)
      → Suffix src i (c ∷ cs)
      → LongRead f (i + 1) cs
      → let n = span_len (λ c. c == b'=') cs in
        LongRead f (i + 1 + n) (drop n cs) → LongRead (suc f) i (c ∷ cs)
  unfolding long_loop long_len
  LongRead-cons f i c cs s ih ih' =
      let s' = Suffix-tail src i c cs s in
      let n = span_len (λ c. c == b'=') cs in
      let s'' = Suffix-drop src (i + 1) cs n s' (span_len-le _ cs) in
      rw (advance-cons src i c cs s, equals_loop_lem (length src) 0 src (i + 1) cs s' (omega arith))
        (ground (
          arith,
          advance-state src (i + 1 + n) (drop n cs) s'',
          ahead-head (drop n cs) b']',
          drop-drop 1 n cs,
          drop-drop (long_len level (drop n cs)) n cs,
          long_len_skip level cs,
        ))

  pub long_loop_lem :
      (f i : ℕ) (rest : Bytes) → Suffix src i rest → length rest ≤ f → LongRead f i rest
  long_loop_lem zero i [] s h = LongRead-nil zero i
  long_loop_lem zero i (c ∷ cs) s h = absurd (omega arith)
  long_loop_lem (suc f) i [] s h = LongRead-nil (suc f) i
  long_loop_lem (suc f) i (c ∷ cs) s h =
      let s' = Suffix-tail src i c cs s in
      let n = span_len (λ c. c == b'=') cs in
      let s'' = Suffix-drop src (i + 1) cs n s' (span_len-le _ cs) in
      LongRead-cons f i c cs s (long_loop_lem f (i + 1) cs s' (omega arith))
        (long_loop_lem f (i + 1 + n) (drop n cs) s'' (omega (arith, length-drop n cs)))

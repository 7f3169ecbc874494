-- ===== src/Lexer/Words.antt =====
-- `readIdent`, `readNumber` and `readComment` of lexer/lexer.go return the token and the state that
-- `Lexer.Scan` gives.
use lugo.Base.{
  ℕ, suc, ◌+◌, ◌-◌, ◌≡◌, refl, true, false, ◌&&◌, ◌||◌, [], ◌∷◌, Bytes, length, take, drop, head_or,
  arith, leb, ◌==◌, Bool-cases, inl, inr, drop-drop_to,
}
use lugo.Token.{Kind}
use lugo.Lexer.Chars.{is_ident}
use lugo.Lexer.Readers.{read_ident, read_number, read_comment, keywords, find_kind}
use lugo.Lexer.State.{
  state, ahead, Suffix, Suffix-tail, Suffix-drop, Suffix-ahead, advance-cons, advance-state,
  ahead-head, seek-state, peek-cons, get_or-Suffix,
}
use lugo.Lexer.Spec.{span_len, number_len, before_len, bracket_scan, comment_len}
use lugo.Lexer.Bounds.{span_len-le}
use lugo.Lexer.Consume.{ident_loop_lem}
use lugo.Lexer.Loops.{number_loop_lem}
use lugo.Lexer.Scan.{numeral_len}
use lugo.Lexer.Reads.{taken, emit-taken, read_long_string-state, read_line_comment-state}

module _ (src : Bytes) (i c : ℕ) (cs : Bytes) (s : Suffix src i (c ∷ cs)) where
  here : Suffix src (i + 1) cs
  here = Suffix-tail src i c cs s

  pub read_ident-state : read_ident i (state src (i + 1) cs) ≡ (
      let n = span_len is_ident cs in
      taken src (i + 1) cs i (find_kind (c ∷ take n cs) keywords, n))
  unfolding read_ident
  read_ident-state =
      let n = span_len is_ident cs in
      let later = Suffix-drop src (i + 1) cs n here (span_len-le is_ident cs) in
      let width : i + 1 + n - i ≡ suc n = omega arith in
      let low : leb i (i + 1 + n) ≡ true = ground arith in
      let high : leb (i + 1 + n) (length src) ≡ true = ground (arith, later.total) in
      rw (
        here.left,
        ident_loop_lem cs (i + 1),
        seek-state src (i + 1) cs (i + 1 + n) (drop n cs) later,
        low,
        high,
        width,
        s.left,
      )

  pub read_number-state :
      read_number i (state src (i + 1) cs) ≡ taken src (i + 1) cs i (Kind.number, numeral_len c cs)
  unfolding read_number numeral_len
  read_number-state =
      let after = Suffix-ahead src (i + 1) cs here in
      rw (get_or-Suffix src i c cs s, advance-state src (i + 1) cs here)
        (elim (Bool-cases (c == b'0' && (head_or 0 cs == b'x' || head_or 0 cs == b'X'))) [
          | inr e ↦ rw (
            e,
            number_loop_lem src (length src) false (i + 1) cs here (omega (arith, here.total)),
          )
          | inl e ↦
              let one : ahead cs ≡ 1 = ground (arith, ahead-head cs b'x', ahead-head cs b'X') in
              let read =
                number_loop_lem src (length src) true (i + 1 + ahead cs) (drop 1 cs) after
                  (omega (arith, after.total)) in
              let n = number_len true (drop 1 cs) in
              rw (e, read, one)
                (emit-taken src (i + 1) cs i Kind.number (suc n) (omega arith)
                  (drop-drop_to n 1 (suc n) cs (omega arith)))
        ])

-- The comment behind `--`, where the second `-` is at `i` and the first at `start`.
module _ (src : Bytes) (start i d : ℕ) where
  pub read_comment-state :
      (body : Bytes)
      → Suffix src i (d ∷ body)
      → read_comment start (state src i (d ∷ body))
        ≡ taken src i (d ∷ body) start (Kind.comment, comment_len (d ∷ body))
  unfolding read_comment comment_len
  read_comment-state [] s =
      let s' = Suffix-tail src i d [] s in
      rw (advance-cons src i d [] s, read_line_comment-state src (i + 1) [] s' start)
        (emit-taken src i (d ∷ []) start Kind.comment (suc (before_len b'\n' [])) (omega arith)
          refl)
  read_comment-state (b ∷ bs) s =
      let s' = Suffix-tail src i d (b ∷ bs) s in
      let s'' = Suffix-tail src (i + 1) b bs s' in
      rw
        (
          advance-cons src i d (b ∷ bs) s,
          advance-cons src (i + 1) b bs s',
          peek-cons src (i + 1) b bs s',
          read_line_comment-state src (i + 1) (b ∷ bs) s' start,
          read_long_string-state src (i + 1 + 1) bs s'' _,
        )
        (elim (Bool-cases (b == b'[' && (head_or 0 bs == b'[' || head_or 0 bs == b'='))) [
          | inr e ↦ rw e (
              emit-taken src i (d ∷ b ∷ bs) start Kind.comment (suc (before_len b'\n' (b ∷ bs)))
                (omega arith) refl)
          | inl e ↦ rw e (
              emit-taken src i (d ∷ b ∷ bs) start Kind.comment (suc (suc (bracket_scan bs).1))
                (omega arith) refl)
        ])

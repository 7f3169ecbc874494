-- ===== src/Lexer/Reads.antt =====
-- Each reader of lexer/lexer.go, started behind the first byte of its token, returns the token and
-- the state that `Lexer.Scan` gives.
use lugo.Base.{
  ℕ, suc, ◌+◌, ◌≤◌, ◌≡◌, refl, false, [], ◌∷◌, Bytes, length, drop, head_or, arith, ◌==◌,
  Bool-cases, inl, inr, drop-drop_to,
}
use lugo.Token.{Kind, Token}
use lugo.Lexer.Machine.{Lexer, seek}
use lugo.Lexer.Readers.{
  is_space, skip_whitespace, emit, read_string, read_backtick_string, read_long_string,
  read_line_comment, line_end, place,
}
use lugo.Lexer.State.{
  state, ahead, Suffix, Suffix-drop, Suffix-ahead, advance-state, ahead-head, seek-state,
  get_or-Suffix,
}
use lugo.Lexer.Spec.{span_len, string_len, through_len, before_len, long_len, bracket_scan}
use lugo.Lexer.Bounds.{span_len-le, string_len-le, through_len-le, before_len-le}
use lugo.Lexer.Consume.{
  space_loop_lem, string_loop_lem, backtick_loop_lem, index_byte_lem, equals_loop_lem,
}
use lugo.Lexer.Loops.{long_loop_lem}
use lugo.Lexer.Scan.{spaces}

-- A reader's answer: the token from `start` on, with `n` bytes of `cs`, which are left at `i`.
abbrev pub taken : Bytes → ℕ → Bytes → ℕ → Kind × ℕ → Token × Lexer
taken src i cs start r =
    (record { kind = r.0; start = start; end = i + r.1 }, state src (i + r.1) (drop r.1 cs))

pub emit-taken :
    (src : Bytes) (i : ℕ) (cs : Bytes) (start : ℕ) (k : Kind) (m : ℕ) {j : ℕ} {rest : Bytes}
    → j ≡ i + m
    → rest ≡ drop m cs
    → emit k start (state src j rest) ≡ taken src i cs start (k, m)
emit-taken src i cs start k m e e' = rw (e, e')

spaces_none : (cs : Bytes) → is_space (head_or 0 cs) ≡ false → spaces cs ≡ 0
unfolding spaces
spaces_none [] e = refl
spaces_none (c ∷ cs) e = rw e

module _ (src : Bytes) (i : ℕ) (cs : Bytes) where
  place_at :
      (later : Bytes) (j : ℕ) → Suffix src j later → place (state src i cs) j ≡ state src j later
  unfolding place
  place_at [] j s = ground (arith, s.total, s.fits)
  place_at (c ∷ ds) j s = ground (arith, s.total, s.fits, get_or-Suffix src j c ds s)

module _ (src : Bytes) (i : ℕ) (cs : Bytes) (s : Suffix src i cs) where
  seek-drop :
      (j n : ℕ)
      → j ≡ i + n
      → n ≤ length cs
      → seek (state src i cs) j ≡ state src (i + n) (drop n cs)
  seek-drop j n e h = rw e (seek-state src i cs (i + n) (drop n cs) (Suffix-drop src i cs n s h))

  pub skip_whitespace-state :
      skip_whitespace (state src i cs) ≡ state src (i + spaces cs) (drop (spaces cs) cs)
  unfolding skip_whitespace spaces
  skip_whitespace-state = elim (Bool-cases (is_space (head_or 0 cs))) [
    | inl e ↦
        rw (e, s.left, space_loop_lem cs i)
          (seek-drop (i + span_len is_space cs) (span_len is_space cs) refl
            (span_len-le is_space cs))
    | inr e ↦ rw (e, spaces_none cs e) (ground arith)
  ]

  pub read_string-state :
      (start quote : ℕ)
      → read_string start quote (state src i cs)
        ≡ taken src i cs start (Kind.string, string_len quote cs)
  unfolding read_string
  read_string-state start quote = rw (
    s.left,
    string_loop_lem quote cs i,
    seek-drop (i + string_len quote cs) (string_len quote cs) refl (string_len-le quote cs),
  )

  pub read_backtick_string-state :
      (start : ℕ)
      → read_backtick_string start (state src i cs)
        ≡ taken src i cs start (Kind.backtick_string, through_len b'`' cs)
  unfolding read_backtick_string
  read_backtick_string-state start = rw (
    s.left,
    backtick_loop_lem cs i,
    seek-drop (i + through_len b'`' cs) (through_len b'`' cs) refl (through_len-le b'`' cs),
  )

  pub read_long_string-state :
      (start : ℕ) → read_long_string start (state src i cs) ≡ taken src i cs start (bracket_scan cs)
  unfolding read_long_string bracket_scan
  read_long_string-state start =
      let n = span_len (λ c. c == b'=') cs in
      let s' = Suffix-drop src i cs n s (span_len-le _ cs) in
      let r = drop n cs in
      let s'' = Suffix-ahead src (i + n) r s' in
      rw
        (
          equals_loop_lem (length src) 0 src i cs s (omega (arith, s.total)),
          advance-state src (i + n) r s',
        )
        (elim (Bool-cases (head_or 0 r == b'[')) [
          | inr e ↦ rw e (emit-taken src i cs start Kind.illegal n refl refl)
          | inl e ↦
              let one : ahead r ≡ 1 = ahead-head r b'[' (omega arith) e in
              let zero_add : 0 + n ≡ n = omega arith in
              let body = drop (suc n) cs in
              let same : drop 1 r ≡ body = drop-drop_to 1 n (suc n) cs (omega arith) in
              let read =
                long_loop_lem src n (length src) (i + n + ahead r) (drop 1 r) s''
                  (omega (arith, s''.total)) in
              rw (e, zero_add, read, one, same)
                (emit-taken src i cs start Kind.string (suc (n + long_len n body)) (omega arith) (
                  drop-drop_to (long_len n body) (suc n) (suc (n + long_len n body)) cs
                    (omega arith)))
        ])

  line_end-state : line_end (state src i cs) ≡ i + before_len b'\n' cs
  unfolding line_end
  line_end-state =
      rw s.left (ground (arith, s.total, s.fits, index_byte_lem b'\n' cs, before_len-le b'\n' cs))

  place-state :
      (n : ℕ) → n ≤ length cs → place (state src i cs) (i + n) ≡ state src (i + n) (drop n cs)
  unfolding place
  place-state n h = place_at src i cs (drop n cs) (i + n) (Suffix-drop src i cs n s h)

  pub read_line_comment-state :
      (start : ℕ)
      → read_line_comment start (state src i cs)
        ≡ taken src i cs start (Kind.comment, before_len b'\n' cs)
  unfolding read_line_comment
  read_line_comment-state start =
      rw (line_end-state, place-state (before_len b'\n' cs) (before_len-le b'\n' cs))

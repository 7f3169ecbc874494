-- ===== src/Lexer/End.antt =====
-- When `Next` of lexer/lexer.go returns `EOF`.
use lugo.Base.{
  ℕ, zero, suc, ◌+◌, ◌≤◌, ◌≡◌, ◌⊎◌, ◌↔◌, ◌||◌, ◌&&◌, refl, ap, sym, ◌∙◌, Bool, true, false, List,
  [], ◌∷◌, some, Bytes, length, get_elem?, drop, head_or, drop-drop, arith, ◌==◌, if◌then◌else◌,
  Bool-cases, ==_iff, inl, inr,
}
use lugo.Token.{Kind}
use lugo.Token.Codes.{kind_code, kind_code_injective}
use lugo.Lexer.Chars.{is_letter, is_digit}
use lugo.Lexer.Machine.{Lexer}
use lugo.Lexer.Readers.{keywords, find_kind}
use lugo.Lexer.Scanner.{next}
use lugo.Lexer.Spec.{bracket_scan}
use lugo.Lexer.Scan.{spaces, less_scan, greater_scan, dot_scan, word_scan, scan_after, scan}
use lugo.Lexer.Valid.{IsValid, left_of, next-left, next-Suffix}

unfoldable pub is_eof : Kind → Bool
unfolding kind_code
is_eof k = kind_code k == kind_code Kind.eof

-- A kind other than the end.
record IsToken (r : Kind × ℕ) : Type 0 where
  ne_eof : is_eof r.0 ≡ false

infix 1 test◌yes◌no◌
-- What holds of both branches.
test◌yes◌no◌ : (b : Bool) {u v : Kind × ℕ} → IsToken u → IsToken v → IsToken (if b then u else v)
test true yes p no q = p
test false yes p no q = q

-- No kind of a table of words is the end.
no_eof : List (Bytes × Kind) → Bool
unfolding is_eof
no_eof [] = true
no_eof ((w, k) ∷ ws) = (if is_eof k then false else true) && no_eof ws

find_kind-is_eof :
    (s : Bytes) (ws : List (Bytes × Kind)) → no_eof ws ≡ true → is_eof (find_kind s ws) ≡ false
unfolding no_eof find_kind
find_kind-is_eof s [] h = refl
find_kind-is_eof s ((w, k) ∷ ws) h = ground (arith, find_kind-is_eof s ws)

no_eof-keywords : no_eof keywords ≡ true
unfolding no_eof
no_eof-keywords = refl

is_token : {n : ℕ} (k : Kind) → is_eof k ≡ false → IsToken (k, n)
is_token k p = record { ne_eof = p }

bracket_scan-IsToken : (cs : Bytes) → IsToken (bracket_scan cs)
unfolding bracket_scan is_eof
bracket_scan-IsToken cs = record { ne_eof = ground arith }

dot_scan-IsToken : (cs : Bytes) → IsToken (dot_scan cs)
unfolding dot_scan is_eof
dot_scan-IsToken cs =
    test head_or 0 cs == b'.'
    yes test head_or 0 (drop 1 cs) == b'.'
      yes is_token Kind.vararg refl
      no is_token Kind.concat refl
    no test is_digit (head_or 0 cs)
    yes is_token Kind.number refl
    no is_token Kind.dot refl

word_scan-IsToken : (c : ℕ) (cs : Bytes) → IsToken (word_scan c cs)
unfolding word_scan is_eof
word_scan-IsToken c cs =
    test is_letter c
    yes record { ne_eof = find_kind-is_eof _ keywords no_eof-keywords }
    no test is_digit c
    yes is_token Kind.number refl
    no is_token Kind.illegal refl

scan_after-IsToken : (c : ℕ) (cs : Bytes) → IsToken (scan_after c cs)
unfolding scan_after less_scan greater_scan is_eof
scan_after-IsToken c cs =
    test c == b'+'
    yes is_token Kind.plus refl
    no test c == b'*'
    yes is_token Kind.asterisk refl
    no test c == b'%'
    yes is_token Kind.modulo refl
    no test c == b'^'
    yes is_token Kind.caret refl
    no test c == b'&'
    yes is_token Kind.bit_and refl
    no test c == b'|'
    yes is_token Kind.bit_or refl
    no test c == b'#'
    yes is_token Kind.hash refl
    no test c == b'('
    yes is_token Kind.l_paren refl
    no test c == b')'
    yes is_token Kind.r_paren refl
    no test c == b'{'
    yes is_token Kind.l_brace refl
    no test c == b'}'
    yes is_token Kind.r_brace refl
    no test c == b']'
    yes is_token Kind.r_brack refl
    no test c == b';'
    yes is_token Kind.semicolon refl
    no test c == b','
    yes is_token Kind.comma refl
    no test c == b'-'
    yes (test head_or 0 cs == b'-' yes is_token Kind.comment refl no is_token Kind.minus refl)
    no test c == b'/'
    yes (test head_or 0 cs == b'/' yes is_token Kind.floor_slash refl no is_token Kind.slash refl)
    no test c == b'='
    yes (test head_or 0 cs == b'=' yes is_token Kind.eq refl no is_token Kind.assign refl)
    no test c == b'~'
    yes (test head_or 0 cs == b'=' yes is_token Kind.not_eq refl no is_token Kind.bit_xor refl)
    no test c == b'<'
    yes (test head_or 0 cs == b'='
        yes is_token Kind.less_eq refl
        no test head_or 0 cs == b'<'
        yes is_token Kind.shift_left refl
        no is_token Kind.less refl)
    no test c == b'>'
    yes (test head_or 0 cs == b'='
        yes is_token Kind.greater_eq refl
        no test head_or 0 cs == b'>'
        yes is_token Kind.shift_right refl
        no is_token Kind.greater refl)
    no test c == b':'
    yes (test head_or 0 cs == b':' yes is_token Kind.double_colon refl no is_token Kind.colon refl)
    no test c == b'.'
    yes dot_scan-IsToken cs
    no test c == b'\'' || c == b'"'
    yes is_token Kind.string refl
    no test c == b'`'
    yes is_token Kind.backtick_string refl
    no test c == b'['
    yes (test head_or 0 cs == b'[' || head_or 0 cs == b'='
        yes bracket_scan-IsToken cs
        no is_token Kind.l_brack refl)
    no word_scan-IsToken c cs

scan-is_eof : (cs : Bytes) → is_eof (scan cs).0 ≡ (head_or 0 cs == 0)
unfolding scan is_eof
scan-is_eof [] = refl
scan-is_eof (c ∷ cs) = elim (Bool-cases (c == 0)) [
  | inl e ↦ rw e refl
  | inr e ↦ rw e (scan_after-IsToken c cs).ne_eof
]

head_or-zero :
    (i : ℕ) (cs : Bytes)
    → i ≤ length cs
    → ((head_or 0 (drop i cs) == 0) ≡ true) ↔ ((i ≡ length cs) ⊎ (get_elem? cs i ≡ some 0))
head_or-zero zero [] h = (λ e. inl refl, λ e. refl)
head_or-zero (suc i) [] h = elim h [ ]
head_or-zero zero (c ∷ cs) h =
    (λ e. inr (ground arith), λ e. elim e [ inl n ↦ absurd (omega arith) | inr f ↦ ground arith ])
head_or-zero (suc i) (c ∷ cs) h =
    let (there, back) = head_or-zero i cs (omega arith) in
    (
      λ e. elim (there e) [ inl n ↦ inl (omega arith) | inr f ↦ inr f ],
      λ e. elim e [ inl n ↦ back (inl (omega arith)) | inr f ↦ back (inr f) ],
    )

is_eof_iff : (k : Kind) → (is_eof k ≡ true) ↔ (k ≡ Kind.eof)
unfolding is_eof
is_eof_iff k = (λ e. kind_code_injective k Kind.eof ((==_iff _ _).0 e), λ e. rw e)

-- From a valid state, `Next` returns `EOF` exactly when the token would begin at the end of the source or at a NUL byte.
pub next_eof_iff :
    (l : Lexer)
    → IsValid l
    → let t = (next l).0 in
      (t.kind ≡ Kind.eof) ↔ ((t.start ≡ length l.source) ⊎ (get_elem? l.source t.start ≡ some 0))
next_eof_iff l v =
    let w = spaces (left_of l) in
    let r = drop w (left_of l) in
    let total = (next-Suffix l v).total in
    let inside : l.cursor + w ≤ length l.source = omega arith in
    let (there, back) = head_or-zero (l.cursor + w) l.source inside in
    let kinds = is_eof_iff (scan r).0 in
    let same : is_eof (scan r).0 ≡ (head_or 0 (drop (l.cursor + w) l.source) == 0) =
      scan-is_eof r ∙ ap (λ cs. head_or 0 cs == 0) (drop-drop w l.cursor l.source) in
    rw (next-left l v) (λ e. there (sym same ∙ kinds.1 e), λ e. kinds.0 (same ∙ back e))

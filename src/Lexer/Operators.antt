-- ===== src/Lexer/Operators.antt =====
-- How `Next` of lexer/lexer.go reads operators and delimiters.
use lugo.Base.{
  ℕ, zero, suc, ◌≡◌, ◌||◌, ◌&&◌, ◌∙◌, Bool, true, false, List, [], ◌∷◌, ◌++◌, some, Bytes, length,
  head_or, get_elem?, arith, ◌==◌,
}
use mathlib.Core.Path.{subst}
use mathlib.Core.Option.{some-injective}
use lugo.Token.{Kind}
use lugo.Lexer.Chars.{is_digit}
use lugo.Lexer.Machine.{Lexer}
use lugo.Lexer.Readers.{codes, is_space}
use lugo.Lexer.Scanner.{next}
use lugo.Lexer.Scan.{scan}
use lugo.Lexer.Valid.{IsValid, left_of}
use lugo.Lexer.Literals.{token_at, next-scan}

-- The spellings of the operators and delimiters, as the comments of token/token.go give them.
abbrev pub operators : List (Bytes × Kind)
operators =
    (codes "+", Kind.plus)
    ∷ (codes "-", Kind.minus)
    ∷ (codes "*", Kind.asterisk)
    ∷ (codes "/", Kind.slash)
    ∷ (codes "//", Kind.floor_slash)
    ∷ (codes "%", Kind.modulo)
    ∷ (codes "^", Kind.caret)
    ∷ (codes "#", Kind.hash)
    ∷ (codes "&", Kind.bit_and)
    ∷ (codes "|", Kind.bit_or)
    ∷ (codes "~", Kind.bit_xor)
    ∷ (codes "<<", Kind.shift_left)
    ∷ (codes ">>", Kind.shift_right)
    ∷ (codes "..", Kind.concat)
    ∷ (codes "==", Kind.eq)
    ∷ (codes "~=", Kind.not_eq)
    ∷ (codes "<", Kind.less)
    ∷ (codes "<=", Kind.less_eq)
    ∷ (codes ">", Kind.greater)
    ∷ (codes ">=", Kind.greater_eq)
    ∷ (codes "=", Kind.assign)
    ∷ (codes "(", Kind.l_paren)
    ∷ (codes ")", Kind.r_paren)
    ∷ (codes "{", Kind.l_brace)
    ∷ (codes "}", Kind.r_brace)
    ∷ (codes "[", Kind.l_brack)
    ∷ (codes "]", Kind.r_brack)
    ∷ (codes "::", Kind.double_colon)
    ∷ (codes ";", Kind.semicolon)
    ∷ (codes ":", Kind.colon)
    ∷ (codes ",", Kind.comma)
    ∷ (codes ".", Kind.dot)
    ∷ (codes "...", Kind.vararg)
    ∷ []

-- Some spelling of the table begins with `w` and the byte `d`.
abbrev pub begins : Bytes → Bytes → Bool
begins [] v = true
begins (c ∷ w) [] = false
begins (c ∷ w) (d ∷ v) = c == d && begins w v

abbrev pub any_begins : Bytes → List (Bytes × Kind) → Bool
any_begins w [] = false
any_begins w ((v, k) ∷ vs) = begins w v || any_begins w vs

-- A longer token begins with the operator `w` and the byte `d`: another operator, a comment, a
-- long bracket or a numeral.
abbrev pub grows : Bytes → ℕ → Bool
grows w d =
    any_begins (w ++ (d ∷ [])) operators
    || any_begins (w ++ (d ∷ []))
        ((codes "--", Kind.comment) ∷ (codes "[[", Kind.string) ∷ (codes "[=", Kind.string) ∷ [])
    || (begins w (codes ".") && begins (codes ".") w && is_digit d)

-- The entry `(w, k)` is read as it should be.
abbrev Reads : Bytes × Kind → Type 0
Reads (w, k) =
    (rest : Bytes)
    → grows w (head_or 0 rest) ≡ false
    → (scan (w ++ rest) ≡ (k, length w)) × (is_space (head_or 0 (w ++ rest)) ≡ false)

abbrev AllReads : List (Bytes × Kind) → Type 0
AllReads [] = Unit {0}
AllReads (x ∷ xs) = Reads x × AllReads xs

operators-Reads : AllReads operators
unfolding scan
operators-Reads = ground arith

AllReads-get :
    (xs : List (Bytes × Kind)) (i : ℕ) {w : Bytes} {k : Kind}
    → AllReads xs
    → get_elem? xs i ≡ some (w, k)
    → Reads (w, k)
AllReads-get [] i all e = cc
AllReads-get (x ∷ xs) zero all e = subst Reads (some-injective x _ e) all.0
AllReads-get (x ∷ xs) (suc i) all e = AllReads-get xs i all.1 e

-- From a valid state, every operator and delimiter that stands at the cursor is read by longest match: with bytes behind it that make no longer
-- token of it, the token has its kind and all its bytes.
pub next_operator :
    (l : Lexer) (i : ℕ) (w rest : Bytes) (k : Kind)
    → IsValid l
    → get_elem? operators i ≡ some (w, k)
    → left_of l ≡ w ++ rest
    → grows w (head_or 0 rest) ≡ false
    → (next l).0 ≡ token_at l k (length w)
next_operator l i w rest k v entry e alone =
    let (found, no_space) = AllReads-get operators i operators-Reads entry rest alone in
    next-scan l (w ++ rest) v e no_space ∙ rw found

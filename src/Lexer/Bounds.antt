-- ===== src/Lexer/Bounds.antt =====
-- What `Lexer.Spec` and `Lexer.Scan` consume is there to be consumed.
use lugo.Base.{
  ℕ, zero, suc, ◌≤◌, ◌≡◌, refl, Bool, true, false, ◌||◌, [], ◌∷◌, Bytes, length, drop, head_or,
  arith, ◌==◌, if◌then◌else◌, Bool-cases, inl, inr, length-drop,
}
use lugo.Base.{◌≢◌}
use Prim.Native.Nat.{zero-le}
use lugo.Token.{Kind}
use lugo.Lexer.Chars.{is_ident}
use lugo.Lexer.Readers.{is_space}
use lugo.Lexer.Scan.{
  spaces, numeral_len, word_scan, dot_scan, less_scan, greater_scan, choose, scan_after, scan,
}
use lugo.Lexer.Spec.{
  span_len, number_len, string_len, through_len, before_len, closes, long_len, bracket_scan,
  comment_len,
}

pub span_len-le : (p : ℕ → Bool) (cs : Bytes) → span_len p cs ≤ length cs
unfolding span_len
span_len-le p [] = omega arith
span_len-le p (c ∷ cs) = ground (arith, span_len-le p cs)

pub number_len-le : (hex : Bool) (cs : Bytes) → number_len hex cs ≤ length cs
unfolding number_len
number_len-le hex [] = omega arith
number_len-le hex (c ∷ []) = ground arith
number_len-le hex (c ∷ d ∷ cs) = ground (arith, number_len-le hex (d ∷ cs), number_len-le hex cs)

pub string_len-le : (quote : ℕ) (cs : Bytes) → string_len quote cs ≤ length cs
unfolding string_len
string_len-le quote [] = omega arith
string_len-le quote (c ∷ []) = ground arith
string_len-le quote (c ∷ d ∷ cs) =
    ground (arith, string_len-le quote (d ∷ cs), string_len-le quote cs)

pub through_len-le : (b : ℕ) (cs : Bytes) → through_len b cs ≤ length cs
unfolding through_len
through_len-le b [] = omega arith
through_len-le b (c ∷ cs) = ground (arith, through_len-le b cs)

pub before_len-le : (b : ℕ) (cs : Bytes) → before_len b cs ≤ length cs
unfolding before_len
before_len-le b cs = span_len-le _ cs

-- A first byte that is not the default is there.
pub head-le :
    (cs : Bytes) (n b : ℕ) → (head_or 0 (drop n cs) == b) ≡ true → 1 ≤ b → suc n ≤ length cs
head-le [] zero b e h = ground arith
head-le [] (suc n) b e h = ground arith
head-le (c ∷ cs) zero b e h = omega arith
head-le (c ∷ cs) (suc n) b e h = omega (arith, head-le cs n b e h)

pub closes-le : (level : ℕ) (cs : Bytes) → closes level cs ≡ true → suc level ≤ length cs
closes-le level cs e = ground (arith, head-le cs (span_len (λ c. c == b'=') cs) b']')

pub long_len-le : (level : ℕ) (cs : Bytes) → long_len level cs ≤ length cs
unfolding long_len
long_len-le level [] = omega arith
long_len-le level (c ∷ cs) = elim (Bool-cases (closes level cs)) [
  | inl e ↦ ground (arith, e, closes-le level cs e, long_len-le level cs)
  | inr e ↦ ground (arith, e, long_len-le level cs)
]

pub bracket_scan-le : (cs : Bytes) → (bracket_scan cs).1 ≤ length cs
unfolding bracket_scan
bracket_scan-le cs =
    let n = span_len (λ c. c == b'=') cs in
    ground (
      arith,
      span_len-le (λ c. c == b'=') cs,
      head-le cs n b'[',
      length-drop (suc n) cs,
      long_len-le n (drop (suc n) cs),
    )

pub comment_len-le : (cs : Bytes) → 1 ≤ length cs → comment_len cs ≤ length cs
unfolding comment_len
comment_len-le [] h = elim h [ ]
comment_len-le (c ∷ []) h = ground (arith, before_len-le b'\n' [])
comment_len-le (c ∷ d ∷ cs) h = ground (arith, before_len-le b'\n' (d ∷ cs), bracket_scan-le cs)

pub spaces-le : (cs : Bytes) → spaces cs ≤ length cs
unfolding spaces
spaces-le cs = span_len-le is_space cs

numeral_len-le : (c : ℕ) (cs : Bytes) → numeral_len c cs ≤ length cs
unfolding numeral_len
numeral_len-le c [] = ground (arith, number_len-le false [])
numeral_len-le c (d ∷ cs) = ground (arith, number_len-le false (d ∷ cs), number_len-le true cs)

word_scan-le : (c : ℕ) (cs : Bytes) → (word_scan c cs).1 ≤ length cs
unfolding word_scan
word_scan-le c cs = ground (arith, span_len-le is_ident cs, numeral_len-le c cs)

dot_scan-le : (cs : Bytes) → (dot_scan cs).1 ≤ length cs
unfolding dot_scan
dot_scan-le [] = ground arith
dot_scan-le (d ∷ []) = ground (arith, numeral_len-le b'.' (d ∷ []))
dot_scan-le (d ∷ e ∷ cs) = ground (arith, numeral_len-le b'.' (d ∷ e ∷ cs))

-- A two-byte operator has its second byte in front of it.
choose-le :
    (cs : Bytes) (b : ℕ) (k j : Kind) → 1 ≤ b → (choose (head_or 0 cs == b) k j).1 ≤ length cs
choose-le [] b k j h = ground arith
choose-le (d ∷ cs) b k j h = ground arith

less_scan-le : (cs : Bytes) → (less_scan (head_or 0 cs)).1 ≤ length cs
unfolding less_scan
less_scan-le [] = ground arith
less_scan-le (d ∷ cs) = ground arith

greater_scan-le : (cs : Bytes) → (greater_scan (head_or 0 cs)).1 ≤ length cs
unfolding greater_scan
greater_scan-le [] = ground arith
greater_scan-le (d ∷ cs) = ground arith

record Within (n : ℕ) (r : Kind × ℕ) : Type 0 where
  fits : r.1 ≤ n

infix 1 test◌yes◌no◌
-- What holds of both branches.
test◌yes◌no◌ :
    {n : ℕ} (b : Bool) {u v : Kind × ℕ} → Within n u → Within n v → Within n (if b then u else v)
test true yes p no q = p
test false yes p no q = q

alone : {n : ℕ} (k : Kind) → Within n (k, 0)
alone k = record { fits = zero-le }

minus-Within :
    (cs : Bytes)
    → Within
        (length cs)
        (if head_or 0 cs == b'-' then (Kind.comment, comment_len cs) else (Kind.minus, 0))
minus-Within cs = elim (Bool-cases (head_or 0 cs == b'-')) [
  | inl e ↦ rw e (record { fits = comment_len-le cs (head-le cs 0 b'-' e (omega arith)) })
  | inr e ↦ rw e (alone Kind.minus)
]

scan_after-Within : (c : ℕ) (cs : Bytes) → Within (length cs) (scan_after c cs)
unfolding scan_after
scan_after-Within c cs =
    test c == b'+'
    yes alone Kind.plus
    no test c == b'*'
    yes alone Kind.asterisk
    no test c == b'%'
    yes alone Kind.modulo
    no test c == b'^'
    yes alone Kind.caret
    no test c == b'&'
    yes alone Kind.bit_and
    no test c == b'|'
    yes alone Kind.bit_or
    no test c == b'#'
    yes alone Kind.hash
    no test c == b'('
    yes alone Kind.l_paren
    no test c == b')'
    yes alone Kind.r_paren
    no test c == b'{'
    yes alone Kind.l_brace
    no test c == b'}'
    yes alone Kind.r_brace
    no test c == b']'
    yes alone Kind.r_brack
    no test c == b';'
    yes alone Kind.semicolon
    no test c == b','
    yes alone Kind.comma
    no test c == b'-'
    yes minus-Within cs
    no test c == b'/'
    yes record { fits = choose-le cs b'/' Kind.floor_slash Kind.slash (omega arith) }
    no test c == b'='
    yes record { fits = choose-le cs b'=' Kind.eq Kind.assign (omega arith) }
    no test c == b'~'
    yes record { fits = choose-le cs b'=' Kind.not_eq Kind.bit_xor (omega arith) }
    no test c == b'<'
    yes record { fits = less_scan-le cs }
    no test c == b'>'
    yes record { fits = greater_scan-le cs }
    no test c == b':'
    yes record { fits = choose-le cs b':' Kind.double_colon Kind.colon (omega arith) }
    no test c == b'.'
    yes record { fits = dot_scan-le cs }
    no test c == b'\'' || c == b'"'
    yes record { fits = string_len-le c cs }
    no test c == b'`'
    yes record { fits = through_len-le b'`' cs }
    no test c == b'['
    yes (test head_or 0 cs == b'[' || head_or 0 cs == b'='
        yes record { fits = bracket_scan-le cs }
        no alone Kind.l_brack)
    no record { fits = word_scan-le c cs }

-- A token is made of bytes that are left, and of at least one unless it is the end.
pub scan_bounds :
    (cs : Bytes) → ((scan cs).1 ≤ length cs) × ((scan cs).0 ≢ Kind.eof → 1 ≤ (scan cs).1)
unfolding scan
scan_bounds [] = (omega arith, λ h. absurd (h refl))
scan_bounds (c ∷ cs) = elim (Bool-cases (c == 0)) [
  | inl e ↦ rw e (omega arith, λ h. absurd (h refl))
  | inr e ↦ rw e (omega (arith, (scan_after-Within c cs).fits), λ h. omega arith)
]

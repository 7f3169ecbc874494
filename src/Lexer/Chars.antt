-- ===== src/Lexer/Chars.antt =====
-- The table `charProps` of lexer/lexer.go and what its flags mean.
use lugo.Base.{ℕ, ◌-◌, ◌≡◌, Bool, not, ◌||◌, bit_and, bit_or, arith, within, ◌==◌, if◌then◌else◌}

abbrev pub prop_ident : ℕ
prop_ident = 1

abbrev pub prop_digit : ℕ
prop_digit = 2

abbrev pub prop_hex : ℕ
prop_hex = 4

abbrev pub prop_letter : ℕ
prop_letter = 8

-- The entry of `charProps` that `init` computes, one assignment after another; `p &^= propHex`
-- on a byte is `p & (255 - propHex)`.
unfoldable pub char_props : ℕ → ℕ
char_props i =
    let letters =
      if within b'a' b'z' i || within b'A' b'Z' i || i == b'_'
      then bit_or 0 (bit_or prop_letter (bit_or prop_ident prop_hex))
      else 0 in
    let digits =
      if within b'0' b'9' i
      then bit_or letters (bit_or prop_digit (bit_or prop_ident prop_hex))
      else letters in
    if within b'g' b'z' i || within b'G' b'Z' i || i == b'_'
    then bit_and digits (255 - prop_hex)
    else digits

-- `charProps[c] & p != 0`
unfoldable pub has_prop : ℕ → ℕ → Bool
unfolding char_props
has_prop p c = not (bit_and (char_props c) p == 0)

abbrev pub is_letter : ℕ → Bool
is_letter c = within b'a' b'z' c || within b'A' b'Z' c || c == b'_'

abbrev pub is_digit : ℕ → Bool
is_digit c = within b'0' b'9' c

abbrev pub is_hex : ℕ → Bool
is_hex c = is_digit c || within b'a' b'f' c || within b'A' b'F' c

abbrev pub is_ident : ℕ → Bool
is_ident c = is_letter c || is_digit c

-- What the flags that `init` computes mean for every byte: propLetter a letter or `_`, propDigit a
-- decimal digit, propIdent a letter, digit or `_`, and propHex a hexadecimal digit.
pub has_prop_meaning :
    (c : ℕ)
    → (has_prop prop_letter c ≡ is_letter c)
      × (has_prop prop_digit c ≡ is_digit c)
      × (has_prop prop_ident c ≡ is_ident c)
      × (has_prop prop_hex c ≡ is_hex c)
unfolding has_prop
has_prop_meaning c = (ground arith, ground arith, ground arith, ground arith)

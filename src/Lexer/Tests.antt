-- ===== src/Lexer/Tests.antt =====
-- Runs of the scanner on small sources, and the theorems about it at such sources.
use lugo.Base.{
  ℕ, zero, suc, ◌+◌, ◌≤◌, ◌<◌, ◌≡◌, ◌≢◌, ◌⊎◌, ◌↔◌, inr, refl, false, List, [], ◌∷◌, ◌++◌, some,
  Bytes, length, drop, slice, head_or, get_elem?, arith,
}
use lugo.Token.{Kind}
use lugo.Lexer.Chars.{
  prop_letter, prop_digit, prop_ident, prop_hex, has_prop, is_letter, is_digit, is_ident, is_hex,
  has_prop_meaning,
}
use lugo.Lexer.Machine.{Lexer, new, reset, advance, peek, seek, has_bom}
use lugo.Lexer.Readers.{
  codes, is_space, space_loop, skip_whitespace, find_kind, ident_loop, read_ident, skip_sign,
  number_step, number_loop, read_number, string_loop, read_string, backtick_loop,
  read_backtick_string, equals_loop, long_loop, read_long_string, line_end, place,
  read_line_comment, read_comment,
}
use lugo.Lexer.Scanner.{pair, next_less, next_greater, next_dot, next_word, dispatch, next}
use lugo.Lexer.Spec.{span_len}
use lugo.Lexer.State.{state, Suffix-start}
use lugo.Lexer.Scan.{spaces, scan}
use lugo.Lexer.Reads.{taken}
use lugo.Lexer.Next.{next-state}
use lugo.Lexer.Valid.{IsValid, left_of, new-IsValid, next-IsValid}
use lugo.Lexer.Tokens.{AllBytes, next_bounds, next_gap}
use lugo.Lexer.End.{next_eof_iff}
use lugo.Lexer.Keywords.{IsKindOf}
use lugo.Lexer.Literals.{token_at, escape, next_maximal_word, next_quoted}
use lugo.Lexer.Operators.{next_operator}
use lugo.Lexer.Brackets.{
  next_long_string, next_line_comment, next_long_comment, next_unopened_bracket,
}

-- The kinds of the first tokens.
run : ℕ → Lexer → List Kind
unfolding next dispatch pair next_less next_greater next_dot next_word advance peek seek has_prop
    space_loop skip_whitespace find_kind ident_loop read_ident skip_sign number_step number_loop
    read_number string_loop read_string backtick_loop read_backtick_string equals_loop long_loop
    read_long_string line_end place read_line_comment read_comment
run zero l = []
run (suc f) l = let (t, m) = next l in t.kind ∷ run f m

begun : Bytes → Lexer
unfolding new reset advance has_bom
begun src = new src

run_source :
    run 11 (begun (codes "x = 0x1F.p+2 --[=[ a ]] ]=] ..'b\\'c' ~= [[\n]]"))
    ≡ Kind.ident ∷ Kind.assign ∷ Kind.number ∷ Kind.comment ∷ Kind.concat ∷ Kind.string
      ∷ Kind.not_eq ∷ Kind.string ∷ Kind.eof ∷ Kind.eof ∷ Kind.eof ∷ []
unfolding run begun
run_source = refl

-- The words behind a false long bracket are read as code.
run_false_bracket :
    run 4 (begun (codes "--[== todo\nx")) ≡ Kind.comment ∷ Kind.ident ∷ Kind.ident ∷ Kind.eof ∷ []
unfolding run begun
run_false_bracket = refl

-- A NUL byte hides what follows it.
run_nul : run 3 (begun (b'x' ∷ 0 ∷ b'y' ∷ [])) ≡ Kind.ident ∷ Kind.eof ∷ Kind.eof ∷ []
unfolding run begun
run_nul = refl

valid : (src : Bytes) → length src < 4294967296 → IsValid (new src)
valid src h = (new-IsValid src h).0

abbrev code : Bytes
code = codes "  local x"

next-state_example :
    let w = spaces code in
    next (state code 0 code) ≡ taken code (0 + w) (drop w code) (0 + w) (scan (drop w code))
next-state_example = next-state code 0 code (Suffix-start code (omega arith))

next-IsValid_example : IsValid (next (new code)).1
next-IsValid_example = next-IsValid (new code) (valid code (omega arith))

next_bounds_example :
    let l = new code in
    let (t, m) = next l in
    (l.cursor ≤ t.start)
    × (t.start ≤ t.end)
    × (t.end ≤ length l.source)
    × (m.cursor ≡ t.end)
    × (m.source ≡ l.source)
    × (t.kind ≢ Kind.eof → t.start < t.end)
next_bounds_example = next_bounds (new code) (valid code (omega arith))

next_gap_example :
    let l = new code in
    let t = (next l).0 in
    AllBytes is_space (slice l.cursor t.start l.source)
    × (is_space (head_or 0 (drop t.start l.source)) ≡ false)
next_gap_example = next_gap (new code) (valid code (omega arith))

has_prop_meaning_example :
    let c : ℕ = b'g' in
    (has_prop prop_letter c ≡ is_letter c)
    × (has_prop prop_digit c ≡ is_digit c)
    × (has_prop prop_ident c ≡ is_ident c)
    × (has_prop prop_hex c ≡ is_hex c)
has_prop_meaning_example = has_prop_meaning b'g'

abbrev nul : Bytes
nul = b' ' ∷ 0 ∷ b'y' ∷ []

next_eof_iff_example :
    let l = new nul in
    let t = (next l).0 in
    (t.kind ≡ Kind.eof) ↔ ((t.start ≡ length l.source) ⊎ (get_elem? l.source t.start ≡ some 0))
next_eof_iff_example = next_eof_iff (new nul) (valid nul (omega arith))

new-IsValid_example :
    let src = 0xEF ∷ 0xBB ∷ 0xBF ∷ code in
    IsValid (new src) × ((new src).cursor ≡ 3) × ((new src).source ≡ src)
unfolding has_bom
new-IsValid_example = new-IsValid (0xEF ∷ 0xBB ∷ 0xBF ∷ code) (omega arith)

next_maximal_word_example :
    (k : Kind) × IsKindOf (codes "while") k
    × ((next (new (codes "while("))).0 ≡ token_at (new (codes "while(")) k 5)
unfolding new reset advance has_bom
next_maximal_word_example =
    next_maximal_word (new (codes "while(")) b'w' (codes "hile") (codes "(")
      (valid (codes "while(") (omega arith)) refl refl (refl, (refl, (refl, (refl, tt)))) refl

next_quoted_example :
    let src = b'"' ∷ (escape b'"' (codes "a\"\\") ++ codes "\"+") in
    (next (new src)).0 ≡ token_at (new src) Kind.string 7
unfolding new reset advance has_bom
next_quoted_example =
    next_quoted (new (b'"' ∷ (escape b'"' (codes "a\"\\") ++ codes "\"+"))) b'"' (codes "a\"\\")
      (codes "+") (valid (b'"' ∷ (escape b'"' (codes "a\"\\") ++ codes "\"+")) (omega arith)) refl
      refl

next_operator_example : (next (new (codes "<=="))).0 ≡ token_at (new (codes "<==")) Kind.less_eq 2
unfolding new reset advance has_bom
next_operator_example =
    next_operator (new (codes "<==")) 17 (codes "<=") (codes "=") Kind.less_eq
      (valid (codes "<==") (omega arith)) refl refl refl

next_long_string_example :
    (next (new (codes "[=[a]]]=]x"))).0 ≡ token_at (new (codes "[=[a]]]=]x")) Kind.string 9
unfolding new reset advance has_bom span_len
next_long_string_example =
    next_long_string (new (codes "[=[a]]]=]x")) 1 (codes "a]]") (codes "x")
      (valid (codes "[=[a]]]=]x") (omega arith)) refl
      (omega arith, refl, (omega arith, refl, (omega arith, refl, tt)))

next_long_comment_example :
    (next (new (codes "--[[a]]x"))).0 ≡ token_at (new (codes "--[[a]]x")) Kind.comment 7
unfolding new reset advance has_bom
next_long_comment_example =
    next_long_comment (new (codes "--[[a]]x")) 0 (codes "a") (codes "x")
      (valid (codes "--[[a]]x") (omega arith)) refl (omega arith, refl, tt)

next_line_comment_example :
    (next (new (codes "-- [=\nx"))).0 ≡ token_at (new (codes "-- [=\nx")) Kind.comment 5
unfolding new reset advance has_bom
next_line_comment_example =
    next_line_comment (new (codes "-- [=\nx")) (codes " [=") (codes "\nx")
      (valid (codes "-- [=\nx") (omega arith)) refl refl (refl, (refl, (refl, tt))) (inr refl)

next_unopened_bracket_example :
    let l = new (codes "--[=a") in
    ((next l).0 ≡ token_at l Kind.comment 4) × (left_of (next l).1 ≡ codes "a")
unfolding new reset advance has_bom
next_unopened_bracket_example =
    next_unopened_bracket (new (codes "--[=a")) 0 (codes "a") (valid (codes "--[=a") (omega arith))
      refl refl

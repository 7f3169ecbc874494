-- ===== src/Token/Codes.antt =====
-- The `iota` codes of the kinds in token/token.go, and that they tell the kinds apart.
use lugo.Base.{ℕ, ◌<◌, ◌≡◌, refl, ap, some, List, [], ◌∷◌, arith, get_elem?}
use lugo.Token.{Kind}

unfoldable pub kind_code : Kind → ℕ
kind_code Kind.illegal = 0
kind_code Kind.eof = 1
kind_code Kind.comment = 2
kind_code Kind.ident = 3
kind_code Kind.number = 4
kind_code Kind.string = 5
kind_code Kind.backtick_string = 6
kind_code Kind.and_kw = 7
kind_code Kind.break_kw = 8
kind_code Kind.do_kw = 9
kind_code Kind.else_kw = 10
kind_code Kind.else_if_kw = 11
kind_code Kind.end_kw = 12
kind_code Kind.false_kw = 13
kind_code Kind.for_kw = 14
kind_code Kind.function_kw = 15
kind_code Kind.goto_kw = 16
kind_code Kind.if_kw = 17
kind_code Kind.in_kw = 18
kind_code Kind.local_kw = 19
kind_code Kind.nil_kw = 20
kind_code Kind.not_kw = 21
kind_code Kind.or_kw = 22
kind_code Kind.repeat_kw = 23
kind_code Kind.return_kw = 24
kind_code Kind.then_kw = 25
kind_code Kind.true_kw = 26
kind_code Kind.until_kw = 27
kind_code Kind.while_kw = 28
kind_code Kind.plus = 29
kind_code Kind.minus = 30
kind_code Kind.asterisk = 31
kind_code Kind.slash = 32
kind_code Kind.floor_slash = 33
kind_code Kind.modulo = 34
kind_code Kind.caret = 35
kind_code Kind.hash = 36
kind_code Kind.bit_and = 37
kind_code Kind.bit_or = 38
kind_code Kind.bit_xor = 39
kind_code Kind.shift_left = 40
kind_code Kind.shift_right = 41
kind_code Kind.concat = 42
kind_code Kind.eq = 43
kind_code Kind.not_eq = 44
kind_code Kind.less = 45
kind_code Kind.less_eq = 46
kind_code Kind.greater = 47
kind_code Kind.greater_eq = 48
kind_code Kind.assign = 49
kind_code Kind.l_paren = 50
kind_code Kind.r_paren = 51
kind_code Kind.l_brace = 52
kind_code Kind.r_brace = 53
kind_code Kind.l_brack = 54
kind_code Kind.r_brack = 55
kind_code Kind.double_colon = 56
kind_code Kind.semicolon = 57
kind_code Kind.colon = 58
kind_code Kind.comma = 59
kind_code Kind.dot = 60
kind_code Kind.vararg = 61

-- The kinds in the order of the block.
abbrev pub all_kinds : List Kind
all_kinds =
    Kind.illegal ∷ Kind.eof ∷ Kind.comment ∷ Kind.ident ∷ Kind.number ∷ Kind.string
    ∷ Kind.backtick_string ∷ Kind.and_kw ∷ Kind.break_kw ∷ Kind.do_kw ∷ Kind.else_kw
    ∷ Kind.else_if_kw ∷ Kind.end_kw ∷ Kind.false_kw ∷ Kind.for_kw ∷ Kind.function_kw ∷ Kind.goto_kw
    ∷ Kind.if_kw ∷ Kind.in_kw ∷ Kind.local_kw ∷ Kind.nil_kw ∷ Kind.not_kw ∷ Kind.or_kw
    ∷ Kind.repeat_kw ∷ Kind.return_kw ∷ Kind.then_kw ∷ Kind.true_kw ∷ Kind.until_kw ∷ Kind.while_kw
    ∷ Kind.plus ∷ Kind.minus ∷ Kind.asterisk ∷ Kind.slash ∷ Kind.floor_slash ∷ Kind.modulo
    ∷ Kind.caret ∷ Kind.hash ∷ Kind.bit_and ∷ Kind.bit_or ∷ Kind.bit_xor ∷ Kind.shift_left
    ∷ Kind.shift_right ∷ Kind.concat ∷ Kind.eq ∷ Kind.not_eq ∷ Kind.less ∷ Kind.less_eq
    ∷ Kind.greater ∷ Kind.greater_eq ∷ Kind.assign ∷ Kind.l_paren ∷ Kind.r_paren ∷ Kind.l_brace
    ∷ Kind.r_brace ∷ Kind.l_brack ∷ Kind.r_brack ∷ Kind.double_colon ∷ Kind.semicolon ∷ Kind.colon
    ∷ Kind.comma ∷ Kind.dot ∷ Kind.vararg ∷ []

get_elem?-kind_code : (k : Kind) → get_elem? all_kinds (kind_code k) ≡ some k
unfolding kind_code
get_elem?-kind_code Kind.illegal = refl
get_elem?-kind_code Kind.eof = refl
get_elem?-kind_code Kind.comment = refl
get_elem?-kind_code Kind.ident = refl
get_elem?-kind_code Kind.number = refl
get_elem?-kind_code Kind.string = refl
get_elem?-kind_code Kind.backtick_string = refl
get_elem?-kind_code Kind.and_kw = refl
get_elem?-kind_code Kind.break_kw = refl
get_elem?-kind_code Kind.do_kw = refl
get_elem?-kind_code Kind.else_kw = refl
get_elem?-kind_code Kind.else_if_kw = refl
get_elem?-kind_code Kind.end_kw = refl
get_elem?-kind_code Kind.false_kw = refl
get_elem?-kind_code Kind.for_kw = refl
get_elem?-kind_code Kind.function_kw = refl
get_elem?-kind_code Kind.goto_kw = refl
get_elem?-kind_code Kind.if_kw = refl
get_elem?-kind_code Kind.in_kw = refl
get_elem?-kind_code Kind.local_kw = refl
get_elem?-kind_code Kind.nil_kw = refl
get_elem?-kind_code Kind.not_kw = refl
get_elem?-kind_code Kind.or_kw = refl
get_elem?-kind_code Kind.repeat_kw = refl
get_elem?-kind_code Kind.return_kw = refl
get_elem?-kind_code Kind.then_kw = refl
get_elem?-kind_code Kind.true_kw = refl
get_elem?-kind_code Kind.until_kw = refl
get_elem?-kind_code Kind.while_kw = refl
get_elem?-kind_code Kind.plus = refl
get_elem?-kind_code Kind.minus = refl
get_elem?-kind_code Kind.asterisk = refl
get_elem?-kind_code Kind.slash = refl
get_elem?-kind_code Kind.floor_slash = refl
get_elem?-kind_code Kind.modulo = refl
get_elem?-kind_code Kind.caret = refl
get_elem?-kind_code Kind.hash = refl
get_elem?-kind_code Kind.bit_and = refl
get_elem?-kind_code Kind.bit_or = refl
get_elem?-kind_code Kind.bit_xor = refl
get_elem?-kind_code Kind.shift_left = refl
get_elem?-kind_code Kind.shift_right = refl
get_elem?-kind_code Kind.concat = refl
get_elem?-kind_code Kind.eq = refl
get_elem?-kind_code Kind.not_eq = refl
get_elem?-kind_code Kind.less = refl
get_elem?-kind_code Kind.less_eq = refl
get_elem?-kind_code Kind.greater = refl
get_elem?-kind_code Kind.greater_eq = refl
get_elem?-kind_code Kind.assign = refl
get_elem?-kind_code Kind.l_paren = refl
get_elem?-kind_code Kind.r_paren = refl
get_elem?-kind_code Kind.l_brace = refl
get_elem?-kind_code Kind.r_brace = refl
get_elem?-kind_code Kind.l_brack = refl
get_elem?-kind_code Kind.r_brack = refl
get_elem?-kind_code Kind.double_colon = refl
get_elem?-kind_code Kind.semicolon = refl
get_elem?-kind_code Kind.colon = refl
get_elem?-kind_code Kind.comma = refl
get_elem?-kind_code Kind.dot = refl
get_elem?-kind_code Kind.vararg = refl

pub kind_code_lt : (k : Kind) → kind_code k < 62
unfolding kind_code
kind_code_lt Kind.illegal = omega arith
kind_code_lt _ = omega arith

pub kind_code_injective : (k j : Kind) → kind_code k ≡ kind_code j → k ≡ j
kind_code_injective k j e =
    cc (get_elem?-kind_code k, get_elem?-kind_code j, ap (get_elem? all_kinds) e)

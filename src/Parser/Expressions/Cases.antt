-- ===== src/Parser/Expressions/Cases.antt =====
-- The tokens that `parseInfix` of parser/parser.go has a case for.
use lugo.Base.{◌≡◌, refl, Bool, ◌||◌, ltb}
use lugo.Token.{Kind}
use lugo.Token.Codes.{kind_code}
use lugo.Parser.{is_kind, is_one_of}
use lugo.Parser.Tables.{precedence}
use lugo.Parser.Expressions.{binary_kinds, call_kinds}

-- A case of the `switch` of `parseInfix` other than the last.
abbrev pub has_case : Kind → Bool
has_case k =
    is_one_of binary_kinds k
    || (is_kind k Kind.dot
        || (is_kind k Kind.l_brack || (is_one_of call_kinds k || is_kind k Kind.colon)))

-- A kind of token has a precedence above `Lowest` exactly if the `switch` of `parseInfix` has a case
-- for it.
pub precedence_iff : (k : Kind) → ltb 0 (precedence k) ≡ has_case k
unfolding precedence kind_code
precedence_iff Kind.illegal = refl
precedence_iff Kind.eof = refl
precedence_iff Kind.comment = refl
precedence_iff Kind.ident = refl
precedence_iff Kind.number = refl
precedence_iff Kind.string = refl
precedence_iff Kind.backtick_string = refl
precedence_iff Kind.and_kw = refl
precedence_iff Kind.break_kw = refl
precedence_iff Kind.do_kw = refl
precedence_iff Kind.else_kw = refl
precedence_iff Kind.else_if_kw = refl
precedence_iff Kind.end_kw = refl
precedence_iff Kind.false_kw = refl
precedence_iff Kind.for_kw = refl
precedence_iff Kind.function_kw = refl
precedence_iff Kind.goto_kw = refl
precedence_iff Kind.if_kw = refl
precedence_iff Kind.in_kw = refl
precedence_iff Kind.local_kw = refl
precedence_iff Kind.nil_kw = refl
precedence_iff Kind.not_kw = refl
precedence_iff Kind.or_kw = refl
precedence_iff Kind.repeat_kw = refl
precedence_iff Kind.return_kw = refl
precedence_iff Kind.then_kw = refl
precedence_iff Kind.true_kw = refl
precedence_iff Kind.until_kw = refl
precedence_iff Kind.while_kw = refl
precedence_iff Kind.plus = refl
precedence_iff Kind.minus = refl
precedence_iff Kind.asterisk = refl
precedence_iff Kind.slash = refl
precedence_iff Kind.floor_slash = refl
precedence_iff Kind.modulo = refl
precedence_iff Kind.caret = refl
precedence_iff Kind.hash = refl
precedence_iff Kind.bit_and = refl
precedence_iff Kind.bit_or = refl
precedence_iff Kind.bit_xor = refl
precedence_iff Kind.shift_left = refl
precedence_iff Kind.shift_right = refl
precedence_iff Kind.concat = refl
precedence_iff Kind.eq = refl
precedence_iff Kind.not_eq = refl
precedence_iff Kind.less = refl
precedence_iff Kind.less_eq = refl
precedence_iff Kind.greater = refl
precedence_iff Kind.greater_eq = refl
precedence_iff Kind.assign = refl
precedence_iff Kind.l_paren = refl
precedence_iff Kind.r_paren = refl
precedence_iff Kind.l_brace = refl
precedence_iff Kind.r_brace = refl
precedence_iff Kind.l_brack = refl
precedence_iff Kind.r_brack = refl
precedence_iff Kind.double_colon = refl
precedence_iff Kind.semicolon = refl
precedence_iff Kind.colon = refl
precedence_iff Kind.comma = refl
precedence_iff Kind.dot = refl
precedence_iff Kind.vararg = refl

-- ===== src/Token.antt =====
-- token/token.go: the kinds of tokens, tokens, and sets of kinds as two 64-bit masks.
-- A kind's code is its place in the `iota` block; `Token.Set` has the masks.
pub mod Codes
pub mod Set
mod Tests
use lugo.Base.{ℕ, ◌≤◌, ◌&&◌, Option, none, some, Bytes, length, slice, leb, if◌then◌else◌}

-- The keywords of the source carry `_kw` here.
pub data Kind : Type 0 where
  illegal eof comment : Kind
  ident number string backtick_string : Kind
  and_kw break_kw do_kw else_kw else_if_kw end_kw false_kw for_kw function_kw : Kind
  goto_kw if_kw in_kw local_kw nil_kw not_kw or_kw repeat_kw return_kw then_kw : Kind
  true_kw until_kw while_kw : Kind
  plus minus asterisk slash floor_slash modulo caret hash bit_and bit_or bit_xor : Kind
  shift_left shift_right concat : Kind
  eq not_eq less less_eq greater greater_eq assign : Kind
  l_paren r_paren l_brace r_brace l_brack r_brack double_colon semicolon colon : Kind
  comma dot vararg : Kind

pub record Token : Type 0 where
  pub kind : Kind
  pub start : ℕ
  pub end : ℕ

-- `source[t.Start:t.End]`; `none` is the run-time panic of a slice out of range. An end beyond the
-- length is out of range here even where the array below the slice goes on.
unfoldable pub text : Token → Bytes → Option Bytes
text t source =
    if leb t.start t.end && leb t.end (length source)
    then some (slice t.start t.end source)
    else none

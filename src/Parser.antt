-- ===== src/Parser.antt =====
-- parser/parser.go: the state of the parser, the tokens it looks at, its errors, its stack of
-- children, and how it goes on after an error.
pub mod Stream
pub mod Start
pub mod Recovery
pub mod Stack
pub mod Action
pub mod Rules
pub mod Sound
pub mod Stores
pub mod Flush
pub mod Steps
pub mod Nodes
pub mod Depths
pub mod Good
pub mod Tables
pub mod Calls
pub mod Expressions
pub mod Statements
pub mod Declarations
pub mod Program
mod Samples
mod Tests
use lugo.Base.{
  ℕ, zero, suc, ◌+◌, ◌-◌, Bool, false, ◌&&◌, ◌||◌, List, [], ◌∷◌, ◌++◌, Bytes, length, take, drop,
  ltb, leb, ◌==◌, if◌then◌else◌, u32,
}
use lugo.Token.{Kind, Token}
use lugo.Token.Codes.{kind_code}
use lugo.Token.Set.{TokenSet, contains}
use lugo.Lexer.Machine.{Lexer}
use lugo.Lexer.Machine
use lugo.Lexer.Scanner.{next}
use lugo.Ast.{Tree}

pub record ParseError : Type 0 where
  pub message : Bytes
  pub start : ℕ
  pub end : ℕ

-- A negative limit on the errors acts as 0 does.
pub record Parser : Type 0 where
  pub lex : Lexer
  pub tree : Tree
  pub errors : List ParseError
  pub max_errors : ℕ
  pub prev : Token
  pub curr : Token
  pub peek : Token
  pub loop_depth : ℕ
  pub depth : ℕ
  pub block_depth : ℕ
  pub list_stack : List ℕ

abbrev pub is_kind : Kind → Kind → Bool
is_kind k j = kind_code k == kind_code j

-- `for p.peek.Kind == token.Comment`
unfoldable pub comment_loop : ℕ → Parser → Parser
comment_loop zero p = p
comment_loop (suc f) p =
    let (t, l) = next p.lex in
    let rest = comment_loop f (record p {
      tree = record p.tree { comments = p.tree.comments ++ (p.peek ∷ []) };
      peek = t;
      lex = l;
    }) in
    if is_kind p.peek.kind Kind.comment then rest else p

-- A comment has at least one byte, so the length of the source is enough fuel.
unfoldable pub next_token : Parser → Parser
next_token p =
    let (t, l) = next p.lex in
    comment_loop (length p.lex.source)
      (record p { prev = p.curr; curr = p.peek; peek = t; lex = l })

-- `token.Token{}`
abbrev pub zero_token : Token
zero_token = record { kind = Kind.illegal; start = 0; end = 0 }

unfoldable pub new : Bytes → Tree → ℕ → Parser
new source tree max_errors = next_token (
    next_token (record {
      lex = Machine.new source;
      tree = tree;
      errors = [];
      max_errors = max_errors;
      prev = zero_token;
      curr = zero_token;
      peek = zero_token;
      loop_depth = 0;
      depth = 0;
      block_depth = 0;
      list_stack = [];
    }))

-- `Reset`, where the parser has a scanner already. The three tokens stay until they are read.
unfoldable pub reset : Parser → Bytes → Tree → Parser
reset p source tree = next_token (
    next_token (record p {
      lex = Machine.reset p.lex source;
      tree = tree;
      errors = [];
      list_stack = [];
      loop_depth = 0;
      depth = 0;
      block_depth = 0;
    }))

-- `TrimOversized`, where the run-time system has given the two slices these capacities.
unfoldable pub trim_oversized : ℕ → ℕ → Parser → ℕ → Parser
trim_oversized errors_cap stack_cap p max_cap = record p {
  errors = if ltb max_cap errors_cap then [] else p.errors;
  list_stack = if ltb max_cap stack_cap then [] else p.list_stack;
}

unfoldable pub is_at : Parser → TokenSet → Bool
is_at p set = contains set p.curr.kind

unfoldable pub error_at : Parser → ℕ → ℕ → Bytes → Parser
error_at p start end message =
    if ltb 0 p.max_errors && leb p.max_errors (length p.errors) then p else record p {
      errors = p.errors ++ (record { message = message; start = start; end = end } ∷ []);
    }

unfoldable pub error : Parser → Bytes → Parser
error p message = if ltb 0 p.max_errors && leb p.max_errors (length p.errors) then p else record p {
  errors = p.errors ++ (record { message = message; start = p.curr.start; end = p.curr.end } ∷ []);
}

-- The keywords at which `sync` stops.
abbrev pub starts : List Kind
starts =
    Kind.local_kw ∷ Kind.function_kw ∷ Kind.if_kw ∷ Kind.for_kw ∷ Kind.while_kw ∷ Kind.repeat_kw
    ∷ Kind.return_kw ∷ Kind.do_kw ∷ Kind.break_kw ∷ Kind.end_kw ∷ Kind.goto_kw ∷ Kind.double_colon
    ∷ []

abbrev pub is_one_of : List Kind → Kind → Bool
is_one_of [] k = false
is_one_of (j ∷ js) k = is_kind k j || is_one_of js k

unfoldable pub sync_loop : ℕ → Parser → Parser
sync_loop zero p = p
sync_loop (suc f) p =
    let rest = sync_loop f (next_token p) in
    if is_kind p.curr.kind Kind.eof
    then p
    else if is_kind p.curr.kind Kind.semicolon
    then next_token p
    else if is_one_of starts p.curr.kind
    then p
    else if is_kind p.curr.kind Kind.ident
    then p
    else rest

-- Each round takes one of the tokens that are left.
unfoldable pub sync : Parser → Parser
sync p = sync_loop (length p.lex.source + 3) (next_token p)

unfoldable pub flush_list_stack : Parser → ℕ → Parser × (ℕ × ℕ)
flush_list_stack p stack_start =
    let count = u32 (length p.list_stack - stack_start) in
    if count == 0 then (p, (0, 0)) else (
      record p {
        tree = record p.tree { extra_list = p.tree.extra_list ++ drop stack_start p.list_stack };
        list_stack = take stack_start p.list_stack;
      },
      (u32 (length p.tree.extra_list), count),
    )

unfoldable pub is_ident_or_keyword : Parser → Bool
is_ident_or_keyword p =
    is_kind p.curr.kind Kind.ident
    || (leb (kind_code Kind.and_kw) (kind_code p.curr.kind)
        && leb (kind_code p.curr.kind) (kind_code Kind.while_kw))

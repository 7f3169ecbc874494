-- ===== src/Parser/Start.antt =====
-- `New` and `Reset` of parser/parser.go: the state before the first statement.
use lugo.Base.{
  ℕ, zero, suc, ◌<◌, ◌≡◌, refl, ap, sym, ◌∙◌, inl, inr, List, [], ◌∷◌, ◌++◌, Bytes, length,
  Bool-cases,
}
use lugo.Token.{Kind, Token}
use lugo.Lexer.Machine.{Lexer}
use lugo.Lexer.Machine
use lugo.Lexer.Scanner.{next}
use lugo.Lexer.Valid.{new-IsValid}
use lugo.Ast.{Tree}
use lugo.Parser.{Parser, is_kind, zero_token, comment_loop, next_token, new, reset}
use lugo.Parser.Stream.{Run, gather, next_token_lem}

-- The parser before it has read a token.
abbrev begun : Lexer → Tree → ℕ → Parser
begun l tree max_errors = record {
  lex = l;
  tree = tree;
  errors = [];
  max_errors = max_errors;
  prev = zero_token;
  curr = zero_token;
  peek = zero_token;
  loop_depth = 0;
  depth = 0;
  block_depth = 0;
  list_stack = [];
}

-- The parser that `New` returns, with the comments `cs` and `ds` in front of its two tokens.
abbrev pub ready : Lexer → Tree → ℕ → List Token → List Token → Token → Token → Parser
ready l tree max_errors cs ds t u =
    record (begun l (record tree { comments = (tree.comments ++ cs) ++ ds }) max_errors) {
      curr = t;
      peek = u;
    }

-- `New` on a source below 2 ^ 32 bytes reads the first two tokens that are no comments, and adds
-- the comments in front of them to the tree.
pub new_lem :
    (source : Bytes) (tree : Tree) (max_errors : ℕ)
    → length source < 4294967296
    → (cs : List Token) × (ds : List Token) × (t : Token) × (u : Token) × (m : Lexer) × (n : Lexer)
      × Run (Machine.new source) cs t m
      × Run m ds u n
      × (new source tree max_errors ≡ ready n tree max_errors cs ds t u)
unfolding new
new_lem source tree max_errors fits =
    let p = begun (Machine.new source) tree max_errors in
    let (cs, t, m, run, done, valid, _) = next_token_lem p (new-IsValid source fits).0 in
    let q = gather p cs t m in
    let (ds, u, n, run', done', _, _) = next_token_lem q valid in
    (cs, ds, t, u, m, n, run, run', ap next_token done ∙ done')

-- The loop over comments does not look at the two tokens in front.
comment_loop-tokens :
    (f : ℕ) (p : Parser) (a b : Token)
    → comment_loop f (record p { prev = a; curr = b })
      ≡ record (comment_loop f p) { prev = a; curr = b }
unfolding comment_loop
comment_loop-tokens zero p a b = refl
comment_loop-tokens (suc f) p a b = elim (Bool-cases (is_kind p.peek.kind Kind.comment)) [
  | inl e ↦ rw e (
      comment_loop-tokens f
        (record p {
          tree = record p.tree { comments = p.tree.comments ++ (p.peek ∷ []) };
          peek = (next p.lex).0;
          lex = (next p.lex).1;
        })
        a b)
  | inr e ↦ rw e refl
]

next_token-tokens :
    (p : Parser) (a b c : Token)
    → next_token (record p { prev = a; curr = b; peek = c })
      ≡ record (next_token p) { prev = b; curr = c }
unfolding next_token
next_token-tokens p a b c =
    let f = length p.lex.source in
    let base : Parser = record p { peek = (next p.lex).0; lex = (next p.lex).1 } in
    comment_loop-tokens f base b c
    ∙ ap (λ (q : Parser). record q { prev = b; curr = c })
        (sym (comment_loop-tokens f base p.curr p.peek))

-- `Reset` of a parser gives the parser that `New` makes with the same limit on errors, except for
-- `prev`, which is the token that the old parser looked ahead at.
pub reset_lem :
    (p : Parser) (source : Bytes) (tree : Tree)
    → reset p source tree ≡ record (new source tree p.max_errors) { prev = p.peek }
unfolding new reset Machine.new Machine.reset
reset_lem p source tree =
    let p' = begun (Machine.new source) tree p.max_errors in
    let q = next_token p' in
    ap next_token (next_token-tokens p' p.prev p.curr p.peek)
    ∙ next_token-tokens q p.curr p.peek q.peek
    ∙ ap (λ (r : Parser). record r { prev = p.peek })
        (sym (next_token-tokens q q.prev q.curr q.peek))

-- ===== src/Parser/Stream.antt =====
-- The tokens that `nextToken` of parser/parser.go takes from the scanner.
use lugo.Base.{
  ℕ, zero, suc, ◌+◌, ◌-◌, ◌≤◌, ◌≡◌, ◌≢◌, inl, inr, refl, ap, ◌∙◌, true, false, List, [], ◌∷◌, ◌++◌,
  length, if◌then◌else◌, arith, Bool-cases, ==_iff,
}
use mathlib.Core.List.{append_assoc, append-nil}
use lugo.Token.{Kind, Token}
use lugo.Token.Codes.{kind_code, kind_code_injective}
use lugo.Lexer.Machine.{Lexer}
use lugo.Lexer.Scanner.{next}
use lugo.Lexer.Valid.{IsValid, next-IsValid}
use lugo.Lexer.Tokens.{next_bounds}
use lugo.Parser.{Parser, is_kind, comment_loop, next_token}

-- The scanner in state `l` reads the comments `cs`, then the token `t`, which is none, and is in
-- state `m`.
pub data Run : Lexer → List Token → Token → Lexer → Type 0 where
  stop : (l : Lexer) → is_kind (next l).0.kind Kind.comment ≡ false → Run l [] (next l).0 (next l).1
  more :
      (l m : Lexer) (cs : List Token) (t : Token)
      → is_kind (next l).0.kind Kind.comment ≡ true
      → Run (next l).1 cs t m
      → Run l ((next l).0 ∷ cs) t m

-- The bytes that are left.
abbrev pub left : Lexer → ℕ
left l = length l.source - l.cursor

-- 1 for a token that is not the end.
abbrev pub live : Token → ℕ
live t = if is_kind t.kind Kind.eof then 0 else 1

is_kind_iff : (k j : Kind) → is_kind k j ≡ true → k ≡ j
is_kind_iff k j e = kind_code_injective k j ((==_iff _ _).0 e)

-- Every token but the end takes at least one byte.
pub next-left-live :
    (l : Lexer)
    → IsValid l
    → (left (next l).1 + live (next l).0 ≤ left l) × ((next l).1.source ≡ l.source)
next-left-live l v =
    let (after, ordered, inside, at, same, some_byte) = next_bounds l v in
    elim (Bool-cases (is_kind (next l).0.kind Kind.eof)) [
      | inl e ↦ (rw (e, same) (omega arith), same)
      | inr e ↦
          let alive : (next l).0.kind ≢ Kind.eof = λ q. absurd (ground (arith, ap kind_code q)) in
          let one = some_byte alive in (rw (e, same) (omega arith), same)
    ]

-- The parser with the token that the scanner reads in state `l`.
abbrev read : Parser → Lexer → Parser
read p l = record p { peek = (next l).0; lex = (next l).1 }

-- The parser with the comments `cs` added, then `t`, the scanner in state `m`.
abbrev pub gather : Parser → List Token → Token → Lexer → Parser
gather p cs t m = record p {
  tree = record p.tree { comments = p.tree.comments ++ cs };
  peek = t;
  lex = m;
}

comment_loop-stop :
    (f : ℕ) (p : Parser) (l : Lexer)
    → is_kind (next l).0.kind Kind.comment ≡ false
    → comment_loop f (read p l) ≡ gather p [] (next l).0 (next l).1
unfolding comment_loop
comment_loop-stop zero p l e = rw (append-nil p.tree.comments) refl
comment_loop-stop (suc f) p l e = rw (append-nil p.tree.comments, e) refl

comment_loop-more :
    (f : ℕ) (p : Parser) (l m : Lexer) (cs : List Token) (t : Token)
    → is_kind (next l).0.kind Kind.comment ≡ true
    → comment_loop f (read (gather p ((next l).0 ∷ []) p.peek p.lex) (next l).1)
      ≡ gather (gather p ((next l).0 ∷ []) p.peek p.lex) cs t m
    → comment_loop (suc f) (read p l) ≡ gather p ((next l).0 ∷ cs) t m
unfolding comment_loop
comment_loop-more f p l m cs t e rest = rw e (
    rest
    ∙ ap (λ xs. record p { tree = record p.tree { comments = xs }; peek = t; lex = m })
        (append_assoc p.tree.comments ((next l).0 ∷ []) cs))

comment-live : (t : Token) → is_kind t.kind Kind.comment ≡ true → live t ≡ 1
unfolding kind_code
comment-live t e =
    let same = is_kind_iff t.kind Kind.comment e in
    let alive : is_kind t.kind Kind.eof ≡ false = rw same refl in rw alive refl

comment_loop_lem :
    (f : ℕ) (p : Parser) (l : Lexer)
    → IsValid l
    → left l ≤ f
    → (cs : List Token) × (t : Token) × (m : Lexer) × Run l cs t m
      × (comment_loop f (read p l) ≡ gather p cs t m)
comment_loop_lem zero p l v h = elim (Bool-cases (is_kind (next l).0.kind Kind.comment)) [
  | inr e ↦ ([], (next l).0, (next l).1, Run.stop l e, comment_loop-stop zero p l e)
  | inl e ↦ absurd (omega (arith, (next-left-live l v).0, comment-live (next l).0 e))
]
comment_loop_lem (suc f) p l v h = elim (Bool-cases (is_kind (next l).0.kind Kind.comment)) [
  | inr e ↦ ([], (next l).0, (next l).1, Run.stop l e, comment_loop-stop (suc f) p l e)
  | inl e ↦
      let (cs, t, m, run, done) =
        comment_loop_lem f (gather p ((next l).0 ∷ []) p.peek p.lex) (next l).1 (next-IsValid l v)
          (omega (arith, (next-left-live l v).0, comment-live (next l).0 e)) in
      ((next l).0 ∷ cs, t, m, Run.more l m cs t e run, comment_loop-more f p l m cs t e done)
]

-- What holds of the scanner behind such a run.
pub Run-IsValid :
    (l m : Lexer) (cs : List Token) (t : Token)
    → Run l cs t m
    → IsValid l
    → IsValid m
      × (m.source ≡ l.source)
      × (left m + live t ≤ left l)
      × (is_kind t.kind Kind.comment ≡ false)
Run-IsValid _ _ _ _ (Run.stop l e) v =
    let (less, same) = next-left-live l v in (next-IsValid l v, same, less, e)
Run-IsValid _ _ _ _ (Run.more l m cs t e run) v =
    let (less, same) = next-left-live l v in
    let (valid, same', less', none) = Run-IsValid (next l).1 m cs t run (next-IsValid l v) in
    (valid, same' ∙ same, omega (arith, less, less'), none)

-- With its scanner in a valid state, `nextToken` comes to an end on every source: it moves the tokens up, reads comments as long as
-- there are some, adds them to the tree in their order, and looks ahead at the token behind them,
-- which is no comment. Nothing else of the parser changes.
pub next_token_lem :
    (p : Parser)
    → IsValid p.lex
    → (cs : List Token) × (t : Token) × (m : Lexer) × Run p.lex cs t m
      × (next_token p ≡ gather (record p { prev = p.curr; curr = p.peek }) cs t m)
      × IsValid m
      × (is_kind t.kind Kind.comment ≡ false)
unfolding next_token
next_token_lem p v =
    let (cs, t, m, run, done) =
      comment_loop_lem (length p.lex.source) (record p { prev = p.curr; curr = p.peek }) p.lex v
        (omega arith) in
    let (valid, same, less, none) = Run-IsValid p.lex m cs t run v in
    (cs, t, m, run, done, valid, none)

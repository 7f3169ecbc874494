-- ===== src/Parser/Recovery.antt =====
-- `sync` of parser/parser.go: how the parser goes on after an error.
use lugo.Base.{
  ℕ, zero, suc, ◌+◌, ◌≤◌, ◌<◌, ◌≡◌, refl, ◌∙◌, inl, inr, Bool, true, false, ◌||◌, length, arith,
  Bool-cases,
}
use lugo.Token.{Kind, Token}
use lugo.Lexer.Valid.{IsValid}
use lugo.Parser.{Parser, is_kind, is_one_of, starts, next_token, sync_loop, sync}
use lugo.Parser.Stream.{left, live, Run-IsValid, next_token_lem}

-- The bytes and tokens that are left to read.
abbrev pub remaining : Parser → ℕ
remaining p = left p.lex + live p.curr + live p.peek

-- From `p` to `q` the parser has read on by `n` at least, over the same source, and its errors,
-- nodes and children have not changed.
pub record Moved (n : ℕ) (p q : Parser) : Type 0 where
  pub valid : IsValid q.lex
  pub source : q.lex.source ≡ p.lex.source
  pub errors : q.errors ≡ p.errors
  pub nodes : q.tree.nodes ≡ p.tree.nodes
  pub extra_list : q.tree.extra_list ≡ p.tree.extra_list
  pub list_stack : q.list_stack ≡ p.list_stack
  pub less : remaining q + n ≤ remaining p

Moved-trans : {n : ℕ} {p q r : Parser} → Moved n p q → Moved 0 q r → Moved n p r
Moved-trans a b = record {
  valid = b.valid;
  source = b.source ∙ a.source;
  errors = b.errors ∙ a.errors;
  nodes = b.nodes ∙ a.nodes;
  extra_list = b.extra_list ∙ a.extra_list;
  list_stack = b.list_stack ∙ a.list_stack;
  less = omega (arith, a.less, b.less);
}

Moved-weaken : {n : ℕ} {p q : Parser} → Moved n p q → Moved 0 p q
Moved-weaken a = record {
  valid = a.valid;
  source = a.source;
  errors = a.errors;
  nodes = a.nodes;
  extra_list = a.extra_list;
  list_stack = a.list_stack;
  less = omega (arith, a.less);
}

Moved-none : (p : Parser) → IsValid p.lex → Moved 0 p p
Moved-none p v = record {
  valid = v;
  source = refl;
  errors = refl;
  nodes = refl;
  extra_list = refl;
  list_stack = refl;
  less = omega arith;
}

-- `nextToken` reads on by one unless the current token is the end.
pub next_token-Moved : (p : Parser) → IsValid p.lex → Moved (live p.curr) p (next_token p)
next_token-Moved p v =
    let (cs, t, m, run, done, valid, _) = next_token_lem p v in
    let (_, same, less, _) = Run-IsValid p.lex m cs t run v in
    rw done (record {
      valid = valid;
      source = same;
      errors = refl;
      nodes = refl;
      extra_list = refl;
      list_stack = refl;
      less = omega (arith, less);
    })

next_token-prev : (p : Parser) → IsValid p.lex → (next_token p).prev ≡ p.curr
next_token-prev p v = let (_, _, _, _, done, _, _) = next_token_lem p v in rw done refl

-- A statement may begin here, or the source is at its end.
abbrev pub is_boundary : Parser → Bool
is_boundary p =
    is_kind p.curr.kind Kind.eof
    || is_one_of starts p.curr.kind
    || is_kind p.curr.kind Kind.ident
    || is_kind p.prev.kind Kind.semicolon

-- `q` is where the parser stops.
record Synced (p q : Parser) : Type 0 where
  moved : Moved 0 p q
  boundary : is_boundary q ≡ true

module _ (p : Parser) (v : IsValid p.lex) where
  at_once :
      (f : ℕ) → sync_loop (suc f) p ≡ p → is_boundary p ≡ true → Synced p (sync_loop (suc f) p)
  at_once f e b = rw e (record { moved = Moved-none p v; boundary = b })

  behind_semicolon :
      (f : ℕ)
      → is_kind p.curr.kind Kind.semicolon ≡ true
      → sync_loop (suc f) p ≡ next_token p
      → Synced p (sync_loop (suc f) p)
  behind_semicolon f s e =
      let moved = next_token-Moved p v in
      rw e (record {
        moved = Moved-weaken moved;
        boundary = rw (next_token-prev p v) (ground (arith, s));
      })

  onward :
      (f : ℕ)
      → is_kind p.curr.kind Kind.eof ≡ false
      → sync_loop (suc f) p ≡ sync_loop f (next_token p)
      → Synced (next_token p) (sync_loop f (next_token p))
      → Synced p (sync_loop (suc f) p)
  onward f alive e s =
      let moved = Moved-trans (next_token-Moved p v) s.moved in
      rw e (record { moved = Moved-weaken moved; boundary = s.boundary })

  sync_loop-Synced :
      (f : ℕ)
      → (is_kind p.curr.kind Kind.eof ≡ false → Synced (next_token p) (sync_loop f (next_token p)))
      → Synced p (sync_loop (suc f) p)
  unfolding sync_loop
  sync_loop-Synced f later = elim (Bool-cases (is_kind p.curr.kind Kind.eof)) [
    | inl e ↦ at_once f (rw e refl) (rw e refl)
    | inr alive ↦ elim (Bool-cases (is_kind p.curr.kind Kind.semicolon)) [
      | inl e ↦ behind_semicolon f e (rw (alive, e) refl)
      | inr no_semicolon ↦ elim (Bool-cases (is_one_of starts p.curr.kind)) [
        | inl e ↦ at_once f (rw (alive, no_semicolon, e) refl) (rw (alive, e) refl)
        | inr no_start ↦ elim (Bool-cases (is_kind p.curr.kind Kind.ident)) [
          | inl e ↦
              at_once f (rw (alive, no_semicolon, no_start, e) refl) (rw (alive, no_start, e) refl)
          | inr no_ident ↦
              onward f alive (rw (alive, no_semicolon, no_start, no_ident) refl) (later alive)
        ]
      ]
    ]
  ]

sync_loop_lem : (f : ℕ) (p : Parser) → IsValid p.lex → remaining p < f → Synced p (sync_loop f p)
sync_loop_lem zero p v h = absurd (omega arith)
sync_loop_lem (suc f) p v h =
    let moved = next_token-Moved p v in
    sync_loop-Synced p v f (λ alive.
      let one : live p.curr ≡ 1 = rw alive refl in
      sync_loop_lem f (next_token p) moved.valid (omega (arith, moved.less, one)))

live-le : (t : Token) → live t ≤ 1
live-le t = ground arith

-- With its scanner in a valid state, `sync` comes to an end on every source. It reads one token at least, unless the current one is
-- the end, and stops at the end, at a token that begins a statement or ends a block, or behind a
-- semicolon; the errors, the nodes and the children that wait are as before.
pub sync_lem :
    (p : Parser) → IsValid p.lex → Moved (live p.curr) p (sync p) × (is_boundary (sync p) ≡ true)
unfolding sync
sync_lem p v =
    let moved = next_token-Moved p v in
    let first : Moved (live p.curr) p (next_token p) = moved in
    let s =
      sync_loop_lem (length p.lex.source + 3) (next_token p) moved.valid
        (omega (arith, moved.less, live-le p.curr, live-le p.peek)) in
    (Moved-trans first s.moved, s.boundary)

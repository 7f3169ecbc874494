-- ===== src/Parser/Sound.antt =====
-- The invariant of the parser in parser/parser.go between two steps, and what a step may change.
use lugo.Base.{ℕ, ◌+◌, ◌*◌, ◌≤◌, ◌<◌, ◌≡◌, refl, sym, ◌∙◌, List, some, length, get_elem?, arith}
use lugo.Token.{Token}
use lugo.Lexer.Machine.{Lexer}
use lugo.Lexer.Scanner.{next}
use lugo.Lexer.Valid.{IsValid, next-IsValid}
use lugo.Lexer.Tokens.{next_bounds}
use lugo.Ast.Shape.{IsTree}
use lugo.Parser.{Parser, next_token}
use lugo.Parser.Stream.{Run, live, next_token_lem, Run-IsValid}
use lugo.Parser.Recovery.{remaining}

-- A token lies in a source of `n` bytes.
abbrev pub Inside : ℕ → Token → Type 0
Inside n t = (t.start ≤ t.end) × (t.end ≤ n)

-- Between two steps: the scanner is valid, the tree is of the same source and has its children
-- below their parents, and all that waits on the stack is a node.
pub record Inv (p : Parser) : Type 0 where
  pub valid : IsValid p.lex
  pub source : p.tree.source ≡ p.lex.source
  pub curr : Inside (length p.lex.source) p.curr
  pub peek : Inside (length p.lex.source) p.peek
  pub shape : IsTree p.tree
  pub stack : (i c : ℕ) → get_elem? p.list_stack i ≡ some c → c < length p.tree.nodes

-- The tokens and bytes that are left.
unfoldable pub rest : Parser → ℕ
rest p = remaining p

-- What is stored, and eight times what is left to be read: each token pays for what is stored for
-- it, so this does not grow.
unfoldable pub weight : Parser → ℕ
unfolding rest
weight p = length p.tree.nodes + length p.tree.extra_list + length p.list_stack + 8 * rest p

-- There is room for what a source may need.
abbrev pub Room : Parser → Type 0
Room p = weight p + 16 < 4294967296

-- From `p` to `q` the parser has read on in the same source, the current token first, dropped no node and nothing that
-- waits, and come back to the same depths.
pub record To (p q : Parser) : Type 0 where
  pub inv : Inv q
  pub same : q.lex.source ≡ p.lex.source
  pub less : rest q ≤ rest p
  pub ahead : rest q + live p.curr ≤ rest p + live q.curr
  pub nodes : length p.tree.nodes ≤ length q.tree.nodes
  pub grown : length p.list_stack ≤ length q.list_stack
  pub depth : q.depth ≡ p.depth
  pub loop_depth : q.loop_depth ≡ p.loop_depth
  pub block_depth : q.block_depth ≡ p.block_depth

pub To-trans : {p q s : Parser} → To p q → To q s → To p s
To-trans a b = record {
  inv = b.inv;
  same = b.same ∙ a.same;
  less = omega (arith, a.less, b.less);
  ahead = omega (arith, a.ahead, b.ahead);
  nodes = omega (arith, a.nodes, b.nodes);
  grown = omega (arith, a.grown, b.grown);
  depth = b.depth ∙ a.depth;
  loop_depth = b.loop_depth ∙ a.loop_depth;
  block_depth = b.block_depth ∙ a.block_depth;
}

pub To-refl : {p : Parser} → Inv p → To p p
To-refl inv = record {
  inv = inv;
  same = refl;
  less = omega arith;
  ahead = omega arith;
  nodes = omega arith;
  grown = omega arith;
  depth = refl;
  loop_depth = refl;
  block_depth = refl;
}

-- From `p` to `q` exactly `n` entries have been stored, `s` of them on the stack, and nothing
-- read.
pub record Stores (n s : ℕ) (p q : Parser) : Type 0 where
  pub to : To p q
  pub rest_is : rest q ≡ rest p
  pub weight_is : weight q ≡ weight p + n
  pub level : length q.list_stack ≡ length p.list_stack + s
  pub curr : q.curr ≡ p.curr

-- The token behind a run of comments lies in the source.
Run-Inside :
    (l m : Lexer) (cs : List Token) (t : Token)
    → Run l cs t m
    → IsValid l
    → Inside (length l.source) t
Run-Inside _ _ _ _ (Run.stop l e) v =
    let (_, ordered, inside, _, _, _) = next_bounds l v in (ordered, inside)
Run-Inside _ _ _ _ (Run.more l m cs t e run) v =
    let (_, _, _, _, same, _) = next_bounds l v in
    let (ordered, inside) = Run-Inside (next l).1 m cs t run (next-IsValid l v) in
    (ordered, rw same at inside)

-- `nextToken` pays eight for each token but the end.
pub record Reads (p q : Parser) : Type 0 where
  pub to : To p q
  pub rest_less : rest q + live p.curr ≤ rest p
  pub weight_less : weight q + 8 * live p.curr ≤ weight p
  pub list_stack : length q.list_stack ≡ length p.list_stack

pub next_token-Reads : (p : Parser) → Inv p → Reads p (next_token p)
unfolding weight rest
next_token-Reads p i =
    let (cs, t, m, run, done, valid, _) = next_token_lem p i.valid in
    let (_, same, less, _) = Run-IsValid p.lex m cs t run i.valid in
    let new_peek = Run-Inside p.lex m cs t run i.valid in
    rw done (record {
      to = record {
        inv = record {
          valid = valid;
          source = i.source ∙ sym same;
          curr = rw same i.peek;
          peek = rw same new_peek;
          shape = record {
            nonempty = i.shape.nonempty;
            fits = i.shape.fits;
            placed = i.shape.placed;
          };
          stack = i.stack;
        };
        same = same;
        less = omega (arith, less);
        ahead = omega (arith, less);
        nodes = omega arith;
        grown = omega arith;
        depth = refl;
        loop_depth = refl;
        block_depth = refl;
      };
      rest_less = omega (arith, less);
      weight_less = omega (arith, less);
      list_stack = refl;
    })

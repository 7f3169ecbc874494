-- ===== src/Parser/Good.antt =====
-- What `parseExpression` and `parseBlock` of parser/parser.go promise to the methods that call them.
use lugo.Base.{ℕ, ◌+◌, ◌*◌, ◌≤◌, ◌<◌, ◌≢◌, length, ◌==◌, arith}
use lugo.Token.Set.{TokenSet}
use lugo.Parser.{Parser}
use lugo.Parser.Sound.{rest, weight, Room, To}
use lugo.Parser.Rules.{Runs, Runs-pure, Runs-if, Runs-map}
use lugo.Parser.Steps.{Move, Runs-push}
use lugo.Parser.Tables.{Parsers, push_valid}

-- An expression is a node, or node 0; if it is not 0, something was read, and half of what that
-- pays for is left.
abbrev pub Expr : Parser → Parser → ℕ → Parser → Type 0
Expr b q a s =
    Move b q 0 0 0 s
    × (a < length s.tree.nodes)
    × (a ≢ 0 → (rest s + 1 ≤ rest q) × (weight s + 4 ≤ weight q))

-- A block is a node. An empty one is not paid for.
abbrev pub Block : Parser → Parser → ℕ → Parser → Type 0
Block b q a s = Move b q 0 1 0 s × (a < length s.tree.nodes)

-- Expressions can be read where fewer than `m` tokens and bytes are left, blocks where fewer than
-- `n` are.
pub record Good (r : Parsers) (m n : ℕ) : Type 0 where
  pub expression :
      {b q : Parser} (level : ℕ)
      → To b q
      → Room q
      → rest q < m
      → Runs (r.expression level) q (Expr b q)
  pub block :
      {b q : Parser} (stop : TokenSet)
      → To b q
      → Room q
      → rest q < n
      → Runs (r.block stop) q (Block b q)

-- From `q` to `s` a list of nodes was pushed; each has read something and left three.
abbrev pub Listed : Parser → Parser → Parser → Type 0
Listed b q s =
    To b s
    × (length q.tree.nodes ≤ length s.tree.nodes)
    × (rest s + length s.list_stack ≤ rest q + length q.list_stack)
    × (weight s + 3 * length s.list_stack ≤ weight q + 3 * length q.list_stack)
    × (length q.list_stack ≤ length s.list_stack)

-- An expression waits, if it is one.
pub Runs-push_valid :
    {b q : Parser} (t : To b q) (o : Parser) (e : ℕ)
    → Move b o 0 0 0 q
    → e < length q.tree.nodes
    → (e ≢ 0 → (rest q + 1 ≤ rest o) × (weight q + 4 ≤ weight o))
    → Runs (push_valid e) q (λ _ s. Listed b o s)
Runs-push_valid {b} {q} t o e (t0, g, r, w, l) low paid =
    Runs-if (e == 0) (λ _. Runs-pure tt (t, g, omega arith, omega arith, omega arith))
      (λ valid.
        let (one, four) = paid (ground arith) in
        Runs-map (Runs-push t e low)
          λ _ s (t1, g1, r1, w1, l1, _). (t1, omega arith, omega arith, omega arith, omega arith))

-- A list of expressions is a node, or node 0, too; it leaves less.
abbrev pub ExprList : Parser → Parser → ℕ → Parser → Type 0
ExprList b q a s =
    Move b q 0 0 0 s
    × (a < length s.tree.nodes)
    × (a ≢ 0 → (rest s + 1 ≤ rest q) × (weight s + 2 ≤ weight q))

-- A statement is a node, or node 0; it pays for its place in the block.
abbrev pub Stmt : Parser → Parser → ℕ → Parser → Type 0
Stmt b q a s =
    Move b q 0 0 0 s
    × (a < length s.tree.nodes)
    × (a ≢ 0 → (rest s + 1 ≤ rest q) × (weight s + 1 ≤ weight q))

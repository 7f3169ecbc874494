-- ===== src/Parser/Action.antt =====
-- The steps that the grammar methods of parser/parser.go are made of: a step takes the parser and
-- returns a value with the parser behind it. `none` is a run-time panic, or a loop out of fuel.
use lugo.Base.{
  ℕ, ◌+◌, ◌-◌, Bool, Option, none, some, [], ◌∷◌, ◌++◌, Bytes, length, drop, take, get_elem?,
  modify_at, if◌then◌else◌, u32,
}
use lugo.Token.{Kind}
use lugo.Ast.Kinds.{NodeKind}
use lugo.Ast.{Node, add_node}
use lugo.Parser.{Parser, is_kind, next_token, error, error_at, flush_list_stack}

abbrev pub Action : Type 0 → Type 0
Action A = Parser → Option (A × Parser)

unfoldable pub pure : {A : Type 0} → A → Action A
pure a p = some (a, p)

unfoldable pub fail : {A : Type 0} → Action A
fail p = none

-- What follows a step; after a panic, nothing.
abbrev pub continue : {A B : Type 0} → (A → Action B) → Option (A × Parser) → Option (B × Parser)
continue k none = none
continue k (some (a, q)) = k a q

infixl 5 ◌>>=◌ ◌>>◌
unfoldable pub ◌>>=◌ : {A B : Type 0} → Action A → (A → Action B) → Action B
◌>>=◌ m k p = continue k (m p)

abbrev pub ◌>>◌ : {B : Type 0} → Action (Unit {0}) → Action B → Action B
m >> k = m >>= λ _. k

unfoldable pub gets : {A : Type 0} → (Parser → A) → Action A
gets f p = some (f p, p)

unfoldable pub modify : (Parser → Parser) → Action (Unit {0})
modify f p = some (tt, f p)

-- `p.curr.Kind == k`
abbrev pub at_kind : Kind → Action Bool
at_kind k = gets λ p. is_kind p.curr.kind k

abbrev pub advance : Action (Unit {0})
advance = modify next_token

abbrev pub report : Bytes → Action (Unit {0})
report message = modify λ p. error p message

abbrev pub report_at : ℕ → ℕ → Bytes → Action (Unit {0})
report_at start end message = modify λ p. error_at p start end message

-- `if p.curr.Kind == k { p.nextToken() } else { p.error(message) }`
unfoldable pub expect : Kind → Bytes → Action (Unit {0})
expect k message = do here ← at_kind k; if here then advance else report message

-- `ast.Node{Kind: kind, Start: start, End: end}`
abbrev pub node : NodeKind → ℕ → ℕ → Node
node kind start end = record {
  kind = kind;
  start = start;
  end = end;
  parent = 0;
  left = 0;
  right = 0;
  extra = 0;
  count = 0;
  flags = 0;
}

-- What is read or made of the tree, if that does not panic.
abbrev pub returning : {A B : Type 0} → (A → B × Parser) → Option A → Option (B × Parser)
returning f none = none
returning f (some a) = some (f a)

-- `p.tree.AddNode(n)`
unfoldable pub add : Node → Action ℕ
add n p = returning (λ r. (r.1, record p { tree = r.0 })) (add_node p.tree n)

-- `p.tree.Nodes[id]`
unfoldable pub node_of : ℕ → Action Node
node_of id p = returning (λ n. (n, p)) (get_elem? p.tree.nodes id)

-- An assignment to fields of `p.tree.Nodes[id]`
unfoldable pub update : ℕ → (Node → Node) → Action (Unit {0})
update id f p =
    returning (λ nodes. (tt, record p { tree = record p.tree { nodes = nodes } }))
      (modify_at id f p.tree.nodes)

-- `p.tree.ExtraList[i]`
unfoldable pub extra_of : ℕ → Action ℕ
extra_of i p = returning (λ c. (c, p)) (get_elem? p.tree.extra_list i)

-- `p.listStack = append(p.listStack, id)`
abbrev pub push : ℕ → Action (Unit {0})
push id = modify λ p. record p { list_stack = p.list_stack ++ (id ∷ []) }

-- `len(p.listStack)`
abbrev pub mark : Action ℕ
mark = gets λ p. length p.list_stack

unfoldable pub flush : ℕ → Action (ℕ × ℕ)
flush stack_start p = let (q, piece) = flush_list_stack p stack_start in some (piece, q)

-- What `parseExprList` and `parseFor` do in place of `flushListStack`.
unfoldable pub append_list : ℕ → Action (ℕ × ℕ)
append_list stack_start p = some (
  (u32 (length p.tree.extra_list), u32 (length p.list_stack - stack_start)),
  record p {
    tree = record p.tree { extra_list = p.tree.extra_list ++ drop stack_start p.list_stack };
    list_stack = take stack_start p.list_stack;
  },
)

-- More rounds than a loop can go that reads a token in each.
abbrev pub rounds : Action ℕ
rounds = gets λ p. length p.lex.source + 3

-- A node at the current token, which stays.
unfoldable pub add_here : NodeKind → Action ℕ
add_here kind = do t ← gets λ p. p.curr; add (node kind t.start t.end)

-- An empty node in front of the current token, where a name is missing.
unfoldable pub add_missing : Action ℕ
add_missing = do t ← gets λ p. p.curr; add (node NodeKind.ident t.start t.start)

-- A node at the current token, which is read.
unfoldable pub leaf : NodeKind → Action ℕ
leaf kind = do id ← add_here kind; advance; pure id

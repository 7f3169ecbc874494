-- ===== src/Parser/Program/Parse.antt =====
-- `New` and `Parse` of parser/parser.go together, and `NodeAt` of ast/ast.go on the tree they make.
use lugo.Base.{
  ℕ, ◌+◌, ◌*◌, ◌≤◌, ◌<◌, ◌≡◌, refl, sym, ap, ◌∙◌, inl, inr, [], some, Bytes, length, get_elem?,
  get_elem?-some, u32, arith,
}
use lugo.Token.{Kind}
use lugo.Token.Codes.{kind_code, kind_code_injective}
use lugo.Lexer.Machine
use lugo.Lexer.Valid.{new-IsValid}
use lugo.Ast.{Node, Tree}
use lugo.Ast.Find.{node_at}
use lugo.Ast.Shape.{IsTree}
use lugo.Ast.Innermost.{IsInnermost, RootMisses, node_at_lem}
use lugo.Parser.{Parser, zero_token, next_token, new}
use lugo.Parser.Stream.{live, next_token_lem}
use lugo.Parser.Sound.{Inv, rest, weight, Room, To, To-trans, Reads, next_token-Reads}
use lugo.Parser.Rules.{Runs}
use lugo.Parser.Program.{parse}
use lugo.Parser.Program.Total.{IsFile, Parsed, parse-Runs}

-- A tree of the source with room for what parsing it can add: eight entries for each byte.
pub record Fits (source : Bytes) (tree : Tree) : Type 0 where
  pub same : tree.source ≡ source
  pub shape : IsTree tree
  pub room : length tree.nodes + length tree.extra_list + 8 * length source + 32 < 4294967296

module _ (source : Bytes) (tree : Tree) (max_errors : ℕ) (h : Fits source tree) where
  abbrev begun : Parser
  begun = record {
    lex = Machine.new source;
    tree = tree;
    errors = [];
    max_errors = max_errors;
    prev = zero_token;
    curr = zero_token;
    peek = zero_token;
    loop_depth = 0;
    depth = 0;
    block_depth = 0;
    list_stack = [];
  }

  fits_source : length source < 4294967296
  fits_source = omega (arith, h.room)

  begun-Inv : Inv begun
  begun-Inv =
      let (valid, _, same) = new-IsValid source fits_source in
      record {
        valid = valid;
        source = h.same ∙ sym same;
        curr = (omega arith, omega arith);
        peek = (omega arith, omega arith);
        shape = h.shape;
        stack = λ i c e. cc;
      }

  begun-rest : rest begun ≤ length source + 2
  unfolding rest kind_code
  begun-rest = let (_, _, same) = new-IsValid source fits_source in omega (arith, ap length same)

  begun-weight : weight begun ≡ length tree.nodes + length tree.extra_list + 8 * rest begun
  unfolding weight
  begun-weight = omega arith

  first : Reads begun (next_token begun)
  first = next_token-Reads begun begun-Inv

  second : Reads (next_token begun) (next_token (next_token begun))
  second = next_token-Reads (next_token begun) first.to.inv

  first-live : live (next_token begun).curr ≡ 1
  unfolding kind_code
  first-live =
      let (cs, t, m, run, done, _, _) = next_token_lem begun begun-Inv.valid in rw done refl

  zero-live : live begun.curr ≡ 1
  unfolding kind_code
  zero-live = refl

  new-To : To begun (new source tree max_errors)
  unfolding new
  new-To = To-trans first.to second.to

  new-rest : rest (new source tree max_errors) ≤ length source
  unfolding new
  new-rest = omega (arith, first.rest_less, second.rest_less, begun-rest, first-live, zero-live)

  new-weight :
      weight (new source tree max_errors)
      ≤ length tree.nodes + length tree.extra_list + 8 * length source
  unfolding new
  new-weight = omega (
    arith, first.weight_less, second.weight_less, begun-rest, begun-weight, first-live, zero-live,
  )

  new-stack : length (new source tree max_errors).list_stack ≡ 0
  unfolding new
  new-stack = omega (arith, first.list_stack, second.list_stack)

  -- Where `New` begins: its parser keeps the invariant, and no more is left than the source.
  pub new-Inv :
      Inv (new source tree max_errors)
      × Room (new source tree max_errors)
      × (rest (new source tree max_errors) ≤ length source)
      × (length tree.nodes ≤ length (new source tree max_errors).tree.nodes)
  new-Inv =
      let kept = new-To.nodes in (new-To.inv, omega (arith, new-weight, h.room), new-rest, kept)

  parsed : Runs parse (new source tree max_errors) (Parsed (new source tree max_errors))
  parsed = parse-Runs (new source tree max_errors) new-To.inv (omega (arith, new-weight, h.room))

  weight-stored : (q : Parser) → length q.tree.nodes + length q.tree.extra_list ≤ weight q
  unfolding weight
  weight-stored q = omega arith

  -- What `Parse` returns, in one piece
  outcome :
      (root : ℕ) × (q : Parser) × (parse (new source tree max_errors) ≡ some (root, q))
      × Parsed (new source tree max_errors) root q
  outcome = (parsed.value, parsed.after, parsed.done, parsed.holds)

  source_kept :
      (root : ℕ) (q : Parser) → Parsed (new source tree max_errors) root q → q.tree.source ≡ source
  source_kept root q x =
      let (_, _, same) = new-IsValid source fits_source in
      x.to.inv.source ∙ (x.to.same ∙ (new-To.same ∙ same))

  -- If the tree is one of the source whose children are below their parents, and there is room
  -- below 2 ^ 32 for eight entries for each byte, `New` and `Parse` return without a panic: the tree
  -- is still one of the source, its children are below their parents, and its root is the node that
  -- is returned, a file from the first byte to the end.
  pub parse_lem :
      (root : ℕ) × (q : Parser) × (parse (new source tree max_errors) ≡ some (root, q))
      × IsTree q.tree
      × (q.tree.source ≡ source)
      × (q.tree.root ≡ root)
      × (m : Node) × (get_elem? q.tree.nodes root ≡ some m)
      × IsFile source m
  parse_lem =
      let (root, q, done, x) = outcome in
      let (m, at) = get_elem?-some q.tree.nodes root x.root_inside in
      let same = source_kept root q x in
      (root, q, done, x.to.inv.shape, same, x.root_is, m, at, rw same at (x.file m at))

  -- `Parse` reads on to the end, from a tree of the source whose children are below their parents,
  -- with room below 2 ^ 32 for eight entries for each byte: it returns, and the current token is
  -- then the end of the file.
  pub parse_at_end :
      (root : ℕ) × (q : Parser) × (parse (new source tree max_errors) ≡ some (root, q))
      × (q.curr.kind ≡ Kind.eof)
  unfolding kind_code
  parse_at_end =
      let (root, q, done, x) = outcome in
      let none = x.at_end in
      (root, q, done, kind_code_injective q.curr.kind Kind.eof (ground arith))

  -- Every method takes back what it counts and pushes: from a tree of the source whose children are
  -- below their parents, with room below 2 ^ 32 for eight entries for each byte, `Parse` returns,
  -- and then all three depths are 0 and nothing waits on the stack.
  pub parse_balanced :
      (root : ℕ) × (q : Parser) × (parse (new source tree max_errors) ≡ some (root, q))
      × (q.depth ≡ 0)
      × (q.loop_depth ≡ 0)
      × (q.block_depth ≡ 0)
      × (length q.list_stack ≡ 0)
  parse_balanced =
      let (root, q, done, x) = outcome in
      (
        root,
        q,
        done,
        x.to.depth ∙ new-To.depth,
        x.to.loop_depth ∙ new-To.loop_depth,
        x.to.block_depth ∙ new-To.block_depth,
        x.level ∙ new-stack,
      )

  -- From a tree of the source whose children are below their parents, with room below 2 ^ 32 for
  -- eight entries for each byte, `Parse` returns, and the tree has then grown by at most eight
  -- entries, nodes and extra children together, for each byte of the source, and two more.
  pub parse_size :
      (root : ℕ) × (q : Parser) × (parse (new source tree max_errors) ≡ some (root, q))
      × (length q.tree.nodes + length q.tree.extra_list
          ≤ length tree.nodes + length tree.extra_list + 8 * length source + 2)
  parse_size =
      let (root, q, done, x) = outcome in
      (root, q, done, omega (arith, weight-stored q, x.weight_le, new-weight))

  -- In the tree that `Parse` makes, from a tree of the source whose children are below their
  -- parents and with room below 2 ^ 32 for eight entries for each byte, `NodeAt` finds a node at
  -- every offset of the source: one that is reached from the root over children that all hold the
  -- offset, and that has no child that holds it, where the statements of a block or file count as
  -- its children only if they stand in order; it is not said here that they do.
  pub parse-node_at :
      (offset : ℕ)
      → offset ≤ length source
      → (root : ℕ) × (q : Parser) × (parse (new source tree max_errors) ≡ some (root, q))
        × (id : ℕ) × (node_at q.tree offset ≡ some (some id))
        × IsInnermost q.tree offset root id
  parse-node_at offset inside =
      let (root, q, done, x) = outcome in
      let (id, found, cases) = node_at_lem q.tree offset x.to.inv.shape in
      (
        root,
        q,
        done,
        id,
        found,
        elim cases [
          | inl (misses, _) ↦ absurd (held root q x offset inside misses)
          | inr innermost ↦ rw x.root_is at innermost
        ],
      )
    where
      held :
          (root : ℕ) (q : Parser)
          → Parsed (new source tree max_errors) root q
          → (offset : ℕ) → offset ≤ length source
          → RootMisses q.tree offset
          → ⊥
      held root q x offset inside (inl outside) = omega (arith, x.root_is, x.root_inside)
      held root q x offset inside (inr (inl zero_root)) = omega (arith, x.root_is, x.root_positive)
      held root q x offset inside (inr (inr (m, at, misses))) =
          let (_, start, end) = x.file m (rw x.root_is at at) in
          let same = source_kept root q x in
          let size : u32 (length source) ≡ length source = omega (arith, fits_source) in
          let end' : m.end ≡ length source =
            end ∙ (ap (λ (cs : Bytes). u32 (length cs)) same ∙ size) in
          ground (arith, misses, start, end')

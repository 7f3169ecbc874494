-- ===== src/Lib.antt =====
-- Verification of lugo, a language server for Lua written in Go: the token sets, the scanner, the
-- arrays of the syntax tree, the parser and the eviction of sources.
--
-- The scanner (lexer/lexer.go) turns the bytes of a source into tokens (token/token.go). The parser
-- (parser/parser.go) reads them one by one with `Next`, tests their kinds with token sets, and
-- builds the tree (ast/ast.go) bottom up with `AddNode`. The resolver (semantic/resolver.go) and the
-- server (lsp/) read the tree.
--
-- Base.antt and Base/: tests on numbers, byte slices, bits. A slice is a list of bytes, a byte a
--   natural number; a conversion `uint32(n)` is `u32 n`, that is `n % 2 ^ 32`.
-- Token.antt and Token/: token/token.go. `Kind` has the constants in their order, Token.Codes their
--   values, Token.Set the sets: `TokenSet`, `NewTokenSet` (new_token_set), `Contains` (contains).
-- Lexer.antt and Lexer/: lexer/lexer.go. Lexer.Chars has the table `charProps`; Lexer.Machine the
--   struct `Lexer` with `New`, `Reset`, `advance` and `peek`; Lexer.Readers one function for each
--   method that reads a token; Lexer.Scanner `Next`, where `dispatch` is the switch over the first
--   byte and next_less, next_greater, next_dot and next_word are its longer cases. Methods take the
--   state and return the new one beside their result. Lexer.Spec and Lexer.Scan describe on the
--   bytes that are left, without cursors, which token they begin with; Lexer.State, Lexer.Bounds,
--   Lexer.Consume, Lexer.Loops, Lexer.Reads and Lexer.Words lead to the theorem of Lexer.Next, that
--   `Next` computes this description. Lexer.Valid has the invariant of the state; Lexer.Tokens,
--   Lexer.End, Lexer.Literals, Lexer.Brackets and Lexer.Operators say what tokens are read;
--   Lexer.Keywords lists the keywords of Lua.
-- Ast.antt and Ast/: ast/ast.go. `Node` and `Tree` have the fields of the structs, with lists for the
--   arrays; Ast.Kinds has the node kinds, Ast.Lines `computeLineOffsets`, Ast.Hash the hashes,
--   Ast.Parents and Ast.Links what `AddNode` does to the parents, Ast.Shape the shape of the trees,
--   Ast.Find `NodeAt` with its two searches, and Ast.Reached, Ast.Sorted, Ast.Descend and
--   Ast.Innermost what it finds, Ast.Index `IndexOfExtra`, Ast.Renew `Reset`, Ast.Position
--   `Position`, Ast.LineOf and Ast.LineOrder the line that it finds, Ast.Offset `Offset`, and
--   Ast.Runes and Ast.RoundTrip that it goes back from there.
--   An index out of range, a run-time panic in Go, is `none`.
-- Parser.antt and Parser/: parser/parser.go. `Parser` has the fields of the struct, with the scanner
--   and the tree that the pointers name, which nothing else changes while a source is parsed. It has
--   `New`, `Reset`, `nextToken`, `isAt`, `error`, `errorAt`, `sync`, `flushListStack` and
--   `isIdentOrKeyword`; Parser.Stream is about `nextToken`, Parser.Start about `New` and `Reset`,
--   Parser.Recovery about `sync`, Parser.Stack about `flushListStack`. The grammar is written in
--   steps (Parser.Action): a step takes the parser and returns a value with the parser behind it, or
--   `none` where Go panics. Parser.Tables has the expression lists and table constructors,
--   Parser.Calls the call arguments and function bodies, Parser.Expressions the operators and
--   operands, Parser.Statements and Parser.Declarations the statements, Parser.Program the blocks
--   and `Parse`. A method has the name of its Go method in snake case (parseExprList is
--   parse_expr_list); the cases of its switch, the rounds of its loops and the arms of its longer
--   conditions are functions of their own. Methods that call `parseExpression` or `parseBlock` take
--   these as a record `Parsers`; `parsers` ties the circle by recursion on fuel, and `parse` gives it
--   three more than the bytes of the source. The other modules are proofs: Parser.Rules
--   has a rule for each way to make a step, Parser.Sound the invariant between two steps and the
--   weight that pays for what is stored, Parser.Stores, Parser.Flush, Parser.Steps, Parser.Nodes and
--   Parser.Depths what the single steps do to them, Parser.Good the contract of `parseExpression`
--   and `parseBlock`. A module `Total`, or one of its siblings, says for each method that it keeps
--   the contract of its kind, Parser.Program.Infix which tokens `parseInfix` takes, and
--   Parser.Program.Parse what this gives for `New` and `Parse`.
-- Eviction.antt and Eviction/: lsp/eviction.go, and `evictSourceLocked` of lsp/global_index.go. `Policy`
--   is `EvictionPolicy`, `Index` and `Resource` the fields of `GlobalIndex` and `ResourceScope` that
--   eviction reads or sets; a map is an association list, a nil map the empty one, and the clock an
--   argument, where times are not negative. It has
--   `NewEvictionPolicy`, `RegisterEviction` with `registerEvictionLocked` (register_eviction),
--   `oldestVictimIndexLocked` (oldest_victim_index) and `EvictOldest`. Eviction.Spec says, apart from
--   the code, which entry is the oldest and what evicting it changes; Eviction.Maps has the maps,
--   Eviction.Order and Eviction.Victim are about the choice of the victim, Eviction.Bound about
--   `EvictOldest`,
--   Eviction.Memory about the account of the memory, Eviction.Register about the entries.
--
-- Loops that walk over the source by an index are recursions on the bytes that are left. The loops
-- that call `advance` (in readNumber and readLongString) and the one of `computeLineOffsets` run on
-- fuel, for which they are given the length of the source: each round passes a byte, and the
-- theorems, which are about the results, hold for this amount. The descent of `NodeAt` has the number
-- of nodes, since children are below their parents, and its binary search the number of children.
-- The loops of the grammar have three rounds more than the bytes of the source (`rounds`), and so
-- has the recursion between `parseExpression` and `parseBlock`: each round reads a token, and the
-- theorems are about these amounts, for all sources. `nextToken`
-- has the length of the source, since a comment has at least one byte, and `sync` three more, for the
-- tokens that are looked at. Sources have fewer than 2 ^ 32 bytes where positions would wrap around
-- otherwise; the hypotheses say so.
--
-- Not modelled: `TrimOversized` and `String` of ast/ast.go, which change capacities and
-- representations only, and `GetTree` of parser/parser.go, which returns a field; what other
-- goroutines do to the index while `EvictOldest` runs, which holds the lock of the policy only;
-- the resolver, the rest of the server, and the programs around them.
pub mod Base
pub mod Token
pub mod Lexer
pub mod Ast
pub mod Parser
pub mod Eviction

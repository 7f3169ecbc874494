-- ===== src/Parser/Program/Statement.antt =====
-- `parseStatement` of parser/parser.go does not panic and comes to an end.
use lugo.Base.{ℕ, ◌≤◌, ◌<◌, ◌≡◌, refl, false, if◌then◌else◌}
use lugo.Token.{Kind}
use lugo.Token.Codes.{kind_code}
use lugo.Parser.{Parser, is_kind}
use lugo.Parser.Stream.{live}
use lugo.Parser.Sound.{rest, Room, To}
use lugo.Parser.Rules.{Runs, Runs-if, Runs-gets}
use lugo.Parser.Steps.{live-kind}
use lugo.Parser.Good.{Good, Stmt}
use lugo.Parser.Action.{Action}
use lugo.Parser.Tables.{Parsers}
use lugo.Parser.Statements.Assign.{parse_assignment_or_call-Runs}
use lugo.Parser.Statements.If.{parse_if-Runs}
use lugo.Parser.Statements.Small.{parse_break-Runs, parse_goto-Runs, parse_label-Runs}
use lugo.Parser.Statements.Total.{
  parse_return-Runs, parse_while-Runs, parse_repeat-Runs, parse_do-Runs,
}
use lugo.Parser.Declarations.For.{parse_for-Runs}
use lugo.Parser.Declarations.Functions.{parse_function_stmt-Runs}
use lugo.Parser.Declarations.Local.{parse_local-Runs}
use lugo.Parser.Program.{parse_statement}

module _ (r : Parsers) {m n : ℕ} (good : Good r m n) {b q : Parser} (t : To b q) (room : Room q)
    (hm : rest q < m) (hn : rest q ≤ n) where
  -- A statement that begins with a keyword
  infixr 1 at◌by◌runs◌otherwise◌
  at◌by◌runs◌otherwise◌ :
      {x y : Action ℕ} (k : Kind)
      → is_kind k Kind.eof ≡ false
      → (live q.curr ≡ 1 → Runs x q (Stmt b q))
      → Runs y q (Stmt b q)
      → Runs (if is_kind q.curr.kind k then x else y) q (Stmt b q)
  at k by alive runs f otherwise other =
      Runs-if (is_kind q.curr.kind k) (λ e. f (live-kind q.curr k e alive)) (λ _. other)

  pub parse_statement-Runs : Runs (parse_statement r) q (Stmt b q)
  unfolding parse_statement kind_code
  parse_statement-Runs = Runs-gets _ _ (
      at Kind.local_kw
      by refl
      runs parse_local-Runs r good t room hm hn
      otherwise at Kind.if_kw
      by refl
      runs parse_if-Runs r good t room hm hn
      otherwise at Kind.return_kw
      by refl
      runs parse_return-Runs r good t room hm hn
      otherwise at Kind.while_kw
      by refl
      runs parse_while-Runs r good t room hm hn
      otherwise at Kind.repeat_kw
      by refl
      runs parse_repeat-Runs r good t room hm hn
      otherwise at Kind.for_kw
      by refl
      runs parse_for-Runs r good t room hm hn
      otherwise at Kind.do_kw
      by refl
      runs parse_do-Runs r good t room hm hn
      otherwise at Kind.break_kw
      by refl
      runs parse_break-Runs t room
      otherwise at Kind.goto_kw
      by refl
      runs parse_goto-Runs t room
      otherwise at Kind.double_colon
      by refl
      runs parse_label-Runs t room
      otherwise at Kind.function_kw
      by refl
      runs parse_function_stmt-Runs r good t room hn
      otherwise parse_assignment_or_call-Runs r good t room hm)

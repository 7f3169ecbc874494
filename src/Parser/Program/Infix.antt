-- ===== src/Parser/Program/Infix.antt =====
-- The operators that `parseInfix` of parser/parser.go takes, and the precedences of their tokens.
use lugo.Base.{ℕ, ◌≤◌, ◌<◌, ◌≡◌, inl, inr, some, length, ltb, arith, Bool-cases}
use lugo.Parser.{Parser}
use lugo.Parser.Sound.{Inv, rest, Room, To-refl}
use lugo.Parser.Tables.{precedence}
use lugo.Parser.Expressions.{parse_infix}
use lugo.Parser.Expressions.Total.{parse_infix-Runs, parse_infix-Stays}
use lugo.Parser.Program.{parsers}
use lugo.Parser.Program.Total.{parsers-Good}

-- The table of precedences and the `switch` of `parseInfix` agree. From a parser that keeps its
-- invariant, with room below 2 ^ 32 and at least as many rounds as tokens and bytes are left, and
-- with a left operand that is a node other than 0, `parseInfix` returns without a panic. If the
-- current token has the precedence `Lowest`, no case takes it: the left operand and the parser
-- come back as they were. If it has a greater one, a case takes it: something is read, and a node
-- other than 0 comes back.
pub parse_infix_lem :
    (n : ℕ) (q : Parser) (left : ℕ)
    → Inv q
    → Room q
    → rest q ≤ n
    → 0 < left
    → left < length q.tree.nodes
    → (id : ℕ) × (s : Parser) × (parse_infix (parsers n) left q ≡ some (id, s))
      × (precedence q.curr.kind ≡ 0 → (id ≡ left) × (s ≡ q))
      × (0 < precedence q.curr.kind → (rest s < rest q) × (0 < id) × (id < length s.tree.nodes))
parse_infix_lem n q left inv room h pos low = elim (Bool-cases (ltb 0 (precedence q.curr.kind))) [
  | inl above ↦
      let x =
        parse_infix-Runs (parsers n) (parsers-Good n) (To-refl inv) room h left pos low 0 above in
      let (_, _, less, _, _, new, inside) = x.holds in
      (x.value, x.after, x.done, (λ e. absurd (ground arith)), (λ _. (omega arith, new, inside)))
  | inr none_above ↦
      let x = parse_infix-Stays (parsers n) q left low none_above in
      (x.value, x.after, x.done, (λ _. x.holds), (λ e. absurd (ground arith)))
]

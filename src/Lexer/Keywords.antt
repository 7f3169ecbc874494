-- ===== src/Lexer/Keywords.antt =====
-- The keywords that `readIdent` of lexer/lexer.go knows.
use lugo.Base.{◌≡◌, ◌⊎◌, inl, inr, refl, List, [], ◌∷◌, Bytes, equal, equal_iff, Bool-cases}
use lugo.Token.{Kind}
use lugo.Lexer.Readers.{codes, keywords, find_kind}

-- The keywords of Lua 5.4, and the constants of token/token.go that stand for them.
pub data Spells : Bytes → Kind → Type 0 where
  and_kw : Spells (codes "and") Kind.and_kw
  break_kw : Spells (codes "break") Kind.break_kw
  do_kw : Spells (codes "do") Kind.do_kw
  else_kw : Spells (codes "else") Kind.else_kw
  else_if_kw : Spells (codes "elseif") Kind.else_if_kw
  end_kw : Spells (codes "end") Kind.end_kw
  false_kw : Spells (codes "false") Kind.false_kw
  for_kw : Spells (codes "for") Kind.for_kw
  function_kw : Spells (codes "function") Kind.function_kw
  goto_kw : Spells (codes "goto") Kind.goto_kw
  if_kw : Spells (codes "if") Kind.if_kw
  in_kw : Spells (codes "in") Kind.in_kw
  local_kw : Spells (codes "local") Kind.local_kw
  nil_kw : Spells (codes "nil") Kind.nil_kw
  not_kw : Spells (codes "not") Kind.not_kw
  or_kw : Spells (codes "or") Kind.or_kw
  repeat_kw : Spells (codes "repeat") Kind.repeat_kw
  return_kw : Spells (codes "return") Kind.return_kw
  then_kw : Spells (codes "then") Kind.then_kw
  true_kw : Spells (codes "true") Kind.true_kw
  until_kw : Spells (codes "until") Kind.until_kw
  while_kw : Spells (codes "while") Kind.while_kw

-- Each entry of a table is a keyword with its kind.
data AllSpell : List (Bytes × Kind) → Type 0 where
  none_left : AllSpell []
  first_spells :
      {w : Bytes} {k : Kind} {ws : List (Bytes × Kind)}
      → Spells w k
      → AllSpell ws
      → AllSpell ((w, k) ∷ ws)

infixr 5 ◌and_then◌
◌and_then◌ :
    {w : Bytes} {k : Kind} {ws : List (Bytes × Kind)}
    → Spells w k
    → AllSpell ws
    → AllSpell ((w, k) ∷ ws)
◌and_then◌ = AllSpell.first_spells

keywords-AllSpell : AllSpell keywords
keywords-AllSpell =
    Spells.and_kw and_then Spells.break_kw and_then Spells.do_kw and_then Spells.else_kw
    and_then Spells.else_if_kw and_then Spells.end_kw and_then Spells.false_kw
    and_then Spells.for_kw and_then Spells.function_kw and_then Spells.goto_kw and_then Spells.if_kw
    and_then Spells.in_kw and_then Spells.local_kw and_then Spells.nil_kw and_then Spells.not_kw
    and_then Spells.or_kw and_then Spells.repeat_kw and_then Spells.return_kw
    and_then Spells.then_kw and_then Spells.true_kw and_then Spells.until_kw
    and_then Spells.while_kw and_then AllSpell.none_left

-- What is found in such a table is the kind of a keyword, or that of an identifier.
find_kind-Spells :
    (w : Bytes) (ws : List (Bytes × Kind))
    → AllSpell ws
    → Spells w (find_kind w ws) ⊎ (find_kind w ws ≡ Kind.ident)
unfolding find_kind
find_kind-Spells w _ AllSpell.none_left = inr refl
find_kind-Spells w _ (AllSpell.first_spells {w = v} {k} {ws} first others) =
    elim (Bool-cases (equal w v)) [
      | inl same ↦ let here = (equal_iff w v).0 same in rw same (inl (rw here first))
      | inr other ↦ rw other (find_kind-Spells w ws others)
    ]

find_kind-keyword : (w : Bytes) (k : Kind) → Spells w k → find_kind w keywords ≡ k
unfolding find_kind equal
find_kind-keyword _ _ Spells.and_kw = refl
find_kind-keyword _ _ Spells.break_kw = refl
find_kind-keyword _ _ Spells.do_kw = refl
find_kind-keyword _ _ Spells.else_kw = refl
find_kind-keyword _ _ Spells.else_if_kw = refl
find_kind-keyword _ _ Spells.end_kw = refl
find_kind-keyword _ _ Spells.false_kw = refl
find_kind-keyword _ _ Spells.for_kw = refl
find_kind-keyword _ _ Spells.function_kw = refl
find_kind-keyword _ _ Spells.goto_kw = refl
find_kind-keyword _ _ Spells.if_kw = refl
find_kind-keyword _ _ Spells.in_kw = refl
find_kind-keyword _ _ Spells.local_kw = refl
find_kind-keyword _ _ Spells.nil_kw = refl
find_kind-keyword _ _ Spells.not_kw = refl
find_kind-keyword _ _ Spells.or_kw = refl
find_kind-keyword _ _ Spells.repeat_kw = refl
find_kind-keyword _ _ Spells.return_kw = refl
find_kind-keyword _ _ Spells.then_kw = refl
find_kind-keyword _ _ Spells.true_kw = refl
find_kind-keyword _ _ Spells.until_kw = refl
find_kind-keyword _ _ Spells.while_kw = refl

-- `k` is the kind of the word `w`: that of the keyword if it is one, and an identifier otherwise.
pub record IsKindOf (w : Bytes) (k : Kind) : Type 0 where
  pub of_keyword : (j : Kind) → Spells w j → k ≡ j
  pub otherwise : Spells w k ⊎ (k ≡ Kind.ident)

pub find_kind-IsKindOf : (w : Bytes) → IsKindOf w (find_kind w keywords)
find_kind-IsKindOf w = record {
  of_keyword = λ j s. find_kind-keyword w j s;
  otherwise = find_kind-Spells w keywords keywords-AllSpell;
}

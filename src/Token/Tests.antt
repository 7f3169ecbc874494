-- ===== src/Token/Tests.antt =====
-- The token sets of parser/parser.go, and the theorem about sets at one of them.
use lugo.Base.{◌≡◌, ◌↔◌, refl, true, false, [], ◌∷◌}
use lugo.Token.{Kind}
use lugo.Token.Codes.{kind_code}
use lugo.Token.Set.{TokenSet, new_token_set, contains, Member, contains-new_token_set}

-- `stopBlockIf`
stop_block_if : TokenSet
stop_block_if = new_token_set (Kind.else_if_kw ∷ Kind.else_kw ∷ Kind.end_kw ∷ [])

stop_block_if_vararg : contains stop_block_if Kind.vararg ≡ false
unfolding stop_block_if new_token_set contains kind_code
stop_block_if_vararg = refl

contains-new_token_set_example :
    let ks = Kind.else_kw ∷ Kind.vararg ∷ [] in
    (contains (new_token_set ks) Kind.vararg ≡ true) ↔ Member Kind.vararg ks
contains-new_token_set_example =
    contains-new_token_set (Kind.else_kw ∷ Kind.vararg ∷ []) Kind.vararg

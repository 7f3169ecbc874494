-- ===== src/Token/Set.antt =====
-- `TokenSet` of token/token.go: two `uint64` words, one bit for each kind.
use lugo.Base.{
  ℕ, ◌/◌, ◌%◌, ◌^◌, ◌≡◌, refl, ◌∙◌, ap, Bool, true, false, not, ◌||◌, ◌⊎◌, inl, inr, ◌↔◌, ==_iff,
  List, [], ◌∷◌, ◌*◌, bit_and, bit_or, arith, ltb, ◌==◌, if◌then◌else◌, Bool-cases,
}
use lugo.Base.Bits.{digit, digit-bit_or, bit_and-pow, digit-zero, digit-le, digit-pow, one-le-pow}
use lugo.Token.{Kind}
use lugo.Token.Codes.{kind_code, kind_code_lt, kind_code_injective}

pub record TokenSet : Type 0 where
  pub word0 : ℕ
  pub word1 : ℕ

abbrev empty : TokenSet
empty = record { word0 = 0; word1 = 0 }

-- The body of the loop of `NewTokenSet`.
insert : TokenSet → Kind → TokenSet
insert s k =
    let i = kind_code k / 64 in
    let mask = 2 ^ (kind_code k % 64) in
    if ltb i 2
    then if i == 0
      then record s { word0 = bit_or s.word0 mask }
      else record s { word1 = bit_or s.word1 mask }
    else s

insert_all : TokenSet → List Kind → TokenSet
insert_all s [] = s
insert_all s (k ∷ ks) = insert_all (insert s k) ks

unfoldable pub new_token_set : List Kind → TokenSet
unfolding insert_all insert
new_token_set kinds = insert_all empty kinds

unfoldable pub contains : TokenSet → Kind → Bool
contains s k =
    let i = kind_code k / 64 in
    let mask = 2 ^ (kind_code k % 64) in
    if ltb i 2 then not (bit_and (if i == 0 then s.word0 else s.word1) mask == 0) else false

-- `k` is one of `ks`.
unfoldable pub one_of : Kind → List Kind → Bool
one_of k [] = false
one_of k (j ∷ ks) = kind_code k == kind_code j || one_of k ks

-- A bit of a word, as a test.
abbrev bit_of : ℕ → ℕ → Bool
bit_of w k = digit k w == 1

bit_test : (w k : ℕ) → not (bit_and w (2 ^ k) == 0) ≡ bit_of w k
bit_test w k =
    let bound = digit-le k w in
    ground (arith, bit_and-pow k w, one-le-pow k, product (digit k w) (2 ^ k))
  where
    product : (a b : ℕ) → (a ≡ 0 → a * b ≡ 0) × (a ≡ 1 → a * b ≡ b)
    product a b = ((λ e. rw e (omega arith)), λ e. rw e (omega arith))

contains_digit :
    (s : TokenSet) (k : Kind)
    → contains s k ≡ bit_of (if kind_code k / 64 == 0 then s.word0 else s.word1) (kind_code k % 64)
unfolding contains
contains_digit s k = ground (
  arith,
  kind_code_lt k,
  bit_test s.word0 (kind_code k % 64),
  bit_test s.word1 (kind_code k % 64),
)

contains-insert :
    (s : TokenSet) (k j : Kind)
    → contains (insert s k) j ≡ (kind_code j == kind_code k || contains s j)
unfolding insert
contains-insert s k j =
    rw (contains_digit (insert s k) j, contains_digit s j)
      (ground (
        arith,
        kind_code_lt k,
        kind_code_lt j,
        digit-bit_or (kind_code j % 64) s.word0 (2 ^ (kind_code k % 64)),
        digit-bit_or (kind_code j % 64) s.word1 (2 ^ (kind_code k % 64)),
        digit-pow (kind_code j % 64) (kind_code k % 64),
        digit-le (kind_code j % 64) s.word0,
        digit-le (kind_code j % 64) s.word1,
      ))

contains-insert_all :
    (s : TokenSet) (ks : List Kind) (j : Kind)
    → contains (insert_all s ks) j ≡ (one_of j ks || contains s j)
unfolding insert_all one_of
contains-insert_all s [] j = refl
contains-insert_all s (k ∷ ks) j =
    contains-insert_all (insert s k) ks j ∙ ground (arith, contains-insert s k j)

contains-one_of : (ks : List Kind) (j : Kind) → contains (new_token_set ks) j ≡ one_of j ks
unfolding new_token_set
contains-one_of ks j =
    contains-insert_all empty ks j
    ∙ ground (arith, contains_digit empty j, digit-zero (kind_code j % 64))

-- `j` stands in the list `ks`.
abbrev pub Member : Kind → List Kind → Type 0
Member j [] = ⊥
Member j (k ∷ ks) = (j ≡ k) ⊎ Member j ks

one_of_iff : (ks : List Kind) (j : Kind) → (one_of j ks ≡ true) ↔ Member j ks
unfolding one_of
one_of_iff [] j = (λ e. cc, λ m. absurd m)
one_of_iff (k ∷ ks) j = elim (Bool-cases (kind_code j == kind_code k)) [
  | inl same ↦ (λ _. inl (kind_code_injective j k ((==_iff _ _).0 same)), λ _. rw same)
  | inr differs ↦ (
    λ e. inr ((one_of_iff ks j).0 (rw differs at e)),
    λ m. elim m [
      | inl e ↦ ground (arith, ap kind_code e)
      | inr later ↦ rw (differs) ((one_of_iff ks j).1 later)
    ],
  )
]

-- A set made from a list of kinds contains a kind exactly when the kind stands in the list.
pub contains-new_token_set :
    (ks : List Kind) (j : Kind) → (contains (new_token_set ks) j ≡ true) ↔ Member j ks
contains-new_token_set ks j = rw (contains-one_of ks j) (one_of_iff ks j)

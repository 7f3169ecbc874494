-- ===== src/Ast/LineOrder.antt =====
-- The lines of a tree that `NewTree` of ast/ast.go makes stand in order.
use lugo.Base.{
  ℕ, zero, suc, ◌+◌, ◌≤◌, ◌<◌, ◌≡◌, refl, inl, inr, List, [], ◌∷◌, some, Bytes, length, get_elem?,
  arith, ◌==◌, Bool-cases,
}
use mathlib.Core.Option.{some-injective}
use lugo.Ast.{new_tree}
use lugo.Ast.Lines.{line_starts, compute_line_offsets_lem}
use lugo.Ast.LineOf.{Rising}

-- Both hold of a list with one more line in front.
after_first :
    (i : ℕ) (ls : List ℕ)
    → ((k a : ℕ) → get_elem? ls k ≡ some a → suc i < a)
    → (k a : ℕ) → get_elem? (suc i ∷ ls) k ≡ some a
    → i < a
after_first i ls h zero a p = let same = some-injective (suc i) a p in omega arith
after_first i ls h (suc k) a p = omega (arith, h k a p)

Rising-cons :
    (i : ℕ) (ls : List ℕ)
    → ((k a : ℕ) → get_elem? ls k ≡ some a → i < a)
    → Rising ls
    → Rising (i ∷ ls)
Rising-cons i ls h r j zero a b less p q = absurd (omega arith)
Rising-cons i ls h r zero (suc k) a b less p q =
    let same = some-injective i a p in omega (arith, h k b q)
Rising-cons i ls h r (suc j) (suc k) a b less p q = r j k a b (omega arith) p q

line_starts-lt : (i : ℕ) (cs : Bytes) (k a : ℕ) → get_elem? (line_starts i cs) k ≡ some a → i < a
line_starts-lt i [] k a p = cc
line_starts-lt i (c ∷ cs) k a p = elim (Bool-cases (c == b'\n')) [
  | inl e ↦ after_first i (line_starts (suc i) cs) (line_starts-lt (suc i) cs) k a (rw e at p)
  | inr e ↦ omega (arith, line_starts-lt (suc i) cs k a (rw e at p))
]

line_starts-Rising : (i : ℕ) (cs : Bytes) → Rising (line_starts i cs)
line_starts-Rising i [] = λ j k a b less p q. cc
line_starts-Rising i (c ∷ cs) = elim (Bool-cases (c == b'\n')) [
  | inl e ↦ rw e (
      Rising-cons (suc i) (line_starts (suc i) cs) (line_starts-lt (suc i) cs)
        (line_starts-Rising (suc i) cs))
  | inr e ↦ rw e (line_starts-Rising (suc i) cs)
]

line_starts-le : (i : ℕ) (cs : Bytes) → length (line_starts i cs) ≤ length cs
line_starts-le i [] = omega arith
line_starts-le i (c ∷ cs) = elim (Bool-cases (c == b'\n')) [
  | inl e ↦ rw e (omega (arith, line_starts-le (suc i) cs))
  | inr e ↦ rw e (omega (arith, line_starts-le (suc i) cs))
]

-- The lines of a new tree begin at 0, stand in order and are fewer than 2 ^ 32.
pub new_tree-Rising :
    (source : Bytes)
    → length source + 1 < 4294967296
    → let lines = (new_tree source).line_offsets in
      (lines ≡ 0 ∷ line_starts 0 source) × Rising lines × (length lines < 4294967296)
unfolding new_tree
new_tree-Rising source fits = rw (compute_line_offsets_lem source (omega arith) (0 ∷ [])) (
  refl,
  Rising-cons 0 (line_starts 0 source) (line_starts-lt 0 source) (line_starts-Rising 0 source),
  omega (arith, line_starts-le 0 source),
)

-- ===== src/Eviction/Order.antt =====
-- The order in which lsp/eviction.go chooses its victims.
use lugo.Base.{◌≡◌, refl, true, false, ◌&&◌, [], ◌∷◌, Bytes, arith, Bool-cases, inl, inr}
use lugo.Eviction.{less, Candidate, precedes}

less_trans : (a b c : Bytes) → less a b ≡ true → less b c ≡ true → less a c ≡ true
unfolding less
less_trans a [] c e f = absurd (ground arith)
less_trans a (y ∷ b) [] e f = absurd (ground arith)
less_trans [] (y ∷ b) (z ∷ c) e f = refl
less_trans (x ∷ a) (y ∷ b) (z ∷ c) e f = elim (Bool-cases (less a b && less b c)) [
  | inl both ↦ let below = less_trans a b c (ground arith) (ground arith) in ground arith
  | inr other ↦ ground arith
]

-- A victim that comes before one that comes before a third comes before the third.
pub precedes_trans :
    (a b c : Candidate) → precedes a b ≡ true → precedes b c ≡ true → precedes a c ≡ true
unfolding precedes
precedes_trans a b c e f = elim (Bool-cases (less a.uri b.uri && less b.uri c.uri)) [
  | inl both ↦
      let below = less_trans a.uri b.uri c.uri (ground arith) (ground arith) in ground arith
  | inr other ↦ ground arith
]

less_self : (a : Bytes) → less a a ≡ false
unfolding less
less_self [] = refl
less_self (x ∷ a) = let ih = less_self a in ground arith

-- No victim comes before itself.
pub precedes_self : (a : Candidate) → precedes a a ≡ false
unfolding precedes
precedes_self a = let same = less_self a.uri in ground arith

-- ===== src/Ast/Reached.antt =====
-- That the searches of `NodeAt` in ast/ast.go come to an end without a panic, and what they find.
use lugo.Base.{
  ℕ, zero, suc, ◌+◌, ◌≤◌, ◌<◌, ◌≡◌, ◌≢◌, ◌⊎◌, inl, inr, refl, sym, ◌∙◌, true, false, not, ◌&&◌,
  List, Option, some, length, get_elem?, get_elem?-some, ◌==◌, u32, arith, Bool-cases, ==_iff,
}
use mathlib.Core.Path.{subst}
use mathlib.Core.Option.{some-injective}
use lugo.Ast.{Node, Tree}
use lugo.Ast.Find.{holds, check, check_extras}

-- Node `c` of `nodes` holds the offset.
abbrev pub Holds : List Node → ℕ → ℕ → Type 0
Holds nodes offset c = (m : Node) × (get_elem? nodes c ≡ some m) × (holds offset m ≡ true)

-- `c` is no node, or a node that does not hold the offset.
abbrev pub Misses : List Node → ℕ → ℕ → Type 0
Misses nodes offset c =
    (c ≡ 0) ⊎ ((m : Node) × (get_elem? nodes c ≡ some m) × (holds offset m ≡ false))

-- A search has returned `r`: a candidate by `P`, that is 0 or a node that holds the offset, and 0
-- only if `none_left`.
pub record Returns (nodes : List Node) (offset : ℕ) (P : ℕ → Type 0) (none_left : Type 0)
    (o : Option ℕ) : Type 0 where
  pub r : ℕ
  pub done : o ≡ some r
  pub below : P r
  pub found : r ≢ 0 → Holds nodes offset r
  pub missed : r ≡ 0 → none_left

module _ (t : Tree) (offset : ℕ) (P : ℕ → Type 0) (room : (c : ℕ) → P c → c < length t.nodes) where
  abbrev Found : Type 0 → Option ℕ → Type 0
  Found = Returns t.nodes offset P

  pub check-Found :
      (c found : ℕ)
      → P c
      → P found
      → (found ≢ 0 → Holds t.nodes offset found)
      → Found ((found ≡ 0) × Misses t.nodes offset c) (check t.nodes offset c found)
  unfolding check
  check-Found c found low low' h = elim (Bool-cases (not (c == 0) && found == 0)) [
    | inr e ↦ record {
      r = found;
      done = rw e refl;
      below = low';
      found = h;
      missed = λ z. (z, inl (ground arith));
    }
    | inl e ↦
        let (m, at) = get_elem?-some t.nodes c (room c low) in
        elim (Bool-cases (holds offset m)) [
          | inl q ↦ record {
            r = c;
            done = rw (e, at, q) refl;
            below = low;
            found = λ _. (m, at, q);
            missed = λ z. absurd (ground arith);
          }
          | inr q ↦ record {
            r = found;
            done = rw (e, at, q) refl;
            below = low';
            found = h;
            missed = λ z. (z, inr (m, at, q));
          }
        ]
  ]

  -- The extra children in `k` rounds from `i` on are candidates.
  abbrev Rounds : ℕ → ℕ → ℕ → Type 0
  Rounds extra k i =
      (j : ℕ) → i ≤ j → j < i + k → (c : ℕ) × (get_elem? t.extra_list (extra + j) ≡ some c) × P c

  -- None of them holds the offset.
  abbrev pub AllMiss : ℕ → ℕ → ℕ → Type 0
  AllMiss extra k i =
      (j c : ℕ)
      → i ≤ j
      → j < i + k
      → get_elem? t.extra_list (extra + j) ≡ some c
      → Misses t.nodes offset c

  AllMiss-suc :
      (extra k i c : ℕ)
      → get_elem? t.extra_list (extra + i) ≡ some c
      → Misses t.nodes offset c
      → AllMiss extra k (i + 1)
      → AllMiss extra (suc k) i
  AllMiss-suc extra k i c at here later j d low high at' = elim (Bool-cases (j == i)) [
    | inl e ↦
        let same : j ≡ i = (==_iff j i).0 e in
        let same_child : c ≡ d = some-injective c d (sym at ∙ (rw same at at')) in
        subst (Misses t.nodes offset) same_child here
    | inr e ↦ later j d (ground arith) (omega arith) at'
  ]

  check_extras_step :
      (extra k i c found better : ℕ) (o : Option ℕ)
      → extra + i < 4294967296
      → get_elem? t.extra_list (extra + i) ≡ some c
      → check t.nodes offset c found ≡ some better
      → check_extras t offset extra k (i + 1) better ≡ o
      → check_extras t offset extra (suc k) i found ≡ o
  unfolding check_extras
  check_extras_step extra k i c found better o fits at done rest =
      let exact : u32 (extra + i) ≡ extra + i = omega arith in rw (exact, at, done) rest

  pub check_extras-Found :
      (extra k i found : ℕ)
      → Rounds extra k i
      → extra + (i + k) < 4294967296
      → P found
      → (found ≢ 0 → Holds t.nodes offset found)
      → Found ((found ≡ 0) × AllMiss extra k i) (check_extras t offset extra k i found)
  unfolding check_extras
  check_extras-Found extra zero i found below fits low h = record {
    r = found;
    done = refl;
    below = low;
    found = h;
    missed = λ z. (z, λ j c p q. absurd (omega arith));
  }
  check_extras-Found extra (suc k) i found below fits low h =
      let (c, at, low') = below i (omega arith) (omega arith) in
      let x = check-Found c found low' low h in
      let y =
        check_extras-Found extra k (i + 1) x.r (λ j p q. below j (omega arith) (omega arith))
          (omega arith) x.below x.found in
      record {
        r = y.r;
        done = check_extras_step extra k i c found x.r (some y.r) (omega arith) at x.done y.done;
        below = y.below;
        found = y.found;
        missed = λ z.
            let (first, later) = y.missed z in
            let (before, here) = x.missed first in (before, AllMiss-suc extra k i c at here later);
      }

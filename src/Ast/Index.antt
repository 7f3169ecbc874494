-- ===== src/Ast/Index.antt =====
-- `IndexOfExtra` of ast/ast.go.
use lugo.Base.{
  ℕ, zero, suc, ◌+◌, ◌≤◌, ◌<◌, ◌≡◌, ◌≢◌, inl, inr, refl, sym, ◌∙◌, true, false, ◌||◌, List, Option,
  none, some, length, get_elem?, get_elem?-lt, leb, ◌==◌, u32, arith, Bool-cases, ==_iff,
}
use mathlib.Core.Option.{some-injective}
use lugo.Ast.{Node, Tree, index_loop, index_of_extra}
use lugo.Ast.Shape.{IsTree}

-- None of the extra children from `i` up to `n` is `target`.
abbrev pub Absent : List ℕ → ℕ → ℕ → ℕ → ℕ → Type 0
Absent extras target extra i n =
    (j : ℕ) → i ≤ j → j < n → get_elem? extras (extra + j) ≢ some target

-- `r` is the first place of `target` among the extra children from `i` up to `n`, or there is none.
abbrev pub IsFirst : List ℕ → ℕ → ℕ → ℕ → ℕ → Option ℕ → Type 0
IsFirst extras target extra i n none = Absent extras target extra i n
IsFirst extras target extra i n (some k) =
    (i ≤ k)
    × (k < n)
    × (get_elem? extras (extra + k) ≡ some target)
    × Absent extras target extra i k

module _ (extras : List ℕ) (target extra n : ℕ) (fits : extra + n < 4294967296) where
  Absent-suc :
      (i k c : ℕ)
      → get_elem? extras (extra + i) ≡ some c
      → c ≢ target
      → Absent extras target extra (i + 1) k
      → Absent extras target extra i k
  Absent-suc i k c at ne later j low high e = elim (Bool-cases (j == i)) [
    | inl same ↦
        let here : get_elem? extras (extra + i) ≡ some target = rw ((==_iff j i).0 same) at e in
        ne (some-injective c target (sym at ∙ here))
    | inr differs ↦ later j (ground arith) high e
  ]

  IsFirst-suc :
      (i c : ℕ) (r : Option ℕ)
      → get_elem? extras (extra + i) ≡ some c
      → c ≢ target
      → IsFirst extras target extra (i + 1) n r
      → IsFirst extras target extra i n r
  IsFirst-suc i c none at ne later = Absent-suc i n c at ne later
  IsFirst-suc i c (some k) at ne (low, high, found, before) =
      (omega arith, high, found, Absent-suc i k c at ne before)

  index_loop_hit :
      (k i c : ℕ)
      → i < n
      → get_elem? extras (extra + i) ≡ some c
      → (c == target) ≡ true
      → index_loop extras target extra (suc k) i ≡ some (some i)
  unfolding index_loop
  index_loop_hit k i c h at e =
      let exact : u32 (extra + i) ≡ extra + i = omega arith in rw (exact, at, e) refl

  index_loop_miss :
      (k i c : ℕ) (o : Option (Option ℕ))
      → i < n
      → get_elem? extras (extra + i) ≡ some c
      → (c == target) ≡ false
      → index_loop extras target extra k (i + 1) ≡ o
      → index_loop extras target extra (suc k) i ≡ o
  unfolding index_loop
  index_loop_miss k i c o h at e rest =
      let exact : u32 (extra + i) ≡ extra + i = omega arith in rw (exact, at, e) rest

  index_loop_lem :
      (k i : ℕ)
      → i + k ≡ n
      → ((j : ℕ) → j < n → (c : ℕ) × (get_elem? extras (extra + j) ≡ some c))
      → (r : Option ℕ) × (index_loop extras target extra k i ≡ some r)
        × IsFirst extras target extra i n r
  unfolding index_loop
  index_loop_lem zero i h there = (none, refl, λ j low high. absurd (omega arith))
  index_loop_lem (suc k) i h there =
      let (c, at) = there i (omega arith) in
      elim (Bool-cases (c == target)) [
        | inl e ↦
            let same : c ≡ target = (==_iff c target).0 e in
            (
              some i,
              index_loop_hit k i c (omega arith) at e,
              (omega arith, omega arith, rw same at at, λ j low high. absurd (omega arith)),
            )
        | inr e ↦
            let (r, done, first) = index_loop_lem k (i + 1) (omega arith) there in
            (
              r,
              index_loop_miss k i c (some r) (omega arith) at e done,
              IsFirst-suc i c r at (λ q. absurd (ground arith)) first,
            )
      ]

index_of_extra-node :
    (t : Tree) (id target : ℕ) (m : Node) (r : Option ℕ)
    → id ≢ 0
    → id < length t.nodes
    → get_elem? t.nodes id ≡ some m
    → index_loop t.extra_list target m.extra m.count 0 ≡ some r
    → index_of_extra t id target ≡ some r
unfolding index_of_extra
index_of_extra-node t id target m r ne h at done =
    let test : (id == 0 || leb (length t.nodes) id) ≡ false = ground arith in rw (test, at) done

-- In a tree whose children are in the tree, `IndexOfExtra` does not panic: for every node but 0 it
-- returns the first place of the target among the node's extra children, and -1 if it is not there.
pub index_of_extra_lem :
    (t : Tree) (id target : ℕ) (m : Node)
    → IsTree t
    → id ≢ 0
    → get_elem? t.nodes id ≡ some m
    → (r : Option ℕ) × (index_of_extra t id target ≡ some r)
      × IsFirst t.extra_list target m.extra 0 m.count r
index_of_extra_lem t id target m shape ne at =
    let h = get_elem?-lt t.nodes id at in
    let p = shape.placed id m at in
    let (r, done, first) =
      index_loop_lem t.extra_list target m.extra m.count p.fits m.count 0 (omega arith)
        (λ j q. let (c, found, _) = p.extras_below j q in (c, found)) in
    (r, index_of_extra-node t id target m r ne h at done, first)

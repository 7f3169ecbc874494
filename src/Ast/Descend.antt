-- ===== src/Ast/Descend.antt =====
-- `NodeAt` of ast/ast.go on the trees that `AddNode` builds.
use lugo.Base.{
  ℕ, ◌+◌, ◌≤◌, ◌<◌, ◌≡◌, ◌≢◌, inl, inr, refl, Bool, true, Option, some, length, get_elem?, ltb,
  ◌&&◌, ◌||◌, arith, Bool-cases, ◌==◌,
}
use lugo.Ast.Kinds.{NodeKind}
use lugo.Ast.{Node, Tree, is_kind}
use lugo.Ast.Parents.{names_extra-true, is_child, IsPlaced}
use lugo.Ast.Find.{check, check_third, check_list, next_child}
use lugo.Ast.Reached.{Holds, Misses, Returns, check-Found, check_extras-Found}
use lugo.Ast.Sorted.{InOrder, search_extras-Searched}

abbrev pub is_list : Node → Bool
is_list m = is_kind m.kind NodeKind.block || is_kind m.kind NodeKind.file

-- No child of the node `m` holds the offset; of the statements of a block or file this is said if
-- they stand in order.
pub record NoChild (t : Tree) (offset : ℕ) (m : Node) : Type 0 where
  pub left : Misses t.nodes offset m.left
  pub right : Misses t.nodes offset m.right
  pub third : is_kind m.kind NodeKind.for_in ≡ true → Misses t.nodes offset m.extra
  pub extras :
      (is_list m ≡ true → InOrder t m.extra m.count)
      → (j c : ℕ) → j < m.count
      → get_elem? t.extra_list (m.extra + j) ≡ some c
      → Misses t.nodes offset c

-- The child `c` of `m` is below `b`.
abbrev Candidate : Tree → ℕ → Node → ℕ → Type 0
Candidate t b m c = (c < b) × (c ≢ 0 → is_child t.extra_list m c ≡ true)

module _ (t : Tree) (offset b : ℕ) (m : Node) (room : b ≤ length t.nodes) (pos : 0 < b)
    (p : IsPlaced t.extra_list b m) where
  abbrev Child : ℕ → Type 0
  Child = Candidate t b m

  in_nodes : (c : ℕ) → Child c → c < length t.nodes
  in_nodes c q = omega (arith, q.0)

  zero-Child : Child 0
  zero-Child = (pos, λ ne. absurd (ne refl))

  left-Child : Child m.left
  left-Child = (p.left_below, λ ne. ground arith)

  right-Child : Child m.right
  right-Child = (p.right_below, λ ne. ground arith)

  third-Child : is_kind m.kind NodeKind.for_in ≡ true → Child m.extra
  third-Child e = (p.third_below e, λ ne. ground arith)

  extra-Child :
      (j : ℕ) → j < m.count → (c : ℕ) × (get_elem? t.extra_list (m.extra + j) ≡ some c) × Child c
  extra-Child j h =
      let (c, at, low) = p.extras_below j h in
      (
        c,
        at,
        (
          low,
          λ ne.
              let there =
                names_extra-true t.extra_list m.extra m.count 0 j c ne (omega arith) (omega arith)
                  at in
              ground arith,
        ),
      )

  third-Found :
      (found : ℕ)
      → Child found
      → (found ≢ 0 → Holds t.nodes offset found)
      → Returns t.nodes offset Child
          ((found ≡ 0) × (is_kind m.kind NodeKind.for_in ≡ true → Misses t.nodes offset m.extra))
          (check_third t offset m found)
  third-Found found low h = elim (Bool-cases (is_kind m.kind NodeKind.for_in)) [
    | inl e ↦
        let x = check-Found t offset Child in_nodes m.extra found (third-Child e) low h in
        record {
          r = x.r;
          done = rw e x.done;
          below = x.below;
          found = x.found;
          missed = λ z. let (before, here) = x.missed z in (before, λ _. here);
        }
    | inr e ↦ record {
      r = found;
      done = rw e refl;
      below = low;
      found = h;
      missed = λ z. (z, λ e'. cc);
    }
  ]

  abbrev NoExtra : Type 0
  NoExtra =
      (is_list m ≡ true → InOrder t m.extra m.count)
      → (j c : ℕ) → j < m.count
      → get_elem? t.extra_list (m.extra + j) ≡ some c
      → Misses t.nodes offset c

  list-Found :
      (found : ℕ)
      → Child found
      → (found ≢ 0 → Holds t.nodes offset found)
      → Returns t.nodes offset Child ((found ≡ 0) × NoExtra) (check_list t offset m found)
  list-Found found low h = elim (Bool-cases (found == 0 && ltb 0 m.count)) [
    | inr e ↦ record {
      r = found;
      done = rw e refl;
      below = low;
      found = h;
      missed = λ z. (z, λ o j c q. absurd (ground arith));
    }
    | inl e ↦ elim (Bool-cases (is_list m)) [
      | inl list ↦
          let x =
            search_extras-Searched t offset m.extra m.count Child in_nodes
              (λ j _ q. extra-Child j (omega arith)) m.count 0 m.count zero-Child (omega arith)
              (omega arith) (omega (arith, p.fits)) in
          record {
            r = x.r;
            done = rw (e, list) x.done;
            below = x.below;
            found = x.found;
            missed = λ z. (ground arith, λ o j c q. x.missed z (o list) j c (omega arith) q);
          }
      | inr other ↦
          let x =
            check_extras-Found t offset Child in_nodes m.extra m.count 0 found
              (λ j _ q. extra-Child j (omega arith)) (omega (arith, p.fits)) low h in
          record {
            r = x.r;
            done = rw (e, other) x.done;
            below = x.below;
            found = x.found;
            missed = λ z.
                let (before, here) = x.missed z in
                (before, λ o j c q. here j c (omega arith) (omega arith));
          }
    ]
  ]

  next_child_steps :
      (first second third : ℕ) (o : Option ℕ)
      → check t.nodes offset m.left 0 ≡ some first
      → check t.nodes offset m.right first ≡ some second
      → check_third t offset m second ≡ some third
      → check_list t offset m third ≡ o
      → next_child t offset m ≡ o
  unfolding next_child
  next_child_steps first second third o d1 d2 d3 d4 = rw (d1, d2, d3) d4

  pub next_child-Found : Returns t.nodes offset Child (NoChild t offset m) (next_child t offset m)
  next_child-Found =
      let x =
        check-Found t offset Child in_nodes m.left 0 left-Child zero-Child
          (λ ne. absurd (ne refl)) in
      let y = check-Found t offset Child in_nodes m.right x.r right-Child x.below x.found in
      let u = third-Found y.r y.below y.found in
      let v = list-Found u.r u.below u.found in
      record {
        r = v.r;
        done = next_child_steps x.r y.r u.r (some v.r) x.done y.done u.done v.done;
        below = v.below;
        found = v.found;
        missed = λ z.
            let (z3, no_extra) = v.missed z in
            let (z2, no_third) = u.missed z3 in
            let (z1, no_right) = y.missed z2 in
            let (z0, no_left) = x.missed z1 in
            record { left = no_left; right = no_right; third = no_third; extras = no_extra };
      }

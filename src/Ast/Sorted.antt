-- ===== src/Ast/Sorted.antt =====
-- The binary search of `NodeAt` in ast/ast.go among children that stand in order.
use lugo.Base.{
  ℕ, zero, suc, ◌+◌, ◌-◌, ◌/◌, ◌≤◌, ◌<◌, ◌≡◌, ◌≢◌, inl, inr, refl, sym, ◌∙◌, true, false, Option,
  some, length, get_elem?, get_elem?-some, ltb, u32, arith, Bool-cases, ==_iff, ◌==◌,
}
use mathlib.Core.Path.{subst}
use mathlib.Core.Option.{some-injective}
use lugo.Ast.{Node, Tree}
use lugo.Ast.Find.{search_extras}
use lugo.Ast.Reached.{Misses, Returns}

-- The `count` extra children from `extra` on are nodes in the order of their starts and ends.
pub record InOrder (t : Tree) (extra count : ℕ) : Type 0 where
  pub nodes : (i c : ℕ) → i < count → get_elem? t.extra_list (extra + i) ≡ some c → c ≢ 0
  pub order :
      (i j c d : ℕ) (m n : Node)
      → i < j
      → j < count
      → get_elem? t.extra_list (extra + i) ≡ some c
      → get_elem? t.extra_list (extra + j) ≡ some d
      → get_elem? t.nodes c ≡ some m
      → get_elem? t.nodes d ≡ some n
      → (m.start ≤ n.start) × (m.end ≤ n.end)

module _ (t : Tree) (offset extra count : ℕ) (P : ℕ → Type 0)
    (room : (c : ℕ) → P c → c < length t.nodes)
    (below : (j : ℕ)
      → 0 ≤ j
      → j < 0 + count
      → (c : ℕ) × (get_elem? t.extra_list (extra + j) ≡ some c) × P c) where
  -- None of the children from `low` up to `high` holds the offset.
  abbrev pub MissBetween : ℕ → ℕ → Type 0
  MissBetween low high =
      (j c : ℕ)
      → low ≤ j
      → j < high
      → get_elem? t.extra_list (extra + j) ≡ some c
      → Misses t.nodes offset c

  -- The place `mid` has the child `c`, which is the node `m`.
  record At (mid c : ℕ) (m : Node) : Type 0 where
    inside : mid < count
    child : get_elem? t.extra_list (extra + mid) ≡ some c
    node : get_elem? t.nodes c ≡ some m

  At-unique : (i c d : ℕ) (m n : Node) → At i c m → At i d n → m ≡ n
  At-unique i c d m n x y =
      let same : c ≡ d = some-injective c d (sym x.child ∙ y.child) in
      some-injective m n (sym x.node ∙ (rw same y.node))

  place :
      (j c : ℕ) → j < count → get_elem? t.extra_list (extra + j) ≡ some c → (m : Node) × At j c m
  place j c h e =
      let (d, at, low) = below j (omega arith) (omega arith) in
      let same : c ≡ d = some-injective c d (sym e ∙ at) in
      let (m, found) = get_elem?-some t.nodes c (omega (arith, same, room d low)) in
      (m, record { inside = h; child = e; node = found })

  -- A child that begins behind the offset, and all that follow it, do not hold it.
  after-MissBetween :
      (mid c : ℕ) (m : Node)
      → InOrder t extra count
      → At mid c m
      → offset < m.start
      → MissBetween mid count
  after-MissBetween mid c m o x h j d p q e =
      let (n, y) = place j d q e in
      let later : m.start ≤ n.start = elim (Bool-cases (mid == j)) [
        | inl same ↦
            rw (At-unique j c d m n (subst (λ i. At i c m) ((==_iff mid j).0 same) x) y)
              (omega arith)
        | inr differs ↦ (o.order mid j c d m n (ground arith) q x.child e x.node y.node).0
      ] in
      inr (n, y.node, ground arith)

  -- A child that ends in front of the offset, and all in front of it, do not hold it.
  before-MissBetween :
      (mid c : ℕ) (m : Node)
      → InOrder t extra count
      → At mid c m
      → m.end < offset
      → MissBetween 0 (mid + 1)
  before-MissBetween mid c m o x h j d p q e =
      let inside : j < count = omega (arith, x.inside) in
      let (n, y) = place j d inside e in
      let earlier : n.end ≤ m.end = elim (Bool-cases (mid == j)) [
        | inl same ↦
            rw (At-unique j c d m n (subst (λ i. At i c m) ((==_iff mid j).0 same) x) y)
              (omega arith)
        | inr differs ↦ (o.order j mid d c n m (ground arith) x.inside e x.child y.node x.node).1
      ] in
      inr (n, y.node, ground arith)

  -- What the binary search returns.
  abbrev pub Searched : ℕ → ℕ → Option ℕ → Type 0
  Searched low high = Returns t.nodes offset P (InOrder t extra count → MissBetween low high)

  search_left :
      (f low high mid c : ℕ) (m : Node)
      → mid ≡ (low + high) / 2
      → low < high
      → high ≤ count
      → extra + count < 4294967296
      → At mid c m
      → offset < m.start
      → Searched low mid (search_extras f t offset extra low mid)
      → Searched low high (search_extras (suc f) t offset extra low high)
  unfolding search_extras
  search_left f low high mid c m half h top fits x early s =
      let here = x.child in
      let node = x.node in
      let test : ltb low high ≡ true = ground arith in
      let before : ltb offset m.start ≡ true = ground arith in
      let exact : u32 (extra + mid) ≡ extra + mid = omega (arith, x.inside) in
      record {
        r = s.r;
        done = rw (test, sym half, exact, here, node, before) s.done;
        below = s.below;
        found = s.found;
        missed = λ z o j d p q e. elim (Bool-cases (ltb j mid)) [
          | inl left ↦ s.missed z o j d p (ground arith) e
          | inr right ↦ after-MissBetween mid c m o x early j d (ground arith) (omega arith) e
        ];
      }

  search_right :
      (f low high mid c : ℕ) (m : Node)
      → mid ≡ (low + high) / 2
      → low < high
      → extra + count < 4294967296
      → At mid c m
      → ltb offset m.start ≡ false
      → m.end < offset
      → Searched (mid + 1) high (search_extras f t offset extra (mid + 1) high)
      → Searched low high (search_extras (suc f) t offset extra low high)
  unfolding search_extras
  search_right f low high mid c m half h fits x late past s =
      let here = x.child in
      let node = x.node in
      let test : ltb low high ≡ true = ground arith in
      let behind : ltb m.end offset ≡ true = ground arith in
      let exact : u32 (extra + mid) ≡ extra + mid = omega (arith, x.inside) in
      record {
        r = s.r;
        done = rw (test, sym half, exact, here, node, late, behind) s.done;
        below = s.below;
        found = s.found;
        missed = λ z o j d p q e. elim (Bool-cases (ltb mid j)) [
          | inl right ↦ s.missed z o j d (ground arith) q e
          | inr left ↦ before-MissBetween mid c m o x past j d (omega arith) (ground arith) e
        ];
      }

  search_hit :
      (f low high mid c : ℕ) (m : Node)
      → mid ≡ (low + high) / 2
      → low < high
      → extra + count < 4294967296
      → P c
      → At mid c m
      → ltb offset m.start ≡ false
      → ltb m.end offset ≡ false
      → Searched low high (search_extras (suc f) t offset extra low high)
  unfolding search_extras
  search_hit f low high mid c m half h fits low' x late inside =
      let here = x.child in
      let node = x.node in
      let test : ltb low high ≡ true = ground arith in
      let exact : u32 (extra + mid) ≡ extra + mid = omega (arith, x.inside) in
      record {
        r = c;
        done = rw (test, sym half, exact, here, node, late, inside) refl;
        below = low';
        found = λ _. (m, node, ground arith);
        missed = λ z o. absurd (o.nodes mid c x.inside here z);
      }

  search_none :
      (f low high : ℕ)
      → P 0
      → high ≤ low
      → Searched low high (search_extras f t offset extra low high)
  unfolding search_extras
  search_none zero low high pos h = record {
    r = 0;
    done = refl;
    below = pos;
    found = λ ne. absurd (ne refl);
    missed = λ z o j d p q. absurd (omega arith);
  }
  search_none (suc f) low high pos h =
      let test : ltb low high ≡ false = ground arith in
      record {
        r = 0;
        done = rw test refl;
        below = pos;
        found = λ ne. absurd (ne refl);
        missed = λ z o j d p q. absurd (omega arith);
      }

  pub search_extras-Searched :
      (f low high : ℕ)
      → P 0
      → high - low ≤ f
      → high ≤ count
      → extra + count < 4294967296
      → Searched low high (search_extras f t offset extra low high)
  search_extras-Searched zero low high pos h top fits = search_none zero low high pos (omega arith)
  search_extras-Searched (suc f) low high pos h top fits = elim (Bool-cases (ltb low high)) [
    | inr e ↦ search_none (suc f) low high pos (ground arith)
    | inl e ↦
        let mid = (low + high) / 2 in
        let less : low < high = ground arith in
        let (c, at, low') = below mid (omega arith) (omega arith) in
        let (m, x) = place mid c (omega arith) at in
        elim (Bool-cases (ltb offset m.start)) [
          | inl early ↦
              search_left f low high mid c m refl less top fits x (ground arith)
                (search_extras-Searched f low mid pos (omega arith) (omega arith) fits)
          | inr late ↦ elim (Bool-cases (ltb m.end offset)) [
            | inl past ↦
                search_right f low high mid c m refl less fits x late (ground arith)
                  (search_extras-Searched f (mid + 1) high pos (omega arith) top fits)
            | inr inside ↦ search_hit f low high mid c m refl less fits low' x late inside
          ]
        ]
  ]

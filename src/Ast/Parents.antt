-- ===== src/Ast/Parents.antt =====
-- What the assignments of `Parent` in `AddNode` of ast/ast.go do to the nodes.
use lugo.Base.{
  ℕ, zero, suc, ◌+◌, ◌≤◌, ◌<◌, ◌≡◌, ◌≢◌, inl, inr, refl, ap, ◌∙◌, Bool, true, false, not, ◌&&◌,
  ◌||◌, List, [], ◌∷◌, Option, none, some, length, get_elem?, modify_at, ◌==◌, if◌then◌else◌, u32,
  arith, Bool-cases, Option-cases, ==_iff,
}
use lugo.Ast.Kinds.{NodeKind}
use lugo.Ast.{Node, is_kind, link, link_extras}

-- The node with its parent set to `id` if `b` holds.
abbrev pub reparent : Bool → ℕ → Option Node → Option Node
reparent b id none = none
reparent b id (some m) = some (if b then record m { parent = id } else m)

reparent_twice :
    (a b : Bool) (id : ℕ) (o : Option Node)
    → reparent b id (reparent a id o) ≡ reparent (a || b) id o
reparent_twice a b id none = refl
reparent_twice true true id (some m) = refl
reparent_twice true false id (some m) = refl
reparent_twice false true id (some m) = refl
reparent_twice false false id (some m) = refl

reparent_never : (id : ℕ) (o : Option Node) → o ≡ reparent false id o
reparent_never id none = refl
reparent_never id (some m) = refl

-- The child `c` of a node is node `j`.
abbrev pub names : ℕ → ℕ → Bool
names c j = not (c == 0) && c == j

-- One of the `k` extra children from `i` on is node `j`.
abbrev pub names_extra : List ℕ → ℕ → ℕ → ℕ → ℕ → Bool
names_extra extras extra zero i j = false
names_extra extras extra (suc k) i j =
    (elim (get_elem? extras (extra + i)) as (λ _. Bool) [ none ↦ false | some c ↦ names c j ])
    || names_extra extras extra k (i + 1) j

-- Node `j` is a child of `n`.
abbrev pub is_child : List ℕ → Node → ℕ → Bool
is_child extras n j =
    names n.left j
    || (names n.right j
        || ((is_kind n.kind NodeKind.for_in && names n.extra j)
            || names_extra extras n.extra n.count 0 j))

pub names_extra-true :
    (extras : List ℕ) (extra k i q c : ℕ)
    → c ≢ 0
    → i ≤ q
    → q < i + k
    → get_elem? extras (extra + q) ≡ some c
    → names_extra extras extra k i c ≡ true
names_extra-true extras extra zero i q c ne low high at = absurd (omega arith)
names_extra-true extras extra (suc k) i q c ne low high at = elim (Bool-cases (q == i)) [
  | inl e ↦
      let here : get_elem? extras (extra + i) ≡ some c = rw ((==_iff q i).0 e) at at in
      rw here (ground arith)
  | inr e ↦
      let later = names_extra-true extras extra k (i + 1) q c ne (ground arith) (omega arith) at in
      ground arith
]

-- The children of `n` are nodes below `b`.
pub record IsPlaced (extras : List ℕ) (b : ℕ) (n : Node) : Type 0 where
  pub left_below : n.left < b
  pub right_below : n.right < b
  pub third_below : is_kind n.kind NodeKind.for_in ≡ true → n.extra < b
  pub extras_below :
      (i : ℕ) → i < n.count → (c : ℕ) × (get_elem? extras (n.extra + i) ≡ some c) × (c < b)
  pub fits : n.extra + n.count < 4294967296

-- `after` is `before` with the parents set as `p` says.
pub record Relinked (id : ℕ) (p : ℕ → Bool) (before after : List Node) : Type 0 where
  pub size : length after ≡ length before
  pub at : (j : ℕ) → get_elem? after j ≡ reparent (p j) id (get_elem? before j)

modify_at_lem :
    (i id : ℕ) (xs : List Node)
    → i < length xs
    → (ys : List Node) × (modify_at i (λ (m : Node). record m { parent = id }) xs ≡ some ys)
      × (length ys ≡ length xs)
      × ((j : ℕ) → get_elem? ys j ≡ reparent (i == j) id (get_elem? xs j))
unfolding modify_at
modify_at_lem i id [] h = elim h [ ]
modify_at_lem zero id (x ∷ xs) h = (record x { parent = id } ∷ xs, refl, refl, at)
  where
    at :
        (j : ℕ)
        → get_elem? (record x { parent = id } ∷ xs) j ≡ reparent (0 == j) id (get_elem? (x ∷ xs) j)
    at zero = refl
    at (suc j) = elim (Option-cases (get_elem? xs j)) [
      | inl e ↦ rw e
      | inr (m, e) ↦ rw e (ground arith)
    ]
modify_at_lem (suc i) id (x ∷ xs) h =
    let (ys, done, size, at) = modify_at_lem i id xs (omega arith) in
    (x ∷ ys, rw done, ap suc size, moved ys at)
  where
    moved :
        (ys : List Node)
        → ((j : ℕ) → get_elem? ys j ≡ reparent (i == j) id (get_elem? xs j))
        → (j : ℕ) → get_elem? (x ∷ ys) j ≡ reparent (suc i == j) id (get_elem? (x ∷ xs) j)
    moved ys at zero = ground arith
    moved ys at (suc j) = let same : (suc i == suc j) ≡ (i == j) = ground arith in rw same (at j)

pub link_lem :
    (id c : ℕ) (nodes : List Node)
    → c < length nodes
    → (after : List Node) × (link id c nodes ≡ some after) × Relinked id (names c) nodes after
unfolding link
link_lem id c nodes h = elim (Bool-cases (c == 0)) [
  | inl e ↦
      (nodes, rw e, record { size = refl; at = λ j. rw e (reparent_never id (get_elem? nodes j)) })
  | inr e ↦
      let (after, done, size, at) = modify_at_lem c id nodes h in
      (after, rw e done, record { size = size; at = λ j. rw e (at j) })
]

pub Relinked-trans :
    {id : ℕ} {p q : ℕ → Bool} {a b c : List Node}
    → Relinked id p a b
    → Relinked id q b c
    → Relinked id (λ j. p j || q j) a c
Relinked-trans {id} {p} {q} {a} r s = record {
  size = s.size ∙ r.size;
  at =
      λ j. s.at j ∙ ap (reparent (q j) id) (r.at j) ∙ reparent_twice (p j) (q j) id (get_elem? a j);
}

Relinked-none : (id : ℕ) (a : List Node) → Relinked id (λ _. false) a a
Relinked-none id a = record { size = refl; at = λ j. reparent_never id (get_elem? a j) }

module _ (extras : List ℕ) (id extra b : ℕ) where
  -- The extra children in `k` rounds from `i` on are nodes below `b`.
  abbrev Rounds : ℕ → ℕ → Type 0
  Rounds k i =
      (m : ℕ) → i ≤ m → m < i + k → (c : ℕ) × (get_elem? extras (extra + m) ≡ some c) × (c < b)

  link_extras_step :
      (k i c : ℕ) (nodes linked after : List Node)
      → extra + i < 4294967296
      → get_elem? extras (extra + i) ≡ some c
      → link id c nodes ≡ some linked
      → link_extras extras id extra k (i + 1) linked ≡ some after
      → link_extras extras id extra (suc k) i nodes ≡ some after
  unfolding link_extras
  link_extras_step k i c nodes linked after fits found done done' =
      let exact : u32 (extra + i) ≡ extra + i = omega arith in rw (exact, found, done) done'

  names_extra_step :
      (k i c : ℕ) (nodes linked after : List Node)
      → get_elem? extras (extra + i) ≡ some c
      → Relinked id (names c) nodes linked
      → Relinked id (names_extra extras extra k (i + 1)) linked after
      → Relinked id (names_extra extras extra (suc k) i) nodes after
  names_extra_step k i c nodes linked after found r r' =
      let both = Relinked-trans r r' in record { size = both.size; at = λ j. rw found (both.at j) }

  pub link_extras_lem :
      (k i : ℕ) (nodes : List Node)
      → Rounds k i
      → extra + (i + k) < 4294967296
      → b ≤ length nodes
      → (after : List Node) × (link_extras extras id extra k i nodes ≡ some after)
        × Relinked id (names_extra extras extra k i) nodes after
  unfolding link_extras
  link_extras_lem zero i nodes below fits h = (nodes, refl, Relinked-none id nodes)
  link_extras_lem (suc k) i nodes below fits h =
      let (c, found, inside) = below i (omega arith) (omega arith) in
      let (linked, done, r) = link_lem id c nodes (omega arith) in
      let (after, done', r') =
        link_extras_lem k (i + 1) linked (λ m p q. below m (omega arith) (omega arith))
          (omega arith) (omega (arith, r.size)) in
      (
        after,
        link_extras_step k i c nodes linked after (omega arith) found done done',
        names_extra_step k i c nodes linked after found r r',
      )

pub third_lem :
    (id : ℕ) (n : Node) (nodes : List Node)
    → (is_kind n.kind NodeKind.for_in ≡ true → n.extra < length nodes)
    → (after : List Node) × ((if is_kind n.kind NodeKind.for_in
          then link id n.extra nodes
          else some nodes)
        ≡ some after)
      × Relinked id (λ j. is_kind n.kind NodeKind.for_in && names n.extra j) nodes after
third_lem id n nodes h = elim (Bool-cases (is_kind n.kind NodeKind.for_in)) [
  | inl e ↦ let (after, done, r) = link_lem id n.extra nodes (h e) in (after, rw e done, rw e r)
  | inr e ↦ (nodes, rw e, rw e (Relinked-none id nodes))
]

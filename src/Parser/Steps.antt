-- ===== src/Parser/Steps.antt =====
-- What the steps of Parser.Action do from a parser that keeps its invariant: they do not panic, and
-- they keep it. The parser has come to `q` from `b`.
use lugo.Base.{
  ℕ, zero, suc, ◌+◌, ◌-◌, ◌*◌, ◌≤◌, ◌<◌, ◌≡◌, refl, ap, sym, ◌∙◌, inl, inr, Bool, true, false, ◌&&◌,
  ◌||◌, [], ◌∷◌, ◌++◌, some, Bytes, length, get_elem?, get_elem?-append, ltb, leb, if◌then◌else◌,
  arith, Bool-cases,
}
use mathlib.Core.Path.{subst}
use mathlib.Core.Option.{some-injective}
use lugo.Token.{Kind, Token}
use lugo.Token.Codes.{kind_code}
use lugo.Ast.{Node, Tree, add_node}
use lugo.Ast.Parents.{IsPlaced, reparent, is_child}
use lugo.Ast.Links.{Added}
use lugo.Ast.Shape.{add_node-IsTree}
use lugo.Parser.{
  Parser, is_kind, next_token, error_at, sync, sync_loop, starts, is_one_of, is_ident_or_keyword,
}
use lugo.Parser.Stream.{live}
use lugo.Parser.Recovery.{next_token-Moved}
use lugo.Parser.Sound.{rest, weight, To, To-trans, Stores, next_token-Reads}
use lugo.Parser.Stores.{error-Stores, error_at-Stores, tree-Stores, push-Stores}
use lugo.Parser.Rules.{Runs, Runs-map, Runs-if, Runs-gets, Runs-modify}
use lugo.Parser.Action.{returning, modify, advance, report, report_at, expect, add, push}

-- From `q` to `s` at least `d` tokens or bytes were read, at most `c` entries stored that they do
-- not pay for, and `w` pushed.
abbrev pub Move : Parser → Parser → ℕ → ℕ → ℕ → Parser → Type 0
Move b q d c w s =
    To b s
    × (length q.tree.nodes ≤ length s.tree.nodes)
    × (rest s + d ≤ rest q)
    × (weight s + 8 * d ≤ weight q + c)
    × (length s.list_stack ≡ length q.list_stack + w)

-- From `q` to `s` nothing was read, `c` entries were stored and `w` pushed.
abbrev pub Keep : Parser → Parser → ℕ → ℕ → Parser → Type 0
Keep b q c w s =
    To b s
    × (length q.tree.nodes ≤ length s.tree.nodes)
    × (rest s ≡ rest q)
    × (weight s ≡ weight q + c)
    × (length s.list_stack ≡ length q.list_stack + w)
    × (live s.curr ≡ live q.curr)

-- The node `id` is a new one.
abbrev pub New : Parser → ℕ → Parser → Type 0
New q id s = (0 < id) × (length q.tree.nodes ≤ id) × (id < length s.tree.nodes)

add_eq :
    (n : Node) (q : Parser) (r : Tree) (id : ℕ)
    → add_node q.tree n ≡ some (r, id)
    → add n q ≡ some (id, record q { tree = r })
unfolding add
add_eq n q r id e = ap (returning (λ r. (r.1, record q { tree = r.0 }))) e

-- Node `m` is `n`, but for its parent.
abbrev pub Alike : Node → Node → Type 0
Alike n m = m ≡ record n { parent = m.parent }

-- Node `id` is like `n`.
abbrev pub MadeOf : Node → ℕ → Parser → Type 0
MadeOf n id s = (m : Node) → get_elem? s.tree.nodes id ≡ some m → Alike n m

reparent-Alike : (b : Bool) (id : ℕ) (n m : Node) → reparent b id (some n) ≡ some m → Alike n m
reparent-Alike true id n m e =
    subst (λ (k : Node). k ≡ record n { parent = k.parent }) (some-injective _ _ e) refl
reparent-Alike false id n m e =
    subst (λ (k : Node). k ≡ record n { parent = k.parent }) (some-injective _ _ e) refl

Added-Alike :
    (t : Tree) (n : Node) (r : Tree) (m : Node)
    → Added t n (r, length t.nodes)
    → get_elem? r.nodes (length t.nodes) ≡ some m
    → Alike n m
Added-Alike t n r m a e =
    let id = length t.nodes in
    let last : Node = record n { parent = 0 } in
    let at_end : ltb id id ≡ false = ground arith in
    let first : id - id ≡ 0 = omega arith in
    let found : get_elem? (t.nodes ++ (last ∷ [])) id ≡ some last =
      rw (get_elem?-append t.nodes (last ∷ []) id, at_end, first) refl in
    let linked = a.linked id in
    reparent-Alike (is_child t.extra_list n id) id last m (sym (rw found at linked) ∙ e)

error_at_tree :
    (q : Parser) (start end : ℕ) (message : Bytes) → (error_at q start end message).tree ≡ q.tree
unfolding error_at
error_at_tree q start end message =
    elim (Bool-cases (ltb 0 q.max_errors && leb q.max_errors (length q.errors))) [
      | inl e ↦ rw e refl
      | inr e ↦ rw e refl
    ]

module _ {b q : Parser} (t : To b q) where
  Stores-Keep : {c w : ℕ} {s : Parser} → Stores c w q s → Keep b q c w s
  Stores-Keep x = (To-trans t x.to, x.to.nodes, x.rest_is, x.weight_is, x.level, ap live x.curr)

  Reads-Move : Move b q (live q.curr) 0 0 (next_token q)
  Reads-Move =
      let x = next_token-Reads q t.inv in
      (
        To-trans t x.to,
        x.to.nodes,
        x.rest_less,
        omega (arith, x.weight_less),
        omega (arith, x.list_stack),
      )

  pub stay : Move b q 0 0 0 q
  stay = (t, omega arith, omega arith, omega arith, omega arith)

  pub Runs-advance : Runs advance q (λ _ s. Move b q (live q.curr) 0 0 s)
  Runs-advance = Runs-modify next_token Reads-Move

  -- The nodes stay.
  pub Runs-advance_nodes :
      Runs advance q (λ _ s. Move b q (live q.curr) 0 0 s × (s.tree.nodes ≡ q.tree.nodes))
  Runs-advance_nodes = Runs-modify next_token (Reads-Move, (next_token-Moved q t.inv.valid).nodes)

  pub Runs-report : (message : Bytes) → Runs (report message) q (λ _ s. Keep b q 0 0 s)
  Runs-report message = Runs-modify _ (Stores-Keep (error-Stores q message t.inv))

  pub Runs-report_at :
      (start end : ℕ) (message : Bytes)
      → Runs (report_at start end message) q (λ _ s. Keep b q 0 0 s × (s.tree ≡ q.tree))
  Runs-report_at start end message =
      Runs-modify _
        (Stores-Keep (error_at-Stores q start end message t.inv), error_at_tree q start end message)

  pub Runs-push : (id : ℕ) → id < length q.tree.nodes → Runs (push id) q (λ _ s. Keep b q 1 1 s)
  Runs-push id h = Runs-modify _ (Stores-Keep (push-Stores q id t.inv h))

  -- The node that is added is as it was given, but for its parent.
  pub Runs-add_exact :
      (n : Node)
      → weight q + 1 < 4294967296
      → IsPlaced q.tree.extra_list (length q.tree.nodes) n
      → Runs (add n) q (λ id s. (Keep b q 1 0 s × New q id s) × MadeOf n id s)
  unfolding weight
  Runs-add_exact n fits p =
      let ((r, id), done, a, shape) = add_node-IsTree q.tree n t.inv.shape (omega arith) p in
      let index : id ≡ length q.tree.nodes = a.index in
      let a' : Added q.tree n (r, length q.tree.nodes) =
        subst (λ k. Added q.tree n (r, k)) index a in
      record {
        value = id;
        after = record q { tree = r };
        done = add_eq n q r id done;
        holds = (
          (
            Stores-Keep (tree-Stores q n r t.inv shape a'),
            (
              omega (arith, index, t.inv.shape.nonempty),
              omega (arith, index),
              omega (arith, index, a.size),
            ),
          ),
          (λ m e. Added-Alike q.tree n r m a' (rw index at e)),
        );
      }

  pub Runs-add :
      (n : Node)
      → weight q + 1 < 4294967296
      → IsPlaced q.tree.extra_list (length q.tree.nodes) n
      → Runs (add n) q (λ id s. Keep b q 1 0 s × New q id s)
  Runs-add n fits p = Runs-map (Runs-add_exact n fits p) λ id s (x, _). x

  pub Runs-expect :
      (k : Kind) (message : Bytes) → Runs (expect k message) q (λ _ s. Move b q 0 0 0 s)
  unfolding expect
  Runs-expect k message = Runs-gets _ _ (
      Runs-if (is_kind q.curr.kind k)
        (λ e. Runs-map Runs-advance λ _ s (t', g, r, w, l). (t', g, omega arith, omega arith, l))
        (λ e.
          Runs-map (Runs-report message)
            λ _ s (t', g, r, w, l, _). (t', g, omega arith, omega arith, l)))

  -- A loop is given three rounds more than the bytes that are left.
  pub rest-rounds : rest q < length q.lex.source + 3
  unfolding rest
  rest-rounds =
      let a : live q.curr ≤ 1 = ground arith in
      let b : live q.peek ≤ 1 = ground arith in omega arith

-- A token of any kind but the end is something to read.
pub live-kind :
    (t : Token) (k : Kind) → is_kind t.kind k ≡ true → is_kind k Kind.eof ≡ false → live t ≡ 1
live-kind t k e alive = ground arith

-- `sync` reads on.
sync_loop-Move : (f : ℕ) {b q : Parser} → To b q → Move b q 0 0 0 (sync_loop f q)
unfolding sync_loop
sync_loop-Move zero t = stay t
sync_loop-Move (suc f) {b} {q} t =
    let (t', g, r, w, l) = Reads-Move t in
    let (t'', g', r', w', l') = sync_loop-Move f t' in
    let one : Move b q 0 0 0 (next_token q) = (t', g, omega arith, omega arith, l) in
    let more : Move b q 0 0 0 (sync_loop f (next_token q)) =
      (t'', omega arith, omega arith, omega arith, omega arith) in
    either (is_kind q.curr.kind Kind.eof) (stay t) (
      either (is_kind q.curr.kind Kind.semicolon) one (
        either (is_one_of starts q.curr.kind) (stay t)
          (either (is_kind q.curr.kind Kind.ident) (stay t) more)))
  where
    either :
        {s u : Parser} (c : Bool)
        → Move b q 0 0 0 s
        → Move b q 0 0 0 u
        → Move b q 0 0 0 (if c then s else u)
    either true x y = x
    either false x y = y

pub Runs-sync : {b q : Parser} → To b q → Runs (modify sync) q (λ _ s. Move b q (live q.curr) 0 0 s)
unfolding sync
Runs-sync {b} {q} t =
    let (t', g, r, w, l) = Reads-Move t in
    let (t'', g', r', w', l') = sync_loop-Move (length q.lex.source + 3) t' in
    Runs-modify sync (t'', omega arith, omega arith, omega arith, omega arith)

pub live-name : (q : Parser) → is_ident_or_keyword q ≡ true → live q.curr ≡ 1
unfolding is_ident_or_keyword kind_code
live-name q e = ground arith

pub live-either :
    (t : Token) (k j : Kind)
    → is_kind t.kind k || is_kind t.kind j ≡ true
    → is_kind k Kind.eof ≡ false
    → is_kind j Kind.eof ≡ false
    → live t ≡ 1
live-either t k j e alive alive' = ground arith

-- A loop goes on only where there is something to read.
pub live-open :
    (t : Token) (k : Kind) → is_kind t.kind k || is_kind t.kind Kind.eof ≡ false → live t ≡ 1
live-open t k e = ground arith

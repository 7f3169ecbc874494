-- ===== src/Parser/Depths.antt =====
-- The depths that parser/parser.go counts: a method that adds one takes it off again before it
-- returns, and nothing of the invariant depends on them.
use lugo.Base.{ℕ, ◌≤◌, ◌≡◌, refl, ◌∙◌, length, arith}
use lugo.Parser.{Parser}
use lugo.Parser.Sound.{Inv, rest, weight, To, To-refl}

-- The parser with these depths.
abbrev pub at_depths : Parser → ℕ → ℕ → ℕ → Parser
at_depths q d l k = record q { depth = d; loop_depth = l; block_depth = k }

pub at_depths-Inv : {q : Parser} (d l k : ℕ) → Inv q → Inv (at_depths q d l k)
at_depths-Inv d l k i = record {
  valid = i.valid;
  source = i.source;
  curr = i.curr;
  peek = i.peek;
  shape = i.shape;
  stack = i.stack;
}

-- Inside, what is left and what is stored are the same.
abbrev pub Inner : Parser → Parser → Type 0
Inner q q' =
    To q' q'
    × (rest q' ≡ rest q)
    × (weight q' ≡ weight q)
    × (length q'.tree.nodes ≡ length q.tree.nodes)
    × (length q'.list_stack ≡ length q.list_stack)

pub enter : {q : Parser} (d l k : ℕ) → Inv q → Inner q (at_depths q d l k)
unfolding rest weight
enter d l k i = (To-refl (at_depths-Inv d l k i), refl, refl, refl, refl)

-- From `q` to `u`, which is `s` but for its depths.
abbrev pub Back : Parser → Parser → Parser → Parser → Type 0
Back b q s u =
    To b u
    × (length q.tree.nodes ≤ length u.tree.nodes)
    × (length u.tree.nodes ≡ length s.tree.nodes)
    × (rest u ≡ rest s)
    × (weight u ≡ weight s)
    × (length u.list_stack ≡ length s.list_stack)

-- With the old depths again, the parser has come from `b` to where it is.
pub back :
    {b q s : Parser} (d' l' k' d l k : ℕ)
    → To b q
    → To (at_depths q d' l' k') s
    → d ≡ q.depth
    → l ≡ q.loop_depth
    → k ≡ q.block_depth
    → Back b q s (at_depths s d l k)
unfolding rest weight
back d' l' k' d l k t t' ed el ek = (
  record {
    inv = at_depths-Inv d l k t'.inv;
    same = t'.same ∙ t.same;
    less = omega (arith, t.less, t'.less);
    ahead = omega (arith, t.ahead, t'.ahead);
    nodes = omega (arith, t.nodes, t'.nodes);
    grown = omega (arith, t.grown, t'.grown);
    depth = ed ∙ t.depth;
    loop_depth = el ∙ t.loop_depth;
    block_depth = ek ∙ t.block_depth;
  },
  omega (arith, t'.nodes),
  refl,
  refl,
  refl,
  refl,
)

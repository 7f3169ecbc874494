-- ===== src/Parser/Stack.antt =====
-- `flushListStack` of parser/parser.go: the children that wait on the stack become a piece of the
-- tree's extra list.
use lugo.Base.{
  ℕ, ◌+◌, ◌-◌, ◌≤◌, ◌<◌, ◌≡◌, refl, sym, ap, ◌∙◌, inl, inr, true, false, List, [], ◌∷◌, ◌++◌,
  length, take, drop, slice, length-append, length-drop, drop-end, drop-append, u32, arith,
  Bool-cases, ◌==◌,
}
use lugo.Parser.{Parser, flush_list_stack}

module _ {ℓ} {A : Type ℓ} where
  take-length-append : (xs ys : List A) → take (length xs) (xs ++ ys) ≡ xs
  take-length-append [] ys = refl
  take-length-append (x ∷ xs) ys = ap (◌∷◌ x) (take-length-append xs ys)

  take-length : (xs : List A) → take (length xs) xs ≡ xs
  take-length [] = refl
  take-length (x ∷ xs) = ap (◌∷◌ x) (take-length xs)

-- What `flushListStack` returns: the piece of the extra list, the old extra list in front of it,
-- the stack as it was when the list began, and everything else unchanged.
pub record Flushed (p : Parser) (stack_start : ℕ) (r : Parser × (ℕ × ℕ)) : Type 0 where
  pub piece : slice r.1.0 (r.1.0 + r.1.1) r.0.tree.extra_list ≡ drop stack_start p.list_stack
  pub count : r.1.1 ≡ length p.list_stack - stack_start
  pub inside : r.1.0 + r.1.1 ≤ length r.0.tree.extra_list
  pub kept : take (length p.tree.extra_list) r.0.tree.extra_list ≡ p.tree.extra_list
  pub stack : r.0.list_stack ≡ take stack_start p.list_stack
  pub nodes : r.0.tree.nodes ≡ p.tree.nodes
  pub curr : r.0.curr ≡ p.curr

module _ (p : Parser) (s : ℕ) (h : s ≤ length p.list_stack)
    (fits : length p.tree.extra_list + length p.list_stack < 4294967296) where
  pub flush_none : s ≡ length p.list_stack → flush_list_stack p s ≡ (p, (0, 0))
  unfolding flush_list_stack
  flush_none e =
      let test : (u32 (length p.list_stack - s) == 0) ≡ true = ground arith in rw test refl

  none-Flushed : s ≡ length p.list_stack → Flushed p s (p, (0, 0))
  none-Flushed e = record {
    piece = rw (drop-end s p.list_stack (omega arith)) refl;
    count = omega arith;
    inside = omega arith;
    kept = take-length p.tree.extra_list;
    stack = rw (e, take-length p.list_stack) refl;
    nodes = refl;
    curr = refl;
  }

  abbrev pub flushed : Parser
  flushed = record p {
    tree = record p.tree { extra_list = p.tree.extra_list ++ drop s p.list_stack };
    list_stack = take s p.list_stack;
  }

  pub flush_some :
      s < length p.list_stack
      → flush_list_stack p s ≡ (flushed, (length p.tree.extra_list, length p.list_stack - s))
  unfolding flush_list_stack
  flush_some e =
      let exact : u32 (length p.list_stack - s) ≡ length p.list_stack - s = omega arith in
      let test : (length p.list_stack - s == 0) ≡ false = ground arith in
      let exact' : u32 (length p.tree.extra_list) ≡ length p.tree.extra_list = omega arith in
      rw (exact, test, exact') refl

  take-rest :
      (n : ℕ) → n ≡ length p.list_stack - s → take n (drop s p.list_stack) ≡ drop s p.list_stack
  take-rest n e =
      let same : n ≡ length (drop s p.list_stack) = e ∙ sym (length-drop s p.list_stack) in
      rw same (take-length (drop s p.list_stack))

  some-Flushed : Flushed p s (flushed, (length p.tree.extra_list, length p.list_stack - s))
  some-Flushed =
      let rest = drop s p.list_stack in
      let old = p.tree.extra_list in
      record {
        piece =
            rw (drop-append old rest)
              (take-rest (length old + (length p.list_stack - s) - length old) (omega arith));
        count = refl;
        inside = omega (arith, length-append old rest, length-drop s p.list_stack);
        kept = take-length-append old rest;
        stack = refl;
        nodes = refl;
        curr = refl;
      }

  -- `flushListStack` moves the children that a list has pushed since `stackStart` to the end of the
  -- extra list, if the stack is no shorter than that and the lists stay below 2 ^ 32: the returned
  -- start and count name just them, what stood there before stays, and the stack is cut back.
  pub flush_list_stack_lem : Flushed p s (flush_list_stack p s)
  flush_list_stack_lem = elim (Bool-cases (s == length p.list_stack)) [
    | inl e ↦ rw (flush_none (ground arith)) (none-Flushed (ground arith))
    | inr e ↦ rw (flush_some (ground arith)) some-Flushed
  ]

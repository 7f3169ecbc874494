-- ===== src/Ast/Find.antt =====
-- `NodeAt` of ast/ast.go: the way from the root down to the node at an offset. `none` is a
-- run-time panic.
use lugo.Base.{
  ℕ, zero, suc, ◌+◌, ◌/◌, Bool, not, ◌&&◌, ◌||◌, List, Option, none, some, ◌>>=◌, length, get_elem?,
  ltb, leb, ◌==◌, if◌then◌else◌, u32,
}
use lugo.Ast.Kinds.{NodeKind}
use lugo.Ast.{Node, Tree, is_kind}

-- `offset >= c.Start && offset <= c.End`
abbrev pub holds : ℕ → Node → Bool
holds offset m = leb m.start offset && leb offset m.end

-- The closure `check`: the child `c` is the next node if none has been found and it holds the
-- offset.
unfoldable pub check : List Node → ℕ → ℕ → ℕ → Option ℕ
check nodes offset c found =
    let looked = (do m ← get_elem? nodes c; some (if holds offset m then c else found)) in
    if not (c == 0) && found == 0 then looked else some found

-- The linear scan over the extra children: `k` rounds from `i` on.
unfoldable pub check_extras : Tree → ℕ → ℕ → ℕ → ℕ → ℕ → Option ℕ
check_extras t offset extra zero i found = some found
check_extras t offset extra (suc k) i found = do
  c ← get_elem? t.extra_list (u32 (extra + i))
  better ← check t.nodes offset c found
  check_extras t offset extra k (i + 1) better

-- The binary search among the extra children from `low` up to `high`. Each round makes the piece
-- smaller, so its length is enough fuel.
unfoldable pub search_extras : ℕ → Tree → ℕ → ℕ → ℕ → ℕ → Option ℕ
search_extras zero t offset extra low high = some 0
search_extras (suc f) t offset extra low high =
    let mid = (low + high) / 2 in
    let left = search_extras f t offset extra low mid in
    let right = search_extras f t offset extra (mid + 1) high in
    let round = (do
      c ← get_elem? t.extra_list (u32 (extra + mid))
      m ← get_elem? t.nodes c
      if ltb offset m.start then left else if ltb m.end offset then right else some c) in
    if ltb low high then round else some 0

-- `Extra` of a `for` loop over iterators is a child.
abbrev pub check_third : Tree → ℕ → Node → ℕ → Option ℕ
check_third t offset node found =
    if is_kind node.kind NodeKind.for_in then check t.nodes offset node.extra found else some found

-- The extra children are searched if no other child has been found.
abbrev pub check_list : Tree → ℕ → Node → ℕ → Option ℕ
check_list t offset node found =
    if found == 0 && ltb 0 node.count
    then if is_kind node.kind NodeKind.block || is_kind node.kind NodeKind.file
      then search_extras node.count t offset node.extra 0 node.count
      else check_extras t offset node.extra node.count 0 found
    else some found

-- The body of the loop: the child to go to, or 0.
unfoldable pub next_child : Tree → ℕ → Node → Option ℕ
next_child t offset node = do
  first ← check t.nodes offset node.left 0
  second ← check t.nodes offset node.right first
  third ← check_third t offset node second
  check_list t offset node third

-- The loop on fuel; the outer `none` is that it has not come to its end.
unfoldable pub descend : ℕ → Tree → ℕ → ℕ → Option (Option ℕ)
descend zero t offset curr = none
descend (suc f) t offset curr =
    let onward : ℕ → Option (Option ℕ) =
      λ next. let rest = descend f t offset next in if next == 0 then some (some curr) else rest in
    let round : Option (Option ℕ) = elim (get_elem? t.nodes curr >>= next_child t offset) [
      | none ↦ some none
      | some next ↦ onward next
    ] in
    if leb (length t.nodes) curr then some (some 0) else round

-- `NodeAt`. The children of a node are below it, so the number of nodes is enough fuel.
unfoldable pub node_at : Tree → ℕ → Option (Option ℕ)
node_at t offset =
    let found : Option (Option ℕ) = elim (get_elem? t.nodes t.root) [
      | none ↦ some none
      | some m ↦
          if t.root == 0 || ltb offset m.start || ltb m.end offset
          then some (some 0)
          else descend (length t.nodes) t offset t.root
    ] in
    if leb (length t.nodes) t.root then some (some 0) else found

-- ===== src/Eviction/Tests.antt =====
-- A small policy of lsp/eviction.go, and the theorems about it.
use lugo.Base.{
  ℕ, ◌+◌, ◌<◌, ◌≡◌, ◌≢◌, refl, [], ◌∷◌, List, none, some, Bytes, length, equal, min, arith,
}
use lugo.Lexer.Readers.{codes}
use lugo.Eviction.{
  Entry, Policy, Resource, Index, State, lookup, new_eviction_policy, register_eviction,
  eviction_dependency_count, less, precedes, oldest_loop, oldest_victim_index, evict_source,
  evict_loop, evict_oldest,
}
use lugo.Eviction.Spec.{Evicts}
use lugo.Eviction.Bound.{evict_oldest-Evicts}
use lugo.Eviction.Memory.{IsAccounted, evict_source-IsAccounted}
use lugo.Eviction.Register.{IsDistinct, last_access, register_eviction_lem}

-- `a` needs `b`, and was read first.
abbrev first_entry : Entry
first_entry = record { uri = codes "a"; timestamp = 1 }

abbrev others : List Entry
others = record { uri = codes "b"; timestamp = 5 } ∷ record { uri = codes "c"; timestamp = 3 } ∷ []

abbrev policy : Policy
policy = record { max_sources = 1; eviction_list = first_entry ∷ others }

abbrev source_c : Resource
source_c = record { dependencies = []; source = codes "x = 1"; ast = none; source_bytes = 5 }

abbrev index : Index
index = record {
  resources =
      (codes "c", source_c)
      ∷ (codes "b", record { dependencies = []; source = codes "y"; ast = none; source_bytes = 1 })
      ∷ [];
  dep_graph = some ((codes "a", codes "b" ∷ []) ∷ []);
  memory_usage = 6;
}

abbrev docs : List (Bytes × ℕ)
docs = (codes "b", 1) ∷ (codes "a", 2) ∷ []

-- The resources without their sources.
abbrev emptied : List (Bytes × Resource)
emptied =
    (codes "c", record { dependencies = []; source = []; ast = none; source_bytes = 0 })
    ∷ (codes "b", record { dependencies = []; source = []; ast = none; source_bytes = 0 })
    ∷ []

-- `c` goes first, then `b`; `a` is kept for its dependency.
evict_oldest_runs : evict_oldest (some policy) (some index) docs ≡ (
  some (record { max_sources = 1; eviction_list = first_entry ∷ [] }),
  some (record index { resources = emptied; memory_usage = 0 }),
  (codes "a", 2) ∷ [],
)
unfolding evict_oldest evict_loop oldest_victim_index oldest_loop precedes less
    eviction_dependency_count evict_source equal
evict_oldest_runs = refl

-- Of two that are needed as much, the one that was read first goes.
evict_oldest_by_time :
    (evict_oldest (some policy) (some (record index { dep_graph = none })) docs).0
    ≡ some
        (record { max_sources = 1; eviction_list = record { uri = codes "b"; timestamp = 5 } ∷ [] })
unfolding evict_oldest evict_loop oldest_victim_index oldest_loop precedes less
    eviction_dependency_count evict_source equal
evict_oldest_by_time = refl

-- A nil policy or a nil index changes nothing.
evict_oldest_nil :
    (evict_oldest none (some index) docs ≡ (none, some index, docs))
    × (evict_oldest (some policy) none docs ≡ (some policy, none, docs))
unfolding evict_oldest
evict_oldest_nil = (refl, refl)

new_eviction_policy_runs :
    ((new_eviction_policy []).max_sources ≡ 1024)
    × ((new_eviction_policy (0 ∷ [])).max_sources ≡ 1024)
    × ((new_eviction_policy (7 ∷ [])).max_sources ≡ 7)
unfolding new_eviction_policy
new_eviction_policy_runs = (refl, refl, refl)

evict_oldest-Evicts_example :
    (q : Policy) × (s : State ℕ) × (evict_oldest (some policy) (some index) docs
      ≡ (some q, some s.index, s.docs))
    × Evicts q.max_sources (record { entries = policy.eviction_list; index = index; docs = docs }) s
    × (q.eviction_list ≡ s.entries)
    × (length q.eviction_list ≡ min (length policy.eviction_list) q.max_sources)
    × (0 < policy.max_sources → q.max_sources ≡ policy.max_sources)
    × (policy.max_sources ≡ 0 → q.max_sources ≡ 1024)
evict_oldest-Evicts_example = evict_oldest-Evicts policy index docs

index-IsAccounted : IsAccounted index
index-IsAccounted = record { sum = refl; fits = omega arith }

evict_source-IsAccounted_example :
    IsAccounted (evict_source index (codes "c"))
    × ((r : Resource)
        → lookup index.resources (codes "c") ≡ some r
        → (evict_source index (codes "c")).memory_usage + r.source_bytes ≡ index.memory_usage)
evict_source-IsAccounted_example = evict_source-IsAccounted index (codes "c") index-IsAccounted

abbrev single : Policy
single = record { max_sources = 1; eviction_list = first_entry ∷ [] }

single-IsDistinct : IsDistinct (first_entry ∷ [])
single-IsDistinct uri = ground arith

b_is_some : codes "b" ≢ []
b_is_some e = cc

register_eviction_lem_example :
    let es = (register_eviction single (codes "b") 9).eviction_list in
    IsDistinct es
    × (last_access es (codes "b") ≡ some 9)
    × ((k : Bytes) → codes "b" ≢ k → last_access es k ≡ last_access (first_entry ∷ []) k)
register_eviction_lem_example =
    register_eviction_lem single (codes "b") 9 b_is_some single-IsDistinct

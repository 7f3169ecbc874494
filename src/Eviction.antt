-- ===== src/Eviction.antt =====
-- lsp/eviction.go: the entries of the sources that were read, and the choice of those to drop; and
-- `evictSourceLocked` of lsp/global_index.go, which drops one. A map is an association list, a
-- nil map the empty one. The operations are functions of the state: what other goroutines do
-- to the index and the documents while one runs is left out (`EvictOldest` holds the lock of the
-- policy only).
pub mod Maps
pub mod Spec
pub mod Order
pub mod Victim
pub mod Bound
pub mod Memory
pub mod Register
mod Tests
use lugo.Base.{
  ℕ, zero, suc, ◌+◌, ◌-◌, ◌%◌, Bool, true, false, ◌&&◌, ◌||◌, List, [], ◌∷◌, Option, none, some,
  Bytes, length, get_elem?, equal, ltb, ◌==◌, if◌then◌else◌,
}
use lugo.Ast.{Tree}

-- The times are those of `time.Now().UnixNano()` that are not negative.
pub record Entry : Type 0 where
  pub uri : Bytes
  pub timestamp : ℕ

-- A limit that is not positive acts as 0 does.
pub record Policy : Type 0 where
  pub max_sources : ℕ
  pub eviction_list : List Entry

-- The fields of `ResourceScope` that eviction reads or sets.
pub record Resource : Type 0 where
  pub dependencies : List Bytes
  pub source : Bytes
  pub ast : Option Tree
  pub source_bytes : ℕ

-- The fields of `GlobalIndex` that eviction reads or sets.
pub record Index : Type 0 where
  pub resources : List (Bytes × Resource)
  pub dep_graph : Option (List (Bytes × List Bytes))
  pub memory_usage : ℕ

module _ {A : Type 0} where
  -- `m[key]`
  abbrev pub lookup : List (Bytes × A) → Bytes → Option A
  lookup [] key = none
  lookup ((k, a) ∷ m) key = if equal k key then some a else lookup m key

  -- `m[key] = a`, where the key is there
  abbrev pub put : List (Bytes × A) → Bytes → A → List (Bytes × A)
  put [] key a = []
  put ((k, b) ∷ m) key a = if equal k key then (k, a) ∷ m else (k, b) ∷ put m key a

  -- `delete(m, key)`
  abbrev pub delete : List (Bytes × A) → Bytes → List (Bytes × A)
  delete [] key = []
  delete ((k, a) ∷ m) key = if equal k key then delete m key else (k, a) ∷ delete m key

  -- `append(xs[:i], xs[i+1:]...)`
  abbrev pub remove_at : ℕ → List A → List A
  remove_at i [] = []
  remove_at zero (x ∷ xs) = xs
  remove_at (suc i) (x ∷ xs) = x ∷ remove_at i xs

-- `DefaultEvictionPolicyMaxSources`
abbrev pub default_max_sources : ℕ
default_max_sources = 1024

unfoldable pub new_eviction_policy : List ℕ → Policy
new_eviction_policy [] = record { max_sources = default_max_sources; eviction_list = [] }
new_eviction_policy (n ∷ _) = record {
  max_sources = if ltb 0 n then n else default_max_sources;
  eviction_list = [];
}

-- `if p.maxSources <= 0 { p.maxSources = ... }`
abbrev pub with_limit : Policy → Policy
with_limit p = record p {
  max_sources = if p.max_sources == 0 then default_max_sources else p.max_sources;
}

-- The loop over the entries, and the new entry where none has the URI.
abbrev pub touch : List Entry → Bytes → ℕ → List Entry
touch [] uri timestamp = record { uri = uri; timestamp = timestamp } ∷ []
touch (e ∷ es) uri timestamp =
    if equal e.uri uri then record e { timestamp = timestamp } ∷ es else e ∷ touch es uri timestamp

-- `registerEvictionLocked`; `RegisterEviction` passes the time.
unfoldable pub register_eviction : Policy → Bytes → ℕ → Policy
register_eviction p uri timestamp =
    let q = with_limit p in
    if equal uri [] then p else record q { eviction_list = touch q.eviction_list uri timestamp }

abbrev pub count_of : {A : Type 0} → Option (List A) → ℕ
count_of none = 0
count_of (some xs) = length xs

abbrev pub dependencies_of : Option Resource → ℕ
dependencies_of none = 0
dependencies_of (some r) = length r.dependencies

abbrev pub dependency_count :
    Option (List (Bytes × List Bytes)) → List (Bytes × Resource) → Bytes → ℕ
dependency_count none resources uri = dependencies_of (lookup resources uri)
dependency_count (some graph) resources uri = count_of (lookup graph uri)

unfoldable pub eviction_dependency_count : Index → Bytes → ℕ
eviction_dependency_count index uri = dependency_count index.dep_graph index.resources uri

-- `<` on strings
unfoldable pub less : Bytes → Bytes → Bool
less cs [] = false
less [] (d ∷ ds) = true
less (c ∷ cs) (d ∷ ds) = ltb c d || (c == d && less cs ds)

-- The victim so far: `victimIdx`, `victimDeps`, `victimTimestamp` and `victimURI`.
pub record Candidate : Type 0 where
  pub idx : ℕ
  pub deps : ℕ
  pub timestamp : ℕ
  pub uri : Bytes

-- The entry goes in front of the victim so far.
unfoldable pub precedes : Candidate → Candidate → Bool
precedes a b =
    ltb a.deps b.deps
    || ((a.deps == b.deps && ltb a.timestamp b.timestamp)
        || (a.deps == b.deps && (a.timestamp == b.timestamp && less a.uri b.uri)))

abbrev pub candidate : Index → ℕ → Entry → Candidate
candidate index i e = record {
  idx = i;
  deps = eviction_dependency_count index e.uri;
  timestamp = e.timestamp;
  uri = e.uri;
}

-- The loop over the entries, from place `i` on, with a victim.
unfoldable pub oldest_loop : Index → List Entry → ℕ → Candidate → Candidate
oldest_loop index [] i victim = victim
oldest_loop index (e ∷ es) i victim =
    let new = candidate index i e in
    oldest_loop index es (i + 1) (if precedes new victim then new else victim)

-- The first entry is the first victim; -1 is `none`.
unfoldable pub oldest_victim_index : Index → List Entry → Option ℕ
oldest_victim_index index [] = none
oldest_victim_index index (e ∷ es) = some (oldest_loop index es 1 (candidate index 0 e)).idx

-- What `evictSourceLocked` does to the resource that it finds; `memoryUsage` is a machine word.
abbrev pub evict_resource : Index → Bytes → Option Resource → Index
evict_resource index uri none = index
evict_resource index uri (some r) = if r.source_bytes == 0 then index else record index {
  memory_usage =
      (index.memory_usage + 18446744073709551616 - r.source_bytes) % 18446744073709551616;
  resources = put index.resources uri (record r { source = []; ast = none; source_bytes = 0 });
}

unfoldable pub evict_source : Index → Bytes → Index
evict_source index uri = evict_resource index uri (lookup index.resources uri)

-- The state that `EvictOldest` changes: the entries, the index and the documents.
pub record State (A : Type 0) : Type 0 where
  pub entries : List Entry
  pub index : Index
  pub docs : List (Bytes × A)

module _ {A : Type 0} where
  -- The victim leaves the entries, the index and the documents.
  abbrev pub evict_entry : State A → ℕ → Option Entry → State A
  evict_entry s i none = s
  evict_entry s i (some victim) = record {
    entries = remove_at i s.entries;
    index = evict_source s.index victim.uri;
    docs = delete s.docs victim.uri;
  }

  -- A round of the loop, where there is a victim.
  abbrev pub evict_round : State A → Option ℕ → State A
  evict_round s none = s
  evict_round s (some i) = evict_entry s i (get_elem? s.entries i)

  -- Each round takes an entry away, so the number of entries is enough fuel.
  unfoldable pub evict_loop : ℕ → ℕ → State A → State A
  evict_loop zero limit s = s
  evict_loop (suc f) limit s =
      let rest = evict_loop f limit (evict_round s (oldest_victim_index s.index s.entries)) in
      if ltb limit (length s.entries) then rest else s

  -- A nil policy or a nil index is `none`. The test of the length in front of the loop is the one
  -- that the loop begins with.
  unfoldable pub evict_oldest :
      Option Policy
      → Option Index
      → List (Bytes × A)
      → Option Policy × Option Index × List (Bytes × A)
  evict_oldest none index docs = (none, index, docs)
  evict_oldest (some p) none docs = (some p, none, docs)
  evict_oldest (some p) (some index) docs =
      let q = with_limit p in
      let s =
        evict_loop (length q.eviction_list) q.max_sources
          (record { entries = q.eviction_list; index = index; docs = docs }) in
      (some (record q { eviction_list = s.entries }), some s.index, s.docs)

-- ===== src/Eviction/Spec.antt =====
-- What lsp/eviction.go is to do: which entry is the oldest, and what evicting it changes.
use lugo.Base.{
  ℕ, suc, ◌<◌, ◌≡◌, ◌≢◌, ◌⊎◌, List, [], ◌∷◌, ◌++◌, none, some, Bytes, length, take, drop, get_elem?,
}
use lugo.Eviction.{Entry, Resource, Index, State, lookup}
use lugo.Eviction.Memory.{IsAccounted}

-- The order on texts, byte by byte.
pub data Smaller : Bytes → Bytes → Type 0 where
  ends : (d : ℕ) (ds : Bytes) → Smaller [] (d ∷ ds)
  differs : (c d : ℕ) (cs ds : Bytes) → c < d → Smaller (c ∷ cs) (d ∷ ds)
  later : (c : ℕ) (cs ds : Bytes) → Smaller cs ds → Smaller (c ∷ cs) (c ∷ ds)

-- The number of dependencies of a URI: those in the graph if there is one, and those of its resource otherwise.
pub data Counts (index : Index) (uri : Bytes) : ℕ → Type 0 where
  in_graph :
      (graph : List (Bytes × List Bytes)) (xs : List Bytes)
      → index.dep_graph ≡ some graph
      → lookup graph uri ≡ some xs
      → Counts index uri (length xs)
  not_in_graph :
      (graph : List (Bytes × List Bytes))
      → index.dep_graph ≡ some graph
      → lookup graph uri ≡ none
      → Counts index uri 0
  in_resource :
      (r : Resource)
      → index.dep_graph ≡ none
      → lookup index.resources uri ≡ some r
      → Counts index uri (length r.dependencies)
  no_resource : index.dep_graph ≡ none → lookup index.resources uri ≡ none → Counts index uri 0

-- The entry `e` with `m` dependencies is to go before `f` with `n`: it has fewer, or as many and an
-- older access, or both the same and a smaller URI.
abbrev pub Earlier : ℕ → Entry → ℕ → Entry → Type 0
Earlier m e n f =
    (m < n)
    ⊎ (((m ≡ n) × (e.timestamp < f.timestamp))
        ⊎ ((m ≡ n) × (e.timestamp ≡ f.timestamp) × Smaller e.uri f.uri))

-- The entry at `i` is one that no other is to go before.
pub record IsOldest (index : Index) (es : List Entry) (i : ℕ) (e : Entry) : Type 0 where
  pub at : get_elem? es i ≡ some e
  pub count : ℕ
  pub counted : Counts index e.uri count
  pub least :
      (j m : ℕ) (f : Entry) → get_elem? es j ≡ some f → Counts index f.uri m → ¬ Earlier m f count e

-- From `s` to `t` the entry at `i`, which is for `uri`, is evicted: it is gone from the entries, its
-- document from the documents, and its source from its resource, and nothing else has changed
-- but the memory, which is accounted for if it was.
pub record IsEvicted {A : Type 0} (i : ℕ) (uri : Bytes) (s t : State A) : Type 0 where
  pub entries : t.entries ≡ take i s.entries ++ drop (suc i) s.entries
  pub doc : lookup t.docs uri ≡ none
  pub docs : (k : Bytes) → uri ≢ k → lookup t.docs k ≡ lookup s.docs k
  pub source :
      (r : Resource)
      → lookup s.index.resources uri ≡ some r
      → r.source_bytes ≢ 0
      → lookup t.index.resources uri ≡ some (record r { source = []; ast = none; source_bytes = 0 })
  pub no_source :
      (r : Resource)
      → lookup s.index.resources uri ≡ some r
      → r.source_bytes ≡ 0
      → lookup t.index.resources uri ≡ some r
  pub resources : (k : Bytes) → uri ≢ k → lookup t.index.resources k ≡ lookup s.index.resources k
  pub graph : t.index.dep_graph ≡ s.index.dep_graph
  pub memory : IsAccounted s.index → IsAccounted t.index

-- From `s` to `u` the oldest entry is evicted, again and again, as long as there are more than
-- `limit`.
pub data Evicts {A : Type 0} (limit : ℕ) : State A → State A → Type 0 where
  done : (s : State A) → ¬ (limit < length s.entries) → Evicts limit s s
  evict :
      (s t u : State A) (i : ℕ) (victim : Entry)
      → limit < length s.entries
      → IsOldest s.index s.entries i victim
      → IsEvicted i victim.uri s t
      → Evicts limit t u
      → Evicts limit s u

-- ===== src/Eviction/Bound.antt =====
-- `EvictOldest` of lsp/eviction.go drops the oldest entries until no more are left than the limit.
use lugo.Base.{
  ℕ, zero, suc, ◌+◌, ◌≤◌, ◌<◌, ◌≡◌, inl, inr, refl, sym, ap, ◌∙◌, ◌≢◌, true, false, ◌==◌, List, [],
  ◌∷◌, Option, none, some, Bytes, length, get_elem?-lt, ltb, min, arith, Bool-cases,
}
use lugo.Eviction.{
  Entry, Resource, Index, Policy, State, lookup, with_limit, remove_at, oldest_victim_index,
  evict_resource, evict_source, evict_entry, evict_round, evict_loop, evict_oldest,
}
use lugo.Eviction.Maps.{
  lookup-delete, lookup-delete_other, lookup-put, lookup-put_other, remove_at_lem,
}
use lugo.Eviction.Memory.{evict_source-IsAccounted}
use lugo.Eviction.Spec.{IsOldest, IsEvicted, Evicts}
use lugo.Eviction.Victim.{oldest_victim_index_lem}

length-remove_at :
    (i : ℕ) (es : List Entry) → i < length es → length (remove_at i es) + 1 ≡ length es
length-remove_at i [] h = absurd (omega arith)
length-remove_at zero (e ∷ es) h = omega arith
length-remove_at (suc i) (e ∷ es) h = let ih = length-remove_at i es (omega arith) in omega arith

-- What `evictSourceLocked` does to the source of the URI.
evict_source-Drops :
    (index : Index) (uri : Bytes) (r : Resource)
    → lookup index.resources uri ≡ some r
    → (r.source_bytes ≢ 0
        → lookup (evict_source index uri).resources uri
          ≡ some (record r { source = []; ast = none; source_bytes = 0 }))
      × (r.source_bytes ≡ 0 → lookup (evict_source index uri).resources uri ≡ some r)
unfolding evict_source
evict_source-Drops index uri r e = rw e (
  (λ full.
      let test : (r.source_bytes == 0) ≡ false = ground arith in
      rw test (lookup-put index.resources uri r _ e)),
  (λ empty. let test : (r.source_bytes == 0) ≡ true = ground arith in rw test e),
)

-- What it leaves as it was.
evict_source-Keeps :
    (index : Index) (uri : Bytes)
    → ((k : Bytes)
        → uri ≢ k
        → lookup (evict_source index uri).resources k ≡ lookup index.resources k)
      × ((evict_source index uri).dep_graph ≡ index.dep_graph)
unfolding evict_source
evict_source-Keeps index uri = from (lookup index.resources uri)
  where
    from :
        (o : Option Resource)
        → ((k : Bytes)
            → uri ≢ k
            → lookup (evict_resource index uri o).resources k ≡ lookup index.resources k)
          × ((evict_resource index uri o).dep_graph ≡ index.dep_graph)
    from none = ((λ k ne. refl), refl)
    from (some r) = elim (Bool-cases (r.source_bytes == 0)) [
      | inl empty ↦ rw empty ((λ k ne. refl), refl)
      | inr full ↦ rw full ((λ k ne. lookup-put_other index.resources uri k _ ne), refl)
    ]

module _ {A : Type 0} where
  Evicts-length :
      (limit : ℕ) (s u : State A)
      → Evicts limit s u
      → length u.entries ≡ min (length s.entries) limit
  Evicts-length limit _ _ (Evicts.done s h) =
      let enough : length s.entries ≤ limit = omega arith in omega (arith, enough)
  Evicts-length limit _ _ (Evicts.evict s t u i victim more oldest evicted rest) =
      let ih = Evicts-length limit t u rest in
      let inside = get_elem?-lt s.entries i oldest.at in
      let one_less = length-remove_at i s.entries inside in
      let left =
        ap (λ (es : List Entry). length es)
          (evicted.entries ∙ sym (remove_at_lem i s.entries inside)) in
      omega (arith, ih, one_less, left, more)

  evict_entry-IsEvicted :
      (s : State A) (i : ℕ) (victim : Entry)
      → i < length s.entries
      → IsEvicted i victim.uri s (evict_entry s i (some victim))
  evict_entry-IsEvicted s i victim h =
      let (others, graph) = evict_source-Keeps s.index victim.uri in
      record {
        entries = remove_at_lem i s.entries h;
        doc = lookup-delete s.docs victim.uri;
        docs = λ k ne. lookup-delete_other s.docs victim.uri k ne;
        source = λ r at. (evict_source-Drops s.index victim.uri r at).0;
        no_source = λ r at. (evict_source-Drops s.index victim.uri r at).1;
        resources = others;
        graph = graph;
        memory = λ accounted. (evict_source-IsAccounted s.index victim.uri accounted).0;
      }

  -- A round evicts the oldest entry.
  round :
      (s : State A)
      → 0 < length s.entries
      → (i : ℕ) × (victim : Entry) × IsOldest s.index s.entries i victim
        × (evict_round s (oldest_victim_index s.index s.entries) ≡ evict_entry s i (some victim))
  round s h = from s.entries refl h
    where
      from :
          (es : List Entry)
          → s.entries ≡ es
          → 0 < length es
          → (i : ℕ) × (victim : Entry) × IsOldest s.index s.entries i victim
            × (evict_round s (oldest_victim_index s.index s.entries)
                ≡ evict_entry s i (some victim))
      from [] e h' = absurd (omega arith)
      from (e' ∷ es) e h' =
          let (i, victim, found, oldest) = oldest_victim_index_lem s.index e' es in
          let here : IsOldest s.index s.entries i victim = rw e oldest in
          let found' : oldest_victim_index s.index s.entries ≡ some i = rw e found in
          (i, victim, here, ap (evict_round s) found' ∙ ap (evict_entry s i) here.at)

  evict_loop-Evicts :
      (f limit : ℕ) (s : State A)
      → length s.entries ≤ f + limit
      → Evicts limit s (evict_loop f limit s)
  unfolding evict_loop
  evict_loop-Evicts zero limit s h = Evicts.done s (λ more. absurd (omega arith))
  evict_loop-Evicts (suc f) limit s h = elim (Bool-cases (ltb limit (length s.entries))) [
    | inr enough ↦ rw enough (Evicts.done s (λ more. absurd (ground arith)))
    | inl more ↦
        let (i, victim, oldest, next) = round s (ground arith) in
        let one_less = length-remove_at i s.entries (get_elem?-lt s.entries i oldest.at) in
        let evicted = evict_entry-IsEvicted s i victim (get_elem?-lt s.entries i oldest.at) in
        let ih = evict_loop-Evicts f limit (evict_entry s i (some victim)) (omega arith) in
        rw (more, next) (Evicts.evict s _ _ i victim (ground arith) oldest evicted ih)
  ]

  -- `EvictOldest` with a policy and an index, neither of them nil, returns, and until no more
  -- entries are left than the limit it evicts the oldest again and again: the one with the fewest
  -- dependencies, of these the least recently read, of these the one with the least URI. Each is
  -- gone from the entries, its document from the documents and its source from the index, and all
  -- the rest is kept. The limit is that of the policy, 1024 if that is not positive, and as many
  -- entries are left as there were, or the limit if there were more.
  pub evict_oldest-Evicts :
      (p : Policy) (index : Index) (docs : List (Bytes × A))
      → (q : Policy) × (s : State A) × (evict_oldest (some p) (some index) docs
          ≡ (some q, some s.index, s.docs))
        × Evicts q.max_sources (record { entries = p.eviction_list; index = index; docs = docs }) s
        × (q.eviction_list ≡ s.entries)
        × (length q.eviction_list ≡ min (length p.eviction_list) q.max_sources)
        × (0 < p.max_sources → q.max_sources ≡ p.max_sources)
        × (p.max_sources ≡ 0 → q.max_sources ≡ 1024)
  unfolding evict_oldest
  evict_oldest-Evicts p index docs =
      let limit = (with_limit p).max_sources in
      let start : State A = record { entries = p.eviction_list; index = index; docs = docs } in
      let s = evict_loop (length p.eviction_list) limit start in
      let all = evict_loop-Evicts (length p.eviction_list) limit start (omega arith) in
      (
        record (with_limit p) { eviction_list = s.entries },
        s,
        refl,
        all,
        refl,
        Evicts-length limit start s all,
        (λ positive. ground arith),
        (λ none_set. ground arith),
      )

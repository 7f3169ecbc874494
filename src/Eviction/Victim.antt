-- ===== src/Eviction/Victim.antt =====
-- The victim that `oldestVictimIndexLocked` of lsp/eviction.go chooses.
use lugo.Base.{
  ℕ, zero, suc, ◌+◌, ◌≡◌, ◌⊎◌, inl, inr, refl, sym, ap, ◌∙◌, true, false, List, [], ◌∷◌, Bytes,
  Option, none, some, get_elem?, arith, Bool-cases,
}
use mathlib.Core.Option.{some-injective}
use lugo.Eviction.{
  Entry, Index, Resource, Candidate, candidate, precedes, oldest_loop, oldest_victim_index, lookup,
  count_of, dependencies_of, dependency_count, eviction_dependency_count, less,
}
use lugo.Eviction.Order.{precedes_trans, precedes_self}
use lugo.Eviction.Spec.{Smaller, Counts, Earlier, IsOldest}

-- The loop over `es`, from place `i` on, with the victim `v`, ends with the victim `r`.
record IsChosen (index : Index) (es : List Entry) (i : ℕ) (v r : Candidate) : Type 0 where
  pub from :
      (r ≡ v)
      ⊎ ((j : ℕ) × (e : Entry) × (get_elem? es j ≡ some e) × (r ≡ candidate index (i + j) e))
  pub before : (r ≡ v) ⊎ (precedes r v ≡ true)
  pub least :
      (j : ℕ) (e : Entry) → get_elem? es j ≡ some e → precedes (candidate index (i + j) e) r ≡ false

-- What does not come before `v` does not come before `r`.
not_before :
    (a v r : Candidate)
    → (r ≡ v) ⊎ (precedes r v ≡ true)
    → precedes a v ≡ false
    → precedes a r ≡ false
not_before a v r (inl same) h = rw same h
not_before a v r (inr below) h = elim (Bool-cases (precedes a r)) [
  | inl e ↦ let both = precedes_trans a r v e below in absurd (ground arith)
  | inr e ↦ e
]

oldest_loop-IsChosen :
    (index : Index) (es : List Entry) (i : ℕ) (v : Candidate)
    → IsChosen index es i v (oldest_loop index es i v)
unfolding oldest_loop
oldest_loop-IsChosen index [] i v = record {
  from = inl refl;
  before = inl refl;
  least = λ j e at. cc;
}
oldest_loop-IsChosen index (e ∷ es) i v =
    let new = candidate index i e in
    elim (Bool-cases (precedes new v)) [
      | inl first ↦ rw first (
          let x = oldest_loop-IsChosen index es (i + 1) new in
          record {
            from = elim x.from [
              | inl same ↦ inr (0, e, refl, same ∙ ap (λ k. candidate index k e) (omega arith))
              | inr (j, f, at, same) ↦
                  inr (suc j, f, at, same ∙ ap (λ k. candidate index k f) (omega arith))
            ];
            before = inr (elim x.before [
              | inl same ↦ rw same first
              | inr below ↦ precedes_trans _ new v below first
            ]);
            least = least index e es i _ new x.before (precedes_self new) x.least;
          })
      | inr later ↦ rw later (
          let x = oldest_loop-IsChosen index es (i + 1) v in
          record {
            from = elim x.from [
              | inl same ↦ inl same
              | inr (j, f, at, same) ↦
                  inr (suc j, f, at, same ∙ ap (λ k. candidate index k f) (omega arith))
            ];
            before = x.before;
            least = least index e es i _ v x.before later x.least;
          })
    ]
  where
    least :
        (index : Index) (e : Entry) (es : List Entry) (i : ℕ) (r v : Candidate)
        → (r ≡ v) ⊎ (precedes r v ≡ true)
        → precedes (candidate index i e) v ≡ false
        → ((j : ℕ) (f : Entry)
            → get_elem? es j ≡ some f
            → precedes (candidate index (i + 1 + j) f) r ≡ false)
        → (j : ℕ) (f : Entry) → get_elem? (e ∷ es) j ≡ some f
        → precedes (candidate index (i + j) f) r ≡ false
    least index e es i r v below first others zero f at =
        let same = some-injective _ _ at in
        let place : i + 0 ≡ i = omega arith in
        rw (place, sym same) (not_before (candidate index i e) v r below first)
    least index e es i r v below first others (suc j) f at =
        let place : i + suc j ≡ i + 1 + j = omega arith in rw place (others j f at)

-- The entry at `i` is one that the loop puts no other in front of.
record IsFirst (index : Index) (es : List Entry) (i : ℕ) (e : Entry) : Type 0 where
  pub at : get_elem? es i ≡ some e
  pub least :
      (j : ℕ) (f : Entry)
      → get_elem? es j ≡ some f
      → precedes (candidate index j f) (candidate index i e) ≡ false

oldest_victim_index-IsFirst :
    (index : Index) (e : Entry) (es : List Entry)
    → (i : ℕ) × (victim : Entry) × (oldest_victim_index index (e ∷ es) ≡ some i)
      × IsFirst index (e ∷ es) i victim
unfolding oldest_victim_index
oldest_victim_index-IsFirst index e es =
    let v = candidate index 0 e in
    let x = oldest_loop-IsChosen index es 1 v in
    let r = oldest_loop index es 1 v in
    let all : (j : ℕ) (f : Entry)
        → get_elem? (e ∷ es) j ≡ some f
        → precedes (candidate index j f) r ≡ false =
      λ j f at. everyone r x.before x.least j f at in
    elim x.from [
      | inl same ↦ (
        0,
        e,
        ap (λ (c : Candidate). some c.idx) same,
        record { at = refl; least = λ j f at. rw same at (all j f at) },
      )
      | inr (j, f, at, same) ↦ (
        suc j,
        f,
        ap (λ (c : Candidate). some c.idx) same ∙ ap some (omega arith),
        record {
          at = at;
          least = λ k g found.
              let place : 1 + j ≡ suc j = omega arith in rw (same, place) at (all k g found);
        },
      )
    ]
  where
    everyone :
        (r : Candidate)
        → (r ≡ candidate index 0 e) ⊎ (precedes r (candidate index 0 e) ≡ true)
        → ((j : ℕ) (f : Entry)
            → get_elem? es j ≡ some f
            → precedes (candidate index (1 + j) f) r ≡ false)
        → (j : ℕ) (f : Entry) → get_elem? (e ∷ es) j ≡ some f
        → precedes (candidate index j f) r ≡ false
    everyone r before least zero f at =
        let same = some-injective _ _ at in
        let first = candidate index 0 e in
        rw (sym same) (not_before first first r before (precedes_self first))
    everyone r before least (suc j) f at =
        let place : 1 + j ≡ suc j = omega arith in rw place at (least j f at)

Smaller-less : {a b : Bytes} → Smaller a b → less a b ≡ true
unfolding less
Smaller-less (Smaller.ends d ds) = refl
Smaller-less (Smaller.differs c d cs ds h) = ground arith
Smaller-less (Smaller.later c cs ds h) = let ih = Smaller-less h in ground arith

-- What `evictionDependencyCount` counts.
counted : (index : Index) (uri : Bytes) → Counts index uri (eviction_dependency_count index uri)
unfolding eviction_dependency_count
counted index uri = from index.dep_graph refl
  where
    from :
        (g : Option (List (Bytes × List Bytes)))
        → index.dep_graph ≡ g
        → Counts index uri (dependency_count g index.resources uri)
    from none e = resource (lookup index.resources uri) refl
      where
        resource :
            (o : Option Resource)
            → lookup index.resources uri ≡ o
            → Counts index uri (dependencies_of o)
        resource none e' = Counts.no_resource e e'
        resource (some r) e' = Counts.in_resource r e e'
    from (some g) e = graph (lookup g uri) refl
      where
        graph : (o : Option (List Bytes)) → lookup g uri ≡ o → Counts index uri (count_of o)
        graph none e' = Counts.not_in_graph g e e'
        graph (some xs) e' = Counts.in_graph g xs e e'

Counts-count :
    (index : Index) (uri : Bytes) (n : ℕ)
    → Counts index uri n
    → eviction_dependency_count index uri ≡ n
unfolding eviction_dependency_count
Counts-count index uri _ (Counts.in_graph g xs e e') = rw (e, e') refl
Counts-count index uri _ (Counts.not_in_graph g e e') = rw (e, e') refl
Counts-count index uri _ (Counts.in_resource r e e') = rw (e, e') refl
Counts-count index uri _ (Counts.no_resource e e') = rw (e, e') refl

-- What is to go before another is put in front of it.
Earlier-precedes :
    (index : Index) (i j : ℕ) (e f : Entry)
    → Earlier (eviction_dependency_count index e.uri) e (eviction_dependency_count index f.uri) f
    → precedes (candidate index i e) (candidate index j f) ≡ true
unfolding precedes
Earlier-precedes index i j e f (inl fewer) = ground arith
Earlier-precedes index i j e f (inr (inl (same, older))) = ground arith
Earlier-precedes index i j e f (inr (inr (same, time, smaller))) =
    let below = Smaller-less smaller in ground arith

-- Among some entries there is always a victim, the oldest one.
pub oldest_victim_index_lem :
    (index : Index) (e : Entry) (es : List Entry)
    → (i : ℕ) × (victim : Entry) × (oldest_victim_index index (e ∷ es) ≡ some i)
      × IsOldest index (e ∷ es) i victim
oldest_victim_index_lem index e es =
    let (i, victim, found, first) = oldest_victim_index-IsFirst index e es in
    (
      i,
      victim,
      found,
      record {
        at = first.at;
        count = eviction_dependency_count index victim.uri;
        counted = counted index victim.uri;
        least = λ j m f at c earlier.
            let same = Counts-count index f.uri m c in
            let before = Earlier-precedes index j i f victim (rw same earlier) in
            let not_before = first.least j f at in ground arith;
      },
    )

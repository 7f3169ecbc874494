-- ===== src/Eviction/Memory.antt =====
-- `evictSourceLocked` of lsp/global_index.go keeps the account of the memory.
use lugo.Base.{
  ℕ, ◌+◌, ◌<◌, ◌≡◌, inl, inr, refl, ap, List, [], ◌∷◌, Option, none, some, Bytes, equal, ◌==◌,
  arith, Bool-cases,
}
use mathlib.Core.Option.{some-injective}
use lugo.Eviction.{Resource, Index, lookup, put, evict_resource, evict_source}

-- The bytes of all sources that are kept.
abbrev pub total : List (Bytes × Resource) → ℕ
total [] = 0
total ((_, r) ∷ m) = r.source_bytes + total m

total-put :
    (m : List (Bytes × Resource)) (uri : Bytes) (r s : Resource)
    → lookup m uri ≡ some r
    → total (put m uri s) + r.source_bytes ≡ total m + s.source_bytes
total-put [] uri r s e = cc
total-put ((k, a) ∷ m) uri r s e = elim (Bool-cases (equal k uri)) [
  | inl same ↦
      let here : a ≡ r = some-injective _ _ (rw same at e) in
      rw same (omega (arith, ap (λ (x : Resource). x.source_bytes) here))
  | inr other ↦ let ih = total-put m uri r s (rw other at e) in rw other (omega arith)
]

-- The account of the memory is right: it is the sum over all resources.
pub record IsAccounted (index : Index) : Type 0 where
  pub sum : index.memory_usage ≡ total index.resources
  pub fits : index.memory_usage < 18446744073709551616

evict_resource-IsAccounted :
    (index : Index) (uri : Bytes) (r : Resource)
    → IsAccounted index
    → lookup index.resources uri ≡ some r
    → IsAccounted (evict_resource index uri (some r))
      × ((evict_resource index uri (some r)).memory_usage + r.source_bytes ≡ index.memory_usage)
evict_resource-IsAccounted index uri r h e =
    let gone : Resource = record r { source = []; ast = none; source_bytes = 0 } in
    let moved = total-put index.resources uri r gone e in
    let sum = h.sum in
    let fits = h.fits in
    elim (Bool-cases (r.source_bytes == 0)) [
      | inl empty ↦ rw empty (h, ground arith)
      | inr full ↦ rw full (record { sum = omega arith; fits = omega arith }, omega arith)
    ]

-- Where the account of the memory is right, and below 2 ^ 64, `evictSourceLocked` keeps it right
-- and below 2 ^ 64: the memory does not wrap around but falls by just the bytes of the source that
-- was kept for the URI, if there is one.
pub evict_source-IsAccounted :
    (index : Index) (uri : Bytes)
    → IsAccounted index
    → IsAccounted (evict_source index uri)
      × ((r : Resource)
          → lookup index.resources uri ≡ some r
          → (evict_source index uri).memory_usage + r.source_bytes ≡ index.memory_usage)
unfolding evict_source
evict_source-IsAccounted index uri h = from (lookup index.resources uri) refl
  where
    from :
        (o : Option Resource)
        → lookup index.resources uri ≡ o
        → IsAccounted (evict_resource index uri o)
          × ((r : Resource)
              → o ≡ some r
              → (evict_resource index uri o).memory_usage + r.source_bytes ≡ index.memory_usage)
    from none e = (h, (λ r f. cc))
    from (some s) e =
        let (kept, less) = evict_resource-IsAccounted index uri s h e in
        (
          kept,
          (λ r f.
              omega (arith, less, ap (λ (x : Resource). x.source_bytes) (some-injective _ _ f))),
        )

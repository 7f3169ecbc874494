-- ===== src/Eviction/Register.antt =====
-- `registerEvictionLocked` of lsp/eviction.go keeps one entry for each URI.
use lugo.Base.{
  ℕ, ◌+◌, ◌≤◌, ◌≡◌, ◌≢◌, inl, inr, refl, false, List, [], ◌∷◌, Option, none, some, Bytes, equal,
  equal_iff, if◌then◌else◌, arith, Bool-cases,
}
use mathlib.Core.Path.{subst}
use lugo.Eviction.{Entry, Policy, touch, register_eviction}
use lugo.Eviction.Maps.{equal_self, equal_other}

-- The number of entries for a URI.
abbrev pub entries_for : List Entry → Bytes → ℕ
entries_for [] uri = 0
entries_for (e ∷ es) uri = if equal e.uri uri then 1 + entries_for es uri else entries_for es uri

-- The time of the first entry for a URI.
abbrev pub last_access : List Entry → Bytes → Option ℕ
last_access [] uri = none
last_access (e ∷ es) uri = if equal e.uri uri then some e.timestamp else last_access es uri

-- No URI has two entries.
abbrev pub IsDistinct : List Entry → Type 0
IsDistinct es = (uri : Bytes) → entries_for es uri ≤ 1

module _ (uri : Bytes) (timestamp : ℕ) where
  entries_for-touch :
      (es : List Entry) → entries_for es uri ≤ 1 → entries_for (touch es uri timestamp) uri ≡ 1
  entries_for-touch [] h = rw (equal_self uri) refl
  entries_for-touch (e ∷ es) h = elim (Bool-cases (equal e.uri uri)) [
    | inl same ↦ let h' = rw same at h in rw same (rw same (omega arith))
    | inr other ↦ rw other (rw other (entries_for-touch es (rw other at h)))
  ]

  last_access-touch : (es : List Entry) → last_access (touch es uri timestamp) uri ≡ some timestamp
  last_access-touch [] = rw (equal_self uri) refl
  last_access-touch (e ∷ es) = elim (Bool-cases (equal e.uri uri)) [
    | inl same ↦ rw same (rw same refl)
    | inr other ↦ rw other (rw other (last_access-touch es))
  ]

  module _ (k : Bytes) (ne : uri ≢ k) where
    entries_for_others :
        (es : List Entry) → entries_for (touch es uri timestamp) k ≡ entries_for es k
    entries_for_others [] = rw (equal_other uri uri k (equal_self uri) ne) refl
    entries_for_others (e ∷ es) = elim (Bool-cases (equal e.uri uri)) [
      | inl same ↦ rw same refl
      | inr other ↦ let ih = entries_for_others es in rw other (rw ih refl)
    ]

    last_access_others :
        (es : List Entry) → last_access (touch es uri timestamp) k ≡ last_access es k
    last_access_others [] = rw (equal_other uri uri k (equal_self uri) ne) refl
    last_access_others (e ∷ es) = elim (Bool-cases (equal e.uri uri)) [
      | inl same ↦ rw same (rw (equal_other e.uri uri k same ne) refl)
      | inr other ↦ let ih = last_access_others es in rw other (rw ih refl)
    ]

-- For a URI that is not empty `registerEvictionLocked` records the time as its last access and
-- keeps that of every other URI, and if no URI has two entries, none has two behind it.
pub register_eviction_lem :
    (p : Policy) (uri : Bytes) (timestamp : ℕ)
    → uri ≢ []
    → IsDistinct p.eviction_list
    → let es = (register_eviction p uri timestamp).eviction_list in
      IsDistinct es
      × (last_access es uri ≡ some timestamp)
      × ((k : Bytes) → uri ≢ k → last_access es k ≡ last_access p.eviction_list k)
unfolding register_eviction
register_eviction_lem p uri timestamp ne distinct =
    let some_uri : equal uri [] ≡ false = elim (Bool-cases (equal uri [])) [
      | inl e ↦ absurd (ne ((equal_iff uri []).0 e))
      | inr e ↦ e
    ] in
    rw some_uri (
      (λ k. elim (Bool-cases (equal uri k)) [
        | inl same ↦
            let here = (equal_iff uri k).0 same in
            let one = entries_for-touch uri timestamp p.eviction_list (distinct uri) in
            let few : entries_for (touch p.eviction_list uri timestamp) uri ≤ 1 =
              omega (arith, one) in
            subst (λ u. entries_for (touch p.eviction_list uri timestamp) u ≤ 1) here few
        | inr other ↦
            let apart : uri ≢ k = λ e. absurd (ground (arith, other, (equal_iff uri k).1 e)) in
            rw (entries_for_others uri timestamp k apart p.eviction_list) (distinct k)
      ]),
      last_access-touch uri timestamp p.eviction_list,
      (λ k apart. last_access_others uri timestamp k apart p.eviction_list),
    )

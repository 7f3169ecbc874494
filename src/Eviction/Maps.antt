-- ===== src/Eviction/Maps.antt =====
-- The maps and slices of lsp/eviction.go: what stays of them when a key or a place goes.
use lugo.Base.{
  ℕ, zero, suc, ◌<◌, ◌≡◌, ◌≢◌, inl, inr, refl, sym, ap, ◌∙◌, true, false, List, [], ◌∷◌, ◌++◌, none,
  some, Bytes, length, take, drop, equal, equal_iff, arith, Bool-cases,
}
use lugo.Eviction.{lookup, put, delete, remove_at}

pub equal_self : (cs : Bytes) → equal cs cs ≡ true
equal_self cs = (equal_iff cs cs).1 refl

-- An entry for `uri` is none for another URI.
pub equal_other : (a uri k : Bytes) → equal a uri ≡ true → uri ≢ k → equal a k ≡ false
equal_other a uri k e ne = elim (Bool-cases (equal a k)) [
  | inl same ↦ absurd (ne (sym ((equal_iff a uri).0 e) ∙ (equal_iff a k).0 same))
  | inr other ↦ other
]

module _ {A : Type 0} where
  pub lookup-delete : (m : List (Bytes × A)) (uri : Bytes) → lookup (delete m uri) uri ≡ none
  lookup-delete [] uri = refl
  lookup-delete ((k, a) ∷ m) uri = elim (Bool-cases (equal k uri)) [
    | inl same ↦ rw same (lookup-delete m uri)
    | inr other ↦ rw other (rw other (lookup-delete m uri))
  ]

  pub lookup-delete_other :
      (m : List (Bytes × A)) (uri k : Bytes) → uri ≢ k → lookup (delete m uri) k ≡ lookup m k
  lookup-delete_other [] uri k ne = refl
  lookup-delete_other ((h, a) ∷ m) uri k ne =
      let ih = lookup-delete_other m uri k ne in
      elim (Bool-cases (equal h uri)) [
        | inl same ↦ rw same (rw (equal_other h uri k same ne) ih)
        | inr other ↦ rw other (rw ih refl)
      ]

  pub lookup-put :
      (m : List (Bytes × A)) (uri : Bytes) (a b : A)
      → lookup m uri ≡ some a
      → lookup (put m uri b) uri ≡ some b
  lookup-put [] uri a b e = cc
  lookup-put ((k, c) ∷ m) uri a b e = elim (Bool-cases (equal k uri)) [
    | inl same ↦ rw same (rw same refl)
    | inr other ↦ rw other (rw other (lookup-put m uri a b (rw other at e)))
  ]

  pub lookup-put_other :
      (m : List (Bytes × A)) (uri k : Bytes) (b : A) → uri ≢ k → lookup (put m uri b) k ≡ lookup m k
  lookup-put_other [] uri k b ne = refl
  lookup-put_other ((h, c) ∷ m) uri k b ne =
      let ih = lookup-put_other m uri k b ne in
      elim (Bool-cases (equal h uri)) [
        | inl same ↦ rw same (rw (equal_other h uri k same ne) refl)
        | inr other ↦ rw other (rw ih refl)
      ]

  pub remove_at_lem :
      (i : ℕ) (xs : List A) → i < length xs → remove_at i xs ≡ take i xs ++ drop (suc i) xs
  remove_at_lem i [] h = absurd (omega arith)
  remove_at_lem zero (x ∷ xs) h = refl
  remove_at_lem (suc i) (x ∷ xs) h = ap (◌∷◌ x) (remove_at_lem i xs (omega arith))

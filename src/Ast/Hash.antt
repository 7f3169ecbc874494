-- ===== src/Ast/Hash.antt =====
-- `HashBytes` and `HashBytesConcat` of ast/ast.go: FNV-1a on 64 bits.
use lugo.Base.{ℕ, ◌*◌, ◌%◌, ◌≡◌, refl, ◌∙◌, sym, [], ◌∷◌, ◌++◌, Bytes, bit_xor}

abbrev pub offset_basis : ℕ
offset_basis = 14695981039346656037

-- `hash ^= uint64(c); hash *= 1099511628211`
unfoldable pub hash_step : ℕ → ℕ → ℕ
hash_step hash c = (bit_xor hash c * 1099511628211) % 18446744073709551616

unfoldable pub hash_loop : ℕ → Bytes → ℕ
unfolding hash_step
hash_loop hash [] = hash
hash_loop hash (c ∷ cs) = hash_loop (hash_step hash c) cs

unfoldable pub hash_bytes : Bytes → ℕ
unfolding hash_loop
hash_bytes b = hash_loop offset_basis b

unfoldable pub hash_bytes_concat : Bytes → Bytes → Bytes → ℕ
unfolding hash_loop
hash_bytes_concat a sep b = hash_loop (hash_loop (hash_loop offset_basis a) sep) b

hash_loop-append :
    (hash : ℕ) (a b : Bytes) → hash_loop hash (a ++ b) ≡ hash_loop (hash_loop hash a) b
unfolding hash_loop
hash_loop-append hash [] b = refl
hash_loop-append hash (c ∷ a) b = hash_loop-append (hash_step hash c) a b

-- `HashBytesConcat` of three slices is `HashBytes` of the slice that joins them.
pub hash_bytes_concat-eq-hash_bytes :
    (a sep b : Bytes) → hash_bytes_concat a sep b ≡ hash_bytes (a ++ (sep ++ b))
unfolding hash_bytes hash_bytes_concat
hash_bytes_concat-eq-hash_bytes a sep b =
    sym (
      hash_loop-append offset_basis a (sep ++ b)
      ∙ hash_loop-append (hash_loop offset_basis a) sep b)

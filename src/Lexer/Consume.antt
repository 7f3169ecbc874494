-- ===== src/Lexer/Consume.antt =====
-- The readers' loops of lexer/lexer.go consume what `Lexer.Spec` says.
use lugo.Base.{
  ℕ, zero, suc, ◌+◌, ◌≤◌, ◌≡◌, refl, [], ◌∷◌, none, some, Bytes, length, drop, arith, ◌==◌,
}
use lugo.Lexer.Chars.{has_prop_meaning, is_ident}
use lugo.Lexer.Readers.{
  is_space, space_loop, ident_loop, string_loop, backtick_loop, index_byte, equals_loop,
}
use lugo.Lexer.State.{state, Suffix, Suffix-tail, advance-cons}
use lugo.Lexer.Spec.{span_len, string_len, through_len, before_len}

pub space_loop_lem : (cs : Bytes) (i : ℕ) → space_loop cs i ≡ i + span_len is_space cs
unfolding space_loop span_len
space_loop_lem [] i = omega arith
space_loop_lem (c ∷ cs) i = ground (arith, space_loop_lem cs (i + 1))

pub ident_loop_lem : (cs : Bytes) (i : ℕ) → ident_loop cs i ≡ i + span_len is_ident cs
unfolding ident_loop span_len
ident_loop_lem [] i = omega arith
ident_loop_lem (c ∷ cs) i = rw ((has_prop_meaning c).2) (ground (arith, ident_loop_lem cs (i + 1)))

pub string_loop_lem :
    (quote : ℕ) (cs : Bytes) (i : ℕ) → string_loop quote cs i ≡ i + string_len quote cs
unfolding string_loop string_len
string_loop_lem quote [] i = omega arith
string_loop_lem quote (c ∷ []) i = ground arith
string_loop_lem quote (c ∷ d ∷ cs) i =
    ground (arith, string_loop_lem quote cs (i + 2), string_loop_lem quote (d ∷ cs) (i + 1))

pub backtick_loop_lem : (cs : Bytes) (i : ℕ) → backtick_loop cs i ≡ i + through_len b'`' cs
unfolding backtick_loop through_len
backtick_loop_lem [] i = omega arith
backtick_loop_lem (c ∷ cs) i = ground (arith, backtick_loop_lem cs (i + 1))

pub index_byte_lem :
    (b : ℕ) (cs : Bytes)
    → (let found : ℕ = elim (index_byte b cs) [ none ↦ length cs | some i ↦ i ] in found)
      ≡ before_len b cs
unfolding index_byte before_len span_len
index_byte_lem b [] = refl
index_byte_lem b (c ∷ cs) = ground (arith, index_byte_lem b cs)

pub equals_loop_lem :
    (f n : ℕ) (src : Bytes) (i : ℕ) (rest : Bytes)
    → Suffix src i rest
    → length rest ≤ f
    → let k = span_len (λ c. c == b'=') rest in
      equals_loop f n (state src i rest) ≡ (n + k, state src (i + k) (drop k rest))
unfolding equals_loop span_len
equals_loop_lem zero n src i [] s h = ground arith
equals_loop_lem zero n src i (c ∷ cs) s h = absurd (omega arith)
equals_loop_lem (suc f) n src i [] s h = ground arith
equals_loop_lem (suc f) n src i (c ∷ cs) s h =
    rw (advance-cons src i c cs s)
      (ground (arith, equals_loop_lem f (n + 1) src (i + 1) cs (Suffix-tail src i c cs s)))

-- ===== src/Fractal/BigInt.antt =====
-- math/big: Bytes and SetBytes of an integer that is not negative.
use mass_net_miner.Common.{
  ℕ, zero, suc, ◌+◌, ◌*◌, ◌/◌, ◌%◌, ◌≤◌, ◌≡◌, sym, ◌∙◌, ap, [], ◌∷◌, ◌==◌, arith, Bool-cases, inl,
  inr, true, false, ==_iff,
}
use mass_net_miner.Common.Bytes.{Bytes}
use mass_net_miner.Fractal.Base.{IsBytes}

-- The bytes of n, the highest first and without leading zeros, before `acc`; on fuel.
unfoldable pub be_onto : ℕ → ℕ → Bytes → Bytes
be_onto zero n acc = acc
be_onto (suc fuel) n acc = elim (n == 0) [
  | true ↦ acc
  | false ↦ be_onto fuel (n / 256) ((n % 256) ∷ acc)
]

unfoldable pub big_bytes : ℕ → Bytes
unfolding be_onto
big_bytes n = be_onto n n []

unfoldable pub set_from : ℕ → Bytes → ℕ
set_from n [] = n
set_from n (b ∷ bs) = set_from (n * 256 + b) bs

unfoldable pub set_bytes : Bytes → ℕ
unfolding set_from
set_bytes bs = set_from 0 bs

set_from-be_onto :
    (fuel n : ℕ) (acc : Bytes) → n ≤ fuel → set_from 0 (be_onto fuel n acc) ≡ set_from n acc
unfolding be_onto set_from
set_from-be_onto zero n acc h = let z : 0 ≡ n = omega arith in ap (λ k. set_from k acc) z
set_from-be_onto (suc fuel) n acc h = elim (Bool-cases (n == 0)) [
  | inl none_left ↦
      rw (be_onto, none_left) (ap (λ k. set_from k acc) (sym ((==_iff n 0).0 none_left)))
  | inr more ↦
      rw (be_onto, more)
        (set_from-be_onto fuel (n / 256) ((n % 256) ∷ acc) (ground arith)
          ∙ ap (λ k. set_from k acc) (omega arith))
]

be_onto-IsBytes : (fuel n : ℕ) (acc : Bytes) → IsBytes acc → IsBytes (be_onto fuel n acc)
unfolding be_onto
be_onto-IsBytes zero n acc h = h
be_onto-IsBytes (suc fuel) n acc h = elim (Bool-cases (n == 0)) [
  | inl none_left ↦ rw (be_onto, none_left) h
  | inr more ↦
      rw (be_onto, more) (be_onto-IsBytes fuel (n / 256) ((n % 256) ∷ acc) (omega arith, h))
]

pub set_bytes-big_bytes : (n : ℕ) → set_bytes (big_bytes n) ≡ n
unfolding set_bytes big_bytes
set_bytes-big_bytes n = set_from-be_onto n n [] (omega arith)

pub big_bytes-IsBytes : (n : ℕ) → IsBytes (big_bytes n)
unfolding big_bytes
big_bytes-IsBytes n = be_onto-IsBytes n n [] tt

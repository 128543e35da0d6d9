-- ===== src/MassDb/Plot/Proven.antt =====
-- The pairs of map B in terms of what Get of map A returns.
use mass_net_miner.Common.{
  ℕ, ◌+◌, ◌*◌, ◌/◌, ◌^◌, ◌≤◌, ◌<◌, ◌≡◌, ◌≢◌, refl, sym, ◌∙◌, ap, subst, inl, inr, false, ltb,
  ge→ltb, arith, Bool-cases, replicate,
}
use mass_net_miner.Common.Bytes.{Bytes}
use mass_net_miner.MassDb.Base.{PocUtil, Documented, Result, ok, err}
use mass_net_miner.MassDb.HashMap.{HashMapA, slot, get_a}
use mass_net_miner.MassDb.HashMap.Slots.{slot-lt}
use mass_net_miner.MassDb.HashMap.Records.{get_a_lem, rows-le}
use mass_net_miner.MassDb.PrePlot.Round.{IsMapA}
use mass_net_miner.MassDb.Plot.{bytes_equal_zero}
use mass_net_miner.MassDb.Plot.Scan.{size_of, entry, f_of}
use mass_net_miner.MassDb.Plot.Lookup.{
  Found, as_it_stands, turned, not_found, IsPair, forward, backward,
}

-- The record is not empty.
abbrev pub IsNotEmpty : Bytes → Type 0
IsNotEmpty x = bytes_equal_zero x ≡ false

module _ (u : PocUtil) (hm : HashMapA) where
  -- A pair for `key`: the records of map A of a value and of the flipped value, which F maps to the
  -- key; or zeros, and then F maps no two such records to it, of which neither is empty.
  pub data Proven (key : ℕ) : Bytes × Bytes → Type 0 where
    proven :
        (y : ℕ) (x xp : Bytes)
        → y < 2 ^ hm.base.bl
        → get_a u hm y ≡ ok x
        → get_a u hm (u.flip_value y hm.base.bl) ≡ ok xp
        → f_of u hm x xp ≡ key
        → Proven key (x, xp)
    none_proven :
        ((y : ℕ) (x xp : Bytes)
          → y < 2 ^ hm.base.bl
          → get_a u hm y ≡ ok x
          → get_a u hm (u.flip_value y hm.base.bl) ≡ ok xp
          → IsNotEmpty x
          → IsNotEmpty xp
          → f_of u hm x xp ≢ key)
        → Proven key (replicate (size_of u hm) 0, replicate (size_of u hm) 0)

value_of_ok : Bytes → Result Bytes → Bytes
value_of_ok other (ok x) = x
value_of_ok other (err e) = other

ok-injective : (x y : Bytes) → ok x ≡ ok y → x ≡ y
unfolding value_of_ok
ok-injective x y e = ap (value_of_ok x) e

module _ (u : PocUtil) (d : Documented u) (hm : HashMapA) (v : IsMapA hm)
    (same : hm.base.record_size ≡ size_of u hm)
    (reach : hm.base.offset + hm.base.volume * hm.base.record_size ≤ hm.base.file.size) where
  abbrev half : ℕ
  half = hm.base.volume / 2

  abbrev flipped : ℕ → ℕ
  flipped y = u.flip_value y hm.base.bl

  whole : 2 ^ hm.base.bl ≡ hm.half + hm.half
  whole = sym v.volume_is ∙ v.halves

  get_a-entry :
      (y : ℕ) → y < 2 ^ hm.base.bl → get_a u hm y ≡ ok (entry u hm (slot u hm.half hm.base.bl y))
  get_a-entry y small =
      let k = slot u hm.half hm.base.bl y in
      let inside : k < hm.base.volume =
        omega (arith, slot-lt u d hm.base.bl hm.half whole y small, v.volume_is) in
      get_a_lem u hm y v.record_positive
      ∙ rw
          (
            ge→ltb hm.base.file.size
                (hm.base.offset + k * hm.base.record_size + hm.base.record_size)
                (omega (arith, rows-le hm.base.record_size k hm.base.volume inside, reach)),
            same,
          )
          refl

  module _ (k : ℕ) (small : k < half) where
    low : k < 2 ^ hm.base.bl
    low = omega (arith, v.volume_is)

    flip_is : flipped k + k + 1 ≡ 2 ^ hm.base.bl
    flip_is = d.flip_value_lem k hm.base.bl low

    high : flipped k < 2 ^ hm.base.bl
    high = omega (arith, flip_is)

    flip_twice : flipped (flipped k) ≡ k
    flip_twice = omega (arith, flip_is, d.flip_value_lem (flipped k) hm.base.bl high)

    first_slot : slot u hm.half hm.base.bl k ≡ k * 2
    unfolding slot
    first_slot = ground (arith, v.halves)

    second_slot : slot u hm.half hm.base.bl (flipped k) ≡ k * 2 + 1
    unfolding slot
    second_slot = ground (arith, flip_is, flip_twice, whole, v.volume_is)

    get_first : get_a u hm k ≡ ok (entry u hm (k * 2))
    get_first = get_a-entry k low ∙ ap (λ c. ok (entry u hm c)) first_slot

    get_second : get_a u hm (flipped k) ≡ ok (entry u hm (k * 2 + 1))
    get_second = get_a-entry (flipped k) high ∙ ap (λ c. ok (entry u hm c)) second_slot

  not_both :
      (k key : ℕ) (x xp : Bytes)
      → k < half
      → x ≡ entry u hm (k * 2)
      → xp ≡ entry u hm (k * 2 + 1)
      → IsNotEmpty x
      → IsNotEmpty xp
      → ((y : ℕ) → y < half → IsPair u hm y → (forward u hm y ≢ key) × (backward u hm y ≢ key))
      → (f_of u hm x xp ≢ key) × (f_of u hm xp x ≢ key)
  not_both k key x xp small e f full full' all =
      rw (e, f) (all k small (rw (rw e at full, rw f at full') refl))

  pub Found-Proven :
      (key : ℕ) (pair : Bytes × Bytes) → Found u hm half key pair → Proven u hm key pair
  Found-Proven key _ (as_it_stands k small p e) =
      proven k (entry u hm (k * 2)) (entry u hm (k * 2 + 1)) (low k small) (get_first k small)
        (get_second k small) e
  Found-Proven key _ (turned k small p e) =
      proven (flipped k) (entry u hm (k * 2 + 1)) (entry u hm (k * 2)) (high k small)
        (get_second k small) (rw (flip_twice k small) (get_first k small)) e
  Found-Proven key _ (not_found all) = none_proven (λ y x xp small got_x got_xp full full' e.
      elim (Bool-cases (ltb y half)) [
        | inl lower ↦
            let inside : y < half = ground arith in
            (not_both y key x xp inside (ok-injective x _ (sym got_x ∙ get_first y inside))
                (ok-injective xp _ (sym got_xp ∙ get_second y inside)) full full' all).0
              e
        | inr upper ↦
            let flip_y = d.flip_value_lem y hm.base.bl small in
            let inside : flipped y < half = ground (arith, flip_y, v.halves, v.volume_is) in
            let back : flipped (flipped y) ≡ y =
              omega (arith, flip_y, flip_is (flipped y) inside) in
            (not_both (flipped y) key xp x inside
                (ok-injective xp _ (sym got_xp ∙ get_first (flipped y) inside))
                (ok-injective x _ (
                  sym got_x
                  ∙ subst (λ z. get_a u hm z ≡ ok (entry u hm (flipped y * 2 + 1))) back
                      (get_second (flipped y) inside)))
                full' full all).1
              e
      ])

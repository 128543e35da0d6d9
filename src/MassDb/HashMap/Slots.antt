-- ===== src/MassDb/HashMap/Slots.antt =====
-- Where HashMapA keeps its records: one slot for each value, the pair of a value and its flipped
-- value side by side.
use mass_net_miner.Common.{ℕ, ◌+◌, ◌-◌, ◌/◌, ◌%◌, ◌^◌, ◌<◌, ◌≡◌, arith, ◌==◌, if◌then◌else◌}
use mass_net_miner.MassDb.Base.{PocUtil, Documented}
use mass_net_miner.MassDb.HashMap.{slot}

-- The value whose record a slot holds.
abbrev pub value_of : ℕ → ℕ → ℕ
value_of volume k = if k % 2 == 0 then k / 2 else volume - 1 - k / 2

module _ (u : PocUtil) (d : Documented u) (bl half : ℕ) (whole : 2 ^ bl ≡ half + half) where
  pub slot-lt : (y : ℕ) → y < 2 ^ bl → slot u half bl y < 2 ^ bl
  unfolding slot
  slot-lt y h = ground (arith, d.flip_value_lem y bl)

  pub value_of-slot : (y : ℕ) → y < 2 ^ bl → value_of (2 ^ bl) (slot u half bl y) ≡ y
  unfolding slot
  value_of-slot y h = ground (arith, d.flip_value_lem y bl)

  pub slot-value_of : (k : ℕ) → k < 2 ^ bl → slot u half bl (value_of (2 ^ bl) k) ≡ k
  unfolding slot
  slot-value_of k h = ground (arith, d.flip_value_lem (value_of (2 ^ bl) k) bl)

  -- The slots of a value and of its flipped value are the two halves of one pair.
  pub slot-flip_value :
      (y : ℕ) → y < 2 ^ bl → slot u half bl (u.flip_value y bl) / 2 ≡ slot u half bl y / 2
  unfolding slot
  slot-flip_value y h =
      ground (arith, d.flip_value_lem y bl, d.flip_value_lem (u.flip_value y bl) bl)

  pub slot-injective :
      (y z : ℕ) → y < 2 ^ bl → z < 2 ^ bl → slot u half bl y ≡ slot u half bl z → y ≡ z
  slot-injective y z hy hz e = step (value_of-slot y hy) (value_of-slot z hz)
    where
      step :
          value_of (2 ^ bl) (slot u half bl y) ≡ y
          → value_of (2 ^ bl) (slot u half bl z) ≡ z
          → y ≡ z
      step = rw e (λ a b. cc)

-- ===== src/MassDb/HashMap/Records.antt =====
-- Records of one size side by side, and what Get returns after Set.
use mass_net_miner.Common.{
  ℕ, ◌+◌, ◌*◌, ◌^◌, ◌≤◌, ◌<◌, ◌≡◌, ◌≢◌, sym, ◌∙◌, ap, ◌⊎◌, inl, inr, max, arith, ltb, length, take,
  take-all, if◌then◌else◌, ge→ltb,
}
use mass_net_miner.Common.Bytes.{Bytes, Cells, read, patch, read-patch_apart, read-patch_eq}
use mass_net_miner.MassDb.Base.{ok, err, corrupted, File, write_at, PocUtil, Documented}
use mass_net_miner.MassDb.Files.{read_at-full, length-read_at, write_at-effect}
use mass_net_miner.MassDb.HashMap.{HashMapA, slot, get_a, set_a}
use mass_net_miner.MassDb.HashMap.Slots.{slot-injective}

-- The bytes of the record `k` of a medium whose records of `rs` bytes begin at `off`.
abbrev pub record_of : Cells → ℕ → ℕ → ℕ → Bytes
record_of m off rs k = read m (off + k * rs) rs

≢_cases : (k j : ℕ) → k ≢ j → (k < j) ⊎ (j < k)
≢_cases k j h = ground arith

pub rows-le : (rs k j : ℕ) → k < j → k * rs + rs ≤ j * rs
rows-le rs k j h = grind arith

-- Two records do not overlap.
pub records_apart :
    (off rs k j : ℕ)
    → k ≢ j
    → (off + k * rs + rs ≤ off + j * rs) ⊎ (off + j * rs + rs ≤ off + k * rs)
records_apart off rs k j h = elim (≢_cases k j h) [
  | inl a ↦ inl (omega (arith, rows-le rs k j a))
  | inr b ↦ inr (omega (arith, rows-le rs j k b))
]

module _ (m : Cells) (off rs : ℕ) (bs : Bytes) (size : length bs ≡ rs) where
  pub record_of-patch_self : (k : ℕ) → record_of (patch m (off + k * rs) bs) off rs k ≡ bs
  record_of-patch_self k = read-patch_eq m (off + k * rs) bs rs size

  pub record_of-patch_ne :
      (k j : ℕ) → k ≢ j → record_of (patch m (off + k * rs) bs) off rs j ≡ record_of m off rs j
  record_of-patch_ne k j h =
      read-patch_apart m (off + k * rs) bs (off + j * rs) rs (apart (records_apart off rs k j h))
    where
      apart :
          (off + k * rs + rs ≤ off + j * rs) ⊎ (off + j * rs + rs ≤ off + k * rs)
          → (off + j * rs + rs ≤ off + k * rs) ⊎ (off + k * rs + length bs ≤ off + j * rs)
      apart (inl l) = inr (omega arith)
      apart (inr r) = inl r

-- Where the record of `key` begins in the file.
abbrev target_a : PocUtil → HashMapA → ℕ → ℕ
target_a u hm key = hm.base.offset + slot u hm.half hm.base.bl key * hm.base.record_size

-- Get returns the record when the file reaches over it, and ErrDBCorrupted otherwise.
pub get_a_lem :
    (u : PocUtil) (hm : HashMapA) (key : ℕ)
    → 0 < hm.base.record_size
    → get_a u hm key ≡ (
        if ltb hm.base.file.size (target_a u hm key + hm.base.record_size)
        then err corrupted
        else ok (read hm.base.file.cells (target_a u hm key) hm.base.record_size))
unfolding get_a
get_a_lem u hm key pos = ground (
  arith,
  length-read_at hm.base.file (target_a u hm key) hm.base.record_size,
  read_at-full hm.base.file (target_a u hm key) hm.base.record_size,
)

module _ (u : PocUtil) (d : Documented u) (hm hm' : HashMapA) (y : ℕ) (value : Bytes)
    (whole : 2 ^ hm.base.bl ≡ hm.half + hm.half) (inside : y < 2 ^ hm.base.bl)
    (sized : 0 < hm.base.record_size) (fits : length value ≡ hm.base.record_size)
    (stored : set_a u hm y value ≡ ok hm') where
  abbrev written : File
  written = write_at hm.base.file (target_a u hm y) value

  set_a-is : hm' ≡ record { base = record (hm.base) { file = written }; half = hm.half }
  unfolding set_a
  set_a-is =
      let whole_value : take hm.base.record_size value ≡ value =
        take-all hm.base.record_size value (omega arith) in
      ground (arith, whole_value)

  -- Get of the value that was set returns its record, and Get of any other value returns what it
  -- returned before.
  pub get_a-set_a :
      (get_a u hm' y ≡ ok value)
      × ((z : ℕ) (other : Bytes)
          → z < 2 ^ hm.base.bl
          → z ≢ y
          → get_a u hm z ≡ ok other
          → get_a u hm' z ≡ ok other)
  get_a-set_a = rw set_a-is (same, others)
    where
      after : HashMapA
      after = record { base = record (hm.base) { file = written }; half = hm.half }

      effect :
          (written.cells ≡ patch hm.base.file.cells (target_a u hm y) value)
          × (written.size ≡ max hm.base.file.size (target_a u hm y + length value))
      effect = write_at-effect hm.base.file (target_a u hm y) value (omega arith)

      same : get_a u after y ≡ ok value
      same =
          get_a_lem u after y sized
          ∙ rw
              (ge→ltb written.size (target_a u hm y + hm.base.record_size)
                (omega (arith, effect.1)))
              (ap ok (
                rw effect.0 (
                  record_of-patch_self hm.base.file.cells hm.base.offset hm.base.record_size value
                    fits (slot u hm.half hm.base.bl y))))

      kept :
          (z : ℕ)
          → z < 2 ^ hm.base.bl
          → z ≢ y
          → read written.cells (target_a u hm z) hm.base.record_size
            ≡ read hm.base.file.cells (target_a u hm z) hm.base.record_size
      kept z hz ne = rw effect.0 (
          record_of-patch_ne hm.base.file.cells hm.base.offset hm.base.record_size value fits
            (slot u hm.half hm.base.bl y) (slot u hm.half hm.base.bl z)
            (λ same_slot.
              ne (sym (slot-injective u d hm.base.bl hm.half whole y z inside hz same_slot))))

      others :
          (z : ℕ) (other : Bytes)
          → z < 2 ^ hm.base.bl
          → z ≢ y
          → get_a u hm z ≡ ok other
          → get_a u after z ≡ ok other
      others z other hz ne e =
          ground (arith, get_a_lem u after z sized, get_a_lem u hm z sized, kept z hz ne, effect)

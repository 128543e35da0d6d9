-- ===== src/MassDb/PrePlot/Lookup.antt =====
-- HashMapA after prePlotWork, seen through Get: the inverse of P.
use mass_net_miner.Common.{
  ℕ, zero, suc, ◌+◌, ◌*◌, ◌/◌, ◌%◌, ◌^◌, ◌≤◌, ◌<◌, ◌≡◌, refl, sym, ◌∙◌, ap, subst, Option, none,
  some, arith, ge→ltb,
}
use mass_net_miner.MassDb.Base.{PocUtil, Documented, ok}
use mass_net_miner.MassDb.HashMap.{HashMapA, slot, get_a, read_checkpoint}
use mass_net_miner.MassDb.HashMap.Slots.{slot-lt, slot-injective}
use mass_net_miner.MassDb.HashMap.Records.{get_a_lem, rows-le}
use mass_net_miner.MassDb.PrePlot.{Env, PlotEnd, pre_plot_work}
use mass_net_miner.MassDb.PrePlot.Scan.{last_value, content, record_index}
use mass_net_miner.MassDb.PrePlot.Round.{IsMapA, IsFilled}
use mass_net_miner.MassDb.PrePlot.Work.{IsLeft, IsSameMap}
use mass_net_miner.MassDb.PrePlot.Total.{pre_plot_work-IsLeft}

-- The last value does not depend on an injective renaming.
last_value-injective :
    (f g : ℕ → ℕ) (bound key : ℕ)
    → ((y : ℕ) → y < bound → g y ≡ g key → y ≡ key)
    → ((x : ℕ) → f x < bound)
    → (n : ℕ) → last_value (λ x. g (f x)) n (g key) ≡ last_value f n key
unfolding last_value
last_value-injective f g bound key inj small zero = refl
last_value-injective f g bound key inj small (suc n) =
    ground (arith, inj (f n) (small n), last_value-injective f g bound key inj small n)

-- The value P maps to `key`, as the last of all values.
abbrev pub preimage : PocUtil → HashMapA → ℕ → Option ℕ
preimage u hm key = last_value (λ x. u.p x hm.base.bl hm.base.pk_hash) hm.base.volume key

module _ (u : PocUtil) (d : Documented u) (hm : HashMapA) (v : IsMapA hm) where
  filled_get :
      (key : ℕ)
      → key < 2 ^ hm.base.bl
      → IsFilled u hm hm.base.file hm.base.volume
      → get_a u hm key ≡ ok (content hm.base.record_size (preimage u hm key))
  filled_get key small fill =
      get_a_lem u hm key v.record_positive
      ∙ rw (ge→ltb hm.base.file.size (hm.base.offset + k * rs + rs) reaches)
          (ap ok (fill.records k inside ∙ ap (content rs) (rw at_half renamed)))
    where
      rs : ℕ
      rs = hm.base.record_size

      h : ℕ
      h = hm.base.volume / 2

      whole : 2 ^ hm.base.bl ≡ hm.half + hm.half
      whole = sym v.volume_is ∙ v.halves

      half_is : hm.half ≡ h
      half_is = omega (arith, v.halves)

      k : ℕ
      k = slot u hm.half hm.base.bl key

      at_half : k ≡ slot u h hm.base.bl key
      at_half = ap (λ (n : ℕ). slot u n hm.base.bl key) half_is

      inside : k < hm.base.volume
      inside = omega (arith, slot-lt u d hm.base.bl hm.half whole key small, v.volume_is)

      reaches : hm.base.offset + k * rs + rs ≤ hm.base.file.size
      reaches = omega (arith, rows-le rs k hm.base.volume inside, fill.reach)

      renamed :
          last_value (record_index u hm) hm.base.volume (slot u h hm.base.bl key)
          ≡ preimage u hm key
      renamed =
          last_value-injective (λ x. u.p x hm.base.bl hm.base.pk_hash) (slot u h hm.base.bl)
            (2 ^ hm.base.bl) key
            (λ y b e.
              slot-injective u d hm.base.bl h (omega (arith, whole, half_is)) y key b small e)
            (λ x. d.p-lt x hm.base.bl hm.base.pk_hash) hm.base.volume

-- When prePlotWork, begun at an even checkpoint with the records below it filled, ends without an
-- error, Get of any value of the bit length returns the last of the values that P maps to it, as
-- little-endian bytes, or zeros when P maps no value to it.
pub get_a-pre_plot_work :
    (u : PocUtil)
    → Documented u
    → (env : Env) (fuel : ℕ) (hm : HashMapA) (e : PlotEnd) → IsMapA hm
    → read_checkpoint hm.base ≤ hm.base.volume
    → read_checkpoint hm.base % 2 ≡ 0
    → IsFilled u hm hm.base.file (read_checkpoint hm.base)
    → pre_plot_work u env fuel hm ≡ some e
    → e.error ≡ none
    → (key : ℕ) → key < 2 ^ hm.base.bl
    → get_a u e.hm key ≡ ok (content hm.base.record_size (preimage u hm key))
get_a-pre_plot_work u d env fuel hm e v below even begun h fine key small =
    let l : IsLeft u hm e = pre_plot_work-IsLeft u env hm v below even begun fuel e h in
    let s : IsSameMap hm e.hm = l.same_map in
    filled_get u d e.hm l.still_map key (rw s.same_bl small)
      (subst (IsFilled u e.hm e.hm.base.file) (l.finished fine) l.filled)
    ∙ rw (s.same_record_size, s.same_bl, s.same_volume, s.same_pk_hash)

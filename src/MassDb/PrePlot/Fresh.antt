-- ===== src/MassDb/PrePlot/Fresh.antt =====
-- From a new file to the plotted HashMapA.
use native.Mathlib.Nat.{pow-suc, pow-le-pow_right, mod-eq_of_lt}
use mass_net_miner.Common.{ℕ, zero, suc, ◌+◌, ◌/◌, ◌%◌, ◌^◌, ◌≤◌, ◌<◌, ◌≡◌, refl, none, some, arith}
use mass_net_miner.Common.Bytes.{Bytes}
use mass_net_miner.MassDb.Base.{PocUtil, Documented, IsKey, ok, ◌>>=◌}
use mass_net_miner.MassDb.HashMap.{
  HashMapA, hash_map_a, map_a, create_map_file, load, get_a, read_checkpoint,
}
use mass_net_miner.MassDb.HashMap.Header.{
  fresh_map, load-create_map_file, read_checkpoint-fresh_map, created-size,
}
use mass_net_miner.MassDb.PrePlot.{Env, PlotEnd, pre_plot_work}
use mass_net_miner.MassDb.PrePlot.Scan.{content}
use mass_net_miner.MassDb.PrePlot.Round.{IsMapA, IsFilled, IsCalm}
use mass_net_miner.MassDb.PrePlot.Total.{pre_plot_work-ends}
use mass_net_miner.MassDb.PrePlot.Lookup.{preimage, get_a-pre_plot_work}

-- A new map as it is opened.
abbrev pub fresh_a : PocUtil → ℕ → Bytes → HashMapA
fresh_a u bl pk = record { base = fresh_map u hash_map_a bl pk 1; half = 2 ^ bl % 2 ^ 64 / 2 }

even_power : (bl : ℕ) → 0 < bl → 2 ^ bl ≡ 2 ^ bl / 2 + 2 ^ bl / 2
even_power zero h = absurd (omega arith)
even_power (suc n) h = rw (pow-suc 2 n) (omega arith)

pub small_power : (bl : ℕ) → bl ≤ 40 → 2 ^ bl ≤ 2 ^ 40
small_power bl h = pow-le-pow_right (omega arith) h

module _ (u : PocUtil) (d : Documented u) (bl : ℕ) (pk : Bytes) (key : IsKey u pk) (pos : 0 < bl)
    (small : bl ≤ 40) where
  pub volume_exact : 2 ^ bl % 2 ^ 64 ≡ 2 ^ bl
  volume_exact = mod-eq_of_lt (omega (arith, small_power bl small))

  pub fresh_a-IsMapA : IsMapA (fresh_a u bl pk)
  fresh_a-IsMapA = record {
    offset_is = refl;
    volume_is = volume_exact;
    halves = rw volume_exact (even_power bl pos);
    volume_small = rw volume_exact (omega (arith, small_power bl small));
    record_positive = omega (arith, d.bytes_of_bits_lem bl);
    record_small = omega (arith, d.bytes_of_bits_lem bl);
  }

  pub fresh_a-IsFilled : IsFilled u (fresh_a u bl pk) (fresh_a u bl pk).base.file 0
  fresh_a-IsFilled = record {
    records = λ j h. absurd (omega arith);
    reach = omega (arith, created-size u d hash_map_a bl pk key);
  }

  -- 2 ^ bl is at least 50.
  pub volume-large : 6 ≤ bl → 50 ≤ (fresh_a u bl pk).base.volume
  volume-large many =
      let large : 2 ^ 6 ≤ 2 ^ bl = pow-le-pow_right (omega arith) many in
      rw volume_exact (omega (arith, large))

  -- A map created for a bit length from 6 to 40 and a key opens as a map on which prePlotWork, on plenty
  -- of memory and undisturbed, ends without an error within 2 ^ bl + 1 rounds; from then on Get of any
  -- value of the bit length returns the last of the values that P maps to it, as little-endian bytes,
  -- or zeros when there is none.
  pub pre_plot_new_map :
      (env : Env)
      → 6 ≤ bl
      → IsCalm env
      → (hm : HashMapA) × (e : PlotEnd) × ((create_map_file u none hash_map_a bl pk >>= λ f.
            load u (some f))
          ≡ ok (map_a hm))
        × (pre_plot_work u env (2 ^ bl + 1) hm ≡ some e)
        × (e.error ≡ none)
        × ((y : ℕ)
            → y < 2 ^ bl
            → get_a u e.hm y ≡ ok (content (u.bytes_of_bits bl) (preimage u hm y)))
  pre_plot_new_map env many calm =
      let hm = fresh_a u bl pk in
      let v = fresh_a-IsMapA in
      let zero_checkpoint = read_checkpoint-fresh_map u d hash_map_a bl pk key 1 in
      let even : read_checkpoint hm.base % 2 ≡ 0 = rw zero_checkpoint refl in
      let below : read_checkpoint hm.base ≤ hm.base.volume = rw zero_checkpoint (omega arith) in
      let begun : IsFilled u hm hm.base.file (read_checkpoint hm.base) =
        rw zero_checkpoint fresh_a-IsFilled in
      let (e, runs, fine) =
        pre_plot_work-ends u env hm v below even begun (2 ^ bl + 1) calm (volume-large many)
          (rw volume_exact (omega arith)) in
      (
        hm,
        e,
        (load-create_map_file u d bl pk key (omega arith)).0,
        runs,
        fine,
        λ y small_y.
            get_a-pre_plot_work u d env (2 ^ bl + 1) hm e v below even begun runs fine y small_y,
      )

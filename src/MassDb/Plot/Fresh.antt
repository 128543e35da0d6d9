-- ===== src/MassDb/Plot/Fresh.antt =====
-- From two new files to the plotted maps of a space.
use native.Mathlib.Nat.{one-le-pow, pow-le-pow_right}
use mass_net_miner.Common.{
  ℕ, ◌+◌, ◌*◌, ◌/◌, ◌%◌, ◌^◌, ◌≤◌, ◌<◌, ◌≡◌, refl, sym, ◌∙◌, ap, subst, ◌⊎◌, inl, inr, none, some,
  arith, Bool-cases, ltb,
}
use mass_net_miner.Common.Bytes.{Bytes}
use mass_net_miner.MassDb.Base.{PocUtil, Documented, IsKey, ok, ◌>>=◌}
use mass_net_miner.MassDb.HashMap.{
  HashMapA, HashMapB, hash_map_a, hash_map_b, map_a, map_b, create_map_file, load, get_b,
  read_checkpoint,
}
use mass_net_miner.MassDb.HashMap.Header.{
  fresh_map, load-create_map_file, read_checkpoint-fresh_map, created-size,
}
use mass_net_miner.MassDb.PrePlot.{Env, PlotEnd, pre_plot_work}
use mass_net_miner.MassDb.PrePlot.Round.{IsMapA, IsFilled, IsCalm}
use mass_net_miner.MassDb.PrePlot.Total.{pre_plot_work-ends, pre_plot_work-IsLeft}
use mass_net_miner.MassDb.PrePlot.Fresh.{
  fresh_a, fresh_a-IsMapA, fresh_a-IsFilled, volume_exact, volume-large, small_power,
}
use mass_net_miner.MassDb.Plot.{PlotWorkEnd, plot_work, min_map_a_buf_mem}
use mass_net_miner.MassDb.Plot.Reads.{Pairs}
use mass_net_miner.MassDb.Plot.Round.{IsMapB, IsPlotted}
use mass_net_miner.MassDb.Plot.Lookup.{Found, get_b-plot_work}
use mass_net_miner.MassDb.Plot.Proven.{Proven, Found-Proven}

-- A new map B as it is opened.
abbrev pub fresh_b : PocUtil → ℕ → Bytes → HashMapB
fresh_b u bl pk = record { base = fresh_map u hash_map_b bl pk 2 }

-- Up to bit length 32 the pairs of map A fill the buffer without a rest, or map A fits into it.
whole-Pairs :
    (bl size : ℕ)
    → 0 < bl
    → bl ≤ 32
    → size ≡ (bl + 7) / 8
    → Pairs (size * 2) min_map_a_buf_mem ⊎ (2 ^ bl / 2 * (size * 2) ≤ min_map_a_buf_mem)
whole-Pairs bl size pos small e = elim (Bool-cases (ltb bl 9)) [
  | inl one ↦ let is : size ≡ 1 = ground (arith, e) in rw is (inl (33554432, refl))
  | inr more ↦ elim (Bool-cases (ltb bl 17)) [
    | inl two ↦ let is : size ≡ 2 = ground (arith, e) in rw is (inl (16777216, refl))
    | inr many ↦ elim (Bool-cases (ltb bl 25)) [
      | inl three ↦
          let is : size ≡ 3 = ground (arith, e) in
          let short : bl ≤ 24 = ground arith in
          let few : 2 ^ bl ≤ 2 ^ 24 = pow-le-pow_right (omega arith) short in
          rw is (inr (omega (arith, few)))
      | inr four ↦ let is : size ≡ 4 = ground (arith, e) in rw is (inl (8388608, refl))
    ]
  ]
]

module _ (u : PocUtil) (d : Documented u) (bl : ℕ) (pk : Bytes) (key : IsKey u pk) (pos : 0 < bl)
    (small : bl ≤ 32) where
  fresh_b-IsMapB :
      (hm : HashMapA)
      → hm.base.bl ≡ bl
      → hm.base.record_size ≡ u.bytes_of_bits bl
      → hm.base.volume ≡ 2 ^ bl
      → hm.base.volume ≡ hm.half + hm.half
      → hm.base.offset + hm.base.volume * hm.base.record_size ≤ hm.base.file.size
      → IsMapB u hm (fresh_b u bl pk)
  fresh_b-IsMapB hm same_bl same_size same_volume halves reach = record {
    offset_is = refl;
    volume_small =
        rw (volume_exact u d bl pk key pos (omega arith))
          (omega (arith, small_power bl (omega arith)));
    record_positive = rw same_bl (omega (arith, d.bytes_of_bits_lem bl));
    record_small = rw same_bl (omega (arith, d.bytes_of_bits_lem bl));
    same_size = rw same_bl refl;
    reach_a =
        let exact = volume_exact u d bl pk key pos (omega arith) in
        let row : 2 ^ bl / 2 * (u.bytes_of_bits bl * 2) ≡ 2 ^ bl / 2 * 2 * u.bytes_of_bits bl =
          grind arith in
        let even : 2 ^ bl / 2 * 2 ≡ hm.base.volume = omega (arith, same_volume, halves) in
        let total : 2 ^ bl / 2 * 2 * u.bytes_of_bits bl ≡ hm.base.volume * hm.base.record_size =
          rw (even, same_size) refl in
        rw (exact, same_bl) (omega (arith, row, total, reach));
    whole_reads =
        rw (volume_exact u d bl pk key pos (omega arith), same_bl)
          (in_buffer (whole-Pairs bl (u.bytes_of_bits bl) pos small (d.bytes_of_bits_lem bl)));
  }
    where
      in_buffer :
          Pairs (u.bytes_of_bits bl * 2) min_map_a_buf_mem
            ⊎ (2 ^ bl / 2 * (u.bytes_of_bits bl * 2) ≤ min_map_a_buf_mem)
          → Pairs (u.bytes_of_bits bl * 2) min_map_a_buf_mem
            ⊎ (hm.base.offset + 2 ^ bl / 2 * (u.bytes_of_bits bl * 2)
                ≤ hm.base.offset + min_map_a_buf_mem)
      in_buffer (inl pairs) = inl pairs
      in_buffer (inr fits) = inr (omega arith)

  -- The map A that prePlotWork leaves of a new map.
  record IsPrePlotted (hm : HashMapA) : Type 0 where
    same_bl : hm.base.bl ≡ bl
    same_size : hm.base.record_size ≡ u.bytes_of_bits bl
    same_volume : hm.base.volume ≡ 2 ^ bl
    still_map : IsMapA hm
    all : IsFilled u hm hm.base.file hm.base.volume

  new_map_a :
      (env : Env)
      → 7 ≤ bl
      → IsCalm env
      → (a : PlotEnd) × (pre_plot_work u env (2 ^ bl + 1) (fresh_a u bl pk) ≡ some a)
        × (a.error ≡ none)
        × IsPrePlotted a.hm
  new_map_a env many calm =
      let hm = fresh_a u bl pk in
      let v = fresh_a-IsMapA u d bl pk key pos (omega arith) in
      let exact = volume_exact u d bl pk key pos (omega arith) in
      let zero_checkpoint = read_checkpoint-fresh_map u d hash_map_a bl pk key 1 in
      let even : read_checkpoint hm.base % 2 ≡ 0 = rw zero_checkpoint refl in
      let below : read_checkpoint hm.base ≤ hm.base.volume = rw zero_checkpoint (omega arith) in
      let begun : IsFilled u hm hm.base.file (read_checkpoint hm.base) =
        rw zero_checkpoint (fresh_a-IsFilled u d bl pk key pos (omega arith)) in
      let (a, runs, fine) =
        pre_plot_work-ends u env hm v below even begun (2 ^ bl + 1) calm
          (volume-large u d bl pk key pos (omega arith) (omega arith)) (rw exact (omega arith)) in
      let left = pre_plot_work-IsLeft u env hm v below even begun (2 ^ bl + 1) a runs in
      (
        a,
        runs,
        fine,
        record {
          same_bl = left.same_map.same_bl;
          same_size = left.same_map.same_record_size;
          same_volume = left.same_map.same_volume ∙ exact;
          still_map = left.still_map;
          all = subst (IsFilled u a.hm a.hm.base.file) (left.finished fine) left.filled;
        },
      )

  -- plotWork of a new map B beside it.
  new_map_b :
      (env : Env) (hm : HashMapA)
      → 7 ≤ bl
      → IsCalm env
      → IsPrePlotted hm
      → (b : PlotWorkEnd) × (plot_work u env (2 ^ bl) hm (fresh_b u bl pk) ≡ some b)
        × (b.error ≡ none)
        × ((z : ℕ)
            → z < 2 ^ bl
            → (pair : Bytes × Bytes) × (get_b b.hm z ≡ ok pair) × Proven u hm z pair)
  new_map_b env hm many calm p =
      let exact = volume_exact u d bl pk key pos (omega arith) in
      let zero_b = read_checkpoint-fresh_map u d hash_map_b bl pk key 2 in
      let hm_b = fresh_b u bl pk in
      let large : 2 ^ 7 ≤ 2 ^ bl = pow-le-pow_right (omega arith) many in
      let begun : IsPlotted u hm hm_b hm_b.base.file (read_checkpoint hm_b.base * 4) =
        rw zero_b (record {
          halves = λ j h. absurd (omega arith);
          reach = omega (arith, created-size u d hash_map_b bl pk key);
        }) in
      let v =
        fresh_b-IsMapB hm p.same_bl p.same_size p.same_volume p.still_map.halves p.all.reach in
      let (b, runs, fine, gets) =
        get_b-plot_work u env hm hm_b (2 ^ bl) v (rw zero_b (omega arith)) begun
          (rw exact (omega (arith, large)))
          (rw exact (omega (arith, one-le-pow bl 2 (omega arith)))) calm in
      (
        b,
        runs,
        fine,
        λ z h.
            let (pair, got, found) =
              gets z (rw exact (omega (arith, p.same_volume, p.still_map.halves, h))) in
            (
              pair,
              got,
              Found-Proven u d hm p.still_map (p.same_size ∙ sym (ap u.bytes_of_bits p.same_bl))
                  p.all.reach z pair
                  (subst (λ n. Found u hm (n / 2) z pair) (exact ∙ sym p.same_volume) found),
            ),
      )

  -- Two maps created for a key and a bit length from 7 to 32 open as a map A and a map B. Undisturbed,
  -- prePlotWork of map A ends without an error within 2 ^ bl + 1 rounds, and plotWork of map B on what it
  -- leaves within 2 ^ bl rounds. Get of map B then answers every value of the bit length: with the
  -- records that Get of map A returns for a value and for its flipped value, and F of them is the value
  -- asked for; or with zeros, and then F maps no two such records to it, of which neither is empty.
  pub plot_new_maps :
      (env env' : Env)
      → 7 ≤ bl
      → IsCalm env
      → IsCalm env'
      → (hm_a : HashMapA) × (hm_b : HashMapB) × (a : PlotEnd) × (b : PlotWorkEnd)
        × ((create_map_file u none hash_map_a bl pk >>= λ f. load u (some f)) ≡ ok (map_a hm_a))
        × ((create_map_file u none hash_map_b bl pk >>= λ f. load u (some f)) ≡ ok (map_b hm_b))
        × (pre_plot_work u env (2 ^ bl + 1) hm_a ≡ some a)
        × (a.error ≡ none)
        × (plot_work u env' (2 ^ bl) a.hm hm_b ≡ some b)
        × (b.error ≡ none)
        × ((z : ℕ)
            → z < 2 ^ bl
            → (pair : Bytes × Bytes) × (get_b b.hm z ≡ ok pair) × Proven u a.hm z pair)
  plot_new_maps env env' many calm calm' =
      let (a, runs, fine, p) = new_map_a env many calm in
      let (b, runs_b, fine_b, gets) = new_map_b env' a.hm many calm' p in
      let (loads_a, loads_b) = load-create_map_file u d bl pk key (omega arith) in
      (fresh_a u bl pk, fresh_b u bl pk, a, b, loads_a, loads_b, runs, fine, runs_b, fine_b, gets)

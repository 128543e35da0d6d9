-- ===== src/MassDb/Plot/Work.antt =====
-- What a round of plotWork leads to, and what the checkpoint of map B keeps.
use mass_net_miner.Common.{
  ℕ, suc, ◌+◌, ◌-◌, ◌*◌, ◌/◌, ◌^◌, ◌≤◌, ◌<◌, ◌≡◌, refl, ◌∙◌, ap, inr, true, false, none, some,
  arith, ltb,
}
use native.Mathlib.Nat.{mul-le-mul_right, le-div_iff_mul-le, le_trans, le_of_mul-le-mul_right}
use mass_net_miner.Common.Bytes.{read-ext, le_bytes, from_le, length-le_bytes}
use mass_net_miner.MassDb.Base.{File, PocUtil}
use mass_net_miner.MassDb.Files.{write_at-outside, write_at-size}
use mass_net_miner.MassDb.HashMap.{HashMapA, HashMapB, read_checkpoint, update_checkpoint}
use mass_net_miner.MassDb.PrePlot.{Env, store_checkpoint}
use mass_net_miner.MassDb.PrePlot.Memory.{blank, IsShare}
use mass_net_miner.MassDb.PrePlot.Work.{read_checkpoint-store}
use mass_net_miner.MassDb.Plot.{
  PlotWorkEnd, pairs_ended, pairs_go_on, with_file_b, store_checkpoint_b, pair_window_size,
  pair_round, plot_loop,
}
use mass_net_miner.MassDb.Plot.Scan.{size_of}
use mass_net_miner.MassDb.Plot.Round.{
  IsMapB, IsPlotted, SameHeaderB, required_pairs, pair_window, pair_window_size-le,
}

pub read_checkpoint-store_b :
    (hm : HashMapB) (c : ℕ) → c < 256 ^ 8 → read_checkpoint (store_checkpoint_b hm c).base ≡ c
unfolding store_checkpoint_b store_checkpoint
read_checkpoint-store_b hm c small =
    read_checkpoint-store (record { base = hm.base; half = 0 }) c small

pub volume-store_b :
    (hm : HashMapB) (c : ℕ) → (store_checkpoint_b hm c).base.volume ≡ hm.base.volume
unfolding store_checkpoint_b update_checkpoint
volume-store_b hm c = refl

-- The two maps differ in the file and the checkpoint at most.
pub record IsSameMapB (hm hm' : HashMapB) : Type 0 where
  pub same_volume : hm'.base.volume ≡ hm.base.volume
  pub same_offset : hm'.base.offset ≡ hm.base.offset
  pub same_record_size : hm'.base.record_size ≡ hm.base.record_size

module _ (u : PocUtil) (hm_a : HashMapA) (hm : HashMapB) (f : File) where
  -- The checkpoint lies in the header, so that no record changes.
  pub store_checkpoint_b-IsPlotted :
      (c k : ℕ)
      → IsMapB u hm_a hm
      → IsPlotted u hm_a hm f k
      → let hm' = store_checkpoint_b (with_file_b hm f) c in IsPlotted u hm_a hm' hm'.base.file k
  unfolding store_checkpoint_b update_checkpoint
  store_checkpoint_b-IsPlotted c k v fill = record {
    halves = λ j h.
        read-ext _ _ (hm.base.offset + j * size_of u hm_a) (size_of u hm_a) (λ i a b.
          write_at-outside f 42 (le_bytes 8 c) i
            (inr (omega (arith, length-le_bytes 8 c, v.offset_is))))
        ∙ fill.halves j h;
    reach = omega (arith, write_at-size f 42 (le_bytes 8 c), fill.reach);
  }

  pub store_checkpoint_b-IsMapB :
      (c : ℕ) → IsMapB u hm_a hm → IsMapB u hm_a (store_checkpoint_b (with_file_b hm f) c)
  unfolding store_checkpoint_b update_checkpoint
  store_checkpoint_b-IsMapB c v = record {
    offset_is = v.offset_is;
    volume_small = v.volume_small;
    record_positive = v.record_positive;
    record_small = v.record_small;
    same_size = v.same_size;
    reach_a = v.reach_a;
    whole_reads = v.whole_reads;
  }

  pub with_file_b-IsMapB : IsMapB u hm_a hm → IsMapB u hm_a (with_file_b hm f)
  with_file_b-IsMapB v = record {
    offset_is = v.offset_is;
    volume_small = v.volume_small;
    record_positive = v.record_positive;
    record_small = v.record_small;
    same_size = v.same_size;
    reach_a = v.reach_a;
    whole_reads = v.whole_reads;
  }

  pub with_file_b-IsPlotted :
      (k : ℕ) → IsPlotted u hm_a hm f k → IsPlotted u hm_a (with_file_b hm f) f k
  with_file_b-IsPlotted k fill = record { halves = fill.halves; reach = fill.reach }

  pub IsPlotted-le : (k c : ℕ) → c ≤ k → IsPlotted u hm_a hm f k → IsPlotted u hm_a hm f c
  IsPlotted-le k c le fill = record {
    halves = λ j h. fill.halves j (omega arith);
    reach = omega (arith, mul-le-mul_right (size_of u hm_a) le, fill.reach);
  }

  pub read_checkpoint-SameHeaderB :
      IsMapB u hm_a hm
      → SameHeaderB hm f
      → read_checkpoint (with_file_b hm f).base ≡ read_checkpoint hm.base
  unfolding read_checkpoint
  read_checkpoint-SameHeaderB v same =
      ap from_le
        (read-ext f.cells hm.base.file.cells 42 8 (λ i a b. same i (omega (arith, v.offset_is))))

module _ (u : PocUtil) (env : Env) (fuel r : ℕ) (hm_a : HashMapA) (hm : HashMapB) (start : ℕ) where
  pub plot_loop_done :
      ltb start (hm.base.volume / 2) ≡ false
      → plot_loop u env (suc fuel) r hm_a hm start
        ≡ some (record { hm = store_checkpoint_b hm (hm.base.volume / 2); error = none })
  unfolding plot_loop
  plot_loop_done h = rw (h, plot_loop) refl

  pub plot_loop_ended :
      {e : PlotWorkEnd}
      → ltb start (hm.base.volume / 2) ≡ true
      → pair_round u env r hm_a hm start ≡ some (pairs_ended e)
      → plot_loop u env (suc fuel) r hm_a hm start ≡ some e
  unfolding plot_loop
  plot_loop_ended h eq = rw (h, plot_loop, eq) refl

  pub plot_loop_go_on :
      {hm' : HashMapB} {next : ℕ}
      → ltb start (hm.base.volume / 2) ≡ true
      → pair_round u env r hm_a hm start ≡ some (pairs_go_on hm' next)
      → plot_loop u env (suc fuel) r hm_a hm start ≡ plot_loop u env fuel (r + 1) hm_a hm' next
  unfolding plot_loop
  plot_loop_go_on h eq = rw (h, plot_loop, eq) refl

-- Where the loop stands: all records before it are as they should be.
pub record AtPair (u : PocUtil) (hm_a : HashMapA) (hm : HashMapB) (start : ℕ) : Type 0 where
  pub map : IsMapB u hm_a hm
  pub plotted_before : IsPlotted u hm_a hm hm.base.file (start * 4)
  pub below : start ≤ hm.base.volume / 2
  pub stored : read_checkpoint hm.base ≤ start

abbrev pub advanced_map_b : HashMapB → File → ℕ → HashMapB
advanced_map_b hm f start = store_checkpoint_b (with_file_b hm f) (start + 1)

-- The window takes no more than is left, and something of it.
pub pair_window_size-bounds :
    (left size rs : ℕ)
    → 0 < rs
    → rs ≤ 8
    → 0 < left
    → IsShare (left * rs * 4) size
    → (pair_window_size (blank size) rs ≤ left) × (1 ≤ pair_window_size (blank size) rs)
unfolding pair_window_size
pair_window_size-bounds left size rs pos small some_left share = (
  fits,
  let four : 4 ≤ size / rs =
        (le-div_iff_mul-le pos).1 (omega (arith, mul-le-mul_right rs some_left, share.at_least)) in
      omega (arith, four),
)
  where
    total : left * rs * 4 ≡ left * 4 * rs
    total = grind arith

    four_fit : size / rs / 4 * 4 ≤ left * 4
    four_fit =
        le_of_mul-le-mul_right
          (le_trans (pair_window_size-le size rs) (omega (arith, share.at_most, total))) pos

    fits : size / rs / 4 ≤ left
    fits = omega (arith, four_fit)

-- A round that goes on leads to a later pair.
pub advanced-AtPair :
    (u : PocUtil) (hm_a : HashMapA) (hm : HashMapB) (start : ℕ) (f : File) (size : ℕ)
    → AtPair u hm_a hm start
    → start < hm.base.volume / 2
    → IsShare (required_pairs u hm_a hm start) size
    → IsPlotted u hm_a hm f ((start + pair_window u hm_a size) * 4)
    → AtPair u hm_a (advanced_map_b hm f start) (start + pair_window u hm_a size)
      × (start + 1 ≤ start + pair_window u hm_a size)
advanced-AtPair u hm_a hm start f size at h share fill =
    let bounds =
      pair_window_size-bounds (hm.base.volume / 2 - start) size (size_of u hm_a)
        at.map.record_positive at.map.record_small (omega arith) share in
    (
      record {
        map = store_checkpoint_b-IsMapB u hm_a hm f (start + 1) at.map;
        plotted_before =
            store_checkpoint_b-IsPlotted u hm_a hm f (start + 1)
              ((start + pair_window u hm_a size) * 4) at.map fill;
        below = rw (volume-store_b (with_file_b hm f) (start + 1)) (omega (arith, bounds, h));
        stored =
            rw
              (read_checkpoint-store_b (with_file_b hm f) (start + 1)
                (omega (arith, at.map.volume_small, h)))
              (omega (arith, bounds));
      },
      omega (arith, bounds),
    )

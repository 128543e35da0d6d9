-- ===== src/MassDb/Plot/Total.antt =====
-- The whole of plotWork: that it ends, what it leaves behind, and what Get of map B then returns.
use mass_net_miner.Common.{
  ℕ, zero, suc, ◌==◌, ◌+◌, ◌*◌, ◌/◌, ◌≤◌, ◌<◌, ◌≡◌, refl, sym, ap, ◌∙◌, subst, inl, inr, true,
  false, none, some, arith, Bool-cases, ltb,
}
use mass_net_miner.MassDb.Base.{PocUtil, File}
use mass_net_miner.MassDb.HashMap.{HashMapA, HashMapB, read_checkpoint, update_checkpoint}
use mass_net_miner.MassDb.PrePlot.{Env}
use mass_net_miner.MassDb.PrePlot.Round.{IsCalm}
use mass_net_miner.MassDb.Plot.{
  PlotWorkEnd, NextPairs, with_file_b, store_checkpoint_b, pair_round, plot_loop, plot_work,
}
use mass_net_miner.MassDb.Plot.Round.{
  IsMapB, IsPlotted, PairOutcome, pairs_disturbed, pairs_advanced, pair_round-PairOutcome,
  pair_window,
}
use mass_net_miner.MassDb.Plot.Work.{
  IsSameMapB, AtPair, plot_loop_done, plot_loop_ended, plot_loop_go_on, advanced-AtPair,
  advanced_map_b, IsPlotted-le, read_checkpoint-SameHeaderB, with_file_b-IsMapB,
  with_file_b-IsPlotted, read_checkpoint-store_b, store_checkpoint_b-IsMapB,
  store_checkpoint_b-IsPlotted, volume-store_b,
}

-- What the work leaves behind.
pub record IsLeftB (u : PocUtil) (hm_a : HashMapA) (hm : HashMapB) (e : PlotWorkEnd) : Type 0 where
  pub same_map : IsSameMapB hm e.hm
  pub still_map : IsMapB u hm_a e.hm
  pub plotted : IsPlotted u hm_a e.hm e.hm.base.file (read_checkpoint e.hm.base * 4)
  pub finished : e.error ≡ none → read_checkpoint e.hm.base ≡ e.hm.base.volume / 2

same_file_b : (hm : HashMapB) (f : File) → IsSameMapB hm (with_file_b hm f)
same_file_b hm f = record { same_volume = refl; same_offset = refl; same_record_size = refl }

same_store_b : (hm : HashMapB) (c : ℕ) → IsSameMapB hm (store_checkpoint_b hm c)
unfolding store_checkpoint_b update_checkpoint
same_store_b hm c = record { same_volume = refl; same_offset = refl; same_record_size = refl }

same_then : {hm e : HashMapB} (m : HashMapB) → IsSameMapB hm m → IsSameMapB m e → IsSameMapB hm e
same_then m s t = record {
  same_volume = t.same_volume ∙ s.same_volume;
  same_offset = t.same_offset ∙ s.same_offset;
  same_record_size = t.same_record_size ∙ s.same_record_size;
}

module _ (u : PocUtil) (env : Env) (hm_a : HashMapA) where
  -- What the loop comes to.
  abbrev Comes : ℕ → ℕ → HashMapB → ℕ → Type 0
  Comes fuel r hm start =
      (e : PlotWorkEnd) × (plot_loop u env fuel r hm_a hm start ≡ some e)
      × IsLeftB u hm_a hm e
      × (IsCalm env → e.error ≡ none)

  done-Comes :
      (fuel r : ℕ) (hm : HashMapB) (start : ℕ)
      → AtPair u hm_a hm start
      → ltb start (hm.base.volume / 2) ≡ false
      → Comes (suc fuel) r hm start
  done-Comes fuel r hm start at over =
      let at_end : start ≡ hm.base.volume / 2 = ground (arith, at.below) in
      let c =
        read_checkpoint-store_b hm (hm.base.volume / 2) (omega (arith, at.map.volume_small)) in
      let fill =
        store_checkpoint_b-IsPlotted u hm_a hm hm.base.file (hm.base.volume / 2)
          (hm.base.volume / 2 * 4) at.map
          (subst (λ k. IsPlotted u hm_a hm hm.base.file (k * 4)) at_end at.plotted_before) in
      (
        record { hm = store_checkpoint_b hm (hm.base.volume / 2); error = none },
        plot_loop_done u env fuel r hm_a hm start over,
        record {
          same_map = same_store_b hm (hm.base.volume / 2);
          still_map = store_checkpoint_b-IsMapB u hm_a hm hm.base.file (hm.base.volume / 2) at.map;
          plotted = rw c fill;
          finished = λ _. c ∙ sym (ap (λ v. v / 2) (volume-store_b hm (hm.base.volume / 2)));
        },
        λ _. refl,
      )

  -- Every round ends the work or advances it, so that a round for each pair is enough.
  loop-Comes :
      (fuel r : ℕ) (hm : HashMapB) (start : ℕ)
      → AtPair u hm_a hm start
      → hm.base.volume / 2 < fuel + start
      → Comes fuel r hm start
  loop-Comes zero r hm start at enough = absurd (omega (arith, at.below))
  loop-Comes (suc fuel) r hm start at enough = elim (Bool-cases (ltb start (hm.base.volume / 2))) [
    | inr over ↦ done-Comes fuel r hm start at over
    | inl more ↦
        let (o, eq, out) =
          pair_round-PairOutcome u env r hm_a hm start at.map (ground arith) at.plotted_before in
        onward (loop-Comes fuel (r + 1)) o eq out more
  ]
    where
      onward :
          ((hm' : HashMapB) (next : ℕ)
            → AtPair u hm_a hm' next
            → hm'.base.volume / 2 < fuel + next
            → Comes fuel (r + 1) hm' next)
          → (o : NextPairs) → pair_round u env r hm_a hm start ≡ some o
          → PairOutcome u env hm_a hm start o
          → ltb start (hm.base.volume / 2) ≡ true
          → Comes (suc fuel) r hm start
      onward again _ eq (pairs_disturbed f x not_calm fill header) more = (
        record { hm = with_file_b hm f; error = some x },
        plot_loop_ended u env fuel r hm_a hm start more eq,
        record {
          same_map = same_file_b hm f;
          still_map = with_file_b-IsMapB u hm_a hm f at.map;
          plotted = rw (read_checkpoint-SameHeaderB u hm_a hm f at.map header) (
              with_file_b-IsPlotted u hm_a hm f (read_checkpoint hm.base * 4) (
                IsPlotted-le u hm_a hm f (start * 4) (read_checkpoint hm.base * 4)
                  (omega (arith, at.stored)) fill));
          finished = λ none_left. cc;
        },
        λ calm. absurd (not_calm calm),
      )
      onward again _ eq (pairs_advanced f size share fill) more =
          let next = advanced-AtPair u hm_a hm start f size at (ground arith) share fill in
          let (e, runs, rest, fine) =
            again (advanced_map_b hm f start) (start + pair_window u hm_a size) next.0
              (rw (volume-store_b (with_file_b hm f) (start + 1)) (omega (arith, next.1))) in
          (
            e,
            plot_loop_go_on u env fuel r hm_a hm start more eq ∙ runs,
            record {
              same_map =
                  same_then (advanced_map_b hm f start)
                    (same_then (with_file_b hm f) (same_file_b hm f)
                      (same_store_b (with_file_b hm f) (start + 1)))
                    rest.same_map;
              still_map = rest.still_map;
              plotted = rest.plotted;
              finished = rest.finished;
            },
            fine,
          )

-- plotWork of a map B with a volume of at least 100 (bit length 7 and above), beside a map A that the
-- buffer reads in whole pairs (either pairs fill the buffer of 64 MiB without a rest, or all of map A
-- fits into it), where the records below the stored checkpoint are as they should be. On whatever memory,
-- stop signals and disk errors it ends, within a round for each pair and one more, and leaves the same
-- map, in which the records below the stored checkpoint are as they should be: each holds the last pair
-- of neighbours of map A that F maps to it, in either order, or zeros. Without an error these are all
-- records, and undisturbed there is none.
pub plot_work-ends :
    (u : PocUtil) (env : Env) (hm_a : HashMapA) (hm : HashMapB) (fuel : ℕ)
    → IsMapB u hm_a hm
    → read_checkpoint hm.base ≤ hm.base.volume / 2
    → IsPlotted u hm_a hm hm.base.file (read_checkpoint hm.base * 4)
    → 100 ≤ hm.base.volume
    → hm.base.volume / 2 < fuel
    → (e : PlotWorkEnd) × (plot_work u env fuel hm_a hm ≡ some e)
      × IsLeftB u hm_a hm e
      × (IsCalm env → e.error ≡ none)
unfolding plot_work
plot_work-ends u env hm_a hm fuel v below begun large enough =
    let some_interval : hm.base.volume / 100 == 0 ≡ false = ground arith in
    let (e, runs, left, fine) =
      loop-Comes u env hm_a fuel 0 hm (read_checkpoint hm.base) start (omega arith) in
    (e, rw some_interval runs, left, fine)
  where
    start : AtPair u hm_a hm (read_checkpoint hm.base)
    start = record { map = v; plotted_before = begun; below = below; stored = omega arith }

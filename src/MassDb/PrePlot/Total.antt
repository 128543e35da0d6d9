-- ===== src/MassDb/PrePlot/Total.antt =====
-- prePlotWork from an even checkpoint: what it leaves behind, and that it ends.
use mathlib.Core.Option.{some-injective}
use mass_net_miner.Common.{
  ℕ, zero, suc, ◌+◌, ◌/◌, ◌%◌, ◌==◌, ◌≤◌, ◌<◌, ◌≡◌, refl, sym, ◌∙◌, subst, inl, inr, true, false,
  none, some, arith, Bool-cases, ltb,
}
use mass_net_miner.MassDb.Base.{PocUtil, File, panicked}
use mass_net_miner.MassDb.HashMap.{HashMapA, read_checkpoint, update_checkpoint}
use mass_net_miner.MassDb.PrePlot.{
  Env, PlotEnd, Next, with_file, store_checkpoint, round, pre_plot_loop, pre_plot_work,
}
use mass_net_miner.MassDb.PrePlot.Round.{
  IsMapA, IsFilled, IsCalm, Outcome, disturbed, advanced, round-Outcome,
}
use mass_net_miner.MassDb.PrePlot.Work.{
  IsLeft, IsSameMap, At, loop_done, loop_ended, loop_go_on, advanced-At, advanced_map, window,
  IsFilled-le, read_checkpoint-SameHeader, with_file-IsMapA, with_file-IsFilled,
  read_checkpoint-store, store_checkpoint-IsMapA, store_checkpoint-IsFilled, volume-store,
}

same_file : (hm : HashMapA) (f : File) → IsSameMap hm (with_file hm f)
same_file hm f = record {
  same_half = refl;
  same_volume = refl;
  same_bl = refl;
  same_offset = refl;
  same_record_size = refl;
  same_pk_hash = refl;
}

same_store : (hm : HashMapA) (c : ℕ) → IsSameMap hm (store_checkpoint hm c)
unfolding store_checkpoint update_checkpoint
same_store hm c = record {
  same_half = refl;
  same_volume = refl;
  same_bl = refl;
  same_offset = refl;
  same_record_size = refl;
  same_pk_hash = refl;
}

same_advanced : {hm e : HashMapA} (m : HashMapA) → IsSameMap hm m → IsSameMap m e → IsSameMap hm e
same_advanced m s t = record {
  same_half = t.same_half ∙ s.same_half;
  same_volume = t.same_volume ∙ s.same_volume;
  same_bl = t.same_bl ∙ s.same_bl;
  same_offset = t.same_offset ∙ s.same_offset;
  same_record_size = t.same_record_size ∙ s.same_record_size;
  same_pk_hash = t.same_pk_hash ∙ s.same_pk_hash;
}

module _ (u : PocUtil) (env : Env) where
  -- The loop is over: all records are filled, and the checkpoint says so.
  done-IsLeft :
      (hm : HashMapA) (start : ℕ)
      → At u hm start
      → ltb start hm.base.volume ≡ false
      → IsLeft u hm (record { hm = store_checkpoint hm hm.base.volume; error = none })
  done-IsLeft hm start at over =
      let at_end : start ≡ hm.base.volume = ground (arith, at.below) in
      let c = read_checkpoint-store hm hm.base.volume at.map.volume_small in
      record {
        same_map = same_store hm hm.base.volume;
        still_map = store_checkpoint-IsMapA hm hm.base.file hm.base.volume at.map;
        filled = rw c (
            store_checkpoint-IsFilled u hm hm.base.file hm.base.volume hm.base.volume at.map
              (subst (IsFilled u hm hm.base.file) at_end at.filled_before));
        finished = λ _. c ∙ sym (volume-store hm hm.base.volume);
      }

  -- Whatever happens, the records below the stored checkpoint are filled.
  loop-IsLeft :
      (fuel r : ℕ) (hm : HashMapA) (start : ℕ) (e : PlotEnd)
      → At u hm start
      → pre_plot_loop u env fuel r hm start ≡ some e
      → IsLeft u hm e
  unfolding pre_plot_loop
  loop-IsLeft zero r hm start e at h = cc
  loop-IsLeft (suc fuel) r hm start e at h = elim (Bool-cases (ltb start hm.base.volume)) [
    | inr over ↦
        subst (IsLeft u hm) (some-injective _ _ (sym (loop_done u env fuel r hm start over) ∙ h))
          (done-IsLeft hm start at over)
    | inl more ↦
        let (o, eq, out) = round-Outcome u env r hm start at.map (ground arith) at.filled_before in
        onward (loop-IsLeft fuel (r + 1)) o eq out more
  ]
    where
      onward :
          ((hm' : HashMapA) (next : ℕ) (e : PlotEnd)
            → At u hm' next
            → pre_plot_loop u env fuel (r + 1) hm' next ≡ some e
            → IsLeft u hm' e)
          → (o : Next) → round u env r hm start ≡ some o
          → Outcome u env hm start o
          → ltb start hm.base.volume ≡ true
          → IsLeft u hm e
      onward again _ eq (disturbed f x calm fill header) more =
          subst (IsLeft u hm)
            (some-injective _ _ (sym (loop_ended u env fuel r hm start more eq) ∙ h))
            (record {
              same_map = same_file hm f;
              still_map = with_file-IsMapA hm f at.map;
              filled = rw (read_checkpoint-SameHeader hm f at.map header) (
                  with_file-IsFilled u hm f (read_checkpoint hm.base)
                    (IsFilled-le u hm f start (read_checkpoint hm.base) at.stored fill));
              finished = λ none_left. cc;
            })
      onward again _ eq (advanced f size share plenty fill) more =
          let next = advanced-At u hm start at f size (ground arith) share fill in
          let rest =
            again (advanced_map hm f start) (start + window hm size) e next.0
              (sym (loop_go_on u env fuel r hm start more eq) ∙ h) in
          record {
            same_map =
                same_advanced (advanced_map hm f start)
                  (same_advanced (with_file hm f) (same_file hm f)
                    (same_store (with_file hm f) (start + 1)))
                  rest.same_map;
            still_map = rest.still_map;
            filled = rest.filled;
            finished = rest.finished;
          }

  -- Undisturbed, the loop ends without an error when it is given a round for each record left.
  loop-ends :
      (fuel r : ℕ) (hm : HashMapA) (start : ℕ)
      → IsCalm env
      → At u hm start
      → hm.base.volume < fuel + start
      → (e : PlotEnd) × (pre_plot_loop u env fuel r hm start ≡ some e) × (e.error ≡ none)
  loop-ends zero r hm start calm at enough = absurd (omega (arith, at.below))
  loop-ends (suc fuel) r hm start calm at enough = elim (Bool-cases (ltb start hm.base.volume)) [
    | inr over ↦ (
      record { hm = store_checkpoint hm hm.base.volume; error = none },
      loop_done u env fuel r hm start over,
      refl,
    )
    | inl more ↦
        let (o, eq, out) = round-Outcome u env r hm start at.map (ground arith) at.filled_before in
        onward (loop-ends fuel (r + 1)) o eq out more
  ]
    where
      onward :
          ((hm' : HashMapA) (next : ℕ)
            → IsCalm env
            → At u hm' next
            → hm'.base.volume < fuel + next
            → (e : PlotEnd) × (pre_plot_loop u env fuel (r + 1) hm' next ≡ some e)
              × (e.error ≡ none))
          → (o : Next) → round u env r hm start ≡ some o
          → Outcome u env hm start o
          → ltb start hm.base.volume ≡ true
          → (e : PlotEnd) × (pre_plot_loop u env (suc fuel) r hm start ≡ some e) × (e.error ≡ none)
      onward again _ eq (disturbed f x not_calm fill header) more = absurd (not_calm calm)
      onward again _ eq (advanced f size share plenty fill) more =
          let next = advanced-At u hm start at f size (ground arith) share fill in
          let (e, runs, fine) =
            again (advanced_map hm f start) (start + window hm size) calm next.0
              (rw (volume-store (with_file hm f) (start + 1)) (omega (arith, next.1))) in
          (e, loop_go_on u env fuel r hm start more eq ∙ runs, fine)

-- The work is the loop, unless its logging divides by zero.
pub pre_plot_work_large :
    (u : PocUtil) (env : Env) (fuel : ℕ) (hm : HashMapA)
    → 50 ≤ hm.base.volume
    → pre_plot_work u env fuel hm ≡ pre_plot_loop u env fuel 0 hm (read_checkpoint hm.base)
unfolding pre_plot_work
pre_plot_work_large u env fuel hm large =
    let some_interval : hm.base.volume / 50 == 0 ≡ false = ground arith in rw some_interval refl

pub pre_plot_work_small :
    (u : PocUtil) (env : Env) (fuel : ℕ) (hm : HashMapA)
    → hm.base.volume < 50
    → pre_plot_work u env fuel hm ≡ some (record { hm = hm; error = some panicked })
unfolding pre_plot_work
pre_plot_work_small u env fuel hm few =
    let no_interval : hm.base.volume / 50 == 0 ≡ true = ground arith in rw no_interval refl

same_itself : (hm : HashMapA) → IsSameMap hm hm
same_itself hm = record {
  same_half = refl;
  same_volume = refl;
  same_bl = refl;
  same_offset = refl;
  same_record_size = refl;
  same_pk_hash = refl;
}

module _ (u : PocUtil) (env : Env) (hm : HashMapA) (v : IsMapA hm)
    (below : read_checkpoint hm.base ≤ hm.base.volume) (even : read_checkpoint hm.base % 2 ≡ 0)
    (begun : IsFilled u hm hm.base.file (read_checkpoint hm.base)) where
  start-At : At u hm (read_checkpoint hm.base)
  start-At = record {
    map = v;
    filled_before = begun;
    even = even;
    below = below;
    stored = omega arith;
  }

  panicked-IsLeft : IsLeft u hm (record { hm = hm; error = some panicked })
  panicked-IsLeft = record {
    same_map = same_itself hm;
    still_map = v;
    filled = begun;
    finished = λ none_left. cc;
  }

  -- prePlotWork of a valid map, whose stored checkpoint is even and whose records below it are filled.
  -- However the work ends, on whatever memory, stop signals and disk errors, or by the panic of its
  -- logging: the map is the same map, the records below the stored checkpoint are filled (each holds the
  -- last value that maps to it, or zeros), and if there is no error the stored checkpoint is the volume,
  -- so that all of them are.
  pub pre_plot_work-IsLeft :
      (fuel : ℕ) (e : PlotEnd) → pre_plot_work u env fuel hm ≡ some e → IsLeft u hm e
  pre_plot_work-IsLeft fuel e h = elim (Bool-cases (ltb hm.base.volume 50)) [
    | inl few ↦
        subst (IsLeft u hm)
          (some-injective _ _ (sym (pre_plot_work_small u env fuel hm (ground arith)) ∙ h))
          panicked-IsLeft
    | inr many ↦
        loop-IsLeft u env fuel 0 hm (read_checkpoint hm.base) e start-At
          (sym (pre_plot_work_large u env fuel hm (ground arith)) ∙ h)
  ]

  -- prePlotWork of such a map, of at least 50 records (bit length 6 and above): on plenty of memory,
  -- with no stop signal and no disk error, it ends without an error, within a round for each record and
  -- one more.
  pub pre_plot_work-ends :
      (fuel : ℕ)
      → IsCalm env
      → 50 ≤ hm.base.volume
      → hm.base.volume < fuel
      → (e : PlotEnd) × (pre_plot_work u env fuel hm ≡ some e) × (e.error ≡ none)
  pre_plot_work-ends fuel calm large enough =
      let (e, runs, fine) =
        loop-ends u env fuel 0 hm (read_checkpoint hm.base) calm start-At (omega arith) in
      (e, pre_plot_work_large u env fuel hm large ∙ runs, fine)

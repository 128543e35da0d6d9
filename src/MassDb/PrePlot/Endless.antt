-- ===== src/MassDb/PrePlot/Endless.antt =====
-- prePlotWork from an odd checkpoint. A round stores its start plus one, so that a work stopped
-- behind its first window leaves an odd checkpoint. The windows are even: from there the work never
-- comes to the volume, and its last window is empty.
use mathlib.Core.Option.{some-injective}
use mass_net_miner.Common.{
  ℕ, zero, suc, ◌+◌, ◌-◌, ◌%◌, ◌≤◌, ◌<◌, ◌≡◌, ◌≢◌, refl, sym, ◌∙◌, subst, ◌⊎◌, inl, inr, true, none,
  some, arith, Bool-cases, ltb,
}
use mass_net_miner.MassDb.Base.{PocUtil, File}
use mass_net_miner.MassDb.HashMap.{HashMapA, read_checkpoint}
use mass_net_miner.MassDb.PrePlot.{
  Env, PlotEnd, Next, with_file, round, pre_plot_loop, pre_plot_work,
}
use mass_net_miner.MassDb.PrePlot.Memory.{window_size-bounds, window_size-even, blank, IsShare}
use mass_net_miner.MassDb.PrePlot.Total.{pre_plot_work_large, pre_plot_work_small}
use mass_net_miner.MassDb.PrePlot.Round.{
  IsMapA, IsFilled, IsCalm, Outcome, disturbed, advanced, round-Outcome, required,
}
use mass_net_miner.MassDb.PrePlot.Work.{
  At, loop_done, loop_ended, loop_go_on, advanced_map, advanced-At, window, read_checkpoint-store,
  read_checkpoint-SameHeader, store_checkpoint-IsMapA, store_checkpoint-IsFilled, volume-store,
}

-- Where the loop stands: an odd record before the end.
record AtOdd (u : PocUtil) (hm : HashMapA) (start : ℕ) : Type 0 where
  pub map : IsMapA hm
  pub filled_before : IsFilled u hm hm.base.file start
  pub odd : start % 2 ≡ 1
  pub below : start < hm.base.volume

advanced-AtOdd :
    (u : PocUtil) (hm : HashMapA) (start : ℕ) (f : File) (size : ℕ)
    → AtOdd u hm start
    → IsShare (required hm start) size
    → IsFilled u hm f (start + window hm size)
    → AtOdd u (advanced_map hm f start) (start + window hm size)
advanced-AtOdd u hm start f size at share fill =
    let bounds =
      window_size-bounds (hm.base.volume - start) size hm.base.record_size at.map.record_positive
        at.map.record_small share in
    let even_window = window_size-even (blank size) hm.base.record_size in
    record {
      map = store_checkpoint-IsMapA hm f (start + 1) at.map;
      filled_before =
          store_checkpoint-IsFilled u hm f (start + 1) (start + window hm size) at.map fill;
      odd = omega (arith, at.odd, even_window);
      below =
          rw (volume-store (with_file hm f) (start + 1))
            (omega (arith, bounds, at.odd, even_window, at.map.halves, at.below));
    }

module _ (u : PocUtil) (env : Env) where
  -- From an odd record the loop ends by a disturbance or not at all.
  abbrev Fails : ℕ → ℕ → HashMapA → ℕ → Type 0
  Fails fuel r hm start =
      ((e : PlotEnd) → pre_plot_loop u env fuel r hm start ≡ some e → e.error ≢ none)
      × (IsCalm env → pre_plot_loop u env fuel r hm start ≡ none)

  loop-Fails : (fuel r : ℕ) (hm : HashMapA) (start : ℕ) → AtOdd u hm start → Fails fuel r hm start
  unfolding pre_plot_loop
  loop-Fails zero r hm start at = (λ e h. cc, λ c. refl)
  loop-Fails (suc fuel) r hm start at =
      let (o, eq, out) = round-Outcome u env r hm start at.map at.below at.filled_before in
      onward (loop-Fails fuel (r + 1)) o eq out
    where
      more : ltb start hm.base.volume ≡ true
      more = ground (arith, at.below)

      onward :
          ((hm' : HashMapA) (next : ℕ) → AtOdd u hm' next → Fails fuel (r + 1) hm' next)
          → (o : Next) → round u env r hm start ≡ some o
          → Outcome u env hm start o
          → Fails (suc fuel) r hm start
      onward again _ eq (disturbed f x not_calm fill header) = (
        λ e h.
            subst (λ (k : PlotEnd). k.error ≢ none)
              (some-injective _ _ (sym (loop_ended u env fuel r hm start more eq) ∙ h)) (λ q. cc),
        λ c. absurd (not_calm c),
      )
      onward again _ eq (advanced f size share plenty fill) =
          let rest =
            again (advanced_map hm f start) (start + window hm size)
              (advanced-AtOdd u hm start f size at share fill) in
          let step = loop_go_on u env fuel r hm start more eq in
          (λ e h. rest.0 e (sym step ∙ h), λ c. step ∙ rest.1 c)

  -- The checkpoint that a disturbed work leaves: the one that it found, or an odd one.
  abbrev FoundOrOddMap : ℕ → HashMapA → Type 0
  FoundOrOddMap c hm =
      (read_checkpoint hm.base ≡ c)
      ⊎ ((read_checkpoint hm.base % 2 ≡ 1) × (read_checkpoint hm.base < hm.base.volume))

  advanced-FoundOrOddMap :
      (c : ℕ) (hm : HashMapA) (start : ℕ) (f : File)
      → At u hm start
      → start < hm.base.volume
      → FoundOrOddMap c (advanced_map hm f start)
  advanced-FoundOrOddMap c hm start f at h = inr (
      rw
        (
          volume-store (with_file hm f) (start + 1),
          read_checkpoint-store (with_file hm f) (start + 1) (omega (arith, at.map.volume_small)),
        )
        (omega (arith, at.even), omega (arith, at.even, at.map.halves)))

  loop-FoundOrOdd :
      (c fuel r : ℕ) (hm : HashMapA) (start : ℕ) (e : PlotEnd)
      → At u hm start
      → FoundOrOddMap c hm
      → pre_plot_loop u env fuel r hm start ≡ some e
      → e.error ≢ none
      → FoundOrOddMap c e.hm
  unfolding pre_plot_loop
  loop-FoundOrOdd c zero r hm start e at q h bad = cc
  loop-FoundOrOdd c (suc fuel) r hm start e at q h bad =
      elim (Bool-cases (ltb start hm.base.volume)) [
        | inr over ↦ absurd (
            subst (λ (k : PlotEnd). k.error ≢ none)
              (sym (some-injective _ _ (sym (loop_done u env fuel r hm start over) ∙ h))) bad refl)
        | inl more ↦
            let (o, eq, out) =
              round-Outcome u env r hm start at.map (ground arith) at.filled_before in
            onward (loop-FoundOrOdd c fuel (r + 1)) o eq out more
      ]
    where
      onward :
          ((hm' : HashMapA) (next : ℕ) (e : PlotEnd)
            → At u hm' next
            → FoundOrOddMap c hm'
            → pre_plot_loop u env fuel (r + 1) hm' next ≡ some e
            → e.error ≢ none
            → FoundOrOddMap c e.hm)
          → (o : Next) → round u env r hm start ≡ some o
          → Outcome u env hm start o
          → ltb start hm.base.volume ≡ true
          → FoundOrOddMap c e.hm
      onward again _ eq (disturbed f x not_calm fill header) more =
          subst (λ (k : PlotEnd). FoundOrOddMap c k.hm)
            (some-injective _ _ (sym (loop_ended u env fuel r hm start more eq) ∙ h))
            (rw (read_checkpoint-SameHeader hm f at.map header) q)
      onward again _ eq (advanced f size share plenty fill) more =
          again (advanced_map hm f start) (start + window hm size) e
            (advanced-At u hm start at f size (ground arith) share fill).0
            (advanced-FoundOrOddMap c hm start f at (ground arith))
            (sym (loop_go_on u env fuel r hm start more eq) ∙ h) bad

-- From a valid map of at least 50 records whose stored checkpoint is odd and below the volume, and
-- whose records below it are filled, prePlotWork never ends without an error, whatever memory, signals
-- and disk do; and when nothing disturbs it, it never ends, whatever the number of rounds.
pub pre_plot_work_odd :
    (u : PocUtil) (env : Env) (hm : HashMapA)
    → IsMapA hm
    → read_checkpoint hm.base % 2 ≡ 1
    → read_checkpoint hm.base < hm.base.volume
    → IsFilled u hm hm.base.file (read_checkpoint hm.base)
    → 50 ≤ hm.base.volume
    → (fuel : ℕ)
    → ((e : PlotEnd) → pre_plot_work u env fuel hm ≡ some e → e.error ≢ none)
      × (IsCalm env → pre_plot_work u env fuel hm ≡ none)
pre_plot_work_odd u env hm v odd below fill large fuel =
    let fails =
      loop-Fails u env fuel 0 hm (read_checkpoint hm.base)
        (record { map = v; filled_before = fill; odd = odd; below = below }) in
    let runs = pre_plot_work_large u env fuel hm large in
    (λ e h. fails.0 e (sym runs ∙ h), λ calm. runs ∙ fails.1 calm)

-- When prePlotWork of a valid map, begun at an even checkpoint with the records below it filled,
-- ends with an error (a stop signal, the memory, the disk, or the panic of its logging), it leaves
-- the stored checkpoint that it found, or an odd one below the volume.
pub pre_plot_work_stopped :
    (u : PocUtil) (env : Env) (hm : HashMapA)
    → IsMapA hm
    → read_checkpoint hm.base ≤ hm.base.volume
    → read_checkpoint hm.base % 2 ≡ 0
    → IsFilled u hm hm.base.file (read_checkpoint hm.base)
    → (fuel : ℕ) (e : PlotEnd) → pre_plot_work u env fuel hm ≡ some e
    → e.error ≢ none
    → (read_checkpoint e.hm.base ≡ read_checkpoint hm.base)
      ⊎ ((read_checkpoint e.hm.base % 2 ≡ 1) × (read_checkpoint e.hm.base < e.hm.base.volume))
pre_plot_work_stopped u env hm v below even fill fuel e h bad =
    elim (Bool-cases (ltb hm.base.volume 50)) [
      | inl few ↦
          subst (λ (k : PlotEnd). FoundOrOddMap u env (read_checkpoint hm.base) k.hm)
            (some-injective _ _ (sym (pre_plot_work_small u env fuel hm (ground arith)) ∙ h))
            (inl refl)
      | inr many ↦
          loop-FoundOrOdd u env (read_checkpoint hm.base) fuel 0 hm (read_checkpoint hm.base) e
            (record {
              map = v;
              filled_before = fill;
              even = even;
              below = below;
              stored = omega arith;
            })
            (inl refl) (sym (pre_plot_work_large u env fuel hm (ground arith)) ∙ h) bad
    ]

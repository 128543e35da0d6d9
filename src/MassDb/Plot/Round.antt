-- ===== src/MassDb/Plot/Round.antt =====
-- One round of plotWork: the records of its window are filled, those before it are kept.
use native.Mathlib.Nat.{le_trans, mul-le-mul_right, div-mul-le_self}
use mass_net_miner.Common.{
  Option, ℕ, ◌+◌, ◌-◌, ◌*◌, ◌/◌, ◌%◌, ◌^◌, ◌≤◌, ◌<◌, ◌≡◌, refl, ap, ◌∙◌, ◌⊎◌, inl, inr, true, false,
  some, arith, Option-cases, Bool-cases, ltb, ltb→ge, ◌==◌, if◌then◌else◌, replicate,
}
use mass_net_miner.Common.Bytes.{Bytes, read-shift, read-ext}
use mass_net_miner.MassDb.Base.{DbError, Result, stop_plotting, File, PocUtil}
use mass_net_miner.MassDb.HashMap.{HashMapA, HashMapB}
use mass_net_miner.MassDb.HashMap.Records.{record_of, rows-le}
use mass_net_miner.MassDb.Cache.{MemCache, new_mem_cache, Copied}
use mass_net_miner.MassDb.Cache.Copy.{IsCopied, write_to_writer-IsCopied}
use mass_net_miner.MassDb.PrePlot.{Env}
use mass_net_miner.MassDb.PrePlot.Memory.{
  Granted, refused, granted, IsShare, blank, make_available_memory-Granted,
}
use mass_net_miner.MassDb.PrePlot.Round.{IsCalm}
use mass_net_miner.MassDb.Plot.{
  NextPairs, pairs_ended, pairs_go_on, with_file_b, store_checkpoint_b, pair_window_size,
  scan_pairs, min_map_a_buf_mem, after_pairs_copy, copy_pairs, fill_pairs, pair_round,
}
use mass_net_miner.MassDb.Plot.Reads.{Pairs}
use mass_net_miner.MassDb.Plot.Scan.{size_of, last_pair, Holds, scan_pairs_all, scan_pairs-ne-none}

-- Map B beside the map A that it is made from, which lies in its file as a whole. A Read of map A brings
-- a whole pair: the pairs fill the buffer without a rest, or map A fits into the buffer.
pub record IsMapB (u : PocUtil) (hm_a : HashMapA) (hm : HashMapB) : Type 0 where
  pub offset_is : hm.base.offset ≡ 4096
  pub volume_small : hm.base.volume < 256 ^ 8
  pub record_positive : 0 < size_of u hm_a
  pub record_small : size_of u hm_a ≤ 8
  pub same_size : hm.base.record_size ≡ size_of u hm_a
  pub reach_a : hm_a.base.offset + hm.base.volume / 2 * (size_of u hm_a * 2) ≤ hm_a.base.file.size
  pub whole_reads :
      Pairs (size_of u hm_a * 2) min_map_a_buf_mem
      ⊎ (hm_a.base.offset + hm.base.volume / 2 * (size_of u hm_a * 2)
          ≤ hm_a.base.offset + min_map_a_buf_mem)

abbrev pub half_of : Bytes × Bytes → ℕ → Bytes
half_of pair c = if c % 2 == 0 then pair.0 else pair.1

-- The half record `c` of map B as the work means to leave it.
abbrev pub wanted_half : PocUtil → HashMapA → HashMapB → ℕ → Bytes
wanted_half u hm_a hm c = half_of (last_pair u hm_a (hm.base.volume / 2) (c / 2)) c

-- The file holds the half records below `k`.
pub record IsPlotted (u : PocUtil) (hm_a : HashMapA) (hm : HashMapB) (f : File) (k : ℕ)
    : Type 0 where
  pub halves :
      (c : ℕ)
      → c < k
      → record_of f.cells hm.base.offset (size_of u hm_a) c ≡ wanted_half u hm_a hm c
  pub reach : hm.base.offset + k * size_of u hm_a ≤ f.size

-- The file has the header of the map's file.
abbrev pub SameHeaderB : HashMapB → File → Type 0
SameHeaderB hm f = (i : ℕ) → i < hm.base.offset → f.cells i ≡ hm.base.file.cells i

abbrev pub required_pairs : PocUtil → HashMapA → HashMapB → ℕ → ℕ
required_pairs u hm_a hm start = (hm.base.volume / 2 - start) * size_of u hm_a * 4

abbrev pub pair_window : PocUtil → HashMapA → ℕ → ℕ
pair_window u hm_a size = pair_window_size (blank size) (size_of u hm_a)

pub pair_window_size-le : (size rs : ℕ) → pair_window_size (blank size) rs * 4 * rs ≤ size
unfolding pair_window_size
pair_window_size-le size rs = le_trans (mul-le-mul_right rs (omega arith)) (div-mul-le_self size rs)

module _ (u : PocUtil) (env : Env) (hm_a : HashMapA) (hm : HashMapB) (start : ℕ) where
  -- What a round leads to. It ends only when something disturbs it.
  pub data PairOutcome : NextPairs → Type 0 where
    pairs_disturbed :
        (f : File) (e : DbError)
        → ¬ IsCalm env
        → IsPlotted u hm_a hm f (start * 4)
        → SameHeaderB hm f
        → PairOutcome (pairs_ended (record { hm = with_file_b hm f; error = some e }))
    pairs_advanced :
        (f : File) (size : ℕ)
        → IsShare (required_pairs u hm_a hm start) size
        → IsPlotted u hm_a hm f ((start + pair_window u hm_a size) * 4)
        → PairOutcome (
            pairs_go_on
              (store_checkpoint_b (with_file_b hm f) (start + 1))
              (start + pair_window u hm_a size))

module _ (u : PocUtil) (env : Env) (r : ℕ) (hm_a : HashMapA) (hm : HashMapB) (start : ℕ)
    (v : IsMapB u hm_a hm) (inside : start < hm.base.volume / 2)
    (before : IsPlotted u hm_a hm hm.base.file (start * 4)) where
  abbrev rs : ℕ
  rs = size_of u hm_a

  abbrev dst : ℕ
  dst = hm.base.offset + start * rs * 4

  dst_is : dst ≡ hm.base.offset + start * 4 * rs
  dst_is = grind arith

  module _ (size w : ℕ) (holds : w * 4 * rs ≤ size) (filled : MemCache)
      (scanned : Holds u hm_a
        (start * 2)
        (w * 2)
        v.record_positive
        size
        filled
        (λ t. last_pair u hm_a (hm.base.volume / 2) (start * 2 + t)))
      (copied : Copied)
      (is_copied : IsCopied (env.around r) filled 0 dst filled.size hm.base.file copied) where
    -- The records before the window are as they were.
    kept : IsPlotted u hm_a hm copied.file (start * 4)
    kept = record {
      halves = λ j h.
          read-ext _ _ (hm.base.offset + j * rs) rs (λ i a b.
            is_copied.copied.outside i (inl (omega (arith, dst_is, rows-le rs j (start * 4) h))))
          ∙ before.halves j h;
      reach = omega (arith, is_copied.copied.grown, before.reach);
    }

    scanned_half :
        (t : ℕ) → t < w * 4 → record_of filled.cells 0 rs t ≡ wanted_half u hm_a hm (start * 4 + t)
    scanned_half t h =
        let row : start * 2 + t / 2 ≡ (start * 4 + t) / 2 = omega arith in
        elim (Bool-cases (t % 2 == 0)) [
          | inl even ↦
              let here : t ≡ t / 2 * 2 = ground arith in
              let first_half : (start * 4 + t) % 2 == 0 ≡ true = ground arith in
              ap (λ c. record_of filled.cells 0 rs c) here
              ∙ scanned.first (t / 2) (omega arith)
              ∙ rw (first_half, row) refl
          | inr odd ↦
              let here : t ≡ t / 2 * 2 + 1 = ground arith in
              let second_half : (start * 4 + t) % 2 == 0 ≡ false = ground arith in
              ap (λ c. record_of filled.cells 0 rs c) here
              ∙ scanned.second (t / 2) (omega arith)
              ∙ rw (second_half, row) refl
        ]

    window_half :
        (t : ℕ)
        → t < w * 4
        → copied.n ≡ filled.size
        → record_of copied.file.cells hm.base.offset rs (start * 4 + t)
          ≡ wanted_half u hm_a hm (start * 4 + t)
    window_half t h all =
        read-shift _ _ (hm.base.offset + (start * 4 + t) * rs) (0 + t * rs) rs (λ i l.
          let from : hm.base.offset + (start * 4 + t) * rs + i ≡ dst + (t * rs + i) = grind arith in
          let to : 0 + t * rs + i ≡ 0 + (t * rs + i) = omega arith in
          rw (from, to)
            (is_copied.copied.inside (t * rs + i)
              (omega (arith, rows-le rs t (w * 4) h, scanned.size_is))))
        ∙ scanned_half t h

    advance : copied.n ≡ filled.size → IsPlotted u hm_a hm copied.file ((start + w) * 4)
    advance all = record {
      halves = λ j h. elim (Bool-cases (ltb j (start * 4))) [
        | inl old ↦ kept.halves j (ground arith)
        | inr new ↦ new_record j (j - start * 4) (ground arith) (ground arith)
      ];
      reach = elim (Bool-cases (ltb 0 size)) [
        | inl some_bytes ↦ rw sum (
            omega (
              arith,
              dst_is,
              is_copied.copied.covers (ground (arith, scanned.size_is)),
              scanned.size_is,
            ))
        | inr no_bytes ↦ rw sum (omega (arith, kept.reach, ltb→ge 0 size no_bytes))
      ];
    }
      where
        sum : (start + w) * 4 * rs ≡ start * 4 * rs + w * 4 * rs
        sum = grind arith

        new_record :
            (j t : ℕ)
            → start * 4 + t ≡ j
            → t < w * 4
            → record_of copied.file.cells hm.base.offset rs j ≡ wanted_half u hm_a hm j
        new_record j t e h = rw (← e) (window_half t h all)

    -- After the copy.
    copied-PairOutcome :
        IsShare (required_pairs u hm_a hm start) size
        → w ≡ pair_window u hm_a size
        → PairOutcome u env hm_a hm start (after_pairs_copy hm start (start + w) copied)
    copied-PairOutcome share is_w = elim (Option-cases copied.error) [
      | inl fine ↦
          rw (fine, is_w)
            (pairs_advanced copied.file size share
              (rw (← is_w) (advance (is_copied.complete fine))))
      | inr (e, failed) ↦ rw failed (
          pairs_disturbed copied.file e
            (λ c. cc (is_copied.succeeds (c.no_stop r) (c.disk_works r))) kept
            (λ i h. is_copied.copied.outside i (inl (omega arith))))
    ]

  abbrev scan_of : ℕ → ℕ → Option MemCache
  scan_of size w =
      scan_pairs u (env.quit_scan r) hm_a (start * 2) ((start + w) * 2) (hm.base.volume / 2) 0
        (record { position = hm_a.base.offset; left = 0 }) (replicate (rs * 2) 0) (blank size)

  abbrev LeadsTo : Option NextPairs → Type 0
  LeadsTo m = (o : NextPairs) × (m ≡ some o) × PairOutcome u env hm_a hm start o

  copy_pairs-PairOutcome :
      (size w : ℕ)
      → IsShare (required_pairs u hm_a hm start) size
      → w ≡ pair_window u hm_a size
      → LeadsTo (copy_pairs u env r hm_a hm start (start + w) (scan_of size w))
  unfolding copy_pairs
  copy_pairs-PairOutcome size w share is_w = elim (Option-cases (scan_of size w)) [
    | inl stopped ↦ (
      _,
      rw (stopped, copy_pairs) refl,
      pairs_disturbed hm.base.file stop_plotting
          (λ c.
            scan_pairs-ne-none u (env.quit_scan r) hm_a (start * 2) ((start + w) * 2)
              (hm.base.volume / 2) 0 _ _ (blank size) (c.no_signal r) stopped)
          before (λ i h. refl),
    )
    | inr (filled, e) ↦ written filled e
  ]
    where
      holds : w * 4 * rs ≤ size
      holds = rw is_w (pair_window_size-le size rs)

      asked : 0 < required_pairs u hm_a hm start
      asked = grind (arith, v.record_positive)

      written :
          (filled : MemCache)
          → scan_of size w ≡ some filled
          → LeadsTo (copy_pairs u env r hm_a hm start (start + w) (scan_of size w))
      written filled e =
          let whole : (start + w) * 2 ≡ start * 2 + w * 2 = omega arith in
          let room : w * 2 * 2 * rs ≤ size = grind (arith, holds) in
          let scanned : Holds u hm_a (start * 2) (w * 2) v.record_positive size filled
              (λ t. last_pair u hm_a (hm.base.volume / 2) (start * 2 + t)) =
            scan_pairs_all u hm_a (start * 2) (w * 2) v.record_positive size room
              (hm.base.volume / 2) v.reach_a v.whole_reads (env.quit_scan r) filled
              (rw (← whole) e) in
          let (copied, wrote, is_copied) =
            write_to_writer-IsCopied (env.around r) filled 0 dst filled.size hm.base.file
              (omega arith) (omega (arith, scanned.size_is, share.at_least, asked)) in
          (
            after_pairs_copy hm start (start + w) copied,
            rw (e, copy_pairs, wrote) refl,
            copied-PairOutcome size w holds filled scanned copied is_copied share is_w,
          )

  fill_pairs-PairOutcome :
      (m : Result MemCache)
      → Granted (required_pairs u hm_a hm start) (env.available r) m
      → LeadsTo (fill_pairs u env r hm_a hm start m)
  unfolding fill_pairs
  fill_pairs-PairOutcome _ (refused e short) =
      (_, refl, pairs_disturbed hm.base.file e (λ c. short (c.memory r)) before (λ i h. refl))
  fill_pairs-PairOutcome _ (granted size share plenty) =
      copy_pairs-PairOutcome size (pair_window u hm_a size) share refl

  -- A round always comes to one of these outcomes.
  pub pair_round-PairOutcome : LeadsTo (pair_round u env r hm_a hm start)
  unfolding pair_round
  pair_round-PairOutcome = fill_pairs-PairOutcome _ (
      make_available_memory-Granted (new_mem_cache 0) (required_pairs u hm_a hm start)
        (env.available r) (grind (arith, v.record_positive)))

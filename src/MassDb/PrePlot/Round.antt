-- ===== src/MassDb/PrePlot/Round.antt =====
-- One round: the records of its window are filled, those before it are kept.
use mass_net_miner.Common.{
  ℕ, ◌+◌, ◌-◌, ◌*◌, ◌^◌, ◌≤◌, ◌<◌, ◌≡◌, refl, ◌∙◌, inl, inr, false, List, none, some, min, arith,
  Option-cases, Bool-cases, ltb, ltb→ge,
}
use mass_net_miner.Common.Bytes.{read-shift, read-ext}
use mass_net_miner.MassDb.Base.{DbError, Result, stop_plotting, File, PocUtil}
use mass_net_miner.MassDb.HashMap.{HashMapA}
use mass_net_miner.MassDb.HashMap.Records.{record_of, rows-le}
use mass_net_miner.MassDb.Cache.{MemCache, new_mem_cache, Copied}
use mass_net_miner.MassDb.Cache.Copy.{IsCopied, write_to_writer-IsCopied}
use mass_net_miner.MassDb.PrePlot.{
  Env, Next, ended, go_on, with_file, store_checkpoint, window_size, max_plot_mem, scan, after_copy,
  copy_window, fill_window, round,
}
use mass_net_miner.MassDb.PrePlot.Memory.{
  Granted, refused, granted, IsShare, IsPlenty, blank, make_available_memory-Granted,
  window_size-le,
}
use mass_net_miner.MassDb.PrePlot.Scan.{
  scan-ne-none, last_value, content, record_index, IsScanned, scan_all,
}

-- A map that was loaded with a bit length from 1 to 40.
pub record IsMapA (hm : HashMapA) : Type 0 where
  pub offset_is : hm.base.offset ≡ 4096
  pub volume_is : hm.base.volume ≡ 2 ^ hm.base.bl
  pub halves : hm.base.volume ≡ hm.half + hm.half
  pub volume_small : hm.base.volume < 256 ^ 8
  pub record_positive : 0 < hm.base.record_size
  pub record_small : hm.base.record_size ≤ 8

-- The record `j` as the work means to leave it: the last of all values that maps to it.
abbrev pub wanted : PocUtil → HashMapA → ℕ → List ℕ
wanted u hm j = content hm.base.record_size (last_value (record_index u hm) hm.base.volume j)

-- The file holds the records below `k`.
pub record IsFilled (u : PocUtil) (hm : HashMapA) (f : File) (k : ℕ) : Type 0 where
  pub records :
      (j : ℕ) → j < k → record_of f.cells hm.base.offset hm.base.record_size j ≡ wanted u hm j
  pub reach : hm.base.offset + k * hm.base.record_size ≤ f.size

-- Nothing disturbs the work: memory is plenty, nobody signals, and the disk does not fail.
pub record IsCalm (env : Env) : Type 0 where
  pub memory : (r : ℕ) → IsPlenty (env.available r)
  pub no_signal : (r x : ℕ) → env.quit_scan r x ≡ false
  pub no_stop : (r c : ℕ) → (env.around r).quit c ≡ false
  pub disk_works : (r c : ℕ) → (env.around r).disk c ≡ none

-- The file has the header of the map's file.
abbrev pub SameHeader : HashMapA → File → Type 0
SameHeader hm f = (i : ℕ) → i < hm.base.offset → f.cells i ≡ hm.base.file.cells i

abbrev pub required : HashMapA → ℕ → ℕ
required hm start = (hm.base.volume - start) * hm.base.record_size

module _ (u : PocUtil) (env : Env) (hm : HashMapA) (start : ℕ) where
  -- What a round leads to. It ends only when something disturbs it; the window that it fills is the
  -- one that fits into the memory granted.
  pub data Outcome : Next → Type 0 where
    disturbed :
        (f : File) (e : DbError)
        → ¬ IsCalm env
        → IsFilled u hm f start
        → SameHeader hm f
        → Outcome (ended (record { hm = with_file hm f; error = some e }))
    advanced :
        (f : File) (size : ℕ)
        → IsShare (required hm start) size
        → (IsCalm env → size ≡ min max_plot_mem (required hm start))
        → IsFilled u hm f (start + window_size (blank size) hm.base.record_size)
        → Outcome (
            go_on
              (store_checkpoint (with_file hm f) (start + 1))
              (start + window_size (blank size) hm.base.record_size))

module _ (u : PocUtil) (env : Env) (r : ℕ) (hm : HashMapA) (start : ℕ) (v : IsMapA hm)
    (inside : start < hm.base.volume) (before : IsFilled u hm hm.base.file start) where
  abbrev rs : ℕ
  rs = hm.base.record_size

  abbrev dst : ℕ
  dst = hm.base.offset + start * rs

  module _ (size w : ℕ) (holds : w * rs ≤ size) (filled : MemCache)
      (scanned : IsScanned u hm start w v.record_positive v.record_small size filled hm.base.volume)
      (copied : Copied)
      (is_copied : IsCopied (env.around r) filled 0 dst filled.size hm.base.file copied) where
    -- The records before the window are as they were.
    kept : IsFilled u hm copied.file start
    kept = record {
      records = λ j h.
          read-ext _ _ (hm.base.offset + j * rs) rs
            (λ i a b. is_copied.copied.outside i (inl (omega (arith, rows-le rs j start h))))
          ∙ before.records j h;
      reach = omega (arith, is_copied.copied.grown, before.reach);
    }

    window_record :
        (t : ℕ)
        → t < w
        → copied.n ≡ filled.size
        → record_of copied.file.cells hm.base.offset rs (start + t) ≡ wanted u hm (start + t)
    window_record t h all =
        read-shift _ _ (hm.base.offset + (start + t) * rs) (0 + t * rs) rs (λ i l.
          let from : hm.base.offset + (start + t) * rs + i ≡ dst + (t * rs + i) = omega arith in
          let to : 0 + t * rs + i ≡ 0 + (t * rs + i) = omega arith in
          rw (from, to)
            (is_copied.copied.inside (t * rs + i)
              (omega (arith, rows-le rs t w h, scanned.size_is))))
        ∙ scanned.records t h

    advance : copied.n ≡ filled.size → IsFilled u hm copied.file (start + w)
    advance all = record {
      records = λ j h. elim (Bool-cases (ltb j start)) [
        | inl old ↦ kept.records j (ground arith)
        | inr new ↦ new_record j (j - start) (ground arith) (ground arith)
      ];
      reach = elim (Bool-cases (ltb 0 size)) [
        | inl some_bytes ↦
            omega
              (arith, is_copied.copied.covers (ground (arith, scanned.size_is)), scanned.size_is)
        | inr no_bytes ↦ omega (arith, kept.reach, ltb→ge 0 size no_bytes)
      ];
    }
      where
        new_record :
            (j t : ℕ)
            → start + t ≡ j
            → t < w
            → record_of copied.file.cells hm.base.offset rs j ≡ wanted u hm j
        new_record j t e h = rw (← e) (window_record t h all)

    -- After the copy.
    copied-Outcome :
        IsShare (required hm start) size
        → (IsCalm env → size ≡ min max_plot_mem (required hm start))
        → w ≡ window_size (blank size) rs
        → Outcome u env hm start (after_copy hm start (start + w) copied)
    copied-Outcome share plenty is_w = elim (Option-cases copied.error) [
      | inl fine ↦
          rw (fine, is_w)
            (advanced copied.file size share plenty
              (rw (← is_w) (advance (is_copied.complete fine))))
      | inr (e, failed) ↦ rw failed (
          disturbed copied.file e (λ c. cc (is_copied.succeeds (c.no_stop r) (c.disk_works r))) kept
            (λ i h. is_copied.copied.outside i (inl (omega arith))))
    ]

  copy_window-Outcome :
      (size w : ℕ)
      → IsShare (required hm start) size
      → (IsCalm env → size ≡ min max_plot_mem (required hm start))
      → w ≡ window_size (blank size) rs
      → (o : Next) × (copy_window env r hm start
            (start + w)
            (scan u (env.quit_scan r) hm start (start + w) hm.base.volume 0 (blank size))
          ≡ some o)
        × Outcome u env hm start o
  unfolding copy_window
  copy_window-Outcome size w share plenty is_w =
      elim (Option-cases
        (scan u (env.quit_scan r) hm start (start + w) hm.base.volume 0 (blank size))) [
          | inl stopped ↦ (
            _,
            rw (stopped, copy_window) refl,
            disturbed hm.base.file stop_plotting
                (λ c.
                  scan-ne-none u (env.quit_scan r) hm start (start + w) hm.base.volume 0
                    (blank size) (c.no_signal r) stopped)
                before (λ i h. refl),
          )
          | inr (filled, e) ↦ written filled e
        ]
    where
      holds : w * rs ≤ size
      holds = rw is_w (window_size-le size rs v.record_positive)

      asked : 0 < required hm start
      asked = grind arith

      written :
          (filled : MemCache)
          → scan u (env.quit_scan r) hm start (start + w) hm.base.volume 0 (blank size)
            ≡ some filled
          → (o : Next) × (copy_window env r hm start
                (start + w)
                (scan u (env.quit_scan r) hm start (start + w) hm.base.volume 0 (blank size))
              ≡ some o)
            × Outcome u env hm start o
      written filled e =
          let scanned : IsScanned u hm start w v.record_positive v.record_small size filled
              hm.base.volume =
            scan_all u hm start w v.record_positive v.record_small (env.quit_scan r) hm.base.volume
              size filled holds e in
          let (copied, wrote, is_copied) =
            write_to_writer-IsCopied (env.around r) filled 0 dst filled.size hm.base.file
              (omega arith) (omega (arith, scanned.size_is, share.at_least, asked)) in
          (
            after_copy hm start (start + w) copied,
            rw (e, copy_window, wrote) refl,
            copied-Outcome size w holds filled scanned copied is_copied share plenty is_w,
          )

  fill_window-Outcome :
      (m : Result MemCache)
      → Granted (required hm start) (env.available r) m
      → (o : Next) × (fill_window u env r hm start m ≡ some o) × Outcome u env hm start o
  unfolding fill_window
  fill_window-Outcome _ (refused e short) =
      (_, refl, disturbed hm.base.file e (λ c. short (c.memory r)) before (λ i h. refl))
  fill_window-Outcome _ (granted size share plenty) =
      copy_window-Outcome size (window_size (blank size) rs) share (λ c. plenty (c.memory r)) refl

  -- A round always comes to one of these outcomes.
  pub round-Outcome : (o : Next) × (round u env r hm start ≡ some o) × Outcome u env hm start o
  unfolding round
  round-Outcome = fill_window-Outcome _ (
      make_available_memory-Granted (new_mem_cache 0) (required hm start) (env.available r)
        (grind arith))

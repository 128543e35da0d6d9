-- ===== src/MassDb/PrePlot/Work.antt =====
-- The whole of prePlotWork, started at an even record: what it leaves behind, and that it ends.
use mass_net_miner.Common.{
  ℕ, suc, ◌+◌, ◌-◌, ◌*◌, ◌%◌, ◌^◌, ◌≤◌, ◌<◌, ◌≡◌, refl, ◌∙◌, ap, inr, true, false, none, some,
  arith, ltb,
}
use native.Mathlib.Nat.{mul-le-mul_right}
use mass_net_miner.Common.Bytes.{
  read-ext, le_bytes, from_le, length-le_bytes, from_le-le_bytes, read-patch_eq,
}
use mass_net_miner.MassDb.Base.{File, PocUtil}
use mass_net_miner.MassDb.Files.{write_at-effect, write_at-outside, write_at-size}
use mass_net_miner.MassDb.HashMap.{HashMapA, read_checkpoint, update_checkpoint}
use mass_net_miner.MassDb.PrePlot.{
  Env, PlotEnd, ended, go_on, with_file, store_checkpoint, window_size, round, pre_plot_loop,
}
use mass_net_miner.MassDb.PrePlot.Memory.{window_size-bounds, window_size-even, blank, IsShare}
use mass_net_miner.MassDb.PrePlot.Round.{IsMapA, IsFilled, SameHeader, required}

-- A checkpoint written is the checkpoint read.
pub read_checkpoint-store :
    (hm : HashMapA) (c : ℕ) → c < 256 ^ 8 → read_checkpoint (store_checkpoint hm c).base ≡ c
unfolding read_checkpoint store_checkpoint update_checkpoint
read_checkpoint-store hm c small =
    let wrote =
      write_at-effect hm.base.file 42 (le_bytes 8 c) (omega (arith, length-le_bytes 8 c)) in
    rw (wrote.0, read-patch_eq hm.base.file.cells 42 (le_bytes 8 c) 8 (length-le_bytes 8 c))
      (from_le-le_bytes 8 c small)

-- The checkpoint lies in the header, so that no record changes.
pub store_checkpoint-IsFilled :
    (u : PocUtil) (hm : HashMapA) (f : File) (c k : ℕ)
    → IsMapA hm
    → IsFilled u hm f k
    → let hm' = store_checkpoint (with_file hm f) c in IsFilled u hm' hm'.base.file k
unfolding store_checkpoint update_checkpoint
store_checkpoint-IsFilled u hm f c k v fill = record {
  records = λ j h.
      read-ext _ _ (hm.base.offset + j * hm.base.record_size) hm.base.record_size (λ i a b.
        write_at-outside f 42 (le_bytes 8 c) i
          (inr (omega (arith, length-le_bytes 8 c, v.offset_is))))
      ∙ fill.records j h;
  reach = omega (arith, write_at-size f 42 (le_bytes 8 c), fill.reach);
}

pub store_checkpoint-IsMapA :
    (hm : HashMapA) (f : File) (c : ℕ) → IsMapA hm → IsMapA (store_checkpoint (with_file hm f) c)
unfolding store_checkpoint update_checkpoint
store_checkpoint-IsMapA hm f c v = record {
  offset_is = v.offset_is;
  volume_is = v.volume_is;
  halves = v.halves;
  volume_small = v.volume_small;
  record_positive = v.record_positive;
  record_small = v.record_small;
}

-- The two maps differ in the file and the checkpoint at most.
pub record IsSameMap (hm hm' : HashMapA) : Type 0 where
  pub same_half : hm'.half ≡ hm.half
  pub same_volume : hm'.base.volume ≡ hm.base.volume
  pub same_bl : hm'.base.bl ≡ hm.base.bl
  pub same_offset : hm'.base.offset ≡ hm.base.offset
  pub same_record_size : hm'.base.record_size ≡ hm.base.record_size
  pub same_pk_hash : hm'.base.pk_hash ≡ hm.base.pk_hash

-- What the work leaves behind.
pub record IsLeft (u : PocUtil) (hm : HashMapA) (e : PlotEnd) : Type 0 where
  pub same_map : IsSameMap hm e.hm
  pub still_map : IsMapA e.hm
  pub filled : IsFilled u e.hm e.hm.base.file (read_checkpoint e.hm.base)
  pub finished : e.error ≡ none → read_checkpoint e.hm.base ≡ e.hm.base.volume

module _ (u : PocUtil) (env : Env) (fuel r : ℕ) (hm : HashMapA) (start : ℕ) where
  pub loop_done :
      ltb start hm.base.volume ≡ false
      → pre_plot_loop u env (suc fuel) r hm start
        ≡ some (record { hm = store_checkpoint hm hm.base.volume; error = none })
  unfolding pre_plot_loop
  loop_done h = rw (h, pre_plot_loop) refl

  pub loop_ended :
      {e : PlotEnd}
      → ltb start hm.base.volume ≡ true
      → round u env r hm start ≡ some (ended e)
      → pre_plot_loop u env (suc fuel) r hm start ≡ some e
  unfolding pre_plot_loop
  loop_ended h eq = rw (h, pre_plot_loop, eq) refl

  pub loop_go_on :
      {hm' : HashMapA} {next : ℕ}
      → ltb start hm.base.volume ≡ true
      → round u env r hm start ≡ some (go_on hm' next)
      → pre_plot_loop u env (suc fuel) r hm start ≡ pre_plot_loop u env fuel (r + 1) hm' next
  unfolding pre_plot_loop
  loop_go_on h eq = rw (h, pre_plot_loop, eq) refl

-- Where the loop stands: an even record, with all records before it filled.
pub record At (u : PocUtil) (hm : HashMapA) (start : ℕ) : Type 0 where
  pub map : IsMapA hm
  pub filled_before : IsFilled u hm hm.base.file start
  pub even : start % 2 ≡ 0
  pub below : start ≤ hm.base.volume
  pub stored : read_checkpoint hm.base ≤ start

pub IsFilled-le :
    (u : PocUtil) (hm : HashMapA) (f : File) (k c : ℕ)
    → c ≤ k
    → IsFilled u hm f k
    → IsFilled u hm f c
IsFilled-le u hm f k c le fill = record {
  records = λ j h. fill.records j (omega arith);
  reach = omega (arith, mul-le-mul_right hm.base.record_size le, fill.reach);
}

-- The checkpoint of a file with the same header.
pub read_checkpoint-SameHeader :
    (hm : HashMapA) (f : File)
    → IsMapA hm
    → SameHeader hm f
    → read_checkpoint (with_file hm f).base ≡ read_checkpoint hm.base
unfolding read_checkpoint
read_checkpoint-SameHeader hm f v same =
    ap from_le
      (read-ext f.cells hm.base.file.cells 42 8 (λ i a b. same i (omega (arith, v.offset_is))))

pub with_file-IsMapA : (hm : HashMapA) (f : File) → IsMapA hm → IsMapA (with_file hm f)
with_file-IsMapA hm f v = record {
  offset_is = v.offset_is;
  volume_is = v.volume_is;
  halves = v.halves;
  volume_small = v.volume_small;
  record_positive = v.record_positive;
  record_small = v.record_small;
}

pub with_file-IsFilled :
    (u : PocUtil) (hm : HashMapA) (f : File) (k : ℕ)
    → IsFilled u hm f k
    → IsFilled u (with_file hm f) f k
with_file-IsFilled u hm f k fill = record { records = fill.records; reach = fill.reach }

pub volume-store : (hm : HashMapA) (c : ℕ) → (store_checkpoint hm c).base.volume ≡ hm.base.volume
unfolding store_checkpoint update_checkpoint
volume-store hm c = refl

abbrev pub advanced_map : HashMapA → File → ℕ → HashMapA
advanced_map hm f start = store_checkpoint (with_file hm f) (start + 1)

-- The window at `start` that a cache of `size` bytes gives.
abbrev pub window : HashMapA → ℕ → ℕ
window hm size = window_size (blank size) hm.base.record_size

module _ (u : PocUtil) (hm : HashMapA) (start : ℕ) (at : At u hm start) where
  pub left_even : start < hm.base.volume → 2 ≤ hm.base.volume - start
  left_even h = omega (arith, at.map.halves, at.even)

  -- A round that goes on leads to a later even record.
  pub advanced-At :
      (f : File) (size : ℕ)
      → start < hm.base.volume
      → IsShare (required hm start) size
      → IsFilled u hm f (start + window hm size)
      → At u (advanced_map hm f start) (start + window hm size)
        × (start + 2 ≤ start + window hm size)
  advanced-At f size h share fill =
      let bounds =
        window_size-bounds (hm.base.volume - start) size hm.base.record_size at.map.record_positive
          at.map.record_small share in
      let even_window = window_size-even (blank size) hm.base.record_size in
      (
        record {
          map = store_checkpoint-IsMapA hm f (start + 1) at.map;
          filled_before =
              store_checkpoint-IsFilled u hm f (start + 1) (start + window hm size) at.map fill;
          even = omega (arith, at.even, even_window);
          below = rw (volume-store (with_file hm f) (start + 1)) (omega (arith, bounds, h));
          stored =
              rw
                (read_checkpoint-store (with_file hm f) (start + 1)
                  (omega (arith, at.map.volume_small, h)))
                (omega (arith, bounds, left_even h));
        },
        omega (arith, bounds, left_even h),
      )

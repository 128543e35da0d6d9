-- ===== src/MassDb/Plot.antt =====
-- poc/engine/massdb/massdb.v1/plot.go, second half: plotWork fills HashMapB from HashMapA, window by
-- window. What happens around the work is the same argument as that of prePlotWork. Seek does not fail,
-- Sync has no effect on what a read returns. Of the logging there is the division by zero with which
-- it ends the work on a volume below 100.
pub mod Reads
pub mod Displaced
pub mod Scan
pub mod Round
pub mod Work
pub mod Total
pub mod Lookup
pub mod Proven
pub mod Fresh
mod Tests
use mass_net_miner.Common.{
  ℕ, zero, suc, ◌+◌, ◌-◌, ◌*◌, ◌/◌, ◌%◌, Bool, true, false, ◌&&◌, not, [], ◌∷◌, ◌++◌, Option, none,
  some, min, ltb, leb, ◌==◌, if◌then◌else◌, length, take, drop, replicate,
}
use mathlib.Core.Option
use mass_net_miner.Common.Bytes.{Bytes, Cells, read}
use mass_net_miner.MassDb.Base.{DbError, stop_plotting, panicked, Result, ok, err, File, PocUtil}
use mass_net_miner.MassDb.HashMap.{HashMapA, HashMapB, update_checkpoint, read_checkpoint}
use mass_net_miner.MassDb.Cache.{MemCache, Copied, new_mem_cache, cache_write_at, write_to_writer}
use mass_net_miner.MassDb.PrePlot.{
  Env, make_available_memory, max_plot_mem, min_plot_mem, wait_quit_plot_interval,
}

abbrev pub min_map_a_buf_mem : ℕ
min_map_a_buf_mem = 67108864

-- A bufio.Reader: where the file stands behind what was buffered, and how much of that is unread.
pub record BufReader : Type 0 where
  pub position : ℕ
  pub left : ℕ

-- An empty buffer is filled by one Read of the file, which ends at the buffer's size or the file's end.
unfoldable pub fill_buffer : ℕ → File → BufReader → BufReader
fill_buffer buf_size f rd =
    let n = min buf_size (f.size - rd.position) in
    if rd.left == 0 then record { position = rd.position + n; left = n } else rd

-- Read copies what the buffer holds, and no more, over the beginning of `bs`; the rest stays.
unfoldable pub read_buffered : ℕ → File → BufReader → Bytes → Bytes × BufReader
unfolding fill_buffer
read_buffered buf_size f rd bs =
    let full = fill_buffer buf_size f rd in
    let n = min (length bs) full.left in
    (read f.cells (full.position - full.left) n ++ drop n bs, record full { left = full.left - n })

unfoldable pub bytes_equal_zero : Bytes → Bool
bytes_equal_zero [] = true
bytes_equal_zero (b ∷ bs) = (b == 0) && bytes_equal_zero bs

-- The pair goes to the record of F of it when that lies in the window.
unfoldable pub place : PocUtil → HashMapA → ℕ → ℕ → Bytes → Bytes → MemCache → MemCache
place u hm double_start double_end x xp cache =
    let rs = u.bytes_of_bits hm.base.bl in
    let z = u.fb x xp hm.base.bl hm.base.pk_hash in
    let target = (z - double_start) * rs * 2 in
    let first = cache_write_at cache x target in
    let both = cache_write_at first.0 xp (target + rs) in
    if leb double_start z && ltb z double_end then both.0 else cache

-- A pair of records of map A, in both orders, unless one of them is empty.
unfoldable pub place_pair : PocUtil → HashMapA → ℕ → ℕ → Bytes → Bytes → MemCache → MemCache
unfolding place bytes_equal_zero
place_pair u hm double_start double_end x xp cache =
    if not (bytes_equal_zero x) && not (bytes_equal_zero xp)
    then place u hm double_start double_end xp x (place u hm double_start double_end x xp cache)
    else cache

-- The loop over all pairs, `n` of them left, from `y` on; `bs` is what the last Read left. `none` is a
-- stop signal.
pub scan_pairs :
    PocUtil → (ℕ → Bool) → HashMapA → ℕ → ℕ → ℕ → ℕ → BufReader → Bytes → MemCache → Option MemCache
scan_pairs u quit hm double_start double_end zero y rd bs cache = some cache
scan_pairs u quit hm double_start double_end (suc n) y rd bs cache =
    let got = read_buffered min_map_a_buf_mem hm.base.file rd bs in
    let rs = u.bytes_of_bits hm.base.bl in
    let placed = place_pair u hm double_start double_end (take rs got.0) (drop rs got.0) cache in
    let rest = scan_pairs u quit hm double_start double_end n (y + 1) got.1 got.0 placed in
    if (y % wait_quit_plot_interval == 0) && quit y then none else rest

pub record PlotWorkEnd : Type 0 where
  pub hm : HashMapB
  pub error : Option DbError

abbrev pub with_file_b : HashMapB → File → HashMapB
with_file_b hm f = record hm { base = record (hm.base) { file = f } }

-- hmB.checkpoint = c, then UpdateCheckpoint.
unfoldable pub store_checkpoint_b : HashMapB → ℕ → HashMapB
store_checkpoint_b hm c = record hm {
  base = update_checkpoint (record (hm.base) { checkpoint = c });
}

-- The quarters of the cache's records.
unfoldable pub pair_window_size : MemCache → ℕ → ℕ
pair_window_size cache record_size = cache.size / record_size / 4

pub data NextPairs : Type 0 where
  pairs_ended : PlotWorkEnd → NextPairs
  pairs_go_on : HashMapB → ℕ → NextPairs

abbrev pub after_pairs_copy : HashMapB → ℕ → ℕ → Copied → NextPairs
after_pairs_copy hm start end copied = elim (copied.error) [
  | some e ↦ pairs_ended (record { hm = with_file_b hm copied.file; error = some e })
  | none ↦ pairs_go_on (store_checkpoint_b (with_file_b hm copied.file) (start + 1)) end
]

-- The end of a round: the cache goes to the file.
unfoldable pub copy_pairs :
    PocUtil → Env → ℕ → HashMapA → HashMapB → ℕ → ℕ → Option MemCache → Option NextPairs
unfolding store_checkpoint_b
copy_pairs u env r hm_a hm start end none =
    some (pairs_ended (record { hm = hm; error = some stop_plotting }))
copy_pairs u env r hm_a hm start end (some filled) =
    let rs = u.bytes_of_bits hm_a.base.bl in
    Option.map (after_pairs_copy hm start end) (
      write_to_writer (env.around r) filled 0 (hm.base.offset + start * rs * 4) filled.size
        hm.base.file)

unfoldable pub fill_pairs :
    PocUtil → Env → ℕ → HashMapA → HashMapB → ℕ → Result MemCache → Option NextPairs
unfolding pair_window_size copy_pairs
fill_pairs u env r hm_a hm start (err e) = some (pairs_ended (record { hm = hm; error = some e }))
fill_pairs u env r hm_a hm start (ok cache) =
    let rs = u.bytes_of_bits hm_a.base.bl in
    let end = start + pair_window_size cache rs in
    let begun : BufReader = record { position = hm_a.base.offset; left = 0 } in
    copy_pairs u env r hm_a hm start end (
      scan_pairs u (env.quit_scan r) hm_a (start * 2) (end * 2) (hm.base.volume / 2) 0 begun
        (replicate (rs * 2) 0) cache)

-- The body of the loop at `start`, in round `r`. The memory that a round is granted is always new.
unfoldable pub pair_round : PocUtil → Env → ℕ → HashMapA → HashMapB → ℕ → Option NextPairs
unfolding fill_pairs make_available_memory
pair_round u env r hm_a hm start =
    let required = (hm.base.volume / 2 - start) * u.bytes_of_bits hm_a.base.bl * 4 in
    fill_pairs u env r hm_a hm start
      (make_available_memory (new_mem_cache 0) required max_plot_mem min_plot_mem (env.available r))

-- The loop. The first argument is fuel, and `none` means that it ran out.
unfoldable pub plot_loop : PocUtil → Env → ℕ → ℕ → HashMapA → HashMapB → ℕ → Option PlotWorkEnd
plot_loop u env zero r hm_a hm start = none
plot_loop u env (suc fuel) r hm_a hm start = elim (ltb start (hm.base.volume / 2)) [
  | false ↦ some (record { hm = store_checkpoint_b hm (hm.base.volume / 2); error = none })
  | true ↦ elim (pair_round u env r hm_a hm start) [
    | none ↦ none
    | some (pairs_ended e) ↦ some e
    | some (pairs_go_on hm' next) ↦ plot_loop u env fuel (r + 1) hm_a hm' next
  ]
]

-- The log before the loop divides by the interval, and so does the scan, where the divisor is the same.
unfoldable pub plot_work : PocUtil → Env → ℕ → HashMapA → HashMapB → Option PlotWorkEnd
unfolding plot_loop pair_round
plot_work u env fuel hm_a hm =
    let log_checkpoint_interval = hm.base.volume / (50 * 2) in
    let done = plot_loop u env fuel 0 hm_a hm (read_checkpoint hm.base) in
    if log_checkpoint_interval == 0 then some (record { hm = hm; error = some panicked }) else done

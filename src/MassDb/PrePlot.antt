-- ===== src/MassDb/PrePlot.antt =====
-- poc/engine/massdb/massdb.v1/plot.go, first half: prePlotWork fills HashMapA window by window.
-- What happens around the work is an argument: the memory that the system reports in each round, the
-- stop signals that a poll finds, and the disk. Sync has no effect on what a read returns.
-- Of the logging there is the division by zero with which it ends the work on less than 50 records.
pub mod Memory
pub mod Scan
pub mod Round
pub mod Work
pub mod Total
pub mod Lookup
pub mod Fresh
pub mod Endless
use mass_net_miner.Common.{
  ℕ, zero, suc, ◌+◌, ◌-◌, ◌*◌, ◌/◌, ◌%◌, Bool, true, false, ◌&&◌, Option, none, some, ltb, leb,
  ◌==◌, if◌then◌else◌, take,
}
use mathlib.Core.Option
use mass_net_miner.Common.Bytes.{Bytes, le_bytes}
use mass_net_miner.MassDb.Base.{
  DbError, stop_plotting, panicked, memory_not_enough, memory_unknown, Result, ok, err, File,
  PocUtil,
}
use mass_net_miner.MassDb.HashMap.{HashMap, HashMapA, update_checkpoint, read_checkpoint, slot}
use mass_net_miner.MassDb.Cache.{
  MemCache, Around, Copied, new_mem_cache, update, cache_write_at, write_to_writer,
}

-- Round by round: the memory available (`none` when VirtualMemory fails), whether the poll at a
-- position of the scan finds a stop signal, and what surrounds the copy to the file.
pub record Env : Type 0 where
  pub available : ℕ → Option ℕ
  pub quit_scan : ℕ → ℕ → Bool
  pub around : ℕ → Around

abbrev pub max_plot_mem : ℕ
max_plot_mem = 4294967296

abbrev pub min_plot_mem : ℕ
min_plot_mem = 268435456

abbrev pub wait_quit_plot_interval : ℕ
wait_quit_plot_interval = 1048576

abbrev pub grant : MemCache → ℕ → ℕ → Option ℕ → Result MemCache
grant cache required min_mem none = err memory_unknown
grant cache required min_mem (some available) =
    if ltb available required
    then if ltb available min_mem
      then err memory_not_enough
      else ok (update cache (available / min_mem * min_mem))
    else ok (update cache required)

-- The two maps give the same bounds, 4 GiB and 256 MiB.
unfoldable pub make_available_memory : MemCache → ℕ → ℕ → ℕ → Option ℕ → Result MemCache
make_available_memory cache required max_mem min_mem available =
    grant cache (if ltb max_mem required then max_mem else required) min_mem available

-- The records that fit into the cache, an even number.
unfoldable pub window_size : MemCache → ℕ → ℕ
window_size cache record_size = let n = cache.size / record_size in n - n % 2

-- One value of the scan: `x` goes to its record when that lies in the window.
pub scan_value : PocUtil → HashMapA → ℕ → ℕ → ℕ → MemCache → MemCache
scan_value u hm start end x cache =
    let b = hm.base in
    let y = slot u (b.volume / 2) b.bl (u.p x b.bl b.pk_hash) in
    let written =
      cache_write_at cache (take b.record_size (le_bytes 8 x)) ((y - start) * b.record_size) in
    if leb start y && ltb y end then written.0 else cache

-- The loop over all values, `n` of them left, from `x` on. `none` is a stop signal.
pub scan : PocUtil → (ℕ → Bool) → HashMapA → ℕ → ℕ → ℕ → ℕ → MemCache → Option MemCache
scan u quit hm start end zero x cache = some cache
scan u quit hm start end (suc n) x cache =
    let rest = scan u quit hm start end n (x + 1) (scan_value u hm start end x cache) in
    if (x % wait_quit_plot_interval == 0) && quit x then none else rest

pub record PlotEnd : Type 0 where
  pub hm : HashMapA
  pub error : Option DbError

abbrev pub with_file : HashMapA → File → HashMapA
with_file hm f = record hm { base = record (hm.base) { file = f } }

-- hmA.checkpoint = c, then UpdateCheckpoint.
unfoldable pub store_checkpoint : HashMapA → ℕ → HashMapA
store_checkpoint hm c = record hm { base = update_checkpoint (record (hm.base) { checkpoint = c }) }

-- What a round hands on: the work has ended, or goes on at a later record.
pub data Next : Type 0 where
  ended : PlotEnd → Next
  go_on : HashMapA → ℕ → Next

abbrev pub after_copy : HashMapA → ℕ → ℕ → Copied → Next
after_copy hm start end copied = elim (copied.error) [
  | some e ↦ ended (record { hm = with_file hm copied.file; error = some e })
  | none ↦ go_on (store_checkpoint (with_file hm copied.file) (start + 1)) end
]

-- The end of a round: the cache goes to the file. `none`: the copy ran out of fuel, which it never
-- does (`Cache.Copy`).
pub copy_window : Env → ℕ → HashMapA → ℕ → ℕ → Option MemCache → Option Next
unfolding store_checkpoint
copy_window env r hm start end none = some (ended (record { hm = hm; error = some stop_plotting }))
copy_window env r hm start end (some filled) =
    let b = hm.base in
    Option.map (after_copy hm start end) (
      write_to_writer (env.around r) filled 0 (b.offset + start * b.record_size) filled.size b.file)

unfoldable pub fill_window : PocUtil → Env → ℕ → HashMapA → ℕ → Result MemCache → Option Next
unfolding window_size copy_window
fill_window u env r hm start (err e) = some (ended (record { hm = hm; error = some e }))
fill_window u env r hm start (ok cache) =
    let b = hm.base in
    let end = start + window_size cache b.record_size in
    copy_window env r hm start end (scan u (env.quit_scan r) hm start end b.volume 0 cache)

-- The body of the loop at `start`, in round `r`. The memory that a round is granted is always new.
unfoldable pub round : PocUtil → Env → ℕ → HashMapA → ℕ → Option Next
unfolding fill_window make_available_memory
round u env r hm start =
    let b = hm.base in
    fill_window u env r hm start (
      make_available_memory (new_mem_cache 0) ((b.volume - start) * b.record_size) max_plot_mem
        min_plot_mem (env.available r))

-- The loop. The first argument is fuel, and `none` means that it ran out.
unfoldable pub pre_plot_loop : PocUtil → Env → ℕ → ℕ → HashMapA → ℕ → Option PlotEnd
pre_plot_loop u env zero r hm start = none
pre_plot_loop u env (suc fuel) r hm start = elim (ltb start hm.base.volume) [
  | false ↦ some (record { hm = store_checkpoint hm hm.base.volume; error = none })
  | true ↦ elim (round u env r hm start) [
    | none ↦ none
    | some (ended e) ↦ some e
    | some (go_on hm' next) ↦ pre_plot_loop u env fuel (r + 1) hm' next
  ]
]

-- The log before the loop divides by the interval, and so does the scan, where the divisor is the same.
unfoldable pub pre_plot_work : PocUtil → Env → ℕ → HashMapA → Option PlotEnd
unfolding pre_plot_loop round
pre_plot_work u env fuel hm =
    let log_checkpoint_interval = hm.base.volume / 50 in
    let done = pre_plot_loop u env fuel 0 hm (read_checkpoint hm.base) in
    if log_checkpoint_interval == 0 then some (record { hm = hm; error = some panicked }) else done

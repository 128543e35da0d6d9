-- ===== src/MassDb/Cache.antt =====
-- poc/engine/massdb/massdb.v1/cache.go: the memory that a plot works in.
pub mod Copy
pub mod Records
use mass_net_miner.Common.{
  ℕ, zero, suc, ◌+◌, ◌-◌, Bool, true, false, ◌||◌, Option, none, some, min, ltb, leb, if◌then◌else◌,
  length, take,
}
use mass_net_miner.Common.Bytes.{Bytes, Cells, read, patch}
use mass_net_miner.MassDb.Base.{DbError, stop_plotting, io_error, eof, File, read_at, write_at}

-- `data` is the `size` bytes that the slice holds; what lies past them is never read.
pub record MemCache : Type 0 where
  pub size : ℕ
  pub cells : Cells

unfoldable pub new_mem_cache : ℕ → MemCache
new_mem_cache size = record { size = size; cells = λ _. 0 }

-- A new slice of zeros.
unfoldable pub update : MemCache → ℕ → MemCache
update cache size = record { size = size; cells = λ _. 0 }

unfoldable pub release : MemCache → MemCache
release cache = record { size = 0; cells = λ _. 0 }

-- WriteAt and ReadAt return the bytes moved and whether they gave io.EOF.
unfoldable pub cache_write_at : MemCache → Bytes → ℕ → MemCache × ℕ × Bool
cache_write_at cache buf offset =
    let eof_seen = ltb cache.size (offset + length buf) in
    let part = take (cache.size - offset) buf in
    if leb cache.size offset
    then (cache, 0, eof_seen)
    else (record cache { cells = patch cache.cells offset part }, length part, eof_seen)

unfoldable pub cache_read_at : MemCache → ℕ → ℕ → Bytes × Bool
cache_read_at cache n offset =
    let eof_seen = ltb cache.size (offset + n) in
    if leb cache.size offset
    then (read cache.cells offset 0, eof_seen)
    else (read cache.cells offset (min n (cache.size - offset)), eof_seen)

abbrev pub mem_cache_write_block_size : ℕ
mem_cache_write_block_size = 268435456

-- What happens around the copy: whether the quit channel has a signal when `count` bytes are
-- written, and the disk, which completes the write at `count` or fails after some bytes.
pub record Around : Type 0 where
  pub quit : ℕ → Bool
  pub disk : ℕ → Option ℕ

pub record Copied : Type 0 where
  pub file : File
  pub n : ℕ
  pub error : Option DbError

module _ (around : Around) (cache : MemCache) (src_start dst_start len : ℕ) where
  -- The loop of WriteToWriter. The first argument is fuel, and `none` means that it ran out.
  pub copy_blocks : ℕ → ℕ → File → Option Copied
  copy_blocks zero count w = none
  copy_blocks (suc fuel) count w =
      let buf_size = min mem_cache_write_block_size (len - count) in
      let block = read cache.cells (src_start + count) buf_size in
      let rest = copy_blocks fuel (count + buf_size) (write_at w (dst_start + count) block) in
      if ltb count len
      then if around.quit count
        then some (record { file = w; n = count; error = some stop_plotting })
        else elim (around.disk count) [
          | some n ↦ some (record {
            file = write_at w (dst_start + count) (take n block);
            n = count + length (take n block);
            error = some io_error;
          })
          | none ↦ rest
        ]
      else some (record { file = w; n = count; error = none })

  unfoldable pub write_to_writer : File → Option Copied
  unfolding copy_blocks
  write_to_writer w =
      if ltb cache.size (src_start + len) || leb cache.size src_start
      then some (record { file = w; n = 0; error = some eof })
      else copy_blocks (suc len) 0 w

unfoldable pub read_from_reader : MemCache → File → ℕ → ℕ → ℕ → MemCache × ℕ × Bool
read_from_reader cache r src_start dst_start len =
    let eof_seen = ltb cache.size (dst_start + len) in
    let got = read_at r src_start len in
    if leb cache.size dst_start
    then (cache, 0, eof_seen)
    else (record cache { cells = patch cache.cells dst_start got }, length got, eof_seen)

-- ===== src/MassDb/Plot/Tests.antt =====
-- Two records of map A plotted, and a map A whose pairs the buffer cuts.
use mass_net_miner.Common.{
  ℕ, ◌+◌, ◌*◌, ◌^◌, ◌<◌, ◌≡◌, refl, inr, false, ◌++◌, drop, none, some, arith, ◌==◌, if◌then◌else◌,
  replicate,
}
use mass_net_miner.Common.Bytes.{Bytes, read, from_le}
use mass_net_miner.MassDb.Base.{File, ok, ◌>>=◌}
use mass_net_miner.MassDb.HashMap.{
  HashMapA, HashMapB, hash_map_a, hash_map_b, map_a, map_b, create_map_file, load, get_b,
  read_checkpoint,
}
use mass_net_miner.MassDb.PrePlot.{PlotEnd, pre_plot_work}
use mass_net_miner.MassDb.PrePlot.Round.{IsCalm}
use mass_net_miner.MassDb.Plot.Proven.{Proven}
use mass_net_miner.MassDb.Plot.Fresh.{plot_new_maps}
use mass_net_miner.MassDb.Plot.{BufReader, PlotWorkEnd, scan_pairs, plot_work}
use mass_net_miner.MassDb.Plot.Displaced.{place_read, placed_pairs, scan_pairs-displaced}
use mass_net_miner.MassDb.Cache.{MemCache, new_mem_cache}
use mass_net_miner.MassDb.Plot.Round.{IsMapB, IsPlotted}
use mass_net_miner.MassDb.Plot.Total.{IsLeftB, plot_work-ends}
use mass_net_miner.MassDb.Plot.Lookup.{Found, get_b-plot_work}
use mass_net_miner.MassDb.Tests.{tiny, tiny-Documented, key, key-IsKey, calm, calm-IsCalm}

-- Two records, 1 and 2, and 126 empty ones.
abbrev source : HashMapA
source = record {
  base = record {
    file = record {
      size = 4096 + 128;
      cells = λ i. if i == 4096 then 1 else if i == 4097 then 2 else 0;
    };
    bl = 7;
    volume = 128;
    checkpoint = 128;
    offset = 4096;
    step = 1;
    record_size = 1;
    pk = key;
    pk_hash = replicate 32 7;
  };
  half = 64;
}

abbrev target : HashMapB
target = record {
  base = record {
    file = record { size = 4096; cells = λ i. 0 };
    bl = 7;
    volume = 128;
    checkpoint = 0;
    offset = 4096;
    step = 2;
    record_size = 1;
    pk = key;
    pk_hash = replicate 32 7;
  };
}

target-IsMapB : IsMapB tiny source target
target-IsMapB = record {
  offset_is = refl;
  volume_small = omega arith;
  record_positive = omega arith;
  record_small = omega arith;
  same_size = refl;
  reach_a = omega arith;
  whole_reads = inr (omega arith);
}

target_checkpoint : read_checkpoint target.base ≡ 0
unfolding read_checkpoint read from_le
target_checkpoint = refl

target_begun : IsPlotted tiny source target target.base.file (read_checkpoint target.base * 4)
target_begun =
    rw target_checkpoint (record { halves = λ j h. absurd (omega arith); reach = omega arith })

plot_work-ends_example :
    (e : PlotWorkEnd) × (plot_work tiny calm 65 source target ≡ some e)
    × IsLeftB tiny source target e
    × (IsCalm calm → e.error ≡ none)
plot_work-ends_example =
    plot_work-ends tiny calm source target 65 target-IsMapB (rw target_checkpoint (omega arith))
      target_begun (omega arith) (omega arith)

get_b-plot_work_example :
    (e : PlotWorkEnd) × (plot_work tiny calm 65 source target ≡ some e)
    × (e.error ≡ none)
    × ((key : ℕ)
        → key < 128
        → (pair : Bytes × Bytes) × (get_b e.hm key ≡ ok pair) × Found tiny source 64 key pair)
get_b-plot_work_example =
    get_b-plot_work tiny calm source target 65 target-IsMapB (rw target_checkpoint (omega arith))
      target_begun (omega arith) (omega arith) calm-IsCalm

-- Map A of bit length 34 has records of 5 bytes.
abbrev large_file : File
large_file = record { size = 4096 + 85899345920; cells = λ i. i }

abbrev large : HashMapA
large = record {
  base = record {
    file = large_file;
    bl = 34;
    volume = 17179869184;
    checkpoint = 17179869184;
    offset = 4096;
    step = 1;
    record_size = 5;
    pk = key;
    pk_hash = replicate 32 7;
  };
  half = 8589934592;
}

abbrev small_cache : MemCache
small_cache = new_mem_cache 40

scan_pairs-displaced_example :
    let cut = read large_file.cells 67112956 4 ++ drop 4 (read large_file.cells 67112946 10) in
    let displaced = read large_file.cells 67112960 10 in
    (rd : BufReader) × ((m : ℕ)
      → scan_pairs tiny
          (λ y. false)
          large
          0
          4
          (6710888 + m)
          0
          (record { position = 4096; left = 0 })
          (replicate 10 0)
          small_cache
        ≡ scan_pairs tiny
            (λ y. false)
            large
            0
            4
            m
            6710888
            rd
            displaced
            (place_read tiny large 0 4 displaced
              (place_read tiny large 0 4 cut (placed_pairs tiny large 0 4 small_cache 6710886))))
scan_pairs-displaced_example =
    scan_pairs-displaced tiny (λ y. false) large 0 4 small_cache 6710885 4 (λ y. refl) (omega arith)
      (omega arith) refl (omega arith)

plot_new_maps_example :
    (hm_a : HashMapA) × (hm_b : HashMapB) × (a : PlotEnd) × (b : PlotWorkEnd) × ((create_map_file
          tiny none hash_map_a 24 key
        >>= λ f. load tiny (some f))
      ≡ ok (map_a hm_a))
    × ((create_map_file tiny none hash_map_b 24 key >>= λ f. load tiny (some f)) ≡ ok (map_b hm_b))
    × (pre_plot_work tiny calm (2 ^ 24 + 1) hm_a ≡ some a)
    × (a.error ≡ none)
    × (plot_work tiny calm (2 ^ 24) a.hm hm_b ≡ some b)
    × (b.error ≡ none)
    × ((z : ℕ)
        → z < 2 ^ 24
        → (pair : Bytes × Bytes) × (get_b b.hm z ≡ ok pair) × Proven tiny a.hm z pair)
plot_new_maps_example =
    plot_new_maps tiny tiny-Documented 24 key key-IsKey (omega arith) (omega arith) calm calm
      (omega arith) calm-IsCalm calm-IsCalm

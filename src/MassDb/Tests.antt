-- ===== src/MassDb/Tests.antt =====
-- Small maps, and the theorems of MassDb at them.
use native.Mathlib.Nat.{mod-lt, one-le-pow}
use mass_net_miner.Common.{
  ℕ, zero, suc, ◌+◌, ◌-◌, ◌*◌, ◌/◌, ◌%◌, ◌^◌, ◌<◌, ◌≡◌, ◌≢◌, refl, ◌⊎◌, false, ◌∷◌, none, some,
  arith, ◌==◌, if◌then◌else◌, replicate,
}
use mass_net_miner.Common.Bytes.{Bytes, read, le_bytes, from_le}
use mass_net_miner.MassDb.Base.{PocUtil, Documented, IsKey, File, ok, ◌>>=◌, memory_unknown}
use mass_net_miner.MassDb.HashMap.{
  HashMapA, hash_map_a, hash_map_b, map_a, map_b, create_map_file, load, slot, get_a,
  read_checkpoint,
}
use mass_net_miner.MassDb.HashMap.Header.{load-create_map_file, fresh_map}
use mass_net_miner.MassDb.PrePlot.{Env, PlotEnd, max_plot_mem, pre_plot_work}
use mass_net_miner.MassDb.PrePlot.Scan.{content, last_value}
use mass_net_miner.MassDb.PrePlot.Round.{IsMapA, IsFilled, IsCalm}
use mass_net_miner.MassDb.PrePlot.Work.{IsLeft}
use mass_net_miner.MassDb.PrePlot.Total.{pre_plot_work-IsLeft, pre_plot_work-ends}
use mass_net_miner.MassDb.PrePlot.Lookup.{preimage, get_a-pre_plot_work}
use mass_net_miner.MassDb.PrePlot.Fresh.{pre_plot_new_map}
use mass_net_miner.MassDb.PrePlot.Endless.{pre_plot_work_odd, pre_plot_work_stopped}

abbrev pub tiny : PocUtil
tiny = record {
  bytes_of_bits = λ bl. (bl + 7) / 8;
  flip_value = λ v bl. 2 ^ bl - 1 - v;
  p = λ x bl h. (x * 3 + 1) % 2 ^ bl;
  fb = λ x y bl h. (from_le x + from_le y) % 2 ^ bl;
  cut_hash = λ h bl. from_le h % 2 ^ bl;
  pub_key_hash = λ pk. replicate 32 7;
  parse_pub_key = λ bs. some bs;
}

pub tiny-Documented : Documented tiny
tiny-Documented = record {
  bytes_of_bits_lem = λ bl. refl;
  flip_value_lem = λ v bl h. omega arith;
  p-lt = λ x bl h. mod-lt _ (one-le-pow bl 2 (omega arith));
  fb-lt = λ x y bl h. mod-lt _ (one-le-pow bl 2 (omega arith));
  length-pub_key_hash = λ pk. refl;
}

abbrev pub key : Bytes
key = 2 ∷ replicate 32 5

pub key-IsKey : IsKey tiny key
key-IsKey = record { parses = refl; length_33 = refl }

abbrev pub calm : Env
calm = record {
  available = λ r. some max_plot_mem;
  quit_scan = λ r x. false;
  around = λ r. record { quit = λ c. false; disk = λ c. none };
}

pub calm-IsCalm : IsCalm calm
calm-IsCalm = record {
  memory = λ r. (max_plot_mem, refl, omega arith);
  no_signal = λ r x. refl;
  no_stop = λ r c. refl;
  disk_works = λ r c. refl;
}

-- VirtualMemory fails.
abbrev blind : Env
blind = record {
  available = λ r. none;
  quit_scan = λ r x. false;
  around = λ r. record { quit = λ c. false; disk = λ c. none };
}

-- A map of 128 records with a given file.
abbrev with_cells : File → HashMapA
with_cells f = record {
  base = record {
    file = f;
    bl = 7;
    volume = 128;
    checkpoint = 0;
    offset = 4096;
    step = 1;
    record_size = 1;
    pk = key;
    pk_hash = replicate 32 7;
  };
  half = 64;
}

abbrev bare : HashMapA
bare = with_cells (record { size = 4096; cells = λ i. 0 })

bare-IsMapA : IsMapA bare
bare-IsMapA = omega arith

bare_checkpoint : read_checkpoint bare.base ≡ 0
unfolding read_checkpoint read from_le
bare_checkpoint = refl

bare_begun : IsFilled tiny bare bare.base.file (read_checkpoint bare.base)
bare_begun =
    rw bare_checkpoint (record { records = λ j h. absurd (omega arith); reach = omega arith })

-- The same map stopped behind its first record: the checkpoint is 1, and the record 0 is there.
abbrev stopped : HashMapA
stopped =
    with_cells
      (record { size = 4097; cells = λ i. if i == 42 then 1 else if i == 4096 then 85 else 0 })

stopped-IsMapA : IsMapA stopped
stopped-IsMapA = omega arith

stopped_checkpoint : read_checkpoint stopped.base ≡ 1
unfolding read_checkpoint read from_le
stopped_checkpoint = refl

stopped_first :
    read stopped.base.file.cells 4096 1
    ≡ content 1 (last_value (λ x. slot tiny 64 7 ((x * 3 + 1) % 128)) 128 0)
unfolding read content last_value slot le_bytes
stopped_first = refl

stopped_begun : IsFilled tiny stopped stopped.base.file (read_checkpoint stopped.base)
stopped_begun = rw stopped_checkpoint (record { records = first; reach = omega arith })
  where
    first :
        (j : ℕ)
        → j < 1
        → read stopped.base.file.cells (4096 + j * 1) 1
          ≡ content 1 (last_value (λ x. slot tiny 64 7 ((x * 3 + 1) % 128)) 128 j)
    first zero h = stopped_first
    first (suc j) h = absurd (omega arith)

load-create_map_file_example :
    ((create_map_file tiny none hash_map_a 2 key >>= λ f. load tiny (some f))
      ≡ ok (map_a (record { base = fresh_map tiny hash_map_a 2 key 1; half = 2 })))
    × ((create_map_file tiny none hash_map_b 2 key >>= λ f. load tiny (some f))
        ≡ ok (map_b (record { base = fresh_map tiny hash_map_b 2 key 2 })))
load-create_map_file_example =
    load-create_map_file tiny tiny-Documented 2 key key-IsKey (omega arith)

pre_plot_new_map_example :
    (hm : HashMapA) × (e : PlotEnd) × ((create_map_file tiny none hash_map_a 24 key >>= λ f.
    load tiny (some f))
      ≡ ok (map_a hm))
    × (pre_plot_work tiny calm (2 ^ 24 + 1) hm ≡ some e)
    × (e.error ≡ none)
    × ((y : ℕ) → y < 2 ^ 24 → get_a tiny e.hm y ≡ ok (content 3 (preimage tiny hm y)))
pre_plot_new_map_example =
    pre_plot_new_map tiny tiny-Documented 24 key key-IsKey (omega arith) (omega arith) calm
      (omega arith) calm-IsCalm

bare_run : (e : PlotEnd) × (pre_plot_work tiny calm 130 bare ≡ some e) × (e.error ≡ none)
bare_run =
    pre_plot_work-ends tiny calm bare bare-IsMapA (rw bare_checkpoint (omega arith))
      (rw bare_checkpoint refl) bare_begun 130 calm-IsCalm (omega arith) (omega arith)

pre_plot_work-ends_example :
    (e : PlotEnd) × (pre_plot_work tiny calm 129 bare ≡ some e) × (e.error ≡ none)
pre_plot_work-ends_example =
    pre_plot_work-ends tiny calm bare bare-IsMapA (rw bare_checkpoint (omega arith))
      (rw bare_checkpoint refl) bare_begun 129 calm-IsCalm (omega arith) (omega arith)

pre_plot_work-IsLeft_example : IsLeft tiny bare bare_run.0
pre_plot_work-IsLeft_example =
    pre_plot_work-IsLeft tiny calm bare bare-IsMapA (rw bare_checkpoint (omega arith))
      (rw bare_checkpoint refl) bare_begun 130 bare_run.0 bare_run.1

get_a-pre_plot_work_example : get_a tiny bare_run.0.hm 100 ≡ ok (content 1 (preimage tiny bare 100))
get_a-pre_plot_work_example =
    get_a-pre_plot_work tiny tiny-Documented calm 130 bare bare_run.0 bare-IsMapA
      (rw bare_checkpoint (omega arith)) (rw bare_checkpoint refl) bare_begun bare_run.1 bare_run.2
      100 (omega arith)

pre_plot_work_odd_example :
    ((e : PlotEnd) → pre_plot_work tiny calm 9 stopped ≡ some e → e.error ≢ none)
    × (IsCalm calm → pre_plot_work tiny calm 9 stopped ≡ none)
pre_plot_work_odd_example =
    pre_plot_work_odd tiny calm stopped stopped-IsMapA (rw stopped_checkpoint refl)
      (rw stopped_checkpoint (omega arith)) stopped_begun (omega arith) 9

blind_run :
    pre_plot_work tiny blind 1 bare ≡ some (record { hm = bare; error = some memory_unknown })
unfolding pre_plot_work read_checkpoint read from_le
blind_run = refl

pre_plot_work_stopped_example :
    (read_checkpoint bare.base ≡ read_checkpoint bare.base)
    ⊎ ((read_checkpoint bare.base % 2 ≡ 1) × (read_checkpoint bare.base < 128))
pre_plot_work_stopped_example =
    pre_plot_work_stopped tiny blind bare bare-IsMapA (rw bare_checkpoint (omega arith))
      (rw bare_checkpoint refl) bare_begun 1 (record { hm = bare; error = some memory_unknown })
      blind_run (λ e. cc)

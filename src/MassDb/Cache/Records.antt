-- ===== src/MassDb/Cache/Records.antt =====
-- Records in the cache: a write of one record, inside the cache.
use mass_net_miner.Common.{
  ℕ, ◌+◌, ◌-◌, ◌*◌, ◌≤◌, ◌<◌, ◌≡◌, ◌≢◌, refl, arith, lt→leb, length, take, take-all,
}
use mass_net_miner.Common.Bytes.{Bytes, patch}
use mass_net_miner.MassDb.HashMap.Records.{
  record_of, rows-le, record_of-patch_self, record_of-patch_ne,
}
use mass_net_miner.MassDb.Cache.{MemCache, cache_write_at}

module _ (cache : MemCache) (rs w : ℕ) (holds : w * rs ≤ cache.size) (pos : 0 < rs) (bs : Bytes)
    (sized : length bs ≡ rs) (t : ℕ) (inside : t < w) where
  cache_write_at-is :
      (cache_write_at cache bs (t * rs)).0
      ≡ record cache { cells = patch cache.cells (0 + t * rs) bs }
  unfolding cache_write_at
  cache_write_at-is =
      let row : t * rs + rs ≤ cache.size = omega (arith, rows-le rs t w inside) in
      let whole : take (cache.size - t * rs) bs ≡ bs = take-all _ bs (omega arith) in
      let z : 0 + t * rs ≡ t * rs = omega arith in
      rw (lt→leb (t * rs) cache.size (omega arith), whole, z) refl

  pub cache_write_at-size : (cache_write_at cache bs (t * rs)).0.size ≡ cache.size
  cache_write_at-size = rw cache_write_at-is

  pub cache_write_at_self : record_of (cache_write_at cache bs (t * rs)).0.cells 0 rs t ≡ bs
  cache_write_at_self = rw cache_write_at-is (record_of-patch_self cache.cells 0 rs bs sized t)

  pub cache_write_at-ne :
      (s : ℕ)
      → t ≢ s
      → record_of (cache_write_at cache bs (t * rs)).0.cells 0 rs s ≡ record_of cache.cells 0 rs s
  cache_write_at-ne s ne =
      rw cache_write_at-is (record_of-patch_ne cache.cells 0 rs bs sized t s ne)

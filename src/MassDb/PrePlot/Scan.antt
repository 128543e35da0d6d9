-- ===== src/MassDb/PrePlot/Scan.antt =====
-- One scan over all values leaves in each record of the window the last value that maps to it.
use mass_net_miner.Common.{
  ℕ, zero, suc, ◌+◌, ◌-◌, ◌*◌, ◌/◌, ◌≤◌, ◌<◌, ◌≡◌, ◌≢◌, refl, ◌∙◌, ap, subst, inl, inr, Bool, false,
  Option, none, some, arith, ltb, leb, ◌==◌, ◌&&◌, if◌then◌else◌, length, take, replicate,
  Bool-cases, length-take-of_le,
}
use mathlib.Core.Option.{some-injective}
use native.Mathlib.Numerals.{add-one}
use mass_net_miner.Common.Bytes.{Bytes, le_bytes, length-le_bytes, read-zeros}
use mass_net_miner.MassDb.Base.{PocUtil}
use mass_net_miner.MassDb.HashMap.{HashMapA, slot}
use mass_net_miner.MassDb.HashMap.Records.{record_of}
use mass_net_miner.MassDb.Cache.{MemCache, cache_write_at}
use mass_net_miner.MassDb.Cache.Records.{
  cache_write_at-size, cache_write_at_self, cache_write_at-ne,
}
use mass_net_miner.MassDb.PrePlot.{scan_value, scan}

-- The last of the values below `n` that `f` maps to `k`.
unfoldable pub last_value : (ℕ → ℕ) → ℕ → ℕ → Option ℕ
last_value f zero k = none
last_value f (suc n) k = if f n == k then some n else last_value f n k

-- A record: the value in little-endian bytes, or zeros.
unfoldable pub content : ℕ → Option ℕ → Bytes
content rs none = replicate rs 0
content rs (some x) = take rs (le_bytes 8 x)

-- The record that the value `x` goes to.
abbrev pub record_index : PocUtil → HashMapA → ℕ → ℕ
record_index u hm x = let b = hm.base in slot u (b.volume / 2) b.bl (u.p x b.bl b.pk_hash)

module _ (u : PocUtil) (hm : HashMapA) (start w : ℕ) (pos : 0 < hm.base.record_size)
    (small : hm.base.record_size ≤ 8) where
  abbrev rs : ℕ
  rs = hm.base.record_size

  -- The values below `x` have been scanned.
  pub record IsScanned (size : ℕ) (cache : MemCache) (x : ℕ) : Type 0 where
    pub size_is : cache.size ≡ size
    pub records :
        (t : ℕ)
        → t < w
        → record_of cache.cells 0 rs t ≡ content rs (last_value (record_index u hm) x (start + t))

  scan_value-IsScanned :
      (size : ℕ) (cache : MemCache) (x : ℕ)
      → w * rs ≤ size
      → IsScanned size cache x
      → IsScanned size (scan_value u hm start (start + w) x cache) (suc x)
  unfolding scan_value last_value content
  scan_value-IsScanned size cache x holds s = elim (Bool-cases (leb start y && ltb y (start + w))) [
    | inl hit ↦ rw hit (written (y - start) (ground arith) (ground arith))
    | inr miss ↦ rw miss (record {
      size_is = s.size_is;
      records = λ t h. s.records t h ∙ ap (content rs) (ground arith);
    })
  ]
    where
      y : ℕ
      y = record_index u hm x

      bs : Bytes
      bs = take rs (le_bytes 8 x)

      sized : length bs ≡ rs
      sized = length-take-of_le rs (le_bytes 8 x) (omega (arith, length-le_bytes 8 x))

      written :
          (t : ℕ)
          → t < w
          → start + t ≡ y
          → IsScanned size (cache_write_at cache bs (t * rs)).0 (suc x)
      written t inside at_y = record {
        size_is =
            cache_write_at-size cache rs w (omega (arith, s.size_is)) pos bs sized t inside
            ∙ s.size_is;
        records = λ k h. elim (Bool-cases (t == k)) [
          | inl same ↦ ground (
            arith,
            cache_write_at_self cache rs w (omega (arith, s.size_is)) pos bs sized t inside,
          )
          | inr other ↦
              cache_write_at-ne cache rs w (omega (arith, s.size_is)) pos bs sized t inside k
                (ground arith)
              ∙ s.records k h
              ∙ ap (content rs) (ground arith)
        ];
      }

  abbrev blank : ℕ → MemCache
  blank size = record { size = size; cells = λ _. 0 }

  zeros :
      (size t : ℕ)
      → record_of (blank size).cells 0 rs t
        ≡ content rs (last_value (record_index u hm) 0 (start + t))
  unfolding content last_value
  zeros size t = read-zeros (0 + t * rs) rs

  scan-IsScanned :
      (size : ℕ) (quit : ℕ → Bool) (n x : ℕ) (cache filled : MemCache)
      → w * rs ≤ size
      → IsScanned size cache x
      → scan u quit hm start (start + w) n x cache ≡ some filled
      → IsScanned size filled (x + n)
  unfolding scan
  scan-IsScanned size quit zero x cache filled holds s e =
      let z : x + 0 ≡ x = omega arith in
      rw z (subst (λ c. IsScanned size c x) (some-injective _ _ e) s)
  scan-IsScanned size quit (suc n) x cache filled holds s e =
      let z : x + suc n ≡ x + 1 + n = omega arith in
      let next : IsScanned size (scan_value u hm start (start + w) x cache) (x + 1) =
        rw add-one (scan_value-IsScanned size cache x holds s) in
      rw z (
        scan-IsScanned size quit n (x + 1) (scan_value u hm start (start + w) x cache) filled holds
          next (ground arith))

  -- The scan of a new cache.
  pub scan_all :
      (quit : ℕ → Bool) (volume size : ℕ) (filled : MemCache)
      → w * rs ≤ size
      → scan u quit hm start (start + w) volume 0 (blank size) ≡ some filled
      → IsScanned size filled volume
  scan_all quit volume size filled holds e =
      let z : 0 + volume ≡ volume = omega arith in
      rw z at (scan-IsScanned size quit volume 0 _ filled holds empty e)
    where
      empty : IsScanned size (blank size) 0
      empty = record { size_is = refl; records = λ t h. zeros size t }

-- Without a signal the scan comes to its end.
pub scan-ne-none :
    (u : PocUtil) (quit : ℕ → Bool) (hm : HashMapA) (start end n x : ℕ) (cache : MemCache)
    → ((k : ℕ) → quit k ≡ false)
    → scan u quit hm start end n x cache ≢ none
unfolding scan
scan-ne-none u quit hm start end zero x cache calm e = cc
scan-ne-none u quit hm start end (suc n) x cache calm e =
    scan-ne-none u quit hm start end n (x + 1) (scan_value u hm start end x cache) calm
      (ground (arith, calm x))

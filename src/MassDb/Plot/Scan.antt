-- ===== src/MassDb/Plot/Scan.antt =====
-- One scan of map A leaves in each record of the window the last pair that F maps to it.
use mass_net_miner.Common.{
  ℕ, zero, suc, ◌+◌, ◌-◌, ◌*◌, ◌≤◌, ◌<◌, ◌≡◌, ◌≢◌, refl, sym, ◌∙◌, ap, subst, ◌⊎◌, inl, inr, Bool,
  true, false, not, ◌&&◌, none, some, min, arith, ltb, leb, ◌==◌, if◌then◌else◌, length, take, drop,
  replicate, Bool-cases, length-replicate,
}
use mathlib.Core.Option.{some-injective}
use mass_net_miner.Common.Bytes.{Bytes, read, length-read, take-read, drop-read, read-zeros}
use mass_net_miner.MassDb.Base.{PocUtil}
use mass_net_miner.MassDb.HashMap.{HashMapA}
use mass_net_miner.MassDb.HashMap.Records.{record_of, rows-le}
use mass_net_miner.MassDb.Cache.{MemCache, cache_write_at}
use mass_net_miner.MassDb.Cache.Records.{
  cache_write_at-size, cache_write_at_self, cache_write_at-ne,
}
use mass_net_miner.MassDb.PrePlot.Memory.{blank}
use mass_net_miner.MassDb.Plot.{
  BufReader, bytes_equal_zero, place, place_pair, read_buffered, scan_pairs, min_map_a_buf_mem,
}
use mass_net_miner.MassDb.Plot.Reads.{Pairs, Stands, read_buffered-Stands}

abbrev pub size_of : PocUtil → HashMapA → ℕ
size_of u hm = u.bytes_of_bits hm.base.bl

-- The records of map A, one after the other.
abbrev pub entry : PocUtil → HashMapA → ℕ → Bytes
entry u hm c = record_of hm.base.file.cells hm.base.offset (size_of u hm) c

abbrev pub f_of : PocUtil → HashMapA → Bytes → Bytes → ℕ
f_of u hm x xp = u.fb x xp hm.base.bl hm.base.pk_hash

-- The last of the first n pairs of map A, in either order, that F maps to k. Pairs with an empty record
-- do not count, and no pair is two empty records.
unfoldable pub last_pair : PocUtil → HashMapA → ℕ → ℕ → Bytes × Bytes
unfolding bytes_equal_zero
last_pair u hm zero k = (replicate (size_of u hm) 0, replicate (size_of u hm) 0)
last_pair u hm (suc n) k =
    let before = last_pair u hm n k in
    let x = entry u hm (n * 2) in
    let xp = entry u hm (n * 2 + 1) in
    if not (bytes_equal_zero x) && not (bytes_equal_zero xp)
    then if f_of u hm xp x == k then (xp, x) else if f_of u hm x xp == k then (x, xp) else before
    else before

module _ (u : PocUtil) (hm : HashMapA) (start w : ℕ) (pos : 0 < size_of u hm) where
  abbrev rs : ℕ
  rs = size_of u hm

  -- The cache holds the pairs of a function.
  pub record Holds (size : ℕ) (cache : MemCache) (f : ℕ → Bytes × Bytes) : Type 0 where
    pub size_is : cache.size ≡ size
    pub first : (t : ℕ) → t < w → record_of cache.cells 0 rs (t * 2) ≡ (f t).0
    pub second : (t : ℕ) → t < w → record_of cache.cells 0 rs (t * 2 + 1) ≡ (f t).1

  abbrev placed : ℕ → Bytes → Bytes → (ℕ → Bytes × Bytes) → ℕ → Bytes × Bytes
  placed z x xp f t = if z == start + t then (x, xp) else f t

  module _ (size : ℕ) (holds : w * 2 * rs ≤ size) where
    placed-Holds :
        (cache : MemCache) (x xp : Bytes) (t z : ℕ) (f : ℕ → Bytes × Bytes)
        → length x ≡ rs
        → length xp ≡ rs
        → t < w
        → z ≡ start + t
        → Holds size cache f
        → Holds size
            (cache_write_at (cache_write_at cache x (t * 2 * rs)).0 xp ((t * 2 + 1) * rs)).0
            (placed z x xp f)
    placed-Holds cache x xp t z f lx lxp inside e h = record {
      size_is = size_two;
      first = λ k l. elim (Bool-cases (t == k)) [
        | inl same ↦
            subst (λ k. record_of two.cells 0 rs (k * 2) ≡ (placed z x xp f k).0) (same_at k same)
              (ne_two (t * 2) (λ q. omega (arith, q)) ∙ self_one ∙ sym (ap (λ s. s.0) hit))
        | inr other ↦
            ne_two (k * 2) (λ q. omega (arith, q))
            ∙ ne_one (k * 2) (λ q. not_at k other (omega (arith, q)))
            ∙ h.first k l
            ∙ sym (ap (λ s. s.0) (miss k other))
      ];
      second = λ k l. elim (Bool-cases (t == k)) [
        | inl same ↦
            subst (λ k. record_of two.cells 0 rs (k * 2 + 1) ≡ (placed z x xp f k).1)
              (same_at k same) (self_two ∙ sym (ap (λ s. s.1) hit))
        | inr other ↦
            ne_two (k * 2 + 1) (λ q. not_at k other (omega (arith, q)))
            ∙ ne_one (k * 2 + 1) (λ q. omega (arith, q))
            ∙ h.second k l
            ∙ sym (ap (λ s. s.1) (miss k other))
      ];
    }
      where
        one : MemCache
        one = (cache_write_at cache x (t * 2 * rs)).0

        two : MemCache
        two = (cache_write_at one xp ((t * 2 + 1) * rs)).0

        in_first : t * 2 < w * 2
        in_first = omega arith

        in_second : t * 2 + 1 < w * 2
        in_second = omega arith

        size_one : one.size ≡ size
        size_one =
            cache_write_at-size cache rs (w * 2) (omega (arith, h.size_is)) pos x lx (t * 2)
              in_first
            ∙ h.size_is

        size_two : two.size ≡ size
        size_two =
            cache_write_at-size one rs (w * 2) (omega (arith, size_one)) pos xp lxp (t * 2 + 1)
              in_second
            ∙ size_one

        self_one : record_of one.cells 0 rs (t * 2) ≡ x
        self_one =
            cache_write_at_self cache rs (w * 2) (omega (arith, h.size_is)) pos x lx (t * 2)
              in_first

        ne_one : (s : ℕ) → t * 2 ≢ s → record_of one.cells 0 rs s ≡ record_of cache.cells 0 rs s
        ne_one =
            cache_write_at-ne cache rs (w * 2) (omega (arith, h.size_is)) pos x lx (t * 2) in_first

        self_two : record_of two.cells 0 rs (t * 2 + 1) ≡ xp
        self_two =
            cache_write_at_self one rs (w * 2) (omega (arith, size_one)) pos xp lxp (t * 2 + 1)
              in_second

        ne_two : (s : ℕ) → t * 2 + 1 ≢ s → record_of two.cells 0 rs s ≡ record_of one.cells 0 rs s
        ne_two =
            cache_write_at-ne one rs (w * 2) (omega (arith, size_one)) pos xp lxp (t * 2 + 1)
              in_second

        same_at : (k : ℕ) → t == k ≡ true → t ≡ k
        same_at k q = ground arith

        not_at : (k : ℕ) → t == k ≡ false → t ≢ k
        not_at k q g = ground arith

        hit : placed z x xp f t ≡ (x, xp)
        hit = let here : z == start + t ≡ true = ground arith in rw here refl

        miss : (k : ℕ) → t == k ≡ false → placed z x xp f k ≡ f k
        miss k q = let there : z == start + k ≡ false = ground arith in rw there refl

    place-Holds :
        (cache : MemCache) (x xp : Bytes) (f : ℕ → Bytes × Bytes)
        → length x ≡ rs
        → length xp ≡ rs
        → Holds size cache f
        → Holds size (place u hm start (start + w) x xp cache) (placed (f_of u hm x xp) x xp f)
    unfolding place
    place-Holds cache x xp f lx lxp h = elim (Bool-cases (leb start z && ltb z (start + w))) [
      | inl inside ↦
          let even : (z - start) * rs * 2 ≡ (z - start) * 2 * rs = grind arith in
          let odd : (z - start) * 2 * rs + rs ≡ ((z - start) * 2 + 1) * rs = grind arith in
          rw (inside, even, odd)
            (placed-Holds cache x xp (z - start) z f lx lxp (ground arith) (ground arith) h)
      | inr outside ↦ rw outside (record {
        size_is = h.size_is;
        first = λ t l. h.first t l ∙ sym (ap (λ s. s.0) (away t l outside));
        second = λ t l. h.second t l ∙ sym (ap (λ s. s.1) (away t l outside));
      })
    ]
      where
        z : ℕ
        z = f_of u hm x xp

        away : (t : ℕ) → t < w → leb start z && ltb z (start + w) ≡ false → placed z x xp f t ≡ f t
        away t l q = let there : z == start + t ≡ false = ground arith in rw there refl

    place_pair-Holds :
        (cache : MemCache) (n : ℕ)
        → Holds size cache (λ t. last_pair u hm n (start + t))
        → Holds size
            (place_pair u hm start (start + w) (entry u hm (n * 2)) (entry u hm (n * 2 + 1)) cache)
            (λ t. last_pair u hm (suc n) (start + t))
    unfolding place_pair last_pair
    place_pair-Holds cache n h =
        elim (Bool-cases (
          not (bytes_equal_zero (entry u hm (n * 2)))
          && not (bytes_equal_zero (entry u hm (n * 2 + 1))))) [
            | inl usable ↦ rw usable (
                place-Holds
                  (place u hm start (start + w) (entry u hm (n * 2)) (entry u hm (n * 2 + 1)) cache)
                  (entry u hm (n * 2 + 1)) (entry u hm (n * 2)) _ sized_second sized_first
                  (place-Holds cache (entry u hm (n * 2)) (entry u hm (n * 2 + 1)) _ sized_first
                    sized_second h))
            | inr empty ↦ rw empty h
          ]
      where
        sized_first : length (entry u hm (n * 2)) ≡ rs
        sized_first = length-read _ _ rs

        sized_second : length (entry u hm (n * 2 + 1)) ≡ rs
        sized_second = length-read _ _ rs

    blank-Holds : Holds size (blank size) (λ t. last_pair u hm 0 (start + t))
    unfolding last_pair
    blank-Holds = record {
      size_is = refl;
      first = λ t l. read-zeros (0 + t * 2 * rs) rs;
      second = λ t l. read-zeros (0 + (t * 2 + 1) * rs) rs;
    }

    module _ (half : ℕ) (reach : hm.base.offset + half * (rs * 2) ≤ hm.base.file.size)
        (fits : Pairs (rs * 2) min_map_a_buf_mem
          ⊎ (hm.base.offset + half * (rs * 2) ≤ hm.base.offset + min_map_a_buf_mem)) where
      abbrev At : BufReader → ℕ → Type 0
      At rd y =
          Stands (rs * 2) hm.base.offset (hm.base.offset + half * (rs * 2)) rd
            (hm.base.offset + y * (rs * 2))

      abbrev got : BufReader → Bytes → Bytes × BufReader
      got rd bs = read_buffered min_map_a_buf_mem hm.base.file rd bs

      abbrev next : ℕ → BufReader → Bytes → MemCache → MemCache
      next y rd bs cache =
          place_pair u hm start (start + w) (take rs (got rd bs).0) (drop rs (got rd bs).0) cache

      module _ (y : ℕ) (rd : BufReader) (bs : Bytes) (sized : length bs ≡ rs * 2) (at : At rd y)
          (inside : y < half) where
        row : hm.base.offset + y * (rs * 2) + rs * 2 ≤ hm.base.offset + half * (rs * 2)
        row = omega (arith, rows-le (rs * 2) y half inside)

        brought :
            ((got rd bs).0 ≡ read hm.base.file.cells (hm.base.offset + y * (rs * 2)) (rs * 2))
            × Stands
                (rs * 2)
                hm.base.offset
                (hm.base.offset + half * (rs * 2))
                (got rd bs).1
                (hm.base.offset + y * (rs * 2) + rs * 2)
        brought =
            read_buffered-Stands min_map_a_buf_mem (rs * 2) hm.base.file hm.base.offset
              (hm.base.offset + half * (rs * 2)) (omega arith) (omega arith) reach fits rd bs
              (hm.base.offset + y * (rs * 2)) sized at row

        onward : At (got rd bs).1 (y + 1)
        onward =
            let z : hm.base.offset + (y + 1) * (rs * 2) ≡ hm.base.offset + y * (rs * 2) + rs * 2 =
              grind arith in
            rw z brought.1

        length-got : length (got rd bs).0 ≡ rs * 2
        length-got = ap length brought.0 ∙ length-read _ _ (rs * 2)

        first_half : take rs (got rd bs).0 ≡ entry u hm (y * 2)
        first_half =
            let z : hm.base.offset + y * (rs * 2) ≡ hm.base.offset + y * 2 * rs = grind arith in
            let m : min rs (rs * 2) ≡ rs = omega arith in
            ap (take rs) brought.0 ∙ take-read hm.base.file.cells rs _ (rs * 2) ∙ rw (m, z) refl

        second_half : drop rs (got rd bs).0 ≡ entry u hm (y * 2 + 1)
        second_half =
            let z : hm.base.offset + y * (rs * 2) + rs ≡ hm.base.offset + (y * 2 + 1) * rs =
              grind arith in
            let two : rs * 2 ≡ rs + rs = omega arith in
            ap (drop rs) (brought.0 ∙ ap (read hm.base.file.cells _) two)
            ∙ drop-read hm.base.file.cells rs _ rs
            ∙ rw z refl

      scan_pairs-Holds :
          (quit : ℕ → Bool) (n y : ℕ) (rd : BufReader) (bs : Bytes) (cache filled : MemCache)
          → y + n ≤ half
          → length bs ≡ rs * 2
          → At rd y
          → Holds size cache (λ t. last_pair u hm y (start + t))
          → scan_pairs u quit hm start (start + w) n y rd bs cache ≡ some filled
          → Holds size filled (λ t. last_pair u hm (y + n) (start + t))
      unfolding scan_pairs
      scan_pairs-Holds quit zero y rd bs cache filled inside sized at h e =
          let z : y + 0 ≡ y = omega arith in
          rw z
            (subst (λ c. Holds size c (λ t. last_pair u hm y (start + t))) (some-injective _ _ e) h)
      scan_pairs-Holds quit (suc n) y rd bs cache filled inside sized at h e =
          let z : y + suc n ≡ y + 1 + n = omega arith in
          let one_more : y + 1 ≡ suc y = omega arith in
          let placed_pair : Holds size (next y rd bs cache)
              (λ t. last_pair u hm (y + 1) (start + t)) =
            rw
              (
                first_half y rd bs sized at (omega arith),
                second_half y rd bs sized at (omega arith),
                one_more,
              )
              (place_pair-Holds cache y h) in
          rw z (
            scan_pairs-Holds quit n (y + 1) (got rd bs).1 (got rd bs).0 (next y rd bs cache) filled
              (omega arith) (length-got y rd bs sized at (omega arith))
              (onward y rd bs sized at (omega arith)) placed_pair (ground arith))

      -- The scan of a new cache.
      pub scan_pairs_all :
          (quit : ℕ → Bool) (filled : MemCache)
          → scan_pairs u quit hm start
              (start + w)
              half
              0
              (record { position = hm.base.offset; left = 0 })
              (replicate (rs * 2) 0)
              (blank size)
            ≡ some filled
          → Holds size filled (λ t. last_pair u hm half (start + t))
      scan_pairs_all quit filled e =
          let z : 0 + half ≡ half = omega arith in
          rw z at (
            scan_pairs-Holds quit half 0 _ _ (blank size) filled (omega arith)
              (length-replicate (rs * 2) 0)
              (record {
                later = omega arith;
                next_byte = omega arith;
                whole = inl (0, omega arith);
              })
              blank-Holds e)

-- Without a signal the scan comes to its end.
pub scan_pairs-ne-none :
    (u : PocUtil) (quit : ℕ → Bool) (hm : HashMapA) (start end n y : ℕ) (rd : BufReader)
    (bs : Bytes) (cache : MemCache)
    → ((k : ℕ) → quit k ≡ false)
    → scan_pairs u quit hm start end n y rd bs cache ≢ none
unfolding scan_pairs
scan_pairs-ne-none u quit hm start end zero y rd bs cache calm e = cc
scan_pairs-ne-none u quit hm start end (suc n) y rd bs cache calm e =
    let got = read_buffered min_map_a_buf_mem hm.base.file rd bs in
    let placed_pair =
      place_pair u hm start end (take (size_of u hm) got.0) (drop (size_of u hm) got.0) cache in
    scan_pairs-ne-none u quit hm start end n (y + 1) got.1 got.0 placed_pair calm
      (ground (arith, calm y))

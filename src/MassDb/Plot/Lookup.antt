-- ===== src/MassDb/Plot/Lookup.antt =====
-- HashMapB after plotWork, seen through Get: pairs of map A with the value of F that is asked for.
use mass_net_miner.Common.{
  ℕ, zero, suc, ◌+◌, ◌*◌, ◌/◌, ◌%◌, ◌≤◌, ◌<◌, ◌≡◌, ◌≢◌, refl, ◌∙◌, ap, subst, inl, inr, true, false,
  not, ◌&&◌, ◌==◌, ==_iff, none, some, min, ltb, arith, Bool-cases, take, drop, length, replicate,
}
use mass_net_miner.Common.Bytes.{Bytes, read, length-read, take-read, drop-read}
use mass_net_miner.MassDb.Base.{PocUtil, ok, read_at}
use mass_net_miner.MassDb.Files.{read_at-full}
use mass_net_miner.MassDb.HashMap.{HashMapA, HashMapB, get_b, read_checkpoint}
use mass_net_miner.MassDb.HashMap.Records.{record_of, rows-le}
use mass_net_miner.MassDb.PrePlot.{Env}
use mass_net_miner.MassDb.PrePlot.Round.{IsCalm}
use mass_net_miner.MassDb.Plot.{PlotWorkEnd, plot_work, bytes_equal_zero}
use mass_net_miner.MassDb.Plot.Scan.{size_of, entry, f_of, last_pair}
use mass_net_miner.MassDb.Plot.Round.{IsMapB, IsPlotted}
use mass_net_miner.MassDb.Plot.Total.{plot_work-ends}

module _ (u : PocUtil) (hm_a : HashMapA) where
  abbrev first_of : ℕ → Bytes
  first_of y = entry u hm_a (y * 2)

  abbrev second_of : ℕ → Bytes
  second_of y = entry u hm_a (y * 2 + 1)

  -- Neither record of the pair is empty.
  abbrev pub IsPair : ℕ → Type 0
  IsPair y = (not (bytes_equal_zero (first_of y)) && not (bytes_equal_zero (second_of y))) ≡ true

  abbrev pub forward : ℕ → ℕ
  forward y = f_of u hm_a (first_of y) (second_of y)

  abbrev pub backward : ℕ → ℕ
  backward y = f_of u hm_a (second_of y) (first_of y)

  -- What is found for `key` among `n` pairs of map A: two neighbours that F maps to it, in either
  -- order, or zeros, and then F maps none to it.
  pub data Found (n key : ℕ) : Bytes × Bytes → Type 0 where
    as_it_stands :
        (y : ℕ) → y < n → IsPair y → forward y ≡ key → Found n key (first_of y, second_of y)
    turned : (y : ℕ) → y < n → IsPair y → backward y ≡ key → Found n key (second_of y, first_of y)
    not_found :
        ((y : ℕ) → y < n → IsPair y → (forward y ≢ key) × (backward y ≢ key))
        → Found n key (replicate (size_of u hm_a) 0, replicate (size_of u hm_a) 0)

  one_more :
      (n key : ℕ) (pair : Bytes × Bytes)
      → Found n key pair
      → (IsPair n → (forward n ≢ key) × (backward n ≢ key))
      → Found (suc n) key pair
  one_more n key _ (as_it_stands y h p e) fails = as_it_stands y (omega arith) p e
  one_more n key _ (turned y h p e) fails = turned y (omega arith) p e
  one_more n key _ (not_found all) fails = not_found (λ y h p. elim (Bool-cases (y == n)) [
    | inl last ↦
        let at : n ≡ y = ground arith in
        subst (λ k. IsPair k → (forward k ≢ key) × (backward k ≢ key)) at fails p
    | inr old ↦ all y (ground arith) p
  ])

  last_pair-Found : (n key : ℕ) → Found n key (last_pair u hm_a n key)
  unfolding last_pair
  last_pair-Found zero key = not_found (λ y h p. absurd (omega arith))
  last_pair-Found (suc n) key =
      elim (Bool-cases
        (not (bytes_equal_zero (first_of n)) && not (bytes_equal_zero (second_of n)))) [
          | inr empty ↦ rw empty (one_more n key _ (last_pair-Found n key) (λ p. cc))
          | inl whole ↦ elim (Bool-cases (backward n == key)) [
            | inl back ↦
                rw (whole, back) (turned n (omega arith) whole ((==_iff (backward n) key).0 back))
            | inr not_back ↦ elim (Bool-cases (forward n == key)) [
              | inl forth ↦
                  rw (whole, not_back, forth)
                    (as_it_stands n (omega arith) whole ((==_iff (forward n) key).0 forth))
              | inr neither ↦
                  rw (whole, not_back, neither)
                    (one_more n key _ (last_pair-Found n key)
                      (λ p. (λ e. ground arith, λ e. ground arith)))
            ]
          ]
        ]

module _ (u : PocUtil) (hm_a : HashMapA) (hm : HashMapB) (v : IsMapB u hm_a hm) where
  abbrev rs : ℕ
  rs = hm.base.record_size

  plotted_get :
      (key : ℕ)
      → key < hm.base.volume / 2 * 2
      → IsPlotted u hm_a hm hm.base.file (hm.base.volume / 2 * 4)
      → get_b hm key ≡ ok (last_pair u hm_a (hm.base.volume / 2) key)
  unfolding get_b
  plotted_get key small fill = rw (whole, long, first_half, second_half) refl
    where
      same : rs ≡ size_of u hm_a
      same = v.same_size

      where_it_is : hm.base.offset + key * rs * 2 ≡ hm.base.offset + key * 2 * size_of u hm_a
      where_it_is = rw same (grind arith)

      reaches : hm.base.offset + key * rs * 2 + rs * 2 ≤ hm.base.file.size
      reaches =
          let row : key * size_of u hm_a * 2 + size_of u hm_a * 2
              ≡ (key * 2 + 1) * size_of u hm_a + size_of u hm_a =
            grind arith in
          rw same (
            omega (
              arith,
              row,
              rows-le (size_of u hm_a) (key * 2 + 1) (hm.base.volume / 2 * 4) (omega arith),
              fill.reach,
            ))

      whole :
          read_at hm.base.file (hm.base.offset + key * rs * 2) (rs * 2)
          ≡ read hm.base.file.cells (hm.base.offset + key * rs * 2) (rs * 2)
      whole = read_at-full hm.base.file (hm.base.offset + key * rs * 2) (rs * 2) reaches

      long :
          ltb (length (read hm.base.file.cells (hm.base.offset + key * rs * 2) (rs * 2))) (rs * 2)
          ≡ false
      long =
          rw (length-read hm.base.file.cells (hm.base.offset + key * rs * 2) (rs * 2))
            (ground arith)

      first_half :
          take rs (read hm.base.file.cells (hm.base.offset + key * rs * 2) (rs * 2))
          ≡ (last_pair u hm_a (hm.base.volume / 2) key).0
      first_half =
          let m : min rs (rs * 2) ≡ rs = omega arith in
          let even : key * 2 % 2 == 0 ≡ true = ground arith in
          let row : key * 2 / 2 ≡ key = omega arith in
          let stored : record_of hm.base.file.cells hm.base.offset (size_of u hm_a) (key * 2)
              ≡ (last_pair u hm_a (hm.base.volume / 2) key).0 =
            rw (even, row) at (fill.halves (key * 2) (omega arith)) in
          take-read hm.base.file.cells rs _ (rs * 2) ∙ rw (m, where_it_is, same) stored

      second_half :
          drop rs (read hm.base.file.cells (hm.base.offset + key * rs * 2) (rs * 2))
          ≡ (last_pair u hm_a (hm.base.volume / 2) key).1
      second_half =
          let two : rs * 2 ≡ rs + rs = omega arith in
          let odd : (key * 2 + 1) % 2 == 0 ≡ false = ground arith in
          let row : (key * 2 + 1) / 2 ≡ key = omega arith in
          let position : hm.base.offset + key * rs * 2 + rs
              ≡ hm.base.offset + (key * 2 + 1) * size_of u hm_a =
            rw same (grind arith) in
          let stored : record_of hm.base.file.cells hm.base.offset (size_of u hm_a) (key * 2 + 1)
              ≡ (last_pair u hm_a (hm.base.volume / 2) key).1 =
            rw (odd, row) at (fill.halves (key * 2 + 1) (omega arith)) in
          ap (λ n. drop rs (read hm.base.file.cells (hm.base.offset + key * rs * 2) n)) two
          ∙ drop-read hm.base.file.cells rs _ rs
          ∙ rw (position, same) stored

-- plotWork undisturbed, of a map B with a volume of at least 100 (bit length 7 and above), beside a
-- map A that the buffer reads in whole pairs (either pairs fill the buffer of 64 MiB without a
-- rest, or all of map A fits into it), where the records below the stored checkpoint are as they
-- should be: it ends without an error within a round for each pair and one more. Get of map B, for
-- any value below twice the pairs of map A, then returns two neighbours of map A, neither of them
-- empty, that F maps to the value in the order returned, or zeros, and then F maps no two such
-- neighbours to it, in neither order.
pub get_b-plot_work :
    (u : PocUtil) (env : Env) (hm_a : HashMapA) (hm : HashMapB) (fuel : ℕ)
    → IsMapB u hm_a hm
    → read_checkpoint hm.base ≤ hm.base.volume / 2
    → IsPlotted u hm_a hm hm.base.file (read_checkpoint hm.base * 4)
    → 100 ≤ hm.base.volume
    → hm.base.volume / 2 < fuel
    → IsCalm env
    → (e : PlotWorkEnd) × (plot_work u env fuel hm_a hm ≡ some e)
      × (e.error ≡ none)
      × ((key : ℕ)
          → key < hm.base.volume / 2 * 2
          → (pair : Bytes × Bytes) × (get_b e.hm key ≡ ok pair)
            × Found u hm_a (hm.base.volume / 2) key pair)
get_b-plot_work u env hm_a hm fuel v below begun large enough calm =
    let (e, runs, left, fine) = plot_work-ends u env hm_a hm fuel v below begun large enough in
    let volume_kept : e.hm.base.volume / 2 ≡ hm.base.volume / 2 =
      ap (λ n. n / 2) left.same_map.same_volume in
    let all : IsPlotted u hm_a e.hm e.hm.base.file (e.hm.base.volume / 2 * 4) =
      subst (λ k. IsPlotted u hm_a e.hm e.hm.base.file (k * 4)) (left.finished (fine calm))
        left.plotted in
    (
      e,
      runs,
      fine calm,
      λ key small. (
        last_pair u hm_a (hm.base.volume / 2) key,
        plotted_get u hm_a e.hm left.still_map key (omega (arith, volume_kept)) all
            ∙ rw volume_kept refl,
        last_pair-Found u hm_a (hm.base.volume / 2) key,
      ),
    )

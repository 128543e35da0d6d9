-- ===== src/MassDb/Cache/Copy.antt =====
-- WriteToWriter copies the cache to the file, block by block, and ends.
use mass_net_miner.Common.{
  ℕ, zero, suc, ◌+◌, ◌-◌, ◌≤◌, ◌<◌, ◌≡◌, refl, ◌∙◌, ◌⊎◌, inl, inr, true, false, List, none, some,
  min, arith, ltb, length, Bool-cases, Option-cases, ge→ltb, lt→leb,
}
use mass_net_miner.Common.Bytes.{read, length-read, get_or-read, take-read}
use mass_net_miner.MassDb.Base.{stop_plotting, io_error, File, write_at}
use mass_net_miner.MassDb.Files.{write_at-inside, write_at-outside, write_at-size}
use mass_net_miner.MassDb.Cache.{
  MemCache, Around, Copied, mem_cache_write_block_size, copy_blocks, write_to_writer,
}

module _ (around : Around) (cache : MemCache) (src dst len : ℕ) where
  -- The bytes before `count` are copied, and nothing outside the target is touched.
  pub record CopiedTo (before after : File) (count : ℕ) : Type 0 where
    pub inside : (i : ℕ) → i < count → after.cells (dst + i) ≡ cache.cells (src + i)
    pub outside : (i : ℕ) → (i < dst) ⊎ (dst + len ≤ i) → after.cells i ≡ before.cells i
    pub grown : before.size ≤ after.size
    pub covers : 0 < count → dst + count ≤ after.size

  -- One more write of `m` bytes behind those copied.
  abbrev put : File → ℕ → ℕ → File
  put w count m = write_at w (dst + count) (read cache.cells (src + count) m)

  put-CopiedTo :
      (before w : File) (count m : ℕ)
      → count + m ≤ len
      → CopiedTo before w count
      → CopiedTo before (put w count m) (count + m)
  put-CopiedTo before w count m fits c = record {
    inside = λ i h. elim (Bool-cases (ltb i count)) [
      | inl old ↦
          write_at-outside w (dst + count) (block) (dst + i) (inl (ground arith))
          ∙ c.inside i (ground arith)
      | inr new ↦ fresh i h (ground arith)
    ];
    outside = λ i h. write_at-outside w (dst + count) block i (apart i h) ∙ c.outside i h;
    grown = omega (arith, write_at-size w (dst + count) block, c.grown);
    covers = λ h. reach (write_at-size w (dst + count) block) h;
  }
    where
      block : List ℕ
      block = read cache.cells (src + count) m

      block_length : length block ≡ m
      block_length = length-read cache.cells (src + count) m

      apart :
          (i : ℕ)
          → (i < dst) ⊎ (dst + len ≤ i)
          → (i < dst + count) ⊎ (dst + count + length block ≤ i)
      apart i (inl l) = inl (omega arith)
      apart i (inr r) = inr (omega (arith, block_length))

      reach :
          (w.size ≤ (put w count m).size)
            × (0 < length block → dst + count + length block ≤ (put w count m).size)
          → 0 < count + m
          → dst + (count + m) ≤ (put w count m).size
      reach s h = elim (Bool-cases (ltb 0 m)) [
        | inl some_bytes ↦ omega (arith, s.1 (ground (arith, block_length)), block_length)
        | inr no_bytes ↦ ground (arith, c.covers (ground arith))
      ]

      fresh :
          (i : ℕ)
          → i < count + m
          → count ≤ i
          → (put w count m).cells (dst + i) ≡ cache.cells (src + i)
      fresh i h k =
          let j : ℕ = i - count in
          let to : dst + count + j ≡ dst + i = omega arith in
          let from : src + count + j ≡ src + i = omega arith in
          rw (← to, ← from)
            (write_at-inside w (dst + count) block j (omega (arith, block_length))
              ∙ get_or-read cache.cells (src + count) m j (omega arith))

  -- What the copy leaves behind: the first `n` bytes are copied, all of them when it gives no error,
  -- and it gives none when nobody signals and the disk does not fail.
  pub record IsCopied (before : File) (r : Copied) : Type 0 where
    pub copied : CopiedTo before r.file r.n
    pub at_most : r.n ≤ len
    pub complete : r.error ≡ none → r.n ≡ len
    pub succeeds :
        ((c : ℕ) → around.quit c ≡ false) → ((c : ℕ) → around.disk c ≡ none) → r.error ≡ none

  abbrev step : ℕ → ℕ
  step count = min mem_cache_write_block_size (len - count)

  copy_blocks-IsCopied :
      (before : File) (fuel count : ℕ) (w : File)
      → len < fuel + count
      → count ≤ len
      → CopiedTo before w count
      → (r : Copied) × (copy_blocks around cache src dst len fuel count w ≡ some r)
        × IsCopied before r
  unfolding copy_blocks
  copy_blocks-IsCopied before zero count w enough fits c = absurd (omega arith)
  copy_blocks-IsCopied before (suc fuel) count w enough fits c = elim (Bool-cases (ltb count len)) [
    | inr done ↦ (
      record { file = w; n = count; error = none },
      rw done refl,
      record { copied = c; at_most = fits; complete = λ _. ground arith; succeeds = λ _ _. refl },
    )
    | inl more ↦ elim (Bool-cases (around.quit count)) [
      | inl stop ↦ (
        record { file = w; n = count; error = some stop_plotting },
        rw (more, stop) refl,
        record { copied = c; at_most = fits; complete = λ e. cc; succeeds = λ q _. cc (q count) },
      )
      | inr go ↦ elim (Option-cases (around.disk count)) [
        | inr (n, fails) ↦ failed n fails go more
        | inl fine ↦
            rw (more, go, fine)
              (copy_blocks-IsCopied before fuel (count + step count) (put w count (step count))
                (ground arith) (omega arith)
                (put-CopiedTo before w count (step count) (omega arith) c))
      ]
    ]
  ]
    where
      failed :
          (n : ℕ)
          → around.disk count ≡ some n
          → around.quit count ≡ false
          → ltb count len ≡ true
          → (r : Copied) × (copy_blocks around cache src dst len (suc fuel) count w ≡ some r)
            × IsCopied before r
      failed n fails go more =
          let cut = take-read cache.cells n (src + count) (step count) in
          let m : ℕ = min n (step count) in
          (
            record { file = put w count m; n = count + m; error = some io_error },
            rw (more, go, fails, cut, length-read cache.cells (src + count) m) refl,
            record {
              copied = put-CopiedTo before w count m (omega arith) c;
              at_most = omega arith;
              complete = λ e. cc;
              succeeds = λ _ k. cc (k count);
            },
          )

  -- The copy always ends. When the cache holds the bytes, it copies a part of them, and it copies
  -- them all unless it is stopped or the disk fails.
  pub write_to_writer-IsCopied :
      (before : File)
      → src + len ≤ cache.size
      → src < cache.size
      → (r : Copied) × (write_to_writer around cache src dst len before ≡ some r)
        × IsCopied before r
  unfolding write_to_writer
  write_to_writer-IsCopied before holds starts =
      rw (ge→ltb cache.size (src + len) holds, lt→leb src cache.size starts)
        (copy_blocks-IsCopied before (suc len) 0 before (omega arith) (omega arith) (record {
          inside = λ i h. absurd (omega arith);
          outside = λ i h. refl;
          grown = omega arith;
          covers = λ h. absurd (omega arith);
        }))

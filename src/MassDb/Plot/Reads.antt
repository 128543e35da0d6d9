-- ===== src/MassDb/Plot/Reads.antt =====
-- bufio.Reader over map A: when each Read brings a whole pair of records.
use mass_net_miner.Common.{
  ℕ, zero, suc, ◌+◌, ◌-◌, ◌*◌, ◌≤◌, ◌<◌, ◌≡◌, refl, ◌⊎◌, inl, inr, Bool-cases, false, min, arith,
  ◌==◌, ◌++◌, length, drop, drop-all, append_none, ltb,
}
use mass_net_miner.Common.Bytes.{Bytes, read}
use mass_net_miner.MassDb.Base.{File}
use mass_net_miner.MassDb.Plot.{BufReader, fill_buffer, read_buffered}

-- A number of whole pairs of `n` bytes.
abbrev pub Pairs : ℕ → ℕ → Type 0
Pairs n m = (q : ℕ) × (m ≡ q * n)

one_pair : (n m : ℕ) → 0 < m → Pairs n m → n ≤ m
one_pair n m h (zero, e) = absurd (omega arith)
one_pair n m h (suc q, e) = omega arith

one_less : (n m : ℕ) → n ≤ m → 0 < n → Pairs n m → Pairs n (m - n)
one_less n m h k (zero, e) = absurd (omega arith)
one_less n m h k (suc q, e) = (q, omega arith)

-- The next byte that Read returns is the one at `next`, of those from `begin` to `stop`.
pub record Stands (n begin stop : ℕ) (rd : BufReader) (next : ℕ) : Type 0 where
  pub later : begin ≤ next
  pub next_byte : rd.left + next ≡ rd.position
  pub whole : Pairs n rd.left ⊎ (stop ≤ rd.position)

-- A Read finds a whole pair when the buffer's size is a number of pairs, or what is read, from `begin` to
-- `stop`, fits into the buffer.
module _ (buf_size n : ℕ) (f : File) (begin stop : ℕ) (positive : 0 < n) (room : 0 < buf_size)
    (reach : stop ≤ f.size) (fits : Pairs n buf_size ⊎ (stop ≤ begin + buf_size)) where
  new_buffer :
      (next k : ℕ)
      → k ≡ min buf_size (f.size - next)
      → begin ≤ next
      → next + n ≤ stop
      → Stands n begin stop (record { position = next + k; left = k }) next × (n ≤ k)
  new_buffer next k e h inside = elim (Bool-cases (ltb buf_size (f.size - next))) [
    | inr all ↦
        (record { later = h; next_byte = omega arith; whole = inr (ground arith) }, ground arith)
    | inl part ↦ let whole_buffer : k ≡ buf_size = ground arith in rw whole_buffer (of_size fits)
  ]
    where
      of_size :
          Pairs n buf_size ⊎ (stop ≤ begin + buf_size)
          → Stands n begin stop (record { position = next + buf_size; left = buf_size }) next
            × (n ≤ buf_size)
      of_size (inl pairs) = (
        record { later = h; next_byte = omega arith; whole = inl pairs },
        one_pair n buf_size room pairs,
      )
      of_size (inr small) =
          (record { later = h; next_byte = omega arith; whole = inr (omega arith) }, omega arith)

  fill_buffer-Stands :
      (rd : BufReader) (next : ℕ)
      → Stands n begin stop rd next
      → next + n ≤ stop
      → let full = fill_buffer buf_size f rd in Stands n begin stop full next × (n ≤ full.left)
  unfolding fill_buffer
  fill_buffer-Stands rd next s inside = elim (Bool-cases (rd.left == 0)) [
    | inl empty ↦
        let at_end : rd.position ≡ next = ground (arith, s.next_byte) in
        rw (empty, at_end) (new_buffer next (min buf_size (f.size - next)) refl s.later inside)
    | inr unread ↦ rw unread (s, enough s.whole unread)
  ]
    where
      some_left : rd.left == 0 ≡ false → 0 < rd.left
      some_left h = ground arith

      enough : Pairs n rd.left ⊎ (stop ≤ rd.position) → rd.left == 0 ≡ false → n ≤ rd.left
      enough (inl pairs) h = one_pair n rd.left (some_left h) pairs
      enough (inr over) h = omega (arith, s.next_byte)

  -- Read then fills `bs` with the next `n` bytes.
  pub read_buffered-Stands :
      (rd : BufReader) (bs : Bytes) (next : ℕ)
      → length bs ≡ n
      → Stands n begin stop rd next
      → next + n ≤ stop
      → let got = read_buffered buf_size f rd bs in
        (got.0 ≡ read f.cells next n) × Stands n begin stop got.1 (next + n)
  unfolding read_buffered
  read_buffered-Stands rd bs next sized s inside =
      let (t, enough) = fill_buffer-Stands rd next s inside in
      after (fill_buffer buf_size f rd) t enough
    where
      after :
          (full : BufReader)
          → Stands n begin stop full next
          → n ≤ full.left
          → (read f.cells (full.position - full.left) (min (length bs) full.left)
                ++ drop (min (length bs) full.left) bs
              ≡ read f.cells next n)
            × Stands n begin stop
                (record full { left = full.left - min (length bs) full.left })
                (next + n)
      after full t enough =
          let whole_pair : min (length bs) full.left ≡ n = omega arith in
          let at_next : full.position - full.left ≡ next = omega (arith, t.next_byte) in
          rw (whole_pair, at_next)
            (
              rw (drop-all n bs (omega arith)) (append_none (read f.cells next n)),
              record {
                later = omega (arith, s.later);
                next_byte = omega (arith, t.next_byte);
                whole = left_over t.whole;
              },
            )
        where
          left_over :
              Pairs n full.left ⊎ (stop ≤ full.position)
              → Pairs n (full.left - n) ⊎ (stop ≤ full.position)
          left_over (inl pairs) = inl (one_less n full.left enough positive pairs)
          left_over (inr over) = inr over

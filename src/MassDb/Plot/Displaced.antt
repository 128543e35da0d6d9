-- ===== src/MassDb/Plot/Displaced.antt =====
-- Where the pairs of map A do not fill the buffer without a rest: a Read is short, and plotWork goes on
-- with displaced records.
use mass_net_miner.Common.{
  ℕ, zero, suc, ◌+◌, ◌-◌, ◌*◌, ◌%◌, ◌≤◌, ◌<◌, ◌≡◌, refl, sym, subst, ◌∙◌, ap, Bool, false, min,
  arith, ◌==◌, ◌++◌, Option, length, length-append, length-drop, take, drop, drop-all, append_none,
  Bool-cases, inl, inr, replicate, length-replicate,
}
use mass_net_miner.Common.Bytes.{Bytes, read, length-read}
use mass_net_miner.MassDb.Base.{PocUtil, File}
use mass_net_miner.MassDb.HashMap.{HashMapA}
use mass_net_miner.MassDb.Cache.{MemCache}
use mass_net_miner.MassDb.PrePlot.{wait_quit_plot_interval}
use mass_net_miner.MassDb.Plot.{
  BufReader, fill_buffer, read_buffered, place_pair, scan_pairs, min_map_a_buf_mem,
}

-- `k` Reads one after the other, into the same bytes.
abbrev reads : ℕ → File → ℕ → BufReader → Bytes → Bytes × BufReader
reads buf_size f zero rd bs = (bs, rd)
reads buf_size f (suc k) rd bs =
    let before = reads buf_size f k rd bs in read_buffered buf_size f before.1 before.0

module _ (buf_size : ℕ) (f : File) (position left : ℕ) (bs : Bytes) where
  -- A Read from a buffer that holds enough.
  read_enough :
      0 < left
      → length bs ≤ left
      → read_buffered buf_size f (record { position = position; left = left }) bs ≡ (
        read f.cells (position - left) (length bs),
        record { position = position; left = left - length bs },
      )
  unfolding read_buffered fill_buffer
  read_enough h k =
      let unread : left == 0 ≡ false = ground arith in
      let all : min (length bs) left ≡ length bs = omega arith in
      rw
        (
          unread,
          all,
          drop-all (length bs) bs (omega arith),
          append_none (read f.cells (position - left) (length bs)),
        )
        refl

  -- A Read from a buffer that holds too little.
  read_short :
      0 < left
      → left < length bs
      → read_buffered buf_size f (record { position = position; left = left }) bs ≡ (
        read f.cells (position - left) left ++ drop left bs,
        record { position = position; left = 0 },
      )
  unfolding read_buffered fill_buffer
  read_short h k =
      let unread : left == 0 ≡ false = ground arith in
      let part : min (length bs) left ≡ left = omega arith in
      let none_left : left - left ≡ 0 = omega arith in rw (unread, part, none_left) refl

-- A Read from an empty buffer, of a file that fills the buffer.
read_empty :
    (buf_size : ℕ) (f : File) (position : ℕ) (bs : Bytes)
    → position + buf_size ≤ f.size
    → 0 < buf_size
    → length bs ≤ buf_size
    → read_buffered buf_size f (record { position = position; left = 0 }) bs ≡ (
      read f.cells position (length bs),
      record { position = position + buf_size; left = buf_size - length bs },
    )
unfolding read_buffered fill_buffer
read_empty buf_size f position bs h pos k =
    let full : min buf_size (f.size - position) ≡ buf_size = omega arith in
    let all : min (length bs) buf_size ≡ length bs = omega arith in
    let back : position + buf_size - buf_size ≡ position = omega arith in
    rw
      (
        full,
        all,
        back,
        drop-all (length bs) bs (omega arith),
        append_none (read f.cells position (length bs)),
      )
      refl

-- A buffer of `q` pairs of `n` bytes, and `r` bytes more.
module _ (q n r : ℕ) (f : File) (begin : ℕ) (bs : Bytes) (sized : length bs ≡ n) (some_rest : 0 < r)
    (no_pair : r < n) (reach : begin + (q * n + r) ≤ f.size) where
  abbrev size : ℕ
  size = q * n + r

  abbrev left_with : ℕ → BufReader
  left_with l = record { position = begin + size; left = l }

  after_pairs :
      (k m : ℕ)
      → k + suc m ≡ q
      → reads size f (suc k) (record { position = begin; left = 0 }) bs
        ≡ (read f.cells (begin + k * n) n, left_with (m * n + r))
  after_pairs zero m e =
      let rest : size - length bs ≡ m * n + r = rw (← e, sized) (omega arith) in
      let here : begin + 0 * n ≡ begin = omega arith in
      rw
        (
          here,
          read_empty size f begin bs reach (omega arith) (rw (← e, sized) (omega arith)),
          rest,
          sized,
        )
        refl
  after_pairs (suc k) m e =
      let before = after_pairs k (suc m) (omega (arith, e)) in
      let pair = read f.cells (begin + k * n) n in
      let length_pair : length pair ≡ n = length-read f.cells (begin + k * n) n in
      let here : begin + size - (suc m * n + r) ≡ begin + suc k * n = rw (← e) (omega arith) in
      let rest : suc m * n + r - length pair ≡ m * n + r = omega (arith, length_pair) in
      rw
        (
          before,
          read_enough size f (begin + size) (suc m * n + r) pair (omega arith)
              (omega (arith, length_pair)),
          rest,
          length_pair,
          here,
        )
        refl

  short_read :
      (k : ℕ)
      → suc k ≡ q
      → reads size f (suc (suc k)) (record { position = begin; left = 0 }) bs
        ≡ (read f.cells (begin + q * n) r ++ drop r (read f.cells (begin + k * n) n), left_with 0)
  short_read k e =
      let before = after_pairs k 0 (omega (arith, e)) in
      let pair = read f.cells (begin + k * n) n in
      let length_pair : length pair ≡ n = length-read f.cells (begin + k * n) n in
      let rest : 0 * n + r ≡ r = omega arith in
      let here : begin + size - r ≡ begin + q * n = omega arith in
      rw
        (
          before,
          rest,
          read_short size f (begin + size) r pair some_rest (omega (arith, length_pair)),
          here,
        )
        refl

-- What the Reads of a pair bring.
abbrev Cut : ℕ → ℕ → ℕ → ℕ → File → ℕ → Bytes → Type 0
Cut buf_size k n r f begin bs =
    let after = λ (i : ℕ). (reads buf_size f i (record { position = begin; left = 0 }) bs).0 in
    ((i : ℕ) → i ≤ k → after (suc i) ≡ read f.cells (begin + i * n) n)
    × (after (suc (suc k))
        ≡ read f.cells (begin + suc k * n) r ++ drop r (read f.cells (begin + k * n) n))
    × (after (suc (suc (suc k))) ≡ read f.cells (begin + suc k * n + r) n)

-- A buffer of k + 1 pairs of n bytes and r bytes more, 0 < r < n, over a file that fills it twice. The
-- first k + 1 Reads of a pair bring the pairs. The next one brings r bytes only, over the beginning of
-- the pair before it; the Read behind it begins with the buffer's second filling, r bytes into the pair
-- that was cut, and not with the next pair.
read_buffered-Cut :
    (buf_size k n r : ℕ) (f : File) (begin : ℕ) (bs : Bytes)
    → length bs ≡ n
    → 0 < r
    → r < n
    → buf_size ≡ suc k * n + r
    → begin + buf_size + buf_size ≤ f.size
    → Cut buf_size k n r f begin bs
read_buffered-Cut buf_size k n r f begin bs sized some_rest no_pair e reach =
    subst (λ b. Cut b k n r f begin bs) (sym e)
      (
        λ i h.
            ap (λ s. s.0)
              (after_pairs (suc k) n r f begin bs sized some_rest no_pair fits i (k - i)
                (omega arith)),
        ap (λ s. s.0) cut,
        rw
            (
              cut,
              read_empty (suc k * n + r) f (begin + (suc k * n + r)) left_over (omega (arith, e))
                  (omega arith) (omega (arith, length_left)),
              length_left,
              next,
            )
            refl,
      )
  where
    fits : begin + (suc k * n + r) ≤ f.size
    fits = omega (arith, e)

    left_over : Bytes
    left_over = read f.cells (begin + suc k * n) r ++ drop r (read f.cells (begin + k * n) n)

    length_left : length left_over ≡ n
    length_left =
        length-append (read f.cells (begin + suc k * n) r) (drop r (read f.cells (begin + k * n) n))
        ∙ omega (
          arith,
          length-read f.cells (begin + suc k * n) r,
          length-drop r (read f.cells (begin + k * n) n),
          length-read f.cells (begin + k * n) n,
        )

    cut :
        reads (suc k * n + r) f (suc (suc k)) (record { position = begin; left = 0 }) bs
        ≡ (left_over, record { position = begin + (suc k * n + r); left = 0 })
    cut = short_read (suc k) n r f begin bs sized some_rest no_pair fits k refl

    next : begin + (suc k * n + r) ≡ begin + suc k * n + r
    next = omega arith

-- The pair that a Read has left in `bs` is placed.
abbrev pub place_read : PocUtil → HashMapA → ℕ → ℕ → Bytes → MemCache → MemCache
place_read u hm start end bs =
    place_pair u hm start end (take (u.bytes_of_bits hm.base.bl) bs)
      (drop (u.bytes_of_bits hm.base.bl) bs)

-- The first `i` pairs of map A are placed.
abbrev pub placed_pairs : PocUtil → HashMapA → ℕ → ℕ → MemCache → ℕ → MemCache
placed_pairs u hm start end cache zero = cache
placed_pairs u hm start end cache (suc i) =
    let n = u.bytes_of_bits hm.base.bl * 2 in
    place_read u hm start end (read hm.base.file.cells (hm.base.offset + i * n) n)
      (placed_pairs u hm start end cache i)

module _ (u : PocUtil) (quit : ℕ → Bool) (hm : HashMapA) (start end : ℕ) (cache : MemCache)
    (rd : BufReader) (bs : Bytes) (silent : (y : ℕ) → quit y ≡ false) where
  abbrev state : ℕ → Bytes × BufReader
  state i = reads min_map_a_buf_mem hm.base.file i rd bs

  abbrev placed_reads : ℕ → MemCache
  placed_reads zero = cache
  placed_reads (suc i) = place_read u hm start end (state (suc i)).0 (placed_reads i)

  one_pair_read :
      (m y : ℕ) (r : BufReader) (b : Bytes) (c : MemCache)
      → let got = read_buffered min_map_a_buf_mem hm.base.file r b in
        scan_pairs u quit hm start end (suc m) y r b c
        ≡ scan_pairs u quit hm start end m (y + 1) got.1 got.0 (place_read u hm start end got.0 c)
  unfolding scan_pairs
  one_pair_read m y r b c = elim (Bool-cases (y % wait_quit_plot_interval == 0)) [
    | inl polls ↦ rw (polls, silent y) refl
    | inr no_poll ↦ rw no_poll refl
  ]

  -- The scan is the Reads, and the placing of what they leave.
  scan_pairs-reads :
      (i m : ℕ)
      → scan_pairs u quit hm start end (i + m) 0 rd bs cache
        ≡ scan_pairs u quit hm start end m i (state i).1 (state i).0 (placed_reads i)
  scan_pairs-reads zero m =
      let none_read : 0 + m ≡ m = omega arith in
      ap (λ k. scan_pairs u quit hm start end k 0 rd bs cache) none_read
  scan_pairs-reads (suc i) m =
      let shift : suc i + m ≡ i + suc m = omega arith in
      let next : i + 1 ≡ suc i = omega arith in
      ap (λ k. scan_pairs u quit hm start end k 0 rd bs cache) shift
      ∙ scan_pairs-reads i (suc m)
      ∙ one_pair_read m i (state i).1 (state i).0 (placed_reads i)
      ∙ ap
          (λ k.
            scan_pairs u quit hm start end m k (state (suc i)).1 (state (suc i)).0
              (placed_reads (suc i)))
          next

-- A scan of plotWork with no stop signal, where the buffer of 64 MiB holds k + 1 pairs of records of map A
-- and r bytes more, 0 < r < the size of a pair, and map A fills the buffer twice: after k + 3 pairs it has
-- placed the first k + 1 pairs, then a pair of which only the first r bytes are read, over the first bytes
-- of the pair before it, and then a pair that is read r bytes behind the beginning of the pair that was
-- cut; from there the scan of the pairs that are left goes on.
pub scan_pairs-displaced :
    (u : PocUtil) (quit : ℕ → Bool) (hm : HashMapA) (start end : ℕ) (cache : MemCache) (k r : ℕ)
    → ((y : ℕ) → quit y ≡ false)
    → 0 < r
    → r < u.bytes_of_bits hm.base.bl * 2
    → min_map_a_buf_mem ≡ suc k * (u.bytes_of_bits hm.base.bl * 2) + r
    → hm.base.offset + min_map_a_buf_mem + min_map_a_buf_mem ≤ hm.base.file.size
    → let n = u.bytes_of_bits hm.base.bl * 2 in
      let cells = hm.base.file.cells in
      let begin = hm.base.offset in
      let cut = read cells (begin + suc k * n) r ++ drop r (read cells (begin + k * n) n) in
      let displaced = read cells (begin + suc k * n + r) n in
      (rd : BufReader) × ((m : ℕ)
        → scan_pairs u quit hm start end
            (suc (suc (suc k)) + m)
            0
            (record { position = begin; left = 0 })
            (replicate n 0)
            cache
          ≡ scan_pairs u quit hm start end m (suc (suc (suc k))) rd displaced (
              place_read u hm start end displaced
                (place_read u hm start end cut (placed_pairs u hm start end cache (suc k)))))
scan_pairs-displaced u quit hm start end cache k r silent some_rest no_pair e reach = (
  (state_at (suc (suc (suc k)))).1,
  λ m.
      scan_pairs-reads u quit hm start end cache begun zeros silent (suc (suc (suc k))) m
      ∙ ap (λ b. on m b (place_read u hm start end (state_at (suc (suc k))).0 (placed_at (suc k))))
          cut.2
      ∙ ap (λ b. on m displaced (place_read u hm start end b (placed_at (suc k)))) cut.1
      ∙ ap (λ c. on m displaced (place_read u hm start end cut_pair c))
          (placed (suc k) (omega arith)),
)
  where
    n : ℕ
    n = u.bytes_of_bits hm.base.bl * 2

    begun : BufReader
    begun = record { position = hm.base.offset; left = 0 }

    zeros : Bytes
    zeros = replicate n 0

    cut : Cut min_map_a_buf_mem k n r hm.base.file hm.base.offset zeros
    cut =
        read_buffered-Cut min_map_a_buf_mem k n r hm.base.file hm.base.offset zeros
          (length-replicate n 0) some_rest no_pair e reach

    placed :
        (i : ℕ)
        → i ≤ suc k
        → placed_reads u quit hm start end cache begun zeros silent i
          ≡ placed_pairs u hm start end cache i
    placed zero h = refl
    placed (suc i) h = rw (cut.0 i (omega arith), placed i (omega arith)) refl

    state_at : ℕ → Bytes × BufReader
    state_at i = state u quit hm start end cache begun zeros silent i

    placed_at : ℕ → MemCache
    placed_at i = placed_reads u quit hm start end cache begun zeros silent i

    displaced : Bytes
    displaced = read hm.base.file.cells (hm.base.offset + suc k * n + r) n

    cut_pair : Bytes
    cut_pair =
        read hm.base.file.cells (hm.base.offset + suc k * n) r
        ++ drop r (read hm.base.file.cells (hm.base.offset + k * n) n)

    on : ℕ → Bytes → MemCache → Option MemCache
    on m b c =
        scan_pairs u quit hm start end m (suc (suc (suc k))) (state_at (suc (suc (suc k)))).1 b
          (place_read u hm start end b c)

-- ===== src/Configure/Outcome.antt =====
-- What filling an empty list from the indexed spaces gives.
use mass_net_miner.Common.{
  ℕ, ◌+◌, ◌≤◌, ◌<◌, ◌≡◌, refl, Bool, true, false, inl, inr, List, [], some, ◌==◌, arith,
}
use mass_net_miner.Keeper.Index.{Ref}
use mass_net_miner.Keeper.Invariant.{All}
use mass_net_miner.Configure.Fill.{
  Poc, DocumentedPoc, Filled, SourceMap, usable_bit_length, decreasing, fill_lengths, is_finished,
  fill_space_list_by_size, fill_space_list_by_path_size,
}
use mass_net_miner.Configure.Bounds.{
  Stands, IsFilled, Settled, fill_lengths-IsFilled, fill_lengths-Settled,
}

-- What a fill of an empty list gives, of spaces that pass the test `here`.
pub record FilledUpTo (p : Poc) (bit_length : Ref → ℕ) (here : Ref → Bool) (target : ℕ)
    (src : SourceMap) (outcome : Filled × Bool) : Type 0 where
  -- the size is that of the listed spaces, at most the target, and they pass the test
  pub filled : IsFilled p bit_length here target outcome.0
  -- finished: not even the least plot would fit
  pub finished : outcome.1 ≡ true → target < outcome.0.size + p.plot_size p.min_valid_bit_length
  -- not finished: it would
  pub unfinished : outcome.1 ≡ false → outcome.0.size + p.plot_size p.min_valid_bit_length ≤ target
  -- a space of a usable bit length that passes the test is listed, or does not fit
  pub settled :
      (bl : ℕ) (rs : List Ref) (r : Ref)
      → Stands bl usable_bit_length
      → src bl ≡ some rs
      → Stands r rs
      → here r ≡ true
      → Settled target (p.plot_size bl) r outcome.0

abbrev nothing_filled : Filled
nothing_filled = record { list = []; size = 0 }

Stands-decreasing :
    (bl : ℕ) → Stands bl usable_bit_length → Stands bl (decreasing usable_bit_length)
unfolding usable_bit_length decreasing
Stands-decreasing bl (inl e) = inr (inr (inl e))
Stands-decreasing bl (inr (inl e)) = inr (inl e)
Stands-decreasing bl (inr (inr (inl e))) = inl e
Stands-decreasing bl (inr (inr (inr m))) = absurd m

is_finished-true :
    (p : Poc) (target : ℕ) (d : Filled)
    → DocumentedPoc p
    → is_finished p target d ≡ true
    → target < d.size + p.plot_size p.min_valid_bit_length
unfolding is_finished
is_finished-true p target d doc h = ground (arith, doc.plot_size-pos p.min_valid_bit_length)

is_finished-false :
    (p : Poc) (target : ℕ) (d : Filled)
    → is_finished p target d ≡ false
    → d.size + p.plot_size p.min_valid_bit_length ≤ target
unfolding is_finished
is_finished-false p target d h = ground arith

module _ (p : Poc) (doc : DocumentedPoc p) (bit_length : Ref → ℕ) (target : ℕ) (src : SourceMap)
    (sorted : (bl : ℕ) (rs : List Ref) → src bl ≡ some rs → All (λ r. bit_length r ≡ bl) rs) where
  fill_lengths-FilledUpTo :
      (here : Ref → Bool)
      → FilledUpTo p bit_length here target src (
        fill_lengths p here target src (decreasing usable_bit_length) nothing_filled,
        is_finished p target
            (fill_lengths p here target src (decreasing usable_bit_length) nothing_filled),
      )
  fill_lengths-FilledUpTo here =
      let d = fill_lengths p here target src (decreasing usable_bit_length) nothing_filled in
      record {
        filled =
            fill_lengths-IsFilled p bit_length here target src sorted (decreasing usable_bit_length)
              nothing_filled (record { sums = refl; within = omega arith; passes = tt });
        finished = is_finished-true p target d doc;
        unfinished = is_finished-false p target d;
        settled = λ bl rs r n e m at_home.
            fill_lengths-Settled p bit_length here target src sorted (decreasing usable_bit_length)
              nothing_filled bl rs r (Stands-decreasing bl n) e m at_home;
      }

-- Plots are not empty, and the source map sorts spaces by their bit length. Filling an empty list by
-- size takes spaces whose plots add up to the size that is reported, which is at most the target.
-- It reports that it has finished exactly if the least valid plot does not fit any more. Every space
-- of the source of a usable bit length is in the list, or its plot does not fit any more.
pub fill_space_list_by_size-FilledUpTo :
    (p : Poc) (doc : DocumentedPoc p) (bit_length : Ref → ℕ) (target : ℕ) (src : SourceMap)
    → ((bl : ℕ) (rs : List Ref) → src bl ≡ some rs → All (λ r. bit_length r ≡ bl) rs)
    → FilledUpTo p bit_length
        (λ r. true)
        target
        src
        (fill_space_list_by_size p (record { list = []; size = 0 }) src target)
unfolding fill_space_list_by_size
fill_space_list_by_size-FilledUpTo p doc bit_length target src sorted =
    fill_lengths-FilledUpTo p doc bit_length target src sorted (λ r. true)

-- Plots are not empty, and the source map sorts spaces by their bit length. Filling an empty list by
-- size on a path takes spaces of that root directory only, whose plots add up to the size that is
-- reported, which is at most the target. It reports that it has finished exactly if the least valid
-- plot does not fit any more. Every space of the source of a usable bit length and this root
-- directory is in the list, or its plot does not fit any more.
pub fill_space_list_by_path_size-FilledUpTo :
    (p : Poc) (doc : DocumentedPoc p) (bit_length root_dir : Ref → ℕ) (path target : ℕ)
    (src : SourceMap)
    → ((bl : ℕ) (rs : List Ref) → src bl ≡ some rs → All (λ r. bit_length r ≡ bl) rs)
    → FilledUpTo p bit_length
        (λ r. root_dir r == path)
        target
        src
        (fill_space_list_by_path_size p root_dir path (record { list = []; size = 0 }) src target)
unfolding fill_space_list_by_path_size
fill_space_list_by_path_size-FilledUpTo p doc bit_length root_dir path target src sorted =
    fill_lengths-FilledUpTo p doc bit_length target src sorted (λ r. root_dir r == path)

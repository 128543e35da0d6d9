-- ===== src/Configure/Generate.antt =====
-- Generating the missing spaces ends, and fills the size up.
use mass_net_miner.Common.{
  ℕ, zero, suc, ◌+◌, ◌≤◌, ◌<◌, ◌≡◌, refl, ap, true, false, inl, inr, List, [], ◌∷◌, ◌++◌, Option,
  some, ltb, Bool-cases, arith,
}
use mass_net_miner.Keeper.Index.{Ref}
use mass_net_miner.Keeper.State.{SpaceKeeper, add_work_space_to_index}
use mass_net_miner.Configure.Fill.{
  Poc, DocumentedPoc, Filled, Generated, usable_bit_length, decreasing, generate_length,
  generate_lengths, generate_fill_space_list_by_size,
}
use mass_net_miner.Configure.Bounds.{total, total-append}

-- No error so far; the plots of the list add up to its size, which is at most the target.
pub record Fits (p : Poc) (bit_length : Ref → ℕ) (target : ℕ) (g : Generated) : Type 0 where
  pub sums : g.filled.size ≡ total p bit_length g.filled.list
  pub within : g.filled.size ≤ target
  pub succeeds : g.failed ≡ false

-- The next space is made for every bit length, whatever was made before.
abbrev pub Makes : (Ref → ℕ) → (ℕ → ℕ → Option Ref) → Type 0
Makes bit_length made = (bl n : ℕ) → (r : Ref) × (made bl n ≡ some r) × (bit_length r ≡ bl)

module _ (p : Poc) (doc : DocumentedPoc p) (bit_length : Ref → ℕ) (target : ℕ)
    (made : ℕ → ℕ → Option Ref) (makes : Makes bit_length made) where
  -- The loop on a bit length ends where the next plot of it does not fit.
  abbrev Ended : ℕ → Generated → Option Generated → Type 0
  Ended size g o =
      (l : Generated) × (o ≡ some l)
      × Fits p bit_length target l
      × (target < l.filled.size + size)
      × (g.filled.size ≤ l.filled.size)

  generate_length-Ended :
      (bl fuel n : ℕ) (g : Generated)
      → Fits p bit_length target g
      → target < fuel + g.filled.size
      → Ended (p.plot_size bl) g (generate_length fuel (made bl) target (p.plot_size bl) n g)
  unfolding generate_length
  generate_length-Ended bl zero n g v enough = absurd (impossible v.within enough)
    where
      impossible : g.filled.size ≤ target → target < 0 + g.filled.size → ⊥
      impossible a b = omega (arith, a, b)
  generate_length-Ended bl (suc fuel) n g v enough =
      elim (Bool-cases (ltb target (g.filled.size + p.plot_size bl))) [
        | inl over ↦ rw (generate_length, over) (g, refl, v, ground (arith, over), omega arith)
        | inr fits ↦
            let (r, e, is) = makes bl n in
            let next : Generated = record {
              keeper = add_work_space_to_index g.keeper r;
              filled = record {
                list = g.filled.list ++ (r ∷ []);
                size = g.filled.size + p.plot_size bl;
              };
              failed = g.failed;
            } in
            let positive = doc.plot_size-pos bl in
            let ok : Fits p bit_length target next = record {
              sums =
                  omega
                    (arith, v.sums, total-append p bit_length g.filled.list r, ap (p.plot_size) is);
              within = ground (arith, fits);
              succeeds = v.succeeds;
            } in
            let (l, done, w, stuck, grown) =
              generate_length-Ended bl fuel (suc n) next ok (omega (arith, enough, positive)) in
            rw (generate_length, fits, e) (l, done, w, stuck, omega (arith, grown))
      ]

  generate_lengths-Ended :
      (bls : List ℕ) (least fuel : ℕ) (g : Generated)
      → Fits p bit_length target g
      → target < fuel
      → Ended (p.plot_size least) g (generate_lengths p fuel made target (bls ++ (least ∷ [])) g)
  unfolding generate_lengths
  generate_lengths-Ended [] least fuel g v enough =
      let (l, done, w, stuck, grown) =
        generate_length-Ended least fuel 0 g v (omega (arith, enough)) in
      rw (generate_lengths, done, w.succeeds) (l, refl, w, stuck, grown)
  generate_lengths-Ended (bl ∷ bls) least fuel g v enough =
      let (l, done, w, _, grown) = generate_length-Ended bl fuel 0 g v (omega (arith, enough)) in
      let (m, done', w', stuck', grown') = generate_lengths-Ended bls least fuel l w enough in
      rw (generate_lengths, done, w.succeeds) (m, done', w', stuck', omega (arith, grown, grown'))

-- Plots are not empty, the keeper may generate, the disk holds the target, every new space is made,
-- and the list so far has a size that is the sum of its plots and at most the target. With fuel above
-- the target, generating ends without an error, with a list whose plots add up to the size that is
-- reported, at most the target, and so large that not even a plot of bit length 24 fits any more.
pub generate_fill_space_list_by_size-Fits :
    (p : Poc) (doc : DocumentedPoc p) (bit_length : Ref → ℕ) (target fuel : ℕ)
    (made : ℕ → ℕ → Option Ref) (k : SpaceKeeper) (d : Filled)
    → Makes bit_length made
    → d.size ≡ total p bit_length d.list
    → d.size ≤ target
    → target < fuel
    → (g : Generated) × (generate_fill_space_list_by_size p true true fuel made k d target
        ≡ inr (some g))
      × Fits p bit_length target g
      × (target < g.filled.size + p.plot_size 24)
      × (d.size ≤ g.filled.size)
unfolding generate_fill_space_list_by_size decreasing usable_bit_length
generate_fill_space_list_by_size-Fits p doc bit_length target fuel made k d makes sums within
      enough =
    let (g, done, w, stuck, grown) =
      generate_lengths-Ended p doc bit_length target made makes (28 ∷ 26 ∷ []) 24 fuel
        (record { keeper = k; filled = d; failed = false })
        (record { sums = sums; within = within; succeeds = refl }) enough in
    (g, ap inr done, w, stuck, grown)

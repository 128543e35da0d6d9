-- ===== src/Configure/Bounds.antt =====
-- The list that is filled from the indexed spaces: its size, and that no space is passed over that
-- would fit.
use mass_net_miner.Common.{
  ℕ, ◌+◌, ◌≤◌, ◌<◌, ◌≡◌, refl, ap, subst, Bool, true, ◌⊎◌, inl, inr, List, [], ◌∷◌, ◌++◌, none,
  some, ltb, Bool-cases, Option-cases, arith,
}
use mass_net_miner.Keeper.Index.{Ref}
use mass_net_miner.Keeper.Invariant.{All}
use mass_net_miner.Configure.Fill.{Poc, Filled, SourceMap, fill_space, fill_spaces, fill_lengths}

-- A space stands in a list.
abbrev pub Stands : Ref → List Ref → Type 0
Stands r [] = ⊥
Stands r (x ∷ xs) = (r ≡ x) ⊎ Stands r xs

Stands-append : (r : Ref) (xs ys : List Ref) → Stands r xs → Stands r (xs ++ ys)
Stands-append r [] ys m = absurd m
Stands-append r (x ∷ xs) ys (inl e) = inl e
Stands-append r (x ∷ xs) ys (inr m) = inr (Stands-append r xs ys m)

Stands-last : (r : Ref) (xs : List Ref) → Stands r (xs ++ (r ∷ []))
Stands-last r [] = inl refl
Stands-last r (x ∷ xs) = inr (Stands-last r xs)

-- The sum of the plots of a list.
abbrev pub total : Poc → (Ref → ℕ) → List Ref → ℕ
total p bit_length [] = 0
total p bit_length (r ∷ rs) = p.plot_size (bit_length r) + total p bit_length rs

pub total-append :
    (p : Poc) (bit_length : Ref → ℕ) (xs : List Ref) (r : Ref)
    → total p bit_length (xs ++ (r ∷ [])) ≡ total p bit_length xs + p.plot_size (bit_length r)
total-append p bit_length [] r = omega arith
total-append p bit_length (x ∷ xs) r = omega (arith, total-append p bit_length xs r)

pub All-append :
    (P : Ref → Type 0) (xs : List Ref) (r : Ref) → All P xs → P r → All P (xs ++ (r ∷ []))
All-append P [] r a h = (h, tt)
All-append P (x ∷ xs) r a h = (a.0, All-append P xs r a.1 h)

-- A list of a right size, below the target, of spaces that pass the test.
pub record IsFilled (p : Poc) (bit_length : Ref → ℕ) (here : Ref → Bool) (target : ℕ) (d : Filled)
    : Type 0 where
  pub sums : d.size ≡ total p bit_length d.list
  pub within : d.size ≤ target
  pub passes : All (λ r. here r ≡ true) d.list

pub record Grows (d e : Filled) : Type 0 where
  pub larger : d.size ≤ e.size
  pub keeps : (r : Ref) → Stands r d.list → Stands r e.list

Grows-refl : (d : Filled) → Grows d d
Grows-refl d = record { larger = omega arith; keeps = λ r m. m }

Grows-trans : (c d e : Filled) → Grows c d → Grows d e → Grows c e
Grows-trans c d e g h = record {
  larger = omega (arith, g.larger, h.larger);
  keeps = λ r m. h.keeps r (g.keeps r m);
}

-- The space is taken, or does not fit.
abbrev pub Settled : ℕ → ℕ → Ref → Filled → Type 0
Settled target size r d = Stands r d.list ⊎ (target < d.size + size)

Settled-Grows :
    (target size : ℕ) (r : Ref) (d e : Filled)
    → Grows d e
    → Settled target size r d
    → Settled target size r e
Settled-Grows target size r d e g (inl m) = inl (g.keeps r m)
Settled-Grows target size r d e g (inr h) = inr (omega (arith, g.larger))

module _ (p : Poc) (bit_length : Ref → ℕ) (here : Ref → Bool) (target : ℕ) where
  fill_space-IsFilled :
      (d : Filled) (bl : ℕ) (r : Ref)
      → bit_length r ≡ bl
      → IsFilled p bit_length here target d
      → IsFilled p bit_length here target (fill_space here target (p.plot_size bl) r d)
  unfolding fill_space
  fill_space-IsFilled d bl r is v = elim (Bool-cases (here r)) [
    | inr away ↦ rw (fill_space, away) v
    | inl at_home ↦ elim (Bool-cases (ltb target (d.size + p.plot_size bl))) [
      | inl over ↦ rw (fill_space, at_home, over) v
      | inr fits ↦
          rw (fill_space, at_home, fits)
            (record {
              sums = omega (arith, v.sums, total-append p bit_length d.list r, ap (p.plot_size) is);
              within = ground (arith, fits);
              passes = All-append (λ q. here q ≡ true) d.list r v.passes at_home;
            })
    ]
  ]

  fill_space-Grows : (d : Filled) (size : ℕ) (r : Ref) → Grows d (fill_space here target size r d)
  unfolding fill_space
  fill_space-Grows d size r = elim (Bool-cases (here r)) [
    | inr away ↦ rw (fill_space, away) (Grows-refl d)
    | inl at_home ↦ elim (Bool-cases (ltb target (d.size + size))) [
      | inl over ↦ rw (fill_space, at_home, over) (Grows-refl d)
      | inr fits ↦
          rw (fill_space, at_home, fits)
            (record { larger = omega arith; keeps = λ q m. Stands-append q d.list (r ∷ []) m })
    ]
  ]

  fill_space-Settled :
      (d : Filled) (size : ℕ) (r : Ref)
      → here r ≡ true
      → Settled target size r (fill_space here target size r d)
  unfolding fill_space
  fill_space-Settled d size r at_home = elim (Bool-cases (ltb target (d.size + size))) [
    | inl over ↦ rw (fill_space, at_home, over) (inr (ground (arith, over)))
    | inr fits ↦ rw (fill_space, at_home, fits) (inl (Stands-last r d.list))
  ]

  fill_spaces-IsFilled :
      (bl : ℕ) (rs : List Ref) (d : Filled)
      → All (λ r. bit_length r ≡ bl) rs
      → IsFilled p bit_length here target d
      → IsFilled p bit_length here target (fill_spaces here target (p.plot_size bl) rs d)
  unfolding fill_spaces
  fill_spaces-IsFilled bl [] d a v = v
  fill_spaces-IsFilled bl (r ∷ rs) d a v =
      fill_spaces-IsFilled bl rs (fill_space here target (p.plot_size bl) r d) a.1
        (fill_space-IsFilled d bl r a.0 v)

  fill_spaces-Grows :
      (size : ℕ) (rs : List Ref) (d : Filled) → Grows d (fill_spaces here target size rs d)
  unfolding fill_spaces
  fill_spaces-Grows size [] d = Grows-refl d
  fill_spaces-Grows size (r ∷ rs) d =
      Grows-trans d (fill_space here target size r d)
        (fill_spaces here target size rs (fill_space here target size r d))
        (fill_space-Grows d size r) (fill_spaces-Grows size rs (fill_space here target size r d))

  fill_spaces-Settled :
      (size : ℕ) (rs : List Ref) (d : Filled) (r : Ref)
      → Stands r rs
      → here r ≡ true
      → Settled target size r (fill_spaces here target size rs d)
  unfolding fill_spaces
  fill_spaces-Settled size [] d r m at_home = absurd m
  fill_spaces-Settled size (x ∷ rs) d r (inl e) at_home =
      let d' = fill_space here target size x d in
      Settled-Grows target size r d' (fill_spaces here target size rs d')
        (fill_spaces-Grows size rs d')
        (subst (λ y. Settled target size r (fill_space here target size y d)) e
          (fill_space-Settled d size r at_home))
  fill_spaces-Settled size (x ∷ rs) d r (inr m) at_home =
      fill_spaces-Settled size rs (fill_space here target size x d) r m at_home

  module _ (src : SourceMap)
      (sorted : (bl : ℕ) (rs : List Ref) → src bl ≡ some rs → All (λ r. bit_length r ≡ bl) rs) where
    abbrev one_length : ℕ → Filled → Filled
    one_length bl d = elim (src bl) [
      | none ↦ d
      | some spaces ↦ fill_spaces here target (p.plot_size bl) spaces d
    ]

    one_length-IsFilled :
        (bl : ℕ) (d : Filled)
        → IsFilled p bit_length here target d
        → IsFilled p bit_length here target (one_length bl d)
    one_length-IsFilled bl d v = elim (Option-cases (src bl)) [
      | inl e ↦ rw (one_length, e) v
      | inr (rs, e) ↦ rw (one_length, e) (fill_spaces-IsFilled bl rs d (sorted bl rs e) v)
    ]

    one_length-Grows : (bl : ℕ) (d : Filled) → Grows d (one_length bl d)
    one_length-Grows bl d = elim (Option-cases (src bl)) [
      | inl e ↦ rw (one_length, e) (Grows-refl d)
      | inr (rs, e) ↦ rw (one_length, e) (fill_spaces-Grows (p.plot_size bl) rs d)
    ]

    pub fill_lengths-IsFilled :
        (bls : List ℕ) (d : Filled)
        → IsFilled p bit_length here target d
        → IsFilled p bit_length here target (fill_lengths p here target src bls d)
    unfolding fill_lengths
    fill_lengths-IsFilled [] d v = v
    fill_lengths-IsFilled (bl ∷ bls) d v =
        fill_lengths-IsFilled bls (one_length bl d) (one_length-IsFilled bl d v)

    fill_lengths-Grows :
        (bls : List ℕ) (d : Filled) → Grows d (fill_lengths p here target src bls d)
    unfolding fill_lengths
    fill_lengths-Grows [] d = Grows-refl d
    fill_lengths-Grows (bl ∷ bls) d =
        Grows-trans d (one_length bl d) (fill_lengths p here target src bls (one_length bl d))
          (one_length-Grows bl d) (fill_lengths-Grows bls (one_length bl d))

    pub fill_lengths-Settled :
        (bls : List ℕ) (d : Filled) (bl : ℕ) (rs : List Ref) (r : Ref)
        → Stands bl bls
        → src bl ≡ some rs
        → Stands r rs
        → here r ≡ true
        → Settled target (p.plot_size bl) r (fill_lengths p here target src bls d)
    unfolding fill_lengths
    fill_lengths-Settled [] d bl rs r n e m at_home = absurd n
    fill_lengths-Settled (x ∷ bls) d bl rs r (inl same) e m at_home =
        Settled-Grows target (p.plot_size bl) r (one_length x d)
          (fill_lengths p here target src bls (one_length x d))
          (fill_lengths-Grows bls (one_length x d))
          (subst (λ y. Settled target (p.plot_size bl) r (one_length y d)) same
            (rw (one_length, e) (fill_spaces-Settled (p.plot_size bl) rs d r m at_home)))
    fill_lengths-Settled (x ∷ bls) d bl rs r (inr n) e m at_home =
        fill_lengths-Settled bls (one_length x d) bl rs r n e m at_home

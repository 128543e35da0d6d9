-- ===== src/Configure/Fill.antt =====
-- fillSpaceListBySize, fillSpaceListByPathSize, and the functions that generate the missing spaces.
use mass_net_miner.Common.{
  ℕ, zero, suc, ◌+◌, Bool, true, false, ◌||◌, ◌⊎◌, inl, inr, ◌<◌, List, [], ◌∷◌, ◌++◌, Option, none,
  some, ltb, ◌==◌, if◌then◌else◌,
}
use mass_net_miner.Keeper.Index.{Ref}
use mass_net_miner.Keeper.State.{SpaceKeeper, add_work_space_to_index}

-- ProofTypeDefault.PlotSize and MinValidDefaultBitLength of mass-core.
pub record Poc : Type 0 where
  pub plot_size : ℕ → ℕ
  pub min_valid_bit_length : ℕ

-- A plot is not empty.
pub record DocumentedPoc (p : Poc) : Type 0 where
  pub plot_size-pos : (bl : ℕ) → 0 < p.plot_size bl

unfoldable pub usable_bit_length : List ℕ
usable_bit_length = 24 ∷ 26 ∷ 28 ∷ []

-- The loop that swaps the two ends.
unfoldable pub decreasing : List ℕ → List ℕ
decreasing [] = []
decreasing (bl ∷ bls) = decreasing bls ++ (bl ∷ [])

-- dstList and currentSize
pub record Filled : Type 0 where
  pub list : List Ref
  pub size : ℕ

-- One space of the source map. `here` is the test on the root directory, if there is one.
unfoldable pub fill_space : (Ref → Bool) → ℕ → ℕ → Ref → Filled → Filled
fill_space here target size r d =
    if here r
    then if ltb target (d.size + size)
      then d
      else record { list = d.list ++ (r ∷ []); size = d.size + size }
    else d

unfoldable pub fill_spaces : (Ref → Bool) → ℕ → ℕ → List Ref → Filled → Filled
unfolding fill_space
fill_spaces here target size [] d = d
fill_spaces here target size (r ∷ rs) d =
    fill_spaces here target size rs (fill_space here target size r d)

abbrev pub SourceMap : Type 0
SourceMap = ℕ → Option (List Ref)

unfoldable pub fill_lengths : Poc → (Ref → Bool) → ℕ → SourceMap → List ℕ → Filled → Filled
unfolding fill_spaces
fill_lengths p here target src [] d = d
fill_lengths p here target src (bl ∷ bls) d =
    fill_lengths p here target src bls
      (elim (src bl) [ none ↦ d | some spaces ↦ fill_spaces here target (p.plot_size bl) spaces d ])

-- targetSize-currentSize < PlotSize(MinValidDefaultBitLength), or none is left.
unfoldable pub is_finished : Poc → ℕ → Filled → Bool
is_finished p target d =
    (d.size == target) || ltb target (d.size + p.plot_size p.min_valid_bit_length)

unfoldable pub fill_space_list_by_size : Poc → Filled → SourceMap → ℕ → Filled × Bool
unfolding fill_lengths is_finished decreasing usable_bit_length
fill_space_list_by_size p d src target =
    let filled = fill_lengths p (λ r. true) target src (decreasing usable_bit_length) d in
    (filled, is_finished p target filled)

unfoldable pub fill_space_list_by_path_size :
    Poc → (Ref → ℕ) → ℕ → Filled → SourceMap → ℕ → Filled × Bool
unfolding fill_lengths is_finished decreasing usable_bit_length
fill_space_list_by_path_size p root_dir path d src target =
    let filled =
      fill_lengths p (λ r. root_dir r == path) target src (decreasing usable_bit_length) d in
    (filled, is_finished p target filled)

-- What generating leaves: the keeper, and the list unless there was an error.
pub record Generated : Type 0 where
  pub keeper : SpaceKeeper
  pub filled : Filled
  pub failed : Bool

-- The loop on one bit length, on fuel. `made` is the space that NewWorkSpace makes when the keeper has
-- a given number of new spaces, if it does not fail.
unfoldable pub generate_length : ℕ → (ℕ → Option Ref) → ℕ → ℕ → ℕ → Generated → Option Generated
unfolding add_work_space_to_index
generate_length zero made target size n g = none
generate_length (suc fuel) made target size n g = elim (ltb target (g.filled.size + size)) [
  | true ↦ some g
  | false ↦ elim (made n) [
    | none ↦
        some
          (record g { filled = record (g.filled) { size = g.filled.size + size }; failed = true })
    | some r ↦ generate_length fuel made target size (suc n) (record g {
      keeper = add_work_space_to_index g.keeper r;
      filled = record { list = g.filled.list ++ (r ∷ []); size = g.filled.size + size };
    })
  ]
]

-- All bit lengths; an error ends the loops.
unfoldable pub generate_lengths :
    Poc → ℕ → (ℕ → ℕ → Option Ref) → ℕ → List ℕ → Generated → Option Generated
unfolding generate_length
generate_lengths p fuel made target [] g = some g
generate_lengths p fuel made target (bl ∷ bls) g =
    elim (generate_length fuel (made bl) target (p.plot_size bl) 0 g) [
      | none ↦ none
      | some g' ↦ elim (g'.failed) [
        | true ↦ some g'
        | false ↦ generate_lengths p fuel made target bls g'
      ]
    ]

-- Why nothing is generated.
pub data Refusal : Type 0 where
  cannot_generate disk_not_enough : Refusal

unfoldable pub generate_fill_space_list_by_size :
    Poc
    → Bool
    → Bool
    → ℕ
    → (ℕ → ℕ → Option Ref)
    → SpaceKeeper
    → Filled
    → ℕ
    → Refusal ⊎ Option Generated
unfolding generate_lengths decreasing usable_bit_length
generate_fill_space_list_by_size p allowed disk_holds fuel made k d target =
    if allowed
    then if disk_holds
      then inr (
          generate_lengths p fuel made target (decreasing usable_bit_length)
            (record { keeper = k; filled = d; failed = false }))
      else inl disk_not_enough
    else inl cannot_generate

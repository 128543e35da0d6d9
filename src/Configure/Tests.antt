-- ===== src/Configure/Tests.antt =====
-- Filling a size with plots of bl + 1 units for bit length bl, and applying one of two spaces.
use mass_net_miner.Common.{
  ◌||◌, ℕ, ◌+◌, ◌≡◌, ◌≤◌, ◌<◌, refl, sym, subst, Bool-cases, true, false, inl, inr, List, [], ◌∷◌,
  none, some, ◌==◌, if◌then◌else◌, arith, ==_iff, suc,
}
use mass_net_miner.Engine.{registered}
use mass_net_miner.Keeper.Index.{Ref, get, put, drop_key}
use mass_net_miner.Keeper.Invariant.{All, Inv}
use mass_net_miner.Keeper.State.{
  WorkSpace, idle, SpaceKeeper, new_space_keeper, add_work_spaces, add_work_space_to_index,
}
use mass_net_miner.Configure.Fill.{
  Poc, DocumentedPoc, Generated, SourceMap, fill_space_list_by_size, fill_space_list_by_path_size,
  generate_fill_space_list_by_size,
}
use mass_net_miner.Configure.Apply.{applied, apply_configured_work_spaces}
use mass_net_miner.Configure.InUse.{Indexed, Using, InUse, OneOf}
use mass_net_miner.Configure.Applied.{with_heap-Inv}
use mass_net_miner.Configure.Configured.{DocumentedQueue, apply_configured_work_spaces-InUse}
use mass_net_miner.Keeper.Initial.{started, started-Inv}
use mass_net_miner.Configure.Outcome.{
  FilledUpTo, fill_space_list_by_size-FilledUpTo, fill_space_list_by_path_size-FilledUpTo,
}
use mass_net_miner.Configure.Generate.{Fits, Makes, generate_fill_space_list_by_size-Fits}

abbrev small : Poc
small = record { plot_size = λ bl. suc bl; min_valid_bit_length = 24 }

small-DocumentedPoc : DocumentedPoc small
small-DocumentedPoc = record { plot_size-pos = λ bl. omega arith }

-- References 0 and 1 have bit length 28, all others their own number.
abbrev length_of : Ref → ℕ
length_of r = if r == 0 then 28 else if r == 1 then 28 else r

abbrev two_found : SourceMap
two_found bl = if bl == 28 then some (0 ∷ 1 ∷ []) else none

two_found-sorted :
    (bl : ℕ) (rs : List Ref) → two_found bl ≡ some rs → All (λ r. length_of r ≡ bl) rs
two_found-sorted bl rs e = elim (Bool-cases (bl == 28)) [
  | inl same ↦
      let h : some (0 ∷ 1 ∷ []) ≡ some rs = rw same at e in
      let listed : (0 ∷ 1 ∷ []) ≡ rs = cc in
      let is = sym ((==_iff bl 28).0 same) in
      subst (All (λ r. length_of r ≡ bl)) listed (is, (is, tt))
  | inr differ ↦ let h : none ≡ some rs = rw differ at e in cc
]

fill_space_list_by_size-FilledUpTo_example :
    FilledUpTo small length_of
      (λ r. true)
      50
      two_found
      (fill_space_list_by_size small (record { list = []; size = 0 }) two_found 50)
fill_space_list_by_size-FilledUpTo_example =
    fill_space_list_by_size-FilledUpTo small small-DocumentedPoc length_of 50 two_found
      two_found-sorted

fill_space_list_by_path_size-FilledUpTo_example :
    FilledUpTo small length_of
      (λ r. r == 1)
      50
      two_found
      (fill_space_list_by_path_size small (λ r. r) 1 (record { list = []; size = 0 }) two_found 50)
fill_space_list_by_path_size-FilledUpTo_example =
    fill_space_list_by_path_size-FilledUpTo small small-DocumentedPoc length_of (λ r. r) 1 50
      two_found two_found-sorted

abbrev no_spaces : SpaceKeeper
no_spaces = new_space_keeper (λ r. record { id = r; state = registered; using = false })

-- The new space of a bit length has its number as reference.
made-Makes : Makes (λ r. r) (λ bl n. some bl)
made-Makes bl n = (bl, refl, refl)

generate_fill_space_list_by_size-Fits_example :
    (g : Generated) × (generate_fill_space_list_by_size small true true 61
        (λ bl n. some bl)
        no_spaces
        (record { list = []; size = 0 })
        60
      ≡ inr (some g))
    × Fits small (λ r. r) 60 g
    × (60 < g.filled.size + 25)
    × (0 ≤ g.filled.size)
generate_fill_space_list_by_size-Fits_example =
    generate_fill_space_list_by_size-Fits small small-DocumentedPoc (λ r. r) 60 61 (λ bl n. some bl)
      no_spaces (record { list = []; size = 0 }) made-Makes refl (omega arith) (omega arith)

-- The second space is in use, and listed.
abbrev second_used : Ref → WorkSpace
second_used r = record { id = r; state = registered; using = r == 1 }

abbrev two_spaces : SpaceKeeper
two_spaces = record (started second_used (0 ∷ 1 ∷ [])) { list = 1 ∷ [] }

two_spaces-Inv : Inv two_spaces
two_spaces-Inv =
    let v = started-Inv second_used (0 ∷ 1 ∷ []) (λ r e. cc) in
    with_heap-Inv (started second_used (0 ∷ 1 ∷ [])) (started second_used (0 ∷ 1 ∷ [])).heap
      (1 ∷ []) (record { ids = λ p. refl; states = λ p. refl }) v

two_spaces-listed : (p : Ref) → Using two_spaces.heap p → OneOf p two_spaces.list
unfolding started new_space_keeper add_work_spaces add_work_space_to_index get put drop_key
two_spaces-listed p h = inl ((==_iff p 1).0 h)

two_spaces-rests : two_spaces.plotter ≡ idle
unfolding started new_space_keeper add_work_spaces add_work_space_to_index get put drop_key
two_spaces-rests = refl

two_spaces-Indexed : All (Indexed two_spaces.all two_spaces.heap) (0 ∷ [])
unfolding started new_space_keeper add_work_spaces add_work_space_to_index get put drop_key
two_spaces-Indexed = (refl, tt)

-- A queue that gives the spaces back as they came.
in_turn-DocumentedQueue : DocumentedQueue (λ rs. rs)
in_turn-DocumentedQueue = record { gives = λ P rs a. a; takes = λ P rs a. a }

apply_configured_work_spaces-InUse_example :
    (l : SpaceKeeper) × (apply_configured_work_spaces (λ rs. rs) two_spaces (0 ∷ []) false false
      ≡ applied l)
    × All (Using l.heap) (0 ∷ [])
    × ((p : Ref) → Using l.heap p → OneOf p (0 ∷ []))
    × InUse l
    × ((false || false) ≡ false → l.queue ≡ [])
apply_configured_work_spaces-InUse_example =
    apply_configured_work_spaces-InUse (λ rs. rs) two_spaces 0 [] false false
      in_turn-DocumentedQueue two_spaces-Inv two_spaces-rests two_spaces-listed two_spaces-Indexed

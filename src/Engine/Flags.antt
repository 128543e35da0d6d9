-- ===== src/Engine/Flags.antt =====
-- The flags of a choice of states: States gives the choice back.
use Prim.Native.Nat.{bit_or}
use mass_net_miner.Common.{◌≡◌, refl, Bool, true, false, ◌||◌, not, List, [], ◌∷◌, if◌then◌else◌}
use mass_net_miner.Engine.{
  WorkSpaceState, registered, plotting, ready, mining, WorkSpaceStateFlags, flag, sf_all, is_none,
  contains, states,
}

-- Which states are chosen.
pub record Choice : Type 0 where
  pub of_registered : Bool
  pub of_plotting : Bool
  pub of_ready : Bool
  pub of_mining : Bool

abbrev flag_if : Bool → WorkSpaceState → WorkSpaceStateFlags
flag_if chosen s = if chosen then flag s else 0

-- The flags of the chosen states, or-ed.
abbrev pub flags_of : Choice → WorkSpaceStateFlags
flags_of c = bit_or (flag_if c.of_registered registered) (
    bit_or (flag_if c.of_plotting plotting)
      (bit_or (flag_if c.of_ready ready) (flag_if c.of_mining mining)))

abbrev state_if : Bool → WorkSpaceState → List WorkSpaceState → List WorkSpaceState
state_if chosen s rest = if chosen then s ∷ rest else rest

-- The chosen states, in ascending order.
abbrev pub chosen_states : Choice → List WorkSpaceState
chosen_states c =
    state_if c.of_registered registered
      (state_if c.of_plotting plotting (state_if c.of_ready ready (state_if c.of_mining mining [])))

abbrev pub any_chosen : Choice → Bool
any_chosen c = c.of_registered || c.of_plotting || c.of_ready || c.of_mining

abbrev choose : Bool → Bool → Bool → Bool → Choice
choose a b c d = record { of_registered = a; of_plotting = b; of_ready = c; of_mining = d }

-- What is claimed of a choice.
abbrev Fits : Bool → Bool → Bool → Bool → Type 0
Fits a b c d =
    let f = flags_of (choose a b c d) in
    (states f ≡ chosen_states (choose a b c d))
    × (is_none f ≡ not (any_chosen (choose a b c d)))
    × (contains sf_all f ≡ true)
    × (contains f (flag registered) ≡ a)
    × (contains f (flag plotting) ≡ b)
    × (contains f (flag ready) ≡ c)
    × (contains f (flag mining) ≡ d)

fits : (a b c d : Bool) → Fits a b c d
unfolding states contains flag is_none
fits false false false false = (refl, refl, refl, refl, refl, refl, refl)
fits false false false true = (refl, refl, refl, refl, refl, refl, refl)
fits false false true false = (refl, refl, refl, refl, refl, refl, refl)
fits false false true true = (refl, refl, refl, refl, refl, refl, refl)
fits false true false false = (refl, refl, refl, refl, refl, refl, refl)
fits false true false true = (refl, refl, refl, refl, refl, refl, refl)
fits false true true false = (refl, refl, refl, refl, refl, refl, refl)
fits false true true true = (refl, refl, refl, refl, refl, refl, refl)
fits true false false false = (refl, refl, refl, refl, refl, refl, refl)
fits true false false true = (refl, refl, refl, refl, refl, refl, refl)
fits true false true false = (refl, refl, refl, refl, refl, refl, refl)
fits true false true true = (refl, refl, refl, refl, refl, refl, refl)
fits true true false false = (refl, refl, refl, refl, refl, refl, refl)
fits true true false true = (refl, refl, refl, refl, refl, refl, refl)
fits true true true false = (refl, refl, refl, refl, refl, refl, refl)
fits true true true true = (refl, refl, refl, refl, refl, refl, refl)

-- Of the flags of any choice of states, or-ed: States lists exactly the chosen states in ascending order,
-- IsNone holds exactly if none is chosen, SFAll contains them, and they contain the flag of each state
-- exactly if it is chosen.
pub states-flags_of :
    (c : Choice)
    → (states (flags_of c) ≡ chosen_states c)
      × (is_none (flags_of c) ≡ not (any_chosen c))
      × (contains sf_all (flags_of c) ≡ true)
      × (contains (flags_of c) (flag registered) ≡ c.of_registered)
      × (contains (flags_of c) (flag plotting) ≡ c.of_plotting)
      × (contains (flags_of c) (flag ready) ≡ c.of_ready)
      × (contains (flags_of c) (flag mining) ≡ c.of_mining)
states-flags_of c = fits c.of_registered c.of_plotting c.of_ready c.of_mining

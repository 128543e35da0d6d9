-- ===== src/Engine.antt =====
-- poc/engine/engine.go: the states of a work space, their flags, and the actions.
pub mod Flags
mod Tests
use Prim.Native.Nat.{bit_and}
use mass_net_miner.Common.{ℕ, ◌^◌, Bool, ◌&&◌, List, [], ◌∷◌, leb, ◌==◌, if◌then◌else◌}

-- `iota` gives the states the numbers 0 to 3. No function of the repository makes another state.
pub data WorkSpaceState : Type 0 where
  registered plotting ready mining : WorkSpaceState

abbrev pub number : WorkSpaceState → ℕ
number registered = 0
number plotting = 1
number ready = 2
number mining = 3

abbrev pub WorkSpaceStateFlags : Type 0
WorkSpaceStateFlags = ℕ

-- Flag: 1 << s
unfoldable pub flag : WorkSpaceState → WorkSpaceStateFlags
flag s = 2 ^ number s

abbrev pub sf_all : WorkSpaceStateFlags
sf_all = 15

unfoldable pub is_none : WorkSpaceStateFlags → Bool
is_none f = bit_and f sf_all == 0

unfoldable pub contains : WorkSpaceStateFlags → WorkSpaceStateFlags → Bool
contains f g = bit_and f g == g

-- The loop from FirstState to LastState.
unfoldable states_from : WorkSpaceStateFlags → List WorkSpaceState → List WorkSpaceState
states_from f [] = []
states_from f (s ∷ rest) =
    let others = states_from f rest in if contains f (flag s) then s ∷ others else others

unfoldable pub states : WorkSpaceStateFlags → List WorkSpaceState
unfolding states_from contains flag
states f = states_from f (registered ∷ plotting ∷ ready ∷ mining ∷ [])

-- An ActionType is a uint8.
abbrev pub ActionType : Type 0
ActionType = ℕ

abbrev pub plot : ActionType
plot = 0

abbrev pub mine : ActionType
mine = 1

abbrev pub stop : ActionType
stop = 2

abbrev pub remove : ActionType
remove = 3

abbrev pub delete : ActionType
delete = 4

unfoldable pub action_is_valid : ActionType → Bool
action_is_valid act = leb plot act && leb act delete

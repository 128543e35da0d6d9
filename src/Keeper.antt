-- ===== src/Keeper.antt =====
-- poc/engine/spacekeeper/capacity: the space keeper, its actions on a work space (capacity.go) and
-- the plotter that serves them (space_plotter.go). A method runs under the keeper's lock and is one
-- step; so is each critical section of the plotter.
pub mod Index
pub mod State
pub mod Actions
pub mod Plotting
pub mod Coherent
pub mod Invariant
pub mod Replies
pub mod Disuse
pub mod Safe
pub mod Served
pub mod Plotted
pub mod Steps
pub mod Initial
pub mod Turns
pub mod Reached
pub mod Behaviour
pub mod Pending
mod Tests
